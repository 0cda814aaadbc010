-- ===== src/Config/Local.antt =====
-- `CLocalConfigFile` of de_databus/localConfigFile.cpp. The parser and the printer of the JSON library are parameters;
-- the file is its text, if there is one. `none` is the end of the process, or an exception.
use Prim.Native.Char.{code}
use Prim.Native.String.{◌++◌ as str_append}
use droneengage_common.Common.{
  ℕ, ◌-◌, ◌%◌, ◌^◌, Bool, false, ◌&&◌, ◌||◌, Option, none, some, String, ◌==◌, ltb, if◌then◌else◌,
}
use droneengage_common.Common.Assoc.{lookup, erase, is_some}
use droneengage_common.Common.Int.{ℤ, pos, negsuc}
use droneengage_common.Common.Float.{FloatOps}
use droneengage_common.Json.{
  Json, null, string, unsigned, float, object, at, fields, of_members, is_number, as_int, as_double,
}
use droneengage_common.Config.File.{remove_comments, assign}

-- `isspace`
unfoldable pub is_space : ℕ → Bool
is_space c = c == 32 || (ltb 8 c && ltb c 14)

-- Whether the first character that is no space closes an object or an array.
unfoldable pub closes_next : String → Bool
unfolding is_space
closes_next String.[] = false
closes_next (String.◌∷◌ c s) =
    let later = closes_next s in
    if is_space (code c) then later else code c == b'}' || code c == b']'

-- The text without the commas in front of a closing bracket.
unfoldable pub drop_commas : String → String
unfolding closes_next
drop_commas String.[] = String.[]
drop_commas (String.◌∷◌ c s) =
    let rest = drop_commas s in if code c == b',' && closes_next s then rest else String.◌∷◌ c rest

pub record LocalConfigFile (F : Type 0) : Type 0 where
  pub config : Json F
  -- the stream that files are read into, which is never emptied
  pub file_contents : String
  pub parse_failed : Bool

-- A numeric field that is missing.
abbrev pub no_number : ℕ
no_number = 0xffffffff

-- The conversion of an `int` to `u_int32_t`.
abbrev pub to_u32 : ℤ → ℕ
to_u32 (pos n) = n % 2 ^ 32
to_u32 (negsuc n) = 2 ^ 32 - 1 - n % 2 ^ 32

module _ {F : Type 0} where
  abbrev pub new_local : LocalConfigFile F
  new_local = record { config = null; file_contents = ""; parse_failed = false }

  abbrev pub with_config : LocalConfigFile F → Option (Json F) → Option (LocalConfigFile F)
  with_config s none = none
  with_config s (some j) = some (record s { config = j })

  -- `m_ConfigJSON[key] = value`
  unfoldable pub set_field : String → Json F → LocalConfigFile F → Option (LocalConfigFile F)
  unfolding assign
  set_field key value s = with_config s (assign key value s.config)

  unfoldable pub add_string_field : String → String → LocalConfigFile F → Option (LocalConfigFile F)
  unfolding set_field
  add_string_field key value s = set_field key (string value) s

  unfoldable pub add_numeric_field : String → ℕ → LocalConfigFile F → Option (LocalConfigFile F)
  unfolding set_field
  add_numeric_field key value s = set_field key (unsigned value) s

  unfoldable pub add_double_field : String → F → LocalConfigFile F → Option (LocalConfigFile F)
  unfolding set_field
  add_double_field key value s = set_field key (float value) s

  -- The three `Modify` functions, whose branches differ in what they log.
  unfoldable pub modify_field : String → Json F → LocalConfigFile F → Option (LocalConfigFile F)
  unfolding set_field lookup
  modify_field key value s =
      if is_some (at key s.config) then set_field key value s else set_field key value s

  abbrev pub erased : String → Json F → Json F
  erased key (object ms) = object (of_members (erase key (fields (object ms))))
  erased key j = j

  unfoldable pub remove_field_by_name : String → LocalConfigFile F → LocalConfigFile F
  unfolding erase lookup
  remove_field_by_name key s =
      if is_some (at key s.config) then record s { config = erased key s.config } else s

  abbrev text_value : Json F → Option String
  text_value (string t) = some t
  text_value _ = none

  unfoldable pub get_string_field : String → LocalConfigFile F → Option String
  unfolding lookup
  get_string_field key s = elim (at key s.config) [ none ↦ some "" | some v ↦ text_value v ]

  -- What `WriteFile` leaves in the file.
  unfoldable pub write_file : (Json F → String) → Bool → LocalConfigFile F → Option String
  write_file dump can_write s = if can_write then some (dump s.config) else none

  -- `apply`: the text of the file after it.
  unfoldable pub apply_file :
      (Json F → String) → Bool → Option String → LocalConfigFile F → Option (Option String)
  unfolding write_file
  apply_file dump can_write file s =
      if s.parse_failed
      then some file
      else elim (write_file dump can_write s) [ none ↦ none | some t ↦ some (some t) ]

  unfoldable pub clear_file :
      (Json F → String) → Bool → LocalConfigFile F → Option (LocalConfigFile F × String)
  unfolding write_file
  clear_file dump can_write s =
      let empty = record s { config = null } in
      elim (write_file dump can_write empty) [ none ↦ none | some t ↦ some (empty, t) ]

  -- The object and the file after `ReadFile`.
  unfoldable pub read_file :
      (Json F → String)
      → Bool
      → Option String
      → LocalConfigFile F
      → Option (LocalConfigFile F × String)
  unfolding write_file
  read_file dump can_write none s = elim (write_file dump can_write s) [
    | none ↦ none
    | some t ↦ some (record s { file_contents = str_append s.file_contents (dump s.config) }, t)
  ]
  read_file dump can_write (some t) s =
      some (record s { file_contents = str_append s.file_contents t }, t)

  unfoldable pub parse_data :
      (String → Option (Json F)) → String → LocalConfigFile F → Option (LocalConfigFile F)
  unfolding remove_comments drop_commas
  parse_data parse text s =
      with_config (record s { parse_failed = false }) (parse (drop_commas (remove_comments text)))

  -- `InitConfigFile`: the object, and the text of the file.
  unfoldable pub init_local :
      (Json F → String)
      → (String → Option (Json F))
      → Bool
      → Option String
      → LocalConfigFile F
      → Option (LocalConfigFile F × String)
  unfolding read_file parse_data
  init_local dump parse can_write file s =
      elim (read_file dump can_write file (record s { config = null })) [
        | none ↦ none
        | some (r, t) ↦ elim (parse_data parse r.file_contents r) [
          | none ↦ none
          | some u ↦ some (u, t)
        ]
      ]

module _ {F : Type 0} ⦃o : FloatOps F⦄ where
  unfoldable pub get_numeric_field : String → LocalConfigFile F → Option ℕ
  unfolding as_int lookup
  get_numeric_field key s = elim (at key s.config) [
    | none ↦ some no_number
    | some v ↦ (elim (as_int v) [ none ↦ none | some n ↦ some (to_u32 n) ])
  ]

  unfoldable pub get_double_field : String → LocalConfigFile F → Option F
  unfolding as_double lookup
  get_double_field key s = elim (at key s.config) [
    | none ↦ some (o.of_int (pos 0))
    | some v ↦ if is_number v then as_double v else some (o.of_int (pos 0))
  ]
