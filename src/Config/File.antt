-- ===== src/Config/File.antt =====
-- `CConfigFile` of de_databus/configFile.cpp and `removeComments` of helpers/helpers.cpp. The parser of the
-- JSON library is a parameter, as are the texts of the files; `none` is the end of the process.
use Prim.Native.Char.{code}
use Prim.Native.String.{◌++◌ as str_append}
use droneengage_common.Common.{
  ℕ, suc, Bool, true, false, ◌&&◌, ◌||◌, not, Option, none, some, String, str_eq, List, [], ◌∷◌,
  ◌==◌, if◌then◌else◌,
}
use droneengage_common.Common.Assoc.{Assoc, lookup, insert}
use droneengage_common.Common.Text.{to_string}
use droneengage_common.Json.{Json, null, array, object, nil, end, at, items, members, is_null}
use droneengage_common.Config.Merge.{put, deep_merge}

-- `removeComments` from a place in the text, with `s_cmt` and `m_cmt`.
unfoldable pub strip : (s_cmt m_cmt : Bool) → String → String
strip s m String.[] = ""
strip s m (String.◌∷◌ c String.[]) =
    if s && code c == 10 then "" else if s || m then "" else String.◌∷◌ c String.[]
strip s m (String.◌∷◌ c (String.◌∷◌ d r)) =
    let line_ends = strip false m (String.◌∷◌ d r) in
    let block_ends = strip s false r in
    let ignored = strip s m (String.◌∷◌ d r) in
    let line_starts = strip true m r in
    let block_starts = strip s true r in
    if s && code c == 10
    then line_ends
    else if m && code c == b'*' && code d == b'/'
    then block_ends
    else if s || m
    then ignored
    else if code c == b'/' && code d == b'/'
    then line_starts
    else if code c == b'/' && code d == b'*'
    then block_starts
    else String.◌∷◌ c ignored

unfoldable pub remove_comments : String → String
unfolding strip
remove_comments text = strip false false text

-- The parts of a key between dots; empty parts are left out. `part` is what has been read of one.
unfoldable pub path_parts : (part : String) → String → List String
path_parts part String.[] = if str_eq part "" then [] else part ∷ []
path_parts part (String.◌∷◌ c s) =
    let after = path_parts "" s in
    let longer = path_parts (str_append part (String.◌∷◌ c String.[])) s in
    if code c == b'.' then (if str_eq part "" then after else part ∷ after) else longer

-- `key.find ('.') != npos`
unfoldable pub has_dot : String → Bool
has_dot String.[] = false
has_dot (String.◌∷◌ c s) = code c == b'.' || has_dot s

module _ {F : Type 0} where
  -- `j[key] = v`: an exception, `none`, where the value is neither an object nor null.
  unfoldable pub assign : String → Json F → Json F → Option (Json F)
  unfolding insert
  assign k v null = some (put k v null)
  assign k v (object ms) = some (put k v (object ms))
  assign k v _ = none

  abbrev node_at : Option (Json F) → Json F
  node_at none = object end
  node_at (some v) = v

  -- The walk to the last part of a dotted key. An exception comes before anything is changed.
  unfoldable pub assign_path : List String → Json F → Json F → Option (Json F)
  unfolding assign lookup
  assign_path [] v t = some t
  assign_path (k ∷ []) v t = assign k v t
  assign_path (k ∷ l ∷ ks) v t = elim (assign_path (l ∷ ks) v (node_at (at k t))) [
    | none ↦ none
    | some x ↦ assign k x t
  ]

  -- An entry of the update.
  unfoldable pub assign_key : String → Json F → Json F → Option (Json F)
  unfolding assign_path has_dot path_parts
  assign_key key v t = if has_dot key then assign_path (path_parts "" key) v t else assign key v t

  -- `applyUpdateJSON`: what it leaves, and if an exception ended it.
  unfoldable pub apply_entries : Assoc (Json F) → Json F → Json F × Bool
  unfolding assign_key
  apply_entries [] t = (t, false)
  apply_entries ((k, v) ∷ es) t = elim (assign_key k v t) [
    | none ↦ (t, true)
    | some x ↦ apply_entries es x
  ]

  -- `json.empty ()`
  unfoldable pub is_empty : Json F → Bool
  is_empty null = true
  is_empty (array nil) = true
  is_empty (object end) = true
  is_empty _ = false

  -- `json.items ()`: an array has its indices as keys, and any other value but null an empty key.
  abbrev numbered : ℕ → List (Json F) → Assoc (Json F)
  numbered i [] = []
  numbered i (v ∷ vs) = (to_string i, v) ∷ numbered (suc i) vs

  unfoldable pub entries_of : Json F → Assoc (Json F)
  unfolding to_string
  entries_of null = []
  entries_of (object ms) = members ms
  entries_of (array vs) = numbered 0 (items vs)
  entries_of v = ("", v) ∷ []

-- `CConfigFile`; the time is that of the last write that it knows of.
pub record ConfigFile (F : Type 0) : Type 0 where
  pub config : Json F
  pub base : Json F
  pub local_overrides : Json F
  pub last_write : ℕ
  pub update_pending : Bool

module _ {F : Type 0} where
  -- `m_lastWriteTime = last_write_time (...)`, unless that fails.
  abbrev pub stamp : Option ℕ → ConfigFile F → ConfigFile F
  stamp none s = s
  stamp (some time) s = record s { last_write = time }

  unfoldable pub apply_local_overrides : Json F → ConfigFile F → ConfigFile F
  unfolding deep_merge is_empty
  apply_local_overrides o s =
      if is_null o || is_empty o
      then record s { local_overrides = o }
      else record s { local_overrides = o; config = deep_merge o s.base }

  -- `fileUpdated`: the answer, and the object after it. `time` is none if the time cannot be read.
  unfoldable pub file_updated :
      (has_url exists : Bool) → (time : Option ℕ) → ConfigFile F → Bool × ConfigFile F
  file_updated has_url exists time s =
      if s.update_pending
      then (true, record s { update_pending = false })
      else if not has_url || not exists
      then (false, s)
      else elim time [
        | none ↦ (false, s)
        | some w ↦ if w == s.last_write then (false, s) else (true, record s { last_write = w })
      ]

  -- `saveConfigFile`: the object, and the document that is written, if the file can be opened.
  unfoldable pub save_config_file :
      (can_write : Bool) (time : Option ℕ) → ConfigFile F → ConfigFile F × Option (Json F)
  save_config_file can_write time s = if can_write then (stamp time s, some s.base) else (s, none)

  -- `initConfigFile`, `reloadFile` and `updateJSON` after the parser.
  unfoldable pub init_with :
      Option (Json F) → (time : Option ℕ) → ConfigFile F → Option (ConfigFile F)
  init_with none time s = none
  init_with (some j) time s = some (stamp time (record s { config = j; base = j }))

  unfoldable pub reload_with :
      Option (Json F) → (time : Option ℕ) → ConfigFile F → Option (ConfigFile F)
  unfolding apply_local_overrides
  reload_with none time s = none
  reload_with (some j) time s =
      let read = record s { update_pending = false; config = j; base = j } in
      some (
        stamp time (
          if is_null s.local_overrides then read else apply_local_overrides s.local_overrides read))

  -- An exception ends the update where it stands.
  unfoldable pub update_json_with :
      Option (Json F)
      → (can_write : Bool) (time : Option ℕ) → ConfigFile F
      → ConfigFile F × Option (Json F)
  unfolding apply_entries entries_of save_config_file
  update_json_with none can_write time s = (record s { update_pending = true }, none)
  update_json_with (some u) can_write time s =
      let c = apply_entries (entries_of u) s.config in
      let b = apply_entries (entries_of u) s.base in
      if c.1
      then (record s { update_pending = true; config = c.0 }, none)
      else if b.1
      then (record s { update_pending = true; config = c.0; base = b.0 }, none)
      else save_config_file can_write time
          (record s { update_pending = true; config = c.0; base = b.0 })

  module _ (parse : String → Option (Json F)) where
    unfoldable pub init_config_file :
        (text : String) (time : Option ℕ) → ConfigFile F → Option (ConfigFile F)
    unfolding remove_comments init_with
    init_config_file text time s = init_with (parse (remove_comments text)) time s

    unfoldable pub reload_file :
        (text : String) (time : Option ℕ) → ConfigFile F → Option (ConfigFile F)
    unfolding remove_comments reload_with
    reload_file text time s = reload_with (parse (remove_comments text)) time s

    unfoldable pub update_json :
        (text : String) (can_write : Bool) (time : Option ℕ)
        → ConfigFile F
        → ConfigFile F × Option (Json F)
    unfolding remove_comments update_json_with
    update_json text can_write time s =
        update_json_with (parse (remove_comments text)) can_write time s
