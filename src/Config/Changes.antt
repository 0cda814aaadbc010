-- ===== src/Config/Changes.antt =====
-- Runs of changes of the fields of a local configuration: de_databus/localConfigFile.cpp.
use droneengage_common.Common.{
  eq_iff, ◌≡◌, refl, sym, ap, subst, ◌∙◌, ℕ, Bool, true, false, Option, none, some, String, str_eq,
  List, [], ◌∷◌, if◌then◌else◌, on_some, if_rule, Bool-cases, inl, inr, arith,
}
use droneengage_common.Common.Assoc.{lookup, erase, is_some, lookup-erase}
use droneengage_common.Json.{Json, null, object, at, members, string, unsigned, float}
use droneengage_common.Config.Merge.{put, at-put, members-of_members}
use droneengage_common.Config.File.{assign}
use droneengage_common.Config.Local.{
  LocalConfigFile, set_field, add_string_field, add_numeric_field, add_double_field, modify_field,
  remove_field_by_name, erased,
}

-- A change of a field.
pub data Change (F : Type 0) : Type 0 where
  adds_string : String → String → Change F
  adds_numeric : String → ℕ → Change F
  adds_double : String → F → Change F
  modifies : String → Json F → Change F
  removes : String → Change F

module _ {F : Type 0} where
  unfoldable pub change : Change F → LocalConfigFile F → Option (LocalConfigFile F)
  unfolding add_string_field add_numeric_field add_double_field modify_field remove_field_by_name
  change (adds_string k v) s = add_string_field k v s
  change (adds_numeric k v) s = add_numeric_field k v s
  change (adds_double k v) s = add_double_field k v s
  change (modifies k v) s = modify_field k v s
  change (removes k) s = some (remove_field_by_name k s)

  unfoldable pub changes : List (Change F) → LocalConfigFile F → Option (LocalConfigFile F)
  unfolding change
  changes [] s = some s
  changes (c ∷ cs) s = on_some (change c s) (λ t. changes cs t)

  -- The key of a change, and the value that it leaves there.
  abbrev key_of : Change F → String
  key_of (adds_string k v) = k
  key_of (adds_numeric k v) = k
  key_of (adds_double k v) = k
  key_of (modifies k v) = k
  key_of (removes k) = k

  abbrev value_of : Change F → Option (Json F)
  value_of (adds_string k v) = some (string v)
  value_of (adds_numeric k v) = some (unsigned v)
  value_of (adds_double k v) = some (float v)
  value_of (modifies k v) = some v
  value_of (removes k) = none

  -- What stands under a key after the changes: what the last change of the key says.
  abbrev pub value_after : List (Change F) → String → Option (Json F) → Option (Json F)
  value_after [] key old = old
  value_after (c ∷ cs) key old =
      value_after cs key (if str_eq (key_of c) key then value_of c else old)

  -- A configuration that has fields, or nothing yet.
  abbrev pub has_fields : Json F → Bool
  has_fields null = true
  has_fields (object ms) = true
  has_fields _ = false

  -- What one change does.
  record IsChanged (c : Change F) (s t : LocalConfigFile F) : Type 0 where
    done : change c s ≡ some t
    has_fields_after : has_fields t.config ≡ true
    parsed : t.parse_failed ≡ s.parse_failed
    found :
        (key : String)
        → at key t.config ≡ (if str_eq (key_of c) key then value_of c else at key s.config)

  assign-put : (k : String) (v j : Json F) → has_fields j ≡ true → assign k v j ≡ some (put k v j)
  unfolding assign
  assign-put k v null h = refl
  assign-put k v (object ms) h = refl
  assign-put k v _ h = absurd (ground (arith, h))

  set_field-put :
      (k : String) (v : Json F) (s : LocalConfigFile F)
      → has_fields s.config ≡ true
      → set_field k v s ≡ some (record s { config = put k v s.config })
  unfolding set_field
  set_field-put k v s h = rw (assign-put k v s.config h) refl

  modify_field-set_field :
      (k : String) (v : Json F) (s : LocalConfigFile F) → modify_field k v s ≡ set_field k v s
  unfolding modify_field
  modify_field-set_field k v s =
      if_rule (λ (r : Option (LocalConfigFile F)). r ≡ set_field k v s) (is_some (at k s.config)) _
        _ (λ e. refl) (λ e. refl)

  both_none : (b : Bool) (x : Option (Json F)) → x ≡ (if b then x else x)
  both_none true x = refl
  both_none false x = refl

  at-erased :
      (k key : String) (j : Json F)
      → at key (erased k j) ≡ (if str_eq k key then none else at key j)
  unfolding lookup
  at-erased k key (object ms) =
      ap (lookup key) (members-of_members (erase k (members ms))) ∙ lookup-erase k key (members ms)
  at-erased k key _ = both_none (str_eq k key) none

  at-remove_field_by_name :
      (k key : String) (s : LocalConfigFile F)
      → at key (remove_field_by_name k s).config ≡ (if str_eq k key then none else at key s.config)
  unfolding remove_field_by_name
  at-remove_field_by_name k key s =
      if_rule
        (λ (t : LocalConfigFile F).
          at key t.config ≡ (if str_eq k key then none else at key s.config))
        (is_some (at k s.config)) _ _ (λ e. at-erased k key s.config)
        (λ e. elim (Bool-cases (str_eq k key)) [
          | inl same ↦
              let absent : at key s.config ≡ none =
                subst (λ x. at x s.config ≡ none) ((eq_iff k key).0 same)
                  (nothing (at k s.config) e) in
              absent ∙ rw same refl
          | inr differs ↦ rw differs refl
        ])
    where
      nothing : (x : Option (Json F)) → is_some x ≡ false → x ≡ none
      nothing none h = refl
      nothing (some v) h = absurd (ground (arith, h))

  has_fields-erased :
      (k : String) (j : Json F) → has_fields j ≡ true → has_fields (erased k j) ≡ true
  has_fields-erased k (object ms) h = refl
  has_fields-erased k null h = refl
  has_fields-erased k _ h = absurd (ground (arith, h))

  set_field-IsChanged :
      (c : Change F) (k : String) (v : Json F) (s : LocalConfigFile F)
      → change c s ≡ set_field k v s
      → key_of c ≡ k
      → value_of c ≡ some v
      → has_fields s.config ≡ true
      → IsChanged c s (record s { config = put k v s.config })
  set_field-IsChanged c k v s same key value h = record {
    done = same ∙ set_field-put k v s h;
    has_fields_after = refl;
    parsed = refl;
    found = λ other.
        at-put k other v s.config
        ∙ ap (λ x. if str_eq x other then some v else at other s.config) (sym key)
        ∙ ap (λ x. if str_eq (key_of c) other then x else at other s.config) (sym value);
  }

  change_lem :
      (c : Change F) (s : LocalConfigFile F)
      → has_fields s.config ≡ true
      → (t : LocalConfigFile F) × IsChanged c s t
  unfolding change add_string_field add_numeric_field add_double_field
  change_lem (adds_string k v) s h =
      (_, set_field-IsChanged (adds_string k v) k (string v) s refl refl refl h)
  change_lem (adds_numeric k v) s h =
      (_, set_field-IsChanged (adds_numeric k v) k (unsigned v) s refl refl refl h)
  change_lem (adds_double k v) s h =
      (_, set_field-IsChanged (adds_double k v) k (float v) s refl refl refl h)
  change_lem (modifies k v) s h =
      (_, set_field-IsChanged (modifies k v) k v s (modify_field-set_field k v s) refl refl h)
  change_lem (removes k) s h = (
    remove_field_by_name k s,
    record {
      done = refl;
      has_fields_after = has_fields-removed k s h;
      parsed = parse_failed-removed k s;
      found = λ key. at-remove_field_by_name k key s;
    },
  )
    where
      has_fields-removed :
          (k : String) (s : LocalConfigFile F)
          → has_fields s.config ≡ true
          → has_fields (remove_field_by_name k s).config ≡ true
      has_fields-removed k s h =
          unfold remove_field_by_name in
          if_rule (λ (t : LocalConfigFile F). has_fields t.config ≡ true) (is_some (at k s.config))
            _ _ (λ e. has_fields-erased k s.config h) (λ e. h)

      parse_failed-removed :
          (k : String) (s : LocalConfigFile F)
          → (remove_field_by_name k s).parse_failed ≡ s.parse_failed
      parse_failed-removed k s =
          unfold remove_field_by_name in
          if_rule (λ (t : LocalConfigFile F). t.parse_failed ≡ s.parse_failed)
            (is_some (at k s.config)) _ _ (λ e. refl) (λ e. refl)

  -- What a run of changes does.
  pub record IsResult (cs : List (Change F)) (s t : LocalConfigFile F) : Type 0 where
    pub done : changes cs s ≡ some t
    pub parsed : t.parse_failed ≡ s.parse_failed
    pub found : (key : String) → at key t.config ≡ value_after cs key (at key s.config)

  pub changes_lem :
      (cs : List (Change F)) (s : LocalConfigFile F)
      → has_fields s.config ≡ true
      → (t : LocalConfigFile F) × IsResult cs s t
  unfolding changes
  changes_lem [] s h = (s, record { done = refl; parsed = refl; found = λ key. refl })
  changes_lem (c ∷ cs) s h =
      let first = change_lem c s h in
      let rest = changes_lem cs first.0 first.1.has_fields_after in
      (
        rest.0,
        record {
          done = ap (λ r. on_some r (λ t. changes cs t)) first.1.done ∙ rest.1.done;
          parsed = rest.1.parsed ∙ first.1.parsed;
          found = λ key. rest.1.found key ∙ ap (value_after cs key) (first.1.found key);
        },
      )
