-- ===== src/Config/Merge.antt =====
-- `deepMerge` of de_databus/configFile.cpp.
use droneengage_common.Common.{
  ◌≡◌, refl, ap, eq_iff, ◌∙◌, Bool-cases, subst, eq_refl, inl, inr, arith, Bool, false, ◌&&◌,
  Option, none, some, String, str_eq, [], ◌∷◌, if◌then◌else◌,
}
use droneengage_common.Common.Assoc.{Assoc, lookup, insert, lookup-insert}
use droneengage_common.Json.{
  Json, Members, null, boolean, integer, unsigned, float, string, array, object, end, member,
  members, of_members, at, fields, is_object,
}

module _ {F : Type 0} where
  -- `j[key] = v` of an object.
  abbrev pub put : String → Json F → Json F → Json F
  put k v t = object (of_members (insert k v (fields t)))

  -- The object that the assignments `j[key] = value` make of a new value, the first one first.
  unfoldable pub assign_all : Json F → Assoc (Json F) → Json F
  assign_all j [] = j
  assign_all j ((k, v) ∷ entries) = assign_all (put k v j) entries

  abbrev pub holds_object : Option (Json F) → Bool
  holds_object none = false
  holds_object (some v) = is_object v

  abbrev pub or_null : Option (Json F) → Json F
  or_null none = null
  or_null (some v) = v

  unfoldable mutual
    unfolding insert lookup

    pub deep_merge : Json F → Json F → Json F
    deep_merge (object ms) target =
        merge_members ms (if is_object target then target else object end)
    deep_merge null target = null
    deep_merge (boolean b) target = boolean b
    deep_merge (integer n) target = integer n
    deep_merge (unsigned n) target = unsigned n
    deep_merge (float x) target = float x
    deep_merge (string s) target = string s
    deep_merge (array vs) target = array vs

    pub merge_members : Members F → Json F → Json F
    merge_members end target = target
    merge_members (member k v ms) target =
        let merged = deep_merge v (or_null (at k target)) in
        merge_members ms
          (put k (if holds_object (at k target) && is_object v then merged else v) target)

  -- What the merge leaves under a key: an object on an object is merged, any other value replaces.
  abbrev pub merged_value : Option (Json F) → Option (Json F) → Option (Json F)
  merged_value none old = old
  merged_value (some v) old =
      some (if holds_object old && is_object v then deep_merge v (or_null old) else v)

  -- The keys of the members differ, as in every map.
  unfoldable pub IsMap : Members F → Type 0
  IsMap end = Unit
  IsMap (member k v ms) = (lookup k (members ms) ≡ none) × IsMap ms

  pub members-of_members : (m : Assoc (Json F)) → members (of_members m) ≡ m
  members-of_members [] = refl
  members-of_members ((k, v) ∷ m) = ap (λ x. (k, v) ∷ x) (members-of_members m)

  pub at-put :
      (k j : String) (v t : Json F) → at j (put k v t) ≡ (if str_eq k j then some v else at j t)
  at-put k j v t = rw (members-of_members (insert k v (fields t))) (lookup-insert k j v (fields t))

  at-merge_members :
      (ms : Members F) (t : Json F) (j : String)
      → IsMap ms
      → at j (merge_members ms t) ≡ merged_value (lookup j (members ms)) (at j t)
  unfolding merge_members IsMap lookup
  at-merge_members end t j h = refl
  at-merge_members (member k v ms) t j (new, h) =
      let merged = deep_merge v (or_null (at k t)) in
      let w = if holds_object (at k t) && is_object v then merged else v in
      at-merge_members ms (put k w t) j h ∙ elim (Bool-cases (str_eq k j)) [
        | inl e ↦
            subst
              (λ x.
                merged_value (lookup x (members ms)) (at x (put k w t))
                ≡ merged_value (if str_eq k x then some v else lookup x (members ms)) (at x t))
              {x = k} {y = j} (ground (arith, eq_iff k j, e))
              (rw (new, at-put k k w t, eq_refl k) refl)
        | inr e ↦ rw (at-put k j w t, e) refl
      ]

  at-none : (j : String) (t : Json F) → is_object t ≡ false → at j t ≡ none
  unfolding lookup
  at-none j null h = refl
  at-none j (boolean b) h = refl
  at-none j (integer n) h = refl
  at-none j (unsigned n) h = refl
  at-none j (float x) h = refl
  at-none j (string s) h = refl
  at-none j (array vs) h = refl
  at-none j (object ms) h = absurd (ground arith)

  -- What is found under a key after an object of overrides was merged: what was there, if the overrides do
  -- not have the key; the merge of the two, if both are objects; and otherwise the override.
  pub at-deep_merge :
      (ms : Members F) (target : Json F) (j : String)
      → IsMap ms
      → at j (deep_merge (object ms) target) ≡ merged_value (lookup j (members ms)) (at j target)
  unfolding deep_merge lookup
  at-deep_merge ms target j h = elim (Bool-cases (is_object target)) [
    | inl e ↦ rw e (at-merge_members ms target j h)
    | inr e ↦ rw (e, at-none j target e) (at-merge_members ms (object end) j h)
  ]
