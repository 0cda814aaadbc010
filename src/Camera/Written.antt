-- ===== src/Camera/Written.antt =====
-- The members of a value as they are written and parsed again, for helpers/camera_registry.hpp.
use droneengage_common.Common.{
  ◌≡◌, refl, ap, ◌∙◌, Bool, Option, none, some, String, str_eq, [], ◌∷◌, if_rule, Bool-cases, inl,
  inr,
}
use droneengage_common.Common.Assoc.{Assoc, lookup, insert, str_lt}
use droneengage_common.Common.Int.{pos, negsuc}
use droneengage_common.Json.{
  Json, Members, null, boolean, integer, unsigned, float, string, array, object, end, member,
  members, at, fields, reread, reread_members,
}
use droneengage_common.Camera.Registry.{cameras_of, object_of, members_or_none}

module _ {F : Type 0} (is_finite : F → Bool) where
  abbrev pub reread_all : Assoc (Json F) → Assoc (Json F)
  reread_all [] = []
  reread_all ((k, v) ∷ m) = (k, reread is_finite v) ∷ reread_all m

  abbrev pub reread_some : Option (Json F) → Option (Json F)
  reread_some none = none
  reread_some (some v) = some (reread is_finite v)

  abbrev pub reread_object : Option (Members F) → Option (Members F)
  reread_object none = none
  reread_object (some ms) = some (reread_members is_finite ms)

  pub members-reread_members :
      (ms : Members F) → members (reread_members is_finite ms) ≡ reread_all (members ms)
  unfolding reread
  members-reread_members end = refl
  members-reread_members (member k v ms) =
      ap (◌∷◌ (k, reread is_finite v)) (members-reread_members ms)

  lookup-reread_all :
      (k : String) (m : Assoc (Json F)) → lookup k (reread_all m) ≡ reread_some (lookup k m)
  unfolding lookup
  lookup-reread_all k [] = refl
  lookup-reread_all k ((j, v) ∷ m) = elim (Bool-cases (str_eq j k)) [
    | inl e ↦ rw e refl
    | inr e ↦ rw e (lookup-reread_all k m)
  ]

  pub reread_all-insert :
      (k : String) (v : Json F) (m : Assoc (Json F))
      → reread_all (insert k v m) ≡ insert k (reread is_finite v) (reread_all m)
  unfolding insert
  reread_all-insert k v [] = refl
  reread_all-insert k v ((j, w) ∷ m) = elim (Bool-cases (str_eq j k)) [
    | inl e ↦ rw e refl
    | inr e ↦ elim (Bool-cases (str_lt k j)) [
      | inl f ↦ rw (e, f) refl
      | inr f ↦ rw (e, f) (ap (◌∷◌ (j, reread is_finite w)) (reread_all-insert k v m))
    ]
  ]

  fields-reread : (j : Json F) → fields (reread is_finite j) ≡ reread_all (fields j)
  unfolding reread
  fields-reread null = refl
  fields-reread (boolean b) = refl
  fields-reread (integer (pos n)) = refl
  fields-reread (integer (negsuc n)) = refl
  fields-reread (unsigned n) = refl
  fields-reread (float x) =
      if_rule (λ j. fields j ≡ []) (is_finite x) (float x) null (λ e. refl) (λ e. refl)
  fields-reread (string s) = refl
  fields-reread (array vs) = refl
  fields-reread (object ms) = members-reread_members ms

  object_of-reread_some :
      (v : Option (Json F)) → object_of (reread_some v) ≡ reread_object (object_of v)
  unfolding reread
  object_of-reread_some none = refl
  object_of-reread_some (some null) = refl
  object_of-reread_some (some (boolean b)) = refl
  object_of-reread_some (some (integer (pos n))) = refl
  object_of-reread_some (some (integer (negsuc n))) = refl
  object_of-reread_some (some (unsigned n)) = refl
  object_of-reread_some (some (float x)) =
      if_rule (λ j. object_of (some j) ≡ none) (is_finite x) (float x) null (λ e. refl) (λ e. refl)
  object_of-reread_some (some (string s)) = refl
  object_of-reread_some (some (array vs)) = refl
  object_of-reread_some (some (object ms)) = refl

  -- The cameras of a document that was written.
  pub cameras_of-reread :
      (j : Json F) → cameras_of (reread is_finite j) ≡ reread_object (cameras_of j)
  cameras_of-reread j =
      ap (λ m. object_of (lookup "cameras" m)) (fields-reread j)
      ∙ ap object_of (lookup-reread_all "cameras" (fields j))
      ∙ object_of-reread_some (at "cameras" j)

  pub members_or_none-reread_object :
      (ms : Option (Members F))
      → members_or_none (reread_object ms) ≡ reread_all (members_or_none ms)
  members_or_none-reread_object none = refl
  members_or_none-reread_object (some ms) = members-reread_members ms
