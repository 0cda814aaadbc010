-- ===== src/Camera/Loop.antt =====
-- The loop that loads the entries of a registry: helpers/camera_registry.hpp.
use droneengage_common.Common.{
  ◌≡◌, refl, ap, subst, ◌∙◌, Bool, true, false, ◌||◌, Option, none, some, String, str_eq, eq_iff,
  [], ◌∷◌, if◌then◌else◌, if_rule, Bool-cases, inl, inr, arith,
}
use droneengage_common.Common.Assoc.{Assoc, lookup, insert, lookup-insert, str_lt}
use droneengage_common.Common.Order.{IsSorted, IsAbove, lookup-IsAbove}
use droneengage_common.Common.Float.{FloatOps}
use droneengage_common.Json.{Json}
use droneengage_common.Camera.Entry.{CameraEntry}
use droneengage_common.Camera.Registry.{
  Verdict, keep, skip, throw, Loaded, LoadError, verdict, take_verdict, load_entries,
}

or_false : (a b : Bool) → (a || b) ≡ false → (a ≡ false) × (b ≡ false)
or_false true b h = absurd (ground (arith, h))
or_false false b h = (refl, h)

module _ {F : Type 0} ⦃o : FloatOps F⦄ where
  abbrev pub is_throw : Verdict F → Bool
  is_throw throw = true
  is_throw _ = false

  abbrev pub any_throws : Assoc (Json F) → Bool
  any_throws [] = false
  any_throws ((id, j) ∷ entries) = is_throw (verdict j) || any_throws entries

  -- What is found under an id, given what stands there in the file and what was found before.
  abbrev pub kept : Verdict F → Option (CameraEntry F) → Option (CameraEntry F)
  kept (keep e) old = some e
  kept (skip problem) old = old
  kept throw old = old

  abbrev pub after : Option (Json F) → Option (CameraEntry F) → Option (CameraEntry F)
  after none old = old
  after (some j) old = kept (verdict j) old

  thrown-take_verdict :
      (v : Verdict F) (id : String) (more : Option LoadError → Assoc (CameraEntry F) → Loaded F)
      (t : Bool)
      → ((e : Option LoadError) (c : Assoc (CameraEntry F)) → (more e c).thrown ≡ t)
      → (error : Option LoadError) (cameras : Assoc (CameraEntry F))
      → (take_verdict v id more error cameras).thrown ≡ (is_throw v || t)
  unfolding take_verdict
  thrown-take_verdict (keep e) id more t h error cameras = h _ _
  thrown-take_verdict (skip problem) id more t h error cameras = h _ _
  thrown-take_verdict throw id more t h error cameras = refl

  pub thrown-load_entries :
      (entries : Assoc (Json F)) (error : Option LoadError) (cameras : Assoc (CameraEntry F))
      → (load_entries entries error cameras).thrown ≡ any_throws entries
  unfolding load_entries
  thrown-load_entries [] error cameras = refl
  thrown-load_entries ((id, j) ∷ entries) error cameras =
      thrown-take_verdict (verdict j) id (load_entries entries) (any_throws entries)
        (thrown-load_entries entries) error cameras

  pub any_throws-insert :
      (id : String) (j : Json F) (entries : Assoc (Json F))
      → is_throw (verdict j) ≡ false
      → any_throws entries ≡ false
      → any_throws (insert id j entries) ≡ false
  unfolding insert
  any_throws-insert id j [] h k = ground (arith, h)
  any_throws-insert id j ((first, held) ∷ entries) h k =
      let P : Assoc (Json F) → Type 0 = λ t. any_throws t ≡ false in
      if_rule P (str_eq first id) _ _
        (λ e. rw h (or_false (is_throw (verdict held)) (any_throws entries) k).1)
        (λ e.
          if_rule P (str_lt id first) _ _ (λ f. rw h k)
            (λ f.
              let ih =
                any_throws-insert id j entries h
                  (or_false (is_throw (verdict held)) (any_throws entries) k).1 in
              let x : is_throw (verdict held) ≡ false =
                (or_false (is_throw (verdict held)) (any_throws entries) k).0 in
              rw (x, ih) refl))

  lookup-take_verdict :
      (v : Verdict F) (id other : String)
      (more : Option LoadError → Assoc (CameraEntry F) → Loaded F)
      (later : Option (CameraEntry F) → Option (CameraEntry F))
      → is_throw v ≡ false
      → ((e : Option LoadError) (c : Assoc (CameraEntry F))
          → lookup other (more e c).cameras ≡ later (lookup other c))
      → (error : Option LoadError) (cameras : Assoc (CameraEntry F))
      → lookup other (take_verdict v id more error cameras).cameras
        ≡ later (if str_eq id other then kept v (lookup other cameras) else lookup other cameras)
  unfolding take_verdict
  lookup-take_verdict (keep e) id other more later h k error cameras =
      k error (insert id e cameras) ∙ ap later (lookup-insert id other e cameras)
  lookup-take_verdict (skip problem) id other more later h k error cameras =
      k _ cameras ∙ ap later (both (str_eq id other) (lookup other cameras))
    where
      both : (b : Bool) (x : Option (CameraEntry F)) → x ≡ (if b then x else x)
      both true x = refl
      both false x = refl
  lookup-take_verdict throw id other more later h k error cameras = absurd (ground (arith, h))

  -- An id that stands first stands nowhere else.
  settle :
      (id other : String) (j : Json F) (entries : Assoc (Json F)) (x : Option (CameraEntry F))
      → IsAbove id entries
      → after (lookup other entries) (if str_eq id other then kept (verdict j) x else x)
        ≡ after (if str_eq id other then some j else lookup other entries) x
  settle id other j entries x above = elim (Bool-cases (str_eq id other)) [
    | inl e ↦
        let absent : lookup other entries ≡ none =
          lookup-IsAbove other entries
            (subst (λ k. IsAbove k entries) ((eq_iff id other).0 e) above) in
        rw (e, absent) refl
    | inr e ↦ rw e refl
  ]

  -- What is found under an id after the loop.
  pub lookup-load_entries :
      (entries : Assoc (Json F))
      → IsSorted entries
      → any_throws entries ≡ false
      → (other : String) (error : Option LoadError) (cameras : Assoc (CameraEntry F))
      → lookup other (load_entries entries error cameras).cameras
        ≡ after (lookup other entries) (lookup other cameras)
  unfolding load_entries lookup
  lookup-load_entries [] h quiet other error cameras = refl
  lookup-load_entries ((id, j) ∷ entries) (above, h) quiet other error cameras =
      lookup-take_verdict (verdict j) id other (load_entries entries) (after (lookup other entries))
        (or_false (is_throw (verdict j)) (any_throws entries) quiet).0
        (lookup-load_entries entries h
          (or_false (is_throw (verdict j)) (any_throws entries) quiet).1 other)
        error cameras
      ∙ settle id other j entries (lookup other cameras) above
