-- ===== src/Obs/Round.antt =====
-- helpers/obs.hpp: the parser reads what the builder wrote.
use droneengage_common.Common.{
  ℕ, suc, ◌≡◌, false, List, [], ◌∷◌, map, String, str_eq, ◌⊎◌, inl, inr, refl, ap, arith, All,
  Bool-cases, subst, on_right, on_right-step, on_right-inverse, ◌∙◌,
}
use droneengage_common.Common.Assoc.{lookup, insert}
use droneengage_common.Common.Int.{pos, ltb_ℤ}
use droneengage_common.Common.Float.{FloatOps}
use droneengage_common.Json.{Json, object, items, of_items, of_members}
use droneengage_common.Obs.{Observation, ObservationFrame}
use droneengage_common.Obs.Wire.{
  build_entry, build_entries, frame_members, obs_build, parse_entry, parse_entries, int64_of,
  obs_parse,
}
use droneengage_common.Obs.Entry.{read_back, IsSmall, parse_entry-build_entry}

module _ {F : Type 0} ⦃o : FloatOps F⦄ where
  items-of_items : (vs : List (Json F)) → items (of_items vs) ≡ vs
  items-of_items [] = refl
  items-of_items (v ∷ vs) = ap (λ x. v ∷ x) (items-of_items vs)

  parse_entries-build_entries :
      (i : ℕ) (es : List (Observation F)) (vs : List (Json F))
      → All IsSmall es
      → build_entries i es ≡ inr vs
      → parse_entries i vs ≡ inr (map read_back es)
  unfolding build_entries parse_entries
  parse_entries-build_entries i [] vs h e =
      subst (λ x. parse_entries i x ≡ inr []) {x = []} {y = vs} (ground arith) refl
  parse_entries-build_entries i (x ∷ es) vs (s, h) e =
      let more : Json F → String ⊎ List (Json F) =
        λ v. on_right (build_entries (suc i) es) (λ ws. inr (v ∷ ws)) in
      let (v, g, e') = on_right-inverse (build_entry i x) more vs e in
      let (ws, g', e'') = on_right-inverse (build_entries (suc i) es) (λ ws. inr (v ∷ ws)) vs e' in
      let after : Observation F → String ⊎ List (Observation F) =
        λ y. on_right (parse_entries (suc i) ws) (λ ys. inr (y ∷ ys)) in
      subst (λ l. parse_entries i l ≡ inr (read_back x ∷ map read_back es)) {x = v ∷ ws} {y = vs}
        (ground arith)
        (on_right-step (parse_entry i v) (read_back x) after (parse_entry-build_entry i i x v s g)
          ∙ on_right-step (parse_entries (suc i) ws) (map read_back es)
              (λ ys. inr (read_back x ∷ ys)) (parse_entries-build_entries (suc i) es ws h g'))

  -- The checks of the builder on the frame.
  record IsFrameWritten (f : ObservationFrame F) (v : Json F) : Type 0 where
    named : str_eq f.cam_id "" ≡ false
    timed : ltb_ℤ f.tm_capture (pos 0) ≡ false
    arr : List (Json F)
    entries : build_entries 0 f.obs ≡ inr arr
    is : object (of_members (frame_members f arr)) ≡ v

  obs_build-inverse :
      (f : ObservationFrame F) (v : Json F) → obs_build f ≡ inr v → IsFrameWritten f v
  unfolding obs_build
  obs_build-inverse f v h = elim (Bool-cases (str_eq f.cam_id "")) [
    | inl a ↦ absurd (ground (arith, a, h))
    | inr a ↦ elim (Bool-cases (ltb_ℤ f.tm_capture (pos 0))) [
      | inl b ↦ absurd (ground (arith, a, b, h))
      | inr b ↦
          let finish : List (Json F) → String ⊎ Json F =
            λ arr. inr (object (of_members (frame_members f arr))) in
          let (arr, g, e) =
            on_right-inverse (build_entries 0 f.obs) finish v (ground (arith, a, b, h)) in
          record { named = a; timed = b; arr = arr; entries = g; is = ground (arith, e) }
    ]
  ]

  -- A frame that `obs_build` accepts is read back by `obs_parse`: the same camera and time, and the same
  -- observations in the same order, except that an id or a class id that is marked absent becomes -1.
  -- The class ids that are there fit in 32 bits.
  pub obs_parse-obs_build :
      (f : ObservationFrame F) (v : Json F)
      → All IsSmall f.obs
      → obs_build f ≡ inr v
      → obs_parse v ≡ inr (record f { obs = map read_back f.obs })
  unfolding obs_parse frame_members lookup insert int64_of
  obs_parse-obs_build f v small h =
      let w = obs_build-inverse f v h in
      let finish : List (Observation F) → String ⊎ ObservationFrame F =
        λ es. inr (record { cam_id = f.cam_id; tm_capture = f.tm_capture; obs = es }) in
      subst (λ x. obs_parse x ≡ inr (record f { obs = map read_back f.obs })) w.is
        (rw (w.named, w.timed)
          (on_right-step (parse_entries 0 (items (of_items w.arr))) (map read_back f.obs) finish (
            rw (items-of_items w.arr) (parse_entries-build_entries 0 f.obs w.arr small w.entries))))
