-- ===== src/Track/Finite.antt =====
-- The numbers of helpers/track_manager.hpp stay finite, so that the assignment of a frame ends.
use droneengage_common.Common.{
  ℕ, zero, suc, ◌+◌, Bool, true, false, List, [], ◌∷◌, nth, All, if◌then◌else◌, Bool-cases, inl,
  inr,
}
use droneengage_common.Common.Int.{pos}
use droneengage_common.Common.Float.{FloatOps}
use droneengage_common.Obs.{Observation, float_zero, no_observation}
use droneengage_common.Track.State.{
  TrackManagerConfig, Box, Track, no_track, predicted, iou, smooth, velocity, take_observation,
}
use droneengage_common.Track.Associate.{pair_cost, cost_entry, cost_vector}
use droneengage_common.Track.Scan.{FloatLaws}

module _ {F : Type 0} ⦃o : FloatOps F⦄ (IsFinite : F → Type 0) (laws : FloatLaws o IsFinite) where
  pub record IsFiniteTrack (t : Track F) : Type 0 where
    pub x : IsFinite t.x
    pub y : IsFinite t.y
    pub w : IsFinite t.w
    pub h : IsFinite t.h
    pub vx : IsFinite t.vx
    pub vy : IsFinite t.vy

  pub record IsFiniteBox (b : Box F) : Type 0 where
    pub x : IsFinite b.x
    pub y : IsFinite b.y
    pub w : IsFinite b.w
    pub h : IsFinite b.h

  abbrev pub IsFiniteObservation : Observation F → Type 0
  IsFiniteObservation d = IsFiniteBox (record { x = d.x; y = d.y; w = d.w; h = d.h })

  zero_finite : IsFinite float_zero
  zero_finite = laws.int_finite (pos 0)

  if_finite : (b : Bool) {x y : F} → IsFinite x → IsFinite y → IsFinite (if b then x else y)
  if_finite true h g = h
  if_finite false h g = g

  add_finite : {x y : F} → IsFinite x → IsFinite y → IsFinite (o.add x y)
  add_finite {x = x} {y = y} h g = laws.add_finite x y h g

  sub_finite : {x y : F} → IsFinite x → IsFinite y → IsFinite (o.sub x y)
  sub_finite {x = x} {y = y} h g = laws.sub_finite x y h g

  mul_finite : {x y : F} → IsFinite x → IsFinite y → IsFinite (o.mul x y)
  mul_finite {x = x} {y = y} h g = laws.mul_finite x y h g

  steps_finite : (n : ℕ) {x : F} → IsFinite x → IsFinite (o.div x (o.of_int (pos (n + 1))))
  steps_finite n {x = x} h =
      laws.div_finite x (o.of_int (pos (n + 1))) h (laws.int_finite (pos (n + 1)))
        (laws.int_positive n)

  predicted_finite : (t : Track F) → IsFiniteTrack t → IsFiniteBox (predicted t)
  unfolding predicted
  predicted_finite t h = record {
    x = add_finite h.x (mul_finite h.vx (laws.int_finite (pos (t.misses + 1))));
    y = add_finite h.y (mul_finite h.vy (laws.int_finite (pos (t.misses + 1))));
    w = h.w;
    h = h.h;
  }

  -- The overlap, once its areas are known.
  ratio_finite :
      {inter uni : F}
      → IsFinite inter
      → IsFinite uni
      → IsFinite (if o.lt float_zero uni then o.div inter uni else float_zero)
  ratio_finite {inter = inter} {uni = uni} h g = elim (Bool-cases (o.lt float_zero uni)) [
    | inl e ↦ rw e (laws.div_finite inter uni h g e)
    | inr e ↦ rw e zero_finite
  ]

  -- A side of the overlap.
  side_finite :
      {a b c d : F}
      → IsFinite a
      → IsFinite b
      → IsFinite c
      → IsFinite d
      → IsFinite (
          o.sub
            (if o.lt (o.add c d) (o.add a b) then o.add c d else o.add a b)
            (if o.lt a c then c else a))
  side_finite a b c d = sub_finite (if_finite _ (add_finite c d) (add_finite a b)) (if_finite _ c a)

  iou_finite : (a b : Box F) → IsFiniteBox a → IsFiniteBox b → IsFinite (iou a b)
  unfolding iou
  iou_finite a b h g =
      let inter = mul_finite (side_finite h.x h.w g.x g.w) (side_finite h.y h.h g.y g.h) in
      if_finite _ zero_finite (
        ratio_finite inter
          (sub_finite (add_finite (mul_finite h.w h.h) (mul_finite g.w g.h)) inter))

  velocity_finite :
      (t : Track F) {v n n_size p p_size : F}
      → IsFinite v
      → IsFinite n
      → IsFinite n_size
      → IsFinite p
      → IsFinite p_size
      → IsFinite (velocity t v n n_size p p_size)
  unfolding velocity smooth
  velocity_finite t v n n_size p p_size =
      let half = laws.half_finite in
      let mv = steps_finite t.misses (
        sub_finite (add_finite n (mul_finite n_size half))
          (add_finite p (mul_finite p_size half))) in
      if_finite _ (if_finite _ (add_finite (mul_finite half v) (mul_finite half mv)) mv) v

  pub take_observation_finite :
      (d : Observation F) (t : Track F)
      → IsFiniteObservation d
      → IsFiniteTrack t
      → IsFiniteTrack (take_observation d t)
  unfolding take_observation
  take_observation_finite d t g h = record {
    x = g.x;
    y = g.y;
    w = g.w;
    h = g.h;
    vx = velocity_finite t h.vx g.x g.w h.x h.w;
    vy = velocity_finite t h.vy g.y g.h h.y h.h;
  }

  pub no_track_finite : IsFiniteTrack no_track
  no_track_finite = record {
    x = zero_finite;
    y = zero_finite;
    w = zero_finite;
    h = zero_finite;
    vx = zero_finite;
    vy = zero_finite;
  }

  no_observation_finite : IsFiniteObservation no_observation
  no_observation_finite = record {
    x = zero_finite;
    y = zero_finite;
    w = zero_finite;
    h = zero_finite;
  }

  -- The places of a list of finite things.
  nth_finite :
      {A : Type 0} (P : A → Type 0) (a : A) (xs : List A) (n : ℕ) → P a → All P xs → P (nth a xs n)
  nth_finite P a [] n h g = h
  nth_finite P a (x ∷ xs) zero h (g, gs) = g
  nth_finite P a (x ∷ xs) (suc n) h (g, gs) = nth_finite P a xs n h gs

  pub cost_vector_finite :
      (c : TrackManagerConfig F) (tracks : List (Track F)) (dets : List (Observation F))
      → All IsFiniteTrack tracks
      → All IsFiniteObservation dets
      → (r : Bool) (di ti : List ℕ) (m k : ℕ) → IsFinite (cost_vector c tracks dets r di ti m k)
  unfolding cost_vector cost_entry pair_cost
  cost_vector_finite c tracks dets ts ds r di ti m k =
      if_finite _
        (sub_finite (laws.int_finite (pos 1)) (
          iou_finite _ _
            (predicted_finite _ (nth_finite IsFiniteTrack no_track tracks _ no_track_finite ts))
            (nth_finite IsFiniteObservation no_observation dets _ no_observation_finite ds)))
        (laws.int_finite (pos 1000000))
