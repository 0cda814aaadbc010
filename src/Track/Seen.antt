-- ===== src/Track/Seen.antt =====
-- What it means for a track of helpers/track_manager.hpp to be alive, and for an observation to be
-- published; and what a track is once it has taken a detection.
use droneengage_common.Common.{
  ℕ, zero, suc, ◌≤◌, ◌≡◌, inl, inr, refl, ap, true, false, Option, List, [], ◌∷◌, arith, length,
  nth, All, All-map, IsIn, all-IsIn, option_cases, Bool-cases,
}
use droneengage_common.Common.Int.{pos, leb_ℤ, ltb_ℤ}
use droneengage_common.Common.Float.{FloatOps}
use droneengage_common.Obs.{Observation, ObservationFrame}
use droneengage_common.Track.State.{
  TrackManagerConfig, Track, no_track, take_observation, miss, dead,
}
use droneengage_common.Track.Associate.{detections}
use droneengage_common.Track.Manager.{confirm, born_track, bear}
use droneengage_common.Track.Ids.{ids}
use droneengage_common.Track.Life.{taken}

module _ {F : Type 0} ⦃o : FloatOps F⦄ where
  -- A detection that was published, and its track.
  pub record IsPublished (c : TrackManagerConfig F) (frame : ObservationFrame F)
      (tracks : List (Track F)) (x : Observation F) : Type 0 where
    pub det : Observation F
    pub track : Track F
    pub det_in : IsIn det frame.obs
    pub sure : o.le c.min_conf det.conf ≡ true
    pub track_in : IsIn track tracks
    pub confirmed : track.confirmed ≡ true
    pub seen : track.misses ≡ 0
    pub same_class : track.cls ≡ det.cls
    pub same_box : (track.x ≡ det.x) × (track.y ≡ det.y) × (track.w ≡ det.w) × (track.h ≡ det.h)
    pub is : x ≡ record det { has_trk = true; trk = pos track.id }

  -- A track between two frames: either it was seen in the last one, and is confirmed if it has been
  -- seen often enough, or it is confirmed and has not been missed too often.
  pub data IsLive (c : TrackManagerConfig F) (t : Track F) : Type 0 where
    was_seen :
        t.misses ≡ 0
        → 1 ≤ t.hits
        → (t.confirmed ≡ false → leb_ℤ c.confirm_hits (pos t.hits) ≡ false)
        → IsLive c t
    was_missed :
        1 ≤ t.misses
        → t.hits ≡ 0
        → t.confirmed ≡ true
        → ltb_ℤ c.max_misses (pos t.misses) ≡ false
        → IsLive c t

  -- The detections that an update keeps are observations of the frame that are sure enough.
  abbrev pub IsKept : TrackManagerConfig F → List (Observation F) → Observation F → Type 0
  IsKept c obs x = IsIn x obs × (o.le c.min_conf x.conf ≡ true)

  pub detections-All :
      (c : TrackManagerConfig F) (obs : List (Observation F))
      → All (IsKept c obs) (detections c obs)
  unfolding detections
  detections-All c [] = tt
  detections-All c (y ∷ obs) =
      let rest =
        All-map (IsKept c obs) (IsKept c (y ∷ obs)) (detections c obs) (λ x k. (inr k.0, k.1))
          (detections-All c obs) in
      elim (Bool-cases (o.le c.min_conf y.conf)) [
        | inl e ↦ rw (e, detections) ((inl refl, e), rest)
        | inr e ↦ rw (e, detections) rest
      ]

  pub is_kept :
      (c : TrackManagerConfig F) (obs : List (Observation F)) (x : Observation F)
      → IsIn x (detections c obs)
      → IsKept c obs x
  is_kept c obs x i = all-IsIn (IsKept c obs) (detections c obs) (detections-All c obs) x i

  pub nth-ids : (ts : List (Track F)) (k : ℕ) → nth 0 (ids ts) k ≡ (nth no_track ts k).id
  nth-ids [] k = refl
  nth-ids (t ∷ ts) zero = refl
  nth-ids (t ∷ ts) (suc k) = nth-ids ts k

  pub length-ids : (ts : List (Track F)) → length (ids ts) ≡ length ts
  length-ids [] = refl
  length-ids (t ∷ ts) = ap suc (length-ids ts)

  pub taken-IsLive :
      (c : TrackManagerConfig F) (d : Observation F) (t : Track F) → IsLive c (taken c d t)
  unfolding confirm take_observation
  taken-IsLive c d t = was_seen (ground arith) (ground arith) (λ e. ground (arith, e))

  pub born-IsLive :
      (c : TrackManagerConfig F) (n : ℕ) (d : Observation F) → IsLive c (born_track c n d)
  unfolding born_track take_observation
  born-IsLive c n d = was_seen (ground arith) (ground arith) (λ e. ground (arith, e))

  pub missed-IsLive :
      (c : TrackManagerConfig F) (t : Track F) → dead c (miss t) ≡ false → IsLive c (miss t)
  unfolding dead miss
  missed-IsLive c t e = was_missed (omega arith) refl (ground (arith, e)) (ground (arith, e))

  -- What a track is once it has taken a detection.
  pub record HasTaken (d : Observation F) (t : Track F) : Type 0 where
    pub seen : t.misses ≡ 0
    pub same_box : (t.x ≡ d.x) × (t.y ≡ d.y) × (t.w ≡ d.w) × (t.h ≡ d.h)

  pub taken-HasTaken :
      (c : TrackManagerConfig F) (d : Observation F) (t : Track F) → HasTaken d (taken c d t)
  unfolding confirm take_observation
  taken-HasTaken c d t = record {
    seen = ground arith;
    same_box = (ground arith, ground arith, ground arith, ground arith);
  }

  pub cls-taken :
      (c : TrackManagerConfig F) (d : Observation F) (t : Track F) → (taken c d t).cls ≡ t.cls
  unfolding confirm take_observation
  cls-taken c d t = ground arith

  pub born-HasTaken :
      (c : TrackManagerConfig F) (n : ℕ) (d : Observation F) → HasTaken d (born_track c n d)
  unfolding born_track take_observation
  born-HasTaken c n d = record {
    seen = ground arith;
    same_box = (ground arith, ground arith, ground arith, ground arith);
  }

  pub cls-born_track :
      (c : TrackManagerConfig F) (n : ℕ) (d : Observation F) → (born_track c n d).cls ≡ d.cls
  unfolding born_track take_observation
  cls-born_track c n d = ground arith

  pub not_dead : (c : TrackManagerConfig F) (t : Track F) → t.misses ≡ 0 → dead c t ≡ false
  unfolding dead
  not_dead c t h = ground (arith, h)

  pub bear-IsLive :
      (c : TrackManagerConfig F) (det_track : ℕ → Option ℕ) (d n : ℕ) (dets : List (Observation F))
      → All (IsLive c) (bear c det_track d n dets).0
  unfolding bear
  bear-IsLive c det_track d n [] = tt
  bear-IsLive c det_track d n (det ∷ dets) = elim (option_cases (det_track d)) [
    | inl e ↦ rw (e, bear) (born-IsLive c n det, bear-IsLive c det_track (suc d) (suc n) dets)
    | inr (t, e) ↦ rw (e, bear) (bear-IsLive c det_track (suc d) n dets)
  ]
