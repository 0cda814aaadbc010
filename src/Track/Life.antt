-- ===== src/Track/Life.antt =====
-- What an update of `TrackManager` of helpers/track_manager.hpp does to each track.
use droneengage_common.Common.{
  ℕ, zero, suc, ◌+◌, ◌≤◌, ◌<◌, ◌≡◌, inl, inr, refl, ap, Bool, false, Option, some, List, [], ◌∷◌,
  arith, length, nth, modify_nth, if◌then◌else◌, ◌==◌, Bool-cases, option_cases, subst, ◌∙◌,
}
use droneengage_common.Common.Float.{FloatOps}
use droneengage_common.Obs.{Observation, no_observation}
use droneengage_common.Track.State.{TrackManagerConfig, Track, no_track, take_observation, miss}
use droneengage_common.Track.Manager.{confirm, take_detections, miss_unmatched}

module _ {A : Type 0} (fallback : A) where
  nth-modify_nth :
      (f : A → A) (k : ℕ) (xs : List A)
      → k < length xs
      → nth fallback (modify_nth f k xs) k ≡ f (nth fallback xs k)
  nth-modify_nth f k [] h = absurd (omega arith)
  nth-modify_nth f zero (x ∷ xs) h = refl
  nth-modify_nth f (suc k) (x ∷ xs) h = nth-modify_nth f k xs (omega arith)

  nth-modify_nth-ne :
      (f : A → A) (k l : ℕ) (xs : List A)
      → (k == l) ≡ false
      → nth fallback (modify_nth f k xs) l ≡ nth fallback xs l
  nth-modify_nth-ne f k l [] h = refl
  nth-modify_nth-ne f zero zero (x ∷ xs) h = absurd (ground arith)
  nth-modify_nth-ne f zero (suc l) (x ∷ xs) h = refl
  nth-modify_nth-ne f (suc k) zero (x ∷ xs) h = refl
  nth-modify_nth-ne f (suc k) (suc l) (x ∷ xs) h = nth-modify_nth-ne f k l xs (ground (arith, h))

length-modify_nth {ℓ} :
    {A : Type ℓ} (f : A → A) (k : ℕ) (xs : List A) → length (modify_nth f k xs) ≡ length xs
length-modify_nth f k [] = refl
length-modify_nth f zero (x ∷ xs) = refl
length-modify_nth f (suc k) (x ∷ xs) = ap suc (length-modify_nth f k xs)

module _ {F : Type 0} ⦃o : FloatOps F⦄ (c : TrackManagerConfig F) where
  abbrev pub taken : Observation F → Track F → Track F
  taken det t = confirm c (take_observation det t)

  module _ (det_track : ℕ → Option ℕ) where
    -- A track that no detection has stays as it is.
    pub take_detections-other :
        (t d : ℕ) (dets : List (Observation F)) (ts : List (Track F))
        → ((e : ℕ) → d ≤ e → det_track e ≡ some t → ⊥)
        → nth no_track (take_detections c det_track d dets ts) t ≡ nth no_track ts t
    unfolding take_detections
    take_detections-other t d [] ts h = refl
    take_detections-other t d (det ∷ dets) ts h = elim (option_cases (det_track d)) [
      | inl e ↦
          rw (e, take_detections)
            (take_detections-other t (suc d) dets ts (λ x g. h x (omega arith)))
      | inr (k, e) ↦
          rw (e, take_detections)
            (take_detections-other t (suc d) dets (modify_nth (taken det) k ts)
                (λ x g. h x (omega arith))
              ∙ nth-modify_nth-ne no_track (taken det) k t ts (other k e))
    ]
      where
        other : (k : ℕ) → det_track d ≡ some k → (k == t) ≡ false
        other k e = elim (Bool-cases (k == t)) [
          | inl g ↦ absurd (h d (omega arith) (ground (arith, e, g)))
          | inr g ↦ g
        ]

    -- The track of a detection takes this detection and no other.
    pub take_detections-taken :
        (t e d : ℕ) (dets : List (Observation F)) (ts : List (Track F))
        → t < length ts
        → det_track (d + e) ≡ some t
        → e < length dets
        → ((x y : ℕ) → det_track x ≡ some t → det_track y ≡ some t → x ≡ y)
        → nth no_track (take_detections c det_track d dets ts) t
          ≡ taken (nth no_observation dets e) (nth no_track ts t)
    unfolding take_detections
    take_detections-taken t e d [] ts ht he room once = absurd (omega arith)
    take_detections-taken t zero d (det ∷ dets) ts ht he room once =
        rw (here, take_detections)
          (take_detections-other t (suc d) dets (modify_nth (taken det) t ts)
              (λ x g i. absurd (omega (arith, once x d i here)))
            ∙ nth-modify_nth no_track (taken det) t ts ht)
      where
        here : det_track d ≡ some t
        here = subst (λ n. det_track n ≡ some t) (omega arith) he
    take_detections-taken t (suc e) d (det ∷ dets) ts ht he room once =
        elim (option_cases (det_track d)) [
          | inl g ↦
              rw (g, take_detections)
                (take_detections-taken t e (suc d) dets ts ht there (omega arith) once)
          | inr (k, g) ↦
              rw (g, take_detections)
                (take_detections-taken t e (suc d) dets (modify_nth (taken det) k ts)
                    (omega (arith, ht, length-modify_nth (taken det) k ts)) there (omega arith) once
                  ∙ ap (taken (nth no_observation dets e))
                      (nth-modify_nth-ne no_track (taken det) k t ts (other k g)))
        ]
      where
        there : det_track (suc d + e) ≡ some t
        there = subst (λ n. det_track n ≡ some t) (omega arith) he

        other : (k : ℕ) → det_track d ≡ some k → (k == t) ≡ false
        other k g = elim (Bool-cases (k == t)) [
          | inl i ↦ absurd (omega (arith, once d (d + suc e) (ground (arith, g, i)) he))
          | inr i ↦ i
        ]

  pub length-take_detections :
      (det_track : ℕ → Option ℕ) (d : ℕ) (dets : List (Observation F)) (ts : List (Track F))
      → length (take_detections c det_track d dets ts) ≡ length ts
  unfolding take_detections
  length-take_detections det_track d [] ts = refl
  length-take_detections det_track d (det ∷ dets) ts = elim (option_cases (det_track d)) [
    | inl e ↦ rw (e, take_detections) (length-take_detections det_track (suc d) dets ts)
    | inr (k, e) ↦
        rw (e, take_detections)
          (length-take_detections det_track (suc d) dets (modify_nth (taken det) k ts)
            ∙ length-modify_nth (taken det) k ts)
  ]

pub nth-miss_unmatched :
    {F : Type 0} ⦃o : FloatOps F⦄ (track_matched : ℕ → Bool) (i t : ℕ) (ts : List (Track F))
    → t < length ts
    → nth no_track (miss_unmatched track_matched i ts) t
      ≡ (if track_matched (i + t) then nth no_track ts t else miss (nth no_track ts t))
unfolding miss_unmatched
nth-miss_unmatched track_matched i t [] h = absurd (omega arith)
nth-miss_unmatched track_matched i zero (x ∷ ts) h = ground arith
nth-miss_unmatched track_matched i (suc t) (x ∷ ts) h =
    ground (arith, nth-miss_unmatched track_matched (suc i) t ts)

pub length-miss_unmatched :
    {F : Type 0} ⦃o : FloatOps F⦄ (track_matched : ℕ → Bool) (i : ℕ) (ts : List (Track F))
    → length (miss_unmatched track_matched i ts) ≡ length ts
unfolding miss_unmatched
length-miss_unmatched track_matched i [] = refl
length-miss_unmatched track_matched i (x ∷ ts) =
    ap suc (length-miss_unmatched track_matched (suc i) ts)
