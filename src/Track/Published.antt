-- ===== src/Track/Published.antt =====
-- What an update of `TrackManager` of helpers/track_manager.hpp publishes, and the tracks it leaves.
use droneengage_common.Common.{
  ℕ, zero, suc, ◌+◌, ◌≤◌, ◌<◌, ◌≡◌, ◌≢◌, inl, inr, refl, true, false, Option, some, List, [], ◌∷◌,
  ◌++◌, arith, length, nth, All, All-append, IsIn, Bool-cases, option_cases, subst,
}
use droneengage_common.Common.Int.{pos}
use droneengage_common.Common.Float.{FloatOps}
use droneengage_common.Obs.{Observation, no_observation}
use droneengage_common.Track.State.{TrackManagerConfig, Track, no_track, dead}
use droneengage_common.Track.Manager.{born_track, bear, with_trk, publish, publish_born, alive}
use droneengage_common.Track.Ids.{id-born_track}

module _ {F : Type 0} ⦃o : FloatOps F⦄ where
  -- Every observation that `publish` gives comes from a detection with a confirmed track.
  pub publish-All :
      (P : Observation F → Type 0) (det_track : ℕ → Option ℕ) (tracks : List (Track F)) (d : ℕ)
      (dets : List (Observation F))
      → ((e t : ℕ)
          → e < length dets
          → det_track (d + e) ≡ some t
          → (nth no_track tracks t).confirmed ≡ true
          → P (with_trk (nth no_observation dets e) (nth no_track tracks t)))
      → All P (publish det_track tracks d dets)
  unfolding publish
  publish-All P det_track tracks d [] h = tt
  publish-All P det_track tracks d (det ∷ dets) h =
      let rest = publish-All P det_track tracks (suc d) dets (λ e t room g i.
        h (suc e) t (omega arith) (subst (λ n. det_track n ≡ some t) (omega arith) g) i) in
      elim (option_cases (det_track d)) [
        | inl e ↦ rw (e, publish) rest
        | inr (t, e) ↦ elim (Bool-cases (nth no_track tracks t).confirmed) [
          | inl g ↦
              rw (e, g, publish)
                (h 0 t (omega arith) (subst (λ n. det_track n ≡ some t) (omega arith) e) g, rest)
          | inr g ↦ rw (e, g, publish) rest
        ]
      ]

  passed_over :
      (det_track : ℕ → Option ℕ) (d t : ℕ)
      → det_track d ≡ some t
      → (det : Observation F) (dets : List (Observation F)) (born : List (Track F))
      → publish_born det_track d (det ∷ dets) born ≡ publish_born det_track (suc d) dets born
  unfolding publish_born
  passed_over det_track d t e det dets [] = refl
  passed_over det_track d t e det dets (x ∷ born) = rw (e, publish_born) refl

  -- Every observation that `publish_born` gives comes from a detection with a new track.
  pub publish_born-All :
      (P : Observation F → Type 0) (c : TrackManagerConfig F) (det_track : ℕ → Option ℕ) (d n : ℕ)
      (dets : List (Observation F))
      → ((det : Observation F) (k : ℕ)
          → IsIn det dets
          → n ≤ k
          → IsIn (born_track c k det) (bear c det_track d n dets).0
          → (born_track c k det).confirmed ≡ true
          → P (with_trk det (born_track c k det)))
      → All P (publish_born det_track d dets (bear c det_track d n dets).0)
  unfolding publish_born bear
  publish_born-All P c det_track d n [] h = tt
  publish_born-All P c det_track d n (det ∷ dets) h = elim (option_cases (det_track d)) [
    | inl e ↦
        let rest =
          publish_born-All P c det_track (suc d) (suc n) dets
            (λ x k i g m. h x k (inr i) (omega arith) (rw (e, bear) (inr m))) in
        elim (Bool-cases (born_track c n det).confirmed) [
          | inl g ↦
              rw (e, bear, publish_born, e, g)
                (h det n (inl refl) (omega arith) (rw (e, bear) (inl refl)) g, rest)
          | inr g ↦ rw (e, bear, publish_born, e, g) rest
        ]
    | inr (t, e) ↦
        let rest =
          publish_born-All P c det_track (suc d) n dets
            (λ x k i g m. h x k (inr i) g (rw (e, bear) m)) in
        rw (e, bear, passed_over det_track d t e det dets (bear c det_track (suc d) n dets).0) rest
  ]

  -- The tracks that live on are those that were not dead.
  pub alive-All :
      (P : Track F → Type 0) (c : TrackManagerConfig F) (ts : List (Track F))
      → ((k : ℕ) → k < length ts → dead c (nth no_track ts k) ≡ false → P (nth no_track ts k))
      → All P (alive c ts)
  unfolding alive
  alive-All P c [] h = tt
  alive-All P c (t ∷ ts) h =
      let rest = alive-All P c ts (λ k room. h (suc k) (omega arith)) in
      elim (Bool-cases (dead c t)) [
        | inl e ↦ rw (e, alive) rest
        | inr e ↦ rw (e, alive) (h 0 (omega arith) e, rest)
      ]

  -- A track that is not dead lives on.
  pub IsIn-alive :
      (c : TrackManagerConfig F) (ts : List (Track F)) (k : ℕ)
      → k < length ts
      → dead c (nth no_track ts k) ≡ false
      → IsIn (nth no_track ts k) (alive c ts)
  unfolding alive
  IsIn-alive c [] k room h = absurd (omega arith)
  IsIn-alive c (t ∷ ts) zero room h = rw (h, alive) (inl refl)
  IsIn-alive c (t ∷ ts) (suc k) room h =
      let rest = IsIn-alive c ts k (omega arith) h in
      elim (Bool-cases (dead c t)) [ inl e ↦ rw (e, alive) rest | inr e ↦ rw (e, alive) (inr rest) ]

  -- No two observations have one track id.
  pub IsOnce : List (Observation F) → Type 0
  IsOnce [] = Unit
  IsOnce (x ∷ xs) = All (λ y. y.trk ≢ x.trk) xs × IsOnce xs

  pub IsOnce-append :
      (xs ys : List (Observation F))
      → IsOnce xs
      → IsOnce ys
      → All (λ x. All (λ y. y.trk ≢ x.trk) ys) xs
      → IsOnce (xs ++ ys)
  unfolding IsOnce
  IsOnce-append [] ys a b h = b
  IsOnce-append (x ∷ xs) ys (g, a) b (i, h) =
      (All-append (λ y. y.trk ≢ x.trk) xs ys g i, IsOnce-append xs ys a b h)

  -- No two observations of `publish` have one track id.
  pub publish-IsOnce :
      (det_track : ℕ → Option ℕ) (tracks : List (Track F)) (d : ℕ) (dets : List (Observation F))
      → ((e f t u : ℕ)
          → det_track e ≡ some t
          → det_track f ≡ some u
          → (nth no_track tracks t).id ≡ (nth no_track tracks u).id
          → e ≡ f)
      → IsOnce (publish det_track tracks d dets)
  unfolding publish IsOnce with_trk
  publish-IsOnce det_track tracks d [] h = tt
  publish-IsOnce det_track tracks d (det ∷ dets) h =
      let rest = publish-IsOnce det_track tracks (suc d) dets h in
      elim (option_cases (det_track d)) [
        | inl e ↦ rw (e, publish) rest
        | inr (t, e) ↦ elim (Bool-cases (nth no_track tracks t).confirmed) [
          | inl g ↦
              rw (e, g, publish)
                (
                  publish-All (λ y. y.trk ≢ pos (nth no_track tracks t).id) det_track tracks (suc d)
                      dets
                      (λ f u room i j k.
                        absurd (omega (arith, h d (suc d + f) t u e i (ground arith)))),
                  rest,
                )
          | inr g ↦ rw (e, g, publish) rest
        ]
      ]

  -- Nor have two of `publish_born`.
  pub publish_born-IsOnce :
      (c : TrackManagerConfig F) (det_track : ℕ → Option ℕ) (d n : ℕ) (dets : List (Observation F))
      → IsOnce (publish_born det_track d dets (bear c det_track d n dets).0)
  unfolding publish_born bear IsOnce with_trk
  publish_born-IsOnce c det_track d n [] = tt
  publish_born-IsOnce c det_track d n (det ∷ dets) = elim (option_cases (det_track d)) [
    | inl e ↦
        let rest = publish_born-IsOnce c det_track (suc d) (suc n) dets in
        elim (Bool-cases (born_track c n det).confirmed) [
          | inl g ↦
              rw (e, bear, publish_born, e, g)
                (
                  publish_born-All (λ y. y.trk ≢ pos (born_track c n det).id) c det_track (suc d)
                      (suc n) dets
                      (λ x k i m b f g'.
                        absurd (ground (arith, m, g', id-born_track c n det, id-born_track c k x))),
                  rest,
                )
          | inr g ↦ rw (e, bear, publish_born, e, g) rest
        ]
    | inr (t, e) ↦
        rw (e, bear, passed_over det_track d t e det dets (bear c det_track (suc d) n dets).0)
          (publish_born-IsOnce c det_track (suc d) n dets)
  ]
