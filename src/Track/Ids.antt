-- ===== src/Track/Ids.antt =====
-- The ids that `TrackManager` of helpers/track_manager.hpp gives to its tracks.
use droneengage_common.Common.{
  ℕ, zero, suc, ◌≤◌, ◌<◌, ◌≡◌, inl, inr, refl, ap, Bool, false, Option, List, [], ◌∷◌, ◌++◌, map,
  arith, length, nth, modify_nth, ◌==◌, ◌||◌, Bool-cases, option_cases, subst, sym, ◌∙◌,
}
use droneengage_common.Common.Float.{FloatOps}
use droneengage_common.Obs.{Observation, ObservationFrame}
use droneengage_common.Track.State.{
  TrackManagerConfig, Track, TrackManager, take_observation, miss, dead,
}
use droneengage_common.Track.Associate.{Association, detections}
use droneengage_common.Track.Manager.{
  confirm, take_detections, miss_unmatched, born_track, bear, alive, update_with,
}

-- The numbers ascend, from `low` on and below `high`.
unfoldable pub Ascends : (low : ℕ) → List ℕ → (high : ℕ) → Type 0
Ascends low [] high = low ≤ high
Ascends low (n ∷ ns) high = (low ≤ n) × Ascends (suc n) ns high

pub Ascends-room : (low : ℕ) (ns : List ℕ) (high : ℕ) → Ascends low ns high → low ≤ high
unfolding Ascends
Ascends-room low [] high a = a
Ascends-room low (n ∷ ns) high (h, a) = omega (arith, Ascends-room (suc n) ns high a)

Ascends-from :
    (low low' : ℕ) (ns : List ℕ) (high : ℕ)
    → low' ≤ low
    → Ascends low ns high
    → Ascends low' ns high
unfolding Ascends
Ascends-from low low' [] high h a = omega arith
Ascends-from low low' (n ∷ ns) high h (g, a) = (omega arith, a)

Ascends-append :
    (low : ℕ) (ns : List ℕ) (mid : ℕ) (ms : List ℕ) (high : ℕ)
    → Ascends low ns mid
    → Ascends mid ms high
    → Ascends low (ns ++ ms) high
unfolding Ascends
Ascends-append low [] mid ms high a b = Ascends-from mid low ms high a b
Ascends-append low (n ∷ ns) mid ms high (h, a) b = (h, Ascends-append (suc n) ns mid ms high a b)

-- The numbers of an ascending list are within its ends, and no two places have the same one.
pub Ascends-within :
    (low : ℕ) (ns : List ℕ) (high k : ℕ)
    → Ascends low ns high
    → k < length ns
    → (low ≤ nth 0 ns k) × (nth 0 ns k < high)
unfolding Ascends
Ascends-within low [] high k a h = absurd (omega arith)
Ascends-within low (n ∷ ns) high zero (g, a) h = (g, Ascends-room (suc n) ns high a)
Ascends-within low (n ∷ ns) high (suc k) (g, a) h =
    let (x, y) = Ascends-within (suc n) ns high k a (omega arith) in (omega arith, y)

pub Ascends-injective :
    (low : ℕ) (ns : List ℕ) (high k l : ℕ)
    → Ascends low ns high
    → k < length ns
    → l < length ns
    → nth 0 ns k ≡ nth 0 ns l
    → k ≡ l
unfolding Ascends
Ascends-injective low [] high k l a hk hl e = absurd (omega arith)
Ascends-injective low (n ∷ ns) high zero zero (g, a) hk hl e = refl
Ascends-injective low (n ∷ ns) high zero (suc l) (g, a) hk hl e =
    absurd (omega (arith, (Ascends-within (suc n) ns high l a (omega arith)).0))
Ascends-injective low (n ∷ ns) high (suc k) zero (g, a) hk hl e =
    absurd (omega (arith, (Ascends-within (suc n) ns high k a (omega arith)).0))
Ascends-injective low (n ∷ ns) high (suc k) (suc l) (g, a) hk hl e =
    ap suc (Ascends-injective (suc n) ns high k l a (omega arith) (omega arith) e)

unfoldable pub has_id : ℕ → List ℕ → Bool
has_id n [] = false
has_id n (m ∷ ms) = m == n || has_id n ms

has_id-append : (n : ℕ) (ms ns : List ℕ) → has_id n (ms ++ ns) ≡ (has_id n ms || has_id n ns)
unfolding has_id
has_id-append n [] ns = refl
has_id-append n (m ∷ ms) ns = ground (arith, has_id-append n ms ns)

has_id-below :
    (n low : ℕ) (ms : List ℕ) (high : ℕ) → Ascends low ms high → n < low → has_id n ms ≡ false
unfolding has_id Ascends
has_id-below n low [] high a h = refl
has_id-below n low (m ∷ ms) high (g, a) h = ground (arith, has_id-below n (suc m) ms high a)

module _ {F : Type 0} ⦃o : FloatOps F⦄ where
  abbrev pub ids : List (Track F) → List ℕ
  ids ts = map (λ t. t.id) ts

  -- The ids of the tracks ascend, and are below the next one.
  abbrev pub IsOrdered : TrackManager F → Type 0
  IsOrdered m = Ascends 1 (ids m.tracks) m.next_id

  id-modify_nth :
      (f : Track F → Track F)
      → ((t : Track F) → (f t).id ≡ t.id)
      → (k : ℕ) (ts : List (Track F)) → ids (modify_nth f k ts) ≡ ids ts
  id-modify_nth f h k [] = refl
  id-modify_nth f h zero (t ∷ ts) = ap (λ n. n ∷ ids ts) (h t)
  id-modify_nth f h (suc k) (t ∷ ts) = ap (λ ns. t.id ∷ ns) (id-modify_nth f h k ts)

  id-confirm :
      (c : TrackManagerConfig F) (d : Observation F) (t : Track F)
      → (confirm c (take_observation d t)).id ≡ t.id
  unfolding confirm take_observation
  id-confirm c d t = ground arith

  pub ids-take_detections :
      (c : TrackManagerConfig F) (det_track : ℕ → Option ℕ) (d : ℕ) (dets : List (Observation F))
      (ts : List (Track F))
      → ids (take_detections c det_track d dets ts) ≡ ids ts
  unfolding take_detections
  ids-take_detections c det_track d [] ts = refl
  ids-take_detections c det_track d (det ∷ dets) ts = elim (option_cases (det_track d)) [
    | inl e ↦ rw (e, take_detections) (ids-take_detections c det_track (suc d) dets ts)
    | inr (t, e) ↦
        rw (e, take_detections)
          (ids-take_detections c det_track (suc d) dets
              (modify_nth (λ tr. confirm c (take_observation det tr)) t ts)
            ∙ id-modify_nth (λ tr. confirm c (take_observation det tr)) (id-confirm c det) t ts)
  ]

  pub ids-miss_unmatched :
      (track_matched : ℕ → Bool) (k : ℕ) (ts : List (Track F))
      → ids (miss_unmatched track_matched k ts) ≡ ids ts
  unfolding miss_unmatched miss
  ids-miss_unmatched track_matched k [] = refl
  ids-miss_unmatched track_matched k (t ∷ ts) = elim (Bool-cases (track_matched k)) [
    | inl e ↦
        rw (e, miss_unmatched) (ap (λ ns. t.id ∷ ns) (ids-miss_unmatched track_matched (suc k) ts))
    | inr e ↦
        rw (e, miss_unmatched) (ap (λ ns. t.id ∷ ns) (ids-miss_unmatched track_matched (suc k) ts))
  ]

  alive-Ascends :
      (c : TrackManagerConfig F) (low : ℕ) (ts : List (Track F)) (high : ℕ)
      → Ascends low (ids ts) high
      → Ascends low (ids (alive c ts)) high
  unfolding alive Ascends
  alive-Ascends c low [] high a = a
  alive-Ascends c low (t ∷ ts) high (h, a) = elim (Bool-cases (dead c t)) [
    | inl e ↦
        rw (e, alive)
          (Ascends-from (suc t.id) low (ids (alive c ts)) high (omega arith)
            (alive-Ascends c (suc t.id) ts high a))
    | inr e ↦ rw (e, alive) (h, alive-Ascends c (suc t.id) ts high a)
  ]

  has_id-alive :
      (c : TrackManagerConfig F) (n : ℕ) (ts : List (Track F))
      → has_id n (ids ts) ≡ false
      → has_id n (ids (alive c ts)) ≡ false
  unfolding alive has_id
  has_id-alive c n [] h = refl
  has_id-alive c n (t ∷ ts) h = ground (arith, has_id-alive c n ts, h)

  pub id-born_track :
      (c : TrackManagerConfig F) (n : ℕ) (d : Observation F) → (born_track c n d).id ≡ n
  unfolding born_track take_observation
  id-born_track c n d = ground arith

  pub bear-Ascends :
      (c : TrackManagerConfig F) (det_track : ℕ → Option ℕ) (d n : ℕ) (dets : List (Observation F))
      → Ascends n (ids (bear c det_track d n dets).0) (bear c det_track d n dets).1
  unfolding bear Ascends
  bear-Ascends c det_track d n [] = omega arith
  bear-Ascends c det_track d n (det ∷ dets) = elim (option_cases (det_track d)) [
    | inl e ↦
        rw (e, id-born_track c n det, bear)
          (omega arith, bear-Ascends c det_track (suc d) (suc n) dets)
    | inr (t, e) ↦ rw (e, bear) (bear-Ascends c det_track (suc d) n dets)
  ]

  map-append : (ts us : List (Track F)) → ids (ts ++ us) ≡ ids ts ++ ids us
  map-append [] us = refl
  map-append (t ∷ ts) us = ap (λ ns. t.id ∷ ns) (map-append ts us)

  -- The tracks of an update before the dead ones are dropped.
  abbrev pub updated : Association → ObservationFrame F → TrackManager F → List (Track F)
  updated s frame m =
      miss_unmatched s.track_matched 0
        (take_detections m.config s.det_track 0 (detections m.config frame.obs) m.tracks)

  pub ids-updated :
      (s : Association) (frame : ObservationFrame F) (m : TrackManager F)
      → ids (updated s frame m) ≡ ids m.tracks
  ids-updated s frame m =
      ids-miss_unmatched s.track_matched 0
        (take_detections m.config s.det_track 0 (detections m.config frame.obs) m.tracks)
      ∙ ids-take_detections m.config s.det_track 0 (detections m.config frame.obs) m.tracks

  module _ (s : Association) (frame : ObservationFrame F) (m : TrackManager F) where
    abbrev newborn : List (Track F) × ℕ
    newborn = bear m.config s.det_track 0 m.next_id (detections m.config frame.obs)

    newborn-Ascends : Ascends m.next_id (ids newborn.0) newborn.1
    newborn-Ascends = bear-Ascends m.config s.det_track 0 m.next_id (detections m.config frame.obs)

    pub update_with-IsOrdered : IsOrdered m → IsOrdered (update_with s frame m).1
    unfolding update_with
    update_with-IsOrdered a =
        subst (λ ns. Ascends 1 ns newborn.1)
          (sym (map-append (alive m.config (updated s frame m)) newborn.0))
          (Ascends-append 1 (ids (alive m.config (updated s frame m))) m.next_id (ids newborn.0)
            newborn.1
            (alive-Ascends m.config 1 (updated s frame m) m.next_id
              (subst (λ ns. Ascends 1 ns m.next_id) (sym (ids-updated s frame m)) a))
            newborn-Ascends)

    pub next_id-update_with : m.next_id ≤ (update_with s frame m).1.next_id
    unfolding update_with
    next_id-update_with = Ascends-room m.next_id (ids newborn.0) newborn.1 newborn-Ascends

    -- A number below the next id that is no id is none after the update either.
    pub has_id-update_with :
        (n : ℕ)
        → n < m.next_id
        → has_id n (ids m.tracks) ≡ false
        → has_id n (ids (update_with s frame m).1.tracks) ≡ false
    unfolding update_with has_id
    has_id-update_with n h g = ground (
      arith,
      map-append (alive m.config (updated s frame m)) newborn.0,
      has_id-append n (ids (alive m.config (updated s frame m))) (ids newborn.0),
      has_id-alive m.config n (updated s frame m),
      ids-updated s frame m,
      has_id-below n m.next_id (ids newborn.0) newborn.1 newborn-Ascends h,
      g,
    )
