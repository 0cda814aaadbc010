-- ===== src/Track/Ends.antt =====
-- Every run of `TrackManager` of helpers/track_manager.hpp over frames of finite numbers ends.
use droneengage_common.Common.{
  ℕ, zero, suc, ◌≤◌, ◌≡◌, refl, Bool, true, false, Option, none, some, List, [], ◌∷◌, arith,
  modify_nth, All, All-append, length, leb, ◌==◌, ◌||◌, String, if◌then◌else◌, Bool-cases,
  option_cases, inl, inr, on_some, str_eq, ap, ◌∙◌,
}
use droneengage_common.Common.Float.{FloatOps}
use droneengage_common.Obs.{Observation, ObservationFrame}
use droneengage_common.Track.State.{
  TrackManagerConfig, Track, TrackManager, take_observation, no_track, miss, dead, reset,
  set_config,
}
use droneengage_common.Track.Associate.{
  Association, indices, detections, cost_vector, assign_rows, associate_indices, associate_class,
  associate_classes, class_list, associate,
}
use droneengage_common.Track.Manager.{
  confirm, take_detections, miss_unmatched, born_track, bear, alive, update_with, update,
}
use droneengage_common.Track.Scan.{FloatLaws}
use droneengage_common.Track.Rows.{hungarian-IsAssignment}
use droneengage_common.Track.Life.{taken}
use droneengage_common.Track.Finite.{
  IsFiniteTrack, IsFiniteObservation, take_observation_finite, no_track_finite, cost_vector_finite,
}
use droneengage_common.Track.Calls.{Call, frame_call, reset_call, config_call, call, run}

smaller_rows : (a b : ℕ) → (if leb a b then a else b) ≤ (if leb a b then b else a)
smaller_rows a b = elim (Bool-cases (leb a b)) [
  | inl e ↦ rw e (ground (arith, e))
  | inr e ↦ rw e (ground (arith, e))
]

module _ {F : Type 0} ⦃o : FloatOps F⦄ (IsFinite : F → Type 0) (laws : FloatLaws o IsFinite) where
  abbrev FiniteTracks : List (Track F) → Type 0
  FiniteTracks ts = All (IsFiniteTrack IsFinite laws) ts

  abbrev FiniteObservations : List (Observation F) → Type 0
  FiniteObservations ds = All (IsFiniteObservation IsFinite laws) ds

  module _ (c : TrackManagerConfig F) where
    detections_finite :
        (ds : List (Observation F)) → FiniteObservations ds → FiniteObservations (detections c ds)
    unfolding detections
    detections_finite [] h = tt
    detections_finite (d ∷ ds) (g, h) = elim (Bool-cases (o.le c.min_conf d.conf)) [
      | inl e ↦ rw (e, detections) (g, detections_finite ds h)
      | inr e ↦ rw (e, detections) (detections_finite ds h)
    ]

    if_track :
        (b : Bool) {s t : Track F}
        → IsFiniteTrack IsFinite laws s
        → IsFiniteTrack IsFinite laws t
        → IsFiniteTrack IsFinite laws (if b then s else t)
    if_track true h g = h
    if_track false h g = g

    -- Only the numbers of the box and its velocity count.
    same_finite :
        (s t : Track F)
        → (s.x ≡ t.x) × (s.y ≡ t.y) × (s.w ≡ t.w) × (s.h ≡ t.h) × (s.vx ≡ t.vx) × (s.vy ≡ t.vy)
        → IsFiniteTrack IsFinite laws t
        → IsFiniteTrack IsFinite laws s
    same_finite s t (a, b, c, d, e, f) h = record {
      x = rw a h.x;
      y = rw b h.y;
      w = rw c h.w;
      h = rw d h.h;
      vx = rw e h.vx;
      vy = rw f h.vy;
    }

    confirm_finite :
        (t : Track F) → IsFiniteTrack IsFinite laws t → IsFiniteTrack IsFinite laws (confirm c t)
    unfolding confirm
    confirm_finite t h =
        if_track _
          (same_finite (record t { confirmed = true }) t (refl, refl, refl, refl, refl, refl) h) h

    taken_finite :
        (d : Observation F) (t : Track F)
        → IsFiniteObservation IsFinite laws d
        → IsFiniteTrack IsFinite laws t
        → IsFiniteTrack IsFinite laws (taken c d t)
    taken_finite d t g h =
        confirm_finite (take_observation d t) (take_observation_finite IsFinite laws d t g h)

    miss_finite :
        (t : Track F) → IsFiniteTrack IsFinite laws t → IsFiniteTrack IsFinite laws (miss t)
    unfolding miss
    miss_finite t h = same_finite (miss t) t (refl, refl, refl, refl, refl, refl) h

    born_finite :
        (n : ℕ) (d : Observation F)
        → IsFiniteObservation IsFinite laws d
        → IsFiniteTrack IsFinite laws (born_track c n d)
    unfolding born_track
    born_finite n d g =
        let fresh = record no_track { id = n; cls = d.cls } in
        let t = take_observation d fresh in
        let h = take_observation_finite IsFinite laws d fresh g (
          same_finite fresh no_track (refl, refl, refl, refl, refl, refl)
            (no_track_finite IsFinite laws)) in
        if_track _
          (same_finite (record t { confirmed = true }) t (refl, refl, refl, refl, refl, refl) h) h

    modify_nth_finite :
        (f : Track F → Track F)
        → ((t : Track F) → IsFiniteTrack IsFinite laws t → IsFiniteTrack IsFinite laws (f t))
        → (k : ℕ) (ts : List (Track F)) → FiniteTracks ts
        → FiniteTracks (modify_nth f k ts)
    modify_nth_finite f g k [] h = tt
    modify_nth_finite f g zero (t ∷ ts) (h, hs) = (g t h, hs)
    modify_nth_finite f g (suc k) (t ∷ ts) (h, hs) = (h, modify_nth_finite f g k ts hs)

    take_detections_finite :
        (det_track : ℕ → Option ℕ) (d : ℕ) (ds : List (Observation F)) (ts : List (Track F))
        → FiniteObservations ds
        → FiniteTracks ts
        → FiniteTracks (take_detections c det_track d ds ts)
    unfolding take_detections
    take_detections_finite det_track d [] ts g h = h
    take_detections_finite det_track d (x ∷ ds) ts (g, gs) h = elim (option_cases (det_track d)) [
      | inl e ↦ rw (e, take_detections) (take_detections_finite det_track (suc d) ds ts gs h)
      | inr (k, e) ↦
          rw (e, take_detections)
            (take_detections_finite det_track (suc d) ds (modify_nth (taken c x) k ts) gs
              (modify_nth_finite (taken c x) (λ t i. taken_finite x t g i) k ts h))
    ]

    miss_unmatched_finite :
        (track_matched : ℕ → Bool) (k : ℕ) (ts : List (Track F))
        → FiniteTracks ts
        → FiniteTracks (miss_unmatched track_matched k ts)
    unfolding miss_unmatched
    miss_unmatched_finite track_matched k [] h = tt
    miss_unmatched_finite track_matched k (t ∷ ts) (h, hs) =
        (if_track _ h (miss_finite t h), miss_unmatched_finite track_matched (suc k) ts hs)

    alive_finite : (ts : List (Track F)) → FiniteTracks ts → FiniteTracks (alive c ts)
    unfolding alive
    alive_finite [] h = tt
    alive_finite (t ∷ ts) (h, hs) = elim (Bool-cases (dead c t)) [
      | inl e ↦ rw (e, alive) (alive_finite ts hs)
      | inr e ↦ rw (e, alive) (h, alive_finite ts hs)
    ]

    bear_finite :
        (det_track : ℕ → Option ℕ) (d n : ℕ) (ds : List (Observation F))
        → FiniteObservations ds
        → FiniteTracks (bear c det_track d n ds).0
    unfolding bear
    bear_finite det_track d n [] h = tt
    bear_finite det_track d n (x ∷ ds) (h, hs) = elim (option_cases (det_track d)) [
      | inl e ↦ rw (e, bear) (born_finite n x h, bear_finite det_track (suc d) (suc n) ds hs)
      | inr (t, e) ↦ rw (e, bear) (bear_finite det_track (suc d) n ds hs)
    ]

    module _ (tracks : List (Track F)) (dets : List (Observation F)) (ts : FiniteTracks tracks)
        (ds : FiniteObservations dets) where
      associate_indices-ends :
          (di ti : List ℕ) (s : Association)
          → (t : Association) × (associate_indices c tracks dets di ti s ≡ some t)
      unfolding associate_indices
      associate_indices-ends di ti s =
          let r = leb (length ti) (length di) in
          let n = if r then length ti else length di in
          let m = if r then length di else length ti in
          let (f, g, a) =
            hungarian-IsAssignment IsFinite laws (cost_vector c tracks dets r di ti m) m
              (cost_vector_finite IsFinite laws c tracks dets ts ds r di ti m) n
              (smaller_rows (length ti) (length di)) in
          (
            assign_rows c tracks dets r di ti m f n 0 s,
            ap (λ w. on_some w (λ x. some (assign_rows c tracks dets r di ti m x n 0 s))) g,
          )

      associate_class-ends :
          (cls : String) (s : Association)
          → (t : Association) × (associate_class c tracks dets cls s ≡ some t)
      unfolding associate_class
      associate_class-ends cls s =
          let di = indices (λ d. str_eq d.cls cls) 0 dets in
          let ti = indices (λ t. str_eq t.cls cls) 0 tracks in
          let (t, e) = associate_indices-ends di ti s in
          elim (Bool-cases (length di == 0 || length ti == 0)) [
            | inl g ↦ (s, rw (g, associate_class) refl)
            | inr g ↦ (t, rw (g, associate_class) e)
          ]

      associate_classes-ends :
          (classes : List String) (s : Association)
          → (t : Association) × (associate_classes c tracks dets classes s ≡ some t)
      unfolding associate_classes
      associate_classes-ends [] s = (s, refl)
      associate_classes-ends (cls ∷ classes) s =
          let (x, e) = associate_class-ends cls s in
          let (t, g) = associate_classes-ends classes x in
          (t, ap (λ w. on_some w (associate_classes c tracks dets classes)) e ∙ g)

      associate-ends : (t : Association) × (associate c tracks dets ≡ some t)
      unfolding associate
      associate-ends =
          associate_classes-ends (class_list dets [])
            (record { det_track = λ d. none; track_matched = λ t. false })

  update_with_finite :
      (s : Association) (frame : ObservationFrame F) (m : TrackManager F)
      → FiniteTracks m.tracks
      → FiniteObservations frame.obs
      → FiniteTracks (update_with s frame m).1.tracks
  unfolding update_with
  update_with_finite s frame m ts ds =
      let dets = detections m.config frame.obs in
      let fs = detections_finite m.config frame.obs ds in
      let fed = take_detections m.config s.det_track 0 dets m.tracks in
      let after = miss_unmatched s.track_matched 0 fed in
      All-append (IsFiniteTrack IsFinite laws) (alive m.config after)
        (bear m.config s.det_track 0 m.next_id dets).0
        (alive_finite m.config after (
          miss_unmatched_finite m.config s.track_matched 0 fed
            (take_detections_finite m.config s.det_track 0 dets m.tracks fs ts)))
        (bear_finite m.config s.det_track 0 m.next_id dets fs)

  -- The frames of the call have finite boxes.
  unfoldable pub IsFiniteCall : Call F → Type 0
  IsFiniteCall (frame_call f) = FiniteObservations f.obs
  IsFiniteCall reset_call = Unit
  IsFiniteCall (config_call c) = Unit

  -- An update by a frame of finite boxes ends, and leaves tracks of finite boxes.
  update-ends :
      (frame : ObservationFrame F) (m : TrackManager F)
      → FiniteTracks m.tracks
      → FiniteObservations frame.obs
      → (r : ObservationFrame F × TrackManager F) × (update frame m ≡ some r)
        × FiniteTracks r.1.tracks
  unfolding update
  update-ends frame m ts ds =
      let (s, e) =
        associate-ends m.config m.tracks (detections m.config frame.obs) ts
          (detections_finite m.config frame.obs ds) in
      (
        update_with s frame m,
        ap (λ w. on_some w (λ x. some (update_with x frame m))) e,
        update_with_finite s frame m ts ds,
      )

  call-ends :
      (x : Call F) (m : TrackManager F)
      → FiniteTracks m.tracks
      → IsFiniteCall x
      → (t : TrackManager F) × (call x m ≡ some t) × FiniteTracks t.tracks
  unfolding call IsFiniteCall reset set_config
  call-ends (frame_call f) m ts h =
      let (r, e, g) = update-ends f m ts h in (r.1, ap (λ w. on_some w (λ x. some x.1)) e, g)
  call-ends reset_call m ts h = (reset m, refl, tt)
  call-ends (config_call c) m ts h = (set_config c m, refl, ts)

  -- Where no number overflows, every run of frames of finite boxes, resets and changes of the
  -- configuration ends, and leaves tracks of finite boxes.
  pub run-ends :
      (calls : List (Call F)) (m : TrackManager F)
      → All IsFiniteCall calls
      → All (IsFiniteTrack IsFinite laws) m.tracks
      → (t : TrackManager F) × (run calls m ≡ some t) × All (IsFiniteTrack IsFinite laws) t.tracks
  unfolding run
  run-ends [] m h ts = (m, refl, ts)
  run-ends (x ∷ xs) m (h, hs) ts =
      let (y, e, g) = call-ends x m ts h in
      let (t, e', g') = run-ends xs y hs g in (t, ap (λ w. on_some w (run xs)) e ∙ e', g')
