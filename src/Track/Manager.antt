-- ===== src/Track/Manager.antt =====
-- `TrackManager::update` of helpers/track_manager.hpp: what follows the association. An index that the
-- loops form is in its range; out of it `nth` gives the default object.
use droneengage_common.Common.{
  ℕ, suc, Bool, true, not, ◌&&◌, Option, none, some, List, [], ◌∷◌, ◌++◌, if◌then◌else◌, nth,
  modify_nth,
}
use droneengage_common.Common.Int.{pos, leb_ℤ}
use droneengage_common.Common.Float.{FloatOps}
use droneengage_common.Obs.{Observation, ObservationFrame}
use droneengage_common.Track.State.{
  TrackManagerConfig, Track, TrackManager, no_track, take_observation, miss, dead,
}
use droneengage_common.Track.Associate.{Association, detections, associate}

module _ {F : Type 0} ⦃o : FloatOps F⦄ where
  -- A track after a detection of its own.
  unfoldable pub confirm : TrackManagerConfig F → Track F → Track F
  confirm c t =
      if not t.confirmed && leb_ℤ c.confirm_hits (pos t.hits)
      then record t { confirmed = true }
      else t

  -- The matched tracks take the detections, which are counted from `d`.
  unfoldable pub take_detections :
      TrackManagerConfig F
      → (ℕ → Option ℕ)
      → (d : ℕ) → List (Observation F)
      → List (Track F)
      → List (Track F)
  unfolding confirm take_observation
  take_detections c det_track d [] tracks = tracks
  take_detections c det_track d (det ∷ dets) tracks = elim (det_track d) [
    | none ↦ take_detections c det_track (suc d) dets tracks
    | some t ↦
        take_detections c det_track (suc d) dets
          (modify_nth (λ tr. confirm c (take_observation det tr)) t tracks)
  ]

  unfoldable pub miss_unmatched : (ℕ → Bool) → (t : ℕ) → List (Track F) → List (Track F)
  unfolding miss
  miss_unmatched track_matched t [] = []
  miss_unmatched track_matched t (tr ∷ tracks) =
      (if track_matched t then tr else miss tr) ∷ miss_unmatched track_matched (suc t) tracks

  -- The track of an unmatched detection.
  unfoldable pub born_track : TrackManagerConfig F → ℕ → Observation F → Track F
  unfolding take_observation
  born_track c next_id det =
      let tr = take_observation det (record no_track { id = next_id; cls = det.cls }) in
      if leb_ℤ c.confirm_hits (pos tr.hits) then record tr { confirmed = true } else tr

  -- The new tracks, and the next id.
  unfoldable pub bear :
      TrackManagerConfig F
      → (ℕ → Option ℕ)
      → (d next_id : ℕ) → List (Observation F)
      → List (Track F) × ℕ
  unfolding born_track
  bear c det_track d next_id [] = ([], next_id)
  bear c det_track d next_id (det ∷ dets) = elim (det_track d) [
    | some t ↦ bear c det_track (suc d) next_id dets
    | none ↦
        let rest = bear c det_track (suc d) (suc next_id) dets in
        (born_track c next_id det ∷ rest.0, rest.1)
  ]

  -- The detection with the id of its track.
  unfoldable pub with_trk : Observation F → Track F → Observation F
  with_trk det tr = record det { has_trk = true; trk = pos tr.id }

  unfoldable pub publish :
      (ℕ → Option ℕ) → List (Track F) → (d : ℕ) → List (Observation F) → List (Observation F)
  unfolding with_trk
  publish det_track tracks d [] = []
  publish det_track tracks d (det ∷ dets) =
      let rest = publish det_track tracks (suc d) dets in
      elim (det_track d) [
        | none ↦ rest
        | some t ↦
            if (nth no_track tracks t).confirmed
            then with_trk det (nth no_track tracks t) ∷ rest
            else rest
      ]

  -- The new tracks that are confirmed at once; `born` starts at `born[bi]`.
  unfoldable pub publish_born :
      (ℕ → Option ℕ)
      → (d : ℕ) → List (Observation F)
      → (born : List (Track F)) → List (Observation F)
  unfolding with_trk
  publish_born det_track d [] born = []
  publish_born det_track d (det ∷ dets) [] = publish_born det_track (suc d) dets []
  publish_born det_track d (det ∷ dets) (tr ∷ born) = elim (det_track d) [
    | some t ↦ publish_born det_track (suc d) dets (tr ∷ born)
    | none ↦
        let rest = publish_born det_track (suc d) dets born in
        if tr.confirmed then with_trk det tr ∷ rest else rest
  ]

  unfoldable pub alive : TrackManagerConfig F → List (Track F) → List (Track F)
  unfolding dead
  alive c [] = []
  alive c (t ∷ ts) = let rest = alive c ts in if dead c t then rest else t ∷ rest

  -- The update once the association is known.
  unfoldable pub update_with :
      Association → ObservationFrame F → TrackManager F → ObservationFrame F × TrackManager F
  unfolding detections take_detections miss_unmatched bear publish publish_born alive
  update_with s frame m =
      let dets = detections m.config frame.obs in
      let tracks =
        miss_unmatched s.track_matched 0 (take_detections m.config s.det_track 0 dets m.tracks) in
      let (born, next_id) = bear m.config s.det_track 0 m.next_id dets in
      (
        record frame {
          obs = publish s.det_track tracks 0 dets ++ publish_born s.det_track 0 dets born;
        },
        record m { tracks = alive m.config tracks ++ born; next_id = next_id },
      )

  -- `TrackManager::update`; `none` is an assignment that does not end.
  unfoldable pub update :
      ObservationFrame F → TrackManager F → Option (ObservationFrame F × TrackManager F)
  unfolding associate update_with
  update frame m = elim (associate m.config m.tracks (detections m.config frame.obs)) [
    | none ↦ none
    | some s ↦ some (update_with s frame m)
  ]
