-- ===== src/Track/Update.antt =====
-- `TrackManager::update` of helpers/track_manager.hpp: the observations that it gives back, and the tracks.
use droneengage_common.Common.{
  ℕ, ◌+◌, ◌<◌, ◌≡◌, ◌≢◌, some, List, [], String, arith, length, nth, All, ap, on_some-inverse,
  subst, sym, ◌∙◌,
}
use droneengage_common.Common.Int.{pos}
use droneengage_common.Common.Float.{FloatOps}
use droneengage_common.Obs.{Observation, ObservationFrame}
use droneengage_common.Track.State.{TrackManager, no_track}
use droneengage_common.Track.Associate.{Association, class_list, detections, associate}
use droneengage_common.Track.Manager.{bear, with_trk, publish, publish_born, update_with, update}
use droneengage_common.Track.Matches.{IsAssociated}
use droneengage_common.Track.Classes.{IsPair}
use droneengage_common.Track.Associated.{associate-IsAssociated}
use droneengage_common.Track.Ids.{
  IsOrdered, ids, updated, ids-updated, Ascends-within, Ascends-injective, id-born_track,
}
use droneengage_common.Track.Published.{
  publish-All, publish_born-All, IsOnce, IsOnce-append, publish-IsOnce, publish_born-IsOnce,
}
use droneengage_common.Track.Seen.{IsPublished, IsLive, nth-ids, length-ids}
use droneengage_common.Track.Frame.{tracks-IsLive, All-shown}

module _ {F : Type 0} ⦃o : FloatOps F⦄ where
  module _ (s : Association) (frame : ObservationFrame F) (m : TrackManager F) (done : List String)
      (a : IsAssociated (IsPair m.config m.tracks (detections m.config frame.obs) done) s)
      (h : IsOrdered m) where
    abbrev dets : List (Observation F)
    dets = detections m.config frame.obs

    id-updated : (t : ℕ) → (nth no_track (updated s frame m) t).id ≡ nth 0 (ids m.tracks) t
    id-updated t =
        sym (nth-ids (updated s frame m) t) ∙ ap (λ ns. nth 0 ns t) (ids-updated s frame m)

    one_detection :
        (d e t u : ℕ)
        → s.det_track d ≡ some t
        → s.det_track e ≡ some u
        → (nth no_track (updated s frame m) t).id ≡ (nth no_track (updated s frame m) u).id
        → d ≡ e
    one_detection d e t u i j g =
        let same =
          Ascends-injective 1 (ids m.tracks) m.next_id t u h
            (omega (arith, (a.valid d t i).track_inside, length-ids m.tracks))
            (omega (arith, (a.valid e u j).track_inside, length-ids m.tracks))
            (sym (id-updated t) ∙ g ∙ id-updated u) in
        a.once d e t i (subst (λ n. s.det_track e ≡ some n) (sym same) j)

    t_inside : (e t : ℕ) → s.det_track (0 + e) ≡ some t → t < length (ids m.tracks)
    t_inside e t i = omega (arith, (a.valid (0 + e) t i).track_inside, length-ids m.tracks)

    apart :
        All
          (λ x.
            All
              (λ y. y.trk ≢ x.trk)
              (publish_born s.det_track 0 dets (bear m.config s.det_track 0 m.next_id dets).0))
          (publish s.det_track (updated s frame m) 0 dets)
    unfolding with_trk
    apart =
        publish-All
          (λ x.
            All (λ y. y.trk ≢ x.trk)
              (publish_born s.det_track 0 dets (bear m.config s.det_track 0 m.next_id dets).0))
          s.det_track (updated s frame m) 0 dets
          (λ e t room i g.
            publish_born-All (λ y. y.trk ≢ pos (nth no_track (updated s frame m) t).id) m.config
              s.det_track 0 m.next_id dets
              (λ x k j lo b f c. absurd (
                ground (
                  arith,
                  c,
                  id-born_track m.config k x,
                  id-updated t,
                  lo,
                  (Ascends-within 1 (ids m.tracks) m.next_id t h (t_inside e t i)).1,
                ))))

    published-IsOnce : IsOnce (update_with s frame m).0.obs
    unfolding update_with
    published-IsOnce =
        IsOnce-append (publish s.det_track (updated s frame m) 0 dets)
          (publish_born s.det_track 0 dets (bear m.config s.det_track 0 m.next_id dets).0)
          (publish-IsOnce s.det_track (updated s frame m) 0 dets one_detection)
          (publish_born-IsOnce m.config s.det_track 0 m.next_id dets) apart

  -- The update and its association.
  update-inverse :
      (frame : ObservationFrame F) (m : TrackManager F) (r : ObservationFrame F × TrackManager F)
      → update frame m ≡ some r
      → (s : Association) × IsAssociated
          (IsPair m.config m.tracks
            (detections m.config frame.obs)
            (class_list (detections m.config frame.obs) []))
          s
        × (update_with s frame m ≡ r)
  unfolding update
  update-inverse frame m r e =
      let (s, g, e') =
        on_some-inverse (associate m.config m.tracks (detections m.config frame.obs))
          (λ s. some (update_with s frame m)) r e in
      (
        s,
        associate-IsAssociated m.config m.tracks (detections m.config frame.obs) s g,
        ground arith,
      )

  -- After an update every track either was seen in the frame, and is confirmed if it was seen in as many
  -- frames in a row as the configuration asks for, or is confirmed and has been missed in at most as many
  -- frames in a row as the configuration allows.
  pub update-IsLive :
      (frame : ObservationFrame F) (m : TrackManager F) (r : ObservationFrame F × TrackManager F)
      → update frame m ≡ some r
      → All (IsLive m.config) r.1.tracks
  update-IsLive frame m r e =
      let (s, a, g) = update-inverse frame m r e in
      subst (λ x. All (IsLive m.config) x.1.tracks) g
        (tracks-IsLive s frame m (class_list (detections m.config frame.obs) []) a)

  -- Where the ids of the tracks are in order, every observation that an update gives back is a
  -- detection of the frame that is sure enough, unchanged but for its id, which is that of a confirmed
  -- track of the same class and with the same box that was seen in this frame; and no two of them have
  -- one id.
  pub update-IsPublished :
      (frame : ObservationFrame F) (m : TrackManager F) (r : ObservationFrame F × TrackManager F)
      → IsOrdered m
      → update frame m ≡ some r
      → All (IsPublished m.config frame r.1.tracks) r.0.obs × IsOnce r.0.obs
  update-IsPublished frame m r h e =
      let (s, a, g) = update-inverse frame m r e in
      let done = class_list (detections m.config frame.obs) [] in
      subst (λ x. All (IsPublished m.config frame x.1.tracks) x.0.obs × IsOnce x.0.obs) g
        (All-shown s frame m done a, published-IsOnce s frame m done a h)
