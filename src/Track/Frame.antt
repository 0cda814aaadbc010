-- ===== src/Track/Frame.antt =====
-- `TrackManager::update` of helpers/track_manager.hpp as a whole: what a frame publishes, and the tracks
-- that it leaves.
use droneengage_common.Common.{
  ℕ, ◌+◌, ◌≤◌, ◌<◌, ◌≡◌, inl, inr, refl, ap, true, false, some, List, ◌++◌, arith, length, nth, All,
  All-append, IsIn, IsIn-nth, IsIn-append_left, IsIn-append_right, String, Bool-cases, subst, sym,
  ◌∙◌,
}
use droneengage_common.Common.Float.{FloatOps}
use droneengage_common.Obs.{Observation, ObservationFrame, no_observation}
use droneengage_common.Track.State.{Track, TrackManager, no_track, miss, dead}
use droneengage_common.Track.Associate.{Association, detections}
use droneengage_common.Track.Manager.{
  take_detections, born_track, bear, with_trk, publish, publish_born, alive, update_with,
}
use droneengage_common.Track.Matches.{IsAssociated}
use droneengage_common.Track.Classes.{IsPair}
use droneengage_common.Track.Ids.{updated}
use droneengage_common.Track.Life.{
  taken, take_detections-other, take_detections-taken, length-take_detections, nth-miss_unmatched,
  length-miss_unmatched,
}
use droneengage_common.Track.Published.{publish-All, publish_born-All, alive-All, IsIn-alive}
use droneengage_common.Track.Seen.{
  IsPublished, IsLive, is_kept, taken-IsLive, missed-IsLive, HasTaken, taken-HasTaken, cls-taken,
  born-HasTaken, cls-born_track, not_dead, bear-IsLive,
}

module _ {F : Type 0} ⦃o : FloatOps F⦄ where
  module _ (s : Association) (frame : ObservationFrame F) (m : TrackManager F) (done : List String)
      (a : IsAssociated (IsPair m.config m.tracks (detections m.config frame.obs) done) s) where
    abbrev dets : List (Observation F)
    dets = detections m.config frame.obs

    abbrev fed : List (Track F)
    fed = take_detections m.config s.det_track 0 dets m.tracks

    abbrev newborn : List (Track F) × ℕ
    newborn = bear m.config s.det_track 0 m.next_id dets

    fed_room : (t : ℕ) → t < length m.tracks → t < length fed
    fed_room t h = omega (arith, h, length-take_detections m.config s.det_track 0 dets m.tracks)

    -- The track of a detection has taken it.
    matched_track :
        (d t : ℕ)
        → s.det_track d ≡ some t
        → nth no_track (updated s frame m) t
          ≡ taken m.config (nth no_observation dets d) (nth no_track m.tracks t)
    matched_track d t e =
        let v = a.valid d t e in
        ground (
          arith,
          nth-miss_unmatched s.track_matched 0 t fed (fed_room t v.track_inside),
          a.marked d t e,
          take_detections-taken m.config s.det_track t d 0 dets m.tracks v.track_inside
              (subst (λ n. s.det_track n ≡ some t) {x = d} (omega arith) e) v.det_inside
              (λ x y i j. a.once x y t i j),
        )

    missed_track :
        (t : ℕ)
        → t < length m.tracks
        → s.track_matched t ≡ false
        → nth no_track (updated s frame m) t ≡ miss (nth no_track m.tracks t)
    missed_track t h e = ground (
      arith,
      nth-miss_unmatched s.track_matched 0 t fed (fed_room t h),
      e,
      take_detections-other m.config s.det_track t 0 dets m.tracks
          (λ d lo g. absurd (cc (a.marked d t g, e))),
    )

    length-updated : length (updated s frame m) ≡ length m.tracks
    length-updated =
        length-miss_unmatched s.track_matched 0 fed
        ∙ length-take_detections m.config s.det_track 0 dets m.tracks

    updated-IsLive :
        (k : ℕ)
        → k < length (updated s frame m)
        → dead m.config (nth no_track (updated s frame m) k) ≡ false
        → IsLive m.config (nth no_track (updated s frame m) k)
    updated-IsLive k room e = elim (Bool-cases (s.track_matched k)) [
      | inl h ↦
          let (d, g) = a.has k h in
          rw (matched_track d k g)
            (taken-IsLive m.config (nth no_observation dets d) (nth no_track m.tracks k))
      | inr h ↦
          let g = missed_track k (omega (arith, room, length-updated)) h in
          rw g (
            missed-IsLive m.config (nth no_track m.tracks k)
              (subst (λ t. dead m.config t ≡ false) g e))
    ]

    pub tracks-IsLive : All (IsLive m.config) (update_with s frame m).1.tracks
    unfolding update_with
    tracks-IsLive =
        All-append (IsLive m.config) (alive m.config (updated s frame m)) newborn.0
          (alive-All (IsLive m.config) m.config (updated s frame m) updated-IsLive)
          (bear-IsLive m.config s.det_track 0 m.next_id dets)

    abbrev Shown : Observation F → Type 0
    Shown = IsPublished m.config frame (alive m.config (updated s frame m) ++ newborn.0)

    -- A detection with the track that has taken it.
    shown :
        (d : Observation F) (t : Track F)
        → IsIn d dets
        → IsIn t (alive m.config (updated s frame m) ++ newborn.0)
        → HasTaken d t
        → t.cls ≡ d.cls
        → t.confirmed ≡ true
        → Shown (with_trk d t)
    unfolding with_trk
    shown d t i j h e g = record {
      det = d;
      track = t;
      det_in = (is_kept m.config frame.obs d i).0;
      sure = (is_kept m.config frame.obs d i).1;
      track_in = j;
      confirmed = g;
      seen = h.seen;
      same_class = e;
      same_box = h.same_box;
      is = refl;
    }

    matched-Shown :
        (e t : ℕ)
        → e < length dets
        → s.det_track (0 + e) ≡ some t
        → (nth no_track (updated s frame m) t).confirmed ≡ true
        → Shown (with_trk (nth no_observation dets e) (nth no_track (updated s frame m) t))
    matched-Shown e t room h g =
        let q = subst (λ n. s.det_track n ≡ some t) {x = 0 + e} {y = e} (omega arith) h in
        let v = a.valid e t q in
        let d = nth no_observation dets e in
        let old = nth no_track m.tracks t in
        let has = subst (HasTaken d) (sym (matched_track e t q)) (taken-HasTaken m.config d old) in
        shown d (nth no_track (updated s frame m) t) (IsIn-nth no_observation dets e room)
          (IsIn-append_left (nth no_track (updated s frame m) t)
            (alive m.config (updated s frame m)) newborn.0
            (IsIn-alive m.config (updated s frame m) t
              (omega (arith, v.track_inside, length-updated))
              (not_dead m.config (nth no_track (updated s frame m) t) has.seen)))
          has (ap (λ x. x.cls) (matched_track e t q) ∙ cls-taken m.config d old ∙ v.same_class) g

    born-Shown :
        (det : Observation F) (k : ℕ)
        → IsIn det dets
        → m.next_id ≤ k
        → IsIn (born_track m.config k det) newborn.0
        → (born_track m.config k det).confirmed ≡ true
        → Shown (with_trk det (born_track m.config k det))
    born-Shown det k i lo j g =
        shown det (born_track m.config k det) i
          (IsIn-append_right (born_track m.config k det) (alive m.config (updated s frame m))
            newborn.0 j)
          (born-HasTaken m.config k det) (cls-born_track m.config k det) g

    pub All-shown :
        All
          (IsPublished m.config frame (update_with s frame m).1.tracks)
          (update_with s frame m).0.obs
    unfolding update_with
    All-shown =
        All-append Shown (publish s.det_track (updated s frame m) 0 dets)
          (publish_born s.det_track 0 dets newborn.0)
          (publish-All Shown s.det_track (updated s frame m) 0 dets matched-Shown)
          (publish_born-All Shown m.config s.det_track 0 m.next_id dets born-Shown)
