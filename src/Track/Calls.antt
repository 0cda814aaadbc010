-- ===== src/Track/Calls.antt =====
-- Runs of `TrackManager` of helpers/track_manager.hpp: the ids over a sequence of calls.
use droneengage_common.Common.{
  ℕ, ◌≤◌, ◌<◌, ◌≡◌, refl, false, Option, none, some, List, [], ◌∷◌, arith, on_some-inverse, subst,
}
use droneengage_common.Common.Float.{FloatOps}
use droneengage_common.Obs.{ObservationFrame}
use droneengage_common.Track.State.{TrackManagerConfig, TrackManager, set_config, reset}
use droneengage_common.Track.Associate.{detections, associate}
use droneengage_common.Track.Manager.{update_with, update}
use droneengage_common.Track.Ids.{
  Ascends, IsOrdered, ids, has_id, Ascends-room, update_with-IsOrdered, next_id-update_with,
  has_id-update_with,
}

-- What the owner of the manager calls.
pub data Call (F : Type 0) : Type 0 where
  frame_call : ObservationFrame F → Call F
  reset_call : Call F
  config_call : TrackManagerConfig F → Call F

module _ {F : Type 0} ⦃o : FloatOps F⦄ where
  -- A call and the manager after it; `none` is an update that does not end.
  unfoldable pub call : Call F → TrackManager F → Option (TrackManager F)
  unfolding update reset set_config
  call (frame_call f) m = elim (update f m) [ none ↦ none | some r ↦ some r.1 ]
  call reset_call m = some (reset m)
  call (config_call c) m = some (set_config c m)

  unfoldable pub run : List (Call F) → TrackManager F → Option (TrackManager F)
  unfolding call
  run [] m = some m
  run (x ∷ xs) m = elim (call x m) [ none ↦ none | some t ↦ run xs t ]

  -- What calls do to the ids.
  pub record IsLater (m t : TrackManager F) : Type 0 where
    pub ordered : IsOrdered t
    pub grows : m.next_id ≤ t.next_id
    pub gone :
        (n : ℕ) → n < m.next_id → has_id n (ids m.tracks) ≡ false → has_id n (ids t.tracks) ≡ false

  IsLater-trans : (m t x : TrackManager F) → IsLater m t → IsLater t x → IsLater m x
  IsLater-trans m t x a b = record {
    ordered = b.ordered;
    grows = omega (arith, a.grows, b.grows);
    gone = λ n h g. b.gone n (omega (arith, h, a.grows)) (a.gone n h g);
  }

  IsLater-refl : (m : TrackManager F) → IsOrdered m → IsLater m m
  IsLater-refl m h = record { ordered = h; grows = omega arith; gone = λ n g e. e }

  update-IsLater :
      (f : ObservationFrame F) (m : TrackManager F) (r : ObservationFrame F × TrackManager F)
      → IsOrdered m
      → update f m ≡ some r
      → IsLater m r.1
  unfolding update
  update-IsLater f m r h e =
      let (s, g, e') =
        on_some-inverse (associate m.config m.tracks (detections m.config f.obs))
          (λ s. some (update_with s f m)) r e in
      subst (λ x. IsLater m x.1) {x = update_with s f m} {y = r} (ground arith)
        (record {
          ordered = update_with-IsOrdered s f m h;
          grows = next_id-update_with s f m;
          gone = has_id-update_with s f m;
        })

  reset-IsLater : (m : TrackManager F) → IsOrdered m → IsLater m (reset m)
  unfolding reset has_id Ascends
  reset-IsLater m h = record {
    ordered = Ascends-room 1 (ids m.tracks) m.next_id h;
    grows = omega arith;
    gone = λ n g e. refl;
  }

  set_config-IsLater :
      (c : TrackManagerConfig F) (m : TrackManager F) → IsOrdered m → IsLater m (set_config c m)
  unfolding set_config
  set_config-IsLater c m h = record { ordered = h; grows = omega arith; gone = λ n g e. e }

  call-IsLater : (x : Call F) (m t : TrackManager F) → IsOrdered m → call x m ≡ some t → IsLater m t
  unfolding call
  call-IsLater (frame_call f) m t h e =
      let (r, g, e') = on_some-inverse (update f m) (λ r. some r.1) t e in
      subst (IsLater m) (ground arith) (update-IsLater f m r h g)
  call-IsLater reset_call m t h e = subst (IsLater m) (ground arith) (reset-IsLater m h)
  call-IsLater (config_call c) m t h e = subst (IsLater m) (ground arith) (set_config-IsLater c m h)

  -- Over a run of frames, resets and changes of the configuration the ids of the tracks stay in
  -- ascending order and below the next id, which does not fall; and an id that has been given and
  -- belongs to no track belongs to none afterwards.
  pub run-IsLater :
      (calls : List (Call F)) (m t : TrackManager F)
      → IsOrdered m
      → run calls m ≡ some t
      → IsLater m t
  unfolding run
  run-IsLater [] m t h e = subst (IsLater m) (ground arith) (IsLater-refl m h)
  run-IsLater (x ∷ xs) m t h e =
      let (y, g, e') = on_some-inverse (call x m) (run xs) t e in
      let a = call-IsLater x m y h g in IsLater-trans m y t a (run-IsLater xs y t a.ordered e')
