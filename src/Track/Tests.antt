-- ===== src/Track/Tests.antt =====
-- The theorems on the track manager at concrete frames, with `double` as numbers of three decimal places
-- and an infinity.
use droneengage_common.Common.{
  ℕ, ◌≡◌, refl, Bool, true, false, Option, none, some, List, [], ◌∷◌, arith, All, nth,
}
use droneengage_common.Common.Int.{ℤ, pos, negsuc, ltb_ℤ, leb_ℤ}
use droneengage_common.Common.Float.{FloatOps, milli}
use droneengage_common.Json.{null}
use droneengage_common.Obs.{Observation, ObservationFrame}
use droneengage_common.Track.Assign.{hungarian}
use droneengage_common.Track.State.{Track, TrackManager}
use droneengage_common.Track.Scan.{FloatLaws}
use droneengage_common.Track.Rows.{IsAssignment, hungarian-IsAssignment}
use droneengage_common.Track.Manager.{update}
use droneengage_common.Track.Ids.{Ascends, IsOrdered}
use droneengage_common.Track.Calls.{Call, frame_call, run, IsLater, run-IsLater}
use droneengage_common.Track.Finite.{IsFiniteTrack}
use droneengage_common.Track.Ends.{IsFiniteCall, run-ends}
use droneengage_common.Track.Seen.{IsPublished, IsLive}
use droneengage_common.Track.Published.{IsOnce}
use droneengage_common.Track.Update.{update-IsLive, update-IsPublished}

-- `none` is infinity.
abbrev lift2 : (ℤ → ℤ → ℤ) → Option ℤ → Option ℤ → Option ℤ
lift2 f none y = none
lift2 f (some x) none = none
lift2 f (some x) (some y) = some (f x y)

abbrev compare2 : (ℤ → ℤ → Bool) → Option ℤ → Option ℤ → Bool
compare2 f (some x) (some y) = f x y
compare2 f (some x) none = true
compare2 f none y = false

instance abbrev extended : FloatOps (Option ℤ)
extended = record {
  of_int = λ n. some (milli.of_int n);
  to_int = λ x. elim x [ none ↦ pos 0 | some n ↦ milli.to_int n ];
  half = some milli.half;
  decimal = λ n k. some (milli.decimal n k);
  infinity = none;
  add = lift2 milli.add;
  sub = lift2 milli.sub;
  mul = lift2 milli.mul;
  div = lift2 milli.div;
  lt = compare2 ltb_ℤ;
  le = compare2 leb_ℤ;
}

abbrev Finite : Option ℤ → Type 0
Finite none = ⊥
Finite (some x) = Unit

lift2-Finite : (f : ℤ → ℤ → ℤ) (x y : Option ℤ) → Finite x → Finite y → Finite (lift2 f x y)
lift2-Finite f none y h g = h
lift2-Finite f (some x) none h g = g
lift2-Finite f (some x) (some y) h g = tt

below : (x : Option ℤ) → Finite x → compare2 ltb_ℤ x none ≡ true
below none h = absurd h
below (some x) h = refl

laws : FloatLaws extended Finite
laws = record {
  int_finite = λ n. tt;
  half_finite = tt;
  add_finite = lift2-Finite milli.add;
  sub_finite = lift2-Finite milli.sub;
  mul_finite = lift2-Finite milli.mul;
  div_finite = λ x y h g p. lift2-Finite milli.div x y h g;
  int_positive = λ n. ground arith;
  below_infinity = below;
}

-- 2 rows and 3 columns: 0.5 0.1 0.9 / 0.2 0.1 0.8.
abbrev costs : ℕ → Option ℤ
costs k = some (pos (nth 800 (500 ∷ 100 ∷ 900 ∷ 200 ∷ 100 ∷ []) k))

hungarian-IsAssignment_example :
    (f : ℕ → Option ℕ) × (hungarian costs 3 2 ≡ some f) × IsAssignment 2 3 f
hungarian-IsAssignment_example =
    hungarian-IsAssignment Finite laws costs 3 (λ k. tt) 2 (omega arith)

-- A person at x, with a box of 0.2 by 0.4.
abbrev person : ℕ → Observation (Option ℤ)
person x = record {
  has_trk = false;
  trk = negsuc 0;
  cls = "person";
  has_cls_id = false;
  cls_id = negsuc 0;
  conf = some (pos 900);
  x = some (pos x);
  y = some (pos 300);
  w = some (pos 200);
  h = some (pos 400);
  attrs = null;
}

abbrev frame_at : List (Observation (Option ℤ)) → ObservationFrame (Option ℤ)
frame_at obs = record { cam_id = "CAM1"; tm_capture = pos 1000; obs = obs }

abbrev start : TrackManager (Option ℤ)
start = record {
  config = record {
    confirm_hits = pos 2;
    max_misses = pos 1;
    iou_min = some (pos 300);
    min_conf = some (pos 250);
  };
  tracks = [];
  next_id = 1;
}

abbrev person_track : ℕ → (vx hits misses : ℕ) → Bool → Track (Option ℤ)
person_track x vx hits misses confirmed = record {
  id = 1;
  cls = "person";
  x = some (pos x);
  y = some (pos 300);
  w = some (pos 200);
  h = some (pos 400);
  vx = some (pos vx);
  vy = some (pos 0);
  hits = hits;
  misses = misses;
  confirmed = confirmed;
}

abbrev managed : ℕ → (vx hits misses : ℕ) → Bool → TrackManager (Option ℤ)
managed x vx hits misses confirmed = record start {
  tracks = person_track x vx hits misses confirmed ∷ [];
  next_id = 2;
}

-- The first frame publishes nothing, the second the person with its id, and an empty third one nothing.
first_frame :
    update (frame_at (person 100 ∷ [])) start ≡ some (frame_at [], managed 100 0 1 0 false)
unfolding update
first_frame = refl

abbrev published_person : Observation (Option ℤ)
published_person = record (person 110) { has_trk = true; trk = pos 1 }

second_frame :
    update (frame_at (person 110 ∷ [])) (managed 100 0 1 0 false)
    ≡ some (frame_at (published_person ∷ []), managed 110 5 2 0 true)
unfolding update
second_frame = refl

third_frame :
    update (frame_at []) (managed 110 5 2 0 true) ≡ some (frame_at [], managed 110 5 0 1 true)
unfolding update
third_frame = refl

abbrev calls : List (Call (Option ℤ))
calls =
    frame_call (frame_at (person 100 ∷ []))
    ∷ frame_call (frame_at (person 110 ∷ []))
    ∷ frame_call (frame_at [])
    ∷ []

whole_run : run calls start ≡ some (managed 110 5 0 1 true)
unfolding run
whole_run = refl

start-IsOrdered : IsOrdered start
unfolding Ascends
start-IsOrdered = omega arith

managed-IsOrdered : IsOrdered (managed 100 0 1 0 false)
unfolding Ascends
managed-IsOrdered = (omega arith, omega arith)

run-IsLater_example : IsLater start (managed 110 5 0 1 true)
run-IsLater_example = run-IsLater calls start (managed 110 5 0 1 true) start-IsOrdered whole_run

calls-IsFinite : All (IsFiniteCall Finite laws) calls
unfolding IsFiniteCall
calls-IsFinite = (
  (record { x = tt; y = tt; w = tt; h = tt }, tt),
  ((record { x = tt; y = tt; w = tt; h = tt }, tt), (tt, tt)),
)

run-ends_example :
    (t : TrackManager (Option ℤ)) × (run calls start ≡ some t)
    × All (IsFiniteTrack Finite laws) t.tracks
run-ends_example = run-ends Finite laws calls start calls-IsFinite tt

update-IsLive_example : All (IsLive start.config) (managed 110 5 2 0 true).tracks
update-IsLive_example =
    update-IsLive (frame_at (person 110 ∷ [])) (managed 100 0 1 0 false)
      (frame_at (published_person ∷ []), managed 110 5 2 0 true) second_frame

update-IsPublished_example :
    All
      (IsPublished start.config (frame_at (person 110 ∷ [])) (managed 110 5 2 0 true).tracks)
      (published_person ∷ [])
    × IsOnce (published_person ∷ [])
update-IsPublished_example =
    update-IsPublished (frame_at (person 110 ∷ [])) (managed 100 0 1 0 false)
      (frame_at (published_person ∷ []), managed 110 5 2 0 true) managed-IsOrdered second_frame
