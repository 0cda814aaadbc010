-- ===== src/Track/Associate.antt =====
-- The association of `TrackManager::update` of helpers/track_manager.hpp, one class after the other. An
-- index that the loops form is in its range; out of it `nth` gives the default object.
use droneengage_common.Common.{
  ℕ, zero, suc, ◌+◌, ◌*◌, ◌/◌, ◌%◌, Bool, true, false, ◌||◌, Option, none, some, List, [], ◌∷◌,
  ◌++◌, String, str_eq, length, ◌==◌, leb, if◌then◌else◌, nth,
}
use droneengage_common.Common.Int.{pos}
use droneengage_common.Common.Float.{FloatOps}
use droneengage_common.Obs.{Observation, float_one, no_observation}
use droneengage_common.Track.Assign.{update_at, hungarian}
use droneengage_common.Track.State.{TrackManagerConfig, Track, no_track, predicted, iou}

-- `det_track` and `track_matched`; `none` is -1.
pub record Association : Type 0 where
  pub det_track : ℕ → Option ℕ
  pub track_matched : ℕ → Bool

-- The indices, from `i`, of the members that pass the test.
unfoldable pub indices {ℓ} : {A : Type ℓ} → (A → Bool) → ℕ → List A → List ℕ
indices p i [] = []
indices p i (x ∷ xs) = let rest = indices p (suc i) xs in if p x then i ∷ rest else rest

-- `std::find (classes.begin (), classes.end (), cls) != classes.end ()`
unfoldable pub has_class : String → List String → Bool
has_class cls [] = false
has_class cls (c ∷ cs) = str_eq c cls || has_class cls cs

-- The row `a` and the column `b` as a track and a detection.
unfoldable pub pair_track : (rows_are_tracks : Bool) (di ti : List ℕ) (a b : ℕ) → ℕ
pair_track rows_are_tracks di ti a b = if rows_are_tracks then nth 0 ti a else nth 0 ti b

unfoldable pub pair_det : (rows_are_tracks : Bool) (di ti : List ℕ) (a b : ℕ) → ℕ
pair_det rows_are_tracks di ti a b = if rows_are_tracks then nth 0 di b else nth 0 di a

module _ {F : Type 0} ⦃o : FloatOps F⦄ where
  -- The detections that the update keeps.
  unfoldable pub detections : TrackManagerConfig F → List (Observation F) → List (Observation F)
  detections c [] = []
  detections c (d ∷ ds) =
      let rest = detections c ds in if o.le c.min_conf d.conf then d ∷ rest else rest

  unfoldable pub class_list : List (Observation F) → List String → List String
  unfolding has_class
  class_list [] classes = classes
  class_list (d ∷ ds) classes =
      class_list ds (if has_class d.cls classes then classes else classes ++ d.cls ∷ [])

  -- The cost of a pair that is not allowed.
  abbrev pub big : F
  big = o.of_int (pos 1000000)

  module _ (c : TrackManagerConfig F) (tracks : List (Track F)) (dets : List (Observation F)) where
    -- The cost of giving the detection `d` to the track `t`.
    unfoldable pub pair_cost : (t d : ℕ) → F
    unfolding predicted iou
    pair_cost t d =
        let det = nth no_observation dets d in
        let v =
          iou (predicted (nth no_track tracks t))
            (record { x = det.x; y = det.y; w = det.w; h = det.h }) in
        if o.le c.iou_min v then o.sub float_one v else big

    unfoldable pub cost_entry : (rows_are_tracks : Bool) (di ti : List ℕ) (a b : ℕ) → F
    unfolding pair_cost pair_track pair_det
    cost_entry rows_are_tracks di ti a b =
        pair_cost (pair_track rows_are_tracks di ti a b) (pair_det rows_are_tracks di ti a b)

    -- `cost`, row by row.
    unfoldable pub cost_vector : (rows_are_tracks : Bool) (di ti : List ℕ) (m : ℕ) → ℕ → F
    unfolding cost_entry
    cost_vector rows_are_tracks di ti m k = cost_entry rows_are_tracks di ti (k / m) (k % m)

    unfoldable pub assign_row :
        (rows_are_tracks : Bool) (di ti : List ℕ) (m : ℕ)
        → (ℕ → Option ℕ)
        → ℕ
        → Association
        → Association
    unfolding cost_vector pair_track pair_det
    assign_row rows_are_tracks di ti m assign a s = elim (assign a) [
      | none ↦ s
      | some b ↦ if o.le big (cost_vector rows_are_tracks di ti m (a * m + b)) then s else record {
        det_track =
            update_at s.det_track (pair_det rows_are_tracks di ti a b)
              (some (pair_track rows_are_tracks di ti a b));
        track_matched = update_at s.track_matched (pair_track rows_are_tracks di ti a b) true;
      }
    ]

    unfoldable pub assign_rows :
        (rows_are_tracks : Bool) (di ti : List ℕ) (m : ℕ)
        → (ℕ → Option ℕ)
        → (rounds a : ℕ) → Association
        → Association
    unfolding assign_row
    assign_rows rows_are_tracks di ti m assign zero a s = s
    assign_rows rows_are_tracks di ti m assign (suc rounds) a s =
        assign_rows rows_are_tracks di ti m assign rounds (suc a)
          (assign_row rows_are_tracks di ti m assign a s)

    -- The assignment between the detections `di` and the tracks `ti` of a class.
    unfoldable pub associate_indices : (di ti : List ℕ) → Association → Option Association
    unfolding hungarian cost_vector assign_rows
    associate_indices di ti s =
        let rows_are_tracks = leb (length ti) (length di) in
        let n = if rows_are_tracks then length ti else length di in
        let m = if rows_are_tracks then length di else length ti in
        elim (hungarian (cost_vector rows_are_tracks di ti m) m n) [
          | none ↦ none
          | some assign ↦ some (assign_rows rows_are_tracks di ti m assign n 0 s)
        ]

    unfoldable pub associate_class : String → Association → Option Association
    unfolding indices associate_indices
    associate_class cls s =
        let di = indices (λ d. str_eq d.cls cls) 0 dets in
        let ti = indices (λ t. str_eq t.cls cls) 0 tracks in
        if length di == 0 || length ti == 0 then some s else associate_indices di ti s

    unfoldable pub associate_classes : List String → Association → Option Association
    unfolding associate_class
    associate_classes [] s = some s
    associate_classes (cls ∷ classes) s = elim (associate_class cls s) [
      | none ↦ none
      | some t ↦ associate_classes classes t
    ]

    -- The association of the frame.
    unfoldable pub associate : Option Association
    unfolding associate_classes class_list
    associate =
        associate_classes (class_list dets [])
          (record { det_track = λ d. none; track_matched = λ t. false })
