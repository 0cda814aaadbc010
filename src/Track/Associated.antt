-- ===== src/Track/Associated.antt =====
-- The whole association of `TrackManager::update` of helpers/track_manager.hpp.
use droneengage_common.Common.{
  ℕ, ◌+◌, ◌≤◌, ◌≡◌, inl, inr, refl, Bool, true, false, Option, none, some, List, [], ◌∷◌, ◌++◌,
  ◌||◌, String, eq_iff, arith, length, leb, ◌==◌, nth, if◌then◌else◌, Bool-cases, subst, sym, ◌∙◌,
  on_some-inverse, append-nil, append_assoc,
}
use droneengage_common.Common.Float.{FloatOps}
use droneengage_common.Obs.{Observation, no_observation}
use droneengage_common.Track.Assign.{hungarian}
use droneengage_common.Track.Columns.{IsSound, hungarian-IsSound}
use droneengage_common.Track.State.{TrackManagerConfig, Track}
use droneengage_common.Track.Associate.{
  Association, has_class, cost_vector, assign_rows, associate_indices, associate_class,
  associate_classes, class_list, associate,
}
use droneengage_common.Track.Matches.{IsAssociated, weaken-IsAssociated}
use droneengage_common.Track.Classes.{
  IsPair, di, ti, rows_of, columns_of, Matched, assign_rows-IsAssociated, matched-IsPair,
}

has_class-append :
    (x : String) (xs ys : List String) → has_class x (xs ++ ys) ≡ (has_class x xs || has_class x ys)
unfolding has_class
has_class-append x [] ys = refl
has_class-append x (y ∷ xs) ys = ground (arith, has_class-append x xs ys)

has_class-last : (x : String) (xs : List String) → has_class x (xs ++ x ∷ []) ≡ true
unfolding has_class
has_class-last x xs = ground (arith, has_class-append x xs (x ∷ []), eq_iff x x)

-- No class of the list is among `done` or comes twice.
IsFresh : List String → List String → Type 0
IsFresh done [] = Unit
IsFresh done (x ∷ xs) = (has_class x done ≡ false) × IsFresh (done ++ x ∷ []) xs

IsFresh-last :
    (done xs : List String) (x : String)
    → IsFresh done xs
    → has_class x (done ++ xs) ≡ false
    → IsFresh done (xs ++ x ∷ [])
unfolding IsFresh
IsFresh-last done [] x f h = (subst (λ l. has_class x l ≡ false) (append-nil done) h, tt)
IsFresh-last done (y ∷ xs) x (g, f) h = (
  g,
  IsFresh-last (done ++ y ∷ []) xs x f
      (subst (λ l. has_class x l ≡ false) (sym (append_assoc done (y ∷ []) xs)) h),
)

module _ {F : Type 0} ⦃o : FloatOps F⦄ (c : TrackManagerConfig F) where
  class_list-IsFresh :
      (dets : List (Observation F)) (classes : List String)
      → IsFresh [] classes
      → IsFresh [] (class_list dets classes)
  unfolding class_list
  class_list-IsFresh [] classes f = f
  class_list-IsFresh (d ∷ dets) classes f = elim (Bool-cases (has_class d.cls classes)) [
    | inl e ↦ rw e (class_list-IsFresh dets classes f)
    | inr e ↦
        rw e (class_list-IsFresh dets (classes ++ d.cls ∷ []) (IsFresh-last [] classes d.cls f e))
  ]

  module _ (tracks : List (Track F)) (dets : List (Observation F)) where
    module _ (cls : String) (done : List String) (new : has_class cls done ≡ false)
        (s : Association) (inv : IsAssociated (IsPair c tracks dets done) s) where
      more : (x : String) → has_class x done ≡ true → has_class x (done ++ cls ∷ []) ≡ true
      more x h = ground (arith, has_class-append x done (cls ∷ []), h)

      assigned :
          (r : Bool) (m n : ℕ) (assign : ℕ → Option ℕ)
          → IsSound m assign
          → n ≤ length (rows_of c tracks dets cls r)
          → m ≤ length (columns_of c tracks dets cls r)
          → IsAssociated (IsPair c tracks dets (done ++ cls ∷ [])) (
              assign_rows c tracks dets r
                (di c tracks dets cls)
                (ti c tracks dets cls)
                m
                assign
                n
                0
                s)
      assigned r m n assign sound hn hm =
          weaken-IsAssociated (Matched c tracks dets cls m assign sound r done new (n + 0))
            (IsPair c tracks dets (done ++ cls ∷ []))
            (assign_rows c tracks dets r (di c tracks dets cls) (ti c tracks dets cls) m assign n 0
              s)
            (assign_rows-IsAssociated c tracks dets cls m assign sound r done new n hn hm n 0 s
              (omega arith)
              (weaken-IsAssociated (IsPair c tracks dets done)
                (Matched c tracks dets cls m assign sound r done new 0) s inv (λ d t h. inl h)))
            (matched-IsPair c tracks dets cls m assign sound r done new (done ++ cls ∷ []) more
              (has_class-last cls done) (n + 0))

      size :
          (r : Bool) (xs ys : List ℕ)
          → (if r then length xs else length ys) ≤ length (if r then xs else ys)
      size true xs ys = omega arith
      size false xs ys = omega arith

      abbrev rows_are_tracks : Bool
      rows_are_tracks = leb (length (ti c tracks dets cls)) (length (di c tracks dets cls))

      abbrev row_count : ℕ
      row_count =
          if rows_are_tracks then length (ti c tracks dets cls) else length (di c tracks dets cls)

      abbrev column_count : ℕ
      column_count =
          if rows_are_tracks then length (di c tracks dets cls) else length (ti c tracks dets cls)

      abbrev costs : ℕ → F
      costs =
          cost_vector c tracks dets rows_are_tracks (di c tracks dets cls) (ti c tracks dets cls)
            column_count

      abbrev finished : Option (ℕ → Option ℕ) → Option Association
      finished w = elim w [
        | none ↦ none
        | some assign ↦ some (
            assign_rows c tracks dets rows_are_tracks (di c tracks dets cls) (ti c tracks dets cls)
              column_count assign row_count 0 s)
      ]

      finished-IsAssociated :
          (w : Option (ℕ → Option ℕ)) (t : Association)
          → hungarian costs column_count row_count ≡ w
          → finished w ≡ some t
          → IsAssociated (IsPair c tracks dets (done ++ cls ∷ [])) t
      finished-IsAssociated none t e h = absurd (ground arith)
      finished-IsAssociated (some assign) t e h =
          subst (IsAssociated (IsPair c tracks dets (done ++ cls ∷ []))) (ground arith) (
            assigned rows_are_tracks column_count row_count assign
              (hungarian-IsSound costs column_count row_count assign e)
              (size rows_are_tracks (ti c tracks dets cls) (di c tracks dets cls))
              (size rows_are_tracks (di c tracks dets cls) (ti c tracks dets cls)))

      abbrev skips : Bool
      skips = length (di c tracks dets cls) == 0 || length (ti c tracks dets cls) == 0

      skipped : skips ≡ true → associate_class c tracks dets cls s ≡ some s
      unfolding associate_class
      skipped e = rw (e, associate_class) refl

      not_skipped :
          skips ≡ false
          → associate_class c tracks dets cls s ≡ finished (hungarian costs column_count row_count)
      unfolding associate_class associate_indices
      not_skipped e = rw (e, associate_class) refl

      done_more : IsAssociated (IsPair c tracks dets (done ++ cls ∷ [])) s
      done_more =
          weaken-IsAssociated (IsPair c tracks dets done) (IsPair c tracks dets (done ++ cls ∷ []))
            s inv
            (λ d t h. record {
              det_inside = h.det_inside;
              track_inside = h.track_inside;
              same_class = h.same_class;
              is_done = more (nth no_observation dets d).cls h.is_done;
            })

      associate_class-IsAssociated :
          (t : Association)
          → associate_class c tracks dets cls s ≡ some t
          → IsAssociated (IsPair c tracks dets (done ++ cls ∷ [])) t
      associate_class-IsAssociated t h = elim (Bool-cases skips) [
        | inl e ↦
            subst (IsAssociated (IsPair c tracks dets (done ++ cls ∷ [])))
              (ground (arith, h, skipped e)) done_more
        | inr e ↦
            finished-IsAssociated (hungarian costs column_count row_count) t refl
              (sym (not_skipped e) ∙ h)
      ]

    associate_classes-IsAssociated :
        (classes done : List String) (s t : Association)
        → IsFresh done classes
        → IsAssociated (IsPair c tracks dets done) s
        → associate_classes c tracks dets classes s ≡ some t
        → IsAssociated (IsPair c tracks dets (done ++ classes)) t
    unfolding IsFresh associate_classes
    associate_classes-IsAssociated [] done s t f inv h =
        subst (IsAssociated (IsPair c tracks dets (done ++ []))) (ground (arith, h))
          (subst (λ l. IsAssociated (IsPair c tracks dets l) s) (sym (append-nil done)) inv)
    associate_classes-IsAssociated (cls ∷ classes) done s t (new, f) inv h =
        let (x, e, g) =
          on_some-inverse (associate_class c tracks dets cls s)
            (associate_classes c tracks dets classes) t h in
        subst (λ l. IsAssociated (IsPair c tracks dets l) t) (append_assoc done (cls ∷ []) classes)
          (associate_classes-IsAssociated classes (done ++ cls ∷ []) x t f
            (associate_class-IsAssociated cls done new s inv x e) g)

    -- The association of a frame, if it ends, gives a track to no two detections; a detection and its
    -- track have one class; and the matched tracks are those that a detection has.
    pub associate-IsAssociated :
        (s : Association)
        → associate c tracks dets ≡ some s
        → IsAssociated (IsPair c tracks dets (class_list dets [])) s
    unfolding associate IsFresh
    associate-IsAssociated s h =
        associate_classes-IsAssociated (class_list dets []) []
          (record { det_track = λ d. none; track_matched = λ t. false }) s
          (class_list-IsFresh dets [] tt)
          (record {
            valid = λ d t e. absurd (ground arith);
            once = λ d e t i j. absurd (ground arith);
            marked = λ d t e. absurd (ground arith);
            has = λ t e. absurd (ground arith);
          })
          h
