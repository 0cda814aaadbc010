-- ===== src/Track/Classes.antt =====
-- The association of `TrackManager::update` of helpers/track_manager.hpp, class by class.
use droneengage_common.Common.{
  ℕ, zero, suc, ◌+◌, ◌*◌, ◌≤◌, ◌<◌, ◌≡◌, ◌⊎◌, inl, inr, refl, Bool, true, false, Option, none, some,
  List, String, str_eq, eq_iff, arith, length, nth, if◌then◌else◌, Bool-cases, subst, sym, ◌∙◌,
}
use droneengage_common.Common.Float.{FloatOps}
use droneengage_common.Obs.{Observation, no_observation}
use droneengage_common.Track.Columns.{IsSound}
use droneengage_common.Track.State.{TrackManagerConfig, Track, no_track}
use droneengage_common.Track.Associate.{
  Association, indices, has_class, pair_track, pair_det, cost_vector, big, assign_row, assign_rows,
}
use droneengage_common.Track.Indices.{indices-IsIndex, indices-injective}
use droneengage_common.Track.Matches.{IsAssociated, weaken-IsAssociated, match_pair-IsAssociated}

module _ {F : Type 0} ⦃o : FloatOps F⦄ (c : TrackManagerConfig F) (tracks : List (Track F))
    (dets : List (Observation F)) where
  -- The detection `d` and the track `t` exist and have one class, which is among `done`.
  pub record IsPair (done : List String) (d t : ℕ) : Type 0 where
    pub det_inside : d < length dets
    pub track_inside : t < length tracks
    pub same_class : (nth no_track tracks t).cls ≡ (nth no_observation dets d).cls
    pub is_done : has_class (nth no_observation dets d).cls done ≡ true

  module _ (cls : String) where
    abbrev pub di : List ℕ
    di = indices (λ d. str_eq d.cls cls) 0 dets

    abbrev pub ti : List ℕ
    ti = indices (λ t. str_eq t.cls cls) 0 tracks

    -- A member of the class, by its place in the index list.
    record IsDet (d : ℕ) : Type 0 where
      inside : d < length dets
      class : (nth no_observation dets d).cls ≡ cls

    record IsTrack (t : ℕ) : Type 0 where
      inside : t < length tracks
      class : (nth no_track tracks t).cls ≡ cls

    IsDet-of_index : (k : ℕ) → k < length di → IsDet (nth 0 di k)
    IsDet-of_index k h =
        let i = indices-IsIndex (λ d. str_eq d.cls cls) no_observation dets 0 k h in
        record {
          inside = omega (arith, i.read, i.inside);
          class =
              subst (λ d. (nth no_observation dets d).cls ≡ cls) {x = i.place}
                (omega (arith, i.read))
                (ground (arith, i.passes, eq_iff (nth no_observation dets i.place).cls cls));
        }

    IsTrack-of_index : (k : ℕ) → k < length ti → IsTrack (nth 0 ti k)
    IsTrack-of_index k h =
        let i = indices-IsIndex (λ t. str_eq t.cls cls) no_track tracks 0 k h in
        record {
          inside = omega (arith, i.read, i.inside);
          class =
              subst (λ t. (nth no_track tracks t).cls ≡ cls) {x = i.place} (omega (arith, i.read))
                (ground (arith, i.passes, eq_iff (nth no_track tracks i.place).cls cls));
        }

    -- A row and its column, as a detection and a track.
    abbrev pub rows_of : Bool → List ℕ
    rows_of r = if r then ti else di

    abbrev pub columns_of : Bool → List ℕ
    columns_of r = if r then di else ti

    det_same : (k l : ℕ) → k < length di → l < length di → nth 0 di k ≡ nth 0 di l → k ≡ l
    det_same = indices-injective (λ d. str_eq d.cls cls) no_observation dets 0

    track_same : (k l : ℕ) → k < length ti → l < length ti → nth 0 ti k ≡ nth 0 ti l → k ≡ l
    track_same = indices-injective (λ t. str_eq t.cls cls) no_track tracks 0

    module _ (m : ℕ) (assign : ℕ → Option ℕ) (sound : IsSound m assign) where
      -- The row `a` has the column `b`.
      pub record IsRow (r : Bool) (a b : ℕ) : Type 0 where
        pub row : a < length (rows_of r)
        pub column : b < length (columns_of r)
        pub assigned : assign a ≡ some b

      pair_det-IsDet : (r : Bool) (a b : ℕ) → IsRow r a b → IsDet (pair_det r di ti a b)
      unfolding pair_det
      pair_det-IsDet true a b h = IsDet-of_index b h.column
      pair_det-IsDet false a b h = IsDet-of_index a h.row

      pair_track-IsTrack : (r : Bool) (a b : ℕ) → IsRow r a b → IsTrack (pair_track r di ti a b)
      unfolding pair_track
      pair_track-IsTrack true a b h = IsTrack-of_index a h.row
      pair_track-IsTrack false a b h = IsTrack-of_index b h.column

      same_column : (r : Bool) (a b k l : ℕ) → IsRow r a b → IsRow r k l → b ≡ l → a ≡ k
      same_column r a b k l h g e =
          sound.once a k b h.assigned (subst (λ x. assign k ≡ some x) (sym e) g.assigned)

      same_det :
          (r : Bool) (a b k l : ℕ)
          → IsRow r a b
          → IsRow r k l
          → pair_det r di ti a b ≡ pair_det r di ti k l
          → a ≡ k
      unfolding pair_det
      same_det true a b k l h g e = same_column true a b k l h g (det_same b l h.column g.column e)
      same_det false a b k l h g e = det_same a k h.row g.row e

      same_track :
          (r : Bool) (a b k l : ℕ)
          → IsRow r a b
          → IsRow r k l
          → pair_track r di ti a b ≡ pair_track r di ti k l
          → a ≡ k
      unfolding pair_track
      same_track true a b k l h g e = track_same a k h.row g.row e
      same_track false a b k l h g e =
          same_column false a b k l h g (track_same b l h.column g.column e)

      module _ (r : Bool) (done : List String) (new : has_class cls done ≡ false) where
        -- What the rows below `a` have matched.
        pub record IsNew (a d t : ℕ) : Type 0 where
          pub k : ℕ
          pub l : ℕ
          pub below : k < a
          pub at_row : IsRow r k l
          pub is_det : d ≡ pair_det r di ti k l
          pub is_track : t ≡ pair_track r di ti k l

        abbrev pub Matched : ℕ → (d t : ℕ) → Type 0
        Matched a d t = IsPair done d t ⊎ IsNew a d t

        later : (a d t : ℕ) → Matched a d t → Matched (suc a) d t
        later a d t (inl h) = inl h
        later a d t (inr h) = inr (record {
          k = h.k;
          l = h.l;
          below = omega (arith, h.below);
          at_row = h.at_row;
          is_det = h.is_det;
          is_track = h.is_track;
        })

        module _ (a b : ℕ) (row : IsRow r a b) where
          not_done : (d t : ℕ) → (nth no_observation dets d).cls ≡ cls → IsPair done d t → ⊥
          not_done d t e h = absurd (cc (subst (λ x. has_class x done ≡ true) e h.is_done, new))

          fresh_det : (t : ℕ) → Matched a (pair_det r di ti a b) t → ⊥
          fresh_det t (inl h) = not_done (pair_det r di ti a b) t (pair_det-IsDet r a b row).class h
          fresh_det t (inr h) = omega (arith, h.below, same_det r a b h.k h.l row h.at_row h.is_det)

          fresh_track : (d : ℕ) → Matched a d (pair_track r di ti a b) → ⊥
          fresh_track d (inl h) =
              not_done d (pair_track r di ti a b)
                (sym h.same_class ∙ (pair_track-IsTrack r a b row).class) h
          fresh_track d (inr h) =
              omega (arith, h.below, same_track r a b h.k h.l row h.at_row h.is_track)

          is_new : IsNew (suc a) (pair_det r di ti a b) (pair_track r di ti a b)
          is_new = record {
            k = a;
            l = b;
            below = omega arith;
            at_row = row;
            is_det = refl;
            is_track = refl;
          }

        module _ (n : ℕ) (n_rows : n ≤ length (rows_of r))
            (m_columns : m ≤ length (columns_of r)) where
          assign_row-IsAssociated :
              (a : ℕ) (s : Association)
              → a < n
              → IsAssociated (Matched a) s
              → IsAssociated (Matched (suc a)) (assign_row c tracks dets r di ti m assign a s)
          unfolding assign_row
          assign_row-IsAssociated a s low inv = go (assign a) refl
            where
              go :
                  (w : Option ℕ)
                  → assign a ≡ w
                  → IsAssociated (Matched (suc a)) (assign_row c tracks dets r di ti m assign a s)
              go none e =
                  rw (e, assign_row)
                    (weaken-IsAssociated (Matched a) (Matched (suc a)) s inv (later a))
              go (some b) e =
                  elim (Bool-cases (o.le big (cost_vector c tracks dets r di ti m (a * m + b)))) [
                    | inl g ↦
                        rw (e, g, assign_row)
                          (weaken-IsAssociated (Matched a) (Matched (suc a)) s inv (later a))
                    | inr g ↦
                        rw (e, g, assign_row)
                          (match_pair-IsAssociated (Matched a) (Matched (suc a)) s inv (later a)
                            (pair_det r di ti a b) (pair_track r di ti a b) (fresh_det a b row)
                            (fresh_track a b row) (inr (is_new a b row)))
                  ]
                where
                  row : IsRow r a b
                  row = record {
                    row = omega (arith, low, n_rows);
                    column = omega (arith, sound.below a b e, m_columns);
                    assigned = e;
                  }

          pub assign_rows-IsAssociated :
              (rounds a : ℕ) (s : Association)
              → rounds + a ≤ n
              → IsAssociated (Matched a) s
              → IsAssociated
                  (Matched (rounds + a))
                  (assign_rows c tracks dets r di ti m assign rounds a s)
          unfolding assign_rows
          assign_rows-IsAssociated zero a s room inv =
              subst (λ k. IsAssociated (Matched k) s) (omega arith) inv
          assign_rows-IsAssociated (suc rounds) a s room inv =
              let t = assign_row c tracks dets r di ti m assign a s in
              subst
                (λ k.
                  IsAssociated (Matched k)
                    (assign_rows c tracks dets r di ti m assign rounds (suc a) t))
                (omega arith)
                (assign_rows-IsAssociated rounds (suc a) t (omega arith)
                  (assign_row-IsAssociated a s (omega arith) inv))

        -- A pair of this class is a pair of the classes that are done once this one is.
        pub matched-IsPair :
            (after : List String)
            → ((x : String) → has_class x done ≡ true → has_class x after ≡ true)
            → has_class cls after ≡ true
            → (a d t : ℕ) → Matched a d t
            → IsPair after d t
        matched-IsPair after more e a d t (inl h) = record {
          det_inside = h.det_inside;
          track_inside = h.track_inside;
          same_class = h.same_class;
          is_done = more (nth no_observation dets d).cls h.is_done;
        }
        matched-IsPair after more e a d t (inr h) = record {
          det_inside = rw h.is_det x.inside;
          track_inside = rw h.is_track y.inside;
          same_class = rw (h.is_det, h.is_track) (y.class ∙ sym x.class);
          is_done = rw (h.is_det, x.class) e;
        }
          where
            x : IsDet (pair_det r di ti h.k h.l)
            x = pair_det-IsDet r h.k h.l h.at_row

            y : IsTrack (pair_track r di ti h.k h.l)
            y = pair_track-IsTrack r h.k h.l h.at_row
