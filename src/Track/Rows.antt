-- ===== src/Track/Rows.antt =====
-- The loop of `hungarian` of helpers/track_manager.hpp over the rows: it ends, and every row has a
-- column of its own.
use droneengage_common.Common.{
  ℕ, zero, suc, ◌+◌, ◌≤◌, ◌<◌, ◌≡◌, inl, inr, refl, true, false, Option, none, some, arith, ◌==◌,
  Bool-cases, subst,
}
use droneengage_common.Common.Int.{pos}
use droneengage_common.Common.Float.{FloatOps}
use droneengage_common.Track.Assign.{
  update_at, Search, Matching, search, add_row, add_rows, read_columns, hungarian,
}
use droneengage_common.Track.Columns.{IsRead, start_rows, IsRead-all}
use droneengage_common.Track.Scan.{FloatLaws}
use droneengage_common.Track.Augment.{
  free, free_root, free_fresh, free_write, free_column, IsHeld, IsAugmented, Augments,
  augment-IsAugmented,
}
use droneengage_common.Track.Search.{unused_fresh, IsGrowing, IsEnded, search-IsEnded}

-- Every row below `n` has a column below `m`, and no two rows have the same one.
abbrev pub IsAssignment : (n m : ℕ) → (ℕ → Option ℕ) → Type 0
IsAssignment n m f =
    ((i : ℕ) → i < n → (c : ℕ) × (f i ≡ some c) × (c < m))
    × ((i j c : ℕ) → f i ≡ some c → f j ≡ some c → i ≡ j)

module _ {F : Type 0} ⦃o : FloatOps F⦄ (IsFinite : F → Type 0) (laws : FloatLaws o IsFinite)
    (cost : ℕ → F) (m : ℕ) (costs : (k : ℕ) → IsFinite (cost k)) where
  -- The rows up to `rows` have columns, and `spare` columns at least are free.
  record IsMatched (rows spare : ℕ) (s : Matching F) : Type 0 where
    us : (k : ℕ) → IsFinite (s.u k)
    vs : (k : ℕ) → IsFinite (s.v k)
    held : (r : ℕ) → 1 ≤ r → r ≤ rows → IsHeld m s.p 0 r
    room : spare ≤ free s.p m

  module _ (rows spare : ℕ) (s : Matching F) (inv : IsMatched rows (suc spare) s) where
    abbrev rooted : ℕ → ℕ
    rooted = update_at s.p 0 (suc rows)

    abbrev start : Search F
    start = record {
      duals = record { u = s.u; v = s.v; minv = λ j. o.infinity };
      used = λ j. false;
      way = s.way;
      j0 = 0;
    }

    start-IsGrowing : IsGrowing IsFinite laws m rooted start (λ j. 0)
    start-IsGrowing = record {
      us = inv.us;
      vs = inv.vs;
      fresh = refl;
      range = omega arith;
      inside = λ k e. ground (arith, e);
      matched = λ k e. ground (arith, e);
      linked = λ k e. ground (arith, e);
      here = inl refl;
      deeper = λ k e. ground (arith, e);
      reached = λ k e. inl refl;
      rooted = inr refl;
    }

    free_one : (f : ℕ) × (1 ≤ f) × (f ≤ m) × ((rooted f == 0) ≡ true)
    free_one = free_column rooted m (omega (arith, inv.room, free_root s.p (suc rows) m))

    searched :
        (t : Search F) × (search cost m (suc m) rooted start ≡ some t)
        × IsEnded IsFinite laws m rooted t
    searched =
        search-IsEnded IsFinite laws cost m costs rooted free_one.0 free_one.1 free_one.2 free_one.3
          (suc m) start (λ j. 0) start-IsGrowing (ground arith) (omega (arith, unused_fresh m))
          (omega arith)

    module _ (t : Search F) (e : IsEnded IsFinite laws m rooted t) where
      IsHeld-rooted : (r : ℕ) → 1 ≤ r → r ≤ suc rows → IsHeld m rooted t.j0 r
      IsHeld-rooted r lo hi = elim (Bool-cases (r == suc rows)) [
        | inl h ↦ (0, omega arith, ground (arith, e.positive_column), ground (arith, h))
        | inr h ↦ kept (inv.held r lo (ground (arith, h)))
      ]
        where
          kept : IsHeld m s.p 0 r → IsHeld m rooted t.j0 r
          kept (k, room, n, h) = (k, room, ground (arith, n, h, e.ended, lo), ground (arith, n, h))

      augmented : Augments m (suc rows) t.way (suc (suc m)) rooted t.j0
      augmented = elim e.grown.here [
        | inl z ↦ absurd (omega (arith, z, e.positive_column))
        | inr (u, l) ↦
            augment-IsAugmented m (suc rows) t.used t.way e.depth e.grown.inside e.grown.linked
              (suc (suc m)) rooted t.j0 e.grown.range u l (omega (arith, l, e.shallow))
              e.grown.matched IsHeld-rooted
      ]

      after_row :
          (p : ℕ → ℕ)
          → IsAugmented m (suc rows) (update_at rooted t.j0 (rooted (t.way t.j0))) p
          → IsMatched (suc rows) spare (record { u = t.duals.u; v = t.duals.v; p = p; way = t.way })
      after_row p a = record {
        us = e.grown.us;
        vs = e.grown.vs;
        held = a.held;
        room = omega (
          arith,
          a.count,
          inv.room,
          free_root s.p (suc rows) m,
          free_write rooted t.j0 (rooted (t.way t.j0)) m,
        );
      }

    add_row-IsMatched :
        (t : Matching F) × (add_row cost m (suc rows) s ≡ some t) × IsMatched (suc rows) spare t
    unfolding add_row
    add_row-IsMatched =
        let (t, g, e) = searched in
        let (p, h, a) = augmented t e in
        (
          record { u = t.duals.u; v = t.duals.v; p = p; way = t.way },
          rw (g, h, add_row) refl,
          after_row t e p a,
        )

  add_rows-IsMatched :
      (rounds rows spare : ℕ) (s : Matching F)
      → IsMatched rows (rounds + spare) s
      → (t : Matching F) × (add_rows cost m rounds (suc rows) s ≡ some t)
        × IsMatched (rounds + rows) spare t
  unfolding add_rows
  add_rows-IsMatched zero rows spare s inv = (
    s,
    refl,
    subst (λ n. IsMatched n spare s) (omega arith)
        (subst (λ n. IsMatched rows n s) (omega arith) inv),
  )
  add_rows-IsMatched (suc rounds) rows spare s inv =
      let (t, g, a) =
        add_row-IsMatched rows (rounds + spare) s
          (subst (λ n. IsMatched rows n s) (omega arith) inv) in
      let (x, h, b) = add_rows-IsMatched rounds (suc rows) spare t a in
      (x, rw (g, h, add_rows) refl, subst (λ n. IsMatched n spare x) (omega arith) b)

  read-IsAssignment :
      (n spare : ℕ) (s : Matching F)
      → IsMatched n spare s
      → IsAssignment n m (read_columns m 1 s.p (λ i. none))
  read-IsAssignment n spare s inv = (has, same)
    where
      read : IsRead m s.p (m + 1) (read_columns m 1 s.p (λ i. none))
      read = IsRead-all m s.p

      has : (i : ℕ) → i < n → (c : ℕ) × (read_columns m 1 s.p (λ i. none) i ≡ some c) × (c < m)
      has i h =
          let (k, hi, e, g) = inv.held (suc i) (omega arith) (omega arith) in
          let (c, f) = read.all k i (ground (arith, e)) (omega arith) g in
          (c, f, (read.named i c f).0)

      same :
          (i j c : ℕ)
          → read_columns m 1 s.p (λ i. none) i ≡ some c
          → read_columns m 1 s.p (λ i. none) j ≡ some c
          → i ≡ j
      same i j c f g = omega (arith, (read.named i c f).1, (read.named j c g).1)

  -- For a cost matrix of finite numbers and no more rows than columns, and for numbers whose arithmetic does not
  -- overflow, so that finite numbers give finite ones, `hungarian` ends, every row has a column below `m`, and no two
  -- rows have the same column.
  pub hungarian-IsAssignment :
      (n : ℕ) → n ≤ m → (f : ℕ → Option ℕ) × (hungarian cost m n ≡ some f) × IsAssignment n m f
  unfolding hungarian
  hungarian-IsAssignment n room =
      let (s, e, a) = add_rows-IsMatched n 0 0 start_rows (record {
        us = λ k. laws.int_finite (pos 0);
        vs = λ k. laws.int_finite (pos 0);
        held = λ r lo hi. absurd (omega arith);
        room = omega (arith, free_fresh m);
      }) in
      (
        read_columns m 1 s.p (λ i. none),
        rw (e, hungarian) refl,
        read-IsAssignment n 0 s (subst (λ r. IsMatched r 0 s) (omega arith) a),
      )
