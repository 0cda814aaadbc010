-- ===== src/Track/Columns.antt =====
-- The last loop of `hungarian` of helpers/track_manager.hpp: the columns of the rows.
use droneengage_common.Common.{
  ℕ, zero, suc, ◌+◌, ◌-◌, ◌≤◌, ◌<◌, ◌≡◌, ◌⊎◌, inl, inr, refl, Option, none, some, arith, ◌==◌,
  if◌then◌else◌, Bool-cases, subst,
}
use droneengage_common.Common.Int.{pos}
use droneengage_common.Common.Float.{FloatOps}
use droneengage_common.Track.Assign.{update_at, Matching, add_rows, read_columns, hungarian}

-- The vector names columns of the rows, and the row of every column from 1 to `j` has one.
pub record IsRead (m : ℕ) (p : ℕ → ℕ) (j : ℕ) (row_to_col : ℕ → Option ℕ) : Type 0 where
  pub named : (i c : ℕ) → row_to_col i ≡ some c → (c < m) × (p (suc c) ≡ suc i)
  pub all : (k i : ℕ) → 1 ≤ k → k < j → p k ≡ suc i → (c : ℕ) × (row_to_col i ≡ some c)

update-named :
    (f : ℕ → Option ℕ) (a b i c : ℕ)
    → update_at f a (some b) i ≡ some c
    → ((i ≡ a) × (b ≡ c)) ⊎ (f i ≡ some c)
update-named f a b i c h = elim (Bool-cases (i == a)) [
  | inl e ↦ inl (ground (arith, e), ground (arith, e, h))
  | inr e ↦ inr (ground (arith, e, h))
]

module _ (m : ℕ) (p : ℕ → ℕ) where
  IsRead-step :
      (j : ℕ) (f : ℕ → Option ℕ)
      → 1 ≤ j
      → j ≤ m
      → IsRead m p j f
      → IsRead m p (suc j) (if p j == 0 then f else update_at f (p j - 1) (some (j - 1)))
  IsRead-step j f low high r = elim (Bool-cases (p j == 0)) [
    | inl e ↦
        rw e
          (record { named = r.named; all = λ k i lo hi h. r.all k i lo (ground (arith, e, h)) h })
    | inr e ↦ rw e (record {
      named = λ i c h. elim (update-named f (p j - 1) (j - 1) i c h) [
        | inl (g, h') ↦
            (omega arith, subst (λ n. p n ≡ suc i) {x = j} (omega arith) (ground (arith, e, g)))
        | inr g ↦ r.named i c g
      ];
      all = λ k i lo hi h. elim (Bool-cases (i == p j - 1)) [
        | inl g ↦ (j - 1, rw g refl)
        | inr g ↦ rw g (r.all k i lo (ground (arith, e, g, h)) h)
      ];
    })
  ]

  pub read_columns-IsRead :
      (rounds j : ℕ) (f : ℕ → Option ℕ)
      → 1 ≤ j
      → rounds + j ≤ suc m
      → IsRead m p j f
      → IsRead m p (rounds + j) (read_columns rounds j p f)
  unfolding read_columns
  read_columns-IsRead zero j f low room r = subst (λ n. IsRead m p n f) (omega arith) r
  read_columns-IsRead (suc rounds) j f low room r =
      let g = if p j == 0 then f else update_at f (p j - 1) (some (j - 1)) in
      subst (λ n. IsRead m p n (read_columns rounds (suc j) p g)) (omega arith)
        (read_columns-IsRead rounds (suc j) g (omega arith) (omega arith)
          (IsRead-step j f low (omega arith) r))

  pub IsRead-all : IsRead m p (m + 1) (read_columns m 1 p (λ i. none))
  IsRead-all =
      read_columns-IsRead m 1 (λ i. none) (omega arith) (omega arith)
        (record { named = λ i c h. ground (arith, h); all = λ k i lo hi h. absurd (omega arith) })

-- What `hungarian` gives back, if it ends: columns below `m`, and none of them twice.
pub record IsSound (m : ℕ) (f : ℕ → Option ℕ) : Type 0 where
  pub below : (i c : ℕ) → f i ≡ some c → c < m
  pub once : (i j c : ℕ) → f i ≡ some c → f j ≡ some c → i ≡ j

pub read-IsSound : (m : ℕ) (p : ℕ → ℕ) → IsSound m (read_columns m 1 p (λ i. none))
read-IsSound m p = record {
  below = λ i c f. ((IsRead-all m p).named i c f).0;
  once = λ i j c f g.
      omega (arith, ((IsRead-all m p).named i c f).1, ((IsRead-all m p).named j c g).1);
}

module _ {F : Type 0} ⦃o : FloatOps F⦄ where
  -- The state of `hungarian` before the first row.
  abbrev pub start_rows : Matching F
  start_rows = record {
    u = λ j. o.of_int (pos 0);
    v = λ j. o.of_int (pos 0);
    p = λ j. 0;
    way = λ j. 0;
  }

  finish : ℕ → Option (Matching F) → Option (ℕ → Option ℕ)
  finish m none = none
  finish m (some s) = some (read_columns m 1 s.p (λ i. none))

  finish-IsSound :
      (m : ℕ) (f : ℕ → Option ℕ) (r : Option (Matching F)) → finish m r ≡ some f → IsSound m f
  unfolding finish
  finish-IsSound m f none h = absurd (ground arith)
  finish-IsSound m f (some s) h = subst (IsSound m) (ground arith) (read-IsSound m s.p)

  pub hungarian-IsSound :
      (cost : ℕ → F) (m n : ℕ) (f : ℕ → Option ℕ) → hungarian cost m n ≡ some f → IsSound m f
  unfolding hungarian finish
  hungarian-IsSound cost m n f h = finish-IsSound m f (add_rows cost m n 1 start_rows) h
