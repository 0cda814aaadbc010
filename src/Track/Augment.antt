-- ===== src/Track/Augment.antt =====
-- The second `do` loop of `hungarian` of helpers/track_manager.hpp, on the tree that the first leaves:
-- it reaches column 0, and no row loses its column.
use droneengage_common.Common.{
  ℕ, zero, suc, ◌+◌, ◌≤◌, ◌<◌, ◌≡◌, ◌⊎◌, inl, inr, refl, Bool, true, false, some, arith, ◌==◌,
  if◌then◌else◌, Bool-cases, subst,
}
use droneengage_common.Track.Assign.{update_at, augment}

-- The free columns among `1` to `m`.
pub free : (ℕ → ℕ) → ℕ → ℕ
free p zero = 0
free p (suc m) = (if p (suc m) == 0 then 1 else 0) + free p m

free_after : (p : ℕ → ℕ) (j v m : ℕ) → m < j → free (update_at p j v) m ≡ free p m
unfolding free
free_after p j v zero h = refl
free_after p j v (suc m) h = ground (arith, free_after p j v m)

pub free_write : (p : ℕ → ℕ) (j v m : ℕ) → free p m ≤ suc (free (update_at p j v) m)
unfolding free
free_write p j v zero = omega arith
free_write p j v (suc m) = elim (Bool-cases (suc m == j)) [
  | inl e ↦ ground (arith, e, free_after p j v m)
  | inr e ↦ ground (arith, e, free_write p j v m)
]

free_kept : (p : ℕ → ℕ) (j v m : ℕ) → (p j == 0) ≡ false → free p m ≤ free (update_at p j v) m
unfolding free
free_kept p j v zero h = omega arith
free_kept p j v (suc m) h = ground (arith, h, free_kept p j v m)

pub free_root : (p : ℕ → ℕ) (v m : ℕ) → free (update_at p 0 v) m ≡ free p m
unfolding free
free_root p v zero = refl
free_root p v (suc m) = ground (arith, free_root p v m)

pub free_fresh : (m : ℕ) → free (λ j. 0) m ≡ m
unfolding free
free_fresh zero = refl
free_fresh (suc m) = omega (arith, free_fresh m)

pub free_column :
    (p : ℕ → ℕ) (m : ℕ) → 1 ≤ free p m → (f : ℕ) × (1 ≤ f) × (f ≤ m) × ((p f == 0) ≡ true)
unfolding free
free_column p zero h = absurd (omega arith)
free_column p (suc m) h = elim (Bool-cases (p (suc m) == 0)) [
  | inl e ↦ (suc m, omega arith, omega arith, e)
  | inr e ↦ below (free_column p m (ground (arith, e, h)))
]
  where
    below :
        ((f : ℕ) × (1 ≤ f) × (f ≤ m) × ((p f == 0) ≡ true))
        → ((f : ℕ) × (1 ≤ f) × (f ≤ suc m) × ((p f == 0) ≡ true))
    below (f, lo, hi, e) = (f, lo, omega arith, e)

-- The row `r` has a column other than `j`.
abbrev pub IsHeld : ℕ → (ℕ → ℕ) → ℕ → ℕ → Type 0
IsHeld m p j r = (k : ℕ) × (k ≤ m) × ((k == j) ≡ false) × (p k ≡ r)

-- What the loop leaves.
pub record IsAugmented (m rows : ℕ) (before p : ℕ → ℕ) : Type 0 where
  pub count : free before m ≤ free p m
  pub held : (r : ℕ) → 1 ≤ r → r ≤ rows → IsHeld m p 0 r

-- The loop from the column `j0` ends within the fuel.
abbrev pub Augments : (m rows : ℕ) (way : ℕ → ℕ) (fuel : ℕ) (p : ℕ → ℕ) (j0 : ℕ) → Type 0
Augments m rows way fuel p j0 =
    (t : ℕ → ℕ) × (augment fuel way p j0 ≡ some t)
    × IsAugmented m rows (update_at p j0 (p (way j0))) t

module _ (m rows : ℕ) (used : ℕ → Bool) (way depth : ℕ → ℕ)
    (inside : (k : ℕ) → used k ≡ true → k ≤ m)
    (linked : (k : ℕ)
      → used k ≡ true
      → (k ≡ 0) ⊎ ((used (way k) ≡ true) × (depth (way k) < depth k))) where
  -- The row of the next column moves to this one.
  IsHeld-after :
      (p : ℕ → ℕ) (j0 j1 r : ℕ)
      → j0 ≤ m
      → (j0 == j1) ≡ false
      → IsHeld m p j0 r
      → IsHeld m (update_at p j0 (p j1)) j1 r
  IsHeld-after p j0 j1 r room other (k, hi, n, e) = elim (Bool-cases (k == j1)) [
    | inl h ↦ (j0, room, other, ground (arith, h, e))
    | inr h ↦ (k, hi, h, ground (arith, n, e))
  ]

  apart : (j k : ℕ) → depth k < depth j → (j == k) ≡ false
  apart j k h = elim (Bool-cases (j == k)) [ inl e ↦ absurd (ground (arith, e, h)) | inr e ↦ e ]

  step-IsHeld :
      (p : ℕ → ℕ) (j0 : ℕ)
      → j0 ≤ m
      → depth (way j0) < depth j0
      → ((r : ℕ) → 1 ≤ r → r ≤ rows → IsHeld m p j0 r)
      → (r : ℕ) → 1 ≤ r
      → r ≤ rows
      → IsHeld m (update_at p j0 (p (way j0))) (way j0) r
  step-IsHeld p j0 room l held r lo hi =
      IsHeld-after p j0 (way j0) r room (apart j0 (way j0) l) (held r lo hi)

  onward :
      (fuel : ℕ) (p : ℕ → ℕ) (j0 : ℕ)
      → (p (way j0) == 0) ≡ false
      → (way j0 == 0) ≡ false
      → Augments m rows way fuel (update_at p j0 (p (way j0))) (way j0)
      → Augments m rows way (suc fuel) p j0
  unfolding augment
  onward fuel p j0 h e (t, g, a) = (
    t,
    rw (e, augment) g,
    record {
      count = omega (
        arith,
        a.count,
        free_kept (update_at p j0 (p (way j0))) (way j0)
            (update_at p j0 (p (way j0)) (way (way j0))) m (ground (arith, h)),
      );
      held = a.held;
    },
  )

  pub augment-IsAugmented :
      (fuel : ℕ) (p : ℕ → ℕ) (j0 : ℕ)
      → j0 ≤ m
      → used (way j0) ≡ true
      → depth (way j0) < depth j0
      → depth (way j0) < fuel
      → ((k : ℕ) → used k ≡ true → (p k == 0) ≡ false)
      → ((r : ℕ) → 1 ≤ r → r ≤ rows → IsHeld m p j0 r)
      → Augments m rows way fuel p j0
  unfolding augment
  augment-IsAugmented zero p j0 room u l enough matched held = absurd (omega arith)
  augment-IsAugmented (suc fuel) p j0 room u l enough matched held =
      elim (Bool-cases (way j0 == 0)) [
        | inl e ↦ (
          update_at p j0 (p (way j0)),
          rw (e, augment) refl,
          record {
            count = omega arith;
            held =
                subst (λ j. (r : ℕ) → 1 ≤ r → r ≤ rows → IsHeld m (update_at p j0 (p (way j0))) j r)
                  (ground (arith, e)) (step-IsHeld p j0 room l held);
          },
        )
        | inr e ↦ elim (linked (way j0) u) [
          | inl z ↦ absurd (ground (arith, e, z))
          | inr (v, d) ↦ onward fuel p j0 (matched (way j0) u) e (
              augment-IsAugmented fuel (update_at p j0 (p (way j0))) (way j0) (inside (way j0) u) v
                d (omega arith) (λ k h. ground (arith, matched k h, matched (way j0) u))
                (step-IsHeld p j0 room l held))
        ]
      ]
