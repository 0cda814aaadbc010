-- ===== src/Track/Scan.antt =====
-- The inner loops of `hungarian` of helpers/track_manager.hpp: what a scan of the columns finds.
use droneengage_common.Common.{
  ℕ, zero, suc, ◌+◌, ◌-◌, ◌*◌, ◌≤◌, ◌<◌, ◌≡◌, ◌⊎◌, inl, inr, refl, Bool, true, false, arith, ◌==◌,
  Bool-cases, subst,
}
use droneengage_common.Common.Int.{ℤ, pos}
use droneengage_common.Common.Float.{FloatOps}
use droneengage_common.Track.Assign.{
  Scan, Duals, relax_step, choose_step, scan_step, scan, adjust_step, adjust,
}

-- What the loops need of the numbers, where no result overflows: integers and a half are finite, so are
-- sums, differences, products, and quotients by a positive number; and a finite number is below infinity.
pub record FloatLaws {F : Type 0} (o : FloatOps F) (IsFinite : F → Type 0) : Type 0 where
  pub int_finite : (n : ℤ) → IsFinite (o.of_int n)
  pub half_finite : IsFinite o.half
  pub mul_finite : (x y : F) → IsFinite x → IsFinite y → IsFinite (o.mul x y)
  pub div_finite :
      (x y : F) → IsFinite x → IsFinite y → o.lt (o.of_int (pos 0)) y ≡ true → IsFinite (o.div x y)
  pub int_positive : (n : ℕ) → o.lt (o.of_int (pos 0)) (o.of_int (pos (n + 1))) ≡ true
  pub add_finite : (x y : F) → IsFinite x → IsFinite y → IsFinite (o.add x y)
  pub sub_finite : (x y : F) → IsFinite x → IsFinite y → IsFinite (o.sub x y)
  pub below_infinity : (x : F) → IsFinite x → o.lt x o.infinity ≡ true

module _ {F : Type 0} ⦃o : FloatOps F⦄ (IsFinite : F → Type 0) (laws : FloatLaws o IsFinite) where
  -- The column `w` is in the tree, at a depth of `c` at most.
  abbrev pub IsLink : (ℕ → Bool) → (ℕ → ℕ) → ℕ → ℕ → Type 0
  IsLink used d c w = (used w ≡ true) × (d w ≤ c)

  -- The columns below `j` have been scanned.
  pub record IsScanned (used : ℕ → Bool) (d : ℕ → ℕ) (c : ℕ) (way : ℕ → ℕ) (j : ℕ) (s : Scan F)
      : Type 0 where
    pub reached :
        (k : ℕ)
        → used k ≡ false
        → (s.minv k ≡ o.infinity) ⊎ (IsFinite (s.minv k) × IsLink used d c (s.way k))
    pub finite :
        (k : ℕ) → 1 ≤ k → k < j → used k ≡ false → IsFinite (s.minv k) × IsLink used d c (s.way k)
    pub kept : (k : ℕ) → used k ≡ true → s.way k ≡ way k
    pub best :
        ((s.delta ≡ o.infinity) × ((k : ℕ) → 1 ≤ k → k < j → used k ≡ true))
        ⊎ (IsFinite s.delta × (used s.j1 ≡ false) × (1 ≤ s.j1) × (s.j1 < j))

  not_infinite : (x : F) → IsFinite x → (y : F) → y ≡ o.infinity → o.lt x y ≡ false → ⊥
  not_infinite x f y e h = cc (laws.below_infinity x f, e, h)

  module _ (cost : ℕ → F) (m : ℕ) (d : Duals F) (used : ℕ → Bool) (depth : ℕ → ℕ) (c : ℕ)
      (way : ℕ → ℕ) (i0 j0 : ℕ) (costs : (k : ℕ) → IsFinite (cost k))
      (us : (k : ℕ) → IsFinite (d.u k)) (vs : (k : ℕ) → IsFinite (d.v k))
      (here : IsLink used depth c j0) where
    abbrev Scanned : ℕ → Scan F → Type 0
    Scanned j s = IsScanned used depth c way j s

    -- An unused column after its distance was relaxed.
    record Relaxed (j : ℕ) (s t : Scan F) : Type 0 where
      at_j : IsFinite (t.minv j) × IsLink used depth c (t.way j)
      others : (k : ℕ) → (k == j) ≡ false → (t.minv k ≡ s.minv k) × (t.way k ≡ s.way k)
      same_delta : t.delta ≡ s.delta
      same_j1 : t.j1 ≡ s.j1

    relax_step-Relaxed :
        (j : ℕ) (s : Scan F)
        → Scanned j s
        → used j ≡ false
        → Relaxed j s (relax_step cost m d i0 j0 j s)
    unfolding relax_step
    relax_step-Relaxed j s inv e = elim (Bool-cases (o.lt cur (s.minv j))) [
      | inl h ↦
          rw (h, relax_step)
            (record {
              at_j = ground (arith, cur_finite, here);
              others = λ k n. ground (arith, n);
              same_delta = refl;
              same_j1 = refl;
            })
      | inr h ↦
          rw (h, relax_step)
            (record {
              at_j = stays (inv.reached j e) h;
              others = λ k n. (refl, refl);
              same_delta = refl;
              same_j1 = refl;
            })
    ]
      where
        cur : F
        cur = o.sub (o.sub (cost ((i0 - 1) * m + (j - 1))) (d.u i0)) (d.v j)

        cur_finite : IsFinite cur
        cur_finite =
            laws.sub_finite (o.sub (cost ((i0 - 1) * m + (j - 1))) (d.u i0)) (d.v j)
              (laws.sub_finite (cost ((i0 - 1) * m + (j - 1))) (d.u i0)
                (costs ((i0 - 1) * m + (j - 1))) (us i0))
              (vs j)

        stays :
            (s.minv j ≡ o.infinity) ⊎ (IsFinite (s.minv j) × IsLink used depth c (s.way j))
            → o.lt cur (s.minv j) ≡ false
            → IsFinite (s.minv j) × IsLink used depth c (s.way j)
        stays (inl i) h = absurd (not_infinite cur cur_finite (s.minv j) i h)
        stays (inr f) h = f

    module _ (j : ℕ) (low : 1 ≤ j) (s : Scan F) (inv : Scanned j s) where
      -- A used column is passed over.
      pass : used j ≡ true → Scanned (suc j) s
      pass e = record {
        reached = inv.reached;
        finite = λ k lo hi u. inv.finite k lo (ground (arith, other k u)) u;
        kept = inv.kept;
        best = elim inv.best [
          | inl none_found ↦ inl (none_found.0, λ k lo hi. ground (arith, e, none_found.1 k))
          | inr found ↦ inr (found.0, found.1, found.2, omega (arith, found.3))
        ];
      }
        where
          other : (k : ℕ) → used k ≡ false → (k == j) ≡ false
          other k u = ground (arith, e, u)

      module _ (t : Scan F) (e : used j ≡ false) (r : Relaxed j s t) where
        reached_after :
            (k : ℕ)
            → used k ≡ false
            → (t.minv k ≡ o.infinity) ⊎ (IsFinite (t.minv k) × IsLink used depth c (t.way k))
        reached_after k u = elim (Bool-cases (k == j)) [
          | inl h ↦ inr (
              subst (λ i. IsFinite (t.minv i) × IsLink used depth c (t.way i)) (ground (arith, h))
                r.at_j)
          | inr h ↦ rw ((r.others k h).0, (r.others k h).1) (inv.reached k u)
        ]

        finite_after :
            (k : ℕ)
            → 1 ≤ k
            → k < suc j
            → used k ≡ false
            → IsFinite (t.minv k) × IsLink used depth c (t.way k)
        finite_after k lo hi u = elim (Bool-cases (k == j)) [
          | inl h ↦
              subst (λ i. IsFinite (t.minv i) × IsLink used depth c (t.way i)) (ground (arith, h))
                r.at_j
          | inr h ↦ rw ((r.others k h).0, (r.others k h).1) (inv.finite k lo (ground (arith, h)) u)
        ]

        kept_after : (k : ℕ) → used k ≡ true → t.way k ≡ way k
        kept_after k u = rw (r.others k other).1 (inv.kept k u)
          where
            other : (k == j) ≡ false
            other = ground (arith, e, u)

        choose : Scanned (suc j) (choose_step j t)
        unfolding choose_step
        choose = elim (Bool-cases (o.lt (t.minv j) t.delta)) [
          | inl h ↦
              rw (h, choose_step)
                (record {
                  reached = reached_after;
                  finite = finite_after;
                  kept = kept_after;
                  best = inr (r.at_j.0, e, low, omega arith);
                })
          | inr h ↦
              rw (h, choose_step)
                (record {
                  reached = reached_after;
                  finite = finite_after;
                  kept = kept_after;
                  best = found h inv.best;
                })
        ]
          where
            found :
                o.lt (t.minv j) t.delta ≡ false
                → ((s.delta ≡ o.infinity) × ((k : ℕ) → 1 ≤ k → k < j → used k ≡ true))
                  ⊎ (IsFinite s.delta × (used s.j1 ≡ false) × (1 ≤ s.j1) × (s.j1 < j))
                → ((t.delta ≡ o.infinity) × ((k : ℕ) → 1 ≤ k → k < suc j → used k ≡ true))
                  ⊎ (IsFinite t.delta × (used t.j1 ≡ false) × (1 ≤ t.j1) × (t.j1 < suc j))
            found h (inl none_found) =
                absurd (cc (laws.below_infinity (t.minv j) r.at_j.0, none_found.0, r.same_delta, h))
            found h (inr b) = rw (r.same_delta, r.same_j1) (inr (b.0, b.1, b.2, omega (arith, b.3)))

      scan_step-IsScanned : Scanned (suc j) (scan_step cost m d used i0 j0 j s)
      unfolding scan_step
      scan_step-IsScanned = elim (Bool-cases (used j)) [
        | inl e ↦ rw e (pass e)
        | inr e ↦ rw e (choose (relax_step cost m d i0 j0 j s) e (relax_step-Relaxed j s inv e))
      ]

    pub scan-IsScanned :
        (rounds j : ℕ) (s : Scan F)
        → 1 ≤ j
        → Scanned j s
        → Scanned (rounds + j) (scan cost m d used i0 j0 rounds j s)
    unfolding scan
    scan-IsScanned zero j s low inv = ground (arith, inv)
    scan-IsScanned (suc rounds) j s low inv =
        subst
          (λ n.
            Scanned n (scan cost m d used i0 j0 rounds (suc j) (scan_step cost m d used i0 j0 j s)))
          (omega arith)
          (scan-IsScanned rounds (suc j) (scan_step cost m d used i0 j0 j s) (omega arith)
            (scan_step-IsScanned j low s inv))

  -- After the potentials moved by a finite `delta`.
  pub record IsAdjusted (used : ℕ → Bool) (n : ℕ) (d t : Duals F) : Type 0 where
    pub us : (k : ℕ) → IsFinite (t.u k)
    pub vs : (k : ℕ) → IsFinite (t.v k)
    pub minvs : (k : ℕ) → used k ≡ false → (t.minv k ≡ d.minv k) ⊎ (IsFinite (t.minv k) × (k < n))

  module _ (p : ℕ → ℕ) (used : ℕ → Bool) (delta : F) (n : ℕ) (fin : IsFinite delta) where
    module _ (d : Duals F) (us : (k : ℕ) → IsFinite (d.u k)) (vs : (k : ℕ) → IsFinite (d.v k))
        (ms : (k : ℕ) → used k ≡ false → k < n → IsFinite (d.minv k)) where
      adjust_step-IsAdjusted : (j : ℕ) → j < n → IsAdjusted used n d (adjust_step p used delta j d)
      unfolding adjust_step
      adjust_step-IsAdjusted j room = elim (Bool-cases (used j)) [
        | inl e ↦
            rw (e, adjust_step)
              (record {
                us = λ k. ground (arith, us k, laws.add_finite (d.u (p j)) delta (us (p j)) fin);
                vs = λ k. ground (arith, vs k, laws.sub_finite (d.v j) delta (vs j) fin);
                minvs = λ k h. inl refl;
              })
        | inr e ↦
            rw (e, adjust_step)
              (record {
                us = us;
                vs = vs;
                minvs = λ k h. elim (Bool-cases (k == j)) [
                  | inl g ↦
                      rw g (
                        inr (laws.sub_finite (d.minv j) delta (ms j e room) fin, ground (arith, g)))
                  | inr g ↦ rw g (inl refl)
                ];
              })
      ]

      finite_after_adjust :
          (t : Duals F)
          → IsAdjusted used n d t
          → (k : ℕ) → used k ≡ false
          → k < n
          → IsFinite (t.minv k)
      finite_after_adjust t a k e h = elim (a.minvs k e) [ inl g ↦ rw g (ms k e h) | inr g ↦ g.0 ]

      adjust_trans :
          (t x : Duals F) → IsAdjusted used n d t → IsAdjusted used n t x → IsAdjusted used n d x
      adjust_trans t x a b = record {
        us = b.us;
        vs = b.vs;
        minvs = λ k e. elim (b.minvs k e) [ inl g ↦ rw g (a.minvs k e) | inr g ↦ inr g ];
      }

    pub adjust-IsAdjusted :
        (rounds j : ℕ) (d : Duals F)
        → rounds + j ≤ n
        → ((k : ℕ) → IsFinite (d.u k))
        → ((k : ℕ) → IsFinite (d.v k))
        → ((k : ℕ) → used k ≡ false → k < n → IsFinite (d.minv k))
        → IsAdjusted used n d (adjust p used delta rounds j d)
    unfolding adjust
    adjust-IsAdjusted zero j d room us vs ms = record { us = us; vs = vs; minvs = λ k e. inl refl }
    adjust-IsAdjusted (suc rounds) j d room us vs ms =
        let t = adjust_step p used delta j d in
        let a = adjust_step-IsAdjusted d us vs ms j (omega arith) in
        adjust_trans d us vs ms t (adjust p used delta rounds (suc j) t) a (
          adjust-IsAdjusted rounds (suc j) t (omega arith) a.us a.vs
            (finite_after_adjust d us vs ms t a))
