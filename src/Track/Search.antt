-- ===== src/Track/Search.antt =====
-- The first `do` loop of `hungarian` of helpers/track_manager.hpp ends: it reaches a free column.
use droneengage_common.Common.{
  ℕ, zero, suc, ◌+◌, ◌≤◌, ◌<◌, ◌≡◌, ◌⊎◌, inl, inr, refl, Bool, true, false, some, arith, ◌==◌,
  if◌then◌else◌, Bool-cases, subst, sym,
}
use droneengage_common.Common.Float.{FloatOps}
use droneengage_common.Track.Assign.{
  update_at, Scan, Duals, Search, scan, adjust, search_step, search,
}
use droneengage_common.Track.Scan.{
  FloatLaws, IsScanned, IsLink, scan-IsScanned, IsAdjusted, adjust-IsAdjusted,
}

-- The columns `0` to `m` that are not used.
pub unused : (ℕ → Bool) → ℕ → ℕ
unused used zero = if used 0 then 0 else 1
unused used (suc m) = (if used (suc m) then 0 else 1) + unused used m

unused_after :
    (used : ℕ → Bool) (j m : ℕ) → m < j → unused (update_at used j true) m ≡ unused used m
unfolding unused
unused_after used j zero h = ground arith
unused_after used j (suc m) h = ground (arith, unused_after used j m)

unused_mark :
    (used : ℕ → Bool) (j m : ℕ)
    → j ≤ m
    → used j ≡ false
    → suc (unused (update_at used j true) m) ≡ unused used m
unfolding unused
unused_mark used j zero h e = ground arith
unused_mark used j (suc m) h e = elim (Bool-cases (suc m == j)) [
  | inl g ↦ ground (arith, unused_after used j m, g, e)
  | inr g ↦ ground (arith, unused_mark used j m, g, e)
]

pub unused_fresh : (m : ℕ) → unused (λ j. false) m ≡ suc m
unfolding unused
unused_fresh zero = refl
unused_fresh (suc m) = omega (arith, unused_fresh m)

module _ {F : Type 0} ⦃o : FloatOps F⦄ (IsFinite : F → Type 0) (laws : FloatLaws o IsFinite) where
  -- The tree of used columns, with the depth of each, and the column `j0` that joins it next.
  pub record IsGrowing (m : ℕ) (p : ℕ → ℕ) (s : Search F) (depth : ℕ → ℕ) : Type 0 where
    pub us : (k : ℕ) → IsFinite (s.duals.u k)
    pub vs : (k : ℕ) → IsFinite (s.duals.v k)
    pub fresh : s.used s.j0 ≡ false
    pub range : s.j0 ≤ m
    pub inside : (k : ℕ) → s.used k ≡ true → k ≤ m
    pub matched : (k : ℕ) → s.used k ≡ true → (p k == 0) ≡ false
    pub linked :
        (k : ℕ)
        → s.used k ≡ true
        → (k ≡ 0) ⊎ ((s.used (s.way k) ≡ true) × (depth (s.way k) < depth k))
    pub here : (s.j0 ≡ 0) ⊎ ((s.used (s.way s.j0) ≡ true) × (depth (s.way s.j0) < depth s.j0))
    pub deeper : (k : ℕ) → s.used k ≡ true → depth k < depth s.j0
    pub reached :
        (k : ℕ)
        → s.used k ≡ false
        → (s.duals.minv k ≡ o.infinity)
          ⊎ (IsFinite (s.duals.minv k)
              × ((s.used (s.way k) ≡ true) × (depth (s.way k) < depth s.j0)))
    pub rooted : (s.used 0 ≡ true) ⊎ (s.j0 ≡ 0)

  -- The search ends in a free column, with the tree around it.
  pub record IsEnded (m : ℕ) (p : ℕ → ℕ) (t : Search F) : Type 0 where
    pub depth : ℕ → ℕ
    pub grown : IsGrowing m p t depth
    pub ended : (p t.j0 == 0) ≡ true
    pub shallow : depth t.j0 ≤ suc m
    pub positive_column : 1 ≤ t.j0

  module _ (cost : ℕ → F) (m : ℕ) (costs : (k : ℕ) → IsFinite (cost k)) (p : ℕ → ℕ) (free : ℕ)
      (low : 1 ≤ free) (high : free ≤ m) (is_free : (p free == 0) ≡ true) where
    module _ (s : Search F) (depth : ℕ → ℕ) (g : IsGrowing m p s depth)
        (taken : (p s.j0 == 0) ≡ false) where
      abbrev marked : ℕ → Bool
      marked = update_at s.used s.j0 true

      abbrev found : Scan F
      found =
          scan cost m s.duals marked (p s.j0) s.j0 m 1
            (record { minv = s.duals.minv; way = s.way; delta = o.infinity; j1 = 0 })

      marks : (k : ℕ) → s.used k ≡ true → marked k ≡ true
      marks k e = ground (arith, e)

      here-IsLink : IsLink IsFinite laws marked depth (depth s.j0) s.j0
      here-IsLink = (ground arith, omega arith)

      start_reached :
          (k : ℕ)
          → marked k ≡ false
          → (s.duals.minv k ≡ o.infinity)
            ⊎ (IsFinite (s.duals.minv k) × IsLink IsFinite laws marked depth (depth s.j0) (s.way k))
      start_reached k e = elim (g.reached k (ground (arith, e))) [
        | inl h ↦ inl h
        | inr (h, (u, l)) ↦ inr (h, (marks (s.way k) u, omega arith))
      ]

      scanned : IsScanned IsFinite laws marked depth (depth s.j0) s.way (m + 1) found
      scanned =
          scan-IsScanned IsFinite laws cost m s.duals marked depth (depth s.j0) s.way (p s.j0) s.j0
            costs g.us g.vs here-IsLink m 1
            (record { minv = s.duals.minv; way = s.way; delta = o.infinity; j1 = 0 }) (omega arith)
            (record {
              reached = start_reached;
              finite = λ k lo hi e. absurd (omega arith);
              kept = λ k e. refl;
              best = inl (refl, λ k lo hi. absurd (omega arith));
            })

      free_unmarked : marked free ≡ false
      free_unmarked = ground (arith, taken, is_free, g.matched free)

      -- The scan has found an unused column.
      pub next_found :
          IsFinite found.delta × (marked found.j1 ≡ false) × (1 ≤ found.j1) × (found.j1 < m + 1)
      next_found = elim scanned.best [
        | inl h ↦ absurd (cc (h.1 free low (omega arith), free_unmarked))
        | inr h ↦ h
      ]

      rooted_after : marked 0 ≡ true
      rooted_after = elim g.rooted [ inl h ↦ marks 0 h | inr h ↦ ground (arith, h) ]

      positive : (k : ℕ) → marked k ≡ false → 1 ≤ k
      positive zero e = absurd (cc (e, rooted_after))
      positive (suc k) e = omega arith

      adjusted :
          IsAdjusted IsFinite laws marked
            (suc m)
            (record s.duals { minv = found.minv })
            (adjust p marked found.delta (suc m) 0 (record s.duals { minv = found.minv }))
      adjusted =
          adjust-IsAdjusted IsFinite laws p marked found.delta (suc m) next_found.0 (suc m) 0
            (record s.duals { minv = found.minv }) (omega arith) g.us g.vs
            (λ k e h. (scanned.finite k (positive k e) (omega arith) e).0)

      -- The depths once the next column has one.
      abbrev deepened : ℕ → ℕ
      deepened = update_at depth found.j1 (suc (depth s.j0))

      same_depth : (k : ℕ) → marked k ≡ true → deepened k ≡ depth k
      same_depth k e = ground (arith, e, next_found.1)

      deepened_link :
          (w : ℕ)
          → IsLink IsFinite laws marked depth (depth s.j0) w
          → (marked w ≡ true) × (deepened w < suc (depth s.j0))
      deepened_link w l = (l.0, ground (arith, same_depth w l.0, l.1))

      deepened_next : deepened found.j1 ≡ suc (depth s.j0)
      deepened_next = ground arith

      linked_after :
          (k : ℕ)
          → marked k ≡ true
          → (k ≡ 0) ⊎ ((marked (s.way k) ≡ true) × (deepened (s.way k) < deepened k))
      linked_after k e = elim (Bool-cases (k == s.j0)) [
        | inl h ↦ step (
            subst (λ j. (j ≡ 0) ⊎ ((s.used (s.way j) ≡ true) × (depth (s.way j) < depth j)))
              (ground (arith, h)) g.here)
        | inr h ↦ step (g.linked k (ground (arith, e, h)))
      ]
        where
          step :
              (k ≡ 0) ⊎ ((s.used (s.way k) ≡ true) × (depth (s.way k) < depth k))
              → (k ≡ 0) ⊎ ((marked (s.way k) ≡ true) × (deepened (s.way k) < deepened k))
          step (inl z) = inl z
          step (inr (u, l)) =
              inr
                (marks (s.way k) u, rw (same_depth (s.way k) (marks (s.way k) u), same_depth k e) l)

      deeper_after : (k : ℕ) → marked k ≡ true → deepened k < suc (depth s.j0)
      deeper_after k e = elim (Bool-cases (k == s.j0)) [
        | inl h ↦ rw (same_depth k e) (ground (arith, h))
        | inr h ↦ rw (same_depth k e) (ground (arith, g.deeper k, e, h))
      ]

      reached_after :
          (t : Duals F)
          → IsAdjusted IsFinite laws marked (suc m) (record s.duals { minv = found.minv }) t
          → (k : ℕ) → marked k ≡ false
          → (t.minv k ≡ o.infinity)
            ⊎ (IsFinite (t.minv k)
                × ((marked (found.way k) ≡ true) × (deepened (found.way k) < deepened found.j1)))
      reached_after t a k e = elim (a.minvs k e) [
        | inl h ↦ elim (scanned.reached k e) [
          | inl i ↦ inl (rw h i)
          | inr (f, l) ↦ inr (rw h f, rw deepened_next (deepened_link (found.way k) l))
        ]
        | inr (f, h) ↦ inr (
          f,
          rw deepened_next
              (deepened_link (found.way k) (scanned.finite k (positive k e) (omega arith) e).1),
        )
      ]

      search_step-IsGrowing : IsGrowing m p (search_step cost m p s) deepened
      unfolding search_step
      search_step-IsGrowing = record {
        us = adjusted.us;
        vs = adjusted.vs;
        fresh = next_found.1;
        range = omega (arith, next_found.3);
        inside = λ k e. ground (arith, e, g.range, g.inside k);
        matched = λ k e. ground (arith, e, taken, g.matched k);
        linked = λ k e. rw (scanned.kept k e) (linked_after k e);
        here = inr (
            subst (λ n. (marked (found.way found.j1) ≡ true) × (deepened (found.way found.j1) < n))
              (sym deepened_next)
              (deepened_link (found.way found.j1)
                (scanned.finite found.j1 next_found.2 next_found.3 next_found.1).1));
        deeper = λ k e. rw deepened_next (deeper_after k e);
        reached =
            reached_after
              (adjust p marked found.delta (suc m) 0 (record s.duals { minv = found.minv }))
              adjusted;
        rooted = inl rooted_after;
      }

      next_depth : deepened (search_step cost m p s).j0 ≡ suc (depth s.j0)
      unfolding search_step
      next_depth = deepened_next

      next_positive : 1 ≤ (search_step cost m p s).j0
      unfolding search_step
      next_positive = next_found.2

      next_unused : suc (unused (search_step cost m p s).used m) ≡ unused s.used m
      unfolding search_step
      next_unused = unused_mark s.used s.j0 m g.range g.fresh

    pub search-IsEnded :
        (fuel : ℕ) (s : Search F) (depth : ℕ → ℕ)
        → IsGrowing m p s depth
        → (p s.j0 == 0) ≡ false
        → unused s.used m ≤ fuel
        → depth s.j0 + fuel ≤ suc m
        → (t : Search F) × (search cost m fuel p s ≡ some t) × IsEnded m p t
    unfolding search
    search-IsEnded zero s depth g taken enough room =
        absurd (omega (arith, unused_mark s.used s.j0 m g.range g.fresh))
    search-IsEnded (suc fuel) s depth g taken enough room =
        elim (Bool-cases (p (search_step cost m p s).j0 == 0)) [
          | inl e ↦ (
            search_step cost m p s,
            rw (e, search) refl,
            record {
              depth = deepened s depth g taken;
              grown = search_step-IsGrowing s depth g taken;
              ended = e;
              shallow = omega (arith, next_depth s depth g taken);
              positive_column = next_positive s depth g taken;
            },
          )
          | inr e ↦
              rw (e, search)
                (search-IsEnded fuel (search_step cost m p s) (deepened s depth g taken)
                  (search_step-IsGrowing s depth g taken) e
                  (omega (arith, next_unused s depth g taken))
                  (omega (arith, next_depth s depth g taken)))
        ]
