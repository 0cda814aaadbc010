-- ===== src/Cpu/Board.antt =====
-- `computeBoardStats`, with its running maxima, against a direct reading of a board's reports.
use droneengage_common.Common.{
  ℕ, ◌+◌, ◌≤◌, ◌≡◌, sym, subst, String, Bool, true, false, ◌&&◌, ◌||◌, [], ◌∷◌, arith,
  if◌then◌else◌, Bool-cases, inl, inr,
}
use droneengage_common.Common.Int.{ℤ, pos, eqb_ℤ, ◌≤ℤ◌}
use droneengage_common.Cpu.Config.{CpuMonitorConfig}
use droneengage_common.Cpu.Aggregator.{
  ModuleReport, Modules, BoardStats, no_stats, is_fresh, board_is_fresh, max_ℤ, stats_step,
  stats_loop, compute_board_stats, is_silent, board_state_super_busy, board_remove_after_ms,
  stale_window_ms,
}

module _ (c : CpuMonitorConfig) (now : ℕ) where
  -- The highest usage of a fresh report, and of any; 0 if there is none.
  pub fresh_usage : Modules → ℤ
  fresh_usage [] = pos 0
  fresh_usage ((m, r) ∷ ms) =
      if is_fresh c now r then max_ℤ r.u (fresh_usage ms) else fresh_usage ms

  pub any_usage : Modules → ℤ
  any_usage [] = pos 0
  any_usage ((m, r) ∷ ms) = max_ℤ r.u (any_usage ms)

  -- Some fresh report says SUPER_BUSY.
  unfoldable pub reports_busy : Modules → Bool
  reports_busy [] = false
  reports_busy ((m, r) ∷ ms) =
      (is_fresh c now r && eqb_ℤ r.s board_state_super_busy) || reports_busy ms

  fresh_usage_nonneg : (ms : Modules) → pos 0 ≤ℤ fresh_usage ms
  unfolding fresh_usage max_ℤ
  fresh_usage_nonneg [] = omega arith
  fresh_usage_nonneg ((m, r) ∷ ms) = ground (arith, fresh_usage_nonneg ms)

  any_usage_nonneg : (ms : Modules) → pos 0 ≤ℤ any_usage ms
  unfolding any_usage max_ℤ
  any_usage_nonneg [] = omega arith
  any_usage_nonneg ((m, r) ∷ ms) = ground (arith, any_usage_nonneg ms)

  max_ℤ-zero : (a : ℤ) → pos 0 ≤ℤ a → max_ℤ a (pos 0) ≡ a
  unfolding max_ℤ
  max_ℤ-zero a h = ground arith

  zero-max_ℤ : (a : ℤ) → pos 0 ≤ℤ a → max_ℤ (pos 0) a ≡ a
  unfolding max_ℤ
  zero-max_ℤ a h = ground arith

  max_ℤ_assoc : (a b d : ℤ) → max_ℤ (max_ℤ a b) d ≡ max_ℤ a (max_ℤ b d)
  unfolding max_ℤ
  max_ℤ_assoc a b d = ground arith

  max_ℤ_nonneg : (a b : ℤ) → pos 0 ≤ℤ a → pos 0 ≤ℤ max_ℤ a b
  unfolding max_ℤ
  max_ℤ_nonneg a b h = ground arith

  -- One round of the loop, by its fields.
  record Round (r : ModuleReport) (b e : BoardStats) : Type 0 where
    fresh : e.saw_fresh ≡ b.saw_fresh || is_fresh c now r
    usage : e.u ≡ (if is_fresh c now r then max_ℤ b.u r.u else b.u)
    stale_usage : e.stale_max_u ≡ max_ℤ b.stale_max_u r.u
    state :
        eqb_ℤ e.s board_state_super_busy
        ≡ eqb_ℤ b.s board_state_super_busy || (is_fresh c now r && eqb_ℤ r.s board_state_super_busy)

  stats_step-Round : (r : ModuleReport) (b : BoardStats) → Round r b (stats_step c now b r)
  unfolding stats_step
  stats_step-Round r b = record {
    fresh = ground arith;
    usage = ground arith;
    stale_usage = ground arith;
    state = ground arith;
  }

  record Sums (ms : Modules) (b e : BoardStats) : Type 0 where
    fresh : e.saw_fresh ≡ b.saw_fresh || board_is_fresh c now ms
    usage : e.u ≡ max_ℤ b.u (fresh_usage ms)
    stale_usage : e.stale_max_u ≡ max_ℤ b.stale_max_u (any_usage ms)
    state : eqb_ℤ e.s board_state_super_busy ≡ eqb_ℤ b.s board_state_super_busy || reports_busy ms

  Sums-cons :
      (m : String) (r : ModuleReport) (ms : Modules) (b d e : BoardStats)
      → Round r b d
      → Sums ms d e
      → Sums ((m, r) ∷ ms) b e
  unfolding fresh_usage any_usage reports_busy board_is_fresh
  Sums-cons m r ms b d e round sums = record {
    fresh = ground (arith, round.fresh, sums.fresh);
    usage = ground (arith, round.usage, sums.usage, max_ℤ_assoc b.u r.u (fresh_usage ms));
    stale_usage =
        ground (
          arith,
          round.stale_usage,
          sums.stale_usage,
          max_ℤ_assoc b.stale_max_u r.u (any_usage ms),
        );
    state = ground (arith, round.state, sums.state);
  }

  stats_loop-Sums :
      (ms : Modules) (b : BoardStats)
      → pos 0 ≤ℤ b.u
      → pos 0 ≤ℤ b.stale_max_u
      → Sums ms b (stats_loop c now b ms)
  unfolding stats_loop fresh_usage any_usage reports_busy board_is_fresh
  stats_loop-Sums [] b hu hs = record {
    fresh = ground arith;
    usage = sym (max_ℤ-zero b.u hu);
    stale_usage = sym (max_ℤ-zero b.stale_max_u hs);
    state = ground arith;
  }
  stats_loop-Sums ((m, r) ∷ ms) b hu hs =
      let d = stats_step c now b r in
      let round = stats_step-Round r b in
      Sums-cons m r ms b d (stats_loop c now d ms) round (
        stats_loop-Sums ms d (usage round)
          (subst (λ u. pos 0 ≤ℤ u) (sym round.stale_usage) (max_ℤ_nonneg b.stale_max_u r.u hs)))
    where
      pick : (b : Bool) (x y : ℤ) → pos 0 ≤ℤ x → pos 0 ≤ℤ y → pos 0 ≤ℤ (if b then x else y)
      pick true x y hx hy = hx
      pick false x y hx hy = hy

      usage : {d : BoardStats} → Round r b d → pos 0 ≤ℤ d.u
      usage round =
          subst (λ u. pos 0 ≤ℤ u) (sym round.usage)
            (pick (is_fresh c now r) (max_ℤ b.u r.u) b.u (max_ℤ_nonneg b.u r.u hu) hu)

  -- The stats of a board are those of its reports: the state is SUPER_BUSY exactly if a fresh report
  -- says so, and the usage is the highest of the fresh reports, or of all where none is fresh.
  pub compute_board_stats_lem :
      (ms : Modules)
      → (eqb_ℤ (compute_board_stats c now ms).s board_state_super_busy ≡ reports_busy ms)
        × ((compute_board_stats c now ms).u
            ≡ (if board_is_fresh c now ms then fresh_usage ms else any_usage ms))
  unfolding compute_board_stats
  compute_board_stats_lem ms =
      let s = stats_loop-Sums ms no_stats (omega arith) (omega arith) in
      ground (
        arith,
        s.state,
        s.fresh,
        s.usage,
        s.stale_usage,
        zero-max_ℤ (fresh_usage ms) (fresh_usage_nonneg ms),
        zero-max_ℤ (any_usage ms) (any_usage_nonneg ms),
      )

  newest_grows : (ms : Modules) (b : BoardStats) → b.newest_ms ≤ (stats_loop c now b ms).newest_ms
  unfolding stats_loop
  newest_grows [] b = omega arith
  newest_grows ((m, r) ∷ ms) b = omega (arith, step, newest_grows ms (stats_step c now b r))
    where
      step : b.newest_ms ≤ (stats_step c now b r).newest_ms
      step = unfold stats_step in ground arith

  -- A fresh report bounds the age of the newest one.
  busy_is_recent :
      (ms : Modules) (b : BoardStats)
      → reports_busy ms ≡ true
      → now ≤ (stats_loop c now b ms).newest_ms + stale_window_ms c
  unfolding stats_loop reports_busy
  busy_is_recent [] b h = cc
  busy_is_recent ((m, r) ∷ ms) b h = elim (Bool-cases (is_fresh c now r)) [
    | inl e ↦ omega (arith, recent e, newest_grows ms (stats_step c now b r))
    | inr e ↦ busy_is_recent ms (stats_step c now b r) (rw e at h)
  ]
    where
      recent : is_fresh c now r ≡ true → now ≤ (stats_step c now b r).newest_ms + stale_window_ms c
      recent e = unfold stats_step in ground (arith, e)

  -- With a stale window of a minute at most, a board that reports busy is not removed.
  pub not_silent_of_busy :
      (ms : Modules)
      → stale_window_ms c ≤ board_remove_after_ms
      → reports_busy ms ≡ true
      → is_silent c now ms ≡ false
  unfolding is_silent
  not_silent_of_busy ms w h = ground (arith, busy_is_recent ms no_stats h)
