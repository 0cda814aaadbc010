-- ===== src/Cpu/Hysteresis.antt =====
-- The two-state machine of `CCpuMonitor::onUsage`: a switch needs a pressure that has been held.
use droneengage_common.Common.{
  ℕ, ◌≤◌, ◌<◌, ◌≡◌, ◌⊎◌, inl, inr, refl, Bool, true, List, [], ◌∷◌, ◌++◌, arith, All,
}
use droneengage_common.Common.Float.{FloatOps}
use droneengage_common.Cpu.Config.{CpuMonitorConfig}
use droneengage_common.Cpu.Monitor.{
  CpuMonitor, CpuBusyState, free, super_busy, CpuTransition, unchanged, became_super_busy,
  became_free, idle, toward_busy, toward_free, seconds_ms, held_ms, presses_busy, presses_free,
  on_usage,
}

-- A history of samples, the newest first. `Since P h t`: the newest samples of `h` satisfy `P`, from
-- one taken at time `t` on.
pub data Since {A : Type 0} (P : A → Bool) : List (A × ℕ) → ℕ → Type 0 where
  start : {u : A} {t : ℕ} {h : List (A × ℕ)} → P u ≡ true → Since P ((u, t) ∷ h) t
  more : {u : A} {t t0 : ℕ} {h : List (A × ℕ)} → P u ≡ true → Since P h t0 → Since P ((u, t) ∷ h) t0

start_at :
    {A : Type 0} (P : A → Bool) (u : A) (t : ℕ) (h : List (A × ℕ))
    → P u ≡ true
    → Since P ((u, t) ∷ h) t
start_at P u t h e = start e

more_at :
    {A : Type 0} (P : A → Bool) (u : A) (t t0 : ℕ) (h : List (A × ℕ))
    → P u ≡ true
    → Since P h t0
    → Since P ((u, t) ∷ h) t0
more_at P u t t0 h e r = more e r

-- The switch that takes one state to another.
abbrev pub edge : CpuBusyState → CpuBusyState → CpuTransition
edge free free = unchanged
edge free super_busy = became_super_busy
edge super_busy free = became_free
edge super_busy super_busy = unchanged

module _ {F : Type 0} ⦃o : FloatOps F⦄ where
  unfoldable pub run : CpuMonitor F → List (F × ℕ) → CpuTransition × CpuMonitor F
  run m [] = (unchanged, m)
  run m ((u, t) ∷ h) = on_usage (run m h).1 u t

  -- The pending window, if there is one, is backed by samples.
  pub record IsBacked (c : CpuMonitorConfig) (h : List (F × ℕ)) (m : CpuMonitor F) : Type 0 where
    pub config_kept : m.config ≡ c
    pub busy_since : m.pending_dir ≡ toward_busy → Since (presses_busy c) h m.pending_since_ms
    pub free_since : m.pending_dir ≡ toward_free → Since (presses_free c) h m.pending_since_ms

  on_usage-IsBacked :
      (c : CpuMonitorConfig) (h : List (F × ℕ)) (m : CpuMonitor F) (u : F) (t : ℕ)
      → IsBacked c h m
      → IsBacked c ((u, t) ∷ h) (on_usage m u t).1
  unfolding on_usage
  on_usage-IsBacked c h m u t b = record {
    config_kept = ground (arith, b.config_kept);
    busy_since = λ e. ground (
      arith,
      start_at (presses_busy c) u t h,
      more_at (presses_busy c) u t m.pending_since_ms h,
      b.busy_since,
    );
    free_since = λ e. ground (
      arith,
      start_at (presses_free c) u t h,
      more_at (presses_free c) u t m.pending_since_ms h,
      b.free_since,
    );
  }

  run-IsBacked :
      (m : CpuMonitor F) (h : List (F × ℕ)) → m.pending_dir ≡ idle → IsBacked m.config h (run m h).1
  unfolding run
  run-IsBacked m [] e = record { config_kept = refl; busy_since = λ d. cc; free_since = λ d. cc }
  run-IsBacked m ((u, t) ∷ h) e = on_usage-IsBacked m.config h (run m h).1 u t (run-IsBacked m h e)

  switch_busy :
      (c : CpuMonitorConfig) (h : List (F × ℕ)) (m : CpuMonitor F) (u : F) (t : ℕ)
      → IsBacked c h m
      → (on_usage m u t).0 ≡ became_super_busy
      → Since (presses_busy c) ((u, t) ∷ h) m.pending_since_ms
        × (seconds_ms c.sustain_s ≤ held_ms t m.pending_since_ms)
  unfolding on_usage
  switch_busy c h m u t b e = (
    ground (arith, more_at (presses_busy c) u t m.pending_since_ms h, b.busy_since),
    ground (arith, b.config_kept),
  )

  switch_free :
      (c : CpuMonitorConfig) (h : List (F × ℕ)) (m : CpuMonitor F) (u : F) (t : ℕ)
      → IsBacked c h m
      → (on_usage m u t).0 ≡ became_free
      → Since (presses_free c) ((u, t) ∷ h) m.pending_since_ms
        × (seconds_ms c.sustain_s ≤ held_ms t m.pending_since_ms)
  unfolding on_usage
  switch_free c h m u t b e = (
    ground (arith, more_at (presses_free c) u t m.pending_since_ms h, b.free_since),
    ground (arith, b.config_kept),
  )

  -- Over any samples, given to a monitor with no window pending: a switch to SUPER_BUSY is reported
  -- only if, from some sample on, every sample up to the newest pressed on the busy threshold, and
  -- that sample lies `sustain_s` seconds back; so for a switch back to FREE with the free threshold.
  pub switch_is_sustained :
      (m : CpuMonitor F) (h : List (F × ℕ)) (u : F) (t : ℕ)
      → m.pending_dir ≡ idle
      → ((run m ((u, t) ∷ h)).0 ≡ unchanged)
        ⊎ (((run m ((u, t) ∷ h)).0 ≡ became_super_busy)
            × ((t0 : ℕ) × Since (presses_busy m.config) ((u, t) ∷ h) t0
                × (seconds_ms m.config.sustain_s ≤ held_ms t t0)))
        ⊎ (((run m ((u, t) ∷ h)).0 ≡ became_free)
            × ((t0 : ℕ) × Since (presses_free m.config) ((u, t) ∷ h) t0
                × (seconds_ms m.config.sustain_s ≤ held_ms t t0)))
  unfolding run
  switch_is_sustained m h u t e = cases (on_usage (run m h).1 u t).0 refl
    where
      backed : IsBacked m.config h (run m h).1
      backed = run-IsBacked m h e

      cases :
          (r : CpuTransition)
          → (on_usage (run m h).1 u t).0 ≡ r
          → (r ≡ unchanged)
            ⊎ ((r ≡ became_super_busy)
                × ((t0 : ℕ) × Since (presses_busy m.config) ((u, t) ∷ h) t0
                    × (seconds_ms m.config.sustain_s ≤ held_ms t t0)))
            ⊎ ((r ≡ became_free)
                × ((t0 : ℕ) × Since (presses_free m.config) ((u, t) ∷ h) t0
                    × (seconds_ms m.config.sustain_s ≤ held_ms t t0)))
      cases unchanged q = inl refl
      cases became_super_busy q =
          let s = switch_busy m.config h (run m h).1 u t backed q in
          inr (inl (refl, ((run m h).1.pending_since_ms, s.0, s.1)))
      cases became_free q =
          let s = switch_free m.config h (run m h).1 u t backed q in
          inr (inr (refl, ((run m h).1.pending_since_ms, s.0, s.1)))

  -- The report is the edge of the state: nothing where it stays, and the switch where it changes.
  pub on_usage-edge :
      (m : CpuMonitor F) (u : F) (t : ℕ)
      → (on_usage m u t).0 ≡ edge m.state (on_usage m u t).1.state
  unfolding on_usage
  on_usage-edge m u t = ground arith

  record Waits (c : CpuMonitorConfig) (t0 : ℕ) (m : CpuMonitor F) : Type 0 where
    config_kept : m.config ≡ c
    still_free : m.state ≡ free
    window : m.pending_dir ≡ toward_busy
    opened : m.pending_since_ms ≡ t0

  -- A sample that presses on the busy threshold less than `sustain_s` after `t0`.
  abbrev pub PressesWithin : CpuMonitorConfig → ℕ → F × ℕ → Type 0
  PressesWithin c t0 (u, t) = (presses_busy c u ≡ true) × (held_ms t t0 < seconds_ms c.sustain_s)

  run-Waits :
      (m : CpuMonitor F) (u0 : F) (t0 : ℕ) (h : List (F × ℕ))
      → m.state ≡ free
      → m.pending_dir ≡ idle
      → presses_busy m.config u0 ≡ true
      → All (PressesWithin m.config t0) h
      → Waits m.config t0 (run m (h ++ (u0, t0) ∷ [])).1
  unfolding run on_usage
  run-Waits m u0 t0 [] f i p a = ground arith
  run-Waits m u0 t0 ((u, t) ∷ h) f i p a =
      let w = run-Waits m u0 t0 h f i p a.1 in ground (arith, w, a.0)

  -- A monitor in FREE, with no window pending, switches to SUPER_BUSY with the first sample that
  -- comes `sustain_s` seconds after one that pressed on the busy threshold, if it and every sample
  -- between them press on that threshold.
  pub held_pressure_switches :
      (m : CpuMonitor F) (u0 u : F) (t0 t : ℕ) (h : List (F × ℕ))
      → m.state ≡ free
      → m.pending_dir ≡ idle
      → presses_busy m.config u0 ≡ true
      → All (PressesWithin m.config t0) h
      → presses_busy m.config u ≡ true
      → seconds_ms m.config.sustain_s ≤ held_ms t t0
      → ((run m ((u, t) ∷ (h ++ (u0, t0) ∷ []))).0 ≡ became_super_busy)
        × ((run m ((u, t) ∷ (h ++ (u0, t0) ∷ []))).1.state ≡ super_busy)
  unfolding run
  held_pressure_switches m u0 u t0 t h f i p a q long =
      let w = run-Waits m u0 t0 h f i p a in
      unfold on_usage in (ground (arith, w, q, long), ground (arith, w, q, long))
