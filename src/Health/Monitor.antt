-- ===== src/Health/Monitor.antt =====
-- `CModuleHealthMonitor` of de_databus/de_module_health.cpp. What is read of /proc/self/status is given, as is
-- the clock.
use droneengage_common.Common.{
  ℕ, ◌+◌, ◌-◌, ◌/◌, ◌%◌, Bool, ◌&&◌, Option, none, some, List, [], ◌∷◌, ◌++◌, ◌==◌, ltb, leb,
  if◌then◌else◌, length,
}
use droneengage_common.Common.Int.{ℤ, pos, negsuc, u64_mod}
use droneengage_common.Common.Float.{FloatOps}

-- MODULE_HEALTH_TREND_* and MODULE_HEALTH_STATUS_*
pub data Trend : Type 0 where
  stable up down : Trend

pub data Status : Type 0 where
  ok warning critical : Status

-- What `readProcSelfStatus` reads: kilobytes, and the number of threads. The peak of the process is read and not used.
pub record ProcStatus : Type 0 where
  pub rss_kb : ℕ
  pub vmpeak_kb : ℕ
  pub vmswap_kb : ℕ
  pub threads : ℤ

pub record RawSample (F : Type 0) : Type 0 where
  pub timestamp_usec : ℕ
  pub rss_mb : F

-- MODULE_HEALTH_SAMPLE, when it is valid.
pub record HealthSample (F : Type 0) : Type 0 where
  pub rss_mb : F
  pub peak_rss_mb : F
  pub vmswap_mb : F
  pub threads : ℤ
  pub slope_mb_h : F
  pub trend : Trend
  pub status : Status
  pub uptime_sec : ℕ

pub record HealthMonitor (F : Type 0) : Type 0 where
  pub history : List (RawSample F)
  pub history_samples : ℕ
  pub max_rss_mb : F
  pub max_growth_mb_per_hour : F
  pub start_time_usec : ℕ

-- The sums of `calculateSlope`.
pub record SlopeSums (F : Type 0) : Type 0 where
  pub x : F
  pub y : F
  pub xy : F
  pub xx : F

-- `while (m_history.size() > m_history_samples) m_history.pop_front();`
unfoldable pub keep_last {ℓ} : {A : Type ℓ} → ℕ → List A → List A
keep_last n [] = []
keep_last n (x ∷ xs) = let rest = keep_last n xs in if ltb n (length (x ∷ xs)) then rest else x ∷ xs

module _ {F : Type 0} ⦃o : FloatOps F⦄ where
  abbrev pub whole : ℕ → F
  whole n = o.of_int (pos n)

  abbrev pub megabytes : ℕ → F
  megabytes kb = o.div (whole kb) (whole 1024)

  abbrev pub new_monitor : HealthMonitor F
  new_monitor = record {
    history = [];
    history_samples = 40;
    max_rss_mb = whole 500;
    max_growth_mb_per_hour = whole 20;
    start_time_usec = 0;
  }

  unfoldable pub configure : F → F → ℕ → HealthMonitor F → HealthMonitor F
  configure max_rss max_growth samples m = record m {
    max_rss_mb = max_rss;
    max_growth_mb_per_hour = max_growth;
    history_samples = samples;
  }

  -- The loop of `calculateSlope`: hours since the first sample, and megabytes.
  unfoldable pub add_up : ℕ → List (RawSample F) → SlopeSums F → SlopeSums F
  add_up t0 [] s = s
  add_up t0 (p ∷ ps) s =
      let x = o.div (whole ((p.timestamp_usec + u64_mod - t0) % u64_mod)) (whole 3600000000) in
      add_up t0 ps (record {
        x = o.add s.x x;
        y = o.add s.y p.rss_mb;
        xy = o.add s.xy (o.mul x p.rss_mb);
        xx = o.add s.xx (o.mul x x);
      })

  abbrev is_zero : F → Bool
  is_zero v = o.le v (whole 0) && o.le (whole 0) v

  unfoldable pub slope_of : ℕ → SlopeSums F → F
  slope_of n s =
      let denom = o.sub (o.mul (whole n) s.xx) (o.mul s.x s.x) in
      if is_zero denom then whole 0 else o.div (o.sub (o.mul (whole n) s.xy) (o.mul s.x s.y)) denom

  abbrev start_of : List (RawSample F) → ℕ
  start_of [] = 0
  start_of (p ∷ ps) = p.timestamp_usec

  unfoldable pub calculate_slope : List (RawSample F) → F
  unfolding add_up slope_of
  calculate_slope history =
      if ltb (length history) 2
      then whole 0
      else slope_of (length history) (
          add_up (start_of history) history
            (record { x = whole 0; y = whole 0; xy = whole 0; xx = whole 0 }))

  -- The largest reading, from `peak` on.
  unfoldable pub peak_of : F → List (RawSample F) → F
  peak_of peak [] = peak
  peak_of peak (p ∷ ps) = peak_of (if o.lt peak p.rss_mb then p.rss_mb else peak) ps

  unfoldable pub trend_of : F → Trend
  trend_of slope =
      if o.lt (whole 1) slope then up else if o.lt slope (o.of_int (negsuc 0)) then down else stable

  unfoldable pub status_of : F → F → HealthMonitor F → Status
  status_of rss slope m =
      if o.lt m.max_rss_mb rss
      then critical
      else if leb m.history_samples (length m.history) && o.lt m.max_growth_mb_per_hour slope
      then warning
      else ok

  abbrev pub with_start : ℕ → HealthMonitor F → HealthMonitor F
  with_start now m = if m.start_time_usec == 0 then record m { start_time_usec = now } else m

  unfoldable pub remember : ℕ → F → HealthMonitor F → HealthMonitor F
  unfolding keep_last
  remember now rss m = record m {
    history =
        keep_last m.history_samples
          (m.history ++ record { timestamp_usec = now; rss_mb = rss } ∷ []);
  }

  unfoldable pub measure : ℕ → ProcStatus → HealthMonitor F → HealthSample F
  unfolding calculate_slope peak_of trend_of status_of
  measure now p m =
      let slope = calculate_slope m.history in
      record {
        rss_mb = megabytes p.rss_kb;
        peak_rss_mb = peak_of (whole 0) m.history;
        vmswap_mb = megabytes p.vmswap_kb;
        threads = p.threads;
        slope_mb_h = slope;
        trend = trend_of slope;
        status = status_of (megabytes p.rss_kb) slope m;
        uptime_sec = (now + u64_mod - m.start_time_usec) % u64_mod / 1000000;
      }

  -- `sample`: nothing is valid where the file cannot be read.
  unfoldable pub sample :
      ℕ → Option ProcStatus → HealthMonitor F → Option (HealthSample F) × HealthMonitor F
  unfolding remember measure
  sample now none m = (none, with_start now m)
  sample now (some p) m =
      let t = remember now (megabytes p.rss_kb) (with_start now m) in (some (measure now p t), t)
