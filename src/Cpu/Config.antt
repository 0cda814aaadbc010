-- ===== src/Cpu/Config.antt =====
-- `CpuMonitorConfig` and `deParseCpuMonitorConfig` of de_databus/de_cpu_monitor.
use droneengage_common.Common.{
  ◌≡◌, ◌⊎◌, refl, Bool, true, false, ◌||◌, Option, none, some, arith, if◌then◌else◌, Bool-cases,
  inl, inr,
}
use droneengage_common.Common.Int.{ℤ, pos, ltb_ℤ, leb_ℤ, ◌≤ℤ◌, ◌<ℤ◌}
use droneengage_common.Common.Float.{FloatOps}
use droneengage_common.Json.{Json, boolean, at, is_object, is_number, get_int}

pub record CpuMonitorConfig : Type 0 where
  pub enabled : Bool
  pub super_busy_percent : ℤ
  pub free_percent : ℤ
  pub sustain_s : ℤ
  pub report_s : ℤ
  pub summary_s : ℤ

abbrev pub default_config : CpuMonitorConfig
default_config = record {
  enabled = true;
  super_busy_percent = pos 90;
  free_percent = pos 70;
  sustain_s = pos 5;
  report_s = pos 10;
  summary_s = pos 60;
}

-- `bad_range || (free_percent >= super_busy_percent)`
unfoldable pub bad_config : CpuMonitorConfig → Bool
bad_config c =
    ltb_ℤ c.super_busy_percent (pos 1)
    || (ltb_ℤ (pos 100) c.super_busy_percent
        || (ltb_ℤ c.free_percent (pos 0)
            || (ltb_ℤ (pos 100) c.free_percent
                || (ltb_ℤ c.sustain_s (pos 1)
                    || (ltb_ℤ c.report_s (pos 1)
                        || (ltb_ℤ c.summary_s (pos 0)
                            || leb_ℤ c.super_busy_percent c.free_percent))))))

checked : CpuMonitorConfig → CpuMonitorConfig
checked c = if bad_config c then default_config else c

module _ {F : Type 0} ⦃o : FloatOps F⦄ where
  unfoldable pub int_or : Option (Json F) → ℤ → ℤ
  int_or none d = d
  int_or (some v) d = if is_number v then get_int v else d

  unfoldable pub bool_or : Option (Json F) → Bool → Bool
  bool_or (some (boolean b)) d = b
  bool_or _ d = d

  -- The fields of the "cpu_monitor" object that have the right type, over the defaults.
  unfoldable pub read_config : Json F → CpuMonitorConfig
  unfolding int_or bool_or
  read_config src = record {
    enabled = bool_or (at "enabled" src) default_config.enabled;
    super_busy_percent = int_or (at "super_busy_percent" src) default_config.super_busy_percent;
    free_percent = int_or (at "free_percent" src) default_config.free_percent;
    sustain_s = int_or (at "sustain_s" src) default_config.sustain_s;
    report_s = int_or (at "report_s" src) default_config.report_s;
    summary_s = int_or (at "summary_s" src) default_config.summary_s;
  }

  section : Option (Json F) → CpuMonitorConfig
  unfolding read_config checked
  section none = default_config
  section (some src) = if is_object src then checked (read_config src) else default_config

  unfoldable pub parse_config : Json F → CpuMonitorConfig
  unfolding section
  parse_config module_config = section (at "cpu_monitor" module_config)

-- Thresholds that a monitor can use.
pub record IsValid (c : CpuMonitorConfig) : Type 0 where
  pub busy_low : pos 1 ≤ℤ c.super_busy_percent
  pub busy_high : c.super_busy_percent ≤ℤ pos 100
  pub free_low : pos 0 ≤ℤ c.free_percent
  pub dead_band : c.free_percent <ℤ c.super_busy_percent
  pub sustained : pos 1 ≤ℤ c.sustain_s
  pub reported : pos 1 ≤ℤ c.report_s
  pub summarised : pos 0 ≤ℤ c.summary_s

IsValid-of_not_bad : (c : CpuMonitorConfig) → bad_config c ≡ false → IsValid c
unfolding bad_config
IsValid-of_not_bad c h = ground arith

not_bad_of_IsValid : (c : CpuMonitorConfig) → IsValid c → bad_config c ≡ false
unfolding bad_config
not_bad_of_IsValid c v = ground arith

default_config-IsValid : IsValid default_config
default_config-IsValid = omega arith

checked-IsValid : (c : CpuMonitorConfig) → IsValid (checked c)
unfolding checked
checked-IsValid c = elim (Bool-cases (bad_config c)) [
  | inl e ↦ rw e default_config-IsValid
  | inr e ↦ rw e (IsValid-of_not_bad c e)
]

module _ {F : Type 0} ⦃o : FloatOps F⦄ where
  section-IsValid : (v : Option (Json F)) → IsValid (section v)
  unfolding section
  section-IsValid none = default_config-IsValid
  section-IsValid (some src) = elim (Bool-cases (is_object src)) [
    | inl e ↦ rw e (checked-IsValid (read_config src))
    | inr e ↦ rw e default_config-IsValid
  ]

  -- Whatever the module's configuration holds, the thresholds that come out of it are usable.
  pub parse_config-IsValid : (module_config : Json F) → IsValid (parse_config module_config)
  unfolding parse_config
  parse_config-IsValid module_config = section-IsValid (at "cpu_monitor" module_config)

  -- Usable thresholds are taken as they were read, and any others give all the defaults: the two are
  -- never mixed.
  pub parse_config-eq :
      (module_config src : Json F)
      → at "cpu_monitor" module_config ≡ some src
      → is_object src ≡ true
      → ((c : CpuMonitorConfig) × (parse_config module_config ≡ c)
          × (((c ≡ read_config src) × IsValid (read_config src))
              ⊎ ((c ≡ default_config) × ¬ IsValid (read_config src))))
  unfolding parse_config
  parse_config-eq module_config src e obj = elim (Bool-cases (bad_config (read_config src))) [
    | inl bad ↦ (
      default_config,
      rw e (rw obj (rw (bad, checked))),
      inr (refl, λ v. cc (bad, not_bad_of_IsValid (read_config src) v)),
    )
    | inr good ↦ (
      read_config src,
      rw e (rw obj (rw (good, checked))),
      inl (refl, IsValid-of_not_bad (read_config src) good),
    )
  ]
