-- ===== src/Core/Types.antt =====
-- The data of hetsched/pkg/core: workloads, jobs, sites, reservations and simulated nodes. The type
-- of float64 is a parameter. An instant is a count of nanoseconds from Go's zero time, and a
-- duration one of nanoseconds; neither wraps.
use eco_kube.Prelude.{ℕ, ◌*◌, Bool, Option, List, String, if◌then◌else◌}
use eco_kube.Prelude.Int.{ℤ, pos, negsuc, ltb_ℤ, eqb_ℤ, ◌-ℤ◌, quot, remainder}
use eco_kube.Prelude.Text.{StringMap}
use eco_kube.Prelude.Float.{Float64, ◌⊕◌, ◌⊗◌, ◌⊘◌}

abbrev pub Time : Type 0
Time = ℤ

abbrev pub Duration : Type 0
Duration = ℤ

abbrev pub second : ℕ
second = 1_000_000_000

-- `t.Before(u)`, `t.After(u)` and `t.IsZero()`
abbrev pub before : Time → Time → Bool
before t u = ltb_ℤ t u

abbrev pub after : Time → Time → Bool
after t u = ltb_ℤ u t

abbrev pub zero_time : Time
zero_time = pos 0

abbrev pub is_zero : Time → Bool
is_zero t = eqb_ℤ t zero_time

-- `time.Unix(0, 0)`: 1970 is 62135596800 seconds after year 1.
abbrev pub unix_epoch : Time
unix_epoch = pos 62_135_596_800_000_000_000

-- `t.Sub(u)` saturates at the ends of int64.
unfoldable pub sub_time : Time → Time → Duration
unfolding ◌-ℤ◌
sub_time t u =
    let d = t -ℤ u in
    if ltb_ℤ (pos 9_223_372_036_854_775_807) d
    then pos 9_223_372_036_854_775_807
    else if ltb_ℤ d (negsuc 9_223_372_036_854_775_807)
    then negsuc 9_223_372_036_854_775_807
    else d

module _ {F : Type 0} ⦃d : Float64 F⦄ where
  -- Whole units and the rest, as `d.Seconds()` and `d.Hours()` add them up.
  abbrev pub in_units : ℕ → Duration → F
  in_units unit t = d.of_int (quot t unit) ⊕ d.of_int (remainder t unit) ⊘ d.dec unit 0

  abbrev pub seconds : Duration → F
  seconds t = in_units second t

  abbrev pub hours : Duration → F
  hours t = in_units (3600 * second) t

  -- `time.Duration(x * float64(time.Second))`
  abbrev pub of_seconds : F → Duration
  of_seconds x = d.to_int (x ⊗ d.dec second 0)

pub record Workload (F : Type 0) : Type 0 where
  pub id : String
  pub submit_time : Time
  pub duration : Duration
  pub cpu : F
  pub memory : F
  pub tag : String
  pub labels : StringMap String
  pub class : String

pub record Job (F : Type 0) : Type 0 where
  pub id : String
  pub cpu_req : F
  pub mem_req : F
  pub deadline_ms : ℤ
  pub tags : StringMap String
  pub estimated_duration : F
  pub labels : StringMap String
  pub submit_at : Time
  pub class : String

pub record Site (F : Type 0) : Type 0 where
  pub id : String
  pub pue : F
  pub k : F
  pub ci_region : String
  pub carbon_intensity : F

pub record Reservation (F : Type 0) : Type 0 where
  pub end : Time
  pub cpu : F
  pub mem : F

pub record SimulatedNode (F : Type 0) : Type 0 where
  pub id : String
  pub name : String
  pub total_cpu : F
  pub total_memory : F
  pub available_cpu : F
  pub available_memory : F
  pub carbon_intensity : F
  pub labels : StringMap String
  pub metadata : StringMap String
  pub device_class : String
  pub reservations : List (Reservation F)
  pub site_id : String
  pub site : Option (Site F)
