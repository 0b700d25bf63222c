-- ===== src/Metrics.antt =====
-- hetsched/pkg/metrics: estimates of energy and carbon. `metrics.go` and `cfp.go` are here, and the
-- energy model of `cicost.go`; the carbon intensity over time is in Metrics/Intensity.
pub mod Wattnet
pub mod Traces
pub mod Files
pub mod Search
pub mod Intensity
pub mod Energy
mod Samples
use eco_kube.Prelude.{ℕ, suc, ◌*◌, Bool, Option, none, some, String, if◌then◌else◌}
use eco_kube.Prelude.Int.{ℤ, pos, leb_ℤ}
use eco_kube.Prelude.Text.{StringMap, index, str_eq}
use eco_kube.Prelude.Float.{Float64, le, eq, nought, one, ◌⊕◌, ◌⊗◌, ◌⊘◌}
use eco_kube.Core.Types.{Duration, second, hours, of_seconds}

-- The totals over the jobs of a run.
pub record CfpAggregate (F : Type 0) : Type 0 where
  pub total_ci_g : F
  pub total_cpu_hours : F
  pub jobs : ℕ

module _ {F : Type 0} ⦃d : Float64 F⦄ where
  unfoldable pub parse_float : String → F → F
  parse_float s def = if str_eq s "" then def else elim (d.parse s) [ none ↦ def | some v ↦ v ]

  abbrev pub positive_or_one : F → F
  positive_or_one x = if le x nought then one else x

  -- A duration that is not positive is replaced by the estimate, or by an hour.
  abbrev pub horizon_or_estimate : F → Duration → Duration
  horizon_or_estimate estimated t =
      let est = of_seconds estimated in
      if leb_ℤ t (pos 0) then (if leb_ℤ est (pos 0) then pos (3600 * second) else est) else t

  unfoldable pub estimate_energy_j : F → StringMap String → Duration → F → F
  unfolding index parse_float
  estimate_energy_j estimated labels t k =
      let k' = if eq k nought then one else k in
      let mean = parse_float (index labels "power_w_mean") nought in
      let pw =
        if le mean nought
        then d.dec 6 1 ⊗ parse_float (index labels "peak_power_w") (d.dec 120 0)
        else mean in
      k' ⊗ pw ⊗ hours (horizon_or_estimate estimated t) ⊘ d.dec 1000 0

  unfoldable pub estimate_carbon_kg : F → F → F → F
  estimate_carbon_kg energy pue ci =
      energy ⊗ (if eq pue nought then one else pue) ⊗ (ci ⊘ d.dec 1000 0)

  unfoldable pub normalise : F → F → F → F → F × F
  normalise energy carbon e_ref c_ref =
      (energy ⊘ positive_or_one e_ref, carbon ⊘ positive_or_one c_ref)

  unfoldable pub add_job : CfpAggregate F → F → F → Duration → CfpAggregate F
  add_job a cpu ci_g runtime = record {
    total_ci_g = a.total_ci_g ⊕ ci_g;
    total_cpu_hours = a.total_cpu_hours ⊕ cpu ⊗ hours runtime;
    jobs = suc a.jobs;
  }

  unfoldable pub cfp_g_per_cpu_hour : CfpAggregate F → F
  cfp_g_per_cpu_hour a =
      if le a.total_cpu_hours nought then nought else a.total_ci_g ⊘ a.total_cpu_hours
