-- ===== src/Core/Candidates.antt =====
-- energy.go and the rest of scheduler.go: the candidates of a job, with the reasons against the
-- other nodes, and the normalised cost of a candidate.
pub mod Filter
pub mod Samples
use eco_kube.Prelude.{
  ◌*◌, Bool, true, false, Option, none, some, List, [], ◌∷◌, String, Result, ok, err, if◌then◌else◌,
}
use eco_kube.Prelude.Int.{ℤ, pos, ltb_ℤ}
use eco_kube.Prelude.Text.{StringMap, index}
use eco_kube.Prelude.Sift.{sift}
use eco_kube.Prelude.Float.{Float64, lt, le, eq, nought, one, ◌⊕◌, ◌⊗◌, ◌⊘◌}
use eco_kube.Core.Types.{Duration, second, hours, of_seconds, Job, Site, SimulatedNode}
use eco_kube.Core.Node.{can_accept_job}

pub record Weights (F : Type 0) : Type 0 where
  pub e : F
  pub c : F

pub record RefScales (F : Type 0) : Type 0 where
  pub e_ref : F
  pub c_ref : F

-- The package's variables `probSLOFn` and `estimateEgressFn`.
pub record Hooks (F : Type 0) : Type 0 where
  pub prob_slo : Job F → F
  pub estimate_egress : Job F → SimulatedNode F → F

-- `forecast.CIProvider`, `none` for nil.
abbrev pub CiProvider : Type 0 → Type 0
CiProvider F = Option (String → Duration → Result (List F))

-- What `evalCost` finds out about the site of a node.
pub record SiteFacts (F : Type 0) : Type 0 where
  pub pue : F
  pub k : F
  pub ci : F
  pub region : String

module _ {F : Type 0} ⦃d : Float64 F⦄ where
  -- The values the variables start with.
  abbrev pub default_hooks : Hooks F
  default_hooks = record { prob_slo = λ j. one; estimate_egress = λ j n. nought }

  unfoldable pub reject_reason : Hooks F → Job F → F → F → SimulatedNode F → Option String
  reject_reason hooks j alpha egress_cap n =
      if can_accept_job n j
      then (if lt (hooks.prob_slo j) alpha
          then some "slo"
          else if lt egress_cap (hooks.estimate_egress j n)
          then some "egress"
          else none)
      else some "capacity"

  unfoldable pub build_candidate_set :
      Hooks F → Job F → List (SimulatedNode F) → F → F → List (SimulatedNode F) × StringMap String
  unfolding sift reject_reason
  build_candidate_set hooks j nodes alpha egress_cap =
      sift (λ n. n.id) (reject_reason hooks j alpha egress_cap) nodes [] []

  unfoldable pub parse_node_float : StringMap String → String → F → F
  unfolding index
  parse_node_float labels key def = elim (d.parse (index labels key)) [ none ↦ def | some v ↦ v ]

  -- The duration asked for, or the estimate, or an hour.
  unfoldable pub energy_window : F → Duration → Duration
  energy_window estimated_duration t =
      let est = of_seconds estimated_duration in
      if ltb_ℤ (pos 0) t then t else if ltb_ℤ (pos 0) est then est else pos (3600 * second)

  unfoldable pub estimate_energy_kwh : F → StringMap String → Duration → F → F
  unfolding energy_window parse_node_float
  estimate_energy_kwh estimated_duration labels t k =
      let factor = if eq k nought then one else k in
      let mean = parse_node_float labels "power_w_mean" nought in
      let pw =
        if le mean nought
        then d.dec 6 1 ⊗ parse_node_float labels "peak_power_w" (d.dec 120 0)
        else mean in
      factor ⊗ (pw ⊘ d.dec 1000 0) ⊗ hours (energy_window estimated_duration t)

  abbrev positive_or_one : F → F
  positive_or_one x = if le x nought then one else x

  unfoldable pub estimate_carbon_kg : F → F → F → F
  estimate_carbon_kg energy_kwh pue ci = energy_kwh ⊗ positive_or_one pue ⊗ (ci ⊘ d.dec 1000 0)

  unfoldable pub normalise_cost : F → F → RefScales F → F × F
  normalise_cost energy_kwh carbon_kg refs =
      (energy_kwh ⊘ positive_or_one refs.e_ref, carbon_kg ⊘ positive_or_one refs.c_ref)

  abbrev or_value : F → F → F
  or_value x def = if eq x nought then def else x

  unfoldable pub site_facts : SimulatedNode F → SiteFacts F
  site_facts n = elim n.site [
    | none ↦ record { pue = one; k = one; ci = n.carbon_intensity; region = "" }
    | some s ↦ record {
      pue = or_value s.pue one;
      k = or_value s.k one;
      ci = or_value s.carbon_intensity n.carbon_intensity;
      region = s.ci_region;
    }
  ]

  -- The first sample of the forecast, or the intensity known of the site.
  unfoldable pub forecast_or : CiProvider F → String → Duration → F → F
  forecast_or prov region t ci = elim prov [
    | none ↦ ci
    | some forecast ↦ elim (forecast region t) [ err _ ↦ ci | ok [] ↦ ci | ok (v ∷ _) ↦ v ]
  ]

  -- The normalised energy, the normalised carbon and their weighted sum.
  unfoldable pub eval_cost :
      Job F → SimulatedNode F → Duration → RefScales F → Weights F → CiProvider F → F × F × F
  unfolding site_facts forecast_or estimate_energy_kwh estimate_carbon_kg normalise_cost
  eval_cost j n t refs theta prov =
      let facts = site_facts n in
      let ci = forecast_or prov facts.region t facts.ci in
      let energy = estimate_energy_kwh j.estimated_duration n.labels t facts.k in
      let (e, c) = normalise_cost energy (estimate_carbon_kg energy facts.pue ci) refs in
      (e, c, theta.e ⊗ e ⊕ theta.c ⊗ c)
