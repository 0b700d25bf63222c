-- ===== src/Policies/Metered.antt =====
-- policies/archive/energyvis, greenalg and ecovisor: three policies that score a node by the metrics
-- it is listed with. `Node` is that of hetsched/pkg/core/site.go. No program of the repository uses them.
use eco_kube.Prelude.{ℕ, Bool, Option, none, some, List, String, []}
use eco_kube.Prelude.Text.{StringMap, entry}
use eco_kube.Prelude.Float.{Float64, nought, one, ◌⊕◌, ◌⊗◌, ◌⊘◌}
use eco_kube.Core.Types.{Site}
use eco_kube.Core.ArgMin.{Scores, arg_min}
use eco_kube.Policies.{put_all}

pub record MeteredNode (F : Type 0) : Type 0 where
  pub id : String
  pub cpu_cap : F
  pub mem_cap : F
  pub metrics : StringMap F
  pub labels : StringMap String
  pub site_id : String
  pub site : Option (Site F)

pub record EnergyVis (F : Type 0) : Type 0 where
  pub power : F
  pub sci : F
  pub util : F

pub record GreenAlgorithms (F : Type 0) : Type 0 where
  pub ci : F
  pub dur : F
  pub energy : F

pub record CarbonScaler (F : Type 0) : Type 0 where
  pub lambda : F

module _ {F : Type 0} ⦃d : Float64 F⦄ where
  -- `n.Metrics[name]`, zero where the metric is missing.
  unfoldable pub metric : MeteredNode F → String → F
  metric n name = elim (entry n.metrics name) [ none ↦ nought | some v ↦ v ]

  abbrev used_shares : MeteredNode F → F
  used_shares n = (metric n "cpu_used" ⊘ n.cpu_cap) ⊕ (metric n "mem_used" ⊘ n.mem_cap)

  unfoldable pub energy_vis_score : EnergyVis F → MeteredNode F → F
  unfolding metric
  energy_vis_score s n =
      s.power ⊗ metric n "node_power_w" ⊕ s.sci ⊗ metric n "sci_pred" ⊕ s.util ⊗ used_shares n

  unfoldable pub green_score : GreenAlgorithms F → MeteredNode F → F
  unfolding metric
  green_score s n =
      let e = metric n "job_energy_kwh_pred" in
      let duration = metric n "job_duration_s_pred" in
      let sci = (e ⊗ metric n "ci_g_per_kwh") ⊘ (duration ⊕ d.dec 1 6) in
      s.ci ⊗ sci ⊕ s.dur ⊗ duration ⊕ s.energy ⊗ e

  unfoldable pub carbon_scaler_score : CarbonScaler F → MeteredNode F → F
  unfolding metric
  carbon_scaler_score s n = used_shares n ⊘ (one ⊕ s.lambda ⊗ metric n "ci_norm")

  abbrev scored : (MeteredNode F → F) → ℕ → MeteredNode F → Option (String × F)
  scored score i n = some (n.id, score n)

  -- The three `Score` methods differ in the score of a node only.
  unfoldable pub metered_scores : (MeteredNode F → F) → List (MeteredNode F) → Scores F
  unfolding put_all
  metered_scores score nodes = put_all (scored score) 0 nodes []

  unfoldable pub metered_select : (MeteredNode F → F) → List (MeteredNode F) → String × Bool
  unfolding metered_scores arg_min
  metered_select score nodes = arg_min (metered_scores score nodes)
