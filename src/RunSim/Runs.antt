-- ===== src/RunSim/Runs.antt =====
-- run_sim.go's main: the run of one policy in one scenario. Wall-clock times, the random source and
-- the order that `sort.Slice` gives are parameters; the rounds of the simulator are fuel.
use eco_kube.Prelude.{
  ℕ, ◌*◌, Bool, false, Option, none, some, List, [], ◌∷◌, String, ◌>>=◌, if◌then◌else◌,
}
use eco_kube.Prelude.Int.{ℤ, pos, pos_part, ltb_ℤ, ◌+ℤ◌}
use eco_kube.Prelude.Text.{StringMap, put}
use eco_kube.Prelude.Float.{Float64, ◌⊗◌}
use eco_kube.Core.Types.{Time, Workload, Site, SimulatedNode, zero_time}
use eco_kube.Core.Policy.{Policy}
use eco_kube.Core.Sim.{BaseSim, init, set_schedule_batch_size, add_workload, run}
use eco_kube.Policies.{CarbonModel, ci_cost}
use eco_kube.Policies.Keids.{Weights}
use eco_kube.Policies.Ecokube.{eco_policy}
use eco_kube.Policies.Ecokube.Score.{Config, default_config}
use eco_kube.Loader.Sites.{attach_sites}
use eco_kube.RunSim.Flags.{
  EcoWeightSet, calibrate_eco_weights, format_weight_label, format_eco_kube_id,
}
use eco_kube.RunSim.Arrivals.{Rng, Pace, apply_arrival_schedule}
use eco_kube.RunSim.Prepare.{scrub_preferred_site, neutralise_sites}
use eco_kube.RunSim.Summary.{SummaryRow, Labels, summarise_run}

-- What is the same for the runs of a scenario: `now` is the wall clock, and `ceil` is `math.Ceil`.
pub record Scenario (F : Type 0) : Type 0 where
  pub batch : ℤ
  pub template_start : Time
  pub pace : Pace F
  pub traced : Bool
  pub now : Time
  pub ceil : F → F

-- A row of the summary, with what `main` adds.
pub record Row (F : Type 0) : Type 0 where
  pub summary : SummaryRow F
  pub elapsed_ms : F
  pub alpha : F
  pub beta : F
  pub gamma : F
  pub rep : ℕ

-- The number of workloads of a run: all of them for a count that is out of range.
unfoldable pub target_count : ℤ → ℕ → ℕ
target_count job_count available =
    if ltb_ℤ (pos 0) job_count
    then (if ltb_ℤ (pos available) job_count then available else pos_part job_count)
    else available

-- `seedStride`
abbrev seed_stride : ℕ
seed_stride = 7919

module _ {F : Type 0} ⦃d : Float64 F⦄ where
  unfoldable pub rep_seed : ℤ → ℕ → F → ℕ → ℤ
  unfolding ◌+ℤ◌
  rep_seed arrival_seed target arrival_rate rep =
      arrival_seed
      +ℤ pos (target * 1000)
      +ℤ d.to_int (arrival_rate ⊗ d.dec 1000 0)
      +ℤ pos (rep * seed_stride)

  -- The zero value of a simulator.
  abbrev pub new_sim : BaseSim F
  new_sim = record {
    clock = zero_time;
    nodes = [];
    batch = pos 0;
    pending = [];
    logs_buf = [];
    selector = record { select = none; policy = none; traced = false };
    ci_calc = none;
    traces = [];
  }

  -- The simulator of a run before its workloads are added.
  unfoldable pub prepare :
      CarbonModel F → Scenario F → Policy F → List (SimulatedNode F) → BaseSim F
  unfolding init set_schedule_batch_size
  prepare model scenario policy nodes =
      let b = init new_sim nodes (some policy) in
      record (set_schedule_batch_size
        (record b {
          selector = record {
            select = b.selector.select;
            policy = b.selector.policy;
            traced = scenario.traced;
          };
        })
        scenario.batch) { ci_calc = some (λ n w at. ci_cost model n w at) }

  unfoldable pub add_workloads : BaseSim F → List (Workload F) → BaseSim F
  unfolding add_workload
  add_workloads b [] = b
  add_workloads b (w ∷ ws) = add_workloads (add_workload b w) ws

  unfoldable pub by_id : StringMap (Workload F) → List (Workload F) → StringMap (Workload F)
  unfolding put
  by_id m [] = m
  by_id m (w ∷ ws) = by_id (put m w.id w) ws

  abbrev pub run_config : EcoWeightSet F → F → Config F
  unfolding default_config
  run_config weights fit_weight = record (default_config) {
    delta = d.dec 25 2;
    alpha = weights.alpha;
    beta = weights.beta;
    gamma = weights.gamma;
    fit_weight = fit_weight;
  }

module _ {F S : Type 0} ⦃d : Float64 F⦄ (rng : Rng F S)
    (sort : List (Workload F) → List (Workload F)) (fuel : ℕ) (model : CarbonModel F) where
  -- The workloads with their arrivals, and the simulator that has run them.
  unfoldable pub drive :
      Scenario F
      → Policy F
      → S
      → List (SimulatedNode F)
      → List (Workload F)
      → Option (List (Workload F) × BaseSim F)
  unfolding prepare add_workloads apply_arrival_schedule run
  drive scenario policy s nodes ws = do
    arriving ←
        apply_arrival_schedule rng scenario.now ws scenario.template_start scenario.batch
          scenario.pace s
    ended ← run sort fuel (add_workloads (prepare model scenario policy nodes) arriving)
    some (arriving, ended)

  -- A baseline policy: all sites are alike, and the workloads have no preferred site.
  unfoldable pub baseline_run :
      Scenario F
      → Policy F
      → S
      → List (SimulatedNode F)
      → StringMap (Site F)
      → List (Workload F)
      → Option (List (Workload F) × BaseSim F)
  unfolding drive attach_sites neutralise_sites scrub_preferred_site
  baseline_run scenario policy s nodes sites ws =
      drive scenario policy s (neutralise_sites (attach_sites nodes sites))
        (scrub_preferred_site ws)

  unfoldable pub ecokube_run :
      (String → String)
      → Scenario F
      → String
      → String
      → EcoWeightSet F
      → F
      → S
      → List (SimulatedNode F)
      → StringMap (Site F)
      → List (Workload F)
      → Option (List (Workload F) × BaseSim F)
  unfolding drive attach_sites eco_policy
  ecokube_run quote scenario mode policy_id weights fit_weight s nodes sites ws =
      drive scenario (eco_policy quote model mode (run_config weights fit_weight) policy_id) s
        (attach_sites nodes sites) ws

module _ {F : Type 0} ⦃d : Float64 F⦄ where
  -- The weight sets of the flag, or those that the weight of the carbon intensity gives.
  unfoldable pub weights_or_calibrated :
      (F → String) → F → List (EcoWeightSet F) → List (EcoWeightSet F)
  unfolding calibrate_eco_weights format_weight_label
  weights_or_calibrated two_places ci_weight [] =
      let (alpha, beta, gamma) = calibrate_eco_weights ci_weight in
      record {
        alpha = alpha;
        beta = beta;
        gamma = gamma;
        label = format_weight_label two_places alpha beta gamma;
      }
      ∷ []
  weights_or_calibrated two_places ci_weight (w ∷ ws) = w ∷ ws

  abbrev pub eco_policy_id : List (EcoWeightSet F) → String → EcoWeightSet F → String
  unfolding format_eco_kube_id
  eco_policy_id [] mode w = "ecokube"
  eco_policy_id (_ ∷ _) mode w = format_eco_kube_id mode w.label

  -- The row that a run adds to the summary.
  unfoldable pub summary_of :
      Scenario F
      → Labels F
      → Weights F
      → F
      → ℕ
      → Option (List (Workload F) × BaseSim F)
      → Option (Row F)
  unfolding summarise_run by_id
  summary_of scenario labels weights elapsed rep outcome = do
    result ← outcome
    row ← summarise_run scenario.ceil labels (result.1).logs_buf (by_id [] (result.0))
    some (record {
      summary = row;
      elapsed_ms = elapsed;
      alpha = weights.alpha;
      beta = weights.beta;
      gamma = weights.gamma;
      rep = rep;
    })
