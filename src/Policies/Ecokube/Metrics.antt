-- ===== src/Policies/Ecokube/Metrics.antt =====
-- ecokube.go: computeCandidateMetrics.
use eco_kube.Prelude.{
  ℕ, suc, Bool, true, false, List, [], ◌∷◌, map, String, Result, ok, err, keep_if, if◌then◌else◌,
}
use eco_kube.Prelude.Float.{Float64, lt, nought, one, ◌⊕◌, ◌⊖◌, ◌⊗◌}
use eco_kube.Core.Types.{Time, Job, SimulatedNode}
use eco_kube.Core.Node.{can_accept_job}
use eco_kube.Policies.{CarbonModel, pick_node_id, runtime_seconds, queue_seconds, workload_from_job}
use eco_kube.Policies.Candidate.{normalise_min_max, at}
use eco_kube.Policies.Ecokube.Fit.{
  fit_bonus, interference_penalty, data_movement_hint, device_fit_score,
}

-- The raw signals of a node, or the scaled ones.
pub record Signals (F : Type 0) : Type 0 where
  pub co2 : F
  pub energy : F
  pub runtime : F
  pub queue : F
  pub move : F
  pub fit : F

pub record Metric (F : Type 0) : Type 0 where
  pub id : String
  pub feasible : Bool
  pub raw : Signals F
  pub hat : Signals F

module _ {F : Type 0} ⦃d : Float64 F⦄ where
  abbrev pub no_signals : Signals F
  no_signals = record {
    co2 = nought;
    energy = nought;
    runtime = nought;
    queue = nought;
    move = nought;
    fit = nought;
  }

  unfoldable pub signals : CarbonModel F → Job F → Time → SimulatedNode F → Signals F
  unfolding runtime_seconds fit_bonus queue_seconds
  signals model job now n =
      let (energy, carbon) = model.energy_and_carbon n (workload_from_job job) now in
      let runtime = runtime_seconds job ⊗ (one ⊖ fit_bonus job n) in
      record {
        co2 = carbon ⊗ d.dec 1000 0;
        energy = energy;
        runtime = if lt runtime nought then nought else runtime;
        queue = queue_seconds n now ⊕ interference_penalty n job;
        move = data_movement_hint job n;
        fit = device_fit_score job n;
      }

  unfoldable pub item_of : CarbonModel F → Job F → Time → SimulatedNode F → Metric F
  item_of model job now n =
      if can_accept_job n job
      then record {
        id = pick_node_id n;
        feasible = true;
        raw = signals model job now n;
        hat = no_signals;
      }
      else record { id = pick_node_id n; feasible = false; raw = no_signals; hat = no_signals }

  abbrev pub feasible : List (Metric F) → List (Metric F)
  feasible = keep_if λ c. c.feasible

  -- The scaled values of one signal over the feasible nodes.
  abbrev scaled : (Signals F → F) → List (Metric F) → List F
  unfolding keep_if normalise_min_max
  scaled f items = normalise_min_max (map (λ c. f c.raw) (feasible items))

  abbrev hat_at : List (Metric F) → ℕ → Signals F
  unfolding scaled
  hat_at items i = record {
    co2 = at (scaled (λ s. s.co2) items) i;
    energy = at (scaled (λ s. s.energy) items) i;
    runtime = at (scaled (λ s. s.runtime) items) i;
    queue = at (scaled (λ s. s.queue) items) i;
    move = at (scaled (λ s. s.move) items) i;
    fit = at (scaled (λ s. s.fit) items) i;
  }

  -- The loop that hands out the scaled values; `i` counts the feasible nodes before.
  unfoldable pub attach_hats : (ℕ → Signals F) → ℕ → List (Metric F) → List (Metric F)
  attach_hats hats i [] = []
  attach_hats hats i (c ∷ cs) = elim (c.feasible) [
    | false ↦ c ∷ attach_hats hats i cs
    | true ↦ (record c { hat = hats i }) ∷ attach_hats hats (suc i) cs
  ]

  unfoldable pub compute_candidate_metrics :
      CarbonModel F → Job F → List (SimulatedNode F) → Time → Result (List (Metric F))
  unfolding attach_hats hat_at
  compute_candidate_metrics model job [] now = err "ecokube: no candidate nodes provided"
  compute_candidate_metrics model job (n ∷ ns) now =
      let items = map (item_of model job now) (n ∷ ns) in ok (attach_hats (hat_at items) 0 items)
