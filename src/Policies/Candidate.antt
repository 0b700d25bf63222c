-- ===== src/Policies/Candidate.antt =====
-- policies/internal/candidate: the metrics of the candidate nodes, and min-max scaling.
use eco_kube.Prelude.{
  Bool, true, false, ◌||◌, none, some, List, [], ◌∷◌, String, map, Result, ok, err, get_elem?, ℕ,
  if◌then◌else◌,
}
use eco_kube.Prelude.Float.{Float64, lt, le, eq, nought, ◌⊖◌, ◌⊘◌}
use eco_kube.Core.Types.{Time, Workload, Job, SimulatedNode}
use eco_kube.Core.Node.{can_accept_job}
use eco_kube.Policies.{
  CarbonModel, ci_cost, gather_now, pick_node_id, runtime_seconds, queue_seconds, workload_from_job,
}

pub record Candidate (F : Type 0) : Type 0 where
  pub id : String
  pub feasible : Bool
  pub carbon : F
  pub runtime : F
  pub queue : F

-- The least and the greatest value so far.
pub record Extent (F : Type 0) : Type 0 where
  pub lo : F
  pub hi : F

module _ {F : Type 0} ⦃d : Float64 F⦄ where
  abbrev infeasible : String → Candidate F
  infeasible id = record {
    id = id;
    feasible = false;
    carbon = nought;
    runtime = nought;
    queue = nought;
  }

  -- candidate.go's own `workloadFromJob` leaves the class empty.
  unfoldable pub classless_workload : Job F → Workload F
  unfolding workload_from_job
  classless_workload j = record (workload_from_job j) { class = "" }

  unfoldable pub candidate : CarbonModel F → Job F → Time → SimulatedNode F → Candidate F
  unfolding classless_workload
  candidate model job now n =
      if can_accept_job n job
      then record {
        id = pick_node_id n;
        feasible = true;
        carbon = ci_cost model n (classless_workload job) now;
        runtime = runtime_seconds job;
        queue = queue_seconds n now;
      }
      else infeasible (pick_node_id n)

  unfoldable pub gather :
      CarbonModel F → Job F → List (SimulatedNode F) → Time → Result (List (Candidate F))
  gather model job [] now = err "candidate: no nodes provided"
  gather model job (n ∷ ns) now =
      ok (map (candidate model job (gather_now now job.submit_at)) (n ∷ ns))

  unfoldable pub widen : Extent F → F → Extent F
  widen e v = record { lo = if lt v e.lo then v else e.lo; hi = if lt e.hi v then v else e.hi }

  unfoldable pub extent_loop : Extent F → List F → Extent F
  extent_loop e [] = e
  extent_loop e (v ∷ vs) = extent_loop (widen e v) vs

  abbrev pub extent : List F → Extent F
  unfolding extent_loop widen
  extent vals = extent_loop (record { lo = d.inf; hi = d.neg_inf }) vals

  abbrev pub half : F
  half = d.dec 5 1

  unfoldable pub scale : Extent F → F → F
  scale e v =
      let den = e.hi ⊖ e.lo in
      if eq e.lo d.inf || eq e.hi d.neg_inf
      then half
      else if le den (d.dec 1 12)
      then half
      else (v ⊖ e.lo) ⊘ den

  unfoldable pub normalise_min_max : List F → List F
  unfolding extent scale
  normalise_min_max vals = map (scale (extent vals)) vals

  -- `hats[i]`: the code reads it only where it is there.
  abbrev pub at : List F → ℕ → F
  at hats i = elim (get_elem? hats i) [ none ↦ nought | some v ↦ v ]
