-- ===== src/Core/Policy.antt =====
-- basesim.go's Policy, trace.go, and scheduler.go's SelectSiteAndNode and TraceablePolicy. A policy
-- is taken as a function of the job and of the nodes: those of the repository keep no state.
use eco_kube.Prelude.{Bool, Option, List, String, Result, ok, err, if◌then◌else◌}
use eco_kube.Prelude.Float.{Float64}
use eco_kube.Core.Types.{Time, Job, SimulatedNode}
use eco_kube.Core.ArgMin.{Scores, arg_min}

pub record DecisionTrace (F : Type 0) : Type 0 where
  pub result_type : String
  pub result_id : String
  pub scheduler : String
  pub source : String
  pub run_id : String
  pub job_id : String
  pub site : String
  pub node : String
  pub etilde : F
  pub ctilde : F
  pub cost : F
  pub theta_e : F
  pub theta_c : F
  pub forecast_used : Bool
  pub fallback : Bool
  pub reject_reason : String
  pub queued_at : Time
  pub started_at : Time
  pub ended_at : Time

-- `trace` is the method of a TraceablePolicy, where the policy is one.
pub record Policy (F : Type 0) : Type 0 where
  pub name : String
  pub score : Job F → List (SimulatedNode F) → Result (Scores F)
  pub trace : Option (Job F → List (SimulatedNode F) → Scores F → String → Option (DecisionTrace F))

abbrev pub err_no_feasible : String
err_no_feasible = "core: no feasible node"

module _ {F : Type 0} ⦃d : Float64 F⦄ where
  abbrev chosen : Scores F → String × Bool → Result (String × Scores F)
  chosen scores (id, found) = if found then ok (id, scores) else err err_no_feasible

  unfoldable pub select_site_and_node :
      Policy F → Job F → List (SimulatedNode F) → Result (String × Scores F)
  select_site_and_node pol job nodes = elim (pol.score job nodes) [
    | err e ↦ err e
    | ok scores ↦ chosen scores (arg_min scores)
  ]
