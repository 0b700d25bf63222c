-- ===== src/Controller/Samples.antt =====
-- A cluster of one view and a pod, and the theorems at them.
use eco_kube.Prelude.{
  ◌≡◌, refl, true, false, not, ◌||◌, Option, none, some, [], ◌∷◌, ok, String, All,
}
use eco_kube.Prelude.Int.{pos}
use eco_kube.Prelude.Text.{put, entry}
use eco_kube.Prelude.Float.{lt}
use eco_kube.Prelude.Sample.{Fixed, fixed, fixed-IsOrdered}
use eco_kube.Core.Types.{is_zero}
use eco_kube.Core.Node.{new_node, can_accept_job, gpu_ok}
use eco_kube.Core.Node.Samples.{small_node, units}
use eco_kube.Core.Policy.{Policy}
use eco_kube.Policies.{CarbonModel}
use eco_kube.Policies.Ecokube.{weighted_sum, eco_policy}
use eco_kube.Policies.Ecokube.Score.{default_config}
use eco_kube.Engine.Types.{Job, empty_trace}
use eco_kube.Engine.Samples.{engine_job, engine_node, engine_deps, no_scan}
use eco_kube.Controller.{
  NodeView, ClusterSnapshot, view_by_id, index_from, build_cluster_snapshot, job_to_core,
}
use eco_kube.Controller.Schedulers.{Formats, Scheduler, eco_schedule}
use eco_kube.Controller.Setup.{BindError, invalid, bind_pod}
use eco_kube.Controller.Pods.{Pod, pod_completion_time}
use eco_kube.Controller.Flow.{schedule_pod, follow_plan, bind_selected, effective}
use eco_kube.Controller.Gpu.{can_accept_job-job_to_core, eco_schedule_refused}
use eco_kube.Controller.Placement.{IsBound, schedule_pod-IsBound}

abbrev view : NodeView Fixed
view = record {
  snapshot = engine_node;
  sim = small_node;
  queue_seconds = units 0;
  ci_norm = units 0;
}

abbrev cluster : ClusterSnapshot Fixed
cluster = build_cluster_snapshot (view ∷ [])

abbrev pub pod : Pod Fixed
pod = record {
  uid = "u1";
  key = "ns/p1";
  node_name = "";
  scheduler_name = "";
  deleted = false;
  labels = [];
  annotations = [];
  created = pos 5;
  start_time = some (pos 7);
  init_containers = [];
  containers = [];
  statuses = [];
}

abbrev pub ended_pod : Pod Fixed
ended_pod = record pod {
  statuses =
      record {
        running = none;
        terminated = some (record { started_at = pos 7; finished_at = pos 9 });
        last_terminated = none;
      }
      ∷ [];
}

abbrev model : CarbonModel Fixed
model = record { energy_and_carbon = λ n w t. (units 1, units 1); intensity = λ n t. units 300 }

-- A scheduler that always decides for "n1".
abbrev first_node : Scheduler Fixed
first_node = record {
  name = "ecokube";
  schedule = λ job snap. record {
    decision = record { node_id = "n1"; scale = pos 1 };
    trace = empty_trace;
    defer_for = pos 0;
    error = none;
  };
}

abbrev binds : String → Option BindError
binds id = none

program : Unit {0}
unfolding build_cluster_snapshot index_from view_by_id put entry pod_completion_time schedule_pod
    follow_plan bind_selected bind_pod effective job_to_core can_accept_job gpu_ok new_node fixed
program = tt

found : view_by_id cluster "n1" ≡ some view
unfolding program
found = refl

running : is_zero (pod_completion_time pod) ≡ true
unfolding program
running = refl

gone : is_zero (pod_completion_time ended_pod) ≡ false
unfolding program
gone = refl

can_accept_job-job_to_core_example :
    can_accept_job small_node (job_to_core engine_job)
    ≡ not (lt small_node.available_cpu (units 2) || lt small_node.available_memory (units 4))
can_accept_job-job_to_core_example = can_accept_job-job_to_core small_node engine_job

bound :
    (schedule_pod model engine_deps first_node "" (pos 5) (ok cluster) binds pod).bound ≡ some "n1"
unfolding program
bound = refl

-- A binding that the API server finds invalid is reported as bound all the same.
refused_bound :
    (schedule_pod model engine_deps first_node ""
      (pos 5)
      (ok cluster)
      (λ id. some invalid)
      pod).bound
    ≡ some "n1"
unfolding program
refused_bound = refl

schedule_pod-IsBound_example : IsBound binds (effective first_node cluster) "n1"
schedule_pod-IsBound_example =
    schedule_pod-IsBound model engine_deps first_node "" (pos 5) cluster binds pod "n1" bound

-- No node has a hundred cores.
abbrev large_job : Job Fixed
large_job = record engine_job { cpu = units 100 }

abbrev formats : Formats Fixed
formats = record { scan = no_scan; deferred = λ x. ""; round = λ x. x }

too_large : can_accept_job small_node (job_to_core large_job) ≡ false
unfolding program
too_large = refl

refusals : All (λ n. can_accept_job n (job_to_core large_job) ≡ false) (small_node ∷ [])
unfolding program
refusals = (too_large, tt)

abbrev eco : Policy Fixed
eco = eco_policy (λ mode. mode) model weighted_sum default_config "ecokube"

eco_schedule_refused_example :
    ((eco_schedule formats eco engine_deps large_job cluster).error ≡ none)
    × ((eco_schedule formats eco engine_deps large_job cluster).decision.node_id ≡ "")
eco_schedule_refused_example =
    eco_schedule_refused fixed-IsOrdered formats (λ mode. mode) model default_config engine_deps
      large_job (view ∷ []) (λ e. cc e) refusals
