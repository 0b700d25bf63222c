-- ===== src/Core/Sim/Samples.antt =====
-- A simulator with one node and one job over the fixed-point numbers, and the theorems at it.
use eco_kube.Prelude.{◌+◌, ◌≡◌, refl, false, List, [], ◌∷◌, none, some, arith, inl, All, length}
use eco_kube.Prelude.Int.{pos, ◌≤ℤ◌, quot}
use eco_kube.Prelude.Sample.{Fixed, fixed, fixed-IsRounded}
use eco_kube.Core.Types.{Workload, sub_time}
use eco_kube.Core.Node.{new_node, gpu_ok, can_accept, reserve, release, next_release_after}
use eco_kube.Core.Node.Capacity.{IsSound}
use eco_kube.Core.Node.Samples.{small_job, small_node, small_node-IsSound, units}
use eco_kube.Prelude.Text.{put}
use eco_kube.Core.ArgMin.{arg_min, improves}
use eco_kube.Core.Policy.{select_site_and_node}
use eco_kube.Policies.{put_all, plain_workload}
use eco_kube.Policies.K8sched.{k8s_policy, k8s_scores, score_node, used}
use eco_kube.Core.Sim.{
  BaseSim, Running, log_entry, place_on, place_selected, visit, visit_all, release_all, enqueue,
  idle_clock, next_clock, round, run_rounds, run,
}
use eco_kube.Core.Sim.Select.{
  Selector, select_node, by_policy_or_load, by_policy, job_of, find_named, least_loaded, max_float,
}
use eco_kube.Core.Sim.Conservation.{logged, waiting, logged-run}
use eco_kube.Core.Sim.Timeline.{IsTimely, run-IsTimely}
use eco_kube.Core.Sim.Capacity.{Accepts, select_node-Accepts, run-IsSound}
use eco_kube.Core.Sim.Starvation.{run_starved}
use eco_kube.Core.Node.Whole.{IsExact}
use eco_kube.Core.Node.Holds.{IsIdle}
use eco_kube.Core.Sim.Steps.{IsServed}
use eco_kube.Core.Sim.Progress.{run_ends}

abbrev plain : Selector Fixed
plain = record { select = none; policy = none; traced = false }

abbrev idle_sim : BaseSim Fixed
idle_sim = record {
  clock = pos 0;
  nodes = small_node ∷ [];
  batch = pos 1;
  pending = small_job ∷ [];
  logs_buf = [];
  selector = plain;
  ci_calc = none;
  traces = [];
}

abbrev unsorted : List (Workload Fixed) → List (Workload Fixed)
unsorted ws = ws

abbrev started : Running Fixed
started = record { sim = idle_sim; arrivals = small_job ∷ []; queue = [] }

program : Unit {0}
unfolding fixed run run_rounds round release_all enqueue idle_clock visit_all visit select_node
    by_policy_or_load least_loaded max_float place_selected place_on log_entry next_clock reserve
    release can_accept gpu_ok new_node next_release_after sub_time quot
program = tt

abbrev ended : BaseSim Fixed
ended = (round started).sim

run-ended : run unsorted 1 idle_sim ≡ some ended
unfolding program
run-ended = refl

one_entry : length ended.logs_buf ≡ 1
unfolding program
one_entry = refl

logged-run_example :
    logged "job" ended.logs_buf ≡ logged "job" idle_sim.logs_buf + waiting "job" (small_job ∷ [])
logged-run_example = logged-run unsorted 1 idle_sim (λ k ws. refl) run-ended "job"

run-IsTimely_example : (pos 0 ≤ℤ ended.clock) × All (IsTimely ended.clock) ended.logs_buf
run-IsTimely_example = run-IsTimely unsorted 1 idle_sim (omega arith) refl run-ended

select_node-Accepts_example : Accepts small_job (small_node ∷ []) 0
unfolding program
select_node-Accepts_example =
    select_node-Accepts plain (pos 5) small_job (small_node ∷ []) 0 refl selected
  where
    selected : (select_node plain (pos 5) small_job (small_node ∷ [])).0 ≡ some 0
    selected = refl

run-IsSound_example : All IsSound ended.nodes
unfolding fixed
run-IsSound_example =
    run-IsSound fixed-IsRounded unsorted 1 idle_sim refl (small_node-IsSound, tt)
      (((refl, refl), (refl, refl)), tt) run-ended

abbrev gpu_job : Workload Fixed
gpu_job = record small_job { labels = ("requires_gpu", "true") ∷ [] }

run_starved_example : run unsorted 1000 (record idle_sim { pending = gpu_job ∷ [] }) ≡ none
unfolding new_node gpu_ok
run_starved_example =
    run_starved (("requires_gpu", "true") ∷ []) unsorted 1000
      (record idle_sim { pending = gpu_job ∷ [] }) refl (refl, tt) (inl refl)

-- Two workloads that fill the node one after the other, under the k8s policy.
abbrev half_job : Workload Fixed
half_job = record small_job { cpu = units 5; memory = units 4; duration = pos 40 }

abbrev busy_sim : BaseSim Fixed
busy_sim = record idle_sim {
  pending = half_job ∷ half_job ∷ [];
  selector = record plain { policy = some k8s_policy };
}

small_node-IsIdle : IsIdle 1000 small_node
unfolding fixed new_node
small_node-IsIdle = record {
  cpus = 8;
  memory = 16;
  cpu_whole = refl;
  memory_whole = refl;
  all_cpu = refl;
  all_memory = refl;
  cpus_small = omega arith;
  memory_small = omega arith;
  free = refl;
}

fixed-IsExact : IsExact Fixed 1000
unfolding fixed
fixed-IsExact = record {
  lt_whole = λ a b h k. ground arith;
  sub_whole = λ a b h k. ground arith;
  add_whole = λ a b h. ground arith;
  finite = λ a h. ground arith;
}

half_job-IsServed : IsServed 1000 fixed-IsExact busy_sim.selector refl busy_sim.nodes half_job
unfolding program k8s_policy k8s_scores score_node put_all select_site_and_node arg_min by_policy
    plain_workload job_of put find_named improves used
half_job-IsServed = (
  record {
    x = 5;
    y = 4;
    cpu_asked = refl;
    memory_asked = refl;
    cpu_small = omega arith;
    memory_small = omega arith;
  },
  λ clock. (0, refl),
)

run_ends_example : (end : BaseSim Fixed) × (run unsorted 4 busy_sim ≡ some end)
run_ends_example =
    run_ends 1000 fixed-IsExact unsorted busy_sim refl (omega arith) refl (small_node-IsIdle, tt)
      (half_job-IsServed, (half_job-IsServed, tt))
