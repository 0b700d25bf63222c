-- ===== src/Core/Strategy/Samples.antt =====
-- Two clusters, and the theorems on MinMin and RoundRobin at them.
use eco_kube.Prelude.{
  ℕ, ◌≡◌, refl, true, none, some, List, [], ◌∷◌, String, ok, err, false, map, length, ◌<◌,
}
use eco_kube.Prelude.Int.{pos}
use eco_kube.Prelude.Sample.{Fixed, fixed}
use eco_kube.Prelude.Strings.{fields, front, has_prefix}
use eco_kube.Core.Node.Samples.{units}
use eco_kube.Core.Strategy.{
  Cluster, WorkloadTestbed, simulated, lead, lead_all, min_min, round_robin, round_robin_loop,
  ceiling, fcfs, energy_aware, max_min, ci_aware,
}
use eco_kube.Core.Strategy.Turns.{round_robin-Accepts}
use eco_kube.Core.Strategy.Remote.{RemoteCluster, get_metric_value, scan_metric, remote}
use eco_kube.Core.Strategy.Dispatch.{
  Log, select_cluster, dispatch_one, dispatch_with, dispatch_each, dispatch_all,
}
use eco_kube.Core.Strategy.Cheapest.{NoneBelow, min_min-NoneBelow, min_min-none}

abbrev site : String → ℕ → Cluster Fixed
site name bias =
    simulated (record {
      cluster_name = name;
      max_cpu = pos 8;
      energy_bias = units bias;
      sci_kwh = units 300;
    })

abbrev clusters : List (Cluster Fixed)
clusters = site "dear" 9 ∷ site "cheap" 3 ∷ []

abbrev work : WorkloadTestbed Fixed
work = record { id = "w"; cpu_requirement = pos 2; energy_priority = units 0 }

program : Unit {0}
unfolding simulated lead lead_all min_min round_robin round_robin_loop fixed
program = tt

cheapest : min_min clusters work ≡ some (site "cheap" 3)
unfolding program
cheapest = refl

turns : round_robin 1 clusters work ≡ (some (site "cheap" 3), 0)
unfolding program
turns = refl

min_min-NoneBelow_example :
    ((site "cheap" 3).can_accept work ≡ true)
    × NoneBelow work ((site "cheap" 3).estimate_energy_cost work) clusters
unfolding fixed
min_min-NoneBelow_example = min_min-NoneBelow clusters work (site "cheap" 3) refl cheapest

abbrev dear : List (Cluster Fixed)
dear = site "dear" 1_000_000_000 ∷ []

too_dear : NoneBelow work ceiling dear
unfolding program
too_dear = ((λ _. refl), tt)

min_min-none_example : min_min dear work ≡ none
min_min-none_example = min_min-none dear work too_dear

round_robin-Accepts_example :
    (x : Cluster Fixed) × (next : ℕ) × (round_robin 3 clusters work ≡ (some x, next))
    × (x.can_accept work ≡ true)
    × (next < length clusters)
unfolding simulated
round_robin-Accepts_example = round_robin-Accepts 3 clusters work 0 (site "dear" 9) refl refl

dispatched : Log Fixed
unfolding program fcfs energy_aware max_min ci_aware select_cluster dispatch_one dispatch_with
    dispatch_each dispatch_all
dispatched =
    dispatch_all (λ n. pos n) clusters (work ∷ work ∷ []) (record { counter = 0; decisions = [] })

-- Ten decisions: CIaware, with no remote cluster to ask, selects none. RoundRobin takes turns.
all_selected :
    map (λ x. x.selected_cluster) dispatched.decisions
    ≡ "dear" ∷ "dear" ∷ "dear" ∷ "cheap" ∷ "cheap" ∷ "cheap" ∷ "dear" ∷ "dear" ∷ "cheap" ∷ "cheap"
      ∷ []
unfolding dispatched
all_selected = refl

abbrev body : List String
body = "# HELP compute_node_cpu_usage of the node" ∷ "memory 10" ∷ "compute_node_cpu_usage  40" ∷ []

metrics : Unit {0}
unfolding fields front has_prefix scan_metric get_metric_value remote fixed
metrics = tt

cpu_usage : get_metric_value {F = Fixed} (ok body) "compute_node_cpu_usage" ≡ ok (units 40)
unfolding metrics
cpu_usage = refl

-- A metric with a longer name that stands first is taken for the one that is asked for.
other_metric :
    get_metric_value {F = Fixed}
      (ok ("compute_node_cpu_usage_total 95" ∷ body))
      "compute_node_cpu_usage"
    ≡ ok (units 95)
unfolding metrics
other_metric = refl

far : RemoteCluster
far = record { name_key = "far"; metrics_url = ""; submit_url = "" }

unreachable : (remote {F = Fixed} far (err "timeout")).can_accept work ≡ false
unfolding metrics
unreachable = refl

remote_selected :
    min_min (site "dear" 9 ∷ remote far (ok body) ∷ []) work ≡ some (remote far (ok body))
unfolding metrics program
remote_selected = refl
