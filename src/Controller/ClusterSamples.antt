-- ===== src/Controller/ClusterSamples.antt =====
-- Events of pods and lists of nodes, and the theorems at them.
use eco_kube.Prelude.{◌≡◌, refl, ◌≤◌, none, some, List, [], ◌∷◌, Result, ok, err, All, length}
use eco_kube.Prelude.Int.{pos}
use eco_kube.Prelude.Sample.{Fixed, fixed, fixed-IsOrdered}
use eco_kube.Core.Node.Samples.{units}
use eco_kube.Controller.{ClusterSnapshot}
use eco_kube.Controller.Pods.{Pod, Quantity, Container}
use eco_kube.Controller.Samples.{pod}
use eco_kube.Controller.Lifecycle.{Event, pod_seen, pod_deleted, tombstone, Watch, handle_all}
use eco_kube.Controller.Phases.{phase_in, last_phase, signs_of, handle_all-last_phase}
use eco_kube.Controller.Setup.{bind_pod, already_exists}
use eco_kube.Controller.Snapshot.{Sites, KubeNode, ListedPod, snapshot}
use eco_kube.Controller.Listed.{IsListed, snapshot-IsListed}

abbrev nothing_seen : Watch Fixed
nothing_seen = record { states = []; queued = []; written = [] }

abbrev other_pod : Pod Fixed
other_pod = record pod { uid = "u2" }

abbrev events : List (Event Fixed)
events = pod_seen pod ∷ pod_seen other_pod ∷ pod_deleted other_pod ∷ tombstone pod ∷ []

handle_all-last_phase_example :
    phase_in (handle_all "ecokube" nothing_seen events).states "u1"
    ≡ last_phase (phase_in nothing_seen.states "u1") (signs_of "u1" events)
handle_all-last_phase_example = handle_all-last_phase "ecokube" nothing_seen events "u1"

abbrev quantity : Fixed → Quantity Fixed
quantity f = record {
  milli = pos 0;
  value = pos 2_147_483_648;
  as_int64 = some (pos 4);
  approximate = f;
}

abbrev kube_node : KubeNode Fixed
kube_node = record {
  name = "n1";
  labels = ("site", "FR") ∷ [];
  allocatable = record { cpu = some (quantity (units 4)); memory = some (quantity (units 4)) };
}

abbrev stray_node : KubeNode Fixed
stray_node = record kube_node { name = "n2"; labels = [] }

abbrev sites : Sites Fixed
sites = record {
  sites = ("FR", record { pue = units 1; k = units 1; region = "fr"; ci = units 100 }) ∷ [];
  node_cap = pos 5;
}

abbrev hungry : Container Fixed
hungry = record {
  requests = record { cpu = some (quantity (units 4)); memory = none };
  limits = record { cpu = none; memory = none };
}

abbrev pods : List (ListedPod Fixed)
pods =
    record {
      phase = "Running";
      pod = record pod { node_name = "n1"; containers = hungry ∷ hungry ∷ [] };
    }
    ∷ []

abbrev taken : Result (ClusterSnapshot Fixed)
taken = snapshot (λ n t. units 300) (pos 6) sites (ok pods) (ok (kube_node ∷ stray_node ∷ []))

abbrev cluster_in : Result (ClusterSnapshot Fixed) → ClusterSnapshot Fixed
cluster_in r = elim r [
  | err _ ↦ record { views = []; node_snapshots = []; sim_nodes = []; places = [] }
  | ok c ↦ c
]

taken-ok : taken ≡ ok (cluster_in taken)
unfolding snapshot
taken-ok = refl

-- More is in use than there is, so nothing is free.
nothing_free :
    (elim (cluster_in taken).views [ [] ↦ some (units 9) | v ∷ _ ↦ some v.snapshot.available_cpu ])
    ≡ some (units 0)
unfolding snapshot fixed
nothing_free = refl

snapshot-IsListed_example :
    All (IsListed sites.sites (kube_node ∷ stray_node ∷ [])) (cluster_in taken).views
    × (length (cluster_in taken).views ≤ 5)
snapshot-IsListed_example =
    snapshot-IsListed fixed-IsOrdered (λ n t. units 300) (pos 6) sites pods
      (kube_node ∷ stray_node ∷ []) (cluster_in taken) taken-ok

bind_runs : bind_pod (λ n. some already_exists) "n1" ≡ none
unfolding bind_pod
bind_runs = refl
