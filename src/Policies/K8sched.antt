-- ===== src/Policies/K8sched.antt =====
-- policies/k8sched: the fraction of a node that is in use.
use eco_kube.Prelude.{Option, none, some, List, [], ℕ, String, ok, if◌then◌else◌}
use eco_kube.Prelude.Float.{Float64, lt, nought, ◌⊕◌, ◌⊖◌, ◌⊘◌}
use eco_kube.Core.Types.{Workload, Job, SimulatedNode}
use eco_kube.Core.Node.{can_accept}
use eco_kube.Core.ArgMin.{Scores}
use eco_kube.Core.Policy.{Policy}
use eco_kube.Policies.{put_all, or_sentinel, plain_workload}

module _ {F : Type 0} ⦃d : Float64 F⦄ where
  abbrev used_part : F → F → F → F
  used_part used total available =
      if lt nought total then used ⊕ (total ⊖ available) ⊘ total else used

  unfoldable pub used : SimulatedNode F → F
  used n =
      used_part (used_part nought n.total_cpu n.available_cpu) n.total_memory n.available_memory

  unfoldable pub score_node : Workload F → ℕ → SimulatedNode F → Option (String × F)
  score_node w i n = if can_accept n w then some (n.name, used n) else none

  unfoldable pub k8s_scores : Job F → List (SimulatedNode F) → Scores F
  unfolding put_all score_node
  k8s_scores job nodes = or_sentinel (put_all (score_node (plain_workload job)) 0 nodes [])

  unfoldable pub k8s_policy : Policy F
  k8s_policy = record { name = "k8s"; score = λ job nodes. ok (k8s_scores job nodes); trace = none }
