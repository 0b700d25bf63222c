-- ===== src/Core/Node/Samples.antt =====
-- A node and a workload over the fixed-point numbers, and the theorems at them.
use eco_kube.Prelude.{ℕ, ◌≡◌, refl, true, [], arith}
use eco_kube.Prelude.Int.{pos}
use eco_kube.Prelude.Sample.{Fixed, fixed, fixed-IsRounded}
use eco_kube.Core.Types.{Workload, SimulatedNode}
use eco_kube.Core.Node.{new_node, gpu_ok, can_accept, reserve, release, next_release_after}
use eco_kube.Core.Node.Capacity.{IsSound, reserve-IsSound}
use eco_kube.Core.Node.Release.{IsNext, next_release_after-IsNext}

abbrev pub units : ℕ → Fixed
units n = fixed.dec n 0

abbrev pub small_job : Workload Fixed
small_job = record {
  id = "job";
  submit_time = pos 5;
  duration = pos 100;
  cpu = units 2;
  memory = units 4;
  tag = "";
  labels = [];
  class = "";
}

abbrev pub small_node : SimulatedNode Fixed
small_node = new_node "n1" (units 8) (units 16) (units 300)

-- After one reservation at instant 10.
abbrev pub busy_node : SimulatedNode Fixed
busy_node = reserve small_node small_job (pos 10)

pub small_node-IsSound : IsSound small_node
unfolding fixed new_node
small_node-IsSound = record {
  cpu_within = record { nonneg = refl; bounded = refl; finite = refl };
  memory_within = record { nonneg = refl; bounded = refl; finite = refl };
  amounts = tt;
}

accepted : can_accept small_node small_job ≡ true
unfolding fixed can_accept new_node gpu_ok
accepted = refl

reserve-IsSound_example : IsSound busy_node
unfolding fixed new_node reserve
reserve-IsSound_example =
    reserve-IsSound fixed-IsRounded small_node small_job (pos 10) small_node-IsSound (refl, refl)
      (refl, refl) accepted

next_release_after-IsNext_example :
    IsNext (pos 20) busy_node.reservations (next_release_after busy_node (pos 20))
unfolding fixed new_node reserve
next_release_after-IsNext_example = next_release_after-IsNext busy_node (pos 20) (omega arith)

restored : (release busy_node (pos 200)).available_cpu ≡ units 8
unfolding fixed new_node reserve release
restored = refl

still_running : next_release_after busy_node (pos 20) ≡ pos 110
unfolding fixed new_node reserve next_release_after
still_running = refl
