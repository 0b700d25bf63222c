-- ===== src/Core/Candidates/Samples.antt =====
-- The candidates among two nodes, one of them too small.
use eco_kube.Prelude.{◌≡◌, ◌≢◌, refl, false, none, List, [], ◌∷◌, All, keep_if}
use eco_kube.Prelude.Int.{pos, quot, remainder}
use eco_kube.Prelude.Text.{entry}
use eco_kube.Prelude.Sample.{Fixed, fixed}
use eco_kube.Core.Types.{Job, SimulatedNode}
use eco_kube.Core.Node.{new_node, job_view}
use eco_kube.Core.Node.Samples.{units, small_job, small_node}
use eco_kube.Core.Candidates.{default_hooks, build_candidate_set, eval_cost}
use eco_kube.Core.Candidates.Filter.{is_feasible, build_candidate_set-keep_if}

abbrev candidate_job : Job Fixed
unfolding job_view
candidate_job = job_view small_job

abbrev tiny_node : SimulatedNode Fixed
unfolding new_node
tiny_node = record (new_node "n2" (units 1) (units 16) (units 300)) { id = "tiny" }

abbrev two_nodes : List (SimulatedNode Fixed)
two_nodes = tiny_node ∷ small_node ∷ []

build_candidate_set-keep_if_example :
    ((build_candidate_set default_hooks candidate_job two_nodes (units 0) (units 1)).0
      ≡ keep_if (is_feasible default_hooks candidate_job (units 0) (units 1)) two_nodes)
    × All
        (λ n.
          is_feasible default_hooks candidate_job (units 0) (units 1) n ≡ false
          → entry
              (build_candidate_set default_hooks candidate_job two_nodes (units 0) (units 1)).1
              n.id
            ≢ none)
        two_nodes
build_candidate_set-keep_if_example =
    build_candidate_set-keep_if default_hooks candidate_job two_nodes (units 0) (units 1)

-- An hour at 72 W: 0.072 kWh, and 0.021 kg at 300 g/kWh.
cost_runs :
    (eval_cost candidate_job small_node
      (pos 3_600_000_000_000)
      (record { e_ref = units 1; c_ref = units 1 })
      (record { e = units 1; c = units 1 })
      none).0
    ≡ fixed.dec 72 3
unfolding eval_cost fixed new_node quot remainder
cost_runs = refl
