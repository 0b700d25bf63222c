-- ===== src/Policies/Samples.antt =====
-- One node, one job that fits it and one that does not, and the theorems at them.
use eco_kube.Prelude.{ℕ, ◌≡◌, refl, true, false, none, List, [], ◌∷◌, map, ok, err, String}
use eco_kube.Prelude.Int.{pos}
use eco_kube.Prelude.Sample.{Fixed, fixed, fixed-IsOrdered}
use eco_kube.Core.Types.{Job, SimulatedNode}
use eco_kube.Core.Node.{new_node, can_accept, can_accept_job, gpu_ok}
use eco_kube.Core.Node.Samples.{small_node, units}
use eco_kube.Core.ArgMin.{Scores}
use eco_kube.Core.Policy.{select_site_and_node}
use eco_kube.Policies.{CarbonModel, sentinel, pick_node_id, plain_workload, policy_now, gather_now}
use eco_kube.Policies.Scored.{IsOffer}
use eco_kube.Policies.Offers.{
  k8s_scores-IsOffer, carbon_scores-IsOffer, keids_policy-IsOffer, select_refused,
}
use eco_kube.Policies.Candidate.{candidate, gather}
use eco_kube.Policies.K8sched.{k8s_scores, k8s_policy}
use eco_kube.Policies.Carbonscaler.{carbon_scores}
use eco_kube.Policies.Keids.{default_weights, keids_scores, keids_policy}
use eco_kube.Policies.Ecokube.{weighted_sum, score_mode, eco_score, eco_policy}
use eco_kube.Policies.Ecokube.Metrics.{Metric, no_signals, compute_candidate_metrics}
use eco_kube.Policies.Ecokube.Score.{default_config, score_epsilon}
use eco_kube.Policies.Ecokube.Offers.{score_epsilon-IsOffer}
use eco_kube.Policies.Ecokube.Choice.{eco_policy-IsOffer}

abbrev asks : ℕ → Job Fixed
asks n = record {
  id = "job";
  cpu_req = units n;
  mem_req = units 1;
  deadline_ms = pos 0;
  tags = [];
  estimated_duration = units 60;
  labels = [];
  submit_at = pos 5;
  class = "";
}

abbrev nodes : List (SimulatedNode Fixed)
nodes = small_node ∷ []

abbrev flat_model : CarbonModel Fixed
flat_model = record {
  energy_and_carbon = λ n w t. (units 1, units 1);
  intensity = λ n t. units 300;
}

program : Unit {0}
unfolding fixed new_node can_accept can_accept_job gpu_ok plain_workload keids_policy gather
    k8s_policy eco_policy eco_score compute_candidate_metrics score_mode
program = tt

k8s_scores-IsOffer_example :
    IsOffer
      (λ n. n.name)
      (λ n. can_accept n (plain_workload (asks 2)))
      nodes
      (k8s_scores (asks 2) nodes)
k8s_scores-IsOffer_example = k8s_scores-IsOffer (asks 2) nodes

carbon_scores-IsOffer_example :
    IsOffer
      (λ n. n.name)
      (λ n. can_accept n (plain_workload (asks 2)))
      nodes
      (carbon_scores flat_model (units 1) (asks 2) nodes)
carbon_scores-IsOffer_example = carbon_scores-IsOffer flat_model (units 1) (asks 2) nodes

abbrev keids_result : Scores Fixed
keids_result =
    keids_scores default_weights
      (map (candidate flat_model (asks 2) (gather_now (policy_now none (pos 5)) (pos 5))) nodes)

keids_run : (keids_policy flat_model default_weights none).score (asks 2) nodes ≡ ok keids_result
unfolding program
keids_run = refl

keids_policy-IsOffer_example :
    IsOffer pick_node_id (λ n. can_accept_job n (asks 2)) nodes keids_result
keids_policy-IsOffer_example =
    keids_policy-IsOffer flat_model default_weights none (asks 2) nodes keids_result keids_run

abbrev unquoted : String → String
unquoted s = s

abbrev eco_result : Scores Fixed
eco_result = elim (eco_score unquoted flat_model weighted_sum default_config (asks 2) nodes) [
  | ok m ↦ m
  | err _ ↦ []
]

eco_run :
    (eco_policy unquoted flat_model weighted_sum default_config "").score (asks 2) nodes
    ≡ ok eco_result
unfolding program
eco_run = refl

eco_policy-IsOffer_example : IsOffer pick_node_id (λ n. can_accept_job n (asks 2)) nodes eco_result
eco_policy-IsOffer_example =
    eco_policy-IsOffer unquoted flat_model weighted_sum default_config "" (asks 2) nodes eco_result
      eco_run

abbrev items : List (Metric Fixed)
items =
    record { id = "n1"; feasible = true; raw = no_signals; hat = no_signals }
    ∷ record { id = "n2"; feasible = false; raw = no_signals; hat = no_signals }
    ∷ []

score_epsilon-IsOffer_example :
    IsOffer (λ c. c.id) (λ c. c.feasible) items (score_epsilon default_config items)
score_epsilon-IsOffer_example = score_epsilon-IsOffer default_config items

too_large : can_accept small_node (plain_workload (asks 100)) ≡ false
unfolding program
too_large = refl

k8s_run : k8s_policy.score (asks 100) nodes ≡ ok (k8s_scores (asks 100) nodes)
unfolding program
k8s_run = refl

select_refused_example : select_site_and_node k8s_policy (asks 100) nodes ≡ ok ("", sentinel)
select_refused_example =
    select_refused fixed-IsOrdered k8s_policy (asks 100) nodes (k8s_scores (asks 100) nodes)
      (λ n. n.name) (λ n. can_accept n (plain_workload (asks 100))) k8s_run
      (k8s_scores-IsOffer (asks 100) nodes) (too_large, tt)
