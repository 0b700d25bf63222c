-- ===== src/Engine/Samples.antt =====
-- A cluster of one node, and the decision for a job on it.
use eco_kube.Prelude.{◌≡◌, refl, Option, none, some, [], ◌∷◌, String}
use eco_kube.Prelude.Int.{pos}
use eco_kube.Prelude.Text.{put, entry, index}
use eco_kube.Prelude.Sift.{sift}
use eco_kube.Prelude.Sample.{Fixed, fixed, fixed-IsOrdered}
use eco_kube.Core.ArgMin.{Scores, arg_min}
use eco_kube.Core.Node.Samples.{units}
use eco_kube.Engine.Types.{Job, NodeSnapshot, Deps}
use eco_kube.Engine.{
  can_accept, estimate_egress_mb, reject_reason, build_candidate_set, score_loop, score_nodes,
  decide, schedule, arg_min_stable, sort_kv, insert_kv, kv_less,
}
use eco_kube.Engine.ArgMin.{arg_min_stable-arg_min}
use eco_kube.Engine.Choice.{IsCandidate, schedule-IsCandidate}

abbrev pub engine_job : Job Fixed
engine_job = record {
  id = "job";
  cpu = units 2;
  memory_gb = units 4;
  deadline = pos 0;
  profile = "";
  tags = [];
  estimated_duration = units 60;
  submit_time = pos 5;
  slack_seconds = units 0;
  class = "";
}

abbrev pub engine_node : NodeSnapshot Fixed
engine_node = record {
  id = "n1";
  site = record {
    name = "s1";
    region = "r";
    pue = units 1;
    k = units 1;
    carbon_intensity = units 300;
  };
  available_cpu = units 8;
  available_gb = units 16;
  labels = [];
  metrics = [];
}

abbrev pub engine_deps : Deps Fixed
engine_deps = record {
  ci = none;
  theta = record {
    theta_e = units 1;
    theta_c = units 1;
    lookback = pos 0;
    cadence = pos 0;
    horizon = pos 7_200_000_000_000;
    alpha = units 0;
    egress_cap_mb = units 500;
    e_ref = units 10;
    c_ref = units 5;
    forecast_base_url = "";
  };
  refs = record { e_ref = units 10; c_ref = units 5 };
  weights = record { e = units 1; c = units 1 };
}

abbrev pub no_scan : String → Option Fixed
no_scan s = none

scheduled : (schedule no_scan engine_deps engine_job (engine_node ∷ [])).error ≡ none
unfolding schedule score_nodes build_candidate_set sift reject_reason can_accept estimate_egress_mb
    index score_loop put decide arg_min_stable sort_kv insert_kv kv_less entry fixed
scheduled = refl

schedule-IsCandidate_example :
    IsCandidate engine_job engine_deps
      (engine_node ∷ [])
      (schedule no_scan engine_deps engine_job (engine_node ∷ [])).decision.node_id
schedule-IsCandidate_example =
    schedule-IsCandidate no_scan engine_deps engine_job (engine_node ∷ []) scheduled

abbrev two_scores : Scores Fixed
two_scores = ("b", units 2) ∷ ("a", units 1) ∷ []

arg_min_stable-arg_min_example : arg_min_stable two_scores ≡ some ((arg_min two_scores).0)
unfolding fixed
arg_min_stable-arg_min_example =
    arg_min_stable-arg_min fixed-IsOrdered two_scores (λ e. cc e) ((λ e. cc e), ((λ e. cc e), tt))
      (refl, (refl, tt))
