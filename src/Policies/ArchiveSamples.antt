-- ===== src/Policies/ArchiveSamples.antt =====
-- Runs of the archived policies on small nodes.
use eco_kube.Prelude.{◌≡◌, refl, true, none, List, [], ◌∷◌, String}
use eco_kube.Prelude.Int.{pos}
use eco_kube.Prelude.Text.{put, entry}
use eco_kube.Prelude.Sample.{Fixed, fixed}
use eco_kube.Core.Types.{Job}
use eco_kube.Core.ArgMin.{arg_min, improves}
use eco_kube.Core.Node.{new_node, can_accept, gpu_ok}
use eco_kube.Core.Node.Samples.{small_node, units}
use eco_kube.Policies.{CarbonModel, pick_node_id, put_all, sentinel}
use eco_kube.Policies.Archive.{Hetsched, hetsched_scores, hetsched_score, node_utilisation}
use eco_kube.Policies.Metered.{
  MeteredNode, EnergyVis, metric, energy_vis_score, carbon_scaler_score, metered_scores,
  metered_select,
}

abbrev metered : String → Fixed → MeteredNode Fixed
metered name watts = record {
  id = name;
  cpu_cap = units 8;
  mem_cap = units 16;
  metrics = ("node_power_w", watts) ∷ ("cpu_used", units 4) ∷ ("mem_used", units 8) ∷ [];
  labels = [];
  site_id = "";
  site = none;
}

abbrev watched : List (MeteredNode Fixed)
watched = metered "a" (units 300) ∷ metered "b" (units 200) ∷ []

abbrev by_power : EnergyVis Fixed
by_power = record { power = units 1; sci = units 1; util = units 10 }

least_power : metered_select (energy_vis_score by_power) watched ≡ ("b", true)
unfolding fixed metered_select metered_scores put_all energy_vis_score metric arg_min put improves
    entry
least_power = refl

-- A missing metric counts as zero.
missing_metric :
    metered_scores (carbon_scaler_score (record { lambda = units 1 })) watched
    ≡ ("a", units 1) ∷ ("b", units 1) ∷ []
unfolding fixed metered_scores put_all carbon_scaler_score metric put entry
missing_metric = refl

abbrev asks : Fixed → Job Fixed
asks cpu = record {
  id = "job";
  cpu_req = cpu;
  mem_req = units 1;
  deadline_ms = pos 0;
  tags = [];
  estimated_duration = units 60;
  labels = [];
  submit_at = pos 5;
  class = "";
}

abbrev model : CarbonModel Fixed
model = record { energy_and_carbon = λ n w t. (units 1, units 2); intensity = λ n t. units 300 }

abbrev hetsched : Hetsched Fixed
hetsched = record {
  weights = record { carbon = units 3; wait = units 1; util = units 1 };
  alpha_mass = units 1;
  lookahead = pos 0;
}

-- No queue and no use: three times the carbon of two kilograms in grams.
idle_node :
    hetsched_scores model hetsched (asks (units 2)) (small_node ∷ []) ≡ ("n1", units 6000) ∷ []
unfolding fixed hetsched_scores hetsched_score put_all put can_accept gpu_ok new_node
    node_utilisation pick_node_id
idle_node = refl

no_room : hetsched_scores model hetsched (asks (units 100)) (small_node ∷ []) ≡ sentinel
unfolding fixed hetsched_scores hetsched_score put_all can_accept gpu_ok new_node
no_room = refl
