-- ===== src/Controller.antt =====
-- hetsched/controller: the Kubernetes controller. The view of the cluster is here; the three
-- schedulers are in Controller/Schedulers, the pods in Controller/Pods, and what the controller
-- does with a pod in Controller/Flow and Controller/States.
pub mod Schedulers
pub mod Pods
pub mod States
pub mod Setup
pub mod Snapshot
pub mod Listed
pub mod Flow
pub mod Lifecycle
pub mod Phases
pub mod Cluster
pub mod Observation
pub mod Placement
pub mod Gpu
pub mod Samples
pub mod ClusterSamples
use eco_kube.Prelude.{
  ℕ, zero, suc, Bool, true, false, Option, none, some, List, [], ◌∷◌, map, String, get_elem?,
  if◌then◌else◌,
}
use eco_kube.Prelude.Int.{pos}
use eco_kube.Prelude.Text.{
  StringMap, put, entry, index, str_eq, one_of, codes, to_lower, trim_space,
}
use eco_kube.Prelude.Float.{Float64, lt, le, nought, one, ◌⊖◌, ◌⊘◌}
use eco_kube.Core.Types as Core
use eco_kube.Core.Types.{Time, Site, SimulatedNode}
use eco_kube.Core.Node.{current_ci_norm}
use eco_kube.Engine.Types.{Job, SiteInfo, NodeSnapshot}

pub record NodeView (F : Type 0) : Type 0 where
  pub snapshot : NodeSnapshot F
  pub sim : SimulatedNode F
  pub queue_seconds : F
  pub ci_norm : F

pub record ClusterSnapshot (F : Type 0) : Type 0 where
  pub views : List (NodeView F)
  pub node_snapshots : List (NodeSnapshot F)
  pub sim_nodes : List (SimulatedNode F)
  pub places : StringMap ℕ

module _ {F : Type 0} where
  unfoldable pub view_by_id : ClusterSnapshot F → String → Option (NodeView F)
  unfolding entry
  view_by_id c id = elim (entry c.places id) [ none ↦ none | some i ↦ get_elem? c.views i ]

  -- The loop of `ensureIndexes`, from place `i` on.
  unfoldable pub index_from : ℕ → List (NodeView F) → StringMap ℕ → StringMap ℕ
  unfolding put
  index_from i [] m = m
  index_from i (v ∷ vs) m = index_from (suc i) vs (put m v.snapshot.id i)

  unfoldable pub build_cluster_snapshot : List (NodeView F) → ClusterSnapshot F
  unfolding index_from
  build_cluster_snapshot views = record {
    views = views;
    node_snapshots = map (λ v. v.snapshot) views;
    sim_nodes = map (λ v. v.sim) views;
    places = index_from 0 views [];
  }

-- `defaultString`
abbrev pub default_string : String → String → String
default_string v fallback = if str_eq v "" then fallback else v

-- The policy that a name stands for; `lower` is the name in lower case, for an unknown one.
unfoldable pub normalize_policy : String → String → String
unfolding one_of to_lower trim_space
normalize_policy lower s =
    let v = to_lower (trim_space (codes s)) in
    if one_of v ("" ∷ "ecokube" ∷ [])
    then "ecokube"
    else if one_of v ("carbonscaler" ∷ "carbon" ∷ "carbon-scaler" ∷ [])
    then "carbonscaler"
    else if one_of v ("k8s" ∷ "kubernetes" ∷ "default" ∷ "default-scheduler" ∷ [])
    then "k8s"
    else lower

module _ {F : Type 0} ⦃d : Float64 F⦄ where
  -- The job as the policies see it: its tags, but no labels.
  unfoldable pub job_to_core : Job F → Core.Job F
  job_to_core job = record {
    id = job.id;
    cpu_req = job.cpu;
    mem_req = job.memory_gb;
    deadline_ms = pos 0;
    tags = job.tags;
    estimated_duration = job.estimated_duration;
    labels = [];
    submit_at = job.submit_time;
    class = job.class;
  }

  unfoldable pub neutralise_site : SiteInfo F → SiteInfo F
  neutralise_site info = record {
    name = info.name;
    region = "neutral";
    pue = d.dec 13 1;
    k = d.dec 10 1;
    carbon_intensity = d.dec 4500 1;
  }

  -- One view of a neutralised snapshot.
  unfoldable pub neutral_view : NodeView F → NodeView F
  unfolding neutralise_site put
  neutral_view v =
      let site = neutralise_site v.snapshot.site in
      record {
        snapshot = record (v.snapshot) {
          site = site;
          metrics = put v.snapshot.metrics "ci_norm" (d.dec 5 1);
        };
        sim = record (v.sim) {
          site = some (record {
            id = site.name;
            pue = site.pue;
            k = site.k;
            ci_region = site.region;
            carbon_intensity = site.carbon_intensity;
          });
          site_id = site.name;
        };
        queue_seconds = v.queue_seconds;
        ci_norm = d.dec 5 1;
      }

  unfoldable pub neutralise_snapshot : ClusterSnapshot F → ClusterSnapshot F
  unfolding neutral_view index_from
  neutralise_snapshot c =
      let views = map neutral_view c.views in
      record {
        views = views;
        node_snapshots = map (λ v. v.snapshot) views;
        sim_nodes = map (λ v. v.sim) views;
        places = index_from 0 views [];
      }

  abbrev unit_clamp : F → F
  unit_clamp v = if lt v nought then nought else if lt one v then one else v

  unfoldable pub cinorm_for_labels : StringMap String → F → F
  unfolding index
  cinorm_for_labels labels fallback =
      let profile = index labels "ci_profile" in
      let v = (fallback ⊖ d.dec 500 1) ⊘ d.dec 6500 1 in
      let v' = if lt v nought then nought else v in
      if str_eq profile "low"
      then d.dec 2 1
      else if str_eq profile "medium"
      then d.dec 5 1
      else if str_eq profile "high"
      then d.dec 8 1
      else if lt nought fallback
      then (if lt one v' then one else v')
      else d.dec 5 1

  -- `intensity` is the estimate of `EstimateCarbonIntensity` for the node.
  unfoldable pub cinorm_for_node : SimulatedNode F → F → F
  unfolding current_ci_norm cinorm_for_labels
  cinorm_for_node n intensity =
      let norm = current_ci_norm n in
      unit_clamp (if le norm nought then cinorm_for_labels n.labels intensity else norm)
