-- ===== src/Policies/Archive.antt =====
-- policies/archive: the hetsched baseline and the policy that asks the engine. No program of the
-- repository uses them.
use eco_kube.Prelude.{
  ℕ, ◌*◌, not, ◌&&◌, ◌||◌, Option, none, some, List, [], ◌∷◌, map, String, Result, ok,
  if◌then◌else◌,
}
use eco_kube.Prelude.Int.{pos, ltb_ℤ, ◌+ℤ◌}
use eco_kube.Prelude.Text.{StringMap, entry, str_eq}
use eco_kube.Prelude.Float.{Float64, lt, le, eq, nought, one, ◌⊕◌, ◌⊖◌, ◌⊗◌, ◌⊘◌}
use eco_kube.Core.Types as Core
use eco_kube.Core.Types.{
  Time, Duration, second, is_zero, unix_epoch, of_seconds, Workload, SimulatedNode,
}
use eco_kube.Core.Node.{can_accept}
use eco_kube.Core.ArgMin.{Scores}
use eco_kube.Core.Policy.{Policy, DecisionTrace}
use eco_kube.Engine.Types.{Job, NodeSnapshot, SiteInfo, Deps, Theta, Trace}
use eco_kube.Engine.{score_nodes}
use eco_kube.Policies.{CarbonModel, ci_cost, put_all, or_sentinel, pick_node_id, queue_seconds}

pub record HetWeights (F : Type 0) : Type 0 where
  pub carbon : F
  pub wait : F
  pub util : F

pub record Hetsched (F : Type 0) : Type 0 where
  pub weights : HetWeights F
  pub alpha_mass : F
  pub lookahead : Duration

module _ {F : Type 0} ⦃d : Float64 F⦄ where
  -- The used share of a total, or nothing of no total.
  abbrev used_share : F → F → F
  used_share total available = if lt nought total then (total ⊖ available) ⊘ total else nought

  unfoldable pub node_utilisation : SimulatedNode F → F
  node_utilisation n =
      if le n.total_cpu nought && le n.total_memory nought
      then nought
      else used_share n.total_cpu n.available_cpu ⊕ used_share n.total_memory n.available_memory

  unfoldable pub hetsched_now : Hetsched F → Core.Job F → Time
  unfolding ◌+ℤ◌
  hetsched_now p j =
      let now = if is_zero j.submit_at then unix_epoch else j.submit_at in
      if ltb_ℤ (pos 0) p.lookahead then now +ℤ p.lookahead else now

  unfoldable pub hetsched_work : Core.Job F → Workload F
  hetsched_work j = record {
    id = j.id;
    submit_time = j.submit_at;
    duration = of_seconds j.estimated_duration;
    cpu = j.cpu_req;
    memory = j.mem_req;
    tag = "";
    labels = j.labels;
    class = "";
  }

  unfoldable pub hetsched_score :
      CarbonModel F → Hetsched F → Workload F → Time → ℕ → SimulatedNode F → Option (String × F)
  unfolding can_accept node_utilisation queue_seconds
  hetsched_score model p work now i n =
      let carbon =
        if lt nought p.alpha_mass && ltb_ℤ (pos (3600 * second)) work.duration
        then p.weights.carbon ⊗ (one ⊕ p.alpha_mass)
        else p.weights.carbon in
      let score =
        carbon ⊗ ci_cost model n work now
        ⊕ p.weights.wait ⊗ queue_seconds n now
        ⊕ p.weights.util ⊗ node_utilisation n in
      if can_accept n work then some (pick_node_id n, score) else none

  unfoldable pub hetsched_scores :
      CarbonModel F → Hetsched F → Core.Job F → List (SimulatedNode F) → Scores F
  unfolding put_all hetsched_score hetsched_now hetsched_work
  hetsched_scores model p j [] = []
  hetsched_scores model p j (n ∷ ns) =
      or_sentinel
        (put_all (hetsched_score model p (hetsched_work j) (hetsched_now p j)) 0 (n ∷ ns) [])

  unfoldable pub hetsched_policy : CarbonModel F → Hetsched F → Policy F
  unfolding hetsched_scores
  hetsched_policy model p = record {
    name = "hetsched";
    score = λ job nodes. ok (hetsched_scores model p job nodes);
    trace = none;
  }

-- The configuration of the policy that asks the engine.
pub record EngineConfig (F : Type 0) : Type 0 where
  pub theta : Theta F
  pub e_ref : F
  pub c_ref : F

-- The policy, with its dependencies and the traces of the last `Score`; a map that is nil is empty.
pub record EnginePolicy (F : Type 0) : Type 0 where
  pub cfg : EngineConfig F
  pub deps : Deps F
  pub last : StringMap (Trace F)

module _ {F : Type 0} ⦃d : Float64 F⦄ where
  -- `base` is the environment's FORECAST_BASE_URL, and `client` stands for the forecast client at
  -- a base URL.
  unfoldable pub init_deps :
      String
      → (String → Option (String → Duration → Result (List F)))
      → EngineConfig F
      → Deps F
      → Deps F
  init_deps base client cfg deps =
      let url = if str_eq base "" then cfg.theta.forecast_base_url else base in
      let ready = not (eq deps.weights.e nought) || not (eq deps.weights.c nought) in
      if ready then deps else record {
        ci = if str_eq url "" then none else client url;
        theta = record (cfg.theta) { forecast_base_url = url };
        refs = record {
          e_ref = if lt nought cfg.e_ref then cfg.e_ref else cfg.theta.e_ref;
          c_ref = if lt nought cfg.c_ref then cfg.c_ref else cfg.theta.c_ref;
        };
        weights = record { e = cfg.theta.theta_e; c = cfg.theta.theta_c };
      }

  unfoldable pub engine_job_of : Core.Job F → Job F
  engine_job_of j = record {
    id = j.id;
    cpu = j.cpu_req;
    memory_gb = j.mem_req;
    deadline = unix_epoch;
    profile = "";
    tags = j.tags;
    estimated_duration = nought;
    submit_time = pos 0;
    slack_seconds = nought;
    class = "";
  }

  abbrev no_site : SiteInfo F
  no_site = record { name = ""; region = ""; pue = nought; k = nought; carbon_intensity = nought }

  unfoldable pub snapshot_of : SimulatedNode F → NodeSnapshot F
  snapshot_of n = record {
    id = pick_node_id n;
    site = elim n.site [
      | none ↦ no_site
      | some s ↦ record {
        name = s.id;
        region = s.ci_region;
        pue = s.pue;
        k = s.k;
        carbon_intensity = s.carbon_intensity;
      }
    ];
    available_cpu = n.available_cpu;
    available_gb = n.available_memory;
    labels = n.labels;
    metrics = [];
  }

  abbrev or_far : Scores F → Scores F
  or_far [] = ("", d.dec 1_000_000_000_000_000_000 0) ∷ []
  or_far (e ∷ es) = e ∷ es

  -- The scores, and the policy after the call.
  unfoldable pub engine_policy_scores :
      (String → Option F)
      → String
      → (String → Option (String → Duration → Result (List F)))
      → EnginePolicy F
      → Core.Job F
      → List (SimulatedNode F)
      → Scores F × EnginePolicy F
  unfolding score_nodes engine_job_of snapshot_of init_deps
  engine_policy_scores scan base client p j nodes =
      let deps = init_deps base client p.cfg p.deps in
      let (scores, traces) = score_nodes scan deps (engine_job_of j) (map snapshot_of nodes) in
      (or_far scores, record p { deps = deps; last = traces })

  unfoldable pub engine_policy_trace : EnginePolicy F → String → Option (DecisionTrace F)
  unfolding entry
  engine_policy_trace p selected = elim (entry p.last selected) [
    | none ↦ none
    | some t ↦ some (record {
      result_type = "";
      result_id = "";
      scheduler = "";
      source = "";
      run_id = "";
      job_id = t.job_id;
      site = t.site;
      node = t.node;
      etilde = t.e_norm;
      ctilde = t.c_norm;
      cost = t.cost;
      theta_e = t.theta_e;
      theta_c = t.theta_c;
      forecast_used = t.forecast_used;
      fallback = t.fallback;
      reject_reason = t.reject_reason;
      queued_at = t.queued_at;
      started_at = t.started_at;
      ended_at = t.ended_at;
    })
  ]
