-- ===== src/Engine.antt =====
-- hetsched/pkg/types and hetsched/pkg/engine: the scoring that the controller and a simulation
-- share. The labels are parsed by `fmt.Sscanf` with `%f`, which is a parameter.
pub mod Types
pub mod Choice
pub mod ArgMin
pub mod Samples
use eco_kube.Prelude.{
  ℕ, Bool, true, false, ◌&&◌, ◌||◌, not, Option, none, some, List, [], ◌∷◌, ◌++◌, String, Result,
  ok, err, keep_if, if◌then◌else◌,
}
use eco_kube.Prelude.Int.{pos}
use eco_kube.Prelude.Text.{StringMap, index, entry, put, str_eq, str_lt}
use eco_kube.Prelude.Sift.{sift}
use eco_kube.Prelude.Float.{Float64, lt, le, eq, nought, one, ◌⊕◌, ◌⊗◌, ◌⊘◌}
use eco_kube.Core.Types.{hours}
use eco_kube.Core.ArgMin.{Scores}
use Types.{Job, NodeSnapshot, Deps, Trace, Decision, empty_trace, no_decision}

-- What `evalCost` returns.
pub record Cost (F : Type 0) : Type 0 where
  pub e_norm : F
  pub c_norm : F
  pub cost : F
  pub used_forecast : Bool

-- What `Schedule` returns: a decision with its trace, or an error with one.
pub record Outcome (F : Type 0) : Type 0 where
  pub decision : Decision
  pub trace : Trace F
  pub error : Option String

module _ {F : Type 0} ⦃d : Float64 F⦄ where
  unfoldable pub can_accept : NodeSnapshot F → Job F → Bool
  can_accept n j = le j.cpu n.available_cpu && le j.memory_gb n.available_gb

  unfoldable pub estimate_egress_mb : Job F → F
  unfolding index
  estimate_egress_mb j =
      if str_eq (index j.tags "remote_data") "true" then d.dec 1_000_000_000 0 else nought

  -- Why a node is no candidate; `none` for a candidate.
  unfoldable pub reject_reason : Job F → F → F → NodeSnapshot F → Option String
  unfolding can_accept estimate_egress_mb
  reject_reason j alpha egress_cap n =
      if not (can_accept n j)
      then some "capacity"
      else if lt one alpha
      then some "slo"
      else if lt egress_cap (estimate_egress_mb j)
      then some "egress"
      else none

  unfoldable pub build_candidate_set :
      Job F → F → F → List (NodeSnapshot F) → List (NodeSnapshot F) × StringMap String
  unfolding sift reject_reason
  build_candidate_set j alpha egress_cap nodes =
      sift (λ n. n.id) (reject_reason j alpha egress_cap) nodes [] []

  abbrev positive_or_one : F → F
  positive_or_one x = if le x nought then one else x

  -- The first step of the forecast, or the intensity of the site.
  unfoldable pub forecast_ci : Deps F → NodeSnapshot F → F × Bool
  forecast_ci deps n = elim deps.ci [
    | none ↦ (n.site.carbon_intensity, false)
    | some forecast ↦ elim (forecast n.site.region deps.theta.horizon) [
      | err _ ↦ (n.site.carbon_intensity, false)
      | ok [] ↦ (n.site.carbon_intensity, false)
      | ok (v ∷ _) ↦ (v, true)
    ]
  ]

  unfoldable pub mean_power : (String → Option F) → NodeSnapshot F → F
  unfolding entry index
  mean_power scan n =
      let pw : F = elim (entry n.metrics "power_w_mean") [ none ↦ nought | some v ↦ v ] in
      let peak : F = elim (scan (index n.labels "peak_power_w")) [
        | none ↦ d.dec 120 0
        | some v ↦ v
      ] in
      if le pw nought then d.dec 6 1 ⊗ peak else pw

  unfoldable pub eval_cost : (String → Option F) → Deps F → NodeSnapshot F → Cost F
  unfolding mean_power forecast_ci
  eval_cost scan deps n =
      let (ci, used) = forecast_ci deps n in
      let energy = n.site.k ⊗ mean_power scan n ⊗ hours deps.theta.horizon ⊘ d.dec 1000 0 in
      let carbon = energy ⊗ n.site.pue ⊗ (ci ⊘ d.dec 1000 0) in
      let e = energy ⊘ positive_or_one deps.refs.e_ref in
      let c = carbon ⊘ positive_or_one deps.refs.c_ref in
      record {
        e_norm = e;
        c_norm = c;
        cost = deps.weights.e ⊗ e ⊕ deps.weights.c ⊗ c;
        used_forecast = used;
      }

  unfoldable pub node_trace : (String → Option F) → Deps F → Job F → NodeSnapshot F → Trace F
  unfolding eval_cost
  node_trace scan deps j n =
      let c = eval_cost scan deps n in
      record (empty_trace) {
        job_id = j.id;
        site = n.site.name;
        node = n.id;
        e_norm = c.e_norm;
        c_norm = c.c_norm;
        cost = c.cost;
        theta_e = deps.theta.theta_e;
        theta_c = deps.theta.theta_c;
        forecast_used = c.used_forecast;
      }

  -- The loop that fills the maps of scores and traces.
  unfoldable pub score_loop :
      (String → Option F)
      → Deps F
      → Job F
      → List (NodeSnapshot F)
      → Scores F
      → StringMap (Trace F)
      → Scores F × StringMap (Trace F)
  unfolding node_trace put
  score_loop scan deps j [] scores traces = (scores, traces)
  score_loop scan deps j (n ∷ ns) scores traces =
      score_loop scan deps j ns (put scores n.id (eval_cost scan deps n).cost)
        (put traces n.id (node_trace scan deps j n))

  unfoldable pub score_nodes :
      (String → Option F) → Deps F → Job F → List (NodeSnapshot F) → Scores F × StringMap (Trace F)
  unfolding score_loop build_candidate_set
  score_nodes scan deps j nodes =
      score_loop scan deps j
        (build_candidate_set j deps.theta.alpha deps.theta.egress_cap_mb nodes).0 [] []

  unfoldable pub kv_less : String × F → String × F → Bool
  kv_less (i, v) (j, w) = if eq v w then str_lt i j else lt v w

  unfoldable pub insert_kv : String × F → Scores F → Scores F
  insert_kv e [] = e ∷ []
  insert_kv e (x ∷ xs) = let rest = insert_kv e xs in if kv_less e x then e ∷ x ∷ xs else x ∷ rest

  -- `sort.Slice`, as an insertion sort: the keys differ, so that without NaN there is one order.
  unfoldable pub sort_kv : Scores F → Scores F
  unfolding insert_kv kv_less
  sort_kv [] = []
  sort_kv (e ∷ es) = insert_kv e (sort_kv es)

  unfoldable pub arg_min_stable : Scores F → Option String
  unfolding sort_kv
  arg_min_stable scores = elim (sort_kv scores) [ [] ↦ none | e ∷ _ ↦ some (e.0) ]

  unfoldable pub trace_of : StringMap (Trace F) → String → Trace F
  unfolding entry
  trace_of traces id = elim (entry traces id) [ none ↦ empty_trace | some t ↦ t ]

  abbrev rejected : Deps F → Job F → String → Outcome F
  rejected deps j reason = record {
    decision = no_decision;
    trace = record (empty_trace) {
      job_id = j.id;
      reject_reason = reason;
      theta_e = deps.theta.theta_e;
      theta_c = deps.theta.theta_c;
      fallback = true;
    };
    error = some reason;
  }

  -- `argMinStable` finds nothing only in an empty map, which has been refused before.
  unfoldable pub decide : Deps F → Job F → Scores F → StringMap (Trace F) → Outcome F
  unfolding arg_min_stable trace_of
  decide deps j [] traces = rejected deps j "no feasible candidates"
  decide deps j (e ∷ es) traces = elim (arg_min_stable (e ∷ es)) [
    | none ↦ record {
      decision = no_decision;
      trace = record (empty_trace) { job_id = j.id; reject_reason = "no_scores"; fallback = true };
      error = some "no scores";
    }
    | some id ↦ record {
      decision = record { node_id = id; scale = pos 1 };
      trace = trace_of traces id;
      error = none;
    }
  ]

  unfoldable pub schedule : (String → Option F) → Deps F → Job F → List (NodeSnapshot F) → Outcome F
  unfolding score_nodes decide
  schedule scan deps j nodes =
      let (scores, traces) = score_nodes scan deps j nodes in decide deps j scores traces
