-- ===== src/Controller/Schedulers.antt =====
-- controller/scheduler.go: the three schedulers. Printing and parsing with `fmt`, and `math.Round`,
-- are parameters.
use eco_kube.Prelude.{
  Bool, true, false, ◌&&◌, Option, none, some, List, [], ◌∷◌, String, ok, err, if◌then◌else◌,
}
use eco_kube.Prelude.Int.{ℤ, pos, ltb_ℤ, leb_ℤ}
use eco_kube.Prelude.Text.{entry, str_eq}
use eco_kube.Prelude.Float.{Float64, lt, le, nought, one, ◌⊕◌, ◌⊖◌, ◌⊗◌}
use eco_kube.Core.Types.{Duration, seconds, of_seconds}
use eco_kube.Core.ArgMin.{Scores, arg_min}
use eco_kube.Core.Sim.Select.{max_float}
use eco_kube.Core.Policy.{Policy}
use eco_kube.Engine.Types.{Job, Deps, Trace, Decision, no_decision, empty_trace}
use eco_kube.Engine.{score_nodes, trace_of}
use eco_kube.Controller.{NodeView, ClusterSnapshot, view_by_id, job_to_core, default_string}

-- `fmt.Sscanf` with `%f`, `fmt.Sprintf` with `deferred_%.0fs`, and `math.Round`.
pub record Formats (F : Type 0) : Type 0 where
  pub scan : String → Option F
  pub deferred : F → String
  pub round : F → F

-- What `Schedule` of a scheduler returns.
pub record Plan (F : Type 0) : Type 0 where
  pub decision : Decision
  pub trace : Trace F
  pub defer_for : Duration
  pub error : Option String

-- The interface `scheduler`.
pub record Scheduler (F : Type 0) : Type 0 where
  pub name : String
  pub schedule : Job F → ClusterSnapshot F → Plan F

pub record CarbonSettings (F : Type 0) : Type 0 where
  pub shift_frac : F
  pub elasticity : F
  pub defer_thresh : F

module _ {F : Type 0} ⦃d : Float64 F⦄ where
  unfoldable pub refusal : Job F → String → String → Plan F
  refusal job reason error = record {
    decision = no_decision;
    trace = record (empty_trace) { job_id = job.id; fallback = true; reject_reason = reason };
    defer_for = pos 0;
    error = some error;
  }

  -- The trace of the engine for a node, under the scheduler's name and with what its view knows.
  abbrev pub seen : String → ClusterSnapshot F → String → Trace F → Trace F
  unfolding view_by_id
  seen name snap id t = elim (view_by_id snap id) [
    | none ↦ record t { scheduler = name }
    | some v ↦ record t {
      scheduler = name;
      queue_seconds = v.queue_seconds;
      site = default_string t.site v.snapshot.site.name;
    }
  ]

  abbrev engine_trace : Formats F → Deps F → Job F → ClusterSnapshot F → String → Trace F
  unfolding score_nodes trace_of
  engine_trace fmt deps job snap id =
      trace_of (score_nodes fmt.scan deps job snap.node_snapshots).1 id

  -- A decision for one instance on the node.
  abbrev placed : String → Trace F → Plan F
  placed id t = record {
    decision = record { node_id = id; scale = pos 1 };
    trace = record t { scale = pos 1 };
    defer_for = pos 0;
    error = none;
  }

  unfoldable pub eco_decide :
      Formats F → Deps F → Job F → ClusterSnapshot F → String × Bool → Plan F
  unfolding seen engine_trace
  eco_decide fmt deps job snap (id, false) = refusal job "no_candidate" "ecokube: no candidate"
  eco_decide fmt deps job snap (id, true) =
      placed id (seen "ecokube" snap id (engine_trace fmt deps job snap id))

  -- `ecoScheduler.Schedule`
  unfoldable pub eco_schedule : Formats F → Policy F → Deps F → Job F → ClusterSnapshot F → Plan F
  unfolding eco_decide refusal job_to_core
  eco_schedule fmt policy deps job snap = elim snap.views [
    | [] ↦ refusal job "no_nodes" "ecokube: no nodes available"
    | _ ∷ _ ↦ elim (policy.score (job_to_core job) snap.sim_nodes) [
      | err e ↦ refusal job e e
      | ok scores ↦ eco_decide fmt deps job snap (arg_min scores)
    ]
  ]

  unfoldable pub new_carbon_settings : F → F → F → CarbonSettings F
  new_carbon_settings shift elasticity thresh = record {
    shift_frac = if lt shift nought then nought else shift;
    elasticity = if lt elasticity nought then nought else elasticity;
    defer_thresh = if le thresh nought then d.dec 5 1 else thresh;
  }

  -- The longest deferral: the slack of the job, or a share of its duration.
  unfoldable pub max_defer : CarbonSettings F → Job F → Duration
  max_defer c job =
      let slack = of_seconds job.slack_seconds in
      if leb_ℤ slack (pos 0) && (lt nought job.estimated_duration && lt nought c.shift_frac)
      then of_seconds (job.estimated_duration ⊗ c.shift_frac)
      else slack

  -- How long the job is put off on the node of the view.
  unfoldable pub defer_for : CarbonSettings F → Job F → NodeView F → Duration
  unfolding max_defer
  defer_for c job v =
      let queue = if lt nought v.queue_seconds then of_seconds v.queue_seconds else pos 0 in
      let most = max_defer c job in
      if ltb_ℤ (pos 0) queue
        && (ltb_ℤ (pos 0) most && (leb_ℤ queue most && le c.defer_thresh v.ci_norm))
      then queue
      else pos 0

  unfoldable pub scale_for : Formats F → CarbonSettings F → NodeView F → ℤ
  scale_for fmt c v =
      let factor = one ⊕ c.elasticity ⊗ (one ⊖ v.ci_norm) in
      let scale = d.to_int (fmt.round (if lt factor one then one else factor)) in
      if lt nought c.elasticity then (if ltb_ℤ scale (pos 1) then pos 1 else scale) else pos 1

  abbrev put_off : Formats F → Trace F → Duration → Plan F
  put_off fmt t wait = record {
    decision = no_decision;
    trace = record t {
      fallback = true;
      deferred_for = seconds wait;
      reject_reason = fmt.deferred (seconds wait);
    };
    defer_for = wait;
    error = none;
  }

  abbrev scaled : String → ℤ → Trace F → Plan F
  scaled id scale t = record {
    decision = record { node_id = id; scale = scale };
    trace = record t { scale = scale };
    defer_for = pos 0;
    error = none;
  }

  unfoldable pub carbon_plan :
      Formats F → CarbonSettings F → Job F → ClusterSnapshot F → String → Trace F → Plan F
  unfolding defer_for scale_for
  carbon_plan fmt c job snap id t = elim (view_by_id snap id) [
    | none ↦ scaled id (pos 1) t
    | some v ↦
        if ltb_ℤ (pos 0) (defer_for c job v)
        then put_off fmt t (defer_for c job v)
        else scaled id (scale_for fmt c v) t
  ]

  unfoldable pub carbon_decide :
      Formats F → CarbonSettings F → Deps F → Job F → ClusterSnapshot F → String × Bool → Plan F
  unfolding carbon_plan seen engine_trace refusal
  carbon_decide fmt c deps job snap (id, false) =
      refusal job "no_candidate" "carbonscaler: no candidate"
  carbon_decide fmt c deps job snap (id, true) =
      carbon_plan fmt c job snap id
        (seen "carbonscaler" snap id (engine_trace fmt deps job snap id))

  unfoldable pub carbon_schedule :
      Formats F → Policy F → CarbonSettings F → Deps F → Job F → ClusterSnapshot F → Plan F
  unfolding carbon_decide refusal job_to_core
  carbon_schedule fmt policy c deps job snap = elim snap.views [
    | [] ↦ refusal job "no_nodes" "carbonscaler: no nodes"
    | _ ∷ _ ↦ elim (policy.score (job_to_core job) snap.sim_nodes) [
      | err e ↦ refusal job e e
      | ok scores ↦ carbon_decide fmt c deps job snap (arg_min scores)
    ]
  ]

  -- The scored node of the shortest queue; "" where none is shorter than `best`.
  unfoldable pub shortest_queue : Scores F → List (NodeView F) → String → F → String
  unfolding entry
  shortest_queue scores [] best_id best = best_id
  shortest_queue scores (v ∷ vs) best_id best = elim (entry scores v.snapshot.id) [
    | none ↦ shortest_queue scores vs best_id best
    | some _ ↦ elim (lt v.queue_seconds best) [
      | true ↦ shortest_queue scores vs v.snapshot.id v.queue_seconds
      | false ↦ shortest_queue scores vs best_id best
    ]
  ]

  abbrev k8s_choice : Formats F → Deps F → Job F → ClusterSnapshot F → String → Plan F
  unfolding seen engine_trace refusal
  k8s_choice fmt deps job snap id =
      if str_eq id ""
      then refusal job "no_candidate" "k8s: no candidate"
      else placed id (seen "k8s" snap id (engine_trace fmt deps job snap id))

  unfoldable pub k8s_schedule : Formats F → Deps F → Job F → ClusterSnapshot F → Plan F
  unfolding score_nodes shortest_queue max_float refusal k8s_choice
  k8s_schedule fmt deps job snap = elim snap.views [
    | [] ↦ refusal job "no_nodes" "k8s: no nodes"
    | v ∷ vs ↦ elim (score_nodes fmt.scan deps job snap.node_snapshots).0 [
      | [] ↦ refusal job "no_candidate" "k8s: no candidate"
      | e ∷ es ↦ k8s_choice fmt deps job snap (shortest_queue (e ∷ es) (v ∷ vs) "" max_float)
    ]
  ]
