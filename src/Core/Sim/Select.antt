-- ===== src/Core/Sim/Select.antt =====
-- basesim.go: selectNode and recordDecisionTrace.
use Prim.Native.String.{◌++◌ as str_append}
use eco_kube.Prelude.{
  ℕ, suc, ◌*◌, ◌^◌, Bool, false, ◌&&◌, ◌||◌, Option, none, some, List, [], ◌∷◌, String, ok, err,
  if◌then◌else◌,
}
use eco_kube.Prelude.Int.{pos}
use eco_kube.Prelude.Text.{str_eq, entry}
use eco_kube.Prelude.Float.{Float64, lt, eq, nought, ◌⊕◌, ◌⊖◌, ◌⊘◌}
use eco_kube.Core.Types.{Time, is_zero, seconds, Workload, Job, SimulatedNode}
use eco_kube.Core.Node.{can_accept}
use eco_kube.Core.ArgMin.{Scores}
use eco_kube.Core.Policy.{Policy, DecisionTrace, select_site_and_node}

-- The simulator's fields `Select` and `Policy`, and whether `Tracer` is set. A choice of `Select` is
-- a place in the list of nodes.
pub record Selector (F : Type 0) : Type 0 where
  pub select : Option (Workload F → List (SimulatedNode F) → Option ℕ)
  pub policy : Option (Policy F)
  pub traced : Bool

-- `math.MaxFloat64`, to its shortest decimal.
unfoldable pub max_float : {F : Type 0} ⦃d : Float64 F⦄ → F
max_float ⦃d⦄ = d.dec (17_976_931_348_623_157 * 10 ^ 292) 0

-- A selected place and the traces handed to the tracer on the way.
abbrev pub Selection : Type 0 → Type 0
Selection F = Option ℕ × List (DecisionTrace F)

abbrev pub or_default : String → String → String
or_default s t = if str_eq s "" then t else s

module _ {F : Type 0} ⦃d : Float64 F⦄ where
  unfoldable pub job_of : Workload F → Job F
  job_of w = record {
    id = w.id;
    cpu_req = w.cpu;
    mem_req = w.memory;
    deadline_ms = pos 0;
    tags = [];
    estimated_duration = seconds w.duration;
    labels = w.labels;
    submit_at = w.submit_time;
    class = w.class;
  }

  -- The first node of that name that can accept the workload; places count from `i`.
  unfoldable pub find_named : String → Workload F → List (SimulatedNode F) → ℕ → Option ℕ
  find_named id w [] i = none
  find_named id w (n ∷ ns) i =
      if str_eq n.name id && can_accept n w then some i else find_named id w ns (suc i)

  abbrev pub load : SimulatedNode F → F
  load n =
      (n.total_cpu ⊖ n.available_cpu) ⊘ n.total_cpu
      ⊕ (n.total_memory ⊖ n.available_memory) ⊘ n.total_memory

  unfoldable pub least_loaded : Workload F → List (SimulatedNode F) → ℕ → F → Option ℕ → Option ℕ
  least_loaded w [] i best_score best = best
  least_loaded w (n ∷ ns) i best_score best =
      let take = can_accept n w && lt (load n) best_score in
      least_loaded w ns (suc i) (if take then load n else best_score)
        (if take then some i else best)

  -- The first node whose ID or name is the selected one.
  unfoldable pub find_chosen : String → List (SimulatedNode F) → Option (SimulatedNode F)
  find_chosen selected [] = none
  find_chosen selected (n ∷ ns) =
      if str_eq n.id selected || str_eq n.name selected then some n else find_chosen selected ns

  -- The site of a node: its site ID, or that of the attached site.
  abbrev trace_site : SimulatedNode F → String
  trace_site n = elim n.site [ none ↦ n.site_id | some s ↦ or_default n.site_id s.id ]

  unfoldable pub base_trace :
      Policy F → Time → Job F → Option (SimulatedNode F) → Scores F → String → DecisionTrace F
  base_trace pol clock job chosen scores selected = record {
    result_type = "sim_result";
    result_id = str_append "sim_result_" job.id;
    scheduler = pol.name;
    source = "simulation";
    run_id = "";
    job_id = job.id;
    site = elim chosen [ none ↦ "" | some n ↦ trace_site n ];
    node = elim chosen [ none ↦ selected | some n ↦ n.name ];
    etilde = nought;
    ctilde = nought;
    cost = elim (entry scores selected) [ none ↦ nought | some c ↦ c ];
    theta_e = nought;
    theta_c = nought;
    forecast_used = false;
    fallback = false;
    reject_reason = "";
    queued_at = job.submit_at;
    started_at = clock;
    ended_at = clock;
  }

  -- The blanks that a policy's own trace leaves are filled in.
  unfoldable pub complete_trace :
      Policy F
      → Time
      → Job F
      → Option (SimulatedNode F)
      → Scores F
      → String
      → DecisionTrace F
      → DecisionTrace F
  complete_trace pol clock job chosen scores selected t =
      let job_id : String = or_default t.job_id job.id in
      record t {
        job_id = job_id;
        node = or_default t.node selected;
        site = elim chosen [ none ↦ t.site | some n ↦ or_default t.site (trace_site n) ];
        cost =
            if eq t.cost nought
            then elim (entry scores selected) [ none ↦ t.cost | some c ↦ c ]
            else t.cost;
        queued_at = if is_zero t.queued_at then job.submit_at else t.queued_at;
        started_at = if is_zero t.started_at then clock else t.started_at;
        ended_at = if is_zero t.ended_at then clock else t.ended_at;
        result_type = or_default t.result_type "sim_result";
        result_id = or_default t.result_id (str_append "sim_result_" job_id);
        scheduler = or_default t.scheduler pol.name;
        source = or_default t.source "simulation";
      }

  -- What `recordDecisionTrace` hands to the tracer.
  unfoldable pub decision_trace :
      Policy F → Time → Job F → List (SimulatedNode F) → Scores F → String → DecisionTrace F
  decision_trace pol clock job nodes scores selected =
      let chosen = find_chosen selected nodes in
      let base = base_trace pol clock job chosen scores selected in
      elim pol.trace [
        | none ↦ base
        | some f ↦ elim (f job nodes scores selected) [
          | none ↦ base
          | some custom ↦ complete_trace pol clock job chosen scores selected custom
        ]
      ]

  -- The second way: the policy's scores.
  unfoldable pub by_policy :
      Selector F → Time → Workload F → List (SimulatedNode F) → Policy F → Option (Selection F)
  by_policy s clock w nodes pol = elim (select_site_and_node pol (job_of w) nodes) [
    | err _ ↦ none
    | ok (id, scores) ↦ elim (find_named id w nodes 0) [
      | none ↦ none
      | some i ↦ some (
        some i,
        (if s.traced then decision_trace pol clock (job_of w) nodes scores id ∷ [] else []),
      )
    ]
  ]

  -- The ways after the custom one: the policy, then the least loaded node.
  unfoldable pub by_policy_or_load :
      Selector F → Time → Workload F → List (SimulatedNode F) → Selection F
  by_policy_or_load s clock w nodes =
      let fallback : Selection F = (least_loaded w nodes 0 max_float none, []) in
      elim s.policy [
        | none ↦ fallback
        | some pol ↦ elim (by_policy s clock w nodes pol) [ none ↦ fallback | some r ↦ r ]
      ]

  unfoldable pub select_node : Selector F → Time → Workload F → List (SimulatedNode F) → Selection F
  select_node s clock w nodes = elim s.select [
    | none ↦ by_policy_or_load s clock w nodes
    | some f ↦ elim (f w nodes) [ some i ↦ (some i, []) | none ↦ by_policy_or_load s clock w nodes ]
  ]
