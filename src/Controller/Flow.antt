-- ===== src/Controller/Flow.antt =====
-- controller/main.go: from a key of the queue to a bound pod. What the API server and the lister
-- answer are parameters.
use Prim.Native.String.{◌++◌ as str_append}
use eco_kube.Prelude.{
  true, false, Option, none, some, List, [], ◌∷◌, String, Result, ok, err, if◌then◌else◌,
}
use eco_kube.Prelude.Int.{pos, ltb_ℤ, eqb_ℤ}
use eco_kube.Prelude.Text.{str_eq}
use eco_kube.Prelude.Float.{Float64, lt, le, nought, one, ◌⊕◌, ◌⊗◌, ◌⊘◌}
use eco_kube.Core.Types.{Time, Duration, is_zero, seconds, of_seconds, Workload}
use eco_kube.Engine.Types.{Job, Trace, Decision, Deps, empty_trace}
use eco_kube.Policies.{CarbonModel}
use eco_kube.Controller.{NodeView, ClusterSnapshot, view_by_id, neutralise_snapshot, default_string}
use eco_kube.Controller.Schedulers.{Scheduler, Plan}
use eco_kube.Controller.Setup.{BindError, bind_pod}
use eco_kube.Controller.Pods.{Pod, extract_job, should_schedule}

-- What one attempt to schedule a pod comes to.
pub record Attempt (F : Type 0) : Type 0 where
  pub defer_for : Duration
  pub error : Option String
  pub written : List (Trace F)
  pub bound : Option String
  -- The trace handed to `recordState`.
  pub recorded : Option (Trace F)

-- What becomes of a key of the queue.
pub data Requeue : Type 0 where
  forget : Requeue
  add_rate_limited : Requeue
  add_after : Duration → Requeue

module _ {F : Type 0} ⦃d : Float64 F⦄ where
  unfoldable pub job_to_workload : Job F → Workload F
  job_to_workload job =
      let dur = of_seconds job.estimated_duration in
      record {
        id = job.id;
        submit_time = job.submit_time;
        duration = if ltb_ℤ (pos 0) dur then dur else pos 60_000_000_000;
        cpu = job.cpu;
        memory = job.memory_gb;
        tag = "";
        labels = job.tags;
        class = job.class;
      }

  abbrev positive_or_one : F → F
  positive_or_one x = if le x nought then one else x

  unfoldable pub enrich_trace :
      CarbonModel F → Deps F → Time → Job F → NodeView F → Trace F → Trace F
  unfolding job_to_workload
  enrich_trace model deps now job view t =
      let (energy, carbon) = model.energy_and_carbon view.sim (job_to_workload job) now in
      let e = if lt nought energy then energy ⊘ positive_or_one deps.refs.e_ref else t.e_norm in
      let c = if lt nought carbon then carbon ⊘ positive_or_one deps.refs.c_ref else t.c_norm in
      record t {
        e_norm = e;
        c_norm = c;
        cost = deps.weights.e ⊗ e ⊕ deps.weights.c ⊗ c;
        theta_e = deps.theta.theta_e;
        theta_c = deps.theta.theta_c;
      }

  -- The trace of the scheduler, with the controller's own entries.
  unfoldable pub stamp : String → String → Job F → Plan F → Trace F
  stamp name run_id job plan =
      let t = plan.trace in
      record t {
        job_id = default_string t.job_id job.id;
        result_type = default_string t.result_type "kub_result";
        source = default_string t.source "kubernetes";
        scheduler = name;
        run_id = default_string t.run_id run_id;
        queued_at = if is_zero t.queued_at then job.submit_time else t.queued_at;
        scale = if eqb_ℤ t.scale (pos 0) then plan.decision.scale else t.scale;
      }

  abbrev failed : Trace F → String → Attempt F
  failed t reason = record {
    defer_for = pos 0;
    error = some reason;
    written = t ∷ [];
    bound = none;
    recorded = none;
  }

  abbrev no_node : String → String → Job F → Attempt F
  no_node name run_id job =
      failed
        (record (empty_trace) {
          job_id = job.id;
          scheduler = name;
          source = "kubernetes";
          fallback = true;
          reject_reason = "no_nodes";
          queued_at = job.submit_time;
          run_id = run_id;
        })
        "no candidate nodes"

  -- The end of a successful attempt, once the pod is bound.
  abbrev finish :
      CarbonModel F → Deps F → Time → Job F → Decision → NodeView F → Trace F → Attempt F
  unfolding enrich_trace
  finish model deps now job dec view t =
      let t' = enrich_trace model deps now job view (record t {
        node = dec.node_id;
        site = view.snapshot.site.name;
        scale = dec.scale;
        queue_seconds = view.queue_seconds;
      }) in
      record {
        defer_for = pos 0;
        error = none;
        written = t' ∷ [];
        bound = some dec.node_id;
        recorded = some t';
      }

  abbrev unbound : String → Attempt F
  unbound e = record {
    defer_for = pos 0;
    error = some e;
    written = [];
    bound = none;
    recorded = none;
  }

  -- The part from `ViewByID` on. `bind` is the API server's answer to the binding: an error, or none.
  unfoldable pub bind_selected :
      CarbonModel F
      → Deps F
      → Time
      → (String → Option BindError)
      → ClusterSnapshot F
      → Job F
      → Decision
      → Trace F
      → Attempt F
  unfolding view_by_id finish bind_pod
  bind_selected model deps now bind snap job dec t = elim (view_by_id snap dec.node_id) [
    | none ↦
        failed (record t { fallback = true; reject_reason = "selected_node_missing" })
          (str_append "selected node " (str_append dec.node_id " not found"))
    | some view ↦ elim (bind_pod bind dec.node_id) [
      | some e ↦ unbound e
      | none ↦ finish model deps now job dec view t
    ]
  ]

  unfoldable pub follow_plan :
      CarbonModel F
      → Deps F
      → Time
      → (String → Option BindError)
      → ClusterSnapshot F
      → Job F
      → Plan F
      → Trace F
      → Attempt F
  unfolding bind_selected
  follow_plan model deps now bind snap job plan t = elim (ltb_ℤ (pos 0) plan.defer_for) [
    | true ↦ record {
      defer_for = plan.defer_for;
      error = none;
      written = (record t { fallback = true; deferred_for = seconds plan.defer_for }) ∷ [];
      bound = none;
      recorded = none;
    }
    | false ↦ elim plan.error [
      | some e ↦
          failed (record t { fallback = true; reject_reason = default_string t.reject_reason e }) e
      | none ↦ bind_selected model deps now bind snap job plan.decision t
    ]
  ]

  -- A scheduler other than ecokube sees the neutralised cluster.
  unfoldable pub effective : Scheduler F → ClusterSnapshot F → ClusterSnapshot F
  unfolding neutralise_snapshot
  effective s snap = if str_eq s.name "ecokube" then snap else neutralise_snapshot snap

  unfoldable pub schedule_pod :
      CarbonModel F
      → Deps F
      → Scheduler F
      → String
      → Time
      → Result (ClusterSnapshot F)
      → (String → Option BindError)
      → Pod F
      → Attempt F
  unfolding follow_plan stamp effective extract_job
  schedule_pod model deps s run_id now (err e) bind pod = unbound e
  schedule_pod model deps s run_id now (ok snap) bind pod =
      let job = extract_job pod in
      let seen = effective s snap in
      let plan = s.schedule job seen in
      elim snap.views [
        | [] ↦ no_node s.name run_id job
        | _ ∷ _ ↦ follow_plan model deps now bind seen job plan (stamp s.name run_id job plan)
      ]

  -- `processNextItem` for a key: the lister's answer is a pod, no pod, or an error.
  unfoldable pub process_item : String → Result (Option (Pod F)) → (Pod F → Attempt F) → Requeue
  unfolding should_schedule
  process_item scheduler (err e) attempt = add_rate_limited
  process_item scheduler (ok none) attempt = forget
  process_item scheduler (ok (some pod)) attempt =
      if should_schedule scheduler pod
      then elim (attempt pod).error [
        | some e ↦ add_rate_limited
        | none ↦
            if ltb_ℤ (pos 0) (attempt pod).defer_for
            then add_after (attempt pod).defer_for
            else forget
      ]
      else forget
