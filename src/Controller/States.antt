-- ===== src/Controller/States.antt =====
-- controller/main.go: the record that the controller keeps of each pod, and the traces it writes
-- as the pod starts and ends.
use eco_kube.Prelude.{
  Bool, false, ◌&&◌, ◌||◌, not, none, some, List, [], ◌∷◌, String, if◌then◌else◌,
}
use eco_kube.Prelude.Text.{StringMap, index, entry, put, remove, str_eq}
use eco_kube.Prelude.Float.{Float64}
use eco_kube.Core.Types.{Time, is_zero}
use eco_kube.Engine.Types.{Trace, empty_trace}
use eco_kube.Controller.{default_string}
use eco_kube.Controller.Pods.{Pod, pod_start_time, pod_completion_time}

pub record PodState (F : Type 0) : Type 0 where
  pub trace : Trace F
  pub start_recorded : Bool
  pub end_recorded : Bool

abbrev pub States : Type 0 → Type 0
States F = StringMap (PodState F)

-- The states, and the traces written.
pub record Observed (F : Type 0) : Type 0 where
  pub states : States F
  pub written : List (Trace F)

abbrev pub or_time : Time → Time → Time
or_time t u = if is_zero t then u else t

module _ {F : Type 0} ⦃d : Float64 F⦄ where
  unfoldable pub drop_state : States F → Pod F → States F
  unfolding remove
  drop_state states pod = remove states pod.uid

  unfoldable pub known_state : States F → Pod F → PodState F → PodState F
  unfolding entry
  known_state states pod fresh = elim (entry states pod.uid) [ none ↦ fresh | some s ↦ s ]

  abbrev blank : PodState F
  blank = record { trace = empty_trace; start_recorded = false; end_recorded = false }

  -- What scheduling a pod leaves of its trace.
  unfoldable pub record_state : String → States F → Pod F → Trace F → States F
  unfolding put known_state
  record_state scheduler states pod trace =
      put states pod.uid (record (known_state states pod blank) {
        trace = record trace {
          scheduler = default_string trace.scheduler scheduler;
          source = default_string trace.source "kubernetes";
          job_id = default_string trace.job_id pod.uid;
          queued_at = or_time trace.queued_at pod.created;
        };
      })

  abbrev pub fresh : String → Pod F → PodState F
  fresh scheduler pod = record (blank) {
    trace = record (empty_trace) { job_id = pod.uid; scheduler = scheduler; source = "kubernetes" };
  }

  -- Whether the pod shows a start, or an end, that the trace does not have.
  unfoldable pub news : PodState F → Time → Time → Bool
  news s start end =
      str_eq s.trace.scheduler ""
      || ((not (is_zero start) && is_zero s.trace.started_at)
          || (not (is_zero end) && is_zero s.trace.ended_at))

  unfoldable pub seen_state : String → Pod F → Time → Time → PodState F → PodState F
  unfolding index
  seen_state scheduler pod start end s =
      let starts = not (is_zero start) && is_zero s.trace.started_at in
      let ends = not (is_zero end) && is_zero s.trace.ended_at in
      let site = index pod.annotations "ci-aware/site" in
      record {
        trace = record (s.trace) {
          job_id = default_string s.trace.job_id pod.uid;
          queued_at = or_time s.trace.queued_at pod.created;
          started_at = if starts then start else s.trace.started_at;
          ended_at = if ends then end else s.trace.ended_at;
          node = pod.node_name;
          site = if str_eq site "" then s.trace.site else site;
          scheduler = scheduler;
          source = "kubernetes";
        };
        start_recorded = starts || s.start_recorded;
        end_recorded = ends || s.end_recorded;
      }

  -- `observePod`: `scheduler` is the name of the controller's scheduler.
  unfoldable pub observe_pod : String → States F → Pod F → Observed F
  unfolding known_state seen_state news put drop_state pod_start_time pod_completion_time
  observe_pod scheduler states pod =
      let start = pod_start_time pod in
      let end = pod_completion_time pod in
      let s = known_state states pod (fresh scheduler pod) in
      let s' = seen_state scheduler pod start end s in
      let states' = put states pod.uid s' in
      record {
        states = if is_zero end then states' else drop_state states' pod;
        written = if news s start end then s'.trace ∷ [] else [];
      }
