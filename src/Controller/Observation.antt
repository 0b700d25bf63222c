-- ===== src/Controller/Observation.antt =====
-- controller/main.go: what observing a pod leaves, and what observing it again adds.
use eco_kube.Prelude.{
  ◌≡◌, refl, ap, sym, subst, ◌∙◌, true, false, Bool, ◌&&◌, ◌||◌, not, if◌then◌else◌, none, [], ◌∷◌,
  String, arith,
}
use eco_kube.Prelude.Text.{
  str_eq, eq_iff, eq_refl, StringMap, index, entry, put, entry-put_same, entry-remove_same,
}
use eco_kube.Prelude.Float.{Float64}
use eco_kube.Core.Types.{Time, is_zero}
use eco_kube.Controller.{default_string}
use eco_kube.Controller.Pods.{Pod, pod_start_time, pod_completion_time}
use eco_kube.Controller.States.{
  or_time, PodState, States, Observed, observe_pod, drop_state, seen_state, news, known_state,
  fresh,
}

put_again {ℓ} :
    {V : Type ℓ} (m : StringMap V) (k : String) (v : V) → put (put m k v) k v ≡ put m k v
unfolding put
put_again [] k v = ground (arith, eq_refl k)
put_again (e ∷ m) k v = ground (arith, eq_refl k, put_again m k v)

default_again : (v u : String) → default_string (default_string v u) u ≡ default_string v u
default_again v u = ground (arith, eq_iff u "")

time_again : (t u : Time) → or_time (or_time t u) u ≡ or_time t u
time_again t u = ground arith

site_again :
    (site t : String)
    → (if str_eq site "" then (if str_eq site "" then t else site) else site)
      ≡ (if str_eq site "" then t else site)
site_again site t = ground arith

-- A start or an end that the pod shows and the trace does not have.
abbrev missing : Time → Time → Bool
missing start t = not (is_zero start) && is_zero t

abbrev fill : Time → Time → Time
fill start t = if missing start t then start else t

fill_again : (start t : Time) → fill start (fill start t) ≡ fill start t
fill_again start t = ground arith

missing_again :
    (start t : Time) (b : Bool)
    → (missing start (fill start t) || (missing start t || b)) ≡ (missing start t || b)
missing_again start t b = ground arith

module _ {F : Type 0} ⦃d : Float64 F⦄ where
  seen_again :
      (scheduler : String) (pod : Pod F) (start end : Time) (s : PodState F)
      → seen_state scheduler pod start end (seen_state scheduler pod start end s)
        ≡ seen_state scheduler pod start end s
  unfolding seen_state
  seen_again scheduler pod start end s = λ i. record {
    trace = record (s.trace) {
      job_id = default_again s.trace.job_id pod.uid i;
      queued_at = time_again s.trace.queued_at pod.created i;
      started_at = fill_again start s.trace.started_at i;
      ended_at = fill_again end s.trace.ended_at i;
      node = pod.node_name;
      site = site_again (index pod.annotations "ci-aware/site") s.trace.site i;
      scheduler = scheduler;
      source = "kubernetes";
    };
    start_recorded = missing_again start s.trace.started_at s.start_recorded i;
    end_recorded = missing_again end s.trace.ended_at s.end_recorded i;
  }

  no_news :
      (scheduler : String) (pod : Pod F) (start end : Time) (s : PodState F)
      → str_eq scheduler "" ≡ false
      → news (seen_state scheduler pod start end s) start end ≡ false
  unfolding news seen_state
  no_news scheduler pod start end s h = ground arith

  known_put :
      (states : States F) (pod : Pod F) (s u : PodState F)
      → known_state (put states pod.uid s) pod u ≡ s
  unfolding known_state
  known_put states pod s u = rw (entry-put_same states pod.uid s, known_state) refl

  again :
      (scheduler : String) (states : States F) (pod : Pod F) (s : PodState F)
      → str_eq scheduler "" ≡ false
      → (let s' = seen_state scheduler pod (pod_start_time pod) (pod_completion_time pod) s in
          let s'' = seen_state scheduler pod (pod_start_time pod) (pod_completion_time pod) s' in
          ◌≡◌ {A = Observed F}
            (record {
              states = put (put states pod.uid s') pod.uid s'';
              written =
                  if news s' (pod_start_time pod) (pod_completion_time pod)
                  then s''.trace ∷ []
                  else [];
            })
            (record { states = put states pod.uid s'; written = [] }))
  again scheduler states pod s h = rw (seen_again, put_again, no_news scheduler pod _ _ s h) refl

  unended :
      (scheduler : String) (states : States F) (pod : Pod F)
      → is_zero (pod_completion_time pod) ≡ true
      → (s : PodState F) → known_state states pod (fresh scheduler pod) ≡ s
      → observe_pod scheduler states pod ≡ record {
        states =
            put states pod.uid
              (seen_state scheduler pod (pod_start_time pod) (pod_completion_time pod) s);
        written =
            if news s (pod_start_time pod) (pod_completion_time pod)
            then (seen_state scheduler pod (pod_start_time pod) (pod_completion_time pod) s).trace
              ∷ []
            else [];
      }
  unfolding observe_pod
  unended scheduler states pod e s k = rw (e, k) refl

  -- Observing a pod that has not ended again changes no state and writes no trace, where the
  -- scheduler has a name.
  observe_again :
      (scheduler : String) (states : States F) (pod : Pod F)
      → str_eq scheduler "" ≡ false
      → is_zero (pod_completion_time pod) ≡ true
      → observe_pod scheduler (observe_pod scheduler states pod).states pod
        ≡ record { states = (observe_pod scheduler states pod).states; written = [] }
  observe_again scheduler states pod h e =
      let s : PodState F = known_state states pod (fresh scheduler pod) in
      let s' : PodState F =
        seen_state scheduler pod (pod_start_time pod) (pod_completion_time pod) s in
      let first : (observe_pod scheduler states pod).states ≡ put states pod.uid s' =
        ap (λ o. o.states) (unended scheduler states pod e s refl) in
      let known : known_state (put states pod.uid s') pod (fresh scheduler pod) ≡ s' =
        known_put states pod s' (fresh scheduler pod) in
      subst (λ t. observe_pod scheduler t pod ≡ record { states = t; written = [] }) (sym first)
        (unended scheduler (put states pod.uid s') pod e s' known ∙ again scheduler states pod s h)

  -- Once a pod has ended, nothing is kept of it.
  pub observe_pod_ended :
      (scheduler : String) (states : States F) (pod : Pod F)
      → is_zero (pod_completion_time pod) ≡ false
      → entry (observe_pod scheduler states pod).states pod.uid ≡ none
  unfolding observe_pod drop_state
  observe_pod_ended scheduler states pod e = rw e (entry-remove_same _ pod.uid)
