-- ===== src/Controller/Phases.antt =====
-- controller/main.go: the life of each pod, as the controller sees it.
use eco_kube.Prelude.{
  ◌≡◌, refl, ap, sym, subst, ◌∙◌, true, false, Bool, ◌&&◌, not, if◌then◌else◌, Option, none, some,
  List, [], ◌∷◌, String, arith, Bool-cases, inl, inr,
}
use eco_kube.Prelude.Text.{
  str_eq, eq_iff, StringMap, entry, remove, entry-put_same, entry-put_other, entry-remove_same,
}
use eco_kube.Prelude.Float.{Float64}
use eco_kube.Core.Types.{Time, is_zero}
use eco_kube.Controller.Pods.{Pod, pod_start_time, pod_completion_time}
use eco_kube.Controller.States.{
  PodState, States, observe_pod, drop_state, seen_state, known_state, fresh,
}
use eco_kube.Controller.Lifecycle.{
  Event, pod_seen, pod_deleted, tombstone, Watch, handle, handle_all,
}

-- A pod is unknown, known but not started, or started.
pub data Phase : Type 0 where
  unknown : Phase
  waiting : Phase
  running : Phase

-- What an event shows of one pod: whether it has started, whether it has ended, its deletion, or a
-- deletion that was missed.
pub data Sign : Type 0 where
  shown : Bool → Bool → Sign
  gone : Sign
  missed : Sign

-- The life of a pod: one that has ended or is deleted is unknown again, but a missed deletion changes
-- nothing.
abbrev pub next_phase : Phase → Sign → Phase
next_phase p gone = unknown
next_phase p missed = p
next_phase p (shown started true) = unknown
next_phase p (shown true false) = running
next_phase running (shown false false) = running
next_phase waiting (shown false false) = waiting
next_phase unknown (shown false false) = waiting

abbrev pub last_phase : Phase → List Sign → Phase
last_phase p [] = p
last_phase p (s ∷ ss) = last_phase (next_phase p s) ss

entry-remove_other :
    {V : Type 0} (m : StringMap V) (k q : String)
    → str_eq q k ≡ false
    → entry (remove m k) q ≡ entry m q
unfolding entry remove
entry-remove_other [] k q h = refl
entry-remove_other (e ∷ m) k q h =
    ground (arith, eq_iff q k, eq_iff k (e.0), eq_iff q (e.0), entry-remove_other m k q h)

-- The phase of a pod with a state, by its instant of start, where `z` tells the zero time.
abbrev phase_by : (Time → Bool) → Time → Phase
phase_by z t = if z t then waiting else running

phase_by-fill :
    (z : Time → Bool) (start t : Time)
    → phase_by z (if not (z start) && z t then start else t)
      ≡ next_phase (phase_by z t) (shown (not (z start)) false)
phase_by-fill z start t =
    ap (λ c. if c then waiting else running) (through (not (z start) && z t))
    ∙ decided (z start) (z t)
  where
    through : (b : Bool) → z (if b then start else t) ≡ (if b then z start else z t)
    through true = refl
    through false = refl

    decided :
        (a b : Bool)
        → (if (if not a && b then a else b) then waiting else running)
          ≡ next_phase (if b then waiting else running) (shown (not a) false)
    decided true true = refl
    decided true false = refl
    decided false true = refl
    decided false false = refl

choose :
    (b : Bool) (x y z : Phase) → (b ≡ true → x ≡ y) → (b ≡ false → x ≡ z) → x ≡ (if b then y else z)
choose true x y z h k = h refl
choose false x y z h k = k refl

ended_unknown : (p : Phase) (b : Bool) → next_phase p (shown b true) ≡ unknown
ended_unknown p true = refl
ended_unknown p false = refl

-- A pod that is not known is taken for one that waits.
waiting_or_unknown :
    (b : Bool) → next_phase waiting (shown b false) ≡ next_phase unknown (shown b false)
waiting_or_unknown true = refl
waiting_or_unknown false = refl

module _ {F : Type 0} where
  abbrev pub pod_of : Event F → Pod F
  pod_of (pod_seen pod) = pod
  pod_of (pod_deleted pod) = pod
  pod_of (tombstone pod) = pod

  abbrev pub sign_of : Event F → Sign
  sign_of (pod_seen pod) =
      shown (not (is_zero (pod_start_time pod))) (not (is_zero (pod_completion_time pod)))
  sign_of (pod_deleted pod) = gone
  sign_of (tombstone pod) = missed

  -- The events of one pod, as signs.
  abbrev pub signs_of : String → List (Event F) → List Sign
  signs_of uid [] = []
  signs_of uid (e ∷ es) =
      let rest = signs_of uid es in if str_eq uid (pod_of e).uid then sign_of e ∷ rest else rest

  abbrev phase_of : Option (PodState F) → Phase
  phase_of none = unknown
  phase_of (some s) = phase_by is_zero s.trace.started_at

  -- The phase that the stored states give a pod.
  abbrev pub phase_in : States F → String → Phase
  phase_in states uid = phase_of (entry states uid)

module _ {F : Type 0} ⦃d : Float64 F⦄ (scheduler : String) where
  observed_other :
      (states : States F) (pod : Pod F) (uid : String)
      → str_eq uid pod.uid ≡ false
      → entry (observe_pod scheduler states pod).states uid ≡ entry states uid
  unfolding observe_pod drop_state
  observed_other states pod uid h = elim (Bool-cases (is_zero (pod_completion_time pod))) [
    | inl e ↦ rw (e, observe_pod) (entry-put_other states pod.uid _ uid h)
    | inr e ↦
        rw (e, observe_pod)
          (entry-remove_other _ pod.uid uid h ∙ entry-put_other states pod.uid _ uid h)
  ]

  seen_phase :
      (pod : Pod F) (start end : Time) (s : PodState F)
      → phase_of (some (seen_state scheduler pod start end s))
        ≡ next_phase (phase_of (some s)) (shown (not (is_zero start)) false)
  unfolding seen_state
  seen_phase pod start end s = phase_by-fill is_zero start s.trace.started_at

  known_phase :
      (states : States F) (pod : Pod F) (b : Bool)
      → next_phase (phase_of (some (known_state states pod (fresh scheduler pod)))) (shown b false)
        ≡ next_phase (phase_in states pod.uid) (shown b false)
  unfolding known_state
  known_phase states pod b = go (entry states pod.uid)
    where
      go :
          (o : Option (PodState F))
          → next_phase
              (phase_of (some (elim o [ none ↦ fresh scheduler pod | some s ↦ s ])))
              (shown b false)
            ≡ next_phase (phase_of o) (shown b false)
      go none = waiting_or_unknown b
      go (some s) = refl

  observed_phase :
      (states : States F) (pod : Pod F)
      → phase_in (observe_pod scheduler states pod).states pod.uid
        ≡ next_phase (phase_in states pod.uid) (sign_of (pod_seen pod))
  unfolding observe_pod drop_state
  observed_phase states pod = elim (Bool-cases (is_zero (pod_completion_time pod))) [
    | inl e ↦
        rw (e, observe_pod)
          (ap phase_of (entry-put_same states pod.uid _)
            ∙ seen_phase pod (pod_start_time pod) (pod_completion_time pod)
                (known_state states pod (fresh scheduler pod))
            ∙ known_phase states pod (not (is_zero (pod_start_time pod))))
    | inr e ↦
        rw (e, observe_pod)
          (ap phase_of (entry-remove_same _ pod.uid)
            ∙ sym (ended_unknown (phase_in states pod.uid) (not (is_zero (pod_start_time pod)))))
  ]

  same_uid : (uid : String) (pod : Pod F) → str_eq uid pod.uid ≡ true → uid ≡ pod.uid
  same_uid uid pod q = ground (arith, eq_iff uid pod.uid)

  handled_phase :
      (w : Watch F) (e : Event F) (uid : String)
      → phase_in (handle scheduler w e).states uid ≡ (
          if str_eq uid (pod_of e).uid
          then next_phase (phase_in w.states uid) (sign_of e)
          else phase_in w.states uid)
  unfolding handle drop_state
  handled_phase w (pod_seen pod) uid =
      choose (str_eq uid pod.uid) _ _ _
        (λ q.
          subst
            (λ u.
              phase_in (observe_pod scheduler w.states pod).states u
              ≡ next_phase (phase_in w.states u) (sign_of (pod_seen pod)))
            (sym (same_uid uid pod q)) (observed_phase w.states pod))
        (λ q. ap phase_of (observed_other w.states pod uid q))
  handled_phase w (pod_deleted pod) uid =
      choose (str_eq uid pod.uid) _ _ _
        (λ q.
          subst (λ u. phase_in (remove w.states pod.uid) u ≡ unknown) (sym (same_uid uid pod q))
            (ap phase_of (entry-remove_same w.states pod.uid)))
        (λ q. ap phase_of (entry-remove_other w.states pod.uid uid q))
  handled_phase w (tombstone pod) uid = choose (str_eq uid pod.uid) _ _ _ (λ q. refl) (λ q. refl)

  -- After any sequence of the informer's events, the states give every pod the phase that its own
  -- events give it, in their order: the events of other pods do not matter, nothing is kept of a pod
  -- that was last shown ended or whose deletion came as a pod, and a deletion that came as a tombstone
  -- leaves what was known.
  pub handle_all-last_phase :
      (w : Watch F) (es : List (Event F)) (uid : String)
      → phase_in (handle_all scheduler w es).states uid
        ≡ last_phase (phase_in w.states uid) (signs_of uid es)
  unfolding handle_all
  handle_all-last_phase w [] uid = refl
  handle_all-last_phase w (e ∷ es) uid =
      handle_all-last_phase (handle scheduler w e) es uid
      ∙ step (phase_in (handle scheduler w e).states uid) (str_eq uid (pod_of e).uid)
          (handled_phase w e uid)
    where
      step :
          (p : Phase) (b : Bool)
          → p
            ≡ (if b then next_phase (phase_in w.states uid) (sign_of e) else phase_in w.states uid)
          → last_phase p (signs_of uid es)
            ≡ last_phase
                (phase_in w.states uid)
                (if b then sign_of e ∷ signs_of uid es else signs_of uid es)
      step p true h = ap (λ q. last_phase q (signs_of uid es)) h
      step p false h = ap (λ q. last_phase q (signs_of uid es)) h
