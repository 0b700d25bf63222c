-- ===== src/Controller/Placement.antt =====
-- controller/main.go: where schedulePod binds a pod.
use eco_kube.Prelude.{
  ◌≡◌, refl, subst, Option, none, some, List, [], ◌∷◌, String, ok, ◌≢◌, Bool-cases, Option-cases,
  inl, inr, ◌⊎◌, arith,
}
use mathlib.Core.Option.{some-injective}
use eco_kube.Prelude.Int.{pos, ltb_ℤ}
use eco_kube.Prelude.Text.{str_eq, eq_iff}
use eco_kube.Prelude.Float.{Float64}
use eco_kube.Core.Types.{Time}
use eco_kube.Engine.Types.{Job, Deps, Decision, Trace}
use eco_kube.Policies.{CarbonModel}
use eco_kube.Controller.{NodeView, ClusterSnapshot, view_by_id}
use eco_kube.Controller.Schedulers.{Scheduler, Plan}
use eco_kube.Controller.Setup.{BindError, already_exists, invalid, other_error, bind_pod}
use eco_kube.Controller.Pods.{Pod, extract_job}
use eco_kube.Controller.Flow.{bind_selected, follow_plan, effective, stamp, schedule_pod}

-- The answers that bindPod takes for success: no error, or that the binding is there already, or
-- that it is invalid.
abbrev pub IsTakenAsBound : Option BindError → Type 0
IsTakenAsBound a = (a ≡ none) ⊎ ((a ≡ some already_exists) ⊎ (a ≡ some invalid))

taken_as_bound :
    (bind : String → Option BindError) (id : String)
    → bind_pod bind id ≡ none
    → (id ≢ "") × IsTakenAsBound (bind id)
unfolding bind_pod
taken_as_bound bind id e = elim (Bool-cases (str_eq id "")) [
  | inl empty ↦ absurd (cc (rw (empty, bind_pod) at e))
  | inr named ↦
      ((λ q. ground (arith, eq_iff id "")), answered (bind id) (rw (named, bind_pod) at e))
]
  where
    answered :
        (a : Option BindError)
        → elim a [
          | none ↦ none
          | some b ↦ elim b [
            | already_exists ↦ none
            | invalid ↦ none
            | other_error text ↦ some text
          ]
        ]
          ≡ none
        → IsTakenAsBound a
    answered none h = inl refl
    answered (some already_exists) h = inr (inl refl)
    answered (some invalid) h = inr (inr refl)
    answered (some (other_error text)) h = absurd (cc h)

module _ {F : Type 0} ⦃d : Float64 F⦄ where
  -- A node with a name and a view in the snapshot, whose binding bindPod takes for a success.
  abbrev pub IsBound : (String → Option BindError) → ClusterSnapshot F → String → Type 0
  IsBound bind snap id =
      (id ≢ "") × ((v : NodeView F) × (view_by_id snap id ≡ some v)) × IsTakenAsBound (bind id)

  bind_selected-IsBound :
      (model : CarbonModel F) (deps : Deps F) (now : Time) (bind : String → Option BindError)
      (snap : ClusterSnapshot F) (job : Job F) (dec : Decision) (t : Trace F) (id : String)
      → (bind_selected model deps now bind snap job dec t).bound ≡ some id
      → IsBound bind snap id
  unfolding bind_selected
  bind_selected-IsBound model deps now bind snap job dec t id e =
      elim (Option-cases (view_by_id snap dec.node_id)) [
        | inl n ↦ absurd (cc (rw (n, bind_selected) at e))
        | inr (v, s) ↦ elim (Option-cases (bind_pod bind dec.node_id)) [
          | inr (x, b) ↦ absurd (cc (rw (s, b, bind_selected) at e))
          | inl b ↦
              let same : dec.node_id ≡ id = some-injective _ _ (rw (s, b, bind_selected) at e) in
              let (named, answer) = taken_as_bound bind dec.node_id b in
              subst (IsBound bind snap) same (named, (v, s), answer)
        ]
      ]

  follow_plan-IsBound :
      (model : CarbonModel F) (deps : Deps F) (now : Time) (bind : String → Option BindError)
      (snap : ClusterSnapshot F) (job : Job F) (plan : Plan F) (t : Trace F) (id : String)
      → (follow_plan model deps now bind snap job plan t).bound ≡ some id
      → IsBound bind snap id
  unfolding follow_plan
  follow_plan-IsBound model deps now bind snap job plan t id e =
      elim (Bool-cases (ltb_ℤ (pos 0) plan.defer_for)) [
        | inl w ↦ absurd (cc (rw (w, follow_plan) at e))
        | inr w ↦ elim (Option-cases plan.error) [
          | inr (x, b) ↦ absurd (cc (rw (w, b, follow_plan) at e))
          | inl b ↦
              bind_selected-IsBound model deps now bind snap job plan.decision t id
                (rw (w, b, follow_plan) at e)
        ]
      ]

  -- An attempt that reports the pod bound names a node with a name and with a view in the snapshot
  -- that the scheduler saw, and the API server has accepted the binding, or has answered that it is
  -- there already or is invalid, which bindPod takes for a success.
  pub schedule_pod-IsBound :
      (model : CarbonModel F) (deps : Deps F) (s : Scheduler F) (run_id : String) (now : Time)
      (snap : ClusterSnapshot F) (bind : String → Option BindError) (pod : Pod F) (id : String)
      → (schedule_pod model deps s run_id now (ok snap) bind pod).bound ≡ some id
      → IsBound bind (effective s snap) id
  unfolding schedule_pod
  schedule_pod-IsBound model deps s run_id now snap bind pod id e = attempt snap.views refl
    where
      attempt :
          (views : List (NodeView F)) → snap.views ≡ views → IsBound bind (effective s snap) id
      attempt [] v = absurd (cc (rw (v, schedule_pod) at e))
      attempt (_ ∷ _) v =
          follow_plan-IsBound model deps now bind (effective s snap) (extract_job pod)
            (s.schedule (extract_job pod) (effective s snap))
            (stamp s.name run_id (extract_job pod)
              (s.schedule (extract_job pod) (effective s snap)))
            id (rw (v, schedule_pod) at e)
