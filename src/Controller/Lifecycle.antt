-- ===== src/Controller/Lifecycle.antt =====
-- controller/main.go: the handlers of the pod informer, and what a sequence of its events leaves.
use eco_kube.Prelude.{List, [], ◌∷◌, ◌++◌, String, if◌then◌else◌}
use eco_kube.Prelude.Float.{Float64}
use eco_kube.Engine.Types.{Trace}
use eco_kube.Controller.Pods.{Pod, should_schedule}
use eco_kube.Controller.States.{States, observe_pod, drop_state}

-- An addition or an update shows a pod; a deletion shows the last of it. A deletion that the informer
-- has missed comes as a tombstone, an object that is not a pod, of which the pod is given here only to
-- say whose it is.
pub data Event (F : Type 0) : Type 0 where
  pod_seen : Pod F → Event F
  pod_deleted : Pod F → Event F
  tombstone : Pod F → Event F

-- The states, the keys added to the work queue, and the traces written.
pub record Watch (F : Type 0) : Type 0 where
  pub states : States F
  pub queued : List String
  pub written : List (Trace F)

module _ {F : Type 0} ⦃d : Float64 F⦄ where
  -- A key that MetaNamespaceKeyFunc cannot make is left out.
  unfoldable pub enqueue_if_needed : String → Pod F → List String → List String
  unfolding should_schedule
  enqueue_if_needed scheduler pod queued =
      if should_schedule scheduler pod then queued ++ (pod.key ∷ []) else queued

  unfoldable pub handle : String → Watch F → Event F → Watch F
  unfolding observe_pod drop_state enqueue_if_needed
  handle scheduler w (pod_seen pod) =
      let o = observe_pod scheduler w.states pod in
      record {
        states = o.states;
        queued = enqueue_if_needed scheduler pod w.queued;
        written = w.written ++ o.written;
      }
  handle scheduler w (pod_deleted pod) = record w { states = drop_state w.states pod }
  -- The assertion that the object is a pod fails.
  handle scheduler w (tombstone pod) = w

  unfoldable pub handle_all : String → Watch F → List (Event F) → Watch F
  unfolding handle
  handle_all scheduler w [] = w
  handle_all scheduler w (e ∷ es) = handle_all scheduler (handle scheduler w e) es
