-- ===== src/Controller/Pods.antt =====
-- controller/main.go: what the controller reads off a pod. Pods and resource quantities are types
-- of Kubernetes: here they are the fields and the results of the methods that the code uses.
use eco_kube.Prelude.{
  Bool, false, ◌&&◌, not, Option, none, some, List, [], ◌∷◌, String, if◌then◌else◌,
}
use eco_kube.Prelude.Int.{ℤ, pos, ltb_ℤ, leb_ℤ}
use eco_kube.Prelude.Text.{StringMap, index, str_eq, equal_fold}
use eco_kube.Prelude.Float.{Float64, lt, le, eq, nought, ◌⊕◌, ◌⊘◌}
use eco_kube.Core.Types.{Time, Duration, zero_time, of_seconds}
use eco_kube.Core.Class.{normalise_class, class_gpu}
use eco_kube.Engine.Types.{Job}

-- `MilliValue`, `Value`, `AsInt64` and `AsApproximateFloat64` of a quantity.
pub record Quantity (F : Type 0) : Type 0 where
  pub milli : ℤ
  pub value : ℤ
  pub as_int64 : Option ℤ
  pub approximate : F

pub record ResourceList (F : Type 0) : Type 0 where
  pub cpu : Option (Quantity F)
  pub memory : Option (Quantity F)

pub record Container (F : Type 0) : Type 0 where
  pub requests : ResourceList F
  pub limits : ResourceList F

-- When a container that has ended started and finished.
pub record Terminated : Type 0 where
  pub started_at : Time
  pub finished_at : Time

pub record ContainerStatus : Type 0 where
  pub running : Option Time
  pub terminated : Option Terminated
  pub last_terminated : Option Terminated

pub record Pod (F : Type 0) : Type 0 where
  pub uid : String
  pub key : String
  pub node_name : String
  pub scheduler_name : String
  pub deleted : Bool
  pub labels : StringMap String
  pub annotations : StringMap String
  pub created : Time
  pub start_time : Option Time
  pub init_containers : List (Container F)
  pub containers : List (Container F)
  pub statuses : List ContainerStatus

abbrev running_since : List ContainerStatus → Time
running_since [] = zero_time
running_since (s ∷ ss) = elim s.running [
  | some t ↦ t
  | none ↦ elim s.last_terminated [ some e ↦ e.started_at | none ↦ running_since ss ]
]

abbrev finished_since : List ContainerStatus → Time
finished_since [] = zero_time
finished_since (s ∷ ss) = elim s.terminated [
  | some e ↦ e.finished_at
  | none ↦ elim s.last_terminated [ some e ↦ e.finished_at | none ↦ finished_since ss ]
]

module _ {F : Type 0} where
  unfoldable pub pod_start_time : Pod F → Time
  pod_start_time pod = elim pod.start_time [ some t ↦ t | none ↦ running_since pod.statuses ]

  unfoldable pub pod_completion_time : Pod F → Time
  pod_completion_time pod = finished_since pod.statuses

  unfoldable pub should_schedule : String → Pod F → Bool
  unfolding index
  should_schedule scheduler pod =
      if pod.deleted
      then false
      else if not (str_eq pod.node_name "")
      then false
      else if not (str_eq scheduler "")
          && (not (str_eq pod.scheduler_name "") && not (str_eq pod.scheduler_name scheduler))
      then false
      else not (str_eq (index pod.annotations "ci-aware/scheduled") "true")

  unfoldable pub pod_class : Pod F → String
  unfolding index normalise_class equal_fold
  pod_class pod =
      let own = normalise_class (index pod.labels "ciw/resource_class") in
      let shared = normalise_class (index pod.labels "resource_class") in
      if not (str_eq own "")
      then own
      else if not (str_eq shared "")
      then shared
      else if equal_fold (index pod.labels "gpu") "true"
      then class_gpu
      else normalise_class (index pod.annotations "ciw/class")

  unfoldable pub pod_job_id : Pod F → String
  unfolding index
  pod_job_id pod = let v = index pod.labels "ciw/workload_id" in if str_eq v "" then pod.uid else v

module _ {F : Type 0} ⦃d : Float64 F⦄ where
  unfoldable pub qty_to_cores : Quantity F → F
  qty_to_cores q =
      if ltb_ℤ (pos 0) q.milli then d.of_int q.milli ⊘ d.dec 10_000 1 else elim q.as_int64 [
        | none ↦ q.approximate
        | some v ↦ if ltb_ℤ (pos 0) v then d.of_int v else q.approximate
      ]

  unfoldable pub qty_to_gib : Quantity F → F
  qty_to_gib q = if leb_ℤ q.value (pos 0) then nought else d.of_int q.value ⊘ d.dec 1_073_741_824 0

  abbrev plus_part : (Quantity F → F) → Option (Quantity F) → F → F
  plus_part f o x = elim o [ none ↦ x | some q ↦ x ⊕ f q ]

  unfoldable pub add_resources : ResourceList F → F × F → F × F
  unfolding qty_to_cores qty_to_gib
  add_resources r (cpu, mem) = (plus_part qty_to_cores r.cpu cpu, plus_part qty_to_gib r.memory mem)

  -- One step of the loops: the limits count only while nothing has been added.
  unfoldable pub add_container : Container F → F × F → F × F
  unfolding add_resources
  add_container c sum =
      let (cpu, mem) = add_resources c.requests sum in
      if eq cpu nought && eq mem nought then add_resources c.limits (cpu, mem) else (cpu, mem)

  unfoldable pub add_containers : List (Container F) → F × F → F × F
  add_containers [] sum = sum
  add_containers (c ∷ cs) sum = add_containers cs (add_container c sum)

  unfoldable pub pod_resources : Pod F → F × F
  unfolding add_containers add_container
  pod_resources pod =
      add_containers pod.containers (add_containers pod.init_containers (nought, nought))

  -- A number of the annotation that passes the test, or 0.
  abbrev annotated : (F → Bool) → Pod F → String → F
  unfolding index
  annotated good pod k =
      let v = index pod.annotations k in
      if str_eq v ""
      then nought
      else elim (d.parse v) [ none ↦ nought | some f ↦ if good f then f else nought ]

  unfoldable pub pod_duration : Pod F → Duration
  unfolding index
  pod_duration pod =
      let v = index pod.annotations "ciw/duration_req_s" in
      if str_eq v ""
      then pos 0
      else elim (d.parse v) [ none ↦ pos 0 | some f ↦ if lt nought f then of_seconds f else pos 0 ]

  unfoldable pub extract_job : Pod F → Job F
  unfolding pod_resources annotated pod_class pod_job_id
  extract_job pod =
      let (cpu, mem) = pod_resources pod in
      record {
        id = pod_job_id pod;
        cpu = cpu;
        memory_gb = mem;
        deadline = zero_time;
        profile = "";
        tags = pod.labels;
        estimated_duration = annotated (lt nought) pod "ciw/duration_req_s";
        submit_time = pod.created;
        slack_seconds = annotated (le nought) pod "ciw/max_defer_s";
        class = pod_class pod;
      }
