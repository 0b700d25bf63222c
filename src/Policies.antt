-- ===== src/Policies.antt =====
-- policies: the scoring policies. What they share is here: the score map that a policy fills node
-- by node, and the carbon model that they ask (hetsched/pkg/metrics), an interface of two functions.
-- The model's own partiality, a panic on a malformed profile, is left out of the interface.
pub mod Scored
pub mod Candidate
pub mod Offers
pub mod K8sched
pub mod Carbonscaler
pub mod Keids
pub mod Topsis
pub mod Ecokube
pub mod Archive
pub mod Metered
mod ArchiveSamples
mod Samples
use eco_kube.Prelude.{ℕ, suc, ◌*◌, Bool, Option, none, some, List, [], ◌∷◌, String, if◌then◌else◌}
use eco_kube.Prelude.Int.{pos, leb_ℤ}
use eco_kube.Prelude.Text.{put, str_eq}
use eco_kube.Prelude.Float.{Float64, lt, nought, ◌⊗◌}
use eco_kube.Core.Types.{
  Time, Duration, second, sub_time, is_zero, unix_epoch, seconds, of_seconds, Workload, Job,
  SimulatedNode,
}
use eco_kube.Core.Node.{next_release_after}
use eco_kube.Core.ArgMin.{Scores}

-- `ComputeEnergyAndCarbon` and `EstimateCarbonIntensity`
pub record CarbonModel (F : Type 0) : Type 0 where
  pub energy_and_carbon : SimulatedNode F → Workload F → Time → F × F
  pub intensity : SimulatedNode F → Time → F

abbrev or_time : Time → Time → Time
or_time t u = if is_zero t then u else t

-- The `Now` of a policy, where it is set; else the submission of the job.
abbrev pub policy_now : Option Time → Time → Time
policy_now now submit_at = elim now [ none ↦ submit_at | some t ↦ or_time t submit_at ]

-- The instant at which nodes are compared.
abbrev pub gather_now : Time → Time → Time
gather_now now submit_at = or_time (or_time now submit_at) unix_epoch

module _ {F : Type 0} ⦃d : Float64 F⦄ where
  -- `ComputeCICost`: grams of carbon.
  abbrev pub ci_cost : CarbonModel F → SimulatedNode F → Workload F → Time → F
  ci_cost model n w at = (model.energy_and_carbon n w at).1 ⊗ d.dec 1000 0

  -- A loop that scores some of the items `xs`; `i` counts those scored before.
  unfoldable pub put_all {ℓ} :
      {A : Type ℓ} → (ℕ → A → Option (String × F)) → ℕ → List A → Scores F → Scores F
  put_all f i [] m = m
  put_all f i (x ∷ xs) m = elim (f i x) [
    | none ↦ put_all f i xs m
    | some (k, v) ↦ put_all f (suc i) xs (put m k v)
  ]

  abbrev pub sentinel : Scores F
  sentinel = ("", d.inf) ∷ []

  -- `if len(scores) == 0 { scores[""] = math.Inf(1) }`
  abbrev pub or_sentinel : Scores F → Scores F
  or_sentinel [] = sentinel
  or_sentinel (e ∷ es) = e ∷ es

  unfoldable pub pick_node_id : SimulatedNode F → String
  pick_node_id n = if str_eq n.name "" then n.id else n.name

  unfoldable pub runtime_seconds : Job F → F
  runtime_seconds job =
      if lt nought job.estimated_duration then job.estimated_duration else d.dec 60 0

  -- How long until the node next releases something, in seconds.
  unfoldable pub queue_seconds : SimulatedNode F → Time → F
  unfolding next_release_after sub_time
  queue_seconds n now =
      let next = next_release_after n now in
      let wait = seconds (sub_time next now) in
      if is_zero next then nought else if lt wait nought then nought else wait

  unfoldable pub workload_from_job : Job F → Workload F
  workload_from_job j =
      let dur = of_seconds j.estimated_duration in
      record {
        id = j.id;
        submit_time = j.submit_at;
        duration = if leb_ℤ dur (pos 0) then pos (60 * second) else dur;
        cpu = j.cpu_req;
        memory = j.mem_req;
        tag = "";
        labels = j.labels;
        class = j.class;
      }

  -- The workload that `k8sched` and `carbonscaler` build: the duration as it is, and no class.
  unfoldable pub plain_workload : Job F → Workload F
  plain_workload j = record {
    id = j.id;
    submit_time = j.submit_at;
    duration = of_seconds j.estimated_duration;
    cpu = j.cpu_req;
    memory = j.mem_req;
    tag = "";
    labels = j.labels;
    class = "";
  }
