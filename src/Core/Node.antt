-- ===== src/Core/Node.antt =====
-- SimulatedNode.go: admission, reservations and the release of resources, and adapter.go.
pub mod Capacity
pub mod Release
pub mod Whole
pub mod Holds
pub mod Samples
use eco_kube.Prelude.{
  ℕ, zero, suc, Bool, true, false, not, ◌&&◌, ◌||◌, Option, none, some, List, [], ◌∷◌, ◌++◌, String,
  if◌then◌else◌,
}
use eco_kube.Prelude.Int.{◌+ℤ◌, pos}
use eco_kube.Prelude.Text.{StringMap, index, equal_fold, str_eq}
use eco_kube.Prelude.Float.{Float64, lt, nought, one, min, ◌⊕◌, ◌⊖◌, ◌⊘◌}
use eco_kube.Core.Types.{
  Time, before, after, is_zero, zero_time, seconds, Workload, Job, Reservation, SimulatedNode,
}

-- The GPU test of both admission functions, on the labels of the request and of the node.
unfoldable pub gpu_ok : StringMap String → StringMap String → Bool
unfolding equal_fold index
gpu_ok wanted has =
    if equal_fold (index wanted "requires_gpu") "true"
    then equal_fold (index has "gpu") "true"
    else true

-- The body of the loop of `NextReleaseAfter`: the new value of `earliest`.
sooner : Time → Time → Time → Time
sooner t end earliest =
    if after end t && (is_zero earliest || before end earliest) then end else earliest

module _ {F : Type 0} ⦃d : Float64 F⦄ where
  unfoldable pub new_node : String → F → F → F → SimulatedNode F
  new_node name cpu mem ci = record {
    id = "";
    name = name;
    total_cpu = cpu;
    total_memory = mem;
    available_cpu = cpu;
    available_memory = mem;
    carbon_intensity = ci;
    labels = [];
    metadata = [];
    device_class = "";
    reservations = [];
    site_id = "";
    site = none;
  }

  unfoldable pub can_accept : SimulatedNode F → Workload F → Bool
  can_accept n w =
      if lt n.available_cpu w.cpu || lt n.available_memory w.memory
      then false
      else gpu_ok w.labels n.labels

  unfoldable pub can_accept_job : SimulatedNode F → Job F → Bool
  can_accept_job n j =
      if lt n.available_cpu j.cpu_req || lt n.available_memory j.mem_req
      then false
      else gpu_ok j.labels n.labels

  -- The workload as a job.
  unfoldable pub job_view : Workload F → Job F
  job_view w = record {
    id = w.id;
    cpu_req = w.cpu;
    mem_req = w.memory;
    deadline_ms = pos 0;
    tags = [];
    estimated_duration = seconds w.duration;
    labels = w.labels;
    submit_at = w.submit_time;
    class = "";
  }

  unfoldable pub reserve : SimulatedNode F → Workload F → Time → SimulatedNode F
  unfolding ◌+ℤ◌
  reserve n w start = record n {
    available_cpu = n.available_cpu ⊖ w.cpu;
    available_memory = n.available_memory ⊖ w.memory;
    reservations =
        n.reservations ++ (record { end = start +ℤ w.duration; cpu = w.cpu; mem = w.memory } ∷ []);
  }

  -- The loop of `Release` over the reservations `rs`, with those kept so far in `out`.
  unfoldable pub release_loop :
      Time → List (Reservation F) → List (Reservation F) → SimulatedNode F → SimulatedNode F
  release_loop t [] out n = record n { reservations = out }
  release_loop t (r ∷ rs) out n =
      let ended = not (after r.end t) in
      release_loop t rs (if ended then out else out ++ (r ∷ [])) (
        if ended
        then record n {
          available_cpu = min (n.available_cpu ⊕ r.cpu) n.total_cpu;
          available_memory = min (n.available_memory ⊕ r.mem) n.total_memory;
        }
        else n)

  unfoldable pub release : SimulatedNode F → Time → SimulatedNode F
  unfolding release_loop
  release n t = release_loop t n.reservations [] n

  next_release_loop : Time → List (Reservation F) → Time → Time
  next_release_loop t [] earliest = earliest
  next_release_loop t (r ∷ rs) earliest = next_release_loop t rs (sooner t r.end earliest)

  -- The earliest end after `t`, or the zero time.
  unfoldable pub next_release_after : SimulatedNode F → Time → Time
  unfolding next_release_loop sooner
  next_release_after n t = next_release_loop t n.reservations zero_time

  -- (ci - 50) / 650 within 0 and 1.
  abbrev pub scaled_ci : F → F
  scaled_ci ci =
      let v = (ci ⊖ d.dec 50 0) ⊘ d.dec 650 0 in
      let v' = if lt v nought then nought else v in if lt one v' then one else v'

  unfoldable pub current_ci_norm : SimulatedNode F → F
  current_ci_norm n =
      let profile = index n.labels "ci_profile" in
      if str_eq profile "low"
      then d.dec 2 1
      else if str_eq profile "medium"
      then d.dec 5 1
      else if str_eq profile "high"
      then d.dec 8 1
      else if lt nought n.carbon_intensity
      then scaled_ci n.carbon_intensity
      else d.dec 5 1
