-- ===== src/Core/Sim.antt =====
-- basesim.go: the simulator. Nodes are pointers there; here a node is its place in the list, which
-- no operation reorders. A custom SelectFunc is a choice of such a place.
pub mod Select
pub mod Rounds
pub mod Conservation
pub mod Timeline
pub mod Capacity
pub mod Starvation
pub mod Load
pub mod Steps
pub mod Progress
mod Samples
use eco_kube.Prelude.{
  ℕ, zero, suc, Bool, true, false, not, ◌&&◌, ◌||◌, Option, none, some, List, [], ◌∷◌, ◌++◌, String,
  map, get_elem?, set, if◌then◌else◌,
}
use eco_kube.Prelude.Int.{ℤ, pos, ◌+ℤ◌, leb_ℤ, ltb_ℤ, quot}
use eco_kube.Prelude.Text.{str_eq}
use eco_kube.Prelude.Float.{Float64, nought}
use eco_kube.Core.Types.{
  Time, Duration, before, after, is_zero, zero_time, second, sub_time, Workload, SimulatedNode,
}
use eco_kube.Core.Node.{reserve, release, next_release_after}
use eco_kube.Core.Policy.{Policy, DecisionTrace}
use Select.{Selector, select_node}

pub record LogEntry (F : Type 0) : Type 0 where
  pub job_id : String
  pub node : String
  pub site : String
  pub submit : Time
  pub start : Time
  pub end : Time
  pub wait_ms : ℤ
  pub ci_cost : F

-- `traces` is what the tracer has been handed, the latest last.
pub record BaseSim (F : Type 0) : Type 0 where
  pub clock : Time
  pub nodes : List (SimulatedNode F)
  pub batch : ℤ
  pub pending : List (Workload F)
  pub logs_buf : List (LogEntry F)
  pub selector : Selector F
  pub ci_calc : Option (SimulatedNode F → Workload F → Time → F)
  pub traces : List (DecisionTrace F)

-- The loop over the queue: the workloads kept for the next round, and how many were scheduled.
pub record Round (F : Type 0) : Type 0 where
  pub sim : BaseSim F
  pub next : List (Workload F)
  pub scheduled : ℕ

-- Between two rounds of `Run`: `arrivals` is `Pending[i:]`.
pub record Running (F : Type 0) : Type 0 where
  pub sim : BaseSim F
  pub arrivals : List (Workload F)
  pub queue : List (Workload F)

sooner_end : Time → Time → Time
sooner_end t earliest =
    if not (is_zero t) && (is_zero earliest || before t earliest) then t else earliest

module _ {F : Type 0} ⦃d : Float64 F⦄ where
  -- `Init` leaves `Select` and `CICalc` as they were.
  unfoldable pub init : BaseSim F → List (SimulatedNode F) → Option (Policy F) → BaseSim F
  init b nodes pol = record b {
    clock = zero_time;
    nodes = nodes;
    batch = pos 1;
    pending = [];
    logs_buf = [];
    selector = record { select = b.selector.select; policy = pol; traced = false };
  }

  unfoldable pub set_schedule_batch_size : BaseSim F → ℤ → BaseSim F
  set_schedule_batch_size b n = if ltb_ℤ (pos 0) n then record b { batch = n } else b

  unfoldable pub add_workload : BaseSim F → Workload F → BaseSim F
  add_workload b w = record b { pending = b.pending ++ (w ∷ []) }

  abbrev site_of : SimulatedNode F → String
  site_of n = elim n.site [ some s ↦ s.id | none ↦ n.site_id ]

  abbrev cost_of : BaseSim F → SimulatedNode F → Workload F → F
  cost_of b n w = elim b.ci_calc [ none ↦ nought | some f ↦ f n w b.clock ]

  unfoldable pub log_entry : BaseSim F → SimulatedNode F → Workload F → LogEntry F
  log_entry b n w = record {
    job_id = w.id;
    node = n.name;
    site = site_of n;
    submit = w.submit_time;
    start = b.clock;
    end = b.clock +ℤ w.duration;
    wait_ms = quot (sub_time b.clock w.submit_time) 1_000_000;
    ci_cost = cost_of b n w;
  }

  abbrev keep : Round F → Workload F → Round F
  keep r w = record r { next = r.next ++ (w ∷ []) }

  -- The part of the body from `Reserve` on, on the node at place `i`.
  unfoldable pub place_on : Round F → Workload F → ℕ → SimulatedNode F → Round F
  place_on r w i n = record r {
    sim = record (r.sim) {
      nodes = set r.sim.nodes i (reserve n w r.sim.clock);
      logs_buf = r.sim.logs_buf ++ (log_entry r.sim n w ∷ []);
    };
    scheduled = suc r.scheduled;
  }

  -- What the selection leaves behind: the traces, and the placement if there is one.
  unfoldable pub place_selected : Round F → Workload F → Option ℕ → Round F
  place_selected r w none = keep r w
  place_selected r w (some i) = elim (get_elem? r.sim.nodes i) [
    | none ↦ keep r w
    | some n ↦ place_on r w i n
  ]

  -- The body of the loop over the queue.
  unfoldable pub visit : Round F → Workload F → Round F
  visit r w =
      if leb_ℤ r.sim.batch (pos r.scheduled)
      then keep r w
      else (let (place, traces) = select_node r.sim.selector r.sim.clock w r.sim.nodes in
          place_selected (record r { sim = record (r.sim) { traces = r.sim.traces ++ traces } }) w
            place)

  unfoldable pub visit_all : Round F → List (Workload F) → Round F
  visit_all r [] = r
  visit_all r (w ∷ ws) = visit_all (visit r w) ws

  unfoldable pub release_all : Time → List (SimulatedNode F) → List (SimulatedNode F)
  release_all t nodes = map (λ n. release n t) nodes

  -- The arrivals up to now go to the end of the queue.
  unfoldable pub enqueue :
      Time → List (Workload F) → List (Workload F) → List (Workload F) × List (Workload F)
  enqueue clock queue [] = (queue, [])
  enqueue clock queue (w ∷ ws) = elim (after w.submit_time clock) [
    | true ↦ (queue, w ∷ ws)
    | false ↦ enqueue clock (queue ++ (w ∷ [])) ws
  ]

  -- The clock of an idle simulator moves on to the next submission.
  unfoldable pub idle_clock : Time → List (Workload F) → List (Workload F) → Time
  idle_clock clock [] (w ∷ ws) = if before clock w.submit_time then w.submit_time else clock
  idle_clock clock _ _ = clock

  -- The earliest end of a reservation after `clock` on any node.
  earliest_end : Time → List (SimulatedNode F) → Time → Time
  earliest_end clock [] earliest = earliest
  earliest_end clock (n ∷ ns) earliest =
      earliest_end clock ns (sooner_end (next_release_after n clock) earliest)

  unfoldable pub next_clock : Time → List (SimulatedNode F) → Time
  unfolding earliest_end sooner_end
  next_clock clock nodes =
      let earliest = earliest_end clock nodes zero_time in
      if is_zero earliest then clock +ℤ pos second else earliest

  -- The end of a round: the queue is what was kept, and the clock moves on.
  abbrev finish : Round F → List (Workload F) → Running F
  finish r arrivals = record {
    sim = record (r.sim) { clock = next_clock r.sim.clock r.sim.nodes };
    arrivals = arrivals;
    queue = r.next;
  }

  abbrev schedule : BaseSim F → List (Workload F) → List (Workload F) → Running F
  schedule b [] arrivals = record { sim = b; arrivals = arrivals; queue = [] }
  schedule b (w ∷ ws) arrivals =
      finish (visit_all (record { sim = b; next = []; scheduled = 0 }) (w ∷ ws)) arrivals

  -- One round of the loop of `Run`.
  unfoldable pub round : Running F → Running F
  round s =
      let clock = idle_clock s.sim.clock s.queue s.arrivals in
      let b = record (s.sim) { clock = clock; nodes = release_all clock s.sim.nodes } in
      let (queue, arrivals) = enqueue clock s.queue s.arrivals in schedule b queue arrivals

  abbrev pub finished : Running F → Bool
  finished s = elim s.arrivals [ [] ↦ elim s.queue [ [] ↦ true | _ ∷ _ ↦ false ] | _ ∷ _ ↦ false ]

  -- The loop of `Run`, for at most `fuel` rounds; `none` is a run that has not ended by then.
  unfoldable pub run_rounds : ℕ → Running F → Option (BaseSim F)
  run_rounds zero s = if finished s then some s.sim else none
  run_rounds (suc fuel) s = elim (finished s) [
    | true ↦ some s.sim
    | false ↦ run_rounds fuel (round s)
  ]

  -- `sort` stands for `sort.Slice` by submission time, which leaves the order of equal times open.
  unfoldable pub run : (List (Workload F) → List (Workload F)) → ℕ → BaseSim F → Option (BaseSim F)
  run sort fuel b = run_rounds fuel (record {
    sim = record b { pending = sort b.pending };
    arrivals = sort b.pending;
    queue = [];
  })
