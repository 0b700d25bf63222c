-- ===== src/Core/Sim/Progress.antt =====
-- Without a custom SelectFunc, a simulator of whole capacities whose idle nodes can take each of the
-- workloads ends.
use eco_kube.Prelude.{
  ℕ, zero, suc, ◌+◌, ◌*◌, ◌≤◌, ◌<◌, ◌≡◌, refl, ap, sym, subst, true, none, some, List, [], ◌∷◌,
  arith, Bool-cases, inl, inr, ◌⊎◌, length, All, keep_if,
}
use eco_kube.Prelude.Int.{pos, ltb_ℤ, ◌≤ℤ◌}
use eco_kube.Prelude.Float.{Float64}
use eco_kube.Core.Types.{Time, Workload, SimulatedNode}
use eco_kube.Core.Node.Whole.{IsExact}
use eco_kube.Core.Node.Holds.{IsIdle}
use eco_kube.Core.Node.Release.{running}
use eco_kube.Core.Sim.Select.{Selector}
use eco_kube.Core.Sim.Timeline.{next_clock-lt, idle_clock-le}
use eco_kube.Core.Sim.Load.{
  count, live, AllLive, count-release_all, release_all-AllLive, live_le, live_later,
  live-next_clock,
}
use eco_kube.Core.Sim.Steps.{
  enqueue-length, enqueue_nonempty, enqueue-All, unfinished-left, AllHold, release_all-AllHold,
  all_idle, AllHold-idle, IsServed, Sound, Steps, visit_all-Steps, placed_first,
}
use eco_kube.Core.Sim.{
  BaseSim, Round, Running, visit_all, enqueue, round, finished, run_rounds, run, schedule,
  idle_clock, release_all, next_clock,
}

module _ {F : Type 0} ⦃d : Float64 F⦄ where
  module _ (limit : ℕ) (laws : IsExact F limit) (sel : Selector F) (unset : sel.select ≡ none)
      (os : List (SimulatedNode F)) where
    record Able (s : Running F) : Type 0 where
      selector : s.sim.selector ≡ sel
      begun : pos 0 ≤ℤ s.sim.clock
      batch : ltb_ℤ (pos 0) s.sim.batch ≡ true
      held : AllHold limit laws os s.sim.nodes
      queued : All (IsServed limit laws sel unset os) s.queue
      arriving : All (IsServed limit laws sel unset os) s.arrivals

    -- Twice the workloads left, and the reservations that are running.
    work : Running F → ℕ
    work s = 2 * (length s.queue + length s.arrivals) + live s.sim.clock s.sim.nodes

    start :
        (s : Running F)
        → live s.sim.clock s.sim.nodes ≡ 0
        → work s ≤ 2 * (length s.queue + length s.arrivals)
    unfolding work
    start s h = omega (arith, h)

    schedule-work :
        (b : BaseSim F) (queue arrivals : List (Workload F))
        → Able (record { sim = b; queue = queue; arrivals = arrivals })
        → AllLive b.clock b.nodes
        → 0 < length queue
        → Able (schedule b queue arrivals)
          × (work (schedule b queue arrivals)
              < 2 * (length queue + length arrivals) + count b.nodes)
    unfolding work
    schedule-work b [] arrivals v l h = absurd (omega arith)
    schedule-work b (w ∷ ws) arrivals v l h = (
      record {
        selector = p.sound.selector;
        begun = (let a = v.begun in let e = forward in omega arith);
        batch = p.sound.batch;
        held = p.sound.held;
        queued = p.sound.kept;
        arriving = v.arriving;
      },
      elim p.still [ inr q ↦ placed (omega (arith, q)) | inl same ↦ unmoved same ],
    )
      where
        start : Round F
        start = record { sim = b; next = []; scheduled = 0 }

        sound : Sound limit laws sel unset os b.clock start
        sound = record {
          selector = v.selector;
          clock = refl;
          batch = v.batch;
          held = v.held;
          kept = tt;
        }

        r : Round F
        r = visit_all start (w ∷ ws)

        p : Steps limit laws sel unset os b.clock (length (w ∷ ws)) start r
        p = visit_all-Steps limit laws sel unset os b.clock start (w ∷ ws) sound v.queued

        next : Time
        next = next_clock r.sim.clock r.sim.nodes

        forward : b.clock ≤ℤ next
        forward =
            subst (λ c. b.clock ≤ℤ next_clock c r.sim.nodes) (sym p.sound.clock)
              (let a = next_clock-lt b.clock r.sim.nodes v.begun in ground (arith, a))

        placed :
            length r.next < length (w ∷ ws)
            → 2 * (length r.next + length arrivals) + live next r.sim.nodes
              < 2 * (length (w ∷ ws) + length arrivals) + count b.nodes
        placed q = let t = p.tally in omega (arith, live_le next r.sim.nodes)

        -- Nothing was placed, and a reservation is running: the clock moves on to an end.
        waited :
            r.sim.nodes ≡ b.nodes
            → 0 < count b.nodes
            → 2 * (length r.next + length arrivals) + live next r.sim.nodes
              < 2 * (length (w ∷ ws) + length arrivals) + count b.nodes
        waited same c =
            let t = p.tally in
            let same_count = ap count same in
            let drop : live next r.sim.nodes < count b.nodes =
              subst (λ ns. live (next_clock r.sim.clock ns) ns < count b.nodes) (sym same)
                (subst (λ k. live (next_clock k b.nodes) b.nodes < count b.nodes)
                  (sym p.sound.clock) (live-next_clock b.clock b.nodes v.begun l c)) in
            omega arith

        unmoved :
            r.sim.nodes ≡ b.nodes
            → 2 * (length r.next + length arrivals) + live next r.sim.nodes
              < 2 * (length (w ∷ ws) + length arrivals) + count b.nodes
        unmoved same =
            let split : (count b.nodes ≡ 0) ⊎ (0 < count b.nodes) = omega arith in
            elim split [
              | inr c ↦ waited same c
              | inl c ↦ placed (
                  placed_first limit laws sel unset os b w ws sound
                    (all_idle limit laws os b.nodes v.held c) v.queued)
            ]

    round-work :
        (s : Running F)
        → Able s
        → 0 < length s.queue + length s.arrivals
        → Able (round s) × (work (round s) < work s)
    unfolding round work
    round-work s v h =
        let clock = idle_clock s.sim.clock s.queue s.arrivals in
        let forward = idle_clock-le s.sim.clock s.queue s.arrivals in
        let nodes = release_all clock s.sim.nodes in
        let (queued, arriving) = enqueue-All _ clock s.queue s.arrivals v.queued v.arriving in
        let (able, less) =
          schedule-work (record (s.sim) { clock = clock; nodes = nodes })
            (enqueue clock s.queue s.arrivals).0 (enqueue clock s.queue s.arrivals).1
            (record {
              selector = v.selector;
              begun = (let z = v.begun in omega arith);
              batch = v.batch;
              held = release_all-AllHold limit laws clock os s.sim.nodes v.held;
              queued = queued;
              arriving = arriving;
            })
            (release_all-AllLive clock s.sim.nodes)
            (enqueue_nonempty s.sim.clock s.queue s.arrivals h) in
        (
          able,
          omega (
            arith,
            less,
            enqueue-length clock s.queue s.arrivals,
            count-release_all clock s.sim.nodes,
            live_later s.sim.clock clock s.sim.nodes forward,
          ),
        )

    run_rounds_ends :
        (n : ℕ) (s : Running F)
        → Able s
        → work s ≤ n
        → (end : BaseSim F) × (run_rounds n s ≡ some end)
    unfolding run_rounds
    run_rounds_ends zero s v h = elim (Bool-cases (finished s)) [
      | inl done ↦ (s.sim, rw (done, run_rounds) refl)
      | inr more ↦ let (_, less) = round-work s v (unfinished-left s more) in absurd (omega arith)
    ]
    run_rounds_ends (suc n) s v h = elim (Bool-cases (finished s)) [
      | inl done ↦ (s.sim, rw (done, run_rounds) refl)
      | inr more ↦
          let (able, less) = round-work s v (unfinished-left s more) in
          let (end, e) = run_rounds_ends n (round s) able (omega arith) in
          (end, rw (more, run_rounds) e)
    ]

  live-idle :
      (limit : ℕ) (t : Time) (ns : List (SimulatedNode F)) → All (IsIdle limit) ns → live t ns ≡ 0
  unfolding keep_if
  live-idle limit t [] h = refl
  live-idle limit t (n ∷ ns) (h, hs) =
      omega (arith, ap (λ rs. length (running t rs)) h.free, live-idle limit t ns hs)

  -- Where numbers up to `limit` are exact, from an instant from the zero time on, with a batch size
  -- above 0 and without a custom SelectFunc: if all nodes are idle with whole capacities up to the
  -- limit, and each workload asks for whole amounts up to it and is given a node where all nodes are
  -- idle, at any time, then the run ends within twice as many rounds as there are workloads.
  pub run_ends :
      (limit : ℕ) (laws : IsExact F limit) (sort : List (Workload F) → List (Workload F))
      (b : BaseSim F) (unset : b.selector.select ≡ none)
      → pos 0 ≤ℤ b.clock
      → ltb_ℤ (pos 0) b.batch ≡ true
      → All (IsIdle limit) b.nodes
      → All (IsServed limit laws b.selector unset b.nodes) (sort b.pending)
      → (end : BaseSim F) × (run sort (2 * length (sort b.pending)) b ≡ some end)
  unfolding run
  run_ends limit laws sort b unset z batch idle served =
      run_rounds_ends limit laws b.selector unset b.nodes (2 * length (sort b.pending))
        (record {
          sim = record b { pending = sort b.pending };
          arrivals = sort b.pending;
          queue = [];
        })
        (record {
          selector = refl;
          begun = z;
          batch = batch;
          held = AllHold-idle limit laws b.nodes idle;
          queued = tt;
          arriving = served;
        })
        (let l =
            start limit laws b.selector unset b.nodes
              (record {
                sim = record b { pending = sort b.pending };
                arrivals = sort b.pending;
                queue = [];
              })
              (live-idle limit b.clock b.nodes idle) in
          omega arith)
