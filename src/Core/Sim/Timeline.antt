-- ===== src/Core/Sim/Timeline.antt =====
-- The simulated clock only moves forward, and no workload starts before it is submitted.
use eco_kube.Prelude.{
  ℕ, ◌≡◌, refl, sym, subst, true, Option, none, some, List, [], ◌∷◌, ◌++◌, arith, Option-cases,
  Bool-cases, ◌⊎◌, inl, inr, get_elem?, All, All-append, All-map_of,
}
use eco_kube.Prelude.Int.{pos, ◌≤ℤ◌, ltb_ℤ, leb_ℤ, quot, +ℤ_parts, -ℤ_parts}
use eco_kube.Prelude.Float.{Float64}
use eco_kube.Core.Types.{Time, Workload, SimulatedNode, after, zero_time, sub_time, second}
use eco_kube.Core.Node.{next_release_after}
use eco_kube.Core.Node.Release.{next_release_after-IsNext}
use eco_kube.Core.Sim.Select.{select_node}
use eco_kube.Core.Sim.Rounds.{run_rounds_inv}
use eco_kube.Core.Sim.{
  LogEntry, BaseSim, Round, Running, log_entry, place_on, place_selected, visit, visit_all, enqueue,
  round, run, keep, schedule, idle_clock, release_all, earliest_end, sooner_end, next_clock,
}

-- The wait that a log entry states is not negative where it starts after its submission.
wait_nonneg : (s t : Time) → s ≤ℤ t → pos 0 ≤ℤ quot (sub_time t s) 1_000_000
unfolding quot sub_time
wait_nonneg s t h = ground (arith, -ℤ_parts t s)

abbrev IsLater : Time → Time → Type 0
IsLater clock t = (t ≡ zero_time) ⊎ (ltb_ℤ clock t ≡ true)

sooner_end-IsLater :
    (clock t e : Time) → IsLater clock t → IsLater clock e → IsLater clock (sooner_end t e)
unfolding sooner_end
sooner_end-IsLater clock t e h k = ground arith

module _ {F : Type 0} ⦃d : Float64 F⦄ where
  -- An entry of the log that starts at `clock` at the latest.
  pub record IsTimely (clock : Time) (l : LogEntry F) : Type 0 where
    pub submitted : l.submit ≤ℤ l.start
    pub started : l.start ≤ℤ clock
    pub waited : pos 0 ≤ℤ l.wait_ms

  pub record IsOnTime (s : Running F) : Type 0 where
    pub begun : pos 0 ≤ℤ s.sim.clock
    pub queued : All (λ w. w.submit_time ≤ℤ s.sim.clock) s.queue
    pub timely : All (IsTimely s.sim.clock) s.sim.logs_buf

  record Steady (clock : Time) (r : Round F) : Type 0 where
    same : r.sim.clock ≡ clock
    kept : All (λ w. w.submit_time ≤ℤ clock) r.next
    timely : All (IsTimely clock) r.sim.logs_buf

  keep-Steady :
      (clock : Time) (r : Round F) (w : Workload F)
      → w.submit_time ≤ℤ clock
      → Steady clock r
      → Steady clock (keep r w)
  keep-Steady clock r w h v = record {
    same = v.same;
    kept = All-append _ r.next (w ∷ []) v.kept (h, tt);
    timely = v.timely;
  }

  log_entry-IsTimely :
      (b : BaseSim F) (n : SimulatedNode F) (w : Workload F)
      → w.submit_time ≤ℤ b.clock
      → IsTimely b.clock (log_entry b n w)
  unfolding log_entry
  log_entry-IsTimely b n w h = record {
    submitted = h;
    started = omega arith;
    waited = wait_nonneg w.submit_time b.clock h;
  }

  place_selected-Steady :
      (clock : Time) (r : Round F) (w : Workload F) (place : Option ℕ)
      → w.submit_time ≤ℤ clock
      → Steady clock r
      → Steady clock (place_selected r w place)
  unfolding place_selected place_on
  place_selected-Steady clock r w none h v = keep-Steady clock r w h v
  place_selected-Steady clock r w (some i) h v = elim (Option-cases (get_elem? r.sim.nodes i)) [
    | inl e ↦ rw (e, place_selected) (keep-Steady clock r w h v)
    | inr (n, e) ↦
        rw (e, place_selected)
          (record {
            same = v.same;
            kept = v.kept;
            timely = All-append _ r.sim.logs_buf _ v.timely (
              subst (λ c. w.submit_time ≤ℤ c → IsTimely c (log_entry r.sim n w)) v.same
                  (log_entry-IsTimely r.sim n w) h,
              tt,
            );
          })
  ]

  visit-Steady :
      (clock : Time) (r : Round F) (w : Workload F)
      → w.submit_time ≤ℤ clock
      → Steady clock r
      → Steady clock (visit r w)
  unfolding visit
  visit-Steady clock r w h v = elim (Bool-cases (leb_ℤ r.sim.batch (pos r.scheduled))) [
    | inl full ↦ rw full (keep-Steady clock r w h v)
    | inr room ↦ rw room (
        place_selected-Steady clock _ w (select_node r.sim.selector r.sim.clock w r.sim.nodes).0 h
          (record { same = v.same; kept = v.kept; timely = v.timely }))
  ]

  visit_all-Steady :
      (clock : Time) (r : Round F) (ws : List (Workload F))
      → All (λ w. w.submit_time ≤ℤ clock) ws
      → Steady clock r
      → Steady clock (visit_all r ws)
  unfolding visit_all
  visit_all-Steady clock r [] h v = v
  visit_all-Steady clock r (w ∷ ws) h v =
      visit_all-Steady clock (visit r w) ws h.1 (visit-Steady clock r w h.0 v)

  enqueue-submitted :
      (clock : Time) (queue ws : List (Workload F))
      → All (λ w. w.submit_time ≤ℤ clock) queue
      → All (λ w. w.submit_time ≤ℤ clock) (enqueue clock queue ws).0
  unfolding enqueue
  enqueue-submitted clock queue [] h = h
  enqueue-submitted clock queue (w ∷ ws) h = elim (Bool-cases (after w.submit_time clock)) [
    | inl later ↦ rw (later, enqueue) h
    | inr now ↦
        rw (now, enqueue)
          (enqueue-submitted clock (queue ++ (w ∷ [])) ws
            (All-append _ queue (w ∷ []) h (ground arith, tt)))
  ]

  pub idle_clock-le :
      (clock : Time) (queue ws : List (Workload F)) → clock ≤ℤ idle_clock clock queue ws
  unfolding idle_clock
  idle_clock-le clock [] [] = omega arith
  idle_clock-le clock [] (w ∷ ws) = ground arith
  idle_clock-le clock (q ∷ qs) ws = omega arith

  next_release_after-IsLater :
      (clock : Time) (n : SimulatedNode F)
      → pos 0 ≤ℤ clock
      → IsLater clock (next_release_after n clock)
  next_release_after-IsLater clock n z = elim (next_release_after-IsNext n clock z) [
    | inl (_, e) ↦ inl e
    | inr (later, _, _) ↦ inr later
  ]

  earliest_end-IsLater :
      (clock : Time) (ns : List (SimulatedNode F)) (e : Time)
      → pos 0 ≤ℤ clock
      → IsLater clock e
      → IsLater clock (earliest_end clock ns e)
  unfolding earliest_end
  earliest_end-IsLater clock [] e z h = h
  earliest_end-IsLater clock (n ∷ ns) e z h =
      earliest_end-IsLater clock ns _ z
        (sooner_end-IsLater clock _ e (next_release_after-IsLater clock n z) h)

  pub next_clock-lt :
      (clock : Time) (ns : List (SimulatedNode F))
      → pos 0 ≤ℤ clock
      → ltb_ℤ clock (next_clock clock ns) ≡ true
  unfolding next_clock
  next_clock-lt clock ns z =
      ground
        (arith, earliest_end-IsLater clock ns zero_time z (inl refl), +ℤ_parts clock (pos second))

  IsTimely-later : (c c' : Time) (l : LogEntry F) → c ≤ℤ c' → IsTimely c l → IsTimely c' l
  IsTimely-later c c' l h t = record {
    submitted = t.submitted;
    started = omega arith;
    waited = t.waited;
  }

  schedule-IsOnTime :
      (b : BaseSim F) (queue arrivals : List (Workload F))
      → pos 0 ≤ℤ b.clock
      → All (λ w. w.submit_time ≤ℤ b.clock) queue
      → All (IsTimely b.clock) b.logs_buf
      → IsOnTime (schedule b queue arrivals) × (b.clock ≤ℤ (schedule b queue arrivals).sim.clock)
  schedule-IsOnTime b [] arrivals z q t =
      (record { begun = z; queued = tt; timely = t }, omega arith)
  schedule-IsOnTime b (w ∷ ws) arrivals z q t =
      let r = visit_all (record { sim = b; next = []; scheduled = 0 }) (w ∷ ws) in
      let v : Steady b.clock r =
        visit_all-Steady b.clock _ (w ∷ ws) q (record { same = refl; kept = tt; timely = t }) in
      let forward : b.clock ≤ℤ next_clock r.sim.clock r.sim.nodes =
        subst (λ c. c ≤ℤ next_clock r.sim.clock r.sim.nodes) v.same
          (ground (arith, v.same, next_clock-lt r.sim.clock r.sim.nodes)) in
      (
        record {
          begun = omega arith;
          queued = All-map_of _ _ (λ x h. omega arith) r.next v.kept;
          timely = All-map_of _ _ (λ l. IsTimely-later _ _ l forward) r.sim.logs_buf v.timely;
        },
        forward,
      )

  -- A round keeps every queued workload submitted by the clock, every log entry started between its
  -- submission and the clock with a wait that is not negative, and never sets the clock back.
  pub round-IsOnTime :
      (s : Running F) → IsOnTime s → IsOnTime (round s) × (s.sim.clock ≤ℤ (round s).sim.clock)
  unfolding round
  round-IsOnTime s v =
      let clock = idle_clock s.sim.clock s.queue s.arrivals in
      let forward : s.sim.clock ≤ℤ clock = idle_clock-le s.sim.clock s.queue s.arrivals in
      let (inv, on) =
        schedule-IsOnTime (record (s.sim) { clock = clock; nodes = release_all clock s.sim.nodes })
          (enqueue clock s.queue s.arrivals).0 (enqueue clock s.queue s.arrivals).1
          (let z = v.begun in omega arith)
          (enqueue-submitted clock s.queue s.arrivals
            (All-map_of _ _ (λ w h. omega arith) s.queue v.queued))
          (All-map_of _ _ (λ l. IsTimely-later _ _ l forward) s.sim.logs_buf v.timely) in
      (inv, omega arith)

  -- A run that starts on an empty log at an instant from the zero time on, and ends, leaves a log
  -- in which every workload starts between its submission and the final clock, with a wait that is
  -- not negative; and the final clock is not before the first.
  pub run-IsTimely :
      (sort : List (Workload F) → List (Workload F)) (fuel : ℕ) (b : BaseSim F) {end : BaseSim F}
      → pos 0 ≤ℤ b.clock
      → b.logs_buf ≡ []
      → run sort fuel b ≡ some end
      → (b.clock ≤ℤ end.clock) × All (IsTimely end.clock) end.logs_buf
  unfolding run
  run-IsTimely sort fuel b z l e =
      let s : Running F = record {
        sim = record b { pending = sort b.pending };
        arrivals = sort b.pending;
        queue = [];
      } in
      let (t, (inv, on), done, ends) =
        run_rounds_inv (λ t. IsOnTime t × (b.clock ≤ℤ t.sim.clock))
          (λ t p. let (inv, on) = round-IsOnTime t p.0 in let so_far = p.1 in (inv, omega arith))
          fuel s
          (
            record { begun = z; queued = tt; timely = subst (All (IsTimely b.clock)) (sym l) tt },
            omega arith,
          )
          e in
      subst (λ x. (b.clock ≤ℤ x.clock) × All (IsTimely x.clock) x.logs_buf) (sym ends)
        (on, inv.timely)
