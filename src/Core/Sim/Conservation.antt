-- ===== src/Core/Sim/Conservation.antt =====
-- No workload is lost, made up or run twice.
use eco_kube.Prelude.{
  ℕ, ◌+◌, ◌≡◌, refl, sym, ap, ◌∙◌, true, Option, none, some, List, [], ◌∷◌, ◌++◌, String, arith,
  if◌then◌else◌, Option-cases, Bool-cases, inl, inr, get_elem?,
}
use eco_kube.Prelude.Text.{str_eq}
use eco_kube.Prelude.Int.{leb_ℤ, pos}
use eco_kube.Prelude.Float.{Float64}
use eco_kube.Core.Types.{Time, Workload, after}
use eco_kube.Core.Sim.Select.{select_node}
use eco_kube.Core.Sim.Rounds.{finished_nil, run_rounds_inv}
use eco_kube.Core.Sim.{
  LogEntry, BaseSim, Round, Running, log_entry, place_on, place_selected, visit, visit_all, enqueue,
  round, finished, run_rounds, run, schedule, idle_clock, release_all,
}

abbrev pub count_by {ℓ} : {A : Type ℓ} → (A → String) → String → List A → ℕ
count_by f k [] = 0
count_by f k (x ∷ xs) = (if str_eq (f x) k then 1 else 0) + count_by f k xs

pub count_by-append {ℓ} :
    {A : Type ℓ} (f : A → String) (k : String) (xs ys : List A)
    → count_by f k (xs ++ ys) ≡ count_by f k xs + count_by f k ys
count_by-append f k [] ys = omega arith
count_by-append f k (x ∷ xs) ys = omega (arith, count_by-append f k xs ys)

module _ {F : Type 0} ⦃d : Float64 F⦄ where
  -- How often the job ID occurs among workloads, and in the log.
  abbrev pub waiting : String → List (Workload F) → ℕ
  waiting = count_by λ w. w.id

  abbrev pub logged : String → List (LogEntry F) → ℕ
  logged = count_by λ l. l.job_id

  abbrev pub total : String → Running F → ℕ
  total k s = logged k s.sim.logs_buf + waiting k s.queue + waiting k s.arrivals

  abbrev in_round : String → Round F → ℕ
  in_round k r = logged k r.sim.logs_buf + waiting k r.next

  place_selected-count :
      (k : String) (r : Round F) (w : Workload F) (place : Option ℕ)
      → in_round k (place_selected r w place) ≡ in_round k r + waiting k (w ∷ [])
  unfolding place_selected place_on log_entry
  place_selected-count k r w none =
      omega (arith, count_by-append (λ (x : Workload F). x.id) k r.next (w ∷ []))
  place_selected-count k r w (some i) = elim (Option-cases (get_elem? r.sim.nodes i)) [
    | inl e ↦
        rw (e, place_selected)
          (omega (arith, count_by-append (λ (x : Workload F). x.id) k r.next (w ∷ [])))
    | inr (n, e) ↦
        rw (e, place_selected)
          (omega (
            arith,
            count_by-append (λ (l : LogEntry F). l.job_id) k r.sim.logs_buf
                (log_entry r.sim n w ∷ []),
          ))
  ]

  visit-count :
      (k : String) (r : Round F) (w : Workload F)
      → in_round k (visit r w) ≡ in_round k r + waiting k (w ∷ [])
  unfolding visit
  visit-count k r w = elim (Bool-cases (leb_ℤ r.sim.batch (pos r.scheduled))) [
    | inl full ↦
        rw full (omega (arith, count_by-append (λ (x : Workload F). x.id) k r.next (w ∷ [])))
    | inr room ↦
        rw room
          (place_selected-count k _ w (select_node r.sim.selector r.sim.clock w r.sim.nodes).0)
  ]

  visit_all-count :
      (k : String) (r : Round F) (ws : List (Workload F))
      → in_round k (visit_all r ws) ≡ in_round k r + waiting k ws
  unfolding visit_all
  visit_all-count k r [] = omega arith
  visit_all-count k r (w ∷ ws) = omega (arith, visit_all-count k (visit r w) ws, visit-count k r w)

  enqueue-count :
      (k : String) (clock : Time) (queue ws : List (Workload F))
      → let (q, rest) = enqueue clock queue ws in
        waiting k q + waiting k rest ≡ waiting k queue + waiting k ws
  unfolding enqueue
  enqueue-count k clock queue [] = refl
  enqueue-count k clock queue (w ∷ ws) = elim (Bool-cases (after w.submit_time clock)) [
    | inl later ↦ rw (later, enqueue) refl
    | inr now ↦
        rw (now, enqueue)
          (omega (
            arith,
            enqueue-count k clock (queue ++ (w ∷ [])) ws,
            count_by-append (λ (x : Workload F). x.id) k queue (w ∷ []),
          ))
  ]

  schedule-count :
      (k : String) (b : BaseSim F) (queue arrivals : List (Workload F))
      → total k (schedule b queue arrivals)
        ≡ logged k b.logs_buf + waiting k queue + waiting k arrivals
  schedule-count k b [] arrivals = refl
  schedule-count k b (w ∷ ws) arrivals =
      omega (arith, visit_all-count k (record { sim = b; next = []; scheduled = 0 }) (w ∷ ws))

  -- A round moves workloads from the arrivals to the queue and from there to the log: of each job
  -- ID there are as many in the three together after the round as before.
  pub total-round : (k : String) (s : Running F) → total k (round s) ≡ total k s
  unfolding round
  total-round k s =
      let clock = idle_clock s.sim.clock s.queue s.arrivals in
      let b = record (s.sim) { clock = clock; nodes = release_all clock s.sim.nodes } in
      let (queue, arrivals) = enqueue clock s.queue s.arrivals in
      omega (arith, schedule-count k b queue arrivals, enqueue-count k clock s.queue s.arrivals)

  total_end : (k : String) (s : Running F) → finished s ≡ true → total k s ≡ logged k s.sim.logs_buf
  total_end k s h =
      let (none_left, none_queued) = finished_nil s h in
      omega (arith, ap (waiting k) none_left, ap (waiting k) none_queued)

  run_rounds-count :
      (k : String) (fuel : ℕ) (s : Running F) {b : BaseSim F}
      → run_rounds fuel s ≡ some b
      → logged k b.logs_buf ≡ total k s
  run_rounds-count k fuel s e =
      let (t, same, done, ends) =
        run_rounds_inv (λ t. total k t ≡ total k s) (λ t p. total-round k t ∙ p) fuel s refl e in
      ap (λ b. logged k b.logs_buf) ends ∙ sym (total_end k t done) ∙ same

  -- What the simulator asks of the sorting of its workloads: a rearrangement.
  abbrev pub Rearranges : (List (Workload F) → List (Workload F)) → Type 0
  Rearranges sort = (k : String) (ws : List (Workload F)) → waiting k (sort ws) ≡ waiting k ws

  -- A run that ends has logged every pending workload as often as it was submitted, and nothing
  -- else, on top of the log it began with.
  pub logged-run :
      (sort : List (Workload F) → List (Workload F)) (fuel : ℕ) (b : BaseSim F) {end : BaseSim F}
      → Rearranges sort
      → run sort fuel b ≡ some end
      → (k : String) → logged k end.logs_buf ≡ logged k b.logs_buf + waiting k b.pending
  unfolding run
  logged-run sort fuel b h e k = omega (arith, run_rounds-count k fuel _ e, h k b.pending)
