-- ===== src/RunSim/Conservation.antt =====
-- run_sim.go: a run logs the workloads it was given.
use eco_kube.Prelude.{
  ◌≡◌, refl, sym, ap, ◌∙◌, ℕ, zero, suc, ◌+◌, Option, none, some, List, [], ◌∷◌, String, length,
  arith, Option-cases, Bool-cases, inl, inr,
}
use mathlib.Core.Option.{some-injective}
use eco_kube.Prelude.Int.{pos, ltb_ℤ}
use eco_kube.Prelude.Text.{StringMap}
use eco_kube.Prelude.Float.{Float64}
use eco_kube.Core.Types.{Time, Workload, Site, SimulatedNode}
use eco_kube.Core.Policy.{Policy}
use eco_kube.Core.Sim.{BaseSim, init, set_schedule_batch_size, add_workload, run}
use eco_kube.Core.Sim.Conservation.{count_by-append, waiting, logged, Rearranges, logged-run}
use eco_kube.Policies.{CarbonModel}
use eco_kube.RunSim.Arrivals.{
  Rng, Pace, stamp, join_waves, waves, wave_size, positive_pace, schedule_start,
  apply_arrival_schedule,
}
use eco_kube.RunSim.Prepare.{scrub_workload, scrub_preferred_site}
use eco_kube.RunSim.Runs.{Scenario, prepare, add_workloads, drive, baseline_run}

module _ {F : Type 0} ⦃d : Float64 F⦄ where
  stamp-count :
      (k : String) (t : Time) (n : ℕ) (ws : List (Workload F))
      → waiting k (stamp t n ws).0 + waiting k (stamp t n ws).1 ≡ waiting k ws
  unfolding stamp
  stamp-count k t n [] = refl
  stamp-count k t zero (w ∷ ws) = omega arith
  stamp-count k t (suc n) (w ∷ ws) = omega (arith, stamp-count k t n ws)

  join_waves-count :
      (k : String) (front rest : List (Workload F)) (later : Option (List (Workload F)))
      (out : List (Workload F))
      → join_waves front rest later ≡ some out
      → ((l : List (Workload F)) → later ≡ some l → waiting k l ≡ waiting k rest)
      → waiting k out ≡ waiting k front + waiting k rest
  join_waves-count k front [] later out e h = omega (arith, ap (waiting k) (some-injective _ _ e))
  join_waves-count k front (r ∷ rs) none out e h = cc e
  join_waves-count k front (r ∷ rs) (some l) out e h = omega (
    arith,
    ap (waiting k) (some-injective _ _ e),
    count_by-append (λ (x : Workload F). x.id) k front l,
    h l refl,
  )

  add_workloads-pending :
      (k : String) (ws : List (Workload F)) (b : BaseSim F)
      → waiting k (add_workloads b ws).pending ≡ waiting k b.pending + waiting k ws
  unfolding add_workloads add_workload
  add_workloads-pending k [] b = omega arith
  add_workloads-pending k (w ∷ ws) b = omega (
    arith,
    add_workloads-pending k ws (add_workload b w),
    count_by-append (λ (x : Workload F). x.id) k b.pending (w ∷ []),
  )

  add_workloads-logs :
      (ws : List (Workload F)) (b : BaseSim F) → (add_workloads b ws).logs_buf ≡ b.logs_buf
  unfolding add_workloads add_workload
  add_workloads-logs [] b = refl
  add_workloads-logs (w ∷ ws) b = add_workloads-logs ws (add_workload b w)

  prepare-empty :
      (model : CarbonModel F) (scenario : Scenario F) (policy : Policy F)
      (nodes : List (SimulatedNode F))
      → ((prepare model scenario policy nodes).logs_buf ≡ [])
        × ((prepare model scenario policy nodes).pending ≡ [])
  unfolding prepare init set_schedule_batch_size
  prepare-empty model scenario policy nodes = elim (Bool-cases (ltb_ℤ (pos 0) scenario.batch)) [
    | inl e ↦ rw (e, prepare, set_schedule_batch_size) (refl, refl)
    | inr e ↦ rw (e, prepare, set_schedule_batch_size) (refl, refl)
  ]

  scrub_preferred_site-count :
      (k : String) (ws : List (Workload F)) → waiting k (scrub_preferred_site ws) ≡ waiting k ws
  unfolding scrub_preferred_site scrub_workload
  scrub_preferred_site-count k [] = refl
  scrub_preferred_site-count k (w ∷ ws) = omega (arith, scrub_preferred_site-count k ws)

module _ {F S : Type 0} ⦃d : Float64 F⦄ (rng : Rng F S) (k : String) where
  waves-count :
      (fuel batch : ℕ) (p : Pace F) (current : Time) (s : S) (ws out : List (Workload F))
      → waves rng fuel batch p current s ws ≡ some out
      → waiting k out ≡ waiting k ws
  unfolding waves
  waves-count zero batch p current s [] out e = ap (waiting k) (sym (some-injective _ _ e))
  waves-count zero batch p current s (w ∷ ws) out e = cc e
  waves-count (suc fuel) batch p current s ws out e =
      join_waves-count k _ _ _ out e
        (λ l q. waves-count fuel batch p _ _ (stamp current batch ws).1 l q)
      ∙ stamp-count k current batch ws

  apply_arrival_schedule-count :
      (now : Time) (ws : List (Workload F)) (scenario : Scenario F) (s : S)
      (out : List (Workload F))
      → apply_arrival_schedule rng now ws scenario.template_start scenario.batch scenario.pace s
        ≡ some out
      → waiting k out ≡ waiting k ws
  unfolding apply_arrival_schedule
  apply_arrival_schedule-count now [] scenario s out e = ap (waiting k) (sym (some-injective _ _ e))
  apply_arrival_schedule-count now (w ∷ ws) scenario s out e =
      waves-count (length (w ∷ ws)) (wave_size scenario.batch) (positive_pace scenario.pace)
        (schedule_start now scenario.template_start w) s (w ∷ ws) out e

module _ {F S : Type 0} ⦃d : Float64 F⦄ (rng : Rng F S)
    (sort : List (Workload F) → List (Workload F)) (fuel : ℕ) (model : CarbonModel F)
    (rearranges : Rearranges sort) (scenario : Scenario F) (policy : Policy F) (s : S) where
  drive-logged :
      (nodes : List (SimulatedNode F)) (ws arriving : List (Workload F)) (ended : BaseSim F)
      → drive rng sort fuel model scenario policy s nodes ws ≡ some (arriving, ended)
      → (k : String) → logged k ended.logs_buf ≡ waiting k ws
  unfolding drive
  drive-logged nodes ws arriving ended e k = elim (Option-cases arrived) [
    | inl n ↦ absurd (cc (rw (n, drive) at e))
    | inr (mid, q) ↦ elim (Option-cases (run sort fuel (loaded mid))) [
      | inl n ↦ absurd (cc (rw (q, n, drive) at e))
      | inr (end, r) ↦
          let same : end ≡ ended = ap (λ x. x.1) (some-injective _ _ (rw (q, r, drive) at e)) in
          omega (
            arith,
            ap (λ b. logged k b.logs_buf) same,
            logged-run sort fuel (loaded mid) rearranges r k,
            ap (logged k) (add_workloads-logs mid initial),
            add_workloads-pending k mid initial,
            ap (logged k) (prepare-empty model scenario policy nodes).0,
            ap (waiting k) (prepare-empty model scenario policy nodes).1,
            apply_arrival_schedule-count rng k scenario.now ws scenario s mid q,
          )
    ]
  ]
    where
      initial : BaseSim F
      initial = prepare model scenario policy nodes

      loaded : List (Workload F) → BaseSim F
      loaded mid = add_workloads initial mid

      arrived : Option (List (Workload F))
      arrived =
          apply_arrival_schedule rng scenario.now ws scenario.template_start scenario.batch
            scenario.pace s

  -- A baseline run that ends has logged every workload as often as it was given.
  pub baseline_run-logged :
      (nodes : List (SimulatedNode F)) (sites : StringMap (Site F))
      (ws arriving : List (Workload F)) (ended : BaseSim F)
      → baseline_run rng sort fuel model scenario policy s nodes sites ws ≡ some (arriving, ended)
      → (k : String) → logged k ended.logs_buf ≡ waiting k ws
  unfolding baseline_run
  baseline_run-logged nodes sites ws arriving ended e k =
      drive-logged _ (scrub_preferred_site ws) arriving ended e k ∙ scrub_preferred_site-count k ws
