-- ===== src/RunSim/Figures.antt =====
-- run_sim.go: what the figures of a run cover.
use eco_kube.Prelude.{
  ◌≡◌, refl, sym, ap, ◌∙◌, suc, ◌+◌, ◌≤◌, ◌<◌, Bool, true, false, not, some, List, [], ◌∷◌, length,
  length-keep_if-le, All, arith, Option-cases, inl, inr, if◌then◌else◌,
}
use mathlib.Core.Option.{some-injective}
use eco_kube.Prelude.Int.{pos, ltb_ℤ, ◌≤ℤ◌, ◌+ℤ◌}
use eco_kube.Prelude.Text.{StringMap}
use eco_kube.Prelude.Float.{Float64}
use eco_kube.Core.Types.{Time, Duration, before, Workload}
use eco_kube.Core.Sim.{LogEntry}
use eco_kube.RunSim.Summary.{
  Tally, SummaryRow, Labels, no_tally, tally_entry, tally, earliest_start, started_since,
  effective_logs, median_and_spread, summary_row, summarise_run,
}

module _ {F : Type 0} ⦃d : Float64 F⦄ where
  -- The entry lies between the first start and the last end.
  abbrev pub Covers : Tally F → LogEntry F → Type 0
  Covers t l = (t.min_start ≤ℤ l.start) × (l.end ≤ℤ t.max_end)

  -- One tally reaches at least as far as another, both ways.
  abbrev Extends : Tally F → Tally F → Type 0
  Extends t t' = (t'.min_start ≤ℤ t.min_start) × (t.max_end ≤ℤ t'.max_end)

  tally_entry-Covers :
      (by_id : StringMap (Workload F)) (t : Tally F) (l : LogEntry F)
      → Covers (tally_entry by_id t l) l
  unfolding tally_entry
  tally_entry-Covers by_id t l = (ground arith, ground arith)

  tally_entry-Extends :
      (by_id : StringMap (Workload F)) (t : Tally F) (l : LogEntry F)
      → 0 < t.seen
      → Extends t (tally_entry by_id t l)
  unfolding tally_entry
  tally_entry-Extends by_id t l h = (ground arith, ground arith)

  tally_entry-seen :
      (by_id : StringMap (Workload F)) (t : Tally F) (l : LogEntry F)
      → (tally_entry by_id t l).seen ≡ suc t.seen
  unfolding tally_entry
  tally_entry-seen by_id t l = refl

  seen-positive :
      (by_id : StringMap (Workload F)) (t : Tally F) (l : LogEntry F)
      → 0 < (tally_entry by_id t l).seen
  seen-positive by_id t l = omega (arith, tally_entry-seen by_id t l)

  tally-Extends :
      (by_id : StringMap (Workload F)) (t : Tally F) (ls : List (LogEntry F))
      → 0 < t.seen
      → Extends t (tally by_id t ls)
  unfolding tally
  tally-Extends by_id t [] h = (omega arith, omega arith)
  tally-Extends by_id t (l ∷ ls) h =
      let (a, b) = tally_entry-Extends by_id t l h in
      let (a', b') = tally-Extends by_id (tally_entry by_id t l) ls (seen-positive by_id t l) in
      (omega arith, omega arith)

  -- Every entry that a summary tallies, which are those after the warm-up, starts no earlier and ends
  -- no later than the instants from which the makespan is computed.
  pub tally-Covers :
      (by_id : StringMap (Workload F)) (t : Tally F) (ls : List (LogEntry F))
      → All (Covers (tally by_id t ls)) ls
  unfolding tally
  tally-Covers by_id t [] = tt
  tally-Covers by_id t (l ∷ ls) =
      let (a, b) = tally-Extends by_id (tally_entry by_id t l) ls (seen-positive by_id t l) in
      let (c, e) = tally_entry-Covers by_id t l in
      ((omega arith, omega arith), tally-Covers by_id (tally_entry by_id t l) ls)

  tally-seen :
      (by_id : StringMap (Workload F)) (t : Tally F) (ls : List (LogEntry F))
      → (tally by_id t ls).seen ≡ t.seen + length ls
  unfolding tally
  tally-seen by_id t [] = omega arith
  tally-seen by_id t (l ∷ ls) =
      omega (arith, tally-seen by_id (tally_entry by_id t l) ls, tally_entry-seen by_id t l)

  started_since-length :
      (boundary : Time) (ls : List (LogEntry F)) → length (started_since boundary ls) ≤ length ls
  unfolding started_since
  started_since-length boundary ls = length-keep_if-le (λ l. not (before l.start boundary)) ls

  effective_logs-length :
      (warmup : Duration) (l : LogEntry F) (ls : List (LogEntry F))
      → (0 < length (effective_logs warmup (l ∷ ls)))
        × (length (effective_logs warmup (l ∷ ls)) ≤ length (l ∷ ls))
  unfolding effective_logs
  effective_logs-length warmup l ls =
      kept (ltb_ℤ (pos 0) warmup)
        (started_since (earliest_start l.start (l ∷ ls) +ℤ warmup) (l ∷ ls))
        (started_since-length (earliest_start l.start (l ∷ ls) +ℤ warmup) (l ∷ ls))
    where
      kept :
          (warm : Bool) (found : List (LogEntry F))
          → length found ≤ length (l ∷ ls)
          → (0 < length (if warm then elim found [ [] ↦ l ∷ ls | k ∷ ks ↦ k ∷ ks ] else l ∷ ls))
            × (length (if warm then elim found [ [] ↦ l ∷ ls | k ∷ ks ↦ k ∷ ks ] else l ∷ ls)
                ≤ length (l ∷ ls))
      kept false found h = (omega arith, omega arith)
      kept true [] h = (omega arith, omega arith)
      kept true (k ∷ ks) h = (omega arith, omega arith)

  summarised :
      (ceil : F → F) (labels : Labels F) (logs : List (LogEntry F)) (by_id : StringMap (Workload F))
      (row : SummaryRow F)
      → summarise_run ceil labels logs by_id ≡ some row
      → row.num_jobs ≡ length (effective_logs labels.warmup logs)
  unfolding summarise_run summary_row
  summarised ceil labels logs by_id row e =
      elim (Option-cases (median_and_spread ceil t.wait_samples)) [
        | inl n ↦ absurd (cc (rw (n, summarise_run) at e))
        | inr (w, q) ↦ elim (Option-cases (median_and_spread ceil t.ci_samples)) [
          | inl n ↦ absurd (cc (rw (q, n, summarise_run) at e))
          | inr (c, r) ↦
              sym (ap (λ x. x.num_jobs) (some-injective _ _ (rw (q, r, summarise_run) at e)))
              ∙ tally-seen by_id no_tally (effective_logs labels.warmup logs)
              ∙ omega arith
        ]
      ]
    where
      t : Tally F
      t = tally by_id no_tally (effective_logs labels.warmup logs)

  -- A summary of a log that is not empty counts at least one job and no more than the log has,
  -- however long the warm-up is.
  pub summarise_run-num_jobs :
      (ceil : F → F) (labels : Labels F) (l : LogEntry F) (ls : List (LogEntry F))
      (by_id : StringMap (Workload F)) (row : SummaryRow F)
      → summarise_run ceil labels (l ∷ ls) by_id ≡ some row
      → (0 < row.num_jobs) × (row.num_jobs ≤ length (l ∷ ls))
  summarise_run-num_jobs ceil labels l ls by_id row e =
      let (least, most) = effective_logs-length labels.warmup l ls in
      let same = summarised ceil labels (l ∷ ls) by_id row e in
      (omega (arith, least, same), omega (arith, most, same))
