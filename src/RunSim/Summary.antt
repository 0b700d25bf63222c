-- ===== src/RunSim/Summary.antt =====
-- run_sim.go: the figures of a run. The fields that `main` fills in are part of the caller.
use eco_kube.Prelude.{
  ℕ, zero, suc, Bool, ◌&&◌, ◌||◌, not, Option, none, some, List, [], ◌∷◌, ◌++◌, String, length,
  get_elem?, keep_if, ◌>>=◌, if◌then◌else◌,
}
use eco_kube.Prelude.Int.{ℤ, pos, pos_part, ltb_ℤ, eqb_ℤ, ◌+ℤ◌}
use eco_kube.Prelude.Text.{StringMap, entry}
use eco_kube.Prelude.Float.{Float64, lt, le, eq, is_num, nought, one, ◌⊕◌, ◌⊖◌, ◌⊗◌, ◌⊘◌}
use eco_kube.Core.Types.{
  Time, Duration, before, after, is_zero, zero_time, sub_time, seconds, in_units, Workload,
}
use eco_kube.Core.Sim.{LogEntry}
use eco_kube.Metrics.{CfpAggregate, add_job, cfp_g_per_cpu_hour}

module _ {F : Type 0} ⦃d : Float64 F⦄ where
  unfoldable pub safe_div : F → F → F
  safe_div a b = if eq b nought then nought else a ⊘ b

  -- `sort.Float64s` puts NaN first.
  abbrev sorts_before : F → F → Bool
  sorts_before x y = lt x y || (not (is_num x) && is_num y)

  unfoldable pub insert_float : F → List F → List F
  insert_float x [] = x ∷ []
  insert_float x (y ∷ ys) =
      let rest = insert_float x ys in if sorts_before y x then y ∷ rest else x ∷ y ∷ ys

  unfoldable pub sort_floats : List F → List F
  unfolding insert_float
  sort_floats [] = []
  sort_floats (x ∷ xs) = insert_float x (sort_floats xs)

  unfoldable pub least_of : F → List F → F
  least_of m [] = m
  least_of m (v ∷ vs) = least_of (if lt v m then v else m) vs

  unfoldable pub greatest_of : F → List F → F
  greatest_of m [] = m
  greatest_of m (v ∷ vs) = greatest_of (if lt m v then v else m) vs

  -- `cp[i]`; `none` for an index out of range.
  abbrev float_at : List F → ℤ → Option F
  float_at cp i = if ltb_ℤ i (pos 0) then none else get_elem? cp (pos_part i)

  -- Between two places of the sorted values; `ceil` stands for `math.Ceil`.
  unfoldable pub interpolate : (F → F) → List F → F → Option F
  interpolate ceil cp position =
      let lower = d.to_int (d.floor position) in
      let upper = d.to_int (ceil position) in
      let weight = position ⊖ d.of_int lower in
      if eqb_ℤ lower upper then float_at cp lower else elim (float_at cp lower) [
        | none ↦ none
        | some a ↦ elim (float_at cp upper) [
          | none ↦ none
          | some b ↦ some (a ⊗ (one ⊖ weight) ⊕ b ⊗ weight)
        ]
      ]

  unfoldable pub quantile : (F → F) → List F → F → Option F
  unfolding least_of greatest_of sort_floats interpolate
  quantile ceil [] q = some nought
  quantile ceil (v ∷ vs) q =
      if le q nought
      then some (least_of v vs)
      else if le one q
      then some (greatest_of v vs)
      else interpolate ceil (sort_floats (v ∷ vs)) (q ⊗ d.of_int (pos (length vs)))

  abbrev pub median : (F → F) → List F → Option F
  unfolding quantile
  median ceil values = quantile ceil values (d.dec 5 1)

  unfoldable pub iqr : (F → F) → List F → Option F
  unfolding quantile
  iqr ceil [] = some nought
  iqr ceil (v ∷ vs) = elim (quantile ceil (v ∷ vs) (d.dec 75 2)) [
    | none ↦ none
    | some hi ↦ elim (quantile ceil (v ∷ vs) (d.dec 25 2)) [
      | none ↦ none
      | some lo ↦ some (hi ⊖ lo)
    ]
  ]

module _ {F : Type 0} where
  unfoldable pub earliest_start : Time → List (LogEntry F) → Time
  earliest_start t [] = t
  earliest_start t (l ∷ ls) = earliest_start (if before l.start t then l.start else t) ls

  -- The entries that start at the boundary or after it.
  unfoldable pub started_since : Time → List (LogEntry F) → List (LogEntry F)
  unfolding keep_if
  started_since boundary logs = keep_if (λ l. not (before l.start boundary)) logs

  -- The entries after the warm-up, or all of them where none is left.
  unfoldable pub effective_logs : Duration → List (LogEntry F) → List (LogEntry F)
  unfolding earliest_start started_since ◌+ℤ◌
  effective_logs warmup [] = []
  effective_logs warmup (l ∷ ls) =
      let boundary = earliest_start l.start (l ∷ ls) +ℤ warmup in
      if ltb_ℤ (pos 0) warmup
      then elim (started_since boundary (l ∷ ls)) [ [] ↦ l ∷ ls | k ∷ ks ↦ k ∷ ks ]
      else l ∷ ls

-- What the loop over the entries has so far; `seen` tells the first from the others.
pub record Tally (F : Type 0) : Type 0 where
  pub total_ci : F
  pub sum_wait_ms : ℤ
  pub wait_samples : List F
  pub ci_samples : List F
  pub seen : ℕ
  pub min_start : Time
  pub max_end : Time
  pub cfp : CfpAggregate F

-- The fields of a `SummaryRow` that `summariseRun` computes.
pub record SummaryRow (F : Type 0) : Type 0 where
  pub policy : String
  pub ci_weight : F
  pub batch_size : ℤ
  pub job_count : ℤ
  pub arrival_rate : F
  pub warmup_minutes : F
  pub total_ci_cost_g : F
  pub avg_ci_per_job_g : F
  pub cfp_g_per_cpu_hour : F
  pub avg_wait_s : F
  pub carbon_median_g : F
  pub carbon_iqr_g : F
  pub wait_median_s : F
  pub wait_iqr_s : F
  pub makespan_s : F
  pub elapsed_ms : F
  pub num_jobs : ℕ

-- The parameters of the run that a summary repeats.
pub record Labels (F : Type 0) : Type 0 where
  pub policy : String
  pub ci_weight : F
  pub batch_size : ℤ
  pub job_count : ℤ
  pub arrival_rate : F
  pub warmup : Duration

module _ {F : Type 0} ⦃d : Float64 F⦄ where
  abbrev pub no_tally : Tally F
  no_tally = record {
    total_ci = nought;
    sum_wait_ms = pos 0;
    wait_samples = [];
    ci_samples = [];
    seen = 0;
    min_start = zero_time;
    max_end = zero_time;
    cfp = record { total_ci_g = nought; total_cpu_hours = nought; jobs = 0 };
  }

  -- `workloadByID[id].CPU`: zero for a job that is not there.
  abbrev pub cpu_of : StringMap (Workload F) → String → F
  unfolding entry
  cpu_of by_id id = elim (entry by_id id) [ none ↦ nought | some w ↦ w.cpu ]

  unfoldable pub tally_entry : StringMap (Workload F) → Tally F → LogEntry F → Tally F
  unfolding add_job ◌+ℤ◌
  tally_entry by_id t l = record {
    total_ci = t.total_ci ⊕ l.ci_cost;
    sum_wait_ms = t.sum_wait_ms +ℤ l.wait_ms;
    wait_samples = t.wait_samples ++ (d.of_int l.wait_ms ⊘ d.dec 1000 0 ∷ []);
    ci_samples = t.ci_samples ++ (l.ci_cost ∷ []);
    seen = suc t.seen;
    min_start = elim t.seen [
      | zero ↦ l.start
      | suc _ ↦ if before l.start t.min_start then l.start else t.min_start
    ];
    max_end = elim t.seen [
      | zero ↦ l.end
      | suc _ ↦ if after l.end t.max_end then l.end else t.max_end
    ];
    cfp = add_job t.cfp (cpu_of by_id l.job_id) l.ci_cost (sub_time l.end l.start);
  }

  unfoldable pub tally : StringMap (Workload F) → Tally F → List (LogEntry F) → Tally F
  unfolding tally_entry
  tally by_id t [] = t
  tally by_id t (l ∷ ls) = tally by_id (tally_entry by_id t l) ls

  -- A median that is zero gives way to the mean, where there are entries.
  abbrev or_mean : ℕ → F → F → F
  or_mean zero m mean = m
  or_mean (suc _) m mean = if eq m nought then mean else m

  unfoldable pub makespan : Tally F → F
  makespan t =
      if not (is_zero t.min_start) && not (is_zero t.max_end)
      then seconds (sub_time t.max_end t.min_start)
      else nought

  -- The row, from the medians and spreads of the waits and of the carbon.
  unfoldable pub summary_row : Labels F → Tally F → F × F → F × F → SummaryRow F
  unfolding makespan safe_div cfp_g_per_cpu_hour
  summary_row labels t (wait, wait_spread) (ci, ci_spread) =
      let n = d.of_int (pos t.seen) in
      let wait' = or_mean t.seen wait (d.of_int t.sum_wait_ms ⊘ d.dec 1000 0 ⊘ n) in
      let ci' = or_mean t.seen ci (safe_div t.total_ci n) in
      record {
        policy = labels.policy;
        ci_weight = labels.ci_weight;
        batch_size = labels.batch_size;
        job_count = labels.job_count;
        arrival_rate = labels.arrival_rate;
        warmup_minutes = in_units 60_000_000_000 labels.warmup;
        total_ci_cost_g = t.total_ci;
        avg_ci_per_job_g = ci';
        cfp_g_per_cpu_hour = cfp_g_per_cpu_hour t.cfp;
        avg_wait_s = wait';
        carbon_median_g = ci';
        carbon_iqr_g = ci_spread;
        wait_median_s = wait';
        wait_iqr_s = wait_spread;
        makespan_s = makespan t;
        elapsed_ms = nought;
        num_jobs = t.seen;
      }

  unfoldable pub median_and_spread : (F → F) → List F → Option (F × F)
  unfolding iqr
  median_and_spread ceil values = do
    m ← median ceil values
    spread ← iqr ceil values
    some (m, spread)

  -- `none` where a quantile reads out of range.
  unfoldable pub summarise_run :
      (F → F) → Labels F → List (LogEntry F) → StringMap (Workload F) → Option (SummaryRow F)
  unfolding effective_logs tally median_and_spread summary_row
  summarise_run ceil labels logs by_id = do
    let t = tally by_id no_tally (effective_logs labels.warmup logs)
    wait ← median_and_spread ceil t.wait_samples
    ci ← median_and_spread ceil t.ci_samples
    some (summary_row labels t wait ci)
