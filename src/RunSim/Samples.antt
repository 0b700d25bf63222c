-- ===== src/RunSim/Samples.antt =====
-- A scenario with one job on one node, its figures, and the flags of a sweep.
use eco_kube.Prelude.{◌≡◌, refl, false, ℕ, ◌+◌, ◌<◌, ◌≤◌, Option, none, some, List, [], ◌∷◌, All}
use eco_kube.Prelude.Int.{pos}
use eco_kube.Prelude.Text.{put}
use eco_kube.Prelude.Sample.{Fixed, fixed}
use eco_kube.Core.Types.{Workload}
use eco_kube.Core.Node.Samples.{units, small_job, small_node}
use eco_kube.Core.Node.{release, can_accept, next_release_after, reserve, new_node, gpu_ok}
use eco_kube.Core.ArgMin.{arg_min, improves}
use eco_kube.Core.Policy.{select_site_and_node}
use eco_kube.Core.Sim.Select.{select_node, by_policy, by_policy_or_load, job_of, find_named}
use eco_kube.Core.Sim.{
  BaseSim, LogEntry, run_rounds, round, enqueue, idle_clock, visit_all, visit, place_selected,
  place_on, release_all,
}
use eco_kube.Core.Sim.Conservation.{logged, waiting}
use eco_kube.Policies.{CarbonModel, plain_workload}
use eco_kube.Policies.K8sched.{k8s_policy, k8s_scores, used}
use eco_kube.Policies.Ecokube.{weighted_sum}
use eco_kube.RunSim.Flags.{resolve_eco_mode, parse_eco_modes, slugify_float}
use eco_kube.RunSim.Arrivals.{
  Rng, Pace, wave_size, positive_pace, schedule_start, apply_arrival_schedule,
}
use eco_kube.RunSim.Summary.{Labels, SummaryRow, no_tally, tally, summarise_run}
use eco_kube.RunSim.Runs.{Scenario, new_sim, baseline_run}
use eco_kube.RunSim.Modes.{IsModeList, parse_eco_modes-IsModeList}
use eco_kube.RunSim.Waves.{InWaves, apply_arrival_schedule-InWaves}
use eco_kube.RunSim.Figures.{Covers, tally-Covers, summarise_run-num_jobs}
use eco_kube.RunSim.Conservation.{baseline_run-logged}

abbrev steady : Rng Fixed (Unit {0})
steady = record { exp_float = λ s. (units 1, s); uniform = λ s. (units 0, s) }

abbrev pace : Pace Fixed
pace = record { rate = units 1; mode = "poisson"; burst_prob = units 0; burst_multiplier = units 3 }

abbrev two_jobs : List (Workload Fixed)
two_jobs = small_job ∷ record (small_job) { id = "second" } ∷ []

apply_arrival_schedule-InWaves_example :
    (out : List (Workload Fixed)) × (apply_arrival_schedule steady
        (pos 0)
        two_jobs
        (pos 9)
        (pos 1)
        pace
        tt
      ≡ some out)
    × InWaves steady
        (wave_size (pos 1))
        (positive_pace pace)
        (schedule_start (pos 0) (pos 9) small_job)
        tt
        two_jobs
        out
apply_arrival_schedule-InWaves_example =
    apply_arrival_schedule-InWaves steady (pos 0) small_job
      (record (small_job) { id = "second" } ∷ []) (pos 9) (pos 1) pace tt

-- The default of the flag names no mode that the program knows.
default_mode_unknown : resolve_eco_mode "het-weighted-sum" ≡ none
unfolding resolve_eco_mode
default_mode_unknown = refl

modes_run :
    parse_eco_modes "epsilon-constraint, Weighted-Sum,epsilon-constraint"
    ≡ "eco-epsilon-constraint" ∷ weighted_sum ∷ []
unfolding parse_eco_modes
modes_run = refl

slug_runs : slugify_float "0.50" ≡ "0p5"
unfolding slugify_float
slug_runs = refl

parse_eco_modes-IsModeList_example : IsModeList (parse_eco_modes "het-weighted-sum")
parse_eco_modes-IsModeList_example = parse_eco_modes-IsModeList "het-weighted-sum"

abbrev entry_of : ℕ → LogEntry Fixed
entry_of t = record {
  job_id = "job";
  node = "n1";
  site = "";
  submit = pos 5;
  start = pos t;
  end = pos (t + 100);
  wait_ms = pos 7;
  ci_cost = units 3;
}

tally-Covers_example :
    All (Covers (tally [] no_tally (entry_of 9 ∷ entry_of 6 ∷ []))) (entry_of 9 ∷ entry_of 6 ∷ [])
tally-Covers_example = tally-Covers [] no_tally (entry_of 9 ∷ entry_of 6 ∷ [])

abbrev labels : Labels Fixed
labels = record {
  policy = "k8s";
  ci_weight = units 0;
  batch_size = pos 1;
  job_count = pos 1;
  arrival_rate = units 1;
  warmup = pos 3;
}

abbrev ceil : Fixed → Fixed
ceil x = x

program : Unit {0}
unfolding summarise_run fixed
program = tt

abbrev found_row : Option (SummaryRow Fixed) → SummaryRow Fixed
found_row none = empty_row
  where
    empty_row : SummaryRow Fixed
    empty_row = record {
      policy = "";
      ci_weight = units 0;
      batch_size = pos 0;
      job_count = pos 0;
      arrival_rate = units 0;
      warmup_minutes = units 0;
      total_ci_cost_g = units 0;
      avg_ci_per_job_g = units 0;
      cfp_g_per_cpu_hour = units 0;
      avg_wait_s = units 0;
      carbon_median_g = units 0;
      carbon_iqr_g = units 0;
      wait_median_s = units 0;
      wait_iqr_s = units 0;
      makespan_s = units 0;
      elapsed_ms = units 0;
      num_jobs = 0;
    }
found_row (some r) = r

abbrev short_log : Option (SummaryRow Fixed)
short_log = summarise_run ceil labels (entry_of 6 ∷ entry_of 9 ∷ []) []

summarised : short_log ≡ some (found_row short_log)
unfolding program
summarised = refl

-- One job is left after a warm-up of three nanoseconds.
summary_runs : (found_row short_log).num_jobs ≡ 1
unfolding program
summary_runs = refl

summarise_run-num_jobs_example :
    (0 < (found_row short_log).num_jobs) × ((found_row short_log).num_jobs ≤ 2)
summarise_run-num_jobs_example =
    summarise_run-num_jobs ceil labels (entry_of 6) (entry_of 9 ∷ []) [] (found_row short_log)
      summarised

abbrev scenario : Scenario Fixed
scenario = record {
  batch = pos 1;
  template_start = pos 5;
  pace = pace;
  traced = false;
  now = pos 0;
  ceil = ceil;
}

abbrev model : CarbonModel Fixed
model = record { energy_and_carbon = λ n w at. (units 1, units 1); intensity = λ n at. units 1 }

abbrev outcome_of :
    Option (List (Workload Fixed) × BaseSim Fixed) → List (Workload Fixed) × BaseSim Fixed
outcome_of none = ([], new_sim)
outcome_of (some r) = r

abbrev outcome : Option (List (Workload Fixed) × BaseSim Fixed)
outcome =
    baseline_run steady (λ ws. ws) 3 model scenario k8s_policy tt (small_node ∷ []) []
      (small_job ∷ [])

run_program : Unit {0}
unfolding fixed baseline_run run_rounds round enqueue idle_clock visit_all visit place_selected
    select_node by_policy_or_load by_policy select_site_and_node k8s_policy arg_min k8s_scores
    release_all can_accept release next_release_after reserve new_node plain_workload job_of gpu_ok
    put find_named improves used place_on
run_program = tt

outcome-ended : outcome ≡ some ((outcome_of outcome).0, (outcome_of outcome).1)
unfolding run_program
outcome-ended = refl

baseline_run-logged_example :
    logged "job" (outcome_of outcome).1.logs_buf ≡ waiting "job" (small_job ∷ [])
baseline_run-logged_example =
    baseline_run-logged steady (λ ws. ws) 3 model (λ k ws. refl) scenario k8s_policy tt
      (small_node ∷ []) [] (small_job ∷ []) (outcome_of outcome).0 (outcome_of outcome).1
      outcome-ended "job"
