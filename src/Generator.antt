-- ===== src/Generator.antt =====
-- hetsched/pkg/generator: the synthetic workloads of an experiment. math/rand is a parameter, and
-- so are the functions of package math that Float64 does not have. A row keeps its numbers, which
-- the code prints.
pub mod Rows
pub mod Samples
use eco_kube.Prelude.{
  ℕ, zero, suc, ◌+◌, ◌-◌, ◌*◌, ◌%◌, Option, none, some, List, [], ◌∷◌, ◌++◌, String, get_elem?,
  Result, ok, err, ltb, if◌then◌else◌,
}
use eco_kube.Prelude.Int.{ℤ, pos, pos_part, ltb_ℤ, ◌+ℤ◌}
use eco_kube.Prelude.Text.{str_eq, equal_fold}
use eco_kube.Prelude.Float.{Float64, lt, le, nought, one, ◌⊕◌, ◌⊖◌, ◌⊗◌, ◌⊘◌}
use eco_kube.Core.Types.{Time, Duration, second}

-- `ExpFloat64`, `NormFloat64`, `Float64` and `Intn`.
pub record Source (F S : Type 0) : Type 0 where
  pub exp_float : S → F × S
  pub norm_float : S → F × S
  pub uniform : S → F × S
  pub intn : ℕ → S → ℕ × S

-- `math.Exp`, `math.Log` and `math.Round`.
pub record Math (F : Type 0) : Type 0 where
  pub exp : F → F
  pub log : F → F
  pub round : F → F

pub record WorkloadOptions (F : Type 0) : Type 0 where
  pub num_jobs : ℤ
  pub arrival_rate : F
  pub arrival_mode : String
  pub burst_probability : F
  pub burst_multiplier : F
  pub batch_size : ℤ
  pub p25_minutes : F
  pub p75_minutes : F
  pub pareto_share : F
  pub pareto_alpha : F
  pub pareto_scale : F
  pub gpu_share : F

-- A row of the workloads: `number` is the job's in its identifier.
pub record WorkloadRow : Type 0 where
  pub number : ℕ
  pub submit : Time
  pub cpu : ℕ
  pub mem : ℕ
  pub duration : ℤ
  pub tag : String
  pub preferred_site : String
  pub resource_class : String
  pub gpu_count : ℕ

-- What a class of jobs asks for.
pub record Demand : Type 0 where
  pub class : String
  pub cpu : ℕ
  pub mem : ℕ
  pub gpu_count : ℕ

-- The next job's number, the counters of the sites, and the random source.
pub record Progress (S : Type 0) : Type 0 where
  pub job_index : ℕ
  pub cpu_idx : ℕ
  pub gpu_idx : ℕ
  pub memory_idx : ℕ
  pub source : S

unfoldable pub resource_class_tag : String → String
resource_class_tag class =
    if str_eq class "gpu"
    then "carbon"
    else if str_eq class "memory"
    then "latency"
    else "throughput"

-- The three lists of sites are the same.
abbrev cpu_sites : List String
cpu_sites = "FR" ∷ "FR" ∷ "NL" ∷ "FR" ∷ []

abbrev site_at : ℕ → String
site_at idx = elim (get_elem? cpu_sites (idx % 4)) [ none ↦ "" | some s ↦ s ]

-- The site that a job of the class prefers, with the counter of the class moved on.
unfoldable pub next_site : {S : Type 0} → String → Progress S → String × Progress S
next_site class p =
    if str_eq class "gpu"
    then (site_at p.gpu_idx, record p { gpu_idx = suc p.gpu_idx })
    else if str_eq class "memory"
    then (site_at p.memory_idx, record p { memory_idx = suc p.memory_idx })
    else (site_at p.cpu_idx, record p { cpu_idx = suc p.cpu_idx })

abbrev pub min_int : ℕ → ℕ → ℕ
min_int a b = if ltb a b then a else b

abbrev pub batch_of : ℤ → ℕ
batch_of batch = if ltb_ℤ (pos 0) batch then pos_part batch else 1

abbrev pub no_progress : {S : Type 0} → S → Progress S
no_progress s = record { job_index = 0; cpu_idx = 0; gpu_idx = 0; memory_idx = 0; source = s }

abbrev pub append_rows : List WorkloadRow → Option (List WorkloadRow) → Option (List WorkloadRow)
append_rows rows none = none
append_rows rows (some more) = some (rows ++ more)

module _ {F : Type 0} ⦃d : Float64 F⦄ where
  unfoldable pub default_workload_options : WorkloadOptions F
  default_workload_options = record {
    num_jobs = pos 1000;
    arrival_rate = one;
    arrival_mode = "poisson";
    burst_probability = d.dec 10 2;
    burst_multiplier = d.dec 30 1;
    batch_size = pos 64;
    p25_minutes = d.dec 4 0;
    p75_minutes = d.dec 20 0;
    pareto_share = d.dec 10 2;
    pareto_alpha = d.dec 22 1;
    pareto_scale = d.dec 20 0;
    gpu_share = d.dec 15 2;
  }

  unfoldable pub log_normal_from_quantiles : Math F → F → F → F × F
  log_normal_from_quantiles fns q25 q75 =
      let z = d.dec 6_744_897_501_960_817 16 in
      let sigma = fns.log (q75 ⊘ q25) ⊘ (z ⊖ (nought ⊖ z)) in
      if le q25 nought
      then (fns.log (d.dec 8 0), one)
      else if le q75 nought
      then (fns.log (d.dec 8 0), one)
      else (fns.log q25 ⊖ sigma ⊗ (nought ⊖ z), sigma)

  -- The share of jobs for the CPU, and of those for memory.
  unfoldable pub shares : F → F × F
  shares gpu_share =
      let gpu =
        if lt gpu_share nought
        then nought
        else if lt (d.dec 95 2) gpu_share
        then d.dec 95 2
        else gpu_share in
      let cpu = one ⊖ gpu ⊖ d.dec 25 2 in
      if lt cpu nought then (d.dec 5 1, one ⊖ gpu ⊖ d.dec 5 1) else (cpu, d.dec 25 2)

  abbrev pub with_rate : WorkloadOptions F → WorkloadOptions F
  with_rate opts = if le opts.arrival_rate nought then record opts { arrival_rate = one } else opts

module _ {F S : Type 0} ⦃d : Float64 F⦄ (rng : Source F S) where
  -- CPU and memory, each from a range of so many values above its least.
  unfoldable pub demand : String → ℕ → ℕ → ℕ → ℕ → ℕ → S → Demand × S
  demand class cpus least_cpu mems least_mem gpus s =
      let (a, s') = rng.intn cpus s in
      let (b, s'') = rng.intn mems s' in
      (record { class = class; cpu = a + least_cpu; mem = b + least_mem; gpu_count = gpus }, s'')

  unfoldable pub sample_resource_class : F → S → Demand × S
  unfolding shares demand
  sample_resource_class gpu_share s =
      let (cpu_share, mem_share) = shares gpu_share in
      let (u, s') = rng.uniform s in
      if lt u cpu_share
      then demand "cpu" 6 2 12 8 0 s'
      else if lt u (cpu_share ⊕ mem_share)
      then demand "memory" 4 2 40 24 0 s'
      else demand "gpu" 12 8 48 48 1 s'

  -- A lognormal duration, `u` being drawn already where the Pareto share is positive.
  unfoldable pub sample_duration_minutes : Math F → F → F → WorkloadOptions F → S → F × S
  sample_duration_minutes fns mu sigma opts s =
      let (u, s') = rng.uniform s in
      let (v, s'') = rng.uniform s' in
      let s0 = if lt nought opts.pareto_share then s' else s in
      let (n, s3) = rng.norm_float s0 in
      let normal = fns.exp (n ⊗ sigma ⊕ mu) in
      if lt nought opts.pareto_share
      then (if lt u opts.pareto_share
          then (opts.pareto_scale ⊘ d.pow (one ⊖ v) (one ⊘ opts.pareto_alpha), s'')
          else (normal, s3))
      else (normal, s3)

  unfoldable pub sample_inter_arrival : WorkloadOptions F → S → Duration × S
  unfolding equal_fold
  sample_inter_arrival opts s =
      let rate = if le opts.arrival_rate nought then one else opts.arrival_rate in
      let (e, s') = rng.exp_float s in
      let (u, s'') = rng.uniform s' in
      let factor = if le opts.burst_multiplier nought then d.dec 2 0 else opts.burst_multiplier in
      let bursty = equal_fold opts.arrival_mode "bursty" in
      let minutes = e ⊘ rate in
      let minutes' =
        if bursty
        then (if lt u opts.burst_probability then minutes ⊘ factor else minutes)
        else minutes in
      let seconds = minutes' ⊗ d.dec 600 1 in
      (
        d.to_int ((if lt seconds (d.dec 1 1) then d.dec 1 1 else seconds) ⊗ d.dec second 0),
        if bursty then s'' else s',
      )

  -- One job: its row, and the progress after it.
  unfoldable pub next_row :
      Math F → F × F → WorkloadOptions F → Time → Progress S → WorkloadRow × Progress S
  unfolding sample_resource_class sample_duration_minutes next_site resource_class_tag
  next_row fns (mu, sigma) opts current p =
      let (want, s) = sample_resource_class opts.gpu_share p.source in
      let (minutes, s') = sample_duration_minutes fns mu sigma opts s in
      let seconds = d.to_int (fns.round (minutes ⊗ d.dec 60 0)) in
      let (site, p') = next_site want.class p in
      (
        record {
          number = p.job_index;
          submit = current;
          cpu = want.cpu;
          mem = want.mem;
          duration = if ltb_ℤ (pos 0) seconds then seconds else pos 60;
          tag = resource_class_tag want.class;
          preferred_site = site;
          resource_class = want.class;
          gpu_count = want.gpu_count;
        },
        record p' { job_index = suc p.job_index; source = s' },
      )

  unfoldable pub wave_rows :
      Math F → F × F → WorkloadOptions F → Time → ℕ → Progress S → List WorkloadRow × Progress S
  unfolding next_row
  wave_rows fns shape opts current zero p = ([], p)
  wave_rows fns shape opts current (suc n) p =
      let (row, p') = next_row fns shape opts current p in
      let (rows, p'') = wave_rows fns shape opts current n p' in (row ∷ rows, p'')

  -- The loop while jobs remain, for at most `fuel` waves; `none` where they do not suffice.
  unfoldable pub all_rows :
      Math F → F × F → WorkloadOptions F → ℕ → ℕ → ℕ → Time → Progress S → Option (List WorkloadRow)
  unfolding wave_rows sample_inter_arrival ◌+ℤ◌
  all_rows fns shape opts fuel batch zero current p = some []
  all_rows fns shape opts zero batch (suc n) current p = none
  all_rows fns shape opts (suc fuel) batch (suc n) current p =
      let wave = min_int batch (suc n) in
      let (rows, p') = wave_rows fns shape opts current wave p in
      let (gap, s) = sample_inter_arrival opts p'.source in
      append_rows rows (
        all_rows fns shape opts fuel batch (suc n - wave) (current +ℤ gap)
          (record p' { source = s }))

  -- `start` is `defaultStart`, and `s` is the source that the seed gives.
  unfoldable pub generate_workloads :
      Math F → Time → WorkloadOptions F → S → Result (Option (List WorkloadRow))
  unfolding all_rows log_normal_from_quantiles
  generate_workloads fns start opts s =
      let jobs = pos_part opts.num_jobs in
      if ltb_ℤ (pos 0) opts.num_jobs
      then ok (
          all_rows fns (log_normal_from_quantiles fns opts.p25_minutes opts.p75_minutes)
            (with_rate opts) jobs (batch_of opts.batch_size) jobs start (no_progress s))
      else err "NumJobs must be positive"
