-- ===== src/Generator/Rows.antt =====
-- generator.go: the rows of a generated file.
use eco_kube.Prelude.{
  ◌≡◌, refl, sym, ap, subst, ◌∙◌, ◌⊎◌, inl, inr, ℕ, zero, suc, ◌+◌, ◌-◌, ◌≤◌, ◌<◌, Bool, true,
  false, some, List, [], ◌∷◌, ◌++◌, String, length, length-append, ok, arith, if◌then◌else◌,
}
use eco_kube.Prelude.Int.{ℤ, pos, pos_part, ltb_ℤ}
use eco_kube.Prelude.Float.{Float64, lt, ◌⊕◌}
use eco_kube.Core.Types.{Time}
use eco_kube.Generator.{
  Source, Math, WorkloadOptions, WorkloadRow, Demand, Progress, resource_class_tag, shares, demand,
  sample_resource_class, next_row, wave_rows, min_int, append_rows, batch_of, with_rate,
  no_progress, log_normal_from_quantiles, all_rows, generate_workloads,
}

-- A class of jobs, with the ranges of what they ask for.
pub record IsDemand (class : String) (least_cpu most_cpu least_mem most_mem gpus : ℕ) (r : Demand)
    : Type 0 where
  pub of_class : r.class ≡ class
  pub cpu_from : least_cpu ≤ r.cpu
  pub cpu_to : r.cpu ≤ most_cpu
  pub mem_from : least_mem ≤ r.mem
  pub mem_to : r.mem ≤ most_mem
  pub gpus_are : r.gpu_count ≡ gpus

abbrev pub IsKnown : Demand → Type 0
IsKnown r =
    IsDemand "cpu" 2 7 8 19 0 r ⊎ (IsDemand "memory" 2 5 24 63 0 r ⊎ IsDemand "gpu" 8 19 48 95 1 r)

abbrev pub demand_of : WorkloadRow → Demand
demand_of r = record { class = r.resource_class; cpu = r.cpu; mem = r.mem; gpu_count = r.gpu_count }

-- A row of one of the classes, with the tag of its class and a positive duration.
pub record IsRow (r : WorkloadRow) : Type 0 where
  pub known : IsKnown (demand_of r)
  pub tagged : r.tag ≡ resource_class_tag r.resource_class
  pub lasting : ltb_ℤ (pos 0) r.duration ≡ true

-- Such rows, whose numbers count on from `i`.
abbrev pub AreRows : ℕ → List WorkloadRow → Type 0
AreRows i [] = Unit
AreRows i (r ∷ rs) = (r.number ≡ i) × IsRow r × AreRows (suc i) rs

AreRows-append :
    (i : ℕ) (xs ys : List WorkloadRow)
    → AreRows i xs
    → AreRows (i + length xs) ys
    → AreRows i (xs ++ ys)
AreRows-append i [] ys _ h = subst (λ n. AreRows n ys) (omega arith) h
AreRows-append i (x ∷ xs) ys (n, r, g) h =
    (n, r, AreRows-append (suc i) xs ys g (subst (λ n. AreRows n ys) (omega arith) h))

min_int_within : (b n : ℕ) → 0 < b → (0 < min_int b (suc n)) × (min_int b (suc n) ≤ suc n)
min_int_within b n h = (ground arith, ground arith)

batch_of_positive : (batch : ℤ) → 0 < batch_of batch
batch_of_positive batch = ground arith

module _ {F S : Type 0} ⦃d : Float64 F⦄ (rng : Source F S)
    (below : (n : ℕ) (s : S) → 0 < n → (rng.intn n s).0 < n) where
  demand-IsDemand :
      (class : String) (cpus least_cpu mems least_mem gpus : ℕ) (s : S)
      → 0 < cpus
      → 0 < mems
      → IsDemand class least_cpu
          (cpus + least_cpu - 1)
          least_mem
          (mems + least_mem - 1)
          gpus
          (demand rng class cpus least_cpu mems least_mem gpus s).0
  unfolding demand
  demand-IsDemand class cpus least_cpu mems least_mem gpus s c m = record {
    of_class = refl;
    cpu_from = omega arith;
    cpu_to = omega (arith, below cpus s c);
    mem_from = omega arith;
    mem_to = omega (arith, below mems (rng.intn cpus s).1 m);
    gpus_are = refl;
  }

  sample_resource_class-IsKnown :
      (share : F) (s : S) → IsKnown (sample_resource_class rng share s).0
  unfolding sample_resource_class
  sample_resource_class-IsKnown share s =
      pick (lt u.0 (shares share).0) (lt u.0 ((shares share).0 ⊕ (shares share).1)) _ _ _
        (inl (demand-IsDemand "cpu" 6 2 12 8 0 u.1 (omega arith) (omega arith)))
        (inr (inl (demand-IsDemand "memory" 4 2 40 24 0 u.1 (omega arith) (omega arith))))
        (inr (inr (demand-IsDemand "gpu" 12 8 48 48 1 u.1 (omega arith) (omega arith))))
    where
      u : F × S
      u = rng.uniform s

      pick :
          (a b : Bool) (x y z : Demand × S)
          → IsKnown (x.0)
          → IsKnown (y.0)
          → IsKnown (z.0)
          → IsKnown ((if a then x else if b then y else z).0)
      pick true b x y z h k l = h
      pick false true x y z h k l = k
      pick false false x y z h k l = l

  next_row-IsRow :
      (fns : Math F) (shape : F × F) (opts : WorkloadOptions F) (current : Time) (p : Progress S)
      → IsRow (next_row rng fns shape opts current p).0
  unfolding next_row
  next_row-IsRow fns shape opts current p = record {
    known = sample_resource_class-IsKnown opts.gpu_share p.source;
    tagged = refl;
    lasting = ground arith;
  }

  next_index :
      (fns : Math F) (shape : F × F) (opts : WorkloadOptions F) (current : Time) (p : Progress S)
      → ((next_row rng fns shape opts current p).0.number ≡ p.job_index)
        × ((next_row rng fns shape opts current p).1.job_index ≡ suc p.job_index)
  unfolding next_row
  next_index fns shape opts current p = (refl, refl)

  wave_rows-AreRows :
      (fns : Math F) (shape : F × F) (opts : WorkloadOptions F) (current : Time) (n : ℕ)
      (p : Progress S)
      → AreRows p.job_index (wave_rows rng fns shape opts current n p).0
        × (length (wave_rows rng fns shape opts current n p).0 ≡ n)
        × ((wave_rows rng fns shape opts current n p).1.job_index ≡ p.job_index + n)
  unfolding wave_rows
  wave_rows-AreRows fns shape opts current zero p = (tt, refl, omega arith)
  wave_rows-AreRows fns shape opts current (suc n) p =
      let (row, p') = next_row rng fns shape opts current p in
      let (number, index) = next_index fns shape opts current p in
      let (rows, same, end) = wave_rows-AreRows fns shape opts current n p' in
      (
        (
          number,
          next_row-IsRow fns shape opts current p,
          subst (λ i. AreRows i (wave_rows rng fns shape opts current n p').0) index rows,
        ),
        ap suc same,
        omega (arith, end, index),
      )

  all_rows-AreRows :
      (fns : Math F) (shape : F × F) (opts : WorkloadOptions F) (fuel batch jobs : ℕ)
      (current : Time) (p : Progress S)
      → 0 < batch
      → jobs ≤ fuel
      → (rows : List WorkloadRow) × (all_rows rng fns shape opts fuel batch jobs current p
          ≡ some rows)
        × (length rows ≡ jobs)
        × AreRows p.job_index rows
  unfolding all_rows
  all_rows-AreRows fns shape opts fuel batch zero current p b h = ([], refl, refl, tt)
  all_rows-AreRows fns shape opts zero batch (suc n) current p b h = absurd (omega arith)
  all_rows-AreRows fns shape opts (suc fuel) batch (suc n) current p b h =
      let wave : ℕ = min_int batch (suc n) in
      let (wave_from, wave_to) = min_int_within batch n b in
      let (first, count, end) = wave_rows-AreRows fns shape opts current wave p in
      let (more, run, left, later) =
        all_rows-AreRows fns shape opts fuel batch (suc n - wave) _ _ b (omega arith) in
      let rows : List WorkloadRow = (wave_rows rng fns shape opts current wave p).0 in
      (
        rows ++ more,
        ap (append_rows rows) run,
        omega (arith, length-append rows more, count, left, wave_to),
        AreRows-append p.job_index rows more first
            (subst (λ i. AreRows i more) (end ∙ ap (λ n. p.job_index + n) (sym count)) later),
      )

  -- With an `Intn` that stays below its bound, a positive number of jobs is written as that many
  -- rows, numbered from 0 on, each of one of the three classes with the resources, the tag and the
  -- positive duration of its class.
  pub generate_workloads-AreRows :
      (fns : Math F) (start : Time) (opts : WorkloadOptions F) (s : S)
      → ltb_ℤ (pos 0) opts.num_jobs ≡ true
      → (rows : List WorkloadRow) × (generate_workloads rng fns start opts s ≡ ok (some rows))
        × (length rows ≡ pos_part opts.num_jobs)
        × AreRows 0 rows
  unfolding generate_workloads
  generate_workloads-AreRows fns start opts s h =
      let (rows, run, count, fit) =
        all_rows-AreRows fns (log_normal_from_quantiles fns opts.p25_minutes opts.p75_minutes)
          (with_rate opts) (pos_part opts.num_jobs) (batch_of opts.batch_size)
          (pos_part opts.num_jobs) start (no_progress s) (batch_of_positive opts.batch_size)
          (omega arith) in
      (rows, rw (h, generate_workloads) (ap ok run), count, fit)
