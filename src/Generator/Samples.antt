-- ===== src/Generator/Samples.antt =====
-- Three generated jobs in waves of two.
use eco_kube.Prelude.{◌≡◌, refl, ℕ, ◌<◌, some, List, length, ok, arith}
use eco_kube.Prelude.Int.{pos}
use eco_kube.Prelude.Sample.{Fixed, fixed}
use eco_kube.Core.Node.Samples.{units}
use eco_kube.Generator.{
  Source, Math, WorkloadOptions, WorkloadRow, default_workload_options, sample_resource_class,
  generate_workloads,
}
use eco_kube.Generator.Rows.{AreRows, generate_workloads-AreRows}

abbrev lowest : Source Fixed (Unit {0})
lowest = record {
  exp_float = λ s. (units 1, s);
  norm_float = λ s. (units 0, s);
  uniform = λ s. (fixed.dec 4 1, s);
  intn = λ n s. (0, s);
}

abbrev plain_math : Math Fixed
plain_math = record { exp = λ x. units 1; log = λ x. x; round = λ x. x }

abbrev three_jobs : WorkloadOptions Fixed
three_jobs = record (default_workload_options) { num_jobs = pos 3; batch_size = pos 2 }

lowest-below : (n : ℕ) (s : Unit {0}) → 0 < n → (lowest.intn n s).0 < n
lowest-below n s h = omega arith

generate_workloads-AreRows_example :
    (rows : List WorkloadRow) × (generate_workloads lowest plain_math (pos 0) three_jobs tt
      ≡ ok (some rows))
    × (length rows ≡ 3)
    × AreRows 0 rows
generate_workloads-AreRows_example =
    generate_workloads-AreRows lowest lowest-below plain_math (pos 0) three_jobs tt refl

-- Of a source at 0.4, a share of 0.95 for GPUs still makes a job for the CPU.
gpu_share_lost : (sample_resource_class lowest (fixed.dec 95 2) tt).0.class ≡ "cpu"
unfolding sample_resource_class fixed
gpu_share_lost = refl
