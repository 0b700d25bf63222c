-- ===== src/RunSim/Arrivals.antt =====
-- run_sim.go: the synthetic arrivals of a run. math/rand is a parameter: a state, and what two of
-- its methods return with the state after.
use eco_kube.Prelude.{
  ℕ, zero, suc, ◌*◌, Option, none, some, List, [], ◌∷◌, ◌++◌, String, length, if◌then◌else◌,
}
use eco_kube.Prelude.Int.{ℤ, pos, pos_part, ltb_ℤ, ◌+ℤ◌}
use eco_kube.Prelude.Text.{equal_fold}
use eco_kube.Prelude.Float.{Float64, lt, le, nought, one, ◌⊗◌, ◌⊘◌}
use eco_kube.Core.Types.{Time, Duration, second, is_zero, Workload}
use eco_kube.RunSim.Flags.{clamp01}

-- `ExpFloat64` and `Float64`
pub record Rng (F S : Type 0) : Type 0 where
  pub exp_float : S → F × S
  pub uniform : S → F × S

-- What decides the intervals between waves.
pub record Pace (F : Type 0) : Type 0 where
  pub rate : F
  pub mode : String
  pub burst_prob : F
  pub burst_multiplier : F

abbrev pub wave_size : ℤ → ℕ
wave_size batch = if ltb_ℤ (pos 0) batch then pos_part batch else 1

module _ {F : Type 0} where
  -- The next `n` workloads, submitted at `current`, and the others.
  unfoldable pub stamp : Time → ℕ → List (Workload F) → List (Workload F) × List (Workload F)
  stamp current n [] = ([], [])
  stamp current zero (w ∷ ws) = ([], w ∷ ws)
  stamp current (suc n) (w ∷ ws) =
      let (front, rest) = stamp current n ws in (record w { submit_time = current } ∷ front, rest)

  -- A wave, and those after it where workloads are left.
  abbrev pub join_waves :
      List (Workload F)
      → List (Workload F)
      → Option (List (Workload F))
      → Option (List (Workload F))
  join_waves front [] later = some front
  join_waves front (_ ∷ _) none = none
  join_waves front (_ ∷ _) (some out) = some (front ++ out)

  -- The start, or the first submission, or `now`.
  abbrev pub schedule_start : Time → Time → Workload F → Time
  schedule_start now start w =
      if is_zero start then (if is_zero w.submit_time then now else w.submit_time) else start

module _ {F : Type 0} ⦃d : Float64 F⦄ where
  abbrev pub positive_pace : Pace F → Pace F
  positive_pace p = if le p.rate nought then record p { rate = one } else p

module _ {F S : Type 0} ⦃d : Float64 F⦄ (rng : Rng F S) where
  -- An interval in a burst is divided by the multiplier.
  unfoldable pub burst : Pace F → F → S → F × S
  unfolding clamp01 equal_fold
  burst p minutes s =
      let (u, s') = rng.uniform s in
      let mult = if le p.burst_multiplier nought then d.dec 2 0 else p.burst_multiplier in
      if equal_fold p.mode "bursty"
      then (if lt u (clamp01 p.burst_prob) then minutes ⊘ mult else minutes, s')
      else (minutes, s)

  unfoldable pub sample_arrival_interval : Pace F → S → Duration × S
  unfolding burst
  sample_arrival_interval p s =
      let rate = if le p.rate nought then one else p.rate in
      let (e, s') = rng.exp_float s in
      let (minutes, s'') = burst p (e ⊘ rate) s' in
      let least = d.dec 1 4 in
      (d.to_int ((if lt minutes least then least else minutes) ⊗ d.dec (60 * second) 0), s'')

  -- The loop over the waves, for at most `fuel` of them; `none` where they do not suffice.
  unfoldable pub waves : ℕ → ℕ → Pace F → Time → S → List (Workload F) → Option (List (Workload F))
  unfolding sample_arrival_interval stamp ◌+ℤ◌
  waves zero batch p current s [] = some []
  waves zero batch p current s (w ∷ ws) = none
  waves (suc fuel) batch p current s ws =
      let (front, rest) = stamp current batch ws in
      let (gap, s') = sample_arrival_interval p s in
      join_waves front rest (waves fuel batch p (current +ℤ gap) s' rest)

  -- `s` is the state that the seed gives.
  unfoldable pub apply_arrival_schedule :
      Time → List (Workload F) → Time → ℤ → Pace F → S → Option (List (Workload F))
  unfolding waves
  apply_arrival_schedule now [] start batch p s = some []
  apply_arrival_schedule now (w ∷ ws) start batch p s =
      waves (length (w ∷ ws)) (wave_size batch) (positive_pace p) (schedule_start now start w) s
        (w ∷ ws)
