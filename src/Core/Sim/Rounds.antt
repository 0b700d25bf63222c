-- ===== src/Core/Sim/Rounds.antt =====
-- The rule for the loop of `Run`: what every round keeps holds where a run ends.
use eco_kube.Prelude.{ℕ, zero, suc, ◌≡◌, true, some, [], arith, Bool-cases, inl, inr}
use eco_kube.Prelude.Float.{Float64}
use eco_kube.Core.Sim.{BaseSim, Running, round, finished, run_rounds}

module _ {F : Type 0} ⦃d : Float64 F⦄ where
  pub finished_nil : (s : Running F) → finished s ≡ true → (s.arrivals ≡ []) × (s.queue ≡ [])
  finished_nil s h = ground arith

  pub run_rounds_inv :
      (P : Running F → Type 0)
      → ((s : Running F) → P s → P (round s))
      → (fuel : ℕ) (s : Running F) {end : BaseSim F} → P s
      → run_rounds fuel s ≡ some end
      → (t : Running F) × P t × (finished t ≡ true) × (end ≡ t.sim)
  unfolding run_rounds
  run_rounds_inv P keep zero s p e = elim (Bool-cases (finished s)) [
    | inl done ↦ (s, p, done, ground arith)
    | inr more ↦ absurd (ground arith)
  ]
  run_rounds_inv P keep (suc fuel) s p e = elim (Bool-cases (finished s)) [
    | inl done ↦ (s, p, done, ground arith)
    | inr more ↦ run_rounds_inv P keep fuel (round s) (keep s p) (rw (more, run_rounds) at e)
  ]
