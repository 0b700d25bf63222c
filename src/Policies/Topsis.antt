-- ===== src/Policies/Topsis.antt =====
-- policies/topsis: the closeness to the ideal node in carbon, runtime and queueing.
use eco_kube.Prelude.{
  Option, none, some, List, [], ◌∷◌, map, ℕ, suc, String, ok, err, keep_if, if◌then◌else◌,
}
use eco_kube.Prelude.Float.{Float64, lt, le, nought, one, ◌⊕◌, ◌⊖◌, ◌⊗◌, ◌⊘◌}
use eco_kube.Core.Types.{Time}
use eco_kube.Core.ArgMin.{Scores}
use eco_kube.Core.Policy.{Policy}
use eco_kube.Policies.{CarbonModel, put_all, or_sentinel, policy_now}
use eco_kube.Policies.Candidate.{Candidate, gather, at}
use eco_kube.Policies.Keids.{Weights, or_default_weights, feasible}

-- `[3]float64`
pub record Vec (F : Type 0) : Type 0 where
  pub carbon : F
  pub runtime : F
  pub queue : F

module _ {F : Type 0} ⦃d : Float64 F⦄ where
  abbrev default_weights : Weights F
  default_weights = record { alpha = d.dec 58 2; beta = d.dec 21 2; gamma = d.dec 21 2 }

  unfoldable pub sum_squares : F → List F → F
  sum_squares acc [] = acc
  sum_squares acc (v ∷ vs) = sum_squares (acc ⊕ v ⊗ v) vs

  unfoldable pub normalise_vector : List F → List F
  unfolding sum_squares
  normalise_vector vals =
      let sum = sum_squares nought vals in
      map (λ v. if le sum nought then nought else v ⊘ d.sqrt sum) vals

  unfoldable pub distance : Vec F → Vec F → F
  distance v t =
      let c = v.carbon ⊖ t.carbon in
      let r = v.runtime ⊖ t.runtime in
      let q = v.queue ⊖ t.queue in d.sqrt (nought ⊕ c ⊗ c ⊕ r ⊗ r ⊕ q ⊗ q)

  abbrev lower : F → F → F
  lower v best = if lt v best then v else best

  abbrev higher : F → F → F
  higher v worst = if lt worst v then v else worst

  -- The ideal best and the ideal worst over the nodes from node `i` on.
  unfoldable pub ideals : (ℕ → Vec F) → ℕ → List String → Vec F → Vec F → Vec F × Vec F
  ideals weighted i [] best worst = (best, worst)
  ideals weighted i (_ ∷ ids) best worst =
      let v = weighted i in
      ideals weighted (suc i) ids
        (record {
          carbon = lower v.carbon best.carbon;
          runtime = lower v.runtime best.runtime;
          queue = lower v.queue best.queue;
        })
        (record {
          carbon = higher v.carbon worst.carbon;
          runtime = higher v.runtime worst.runtime;
          queue = higher v.queue worst.queue;
        })

  unfoldable pub closeness : Vec F → Vec F → Vec F → F
  unfolding distance
  closeness best worst v =
      let to_best = distance v best in
      let to_worst = distance v worst in
      if lt nought (to_best ⊕ to_worst) then to_worst ⊘ (to_best ⊕ to_worst) else nought

  unfoldable pub topsis_score : (ℕ → Vec F) → Vec F × Vec F → ℕ → String → Option (String × F)
  unfolding closeness
  topsis_score weighted (best, worst) i id = some (id, one ⊖ closeness best worst (weighted i))

  -- The weighted vector of the i-th of the feasible candidates.
  abbrev weighted_of : Weights F → List (Candidate F) → ℕ → Vec F
  unfolding normalise_vector
  weighted_of w good i = record {
    carbon = w.alpha ⊗ at (normalise_vector (map (λ c. c.carbon) good)) i;
    runtime = w.beta ⊗ at (normalise_vector (map (λ c. c.runtime) good)) i;
    queue = w.gamma ⊗ at (normalise_vector (map (λ c. c.queue) good)) i;
  }

  unfoldable pub topsis_scores : Weights F → List (Candidate F) → Scores F
  unfolding keep_if put_all topsis_score weighted_of ideals
  topsis_scores weights cs =
      let good = feasible cs in
      let ids = map (λ c. c.id) good in
      let weighted = weighted_of (or_default_weights weights default_weights) good in
      let best : Vec F = record { carbon = d.inf; runtime = d.inf; queue = d.inf } in
      let worst : Vec F = record { carbon = d.neg_inf; runtime = d.neg_inf; queue = d.neg_inf } in
      or_sentinel (put_all (topsis_score weighted (ideals weighted 0 ids best worst)) 0 ids [])

  unfoldable pub topsis_policy : CarbonModel F → Weights F → Option Time → Policy F
  topsis_policy model weights now = record {
    name = "topsis";
    score = λ job nodes. elim (gather model job nodes (policy_now now job.submit_at)) [
      | err e ↦ err e
      | ok cs ↦ ok (topsis_scores weights cs)
    ];
    trace = none;
  }
