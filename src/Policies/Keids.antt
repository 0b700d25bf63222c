-- ===== src/Policies/Keids.antt =====
-- policies/keids: a weighted sum of scaled carbon, runtime and queueing.
use eco_kube.Prelude.{
  ◌&&◌, Option, none, some, List, [], map, ℕ, String, ok, err, keep_if, if◌then◌else◌,
}
use eco_kube.Prelude.Float.{Float64, lt, eq, nought, one, ◌⊕◌, ◌⊗◌, ◌⊘◌}
use eco_kube.Core.Types.{Time}
use eco_kube.Core.ArgMin.{Scores}
use eco_kube.Core.Policy.{Policy}
use eco_kube.Policies.{CarbonModel, put_all, or_sentinel, policy_now}
use eco_kube.Policies.Candidate.{Candidate, gather, normalise_min_max, at}

pub record Weights (F : Type 0) : Type 0 where
  pub alpha : F
  pub beta : F
  pub gamma : F

module _ {F : Type 0} ⦃d : Float64 F⦄ where
  abbrev pub default_weights : Weights F
  default_weights = record { alpha = d.dec 45 2; beta = d.dec 35 2; gamma = d.dec 20 2 }

  -- The weights, or the defaults in place of the zero value.
  abbrev pub or_default_weights : Weights F → Weights F → Weights F
  or_default_weights w w' =
      if eq w.alpha nought && (eq w.beta nought && eq w.gamma nought) then w' else w

  abbrev pub feasible : List (Candidate F) → List (Candidate F)
  feasible = keep_if λ c. c.feasible

  -- The score of the candidate that is the i-th feasible one.
  unfoldable pub keids_score :
      Weights F → List F → List F → List F → ℕ → Candidate F → Option (String × F)
  keids_score w carbon runtime queue i c =
      let base = w.alpha ⊗ at carbon i ⊕ w.beta ⊗ at runtime i ⊕ w.gamma ⊗ at queue i in
      let interference = if lt nought c.runtime then c.queue ⊘ (c.runtime ⊕ one) else nought in
      if c.feasible then some (c.id, base ⊕ d.dec 5 2 ⊗ w.gamma ⊗ interference) else none

  unfoldable pub keids_scores : Weights F → List (Candidate F) → Scores F
  unfolding keep_if put_all keids_score normalise_min_max
  keids_scores weights cs =
      let w = or_default_weights weights default_weights in
      let good = feasible cs in
      or_sentinel (
        put_all
          (keids_score w (normalise_min_max (map (λ c. c.carbon) good))
            (normalise_min_max (map (λ c. c.runtime) good))
            (normalise_min_max (map (λ c. c.queue) good)))
          0 cs [])

  unfoldable pub keids_policy : CarbonModel F → Weights F → Option Time → Policy F
  keids_policy model weights now = record {
    name = "keids";
    score = λ job nodes. elim (gather model job nodes (policy_now now job.submit_at)) [
      | err e ↦ err e
      | ok cs ↦ ok (keids_scores weights cs)
    ];
    trace = none;
  }
