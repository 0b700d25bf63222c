-- ===== src/Policies/Ecokube.antt =====
-- policies/ecokube: the heterogeneity-aware policy. The metrics of a candidate are in
-- Ecokube/Metrics, its fit in Ecokube/Fit and the two scoring rules in Ecokube/Score.
pub mod Fit
pub mod Metrics
pub mod Score
pub mod Offers
pub mod Choice
use eco_kube.Prelude.{Bool, true, false, Option, none, List, String, Result, ok, err, if◌then◌else◌}
use eco_kube.Prelude.Text.{str_eq}
use eco_kube.Prelude.Float.{Float64}
use eco_kube.Core.Types.{Time, Job, SimulatedNode}
use eco_kube.Core.ArgMin.{Scores}
use eco_kube.Core.Policy.{Policy}
use eco_kube.Core.Sim.Select.{or_default}
use eco_kube.Policies.{CarbonModel, policy_now, gather_now}
use Metrics.{Metric, compute_candidate_metrics}
use Score.{Config, score_weighted, score_epsilon}
use Prim.Native.String.{◌++◌ as str_append}

-- A mode is the string that names it: `ModeWeightedSum`, `ModeEpsilonConstraint` and
-- `ModeGreedyNormalised`.
abbrev pub weighted_sum : String
weighted_sum = "eco-weighted-sum"

abbrev pub epsilon_constraint : String
epsilon_constraint = "eco-epsilon-constraint"

abbrev pub greedy_normalised : String
greedy_normalised = "eco-greedy-normalised"

unfoldable pub policy_name : String → String → String
policy_name mode override = if str_eq override "" then or_default mode weighted_sum else override

module _ {F : Type 0} ⦃d : Float64 F⦄ where
  -- The scores of a mode; `quoted` stands for the mode as `%q` prints it.
  unfoldable pub score_mode : String → Config F → String → List (Metric F) → Result (Scores F)
  unfolding score_weighted score_epsilon
  score_mode mode cfg quoted items =
      if str_eq mode weighted_sum
      then ok (score_weighted cfg items)
      else if str_eq mode ""
      then ok (score_weighted cfg items)
      else if str_eq mode greedy_normalised
      then ok (score_weighted cfg items)
      else if str_eq mode epsilon_constraint
      then ok (score_epsilon cfg items)
      else err (str_append "ecokube: unsupported mode " quoted)

  unfoldable pub eco_score :
      (String → String)
      → CarbonModel F
      → String
      → Config F
      → Job F
      → List (SimulatedNode F)
      → Result (Scores F)
  unfolding score_mode compute_candidate_metrics
  eco_score quote model mode cfg job nodes =
      let now = gather_now (policy_now cfg.now job.submit_at) job.submit_at in
      elim (compute_candidate_metrics model job nodes now) [
        | err e ↦ err e
        | ok items ↦ score_mode mode cfg (quote mode) items
      ]

  -- `quote` stands for the verb `%q` of `fmt`.
  unfoldable pub eco_policy :
      (String → String) → CarbonModel F → String → Config F → String → Policy F
  unfolding policy_name
  eco_policy quote model mode cfg override = record {
    name = policy_name mode override;
    score = eco_score quote model mode cfg;
    trace = none;
  }
