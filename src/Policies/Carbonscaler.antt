-- ===== src/Policies/Carbonscaler.antt =====
-- policies/carbonscaler: carbon against queueing, each scaled over the feasible nodes. The
-- marginal work per carbon that the code also computes enters no score.
use eco_kube.Prelude.{
  Bool, true, false, Option, none, some, List, [], ◌∷◌, map, ℕ, String, ok, if◌then◌else◌,
}
use eco_kube.Prelude.Float.{Float64, lt, le, nought, one, ◌⊕◌, ◌⊖◌, ◌⊗◌, ◌⊘◌}
use eco_kube.Core.Types.{Time, is_zero, unix_epoch, Workload, Job, SimulatedNode}
use eco_kube.Core.Node.{can_accept}
use eco_kube.Core.ArgMin.{Scores}
use eco_kube.Core.Policy.{Policy}
use eco_kube.Policies.{CarbonModel, ci_cost, put_all, or_sentinel, plain_workload, queue_seconds}

pub record Row (F : Type 0) : Type 0 where
  pub id : String
  pub carbon : F
  pub queue : F
  pub good : Bool

pub record Ranges (F : Type 0) : Type 0 where
  pub min_carbon : F
  pub max_carbon : F
  pub max_queue : F

module _ {F : Type 0} ⦃d : Float64 F⦄ where
  unfoldable pub carbon_of : CarbonModel F → SimulatedNode F → Workload F → Time → F
  carbon_of model n w at =
      let cost = ci_cost model n w at in
      let estimate = model.intensity n at in
      if le cost nought then (if le estimate nought then one else estimate) else cost

  unfoldable pub row_of : CarbonModel F → Workload F → Time → SimulatedNode F → Row F
  row_of model w at n =
      if can_accept n w
      then record {
        id = n.name;
        carbon = carbon_of model n w at;
        queue = (let q = queue_seconds n at in if lt q nought then nought else q);
        good = true;
      }
      else record { id = ""; carbon = nought; queue = nought; good = false }

  abbrev widen_ranges : Ranges F → Row F → Ranges F
  widen_ranges g r =
      if r.good
      then record {
        min_carbon = if lt r.carbon g.min_carbon then r.carbon else g.min_carbon;
        max_carbon = if lt g.max_carbon r.carbon then r.carbon else g.max_carbon;
        max_queue = if lt g.max_queue r.queue then r.queue else g.max_queue;
      }
      else g

  unfoldable pub ranges_of : Ranges F → List (Row F) → Ranges F
  ranges_of g [] = g
  ranges_of g (r ∷ rs) = ranges_of (widen_ranges g r) rs

  abbrev pub no_ranges : Ranges F
  no_ranges = record { min_carbon = d.inf; max_carbon = d.neg_inf; max_queue = nought }

  unfoldable pub clamp_lambda : F → F
  clamp_lambda lambda = if lt lambda nought then nought else if lt one lambda then one else lambda

  abbrev norm : F → F → F → F
  norm v lo hi = if le (hi ⊖ lo) (d.dec 1 9) then d.dec 5 1 else (v ⊖ lo) ⊘ (hi ⊖ lo)

  unfoldable pub row_score : F → Ranges F → ℕ → Row F → Option (String × F)
  row_score lambda g i r =
      let carbon = norm r.carbon g.min_carbon g.max_carbon in
      let queue = if lt (d.dec 1 9) g.max_queue then r.queue ⊘ g.max_queue else nought in
      if r.good then some (r.id, lambda ⊗ carbon ⊕ (one ⊖ lambda) ⊗ queue) else none

  unfoldable pub carbon_scores : CarbonModel F → F → Job F → List (SimulatedNode F) → Scores F
  unfolding put_all row_score clamp_lambda ranges_of
  carbon_scores model lambda job nodes =
      let at = if is_zero job.submit_at then unix_epoch else job.submit_at in
      let rows = map (row_of model (plain_workload job) at) nodes in
      or_sentinel (put_all (row_score (clamp_lambda lambda) (ranges_of no_ranges rows)) 0 rows [])

  unfoldable pub carbon_policy : CarbonModel F → F → Policy F
  carbon_policy model lambda = record {
    name = "carbonscaler";
    score = λ job nodes. ok (carbon_scores model lambda job nodes);
    trace = none;
  }
