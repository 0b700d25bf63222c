-- ===== src/Policies/Ecokube/Score.antt =====
-- ecokube.go: the two scoring rules over the metrics of the candidates.
use eco_kube.Prelude.{
  ℕ, Bool, true, false, ◌&&◌, not, Option, none, some, List, [], ◌∷◌, String, keep_if, length,
  if◌then◌else◌,
}
use eco_kube.Prelude.Int.{pos}
use eco_kube.Prelude.Text.{entry, put}
use eco_kube.Prelude.Float.{Float64, lt, le, eq, nought, one, ◌⊕◌, ◌⊖◌, ◌⊗◌}
use eco_kube.Core.Types.{Time}
use eco_kube.Core.ArgMin.{Scores}
use eco_kube.Policies.{put_all, or_sentinel, sentinel}
use eco_kube.Policies.Ecokube.Fit.{clamp}
use eco_kube.Policies.Ecokube.Metrics.{Metric, feasible}

pub record Config (F : Type 0) : Type 0 where
  pub alpha : F
  pub beta : F
  pub gamma : F
  pub delta : F
  pub fit_weight : F
  pub max_runtime : F
  pub max_data_movement : F
  pub now : Option Time

module _ {F : Type 0} ⦃d : Float64 F⦄ where
  unfoldable pub default_config : Config F
  default_config = record {
    alpha = d.dec 25 2;
    beta = d.dec 40 2;
    gamma = d.dec 35 2;
    delta = nought;
    fit_weight = d.dec 2 1;
    max_runtime = nought;
    max_data_movement = nought;
    now = none;
  }

  abbrev energy_coeff : Config F → F
  energy_coeff cfg =
      let c = one ⊖ (cfg.alpha ⊕ cfg.beta ⊕ cfg.gamma) in if lt c nought then nought else c

  abbrev fit_penalty : Config F → F → F
  fit_penalty cfg fit_hat =
      let p = one ⊖ fit_hat in
      if lt nought cfg.fit_weight then (if lt p nought then nought else p) else nought

  unfoldable pub weighted_score : Config F → ℕ → Metric F → Option (String × F)
  weighted_score cfg i it =
      if it.feasible
      then some (
        it.id,
        cfg.alpha ⊗ it.hat.co2
            ⊕ energy_coeff cfg ⊗ it.hat.energy
            ⊕ cfg.beta ⊗ it.hat.runtime
            ⊕ cfg.gamma ⊗ it.hat.queue
            ⊕ cfg.delta ⊗ it.hat.move
            ⊕ cfg.fit_weight ⊗ fit_penalty cfg (clamp it.hat.fit nought one),
      )
      else none

  unfoldable pub score_weighted : Config F → List (Metric F) → Scores F
  unfolding put_all weighted_score
  score_weighted cfg items = or_sentinel (put_all (weighted_score cfg) 0 items [])

  -- A bound that is not positive is off.
  unfoldable pub in_bounds : Config F → Metric F → Bool
  in_bounds cfg it =
      it.feasible
      && (not (lt nought cfg.max_runtime && lt cfg.max_runtime it.raw.runtime)
          && not (lt nought cfg.max_data_movement && lt cfg.max_data_movement it.raw.move))

  -- The feasible items within the bounds, or all feasible ones where none is.
  unfoldable pub bounded : Config F → List (Metric F) → List (Metric F)
  unfolding keep_if in_bounds
  bounded cfg items = elim (keep_if (in_bounds cfg) items) [ [] ↦ feasible items | c ∷ cs ↦ c ∷ cs ]

  unfoldable pub least_of : (Metric F → F) → F → List (Metric F) → F
  least_of f best [] = best
  least_of f best (c ∷ cs) = least_of f (if lt (f c) best then f c else best) cs

  -- `carbonGuardFraction` and `energyGuardFraction` are both 0.15.
  abbrev within_guard : F → F → Bool
  within_guard least v = if eq least d.inf then true else le v (least ⊗ (one ⊕ d.dec 15 2))

  unfoldable pub guarded : List (Metric F) → List (Metric F)
  unfolding least_of keep_if
  guarded cs =
      let carbon = least_of (λ c. c.raw.co2) d.inf cs in
      let energy = least_of (λ c. c.raw.energy) d.inf cs in
      elim (keep_if (λ c. within_guard carbon c.raw.co2 && within_guard energy c.raw.energy) cs) [
        | [] ↦ cs
        | g ∷ gs ↦ g ∷ gs
      ]

  -- The order of the ranks: carbon, then runtime, then queueing.
  unfoldable pub ranks_below : Metric F → Metric F → Bool
  ranks_below a b =
      if not (eq a.raw.co2 b.raw.co2)
      then lt a.raw.co2 b.raw.co2
      else if not (eq a.raw.runtime b.raw.runtime)
      then lt a.raw.runtime b.raw.runtime
      else lt a.raw.queue b.raw.queue

  unfoldable pub insert_ranked : Metric F → List (Metric F) → List (Metric F)
  insert_ranked c [] = c ∷ []
  insert_ranked c (b ∷ bs) =
      let rest = insert_ranked c bs in if ranks_below c b then c ∷ b ∷ bs else b ∷ rest

  -- `sort.SliceStable`, as a stable insertion sort: where no value is NaN, the stable order is
  -- the only one.
  unfoldable pub sort_ranked : List (Metric F) → List (Metric F) → List (Metric F)
  unfolding insert_ranked ranks_below
  sort_ranked sorted [] = sorted
  sort_ranked sorted (c ∷ cs) = sort_ranked (insert_ranked c sorted) cs

  unfoldable pub rank_score : ℕ → Metric F → Option (String × F)
  rank_score rank it = some (it.id, d.of_int (pos rank))

  -- A feasible item that has no rank is put behind all ranks.
  unfoldable pub add_penalties : F → List (Metric F) → Scores F → Scores F
  unfolding entry put
  add_penalties penalty [] m = m
  add_penalties penalty (it ∷ items) m = elim (it.feasible) [
    | false ↦ add_penalties penalty items m
    | true ↦ elim (entry m it.id) [
      | some _ ↦ add_penalties penalty items m
      | none ↦ add_penalties penalty items (put m it.id (penalty ⊕ one))
    ]
  ]

  unfoldable pub score_ranked : List (Metric F) → List (Metric F) → Scores F
  unfolding put_all rank_score add_penalties sort_ranked
  score_ranked items [] = sentinel
  score_ranked items (c ∷ cs) = or_sentinel (
      add_penalties (d.of_int (pos (length (c ∷ cs)))) items
        (put_all rank_score 0 (sort_ranked [] (c ∷ cs)) []))

  unfoldable pub score_epsilon : Config F → List (Metric F) → Scores F
  unfolding score_ranked guarded bounded
  score_epsilon cfg items = score_ranked items (guarded (bounded cfg items))
