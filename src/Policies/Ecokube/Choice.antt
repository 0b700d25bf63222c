-- ===== src/Policies/Ecokube/Choice.antt =====
-- ecokube.go: the whole Score in all its modes.
use eco_kube.Prelude.{
  ℕ, suc, ◌≡◌, refl, sym, ap, ◌∙◌, subst, Bool, true, false, none, List, [], ◌∷◌, String, map, ◌⊎◌,
  ◌≢◌, inl, inr, All, Any, All-map_of, arith, Bool-cases, ok,
}
use eco_kube.Prelude.Text.{entry}
use eco_kube.Prelude.Float.{Float64}
use eco_kube.Core.Types.{Time, Job, SimulatedNode}
use eco_kube.Core.Node.{can_accept_job}
use eco_kube.Core.ArgMin.{Scores}
use eco_kube.Policies.{CarbonModel, pick_node_id}
use eco_kube.Policies.Scored.{IsOffer}
use eco_kube.Policies.Offers.{ok-injective}
use eco_kube.Policies.Ecokube.{score_mode, eco_score, eco_policy}
use eco_kube.Policies.Ecokube.Metrics.{
  Metric, Signals, item_of, attach_hats, compute_candidate_metrics,
}
use eco_kube.Policies.Ecokube.Score.{Config, score_weighted, score_epsilon}
use eco_kube.Policies.Ecokube.Offers.{score_weighted-IsOffer, score_epsilon-IsOffer}

module _ {F : Type 0} ⦃d : Float64 F⦄ where
  module _ (model : CarbonModel F) (job : Job F) (now : Time) (hats : ℕ → Signals F) where
    items_of : ℕ → List (SimulatedNode F) → List (Metric F)
    unfolding attach_hats
    items_of i nodes = attach_hats hats i (map (item_of model job now) nodes)

    -- The item of the first node, before those of the rest.
    record First (i : ℕ) (n : SimulatedNode F) (ns : List (SimulatedNode F)) : Type 0 where
      item : Metric F
      count : ℕ
      same_id : item.id ≡ pick_node_id n
      same_test : item.feasible ≡ can_accept_job n job
      split : items_of i (n ∷ ns) ≡ item ∷ items_of count ns

    attach_first :
        (i : ℕ) (c : Metric F) (cs : List (Metric F))
        → (item : Metric F) × (count : ℕ) × (item.id ≡ c.id)
          × (item.feasible ≡ c.feasible)
          × (attach_hats hats i (c ∷ cs) ≡ item ∷ attach_hats hats count cs)
    unfolding attach_hats
    attach_first i c cs = elim (Bool-cases c.feasible) [
      | inl a ↦ (
        record c { hat = hats i },
        suc i,
        refl,
        refl,
        rw (a, attach_hats)
            (ap (λ b. record c { feasible = b; hat = hats i } ∷ attach_hats hats (suc i) cs) a),
      )
      | inr r ↦ (
        record c { feasible = false },
        i,
        refl,
        sym r,
        rw (r, attach_hats) (ap (λ b. record c { feasible = b } ∷ attach_hats hats i cs) r),
      )
    ]

    item_id : (n : SimulatedNode F) → (item_of model job now n).id ≡ pick_node_id n
    unfolding item_of
    item_id n = elim (Bool-cases (can_accept_job n job)) [ inl a ↦ rw a refl | inr r ↦ rw r refl ]

    item_test : (n : SimulatedNode F) → (item_of model job now n).feasible ≡ can_accept_job n job
    unfolding item_of
    item_test n = elim (Bool-cases (can_accept_job n job)) [ inl a ↦ rw a refl | inr r ↦ rw r refl ]

    items_of-First : (i : ℕ) (n : SimulatedNode F) (ns : List (SimulatedNode F)) → First i n ns
    unfolding items_of
    items_of-First i n ns =
        let (item, count, same_id, same_test, split) =
          attach_first i (item_of model job now n) (map (item_of model job now) ns) in
        record {
          item = item;
          count = count;
          same_id = same_id ∙ item_id n;
          same_test = same_test ∙ item_test n;
          split = split;
        }

    items_of-All :
        (Q : String → Bool → Type 0) (i : ℕ) (nodes : List (SimulatedNode F))
        → All (λ c. Q c.id c.feasible) (items_of i nodes)
        → All (λ n. Q (pick_node_id n) (can_accept_job n job)) nodes
    items_of-All Q i [] h = tt
    items_of-All Q i (n ∷ ns) h =
        let f = items_of-First i n ns in
        let (q, rest) : All (λ c. Q c.id c.feasible) (f.item ∷ items_of f.count ns) =
          subst (All _) f.split h in
        (
          subst (λ b. Q (pick_node_id n) b) f.same_test
              (subst (λ k. Q k f.item.feasible) f.same_id q),
          items_of-All Q f.count ns rest,
        )

    items_of-Any :
        (k : String) (i : ℕ) (nodes : List (SimulatedNode F))
        → Any (λ c. (c.id ≡ k) × (c.feasible ≡ true)) (items_of i nodes)
        → Any (λ n. (pick_node_id n ≡ k) × (can_accept_job n job ≡ true)) nodes
    unfolding items_of attach_hats
    items_of-Any k i [] h = elim h [ ]
    items_of-Any k i (n ∷ ns) h =
        let f = items_of-First i n ns in
        elim (subst (Any (λ c. (c.id ≡ k) × (c.feasible ≡ true))) f.split h) [
          | inl (s, t) ↦ inl (sym f.same_id ∙ s, sym f.same_test ∙ t)
          | inr rest ↦ inr (items_of-Any k f.count ns rest)
        ]

    of_items :
        (nodes : List (SimulatedNode F)) (m : Scores F)
        → IsOffer (λ c. c.id) (λ c. c.feasible) (items_of 0 nodes) m
        → IsOffer pick_node_id (λ n. can_accept_job n job) nodes m
    of_items nodes m o = record {
      sound = elim o.sound [
        | inl s ↦ inl (All-map_of _ _ (λ e h. items_of-Any e.0 0 nodes h) m s)
        | inr (e, r) ↦ inr (e, items_of-All (λ _ b. b ≡ false) 0 nodes r)
      ];
      filled = o.filled;
      complete = items_of-All (λ k b. b ≡ true → entry m k ≢ none) 0 nodes o.complete;
    }

  modes :
      (mode : String) (cfg : Config F) (quoted : String) (items : List (Metric F)) (m : Scores F)
      → score_mode mode cfg quoted items ≡ ok m
      → (ok (score_weighted cfg items) ≡ ok m) ⊎ (ok (score_epsilon cfg items) ≡ ok m)
  unfolding score_mode
  modes mode cfg quoted items m e = ground arith

  mode-IsOffer :
      (mode : String) (cfg : Config F) (quoted : String) (items : List (Metric F)) (m : Scores F)
      → score_mode mode cfg quoted items ≡ ok m
      → IsOffer (λ c. c.id) (λ c. c.feasible) items m
  mode-IsOffer mode cfg quoted items m e = elim (modes mode cfg quoted items m e) [
    | inl q ↦ subst (IsOffer _ _ items) (ok-injective _ m q) (score_weighted-IsOffer cfg items)
    | inr q ↦ subst (IsOffer _ _ items) (ok-injective _ m q) (score_epsilon-IsOffer cfg items)
  ]

  -- In every mode the scores that the ecokube policy returns are those of exactly the nodes that
  -- accept the job, under their identifiers, or the sentinel where no node does.
  pub eco_policy-IsOffer :
      (quote : String → String) (model : CarbonModel F) (mode : String) (cfg : Config F)
      (override : String) (job : Job F) (nodes : List (SimulatedNode F)) (m : Scores F)
      → (eco_policy quote model mode cfg override).score job nodes ≡ ok m
      → IsOffer pick_node_id (λ n. can_accept_job n job) nodes m
  unfolding eco_policy eco_score compute_candidate_metrics items_of
  eco_policy-IsOffer quote model mode cfg override job [] m e = absurd (cc e)
  eco_policy-IsOffer quote model mode cfg override job (n ∷ ns) m e =
      of_items model job _ _ (n ∷ ns) m (mode-IsOffer mode cfg (quote mode) _ m e)
