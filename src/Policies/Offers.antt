-- ===== src/Policies/Offers.antt =====
-- The score maps of the policies: which nodes they hold.
use eco_kube.Prelude.{
  ◌≡◌, refl, ap, subst, Bool, true, false, Option, List, [], ◌∷◌, String, map, inl, inr, All,
  Bool-cases, Result, ok, err, arith,
}
use eco_kube.Prelude.Text.{eq_refl}
use eco_kube.Prelude.Float.{Float64, IsOrdered}
use eco_kube.Core.Types.{Time, Workload, Job, SimulatedNode}
use eco_kube.Core.Node.{can_accept, can_accept_job}
use eco_kube.Core.ArgMin.{Scores, arg_min, arg_min_loop, improve, improves}
use eco_kube.Core.Policy.{Policy, select_site_and_node}
use eco_kube.Policies.{CarbonModel, sentinel, plain_workload, pick_node_id}
use eco_kube.Policies.Scored.{
  IsOffer, Follows, put_all-IsOffer, put_all-map, named, refused-sentinel,
}
use eco_kube.Policies.Candidate.{candidate, gather}
use eco_kube.Policies.K8sched.{k8s_scores, score_node}
use eco_kube.Policies.Carbonscaler.{carbon_scores, row_of, row_score, Ranges}
use eco_kube.Policies.Keids.{Weights, keids_score, keids_scores, keids_policy}

pub ok-injective {ℓ} : {A : Type ℓ} (x y : A) → ok x ≡ ok y → x ≡ y
ok-injective x y e = ap (λ (r : Result _). elim r [ ok v ↦ v | err _ ↦ x ]) e

module _ {F : Type 0} ⦃d : Float64 F⦄ where
  -- The k8s policy scores exactly the nodes that accept the job, under their names; where no node
  -- does, its scores are the sentinel.
  pub k8s_scores-IsOffer :
      (job : Job F) (nodes : List (SimulatedNode F))
      → IsOffer (λ n. n.name) (λ n. can_accept n (plain_workload job)) nodes (k8s_scores job nodes)
  unfolding k8s_scores score_node
  k8s_scores-IsOffer job nodes =
      put_all-IsOffer _ _ _
        (λ i n. elim (Bool-cases (can_accept n (plain_workload job))) [
          | inl a ↦ inl (a, named _ _ (rw a refl))
          | inr r ↦ inr (r, rw r refl)
        ])
        nodes

  row_score-Follows :
      (lambda : F) (g : Ranges F) (model : CarbonModel F) (w : Workload F) (at : Time)
      → Follows
          (λ n. n.name)
          (λ n. can_accept n w)
          (λ i n. row_score lambda g i (row_of model w at n))
  unfolding row_score row_of
  row_score-Follows lambda g model w at i n = elim (Bool-cases (can_accept n w)) [
    | inl a ↦ inl (a, named _ _ (rw a refl))
    | inr r ↦ inr (r, rw r refl)
  ]

  keids_score-Follows :
      (w : Weights F) (cs rs qs : List F) (model : CarbonModel F) (job : Job F) (now : Time)
      → Follows pick_node_id
          (λ n. can_accept_job n job)
          (λ i n. keids_score w cs rs qs i (candidate model job now n))
  unfolding keids_score candidate
  keids_score-Follows w cs rs qs model job now i n = elim (Bool-cases (can_accept_job n job)) [
    | inl a ↦ inl (a, named _ _ (rw a refl))
    | inr r ↦ inr (r, rw r refl)
  ]

  -- The carbonscaler policy scores exactly the nodes that accept the job, under their names; where
  -- no node does, its scores are the sentinel.
  pub carbon_scores-IsOffer :
      (model : CarbonModel F) (lambda : F) (job : Job F) (nodes : List (SimulatedNode F))
      → IsOffer
          (λ n. n.name)
          (λ n. can_accept n (plain_workload job))
          nodes
          (carbon_scores model lambda job nodes)
  unfolding carbon_scores
  carbon_scores-IsOffer model lambda job nodes =
      rw put_all-map
        (put_all-IsOffer _ _ _ (row_score-Follows _ _ model (plain_workload job) _) nodes)

  keids_scores-IsOffer :
      (weights : Weights F) (model : CarbonModel F) (job : Job F) (now : Time)
      (nodes : List (SimulatedNode F))
      → IsOffer pick_node_id
          (λ n. can_accept_job n job)
          nodes
          (keids_scores weights (map (candidate model job now) nodes))
  unfolding keids_scores
  keids_scores-IsOffer weights model job now nodes =
      rw put_all-map (put_all-IsOffer _ _ _ (keids_score-Follows _ _ _ _ model job now) nodes)

  -- The scores that the keids policy returns are those of exactly the nodes that accept the job,
  -- under their identifiers, or the sentinel where no node does.
  pub keids_policy-IsOffer :
      (model : CarbonModel F) (weights : Weights F) (now : Option Time) (job : Job F)
      (nodes : List (SimulatedNode F)) (m : Scores F)
      → (keids_policy model weights now).score job nodes ≡ ok m
      → IsOffer pick_node_id (λ n. can_accept_job n job) nodes m
  unfolding keids_policy gather
  keids_policy-IsOffer model weights now job [] m e = absurd (cc e)
  keids_policy-IsOffer model weights now job (n ∷ ns) m e =
      subst (IsOffer _ _ (n ∷ ns)) (ok-injective _ m e)
        (keids_scores-IsOffer weights model job _ (n ∷ ns))

  pub arg_min-sentinel : IsOrdered F → arg_min {F = F} sentinel ≡ ("", true)
  unfolding arg_min arg_min_loop improve improves
  arg_min-sentinel laws = ground (arith, eq_refl "", laws.inf_max d.inf)

  -- Where no node accepts the job, a policy that keeps to the offers makes SelectSiteAndNode return
  -- the node "" without an error.
  pub select_refused :
      IsOrdered F
      → (pol : Policy F) (job : Job F) (nodes : List (SimulatedNode F)) (m : Scores F)
        (id : SimulatedNode F → String) (accepts : SimulatedNode F → Bool)
      → pol.score job nodes ≡ ok m
      → IsOffer id accepts nodes m
      → All (λ n. accepts n ≡ false) nodes
      → select_site_and_node pol job nodes ≡ ok ("", sentinel)
  unfolding select_site_and_node
  select_refused laws pol job nodes m id accepts e o h =
      rw (e, select_site_and_node) (rw (refused-sentinel nodes m o h, arg_min-sentinel laws) refl)
