-- ===== src/Core/Candidates/Filter.antt =====
-- scheduler.go: the candidates as a filter of the nodes.
use eco_kube.Prelude.{
  ◌≡◌, ◌≢◌, refl, ◌∙◌, Bool, false, not, ◌&&◌, none, List, [], ◌∷◌, All, All-map_of, keep_if, arith,
}
use eco_kube.Prelude.Text.{entry}
use eco_kube.Prelude.Sift.{is_kept, sift-keep_if, sift_recorded}
use eco_kube.Prelude.Float.{Float64, lt}
use eco_kube.Core.Types.{Job, SimulatedNode}
use eco_kube.Core.Node.{can_accept_job}
use eco_kube.Core.Candidates.{Hooks, reject_reason, build_candidate_set}

keep_if_congr {ℓ} :
    {A : Type ℓ} (p q : A → Bool)
    → ((x : A) → p x ≡ q x)
    → (xs : List A) → keep_if p xs ≡ keep_if q xs
unfolding keep_if
keep_if_congr p q h [] = refl
keep_if_congr p q h (x ∷ xs) = ground (arith, h x, keep_if_congr p q h xs)

module _ {F : Type 0} ⦃d : Float64 F⦄ where
  -- The three conditions on a candidate.
  abbrev pub is_feasible : Hooks F → Job F → F → F → SimulatedNode F → Bool
  is_feasible hooks j alpha egress_cap n =
      can_accept_job n j
      && (not (lt (hooks.prob_slo j) alpha) && not (lt egress_cap (hooks.estimate_egress j n)))

  is_kept-reject_reason :
      (hooks : Hooks F) (j : Job F) (alpha cap : F) (n : SimulatedNode F)
      → is_kept (reject_reason hooks j alpha cap n) ≡ is_feasible hooks j alpha cap n
  unfolding reject_reason
  is_kept-reject_reason hooks j alpha cap n = ground arith

  reason_of_infeasible :
      (hooks : Hooks F) (j : Job F) (alpha cap : F) (n : SimulatedNode F)
      → is_feasible hooks j alpha cap n ≡ false
      → reject_reason hooks j alpha cap n ≢ none
  unfolding reject_reason
  reason_of_infeasible hooks j alpha cap n h = ground arith

  -- The candidates are the nodes, in order, that can accept the job and pass the bounds on the
  -- deadline and the egress, and every other node is listed among the rejected.
  pub build_candidate_set-keep_if :
      (hooks : Hooks F) (j : Job F) (nodes : List (SimulatedNode F)) (alpha cap : F)
      → ((build_candidate_set hooks j nodes alpha cap).0
          ≡ keep_if (is_feasible hooks j alpha cap) nodes)
        × All
            (λ n.
              is_feasible hooks j alpha cap n ≡ false
              → entry (build_candidate_set hooks j nodes alpha cap).1 n.id ≢ none)
            nodes
  unfolding build_candidate_set
  build_candidate_set-keep_if hooks j nodes alpha cap =
      let why = reject_reason hooks j alpha cap in
      (
        sift-keep_if (λ n. n.id) why nodes [] []
            ∙ keep_if_congr _ _ (is_kept-reject_reason hooks j alpha cap) nodes,
        All-map_of _ _ (λ n h i. h (reason_of_infeasible hooks j alpha cap n i)) nodes
            (sift_recorded (λ n. n.id) why nodes [] []),
      )
