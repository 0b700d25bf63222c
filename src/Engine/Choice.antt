-- ===== src/Engine/Choice.antt =====
-- engine.go: the node that Schedule decides for.
use eco_kube.Prelude.{
  ◌≡◌, refl, subst, Option, none, some, List, [], ◌∷◌, String, inl, inr, All, Any, All-map_of,
  Bool-cases, Option-cases,
}
use mathlib.Core.Option.{some-injective}
use eco_kube.Prelude.Text.{StringMap}
use eco_kube.Prelude.Sift.{sift-All}
use eco_kube.Prelude.Float.{Float64}
use eco_kube.Core.ArgMin.{Scores}
use eco_kube.Policies.Scored.{All-put}
use eco_kube.Engine.Types.{Job, NodeSnapshot, Deps, Trace}
use eco_kube.Engine.{
  reject_reason, build_candidate_set, score_loop, score_nodes, kv_less, insert_kv, sort_kv,
  arg_min_stable, decide, schedule,
}

module _ {F : Type 0} ⦃d : Float64 F⦄ where
  -- A candidate of the job among the nodes.
  abbrev pub IsCandidate : Job F → Deps F → List (NodeSnapshot F) → String → Type 0
  IsCandidate j deps nodes k =
      Any (λ n. (n.id ≡ k) × (reject_reason j deps.theta.alpha deps.theta.egress_cap_mb n ≡ none))
        nodes

  candidates_themselves :
      (j : Job F) (alpha cap : F) (ns : List (NodeSnapshot F))
      → All
          (λ n.
            reject_reason j alpha cap n ≡ none
            → Any (λ m. (m.id ≡ n.id) × (reject_reason j alpha cap m ≡ none)) ns)
          ns
  candidates_themselves j alpha cap [] = tt
  candidates_themselves j alpha cap (n ∷ ns) = (
    λ e. inl (refl, e),
    All-map_of _ _ (λ x h e. inr (h e)) ns (candidates_themselves j alpha cap ns),
  )

  score_loop-All :
      (P : String → Type 0) (scan : String → Option F) (deps : Deps F) (j : Job F)
      (ns : List (NodeSnapshot F)) (m : Scores F) (traces : StringMap (Trace F))
      → All (λ n. P n.id) ns
      → All (λ e. P (e.0)) m
      → All (λ e. P (e.0)) (score_loop scan deps j ns m traces).0
  unfolding score_loop
  score_loop-All P scan deps j [] m traces hs h = h
  score_loop-All P scan deps j (n ∷ ns) m traces (p, hs) h =
      score_loop-All P scan deps j ns _ _ hs (All-put P m n.id _ h p)

  insert_kv-All :
      (P : String × F → Type 0) (e : String × F) (es : Scores F)
      → P e
      → All P es
      → All P (insert_kv e es)
  unfolding insert_kv
  insert_kv-All P e [] p h = (p, tt)
  insert_kv-All P e (x ∷ xs) p (q, h) = elim (Bool-cases (kv_less e x)) [
    | inl t ↦ rw (t, insert_kv) (p, (q, h))
    | inr f ↦ rw (f, insert_kv) (q, insert_kv-All P e xs p h)
  ]

  sort_kv-All : (P : String × F → Type 0) (es : Scores F) → All P es → All P (sort_kv es)
  unfolding sort_kv
  sort_kv-All P [] h = tt
  sort_kv-All P (e ∷ es) (p, h) = insert_kv-All P e (sort_kv es) p (sort_kv-All P es h)

  first_of :
      (P : String → Type 0) (es : Scores F) (k : String)
      → All (λ e. P (e.0)) es
      → elim es [ [] ↦ none | e ∷ _ ↦ some (e.0) ] ≡ some k
      → P k
  first_of P [] k h e = absurd (cc e)
  first_of P (x ∷ xs) k (p, _) e = subst P (some-injective _ _ e) p

  decide-All :
      (P : String → Type 0) (deps : Deps F) (j : Job F) (m : Scores F)
      (traces : StringMap (Trace F))
      → All (λ e. P (e.0)) m
      → (decide deps j m traces).error ≡ none
      → P (decide deps j m traces).decision.node_id
  unfolding decide arg_min_stable
  decide-All P deps j [] traces h e = absurd (cc e)
  decide-All P deps j (x ∷ xs) traces h e = elim (Option-cases (arg_min_stable (x ∷ xs))) [
    | inl n ↦ absurd (cc (rw (n, decide) at e))
    | inr (k, s) ↦ rw (s, decide) (first_of P (sort_kv (x ∷ xs)) k (sort_kv-All _ (x ∷ xs) h) s)
  ]

  -- Where Schedule returns no error, it decides for a node of the cluster that has the capacity for
  -- the job and passes the bounds on the deadline and the egress.
  pub schedule-IsCandidate :
      (scan : String → Option F) (deps : Deps F) (j : Job F) (nodes : List (NodeSnapshot F))
      → (schedule scan deps j nodes).error ≡ none
      → IsCandidate j deps nodes (schedule scan deps j nodes).decision.node_id
  unfolding schedule score_nodes build_candidate_set
  schedule-IsCandidate scan deps j nodes e =
      decide-All (IsCandidate j deps nodes) deps j _ _
        (score_loop-All (IsCandidate j deps nodes) scan deps j _ [] []
          (sift-All _ _ _ nodes [] (candidates_themselves j _ _ nodes)) tt)
        e
