-- ===== src/Policies/Ecokube/Offers.antt =====
-- ecokube.go: which nodes the two scoring rules hold.
use eco_kube.Prelude.{
  ℕ, ◌≡◌, refl, sym, ap, subst, Bool, true, false, none, some, List, [], ◌∷◌, String, ◌≢◌, inl, inr,
  All, Any, All-map_of, All-keep_if, Bool-cases, Option-cases, keep_if, arith,
}
use mathlib.Core.Option.{some-injective}
use eco_kube.Prelude.Text.{put, entry, entry-put_same}
use eco_kube.Prelude.Float.{Float64, ◌⊕◌, one}
use eco_kube.Core.ArgMin.{Scores}
use eco_kube.Policies.Scored.{
  IsOffer, Follows, put_all-IsOffer, put_all_sound, named, All-put, entry-put_some,
  or_sentinel-IsOffer,
}
use eco_kube.Policies.Ecokube.Metrics.{Metric, feasible}
use eco_kube.Policies.Ecokube.Score.{
  Config, weighted_score, score_weighted, in_bounds, bounded, guarded, ranks_below, insert_ranked,
  sort_ranked, rank_score, add_penalties, score_ranked, score_epsilon,
}

module _ {F : Type 0} ⦃d : Float64 F⦄ where
  weighted_score-Follows :
      (cfg : Config F) → Follows (λ c. c.id) (λ c. c.feasible) (weighted_score cfg)
  unfolding weighted_score
  weighted_score-Follows cfg i c = elim (Bool-cases c.feasible) [
    | inl a ↦ inl (a, named _ _ (rw a refl))
    | inr r ↦ inr (r, rw r refl)
  ]

  -- The weighted sum scores exactly the feasible items; without one it gives the sentinel.
  pub score_weighted-IsOffer :
      (cfg : Config F) (items : List (Metric F))
      → IsOffer (λ c. c.id) (λ c. c.feasible) items (score_weighted cfg items)
  unfolding score_weighted
  score_weighted-IsOffer cfg items = put_all-IsOffer _ _ _ (weighted_score-Follows cfg) items

  IsOffered : List (Metric F) → String → Type 0
  IsOffered items k = Any (λ c. (c.id ≡ k) × (c.feasible ≡ true)) items

  insert_ranked-All :
      (P : Metric F → Type 0) (c : Metric F) (cs : List (Metric F))
      → P c
      → All P cs
      → All P (insert_ranked c cs)
  unfolding insert_ranked
  insert_ranked-All P c [] p h = (p, tt)
  insert_ranked-All P c (b ∷ bs) p (q, h) = elim (Bool-cases (ranks_below c b)) [
    | inl e ↦ rw (e, insert_ranked) (p, (q, h))
    | inr e ↦ rw (e, insert_ranked) (q, insert_ranked-All P c bs p h)
  ]

  sort_ranked-All :
      (P : Metric F → Type 0) (sorted cs : List (Metric F))
      → All P sorted
      → All P cs
      → All P (sort_ranked sorted cs)
  unfolding sort_ranked
  sort_ranked-All P sorted [] s h = s
  sort_ranked-All P sorted (c ∷ cs) s (p, h) =
      sort_ranked-All P (insert_ranked c sorted) cs (insert_ranked-All P c sorted p s) h

  non_empty_or :
      (P : Metric F → Type 0) (xs ys : List (Metric F))
      → All P xs
      → All P ys
      → All P (elim xs [ [] ↦ ys | c ∷ cs ↦ c ∷ cs ])
  non_empty_or P [] ys p q = q
  non_empty_or P (c ∷ cs) ys p q = p

  guarded-All : (P : Metric F → Type 0) (cs : List (Metric F)) → All P cs → All P (guarded cs)
  unfolding guarded
  guarded-All P cs h = non_empty_or P _ cs (All-keep_if P _ cs h) h

  keep_if-All :
      (P : Metric F → Type 0) (p : Metric F → Bool) (cs : List (Metric F))
      → All (λ c. p c ≡ true → P c) cs
      → All P (keep_if p cs)
  unfolding keep_if
  keep_if-All P p [] h = tt
  keep_if-All P p (c ∷ cs) (q, h) = elim (Bool-cases (p c)) [
    | inl e ↦ rw (e, keep_if) (q e, keep_if-All P p cs h)
    | inr e ↦ rw (e, keep_if) (keep_if-All P p cs h)
  ]

  offers_itself : (cs : List (Metric F)) → All (λ c. c.feasible ≡ true → IsOffered cs c.id) cs
  unfolding IsOffered
  offers_itself [] = tt
  offers_itself (c ∷ cs) =
      (λ a. inl (refl, a), All-map_of _ _ (λ x h a. inr (h a)) cs (offers_itself cs))

  in_bounds_feasible : (cfg : Config F) (c : Metric F) → in_bounds cfg c ≡ true → c.feasible ≡ true
  unfolding in_bounds
  in_bounds_feasible cfg c h = ground arith

  bounded-All :
      (cfg : Config F) (items : List (Metric F))
      → All (λ c. IsOffered items c.id) (bounded cfg items)
  unfolding bounded
  bounded-All cfg items =
      non_empty_or _ (keep_if (in_bounds cfg) items) (feasible items)
        (keep_if-All _ _ items
          (All-map_of _ _ (λ c h a. h (in_bounds_feasible cfg c a)) items (offers_itself items)))
        (keep_if-All _ _ items (offers_itself items))

  add_penalties_sound :
      (P : String → Type 0) (penalty : F) (items : List (Metric F)) (m : Scores F)
      → All (λ c. c.feasible ≡ true → P c.id) items
      → All (λ e. P (e.0)) m
      → All (λ e. P (e.0)) (add_penalties penalty items m)
  unfolding add_penalties
  add_penalties_sound P penalty [] m hs h = h
  add_penalties_sound P penalty (c ∷ cs) m (p, hs) h = elim (Bool-cases c.feasible) [
    | inr e ↦ rw (e, add_penalties) (add_penalties_sound P penalty cs m hs h)
    | inl e ↦ elim (Option-cases (entry m c.id)) [
      | inr (v, s) ↦ rw (e, s, add_penalties) (add_penalties_sound P penalty cs m hs h)
      | inl n ↦
          rw (e, n, add_penalties)
            (add_penalties_sound P penalty cs (put m c.id (penalty ⊕ one)) hs
              (All-put P m c.id _ h (p e)))
    ]
  ]

  add_penalties-keeps :
      (penalty : F) (items : List (Metric F)) (m : Scores F) (k : String)
      → entry m k ≢ none
      → entry (add_penalties penalty items m) k ≢ none
  unfolding add_penalties
  add_penalties-keeps penalty [] m k h = h
  add_penalties-keeps penalty (c ∷ cs) m k h = elim (Bool-cases c.feasible) [
    | inr e ↦ rw (e, add_penalties) (add_penalties-keeps penalty cs m k h)
    | inl e ↦ elim (Option-cases (entry m c.id)) [
      | inr (v, s) ↦ rw (e, s, add_penalties) (add_penalties-keeps penalty cs m k h)
      | inl n ↦
          rw (e, n, add_penalties)
            (add_penalties-keeps penalty cs (put m c.id (penalty ⊕ one)) k
              (entry-put_some m c.id k _ h))
    ]
  ]

  -- What an item of the list has afterwards.
  penalised :
      (penalty : F) (c : Metric F) (cs : List (Metric F)) (m : Scores F)
      → c.feasible ≡ true
      → entry (add_penalties penalty (c ∷ cs) m) c.id ≢ none
  unfolding add_penalties
  penalised penalty c cs m a = elim (Option-cases (entry m c.id)) [
    | inr (v, s) ↦ rw (a, s, add_penalties) (add_penalties-keeps penalty cs m c.id (λ n. cc (n, s)))
    | inl n ↦
        rw (a, n, add_penalties)
          (add_penalties-keeps penalty cs (put m c.id (penalty ⊕ one)) c.id
            (λ e. cc (e, entry-put_same m c.id (penalty ⊕ one))))
  ]

  after_first :
      (penalty : F) (c : Metric F) (cs : List (Metric F)) (m : Scores F)
      → (m' : Scores F) × (add_penalties penalty (c ∷ cs) m ≡ add_penalties penalty cs m')
  unfolding add_penalties
  after_first penalty c cs m = elim (Bool-cases c.feasible) [
    | inr e ↦ (m, rw (e, add_penalties) refl)
    | inl e ↦ elim (Option-cases (entry m c.id)) [
      | inr (v, s) ↦ (m, rw (e, s, add_penalties) refl)
      | inl n ↦ (put m c.id (penalty ⊕ one), rw (e, n, add_penalties) refl)
    ]
  ]

  add_penalties_complete :
      (penalty : F) (items : List (Metric F)) (m : Scores F)
      → All (λ c. c.feasible ≡ true → entry (add_penalties penalty items m) c.id ≢ none) items
  add_penalties_complete penalty [] m = tt
  add_penalties_complete penalty (c ∷ cs) m =
      let (m', e) = after_first penalty c cs m in
      (
        penalised penalty c cs m,
        subst (λ r. All (λ x. x.feasible ≡ true → entry r x.id ≢ none) cs) (sym e)
            (add_penalties_complete penalty cs m'),
      )

  ranked_name :
      (P : String → Type 0) (c : Metric F)
      → P c.id
      → (i : ℕ) (k : String) (v : F) → rank_score i c ≡ some (k, v)
      → P k
  unfolding rank_score
  ranked_name P c h i k v e = subst P (ap (λ p. p.0) (some-injective _ _ e)) h

  some_left : (xs ys : List (Metric F)) → elim xs [ [] ↦ ys | c ∷ cs ↦ c ∷ cs ] ≡ [] → ys ≡ []
  some_left [] ys e = e
  some_left (c ∷ cs) ys e = absurd (cc e)

  guarded_none : (cs : List (Metric F)) → guarded cs ≡ [] → cs ≡ []
  unfolding guarded
  guarded_none cs e = some_left (keep_if _ cs) cs e

  bounded_none :
      (cfg : Config F) (items : List (Metric F)) → bounded cfg items ≡ [] → feasible items ≡ []
  unfolding bounded
  bounded_none cfg items e = some_left (keep_if (in_bounds cfg) items) (feasible items) e

  none_feasible :
      (items : List (Metric F)) → feasible items ≡ [] → All (λ c. c.feasible ≡ false) items
  unfolding keep_if
  none_feasible [] e = tt
  none_feasible (c ∷ cs) e = elim (Bool-cases c.feasible) [
    | inl a ↦ absurd (cc (rw (a, keep_if) at e))
    | inr r ↦ (r, none_feasible cs (rw (r, keep_if) at e))
  ]

  score_ranked-IsOffer :
      (items cands : List (Metric F))
      → All (λ c. IsOffered items c.id) cands
      → (cands ≡ [] → All (λ c. c.feasible ≡ false) items)
      → IsOffer (λ c. c.id) (λ c. c.feasible) items (score_ranked items cands)
  unfolding score_ranked IsOffered
  score_ranked-IsOffer items [] h z = record {
    sound = inr (refl, z refl);
    filled = λ e. cc e;
    complete = All-map_of _ _ (λ c r a. absurd (cc (r, a))) items (z refl);
  }
  score_ranked-IsOffer items (c ∷ cs) h z =
      or_sentinel-IsOffer _ _ items _
        (add_penalties_sound (IsOffered items) _ items _ (offers_itself items) (
          put_all_sound (IsOffered items) rank_score (sort_ranked [] (c ∷ cs))
            (All-map_of _ _ (λ x q. ranked_name (IsOffered items) x q) _
              (sort_ranked-All (λ x. IsOffered items x.id) [] (c ∷ cs) tt h))
            0 [] tt))
        (add_penalties_complete _ items _)

  -- The epsilon constraint scores exactly the feasible items, whatever its bounds; without one it
  -- gives the sentinel.
  pub score_epsilon-IsOffer :
      (cfg : Config F) (items : List (Metric F))
      → IsOffer (λ c. c.id) (λ c. c.feasible) items (score_epsilon cfg items)
  unfolding score_epsilon
  score_epsilon-IsOffer cfg items =
      score_ranked-IsOffer items (guarded (bounded cfg items))
        (guarded-All _ _ (bounded-All cfg items))
        (λ e. none_feasible items (bounded_none cfg items (guarded_none _ e)))
