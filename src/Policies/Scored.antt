-- ===== src/Policies/Scored.antt =====
-- What a score map filled node by node holds.
use eco_kube.Prelude.{
  ℕ, suc, ◌≡◌, refl, sym, ap, ◌∙◌, subst, Bool, true, false, map, Option, none, some, List, [], ◌∷◌,
  String, arith, ◌⊎◌, inl, inr, ◌≢◌, All, Any, All-map_of, Option-cases, Bool-cases,
}
use mathlib.Core.Option.{some-injective}
use eco_kube.Prelude.Text.{put, str_eq, eq_iff, entry, entry-put_same, entry-put_other}
use eco_kube.Prelude.Float.{Float64}
use eco_kube.Core.ArgMin.{Scores}
use eco_kube.Policies.{put_all, or_sentinel, sentinel}

refused : (b : Bool) → ¬ (b ≡ true) → b ≡ false
refused true h = absurd (h refl)
refused false h = refl

not_offered {ℓ} :
    {A : Type ℓ} (accepts : A → Bool) (P : A → Type 0) (xs : List A)
    → All (λ x. accepts x ≡ false) xs
    → ¬ (Any (λ x. P x × (accepts x ≡ true)) xs)
not_offered accepts P [] h a = a
not_offered accepts P (x ∷ xs) (r, h) (inl (_, t)) = cc (r, t)
not_offered accepts P (x ∷ xs) (r, h) (inr a) = not_offered accepts P xs h a

module _ {F : Type 0} ⦃d : Float64 F⦄ where
  -- Each node that accepts the job has a score, and each score is that of such a node; where no
  -- node accepts it, the scores are the sentinel.
  pub record IsOffer {ℓ} {A : Type ℓ} (id : A → String) (accepts : A → Bool) (xs : List A)
      (m : Scores F) : Type ℓ where
    pub sound :
        All (λ e. Any (λ x. (id x ≡ e.0) × (accepts x ≡ true)) xs) m
        ⊎ ((m ≡ sentinel) × All (λ x. accepts x ≡ false) xs)
    pub filled : m ≢ []
    pub complete : All (λ x. accepts x ≡ true → entry m (id x) ≢ none) xs

  pub All-put :
      (P : String → Type 0) (m : Scores F) (k : String) (v : F)
      → All (λ e. P (e.0)) m
      → P k
      → All (λ e. P (e.0)) (put m k v)
  unfolding put
  All-put P [] k v h p = (p, tt)
  All-put P (e ∷ m) k v (q, h) p = elim (Bool-cases (str_eq k (e.0))) [
    | inl same ↦ rw (same, put) (p, h)
    | inr other ↦ rw (other, put) (q, All-put P m k v h p)
  ]

  pub entry-put_some :
      (m : Scores F) (k q : String) (v : F) → entry m q ≢ none → entry (put m k v) q ≢ none
  entry-put_some m k q v h e =
      h (ground (arith, eq_iff q k, entry-put_same m k v, entry-put_other m k v q))

  pub put_all_sound {ℓ} :
      {A : Type ℓ} (P : String → Type 0) (f : ℕ → A → Option (String × F)) (xs : List A)
      → All (λ x. (i : ℕ) (k : String) (v : F) → f i x ≡ some (k, v) → P k) xs
      → (i : ℕ) (m : Scores F) → All (λ e. P (e.0)) m
      → All (λ e. P (e.0)) (put_all f i xs m)
  unfolding put_all
  put_all_sound P f [] hs i m h = h
  put_all_sound P f (x ∷ xs) (p, hs) i m h = elim (Option-cases (f i x)) [
    | inl e ↦ rw (e, put_all) (put_all_sound P f xs hs i m h)
    | inr ((k, v), e) ↦
        rw (e, put_all)
          (put_all_sound P f xs hs (suc i) (put m k v) (All-put P m k v h (p i k v e)))
  ]

  -- An entry stays, whatever is put after it.
  put_all-keeps {ℓ} :
      {A : Type ℓ} (f : ℕ → A → Option (String × F)) (xs : List A) (i : ℕ) (m : Scores F)
      (q : String)
      → entry m q ≢ none
      → entry (put_all f i xs m) q ≢ none
  unfolding put_all
  put_all-keeps f [] i m q h = h
  put_all-keeps f (x ∷ xs) i m q h = elim (Option-cases (f i x)) [
    | inl e ↦ rw (e, put_all) (put_all-keeps f xs i m q h)
    | inr ((k, v), e) ↦
        rw (e, put_all) (put_all-keeps f xs (suc i) (put m k v) q (entry-put_some m k q v h))
  ]

  pub or_sentinel-IsOffer {ℓ} :
      {A : Type ℓ} (id : A → String) (accepts : A → Bool) (xs : List A) (m : Scores F)
      → All (λ e. Any (λ x. (id x ≡ e.0) × (accepts x ≡ true)) xs) m
      → All (λ x. accepts x ≡ true → entry m (id x) ≢ none) xs
      → IsOffer id accepts xs (or_sentinel m)
  unfolding entry
  or_sentinel-IsOffer id accepts xs [] s c = record {
    sound = inr (refl, All-map_of _ _ (λ x h. refused (accepts x) (λ a. h a refl)) xs c);
    filled = λ e. cc e;
    complete = All-map_of _ _ (λ x h a. absurd (h a refl)) xs c;
  }
  or_sentinel-IsOffer id accepts xs (e ∷ es) s c = record {
    sound = inl s;
    filled = λ q. cc q;
    complete = c;
  }

  -- `f` scores the items that are accepted, under their names.
  abbrev pub Follows {ℓ} :
      {A : Type ℓ} → (A → String) → (A → Bool) → (ℕ → A → Option (String × F)) → Type ℓ
  Follows {A} id accepts f =
      (i : ℕ) (x : A)
      → ((accepts x ≡ true) × ((v : F) × (f i x ≡ some (id x, v))))
        ⊎ ((accepts x ≡ false) × (f i x ≡ none))

  module _ {ℓ} {A : Type ℓ} (id : A → String) (accepts : A → Bool) (f : ℕ → A → Option (String × F))
      (follows : Follows id accepts f) where
    Offered : List A → String → Type 0
    Offered xs k = Any (λ x. (id x ≡ k) × (accepts x ≡ true)) xs

    offers_itself : (xs : List A) → All (λ x. accepts x ≡ true → Offered xs (id x)) xs
    unfolding Offered
    offers_itself [] = tt
    offers_itself (x ∷ xs) =
        (λ a. inl (refl, a), All-map_of _ _ (λ y h a. inr (h a)) xs (offers_itself xs))

    scored_offer :
        (xs : List A) (x : A)
        → (accepts x ≡ true → Offered xs (id x))
        → (i : ℕ) (k : String) (v : F) → f i x ≡ some (k, v)
        → Offered xs k
    scored_offer xs x h i k v e = elim (follows i x) [
      | inl (a, (v', s)) ↦ subst (Offered xs) (ap (λ p. p.0) (some-injective _ _ (sym s ∙ e))) (h a)
      | inr (a, n) ↦ absurd (cc (n, e))
    ]

    complete_offer :
        (xs : List A) (i : ℕ) (m : Scores F)
        → All (λ x. accepts x ≡ true → entry (put_all f i xs m) (id x) ≢ none) xs
    unfolding put_all
    complete_offer [] i m = tt
    complete_offer (x ∷ xs) i m = elim (follows i x) [
      | inl (a, (v, s)) ↦
          let step : put_all f i (x ∷ xs) m ≡ put_all f (suc i) xs (put m (id x) v) =
            rw (s, put_all) refl in
          subst (λ r. All (λ y. accepts y ≡ true → entry r (id y) ≢ none) (x ∷ xs)) (sym step)
            (
              (λ _.
                  put_all-keeps f xs (suc i) (put m (id x) v) (id x)
                    (λ n. cc (n, entry-put_same m (id x) v))),
              complete_offer xs (suc i) (put m (id x) v),
            )
      | inr (a, n) ↦
          let step : put_all f i (x ∷ xs) m ≡ put_all f i xs m = rw (n, put_all) refl in
          subst (λ r. All (λ y. accepts y ≡ true → entry r (id y) ≢ none) (x ∷ xs)) (sym step)
            ((λ t. absurd (cc (a, t))), complete_offer xs i m)
    ]

    pub put_all-IsOffer : (xs : List A) → IsOffer id accepts xs (or_sentinel (put_all f 0 xs []))
    unfolding Offered
    put_all-IsOffer xs =
        or_sentinel-IsOffer id accepts xs (put_all f 0 xs [])
          (put_all_sound (Offered xs) f xs
            (All-map_of _ _ (λ x h. scored_offer xs x h) xs (offers_itself xs)) 0 [] tt)
          (complete_offer xs 0 [])

  pub put_all-map {ℓ κ} :
      {A : Type ℓ} {B : Type κ} (f : ℕ → B → Option (String × F)) (g : A → B) (xs : List A) (i : ℕ)
      (m : Scores F)
      → put_all f i (map g xs) m ≡ put_all (λ j x. f j (g x)) i xs m
  unfolding put_all
  put_all-map f g [] i m = refl
  put_all-map f g (x ∷ xs) i m = elim (Option-cases (f i (g x))) [
    | inl e ↦ rw (e, put_all) (put_all-map f g xs i m)
    | inr ((k, v), e) ↦ rw (e, put_all) (put_all-map f g xs (suc i) (put m k v))
  ]

  no_offer {ℓ} :
      {A : Type ℓ} (id : A → String) (accepts : A → Bool) (xs : List A) (m : Scores F)
      → m ≢ []
      → All (λ x. accepts x ≡ false) xs
      → ¬ (All (λ e. Any (λ x. (id x ≡ e.0) × (accepts x ≡ true)) xs) m)
  no_offer id accepts xs [] f h s = f refl
  no_offer id accepts xs (e ∷ es) f h s = not_offered accepts _ xs h (s.0)

  -- The name of a score, if there is one.
  abbrev pub IsNamed : Option (String × F) → String → Type 0
  IsNamed o k = elim o [ none ↦ ⊥ | some p ↦ p.0 ≡ k ]

  pub named : (o : Option (String × F)) (k : String) → IsNamed o k → (v : F) × (o ≡ some (k, v))
  named none k h = absurd h
  named (some (j, v)) k h = (v, ap (λ i. some (i, v)) h)

  -- Where no item is accepted, an offer is the sentinel.
  pub refused-sentinel {ℓ} :
      {A : Type ℓ} {id : A → String} {accepts : A → Bool} (xs : List A) (m : Scores F)
      → IsOffer id accepts xs m
      → All (λ x. accepts x ≡ false) xs
      → m ≡ sentinel
  refused-sentinel xs m o h = elim o.sound [
    | inr (e, _) ↦ e
    | inl s ↦ absurd (no_offer _ _ xs m o.filled h s)
  ]
