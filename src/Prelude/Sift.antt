-- ===== src/Prelude/Sift.antt =====
-- A loop that sorts items into those kept and, by name, the reasons for the others.
use mathlib.Core.Path.{◌≡◌, refl, sym, ap, ◌∙◌, subst}
use mathlib.Core.Logic.{◌≢◌, inl, inr}
use mathlib.Core.Bool.{Bool, true, false}
use mathlib.Core.List.{List, [], ◌∷◌, ◌++◌}
use mathlib.Core.Option.{Option, none, some}
use Prim.Native.String.{String}
use native.Mathlib.Omega.{arith}
use eco_kube.Prelude.Tests.{Option-cases}
use eco_kube.Prelude.Lists.{All, keep_if}
use eco_kube.Prelude.Text.{StringMap, entry, put, eq_iff, entry-put_same, entry-put_other}

append_nil {ℓ} : {A : Type ℓ} (xs : List A) → xs ++ [] ≡ xs
append_nil [] = refl
append_nil (x ∷ xs) = ap (λ l. x ∷ l) (append_nil xs)

snoc_append {ℓ} :
    {A : Type ℓ} (xs : List A) (x : A) (ys : List A) → (xs ++ (x ∷ [])) ++ ys ≡ xs ++ (x ∷ ys)
snoc_append [] x ys = refl
snoc_append (y ∷ xs) x ys = ap (λ l. y ∷ l) (snoc_append xs x ys)

-- No reason against it.
abbrev pub is_kept : Option String → Bool
is_kept o = elim o [ none ↦ true | some r ↦ false ]

module _ {ℓ} {A : Type ℓ} (id : A → String) (reason : A → Option String) where
  -- With the items kept so far in `out`, and the reasons in `rejects`.
  unfoldable pub sift : List A → List A → StringMap String → List A × StringMap String
  unfolding put
  sift [] out rejects = (out, rejects)
  sift (x ∷ xs) out rejects = elim (reason x) [
    | none ↦ sift xs (out ++ (x ∷ [])) rejects
    | some r ↦ sift xs out (put rejects (id x) r)
  ]

  pub sift-keep_if :
      (xs out : List A) (rejects : StringMap String)
      → (sift xs out rejects).0 ≡ out ++ keep_if (λ x. is_kept (reason x)) xs
  unfolding sift keep_if
  sift-keep_if [] out rejects = sym (append_nil out)
  sift-keep_if (x ∷ xs) out rejects = elim (Option-cases (reason x)) [
    | inl e ↦
        rw (e, sift, keep_if)
          (sift-keep_if xs (out ++ (x ∷ [])) rejects
            ∙ snoc_append out x (keep_if (λ y. is_kept (reason y)) xs))
    | inr (r, e) ↦ rw (e, sift, keep_if) (sift-keep_if xs out (put rejects (id x) r))
  ]

  kept-All :
      (P : A → Type 0) (xs : List A)
      → All (λ x. reason x ≡ none → P x) xs
      → All P (keep_if (λ x. is_kept (reason x)) xs)
  unfolding keep_if
  kept-All P [] h = tt
  kept-All P (x ∷ xs) (p, h) = elim (Option-cases (reason x)) [
    | inl e ↦ rw (e, keep_if) (p e, kept-All P xs h)
    | inr (r, e) ↦ rw (e, keep_if) (kept-All P xs h)
  ]

  entry-put_filled :
      (m : StringMap String) (k : String) (v : String) (q : String)
      → entry m q ≢ none
      → entry (put m k v) q ≢ none
  entry-put_filled m k v q h e =
      h (ground (arith, eq_iff q k, entry-put_same m k v, entry-put_other m k v q))

  sift_keeps :
      (xs out : List A) (rejects : StringMap String) (k : String)
      → entry rejects k ≢ none
      → entry (sift xs out rejects).1 k ≢ none
  unfolding sift
  sift_keeps [] out rejects k h = h
  sift_keeps (x ∷ xs) out rejects k h = elim (Option-cases (reason x)) [
    | inl e ↦ rw (e, sift) (sift_keeps xs (out ++ (x ∷ [])) rejects k h)
    | inr (r, e) ↦
        rw (e, sift)
          (sift_keeps xs out (put rejects (id x) r) k (entry-put_filled rejects (id x) r k h))
  ]

  abbrev Recorded : List A → List A × StringMap String → Type 0
  Recorded xs res = All (λ x. reason x ≢ none → entry res.1 (id x) ≢ none) xs

  -- A property of every item without a reason holds of those kept.
  pub sift-All :
      (P : A → Type 0) (xs : List A) (rejects : StringMap String)
      → All (λ x. reason x ≡ none → P x) xs
      → All P (sift xs [] rejects).0
  sift-All P xs rejects h = subst (All P) (sym (sift-keep_if xs [] rejects)) (kept-All P xs h)

  -- Every item that is not kept has its reason recorded.
  pub sift_recorded :
      (xs out : List A) (rejects : StringMap String)
      → All (λ x. reason x ≢ none → entry (sift xs out rejects).1 (id x) ≢ none) xs
  unfolding sift
  sift_recorded [] out rejects = tt
  sift_recorded (x ∷ xs) out rejects = elim (Option-cases (reason x)) [
    | inl e ↦
        let step : sift (x ∷ xs) out rejects ≡ sift xs (out ++ (x ∷ [])) rejects =
          rw (e, sift) refl in
        subst (Recorded (x ∷ xs)) (sym step)
          ((λ n. absurd (n e)), sift_recorded xs (out ++ (x ∷ [])) rejects)
    | inr (r, e) ↦
        let step : sift (x ∷ xs) out rejects ≡ sift xs out (put rejects (id x) r) =
          rw (e, sift) refl in
        subst (Recorded (x ∷ xs)) (sym step) (
          (λ n.
              sift_keeps xs out (put rejects (id x) r) (id x)
                (λ q. cc (q, entry-put_same rejects (id x) r))),
          sift_recorded xs out (put rejects (id x) r),
        )
  ]
