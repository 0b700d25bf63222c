-- ===== src/Engine/ArgMin.antt =====
-- engine.go: argMinStable sorts where ArgMin of hetsched/pkg/core/scheduler.go walks once.
use eco_kube.Prelude.{
  ◌≡◌, refl, sym, ap, ◌∙◌, subst, true, false, some, [], ◌∷◌, String, arith, ◌≢◌, inl, inr, All,
  Any, Any-elim, Bool-cases,
}
use eco_kube.Prelude.Text.{str_lt, str_lt_irrefl, str_lt_trans, str_lt_total}
use eco_kube.Prelude.Float.{Float64, lt, eq, is_num, IsOrdered}
use eco_kube.Core.ArgMin.{Scores, arg_min}
use eco_kube.Core.ArgMin.Least.{arg_min-IsLeast}
use eco_kube.Engine.{kv_less, insert_kv, sort_kv, arg_min_stable}

module _ {F : Type 0} ⦃d : Float64 F⦄ where
  abbrev IsNum : String × F → Type 0
  IsNum e = is_num e.1 ≡ true

  -- No entry comes before `h`.
  abbrev IsFirst : String × F → Scores F → Type 0
  IsFirst h es = All (λ e. kv_less e h ≡ false) es

  kv_less_irrefl : (e : String × F) → IsNum e → kv_less e e ≡ false
  unfolding kv_less
  kv_less_irrefl e n = ground (arith, str_lt_irrefl (e.0))

  kv_less_trans :
      (a b c : String × F)
      → IsNum a
      → IsNum b
      → IsNum c
      → kv_less a b ≡ true
      → kv_less b c ≡ true
      → kv_less a c ≡ true
  unfolding kv_less
  kv_less_trans a b c na nb nc h k = ground (arith, str_lt_trans (a.0) (b.0) (c.0))

  still_not_less :
      (a b c : String × F)
      → IsNum a
      → IsNum b
      → IsNum c
      → kv_less b c ≡ true
      → kv_less a c ≡ false
      → kv_less a b ≡ false
  unfolding kv_less
  still_not_less a b c na nb nc h k = ground (arith, kv_less_trans a b c na nb nc)

  sort_kv_kept :
      (e c : String × F) (es : Scores F)
      → IsNum e
      → IsNum c
      → kv_less e c ≡ true
      → All IsNum es
      → IsFirst c es
      → IsFirst e es
  sort_kv_kept e c [] ne nc l ns h = tt
  sort_kv_kept e c (x ∷ xs) ne nc l (n, ns) (k, h) =
      (still_not_less x e c n ne nc l k, sort_kv_kept e c xs ne nc l ns h)

  -- The first entry of the sorted list.
  record Head (es : Scores F) : Type 0 where
    entry : String × F
    rest : Scores F
    split : sort_kv es ≡ entry ∷ rest
    member : Any (λ e. e ≡ entry) es
    number : IsNum entry
    first : IsFirst entry es

  sorted-Head : (e : String × F) (es : Scores F) → All IsNum (e ∷ es) → Head (e ∷ es)
  unfolding sort_kv insert_kv
  sorted-Head e [] (n, _) = record {
    entry = e;
    rest = [];
    split = refl;
    member = inl refl;
    number = n;
    first = (kv_less_irrefl e n, tt);
  }
  sorted-Head e (x ∷ xs) (n, ns) =
      let h = sorted-Head x xs ns in
      elim (Bool-cases (kv_less e h.entry)) [
        | inl before ↦ record {
          entry = e;
          rest = h.entry ∷ h.rest;
          split = rw (h.split, before, insert_kv) refl;
          member = inl refl;
          number = n;
          first =
              (kv_less_irrefl e n, sort_kv_kept e h.entry (x ∷ xs) n h.number before ns h.first);
        }
        | inr after ↦ record {
          entry = h.entry;
          rest = insert_kv e h.rest;
          split = rw (h.split, after, insert_kv) refl;
          member = inr h.member;
          number = h.number;
          first = (after, h.first);
        }
      ]

  abbrev NotBefore : String × F → String × F → Type 0
  NotBefore a b = (lt (b.1) (a.1) ≡ false) × (eq (b.1) (a.1) ≡ true → str_lt (b.0) (a.0) ≡ false)

  same_key :
      (a b : String × F) → IsNum a → IsNum b → kv_less a b ≡ false → NotBefore a b → b.0 ≡ a.0
  unfolding kv_less
  same_key a b na nb h l = ground (arith, str_lt_total (b.0) (a.0))

  stable_head :
      (es : Scores F) (x : String × F) (r : Scores F)
      → sort_kv es ≡ x ∷ r
      → arg_min_stable es ≡ some (x.0)
  unfolding arg_min_stable
  stable_head es x r e = rw (e, arg_min_stable) refl

  -- Where no key is "" and no score is NaN, sorting and walking find the same node.
  pub arg_min_stable-arg_min :
      IsOrdered F
      → (es : Scores F) → es ≢ []
      → All (λ e. e.0 ≢ "") es
      → All (λ e. is_num e.1 ≡ true) es
      → arg_min_stable es ≡ some (arg_min es).0
  arg_min_stable-arg_min laws [] ne keys ns = absurd (ne refl)
  arg_min_stable-arg_min laws (e ∷ es) ne keys ns =
      let h = sorted-Head e es ns in
      Any-elim _ _ (e ∷ es) (arg_min-IsLeast laws (e ∷ es) keys (inl (ns.0))) h.first
        (λ b p b_after. Any-elim _ _ (e ∷ es) h.member p.2 (λ x x_is_head x_after.
          let key : h.entry.0 ≡ b.0 =
            same_key b h.entry p.1 h.number b_after (subst (NotBefore b) x_is_head x_after) in
          stable_head (e ∷ es) h.entry h.rest h.split ∙ ap some (key ∙ sym (ap (λ q. q.0) (p.0)))))
