-- ===== src/Core/ArgMin/Order.antt =====
-- The answer of ArgMin does not depend on the order in which Go walks the map.
use mathlib.Core.List.{Permᴰ, Pairwise}
use mathlib.Core.List.{rel_of_Pairwise-cons, mem-cons_self}
use mathlib.Core.List.Pairwise
use mathlib.Core.List.Permᴰ
use eco_kube.Prelude.{◌≡◌, refl, sym, ◌∙◌, Bool, true, false, [], ◌∷◌, String, arith, ◌≢◌}
use eco_kube.Prelude.Text.{eq_iff, str_lt_irrefl, str_lt_trans, str_lt_total}
use eco_kube.Prelude.Float.{Float64}
use eco_kube.Core.ArgMin.{Scores, Best, improves, improve, arg_min_loop, start, arg_min}

module _ {F : Type 0} ⦃d : Float64 F⦄ where
  abbrev as_best : String × F → Best F
  as_best e = record { best = e.1; best_id = e.0 }

  -- Entries of different keys, neither of them "".
  abbrev pub Apart : String × F → String × F → Type 0
  Apart a b = (a.0 ≢ "") × (b.0 ≢ "") × (a.0 ≢ b.0)

  pub Apart-prop : (a b : String × F) → IsProp (Apart a b)
  Apart-prop a b = hlevel

  improves_trans :
      (a b : String × F) (s : Best F)
      → a.0 ≢ ""
      → b.0 ≢ ""
      → improves a (as_best b) ≡ true
      → improves b s ≡ true
      → improves a s ≡ true
  unfolding improves
  improves_trans a b s na nb h k =
      ground (arith, eq_iff b.0 "", eq_iff s.best_id "", str_lt_trans a.0 b.0 s.best_id)

  improves_asym :
      (a b : String × F)
      → a.0 ≢ ""
      → b.0 ≢ ""
      → improves a (as_best b) ≡ true
      → improves b (as_best a) ≡ false
  unfolding improves
  improves_asym a b na nb h =
      ground (arith, eq_iff b.0 "", eq_iff a.0 "", str_lt_trans a.0 b.0 a.0, str_lt_irrefl a.0)

  -- Of two entries that both improve on a third, one improves on the other.
  improves_total :
      (a b : String × F) (s : Best F)
      → Apart a b
      → improves a s ≡ true
      → improves b s ≡ true
      → improves a (as_best b) ≡ false
      → improves b (as_best a) ≡ true
  unfolding improves
  improves_total a b s p ha hb h =
      ground (arith, eq_iff b.0 "", eq_iff a.0 "", str_lt_total a.0 b.0)

  improve_comm :
      (a b : String × F) (s : Best F)
      → Apart a b
      → improve (improve s a) b ≡ improve (improve s b) a
  unfolding improve
  improve_comm a b s p = ground (
    arith,
    improves_total a b s p,
    improves_trans a b s p.0 p.1,
    improves_trans b a s p.1 p.0,
    improves_asym a b p.0 p.1,
  )

  arg_min_loop-perm :
      {es fs : Scores F}
      → Permᴰ es fs
      → (s : Best F) → Pairwise Apart es
      → arg_min_loop s es ≡ arg_min_loop s fs
  unfolding arg_min_loop
  arg_min_loop-perm Permᴰ.nil s h = refl
  arg_min_loop-perm (Permᴰ.cons {a = a} p q) s h =
      arg_min_loop-perm q (improve s a) (Pairwise.of_cons h) ∙ cc
  arg_min_loop-perm (Permᴰ.swap {a = a} {b = b} p q) s h =
      cc (improve_comm a b s (rel_of_Pairwise-cons h mem-cons_self))
  arg_min_loop-perm (Permᴰ.trans p q) s h =
      arg_min_loop-perm p s h
      ∙ arg_min_loop-perm q s
          (Permᴰ.pairwise Apart-prop (λ a b c. (c.1, c.0, λ e. c.2 (sym e))) p h)

  abbrev pub filled : Scores F → Bool
  filled [] = false
  filled (e ∷ es) = true

  filled-perm : {es fs : Scores F} → Permᴰ es fs → filled es ≡ filled fs
  filled-perm Permᴰ.nil = refl
  filled-perm (Permᴰ.cons p q) = refl
  filled-perm (Permᴰ.swap p q) = refl
  filled-perm (Permᴰ.trans p q) = filled-perm p ∙ filled-perm q

  pub arg_min_lem : (es : Scores F) → arg_min es ≡ ((arg_min_loop start es).best_id, filled es)
  unfolding arg_min
  arg_min_lem [] = refl
  arg_min_lem (e ∷ es) = refl

  -- Two walks over one map, whose keys differ and are not "", choose the same node.
  pub arg_min-perm : (es fs : Scores F) → Permᴰ es fs → Pairwise Apart es → arg_min es ≡ arg_min fs
  arg_min-perm es fs p h =
      rw (arg_min_lem es, arg_min_lem fs, arg_min_loop-perm p start h, filled-perm p)
