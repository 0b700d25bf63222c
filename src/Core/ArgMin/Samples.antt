-- ===== src/Core/ArgMin/Samples.antt =====
-- Three scores over the fixed-point numbers, and the theorems at them.
use mathlib.Core.List.{Permᴰ, Pairwise-pair}
use eco_kube.Prelude.{◌≡◌, refl, true, [], ◌∷◌, arith, none, inl, Any}
use eco_kube.Prelude.Text.{eq_iff, str_lt}
use eco_kube.Prelude.Float.{is_num}
use eco_kube.Prelude.Sample.{Fixed, fixed, fixed-IsOrdered}
use eco_kube.Core.ArgMin.{Scores, improves, arg_min}
use eco_kube.Core.ArgMin.Order.{Apart-prop, arg_min-perm}
use eco_kube.Core.ArgMin.Least.{IsLeast, arg_min-IsLeast}
use eco_kube.Core.ArgMin.Edge.{arg_min_nan}

abbrev scores : Scores Fixed
scores = ("b", fixed.dec 1 0) ∷ ("a", fixed.dec 1 0) ∷ []

abbrev scores' : Scores Fixed
scores' = ("a", fixed.dec 1 0) ∷ ("b", fixed.dec 1 0) ∷ []

smallest_id : arg_min scores ≡ ("a", true)
unfolding arg_min improves fixed str_lt
smallest_id = refl

arg_min-perm_example : arg_min scores ≡ arg_min scores'
arg_min-perm_example = arg_min-perm scores scores' (Permᴰ.swap refl refl) (
    (Pairwise-pair Apart-prop).1 (
      (λ e. ground (arith, eq_iff "b" "")),
      (λ e. ground (arith, eq_iff "a" "")),
      (λ e. ground (arith, eq_iff "b" "a")),
    ))

arg_min-IsLeast_example :
    Any
      (λ e.
        (arg_min scores ≡ (e.0, true))
        × (is_num e.1 ≡ true)
        × IsLeast (record { best = e.1; best_id = e.0 }) scores)
      scores
unfolding fixed
arg_min-IsLeast_example =
    arg_min-IsLeast fixed-IsOrdered scores
      ((λ e. ground (arith, eq_iff "b" "")), ((λ e. ground (arith, eq_iff "a" "")), tt)) (inl refl)

arg_min_nan_example : arg_min {F = Fixed} (("a", none) ∷ []) ≡ ("", true)
unfolding fixed
arg_min_nan_example = arg_min_nan {F = Fixed} (("a", none) ∷ []) refl (refl, tt)
