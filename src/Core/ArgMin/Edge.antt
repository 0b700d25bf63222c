-- ===== src/Core/ArgMin/Edge.antt =====
-- What ArgMin does with the key "" and with costs that are NaN.
use eco_kube.Prelude.{◌≡◌, refl, true, false, [], ◌∷◌, arith, All}
use eco_kube.Prelude.Float.{Float64, is_num}
use eco_kube.Core.ArgMin.{Scores, improves, improve, arg_min_loop, start, arg_min}
use eco_kube.Core.ArgMin.Order.{filled, arg_min_lem}

module _ {F : Type 0} ⦃d : Float64 F⦄ where
  nan_loop : (es : Scores F) → All (λ e. is_num e.1 ≡ false) es → arg_min_loop start es ≡ start
  unfolding arg_min_loop improve improves
  nan_loop [] h = refl
  nan_loop (e ∷ es) h = ground (arith, nan_loop es h.1)

  -- A map that is not empty and holds no cost but NaN has the answer "", reported as found.
  pub arg_min_nan :
      (es : Scores F)
      → filled es ≡ true
      → All (λ e. is_num e.1 ≡ false) es
      → arg_min es ≡ ("", true)
  arg_min_nan es f h = rw (arg_min_lem es, nan_loop es h, f)
