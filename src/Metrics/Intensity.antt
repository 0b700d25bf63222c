-- ===== src/Metrics/Intensity.antt =====
-- cicost.go: the carbon intensity of a node at an instant. A `none` is the run-time panic of an
-- integer division by zero.
use eco_kube.Prelude.{
  ℕ, zero, suc, ◌+◌, ◌*◌, ◌/◌, ◌%◌, Option, none, some, List, [], ◌∷◌, String, ◌==◌, if◌then◌else◌,
}
use eco_kube.Prelude.Int.{ℤ, pos, negsuc, sub_ℕ, pos_part, neg_part, ◌-ℤ◌}
use eco_kube.Prelude.Text.{index, str_eq, codes}
use eco_kube.Prelude.Strings.{split_on}
use eco_kube.Prelude.Float.{Float64, lt, le, nought, one, ◌⊕◌, ◌⊖◌, ◌⊗◌, ◌⊘◌}
use eco_kube.Core.Types.{Time, second, unix_epoch, SimulatedNode}
use eco_kube.Metrics.{parse_float}
use eco_kube.Metrics.Wattnet.{Table, lookup_wattnet_ci}

-- `t.Unix()`: seconds since 1970, rounded down.
unfoldable pub unix : Time → ℤ
unfolding ◌-ℤ◌
unix t = elim (t -ℤ unix_epoch) [ pos n ↦ pos (n / second) | negsuc n ↦ negsuc (n / second) ]

-- `a % b`, with the sign of `a`.
unfoldable pub rem : ℤ → ℤ → Option ℤ
rem a b =
    let m = pos_part b + neg_part b in
    if m == 0 then none else some (sub_ℕ (pos_part a % m) (neg_part a % m))

-- `ciSmoothWindow` and `ciSmoothStep`
abbrev smooth_window : ℕ
smooth_window = 5

abbrev smooth_step : ℕ
smooth_step = 300 * second

module _ {F : Type 0} ⦃d : Float64 F⦄ where
  abbrev two_pi : F
  two_pi = d.dec 6_283_185_307_179_586_476_925_286_766_559 30

  abbrev static : SimulatedNode F → List String → F
  static n (v ∷ _) = parse_float v n.carbon_intensity
  static n [] = n.carbon_intensity

  unfoldable pub sine : SimulatedNode F → Time → List String → Option F
  unfolding parse_float rem unix
  sine n at (m ∷ a ∷ p ∷ _) =
      let mean = parse_float m n.carbon_intensity in
      let amp = parse_float a nought in
      let period = parse_float p nought in
      if le period nought then some mean else elim (rem (unix at) (d.to_int period)) [
        | none ↦ none
        | some r ↦ some (mean ⊕ amp ⊗ d.sin (two_pi ⊗ d.of_int r ⊘ period))
      ]
  sine n at _ = some n.carbon_intensity

  abbrev step_seconds : List String → F
  step_seconds [] = d.dec 60 0
  step_seconds (s ∷ _) = let v = parse_float s (d.dec 60 0) in if le v nought then d.dec 60 0 else v

  unfoldable pub rand_walk : SimulatedNode F → Time → List String → F
  unfolding parse_float unix
  rand_walk n at (lo ∷ hi ∷ rest) =
      let min_v = parse_float lo n.carbon_intensity in
      let max_v = parse_float hi n.carbon_intensity in
      let steps = d.of_int (unix at) ⊘ step_seconds rest in
      if le max_v min_v then min_v else min_v ⊕ (max_v ⊖ min_v) ⊗ (steps ⊖ d.floor steps)
  rand_walk n at _ = n.carbon_intensity

  abbrev wattnet : Table F → SimulatedNode F → Time → List String → F
  wattnet table n at (country ∷ year ∷ _) =
      elim (lookup_wattnet_ci table (codes country) (codes year) at) [
        | none ↦ n.carbon_intensity
        | some v ↦ v
      ]
  wattnet table n at _ = n.carbon_intensity

  abbrev of_profile : Table F → SimulatedNode F → Time → List String → Option F
  of_profile table n at [] = some n.carbon_intensity
  of_profile table n at (kind ∷ args) =
      if str_eq kind "static"
      then some (static n args)
      else if str_eq kind "sine"
      then sine n at args
      else if str_eq kind "randwalk"
      then some (rand_walk n at args)
      else if str_eq kind "wattnet"
      then some (wattnet table n at args)
      else some n.carbon_intensity

  unfoldable pub raw_carbon_intensity : Table F → SimulatedNode F → Time → Option F
  unfolding index parse_float sine rand_walk lookup_wattnet_ci split_on
  raw_carbon_intensity table n at =
      let own = index n.metadata "ci_profile" in
      let profile = if str_eq own "" then index n.labels "ci_profile" else own in
      if str_eq profile ""
      then some (elim n.site [ none ↦ n.carbon_intensity | some s ↦ s.carbon_intensity ])
      else of_profile table n at (split_on b':' profile)

  abbrev pub clamp_ci : F → F
  clamp_ci ci = if lt ci nought then nought else ci

  -- The loop from sample `i` on, `more` samples long, with `sum` and `count` so far.
  unfoldable pub sum_samples : Table F → SimulatedNode F → Time → ℕ → ℕ → F → F → Option (F × F)
  unfolding raw_carbon_intensity ◌-ℤ◌
  sum_samples table n at zero i sum count = some (sum, count)
  sum_samples table n at (suc more) i sum count =
      elim (raw_carbon_intensity table n (at -ℤ pos (i * smooth_step))) [
        | none ↦ none
        | some v ↦ sum_samples table n at more (suc i) (sum ⊕ v) (count ⊕ one)
      ]

  unfoldable pub current_ci : Table F → SimulatedNode F → Time → Option F
  unfolding sum_samples
  current_ci table n at = elim (sum_samples table n at smooth_window 0 nought nought) [
    | none ↦ none
    | some (sum, count) ↦ some (clamp_ci (sum ⊘ count))
  ]
