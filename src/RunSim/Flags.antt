-- ===== src/RunSim/Flags.antt =====
-- run_sim.go: the lists, modes and weights that the flags hold. A message to the log is left out.
use Prim.Native.String.{◌++◌ as str_append}
use eco_kube.Prelude.{
  Bool, true, false, Option, none, some, List, [], ◌∷◌, ◌++◌, map, String, if◌then◌else◌,
}
use eco_kube.Prelude.Int.{ℤ}
use eco_kube.Prelude.Text.{str_eq, equal_fold}
use eco_kube.Prelude.Strings.{split_on, trim, lower, replace, trim_end, ends_with}
use eco_kube.Prelude.Float.{Float64, lt, le, nought, one, ◌⊕◌, ◌⊗◌, ◌⊘◌}
use eco_kube.Core.Types.{Duration, of_seconds, seconds}
use eco_kube.Policies.Ecokube.{weighted_sum, epsilon_constraint, greedy_normalised}

-- The tokens that a parser accepts, in order.
unfoldable pub collect {ℓ} : {A : Type ℓ} → (String → Option A) → List String → List A
unfolding trim
collect parse [] = []
collect parse (p ∷ ps) =
    let rest = collect parse ps in elim (parse (trim p)) [ none ↦ rest | some v ↦ v ∷ rest ]

-- A list separated by commas; a blank string is the empty list.
unfoldable pub parse_list {ℓ} : {A : Type ℓ} → (String → Option A) → String → List A
unfolding collect split_on trim
parse_list parse s = if str_eq (trim s) "" then [] else collect parse (split_on b',' (trim s))

-- `atoi` is `strconv.Atoi`.
unfoldable pub parse_int_slice : (String → Option ℤ) → String → List ℤ
unfolding parse_list
parse_int_slice atoi s = parse_list atoi s

abbrev non_empty : String → Option String
non_empty s = if str_eq s "" then none else some s

unfoldable pub parse_string_slice : String → List String
unfolding parse_list
parse_string_slice s = parse_list non_empty s

unfoldable pub is_among : String → List String → Bool
is_among t [] = false
is_among t (u ∷ us) = let rest = is_among t us in if str_eq t u then true else rest

-- The modes by their names; "" is none.
unfoldable pub resolve_eco_mode : String → Option String
unfolding lower is_among
resolve_eco_mode token =
    let t = lower token in
    if is_among t (weighted_sum ∷ "weighted-sum" ∷ [])
    then some weighted_sum
    else if is_among t (epsilon_constraint ∷ "epsilon-constraint" ∷ [])
    then some epsilon_constraint
    else if is_among t (
        greedy_normalised ∷ "het-greedy-normalized" ∷ "greedy-normalised" ∷ "greedy-normalized"
        ∷ [])
    then some greedy_normalised
    else none

-- The loop over the tokens, with the modes so far, which are also those seen.
unfoldable pub add_modes : List String → List String → List String
unfolding resolve_eco_mode is_among
add_modes modes [] = modes
add_modes modes (t ∷ ts) = elim (resolve_eco_mode t) [
  | none ↦ add_modes modes ts
  | some mode ↦ add_modes (if is_among mode modes then modes else modes ++ (mode ∷ [])) ts
]

abbrev pub or_weighted_sum : List String → List String
or_weighted_sum [] = weighted_sum ∷ []
or_weighted_sum (m ∷ ms) = m ∷ ms

unfoldable pub parse_eco_modes : String → List String
unfolding add_modes parse_string_slice
parse_eco_modes raw = or_weighted_sum (add_modes [] (parse_string_slice raw))

-- `fmt.Sprintf("%.2f", v)` is the parameter `two_places` of what prints a number.
unfoldable pub compact_float : String → String
unfolding replace
compact_float s = replace b'.' "p" (replace b'-' "m" s)

unfoldable pub slugify_float : String → String
unfolding replace trim_end ends_with
slugify_float printed =
    let slug = trim_end b'0' (replace b'-' "m" (replace b'.' "p" printed)) in
    let padded = if ends_with b'p' slug then str_append slug "0" else slug in
    if str_eq padded "" then "0" else padded

unfoldable pub format_eco_kube_id : String → String → String
unfolding replace
format_eco_kube_id mode label =
    let safe = str_append "ecokube_" (replace b'-' "_" mode) in
    if str_eq label "" then safe else str_append safe (str_append "_" label)

pub record EcoWeightSet (F : Type 0) : Type 0 where
  pub alpha : F
  pub beta : F
  pub gamma : F
  pub label : String

module _ {F : Type 0} ⦃d : Float64 F⦄ where
  unfoldable pub parse_float_slice : String → List F
  unfolding parse_list
  parse_float_slice s = parse_list d.parse s

  abbrev pub durations_to_seconds : List Duration → List F
  durations_to_seconds values = map seconds values

  unfoldable pub format_weight_label : (F → String) → F → F → F → String
  unfolding compact_float
  format_weight_label two_places alpha beta gamma = str_append "a" (
      str_append (compact_float (two_places alpha)) (
        str_append "_b" (
          str_append (compact_float (two_places beta))
            (str_append "_g" (compact_float (two_places gamma))))))

  -- The numbers of a token, if each part is one.
  unfoldable pub parse_parts : List String → Option (List F)
  unfolding trim
  parse_parts [] = some []
  parse_parts (p ∷ ps) =
      let rest = parse_parts ps in
      elim (d.parse (trim p)) [
        | none ↦ none
        | some v ↦ elim rest [ none ↦ none | some vs ↦ some (v ∷ vs) ]
      ]

  -- Three numbers scaled to a sum of 1; `none` for a sum that is not positive.
  unfoldable pub scaled : (F → String) → F → F → F → Option (EcoWeightSet F)
  unfolding format_weight_label
  scaled two_places a b c =
      let sum = a ⊕ b ⊕ c in
      if le sum nought
      then none
      else some (record {
        alpha = a ⊘ sum;
        beta = b ⊘ sum;
        gamma = c ⊘ sum;
        label = format_weight_label two_places (a ⊘ sum) (b ⊘ sum) (c ⊘ sum);
      })

  unfoldable pub parse_weight_set : (F → String) → String → Option (EcoWeightSet F)
  unfolding parse_parts scaled split_on
  parse_weight_set two_places token = if str_eq token "" then none else elim (split_on b':' token) [
    | p ∷ q ∷ r ∷ [] ↦ elim (parse_parts (p ∷ q ∷ r ∷ [])) [
      | some (a ∷ b ∷ c ∷ []) ↦ scaled two_places a b c
      | _ ↦ none
    ]
    | _ ↦ none
  ]

  unfoldable pub parse_eco_weight_sets : (F → String) → String → List (EcoWeightSet F)
  unfolding parse_list parse_weight_set trim equal_fold
  parse_eco_weight_sets two_places raw =
      if equal_fold (trim raw) "auto" then [] else parse_list (parse_weight_set two_places) raw

  unfoldable pub clamp_float : F → F → F → F
  clamp_float v min max = if lt v min then min else if lt max v then max else v

  unfoldable pub clamp01 : F → F
  clamp01 v = if lt v nought then nought else if lt one v then one else v

  unfoldable pub carbon_scaler_lambda : F → F
  unfolding clamp_float
  carbon_scaler_lambda ci_weight =
      clamp_float (d.dec 15 2 ⊕ d.dec 65 2 ⊗ clamp_float ci_weight nought one) nought (d.dec 85 2)

  unfoldable pub calibrate_eco_weights : F → F × F × F
  unfolding clamp_float
  calibrate_eco_weights ci_weight = (
    clamp_float (d.dec 70 2 ⊕ d.dec 15 2 ⊗ ci_weight) (d.dec 70 2) (d.dec 85 2),
    d.dec 18 2,
    d.dec 8 2,
  )

abbrev pub parse_duration_slice_seconds : (F : Type 0) ⦃d : Float64 F⦄ → String → List Duration
parse_duration_slice_seconds F s = map of_seconds (parse_float_slice {F = F} s)
