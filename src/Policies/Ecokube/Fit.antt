-- ===== src/Policies/Ecokube/Fit.antt =====
-- ecokube.go: how well a node fits a job: its labels, its class, its site and its load.
use eco_kube.Prelude.{
  Bool, false, ◌&&◌, ◌||◌, not, none, some, List, [], ◌∷◌, String, if◌then◌else◌,
}
use eco_kube.Prelude.Text.{StringMap, index, entry, str_eq, equal_fold}
use eco_kube.Prelude.Float.{Float64, lt, le, nought, one, max, ◌⊖◌, ◌⊗◌, ◌⊘◌}
use eco_kube.Core.Types.{Job, SimulatedNode}
use eco_kube.Core.Class.{normalise_class, class_cpu, class_gpu, class_mem}
use eco_kube.Policies.{runtime_seconds}

unfoldable pub folds_to_any : String → List String → Bool
unfolding equal_fold
folds_to_any v [] = false
folds_to_any v (c ∷ cs) = equal_fold v c || folds_to_any v cs

-- `expected` is never empty in the calls.
unfoldable pub has_label_value : StringMap String → String → List String → Bool
unfolding entry folds_to_any
has_label_value labels k expected = elim (entry labels k) [
  | none ↦ false
  | some v ↦ elim expected [ [] ↦ not (str_eq v "") | c ∷ cs ↦ folds_to_any v (c ∷ cs) ]
]

-- The first class that is known: of the field, of the two labels, or GPU where the flag is set.
unfoldable pub resolve_class : String → StringMap String → String → String → String
unfolding normalise_class index equal_fold
resolve_class own labels first_label flag =
    let c = normalise_class own in
    let c' = normalise_class (index labels first_label) in
    let c'' = normalise_class (index labels "resource_class") in
    if not (str_eq c "")
    then c
    else if not (str_eq c' "")
    then c'
    else if not (str_eq c'' "")
    then c''
    else if equal_fold (index labels flag) "true"
    then class_gpu
    else ""

module _ {F : Type 0} ⦃d : Float64 F⦄ where
  abbrev pub clamp : F → F → F → F
  clamp v lo hi = if lt v lo then lo else if lt hi v then hi else v

  unfoldable pub resolve_job_class : Job F → String
  unfolding resolve_class
  resolve_job_class job = resolve_class job.class job.labels "class" "requires_gpu"

  unfoldable pub resolve_node_class : SimulatedNode F → String
  unfolding resolve_class
  resolve_node_class n = resolve_class n.device_class n.labels "device_class" "gpu"

  unfoldable pub device_fit_score : Job F → SimulatedNode F → F
  unfolding resolve_job_class resolve_node_class
  device_fit_score job n =
      let j = resolve_job_class job in
      let c = resolve_node_class n in
      if str_eq j "" || str_eq c ""
      then d.dec 5 1
      else if str_eq j c
      then one
      else if str_eq j class_cpu && (str_eq c class_gpu || str_eq c class_mem)
      then d.dec 7 1
      else d.dec 3 1

  -- `maxFitBonusFraction`
  abbrev pub max_fit_bonus : F
  max_fit_bonus = d.dec 10 2

  abbrev raised : Bool → F → F → F
  raised b bonus x = if b then max bonus x else bonus

  abbrev site_is : SimulatedNode F → String → Bool
  unfolding equal_fold
  site_is n pref = elim n.site [ none ↦ false | some s ↦ equal_fold s.id pref ]

  unfoldable pub fit_bonus : Job F → SimulatedNode F → F
  unfolding index equal_fold has_label_value site_is
  fit_bonus job n =
      let base = d.dec 8 2 in
      let wants = λ (k : String). index job.labels k in
      let gpu =
        raised
          (equal_fold (wants "requires_gpu") "true"
            && has_label_value n.labels "gpu" ("true" ∷ "1" ∷ []))
          nought base in
      let site =
        raised (not (str_eq (wants "preferred_site") "") && site_is n (wants "preferred_site")) gpu
          (d.dec 48 3) in
      let class =
        raised
          (not (str_eq (wants "resource_class") "")
            && has_label_value n.labels "resource_class" (wants "resource_class" ∷ []))
          site base in
      let kind =
        raised
          (not (str_eq (wants "preferred_node_type") "")
            && has_label_value n.labels "node_type" (wants "preferred_node_type" ∷ []))
          class base in
      clamp kind nought max_fit_bonus

  unfoldable pub data_movement_hint : Job F → SimulatedNode F → F
  unfolding index
  data_movement_hint job n =
      let target = index job.labels "preferred_site" in
      if str_eq target ""
      then nought
      else elim n.site [ none ↦ nought | some s ↦ if str_eq s.id target then nought else one ]

  abbrev noisy : SimulatedNode F → Bool
  unfolding has_label_value
  noisy n =
      has_label_value n.labels "noisy_neighbor" ("true" ∷ [])
      || has_label_value n.labels "mixed" ("true" ∷ [])

  abbrev utilisation : SimulatedNode F → F
  utilisation n =
      max (one ⊖ clamp (n.available_cpu ⊘ n.total_cpu) nought one)
        (one ⊖ clamp (n.available_memory ⊘ n.total_memory) nought one)

  unfoldable pub interference_penalty : SimulatedNode F → Job F → F
  unfolding noisy runtime_seconds
  interference_penalty n job =
      let util = utilisation n in
      let scale = d.dec 18 1 ⊗ util ⊗ d.sqrt (max (runtime_seconds job) one) in
      if le n.total_cpu nought || le n.total_memory nought
      then nought
      else if le util nought
      then nought
      else if noisy n
      then scale ⊗ d.dec 12 1
      else scale
