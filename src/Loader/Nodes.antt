-- ===== src/Loader/Nodes.antt =====
-- loader.go: LoadNodesFromCSV.
use eco_kube.Prelude.{Option, none, some, List, [], ◌∷◌, String, Result, if◌then◌else◌}
use eco_kube.Prelude.Text.{StringMap, put, index, equal_fold, str_eq}
use eco_kube.Prelude.Strings.{split_on}
use eco_kube.Prelude.Float.{Float64, nought, ◌⊕◌, ◌⊘◌}
use eco_kube.Core.Types.{SimulatedNode}
use eco_kube.Core.Node.{new_node}
use eco_kube.Core.Class.{normalise_class, class_gpu}
use eco_kube.Loader.Csv.{Conversions, csv_index, csv_value, parse_labels, read_all}

abbrev with_power : String → StringMap String → StringMap String
unfolding put
with_power v metadata = if str_eq v "" then metadata else put metadata "peak_power_w" v

-- The class of the column, or that of the label for a GPU.
unfoldable pub class_of_row : String → StringMap String → String
unfolding normalise_class equal_fold index
class_of_row value labels =
    let own = normalise_class value in
    if str_eq own ""
    then (if equal_fold (index labels "gpu") "true" then class_gpu else "")
    else own

module _ {F : Type 0} ⦃d : Float64 F⦄ where
  -- The intensity a profile starts from: the parts after the kind, which must be there.
  unfoldable pub profile_base : (String → F) → List String → Option F
  profile_base value [] = some nought
  profile_base value (kind ∷ parts) =
      if str_eq kind "static"
      then elim parts [ [] ↦ none | v ∷ _ ↦ some (value v) ]
      else if str_eq kind "sine"
      then elim parts [ [] ↦ none | v ∷ _ ↦ some (value v) ]
      else if str_eq kind "randwalk"
      then elim parts [
        | [] ↦ none
        | lo ∷ [] ↦ none
        | lo ∷ hi ∷ _ ↦ some ((value lo ⊕ value hi) ⊘ d.dec 2 0)
      ]
      else some nought

  -- The node of a record, once the intensity is known.
  unfoldable pub build_node : Conversions F → (String → String) → F → SimulatedNode F
  unfolding new_node parse_labels class_of_row with_power
  build_node conv col base_ci =
      let name = if str_eq (col "name") "" then col "id" else col "name" in
      let labels = parse_labels (col "labels") in
      record (new_node name (conv.float_value (col "cpu")) (conv.float_value (col "mem")) base_ci) {
        metadata = with_power (col "peak_power_w") (("ci_profile", col "ci_profile") ∷ []);
        site_id = col "site";
        labels = labels;
        device_class = class_of_row (col "device_class") labels;
      }

  unfoldable pub node_row : Conversions F → List String → List String → Option (SimulatedNode F)
  unfolding csv_index csv_value profile_base build_node split_on
  node_row conv header rec =
      let col = csv_value rec (csv_index header) in
      elim (profile_base conv.float_value (split_on b':' (col "ci_profile"))) [
        | none ↦ none
        | some base_ci ↦ some (build_node conv col base_ci)
      ]

  unfoldable pub load_nodes :
      Conversions F → List String → List (Result (List String)) → Option (List (SimulatedNode F))
  unfolding read_all node_row
  load_nodes conv header recs = read_all (node_row conv header) recs
