-- ===== src/Loader/Workloads.antt =====
-- loader.go: LoadWorkloadsFromCSV.
use eco_kube.Prelude.{Option, none, some, List, [], String, Result, if◌then◌else◌}
use eco_kube.Prelude.Int.{pos, ltb_ℤ, ◌*ℤ◌, wrap_int64}
use eco_kube.Prelude.Text.{StringMap, put, index, equal_fold, str_eq}
use eco_kube.Core.Types.{Workload, second}
use eco_kube.Core.Class.{normalise_class, class_gpu}
use eco_kube.Loader.Csv.{Conversions, csv_index, csv_value, read_all}

abbrev put_unless_empty : StringMap String → String → String → StringMap String
unfolding put
put_unless_empty labels k v = if str_eq v "" then labels else put labels k v

-- The class of the column, else that of the resource class, else of a request for a GPU.
unfoldable pub workload_class : String → String → StringMap String → String
unfolding normalise_class equal_fold index
workload_class class resource_class labels =
    let own = normalise_class class in
    let other = normalise_class resource_class in
    if str_eq own ""
    then (if str_eq other ""
        then (if equal_fold (index labels "requires_gpu") "true" then class_gpu else "")
        else other)
    else own

module _ {F : Type 0} where
  -- The labels for a positive count of GPUs.
  unfoldable pub gpu_labels : Conversions F → String → StringMap String → StringMap String
  unfolding put
  gpu_labels conv raw labels = if str_eq raw "" then labels else elim (conv.atoi raw) [
    | none ↦ labels
    | some v ↦
        if ltb_ℤ (pos 0) v
        then put (put labels "requires_gpu" "true") "gpu_count" (conv.itoa v)
        else labels
  ]

  unfoldable pub row_labels : Conversions F → (String → String) → StringMap String
  unfolding put_unless_empty gpu_labels
  row_labels conv col =
      let site = put_unless_empty [] "preferred_site" (col "preferred_site") in
      let class = put_unless_empty site "resource_class" (col "resource_class") in
      gpu_labels conv (col "gpu_count") class

  unfoldable pub build_workload : Conversions F → (String → String) → Workload F
  unfolding row_labels workload_class ◌*ℤ◌ wrap_int64
  build_workload conv col =
      let labels = row_labels conv col in
      record {
        id = col "id";
        submit_time = conv.rfc3339 (col "submit");
        duration = wrap_int64 (conv.int_value (col "duration") *ℤ pos second);
        cpu = conv.float_value (col "cpu");
        memory = conv.float_value (col "mem");
        tag = if str_eq (col "tag") "" then col "resource_class" else col "tag";
        labels = labels;
        class = workload_class (col "class") (col "resource_class") labels;
      }

  unfoldable pub load_workloads :
      Conversions F → List String → List (Result (List String)) → Option (List (Workload F))
  unfolding read_all build_workload csv_index csv_value
  load_workloads conv header recs =
      read_all (λ rec. some (build_workload conv (csv_value rec (csv_index header)))) recs
