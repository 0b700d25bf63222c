-- ===== src/Loader/Samples.antt =====
-- Rows of small files, and the theorems at them.
use eco_kube.Prelude.{◌-◌, ◌^◌, ◌≡◌, ◌≢◌, refl, none, some, Option, List, [], ◌∷◌, String, All, ok}
use eco_kube.Prelude.Int.{pos, negsuc, wrap_int64}
use eco_kube.Prelude.Text.{put}
use eco_kube.Prelude.Strings.{trim, lower, split_on, split_once}
use eco_kube.Prelude.Sample.{Fixed, fixed}
use eco_kube.Core.Types.{Site, SimulatedNode, Workload}
use eco_kube.Core.Node.{new_node}
use eco_kube.Core.Node.Samples.{units}
use eco_kube.Loader.Csv.{Conversions, column_key, csv_index, csv_value, field_at, parse_labels}
use eco_kube.Loader.Nodes.{load_nodes, profile_base}
use eco_kube.Loader.Workloads.{load_workloads}
use eco_kube.Loader.Sites.{load_sites, attach_sites}
use eco_kube.Loader.Header.{csv_value-csv_index}
use eco_kube.Loader.Clamp.{HasSiteBounds, AtClamped, attach_sites-AtClamped}

abbrev pub conversions : Conversions Fixed
conversions = record {
  float_value = λ s. elim (fixed.parse s) [ none ↦ units 0 | some v ↦ v ];
  int_value = λ s. pos 60;
  atoi = λ s. some (pos 1);
  itoa = λ z. "1";
  rfc3339 = λ s. pos 7;
}

abbrev header_row : List String
header_row = "name" ∷ " CPU " ∷ []

keyed : column_key " CPU " ≢ ""
unfolding lower trim
keyed e = cc e

csv_value-csv_index_example :
    csv_value ("n1" ∷ " 8 " ∷ []) (csv_index header_row) " CPU " ≡ field_at ("n1" ∷ " 8 " ∷ []) 1
csv_value-csv_index_example =
    csv_value-csv_index header_row ("n1" ∷ " 8 " ∷ []) 1 " CPU " refl keyed tt

fixed-HasSiteBounds : HasSiteBounds Fixed
unfolding fixed
fixed-HasSiteBounds = record { pue_bounds = refl; k_bounds = refl }

abbrev site_rows : List (List String)
site_rows = ("id" ∷ "pue" ∷ "k" ∷ "region" ∷ []) ∷ ("FR" ∷ "9" ∷ "1" ∷ "fr" ∷ []) ∷ []

abbrev fr_site : Site Fixed
fr_site = record {
  id = "FR";
  pue = fixed.dec 15 1;
  k = units 1;
  ci_region = "fr";
  carbon_intensity = units 0;
}

abbrev fr_node : SimulatedNode Fixed
unfolding new_node
fr_node = record (new_node "n" (units 1) (units 1) (units 300)) { site_id = "FR" }

loaded_sites : load_sites conversions site_rows ≡ some (("FR", fr_site) ∷ [])
unfolding load_sites fixed
loaded_sites = refl

attach_sites-AtClamped_example : All AtClamped (attach_sites (fr_node ∷ []) (("FR", fr_site) ∷ []))
unfolding fr_node
attach_sites-AtClamped_example =
    attach_sites-AtClamped fixed-HasSiteBounds conversions site_rows (("FR", fr_site) ∷ [])
      (fr_node ∷ []) loaded_sites (refl, tt)

labels_run :
    parse_labels "gpu=true, edge ,,a = b=c" ≡ ("gpu", "true") ∷ ("edge", "true") ∷ ("a", "b=c") ∷ []
unfolding parse_labels trim split_on split_once put
labels_run = refl

-- A profile without its value is an index out of range.
profile_runs : profile_base conversions.float_value ("static" ∷ []) ≡ none
unfolding profile_base
profile_runs = refl

abbrev first_class : Option (List (SimulatedNode Fixed)) → String
first_class none = ""
first_class (some []) = ""
first_class (some (n ∷ _)) = n.device_class

nodes_run :
    first_class (
      load_nodes conversions
        ("id" ∷ "ci_profile" ∷ "labels" ∷ [])
        (ok ("n1" ∷ "static:300" ∷ "gpu=TRUE" ∷ []) ∷ []))
    ≡ "gpu"
unfolding load_nodes fixed
nodes_run = refl

abbrev workload_class_of : Option (List (Workload Fixed)) → String
workload_class_of none = ""
workload_class_of (some []) = ""
workload_class_of (some (w ∷ _)) = w.class

workloads_run :
    workload_class_of
      (load_workloads conversions ("id" ∷ "gpu_count" ∷ []) (ok ("j1" ∷ "1" ∷ []) ∷ []))
    ≡ "gpu"
unfolding load_workloads fixed
workloads_run = refl

-- A product of 2 ^ 63 nanoseconds is the least duration.
wrap_runs : wrap_int64 (pos (2 ^ 63)) ≡ negsuc (2 ^ 63 - 1)
unfolding wrap_int64
wrap_runs = refl

wrap_negative : wrap_int64 (negsuc 4) ≡ negsuc 4
unfolding wrap_int64
wrap_negative = refl
