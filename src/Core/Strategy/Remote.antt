-- ===== src/Core/Strategy/Remote.antt =====
-- RemoteCluster.go: the cluster that answers over HTTP. What `http.Get` and the scanner of the body
-- give, the lines or an error, is a parameter; the posting of a job is not modelled.
use eco_kube.Prelude.{
  Bool, false, none, some, List, [], ◌∷◌, String, Result, ok, err, if◌then◌else◌,
}
use eco_kube.Prelude.Strings.{fields, has_prefix}
use eco_kube.Prelude.Float.{Float64, lt}
use eco_kube.Core.Strategy.{Cluster}

pub record RemoteCluster : Type 0 where
  pub name_key : String
  pub metrics_url : String
  pub submit_url : String

module _ {F : Type 0} ⦃d : Float64 F⦄ where
  abbrev parse_result : String → Result F
  parse_result s = elim (d.parse s) [ none ↦ err "strconv.ParseFloat" | some v ↦ ok v ]

  -- The value of a line of two fields, or what the later lines give.
  abbrev value_or : Result F → List String → Result F
  value_or rest (_ ∷ value ∷ []) = parse_result value
  value_or rest _ = rest

  unfoldable pub scan_metric : String → List String → Result F
  unfolding fields has_prefix
  scan_metric metric_name [] = err "metric not found"
  scan_metric metric_name (line ∷ lines) =
      let rest = scan_metric metric_name lines in
      if has_prefix line metric_name then value_or rest (fields line) else rest

  unfoldable pub get_metric_value : Result (List String) → String → Result F
  unfolding scan_metric
  get_metric_value (err e) metric_name = err e
  get_metric_value (ok lines) metric_name = scan_metric metric_name lines

  abbrev below_limit : Result F → Bool
  below_limit (err e) = false
  below_limit (ok cpu) = lt cpu (d.dec 90 0)

  -- The cluster, while its answer is `body`.
  unfoldable pub remote : RemoteCluster → Result (List String) → Cluster F
  unfolding get_metric_value
  remote c body =
      let cpu = get_metric_value body "compute_node_cpu_usage" in
      record {
        name = c.name_key;
        can_accept = λ w. below_limit cpu;
        estimate_energy_cost = λ w. d.of_int w.cpu_requirement;
        carbon_intensity = d.dec 300 0;
        metric = some cpu;
      }
