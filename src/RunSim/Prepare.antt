-- ===== src/RunSim/Prepare.antt =====
-- run_sim.go: workloads and nodes before a run.
use eco_kube.Prelude.{
  ℕ, suc, ◌%◌, not, none, some, List, [], ◌∷◌, map, String, length, get_elem?, keep_if,
  if◌then◌else◌,
}
use eco_kube.Prelude.Text.{StringMap, equal_fold, remove}
use eco_kube.Prelude.Float.{Float64, eq, one, ◌⊗◌}
use eco_kube.Core.Types.{Duration, Workload, Site, SimulatedNode}

-- The labels but for the preferred site, in any case of its letters.
unfoldable pub scrub_labels : StringMap String → StringMap String
unfolding keep_if equal_fold
scrub_labels = keep_if λ e. not (equal_fold (e.0) "preferred_site")

module _ {F : Type 0} where
  unfoldable pub scrub_workload : Workload F → Workload F
  unfolding scrub_labels
  scrub_workload w = record w { labels = scrub_labels w.labels }

  unfoldable pub scrub_preferred_site : List (Workload F) → List (Workload F)
  unfolding scrub_workload
  scrub_preferred_site workloads = map scrub_workload workloads

  -- From the i-th workload on, with the overriding durations in turn.
  unfoldable pub override_from : List Duration → ℕ → List (Workload F) → List (Workload F)
  override_from all i [] = []
  override_from all i (w ∷ ws) =
      let rest = override_from all (suc i) ws in
      elim (get_elem? all (i % length all)) [
        | none ↦ w ∷ rest
        | some t ↦ record w { duration = t } ∷ rest
      ]

  unfoldable pub override_durations : List Duration → List (Workload F) → List (Workload F)
  unfolding override_from
  override_durations [] workloads = workloads
  override_durations (t ∷ ts) workloads = override_from (t ∷ ts) 0 workloads

module _ {F : Type 0} ⦃d : Float64 F⦄ where
  abbrev scaled : F → Workload F → Workload F
  scaled scale w = record w { duration = d.to_int (d.of_int w.duration ⊗ scale) }

  unfoldable pub scale_durations : F → List (Workload F) → List (Workload F)
  scale_durations scale workloads = if eq scale one then workloads else map (scaled scale) workloads

  abbrev pub neutral_site : Site F
  neutral_site = record {
    id = "NEUTRAL";
    pue = d.dec 118 2;
    k = d.dec 102 2;
    ci_region = "neutral";
    carbon_intensity = d.dec 300 0;
  }

  unfoldable pub neutralise_site : SimulatedNode F → SimulatedNode F
  unfolding remove
  neutralise_site n = record n {
    site = some neutral_site;
    site_id = neutral_site.id;
    carbon_intensity = neutral_site.carbon_intensity;
    metadata = remove n.metadata "ci_profile";
    labels = remove n.labels "ci_profile";
  }

  unfoldable pub neutralise_sites : List (SimulatedNode F) → List (SimulatedNode F)
  unfolding neutralise_site
  neutralise_sites nodes = map neutralise_site nodes
