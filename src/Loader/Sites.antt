-- ===== src/Loader/Sites.antt =====
-- sites.go: the sites of a cluster, within bounds, and the nodes at them.
use eco_kube.Prelude.{Option, none, some, List, [], ◌∷◌, map, String, if◌then◌else◌}
use eco_kube.Prelude.Text.{StringMap, put, entry, str_eq}
use eco_kube.Prelude.Float.{Float64, lt, nought}
use eco_kube.Core.Types.{Site, SimulatedNode}
use eco_kube.Loader.Csv.{Conversions}

module _ {F : Type 0} ⦃d : Float64 F⦄ where
  abbrev pub min_pue : F
  min_pue = d.dec 85 2

  abbrev pub max_pue : F
  max_pue = d.dec 15 1

  abbrev pub min_k : F
  min_k = d.dec 6 1

  abbrev pub max_k : F
  max_k = d.dec 13 1

  unfoldable pub clamp_site : F → F → F → F
  clamp_site v min max = if lt v min then min else if lt max v then max else v

  -- A row of fewer than four fields is an index out of range.
  unfoldable pub site_row : Conversions F → List String → Option (Site F)
  unfolding clamp_site
  site_row conv (id ∷ pue ∷ k ∷ region ∷ _) = some (record {
    id = id;
    pue = clamp_site (conv.float_value pue) min_pue max_pue;
    k = clamp_site (conv.float_value k) min_k max_k;
    ci_region = region;
    carbon_intensity = nought;
  })
  site_row conv _ = none

  unfoldable pub put_sites :
      Conversions F → List (List String) → StringMap (Site F) → Option (StringMap (Site F))
  unfolding site_row put
  put_sites conv [] sites = some sites
  put_sites conv (row ∷ rows) sites = elim (site_row conv row) [
    | none ↦ none
    | some s ↦ put_sites conv rows (put sites s.id s)
  ]

  -- Of all the rows but the header; `ReadAll` returns none where it fails.
  unfoldable pub load_sites : Conversions F → List (List String) → Option (StringMap (Site F))
  unfolding put_sites
  load_sites conv [] = some []
  load_sites conv (_ ∷ rows) = put_sites conv rows []

  unfoldable pub attach_site : StringMap (Site F) → SimulatedNode F → SimulatedNode F
  unfolding entry
  attach_site sites n = elim n.site [
    | some _ ↦ n
    | none ↦
        if str_eq n.site_id ""
        then n
        else elim (entry sites n.site_id) [ none ↦ n | some s ↦ record (n) { site = some s } ]
  ]

  unfoldable pub attach_sites : List (SimulatedNode F) → StringMap (Site F) → List (SimulatedNode F)
  unfolding attach_site
  attach_sites nodes sites = map (attach_site sites) nodes
