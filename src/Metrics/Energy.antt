-- ===== src/Metrics/Energy.antt =====
-- cicost.go: the energy and the carbon of a workload on a node.
use eco_kube.Prelude.{Option, none, some, if◌then◌else◌}
use eco_kube.Prelude.Int.{pos, leb_ℤ}
use eco_kube.Prelude.Text.{index, str_eq}
use eco_kube.Prelude.Float.{Float64, lt, le, nought, one, max, ◌⊕◌, ◌⊖◌, ◌⊗◌, ◌⊘◌}
use eco_kube.Core.Types.{Time, second, hours, Workload, SimulatedNode}
use eco_kube.Metrics.{parse_float}
use eco_kube.Metrics.Wattnet.{Table}
use eco_kube.Metrics.Intensity.{current_ci}

module _ {F : Type 0} ⦃d : Float64 F⦄ where
  -- `x` within 0 and 1, as the two tests of the code leave it.
  abbrev pub unit_clamp : F → F
  unit_clamp x = if lt x nought then nought else if lt one x then one else x

  abbrev known_ci : SimulatedNode F → F → F
  known_ci n ci =
      let own = if lt nought n.carbon_intensity then n.carbon_intensity else d.dec 400 0 in
      if le ci nought
      then elim n.site [
        | none ↦ own
        | some s ↦ if lt nought s.carbon_intensity then s.carbon_intensity else own
      ]
      else ci

  unfoldable pub peak_power : SimulatedNode F → F
  unfolding index parse_float
  peak_power n =
      let peak = parse_float (index n.metadata "peak_power_w") (d.dec 400 0) in
      let v = index n.labels "peak_power_w" in if str_eq v "" then peak else parse_float v peak

  abbrev idle_fraction : SimulatedNode F → F
  idle_fraction n = unit_clamp (parse_float (index n.metadata "idle_power_fraction") (d.dec 2 1))

  unfoldable pub cpu_fraction : SimulatedNode F → Workload F → F
  cpu_fraction n w =
      let frac = unit_clamp (if lt nought n.total_cpu then w.cpu ⊘ n.total_cpu else nought) in
      if lt nought frac then d.pow frac (d.dec 8 1) else frac

  unfoldable pub power : SimulatedNode F → Workload F → F
  unfolding peak_power cpu_fraction index parse_float
  power n w =
      let peak = peak_power n in
      let idle = peak ⊗ idle_fraction n in idle ⊕ cpu_fraction n w ⊗ max (peak ⊖ idle) nought

  unfoldable pub energy_kwh : SimulatedNode F → Workload F → F
  unfolding power
  energy_kwh n w =
      let dur = if leb_ℤ w.duration (pos 0) then pos second else w.duration in
      let energy = power n w ⊘ d.dec 1000 0 ⊗ hours dur in
      elim n.site [ none ↦ energy | some s ↦ if lt nought s.k then energy ⊗ s.k else energy ]

  abbrev pue_of : SimulatedNode F → F
  pue_of n = elim n.site [ none ↦ one | some s ↦ if lt nought s.pue then s.pue else one ]

  unfoldable pub compute_energy_and_carbon :
      Table F → SimulatedNode F → Workload F → Time → Option (F × F)
  unfolding energy_kwh current_ci
  compute_energy_and_carbon table n w at = elim (current_ci table n at) [
    | none ↦ none
    | some ci ↦
        let energy = energy_kwh n w in
        some (energy, energy ⊗ pue_of n ⊗ (known_ci n ci ⊘ d.dec 1000 0))
  ]

  unfoldable pub compute_ci_cost : Table F → SimulatedNode F → Workload F → Time → Option F
  unfolding compute_energy_and_carbon
  compute_ci_cost table n w at = elim (compute_energy_and_carbon table n w at) [
    | none ↦ none
    | some (_, carbon) ↦ some (carbon ⊗ d.dec 1000 0)
  ]
