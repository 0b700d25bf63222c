-- ===== src/Core/Strategy/Cheapest.antt =====
-- SchedulingStrategy.go: the cluster that MinMin selects.
use eco_kube.Prelude.{
  ◌≡◌, refl, ap, sym, subst, Bool, true, false, ◌&&◌, none, some, List, [], ◌∷◌, inl, inr, All,
  arith, Bool-cases,
}
use mathlib.Core.Option.{some-injective}
use eco_kube.Prelude.Float.{Float64, lt, is_num}
use eco_kube.Core.Strategy.{Cluster, WorkloadTestbed, Leader, lead, lead_all, ceiling, min_min}

untaken : (a b : Bool) → (a ≡ true → b ≡ false) → (a && b) ≡ false
untaken a b h = ground arith

accepted : (a b : Bool) → (a && b) ≡ true → a ≡ true
accepted a b h = ground arith

module _ {F : Type 0} ⦃d : Float64 F⦄ where
  -- No cluster that accepts the workload costs less than `cost`.
  abbrev pub NoneBelow : WorkloadTestbed F → F → List (Cluster F) → Type 0
  NoneBelow w cost cs =
      All (λ c. c.can_accept w ≡ true → lt (c.estimate_energy_cost w) cost ≡ false) cs

  lead_num :
      (w : WorkloadTestbed F) (s : Leader F) (c : Cluster F)
      → is_num s.cost ≡ true
      → is_num (lead lt w s c).cost ≡ true
  unfolding lead
  lead_num w s c h = ground arith

  lead_below :
      (w : WorkloadTestbed F) (s : Leader F) (c : Cluster F) (x : F)
      → is_num s.cost ≡ true
      → lt (lead lt w s c).cost x ≡ false
      → (lt s.cost x ≡ false) × (c.can_accept w ≡ true → lt (c.estimate_energy_cost w) x ≡ false)
  unfolding lead
  lead_below w s c x n h = ground arith

  lead_all-NoneBelow :
      (w : WorkloadTestbed F) (s : Leader F) (cs : List (Cluster F))
      → is_num s.cost ≡ true
      → (lt s.cost (lead_all lt w s cs).cost ≡ false) × NoneBelow w (lead_all lt w s cs).cost cs
  unfolding lead_all
  lead_all-NoneBelow w s [] n = (ground arith, tt)
  lead_all-NoneBelow w s (c ∷ cs) n =
      let (l, rest) = lead_all-NoneBelow w (lead lt w s c) cs (lead_num w s c n) in
      let (below, own) = lead_below w s c (lead_all lt w (lead lt w s c) cs).cost n l in
      (below, (own, rest))

  -- The leader's cost is its own, and it accepts the workload.
  IsLed : WorkloadTestbed F → Leader F → Type 0
  IsLed w s =
      (c : Cluster F)
      → s.best ≡ some c
      → (c.can_accept w ≡ true) × (c.estimate_energy_cost w ≡ s.cost)

  taken :
      (w : WorkloadTestbed F) (c : Cluster F)
      → c.can_accept w ≡ true
      → IsLed w (record { best = some c; cost = c.estimate_energy_cost w })
  unfolding IsLed
  taken w c a x e =
      subst (λ y. (y.can_accept w ≡ true) × (y.estimate_energy_cost w ≡ c.estimate_energy_cost w))
        (some-injective _ _ e) (a, refl)

  lead-IsLed :
      (w : WorkloadTestbed F) (s : Leader F) (c : Cluster F) → IsLed w s → IsLed w (lead lt w s c)
  unfolding lead
  lead-IsLed w s c h = elim (Bool-cases (c.can_accept w && lt (c.estimate_energy_cost w) s.cost)) [
    | inl e ↦ rw (e, lead) (taken w c (accepted _ _ e))
    | inr e ↦ rw (e, lead) h
  ]

  lead_all-IsLed :
      (w : WorkloadTestbed F) (s : Leader F) (cs : List (Cluster F))
      → IsLed w s
      → IsLed w (lead_all lt w s cs)
  unfolding lead_all
  lead_all-IsLed w s [] h = h
  lead_all-IsLed w s (c ∷ cs) h = lead_all-IsLed w (lead lt w s c) cs (lead-IsLed w s c h)

  abbrev nobody : Leader F
  nobody = record { best = none; cost = ceiling }

  -- MinMin selects a cluster that accepts the workload, and none that accepts it costs less, where
  -- the bound of a billion is a number.
  pub min_min-NoneBelow :
      (clusters : List (Cluster F)) (w : WorkloadTestbed F) (c : Cluster F)
      → is_num {F = F} ceiling ≡ true
      → min_min clusters w ≡ some c
      → (c.can_accept w ≡ true) × NoneBelow w (c.estimate_energy_cost w) clusters
  unfolding min_min IsLed
  min_min-NoneBelow clusters w c n e =
      let (a, cost) = lead_all-IsLed w nobody clusters (λ x q. absurd (cc q)) c e in
      (a, subst (λ x. NoneBelow w x clusters) (sym cost) (lead_all-NoneBelow w nobody clusters n).1)

  lead_all-nobody :
      (w : WorkloadTestbed F) (cs : List (Cluster F))
      → NoneBelow w ceiling cs
      → lead_all lt w nobody cs ≡ nobody
  unfolding lead_all lead
  lead_all-nobody w [] h = refl
  lead_all-nobody w (c ∷ cs) (p, h) = rw (untaken (c.can_accept w) _ p) (lead_all-nobody w cs h)

  -- Where every cluster that accepts the workload costs a billion or more, MinMin selects none.
  pub min_min-none :
      (clusters : List (Cluster F)) (w : WorkloadTestbed F)
      → NoneBelow w ceiling clusters
      → min_min clusters w ≡ none
  unfolding min_min
  min_min-none clusters w h = ap (λ s. s.best) (lead_all-nobody w clusters h)
