-- ===== src/Core/Strategy.antt =====
-- hetsched/pkg/core: SchedulingStrategy.go, SimulatedCluster.go and CentralUnit.go. A cluster is what
-- its interface answers; `metric` is the CPU usage that a remote cluster reports, over HTTP. The
-- texts of the reasons are left out.
pub mod Cheapest
pub mod Turns
pub mod Dispatch
pub mod Remote
mod Samples
use eco_kube.Prelude.{
  ℕ, zero, suc, ◌+◌, ◌%◌, Bool, true, false, ◌&&◌, Option, none, some, List, [], ◌∷◌, ◌++◌, String,
  Result, ok, err, length, get_elem?, if◌then◌else◌,
}
use eco_kube.Prelude.Int.{ℤ, leb_ℤ}
use eco_kube.Prelude.Float.{Float64, lt, le, nought, one, ◌⊕◌, ◌⊗◌, ◌⊘◌}
use eco_kube.Core.Types.{Time}

pub record WorkloadTestbed (F : Type 0) : Type 0 where
  pub id : String
  pub cpu_requirement : ℤ
  pub energy_priority : F

pub record Cluster (F : Type 0) : Type 0 where
  pub name : String
  pub can_accept : WorkloadTestbed F → Bool
  pub estimate_energy_cost : WorkloadTestbed F → F
  pub carbon_intensity : F
  pub metric : Option (Result F)

pub record SimulatedCluster (F : Type 0) : Type 0 where
  pub cluster_name : String
  pub max_cpu : ℤ
  pub energy_bias : F
  pub sci_kwh : F

-- The best cluster of a loop so far.
pub record Leader (F : Type 0) : Type 0 where
  pub best : Option (Cluster F)
  pub cost : F

pub record SchedulingDecision (F : Type 0) : Type 0 where
  pub workload_id : String
  pub strategy_name : String
  pub selected_cluster : String
  pub estimated_cost : F
  pub sci_kwh : F
  pub timestamp : Time

module _ {F : Type 0} ⦃d : Float64 F⦄ where
  unfoldable pub simulated : SimulatedCluster F → Cluster F
  simulated c = record {
    name = c.cluster_name;
    can_accept = λ w. leb_ℤ w.cpu_requirement c.max_cpu;
    estimate_energy_cost = λ w. d.of_int w.cpu_requirement ⊗ c.energy_bias;
    carbon_intensity = c.sci_kwh;
    metric = none;
  }

  unfoldable pub fcfs : List (Cluster F) → WorkloadTestbed F → Option (Cluster F)
  fcfs [] w = none
  fcfs (c ∷ cs) w = let rest = fcfs cs w in if c.can_accept w then some c else rest

  -- The loop of RoundRobin from step `i` on, with `left` steps to go.
  unfoldable pub round_robin_loop :
      List (Cluster F) → ℕ → WorkloadTestbed F → ℕ → ℕ → Option (Cluster F)
  round_robin_loop clusters counter w zero i = none
  round_robin_loop clusters counter w (suc left) i =
      let rest = round_robin_loop clusters counter w left (suc i) in
      elim (get_elem? clusters ((counter + i) % length clusters)) [
        | none ↦ none
        | some c ↦ if c.can_accept w then some c else rest
      ]

  -- The cluster and the new counter.
  unfoldable pub round_robin : ℕ → List (Cluster F) → WorkloadTestbed F → Option (Cluster F) × ℕ
  unfolding round_robin_loop
  round_robin counter clusters w = elim (round_robin_loop clusters counter w (length clusters) 0) [
    | none ↦ (none, counter)
    | some c ↦ (some c, (counter + 1) % length clusters)
  ]

  -- `better a b`: the cost a takes over from b.
  unfoldable pub lead : (F → F → Bool) → WorkloadTestbed F → Leader F → Cluster F → Leader F
  lead better w s c =
      if c.can_accept w && better (c.estimate_energy_cost w) s.cost
      then record { best = some c; cost = c.estimate_energy_cost w }
      else s

  unfoldable pub lead_all :
      (F → F → Bool) → WorkloadTestbed F → Leader F → List (Cluster F) → Leader F
  unfolding lead
  lead_all better w s [] = s
  lead_all better w s (c ∷ cs) = lead_all better w (lead better w s c) cs

  abbrev pub ceiling : F
  ceiling = d.dec 1_000_000_000 0

  unfoldable pub min_min : List (Cluster F) → WorkloadTestbed F → Option (Cluster F)
  unfolding lead_all
  min_min clusters w = (lead_all lt w (record { best = none; cost = ceiling }) clusters).best

  unfoldable pub max_min : List (Cluster F) → WorkloadTestbed F → Option (Cluster F)
  unfolding lead_all
  max_min clusters w =
      (lead_all (λ a b. lt b a) w (record { best = none; cost = d.sub nought one }) clusters).best

  -- The loop is written differently from that of MinMin and does the same.
  unfoldable pub energy_aware : List (Cluster F) → WorkloadTestbed F → Option (Cluster F)
  unfolding lead_all
  energy_aware clusters w = (lead_all lt w (record { best = none; cost = ceiling }) clusters).best

  -- The score of a remote cluster at a CPU usage in percent.
  unfoldable pub ci_aware_score : F → F → F
  ci_aware_score cpu ci =
      let share = cpu ⊘ d.dec 1000 1 in
      let used = if le share nought then d.dec 1 2 else share in
      let penalty = one ⊘ (d.pow used (d.dec 7 1) ⊗ d.pow (d.dec 100 1) (d.dec 3 1)) in
      let energy = d.dec 1500 1 ⊗ d.dec 100 1 ⊘ d.dec 36000 1 in
      let carbon = energy ⊗ ci ⊘ d.dec 10000 1 in
      one ⊗ carbon
      ⊕ d.dec 5 1 ⊗ d.dec 18 2
      ⊕ d.dec 3 1 ⊗ d.dec 50 1
      ⊕ d.dec 7 1 ⊗ penalty
      ⊕ d.dec 1 1 ⊗ d.dec 100 1

  unfoldable pub ci_lead : WorkloadTestbed F → Leader F → Cluster F → Leader F
  unfolding ci_aware_score
  ci_lead w s c = elim c.metric [
    | none ↦ s
    | some (err _) ↦ s
    | some (ok cpu) ↦
        let score = ci_aware_score cpu c.carbon_intensity in
        if c.can_accept w && lt score s.cost then record { best = some c; cost = score } else s
  ]

  unfoldable pub ci_lead_all : WorkloadTestbed F → Leader F → List (Cluster F) → Leader F
  unfolding ci_lead
  ci_lead_all w s [] = s
  ci_lead_all w s (c ∷ cs) = ci_lead_all w (ci_lead w s c) cs

  unfoldable pub ci_aware : List (Cluster F) → WorkloadTestbed F → Option (Cluster F)
  unfolding ci_lead_all
  ci_aware clusters w = (ci_lead_all w (record { best = none; cost = ceiling }) clusters).best

  abbrev pub decision : String → Time → WorkloadTestbed F → Cluster F → SchedulingDecision F
  decision strategy now w c = record {
    workload_id = w.id;
    strategy_name = strategy;
    selected_cluster = c.name;
    estimated_cost = c.estimate_energy_cost w;
    sci_kwh = c.carbon_intensity;
    timestamp = now;
  }

  -- `Dispatch` for a strategy without state; `now` tells when the n-th decision is made.
  unfoldable pub dispatch :
      String
      → (List (Cluster F) → WorkloadTestbed F → Option (Cluster F))
      → (ℕ → Time)
      → List (Cluster F)
      → List (WorkloadTestbed F)
      → List (SchedulingDecision F)
      → List (SchedulingDecision F)
  dispatch name select now clusters [] log = log
  dispatch name select now clusters (w ∷ ws) log = elim (select clusters w) [
    | none ↦ dispatch name select now clusters ws log
    | some c ↦
        dispatch name select now clusters ws (log ++ (decision name (now (length log)) w c ∷ []))
  ]
