-- ===== src/Core/Strategy/Dispatch.antt =====
-- CentralUnit.go: DispatchAll, which runs every strategy over the workloads in turn.
use eco_kube.Prelude.{ℕ, Option, none, some, List, [], ◌∷◌, ◌++◌, String, length}
use eco_kube.Prelude.Float.{Float64}
use eco_kube.Core.Types.{Time}
use eco_kube.Core.Strategy.{
  WorkloadTestbed, Cluster, SchedulingDecision, fcfs, round_robin, min_min, max_min, energy_aware,
  ci_aware, decision,
}

-- The strategies, of which RoundRobin keeps a counter.
pub data Strategy : Type 0 where
  is_fcfs : Strategy
  is_round_robin : Strategy
  is_min_min : Strategy
  is_max_min : Strategy
  is_energy_aware : Strategy
  is_ci_aware : Strategy

-- `allStrategies`
abbrev pub all_strategies : List Strategy
all_strategies =
    is_fcfs ∷ is_round_robin ∷ is_min_min ∷ is_max_min ∷ is_energy_aware ∷ is_ci_aware ∷ []

-- `reflect.TypeOf(strategy).Name()`: a pointer type has no name.
abbrev pub strategy_name : Strategy → String
strategy_name s = ""

-- The counter of RoundRobin, and the decision log.
pub record Log (F : Type 0) : Type 0 where
  pub counter : ℕ
  pub decisions : List (SchedulingDecision F)

module _ {F : Type 0} ⦃d : Float64 F⦄ where
  unfoldable pub select_cluster :
      Strategy → ℕ → List (Cluster F) → WorkloadTestbed F → Option (Cluster F) × ℕ
  unfolding fcfs round_robin min_min max_min energy_aware ci_aware
  select_cluster is_fcfs counter clusters w = (fcfs clusters w, counter)
  select_cluster is_round_robin counter clusters w = round_robin counter clusters w
  select_cluster is_min_min counter clusters w = (min_min clusters w, counter)
  select_cluster is_max_min counter clusters w = (max_min clusters w, counter)
  select_cluster is_energy_aware counter clusters w = (energy_aware clusters w, counter)
  select_cluster is_ci_aware counter clusters w = (ci_aware clusters w, counter)

  -- `now` tells when the n-th decision is made.
  unfoldable pub dispatch_one :
      (ℕ → Time) → Strategy → List (Cluster F) → Log F → WorkloadTestbed F → Log F
  unfolding select_cluster
  dispatch_one now s clusters log w =
      let (selected, counter) = select_cluster s log.counter clusters w in
      elim selected [
        | none ↦ record log { counter = counter }
        | some c ↦ record {
          counter = counter;
          decisions =
              log.decisions ++ (decision (strategy_name s) (now (length log.decisions)) w c ∷ []);
        }
      ]

  unfoldable pub dispatch_with :
      (ℕ → Time) → Strategy → List (Cluster F) → Log F → List (WorkloadTestbed F) → Log F
  unfolding dispatch_one
  dispatch_with now s clusters log [] = log
  dispatch_with now s clusters log (w ∷ ws) =
      dispatch_with now s clusters (dispatch_one now s clusters log w) ws

  unfoldable pub dispatch_each :
      (ℕ → Time) → List Strategy → List (Cluster F) → List (WorkloadTestbed F) → Log F → Log F
  unfolding dispatch_with
  dispatch_each now [] clusters ws log = log
  dispatch_each now (s ∷ ss) clusters ws log =
      dispatch_each now ss clusters ws (dispatch_with now s clusters log ws)

  unfoldable pub dispatch_all :
      (ℕ → Time) → List (Cluster F) → List (WorkloadTestbed F) → Log F → Log F
  unfolding dispatch_each
  dispatch_all now clusters ws log = dispatch_each now all_strategies clusters ws log
