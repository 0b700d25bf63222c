-- ===== src/Core/Node/Capacity.antt =====
-- What admission, reservation and release guarantee about a node's capacity.
use eco_kube.Prelude.{
  ◌≡◌, true, false, List, [], ◌∷◌, ◌++◌, arith, All, All-append, Bool-cases, inl, inr,
}
use eco_kube.Prelude.Float.{Float64, IsRounded, lt, le, nought, min, ◌⊕◌, ◌⊖◌}
use eco_kube.Core.Types.{Time, after, Workload, Reservation, SimulatedNode}
use eco_kube.Core.Node.{can_accept, reserve, release, release_loop}

module _ {F : Type 0} ⦃d : Float64 F⦄ where
  -- A finite amount that is not negative.
  abbrev pub IsAmount : F → Type 0
  IsAmount x = (le nought x ≡ true) × (lt x d.inf ≡ true)

  pub record IsWithin (free total : F) : Type 0 where
    pub nonneg : le nought free ≡ true
    pub bounded : le free total ≡ true
    pub finite : lt total d.inf ≡ true

  -- The free capacity of the node lies between 0 and its total.
  pub record IsSound (n : SimulatedNode F) : Type 0 where
    pub cpu_within : IsWithin n.available_cpu n.total_cpu
    pub memory_within : IsWithin n.available_memory n.total_memory
    pub amounts : All (λ r. IsAmount r.cpu × IsAmount r.mem) n.reservations

  module _ (laws : IsRounded F) where
    open laws use {neg_inf_lt, lt_inf, sub_nonneg, sub_le, le_add}

    take-IsWithin :
        (free total x : F)
        → IsWithin free total
        → IsAmount x
        → lt free x ≡ false
        → IsWithin (free ⊖ x) total
    take-IsWithin free total x w a h = ground (arith, neg_inf_lt, sub_nonneg free x, sub_le free x)

    give-IsWithin :
        (free total x : F)
        → IsWithin free total
        → IsAmount x
        → IsWithin (min (free ⊕ x) total) total
    give-IsWithin free total x w a = ground (arith, neg_inf_lt, lt_inf, le_add free x)

    -- Where rounding keeps to `IsRounded`: on a sound node, reserving for an accepted workload of
    -- finite non-negative size keeps the free capacity between 0 and the total.
    pub reserve-IsSound :
        (n : SimulatedNode F) (w : Workload F) (start : Time)
        → IsSound n
        → IsAmount w.cpu
        → IsAmount w.memory
        → can_accept n w ≡ true
        → IsSound (reserve n w start)
    unfolding can_accept reserve
    reserve-IsSound n w start s c m h = record {
      cpu_within = take-IsWithin n.available_cpu n.total_cpu w.cpu s.cpu_within c (ground arith);
      memory_within =
          take-IsWithin n.available_memory n.total_memory w.memory s.memory_within m (ground arith);
      amounts = All-append _ n.reservations _ s.amounts ((c, m), tt);
    }

    release_loop-IsSound :
        (t : Time) (rs out : List (Reservation F)) (n : SimulatedNode F)
        → IsWithin n.available_cpu n.total_cpu
        → IsWithin n.available_memory n.total_memory
        → All (λ r. IsAmount r.cpu × IsAmount r.mem) rs
        → All (λ r. IsAmount r.cpu × IsAmount r.mem) out
        → IsSound (release_loop t rs out n)
    unfolding release_loop
    release_loop-IsSound t [] out n c m a o = record {
      cpu_within = c;
      memory_within = m;
      amounts = o;
    }
    release_loop-IsSound t (r ∷ rs) out n c m a o = elim (Bool-cases (after r.end t)) [
      | inl later ↦ rw later (
          release_loop-IsSound t rs (out ++ (r ∷ [])) n c m a.1
            (All-append _ out (r ∷ []) o (a.0, tt)))
      | inr ended ↦ rw ended (
          release_loop-IsSound t rs out _ (give-IsWithin n.available_cpu n.total_cpu r.cpu c a.0.0)
            (give-IsWithin n.available_memory n.total_memory r.mem m a.0.1) a.1 o)
    ]

    pub release-IsSound : (n : SimulatedNode F) (t : Time) → IsSound n → IsSound (release n t)
    unfolding release
    release-IsSound n t s =
        release_loop-IsSound t n.reservations [] n s.cpu_within s.memory_within s.amounts tt
