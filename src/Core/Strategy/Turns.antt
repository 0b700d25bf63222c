-- ===== src/Core/Strategy/Turns.antt =====
-- SchedulingStrategy.go: the cluster that RoundRobin selects.
use eco_kube.Prelude.{
  ℕ, zero, suc, ◌+◌, ◌-◌, ◌%◌, ◌≤◌, ◌<◌, ◌≡◌, refl, ap, sym, ◌∙◌, true, false, some, List, inl, inr,
  ◌⊎◌, length, get_elem?, get_elem?_of_lt, get_elem?_bound, arith, Bool-cases,
}
use mathlib.Core.Option.{some-injective}
use native.Mathlib.Nat.{mod-lt, mod-eq_of_lt, mod-add-mod, add-mod_left}
use eco_kube.Prelude.Float.{Float64}
use eco_kube.Core.Strategy.{Cluster, WorkloadTestbed, round_robin, round_robin_loop}

-- A turn that comes to place `j`.
turn_to : (n counter j : ℕ) → j < n → (m : ℕ) × (m < n) × ((counter + m) % n ≡ j)
turn_to n counter j h =
    let r = counter % n in
    let b : r < n = mod-lt counter (omega arith) in
    let wrap : (m : ℕ) → (r + m) % n ≡ j → (counter + m) % n ≡ j =
      λ m e. sym (mod-add-mod counter n m) ∙ e in
    let split : (r ≤ j) ⊎ (j < r) = omega arith in
    elim split [
      | inl l ↦ (j - r, omega arith, wrap (j - r) (ap (λ k. k % n) (omega arith) ∙ mod-eq_of_lt h))
      | inr l ↦ (
        n + j - r,
        omega arith,
        wrap (n + j - r) (ap (λ k. k % n) (omega arith) ∙ add-mod_left n j ∙ mod-eq_of_lt h),
      )
    ]

module _ {F : Type 0} ⦃d : Float64 F⦄ where
  loop_taken :
      (clusters : List (Cluster F)) (counter : ℕ) (w : WorkloadTestbed F) (left i : ℕ)
      (x : Cluster F)
      → get_elem? clusters ((counter + i) % length clusters) ≡ some x
      → x.can_accept w ≡ true
      → round_robin_loop clusters counter w (suc left) i ≡ some x
  unfolding round_robin_loop
  loop_taken clusters counter w left i x at taken = rw (at, taken, round_robin_loop) refl

  loop_passes :
      (clusters : List (Cluster F)) (counter : ℕ) (w : WorkloadTestbed F) (left i : ℕ)
      (x y : Cluster F)
      → get_elem? clusters ((counter + i) % length clusters) ≡ some x
      → x.can_accept w ≡ false
      → round_robin_loop clusters counter w left (suc i) ≡ some y
      → round_robin_loop clusters counter w (suc left) i ≡ some y
  unfolding round_robin_loop
  loop_passes clusters counter w left i x y at refused found =
      rw (at, refused, round_robin_loop) found

  loop_stops :
      (clusters : List (Cluster F)) (counter : ℕ) (w : WorkloadTestbed F) (left i k : ℕ)
      (c : Cluster F)
      → i ≤ k
      → k < i + left
      → 0 < length clusters
      → get_elem? clusters ((counter + k) % length clusters) ≡ some c
      → c.can_accept w ≡ true
      → (x : Cluster F) × (round_robin_loop clusters counter w left i ≡ some x)
        × (x.can_accept w ≡ true)
  loop_stops clusters counter w zero i k c l u pos e a = absurd (omega arith)
  loop_stops clusters counter w (suc left) i k c l u pos e a =
      let (x, at) =
        get_elem?_of_lt clusters ((counter + i) % length clusters) (mod-lt (counter + i) pos) in
      let split : (k ≡ i) ⊎ (suc i ≤ k) = omega arith in
      elim (Bool-cases (x.can_accept w)) [
        | inl taken ↦ (x, loop_taken clusters counter w left i x at taken, taken)
        | inr refused ↦ elim split [
          | inl here ↦
              let same : c ≡ x = some-injective _ _ (
                sym e ∙ ap (λ j. get_elem? clusters ((counter + j) % length clusters)) here ∙ at) in
              absurd (ground (arith, sym a ∙ ap (λ y. y.can_accept w) same ∙ refused))
          | inr later ↦
              let (y, found, ok) =
                loop_stops clusters counter w left (suc i) k c later (omega arith) pos e a in
              (y, loop_passes clusters counter w left i x y at refused found, ok)
        ]
      ]

  selected :
      (counter : ℕ) (clusters : List (Cluster F)) (w : WorkloadTestbed F) (x : Cluster F)
      → round_robin_loop clusters counter w (length clusters) 0 ≡ some x
      → round_robin counter clusters w ≡ (some x, (counter + 1) % length clusters)
  unfolding round_robin
  selected counter clusters w x e = rw (e, round_robin) refl

  -- Where some cluster accepts the workload, whatever the counter is, RoundRobin selects a cluster
  -- that accepts it, and leaves a counter that is a place in the list.
  pub round_robin-Accepts :
      (counter : ℕ) (clusters : List (Cluster F)) (w : WorkloadTestbed F) (j : ℕ) (c : Cluster F)
      → get_elem? clusters j ≡ some c
      → c.can_accept w ≡ true
      → (x : Cluster F) × (next : ℕ) × (round_robin counter clusters w ≡ (some x, next))
        × (x.can_accept w ≡ true)
        × (next < length clusters)
  round_robin-Accepts counter clusters w j c e a =
      let b = get_elem?_bound clusters j c e in
      let (m, under, lands) = turn_to (length clusters) counter j b in
      let (x, found, ok) =
        loop_stops clusters counter w (length clusters) 0 m c (omega arith) (omega arith)
          (omega arith) (ap (get_elem? clusters) lands ∙ e) a in
      (
        x,
        (counter + 1) % length clusters,
        selected counter clusters w x found,
        ok,
        mod-lt (counter + 1) (omega arith),
      )
