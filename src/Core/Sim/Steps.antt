-- ===== src/Core/Sim/Steps.antt =====
-- What one round of a simulator of whole capacities keeps, places and counts.
use eco_kube.Prelude.{
  ℕ, zero, suc, ◌+◌, ◌≤◌, ◌<◌, ◌≡◌, refl, ap, ◌∙◌, subst, true, false, Option, none, some, List, [],
  ◌∷◌, ◌++◌, arith, Bool-cases, inl, inr, ◌⊎◌, get_elem?, set, length, length-append, All,
  All-append,
}
use mathlib.Core.Option.{some-injective}
use eco_kube.Prelude.Int.{pos, leb_ℤ, ltb_ℤ}
use eco_kube.Prelude.Float.{Float64}
use eco_kube.Core.Types.{Time, Workload, SimulatedNode, after}
use eco_kube.Core.Node.{reserve, can_accept}
use eco_kube.Core.Node.Whole.{IsExact}
use eco_kube.Core.Node.Holds.{
  IsIdle, idle-Holds, Holds, IsWhole, release-Holds, reserve-Holds, idle_again,
}
use eco_kube.Core.Sim.Select.{Selector, select_node}
use eco_kube.Core.Sim.Capacity.{Accepts, select_node-Accepts}
use eco_kube.Core.Sim.Load.{count, count-reserve}
use eco_kube.Core.Sim.{
  BaseSim, Round, Running, place_on, place_selected, visit, visit_all, enqueue, finished,
  idle_clock, release_all,
}

module _ {F : Type 0} ⦃d : Float64 F⦄ where
  pub enqueue-length :
      (clock : Time) (queue ws : List (Workload F))
      → length (enqueue clock queue ws).0 + length (enqueue clock queue ws).1
        ≡ length queue + length ws
  unfolding enqueue
  enqueue-length clock queue [] = refl
  enqueue-length clock queue (w ∷ ws) = elim (Bool-cases (after w.submit_time clock)) [
    | inl later ↦ rw (later, enqueue) refl
    | inr now ↦
        rw (now, enqueue)
          (omega (arith, enqueue-length clock (queue ++ (w ∷ [])) ws, length-append queue (w ∷ [])))
  ]

  enqueue-grows :
      (clock : Time) (queue ws : List (Workload F))
      → length queue ≤ length (enqueue clock queue ws).0
  unfolding enqueue
  enqueue-grows clock queue [] = omega arith
  enqueue-grows clock queue (w ∷ ws) = elim (Bool-cases (after w.submit_time clock)) [
    | inl later ↦ rw (later, enqueue) (omega arith)
    | inr now ↦
        rw (now, enqueue)
          (omega (arith, enqueue-grows clock (queue ++ (w ∷ [])) ws, length-append queue (w ∷ [])))
  ]

  idle_reaches :
      (clock : Time) (w : Workload F) (ws : List (Workload F))
      → after w.submit_time (idle_clock clock [] (w ∷ ws)) ≡ false
  unfolding idle_clock
  idle_reaches clock w ws = ground arith

  -- The clock of an unfinished run lets at least one workload into the queue.
  pub enqueue_nonempty :
      (clock : Time) (queue ws : List (Workload F))
      → 0 < length queue + length ws
      → 0 < length (enqueue (idle_clock clock queue ws) queue ws).0
  unfolding enqueue
  enqueue_nonempty clock [] [] h = absurd (omega arith)
  enqueue_nonempty clock [] (w ∷ ws) h =
      rw (idle_reaches clock w ws, enqueue)
        (let grown = enqueue-grows (idle_clock clock [] (w ∷ ws)) (w ∷ []) ws in omega arith)
  enqueue_nonempty clock (q ∷ qs) ws h =
      omega (arith, enqueue-grows (idle_clock clock (q ∷ qs) ws) (q ∷ qs) ws)

  pub enqueue-All :
      (P : Workload F → Type 0) (clock : Time) (queue ws : List (Workload F))
      → All P queue
      → All P ws
      → All P (enqueue clock queue ws).0 × All P (enqueue clock queue ws).1
  unfolding enqueue
  enqueue-All P clock queue [] h k = (h, tt)
  enqueue-All P clock queue (w ∷ ws) h k = elim (Bool-cases (after w.submit_time clock)) [
    | inl later ↦ rw (later, enqueue) (h, k)
    | inr now ↦
        rw (now, enqueue)
          (enqueue-All P clock (queue ++ (w ∷ [])) ws (All-append _ queue (w ∷ []) h (k.0, tt)) k.1)
  ]

  at_most :
      (ms ns : List (SimulatedNode F)) (a b : ℕ)
      → (ms ≡ ns) ⊎ (a < b)
      → b + count ns ≡ a + count ms
      → a ≤ b
  at_most ms ns a b (inl same) e = omega (arith, ap count same)
  at_most ms ns a b (inr less) e = omega arith

  pub unfinished-left :
      (s : Running F) → finished s ≡ false → 0 < length s.queue + length s.arrivals
  unfinished-left s h = ground arith

  module _ (limit : ℕ) (laws : IsExact F limit) where
    -- The nodes are the idle nodes `os`, partly in use.
    pub AllHold : List (SimulatedNode F) → List (SimulatedNode F) → Type 0
    AllHold [] [] = Unit
    AllHold [] (_ ∷ _) = ⊥
    AllHold (_ ∷ _) [] = ⊥
    AllHold (o ∷ os) (n ∷ ns) = Holds limit laws o n × AllHold os ns

    pub AllHold-idle : (ns : List (SimulatedNode F)) → All (IsIdle limit) ns → AllHold ns ns
    unfolding AllHold
    AllHold-idle [] h = tt
    AllHold-idle (n ∷ ns) (h, hs) = (idle-Holds limit laws n h, AllHold-idle ns hs)

    pub release_all-AllHold :
        (t : Time) (os ns : List (SimulatedNode F)) → AllHold os ns → AllHold os (release_all t ns)
    unfolding AllHold release_all
    release_all-AllHold t [] [] h = tt
    release_all-AllHold t [] (_ ∷ _) h = h
    release_all-AllHold t (_ ∷ _) [] h = h
    release_all-AllHold t (o ∷ os) (n ∷ ns) (h, hs) =
        (release-Holds limit laws o n t h, release_all-AllHold t os ns hs)

    reserve-AllHold :
        (os ns : List (SimulatedNode F)) (i : ℕ) (n : SimulatedNode F) (w : Workload F) (t : Time)
        → IsWhole limit laws w
        → get_elem? ns i ≡ some n
        → can_accept n w ≡ true
        → AllHold os ns
        → AllHold os (set ns i (reserve n w t))
    unfolding AllHold
    reserve-AllHold [] [] i n w t v e a h = absurd (cc e)
    reserve-AllHold [] (_ ∷ _) i n w t v e a h = absurd h
    reserve-AllHold (_ ∷ _) [] i n w t v e a h = absurd h
    reserve-AllHold (o ∷ os) (x ∷ ns) zero n w t v e a (h, hs) = (
      reserve-Holds limit laws o n w t v a (subst (Holds limit laws o) (some-injective _ _ e) h),
      hs,
    )
    reserve-AllHold (o ∷ os) (x ∷ ns) (suc i) n w t v e a (h, hs) =
        (h, reserve-AllHold os ns i n w t v e a hs)

    empty : {A : Type 0} → (xs : List A) → length xs ≡ 0 → xs ≡ []
    empty [] h = refl
    empty (_ ∷ _) h = absurd (omega arith)

    -- Nodes without reservations are the idle nodes.
    pub all_idle : (os ns : List (SimulatedNode F)) → AllHold os ns → count ns ≡ 0 → ns ≡ os
    unfolding AllHold
    all_idle [] [] h c = refl
    all_idle [] (_ ∷ _) h c = absurd h
    all_idle (_ ∷ _) [] h c = absurd h
    all_idle (o ∷ os) (n ∷ ns) (h, hs) c =
        let first : n ≡ o = idle_again limit laws o n h (empty n.reservations (omega arith)) in
        let rest : ns ≡ os = all_idle os ns hs (omega arith) in λ i. first i ∷ rest i

    module _ (sel : Selector F) (unset : sel.select ≡ none) (os : List (SimulatedNode F)) where
      -- The workload asks for whole numbers, and the selection finds a node for it among the idle
      -- nodes, whatever the time is.
      abbrev pub IsServed : Workload F → Type 0
      IsServed w =
          IsWhole limit laws w
          × ((clock : Time) → (k : ℕ) × ((select_node sel clock w os).0 ≡ some k))

      pub record Sound (t : Time) (r : Round F) : Type 0 where
        pub selector : r.sim.selector ≡ sel
        pub clock : r.sim.clock ≡ t
        pub batch : ltb_ℤ (pos 0) r.sim.batch ≡ true
        pub held : AllHold os r.sim.nodes
        pub kept : All IsServed r.next

      -- Between two states of a round, `k` workloads were kept or placed; where none was placed the
      -- nodes are the same.
      pub record Steps (t : Time) (k : ℕ) (r r' : Round F) : Type 0 where
        pub sound : Sound t r'
        pub tally : length r.next + k + count r.sim.nodes ≡ length r'.next + count r'.sim.nodes
        pub still : (r'.sim.nodes ≡ r.sim.nodes) ⊎ (length r'.next < length r.next + k)

      place_selected-Steps :
          (t : Time) (r : Round F) (w : Workload F) (place : Option ℕ)
          → Sound t r
          → IsServed w
          → ((k : ℕ) → place ≡ some k → Accepts w r.sim.nodes k)
          → Steps t 1 r (place_selected r w place)
      unfolding place_selected place_on
      place_selected-Steps t r w none v h a = record {
        sound = record {
          selector = v.selector;
          clock = v.clock;
          batch = v.batch;
          held = v.held;
          kept = All-append _ r.next (w ∷ []) v.kept (h, tt);
        };
        tally = omega (arith, length-append r.next (w ∷ []));
        still = inl refl;
      }
      place_selected-Steps t r w (some i) v h a =
          let (n, at_i, fits) = a i refl in
          rw (at_i, place_selected)
            (record {
              sound = record {
                selector = v.selector;
                clock = v.clock;
                batch = v.batch;
                held = reserve-AllHold os r.sim.nodes i n w r.sim.clock h.0 at_i fits v.held;
                kept = v.kept;
              };
              tally = omega (arith, count-reserve r.sim.nodes i n w r.sim.clock at_i);
              still = inr (omega arith);
            })

      visit-Steps :
          (t : Time) (r : Round F) (w : Workload F)
          → Sound t r
          → IsServed w
          → Steps t 1 r (visit r w)
      unfolding visit place_selected
      visit-Steps t r w v h = elim (Bool-cases (leb_ℤ r.sim.batch (pos r.scheduled))) [
        | inl full ↦ rw full (place_selected-Steps t r w none v h (λ k e. absurd (cc e)))
        | inr room ↦
            let p =
              place_selected-Steps t
                (record r {
                  sim = record (r.sim) {
                    traces =
                        r.sim.traces ++ (select_node r.sim.selector r.sim.clock w r.sim.nodes).1;
                  };
                })
                w (select_node r.sim.selector r.sim.clock w r.sim.nodes).0
                (record {
                  selector = v.selector;
                  clock = v.clock;
                  batch = v.batch;
                  held = v.held;
                  kept = v.kept;
                })
                h
                (λ k e.
                  select_node-Accepts r.sim.selector r.sim.clock w r.sim.nodes k
                    (ap (λ s. s.select) v.selector ∙ unset) e) in
            rw room (record { sound = p.sound; tally = p.tally; still = p.still })
      ]

      pub visit_all-Steps :
          (t : Time) (r : Round F) (ws : List (Workload F))
          → Sound t r
          → All IsServed ws
          → Steps t (length ws) r (visit_all r ws)
      unfolding visit_all
      visit_all-Steps t r [] v h = record { sound = v; tally = omega arith; still = inl refl }
      visit_all-Steps t r (w ∷ ws) v h =
          let one = visit-Steps t r w v h.0 in
          let more = visit_all-Steps t (visit r w) ws one.sound h.1 in
          let bound : length (visit_all (visit r w) ws).next ≤ length (visit r w).next + length ws =
            at_most _ _ _ _ more.still more.tally in
          record {
            sound = more.sound;
            tally = (let p = one.tally in let q = more.tally in omega arith);
            still = elim more.still [
              | inr less ↦ inr (let p = at_most _ _ _ _ one.still one.tally in omega arith)
              | inl same ↦ elim one.still [
                | inl first ↦ inl (same ∙ first)
                | inr less ↦ inr (omega arith)
              ]
            ];
          }

      -- On idle nodes the first workload of a round is placed.
      visit_first :
          (b : BaseSim F) (w : Workload F)
          → b.selector ≡ sel
          → ltb_ℤ (pos 0) b.batch ≡ true
          → b.nodes ≡ os
          → IsServed w
          → length (visit (record { sim = b; next = []; scheduled = 0 }) w).next ≡ 0
      unfolding visit place_selected place_on
      visit_first b w s v e h =
          let (k, found) = h.1 b.clock in
          let chosen : (select_node b.selector b.clock w b.nodes).0 ≡ some k =
            (λ i. (select_node (s i) b.clock w (e i)).0) ∙ found in
          let (n, at_k, _) =
            select_node-Accepts b.selector b.clock w b.nodes k (ap (λ x. x.select) s ∙ unset)
              chosen in
          let room : leb_ℤ b.batch (pos 0) ≡ false = ground (arith, v) in
          rw (room, chosen, at_k, place_selected) refl

      -- So fewer are kept than there were.
      pub placed_first :
          (b : BaseSim F) (w : Workload F) (ws : List (Workload F))
          → Sound b.clock (record { sim = b; next = []; scheduled = 0 })
          → b.nodes ≡ os
          → All IsServed (w ∷ ws)
          → length (visit_all (record { sim = b; next = []; scheduled = 0 }) (w ∷ ws)).next
            < length (w ∷ ws)
      unfolding visit_all
      placed_first b w ws v e h =
          let r : Round F = record { sim = b; next = []; scheduled = 0 } in
          let one = visit-Steps b.clock r w v h.0 in
          let more = visit_all-Steps b.clock (visit r w) ws one.sound h.1 in
          omega
            (arith, at_most _ _ _ _ more.still more.tally, visit_first b w v.selector v.batch e h.0)
