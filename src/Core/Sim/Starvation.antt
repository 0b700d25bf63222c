-- ===== src/Core/Sim/Starvation.antt =====
-- A workload that no node can ever take keeps the simulator running for ever.
use eco_kube.Prelude.{
  ℕ, ◌≡◌, ap, subst, ◌∙◌, true, false, Option, none, some, List, [], ◌∷◌, ◌++◌, arith, String,
  Option-cases, Bool-cases, ◌⊎◌, inl, inr, get_elem?, All, Any, All-get_elem?, All-set, All-map,
  Any-append_left, Any-append_right,
}
use eco_kube.Prelude.Int.{pos, leb_ℤ}
use eco_kube.Prelude.Text.{StringMap}
use eco_kube.Prelude.Float.{Float64}
use eco_kube.Core.Types.{Time, Workload, SimulatedNode, after}
use eco_kube.Core.Node.{can_accept, reserve, release, gpu_ok}
use eco_kube.Core.Node.Release.{labels-release}
use eco_kube.Core.Sim.Select.{select_node}
use eco_kube.Core.Sim.Capacity.{select_node-Accepts}
use eco_kube.Core.Sim.Rounds.{run_rounds_inv, finished_nil}
use eco_kube.Core.Sim.{
  BaseSim, Round, Running, place_on, place_selected, visit, visit_all, enqueue, round, finished,
  run, schedule, idle_clock, release_all,
}

module _ {F : Type 0} ⦃d : Float64 F⦄ (wanted : StringMap String) where
  -- The node is not the GPU node that the labels ask for.
  abbrev pub Unfit : SimulatedNode F → Type 0
  Unfit n = gpu_ok wanted n.labels ≡ false

  -- A workload with these labels.
  abbrev pub IsAsking : Workload F → Type 0
  IsAsking w = w.labels ≡ wanted

  record Hopeless (s : Running F) : Type 0 where
    unset : s.sim.selector.select ≡ none
    unfit : All Unfit s.sim.nodes
    asking : Any IsAsking s.queue ⊎ Any IsAsking s.arrivals

  record HopelessRound (r : Round F) : Type 0 where
    unset : r.sim.selector.select ≡ none
    unfit : All Unfit r.sim.nodes

  place_selected-Hopeless :
      (r : Round F) (w : Workload F) (place : Option ℕ)
      → HopelessRound r
      → HopelessRound (place_selected r w place)
  unfolding place_selected place_on reserve
  place_selected-Hopeless r w none v = record { unset = v.unset; unfit = v.unfit }
  place_selected-Hopeless r w (some i) v = elim (Option-cases (get_elem? r.sim.nodes i)) [
    | inl e ↦ rw (e, place_selected) (record { unset = v.unset; unfit = v.unfit })
    | inr (n, e) ↦
        rw (e, place_selected)
          (record {
            unset = v.unset;
            unfit =
                All-set Unfit r.sim.nodes i _ v.unfit
                  (All-get_elem? Unfit r.sim.nodes i n v.unfit e);
          })
  ]

  visit-Hopeless : (r : Round F) (w : Workload F) → HopelessRound r → HopelessRound (visit r w)
  unfolding visit
  visit-Hopeless r w v = elim (Bool-cases (leb_ℤ r.sim.batch (pos r.scheduled))) [
    | inl full ↦ rw full (record { unset = v.unset; unfit = v.unfit })
    | inr room ↦ rw room (
        place_selected-Hopeless _ w (select_node r.sim.selector r.sim.clock w r.sim.nodes).0
          (record { unset = v.unset; unfit = v.unfit }))
  ]

  place_selected-kept :
      (r : Round F) (w : Workload F) (place : Option ℕ)
      → Any IsAsking r.next
      → Any IsAsking (place_selected r w place).next
  unfolding place_selected place_on
  place_selected-kept r w none h = Any-append_left IsAsking r.next (w ∷ []) h
  place_selected-kept r w (some i) h = elim (Option-cases (get_elem? r.sim.nodes i)) [
    | inl e ↦ rw (e, place_selected) (Any-append_left IsAsking r.next (w ∷ []) h)
    | inr (n, e) ↦ rw (e, place_selected) h
  ]

  visit-kept : (r : Round F) (w : Workload F) → Any IsAsking r.next → Any IsAsking (visit r w).next
  unfolding visit
  visit-kept r w h = elim (Bool-cases (leb_ℤ r.sim.batch (pos r.scheduled))) [
    | inl full ↦ rw full (Any-append_left IsAsking r.next (w ∷ []) h)
    | inr room ↦
        rw room (place_selected-kept _ w (select_node r.sim.selector r.sim.clock w r.sim.nodes).0 h)
  ]

  refused : (n : SimulatedNode F) (w : Workload F) → IsAsking w → Unfit n → can_accept n w ≡ false
  unfolding can_accept
  refused n w a u = ground arith

  not_selected :
      (r : Round F) (w : Workload F)
      → IsAsking w
      → HopelessRound r
      → (select_node r.sim.selector r.sim.clock w r.sim.nodes).0 ≡ none
  not_selected r w a v =
      elim (Option-cases (select_node r.sim.selector r.sim.clock w r.sim.nodes).0) [
        | inl e ↦ e
        | inr (k, e) ↦
            let (n, at_k, fits) =
              select_node-Accepts r.sim.selector r.sim.clock w r.sim.nodes k v.unset e in
            absurd
              (ground (arith, refused n w a (All-get_elem? Unfit r.sim.nodes k n v.unfit at_k)))
      ]

  visit-IsAsking :
      (r : Round F) (w : Workload F) → IsAsking w → HopelessRound r → Any IsAsking (visit r w).next
  unfolding visit place_selected
  visit-IsAsking r w a v = elim (Bool-cases (leb_ℤ r.sim.batch (pos r.scheduled))) [
    | inl full ↦ rw full (Any-append_right IsAsking r.next (w ∷ []) (inl a))
    | inr room ↦ rw (room, not_selected r w a v) (Any-append_right IsAsking r.next (w ∷ []) (inl a))
  ]

  visit_all-Hopeless :
      (r : Round F) (ws : List (Workload F)) → HopelessRound r → HopelessRound (visit_all r ws)
  unfolding visit_all
  visit_all-Hopeless r [] v = v
  visit_all-Hopeless r (w ∷ ws) v = visit_all-Hopeless (visit r w) ws (visit-Hopeless r w v)

  visit_all-kept :
      (r : Round F) (ws : List (Workload F))
      → HopelessRound r
      → Any IsAsking r.next ⊎ Any IsAsking ws
      → Any IsAsking (visit_all r ws).next
  unfolding visit_all
  visit_all-kept r [] v (inl h) = h
  visit_all-kept r [] v (inr h) = elim h [ ]
  visit_all-kept r (w ∷ ws) v (inl h) =
      visit_all-kept (visit r w) ws (visit-Hopeless r w v) (inl (visit-kept r w h))
  visit_all-kept r (w ∷ ws) v (inr (inl a)) =
      visit_all-kept (visit r w) ws (visit-Hopeless r w v) (inl (visit-IsAsking r w a v))
  visit_all-kept r (w ∷ ws) v (inr (inr h)) =
      visit_all-kept (visit r w) ws (visit-Hopeless r w v) (inr h)

  enqueue-IsAsking :
      (clock : Time) (queue ws : List (Workload F))
      → Any IsAsking queue ⊎ Any IsAsking ws
      → Any IsAsking (enqueue clock queue ws).0 ⊎ Any IsAsking (enqueue clock queue ws).1
  unfolding enqueue
  enqueue-IsAsking clock queue [] h = h
  enqueue-IsAsking clock queue (w ∷ ws) h = elim (Bool-cases (after w.submit_time clock)) [
    | inl later ↦ rw (later, enqueue) h
    | inr now ↦
        rw (now, enqueue)
          (enqueue-IsAsking clock (queue ++ (w ∷ [])) ws (elim h [
            | inl q ↦ inl (Any-append_left IsAsking queue (w ∷ []) q)
            | inr (inl a) ↦ inl (Any-append_right IsAsking queue (w ∷ []) (inl a))
            | inr (inr r) ↦ inr r
          ]))
  ]

  schedule-Hopeless :
      (b : BaseSim F) (queue arrivals : List (Workload F))
      → b.selector.select ≡ none
      → All Unfit b.nodes
      → Any IsAsking queue ⊎ Any IsAsking arrivals
      → Hopeless (schedule b queue arrivals)
  schedule-Hopeless b [] arrivals u n a = record { unset = u; unfit = n; asking = a }
  schedule-Hopeless b (w ∷ ws) arrivals u n a =
      let r : Round F = record { sim = b; next = []; scheduled = 0 } in
      let start : HopelessRound r = record { unset = u; unfit = n } in
      let v = visit_all-Hopeless r (w ∷ ws) start in
      record {
        unset = v.unset;
        unfit = v.unfit;
        asking = elim a [ inl q ↦ inl (visit_all-kept r (w ∷ ws) start (inr q)) | inr x ↦ inr x ];
      }

  round-Hopeless : (s : Running F) → Hopeless s → Hopeless (round s)
  unfolding round release_all
  round-Hopeless s v =
      let clock = idle_clock s.sim.clock s.queue s.arrivals in
      schedule-Hopeless _ _ _ v.unset
        (All-map Unfit Unfit (λ n. release n clock)
          (λ n h. ap (gpu_ok wanted) (labels-release n clock) ∙ h) s.sim.nodes v.unfit)
        (enqueue-IsAsking clock s.queue s.arrivals v.asking)

  nobody_asks :
      (t : Running F) → finished t ≡ true → Any IsAsking t.queue ⊎ Any IsAsking t.arrivals → ⊥
  nobody_asks t done (inl h) = subst (Any IsAsking) (finished_nil t done).1 h
  nobody_asks t done (inr h) = subst (Any IsAsking) (finished_nil t done).0 h

  -- Without a custom SelectFunc, where some workload asks by its labels for a GPU node and no node
  -- has the label, the run ends after no number of rounds.
  pub run_starved :
      (sort : List (Workload F) → List (Workload F)) (fuel : ℕ) (b : BaseSim F)
      → b.selector.select ≡ none
      → All Unfit b.nodes
      → Any IsAsking (sort b.pending)
      → run sort fuel b ≡ none
  unfolding run
  run_starved sort fuel b u n a = elim (Option-cases (run sort fuel b)) [
    | inl e ↦ e
    | inr (end, e) ↦
        let (t, v, done, ends) =
          run_rounds_inv Hopeless round-Hopeless fuel _
            (record { unset = u; unfit = n; asking = inr a }) e in
        absurd (nobody_asks t done v.asking)
  ]
