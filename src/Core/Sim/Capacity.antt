-- ===== src/Core/Sim/Capacity.antt =====
-- The simulator never hands out more capacity than a node has.
use eco_kube.Prelude.{
  ℕ, suc, ◌+◌, ◌≡◌, refl, sym, subst, true, Option, none, some, List, [], ◌∷◌, ◌++◌, arith, String,
  Option-cases, Bool-cases, ◌⊎◌, inl, inr, get_elem?, set, All, All-append, All-get_elem?, All-set,
  All-map, Result-cases, ◌&&◌,
}
use eco_kube.Prelude.Int.{pos, leb_ℤ}
use eco_kube.Prelude.Text.{str_eq}
use eco_kube.Prelude.Float.{Float64, IsRounded, lt}
use eco_kube.Core.Types.{Time, Workload, SimulatedNode, after}
use eco_kube.Core.Node.{can_accept, release}
use eco_kube.Core.Node.Capacity.{IsAmount, IsSound, reserve-IsSound, release-IsSound}
use eco_kube.Core.Policy.{Policy, select_site_and_node}
use eco_kube.Core.Sim.Select.{
  Selector, Selection, find_named, least_loaded, load, by_policy, by_policy_or_load, select_node,
  max_float, job_of,
}
use eco_kube.Core.Sim.Rounds.{run_rounds_inv}
use eco_kube.Core.Sim.{
  BaseSim, Round, Running, place_on, place_selected, visit, visit_all, enqueue, round, run, keep,
  schedule, idle_clock, release_all,
}

module _ {F : Type 0} ⦃d : Float64 F⦄ where
  -- The node at that place can accept the workload.
  abbrev pub Accepts : Workload F → List (SimulatedNode F) → ℕ → Type 0
  Accepts w ns i = (n : SimulatedNode F) × (get_elem? ns i ≡ some n) × (can_accept n w ≡ true)

  -- Place `k`, counted from `i`, is such a place.
  abbrev AcceptsFrom : Workload F → List (SimulatedNode F) → ℕ → ℕ → Type 0
  AcceptsFrom w ns i k = (m : ℕ) × (k ≡ i + m) × Accepts w ns m

  AcceptsFrom-cons :
      (w : Workload F) (n : SimulatedNode F) (ns : List (SimulatedNode F)) (i k : ℕ)
      → AcceptsFrom w ns (suc i) k
      → AcceptsFrom w (n ∷ ns) i k
  AcceptsFrom-cons w n ns i k (m, e, a) = (suc m, omega arith, a)

  find_named-Accepts :
      (id : String) (w : Workload F) (ns : List (SimulatedNode F)) (i k : ℕ)
      → find_named id w ns i ≡ some k
      → AcceptsFrom w ns i k
  unfolding find_named
  find_named-Accepts id w [] i k e = absurd (ground arith)
  find_named-Accepts id w (n ∷ ns) i k e = elim (Bool-cases (str_eq n.name id && can_accept n w)) [
    | inl hit ↦ (0, ground arith, (n, refl, ground arith))
    | inr miss ↦
        AcceptsFrom-cons w n ns i k
          (find_named-Accepts id w ns (suc i) k (rw (miss, find_named) at e))
  ]

  least_loaded-Accepts :
      (w : Workload F) (ns : List (SimulatedNode F)) (i k : ℕ) (score : F) (best : Option ℕ)
      → least_loaded w ns i score best ≡ some k
      → (best ≡ some k) ⊎ AcceptsFrom w ns i k
  unfolding least_loaded
  least_loaded-Accepts w [] i k score best e = inl e
  least_loaded-Accepts w (n ∷ ns) i k score best e =
      elim (Bool-cases (can_accept n w && lt (load n) score)) [
        | inl hit ↦
            elim (least_loaded-Accepts w ns (suc i) k (load n) (some i)
              (rw (hit, least_loaded) at e)) [
                | inl here ↦ inr (0, ground arith, (n, refl, ground arith))
                | inr there ↦ inr (AcceptsFrom-cons w n ns i k there)
              ]
        | inr miss ↦
            elim (least_loaded-Accepts w ns (suc i) k score best (rw (miss, least_loaded) at e)) [
              | inl before ↦ inl before
              | inr there ↦ inr (AcceptsFrom-cons w n ns i k there)
            ]
      ]

  AcceptsFrom-zero :
      (w : Workload F) (ns : List (SimulatedNode F)) (k : ℕ) → AcceptsFrom w ns 0 k → Accepts w ns k
  AcceptsFrom-zero w ns k (m, e, a) =
      let same : k ≡ m = omega arith in subst (Accepts w ns) (sym same) a

  fallback-Accepts :
      (w : Workload F) (ns : List (SimulatedNode F)) (k : ℕ)
      → least_loaded w ns 0 max_float none ≡ some k
      → Accepts w ns k
  fallback-Accepts w ns k e = elim (least_loaded-Accepts w ns 0 k max_float none e) [
    | inl none_yet ↦ absurd (ground arith)
    | inr from ↦ AcceptsFrom-zero w ns k from
  ]

  by_policy-Accepts :
      (s : Selector F) (clock : Time) (w : Workload F) (ns : List (SimulatedNode F))
      (pol : Policy F) (r : Selection F) (k : ℕ)
      → by_policy s clock w ns pol ≡ some r
      → r.0 ≡ some k
      → Accepts w ns k
  unfolding by_policy
  by_policy-Accepts s clock w ns pol r k e h =
      elim (Result-cases (select_site_and_node pol (job_of w) ns)) [
        | inr (m, bad) ↦ absurd (ground arith)
        | inl ((id, scores), good) ↦ elim (Option-cases (find_named id w ns 0)) [
          | inl missing ↦ absurd (ground arith)
          | inr (i, found) ↦ AcceptsFrom-zero w ns k (find_named-Accepts id w ns 0 k (ground arith))
        ]
      ]

  by_policy_or_load-Accepts :
      (s : Selector F) (clock : Time) (w : Workload F) (ns : List (SimulatedNode F)) (k : ℕ)
      → (by_policy_or_load s clock w ns).0 ≡ some k
      → Accepts w ns k
  unfolding by_policy_or_load
  by_policy_or_load-Accepts s clock w ns k e = elim (Option-cases s.policy) [
    | inl missing ↦ fallback-Accepts w ns k (ground arith)
    | inr (pol, set) ↦ elim (Option-cases (by_policy s clock w ns pol)) [
      | inl missing ↦ fallback-Accepts w ns k (ground arith)
      | inr (r, found) ↦ by_policy-Accepts s clock w ns pol r k found (ground arith)
    ]
  ]

  -- Where no custom SelectFunc is set, a selected node can accept the workload.
  pub select_node-Accepts :
      (s : Selector F) (clock : Time) (w : Workload F) (ns : List (SimulatedNode F)) (k : ℕ)
      → s.select ≡ none
      → (select_node s clock w ns).0 ≡ some k
      → Accepts w ns k
  unfolding select_node
  select_node-Accepts s clock w ns k unset e =
      by_policy_or_load-Accepts s clock w ns k (ground arith)

  abbrev IsSized : Workload F → Type 0
  IsSized w = IsAmount w.cpu × IsAmount w.memory

  -- No custom SelectFunc, nodes whose free capacity lies between 0 and the total, and workloads of
  -- finite sizes that are not negative.
  pub record IsSafe (s : Running F) : Type 0 where
    pub unset : s.sim.selector.select ≡ none
    pub sound : All IsSound s.sim.nodes
    pub queued : All IsSized s.queue
    pub arriving : All IsSized s.arrivals

  record SafeRound (r : Round F) : Type 0 where
    unset : r.sim.selector.select ≡ none
    sound : All IsSound r.sim.nodes
    kept : All IsSized r.next

  keep-SafeRound : (r : Round F) (w : Workload F) → IsSized w → SafeRound r → SafeRound (keep r w)
  keep-SafeRound r w h v = record {
    unset = v.unset;
    sound = v.sound;
    kept = All-append _ r.next (w ∷ []) v.kept (h, tt);
  }

  enqueue-IsSized :
      (clock : Time) (queue ws : List (Workload F))
      → All IsSized queue
      → All IsSized ws
      → All IsSized (enqueue clock queue ws).0 × All IsSized (enqueue clock queue ws).1
  unfolding enqueue
  enqueue-IsSized clock queue [] h k = (h, tt)
  enqueue-IsSized clock queue (w ∷ ws) h k = elim (Bool-cases (after w.submit_time clock)) [
    | inl later ↦ rw (later, enqueue) (h, k)
    | inr now ↦
        rw (now, enqueue)
          (enqueue-IsSized clock (queue ++ (w ∷ [])) ws (All-append _ queue (w ∷ []) h (k.0, tt))
            k.1)
  ]

  module _ (laws : IsRounded F) where
    place_selected-SafeRound :
        (r : Round F) (w : Workload F) (place : Option ℕ)
        → IsSized w
        → ((k : ℕ) → place ≡ some k → Accepts w r.sim.nodes k)
        → SafeRound r
        → SafeRound (place_selected r w place)
    unfolding place_selected place_on
    place_selected-SafeRound r w none h a v = keep-SafeRound r w h v
    place_selected-SafeRound r w (some i) h a v =
        let (n, at_i, fits) = a i refl in
        rw (at_i, place_selected)
          (record {
            unset = v.unset;
            sound = All-set IsSound r.sim.nodes i _ v.sound (
                reserve-IsSound laws n w r.sim.clock
                  (All-get_elem? IsSound r.sim.nodes i n v.sound at_i) h.0 h.1 fits);
            kept = v.kept;
          })

    visit-SafeRound :
        (r : Round F) (w : Workload F) → IsSized w → SafeRound r → SafeRound (visit r w)
    unfolding visit
    visit-SafeRound r w h v = elim (Bool-cases (leb_ℤ r.sim.batch (pos r.scheduled))) [
      | inl full ↦ rw full (keep-SafeRound r w h v)
      | inr room ↦ rw room (
          place_selected-SafeRound _ w (select_node r.sim.selector r.sim.clock w r.sim.nodes).0 h
            (λ k e. select_node-Accepts r.sim.selector r.sim.clock w r.sim.nodes k v.unset e)
            (record { unset = v.unset; sound = v.sound; kept = v.kept }))
    ]

    visit_all-SafeRound :
        (r : Round F) (ws : List (Workload F))
        → All IsSized ws
        → SafeRound r
        → SafeRound (visit_all r ws)
    unfolding visit_all
    visit_all-SafeRound r [] h v = v
    visit_all-SafeRound r (w ∷ ws) h v =
        visit_all-SafeRound (visit r w) ws h.1 (visit-SafeRound r w h.0 v)

    schedule-IsSafe :
        (b : BaseSim F) (queue arrivals : List (Workload F))
        → b.selector.select ≡ none
        → All IsSound b.nodes
        → All IsSized queue
        → All IsSized arrivals
        → IsSafe (schedule b queue arrivals)
    schedule-IsSafe b [] arrivals u n q a = record {
      unset = u;
      sound = n;
      queued = tt;
      arriving = a;
    }
    schedule-IsSafe b (w ∷ ws) arrivals u n q a =
        let v =
          visit_all-SafeRound (record { sim = b; next = []; scheduled = 0 }) (w ∷ ws) q
            (record { unset = u; sound = n; kept = tt }) in
        record { unset = v.unset; sound = v.sound; queued = v.kept; arriving = a }

    -- A round keeps every node's free CPU and memory between 0 and the node's totals.
    pub round-IsSafe : (s : Running F) → IsSafe s → IsSafe (round s)
    unfolding round release_all
    round-IsSafe s v =
        let clock = idle_clock s.sim.clock s.queue s.arrivals in
        let (queued, arriving) = enqueue-IsSized clock s.queue s.arrivals v.queued v.arriving in
        schedule-IsSafe _ _ _ v.unset
          (All-map IsSound IsSound (λ n. release n clock) (λ n h. release-IsSound laws n clock h)
            s.sim.nodes v.sound)
          queued arriving

    -- Where rounding keeps to `IsRounded`, so does a whole run that ends, without a custom
    -- SelectFunc: from sound nodes, and with workloads of finite amounts that are not negative, it
    -- ends with sound nodes.
    pub run-IsSound :
        (sort : List (Workload F) → List (Workload F)) (fuel : ℕ) (b : BaseSim F) {end : BaseSim F}
        → b.selector.select ≡ none
        → All IsSound b.nodes
        → All IsSized (sort b.pending)
        → run sort fuel b ≡ some end
        → All IsSound end.nodes
    unfolding run
    run-IsSound sort fuel b u n h e =
        let (t, safe, done, ends) =
          run_rounds_inv IsSafe round-IsSafe fuel _
            (record { unset = u; sound = n; queued = tt; arriving = h }) e in
        subst (λ x. All IsSound x.nodes) (sym ends) safe.sound
