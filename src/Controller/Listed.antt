-- ===== src/Controller/Listed.antt =====
-- controller/main.go: the nodes that a snapshot shows.
use eco_kube.Prelude.{
  ◌≡◌, ◌≢◌, refl, ap, subst, sym, ℕ, zero, suc, ◌≤◌, true, false, Bool, ◌&&◌, none, some, List, [],
  ◌∷◌, length, All, Any, All-map_of, arith, Option-cases, Bool-cases, inl, inr, Result, ok, err,
  if◌then◌else◌,
}
use eco_kube.Prelude.Int.{ℤ, pos, pos_part, ltb_ℤ}
use eco_kube.Prelude.Text.{StringMap, entry, index, str_lt}
use eco_kube.Prelude.Float.{Float64, IsOrdered, lt, nought, max}
use eco_kube.Core.Types.{Time, SimulatedNode}
use eco_kube.Controller.{NodeView, ClusterSnapshot, build_cluster_snapshot}
use eco_kube.Controller.Snapshot.{
  SiteCfg, KubeNode, ListedPod, Usage, Sites, insert_view, sort_views, first_views, cap_views,
  sim_node, node_view, views_of, snapshot, use_pods,
}

within : (b : Bool) (l m n k : ℕ) → l ≤ (if b then m else n) → n ≤ k → l ≤ (if b then m else k)
within true l m n k h i = h
within false l m n k h i = omega arith

module _ {F : Type 0} where
  insert_view-All :
      (P : NodeView F → Type 0) (v : NodeView F) (vs : List (NodeView F))
      → P v
      → All P vs
      → All P (insert_view v vs)
  unfolding insert_view
  insert_view-All P v [] p h = (p, tt)
  insert_view-All P v (x ∷ xs) p (q, h) = elim (Bool-cases (str_lt x.snapshot.id v.snapshot.id)) [
    | inl t ↦ rw (t, insert_view) (q, insert_view-All P v xs p h)
    | inr t ↦ rw (t, insert_view) (p, (q, h))
  ]

  sort_views-All :
      (P : NodeView F → Type 0) (vs : List (NodeView F)) → All P vs → All P (sort_views vs)
  unfolding sort_views
  sort_views-All P [] h = tt
  sort_views-All P (v ∷ vs) (p, h) = insert_view-All P v (sort_views vs) p (sort_views-All P vs h)

  first_views-All :
      (P : NodeView F → Type 0) (n : ℕ) (vs : List (NodeView F))
      → All P vs
      → All P (first_views n vs)
  unfolding first_views
  first_views-All P zero vs h = tt
  first_views-All P (suc n) [] h = tt
  first_views-All P (suc n) (v ∷ vs) (p, h) = (p, first_views-All P n vs h)

  first_views-length : (n : ℕ) (vs : List (NodeView F)) → length (first_views n vs) ≤ n
  unfolding first_views
  first_views-length zero vs = omega arith
  first_views-length (suc n) [] = omega arith
  first_views-length (suc n) (v ∷ vs) = omega (arith, first_views-length n vs)

  cap_views-All :
      (P : NodeView F → Type 0) (cap : ℤ) (vs : List (NodeView F))
      → All P vs
      → All P (cap_views cap vs)
  unfolding cap_views
  cap_views-All P cap vs h = elim (Bool-cases (ltb_ℤ (pos 0) cap && ltb_ℤ cap (pos (length vs)))) [
    | inl t ↦
        rw (t, cap_views) (first_views-All P (pos_part cap) (sort_views vs) (sort_views-All P vs h))
    | inr t ↦ rw (t, cap_views) h
  ]

  cap_views-length :
      (cap : ℤ) (vs : List (NodeView F))
      → length (cap_views cap vs) ≤ (if ltb_ℤ (pos 0) cap then pos_part cap else length vs)
  unfolding cap_views
  cap_views-length cap vs = elim (Bool-cases (ltb_ℤ (pos 0) cap)) [
    | inr h ↦ rw (h, cap_views) (omega arith)
    | inl h ↦ elim (Bool-cases (ltb_ℤ cap (pos (length vs)))) [
      | inl t ↦ rw (h, t, cap_views) (first_views-length (pos_part cap) (sort_views vs))
      | inr t ↦ rw (h, t, cap_views) (ground arith)
    ]
  ]

module _ {F : Type 0} ⦃d : Float64 F⦄ where
  -- The view is of a listed node at a site of the table, and shows nothing below zero as free.
  abbrev pub IsListed : StringMap (SiteCfg F) → List (KubeNode F) → NodeView F → Type 0
  IsListed sites nodes v =
      Any (λ n. (n.name ≡ v.snapshot.id) × (entry sites (index n.labels "site") ≢ none)) nodes
      × (lt v.snapshot.available_cpu nought ≡ false)
      × (lt v.snapshot.available_gb nought ≡ false)

  max-nought : IsOrdered F → (x : F) → lt (max nought x) nought ≡ false
  max-nought laws x = ground (arith, laws.lt_inf)

  views_of-IsListed :
      IsOrdered F
      → (intensity : SimulatedNode F → Time → F) (now : Time) (sites : StringMap (SiteCfg F))
      → (usage : Usage F) (nodes : List (KubeNode F))
      → All (IsListed sites nodes) (views_of intensity now sites usage nodes)
  unfolding views_of node_view sim_node
  views_of-IsListed laws intensity now sites usage [] = tt
  views_of-IsListed laws intensity now sites usage (n ∷ ns) =
      elim (Option-cases (entry sites (index n.labels "site"))) [
        | inl e ↦
            subst (All (IsListed sites (n ∷ ns))) (sym (skipped e))
              (later (views_of-IsListed laws intensity now sites usage ns))
        | inr (cfg, e) ↦ subst (All (IsListed sites (n ∷ ns))) (sym (shown cfg e)) (
          (inl (refl, (λ q. cc (q, e))), max-nought laws _, max-nought laws _),
          later (views_of-IsListed laws intensity now sites usage ns),
        )
      ]
    where
      later :
          All (IsListed sites ns) (views_of intensity now sites usage ns)
          → All (IsListed sites (n ∷ ns)) (views_of intensity now sites usage ns)
      later h =
          All-map_of (IsListed sites ns) (IsListed sites (n ∷ ns)) (λ v (a, b, c). (inr a, b, c)) _
            h

      skipped :
          entry sites (index n.labels "site") ≡ none
          → views_of intensity now sites usage (n ∷ ns) ≡ views_of intensity now sites usage ns
      skipped e = rw (e, views_of) refl

      shown :
          (cfg : SiteCfg F)
          → entry sites (index n.labels "site") ≡ some cfg
          → views_of intensity now sites usage (n ∷ ns)
            ≡ node_view intensity now cfg usage n ∷ views_of intensity now sites usage ns
      shown cfg e = rw (e, views_of) refl

  views_of-length :
      (intensity : SimulatedNode F → Time → F) (now : Time) (sites : StringMap (SiteCfg F))
      (usage : Usage F) (nodes : List (KubeNode F))
      → length (views_of intensity now sites usage nodes) ≤ length nodes
  unfolding views_of
  views_of-length intensity now sites usage [] = omega arith
  views_of-length intensity now sites usage (n ∷ ns) =
      elim (Option-cases (entry sites (index n.labels "site"))) [
        | inl e ↦ rw (e, views_of) (omega (arith, views_of-length intensity now sites usage ns))
        | inr (cfg, e) ↦
            rw (e, views_of) (omega (arith, views_of-length intensity now sites usage ns))
      ]

  views_in : Result (ClusterSnapshot F) → List (NodeView F)
  views_in r = elim r [ err _ ↦ [] | ok c ↦ c.views ]

  -- Where the API lists pods and nodes and the infinities lie at the ends of the order, each view of
  -- the snapshot is of a listed node at a site of the table and has no free CPU or memory below zero,
  -- and there are no more views than nodes, or than a positive cap says.
  pub snapshot-IsListed :
      IsOrdered F
      → (intensity : SimulatedNode F → Time → F) (now : Time) (table : Sites F)
      → (pods : List (ListedPod F)) (nodes : List (KubeNode F)) (c : ClusterSnapshot F)
      → snapshot intensity now table (ok pods) (ok nodes) ≡ ok c
      → All (IsListed table.sites nodes) c.views
        × (length c.views
            ≤ (if ltb_ℤ (pos 0) table.node_cap then pos_part table.node_cap else length nodes))
  unfolding snapshot build_cluster_snapshot views_in
  snapshot-IsListed laws intensity now table pods nodes c e =
      let usage : Usage F = use_pods (record { used = []; reservations = [] }) pods in
      let views : List (NodeView F) = views_of intensity now table.sites usage nodes in
      let same : cap_views table.node_cap views ≡ c.views = ap views_in e in
      (
        subst (All (IsListed table.sites nodes)) same (
            cap_views-All (IsListed table.sites nodes) table.node_cap views
              (views_of-IsListed laws intensity now table.sites usage nodes)),
        subst
            (λ vs.
              length vs
              ≤ (if ltb_ℤ (pos 0) table.node_cap then pos_part table.node_cap else length nodes))
            same
            (within (ltb_ℤ (pos 0) table.node_cap) _ _ _ _ (cap_views-length table.node_cap views)
              (views_of-length intensity now table.sites usage nodes)),
      )
