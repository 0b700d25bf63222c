-- ===== src/Controller/Cluster.antt =====
-- controller/scheduler.go: the index of a snapshot.
use eco_kube.Prelude.{
  ℕ, suc, ◌+◌, ◌≡◌, refl, sym, ap, ◌∙◌, subst, some, List, [], ◌∷◌, String, get_elem?, inl, inr,
  Bool-cases, Option-cases, arith,
}
use mathlib.Core.Option.{some-injective}
use eco_kube.Prelude.Text.{StringMap, str_eq, eq_iff, entry, put, entry-put_same, entry-put_other}
use eco_kube.Controller.{NodeView, view_by_id, index_from, build_cluster_snapshot}

module _ {F : Type 0} where
  -- Every entry of the index names the view at its place.
  Points : StringMap ℕ → List (NodeView F) → Type 0
  Points m all =
      (k : String) (i : ℕ)
      → entry m k ≡ some i
      → (v : NodeView F) × (get_elem? all i ≡ some v) × (v.snapshot.id ≡ k)

  put-Points :
      (m : StringMap ℕ) (all : List (NodeView F)) (i : ℕ) (v : NodeView F)
      → Points m all
      → get_elem? all i ≡ some v
      → Points (put m v.snapshot.id i) all
  unfolding Points
  put-Points m all i v p e k j h = elim (Bool-cases (str_eq k v.snapshot.id)) [
    | inl same ↦
        let key : k ≡ v.snapshot.id = ground (arith, eq_iff k v.snapshot.id) in
        let place : i ≡ j = some-injective _ _ (
          sym (entry-put_same m v.snapshot.id i)
          ∙ subst (λ q. entry (put m v.snapshot.id i) q ≡ some j) key h) in
        (v, subst (λ q. get_elem? all q ≡ some v) place e, sym key)
    | inr other ↦ p k j (sym (entry-put_other m v.snapshot.id i k other) ∙ h)
  ]

  -- `vs` are the views from place `i` on.
  Suffix : List (NodeView F) → ℕ → List (NodeView F) → Type 0
  Suffix all i vs =
      (j : ℕ) (w : NodeView F) → get_elem? vs j ≡ some w → get_elem? all (i + j) ≡ some w

  index_from-Points :
      (all : List (NodeView F)) (i : ℕ) (vs : List (NodeView F)) (m : StringMap ℕ)
      → Suffix all i vs
      → Points m all
      → Points (index_from i vs m) all
  unfolding index_from Suffix
  index_from-Points all i [] m s p = p
  index_from-Points all i (v ∷ vs) m s p =
      let here : i + 0 ≡ i = omega arith in
      index_from-Points all (suc i) vs (put m v.snapshot.id i)
        (λ j w e.
          let next : i + suc j ≡ suc i + j = omega arith in
          subst (λ q. get_elem? all q ≡ some w) next (s (suc j) w e))
        (put-Points m all i v p (subst (λ q. get_elem? all q ≡ some v) here (s 0 v refl)))

  -- A snapshot that is built of views finds, under an identifier, only a view with that identifier.
  view_by_id-build :
      (views : List (NodeView F)) (id : String) (v : NodeView F)
      → view_by_id (build_cluster_snapshot views) id ≡ some v
      → v.snapshot.id ≡ id
  unfolding view_by_id build_cluster_snapshot Points Suffix entry
  view_by_id-build views id v e = elim (Option-cases (entry (index_from 0 views []) id)) [
    | inl n ↦ absurd (cc (rw (n, view_by_id) at e))
    | inr (i, f) ↦
        let (w, g, same) =
          index_from-Points views 0 views []
            (λ j w q.
              let same : j ≡ 0 + j = omega arith in subst (λ n. get_elem? views n ≡ some w) same q)
            (λ k j q. absurd (cc q)) id i f in
        ap (λ x. x.snapshot.id) (some-injective _ _ (sym (rw (f, view_by_id) at e) ∙ g)) ∙ same
  ]
