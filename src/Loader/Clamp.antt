-- ===== src/Loader/Clamp.antt =====
-- sites.go: the factors of a loaded site are within their bounds.
use eco_kube.Prelude.{
  ◌≡◌, subst, true, none, some, List, [], ◌∷◌, String, All, arith, Option-cases, All-map,
  Bool-cases, inl, inr,
}
use mathlib.Core.Option.{some-injective}
use eco_kube.Prelude.Text.{StringMap, put, entry, str_eq}
use eco_kube.Prelude.Float.{Float64, le, is_num}
use eco_kube.Core.Types.{Site, SimulatedNode}
use eco_kube.Loader.Csv.{Conversions}
use eco_kube.Loader.Sites.{
  min_pue, max_pue, min_k, max_k, clamp_site, site_row, put_sites, load_sites, attach_site,
  attach_sites,
}

module _ {F : Type 0} ⦃d : Float64 F⦄ where
  -- A number that is not NaN lies within the two.
  abbrev pub IsWithin : F → F → F → Type 0
  IsWithin lo hi x = is_num x ≡ true → (le lo x ≡ true) × (le x hi ≡ true)

  clamp_site-IsWithin : (lo hi v : F) → le lo hi ≡ true → IsWithin lo hi (clamp_site v lo hi)
  unfolding clamp_site
  clamp_site-IsWithin lo hi v h n = (ground arith, ground arith)

module _ {F : Type 0} where
  pub record IsClamped ⦃d : Float64 F⦄ (s : Site F) : Type 0 where
    pub pue_within : IsWithin min_pue max_pue s.pue
    pub k_within : IsWithin min_k max_k s.k

module _ {F : Type 0} ⦃d : Float64 F⦄ where
  -- The site of a node, if it has one.
  abbrev pub AtClamped : SimulatedNode F → Type 0
  AtClamped n = (s : Site F) → n.site ≡ some s → IsClamped s

-- The constants of the code are in order.
pub record HasSiteBounds (F : Type 0) ⦃d : Float64 F⦄ : Type 0 where
  pub pue_bounds : le {F = F} min_pue max_pue ≡ true
  pub k_bounds : le {F = F} min_k max_k ≡ true

module _ {ℓ} {V : Type ℓ} (P : V → Type 0) where
  put-All :
      (m : StringMap V) (k : String) (v : V)
      → All (λ e. P (e.1)) m
      → P v
      → All (λ e. P (e.1)) (put m k v)
  unfolding put
  put-All [] k v h p = (p, tt)
  put-All (e ∷ m) k v (q, h) p = elim (Bool-cases (str_eq k (e.0))) [
    | inl same ↦ rw (same, put) (p, h)
    | inr other ↦ rw (other, put) (q, put-All m k v h p)
  ]

  entry-All :
      (m : StringMap V) (k : String) (v : V) → All (λ e. P (e.1)) m → entry m k ≡ some v → P v
  unfolding entry
  entry-All [] k v h e = absurd (cc e)
  entry-All (x ∷ m) k v (q, h) e = elim (Bool-cases (str_eq k (x.0))) [
    | inl same ↦ subst P (some-injective _ _ (rw (same, entry) at e)) q
    | inr other ↦ entry-All m k v h (rw (other, entry) at e)
  ]

module _ {F : Type 0} ⦃d : Float64 F⦄ (bounds : HasSiteBounds F) (conv : Conversions F) where
  site_row-IsClamped : (row : List String) (s : Site F) → site_row conv row ≡ some s → IsClamped s
  unfolding site_row
  site_row-IsClamped [] s e = cc e
  site_row-IsClamped (a ∷ []) s e = cc e
  site_row-IsClamped (a ∷ b ∷ []) s e = cc e
  site_row-IsClamped (a ∷ b ∷ c ∷ []) s e = cc e
  site_row-IsClamped (a ∷ b ∷ c ∷ r ∷ rest) s e =
      subst (λ x. IsClamped x) (some-injective _ _ e)
        (record {
          pue_within = clamp_site-IsWithin {F = F} _ _ _ bounds.pue_bounds;
          k_within = clamp_site-IsWithin {F = F} _ _ _ bounds.k_bounds;
        })

  put_sites-IsClamped :
      (rows : List (List String)) (sites loaded : StringMap (Site F))
      → All (λ e. IsClamped (e.1)) sites
      → put_sites conv rows sites ≡ some loaded
      → All (λ e. IsClamped (e.1)) loaded
  unfolding put_sites
  put_sites-IsClamped [] sites loaded h e =
      subst (All (λ e. IsClamped (e.1))) (some-injective _ _ e) h
  put_sites-IsClamped (row ∷ rows) sites loaded h e = elim (Option-cases (site_row conv row)) [
    | inl n ↦ absurd (cc (rw (n, put_sites) at e))
    | inr (s, q) ↦
        put_sites-IsClamped rows (put sites s.id s) loaded
          (put-All _ sites s.id s h (site_row-IsClamped row s q)) (rw (q, put_sites) at e)
  ]

  load_sites-IsClamped :
      (rows : List (List String)) (sites : StringMap (Site F))
      → load_sites conv rows ≡ some sites
      → All (λ e. IsClamped (e.1)) sites
  unfolding load_sites
  load_sites-IsClamped [] sites e = subst (All (λ e. IsClamped (e.1))) (some-injective _ _ e) tt
  load_sites-IsClamped (_ ∷ rows) sites e = put_sites-IsClamped rows [] sites tt e

  attach_site-AtClamped :
      (sites : StringMap (Site F)) (n : SimulatedNode F)
      → All (λ e. IsClamped (e.1)) sites
      → n.site ≡ none
      → AtClamped (attach_site sites n)
  unfolding attach_site
  attach_site-AtClamped sites n h free s e = entry-All _ sites n.site_id s h (ground arith)

  -- Sites that are loaded without a panic, with the constants in order, have their power factors
  -- within the bounds where these are not NaN, at every node that had no site before.
  pub attach_sites-AtClamped :
      (rows : List (List String)) (sites : StringMap (Site F)) (nodes : List (SimulatedNode F))
      → load_sites conv rows ≡ some sites
      → All (λ n. n.site ≡ none) nodes
      → All AtClamped (attach_sites nodes sites)
  unfolding attach_sites
  attach_sites-AtClamped rows sites nodes e free =
      All-map _ _ (attach_site sites)
        (λ n. attach_site-AtClamped sites n (load_sites-IsClamped rows sites e)) nodes free
