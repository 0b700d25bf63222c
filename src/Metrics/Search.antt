-- ===== src/Metrics/Search.antt =====
-- cicost.go: the binary search over an hourly series.
use eco_kube.Prelude.{
  ℕ, zero, suc, ◌+◌, ◌-◌, ◌/◌, ◌≤◌, ◌<◌, ◌≡◌, refl, true, false, some, arith, length, get_elem?,
  get_elem?_of_lt, get_elem?_bound, ltb, Bool-cases, inl, inr, subst, sym,
}
use eco_kube.Prelude.Int.{◌≤ℤ◌}
use eco_kube.Core.Types.{Time, before}
use eco_kube.Metrics.Wattnet.{Point, Series, search_loop, sort_search_by_time}

ltb_same : (lo hi : ℕ) → lo ≤ hi → hi ≤ 0 + lo → ltb lo hi ≡ false
ltb_same lo hi h k = ground arith

module _ {F : Type 0} where
  abbrev pub IsSorted : Series F → Type 0
  IsSorted series =
      (j k : ℕ) (p q : Point F)
      → j ≤ k
      → get_elem? series j ≡ some p
      → get_elem? series k ≡ some q
      → p.at ≤ℤ q.at

  -- All points below place `i` come before the instant.
  BeforeBelow : Series F → Time → ℕ → Type 0
  BeforeBelow series target i =
      (j : ℕ) (p : Point F) → j < i → get_elem? series j ≡ some p → before p.at target ≡ true

  -- No point from place `i` on does.
  NotFrom : Series F → Time → ℕ → Type 0
  NotFrom series target i =
      (j : ℕ) (p : Point F) → i ≤ j → get_elem? series j ≡ some p → before p.at target ≡ false

  abbrev pub IsSplit : Series F → Time → ℕ → Type 0
  unfolding BeforeBelow NotFrom
  IsSplit series target i =
      (i ≤ length series) × BeforeBelow series target i × NotFrom series target i

  below_mid :
      (series : Series F) (target : Time) (mid : ℕ) (p : Point F)
      → IsSorted series
      → get_elem? series mid ≡ some p
      → before p.at target ≡ true
      → BeforeBelow series target (suc mid)
  unfolding BeforeBelow
  below_mid series target mid p s e b j q h f =
      let le : q.at ≤ℤ p.at = s j mid q p (omega arith) f e in ground arith

  from_mid :
      (series : Series F) (target : Time) (mid : ℕ) (p : Point F)
      → IsSorted series
      → get_elem? series mid ≡ some p
      → before p.at target ≡ false
      → NotFrom series target mid
  unfolding NotFrom
  from_mid series target mid p s e b j q h f =
      let le : p.at ≤ℤ q.at = s mid j p q h e f in ground arith

  search_loop-IsSplit :
      (fuel : ℕ) (series : Series F) (target : Time) (lo hi : ℕ)
      → IsSorted series
      → lo ≤ hi
      → hi ≤ length series
      → hi ≤ fuel + lo
      → BeforeBelow series target lo
      → NotFrom series target hi
      → (i : ℕ) × (search_loop fuel series target lo hi ≡ some i) × IsSplit series target i
  unfolding search_loop IsSplit
  search_loop-IsSplit zero series target lo hi s le inside enough below from =
      let same : lo ≡ hi = omega arith in
      rw (ltb_same lo hi le enough)
        (lo, refl, (omega arith, below, subst (NotFrom series target) (sym same) from))
  search_loop-IsSplit (suc fuel) series target lo hi s le inside enough below from =
      let mid : ℕ = lo + (hi - lo) / 2 in
      elim (Bool-cases (ltb lo hi)) [
        | inr stop ↦
            let same : lo ≡ hi = ground arith in
            rw (stop, search_loop)
              (lo, refl, (omega arith, below, subst (NotFrom series target) (sym same) from))
        | inl go ↦
            let (p, at) = get_elem?_of_lt series (lo + (hi - lo) / 2) (ground arith) in
            elim (Bool-cases (before p.at target)) [
              | inl early ↦
                  rw (go, at, early, search_loop)
                    (search_loop-IsSplit fuel series target (suc (lo + (hi - lo) / 2)) hi s
                      (ground arith) inside (ground arith)
                      (below_mid series target (lo + (hi - lo) / 2) p s at early) from)
              | inr late ↦
                  rw (go, at, late, search_loop)
                    (search_loop-IsSplit fuel series target lo (lo + (hi - lo) / 2) s (ground arith)
                      (ground arith) (ground arith) below
                      (from_mid series target (lo + (hi - lo) / 2) p s at late))
            ]
      ]

  -- In a series that is sorted by time the search ends, and finds the place that splits it: all
  -- points before the place come before the instant, and no point from it on does.
  pub sort_search_by_time-IsSplit :
      (series : Series F) (target : Time)
      → IsSorted series
      → (i : ℕ) × (sort_search_by_time series target ≡ some i) × IsSplit series target i
  unfolding sort_search_by_time BeforeBelow NotFrom
  sort_search_by_time-IsSplit series target s =
      search_loop-IsSplit (length series) series target 0 (length series) s (omega arith)
        (omega arith) (omega arith) (λ j p h e. absurd (omega arith))
        (λ j p h e. absurd (omega (arith, get_elem?_bound series j p e)))
