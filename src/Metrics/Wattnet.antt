-- ===== src/Metrics/Wattnet.antt =====
-- cicost.go: the hourly Wattnet series, and the search in one. What the CSV files hold is a
-- parameter: a table of the series by country and year.
use eco_kube.Prelude.{
  ℕ, zero, suc, ◌+◌, ◌-◌, ◌*◌, ◌/◌, ◌%◌, true, false, ◌&&◌, Option, none, some, List, [], ◌∷◌, ◌++◌,
  length, get_elem?, map, ltb, leb, if◌then◌else◌,
}
use eco_kube.Prelude.Int.{ℤ, pos, negsuc, ◌-ℤ◌, eqb_ℤ}
use eco_kube.Prelude.Text.{same_codes, trim_space}
use eco_kube.Core.Types.{Time, second, before, is_zero}

pub record Point (F : Type 0) : Type 0 where
  pub at : Time
  pub ci : F

abbrev pub Series : Type 0 → Type 0
Series F = List (Point F)

-- The loaded series: the key is `COUNTRY:year`.
abbrev pub Table : Type 0 → Type 0
Table F = List (List ℕ × Series F)

unfoldable pub to_upper : List ℕ → List ℕ
to_upper s = map (λ c. if leb b'a' c && leb c b'z' then c - 32 else c) s

-- The remainder of `z` by `m`, between 0 and m - 1 also where `z` is negative.
abbrev pub floor_mod : ℤ → ℕ → ℕ
floor_mod (pos n) m = n % m
floor_mod (negsuc n) m = m - 1 - n % m

-- `t.Truncate(time.Hour)`
unfoldable pub truncate_hour : Time → Time
unfolding ◌-ℤ◌
truncate_hour t = t -ℤ pos (floor_mod t (3600 * second))

module _ {F : Type 0} where
  -- The loop of `sortSearchByTime`; `none` where the fuel is spent or an index is out of range.
  unfoldable pub search_loop : ℕ → Series F → Time → ℕ → ℕ → Option ℕ
  search_loop zero series target lo hi = if ltb lo hi then none else some lo
  search_loop (suc fuel) series target lo hi =
      let mid = lo + (hi - lo) / 2 in
      elim (ltb lo hi) [
        | false ↦ some lo
        | true ↦ elim (get_elem? series mid) [
          | none ↦ none
          | some p ↦ elim (before p.at target) [
            | true ↦ search_loop fuel series target (suc mid) hi
            | false ↦ search_loop fuel series target lo mid
          ]
        ]
      ]

  -- Every step shortens the interval, so its length is fuel enough.
  unfoldable pub sort_search_by_time : Series F → Time → Option ℕ
  unfolding search_loop
  sort_search_by_time series target = search_loop (length series) series target 0 (length series)

  unfoldable pub find_series : List ℕ → Table F → Series F
  find_series k [] = []
  find_series k ((j, s) ∷ t) = if same_codes j k then s else find_series k t

  -- `series[i].ci`, if there is such a point.
  abbrev pub ci_at : Series F → ℕ → Option F
  ci_at series i = elim (get_elem? series i) [ none ↦ none | some p ↦ some p.ci ]

  -- The point of the hour, or the one before it, or the first one.
  abbrev pub pick : Series F → Time → ℕ → Option F
  pick series hour i =
      let earlier : Option F = if ltb 0 i then ci_at series (i - 1) else ci_at series 0 in
      elim (get_elem? series i) [
        | none ↦ earlier
        | some p ↦ if eqb_ℤ p.at hour then some p.ci else earlier
      ]

  abbrev pub at_or_first : Series F → Time → Time
  at_or_first series at =
      if is_zero at then elim (get_elem? series 0) [ none ↦ at | some p ↦ p.at ] else at

  -- `none` is the Go result `(0, false)`.
  unfoldable pub lookup_wattnet_ci : Table F → List ℕ → List ℕ → Time → Option F
  unfolding to_upper trim_space find_series same_codes truncate_hour sort_search_by_time
  lookup_wattnet_ci table country year at =
      let series = find_series (to_upper (trim_space country) ++ (b':' ∷ trim_space year)) table in
      let hour = truncate_hour (at_or_first series at) in
      elim (sort_search_by_time series hour) [ none ↦ none | some i ↦ pick series hour i ]
