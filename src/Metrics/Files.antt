-- ===== src/Metrics/Files.antt =====
-- cicost.go: the series that loadWattnetOnce keeps under the name of a file.
use eco_kube.Prelude.{
  ℕ, suc, ◌≡◌, refl, ap, ◌∙◌, true, false, Option, none, some, List, [], ◌∷◌, ◌++◌, String, ◌==◌,
  All, arith, length, length-append, Bool-cases, inl, inr,
}
use eco_kube.Prelude.Text.{codes, same_codes}
use eco_kube.Prelude.Float.{Float64}
use eco_kube.Core.Types.{Time}
use eco_kube.Metrics.Wattnet.{Point, Series, Table, to_upper, find_series}
use eco_kube.Metrics.Traces.{
  DirEntry, cut_suffix, country_year, parse_wattnet_csv, load_entry, load_wattnet,
}

same_codes_refl : (s : List ℕ) → same_codes s s ≡ true
unfolding same_codes
same_codes_refl [] = refl
same_codes_refl (c ∷ s) = ground (arith, same_codes_refl s)

same_codes-length : (s t : List ℕ) → same_codes s t ≡ true → length s ≡ length t
unfolding same_codes
same_codes-length [] [] h = refl
same_codes-length [] (_ ∷ _) h = absurd (ground arith)
same_codes-length (_ ∷ _) [] h = absurd (ground arith)
same_codes-length (a ∷ s) (b ∷ t) h = ap suc (same_codes-length s t (ground arith))

not_same : (c : ℕ) (s t : List ℕ) → same_codes (c ∷ s ++ t) t ≡ false
not_same c s t = elim (Bool-cases (same_codes (c ∷ s ++ t) t)) [
  | inl e ↦ absurd (omega (arith, same_codes-length (c ∷ s ++ t) t e, length-append s t))
  | inr e ↦ e
]

cut_whole : (t : List ℕ) → cut_suffix t t ≡ some []
unfolding cut_suffix
cut_whole [] = refl
cut_whole (c ∷ t) = rw (same_codes_refl (c ∷ t)) refl

cut_suffix-append : (s t : List ℕ) → cut_suffix t (s ++ t) ≡ some s
unfolding cut_suffix
cut_suffix-append [] t = cut_whole t
cut_suffix-append (c ∷ s) t = rw (not_same c s t, cut_suffix-append s t) refl

no_country : (year : List ℕ) → All (λ c. (c == b'_') ≡ false) year → country_year year ≡ none
unfolding country_year
no_country [] _ = refl
no_country (c ∷ year) (p, ps) = rw (no_country year ps, p) refl

country_year-join :
    (country year : List ℕ)
    → All (λ c. (c == b'_') ≡ false) year
    → country_year (country ++ (b'_' ∷ year)) ≡ some (country, year)
unfolding country_year
country_year-join [] year h = rw (no_country year h) refl
country_year-join (c ∷ country) year h = rw (country_year-join country year h) refl

module _ {F : Type 0} ⦃d : Float64 F⦄ where
  -- What `load_entry` does with a file whose name and records are known.
  load_entry_lem :
      (parse_time : String → Option Time) (table : Table F) (e : DirEntry) (country year : List ℕ)
      (p : Point F) (ps : Series F)
      → e.is_dir ≡ false
      → cut_suffix (codes "_hourly.csv") (codes e.name) ≡ some (country ++ (b'_' ∷ year))
      → country_year (country ++ (b'_' ∷ year)) ≡ some (country, year)
      → parse_wattnet_csv parse_time e.records ≡ p ∷ ps
      → load_entry parse_time table e ≡ (to_upper country ++ (b':' ∷ year), p ∷ ps) ∷ table
  unfolding load_entry to_upper
  load_entry_lem parse_time table e country year p ps file cut parts series =
      rw (file, cut, parts, series) refl

  load_wattnet-append :
      (parse_time : String → Option Time) (table : Table F) (es : List DirEntry) (e : DirEntry)
      → load_wattnet parse_time table (es ++ (e ∷ []))
        ≡ load_entry parse_time (load_wattnet parse_time table es) e
  unfolding load_wattnet
  load_wattnet-append parse_time table [] e = refl
  load_wattnet-append parse_time table (x ∷ es) e =
      load_wattnet-append parse_time (load_entry parse_time table x) es e

  found_first : (k : List ℕ) (s : Series F) (table : Table F) → find_series k ((k, s) ∷ table) ≡ s
  unfolding find_series
  found_first k s table = rw (same_codes_refl k) refl

  -- A file named COUNTRY_YEAR_hourly.csv, with no "_" in the year and at least one record that can
  -- be read, is found under the country in capitals and the year once the directory is read up to
  -- it, whatever stands before it.
  pub find_series-load_wattnet :
      (parse_time : String → Option Time) (table : Table F) (es : List DirEntry) (e : DirEntry)
      (country year : List ℕ) (p : Point F) (ps : Series F)
      → e.is_dir ≡ false
      → codes e.name ≡ (country ++ (b'_' ∷ year)) ++ codes "_hourly.csv"
      → All (λ c. (c == b'_') ≡ false) year
      → parse_wattnet_csv parse_time e.records ≡ p ∷ ps
      → find_series
          (to_upper country ++ (b':' ∷ year))
          (load_wattnet parse_time table (es ++ (e ∷ [])))
        ≡ p ∷ ps
  find_series-load_wattnet parse_time table es e country year p ps file name plain series =
      let base = country ++ (b'_' ∷ year) in
      let before = load_wattnet parse_time table es in
      let cut =
        ap (cut_suffix (codes "_hourly.csv")) name ∙ cut_suffix-append base (codes "_hourly.csv") in
      let loaded =
        load_entry_lem parse_time before e country year p ps file cut
          (country_year-join country year plain) series in
      let key = to_upper country ++ (b':' ∷ year) in
      ap (find_series key) (load_wattnet-append parse_time table es e ∙ loaded)
      ∙ found_first key (p ∷ ps) before
