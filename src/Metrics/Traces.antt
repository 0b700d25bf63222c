-- ===== src/Metrics/Traces.antt =====
-- cicost.go: the Wattnet series from the files of a directory. What encoding/csv and time.Parse
-- return is a parameter; an instant is in UTC.
use eco_kube.Prelude.{
  ℕ, Bool, Option, none, some, List, [], ◌∷◌, ◌++◌, String, Result, ok, err, ◌==◌, if◌then◌else◌,
}
use eco_kube.Prelude.Text.{codes, same_codes}
use eco_kube.Prelude.Strings.{trim}
use eco_kube.Prelude.Float.{Float64}
use eco_kube.Core.Types.{Time}
use eco_kube.Metrics.Wattnet.{Point, Series, Table, to_upper}

-- An entry of the directory: a directory itself, or a file with its records or an error.
pub record DirEntry : Type 0 where
  pub is_dir : Bool
  pub name : String
  pub records : Result (List (List String))

-- The string without the suffix, if it ends in it.
unfoldable pub cut_suffix : List ℕ → List ℕ → Option (List ℕ)
unfolding same_codes
cut_suffix suffix [] = if same_codes [] suffix then some [] else none
cut_suffix suffix (c ∷ s) =
    let rest = cut_suffix suffix s in
    if same_codes (c ∷ s) suffix
    then some []
    else elim rest [ none ↦ none | some before ↦ some (c ∷ before) ]

-- The parts of the base name before the last "_", joined again, and the last part.
unfoldable pub country_year : List ℕ → Option (List ℕ × List ℕ)
country_year [] = none
country_year (c ∷ s) =
    let rest = country_year s in
    elim rest [
      | some (country, year) ↦ some (c ∷ country, year)
      | none ↦ if c == b'_' then some ([], s) else none
    ]

module _ {F : Type 0} ⦃d : Float64 F⦄ where
  -- `parse_time` is `time.Parse` with the layout of the files.
  unfoldable pub point_of : (String → Option Time) → List String → Option (Point F)
  unfolding trim
  point_of parse_time (t ∷ v ∷ _) = elim (parse_time (trim t)) [
    | none ↦ none
    | some at ↦ elim (d.parse (trim v)) [
      | none ↦ none
      | some ci ↦ some (record { at = at; ci = ci })
    ]
  ]
  point_of parse_time _ = none

  unfoldable pub points_of : (String → Option Time) → List (List String) → Series F
  unfolding point_of
  points_of parse_time [] = []
  points_of parse_time (row ∷ rows) =
      let rest = points_of parse_time rows in
      elim (point_of parse_time row) [ none ↦ rest | some p ↦ p ∷ rest ]

  -- Of all the records but the header.
  unfoldable pub parse_wattnet_csv : (String → Option Time) → Result (List (List String)) → Series F
  unfolding points_of
  parse_wattnet_csv parse_time (err _) = []
  parse_wattnet_csv parse_time (ok []) = []
  parse_wattnet_csv parse_time (ok (_ ∷ rows)) = points_of parse_time rows

  -- A later file of the same key comes first, and so hides the earlier one.
  unfoldable pub load_entry : (String → Option Time) → Table F → DirEntry → Table F
  unfolding cut_suffix country_year to_upper parse_wattnet_csv
  load_entry parse_time table e =
      if e.is_dir then table else elim (cut_suffix (codes "_hourly.csv") (codes e.name)) [
        | none ↦ table
        | some base ↦ elim (country_year base) [
          | none ↦ table
          | some (country, year) ↦ elim (parse_wattnet_csv parse_time e.records) [
            | [] ↦ table
            | p ∷ ps ↦ (to_upper country ++ (b':' ∷ year), p ∷ ps) ∷ table
          ]
        ]
      ]

  unfoldable pub load_wattnet : (String → Option Time) → Table F → List DirEntry → Table F
  unfolding load_entry
  load_wattnet parse_time table [] = table
  load_wattnet parse_time table (e ∷ es) =
      load_wattnet parse_time (load_entry parse_time table e) es
