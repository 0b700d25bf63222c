-- ===== src/Metrics/Samples.antt =====
-- Runs of the search in a series of two points, and of the reading of a directory.
use eco_kube.Prelude.{
  ℕ, zero, suc, ◌≡◌, refl, none, some, Option, [], ◌∷◌, ◌*◌, arith, get_elem?, get_elem?_bound, ap,
  subst, ◌≤◌, true, false, String, ok, ◌++◌,
}
use eco_kube.Prelude.Int.{pos, ◌≤ℤ◌}
use eco_kube.Prelude.Sample.{Fixed, fixed}
use eco_kube.Prelude.Text.{codes, same_codes}
use eco_kube.Prelude.Strings.{trim}
use eco_kube.Core.Types.{Time, second}
use eco_kube.Metrics.Wattnet.{Point, Series, sort_search_by_time, find_series, to_upper}
use eco_kube.Metrics.Traces.{
  DirEntry, cut_suffix, country_year, point_of, points_of, parse_wattnet_csv, load_entry,
  load_wattnet,
}
use eco_kube.Metrics.Files.{find_series-load_wattnet}
use eco_kube.Metrics.Search.{IsSorted, IsSplit, sort_search_by_time-IsSplit}

abbrev hour : ℕ
hour = 3600 * second

abbrev series : Series Fixed
series =
    record { at = pos hour; ci = fixed.dec 100 0 }
    ∷ record { at = pos (2 * hour); ci = fixed.dec 200 0 }
    ∷ []

abbrev time_of : Option (Point Fixed) → Time
time_of o = elim o [ none ↦ pos 0 | some p ↦ p.at ]

points-sorted :
    (j k : ℕ) (p q : Point Fixed)
    → j ≤ k
    → time_of (get_elem? series j) ≡ p.at
    → time_of (get_elem? series k) ≡ q.at
    → suc j ≤ 2
    → suc k ≤ 2
    → p.at ≤ℤ q.at
points-sorted zero zero p q h e f _ _ =
    subst (λ t. t ≤ℤ q.at) e (subst (λ t. pos hour ≤ℤ t) f (omega arith))
points-sorted zero (suc zero) p q h e f _ _ =
    subst (λ t. t ≤ℤ q.at) e (subst (λ t. pos hour ≤ℤ t) f (omega arith))
points-sorted (suc zero) (suc zero) p q h e f _ _ =
    subst (λ t. t ≤ℤ q.at) e (subst (λ t. pos (2 * hour) ≤ℤ t) f (omega arith))
points-sorted (suc j) zero p q h e f _ _ = absurd (omega arith)
points-sorted (suc (suc j)) k p q h e f b _ = absurd (omega arith)
points-sorted zero (suc (suc k)) p q h e f _ b = absurd (omega arith)
points-sorted (suc zero) (suc (suc k)) p q h e f _ b = absurd (omega arith)

series-IsSorted : IsSorted series
series-IsSorted j k p q h e f =
    points-sorted j k p q h (ap time_of e) (ap time_of f) (get_elem?_bound series j p e)
      (get_elem?_bound series k q f)

sort_search_by_time-IsSplit_example :
    (i : ℕ) × (sort_search_by_time series (pos (2 * hour)) ≡ some i)
    × IsSplit series (pos (2 * hour)) i
sort_search_by_time-IsSplit_example =
    sort_search_by_time-IsSplit series (pos (2 * hour)) series-IsSorted

second_point : sort_search_by_time series (pos (2 * hour)) ≡ some 1
unfolding sort_search_by_time
second_point = refl

-- Every time is read as the first hour.
abbrev first_hour : String → Option Time
first_hour t = some (pos hour)

abbrev france : DirEntry
france = record {
  is_dir = false;
  name = "fr_2024_hourly.csv";
  records = ok (("time" ∷ "ci" ∷ []) ∷ ("t" ∷ []) ∷ ("t" ∷ " 75 " ∷ []) ∷ []);
}

abbrev notes : DirEntry
notes = record { is_dir = false; name = "README.md"; records = ok [] }

abbrev folder : DirEntry
folder = record { is_dir = true; name = "fr_2023_hourly.csv"; records = ok [] }

reading : Unit {0}
unfolding fixed point_of points_of parse_wattnet_csv cut_suffix country_year load_entry load_wattnet
    same_codes trim to_upper
reading = tt

read_point :
    parse_wattnet_csv {F = Fixed} first_hour france.records
    ≡ record { at = pos hour; ci = fixed.dec 75 0 } ∷ []
unfolding reading
read_point = refl

passed_over : load_wattnet {F = Fixed} first_hour [] (notes ∷ folder ∷ []) ≡ []
unfolding reading
passed_over = refl

find_series-load_wattnet_example :
    find_series
      (to_upper (codes "fr") ++ (b':' ∷ codes "2024"))
      (load_wattnet {F = Fixed} first_hour [] ((notes ∷ folder ∷ []) ++ (france ∷ [])))
    ≡ record { at = pos hour; ci = fixed.dec 75 0 } ∷ []
find_series-load_wattnet_example =
    find_series-load_wattnet first_hour [] (notes ∷ folder ∷ []) france (codes "fr") (codes "2024")
      (record { at = pos hour; ci = fixed.dec 75 0 }) [] refl refl
      (refl, (refl, (refl, (refl, tt)))) read_point
