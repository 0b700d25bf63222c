-- ===== src/Loader/Csv.antt =====
-- loader.go: columns by name, and the labels of a node.
use eco_kube.Prelude.{
  ℕ, suc, Option, none, some, List, [], ◌∷◌, String, get_elem?, Result, ok, err, if◌then◌else◌,
}
use eco_kube.Prelude.Int.{ℤ}
use eco_kube.Prelude.Text.{StringMap, entry, put, str_eq}
use eco_kube.Prelude.Strings.{split_on, split_once, trim, lower}

-- The conversions of the standard library: the value that `strconv.ParseFloat` and `strconv.Atoi`
-- return beside an error, `strconv.Atoi` where it succeeds, `strconv.Itoa`, and the value of
-- `time.Parse(time.RFC3339, s)`.
pub record Conversions (F : Type 0) : Type 0 where
  pub float_value : String → F
  pub int_value : String → ℤ
  pub atoi : String → Option ℤ
  pub itoa : ℤ → String
  pub rfc3339 : String → ℤ

-- The lookup name of a column.
abbrev pub column_key : String → String
column_key h = trim (lower h)

-- With the number of the next column and the columns so far.
unfoldable pub index_from : ℕ → List String → StringMap ℕ → StringMap ℕ
unfolding put lower trim
index_from i [] idx = idx
index_from i (h ∷ hs) idx =
    index_from (suc i) hs (if str_eq (column_key h) "" then idx else put idx (column_key h) i)

unfoldable pub csv_index : List String → StringMap ℕ
unfolding index_from
csv_index header = index_from 0 header []

-- A field of a record, trimmed: "" where the record is shorter.
unfoldable pub field_at : List String → ℕ → String
unfolding trim
field_at rec i = elim (get_elem? rec i) [ none ↦ "" | some v ↦ trim v ]

unfoldable pub csv_value : List String → StringMap ℕ → String → String
unfolding entry field_at lower trim
csv_value rec cols key = elim (entry cols (column_key key)) [ none ↦ "" | some i ↦ field_at rec i ]

-- One token of the column `labels`.
unfoldable pub add_label : StringMap String → String → StringMap String
unfolding put trim split_once
add_label labels raw =
    let token = trim raw in
    let (before, after) = split_once b'=' token in
    if str_eq token ""
    then labels
    else elim after [ none ↦ put labels token "true" | some v ↦ put labels (trim before) (trim v) ]

unfoldable pub add_labels : StringMap String → List String → StringMap String
unfolding add_label
add_labels labels [] = labels
add_labels labels (t ∷ ts) = add_labels (add_label labels t) ts

unfoldable pub parse_labels : String → StringMap String
unfolding add_labels split_on
parse_labels raw = if str_eq raw "" then [] else add_labels [] (split_on b',' raw)

-- The rows of a file, read to the end: a record that cannot be read ends the process.
unfoldable pub read_all {ℓ} :
    {A : Type ℓ} → (List String → Option A) → List (Result (List String)) → Option (List A)
read_all row [] = some []
read_all row (err _ ∷ _) = none
read_all row (ok rec ∷ recs) =
    let rest = read_all row recs in
    elim (row rec) [
      | none ↦ none
      | some a ↦ elim rest [ none ↦ none | some more ↦ some (a ∷ more) ]
    ]
