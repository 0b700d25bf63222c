-- ===== src/Loader/Header.antt =====
-- loader.go: a value is read from the column of its name.
use eco_kube.Prelude.{
  ◌≡◌, ◌≢◌, refl, ◌∙◌, ap, ℕ, zero, suc, ◌+◌, none, some, List, [], ◌∷◌, String, get_elem?, All,
  arith, if◌then◌else◌,
}
use mathlib.Core.Option.{some-injective}
use eco_kube.Prelude.Text.{StringMap, entry, put, str_eq, eq_iff, entry-put_same, entry-put_other}
use eco_kube.Loader.Csv.{column_key, index_from, csv_index, field_at, csv_value}

-- The columns after a position.
abbrev pub after {ℓ} : {A : Type ℓ} → ℕ → List A → List A
after n [] = []
after zero (x ∷ xs) = xs
after (suc n) (x ∷ xs) = after n xs

abbrev pub Distinct : String → List String → Type 0
Distinct h hs = All (λ g. column_key g ≢ column_key h) hs

-- Columns of other names leave the entry alone.
index_from_others :
    (h : String) (i : ℕ) (hs : List String) (idx : StringMap ℕ)
    → Distinct h hs
    → entry (index_from i hs idx) (column_key h) ≡ entry idx (column_key h)
unfolding index_from
index_from_others h i [] idx _ = refl
index_from_others h i (g ∷ gs) idx (n, ns) = index_from_others h (suc i) gs _ ns ∙ step
  where
    step :
        entry (if str_eq (column_key g) "" then idx else put idx (column_key g) i) (column_key h)
        ≡ entry idx (column_key h)
    step = ground (
      arith,
      n,
      eq_iff (column_key h) (column_key g),
      entry-put_other idx (column_key g) i (column_key h),
    )

index_from_column :
    (h : String) (i n : ℕ) (hs : List String) (idx : StringMap ℕ)
    → get_elem? hs n ≡ some h
    → column_key h ≢ ""
    → Distinct h (after n hs)
    → entry (index_from i hs idx) (column_key h) ≡ some (i + n)
unfolding index_from
index_from_column h i n [] idx e k ds = cc
index_from_column h i zero (g ∷ gs) idx e k ds =
    let same : column_key g ≡ column_key h = ap column_key (some-injective _ _ e) in
    index_from_others h (suc i) gs _ ds
    ∙ ground (arith, same, k, eq_iff (column_key g) "", entry-put_same idx (column_key g) i)
index_from_column h i (suc n) (g ∷ gs) idx e k ds =
    index_from_column h (suc i) n gs _ e k ds ∙ ap some (omega arith)

-- Where a header names a column, not by blanks alone, and no later column has the same name, a
-- record's value for that name is its trimmed field in that column, or "" where the record is
-- shorter.
pub csv_value-csv_index :
    (header rec : List String) (n : ℕ) (h : String)
    → get_elem? header n ≡ some h
    → column_key h ≢ ""
    → Distinct h (after n header)
    → csv_value rec (csv_index header) h ≡ field_at rec n
unfolding csv_value csv_index
csv_value-csv_index header rec n h e k ds =
    ap (λ o. elim o [ none ↦ "" | some i ↦ field_at rec i ])
      (index_from_column h 0 n header [] e k ds ∙ ap some (omega arith))
