-- ===== src/Prelude/Text.antt =====
-- Go strings: equality, the order of `<`, folding of case, and maps with string keys. Case is folded
-- over ASCII, which is what the labels and class names of the program are written in.
use Prim.Native.Nat.{ℕ, ◌+◌}
use Prim.Native.Char.{code}
use Prim.Native.String.{String}
use mathlib.Core.Path.{◌≡◌, refl}
use mathlib.Core.Bool.{Bool, true, false, ◌&&◌, ◌||◌}
use mathlib.Core.List.{List, [], ◌∷◌, map, reverse}
use mathlib.Core.Option.{Option, none, some}
use native.Mathlib.Omega.{arith}
use text.Mathlib.TextEquality.{Char-path}
use eco_kube.Prelude.Tests.{ltb, leb, ◌==◌, if◌then◌else◌}
pub use text.Mathlib.Text.{◌==◌ as str_eq}
pub use text.Mathlib.TextEquality.{eq_iff}
pub use text.Mathlib.TextPositions.{eq_refl}

abbrev pub codes : String → List ℕ
codes String.[] = []
codes (String.◌∷◌ c s) = code c ∷ codes s

-- `a < b` on strings: by bytes, which for UTF-8 is by code points.
unfoldable pub str_lt : String → String → Bool
str_lt String.[] String.[] = false
str_lt String.[] (String.◌∷◌ d t) = true
str_lt (String.◌∷◌ c s) String.[] = false
str_lt (String.◌∷◌ c s) (String.◌∷◌ d t) =
    ltb (code c) (code d) || ((code c == code d) && str_lt s t)

pub str_lt_irrefl : (s : String) → str_lt s s ≡ false
unfolding str_lt
str_lt_irrefl String.[] = refl
str_lt_irrefl (String.◌∷◌ c s) = ground (arith, str_lt_irrefl s)

pub str_lt_trans : (s t u : String) → str_lt s t ≡ true → str_lt t u ≡ true → str_lt s u ≡ true
unfolding str_lt
str_lt_trans String.[] String.[] u h k = cc
str_lt_trans String.[] (String.◌∷◌ d t) String.[] h k = cc
str_lt_trans String.[] (String.◌∷◌ d t) (String.◌∷◌ e u) h k = refl
str_lt_trans (String.◌∷◌ c s) String.[] u h k = cc
str_lt_trans (String.◌∷◌ c s) (String.◌∷◌ d t) String.[] h k = cc
str_lt_trans (String.◌∷◌ c s) (String.◌∷◌ d t) (String.◌∷◌ e u) h k =
    ground (arith, str_lt_trans s t u)

-- Two strings neither of which is below the other are equal.
pub str_lt_total : (s t : String) → str_lt s t ≡ false → str_lt t s ≡ false → s ≡ t
unfolding str_lt
str_lt_total String.[] String.[] h k = refl
str_lt_total String.[] (String.◌∷◌ d t) h k = cc
str_lt_total (String.◌∷◌ c s) String.[] h k = cc
str_lt_total (String.◌∷◌ c s) (String.◌∷◌ d t) h k =
    let same : code c ≡ code d = ground arith in
    let rest : s ≡ t = str_lt_total s t (ground arith) (ground arith) in
    λ i. String.◌∷◌ (Char-path c d same i) (rest i)

-- ASCII letters in lower case.
unfoldable pub fold_code : ℕ → ℕ
fold_code c = if leb b'A' c && leb c b'Z' then c + 32 else c

unfoldable pub to_lower : List ℕ → List ℕ
unfolding fold_code
to_lower s = map fold_code s

abbrev is_space : ℕ → Bool
is_space c = (c == 32) || (leb 9 c && leb c 13)

drop_spaces : List ℕ → List ℕ
drop_spaces [] = []
drop_spaces (c ∷ s) = if is_space c then drop_spaces s else c ∷ s

unfoldable pub trim_space : List ℕ → List ℕ
unfolding drop_spaces
trim_space s = reverse (drop_spaces (reverse (drop_spaces s)))

unfoldable pub same_codes : List ℕ → List ℕ → Bool
same_codes [] [] = true
same_codes [] (d ∷ t) = false
same_codes (c ∷ s) [] = false
same_codes (c ∷ s) (d ∷ t) = (c == d) && same_codes s t

-- `strings.EqualFold`.
unfoldable pub equal_fold : String → String → Bool
unfolding to_lower same_codes
equal_fold s t = same_codes (to_lower (codes s)) (to_lower (codes t))

-- Whether `s` is one of the listed strings: the labels of a `switch` case.
unfoldable pub one_of : List ℕ → List String → Bool
unfolding same_codes
one_of s [] = false
one_of s (t ∷ ts) = same_codes s (codes t) || one_of s ts

-- A Go map with string keys, as the list of its entries. Reading a nil map gives what reading the
-- empty one gives, so both are `[]`.
abbrev pub StringMap {ℓ} : Type ℓ → Type ℓ
StringMap V = List (String × V)

module _ {ℓ} {V : Type ℓ} where
  -- `v, ok := m[k]`
  unfoldable pub entry : StringMap V → String → Option V
  entry [] k = none
  entry (e ∷ m) k = let rest = entry m k in if str_eq k (e.0) then some (e.1) else rest

  -- `m[k] = v`
  unfoldable pub put : StringMap V → String → V → StringMap V
  put [] k v = (k, v) ∷ []
  put (e ∷ m) k v = let rest = put m k v in if str_eq k (e.0) then (k, v) ∷ m else e ∷ rest

  -- `delete(m, k)`
  unfoldable pub remove : StringMap V → String → StringMap V
  remove [] k = []
  remove (e ∷ m) k = let rest = remove m k in if str_eq k (e.0) then rest else e ∷ rest

  abbrev pub keys : StringMap V → List String
  keys = map λ e. e.0

  pub entry-put_same : (m : StringMap V) (k : String) (v : V) → entry (put m k v) k ≡ some v
  unfolding entry put
  entry-put_same [] k v = ground (arith, eq_refl k)
  entry-put_same (e ∷ m) k v = ground (arith, eq_refl k, entry-put_same m k v)

  pub entry-put_other :
      (m : StringMap V) (k : String) (v : V) (q : String)
      → str_eq q k ≡ false
      → entry (put m k v) q ≡ entry m q
  unfolding entry put
  entry-put_other [] k v q h = ground arith
  entry-put_other (e ∷ m) k v q h =
      ground (arith, eq_iff q k, eq_iff k (e.0), eq_iff q (e.0), entry-put_other m k v q h)

  pub entry-remove_same : (m : StringMap V) (k : String) → entry (remove m k) k ≡ none
  unfolding entry remove
  entry-remove_same [] k = refl
  entry-remove_same (e ∷ m) k = ground (arith, entry-remove_same m k)

-- `m[k]` on a map of strings: "" where the key is missing.
unfoldable pub index : StringMap String → String → String
unfolding entry
index m k = elim (entry m k) [ none ↦ "" | some v ↦ v ]

equal_fold_runs : equal_fold "TRUE" "true" ≡ true
unfolding equal_fold
equal_fold_runs = refl
