-- ===== src/Prelude/Strings.antt =====
-- Functions of Go's package strings on ASCII text: splitting, trimming and folding of case.
use Prim.Native.Nat.{ℕ, zero, suc, ◌-◌}
use Prim.Native.Char.{Char, code}
use Prim.Native.String.{String}
use mathlib.Core.Path.{◌≡◌, refl}
use mathlib.Core.Bool.{Bool, true, false, ◌&&◌, ◌||◌}
use mathlib.Core.List.{List, [], ◌∷◌}
use mathlib.Core.Option.{Option, none, some}
use eco_kube.Prelude.Tests.{leb, ◌==◌, if◌then◌else◌}

-- `strings.Split(s, sep)` for a separator of one byte.
unfoldable pub split_on : ℕ → String → List String
split_on sep String.[] = String.[] ∷ []
split_on sep (String.◌∷◌ c s) =
    let rest = split_on sep s in
    if code c == sep then String.[] ∷ rest else elim rest [ [] ↦ [] | p ∷ ps ↦ String.◌∷◌ c p ∷ ps ]

-- `strings.SplitN(s, sep, 2)`: the part before the first separator and, if there is one, the rest.
unfoldable pub split_once : ℕ → String → String × Option String
split_once sep String.[] = (String.[], none)
split_once sep (String.◌∷◌ c s) =
    let (before, after) = split_once sep s in
    if code c == sep then (String.[], some s) else (String.◌∷◌ c before, after)

abbrev is_blank : Char → Bool
is_blank c = (code c == 32) || (leb 9 (code c) && leb (code c) 13)

unfoldable pub trim_left : String → String
trim_left String.[] = String.[]
trim_left (String.◌∷◌ c s) = let rest = trim_left s in if is_blank c then rest else String.◌∷◌ c s

abbrev is_empty : String → Bool
is_empty String.[] = true
is_empty (String.◌∷◌ c s) = false

unfoldable pub trim_right : String → String
trim_right String.[] = String.[]
trim_right (String.◌∷◌ c s) =
    let rest = trim_right s in if is_blank c && is_empty rest then String.[] else String.◌∷◌ c rest

-- `strings.TrimSpace(s)`
unfoldable pub trim : String → String
unfolding trim_left trim_right
trim s = trim_right (trim_left s)

abbrev push : String → List String → List String
push word words = if is_empty word then words else word ∷ words

-- The word at the front, empty before a blank, and the words after it.
unfoldable pub front : String → String × List String
front String.[] = (String.[], [])
front (String.◌∷◌ c s) =
    let (word, words) = front s in
    if is_blank c then (String.[], push word words) else (String.◌∷◌ c word, words)

-- `strings.Fields(s)`
unfoldable pub fields : String → List String
unfolding front
fields s = let (word, words) = front s in push word words

-- `strings.HasPrefix(s, prefix)`
unfoldable pub has_prefix : String → String → Bool
has_prefix s String.[] = true
has_prefix String.[] (String.◌∷◌ d prefix) = false
has_prefix (String.◌∷◌ c s) (String.◌∷◌ d prefix) = (code c == code d) && has_prefix s prefix

-- The character at a position, or the one given.
char_at : String → ℕ → Char → Char
char_at String.[] i c = c
char_at (String.◌∷◌ x s) zero c = x
char_at (String.◌∷◌ x s) (suc i) c = char_at s i c

lower_char : Char → Char
unfolding char_at
lower_char c =
    if leb b'A' (code c) && leb (code c) b'Z'
    then char_at "abcdefghijklmnopqrstuvwxyz" (code c - b'A') c
    else c

-- `strings.ToLower(s)`
unfoldable pub lower : String → String
unfolding lower_char
lower String.[] = String.[]
lower (String.◌∷◌ c s) = String.◌∷◌ (lower_char c) (lower s)

-- `strings.ReplaceAll` of one byte by another.
unfoldable pub replace : ℕ → Char → String → String
replace old new String.[] = String.[]
replace old new (String.◌∷◌ c s) =
    let rest = replace old new s in String.◌∷◌ (if code c == old then new else c) rest

-- `strings.TrimRight(s, cut)` for a single character.
unfoldable pub trim_end : ℕ → String → String
trim_end cut String.[] = String.[]
trim_end cut (String.◌∷◌ c s) =
    let rest = trim_end cut s in
    if (code c == cut) && is_empty rest then String.[] else String.◌∷◌ c rest

-- `strings.HasSuffix(s, end)` for a single character.
unfoldable pub ends_with : ℕ → String → Bool
ends_with end String.[] = false
ends_with end (String.◌∷◌ c s) =
    let rest = ends_with end s in if is_empty s then code c == end else rest

trim_runs : trim (lower "  Peak_Power W ") ≡ "peak_power w"
unfolding trim lower
trim_runs = refl

split_on_runs : split_on b':' "sine::3" ≡ "sine" ∷ "" ∷ "3" ∷ []
unfolding split_on
split_on_runs = refl

split_once_runs : split_once b'=' "a=b=c" ≡ ("a", some "b=c")
unfolding split_once
split_once_runs = refl
