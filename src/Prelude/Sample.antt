-- ===== src/Prelude/Sample.antt =====
-- A concrete `Float64` for tests and instances: fixed point with three decimals, NaN, and
-- infinities at both ends. It shows that the facts assumed of float64 can hold together.
use Prim.Native.Nat.{ℕ, ◌+◌, ◌-◌, ◌*◌, ◌/◌, ◌^◌}
use Prim.Native.String.{String}
use mathlib.Core.Bool.{◌&&◌}
use mathlib.Core.Path.{refl}
use mathlib.Core.List.{List, [], ◌∷◌}
use mathlib.Core.Option.{Option, none, some}
use native.Mathlib.Omega.{arith}
use eco_kube.Prelude.Tests.{ltb, leb, ◌==◌, if◌then◌else◌}
use eco_kube.Prelude.Int.{ℤ, pos, pos_part, neg_part, sub_ℕ, ◌*ℤ◌}
use eco_kube.Prelude.Float.{Float64, IsOrdered, IsRounded}
use eco_kube.Prelude.Text.{codes}

-- `some k` is (k - bias) / 1000, with infinities at 0 and at 2 * bias and above.
abbrev pub Fixed : Type 0
Fixed = Option ℕ

abbrev bias : ℕ
bias = 10 ^ 15

abbrev top : ℕ
top = 2 * 10 ^ 15

abbrev clip : ℕ → ℕ
clip k = if leb top k then top else k

abbrev pub both : (ℕ → ℕ → ℕ) → Fixed → Fixed → Fixed
both f (some a) (some b) = some (clip (f (clip a) (clip b)))
both f _ _ = none

abbrev key : Fixed → Option ℕ
key none = none
key (some k) = some (clip k)

-- The number of thousandths, and back.
to_z : ℕ → ℤ
to_z k = sub_ℕ k bias

of_z : ℤ → ℕ
of_z z = pos_part z + bias - neg_part z

times : ℕ → ℕ → ℕ
unfolding to_z of_z ◌*ℤ◌
times a b = let z = to_z a *ℤ to_z b in of_z (sub_ℕ (pos_part z / 1000) (neg_part z / 1000))

quotient : ℕ → ℕ → ℕ
unfolding to_z of_z ◌*ℤ◌
quotient a b =
    let n = to_z a *ℤ to_z b in
    let d = to_z b *ℤ to_z b in
    of_z (sub_ℕ (1000 * pos_part n / pos_part d) (1000 * neg_part n / pos_part d))

over : Fixed → Fixed → Fixed
unfolding quotient
over (some a) (some b) =
    if b == bias
    then (if a == bias then none else if ltb a bias then some 0 else some top)
    else both quotient (some a) (some b)
over _ _ = none

digits_from : ℕ → List ℕ → Option ℕ
digits_from n [] = some n
digits_from n (c ∷ s) =
    let rest = digits_from (10 * n + (c - 48)) s in if leb 48 c && leb c 57 then rest else none

-- Whole decimal numbers only.
read : String → Fixed
unfolding digits_from
read s = elim (codes s) [
  | [] ↦ none
  | c ∷ cs ↦ elim (digits_from 0 (c ∷ cs)) [ none ↦ none | some n ↦ some (clip (bias + 1000 * n)) ]
]

abbrev whole : ℤ → ℕ
whole z = bias + 1000 * pos_part z - 1000 * neg_part z

abbrev trunc : Fixed → ℤ
trunc none = pos 0
trunc (some k) = if leb bias k then pos ((k - bias) / 1000) else sub_ℕ 0 ((bias - k) / 1000)

program : Unit {0}
unfolding times over read
program = tt

instance unfoldable pub fixed : Float64 Fixed
unfolding program
fixed = record {
  key = key;
  dec = λ m e. some (bias + 1000 * m / 10 ^ e);
  inf = some top;
  neg_inf = some 0;
  add = both (λ a b. a + b - bias);
  sub = both (λ a b. a + bias - b);
  mul = both times;
  div = over;
  sqrt = λ x. x;
  pow = λ x y. x;
  sin = λ x. x;
  floor = λ x. x;
  of_int = λ z. some (whole z);
  to_int = trunc;
  parse = λ s. elim (read s) [ none ↦ none | some k ↦ some (some k) ];
}

pub fixed-IsOrdered : IsOrdered Fixed
unfolding fixed
fixed-IsOrdered = record { neg_inf_lt = refl; lt_inf = refl; inf_max = λ x. ground arith }

pub fixed-IsRounded : IsRounded Fixed
unfolding fixed
fixed-IsRounded = record {
  ordered = fixed-IsOrdered;
  sub_nonneg = λ a b h k l. ground arith;
  sub_le = λ a b h k l. ground arith;
  le_add = λ a b h k. ground arith;
}
