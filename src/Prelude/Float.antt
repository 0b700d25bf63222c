-- ===== src/Prelude/Float.antt =====
-- float64 as a parameter: the type, its operations and the documented facts the theorems use.
-- The comparisons are read off an integer key: a float64 that is not NaN has a sign-magnitude bit
-- pattern whose rank orders it, +0 and -0 having the same rank, and NaN compares with nothing.
use Prim.Native.Nat.{ℕ}
use Prim.Native.String.{String}
use mathlib.Core.Path.{◌≡◌}
use mathlib.Core.Bool.{Bool, true, false, ◌||◌}
use mathlib.Core.Option.{Option, none, some}
use eco_kube.Prelude.Tests.{ltb, leb, ◌==◌, if◌then◌else◌}
use eco_kube.Prelude.Int.{ℤ}

pub record Float64 (F : Type 0) : Type 0 where
  pub key : F → Option ℕ
  -- The constant m / 10^e.
  pub dec : ℕ → ℕ → F
  pub inf : F
  pub neg_inf : F
  pub add : F → F → F
  pub sub : F → F → F
  pub mul : F → F → F
  pub div : F → F → F
  pub sqrt : F → F
  pub pow : F → F → F
  pub sin : F → F
  pub floor : F → F
  -- `float64(n)` and `int64(x)`
  pub of_int : ℤ → F
  pub to_int : F → ℤ
  -- `strconv.ParseFloat(s, 64)`, `none` for an error
  pub parse : String → Option F

abbrev pub key_lt : Option ℕ → Option ℕ → Bool
key_lt none b = false
key_lt (some x) none = false
key_lt (some x) (some y) = ltb x y

abbrev pub key_eq : Option ℕ → Option ℕ → Bool
key_eq none b = false
key_eq (some x) none = false
key_eq (some x) (some y) = x == y

abbrev pub key_le : Option ℕ → Option ℕ → Bool
key_le none b = false
key_le (some x) none = false
key_le (some x) (some y) = leb x y

module _ {F : Type 0} ⦃d : Float64 F⦄ where
  abbrev pub lt : F → F → Bool
  lt x y = key_lt (d.key x) (d.key y)

  abbrev pub le : F → F → Bool
  le x y = key_le (d.key x) (d.key y)

  abbrev pub eq : F → F → Bool
  eq x y = key_eq (d.key x) (d.key y)

  abbrev pub is_num : F → Bool
  is_num x = elim (d.key x) [ none ↦ false | some _ ↦ true ]

  infixl 65 ◌⊕◌ ◌⊖◌
  infixl 70 ◌⊗◌ ◌⊘◌
  abbrev pub ◌⊕◌ : F → F → F
  x ⊕ y = d.add x y

  abbrev pub ◌⊖◌ : F → F → F
  x ⊖ y = d.sub x y

  abbrev pub ◌⊗◌ : F → F → F
  x ⊗ y = d.mul x y

  abbrev pub ◌⊘◌ : F → F → F
  x ⊘ y = d.div x y

  abbrev pub nought : F
  nought = d.dec 0 0

  abbrev pub one : F
  one = d.dec 1 0

  -- `math.Min` and `math.Max`, but for the sign of a zero: an infinity on its side wins over NaN.
  abbrev pub min : F → F → F
  min x y =
      if eq x d.neg_inf || eq y d.neg_inf
      then d.neg_inf
      else if is_num x
      then (if is_num y then (if lt x y then x else y) else y)
      else x

  abbrev pub max : F → F → F
  max x y =
      if eq x d.inf || eq y d.inf
      then d.inf
      else if is_num x
      then (if is_num y then (if lt y x then x else y) else y)
      else x

-- The infinities lie at the ends of the order.
pub record IsOrdered (F : Type 0) ⦃d : Float64 F⦄ : Type 0 where
  pub neg_inf_lt : lt d.neg_inf nought ≡ true
  pub lt_inf : lt nought d.inf ≡ true
  pub inf_max : (x : F) → lt d.inf x ≡ false

-- Rounding keeps order: what the theorems on capacities use of IEEE 754 arithmetic.
pub record IsRounded (F : Type 0) ⦃d : Float64 F⦄ : Type 0 where
  pub ordered : IsOrdered F
  pub open ordered use *
  -- a - b ≥ 0 where b ≤ a, and a - b is not NaN then, for a finite.
  pub sub_nonneg :
      (a b : F)
      → le b a ≡ true
      → lt d.neg_inf b ≡ true
      → lt a d.inf ≡ true
      → le nought (a ⊖ b) ≡ true
  -- a - b ≤ a where b ≥ 0.
  pub sub_le :
      (a b : F) → le nought b ≡ true → lt b d.inf ≡ true → is_num a ≡ true → le (a ⊖ b) a ≡ true
  -- a + b ≥ a where b ≥ 0.
  pub le_add : (a b : F) → le nought b ≡ true → lt d.neg_inf a ≡ true → le a (a ⊕ b) ≡ true
