-- ===== src/Prelude/Float.antt =====
-- Python's floats that are not negative: a binary double holds the fraction of a power of two, with 53 bits.
pub mod Exact
pub mod Bits
pub mod Near
use erlay_warnet.Prelude.{
  ℕ, zero, suc, ◌+◌, ◌*◌, ◌/◌, ◌%◌, ◌^◌, ◌≡◌, Bool, true, false, ltb, ◌==◌, if◌then◌else◌,
}

pub record Float : Type 0 where
  pub numerator : ℕ
  pub denominator : ℕ

-- The integer nearest to a / b, the even one of two.
unfoldable pub rounded : (a b : ℕ) → ℕ
rounded a b =
    if ltb (2 * (a % b)) b
    then a / b
    else if ltb b (2 * (a % b))
    then a / b + 1
    else a / b + (a / b) % 2

-- The power of two, from d on, that lifts a / b to 2 ^ 52 or more.
unfoldable pub lifting : (fuel : ℕ) → (a b d : ℕ) → ℕ
lifting zero a b d = d
lifting (suc fuel) a b d = elim (ltb (a * d) (2 ^ 52 * b)) [
  | true ↦ lifting fuel a b (2 * d)
  | false ↦ d
]

-- The power of two, from d on, that brings a / b below 2 ^ 53.
unfoldable pub lowering : (fuel : ℕ) → (a b d : ℕ) → ℕ
lowering zero a b d = d
lowering (suc fuel) a b d = elim (ltb a (2 ^ 53 * (b * d))) [
  | true ↦ d
  | false ↦ lowering fuel a b (2 * d)
]

-- The float nearest to a / b; the exponent is not bounded.
unfoldable pub nearest : (a b : ℕ) → Float
unfolding rounded lifting lowering
nearest zero b = record { numerator = 0; denominator = 1 }
nearest (suc n) b =
    let a = suc n in
    let up = lifting (53 + b) a b 1 in
    let down = lowering a a b 1 in
    record { numerator = rounded (a * up) (b * down) * down; denominator = up }

-- `a / float(b)`, where the int a becomes a float first.
unfoldable pub true_div : (a b : ℕ) → Float
unfolding nearest
true_div a b = let x = nearest a 1 in nearest x.numerator (x.denominator * b)

-- `float.is_integer` and `int`
abbrev pub is_integer : Float → Bool
is_integer x = (x.numerator % x.denominator) == 0

abbrev pub int_of : Float → ℕ
int_of x = x.numerator / x.denominator

-- `round(x, 2)`
unfoldable pub round_2 : Float → Float
unfolding rounded nearest
round_2 x = nearest (rounded (100 * x.numerator) x.denominator) 100
