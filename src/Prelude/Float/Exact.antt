-- ===== src/Prelude/Float/Exact.antt =====
-- Quotients that are whole and have at most 53 bits stand in a float exactly.
use native.Mathlib.Nat.{mul-mod_left, mul-div_cancel, zero-div, mul-lt-mul_of_pos_right}
use erlay_warnet.Prelude.{
  inr, inl, lt→ltb, Bool-cases, ℕ, zero, suc, ◌+◌, ◌*◌, ◌/◌, ◌^◌, ◌<◌, ◌≡◌, refl, sym, ap, ◌∙◌,
  true, ltb, arith,
}
use erlay_warnet.Prelude.Float.{
  Float, rounded, lifting, lowering, nearest, is_integer, int_of, round_2, true_div,
}

-- A float that holds the number q.
abbrev pub Holds : ℕ → Float → Type 0
Holds q x = (0 < x.denominator) × (x.numerator ≡ q * x.denominator)

rounded-multiple : (q b : ℕ) → 0 < b → rounded (q * b) b ≡ q
unfolding rounded
rounded-multiple q b h =
    let below : ltb 0 b ≡ true = ground arith in
    rw (mul-mod_left q b, mul-div_cancel q h, below) refl

pub lifting_positive : (fuel a b d : ℕ) → 0 < d → 0 < lifting fuel a b d
unfolding lifting
lifting_positive zero a b d h = h
lifting_positive (suc fuel) a b d h = elim (Bool-cases (ltb (a * d) (2 ^ 52 * b))) [
  | inl e ↦ rw (e, lifting) (lifting_positive fuel a b (2 * d) (omega arith))
  | inr e ↦ rw (e, lifting) h
]

pub lowering_none : (n b : ℕ) → suc n < 2 ^ 53 * b → lowering (suc n) (suc n) b 1 ≡ 1
unfolding lowering
lowering_none n b h =
    let below : suc n < 2 ^ 53 * (b * 1) = omega arith in
    rw (lt→ltb (suc n) (2 ^ 53 * (b * 1)) below, lowering) refl

exact_at :
    (a b q up down : ℕ) → down ≡ 1 → a ≡ q * b → 0 < b → rounded (a * up) (b * down) * down ≡ q * up
exact_at a b q up down d e h =
    let times : q * b * up ≡ q * up * (b * 1) = omega arith in
    rw (d, e, times, rounded-multiple (q * up) (b * 1) (omega arith)) (omega arith)

nothing_of : (b q : ℕ) → 0 ≡ q * b → 0 < b → 0 ≡ q * 1
nothing_of b q e h =
    let none_left : q ≡ 0 = sym (mul-div_cancel q h) ∙ ap (λ a. a / b) (sym e) ∙ zero-div b in
    rw none_left refl

bounded : (n b q : ℕ) → suc n ≡ q * b → 0 < b → q < 2 ^ 53 → suc n < 2 ^ 53 * b
bounded n b q e h k = rw e (mul-lt-mul_of_pos_right {k = b} k h)

pub nearest-Holds : (a b q : ℕ) → a ≡ q * b → 0 < b → q < 2 ^ 53 → Holds q (nearest a b)
unfolding nearest
nearest-Holds zero b q e h k = (omega arith, nothing_of b q e h)
nearest-Holds (suc n) b q e h k = (
  lifting_positive (53 + b) (suc n) b 1 (omega arith),
  exact_at (suc n) b q (lifting (53 + b) (suc n) b 1) (lowering (suc n) (suc n) b 1)
      (lowering_none n b (bounded n b q e h k)) e h,
)

-- A whole number of at most 53 bits is its own rounding.
pub round_2-Holds : (q : ℕ) (x : Float) → Holds q x → q < 2 ^ 53 → Holds q (round_2 x)
unfolding round_2
round_2-Holds q x (h, e) k =
    let times : 100 * (q * x.denominator) ≡ 100 * q * x.denominator = omega arith in
    let hundredths : rounded (100 * x.numerator) x.denominator ≡ 100 * q =
      rw (e, times, rounded-multiple (100 * q) x.denominator h) refl in
    nearest-Holds (rounded (100 * x.numerator) x.denominator) 100 q (hundredths ∙ omega arith)
      (omega arith) k

pub Holds-is_integer : (q : ℕ) (x : Float) → Holds q x → is_integer x ≡ true
Holds-is_integer q x (h, e) = rw (e, mul-mod_left q x.denominator) refl

pub Holds-int_of : (q : ℕ) (x : Float) → Holds q x → int_of x ≡ q
Holds-int_of q x (h, e) = rw (e, mul-div_cancel q h) refl

-- A quotient that is whole, of a number that a float holds, is exact.
pub true_div-Holds : (q b : ℕ) → 0 < b → b * q < 2 ^ 53 → q < 2 ^ 53 → Holds q (true_div (b * q) b)
unfolding true_div
true_div-Holds q b h l k =
    let x = nearest (b * q) 1 in
    let (pos, e) = nearest-Holds (b * q) 1 (b * q) (omega arith) (omega arith) l in
    let whole : x.numerator ≡ q * (x.denominator * b) = e ∙ omega arith in
    nearest-Holds x.numerator (x.denominator * b) q whole
      (let z = mul-lt-mul_of_pos_right {k = b} pos h in omega arith) k
