-- ===== src/Prelude/Float/Near.antt =====
-- How near the rounded numbers are.
use erlay_warnet.Prelude.{
  ℕ, zero, suc, ◌+◌, ◌*◌, ◌/◌, ◌%◌, ◌^◌, ◌<◌, ◌≤◌, ◌≡◌, ◌⊎◌, ltb, Bool-cases, inl, inr, ltb→lt,
  ltb→le, arith,
}
use native.Mathlib.Nat.{div-add-mod, mod-lt, mul-le-mul_right, le_of_mul-le-mul_right}
use erlay_warnet.Prelude.Float.{rounded, lifting, lowering, nearest}
use erlay_warnet.Prelude.Float.Bits.{nearest_bits}
use erlay_warnet.Prelude.Float.Exact.{lifting_positive}

two_remainders : (q : ℕ) → (q % 2 ≡ 0) ⊎ (q % 2 ≡ 1)
two_remainders q = elim (Bool-cases (ltb (q % 2) 1)) [
  | inl e ↦ inl (let less = ltb→lt (q % 2) 1 e in omega arith)
  | inr e ↦ inr (let more = ltb→le (q % 2) 1 e in omega arith)
]

rounded-IsNear :
    (a b : ℕ) → 0 < b → (2 * (rounded a b * b) ≤ 2 * a + b) × (2 * a ≤ 2 * (rounded a b * b) + b)
unfolding rounded
rounded-IsNear a b h =
    let parts : b * (a / b) + a % b ≡ a = div-add-mod a b in
    elim (Bool-cases (ltb (2 * (a % b)) b)) [
      | inl e ↦ let less = ltb→lt (2 * (a % b)) b e in rw e (omega arith, omega arith)
      | inr e ↦
          let more = ltb→le (2 * (a % b)) b e in
          elim (Bool-cases (ltb b (2 * (a % b)))) [
            | inl f ↦ let below : a % b < b = mod-lt a h in rw (e, f) (omega arith, omega arith)
            | inr f ↦
                let less = ltb→le b (2 * (a % b)) f in
                elim (two_remainders (a / b)) [
                  | inl g ↦ rw (e, f, g) (omega arith, omega arith)
                  | inr g ↦ rw (e, f, g) (omega arith, omega arith)
                ]
          ]
    ]

positive_of : (c d : ℕ) → c < 2 ^ 53 * d → 0 < d
positive_of c d h = omega arith

near_at :
    (a b down r : ℕ)
    → 2 ^ 52 * (b * down) ≤ a
    → (2 * (r * (b * down)) ≤ 2 * a + b * down) × (2 * a ≤ 2 * (r * (b * down)) + b * down)
    → (2 ^ 53 * (r * down * b) ≤ 2 ^ 53 * a + a) × (2 ^ 53 * a ≤ 2 ^ 53 * (r * down * b) + a)
near_at a b down r many (below, above) = (omega arith, omega arith)

-- The fraction that `nearest` holds, off by 2 ^ -53 of a / b at most.
pub nearest-IsNear :
    (a b : ℕ)
    → 0 < b
    → let x = nearest a b in
      (0 < x.denominator)
      × (2 ^ 53 * (x.numerator * b) ≤ 2 ^ 53 * (a * x.denominator) + a * x.denominator)
      × (2 ^ 53 * (a * x.denominator) ≤ 2 ^ 53 * (x.numerator * b) + a * x.denominator)
unfolding nearest
nearest-IsNear zero b h = (omega arith, omega arith, omega arith)
nearest-IsNear (suc n) b h =
    let up = lifting (53 + b) (suc n) b 1 in
    let down = lowering (suc n) (suc n) b 1 in
    let (many, few) = nearest_bits n b h in
    let (below, above) =
      near_at (suc n * up) b down (rounded (suc n * up) (b * down)) many
        (rounded-IsNear (suc n * up) (b * down) (positive_of (suc n * up) (b * down) few)) in
    (lifting_positive (53 + b) (suc n) b 1 (omega arith), below, above)

cancelled_below :
    (h num d n t : ℕ)
    → 0 < d
    → 2 * (h * d) ≤ 2 * (100 * num) + d
    → 2 ^ 53 * (num * n) ≤ 2 ^ 53 * (t * d) + t * d
    → 2 ^ 54 * (h * n) ≤ 2 ^ 54 * (100 * t) + 2 ^ 53 * n + 200 * t
cancelled_below h num d n t pos r e =
    let scaled : 2 * (h * d) * n ≤ (2 * (100 * num) + d) * n = mul-le-mul_right n r in
    le_of_mul-le-mul_right
      (let goal : 2 ^ 54 * (h * n) * d ≤ (2 ^ 54 * (100 * t) + 2 ^ 53 * n + 200 * t) * d =
          omega arith in
        goal)
      pos

cancelled_above :
    (h num d n t : ℕ)
    → 0 < d
    → 2 * (100 * num) ≤ 2 * (h * d) + d
    → 2 ^ 53 * (t * d) ≤ 2 ^ 53 * (num * n) + t * d
    → 2 ^ 54 * (100 * t) ≤ 2 ^ 54 * (h * n) + 2 ^ 53 * n + 200 * t
cancelled_above h num d n t pos r e =
    let scaled : 2 * (100 * num) * n ≤ (2 * (h * d) + d) * n = mul-le-mul_right n r in
    le_of_mul-le-mul_right
      (let goal : 2 ^ 54 * (100 * t) * d ≤ (2 ^ 54 * (h * n) + 2 ^ 53 * n + 200 * t) * d =
          omega arith in
        goal)
      pos

-- The hundredths that `round_2` takes of a quotient t / n are off by one half, and 100 * 2 ^ -53 of t / n, at
-- most.
pub hundredths-IsNear :
    (t n : ℕ)
    → 0 < n
    → let x = nearest t n in
      let h = rounded (100 * x.numerator) x.denominator in
      (2 ^ 54 * (h * n) ≤ 2 ^ 54 * (100 * t) + 2 ^ 53 * n + 200 * t)
      × (2 ^ 54 * (100 * t) ≤ 2 ^ 54 * (h * n) + 2 ^ 53 * n + 200 * t)
hundredths-IsNear t n k =
    let x = nearest t n in
    let h = rounded (100 * x.numerator) x.denominator in
    let (pos, below, above) = nearest-IsNear t n k in
    let (r, s) = rounded-IsNear (100 * x.numerator) x.denominator pos in
    (
      cancelled_below h x.numerator x.denominator n t pos r below,
      cancelled_above h x.numerator x.denominator n t pos s above,
    )
