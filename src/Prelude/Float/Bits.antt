-- ===== src/Prelude/Float/Bits.antt =====
-- The scaling of a quotient to 53 bits: the fuel is enough.
use native.Mathlib.Nat.{two-pow-succ}
use erlay_warnet.Prelude.{
  ℕ, zero, suc, ◌+◌, ◌*◌, ◌^◌, ◌<◌, ◌≤◌, ◌≡◌, ltb, Bool-cases, inl, inr, ltb→lt, ltb→le, le→ltb,
  refl, arith,
}
use erlay_warnet.Prelude.Float.{lifting, lowering}
use erlay_warnet.Prelude.Float.Exact.{lowering_none}

times_one : (d : ℕ) → d * 2 ^ 0 ≡ d
times_one d = omega arith

lifting_enough :
    (fuel a b d : ℕ) → 2 ^ 52 * b ≤ a * (d * 2 ^ fuel) → 2 ^ 52 * b ≤ a * lifting fuel a b d
unfolding lifting
lifting_enough zero a b d h = rw (times_one d) at h
lifting_enough (suc fuel) a b d h = elim (Bool-cases (ltb (a * d) (2 ^ 52 * b))) [
  | inl e ↦
      rw (e, lifting)
        (lifting_enough fuel a b (2 * d) (let h2 = rw (two-pow-succ fuel) at h in omega arith))
  | inr e ↦ rw (e, lifting) (ltb→le (a * d) (2 ^ 52 * b) e)
]

lifting_below : (fuel a b d : ℕ) → a * d < 2 ^ 53 * b → a * lifting fuel a b d < 2 ^ 53 * b
unfolding lifting
lifting_below zero a b d h = h
lifting_below (suc fuel) a b d h = elim (Bool-cases (ltb (a * d) (2 ^ 52 * b))) [
  | inl e ↦
      let below = ltb→lt (a * d) (2 ^ 52 * b) e in
      rw (e, lifting) (lifting_below fuel a b (2 * d) (omega arith))
  | inr e ↦ rw (e, lifting) h
]

lowering_enough :
    (fuel a b d : ℕ) → a < 2 ^ 53 * (b * (d * 2 ^ fuel)) → a < 2 ^ 53 * (b * lowering fuel a b d)
unfolding lowering
lowering_enough zero a b d h = rw (times_one d) at h
lowering_enough (suc fuel) a b d h = elim (Bool-cases (ltb a (2 ^ 53 * (b * d)))) [
  | inl e ↦ rw (e, lowering) (ltb→lt a (2 ^ 53 * (b * d)) e)
  | inr e ↦
      rw (e, lowering)
        (lowering_enough fuel a b (2 * d) (let h2 = rw (two-pow-succ fuel) at h in omega arith))
]

lowering_above : (fuel a b d : ℕ) → 2 ^ 52 * (b * d) ≤ a → 2 ^ 52 * (b * lowering fuel a b d) ≤ a
unfolding lowering
lowering_above zero a b d h = h
lowering_above (suc fuel) a b d h = elim (Bool-cases (ltb a (2 ^ 53 * (b * d)))) [
  | inl e ↦ rw (e, lowering) h
  | inr e ↦
      let above = ltb→le a (2 ^ 53 * (b * d)) e in
      rw (e, lowering) (lowering_above fuel a b (2 * d) (omega arith))
]

lifting_none : (fuel a b d : ℕ) → 2 ^ 52 * b ≤ a * d → lifting fuel a b d ≡ d
unfolding lifting
lifting_none zero a b d h = refl
lifting_none (suc fuel) a b d h = rw (le→ltb (a * d) (2 ^ 52 * b) h, lifting) refl

power_covers : (k b : ℕ) → (b + 1) * 2 ^ k ≤ 2 ^ (k + b)
power_covers k zero = let e : k + 0 ≡ k = omega arith in rw e (omega arith)
power_covers k (suc b) =
    let h = power_covers k b in
    let e : k + suc b ≡ suc (k + b) = omega arith in rw (e, two-pow-succ (k + b)) (omega arith)

lifting_covers : (n b : ℕ) → 2 ^ 52 * b ≤ suc n * (1 * 2 ^ (53 + b))
lifting_covers n b = let h = power_covers 53 b in omega arith

lowering_covers : (n b : ℕ) → 0 < b → suc n < 2 ^ 53 * (b * (1 * 2 ^ suc n))
lowering_covers n zero h = omega arith
lowering_covers n (suc b) h =
    let none_added : 0 + suc n ≡ suc n = omega arith in
    let k : (suc n + 1) * 1 ≤ 2 ^ suc n = rw none_added at (power_covers 0 (suc n)) in
    let e : suc b * (1 * 2 ^ suc n) ≡ b * 2 ^ suc n + 2 ^ suc n = omega arith in rw e (omega arith)

-- Where a and b are positive, the scaled quotient of `nearest` has 53 bits.
pub nearest_bits :
    (n b : ℕ)
    → 0 < b
    → let up = lifting (53 + b) (suc n) b 1 in
      let down = lowering (suc n) (suc n) b 1 in
      (2 ^ 52 * (b * down) ≤ suc n * up) × (suc n * up < 2 ^ 53 * (b * down))
nearest_bits n b h = elim (Bool-cases (ltb (suc n) (2 ^ 52 * b))) [
  | inl e ↦
      let none_down =
        lowering_none n b (let below = ltb→lt (suc n) (2 ^ 52 * b) e in omega arith) in
      let above = lifting_enough (53 + b) (suc n) b 1 (lifting_covers n b) in
      let below =
        lifting_below (53 + b) (suc n) b 1
          (let less = ltb→lt (suc n) (2 ^ 52 * b) e in omega arith) in
      rw none_down (omega arith, omega arith)
  | inr e ↦
      let none_up =
        lifting_none (53 + b) (suc n) b 1
          (let more = ltb→le (suc n) (2 ^ 52 * b) e in omega arith) in
      let above =
        lowering_above (suc n) (suc n) b 1
          (let more = ltb→le (suc n) (2 ^ 52 * b) e in omega arith) in
      let below = lowering_enough (suc n) (suc n) b 1 (lowering_covers n b h) in
      rw none_up (omega arith, omega arith)
]
