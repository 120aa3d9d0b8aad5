-- ===== src/Survival/Polled.antt =====
-- `poll` ends, and tells whether the predicate held.
use erlay_warnet.Prelude.{
  ==→eq, ℕ, zero, suc, ◌+◌, ◌*◌, ◌<◌, ◌≤◌, ◌≡◌, refl, arith, inl, inr, Bool, true, false, Option,
  none, some, ltb, Bool-cases, ◌==◌,
}
use erlay_warnet.Survival.{Watch, IsRunning, poll_from, poll}

-- The evaluations before `i` came in time and did not hold.
abbrev pub HasMissed : Watch → (timeout i : ℕ) → Type 0
HasMissed w timeout i =
    (j : ℕ) → j < i → (w.holds j ≡ false) × (w.clock j < w.start + timeout * w.second)

-- What `poll` may return: the predicate held at its last evaluation, or at none up to one after the
-- deadline.
abbrev pub IsPolled : Watch → (timeout : ℕ) → Option (Bool × ℕ) → Type 0
IsPolled w timeout none = ⊥
IsPolled w timeout (some (true, k)) = HasMissed w timeout k × (w.holds k ≡ true)
IsPolled w timeout (some (false, k)) =
    HasMissed w timeout k × (w.holds k ≡ false) × (w.start + timeout * w.second ≤ w.clock k)

module _ (w : Watch) (timeout : ℕ) (running : IsRunning w) where
  clock-start : (i : ℕ) → w.start + i * w.second ≤ w.clock i
  clock-start zero = omega (arith, running.1)
  clock-start (suc i) = omega (arith, clock-start i, running.2 i)

  HasMissed-suc :
      (i : ℕ)
      → HasMissed w timeout i
      → w.holds i ≡ false
      → w.clock i < w.start + timeout * w.second
      → HasMissed w timeout (suc i)
  HasMissed-suc i m h l j b = elim (Bool-cases (j == i)) [
    | inl e ↦ rw (==→eq j i e) (h, l)
    | inr e ↦ m j (ground (arith, e, b))
  ]

  late-IsPolled :
      (i : ℕ) (b : Bool)
      → w.holds i ≡ b
      → HasMissed w timeout i
      → w.start + timeout * w.second ≤ w.clock i
      → IsPolled w timeout (some (b, i))
  late-IsPolled i true e m l = (m, e)
  late-IsPolled i false e m l = (m, e, l)

  poll_from-IsPolled :
      (fuel i : ℕ)
      → fuel + i ≡ timeout + 1
      → HasMissed w timeout i
      → IsPolled w timeout (poll_from w timeout fuel i)
  unfolding poll_from
  poll_from-IsPolled zero i e m =
      let last = m timeout (omega (arith, e)) in absurd (omega (arith, last.1, clock-start timeout))
  poll_from-IsPolled (suc fuel) i e m =
      elim (Bool-cases (ltb (w.clock i) (w.start + timeout * w.second))) [
        | inl a ↦ elim (Bool-cases (w.holds i)) [
          | inl h ↦ rw (a, h) (m, h)
          | inr h ↦
              rw (a, h)
                (poll_from-IsPolled fuel (suc i) (omega (arith, e))
                  (HasMissed-suc i m h (ground (arith, a))))
        ]
        | inr a ↦ rw a (late-IsPolled i (w.holds i) refl m (ground (arith, a)))
      ]

  -- Where the clock runs: `poll` returns, within `timeout + 1` evaluations. It returns true where the
  -- predicate held at the last one, and false where it held at none of them and the last one came at the
  -- deadline or after it; at all others it did not hold, before the deadline.
  pub poll-IsPolled : IsPolled w timeout (poll w timeout)
  unfolding poll
  poll-IsPolled = poll_from-IsPolled (timeout + 1) 0 (omega arith) (λ j h. elim h [ ])
