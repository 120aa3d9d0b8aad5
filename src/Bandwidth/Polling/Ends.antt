-- ===== src/Bandwidth/Polling/Ends.antt =====
-- How the waits end: never without an answer, and what each end says of the node.
use erlay_warnet.Prelude.{
  ==→eq, ◌⊎◌, ℕ, zero, suc, ◌+◌, ◌*◌, ◌≤◌, ◌<◌, ◌≡◌, refl, inl, inr, arith, false, ◌==◌, ltb, leb,
  if◌then◌else◌, List, [], ◌∷◌, length, Bool-cases, All, ltb→le, ltb→lt, leb→le,
}
use erlay_warnet.Prelude.Result.{Result, ok, err}
use erlay_warnet.Bandwidth.Polling.{
  true, Polls, IsTicking, max_retries, PollEnd, synced, false_positive, raised, stuck, out_of_fuel,
  deadline, one_short, poll_mempool, check_mempool_txs, poll_height, check_block_height, errors_of,
  SyncFailed, sync_failed, raise_errors, mempool_errors, monitor_mempool,
}

module _ (p : Polls) (target timeout : ℕ) where
  -- How many of the polls before `i` were one short.
  abbrev pub times_short : ℕ → ℕ
  times_short zero = 0
  times_short (suc i) = times_short i + (if one_short p target i then 1 else 0)

  -- The polls before `i` did not end the loop.
  abbrev pub IsWaiting : ℕ → Type 0
  IsWaiting i =
      (j : ℕ)
      → j < i
      → (p.answer j < target) × (p.clock j ≤ deadline p timeout) × (p.raises j ≡ false)

  -- What an end of `check_mempool_txs` at the poll `i` says.
  abbrev pub IsMempoolEnd : PollEnd → ℕ → Type 0
  IsMempoolEnd synced i = (p.raises i ≡ false) × (target ≤ p.answer i)
  IsMempoolEnd raised i = p.raises i ≡ true
  IsMempoolEnd false_positive i =
      (p.raises i ≡ false)
      × (p.answer i + 1 ≡ target)
      × (times_short (suc i) ≡ max_retries)
      × (p.clock i ≤ deadline p timeout)
  IsMempoolEnd (stuck seen) i =
      (seen ≡ p.answer i) × (seen < target) × (deadline p timeout < p.clock i)
  IsMempoolEnd out_of_fuel i = ⊥

  IsWaiting-suc :
      (i : ℕ)
      → IsWaiting i
      → p.raises i ≡ false
      → leb target (p.answer i) ≡ false
      → ltb (deadline p timeout) (p.clock i) ≡ false
      → IsWaiting (suc i)
  IsWaiting-suc i w returned below early j h = elim (Bool-cases (j == i)) [
    | inl e ↦ rw (==→eq j i e) (ground (arith, below), ground (arith, early), returned)
    | inr e ↦ w j (ground (arith, e, h))
  ]

  module _ (ticking : IsTicking p) where
    clock-start : (i : ℕ) → p.start + i * p.second ≤ p.clock i
    clock-start zero = omega (arith, ticking.1)
    clock-start (suc i) = omega (arith, clock-start i, ticking.2 i)

    not-IsWaiting : (i : ℕ) → i ≡ timeout + 2 → ¬ IsWaiting i
    not-IsWaiting i e w =
        let late = w (timeout + 1) (omega arith) in
        omega (arith, late.1, clock-start (timeout + 1), ticking.0)

    poll_mempool-IsMempoolEnd :
        (fuel i : ℕ)
        → fuel + i ≡ timeout + 2
        → IsWaiting i
        → times_short i < max_retries
        → (r : ℕ) → r ≡ times_short i
        → let (e, k) = poll_mempool p target timeout fuel i r in IsWaiting k × IsMempoolEnd e k
    unfolding poll_mempool
    poll_mempool-IsMempoolEnd zero i h w t r s = absurd (not-IsWaiting i (omega arith) w)
    poll_mempool-IsMempoolEnd (suc fuel) i h w t r s = elim (Bool-cases (p.raises i)) [
      | inl z ↦ rw z (w, z)
      | inr z ↦ elim (Bool-cases (leb target (p.answer i))) [
        | inl a ↦ rw (z, a) (w, (z, leb→le target (p.answer i) a))
        | inr a ↦ elim (Bool-cases (ltb (deadline p timeout) (p.clock i))) [
          | inl b ↦
              rw (z, a, b) (w, (refl, ground arith, ltb→lt (deadline p timeout) (p.clock i) b))
          | inr b ↦ elim (Bool-cases (one_short p target i)) [
            | inl c ↦ elim (Bool-cases (leb max_retries (suc r))) [
              | inl d ↦
                  rw (z, a, b, c, d)
                    (
                      w,
                      (
                        z,
                        ground (arith, c),
                        ground (arith, c, d, s, t),
                        ltb→le (deadline p timeout) (p.clock i) b,
                      ),
                    )
              | inr d ↦
                  rw (z, a, b, c, d)
                    (poll_mempool-IsMempoolEnd fuel (suc i) (omega arith) (IsWaiting-suc i w z a b)
                      (ground (arith, c, d, s)) (suc r) (ground (arith, c, s)))
            ]
            | inr c ↦
                rw (z, a, b, c)
                  (poll_mempool-IsMempoolEnd fuel (suc i) (omega arith) (IsWaiting-suc i w z a b)
                    (ground (arith, c, t)) r (ground (arith, c, s)))
          ]
        ]
      ]
    ]

    -- The wait ends within `timeout + 2` polls; up to its end no poll met the target or came late, and
    -- its end says what the last poll saw.
    pub check_mempool_txs-IsMempoolEnd :
        let (e, k) = check_mempool_txs p target timeout in IsWaiting k × IsMempoolEnd e k
    unfolding check_mempool_txs
    check_mempool_txs-IsMempoolEnd =
        poll_mempool-IsMempoolEnd (timeout + 2) 0 (omega arith) (λ j h. elim h [ ]) (omega arith) 0
          refl

  -- What an end of `check_block_height` at the poll `i` says.
  abbrev pub IsHeightEnd : PollEnd → ℕ → Type 0
  IsHeightEnd synced i = (p.raises i ≡ false) × (target ≤ p.answer i)
  IsHeightEnd raised i = p.raises i ≡ true
  IsHeightEnd false_positive i = ⊥
  IsHeightEnd (stuck seen) i =
      (seen ≡ p.answer i) × (seen < target) × (deadline p timeout < p.clock i)
  IsHeightEnd out_of_fuel i = ⊥

  module _ (ticking : IsTicking p) where
    poll_height-IsHeightEnd :
        (fuel i : ℕ)
        → fuel + i ≡ timeout + 2
        → IsWaiting i
        → let (e, k) = poll_height p target timeout fuel i in IsWaiting k × IsHeightEnd e k
    unfolding poll_height
    poll_height-IsHeightEnd zero i h w = absurd (not-IsWaiting ticking i (omega arith) w)
    poll_height-IsHeightEnd (suc fuel) i h w = elim (Bool-cases (p.raises i)) [
      | inl z ↦ rw z (w, z)
      | inr z ↦ elim (Bool-cases (leb target (p.answer i))) [
        | inl a ↦ rw (z, a) (w, (z, leb→le target (p.answer i) a))
        | inr a ↦ elim (Bool-cases (ltb (deadline p timeout) (p.clock i))) [
          | inl b ↦
              rw (z, a, b) (w, (refl, ground arith, ltb→lt (deadline p timeout) (p.clock i) b))
          | inr b ↦
              rw (z, a, b)
                (poll_height-IsHeightEnd fuel (suc i) (omega arith) (IsWaiting-suc i w z a b))
        ]
      ]
    ]

    pub check_block_height-IsHeightEnd :
        let (e, k) = check_block_height p target timeout in IsWaiting k × IsHeightEnd e k
    unfolding check_block_height
    check_block_height-IsHeightEnd =
        poll_height-IsHeightEnd (timeout + 2) 0 (omega arith) (λ j h. elim h [ ])

-- A node that had all transactions at some poll before the deadline, lacked one at ten polls, or whose call
-- raised.
abbrev pub IsLeft : (target timeout : ℕ) → Polls → Type 0
IsLeft target timeout p =
    (i : ℕ) × IsWaiting p target timeout i
    × ((p.raises i ≡ true)
        ⊎ ((p.raises i ≡ false) × (target ≤ p.answer i))
        ⊎ ((p.raises i ≡ false)
            × (p.answer i + 1 ≡ target)
            × (times_short p target timeout (suc i) ≡ max_retries)))

-- A node that lacked transactions at every poll up to one that came after the deadline.
abbrev pub IsLate : (target timeout : ℕ) → Polls → Type 0
IsLate target timeout p =
    (i : ℕ) × IsWaiting p target timeout i
    × (p.answer i < target)
    × (deadline p timeout < p.clock i)

-- Nodes of two kinds, `late` of them of the second.
abbrev pub IsSplit : (Good Late : Polls → Type 0) → List Polls → (late : ℕ) → Type 0
IsSplit Good Late [] late = late ≡ 0
IsSplit Good Late (p ∷ nodes) late =
    (Good p × IsSplit Good Late nodes late)
    ⊎ (Late p × (n : ℕ) × (late ≡ suc n) × IsSplit Good Late nodes n)

-- All nodes are good, or the error names how many of them are late.
abbrev pub IsMonitored :
    (Good Late : Polls → Type 0) → List Polls → Result SyncFailed (Unit {0}) → Type 0
IsMonitored Good Late nodes (ok _) = All Good nodes
IsMonitored Good Late nodes (err (sync_failed n)) = (0 < n) × IsSplit Good Late nodes n

module _ (Good Late : Polls → Type 0) where
  split-All : (nodes : List Polls) → IsSplit Good Late nodes 0 → All Good nodes
  split-All [] s = tt
  split-All (p ∷ nodes) (inl (c, s)) = (c, split-All nodes s)
  split-All (p ∷ nodes) (inr (_, n, e, _)) = absurd (omega arith)

  pub raised-IsMonitored :
      (nodes : List Polls) (errors : List ℕ)
      → IsSplit Good Late nodes (length errors)
      → IsMonitored Good Late nodes (raise_errors errors)
  raised-IsMonitored nodes [] s = split-All nodes s
  raised-IsMonitored nodes (e ∷ errors) s = elim (Bool-cases (ltb 0 (length (e ∷ errors)))) [
    | inl h ↦ rw h (ground (arith, h), s)
    | inr h ↦ absurd (ground (arith, h))
  ]

module _ (target timeout : ℕ) where
  mempool_end-IsSplit :
      (p : Polls) (nodes : List Polls) (errors : List ℕ) (e : PollEnd) (k : ℕ)
      → IsWaiting p target timeout k × IsMempoolEnd p target timeout e k
      → IsSplit (IsLeft target timeout) (IsLate target timeout) nodes (length errors)
      → IsSplit
          (IsLeft target timeout)
          (IsLate target timeout)
          (p ∷ nodes)
          (length (errors_of (e, k) errors))
  mempool_end-IsSplit p nodes errors synced k (w, h) s = inl ((k, w, inr (inl h)), s)
  mempool_end-IsSplit p nodes errors raised k (w, h) s = inl ((k, w, inl h), s)
  mempool_end-IsSplit p nodes errors false_positive k (w, (z, h, n, _)) s =
      inl ((k, w, inr (inr (z, h, n))), s)
  mempool_end-IsSplit p nodes errors (stuck seen) k (w, h) s =
      inr ((k, w, rw (← h.0) h.1, h.2), length errors, refl, s)
  mempool_end-IsSplit p nodes errors out_of_fuel k (w, h) s = absurd h

  mempool_errors-IsSplit :
      (nodes : List Polls)
      → All IsTicking nodes
      → IsSplit
          (IsLeft target timeout)
          (IsLate target timeout)
          nodes
          (length (mempool_errors target timeout nodes))
  mempool_errors-IsSplit [] t = refl
  mempool_errors-IsSplit (p ∷ nodes) (t, ts) =
      mempool_end-IsSplit p nodes (mempool_errors target timeout nodes) _ _
        (check_mempool_txs-IsMempoolEnd p target timeout t) (mempool_errors-IsSplit nodes ts)

  -- For nodes whose clocks run: `monitor_mempool` ends. Where it returns, every node had all transactions
  -- at some poll, was one short at ten polls, or raised at a poll, which ends its thread unseen; where it
  -- raises, the number it names is above 0 and is that of the nodes that were short at a poll after the
  -- deadline and at all polls before it, and all other nodes had caught up or raised.
  pub monitor_mempool-IsMonitored :
      (nodes : List Polls)
      → All IsTicking nodes
      → IsMonitored
          (IsLeft target timeout)
          (IsLate target timeout)
          nodes
          (monitor_mempool target timeout nodes)
  unfolding monitor_mempool
  monitor_mempool-IsMonitored nodes t =
      raised-IsMonitored (IsLeft target timeout) (IsLate target timeout) nodes
        (mempool_errors target timeout nodes) (mempool_errors-IsSplit nodes t)
