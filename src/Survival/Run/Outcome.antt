-- ===== src/Survival/Run/Outcome.antt =====
-- What a run of check_eclipse.py reports, and why it may raise.
use erlay_warnet.Prelude.{
  ℕ, zero, suc, ◌+◌, ◌*◌, ◌≤◌, ◌<◌, ◌≡◌, ap, ◌⊎◌, refl, Bool, true, false, Option, none, some, List,
  [], ◌∷◌, length, arith, All,
}
use erlay_warnet.Prelude.Result.{
  Result, ok, err, Ends, bind-Ends, ◌>>=◌, given-then, check-then, of_option,
}
use erlay_warnet.Prelude.Text.{Text}
use erlay_warnet.Commander.{get_item, connections, wait_for_tanks_connected}
use erlay_warnet.Commander.Waiting.{Waiting, IsLawful, wait-then}
use erlay_warnet.Survival.{IsRunning, poll}
use erlay_warnet.Survival.Polled.{IsPolled, poll-IsPolled}
use erlay_warnet.Survival.Run.{
  Options, Answers, Awaited, sealed, block_at, transactions_at, Failure, no_tank, no_honest,
  not_connected, not_generated, not_sent, no_transactions, out_of_polls, timed_out, victim,
  honest_of, first_of, last_of, Setting, watch, poll_at, has_block, has_transactions, await_all,
  send_all, setting, is_sealed,
}

-- The clock gains a second from a moment to the next.
abbrev pub IsTicking : Answers → Type 0
IsTicking a = (0 < a.second) × ((t : ℕ) → a.clock t + a.second ≤ a.clock (suc t))

abbrev pub Later : ℕ → (ℕ → Bool) → Type 0
Later low holds = (t : ℕ) × (low ≤ t) × (holds t ≡ true)

module _ (W : Waiting) (L : IsLawful W) (o : Options) (a : Answers) (ticking : IsTicking a)
    (fuel : ℕ) where
  -- A wait that began at the moment had no time, or found its predicate false there.
  abbrev pub MissedAt : (ℕ → Bool) → ℕ → Type 0
  MissedAt holds t = (holds t ≡ false) ⊎ (some o.timeout ≡ some 0)

  -- How many peers the victim had before it was linked to the miner.
  abbrev pub baseline : ℕ
  baseline = length (a.peers 1)

  abbrev pub SealedAt : ℕ → Type 0
  SealedAt sealed_at =
      (synced : ℕ) × (a.generate 120 true 2 ≡ some synced)
      × (synced + 2 ≤ sealed_at)
      × (is_sealed W o a baseline sealed_at ≡ true)

  abbrev pub MinedAt : ℕ → Type 0
  MinedAt mined =
      (sealed_at : ℕ) × SealedAt sealed_at × (a.generate 1 false (sealed_at + 1) ≡ some mined)

  -- The height of the first honest tank, the miner, after its block.
  abbrev pub IsTip : (mined tip : ℕ) → Type 0
  IsTip mined tip =
      (miner : Text) × (first_of (honest_of a.network.tanks) ≡ some miner)
      × (tip ≡ a.block_count miner mined)

  -- All sends of the run, the first of them at a moment after the block.
  abbrev pub SentAt : List Text → ℕ → Type 0
  SentAt txids sent =
      (mined : ℕ) × (polled : ℕ) × MinedAt mined
      × (mined ≤ polled)
      × (send_all W o a o.tx_count polled ≡ ok (txids, sent))

  abbrev pub MissedFor : Awaited → Type 0
  MissedFor sealed =
      (synced : ℕ) × (a.generate 120 true 2 ≡ some synced)
      × MissedAt (is_sealed W o a baseline) (synced + 2)
  MissedFor (block_at name) =
      (mined : ℕ) × (tip : ℕ) × (t : ℕ) × MinedAt mined
      × IsTip mined tip
      × (mined ≤ t)
      × MissedAt (has_block W o a tip name) t
  MissedFor (transactions_at name) =
      (txids : List Text) × (sent : ℕ) × (t : ℕ) × SentAt txids sent
      × (sent ≤ t)
      × MissedAt (has_transactions W o a txids name) t

  abbrev pub IsReason : Failure → Type 0
  IsReason (no_tank name) = get_item name a.network.tanks ≡ none
  IsReason no_honest = honest_of a.network.tanks ≡ []
  IsReason not_connected =
      wait_for_tanks_connected (connections a.network.nodes a.initial_peers) fuel ≡ false
  IsReason not_generated =
      (a.generate 120 true 2 ≡ none)
      ⊎ ((sealed_at : ℕ) × SealedAt sealed_at × (a.generate 1 false (sealed_at + 1) ≡ none))
  IsReason not_sent = (mined : ℕ) × (t : ℕ) × MinedAt mined × (mined ≤ t) × (a.send t ≡ none)
  IsReason no_transactions = o.tx_count ≡ 0
  IsReason out_of_polls = ⊥
  IsReason (timed_out what) = MissedFor what

  -- The poll tells what its last look showed, and says no only after its deadline.
  abbrev pub Told : (ℕ → Bool) → (timeout low : ℕ) → Bool → ℕ → Type 0
  Told holds timeout low b u =
      (t : ℕ) × (low ≤ t)
      × (t ≤ u)
      × (holds u ≡ b)
      × (b ≡ false → a.clock t + timeout * a.second ≤ a.clock u)

  pub Told-earlier :
      (holds : ℕ → Bool) (timeout low lower : ℕ) (b : Bool) (u : ℕ)
      → lower ≤ low
      → Told holds timeout low b u
      → Told holds timeout lower b u
  Told-earlier holds timeout low lower b u le (t, h, k, l, m) = (t, omega arith, k, l, m)

  watch-IsRunning : (holds : ℕ → Bool) (t : ℕ) → IsRunning (watch W o a holds t)
  watch-IsRunning holds t =
      let here : t + 0 ≡ t = omega arith in
      let first : a.clock t ≤ a.clock (t + 0) = rw here (omega arith) in
      (ticking.0, first, λ i. next i (ticking.1 (t + i)))
    where
      next :
          (i : ℕ)
          → a.clock (t + i) + a.second ≤ a.clock (suc (t + i))
          → a.clock (t + i) + a.second ≤ a.clock (t + suc i)
      next i h = let e : t + suc i ≡ suc (t + i) = omega arith in rw e h

  pub poll_at-Told :
      (holds : ℕ → Bool) (timeout t : ℕ)
      → Ends
          (λ (p : Bool × ℕ). Told holds timeout t p.0 p.1)
          IsReason
          (poll_at W o a holds timeout t)
  unfolding poll_at
  poll_at-Told holds timeout t =
      go (poll (watch W o a holds t) timeout) (poll-IsPolled _ timeout (watch-IsRunning holds t))
    where
      go :
          (r : Option (Bool × ℕ))
          → IsPolled (watch W o a holds t) timeout r
          → Ends
              (λ (p : Bool × ℕ). Told holds timeout t p.0 p.1)
              IsReason
              (of_option out_of_polls r >>= λ p. ok (p.0, t + p.1))
      go none h = elim h [ ]
      go (some (true, i)) (m, h) = (t, omega arith, omega arith, h, λ e. cc)
      go (some (false, i)) (m, h, late) = (t, omega arith, omega arith, h, λ _. late)

  pub await_all-Later :
      (what : Text → Awaited) (holds : Text → ℕ → Bool) (start : ℕ)
      → ((name : Text) (t : ℕ)
          → start ≤ t
          → (holds name t ≡ false) ⊎ (some o.timeout ≡ some 0)
          → MissedFor (what name))
      → (names : List Text) (low t : ℕ) → low ≤ t
      → start ≤ t
      → Ends
          (λ u. (low ≤ u) × All (λ n. Later low (holds n)) names)
          IsReason
          (await_all W o a what holds names t)
  unfolding await_all
  await_all-Later what holds start missed [] low t le since = (le, tt)
  await_all-Later what holds start missed (n ∷ names) low t le since =
      let Q = λ (u : ℕ). (low ≤ u) × All (λ n. Later low (holds n)) (n ∷ names) in
      wait-then W L _ _ (holds n) t _ Q IsReason
        (λ u le' h.
          add n names low u (omega arith) h _
            (await_all-Later what holds start missed names low u (omega arith) (omega arith)))
        (missed n t since)
    where
      add :
          (n : Text) (names : List Text) (low u : ℕ)
          → low ≤ u
          → holds n u ≡ true
          → (r : Result Failure ℕ)
          → Ends (λ v. (low ≤ v) × All (λ n. Later low (holds n)) names) IsReason r
          → Ends (λ v. (low ≤ v) × All (λ n. Later low (holds n)) (n ∷ names)) IsReason r
      add n names low u le h (err e) k = k
      add n names low u le h (ok v) (le', k) = (le', ((u, le, h), k))

  pub send_all-length :
      (mined : ℕ)
      → MinedAt mined
      → (n t : ℕ) → mined ≤ t
      → Ends (λ (p : List Text × ℕ). length p.0 ≡ n) IsReason (send_all W o a n t)
  unfolding send_all
  send_all-length mined m zero t le = refl
  send_all-length mined m (suc n) t le =
      let Q = λ (p : List Text × ℕ). length p.0 ≡ suc n in
      given-then Q IsReason _ (a.send t) _ (λ e. (mined, t, m, le, e))
        λ txid _.
          bind-Ends (λ (p : List Text × ℕ). length p.0 ≡ n) Q IsReason _ _
            (send_all-length mined m n (suc t) (omega arith)) λ p h. ap suc h

  pub last_of-none : (ts : List Text) → last_of ts ≡ none → length ts ≡ 0
  last_of-none [] e = refl
  last_of-none (t ∷ []) e = cc
  last_of-none (t ∷ u ∷ ts) e = let rest = last_of-none (u ∷ ts) e in absurd (omega (arith, rest))

  abbrev pub IsSetting : Setting → Type 0
  IsSetting s =
      (s.honest ≡ honest_of a.network.tanks)
      × (first_of (honest_of a.network.tanks) ≡ some s.miner)
      × (s.baseline_peers ≡ baseline)

  first_of-none : (ts : List Text) → first_of ts ≡ none → ts ≡ []
  first_of-none [] e = refl
  first_of-none (t ∷ ts) e = cc

  pub setting-IsSetting : Ends IsSetting IsReason (setting W o a fuel)
  unfolding setting
  setting-IsSetting =
      given-then IsSetting IsReason _ (get_item victim a.network.tanks) _ (λ e. e)
        λ _ _.
          given-then IsSetting IsReason _ (first_of (honest_of a.network.tanks)) _
            (first_of-none (honest_of a.network.tanks))
            λ miner is_first.
              given-then IsSetting IsReason _ (get_item miner a.network.tanks) _ (λ e. e)
                λ _ _.
                  check-then IsSetting IsReason _
                    (wait_for_tanks_connected (connections a.network.nodes a.initial_peers) fuel) _
                    (λ e. e) λ _. (refl, is_first, refl)
