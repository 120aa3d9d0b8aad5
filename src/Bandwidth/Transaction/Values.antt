-- ===== src/Bandwidth/Transaction/Values.antt =====
-- What a generated transaction pays, and what it leaves for the fee.
use erlay_warnet.Prelude.{
  ℕ, ◌+◌, ◌*◌, ◌-◌, ◌/◌, ◌≤◌, ◌<◌, ◌≡◌, refl, arith, inl, inr, ltb, leb, List, [], ◌∷◌, map, take,
  length, sum, All, Bool-cases, Option, some, none, All-keep, take-All, All-mono, length-take_le,
}
use erlay_warnet.Bandwidth.Transaction.{
  min_utxo_value, fee, Utxo, TxOut, Transaction, WalletRpc, outputs, unsigned, generate_transaction,
  is_usable, usable, generate_all, create_txs,
}

-- `satoshi_round` rounds down to whole satoshis.
abbrev pub IsRounding : WalletRpc → Type 0
IsRounding W = (q : ℕ) → W.satoshi_round q ≡ q / 4

module _ (W : WalletRpc) (rounding : IsRounding W) where
  abbrev pub paid : Transaction W.Script → ℕ
  paid tx = sum (map (λ (o : TxOut W.Script). o.value) tx.vout)

  -- What the transaction of an output of `amount` satoshis is to be.
  pub record IsSplit (utxo : Utxo) (tx : Transaction W.Script) : Type 0 where
    pub spends : tx.vin ≡ record { hash = utxo.txid; n = utxo.vout } ∷ []
    -- four outputs, and the fee is 1000 satoshis and what the division by 4 leaves over
    pub split :
        2 * fee < utxo.amount / 4
        → (length tx.vout ≡ 4) × (paid tx + fee ≤ utxo.amount) × (utxo.amount ≤ paid tx + fee + 3)
    -- three outputs, and the remainder is the fee
    pub small : utxo.amount / 4 ≤ 2 * fee → (length tx.vout ≡ 3) × (3 * (utxo.amount / 4) ≡ paid tx)

  pub unsigned-IsSplit : (utxo : Utxo) (s : W.State) → IsSplit utxo (unsigned W utxo s).0
  unfolding unsigned outputs
  unsigned-IsSplit utxo s = elim (Bool-cases (ltb (2 * fee) (utxo.amount / 4))) [
    | inl e ↦
        rw (rounding utxo.amount, rounding (4 * (utxo.amount / 4 - fee)), e)
          (record {
            spends = refl;
            split = λ h. (refl, ground arith, ground arith);
            small = λ h. absurd (ground (arith, e, h));
          })
    | inr e ↦
        rw (rounding utxo.amount, e)
          (record {
            spends = refl;
            split = λ h. absurd (ground (arith, e, h));
            small = λ h. (refl, ground arith);
          })
  ]

  -- `hex` is what the wallet signs for a four-way split of `utxo`.
  abbrev pub IsSignedSplit : Utxo → W.Hex → Type 0
  IsSignedSplit utxo hex =
      (tx : Transaction W.Script) × (s : W.State) × (hex ≡ (W.sign tx s).0)
      × (tx.vin ≡ record { hash = utxo.txid; n = utxo.vout } ∷ [])
      × (length tx.vout ≡ 4)
      × (paid tx + fee ≤ utxo.amount)
      × (utxo.amount ≤ paid tx + fee + 3)

  -- One signed transaction for each output, in order.
  abbrev pub AreSignedSplits : List Utxo → List W.Hex → Type 0
  AreSignedSplits [] [] = Unit {0}
  AreSignedSplits [] (_ ∷ _) = ⊥
  AreSignedSplits (_ ∷ _) [] = ⊥
  AreSignedSplits (u ∷ us) (hex ∷ hexes) = IsSignedSplit u hex × AreSignedSplits us hexes

  generate_transaction-IsSignedSplit :
      (u : Utxo) (s : W.State)
      → min_utxo_value ≤ u.amount
      → IsSignedSplit u (generate_transaction W u s).0
  unfolding generate_transaction
  generate_transaction-IsSignedSplit u s h =
      let made = unsigned-IsSplit u s in
      let (four, least, most) = made.split (omega arith) in
      ((unsigned W u s).0, (unsigned W u s).1, refl, made.spends, four, least, most)

  generate_all-AreSignedSplits :
      (us : List Utxo) (s : W.State)
      → All (λ u. min_utxo_value ≤ u.amount) us
      → AreSignedSplits us (generate_all W us s).0
  unfolding generate_all
  generate_all-AreSignedSplits [] s h = tt
  generate_all-AreSignedSplits (u ∷ us) s (enough, h) = (
    generate_transaction-IsSignedSplit u s enough,
    generate_all-AreSignedSplits us (generate_transaction W u s).1 h,
  )

  -- How `create_txs` may end.
  abbrev pub IsCreated : (n : ℕ) → W.State → Option (List W.Hex) × W.State → Type 0
  IsCreated n s (none, s') = (length (usable W s) < n) × (s' ≡ s)
  IsCreated n s (some txs, s') =
      (length (take n (usable W s)) ≡ n) × AreSignedSplits (take n (usable W s)) txs

  usable_values : (s : W.State) → All (λ u. min_utxo_value ≤ u.amount) (usable W s)
  usable_values s =
      All-mono _ _ (usable W s) (λ u h. ground (arith, h))
        (All-keep (is_usable W) (W.listunspent s))

  -- For every wallet whose `satoshi_round` rounds down: `create_txs` either finds fewer than `n`
  -- spendable outputs of 20000 satoshis or more, and changes nothing, or signs `n` transactions for the
  -- first `n` of them, in order, each with that output as its one input and four outputs, which leave a
  -- fee of 1000 to 1003 satoshis.
  pub create_txs-IsCreated : (n : ℕ) (s : W.State) → IsCreated n s (create_txs W n s)
  unfolding create_txs
  create_txs-IsCreated n s = elim (Bool-cases (leb n (length (usable W s)))) [
    | inl e ↦ rw e (
      length-take_le n (usable W s) (ground (arith, e)),
      generate_all-AreSignedSplits (take n (usable W s)) s
          (take-All _ n (usable W s) (usable_values s)),
    )
    | inr e ↦ rw e (ground (arith, e), refl)
  ]
