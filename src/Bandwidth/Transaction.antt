-- ===== src/Bandwidth/Transaction.antt =====
-- `generate_transaction` and `create_txs` of `scenarios/check_net_bandwidth.py`. Amounts are in satoshis.
pub mod Values
use erlay_warnet.Prelude.{
  none, some, Option, ℕ, zero, suc, ◌+◌, ◌*◌, ◌-◌, ◌/◌, Bool, ◌&&◌, ltb, leb, if◌then◌else◌, List,
  [], ◌∷◌, ◌++◌, map, keep, take, length,
}
use erlay_warnet.Prelude.Text.{Text}

-- `MIN_UTXO_VALUE`, 0.0002, and the fee of a transaction, 0.00001.
abbrev pub min_utxo_value : ℕ
min_utxo_value = 20000

abbrev pub fee : ℕ
fee = 1000

-- An entry of `listunspent`; `txid` is the number that its hexadecimal digits spell.
pub record Utxo : Type 0 where
  pub txid : ℕ
  pub vout : ℕ
  pub amount : ℕ
  pub spendable : Bool

pub record TxIn : Type 0 where
  pub hash : ℕ
  pub n : ℕ

pub record TxOut (Script : Type 0) : Type 0 where
  pub value : ℕ
  pub script_pubkey : Script

pub record Transaction (Script : Type 0) : Type 0 where
  pub vin : List TxIn
  pub vout : List (TxOut Script)

-- The wallet and the library calls: `getnewaddress` with `address_to_scriptpubkey`,
-- `signrawtransactionwithwallet` over the serialised transaction, `listunspent(1)`, and `satoshi_round`
-- on a number of quarters of a satoshi.
pub record WalletRpc : Type 1 where
  pub State : Type 0
  pub Script : Type 0
  pub Hex : Type 0
  pub new_script : State → Script × State
  pub sign : Transaction Script → State → Hex × State
  pub listunspent : State → List Utxo
  pub satoshi_round : (quarters : ℕ) → ℕ

module _ (W : WalletRpc) where
  -- `[CTxOut(value, …) for _ in range(n)]`, with a new address for each.
  unfoldable pub outputs : (value n : ℕ) → W.State → List (TxOut W.Script) × W.State
  outputs value zero s = ([], s)
  outputs value (suc n) s =
      let (script, s') = W.new_script s in
      let (rest, s'') = outputs value n s' in
      (record { value = value; script_pubkey = script } ∷ rest, s'')

  -- The transaction before it is signed. The last output is made only where the difference is positive.
  unfoldable pub unsigned : Utxo → W.State → Transaction W.Script × W.State
  unfolding outputs
  unsigned utxo s =
      let output_amount = W.satoshi_round utxo.amount in
      let output_minus_fee = W.satoshi_round (4 * (output_amount - fee)) in
      let vin = record { hash = utxo.txid; n = utxo.vout } ∷ [] in
      let (vout, s') = outputs output_amount 3 s in
      let (last, s'') = outputs output_minus_fee 1 s' in
      if ltb (2 * fee) output_amount
      then (record { vin = vin; vout = vout ++ last }, s'')
      else (record { vin = vin; vout = vout }, s')

  unfoldable pub generate_transaction : Utxo → W.State → W.Hex × W.State
  unfolding unsigned
  generate_transaction utxo s = let (tx, s') = unsigned utxo s in W.sign tx s'

  -- `u['spendable'] and u["amount"] >= MIN_UTXO_VALUE`
  abbrev pub is_usable : Utxo → Bool
  is_usable u = u.spendable && leb min_utxo_value u.amount

  abbrev pub usable : W.State → List Utxo
  usable s = keep is_usable (W.listunspent s)

  unfoldable pub generate_all : List Utxo → W.State → List W.Hex × W.State
  unfolding generate_transaction
  generate_all [] s = ([], s)
  generate_all (u ∷ us) s =
      let (tx, s') = generate_transaction u s in
      let (txs, s'') = generate_all us s' in (tx ∷ txs, s'')

  -- `none` stands for the `ValueError` over too few outputs.
  unfoldable pub create_txs : (n : ℕ) → W.State → Option (List W.Hex) × W.State
  unfolding generate_all
  create_txs n s =
      let utxos = usable s in
      let (txs, s') = generate_all (take n utxos) s in
      if leb n (length utxos) then (some txs, s') else (none, s)
