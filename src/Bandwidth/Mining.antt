-- ===== src/Bandwidth/Mining.antt =====
-- `mine_blocks` of `scenarios/check_net_bandwidth.py`.
pub mod Matures
use erlay_warnet.Prelude.{
  ℕ, zero, suc, ◌+◌, ◌*◌, ◌-◌, ◌≤◌, Option, none, some, Bool, not, ◌==◌, ltb, leb, if◌then◌else◌,
  List, [], ◌∷◌, map, keep, length,
}
use erlay_warnet.Prelude.Result.{Result, ok, err, ◌>>=◌, ◌>>◌, of_option}
use erlay_warnet.Bandwidth.Transaction.{WalletRpc, usable}
use erlay_warnet.Bandwidth.Polling.{
  Polls, PollEnd, check_block_height, errors_of, SyncFailed, raise_errors,
}

-- Block count and mining of the node that mines, on the state of its wallet, with
-- `Commander.ensure_miner`, which makes the wallet where it is missing. `none` is an exception of
-- `generatetoaddress`: that of the node, or the `AssertionError` of the `sync_all` with which it ends.
pub record MinerRpc (W : WalletRpc) : Type 0 where
  pub index : ℕ
  pub ensure_miner : W.State → W.State
  pub getblockcount : W.State → ℕ
  pub generatetoaddress : (nblocks : ℕ) → W.Script → W.State → Option W.State

-- `BLOCK_SYNC_TIMEOUT`
abbrev pub block_sync_timeout : ℕ
block_sync_timeout = 120

unfoldable pub blocks_to_mine : (n utxo_count block_count : ℕ) → ℕ
blocks_to_mine n utxo_count block_count =
    if leb n utxo_count
    then 1
    else if ltb 100 block_count
    then n - utxo_count
    else 100 + (n - utxo_count)

-- The errors of the threads, one for each node; their order is not used.
abbrev pub height_errors : (height : ℕ) → List Polls → List ℕ
height_errors height [] = []
height_errors height (p ∷ nodes) =
    errors_of (check_block_height p height block_sync_timeout) (height_errors height nodes)

-- The node of each index, as the loop of its thread meets it.
abbrev pub others : (index : ℕ) → List (ℕ × Polls) → List Polls
others index nodes = map (λ e. e.1) (keep (λ e. not (e.0 == index)) nodes)

-- Mining raises, or nodes do not reach its height.
pub data MineError : Type 0 where
  not_generated : MineError
  behind : SyncFailed → MineError

abbrev pub or_behind : Result SyncFailed (Unit {0}) → Result MineError (Unit {0})
or_behind (ok a) = ok a
or_behind (err e) = err (behind e)

module _ (W : WalletRpc) (M : MinerRpc W) where
  -- The state after mining, and the height that is waited for.
  unfoldable pub mine : (n : ℕ) → W.State → Option (W.State × ℕ)
  unfolding blocks_to_mine
  mine n s =
      let s' = M.ensure_miner s in
      let utxo_count = length (usable W s') in
      let block_count = M.getblockcount s' in
      let blocks = blocks_to_mine n utxo_count block_count in
      let (script, s'') = W.new_script s' in
      elim (M.generatetoaddress blocks script s'') [
        | none ↦ none
        | some made ↦ some (made, block_count + blocks)
      ]

  unfoldable pub mine_blocks : (n : ℕ) → List (ℕ × Polls) → W.State → Result MineError W.State
  unfolding mine
  mine_blocks n nodes s = do
    (s', height) ← of_option not_generated (mine n s)
    or_behind (raise_errors (height_errors height (others M.index nodes)))
    ok s'
