-- ===== src/Bandwidth/Mining/Matures.antt =====
-- `mine_blocks` mines enough blocks, and returns only when all nodes have them.
use erlay_warnet.Prelude.{
  ℕ, ◌+◌, ◌-◌, ◌≤◌, ◌<◌, ◌≡◌, ◌⊎◌, true, false, Option, none, some, refl, arith, List, [], ◌∷◌,
  length, All, inl, inr,
}
use erlay_warnet.Prelude.Result.{Result, ok, err, ◌>>◌, ◌>>=◌, of_option}
use erlay_warnet.Bandwidth.Transaction.{WalletRpc, usable}
use erlay_warnet.Bandwidth.Polling.{
  Polls, PollEnd, IsTicking, synced, false_positive, raised, stuck, out_of_fuel, errors_of,
  SyncFailed, sync_failed, raise_errors,
}
use erlay_warnet.Bandwidth.Polling.Ends.{
  IsWaiting, IsHeightEnd, IsLate, IsSplit, IsMonitored, raised-IsMonitored,
  check_block_height-IsHeightEnd,
}
use erlay_warnet.Bandwidth.Mining.{
  MineError, not_generated, behind, or_behind, MinerRpc, block_sync_timeout, blocks_to_mine,
  height_errors, others, mine_blocks,
}

-- How many blocks of a chain of this height have coinbase outputs that can be spent: those with 101
-- confirmations.
abbrev pub mature : (height : ℕ) → ℕ
mature height = height - 100

-- For every number of outputs in the wallet and every height: one block at least is mined, and the
-- outputs together with the coinbase outputs that become spendable at the new height are `n` or more.
pub blocks_to_mine_matures :
    (n utxo_count block_count : ℕ)
    → let blocks = blocks_to_mine n utxo_count block_count in
      (1 ≤ blocks) × (n ≤ utxo_count + (mature (block_count + blocks) - mature block_count))
unfolding blocks_to_mine
blocks_to_mine_matures n utxo_count block_count = (ground arith, ground arith)

-- A node that had the height at some poll, or raised there, and was short of it, not yet late, at all polls
-- before.
abbrev pub IsReached : (height : ℕ) → Polls → Type 0
IsReached height p =
    (i : ℕ) × IsWaiting p height block_sync_timeout i
    × ((p.raises i ≡ true) ⊎ ((p.raises i ≡ false) × (height ≤ p.answer i)))

abbrev pub IsBehind : (height : ℕ) → Polls → Type 0
IsBehind height = IsLate height block_sync_timeout

module _ (height : ℕ) where
  height_end-IsSplit :
      (p : Polls) (nodes : List Polls) (errors : List ℕ) (e : PollEnd) (k : ℕ)
      → IsWaiting p height block_sync_timeout k × IsHeightEnd p height block_sync_timeout e k
      → IsSplit (IsReached height) (IsBehind height) nodes (length errors)
      → IsSplit (IsReached height) (IsBehind height) (p ∷ nodes) (length (errors_of (e, k) errors))
  height_end-IsSplit p nodes errors synced k (w, h) s = inl ((k, w, inr h), s)
  height_end-IsSplit p nodes errors raised k (w, h) s = inl ((k, w, inl h), s)
  height_end-IsSplit p nodes errors false_positive k (w, h) s = absurd h
  height_end-IsSplit p nodes errors (stuck seen) k (w, h) s =
      inr ((k, w, rw (← h.0) h.1, h.2), length errors, refl, s)
  height_end-IsSplit p nodes errors out_of_fuel k (w, h) s = absurd h

  height_errors-IsSplit :
      (nodes : List Polls)
      → All IsTicking nodes
      → IsSplit (IsReached height) (IsBehind height) nodes (length (height_errors height nodes))
  height_errors-IsSplit [] t = refl
  height_errors-IsSplit (p ∷ nodes) (t, ts) =
      height_end-IsSplit p nodes (height_errors height nodes) _ _
        (check_block_height-IsHeightEnd p height block_sync_timeout t)
        (height_errors-IsSplit nodes ts)

module _ (W : WalletRpc) (M : MinerRpc W) (n : ℕ) (nodes : List (ℕ × Polls)) (s : W.State) where
  -- The wallet before mining, what it mines, and the height that the chain then has.
  abbrev pub before : W.State
  before = M.ensure_miner s

  abbrev pub blocks : ℕ
  blocks = blocks_to_mine n (length (usable W before)) (M.getblockcount before)

  abbrev pub generated : Option W.State
  generated = M.generatetoaddress blocks (W.new_script before).0 (W.new_script before).1

  abbrev pub new_height : ℕ
  new_height = M.getblockcount before + blocks

  -- How `mine_blocks` may end.
  abbrev pub IsMined : Result MineError W.State → Type 0
  IsMined (ok s') = (generated ≡ some s') × All (IsReached new_height) (others M.index nodes)
  IsMined (err not_generated) = generated ≡ none
  IsMined (err (behind (sync_failed k))) =
      (0 < k) × IsSplit (IsReached new_height) (IsBehind new_height) (others M.index nodes) k

  IsMined-outcome :
      (s' : W.State) (r : Result SyncFailed (Unit {0}))
      → generated ≡ some s'
      → IsMonitored (IsReached new_height) (IsBehind new_height) (others M.index nodes) r
      → IsMined (or_behind r >> ok s')
  IsMined-outcome s' (ok _) e h = (e, h)
  IsMined-outcome s' (err (sync_failed k)) e h = h

  IsMined-generated :
      (made : Option W.State)
      → generated ≡ made
      → All IsTicking (others M.index nodes)
      → IsMined (do
        (s', height) ← of_option not_generated (elim made as (λ _. Option (W.State × ℕ)) [
          | none ↦ none
          | some s' ↦ some (s', M.getblockcount before + blocks)
        ])
        or_behind (raise_errors (height_errors height (others M.index nodes)))
        ok s')
  IsMined-generated none e t = e
  IsMined-generated (some s') e t = IsMined-outcome s' _ e (
      raised-IsMonitored (IsReached new_height) (IsBehind new_height) (others M.index nodes)
        (height_errors new_height (others M.index nodes))
        (height_errors-IsSplit new_height (others M.index nodes) t))

  -- For nodes whose clocks run: `mine_blocks` ends. The wallet mines the blocks that `blocks_to_mine`
  -- names for its usable outputs and the height of the chain. Where it returns, mining has, and every node
  -- but the miner had the height of before and these blocks at some poll, or raised at a poll, which ends
  -- its thread unseen. It raises where mining does; else the number it names is above 0 and is that of the
  -- nodes but the miner that were short of the height at a poll after the deadline and at all polls before
  -- it, and all others had reached it or raised.
  pub mine_blocks-IsMined :
      All IsTicking (others M.index nodes) → IsMined (mine_blocks W M n nodes s)
  unfolding mine_blocks
  mine_blocks-IsMined t = IsMined-generated generated refl t
