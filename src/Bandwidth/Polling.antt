-- ===== src/Bandwidth/Polling.antt =====
-- The waits of `scenarios/check_net_bandwidth.py`: polling a node until it has caught up, or for too long.
pub mod Ends
use erlay_warnet.Prelude.{
  ℕ, zero, suc, ◌+◌, ◌*◌, ◌≤◌, ◌<◌, Bool, true, false, ◌&&◌, ◌==◌, ltb, leb, if◌then◌else◌, List,
  [], ◌∷◌, length,
}
use erlay_warnet.Prelude.Result.{Result, raise_if}

-- A node as a loop meets it: whether its call raises at the poll `i`; what it answers there, a length or a
-- height, where it does not; what `time.monotonic()` reads after that answer, and what it read before the
-- loop. A second is `second` of the clock's units.
pub record Polls : Type 0 where
  pub raises : ℕ → Bool
  pub answer : ℕ → ℕ
  pub clock : ℕ → ℕ
  pub start : ℕ
  pub second : ℕ

-- `time.sleep(1)` suspends for a second at least, and the clock is monotonic.
abbrev pub IsTicking : Polls → Type 0
IsTicking p =
    (0 < p.second) × (p.start ≤ p.clock 0) × ((i : ℕ) → p.clock i + p.second ≤ p.clock (suc i))

abbrev pub max_retries : ℕ
max_retries = 10

-- How a loop ends; an exception ends the thread, and nothing else.
pub data PollEnd : Type 0 where
  synced : PollEnd
  false_positive : PollEnd
  raised : PollEnd
  stuck : (seen : ℕ) → PollEnd
  out_of_fuel : PollEnd

abbrev pub deadline : Polls → (timeout : ℕ) → ℕ
deadline p timeout = p.start + timeout * p.second

-- `raw_mempool and len(raw_mempool) == target_count - 1`, below the target.
abbrev pub one_short : Polls → (target i : ℕ) → Bool
one_short p target i = ltb 0 (p.answer i) && (p.answer i + 1 == target)

module _ (p : Polls) (target timeout : ℕ) where
  -- The loop of `check_mempool_txs` from the poll `i` on.
  unfoldable pub poll_mempool : (fuel i retries : ℕ) → PollEnd × ℕ
  poll_mempool zero i retries = (out_of_fuel, i)
  poll_mempool (suc fuel) i retries =
      let retries' = if one_short p target i then suc retries else retries in
      let rest = poll_mempool fuel (suc i) retries' in
      if p.raises i
      then (raised, i)
      else if leb target (p.answer i)
      then (synced, i)
      else if ltb (deadline p timeout) (p.clock i)
      then (stuck (p.answer i), i)
      else if one_short p target i && leb max_retries retries'
      then (false_positive, i)
      else rest

  unfoldable pub check_mempool_txs : PollEnd × ℕ
  unfolding poll_mempool
  check_mempool_txs = poll_mempool (timeout + 2) 0 0

  -- The loop of `check_block_height`.
  unfoldable pub poll_height : (fuel i : ℕ) → PollEnd × ℕ
  poll_height zero i = (out_of_fuel, i)
  poll_height (suc fuel) i =
      let rest = poll_height fuel (suc i) in
      if p.raises i
      then (raised, i)
      else if leb target (p.answer i)
      then (synced, i)
      else if ltb (deadline p timeout) (p.clock i)
      then (stuck (p.answer i), i)
      else rest

  unfoldable pub check_block_height : PollEnd × ℕ
  unfolding poll_height
  check_block_height = poll_height (timeout + 2) 0

-- What a thread appends to `errors`.
abbrev pub errors_of : PollEnd × ℕ → List ℕ → List ℕ
errors_of (stuck seen, _) errors = seen ∷ errors
errors_of (_, _) errors = errors

-- The `RuntimeError` over the number of nodes that failed.
pub data SyncFailed : Type 0 where
  sync_failed : (nodes : ℕ) → SyncFailed

abbrev pub raise_errors : List ℕ → Result SyncFailed (Unit {0})
raise_errors errors = raise_if (ltb 0 (length errors)) (sync_failed (length errors))

-- The errors of the threads of `monitor_mempool`, one for each node; their order is not used.
abbrev pub mempool_errors : (target_count timeout : ℕ) → List Polls → List ℕ
mempool_errors target_count timeout [] = []
mempool_errors target_count timeout (p ∷ nodes) =
    errors_of (check_mempool_txs p target_count timeout) (mempool_errors target_count timeout nodes)

unfoldable pub monitor_mempool :
    (target_count timeout : ℕ) → List Polls → Result SyncFailed (Unit {0})
unfolding check_mempool_txs
monitor_mempool target_count timeout nodes =
    raise_errors (mempool_errors target_count timeout nodes)
