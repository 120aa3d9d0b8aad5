-- ===== src/Bandwidth/Orders.antt =====
-- `orders` of `scenarios/check_net_bandwidth.py`: the repeated experiment, up to the averages it logs.
pub mod Ends
pub mod Sums
pub mod Report
use erlay_warnet.Prelude.{
  ℕ, zero, suc, ◌+◌, ◌||◌, Option, none, some, List, [], ◌∷◌, ◌++◌, length, ltb,
}
use erlay_warnet.Prelude.Int.{ℤ, pos, pos_part, ltb_ℤ}
use erlay_warnet.Prelude.Result.{Result, ok, err, ◌>>=◌, ◌>>◌, raise_if, check}
use erlay_warnet.Prelude.Text.{Text, codes}
use erlay_warnet.Commander.{wait_for_tanks_connected}
use erlay_warnet.Commander.{Peer as InitialPeer}
use erlay_warnet.Bandwidth.Counter.{Counter, add}
use erlay_warnet.Bandwidth.Stats.{
  NetMsgStats, Tally, get_net_stats, sent_difference, Transport, v1, v2, inv_entries,
}
use erlay_warnet.Bandwidth.Polling.{Polls, SyncFailed, sync_failed, monitor_mempool}
use erlay_warnet.Bandwidth.Transaction.{WalletRpc, create_txs}
use erlay_warnet.Bandwidth.Mining.{MinerRpc, MineError, not_generated, behind, mine_blocks}
use erlay_warnet.Bandwidth.Broadcast.{SendRpc, broadcast_txs}
use erlay_warnet.Bandwidth.Connections.{
  NodePeers, WrongTransport, wrong_transport, ensure_all_connections,
}
use erlay_warnet.Bandwidth.Propagation.{MempoolEntry, NoTime, propagation_time}

pub record Options : Type 0 where
  pub tx_count : ℤ
  pub n : ℤ
  pub transport : Transport
  pub mempool_timeout : ℕ

abbrev pub default_options : Options
default_options = record { tx_count = pos 80; n = pos 1; transport = v2; mempool_timeout = 120 }

abbrev pub transport_name : Transport → Text
transport_name v1 = codes "v1"
transport_name v2 = codes "v2"

-- How the experiment may be given up; a send fails with an error of the node.
pub data Abort (E : Type 0) : Type 0 where
  too_few_nodes : (nodes : ℕ) → Abort E
  bad_counts : (n tx_count : ℤ) → Abort E
  not_connected : Abort E
  mixed_transport : (connections : ℕ) → Abort E
  not_mined : Abort E
  block_sync_failed : (nodes : ℕ) → Abort E
  not_enough_utxos : Abort E
  no_target : Abort E
  send_failed : E → Abort E
  send_never_ends : Abort E
  mempool_sync_failed : (nodes : ℕ) → Abort E
  no_time : NoTime → Abort E

-- What the experiment adds up.
pub record Results : Type 0 where
  pub diff_count : Counter
  pub diff_bytes : Counter
  pub inv_entry_count : List ℤ
  pub propagation_times : List ℤ

abbrev pub no_results : Results
no_results = record {
  diff_count = [];
  diff_bytes = [];
  inv_entry_count = [];
  propagation_times = [];
}

-- `txs[-1]`
abbrev pub last : {A : Type 0} → List A → Option A
last [] = none
last (x ∷ []) = some x
last (x ∷ y ∷ xs) = last (y ∷ xs)

module _ {E : Type 0} where
  abbrev pub or_abort : {A : Type 0} → (ℕ → Abort E) → Result SyncFailed A → Result (Abort E) A
  or_abort abort (ok a) = ok a
  or_abort abort (err (sync_failed n)) = err (abort n)

  abbrev pub or_mined : {A : Type 0} → Result MineError A → Result (Abort E) A
  or_mined (ok a) = ok a
  or_mined (err not_generated) = err not_mined
  or_mined (err (behind (sync_failed n))) = err (block_sync_failed n)

  abbrev pub or_mixed : Result WrongTransport (Unit {0}) → Result (Abort E) (Unit {0})
  or_mixed (ok a) = ok a
  or_mixed (err (wrong_transport n)) = err (mixed_transport n)

  abbrev pub or_none : {A : Type 0} → Abort E → Option A → Result (Abort E) A
  or_none abort none = err abort
  or_none abort (some a) = ok a

  abbrev pub or_sent : {A : Type 0} → Option (Result E A) → Result (Abort E) A
  or_sent none = err send_never_ends
  or_sent (some (ok a)) = ok a
  or_sent (some (err e)) = err (send_failed e)

  abbrev pub or_no_time : Result NoTime ℤ → Result (Abort E) ℤ
  or_no_time (ok t) = ok t
  or_no_time (err e) = err (no_time e)

-- What the nodes answer in one iteration: to the two waits, to `getnetmsgstats` before and after, and
-- to `getmempoolentry` for a transaction, on all nodes but the first.
pub record Round (W : WalletRpc) : Type 0 where
  pub heights : List (ℕ × Polls)
  pub before : List NetMsgStats
  pub mempools : List Polls
  pub after : List NetMsgStats
  pub entries : W.Hex → List (Option MempoolEntry)

module _ (W : WalletRpc) (M : MinerRpc W) (E : Type 0)
    (send : ℕ → W.Hex → W.State → Result E W.State) (nodes : List NodePeers)
    (options : Options) where
  abbrev pub send_rpc : SendRpc
  send_rpc = record { State = W.State; Tx = W.Hex; Error = E; send = send }

  -- The body of the loop.
  unfoldable pub iteration : Round W → Results × W.State → Result (Abort E) (Results × W.State)
  iteration round (results, s) = do
    let tx_count = pos_part options.tx_count
    s' ← or_mined (mine_blocks W M tx_count round.heights s)
    let (created, s'') = create_txs W tx_count s'
    txs ← or_none not_enough_utxos created
    target ← or_none no_target (last txs)
    s''' ← or_sent (broadcast_txs send_rpc (length nodes) txs s'')
    or_abort mempool_sync_failed (monitor_mempool tx_count options.mempool_timeout round.mempools)
    time ← or_no_time (propagation_time (round.entries target))
    let sent = sent_difference (get_net_stats round.before) (get_net_stats round.after)
    ok (
      record {
        diff_count = add results.diff_count sent.counts;
        diff_bytes = add results.diff_bytes sent.bytes;
        inv_entry_count =
            results.inv_entry_count ++ (inv_entries options.transport sent.counts sent.bytes ∷ []);
        propagation_times = results.propagation_times ++ (time ∷ []);
      },
      s''',
    )

  -- `for i in range(n)`, on the iterations that are left.
  unfoldable pub iterations :
      (left i : ℕ) → (ℕ → Round W) → Results × W.State → Result (Abort E) (Results × W.State)
  unfolding iteration
  iterations zero i rounds r = ok r
  iterations (suc left) i rounds r = do
    r' ← iteration (rounds i) r
    iterations left (suc i) rounds r'

  -- The wait for the tanks' connections is on as many polls of each as there is fuel.
  unfoldable pub orders :
      (tanks : List (ℕ × (ℕ → Option (List InitialPeer))))
      → (fuel : ℕ) → (ℕ → Round W)
      → W.State
      → Result (Abort E) (Results × W.State)
  unfolding iterations
  orders tanks fuel rounds s = do
    raise_if (ltb (length nodes) 2) (too_few_nodes (length nodes))
    raise_if (ltb_ℤ options.n (pos 1) || ltb_ℤ options.tx_count (pos 1))
        (bad_counts options.n options.tx_count)
    check (wait_for_tanks_connected tanks fuel) not_connected
    or_mixed (ensure_all_connections (transport_name options.transport) nodes)
    iterations (pos_part options.n) 0 rounds (no_results, s)
