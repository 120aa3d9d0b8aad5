-- ===== src/Bandwidth/Tests.antt =====
-- A small network in which the experiment of `scenarios/check_net_bandwidth.py` runs, and the theorems at it.
use erlay_warnet.Commander.{wait_for_tanks_connected}
use erlay_warnet.Commander.{Peer as InitialPeer}
use erlay_warnet.Prelude.Float.{nearest}
use erlay_warnet.Bandwidth.Averages.{tidy, mean, whole, fraction, in_seconds, net_report, sum_ℤ}
use erlay_warnet.Bandwidth.Averages.{figure_of}
use erlay_warnet.Bandwidth.Averages.Near.{IsNear, tidy-IsNear}
use erlay_warnet.Bandwidth.Averages.Whole.{IsWholeReport, net_report-IsWhole}
use erlay_warnet.Bandwidth.Counter.{Counter, count_at, increment, add, subtract}
use erlay_warnet.Prelude.{
  leb, if◌then◌else◌, ℕ, ◌+◌, ◌-◌, ◌*◌, ◌/◌, ◌≤◌, ◌≡◌, refl, arith, Bool, true, false, Option, none,
  some, List, [], ◌∷◌,
}
use erlay_warnet.Prelude.Int.{◌+ℤ◌, negsuc, ◌-ℤ◌, ℤ, pos}
use erlay_warnet.Prelude.Result.{Result, ok, err, Ends}
use erlay_warnet.Prelude.Text.{codes}
use erlay_warnet.Bandwidth.Counter.{subtract, increment, Counter, count_at, add}
use erlay_warnet.Bandwidth.Counter.Laws.{count_at-add}
use erlay_warnet.Bandwidth.Stats.{NetMsgStats, get_net_stats, sent_difference, inv_entries, v1}
use erlay_warnet.Bandwidth.Stats.Totals.{
  net_entries, IsTally, get_net_stats-IsTally, inv_entries_exact,
}
use erlay_warnet.Bandwidth.Polling.{
  check_block_height, Polls, IsTicking, monitor_mempool, check_mempool_txs, false_positive, stuck,
}
use erlay_warnet.Bandwidth.Polling.Ends.{IsLeft, IsLate, IsMonitored, monitor_mempool-IsMonitored}
use erlay_warnet.Bandwidth.Transaction.{Utxo, Transaction, WalletRpc, create_txs}
use erlay_warnet.Bandwidth.Transaction.Values.{IsRounding, IsCreated, create_txs-IsCreated}
use erlay_warnet.Bandwidth.Mining.{MinerRpc, blocks_to_mine, mine_blocks}
use erlay_warnet.Bandwidth.Mining.Matures.{
  mature, blocks_to_mine_matures, IsMined, mine_blocks-IsMined,
}
use erlay_warnet.Bandwidth.Broadcast.{SendRpc, broadcast_txs}
use erlay_warnet.Bandwidth.Broadcast.Plan.{send_all, broadcast_txs-plan}
use erlay_warnet.Bandwidth.Connections.{
  NodePeers, ensure_all_connections, IsEnsured, ensure_all_connections-IsEnsured,
}
use erlay_warnet.Bandwidth.Propagation.{MempoolEntry, propagation_time}
use erlay_warnet.Bandwidth.Propagation.Time.{IsTime, propagation_time-IsTime}
use erlay_warnet.Bandwidth.Orders.{default_options, Options, Abort, Results, Round, orders}
use erlay_warnet.Bandwidth.Orders.Ends.{IsRound, IsAbort}
use erlay_warnet.Bandwidth.Orders.Report.{IsReport, orders-IsReport}

-- A wallet that counts its addresses and signs nothing.
abbrev utxo : ℕ → ℕ → Bool → Utxo
utxo n amount spendable = record { txid = n; vout = 0; amount = amount; spendable = spendable }

abbrev wallet : WalletRpc
wallet = record {
  State = ℕ;
  Script = ℕ;
  Hex = Transaction ℕ;
  new_script = λ s. (s, s + 1);
  sign = λ tx s. (tx, s);
  listunspent =
      λ s. utxo 1 20003 true ∷ utxo 2 5000 true ∷ utxo 3 90000 false ∷ utxo 4 30000 true ∷ [];
  satoshi_round = λ q. q / 4;
}

wallet-IsRounding : IsRounding wallet
wallet-IsRounding q = refl

abbrev miner : MinerRpc wallet
miner = record {
  index = 0;
  ensure_miner = λ s. s;
  getblockcount = λ s. 200;
  generatetoaddress = λ n script s. some s;
}

abbrev send : ℕ → Transaction ℕ → ℕ → Result ℕ ℕ
send node tx s = ok (10 * s + node)

-- A node whose answers grow by one at each poll, and one that stays where it is.
abbrev growing : ℕ → Polls
growing from = record {
  raises = λ i. false;
  answer = λ i. from + i;
  clock = λ i. i;
  start = 0;
  second = 1;
}

growing-IsTicking : (from : ℕ) → IsTicking (growing from)
growing-IsTicking from = (omega arith, omega arith, λ i. omega arith)

abbrev steady : ℕ → Polls
steady at = record { raises = λ i. false; answer = λ i. at; clock = λ i. i; start = 0; second = 1 }

steady-IsTicking : (at : ℕ) → IsTicking (steady at)
steady-IsTicking at = (omega arith, omega arith, λ i. omega arith)

false_positive_found : check_mempool_txs (steady 4) 5 60 ≡ (false_positive, 9)
unfolding check_mempool_txs
false_positive_found = refl

stuck_found : check_mempool_txs (steady 3) 5 6 ≡ (stuck 3, 7)
unfolding check_mempool_txs
stuck_found = refl

abbrev inv_stats : (count bytes : ℕ) → NetMsgStats
inv_stats count bytes = record {
  sent = some (
      (
        codes "ipv4",
        (
          codes "manual",
          (codes "inv", record { count = count; bytes = bytes })
              ∷ (codes "tx", record { count = 1; bytes = 200 })
              ∷ [],
        )
            ∷ [],
      )
      ∷ []);
  recv = none;
}

-- Two messages of seven entries in all between the two readings.
abbrev before : List NetMsgStats
before = inv_stats 3 219 ∷ inv_stats 1 61 ∷ []

abbrev after : List NetMsgStats
after = inv_stats 4 388 ∷ inv_stats 2 194 ∷ []

abbrev entry : ℕ → ℕ → Option MempoolEntry
entry inv recv = some (record { first_inv_time = some inv; recv_time = some recv })

abbrev round : Round wallet
round = record {
  heights = (0, steady 0) ∷ (1, growing 198) ∷ [];
  before = before;
  mempools = growing 0 ∷ growing 1 ∷ [];
  after = after;
  entries = λ tx. entry 10 25 ∷ entry 12 40 ∷ [];
}

abbrev peers : List NodePeers
peers =
    record {
      tank = codes "tank-0000";
      peers = record { addr = none; connection_type = none; transport_protocol_type = none } ∷ [];
    }
    ∷ record {
      tank = codes "tank-0001";
      peers =
          record {
            addr = none;
            connection_type = none;
            transport_protocol_type = some (codes "v1");
          }
          ∷ [];
    }
    ∷ []

abbrev options : Options
options = record { tx_count = pos 2; n = pos 2; transport = v1; mempool_timeout = 5 }

round-IsRound : IsRound wallet wallet-IsRounding miner ℕ send peers options round 2 7
round-IsRound = record {
  heights_tick = (growing-IsTicking 198, tt);
  mempools_tick = (growing-IsTicking 0, (growing-IsTicking 1, tt));
  asked = λ tx. omega arith;
  framed_count = refl;
  framed_bytes = refl;
  few = omega arith;
}

abbrev manual_peer : InitialPeer
manual_peer = record { connection_type = some (codes "manual"); addnode = none }

-- One tank that is to open a connection, and has it at the second poll.
abbrev few_tanks : List (ℕ × (ℕ → Option (List InitialPeer)))
few_tanks = (1, λ i. some (if leb 1 i then manual_peer ∷ [] else [])) ∷ []

few_tanks_connect : wait_for_tanks_connected few_tanks 3 ≡ true
unfolding wait_for_tanks_connected
few_tanks_connect = refl

orders-IsReport_example :
    Ends
      (IsReport wallet wallet-IsRounding miner ℕ send peers options
        (λ i. round)
        (λ i. 2)
        (λ i. 7)
        (λ i. round-IsRound))
      (IsAbort wallet wallet-IsRounding miner ℕ send peers options 0 (λ i. round))
      (orders wallet miner ℕ send peers options few_tanks 3 (λ i. round) 0)
orders-IsReport_example =
    orders-IsReport wallet wallet-IsRounding miner ℕ send peers options (λ i. round) (λ i. 2)
      (λ i. 7) (λ i. round-IsRound) few_tanks 3 0 few_tanks_connect

abbrev inv_counts : Result (Abort ℕ) (Results × ℕ) → List ℤ × List ℤ
inv_counts (ok (r, _)) = (r.inv_entry_count, r.propagation_times)
inv_counts (err _) = ([], [])

orders_run :
    inv_counts (orders wallet miner ℕ send peers options few_tanks 3 (λ i. round) 0)
    ≡ (pos 7 ∷ pos 7 ∷ [], pos 30 ∷ pos 30 ∷ [])
unfolding orders wait_for_tanks_connected ensure_all_connections mine_blocks check_block_height
    create_txs broadcast_txs monitor_mempool propagation_time inv_entries ◌-ℤ◌ count_at
    sent_difference subtract get_net_stats add increment
orders_run = refl

get_net_stats-IsTally_example :
    IsTally (net_entries (λ i. i.sent) before) (get_net_stats before).sent
    × IsTally (net_entries (λ i. i.recv) before) (get_net_stats before).recv
get_net_stats-IsTally_example = get_net_stats-IsTally before

inv_entries_exact_example :
    let d = sent_difference (get_net_stats before) (get_net_stats after) in
    inv_entries v1 d.counts d.bytes ≡ pos 7
inv_entries_exact_example = inv_entries_exact v1 before after 2 7 refl refl (omega arith)

-- A node whose call raises goes unseen, though it has 3 of 5 transactions.
abbrev gone : Polls
gone = record (steady 3) { raises = λ i. true }

gone_unseen : monitor_mempool 5 6 (gone ∷ []) ≡ ok tt
unfolding monitor_mempool check_mempool_txs
gone_unseen = refl

monitor_mempool-IsMonitored_example :
    IsMonitored
      (IsLeft 5 6)
      (IsLate 5 6)
      (growing 2 ∷ steady 3 ∷ [])
      (monitor_mempool 5 6 (growing 2 ∷ steady 3 ∷ []))
monitor_mempool-IsMonitored_example =
    monitor_mempool-IsMonitored 5 6 (growing 2 ∷ steady 3 ∷ [])
      (growing-IsTicking 2, (steady-IsTicking 3, tt))

mine_blocks-IsMined_example :
    IsMined wallet miner 2 round.heights 0 (mine_blocks wallet miner 2 round.heights 0)
mine_blocks-IsMined_example =
    mine_blocks-IsMined wallet miner 2 round.heights 0 (growing-IsTicking 198, tt)

blocks_to_mine_matures_example :
    (1 ≤ blocks_to_mine 80 5 0) × (80 ≤ 5 + (mature (0 + blocks_to_mine 80 5 0) - mature 0))
blocks_to_mine_matures_example = blocks_to_mine_matures 80 5 0

create_txs-IsCreated_example : IsCreated wallet wallet-IsRounding 2 7 (create_txs wallet 2 7)
create_txs-IsCreated_example = create_txs-IsCreated wallet wallet-IsRounding 2 7

abbrev numbers : SendRpc
numbers = record { State = ℕ; Tx = ℕ; Error = ℕ; send = λ node tx s. ok (100 * s + 10 * node + tx) }

broadcast_txs-plan_example :
    broadcast_txs numbers 2 (1 ∷ 2 ∷ 3 ∷ []) 0
    ≡ some (send_all numbers 2 ((0, 3) ∷ (1, 2) ∷ (0, 1) ∷ []) 0)
broadcast_txs-plan_example = broadcast_txs-plan numbers 2 (1 ∷ 2 ∷ 3 ∷ []) 0

broadcast_run : broadcast_txs numbers 2 (1 ∷ 2 ∷ 3 ∷ []) 0 ≡ some (ok 31201)
unfolding broadcast_txs
broadcast_run = refl

ensure_all_connections-IsEnsured_example :
    IsEnsured (codes "v2") peers (ensure_all_connections (codes "v2") peers)
ensure_all_connections-IsEnsured_example = ensure_all_connections-IsEnsured (codes "v2") peers

propagation_time-IsTime_example :
    IsTime (entry 10 25 ∷ entry 12 40 ∷ []) (propagation_time (entry 10 25 ∷ entry 12 40 ∷ []))
propagation_time-IsTime_example = propagation_time-IsTime (entry 10 25 ∷ entry 12 40 ∷ [])

abbrev one_inv : Counter
one_inv = (codes "inv", 3) ∷ []

abbrev two_types : Counter
two_types = (codes "tx", 1) ∷ (codes "inv", 4) ∷ []

count_at-add_example :
    count_at (add one_inv two_types) (codes "inv")
    ≡ count_at one_inv (codes "inv") + count_at two_types (codes "inv")
count_at-add_example = count_at-add one_inv two_types (codes "inv") (refl, tt) (refl, (refl, tt))

abbrev few_counts : Counter
few_counts = (codes "inv", 3) ∷ (codes "tx", 1) ∷ []

-- An eighth is a float, and rounds to the even hundredth; a two-hundredth is not, and the float is above.
tidy_half : tidy 8 1 ≡ fraction (nearest 12 100)
unfolding tidy
tidy_half = refl

tidy_above : tidy 200 1 ≡ fraction (nearest 1 100)
unfolding tidy
tidy_above = refl

tidy_whole_run : tidy 3 126 ≡ whole 42
unfolding tidy
tidy_whole_run = refl

mean_negative : mean (pos 1 ∷ negsuc 6 ∷ []) ≡ some (record { is_negative = true; size = whole 3 })
unfolding mean
mean_negative = refl

-- Two iterations with the same traffic, and 2.5 seconds on average.
abbrev both_counts : Results
both_counts = record {
  diff_count = (codes "inv", 6) ∷ (codes "tx", 240) ∷ [];
  diff_bytes = (codes "inv", 4452) ∷ [];
  inv_entry_count = pos 119 ∷ pos 121 ∷ [];
  propagation_times = pos 2000000 ∷ pos 3000000 ∷ [];
}

sum_of_two : sum_ℤ both_counts.inv_entry_count ≡ pos (120 * 2)
unfolding ◌+ℤ◌
sum_of_two = refl

net_report-IsWhole_example :
    IsWholeReport
      ((codes "inv", 3) ∷ (codes "tx", 120) ∷ [])
      ((codes "inv", 2226) ∷ [])
      120
      (net_report (record default_options { n = pos 2 }) both_counts)
net_report-IsWhole_example =
    net_report-IsWhole (record default_options { n = pos 2 }) both_counts 2 120
      ((codes "inv", 3) ∷ (codes "tx", 120) ∷ []) ((codes "inv", 2226) ∷ []) refl (omega arith)
      (refl, (omega arith, (omega arith, tt))) (refl, (omega arith, tt)) (refl, sum_of_two) refl

two_seconds_and_a_half :
    in_seconds (record { is_negative = false; size = whole 2500000 })
    ≡ record { is_negative = false; size = nearest 5 2 }
unfolding nearest
two_seconds_and_a_half = refl

tidy-IsNear_example : (h : ℕ) × (tidy 200 1 ≡ figure_of (nearest h 100)) × IsNear 200 1 h
tidy-IsNear_example = tidy-IsNear 200 1 (omega arith)
