-- ===== src/Survival/Tests.antt =====
-- A poll and the addresses of two peers, and the theorems at them.
use erlay_warnet.Prelude.{map}
use erlay_warnet.Prelude.{◌≡◌, ◌↔◌, refl, arith, true, false, some, [], ◌∷◌, ◌++◌, leb}
use erlay_warnet.Prelude.Text.{Text, codes}
use erlay_warnet.Survival.{Watch, IsRunning, poll, Peer, dropped}
use erlay_warnet.Survival.Polled.{IsPolled, poll-IsPolled}
use erlay_warnet.Survival.Sealed.{dropped_addresses}
use erlay_warnet.Prelude.{ℕ, suc, ◌&&◌, Option, none, List, ◌==◌, if◌then◌else◌}
use erlay_warnet.Prelude.Int.{pos, ◌-ℤ◌}
use erlay_warnet.Prelude.Result.{ok, err}
use erlay_warnet.Prelude.Text.{text_eq}
use erlay_warnet.Commander.{Node}
use erlay_warnet.Commander.Waiting.{at_each_moment}
use erlay_warnet.Bandwidth.Counter.{count_at}
use erlay_warnet.Bandwidth.Propagation.{MempoolEntry}
use erlay_warnet.Survival.Measure.{PeerBytes}
use erlay_warnet.Survival.Run.{Options, Answers, Failure, victim, honest_of, run_test}

abbrev after_three : Watch
after_three = record { holds = λ i. leb 3 i; clock = λ i. i; start = 0; second = 1 }

after_three-IsRunning : IsRunning after_three
after_three-IsRunning = (omega arith, omega arith, λ i. omega arith)

poll-IsPolled_example : IsPolled after_three 10 (poll after_three 10)
poll-IsPolled_example = poll-IsPolled after_three 10 after_three-IsRunning

poll_found : poll after_three 10 ≡ some (true, 3)
unfolding poll
poll_found = refl

-- The last evaluation is made at the deadline, and counts.
poll_at_deadline : poll after_three 3 ≡ some (true, 3)
unfolding poll
poll_at_deadline = refl

poll_missed : poll after_three 2 ≡ some (false, 2)
unfolding poll
poll_missed = refl

-- The host of this peer is not the miner's, and begins like it.
abbrev neighbour : Peer
neighbour = record {
  id = 7;
  addr = codes "10.0.0.12:18444";
  inbound = false;
  connection_type = codes "outbound-full-recon";
}

dropped-neighbour : dropped (codes "10.0.0.1") (neighbour ∷ []) ≡ neighbour ∷ []
unfolding dropped
dropped-neighbour = refl

dropped_addresses_example :
    (dropped (codes "10.0.0.1") (neighbour ∷ []) ≡ neighbour ∷ [])
    ↔ ((before : Text) × (after : Text) × (neighbour.addr ≡ before ++ (codes "10.0.0.1" ++ after)))
dropped_addresses_example = dropped_addresses (codes "10.0.0.1") neighbour

-- Two honest tanks, and a victim that never gets the block but both transactions.
abbrev node : ℕ → Text → Text → Node
node i name host = record {
  index = i;
  chain = codes "regtest";
  rpchost = host;
  tank = name;
  url = [];
  init_peers = 0;
}

abbrev tanks : List (Text × Node)
tanks =
    (victim, node 0 victim (codes "10.0.0.9"))
    ∷ (codes "tank-0001", node 1 (codes "tank-0001") (codes "10.0.0.2"))
    ∷ (codes "tank-0000", node 2 (codes "tank-0000") (codes "10.0.0.1"))
    ∷ []

honest_sorted : honest_of tanks ≡ codes "tank-0000" ∷ codes "tank-0001" ∷ []
unfolding honest_of
honest_sorted = refl

abbrev lifeline_peer : Peer
lifeline_peer = record {
  id = 3;
  addr = codes "10.0.0.2:18444";
  inbound = false;
  connection_type = codes "outbound-full-recon";
}

abbrev temporary_peer : Peer
temporary_peer = record {
  id = 4;
  addr = codes "10.0.0.1:18444";
  inbound = false;
  connection_type = codes "manual";
}

-- The link to the miner stands from the third moment to the fifth.
abbrev victim_peers : ℕ → List Peer
victim_peers t =
    if leb 3 t && leb t 5 then lifeline_peer ∷ temporary_peer ∷ [] else lifeline_peer ∷ []

abbrev bytes_at : ℕ → PeerBytes
bytes_at t = some ((codes "inv", t) ∷ (codes "tx", 5) ∷ []) ∷ none ∷ []

abbrev entry_at : Text → Text → ℕ → Option MempoolEntry
entry_at name txid t =
    if text_eq name victim
    then some (record { first_inv_time = some 2000000; recv_time = some 5500000 })
    else some (record { first_inv_time = some 1000000; recv_time = some 1500000 })

abbrev deployment : Answers
deployment = record {
  network = record { nodes = map (λ (t : Text × Node). t.1) tanks; tanks = tanks };
  initial_peers = λ _ _. some [];
  wallets = codes "miner" ∷ [];
  peers = victim_peers;
  peer_bytes = bytes_at;
  block_count = λ name t. if text_eq name victim then 120 else if leb 8 t then 121 else 120;
  mempool = λ name t. if leb 14 t then codes "b" ∷ codes "a" ∷ [] else [];
  mempool_entry = entry_at;
  generate = λ _ _ t. some (suc t);
  send = λ t. some (if t == 10 then codes "a" else codes "b");
  clock = λ t. t;
  second = 1;
}

abbrev two_transactions : Options
two_transactions = record { tx_count = 2; timeout = 5; sync_timeout = 2 }

run_reports :
    run_test at_each_moment two_transactions deployment 1
    ≡ ok (record {
      synced = 3;
      height = 120;
      disconnected = 4 ∷ [];
      sealed_at = 6;
      mined = 8;
      tip = 121;
      polled = 10;
      victim_synced = false;
      txids = codes "a" ∷ codes "b" ∷ [];
      sent = 12;
      polled_all = 14;
      got_all = true;
      received = 2;
      bytes = (codes "inv", 10) ∷ [];
      time_to_receive = some (pos 4500000);
    })
unfolding run_test at_each_moment count_at ◌-ℤ◌
run_reports = refl

-- With no transactions to send, a run that has come so far raises.
run_without :
    run_test at_each_moment (record two_transactions { tx_count = 0 }) deployment 1
    ≡ err Failure.no_transactions
unfolding run_test at_each_moment
run_without = refl
