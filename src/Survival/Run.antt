-- ===== src/Survival/Run.antt =====
-- `run_test` of `scenarios/check_eclipse.py`. The answers of the nodes are functions of the moment at
-- which they are asked.
pub mod Outcome
pub mod Reported
use erlay_warnet.Prelude.{
  if◌then◌else◌, false, true, ℕ, zero, suc, ◌+◌, Bool, not, Option, none, some, List, [], ◌∷◌, ◌++◌,
  map, keep, leb, ◌==◌, length, drop,
}
use erlay_warnet.Prelude.Int.{ℤ}
use erlay_warnet.Prelude.Result.{Result, ok, err, ◌>>=◌, ◌>>◌, check, of_option}
use erlay_warnet.Prelude.Text.{Text, codes, sort_texts}
use erlay_warnet.Commander.{
  Node, Nodes, get_item, ensure_miner, connections, wait_for_tanks_connected,
}
use erlay_warnet.Commander.{Peer as InitialPeer}
use erlay_warnet.Commander.Waiting.{Waiting, wait_or}
use erlay_warnet.Bandwidth.Counter.{Counter, subtract}
use erlay_warnet.Bandwidth.Propagation.{MempoolEntry}
use erlay_warnet.Survival.{Watch, poll, Peer, outbound, lifeline, is_prefix, dropped}
use erlay_warnet.Survival.Measure.{PeerBytes, recv_bytes, has_all, received_count, elapsed}

pub record Options : Type 0 where
  pub tx_count : ℕ
  pub timeout : ℕ
  pub sync_timeout : ℕ

abbrev pub default_options : Options
default_options = record { tx_count = 20; timeout = 180; sync_timeout = 60 }

-- By tank and moment, what the nodes answer; `generate` gives the moment at which it ends, and `clock` is
-- `time.time()`, in which a second is `second` units.
pub record Answers : Type 0 where
  pub network : Nodes
  pub initial_peers : Text → ℕ → Option (List InitialPeer)
  pub wallets : List Text
  pub peers : ℕ → List Peer
  pub peer_bytes : ℕ → PeerBytes
  pub block_count : Text → ℕ → ℕ
  pub mempool : Text → ℕ → List Text
  pub mempool_entry : Text → (txid : Text) → ℕ → Option MempoolEntry
  pub generate : (blocks : ℕ) (synced : Bool) → ℕ → Option ℕ
  pub send : ℕ → Option Text
  pub clock : ℕ → ℕ
  pub second : ℕ

pub data Awaited : Type 0 where
  sealed : Awaited
  block_at transactions_at : Text → Awaited

pub data Failure : Type 0 where
  no_tank : Text → Failure
  no_honest not_connected not_generated not_sent no_transactions out_of_polls : Failure
  timed_out : Awaited → Failure

abbrev pub victim : Text
victim = codes "victim"

-- The names of the tanks that begin with "tank", in order.
unfoldable pub honest_of : List (Text × Node) → List Text
unfolding is_prefix sort_texts
honest_of tanks = keep (is_prefix (codes "tank")) (sort_texts (map (λ t. t.0) tanks))

abbrev pub first_of : List Text → Option Text
first_of [] = none
first_of (t ∷ ts) = some t

abbrev pub last_of : List Text → Option Text
last_of [] = none
last_of (t ∷ []) = some t
last_of (t ∷ u ∷ ts) = last_of (u ∷ ts)

-- What is known before the sync, with the address of the miner that the victim is linked to for it.
pub record Setting : Type 0 where
  pub honest : List Text
  pub miner : Text
  pub miner_host : Text
  pub num_outbound : ℕ
  pub num_lifeline : ℕ
  pub baseline_peers : ℕ
  pub wallets : List Text
  pub linked : Text

-- What `run_test` measures, and the moments at which it looks: after the sync of 120 blocks, at the seal, after
-- the block of the eclipse, at the last look of each poll, and at the end.
pub record Report : Type 0 where
  pub synced : ℕ
  pub height : ℕ
  pub disconnected : List ℕ
  pub sealed_at : ℕ
  pub mined : ℕ
  pub tip : ℕ
  pub polled : ℕ
  pub victim_synced : Bool
  pub txids : List Text
  pub sent : ℕ
  pub polled_all : ℕ
  pub got_all : Bool
  pub received : ℕ
  pub bytes : Counter
  pub time_to_receive : Option ℤ

module _ (W : Waiting) (o : Options) (a : Answers) where
  abbrev pub await : Awaited → (ℕ → Bool) → ℕ → Result Failure ℕ
  await what = wait_or W (timed_out what) (some o.timeout)

  -- A poll that begins at the moment: what it returned, and the moment of its last look.
  abbrev pub watch : (ℕ → Bool) → ℕ → Watch
  watch holds t = record {
    holds = λ i. holds (t + i);
    clock = λ i. a.clock (t + i);
    start = a.clock t;
    second = a.second;
  }

  unfoldable pub poll_at : (ℕ → Bool) → (timeout t : ℕ) → Result Failure (Bool × ℕ)
  unfolding poll
  poll_at holds timeout t = do
    (b, i) ← of_option out_of_polls (poll (watch holds t) timeout)
    ok (b, t + i)

  abbrev pub has_block : (tip : ℕ) → Text → ℕ → Bool
  has_block tip name t = leb tip (a.block_count name t)

  abbrev pub has_transactions : List Text → Text → ℕ → Bool
  has_transactions txids name t = has_all txids (a.mempool name t)

  -- `for node in honest: self.wait_until(...)`
  unfoldable pub await_all : (Text → Awaited) → (Text → ℕ → Bool) → List Text → ℕ → Result Failure ℕ
  await_all what holds [] t = ok t
  await_all what holds (name ∷ names) t = do
    u ← await (what name) (holds name) t
    await_all what holds names u

  unfoldable pub send_all : (n : ℕ) → ℕ → Result Failure (List Text × ℕ)
  send_all zero t = ok ([], t)
  send_all (suc n) t = do
    txid ← of_option not_sent (a.send t)
    (txids, u) ← send_all n (suc t)
    ok (txid ∷ txids, u)

  unfoldable pub setting : (fuel : ℕ) → Result Failure Setting
  unfolding honest_of get_item wait_for_tanks_connected ensure_miner
  setting fuel = do
    _ ← of_option (no_tank victim) (get_item victim a.network.tanks)
    let honest = honest_of a.network.tanks
    miner ← of_option no_honest (first_of honest)
    node ← of_option (no_tank miner) (get_item miner a.network.tanks)
    check (wait_for_tanks_connected (connections a.network.nodes a.initial_peers) fuel)
        not_connected
    ok (record {
      honest = honest;
      miner = miner;
      miner_host = node.rpchost;
      num_outbound = length (outbound (a.peers 0));
      num_lifeline = length (lifeline (a.peers 0));
      baseline_peers = length (a.peers 1);
      wallets = ensure_miner a.wallets;
      linked = node.rpchost ++ codes ":18444";
    })

  abbrev pub is_sealed : (baseline_peers : ℕ) → ℕ → Bool
  is_sealed baseline_peers t = length (a.peers t) == baseline_peers

  -- The entries of the marker in all nodes but the miner.
  abbrev pub entries_of : List Text → (marker : Text) → ℕ → List (Option MempoolEntry)
  entries_of honest marker t =
      map (λ n. a.mempool_entry n marker t) (drop 1 honest ++ (victim ∷ []))

  unfoldable pub experiment : Setting → Result Failure Report
  unfolding dropped poll_at await_all send_all recv_bytes subtract elapsed
  experiment s = do
    synced ← of_option not_generated (a.generate 120 true 2)
    sealed_at ← await sealed (is_sealed s.baseline_peers) (synced + 2)
    mined ← of_option not_generated (a.generate 1 false (sealed_at + 1))
    let tip = a.block_count s.miner mined
    reached ← await_all block_at (has_block tip) s.honest mined
    (victim_synced, polled) ← poll_at (has_block tip victim) o.sync_timeout reached
    (txids, sent) ← send_all o.tx_count polled
    spread ← await_all transactions_at (has_transactions txids) s.honest sent
    (got_all, polled_all) ← poll_at (has_transactions txids victim) o.timeout spread
    marker ← of_option no_transactions (last_of txids)
    ok (record {
      synced = synced;
      height = a.block_count s.miner synced;
      disconnected = map (λ (p : Peer). p.id) (dropped s.miner_host (a.peers (synced + 1)));
      sealed_at = sealed_at;
      mined = mined;
      tip = tip;
      polled = polled;
      victim_synced = victim_synced;
      txids = txids;
      sent = sent;
      polled_all = polled_all;
      got_all = got_all;
      received = received_count txids (a.mempool victim (polled_all + 1));
      bytes =
          subtract (recv_bytes (a.peer_bytes (polled_all + 2)))
            (recv_bytes (a.peer_bytes sealed_at));
      time_to_receive = elapsed (entries_of s.honest marker (polled_all + 3));
    })

  unfoldable pub run_test : (fuel : ℕ) → Result Failure Report
  unfolding setting experiment
  run_test fuel = do s ← setting fuel; experiment s

-- What is logged at the end; the time only where all was received and some node has it.
pub record Summary : Type 0 where
  pub transactions_received : ℕ × ℕ
  pub time_to_receive_all : Option ℤ
  pub block_height : ℕ × ℕ
  pub synced : Bool
  pub pre_synced_to : ℕ
  pub bytes_received : Counter

unfoldable pub summary : Options → Report → (victim_count : ℕ) → Summary
summary o r victim_count = record {
  transactions_received = (r.received, o.tx_count);
  time_to_receive_all = if r.got_all then r.time_to_receive else none;
  block_height = (victim_count, r.tip);
  synced = r.victim_synced;
  pre_synced_to = r.height;
  bytes_received = r.bytes;
}
