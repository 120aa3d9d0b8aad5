-- ===== src/Blackhole.antt =====
-- `scenarios/check_blackhole.py`: a blackhole receives blocks and transactions, and forwards none. The
-- answers of the nodes are functions of the moment at which they are asked.
pub mod Verdict
pub mod Deployed
mod Tests
use erlay_warnet.Prelude.{
  ℕ, suc, ◌+◌, Bool, true, false, not, Option, none, some, List, [], ◌∷◌, ◌++◌, map, leb, ◌==◌,
  length,
}
use erlay_warnet.Prelude.Result.{of_option, Result, ok, err, ◌>>=◌, ◌>>◌, check, raise_if}
use erlay_warnet.Prelude.Text.{Text, codes, has_text}
use erlay_warnet.Commander.{
  Node, Nodes, get_item, ensure_miner, connections, wait_for_tanks_connected,
}
use erlay_warnet.Commander.{Peer as InitialPeer}
use erlay_warnet.Commander.Waiting.{Waiting, wait_or}
use erlay_warnet.Survival.{Peer, dropped}

-- The options of `add_options`.
pub record Options : Type 0 where
  pub timeout : ℕ
  pub settle : ℕ

abbrev pub default_options : Options
default_options = record { timeout = 120; settle = 10 }

-- What the nodes answer, by tank and moment, and what the framework's calls do: `generate` gives the moment
-- at which it ends, `none` where its sync runs out of time, and `send` the identifier of a transaction.
pub record Answers : Type 0 where
  pub network : Nodes
  pub initial_peers : Text → ℕ → Option (List InitialPeer)
  pub wallets : List Text
  pub peers : Text → ℕ → List Peer
  pub block_count : Text → ℕ → ℕ
  pub mempool : Text → ℕ → List Text
  pub generate : (blocks : ℕ) (synced : Bool) → ℕ → Option ℕ
  pub send : ℕ → Option Text

-- The waits of `run_test`.
pub data Awaited : Type 0 where
  isolation control_block : Awaited
  transaction_at : Text → Awaited

pub data Failure : Type 0 where
  no_tank : Text → Failure
  not_connected not_generated not_sent : Failure
  timed_out : Awaited → Failure
  victim_advanced : (count expected : ℕ) → Failure
  victim_received blackhole_lacks : Failure

-- The moments of a run, with what was noted at them and the address that the victim is linked to for a while.
pub record Course : Type 0 where
  pub wallets : List Text
  pub linked : Text
  pub synced : ℕ
  pub height : ℕ
  pub disconnected : List ℕ
  pub isolated : ℕ
  pub mined : ℕ
  pub new_height : ℕ
  pub reached : ℕ
  pub txid : Text
  pub at_blackhole : ℕ
  pub at_relay : ℕ
  pub at_control : ℕ

abbrev pub source : Text
source = codes "tank-0000"

abbrev pub blackhole : Text
blackhole = codes "tank-0001"

abbrev pub victim : Text
victim = codes "tank-0002"

abbrev pub relay : Text
relay = codes "tank-0003"

abbrev pub control : Text
control = codes "tank-0004"

module _ (W : Waiting) (o : Options) (a : Answers) where
  abbrev pub tank : Text → Result Failure Node
  tank name = of_option (no_tank name) (get_item name a.network.tanks)

  abbrev pub await : Awaited → (ℕ → Bool) → ℕ → Result Failure ℕ
  await what = wait_or W (timed_out what) (some o.timeout)

  abbrev pub has_transaction : Text → Text → ℕ → Bool
  has_transaction txid name t = has_text txid (a.mempool name t)

  -- The five tanks, then the wait for their connections, on as many polls as there is fuel.
  unfoldable pub start : (fuel : ℕ) → Result Failure Node
  unfolding get_item wait_for_tanks_connected
  start fuel = do
    source_node ← tank source
    _ ← tank blackhole
    _ ← tank victim
    _ ← tank relay
    _ ← tank control
    check (wait_for_tanks_connected (connections a.network.nodes a.initial_peers) fuel)
        not_connected
    ok source_node

  -- The three nodes that are to receive the transaction, in order.
  unfoldable pub spread : (txid : Text) → ℕ → Result Failure (ℕ × ℕ × ℕ)
  spread txid t = do
    b ← await (transaction_at blackhole) (has_transaction txid blackhole) t
    r ← await (transaction_at relay) (has_transaction txid relay) b
    c ← await (transaction_at control) (has_transaction txid control) r
    ok (b, r, c)

  abbrev pub is_isolated : ℕ → Bool
  is_isolated t = length (a.peers victim t) == 1

  abbrev pub has_block : (new_height : ℕ) → ℕ → Bool
  has_block new_height t = leb new_height (a.block_count control t)

  -- All of `run_test` up to the settling.
  unfoldable pub course : Node → Result Failure Course
  unfolding dropped spread ensure_miner
  course source_node = do
    synced ← of_option not_generated (a.generate 101 true 0)
    let ids = map (λ (p : Peer). p.id) (dropped source_node.rpchost (a.peers victim (synced + 1)))
    isolated ← await isolation is_isolated (synced + 2)
    mined ← of_option not_generated (a.generate 1 false isolated)
    let new_height = a.block_count source mined
    reached ← await control_block (has_block new_height) mined
    txid ← of_option not_sent (a.send reached)
    (b, r, c) ← spread txid reached
    ok (record {
      wallets = ensure_miner a.wallets;
      linked = source_node.rpchost ++ codes ":18444";
      synced = synced;
      height = a.block_count source synced;
      disconnected = ids;
      isolated = isolated;
      mined = mined;
      new_height = new_height;
      reached = reached;
      txid = txid;
      at_blackhole = b;
      at_relay = r;
      at_control = c;
    })

  abbrev pub settled : Course → ℕ
  settled c = c.at_control + o.settle

  -- The three assertions, after `settle` more.
  unfoldable pub verdict : Course → Result Failure Course
  verdict c = do
    let count = a.block_count victim (settled c)
    check (count == c.height) (victim_advanced count c.height)
    raise_if (has_transaction c.txid victim (settled c + 1)) victim_received
    check (has_transaction c.txid blackhole (settled c + 2)) blackhole_lacks
    ok c

  unfoldable pub run_test : (fuel : ℕ) → Result Failure Course
  unfolding start course verdict
  run_test fuel = do source_node ← start fuel; c ← course source_node; verdict c
