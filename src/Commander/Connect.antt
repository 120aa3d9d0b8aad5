-- ===== src/Commander/Connect.antt =====
-- `Commander.connect_nodes` of `scenarios/commander.py`. The answers of `getpeerinfo` are functions of the
-- moment at which a node is asked; a call takes a moment, and a wait as many as it likes.
use erlay_warnet.Prelude.{
  ℕ, suc, ◌+◌, Bool, true, false, not, Option, none, some, List, [], ◌∷◌, ◌++◌, leb, ◌==◌, length,
  if◌then◌else◌, get_elem?, keep,
}
use erlay_warnet.Prelude.Result.{of_option, Result, ok, err, ◌>>=◌}
use erlay_warnet.Prelude.Text.{Text, codes}
use erlay_warnet.Commander.{Node, get_item}
use erlay_warnet.Commander.Waiting.{Waiting, wait_or}
pub mod Handshake

-- An entry of `getpeerinfo`, as `connect_nodes` reads it.
pub record PeerInfo : Type 0 where
  pub version : ℕ
  pub bytesrecv_per_msg : List (Text × ℕ)

-- `pop(msg, 0)`, on an answer that nobody else reads.
abbrev pub received : Text → PeerInfo → ℕ
received msg peer = elim (get_item msg peer.bytesrecv_per_msg) [ none ↦ 0 | some n ↦ n ]

-- The three things that are waited for, each for both nodes.
pub data Condition : Type 0 where
  has_version has_verack has_pong : Condition

unfoldable pub meets : Condition → PeerInfo → Bool
unfolding get_item
meets has_version peer = not (peer.version == 0)
meets has_verack peer = leb 21 (received (codes "verack") peer)
meets has_pong peer = leb 29 (received (codes "pong") peer)

-- As many peers as expected meet the condition, at a moment.
unfoldable pub all_meet : Condition → (expected : ℕ) → (ℕ → List PeerInfo) → ℕ → Bool
unfolding meets
all_meet c expected peers t = length (keep (meets c) (peers t)) == expected

-- The call of `addnode`; the older form leaves `v2transport` out.
pub record AddNode : Type 0 where
  pub address : Text
  pub v2transport : Option Bool

-- No node has the index, or the wait for the condition ran out, at the node that connects or at the other.
pub data ConnectError : Type 0 where
  no_node : ℕ → ConnectError
  timed_out : Condition → (at_from : Bool) → ConnectError

-- What was called, and the moment at which `connect_nodes` returned.
pub record Connected : Type 0 where
  pub call : AddNode
  pub finish : ℕ

module _ (W : Waiting) (from_peers to_peers : ℕ → List PeerInfo) where
  -- One condition, first at the node that connects.
  unfoldable pub wait_both :
      Condition → (from_num_peers to_num_peers start : ℕ) → Result ConnectError ℕ
  unfolding all_meet
  wait_both c from_num_peers to_num_peers start = do
    t ← wait_or W (timed_out c true) none (all_meet c from_num_peers from_peers) start
    wait_or W (timed_out c false) none (all_meet c to_num_peers to_peers) t

  unfoldable pub wait_handshake : (from_num_peers to_num_peers start : ℕ) → Result ConnectError ℕ
  unfolding wait_both
  wait_handshake from_num_peers to_num_peers start = do
    t ← wait_both has_version from_num_peers to_num_peers start
    u ← wait_both has_verack from_num_peers to_num_peers t
    wait_both has_pong from_num_peers to_num_peers u

unfoldable pub address_of : Node → Text
address_of node = node.rpchost ++ codes ":18444"

unfoldable pub addnode_call : Node → (use_v2 : Bool) → AddNode
unfolding address_of
addnode_call node true = record { address = address_of node; v2transport = some true }
addnode_call node false = record { address = address_of node; v2transport = none }

abbrev pub node_at : List Node → ℕ → Result ConnectError Node
node_at nodes i = of_option (no_node i) (get_elem? nodes i)

abbrev pub chosen_transport : (v2_default : Bool) → Option Bool → Bool
chosen_transport v2_default none = v2_default
chosen_transport v2_default (some b) = b

module _ (W : Waiting) (nodes : List Node) (peers : ℕ → ℕ → List PeerInfo) (v2_default : Bool) where
  -- `start` is the moment of the first `getpeerinfo`; the call of `addnode` comes two later.
  unfoldable pub connect_nodes :
      (a b : ℕ)
      → (advertised : Option Bool) → (wait_for_connect : Bool) → (start : ℕ)
      → Result ConnectError Connected
  unfolding wait_handshake addnode_call
  connect_nodes a b advertised wait_for_connect start = do
    from_connection ← node_at nodes a
    to_connection ← node_at nodes b
    let from_num_peers = 1 + length (peers a start)
    let to_num_peers = 1 + length (peers b (suc start))
    let call = addnode_call to_connection (chosen_transport v2_default advertised)
    let waited = wait_handshake W (peers a) (peers b) from_num_peers to_num_peers (start + 3)
    t ← if wait_for_connect then waited else ok (start + 3)
    ok (record { call = call; finish = t })
