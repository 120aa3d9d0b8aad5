-- ===== src/Commander.antt =====
-- `Commander` of `scenarios/commander.py`: what the scenarios share.
pub mod Index
pub mod Connected
pub mod Options
pub mod Codec
pub mod Pods
pub mod Setup
pub mod Waiting
pub mod Connect
mod Tests
use erlay_warnet.Prelude.{
  ℕ, zero, suc, ◌+◌, ◌||◌, Bool, true, false, Option, none, some, List, [], ◌∷◌, ◌++◌, leb, length,
  if◌then◌else◌, ◌==◌, map,
}
use erlay_warnet.Prelude.Text.{Text, codes, text_eq, decimal}

-- An entry of `WARNET["tanks"]`, whose `init_peers` is the number that its digits spell.
pub record TankInfo : Type 0 where
  pub tank : Text
  pub chain : Text
  pub rpc_host : Text
  pub rpc_port : ℕ
  pub rpc_user : Text
  pub rpc_password : Text
  pub init_peers : ℕ

-- What `setup` keeps of a `TestNode`.
pub record Node : Type 0 where
  pub index : ℕ
  pub chain : Text
  pub rpchost : Text
  pub tank : Text
  pub url : Text
  pub init_peers : ℕ

-- `self.nodes` and `self.tanks`, a dictionary with its keys in the order of their first entry.
pub record Nodes : Type 0 where
  pub nodes : List Node
  pub tanks : List (Text × Node)

-- `d[key] = value`, and `d[key]`.
unfoldable pub set_item {ℓ} : {A : Type ℓ} → Text → A → List (Text × A) → List (Text × A)
set_item key value [] = (key, value) ∷ []
set_item key value ((k, v) ∷ d) =
    let rest = set_item key value d in if text_eq k key then (k, value) ∷ d else (k, v) ∷ rest

unfoldable pub get_item {ℓ} : {A : Type ℓ} → Text → List (Text × A) → Option A
get_item key [] = none
get_item key ((k, v) ∷ d) = let rest = get_item key d in if text_eq k key then some v else rest

unfoldable pub node_of : (i : ℕ) → TankInfo → Node
node_of i t = record {
  index = i;
  chain = t.chain;
  rpchost = t.rpc_host;
  tank = t.tank;
  url =
      codes "http://"
      ++ t.rpc_user
      ++ codes ":"
      ++ t.rpc_password
      ++ codes "@"
      ++ t.rpc_host
      ++ codes ":"
      ++ decimal t.rpc_port;
  init_peers = t.init_peers;
}

-- `for i, tank in enumerate(WARNET["tanks"])`
unfoldable pub add_tanks : (i : ℕ) → List TankInfo → Nodes → Nodes
unfolding node_of set_item
add_tanks i [] all = all
add_tanks i (t ∷ ts) all =
    let node = node_of i t in
    add_tanks (suc i) ts
      (record { nodes = all.nodes ++ (node ∷ []); tanks = set_item t.tank node all.tanks })

unfoldable pub setup_nodes : List TankInfo → Nodes
unfolding add_tanks
setup_nodes ts = add_tanks 0 ts (record { nodes = []; tanks = [] })

-- `ensure_miner` on the names of the node's wallets; the wallet that it returns is "miner".
abbrev pub has_wallet : Text → List Text → Bool
has_wallet name [] = false
has_wallet name (w ∷ ws) = if text_eq w name then true else has_wallet name ws

unfoldable pub ensure_miner : List Text → List Text
ensure_miner wallets =
    if has_wallet (codes "miner") wallets then wallets else wallets ++ (codes "miner" ∷ [])

-- An entry of `getpeerinfo`, as `tank_connected` reads it.
pub record Peer : Type 0 where
  pub connection_type : Option Text
  pub addnode : Option Bool

abbrev pub is_initial : Peer → Bool
is_initial peer =
    (elim peer.connection_type [ none ↦ false | some t ↦ text_eq t (codes "manual") ])
    || (elim peer.addnode [ none ↦ false | some b ↦ b ])

unfoldable pub initial_count : List Peer → ℕ
initial_count [] = 0
initial_count (p ∷ ps) = (if is_initial p then 1 else 0) + initial_count ps

-- The loop of `tank_connected`, from the poll `i` on: the poll at which it ended, or `none` out of fuel. A
-- `getpeerinfo` that raises, which is `none`, ends the thread.
unfoldable pub tank_connected :
    (init_peers : ℕ) → (ℕ → Option (List Peer)) → (fuel i : ℕ) → Option ℕ
unfolding initial_count
tank_connected init_peers polls zero i = none
tank_connected init_peers polls (suc fuel) i =
    let rest = tank_connected init_peers polls fuel (suc i) in
    elim (polls i) [
      | none ↦ some i
      | some peers ↦ if leb init_peers (initial_count peers) then some i else rest
    ]

-- A thread for each of `self.nodes`, by what the node is to open and what it answers.
abbrev pub connections :
    List Node → (Text → ℕ → Option (List Peer)) → List (ℕ × (ℕ → Option (List Peer)))
connections nodes answers = map (λ (n : Node). (n.init_peers, answers n.tank)) nodes

-- `wait_for_tanks_connected`: every thread is joined, also one that an exception has ended.
unfoldable pub wait_for_tanks_connected : List (ℕ × (ℕ → Option (List Peer))) → (fuel : ℕ) → Bool
unfolding tank_connected
wait_for_tanks_connected [] fuel = true
wait_for_tanks_connected ((init_peers, polls) ∷ tanks) fuel =
    let rest = wait_for_tanks_connected tanks fuel in
    elim (tank_connected init_peers polls fuel 0) [ none ↦ false | some _ ↦ rest ]
