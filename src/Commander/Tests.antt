-- ===== src/Commander/Tests.antt =====
-- A few tanks, and the theorems at them.
use erlay_warnet.Prelude.{ℕ, zero, suc, ◌≡◌, ◌↔◌, refl, true, none, some, List, [], ◌∷◌, All}
use erlay_warnet.Prelude.Text.{Text, codes}
use erlay_warnet.Commander.{TankInfo, Peer, node_of, wait_for_tanks_connected}
use erlay_warnet.Commander.Connected.{HasConnected, wait_for_tanks_connected-HasConnected}
use erlay_warnet.Prelude.{false, leb, if◌then◌else◌, arith}
use erlay_warnet.Prelude.Result.{Ends, ok}
use mathlib.Core.List.{reverse}
use erlay_warnet.Commander.{Node}
use erlay_warnet.Commander.Options.{
  Flag, Value, Parsed, defaults, parse_args, parsed_of, resolve_factor, resolve_descriptors,
}
use erlay_warnet.Commander.Options.Factor.{IsSettled, parse_args-IsSettled, expected_factor}
use erlay_warnet.Commander.Codec.{
  hex_value, b64_digit, b64_value, hex_digit, hex_of, hex_to_b64, b64_to_hex,
}
use erlay_warnet.Commander.Codec.RoundTrip.{hex_to_b64-b64_to_hex}
use erlay_warnet.Commander.Pods.{Pod, Entry, Warnet, Raised, add_pods, list_cluster}
use erlay_warnet.Commander.Pods.Missions.{Adds, Lacks, add_pods-Adds}
use erlay_warnet.Commander.Setup.{FileSystem, setup}
use erlay_warnet.Commander.Setup.Indexed.{IsSetUp, SetupFails, setup-IsSetUp}
use erlay_warnet.Commander.Waiting.{at_each_moment, at_each_moment-IsLawful}
use erlay_warnet.Commander.Connect.{PeerInfo, connect_nodes}
use erlay_warnet.Commander.Connect.Handshake.{IsConnected, IsUnconnected, connect_nodes-IsConnected}

abbrev tank : Text → Text → ℕ → TankInfo
tank name host init_peers = record {
  tank = name;
  chain = codes "regtest";
  rpc_host = host;
  rpc_port = 18443;
  rpc_user = codes "user";
  rpc_password = codes "pass";
  init_peers = init_peers;
}

abbrev tanks : List TankInfo
tanks =
    tank (codes "tank-0000") (codes "10.0.0.1") 1
    ∷ tank (codes "tank-0001") (codes "10.0.0.2") 2
    ∷ tank (codes "victim") (codes "10.0.0.3") 8
    ∷ []

abbrev manual : Peer
manual = record { connection_type = some (codes "manual"); addnode = none }

abbrev inbound : Peer
inbound = record { connection_type = some (codes "inbound"); addnode = none }

-- One peer more at each poll.
abbrev more_peers : ℕ → List Peer
more_peers zero = inbound ∷ []
more_peers (suc i) = manual ∷ more_peers i

wait_for_tanks_connected-HasConnected_example :
    (wait_for_tanks_connected ((2, λ i. some (more_peers i)) ∷ (1, λ _. none) ∷ []) 5 ≡ true)
    ↔ All (HasConnected 5) ((2, λ i. some (more_peers i)) ∷ (1, λ _. none) ∷ [])
wait_for_tanks_connected-HasConnected_example =
    wait_for_tanks_connected-HasConnected ((2, λ i. some (more_peers i)) ∷ (1, λ _. none) ∷ []) 5

wait_run : wait_for_tanks_connected ((2, λ i. some (more_peers i)) ∷ (1, λ _. none) ∷ []) 5 ≡ true
unfolding wait_for_tanks_connected
wait_run = refl

-- Options: two factors are given, and the last one is text.
abbrev flags : List Flag
flags = Flag.timeout_factor (codes "3") ∷ Flag.valgrind ∷ Flag.timeout_factor (codes "0") ∷ []

parse_args-IsSettled_example : IsSettled flags (parse_args (λ _. none) (some none) true false flags)
parse_args-IsSettled_example = parse_args-IsSettled (λ _. none) (some none) true false flags

-- A zero on the command line does not become 99999.
factor_zero : expected_factor flags ≡ Value.text (codes "0")
factor_zero = refl

factor_default : resolve_factor true (Value.number 1) ≡ Value.number 1
unfolding resolve_factor
factor_default = refl

descriptors_chosen : resolve_descriptors (some none) false true ≡ some false
unfolding resolve_descriptors
descriptors_chosen = refl

hex_to_b64-b64_to_hex_example :
    (b64 : Text) × (hex_to_b64 (hex_of (222 ∷ 173 ∷ 190 ∷ 239 ∷ [])) ≡ some b64)
    × (b64_to_hex b64 false ≡ some (hex_of (222 ∷ 173 ∷ 190 ∷ 239 ∷ [])))
    × (b64_to_hex b64 true ≡ some (hex_of (reverse (222 ∷ 173 ∷ 190 ∷ 239 ∷ []))))
hex_to_b64-b64_to_hex_example =
    hex_to_b64-b64_to_hex (222 ∷ 173 ∷ 190 ∷ 239 ∷ [])
      (omega arith, (omega arith, (omega arith, (omega arith, tt))))

b64_run : hex_to_b64 (codes "DE adbeef") ≡ some (codes "3q2+7w==")
unfolding hex_to_b64 hex_value b64_digit
b64_run = refl

b64_reversed : b64_to_hex (codes "3q2+7w==") true ≡ some (codes "efbeadde")
unfolding b64_to_hex b64_value hex_digit
b64_reversed = refl

-- Pods: a tank, a Lightning node, and one that has no mission.
abbrev tank_pod : Pod
tank_pod = record {
  name = codes "tank-0000";
  pod_ip = codes "10.0.0.1";
  labels = some (
      (codes "mission", codes "tank")
      ∷ (codes "chain", codes "regtest")
      ∷ (codes "RPCPort", codes "18443")
      ∷ (codes "rpcpassword", codes "pass")
      ∷ []);
  annotations = some ((codes "init_peers", codes "8") ∷ []);
}

abbrev ln_pod : Pod
ln_pod = record {
  name = codes "tank-0000-ln";
  pod_ip = codes "10.0.0.2";
  labels = some ((codes "mission", codes "lightning") ∷ []);
  annotations = none;
}

abbrev other_pod : Pod
other_pod = record {
  name = codes "grafana";
  pod_ip = codes "10.0.0.3";
  labels = some ((codes "app", codes "grafana") ∷ []);
  annotations = none;
}

abbrev no_warnet : Warnet Text
no_warnet = record { tanks = []; lightning = []; channels = [] }

abbrev pods : List Pod
pods = tank_pod ∷ ln_pod ∷ other_pod ∷ []

add_pods-Adds_example :
    Ends (Adds pods no_warnet) (λ (_ : Raised). Lacks pods) (add_pods pods no_warnet)
add_pods-Adds_example = add_pods-Adds pods no_warnet

abbrev tank_entry : Entry
tank_entry = record {
  tank = codes "tank-0000";
  chain = codes "regtest";
  rpc_host = codes "10.0.0.1";
  rpc_port = 18443;
  rpc_user = codes "user";
  rpc_password = codes "pass";
  init_peers = codes "8";
}

abbrev warnet : Warnet Text
warnet = record { tanks = tank_entry ∷ []; lightning = codes "tank-0000-ln" ∷ []; channels = [] }

pods_run : add_pods pods no_warnet ≡ ok warnet
unfolding add_pods
pods_run = refl

-- The player of a war game may not list all pods, and a second failure leaves what is there.
cluster_run :
    list_cluster (record {
      namespace = some (codes "warnet");
      all_pods = none;
      all_maps = none;
      namespaced_pods = λ _. some pods;
      namespaced_maps = λ _. none;
    })
    ≡ record { pods = pods; cmaps = [] }
unfolding list_cluster
cluster_run = refl

abbrev disk : FileSystem
disk = record { abspath = λ t. t; exists = λ _. false; mkdtemp = codes "/tmp/x" }

abbrev parsed : Parsed
parsed = parsed_of defaults none []

setup-IsSetUp_example :
    Ends (IsSetUp disk warnet) (SetupFails disk none (tank_entry ∷ [])) (setup disk warnet parsed)
setup-IsSetUp_example = setup-IsSetUp disk warnet parsed

abbrev two_nodes : List Node
two_nodes =
    node_of 0 (tank (codes "tank-0000") (codes "10.0.0.1") 1)
    ∷ node_of 1 (tank (codes "tank-0001") (codes "10.0.0.2") 1)
    ∷ []

abbrev shaken_peer : PeerInfo
shaken_peer = record {
  version = 70016;
  bytesrecv_per_msg = (codes "verack", 24) ∷ (codes "pong", 32) ∷ [];
}

-- The peer is there from the fifth moment on.
abbrev peers_at : ℕ → ℕ → List PeerInfo
peers_at node t = if leb 5 t then shaken_peer ∷ [] else []

connect_nodes-IsConnected_example :
    Ends
      (IsConnected at_each_moment at_each_moment-IsLawful two_nodes peers_at 0 1 true true 0)
      (IsUnconnected at_each_moment at_each_moment-IsLawful two_nodes peers_at 0 1 true 0)
      (connect_nodes at_each_moment two_nodes peers_at false 0 1 (some true) true 0)
connect_nodes-IsConnected_example =
    connect_nodes-IsConnected at_each_moment at_each_moment-IsLawful two_nodes peers_at false 0 1
      (some true) true 0

connect_run :
    connect_nodes at_each_moment two_nodes peers_at false 0 1 none true 0
    ≡ ok (record {
      call = record { address = codes "10.0.0.2:18444"; v2transport = none };
      finish = 5;
    })
unfolding connect_nodes at_each_moment node_of
connect_run = refl
