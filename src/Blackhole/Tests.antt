-- ===== src/Blackhole/Tests.antt =====
-- A deployment in which the blackhole keeps what it receives, and one in which it forwards the block.
use erlay_warnet.Prelude.{false, none}
use erlay_warnet.Commander.Options.{Parsed, parsed_of, defaults}
use erlay_warnet.Commander.Pods.{Pod, Cluster, Entry, Warnet, read_cluster}
use erlay_warnet.Commander.Setup.{FileSystem}
use erlay_warnet.Blackhole.Deployed.{main, names_of, IsDistinct, HasPassed, IsStop, main-HasPassed}
use erlay_warnet.Prelude.{map}
use erlay_warnet.Prelude.{if◌then◌else◌, ℕ, ◌≡◌, refl, some, List, [], ◌∷◌}
use erlay_warnet.Prelude.Result.{Ends, ok, err}
use erlay_warnet.Prelude.Text.{text_eq, Text, codes}
use erlay_warnet.Commander.{Node}
use erlay_warnet.Commander.Waiting.{at_each_moment, at_each_moment-IsLawful}
use erlay_warnet.Survival.{Peer}
use erlay_warnet.Blackhole.{
  leb, true, suc, default_options, Answers, victim_advanced, source, blackhole, victim, relay,
  control, run_test,
}
use erlay_warnet.Blackhole.Verdict.{IsPassed, IsFailed, run_test-IsPassed}

abbrev node : ℕ → Text → Text → Node
node i name host = record {
  index = i;
  chain = codes "regtest";
  rpchost = host;
  tank = name;
  url = [];
  init_peers = 0;
}

abbrev tanks : List (Text × Node)
tanks =
    (source, node 0 source (codes "10.0.0.1"))
    ∷ (blackhole, node 1 blackhole (codes "10.0.0.2"))
    ∷ (victim, node 2 victim (codes "10.0.0.3"))
    ∷ (relay, node 3 relay (codes "10.0.0.4"))
    ∷ (control, node 4 control (codes "10.0.0.5"))
    ∷ []

abbrev peer : ℕ → Text → Peer
peer id addr = record { id = id; addr = addr; inbound = true; connection_type = codes "inbound" }

-- The link to the source is there until the fourth moment.
abbrev victim_peers : ℕ → List Peer
victim_peers t =
    if leb 4 t
    then peer 1 (codes "10.0.0.2:50000") ∷ []
    else peer 1 (codes "10.0.0.2:50000") ∷ peer 2 (codes "10.0.0.1:18444") ∷ []

-- The height of a tank: the new block comes at the fifth moment, the victim's in `late` of them.
abbrev height_of : (victim_count : ℕ) → Text → ℕ → ℕ
height_of victim_count name t =
    if text_eq name victim then victim_count else if leb 5 t then 102 else 101

abbrev pool_of : Text → ℕ → List Text
pool_of name t = if text_eq name victim then [] else if leb 8 t then codes "tx" ∷ [] else []

abbrev deployment : (victim_count : ℕ) → Answers
deployment victim_count = record {
  network = record { nodes = map (λ (t : Text × Node). t.1) tanks; tanks = tanks };
  initial_peers = λ _ _. some [];
  wallets = [];
  peers = λ _. victim_peers;
  block_count = height_of victim_count;
  mempool = pool_of;
  generate = λ _ _ t. some (suc t);
  send = λ _. some (codes "tx");
}

run_test-IsPassed_example :
    Ends
      (IsPassed at_each_moment at_each_moment-IsLawful default_options (deployment 101) 9)
      (IsFailed at_each_moment at_each_moment-IsLawful default_options (deployment 101) 9)
      (run_test at_each_moment default_options (deployment 101) 9)
run_test-IsPassed_example =
    run_test-IsPassed at_each_moment at_each_moment-IsLawful default_options (deployment 101) 9

run_passes :
    run_test at_each_moment default_options (deployment 101) 9
    ≡ ok (record {
      wallets = codes "miner" ∷ [];
      linked = codes "10.0.0.1:18444";
      synced = 1;
      height = 101;
      disconnected = 2 ∷ [];
      isolated = 4;
      mined = 5;
      new_height = 102;
      reached = 5;
      txid = codes "tx";
      at_blackhole = 8;
      at_relay = 8;
      at_control = 8;
    })
unfolding run_test at_each_moment
run_passes = refl

run_fails :
    run_test at_each_moment default_options (deployment 102) 9 ≡ err (victim_advanced 102 101)
unfolding run_test at_each_moment
run_fails = refl

-- The pods of the topology, and the program from them on.
abbrev pod : Text → Text → Pod
pod name ip = record {
  name = name;
  pod_ip = ip;
  labels = some (
      (codes "mission", codes "tank")
      ∷ (codes "chain", codes "regtest")
      ∷ (codes "RPCPort", codes "18443")
      ∷ (codes "rpcpassword", codes "pass")
      ∷ []);
  annotations = some ((codes "init_peers", codes "0") ∷ []);
}

abbrev cluster : Cluster
cluster = record {
  namespace = some (codes "warnet");
  all_pods = some (
      pod source (codes "10.0.0.1")
      ∷ pod blackhole (codes "10.0.0.2")
      ∷ pod victim (codes "10.0.0.3")
      ∷ pod relay (codes "10.0.0.4")
      ∷ pod control (codes "10.0.0.5")
      ∷ []);
  all_maps = some [];
  namespaced_pods = λ _. none;
  namespaced_maps = λ _. none;
}

abbrev entry : Text → Text → Entry
entry name ip = record {
  tank = name;
  chain = codes "regtest";
  rpc_host = ip;
  rpc_port = 18443;
  rpc_user = codes "user";
  rpc_password = codes "pass";
  init_peers = codes "0";
}

abbrev warnet : Warnet Text
warnet = record {
  tanks =
      entry source (codes "10.0.0.1")
      ∷ entry blackhole (codes "10.0.0.2")
      ∷ entry victim (codes "10.0.0.3")
      ∷ entry relay (codes "10.0.0.4")
      ∷ entry control (codes "10.0.0.5")
      ∷ [];
  lightning = [];
  channels = [];
}

cluster_read : read_cluster (λ _. none) (λ t. t) cluster ≡ ok warnet
unfolding read_cluster
cluster_read = refl

abbrev disk : FileSystem
disk = record { abspath = λ t. t; exists = λ _. false; mkdtemp = codes "/tmp/x" }

abbrev parsed : Parsed
parsed = parsed_of defaults none []

warnet-IsDistinct : IsDistinct (names_of warnet)
warnet-IsDistinct = (
  (refl, (refl, (refl, (refl, tt)))),
  ((refl, (refl, (refl, tt))), ((refl, (refl, tt)), ((refl, tt), (tt, tt)))),
)

main-HasPassed_example :
    Ends
      (HasPassed
        (λ _. none)
        (λ (t : Text). t)
        disk
        parsed
        at_each_moment
        at_each_moment-IsLawful
        default_options
        (λ _. deployment 101)
        9
        warnet)
      (IsStop
        (λ _. none)
        (λ (t : Text). t)
        disk
        parsed
        at_each_moment
        at_each_moment-IsLawful
        default_options
        (λ _. deployment 101)
        9
        warnet)
      (main
        (λ _. none)
        (λ (t : Text). t)
        disk
        parsed
        at_each_moment
        default_options
        (λ _. deployment 101)
        9
        cluster)
main-HasPassed_example =
    main-HasPassed (λ _. none) (λ (t : Text). t) disk parsed at_each_moment at_each_moment-IsLawful
      default_options (λ _. deployment 101) 9 cluster warnet cluster_read warnet-IsDistinct
      (refl, (refl, (refl, (refl, (refl, tt)))))
