-- ===== src/Lib.antt =====
-- Erlay experiments on warnet: networks of Bitcoin nodes are generated, deployed and driven by scenarios
-- that measure how transactions spread.
--
-- The parts of the program, and the files that model them:
--
--   utils/create_network.py writes a random network: `validate_args`, `try_build_graph`,
--   `build_network`, `validate_graph`, `to_network_yaml`, `parse_args` and `main`.
--       Network/Args      validate_args, on integers, with one constructor for each InfeasibleNetwork
--       Network/Attempt   the attempt as a state passing of the generator's state, with its two failures
--       Network/Build     try_build_graph and build_network; Wiring and Rounds hold its invariant
--       Network/Validate  validate_graph, one constructor for each assertion
--       Network/Search    what build_network answers
--       Network/Capacity  why a graph that an attempt builds passes validate_args
--       Network/Yaml      to_network_yaml, as a record in place of the dictionary
--       Network/Options   parse_args, from flags that the command line was split into
--       Network/Main      main, up to writing the file; its report is returned
--   utils/create_eclipse_network.py overlays three such networks with blackholes and a victim.
--       Eclipse           honest_mesh and main, up to writing the three files
--       Eclipse/Overlay, Run, Degrees, Captured, Twins   what the three networks look like
--   scenarios/check_net_bandwidth.py runs the experiment on a deployed network.
--       Bandwidth/Transaction   generate_transaction and create_txs, in satoshis
--       Bandwidth/Mining        mine_blocks
--       Bandwidth/Polling       check_block_height, check_mempool_txs and monitor_mempool
--       Bandwidth/Broadcast     broadcast_txs
--       Bandwidth/Counter       the Counters of the statistics, on counts of 0 or more
--       Bandwidth/Stats         get_net_stats and the number of INV entries
--       Bandwidth/Connections   ensure_all_connections
--       Bandwidth/Propagation   check_propagation_time
--       Bandwidth/Orders        orders, which calls all of these in turn
--       Bandwidth/Averages      the averages that orders reports at its end
--   scenarios/commander.py is the base of all scenarios.
--       Commander               the nodes of `setup`, `ensure_miner` and `wait_for_tanks_connected`
--       Commander/Pods          WARNET, from the pods and config maps that the cluster lists
--       Commander/Options       parse_args, from flags that the command line was split into
--       Commander/Setup         the rest of `setup`, up to the scenario that `run_test` finds
--       Commander/Codec         hex_to_b64 and b64_to_hex
--       Commander/Connect       connect_nodes, on `wait_until` of Commander/Waiting
--   scenarios/check_eclipse.py measures a victim whose baseline is captured.
--       Survival                its polls, and the links that it drops
--       Survival/Measure        recv_bytes, the transactions that count as received, and the time
--       Survival/Run            run_test, which calls all of these in turn
--   scenarios/check_blackhole.py checks that a blackhole forwards nothing.
--       Blackhole               run_test, up to its settling and its three assertions
--       Blackhole/Deployed      the program from the pods of the cluster on: WARNET, setup, run_test
--   scenarios/ln_framework/ln.py talks to LND nodes.
--       Lightning/Policy        Policy and the request of LND.update
--       Lightning/Requests      LND.get, LND.post and the request of LND.connect
--       Lightning/Methods       the other methods of LND, and from_lnd_describegraph
--   plugins/hello/plugin.py and plugins/simln/plugin.py start pods at the hooks of a network.
--       Plugins                 the entrypoint, which is the same code in both
--       Plugins/Hello           get_data, _launch_pod and _entrypoint of hello
--       Plugins/Simln           the activities of simln, and its shell loop
--       Plugins/Simln/Commands  the commands of simln, each by the function of its name
--
-- What the code calls and is not in the repository, or is a copy of a library, is a parameter:
--   Graph   networkx.DiGraph with `nx.is_connected`, as an interface with laws; Graph/EdgeList fills it
--   Rng     random.Random, whose `sample` draws distinct positions; Rng/Rotating fills it
--   the calls of nodes and wallets (WalletRpc, MinerRpc, SendRpc, Polls, Round), on answers that the
--   theorems take for all values; `satoshi_round` rounds down (IsRounding), `time.sleep(1)` lets the
--   monotonic clock gain a second (IsTicking).
--   wait_until of the test framework: Commander/Waiting, an interface with laws, filled by a wait that looks
--   at each moment
--   the Kubernetes client, the file system, `json.loads`, the constants of the warnet package
-- The scenarios run while the network goes on, so that Blackhole, Survival/Run and Commander/Connect take the
-- answers of the nodes as functions of the moment at which they are asked: the theorems hold for all such
-- functions, and so for every effect that the calls may have. A call takes a moment or more.
-- Threads only append to lists of which the code uses the length, the greatest or the least element, so a
-- thread is a function and the order of their appends is the order of a list. An exception in a thread ends
-- it unseen, with nothing appended: the polling threads of mine_blocks, monitor_mempool and
-- wait_for_tanks_connected have that path. Outside threads, generatetoaddress and the sends of the
-- experiment, sends and mining of the other scenarios, and the command and the wait of simln may raise; a
-- read of a node or of the wallet there answers.
--
-- Bounds and fuel: `build_network` recurses on the attempts that are left. The polling loops have fuel for
-- `timeout + 2` polls, and `poll` of check_eclipse.py for `timeout + 1`, which is enough where the clock
-- gains a second a poll, and the broadcast for one step more than there are transactions. The wait for
-- connections and the retries of `get` and `post` may go on for ever in the code; the theorems on them
-- hold for every fuel that reaches the answer. Integers of Python are ℤ on the command line; where a check
-- has made them positive they go on as ℕ. A timeout is a number of whole seconds, 0 or more.
--
-- Prelude holds the shared lists, integers, texts, results and floats. A float is a binary double of 53 bits
-- that is not negative, its exponent unbounded; Prelude/Float/Bits has the fuel of its scaling, and
-- Prelude/Float/Near its precision.
--
-- Not modelled: how argparse and click split a command line, the text of yaml.dump, files and log lines, the
-- signal handler and the network thread of commander.py, HTTP, helm and the text of json.dumps, and
-- scenarios/test_framework, which is Bitcoin Core's. `int` of a text takes ASCII digits
-- with underscores between them, for annotations and channels also a sign and white space around them, and
-- `json.loads` gives no fractions.
pub mod Prelude
pub mod Graph
pub mod Rng
pub mod Network
pub mod Eclipse
pub mod Bandwidth
pub mod Lightning
pub mod Commander
pub mod Survival
pub mod Blackhole
pub mod Plugins
