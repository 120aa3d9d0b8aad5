-- ===== src/Commander/Setup.antt =====
-- `Commander.setup` of `scenarios/commander.py`, from `WARNET` and the parsed options.
use erlay_warnet.Prelude.{
  ℕ, Bool, true, false, Option, none, some, List, [], ◌∷◌, if◌then◌else◌, length,
}
use erlay_warnet.Prelude.Result.{Result, ok, err, ◌>>=◌, raise_if, ◌>>◌}
use erlay_warnet.Prelude.Text.{Text}
use erlay_warnet.Commander.{TankInfo, Nodes, setup_nodes, set_item}
use erlay_warnet.Commander.Options.{Value, Parsed}
use erlay_warnet.Prelude.Int.{pos_part}
use erlay_warnet.Commander.Pods.{Entry, Warnet, Raised, int_text}
pub mod Indexed

-- An `LND`: its name, and the host, port and timeout of its connection.
pub record Lnd : Type 0 where
  pub name : Text
  pub host : Text
  pub port : ℕ
  pub timeout : ℕ

abbrev pub make_lnd : (pod_name : Text) → Lnd
make_lnd pod_name = record { name = pod_name; host = pod_name; port = 8080; timeout = 5 }

unfoldable pub add_lns : List Text → List (Text × Lnd) → List (Text × Lnd)
unfolding set_item
add_lns [] d = d
add_lns (ln ∷ lns) d = add_lns lns (set_item ln (make_lnd ln) d)

abbrev info_with : Entry → ℕ → TankInfo
info_with e n = record {
  tank = e.tank;
  chain = e.chain;
  rpc_host = e.rpc_host;
  rpc_port = e.rpc_port;
  rpc_user = e.rpc_user;
  rpc_password = e.rpc_password;
  init_peers = n;
}

-- `int(tank["init_peers"])` for each tank; the first one that is no number ends the setup. The
-- wait for the connections compares a count with it, for which a number below 0 is as 0.
unfoldable pub with_init_peers : List Entry → Result Raised (List TankInfo)
unfolding int_text
with_init_peers [] = ok []
with_init_peers (e ∷ es) = do
  n ← int_text e.init_peers
  rest ← with_init_peers es
  ok (info_with e (pos_part n) ∷ rest)

pub data SetupError : Type 0 where
  raised : Raised → SetupError
  tmpdir_exists : Text → SetupError

abbrev pub lift_error : {A : Type 0} → Result Raised A → Result SetupError A
lift_error (ok a) = ok a
lift_error (err e) = err (raised e)

-- `os.path.abspath`, `os.path.exists` and the directory that `mkdtemp` makes.
pub record FileSystem : Type 0 where
  pub abspath : Text → Text
  pub exists : Text → Bool
  pub mkdtemp : Text

-- An empty text counts as none given; `makedirs` raises over a directory that is there.
unfoldable pub choose_tmpdir : FileSystem → Option Text → Result SetupError Text
choose_tmpdir fs none = ok fs.mkdtemp
choose_tmpdir fs (some []) = ok fs.mkdtemp
choose_tmpdir fs (some (c ∷ t)) = do
  let dir = fs.abspath (c ∷ t)
  raise_if (fs.exists dir) (tmpdir_exists dir)
  ok dir

-- What a scenario finds when `run_test` begins. The options never leave the seed out, so it is theirs.
pub record Scenario (J : Type 0) : Type 0 where
  pub nodes : Nodes
  pub lns : List (Text × Lnd)
  pub channels : List (List (Text × J))
  pub num_nodes : ℕ
  pub tmpdir : Text
  pub seed : Value
  pub passed : Bool

unfoldable pub scenario_of :
    {J : Type 0} → Warnet J → Parsed → List TankInfo → (tmpdir : Text) → Scenario J
unfolding setup_nodes add_lns
scenario_of w p infos tmpdir =
    let all = setup_nodes infos in
    record {
      nodes = all;
      lns = add_lns w.lightning [];
      channels = w.channels;
      num_nodes = length all.nodes;
      tmpdir = tmpdir;
      seed = p.options.randomseed;
      passed = true;
    }

unfoldable pub setup :
    {J : Type 0} → FileSystem → Warnet J → Parsed → Result SetupError (Scenario J)
unfolding with_init_peers choose_tmpdir scenario_of
setup fs w p = do
  infos ← lift_error (with_init_peers w.tanks)
  tmpdir ← choose_tmpdir fs p.options.tmpdir
  ok (scenario_of w p infos tmpdir)
