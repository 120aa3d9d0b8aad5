-- ===== src/Commander/Options.antt =====
-- `Commander.parse_args` of `scenarios/commander.py`, from the flags that `argparse` splits the command
-- line into, the last one of each winning.
use erlay_warnet.Prelude.{
  ℕ, zero, suc, Bool, true, false, Option, none, some, List, [], ◌∷◌, if◌then◌else◌,
}
use erlay_warnet.Prelude.Text.{Text, codes}
use erlay_warnet.Commander.{set_item}
pub mod Factor

pub data Flag : Type 0 where
  help nocleanup nosandbox noshutdown trace_rpc prev_releases pdbonfailure : Flag
  usecli perf valgrind v2transport : Flag
  cachedir tmpdir loglevel port_seed coveragedir configfile randomseed : Text → Flag
  timeout_factor network fff : Text → Flag

-- An option without a `type=` is a number where its default stands, and text where it is given.
pub data Value : Type 0 where
  number : ℕ → Value
  text : Text → Value

pub record Namespace : Type 0 where
  pub nocleanup : Bool
  pub nosandbox : Bool
  pub noshutdown : Bool
  pub cachedir : Option Text
  pub tmpdir : Option Text
  pub loglevel : Text
  pub trace_rpc : Bool
  pub port_seed : Value
  pub prev_releases : Option Bool
  pub coveragedir : Option Text
  pub configfile : Option Text
  pub pdbonfailure : Bool
  pub usecli : Bool
  pub perf : Bool
  pub valgrind : Bool
  pub randomseed : Value
  pub timeout_factor : Value
  pub network : Text
  pub v2transport : Bool
  pub fff : Text

abbrev pub defaults : Namespace
defaults = record {
  nocleanup = false;
  nosandbox = false;
  noshutdown = false;
  cachedir = none;
  tmpdir = none;
  loglevel = codes "DEBUG";
  trace_rpc = false;
  port_seed = Value.number 0;
  prev_releases = none;
  coveragedir = none;
  configfile = none;
  pdbonfailure = false;
  usecli = false;
  perf = false;
  valgrind = false;
  randomseed = Value.number 131260415370612;
  timeout_factor = Value.number 1;
  network = codes "warnet";
  v2transport = false;
  fff = codes "1";
}

unfoldable pub store : Namespace → Flag → Namespace
store n Flag.help = n
store n Flag.nocleanup = record n { nocleanup = true }
store n Flag.nosandbox = record n { nosandbox = true }
store n Flag.noshutdown = record n { noshutdown = true }
store n Flag.trace_rpc = record n { trace_rpc = true }
store n Flag.prev_releases = record n { prev_releases = some true }
store n Flag.pdbonfailure = record n { pdbonfailure = true }
store n Flag.usecli = record n { usecli = true }
store n Flag.perf = record n { perf = true }
store n Flag.valgrind = record n { valgrind = true }
store n Flag.v2transport = record n { v2transport = true }
store n (Flag.cachedir t) = record n { cachedir = some t }
store n (Flag.tmpdir t) = record n { tmpdir = some t }
store n (Flag.loglevel t) = record n { loglevel = t }
store n (Flag.port_seed t) = record n { port_seed = Value.text t }
store n (Flag.coveragedir t) = record n { coveragedir = some t }
store n (Flag.configfile t) = record n { configfile = some t }
store n (Flag.randomseed t) = record n { randomseed = Value.text t }
store n (Flag.timeout_factor t) = record n { timeout_factor = Value.text t }
store n (Flag.network t) = record n { network = t }
store n (Flag.fff t) = record n { fff = t }

unfoldable pub parse_from : Namespace → List Flag → Namespace
unfolding store
parse_from n [] = n
parse_from n (flag ∷ flags) = parse_from (store n flag) flags

-- `help_parser`, which knows `--help` and leaves the other flags alone.
abbrev pub asks_help : List Flag → Bool
asks_help [] = false
asks_help (Flag.help ∷ flags) = true
asks_help (_ ∷ flags) = asks_help flags

-- The test `== 0`, then `or`: a text is never a number, and only the empty one is false.
unfoldable pub resolve_factor : (slow : Bool) → Value → Value
resolve_factor slow (Value.number zero) = Value.number 99999
resolve_factor slow (Value.number (suc n)) = Value.number (suc n)
resolve_factor slow (Value.text []) = Value.number (if slow then 4 else 1)
resolve_factor slow (Value.text t) = Value.text t

-- A scenario that has the option of `descriptors` passes its value, and one that has none `none`; the
-- two tests are those of the build that the framework reads.
unfoldable pub resolve_descriptors :
    Option (Option Bool) → (sqlite_compiled bdb_compiled : Bool) → Option Bool
resolve_descriptors none sqlite_compiled bdb_compiled = none
resolve_descriptors (some none) sqlite_compiled bdb_compiled =
    if sqlite_compiled then some true else if bdb_compiled then some false else none
resolve_descriptors (some given) sqlite_compiled bdb_compiled = given

-- `configparser`: sections of names with their values, the names in lower case.
abbrev pub Config : Type 0
Config = List (Text × List (Text × Text))

unfoldable pub with_environment : Config → Config
unfolding set_item
with_environment config =
    set_item (codes "environment") ((codes "package_bugreport", []) ∷ []) config

-- What `parse_args` leaves in `self.options`, `self.config` and `PortSeed.n`.
pub record Parsed : Type 0 where
  pub options : Namespace
  pub previous_releases_path : Text
  pub descriptors : Option Bool
  pub config : Config
  pub port_seed_n : Value

-- The help is shown and the program exits, or the file of `--configfile` is not read.
pub data Outcome : Type 0 where
  help_shown unreadable_config : Outcome
  parsed : Parsed → Outcome

abbrev pub read_config : (read_file : Text → Option Config) → Option Text → Option Config
read_config read_file none = some []
read_config read_file (some f) = read_file f

abbrev pub parsed_of : Namespace → Option Bool → Config → Parsed
parsed_of n descriptors config = record {
  options = record n { timeout_factor = resolve_factor n.valgrind n.timeout_factor };
  previous_releases_path = [];
  descriptors = descriptors;
  config = with_environment config;
  port_seed_n = n.port_seed;
}

unfoldable pub parse_args :
    (read_file : Text → Option Config)
    → Option (Option Bool)
    → (sqlite_compiled bdb_compiled : Bool) → List Flag
    → Outcome
unfolding parse_from resolve_factor resolve_descriptors with_environment
parse_args read_file declared sqlite_compiled bdb_compiled flags =
    let n = parse_from defaults flags in
    if asks_help flags then Outcome.help_shown else elim (read_config read_file n.configfile) [
      | none ↦ Outcome.unreadable_config
      | some config ↦
          Outcome.parsed
            (parsed_of n (resolve_descriptors declared sqlite_compiled bdb_compiled) config)
    ]
