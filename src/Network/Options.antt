-- ===== src/Network/Options.antt =====
-- `parse_args` of `utils/create_network.py`. `argparse` reads the command line into options with
-- values; the model begins there: defaults, the two options that are required, and the last one wins.
use erlay_warnet.Prelude.{Bool, true, Option, none, some, List, [], ◌∷◌}
use erlay_warnet.Prelude.Int.{ℤ, pos}
use erlay_warnet.Prelude.Text.{Text, codes}
use erlay_warnet.Network.Yaml.{default_connection_type}

pub data Flag : Type 0 where
  size reachable outbound recon_outbound max_inbound seed max_attempts : ℤ → Flag
  connection_type output : Text → Flag
  v2 : Bool → Flag

-- The namespace while it is filled; the required options have no default.
pub record Namespace : Type 0 where
  pub size : Option ℤ
  pub reachable : Option ℤ
  pub outbound : ℤ
  pub recon_outbound : ℤ
  pub max_inbound : ℤ
  pub connection_type : Text
  pub v2 : Bool
  pub seed : Option ℤ
  pub max_attempts : ℤ
  pub output : Text

pub record Args : Type 0 where
  pub size : ℤ
  pub reachable : ℤ
  pub outbound : ℤ
  pub recon_outbound : ℤ
  pub max_inbound : ℤ
  pub connection_type : Text
  pub v2 : Bool
  pub seed : Option ℤ
  pub max_attempts : ℤ
  pub output : Text

abbrev pub defaults : Namespace
defaults = record {
  size = none;
  reachable = none;
  outbound = pos 8;
  recon_outbound = pos 4;
  max_inbound = pos 125;
  connection_type = default_connection_type;
  v2 = true;
  seed = none;
  max_attempts = pos 500;
  output = codes "network.yaml";
}

unfoldable pub store : Namespace → Flag → Namespace
store n (Flag.size i) = record n { size = some i }
store n (Flag.reachable i) = record n { reachable = some i }
store n (Flag.outbound i) = record n { outbound = i }
store n (Flag.recon_outbound i) = record n { recon_outbound = i }
store n (Flag.max_inbound i) = record n { max_inbound = i }
store n (Flag.seed i) = record n { seed = some i }
store n (Flag.max_attempts i) = record n { max_attempts = i }
store n (Flag.connection_type t) = record n { connection_type = t }
store n (Flag.output t) = record n { output = t }
store n (Flag.v2 b) = record n { v2 = b }

abbrev with_required : Option ℤ → Option ℤ → Namespace → Option Args
with_required (some s) (some r) n = some (record {
  size = s;
  reachable = r;
  outbound = n.outbound;
  recon_outbound = n.recon_outbound;
  max_inbound = n.max_inbound;
  connection_type = n.connection_type;
  v2 = n.v2;
  seed = n.seed;
  max_attempts = n.max_attempts;
  output = n.output;
})
with_required _ _ n = none

unfoldable pub parse_from : Namespace → List Flag → Option Args
unfolding store
parse_from n [] = with_required n.size n.reachable n
parse_from n (flag ∷ flags) = parse_from (store n flag) flags

-- `none` is the exit of `argparse` over a missing option.
unfoldable pub parse_args : List Flag → Option Args
unfolding parse_from
parse_args = parse_from defaults
