-- ===== src/Network/Main.antt =====
-- `main` of `utils/create_network.py`, from the parsed options to the structure that is written.
pub mod Laws
use erlay_warnet.Prelude.{ℕ, ◌+◌, ◌*◌, List, [], ◌∷◌, map, range, min, max}
use erlay_warnet.Prelude.Int.{ℤ, pos_part, ◌+ℤ◌, ◌*ℤ◌}
use erlay_warnet.Prelude.Result.{Result, ok, err, ◌>>=◌, ◌>>◌}
use erlay_warnet.Prelude.Text.{Text}
use erlay_warnet.Graph.{DiGraph}
use erlay_warnet.Rng.{Rng}
use erlay_warnet.Network.Args.{Infeasible, validate_args}
use erlay_warnet.Network.Build.{Search, found, infeasible, sample_error, null_graph, build_network}
use erlay_warnet.Network.Options.{Args}
use erlay_warnet.Network.Validate.{Violation, validate_graph}
use erlay_warnet.Network.Yaml.{NetworkYaml, to_network_yaml}

-- What ends a run before the file is written: `InfeasibleNetwork`, which `main` turns into an exit
-- message; an `AssertionError` of `validate_graph`; the `ValueError` of `sample`.
pub data Failure : Type 0 where
  not_feasible : Infeasible → Failure
  assertion : Violation → Failure
  sample_raised : Failure
  null_graph_raised : Failure

abbrev pub or_infeasible : {A : Type 0} → Result Infeasible A → Result Failure A
or_infeasible (ok a) = ok a
or_infeasible (err e) = err (not_feasible e)

abbrev pub or_assertion : {A : Type 0} → Result Violation A → Result Failure A
or_assertion (ok a) = ok a
or_assertion (err e) = err (assertion e)

abbrev pub or_failed : {G : Type 0} → Search G → Result Failure (G × ℕ)
or_failed (found g attempt) = ok (g, attempt)
or_failed (infeasible e) = err (not_feasible e)
or_failed sample_error = err sample_raised
or_failed null_graph = err null_graph_raised

-- The line on standard error: the average is printed from `connections` and `reachable`.
pub record Report : Type 0 where
  pub nodes : ℤ
  pub reachable : ℤ
  pub connections : ℤ
  pub attempt : ℕ
  pub min_inbound : ℕ
  pub max_inbound : ℕ

pub record Written : Type 0 where
  pub output : Text
  pub network : NetworkYaml
  pub report : Report

abbrev pub minimum : List ℕ → ℕ
minimum [] = 0
minimum (x ∷ []) = x
minimum (x ∷ y ∷ xs) = min x (minimum (y ∷ xs))

abbrev pub maximum : List ℕ → ℕ
maximum [] = 0
maximum (x ∷ xs) = max x (maximum xs)

-- What is written and reported of a graph.
unfoldable pub rendered : (D : DiGraph) → Args → D.Graph × ℕ → Result Failure Written
rendered D args (graph, attempts) = do
  let inbound_counts = map (D.in_degree graph) (range (pos_part args.reachable))
  ok (record {
    output = args.output;
    network = to_network_yaml args.connection_type args.v2 D graph (pos_part args.size);
    report = record {
      nodes = args.size;
      reachable = args.reachable;
      connections = args.size *ℤ (args.outbound +ℤ args.recon_outbound);
      attempt = attempts;
      min_inbound = minimum inbound_counts;
      max_inbound = maximum inbound_counts;
    };
  })

module _ (D : DiGraph) (R : Rng) where
  -- The checks before, the search and the checks after, as `main` and `honest_mesh` call them. Past
  -- `validate_args` the sizes are positive; on a limit below 0, counts behave as on 0.
  unfoldable pub checked_graph :
      (size reachable outbound recon_outbound max_inbound max_attempts : ℤ)
      → R.State
      → Result Failure (D.Graph × ℕ)
  checked_graph size reachable outbound recon_outbound max_inbound max_attempts rng = do
    or_infeasible (validate_args size reachable outbound recon_outbound max_inbound)
    let (search, _) =
        build_network D R (pos_part size) (pos_part reachable) (pos_part max_inbound)
          (pos_part outbound) (pos_part recon_outbound) (pos_part max_attempts) rng
    (graph, attempts) ← or_failed search
    or_assertion (
        validate_graph D (pos_part reachable) (pos_part outbound) (pos_part recon_outbound)
          (pos_part max_inbound) graph (pos_part size))
    ok (graph, attempts)

  unfoldable pub main : Args → Result Failure Written
  unfolding checked_graph rendered
  main args = do
    made ←
        checked_graph args.size args.reachable args.outbound args.recon_outbound args.max_inbound
          args.max_attempts (R.seeded args.seed)
    rendered D args made
