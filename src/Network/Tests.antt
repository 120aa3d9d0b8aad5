-- ===== src/Network/Tests.antt =====
-- Runs of the generator over the edge list and the rotating choice, and the theorems at these inputs.
use erlay_warnet.Prelude.{range, ◌↔◌, ℕ, ◌≡◌, refl, Bool, true, false, some, [], ◌∷◌, arith}
use erlay_warnet.Prelude.Int.{pos, ◌+ℤ◌, ◌*ℤ◌}
use erlay_warnet.Prelude.Result.{ok, err}
use erlay_warnet.Prelude.Text.{codes}
use erlay_warnet.Graph.{Linked}
use erlay_warnet.Graph.EdgeList.{Edge, Edges, edge_list, edge_list-IsLawful}
use erlay_warnet.Rng.{sample}
use erlay_warnet.Rng.Rotating.{rotating, rotating-IsLawful}
use erlay_warnet.Network.Args.{
  Infeasible, validate_args, max_inbound_too_small, min_cap_for, min_reachable_for,
}
use erlay_warnet.Network.Args.Laws.{IsFeasible, validate_args-IsFeasible}
use erlay_warnet.Network.Attempt.{done}
use erlay_warnet.Network.Build.{Search, found, build_network, try_build_graph}
use erlay_warnet.Network.Capacity.{validate_args_complete}
use erlay_warnet.Network.Options.{Args, Flag, parse_args}
use erlay_warnet.Network.Search.{IsAnswer, build_network-IsAnswer, build_network-Linked}
use erlay_warnet.Network.Yaml.{tank_of}
use erlay_warnet.Network.Yaml.Reading.{tank_id, read_manual, read_typed, tank_of-read}
use erlay_warnet.Network.Main.{main}
use erlay_warnet.Network.Main.Laws.{IsRun, main-IsRun}

abbrev edge : ℕ → ℕ → Bool → Edge
edge u v m = record { source = u; target = v; manual = m }

-- Five nodes, all reachable, that open one edge of each kind: the least size for two edges a node.
abbrev mesh : Edges
mesh = record {
  nodes = 0 ∷ 1 ∷ 2 ∷ 3 ∷ 4 ∷ [];
  edges =
      edge 0 1 true
      ∷ edge 1 4 true
      ∷ edge 2 3 true
      ∷ edge 3 1 true
      ∷ edge 4 3 true
      ∷ edge 0 2 false
      ∷ edge 1 2 false
      ∷ edge 2 4 false
      ∷ edge 3 0 false
      ∷ edge 4 0 false
      ∷ [];
}

-- Two attempts end in a deadlock, and the third one builds the mesh.
build_mesh : (build_network edge_list rotating 5 5 4 1 1 20 1).0 ≡ found mesh 3
unfolding build_network try_build_graph range sample
build_mesh = refl

build_mesh_gives_up :
    (build_network edge_list rotating 4 4 4 1 1 20 1).0
    ≡ Search.infeasible (Infeasible.not_connected_after 20)
unfolding build_network try_build_graph range sample
build_mesh_gives_up = refl

abbrev options : Args
options = record {
  size = pos 5;
  reachable = pos 5;
  outbound = pos 1;
  recon_outbound = pos 1;
  max_inbound = pos 4;
  connection_type = codes "outbound-full-recon";
  v2 = false;
  seed = some (pos 1);
  max_attempts = pos 20;
  output = codes "network.yaml";
}

parse_options :
    parse_args (
      Flag.size (pos 5)
      ∷ Flag.reachable (pos 5)
      ∷ Flag.outbound (pos 3)
      ∷ Flag.outbound (pos 1)
      ∷ Flag.recon_outbound (pos 1)
      ∷ Flag.max_inbound (pos 4)
      ∷ Flag.connection_type (codes "outbound-full-recon")
      ∷ Flag.v2 false
      ∷ Flag.seed (pos 1)
      ∷ Flag.max_attempts (pos 20)
      ∷ [])
    ≡ some options
unfolding parse_args
parse_options = refl

main-IsRun_example :
    IsRun edge_list edge_list-IsLawful rotating rotating-IsLawful options
      (main edge_list rotating options)
main-IsRun_example = main-IsRun edge_list edge_list-IsLawful rotating rotating-IsLawful options

build_network-IsAnswer_example :
    IsAnswer edge_list edge_list-IsLawful rotating rotating-IsLawful 5 5 4 1 1 20 1
      (build_network edge_list rotating 5 5 4 1 1 20 1).0
build_network-IsAnswer_example =
    build_network-IsAnswer edge_list edge_list-IsLawful rotating rotating-IsLawful 5 5 4 1 1 20 1

build_network-Linked_example : Linked (edge_list.has_edge mesh) 1 3
build_network-Linked_example =
    build_network-Linked edge_list edge_list-IsLawful rotating rotating-IsLawful 5 5 4 1 1 20 1 1 3
      build_mesh (omega arith) (omega arith)

try_mesh : (try_build_graph edge_list rotating 5 5 4 1 1 16).0 ≡ done mesh
unfolding try_build_graph range sample
try_mesh = refl

validate_args_complete_example : validate_args (pos 5) (pos 5) (pos 1) (pos 1) (pos 4) ≡ ok tt
validate_args_complete_example =
    validate_args_complete edge_list edge_list-IsLawful rotating rotating-IsLawful 5 5 4 1 1 16
      (omega arith) (omega arith) (omega arith) (omega arith) try_mesh

validate_args-IsFeasible_example :
    (validate_args (pos 5) (pos 5) (pos 1) (pos 1) (pos 4) ≡ ok tt)
    ↔ IsFeasible (pos 5) (pos 5) (pos 1) (pos 1) (pos 4)
validate_args-IsFeasible_example = validate_args-IsFeasible (pos 5) (pos 5) (pos 1) (pos 1) (pos 4)

-- Fifty nodes of which thirty are reachable want twenty slots each for twelve edges a node.
too_small :
    validate_args (pos 50) (pos 30) (pos 8) (pos 4) (pos 19)
    ≡ err (max_inbound_too_small (pos 19) (pos 50) (pos 12) (pos 600) (pos 30) (pos 20))
unfolding validate_args min_cap_for min_reachable_for ◌+ℤ◌ ◌*ℤ◌
too_small = refl

default_passes : validate_args (pos 50) (pos 30) (pos 8) (pos 4) (pos 125) ≡ ok tt
unfolding validate_args min_cap_for min_reachable_for ◌+ℤ◌ ◌*ℤ◌
default_passes = refl

tank_of-read_example :
    let t =
      tank_of (codes "outbound-full-relay") true 12 ((3, true) ∷ (10000, false) ∷ (7, true) ∷ []) in
    (tank_id t.name ≡ 12)
    × (read_manual t ≡ 3 ∷ 7 ∷ [])
    × (read_typed t ≡ (10000, codes "outbound-full-relay", true) ∷ [])
tank_of-read_example =
    tank_of-read (codes "outbound-full-relay") true 12 ((3, true) ∷ (10000, false) ∷ (7, true) ∷ [])
