-- ===== src/Eclipse/Tests.antt =====
-- A run of the generator of the three networks, and the theorems at it.
use erlay_warnet.Prelude.{
  All, ◌≤◌, ℕ, range, ◌≡◌, refl, Bool, none, some, [], ◌∷◌, map, true, false,
}
use erlay_warnet.Prelude.Int.{pos, ◌+ℤ◌, ◌*ℤ◌}
use erlay_warnet.Prelude.Result.{ok, err}
use erlay_warnet.Prelude.Text.{Text, codes}
use erlay_warnet.Graph.EdgeList.{Edge, Edges, edge_list, edge_list-IsLawful}
use erlay_warnet.Rng.{sample}
use erlay_warnet.Rng.Rotating.{rotating, rotating-IsLawful}
use erlay_warnet.Network.Args.{validate_args, min_reachable_for}
use erlay_warnet.Network.Build.{build_network, try_build_graph}
use erlay_warnet.Network.Main.{checked_graph}
use erlay_warnet.Network.Validate.{validate_graph}
use erlay_warnet.Network.Yaml.{NetworkYaml, tank_name, to_network_yaml}
use erlay_warnet.Eclipse.{
  Option, Options, Arm, outbound_exceeds_addnode, full_relay, full_recon, arm_network, main,
  default_options,
}
use erlay_warnet.Eclipse.Run.{IsEclipseRun, main-IsEclipseRun}
use erlay_warnet.Eclipse.Twins.{untyped, relay_recon_untyped}
use erlay_warnet.Eclipse.Degrees.{IsOfDegree, equal_degrees}
use erlay_warnet.Eclipse.Captured.{IsCaptured, victim-IsCaptured}

-- Five honest tanks, one blackhole and one extra link.
abbrev options : Options
options = record {
  honest = pos 5;
  reachable = none;
  outbound = pos 1;
  extras = pos 1;
  seed = pos 3;
  out = codes "networks";
}

abbrev edge : ℕ → ℕ → Bool → Edge
edge u v m = record { source = u; target = v; manual = m }

abbrev bare : Edges
bare = record {
  nodes = 0 ∷ 1 ∷ 2 ∷ 3 ∷ 4 ∷ [];
  edges = edge 0 4 true ∷ edge 1 0 true ∷ edge 2 1 true ∷ edge 3 2 true ∷ edge 4 2 true ∷ [];
}

abbrev mesh : Edges
mesh = record {
  nodes = 0 ∷ 1 ∷ 2 ∷ 3 ∷ 4 ∷ [];
  edges =
      edge 0 1 true
      ∷ edge 1 4 true
      ∷ edge 2 3 true
      ∷ edge 3 1 true
      ∷ edge 4 3 true
      ∷ edge 0 2 false
      ∷ edge 1 2 false
      ∷ edge 2 4 false
      ∷ edge 3 0 false
      ∷ edge 4 0 false
      ∷ [];
}

abbrev network : Edges → Text → Option Text → NetworkYaml
network g type extra_type =
    arm_network 1 ((tank_name 4 ∷ tank_name 0 ∷ []) ∷ []) (tank_name 0 ∷ [])
      (to_network_yaml type true edge_list g 5) extra_type

abbrev control : Arm
control = record { name = codes "eclipse-control"; network = network bare full_relay none }

abbrev relay : Arm
relay = record { name = codes "eclipse-relay"; network = network mesh full_relay (some full_relay) }

abbrev recon : Arm
recon = record { name = codes "eclipse-recon"; network = network mesh full_recon (some full_recon) }

main_run : main edge_list rotating options ≡ ok (control ∷ relay ∷ recon ∷ [])
unfolding main build_network try_build_graph range sample checked_graph validate_args
    min_reachable_for ◌+ℤ◌ ◌*ℤ◌ validate_graph to_network_yaml
main_run = refl

main_refuses :
    main edge_list rotating (record default_options { outbound = pos 9 })
    ≡ err outbound_exceeds_addnode
unfolding main
main_refuses = refl

main-IsEclipseRun_example :
    IsEclipseRun edge_list edge_list-IsLawful options (main edge_list rotating options)
main-IsEclipseRun_example =
    main-IsEclipseRun edge_list edge_list-IsLawful rotating rotating-IsLawful options

relay_recon_untyped_example : map untyped relay.network.nodes ≡ map untyped recon.network.nodes
relay_recon_untyped_example =
    relay_recon_untyped edge_list edge_list-IsLawful rotating rotating-IsLawful options main_run

equal_degrees_example :
    (1 ≤ 8)
    × All (IsOfDegree 1 0) control.network.nodes
    × All (IsOfDegree 1 1) relay.network.nodes
    × All (IsOfDegree 1 1) recon.network.nodes
equal_degrees_example =
    equal_degrees edge_list edge_list-IsLawful rotating rotating-IsLawful options main_run

victim-IsCaptured_example :
    IsCaptured 5 0 control.network.nodes
    × IsCaptured 5 1 relay.network.nodes
    × IsCaptured 5 1 recon.network.nodes
victim-IsCaptured_example =
    victim-IsCaptured edge_list edge_list-IsLawful rotating rotating-IsLawful options main_run
