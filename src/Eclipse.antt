-- ===== src/Eclipse.antt =====
-- `utils/create_eclipse_network.py`: the three networks of the single-node eclipse experiment.
pub mod Overlay
pub mod Run
pub mod Twins
pub mod Degrees
pub mod Captured
mod Tests
use erlay_warnet.Prelude.{
  ℕ, zero, suc, ◌+◌, true, Option, none, some, List, [], ◌∷◌, ◌++◌, map, take, drop,
}
use erlay_warnet.Prelude.Int.{ℤ, pos, pos_part, ltb_ℤ, ◌+ℤ◌}
use erlay_warnet.Prelude.Result.{Result, ok, err, ◌>>=◌, ◌>>◌, raise_if}
use erlay_warnet.Prelude.Text.{Text, codes, padded}
use erlay_warnet.Graph.{DiGraph}
use erlay_warnet.Rng.{Rng, sample}
use erlay_warnet.Network.Main.{Failure, sample_raised, checked_graph}
use erlay_warnet.Network.Yaml.{Connection, Tank, NetworkYaml, to_network_yaml}

-- The options of `main`, with their defaults below.
pub record Options : Type 0 where
  pub honest : ℤ
  pub reachable : Option ℤ
  pub outbound : ℤ
  pub extras : ℤ
  pub seed : ℤ
  pub out : Text

abbrev pub default_options : Options
default_options = record {
  honest = pos 30;
  reachable = none;
  outbound = pos 8;
  extras = pos 4;
  seed = pos 1337;
  out = codes "networks";
}

-- `args.reachable if args.reachable is not None else honest`
abbrev pub reachable_of : Options → ℤ
reachable_of args = elim args.reachable [ none ↦ args.honest | some r ↦ r ]

-- `p.error` over `--outbound`, or what went wrong below. An `InfeasibleNetwork` is reported by
-- `p.error` too; the other failures pass through.
pub data Stop : Type 0 where
  outbound_exceeds_addnode : Stop
  failed : Failure → Stop

abbrev pub or_stop : {A : Type 0} → Result Failure A → Result Stop A
or_stop (ok a) = ok a
or_stop (err f) = err (failed f)

abbrev pub or_raise : {A : Type 0} → Option A → Result Stop A
or_raise none = err (failed sample_raised)
or_raise (some a) = ok a

-- `f"blackhole-{i + 1:04d}"`
unfoldable pub blackhole_name : ℕ → Text
unfolding padded
blackhole_name i = codes "blackhole-" ++ padded 4 (i + 1)

abbrev pub plain_entry : Text → Text → Connection
plain_entry type to = record { to = to; type = some type; v2 = none }

-- `[{"to": t, "type": ctype} for t in targets]`, where the arm has a type.
abbrev pub extra_entries : Option Text → List Text → Option (List Connection)
extra_entries none targets = none
extra_entries (some type) targets = some (map (plain_entry type) targets)

-- The body of `for i in range(outbound)`, on the targets that are left.
unfoldable pub blackholes_from : (outbound : ℕ) → Option Text → ℕ → List (List Text) → List Tank
unfolding blackhole_name
blackholes_from outbound type i [] = []
blackholes_from outbound type i (targets ∷ rest) =
    record {
      name = blackhole_name i;
      addnode = take outbound targets;
      addconnection = extra_entries type (drop outbound targets);
      config = some (codes "blackhole=1");
    }
    ∷ blackholes_from outbound type (i + 1) rest

unfoldable pub victim_of : List Tank → Option Text → List Text → Tank
victim_of blackholes type victim_extra = record {
  name = codes "victim";
  addnode = map (λ b. b.name) blackholes;
  addconnection = extra_entries type victim_extra;
  config = none;
}

-- The network of one arm: the honest mesh, the blackholes and the victim.
unfoldable pub arm_network :
    (outbound : ℕ) → List (List Text) → List Text → NetworkYaml → Option Text → NetworkYaml
unfolding blackholes_from victim_of
arm_network outbound bh_targets victim_extra mesh type =
    let blackholes = blackholes_from outbound type 0 bh_targets in
    record mesh {
      nodes = mesh.nodes ++ (blackholes ++ (victim_of blackholes type victim_extra ∷ []));
    }

pub record Arm : Type 0 where
  pub name : Text
  pub network : NetworkYaml

abbrev pub full_relay : Text
full_relay = codes "outbound-full-relay"

abbrev pub full_recon : Text
full_recon = codes "outbound-full-recon"

-- `for arm, ctype in arm_type.items()`
unfoldable pub arms_of :
    (outbound : ℕ) → List (List Text) → List Text → (control relay recon : NetworkYaml) → List Arm
unfolding arm_network
arms_of outbound bh_targets victim_extra control relay recon =
    record {
      name = codes "eclipse-control";
      network = arm_network outbound bh_targets victim_extra control none;
    }
    ∷ record {
      name = codes "eclipse-relay";
      network = arm_network outbound bh_targets victim_extra relay (some full_relay);
    }
    ∷ record {
      name = codes "eclipse-recon";
      network = arm_network outbound bh_targets victim_extra recon (some full_recon);
    }
    ∷ []

module _ (R : Rng) where
  -- `[rng.sample(names, k) for _ in range(n)]`, and the state after it.
  unfoldable pub samples : List Text → (k n : ℕ) → R.State → Option (List (List Text)) × R.State
  samples names k zero s = (some [], s)
  samples names k (suc n) s =
      let (drawn, s') = sample R names k s in
      let (rest, s'') = samples names k n s' in
      elim drawn [
        | none ↦ (none, s')
        | some ts ↦ elim rest [ none ↦ (none, s'') | some tss ↦ (some (ts ∷ tss), s'') ]
      ]

module _ (D : DiGraph) (R : Rng) where
  unfoldable pub honest_mesh :
      (size reachable outbound recon_outbound : ℤ) → Text → R.State → Result Failure NetworkYaml
  honest_mesh size reachable outbound recon_outbound conn_type rng = do
    (graph, _) ← checked_graph D R size reachable outbound recon_outbound (pos 125) (pos 500) rng
    ok (to_network_yaml conn_type true D graph (pos_part size))

  -- The overlay on the three meshes, drawn once for all arms.
  unfoldable pub overlay :
      (reachable outbound extras : ℕ)
      → R.State
      → (control relay recon : NetworkYaml) → Result Stop (List Arm)
  unfolding arms_of samples
  overlay reachable outbound extras rng control relay recon = do
    let reachable_names = take reachable (map (λ (t : Tank). t.name) recon.nodes)
    let full_deg = outbound + extras
    let (drawn, rng') = samples R reachable_names full_deg outbound rng
    bh_targets ← or_raise drawn
    victim_extra ← or_raise (sample R reachable_names extras rng').0
    ok (arms_of outbound bh_targets victim_extra control relay recon)

  -- `main`, up to writing `out/<arm>/network.yaml`. Past the meshes the numbers are positive.
  unfoldable pub main : Options → Result Stop (List Arm)
  unfolding honest_mesh overlay
  main args = do
    raise_if (ltb_ℤ (pos 8) args.outbound) outbound_exceeds_addnode
    let reachable = reachable_of args
    control ← or_stop (
        honest_mesh args.honest reachable args.outbound (pos 0) full_relay
          (R.seeded (some args.seed)))
    relay ← or_stop (
        honest_mesh args.honest reachable args.outbound args.extras full_relay
          (R.seeded (some args.seed)))
    recon ← or_stop (
        honest_mesh args.honest reachable args.outbound args.extras full_recon
          (R.seeded (some args.seed)))
    overlay (pos_part reachable) (pos_part args.outbound) (pos_part args.extras)
        (R.seeded (some (args.seed +ℤ pos 1))) control relay recon
