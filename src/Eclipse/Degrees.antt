-- ===== src/Eclipse/Degrees.antt =====
-- Every node of an arm has the same degree: `outbound`, and `extras` more in the arms with extra links.
use erlay_warnet.Prelude.{
  ℕ, ◌+◌, ◌≤◌, ◌≡◌, refl, ap, ◌∙◌, true, Option, none, some, List, [], ◌∷◌, arith, length, drop,
  All, range, length-map, length-take_le, length-drop, map-All, All-of_contains, All-append,
  All-mono, contains-range,
}
use erlay_warnet.Prelude.Int.{ℤ, pos, pos_part}
use erlay_warnet.Prelude.Result.{ok}
use erlay_warnet.Prelude.Text.{Text}
use erlay_warnet.Graph.{DiGraph}
use erlay_warnet.Graph as Graph
use erlay_warnet.Rng.{Rng}
use erlay_warnet.Rng as Rng
use erlay_warnet.Network.Build.Wiring.{IsBuilt}
use erlay_warnet.Network.Options.{Args}
use erlay_warnet.Network.Main.Laws.{IsRendered, tank_of-IsRendered}
use erlay_warnet.Network.Yaml.{Tank, NetworkYaml, tank_of, to_network_yaml}
use erlay_warnet.Network.Yaml.Reading.{connections}
use erlay_warnet.Eclipse.{
  suc, Options, Arm, full_relay, full_recon, extra_entries, plain_entry, reachable_of,
  blackholes_from, victim_of, arm_network, arms_of, main,
}
use erlay_warnet.Eclipse.Overlay.{IsDrawn, IsTankBelow}
use erlay_warnet.Eclipse.Run.{main-IsMade, outbound_fits}
use erlay_warnet.Eclipse.Twins.{first_tanks, second_tanks, third_tanks}

-- So many links of each kind.
abbrev pub IsOfDegree : ℕ → ℕ → Tank → Type 0
IsOfDegree outbound extras t =
    (length t.addnode ≡ outbound) × (length (connections t.addconnection) ≡ extras)

abbrev pub extras_in : Option Text → ℕ → ℕ
extras_in none extras = 0
extras_in (some _) extras = extras

pub length-extra_entries :
    (type : Option Text) (targets : List Text)
    → length (connections (extra_entries type targets)) ≡ extras_in type (length targets)
length-extra_entries none targets = refl
length-extra_entries (some type) targets = length-map targets (plain_entry type)

length-blackholes :
    (outbound i : ℕ) (type : Option Text) (tss : List (List Text))
    → length (blackholes_from outbound type i tss) ≡ length tss
unfolding blackholes_from
length-blackholes outbound i type [] = refl
length-blackholes outbound i type (ts ∷ tss) = ap suc (length-blackholes outbound (i + 1) type tss)

module _ (outbound extras : ℕ) (P : Text → Type 0) (type : Option Text) where
  blackholes-IsOfDegree :
      (i : ℕ) (tss : List (List Text))
      → All (IsDrawn P (outbound + extras)) tss
      → All (IsOfDegree outbound (extras_in type extras)) (blackholes_from outbound type i tss)
  unfolding blackholes_from
  blackholes-IsOfDegree i [] h = tt
  blackholes-IsOfDegree i (ts ∷ tss) ((sized, _), h) = (
    (
      length-take_le outbound ts (omega arith),
      length-extra_entries type (drop outbound ts)
          ∙ ap (extras_in type) (length-drop outbound ts ∙ omega arith),
    ),
    blackholes-IsOfDegree (i + 1) tss h,
  )

  victim-IsOfDegree :
      (tss : List (List Text)) (extra : List Text)
      → length tss ≡ outbound
      → length extra ≡ extras
      → IsOfDegree outbound
          (extras_in type extras)
          (victim_of (blackholes_from outbound type 0 tss) type extra)
  unfolding victim_of
  victim-IsOfDegree tss extra h k = (
    length-map (blackholes_from outbound type 0 tss) (λ (b : Tank). b.name)
        ∙ length-blackholes outbound 0 type tss
        ∙ h,
    length-extra_entries type extra ∙ ap (extras_in type) k,
  )

  pub arm-IsOfDegree :
      (tss : List (List Text)) (extra : List Text) (mesh : NetworkYaml)
      → All (IsOfDegree outbound (extras_in type extras)) mesh.nodes
      → All (IsDrawn P (outbound + extras)) tss
      → length tss ≡ outbound
      → length extra ≡ extras
      → All
          (IsOfDegree outbound (extras_in type extras))
          (arm_network outbound tss extra mesh type).nodes
  unfolding arm_network
  arm-IsOfDegree tss extra mesh m d h k = All-append _ mesh.nodes _ m (
      All-append _ (blackholes_from outbound type 0 tss) _ (blackholes-IsOfDegree 0 tss d)
        (victim-IsOfDegree tss extra h k, tt))

module _ (D : DiGraph) (L : Graph.IsLawful D) (R : Rng) (S : Rng.IsLawful R) (args : Options) where
  -- The call of `honest_mesh` as the options of the generator of honest networks.
  abbrev pub mesh_args : ℤ → Text → Args
  mesh_args recon_outbound type = record {
    size = args.honest;
    reachable = reachable_of args;
    outbound = args.outbound;
    recon_outbound = recon_outbound;
    max_inbound = pos 125;
    connection_type = type;
    v2 = true;
    seed = some args.seed;
    max_attempts = pos 500;
    output = args.out;
  }

  -- Every tank of an honest mesh is rendered from a node.
  pub mesh-IsRendered :
      (recon_outbound : ℤ) (type : Text) (g : D.Graph)
      → IsBuilt D L
          (pos_part (reachable_of args))
          125
          (pos_part args.honest)
          (pos_part args.outbound)
          (pos_part recon_outbound)
          g
      → All
          (λ t.
            (i : ℕ) × (t ≡ tank_of type true i (D.out_edges g i))
            × IsRendered D L R S (mesh_args recon_outbound type) i t)
          (to_network_yaml type true D g (pos_part args.honest)).nodes
  unfolding to_network_yaml
  mesh-IsRendered recon_outbound type g built =
      map-All _ (λ i. tank_of type true i (D.out_edges g i)) (range (pos_part args.honest))
        (All-of_contains _ (range (pos_part args.honest)) (λ i m. (
          i,
          refl,
          tank_of-IsRendered D L R S (mesh_args recon_outbound type) g built i
              (ground (arith, contains-range (pos_part args.honest) i)),
        )))

  mesh-IsOfDegree :
      (recon_outbound : ℤ) (type : Text) (g : D.Graph)
      → IsBuilt D L
          (pos_part (reachable_of args))
          125
          (pos_part args.honest)
          (pos_part args.outbound)
          (pos_part recon_outbound)
          g
      → All
          (IsOfDegree (pos_part args.outbound) (pos_part recon_outbound))
          (to_network_yaml type true D g (pos_part args.honest)).nodes
  mesh-IsOfDegree recon_outbound type g built =
      All-mono _ _ _ (λ t r. (r.2.manual_count, r.2.typed_count))
        (mesh-IsRendered recon_outbound type g built)

  -- Where `main` ends with three networks, every node of the control network, honest, blackhole or
  -- victim, has `outbound` links under `addnode` and no other; every node of the other two has `outbound`
  -- and `extras` more under `addconnection`; and `outbound` is 8 at most.
  pub equal_degrees :
      {control relay recon : Arm}
      → main D R args ≡ ok (control ∷ relay ∷ recon ∷ [])
      → (pos_part args.outbound ≤ 8)
        × All (IsOfDegree (pos_part args.outbound) 0) control.network.nodes
        × All (IsOfDegree (pos_part args.outbound) (pos_part args.extras)) relay.network.nodes
        × All (IsOfDegree (pos_part args.outbound) (pos_part args.extras)) recon.network.nodes
  unfolding arms_of
  equal_degrees {control} {relay} {recon} e =
      let made = main-IsMade D L R S args e in
      let outbound = pos_part args.outbound in
      let extras = pos_part args.extras in
      let P = IsTankBelow (pos_part (reachable_of args)) in
      (
        outbound_fits D L R S args e,
        rw (ap first_tanks made.arms_lem) (
            arm-IsOfDegree outbound extras P none made.bh_targets made.victim_extra
              (to_network_yaml full_relay true D made.bare (pos_part args.honest))
              (mesh-IsOfDegree (pos 0) full_relay made.bare made.bare_built) made.bh_drawn
              made.bh_count made.victim_drawn.0),
        rw (ap second_tanks made.arms_lem) (
            arm-IsOfDegree outbound extras P (some full_relay) made.bh_targets made.victim_extra
              (to_network_yaml full_relay true D made.mesh (pos_part args.honest))
              (mesh-IsOfDegree args.extras full_relay made.mesh made.mesh_built) made.bh_drawn
              made.bh_count made.victim_drawn.0),
        rw (ap third_tanks made.arms_lem) (
            arm-IsOfDegree outbound extras P (some full_recon) made.bh_targets made.victim_extra
              (to_network_yaml full_recon true D made.mesh (pos_part args.honest))
              (mesh-IsOfDegree args.extras full_recon made.mesh made.mesh_built) made.bh_drawn
              made.bh_count made.victim_drawn.0),
      )
