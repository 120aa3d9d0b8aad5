-- ===== src/Eclipse/Captured.antt =====
-- The victim of an arm: its `addnode` links are the blackholes, and no other tank links to it.
use erlay_warnet.Prelude.{
  All-intro, not, ℕ, ◌+◌, ◌<◌, ◌≡◌, refl, sym, keep-append, keep-none, keep-id, ap, ◌∙◌, Bool, true,
  false, Option, none, some, List, [], ◌∷◌, ◌++◌, map, keep, length, drop, All, range, map-All,
  keep-All, All-append, All-mono, take-All, drop-All,
}
use mathlib.Core.List.{append_assoc}
use erlay_warnet.Prelude.Int.{pos, pos_part}
use erlay_warnet.Prelude.Result.{ok}
use erlay_warnet.Prelude.Text.{Text, codes}
use erlay_warnet.Graph.{DiGraph}
use erlay_warnet.Graph as Graph
use erlay_warnet.Rng.{Rng}
use erlay_warnet.Rng as Rng
use erlay_warnet.Network.Build.Wiring.{IsBuilt}
use erlay_warnet.Network.Main.Laws.{targets_below}
use erlay_warnet.Network.Yaml.{
  Connection, Tank, NetworkYaml, tank_of, tank_name, unless_empty, connection_entry,
  to_network_yaml,
}
use erlay_warnet.Network.Yaml.Reading.{connections, tank_of_lem, entries}
use erlay_warnet.Eclipse.{
  Options, Arm, full_relay, full_recon, extra_entries, plain_entry, reachable_of, blackholes_from,
  victim_of, arm_network, arms_of, main,
}
use erlay_warnet.Eclipse.Overlay.{IsDrawn, IsTankBelow}
use erlay_warnet.Eclipse.Run.{main-IsMade}
use erlay_warnet.Eclipse.Twins.{first_tanks, second_tanks, third_tanks}
use erlay_warnet.Eclipse.Degrees.{extras_in, length-extra_entries, mesh_args}

-- A tank that has a configuration of its own: in these networks, a blackhole.
abbrev pub is_blackhole : Tank → Bool
is_blackhole t = elim t.config [ none ↦ false | some _ ↦ true ]

-- All links of a tank go to honest tanks below `bound`.
abbrev pub HasLinksBelow : ℕ → Tank → Type 0
HasLinksBelow bound t =
    All (IsTankBelow bound) t.addnode
    × All (λ (c : Connection). IsTankBelow bound c.to) (connections t.addconnection)

-- The last tank is a victim that has the blackholes as its `addnode` links and `extras` more links, to
-- honest tanks below `bound`; all other tanks link to honest tanks below `bound` alone.
pub record IsCaptured (bound extras : ℕ) (tanks : List Tank) : Type 0 where
  pub others : List Tank
  pub victim : Tank
  pub tanks_lem : tanks ≡ others ++ (victim ∷ [])
  pub named : victim.name ≡ codes "victim"
  pub captured : victim.addnode ≡ map (λ (b : Tank). b.name) (keep is_blackhole others)
  pub lifelines :
      All (λ (c : Connection). IsTankBelow bound c.to) (connections victim.addconnection)
  pub lifeline_count : length (connections victim.addconnection) ≡ extras
  pub others_elsewhere : All (HasLinksBelow bound) others

blackholes-config :
    (outbound i : ℕ) (type : Option Text) (tss : List (List Text))
    → All (λ t. is_blackhole t ≡ true) (blackholes_from outbound type i tss)
unfolding blackholes_from
blackholes-config outbound i type [] = tt
blackholes-config outbound i type (ts ∷ tss) = (refl, blackholes-config outbound (i + 1) type tss)

extra_entries-All :
    (P : Text → Type 0) (type : Option Text) (targets : List Text)
    → All P targets
    → All (λ (c : Connection). P c.to) (connections (extra_entries type targets))
extra_entries-All P none targets h = tt
extra_entries-All P (some type) targets h = map-All _ (plain_entry type) targets h

blackholes-HasLinksBelow :
    (bound outbound k i : ℕ) (type : Option Text) (tss : List (List Text))
    → All (IsDrawn (IsTankBelow bound) k) tss
    → All (HasLinksBelow bound) (blackholes_from outbound type i tss)
unfolding blackholes_from
blackholes-HasLinksBelow bound outbound k i type [] h = tt
blackholes-HasLinksBelow bound outbound k i type (ts ∷ tss) ((_, below), h) = (
  (
    take-All _ outbound ts below,
    extra_entries-All (IsTankBelow bound) type (drop outbound ts) (drop-All _ outbound ts below),
  ),
  blackholes-HasLinksBelow bound outbound k (i + 1) type tss h,
)

module _ (bound outbound extras : ℕ) (tss : List (List Text)) (extra : List Text)
    (drawn : All (IsDrawn (IsTankBelow bound) (outbound + extras)) tss)
    (sampled : IsDrawn (IsTankBelow bound) extras extra) where
  arm-IsCaptured :
      (mesh : NetworkYaml) (type : Option Text)
      → All (λ t. (is_blackhole t ≡ false) × HasLinksBelow bound t) mesh.nodes
      → IsCaptured bound (extras_in type extras) (arm_network outbound tss extra mesh type).nodes
  unfolding arm_network victim_of
  arm-IsCaptured mesh type m =
      let blackholes = blackholes_from outbound type 0 tss in
      record {
        others = mesh.nodes ++ blackholes;
        victim = victim_of blackholes type extra;
        tanks_lem = sym (append_assoc mesh.nodes blackholes (victim_of blackholes type extra ∷ []));
        named = refl;
        captured = ap (map (λ (b : Tank). b.name)) (
            sym (
              keep-append is_blackhole mesh.nodes blackholes
              ∙ rw
                  (
                    keep-none is_blackhole mesh.nodes (All-mono _ _ mesh.nodes (λ t h. h.0) m),
                    keep-id is_blackhole blackholes (blackholes-config outbound 0 type tss),
                  )
                  refl));
        lifelines = extra_entries-All (IsTankBelow bound) type extra sampled.1;
        lifeline_count = length-extra_entries type extra ∙ ap (extras_in type) sampled.0;
        others_elsewhere =
            All-append _ mesh.nodes blackholes (All-mono _ _ mesh.nodes (λ t h. h.1) m)
              (blackholes-HasLinksBelow bound outbound (outbound + extras) 0 type tss drawn);
      }

module _ (D : DiGraph) (L : Graph.IsLawful D) (R : Rng) (S : Rng.IsLawful R) (args : Options) where
  connections-unless_empty :
      (type : Text) (v2 : Bool) (cs : List Connection) → connections (unless_empty type v2 cs) ≡ cs
  connections-unless_empty type v2 [] = refl
  connections-unless_empty type v2 (c ∷ cs) = refl

  edges-HasLinksBelow :
      (bound : ℕ) (type : Text) (i : ℕ) (es : List (ℕ × Bool))
      → All (λ e. e.0 < bound) es
      → (is_blackhole (tank_of type true i es) ≡ false)
        × HasLinksBelow bound (tank_of type true i es)
  unfolding connection_entry
  edges-HasLinksBelow bound type i es h =
      let below =
        All-mono _ (λ (e : ℕ × Bool). IsTankBelow bound (tank_name e.0)) es (λ e l. (e.0, refl, l))
          h in
      rw (tank_of_lem type true i es, connections-unless_empty type true (entries type true es))
        (
          refl,
          (
            map-All _ (λ (e : ℕ × Bool). tank_name e.0) _ (keep-All _ (λ e. e.1) es below),
            map-All _ (λ (e : ℕ × Bool). connection_entry type true e.0) _
                (keep-All _ (λ e. not e.1) es below),
          ),
        )

  mesh-HasLinksBelow :
      (recon_outbound : ℕ) (type : Text) (g : D.Graph)
      → IsBuilt D L
          (pos_part (reachable_of args))
          125
          (pos_part args.honest)
          (pos_part args.outbound)
          recon_outbound
          g
      → All
          (λ t. (is_blackhole t ≡ false) × HasLinksBelow (pos_part (reachable_of args)) t)
          (to_network_yaml type true D g (pos_part args.honest)).nodes
  unfolding to_network_yaml
  mesh-HasLinksBelow recon_outbound type g built =
      map-All _ (λ i. tank_of type true i (D.out_edges g i)) (range (pos_part args.honest))
        (All-intro _
          (λ i.
            edges-HasLinksBelow (pos_part (reachable_of args)) type i (D.out_edges g i)
              (targets_below D L R S (mesh_args D L R S args (pos recon_outbound) type) g built i))
          (range (pos_part args.honest)))

  -- Where `main` ends with three networks, each ends with the victim, whose `addnode` links are the
  -- blackholes of that network, all of them and in order; the control network gives it no other link, the
  -- other two `extras` more, all to reachable honest tanks. The
  -- links of all tanks but the victim name reachable honest tanks, never a blackhole or the victim.
  pub victim-IsCaptured :
      {control relay recon : Arm}
      → main D R args ≡ ok (control ∷ relay ∷ recon ∷ [])
      → IsCaptured (pos_part (reachable_of args)) 0 control.network.nodes
        × IsCaptured (pos_part (reachable_of args)) (pos_part args.extras) relay.network.nodes
        × IsCaptured (pos_part (reachable_of args)) (pos_part args.extras) recon.network.nodes
  unfolding arms_of
  victim-IsCaptured {control} {relay} {recon} e =
      let made = main-IsMade D L R S args e in
      let arm =
        arm-IsCaptured (pos_part (reachable_of args)) (pos_part args.outbound)
          (pos_part args.extras) made.bh_targets made.victim_extra made.bh_drawn
          made.victim_drawn in
      let size = pos_part args.honest in
      let extras = pos_part args.extras in
      (
        rw (ap first_tanks made.arms_lem) (
            arm (to_network_yaml full_relay true D made.bare size) none
              (mesh-HasLinksBelow 0 full_relay made.bare made.bare_built)),
        rw (ap second_tanks made.arms_lem) (
            arm (to_network_yaml full_relay true D made.mesh size) (some full_relay)
              (mesh-HasLinksBelow extras full_relay made.mesh made.mesh_built)),
        rw (ap third_tanks made.arms_lem) (
            arm (to_network_yaml full_recon true D made.mesh size) (some full_recon)
              (mesh-HasLinksBelow extras full_recon made.mesh made.mesh_built)),
      )
