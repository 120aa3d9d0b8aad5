-- ===== src/Eclipse/Twins.antt =====
-- The relay and the recon network differ in the types of their extra links only.
use erlay_warnet.Prelude.{
  ℕ, ◌≡◌, refl, sym, ◌∙◌, ap, Bool, true, not, Option, none, some, List, [], ◌∷◌, ◌++◌, ◌+◌, map,
  keep, range, drop,
}
use mathlib.Core.List.{map-append}
use erlay_warnet.Prelude.Result.{ok}
use erlay_warnet.Prelude.Int.{pos_part}
use erlay_warnet.Prelude.Text.{Text}
use erlay_warnet.Graph.{DiGraph}
use erlay_warnet.Graph as Graph
use erlay_warnet.Rng.{Rng}
use erlay_warnet.Rng as Rng
use erlay_warnet.Network.Yaml.{
  Connection, Tank, tank_name, connection_entry, tank_of, unless_empty, to_network_yaml,
}
use erlay_warnet.Network.Yaml.Reading.{manual_names, entries, tank_of_lem}
use erlay_warnet.Eclipse.{
  blackhole_name, Options, Arm, full_relay, full_recon, plain_entry, blackholes_from, victim_of,
  arm_network, arms_of, main,
}
use erlay_warnet.Eclipse.Run.{main-IsMade}

-- A tank without the types of its links.
abbrev pub strip : Connection → Connection
strip c = record c { type = none }

abbrev pub strip_all : Option (List Connection) → Option (List Connection)
strip_all none = none
strip_all (some cs) = some (map strip cs)

abbrev pub untyped : Tank → Tank
untyped t = record t { addconnection = strip_all t.addconnection }

module _ (type type' : Text) where
  strip-entries :
      (es : List (ℕ × Bool))
      → map strip (map (λ e. connection_entry type true e.0) es)
        ≡ map strip (map (λ e. connection_entry type' true e.0) es)
  unfolding connection_entry
  strip-entries [] = refl
  strip-entries (e ∷ es) = ap (◌∷◌ (strip (connection_entry type true e.0))) (strip-entries es)

  strip-unless_empty :
      (cs cs' : List Connection)
      → map strip cs ≡ map strip cs'
      → strip_all (unless_empty type true cs) ≡ strip_all (unless_empty type' true cs')
  strip-unless_empty [] [] h = refl
  strip-unless_empty [] (c ∷ cs') h = cc
  strip-unless_empty (c ∷ cs) [] h = cc
  strip-unless_empty (c ∷ cs) (c' ∷ cs') h = ap some h

  untyped-tank_of :
      (i : ℕ) (es : List (ℕ × Bool))
      → untyped (tank_of type true i es) ≡ untyped (tank_of type' true i es)
  untyped-tank_of i es =
      rw (tank_of_lem type true i es, tank_of_lem type' true i es)
        (ap
          (λ (cs : Option (List Connection)). record {
            name = tank_name i;
            addnode = manual_names type true es;
            addconnection = cs;
            config = none;
          })
          (strip-unless_empty (entries type true es) (entries type' true es)
            (strip-entries (keep (λ e. not e.1) es))))

  untyped-mesh :
      (D : DiGraph) (g : D.Graph) (xs : List ℕ)
      → map untyped (map (λ i. tank_of type true i (D.out_edges g i)) xs)
        ≡ map untyped (map (λ i. tank_of type' true i (D.out_edges g i)) xs)
  untyped-mesh D g [] = refl
  untyped-mesh D g (i ∷ xs) = cc (untyped-tank_of i (D.out_edges g i), untyped-mesh D g xs)

  strip-plain_entry :
      (ts : List Text)
      → map strip (map (plain_entry type) ts) ≡ map strip (map (plain_entry type') ts)
  strip-plain_entry [] = refl
  strip-plain_entry (t ∷ ts) = ap (◌∷◌ (strip (plain_entry type t))) (strip-plain_entry ts)

  untyped-blackholes :
      (outbound i : ℕ) (tss : List (List Text))
      → map untyped (blackholes_from outbound (some type) i tss)
        ≡ map untyped (blackholes_from outbound (some type') i tss)
  unfolding blackholes_from
  untyped-blackholes outbound i [] = refl
  untyped-blackholes outbound i (ts ∷ tss) =
      cc (strip-plain_entry (drop outbound ts), untyped-blackholes outbound (i + 1) tss)

  untyped-victim :
      (blackholes blackholes' : List Tank) (extra : List Text)
      → map (λ (b : Tank). b.name) blackholes ≡ map (λ (b : Tank). b.name) blackholes'
      → untyped (victim_of blackholes (some type) extra)
        ≡ untyped (victim_of blackholes' (some type') extra)
  unfolding victim_of
  untyped-victim blackholes blackholes' extra h = cc (strip-plain_entry extra, h)

names-blackholes :
    (outbound i : ℕ) (type type' : Option Text) (tss : List (List Text))
    → map (λ (b : Tank). b.name) (blackholes_from outbound type i tss)
      ≡ map (λ (b : Tank). b.name) (blackholes_from outbound type' i tss)
unfolding blackholes_from
names-blackholes outbound i type type' [] = refl
names-blackholes outbound i type type' (ts ∷ tss) =
    ap (◌∷◌ (blackhole_name i)) (names-blackholes outbound (i + 1) type type' tss)

map-parts :
    (f : Tank → Tank) (a a' b b' : List Tank) (v v' : Tank)
    → map f a ≡ map f a'
    → map f b ≡ map f b'
    → f v ≡ f v'
    → map f (a ++ (b ++ (v ∷ []))) ≡ map f (a' ++ (b' ++ (v' ∷ [])))
map-parts f a a' b b' v v' p q r = simp map-append (cc)

untyped-arm_network :
    (D : DiGraph) (g : D.Graph) (size outbound : ℕ) (tss : List (List Text)) (extra : List Text)
    → map untyped
        (arm_network outbound tss extra
          (to_network_yaml full_relay true D g size)
          (some full_relay)).nodes
      ≡ map untyped
          (arm_network outbound tss extra
            (to_network_yaml full_recon true D g size)
            (some full_recon)).nodes
unfolding arm_network to_network_yaml
untyped-arm_network D g size outbound tss extra =
    map-parts untyped _ _ _ _ _ _ (untyped-mesh full_relay full_recon D g (range size))
      (untyped-blackholes full_relay full_recon outbound 0 tss)
      (untyped-victim full_relay full_recon (blackholes_from outbound (some full_relay) 0 tss)
        (blackholes_from outbound (some full_recon) 0 tss) extra
        (names-blackholes outbound 0 (some full_relay) (some full_recon) tss))

-- The tanks of one arm of a list.
abbrev pub first_tanks : List Arm → List Tank
first_tanks (arm ∷ _) = arm.network.nodes
first_tanks [] = []

abbrev pub second_tanks : List Arm → List Tank
second_tanks (_ ∷ arm ∷ _) = arm.network.nodes
second_tanks _ = []

abbrev pub third_tanks : List Arm → List Tank
third_tanks (_ ∷ _ ∷ arm ∷ _) = arm.network.nodes
third_tanks _ = []

module _ (D : DiGraph) (L : Graph.IsLawful D) (R : Rng) (S : Rng.IsLawful R) where
  -- Where `main` ends with three networks, the second and the third have the same tanks in the same
  -- order with the same links, once the types of the links are left out.
  pub relay_recon_untyped :
      (args : Options) {control relay recon : Arm}
      → main D R args ≡ ok (control ∷ relay ∷ recon ∷ [])
      → map untyped relay.network.nodes ≡ map untyped recon.network.nodes
  unfolding arms_of
  relay_recon_untyped args {relay} {recon} e =
      let made = main-IsMade D L R S args e in
      ap (λ arms. map untyped (second_tanks arms)) made.arms_lem
      ∙ untyped-arm_network D made.mesh (pos_part args.honest) (pos_part args.outbound)
          made.bh_targets made.victim_extra
      ∙ sym (ap (λ arms. map untyped (third_tanks arms)) made.arms_lem)
