-- ===== src/Network/Yaml/Reading.antt =====
-- Reading a rendered network back: its tanks name the same edges, of the same types.
use mathlib.Core.List.{append_assoc, append-nil}
use erlay_warnet.Prelude.{
  ◌<◌, range, length-range, get_elem?, get_elem?-map, get_elem?-range, length, length-map, ap, ℕ,
  ◌≡◌, refl, ◌∙◌, Bool, true, false, not, Option, none, some, List, [], ◌∷◌, ◌++◌, map, foldl, keep,
  drop, arith,
}
use erlay_warnet.Prelude.Text.{Text, text_eq→eq, value, value-padded}
use erlay_warnet.Graph.{DiGraph}
use erlay_warnet.Network.Yaml.{
  to_network_yaml, unless_empty, tank_of, Connection, Tank, tank_name, connection_entry, sort_edge,
  default_connection_type,
}

-- The number in a tank's name.
pub tank_id : Text → ℕ
tank_id name = value (drop 5 name)

pub tank_id-tank_name : (n : ℕ) → tank_id (tank_name n) ≡ n
unfolding tank_id tank_name
tank_id-tank_name n = value-padded 4 n

-- What a reader takes for the type and the transport of an entry that leaves them out.
abbrev pub or_default {ℓ} : {A : Type ℓ} → A → Option A → A
or_default d none = d
or_default d (some a) = a

abbrev pub connections : Option (List Connection) → List Connection
connections none = []
connections (some cs) = cs

-- The edges of a tank as a reader sees them: the manual ones, then the others with type and transport.
unfoldable pub read_manual : Tank → List ℕ
read_manual t = map tank_id t.addnode

abbrev pub read_entry : Connection → ℕ × Text × Bool
read_entry c = (tank_id c.to, or_default default_connection_type c.type, or_default true c.v2)

unfoldable pub read_typed : Tank → List (ℕ × Text × Bool)
read_typed t = map read_entry (connections t.addconnection)

pub length-read_manual : (t : Tank) → length (read_manual t) ≡ length t.addnode
unfolding read_manual
length-read_manual t = length-map t.addnode tank_id

pub length-read_typed : (t : Tank) → length (read_typed t) ≡ length (connections t.addconnection)
unfolding read_typed
length-read_typed t = length-map (connections t.addconnection) read_entry

module _ (connection_type : Text) (v2 : Bool) where
  abbrev pub manual_names : List (ℕ × Bool) → List Text
  manual_names es = map (λ e. tank_name e.0) (keep (λ e. e.1) es)

  abbrev pub entries : List (ℕ × Bool) → List Connection
  entries es = map (λ e. connection_entry connection_type v2 e.0) (keep (λ e. not e.1) es)

  sort_edges_from :
      (es : List (ℕ × Bool)) (a : List Text) (c : List Connection)
      → foldl (sort_edge connection_type v2) (a, c) es ≡ (a ++ manual_names es, c ++ entries es)
  unfolding sort_edge
  sort_edges_from [] a c = rw (append-nil a, append-nil c) refl
  sort_edges_from ((t, true) ∷ es) a c =
      sort_edges_from es (a ++ (tank_name t ∷ [])) c ∙ rw append_assoc refl
  sort_edges_from ((t, false) ∷ es) a c =
      sort_edges_from es a (c ++ (connection_entry connection_type v2 t ∷ []))
      ∙ rw append_assoc refl

  -- A tank by its fields.
  pub tank_of_lem :
      (node_id : ℕ) (es : List (ℕ × Bool))
      → tank_of connection_type v2 node_id es ≡ record {
        name = tank_name node_id;
        addnode = manual_names es;
        addconnection = unless_empty connection_type v2 (entries es);
        config = none;
      }
  unfolding tank_of
  tank_of_lem node_id es =
      ap
        (λ (p : List Text × List Connection). record {
          name = tank_name node_id;
          addnode = p.0;
          addconnection = unless_empty connection_type v2 p.1;
          config = none;
        })
        (sort_edges_from es [] [])

  read-entry :
      (target : ℕ)
      → let c = connection_entry connection_type v2 target in
        (tank_id c.to ≡ target)
        × (or_default default_connection_type c.type ≡ connection_type)
        × (or_default true c.v2 ≡ v2)
  unfolding connection_entry
  read-entry target = (
    tank_id-tank_name target,
    ground (arith, text_eq→eq connection_type default_connection_type),
    ground arith,
  )

  map-names : (es : List (ℕ × Bool)) → map tank_id (map (λ e. tank_name e.0) es) ≡ map (λ e. e.0) es
  map-names [] = refl
  map-names (e ∷ es) = cc (tank_id-tank_name e.0, map-names es)

  read_entry_lem :
      (t : ℕ) → read_entry (connection_entry connection_type v2 t) ≡ (t, connection_type, v2)
  read_entry_lem t = let (p, q, r) = read-entry t in λ i. (p i, q i, r i)

  map-entries :
      (es : List (ℕ × Bool))
      → map read_entry (map (λ e. connection_entry connection_type v2 e.0) es)
        ≡ map (λ e. (e.0, connection_type, v2)) es
  map-entries [] = refl
  map-entries (e ∷ es) = cc (read_entry_lem e.0, map-entries es)

  connections-unless_empty :
      (cs : List Connection) → connections (unless_empty connection_type v2 cs) ≡ cs
  connections-unless_empty [] = refl
  connections-unless_empty (c ∷ cs) = refl

  -- Reading a tank back gives the edges of its node: the manual ones in `addnode` and the others in
  -- `addconnection`, in order, these with the connection type and the transport that were asked for,
  -- also where the entry leaves them out; its name gives the node.
  pub tank_of-read :
      (node_id : ℕ) (es : List (ℕ × Bool))
      → let t = tank_of connection_type v2 node_id es in
        (tank_id t.name ≡ node_id)
        × (read_manual t ≡ map (λ e. e.0) (keep (λ e. e.1) es))
        × (read_typed t ≡ map (λ e. (e.0, connection_type, v2)) (keep (λ e. not e.1) es))
  unfolding tank_of read_manual read_typed
  tank_of-read node_id es =
      let sorted = sort_edges_from es [] [] in
      (
        tank_id-tank_name node_id,
        ap (λ (p : List Text × List Connection). map tank_id p.0) sorted
            ∙ map-names (keep (λ e. e.1) es),
        ap
              (λ (p : List Text × List Connection).
                map read_entry (connections (unless_empty connection_type v2 p.1)))
              sorted
            ∙ ap (map read_entry) (connections-unless_empty (entries es))
            ∙ map-entries (keep (λ e. not e.1) es),
      )

module _ (connection_type : Text) (v2 : Bool) (D : DiGraph) (g : D.Graph) (size : ℕ) where
  abbrev tank_at : ℕ → Tank
  tank_at i = tank_of connection_type v2 i (D.out_edges g i)

  pub length-nodes : length (to_network_yaml connection_type v2 D g size).nodes ≡ size
  unfolding to_network_yaml
  length-nodes = length-map (range size) tank_at ∙ length-range size

  pub get_elem?-nodes :
      (i : ℕ)
      → i < size
      → get_elem? (to_network_yaml connection_type v2 D g size).nodes i ≡ some (tank_at i)
  unfolding to_network_yaml
  get_elem?-nodes i h = get_elem?-map tank_at (range size) i i (get_elem?-range size i h)
