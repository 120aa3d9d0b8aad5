-- ===== src/Network/Yaml.antt =====
-- `to_network_yaml` of `utils/create_network.py`: the structure that is dumped as `network.yaml`.
-- A dict with fixed keys is a record; a key that may be missing is an `Option`.
pub mod Reading
use erlay_warnet.Prelude.{
  ℕ, Bool, true, false, not, Option, none, some, List, [], ◌∷◌, ◌++◌, map, foldl, range,
  if◌then◌else◌,
}
use erlay_warnet.Prelude.Text.{Text, codes, text_eq, padded}
use erlay_warnet.Graph.{DiGraph}

-- An entry of `addconnection`.
pub record Connection : Type 0 where
  pub to : Text
  pub type : Option Text
  pub v2 : Option Bool

-- An entry of `nodes`; `config` is set by the eclipse generator.
pub record Tank : Type 0 where
  pub name : Text
  pub addnode : List Text
  pub addconnection : Option (List Connection)
  pub config : Option Text

pub record NetworkYaml : Type 0 where
  pub caddy_enabled : Bool
  pub fork_observer_interval : ℕ
  pub fork_observer_enabled : Bool
  pub nodes : List Tank

abbrev pub default_connection_type : Text
default_connection_type = codes "outbound-full-relay"

-- `f"tank-{node_id:04d}"`
unfoldable pub tank_name : ℕ → Text
unfolding padded
tank_name node_id = codes "tank-" ++ padded 4 node_id

unfoldable pub connection_entry : (connection_type : Text) (v2 : Bool) (target : ℕ) → Connection
unfolding tank_name
connection_entry connection_type v2 target = record {
  to = tank_name target;
  type =
      if not (text_eq connection_type default_connection_type) then some connection_type else none;
  v2 = if not v2 then some false else none;
}

module _ (connection_type : Text) (v2 : Bool) where
  -- The body of the loop over `graph.out_edges`, on the two lists.
  unfoldable pub sort_edge : List Text × List Connection → ℕ × Bool → List Text × List Connection
  unfolding connection_entry
  sort_edge (addnode, addconnection) (target, is_manual) =
      if is_manual
      then (addnode ++ (tank_name target ∷ []), addconnection)
      else (addnode, addconnection ++ (connection_entry connection_type v2 target ∷ []))

  unfoldable pub sort_edges : List (ℕ × Bool) → List Text × List Connection
  unfolding sort_edge
  sort_edges = foldl sort_edge ([], [])

  -- `if addconnection: node["addconnection"] = addconnection`
  abbrev pub unless_empty : List Connection → Option (List Connection)
  unless_empty [] = none
  unless_empty (c ∷ cs) = some (c ∷ cs)

  unfoldable pub tank_of : (node_id : ℕ) → List (ℕ × Bool) → Tank
  unfolding sort_edges
  tank_of node_id edges =
      let (addnode, addconnection) = sort_edges edges in
      record {
        name = tank_name node_id;
        addnode = addnode;
        addconnection = unless_empty addconnection;
        config = none;
      }

  unfoldable pub to_network_yaml : (D : DiGraph) → D.Graph → (size : ℕ) → NetworkYaml
  unfolding tank_of
  to_network_yaml D graph size = record {
    caddy_enabled = false;
    fork_observer_interval = 5;
    fork_observer_enabled = false;
    nodes = map (λ node_id. tank_of node_id (D.out_edges graph node_id)) (range size);
  }
