-- ===== src/Graph.antt =====
-- The directed graph of `networkx` as the generators of `utils/` use it. The package is not part of
-- the repository, so it is an interface: operations, and the documented behaviour relied on.
pub mod EdgeList
use erlay_warnet.Prelude.{
  ℕ, suc, ◌≡◌, ◌≢◌, Bool, true, false, ◌&&◌, ◌||◌, List, [], ◌∷◌, ◌++◌, map, ◌==◌, contains,
  if◌then◌else◌,
}

-- A chain of edges, each followed in either direction.
pub data Linked (edge : ℕ → ℕ → Bool) (a : ℕ) : ℕ → Type 0 where
  here : Linked edge a a
  step : {b : ℕ} (c : ℕ) → Linked edge a b → (edge b c || edge c b) ≡ true → Linked edge a c

pub record DiGraph : Type 1 where
  pub Graph : Type 0
  -- `nx.DiGraph()`
  pub empty : Graph
  pub add_nodes_from : List ℕ → Graph → Graph
  -- `graph.add_edge(source, target, manual=manual)`
  pub add_edge : ℕ → ℕ → Bool → Graph → Graph
  pub has_node : Graph → ℕ → Bool
  pub has_edge : Graph → ℕ → ℕ → Bool
  pub in_degree : Graph → ℕ → ℕ
  pub successors : Graph → ℕ → List ℕ
  -- `graph.out_edges(source, data="manual")`, without the source
  pub out_edges : Graph → ℕ → List (ℕ × Bool)
  pub number_of_selfloops : Graph → ℕ
  -- `nx.is_connected(graph.to_undirected())`
  pub is_connected : Graph → Bool

-- An edge added to a graph that lacks it comes last among the edges of its source.
pub record IsLawful (D : DiGraph) : Type 0 where
  pub has_node-add_nodes_from :
      (ns : List ℕ) (g : D.Graph) (a : ℕ)
      → D.has_node (D.add_nodes_from ns g) a ≡ (contains ns a || D.has_node g a)
  pub has_node-add_edge :
      (u v : ℕ) (m : Bool) (g : D.Graph) (a : ℕ)
      → D.has_node g a ≡ true
      → D.has_node (D.add_edge u v m g) a ≡ true
  pub has_edge-empty : (a b : ℕ) → D.has_edge D.empty a b ≡ false
  pub has_edge-add_nodes_from :
      (ns : List ℕ) (g : D.Graph) (a b : ℕ)
      → D.has_edge (D.add_nodes_from ns g) a b ≡ D.has_edge g a b
  pub has_edge-add_edge :
      (u v : ℕ) (m : Bool) (g : D.Graph) (a b : ℕ)
      → D.has_edge (D.add_edge u v m g) a b ≡ ((u == a && v == b) || D.has_edge g a b)
  pub in_degree-empty : (a : ℕ) → D.in_degree D.empty a ≡ 0
  pub in_degree-add_nodes_from :
      (ns : List ℕ) (g : D.Graph) (a : ℕ) → D.in_degree (D.add_nodes_from ns g) a ≡ D.in_degree g a
  pub in_degree-add_edge :
      (u v : ℕ) (m : Bool) (g : D.Graph) (a : ℕ)
      → D.has_edge g u v ≡ false
      → D.in_degree (D.add_edge u v m g) a
        ≡ (if v == a then suc (D.in_degree g a) else D.in_degree g a)
  pub out_edges-empty : (a : ℕ) → D.out_edges D.empty a ≡ []
  pub out_edges-add_nodes_from :
      (ns : List ℕ) (g : D.Graph) (a : ℕ) → D.out_edges (D.add_nodes_from ns g) a ≡ D.out_edges g a
  pub out_edges-add_edge :
      (u v : ℕ) (m : Bool) (g : D.Graph) (a : ℕ)
      → D.has_edge g u v ≡ false
      → D.out_edges (D.add_edge u v m g) a
        ≡ (if u == a then D.out_edges g a ++ ((v, m) ∷ []) else D.out_edges g a)
  pub successors_lem : (g : D.Graph) (a : ℕ) → D.successors g a ≡ map (λ e. e.0) (D.out_edges g a)
  pub contains-successors :
      (g : D.Graph) (a b : ℕ) → contains (D.successors g a) b ≡ D.has_edge g a b
  pub number_of_selfloops_lem :
      (g : D.Graph) → ((a : ℕ) → D.has_edge g a a ≡ false) → D.number_of_selfloops g ≡ 0
  pub is_connected-Linked :
      (g : D.Graph) (a b : ℕ)
      → D.is_connected g ≡ true
      → D.has_node g a ≡ true
      → D.has_node g b ≡ true
      → Linked (D.has_edge g) a b
