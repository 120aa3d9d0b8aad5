-- ===== src/Network/Build.antt =====
-- `try_build_graph` and `build_network` of `utils/create_network.py`.
pub mod Wiring
pub mod Rounds
use erlay_warnet.Prelude.{
  ℕ, zero, suc, ◌+◌, Bool, true, false, not, ◌&&◌, List, [], ◌∷◌, ◌==◌, ltb, if◌then◌else◌, length,
  keep, range,
}
use erlay_warnet.Graph.{DiGraph}
use erlay_warnet.Network.Args.{Infeasible, not_connected_after}
use erlay_warnet.Rng.{Rng, sample}
use erlay_warnet.Network.Attempt.{
  done, deadlock, value_error, or_value_error, Attempt, pure, give_up, bind,
}

-- How `build_network` ends.
pub data Search (G : Type 0) : Type 0 where
  found : G → (attempt : ℕ) → Search G
  infeasible : Infeasible → Search G
  sample_error : Search G
  -- The `NetworkXPointlessConcept` of `nx.is_connected`, on a graph that has no nodes.
  null_graph : Search G

module _ (D : DiGraph) where
  -- The test of the comprehension: another node, not linked either way, with a free slot.
  unfoldable pub is_candidate : (max_inbound : ℕ) → D.Graph → (node_id r : ℕ) → Bool
  is_candidate max_inbound graph node_id r =
      not (r == node_id)
      && not (D.has_edge graph node_id r)
      && not (D.has_edge graph r node_id)
      && ltb (D.in_degree graph r) max_inbound

  unfoldable pub candidates : (reachable max_inbound : ℕ) → D.Graph → (node_id : ℕ) → List ℕ
  unfolding is_candidate
  candidates reachable max_inbound graph node_id =
      keep (is_candidate max_inbound graph node_id) (range reachable)

  -- `for target in rng.sample(…): graph.add_edge(…)`
  unfoldable pub add_edges : ℕ → Bool → List ℕ → D.Graph → D.Graph
  add_edges node_id manual [] graph = graph
  add_edges node_id manual (target ∷ targets) graph =
      add_edges node_id manual targets (D.add_edge node_id target manual graph)

-- `rng.sample`, which raises a `ValueError` when the population is too small.
unfoldable pub draw : (R : Rng) → List ℕ → ℕ → Attempt R (List ℕ)
draw R population k s = let (drawn, s') = sample R population k s in (or_value_error drawn, s')

module _ (D : DiGraph) (R : Rng) (size reachable max_inbound : ℕ) where
  -- The body of the inner loop.
  unfoldable pub connect_node : ℕ → Bool → ℕ → D.Graph → Attempt R D.Graph
  unfolding candidates add_edges draw
  connect_node degree manual node_id graph =
      let population = candidates D reachable max_inbound graph node_id in
      if ltb (length population) degree
      then give_up R
      else bind R (draw R population degree)
          λ targets. pure R (add_edges D node_id manual targets graph)

  -- `for node_id in range(size)`, on the nodes that are left.
  unfoldable pub connect_nodes : ℕ → Bool → List ℕ → D.Graph → Attempt R D.Graph
  unfolding connect_node
  connect_nodes degree manual [] graph = pure R graph
  connect_nodes degree manual (node_id ∷ nodes) graph =
      bind R (connect_node degree manual node_id graph) (connect_nodes degree manual nodes)

  -- `for degree, manual in (…)`
  unfoldable pub connect_rounds : List (ℕ × Bool) → D.Graph → Attempt R D.Graph
  unfolding connect_nodes
  connect_rounds [] graph = pure R graph
  connect_rounds ((degree, manual) ∷ rounds) graph =
      bind R (connect_nodes degree manual (range size) graph) (connect_rounds rounds)

  unfoldable pub try_build_graph : (outbound recon_outbound : ℕ) → Attempt R D.Graph
  unfolding connect_rounds
  try_build_graph outbound recon_outbound =
      connect_rounds ((outbound, true) ∷ (recon_outbound, false) ∷ [])
        (D.add_nodes_from (range size) D.empty)

  -- `for attempt in range(1, max_attempts + 1)`, with the number of attempts left. A graph has the nodes
  -- below `size`; without any, `nx.is_connected` raises.
  unfoldable pub search_from :
      (outbound recon_outbound max_attempts left attempt : ℕ) → R.State → Search D.Graph × R.State
  search_from outbound recon_outbound max_attempts zero attempt s =
      (infeasible (not_connected_after max_attempts), s)
  search_from outbound recon_outbound max_attempts (suc left) attempt s =
      let (o, s') = try_build_graph outbound recon_outbound s in
      let again = search_from outbound recon_outbound max_attempts left (attempt + 1) s' in
      elim o [
        | done graph ↦
            if size == 0
            then (null_graph, s')
            else if D.is_connected graph
            then (found graph attempt, s')
            else again
        | deadlock ↦ again
        | value_error ↦ (sample_error, s')
      ]

  unfoldable pub build_network :
      (outbound recon_outbound max_attempts : ℕ) → R.State → Search D.Graph × R.State
  unfolding search_from
  build_network outbound recon_outbound max_attempts =
      search_from outbound recon_outbound max_attempts max_attempts 1
