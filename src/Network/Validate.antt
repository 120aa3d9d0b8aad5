-- ===== src/Network/Validate.antt =====
-- `validate_graph` of `utils/create_network.py`: the assertions on a finished graph, in order.
pub mod Passes
use erlay_warnet.Prelude.{
  ℕ, ◌+◌, Bool, not, ◌&&◌, List, [], ◌∷◌, ◌==◌, ltb, leb, length, keep, range,
}
use erlay_warnet.Prelude.Result.{Result, ok, ◌>>◌, check}
use erlay_warnet.Graph.{DiGraph}

-- One constructor for each assertion, with the numbers of its message.
pub data Violation : Type 0 where
  self_loop : Violation
  wrong_outbound : (node_id got wanted : ℕ) → Violation
  wrong_addconnection : (node_id got wanted : ℕ) → Violation
  not_reachable : (node_id t : ℕ) → Violation
  mirrored : (node_id t : ℕ) → Violation
  too_many_inbound : (node_id got max_inbound : ℕ) → Violation
  not_connected : Violation

module _ (D : DiGraph) (reachable outbound recon_outbound max_inbound : ℕ) (graph : D.Graph) where
  -- `for t in targets`
  unfoldable pub check_targets : ℕ → List ℕ → Result Violation (Unit {0})
  check_targets node_id [] = ok tt
  check_targets node_id (t ∷ targets) = do
    check (leb 0 t && ltb t reachable) (not_reachable node_id t)
    check (not (D.has_edge graph t node_id)) (mirrored node_id t)
    check_targets node_id targets

  -- The body of `for node_id in range(size)`.
  unfoldable pub check_node : ℕ → Result Violation (Unit {0})
  unfolding check_targets
  check_node node_id = do
    let targets = D.successors graph node_id
    let recon = keep (λ e. not e.1) (D.out_edges graph node_id)
    check (length targets == outbound + recon_outbound)
        (wrong_outbound node_id (length targets) (outbound + recon_outbound))
    check (length recon == recon_outbound)
        (wrong_addconnection node_id (length recon) recon_outbound)
    check_targets node_id targets
    check (leb (D.in_degree graph node_id) max_inbound)
        (too_many_inbound node_id (D.in_degree graph node_id) max_inbound)

  unfoldable pub check_nodes : List ℕ → Result Violation (Unit {0})
  unfolding check_node
  check_nodes [] = ok tt
  check_nodes (node_id ∷ nodes) = do check_node node_id; check_nodes nodes

  unfoldable pub validate_graph : (size : ℕ) → Result Violation (Unit {0})
  unfolding check_nodes
  validate_graph size = do
    check (D.number_of_selfloops graph == 0) self_loop
    check_nodes (range size)
    check (D.is_connected graph) not_connected
