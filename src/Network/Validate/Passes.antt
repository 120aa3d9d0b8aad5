-- ===== src/Network/Validate/Passes.antt =====
-- A graph that `build_network` returns passes every assertion of `validate_graph`.
use erlay_warnet.Prelude.{
  ℕ, sym, ◌∙◌, ◌+◌, ◌<◌, ◌≡◌, refl, Bool, true, false, List, [], ◌∷◌, arith, length, range, All,
  length-map, All-of_contains, contains-range,
}
use erlay_warnet.Prelude.Result.{ok}
use erlay_warnet.Graph.{DiGraph, IsLawful}
use erlay_warnet.Network.Build.Wiring.{length-keep_typed, count_kind, length-keep_typed, IsBuilt}
use erlay_warnet.Network.Validate.{check_targets, check_node, check_nodes, validate_graph}

length-kinds : (es : List (ℕ × Bool)) → length es ≡ count_kind true es + count_kind false es
length-kinds [] = refl
length-kinds (e ∷ es) = ground (arith, length-kinds es)

module _ (D : DiGraph) (L : IsLawful D) (size reachable max_inbound outbound recon_outbound : ℕ)
    (g : D.Graph) (built : IsBuilt D L reachable max_inbound size outbound recon_outbound g) where
  check_targets-ok :
      (node : ℕ) (ts : List ℕ)
      → All (λ t. D.has_edge g node t ≡ true) ts
      → check_targets D reachable outbound recon_outbound max_inbound g node ts ≡ ok tt
  unfolding check_targets
  check_targets-ok node [] h = refl
  check_targets-ok node (t ∷ ts) h = ground (
    arith,
    built.wired.inside node t h.0,
    built.wired.unmirrored node t h.0,
    check_targets-ok node ts h.1,
  )

  targets_ok :
      (node : ℕ)
      → check_targets D reachable outbound recon_outbound max_inbound g node (D.successors g node)
        ≡ ok tt
  targets_ok node = check_targets-ok node (D.successors g node) (
      All-of_contains (λ t. D.has_edge g node t ≡ true) (D.successors g node)
        (λ a m. sym (L.contains-successors g node a) ∙ m))

  check_node-ok :
      (node : ℕ)
      → node < size
      → check_node D reachable outbound recon_outbound max_inbound g node ≡ ok tt
  unfolding check_node
  check_node-ok node h = ground (
    arith,
    L.successors_lem g node,
    length-map (D.out_edges g node) (λ (e : ℕ × Bool). e.0),
    length-kinds (D.out_edges g node),
    length-keep_typed (D.out_edges g node),
    built.manual_lem node,
    built.recon_lem node,
    built.wired.capped node,
    targets_ok node,
  )

  check_nodes-ok :
      (nodes : List ℕ)
      → All (λ node. node < size) nodes
      → check_nodes D reachable outbound recon_outbound max_inbound g nodes ≡ ok tt
  unfolding check_nodes
  check_nodes-ok [] h = refl
  check_nodes-ok (node ∷ nodes) h = ground (arith, check_node-ok node h.0, check_nodes-ok nodes h.1)

  pub validate_graph-ok :
      D.is_connected g ≡ true
      → validate_graph D reachable outbound recon_outbound max_inbound g size ≡ ok tt
  unfolding validate_graph
  validate_graph-ok h = ground (
    arith,
    L.number_of_selfloops_lem g built.wired.loopless,
    check_nodes-ok (range size) (
        All-of_contains (λ node. node < size) (range size)
          (λ a m. ground (arith, contains-range size a))),
  )
