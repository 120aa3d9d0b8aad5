-- ===== src/Network/Build/Rounds.antt =====
-- What a node, a round and an attempt add to the graph.
use erlay_warnet.Prelude.{
  All-mono, if◌then◌else◌, ℕ, ◌*◌, ◌≤◌, ◌≡◌, refl, Bool, true, false, List, [], ◌∷◌, arith, ltb,
  length, keep, sum, map, range, count-range, range-IsNodup, keep-IsNodup, length-range, Bool-cases,
  inl, inr, contains-keep, contains-range, ltb→le, ◌∙◌, ap,
}
use erlay_warnet.Graph.{DiGraph, IsLawful}
use erlay_warnet.Rng.{Rng}
use erlay_warnet.Rng as Rng
use erlay_warnet.Rng.Laws.{sample-IsSample}
use erlay_warnet.Network.Attempt.{Yields, Holds-map, bind-Yields, pure}
use erlay_warnet.Network.Build.{
  is_candidate, candidates, add_edges, draw, connect_node, connect_nodes, connect_rounds,
  try_build_graph,
}
use erlay_warnet.Network.Build.Wiring.{
  row, IsWired, Extends, Choice, IsRound, IsBuilt, add_edges-Extends,
}

module _ (D : DiGraph) (L : IsLawful D) (R : Rng) (S : Rng.IsLawful R)
    (size reachable max_inbound : ℕ) where
  draw-Yields :
      (g : D.Graph) (node degree : ℕ)
      → degree ≤ length (candidates D reachable max_inbound g node)
      → Yields R
          (λ ts. (length ts ≡ degree) × Choice D L reachable max_inbound g node ts)
          (draw R (candidates D reachable max_inbound g node) degree)
  unfolding draw candidates
  draw-Yields g node degree h s =
      let test = is_candidate D max_inbound g node in
      let (ts, e, drawn) =
        sample-IsSample R S (keep test (range reachable)) degree s
          (keep-IsNodup test (range reachable) (range-IsNodup reachable)) h in
      rw e (
        drawn.sized,
        (
          drawn.distinct,
          All-mono _ _ ts
              (λ t m. (
                ground (arith, contains-keep test (range reachable) t, contains-range reachable t),
                ground (arith, contains-keep test (range reachable) t),
              ))
              drawn.drawn,
        ),
      )

  connect_node-Yields :
      (degree : ℕ) (m : Bool) (node : ℕ) (g : D.Graph)
      → IsWired D L reachable max_inbound g
      → Yields R
          (Extends D L reachable max_inbound g node m degree)
          (connect_node D R size reachable max_inbound degree m node g)
  unfolding connect_node
  connect_node-Yields degree m node g w =
      elim (Bool-cases (ltb (length (candidates D reachable max_inbound g node)) degree)) [
        | inl short ↦ rw short (λ s. tt)
        | inr enough ↦ rw enough (
            bind-Yields R (λ ts. (length ts ≡ degree) × Choice D L reachable max_inbound g node ts)
              (Extends D L reachable max_inbound g node m degree)
              (draw R (candidates D reachable max_inbound g node) degree)
              (λ ts. pure R (add_edges D node m ts g))
              (draw-Yields g node degree (ltb→le _ degree enough))
              (λ ts c s.
                rw (← c.0) (add_edges-Extends D L reachable max_inbound node m ts g w c.1)))
      ]

  IsRound-cons :
      (g g' g'' : D.Graph) (node : ℕ) (nodes : List ℕ) (m : Bool) (degree : ℕ)
      → Extends D L reachable max_inbound g node m degree g'
      → IsRound D L reachable max_inbound g' nodes m degree g''
      → IsRound D L reachable max_inbound g (node ∷ nodes) m degree g''
  IsRound-cons g g' g'' node nodes m degree e r = record {
    wired = r.wired;
    opened_lem = λ kind a. ground (arith, e.opened_lem kind a, r.opened_lem kind a);
    inbound_lem = omega (arith, e.inbound_lem, r.inbound_lem);
    row_lem = λ a. ground (arith, e.row_lem a, r.row_lem a);
    nodes_kept = λ a h. r.nodes_kept a (e.nodes_kept a h);
  }

  connect_nodes-Yields :
      (degree : ℕ) (m : Bool) (nodes : List ℕ) (g : D.Graph)
      → IsWired D L reachable max_inbound g
      → Yields R
          (IsRound D L reachable max_inbound g nodes m degree)
          (connect_nodes D R size reachable max_inbound degree m nodes g)
  unfolding connect_nodes
  connect_nodes-Yields degree m [] g w s = record {
    wired = w;
    opened_lem = λ kind a. ground arith;
    inbound_lem = omega arith;
    row_lem = λ a. ground arith;
    nodes_kept = λ a h. h;
  }
  connect_nodes-Yields degree m (node ∷ nodes) g w s =
      bind-Yields R (Extends D L reachable max_inbound g node m degree)
        (IsRound D L reachable max_inbound g (node ∷ nodes) m degree)
        (connect_node D R size reachable max_inbound degree m node g)
        (connect_nodes D R size reachable max_inbound degree m nodes)
        (connect_node-Yields degree m node g w)
        (λ g' e t.
          Holds-map (IsRound D L reachable max_inbound g' nodes m degree)
            (IsRound D L reachable max_inbound g (node ∷ nodes) m degree) _
            (λ g'' r. IsRound-cons g g' g'' node nodes m degree e r)
            (connect_nodes-Yields degree m nodes g' e.wired t))
        s

  abbrev bare : D.Graph
  bare = D.add_nodes_from (range size) D.empty

  bare-IsWired : IsWired D L reachable max_inbound bare
  bare-IsWired = record {
    loopless = λ a. L.has_edge-add_nodes_from (range size) D.empty a a ∙ L.has_edge-empty a a;
    unmirrored = λ a b h. L.has_edge-add_nodes_from (range size) D.empty b a ∙ L.has_edge-empty b a;
    inside = λ a b h.
        ground (arith, L.has_edge-add_nodes_from (range size) D.empty a b, L.has_edge-empty a b);
    capped =
        λ a. omega (arith, L.in_degree-add_nodes_from (range size) D.empty a, L.in_degree-empty a);
  }

  bare-out_edges : (a : ℕ) → D.out_edges bare a ≡ []
  bare-out_edges a = L.out_edges-add_nodes_from (range size) D.empty a ∙ L.out_edges-empty a

  bare-row_over :
      (xs : List ℕ) (a : ℕ) → sum (map (λ b. if D.has_edge bare a b then 1 else 0) xs) ≡ 0
  bare-row_over [] a = refl
  bare-row_over (x ∷ xs) a = ground (
    arith,
    L.has_edge-add_nodes_from (range size) D.empty a x,
    L.has_edge-empty a x,
    bare-row_over xs a,
  )

  bare-inbound_over : (xs : List ℕ) → sum (map (D.in_degree bare) xs) ≡ 0
  bare-inbound_over [] = refl
  bare-inbound_over (x ∷ xs) = omega (
    arith,
    L.in_degree-add_nodes_from (range size) D.empty x,
    L.in_degree-empty x,
    bare-inbound_over xs,
  )

  bare-row : (a : ℕ) → row D reachable bare a ≡ 0
  bare-row a = bare-row_over (range reachable) a

  rounds-IsBuilt :
      (outbound recon_outbound : ℕ) (g g' : D.Graph)
      → IsRound D L reachable max_inbound bare (range size) true outbound g
      → IsRound D L reachable max_inbound g (range size) false recon_outbound g'
      → IsBuilt D L reachable max_inbound size outbound recon_outbound g'
  rounds-IsBuilt outbound recon_outbound g g' r r' = record {
    wired = r'.wired;
    manual_lem = λ a.
        ground
          (arith, r.opened_lem true a, r'.opened_lem true a, bare-out_edges a, count-range a size);
    recon_lem = λ a.
        ground (
          arith,
          r.opened_lem false a,
          r'.opened_lem false a,
          bare-out_edges a,
          count-range a size,
        );
    inbound_lem = omega (
      arith,
      r.inbound_lem,
      r'.inbound_lem,
      bare-inbound_over (range reachable),
      length-range size,
      ap (λ (n : ℕ). n * outbound) (length-range size),
      ap (λ (n : ℕ). n * recon_outbound) (length-range size),
    );
    row_lem = λ a h. ground (arith, r.row_lem a, r'.row_lem a, bare-row a, count-range a size);
    nodes_in = λ a h. r'.nodes_kept a (
        r.nodes_kept a (
          ground (arith, L.has_node-add_nodes_from (range size) D.empty a, contains-range size a)));
  }

  pub try_build_graph-Yields :
      (outbound recon_outbound : ℕ)
      → Yields R
          (IsBuilt D L reachable max_inbound size outbound recon_outbound)
          (try_build_graph D R size reachable max_inbound outbound recon_outbound)
  unfolding try_build_graph
  try_build_graph-Yields outbound recon_outbound =
      bind-Yields R (IsRound D L reachable max_inbound bare (range size) true outbound)
        (IsBuilt D L reachable max_inbound size outbound recon_outbound)
        (connect_nodes D R size reachable max_inbound outbound true (range size) bare)
        (connect_rounds D R size reachable max_inbound ((recon_outbound, false) ∷ []))
        (connect_nodes-Yields outbound true (range size) bare bare-IsWired)
        (λ g r.
          bind-Yields R (IsRound D L reachable max_inbound g (range size) false recon_outbound)
            (IsBuilt D L reachable max_inbound size outbound recon_outbound)
            (connect_nodes D R size reachable max_inbound recon_outbound false (range size) g)
            (pure R) (connect_nodes-Yields recon_outbound false (range size) g r.wired)
            (λ g' r' s. rounds-IsBuilt outbound recon_outbound g g' r r'))
