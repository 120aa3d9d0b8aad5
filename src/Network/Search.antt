-- ===== src/Network/Search.antt =====
-- What `build_network` returns: the properties of its graph, the attempts that it makes, and why the
-- capacities that `validate_args` asks for are needed.
use erlay_warnet.Prelude.{
  if◌then◌else◌, ℕ, zero, suc, ◌+◌, ◌≤◌, ◌<◌, ◌≡◌, refl, true, ==→eq, ◌==◌, arith, Bool-cases, inl,
  inr,
}
use erlay_warnet.Prelude.Result.{ok}
use erlay_warnet.Graph.{DiGraph, Linked}
use erlay_warnet.Graph as Graph
use erlay_warnet.Rng.{Rng}
use erlay_warnet.Rng as Rng
use erlay_warnet.Network.Args.{not_connected_after}
use erlay_warnet.Network.Attempt.{Outcome, done, deadlock, value_error, Holds}
use erlay_warnet.Network.Build.{
  Search, found, infeasible, sample_error, null_graph, try_build_graph, search_from, build_network,
}
use erlay_warnet.Network.Build.Wiring.{IsBuilt}
use erlay_warnet.Network.Build.Rounds.{try_build_graph-Yields}
use erlay_warnet.Network.Validate.{validate_graph}
use erlay_warnet.Network.Validate.Passes.{validate_graph-ok}

module _ (D : DiGraph) (L : Graph.IsLawful D) (R : Rng) (S : Rng.IsLawful R)
    (size reachable max_inbound outbound recon_outbound : ℕ) where
  -- The outcomes that the search may have when attempts `first` to `max_attempts` are made.
  abbrev pub IsAnswer : (max_attempts first : ℕ) → Search D.Graph → Type 0
  IsAnswer max_attempts first (found g attempt) =
      IsBuilt D L reachable max_inbound size outbound recon_outbound g
      × (D.is_connected g ≡ true)
      × (first ≤ attempt)
      × (attempt ≤ max_attempts)
      × (0 < size)
  IsAnswer max_attempts first (infeasible e) = e ≡ not_connected_after max_attempts
  IsAnswer max_attempts first sample_error = ⊥
  IsAnswer max_attempts first null_graph = size ≡ 0

  IsAnswer-later :
      (max_attempts first : ℕ) (r : Search D.Graph)
      → IsAnswer max_attempts (first + 1) r
      → IsAnswer max_attempts first r
  IsAnswer-later max_attempts first (found g attempt) (b, c, l, h, k) = (b, c, omega arith, h, k)
  IsAnswer-later max_attempts first (infeasible e) h = h
  IsAnswer-later max_attempts first sample_error h = h
  IsAnswer-later max_attempts first null_graph h = h

  -- One attempt, from its outcome and from what the attempts after it find.
  judged-IsAnswer :
      (max_attempts first : ℕ) (o : Outcome D.Graph) (s : R.State)
      (again : Search D.Graph × R.State)
      → first ≤ max_attempts
      → Holds (IsBuilt D L reachable max_inbound size outbound recon_outbound) o
      → IsAnswer max_attempts first again.0
      → IsAnswer max_attempts first
          (elim o as (λ _. Search D.Graph × R.State) [
            | done graph ↦
                if size == 0
                then (null_graph, s)
                else if D.is_connected graph
                then (found graph first, s)
                else again
            | deadlock ↦ again
            | value_error ↦ (sample_error, s)
          ]).0
  judged-IsAnswer max_attempts first (done g) s again l b h = elim (Bool-cases (size == 0)) [
    | inl empty' ↦ rw empty' (==→eq size 0 empty')
    | inr some' ↦ elim (Bool-cases (D.is_connected g)) [
      | inl yes' ↦ rw (some', yes') (b, yes', omega arith, l, ground (arith, some'))
      | inr no' ↦ rw (some', no') h
    ]
  ]
  judged-IsAnswer max_attempts first deadlock s again l b h = h
  judged-IsAnswer max_attempts first value_error s again l b h = b

  search_from-IsAnswer :
      (max_attempts left first : ℕ) (s : R.State)
      → first + left ≡ max_attempts + 1
      → IsAnswer max_attempts first
          (search_from D R size reachable max_inbound outbound recon_outbound max_attempts left
            first s).0
  unfolding search_from
  search_from-IsAnswer max_attempts zero first s e = refl
  search_from-IsAnswer max_attempts (suc left) first s e =
      let attempt = try_build_graph D R size reachable max_inbound outbound recon_outbound s in
      judged-IsAnswer max_attempts first attempt.0 attempt.1 _ (omega arith)
        (try_build_graph-Yields D L R S size reachable max_inbound outbound recon_outbound s)
        (IsAnswer-later max_attempts first _
          (search_from-IsAnswer max_attempts left (first + 1) attempt.1 (omega arith)))

  -- In every state of the generator, for all sizes and limits: the search raises no error of `sample`. It
  -- ends with a connected graph, in which every node has opened the edges of each kind that were asked
  -- for, toward reachable nodes, with no loop, no edge in both directions and no node over `max_inbound`,
  -- and with the number of an attempt from 1 to `max_attempts`; or it raises `InfeasibleNetwork` for that
  -- number of attempts. Without nodes it returns no graph, and may raise NetworkXPointlessConcept, which
  -- it does for no other size.
  pub build_network-IsAnswer :
      (max_attempts : ℕ) (s : R.State)
      → IsAnswer max_attempts 1
          (build_network D R size reachable max_inbound outbound recon_outbound max_attempts s).0
  unfolding build_network
  build_network-IsAnswer max_attempts s =
      search_from-IsAnswer max_attempts max_attempts 1 s (omega arith)

  -- The property of a graph that the search has found.
  pub found-IsBuilt :
      (max_attempts : ℕ) (s : R.State) {g : D.Graph} {attempt : ℕ}
      → (build_network D R size reachable max_inbound outbound recon_outbound max_attempts s).0
        ≡ found g attempt
      → IsAnswer max_attempts 1 (found g attempt)
  found-IsBuilt max_attempts s e = rw e at (build_network-IsAnswer max_attempts s)

  -- Every graph that `build_network` returns passes all assertions of `validate_graph`.
  pub build_network-validate_graph :
      (max_attempts : ℕ) (s : R.State) {g : D.Graph} {attempt : ℕ}
      → (build_network D R size reachable max_inbound outbound recon_outbound max_attempts s).0
        ≡ found g attempt
      → validate_graph D reachable outbound recon_outbound max_inbound g size ≡ ok tt
  build_network-validate_graph max_attempts s {g} e =
      let (built, connected, _, _, _) = found-IsBuilt max_attempts s e in
      validate_graph-ok D L size reachable max_inbound outbound recon_outbound g built connected

  -- In a graph that `build_network` returns, a chain of edges joins any two nodes of the network.
  pub build_network-Linked :
      (max_attempts : ℕ) (s : R.State) {g : D.Graph} {attempt : ℕ} (a b : ℕ)
      → (build_network D R size reachable max_inbound outbound recon_outbound max_attempts s).0
        ≡ found g attempt
      → a < size
      → b < size
      → Linked (D.has_edge g) a b
  build_network-Linked max_attempts s {g} a b e ha hb =
      let (built, connected, _, _, _) = found-IsBuilt max_attempts s e in
      L.is_connected-Linked g a b connected (built.nodes_in a ha) (built.nodes_in b hb)
