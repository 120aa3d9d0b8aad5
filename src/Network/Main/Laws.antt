-- ===== src/Network/Main/Laws.antt =====
-- How a run of `main` can end, and what the file holds when it is written.
use erlay_warnet.Prelude.{
  contains-range, [], ◌∷◌, All-intro, keep-All, map-All, ◌∙◌, Bool, ap, sym, All-of_contains,
  All-of_map, true, ℕ, ◌≤◌, ◌<◌, ◌≡◌, refl, some, arith, length, get_elem?, keep, not, All,
  length-map,
}
use erlay_warnet.Prelude.Int.{ℤ, pos_part}
use erlay_warnet.Prelude.Result.{Result, ok, err, ◌>>=◌, ◌>>◌}
use erlay_warnet.Graph.{DiGraph}
use erlay_warnet.Graph as Graph
use erlay_warnet.Rng.{Rng}
use erlay_warnet.Rng as Rng
use erlay_warnet.Network.Args.{Infeasible, validate_args}
use erlay_warnet.Network.Args.Laws.{passed_counts}
use erlay_warnet.Network.Build.{Search, found, infeasible, sample_error, null_graph}
use erlay_warnet.Network.Build.Wiring.{length-keep_typed, length-keep_manual, IsBuilt}
use erlay_warnet.Network.Search.{IsAnswer, build_network-IsAnswer}
use erlay_warnet.Network.Options.{Args}
use erlay_warnet.Network.Validate.{validate_graph}
use erlay_warnet.Network.Validate.Passes.{validate_graph-ok}
use erlay_warnet.Network.Yaml.{Tank, tank_of}
use erlay_warnet.Network.Yaml.Reading.{
  length-nodes, get_elem?-nodes, length-read_manual, length-read_typed, tank_id, connections,
  read_manual, read_typed, tank_of-read,
}
use erlay_warnet.Network.Main.{
  to_network_yaml, range, ◌∷◌, List, rendered, maximum, main, Text, Failure, not_feasible,
  or_infeasible, or_assertion, or_failed, Written, checked_graph,
}

validated_first :
    {A : Type 0} (v : Result Infeasible (Unit {0})) (r : Result Failure A) (a : A)
    → (or_infeasible v >> r) ≡ ok a
    → v ≡ ok tt
validated_first (ok _) r a h = refl
validated_first (err e) r a h = cc

-- A graph comes out only of arguments that `validate_args` lets pass.
pub checked_graph-validate_args :
    (D : DiGraph) (R : Rng) (size reachable outbound recon_outbound max_inbound max_attempts : ℤ)
    (s : R.State) {made : D.Graph × ℕ}
    → checked_graph D R size reachable outbound recon_outbound max_inbound max_attempts s ≡ ok made
    → validate_args size reachable outbound recon_outbound max_inbound ≡ ok tt
unfolding checked_graph
checked_graph-validate_args D R size reachable outbound recon_outbound max_inbound max_attempts s
      h =
    validated_first _ _ _ h

module _ (D : DiGraph) (L : Graph.IsLawful D) (R : Rng) (S : Rng.IsLawful R) where
  -- The outcome of the checked search: a graph as asked for, or an infeasible network.
  abbrev pub IsChecked :
      (size reachable outbound recon_outbound max_inbound max_attempts : ℕ)
      → Result Failure (D.Graph × ℕ)
      → Type 0
  IsChecked size reachable outbound recon_outbound max_inbound max_attempts (ok (g, attempt)) =
      IsBuilt D L reachable max_inbound size outbound recon_outbound g
      × (D.is_connected g ≡ true)
      × (1 ≤ attempt)
      × (attempt ≤ max_attempts)
      × (0 < size)
  IsChecked size reachable outbound recon_outbound max_inbound max_attempts (err f) =
      (e : Infeasible) × (f ≡ not_feasible e)

  searched-IsChecked :
      (size reachable outbound recon_outbound max_inbound max_attempts : ℕ) (r : Search D.Graph)
      → 0 < size
      → IsAnswer D L R S size reachable max_inbound outbound recon_outbound max_attempts 1 r
      → IsChecked size reachable outbound recon_outbound max_inbound max_attempts (do
        (graph, attempts) ← or_failed r
        or_assertion (validate_graph D reachable outbound recon_outbound max_inbound graph size)
        ok (graph, attempts))
  searched-IsChecked size reachable outbound recon_outbound max_inbound max_attempts (found g a)
        some' h =
      rw (validate_graph-ok D L size reachable max_inbound outbound recon_outbound g h.0 h.1) h
  searched-IsChecked size reachable outbound recon_outbound max_inbound max_attempts (infeasible e)
        some' h =
      (e, refl)
  searched-IsChecked size reachable outbound recon_outbound max_inbound max_attempts sample_error
        some' h =
      absurd h
  searched-IsChecked size reachable outbound recon_outbound max_inbound max_attempts null_graph
        some' h =
      let none_there : size ≡ 0 = h in absurd (omega arith)

  validated-IsChecked :
      (size reachable outbound recon_outbound max_inbound max_attempts : ℕ)
      (v : Result Infeasible (Unit {0})) (r : Result Failure (D.Graph × ℕ))
      → (v ≡ ok tt → IsChecked size reachable outbound recon_outbound max_inbound max_attempts r)
      → IsChecked size reachable outbound recon_outbound max_inbound max_attempts
          (or_infeasible v >> r)
  validated-IsChecked size reachable outbound recon_outbound max_inbound max_attempts (ok _) r h =
      h refl
  validated-IsChecked size reachable outbound recon_outbound max_inbound max_attempts (err e) r h =
      (e, refl)

  pub checked_graph-IsChecked :
      (size reachable outbound recon_outbound max_inbound max_attempts : ℤ) (s : R.State)
      → IsChecked
          (pos_part size)
          (pos_part reachable)
          (pos_part outbound)
          (pos_part recon_outbound)
          (pos_part max_inbound)
          (pos_part max_attempts)
          (checked_graph D R size reachable outbound recon_outbound max_inbound max_attempts s)
  unfolding checked_graph
  checked_graph-IsChecked size reachable outbound recon_outbound max_inbound max_attempts s =
      validated-IsChecked (pos_part size) (pos_part reachable) (pos_part outbound)
        (pos_part recon_outbound) (pos_part max_inbound) (pos_part max_attempts)
        (validate_args size reachable outbound recon_outbound max_inbound) _
        (λ passes.
          searched-IsChecked (pos_part size) (pos_part reachable) (pos_part outbound)
            (pos_part recon_outbound) (pos_part max_inbound) (pos_part max_attempts) _
            (let counts = passed_counts size reachable outbound recon_outbound max_inbound passes in
              omega (arith, counts.0, counts.1))
            (build_network-IsAnswer D L R S (pos_part size) (pos_part reachable)
              (pos_part max_inbound) (pos_part outbound) (pos_part recon_outbound)
              (pos_part max_attempts) s))

  -- What the file says of one node.
  pub record IsRendered (args : Args) (i : ℕ) (t : Tank) : Type 0 where
    pub named : tank_id t.name ≡ i
    pub manual_count : length t.addnode ≡ pos_part args.outbound
    pub typed_count : length (connections t.addconnection) ≡ pos_part args.recon_outbound
    pub targets_manual : All (λ j. j < pos_part args.reachable) (read_manual t)
    pub targets_typed : All (λ e. e.0 < pos_part args.reachable) (read_typed t)
    pub typed_as_asked : All (λ e. (e.1 ≡ args.connection_type) × (e.2 ≡ args.v2)) (read_typed t)

  -- What `main` may end with: a written file, or an exit over infeasible arguments.
  abbrev pub IsRun : Args → Result Failure Written → Type 0
  IsRun args (err f) = (e : Infeasible) × (f ≡ not_feasible e)
  IsRun args (ok w) =
      (length w.network.nodes ≡ pos_part args.size)
      × All (λ i. (t : Tank) × (get_elem? w.network.nodes i ≡ some t) × IsRendered args i t)
          (range (pos_part args.size))
      × (w.report.attempt ≤ pos_part args.max_attempts)
      × (w.report.max_inbound ≤ pos_part args.max_inbound)

  module _ (args : Args) (g : D.Graph)
      (built : IsBuilt D L
        (pos_part args.reachable)
        (pos_part args.max_inbound)
        (pos_part args.size)
        (pos_part args.outbound)
        (pos_part args.recon_outbound)
        g) where
    pub targets_below : (i : ℕ) → All (λ e. e.0 < pos_part args.reachable) (D.out_edges g i)
    targets_below i =
        All-of_map (λ j. j < pos_part args.reachable) (λ e. e.0) (D.out_edges g i)
          (rw (← L.successors_lem g i) (
            All-of_contains (λ j. j < pos_part args.reachable) (D.successors g i)
              (λ j m. built.wired.inside i j (sym (L.contains-successors g i j) ∙ m))))

    pub tank_of-IsRendered :
        (i : ℕ)
        → i < pos_part args.size
        → IsRendered args i (tank_of args.connection_type args.v2 i (D.out_edges g i))
    tank_of-IsRendered i h =
        let es = D.out_edges g i in
        let read_as : ℕ → ℕ × Text × Bool = λ j. (j, args.connection_type, args.v2) in
        let (named, manual, typed) = tank_of-read args.connection_type args.v2 i es in
        record {
          named = named;
          manual_count = ground (
            arith,
            ap length manual,
            length-read_manual (tank_of args.connection_type args.v2 i es),
            length-map (keep (λ (e : ℕ × Bool). e.1) es) (λ (e : ℕ × Bool). e.0),
            length-keep_manual es,
            built.manual_lem i,
          );
          typed_count = ground (
            arith,
            ap length typed,
            length-read_typed (tank_of args.connection_type args.v2 i es),
            length-map (keep (λ (e : ℕ × Bool). not e.1) es) (λ (e : ℕ × Bool). read_as e.0),
            length-keep_typed es,
            built.recon_lem i,
          );
          targets_manual = rw manual (map-All _ _ (keep _ es) (keep-All _ _ es (targets_below i)));
          targets_typed = rw typed (map-All _ _ (keep _ es) (keep-All _ _ es (targets_below i)));
          typed_as_asked =
              rw typed (map-All _ _ (keep _ es) (All-intro _ (λ e. (refl, refl)) (keep _ es)));
        }

maximum-le : (xs : List ℕ) (k : ℕ) → All (λ x. x ≤ k) xs → maximum xs ≤ k
maximum-le [] k h = omega arith
maximum-le (x ∷ xs) k h = omega (arith, maximum-le xs k h.1)

module _ (D : DiGraph) (L : Graph.IsLawful D) (R : Rng) (S : Rng.IsLawful R) where
  IsRendered-node :
      (args : Args) (g : D.Graph)
      → IsBuilt D L
          (pos_part args.reachable)
          (pos_part args.max_inbound)
          (pos_part args.size)
          (pos_part args.outbound)
          (pos_part args.recon_outbound)
          g
      → (i : ℕ) → i < pos_part args.size
      → (t : Tank) × (get_elem?
            (to_network_yaml args.connection_type args.v2 D g (pos_part args.size)).nodes
            i
          ≡ some t)
        × IsRendered D L R S args i t
  IsRendered-node args g built i h = (
    tank_of args.connection_type args.v2 i (D.out_edges g i),
    get_elem?-nodes args.connection_type args.v2 D g (pos_part args.size) i h,
    tank_of-IsRendered D L R S args g built i h,
  )

  rendered-IsRun :
      (args : Args) (r : Result Failure (D.Graph × ℕ))
      → IsChecked D L R S
          (pos_part args.size)
          (pos_part args.reachable)
          (pos_part args.outbound)
          (pos_part args.recon_outbound)
          (pos_part args.max_inbound)
          (pos_part args.max_attempts)
          r
      → IsRun D L R S args (r >>= rendered D args)
  unfolding rendered
  rendered-IsRun args (err f) h = h
  rendered-IsRun args (ok (g, attempt)) (built, connected, first, last, some') = (
    length-nodes args.connection_type args.v2 D g (pos_part args.size),
    All-of_contains _ (range (pos_part args.size)) (λ i m.
        IsRendered-node args g built i (ground (arith, contains-range (pos_part args.size) i))),
    last,
    maximum-le _ (pos_part args.max_inbound) (
        map-All _ (D.in_degree g) (range (pos_part args.reachable))
          (All-intro _ built.wired.capped (range (pos_part args.reachable)))),
  )

  -- For all options and every generator: `main` writes a file, or exits over infeasible arguments; no
  -- assertion of `validate_graph` fails and no `sample` raises. A written file has a tank for each node
  -- below `size`, in order, named after it, with `outbound` manual targets and `recon_outbound` others,
  -- all reachable, and these have the connection type and transport that were asked for. The attempt
  -- and the inbound counts that are reported keep to their limits.
  pub main-IsRun : (args : Args) → IsRun D L R S args (main D R args)
  unfolding main
  main-IsRun args = rendered-IsRun args _ (
      checked_graph-IsChecked D L R S args.size args.reachable args.outbound args.recon_outbound
        args.max_inbound args.max_attempts (R.seeded args.seed))
