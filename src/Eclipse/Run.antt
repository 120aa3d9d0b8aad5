-- ===== src/Eclipse/Run.antt =====
-- How a run of `main` can end, and what the three networks are made of.
use erlay_warnet.Prelude.{
  ◌∙◌, sym, false, Bool, arith, inr, ◌≤◌, inl, ◌*◌, Bool-cases, ℕ, ◌+◌, ◌≡◌, refl, true, some, List,
  length, All,
}
use erlay_warnet.Prelude.Int.{ℤ, pos, pos_part, ◌+ℤ◌, ltb_ℤ}
use erlay_warnet.Prelude.Result.{Result, ok, err, ◌>>=◌, ◌>>◌, raise_if}
use erlay_warnet.Prelude.Text.{Text}
use erlay_warnet.Graph.{DiGraph}
use erlay_warnet.Graph as Graph
use erlay_warnet.Rng.{Rng, sample}
use erlay_warnet.Rng as Rng
use erlay_warnet.Network.Args.{Infeasible}
use erlay_warnet.Network.Build.Wiring.{IsBuilt}
use erlay_warnet.Network.Main.{Failure, not_feasible, checked_graph}
use erlay_warnet.Network.Yaml.{NetworkYaml, to_network_yaml}
use erlay_warnet.Rng.{sample}
use erlay_warnet.Rng.Laws.{sample-All}
use erlay_warnet.Network.Args.Laws.{passed_counts}
use erlay_warnet.Network.Main.Laws.{IsChecked, checked_graph-IsChecked, checked_graph-validate_args}
use erlay_warnet.Eclipse.{
  samples, Tank, map, take, Options, Stop, outbound_exceeds_addnode, failed, or_stop, Arm,
  full_relay, full_recon, arms_of, overlay, reachable_of, main,
}
use erlay_warnet.Eclipse.Overlay.{
  samples-IsDrawn, length-reachable_names, reachable_names-All, IsDrawn, IsTankBelow,
}

module _ (D : DiGraph) (L : Graph.IsLawful D) where
  -- The parts of the three networks: one mesh without extra links, one mesh with them that two arms
  -- share, and the targets that are drawn once for all arms.
  pub record IsMade (args : Options) (arms : List Arm) : Type 0 where
    pub bare : D.Graph
    pub mesh : D.Graph
    pub bh_targets : List (List Text)
    pub victim_extra : List Text
    pub bare_built :
        IsBuilt D L
          (pos_part (reachable_of args))
          125
          (pos_part args.honest)
          (pos_part args.outbound)
          0
          bare
    pub mesh_built :
        IsBuilt D L
          (pos_part (reachable_of args))
          125
          (pos_part args.honest)
          (pos_part args.outbound)
          (pos_part args.extras)
          mesh
    pub bh_count : length bh_targets ≡ pos_part args.outbound
    pub bh_drawn :
        All
          (IsDrawn
            (IsTankBelow (pos_part (reachable_of args)))
            (pos_part args.outbound + pos_part args.extras))
          bh_targets
    pub victim_drawn :
        IsDrawn (IsTankBelow (pos_part (reachable_of args))) (pos_part args.extras) victim_extra
    pub arms_lem :
        arms
        ≡ arms_of
            (pos_part args.outbound)
            bh_targets
            victim_extra
            (to_network_yaml full_relay true D bare (pos_part args.honest))
            (to_network_yaml full_relay true D mesh (pos_part args.honest))
            (to_network_yaml full_recon true D mesh (pos_part args.honest))

  -- What `main` may end with.
  abbrev pub IsEclipseRun : Options → Result Stop (List Arm) → Type 0
  IsEclipseRun args (ok arms) = IsMade args arms
  IsEclipseRun args (err outbound_exceeds_addnode) = ltb_ℤ (pos 8) args.outbound ≡ true
  IsEclipseRun args (err (failed f)) = (e : Infeasible) × (f ≡ not_feasible e)

  module _ (R : Rng) (S : Rng.IsLawful R) (args : Options) where
    -- The mesh of an arm, from the outcome of its checked search.
    abbrev mesh_of : Text → Result Failure (D.Graph × ℕ) → Result Failure NetworkYaml
    mesh_of type r = do
      (graph, _) ← r
      ok (to_network_yaml type true D graph (pos_part args.honest))

    abbrev checked : ℤ → Result Failure (D.Graph × ℕ)
    checked recon_outbound =
        checked_graph D R args.honest (reachable_of args) args.outbound recon_outbound (pos 125)
          (pos 500) (R.seeded (some args.seed))

    abbrev overlaid : (control relay recon : NetworkYaml) → Result Stop (List Arm)
    overlaid =
        overlay D R (pos_part (reachable_of args)) (pos_part args.outbound) (pos_part args.extras)
          (R.seeded (some (args.seed +ℤ pos 1)))

    abbrev meshed : (r0 r1 : Result Failure (D.Graph × ℕ)) → Result Stop (List Arm)
    meshed r0 r1 = do
      control ← or_stop (mesh_of full_relay r0)
      relay ← or_stop (mesh_of full_relay r1)
      recon ← or_stop (mesh_of full_recon r1)
      overlaid control relay recon

    main_lem : main D R args ≡ (
        raise_if (ltb_ℤ (pos 8) args.outbound) outbound_exceeds_addnode
        >> meshed (checked (pos 0)) (checked args.extras))
    unfolding main
    main_lem = refl

    overlaid-IsMade :
        (bare mesh : D.Graph)
        → IsBuilt D L
            (pos_part (reachable_of args))
            125
            (pos_part args.honest)
            (pos_part args.outbound)
            0
            bare
        → IsBuilt D L
            (pos_part (reachable_of args))
            125
            (pos_part args.honest)
            (pos_part args.outbound)
            (pos_part args.extras)
            mesh
        → (2 * (pos_part args.outbound + pos_part args.extras) + 1 ≤ pos_part (reachable_of args))
          × (pos_part (reachable_of args) ≤ pos_part args.honest)
        → IsEclipseRun args (
            overlaid
              (to_network_yaml full_relay true D bare (pos_part args.honest))
              (to_network_yaml full_relay true D mesh (pos_part args.honest))
              (to_network_yaml full_recon true D mesh (pos_part args.honest)))
    unfolding overlay
    overlaid-IsMade bare mesh b m (pairs, within) =
        let reachable = pos_part (reachable_of args) in
        let outbound = pos_part args.outbound in
        let extras = pos_part args.extras in
        let size = pos_part args.honest in
        let names =
          take reachable
            (map (λ (t : Tank). t.name) (to_network_yaml full_recon true D mesh size).nodes) in
        let have : All (IsTankBelow reachable) names =
          reachable_names-All full_recon true D mesh size reachable in
        let many : length names ≡ reachable =
          length-reachable_names full_recon true D mesh size reachable within in
        let s = R.seeded (some (args.seed +ℤ pos 1)) in
        let (tss, e, count, drawn) =
          samples-IsDrawn R S (IsTankBelow reachable) names have (outbound + extras) outbound s
            (omega arith) in
        let s' = (samples R names (outbound + extras) outbound s).1 in
        let (ts, e', sized, all) =
          sample-All R S (IsTankBelow reachable) names extras s' have (omega arith) in
        rw (e, e')
          (record {
            bare = bare;
            mesh = mesh;
            bh_targets = tss;
            victim_extra = ts;
            bare_built = b;
            mesh_built = m;
            bh_count = count;
            bh_drawn = drawn;
            victim_drawn = (sized, all);
            arms_lem = refl;
          })

    meshed-IsEclipseRun :
        (r0 r1 : Result Failure (D.Graph × ℕ))
        → IsChecked D L R S
            (pos_part args.honest)
            (pos_part (reachable_of args))
            (pos_part args.outbound)
            0
            125
            500
            r0
        → IsChecked D L R S
            (pos_part args.honest)
            (pos_part (reachable_of args))
            (pos_part args.outbound)
            (pos_part args.extras)
            125
            500
            r1
        → checked args.extras ≡ r1
        → IsEclipseRun args (meshed r0 r1)
    meshed-IsEclipseRun (err f) r1 h0 h1 e = h0
    meshed-IsEclipseRun (ok made) (err f) h0 h1 e = h1
    meshed-IsEclipseRun (ok (bare, _)) (ok (mesh, _)) h0 h1 e =
        overlaid-IsMade bare mesh h0.0 h1.0 (
          passed_counts args.honest (reachable_of args) args.outbound args.extras (pos 125) (
            checked_graph-validate_args D R args.honest (reachable_of args) args.outbound
              args.extras (pos 125) (pos 500) (R.seeded (some args.seed)) e))

    guarded-IsEclipseRun :
        (r : Result Stop (List Arm))
        → IsEclipseRun args r
        → IsEclipseRun args (raise_if (ltb_ℤ (pos 8) args.outbound) outbound_exceeds_addnode >> r)
    guarded-IsEclipseRun r h = elim (Bool-cases (ltb_ℤ (pos 8) args.outbound)) [
      | inl over ↦ rw over over
      | inr fits ↦ rw fits h
    ]

    -- For all options and every generator: `main` ends with an error over `--outbound` above 8, with one
    -- over infeasible arguments, or with three networks; no assertion fails and no `sample` raises. The
    -- control network has a mesh built with no extra links; the other two share one mesh, and the targets
    -- of the blackholes and of the victim are drawn once, from the reachable honest tanks, `outbound +
    -- extras` for each of `outbound` blackholes and `extras` for the victim.
    pub main-IsEclipseRun : IsEclipseRun args (main D R args)
    main-IsEclipseRun = rw main_lem (
        guarded-IsEclipseRun _ (
          meshed-IsEclipseRun (checked (pos 0)) (checked args.extras)
            (checked_graph-IsChecked D L R S args.honest (reachable_of args) args.outbound (pos 0)
              (pos 125) (pos 500) (R.seeded (some args.seed)))
            (checked_graph-IsChecked D L R S args.honest (reachable_of args) args.outbound
              args.extras (pos 125) (pos 500) (R.seeded (some args.seed)))
            refl))

raised_not :
    {A : Type 0} (b : Bool) (e : Stop) (r : Result Stop A) (a : A)
    → (raise_if b e >> r) ≡ ok a
    → b ≡ false
raised_not true e r a h = cc
raised_not false e r a h = refl

-- Networks are written only for at most eight `addnode` links a node.
pub outbound_fits :
    (D : DiGraph) (L : Graph.IsLawful D) (R : Rng) (S : Rng.IsLawful R) (args : Options)
    {arms : List Arm}
    → main D R args ≡ ok arms
    → pos_part args.outbound ≤ 8
outbound_fits D L R S args {arms} h =
    let fits : ltb_ℤ (pos 8) args.outbound ≡ false =
      raised_not (ltb_ℤ (pos 8) args.outbound) outbound_exceeds_addnode _ arms
        (sym (main_lem D L R S args) ∙ h) in
    ground arith

pub main-IsMade :
    (D : DiGraph) (L : Graph.IsLawful D) (R : Rng) (S : Rng.IsLawful R) (args : Options)
    {arms : List Arm}
    → main D R args ≡ ok arms
    → IsMade D L args arms
main-IsMade D L R S args h = rw h at (main-IsEclipseRun D L R S args)
