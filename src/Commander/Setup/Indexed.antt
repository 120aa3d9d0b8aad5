-- ===== src/Commander/Setup/Indexed.antt =====
-- What a scenario finds after `setup`: a node for each tank, an `LND` for each Lightning node.
use erlay_warnet.Prelude.{
  ℕ, suc, ◌≡◌, refl, ap, sym, ◌∙◌, ◌⊎◌, true, false, Option, none, some, List, [], ◌∷◌, map, length,
  All, Bool-cases, inl, inr, length-map,
}
use erlay_warnet.Prelude.Result.{Result, ok, err, Ends, ◌>>=◌}
use erlay_warnet.Prelude.Text.{Text, text_eq, text_eq→eq}
use erlay_warnet.Commander.{TankInfo, Node, get_item, set_item, node_of, setup_nodes}
use erlay_warnet.Commander.Index.{
  get_item-set_item_same, get_item-set_item_other, add_tanks-nodes, numbered,
}
use erlay_warnet.Commander.Options.{Parsed}
use erlay_warnet.Prelude.Int.{ℤ, pos_part}
use erlay_warnet.Commander.Pods.{Entry, Warnet, Raised, int_text}
use erlay_warnet.Commander.Setup.{
  Lnd, make_lnd, add_lns, with_init_peers, info_with, SetupError, FileSystem, choose_tmpdir,
  Scenario, setup, lift_error, scenario_of,
}

add_lns-keeps :
    (name : Text) (lns : List Text) (d : List (Text × Lnd))
    → get_item name d ≡ some (make_lnd name)
    → get_item name (add_lns lns d) ≡ some (make_lnd name)
unfolding add_lns
add_lns-keeps name [] d h = h
add_lns-keeps name (ln ∷ lns) d h = elim (Bool-cases (text_eq ln name)) [
  | inl e ↦ add_lns-keeps name lns _ (
      ap (λ n. get_item name (set_item n (make_lnd n) d)) (text_eq→eq ln name e)
      ∙ get_item-set_item_same name (make_lnd name) d)
  | inr e ↦ add_lns-keeps name lns _ (get_item-set_item_other ln name (make_lnd ln) d e ∙ h)
]

add_lns-All :
    (lns : List Text) (d : List (Text × Lnd))
    → All (λ name. get_item name (add_lns lns d) ≡ some (make_lnd name)) lns
unfolding add_lns
add_lns-All [] d = tt
add_lns-All (ln ∷ lns) d = (
  add_lns-keeps ln lns _ (get_item-set_item_same ln (make_lnd ln) d),
  add_lns-All lns (set_item ln (make_lnd ln) d),
)

numbered-tanks :
    (i : ℕ) (ts : List TankInfo)
    → map (λ (n : Node). n.tank) (numbered i ts) ≡ map (λ (t : TankInfo). t.tank) ts
unfolding node_of
numbered-tanks i [] = refl
numbered-tanks i (t ∷ ts) = ap (◌∷◌ t.tank) (numbered-tanks (suc i) ts)

setup_nodes-tanks :
    (ts : List TankInfo)
    → map (λ (n : Node). n.tank) (setup_nodes ts).nodes ≡ map (λ (t : TankInfo). t.tank) ts
unfolding setup_nodes
setup_nodes-tanks ts =
    ap (map (λ (n : Node). n.tank)) (add_tanks-nodes 0 ts _) ∙ numbered-tanks 0 ts

-- A tank's annotation is no number.
abbrev IsNoNumber : Result Raised ℤ → Type 0
IsNoNumber (ok n) = ⊥
IsNoNumber (err e) = Unit

abbrev pub SomeNoNumber : List Entry → Type 0
SomeNoNumber [] = ⊥
SomeNoNumber (e ∷ es) = IsNoNumber (int_text e.init_peers) ⊎ SomeNoNumber es

pub with_init_peers-tanks :
    (es : List Entry)
    → Ends
        (λ ts. map (λ (t : TankInfo). t.tank) ts ≡ map (λ (e : Entry). e.tank) es)
        (λ (_ : Raised). SomeNoNumber es)
        (with_init_peers es)
unfolding with_init_peers
with_init_peers-tanks [] = refl
with_init_peers-tanks (e ∷ es) =
    go (int_text e.init_peers) (with_init_peers es) (with_init_peers-tanks es)
  where
    go :
        (r : Result Raised ℤ) (rest : Result Raised (List TankInfo))
        → Ends
            (λ ts. map (λ (t : TankInfo). t.tank) ts ≡ map (λ (e : Entry). e.tank) es)
            (λ (_ : Raised). SomeNoNumber es)
            rest
        → Ends
            (λ ts. map (λ (t : TankInfo). t.tank) ts ≡ map (λ (e : Entry). e.tank) (e ∷ es))
            (λ (_ : Raised). IsNoNumber r ⊎ SomeNoNumber es)
            (r >>= λ n. rest >>= λ ts. ok (info_with e (pos_part n) ∷ ts))
    go (err x) rest h = inl tt
    go (ok n) (err x) h = inr h
    go (ok n) (ok ts) h = ap (◌∷◌ e.tank) h

-- The directory of `--tmpdir` is there already.
abbrev pub IsTaken : FileSystem → Option Text → Type 0
IsTaken fs none = ⊥
IsTaken fs (some []) = ⊥
IsTaken fs (some (c ∷ t)) = fs.exists (fs.abspath (c ∷ t)) ≡ true

abbrev pub SetupFails : FileSystem → Option Text → List Entry → SetupError → Type 0
SetupFails fs dir es (SetupError.raised _) = SomeNoNumber es
SetupFails fs dir es (SetupError.tmpdir_exists _) = IsTaken fs dir

-- The directory is new, or one that `mkdtemp` made.
abbrev pub IsFresh : FileSystem → Text → Type 0
IsFresh fs dir = (dir ≡ fs.mkdtemp) ⊎ (fs.exists dir ≡ false)

abbrev pub IsSetUp : {J : Type 0} → FileSystem → Warnet J → Scenario J → Type 0
IsSetUp fs w s =
    (map (λ (n : Node). n.tank) s.nodes.nodes ≡ map (λ (e : Entry). e.tank) w.tanks)
    × (s.num_nodes ≡ length w.tanks)
    × All (λ name. get_item name s.lns ≡ some (make_lnd name)) w.lightning
    × (s.channels ≡ w.channels)
    × IsFresh fs s.tmpdir

choose_tmpdir-IsFresh :
    (fs : FileSystem) (dir : Option Text) (es : List Entry)
    → Ends (IsFresh fs) (SetupFails fs dir es) (choose_tmpdir fs dir)
unfolding choose_tmpdir
choose_tmpdir-IsFresh fs none es = inl refl
choose_tmpdir-IsFresh fs (some []) es = inl refl
choose_tmpdir-IsFresh fs (some (c ∷ t)) es = elim (Bool-cases (fs.exists (fs.abspath (c ∷ t)))) [
  | inl e ↦ rw e e
  | inr e ↦ rw e (inr e)
]

count_nodes :
    (ns : List Node) (es : List Entry)
    → map (λ (n : Node). n.tank) ns ≡ map (λ (e : Entry). e.tank) es
    → length ns ≡ length es
count_nodes ns es h =
    sym (length-map ns (λ (n : Node). n.tank)) ∙ ap length h ∙ length-map es (λ (e : Entry). e.tank)

-- The nodes are those of tanks with the names of WARNET's.
pub setup-named :
    {J : Type 0} (fs : FileSystem) (w : Warnet J) (p : Parsed)
    → Ends
        (λ (s : Scenario J).
          (ts : List TankInfo) × (s.nodes ≡ setup_nodes ts)
          × (map (λ (t : TankInfo). t.tank) ts ≡ map (λ (e : Entry). e.tank) w.tanks))
        (SetupFails fs p.options.tmpdir w.tanks)
        (setup fs w p)
unfolding setup scenario_of
setup-named {J} fs w p =
    go (with_init_peers w.tanks) (choose_tmpdir fs p.options.tmpdir) (with_init_peers-tanks w.tanks)
      (choose_tmpdir-IsFresh fs p.options.tmpdir w.tanks)
  where
    go :
        (r : Result Raised (List TankInfo)) (dir : Result SetupError Text)
        → Ends
            (λ ts. map (λ (t : TankInfo). t.tank) ts ≡ map (λ (e : Entry). e.tank) w.tanks)
            (λ (_ : Raised). SomeNoNumber w.tanks)
            r
        → Ends (IsFresh fs) (SetupFails fs p.options.tmpdir w.tanks) dir
        → Ends
            (λ (s : Scenario J).
              (ts : List TankInfo) × (s.nodes ≡ setup_nodes ts)
              × (map (λ (t : TankInfo). t.tank) ts ≡ map (λ (e : Entry). e.tank) w.tanks))
            (SetupFails fs p.options.tmpdir w.tanks)
            (lift_error r >>= λ ts. dir >>= λ d. ok (scenario_of w p ts d))
    go (err e) dir h k = h
    go (ok ts) (err e) h k = k
    go (ok ts) (ok d) h k = (ts, refl, h)

-- For every WARNET, options and file system: where `setup` returns, the nodes are the tanks, by name and in
-- order, `num_nodes` is their number, each Lightning node is found by its name, the channels are those of
-- WARNET, and the temporary directory was not there or is that of `mkdtemp`. It raises only over a tank
-- whose `init_peers` is no number, or a directory of `--tmpdir` that is there.
pub setup-IsSetUp :
    {J : Type 0} (fs : FileSystem) (w : Warnet J) (p : Parsed)
    → Ends (IsSetUp fs w) (SetupFails fs p.options.tmpdir w.tanks) (setup fs w p)
unfolding setup scenario_of
setup-IsSetUp fs w p =
    go (with_init_peers w.tanks) (choose_tmpdir fs p.options.tmpdir) (with_init_peers-tanks w.tanks)
      (choose_tmpdir-IsFresh fs p.options.tmpdir w.tanks)
  where
    go :
        (r : Result Raised (List TankInfo)) (dir : Result SetupError Text)
        → Ends
            (λ ts. map (λ (t : TankInfo). t.tank) ts ≡ map (λ (e : Entry). e.tank) w.tanks)
            (λ (_ : Raised). SomeNoNumber w.tanks)
            r
        → Ends (IsFresh fs) (SetupFails fs p.options.tmpdir w.tanks) dir
        → Ends
            (IsSetUp fs w)
            (SetupFails fs p.options.tmpdir w.tanks)
            (lift_error r >>= λ ts. dir >>= λ d. ok (scenario_of w p ts d))
    go (err e) dir h k = h
    go (ok ts) (err e) h k = k
    go (ok ts) (ok d) h k =
        let tanks = setup_nodes-tanks ts ∙ h in
        (
          tanks,
          count_nodes (setup_nodes ts).nodes w.tanks tanks,
          add_lns-All w.lightning [],
          refl,
          k,
        )
