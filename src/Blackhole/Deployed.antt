-- ===== src/Blackhole/Deployed.antt =====
-- check_blackhole.py from the pods of the cluster on: WARNET, then `setup`, then `run_test` on the nodes
-- that it made.
use erlay_warnet.Prelude.{
  ℕ, zero, suc, ◌≡◌, refl, ap, sym, ◌∙◌, true, false, Option, none, some, List, [], ◌∷◌, map, All,
  get_elem?, Bool-cases, inl, inr, All-of_map,
}
use erlay_warnet.Prelude.Result.{Result, ok, err, Ends, ◌>>=◌}
use erlay_warnet.Prelude.Text.{Text, text_eq, text_eq→eq, has_text}
use erlay_warnet.Commander.{TankInfo, Node, Nodes, get_item, setup_nodes}
use erlay_warnet.Commander.Index.{HasDistinctNames, setup_nodes-found}
use erlay_warnet.Commander.Options.{Parsed}
use erlay_warnet.Commander.Pods.{Entry, Warnet, Raised, Cluster, read_cluster}
use erlay_warnet.Commander.Setup.{SetupError, FileSystem, Scenario, setup}
use erlay_warnet.Commander.Setup.Indexed.{SetupFails, setup-named}
use erlay_warnet.Commander.Waiting.{Waiting, IsLawful}
use erlay_warnet.Blackhole.Verdict.{needed, IsPassed, IsFailed, run_test-IsPassed}
use erlay_warnet.Blackhole.{Options, Answers, Failure, no_tank, Course, run_test}

-- The way a program ends without passing.
pub data Stop : Type 0 where
  not_read : Raised → Stop
  not_set_up : SetupError → Stop
  failed : Failure → Stop

module _ {J : Type 0} (loads : Text → Option (List (List (Text × J)))) (str : Text → J)
    (fs : FileSystem) (p : Parsed) (W : Waiting) (o : Options) (answers : Nodes → Answers)
    (fuel : ℕ) where
  abbrev pub or_not_read : Result Raised (Warnet J) → Result Stop (Warnet J)
  or_not_read (ok w) = ok w
  or_not_read (err e) = err (not_read e)

  abbrev pub or_not_set_up : Result SetupError (Scenario J) → Result Stop (Scenario J)
  or_not_set_up (ok s) = ok s
  or_not_set_up (err e) = err (not_set_up e)

  abbrev pub or_failed : Result Failure Course → Result Stop Course
  or_failed (ok c) = ok c
  or_failed (err e) = err (failed e)

  -- `CheckBlackhole().main()`, after its options are parsed.
  unfoldable pub main : Cluster → Result Stop Course
  unfolding read_cluster setup run_test
  main c = do
    w ← or_not_read (read_cluster loads str c)
    s ← or_not_set_up (setup fs w p)
    or_failed (run_test W o (record (answers s.nodes) { network = s.nodes }) fuel)

-- No name twice.
abbrev pub IsDistinct : List Text → Type 0
IsDistinct [] = Unit {0}
IsDistinct (t ∷ ts) = All (λ u. text_eq u t ≡ false) ts × IsDistinct ts

abbrev pub names_of : {J : Type 0} → Warnet J → List Text
names_of w = map (λ (e : Entry). e.tank) w.tanks

HasDistinctNames-of_names :
    (ts : List TankInfo) → IsDistinct (map (λ (t : TankInfo). t.tank) ts) → HasDistinctNames ts
HasDistinctNames-of_names [] h = tt
HasDistinctNames-of_names (t ∷ ts) (new, h) = (
  All-of_map (λ u. text_eq u t.tank ≡ false) (λ (u : TankInfo). u.tank) ts new,
  HasDistinctNames-of_names ts h,
)

-- A name of the list stands at some position of it.
position_of :
    (name : Text) (ts : List TankInfo)
    → has_text name (map (λ (t : TankInfo). t.tank) ts) ≡ true
    → (j : ℕ) × (t : TankInfo) × (get_elem? ts j ≡ some t) × (t.tank ≡ name)
position_of name [] h = cc
position_of name (t ∷ ts) h = elim (Bool-cases (text_eq t.tank name)) [
  | inl e ↦ (zero, t, refl, text_eq→eq t.tank name e)
  | inr e ↦ later (position_of name ts (rw e at h))
]
  where
    later :
        (j : ℕ) × (u : TankInfo) × (get_elem? ts j ≡ some u) × (u.tank ≡ name)
        → (j : ℕ) × (u : TankInfo) × (get_elem? (t ∷ ts) j ≡ some u) × (u.tank ≡ name)
    later (j, u, at, same) = (suc j, u, at, same)

setup_nodes-named :
    (name : Text) (ts : List TankInfo)
    → HasDistinctNames ts
    → has_text name (map (λ (t : TankInfo). t.tank) ts) ≡ true
    → get_item name (setup_nodes ts).tanks ≡ none
    → ⊥
setup_nodes-named name ts d h missing =
    let (j, t, at, same) = position_of name ts h in
    let found = (setup_nodes-found ts j t d at).1 in
    let there = ap (λ k. get_item k (setup_nodes ts).tanks) same in none_there there found missing
  where
    none_there : {a b : Option Node} {n : Node} → a ≡ b → a ≡ some n → b ≡ none → ⊥
    none_there e f m = cc

-- A test that holds for each text of a list holds for what stands in it.
All-has_text :
    (P : Text → Type 0) (name : Text) (ts : List Text) → All P ts → has_text name ts ≡ true → P name
All-has_text P name [] h m = cc
All-has_text P name (t ∷ ts) (h, hs) m = elim (Bool-cases (text_eq t name)) [
  | inl e ↦ rw (← text_eq→eq t name e) h
  | inr e ↦ All-has_text P name ts hs (rw e at m)
]

module _ {J : Type 0} (loads : Text → Option (List (List (Text × J)))) (str : Text → J)
    (fs : FileSystem) (p : Parsed) (W : Waiting) (L : IsLawful W) (o : Options)
    (answers : Nodes → Answers) (fuel : ℕ) where
  abbrev pub answers_of : Nodes → Answers
  answers_of nodes = record (answers nodes) { network = nodes }

  -- Setup ends with a scenario, on whose nodes the run is as the predicate says.
  abbrev pub OnSetup : Warnet J → (Answers → Type 0) → Type 0
  OnSetup w P = (s : Scenario J) × (setup fs w p ≡ ok s) × P (answers_of s.nodes)

  abbrev pub HasPassed : Warnet J → Course → Type 0
  HasPassed w c = OnSetup w (λ a. IsPassed W L o a fuel c)

  -- Neither reading the cluster nor looking up a tank is what stopped the run.
  abbrev pub IsStop : Warnet J → Stop → Type 0
  IsStop w (not_read e) = ⊥
  IsStop w (not_set_up e) = SetupFails fs p.options.tmpdir w.tanks e
  IsStop w (failed (no_tank name)) = ⊥
  IsStop w (failed e) = OnSetup w (λ a. IsFailed W L o a fuel e)

  IsStop-of_failure :
      (w : Warnet J) (s : Scenario J) (e : Failure)
      → setup fs w p ≡ ok s
      → ((name : Text) → has_text name needed ≡ true → get_item name s.nodes.tanks ≡ none → ⊥)
      → IsFailed W L o (answers_of s.nodes) fuel e
      → IsStop w (failed e)
  IsStop-of_failure w s (no_tank name) made none_missing h = none_missing name h.0 h.1
  IsStop-of_failure w s Failure.not_connected made none_missing h = (s, made, h)
  IsStop-of_failure w s Failure.not_generated made none_missing h = (s, made, h)
  IsStop-of_failure w s Failure.not_sent made none_missing h = (s, made, h)
  IsStop-of_failure w s (Failure.timed_out what) made none_missing h = (s, made, h)
  IsStop-of_failure w s (Failure.victim_advanced count expected) made none_missing h = (s, made, h)
  IsStop-of_failure w s Failure.victim_received made none_missing h = (s, made, h)
  IsStop-of_failure w s Failure.blackhole_lacks made none_missing h = (s, made, h)

  HasPassed-of_run :
      (w : Warnet J) (s : Scenario J) (r : Result Failure Course)
      → setup fs w p ≡ ok s
      → ((name : Text) → has_text name needed ≡ true → get_item name s.nodes.tanks ≡ none → ⊥)
      → Ends (IsPassed W L o (answers_of s.nodes) fuel) (IsFailed W L o (answers_of s.nodes) fuel) r
      → Ends (HasPassed w) (IsStop w) (or_failed loads str fs p W o answers fuel r)
  HasPassed-of_run w s (ok c) made none_missing h = (s, made, h)
  HasPassed-of_run w s (err e) made none_missing h = IsStop-of_failure w s e made none_missing h

  HasPassed-of_setup :
      (w : Warnet J)
      → IsDistinct (names_of w)
      → All (λ n. has_text n (names_of w) ≡ true) needed
      → (r : Result SetupError (Scenario J)) → setup fs w p ≡ r
      → Ends
          (λ (s : Scenario J).
            (ts : List TankInfo) × (s.nodes ≡ setup_nodes ts)
            × (map (λ (t : TankInfo). t.tank) ts ≡ names_of w))
          (SetupFails fs p.options.tmpdir w.tanks)
          r
      → Ends (HasPassed w) (IsStop w) (
          or_not_set_up loads str fs p W o answers fuel r >>= λ s.
          or_failed loads str fs p W o answers fuel (run_test W o (answers_of s.nodes) fuel))
  HasPassed-of_setup w d all (err e) made h = h
  HasPassed-of_setup w d all (ok s) made (ts, nodes, names) =
      let distinct : HasDistinctNames ts = HasDistinctNames-of_names ts (rw names d) in
      HasPassed-of_run w s (run_test W o (answers_of s.nodes) fuel) made
        (λ name m missing.
          setup_nodes-named name ts distinct
            (rw names (All-has_text (λ n. has_text n (names_of w) ≡ true) name needed all m))
            (ap (λ (n : Nodes). get_item name n.tanks) (sym nodes) ∙ missing))
        (run_test-IsPassed W L o (answers_of s.nodes) fuel)

  -- For every lawful wait, file system and answers, and a cluster that is read with tanks of distinct
  -- names, among them the five of the topology: the program from WARNET on passes only where run_test has
  -- seen what it is to see, on the nodes that setup made; it is never stopped by a tank that is not found,
  -- only by an annotation that is no number, a directory that is there, or what run_test fails over.
  pub main-HasPassed :
      (c : Cluster) (w : Warnet J)
      → read_cluster loads str c ≡ ok w
      → IsDistinct (names_of w)
      → All (λ n. has_text n (names_of w) ≡ true) needed
      → Ends (HasPassed w) (IsStop w) (main loads str fs p W o answers fuel c)
  unfolding main
  main-HasPassed c w read d all =
      rw read (HasPassed-of_setup w d all (setup fs w p) refl (setup-named fs w p))
