-- ===== src/Plugins/Simln/Example.antt =====
-- The example activity of `plugins/simln/plugin.py`, printed by one command and launched by another.
use erlay_warnet.Prelude.{◌≡◌, refl, ap, true, Option, some, List, [], ◌∷◌, ◌++◌, map}
use mathlib.Core.Path.{subst}
use erlay_warnet.Prelude.Int.{pos}
use erlay_warnet.Prelude.Result.{Result, ok, err, Ends, Ends-weaken}
use erlay_warnet.Prelude.Text.{Text, codes, decimal}
use erlay_warnet.Prelude.Json.{Json, text, number, array, Items, no_items, item, get_field, is_true}
use erlay_warnet.Plugins.{Constants}
use erlay_warnet.Plugins.Simln.{
  example_between, example_activity, Launch, LaunchError, launch, launch_activity,
}
use erlay_warnet.Plugins.Simln.Written.{
  IsUnwritten, read_field, read_nodes, node_with, launch-IsWritten,
}
use erlay_warnet.Plugins.Simln.Commands.{
  Cluster, get_example_activity, launch_activity_command, Output, launched, printed, CommandError,
  launch_failed, no_lightning_nodes, or_launch_failed, run,
}

-- An activity as simln reads it: who pays whom, in which interval, and how much.
abbrev pub Payment : Type 0
Payment = Option Json × Option Json × Option Json × Option Json

abbrev pub read_payment : Json → Payment
read_payment j = (
  read_field (codes "source") j,
  read_field (codes "destination") j,
  read_field (codes "interval_secs") j,
  read_field (codes "amount_msat") j,
)

abbrev pub payments_of : Items → List Payment
payments_of no_items = []
payments_of (item j js) = read_payment j ∷ payments_of js

abbrev pub read_payments : Option Json → List Payment
read_payments (some (array js)) = payments_of js
read_payments _ = []

-- Each second, 2000 millisatoshis from the one node to the other.
abbrev pub payment_between : (a b : Text) → Payment
payment_between a b =
    (some (text a), some (text b), some (number (pos 1)), some (number (pos 2000)))

-- A launch whose file has these nodes and this one payment.
abbrev pub IsExampleLaunch : Cluster → List Text → (a b : Text) → Output → Type 0
IsExampleLaunch c lightning a b (printed _) = ⊥
IsExampleLaunch c lightning a b (launched l) =
    (l.name ≡ codes "simln-" ++ decimal c.time)
    × (c.calls.run_command l.command ≡ true)
    × (c.calls.wait_for_init l.name ≡ true)
    × (c.calls.write_file l.name l.written ≡ true)
    × (read_nodes l.written ≡ map node_with lightning)
    × (read_payments (read_field (codes "activity") l.written) ≡ payment_between a b ∷ [])

-- Why the launch of the example raises.
abbrev pub IsUnlaunched :
    Cluster → (plugin_dir : Text) → List Text → (a b : Text) → CommandError → Type 0
IsUnlaunched c plugin_dir lightning a b (launch_failed e) =
    IsUnwritten c.calls plugin_dir lightning c.time (example_between a b) e
IsUnlaunched c plugin_dir lightning a b _ = ⊥

or_launch_failed-Ends :
    (P : Output → Type 0) (F : CommandError → Type 0) (r : Result LaunchError Launch)
    → Ends (λ l. P (launched l)) (λ e. F (launch_failed e)) r
    → Ends P F (or_launch_failed r)
or_launch_failed-Ends P F (ok l) h = h
or_launch_failed-Ends P F (err e) h = h

-- What the two commands do with these Lightning pods.
abbrev pub IsExampleOf :
    Constants → (lightning_mission plugin_dir : Text) → Cluster → List Text → Type 0
IsExampleOf k lightning_mission plugin_dir c (first ∷ a ∷ b ∷ rest) =
    (t : Text) × (run k lightning_mission plugin_dir c get_example_activity ≡ ok (printed t))
    × Ends (IsExampleLaunch c (first ∷ a ∷ b ∷ rest) a b)
        (IsUnlaunched c plugin_dir (first ∷ a ∷ b ∷ rest) a b)
        (run k lightning_mission plugin_dir c (launch_activity_command t))
IsExampleOf k lightning_mission plugin_dir c _ =
    run k lightning_mission plugin_dir c get_example_activity ≡ err no_lightning_nodes

payments_of_example :
    (a b : Text) → read_payments (some (example_between a b)) ≡ payment_between a b ∷ []
unfolding get_field
payments_of_example a b = refl

-- The launch of the example, where its text is read back.
example-IsLaunched :
    (k : Constants) (lightning_mission plugin_dir : Text) (c : Cluster) (a b : Text)
    → c.loads (c.dumps (example_between a b)) ≡ some (example_between a b)
    → Ends
        (IsExampleLaunch c (c.get_mission lightning_mission) a b)
        (IsUnlaunched c plugin_dir (c.get_mission lightning_mission) a b)
        (run k lightning_mission plugin_dir c
          (launch_activity_command (c.dumps (example_between a b))))
unfolding run launch_activity is_true
example-IsLaunched k lightning_mission plugin_dir c a b loaded =
    let lightning = c.get_mission lightning_mission in
    rw loaded (
      or_launch_failed-Ends (IsExampleLaunch c lightning a b)
        (IsUnlaunched c plugin_dir lightning a b) _
        (Ends-weaken _ _ _ _ (launch c.calls plugin_dir lightning c.time (example_between a b))
          (λ l (n, _, ran, started, w, nodes, activity).
            (n, ran, started, w, nodes, ap read_payments activity))
          (λ e h. h) (launch-IsWritten c.calls plugin_dir lightning c.time (example_between a b))))

run-example_at :
    (k : Constants) (lightning_mission plugin_dir : Text) (c : Cluster) (lightning : List Text)
    → ((j : Json) → example_activity lightning ≡ some j → c.loads (c.dumps j) ≡ some j)
    → c.get_mission lightning_mission ≡ lightning
    → IsExampleOf k lightning_mission plugin_dir c lightning
unfolding run example_activity
run-example_at k lightning_mission plugin_dir c [] loaded e = rw e refl
run-example_at k lightning_mission plugin_dir c (first ∷ []) loaded e = rw e refl
run-example_at k lightning_mission plugin_dir c (first ∷ a ∷ []) loaded e = rw e refl
run-example_at k lightning_mission plugin_dir c (first ∷ a ∷ b ∷ rest) loaded e = (
  c.dumps (example_between a b),
  rw e refl,
  subst
      (λ lightning.
        Ends (IsExampleLaunch c lightning a b) (IsUnlaunched c plugin_dir lightning a b) (
          run k lightning_mission plugin_dir c
            (launch_activity_command (c.dumps (example_between a b)))))
      e
      (example-IsLaunched k lightning_mission plugin_dir c a b (loaded (example_between a b) refl)),
)

-- Where json reads back the activity that it writes: with three Lightning pods or more,
-- get_example_activity prints a text that launch_activity takes, and that launch returns with a file
-- written that has all Lightning pods and a single payment, from the second pod to the third, or raises
-- where the helm command fails, the wait for the pod raises or the file cannot be written. With fewer pods
-- get_example_activity raises.
pub run-example :
    (k : Constants) (lightning_mission plugin_dir : Text) (c : Cluster)
    → ((j : Json)
        → example_activity (c.get_mission lightning_mission) ≡ some j
        → c.loads (c.dumps j) ≡ some j)
    → IsExampleOf k lightning_mission plugin_dir c (c.get_mission lightning_mission)
run-example k lightning_mission plugin_dir c loaded =
    run-example_at k lightning_mission plugin_dir c (c.get_mission lightning_mission) loaded refl
