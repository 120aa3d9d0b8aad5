-- ===== src/Plugins/Simln/Written.antt =====
-- What the file of a launch says to who reads it.
use erlay_warnet.Prelude.{
  ℕ, ◌≡◌, refl, ap, true, false, Option, none, some, List, [], ◌∷◌, ◌++◌, map, Bool-cases, inl, inr,
  if◌then◌else◌,
}
use erlay_warnet.Prelude.Result.{Ends, check-then}
use erlay_warnet.Prelude.Text.{Text, codes, decimal}
use erlay_warnet.Prelude.Json.{
  Json, text, array, Items, no_items, item, Fields, is_true, get_field, fields_of,
}
use erlay_warnet.Plugins.Simln.{
  node_of, nodes_of, activity_data, Launch, LaunchError, command_failed, not_started, not_written,
  Calls, helm_command, launch,
}

-- Reading a value: a field of a dictionary, and the elements of a list.
abbrev pub field_in : Text → Option Fields → Option Json
field_in key none = none
field_in key (some fs) = get_field key fs

abbrev pub read_field : Text → Json → Option Json
read_field key j = field_in key (fields_of j)

abbrev pub read_items : Items → List (Option Json × Option Json)
read_items no_items = []
read_items (item j js) = (read_field (codes "id") j, read_field (codes "address") j) ∷ read_items js

-- The identifier and the address of each node of the file.
abbrev pub items_in : Option Json → List (Option Json × Option Json)
items_in (some (array js)) = read_items js
items_in _ = []

abbrev pub read_nodes : Json → List (Option Json × Option Json)
read_nodes j = items_in (read_field (codes "nodes") j)

abbrev pub node_with : Text → Option Json × Option Json
node_with name = (some (text name), some (text (codes "https://" ++ name ++ codes ":10009")))

read_items-nodes :
    (lightning : List Text) → read_items (nodes_of lightning) ≡ map node_with lightning
unfolding node_of get_field
read_items-nodes [] = refl
read_items-nodes (name ∷ names) = ap (◌∷◌ (node_with name)) (read_items-nodes names)

read_nodes-data :
    (lightning : List Text) (activity : Json)
    → read_nodes (activity_data lightning activity) ≡ map node_with lightning
unfolding activity_data get_field
read_nodes-data lightning activity = read_items-nodes lightning

activity-data :
    (lightning : List Text) (activity : Json)
    → read_field (codes "activity") (activity_data lightning activity)
      ≡ (if is_true activity then some activity else none)
unfolding activity_data get_field
activity-data lightning activity = elim (Bool-cases (is_true activity)) [
  | inl e ↦ rw e refl
  | inr e ↦ rw e refl
]

abbrev pub helm_text : (plugin_dir : Text) → ℕ → Text
helm_text plugin_dir timestamp =
    codes "helm upgrade --install "
    ++ decimal timestamp
    ++ codes " "
    ++ plugin_dir
    ++ codes "/charts/simln"

-- The command has run, the pod has started, and the file is written.
abbrev pub IsWritten : (calls : Calls) (plugin_dir : Text) → List Text → ℕ → Json → Launch → Type 0
IsWritten calls plugin_dir lightning timestamp activity l =
    (l.name ≡ codes "simln-" ++ decimal timestamp)
    × (l.command ≡ helm_text plugin_dir timestamp)
    × (calls.run_command l.command ≡ true)
    × (calls.wait_for_init l.name ≡ true)
    × (calls.write_file l.name l.written ≡ true)
    × (read_nodes l.written ≡ map node_with lightning)
    × (read_field (codes "activity") l.written ≡ (if is_true activity then some activity else none))

-- Why a launch raises: the call that the error names, on what it names, did.
abbrev pub IsUnwritten :
    (calls : Calls) (plugin_dir : Text) → List Text → ℕ → Json → LaunchError → Type 0
IsUnwritten calls plugin_dir lightning timestamp activity (command_failed command) =
    (command ≡ helm_text plugin_dir timestamp) × (calls.run_command command ≡ false)
IsUnwritten calls plugin_dir lightning timestamp activity (not_started name) =
    (name ≡ codes "simln-" ++ decimal timestamp) × (calls.wait_for_init name ≡ false)
IsUnwritten calls plugin_dir lightning timestamp activity (not_written name) =
    (name ≡ codes "simln-" ++ decimal timestamp)
    × (calls.write_file name (activity_data lightning activity) ≡ false)
IsUnwritten calls plugin_dir lightning timestamp activity _ = ⊥

-- For all calls, Lightning pods, times and activities: where a launch returns, the helm command has
-- succeeded, the wait for the pod that is named after the time has returned, and the launch has written to
-- it a file whose nodes are the Lightning pods, in order, each with its address at port 10009, and whose
-- activity is the one given, left out where that is empty or false. It raises only where the command
-- fails, the wait raises or writing to that pod fails.
pub launch-IsWritten :
    (calls : Calls) (plugin_dir : Text) (lightning : List Text) (timestamp : ℕ) (activity : Json)
    → Ends
        (IsWritten calls plugin_dir lightning timestamp activity)
        (IsUnwritten calls plugin_dir lightning timestamp activity)
        (launch calls plugin_dir lightning timestamp activity)
unfolding launch
launch-IsWritten calls plugin_dir lightning timestamp activity =
    let name = codes "simln-" ++ decimal timestamp in
    let command = helm_command calls plugin_dir lightning timestamp in
    let Q = IsWritten calls plugin_dir lightning timestamp activity in
    let F = IsUnwritten calls plugin_dir lightning timestamp activity in
    check-then Q F (command_failed command) (calls.run_command command) _ (λ e. (refl, e))
      λ run_ok.
        check-then Q F (not_started name) (calls.wait_for_init name) _ (λ e. (refl, e))
          λ started.
            check-then Q F (not_written name)
              (calls.write_file name (activity_data lightning activity)) _ (λ e. (refl, e))
              λ e. (
                refl,
                refl,
                run_ok,
                started,
                e,
                read_nodes-data lightning activity,
                activity-data lightning activity,
              )
