-- ===== src/Plugins/Simln/Commands.antt =====
-- The commands of `plugins/simln/plugin.py`, as click calls them: their names are those of its functions.
use erlay_warnet.Prelude.{ℕ, Option, none, some, List, [], ◌∷◌, ◌++◌}
use erlay_warnet.Prelude.Result.{Result, ok, err, ◌>>=◌, of_option}
use erlay_warnet.Prelude.Text.{Text, codes}
use erlay_warnet.Prelude.Json.{Json, text, array, Items, no_items, item}
use erlay_warnet.Plugins.{Constants}
use erlay_warnet.Plugins.Simln.{
  example_activity, Launch, LaunchError, Calls, launch_activity, simln, Chunk, sh,
}

-- `MISSION`
abbrev pub mission : Text
mission = codes "simln"

-- The cluster, the clock and `json`, as the commands use them. `none` is an exception.
pub record Cluster : Type 0 where
  pub get_mission : (mission : Text) → List Text
  pub download : (pod source_path : Text) → Option Text
  pub calls : Calls
  pub open_stream : (pod : Text) → (command : List Text) → Option (List (Option Chunk))
  pub time : ℕ
  pub loads : Text → Option Json
  pub dumps : Json → Text
  pub str : Json → Text

pub data Command : Type 0 where
  entrypoint_command : (plugin_content warnet_content : Text) → Command
  list_pod_names : Command
  download_results : (pod_name : Text) → Command
  get_example_activity : Command
  launch_activity_command : (activity : Text) → Command
  sh_command : (pod method : Text) → (params : List Text) → Command

-- What a command has done: a launch, whose name `launch_activity` prints, or what it has printed. That the
-- entrypoint prints its activity first is left out.
pub data Output : Type 0 where
  launched : Launch → Output
  printed : Text → Output

pub data CommandError : Type 0 where
  launch_failed : LaunchError → CommandError
  not_downloaded : CommandError
  -- The `PluginError` of `_get_example_activity`.
  no_lightning_nodes : CommandError

abbrev pub or_launch_failed : Result LaunchError Launch → Result CommandError Output
or_launch_failed (ok l) = ok (launched l)
or_launch_failed (err e) = err (launch_failed e)

abbrev pub names_of : List Text → Items
names_of [] = no_items
names_of (name ∷ names) = item (text name) (names_of names)

-- `print` of what `_sh` returns: after an exception it returns `None`.
abbrev pub shown_output : Option Text → Text
shown_output none = codes "None"
shown_output (some t) = t

module _ (k : Constants) (lightning_mission plugin_dir : Text) (c : Cluster) where
  abbrev lightning : List Text
  lightning = c.get_mission lightning_mission

  unfoldable pub run : Command → Result CommandError Output
  unfolding simln example_activity launch_activity sh
  run (entrypoint_command plugin_content warnet_content) =
      or_launch_failed
        (simln c.calls plugin_dir lightning k c.loads c.time plugin_content warnet_content)
  run list_pod_names = ok (printed (c.str (array (names_of (c.get_mission mission)))))
  run (download_results pod_name) = do
    dest ← of_option not_downloaded (c.download pod_name (codes "/working/results"))
    ok (printed (codes "Downloaded results to: " ++ dest))
  run get_example_activity = do
    activity ← of_option no_lightning_nodes (example_activity lightning)
    ok (printed (c.dumps activity))
  run (launch_activity_command activity) =
      or_launch_failed (launch_activity c.calls plugin_dir lightning c.loads c.time activity)
  run (sh_command pod method params) =
      ok (printed (shown_output (sh (c.open_stream pod) method params)))
