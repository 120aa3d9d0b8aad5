-- ===== src/Plugins/Simln.antt =====
-- The activities of `plugins/simln/plugin.py`: `_entrypoint`, `_get_example_activity`, `launch_activity`,
-- `_launch_activity`, `_generate_activity_json` and `_sh`.
pub mod Written
pub mod Commands
pub mod Example
use erlay_warnet.Prelude.{
  ℕ, Bool, true, false, Option, none, some, List, [], ◌∷◌, ◌++◌, map, if◌then◌else◌, get_elem?,
}
use erlay_warnet.Prelude.Int.{pos}
use erlay_warnet.Prelude.Result.{Result, ok, err, ◌>>=◌, ◌>>◌, of_option, check}
use erlay_warnet.Prelude.Text.{Text, codes, decimal}
use erlay_warnet.Prelude.Json.{
  Json, null, number, text, array, object, Items, no_items, item, Fields, no_fields, field, is_true,
  get_field, value_or_null, fields_of, text_of,
}
use erlay_warnet.Plugins.{Hook, Constants, PluginError, bad_json, type_error, entrypoint}

-- The value of `PluginContent`.
abbrev pub activity_key : Text
activity_key = codes "activity"

-- The access details of a Lightning node.
unfoldable pub node_of : (name : Text) → Json
node_of name = object (
    field (codes "id") (text name) (
      field (codes "address") (text (codes "https://" ++ name ++ codes ":10009")) (
        field (codes "macaroon") (text (codes "/working/admin.macaroon"))
          (field (codes "cert") (text (codes "/working/tls.cert")) no_fields))))

abbrev pub nodes_of : List Text → Items
nodes_of [] = no_items
nodes_of (name ∷ names) = item (node_of name) (nodes_of names)

-- The data of `_generate_activity_json`, before `json.dumps`; an activity that is false is left out.
unfoldable pub activity_data : (lightning : List Text) → (activity : Json) → Json
unfolding node_of is_true
activity_data lightning activity = object (
    field (codes "nodes") (array (nodes_of lightning))
      (if is_true activity then field activity_key activity no_fields else no_fields))

abbrev pub example_between : (pod_a pod_b : Text) → Json
example_between pod_a pod_b = array (
    item
      (object (
        field (codes "source") (text pod_a) (
          field (codes "destination") (text pod_b) (
            field (codes "interval_secs") (number (pos 1))
              (field (codes "amount_msat") (number (pos 2000)) no_fields)))))
      no_items)

-- The pod at 1 pays the pod at 2; `none` is the `PluginError` where there are fewer.
unfoldable pub example_activity : (lightning : List Text) → Option Json
example_activity lightning = elim (get_elem? lightning 1) [
  | none ↦ none
  | some a ↦ elim (get_elem? lightning 2) [ none ↦ none | some b ↦ some (example_between a b) ]
]

-- What a launch does: the command that is run, the pod that is waited for, and what is written there.
pub record Launch : Type 0 where
  pub command : Text
  pub name : Text
  pub written : Json

pub data LaunchError : Type 0 where
  plugin_error : PluginError → LaunchError
  bad_argument : LaunchError
  command_failed : (command : Text) → LaunchError
  not_started : (name : Text) → LaunchError
  not_written : (name : Text) → LaunchError

abbrev lift_error : {A : Type 0} → Result PluginError A → Result LaunchError A
lift_error (ok a) = ok a
lift_error (err e) = err (plugin_error e)

-- The calls of the warnet package: whether `run_command` returns, which raises where the command fails,
-- whether `wait_for_init` returns, whose value is not used, and what `write_file_to_container` returns, by
-- the pod's name and the data.
pub record Calls : Type 0 where
  pub run_command : (command : Text) → Bool
  pub wait_for_init : (pod : Text) → Bool
  pub write_file : (pod : Text) → Json → Bool

module _ (calls : Calls) (plugin_dir : Text) (lightning : List Text) where
  abbrev pub helm_command : (timestamp : ℕ) → Text
  helm_command timestamp =
      codes "helm upgrade --install "
      ++ decimal timestamp
      ++ codes " "
      ++ plugin_dir
      ++ codes "/charts/simln"

  unfoldable pub launch : (timestamp : ℕ) → (activity : Json) → Result LaunchError Launch
  unfolding activity_data
  launch timestamp activity = do
    let name = codes "simln-" ++ decimal timestamp
    let command = helm_command timestamp
    check (calls.run_command command) (command_failed command)
    let data_of = activity_data lightning activity
    check (calls.wait_for_init name) (not_started name)
    check (calls.write_file name data_of) (not_written name)
    ok (record { command = command; name = name; written = data_of })

  -- The command of the line: the activity is a JSON text.
  unfoldable pub launch_activity :
      (loads : Text → Option Json) → (timestamp : ℕ) → (activity : Text) → Result LaunchError Launch
  unfolding launch
  launch_activity loads timestamp activity = do
    parsed ← of_option bad_argument (loads activity)
    launch timestamp parsed

  -- `plugin_content.get("activity")`, parsed where it is true; only a text can be.
  abbrev pub read_activity : (loads : Text → Option Json) → Json → Result PluginError Json
  read_activity loads activity =
      if is_true activity
      then (do t ← of_option type_error (text_of activity); of_option bad_json (loads t))
      else ok activity

  unfoldable pub simln :
      (k : Constants)
      → (loads : Text → Option Json) → (timestamp : ℕ) → (plugin_content warnet_content : Text)
      → Result LaunchError Launch
  unfolding entrypoint launch get_field is_true
  simln k loads timestamp plugin_content warnet_content = do
    (plugin, _, _) ← lift_error (entrypoint k loads plugin_content warnet_content)
    fields ← lift_error (of_option type_error (fields_of plugin))
    activity ← lift_error (read_activity loads (value_or_null (get_field activity_key fields)))
    launch timestamp activity

-- The answer of the stream at each update, while it is open: what `peek` and `read` find. `none` is an
-- exception.
pub record Chunk : Type 0 where
  pub stdout : Option Text
  pub stderr : Option Text

abbrev chunk_text : Option Text → Text
chunk_text none = []
chunk_text (some t) = t

-- The loop of `_sh`, on what is read so far.
unfoldable pub read_chunks : List (Option Chunk) → (stdout stderr : Text) → Option Text
read_chunks [] stdout stderr = some (stdout ++ stderr)
read_chunks (none ∷ chunks) stdout stderr = none
read_chunks (some c ∷ chunks) stdout stderr =
    read_chunks chunks (stdout ++ chunk_text c.stdout) (stderr ++ chunk_text c.stderr)

-- By the command, the stream that `connect_get_namespaced_pod_exec` opens.
unfoldable pub sh :
    (open_stream : List Text → Option (List (Option Chunk)))
    → (method : Text) → (params : List Text) → Option Text
unfolding read_chunks
sh open_stream method params = elim (open_stream (method ∷ params)) [
  | none ↦ none
  | some chunks ↦ read_chunks chunks [] []
]
