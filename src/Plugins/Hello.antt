-- ===== src/Plugins/Hello.antt =====
-- `_entrypoint`, `get_data` and `_launch_pod` of `plugins/hello/plugin.py`. The result is the command that
-- is run, and none where the hook is not one of the plugin's.
use erlay_warnet.Prelude.{◌+◌, ◌&&◌, Option, none, some, ◌++◌, map, leb, if◌then◌else◌}
use erlay_warnet.Prelude.Result.{Result, ok, ◌>>=◌, of_option}
use erlay_warnet.Prelude.Text.{Text, codes}
use erlay_warnet.Prelude.Json.{
  Json, text, Fields, is_true, get_field, value_or_null, fields_of, text_of,
}
use erlay_warnet.Plugins.{
  Hook, pre_network, post_network, pre_deploy, post_deploy, pre_node, post_node, other_hook,
  Constants, PluginError, type_error, key_error, entrypoint,
}

-- `str.lower` on the letters of ASCII.
abbrev pub lower : Text → Text
lower t = map (λ c. if leb 65 c && leb c 90 then c + 32 else c) t

-- The values of `PluginContent`.
abbrev pub pod_name_key : Text
pod_name_key = codes "podName"

abbrev pub hello_to_key : Text
hello_to_key = codes "helloTo"

-- The entries of `data` that are there; both missing is `None`.
pub record Data : Type 0 where
  pub pod_name : Option Json
  pub hello_to : Option Json

abbrev pub if_true : Json → Option Json
if_true j = if is_true j then some j else none

unfoldable pub get_data : Fields → Data
unfolding get_field is_true
get_data plugin_content = record {
  pod_name = if_true (value_or_null (get_field pod_name_key plugin_content));
  hello_to = if_true (value_or_null (get_field hello_to_key plugin_content));
}

module _ (k : Constants) (str : Json → Text) (plugin_dir : Text) where
  -- The `f"..."` of a value: a text stands for itself.
  abbrev shown : (default : Text) → Option Json → Text
  shown default none = default
  shown default (some (text t)) = t
  shown default (some j) = str j

  unfoldable pub launch_pod : (install_name : Text) → (pod_name hello_to : Option Json) → Text
  launch_pod install_name pod_name hello_to =
      codes "helm upgrade --install "
      ++ install_name
      ++ codes " "
      ++ plugin_dir
      ++ codes "/charts/hello --set podName="
      ++ shown (codes "hello-pod") pod_name
      ++ codes " --set helloTo="
      ++ shown (codes "World!") hello_to

  abbrev launch_with : Hook → Data → Text
  launch_with hook data_of =
      launch_pod (lower (k.value_of hook) ++ codes "-hello") data_of.pod_name data_of.hello_to

  -- `warnet_content[PLUGIN_ANNEX][AnnexMember.NODE_NAME.value] + suffix`
  unfoldable pub node_pod_name : Fields → (suffix : Text) → Result PluginError Text
  unfolding get_field
  node_pod_name warnet_content suffix = do
    annex ← of_option (key_error k.plugin_annex) (get_field k.plugin_annex warnet_content)
    members ← of_option type_error (fields_of annex)
    name ← of_option (key_error k.node_name) (get_field k.node_name members)
    t ← of_option type_error (text_of name)
    ok (t ++ suffix)

  abbrev launch_node_pod : Hook → Text → Text
  launch_node_pod hook name =
      launch_pod (lower (k.value_of hook) ++ codes "-" ++ name) (some (text name)) none

  -- `plugin_content.get` raises unless it is a dictionary.
  abbrev launch_network_pod : Hook → Json → Result PluginError (Option Text)
  launch_network_pod hook plugin_content = do
    fields ← of_option type_error (fields_of plugin_content)
    ok (some (launch_with hook (get_data fields)))

  abbrev launch_at_node : Hook → Fields → (suffix : Text) → Result PluginError (Option Text)
  launch_at_node hook warnet_content suffix = do
    name ← node_pod_name warnet_content suffix
    ok (some (launch_node_pod hook name))

  unfoldable pub on_hook : Json → Fields → Hook → Result PluginError (Option Text)
  unfolding get_data launch_pod node_pod_name
  on_hook plugin_content warnet_content pre_network = launch_network_pod pre_network plugin_content
  on_hook plugin_content warnet_content post_network =
      launch_network_pod post_network plugin_content
  on_hook plugin_content warnet_content pre_deploy = launch_network_pod pre_deploy plugin_content
  on_hook plugin_content warnet_content post_deploy = launch_network_pod post_deploy plugin_content
  on_hook plugin_content warnet_content pre_node =
      launch_at_node pre_node warnet_content (codes "-pre-hello-pod")
  on_hook plugin_content warnet_content post_node =
      launch_at_node post_node warnet_content (codes "-post-hello-pod")
  on_hook plugin_content warnet_content (other_hook _) = ok none

  unfoldable pub hello :
      (loads : Text → Option Json)
      → (plugin_content warnet_content : Text) → Result PluginError (Option Text)
  unfolding entrypoint on_hook
  hello loads plugin_content warnet_content = do
    (plugin, fields, hook) ← entrypoint k loads plugin_content warnet_content
    on_hook plugin fields hook
