-- ===== src/Plugins.antt =====
-- `entrypoint` of `plugins/hello/plugin.py` and `plugins/simln/plugin.py`, which is the same code in both.
-- The constants of the `warnet` package are a parameter.
pub mod Validated
pub mod Hello
pub mod Simln
mod Tests
use erlay_warnet.Prelude.{
  ◌≡◌, ℕ, suc, Bool, true, false, not, Option, none, some, List, [], ◌∷◌, ◌==◌, if◌then◌else◌,
}
use erlay_warnet.Prelude.Int.{ℤ, pos, negsuc}
use erlay_warnet.Prelude.Result.{Result, ok, err, ◌>>=◌, ◌>>◌, check, of_option}
use erlay_warnet.Prelude.Json.{
  Json, null, boolean, number, text, array, object, Items, no_items, item, Fields, no_fields, field,
  is_true, get_field, value_or_null, keys, elements, characters, fields_of, text_of,
}
use erlay_warnet.Prelude.Text.{Text, text_eq, has_text}

-- The hooks at which Warnet calls a plugin; the package may have more.
pub data Hook : Type 0 where
  pre_network post_network pre_deploy post_deploy pre_node post_node : Hook
  other_hook : Text → Hook

-- `WarnetContent.HOOK_VALUE.value`, `PLUGIN_ANNEX`, the values of `HookValue` and of `AnnexMember`.
pub record Constants : Type 0 where
  pub hook_value : Text
  pub plugin_annex : Text
  pub hook_of : Text → Option Hook
  pub value_of : Hook → Text
  pub annex_members : List Text
  pub node_name : Text

-- An enumeration gives the member of each of its values, and no other.
pub record IsEnumeration (k : Constants) : Type 0 where
  pub member_of_value : (h : Hook) → k.hook_of (k.value_of h) ≡ some h
  pub value_of_member : (t : Text) (h : Hook) → k.hook_of t ≡ some h → k.value_of h ≡ t

-- Exceptions of the interpreter, and the assertions.
pub data PluginError : Type 0 where
  bad_json type_error : PluginError
  key_error : Text → PluginError
  invalid_hook invalid_annex : Json → PluginError

-- A value that can be looked up in a set: dictionaries and lists raise there.
abbrev pub is_hashable : Json → Bool
is_hashable (array _) = false
is_hashable (object _) = false
is_hashable _ = true

-- `iter(value)`
abbrev pub iterated : Json → Option (List Json)
iterated (object fs) = some (keys fs)
iterated (array js) = some (elements js)
iterated (text t) = some (characters t)
iterated _ = none

module _ (k : Constants) where
  abbrev pub is_member : Json → Bool
  is_member (text t) = has_text t k.annex_members
  is_member _ = false

  abbrev pub hook_in : Json → Option Hook
  hook_in (text t) = k.hook_of t
  hook_in _ = none

  -- `HookValue(hook_value)` after its assertion.
  abbrev pub read_hook : Json → Result PluginError Hook
  read_hook j = do check (is_hashable j) type_error; of_option (invalid_hook j) (hook_in j)

  unfoldable pub check_annex : List Json → Result PluginError (Unit {0})
  check_annex [] = ok tt
  check_annex (j ∷ js) = do
    check (is_hashable j) type_error
    check (is_member j) (invalid_annex j)
    check_annex js

  abbrev pub check_annex_of : Json → Result PluginError (Unit {0})
  check_annex_of annex =
      if is_true annex then of_option type_error (iterated annex) >>= check_annex else ok tt

  -- The two contents, the hook in its member's form.
  unfoldable pub entrypoint :
      (loads : Text → Option Json)
      → (plugin_content warnet_content : Text) → Result PluginError (Json × Fields × Hook)
  unfolding check_annex get_field is_true
  entrypoint loads plugin_content warnet_content = do
    plugin ← of_option bad_json (loads plugin_content)
    warnet ← of_option bad_json (loads warnet_content)
    fields ← of_option type_error (fields_of warnet)
    hook ← read_hook (value_or_null (get_field k.hook_value fields))
    check_annex_of (value_or_null (get_field k.plugin_annex fields))
    ok (plugin, fields, hook)
