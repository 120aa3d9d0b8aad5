-- ===== src/Plugins/Tests.antt =====
-- Contents of plugins with few constants, and the theorems at them.
use erlay_warnet.Prelude.{
  Bool-cases, inl, inr, ◌==◌, ==→eq, ◌≡◌, refl, Bool, true, false, Option, none, some, List, [],
  ◌∷◌, ◌++◌, if◌then◌else◌,
}
use erlay_warnet.Prelude.Result.{Ends, ok, err}
use erlay_warnet.Prelude.Text.{decimal, Text, codes, text_eq, text_eq→eq}
use erlay_warnet.Prelude.Json.{
  Json, null, text, array, object, item, no_items, Fields, no_fields, field,
}
use erlay_warnet.Plugins.{
  Hook, other_hook, Constants, IsEnumeration, PluginError, invalid_hook, entrypoint,
}
use erlay_warnet.Plugins.Validated.{IsAccepted, entrypoint-IsAccepted}
use erlay_warnet.Plugins.Hello.{hello}
use erlay_warnet.Plugins.Simln.{Calls, command_failed, launch, sh, Chunk, example_activity}
use erlay_warnet.Plugins.Simln.Written.{IsWritten, IsUnwritten, launch-IsWritten}
use erlay_warnet.Plugins.Simln.{example_between}
use erlay_warnet.Plugins.Simln.Commands.{
  Cluster, run, sh_command, download_results, printed, not_downloaded,
}
use erlay_warnet.Plugins.Simln.Example.{IsExampleOf, run-example}

abbrev value_of : Hook → Text
value_of Hook.pre_network = codes "preNetwork"
value_of Hook.post_network = codes "postNetwork"
value_of Hook.pre_deploy = codes "preDeploy"
value_of Hook.post_deploy = codes "postDeploy"
value_of Hook.pre_node = codes "preNode"
value_of Hook.post_node = codes "postNode"
value_of (Hook.other_hook t) = 47 ∷ t

abbrev others : Text → Option Hook
others [] = none
others (c ∷ t) = if c == 47 then some (other_hook t) else none

abbrev hook_of : Text → Option Hook
hook_of t =
    if text_eq t (codes "preNetwork")
    then some Hook.pre_network
    else if text_eq t (codes "postNetwork")
    then some Hook.post_network
    else if text_eq t (codes "preDeploy")
    then some Hook.pre_deploy
    else if text_eq t (codes "postDeploy")
    then some Hook.post_deploy
    else if text_eq t (codes "preNode")
    then some Hook.pre_node
    else if text_eq t (codes "postNode")
    then some Hook.post_node
    else others t

abbrev constants : Constants
constants = record {
  hook_value = codes "hook_value";
  plugin_annex = codes "annex";
  hook_of = hook_of;
  value_of = value_of;
  annex_members = codes "node_name" ∷ [];
  node_name = codes "node_name";
}

member_of_value : (h : Hook) → hook_of (value_of h) ≡ some h
member_of_value Hook.pre_network = refl
member_of_value Hook.post_network = refl
member_of_value Hook.pre_deploy = refl
member_of_value Hook.post_deploy = refl
member_of_value Hook.pre_node = refl
member_of_value Hook.post_node = refl
member_of_value (Hook.other_hook t) = refl

value_of_other : (t : Text) (h : Hook) → others t ≡ some h → value_of h ≡ t
value_of_other [] h e = cc
value_of_other (c ∷ t) h e = elim (Bool-cases (c == 47)) [
  | inl y ↦ slash y (rw y at e)
  | inr n ↦ never (rw n at e)
]
  where
    slash : (c == 47) ≡ true → some (other_hook t) ≡ some h → value_of h ≡ c ∷ t
    slash y e = let same : other_hook t ≡ h = cc in rw (← same, ==→eq c 47 y) refl

    never : ◌≡◌ {A = Option Hook} none (some h) → value_of h ≡ c ∷ t
    never e = cc

case_member :
    (name t : Text) (first : Hook) (rest : Option Hook) (h : Hook)
    → value_of first ≡ name
    → (rest ≡ some h → value_of h ≡ t)
    → (if text_eq t name then some first else rest) ≡ some h
    → value_of h ≡ t
case_member name t first rest h v k e = elim (Bool-cases (text_eq t name)) [
  | inl y ↦ here y (rw y at e)
  | inr n ↦ k (rw n at e)
]
  where
    here : text_eq t name ≡ true → some first ≡ some h → value_of h ≡ t
    here y d =
        let same : first ≡ h = cc in
        let equal : t ≡ name = text_eq→eq t name y in rw (← same, equal) v

constants-IsEnumeration : IsEnumeration constants
constants-IsEnumeration = record {
  member_of_value = member_of_value;
  value_of_member = λ t h. case_member _ t Hook.pre_network _ h refl (
      case_member _ t Hook.post_network _ h refl (
        case_member _ t Hook.pre_deploy _ h refl (
          case_member _ t Hook.post_deploy _ h refl (
            case_member _ t Hook.pre_node _ h refl
              (case_member _ t Hook.post_node _ h refl (value_of_other t h))))));
}

-- Three texts, of which the last two are read: a node's annex, and an empty plugin content.
abbrev node_content : Fields
node_content = field (codes "hook_value") (text (codes "preNode")) (
    field (codes "annex") (object (field (codes "node_name") (text (codes "tank-0000")) no_fields))
      no_fields)

abbrev loads : Text → Option Json
loads t =
    if text_eq t (codes "node")
    then some (object node_content)
    else if text_eq t (codes "{}")
    then some (object no_fields)
    else none

entrypoint-IsAccepted_example :
    Ends
      (IsAccepted constants constants-IsEnumeration loads (codes "{}") (codes "node"))
      (λ (_ : PluginError).
        (r : Json × Fields × Hook)
        → IsAccepted constants constants-IsEnumeration loads (codes "{}") (codes "node") r
        → ⊥)
      (entrypoint constants loads (codes "{}") (codes "node"))
entrypoint-IsAccepted_example =
    entrypoint-IsAccepted constants constants-IsEnumeration loads (codes "{}") (codes "node")

hello_run :
    hello constants (λ _. []) (codes "/plugins/hello") loads (codes "{}") (codes "node")
    ≡ ok (
        some (
          codes
            "helm upgrade --install prenode-tank-0000-pre-hello-pod /plugins/hello/charts/hello --set podName=tank-0000-pre-hello-pod --set helloTo=World!"))
unfolding hello
hello_run = refl

-- A content without a hook value is refused over the value `None`.
hello_refused :
    hello constants (λ _. []) [] loads (codes "node") (codes "{}") ≡ err (invalid_hook null)
unfolding hello
hello_refused = refl

abbrev accepts : Text → Json → Bool
accepts name data_of = true

abbrev two_pods : List Text
two_pods = codes "tank-0000-ln" ∷ codes "tank-0001-ln" ∷ []

abbrev calls : Calls
calls = record { run_command = λ _. true; wait_for_init = λ _. true; write_file = accepts }

launch-IsWritten_example :
    Ends
      (IsWritten calls (codes "/plugins/simln") two_pods 17 (array no_items))
      (IsUnwritten calls (codes "/plugins/simln") two_pods 17 (array no_items))
      (launch calls (codes "/plugins/simln") two_pods 17 (array no_items))
launch-IsWritten_example =
    launch-IsWritten calls (codes "/plugins/simln") two_pods 17 (array no_items)

-- A helm command that fails ends the launch before anything is written.
launch_unhelmed :
    launch (record calls { run_command = λ _. false }) [] two_pods 7 null
    ≡ err (command_failed (codes "helm upgrade --install 7 /charts/simln"))
unfolding launch decimal
launch_unhelmed = refl

example_short : example_activity two_pods ≡ none
unfolding example_activity
example_short = refl

-- The output of a command: all of its standard output comes before its errors.
abbrev chunk : Option Text → Option Text → Option Chunk
chunk out error = some (record { stdout = out; stderr = error })

sh_run :
    sh
      (λ _. some (
        chunk (some (codes "a")) (some (codes "!"))
        ∷ chunk none none
        ∷ chunk (some (codes "b")) none
        ∷ []))
      (codes "ls")
      []
    ≡ some (codes "ab!")
unfolding sh
sh_run = refl

-- A `json` that is kept to one payment: the names of its two nodes, with a 0 between them.
abbrev names_cut : Text → Text × Text
names_cut [] = ([], [])
names_cut (c ∷ t) = let cut = names_cut t in if c == 0 then ([], t) else (c ∷ cut.0, cut.1)

abbrev dumps_payment : Json → Text
dumps_payment (array (item (object (field _ (text a) (field _ (text b) _))) _)) = a ++ (0 ∷ b)
dumps_payment _ = []

abbrev loads_payment : Text → Option Json
loads_payment t = let cut = names_cut t in some (example_between cut.0 cut.1)

abbrev three_pods : List Text
three_pods = codes "tank-0000-ln" ∷ codes "tank-0001-ln" ∷ codes "tank-0002-ln" ∷ []

abbrev cluster : Cluster
cluster = record {
  get_mission = λ m. if text_eq m (codes "lightning") then three_pods else [];
  download = λ pod path. none;
  calls = calls;
  open_stream = λ pod command. none;
  time = 17;
  loads = loads_payment;
  dumps = dumps_payment;
  str = λ _. [];
}

loads_example :
    (j : Json) → example_activity three_pods ≡ some j → loads_payment (dumps_payment j) ≡ some j
unfolding example_activity
loads_example j e =
    let same : example_between (codes "tank-0001-ln") (codes "tank-0002-ln") ≡ j = cc in
    rw (← same) refl

run-example_example :
    IsExampleOf constants (codes "lightning") (codes "/plugins/simln") cluster three_pods
run-example_example =
    run-example constants (codes "lightning") (codes "/plugins/simln") cluster loads_example

-- Where the shell of a pod raises, the word `None` is printed; results that are not there end the command.
sh_command_raised :
    run constants (codes "lightning") [] cluster (sh_command (codes "simln-17") (codes "ls") [])
    ≡ ok (printed (codes "None"))
unfolding run sh
sh_command_raised = refl

download_raised :
    run constants (codes "lightning") [] cluster (download_results (codes "simln-17"))
    ≡ err not_downloaded
unfolding run
download_raised = refl
