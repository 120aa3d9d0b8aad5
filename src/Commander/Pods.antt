-- ===== src/Commander/Pods.antt =====
-- `WARNET` of `scenarios/commander.py`: what the pods and the config maps of the cluster name.
use mathlib.Core.List.{reverse}
use erlay_warnet.Prelude.Int.{ℤ, pos, ◌-ℤ◌}
use erlay_warnet.Prelude.{
  ℕ, ◌+◌, ◌-◌, ◌*◌, Bool, true, false, ◌&&◌, ◌||◌, Option, none, some, List, [], ◌∷◌, ◌++◌, leb,
  ◌==◌, if◌then◌else◌,
}
use erlay_warnet.Prelude.Result.{of_option, Result, ok, err, ◌>>=◌}
use erlay_warnet.Prelude.Text.{Text, codes, text_eq}
use erlay_warnet.Commander.{get_item, set_item}
pub mod Missions

-- The address is that of a pod that has one.
pub record Pod : Type 0 where
  pub name : Text
  pub pod_ip : Text
  pub labels : Option (List (Text × Text))
  pub annotations : Option (List (Text × Text))

pub record ConfigMap : Type 0 where
  pub labels : Option (List (Text × Text))
  pub data_of : List (Text × Text)

-- What the calls of the Kubernetes client answer, `none` where one raises; `namespace` is `none` outside a
-- cluster.
pub record Cluster : Type 0 where
  pub namespace : Option Text
  pub all_pods : Option (List Pod)
  pub all_maps : Option (List ConfigMap)
  pub namespaced_pods : Text → Option (List Pod)
  pub namespaced_maps : Text → Option (List ConfigMap)

pub record Listed : Type 0 where
  pub pods : List Pod
  pub cmaps : List ConfigMap

abbrev list_namespaced : Cluster → Text → List Pod → Listed
list_namespaced c ns before = elim (c.namespaced_pods ns) [
  | none ↦ record { pods = before; cmaps = [] }
  | some ps ↦ elim (c.namespaced_maps ns) [
    | none ↦ record { pods = ps; cmaps = [] }
    | some ms ↦ record { pods = ps; cmaps = ms }
  ]
]

-- All namespaces, or this one; where a call of the second kind raises too, what was listed before stays.
unfoldable pub list_cluster : Cluster → Listed
list_cluster c = elim c.namespace [
  | none ↦ record { pods = []; cmaps = [] }
  | some ns ↦ elim c.all_pods [
    | none ↦ list_namespaced c ns []
    | some ps ↦ elim c.all_maps [
      | none ↦ list_namespaced c ns ps
      | some ms ↦ record { pods = ps; cmaps = ms }
    ]
  ]
]

-- The errors that are raised over an entry that is not there, or is no number.
pub data Raised : Type 0 where
  type_error value_error : Raised
  key_error : Text → Raised

abbrev pub item : Text → List (Text × Text) → Result Raised Text
item key d = of_option (key_error key) (get_item key d)

abbrev digits : (acc : ℕ) (after_digit : Bool) → Text → Option ℕ
digits acc true [] = some acc
digits acc false [] = none
digits acc after_digit (c ∷ t) =
    let more = digits (acc * 10 + (c - 48)) true t in
    let next = digits acc false t in
    if leb 48 c && leb c 57 then more else if (c == 95) && after_digit then next else none

-- `int` of a text that begins and ends with a letter or a digit, as the values of labels do.
unfoldable pub int_of : Text → Result Raised ℕ
int_of t = of_option value_error (digits 0 false t)

-- White space of ASCII, as `int` drops it around a number.
abbrev is_blank : ℕ → Bool
is_blank c = (c == 32) || (leb 9 c && leb c 13)

unfoldable pub without_blanks : Text → Text
without_blanks [] = []
without_blanks (c ∷ t) = let rest = without_blanks t in if is_blank c then rest else c ∷ t

unfoldable pub stripped : Text → Text
unfolding without_blanks
stripped t = reverse (without_blanks (reverse (without_blanks t)))

abbrev negated : ℕ → ℤ
negated n = pos 0 -ℤ pos n

abbrev signed : (ℕ → ℤ) → Result Raised ℕ → Result Raised ℤ
signed sign (ok n) = ok (sign n)
signed sign (err e) = err e

abbrev with_sign : Text → Result Raised ℤ
with_sign [] = err value_error
with_sign (c ∷ t) =
    if c == 45
    then signed negated (int_of t)
    else if c == 43
    then signed pos (int_of t)
    else signed pos (int_of (c ∷ t))

-- `int` of any text: digits of ASCII, with a sign or none, and white space around them.
unfoldable pub int_text : Text → Result Raised ℤ
unfolding int_of stripped ◌-ℤ◌
int_text t = with_sign (stripped t)

-- An entry of `WARNET["tanks"]`.
pub record Entry : Type 0 where
  pub tank : Text
  pub chain : Text
  pub rpc_host : Text
  pub rpc_port : ℕ
  pub rpc_user : Text
  pub rpc_password : Text
  pub init_peers : Text

abbrev entry_with : Pod → (chain : Text) (port : ℕ) (password peers : Text) → Entry
entry_with pod chain port password peers = record {
  tank = pod.name;
  chain = chain;
  rpc_host = pod.pod_ip;
  rpc_port = port;
  rpc_user = codes "user";
  rpc_password = password;
  init_peers = peers;
}

unfoldable pub entry_of : Pod → List (Text × Text) → Result Raised Entry
unfolding int_of get_item
entry_of pod labels = do
  chain ← item (codes "chain") labels
  port_text ← item (codes "RPCPort") labels
  port ← int_of port_text
  password ← item (codes "rpcpassword") labels
  annotations ← of_option type_error pod.annotations
  peers ← item (codes "init_peers") annotations
  ok (entry_with pod chain port password peers)

-- `WARNET`, with the channels as dictionaries of JSON values.
pub record Warnet (J : Type 0) : Type 0 where
  pub tanks : List Entry
  pub lightning : List Text
  pub channels : List (List (Text × J))

module _ {J : Type 0} where
  abbrev pub add_mission :
      Pod → List (Text × Text) → Option Text → Warnet J → Result Raised (Warnet J)
  add_mission pod labels none w = ok w
  add_mission pod labels (some mission) w =
      if text_eq mission (codes "tank")
      then (do entry ← entry_of pod labels; ok (record w { tanks = w.tanks ++ (entry ∷ []) }))
      else if text_eq mission (codes "lightning")
      then ok (record w { lightning = w.lightning ++ (pod.name ∷ []) })
      else ok w

  unfoldable pub add_pod : Pod → Warnet J → Result Raised (Warnet J)
  unfolding entry_of get_item
  add_pod pod w = do
    labels ← of_option type_error pod.labels
    add_mission pod labels (get_item (codes "mission") labels) w

  unfoldable pub add_pods : List Pod → Warnet J → Result Raised (Warnet J)
  unfolding add_pod
  add_pods [] w = ok w
  add_pods (pod ∷ pods) w = add_pod pod w >>= add_pods pods

  module _ (loads : Text → Option (List (List (Text × J)))) (str : Text → J) where
    unfoldable pub with_source :
        List (Text × Text) → List (List (Text × J)) → Result Raised (List (List (Text × J)))
    unfolding get_item set_item
    with_source d [] = ok []
    with_source d (channel ∷ channels) = do
      source ← item (codes "source") d
      rest ← with_source d channels
      ok (set_item (codes "source") (str source) channel ∷ rest)

    abbrev is_channel_map : Option (List (Text × Text)) → Bool
    is_channel_map none = false
    is_channel_map (some labels) = elim (get_item (codes "channels") labels) [
      | none ↦ false
      | some _ ↦ true
    ]

    abbrev read_map : List (Text × Text) → Result Raised (List (List (Text × J)))
    read_map d = do
      t ← item (codes "channels") d
      channels ← of_option value_error (loads t)
      with_source d channels

    unfoldable pub add_maps : List ConfigMap → Warnet J → Result Raised (Warnet J)
    unfolding with_source get_item
    add_maps [] w = ok w
    add_maps (cm ∷ cmaps) w =
        let rest = add_maps cmaps in
        if is_channel_map cm.labels
        then (do
          channels ← read_map cm.data_of
          rest (record w { channels = w.channels ++ channels }))
        else rest w

    -- The top level of the file.
    unfoldable pub read_cluster : Cluster → Result Raised (Warnet J)
    unfolding list_cluster add_pods add_maps
    read_cluster c = do
      let listed = list_cluster c
      w ← add_pods listed.pods (record { tanks = []; lightning = []; channels = [] })
      add_maps listed.cmaps w
