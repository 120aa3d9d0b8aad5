-- ===== src/Commander/Pods/Missions.antt =====
-- The tanks and the Lightning nodes of `WARNET` are the pods with these missions, in order.
use erlay_warnet.Prelude.{
  if◌then◌else◌, ℕ, ◌≡◌, refl, ap, sym, if◌then◌else◌, ◌∙◌, ◌⊎◌, Bool, true, false, ◌&&◌, Option,
  none, some, List, [], ◌∷◌, ◌++◌, map, keep, Bool-cases, inl, inr,
}
use mathlib.Core.List.{append_assoc, append-nil, map-append}
use erlay_warnet.Prelude.Result.{of_option, Result, ok, err, Ends, bind-Ends, ◌>>=◌}
use erlay_warnet.Prelude.Text.{Text, codes, text_eq, text_eq→eq}
use erlay_warnet.Commander.{get_item}
use erlay_warnet.Commander.Pods.{
  type_error, add_mission, Pod, Entry, Raised, Warnet, int_of, entry_of, add_pod, add_pods,
}

abbrev pub mission_in : Option (List (Text × Text)) → Option Text
mission_in none = none
mission_in (some labels) = get_item (codes "mission") labels

abbrev pub is_named : Text → Option Text → Bool
is_named name none = false
is_named name (some t) = text_eq t name

abbrev pub has_mission : Text → Pod → Bool
has_mission mission pod = is_named mission (mission_in pod.labels)

abbrev pub is_some : {A : Type 0} → Option A → Bool
is_some none = false
is_some (some _) = true

abbrev pub is_ok : Result Raised ℕ → Bool
is_ok (err _) = false
is_ok (ok _) = true

abbrev pub is_number : Option Text → Bool
is_number none = false
is_number (some t) = is_ok (int_of t)

abbrev pub has_peers : Option (List (Text × Text)) → Bool
has_peers none = false
has_peers (some d) = is_some (get_item (codes "init_peers") d)

abbrev pub is_complete_tank : Pod → List (Text × Text) → Bool
is_complete_tank pod labels =
    is_some (get_item (codes "chain") labels)
    && (is_number (get_item (codes "RPCPort") labels)
        && (is_some (get_item (codes "rpcpassword") labels) && has_peers pod.annotations))

-- Labels that a pod needs: any, and a tank those that are read, with its annotation.
abbrev pub has_needed : Pod → Option (List (Text × Text)) → Bool
has_needed pod none = false
has_needed pod (some labels) =
    if is_named (codes "tank") (get_item (codes "mission") labels)
    then is_complete_tank pod labels
    else true

abbrev pub is_complete : Pod → Bool
is_complete pod = has_needed pod pod.labels

-- A value that is needed: without it the error has its reason, and with it the rest goes on.
module _ {A B : Type 0} (Q : B → Type 0) (F : Type 0) (e : Raised) (f : A → Result Raised B) where
  needs :
      (o : Option A)
      → (o ≡ none → F)
      → ((a : A) → o ≡ some a → Ends Q (λ _. F) (f a))
      → Ends Q (λ _. F) (of_option e o >>= f)
  needs none h k = h refl
  needs (some a) h k = k a refl

needs_number :
    {B : Type 0} (Q : B → Type 0) (F : Type 0) (r : Result Raised ℕ) (f : ℕ → Result Raised B)
    → (is_ok r ≡ false → F)
    → ((n : ℕ) → Ends Q (λ _. F) (f n))
    → Ends Q (λ _. F) (r >>= f)
needs_number Q F (ok n) f h k = k n
needs_number Q F (err e) f h k = h refl

left_false : (a b : Bool) → a ≡ false → (a && b) ≡ false
left_false a b h = ap (λ c. c && b) h

right_false : (a b : Bool) → b ≡ false → (a && b) ≡ false
right_false true b h = h
right_false false b h = refl

entry_of-tank :
    (pod : Pod) (labels : List (Text × Text))
    → Ends
        (λ (e : Entry). e.tank ≡ pod.name)
        (λ (_ : Raised). is_complete_tank pod labels ≡ false)
        (entry_of pod labels)
unfolding entry_of
entry_of-tank pod labels =
    let F = is_complete_tank pod labels ≡ false in
    let Q = λ (e : Entry). e.tank ≡ pod.name in
    let chain_of = get_item (codes "chain") labels in
    let port_of = get_item (codes "RPCPort") labels in
    let password_of = get_item (codes "rpcpassword") labels in
    let at_port = right_false (is_some chain_of) _ in
    let at_password = λ (h : is_some password_of && has_peers pod.annotations ≡ false).
      at_port (right_false (is_number port_of) _ h) in
    let at_peers = λ (h : has_peers pod.annotations ≡ false).
      at_password (right_false (is_some password_of) _ h) in
    needs Q F _ _ chain_of (λ n. left_false _ _ (ap is_some n))
      λ chain c.
        needs Q F _ _ port_of (λ n. at_port (left_false _ _ (ap is_number n)))
          λ t p.
            needs_number Q F (int_of t) _ (λ n. at_port (left_false _ _ (ap is_number p ∙ n)))
              λ port.
                needs Q F _ _ password_of (λ n. at_password (left_false _ _ (ap is_some n)))
                  λ password w.
                    needs Q F _ _ pod.annotations (λ n. at_peers (ap has_peers n))
                      λ annotations a.
                        needs Q F _ _ (get_item (codes "init_peers") annotations)
                          (λ n. at_peers (ap has_peers a ∙ ap is_some n)) λ peers _. refl

abbrev pub Lacks : List Pod → Type 0
Lacks [] = ⊥
Lacks (p ∷ ps) = (is_complete p ≡ false) ⊎ Lacks ps

abbrev names : List Pod → List Text
names = map (λ (p : Pod). p.name)

abbrev name_if : Bool → Pod → List Text
name_if true pod = pod.name ∷ []
name_if false pod = []

without : (pod : Pod) (xs : List Text) {b : Bool} → b ≡ false → xs ≡ xs ++ name_if b pod
without pod xs h = sym (append-nil xs) ∙ ap (λ b. xs ++ name_if b pod) (sym h)

with_name :
    (pod : Pod) (xs : List Text) {b : Bool} → b ≡ true → xs ++ (pod.name ∷ []) ≡ xs ++ name_if b pod
with_name pod xs h = ap (λ b. xs ++ name_if b pod) (sym h)

names-keep :
    (test : Pod → Bool) (p : Pod) (ps : List Pod)
    → names (keep test (p ∷ ps)) ≡ name_if (test p) p ++ names (keep test ps)
names-keep test p ps = elim (Bool-cases (test p)) [ inl e ↦ rw e refl | inr e ↦ rw e refl ]

join_names :
    (r x y : List Text) {l m z : List Text} → l ≡ m ++ y → m ≡ r ++ x → z ≡ x ++ y → l ≡ r ++ z
join_names r x y e f g = e ∙ ap (λ n. n ++ y) f ∙ append_assoc r x y ∙ ap (λ n. r ++ n) (sym g)

module _ {J : Type 0} where
  abbrev tank_names : Warnet J → List Text
  tank_names w = map (λ (e : Entry). e.tank) w.tanks

  -- What the pods add to the tanks and the Lightning nodes.
  abbrev pub Adds : List Pod → Warnet J → Warnet J → Type 0
  Adds pods w w' =
      (tank_names w' ≡ tank_names w ++ names (keep (has_mission (codes "tank")) pods))
      × (w'.lightning ≡ w.lightning ++ names (keep (has_mission (codes "lightning")) pods))
      × (w'.channels ≡ w.channels)

  abbrev AddsOne : Pod → Option Text → Warnet J → Warnet J → Type 0
  AddsOne pod mission w w' =
      (tank_names w' ≡ tank_names w ++ name_if (is_named (codes "tank") mission) pod)
      × (w'.lightning ≡ w.lightning ++ name_if (is_named (codes "lightning") mission) pod)
      × (w'.channels ≡ w.channels)

  add_mission-Adds :
      (pod : Pod) (labels : List (Text × Text)) (mission : Option Text) (w : Warnet J)
      → Ends
          (AddsOne pod mission w)
          (λ (_ : Raised).
            (if is_named (codes "tank") mission then is_complete_tank pod labels else true) ≡ false)
          (add_mission pod labels mission w)
  add_mission-Adds pod labels none w =
      (sym (append-nil (tank_names w)), sym (append-nil w.lightning), refl)
  add_mission-Adds pod labels (some m) w = elim (Bool-cases (text_eq m (codes "tank"))) [
    | inl t ↦
        let other : text_eq m (codes "lightning") ≡ false =
          ap (λ x. text_eq x (codes "lightning")) (text_eq→eq m (codes "tank") t) in
        rw t (
          bind-Ends (λ (e : Entry). e.tank ≡ pod.name) (AddsOne pod (some m) w)
            (λ (_ : Raised). is_complete_tank pod labels ≡ false) _ _ (entry_of-tank pod labels)
            λ entry same. (
              map-append _ w.tanks (entry ∷ [])
                  ∙ ap (λ n. tank_names w ++ (n ∷ [])) same
                  ∙ with_name pod (tank_names w) t,
              without pod w.lightning other,
              refl,
            ))
    | inr t ↦ elim (Bool-cases (text_eq m (codes "lightning"))) [
      | inl l ↦ rw (t, l) (without pod (tank_names w) t, with_name pod w.lightning l, refl)
      | inr l ↦ rw (t, l) (without pod (tank_names w) t, without pod w.lightning l, refl)
    ]
  ]

  add_pod-Adds :
      (pod : Pod) (w : Warnet J)
      → Ends
          (AddsOne pod (mission_in pod.labels) w)
          (λ (_ : Raised). is_complete pod ≡ false)
          (add_pod pod w)
  unfolding add_pod
  add_pod-Adds pod w = go pod.labels
    where
      go :
          (labels : Option (List (Text × Text)))
          → Ends
              (AddsOne pod (mission_in labels) w)
              (λ (_ : Raised). has_needed pod labels ≡ false)
              (of_option type_error labels >>= λ ls.
                add_mission pod ls (get_item (codes "mission") ls) w)
      go none = refl
      go (some ls) = add_mission-Adds pod ls (get_item (codes "mission") ls) w

  Adds-then :
      (p : Pod) (ps : List Pod) (w v : Warnet J) (r : Result Raised (Warnet J))
      → AddsOne p (mission_in p.labels) w v
      → Ends (Adds ps v) (λ (_ : Raised). Lacks ps) r
      → Ends (Adds (p ∷ ps) w) (λ (_ : Raised). Lacks (p ∷ ps)) r
  Adds-then p ps w v (err e) a h = inr h
  Adds-then p ps w v (ok u) (t, l, c) (t', l', c') = (
    join_names (tank_names w) _ _ t' t (names-keep (has_mission (codes "tank")) p ps),
    join_names w.lightning _ _ l' l (names-keep (has_mission (codes "lightning")) p ps),
    c' ∙ c,
  )

  Adds-bind :
      (p : Pod) (ps : List Pod) (w : Warnet J) (r : Result Raised (Warnet J))
      → Ends (AddsOne p (mission_in p.labels) w) (λ (_ : Raised). is_complete p ≡ false) r
      → ((v : Warnet J) → Ends (Adds ps v) (λ (_ : Raised). Lacks ps) (add_pods ps v))
      → Ends (Adds (p ∷ ps) w) (λ (_ : Raised). Lacks (p ∷ ps)) (r >>= add_pods ps)
  Adds-bind p ps w (err e) h k = inl h
  Adds-bind p ps w (ok v) a k = Adds-then p ps w v (add_pods ps v) a (k v)

  -- For all pods: where all have what they need, the tanks are the pods with the mission of a tank and the
  -- Lightning nodes those with the mission of one, by name and in order; an error is raised only where a pod
  -- has no labels, or a tank lacks one that is read, a port that is a number, or its annotation.
  pub add_pods-Adds :
      (pods : List Pod) (w : Warnet J)
      → Ends (Adds pods w) (λ (_ : Raised). Lacks pods) (add_pods pods w)
  unfolding add_pods
  add_pods-Adds [] w = (sym (append-nil (tank_names w)), sym (append-nil w.lightning), refl)
  add_pods-Adds (p ∷ ps) w = Adds-bind p ps w (add_pod p w) (add_pod-Adds p w) (add_pods-Adds ps)
