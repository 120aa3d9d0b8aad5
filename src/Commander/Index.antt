-- ===== src/Commander/Index.antt =====
-- The nodes of `setup` stand at their index, and are found by their tank's name.
use erlay_warnet.Prelude.{
  ℕ, zero, suc, ◌+◌, ◌≡◌, refl, ap, ◌∙◌, sym, arith, inl, inr, false, some, List, [], ◌∷◌, ◌++◌,
  if◌then◌else◌, Bool-cases, All, get_elem?,
}
use mathlib.Core.List.{append_assoc, append-nil}
use erlay_warnet.Prelude.Text.{Text, text_eq, text_eq→eq, text_eq_refl}
use erlay_warnet.Commander.{
  TankInfo, Node, Nodes, set_item, get_item, node_of, add_tanks, setup_nodes,
}

pub get_item-set_item_same :
    {A : Type 0} (key : Text) (value : A) (d : List (Text × A))
    → get_item key (set_item key value d) ≡ some value
unfolding get_item set_item
get_item-set_item_same key value [] = rw (text_eq_refl key) refl
get_item-set_item_same key value ((k, v) ∷ d) = elim (Bool-cases (text_eq k key)) [
  | inl e ↦ rw (e, e) refl
  | inr e ↦ rw (e, e) (get_item-set_item_same key value d)
]

pub get_item-set_item_other :
    {A : Type 0} (key other : Text) (value : A) (d : List (Text × A))
    → text_eq key other ≡ false
    → get_item other (set_item key value d) ≡ get_item other d
unfolding get_item set_item
get_item-set_item_other key other value [] h = rw h refl
get_item-set_item_other key other value ((k, v) ∷ d) h = elim (Bool-cases (text_eq k key)) [
  | inl e ↦
      let same : text_eq k other ≡ false = ap (λ x. text_eq x other) (text_eq→eq k key e) ∙ h in
      rw (e, same) refl
  | inr e ↦ rw e (
      ap (λ r. if text_eq k other then some v else r) (get_item-set_item_other key other value d h))
]

-- No tank of the list has the name.
abbrev pub IsNew : Text → List TankInfo → Type 0
IsNew name ts = All (λ (t : TankInfo). text_eq t.tank name ≡ false) ts

abbrev pub HasDistinctNames : List TankInfo → Type 0
HasDistinctNames [] = Unit {0}
HasDistinctNames (t ∷ ts) = IsNew t.tank ts × HasDistinctNames ts

add_tanks-old :
    (i : ℕ) (ts : List TankInfo) (all : Nodes) (name : Text)
    → IsNew name ts
    → get_item name (add_tanks i ts all).tanks ≡ get_item name all.tanks
unfolding add_tanks
add_tanks-old i [] all name h = refl
add_tanks-old i (t ∷ ts) all name (new, h) =
    add_tanks-old (suc i) ts _ name h
    ∙ get_item-set_item_other t.tank name (node_of i t) all.tanks new

add_tanks-new :
    (i : ℕ) (ts : List TankInfo) (all : Nodes) (j : ℕ) (t : TankInfo)
    → HasDistinctNames ts
    → get_elem? ts j ≡ some t
    → get_item t.tank (add_tanks i ts all).tanks ≡ some (node_of (i + j) t)
unfolding add_tanks
add_tanks-new i [] all j t d e = cc
add_tanks-new i (u ∷ ts) all zero t (new, d) e =
    let same : u ≡ t = cc in
    let first : i + 0 ≡ i = omega arith in
    rw (← same, first)
      (add_tanks-old (suc i) ts _ u.tank new
        ∙ get_item-set_item_same u.tank (node_of i u) all.tanks)
add_tanks-new i (u ∷ ts) all (suc j) t (new, d) e =
    let next : suc i + j ≡ i + suc j = omega arith in
    add_tanks-new (suc i) ts _ j t d e ∙ ap (λ k. some (node_of k t)) next

abbrev pub numbered : ℕ → List TankInfo → List Node
numbered i [] = []
numbered i (t ∷ ts) = node_of i t ∷ numbered (suc i) ts

pub add_tanks-nodes :
    (i : ℕ) (ts : List TankInfo) (all : Nodes)
    → (add_tanks i ts all).nodes ≡ all.nodes ++ numbered i ts
unfolding add_tanks
add_tanks-nodes i [] all = sym (append-nil all.nodes)
add_tanks-nodes i (t ∷ ts) all =
    add_tanks-nodes (suc i) ts _ ∙ append_assoc all.nodes (node_of i t ∷ []) (numbered (suc i) ts)

get_elem?-numbered :
    (i : ℕ) (ts : List TankInfo) (j : ℕ) (t : TankInfo)
    → get_elem? ts j ≡ some t
    → get_elem? (numbered i ts) j ≡ some (node_of (i + j) t)
get_elem?-numbered i [] j t e = cc
get_elem?-numbered i (u ∷ ts) zero t e =
    let same : u ≡ t = cc in let first : i + 0 ≡ i = omega arith in rw (← same, first) refl
get_elem?-numbered i (u ∷ ts) (suc j) t e =
    let next : suc i + j ≡ i + suc j = omega arith in
    get_elem?-numbered (suc i) ts j t e ∙ ap (λ k. some (node_of k t)) next

-- For tanks of distinct names: the tank at position `j` has the node `j` of `self.nodes`, with its index,
-- and `self.tanks` finds that node under its name.
pub setup_nodes-found :
    (ts : List TankInfo) (j : ℕ) (t : TankInfo)
    → HasDistinctNames ts
    → get_elem? ts j ≡ some t
    → (get_elem? (setup_nodes ts).nodes j ≡ some (node_of j t))
      × (get_item t.tank (setup_nodes ts).tanks ≡ some (node_of j t))
unfolding setup_nodes
setup_nodes-found ts j t d e =
    let start : 0 + j ≡ j = omega arith in
    let at_j = ap (λ k. some (node_of k t)) start in
    (
      ap (λ ns. get_elem? ns j) (add_tanks-nodes 0 ts _) ∙ get_elem?-numbered 0 ts j t e ∙ at_j,
      add_tanks-new 0 ts _ j t d e ∙ at_j,
    )
