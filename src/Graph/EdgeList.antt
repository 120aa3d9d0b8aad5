-- ===== src/Graph/EdgeList.antt =====
-- An instance of the graph interface: nodes and edges in the order in which they were added. It
-- shows that the interface can be met, and runs in the tests.
use erlay_warnet.Prelude.{
  ℕ, zero, suc, ◌+◌, ◌≡◌, refl, Bool, true, false, ◌&&◌, ◌||◌, List, [], ◌∷◌, ◌++◌, map, arith,
  ◌==◌, if◌then◌else◌, length, keep, contains, contains-keep, ==→eq, Bool-cases, inl, inr,
}
use erlay_warnet.Graph.{Linked, here, step, DiGraph, IsLawful}

pub record Edge : Type 0 where
  pub source : ℕ
  pub target : ℕ
  pub manual : Bool

pub record Edges : Type 0 where
  pub nodes : List ℕ
  pub edges : List Edge

abbrev has_edge : List Edge → ℕ → ℕ → Bool
has_edge [] a b = false
has_edge (e ∷ es) a b = (e.source == a && e.target == b) || has_edge es a b

-- Adding an edge that is there gives it the new attribute.
abbrev add_edge : ℕ → ℕ → Bool → List Edge → List Edge
add_edge u v m [] = record { source = u; target = v; manual = m } ∷ []
add_edge u v m (e ∷ es) =
    if e.source == u && e.target == v then record e { manual = m } ∷ es else e ∷ add_edge u v m es

abbrev in_degree : List Edge → ℕ → ℕ
in_degree [] a = 0
in_degree (e ∷ es) a = (if e.target == a then 1 else 0) + in_degree es a

abbrev out_edges : List Edge → ℕ → List (ℕ × Bool)
out_edges [] a = []
out_edges (e ∷ es) a =
    let rest = out_edges es a in if e.source == a then (e.target, e.manual) ∷ rest else rest

abbrev selfloops : List Edge → ℕ
selfloops [] = 0
selfloops (e ∷ es) = (if e.source == e.target then 1 else 0) + selfloops es

abbrev touches : List Edge → List ℕ → ℕ → Bool
touches es [] b = false
touches es (a ∷ seen) b = (has_edge es a b || has_edge es b a) || touches es seen b

-- The nodes that are seen, or one edge away from one that is; repeated.
abbrev expand : List Edge → List ℕ → List ℕ → List ℕ
expand es nodes seen = keep (λ b. contains seen b || touches es seen b) nodes

abbrev closure : ℕ → List Edge → List ℕ → List ℕ → List ℕ
closure zero es nodes seen = seen
closure (suc n) es nodes seen = closure n es nodes (expand es nodes seen)

abbrev all_in : List ℕ → List ℕ → Bool
all_in [] seen = true
all_in (a ∷ as') seen = contains seen a && all_in as' seen

abbrev is_connected : List ℕ → List Edge → Bool
is_connected [] es = false
is_connected (root ∷ nodes) es =
    all_in (root ∷ nodes) (closure (length nodes) es (root ∷ nodes) (root ∷ []))

has_edge-add_edge :
    (u v : ℕ) (m : Bool) (es : List Edge) (a b : ℕ)
    → has_edge (add_edge u v m es) a b ≡ ((u == a && v == b) || has_edge es a b)
has_edge-add_edge u v m [] a b = refl
has_edge-add_edge u v m (e ∷ es) a b = ground (arith, has_edge-add_edge u v m es a b)

in_degree-add_edge :
    (u v : ℕ) (m : Bool) (es : List Edge) (a : ℕ)
    → has_edge es u v ≡ false
    → in_degree (add_edge u v m es) a ≡ (if v == a then suc (in_degree es a) else in_degree es a)
in_degree-add_edge u v m [] a h = ground arith
in_degree-add_edge u v m (e ∷ es) a h = ground (arith, in_degree-add_edge u v m es a)

out_edges-add_edge :
    (u v : ℕ) (m : Bool) (es : List Edge) (a : ℕ)
    → has_edge es u v ≡ false
    → out_edges (add_edge u v m es) a
      ≡ (if u == a then out_edges es a ++ ((v, m) ∷ []) else out_edges es a)
out_edges-add_edge u v m [] a h = ground arith
out_edges-add_edge u v m (e ∷ es) a h = ground (arith, out_edges-add_edge u v m es a)

contains-successors :
    (es : List Edge) (a b : ℕ) → contains (map (λ e. e.0) (out_edges es a)) b ≡ has_edge es a b
contains-successors [] a b = refl
contains-successors (e ∷ es) a b = ground (arith, contains-successors es a b)

selfloops-eq-zero : (es : List Edge) → ((a : ℕ) → has_edge es a a ≡ false) → selfloops es ≡ 0
selfloops-eq-zero [] h = refl
selfloops-eq-zero (e ∷ es) h =
    ground (arith, h e.source, selfloops-eq-zero es (λ a. ground (arith, h a)))

module _ (edge : ℕ → ℕ → Bool) where
  Linked-trans : {a b c : ℕ} → Linked edge a b → Linked edge b c → Linked edge a c
  Linked-trans p here = p
  Linked-trans p (step c q e) = step c (Linked-trans p q) e

  Linked-symm : {a b : ℕ} → Linked edge a b → Linked edge b a
  Linked-symm here = here
  Linked-symm {a} (step {b} c q e) = Linked-trans (step b here (ground arith)) (Linked-symm q)

module _ (es : List Edge) (root : ℕ) where
  touches-Linked :
      (seen : List ℕ) (b : ℕ)
      → ((a : ℕ) → contains seen a ≡ true → Linked (has_edge es) root a)
      → touches es seen b ≡ true
      → Linked (has_edge es) root b
  touches-Linked [] b h t = cc
  touches-Linked (a ∷ seen) b h t = elim (Bool-cases (has_edge es a b || has_edge es b a)) [
    | inl e ↦ step b (h a (ground arith)) e
    | inr e ↦ touches-Linked seen b (λ c m. h c (ground arith)) (ground arith)
  ]

  Reached : List ℕ → Type 0
  Reached seen = (a : ℕ) → contains seen a ≡ true → Linked (has_edge es) root a

  keep-Reached :
      (test : ℕ → Bool) (nodes : List ℕ)
      → ((a : ℕ) → test a ≡ true → Linked (has_edge es) root a)
      → Reached (keep test nodes)
  unfolding Reached
  keep-Reached test nodes h a m = h a (ground (arith, contains-keep test nodes a))

  expand-Reached : (nodes seen : List ℕ) → Reached seen → Reached (expand es nodes seen)
  unfolding Reached
  expand-Reached nodes seen h = keep-Reached _ nodes λ b t. elim (Bool-cases (contains seen b)) [
    | inl old ↦ h b old
    | inr new ↦ touches-Linked seen b h (ground arith)
  ]

  closure-Reached : (n : ℕ) (nodes seen : List ℕ) → Reached seen → Reached (closure n es nodes seen)
  closure-Reached zero nodes seen h = h
  closure-Reached (suc n) nodes seen h =
      closure-Reached n nodes (expand es nodes seen) (expand-Reached nodes seen h)

root-Reached : (es : List Edge) (root : ℕ) → Reached es root (root ∷ [])
unfolding Reached
root-Reached es root a m = elim (Bool-cases (root == a)) [
  | inl e ↦ rw (← ==→eq root a e) here
  | inr e ↦ absurd (ground arith)
]

contains-append :
    (xs ys : List ℕ) (a : ℕ) → contains (xs ++ ys) a ≡ (contains xs a || contains ys a)
contains-append [] ys a = refl
contains-append (x ∷ xs) ys a = ground (arith, contains-append xs ys a)

all_in-contains :
    (nodes seen : List ℕ) (a : ℕ)
    → all_in nodes seen ≡ true
    → contains nodes a ≡ true
    → contains seen a ≡ true
all_in-contains [] seen a h m = cc
all_in-contains (b ∷ nodes) seen a h m = ground (arith, all_in-contains nodes seen a)

is_connected-Linked :
    (nodes : List ℕ) (es : List Edge) (a b : ℕ)
    → is_connected nodes es ≡ true
    → contains nodes a ≡ true
    → contains nodes b ≡ true
    → Linked (has_edge es) a b
unfolding Reached
is_connected-Linked [] es a b h p q = cc
is_connected-Linked (root ∷ nodes) es a b h p q =
    let all = closure (length nodes) es (root ∷ nodes) (root ∷ []) in
    let reached : Reached es root all =
      closure-Reached es root (length nodes) (root ∷ nodes) (root ∷ []) (root-Reached es root) in
    Linked-trans (has_edge es)
      (Linked-symm (has_edge es) (reached a (all_in-contains (root ∷ nodes) all a h p)))
      (reached b (all_in-contains (root ∷ nodes) all b h q))

abbrev pub edge_list : DiGraph
edge_list = record {
  Graph = Edges;
  empty = record { nodes = []; edges = [] };
  add_nodes_from = λ ns g. record g { nodes = ns ++ g.nodes };
  add_edge = λ u v m g. record g { edges = add_edge u v m g.edges };
  has_node = λ g a. contains g.nodes a;
  has_edge = λ g. has_edge g.edges;
  in_degree = λ g. in_degree g.edges;
  successors = λ g a. map (λ e. e.0) (out_edges g.edges a);
  out_edges = λ g. out_edges g.edges;
  number_of_selfloops = λ g. selfloops g.edges;
  is_connected = λ g. is_connected g.nodes g.edges;
}

pub edge_list-IsLawful : IsLawful edge_list
edge_list-IsLawful = record {
  has_node-add_nodes_from = λ ns g a. contains-append ns g.nodes a;
  has_node-add_edge = λ u v m g a h. h;
  has_edge-empty = λ a b. refl;
  has_edge-add_nodes_from = λ ns g a b. refl;
  has_edge-add_edge = λ u v m g a b. has_edge-add_edge u v m g.edges a b;
  in_degree-empty = λ a. refl;
  in_degree-add_nodes_from = λ ns g a. refl;
  in_degree-add_edge = λ u v m g a h. in_degree-add_edge u v m g.edges a h;
  out_edges-empty = λ a. refl;
  out_edges-add_nodes_from = λ ns g a. refl;
  out_edges-add_edge = λ u v m g a h. out_edges-add_edge u v m g.edges a h;
  successors_lem = λ g a. refl;
  contains-successors = λ g a b. contains-successors g.edges a b;
  number_of_selfloops_lem = λ g h. selfloops-eq-zero g.edges h;
  is_connected-Linked = λ g a b. is_connected-Linked g.nodes g.edges a b;
}
