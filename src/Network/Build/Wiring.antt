-- ===== src/Network/Build/Wiring.antt =====
-- The invariant of a graph that is being built, and that every edge keeps it.
use erlay_warnet.Prelude.{
  keep, refl, inr, ap, ==→eq, inl, ◌||◌, Bool-cases, ltb, ◌*◌, ℕ, suc, ◌+◌, ◌≤◌, ◌<◌, ◌≡◌, ◌≢◌,
  Bool, true, false, not, ◌&&◌, List, [], ◌∷◌, ◌++◌, arith, ◌==◌, if◌then◌else◌, length, contains,
  IsNodup, All, count, sum, map, range, count-range,
}
use erlay_warnet.Graph.{DiGraph, IsLawful}
use erlay_warnet.Network.Build.{is_candidate, add_edges}

-- The edges of one kind, manual or not, in the list of a node's edges.
abbrev pub same : Bool → Bool → Bool
same true m = m
same false m = not m

same_comm : (a b : Bool) → same a b ≡ same b a
same_comm a b = ground arith

abbrev pub count_kind : Bool → List (ℕ × Bool) → ℕ
count_kind m [] = 0
count_kind m (e ∷ es) = (if same m e.1 then 1 else 0) + count_kind m es

pub count_kind-append :
    (m : Bool) (xs ys : List (ℕ × Bool))
    → count_kind m (xs ++ ys) ≡ count_kind m xs + count_kind m ys
count_kind-append m [] ys = omega arith
count_kind-append m (x ∷ xs) ys = omega (arith, count_kind-append m xs ys)

pub length-keep_manual : (es : List (ℕ × Bool)) → length (keep (λ e. e.1) es) ≡ count_kind true es
length-keep_manual [] = refl
length-keep_manual (e ∷ es) = ground (arith, length-keep_manual es)

pub length-keep_typed :
    (es : List (ℕ × Bool)) → length (keep (λ e. not e.1) es) ≡ count_kind false es
length-keep_typed [] = refl
length-keep_typed (e ∷ es) = ground (arith, length-keep_typed es)

one-add : (n : ℕ) → 1 + n ≡ suc n
one-add n = omega arith

sum-map_bump :
    (v : ℕ) (f g : ℕ → ℕ) (xs : List ℕ)
    → ((a : ℕ) → g a ≡ (if v == a then suc (f a) else f a))
    → sum (map g xs) ≡ sum (map f xs) + count v xs
sum-map_bump v f g [] h = omega arith
sum-map_bump v f g (x ∷ xs) h = ground (arith, h x, sum-map_bump v f g xs h)

-- How many edges of one kind a node has opened.
abbrev pub opened : (D : DiGraph) → D.Graph → Bool → ℕ → ℕ
opened D g m a = count_kind m (D.out_edges g a)

-- The inbound slots in use.
abbrev pub inbound : (D : DiGraph) → (reachable : ℕ) → D.Graph → ℕ
inbound D reachable g = sum (map (D.in_degree g) (range reachable))

-- How many reachable nodes a node has an edge to.
abbrev pub row : (D : DiGraph) → (reachable : ℕ) → D.Graph → ℕ → ℕ
row D reachable g a = sum (map (λ b. if D.has_edge g a b then 1 else 0) (range reachable))

row_bump :
    (v : ℕ) (f g : ℕ → Bool) (xs : List ℕ)
    → f v ≡ false
    → ((b : ℕ) → g b ≡ (v == b || f b))
    → sum (map (λ b. if g b then 1 else 0) xs)
      ≡ sum (map (λ b. if f b then 1 else 0) xs) + count v xs
row_bump v f g [] n h = omega arith
row_bump v f g (x ∷ xs) n h = elim (Bool-cases (v == x)) [
  | inl e ↦ ground (arith, h x, row_bump v f g xs n h, ap f (==→eq v x e))
  | inr e ↦ ground (arith, h x, row_bump v f g xs n h)
]

row_same :
    (f g : ℕ → Bool) (xs : List ℕ)
    → ((b : ℕ) → g b ≡ f b)
    → sum (map (λ b. if g b then 1 else 0) xs) ≡ sum (map (λ b. if f b then 1 else 0) xs)
row_same f g [] h = refl
row_same f g (x ∷ xs) h = ground (arith, h x, row_same f g xs h)

module _ (D : DiGraph) (L : IsLawful D) (reachable max_inbound : ℕ) where
  -- What every attempt keeps: no loop, no edge both ways, only reachable targets, no full node.
  pub record IsWired (g : D.Graph) : Type 0 where
    pub loopless : (a : ℕ) → D.has_edge g a a ≡ false
    pub unmirrored : (a b : ℕ) → D.has_edge g a b ≡ true → D.has_edge g b a ≡ false
    pub inside : (a b : ℕ) → D.has_edge g a b ≡ true → b < reachable
    pub capped : (a : ℕ) → D.in_degree g a ≤ max_inbound

  -- `g'` has `k` more edges of the kind `m` from `node`, and is `g` otherwise.
  pub record Extends (g : D.Graph) (node : ℕ) (m : Bool) (k : ℕ) (g' : D.Graph) : Type 0 where
    pub wired : IsWired g'
    pub opened_lem :
        (kind : Bool) (a : ℕ)
        → opened D g' kind a ≡ opened D g kind a + (if node == a && same m kind then k else 0)
    pub inbound_lem : inbound D reachable g' ≡ inbound D reachable g + k
    pub row_lem :
        (a : ℕ) → row D reachable g' a ≡ row D reachable g a + (if node == a then k else 0)
    pub nodes_kept : (a : ℕ) → D.has_node g a ≡ true → D.has_node g' a ≡ true

  abbrev pub Candidate : D.Graph → ℕ → ℕ → Type 0
  Candidate g node t = is_candidate D max_inbound g node t ≡ true

  -- One edge to a candidate keeps the graph wired, and the other candidates stay candidates.
  add_edge-IsWired :
      (g : D.Graph) (node t : ℕ) (m : Bool)
      → IsWired g
      → t < reachable
      → Candidate g node t
      → IsWired (D.add_edge node t m g)
  unfolding is_candidate
  add_edge-IsWired g node t m w below c = record {
    loopless = λ a. ground (arith, L.has_edge-add_edge node t m g a a, w.loopless a);
    unmirrored = λ a b h. ground (
      arith,
      L.has_edge-add_edge node t m g a b,
      L.has_edge-add_edge node t m g b a,
      w.unmirrored a b,
    );
    inside = λ a b h. ground (arith, L.has_edge-add_edge node t m g a b, w.inside a b);
    capped = λ a. ground (arith, L.in_degree-add_edge node t m g a, w.capped a);
  }

  add_edge-Candidate :
      (g : D.Graph) (node t u : ℕ) (m : Bool)
      → Candidate g node t
      → t ≢ u
      → Candidate g node u
      → Candidate (D.add_edge node t m g) node u
  unfolding is_candidate
  add_edge-Candidate g node t u m c ne d = ground (
    arith,
    L.has_edge-add_edge node t m g node u,
    L.has_edge-add_edge node t m g u node,
    L.in_degree-add_edge node t m g u,
  )

  new_edge : (g : D.Graph) (node t : ℕ) → Candidate g node t → D.has_edge g node t ≡ false
  unfolding is_candidate
  new_edge g node t c = ground arith

  opened-add_edge :
      (g : D.Graph) (node t : ℕ) (m : Bool)
      → D.has_edge g node t ≡ false
      → (kind : Bool) (a : ℕ)
      → opened D (D.add_edge node t m g) kind a
        ≡ opened D g kind a + (if node == a && same m kind then 1 else 0)
  opened-add_edge g node t m new kind a = ground (
    arith,
    L.out_edges-add_edge node t m g a new,
    count_kind-append kind (D.out_edges g a) ((t, m) ∷ []),
    same_comm kind m,
  )

  row-add_edge :
      (g : D.Graph) (node t : ℕ) (m : Bool)
      → t < reachable
      → D.has_edge g node t ≡ false
      → (a : ℕ)
      → row D reachable (D.add_edge node t m g) a
        ≡ row D reachable g a + (if node == a then 1 else 0)
  row-add_edge g node t m below new a = elim (Bool-cases (node == a)) [
    | inl e ↦ rw (← ==→eq node a e) (
        ground (
          arith,
          row_bump t (D.has_edge g node) (D.has_edge (D.add_edge node t m g) node) (range reachable)
              new (λ b. ground (arith, L.has_edge-add_edge node t m g node b)),
          count-range t reachable,
        ))
    | inr e ↦ ground (
      arith,
      row_same (D.has_edge g a) (D.has_edge (D.add_edge node t m g) a) (range reachable)
          (λ b. ground (arith, L.has_edge-add_edge node t m g a b)),
    )
  ]

  add_edge-Extends :
      (g : D.Graph) (node t : ℕ) (m : Bool)
      → IsWired g
      → t < reachable
      → Candidate g node t
      → Extends g node m 1 (D.add_edge node t m g)
  unfolding is_candidate
  add_edge-Extends g node t m w below c = record {
    wired = add_edge-IsWired g node t m w below c;
    opened_lem = opened-add_edge g node t m (new_edge g node t c);
    inbound_lem = ground (
      arith,
      sum-map_bump t (D.in_degree g) (D.in_degree (D.add_edge node t m g)) (range reachable)
          (λ a. L.in_degree-add_edge node t m g a (new_edge g node t c)),
      count-range t reachable,
    );
    row_lem = row-add_edge g node t m below (new_edge g node t c);
    nodes_kept = λ a. L.has_node-add_edge node t m g a;
  }

  Extends-refl : (g : D.Graph) (node : ℕ) (m : Bool) → IsWired g → Extends g node m 0 g
  Extends-refl g node m w = record {
    wired = w;
    opened_lem = λ kind a. ground arith;
    inbound_lem = omega arith;
    row_lem = λ a. ground arith;
    nodes_kept = λ a h. h;
  }

  Extends-trans :
      (g g' g'' : D.Graph) (node : ℕ) (m : Bool) (j k : ℕ)
      → Extends g node m j g'
      → Extends g' node m k g''
      → Extends g node m (j + k) g''
  Extends-trans g g' g'' node m j k e f = record {
    wired = f.wired;
    opened_lem = λ kind a. ground (arith, e.opened_lem kind a, f.opened_lem kind a);
    inbound_lem = omega (arith, e.inbound_lem, f.inbound_lem);
    row_lem = λ a. ground (arith, e.row_lem a, f.row_lem a);
    nodes_kept = λ a h. f.nodes_kept a (e.nodes_kept a h);
  }

  -- Distinct candidates: each edge that is added leaves the others candidates.
  abbrev pub Choice : D.Graph → ℕ → List ℕ → Type 0
  Choice g node ts = IsNodup ts × All (λ t. (t < reachable) × Candidate g node t) ts

  Choice-add_edge :
      (g : D.Graph) (node t : ℕ) (m : Bool) (ts : List ℕ)
      → Candidate g node t
      → contains ts t ≡ false
      → All (λ u. (u < reachable) × Candidate g node u) ts
      → All (λ u. (u < reachable) × Candidate (D.add_edge node t m g) node u) ts
  Choice-add_edge g node t m [] c new h = tt
  Choice-add_edge g node t m (u ∷ us) c new h = (
    (h.0.0, add_edge-Candidate g node t u m c (ground arith) h.0.1),
    Choice-add_edge g node t m us c (ground arith) h.1,
  )

  pub add_edges-Extends :
      (node : ℕ) (m : Bool) (ts : List ℕ) (g : D.Graph)
      → IsWired g
      → Choice g node ts
      → Extends g node m (length ts) (add_edges D node m ts g)
  unfolding add_edges
  add_edges-Extends node m [] g w c = Extends-refl g node m w
  add_edges-Extends node m (t ∷ ts) g w (u, a) =
      let first = add_edge-Extends g node t m w a.0.0 a.0.1 in
      let rest =
        add_edges-Extends node m ts (D.add_edge node t m g) first.wired
          (u.1, Choice-add_edge g node t m ts a.0.1 u.0 a.1) in
      rw (← one-add (length ts)) (Extends-trans g _ _ node m 1 (length ts) first rest)

  -- A round over some nodes: each of them opens `degree` edges of the round's kind.
  pub record IsRound (g : D.Graph) (nodes : List ℕ) (m : Bool) (degree : ℕ) (g' : D.Graph)
      : Type 0 where
    pub wired : IsWired g'
    pub opened_lem :
        (kind : Bool) (a : ℕ)
        → opened D g' kind a
          ≡ opened D g kind a + (if same m kind then count a nodes * degree else 0)
    pub inbound_lem : inbound D reachable g' ≡ inbound D reachable g + length nodes * degree
    pub row_lem : (a : ℕ) → row D reachable g' a ≡ row D reachable g a + count a nodes * degree
    pub nodes_kept : (a : ℕ) → D.has_node g a ≡ true → D.has_node g' a ≡ true

  -- What an attempt returns when it returns a graph.
  pub record IsBuilt (size outbound recon_outbound : ℕ) (g : D.Graph) : Type 0 where
    pub wired : IsWired g
    pub manual_lem : (a : ℕ) → opened D g true a ≡ (if ltb a size then outbound else 0)
    pub recon_lem : (a : ℕ) → opened D g false a ≡ (if ltb a size then recon_outbound else 0)
    pub inbound_lem : inbound D reachable g ≡ size * (outbound + recon_outbound)
    pub row_lem : (a : ℕ) → a < size → row D reachable g a ≡ outbound + recon_outbound
    pub nodes_in : (a : ℕ) → a < size → D.has_node g a ≡ true
