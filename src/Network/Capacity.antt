-- ===== src/Network/Capacity.antt =====
-- The two capacity tests of `validate_args` are needed: what they refuse, no attempt can build.
use native.Mathlib.Nat.{le_of_mul-le-mul_left}
use erlay_warnet.Prelude.{
  contains-range, ◌∙◌, All-of_contains, inr, ==→eq, inl, ap, All, sym, Bool-cases, ℕ, ◌+◌, ◌*◌, ◌≤◌,
  ◌<◌, ◌≡◌, refl, List, [], ◌∷◌, arith, length, range, sum, map, length-range, count-range,
  if◌then◌else◌, count, ◌==◌,
}
use erlay_warnet.Graph.{DiGraph}
use erlay_warnet.Graph as Graph
use erlay_warnet.Prelude.Int.{pos, +ℤ_pos, *ℤ_pos}
use erlay_warnet.Prelude.Result.{ok}
use erlay_warnet.Rng.{Rng}
use erlay_warnet.Rng as Rng
use erlay_warnet.Network.Args.{validate_args}
use erlay_warnet.Network.Args.Laws.{IsFeasible, validate_args-IsFeasible}
use erlay_warnet.Network.Attempt.{done}
use erlay_warnet.Network.Build.{try_build_graph}
use erlay_warnet.Network.Build.Wiring.{IsBuilt, row}
use erlay_warnet.Network.Build.Rounds.{try_build_graph-Yields}

sum-map-le :
    (f : ℕ → ℕ) (k : ℕ) (xs : List ℕ) → ((a : ℕ) → f a ≤ k) → sum (map f xs) ≤ length xs * k
sum-map-le f k [] h = omega arith
sum-map-le f k (x ∷ xs) h = omega (arith, h x, sum-map-le f k xs h)

sum-map_add :
    (f g : ℕ → ℕ) (xs : List ℕ) → sum (map (λ a. f a + g a) xs) ≡ sum (map f xs) + sum (map g xs)
sum-map_add f g [] = refl
sum-map_add f g (x ∷ xs) = omega (arith, sum-map_add f g xs)

sum-map_zero : (xs : List ℕ) → sum (map (λ _. 0) xs) ≡ 0
sum-map_zero [] = refl
sum-map_zero (x ∷ xs) = omega (arith, sum-map_zero xs)

-- A table of numbers has one sum, by rows or by columns.
sum_swap :
    (h : ℕ → ℕ → ℕ) (xs ys : List ℕ)
    → sum (map (λ a. sum (map (h a) ys)) xs) ≡ sum (map (λ b. sum (map (λ a. h a b) xs)) ys)
sum_swap h [] ys = sym (sum-map_zero ys)
sum_swap h (x ∷ xs) ys =
    omega (arith, sum_swap h xs ys, sum-map_add (h x) (λ b. sum (map (λ a. h a b) xs)) ys)

-- Numbers that are 1 at most, and 0 at `a`.
sum-map_spared :
    (a : ℕ) (f : ℕ → ℕ) (xs : List ℕ)
    → ((b : ℕ) → f b + (if a == b then 1 else 0) ≤ 1)
    → sum (map f xs) + count a xs ≤ length xs
sum-map_spared a f [] h = omega arith
sum-map_spared a f (x ∷ xs) h = ground (arith, h x, sum-map_spared a f xs h)

below-range : (n m : ℕ) → n ≤ m → All (λ a. a < m) (range n)
below-range n m h =
    All-of_contains (λ a. a < m) (range n) (λ a c. ground (arith, contains-range n a))

cancel : (r t : ℕ) → 0 < r → r * t + r * t + r ≤ r * r → 2 * t + 1 ≤ r
cancel r t h le = le_of_mul-le-mul_left {k = r} (omega arith) h

module _ (D : DiGraph) (L : Graph.IsLawful D)
    (size reachable max_inbound outbound recon_outbound : ℕ) (g : D.Graph)
    (built : IsBuilt D L reachable max_inbound size outbound recon_outbound g) where
  -- The slots of the reachable nodes bound the edges.
  slots_needed : size * (outbound + recon_outbound) ≤ reachable * max_inbound
  slots_needed = omega (
    arith,
    built.inbound_lem,
    sum-map-le (D.in_degree g) max_inbound (range reachable) built.wired.capped,
    ap (λ (n : ℕ). n * max_inbound) (length-range reachable),
  )

  abbrev edge : ℕ → ℕ → ℕ
  edge a b = if D.has_edge g a b then 1 else 0

  -- Between two nodes there is one edge at most, and none from a node to itself.
  one_edge : (a b : ℕ) → edge a b + edge b a + (if a == b then 1 else 0) ≤ 1
  one_edge a b = elim (Bool-cases (a == b)) [
    | inl e ↦ ground (
      arith,
      built.wired.loopless a,
      ap (D.has_edge g a) (==→eq a b e),
      ap (λ (c : ℕ). D.has_edge g c a) (==→eq a b e),
    )
    | inr e ↦ ground (arith, built.wired.unmirrored a b, built.wired.unmirrored b a)
  ]

  abbrev column : ℕ → ℕ
  column a = sum (map (λ b. edge b a) (range reachable))

  row-column : (a : ℕ) → a < reachable → row D reachable g a + column a + 1 ≤ reachable
  row-column a h = ground (
    arith,
    sum-map_add (edge a) (λ b. edge b a) (range reachable),
    sum-map_spared a (λ b. edge a b + edge b a) (range reachable) (one_edge a),
    count-range a reachable,
    length-range reachable,
  )

  sum_pairs :
      (xs : List ℕ)
      → All (λ a. a < reachable) xs
      → sum (map (λ a. row D reachable g a + column a) xs) + length xs ≤ length xs * reachable
  sum_pairs [] h = omega arith
  sum_pairs (x ∷ xs) h = omega (arith, row-column x h.0, sum_pairs xs h.1)

  sum-rows :
      (xs : List ℕ)
      → All (λ a. a < size) xs
      → sum (map (row D reachable g) xs) ≡ length xs * (outbound + recon_outbound)
  sum-rows [] h = omega arith
  sum-rows (x ∷ xs) h = omega (arith, built.row_lem x h.0, sum-rows xs h.1)

  -- The pairs of reachable nodes bound the edges that these open.
  pairs_needed : 0 < reachable → reachable ≤ size → 2 * (outbound + recon_outbound) + 1 ≤ reachable
  pairs_needed pos' le =
      let total = outbound + recon_outbound in
      let below : All (λ a. a < reachable) (range reachable) =
        below-range reachable reachable (omega arith) in
      let rows : sum (map (row D reachable g) (range reachable)) ≡ reachable * total =
        sum-rows (range reachable) (below-range reachable size le)
        ∙ rw (length-range reachable) refl in
      let all : sum (map (row D reachable g) (range reachable))
            + sum (map column (range reachable))
            + reachable
          ≤ reachable * reachable =
        omega (
          arith,
          sum-map_add (row D reachable g) column (range reachable),
          sum_pairs (range reachable) below,
          length-range reachable,
          ap (λ (n : ℕ). n * reachable) (length-range reachable),
        ) in
      let swapped : sum (map (row D reachable g) (range reachable))
          ≡ sum (map column (range reachable)) =
        sum_swap edge (range reachable) (range reachable) in
      cancel reachable total pos' (omega arith)

  built-IsFeasible :
      0 < size
      → 0 < outbound
      → 0 < reachable
      → reachable ≤ size
      → IsFeasible (pos size) (pos reachable) (pos outbound) (pos recon_outbound) (pos max_inbound)
  built-IsFeasible hs ho hr le =
      let pairs = pairs_needed hr le in
      record {
        size_pos = omega arith;
        outbound_pos = omega arith;
        recon_nonneg = omega arith;
        reachable_pos = omega arith;
        reachable_le = omega arith;
        pairs_suffice = simp (+ℤ_pos, *ℤ_pos) (omega arith);
        slots_suffice = simp (+ℤ_pos, *ℤ_pos) (omega (arith, slots_needed));
      }

module _ (D : DiGraph) (L : Graph.IsLawful D) (R : Rng) (S : Rng.IsLawful R)
    (size reachable max_inbound outbound recon_outbound : ℕ) where
  -- For positive sizes with `reachable` within `size`: where an attempt builds a graph, in whatever
  -- state of the generator, `validate_args` lets the arguments pass. So its capacity tests refuse only
  -- what cannot be built.
  pub validate_args_complete :
      (s : R.State) {g : D.Graph}
      → 0 < size
      → 0 < outbound
      → 0 < reachable
      → reachable ≤ size
      → (try_build_graph D R size reachable max_inbound outbound recon_outbound s).0 ≡ done g
      → validate_args
          (pos size)
          (pos reachable)
          (pos outbound)
          (pos recon_outbound)
          (pos max_inbound)
        ≡ ok tt
  validate_args_complete s {g} hs ho hr le e =
      let built : IsBuilt D L reachable max_inbound size outbound recon_outbound g =
        rw e at
          (try_build_graph-Yields D L R S size reachable max_inbound outbound recon_outbound s) in
      (validate_args-IsFeasible _ _ _ _ _).1 (
        built-IsFeasible D L size reachable max_inbound outbound recon_outbound g built hs ho hr le)
