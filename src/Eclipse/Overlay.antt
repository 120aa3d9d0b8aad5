-- ===== src/Eclipse/Overlay.antt =====
-- What the overlay draws: every sample succeeds, has its size, and names reachable honest tanks.
use erlay_warnet.Prelude.{
  Bool, ℕ, zero, suc, ◌+◌, ◌≤◌, ◌<◌, ◌≡◌, refl, ap, some, List, [], ◌∷◌, map, arith, length, take,
  All, range, range_from, length-map, length-range, length-take_le,
}
use erlay_warnet.Prelude.Text.{Text}
use erlay_warnet.Graph.{DiGraph}
use erlay_warnet.Rng.{Rng, sample}
use erlay_warnet.Rng as Rng
use erlay_warnet.Rng.Laws.{sample-All}
use erlay_warnet.Network.Yaml.{Tank, tank_name, tank_of, to_network_yaml}
use erlay_warnet.Eclipse.{samples}

-- `targets` is a sample of `k` things that have the property.
abbrev pub IsDrawn : (Text → Type 0) → ℕ → List Text → Type 0
IsDrawn P k targets = (length targets ≡ k) × All P targets

module _ (R : Rng) (S : Rng.IsLawful R) (P : Text → Type 0) (names : List Text)
    (have : All P names) where
  pub samples-IsDrawn :
      (k n : ℕ) (s : R.State)
      → k ≤ length names
      → (tss : List (List Text)) × ((samples R names k n s).0 ≡ some tss)
        × (length tss ≡ n)
        × All (IsDrawn P k) tss
  unfolding samples
  samples-IsDrawn k zero s h = ([], refl, refl, tt)
  samples-IsDrawn k (suc n) s h =
      let (ts, e, l, a) = sample-All R S P names k s have h in
      let (tss, e', l', a') = samples-IsDrawn k n (sample R names k s).1 h in
      (ts ∷ tss, ground (arith, e, e'), ap suc l', ((l, a), a'))

-- The name of a node below `bound`.
abbrev pub IsTankBelow : ℕ → Text → Type 0
IsTankBelow bound t = (j : ℕ) × (t ≡ tank_name j) × (j < bound)

take-IsTankBelow :
    (bound r start n : ℕ)
    → start + r ≤ bound
    → All (IsTankBelow bound) (take r (map tank_name (range_from start n)))
unfolding range_from
take-IsTankBelow bound zero start n h = tt
take-IsTankBelow bound (suc r) start zero h = tt
take-IsTankBelow bound (suc r) start (suc n) h =
    ((start, refl, omega arith), take-IsTankBelow bound r (suc start) n (omega arith))

module _ (type : Text) (v2 : Bool) (D : DiGraph) (g : D.Graph) (size : ℕ) where
  map-name_over :
      (xs : List ℕ)
      → map (λ (t : Tank). t.name) (map (λ i. tank_of type v2 i (D.out_edges g i)) xs)
        ≡ map tank_name xs
  unfolding tank_of
  map-name_over [] = refl
  map-name_over (x ∷ xs) = ap (◌∷◌ (tank_name x)) (map-name_over xs)

  names_lem :
      map (λ (t : Tank). t.name) (to_network_yaml type v2 D g size).nodes
      ≡ map tank_name (range size)
  unfolding to_network_yaml
  names_lem = map-name_over (range size)

  pub reachable_names-All :
      (r : ℕ)
      → All
          (IsTankBelow r)
          (take r (map (λ (t : Tank). t.name) (to_network_yaml type v2 D g size).nodes))
  unfolding range
  reachable_names-All r = rw names_lem (take-IsTankBelow r r 0 size (omega arith))

  pub length-reachable_names :
      (r : ℕ)
      → r ≤ size
      → length (take r (map (λ (t : Tank). t.name) (to_network_yaml type v2 D g size).nodes)) ≡ r
  length-reachable_names r h = rw names_lem (
      length-take_le r (map tank_name (range size))
        (omega (arith, length-map (range size) tank_name, length-range size)))
