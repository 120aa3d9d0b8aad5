-- ===== src/Rng.antt =====
-- `random.Random` as the generators use it: a state made from a seed, and `sample`. The generator's
-- choice of positions is open; what `sample` promises of them is a law.
pub mod Laws
pub mod Rotating
use erlay_warnet.Prelude.{
  ℕ, ◌≤◌, ◌<◌, ◌≡◌, Option, none, some, List, [], ◌∷◌, ltb, if◌then◌else◌, length, get_elem?,
  IsNodup, All,
}
use erlay_warnet.Prelude.Int.{ℤ}

pub record Rng : Type 1 where
  pub State : Type 0
  -- `Random(seed)`; with no seed the state comes from the system's entropy.
  pub seeded : Option ℤ → State
  -- The positions that `sample` takes from a population of `n`, and the state after it.
  pub positions : State → (n k : ℕ) → List ℕ × State

pub record IsLawful (R : Rng) : Type 0 where
  pub length-positions : (s : R.State) (n k : ℕ) → k ≤ n → length (R.positions s n k).0 ≡ k
  pub positions_below : (s : R.State) (n k : ℕ) → k ≤ n → All (λ i. i < n) (R.positions s n k).0
  pub positions-IsNodup : (s : R.State) (n k : ℕ) → k ≤ n → IsNodup (R.positions s n k).0

abbrev pub cons_if {ℓ} : {A : Type ℓ} → Option A → List A → List A
cons_if none xs = xs
cons_if (some x) xs = x ∷ xs

abbrev pub pick {ℓ} : {A : Type ℓ} → List A → List ℕ → List A
pick xs [] = []
pick xs (i ∷ is) = cons_if (get_elem? xs i) (pick xs is)

-- `rng.sample(population, k)`; `none` is its `ValueError`.
unfoldable pub sample {ℓ} :
    (R : Rng) {A : Type ℓ} → List A → ℕ → R.State → Option (List A) × R.State
sample R xs k s =
    if ltb (length xs) k
    then (none, s)
    else let (is, s') = R.positions s (length xs) k in (some (pick xs is), s')
