-- ===== src/Rng/Rotating.antt =====
-- An instance of the generator for the tests: it takes neighbouring positions, from one that moves on.
use erlay_warnet.Prelude.{
  ℕ, zero, suc, ◌+◌, ◌-◌, ◌≤◌, ◌<◌, ◌≡◌, refl, false, Option, none, some, List, [], ◌∷◌, arith, ltb,
  if◌then◌else◌, length, contains, IsNodup, All, ◌%◌,
}
use erlay_warnet.Prelude.Int.{ℤ, pos, negsuc}
use erlay_warnet.Rng.{Rng, IsLawful}

-- `k` positions below `n`, from `at` on and round the end.
abbrev from_here : ℕ → ℕ → ℕ → ℕ → List ℕ
from_here n at i zero = []
from_here n at i (suc k) =
    (if ltb (at + i) n then at + i else at + i - n) ∷ from_here n at (suc i) k

abbrev seed_state : Option ℤ → ℕ
seed_state none = 0
seed_state (some (pos n)) = n
seed_state (some (negsuc n)) = n

abbrev pub rotating : Rng
rotating = record {
  State = ℕ;
  seeded = seed_state;
  positions = λ s n k. (from_here n (s % n) 0 k, s + 1);
}

length-from_here : (n at i k : ℕ) → length (from_here n at i k) ≡ k
length-from_here n at i zero = refl
length-from_here n at i (suc k) = omega (arith, length-from_here n at (suc i) k)

from_here_below : (n at i k : ℕ) → at < n → i + k ≤ n → All (λ p. p < n) (from_here n at i k)
from_here_below n at i zero h b = tt
from_here_below n at i (suc k) h b = (ground arith, from_here_below n at (suc i) k h (omega arith))

from_here_absent :
    (n at j i k : ℕ)
    → at < n
    → j < i
    → i + k ≤ n
    → contains (from_here n at i k) (if ltb (at + j) n then at + j else at + j - n) ≡ false
from_here_absent n at j i zero h l b = refl
from_here_absent n at j i (suc k) h l b = ground (arith, from_here_absent n at j (suc i) k)

from_here-IsNodup : (n at i k : ℕ) → at < n → i + k ≤ n → IsNodup (from_here n at i k)
from_here-IsNodup n at i zero h b = tt
from_here-IsNodup n at i (suc k) h b = (
  from_here_absent n at i (suc i) k h (omega arith) (omega arith),
  from_here-IsNodup n at (suc i) k h (omega arith),
)

rotating_below : (s n k : ℕ) → k ≤ n → All (λ i. i < n) (from_here n (s % n) 0 k)
rotating_below s n zero h = tt
rotating_below s n (suc k) h = from_here_below n (s % n) 0 (suc k) (grind arith) (omega arith)

rotating-IsNodup : (s n k : ℕ) → k ≤ n → IsNodup (from_here n (s % n) 0 k)
rotating-IsNodup s n zero h = tt
rotating-IsNodup s n (suc k) h = from_here-IsNodup n (s % n) 0 (suc k) (grind arith) (omega arith)

pub rotating-IsLawful : IsLawful rotating
rotating-IsLawful = record {
  length-positions = λ s n k h. length-from_here n (s % n) 0 k;
  positions_below = rotating_below;
  positions-IsNodup = rotating-IsNodup;
}
