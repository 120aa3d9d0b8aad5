-- ===== src/Bandwidth/Counter.antt =====
-- `collections.Counter` on counts that are 0 or more: its sums and differences keep positive counts only.
pub mod Entries
pub mod Laws
use erlay_warnet.Prelude.{
  ℕ, zero, suc, ◌+◌, ◌-◌, ◌≤◌, ◌≡◌, refl, sym, ap, ◌∙◌, Bool, true, false, not, List, [], ◌∷◌, ◌++◌,
  map, keep, inl, inr, arith, ltb, if◌then◌else◌, All, Bool-cases, ◌==◌, ◌&&◌, ◌||◌,
}
use erlay_warnet.Prelude.Text.{Text, text_eq, text_eq→eq, text_eq_refl}

-- The entries in the order in which they were put in.
abbrev pub Counter : Type 0
Counter = List (Text × ℕ)

-- `c[k]`, which is 0 for a missing key.
unfoldable pub count_at : Counter → Text → ℕ
count_at [] k = 0
count_at ((j, n) ∷ c) k = let rest = count_at c k in if text_eq j k then n else rest

abbrev pub has_key : Counter → Text → Bool
has_key [] k = false
has_key ((j, _) ∷ c) k = if text_eq j k then true else has_key c k

-- `c[k] += n`
unfoldable pub increment : Text → ℕ → Counter → Counter
increment k n [] = (k, n) ∷ []
increment k n ((j, m) ∷ c) =
    let rest = increment k n c in if text_eq j k then (j, m + n) ∷ c else (j, m) ∷ rest

-- No key twice.
abbrev pub IsCounter : Counter → Type 0
IsCounter [] = Unit {0}
IsCounter ((j, _) ∷ c) = (has_key c j ≡ false) × IsCounter c

abbrev pub positive : Text × ℕ → Bool
positive e = ltb 0 e.1

-- `a + b`
unfoldable pub add : Counter → Counter → Counter
unfolding count_at
add a b =
    keep positive (map (λ e. (e.0, e.1 + count_at b e.0)) a)
    ++ keep positive (keep (λ e. not (has_key a e.0)) b)

-- `a - b`; no count is negative, so a key of `b` alone adds none.
unfoldable pub subtract : Counter → Counter → Counter
unfolding count_at
subtract a b = keep positive (map (λ e. (e.0, e.1 - count_at b e.0)) a)
