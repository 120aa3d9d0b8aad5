-- ===== src/Bandwidth/Averages/Near.antt =====
-- The averages are near the quotients.
use erlay_warnet.Prelude.{ℕ, ◌+◌, ◌*◌, ◌^◌, ◌<◌, ◌≤◌, ◌≡◌, refl}
use erlay_warnet.Prelude.Float.{rounded, nearest}
use erlay_warnet.Prelude.Float.Near.{hundredths-IsNear}
use erlay_warnet.Bandwidth.Averages.{figure_of, tidy}

-- A number h of hundredths is at most one half, and 2 ^ -53 of the hundredths, from total / n.
abbrev pub IsNear : (n total h : ℕ) → Type 0
IsNear n total h =
    (2 ^ 54 * (h * n) ≤ 2 ^ 54 * (100 * total) + 2 ^ 53 * n + 200 * total)
    × (2 ^ 54 * (100 * total) ≤ 2 ^ 54 * (h * n) + 2 ^ 53 * n + 200 * total)

-- For every total, over one iteration or more: the average that is reported is the float nearest to a number
-- of hundredths, as an int where it is whole, and that number is off from total / n by half a hundredth and
-- by 2 ^ -53 of the quotient at most.
pub tidy-IsNear :
    (n total : ℕ) → 0 < n → (h : ℕ) × (tidy n total ≡ figure_of (nearest h 100)) × IsNear n total h
unfolding tidy
tidy-IsNear n total k =
    let x = nearest total n in
    (rounded (100 * x.numerator) x.denominator, refl, hundredths-IsNear total n k)
