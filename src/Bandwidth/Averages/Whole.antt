-- ===== src/Bandwidth/Averages/Whole.antt =====
-- Averages that are whole numbers are reported as they are.
use native.Mathlib.Nat.{mul-mod_left, mul-div_cancel}
use erlay_warnet.Prelude.{
  ℕ, ◌*◌, ◌^◌, ◌<◌, ◌≡◌, refl, false, Option, none, some, List, [], ◌∷◌, map, length, All, arith,
}
use erlay_warnet.Prelude.Int.{ℤ, pos}
use erlay_warnet.Prelude.Text.{Text}
use erlay_warnet.Prelude.Float.{nearest, round_2}
use erlay_warnet.Prelude.Float.Exact.{nearest-Holds, round_2-Holds, Holds-is_integer, Holds-int_of}
use erlay_warnet.Bandwidth.Counter.{Counter}
use erlay_warnet.Bandwidth.Orders.{Options, Results}
use erlay_warnet.Bandwidth.Averages.{
  Figure, whole, Signed, tidy, averages, sum_ℤ, ratio, signed_ratio, mean, NetReport, net_report,
}

-- Counts that a float holds, n times over.
abbrev pub AreSmall : Counter → Type 0
AreSmall c = All (λ e. e.1 < 2 ^ 53) c

abbrev pub scaled : (n : ℕ) → Counter → Counter
scaled n c = map (λ e. (e.0, e.1 * n)) c

abbrev pub as_whole : Counter → List (Text × Figure)
as_whole c = map (λ e. (e.0, whole e.1)) c

tidy-whole : (n q : ℕ) → 0 < n → q < 2 ^ 53 → tidy n (q * n) ≡ whole q
unfolding tidy
tidy-whole n q h k =
    let avg = round_2 (nearest (q * n) n) in
    let held = round_2-Holds q (nearest (q * n) n) (nearest-Holds (q * n) n q refl h k) k in
    rw (Holds-is_integer q avg held, Holds-int_of q avg held) refl

averages-scaled : (n : ℕ) (c : Counter) → 0 < n → AreSmall c → averages n (scaled n c) ≡ as_whole c
averages-scaled n [] h k = refl
averages-scaled n ((t, q) ∷ c) h (small, k) =
    rw (tidy-whole n q h small, averages-scaled n c h k) refl

ratio-whole : (q n : ℕ) → 0 < n → ratio (q * n) n ≡ whole q
ratio-whole q n h = rw (mul-mod_left q n, mul-div_cancel q h) refl

mean-whole :
    (xs : List ℤ) (n q : ℕ)
    → 0 < n
    → length xs ≡ n
    → sum_ℤ xs ≡ pos (q * n)
    → mean xs ≡ some (record { is_negative = false; size = whole q })
unfolding mean
mean-whole [] n q h l s = ground arith
mean-whole (x ∷ xs) n q h l s = rw (s, l, ratio-whole q n h) refl

mean-some : (xs : List ℤ) (n : ℕ) → 0 < n → length xs ≡ n → (m : Signed Figure) × (mean xs ≡ some m)
unfolding mean
mean-some [] n h l = ground arith
mean-some (x ∷ xs) n h l = (signed_ratio (sum_ℤ (x ∷ xs)) (length (x ∷ xs)), refl)

-- A report with these counts for each type, and this INV count.
abbrev pub IsWholeReport : (counts bytes : Counter) → (entries : ℕ) → Option NetReport → Type 0
IsWholeReport counts bytes entries none = ⊥
IsWholeReport counts bytes entries (some r) =
    (r.message_count ≡ as_whole counts)
    × (r.message_bytes ≡ as_whole bytes)
    × (r.inv_entry_count ≡ record { is_negative = false; size = whole entries })

-- After n iterations, with a propagation time each: where the messages and the bytes of each type are n
-- times a number below 2 ^ 53, and so are the INV entries n times a number, a report is made, and it has
-- these numbers, as ints.
pub net_report-IsWhole :
    (options : Options) (results : Results) (n entries : ℕ) (counts bytes : Counter)
    → options.n ≡ pos n
    → 0 < n
    → (results.diff_count ≡ scaled n counts) × AreSmall counts
    → (results.diff_bytes ≡ scaled n bytes) × AreSmall bytes
    → (length results.inv_entry_count ≡ n) × (sum_ℤ results.inv_entry_count ≡ pos (entries * n))
    → length results.propagation_times ≡ n
    → IsWholeReport counts bytes entries (net_report options results)
unfolding net_report
net_report-IsWhole options results n entries counts bytes e h (c, cs) (b, bs) (l, s) times =
    let (m, made) = mean-some results.propagation_times n h times in
    rw
      (mean-whole results.inv_entry_count n entries h l s, made, e, c, b, net_report, IsWholeReport)
      (averages-scaled n counts h cs, averages-scaled n bytes h bs, refl)
