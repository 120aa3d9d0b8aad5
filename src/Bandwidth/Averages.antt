-- ===== src/Bandwidth/Averages.antt =====
-- The averages that `orders` of `scenarios/check_net_bandwidth.py` logs over its iterations.
pub mod Whole
pub mod Near
use erlay_warnet.Prelude.{
  ℕ, suc, ◌*◌, ◌/◌, ◌%◌, ◌==◌, Bool, true, false, Option, none, some, List, [], ◌∷◌, map, length,
  if◌then◌else◌,
}
use erlay_warnet.Prelude.Int.{ℤ, pos, negsuc, ◌+ℤ◌, pos_part}
use erlay_warnet.Prelude.Text.{Text}
use erlay_warnet.Prelude.Float.{Float, nearest, is_integer, int_of, round_2}
use erlay_warnet.Bandwidth.Counter.{Counter}
use erlay_warnet.Bandwidth.Orders.{Options, Results}

-- A number of the report: an int or a float.
pub data Figure : Type 0 where
  whole : ℕ → Figure
  fraction : Float → Figure

pub record Signed (A : Type 0) : Type 0 where
  pub is_negative : Bool
  pub size : A

-- `tidy`, by the number of iterations: whole numbers are rendered as ints.
abbrev pub figure_of : Float → Figure
figure_of avg = if is_integer avg then whole (int_of avg) else fraction avg

unfoldable pub tidy : (n total : ℕ) → Figure
unfolding nearest round_2
tidy n total = figure_of (round_2 (nearest total n))

-- `{k: tidy(v) for k, v in diff.items()}`
abbrev pub averages : (n : ℕ) → Counter → List (Text × Figure)
averages n diff = map (λ e. (e.0, tidy n e.1)) diff

-- `statistics.mean` of ints: an int where the sum is a multiple, else the nearest float; `none` is the
-- `StatisticsError` over no data.
abbrev pub sum_ℤ : List ℤ → ℤ
sum_ℤ [] = pos 0
sum_ℤ (x ∷ xs) = x +ℤ sum_ℤ xs

abbrev pub ratio : (total n : ℕ) → Figure
ratio total n = if (total % n) == 0 then whole (total / n) else fraction (nearest total n)

abbrev pub signed_ratio : ℤ → ℕ → Signed Figure
signed_ratio (pos total) n = record { is_negative = false; size = ratio total n }
signed_ratio (negsuc m) n = record { is_negative = true; size = ratio (suc m) n }

unfoldable pub mean : List ℤ → Option (Signed Figure)
unfolding ◌+ℤ◌ nearest
mean [] = none
mean (x ∷ xs) = some (signed_ratio (sum_ℤ (x ∷ xs)) (length (x ∷ xs)))

-- `float(x)`, and the division by 1000000.0.
abbrev pub float_of : Figure → Float
float_of (whole m) = nearest m 1
float_of (fraction x) = x

abbrev pub in_seconds : Signed Figure → Signed Float
in_seconds m = record {
  is_negative = m.is_negative;
  size = nearest (float_of m.size).numerator ((float_of m.size).denominator * 1000000);
}

pub record NetReport : Type 0 where
  pub message_count : List (Text × Figure)
  pub message_bytes : List (Text × Figure)
  pub inv_entry_count : Signed Figure
  pub propagation_time : Signed Float

unfoldable pub net_report : Options → Results → Option NetReport
unfolding tidy mean
net_report options results = elim (mean results.inv_entry_count) [
  | none ↦ none
  | some entries ↦ elim (mean results.propagation_times) [
    | none ↦ none
    | some time ↦ some (record {
      message_count = averages (pos_part options.n) results.diff_count;
      message_bytes = averages (pos_part options.n) results.diff_bytes;
      inv_entry_count = entries;
      propagation_time = in_seconds time;
    })
  ]
]
