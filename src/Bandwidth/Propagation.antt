-- ===== src/Bandwidth/Propagation.antt =====
-- `check_propagation_time` of `scenarios/check_net_bandwidth.py`, and the time that an iteration notes.
pub mod Time
use erlay_warnet.Prelude.{
  ℕ, zero, suc, ◌+◌, ◌≡◌, ◌≤◌, refl, arith, Bool, true, false, Option, none, some, List, [], ◌∷◌,
  ◌++◌, map, length, ltb, leb, if◌then◌else◌, All, Bool-cases, inl, inr, ◌<◌, ap, max, min,
}
use erlay_warnet.Prelude.Int.{ℤ, pos, ◌-ℤ◌}
use erlay_warnet.Prelude.Result.{Result, ok, err, raise_if, ◌>>=◌, ◌>>◌}

-- An answer of `getmempoolentry`, with times in microseconds; an exception is `none`.
pub record MempoolEntry : Type 0 where
  pub first_inv_time : Option ℕ
  pub recv_time : Option ℕ

-- The lists that the threads of an iteration append to.
pub record Times : Type 0 where
  pub inv_timestamps : List ℕ
  pub tx_timestamps : List ℕ
  pub errors : ℕ

abbrev pub no_times : Times
no_times = record { inv_timestamps = []; tx_timestamps = []; errors = 0 }

abbrev pub add_times : Option ℕ → Option ℕ → Times → Times
add_times (some inv_time) (some recv_time) t = record t {
  inv_timestamps = t.inv_timestamps ++ (inv_time ∷ []);
  tx_timestamps = t.tx_timestamps ++ (recv_time ∷ []);
}
add_times _ _ t = record t { errors = t.errors + 1 }

unfoldable pub check_propagation_time : Option MempoolEntry → Times → Times
check_propagation_time none t = record t { errors = t.errors + 1 }
check_propagation_time (some entry) t = add_times entry.first_inv_time entry.recv_time t

-- The threads of an iteration, in the order in which they append.
unfoldable pub check_all : List (Option MempoolEntry) → Times → Times
unfolding check_propagation_time
check_all [] t = t
check_all (entry ∷ entries) t = check_all entries (check_propagation_time entry t)

-- `max` and `min` of a list, which raise on an empty one.
abbrev pub greatest : List ℕ → Option ℕ
greatest [] = none
greatest (x ∷ xs) = elim (greatest xs) [ none ↦ some x | some m ↦ some (max x m) ]

abbrev pub least : List ℕ → Option ℕ
least [] = none
least (x ∷ xs) = elim (least xs) [ none ↦ some x | some m ↦ some (min x m) ]

-- How an iteration may fail to note a time.
pub data NoTime : Type 0 where
  propagation_failed : (nodes : ℕ) → NoTime
  empty_sequence : NoTime

abbrev pub difference : Option ℕ → Option ℕ → Result NoTime ℤ
difference (some last) (some first) = ok (pos last -ℤ pos first)
difference _ _ = err empty_sequence

unfoldable pub propagation_time : List (Option MempoolEntry) → Result NoTime ℤ
unfolding check_all
propagation_time entries = do
  let t = check_all entries no_times
  raise_if (ltb 0 t.errors) (propagation_failed t.errors)
  difference (greatest t.tx_timestamps) (least t.inv_timestamps)
