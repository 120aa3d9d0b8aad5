-- ===== src/Bandwidth/Propagation/Time.antt =====
-- The time that an iteration notes is from the first announcement to the last receipt.
use mathlib.Core.List.{append_assoc, append-nil}
use erlay_warnet.Prelude.{
  ℕ, suc, ◌+◌, ◌≡◌, ◌≤◌, ◌∙◌, refl, arith, true, Option, none, some, List, [], ◌∷◌, ◌++◌, map,
  length, ltb, All, Bool-cases, inl, inr, ◌<◌, ap, max, min, contains, All-mono,
}
use erlay_warnet.Prelude.Int.{ℤ, pos, ◌-ℤ◌}
use erlay_warnet.Prelude.Result.{Result, ok, err}
use erlay_warnet.Bandwidth.Propagation.{
  MempoolEntry, Times, no_times, add_times, check_propagation_time, check_all, greatest, least,
  NoTime, propagation_failed, empty_sequence, difference, propagation_time,
}

-- The times of an answer that has both.
abbrev pub times_of : Option MempoolEntry → Option (ℕ × ℕ)
times_of none = none
times_of (some entry) = elim entry.first_inv_time [
  | none ↦ none
  | some inv ↦ elim entry.recv_time [ none ↦ none | some recv ↦ some (inv, recv) ]
]

abbrev put : Option (ℕ × ℕ) → List (ℕ × ℕ) → List (ℕ × ℕ)
put none ps = ps
put (some p) ps = p ∷ ps

abbrev lacking : Option (ℕ × ℕ) → ℕ → ℕ
lacking none n = suc n
lacking (some _) n = n

-- The pairs of times that are there, and how many answers lack one.
abbrev pub known : List (Option MempoolEntry) → List (ℕ × ℕ)
known [] = []
known (e ∷ es) = put (times_of e) (known es)

abbrev pub missing : List (Option MempoolEntry) → ℕ
missing [] = 0
missing (e ∷ es) = lacking (times_of e) (missing es)

abbrev with_known : Times → List (ℕ × ℕ) → ℕ → Times
with_known t ps n = record {
  inv_timestamps = t.inv_timestamps ++ map (λ p. p.0) ps;
  tx_timestamps = t.tx_timestamps ++ map (λ p. p.1) ps;
  errors = t.errors + n;
}

failed_once :
    (t : Times) (ps : List (ℕ × ℕ)) (n : ℕ)
    → with_known (record t { errors = t.errors + 1 }) ps n ≡ with_known t ps (suc n)
failed_once t ps n =
    let e : t.errors + 1 + n ≡ t.errors + suc n = omega arith in
    ap (λ k. record (with_known t ps n) { errors = k }) e

timed_once :
    (t : Times) (inv recv : ℕ) (ps : List (ℕ × ℕ)) (n : ℕ)
    → with_known (add_times (some inv) (some recv) t) ps n ≡ with_known t ((inv, recv) ∷ ps) n
timed_once t inv recv ps n =
    ap
      (λ (q : List ℕ × List ℕ). record (with_known t ps n) {
        inv_timestamps = q.0;
        tx_timestamps = q.1;
      })
      (rw
        (
          append_assoc t.inv_timestamps (inv ∷ []) (map (λ p. p.0) ps),
          append_assoc t.tx_timestamps (recv ∷ []) (map (λ p. p.1) ps),
        )
        refl)

step_lem :
    (inv recv : Option ℕ) (es : List (Option MempoolEntry)) (t : Times)
    → ((t' : Times) → check_all es t' ≡ with_known t' (known es) (missing es))
    → let e : Option MempoolEntry = some (record { first_inv_time = inv; recv_time = recv }) in
      check_all es (add_times inv recv t) ≡ with_known t (known (e ∷ es)) (missing (e ∷ es))
step_lem none recv es t ih =
    ih (record t { errors = t.errors + 1 }) ∙ failed_once t (known es) (missing es)
step_lem (some inv) none es t ih =
    ih (record t { errors = t.errors + 1 }) ∙ failed_once t (known es) (missing es)
step_lem (some inv) (some recv) es t ih =
    ih (add_times (some inv) (some recv) t) ∙ timed_once t inv recv (known es) (missing es)

check_all_lem :
    (es : List (Option MempoolEntry)) (t : Times)
    → check_all es t ≡ with_known t (known es) (missing es)
unfolding check_all check_propagation_time
check_all_lem [] t =
    let e : t.errors ≡ t.errors + 0 = omega arith in
    ap
      (λ (q : List ℕ × List ℕ × ℕ). record {
        inv_timestamps = q.0;
        tx_timestamps = q.1;
        errors = q.2;
      })
      (rw (append-nil t.inv_timestamps, append-nil t.tx_timestamps, ← e) refl)
check_all_lem (none ∷ es) t =
    check_all_lem es (record t { errors = t.errors + 1 }) ∙ failed_once t (known es) (missing es)
check_all_lem (some entry ∷ es) t =
    step_lem entry.first_inv_time entry.recv_time es t (check_all_lem es)

-- The greatest of the numbers, and the least.
abbrev pub IsGreatest : ℕ → List ℕ → Type 0
IsGreatest m xs = (contains xs m ≡ true) × All (λ x. x ≤ m) xs

abbrev pub IsLeast : ℕ → List ℕ → Type 0
IsLeast m xs = (contains xs m ≡ true) × All (λ x. m ≤ x) xs

pub greatest-IsGreatest :
    (x : ℕ) (xs : List ℕ) → (m : ℕ) × (greatest (x ∷ xs) ≡ some m) × IsGreatest m (x ∷ xs)
greatest-IsGreatest x [] = (x, refl, (ground arith, (omega arith, tt)))
greatest-IsGreatest x (y ∷ xs) =
    let (m, e, (there, all)) = greatest-IsGreatest y xs in
    (
      max x m,
      rw e refl,
      (ground (arith, there), (omega arith, All-mono _ _ (y ∷ xs) (λ z h. omega (arith, h)) all)),
    )

pub least-IsLeast : (x : ℕ) (xs : List ℕ) → (m : ℕ) × (least (x ∷ xs) ≡ some m) × IsLeast m (x ∷ xs)
least-IsLeast x [] = (x, refl, (ground arith, (omega arith, tt)))
least-IsLeast x (y ∷ xs) =
    let (m, e, (there, all)) = least-IsLeast y xs in
    (
      min x m,
      rw e refl,
      (ground (arith, there), (omega arith, All-mono _ _ (y ∷ xs) (λ z h. omega (arith, h)) all)),
    )

length-put :
    (o : Option (ℕ × ℕ)) (ps : List (ℕ × ℕ)) (n : ℕ)
    → length (put o ps) + lacking o n ≡ suc (length ps + n)
length-put none ps n = omega arith
length-put (some p) ps n = omega arith

length-known : (es : List (Option MempoolEntry)) → length (known es) + missing es ≡ length es
length-known [] = omega arith
length-known (e ∷ es) = length-put (times_of e) (known es) (missing es) ∙ ap suc (length-known es)

-- What the time of an iteration may be.
abbrev pub IsTime : List (Option MempoolEntry) → Result NoTime ℤ → Type 0
IsTime es (ok d) =
    (missing es ≡ 0)
    × (last : ℕ) × (first : ℕ) × (d ≡ pos last -ℤ pos first)
    × IsGreatest last (map (λ p. p.1) (known es))
    × IsLeast first (map (λ p. p.0) (known es))
IsTime es (err (propagation_failed n)) = (0 < n) × (n ≡ missing es)
IsTime es (err empty_sequence) = length es ≡ 0

noted-IsTime :
    (es : List (Option MempoolEntry)) (ps : List (ℕ × ℕ))
    → known es ≡ ps
    → missing es ≡ 0
    → IsTime es (difference (greatest (map (λ p. p.1) ps)) (least (map (λ p. p.0) ps)))
noted-IsTime es [] k m = omega (arith, length-known es, ap length k, m)
noted-IsTime es (p ∷ ps) k m =
    let (last, e, h) = greatest-IsGreatest p.1 (map (λ p. p.1) ps) in
    let (first, e', h') = least-IsLeast p.0 (map (λ p. p.0) ps) in
    rw (e, e') (m, last, first, refl, rw k h, rw k h')

-- For all answers, in the order in which the threads append: the iteration notes a time only where
-- every answer has both times, and then it is the greatest receipt less the least announcement; it
-- raises with the number of answers that lack a time, above 0; and `max` and `min` meet an empty list
-- only where no node was asked.
pub propagation_time-IsTime : (es : List (Option MempoolEntry)) → IsTime es (propagation_time es)
unfolding propagation_time
propagation_time-IsTime es =
    rw (check_all_lem es no_times) (elim (Bool-cases (ltb 0 (0 + missing es))) [
      | inl h ↦ rw h (ground (arith, h), omega arith)
      | inr h ↦ rw h (noted-IsTime es (known es) refl (ground (arith, h)))
    ])
