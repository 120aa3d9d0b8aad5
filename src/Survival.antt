-- ===== src/Survival.antt =====
-- `scenarios/check_eclipse.py`: does the victim of an eclipse survive through its extra connections? The
-- poll with a timeout, the links that seal the eclipse, and what is measured at the end.
pub mod Sealed
pub mod Measure
pub mod Run
pub mod Polled
mod Tests
use erlay_warnet.Prelude.{
  ℕ, zero, suc, ◌+◌, ◌*◌, ◌<◌, ◌≤◌, ◌&&◌, Bool, true, false, not, Option, none, some, List, [], ◌∷◌,
  map, keep, ltb, if◌then◌else◌, ◌==◌, length,
}
use erlay_warnet.Prelude.Text.{Text, codes, text_eq}

-- The predicate of `poll` at each evaluation, and `time.time()` before it; a second is `second` units.
pub record Watch : Type 0 where
  pub holds : ℕ → Bool
  pub clock : ℕ → ℕ
  pub start : ℕ
  pub second : ℕ

-- The clock gains a second in `time.sleep(1)`.
abbrev pub IsRunning : Watch → Type 0
IsRunning w =
    (0 < w.second) × (w.start ≤ w.clock 0) × ((i : ℕ) → w.clock i + w.second ≤ w.clock (suc i))

-- `poll` from the evaluation `i` on: what it returns, and the last evaluation. `none` is out of fuel.
unfoldable pub poll_from : Watch → (timeout fuel i : ℕ) → Option (Bool × ℕ)
poll_from w timeout zero i = none
poll_from w timeout (suc fuel) i =
    let rest = poll_from w timeout fuel (suc i) in
    if ltb (w.clock i) (w.start + timeout * w.second)
    then if w.holds i then some (true, i) else rest
    else some (w.holds i, i)

unfoldable pub poll : Watch → (timeout : ℕ) → Option (Bool × ℕ)
unfolding poll_from
poll w timeout = poll_from w timeout (timeout + 1) 0

-- An entry of `getpeerinfo`.
pub record Peer : Type 0 where
  pub id : ℕ
  pub addr : Text
  pub inbound : Bool
  pub connection_type : Text

abbrev pub outbound : List Peer → List Peer
outbound peers = keep (λ p. not p.inbound) peers

abbrev pub lifeline : List Peer → List Peer
lifeline peers = keep (λ p. not (text_eq p.connection_type (codes "manual"))) (outbound peers)

-- `part in text`
unfoldable pub is_prefix : Text → Text → Bool
is_prefix [] text = true
is_prefix (c ∷ part) [] = false
is_prefix (c ∷ part) (d ∷ text) = (c == d) && is_prefix part text

unfoldable pub is_in : Text → Text → Bool
unfolding is_prefix
is_in part [] = is_prefix part []
is_in part (c ∷ text) =
    let later = is_in part text in if is_prefix part (c ∷ text) then true else later

-- The peers that the victim disconnects to seal the eclipse.
unfoldable pub dropped : (miner_host : Text) → List Peer → List Peer
unfolding is_in
dropped miner_host peers = keep (λ p. is_in miner_host p.addr) peers
