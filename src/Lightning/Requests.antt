-- ===== src/Lightning/Requests.antt =====
-- `LND` of `scenarios/ln_framework/ln.py`. What a request meets is given by the attempt: an exception, or
-- what the connection answers.
pub mod Answers
use erlay_warnet.Prelude.{
  ℕ, zero, suc, ◌+◌, ◌<◌, ◌≤◌, Bool, Option, none, some, List, [], ◌∷◌, ◌++◌, ltb, ◌==◌,
  if◌then◌else◌,
}
use erlay_warnet.Prelude.Text.{Text}

-- The loop of `get`: `time.sleep(1)` after an exception, then the next attempt. `none` is that the fuel ran
-- out.
unfoldable pub get : (attempts : ℕ → Option Text) → (fuel i : ℕ) → Option Text
get attempts zero i = none
get attempts (suc fuel) i =
    let rest = get attempts fuel (suc i) in
    elim (attempts i) [ none ↦ rest | some text ↦ some text ]

-- `res.read(1)` until it answers nothing or raises, where `none` is an exception. A byte above 127 is no
-- character of its own, so its `decode` raises too and ends the loop.
unfoldable pub read_stream : List (Option ℕ) → Text
read_stream [] = []
read_stream (none ∷ reads) = []
read_stream (some byte ∷ reads) =
    let rest = read_stream reads in if ltb byte 128 then byte ∷ rest else []

-- The loop of `post`.
unfoldable pub post : (attempts : ℕ → Option (List (Option ℕ))) → (fuel i : ℕ) → Option Text
unfolding read_stream
post attempts zero i = none
post attempts (suc fuel) i =
    let rest = post attempts fuel (suc i) in
    elim (attempts i) [ none ↦ rest | some reads ↦ some (read_stream reads) ]

-- `target_uri.split("@")`
unfoldable pub split_at_sign : Text → List Text
split_at_sign [] = [] ∷ []
split_at_sign (c ∷ cs) =
    let rest = split_at_sign cs in
    if c == 64
    then [] ∷ rest
    else elim rest [ [] ↦ (c ∷ []) ∷ [] | part ∷ parts ↦ (c ∷ part) ∷ parts ]

-- The body of the request of `connect`.
pub record Addr : Type 0 where
  pub pubkey : Text
  pub host : Text

-- `pk, host = target_uri.split("@")`, which raises unless there are two parts.
unfoldable pub connect_request : Text → Option Addr
unfolding split_at_sign
connect_request target_uri = elim (split_at_sign target_uri) [
  | [] ↦ none
  | pk ∷ rest ↦ elim rest [
    | [] ↦ none
    | host ∷ more ↦ elim more [ [] ↦ some (record { pubkey = pk; host = host }) | _ ∷ _ ↦ none ]
  ]
]
