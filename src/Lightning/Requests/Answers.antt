-- ===== src/Lightning/Requests/Answers.antt =====
-- Which attempt is answered, and what is read of the answer.
use erlay_warnet.Prelude.{
  ==→eq, ==→eq, ℕ, zero, suc, ◌+◌, ◌<◌, ◌≤◌, ◌≡◌, refl, ap, ◌∙◌, arith, inl, inr, false, Option,
  none, some, List, [], ◌∷◌, ◌++◌, map, ltb, ◌==◌, All, Bool-cases, contains,
}
use erlay_warnet.Prelude.Text.{Text}
use erlay_warnet.Lightning.Requests.{read_stream, post, split_at_sign, connect_request}

-- The first attempt that is answered.
abbrev pub IsFirst : {A : Type 0} → (ℕ → Option A) → ℕ → A → Type 0
IsFirst attempts n a = (attempts n ≡ some a) × ((j : ℕ) → j < n → attempts j ≡ none)

post_from :
    (attempts : ℕ → Option (List (Option ℕ))) (fuel i n : ℕ) (reads : List (Option ℕ))
    → IsFirst attempts n reads
    → i ≤ n
    → n < i + fuel
    → post attempts fuel i ≡ some (read_stream reads)
unfolding post
post_from attempts zero i n reads h l m = absurd (omega arith)
post_from attempts (suc fuel) i n reads h l m = elim (Bool-cases (i == n)) [
  | inl e ↦ rw (post, ap attempts (==→eq i n e) ∙ h.0) refl
  | inr e ↦
      rw (post, h.1 i (ground (arith, e, l)))
        (post_from attempts fuel (suc i) n reads h (ground (arith, e, l)) (omega arith))
]

-- A body of bytes below 128 that ends without an exception is read whole.
read_stream-ascii : (bytes : Text) → All (λ b. b < 128) bytes → read_stream (map some bytes) ≡ bytes
unfolding read_stream
read_stream-ascii [] h = refl
read_stream-ascii (b ∷ bytes) (l, h) = elim (Bool-cases (ltb b 128)) [
  | inl e ↦ rw e (ap (◌∷◌ b) (read_stream-ascii bytes h))
  | inr e ↦ absurd (ground (arith, e, l))
]

-- Where an attempt is answered after attempts that raise, with a body of bytes below 128: `post` returns
-- that body, on any fuel that covers the attempts.
pub post_answered :
    (attempts : ℕ → Option (List (Option ℕ))) (fuel n : ℕ) (bytes : Text)
    → IsFirst attempts n (map some bytes)
    → All (λ b. b < 128) bytes
    → n < fuel
    → post attempts fuel 0 ≡ some bytes
post_answered attempts fuel n bytes h ascii m =
    post_from attempts fuel 0 n (map some bytes) h (omega arith) (omega arith)
    ∙ ap some (read_stream-ascii bytes ascii)

-- What follows a byte above 127 is lost: two bodies that differ only there are read alike.
read_stream-cut :
    (bytes rest : List (Option ℕ)) (b : ℕ)
    → 127 < b
    → read_stream (bytes ++ (some b ∷ rest)) ≡ read_stream bytes
unfolding read_stream
read_stream-cut [] rest b h = elim (Bool-cases (ltb b 128)) [
  | inl e ↦ absurd (ground (arith, e, h))
  | inr e ↦ rw e refl
]
read_stream-cut (none ∷ bytes) rest b h = refl
read_stream-cut (some c ∷ bytes) rest b h = rw (read_stream-cut bytes rest b h) refl

-- For all attempts and bytes: where the first attempt that is answered has a byte above 127, `post`
-- returns the same as if the body had ended before that byte.
pub post_truncated :
    (attempts : ℕ → Option (List (Option ℕ))) (fuel n b : ℕ) (bytes rest : List (Option ℕ))
    → IsFirst attempts n (bytes ++ (some b ∷ rest))
    → 127 < b
    → n < fuel
    → post attempts fuel 0 ≡ some (read_stream bytes)
post_truncated attempts fuel n b bytes rest h high m =
    post_from attempts fuel 0 n (bytes ++ (some b ∷ rest)) h (omega arith) (omega arith)
    ∙ ap some (read_stream-cut bytes rest b high)

no_sign : (cs : Text) → contains cs 64 ≡ false → split_at_sign cs ≡ cs ∷ []
unfolding split_at_sign
no_sign [] h = refl
no_sign (c ∷ cs) h = elim (Bool-cases (c == 64)) [
  | inl e ↦ absurd (ground (arith, e, h))
  | inr e ↦ rw (e, no_sign cs (rw e at h)) refl
]

split_once :
    (pk host : Text)
    → contains pk 64 ≡ false
    → contains host 64 ≡ false
    → split_at_sign (pk ++ (64 ∷ host)) ≡ pk ∷ host ∷ []
unfolding split_at_sign
split_once [] host h k = ap (◌∷◌ []) (no_sign host k)
split_once (c ∷ pk) host h k = elim (Bool-cases (c == 64)) [
  | inl e ↦ absurd (ground (arith, e, h))
  | inr e ↦ rw (e, split_once pk host (rw e at h) k) refl
]

-- A public key and a host that have no `@`, joined by one, are taken apart as they were put together.
pub connect_request-joined :
    (pk host : Text)
    → contains pk 64 ≡ false
    → contains host 64 ≡ false
    → connect_request (pk ++ (64 ∷ host)) ≡ some (record { pubkey = pk; host = host })
unfolding connect_request
connect_request-joined pk host h k = rw (connect_request, split_once pk host h k) refl
