-- ===== src/Commander/Codec.antt =====
-- `hex_to_b64` and `b64_to_hex` of `scenarios/commander.py`, with the parts of Python's `bytes` and
-- `base64` that they use: bytes are numbers below 256.
use erlay_warnet.Prelude.{
  ℕ, suc, zero, ◌+◌, ◌-◌, ◌*◌, ◌/◌, ◌%◌, Bool, true, false, ◌&&◌, ◌||◌, Option, none, some, List,
  [], ◌∷◌, ◌++◌, ltb, leb, ◌==◌, if◌then◌else◌,
}
use mathlib.Core.List.{reverse}
use erlay_warnet.Prelude.Text.{Text}
pub mod RoundTrip

unfoldable pub hex_digit : ℕ → ℕ
hex_digit v = if ltb v 10 then 48 + v else 87 + v

-- `bytes.hex`
unfoldable pub hex_of : List ℕ → Text
hex_of [] = []
hex_of (b ∷ bs) = hex_digit (b / 16) ∷ hex_digit (b % 16) ∷ hex_of bs

abbrev between : ℕ → ℕ → ℕ → Bool
between low high c = leb low c && leb c high

unfoldable pub hex_value : ℕ → Option ℕ
hex_value c =
    if between 48 57 c
    then some (c - 48)
    else if between 97 102 c
    then some (c - 87)
    else if between 65 70 c
    then some (c - 55)
    else none

abbrev pub is_space : ℕ → Bool
is_space c = (c == 32) || between 9 13 c

abbrev pub join_digits : Option ℕ → Option ℕ → Option (List ℕ) → Option (List ℕ)
join_digits (some h) (some l) (some bs) = some ((h * 16 + l) ∷ bs)
join_digits _ _ _ = none

-- `bytes.fromhex`, which skips white space between two bytes.
unfoldable pub from_hex : Text → Option (List ℕ)
from_hex [] = some []
from_hex (a ∷ []) = if is_space a then some [] else none
from_hex (a ∷ b ∷ t) =
    let skipped = from_hex (b ∷ t) in
    let rest = from_hex t in
    if is_space a then skipped else join_digits (hex_value a) (hex_value b) rest

unfoldable pub b64_digit : ℕ → ℕ
b64_digit v =
    if ltb v 26
    then 65 + v
    else if ltb v 52
    then 71 + v
    else if ltb v 62
    then v - 4
    else if v == 62
    then 43
    else 47

-- `base64.b64encode`
unfoldable pub b64_encode : List ℕ → Text
b64_encode [] = []
b64_encode (a ∷ []) = b64_digit (a / 4) ∷ b64_digit (a % 4 * 16) ∷ 61 ∷ 61 ∷ []
b64_encode (a ∷ b ∷ []) =
    b64_digit (a / 4) ∷ b64_digit (a % 4 * 16 + b / 16) ∷ b64_digit (b % 16 * 4) ∷ 61 ∷ []
b64_encode (a ∷ b ∷ c ∷ bs) =
    b64_digit (a / 4)
    ∷ b64_digit (a % 4 * 16 + b / 16)
    ∷ b64_digit (b % 16 * 4 + c / 64)
    ∷ b64_digit (c % 64)
    ∷ b64_encode bs

unfoldable pub b64_value : ℕ → Option ℕ
b64_value c =
    if between 65 90 c
    then some (c - 65)
    else if between 97 122 c
    then some (c - 71)
    else if between 48 57 c
    then some (c + 4)
    else if c == 43
    then some 62
    else if c == 47
    then some 63
    else none

-- How many digits of four are read, with the bits that are left of the last one.
pub data Quad : Type 0 where
  start : Quad
  after_one after_two after_three : ℕ → Quad

abbrev pub next_quad : Quad → ℕ → Quad
next_quad Quad.start v = Quad.after_one v
next_quad (Quad.after_one _) v = Quad.after_two (v % 16)
next_quad (Quad.after_two _) v = Quad.after_three (v % 4)
next_quad (Quad.after_three _) v = Quad.start

abbrev pub emitted : Quad → ℕ → List ℕ
emitted Quad.start v = []
emitted (Quad.after_one left) v = (left * 4 + v / 16) ∷ []
emitted (Quad.after_two left) v = (left * 16 + v / 4) ∷ []
emitted (Quad.after_three left) v = (left * 64 + v) ∷ []

-- The padding counts after two digits, and the text ends where it fills the four.
pub data Padding : Type 0 where
  complete ignored counted : Padding

abbrev padding : Quad → (pads : ℕ) → Padding
padding (Quad.after_two _) zero = counted
padding (Quad.after_two _) (suc _) = complete
padding (Quad.after_three _) pads = complete
padding _ pads = ignored

abbrev pub at_end : Quad → Option (List ℕ)
at_end Quad.start = some []
at_end _ = none

abbrev pub prepend : List ℕ → Option (List ℕ) → Option (List ℕ)
prepend bs none = none
prepend bs (some rest) = some (bs ++ rest)

-- `base64.b64decode`, which passes over characters outside the alphabet.
unfoldable pub decode_from : Quad → (pads : ℕ) → Text → Option (List ℕ)
decode_from q pads [] = at_end q
decode_from q pads (c ∷ t) = elim (b64_value c) [
  | some v ↦ prepend (emitted q v) (decode_from (next_quad q v) 0 t)
  | none ↦
      if c == 61
      then (elim (padding q pads) [
        | complete ↦ some []
        | ignored ↦ decode_from q pads t
        | counted ↦ decode_from q (suc pads) t
      ])
      else decode_from q pads t
]

abbrev pub is_ascii : Text → Bool
is_ascii [] = true
is_ascii (c ∷ t) = ltb c 128 && is_ascii t

unfoldable pub b64_decode : Text → Option (List ℕ)
unfolding decode_from
b64_decode t = if is_ascii t then decode_from Quad.start 0 t else none

abbrev pub encoded : Option (List ℕ) → Option Text
encoded none = none
encoded (some bs) = some (b64_encode bs)

-- `none` is the `ValueError` of a text that is not one of hexadecimal digits, or not of base 64.
unfoldable pub hex_to_b64 : Text → Option Text
unfolding from_hex b64_encode
hex_to_b64 hex = encoded (from_hex hex)

abbrev pub in_hex : (reversed : Bool) → Option (List ℕ) → Option Text
in_hex reversed none = none
in_hex true (some bs) = some (hex_of (reverse bs))
in_hex false (some bs) = some (hex_of bs)

unfoldable pub b64_to_hex : Text → (reversed : Bool) → Option Text
unfolding b64_decode hex_of
b64_to_hex b64 reversed = in_hex reversed (b64_decode b64)
