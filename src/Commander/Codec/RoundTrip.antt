-- ===== src/Commander/Codec/RoundTrip.antt =====
-- Bytes go from hexadecimal digits to base 64 and back.
use erlay_warnet.Prelude.{
  ℕ, ◌+◌, ◌*◌, ◌/◌, ◌%◌, ◌<◌, ◌≡◌, refl, ap, sym, ◌∙◌, true, false, Option, none, some, List, [],
  ◌∷◌, ◌++◌, All, arith, ltb,
}
use mathlib.Core.List.{reverse, append_assoc}
use erlay_warnet.Prelude.Text.{Text}
use erlay_warnet.Commander.Codec.{
  hex_of, hex_digit, hex_value, from_hex, is_space, b64_digit, b64_value, b64_encode, Quad,
  next_quad, emitted, prepend, decode_from, b64_decode, is_ascii, hex_to_b64, b64_to_hex, encoded,
  in_hex,
}

abbrev pub AreBytes : List ℕ → Type 0
AreBytes bs = All (λ b. b < 256) bs

hex_value-digit : (v : ℕ) → v < 16 → hex_value (hex_digit v) ≡ some v
unfolding hex_digit hex_value
hex_value-digit v h = ground arith

is_space-digit : (v : ℕ) → v < 16 → is_space (hex_digit v) ≡ false
unfolding hex_digit
is_space-digit v h = ground arith

from_hex-of : (bs : List ℕ) → AreBytes bs → from_hex (hex_of bs) ≡ some bs
unfolding from_hex hex_of
from_hex-of [] h = refl
from_hex-of (b ∷ bs) (h, hs) =
    let high : b / 16 < 16 = omega arith in
    let low : b % 16 < 16 = omega arith in
    let whole : b / 16 * 16 + b % 16 ≡ b = omega arith in
    rw
      (
        is_space-digit (b / 16) high,
        hex_value-digit (b / 16) high,
        hex_value-digit (b % 16) low,
        from_hex-of bs hs,
        whole,
      )
      refl

b64_value-digit : (v : ℕ) → v < 64 → b64_value (b64_digit v) ≡ some v
unfolding b64_digit b64_value
b64_value-digit v h = ground arith

is_ascii-digit : (v : ℕ) → ltb (b64_digit v) 128 ≡ true
unfolding b64_digit
is_ascii-digit v = ground arith

decode_digit :
    (q : Quad) (pads v : ℕ) (t : Text)
    → v < 64
    → decode_from q pads (b64_digit v ∷ t) ≡ prepend (emitted q v) (decode_from (next_quad q v) 0 t)
unfolding decode_from
decode_digit q pads v t h = rw (decode_from, b64_value-digit v h) refl

prepend-nil : (o : Option (List ℕ)) → prepend [] o ≡ o
prepend-nil none = refl
prepend-nil (some bs) = refl

prepend-prepend :
    (xs ys : List ℕ) (o : Option (List ℕ)) → prepend xs (prepend ys o) ≡ prepend (xs ++ ys) o
prepend-prepend xs ys none = refl
prepend-prepend xs ys (some bs) = ap some (sym (append_assoc xs ys bs))

-- Two digits give the first byte and leave bits of the second.
decode_two :
    (a y : ℕ) (t : Text)
    → a < 256
    → y < 16
    → decode_from Quad.start 0 (b64_digit (a / 4) ∷ b64_digit (a % 4 * 16 + y) ∷ t)
      ≡ prepend (a ∷ []) (decode_from (Quad.after_two y) 0 t)
decode_two a y t h k =
    let first : a / 4 < 64 = omega arith in
    let second : a % 4 * 16 + y < 64 = omega arith in
    let whole : a / 4 * 4 + (a % 4 * 16 + y) / 16 ≡ a = omega arith in
    let left : (a % 4 * 16 + y) % 16 ≡ y = omega arith in
    decode_digit Quad.start 0 (a / 4) _ first
    ∙ ap (prepend []) (decode_digit (Quad.after_one (a / 4)) 0 (a % 4 * 16 + y) t second)
    ∙ prepend-nil _
    ∙ ap (λ x. prepend (x ∷ []) (decode_from (Quad.after_two ((a % 4 * 16 + y) % 16)) 0 t)) whole
    ∙ ap (λ x. prepend (a ∷ []) (decode_from (Quad.after_two x) 0 t)) left

decode_third :
    (b z : ℕ) (t : Text)
    → b < 256
    → z < 4
    → decode_from (Quad.after_two (b / 16)) 0 (b64_digit (b % 16 * 4 + z) ∷ t)
      ≡ prepend (b ∷ []) (decode_from (Quad.after_three z) 0 t)
decode_third b z t h k =
    let digit : b % 16 * 4 + z < 64 = omega arith in
    let whole : b / 16 * 16 + (b % 16 * 4 + z) / 4 ≡ b = omega arith in
    let left : (b % 16 * 4 + z) % 4 ≡ z = omega arith in
    decode_digit (Quad.after_two (b / 16)) 0 (b % 16 * 4 + z) t digit
    ∙ ap (λ x. prepend (x ∷ []) (decode_from (Quad.after_three ((b % 16 * 4 + z) % 4)) 0 t)) whole
    ∙ ap (λ x. prepend (b ∷ []) (decode_from (Quad.after_three x) 0 t)) left

decode_fourth :
    (c : ℕ) (t : Text)
    → c < 256
    → decode_from (Quad.after_three (c / 64)) 0 (b64_digit (c % 64) ∷ t)
      ≡ prepend (c ∷ []) (decode_from Quad.start 0 t)
decode_fourth c t h =
    let digit : c % 64 < 64 = omega arith in
    let whole : c / 64 * 64 + c % 64 ≡ c = omega arith in
    decode_digit (Quad.after_three (c / 64)) 0 (c % 64) t digit
    ∙ ap (λ x. prepend (x ∷ []) (decode_from Quad.start 0 t)) whole

decode_end : decode_from Quad.start 0 [] ≡ some []
unfolding decode_from
decode_end = refl

decode_two_pads : decode_from (Quad.after_two 0) 0 (61 ∷ 61 ∷ []) ≡ some []
unfolding decode_from b64_value
decode_two_pads = refl

decode_one_pad : decode_from (Quad.after_three 0) 0 (61 ∷ []) ≡ some []
unfolding decode_from b64_value
decode_one_pad = refl

decode-encode : (bs : List ℕ) → AreBytes bs → decode_from Quad.start 0 (b64_encode bs) ≡ some bs
unfolding b64_encode
decode-encode [] h = decode_end
decode-encode (a ∷ []) (h, _) =
    ap (λ d. decode_from Quad.start 0 (b64_digit (a / 4) ∷ b64_digit d ∷ 61 ∷ 61 ∷ []))
      (omega arith)
    ∙ decode_two a 0 (61 ∷ 61 ∷ []) h (omega arith)
    ∙ ap (prepend (a ∷ [])) decode_two_pads
decode-encode (a ∷ b ∷ []) (h, (k, _)) =
    ap
      (λ d.
        decode_from Quad.start 0
          (b64_digit (a / 4) ∷ b64_digit (a % 4 * 16 + b / 16) ∷ b64_digit d ∷ 61 ∷ []))
      (omega arith)
    ∙ decode_two a (b / 16) (b64_digit (b % 16 * 4 + 0) ∷ 61 ∷ []) h (omega arith)
    ∙ ap (prepend (a ∷ []))
        (decode_third b 0 (61 ∷ []) k (omega arith) ∙ ap (prepend (b ∷ [])) decode_one_pad)
decode-encode (a ∷ b ∷ c ∷ bs) (h, (k, (l, hs))) =
    decode_two a (b / 16) _ h (omega arith)
    ∙ ap (prepend (a ∷ [])) (
        decode_third b (c / 64) _ k (omega arith)
        ∙ ap (prepend (b ∷ []))
            (decode_fourth c (b64_encode bs) l ∙ ap (prepend (c ∷ [])) (decode-encode bs hs)))

is_ascii-encode : (bs : List ℕ) → is_ascii (b64_encode bs) ≡ true
unfolding b64_encode
is_ascii-encode [] = refl
is_ascii-encode (a ∷ []) = rw (is_ascii-digit (a / 4), is_ascii-digit (a % 4 * 16)) refl
is_ascii-encode (a ∷ b ∷ []) =
    rw (is_ascii-digit (a / 4), is_ascii-digit (a % 4 * 16 + b / 16), is_ascii-digit (b % 16 * 4))
      refl
is_ascii-encode (a ∷ b ∷ c ∷ bs) =
    rw
      (
        is_ascii-digit (a / 4),
        is_ascii-digit (a % 4 * 16 + b / 16),
        is_ascii-digit (b % 16 * 4 + c / 64),
        is_ascii-digit (c % 64),
      )
      (is_ascii-encode bs)

-- The digits of bytes are read and encoded, and the encoding is decoded to the same digits, or, where it
-- is asked for, to the digits of the bytes in reverse.
pub hex_to_b64-b64_to_hex :
    (bs : List ℕ)
    → AreBytes bs
    → (b64 : Text) × (hex_to_b64 (hex_of bs) ≡ some b64)
      × (b64_to_hex b64 false ≡ some (hex_of bs))
      × (b64_to_hex b64 true ≡ some (hex_of (reverse bs)))
unfolding hex_to_b64 b64_to_hex b64_decode
hex_to_b64-b64_to_hex bs h =
    let decoded : b64_decode (b64_encode bs) ≡ some bs =
      rw (is_ascii-encode bs) (decode-encode bs h) in
    (
      b64_encode bs,
      ap encoded (from_hex-of bs h),
      ap (in_hex false) decoded,
      ap (in_hex true) decoded,
    )
