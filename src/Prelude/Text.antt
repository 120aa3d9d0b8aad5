-- ===== src/Prelude/Text.antt =====
-- Text as the list of its character codes, and numbers in decimal with leading zeros.
use Prim.Native.Char.{code}
use Prim.Native.String.{String}
use erlay_warnet.Prelude.{
  ℕ, zero, suc, ◌+◌, ◌-◌, ◌*◌, ◌/◌, ◌%◌, ◌<◌, ◌≡◌, refl, ◌∙◌, Bool, true, false, ◌&&◌, List, [],
  ◌∷◌, ◌++◌, foldl, arith, ltb, ◌==◌, if◌then◌else◌, length, Bool-cases, inl, inr,
}
use mathlib.Core.List.{foldl-append}

abbrev pub Text : Type 0
Text = List ℕ

-- `String` has its own `[]` and `∷`.
abbrev pub codes : String → Text
codes String.[] = []
codes (String.◌∷◌ c s) = code c ∷ codes s

abbrev pub text_eq : Text → Text → Bool
text_eq [] [] = true
text_eq (a ∷ s) (b ∷ t) = (a == b) && text_eq s t
text_eq _ _ = false

pub text_eq_refl : (s : Text) → text_eq s s ≡ true
text_eq_refl [] = refl
text_eq_refl (a ∷ s) = ground (arith, text_eq_refl s)

pub text_eq→eq : (s t : Text) → text_eq s t ≡ true → s ≡ t
text_eq→eq [] [] h = refl
text_eq→eq (a ∷ s) (b ∷ t) h = ground (arith, text_eq→eq s t)
text_eq→eq [] (b ∷ t) h = ground arith
text_eq→eq (a ∷ s) [] h = ground arith

abbrev pub replicate : ℕ → ℕ → Text
replicate zero c = []
replicate (suc n) c = c ∷ replicate n c

decimal_from : ℕ → ℕ → Text
decimal_from zero n = []
decimal_from (suc f) n =
    let rest = decimal_from f (n / 10) in
    if ltb n 10 then (48 + n) ∷ [] else rest ++ ((48 + n % 10) ∷ [])

-- `str(n)` of a number: its value is fuel enough, since a division by ten leaves less.
unfoldable pub decimal : ℕ → Text
unfolding decimal_from
decimal n = decimal_from (suc n) n

-- `f"{n:0{width}d}"`
unfoldable pub padded : ℕ → ℕ → Text
unfolding decimal
padded width n = let t = decimal n in replicate (width - length t) 48 ++ t

abbrev add_digit : ℕ → ℕ → ℕ
add_digit acc c = acc * 10 + (c - 48)

-- The number that a text of digits stands for.
unfoldable pub value : Text → ℕ
value = foldl add_digit 0

value-decimal_from : (f n : ℕ) → n < f → value (decimal_from f n) ≡ n
unfolding value decimal_from
value-decimal_from zero n h = elim h [ ]
value-decimal_from (suc f) n h = elim (Bool-cases (ltb n 10)) [
  | inl e ↦ rw e (ground arith)
  | inr e ↦ rw e (
      foldl-append add_digit 0 (decimal_from f (n / 10)) ((48 + n % 10) ∷ [])
      ∙ ground (arith, value-decimal_from f (n / 10)))
]

value-zeros : (k : ℕ) (t : Text) → value (replicate k 48 ++ t) ≡ value t
unfolding value
value-zeros zero t = refl
value-zeros (suc k) t = value-zeros k t

-- Reading a padded number gives it back.
pub value-padded : (width n : ℕ) → value (padded width n) ≡ n
unfolding padded
value-padded width n =
    value-zeros (width - length (decimal n)) (decimal n)
    ∙ value-decimal_from (suc n) n (omega arith)

padded_four : padded 4 37 ≡ codes "0037"
unfolding padded
padded_four = refl

-- `t in ts`
abbrev pub has_text : Text → List Text → Bool
has_text t [] = false
has_text t (u ∷ us) = if text_eq u t then true else has_text t us

-- The order of Python's `str`, by code.
abbrev pub text_leb : Text → Text → Bool
text_leb [] t = true
text_leb (a ∷ s) [] = false
text_leb (a ∷ s) (b ∷ t) = if ltb a b then true else (a == b) && text_leb s t

-- `sorted`
abbrev pub insert_text : Text → List Text → List Text
insert_text t [] = t ∷ []
insert_text t (u ∷ us) =
    let rest = insert_text t us in if text_leb t u then t ∷ u ∷ us else u ∷ rest

unfoldable pub sort_texts : List Text → List Text
sort_texts [] = []
sort_texts (t ∷ ts) = insert_text t (sort_texts ts)
