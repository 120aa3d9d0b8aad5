-- ===== src/Prelude/Lists.antt =====
-- Lists measured and indexed by native numbers, under the library's names, with Python's `range`,
-- a comprehension's filter, and membership as a Boolean test on numbers.
use Prim.Native.Nat.{ℕ, zero, suc, ◌+◌, ◌-◌, ◌≤◌, ◌<◌}
use mathlib.Core.Path.{◌≡◌, refl, ap}
use mathlib.Core.Logic.{inl, inr}
use mathlib.Core.Bool.{Bool, true, false, ◌||◌, ◌&&◌}
use mathlib.Core.List.{List, [], ◌∷◌, ◌++◌, map}
use mathlib.Core.Option.{Option, none, some}
use native.Mathlib.Omega.{arith}
use erlay_warnet.Prelude.Tests.{ltb, ◌==◌, if◌then◌else◌, Bool-cases}

module _ {ℓ} {A : Type ℓ} where
  abbrev pub length : List A → ℕ
  length [] = 0
  length (x ∷ xs) = suc (length xs)

  abbrev pub get_elem? : List A → ℕ → Option A
  get_elem? [] i = none
  get_elem? (x ∷ xs) zero = some x
  get_elem? (x ∷ xs) (suc i) = get_elem? xs i

  abbrev pub take : ℕ → List A → List A
  take zero xs = []
  take (suc n) [] = []
  take (suc n) (x ∷ xs) = x ∷ take n xs

  abbrev pub drop : ℕ → List A → List A
  drop zero xs = xs
  drop (suc n) [] = []
  drop (suc n) (x ∷ xs) = drop n xs

  abbrev pub All {κ} : (A → Type κ) → List A → Type κ
  All P [] = Unit
  All P (x ∷ xs) = P x × All P xs

  -- `[x for x in xs if test(x)]`
  abbrev pub keep : (A → Bool) → List A → List A
  keep test [] = []
  keep test (x ∷ xs) = let rest = keep test xs in if test x then x ∷ rest else rest

  pub length-append : (xs ys : List A) → length (xs ++ ys) ≡ length xs + length ys
  length-append [] ys = omega arith
  length-append (x ∷ xs) ys = omega (arith, length-append xs ys)

  pub length-keep : (test : A → Bool) (xs : List A) → length (keep test xs) ≤ length xs
  length-keep test [] = omega arith
  length-keep test (x ∷ xs) = ground (arith, length-keep test xs)

  pub keep-append :
      (test : A → Bool) (xs ys : List A) → keep test (xs ++ ys) ≡ keep test xs ++ keep test ys
  keep-append test [] ys = refl
  keep-append test (x ∷ xs) ys = elim (Bool-cases (test x)) [
    | inl e ↦ rw e (ap (◌∷◌ x) (keep-append test xs ys))
    | inr e ↦ rw e (keep-append test xs ys)
  ]

  pub keep-id : (test : A → Bool) (xs : List A) → All (λ x. test x ≡ true) xs → keep test xs ≡ xs
  keep-id test [] h = refl
  keep-id test (x ∷ xs) (e, h) = rw e (ap (◌∷◌ x) (keep-id test xs h))

  pub keep-none : (test : A → Bool) (xs : List A) → All (λ x. test x ≡ false) xs → keep test xs ≡ []
  keep-none test [] h = refl
  keep-none test (x ∷ xs) (e, h) = rw e (keep-none test xs h)

  pub All-keep : (test : A → Bool) (xs : List A) → All (λ x. test x ≡ true) (keep test xs)
  All-keep test [] = tt
  All-keep test (x ∷ xs) = elim (Bool-cases (test x)) [
    | inl e ↦ rw e (e, All-keep test xs)
    | inr e ↦ rw e (All-keep test xs)
  ]

pub length-map {ℓ κ} :
    {A : Type ℓ} {B : Type κ} (xs : List A) (f : A → B) → length (map f xs) ≡ length xs
length-map [] f = refl
length-map (x ∷ xs) f = ap suc (length-map xs f)

abbrev pub contains : List ℕ → ℕ → Bool
contains [] a = false
contains (x ∷ xs) a = (x == a) || contains xs a

abbrev pub count : ℕ → List ℕ → ℕ
count a [] = 0
count a (x ∷ xs) = (if x == a then 1 else 0) + count a xs

-- No number stands in the list twice.
abbrev pub IsNodup : List ℕ → Type 0
IsNodup [] = Unit
IsNodup (x ∷ xs) = (contains xs x ≡ false) × IsNodup xs

abbrev pub sum : List ℕ → ℕ
sum [] = 0
sum (x ∷ xs) = x + sum xs

-- `range(start, start + n)`
unfoldable pub range_from : ℕ → ℕ → List ℕ
range_from start zero = []
range_from start (suc n) = start ∷ range_from (suc start) n

unfoldable pub range : ℕ → List ℕ
unfolding range_from
range n = range_from 0 n

count-range_from :
    (a start n : ℕ)
    → count a (range_from start n) ≡ (if ltb a start then 0 else if ltb a (start + n) then 1 else 0)
unfolding range_from
count-range_from a start zero = ground arith
count-range_from a start (suc n) = ground (arith, count-range_from a (suc start) n)

pub count-range : (a n : ℕ) → count a (range n) ≡ (if ltb a n then 1 else 0)
unfolding range
count-range a n = ground (arith, count-range_from a 0 n)

pub contains-count : (xs : List ℕ) (a : ℕ) → contains xs a ≡ ltb 0 (count a xs)
contains-count [] a = refl
contains-count (x ∷ xs) a = ground (arith, contains-count xs a)

pub contains-range : (n a : ℕ) → contains (range n) a ≡ ltb a n
contains-range n a = ground (arith, contains-count (range n) a, count-range a n)

IsNodup-of_count : (xs : List ℕ) → ((a : ℕ) → count a xs ≤ 1) → IsNodup xs
IsNodup-of_count [] h = tt
IsNodup-of_count (x ∷ xs) h =
    (ground (arith, contains-count xs x, h x), IsNodup-of_count xs (λ a. ground (arith, h a)))

pub range-IsNodup : (n : ℕ) → IsNodup (range n)
range-IsNodup n = IsNodup-of_count (range n) (λ a. ground (arith, count-range a n))

length-range_from : (start n : ℕ) → length (range_from start n) ≡ n
unfolding range_from
length-range_from start zero = refl
length-range_from start (suc n) = ap suc (length-range_from (suc start) n)

pub length-range : (n : ℕ) → length (range n) ≡ n
unfolding range
length-range n = length-range_from 0 n

pub contains-keep :
    (test : ℕ → Bool) (xs : List ℕ) (a : ℕ) → contains (keep test xs) a ≡ (contains xs a && test a)
contains-keep test [] a = refl
contains-keep test (x ∷ xs) a = elim (Bool-cases (x == a)) [
  | inl e ↦ ground (arith, contains-keep test xs a)
  | inr e ↦ ground (arith, contains-keep test xs a)
]

pub keep-IsNodup : (test : ℕ → Bool) (xs : List ℕ) → IsNodup xs → IsNodup (keep test xs)
keep-IsNodup test [] h = tt
keep-IsNodup test (x ∷ xs) h = ground (arith, contains-keep test xs x, keep-IsNodup test xs h.1)

-- A statement about each number of a list, from one about the numbers that it contains.
pub All-of_contains {κ} :
    (P : ℕ → Type κ) (xs : List ℕ) → ((a : ℕ) → contains xs a ≡ true → P a) → All P xs
All-of_contains P [] h = tt
All-of_contains P (x ∷ xs) h =
    (h x (ground arith), All-of_contains P xs (λ a m. h a (ground arith)))

get_elem?-range_from : (start n i : ℕ) → i < n → get_elem? (range_from start n) i ≡ some (start + i)
unfolding range_from
get_elem?-range_from start zero i h = elim h [ ]
get_elem?-range_from start (suc n) zero h = ground arith
get_elem?-range_from start (suc n) (suc i) h = ground (arith, get_elem?-range_from (suc start) n i)

pub get_elem?-range : (n i : ℕ) → i < n → get_elem? (range n) i ≡ some i
unfolding range
get_elem?-range n i h = ground (arith, get_elem?-range_from 0 n i)

pub get_elem?-map {ℓ κ} :
    {A : Type ℓ} {B : Type κ} (f : A → B) (xs : List A) (i : ℕ) (x : A)
    → get_elem? xs i ≡ some x
    → get_elem? (map f xs) i ≡ some (f x)
get_elem?-map f [] i x e = cc
get_elem?-map f (y ∷ xs) zero x e = cc
get_elem?-map f (y ∷ xs) (suc i) x e = get_elem?-map f xs i x e

module _ {ℓ κ} {A : Type ℓ} where
  pub All-mono : (P Q : A → Type κ) (xs : List A) → ((a : A) → P a → Q a) → All P xs → All Q xs
  All-mono P Q [] h a = tt
  All-mono P Q (x ∷ xs) h (p, ps) = (h x p, All-mono P Q xs h ps)

  pub keep-All : (P : A → Type κ) (test : A → Bool) (xs : List A) → All P xs → All P (keep test xs)
  keep-All P test [] h = tt
  keep-All P test (x ∷ xs) (p, ps) = elim (Bool-cases (test x)) [
    | inl e ↦ rw e (p, keep-All P test xs ps)
    | inr e ↦ rw e (keep-All P test xs ps)
  ]

pub map-All {ℓ κ μ} :
    {A : Type ℓ} {B : Type κ} (P : B → Type μ) (f : A → B) (xs : List A)
    → All (λ a. P (f a)) xs
    → All P (map f xs)
map-All P f [] h = tt
map-All P f (x ∷ xs) (p, ps) = (p, map-All P f xs ps)

pub All-of_map {ℓ κ μ} :
    {A : Type ℓ} {B : Type κ} (P : B → Type μ) (f : A → B) (xs : List A)
    → All P (map f xs)
    → All (λ a. P (f a)) xs
All-of_map P f [] h = tt
All-of_map P f (x ∷ xs) (p, ps) = (p, All-of_map P f xs ps)

pub All-intro {ℓ κ} : {A : Type ℓ} (P : A → Type κ) → ((a : A) → P a) → (xs : List A) → All P xs
All-intro P h [] = tt
All-intro P h (x ∷ xs) = (h x, All-intro P h xs)

pub length-take_le {ℓ} : {A : Type ℓ} (n : ℕ) (xs : List A) → n ≤ length xs → length (take n xs) ≡ n
length-take_le zero xs h = refl
length-take_le (suc n) [] h = absurd (omega arith)
length-take_le (suc n) (x ∷ xs) h = ap suc (length-take_le n xs (omega arith))

pub length-drop {ℓ} : {A : Type ℓ} (n : ℕ) (xs : List A) → length (drop n xs) ≡ length xs - n
length-drop zero xs = omega arith
length-drop (suc n) [] = omega arith
length-drop (suc n) (x ∷ xs) = omega (arith, length-drop n xs)

module _ {ℓ κ} {A : Type ℓ} where
  pub take-All : (P : A → Type κ) (n : ℕ) (xs : List A) → All P xs → All P (take n xs)
  take-All P zero xs h = tt
  take-All P (suc n) [] h = tt
  take-All P (suc n) (x ∷ xs) (p, ps) = (p, take-All P n xs ps)

  pub drop-All : (P : A → Type κ) (n : ℕ) (xs : List A) → All P xs → All P (drop n xs)
  drop-All P zero xs h = h
  drop-All P (suc n) [] h = tt
  drop-All P (suc n) (x ∷ xs) (p, ps) = drop-All P n xs ps

  pub All-append : (P : A → Type κ) (xs ys : List A) → All P xs → All P ys → All P (xs ++ ys)
  All-append P [] ys h k = k
  All-append P (x ∷ xs) ys (p, ps) k = (p, All-append P xs ys ps k)
