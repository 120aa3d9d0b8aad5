-- ===== src/Prelude/Result.antt =====
-- A value or a raised error.
use erlay_warnet.Prelude.{Bool, true, false, ◌≡◌, refl, Option, none, some}

pub data Result {ℓ} (E : Type ℓ) (A : Type ℓ) : Type ℓ where
  ok : A → Result E A
  err : E → Result E A

module _ {E : Type 0} where
  infixl 5 ◌>>=◌ ◌>>◌
  abbrev pub ◌>>=◌ : {A B : Type 0} → Result E A → (A → Result E B) → Result E B
  ok a >>= f = f a
  err e >>= f = err e

  abbrev pub ◌>>◌ : {B : Type 0} → Result E (Unit {0}) → Result E B → Result E B
  m >> k = m >>= λ _. k

  -- `if test: raise e`
  abbrev pub raise_if : Bool → E → Result E (Unit {0})
  raise_if true e = err e
  raise_if false e = ok tt

  -- `assert test, e`
  abbrev pub check : Bool → E → Result E (Unit {0})
  check true e = ok tt
  check false e = err e

  -- The value has the one property, or the error the other.
  abbrev pub Ends : {A : Type 0} → (A → Type 0) → (E → Type 0) → Result E A → Type 0
  Ends P F (ok a) = P a
  Ends P F (err e) = F e

  pub bind-Ends :
      {A B : Type 0} (P : A → Type 0) (Q : B → Type 0) (F : E → Type 0) (f : A → Result E B)
      (r : Result E A)
      → Ends P F r
      → ((a : A) → P a → Ends Q F (f a))
      → Ends Q F (r >>= f)
  bind-Ends P Q F f (ok a) h k = k a h
  bind-Ends P Q F f (err e) h k = h

  pub Ends-mono :
      {A : Type 0} (P Q : A → Type 0) (F : E → Type 0) (r : Result E A)
      → ((a : A) → P a → Q a)
      → Ends P F r
      → Ends Q F r
  Ends-mono P Q F (ok a) k h = k a h
  Ends-mono P Q F (err e) k h = h

  -- What ends well ends with what the call returned.
  pub Ends-keep :
      {A : Type 0} (P : A → Type 0) (F : E → Type 0) (r : Result E A)
      → Ends P F r
      → Ends (λ a. P a × (r ≡ ok a)) F r
  Ends-keep P F (ok a) h = (h, refl)
  Ends-keep P F (err e) h = h

-- Both sides weakened.
pub Ends-weaken :
    {E A : Type 0} (P Q : A → Type 0) (F G : E → Type 0) (r : Result E A)
    → ((a : A) → P a → Q a)
    → ((e : E) → F e → G e)
    → Ends P F r
    → Ends Q G r
Ends-weaken P Q F G (ok a) k l h = k a h
Ends-weaken P Q F G (err e) k l h = l e h

abbrev pub of_option : {E A : Type 0} → E → Option A → Result E A
of_option e none = err e
of_option e (some a) = ok a

-- Steps that need a value, or a test: without it the error has its reason, and with it the rest goes on.
module _ {E B : Type 0} (Q : B → Type 0) (F : E → Type 0) (e : E) where
  pub given-then :
      {A : Type 0} (o : Option A) (f : A → Result E B)
      → (o ≡ none → F e)
      → ((a : A) → o ≡ some a → Ends Q F (f a))
      → Ends Q F (of_option e o >>= f)
  given-then none f h k = h refl
  given-then (some a) f h k = k a refl

  pub check-then :
      (test : Bool) (r : Result E B)
      → (test ≡ false → F e)
      → (test ≡ true → Ends Q F r)
      → Ends Q F (check test e >>= λ _. r)
  check-then true r h k = k refl
  check-then false r h k = h refl

  pub raise_if-then :
      (test : Bool) (r : Result E B)
      → (test ≡ true → F e)
      → (test ≡ false → Ends Q F r)
      → Ends Q F (raise_if test e >>= λ _. r)
  raise_if-then true r h k = h refl
  raise_if-then false r h k = k refl
