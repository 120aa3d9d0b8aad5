-- ===== src/Network/Attempt.antt =====
-- One attempt at a graph: an action on the generator's state that ends with a value, in a deadlock
-- (`return None`) or with the `ValueError` of `sample`. The state moves on however it ends.
use erlay_warnet.Prelude.{Option, none, some}
use erlay_warnet.Rng.{Rng}

pub data Outcome (A : Type 0) : Type 0 where
  done : A → Outcome A
  deadlock : Outcome A
  value_error : Outcome A

abbrev pub or_value_error : {A : Type 0} → Option A → Outcome A
or_value_error none = value_error
or_value_error (some a) = done a

-- The value has the property, and no error was raised; a deadlock promises nothing.
abbrev pub Holds : {A : Type 0} → (A → Type 0) → Outcome A → Type 0
Holds P (done a) = P a
Holds P deadlock = Unit
Holds P value_error = ⊥

module _ (R : Rng) where
  abbrev pub Attempt : Type 0 → Type 0
  Attempt A = R.State → Outcome A × R.State

  module _ {A : Type 0} where
    abbrev pub pure : A → Attempt A
    pure a s = (done a, s)

    abbrev pub give_up : Attempt A
    give_up s = (deadlock, s)

  abbrev pub continue : {A B : Type 0} → (A → Attempt B) → Outcome A → R.State → Outcome B × R.State
  continue f (done a) s = f a s
  continue f deadlock s = (deadlock, s)
  continue f value_error s = (value_error, s)

  abbrev pub bind : {A B : Type 0} → Attempt A → (A → Attempt B) → Attempt B
  bind m f s = continue f (m s).0 (m s).1

  -- Whatever the state.
  abbrev pub Yields : {A : Type 0} → (A → Type 0) → Attempt A → Type 0
  Yields P m = (s : R.State) → Holds P (m s).0

  continue-Holds :
      {A B : Type 0} (P : A → Type 0) (Q : B → Type 0) (f : A → Attempt B) (o : Outcome A)
      (s : R.State)
      → Holds P o
      → ((a : A) → P a → Yields Q (f a))
      → Holds Q (continue f o s).0
  continue-Holds P Q f (done a) s h k = k a h s
  continue-Holds P Q f deadlock s h k = tt
  continue-Holds P Q f value_error s h k = h

  pub bind-Yields :
      {A B : Type 0} (P : A → Type 0) (Q : B → Type 0) (m : Attempt A) (f : A → Attempt B)
      → Yields P m
      → ((a : A) → P a → Yields Q (f a))
      → Yields Q (bind m f)
  bind-Yields P Q m f h k s = continue-Holds P Q f (m s).0 (m s).1 (h s) k

pub Holds-map :
    {A : Type 0} (P Q : A → Type 0) (o : Outcome A) → ((a : A) → P a → Q a) → Holds P o → Holds Q o
Holds-map P Q (done a) h p = h a p
Holds-map P Q deadlock h p = tt
Holds-map P Q value_error h p = p
