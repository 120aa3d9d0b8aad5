-- ===== src/Commander/Waiting.antt =====
-- `BitcoinTestFramework.wait_until`, a parameter of the scenarios: it looks at a predicate from a moment on
-- and returns the moment at which it held, or raises over its timeout.
use erlay_warnet.Prelude.{
  ◌⊎◌, ◌∙◌, sym, ap, refl, ℕ, zero, suc, ◌≤◌, ◌≡◌, Bool, true, false, Option, none, some, arith,
  if◌then◌else◌, Bool-cases, inl, inr,
}
use erlay_warnet.Prelude.Result.{of_option, Result, Ends, bind-Ends, ◌>>=◌}

-- The timeout is `none` where the call leaves it out.
pub record Waiting : Type 0 where
  pub wait_until : (timeout : Option ℕ) → (ℕ → Bool) → (start : ℕ) → Option ℕ

-- A wait ends at a moment at which the predicate holds, and never before it began; a predicate that holds
-- at once does not let it raise, unless it has no time at all.
pub record IsLawful (W : Waiting) : Type 0 where
  pub ends_where_it_holds :
      (timeout : Option ℕ) (holds : ℕ → Bool) (start finish : ℕ)
      → W.wait_until timeout holds start ≡ some finish
      → (start ≤ finish) × (holds finish ≡ true)
  pub raises_where_it_fails :
      (timeout : Option ℕ) (holds : ℕ → Bool) (start : ℕ)
      → W.wait_until timeout holds start ≡ none
      → (holds start ≡ false) ⊎ (timeout ≡ some 0)

-- The wait as a step that raises `e`.
abbrev pub wait_or : {E : Type 0} → Waiting → E → Option ℕ → (ℕ → Bool) → ℕ → Result E ℕ
wait_or W e timeout holds start = of_option e (W.wait_until timeout holds start)

-- A wait ends at a later moment where the predicate holds, or raises: it was false at the start, or had
-- no time. By what follows either, the steps that begin with a wait end.
module _ {E : Type 0} (W : Waiting) (L : IsLawful W) (e : E) (timeout : Option ℕ) (holds : ℕ → Bool)
    (start : ℕ) where
  pub wait-last :
      (Q : ℕ → Type 0) (F : E → Type 0)
      → ((t : ℕ) → start ≤ t → holds t ≡ true → Q t)
      → ((holds start ≡ false) ⊎ (timeout ≡ some 0) → F e)
      → Ends Q F (wait_or W e timeout holds start)
  wait-last Q F k h =
      go (W.wait_until timeout holds start) (L.ends_where_it_holds timeout holds start)
        (L.raises_where_it_fails timeout holds start)
    where
      go :
          (o : Option ℕ)
          → ((finish : ℕ) → o ≡ some finish → (start ≤ finish) × (holds finish ≡ true))
          → (o ≡ none → (holds start ≡ false) ⊎ (timeout ≡ some 0))
          → Ends Q F (of_option e o)
      go none a b = h (b refl)
      go (some t) a b = k t (a t refl).0 (a t refl).1

  pub wait-then :
      {A : Type 0} (f : ℕ → Result E A) (Q : A → Type 0) (F : E → Type 0)
      → ((t : ℕ) → start ≤ t → holds t ≡ true → Ends Q F (f t))
      → ((holds start ≡ false) ⊎ (timeout ≡ some 0) → F e)
      → Ends Q F (wait_or W e timeout holds start >>= f)
  wait-then f Q F k h =
      bind-Ends (λ t. Ends Q F (f t)) Q F f _ (wait-last (λ t. Ends Q F (f t)) F k h) (λ t q. q)

-- A wait that looks at each moment up to its timeout, 60 where there is none.
search : (holds : ℕ → Bool) (fuel start : ℕ) → Option ℕ
search holds zero start = none
search holds (suc fuel) start =
    let rest = search holds fuel (suc start) in if holds start then some start else rest

unfoldable pub at_each_moment : Waiting
unfolding search
at_each_moment = record {
  wait_until =
      λ timeout holds start. search holds (elim timeout [ none ↦ 61 | some n ↦ suc n ]) start;
}

abbrev IsFound : (ℕ → Bool) → ℕ → Option ℕ → Type 0
IsFound holds start none = Unit
IsFound holds start (some t) = (start ≤ t) × (holds t ≡ true)

IsFound-later :
    (holds : ℕ → Bool) (start : ℕ) (o : Option ℕ)
    → IsFound holds (suc start) o
    → IsFound holds start o
IsFound-later holds start none h = tt
IsFound-later holds start (some t) (h, k) = (omega arith, k)

search-IsFound : (holds : ℕ → Bool) (fuel start : ℕ) → IsFound holds start (search holds fuel start)
unfolding search
search-IsFound holds zero start = tt
search-IsFound holds (suc fuel) start = elim (Bool-cases (holds start)) [
  | inl e ↦ rw e (omega arith, e)
  | inr e ↦ rw e (IsFound-later holds start _ (search-IsFound holds fuel (suc start)))
]

found_at :
    (holds : ℕ → Bool) (start finish : ℕ) (o : Option ℕ)
    → IsFound holds start o
    → o ≡ some finish
    → (start ≤ finish) × (holds finish ≡ true)
found_at holds start finish none h e = cc
found_at holds start finish (some t) h e = let same : t ≡ finish = cc in rw (← same) h

search-none :
    (holds : ℕ → Bool) (fuel start : ℕ) → search holds (suc fuel) start ≡ none → holds start ≡ false
unfolding search
search-none holds fuel start h = elim (Bool-cases (holds start)) [
  | inl e ↦ go e (ap (λ b. if b then some start else search holds fuel (suc start)) (sym e) ∙ h)
  | inr e ↦ e
]
  where
    go : holds start ≡ true → some start ≡ none → holds start ≡ false
    go e d = cc

pub at_each_moment-IsLawful : IsLawful at_each_moment
unfolding at_each_moment
at_each_moment-IsLawful = record {
  ends_where_it_holds = λ timeout holds start finish h.
      found_at holds start finish _ (search-IsFound holds _ start) h;
  raises_where_it_fails = λ timeout holds start h. raises timeout holds start h;
}
  where
    raises :
        (timeout : Option ℕ) (holds : ℕ → Bool) (start : ℕ)
        → search holds (elim timeout [ none ↦ 61 | some n ↦ suc n ]) start ≡ none
        → (holds start ≡ false) ⊎ (timeout ≡ some 0)
    raises none holds start h = inl (search-none holds 60 start h)
    raises (some n) holds start h = inl (search-none holds n start h)
