-- ===== src/Rng/Laws.antt =====
-- What a sample holds, from the laws of the positions.
use mathlib.Core.Option.{some-injective}
use mathlib.Core.Path.{subst}
use erlay_warnet.Prelude.{
  ℕ, zero, suc, ◌≤◌, ◌<◌, ◌≡◌, refl, true, false, Option, none, some, List, [], ◌∷◌, arith, length,
  get_elem?, contains, IsNodup, All, Bool-cases, inl, inr, le→ltb, ◌∙◌, All-of_contains,
}
use erlay_warnet.Rng.{Rng, IsLawful, cons_if, pick, sample}

module _ {ℓ} {A : Type ℓ} where
  get_elem?-below : (xs : List A) (i : ℕ) → i < length xs → (x : A) × (get_elem? xs i ≡ some x)
  get_elem?-below [] i h = absurd (omega arith)
  get_elem?-below (x ∷ xs) zero h = (x, refl)
  get_elem?-below (x ∷ xs) (suc i) h = get_elem?-below xs i (omega arith)

  get_elem?-All {κ} :
      (P : A → Type κ) (xs : List A) (i : ℕ) (x : A) → All P xs → get_elem? xs i ≡ some x → P x
  get_elem?-All P [] i x h e = cc
  get_elem?-All P (y ∷ xs) zero x h e = subst P (some-injective _ _ e) h.0
  get_elem?-All P (y ∷ xs) (suc i) x h e = get_elem?-All P xs i x h.1 e

  length-pick :
      (xs : List A) (is : List ℕ) → All (λ i. i < length xs) is → length (pick xs is) ≡ length is
  length-pick xs [] h = refl
  length-pick xs (i ∷ is) h = ground (arith, (get_elem?-below xs i h.0).1, length-pick xs is h.1)

  All-cons_if {κ} :
      (P : A → Type κ) (o : Option A) (xs : List A)
      → ((x : A) → o ≡ some x → P x)
      → All P xs
      → All P (cons_if o xs)
  All-cons_if P none xs h t = t
  All-cons_if P (some x) xs h t = (h x refl, t)

  All-pick {κ} : (P : A → Type κ) (xs : List A) (is : List ℕ) → All P xs → All P (pick xs is)
  All-pick P xs [] h = tt
  All-pick P xs (i ∷ is) h =
      All-cons_if P (get_elem? xs i) (pick xs is) (λ x e. get_elem?-All P xs i x h e)
        (All-pick P xs is h)

get_elem?-contains : (xs : List ℕ) (i : ℕ) (x : ℕ) → get_elem? xs i ≡ some x → contains xs x ≡ true
get_elem?-contains [] i x e = cc
get_elem?-contains (y ∷ xs) zero x e = ground arith
get_elem?-contains (y ∷ xs) (suc i) x e = ground (arith, get_elem?-contains xs i x e)

get_elem?-injective :
    (xs : List ℕ) (i j x : ℕ)
    → IsNodup xs
    → get_elem? xs i ≡ some x
    → get_elem? xs j ≡ some x
    → i ≡ j
get_elem?-injective [] i j x u p q = cc
get_elem?-injective (y ∷ xs) zero zero x u p q = refl
get_elem?-injective (y ∷ xs) zero (suc j) x u p q =
    absurd (ground (arith, get_elem?-contains xs j x q))
get_elem?-injective (y ∷ xs) (suc i) zero x u p q =
    absurd (ground (arith, get_elem?-contains xs i x p))
get_elem?-injective (y ∷ xs) (suc i) (suc j) x u p q =
    ground (arith, get_elem?-injective xs i j x u.1 p q)

-- A number that stands at one position only is picked only by that position.
pick_absent :
    (xs : List ℕ) (i : ℕ) (is : List ℕ) (x : ℕ)
    → IsNodup xs
    → get_elem? xs i ≡ some x
    → contains is i ≡ false
    → contains (pick xs is) x ≡ false
pick_absent xs i [] x u e h = refl
pick_absent xs i (j ∷ is) x u e h = elim (Bool-cases (contains (cons_if (get_elem? xs j) []) x)) [
  | inl same ↦ absurd (ground (arith, get_elem?-injective xs i j x u e))
  | inr other ↦ ground (arith, pick_absent xs i is x u e)
]

cons_if-IsNodup :
    (o : Option ℕ) (xs : List ℕ)
    → ((x : ℕ) → o ≡ some x → contains xs x ≡ false)
    → IsNodup xs
    → IsNodup (cons_if o xs)
cons_if-IsNodup none xs h u = u
cons_if-IsNodup (some x) xs h u = (h x refl, u)

pick-IsNodup : (xs is : List ℕ) → IsNodup xs → IsNodup is → IsNodup (pick xs is)
pick-IsNodup xs [] u h = tt
pick-IsNodup xs (i ∷ is) u h =
    cons_if-IsNodup (get_elem? xs i) (pick xs is) (λ x e. pick_absent xs i is x u e h.0)
      (pick-IsNodup xs is u h.1)

-- A sample that is not larger than the population raises nothing, has the size asked for, and holds
-- distinct members of the population.
pub record IsSample (xs : List ℕ) (k : ℕ) (ys : List ℕ) : Type 0 where
  pub sized : length ys ≡ k
  pub distinct : IsNodup ys
  pub drawn : All (λ y. contains xs y ≡ true) ys

module _ (R : Rng) (L : IsLawful R) where
  pub sample-IsSample :
      (xs : List ℕ) (k : ℕ) (s : R.State)
      → IsNodup xs
      → k ≤ length xs
      → (ys : List ℕ) × ((sample R xs k s).0 ≡ some ys) × IsSample xs k ys
  unfolding sample
  sample-IsSample xs k s u h =
      let is = (R.positions s (length xs) k).0 in
      (
        pick xs is,
        rw (le→ltb (length xs) k h) refl,
        record {
          sized =
              length-pick xs is (L.positions_below s (length xs) k h)
              ∙ L.length-positions s (length xs) k h;
          distinct = pick-IsNodup xs is u (L.positions-IsNodup s (length xs) k h);
          drawn =
              All-pick (λ y. contains xs y ≡ true) xs is
                (All-of_contains (λ y. contains xs y ≡ true) xs (λ a m. m));
        },
      )

  -- Of any population: the sample has the size asked for and every member has what all have.
  pub sample-All {ℓ κ} :
      {A : Type ℓ} (P : A → Type κ) (xs : List A) (k : ℕ) (s : R.State)
      → All P xs
      → k ≤ length xs
      → (ys : List A) × ((sample R xs k s).0 ≡ some ys) × (length ys ≡ k) × All P ys
  unfolding sample
  sample-All P xs k s a h =
      let is = (R.positions s (length xs) k).0 in
      (
        pick xs is,
        rw (le→ltb (length xs) k h) refl,
        length-pick xs is (L.positions_below s (length xs) k h)
            ∙ L.length-positions s (length xs) k h,
        All-pick P xs is a,
      )
