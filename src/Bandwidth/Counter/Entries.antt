-- ===== src/Bandwidth/Counter/Entries.antt =====
-- The entries of a counter under a change of its counts, a test on its keys, and in a row with others.
use erlay_warnet.Prelude.{
  ℕ, ◌+◌, ◌≡◌, refl, sym, ap, ◌∙◌, Bool, true, false, not, [], ◌∷◌, ◌++◌, map, keep, inl, inr,
  arith, ltb, if◌then◌else◌, Bool-cases, ◌&&◌, ◌||◌,
}
use erlay_warnet.Prelude.Text.{Text, text_eq, text_eq→eq, text_eq_refl}
use erlay_warnet.Bandwidth.Counter.{Counter, count_at, has_key, increment, IsCounter, positive}

text_ne : (s t u : Text) → text_eq s t ≡ true → text_eq s u ≡ false → text_eq t u ≡ false
text_ne s t u e n = rw (← text_eq→eq s t e) n

text_eq_sym : (s t : Text) → text_eq s t ≡ text_eq t s
text_eq_sym s t = elim (Bool-cases (text_eq s t)) [
  | inl e ↦ rw (text_eq→eq s t e) refl
  | inr e ↦ elim (Bool-cases (text_eq t s)) [
    | inl h ↦ rw (text_eq→eq t s h) refl
    | inr h ↦ e ∙ sym h
  ]
]

pub count_at-missing : (c : Counter) (k : Text) → has_key c k ≡ false → count_at c k ≡ 0
unfolding count_at
count_at-missing [] k h = refl
count_at-missing ((j, n) ∷ c) k h = elim (Bool-cases (text_eq j k)) [
  | inl e ↦ cc
  | inr e ↦ rw e (count_at-missing c k (rw e at h))
]

pub count_at-increment :
    (c : Counter) (k j : Text) (n : ℕ)
    → count_at (increment k n c) j ≡ count_at c j + (if text_eq k j then n else 0)
unfolding count_at increment
count_at-increment [] k j n = ground arith
count_at-increment ((i, m) ∷ c) k j n = elim (Bool-cases (text_eq i k)) [
  | inl e ↦ rw e (ground (arith, ap (λ x. text_eq x j) (text_eq→eq i k e)))
  | inr e ↦ elim (Bool-cases (text_eq i j)) [
    | inl h ↦ rw e (ground (arith, h, text_ne i j k h e, text_eq_sym k j))
    | inr h ↦ rw (e, h) (ground (arith, h, count_at-increment c k j n))
  ]
]

has_key-increment :
    (c : Counter) (k j : Text) (n : ℕ) → has_key (increment k n c) j ≡ (text_eq k j || has_key c j)
unfolding increment
has_key-increment [] k j n = ground arith
has_key-increment ((i, m) ∷ c) k j n = elim (Bool-cases (text_eq i k)) [
  | inl e ↦ rw e (ground (arith, ap (λ x. text_eq x j) (text_eq→eq i k e)))
  | inr e ↦ rw e (ground (arith, has_key-increment c k j n))
]

pub increment-IsCounter :
    (c : Counter) (k : Text) (n : ℕ) → IsCounter c → IsCounter (increment k n c)
unfolding increment
increment-IsCounter [] k n h = (refl, tt)
increment-IsCounter ((i, m) ∷ c) k n (new, h) = elim (Bool-cases (text_eq i k)) [
  | inl e ↦ rw e (new, h)
  | inr e ↦ rw e (
    ground (arith, has_key-increment c k i n, text_eq_sym k i, new, e),
    increment-IsCounter c k n h,
  )
]

-- The entries of a counter with their counts changed, and the positive ones kept.
module _ (g : Text → ℕ → ℕ) where
  abbrev pub changed : Counter → Counter
  changed c = keep positive (map (λ e. (e.0, g e.0 e.1)) c)

  pub has_key-changed :
      (c : Counter) (k : Text) → has_key c k ≡ false → has_key (changed c) k ≡ false
  has_key-changed [] k h = refl
  has_key-changed ((j, n) ∷ c) k h = elim (Bool-cases (text_eq j k)) [
    | inl e ↦ cc
    | inr e ↦ elim (Bool-cases (ltb 0 (g j n))) [
      | inl p ↦ rw (p, e) (has_key-changed c k (rw e at h))
      | inr p ↦ rw p (has_key-changed c k (rw e at h))
    ]
  ]

  pub changed-IsCounter : (c : Counter) → IsCounter c → IsCounter (changed c)
  changed-IsCounter [] h = tt
  changed-IsCounter ((j, n) ∷ c) (new, h) = elim (Bool-cases (ltb 0 (g j n))) [
    | inl p ↦ rw p (has_key-changed c j new, changed-IsCounter c h)
    | inr p ↦ rw p (changed-IsCounter c h)
  ]

  pub count_at-changed :
      (c : Counter) (k : Text)
      → IsCounter c
      → count_at (changed c) k ≡ (if has_key c k then g k (count_at c k) else 0)
  unfolding count_at
  count_at-changed [] k h = refl
  count_at-changed ((j, n) ∷ c) k (new, h) = elim (Bool-cases (text_eq j k)) [
    | inl e ↦ elim (Bool-cases (ltb 0 (g j n))) [
      | inl p ↦ rw (p, e) (ap (λ x. g x n) (text_eq→eq j k e))
      | inr p ↦
          rw (p, e)
            (count_at-missing (changed c) k (has_key-changed c k (rw (sym (text_eq→eq j k e)) new))
              ∙ ground (arith, p, ap (λ x. g x n) (text_eq→eq j k e)))
    ]
    | inr e ↦ elim (Bool-cases (ltb 0 (g j n))) [
      | inl p ↦ rw (p, e) (count_at-changed c k h)
      | inr p ↦ rw (p, e) (count_at-changed c k h)
    ]
  ]

-- The entries of a counter with a test on their keys, and the positive ones kept.
module _ (p : Text → Bool) where
  abbrev pub tested : Counter → Counter
  tested c = keep positive (keep (λ e. p e.0) c)

  pub has_key-tested :
      (c : Counter) (k : Text) → (p k && has_key c k) ≡ false → has_key (tested c) k ≡ false
  has_key-tested [] k h = refl
  has_key-tested ((j, n) ∷ c) k h = elim (Bool-cases (text_eq j k)) [
    | inl e ↦ rw (ap p (text_eq→eq j k e)) (ground (arith, h, e, has_key-tested c k))
    | inr e ↦ ground (arith, h, e, has_key-tested c k)
  ]

  pub tested-IsCounter : (c : Counter) → IsCounter c → IsCounter (tested c)
  tested-IsCounter [] h = tt
  tested-IsCounter ((j, n) ∷ c) (new, h) = elim (Bool-cases (p j)) [
    | inl e ↦ elim (Bool-cases (ltb 0 n)) [
      | inl q ↦ rw (e, q) (has_key-tested c j (ground (arith, new)), tested-IsCounter c h)
      | inr q ↦ rw (e, q) (tested-IsCounter c h)
    ]
    | inr e ↦ rw e (tested-IsCounter c h)
  ]

  pub count_at-tested :
      (c : Counter) (k : Text)
      → IsCounter c
      → count_at (tested c) k ≡ (if p k then count_at c k else 0)
  unfolding count_at
  count_at-tested [] k h = ground arith
  count_at-tested ((j, n) ∷ c) k (new, h) =
      let rest = count_at-tested c k h in
      let none_left = count_at-missing c j new in
      elim (Bool-cases (text_eq j k)) [
        | inl e ↦
            let same = text_eq→eq j k e in
            ground (arith, e, ap p same, ap (count_at c) same, rest, none_left)
        | inr e ↦ ground (arith, e, rest)
      ]

pub count_at-append :
    (x y : Counter) (k : Text)
    → (has_key x k ≡ true → count_at y k ≡ 0)
    → count_at (x ++ y) k ≡ count_at x k + count_at y k
unfolding count_at
count_at-append [] y k h = omega arith
count_at-append ((j, n) ∷ x) y k h = elim (Bool-cases (text_eq j k)) [
  | inl e ↦ ground (arith, e, h)
  | inr e ↦ ground (arith, e, count_at-append x y k, h)
]

has_key-append : (x y : Counter) (k : Text) → has_key (x ++ y) k ≡ (has_key x k || has_key y k)
has_key-append [] y k = refl
has_key-append ((j, n) ∷ x) y k = ground (arith, has_key-append x y k)

pub append-IsCounter :
    (x y : Counter)
    → IsCounter x
    → IsCounter y
    → ((k : Text) → has_key x k ≡ true → has_key y k ≡ false)
    → IsCounter (x ++ y)
append-IsCounter [] y h k apart = k
append-IsCounter ((j, n) ∷ x) y (new, h) k apart = (
  ground (arith, has_key-append x y j, new, apart j, text_eq_refl j),
  append-IsCounter x y h k (λ i m. apart i (ground (arith, m))),
)

pub apart :
    (g : Text → ℕ → ℕ) (a b : Counter) (k : Text)
    → has_key (changed g a) k ≡ true
    → has_key (tested (λ j. not (has_key a j)) b) k ≡ false
apart g a b k m = elim (Bool-cases (has_key a k)) [
  | inl e ↦ has_key-tested (λ j. not (has_key a j)) b k (ground (arith, e))
  | inr e ↦ let none = has_key-changed g a k e in cc
]
