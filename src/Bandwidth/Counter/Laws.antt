-- ===== src/Bandwidth/Counter/Laws.antt =====
-- What `Counter` arithmetic does to each count.
use erlay_warnet.Prelude.{ℕ, ◌+◌, ◌-◌, ◌≡◌, ◌∙◌, Bool, not, arith}
use erlay_warnet.Prelude.Text.{Text}
use erlay_warnet.Bandwidth.Counter.{Counter, count_at, has_key, IsCounter, add, subtract}
use erlay_warnet.Bandwidth.Counter.Entries.{
  count_at-missing, changed, changed-IsCounter, count_at-changed, tested, tested-IsCounter,
  count_at-tested, count_at-append, append-IsCounter, apart,
}

-- The sum has the sum of the counts, and no key twice.
pub count_at-add :
    (a b : Counter) (k : Text)
    → IsCounter a
    → IsCounter b
    → count_at (add a b) k ≡ count_at a k + count_at b k
unfolding add
count_at-add a b k ha hb =
    let g : Text → ℕ → ℕ = λ j n. n + count_at b j in
    let p : Text → Bool = λ j. not (has_key a j) in
    count_at-append (changed g a) (tested p b) k
      (λ m. count_at-missing (tested p b) k (apart g a b k m))
    ∙ ground (arith, count_at-changed g a k ha, count_at-tested p b k hb, count_at-missing a k)

pub add-IsCounter : (a b : Counter) → IsCounter a → IsCounter b → IsCounter (add a b)
unfolding add
add-IsCounter a b ha hb =
    let g : Text → ℕ → ℕ = λ j n. n + count_at b j in
    let p : Text → Bool = λ j. not (has_key a j) in
    append-IsCounter (changed g a) (tested p b) (changed-IsCounter g a ha) (tested-IsCounter p b hb)
      (apart g a b)

-- The difference has the difference of the counts, 0 where the second count is larger.
pub count_at-subtract :
    (a b : Counter) (k : Text)
    → IsCounter a
    → count_at (subtract a b) k ≡ count_at a k - count_at b k
unfolding subtract
count_at-subtract a b k ha =
    let g : Text → ℕ → ℕ = λ j n. n - count_at b j in
    ground (arith, count_at-changed g a k ha, count_at-missing a k)

pub subtract-IsCounter : (a b : Counter) → IsCounter a → IsCounter (subtract a b)
unfolding subtract
subtract-IsCounter a b ha = changed-IsCounter (λ j n. n - count_at b j) a ha
