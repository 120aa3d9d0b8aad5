-- ===== src/Bandwidth/Broadcast/Plan.antt =====
-- What `broadcast_txs` sends: the transactions from the last to the first, each to the next node in turn.
use mathlib.Core.List.{reverse, reverse-append}
use native.Mathlib.Nat.{mod-add-mod, zero-mod}
use erlay_warnet.Prelude.{
  ℕ, zero, suc, ◌+◌, ◌<◌, ◌≡◌, ◌%◌, refl, sym, ap, ◌∙◌, arith, some, List, [], ◌∷◌, ◌++◌, length,
}
use erlay_warnet.Prelude.Result.{Result, ok, err, ◌>>=◌}
use erlay_warnet.Bandwidth.Broadcast.{SendRpc, pop, broadcast_from, broadcast_txs}

length-snoc {ℓ} : {A : Type ℓ} (xs : List A) (x : A) → length (xs ++ (x ∷ [])) ≡ suc (length xs)
length-snoc [] x = refl
length-snoc (y ∷ xs) x = ap suc (length-snoc xs x)

module _ (N : SendRpc) (nodes : ℕ) where
  pop-snoc :
      (tx : N.Tx) (txs : List N.Tx)
      → let (last, rest) = pop N nodes tx txs in (tx ∷ txs) ≡ rest ++ (last ∷ [])
  unfolding pop
  pop-snoc tx [] = refl
  pop-snoc tx (next ∷ txs) = ap (◌∷◌ tx) (pop-snoc next txs)

  -- One transaction after the other: the first to the node `k % nodes`, the next to the one after it.
  abbrev pub deal : ℕ → List N.Tx → List (ℕ × N.Tx)
  deal k [] = []
  deal k (tx ∷ txs) = (k % nodes, tx) ∷ deal (suc k) txs

  abbrev pub send_all : List (ℕ × N.Tx) → N.State → Result N.Error N.State
  send_all [] s = ok s
  send_all ((node, tx) ∷ sends) s = N.send node tx s >>= send_all sends

  next_plan :
      (fuel k : ℕ) (rest : List N.Tx) (r : Result N.Error N.State)
      → ((s : N.State)
          → broadcast_from N nodes fuel (suc k % nodes) rest s
            ≡ some (send_all (deal (suc k) (reverse rest)) s))
      → (elim r [
        | ok s ↦ broadcast_from N nodes fuel ((k % nodes + 1) % nodes) rest s
        | err e ↦ some (err e)
      ])
        ≡ some (r >>= send_all (deal (suc k) (reverse rest)))
  next_plan fuel k rest (ok s) ih =
      let next : k + 1 ≡ suc k = omega arith in
      rw (mod-add-mod k nodes 1 ∙ ap (λ x. x % nodes) next) (ih s)
  next_plan fuel k rest (err e) ih = refl

  broadcast_from-plan :
      (fuel k : ℕ) (txs : List N.Tx) (s : N.State)
      → length txs < fuel
      → broadcast_from N nodes fuel (k % nodes) txs s ≡ some (send_all (deal k (reverse txs)) s)
  unfolding broadcast_from
  broadcast_from-plan zero k txs s h = elim h [ ]
  broadcast_from-plan (suc fuel) k [] s h = refl
  broadcast_from-plan (suc fuel) k (tx ∷ txs) s h =
      let last = (pop N nodes tx txs).0 in
      let rest = (pop N nodes tx txs).1 in
      let e : tx ∷ txs ≡ rest ++ (last ∷ []) = pop-snoc tx txs in
      let fits : length rest < fuel = omega (arith, h, ap length e, length-snoc rest last) in
      next_plan fuel k rest (N.send (k % nodes) last s)
        (λ s'. broadcast_from-plan fuel (suc k) rest s' fits)
      ∙ ap (λ sends. some (send_all (deal k sends) s))
          (sym (ap reverse e ∙ reverse-append rest (last ∷ [])))

  -- For every list of transactions: the loop ends, having sent the last transaction of the list to the
  -- first node, and each one before it to the node after that, around the nodes; where a send raises,
  -- with its error and nothing sent after it.
  pub broadcast_txs-plan :
      (txs : List N.Tx) (s : N.State)
      → broadcast_txs N nodes txs s ≡ some (send_all (deal 0 (reverse txs)) s)
  unfolding broadcast_txs
  broadcast_txs-plan txs s =
      ap (λ n. broadcast_from N nodes (length txs + 1) n txs s) (sym (zero-mod nodes))
      ∙ broadcast_from-plan (length txs + 1) 0 txs s (omega arith)
