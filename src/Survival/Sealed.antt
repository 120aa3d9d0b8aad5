-- ===== src/Survival/Sealed.antt =====
-- Which peers the victim disconnects.
use erlay_warnet.Prelude.{
  ◌≡◌, ◌↔◌, refl, ap, ◌∙◌, sym, arith, inl, inr, true, [], ◌∷◌, ◌++◌, ==→eq, ==_refl, Bool-cases,
}
use erlay_warnet.Prelude.Text.{Text}
use erlay_warnet.Survival.{is_prefix, is_in, Peer, dropped}

is_prefix-append : (part rest : Text) → is_prefix part (part ++ rest) ≡ true
unfolding is_prefix
is_prefix-append [] rest = refl
is_prefix-append (c ∷ part) rest = ground (arith, ==_refl c, is_prefix-append part rest)

is_prefix-rest :
    (part text : Text) → is_prefix part text ≡ true → (rest : Text) × (text ≡ part ++ rest)
unfolding is_prefix
is_prefix-rest [] text h = (text, refl)
is_prefix-rest (c ∷ part) [] h = cc
is_prefix-rest (c ∷ part) (d ∷ text) h =
    let (rest, e) = is_prefix-rest part text (ground (arith, h)) in
    let same : c ≡ d = ==→eq c d (ground (arith, h)) in
    (rest, ap (◌∷◌ d) e ∙ ap (λ x. x ∷ (part ++ rest)) (sym same))

is_in-append : (before part after : Text) → is_in part (before ++ (part ++ after)) ≡ true
unfolding is_in
is_in-append [] [] [] = refl
is_in-append [] [] (c ∷ after) = refl
is_in-append [] (c ∷ part) after = rw (is_prefix-append (c ∷ part) after) refl
is_in-append (c ∷ before) part after = rw (is_in-append before part after) (ground arith)

is_in-parts :
    (part text : Text)
    → is_in part text ≡ true
    → (before : Text) × (after : Text) × (text ≡ before ++ (part ++ after))
unfolding is_in
is_in-parts part [] h = let (rest, e) = is_prefix-rest part [] h in ([], rest, e)
is_in-parts part (c ∷ text) h = elim (Bool-cases (is_prefix part (c ∷ text))) [
  | inl p ↦ let (rest, e) = is_prefix-rest part (c ∷ text) p in ([], rest, e)
  | inr p ↦
      let (before, after, e) = is_in-parts part text (rw p at h) in
      (c ∷ before, after, ap (◌∷◌ c) e)
]

-- A peer is disconnected exactly where the host of the miner stands anywhere in its address: at its start
-- before the port, but also where another host only begins or ends with the same characters.
pub dropped_addresses :
    (miner_host : Text) (p : Peer)
    → (dropped miner_host (p ∷ []) ≡ p ∷ [])
      ↔ ((before : Text) × (after : Text) × (p.addr ≡ before ++ (miner_host ++ after)))
unfolding dropped
dropped_addresses miner_host p = (
  λ e. elim (Bool-cases (is_in miner_host p.addr)) [
    | inl h ↦ is_in-parts miner_host p.addr h
    | inr h ↦ let gone = rw h at e in cc
  ],
  λ (before, after, e).
      let there = ap (is_in miner_host) e ∙ is_in-append before miner_host after in rw there refl,
)
