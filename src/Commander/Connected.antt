-- ===== src/Commander/Connected.antt =====
-- The wait for the connections of all tanks, and the wallet of the miner.
use erlay_warnet.Prelude.{
  ==→eq, ◌==◌, ℕ, zero, suc, ◌+◌, ◌<◌, ◌≤◌, ◌≡◌, ◌↔◌, ◌⊎◌, if◌then◌else◌, refl, arith, inl, inr, ap,
  ◌||◌, Bool, true, false, Option, none, some, List, [], ◌∷◌, ◌++◌, leb, leb→le, Bool-cases, All,
}
use erlay_warnet.Prelude.Text.{Text, codes, text_eq, text_eq_refl, text_eq→eq}
use erlay_warnet.Commander.{
  Peer, is_initial, initial_count, tank_connected, wait_for_tanks_connected, has_wallet,
  ensure_miner,
}

-- A connection that was opened by hand: its type says so, or else the field of older nodes.
abbrev pub IsManual : Peer → Type 0
IsManual p = (p.connection_type ≡ some (codes "manual")) ⊎ (p.addnode ≡ some true)

-- There are `k` manual peers in the list, at as many positions.
abbrev pub HasManual : (k : ℕ) → List Peer → Type 0
HasManual zero ps = Unit {0}
HasManual (suc k) [] = ⊥
HasManual (suc k) (p ∷ ps) = (IsManual p × HasManual k ps) ⊎ HasManual (suc k) ps

abbrev is_typed : Option Text → Bool
is_typed o = elim o [ none ↦ false | some t ↦ text_eq t (codes "manual") ]

abbrev is_added : Option Bool → Bool
is_added o = elim o [ none ↦ false | some b ↦ b ]

typed-manual : (o : Option Text) → is_typed o ≡ true → o ≡ some (codes "manual")
typed-manual none e = cc
typed-manual (some t) e = ap some (text_eq→eq t (codes "manual") e)

added-true : (o : Option Bool) → is_added o ≡ true → o ≡ some true
added-true none e = cc
added-true (some true) e = refl
added-true (some false) e = cc

either_true : (a b : Bool) → (a || b) ≡ true → (a ≡ true) ⊎ (b ≡ true)
either_true true b e = inl refl
either_true false b e = inr e

right_true : (a b : Bool) → b ≡ true → (a || b) ≡ true
right_true true b e = refl
right_true false b e = e

is_initial-IsManual : (p : Peer) → is_initial p ≡ true → IsManual p
is_initial-IsManual p e = elim (either_true (is_typed p.connection_type) (is_added p.addnode) e) [
  | inl f ↦ inl (typed-manual p.connection_type f)
  | inr f ↦ inr (added-true p.addnode f)
]

IsManual-is_initial : (p : Peer) → IsManual p → is_initial p ≡ true
IsManual-is_initial p (inl e) = rw (e, text_eq_refl (codes "manual")) refl
IsManual-is_initial p (inr e) =
    right_true (is_typed p.connection_type) (is_added p.addnode) (rw e refl)

HasManual-of_count : (k : ℕ) (ps : List Peer) → k ≤ initial_count ps → HasManual k ps
unfolding initial_count
HasManual-of_count zero ps h = tt
HasManual-of_count (suc k) [] h = absurd (omega arith)
HasManual-of_count (suc k) (p ∷ ps) h = elim (Bool-cases (is_initial p)) [
  | inl e ↦ inl (is_initial-IsManual p e, HasManual-of_count k ps (ground (arith, e, h)))
  | inr e ↦ inr (HasManual-of_count (suc k) ps (ground (arith, e, h)))
]

count-of_HasManual : (k : ℕ) (ps : List Peer) → HasManual k ps → k ≤ initial_count ps
unfolding initial_count
count-of_HasManual zero ps h = omega arith
count-of_HasManual (suc k) [] h = absurd h
count-of_HasManual (suc k) (p ∷ ps) (inl (m, h)) =
    rw (IsManual-is_initial p m) (omega (arith, count-of_HasManual k ps h))
count-of_HasManual (suc k) (p ∷ ps) (inr h) = omega (arith, count-of_HasManual (suc k) ps h)

-- What ends the loop of a tank: an exception, or as many manual peers as it is to open.
abbrev pub IsLast : (init_peers : ℕ) → Option (List Peer) → Type 0
IsLast init_peers none = Unit {0}
IsLast init_peers (some peers) = HasManual init_peers peers

-- It does so at a poll before `fuel`.
abbrev pub HasConnected : ℕ → ℕ × (ℕ → Option (List Peer)) → Type 0
HasConnected fuel (init_peers, polls) = (i : ℕ) × (i < fuel) × IsLast init_peers (polls i)

-- How the loop of one tank ends, from the poll `i` on.
abbrev IsConnection : ℕ → (ℕ → Option (List Peer)) → (fuel i : ℕ) → Option ℕ → Type 0
IsConnection init_peers polls fuel i none =
    (j : ℕ) → i ≤ j → j < i + fuel → ¬ IsLast init_peers (polls j)
IsConnection init_peers polls fuel i (some k) =
    (i ≤ k) × (k < i + fuel) × IsLast init_peers (polls k)

later-IsConnection :
    (init_peers : ℕ) (polls : ℕ → Option (List Peer)) (fuel i : ℕ) (r : Option ℕ)
    → ¬ IsLast init_peers (polls i)
    → IsConnection init_peers polls fuel (suc i) r
    → IsConnection init_peers polls (suc fuel) i r
later-IsConnection init_peers polls fuel i none b h = λ j l m. elim (Bool-cases (i == j)) [
  | inl e ↦ rw (← ==→eq i j e) b
  | inr e ↦ h j (ground (arith, e, l)) (omega arith)
]
later-IsConnection init_peers polls fuel i (some k) b h = (omega arith, omega arith, h.2)

-- One poll: it ends the loop, or what follows decides.
polled-IsConnection :
    (init_peers : ℕ) (polls : ℕ → Option (List Peer)) (fuel i : ℕ) (rest : Option ℕ)
    (here : Option (List Peer))
    → polls i ≡ here
    → IsConnection init_peers polls fuel (suc i) rest
    → IsConnection init_peers polls (suc fuel) i (elim here [
      | none ↦ some i
      | some peers ↦ if leb init_peers (initial_count peers) then some i else rest
    ])
polled-IsConnection init_peers polls fuel i rest none e h = (omega arith, omega arith, rw e tt)
polled-IsConnection init_peers polls fuel i rest (some peers) e h =
    elim (Bool-cases (leb init_peers (initial_count peers))) [
      | inl f ↦ rw f (
        omega arith,
        omega arith,
        rw e (HasManual-of_count init_peers peers (leb→le init_peers (initial_count peers) f)),
      )
      | inr f ↦ rw f (
          later-IsConnection init_peers polls fuel i rest
            (rw e (λ m. absurd (ground (arith, f, count-of_HasManual init_peers peers m)))) h)
    ]

tank_connected-IsConnection :
    (init_peers : ℕ) (polls : ℕ → Option (List Peer)) (fuel i : ℕ)
    → IsConnection init_peers polls fuel i (tank_connected init_peers polls fuel i)
unfolding tank_connected
tank_connected-IsConnection init_peers polls zero i = λ j l m. absurd (omega arith)
tank_connected-IsConnection init_peers polls (suc fuel) i =
    polled-IsConnection init_peers polls fuel i (tank_connected init_peers polls fuel (suc i))
      (polls i) refl (tank_connected-IsConnection init_peers polls fuel (suc i))

module _ (init_peers : ℕ) (polls : ℕ → Option (List Peer)) (fuel : ℕ) (P : Type 0)
    (rest : Bool) where
  joined-HasConnected :
      (r : Option ℕ)
      → IsConnection init_peers polls fuel 0 r
      → ((rest ≡ true) ↔ P)
      → ((elim r [ none ↦ false | some _ ↦ rest ]) ≡ true)
        ↔ (HasConnected fuel (init_peers, polls) × P)
  joined-HasConnected none h k =
      (λ e. cc, λ (c, _). absurd (h c.0 (omega arith) (omega (arith, c.1)) c.2))
  joined-HasConnected (some i) h k = (λ e. ((i, omega (arith, h.1), h.2), k.0 e), λ (_, p). k.1 p)

-- For every number of polls that is allowed: the wait for all tanks ends within it exactly where each
-- tank, at one of these polls, shows as many manual peers as it is to open at its start, or raises.
pub wait_for_tanks_connected-HasConnected :
    (tanks : List (ℕ × (ℕ → Option (List Peer)))) (fuel : ℕ)
    → (wait_for_tanks_connected tanks fuel ≡ true) ↔ All (HasConnected fuel) tanks
unfolding wait_for_tanks_connected
wait_for_tanks_connected-HasConnected [] fuel = (λ e. tt, λ h. refl)
wait_for_tanks_connected-HasConnected ((init_peers, polls) ∷ tanks) fuel =
    joined-HasConnected init_peers polls fuel (All (HasConnected fuel) tanks)
      (wait_for_tanks_connected tanks fuel) (tank_connected init_peers polls fuel 0)
      (tank_connected-IsConnection init_peers polls fuel 0)
      (wait_for_tanks_connected-HasConnected tanks fuel)

has_wallet-added : (ws : List Text) (name : Text) → has_wallet name (ws ++ (name ∷ [])) ≡ true
has_wallet-added [] name = rw (text_eq_refl name) refl
has_wallet-added (w ∷ ws) name = elim (Bool-cases (text_eq w name)) [
  | inl e ↦ rw e refl
  | inr e ↦ rw e (has_wallet-added ws name)
]

has_wallet-kept :
    (ws : List Text) (name other : Text)
    → has_wallet other ws ≡ true
    → has_wallet other (ws ++ (name ∷ [])) ≡ true
has_wallet-kept [] name other h = cc
has_wallet-kept (w ∷ ws) name other h = elim (Bool-cases (text_eq w other)) [
  | inl e ↦ rw e refl
  | inr e ↦ rw e (has_wallet-kept ws name other (rw e at h))
]

-- For all wallets of the node: after `ensure_miner` there is one named "miner" and every wallet that was
-- there, and a second call changes nothing.
pub ensure_miner_keeps :
    (wallets : List Text)
    → (has_wallet (codes "miner") (ensure_miner wallets) ≡ true)
      × ((name : Text)
          → has_wallet name wallets ≡ true
          → has_wallet name (ensure_miner wallets) ≡ true)
      × (ensure_miner (ensure_miner wallets) ≡ ensure_miner wallets)
unfolding ensure_miner
ensure_miner_keeps wallets = elim (Bool-cases (has_wallet (codes "miner") wallets)) [
  | inl e ↦ rw e (e, λ name h. h, rw e refl)
  | inr e ↦
      let there = has_wallet-added wallets (codes "miner") in
      rw e (there, λ name h. has_wallet-kept wallets (codes "miner") name h, rw there refl)
]
