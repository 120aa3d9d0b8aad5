-- ===== src/Commander/Connect/Handshake.antt =====
-- What `connect_nodes` has seen when it returns, and what it was short of when it raises.
use erlay_warnet.Prelude.{
  if◌then◌else◌, ◌++◌, ℕ, suc, ◌+◌, ◌≤◌, ◌≡◌, refl, ◌⊎◌, inl, inr, Bool, true, false, Option, none,
  some, List, length, get_elem?, arith,
}
use erlay_warnet.Prelude.Result.{of_option, ok, Ends, bind-Ends, Ends-weaken}
use erlay_warnet.Commander.{codes, Node}
use erlay_warnet.Commander.Waiting.{Waiting, IsLawful, wait-then, wait-last}
use erlay_warnet.Commander.Connect.{
  node_at, address_of, PeerInfo, Condition, has_version, has_verack, has_pong, all_meet,
  ConnectError, no_node, timed_out, Connected, wait_both, wait_handshake, addnode_call,
  chosen_transport, connect_nodes,
}

-- The condition was met by as many peers as expected at a moment of the interval.
abbrev pub Met : Condition → ℕ → (ℕ → List PeerInfo) → (low high : ℕ) → Type 0
Met c expected peers low high =
    (t : ℕ) × (low ≤ t) × (t ≤ high) × (all_meet c expected peers t ≡ true)

module _ (W : Waiting) (L : IsLawful W) (from_peers to_peers : ℕ → List PeerInfo)
    (from_num_peers to_num_peers : ℕ) where
  -- Both nodes met it, the one that connects first.
  abbrev pub BothMet : Condition → (low high : ℕ) → Type 0
  BothMet c low high =
      (low ≤ high) × Met c from_num_peers from_peers low high × Met c to_num_peers to_peers low high

  -- At a moment from the start on, the node was short of the condition that the error names.
  abbrev pub ShortOf : ℕ → ConnectError → Type 0
  ShortOf low (no_node i) = ⊥
  ShortOf low (timed_out c true) =
      (t : ℕ) × (low ≤ t) × (all_meet c from_num_peers from_peers t ≡ false)
  ShortOf low (timed_out c false) =
      (t : ℕ) × (low ≤ t) × (all_meet c to_num_peers to_peers t ≡ false)

  wait_both-met :
      (c : Condition) (start : ℕ)
      → Ends
          (BothMet c start)
          (ShortOf start)
          (wait_both W from_peers to_peers c from_num_peers to_num_peers start)
  unfolding wait_both
  wait_both-met c start =
      wait-then W L (timed_out c true) none _ start _ (BothMet c start) (ShortOf start)
        (λ t le met.
          wait-last W L (timed_out c false) none _ t (BothMet c start) (ShortOf start)
            (λ u le' met'. (omega arith, (t, le, le', met), (u, omega arith, omega arith, met')))
            λ h. (t, le, unless_no_time h))
        λ h. (start, omega arith, unless_no_time h)
    where
      unless_no_time : {P : Type 0} → P ⊎ ◌≡◌ {A = Option ℕ} none (some 0) → P
      unless_no_time (inl p) = p
      unless_no_time (inr e) = cc

  ShortOf-earlier :
      (low start : ℕ) → low ≤ start → (e : ConnectError) → ShortOf start e → ShortOf low e
  ShortOf-earlier low start le (timed_out c true) (t, h, k) = (t, omega arith, k)
  ShortOf-earlier low start le (timed_out c false) (t, h, k) = (t, omega arith, k)
  ShortOf-earlier low start le (no_node _) h = elim h [ ]

  -- The three conditions, each after the one before it.
  abbrev pub IsShaken : (start finish : ℕ) → Type 0
  IsShaken start finish =
      (t : ℕ) × (u : ℕ) × BothMet has_version start t
      × BothMet has_verack t u
      × BothMet has_pong u finish

  wait_handshake-IsShaken :
      (start : ℕ)
      → Ends
          (IsShaken start)
          (ShortOf start)
          (wait_handshake W from_peers to_peers from_num_peers to_num_peers start)
  unfolding wait_handshake
  wait_handshake-IsShaken start =
      bind-Ends (BothMet has_version start) (IsShaken start) (ShortOf start) _ _
        (wait_both-met has_version start)
        λ t v.
          bind-Ends (BothMet has_verack t) (IsShaken start) (ShortOf start) _ _
            (Ends-weaken (BothMet has_verack t) _ (ShortOf t) _ _ (λ _ h. h)
              (ShortOf-earlier start t v.0) (wait_both-met has_verack t))
            λ u w.
              Ends-weaken (BothMet has_pong u) (IsShaken start) (ShortOf u) (ShortOf start) _
                (λ finish p. (t, u, v, w, p)) (ShortOf-earlier start u (omega (arith, v.0, w.0)))
                (wait_both-met has_pong u)

addnode_call-is :
    (n : Node) (use_v2 : Bool)
    → ((addnode_call n use_v2).address ≡ n.rpchost ++ codes ":18444")
      × ((addnode_call n use_v2).v2transport ≡ (if use_v2 then some true else none))
unfolding addnode_call address_of
addnode_call-is n true = (refl, refl)
addnode_call-is n false = (refl, refl)

-- What the call was, and what was seen after it.
module _ (W : Waiting) (L : IsLawful W) (nodes : List Node) (peers : ℕ → ℕ → List PeerInfo) where
  abbrev pub Shaken : (a b start finish : ℕ) → Type 0
  Shaken a b start finish =
      IsShaken W L (peers a) (peers b) (1 + length (peers a start))
        (1 + length (peers b (suc start))) (start + 3) finish

  abbrev pub IsConnected :
      (a b : ℕ) → (use_v2 wait_for_connect : Bool) → (start : ℕ) → Connected → Type 0
  IsConnected a b use_v2 wait_for_connect start c =
      ((n : Node) × (get_elem? nodes b ≡ some n)
        × (c.call.address ≡ n.rpchost ++ codes ":18444")
        × (c.call.v2transport ≡ (if use_v2 then some true else none)))
      × (wait_for_connect ≡ true → Shaken a b start c.finish)

  abbrev pub IsUnconnected :
      (a b : ℕ) → (wait_for_connect : Bool) → (start : ℕ) → ConnectError → Type 0
  IsUnconnected a b wait_for_connect start (no_node i) = get_elem? nodes i ≡ none
  IsUnconnected a b wait_for_connect start (timed_out c side) =
      (wait_for_connect ≡ true)
      × ShortOf W L (peers a) (peers b) (1 + length (peers a start))
          (1 + length (peers b (suc start))) (start + 3) (timed_out c side)

  node_at-found :
      (a b i : ℕ) (wait_for_connect : Bool) (start : ℕ)
      → Ends
          (λ n. get_elem? nodes i ≡ some n)
          (IsUnconnected a b wait_for_connect start)
          (node_at nodes i)
  node_at-found a b i wait_for_connect start = go (get_elem? nodes i) refl
    where
      go :
          (o : Option Node)
          → get_elem? nodes i ≡ o
          → Ends
              (λ n. get_elem? nodes i ≡ some n)
              (IsUnconnected a b wait_for_connect start)
              (of_option (no_node i) o)
      go none e = e
      go (some n) e = e

  blame :
      (a b start : ℕ) (e : ConnectError)
      → ShortOf W L
          (peers a)
          (peers b)
          (1 + length (peers a start))
          (1 + length (peers b (suc start)))
          (start + 3)
          e
      → IsUnconnected a b true start e
  blame a b start (no_node i) h = elim h [ ]
  blame a b start (timed_out c side) h = (refl, h)

  waited :
      (a b : ℕ) (wait_for_connect : Bool) (start : ℕ)
      → Ends
          (λ t. wait_for_connect ≡ true → Shaken a b start t)
          (IsUnconnected a b wait_for_connect start)
          (if wait_for_connect
            then wait_handshake W
                (peers a)
                (peers b)
                (1 + length (peers a start))
                (1 + length (peers b (suc start)))
                (start + 3)
            else ok (start + 3))
  waited a b true start =
      Ends-weaken (Shaken a b start) _
        (ShortOf W L (peers a) (peers b) (1 + length (peers a start))
          (1 + length (peers b (suc start))) (start + 3))
        (IsUnconnected a b true start) _ (λ t h _. h) (blame a b start)
        (wait_handshake-IsShaken W L (peers a) (peers b) (1 + length (peers a start))
          (1 + length (peers b (suc start))) (start + 3))
  waited a b false start = λ e. cc

  -- For every lawful wait and all answers of the nodes: where `connect_nodes` returns, node `a` was asked to
  -- try the address of node `b` at port 18444, over v2 exactly where that was chosen; and where it is to wait,
  -- each node showed one peer more than before with a version, then with 21 bytes of verack, then with 29 of
  -- pong, at moments in this order after the call. It raises only where an index has no node, or where it
  -- waits and a node was short of the condition that the error names, at a moment after the call.
  pub connect_nodes-IsConnected :
      (v2_default : Bool) (a b : ℕ) (advertised : Option Bool) (wait_for_connect : Bool) (start : ℕ)
      → Ends
          (IsConnected a b (chosen_transport v2_default advertised) wait_for_connect start)
          (IsUnconnected a b wait_for_connect start)
          (connect_nodes W nodes peers v2_default a b advertised wait_for_connect start)
  unfolding connect_nodes
  connect_nodes-IsConnected v2_default a b advertised wait_for_connect start =
      let Q = IsConnected a b (chosen_transport v2_default advertised) wait_for_connect start in
      let F = IsUnconnected a b wait_for_connect start in
      bind-Ends (λ n. get_elem? nodes a ≡ some n) Q F _ _
        (node_at-found a b a wait_for_connect start)
        λ _ _.
          bind-Ends (λ n. get_elem? nodes b ≡ some n) Q F _ _
            (node_at-found a b b wait_for_connect start)
            λ n e.
              bind-Ends (λ t. wait_for_connect ≡ true → Shaken a b start t) Q F _ _
                (waited a b wait_for_connect start)
                λ t h.
                  (let call = addnode_call-is n (chosen_transport v2_default advertised) in
                    ((n, e, call.0, call.1), h))
