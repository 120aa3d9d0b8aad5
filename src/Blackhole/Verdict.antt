-- ===== src/Blackhole/Verdict.antt =====
-- What a run of check_blackhole.py has seen when it passes, and what it saw when it fails.
use erlay_warnet.Prelude.{
  ◌∷◌, ℕ, ◌+◌, ◌≤◌, ◌≡◌, ◌≢◌, ◌⊎◌, refl, inl, inr, Bool, true, false, none, some, ◌==◌, ==→eq,
  ==→ne,
}
use erlay_warnet.Prelude.Result.{Ends, bind-Ends, given-then, check-then, raise_if-then}
use erlay_warnet.Prelude.Text.{Text, has_text}
use erlay_warnet.Commander.{Node, get_item, connections, wait_for_tanks_connected}
use erlay_warnet.Commander.Waiting.{Waiting, IsLawful, wait-then}
use erlay_warnet.Blackhole.{
  [], List, Options, Answers, isolation, control_block, transaction_at, Failure, no_tank,
  not_connected, not_generated, not_sent, timed_out, victim_advanced, victim_received,
  blackhole_lacks, Course, source, blackhole, victim, relay, control, has_transaction, is_isolated,
  has_block, settled, start, spread, course, verdict, run_test,
}

-- The tanks that the run looks up.
abbrev pub needed : List Text
needed = source ∷ blackhole ∷ victim ∷ relay ∷ control ∷ []

module _ (W : Waiting) (L : IsLawful W) (o : Options) (a : Answers) (fuel : ℕ) where
  -- A wait that began at the moment had no time, or found its predicate false there.
  abbrev pub MissedAt : (ℕ → Bool) → ℕ → Type 0
  MissedAt holds t = (holds t ≡ false) ⊎ (some o.timeout ≡ some 0)

  -- The moments of a run: the victim alone after the sync, the new block, the control node at its height, and
  -- the sending.
  abbrev pub IsolatedAt : ℕ → Type 0
  IsolatedAt isolated =
      (synced : ℕ) × (a.generate 101 true 0 ≡ some synced)
      × (synced + 2 ≤ isolated)
      × (is_isolated W o a isolated ≡ true)

  abbrev pub MinedAt : ℕ → Type 0
  MinedAt mined = (isolated : ℕ) × IsolatedAt isolated × (a.generate 1 false isolated ≡ some mined)

  abbrev pub ReachedAt : ℕ → Type 0
  ReachedAt reached =
      (mined : ℕ) × MinedAt mined
      × (mined ≤ reached)
      × (has_block W o a (a.block_count source mined) reached ≡ true)

  abbrev pub SentAt : Text → ℕ → Type 0
  SentAt txid reached = ReachedAt reached × (a.send reached ≡ some txid)

  -- The transaction was in the node's memory pool at a moment of the interval.
  abbrev pub Seen : Text → Text → (low moment : ℕ) → Type 0
  Seen txid name low moment = (low ≤ moment) × (has_transaction W o a txid name moment ≡ true)

  -- The victim was left with one peer after the sync; the control node then reached the height of the new
  -- block, and the three nodes had the transaction, one after the other.
  abbrev pub IsCourse : Course → Type 0
  IsCourse c =
      (a.generate 101 true 0 ≡ some c.synced)
      × (c.synced + 2 ≤ c.isolated)
      × (is_isolated W o a c.isolated ≡ true)
      × (c.height ≡ a.block_count source c.synced)
      × (a.generate 1 false c.isolated ≡ some c.mined)
      × (c.new_height ≡ a.block_count source c.mined)
      × (c.mined ≤ c.reached)
      × (has_block W o a c.new_height c.reached ≡ true)
      × (a.send c.reached ≡ some c.txid)
      × Seen c.txid blackhole c.reached c.at_blackhole
      × Seen c.txid relay c.at_blackhole c.at_relay
      × Seen c.txid control c.at_relay c.at_control

  -- After the settling: the victim's height, and whether it and the blackhole have the transaction.
  abbrev pub count_of : Course → ℕ
  count_of c = a.block_count victim (settled W o a c)

  abbrev pub victim_has : Course → Bool
  victim_has c = has_transaction W o a c.txid victim (settled W o a c + 1)

  abbrev pub blackhole_has : Course → Bool
  blackhole_has c = has_transaction W o a c.txid blackhole (settled W o a c + 2)

  abbrev pub IsPassed : Course → Type 0
  IsPassed c =
      IsCourse c × (count_of c ≡ c.height) × (victim_has c ≡ false) × (blackhole_has c ≡ true)

  -- A node of the three did not show the transaction when its wait began, after those before it had.
  abbrev pub LacksAt : (txid name : Text) → ℕ → Type 0
  LacksAt txid name reached =
      ((name ≡ blackhole) × MissedAt (has_transaction W o a txid blackhole) reached)
      ⊎ ((name ≡ relay)
          × (b : ℕ) × Seen txid blackhole reached b
          × MissedAt (has_transaction W o a txid relay) b)
      ⊎ ((name ≡ control)
          × (b : ℕ) × (r : ℕ) × Seen txid blackhole reached b
          × Seen txid relay b r
          × MissedAt (has_transaction W o a txid control) r)

  abbrev pub IsFailed : Failure → Type 0
  IsFailed (no_tank name) = (has_text name needed ≡ true) × (get_item name a.network.tanks ≡ none)
  IsFailed not_connected =
      wait_for_tanks_connected (connections a.network.nodes a.initial_peers) fuel ≡ false
  IsFailed not_generated =
      (a.generate 101 true 0 ≡ none)
      ⊎ ((isolated : ℕ) × IsolatedAt isolated × (a.generate 1 false isolated ≡ none))
  IsFailed not_sent = (reached : ℕ) × ReachedAt reached × (a.send reached ≡ none)
  IsFailed (timed_out isolation) =
      (synced : ℕ) × (a.generate 101 true 0 ≡ some synced)
      × MissedAt (is_isolated W o a) (synced + 2)
  IsFailed (timed_out control_block) =
      (mined : ℕ) × MinedAt mined × MissedAt (has_block W o a (a.block_count source mined)) mined
  IsFailed (timed_out (transaction_at name)) =
      (txid : Text) × (reached : ℕ) × SentAt txid reached × LacksAt txid name reached
  IsFailed (victim_advanced count expected) =
      (count ≢ expected) × (c : Course) × IsCourse c × (count_of c ≡ count) × (c.height ≡ expected)
  IsFailed victim_received =
      (c : Course) × IsCourse c × (count_of c ≡ c.height) × (victim_has c ≡ true)
  IsFailed blackhole_lacks =
      (c : Course) × IsCourse c
      × (count_of c ≡ c.height)
      × (victim_has c ≡ false)
      × (blackhole_has c ≡ false)

  start-Ends : Ends (λ (_ : Node). Unit {0}) IsFailed (start W o a fuel)
  unfolding start
  start-Ends =
      let Q = λ (_ : Node). Unit {0} in
      given-then Q IsFailed (no_tank source) (get_item source a.network.tanks) _ (λ e. (refl, e))
        λ n _.
          given-then Q IsFailed (no_tank blackhole) (get_item blackhole a.network.tanks) _
            (λ e. (refl, e))
            λ _ _.
              given-then Q IsFailed (no_tank victim) (get_item victim a.network.tanks) _
                (λ e. (refl, e))
                λ _ _.
                  given-then Q IsFailed (no_tank relay) (get_item relay a.network.tanks) _
                    (λ e. (refl, e))
                    λ _ _.
                      given-then Q IsFailed (no_tank control) (get_item control a.network.tanks) _
                        (λ e. (refl, e))
                        λ _ _.
                          check-then Q IsFailed not_connected
                            (wait_for_tanks_connected (connections a.network.nodes a.initial_peers)
                              fuel)
                            _ (λ e. e) λ _. tt

  verdict-Ends : (c : Course) → IsCourse c → Ends IsPassed IsFailed (verdict W o a c)
  unfolding verdict
  verdict-Ends c h =
      check-then IsPassed IsFailed _ (count_of c == c.height) _
        (λ e. (==→ne _ _ e, c, h, refl, refl))
        λ same.
          raise_if-then IsPassed IsFailed _ (victim_has c) _ (λ e. (c, h, ==→eq _ _ same, e))
            λ none_there.
              check-then IsPassed IsFailed _ (blackhole_has c) _
                (λ e. (c, h, ==→eq _ _ same, none_there, e))
                λ kept. (h, ==→eq _ _ same, none_there, kept)

  abbrev IsSpread : Text → ℕ → ℕ × ℕ × ℕ → Type 0
  IsSpread txid t (b, r, c) = Seen txid blackhole t b × Seen txid relay b r × Seen txid control r c

  spread-Ends :
      (txid : Text) (t : ℕ) → SentAt txid t → Ends (IsSpread txid t) IsFailed (spread W o a txid t)
  unfolding spread
  spread-Ends txid t was_sent =
      let Q = IsSpread txid t in
      let look = λ (name : Text). has_transaction W o a txid name in
      wait-then W L _ _ (look blackhole) t _ Q IsFailed
        (λ b le h.
          wait-then W L _ _ (look relay) b _ Q IsFailed
            (λ r le' h'.
              wait-then W L _ _ (look control) r _ Q IsFailed
                (λ c le'' h''. ((le, h), (le', h'), (le'', h'')))
                λ e. (txid, t, was_sent, inr (inr (refl, b, r, (le, h), (le', h'), e))))
            λ e. (txid, t, was_sent, inr (inl (refl, b, (le, h), e))))
        λ e. (txid, t, was_sent, inl (refl, e))

  course-Ends : (n : Node) → Ends IsCourse IsFailed (course W o a n)
  unfolding course
  course-Ends n =
      given-then IsCourse IsFailed _ (a.generate 101 true 0) _ (λ e. inl e)
        λ synced is_synced.
          wait-then W L _ _ (is_isolated W o a) (synced + 2) _ IsCourse IsFailed
            (λ isolated later alone.
              let at_isolated : IsolatedAt isolated = (synced, is_synced, later, alone) in
              given-then IsCourse IsFailed _ (a.generate 1 false isolated) _
                (λ e. inr (isolated, at_isolated, e))
                λ mined is_mined.
                  let at_mined : MinedAt mined = (isolated, at_isolated, is_mined) in
                  wait-then W L _ _ (has_block W o a (a.block_count source mined)) mined _ IsCourse
                    IsFailed
                    (λ reached after block.
                      let at_reached : ReachedAt reached = (mined, at_mined, after, block) in
                      given-then IsCourse IsFailed _ (a.send reached) _
                        (λ e. (reached, at_reached, e))
                        λ txid is_sent.
                          bind-Ends (IsSpread txid reached) IsCourse IsFailed _ _
                            (spread-Ends txid reached (at_reached, is_sent))
                            λ s seen. (
                              is_synced, later, alone, refl, is_mined, refl, after, block, is_sent,
                              seen.0, seen.1, seen.2,
                            ))
                    λ e. (mined, at_mined, e))
            λ e. (synced, is_synced, e)

  -- For every lawful wait and all answers of the nodes: run_test passes only where the victim, alone with
  -- one peer since a moment before the new block, has after the settling the height that the source had at
  -- the sync, and lacks the transaction, while the control node had reached the new block, blackhole,
  -- relay and control had the transaction that was sent, and the blackhole still has it. It fails for the
  -- reason that it gives: a tank that is missing, connections that did not come about, mining or sending
  -- that did not at its place in the run, a wait that at its begin there found its predicate false or had
  -- no time, or, after all of these, an assertion on the victim or the blackhole that is false.
  pub run_test-IsPassed : Ends IsPassed IsFailed (run_test W o a fuel)
  unfolding run_test
  run_test-IsPassed =
      bind-Ends (λ (_ : Node). Unit {0}) IsPassed IsFailed _ _ start-Ends
        λ n _. bind-Ends IsCourse IsPassed IsFailed _ _ (course-Ends n) verdict-Ends
