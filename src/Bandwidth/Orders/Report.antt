-- ===== src/Bandwidth/Orders/Report.antt =====
-- What the experiment of `orders` ends with.
use erlay_warnet.Prelude.{
  ℕ, zero, suc, ◌+◌, ◌≤◌, ◌≡◌, refl, arith, Bool, true, false, ◌||◌, Option, some, List, length,
  ltb,
}
use erlay_warnet.Prelude.Int.{pos, pos_part, ltb_ℤ}
use erlay_warnet.Prelude.Result.{
  Result, ok, err, raise_if, check, Ends, bind-Ends, Ends-mono, Ends-keep,
}
use erlay_warnet.Commander.{wait_for_tanks_connected}
use erlay_warnet.Commander.{Peer as InitialPeer}
use erlay_warnet.Bandwidth.Polling.Ends.{monitor_mempool-IsMonitored}
use erlay_warnet.Bandwidth.Transaction.{WalletRpc, create_txs}
use erlay_warnet.Bandwidth.Transaction.Values.{IsRounding, create_txs-IsCreated}
use erlay_warnet.Bandwidth.Mining.{MinerRpc}
use erlay_warnet.Bandwidth.Mining.Matures.{mine_blocks-IsMined}
use erlay_warnet.Bandwidth.Connections.{
  NodePeers, WrongTransport, wrong_transport, ensure_all_connections, IsEnsured,
  ensure_all_connections-IsEnsured, IsOnTransport,
}
use erlay_warnet.Bandwidth.Propagation.Time.{propagation_time-IsTime}
use erlay_warnet.Bandwidth.Orders.{
  Option, Options, transport_name, Abort, too_few_nodes, bad_counts, not_connected, Results,
  no_results, last, or_mixed, Round, iteration, iterations, orders,
}
use erlay_warnet.Bandwidth.Orders.Ends.{
  broadcast-Ends, IsRound, IsAbort, IsBefore, HasMined, HasCreated, HasSpread, mined-Ends,
  created-Ends, last-Ends, broadcast-Ends, monitored-Ends, time-Ends,
}
use erlay_warnet.Bandwidth.Orders.Sums.{IsResults, added-IsResults, no_results-IsResults}

module _ (W : WalletRpc) (rounding : IsRounding W) (M : MinerRpc W) (E : Type 0)
    (send : ℕ → W.Hex → W.State → Result E W.State) (nodes : List NodePeers) (options : Options)
    (rounds : ℕ → Round W) (messages entries : ℕ → ℕ)
    (each : (i : ℕ)
      → IsRound W rounding M E send nodes options (rounds i) (messages i) (entries i)) where
  abbrev pub IsAfter : ℕ → Results × W.State → Type 0
  IsAfter i (results, _) =
      IsResults W rounding M E send nodes options rounds messages entries each i results

  module _ (start : W.State) where
    iteration-IsAfter :
        (i : ℕ) (results : Results) (s : W.State)
        → 1 ≤ pos_part options.tx_count
        → IsBefore W rounding M E send nodes options start rounds i (results, s)
        → IsResults W rounding M E send nodes options rounds messages entries each i results
        → Ends
            (IsAfter (suc i))
            (IsAbort W rounding M E send nodes options start rounds)
            (iteration W M E send nodes options (rounds i) (results, s))
    unfolding iteration
    iteration-IsAfter i results s some_txs b h =
        let count = pos_part options.tx_count in
        let Q = IsAfter (suc i) in
        let F = IsAbort W rounding M E send nodes options start rounds in
        bind-Ends (HasMined W rounding M E send nodes options start rounds i) Q F _ _
          (mined-Ends W rounding M E send nodes options start rounds i s (results, b) _ refl
            (mine_blocks-IsMined W M count (rounds i).heights s (each i).heights_tick))
          λ s' mined.
            bind-Ends
              (λ txs.
                (length txs ≡ count)
                × HasCreated W rounding M E send nodes options start rounds i txs
                    (create_txs W count s').1)
              Q F _ _
              (created-Ends W rounding M E send nodes options start rounds i s' mined _ refl
                (create_txs-IsCreated W rounding count s'))
              λ txs (l, created).
                bind-Ends (λ target. last txs ≡ some target) Q F _ _
                  (last-Ends W rounding M E send nodes options start rounds txs
                    (omega (arith, l, some_txs)))
                  λ target is_last.
                    bind-Ends (λ _. Unit {0}) Q F _ _
                      (broadcast-Ends W rounding M E send nodes options start rounds i txs
                        (create_txs W count s').1 created)
                      λ s'' _.
                        bind-Ends
                          (λ _. HasSpread W rounding M E send nodes options (rounds i).mempools) Q F
                          _ _
                          (monitored-Ends W rounding M E send nodes options start rounds i txs
                            (create_txs W count s').1 created _
                            (monitor_mempool-IsMonitored count options.mempool_timeout
                              (rounds i).mempools (each i).mempools_tick))
                          λ _ caught.
                            bind-Ends (λ _. Unit {0}) Q F _ _
                              (time-Ends W rounding M E send nodes options start rounds i txs
                                (create_txs W count s').1 target created is_last _
                                ((each i).asked target)
                                (propagation_time-IsTime ((rounds i).entries target)))
                              λ time _.
                                added-IsResults W rounding M E send nodes options rounds messages
                                  entries each i results time h caught

    iterations-IsAfter :
        (left i : ℕ) (r : Results × W.State)
        → 1 ≤ pos_part options.tx_count
        → IsBefore W rounding M E send nodes options start rounds i r
        → IsAfter i r
        → Ends
            (IsAfter (i + left))
            (IsAbort W rounding M E send nodes options start rounds)
            (iterations W M E send nodes options left i rounds r)
    unfolding iterations
    iterations-IsAfter zero i r t b h = let e : i + 0 ≡ i = omega arith in rw e h
    iterations-IsAfter (suc left) i (results, s) t b h =
        let e : i + suc left ≡ suc i + left = omega arith in
        let F = IsAbort W rounding M E send nodes options start rounds in
        let once = iteration W M E send nodes options (rounds i) (results, s) in
        rw e (
          bind-Ends (λ r'. IsAfter (suc i) r' × (once ≡ ok r')) (IsAfter (suc i + left)) F _ _
            (Ends-keep (IsAfter (suc i)) F once (iteration-IsAfter i results s t b h))
            (λ r' (h', made). iterations-IsAfter left (suc i) r' t ((results, s), b, made) h'))

    guard-Ends :
        (b : Bool) (abort : Abort E)
        → (b ≡ true → IsAbort W rounding M E send nodes options start rounds abort)
        → Ends
            (λ _. b ≡ false)
            (IsAbort W rounding M E send nodes options start rounds)
            (raise_if b abort)
    guard-Ends true abort h = h refl
    guard-Ends false abort h = refl

    connected-Ends :
        (b : Bool)
        → b ≡ true
        → Ends
            (λ _. Unit {0})
            (IsAbort W rounding M E send nodes options start rounds)
            (check b not_connected)
    connected-Ends true h = tt
    connected-Ends false h = cc

    ensured-Ends :
        (r : Result WrongTransport (Unit {0}))
        → IsEnsured (transport_name options.transport) nodes r
        → Ends
            (λ _. IsOnTransport (transport_name options.transport) nodes)
            (IsAbort W rounding M E send nodes options start rounds)
            (or_mixed r)
    ensured-Ends (ok _) h = h
    ensured-Ends (err (wrong_transport k)) h = h

  -- The experiment ended with results over all of its iterations, on nodes as it asks for.
  abbrev pub IsReport : Results × W.State → Type 0
  IsReport r =
      (2 ≤ length nodes)
      × IsOnTransport (transport_name options.transport) nodes
      × IsAfter (pos_part options.n) r

  -- For tanks whose wait ends within the polls that are allowed, and rounds whose clocks run, in which the
  -- INV bytes that the nodes sent are the overhead of the transport for each message and 36 for each
  -- entry, these below 2 ^ 53, and in which a node is asked for the transaction: `orders` ends. It returns
  -- only with two nodes or more, all of whose peers use the transport; then the noted INV counts are the
  -- numbers of entries of the rounds, in order, a propagation time stands for each round, the sums of
  -- messages and of bytes are, for each type, what the nodes sent more in each round, and in each round
  -- every node had all transactions at some poll, lacked one at ten polls, or raised at a poll, which ends
  -- its thread unseen. Else it raises: over fewer than two nodes, over a count below 1, or with the number
  -- of peers off the transport; or in an iteration, which began with the wallet as those before it left
  -- it, over its generatetoaddress, over fewer usable outputs than transactions once it had mined, with
  -- the error of a send of the transactions that it made, or with the number, above 0, of nodes that were
  -- late with its blocks or its transactions, or that have no times for its last transaction. It is never
  -- stopped by the connections, an empty list or a broadcast that does not end.
  pub orders-IsReport :
      (tanks : List (ℕ × (ℕ → Option (List InitialPeer)))) (fuel : ℕ) (s : W.State)
      → wait_for_tanks_connected tanks fuel ≡ true
      → Ends IsReport
          (IsAbort W rounding M E send nodes options s rounds)
          (orders W M E send nodes options tanks fuel rounds s)
  unfolding orders
  orders-IsReport tanks fuel s up =
      let abort = IsAbort W rounding M E send nodes options s rounds in
      bind-Ends (λ _. ltb (length nodes) 2 ≡ false) IsReport abort _ _
        (guard-Ends s (ltb (length nodes) 2) (too_few_nodes (length nodes))
          (λ e. (refl, ground (arith, e))))
        (λ _ two.
          bind-Ends (λ _. (ltb_ℤ options.n (pos 1) || ltb_ℤ options.tx_count (pos 1)) ≡ false)
            IsReport abort _ _
            (guard-Ends s (ltb_ℤ options.n (pos 1) || ltb_ℤ options.tx_count (pos 1))
              (bad_counts options.n options.tx_count) (λ e. e))
            (λ _ counts.
              bind-Ends (λ _. Unit {0}) IsReport abort _ _
                (connected-Ends s (wait_for_tanks_connected tanks fuel) up)
                (λ _ _.
                  bind-Ends (λ _. IsOnTransport (transport_name options.transport) nodes) IsReport
                    abort _ _
                    (ensured-Ends s
                      (ensure_all_connections (transport_name options.transport) nodes)
                      (ensure_all_connections-IsEnsured (transport_name options.transport) nodes))
                    (λ _ on.
                      Ends-mono (IsAfter (0 + pos_part options.n)) IsReport abort
                        (iterations W M E send nodes options (pos_part options.n) 0 rounds
                          (no_results, s))
                        (λ r h. (
                          ground (arith, two),
                          on,
                          (let e : 0 + pos_part options.n ≡ pos_part options.n = omega arith in
                              rw e at h),
                        ))
                        (iterations-IsAfter s (pos_part options.n) 0 (no_results, s)
                          (ground (arith, counts)) refl
                          (no_results-IsResults W rounding M E send nodes options rounds messages
                            entries each))))))
