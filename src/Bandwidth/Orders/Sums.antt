-- ===== src/Bandwidth/Orders/Sums.antt =====
-- What the results of `orders` add up to after some of its iterations.
use erlay_warnet.Prelude.{
  ==→eq, ◌==◌, ℕ, zero, suc, ◌+◌, ◌-◌, ◌<◌, ◌≡◌, refl, ap, ◌∙◌, arith, inl, inr, List, [], ◌∷◌,
  ◌++◌, length, All, Bool-cases,
}
use erlay_warnet.Prelude.Int.{ℤ, pos, pos_part}
use erlay_warnet.Prelude.Result.{Result}
use erlay_warnet.Prelude.Text.{Text}
use erlay_warnet.Bandwidth.Counter.{IsCounter, count_at, add, subtract}
use erlay_warnet.Bandwidth.Counter.Laws.{
  count_at-add, add-IsCounter, count_at-subtract, subtract-IsCounter,
}
use erlay_warnet.Bandwidth.Stats.{MsgStats, get_net_stats, sent_difference, inv_entries}
use erlay_warnet.Bandwidth.Stats.Totals.{
  net_entries, total, get_net_stats-IsTally, inv_entries_exact,
}
use erlay_warnet.Bandwidth.Polling.Ends.{IsLeft}
use erlay_warnet.Bandwidth.Transaction.{WalletRpc}
use erlay_warnet.Bandwidth.Transaction.Values.{IsRounding}
use erlay_warnet.Bandwidth.Mining.{MinerRpc}
use erlay_warnet.Bandwidth.Connections.{NodePeers}
use erlay_warnet.Bandwidth.Orders.{Options, Results, no_results, Round}
use erlay_warnet.Bandwidth.Orders.Ends.{IsRound}

module _ (W : WalletRpc) (rounding : IsRounding W) (M : MinerRpc W) (E : Type 0)
    (send : ℕ → W.Hex → W.State → Result E W.State) (nodes : List NodePeers) (options : Options)
    (rounds : ℕ → Round W) (messages entries : ℕ → ℕ)
    (each : (i : ℕ)
      → IsRound W rounding M E send nodes options (rounds i) (messages i) (entries i)) where
  -- The INV entries of the iterations before `i`, in order.
  abbrev pub noted : ℕ → List ℤ
  noted zero = []
  noted (suc i) = noted i ++ (pos (entries i) ∷ [])

  -- What the nodes sent more, in the iterations before `i`, of a message type.
  abbrev pub sent_more : (MsgStats → ℕ) → Text → ℕ → ℕ
  sent_more field k zero = 0
  sent_more field k (suc i) =
      sent_more field k i
      + (total field k (net_entries (λ n. n.sent) (rounds i).after)
          - total field k (net_entries (λ n. n.sent) (rounds i).before))

  -- The results after the iterations before `i`.
  pub record IsResults (i : ℕ) (results : Results) : Type 0 where
    pub inv_noted : results.inv_entry_count ≡ noted i
    pub times_noted : length results.propagation_times ≡ i
    pub count_keys : IsCounter results.diff_count
    pub bytes_keys : IsCounter results.diff_bytes
    pub count_lem : (k : Text) → count_at results.diff_count k ≡ sent_more (λ s. s.count) k i
    pub bytes_lem : (k : Text) → count_at results.diff_bytes k ≡ sent_more (λ s. s.bytes) k i
    pub spread :
        (j : ℕ)
        → j < i
        → All (IsLeft (pos_part options.tx_count) options.mempool_timeout) (rounds j).mempools

  spread_suc : (P : ℕ → Type 0) (i : ℕ) → ((j : ℕ) → j < i → P j) → P i → (j : ℕ) → j < suc i → P j
  spread_suc P i h p j l = elim (Bool-cases (j == i)) [
    | inl e ↦ rw (==→eq j i e) p
    | inr e ↦ h j (ground (arith, e, l))
  ]

  length-snoc {ℓ} : {A : Type ℓ} (xs : List A) (x : A) → length (xs ++ (x ∷ [])) ≡ suc (length xs)
  length-snoc [] x = refl
  length-snoc (y ∷ xs) x = ap suc (length-snoc xs x)

  pub added-IsResults :
      (i : ℕ) (results : Results) (time : ℤ)
      → IsResults i results
      → All (IsLeft (pos_part options.tx_count) options.mempool_timeout) (rounds i).mempools
      → let d =
          sent_difference (get_net_stats (rounds i).before) (get_net_stats (rounds i).after) in
        IsResults (suc i) (record {
          diff_count = add results.diff_count d.counts;
          diff_bytes = add results.diff_bytes d.bytes;
          inv_entry_count =
              results.inv_entry_count ++ (inv_entries options.transport d.counts d.bytes ∷ []);
          propagation_times = results.propagation_times ++ (time ∷ []);
        })
  unfolding sent_difference
  added-IsResults i results time h caught =
      let round = each i in
      let later = (get_net_stats-IsTally (rounds i).after).0 in
      let earlier = (get_net_stats-IsTally (rounds i).before).0 in
      let init = get_net_stats (rounds i).before in
      let net = get_net_stats (rounds i).after in
      let exact =
        inv_entries_exact options.transport (rounds i).before (rounds i).after (messages i)
          (entries i) round.framed_count round.framed_bytes round.few in
      let dc_keys = subtract-IsCounter net.sent.counts init.sent.counts later.counts_keys in
      let db_keys = subtract-IsCounter net.sent.bytes init.sent.bytes later.bytes_keys in
      record {
        inv_noted = rw (h.inv_noted, exact) refl;
        times_noted = length-snoc results.propagation_times time ∙ ap suc h.times_noted;
        count_keys =
            add-IsCounter results.diff_count (subtract net.sent.counts init.sent.counts)
              h.count_keys dc_keys;
        bytes_keys =
            add-IsCounter results.diff_bytes (subtract net.sent.bytes init.sent.bytes) h.bytes_keys
              db_keys;
        count_lem = λ k. ground (
          arith,
          count_at-add results.diff_count (subtract net.sent.counts init.sent.counts) k h.count_keys
              dc_keys,
          count_at-subtract net.sent.counts init.sent.counts k later.counts_keys,
          h.count_lem k,
          later.counts_lem k,
          earlier.counts_lem k,
        );
        bytes_lem = λ k. ground (
          arith,
          count_at-add results.diff_bytes (subtract net.sent.bytes init.sent.bytes) k h.bytes_keys
              db_keys,
          count_at-subtract net.sent.bytes init.sent.bytes k later.bytes_keys,
          h.bytes_lem k,
          later.bytes_lem k,
          earlier.bytes_lem k,
        );
        spread =
            spread_suc
              (λ j.
                All (IsLeft (pos_part options.tx_count) options.mempool_timeout)
                  (rounds j).mempools)
              i h.spread caught;
      }

  pub no_results-IsResults : IsResults 0 no_results
  unfolding count_at
  no_results-IsResults = record {
    inv_noted = refl;
    times_noted = refl;
    count_keys = tt;
    bytes_keys = tt;
    count_lem = λ k. refl;
    bytes_lem = λ k. refl;
    spread = λ j h. elim h [ ];
  }
