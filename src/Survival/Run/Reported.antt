-- ===== src/Survival/Run/Reported.antt =====
-- The report of check_eclipse.py against the answers of the nodes.
use erlay_warnet.Prelude.{ℕ, ◌+◌, ◌-◌, ◌≤◌, ◌≡◌, true, false, some, List, length, All}
use erlay_warnet.Prelude.Result.{Result, ok}
use erlay_warnet.Prelude.Text.{Text}
use erlay_warnet.Commander.Waiting.{Waiting, IsLawful}
use erlay_warnet.Bandwidth.Counter.{count_at}
use erlay_warnet.Survival.Measure.{bytes_total, IsSpan}
use erlay_warnet.Survival.Run.{
  send_all, Options, Answers, victim, last_of, Report, has_block, has_transactions, is_sealed,
  entries_of,
}
use erlay_warnet.Survival.Run.Outcome.{IsTip, IsTicking, Later, Told}

module _ (W : Waiting) (L : IsLawful W) (o : Options) (a : Answers) (ticking : IsTicking a)
    (fuel : ℕ) where
  -- What the honest tanks had seen, and what the victim was asked.
  abbrev pub HasSpread : List Text → Report → Type 0
  HasSpread honest r =
      All (λ n. Later r.mined (has_block W o a r.tip n)) honest
      × (length r.txids ≡ o.tx_count)
      × All (λ n. Later r.sent (has_transactions W o a r.txids n)) honest

  abbrev pub IsVerdict : Report → Type 0
  IsVerdict r =
      Told W L o a ticking fuel (has_block W o a r.tip victim) o.sync_timeout r.mined
        r.victim_synced r.polled
      × Told W L o a ticking fuel (has_transactions W o a r.txids victim) o.timeout r.sent r.got_all
          r.polled_all

  -- The count of transactions, the bytes and the time, by the answers after the polls.
  abbrev pub IsMeasured : List Text → Report → Type 0
  IsMeasured honest r =
      (r.received ≤ o.tx_count)
      × (has_transactions W o a r.txids victim (r.polled_all + 1) ≡ true → r.received ≡ o.tx_count)
      × ((k : Text)
          → count_at r.bytes k
            ≡ bytes_total k (a.peer_bytes (r.polled_all + 2))
              - bytes_total k (a.peer_bytes r.sealed_at))
      × (marker : Text) × (last_of r.txids ≡ some marker)
      × IsSpan (entries_of W o a honest marker (r.polled_all + 3)) r.time_to_receive

  -- The sync, the seal, the block and the sending, each after the one before; at the seal the victim has as
  -- many peers as it had before its link to the miner.
  abbrev pub IsStaged : Report → Type 0
  IsStaged r =
      (a.generate 120 true 2 ≡ some r.synced)
      × (r.synced + 2 ≤ r.sealed_at)
      × (is_sealed W o a (length (a.peers 1)) r.sealed_at ≡ true)
      × (a.generate 1 false (r.sealed_at + 1) ≡ some r.mined)
      × IsTip W L o a ticking fuel r.mined r.tip
      × (r.mined ≤ r.polled)
      × (send_all W o a o.tx_count r.polled ≡ ok (r.txids, r.sent))

  abbrev pub IsReport : List Text → Report → Type 0
  IsReport honest r = IsStaged r × HasSpread honest r × IsVerdict r × IsMeasured honest r
