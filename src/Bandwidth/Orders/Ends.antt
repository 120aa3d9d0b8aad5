-- ===== src/Bandwidth/Orders/Ends.antt =====
-- How each step of an iteration of `orders` can end.
use mathlib.Core.List.{reverse}
use erlay_warnet.Prelude.{
  ℕ, zero, suc, ◌+◌, ◌*◌, ◌^◌, ◌<◌, ◌≡◌, refl, sym, ap, ◌∙◌, arith, true, ◌||◌, Option, none, some,
  List, [], ◌∷◌, length, take, All,
}
use erlay_warnet.Prelude.Int.{ℤ, pos, pos_part, ltb_ℤ}
use erlay_warnet.Prelude.Result.{Result, ok, err, Ends}
use erlay_warnet.Prelude.Text.{Text, codes}
use erlay_warnet.Bandwidth.Stats.{MsgStats, NetMsgStats, inv_overhead}
use erlay_warnet.Bandwidth.Stats.Totals.{net_entries, total}
use erlay_warnet.Bandwidth.Polling.{Polls, IsTicking, SyncFailed, sync_failed}
use erlay_warnet.Bandwidth.Polling.Ends.{IsLeft, IsLate, IsMonitored}
use erlay_warnet.Bandwidth.Transaction.{Utxo, WalletRpc, usable, create_txs}
use erlay_warnet.Bandwidth.Transaction.Values.{IsRounding, AreSignedSplits, IsCreated}
use erlay_warnet.Bandwidth.Mining.{MinerRpc, MineError, not_generated, behind, others, mine_blocks}
use erlay_warnet.Bandwidth.Mining.Matures.{IsMined, generated}
use erlay_warnet.Bandwidth.Broadcast.{SendRpc, broadcast_txs}
use erlay_warnet.Bandwidth.Broadcast.Plan.{deal, send_all, broadcast_txs-plan}
use erlay_warnet.Bandwidth.Connections.{NodePeers, off_nodes}
use erlay_warnet.Bandwidth.Propagation.{NoTime, propagation_failed, empty_sequence}
use erlay_warnet.Bandwidth.Propagation.Time.{IsTime}
use erlay_warnet.Bandwidth.Orders.{
  Options, transport_name, Abort, too_few_nodes, bad_counts, not_connected, mixed_transport,
  not_mined, block_sync_failed, not_enough_utxos, no_target, send_failed, send_never_ends,
  mempool_sync_failed, no_time, last, or_abort, or_mined, or_none, or_sent, or_no_time, Round,
  send_rpc, Results, no_results, iteration,
}

module _ (W : WalletRpc) (rounding : IsRounding W) (M : MinerRpc W) (E : Type 0)
    (send : ℕ → W.Hex → W.State → Result E W.State) (nodes : List NodePeers)
    (options : Options) where
  abbrev pub sent : List NetMsgStats → List (Text × MsgStats)
  sent infos = net_entries (λ i. i.sent) infos

  -- A round whose clocks run, in which the nodes sent `messages` INV messages with `entries` entries, and
  -- in which a node was asked for the transaction.
  pub record IsRound (round : Round W) (messages entries : ℕ) : Type 0 where
    pub heights_tick : All IsTicking (others M.index round.heights)
    pub mempools_tick : All IsTicking round.mempools
    pub asked : (tx : W.Hex) → 0 < length (round.entries tx)
    pub framed_count :
        total (λ s. s.count) (codes "inv") (sent round.after)
        ≡ total (λ s. s.count) (codes "inv") (sent round.before) + messages
    pub framed_bytes :
        total (λ s. s.bytes) (codes "inv") (sent round.after)
        ≡ total (λ s. s.bytes) (codes "inv") (sent round.before)
          + messages * inv_overhead options.transport
          + 36 * entries
    pub few : 36 * entries < 2 ^ 53

  abbrev pub tx_count : ℕ
  tx_count = pos_part options.tx_count

  abbrev pub HasSpread : List Polls → Type 0
  HasSpread mempools = All (IsLeft tx_count options.mempool_timeout) mempools

  length-signed :
      (us : List Utxo) (txs : List W.Hex)
      → AreSignedSplits W rounding us txs
      → length us ≡ length txs
  length-signed [] [] h = refl
  length-signed [] (_ ∷ _) h = absurd h
  length-signed (_ ∷ _) [] h = absurd h
  length-signed (u ∷ us) (tx ∷ txs) h = ap suc (length-signed us txs h.1)

  module _ (start : W.State) (rounds : ℕ → Round W) where
    -- The results and the wallet with which an iteration begins.
    abbrev pub IsBefore : ℕ → Results × W.State → Type 0
    IsBefore zero r = r ≡ (no_results, start)
    IsBefore (suc i) r =
        (r' : Results × W.State) × IsBefore i r'
        × (iteration W M E send nodes options (rounds i) r' ≡ ok r)

    abbrev pub IsBegun : ℕ → W.State → Type 0
    IsBegun i s = (results : Results) × IsBefore i (results, s)

    -- The wallet after the mining of an iteration, and after its transactions are made.
    abbrev pub HasMined : ℕ → W.State → Type 0
    HasMined i s' =
        (s : W.State) × IsBegun i s × (mine_blocks W M tx_count (rounds i).heights s ≡ ok s')

    abbrev pub HasCreated : ℕ → List W.Hex → W.State → Type 0
    HasCreated i txs s'' =
        (s' : W.State) × HasMined i s'
        × ((create_txs W tx_count s').0 ≡ some txs)
        × ((create_txs W tx_count s').1 ≡ s'')

    abbrev pub rpc : SendRpc
    rpc = send_rpc W M E send nodes options

    -- What the error says; an error that cannot be is the empty type.
    abbrev pub IsAbort : Abort E → Type 0
    IsAbort (too_few_nodes n) = (n ≡ length nodes) × (n < 2)
    IsAbort (bad_counts n tx_count) = (ltb_ℤ n (pos 1) || ltb_ℤ tx_count (pos 1)) ≡ true
    IsAbort not_connected = ⊥
    IsAbort (mixed_transport k) = (0 < k) × (k ≡ off_nodes (transport_name options.transport) nodes)
    IsAbort not_mined =
        (i : ℕ) × (s : W.State) × IsBegun i s × (generated W M tx_count (rounds i).heights s ≡ none)
    IsAbort (block_sync_failed k) =
        (i : ℕ) × (s : W.State) × IsBegun i s
        × IsMined W M tx_count (rounds i).heights s (err (behind (sync_failed k)))
    IsAbort not_enough_utxos =
        (i : ℕ) × (s : W.State) × HasMined i s × (length (usable W s) < tx_count)
    IsAbort no_target = ⊥
    IsAbort (send_failed e) =
        (i : ℕ) × (txs : List W.Hex) × (s : W.State) × HasCreated i txs s
        × (send_all rpc (length nodes) (deal rpc (length nodes) 0 (reverse txs)) s ≡ err e)
    IsAbort send_never_ends = ⊥
    IsAbort (mempool_sync_failed k) =
        (i : ℕ) × (txs : List W.Hex) × (s : W.State) × HasCreated i txs s
        × IsMonitored (IsLeft tx_count options.mempool_timeout)
            (IsLate tx_count options.mempool_timeout) (rounds i).mempools (err (sync_failed k))
    IsAbort (no_time (propagation_failed k)) =
        (i : ℕ) × (txs : List W.Hex) × (s : W.State) × (target : W.Hex) × HasCreated i txs s
        × (last txs ≡ some target)
        × IsTime ((rounds i).entries target) (err (propagation_failed k))
    IsAbort (no_time empty_sequence) = ⊥

    pub mined-Ends :
        (i : ℕ) (s : W.State)
        → IsBegun i s
        → (r : Result MineError W.State) → mine_blocks W M tx_count (rounds i).heights s ≡ r
        → IsMined W M tx_count (rounds i).heights s r
        → Ends (HasMined i) IsAbort (or_mined r)
    mined-Ends i s b (ok s') e h = (s, b, e)
    mined-Ends i s b (err not_generated) e h = (i, s, b, h)
    mined-Ends i s b (err (behind (sync_failed k))) e h = (i, s, b, h)

    pub created-Ends :
        (i : ℕ) (s : W.State)
        → HasMined i s
        → (r : Option (List W.Hex) × W.State) → create_txs W tx_count s ≡ r
        → IsCreated W rounding tx_count s r
        → Ends
            (λ txs. (length txs ≡ tx_count) × HasCreated i txs r.1)
            IsAbort
            (or_none not_enough_utxos r.0)
    created-Ends i s m (none, s') e h = (i, s, m, h.0)
    created-Ends i s m (some txs, s') e h = (
      sym (length-signed (take tx_count (usable W s)) txs h.1) ∙ h.0,
      (
        s,
        m,
        ap (λ (r : Option (List W.Hex) × W.State). r.0) e,
        ap (λ (r : Option (List W.Hex) × W.State). r.1) e,
      ),
    )

    pub last-Ends :
        (txs : List W.Hex)
        → 0 < length txs
        → Ends (λ target. last txs ≡ some target) IsAbort (or_none no_target (last txs))
    last-Ends [] h = elim h [ ]
    last-Ends (tx ∷ []) h = refl
    last-Ends (tx ∷ next ∷ txs) h = last-Ends (next ∷ txs) (omega arith)

    pub broadcast-Ends :
        (i : ℕ) (txs : List W.Hex) (s : W.State)
        → HasCreated i txs s
        → Ends (λ _. Unit {0}) IsAbort (or_sent (broadcast_txs rpc (length nodes) txs s))
    broadcast-Ends i txs s c = rw (broadcast_txs-plan rpc (length nodes) txs s) (sent _ refl)
      where
        sent :
            (r : Result E W.State)
            → send_all rpc (length nodes) (deal rpc (length nodes) 0 (reverse txs)) s ≡ r
            → Ends (λ _. Unit {0}) IsAbort (or_sent (some r))
        sent (ok s') e = tt
        sent (err x) e = (i, txs, s, c, e)

    pub monitored-Ends :
        (i : ℕ) (txs : List W.Hex) (s : W.State)
        → HasCreated i txs s
        → (r : Result SyncFailed (Unit {0}))
        → IsMonitored
            (IsLeft tx_count options.mempool_timeout)
            (IsLate tx_count options.mempool_timeout)
            (rounds i).mempools
            r
        → Ends (λ _. HasSpread (rounds i).mempools) IsAbort (or_abort mempool_sync_failed r)
    monitored-Ends i txs s c (ok _) h = h
    monitored-Ends i txs s c (err (sync_failed k)) h = (i, txs, s, c, h)

    pub time-Ends :
        (i : ℕ) (txs : List W.Hex) (s : W.State) (target : W.Hex)
        → HasCreated i txs s
        → last txs ≡ some target
        → (r : Result NoTime ℤ) → 0 < length ((rounds i).entries target)
        → IsTime ((rounds i).entries target) r
        → Ends (λ _. Unit {0}) IsAbort (or_no_time r)
    time-Ends i txs s target c e (ok t) l h = tt
    time-Ends i txs s target c e (err (propagation_failed k)) l h = (i, txs, s, target, c, e, h)
    time-Ends i txs s target c e (err empty_sequence) l h =
        let none_asked : length ((rounds i).entries target) ≡ 0 = h in omega (arith, l, none_asked)
