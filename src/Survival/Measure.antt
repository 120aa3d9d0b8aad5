-- ===== src/Survival/Measure.antt =====
-- What `run_test` of `scenarios/check_eclipse.py` measures: bytes, received transactions, and the time.
use erlay_warnet.Prelude.{
  ℕ, ◌+◌, ◌-◌, ◌≡◌, refl, ◌∙◌, ◌&&◌, Bool, true, Option, none, some, List, [], ◌∷◌, ◌++◌, map, keep,
  length, arith, if◌then◌else◌, Bool-cases, inl, inr,
}
use erlay_warnet.Prelude.Int.{ℤ, pos, ◌-ℤ◌}
use erlay_warnet.Prelude.Text.{Text, text_eq, has_text}
use mathlib.Core.List.{append_assoc, append-nil}
use erlay_warnet.Bandwidth.Counter.{Counter, IsCounter, count_at, increment, subtract}
use erlay_warnet.Bandwidth.Counter.Entries.{count_at-increment, increment-IsCounter}
use erlay_warnet.Bandwidth.Counter.Laws.{count_at-subtract}
use erlay_warnet.Bandwidth.Propagation.{MempoolEntry, greatest, least}
use erlay_warnet.Bandwidth.Propagation.Time.{
  known, IsGreatest, IsLeast, greatest-IsGreatest, least-IsLeast,
}

-- `peer.get("bytesrecv_per_msg", {})` of each peer.
abbrev pub PeerBytes : Type 0
PeerBytes = List (Option (List (Text × ℕ)))

unfoldable pub count_msgs : List (Text × ℕ) → Counter → Counter
unfolding increment
count_msgs [] c = c
count_msgs ((msgtype, nbytes) ∷ msgs) c = count_msgs msgs (increment msgtype nbytes c)

unfoldable pub count_peers : PeerBytes → Counter → Counter
unfolding count_msgs
count_peers [] c = c
count_peers (none ∷ peers) c = count_peers peers c
count_peers (some msgs ∷ peers) c = count_peers peers (count_msgs msgs c)

unfoldable pub recv_bytes : PeerBytes → Counter
unfolding count_peers
recv_bytes peers = count_peers peers []

-- `all(t in pool for t in txids)`
abbrev pub has_all : List Text → List Text → Bool
has_all [] pool = true
has_all (t ∷ txids) pool = has_text t pool && has_all txids pool

abbrev pub received_count : List Text → List Text → ℕ
received_count txids pool = length (keep (λ t. has_text t pool) txids)

-- The loop that fills `inv_times` and `recv_times`; an answer without both times is passed over.
abbrev pub add_both : Option ℕ → Option ℕ → List ℕ × List ℕ → List ℕ × List ℕ
add_both (some inv) (some recv) p = (p.0 ++ (inv ∷ []), p.1 ++ (recv ∷ []))
add_both _ _ p = p

unfoldable pub collect : List (Option MempoolEntry) → List ℕ × List ℕ → List ℕ × List ℕ
collect [] p = p
collect (none ∷ entries) p = collect entries p
collect (some e ∷ entries) p = collect entries (add_both e.first_inv_time e.recv_time p)

-- In microseconds; the two lists are empty together, so that no `max` is taken of an empty one.
abbrev span : Option ℕ → Option ℕ → Option ℤ
span (some first) (some last) = some (pos last -ℤ pos first)
span _ _ = none

unfoldable pub elapsed : List (Option MempoolEntry) → Option ℤ
unfolding collect
elapsed entries = let times = collect entries ([], []) in span (least times.0) (greatest times.1)

-- The bytes of a message type over all peers.
abbrev pub msgs_total : Text → List (Text × ℕ) → ℕ
msgs_total k [] = 0
msgs_total k ((msgtype, nbytes) ∷ msgs) =
    (if text_eq msgtype k then nbytes else 0) + msgs_total k msgs

abbrev pub bytes_total : Text → PeerBytes → ℕ
bytes_total k [] = 0
bytes_total k (none ∷ peers) = bytes_total k peers
bytes_total k (some msgs ∷ peers) = msgs_total k msgs + bytes_total k peers

count_msgs-total :
    (k : Text) (msgs : List (Text × ℕ)) (c : Counter)
    → count_at (count_msgs msgs c) k ≡ count_at c k + msgs_total k msgs
unfolding count_msgs
count_msgs-total k [] c = omega arith
count_msgs-total k ((j, n) ∷ msgs) c =
    let later = count_msgs-total k msgs (increment j n c) in
    let here = count_at-increment c j k n in omega (arith, later, here)

count_msgs-IsCounter :
    (msgs : List (Text × ℕ)) (c : Counter) → IsCounter c → IsCounter (count_msgs msgs c)
unfolding count_msgs
count_msgs-IsCounter [] c h = h
count_msgs-IsCounter ((j, n) ∷ msgs) c h =
    count_msgs-IsCounter msgs (increment j n c) (increment-IsCounter c j n h)

count_peers-total :
    (k : Text) (peers : PeerBytes) (c : Counter)
    → count_at (count_peers peers c) k ≡ count_at c k + bytes_total k peers
unfolding count_peers
count_peers-total k [] c = omega arith
count_peers-total k (none ∷ peers) c = count_peers-total k peers c
count_peers-total k (some msgs ∷ peers) c =
    let later = count_peers-total k peers (count_msgs msgs c) in
    let here = count_msgs-total k msgs c in omega (arith, later, here)

count_peers-IsCounter :
    (peers : PeerBytes) (c : Counter) → IsCounter c → IsCounter (count_peers peers c)
unfolding count_peers
count_peers-IsCounter [] c h = h
count_peers-IsCounter (none ∷ peers) c h = count_peers-IsCounter peers c h
count_peers-IsCounter (some msgs ∷ peers) c h =
    count_peers-IsCounter peers (count_msgs msgs c) (count_msgs-IsCounter msgs c h)

-- The difference of two counts of `recv_bytes` is that of the totals, and 0 where it would be negative.
pub recv_bytes-subtract :
    (k : Text) (after before : PeerBytes)
    → count_at (subtract (recv_bytes after) (recv_bytes before)) k
      ≡ bytes_total k after - bytes_total k before
unfolding recv_bytes count_at
recv_bytes-subtract k after before =
    let a = count_peers-total k after [] in
    let b = count_peers-total k before [] in
    let d =
      count_at-subtract (count_peers after []) (count_peers before []) k
        (count_peers-IsCounter after [] tt) in
    omega (arith, a, b, d)

collect-known :
    (entries : List (Option MempoolEntry)) (p : List ℕ × List ℕ)
    → collect entries p
      ≡ (p.0 ++ map (λ q. q.0) (known entries), p.1 ++ map (λ q. q.1) (known entries))
unfolding collect
collect-known [] p = rw (append-nil p.0, append-nil p.1) refl
collect-known (none ∷ entries) p = collect-known entries p
collect-known (some e ∷ entries) p = go e.first_inv_time e.recv_time (collect-known entries)
  where
    go :
        (inv recv : Option ℕ)
        → ((q : List ℕ × List ℕ)
            → collect entries q
              ≡ (q.0 ++ map (λ q. q.0) (known entries), q.1 ++ map (λ q. q.1) (known entries)))
        → let all = known (some (record { first_inv_time = inv; recv_time = recv }) ∷ entries) in
          collect entries (add_both inv recv p)
          ≡ (p.0 ++ map (λ q. q.0) all, p.1 ++ map (λ q. q.1) all)
    go (some i) (some r) h =
        h _
        ∙ rw
            (
              append_assoc p.0 (i ∷ []) (map (λ q. q.0) (known entries)),
              append_assoc p.1 (r ∷ []) (map (λ q. q.1) (known entries)),
            )
            refl
    go (some i) none h = h p
    go none r h = h p

-- No node has both times, or the time is from the first announcement to the last receipt of those that do.
abbrev pub IsSpan : List (Option MempoolEntry) → Option ℤ → Type 0
IsSpan entries none = known entries ≡ []
IsSpan entries (some d) =
    (last : ℕ) × (first : ℕ) × (d ≡ pos last -ℤ pos first)
    × IsGreatest last (map (λ p. p.1) (known entries))
    × IsLeast first (map (λ p. p.0) (known entries))

span-IsSpan :
    (entries : List (Option MempoolEntry)) (ps : List (ℕ × ℕ))
    → known entries ≡ ps
    → IsSpan entries (span (least (map (λ p. p.0) ps)) (greatest (map (λ p. p.1) ps)))
span-IsSpan entries [] k = k
span-IsSpan entries (p ∷ ps) k =
    let (last, e, h) = greatest-IsGreatest p.1 (map (λ p. p.1) ps) in
    let (first, e', h') = least-IsLeast p.0 (map (λ p. p.0) ps) in
    rw (e, e') (last, first, refl, rw k h, rw k h')

pub elapsed-IsSpan : (entries : List (Option MempoolEntry)) → IsSpan entries (elapsed entries)
unfolding elapsed
elapsed-IsSpan entries =
    rw (collect-known entries ([], [])) (span-IsSpan entries (known entries) refl)

pub received_count-all :
    (txids pool : List Text) → has_all txids pool ≡ true → received_count txids pool ≡ length txids
received_count-all [] pool h = refl
received_count-all (t ∷ txids) pool h = elim (Bool-cases (has_text t pool)) [
  | inl e ↦ ground (arith, e, h, received_count-all txids pool)
  | inr e ↦ ground (arith, e, h)
]
