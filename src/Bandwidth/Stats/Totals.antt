-- ===== src/Bandwidth/Stats/Totals.antt =====
-- The statistics of the network are the sums over all nodes, networks and connection types.
use erlay_warnet.Prelude.{
  ℕ, ◌+◌, ◌*◌, ◌^◌, ◌<◌, ◌≡◌, refl, ap, arith, Option, List, [], ◌∷◌, ◌++◌, map, sum, if◌then◌else◌,
}
use mathlib.Core.List.{append_assoc, append-nil}
use erlay_warnet.Prelude.Int.{difference_pos, pos}
use erlay_warnet.Prelude.Float.{true_div}
use erlay_warnet.Prelude.Float.Exact.{true_div-Holds, Holds-int_of}
use erlay_warnet.Prelude.Text.{Text, text_eq, codes}
use erlay_warnet.Bandwidth.Counter.{Counter, IsCounter, count_at, subtract}
use erlay_warnet.Bandwidth.Counter.Entries.{count_at-increment, increment-IsCounter}
use erlay_warnet.Bandwidth.Counter.Laws.{count_at-add, add-IsCounter, count_at-subtract}
use erlay_warnet.Bandwidth.Stats.{
  MsgStats, MsgTypes, Traffic, NetMsgStats, Tally, no_tally, NetStats, no_stats, traffic_of,
  tally_msg, tally_msgs, tally_conn_types, tally_traffic, get_node_stats, add_tally,
  get_net_stats_from, get_net_stats, Transport, inv_overhead, inv_entries, sent_difference,
}

-- All entries of a direction, in a row.
abbrev pub conn_entries : List (Text × MsgTypes) → MsgTypes
conn_entries [] = []
conn_entries ((_, msgs) ∷ rest) = msgs ++ conn_entries rest

abbrev pub traffic_entries : Traffic → MsgTypes
traffic_entries [] = []
traffic_entries ((_, conns) ∷ rest) = conn_entries conns ++ traffic_entries rest

abbrev pub net_entries : (NetMsgStats → Option Traffic) → List NetMsgStats → MsgTypes
net_entries direction [] = []
net_entries direction (info ∷ infos) =
    traffic_entries (traffic_of (direction info)) ++ net_entries direction infos

-- What the entries of one message type sum up to.
abbrev pub total : (MsgStats → ℕ) → Text → MsgTypes → ℕ
total field k es = sum (map (λ e. if text_eq e.0 k then field e.1 else 0) es)

total-append :
    (field : MsgStats → ℕ) (k : Text) (xs ys : MsgTypes)
    → total field k (xs ++ ys) ≡ total field k xs + total field k ys
total-append field k [] ys = omega arith
total-append field k (x ∷ xs) ys = omega (arith, total-append field k xs ys)

-- A tally that counts what `es` says.
pub record IsTally (es : MsgTypes) (t : Tally) : Type 0 where
  pub counts_keys : IsCounter t.counts
  pub bytes_keys : IsCounter t.bytes
  pub counts_lem : (k : Text) → count_at t.counts k ≡ total (λ s. s.count) k es
  pub bytes_lem : (k : Text) → count_at t.bytes k ≡ total (λ s. s.bytes) k es

no_tally-IsTally : IsTally [] no_tally
unfolding count_at
no_tally-IsTally = record {
  counts_keys = tt;
  bytes_keys = tt;
  counts_lem = λ k. refl;
  bytes_lem = λ k. refl;
}

tally_msgs-IsTally :
    (es ms : MsgTypes) (t : Tally) → IsTally es t → IsTally (es ++ ms) (tally_msgs t ms)
tally_msgs-IsTally es [] t h = rw (append-nil es) h
tally_msgs-IsTally es (m ∷ ms) t h = rw (← append_assoc es (m ∷ []) ms) (
    tally_msgs-IsTally (es ++ (m ∷ [])) ms (tally_msg t m) (record {
      counts_keys = increment-IsCounter t.counts m.0 m.1.count h.counts_keys;
      bytes_keys = increment-IsCounter t.bytes m.0 m.1.bytes h.bytes_keys;
      counts_lem = λ k. ground (
        arith,
        count_at-increment t.counts m.0 k m.1.count,
        h.counts_lem k,
        total-append (λ s. s.count) k es (m ∷ []),
      );
      bytes_lem = λ k. ground (
        arith,
        count_at-increment t.bytes m.0 k m.1.bytes,
        h.bytes_lem k,
        total-append (λ s. s.bytes) k es (m ∷ []),
      );
    }))

tally_conn_types-IsTally :
    (es : MsgTypes) (cs : List (Text × MsgTypes)) (t : Tally)
    → IsTally es t
    → IsTally (es ++ conn_entries cs) (tally_conn_types t cs)
tally_conn_types-IsTally es [] t h = rw (append-nil es) h
tally_conn_types-IsTally es ((_, ms) ∷ cs) t h =
    rw (← append_assoc es ms (conn_entries cs))
      (tally_conn_types-IsTally (es ++ ms) cs (tally_msgs t ms) (tally_msgs-IsTally es ms t h))

tally_traffic-IsTally :
    (es : MsgTypes) (cs : Traffic) (t : Tally)
    → IsTally es t
    → IsTally (es ++ traffic_entries cs) (tally_traffic t cs)
tally_traffic-IsTally es [] t h = rw (append-nil es) h
tally_traffic-IsTally es ((_, ms) ∷ cs) t h =
    rw (← append_assoc es (conn_entries ms) (traffic_entries cs)) (
      tally_traffic-IsTally (es ++ conn_entries ms) cs (tally_conn_types t ms)
        (tally_conn_types-IsTally es ms t h))

add_tally-IsTally :
    (es fs : MsgTypes) (t u : Tally)
    → IsTally es t
    → IsTally fs u
    → IsTally (es ++ fs) (add_tally t u)
add_tally-IsTally es fs t u h k = record {
  counts_keys = add-IsCounter t.counts u.counts h.counts_keys k.counts_keys;
  bytes_keys = add-IsCounter t.bytes u.bytes h.bytes_keys k.bytes_keys;
  counts_lem = λ j. ground (
    arith,
    count_at-add t.counts u.counts j h.counts_keys k.counts_keys,
    h.counts_lem j,
    k.counts_lem j,
    total-append (λ s. s.count) j es fs,
  );
  bytes_lem = λ j. ground (
    arith,
    count_at-add t.bytes u.bytes j h.bytes_keys k.bytes_keys,
    h.bytes_lem j,
    k.bytes_lem j,
    total-append (λ s. s.bytes) j es fs,
  );
}

get_net_stats_from-IsTally :
    (es fs : MsgTypes) (net : NetStats) (infos : List NetMsgStats)
    → IsTally es net.sent
    → IsTally fs net.recv
    → IsTally (es ++ net_entries (λ i. i.sent) infos) (get_net_stats_from net infos).sent
      × IsTally (fs ++ net_entries (λ i. i.recv) infos) (get_net_stats_from net infos).recv
unfolding get_net_stats_from get_node_stats
get_net_stats_from-IsTally es fs net [] h k = (rw (append-nil es) h, rw (append-nil fs) k)
get_net_stats_from-IsTally es fs net (info ∷ infos) h k =
    let sent = traffic_entries (traffic_of info.sent) in
    let recv = traffic_entries (traffic_of info.recv) in
    let node = get_node_stats info in
    rw
      (
        ← append_assoc es sent (net_entries (λ i. i.sent) infos),
        ← append_assoc fs recv (net_entries (λ i. i.recv) infos),
      )
      (get_net_stats_from-IsTally (es ++ sent) (fs ++ recv)
        (record { sent = add_tally net.sent node.sent; recv = add_tally net.recv node.recv }) infos
        (add_tally-IsTally es sent net.sent node.sent h
          (tally_traffic-IsTally [] (traffic_of info.sent) no_tally no_tally-IsTally))
        (add_tally-IsTally fs recv net.recv node.recv k
          (tally_traffic-IsTally [] (traffic_of info.recv) no_tally no_tally-IsTally)))

-- For all answers of the nodes: in each direction, the messages and the bytes that `get_net_stats`
-- has for a message type are the sums over the entries of that type of every connection type, network
-- and node, and 0 where there is none.
pub get_net_stats-IsTally :
    (infos : List NetMsgStats)
    → IsTally (net_entries (λ i. i.sent) infos) (get_net_stats infos).sent
      × IsTally (net_entries (λ i. i.recv) infos) (get_net_stats infos).recv
unfolding get_net_stats
get_net_stats-IsTally infos =
    get_net_stats_from-IsTally [] [] no_stats infos no_tally-IsTally no_tally-IsTally

inv_entries_lem :
    (transport : Transport) (dc db : Counter) (messages entries : ℕ)
    → count_at dc (codes "inv") ≡ messages
    → count_at db (codes "inv") ≡ messages * inv_overhead transport + 36 * entries
    → 36 * entries < 2 ^ 53
    → inv_entries transport dc db ≡ pos entries
unfolding inv_entries
inv_entries_lem transport dc db messages entries c b few =
    rw (c, b, difference_pos (messages * inv_overhead transport) (36 * entries))
      (ap pos (
        Holds-int_of entries (true_div (36 * entries) 36)
          (true_div-Holds entries 36 (omega arith) few (omega arith))))

-- Where between two calls of `get_net_stats` the nodes sent `messages` INV messages more, whose bytes are
-- the overhead of the transport for each message and 36 for each of `entries` entries, the count that the
-- iteration notes, a quotient of floats, is the number of entries, if their bytes are below 2 ^ 53.
pub inv_entries_exact :
    (transport : Transport) (before after : List NetMsgStats) (messages entries : ℕ)
    → let inv = codes "inv" in
      let sent = net_entries (λ i. i.sent) in
      total (λ s. s.count) inv (sent after) ≡ total (λ s. s.count) inv (sent before) + messages
      → total (λ s. s.bytes) (codes "inv") (net_entries (λ i. i.sent) after)
        ≡ total (λ s. s.bytes) (codes "inv") (net_entries (λ i. i.sent) before)
          + messages * inv_overhead transport
          + 36 * entries
      → 36 * entries < 2 ^ 53
      → let d = sent_difference (get_net_stats before) (get_net_stats after) in
        inv_entries transport d.counts d.bytes ≡ pos entries
unfolding inv_entries sent_difference
inv_entries_exact transport before after messages entries c b few =
    let inv = codes "inv" in
    let earlier = (get_net_stats-IsTally before).0 in
    let later = (get_net_stats-IsTally after).0 in
    let dc : count_at
          (subtract (get_net_stats after).sent.counts (get_net_stats before).sent.counts) inv
        ≡ messages =
      ground (
        arith,
        count_at-subtract (get_net_stats after).sent.counts (get_net_stats before).sent.counts inv
            later.counts_keys,
        earlier.counts_lem inv,
        later.counts_lem inv,
        c,
      ) in
    let db : count_at (subtract (get_net_stats after).sent.bytes (get_net_stats before).sent.bytes)
          inv
        ≡ messages * inv_overhead transport + 36 * entries =
      ground (
        arith,
        count_at-subtract (get_net_stats after).sent.bytes (get_net_stats before).sent.bytes inv
            later.bytes_keys,
        earlier.bytes_lem inv,
        later.bytes_lem inv,
        b,
      ) in
    inv_entries_lem transport
      (subtract (get_net_stats after).sent.counts (get_net_stats before).sent.counts)
      (subtract (get_net_stats after).sent.bytes (get_net_stats before).sent.bytes) messages entries
      dc db few
