-- ===== src/Bandwidth/Stats.antt =====
-- `get_net_stats` and the count of INV entries of `scenarios/check_net_bandwidth.py`.
pub mod Totals
use erlay_warnet.Prelude.{ℕ, ◌+◌, ◌*◌, ◌-◌, ◌/◌, Option, none, some, List, [], ◌∷◌, foldl}
use erlay_warnet.Prelude.Int.{ℤ, pos, negsuc, pos_part, neg_part, ◌-ℤ◌, ◌*ℤ◌}
use erlay_warnet.Prelude.Float.{int_of, true_div}
use erlay_warnet.Prelude.Text.{Text, codes}
use erlay_warnet.Bandwidth.Counter.{Counter, count_at, increment, add, subtract}

pub record MsgStats : Type 0 where
  pub count : ℕ
  pub bytes : ℕ

abbrev pub MsgTypes : Type 0
MsgTypes = List (Text × MsgStats)

-- One direction of an answer of `getnetmsgstats`: by network, by connection type, by message type.
abbrev pub Traffic : Type 0
Traffic = List (Text × List (Text × MsgTypes))

-- The answer, in which a direction may be missing.
pub record NetMsgStats : Type 0 where
  pub sent : Option Traffic
  pub recv : Option Traffic

-- The counters of one direction: messages and bytes by message type.
pub record Tally : Type 0 where
  pub counts : Counter
  pub bytes : Counter

abbrev pub no_tally : Tally
no_tally = record { counts = []; bytes = [] }

pub record NetStats : Type 0 where
  pub sent : Tally
  pub recv : Tally

abbrev pub no_stats : NetStats
no_stats = record { sent = no_tally; recv = no_tally }

-- `info.get(direction, {})`
abbrev pub traffic_of : Option Traffic → Traffic
traffic_of none = []
traffic_of (some t) = t

-- The three loops of `get_node_stats`, the inner one first.
abbrev pub tally_msg : Tally → Text × MsgStats → Tally
tally_msg t (msg_type, stats) = record {
  counts = increment msg_type stats.count t.counts;
  bytes = increment msg_type stats.bytes t.bytes;
}

abbrev pub tally_msgs : Tally → MsgTypes → Tally
tally_msgs t [] = t
tally_msgs t (m ∷ ms) = tally_msgs (tally_msg t m) ms

abbrev pub tally_conn_types : Tally → List (Text × MsgTypes) → Tally
tally_conn_types t [] = t
tally_conn_types t ((_, msg_types) ∷ rest) = tally_conn_types (tally_msgs t msg_types) rest

abbrev pub tally_traffic : Tally → Traffic → Tally
tally_traffic t [] = t
tally_traffic t ((_, conn_types) ∷ rest) = tally_traffic (tally_conn_types t conn_types) rest

unfoldable pub get_node_stats : NetMsgStats → NetStats
get_node_stats info = record {
  sent = tally_traffic no_tally (traffic_of info.sent);
  recv = tally_traffic no_tally (traffic_of info.recv);
}

abbrev pub add_tally : Tally → Tally → Tally
add_tally a b = record { counts = add a.counts b.counts; bytes = add a.bytes b.bytes }

-- The loop over the nodes, on their answers.
unfoldable pub get_net_stats_from : NetStats → List NetMsgStats → NetStats
unfolding get_node_stats
get_net_stats_from net [] = net
get_net_stats_from net (info ∷ infos) =
    let node = get_node_stats info in
    get_net_stats_from
      (record { sent = add_tally net.sent node.sent; recv = add_tally net.recv node.recv }) infos

unfoldable pub get_net_stats : List NetMsgStats → NetStats
unfolding get_net_stats_from
get_net_stats infos = get_net_stats_from no_stats infos

-- `int(a / float(b))`: the quotient in floats, toward 0.
abbrev pub int_of_quotient : ℤ → ℕ → ℤ
int_of_quotient (pos n) b = pos (int_of (true_div n b))
int_of_quotient (negsuc n) b = pos 0 -ℤ pos (int_of (true_div (n + 1) b))

-- `INV_OVERHEAD_BY_TRANSPORT`, `INV_ENTRY_SIZE`
pub data Transport : Type 0 where
  v1 : Transport
  v2 : Transport

abbrev pub inv_overhead : Transport → ℕ
inv_overhead v1 = 25
inv_overhead v2 = 22

abbrev pub inv_entry_size : ℕ
inv_entry_size = 36

-- What an iteration appends to `inv_entry_count`, from the sent differences of messages and bytes.
unfoldable pub inv_entries : (transport : Transport) → (dc db : Counter) → ℤ
unfolding true_div
inv_entries transport dc db =
    int_of_quotient
      (pos (count_at db (codes "inv")) -ℤ pos (count_at dc (codes "inv") * inv_overhead transport))
      inv_entry_size

-- The sent traffic of an iteration: `dc` and `db`.
unfoldable pub sent_difference : (init net : NetStats) → Tally
sent_difference init net = record {
  counts = subtract net.sent.counts init.sent.counts;
  bytes = subtract net.sent.bytes init.sent.bytes;
}
