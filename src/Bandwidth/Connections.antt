-- ===== src/Bandwidth/Connections.antt =====
-- `ensure_all_connections` of `scenarios/check_net_bandwidth.py`.
use erlay_warnet.Prelude.{
  ℕ, ◌+◌, ◌≡◌, refl, arith, not, Option, none, some, List, [], ◌∷◌, ◌++◌, length, ltb,
  if◌then◌else◌, All, Bool-cases, inl, inr, ◌<◌,
}
use erlay_warnet.Prelude.Result.{Result, ok, err, raise_if}
use erlay_warnet.Prelude.Text.{Text, codes, text_eq, text_eq→eq}

-- An entry of `getpeerinfo`, and a node with its answer.
pub record Peer : Type 0 where
  pub addr : Option Text
  pub connection_type : Option Text
  pub transport_protocol_type : Option Text

pub record NodePeers : Type 0 where
  pub tank : Text
  pub peers : List Peer

pub record Offender : Type 0 where
  pub tank : Text
  pub addr : Option Text
  pub connection_type : Option Text
  pub actual : Text

pub data WrongTransport : Type 0 where
  wrong_transport : (connections : ℕ) → WrongTransport

-- `peer.get("transport_protocol_type", "v1")`
abbrev pub actual_transport : Peer → Text
actual_transport peer = elim peer.transport_protocol_type [ none ↦ codes "v1" | some t ↦ t ]

-- The inner loop, and the outer one.
unfoldable pub peer_offenders : (transport tank : Text) → List Peer → List Offender
peer_offenders transport tank [] = []
peer_offenders transport tank (peer ∷ peers) =
    let rest = peer_offenders transport tank peers in
    if not (text_eq (actual_transport peer) transport)
    then record {
      tank = tank;
      addr = peer.addr;
      connection_type = peer.connection_type;
      actual = actual_transport peer;
    }
      ∷ rest
    else rest

unfoldable pub offenders : (transport : Text) → List NodePeers → List Offender
unfolding peer_offenders
offenders transport [] = []
offenders transport (node ∷ nodes) =
    peer_offenders transport node.tank node.peers ++ offenders transport nodes

unfoldable pub ensure_all_connections :
    (transport : Text) → List NodePeers → Result WrongTransport (Unit {0})
unfolding offenders
ensure_all_connections transport nodes =
    let found = offenders transport nodes in
    raise_if (ltb 0 (length found)) (wrong_transport (length found))

-- How many peers have another transport.
abbrev pub off_peers : (transport : Text) → List Peer → ℕ
off_peers transport [] = 0
off_peers transport (peer ∷ peers) =
    (if text_eq (actual_transport peer) transport then 0 else 1) + off_peers transport peers

abbrev pub off_nodes : (transport : Text) → List NodePeers → ℕ
off_nodes transport [] = 0
off_nodes transport (node ∷ nodes) = off_peers transport node.peers + off_nodes transport nodes

-- Every peer of every node uses the transport.
abbrev pub IsOnTransport : (transport : Text) → List NodePeers → Type 0
IsOnTransport transport nodes =
    All (λ (n : NodePeers). All (λ p. actual_transport p ≡ transport) n.peers) nodes

length-peer_offenders :
    (transport tank : Text) (peers : List Peer)
    → length (peer_offenders transport tank peers) ≡ off_peers transport peers
unfolding peer_offenders
length-peer_offenders transport tank [] = refl
length-peer_offenders transport tank (p ∷ peers) =
    elim (Bool-cases (text_eq (actual_transport p) transport)) [
      | inl e ↦ rw e (ground (arith, length-peer_offenders transport tank peers))
      | inr e ↦ rw e (ground (arith, length-peer_offenders transport tank peers))
    ]

length-append {ℓ} : {A : Type ℓ} (xs ys : List A) → length (xs ++ ys) ≡ length xs + length ys
length-append [] ys = omega arith
length-append (x ∷ xs) ys = omega (arith, length-append xs ys)

length-offenders :
    (transport : Text) (nodes : List NodePeers)
    → length (offenders transport nodes) ≡ off_nodes transport nodes
unfolding offenders
length-offenders transport [] = refl
length-offenders transport (n ∷ nodes) = omega (
  arith,
  length-append (peer_offenders transport n.tank n.peers) (offenders transport nodes),
  length-peer_offenders transport n.tank n.peers,
  length-offenders transport nodes,
)

off_peers-All :
    (transport : Text) (peers : List Peer)
    → off_peers transport peers ≡ 0
    → All (λ p. actual_transport p ≡ transport) peers
off_peers-All transport [] h = tt
off_peers-All transport (p ∷ peers) h = elim (Bool-cases (text_eq (actual_transport p) transport)) [
  | inl e ↦ (
    text_eq→eq (actual_transport p) transport e,
    off_peers-All transport peers (ground (arith, e, h)),
  )
  | inr e ↦ absurd (ground (arith, e, h))
]

off_nodes-All :
    (transport : Text) (nodes : List NodePeers)
    → off_nodes transport nodes ≡ 0
    → IsOnTransport transport nodes
off_nodes-All transport [] h = tt
off_nodes-All transport (n ∷ nodes) h = (
  off_peers-All transport n.peers (omega (arith, h)),
  off_nodes-All transport nodes (omega (arith, h)),
)

-- How `ensure_all_connections` may end.
abbrev pub IsEnsured :
    (transport : Text) → List NodePeers → Result WrongTransport (Unit {0}) → Type 0
IsEnsured transport nodes (ok _) = IsOnTransport transport nodes
IsEnsured transport nodes (err (wrong_transport n)) = (0 < n) × (n ≡ off_nodes transport nodes)

-- For all answers of the nodes: `ensure_all_connections` returns only where every peer of every node
-- uses the transport, a peer that names none counting as v1; else it raises with the number of peers
-- that do not, which is above 0.
pub ensure_all_connections-IsEnsured :
    (transport : Text) (nodes : List NodePeers)
    → IsEnsured transport nodes (ensure_all_connections transport nodes)
unfolding ensure_all_connections
ensure_all_connections-IsEnsured transport nodes =
    let e = length-offenders transport nodes in
    elim (Bool-cases (ltb 0 (length (offenders transport nodes)))) [
      | inl h ↦ rw h (ground (arith, h), e)
      | inr h ↦ rw h (off_nodes-All transport nodes (ground (arith, h, e)))
    ]
