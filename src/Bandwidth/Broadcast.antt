-- ===== src/Bandwidth/Broadcast.antt =====
-- `broadcast_txs` of `scenarios/check_net_bandwidth.py`: one transaction at a time, from node to node.
pub mod Plan
use erlay_warnet.Prelude.{
  ℕ, zero, suc, ◌+◌, ◌-◌, ◌*◌, ◌<◌, ◌≤◌, ◌≡◌, ◌%◌, refl, sym, ap, ◌∙◌, arith, Option, none, some,
  List, [], ◌∷◌, ◌++◌, map, length, get_elem?, range_from, range, Bool, if◌then◌else◌, count,
  contains, Bool-cases, inl, inr, ◌==◌,
}
use erlay_warnet.Prelude.Result.{Result, ok, err, ◌>>=◌}

-- The nodes' `sendrawtransaction`, which changes the nodes' state or raises.
pub record SendRpc : Type 1 where
  pub State : Type 0
  pub Tx : Type 0
  pub Error : Type 0
  pub send : (node : ℕ) → Tx → State → Result Error State

module _ (N : SendRpc) (nodes : ℕ) where
  -- `txs.pop()` and what it leaves.
  unfoldable pub pop : N.Tx → List N.Tx → N.Tx × List N.Tx
  pop tx [] = (tx, [])
  pop tx (next ∷ txs) = let (last, rest) = pop next txs in (last, tx ∷ rest)

  -- `while txs`, from the node `target_node_id` on, of one node or more; `orders` asks for two.
  unfoldable pub broadcast_from :
      (fuel target_node_id : ℕ) → List N.Tx → N.State → Option (Result N.Error N.State)
  unfolding pop
  broadcast_from zero target_node_id txs s = none
  broadcast_from (suc fuel) target_node_id [] s = some (ok s)
  broadcast_from (suc fuel) target_node_id (tx ∷ txs) s =
      let (last, rest) = pop tx txs in
      elim (N.send target_node_id last s) [
        | ok s' ↦ broadcast_from fuel ((target_node_id + 1) % nodes) rest s'
        | err e ↦ some (err e)
      ]

  unfoldable pub broadcast_txs : List N.Tx → N.State → Option (Result N.Error N.State)
  unfolding broadcast_from
  broadcast_txs txs s = broadcast_from (length txs + 1) 0 txs s
