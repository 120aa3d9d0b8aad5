-- ===== src/Network/Args/Laws.antt =====
-- What `validate_args` lets through, exactly, and what its advice is worth.
use erlay_warnet.Prelude.{◌+◌, ℕ, ◌*◌, ◌≤◌, ◌<◌, ◌≡◌, ◌↔◌, arith}
use erlay_warnet.Prelude.Int.{ℤ, pos, negsuc, pos_part, ◌+ℤ◌, ◌*ℤ◌, ◌≤ℤ◌, +ℤ_parts}
use erlay_warnet.Prelude.Result.{ok, err}
use erlay_warnet.Network.Args.{
  validate_args, max_inbound_too_small, min_cap_for, min_reachable_for, ceil_div,
}

-- The arguments are numbers in these ranges.
pub record IsFeasible (size reachable outbound recon_outbound max_inbound : ℤ) : Type 0 where
  pub size_pos : pos 1 ≤ℤ size
  pub outbound_pos : pos 1 ≤ℤ outbound
  pub recon_nonneg : pos 0 ≤ℤ recon_outbound
  pub reachable_pos : pos 1 ≤ℤ reachable
  pub reachable_le : reachable ≤ℤ size
  pub pairs_suffice : pos 2 *ℤ (outbound +ℤ recon_outbound) +ℤ pos 1 ≤ℤ reachable
  pub slots_suffice : size *ℤ (outbound +ℤ recon_outbound) ≤ℤ reachable *ℤ max_inbound

-- The check passes exactly on feasible arguments.
pub validate_args-IsFeasible :
    (size reachable outbound recon_outbound max_inbound : ℤ)
    → (validate_args size reachable outbound recon_outbound max_inbound ≡ ok tt)
      ↔ IsFeasible size reachable outbound recon_outbound max_inbound
unfolding validate_args min_reachable_for
validate_args-IsFeasible size reachable outbound recon_outbound max_inbound =
    (λ h. ground arith, λ h. ground arith)

ceil_div_covers : (a b : ℕ) → 0 < b → a ≤ b * ceil_div a b
ceil_div_covers a b h = grind arith

ceil_div_least : (a b m : ℕ) → 0 < b → a ≤ b * m → ceil_div a b ≤ m
ceil_div_least a b m h le = grind arith

-- The largest total that `reachable` nodes can reach, at the least number of slots that is advised.
pub min_cap_covers :
    (edges reachable : ℤ) → pos 1 ≤ℤ reachable → edges ≤ℤ reachable *ℤ min_cap_for edges reachable
unfolding min_cap_for ◌*ℤ◌
min_cap_covers edges (pos r) h = ground (arith, ceil_div_covers (pos_part edges) r)
min_cap_covers edges (negsuc r) h = absurd (omega arith)

pub min_cap_least :
    (edges reachable cap : ℤ)
    → pos 1 ≤ℤ edges
    → pos 1 ≤ℤ reachable
    → edges ≤ℤ reachable *ℤ cap
    → min_cap_for edges reachable ≤ℤ cap
unfolding min_cap_for ◌*ℤ◌
min_cap_least edges (pos r) (pos c) e h le = ground (arith, ceil_div_least (pos_part edges) r c)
min_cap_least edges (pos r) (negsuc c) e h le = absurd (ground arith)
min_cap_least edges (negsuc r) cap e h le = absurd (omega arith)

product_pos : (a b : ℤ) → pos 1 ≤ℤ a → pos 1 ≤ℤ b → pos 1 ≤ℤ a *ℤ b
unfolding ◌*ℤ◌
product_pos (pos a) (pos b) h k = grind arith
product_pos (pos a) (negsuc b) h k = absurd (omega arith)
product_pos (negsuc a) b h k = absurd (omega arith)

-- What the refusal over inbound slots says of its arguments.
module _ (size reachable outbound recon_outbound max_inbound a b c d e min_cap : ℤ)
    (refused : validate_args size reachable outbound recon_outbound max_inbound
      ≡ err (max_inbound_too_small a b c d e min_cap)) where
  refused_named :
      (pos 1 ≤ℤ size)
      × (pos 1 ≤ℤ outbound +ℤ recon_outbound)
      × (pos 1 ≤ℤ reachable)
      × (min_cap ≡ min_cap_for (size *ℤ (outbound +ℤ recon_outbound)) reachable)
  unfolding validate_args min_reachable_for
  refused_named =
      (ground arith, ground (arith, +ℤ_parts outbound recon_outbound), ground arith, ground arith)

  -- Where `validate_args` refuses for want of inbound slots, the arguments pass with `max_inbound` set
  -- to the number that the message names.
  pub min_cap_passes : validate_args size reachable outbound recon_outbound min_cap ≡ ok tt
  unfolding validate_args min_reachable_for
  min_cap_passes =
      let (_, _, reachable_pos, named) = refused_named in
      rw named (
        ground
          (arith, min_cap_covers (size *ℤ (outbound +ℤ recon_outbound)) reachable reachable_pos))

  -- Where `validate_args` refuses for want of inbound slots, the number that the message names is at
  -- most every `max_inbound` with which the arguments pass.
  pub min_cap_is_least :
      (other : ℤ)
      → validate_args size reachable outbound recon_outbound other ≡ ok tt
      → min_cap ≤ℤ other
  unfolding validate_args min_reachable_for
  min_cap_is_least other passes =
      let (size_pos, total_pos, reachable_pos, named) = refused_named in
      rw named (
        min_cap_least (size *ℤ (outbound +ℤ recon_outbound)) reachable other
          (product_pos size (outbound +ℤ recon_outbound) size_pos total_pos) reachable_pos
          (ground arith))

-- The arguments that pass, as the counts that the builder works with.
pub passed_counts :
    (size reachable outbound recon_outbound max_inbound : ℤ)
    → validate_args size reachable outbound recon_outbound max_inbound ≡ ok tt
    → (2 * (pos_part outbound + pos_part recon_outbound) + 1 ≤ pos_part reachable)
      × (pos_part reachable ≤ pos_part size)
unfolding ◌+ℤ◌ ◌*ℤ◌
passed_counts size reachable outbound recon_outbound max_inbound passes =
    let f =
      (validate_args-IsFeasible size reachable outbound recon_outbound max_inbound).0 passes in
    let o = f.outbound_pos in
    let r = f.recon_nonneg in
    let p = f.pairs_suffice in (ground arith, ground (arith, f.reachable_le, f.size_pos))
