-- ===== src/Network/Args.antt =====
-- `validate_args` of `utils/create_network.py`, on the integers of the command line.
pub mod Laws
use erlay_warnet.Prelude.{ℕ, ◌+◌, ◌-◌, ◌/◌, ◌*◌, Bool, not, ◌&&◌, if◌then◌else◌}
use erlay_warnet.Prelude.Int.{ℤ, pos, negsuc, pos_part, ◌+ℤ◌, ◌*ℤ◌, leb_ℤ, ltb_ℤ}
use erlay_warnet.Prelude.Result.{Result, ok, ◌>>◌, raise_if}

-- `InfeasibleNetwork`: one constructor for each message, with the numbers that it prints. The last
-- is raised by `build_network`.
pub data Infeasible : Type 0 where
  size_not_positive : Infeasible
  outbound_not_positive : Infeasible
  recon_outbound_negative : Infeasible
  reachable_not_in_range : (reachable size : ℤ) → Infeasible
  reachable_too_small : (reachable total_outbound min_reachable : ℤ) → Infeasible
  max_inbound_too_small :
      (max_inbound size total_outbound total_edges reachable min_cap : ℤ) → Infeasible
  not_connected_after : (max_attempts : ℕ) → Infeasible

-- `math.ceil(a / b)` for positive numbers.
abbrev pub ceil_div : ℕ → ℕ → ℕ
ceil_div a b = (a + b - 1) / b

unfoldable pub min_reachable_for : ℤ → ℤ
min_reachable_for total_outbound = pos 2 *ℤ total_outbound +ℤ pos 1

unfoldable pub min_cap_for : ℤ → ℤ → ℤ
min_cap_for total_edges reachable = pos (ceil_div (pos_part total_edges) (pos_part reachable))

unfoldable pub validate_args :
    (size reachable outbound recon_outbound max_inbound : ℤ) → Result Infeasible (Unit {0})
validate_args size reachable outbound recon_outbound max_inbound = do
  raise_if (leb_ℤ size (pos 0)) size_not_positive
  raise_if (leb_ℤ outbound (pos 0)) outbound_not_positive
  raise_if (ltb_ℤ recon_outbound (pos 0)) recon_outbound_negative
  raise_if (not (ltb_ℤ (pos 0) reachable && leb_ℤ reachable size))
      (reachable_not_in_range reachable size)
  let total_outbound = outbound +ℤ recon_outbound
  let min_reachable = min_reachable_for total_outbound
  raise_if (ltb_ℤ reachable min_reachable)
      (reachable_too_small reachable total_outbound min_reachable)
  let total_edges = size *ℤ total_outbound
  raise_if (ltb_ℤ (reachable *ℤ max_inbound) total_edges) (
      max_inbound_too_small max_inbound size total_outbound total_edges reachable
        (min_cap_for total_edges reachable))
  ok tt
