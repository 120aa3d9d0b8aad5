-- ===== src/Lightning/Policy/Laws.antt =====
-- An update keeps the reserve of the channel.
use erlay_warnet.Prelude.{
  Bool-cases, leb, ℕ, ◌+◌, ◌*◌, ◌≤◌, ◌≡◌, ◌⊎◌, refl, arith, true, some, inl, inr, min,
}
use erlay_warnet.Prelude.Text.{Text}
use erlay_warnet.Lightning.Policy.{
  Policy, ChannelUpdate, from_dict, to_dict, reserve_of, to_lnd_chanpolicy, update_request,
}

≤_total : (a b : ℕ) → (a ≤ b) ⊎ (b ≤ a)
≤_total a b = elim (Bool-cases (leb a b)) [
  | inl e ↦ inl (ground (arith, e))
  | inr e ↦ inr (ground (arith, e))
]

-- What the request of an update says of the policy that it was made from.
pub record IsUpdate (txid : Text) (p : Policy) (capacity htlc_maximum : ℕ) (u : ChannelUpdate)
    : Type 0 where
  pub channel : u.funding_txid_str ≡ txid
  pub fees :
      (u.policy.base_fee_msat ≡ p.fee_base_msat)
      × (u.policy.fee_rate_ppm ≡ p.fee_proportional_millionths)
  pub limits :
      (u.policy.time_lock_delta ≡ p.cltv_expiry_delta)
      × (u.policy.min_htlc_msat ≡ p.htlc_minimum_msat)
  pub within_maximum : u.policy.max_htlc_msat ≤ htlc_maximum
  -- one hundredth of the capacity, in millisatoshis, is kept
  pub within_reserve : u.policy.max_htlc_msat + 10 * capacity ≤ 1000 * capacity
  -- no less than that, up to a satoshi
  pub close :
      (u.policy.max_htlc_msat ≡ htlc_maximum)
      ⊎ (1000 * capacity ≤ u.policy.max_htlc_msat + 10 * capacity + 1000)

-- For every policy with a maximum, every channel and capacity: the update that is made of the policy's
-- dictionary carries its fees and limits, and a maximum that is at most the policy's and leaves one
-- hundredth of the capacity; it is the policy's own, or within a satoshi of what the reserve allows.
pub update_request-IsUpdate :
    (txid : Text) (p : Policy) (capacity htlc_maximum : ℕ)
    → p.htlc_maximum_msat ≡ some htlc_maximum
    → (u : ChannelUpdate) × (update_request txid (to_dict p) capacity ≡ some u)
      × IsUpdate txid p capacity htlc_maximum u
unfolding update_request from_dict to_dict to_lnd_chanpolicy reserve_of
update_request-IsUpdate txid p capacity htlc_maximum e = rw e (
  record {
    funding_txid_str = txid;
    output_index = 0;
    policy = record {
      time_lock_delta = p.cltv_expiry_delta;
      min_htlc_msat = p.htlc_minimum_msat;
      base_fee_msat = p.fee_base_msat;
      fee_rate_ppm = p.fee_proportional_millionths;
      max_htlc_msat = min htlc_maximum (reserve_of capacity);
      min_htlc_msat_specified = true;
    };
  },
  refl,
  record {
    channel = refl;
    fees = (refl, refl);
    limits = (refl, refl);
    within_maximum = omega arith;
    within_reserve = omega arith;
    close = elim (≤_total htlc_maximum (reserve_of capacity)) [
      | inl h ↦ inl (omega (arith, h))
      | inr h ↦ inr (omega (arith, h))
    ];
  },
)
