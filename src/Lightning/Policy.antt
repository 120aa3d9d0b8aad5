-- ===== src/Lightning/Policy.antt =====
-- `Policy` of `scenarios/ln_framework/ln.py`. A field is `none` where the dictionary lacks it.
pub mod Laws
use erlay_warnet.Prelude.{
  ℕ, ◌+◌, ◌*◌, ◌/◌, ◌-◌, ◌&&◌, Bool, true, Option, none, some, List, [], ◌∷◌, if◌then◌else◌, min,
  leb, foldl,
}
use erlay_warnet.Prelude.Text.{Text, codes, text_eq}

pub record Policy : Type 0 where
  pub cltv_expiry_delta : Option ℕ
  pub htlc_minimum_msat : Option ℕ
  pub fee_base_msat : Option ℕ
  pub fee_proportional_millionths : Option ℕ
  pub htlc_maximum_msat : Option ℕ

-- `policy.get(key)`
unfoldable pub lookup {ℓ} : {A : Type ℓ} → Text → List (Text × A) → Option A
lookup key [] = none
lookup key ((k, v) ∷ d) = let rest = lookup key d in if text_eq k key then some v else rest

unfoldable pub from_dict : List (Text × Option ℕ) → Policy
unfolding lookup
from_dict policy =
    let get : Text → Option ℕ = λ key. elim (lookup key policy) [ none ↦ none | some v ↦ v ] in
    record {
      cltv_expiry_delta = get (codes "cltv_expiry_delta");
      htlc_minimum_msat = get (codes "htlc_minimum_msat");
      fee_base_msat = get (codes "fee_base_msat");
      fee_proportional_millionths = get (codes "fee_proportional_millionths");
      htlc_maximum_msat = get (codes "htlc_maximum_msat");
    }

unfoldable pub to_dict : Policy → List (Text × Option ℕ)
to_dict p =
    (codes "cltv_expiry_delta", p.cltv_expiry_delta)
    ∷ (codes "htlc_minimum_msat", p.htlc_minimum_msat)
    ∷ (codes "fee_base_msat", p.fee_base_msat)
    ∷ (codes "fee_proportional_millionths", p.fee_proportional_millionths)
    ∷ (codes "htlc_maximum_msat", p.htlc_maximum_msat)
    ∷ []

-- The dictionary that `UpdateChannelPolicy` takes.
pub record ChanPolicy : Type 0 where
  pub time_lock_delta : Option ℕ
  pub min_htlc_msat : Option ℕ
  pub base_fee_msat : Option ℕ
  pub fee_rate_ppm : Option ℕ
  pub max_htlc_msat : ℕ
  pub min_htlc_msat_specified : Bool

unfoldable pub reserve_of : (capacity : ℕ) → ℕ
reserve_of capacity = (capacity * 99 / 100) * 1000

-- `min` raises where the maximum is missing.
unfoldable pub to_lnd_chanpolicy : Policy → (capacity : ℕ) → Option ChanPolicy
unfolding reserve_of
to_lnd_chanpolicy p capacity = elim p.htlc_maximum_msat [
  | none ↦ none
  | some htlc_maximum ↦ some (record {
    time_lock_delta = p.cltv_expiry_delta;
    min_htlc_msat = p.htlc_minimum_msat;
    base_fee_msat = p.fee_base_msat;
    fee_rate_ppm = p.fee_proportional_millionths;
    max_htlc_msat = min htlc_maximum (reserve_of capacity);
    min_htlc_msat_specified = true;
  })
]

-- The body of the request of `LND.update`.
pub record ChannelUpdate : Type 0 where
  pub funding_txid_str : Text
  pub output_index : ℕ
  pub policy : ChanPolicy

unfoldable pub update_request :
    Text → List (Text × Option ℕ) → (capacity : ℕ) → Option ChannelUpdate
unfolding from_dict to_lnd_chanpolicy
update_request txid_hex policy capacity = elim (to_lnd_chanpolicy (from_dict policy) capacity) [
  | none ↦ none
  | some ln_policy ↦
      some (record { funding_txid_str = txid_hex; output_index = 0; policy = ln_policy })
]
