-- ===== src/Lightning/Methods.antt =====
-- The methods of `LND` of `scenarios/ln_framework/ln.py` that read an answer.
use erlay_warnet.Prelude.{if◌then◌else◌, ℕ, Option, none, some, List, [], ◌∷◌}
use erlay_warnet.Prelude.Int.{ℤ, pos}
use erlay_warnet.Prelude.Json.{
  Json, boolean, number, text, array, object, no_items, item, Fields, no_fields, field, get_field,
  fields_of,
}
use erlay_warnet.Prelude.Result.{Result, ok, err, ◌>>=◌, of_option}
use erlay_warnet.Prelude.Text.{Text, codes}
use erlay_warnet.Commander.Pods.{Raised, int_text, type_error, key_error}
use erlay_warnet.Lightning.Policy.{ChannelUpdate, update_request}
use erlay_warnet.Lightning.Requests.{get, post, Addr, connect_request}

-- `int(value)`, of texts of digits with a sign or none; `policy.get` gives `None` for a missing key.
unfoldable pub int_json : Option Json → Result Raised ℤ
unfolding int_text
int_json (some (number z)) = ok z
int_json (some (boolean b)) = ok (pos (if b then 1 else 0))
int_json (some (text t)) = int_text t
int_json _ = err type_error

-- The `Policy` that `from_lnd_describegraph` makes, whose fields are numbers that may be below 0.
pub record GraphPolicy : Type 0 where
  pub cltv_expiry_delta : ℤ
  pub htlc_minimum_msat : ℤ
  pub fee_base_msat : ℤ
  pub fee_proportional_millionths : ℤ
  pub htlc_maximum_msat : ℤ

unfoldable pub from_lnd_describegraph : Fields → Result Raised GraphPolicy
unfolding int_json get_field
from_lnd_describegraph policy = do
  cltv ← int_json (get_field (codes "time_lock_delta") policy)
  minimum ← int_json (get_field (codes "min_htlc") policy)
  base ← int_json (get_field (codes "fee_base_msat") policy)
  proportional ← int_json (get_field (codes "fee_rate_milli_msat") policy)
  maximum ← int_json (get_field (codes "max_htlc_msat") policy)
  ok (record {
    cltv_expiry_delta = cltv;
    htlc_minimum_msat = minimum;
    fee_base_msat = base;
    fee_proportional_millionths = proportional;
    htlc_maximum_msat = maximum;
  })

-- The attempts run out of fuel, the answer is no JSON, or the code raises over it or over its arguments.
pub data LndError : Type 0 where
  out_of_attempts bad_json bad_uri no_maximum : LndError
  raised : Raised → LndError

abbrev lift_error : {A : Type 0} → Result Raised A → Result LndError A
lift_error (ok a) = ok a
lift_error (err e) = err (raised e)

-- The body of `channel`.
pub record ChannelOpen : Type 0 where
  pub local_funding_amount : ℕ
  pub push_sat : ℕ
  pub node_pubkey : Text
  pub sat_per_vbyte : ℕ

-- What is posted.
pub data Body : Type 0 where
  addr_body : Addr → Body
  channel_body : ChannelOpen → Body
  update_body : ChannelUpdate → Body

-- What the attempts at a request meet, by its path.
pub record Connection : Type 0 where
  pub loads : Text → Option Json
  pub got : Text → ℕ → Option Text
  pub posted : Text → Body → ℕ → Option (List (Option ℕ))

module _ (c : Connection) (fuel : ℕ) where
  abbrev pub parsed_answer : Option Text → Result LndError Json
  parsed_answer o = do t ← of_option out_of_attempts o; of_option bad_json (c.loads t)

  unfoldable pub get_json : Text → Result LndError Json
  unfolding get
  get_json path = parsed_answer (get (c.got path) fuel 0)

  unfoldable pub post_json : Text → Body → Result LndError Json
  unfolding post
  post_json path body = parsed_answer (post (c.posted path body) fuel 0)

  unfoldable pub newaddress : Result LndError Json
  unfolding get_json
  newaddress = get_json (codes "/v1/newaddress")

  unfoldable pub graph : Result LndError Json
  unfolding get_json
  graph = get_json (codes "/v1/graph")

  -- LND answers dictionaries; another value raises a `TypeError`.
  unfoldable pub walletbalance : Result LndError ℤ
  unfolding get_json get_field int_json
  walletbalance = do
    answer ← get_json (codes "/v1/balance/blockchain")
    fields ← lift_error (of_option type_error (fields_of answer))
    balance ← lift_error (
        of_option (key_error (codes "confirmed_balance"))
          (get_field (codes "confirmed_balance") fields))
    lift_error (int_json (some balance))

  -- The first of `info["uris"]`, where it is there and has any.
  abbrev pub first_uri : Option Json → Result LndError (Option Json)
  first_uri none = ok none
  first_uri (some (array no_items)) = ok none
  first_uri (some (array (item j js))) = ok (some j)
  first_uri (some (text [])) = ok none
  first_uri (some (text (x ∷ t))) = ok (some (text (x ∷ [])))
  first_uri (some (object no_fields)) = ok none
  first_uri (some (object (field k j fs))) = err (raised (key_error (codes "0")))
  first_uri (some _) = err (raised type_error)

  unfoldable pub uri : Result LndError (Option Json)
  unfolding get_json get_field
  uri = do
    answer ← get_json (codes "/v1/getinfo")
    info ← lift_error (of_option type_error (fields_of answer))
    first_uri (get_field (codes "uris") info)

  unfoldable pub connect : (target_uri : Text) → Result LndError Json
  unfolding post_json connect_request
  connect target_uri = do
    addr ← of_option bad_uri (connect_request target_uri)
    post_json (codes "/v1/peers") (addr_body addr)

  unfoldable pub channel : (pk : Text) → (capacity push_amt fee_rate : ℕ) → Result LndError Json
  unfolding post_json
  channel pk capacity push_amt fee_rate = post_json (codes "/v1/channels/stream") (
      channel_body (record {
        local_funding_amount = capacity;
        push_sat = push_amt;
        node_pubkey = pk;
        sat_per_vbyte = fee_rate;
      }))

  unfoldable pub update :
      (txid_hex : Text) → (policy : List (Text × Option ℕ)) → (capacity : ℕ) → Result LndError Json
  unfolding post_json update_request
  update txid_hex policy capacity = do
    data_of ← of_option no_maximum (update_request txid_hex policy capacity)
    post_json (codes "/v1/chanpolicy") (update_body data_of)
