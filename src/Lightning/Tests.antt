-- ===== src/Lightning/Tests.antt =====
-- A policy, an update and a few answers, and the theorems at them.
use erlay_warnet.Prelude.Int.{pos, negsuc, ◌-ℤ◌}
use erlay_warnet.Prelude.Json.{text, object, array, no_fields, field, no_items}
use erlay_warnet.Prelude.Result.{ok, err}
use erlay_warnet.Commander.Pods.{Raised}
use erlay_warnet.Lightning.Methods.{Connection, LndError, int_json, walletbalance, uri, connect}
use erlay_warnet.Prelude.{
  leb, if◌then◌else◌, ℕ, zero, suc, ◌<◌, ◌≡◌, refl, arith, Option, none, some, List, [], ◌∷◌, map,
}
use erlay_warnet.Prelude.Text.{codes}
use erlay_warnet.Lightning.Policy.{Policy, ChannelUpdate, to_dict, update_request}
use erlay_warnet.Lightning.Policy.Laws.{IsUpdate, update_request-IsUpdate}
use erlay_warnet.Lightning.Requests.{read_stream, post}
use erlay_warnet.Lightning.Requests.Answers.{post_answered, post_truncated}

abbrev policy : Policy
policy = record {
  cltv_expiry_delta = some 40;
  htlc_minimum_msat = some 1;
  fee_base_msat = none;
  fee_proportional_millionths = some 250;
  htlc_maximum_msat = some 2000000000;
}

update_request-IsUpdate_example :
    (u : ChannelUpdate) × (update_request (codes "ab12") (to_dict policy) 1000050 ≡ some u)
    × IsUpdate (codes "ab12") policy 1000050 2000000000 u
update_request-IsUpdate_example =
    update_request-IsUpdate (codes "ab12") policy 1000050 2000000000 refl

-- Two attempts raise, and every later one is answered.
abbrev third_time : List (Option ℕ) → ℕ → Option (List (Option ℕ))
third_time reads zero = none
third_time reads (suc zero) = none
third_time reads (suc (suc i)) = some reads

third_time-fails : (reads : List (Option ℕ)) (j : ℕ) → j < 2 → third_time reads j ≡ none
third_time-fails reads zero h = refl
third_time-fails reads (suc zero) h = refl
third_time-fails reads (suc (suc j)) h = absurd (omega arith)

post_answered_example : post (third_time (map some (codes "{}"))) 3 0 ≡ some (codes "{}")
post_answered_example =
    post_answered (third_time (map some (codes "{}"))) 3 2 (codes "{}")
      (refl, third_time-fails (map some (codes "{}"))) (omega arith, (omega arith, tt))
      (omega arith)

-- The two bytes of an accented letter end the answer.
post_truncated_example :
    post (third_time (some 99 ∷ some 195 ∷ some 169 ∷ some 33 ∷ [])) 3 0 ≡ some (codes "c")
unfolding read_stream
post_truncated_example =
    post_truncated (third_time (some 99 ∷ some 195 ∷ some 169 ∷ some 33 ∷ [])) 3 2 195
      (some 99 ∷ []) (some 169 ∷ some 33 ∷ [])
      (refl, third_time-fails (some 99 ∷ some 195 ∷ some 169 ∷ some 33 ∷ [])) (omega arith)
      (omega arith)

-- LND sends 64-bit numbers as texts; a fee may be negative.
int_of_fee : int_json (some (text (codes "-25"))) ≡ ok (negsuc 24)
unfolding int_json ◌-ℤ◌
int_of_fee = refl

int_of_null : int_json none ≡ err Raised.type_error
unfolding int_json
int_of_null = refl

-- The node that answers at the third attempt, with a balance and no address.
abbrev lnd : Connection
lnd = record {
  loads = λ t. some (
      object (
        field (codes "confirmed_balance") (text (codes "5000"))
          (field (codes "uris") (array no_items) no_fields)));
  got = λ path i. if leb 2 i then some (codes "{}") else none;
  posted = λ path body i. none;
}

balance_run : walletbalance lnd 3 ≡ ok (pos 5000)
unfolding walletbalance
balance_run = refl

uri_run : uri lnd 3 ≡ ok none
unfolding uri
uri_run = refl

-- A target without a key is refused before anything is posted.
connect_refused : connect lnd 3 (codes "host:9735") ≡ err LndError.bad_uri
unfolding connect
connect_refused = refl
