-- ===== src/Relay/Tests/Requests.antt =====
-- Requests to the relay (relay/src) at concrete bodies and headers.
use fibernuts.Common.{
  ℕ, String, false, Option, none, some, [], ◌∷◌, ◌≡◌, ◌≤◌, ◌-◌, refl, ok, fail, if◌then◌else◌, leb,
}
use fibernuts.Js.{
  Value, num, nat, str, obj, arr, Elems, cons, nil, prop, end, max_safe_integer, property, keys,
  includes,
}
use fibernuts.Js.Url.{Url}
use fibernuts.Http.{Request, origin_allowed}
use fibernuts.Http.Rate.{RateEntry}
use fibernuts.Http.Rate.Bounds.{seen}
use fibernuts.Relay.Protocol.{RegisterOrderInput, PaymentPayload}
use fibernuts.Relay.Protocol.Registration.{parse_registration}
use fibernuts.Relay.Protocol.Payload.{parse_payment_payload, payload_amount}
use fibernuts.Relay.Protocol.Accepted.{
  IsRegistration, parse_registration-IsRegistration, IsPayload, parse_payment_payload-IsPayload,
  total_of, payload_amount-eq-total,
}
use fibernuts.Relay.Server.{RelayConfig, State, payload, handle}
use fibernuts.Relay.Server.Access.{Effect, handle-Effect}
use fibernuts.Relay.Server.Disclosure.{Entitled, handle-Entitled}
use fibernuts.Relay.Server.Limits.{passed, passed-le-limit}
use fibernuts.Relay.Tests.{hash, order, payment, paid_table}

abbrev url_of : String → Option Url
url_of s = some (record {
  protocol = "https:";
  username = "";
  password = "";
  host = "mint.example";
  pathname = "/";
  query = none;
  fragment = none;
})

abbrev registration : Value
registration = obj (
    prop "order_id" (str "order-0000000001") (
      prop "amount" (num (nat 5)) (
        prop "unit" (str "rusd") (
          prop "mint" (str "https://mint.example") (
            prop "request_digest"
              (str "sha256:aaaaaaaaaaaaaaaaaaaaaaaaaaaaaaaaaaaaaaaaaaaaaaaaaaaaaaaaaaaaaaaa")
              (prop "expires_at" (num (nat 400)) (
                prop "write_capability" (str "wwwwwwwwwwwwwwwwwwwwwwwwwwwwwwwwwwwwwwwwwww") (
                  prop "read_capability" (str "rrrrrrrrrrrrrrrrrrrrrrrrrrrrrrrrrrrrrrrrrrr")
                    end))))))))

registration_input : parse_registration url_of registration 100 600 ≡ ok order
unfolding parse_registration fibernuts.Relay.Protocol.exact_keys includes keys property
    fibernuts.Js.Text.matches fibernuts.Js.Text.every_char fibernuts.Js.Text.is_word
    fibernuts.Js.Text.utf16_length fibernuts.Relay.Protocol.Registration.is_request_digest
    fibernuts.Js.Text.after_prefix fibernuts.Js.Text.is_lower_hex
    fibernuts.Relay.Protocol.capability fibernuts.Relay.Protocol.positive_integer
    fibernuts.Relay.Protocol.normalized_mint fibernuts.Js.Text.drop_slash
    fibernuts.Js.Text.strip_slashes
registration_input = refl

parse_registration-IsRegistration_example : IsRegistration 100 600 order
parse_registration-IsRegistration_example =
    parse_registration-IsRegistration url_of registration 100 600 order registration_input

abbrev proof_json : ℕ → Value
proof_json n = obj (
    prop "amount" (num (nat n)) (
      prop "id" (str "keyset") (
        prop "secret" (str "secret-000000001")
          (prop "C" (str "02020202020202020202020202020202") end))))

abbrev payment_json : Value
payment_json = obj (
    prop "id" (str "order-0000000001") (
      prop "unit" (str "rusd") (
        prop "mint" (str "https://mint.example")
          (prop "proofs" (arr (cons (proof_json 2) (cons (proof_json 3) nil))) end))))

payment_input : parse_payment_payload url_of payment_json ≡ ok payment
unfolding parse_payment_payload fibernuts.Relay.Protocol.exact_keys includes keys property
    fibernuts.Js.Text.matches fibernuts.Js.Text.every_char fibernuts.Js.Text.is_word
    fibernuts.Js.Text.utf16_length fibernuts.Relay.Protocol.Payload.parse_proofs
    fibernuts.Relay.Protocol.Payload.parse_proof fibernuts.Relay.Protocol.positive_integer
    fibernuts.Js.Text.is_hex fibernuts.Relay.Protocol.normalized_mint fibernuts.Js.Text.drop_slash
    fibernuts.Js.Text.strip_slashes
payment_input = refl

payment-IsPayload : IsPayload payment
payment-IsPayload = parse_payment_payload-IsPayload url_of payment_json payment payment_input

parse_payment_payload-IsPayload_example : IsPayload payment
parse_payment_payload-IsPayload_example =
    parse_payment_payload-IsPayload url_of payment_json payment payment_input

payload_amount-eq-total_example : payload_amount payment ≡ (
    if leb (total_of payment.proofs) max_safe_integer
    then ok (total_of payment.proofs)
    else fail 400 "invalid_proofs")
payload_amount-eq-total_example = payload_amount-eq-total payment payment-IsPayload

abbrev settings : RelayConfig
settings = record {
  public_origin = "https://relay.example";
  allowed_origins = "https://wallet.example" ∷ [];
  max_ttl_seconds = 600;
  max_requests_per_minute = 2;
  body_limit_bytes = 131_072;
}

abbrev posting : String → Value → Request
posting path body = record {
  method = "POST";
  pathname = path;
  search = "";
  origin = some "https://wallet.example";
  authorization = none;
  content_type = some "application/json";
  forwarded_for = none;
  remote_address = some "10.0.0.1";
  chunks = 400 ∷ 300 ∷ [];
  json = some body;
}

abbrev asking : Request
asking = record {
  method = "GET";
  pathname = "/v1/inbox";
  search = "";
  origin = none;
  authorization = some "Bearer rrrrrrrrrrrrrrrrrrrrrrrrrrrrrrrrrrrrrrrrrrr";
  content_type = none;
  forwarded_for = none;
  remote_address = some "10.0.0.2";
  chunks = [];
  json = none;
}

abbrev paid_state : State
paid_state = record { rate = []; orders = paid_table }

shown : (handle hash url_of settings asking 200 paid_state).0.body ≡ payload payment
unfolding handle origin_allowed fibernuts.Http.Rate.next_count fibernuts.Js.Table.get
    fibernuts.Relay.Server.delivery_path fibernuts.Js.Text.after_prefix
    fibernuts.Relay.Server.bearer fibernuts.Js.Text.matches fibernuts.Js.Text.every_char
    fibernuts.Js.Text.is_word fibernuts.Js.Text.utf16_length fibernuts.Relay.Store.read
    fibernuts.Table.select fibernuts.Relay.Store.expire_row
shown = refl

handle-Entitled_example : Entitled hash url_of settings asking paid_table payment
handle-Entitled_example = handle-Entitled hash url_of settings asking 200 paid_state payment shown

abbrev registering_request : Request
registering_request = posting "/v1/orders" registration

handle-Effect_example :
    Effect hash url_of settings registering_request 100 []
      (handle hash url_of settings registering_request 100
        (record { rate = []; orders = [] })).1.orders
    × (origin_allowed settings.allowed_origins registering_request.origin ≡ false
        → (handle hash url_of settings registering_request 100
            (record { rate = []; orders = [] })).1
          ≡ record { rate = []; orders = [] })
handle-Effect_example =
    handle-Effect hash url_of settings registering_request 100 (record { rate = []; orders = [] })

passed-le-limit_example :
    passed hash url_of settings 3 "10.0.0.2:3" (asking ∷ asking ∷ asking ∷ []) []
    ≤ settings.max_requests_per_minute - seen 3 "10.0.0.2:3" []
passed-le-limit_example =
    passed-le-limit hash url_of settings 3 "10.0.0.2:3" (asking ∷ asking ∷ asking ∷ []) []
