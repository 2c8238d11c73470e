-- ===== src/Wallet/Tests.antt =====
-- Runs of the wallet (wallet/src) at concrete operations and requests.
use fibernuts.Common.{ok, String, true, Option, none, some, [], ◌∷◌, ◌≡◌, refl, arith}
use fibernuts.Js.{Number, nat, max_safe_integer}
use fibernuts.Js.Text.{to_lower, trim}
use fibernuts.Js.Url.{Url}
use fibernuts.Wallet.Operations.{
  SendState, BaseOperation, send, present_operation, operation_needs_attention,
}
use fibernuts.Wallet.Operations.Attention.{
  calls_for_attention, operation_needs_attention-eq-calls_for_attention,
}
use fibernuts.Wallet.PaymentRequest.{
  text_or, Outcome, DecodedPaymentRequest, CashuRequest, valid_amount, normalize_mint_url,
  create_payment_request, decode_payment_request, validate_payment_request,
}
use fibernuts.Wallet.PaymentRequest.Accepted.{
  Payable, validate_payment_request-Payable, validate-create_payment_request, to_encode, Encodes,
  decode-create_payment_request,
}

abbrev base : BaseOperation
base = record { id = "op-1"; mint_url = "https://mint.example"; unit = "rusd" }

operation_needs_attention_example :
    operation_needs_attention (send base SendState.reclaimed none)
    ≡ calls_for_attention
        (send base SendState.reclaimed none)
        (present_operation (send base SendState.reclaimed none)).tone
operation_needs_attention_example =
    operation_needs_attention-eq-calls_for_attention (send base SendState.reclaimed none)

abbrev url_of : String → Option Url
url_of s = some (record {
  protocol = "https:";
  username = "";
  password = "";
  host = "mint.example";
  pathname = "/";
  query = none;
  fragment = none;
})

abbrev encode : CashuRequest → String
encode r = "creqa1"

abbrev request : DecodedPaymentRequest
request = record {
  id = some "request-1";
  amount = nat 25;
  unit = "rusd";
  mints = "https://mint.example" ∷ [];
  description = "Tea";
  single_use = true;
  transport = [];
  nut10 = none;
  encoded = "creqa1";
}

created_request :
    create_payment_request url_of encode 25 "RUSD" "https://mint.example/" "Tea" "request-1" none
      none
    ≡ ok request
unfolding create_payment_request normalize_mint_url fibernuts.Wallet.PaymentRequest.has_escape
    fibernuts.Js.Text.to_lower fibernuts.Js.Text.drop_slash fibernuts.Js.Text.strip_slashes
created_request = refl

valid_request : validate_payment_request url_of request "https://mint.example/" "RUSD" 40 ≡ ok tt
valid_request =
    validate-create_payment_request url_of encode 25 "RUSD" "https://mint.example/" "Tea"
      "request-1" none none 40 created_request (omega arith) (omega arith) (omega arith)

validate_payment_request-Payable_example :
    (active_mint : String) × (normalize_mint_url url_of "https://mint.example/" ≡ ok active_mint)
    × Payable request active_mint "RUSD" 40
validate_payment_request-Payable_example =
    validate_payment_request-Payable url_of request "https://mint.example/" "RUSD" 40 valid_request

abbrev raw_request : CashuRequest
raw_request = record {
  transport = none;
  id = some "request-1";
  amount = some (nat 25);
  unit = some "RUSD";
  mints = some ("https://mint.example/" ∷ []);
  description = some " Tea ";
  single_use = true;
  nut10 = none;
}

decoded_request : decode_payment_request url_of (λ s. some raw_request) " creqa1" ≡ ok request
unfolding decode_payment_request fibernuts.Js.Text.to_lower fibernuts.Js.Text.trim
    fibernuts.Js.Text.trim_start fibernuts.Js.Text.trim_end fibernuts.Js.Text.is_space valid_amount
    fibernuts.Wallet.PaymentRequest.normalize_all normalize_mint_url
    fibernuts.Wallet.PaymentRequest.has_escape fibernuts.Js.Text.drop_slash
    fibernuts.Js.Text.strip_slashes
decoded_request = refl

created_again :
    create_payment_request url_of encode 25 "rusd" "https://mint.example" " Tea " "request-1" none
      none
    ≡ ok (record request { description = " Tea " })
unfolding create_payment_request normalize_mint_url fibernuts.Wallet.PaymentRequest.has_escape
    fibernuts.Js.Text.to_lower fibernuts.Js.Text.drop_slash fibernuts.Js.Text.strip_slashes
created_again = refl

abbrev encoded_request : CashuRequest
encoded_request = to_encode url_of 25 "rusd" "https://mint.example" " Tea " "request-1" none none

encoded_request-Encodes : Encodes url_of encode (λ s. some encoded_request) encoded_request
unfolding fibernuts.Js.Text.to_lower fibernuts.Js.Text.trim fibernuts.Js.Text.trim_start
    fibernuts.Js.Text.trim_end fibernuts.Js.Text.is_space
encoded_request-Encodes = record { trimmed = refl; format = refl; read_back = refl }

normal_mint : normalize_mint_url url_of "https://mint.example" ≡ ok "https://mint.example"
unfolding normalize_mint_url fibernuts.Wallet.PaymentRequest.has_escape fibernuts.Js.Text.drop_slash
    fibernuts.Js.Text.strip_slashes
normal_mint = refl

lower_unit : to_lower "rusd" ≡ "rusd"
unfolding to_lower
lower_unit = refl

abbrev trimmed_request : DecodedPaymentRequest
trimmed_request = record request { description = text_or "Payment" (trim " Tea ") }

decode-create_payment_request_example :
    (decode_payment_request url_of (λ s. some encoded_request) "creqa1" ≡ ok trimmed_request)
    × (validate_payment_request url_of trimmed_request "https://mint.example" "rusd" 40 ≡ ok tt)
decode-create_payment_request_example =
    decode-create_payment_request url_of encode (λ s. some encoded_request) 25 "rusd"
      "https://mint.example" " Tea " "request-1" none none 40 created_again encoded_request-Encodes
      normal_mint lower_unit (λ e. cc) (λ e. cc) (omega arith) (omega arith) (omega arith)
