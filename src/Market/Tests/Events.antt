-- ===== src/Market/Tests/Events.antt =====
-- The event's manifest, and an attendee's reading of a request, at concrete values.
use fibernuts.Common.{ok, String, none, some, List, [], ◌∷◌, ◌≡◌, refl}
use fibernuts.Js.{Value, nat, num, str, arr, obj, nil, cons, end, prop}
use fibernuts.Wallet.PaymentRequest.{DecodedPaymentRequest}
use fibernuts.Market.Payment.{ValidatedEventRequest, p2pk_lock, validate_event_payment_request}
use fibernuts.Market.Payment.Accepted.{
  IsEventRequest, validate_event_payment_request-IsEventRequest,
}
use fibernuts.Market.Tests.{delivery_url, tea, event, transport, platform}

abbrev item_value : Value
item_value = obj (
    prop "id" (str "tea") (
      prop "label" (str "Tea")
        (prop "description" (str "A cup of tea") (prop "price" (num (nat 25)) end))))

abbrev vendor_value : Value
vendor_value = obj (
    prop "id" (str "tea-stall") (
      prop "name" (str "Tea stall") (
        prop "description" (str "Tea and cake")
          (prop "location" (str "Hall 1") (prop "catalog" (arr (cons item_value nil)) end)))))

abbrev script_value : Value
script_value = obj (
    prop "codeHash" (str event.code_hash)
      (prop "hashType" (str "type") (prop "args" (str event.type_args) end)))

abbrev origin_value : Value
origin_value = obj (prop "origin" (str "https://event.example/") end)

abbrev transport_value : Value
transport_value =
    obj (prop "mode" (str "post_p2pk") (prop "relayOrigin" (str "https://event.example/") end))

abbrev event_value : Value
event_value = obj (
    prop "schemaVersion" (num (nat 1)) (
      prop "id" (str "ckb-fair") (
        prop "name" (str "CKB fair") (
          prop "description" (str "A fair") (
            prop "venue" (str "Town hall") (
              prop "network" (str "testnet") (
                prop "networkLabel" (str "CKB testnet") (
                  prop "unit" (str "rusd") (
                    prop "mintUrl" (str "https://event.example/") (
                      prop "assetTypeScript" script_value (
                        prop "paymentTransport" transport_value (
                          prop "faucet" origin_value
                            (prop "vendors" (arr (cons vendor_value nil)) end)))))))))))))

abbrev decoded : DecodedPaymentRequest
decoded = record {
  id = some "order_1";
  amount = nat 25;
  unit = "rusd";
  mints = "https://event.example" ∷ [];
  description = "Tea";
  single_use = fibernuts.Common.true;
  transport = transport ∷ [];
  nut10 = some (p2pk_lock "02ab");
  encoded = "creqa1";
}

abbrev validated : ValidatedEventRequest
validated = record {
  request = decoded;
  order_id = "order_1";
  vendor = tea;
  expires_at = 1300;
  delivery_url = delivery_url;
  lock_public_key = "02ab";
}

validated_request : validate_event_payment_request platform "creqa1" event 40 1000 ≡ ok validated
unfolding fibernuts.Js.Text.to_lower fibernuts.Js.Text.drop_slash fibernuts.Js.Text.strip_slashes
    fibernuts.Wallet.PaymentRequest.normalize_mint_url fibernuts.Wallet.PaymentRequest.has_escape
    fibernuts.Js.Text.trim fibernuts.Js.Text.trim_start fibernuts.Js.Text.trim_end
    fibernuts.Js.Text.is_space fibernuts.Wallet.PaymentRequest.decode_payment_request
    fibernuts.Wallet.PaymentRequest.valid_amount fibernuts.Wallet.PaymentRequest.normalize_all
    fibernuts.Wallet.PaymentRequest.validate_payment_request
    fibernuts.Wallet.PaymentRequest.post_transport fibernuts.Js.includes fibernuts.Js.property
    fibernuts.Js.Text.after_prefix fibernuts.Js.Text.matches fibernuts.Js.Text.every_char
    fibernuts.Js.Text.is_word fibernuts.Js.Text.utf16_length
    fibernuts.Market.Payment.validate_event_payment_request fibernuts.Market.Payment.event_transport
    fibernuts.Market.Payment.event_metadata fibernuts.Market.Payment.event_lock
    fibernuts.Market.Payment.is_delivery_path fibernuts.Market.Payment.metadata_get
    fibernuts.Market.Payment.tags_from fibernuts.Market.Payment.find_vendor
validated_request = refl

validate_event_payment_request-IsEventRequest_example :
    IsEventRequest platform event 40 1000 validated
validate_event_payment_request-IsEventRequest_example =
    validate_event_payment_request-IsEventRequest platform "creqa1" event 40 1000 {v = validated}
      validated_request
