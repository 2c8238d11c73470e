-- ===== src/Market/Payment.antt =====
-- market/src/domain/payment.ts: the requests that a vendor makes and an attendee accepts, and the
-- payload of a payment. The URL parser, `Number(text)`, cashu-ts, SHA-256 and random values are
-- parameters.
pub mod Accepted
use fibernuts.Common.{
  ◌>>=◌, ◌>>◌, ok, err, ℕ, ◌+◌, String, Bool, true, false, not, Option, none, some, List, [], ◌∷◌,
  ◌++◌, leb, ltb, ◌==◌, str_eq, any, ◌&&◌, ◌||◌, if◌then◌else◌, length,
}
use fibernuts.Js.{
  Number, nat, other, num, Value, undefined, str, arr, obj, nil, Elems, end, prop, elems, property,
  includes, safe_natural,
}
use fibernuts.Js.Text.{◌⧺◌, after_prefix, matches, is_word}
use fibernuts.Js.Print.{decimal}
use fibernuts.Js.Url.{Url, is_blank, origin}
use fibernuts.Wallet.PaymentRequest.{
  Transport, DecodedPaymentRequest, CashuRequest, valid_amount, is_positive, normalize_mint_url,
  create_payment_request, decode_payment_request, validate_payment_request, post_transport,
}
use fibernuts.Market.Types.{Proof, given, is_set}
use fibernuts.Market.Errors.{Failure, plain_error, Attempt, refuse_if, of_request, take_units}
use fibernuts.Market.Fields.{is_text, after_matches}
use fibernuts.Market.Manifest.{VendorManifest, EventManifest}

-- The `P2PKOptions` of cashu-ts; `pubkey` is `none` where it is a list of keys.
pub record LockOptions : Type 0 where
  pub pubkey : Option String
  pub locktime : Option ℕ
  pub refund_keys : Option (List String)
  pub required_signatures : Option ℕ

-- What the platform and cashu-ts give: `new URL`, `Number(text)`, `PaymentRequest.fromEncodedRequest`,
-- the options that its `toP2PKOptions` makes, the encoder, and the digest of a text.
pub record Platform : Type 0 where
  pub new_url : String → Option Url
  pub to_number : String → Number
  pub decode : String → Option CashuRequest
  pub lock_options : String → Attempt (Option LockOptions)
  pub encode : CashuRequest → String
  pub sha256 : String → String

-- The random values of one order: three capabilities and the key pair.
pub record Secrets : Type 0 where
  pub order_capability : String
  pub read_capability : String
  pub write_capability : String
  pub private_key : String
  pub public_key : String

pub record CreatedVendorRequest : Type 0 where
  pub order_id : String
  pub private_key : String
  pub public_key : String
  pub read_capability : String
  pub write_capability : String
  pub delivery_url : String
  pub expires_at : ℕ
  pub request : DecodedPaymentRequest
  pub request_digest : String

pub record ValidatedEventRequest : Type 0 where
  pub request : DecodedPaymentRequest
  pub order_id : String
  pub vendor : VendorManifest
  pub expires_at : ℕ
  pub delivery_url : String
  pub lock_public_key : String

-- An `InspectedToken` of wallet/src/lib/wallet.ts, without its memo.
pub record InspectedToken : Type 0 where
  pub amount : ℕ
  pub mint : String
  pub unit : String
  pub proofs : List Proof

pub record PaymentPayload : Type 0 where
  pub id : String
  pub memo : String
  pub unit : String
  pub mint : String
  pub proofs : List Proof

unfoldable pub is_delivery_path : String → Bool
is_delivery_path path = after_matches (matches is_word 43 128) (after_prefix "/v1/deliver/" path)

abbrev Metadata : Type 0
Metadata = List (String × String)

-- `metadata.get(key)` and `metadata.has(key)`.
unfoldable pub metadata_get : String → Metadata → Option String
metadata_get key [] = none
metadata_get key ((k, v) ∷ rest) =
    let found = metadata_get key rest in if str_eq k key then some v else found

abbrev metadata_keys : Metadata → List String
metadata_keys [] = []
metadata_keys ((k, v) ∷ rest) = k ∷ metadata_keys rest

abbrev bad_tags : Failure
bad_tags = plain_error "The payment request contains invalid transport tags."

-- `tags`: the pairs so far, in the order in which they were set.
unfoldable pub tags_from : Metadata → List (List String) → Attempt Metadata
tags_from result [] = ok result
tags_from result ((key ∷ value ∷ []) ∷ rest) =
    let read = tags_from (result ++ (key, value) ∷ []) rest in
    if includes (metadata_keys result) key then err bad_tags else read
tags_from result (_ ∷ rest) = err bad_tags

-- `value?.key`, of an object or nothing.
abbrev member : String → Option Value → Value
member key (some (obj ps)) = property key ps
member key _ = undefined

-- `list?.length ?? 0`.
abbrev list_length : Value → ℕ
list_length (arr vs) = length (elems vs)
list_length _ = 0

abbrev option_length {ℓ} : {A : Type ℓ} → Option (List A) → ℕ
option_length none = 0
option_length (some xs) = length xs

-- `String(n)` in a transport, and the transport of a vendor's request.
unfoldable pub vendor_transport : EventManifest → VendorManifest → String → ℕ → Transport
vendor_transport manifest vendor delivery_url expires_at = record {
  kind = "post";
  target = delivery_url;
  tags =
      ("event_id" ∷ manifest.id ∷ [])
      ∷ ("vendor_id" ∷ vendor.id ∷ [])
      ∷ ("expires_at" ∷ decimal expires_at ∷ [])
      ∷ [];
}

-- `{ kind: "P2PK", data: publicKey, tags: [] }`.
abbrev pub p2pk_lock : String → Value
p2pk_lock key = obj (prop "kind" (str "P2PK") (prop "data" (str key) (prop "tags" (arr nil) end)))

abbrev pub order_id_of : Bool → Option String → Attempt String
order_id_of single_use none = err (plain_error "The event requires a single-use order identifier.")
order_id_of single_use (some id) =
    if not single_use || str_eq id ""
    then err (plain_error "The event requires a single-use order identifier.")
    else ok id

abbrev pub posted : Option Transport → Attempt Transport
posted none = err (plain_error "The event requires secure POST delivery.")
posted (some t) = ok t

abbrev pub approved : EventManifest → Option Url → Attempt (Unit {0})
approved manifest none = err (plain_error "Invalid URL")
approved manifest (some target) =
    refuse_if
      (not (str_eq (origin target) manifest.relay_origin)
        || not (str_eq target.username "")
        || not (str_eq target.password "")
        || not (is_blank target.query)
        || not (is_blank target.fragment)
        || not (is_delivery_path target.pathname))
      "The payment request points to an unapproved delivery service."

abbrev pub same_event : Option String → EventManifest → Attempt (Unit {0})
same_event none manifest = err (plain_error "This payment request belongs to another event.")
same_event (some id) manifest =
    refuse_if (not (str_eq id manifest.id)) "This payment request belongs to another event."

unfoldable pub find_vendor : Option String → List VendorManifest → Attempt VendorManifest
find_vendor id [] = err (plain_error "This payment request names an unknown vendor.")
find_vendor none vendors = err (plain_error "This payment request names an unknown vendor.")
find_vendor (some id) (v ∷ vendors) =
    let rest = find_vendor (some id) vendors in if str_eq v.id id then ok v else rest

abbrev pub lifetime : ℕ → Option ℕ → Attempt ℕ
lifetime now none = err (plain_error "This payment request has expired or has an invalid lifetime.")
lifetime now (some expires_at) =
    if leb expires_at now || ltb (now + 600) expires_at
    then err (plain_error "This payment request has expired or has an invalid lifetime.")
    else ok expires_at

abbrev pub lock_error : Failure
lock_error = plain_error "This payment request contains unsupported lock conditions."

abbrev pub lock_key : Value → LockOptions → Option String → Attempt String
lock_key expected lock none = err lock_error
lock_key expected lock (some key) =
    if not (is_text key expected)
      || is_set lock.locktime
      || not (option_length lock.refund_keys == 0)
      || is_set lock.required_signatures
    then err lock_error
    else ok key

abbrev pub plain_lock : Value → Option LockOptions → Attempt String
plain_lock expected none = err lock_error
plain_lock expected (some lock) = lock_key expected lock lock.pubkey

abbrev pub is_missing : Value → Bool
is_missing (str s) = str_eq s ""
is_missing _ = true

module _ (platform : Platform) where
  open platform use {new_url, to_number, decode, lock_options, encode, sha256}

  -- `createVendorRequest`.
  unfoldable pub create_vendor_request :
      EventManifest → VendorManifest → ℕ → String → ℕ → Secrets → Attempt CreatedVendorRequest
  create_vendor_request manifest vendor amount description now secrets = do
    refuse_if (not (valid_amount (nat amount))) "Order amount must be a positive integer."
    let order_id = "order_" ⧺ take_units 32 secrets.order_capability
    let expires_at = now + 300
    let delivery_url = manifest.relay_origin ⧺ "/v1/deliver/" ⧺ secrets.write_capability
    request ← of_request (
        create_payment_request new_url encode amount "rusd" manifest.mint_url description order_id
          (some (vendor_transport manifest vendor delivery_url expires_at ∷ []))
          (some (p2pk_lock secrets.public_key)))
    ok (record {
      order_id = order_id;
      private_key = secrets.private_key;
      public_key = secrets.public_key;
      read_capability = secrets.read_capability;
      write_capability = secrets.write_capability;
      delivery_url = delivery_url;
      expires_at = expires_at;
      request = request;
      request_digest = sha256 request.encoded;
    })

  abbrev pub only_mint : List String → EventManifest → Attempt (Unit {0})
  only_mint (mint ∷ []) manifest = do
    expected ← of_request (normalize_mint_url new_url manifest.mint_url)
    refuse_if (not (str_eq mint expected)) "The event requires exactly one accepted mint."
  only_mint _ manifest = err (plain_error "The event requires exactly one accepted mint.")

  -- The one transport of a request, with a target that the event approves.
  unfoldable pub event_transport : DecodedPaymentRequest → EventManifest → Attempt Transport
  event_transport request manifest = do
    refuse_if (not (length request.transport == 1))
        "The event requires exactly one payment transport."
    transport ← posted (post_transport request.transport)
    approved manifest (new_url transport.target)
    ok transport

  abbrev pub number_or_nan : Option String → Number
  number_or_nan none = other "NaN"
  number_or_nan (some s) = to_number s

  -- The vendor and the expiry that the tags of a transport name.
  unfoldable pub event_metadata :
      List (List String) → EventManifest → ℕ → Attempt (VendorManifest × ℕ)
  event_metadata tags manifest now = do
    metadata ← tags_from [] tags
    refuse_if
        (any (λ key. not (includes ("event_id" ∷ "vendor_id" ∷ "expires_at" ∷ []) key))
          (metadata_keys metadata))
        "The payment request contains unsupported transport metadata."
    same_event (metadata_get "event_id" metadata) manifest
    vendor ← find_vendor (metadata_get "vendor_id" metadata) manifest.vendors
    expires_at ←
        lifetime now (safe_natural (num (number_or_nan (metadata_get "expires_at" metadata))))
    ok (vendor, expires_at)

  -- The public key that alone unlocks the payment; `!nut10.data` is an empty text, or none.
  unfoldable pub event_lock : DecodedPaymentRequest → Attempt String
  event_lock request = do
    refuse_if
        (not (is_text "P2PK" (member "kind" request.nut10))
          || not (list_length (member "tags" request.nut10) == 0)
          || is_missing (member "data" request.nut10))
        "This payment request does not contain the required vendor-only lock."
    lock ← lock_options request.encoded
    plain_lock (member "data" request.nut10) lock

  -- `validateEventPaymentRequest`.
  unfoldable pub validate_event_payment_request :
      String → EventManifest → ℕ → ℕ → Attempt ValidatedEventRequest
  validate_event_payment_request encoded manifest balance now = do
    request ← of_request (decode_payment_request new_url decode encoded)
    of_request (validate_payment_request new_url request manifest.mint_url "rusd" balance)
    only_mint request.mints manifest
    order_id ← order_id_of request.single_use request.id
    transport ← event_transport request manifest
    named ← event_metadata transport.tags manifest now
    key ← event_lock request
    ok (record {
      request = request;
      order_id = order_id;
      vendor = named.0;
      expires_at = named.1;
      delivery_url = transport.target;
      lock_public_key = key;
    })

  abbrev given_id : Option String → Attempt String
  given_id none = err (plain_error "The payment request has no order identifier.")
  given_id (some id) =
      if str_eq id ""
      then err (plain_error "The payment request has no order identifier.")
      else ok id

  -- `createPaymentPayload`: `inspected` is `wallet.inspectToken(token)`.
  unfoldable pub create_payment_payload :
      (wallet_mint wallet_unit : String)
      → Attempt InspectedToken
      → DecodedPaymentRequest
      → Attempt PaymentPayload
  create_payment_payload wallet_mint wallet_unit inspected request = do
    id ← given_id request.id
    token ← inspected
    token_mint ← of_request (normalize_mint_url new_url token.mint)
    mint ← of_request (normalize_mint_url new_url wallet_mint)
    refuse_if (not (str_eq token_mint mint) || not (str_eq token.unit wallet_unit))
        "The prepared token does not match the active mint and unit."
    ok (record {
      id = id;
      memo = request.description;
      unit = wallet_unit;
      mint = mint;
      proofs = token.proofs;
    })
