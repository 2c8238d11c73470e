-- ===== src/Market/Payment/Accepted.antt =====
-- Which requests an attendee of an event accepts.
use fibernuts.Common.{
  ok, ℕ, ◌+◌, ◌≤◌, ◌<◌, String, Bool, true, false, Option, none, some, List, [], ◌∷◌, ◌≡◌, ◌≢◌,
  refl, arith, eq_iff, str_eq, ◌==◌, ◌⊎◌, inl, inr, returned, Throwing-cases, Option-cases,
  Bool-cases,
}
use mathlib.Core.List.{Memᴰ}
use mathlib.Core.List.Memᴰ.{head, tail}
use fibernuts.Js.{nat, str, Value}
use fibernuts.Js.Url.{Url, origin}
use fibernuts.Wallet.PaymentRequest.{
  Transport, DecodedPaymentRequest, normalize_mint_url, validate_payment_request,
}
use fibernuts.Wallet.PaymentRequest.Accepted.{validate_payment_request-Payable}
use fibernuts.Market.Types.{is_set}
use fibernuts.Market.Fields.{is_text}
use fibernuts.Market.Manifest.{VendorManifest, EventManifest}
use fibernuts.Market.Payment.{
  LockOptions, Platform, ValidatedEventRequest, is_delivery_path, tags_from, metadata_get,
  only_mint, order_id_of, event_transport, find_vendor, event_metadata, lock_key, option_length,
  member, is_missing, event_lock, validate_event_payment_request,
}

-- A lock to one key and no other way to spend.
pub record LocksTo (lock : LockOptions) (key : String) : Type 0 where
  pub pubkey : lock.pubkey ≡ some key
  pub no_locktime : is_set lock.locktime ≡ false
  pub no_quorum : is_set lock.required_signatures ≡ false
  pub no_refund : (lock.refund_keys ≡ none) ⊎ (lock.refund_keys ≡ some [])

no_refund_keys :
    (keys : Option (List String))
    → (option_length keys == 0) ≡ true
    → (keys ≡ none) ⊎ (keys ≡ some [])
no_refund_keys none h = inl refl
no_refund_keys (some []) h = inr refl
no_refund_keys (some (k ∷ ks)) h = absurd (ground arith)

lock_key-LocksTo :
    (expected : Value) (lock : LockOptions) (key : String)
    → lock_key expected lock lock.pubkey ≡ ok key
    → LocksTo lock key × (is_text key expected ≡ true)
lock_key-LocksTo expected lock key h = (
  record {
    pubkey = ground arith;
    no_locktime = ground arith;
    no_quorum = ground arith;
    no_refund = no_refund_keys lock.refund_keys (ground arith);
  },
  ground arith,
)

find_vendor-Memᴰ :
    (id : Option String) (vendors : List VendorManifest) {v : VendorManifest}
    → find_vendor id vendors ≡ ok v
    → Memᴰ v vendors × (id ≡ some v.id)
unfolding find_vendor
find_vendor-Memᴰ id [] h = cc
find_vendor-Memᴰ none (x ∷ vendors) h = cc
find_vendor-Memᴰ (some id) (x ∷ vendors) {v} h = elim (Bool-cases (str_eq x.id id)) [
  | inl same ↦ grind (arith, head, eq_iff x.id id)
  | inr other ↦ grind (arith, tail, find_vendor-Memᴰ (some id) vendors {v = v})
]

-- What the market knows of a request that it accepts from a vendor.
pub record IsEventRequest (platform : Platform) (manifest : EventManifest) (balance now : ℕ)
    (v : ValidatedEventRequest) : Type 0 where
  pub n : ℕ
  pub amount : v.request.amount ≡ nat n
  pub affordable : (0 < n) × (n ≤ balance)
  pub mint : String
  pub of_the_mint : normalize_mint_url platform.new_url manifest.mint_url ≡ ok mint
  pub one_mint : v.request.mints ≡ mint ∷ []
  pub single_use : v.request.single_use ≡ true
  pub identified : v.request.id ≡ some v.order_id
  pub named : v.order_id ≢ ""
  pub target : Url
  pub delivery : platform.new_url v.delivery_url ≡ some target
  pub to_the_relay : origin target ≡ manifest.relay_origin
  pub to_a_slot : is_delivery_path target.pathname ≡ true
  pub of_the_event : Memᴰ v.vendor manifest.vendors
  pub fresh : now < v.expires_at
  pub bounded : v.expires_at ≤ now + 600
  pub lock : LockOptions
  pub locked : platform.lock_options v.request.encoded ≡ ok (some lock)
  pub to_the_vendor : LocksTo lock v.lock_public_key

key_given : (key : String) (v : Value) → is_text key v ≡ true → is_missing v ≡ false → key ≢ ""
key_given key (str t) h k e = ground (arith, eq_iff t key, eq_iff t "")
key_given key _ h k e = cc

module _ (platform : Platform) where
  only_mint-eq :
      (mints : List String) (manifest : EventManifest)
      → only_mint platform mints manifest ≡ ok tt
      → (m : String) × (normalize_mint_url platform.new_url manifest.mint_url ≡ ok m)
        × (mints ≡ m ∷ [])
  only_mint-eq [] manifest h = cc
  only_mint-eq (m ∷ []) manifest h =
      elim (Throwing-cases (normalize_mint_url platform.new_url manifest.mint_url)) [
        | inl (e, bad) ↦ absurd (ground arith)
        | inr (m', normal) ↦ (m', normal, ground (arith, eq_iff m m'))
      ]
  only_mint-eq (m ∷ m' ∷ ms) manifest h = cc

  order_id_of-lem :
      (single_use : Bool) (id : Option String) {order_id : String}
      → order_id_of single_use id ≡ ok order_id
      → (single_use ≡ true) × (id ≡ some order_id) × (order_id ≢ "")
  order_id_of-lem single_use none h = cc
  order_id_of-lem single_use (some id) h =
      (ground arith, ground arith, λ e. ground (arith, eq_iff id ""))

  event_transport-lem :
      (request : DecodedPaymentRequest) (manifest : EventManifest) {t : Transport}
      → event_transport platform request manifest ≡ ok t
      → (u : Url) × (platform.new_url t.target ≡ some u)
        × (origin u ≡ manifest.relay_origin)
        × (is_delivery_path u.pathname ≡ true)
  unfolding event_transport
  event_transport-lem request manifest {t} h = elim (Option-cases (platform.new_url t.target)) [
    | inl bad ↦ absurd (ground arith)
    | inr (u, target) ↦
        (u, target, ground (arith, eq_iff (origin u) manifest.relay_origin), ground arith)
  ]

  event_metadata-lem :
      (tags : List (List String)) (manifest : EventManifest) (now : ℕ) {named : VendorManifest × ℕ}
      → event_metadata platform tags manifest now ≡ ok named
      → Memᴰ named.0 manifest.vendors × (now < named.1) × (named.1 ≤ now + 600)
  unfolding event_metadata
  event_metadata-lem tags manifest now {named} h =
      let (metadata, read) = returned (tags_from [] tags) (λ e k. ground arith) in
      let (listed, id) =
        find_vendor-Memᴰ (metadata_get "vendor_id" metadata) manifest.vendors {v = named.0}
          (ground arith) in
      (listed, ground arith, ground arith)

  event_lock-lem :
      (request : DecodedPaymentRequest) {key : String}
      → event_lock platform request ≡ ok key
      → (lock : LockOptions) × (platform.lock_options request.encoded ≡ ok (some lock))
        × LocksTo lock key
        × (key ≢ "")
  unfolding event_lock
  event_lock-lem request {key} h =
      let (found, decoded) =
        returned (platform.lock_options request.encoded) (λ e k. ground arith) in
      elim (Option-cases found) [
        | inl missing ↦ absurd (ground arith)
        | inr (lock, is_lock) ↦
            let (locks, same) =
              lock_key-LocksTo (member "data" request.nut10) lock key (ground arith) in
            (
              lock,
              rw is_lock at decoded,
              locks,
              key_given key (member "data" request.nut10) same (ground arith),
            )
      ]

  -- The calls of an accepted request, each of which has returned.
  record Passed (manifest : EventManifest) (balance now : ℕ) (v : ValidatedEventRequest)
      : Type 0 where
    affordable :
        validate_payment_request platform.new_url v.request manifest.mint_url "rusd" balance ≡ ok tt
    mint : only_mint platform v.request.mints manifest ≡ ok tt
    order : order_id_of v.request.single_use v.request.id ≡ ok v.order_id
    transport : Transport
    sent : event_transport platform v.request manifest ≡ ok transport
    url : transport.target ≡ v.delivery_url
    metadata : event_metadata platform transport.tags manifest now ≡ ok (v.vendor, v.expires_at)
    lock : event_lock platform v.request ≡ ok v.lock_public_key

  validate_event_payment_request-Passed :
      (encoded : String) (manifest : EventManifest) (balance now : ℕ) {v : ValidatedEventRequest}
      → validate_event_payment_request platform encoded manifest balance now ≡ ok v
      → Passed manifest balance now v
  unfolding validate_event_payment_request
  validate_event_payment_request-Passed encoded manifest balance now {v} h =
      let (t, sent) =
        returned (event_transport platform v.request manifest) (λ e k. ground arith) in
      record {
        affordable = ground arith;
        mint = ground arith;
        order = ground arith;
        transport = t;
        sent = sent;
        url = ground arith;
        metadata = ground arith;
        lock = ground arith;
      }

  Passed-IsEventRequest :
      (manifest : EventManifest) (balance now : ℕ) (v : ValidatedEventRequest)
      → Passed manifest balance now v
      → IsEventRequest platform manifest balance now v
  Passed-IsEventRequest manifest balance now v p =
      let (active, normal, payable) =
        validate_payment_request-Payable platform.new_url v.request manifest.mint_url "rusd" balance
          p.affordable in
      let (mint, of_the_mint, one_mint) = only_mint-eq v.request.mints manifest p.mint in
      let (single, identified, named) =
        order_id_of-lem v.request.single_use v.request.id {order_id = v.order_id} p.order in
      let (u, target, relay, slot) =
        event_transport-lem v.request manifest {t = p.transport} p.sent in
      let (listed, fresh, bounded) =
        event_metadata-lem p.transport.tags manifest now {named = (v.vendor, v.expires_at)}
          p.metadata in
      let (lock, decoded, locks, key) = event_lock-lem v.request {key = v.lock_public_key} p.lock in
      record {
        n = payable.n;
        amount = payable.amount;
        affordable = (payable.positive.0, payable.positive.2);
        mint = mint;
        of_the_mint = of_the_mint;
        one_mint = one_mint;
        single_use = single;
        identified = identified;
        named = named;
        target = u;
        delivery = rw p.url at target;
        to_the_relay = relay;
        to_a_slot = slot;
        of_the_event = listed;
        fresh = fresh;
        bounded = bounded;
        lock = lock;
        locked = decoded;
        to_the_vendor = locks;
      }

  -- A request that an attendee accepts asks for a positive amount that the balance covers, at the mint
  -- of the event and at no other, and for a single use. It is delivered to a slot of the event's relay,
  -- for a vendor of the event, within the next ten minutes, and the payment is locked to one key, which
  -- alone can spend it.
  pub validate_event_payment_request-IsEventRequest :
      (encoded : String) (manifest : EventManifest) (balance now : ℕ) {v : ValidatedEventRequest}
      → validate_event_payment_request platform encoded manifest balance now ≡ ok v
      → IsEventRequest platform manifest balance now v
  validate_event_payment_request-IsEventRequest encoded manifest balance now {v} h =
      Passed-IsEventRequest manifest balance now v
        (validate_event_payment_request-Passed encoded manifest balance now {v = v} h)
