-- ===== src/Market/Runtime/Orders.antt =====
-- The orders of a vendor: `createOrder`, `registerStoredOrder`, `pollOrder`, `settleOrder` and
-- `cancelOrder` of market/src/domain/market-runtime.ts. Where a `try` has reassigned `order`, the
-- handler that is given to the later steps is the one of the later order.
pub mod Run
use fibernuts.Common.{
  ok, err, ℕ, zero, suc, ◌+◌, ◌*◌, ◌/◌, ◌^◌, String, Bool, true, false, not, Option, none, some,
  List, [], ◌∷◌, ◌++◌, map, leb, ◌==◌, str_eq, any, is_some, ◌&&◌, ◌||◌, if◌then◌else◌,
}
use fibernuts.Common as Common
use fibernuts.Js.{nat, max_safe_integer}
use fibernuts.Js.Text.{◌⧺◌, to_lower}
use fibernuts.Js.Print.{decimal}
use fibernuts.Wallet.PaymentRequest.{valid_amount, normalize_mint_url}
use fibernuts.Market.Types.{
  Proof, StoredSwapPreview, MarketRole, OrderItem, OrderState, VendorOrder, MarketSnapshot, given,
  is_true,
}
use fibernuts.Market.Errors.{Failure, plain_error, relay_error, Attempt, of_request, take_units}
use fibernuts.Market.Payment.{
  CreatedVendorRequest, InspectedToken, create_vendor_request, validate_event_payment_request,
}
use fibernuts.Market.Ports.{MarketContext, TokenSpendState, DeliveredPayload}
use fibernuts.Market.Runtime.{
  Session, Runtime, return, raise, asked, sends, reads, completes_receive, ◌>>=◌, ◌>>◌, tries,
  fails_if, find_by, or_else, assert_role, now, commit_order,
}

-- `unitPrice * quantity`, summed up.
unfoldable pub order_total : List OrderItem → ℕ
order_total [] = 0
order_total (item ∷ items) = item.unit_price * item.quantity + order_total items

abbrev is_bad_item : OrderItem → Bool
is_bad_item item =
    not (valid_amount (nat item.unit_price)) || not (valid_amount (nat item.quantity))

abbrev item_text : OrderItem → String
item_text item =
    if item.quantity == 1 then item.label else decimal item.quantity ⧺ "x " ⧺ item.label

abbrev joined : List String → String
joined [] = ""
joined (s ∷ []) = s
joined (s ∷ t ∷ ss) = s ⧺ ", " ⧺ joined (t ∷ ss)

-- `orderDescription`.
unfoldable pub order_description : List OrderItem → String
order_description items = take_units 280 (joined (map item_text items))

abbrev pub text_of : Option String → String
text_of none = ""
text_of (some s) = s

abbrev pub has_registration : VendorOrder → Bool
has_registration order =
    given order.request
    && given order.request_digest
    && given order.delivery_url
    && given order.read_capability
    && given order.write_capability
    && given order.private_key
    && given order.public_key

pub record ReceivedPayload : Type 0 where
  pub id : String
  pub mint : String
  pub unit : String
  pub proofs : List Proof

abbrev payload_error : Failure
payload_error = plain_error "The delivery service returned a malformed payment payload."

-- `paymentPayload`.
unfoldable pub payment_payload : DeliveredPayload → Attempt ReceivedPayload
payment_payload p = received p.id p.mint p.unit p.proofs
  where
    received :
        Option String
        → Option String
        → Option String
        → Option (List Proof)
        → Attempt ReceivedPayload
    received (some id) (some mint) (some unit) (some (x ∷ xs)) =
        ok (record { id = id; mint = mint; unit = unit; proofs = x ∷ xs })
    received _ _ _ _ = err payload_error

-- `reason instanceof RelayError && [404, 410].includes(reason.status ?? 0)`, and 409 alone.
abbrev pub is_gone : Failure → Bool
is_gone (relay_error text (some status)) = status == 404 || status == 410
is_gone _ = false

abbrev pub is_conflict : Failure → Bool
is_conflict (relay_error text (some status)) = status == 409
is_conflict _ = false

abbrev pub is_settled : OrderState → Bool
is_settled OrderState.settled = true
is_settled _ = false

module _ (c : MarketContext) where
  open c use {manifest, vendor, wallet, relay, platform, secrets, describe}

  -- `this.commitOrder({ ...order, state, updatedAt: this.now(), error })`.
  unfoldable pub commit_state : VendorOrder → OrderState → Option String → Runtime VendorOrder
  commit_state order state error = do
    time ← now c
    commit_order c (record order { state = state; updated_at = time; error = error }) none

  -- The order as it is stored, and the one that was given where none is.
  abbrev pub stored_order : VendorOrder → Runtime VendorOrder
  stored_order input =
      reads (λ s. or_else (find_by (λ (o : VendorOrder). o.id) input.id s.orders) input)

  abbrev pub normal_mint : String → Attempt String
  normal_mint url = of_request (normalize_mint_url platform.new_url url)

  -- `normalizeMintUrl(mint) !== normalizeMintUrl(this.manifest.mintUrl)`.
  unfoldable pub other_mint : String → Attempt Bool
  other_mint mint = Common.◌>>=◌ (normal_mint mint) λ given_mint.
      Common.◌>>=◌ (normal_mint manifest.mint_url) λ active. ok (not (str_eq given_mint active))

  new_order : List OrderItem → ℕ → String → CreatedVendorRequest → ℕ → VendorOrder
  new_order items amount description request time = record {
    id = request.order_id;
    state = OrderState.registering;
    event_id = manifest.id;
    vendor_id = vendor.id;
    items = items;
    amount = amount;
    mint_url = manifest.mint_url;
    description = description;
    expires_at = request.expires_at;
    request = some request.request.encoded;
    request_digest = some request.request_digest;
    delivery_url = some request.delivery_url;
    read_capability = some request.read_capability;
    write_capability = some request.write_capability;
    private_key = some request.private_key;
    public_key = some request.public_key;
    incoming_token = none;
    incoming_swap = none;
    relay_registered = some false;
    relay_acknowledged = none;
    created_at = time;
    updated_at = time;
    error = none;
  }

  -- The commit of an order that the relay has registered.
  unfoldable pub commit_registered : VendorOrder → Runtime VendorOrder
  commit_registered order = do
    time ← now c
    commit_order c
        (record order {
          state = OrderState.awaiting_payment;
          relay_registered = some true;
          updated_at = time;
          error = none;
        })
        none

  unfoldable pub create_order : List OrderItem → Runtime VendorOrder
  unfolding new_order commit_registered
  create_order items = do
    assert_role MarketRole.vendor
    fails_if (Common.length items == 0) "Add at least one item before charging."
    let amount = order_total items
    fails_if (not (valid_amount (nat amount))) "The order total is invalid."
    fails_if (any is_bad_item items) "The order contains an invalid item quantity or price."
    let description = order_description items
    started ← now c
    request ←
        asked (
          create_vendor_request platform manifest vendor amount description (started / 1000)
            secrets)
    time ← now c
    let order = new_order items amount description request time
    commit_order c order none
    let failed : Failure → Runtime VendorOrder = λ e.
        commit_state order OrderState.recoverable
          (some ("The charge is stored but not ready to scan. " ⧺ describe e))
    tries failed (asked (relay.register request amount))
        λ done. tries failed (commit_registered order) return

  -- `storedRequest`.
  unfoldable pub stored_request : VendorOrder → Runtime CreatedVendorRequest
  stored_request order = do
    fails_if (not (has_registration order)) "Stored order registration data is incomplete."
    date ← now c
    validated ← asked (
        validate_event_payment_request platform (text_of order.request) manifest max_safe_integer
          (date / 1000))
    return (record {
      order_id = order.id;
      private_key = text_of order.private_key;
      public_key = text_of order.public_key;
      read_capability = text_of order.read_capability;
      write_capability = text_of order.write_capability;
      delivery_url = text_of order.delivery_url;
      expires_at = order.expires_at;
      request = validated.request;
      request_digest = text_of order.request_digest;
    })

  abbrev pub recoverable_with : VendorOrder → Failure → Runtime VendorOrder
  recoverable_with order e = commit_state order OrderState.recoverable (some (describe e))

  unfoldable pub register_stored_order : VendorOrder → Runtime VendorOrder
  unfolding commit_registered
  register_stored_order input = do
    assert_role MarketRole.vendor
    order ← stored_order input
    let failed : Failure → Runtime VendorOrder = recoverable_with order
    tries failed (stored_request order) λ request.
        tries failed (asked (relay.register request order.amount))
          λ done. tries failed (commit_registered order) return

  unfoldable pub commit_cleaned : VendorOrder → Runtime VendorOrder
  commit_cleaned order = do
    time ← now c
    commit_order c
        (record order {
          relay_acknowledged = some true;
          read_capability = none;
          updated_at = time;
          error = none;
        })
        none

  unfoldable pub cleanup_failed : VendorOrder → Failure → Runtime VendorOrder
  cleanup_failed order e = do
    time ← now c
    commit_order c
        (record order {
          updated_at = time;
          error = some ("Relay cleanup is pending. " ⧺ describe e);
        })
        none

  -- `acknowledgeSettledOrder`.
  unfoldable pub acknowledge_settled_order : VendorOrder → Runtime VendorOrder
  acknowledge_settled_order order =
      if not (given order.read_capability)
      then return order
      else tries (cleanup_failed order) (asked (relay.acknowledge (text_of order.read_capability)))
          λ done. tries (cleanup_failed order) (commit_cleaned order) return

  -- `expireOrder`.
  unfoldable pub expire_order : VendorOrder → Runtime VendorOrder
  expire_order order = do
    time ← now c
    commit_order c
        (record order {
          state = OrderState.expired;
          request = none;
          request_digest = none;
          delivery_url = none;
          read_capability = none;
          write_capability = none;
          private_key = none;
          updated_at = time;
          error = none;
        })
        none

  -- `order.expiresAt * 1000 <= this.now()`.
  abbrev pub is_past : VendorOrder → Runtime Bool
  is_past order = now c >>= λ time. return (leb (order.expires_at * 1000) time)
