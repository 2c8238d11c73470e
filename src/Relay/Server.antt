-- ===== src/Relay/Server.antt =====
-- relay/src/server.ts: one request of the relay, from its headers to the reply. The clock is read
-- as seconds, of which the minute is derived.
pub mod Access
pub mod Disclosure
pub mod Limits
use fibernuts.Common.{
  ℕ, ◌+◌, ◌/◌, String, Bool, true, false, not, Option, none, some, List, [], ◌∷◌, ltb, str_eq, ◌&&◌,
  if◌then◌else◌, Result, ok, err, fail, HttpError, http_error, throw_if, ◌>>=◌, ◌>>◌, length,
}
use fibernuts.Js.{Value}
use fibernuts.Js.Print.{decimal}
use fibernuts.Js.Table.{Table, get}
use fibernuts.Js.Text.{◌⧺◌, after_prefix, matches, is_word}
use fibernuts.Http.{Request, or_default, read_json, origin_allowed, echoed}
use fibernuts.Http.Rate.{RateEntry, next_count, count_request, forget_before}
use fibernuts.Js.Url.{Url}
use fibernuts.Relay.Protocol.{RegisterOrderInput, PaymentPayload}
use fibernuts.Relay.Protocol.Registration.{parse_registration}
use fibernuts.Relay.Protocol.Payload.{parse_payment_payload}
use fibernuts.Relay.Store.{
  OrderRow, Registered, created, existing, DeliveryResult, stored, duplicate, Closed, closed_now,
  closed_before, register, deliver, read, acknowledge, cancel,
}

pub record RelayConfig : Type 0 where
  pub public_origin : String
  pub allowed_origins : List String
  pub max_ttl_seconds : ℕ
  pub max_requests_per_minute : ℕ
  pub body_limit_bytes : ℕ

-- What a reply's body says.
pub data Body : Type 0 where
  empty health : Body
  registered : (order_id delivery_url : String) → (expires_at : ℕ) → Body
  delivery : (is_duplicate : Bool) → Body
  payload : PaymentPayload → Body
  acknowledgement cancellation : (is_duplicate : Bool) → Body
  failure : HttpError → Body

pub record Response : Type 0 where
  pub status : ℕ
  pub allow_origin : Option String
  pub body : Body

pub record State : Type 0 where
  pub rate : Table RateEntry
  pub orders : List OrderRow

-- `bearer`.
abbrev read_capability : Option String → Result String
read_capability none = fail 401 "unauthorized"
read_capability (some value) =
    if matches is_word 43 128 value then ok value else fail 401 "unauthorized"

unfoldable pub bearer : Request → Result String
bearer request = read_capability (after_prefix "Bearer " (or_default "" request.authorization))

-- The match of the delivery path, with the capability in it.
abbrev capability_in : Option String → Option String
capability_in none = none
capability_in (some value) = if matches is_word 43 128 value then some value else none

unfoldable pub delivery_path : String → Option String
delivery_path path = capability_in (after_prefix "/v1/deliver/" path)

abbrev is_duplicate : DeliveryResult → Bool
is_duplicate duplicate = true
is_duplicate stored = false

abbrev was_closed : Closed → Bool
was_closed closed_before = true
was_closed closed_now = false

abbrev pub Answer : Type 0
Answer = Result (ℕ × Body) × List OrderRow

-- The rest of a route once its input is known; a throw before the store leaves the orders.
abbrev with_input {ℓ} : {A : Type ℓ} → List OrderRow → Result A → (A → Answer) → Answer
with_input orders (ok a) k = k a
with_input orders (err e) k = (err e, orders)

-- The reply to what a method of the store returned.
abbrev replying {ℓ} : {A : Type ℓ} → (A → ℕ × Body) → Result A × List OrderRow → Answer
replying f (ok a, orders) = (ok (f a), orders)
replying f (err e, orders) = (err e, orders)

abbrev payload_reply : Option PaymentPayload → ℕ × Body
payload_reply none = (204, empty)
payload_reply (some p) = (200, payload p)

module _ (sha256 : String → String) (new_url : String → Option Url) (config : RelayConfig) where
  abbrev registration_reply : RegisterOrderInput → Registered → ℕ × Body
  registration_reply input created = (
    201,
    registered input.order_id (config.public_origin ⧺ "/v1/deliver/" ⧺ input.write_capability)
        input.expires_at,
  )
  registration_reply input existing = (
    200,
    registered input.order_id (config.public_origin ⧺ "/v1/deliver/" ⧺ input.write_capability)
        input.expires_at,
  )

  post_order : Request → ℕ → List OrderRow → Answer
  post_order request now orders =
      with_input orders
        (do
          value ← read_json request config.body_limit_bytes
          parse_registration new_url value now config.max_ttl_seconds)
        (λ input. replying (registration_reply input) (register sha256 input now orders))

  post_delivery : String → Request → ℕ → List OrderRow → Answer
  post_delivery capability request now orders =
      with_input orders
        (do value ← read_json request config.body_limit_bytes; parse_payment_payload new_url value)
        (λ p.
          replying (λ r. (202, delivery (is_duplicate r))) (deliver sha256 capability p now orders))

  get_inbox : Request → ℕ → List OrderRow → Answer
  get_inbox request now orders =
      with_input orders (bearer request) (λ c. replying payload_reply (read sha256 c now orders))

  post_ack : Request → ℕ → List OrderRow → Answer
  post_ack request now orders =
      with_input orders (bearer request) (λ c.
        replying (λ r. (200, acknowledgement (was_closed r))) (acknowledge sha256 c now orders))

  post_cancel : Request → ℕ → List OrderRow → Answer
  post_cancel request now orders =
      with_input orders (bearer request)
        (λ c. replying (λ r. (200, cancellation (was_closed r))) (cancel sha256 c now orders))

  abbrev is_post : Request → Bool
  is_post request = str_eq request.method "POST"

  abbrev is_get : Request → Bool
  is_get request = str_eq request.method "GET"

  -- The routes after the delivery path.
  inbox_route : Request → ℕ → List OrderRow → Answer
  inbox_route request now orders =
      if is_get request && str_eq request.pathname "/v1/inbox"
      then get_inbox request now orders
      else if is_post request && str_eq request.pathname "/v1/inbox/ack"
      then post_ack request now orders
      else if is_post request && str_eq request.pathname "/v1/inbox/cancel"
      then post_cancel request now orders
      else (fail 404 "not_found", orders)

  delivery_route : Option String → Request → ℕ → List OrderRow → Answer
  delivery_route none request now orders = inbox_route request now orders
  delivery_route (some capability) request now orders =
      if is_post request
      then post_delivery capability request now orders
      else inbox_route request now orders

  pub route : Request → ℕ → List OrderRow → Answer
  route request now orders =
      if is_get request && str_eq request.pathname "/healthz"
      then (ok (200, health), orders)
      else if is_post request && str_eq request.pathname "/v1/orders"
      then post_order request now orders
      else delivery_route (delivery_path request.pathname) request now orders

  -- `${request.socket.remoteAddress ?? "unknown"}:${minute}`.
  unfoldable pub rate_key : Request → ℕ → String
  rate_key request minute = or_default "unknown" request.remote_address ⧺ ":" ⧺ decimal minute

  -- The reply of the `try`, or of the `catch`.
  abbrev respond : Option String → Result (ℕ × Body) → Response
  respond origin (ok (status, body)) = record {
    status = status;
    allow_origin = origin;
    body = body;
  }
  respond origin (err e) = record { status = e.status; allow_origin = origin; body = failure e }

  -- The rate table after the request, and whether the request passes. A request that does not pass
  -- throws before the table is trimmed.
  unfoldable pub limited : Request → ℕ → Table RateEntry → Table RateEntry × Bool
  limited request minute rate =
      let counted = count_request minute (rate_key request minute) rate in
      if ltb config.max_requests_per_minute (next_count minute (get (rate_key request minute) rate))
      then (counted, false)
      else (if ltb 10000 (length counted) then forget_before minute counted else counted, true)

  abbrev after_limit : Request → ℕ → List OrderRow → Table RateEntry × Bool → Response × State
  after_limit request now orders (rate, false) = (
    respond (echoed request.origin) (fail 429 "rate_limited"),
    record { rate = rate; orders = orders },
  )
  after_limit request now orders (rate, true) =
      let (result, orders') = route request now orders in
      (respond (echoed request.origin) result, record { rate = rate; orders = orders' })

  unfoldable pub handle : Request → ℕ → State → Response × State
  unfolding limited route delivery_route inbox_route post_order post_delivery get_inbox post_ack
      post_cancel
  handle request now s =
      if not (origin_allowed config.allowed_origins request.origin)
      then (respond none (fail 403 "origin_forbidden"), s)
      else if str_eq request.method "OPTIONS"
      then (record { status = 204; allow_origin = echoed request.origin; body = empty }, s)
      else after_limit request now s.orders (limited request (now / 60) s.rate)
