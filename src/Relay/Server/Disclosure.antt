-- ===== src/Relay/Server/Disclosure.antt =====
-- Who is shown a payload: only a request that carries the read capability of its slot.
use fibernuts.Common.{
  ℕ, ◌/◌, String, Bool, true, false, Option, none, some, List, ◌≡◌, ◌≢◌, refl, ap, ◌∙◌, arith,
  Bool-cases, Option-cases, inl, inr, str_eq, ◌&&◌, Result, ok, err, ◌>>=◌,
}
use fibernuts.Table.{select}
use fibernuts.Table.Keys.{has_key}
use fibernuts.Http.{Request, read_json, origin_allowed, echoed}
use fibernuts.Http.Rate.{RateEntry}
use fibernuts.Js.Table.{Table}
use fibernuts.Js.Url.{Url}
use fibernuts.Relay.Protocol.{RegisterOrderInput, PaymentPayload}
use fibernuts.Relay.Protocol.Registration.{parse_registration}
use fibernuts.Relay.Protocol.Payload.{parse_payment_payload}
use fibernuts.Relay.Store.{
  OrderRow, is_delivered, Registered, created, existing, register, deliver, acknowledge, cancel,
  read, expire_row, row_for_read,
}
use fibernuts.Relay.Server.{
  RelayConfig, Body, payload, State, Answer, with_input, replying, bearer, delivery_path, route,
  post_order, post_delivery, get_inbox, post_ack, post_cancel, inbox_route, delivery_route, handle,
  limited, after_limit, registration_reply, payload_reply, respond, is_duplicate, was_closed,
  delivery, acknowledgement, cancellation,
}

module _ (sha256 : String → String) (new_url : String → Option Url) (config : RelayConfig) where
  -- The read capability of the request finds a delivered row that holds the payload.
  pub record Entitled (request : Request) (orders : List OrderRow) (p : PaymentPayload)
      : Type 0 where
    pub capability : String
    pub row : OrderRow
    pub presented : bearer request ≡ ok capability
    pub found : row_for_read sha256 capability orders ≡ some row
    pub held : row.payload_json ≡ some p
    pub waiting : is_delivered row.state ≡ true

  abbrev Shows : PaymentPayload → Answer → Type 0
  Shows p answer = (status : ℕ) × (answer.0 ≡ ok (status, payload p))

  -- Where no reply of a route has a payload, none is shown.
  with_input_silent :
      {A B : Type 0} (p : PaymentPayload) (orders : List OrderRow) (input : Result A)
      (reply : A → B → ℕ × Body) (method : A → Result B × List OrderRow)
      → ((a : A) (b : B) → (reply a b).1 ≢ payload p)
      → ¬ Shows p (with_input orders input (λ a. replying (reply a) (method a)))
  with_input_silent p orders (err e) reply method silent (status, h) = cc
  with_input_silent {B} p orders (ok a) reply method silent (status, h) = by_result (method a) h
    where
      by_result :
          (x : Result B × List OrderRow) → (replying (reply a) x).0 ≡ ok (status, payload p) → ⊥
      by_result (ok b, orders) h = silent a b (cc)
      by_result (err e, orders) h = cc

  read_shows :
      (capability : String) (now : ℕ) (orders : List OrderRow) (p : PaymentPayload)
      → (read sha256 capability now orders).0 ≡ ok (some p)
      → (row : OrderRow) × (row_for_read sha256 capability orders ≡ some row)
        × (row.payload_json ≡ some p)
        × (is_delivered row.state ≡ true)
  unfolding read expire_row
  read_shows capability now orders p h =
      elim (Option-cases (select (has_key (λ r. r.read_hash) (sha256 capability)) orders)) [
        | inl e ↦ cc (rw e at h)
        | inr (row, e) ↦ let at_row = rw e at h in (row, e, ground arith, ground arith)
      ]

  module _ (request : Request) (now : ℕ) (orders : List OrderRow) (p : PaymentPayload) where
    get_inbox-Shows :
        Shows p (get_inbox sha256 new_url config request now orders) → Entitled request orders p
    unfolding get_inbox
    get_inbox-Shows (status, h) = by_bearer (bearer request) refl h
      where
        by_read :
            (c : String) (x : Result (Option PaymentPayload) × List OrderRow)
            → (replying payload_reply x).0 ≡ ok (status, payload p)
            → x.0 ≡ ok (some p)
        by_read c (ok (some q), orders) h = cc
        by_read c (ok none, orders) h = cc
        by_read c (err e, orders) h = cc

        by_bearer :
            (b : Result String)
            → bearer request ≡ b
            → (with_input orders b (λ c. replying payload_reply (read sha256 c now orders))).0
              ≡ ok (status, payload p)
            → Entitled request orders p
        by_bearer (err e) presented h = cc
        by_bearer (ok c) presented h =
            let (row, found, held, waiting) =
              read_shows c now orders p (by_read c (read sha256 c now orders) h) in
            record {
              capability = c;
              row = row;
              presented = presented;
              found = found;
              held = held;
              waiting = waiting;
            }

    post_order_silent : ¬ Shows p (post_order sha256 new_url config request now orders)
    unfolding post_order
    post_order_silent =
        with_input_silent p orders
          (read_json request config.body_limit_bytes >>= λ value.
            parse_registration new_url value now config.max_ttl_seconds)
          (registration_reply sha256 new_url config) (λ input. register sha256 input now orders)
          registration_silent
      where
        registration_silent :
            (input : RegisterOrderInput) (r : Registered)
            → (registration_reply sha256 new_url config input r).1 ≢ payload p
        registration_silent input created h = cc
        registration_silent input existing h = cc

    post_delivery_silent :
        (capability : String)
        → ¬ Shows p (post_delivery sha256 new_url config capability request now orders)
    unfolding post_delivery
    post_delivery_silent capability =
        with_input_silent p orders
          (read_json request config.body_limit_bytes >>= parse_payment_payload new_url)
          (λ q r. (202, delivery (is_duplicate r))) (λ q. deliver sha256 capability q now orders)
          (λ q r h. cc)

    post_ack_silent : ¬ Shows p (post_ack sha256 new_url config request now orders)
    unfolding post_ack
    post_ack_silent =
        with_input_silent p orders (bearer request) (λ c r. (200, acknowledgement (was_closed r)))
          (λ c. acknowledge sha256 c now orders) (λ c r h. cc)

    post_cancel_silent : ¬ Shows p (post_cancel sha256 new_url config request now orders)
    unfolding post_cancel
    post_cancel_silent =
        with_input_silent p orders (bearer request) (λ c r. (200, cancellation (was_closed r)))
          (λ c. cancel sha256 c now orders) (λ c r h. cc)

    inbox_route-Shows :
        Shows p (inbox_route sha256 new_url config request now orders) → Entitled request orders p
    unfolding inbox_route
    inbox_route-Shows (status, h) =
        elim (Bool-cases (str_eq request.method "GET" && str_eq request.pathname "/v1/inbox")) [
          | inl e ↦ get_inbox-Shows (status, ground arith)
          | inr e ↦
              elim (Bool-cases
                (str_eq request.method "POST" && str_eq request.pathname "/v1/inbox/ack")) [
                  | inl f ↦ absurd (post_ack_silent (status, ground arith))
                  | inr f ↦
                      elim (Bool-cases (
                        str_eq request.method "POST"
                        && str_eq request.pathname "/v1/inbox/cancel")) [
                          | inl g ↦ absurd (post_cancel_silent (status, ground arith))
                          | inr g ↦ absurd (ground arith)
                        ]
                ]
        ]

    delivery_route-Shows :
        (path : Option String)
        → Shows p (delivery_route sha256 new_url config path request now orders)
        → Entitled request orders p
    unfolding delivery_route
    delivery_route-Shows none h = inbox_route-Shows h
    delivery_route-Shows (some capability) (status, h) =
        elim (Bool-cases (str_eq request.method "POST")) [
          | inl e ↦ absurd (post_delivery_silent capability (status, ground arith))
          | inr e ↦ inbox_route-Shows (status, ground arith)
        ]

    route-Shows :
        Shows p (route sha256 new_url config request now orders) → Entitled request orders p
    unfolding route
    route-Shows (status, h) =
        elim (Bool-cases (str_eq request.method "GET" && str_eq request.pathname "/healthz")) [
          | inl e ↦ absurd (ground arith)
          | inr e ↦
              elim (Bool-cases
                (str_eq request.method "POST" && str_eq request.pathname "/v1/orders")) [
                  | inl f ↦ absurd (post_order_silent (status, ground arith))
                  | inr f ↦
                      delivery_route-Shows (delivery_path request.pathname) (status, ground arith)
                ]
        ]

    after_limit_shows :
        (x : Table RateEntry × Bool)
        → (after_limit sha256 new_url config request now orders x).0.body ≡ payload p
        → Entitled request orders p
    after_limit_shows (rate, false) h = cc
    after_limit_shows (rate, true) h =
        by_result (route sha256 new_url config request now orders).0 refl h
      where
        by_result :
            (r : Result (ℕ × Body))
            → (route sha256 new_url config request now orders).0 ≡ r
            → (respond sha256 new_url config (echoed request.origin) r).body ≡ payload p
            → Entitled request orders p
        by_result (err e) same h = cc
        by_result (ok (status, body)) same h =
            route-Shows (status, same ∙ ap (λ (b : Body). ok (status, b)) h)

  -- A reply shows a payload only to a request whose bearer token is the read capability of a slot
  -- that is delivered and holds that payload.
  pub handle-Entitled :
      (request : Request) (now : ℕ) (s : State) (p : PaymentPayload)
      → (handle sha256 new_url config request now s).0.body ≡ payload p
      → Entitled request s.orders p
  unfolding handle
  handle-Entitled request now s p h =
      elim (Bool-cases (origin_allowed config.allowed_origins request.origin)) [
        | inl allowed ↦ elim (Bool-cases (str_eq request.method "OPTIONS")) [
          | inl e ↦ absurd (ground arith)
          | inr e ↦
              after_limit_shows request now s.orders p
                (limited sha256 new_url config request (now / 60) s.rate) (ground arith)
        ]
        | inr refused ↦ absurd (ground arith)
      ]
