-- ===== src/Relay/Server/Access.antt =====
-- Which requests reach the store, and what they may do there.
use fibernuts.Common.{
  ℕ, ◌/◌, String, Bool, true, false, Option, none, some, List, ◌≡◌, refl, Bool-cases, inl, inr,
  str_eq, ◌&&◌, Result, ok, err, if◌then◌else◌, ◌>>=◌,
}
use fibernuts.Http.Rate.{RateEntry}
use fibernuts.Js.Table.{Table}
use fibernuts.Http.{echoed, Request, read_json, origin_allowed}
use fibernuts.Js.Url.{Url}
use fibernuts.Relay.Protocol.Registration.{parse_registration}
use fibernuts.Relay.Protocol.Payload.{parse_payment_payload}
use fibernuts.Relay.Store.{OrderRow, register, deliver, read, acknowledge, cancel}
use fibernuts.Relay.Store.Commands.{
  Command, registering, delivering, reading, acknowledging, cancelling, cleaning, run,
}
use fibernuts.Relay.Server.{
  RelayConfig, Body, empty, State, with_input, replying, bearer, delivery_path, route, post_order,
  post_delivery, get_inbox, post_ack, post_cancel, inbox_route, delivery_route, handle, limited,
  after_limit, registration_reply, payload_reply, is_duplicate, was_closed, delivery,
  acknowledgement, cancellation,
}

module _ (sha256 : String → String) (new_url : String → Option Url) (config : RelayConfig) where
  -- The request carries what the command needs: a body that parses, or the capability.
  abbrev pub Authorized : Request → ℕ → Command → Type 0
  Authorized request now (registering input) =
      (read_json request config.body_limit_bytes >>= λ value.
      parse_registration new_url value now config.max_ttl_seconds)
      ≡ ok input
  Authorized request now (delivering capability p) =
      (delivery_path request.pathname ≡ some capability)
      × ((read_json request config.body_limit_bytes >>= parse_payment_payload new_url) ≡ ok p)
  Authorized request now (reading capability) = bearer request ≡ ok capability
  Authorized request now (acknowledging capability) = bearer request ≡ ok capability
  Authorized request now (cancelling capability) = bearer request ≡ ok capability
  Authorized request now (cleaning retention) = ⊥

  pub data Effect (request : Request) (now : ℕ) (orders : List OrderRow)
      : List OrderRow → Type 0 where
    untouched : Effect request now orders orders
    served :
        (c : Command)
        → Authorized request now c
        → Effect request now orders (run sha256 c now orders)

  replying-orders :
      {A : Type 0} (f : A → ℕ × Body) (x : Result A × List OrderRow) → (replying f x).1 ≡ x.1
  replying-orders f (ok a, orders) = refl
  replying-orders f (err e, orders) = refl

  module _ (request : Request) (now : ℕ) (orders : List OrderRow) where
    with_input-Effect :
        {A B : Type 0} (input : Result A) (reply : A → B → ℕ × Body)
        (method : A → Result B × List OrderRow)
        → ((a : A) → input ≡ ok a → Effect request now orders (method a).1)
        → Effect request now orders (with_input orders input (λ a. replying (reply a) (method a))).1
    with_input-Effect (ok a) reply method h = rw (replying-orders (reply a) (method a)) (h a refl)
    with_input-Effect (err e) reply method h = untouched

    post_order-Effect :
        Effect request now orders (post_order sha256 new_url config request now orders).1
    unfolding post_order run
    post_order-Effect =
        with_input-Effect
          (read_json request config.body_limit_bytes >>= λ value.
            parse_registration new_url value now config.max_ttl_seconds)
          (registration_reply sha256 new_url config) (λ input. register sha256 input now orders)
          (λ input e. served (registering input) e)

    post_delivery-Effect :
        (capability : String)
        → delivery_path request.pathname ≡ some capability
        → Effect request now orders
            (post_delivery sha256 new_url config capability request now orders).1
    unfolding post_delivery run
    post_delivery-Effect capability path =
        with_input-Effect
          (read_json request config.body_limit_bytes >>= parse_payment_payload new_url)
          (λ p r. (202, delivery (is_duplicate r))) (λ p. deliver sha256 capability p now orders)
          (λ p e. served (delivering capability p) (path, e))

    get_inbox-Effect :
        Effect request now orders (get_inbox sha256 new_url config request now orders).1
    unfolding get_inbox run
    get_inbox-Effect =
        with_input-Effect (bearer request) (λ c. payload_reply) (λ c. read sha256 c now orders)
          (λ c e. served (reading c) e)

    post_ack-Effect :
        Effect request now orders (post_ack sha256 new_url config request now orders).1
    unfolding post_ack run
    post_ack-Effect =
        with_input-Effect (bearer request) (λ c r. (200, acknowledgement (was_closed r)))
          (λ c. acknowledge sha256 c now orders) (λ c e. served (acknowledging c) e)

    post_cancel-Effect :
        Effect request now orders (post_cancel sha256 new_url config request now orders).1
    unfolding post_cancel run
    post_cancel-Effect =
        with_input-Effect (bearer request) (λ c r. (200, cancellation (was_closed r)))
          (λ c. cancel sha256 c now orders) (λ c e. served (cancelling c) e)

    inbox_route-Effect :
        Effect request now orders (inbox_route sha256 new_url config request now orders).1
    unfolding inbox_route
    inbox_route-Effect =
        elim (Bool-cases (str_eq request.method "GET" && str_eq request.pathname "/v1/inbox")) [
          | inl e ↦ rw e get_inbox-Effect
          | inr e ↦
              rw e
                (elim (Bool-cases
                  (str_eq request.method "POST" && str_eq request.pathname "/v1/inbox/ack")) [
                    | inl e ↦ rw e post_ack-Effect
                    | inr e ↦
                        rw e
                          (elim (Bool-cases (
                            str_eq request.method "POST"
                            && str_eq request.pathname "/v1/inbox/cancel")) [
                              | inl e ↦ rw e post_cancel-Effect
                              | inr e ↦ rw e untouched
                            ])
                  ])
        ]

    delivery_route-Effect :
        (path : Option String)
        → delivery_path request.pathname ≡ path
        → Effect request now orders (delivery_route sha256 new_url config path request now orders).1
    unfolding delivery_route
    delivery_route-Effect none e = inbox_route-Effect
    delivery_route-Effect (some capability) e = elim (Bool-cases (str_eq request.method "POST")) [
      | inl post ↦ rw post (post_delivery-Effect capability e)
      | inr other ↦ rw other inbox_route-Effect
    ]

    route-Effect : Effect request now orders (route sha256 new_url config request now orders).1
    unfolding route
    route-Effect =
        elim (Bool-cases (str_eq request.method "GET" && str_eq request.pathname "/healthz")) [
          | inl e ↦ rw e untouched
          | inr e ↦
              rw e
                (elim (Bool-cases
                  (str_eq request.method "POST" && str_eq request.pathname "/v1/orders")) [
                    | inl e ↦ rw e post_order-Effect
                    | inr e ↦ rw e (delivery_route-Effect (delivery_path request.pathname) refl)
                  ])
        ]

    after_limit-Effect :
        (x : Table RateEntry × Bool)
        → Effect request now orders
            (after_limit sha256 new_url config request now orders x).1.orders
    after_limit-Effect (rate, false) = untouched
    after_limit-Effect (rate, true) = route-Effect

  -- A request leaves the orders alone, or runs the one command that it carries the input or the
  -- capability for; from an origin that is not allowed it changes nothing at all.
  pub handle-Effect :
      (request : Request) (now : ℕ) (s : State)
      → Effect request now s.orders (handle sha256 new_url config request now s).1.orders
        × (origin_allowed config.allowed_origins request.origin ≡ false
            → (handle sha256 new_url config request now s).1 ≡ s)
  unfolding handle
  handle-Effect request now s =
      elim (Bool-cases (origin_allowed config.allowed_origins request.origin)) [
        | inl allowed ↦ rw allowed (passing, λ e. cc)
        | inr refused ↦ rw refused (untouched, λ e. refl)
      ]
    where
      passing :
          Effect request now s.orders
            (if str_eq request.method "OPTIONS"
              then (record { status = 204; allow_origin = echoed request.origin; body = empty }, s)
              else after_limit sha256 new_url config request now s.orders
                  (limited sha256 new_url config request (now / 60) s.rate)).1.orders
      passing = elim (Bool-cases (str_eq request.method "OPTIONS")) [
        | inl e ↦ rw e untouched
        | inr e ↦ rw e (
            after_limit-Effect request now s.orders
              (limited sha256 new_url config request (now / 60) s.rate))
      ]
