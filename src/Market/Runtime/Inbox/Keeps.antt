-- ===== src/Market/Runtime/Inbox/Keeps.antt =====
-- What polling, cancelling, registering and resuming an order keep.
use fibernuts.Common.{
  ok, err, String, Bool, true, false, not, Option, none, some, ◌≡◌, refl, sym, Bool-cases, inl, inr,
  is_some, ◌&&◌, ◌||◌, if◌then◌else◌, str_eq, leb, ◌*◌, ◌+◌,
}
use fibernuts.Market.Types.{MarketRole, OrderState, VendorOrder, given, is_true}
use fibernuts.Market.Errors.{Failure, plain_error, Attempt}
use fibernuts.Market.Payment.{CreatedVendorRequest, ValidatedEventRequest}
use fibernuts.Market.Runtime.Records.{find_by-id}
use fibernuts.Market.Ports.{MarketContext, DeliveredPayload}
use fibernuts.Market.Runtime.{
  Session, Runtime, return, asked, tries, find_by, either, and_then, raise,
}
use fibernuts.Market.Runtime.Rules.{Ends, and_then-Ends, asked-Ends, either-Ends}
use fibernuts.Market.Runtime.Orders.{
  ReceivedPayload, payment_payload, commit_state, recoverable_with, text_of, register_stored_order,
  is_gone, is_conflict, is_settled, has_registration, acknowledge_settled_order, expire_order,
  stored_request, commit_registered, cleanup_failed, commit_cleaned,
}
use fibernuts.Market.Runtime.Run.{
  Run, At, Good, start-Run, Good-of, tries-Good, tries_asked-Good, tries_last-Good,
}
use fibernuts.Market.Runtime.Orders.Run.{
  orders, recommit_order-Ends, commit_state-Ends, recoverable_with-Good, begins-Good,
}
use fibernuts.Market.Runtime.Settlement.Keeps.{settle_order-Good}
use fibernuts.Market.Runtime.Inbox.{
  is_cancelling, poll_failed, acknowledge_received, commit_received, accept_payload, poll_payload,
  poll_answer, poll_order, commit_cancelled, cancel_failed, cancel_order, resume_order, foreign,
  poll_found, cancel_found, expire_if, commit_acknowledged, acknowledgement_failed,
}

module _ (origin : VendorOrder) (start : Session) (c : MarketContext) where
  expire_order-Ends :
      (order : VendorOrder) (s : Session)
      → At orders origin start order s
      → Ends (At orders origin start) (At orders origin start order) (expire_order c order s)
  unfolding expire_order
  expire_order-Ends order s at = recommit_order-Ends origin start c order _ _ at at.1

  acknowledge_settled_order-Good :
      (order : VendorOrder) (s : Session)
      → At orders origin start order s
      → Good orders origin start (acknowledge_settled_order c order s)
  unfolding acknowledge_settled_order cleanup_failed commit_cleaned
  acknowledge_settled_order-Good order s at =
      elim (Bool-cases (not (given order.read_capability))) [
        | inl missing ↦ rw missing at
        | inr there ↦ rw there (
            tries_asked-Good orders origin start (cleanup_failed c order) order failed
              (c.relay.acknowledge (text_of order.read_capability)) s _ at
              (λ done t at'.
                tries_last-Good orders origin start (cleanup_failed c order) order failed
                  (commit_cleaned c order t)
                  (recommit_order-Ends origin start c order _ _ at' at'.1)))
      ]
    where
      failed :
          (e : Failure) (t : Session)
          → At orders origin start order t
          → Good orders origin start (cleanup_failed c order e t)
      failed e t at' =
          Good-of orders origin start order _
            (recommit_order-Ends origin start c order _ _ at' at'.1)

  poll_failed-Good :
      (order : VendorOrder) (e : Failure) (s : Session)
      → At orders origin start order s
      → Good orders origin start (poll_failed c order e s)
  unfolding poll_failed expire_if
  poll_failed-Good order e s at = elim (Bool-cases (is_gone e)) [
    | inl gone ↦ rw gone (expire _ _ at)
    | inr other ↦ rw other (recoverable_with-Good origin start c order e s at)
  ]
    where
      expire :
          (past : Bool) (t : Session)
          → At orders origin start order t
          → Good orders origin start (expire_if c order e past t)
      expire true t at' = Good-of orders origin start order _ (expire_order-Ends order t at')
      expire false t at' = recoverable_with-Good origin start c order e t at'

  acknowledge_received-Ends :
      (order : VendorOrder) (s : Session)
      → At orders origin start order s
      → Ends
          (At orders origin start)
          (At orders origin start order)
          (acknowledge_received c order s)
  unfolding acknowledge_received acknowledgement_failed commit_acknowledged
  acknowledge_received-Ends order s at =
      step (asked answer s) _ (asked-Ends answer s (At orders origin start order) at) (λ a t at'.
        step (commit_acknowledged c order t) return
          (recommit_order-Ends origin start c order _ _ at' at'.1) (λ o u at''. at''))
    where
      answer : Attempt (Unit {0})
      answer = c.relay.acknowledge (text_of order.read_capability)

      step :
          {A : Type 0} {P : A → Session → Type 0} (r : Attempt A × Session)
          (next : A → Runtime VendorOrder)
          → Ends P (At orders origin start order) r
          → ((a : A) (t : Session)
              → P a t
              → Ends (At orders origin start) (At orders origin start order) (next a t))
          → Ends
              (At orders origin start)
              (At orders origin start order)
              (either (acknowledgement_failed c order) next r)
      step {P = P} r next h k =
          either-Ends P (At orders origin start) (At orders origin start order)
            (At orders origin start order) r (acknowledgement_failed c order) next h
            (λ e t at'. recommit_order-Ends origin start c order _ _ at' at'.1) k

  accept_payload-Good :
      (order : VendorOrder) (payload : ReceivedPayload) (s : Session)
      → At orders origin start order s
      → Good orders origin start (accept_payload c order payload s)
  unfolding accept_payload commit_received
  accept_payload-Good order payload s at =
      tries_asked-Good orders origin start (poll_failed c order) order (poll_failed-Good order) _ s
        _ at
        (λ token t at'.
          tries-Good orders origin start (poll_failed c order) order (poll_failed-Good order)
            (At orders origin start) (commit_received c order token t) _
            (recommit_order-Ends origin start c order _ _ at' at'.1)
            (λ received u at''.
              tries-Good orders origin start (poll_failed c received) received
                (poll_failed-Good received) (At orders origin start)
                (acknowledge_received c received u) _ (acknowledge_received-Ends received u at'')
                (λ o v there. settle_order-Good origin start c o o v there.1.0 there)))

  rejected-Good :
      (order : VendorOrder) (error : String) (s : Session)
      → At orders origin start order s
      → Good orders origin start (
          tries
            (poll_failed c order)
            (commit_state c order OrderState.rejected (some error))
            return
            s)
  rejected-Good order error s at =
      tries_last-Good orders origin start (poll_failed c order) order (poll_failed-Good order) _
        (commit_state-Ends origin start c order OrderState.rejected (some error) s at)

  poll_payload-Good :
      (order : VendorOrder) (payload : ReceivedPayload) (s : Session)
      → At orders origin start order s
      → Good orders origin start (poll_payload c order payload s)
  unfolding poll_payload
  poll_payload-Good order payload s at = elim (Bool-cases (not (str_eq payload.id order.id))) [
    | inl other ↦ rw other (rejected-Good order _ s at)
    | inr same ↦ rw same (
        tries_asked-Good orders origin start (poll_failed c order) order (poll_failed-Good order)
          (foreign c payload) s _ at judged)
  ]
    where
      judged :
          (wrong : Bool) (t : Session)
          → At orders origin start order t
          → Good orders origin start (
              (if wrong
                  then tries
                      (poll_failed c order)
                      (commit_state c order OrderState.rejected
                        (some "The delivered payment has the wrong mint or unit."))
                      return
                  else accept_payload c order payload)
                t)
      judged true t at' = rejected-Good order _ t at'
      judged false t at' = accept_payload-Good order payload t at'

  poll_answer-Good :
      (order : VendorOrder) (answer : Option DeliveredPayload) (s : Session)
      → At orders origin start order s
      → Good orders origin start (poll_answer c order answer s)
  unfolding poll_answer
  poll_answer-Good order none s at =
      waited (leb (order.expires_at * 1000) (c.now s.readings))
        (record s { readings = s.readings + 1 }) at
    where
      waited :
          (past : Bool) (t : Session)
          → At orders origin start order t
          → Good orders origin start (
              (if past
                  then tries (poll_failed c order) (expire_order c order) return
                  else return order)
                t)
      waited true t at' =
          tries_last-Good orders origin start (poll_failed c order) order (poll_failed-Good order)
            (expire_order c order t) (expire_order-Ends order t at')
      waited false t at' = at'
  poll_answer-Good order (some payload) s at =
      tries_asked-Good orders origin start (poll_failed c order) order (poll_failed-Good order)
        (payment_payload payload) s (poll_payload c order) at (poll_payload-Good order)

  poll_inbox-Good :
      (order : VendorOrder) (s : Session)
      → At orders origin start order s
      → Good orders origin start (
          (if not (given order.read_capability)
              then raise (plain_error "The stored order has no private inbox capability.")
              else tries
                  (poll_failed c order)
                  (asked (c.relay.read (text_of order.read_capability)))
                  (poll_answer c order))
            s)
  poll_inbox-Good order s at = elim (Bool-cases (not (given order.read_capability))) [
    | inl missing ↦ rw missing at.0
    | inr there ↦ rw there (
        tries_asked-Good orders origin start (poll_failed c order) order (poll_failed-Good order)
          (c.relay.read (text_of order.read_capability)) s (poll_answer c order) at
          (poll_answer-Good order))
  ]

  poll_found-Good :
      (order : VendorOrder) (s : Session)
      → At orders origin start order s
      → Good orders origin start (poll_found c order s)
  unfolding poll_found
  poll_found-Good order s at = elim (Bool-cases settled) [
    | inl e ↦ rw e (acknowledge_settled_order-Good order s at)
    | inr e ↦ rw e (elim (Bool-cases received) [
      | inl f ↦ rw f (settle_order-Good origin start c order order s at.1.0 at)
      | inr f ↦ rw f (poll_inbox-Good order s at)
    ])
  ]
    where
      settled : Bool
      settled =
          is_settled order.state
          && not (is_true order.relay_acknowledged)
          && given order.read_capability

      received : Bool
      received = given order.incoming_token || is_some order.incoming_swap

  poll_order-Good :
      (input order : VendorOrder) (s : Session)
      → input.id ≡ origin.id
      → At orders origin start order s
      → Good orders origin start (poll_order c input s)
  unfolding poll_order
  poll_order-Good input order s same at =
      begins-Good origin start c MarketRole.vendor input order s (poll_found c) same at
        (poll_found-Good order s at)

  commit_cancelled-Ends :
      (order : VendorOrder) (s : Session)
      → At orders origin start order s
      → Ends (At orders origin start) (At orders origin start order) (commit_cancelled c order s)
  unfolding commit_cancelled
  commit_cancelled-Ends order s at = recommit_order-Ends origin start c order _ _ at at.1

  cancel_failed-Good :
      (order : VendorOrder) (e : Failure) (s : Session)
      → At orders origin start order s
      → Good orders origin start (cancel_failed c order e s)
  cancel_failed-Good order e s at = elim (Bool-cases (is_conflict e)) [
    | inl conflict ↦ rw conflict (poll_order-Good order order s at.1.0 at)
    | inr other ↦ rw other (recoverable_with-Good origin start c order e s at)
  ]

  cancel_found-Good :
      (order : VendorOrder) (s : Session)
      → At orders origin start order s
      → Good orders origin start (cancel_found c order s)
  unfolding cancel_found
  cancel_found-Good order s at = elim (Bool-cases (not (given order.read_capability))) [
    | inl missing ↦ rw missing at.0
    | inr there ↦ rw there (
        and_then-Ends (At orders origin start) (At orders origin start) (Run orders origin start)
          (commit_state c order OrderState.cancelling none s) (cancelled order)
          (Good-of orders origin start order _
            (commit_state-Ends origin start c order OrderState.cancelling none s at))
          (λ cancelling t at'.
            tries_asked-Good orders origin start (cancel_failed c cancelling) cancelling
              (cancel_failed-Good cancelling) (c.relay.cancel (text_of order.read_capability)) t _
              at'
              (λ done u at''.
                tries_last-Good orders origin start (cancel_failed c cancelling) cancelling
                  (cancel_failed-Good cancelling) (commit_cancelled c cancelling u)
                  (commit_cancelled-Ends cancelling u at''))))
  ]
    where
      cancelled : VendorOrder → VendorOrder → Runtime VendorOrder
      cancelled order cancelling =
          tries (cancel_failed c cancelling)
            (asked (c.relay.cancel (text_of order.read_capability)))
            λ done. tries (cancel_failed c cancelling) (commit_cancelled c cancelling) return

  cancel_order-Good :
      (input order : VendorOrder) (s : Session)
      → input.id ≡ origin.id
      → At orders origin start order s
      → Good orders origin start (cancel_order c input s)
  unfolding cancel_order
  cancel_order-Good input order s same at =
      begins-Good origin start c MarketRole.vendor input order s (cancel_found c) same at
        (cancel_found-Good order s at)

  stored_request-Ends :
      (order : VendorOrder) (s : Session)
      → At orders origin start order s
      → Ends
          (λ request t. At orders origin start order t)
          (At orders origin start order)
          (stored_request c order s)
  unfolding stored_request
  stored_request-Ends order s at = elim (Bool-cases (not (has_registration order))) [
    | inl incomplete ↦ rw incomplete at
    | inr complete ↦ rw complete (validated _)
  ]
    where
      next : ValidatedEventRequest → Runtime CreatedVendorRequest
      next v = return (record {
        order_id = order.id;
        private_key = text_of order.private_key;
        public_key = text_of order.public_key;
        read_capability = text_of order.read_capability;
        write_capability = text_of order.write_capability;
        delivery_url = text_of order.delivery_url;
        expires_at = order.expires_at;
        request = v.request;
        request_digest = text_of order.request_digest;
      })

      validated :
          (r : Attempt ValidatedEventRequest)
          → Ends
              (λ request t. At orders origin start order t)
              (At orders origin start order)
              (and_then next (asked r (record s { readings = s.readings + 1 })))
      validated (ok v) = at
      validated (err e) = at

  register_found-Good :
      (order : VendorOrder) (s : Session)
      → At orders origin start order s
      → Good orders origin start (
          tries
            (recoverable_with c order)
            (stored_request c order)
            (λ request.
              tries
                (recoverable_with c order)
                (asked (c.relay.register request order.amount))
                (λ done. tries (recoverable_with c order) (commit_registered c order) return))
            s)
  unfolding commit_registered
  register_found-Good order s at =
      tries-Good orders origin start (recoverable_with c order) order
        (recoverable_with-Good origin start c order) (λ request t. At orders origin start order t)
        (stored_request c order s) _ (stored_request-Ends order s at)
        (λ request t at'.
          tries_asked-Good orders origin start (recoverable_with c order) order
            (recoverable_with-Good origin start c order) (c.relay.register request order.amount) t _
            at'
            (λ done u at''.
              tries_last-Good orders origin start (recoverable_with c order) order
                (recoverable_with-Good origin start c order) (commit_registered c order u)
                (recommit_order-Ends origin start c order _ _ at'' at''.1)))

  register_stored_order-Good :
      (input order : VendorOrder) (s : Session)
      → input.id ≡ origin.id
      → At orders origin start order s
      → Good orders origin start (register_stored_order c input s)
  unfolding register_stored_order
  register_stored_order-Good input order s same at =
      begins-Good origin start c MarketRole.vendor input order s
        (λ o. tries (recoverable_with c o) (stored_request c o) (λ request.
          tries (recoverable_with c o) (asked (c.relay.register request o.amount))
            (λ done. tries (recoverable_with c o) (commit_registered c o) return)))
        same at (register_found-Good order s at)

-- Whatever the wallet, the relay and the storage answer, resuming a stored order changes no other
-- order, payment or operation, keeps identifiers distinct, removes no proofs, and makes no call that
-- moves value but to complete a swap that is already stored in that order. The order stays stored, with
-- the items, the amount, the expiry and the key it had, and it is the one that is returned.
pub resume_order-Run :
    (c : MarketContext) (input order : VendorOrder) (s : Session)
    → find_by (λ (o : VendorOrder). o.id) input.id s.snapshot.orders ≡ some order
    → Ends (At orders order s) (Run orders order s) (resume_order c input s)
unfolding resume_order
resume_order-Run c input order s found = elim (Bool-cases (is_cancelling input.state)) [
  | inl e ↦ rw e (cancel_order-Good order s c input order s same at)
  | inr e ↦ rw e (elim (Bool-cases unregistered) [
    | inl f ↦ rw f (register_stored_order-Good order s c input order s same at)
    | inr f ↦ rw f (poll_order-Good order s c input order s same at)
  ])
]
  where
    unregistered : Bool
    unregistered =
        not (is_true input.relay_registered)
        && not (given input.incoming_token)
        && not (is_some input.incoming_swap)

    same : input.id ≡ order.id
    same = sym (find_by-id (λ (o : VendorOrder). o.id) input.id s.snapshot.orders found)

    at : At orders order s order s
    at = (start-Run orders order s (rw same at found), (refl, refl), rw same at found)
