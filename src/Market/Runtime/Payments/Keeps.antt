-- ===== src/Market/Runtime/Payments/Keeps.antt =====
-- What preparing, delivering and checking a payment keep.
use fibernuts.Common.{
  ok, err, ◌+◌, String, Bool, false, not, Option, none, some, ◌++◌, ◌≡◌, refl, sym, ◌∙◌, ap, arith,
  Bool-cases, is_some, inl, inr, ◌&&◌, ◌||◌,
}
use fibernuts.Market.Types.{
  StoredSwapPreview, MarketRole, PaymentState, AttendeePayment, given, is_false, is_set,
}
use fibernuts.Market.Errors.{Failure, Attempt}
use fibernuts.Market.Payment.{ValidatedEventRequest, PaymentPayload}
use fibernuts.Market.Ports.{MarketContext, TokenSpendState, SentToken}
use fibernuts.Market.Runtime.{
  Session, completes_send, delivers, return, asked, sends, tries, find_by, and_then,
}
use fibernuts.Market.Runtime.Records.{find_by-id}
use fibernuts.Market.Runtime.Rules.{Ends, Ends-weaken, and_then-Ends}
use fibernuts.Market.Runtime.Run.{
  Run, At, Good, start-Run, Good-of, tries-Good, tries_asked-Good, tries_last-Good, sends-Ends,
}
use fibernuts.Market.Runtime.Payments.{
  text_of, prepared_from, commit_ready, payload_of, make_ready, complete_send, finish_swap,
  finish_payment_preparation, commit_delivered, delivery_failed, commit_delivering, deliver_ready,
  deliver_found, deliver_stored_payment, commit_checked, check_failed, check_found, check_payment,
}
use fibernuts.Market.Runtime.Payments.Run.{
  payments, commit_payment-Ends, recommit_payment_exact-Ends, recommit_payment-Ends, begins-Good,
}

given-some : (o : Option String) → not (given o) ≡ false → o ≡ some (text_of o)
given-some none h = cc
given-some (some s) h = refl

module _ (origin : AttendeePayment) (start : Session) (c : MarketContext) where
  commit_ready-Ends :
      (payment : AttendeePayment) (sent : SentToken) (payload : PaymentPayload) (s : Session)
      → At payments origin start payment s
      → Ends
          (At payments origin start)
          (At payments origin start payment)
          (commit_ready c payment sent payload s)
  unfolding commit_ready
  commit_ready-Ends payment sent payload s at =
      commit_payment-Ends origin start c payment _ (some (s.snapshot.proofs ++ sent.change))
        sent.change _ at at.1 refl

  make_ready-Ends :
      (payment : AttendeePayment) (request : ValidatedEventRequest) (sent : SentToken) (s : Session)
      → At payments origin start payment s
      → Ends
          (At payments origin start)
          (At payments origin start payment)
          (make_ready c payment request sent s)
  unfolding make_ready
  make_ready-Ends payment request sent s at = answered (payload_of c request sent)
    where
      answered :
          (r : Attempt PaymentPayload)
          → Ends
              (At payments origin start)
              (At payments origin start payment)
              (and_then (λ payload. commit_ready c payment sent payload) (asked r s))
      answered (ok payload) = commit_ready-Ends payment sent payload s at
      answered (err e) = at

  complete_send-Ends :
      (payment : AttendeePayment) (swap : StoredSwapPreview) (request : ValidatedEventRequest)
      (s : Session)
      → At payments origin start payment s
      → payment.swap ≡ some swap
      → Ends
          (At payments origin start)
          (At payments origin start payment)
          (complete_send c payment swap request s)
  unfolding complete_send
  complete_send-Ends payment swap request s at held =
      and_then-Ends (λ sent t. At payments origin start payment t) (At payments origin start)
        (At payments origin start payment)
        (sends (completes_send swap) (c.wallet.complete_prepared_send swap) s)
        (make_ready c payment request)
        (sends-Ends payments origin start payment (completes_send swap)
          (c.wallet.complete_prepared_send swap) s at held)
        (λ sent t at'. make_ready-Ends payment request sent t at')

  finish_swap-Ends :
      (payment : AttendeePayment) (swap : StoredSwapPreview) (s : Session)
      → At payments origin start payment s
      → payment.swap ≡ some swap
      → Ends
          (At payments origin start)
          (At payments origin start payment)
          (finish_swap c payment swap s)
  unfolding finish_swap
  finish_swap-Ends payment swap s at held = answered _
    where
      answered :
          (r : Attempt ValidatedEventRequest)
          → Ends (At payments origin start) (At payments origin start payment) (
              and_then
                (complete_send c payment swap)
                (asked r (record s { readings = s.readings + 1 })))
      answered (ok request) = complete_send-Ends payment swap request _ at held
      answered (err e) = at

  prepared_from-Ends :
      (payment : AttendeePayment) (stored : Option StoredSwapPreview) (s : Session)
      → At payments origin start payment s
      → payment.swap ≡ stored
      → Ends
          (At payments origin start)
          (At payments origin start payment)
          (prepared_from c payment stored s)
  prepared_from-Ends payment none s at e = at
  prepared_from-Ends payment (some swap) s at e =
      elim (Bool-cases (not (given payment.request) || not (given payment.delivery_url))) [
        | inl missing ↦ rw missing at
        | inr complete ↦ rw complete (finish_swap-Ends payment swap s at e)
      ]

  pub finish_payment_preparation-Ends :
      (payment : AttendeePayment) (s : Session)
      → At payments origin start payment s
      → Ends
          (At payments origin start)
          (At payments origin start payment)
          (finish_payment_preparation c payment s)
  unfolding finish_payment_preparation
  finish_payment_preparation-Ends payment s at = prepared_from-Ends payment payment.swap s at refl

  delivery_failed-Good :
      (payment : AttendeePayment) (e : Failure) (s : Session)
      → At payments origin start payment s
      → Good payments origin start (delivery_failed c payment e s)
  unfolding delivery_failed
  delivery_failed-Good payment e s at =
      Good-of payments origin start payment _
        (recommit_payment-Ends origin start c payment _ _ at at.1)

  commit_delivered-Ends :
      (payment : AttendeePayment) (s : Session)
      → At payments origin start payment s
      → Ends
          (At payments origin start)
          (At payments origin start payment)
          (commit_delivered c payment s)
  unfolding commit_delivered
  commit_delivered-Ends payment s at = recommit_payment-Ends origin start c payment _ _ at at.1

  -- The payment on its way: to its slot, with its payload.
  abbrev Delivering : AttendeePayment → AttendeePayment → Session → Type 0
  Delivering payment sent s =
      At payments origin start sent s
      × (sent.state ≡ PaymentState.delivering)
      × (sent.delivery_url ≡ payment.delivery_url)
      × (sent.payload_json ≡ payment.payload_json)

  commit_delivering-Ends :
      (payment : AttendeePayment) (s : Session)
      → At payments origin start payment s
      → Ends (Delivering payment) (At payments origin start payment) (commit_delivering c payment s)
  unfolding commit_delivering
  commit_delivering-Ends payment s at =
      Ends-weaken (commit_delivering c payment s)
        (recommit_payment_exact-Ends origin start c payment _ _ at at.1)
        (λ p t h. (
          h.0,
          ap (λ (x : AttendeePayment). x.state) h.1,
          ap (λ (x : AttendeePayment). x.delivery_url) h.1,
          ap (λ (x : AttendeePayment). x.payload_json) h.1,
        ))
        (λ t h. h)

  sends_payload :
      (payment delivering : AttendeePayment) (s : Session)
      → Delivering payment delivering s
      → not (given payment.delivery_url) ≡ false
      → not (given payment.payload_json) ≡ false
      → Good payments origin start (
          tries
            (delivery_failed c delivering)
            (sends
              (delivers (text_of payment.delivery_url) (text_of payment.payload_json))
              (c.relay.deliver (text_of payment.delivery_url) (text_of payment.payload_json)))
            (λ done. tries (delivery_failed c delivering) (commit_delivered c delivering) return)
            s)
  sends_payload payment delivering s (at, state, url, payload) has_url has_payload =
      tries-Good payments origin start (delivery_failed c delivering) delivering
        (delivery_failed-Good delivering) (λ a t. At payments origin start delivering t) _ _
        (sends-Ends payments origin start delivering
          (delivers (text_of payment.delivery_url) (text_of payment.payload_json))
          (c.relay.deliver (text_of payment.delivery_url) (text_of payment.payload_json)) s at
          (
            state,
            url ∙ given-some payment.delivery_url has_url,
            payload ∙ given-some payment.payload_json has_payload,
          ))
        (λ done t at'.
          tries_last-Good payments origin start (delivery_failed c delivering) delivering
            (delivery_failed-Good delivering) (commit_delivered c delivering t)
            (commit_delivered-Ends delivering t at'))

  deliver_ready-Good :
      (payment : AttendeePayment) (s : Session)
      → At payments origin start payment s
      → Good payments origin start (deliver_ready c payment s)
  unfolding deliver_ready
  deliver_ready-Good payment s at = elim (Bool-cases incomplete) [
    | inl e ↦ rw e at.0
    | inr e ↦ rw e (
        and_then-Ends (Delivering payment) (At payments origin start) (Run payments origin start)
          (commit_delivering c payment s) _
          (Ends-weaken (commit_delivering c payment s) (commit_delivering-Ends payment s at)
            (λ p t h. h) (λ t h. h.0))
          (λ delivering t h. sends_payload payment delivering t h (ground arith) (ground arith)))
  ]
    where
      incomplete : Bool
      incomplete =
          not (given payment.delivery_url)
          || not (given payment.payload_json)
          || not (given payment.token)

  deliver_found-Good :
      (payment : AttendeePayment) (s : Session)
      → At payments origin start payment s
      → Good payments origin start (deliver_found c payment s)
  unfolding deliver_found
  deliver_found-Good payment s at =
      elim (Bool-cases (is_some payment.swap && not (given payment.token))) [
        | inl e ↦ rw e (
            and_then-Ends (At payments origin start) (At payments origin start)
              (Run payments origin start) (finish_payment_preparation c payment s) (deliver_ready c)
              (Good-of payments origin start payment _
                (finish_payment_preparation-Ends payment s at))
              deliver_ready-Good)
        | inr e ↦ rw e (deliver_ready-Good payment s at)
      ]

  pub deliver_stored_payment-Good :
      (input payment : AttendeePayment) (s : Session)
      → input.id ≡ origin.id
      → At payments origin start payment s
      → Good payments origin start (deliver_stored_payment c input s)
  unfolding deliver_stored_payment
  deliver_stored_payment-Good input payment s same at =
      begins-Good origin start c MarketRole.attendee input payment s (deliver_found c) same at
        (deliver_found-Good payment s at)

  check_failed-Good :
      (payment : AttendeePayment) (e : Failure) (s : Session)
      → At payments origin start payment s
      → Good payments origin start (check_failed c payment e s)
  unfolding check_failed
  check_failed-Good payment e s at =
      Good-of payments origin start payment _
        (recommit_payment-Ends origin start c payment _ _ at at.1)

  commit_checked-Ends :
      (payment : AttendeePayment) (state : TokenSpendState) (s : Session)
      → At payments origin start payment s
      → Ends
          (At payments origin start)
          (At payments origin start payment)
          (commit_checked c payment state s)
  unfolding commit_checked
  commit_checked-Ends payment TokenSpendState.spent s at =
      recommit_payment-Ends origin start c payment _ _ at at.1
  commit_checked-Ends payment TokenSpendState.mixed s at =
      recommit_payment-Ends origin start c payment _ _ at at.1
  commit_checked-Ends payment TokenSpendState.unspent s at =
      elim (Bool-cases (is_false payment.delivery_retryable && not (is_set payment.delivered_at))) [
        | inl e ↦ rw e (recommit_payment-Ends origin start c payment _ _ at at.1)
        | inr e ↦ rw e (recommit_payment-Ends origin start c payment _ _ at at.1)
      ]
  commit_checked-Ends payment TokenSpendState.pending s at =
      elim (Bool-cases (is_false payment.delivery_retryable && not (is_set payment.delivered_at))) [
        | inl e ↦ rw e (recommit_payment-Ends origin start c payment _ _ at at.1)
        | inr e ↦ rw e (recommit_payment-Ends origin start c payment _ _ at at.1)
      ]

  check_found-Good :
      (payment : AttendeePayment) (s : Session)
      → At payments origin start payment s
      → Good payments origin start (check_found c payment s)
  unfolding check_found
  check_found-Good payment s at = elim (Bool-cases (not (given payment.token))) [
    | inl e ↦ rw e at
    | inr e ↦ rw e (
        tries_asked-Good payments origin start (check_failed c payment) payment
          (check_failed-Good payment) (c.wallet.check_token_state (text_of payment.token)) s _ at
          (λ state t at'.
            tries_last-Good payments origin start (check_failed c payment) payment
              (check_failed-Good payment) (commit_checked c payment state t)
              (commit_checked-Ends payment state t at')))
  ]

  pub check_payment-Good :
      (input payment : AttendeePayment) (s : Session)
      → input.id ≡ origin.id
      → At payments origin start payment s
      → Good payments origin start (check_payment c input s)
  unfolding check_payment
  check_payment-Good input payment s same at =
      begins-Good origin start c MarketRole.attendee input payment s (check_found c) same at
        (check_found-Good payment s at)

-- Whatever the wallet, the relay and the storage answer, delivering or checking a stored payment changes
-- no other payment, order or operation, keeps identifiers distinct, removes no proofs, completes no
-- swap but the one that is stored in the payment, and delivers nothing but the stored payload to the
-- stored slot, after the payment is stored as being delivered. The payment stays stored, with the
-- order, the amount and the vendor it had, and it is the one that is returned.
pub deliver_and_check-Run :
    (c : MarketContext) (input payment : AttendeePayment) (s : Session)
    → find_by (λ (p : AttendeePayment). p.id) input.id s.snapshot.payments ≡ some payment
    → Good payments payment s (deliver_stored_payment c input s)
      × Good payments payment s (check_payment c input s)
deliver_and_check-Run c input payment s found = (
  deliver_stored_payment-Good payment s c input payment s same at,
  check_payment-Good payment s c input payment s same at,
)
  where
    same : input.id ≡ payment.id
    same = sym (find_by-id (λ (p : AttendeePayment). p.id) input.id s.snapshot.payments found)

    at : At payments payment s payment s
    at = (start-Run payments payment s (rw same at found), (refl, refl), rw same at found)
