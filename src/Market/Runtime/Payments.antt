-- ===== src/Market/Runtime/Payments.antt =====
-- The payments of an attendee: `reviewPayment`, `confirmPayment`, `deliverStoredPayment` and
-- `checkPayment` of market/src/domain/market-runtime.ts.
pub mod Run
pub mod Keeps
pub mod Once
pub mod Delivery
use fibernuts.Common.{
  Throwing, ok, err, ℕ, ◌+◌, ◌/◌, ◌^◌, ◌-◌, String, Bool, true, false, not, Option, none, some,
  List, [], ◌∷◌, ◌++◌, leb, ◌==◌, str_eq, any, is_some, ◌&&◌, ◌||◌, if◌then◌else◌,
}
use fibernuts.Js.{Number, nat, max_safe_integer}
use fibernuts.Js.Text.{◌⧺◌}
use fibernuts.Market.Types.{
  Proof, StoredSwapPreview, MarketRole, PaymentState, AttendeePayment, MarketSnapshot, given,
  is_false, is_set,
}
use fibernuts.Market.Errors.{Failure, plain_error, relay_error, Attempt}
use fibernuts.Market.Payment.{
  LockOptions, ValidatedEventRequest, PaymentPayload, validate_event_payment_request,
  create_payment_payload,
}
use fibernuts.Market.Ports.{
  TokenSpendState, PreparedSend, offline, by_swap, SentToken, MarketContext,
}
use fibernuts.Market.Runtime.{
  completes_send, delivers, Session, Runtime, return, raise, asked, sends, reads, ◌>>=◌, ◌>>◌,
  tries, fails_if, find_by, or_else, assert_role, now, commit_payment,
}

pub record PaymentReview : Type 0 where
  pub validated : ValidatedEventRequest
  pub swap : StoredSwapPreview
  pub balance : ℕ
  pub debit : ℕ
  pub fee : ℕ
  pub proof_fingerprint : String

-- `sumProofs` of wallet/src/lib/wallet.ts.
unfoldable pub sum_proofs : List Proof → ℕ
sum_proofs [] = 0
sum_proofs (p ∷ ps) = p.amount + sum_proofs ps

-- `deliveryCanRetry`.
unfoldable pub delivery_can_retry : Failure → Bool
delivery_can_retry (relay_error text (some status)) =
    status == 408 || status == 429 || leb 500 status
delivery_can_retry _ = true

abbrev pub text_of : Option String → String
text_of none = ""
text_of (some s) = s

-- The amount of a validated request, which is a natural number.
abbrev pub amount_of : Number → ℕ
amount_of (nat n) = n
amount_of _ = 0

abbrev no_lock : Option LockOptions → Runtime LockOptions
no_lock none = raise (plain_error "The vendor-only payment lock is unavailable.")
no_lock (some lock) = return lock

module _ (c : MarketContext) where
  open c use {manifest, wallet, relay, platform, describe, fingerprint, stringify, new_id}

  abbrev pub is_paid_in : String → MarketSnapshot → Bool
  is_paid_in order_id s = any (λ (p : AttendeePayment). str_eq p.order_id order_id) s.payments

  abbrev pub stored_payment : AttendeePayment → Runtime AttendeePayment
  stored_payment input =
      reads (λ s. or_else (find_by (λ (p : AttendeePayment). p.id) input.id s.payments) input)

  -- `validateEventPaymentRequest` with its default clock.
  abbrev pub validated_now : String → ℕ → Runtime ValidatedEventRequest
  validated_now encoded balance = do
    date ← now c
    asked (validate_event_payment_request platform encoded manifest balance (date / 1000))

  abbrev reviewed : ValidatedEventRequest → MarketSnapshot → PreparedSend → Runtime PaymentReview
  reviewed validated current (offline keep send debit fee) =
      raise (plain_error "Locked market payments must use a prepared swap.")
  reviewed validated current (by_swap swap debit fee) = return (record {
    validated = validated;
    swap = swap;
    balance = sum_proofs current.proofs;
    debit = debit;
    fee = fee;
    proof_fingerprint = fingerprint current.proofs;
  })

  unfoldable pub review_payment : String → Runtime PaymentReview
  review_payment encoded = do
    assert_role MarketRole.attendee
    current ← reads (λ s. s)
    validated ← validated_now encoded (sum_proofs current.proofs)
    fails_if (is_paid_in validated.order_id current)
        "This single-use order already has a payment. Open Activity to inspect it."
    options ← asked (platform.lock_options validated.request.encoded)
    lock ← no_lock options
    prepared ←
        asked (wallet.prepare_send (amount_of validated.request.amount) current.proofs (some lock))
    reviewed validated current prepared

  unfoldable pub new_payment : PaymentReview → ℕ → AttendeePayment
  new_payment review time = record {
    id = new_id;
    order_id = review.validated.order_id;
    state = PaymentState.preparing;
    amount = amount_of review.validated.request.amount;
    fee = review.fee;
    mint_url = manifest.mint_url;
    vendor_name = review.validated.vendor.name;
    description = review.validated.request.description;
    request = some review.validated.request.encoded;
    delivery_url = some review.validated.delivery_url;
    payload_json = none;
    token = none;
    swap = some review.swap;
    delivery_retryable = none;
    delivered_at = none;
    proof_state_checked_at = none;
    created_at = time;
    updated_at = time;
    error = none;
  }

  -- `{ ...payment, state: "ready_to_deliver", token, payloadJson, swap: undefined, … }`.
  unfoldable pub commit_ready :
      AttendeePayment → SentToken → PaymentPayload → Runtime AttendeePayment
  commit_ready payment sent payload = do
    time ← now c
    current ← reads (λ s. s.proofs)
    commit_payment c
        (record payment {
          state = PaymentState.ready_to_deliver;
          token = some sent.token;
          payload_json = some (stringify payload);
          swap = none;
          updated_at = time;
          error = none;
        })
        (some (current ++ sent.change))

  abbrev pub incomplete : Runtime AttendeePayment
  incomplete = raise (plain_error "Stored payment preparation data is incomplete.")

  -- The payload of a payment whose swap has been completed.
  unfoldable pub payload_of : ValidatedEventRequest → SentToken → Attempt PaymentPayload
  payload_of request sent =
      create_payment_payload platform wallet.mint_url wallet.unit (wallet.inspect_token sent.token)
        request.request

  unfoldable pub make_ready :
      AttendeePayment → ValidatedEventRequest → SentToken → Runtime AttendeePayment
  make_ready payment request sent =
      asked (payload_of request sent) >>= λ payload. commit_ready payment sent payload

  unfoldable pub complete_send :
      AttendeePayment → StoredSwapPreview → ValidatedEventRequest → Runtime AttendeePayment
  complete_send payment swap request =
      sends (completes_send swap) (wallet.complete_prepared_send swap)
      >>= make_ready payment request

  unfoldable pub finish_swap : AttendeePayment → StoredSwapPreview → Runtime AttendeePayment
  finish_swap payment swap =
      validated_now (text_of payment.request) max_safe_integer >>= complete_send payment swap

  abbrev pub prepared_from : AttendeePayment → Option StoredSwapPreview → Runtime AttendeePayment
  prepared_from payment none = incomplete
  prepared_from payment (some swap) =
      if not (given payment.request) || not (given payment.delivery_url)
      then incomplete
      else finish_swap payment swap

  -- `finishPaymentPreparation`.
  unfoldable pub finish_payment_preparation : AttendeePayment → Runtime AttendeePayment
  finish_payment_preparation payment = prepared_from payment payment.swap

  unfoldable pub commit_delivered : AttendeePayment → Runtime AttendeePayment
  commit_delivered payment = do
    delivered ← now c
    time ← now c
    commit_payment c
        (record payment {
          state = PaymentState.delivered;
          delivery_retryable = none;
          delivered_at = some delivered;
          updated_at = time;
          error = none;
        })
        none

  -- The handler of the delivery.
  unfoldable pub delivery_failed : AttendeePayment → Failure → Runtime AttendeePayment
  delivery_failed payment e = do
    time ← now c
    commit_payment c
        (record payment {
          state = PaymentState.recoverable;
          delivery_retryable = some (delivery_can_retry e);
          updated_at = time;
          error = some (
              (if delivery_can_retry e
                then "The same stored payment can be retried. "
                else "Delivery was rejected and will not be retried automatically. ")
              ⧺ describe e);
        })
        none

  unfoldable pub commit_delivering : AttendeePayment → Runtime AttendeePayment
  commit_delivering payment = do
    time ← now c
    commit_payment c
        (record payment {
          state = PaymentState.delivering;
          delivery_retryable = some true;
          updated_at = time;
          error = none;
        })
        none

  -- The delivery of a payment whose token is at hand.
  unfoldable pub deliver_ready : AttendeePayment → Runtime AttendeePayment
  deliver_ready payment =
      if not (given payment.delivery_url)
        || not (given payment.payload_json)
        || not (given payment.token)
      then raise (plain_error "The stored delivery payload is incomplete.")
      else (do
        delivering ← commit_delivering payment
        let url = text_of payment.delivery_url
        let payload = text_of payment.payload_json
        tries (delivery_failed delivering)
            (sends (delivers url payload) (relay.deliver url payload))
            λ done. tries (delivery_failed delivering) (commit_delivered delivering) return)

  unfoldable pub deliver_found : AttendeePayment → Runtime AttendeePayment
  deliver_found payment =
      if is_some payment.swap && not (given payment.token)
      then finish_payment_preparation payment >>= deliver_ready
      else deliver_ready payment

  unfoldable pub deliver_stored_payment : AttendeePayment → Runtime AttendeePayment
  deliver_stored_payment input = do
    assert_role MarketRole.attendee
    payment ← stored_payment input
    deliver_found payment

  unfoldable pub preparation_failed : AttendeePayment → Failure → Runtime AttendeePayment
  preparation_failed payment e = do
    time ← now c
    commit_payment c
        (record payment {
          state = PaymentState.recoverable;
          updated_at = time;
          error = some ("Payment preparation is stored for retry. " ⧺ describe e);
        })
        none

  -- What follows the first commit of a payment.
  unfoldable pub prepare_and_deliver : AttendeePayment → Runtime AttendeePayment
  prepare_and_deliver payment =
      tries (preparation_failed payment) (finish_payment_preparation payment) deliver_stored_payment

  unfoldable pub commit_confirmed : PaymentReview → Runtime AttendeePayment
  unfolding new_payment
  commit_confirmed review = do
    time ← now c
    commit_payment c (new_payment review time) (some (or_else review.swap.unselected_proofs []))

  -- The payment of a review that is as it was: validated again, stored, prepared and delivered.
  unfoldable pub confirm_checked : PaymentReview → MarketSnapshot → Runtime AttendeePayment
  confirm_checked review current = do
    validated_now review.validated.request.encoded (sum_proofs current.proofs)
    payment ← commit_confirmed review
    prepare_and_deliver payment

  unfoldable pub confirm_from : PaymentReview → MarketSnapshot → Runtime AttendeePayment
  confirm_from review current =
      if is_paid_in review.validated.order_id current
      then raise
          (plain_error "This single-use order already has a payment. Open Activity to inspect it.")
      else if not (str_eq (fingerprint current.proofs) review.proof_fingerprint)
      then raise
          (plain_error "The ecash balance changed. Review the recalculated debit before paying.")
      else confirm_checked review current

  unfoldable pub confirm_payment : PaymentReview → Runtime AttendeePayment
  confirm_payment review = do
    assert_role MarketRole.attendee
    current ← reads (λ s. s)
    confirm_from review current

  abbrev pub two_times : (ℕ → ℕ → AttendeePayment) → Runtime AttendeePayment
  two_times f = do checked ← now c; time ← now c; commit_payment c (f checked time) none

  -- What `checkPayment` commits for each answer of the mint.
  unfoldable pub commit_checked : AttendeePayment → TokenSpendState → Runtime AttendeePayment
  commit_checked payment TokenSpendState.spent = two_times λ checked time. record payment {
    state = PaymentState.spent;
    token = none;
    payload_json = none;
    request = none;
    delivery_url = none;
    delivery_retryable = none;
    proof_state_checked_at = some checked;
    updated_at = time;
    error = none;
  }
  commit_checked payment TokenSpendState.unspent = two_times λ checked time.
      if is_false payment.delivery_retryable && not (is_set payment.delivered_at)
      then record payment { proof_state_checked_at = some checked; updated_at = time }
      else record payment {
        state = PaymentState.unspent;
        proof_state_checked_at = some checked;
        updated_at = time;
        error = none;
      }
  commit_checked payment TokenSpendState.pending = two_times λ checked time.
      if is_false payment.delivery_retryable && not (is_set payment.delivered_at)
      then record payment { proof_state_checked_at = some checked; updated_at = time }
      else record payment {
        state = PaymentState.pending;
        proof_state_checked_at = some checked;
        updated_at = time;
        error =
            some
              "The mint reports that the payment proofs are pending. No final state is known yet.";
      }
  commit_checked payment TokenSpendState.mixed = two_times λ checked time. record payment {
    state = PaymentState.recoverable;
    proof_state_checked_at = some checked;
    updated_at = time;
    error = some "The payment proofs have mixed states. Keep this record and check again.";
  }

  unfoldable pub check_failed : AttendeePayment → Failure → Runtime AttendeePayment
  check_failed payment e = do
    time ← now c
    commit_payment c
        (record payment {
          state = PaymentState.recoverable;
          updated_at = time;
          error = some ("Proof state is unavailable. " ⧺ describe e);
        })
        none

  unfoldable pub check_found : AttendeePayment → Runtime AttendeePayment
  check_found payment =
      if not (given payment.token)
      then return payment
      else tries (check_failed payment) (asked (wallet.check_token_state (text_of payment.token)))
          λ state. tries (check_failed payment) (commit_checked payment state) return

  unfoldable pub check_payment : AttendeePayment → Runtime AttendeePayment
  check_payment input = do
    assert_role MarketRole.attendee
    payment ← stored_payment input
    check_found payment
