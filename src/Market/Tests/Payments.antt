-- ===== src/Market/Tests/Payments.antt =====
-- An attendee's payment, from its review to its delivery.
use fibernuts.Common.{ok, err, ◌⊎◌, true, none, some, [], ◌∷◌, ◌≡◌, refl}
use fibernuts.Js.{nat}
use fibernuts.Market.Types.{MarketRole, PaymentState, AttendeePayment}
use fibernuts.Market.Errors.{Failure}
use fibernuts.Market.Payment.{p2pk_lock}
use fibernuts.Market.Ports.{MarketContext}
use fibernuts.Market.Runtime.{Session, find_by}
use fibernuts.Market.Runtime.Run.{Good}
use fibernuts.Market.Runtime.Payments.{
  PaymentReview, review_payment, deliver_stored_payment, confirm_payment, check_payment,
}
use fibernuts.Market.Runtime.Payments.Run.{payments}
use fibernuts.Market.Runtime.Payments.Keeps.{deliver_and_check-Run}
use fibernuts.Market.Runtime.Payments.Once.{at_once, confirm_payment-once}
use fibernuts.Market.Runtime.Payments.Delivery.{
  IsReady, DeliveryOf, deliver_stored_payment-DeliveryOf,
}
use fibernuts.Market.Tests.{delivery_url, context, tea, transport, coin, swap, empty_snapshot}

abbrev review : PaymentReview
review = record {
  validated = record {
    request = record {
      id = some "order_1";
      amount = nat 25;
      unit = "rusd";
      mints = "https://event.example" ∷ [];
      description = "Tea";
      single_use = true;
      transport = transport ∷ [];
      nut10 = some (p2pk_lock "02ab");
      encoded = "creqa1";
    };
    order_id = "order_1";
    vendor = tea;
    expires_at = 1300;
    delivery_url = delivery_url;
    lock_public_key = "02ab";
  };
  swap = swap;
  balance = 25;
  debit = 25;
  fee = 0;
  proof_fingerprint = "proofs";
}

abbrev before : Session
before = record {
  snapshot = empty_snapshot MarketRole.attendee (coin ∷ []);
  readings = 0;
  calls = [];
}

reviewed : (review_payment context "creqa1" before).0 ≡ ok review
unfolding fibernuts.Js.Text.to_lower fibernuts.Js.Text.drop_slash fibernuts.Js.Text.strip_slashes
    fibernuts.Wallet.PaymentRequest.normalize_mint_url fibernuts.Wallet.PaymentRequest.has_escape
    fibernuts.Js.Text.trim fibernuts.Js.Text.trim_start fibernuts.Js.Text.trim_end
    fibernuts.Js.Text.is_space fibernuts.Wallet.PaymentRequest.decode_payment_request
    fibernuts.Wallet.PaymentRequest.valid_amount fibernuts.Wallet.PaymentRequest.normalize_all
    fibernuts.Wallet.PaymentRequest.validate_payment_request
    fibernuts.Wallet.PaymentRequest.post_transport fibernuts.Js.includes fibernuts.Js.property
    fibernuts.Js.Text.after_prefix fibernuts.Js.Text.matches fibernuts.Js.Text.every_char
    fibernuts.Js.Text.is_word fibernuts.Js.Text.utf16_length
    fibernuts.Market.Payment.validate_event_payment_request fibernuts.Market.Payment.event_transport
    fibernuts.Market.Payment.event_metadata fibernuts.Market.Payment.event_lock
    fibernuts.Market.Payment.is_delivery_path fibernuts.Market.Payment.metadata_get
    fibernuts.Market.Payment.tags_from fibernuts.Market.Payment.find_vendor
    fibernuts.Market.Runtime.assert_role fibernuts.Market.Runtime.find_by
    fibernuts.Market.Runtime.replace fibernuts.Market.Runtime.Payments.review_payment
    fibernuts.Market.Runtime.Payments.sum_proofs
reviewed = refl

-- The browser as it is when it tries again: another identifier is drawn.
abbrev again : MarketContext
again = record context { new_id = "payment-2" }

confirm_payment-once_example :
    ((confirm_payment context review before).1.snapshot ≡ before.snapshot)
      × ((confirm_payment context review before).1.calls ≡ before.calls)
    ⊎ ((e : Failure) × (confirm_payment again review (confirm_payment context review before).1
          ≡ (err e, (confirm_payment context review before).1)))
confirm_payment-once_example =
    confirm_payment-once context again review review before
      (confirm_payment context review before).1 at_once refl

abbrev payment : AttendeePayment
payment = record {
  id = "payment-1";
  order_id = "order_1";
  state = PaymentState.ready_to_deliver;
  amount = 25;
  fee = 0;
  mint_url = "https://event.example";
  vendor_name = "Tea stall";
  description = "Tea";
  request = some "creqa1";
  delivery_url = some delivery_url;
  payload_json = some "payload";
  token = some "cashuA1";
  swap = none;
  delivery_retryable = none;
  delivered_at = none;
  proof_state_checked_at = none;
  created_at = 1000000;
  updated_at = 1000000;
  error = none;
}

abbrev ready : Session
ready = record {
  snapshot = record (empty_snapshot MarketRole.attendee []) { payments = payment ∷ [] };
  readings = 0;
  calls = [];
}

-- The payment once it is delivered.
confirmed :
    (confirm_payment context review before).0
    ≡ ok (record payment { state = PaymentState.delivered; delivered_at = some 1000000 })
unfolding fibernuts.Js.Text.to_lower fibernuts.Js.Text.drop_slash fibernuts.Js.Text.strip_slashes
    fibernuts.Wallet.PaymentRequest.normalize_mint_url fibernuts.Wallet.PaymentRequest.has_escape
    fibernuts.Js.Text.trim fibernuts.Js.Text.trim_start fibernuts.Js.Text.trim_end
    fibernuts.Js.Text.is_space fibernuts.Wallet.PaymentRequest.decode_payment_request
    fibernuts.Wallet.PaymentRequest.valid_amount fibernuts.Wallet.PaymentRequest.normalize_all
    fibernuts.Wallet.PaymentRequest.validate_payment_request
    fibernuts.Wallet.PaymentRequest.post_transport fibernuts.Js.includes fibernuts.Js.property
    fibernuts.Js.Text.after_prefix fibernuts.Js.Text.matches fibernuts.Js.Text.every_char
    fibernuts.Js.Text.is_word fibernuts.Js.Text.utf16_length
    fibernuts.Market.Payment.validate_event_payment_request fibernuts.Market.Payment.event_transport
    fibernuts.Market.Payment.event_metadata fibernuts.Market.Payment.event_lock
    fibernuts.Market.Payment.is_delivery_path fibernuts.Market.Payment.metadata_get
    fibernuts.Market.Payment.tags_from fibernuts.Market.Payment.find_vendor
    fibernuts.Market.Runtime.assert_role fibernuts.Market.Runtime.find_by
    fibernuts.Market.Runtime.replace fibernuts.Market.Runtime.Payments.sum_proofs
    fibernuts.Market.Runtime.commit_payment fibernuts.Market.Payment.create_payment_payload
    fibernuts.Market.Runtime.Payments.confirm_payment fibernuts.Market.Runtime.Payments.confirm_from
    fibernuts.Market.Runtime.Payments.confirm_checked
    fibernuts.Market.Runtime.Payments.commit_confirmed fibernuts.Market.Runtime.Payments.new_payment
    fibernuts.Market.Runtime.Payments.prepare_and_deliver
    fibernuts.Market.Runtime.Payments.finish_payment_preparation
    fibernuts.Market.Runtime.Payments.finish_swap fibernuts.Market.Runtime.Payments.complete_send
    fibernuts.Market.Runtime.Payments.make_ready fibernuts.Market.Runtime.Payments.payload_of
    fibernuts.Market.Runtime.Payments.commit_ready
    fibernuts.Market.Runtime.Payments.deliver_stored_payment
    fibernuts.Market.Runtime.Payments.deliver_found fibernuts.Market.Runtime.Payments.deliver_ready
    fibernuts.Market.Runtime.Payments.commit_delivering
    fibernuts.Market.Runtime.Payments.commit_delivered
confirmed = refl

stored : find_by (λ (p : AttendeePayment). p.id) payment.id ready.snapshot.payments ≡ some payment
unfolding find_by
stored = refl

deliver_and_check-Run_example :
    Good payments payment ready (deliver_stored_payment context payment ready)
    × Good payments payment ready (check_payment context payment ready)
deliver_and_check-Run_example = deliver_and_check-Run context payment payment ready stored

payment-IsReady : IsReady payment
payment-IsReady = record {
  url = refl;
  payload = refl;
  token = refl;
  swapped = refl;
  undelivered = refl;
}

deliver_stored_payment-DeliveryOf_example :
    (q : AttendeePayment) × (t : Session) × (deliver_stored_payment context payment ready
      ≡ (ok q, t))
    × DeliveryOf (ok tt) q
deliver_stored_payment-DeliveryOf_example =
    deliver_stored_payment-DeliveryOf context (λ s. refl) payment payment ready refl stored
      payment-IsReady
