-- ===== src/Market/Tests/Orders.antt =====
-- A vendor's order that is paid for, from its inbox to its settlement.
use fibernuts.Common.{ok, true, none, some, [], ◌∷◌, ◌≡◌, refl}
use fibernuts.Market.Types.{MarketRole, OrderState, VendorOrder}
use fibernuts.Market.Runtime.{Session, find_by}
use fibernuts.Market.Runtime.Rules.{Ends}
use fibernuts.Market.Runtime.Run.{Run, At}
use fibernuts.Market.Runtime.Orders.Run.{orders}
use fibernuts.Market.Runtime.Settlement.{settle_order}
use fibernuts.Market.Runtime.Settlement.Verified.{Verified, settle_order-Verified}
use fibernuts.Market.Runtime.Inbox.{resume_order}
use fibernuts.Market.Runtime.Inbox.Keeps.{resume_order-Run}
use fibernuts.Market.Tests.{delivery_url, context, fresh_coin, empty_snapshot}

abbrev order : VendorOrder
order = record {
  id = "order_1";
  state = OrderState.awaiting_payment;
  event_id = "ckb-fair";
  vendor_id = "tea-stall";
  items = record { item_id = "tea"; label = "Tea"; quantity = 1; unit_price = 25 } ∷ [];
  amount = 25;
  mint_url = "https://event.example";
  description = "Tea";
  expires_at = 1300;
  request = some "creqa1";
  request_digest = some "digest";
  delivery_url = some delivery_url;
  read_capability = some "rrr";
  write_capability = some "www";
  private_key = some "01";
  public_key = some "02ab";
  incoming_token = none;
  incoming_swap = none;
  relay_registered = some true;
  relay_acknowledged = none;
  created_at = 900000;
  updated_at = 900000;
  error = none;
}

abbrev session_of : VendorOrder → Session
session_of o = record {
  snapshot = record (empty_snapshot MarketRole.vendor []) { orders = o ∷ [] };
  readings = 0;
  calls = [];
}

-- The order once it is settled.
abbrev settled : VendorOrder
settled = record order {
  state = OrderState.settled;
  request = none;
  request_digest = none;
  delivery_url = none;
  read_capability = none;
  write_capability = none;
  private_key = none;
  relay_acknowledged = some true;
  updated_at = 1000000;
}

stored :
    find_by (λ (o : VendorOrder). o.id) order.id (session_of order).snapshot.orders ≡ some order
unfolding find_by
stored = refl

resume_order-Run_example :
    Ends
      (At orders order (session_of order))
      (Run orders order (session_of order))
      (resume_order context order (session_of order))
resume_order-Run_example = resume_order-Run context order order (session_of order) stored

resumed : (resume_order context order (session_of order)).0 ≡ ok settled
unfolding fibernuts.Js.Text.to_lower fibernuts.Js.Text.drop_slash fibernuts.Js.Text.strip_slashes
    fibernuts.Wallet.PaymentRequest.normalize_mint_url fibernuts.Wallet.PaymentRequest.has_escape
    fibernuts.Market.Runtime.assert_role fibernuts.Market.Runtime.find_by
    fibernuts.Market.Runtime.replace fibernuts.Market.Runtime.commit_order
    fibernuts.Market.Runtime.Orders.commit_state fibernuts.Market.Runtime.Orders.other_mint
    fibernuts.Market.Runtime.Settlement.settle_order
    fibernuts.Market.Runtime.Settlement.settle_stored
    fibernuts.Market.Runtime.Settlement.settle_token
    fibernuts.Market.Runtime.Settlement.settle_inspected
    fibernuts.Market.Runtime.Settlement.mismatch fibernuts.Market.Runtime.Settlement.settle_matched
    fibernuts.Market.Runtime.Settlement.settle_locked
    fibernuts.Market.Runtime.Settlement.settle_checked
    fibernuts.Market.Runtime.Settlement.settle_prepared
    fibernuts.Market.Runtime.Settlement.commit_swapping
    fibernuts.Market.Runtime.Settlement.settle_swap
    fibernuts.Market.Runtime.Settlement.commit_settled
    fibernuts.Market.Runtime.Orders.payment_payload fibernuts.Market.Runtime.Inbox.resume_order
    fibernuts.Market.Runtime.Inbox.poll_order fibernuts.Market.Runtime.Inbox.poll_found
    fibernuts.Market.Runtime.Inbox.poll_answer fibernuts.Market.Runtime.Inbox.poll_payload
    fibernuts.Market.Runtime.Inbox.accept_payload fibernuts.Market.Runtime.Inbox.commit_received
    fibernuts.Market.Runtime.Inbox.acknowledge_received
    fibernuts.Market.Runtime.Inbox.commit_acknowledged
resumed = refl

gained : (resume_order context order (session_of order)).1.snapshot.proofs ≡ fresh_coin ∷ []
unfolding fibernuts.Js.Text.to_lower fibernuts.Js.Text.drop_slash fibernuts.Js.Text.strip_slashes
    fibernuts.Wallet.PaymentRequest.normalize_mint_url fibernuts.Wallet.PaymentRequest.has_escape
    fibernuts.Market.Runtime.assert_role fibernuts.Market.Runtime.find_by
    fibernuts.Market.Runtime.replace fibernuts.Market.Runtime.commit_order
    fibernuts.Market.Runtime.Orders.commit_state fibernuts.Market.Runtime.Orders.other_mint
    fibernuts.Market.Runtime.Settlement.settle_order
    fibernuts.Market.Runtime.Settlement.settle_stored
    fibernuts.Market.Runtime.Settlement.settle_token
    fibernuts.Market.Runtime.Settlement.settle_inspected
    fibernuts.Market.Runtime.Settlement.mismatch fibernuts.Market.Runtime.Settlement.settle_matched
    fibernuts.Market.Runtime.Settlement.settle_locked
    fibernuts.Market.Runtime.Settlement.settle_checked
    fibernuts.Market.Runtime.Settlement.settle_prepared
    fibernuts.Market.Runtime.Settlement.commit_swapping
    fibernuts.Market.Runtime.Settlement.settle_swap
    fibernuts.Market.Runtime.Settlement.commit_settled
    fibernuts.Market.Runtime.Orders.payment_payload fibernuts.Market.Runtime.Inbox.resume_order
    fibernuts.Market.Runtime.Inbox.poll_order fibernuts.Market.Runtime.Inbox.poll_found
    fibernuts.Market.Runtime.Inbox.poll_answer fibernuts.Market.Runtime.Inbox.poll_payload
    fibernuts.Market.Runtime.Inbox.accept_payload fibernuts.Market.Runtime.Inbox.commit_received
    fibernuts.Market.Runtime.Inbox.acknowledge_received
    fibernuts.Market.Runtime.Inbox.commit_acknowledged
gained = refl

abbrev received : VendorOrder
received = record order {
  state = OrderState.payload_received;
  incoming_token = some "cashuA1";
  relay_acknowledged = some true;
}

stored_received :
    find_by (λ (o : VendorOrder). o.id) received.id (session_of received).snapshot.orders
    ≡ some received
unfolding find_by
stored_received = refl

abbrev after : Session
after = record {
  snapshot = record (empty_snapshot MarketRole.vendor (fresh_coin ∷ [])) { orders = settled ∷ [] };
  readings = 3;
  calls = (settle_order context received (session_of received)).1.calls;
}

settled_now : settle_order context received (session_of received) ≡ (ok settled, after)
unfolding fibernuts.Js.Text.to_lower fibernuts.Js.Text.drop_slash fibernuts.Js.Text.strip_slashes
    fibernuts.Wallet.PaymentRequest.normalize_mint_url fibernuts.Wallet.PaymentRequest.has_escape
    fibernuts.Market.Runtime.assert_role fibernuts.Market.Runtime.find_by
    fibernuts.Market.Runtime.replace fibernuts.Market.Runtime.commit_order
    fibernuts.Market.Runtime.Orders.commit_state fibernuts.Market.Runtime.Orders.other_mint
    fibernuts.Market.Runtime.Settlement.settle_order
    fibernuts.Market.Runtime.Settlement.settle_stored
    fibernuts.Market.Runtime.Settlement.settle_token
    fibernuts.Market.Runtime.Settlement.settle_inspected
    fibernuts.Market.Runtime.Settlement.mismatch fibernuts.Market.Runtime.Settlement.settle_matched
    fibernuts.Market.Runtime.Settlement.settle_locked
    fibernuts.Market.Runtime.Settlement.settle_checked
    fibernuts.Market.Runtime.Settlement.settle_prepared
    fibernuts.Market.Runtime.Settlement.commit_swapping
    fibernuts.Market.Runtime.Settlement.settle_swap
    fibernuts.Market.Runtime.Settlement.commit_settled
settled_now = refl

settle_order-Verified_example : Verified context received
settle_order-Verified_example =
    settle_order-Verified context received received (session_of received) {o = settled} {t = after}
      stored_received refl settled_now refl
