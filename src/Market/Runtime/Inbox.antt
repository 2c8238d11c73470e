-- ===== src/Market/Runtime/Inbox.antt =====
-- `pollOrder` and `cancelOrder` of market/src/domain/market-runtime.ts, and the resumption of an order
-- by market/src/hooks/useMarket.ts.
pub mod Keeps
use fibernuts.Common.{
  Throwing, ok, err, ℕ, ◌+◌, String, Bool, true, false, not, Option, none, some, List, [], ◌∷◌,
  ◌==◌, str_eq, is_some, ◌&&◌, ◌||◌, if◌then◌else◌,
}
use fibernuts.Common as Common
use fibernuts.Js.Text.{◌⧺◌, to_lower}
use fibernuts.Market.Types.{
  Proof, MarketRole, OrderState, VendorOrder, MarketSnapshot, given, is_true,
}
use fibernuts.Market.Errors.{Failure, plain_error, Attempt}
use fibernuts.Market.Ports.{MarketContext, DeliveredPayload}
use fibernuts.Market.Runtime.{
  Session, Runtime, return, raise, asked, ◌>>=◌, ◌>>◌, tries, assert_role, now, commit_order,
}
use fibernuts.Market.Runtime.Orders.{
  ReceivedPayload, payment_payload, is_gone, is_conflict, is_settled, commit_state, stored_order,
  other_mint, register_stored_order, acknowledge_settled_order, expire_order, is_past,
  recoverable_with, text_of,
}
use fibernuts.Market.Runtime.Settlement.{ends_with, settle_order}

abbrev pub is_cancelling : OrderState → Bool
is_cancelling OrderState.cancelling = true
is_cancelling _ = false

module _ (c : MarketContext) where
  open c use {wallet, relay, describe}

  unfoldable pub expire_if : VendorOrder → Failure → Bool → Runtime VendorOrder
  expire_if order e past = if past then expire_order c order else recoverable_with c order e

  -- The handler of `pollOrder`.
  unfoldable pub poll_failed : VendorOrder → Failure → Runtime VendorOrder
  poll_failed order e =
      if is_gone e then is_past c order >>= expire_if order e else recoverable_with c order e

  unfoldable pub commit_acknowledged : VendorOrder → Runtime VendorOrder
  commit_acknowledged order = do
    time ← now c
    commit_order c (record order { relay_acknowledged = some true; updated_at = time }) none

  unfoldable pub acknowledgement_failed : VendorOrder → Failure → Runtime VendorOrder
  acknowledgement_failed order e = do
    time ← now c
    commit_order c
        (record order {
          relay_acknowledged = some false;
          updated_at = time;
          error =
              some
                ("Payment is stored locally; relay acknowledgement will be retried. " ⧺ describe e);
        })
        none

  -- The acknowledgement of an order that holds its token, in a `try` of its own.
  unfoldable pub acknowledge_received : VendorOrder → Runtime VendorOrder
  acknowledge_received order =
      tries (acknowledgement_failed order)
        (asked (relay.acknowledge (text_of order.read_capability)))
        λ done. tries (acknowledgement_failed order) (commit_acknowledged order) return

  -- `{ ...order, state: "payload_received", incomingToken: token, … }`.
  unfoldable pub commit_received : VendorOrder → String → Runtime VendorOrder
  commit_received order token = do
    time ← now c
    commit_order c
        (record order {
          state = OrderState.payload_received;
          incoming_token = some token;
          updated_at = time;
          error = none;
        })
        none

  -- A payload of this order, at its mint and in its unit: it is stored, then acknowledged, then settled.
  -- What settling throws leaves `pollOrder`, whose handler is not asked.
  unfoldable pub accept_payload : VendorOrder → ReceivedPayload → Runtime VendorOrder
  accept_payload order payload =
      tries (poll_failed order) (asked (wallet.encode_proofs payload.proofs)) λ token.
        tries (poll_failed order) (commit_received order token)
          λ received. tries (poll_failed received) (acknowledge_received received) (settle_order c)

  -- `payload.unit.toLowerCase() !== "rusd" || …`.
  abbrev pub foreign : ReceivedPayload → Attempt Bool
  foreign payload =
      if not (str_eq (to_lower payload.unit) "rusd") then ok true else other_mint c payload.mint

  unfoldable pub poll_payload : VendorOrder → ReceivedPayload → Runtime VendorOrder
  poll_payload order payload =
      if not (str_eq payload.id order.id)
      then tries (poll_failed order)
          (commit_state c order OrderState.rejected
            (some "The delivered payment belongs to another order."))
          return
      else tries (poll_failed order) (asked (foreign payload)) λ wrong.
        if wrong
        then tries (poll_failed order)
            (commit_state c order OrderState.rejected
              (some "The delivered payment has the wrong mint or unit."))
            return
        else accept_payload order payload

  unfoldable pub poll_answer : VendorOrder → Option DeliveredPayload → Runtime VendorOrder
  poll_answer order none =
      tries (poll_failed order) (is_past c order) λ past.
        if past then tries (poll_failed order) (expire_order c order) return else return order
  poll_answer order (some payload) =
      tries (poll_failed order) (asked (payment_payload payload)) (poll_payload order)

  -- `pollOrder` of the stored order.
  unfoldable pub poll_found : VendorOrder → Runtime VendorOrder
  poll_found order =
      if is_settled order.state
        && not (is_true order.relay_acknowledged)
        && given order.read_capability
      then acknowledge_settled_order c order
      else if given order.incoming_token || is_some order.incoming_swap
      then settle_order c order
      else if not (given order.read_capability)
      then raise (plain_error "The stored order has no private inbox capability.")
      else tries (poll_failed order) (asked (relay.read (text_of order.read_capability)))
          (poll_answer order)

  unfoldable pub poll_order : VendorOrder → Runtime VendorOrder
  poll_order input = do
    assert_role MarketRole.vendor
    order ← stored_order c input
    poll_found order

  -- `{ ...order, state: "cancelled", … }`.
  unfoldable pub commit_cancelled : VendorOrder → Runtime VendorOrder
  commit_cancelled order = do
    time ← now c
    commit_order c
        (record order {
          state = OrderState.cancelled;
          request = none;
          request_digest = none;
          delivery_url = none;
          read_capability = none;
          write_capability = none;
          private_key = none;
          updated_at = time;
        })
        none

  abbrev pub cancel_failed : VendorOrder → Failure → Runtime VendorOrder
  cancel_failed order e = if is_conflict e then poll_order order else recoverable_with c order e

  -- `cancelOrder` of the stored order.
  unfoldable pub cancel_found : VendorOrder → Runtime VendorOrder
  cancel_found order =
      if not (given order.read_capability)
      then raise (plain_error "The stored order cannot be cancelled.")
      else (do
        cancelling ← commit_state c order OrderState.cancelling none
        tries (cancel_failed cancelling) (asked (relay.cancel (text_of order.read_capability)))
            λ done. tries (cancel_failed cancelling) (commit_cancelled cancelling) return)

  unfoldable pub cancel_order : VendorOrder → Runtime VendorOrder
  cancel_order input = do
    assert_role MarketRole.vendor
    order ← stored_order c input
    cancel_found order

  -- `pollOrder` of market/src/hooks/useMarket.ts, which resumes an order where it stands.
  unfoldable pub resume_order : VendorOrder → Runtime VendorOrder
  resume_order order =
      if is_cancelling order.state
      then cancel_order order
      else if not (is_true order.relay_registered)
          && not (given order.incoming_token)
          && not (is_some order.incoming_swap)
      then register_stored_order c order
      else poll_order order
