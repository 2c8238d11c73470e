-- ===== src/Market/Runtime/Settlement.antt =====
-- `settleOrder` of market/src/domain/market-runtime.ts: how a vendor makes a delivered token its own.
pub mod Keeps
pub mod Verified
use fibernuts.Common.{
  Throwing, ok, err, ℕ, ◌+◌, String, Bool, true, false, not, Option, none, some, List, [], ◌∷◌,
  ◌++◌, ◌==◌, str_eq, ◌&&◌, ◌||◌, if◌then◌else◌,
}
use fibernuts.Common as Common
use fibernuts.Js.Text.{to_lower}
use fibernuts.Market.Types.{
  Proof, StoredSwapPreview, MarketRole, OrderState, VendorOrder, MarketSnapshot, given, is_true,
}
use fibernuts.Market.Errors.{Failure, plain_error, Attempt}
use fibernuts.Market.Payment.{InspectedToken}
use fibernuts.Market.Ports.{MarketContext, TokenSpendState}
use fibernuts.Market.Runtime.{
  Session, Runtime, return, raise, asked, sends, reads, completes_receive, ◌>>=◌, ◌>>◌, tries,
  assert_role, now, commit_order,
}
use fibernuts.Market.Runtime.Orders.{
  commit_state, stored_order, other_mint, recoverable_with, text_of,
}

module _ (c : MarketContext) where
  open c use {wallet}

  -- A commit in the `try` block that ends it.
  abbrev pub ends_with : VendorOrder → OrderState → String → Runtime VendorOrder
  ends_with order state error =
      tries (recoverable_with c order) (commit_state c order state (some error)) return

  -- The last commit: the fresh proofs are the vendor's, and the order keeps no secret.
  unfoldable pub commit_settled : VendorOrder → List Proof → Runtime VendorOrder
  commit_settled order proofs = do
    time ← now c
    current ← reads (λ s. s.proofs)
    commit_order c
        (record order {
          state = OrderState.settled;
          request = none;
          request_digest = none;
          delivery_url = none;
          write_capability = none;
          read_capability =
              if is_true order.relay_acknowledged then none else order.read_capability;
          private_key = none;
          incoming_token = none;
          incoming_swap = none;
          updated_at = time;
          error = none;
        })
        (some (current ++ proofs))

  unfoldable pub settle_swap : VendorOrder → StoredSwapPreview → Runtime VendorOrder
  settle_swap order swap =
      tries (recoverable_with c order)
        (sends (completes_receive swap) (wallet.complete_prepared_receive swap))
        λ proofs. tries (recoverable_with c order) (commit_settled order proofs) return

  -- `{ ...order, state: "swapping", incomingSwap: swap, … }`.
  unfoldable pub commit_swapping : VendorOrder → StoredSwapPreview → Runtime VendorOrder
  commit_swapping order swap = do
    time ← now c
    commit_order c
        (record order {
          state = OrderState.swapping;
          incoming_swap = some swap;
          updated_at = time;
          error = none;
        })
        none

  unfoldable pub settle_prepared : VendorOrder → StoredSwapPreview → Runtime VendorOrder
  settle_prepared order swap =
      if not (swap.amount == order.amount)
      then ends_with order OrderState.rejected
          "The prepared settlement amount does not equal the order total."
      else tries (recoverable_with c order) (commit_swapping order swap)
          λ swapping. settle_swap swapping swap

  -- What the mint says of the delivered proofs.
  unfoldable pub settle_checked : VendorOrder → TokenSpendState → Runtime VendorOrder
  settle_checked order TokenSpendState.spent =
      ends_with order OrderState.rejected "The delivered proofs were already spent."
  settle_checked order TokenSpendState.mixed =
      ends_with order OrderState.rejected "The delivered proofs have conflicting states."
  settle_checked order TokenSpendState.pending =
      ends_with order OrderState.recoverable
        "The mint reports that the delivered proofs are pending."
  settle_checked order TokenSpendState.unspent =
      tries (recoverable_with c order)
        (asked (wallet.prepare_receive (text_of order.incoming_token) order.private_key))
        (settle_prepared order)

  unfoldable pub settle_locked : VendorOrder → Bool → Runtime VendorOrder
  settle_locked order false =
      ends_with order OrderState.rejected
        "The delivered proofs are not locked exclusively to this vendor key."
  settle_locked order true =
      tries (recoverable_with c order)
        (asked (wallet.check_token_state (text_of order.incoming_token))) (settle_checked order)

  -- Whether the token is not of the order's mint, unit and amount.
  unfoldable pub mismatch : VendorOrder → InspectedToken → Attempt Bool
  mismatch order token = Common.◌>>=◌ (other_mint c token.mint) λ elsewhere.
      ok (
        elsewhere
        || not (str_eq (to_lower token.unit) "rusd")
        || not (token.amount == order.amount))

  unfoldable pub settle_matched : VendorOrder → Bool → Runtime VendorOrder
  settle_matched order true =
      ends_with order OrderState.rejected
        "The delivered token does not match the order amount, mint, and unit exactly."
  settle_matched order false =
      tries (recoverable_with c order)
        (asked
          (wallet.token_is_locked_to (text_of order.incoming_token) (text_of order.public_key)))
        (settle_locked order)

  unfoldable pub settle_inspected : VendorOrder → Attempt InspectedToken → Runtime VendorOrder
  settle_inspected order (err e) =
      ends_with order OrderState.rejected "The delivered token is malformed."
  settle_inspected order (ok token) =
      tries (recoverable_with c order) (asked (mismatch order token)) (settle_matched order)

  -- Without a prepared swap: the token is validated first.
  unfoldable pub settle_token : VendorOrder → Runtime VendorOrder
  settle_token order =
      if not (given order.incoming_token)
        || not (given order.private_key)
        || not (given order.public_key)
      then recoverable_with c order (plain_error "Stored vendor settlement data is incomplete.")
      else tries (recoverable_with c order) (commit_state c order OrderState.validating none)
          λ validating.
            settle_inspected validating (wallet.inspect_token (text_of validating.incoming_token))

  unfoldable pub settle_stored : VendorOrder → Option StoredSwapPreview → Runtime VendorOrder
  settle_stored order none = settle_token order
  settle_stored order (some swap) = settle_swap order swap

  unfoldable pub settle_order : VendorOrder → Runtime VendorOrder
  settle_order input = do
    assert_role MarketRole.vendor
    order ← stored_order c input
    settle_stored order order.incoming_swap
