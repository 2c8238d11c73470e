-- ===== src/Wallet/Operations.antt =====
-- wallet/src/domain/operations.ts: the operations of the wallet, how each is presented and which of
-- them need attention. The fields that nothing here reads are left out.
pub mod Attention
use fibernuts.Common.{String, Bool, true, false, not, Option, none, some, str_eq}

pub data OperationTone : Type 0 where
  neutral pending settled failed recoverable : OperationTone

pub data Direction : Type 0 where
  inward outward : Direction

pub data AddCashState : Type 0 where
  awaiting_payment payment_observed issuing settled expired recoverable failed : AddCashState

pub data SendState : Type 0 where
  preparing awaiting_acceptance accepted reclaiming reclaimed recovery_required : SendState

pub data ReceiveState : Type 0 where
  detected checking securing settled recoverable failed : ReceiveState

pub data CashOutState : Type 0 where
  dispatching pending paid failed unknown : CashOutState

-- The base fields that the functions of the wallet compare.
pub record BaseOperation : Type 0 where
  pub id : String
  pub mint_url : String
  pub unit : String

pub data WalletOperation : Type 0 where
  add : BaseOperation → AddCashState → WalletOperation
  send : BaseOperation → SendState → (token : Option String) → WalletOperation
  receive : BaseOperation → ReceiveState → (token : Option String) → WalletOperation
  cashout : BaseOperation → CashOutState → WalletOperation

pub record OperationPresentation : Type 0 where
  pub title : String
  pub state_label : String
  pub state_short : String
  pub tone : OperationTone
  pub direction : Direction

abbrev present : String → String → String → OperationTone → Direction → OperationPresentation
present title label short tone direction = record {
  title = title;
  state_label = label;
  state_short = short;
  tone = tone;
  direction = direction;
}

-- The rows of `PRESENTATION`, with the direction of their kind.
unfoldable pub present_add_cash : AddCashState → OperationPresentation
present_add_cash AddCashState.awaiting_payment =
    present "Added cash" "Awaiting Fiber payment" "Awaiting" OperationTone.pending Direction.inward
present_add_cash AddCashState.payment_observed =
    present "Added cash" "Payment observed" "Observed" OperationTone.pending Direction.inward
present_add_cash AddCashState.issuing =
    present "Added cash" "Issuing ecash" "Issuing" OperationTone.pending Direction.inward
present_add_cash AddCashState.settled =
    present "Added cash" "Added" "Added" OperationTone.settled Direction.inward
present_add_cash AddCashState.expired =
    present "Added cash" "Invoice expired" "Expired" OperationTone.failed Direction.inward
present_add_cash AddCashState.recoverable =
    present "Added cash" "Recovery required" "Recoverable" OperationTone.recoverable
      Direction.inward
present_add_cash AddCashState.failed =
    present "Added cash" "Not added" "Failed" OperationTone.failed Direction.inward

unfoldable pub present_send : SendState → OperationPresentation
present_send SendState.preparing =
    present "Sent payment" "Preparing token" "Preparing" OperationTone.pending Direction.outward
present_send SendState.awaiting_acceptance =
    present "Sent payment" "Awaiting acceptance" "Awaiting" OperationTone.pending Direction.outward
present_send SendState.accepted =
    present "Sent payment" "Accepted" "Accepted" OperationTone.settled Direction.outward
present_send SendState.reclaiming =
    present "Sent payment" "Reclaiming" "Reclaiming" OperationTone.pending Direction.outward
present_send SendState.reclaimed =
    present "Sent payment" "Reclaimed" "Reclaimed" OperationTone.recoverable Direction.outward
present_send SendState.recovery_required =
    present "Sent payment" "Recovery required" "Recoverable" OperationTone.recoverable
      Direction.outward

unfoldable pub present_receive : ReceiveState → OperationPresentation
present_receive ReceiveState.detected =
    present "Received payment" "Token detected" "Detected" OperationTone.neutral Direction.inward
present_receive ReceiveState.checking =
    present "Received payment" "Checking issuer" "Checking" OperationTone.pending Direction.inward
present_receive ReceiveState.securing =
    present "Received payment" "Securing payment" "Securing" OperationTone.pending Direction.inward
present_receive ReceiveState.settled =
    present "Received payment" "Settled" "Settled" OperationTone.settled Direction.inward
present_receive ReceiveState.recoverable =
    present "Received payment" "Token stored" "Recoverable" OperationTone.recoverable
      Direction.inward
present_receive ReceiveState.failed =
    present "Received payment" "Not settled" "Failed" OperationTone.failed Direction.inward

unfoldable pub present_cash_out : CashOutState → OperationPresentation
present_cash_out CashOutState.dispatching =
    present "Cashed out" "Dispatching payment" "Dispatching" OperationTone.pending Direction.outward
present_cash_out CashOutState.pending =
    present "Cashed out" "Pending" "Pending" OperationTone.pending Direction.outward
present_cash_out CashOutState.paid =
    present "Cashed out" "Paid" "Paid" OperationTone.settled Direction.outward
present_cash_out CashOutState.failed =
    present "Cashed out" "Authoritatively failed" "Failed" OperationTone.failed Direction.outward
present_cash_out CashOutState.unknown =
    present "Cashed out" "Status unknown" "Unknown" OperationTone.recoverable Direction.outward

unfoldable pub present_operation : WalletOperation → OperationPresentation
present_operation (add base state) = present_add_cash state
present_operation (send base state token) = present_send state
present_operation (receive base state token) = present_receive state
present_operation (cashout base state) = present_cash_out state

abbrev add_cash_needs_attention : AddCashState → Bool
add_cash_needs_attention AddCashState.awaiting_payment = true
add_cash_needs_attention AddCashState.payment_observed = true
add_cash_needs_attention AddCashState.issuing = true
add_cash_needs_attention AddCashState.recoverable = true
add_cash_needs_attention _ = false

abbrev send_needs_attention : SendState → Bool
send_needs_attention SendState.preparing = true
send_needs_attention SendState.awaiting_acceptance = true
send_needs_attention SendState.reclaiming = true
send_needs_attention SendState.recovery_required = true
send_needs_attention _ = false

abbrev receive_needs_attention : ReceiveState → Bool
receive_needs_attention ReceiveState.detected = true
receive_needs_attention ReceiveState.checking = true
receive_needs_attention ReceiveState.securing = true
receive_needs_attention ReceiveState.recoverable = true
receive_needs_attention _ = false

abbrev cash_out_needs_attention : CashOutState → Bool
cash_out_needs_attention CashOutState.dispatching = true
cash_out_needs_attention CashOutState.pending = true
cash_out_needs_attention CashOutState.unknown = true
cash_out_needs_attention _ = false

unfoldable pub operation_needs_attention : WalletOperation → Bool
operation_needs_attention (add base state) = add_cash_needs_attention state
operation_needs_attention (send base state token) = send_needs_attention state
operation_needs_attention (receive base state token) = receive_needs_attention state
operation_needs_attention (cashout base state) = cash_out_needs_attention state

-- `Boolean(operation.token)`.
abbrev has_token : Option String → Bool
has_token none = false
has_token (some token) = not (str_eq token "")

unfoldable pub operation_has_bearer_secret : WalletOperation → Bool
operation_has_bearer_secret (send base state token) = has_token token
operation_has_bearer_secret (receive base state token) = has_token token
operation_has_bearer_secret _ = false
