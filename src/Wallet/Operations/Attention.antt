-- ===== src/Wallet/Operations/Attention.antt =====
-- The operations that need attention, by the tone in which they are presented.
use fibernuts.Common.{Bool, true, false, ◌≡◌, refl, Option, String}
use fibernuts.Wallet.Operations.{
  OperationTone, AddCashState, SendState, ReceiveState, CashOutState, BaseOperation,
  WalletOperation, add, send, receive, cashout, present_add_cash, present_send, present_receive,
  present_cash_out, present_operation, operation_needs_attention,
}

-- Whether an operation may need attention, by its tone: one under way or found needs it, a settled or
-- failed one does not, and a recoverable one does unless it is a payment that was reclaimed.
abbrev pub calls_for_attention : WalletOperation → OperationTone → Bool
calls_for_attention op OperationTone.neutral = true
calls_for_attention op OperationTone.pending = true
calls_for_attention op OperationTone.settled = false
calls_for_attention op OperationTone.failed = false
calls_for_attention (send base SendState.reclaimed token) OperationTone.recoverable = false
calls_for_attention op OperationTone.recoverable = true

add_cash_attention :
    (base : BaseOperation) (state : AddCashState)
    → operation_needs_attention (add base state)
      ≡ calls_for_attention (add base state) (present_operation (add base state)).tone
unfolding operation_needs_attention present_operation present_add_cash
add_cash_attention base AddCashState.awaiting_payment = refl
add_cash_attention base AddCashState.payment_observed = refl
add_cash_attention base AddCashState.issuing = refl
add_cash_attention base AddCashState.settled = refl
add_cash_attention base AddCashState.expired = refl
add_cash_attention base AddCashState.recoverable = refl
add_cash_attention base AddCashState.failed = refl

send_attention :
    (base : BaseOperation) (state : SendState) (token : Option String)
    → operation_needs_attention (send base state token)
      ≡ calls_for_attention (send base state token) (present_operation (send base state token)).tone
unfolding operation_needs_attention present_operation present_send
send_attention base SendState.preparing token = refl
send_attention base SendState.awaiting_acceptance token = refl
send_attention base SendState.accepted token = refl
send_attention base SendState.reclaiming token = refl
send_attention base SendState.reclaimed token = refl
send_attention base SendState.recovery_required token = refl

receive_attention :
    (base : BaseOperation) (state : ReceiveState) (token : Option String)
    → operation_needs_attention (receive base state token)
      ≡ calls_for_attention
          (receive base state token)
          (present_operation (receive base state token)).tone
unfolding operation_needs_attention present_operation present_receive
receive_attention base ReceiveState.detected token = refl
receive_attention base ReceiveState.checking token = refl
receive_attention base ReceiveState.securing token = refl
receive_attention base ReceiveState.settled token = refl
receive_attention base ReceiveState.recoverable token = refl
receive_attention base ReceiveState.failed token = refl

cash_out_attention :
    (base : BaseOperation) (state : CashOutState)
    → operation_needs_attention (cashout base state)
      ≡ calls_for_attention (cashout base state) (present_operation (cashout base state)).tone
unfolding operation_needs_attention present_operation present_cash_out
cash_out_attention base CashOutState.dispatching = refl
cash_out_attention base CashOutState.pending = refl
cash_out_attention base CashOutState.paid = refl
cash_out_attention base CashOutState.failed = refl
cash_out_attention base CashOutState.unknown = refl

-- An operation needs attention exactly if its tone is neutral, pending or recoverable, but for a
-- payment that was reclaimed, which is shown as recoverable and needs none.
pub operation_needs_attention-eq-calls_for_attention :
    (op : WalletOperation)
    → operation_needs_attention op ≡ calls_for_attention op (present_operation op).tone
operation_needs_attention-eq-calls_for_attention (add base state) = add_cash_attention base state
operation_needs_attention-eq-calls_for_attention (send base state token) =
    send_attention base state token
operation_needs_attention-eq-calls_for_attention (receive base state token) =
    receive_attention base state token
operation_needs_attention-eq-calls_for_attention (cashout base state) =
    cash_out_attention base state
