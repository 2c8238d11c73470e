-- ===== src/Market/Types.antt =====
-- market/src/domain/types.ts, with what it takes from wallet/src/domain/operations.ts and
-- wallet/src/lib/wallet.ts: the records that the market stores.
-- Amounts and times are the natural numbers that the code checks them to be, and the unit, which is
-- `rusd` by its type, is left out of the operations.
use fibernuts.Common.{
  ℕ, String, Bool, true, false, not, Option, none, some, List, is_some, str_eq, ◌==◌, ◌&&◌, ◌||◌,
  if◌then◌else◌,
}
use fibernuts.Js.{Value}
use fibernuts.Wallet.Operations.{AddCashState, CashOutState}

-- A `Proof` of cashu-ts; what else it holds is its `rest`.
pub record Proof : Type 0 where
  pub amount : ℕ
  pub secret : String
  pub rest : Value

pub record StoredSwapPreview : Type 0 where
  pub amount : ℕ
  pub fees : ℕ
  pub keyset_id : String
  pub inputs : List Proof
  pub send_outputs : Option (List Value)
  pub keep_outputs : Option (List Value)
  pub unselected_proofs : Option (List Proof)

pub data QuoteState : Type 0 where
  unpaid pending paid : QuoteState

pub record StoredMeltQuote : Type 0 where
  pub quote : String
  pub amount : ℕ
  pub fee_reserve : ℕ
  pub state : QuoteState
  pub expiry : ℕ
  pub request : String

pub record AddCashOperation : Type 0 where
  pub id : String
  pub state : AddCashState
  pub amount : ℕ
  pub created_at : ℕ
  pub updated_at : ℕ
  pub mint_url : String
  pub error : Option String
  pub quote_id : String
  pub invoice : String
  pub expiry : Option ℕ
  pub from_faucet : Bool
  pub quote_pubkey : Option String
  pub quote_private_key : Option String
  pub output_data : Option (List Value)
  pub keyset_id : Option String
  pub legacy_signature : Option String
  pub payload_signature : Option String

pub record CashOutOperation : Type 0 where
  pub id : String
  pub state : CashOutState
  pub amount : ℕ
  pub created_at : ℕ
  pub updated_at : ℕ
  pub mint_url : String
  pub error : Option String
  pub invoice : String
  pub quote : StoredMeltQuote
  pub cashu_fee : Option ℕ
  pub reserved_proofs : Option (List Proof)
  pub output_data : Option (List Value)
  pub keyset_id : Option String
  pub recovery_swap : Option StoredSwapPreview

pub data MarketRole : Type 0 where
  attendee vendor : MarketRole

pub data PaymentState : Type 0 where
  preparing ready_to_deliver delivering delivered unspent pending spent recoverable : PaymentState

pub record AttendeePayment : Type 0 where
  pub id : String
  pub order_id : String
  pub state : PaymentState
  pub amount : ℕ
  pub fee : ℕ
  pub mint_url : String
  pub vendor_name : String
  pub description : String
  pub request : Option String
  pub delivery_url : Option String
  pub payload_json : Option String
  pub token : Option String
  pub swap : Option StoredSwapPreview
  pub delivery_retryable : Option Bool
  pub delivered_at : Option ℕ
  pub proof_state_checked_at : Option ℕ
  pub created_at : ℕ
  pub updated_at : ℕ
  pub error : Option String

pub data OrderState : Type 0 where
  registering awaiting_payment cancelling payload_received validating swapping : OrderState
  settled cancelled expired rejected recoverable : OrderState

pub record OrderItem : Type 0 where
  pub item_id : String
  pub label : String
  pub quantity : ℕ
  pub unit_price : ℕ

pub record VendorOrder : Type 0 where
  pub id : String
  pub state : OrderState
  pub event_id : String
  pub vendor_id : String
  pub items : List OrderItem
  pub amount : ℕ
  pub mint_url : String
  pub description : String
  pub expires_at : ℕ
  pub request : Option String
  pub request_digest : Option String
  pub delivery_url : Option String
  pub read_capability : Option String
  pub write_capability : Option String
  pub private_key : Option String
  pub public_key : Option String
  pub incoming_token : Option String
  pub incoming_swap : Option StoredSwapPreview
  pub relay_registered : Option Bool
  pub relay_acknowledged : Option Bool
  pub created_at : ℕ
  pub updated_at : ℕ
  pub error : Option String

-- `version` is 1 and `unit` is `rusd`.
pub record MarketSnapshot : Type 0 where
  pub event_id : String
  pub role : MarketRole
  pub mint_url : String
  pub proofs : List Proof
  pub add_cash : List AddCashOperation
  pub payments : List AttendeePayment
  pub orders : List VendorOrder
  pub cash_out : List CashOutOperation

-- `Boolean(text)` of a text that may be undefined.
abbrev pub given : Option String → Bool
given none = false
given (some s) = not (str_eq s "")

-- `flag === false` and `Boolean(flag)` of a flag that may be undefined.
abbrev pub is_false : Option Bool → Bool
is_false none = false
is_false (some b) = not b

abbrev pub is_true : Option Bool → Bool
is_true none = false
is_true (some b) = b

-- `Boolean(number)` of a number that may be undefined.
abbrev pub is_set : Option ℕ → Bool
is_set none = false
is_set (some n) = not (n == 0)

abbrev is_unfinished : PaymentState → Bool
is_unfinished PaymentState.preparing = true
is_unfinished PaymentState.ready_to_deliver = true
is_unfinished PaymentState.delivering = true
is_unfinished PaymentState.recoverable = true
is_unfinished _ = false

abbrev is_checkable : PaymentState → Bool
is_checkable PaymentState.delivered = true
is_checkable PaymentState.unspent = true
is_checkable PaymentState.pending = true
is_checkable PaymentState.recoverable = true
is_checkable _ = false

unfoldable pub payment_can_retry : AttendeePayment → Bool
payment_can_retry p =
    is_unfinished p.state
    && not (is_set p.delivered_at || is_false p.delivery_retryable)
    && (if is_some p.swap
        then given p.request && given p.delivery_url
        else given p.token && given p.payload_json && given p.delivery_url)

unfoldable pub payment_can_check : AttendeePayment → Bool
payment_can_check p = given p.token && is_checkable p.state
