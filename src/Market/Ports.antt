-- ===== src/Market/Ports.antt =====
-- What the runtime of the market works with: the interfaces `MarketWallet` and `RelayPort` of
-- market/src/domain/market-runtime.ts, with the records of wallet/src/lib/wallet.ts that pass through
-- them, and the options of a runtime. A port is asked a question at most once in an operation, so that
-- its answers are functions.
use fibernuts.Common.{ℕ, String, Bool, Option, List}
use fibernuts.Js.{Value}
use fibernuts.Market.Types.{Proof, StoredSwapPreview, QuoteState, MarketSnapshot}
use fibernuts.Market.Errors.{Failure, Attempt}
use fibernuts.Market.Manifest.{VendorManifest, EventManifest}
use fibernuts.Market.Payment.{
  LockOptions, Platform, Secrets, CreatedVendorRequest, InspectedToken, PaymentPayload,
}

pub data TokenSpendState : Type 0 where
  unspent pending spent mixed : TokenSpendState

pub data PreparedSend : Type 0 where
  offline : (keep send : List Proof) (debit fee : ℕ) → PreparedSend
  by_swap : (swap : StoredSwapPreview) (debit fee : ℕ) → PreparedSend

pub record SentToken : Type 0 where
  pub token : String
  pub change : List Proof

pub data MintQuoteState : Type 0 where
  unpaid paid issued : MintQuoteState

pub record MintQuote : Type 0 where
  pub quote : String
  pub request : String
  pub amount : ℕ
  pub amount_paid : Option ℕ
  pub state : Option MintQuoteState
  pub expiry : Option ℕ
  pub pubkey : Option String

pub record LockedMintQuote : Type 0 where
  pub quote : MintQuote
  pub private_key : String
  pub public_key : String

pub record PreparedMint : Type 0 where
  pub output_data : List Value
  pub keyset_id : String
  pub legacy_signature : Option String
  pub payload_signature : Option String

-- `change` is the list of the mint's signatures.
pub record MeltQuote : Type 0 where
  pub quote : String
  pub amount : ℕ
  pub fee_reserve : ℕ
  pub state : QuoteState
  pub expiry : Option ℕ
  pub request : String
  pub change : Option (List Value)

pub record PreparedMelt : Type 0 where
  pub keep : List Proof
  pub reserved_proofs : List Proof
  pub output_data : List Value
  pub keyset_id : String
  pub input_fee : ℕ

pub record MeltExecution : Type 0 where
  pub state : QuoteState
  pub change : List Proof
  pub output_data : List Value

pub record MarketWallet : Type 0 where
  pub mint_url : String
  pub unit : String
  pub prepare_send : ℕ → List Proof → Option LockOptions → Attempt PreparedSend
  pub complete_prepared_send : StoredSwapPreview → Attempt SentToken
  pub inspect_token : String → Attempt InspectedToken
  pub encode_proofs : List Proof → Attempt String
  pub token_is_locked_to : String → String → Attempt Bool
  pub prepare_receive : String → Option String → Attempt StoredSwapPreview
  pub complete_prepared_receive : StoredSwapPreview → Attempt (List Proof)
  pub check_token_state : String → Attempt TokenSpendState
  pub request_mint : ℕ → Attempt MintQuote
  pub request_locked_mint : ℕ → Attempt LockedMintQuote
  pub check_mint_quote : String → Attempt MintQuote
  pub prepare_mint : MintQuote → Option String → Attempt PreparedMint
  pub complete_mint : MintQuote → PreparedMint → Attempt (List Proof)
  pub request_melt : String → Attempt MeltQuote
  pub check_melt_quote : String → Attempt MeltQuote
  pub prepare_melt : MeltQuote → List Proof → Attempt PreparedMelt
  pub execute_melt : MeltQuote → PreparedMelt → Attempt MeltExecution
  pub recover_melt_change : List Value → MeltQuote → Attempt (List Proof)
  pub check_proofs_state : List Proof → Attempt TokenSpendState

-- What the relay's inbox holds, before its fields are tested: `none` where one is no text or no list.
pub record DeliveredPayload : Type 0 where
  pub id : Option String
  pub mint : Option String
  pub unit : Option String
  pub proofs : Option (List Proof)

-- The relay's origin is that of the manifest.
pub record RelayPort : Type 0 where
  pub register : CreatedVendorRequest → ℕ → Attempt (Unit {0})
  pub deliver : String → String → Attempt (Unit {0})
  pub read : String → Attempt (Option DeliveredPayload)
  pub acknowledge : String → Attempt (Unit {0})
  pub cancel : String → Attempt (Unit {0})

-- The options of a runtime, with the platform: `now` is the reading of the clock in milliseconds when
-- it is read for the n-th time, and `new_id` and `secrets` are the random values of one operation.
-- `commit` is the option of that name, which may throw and then keeps the snapshot that it had;
-- `describe` is `safeErrorMessage`; `fingerprint` and `stringify` print proofs and a payload in JSON.
pub record MarketContext : Type 0 where
  pub manifest : EventManifest
  pub vendor : VendorManifest
  pub wallet : MarketWallet
  pub relay : RelayPort
  pub platform : Platform
  pub commit : MarketSnapshot → Attempt (Unit {0})
  pub now : ℕ → ℕ
  pub new_id : String
  pub secrets : Secrets
  pub describe : Failure → String
  pub fingerprint : List Proof → String
  pub stringify : PaymentPayload → String
