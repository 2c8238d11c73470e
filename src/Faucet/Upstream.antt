-- ===== src/Faucet/Upstream.antt =====
-- What faucet/src/upstream.ts gives the service: the views of quotes, payments and invoices, and the
-- ports. A port's answer is a value or the error that the call throws. How the clients answer is in
-- the children: what they read of JSON, the packed asset script, the mint and the Fiber node.
pub mod Decode
pub mod Script
pub mod Packing
pub mod Mint
pub mod Fiber
pub mod Answers
use fibernuts.Common.{ℕ, String, Bool, Option, Result, leb, ltb, ◌&&◌}
use fibernuts.Js.{Value}

pub data QuotePhase : Type 0 where
  unpaid paid issued : QuotePhase

pub record MintQuoteView : Type 0 where
  pub quote_id : String
  pub invoice : String
  pub amount : ℕ
  pub unit : String
  pub pubkey : Option String
  pub expiry : ℕ
  pub phase : QuotePhase

pub data FiberPaymentStatus : Type 0 where
  created inflight success failed : FiberPaymentStatus

pub record FiberPayment : Type 0 where
  pub payment_hash : String
  pub status : FiberPaymentStatus
  pub fee : ℕ

pub data HashType : Type 0 where
  data_hash type_hash data1 data2 : HashType

pub record FiberUdtScript : Type 0 where
  pub code_hash : String
  pub hash_type : HashType
  pub args : String

pub record ParsedFiberInvoice : Type 0 where
  pub payment_hash : String
  pub currency : String
  pub amount : ℕ
  pub udt_script : Option FiberUdtScript

-- `MintPort` and `FiberPort`, as they answer during one call of the service.
pub record Ports : Type 0 where
  pub get_quote : String → Result MintQuoteView
  pub parse_invoice : String → Result ParsedFiberInvoice
  pub get_payment : String → Result (Option FiberPayment)
  pub send_payment : String → Result FiberPayment

-- What `fetch` and `response.json()` yield: nothing where `fetch` throws, or a status and a body,
-- `none` where the body is no JSON.
pub data Fetched : Type 0 where
  unreachable : Fetched
  answered : (status : ℕ) → Option Value → Fetched

-- `response.ok`.
abbrev pub is_ok : ℕ → Bool
is_ok status = leb 200 status && ltb status 300
