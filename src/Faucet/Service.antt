-- ===== src/Faucet/Service.antt =====
-- faucet/src/service.ts: how the faucet answers a claim. A call takes the ports' answers and the
-- clock's readings, and goes from one world to another: the table of claims and the payments that
-- were sent, each with the claim that it was sent for.
pub mod Reconcile
pub mod Steps
pub mod Attempts
pub mod InFlight
pub mod Pays
pub mod Claims
use fibernuts.Common.{
  ℕ, ◌+◌, ◌*◌, ◌-◌, String, Bool, true, false, not, Option, none, some, List, [], ◌∷◌, leb, ltb,
  ◌==◌, str_eq, is_some, ◌&&◌, ◌||◌, if◌then◌else◌, Result, ok, err, fail, HttpError, throw_if,
  ◌>>=◌, ◌>>◌,
}
use fibernuts.Js.Text.{to_lower}
use text.Mathlib.Text.{starts_with}
use fibernuts.Faucet.Store.{
  ClaimState, dispatching, pending, paid, issued, failed, recoverable, ClaimRecord, ReserveClaim,
  Reservation, find, reserve, mark_attempt, transition, stats, column_is, is_issued,
}
use fibernuts.Faucet.Upstream.{
  QuotePhase, MintQuoteView, FiberPaymentStatus, FiberPayment, HashType, type_hash, FiberUdtScript,
  ParsedFiberInvoice, Ports,
}

pub data PublicClaimStatus : Type 0 where
  paying settled issued_ecash not_settled unclear : PublicClaimStatus

-- The unit is always `rusd`, and the message is a function of the status.
pub record ClaimResult : Type 0 where
  pub status : PublicClaimStatus
  pub amount : ℕ
  pub retry_after_seconds : Option ℕ

pub record FaucetConfig : Type 0 where
  pub enabled : Bool
  pub amount : ℕ
  pub unit : String
  pub unit_scale : ℕ
  pub invoice_currency : String
  pub udt_script : FiberUdtScript
  pub client_cooldown_seconds : ℕ
  pub network_daily_claim_limit : ℕ
  pub daily_claim_limit : ℕ
  pub recovery_delay_seconds : ℕ

-- The clock where the code reads it: at its own tests, in `reserve`, in `markAttempt`, and in
-- `transition`.
pub record Clock : Type 0 where
  pub checked : ℕ
  pub reserved : ℕ
  pub attempted : ℕ
  pub settled_at : ℕ

-- What one call of the service works with: `this.config`, the ports' answers and the readings.
pub record Context : Type 0 where
  pub config : FaucetConfig
  pub ports : Ports
  pub clock : Clock

pub record World : Type 0 where
  pub claims : List ClaimRecord
  pub sent : List (String × String)

abbrev pub public_status : ClaimState → PublicClaimStatus
public_status dispatching = paying
public_status pending = paying
public_status paid = settled
public_status issued = issued_ecash
public_status failed = not_settled
public_status recoverable = unclear

-- `result(record, retryAfterSeconds)`.
abbrev pub result : ClaimRecord → Option ℕ → ClaimResult
result r retry = record {
  status = public_status r.state;
  amount = r.amount;
  retry_after_seconds = retry;
}

abbrev hash_type_eq : HashType → HashType → Bool
hash_type_eq HashType.data_hash HashType.data_hash = true
hash_type_eq HashType.type_hash HashType.type_hash = true
hash_type_eq HashType.data1 HashType.data1 = true
hash_type_eq HashType.data2 HashType.data2 = true
hash_type_eq _ _ = false

unfoldable pub same_udt_script : Option FiberUdtScript → FiberUdtScript → Bool
same_udt_script none expected = false
same_udt_script (some actual) expected =
    str_eq actual.code_hash expected.code_hash
    && hash_type_eq actual.hash_type expected.hash_type
    && str_eq actual.args expected.args

-- A nullable text that is there and not empty, as `if (text)` asks.
abbrev pub given : Option String → Bool
given none = false
given (some s) = not (str_eq s "")

abbrev pub text_of : Option String → String
text_of none = ""
text_of (some s) = s

abbrev pub Answer : Type 0
Answer = Result ClaimResult × World

-- `result(this.store.transition(hash, state, code), retry)`.
abbrev pub reply_with : Option ℕ → World → Result ClaimRecord × List ClaimRecord → Answer
reply_with retry w (ok r, claims) = (ok (result r retry), record w { claims = claims })
reply_with retry w (err e, claims) = (err e, record w { claims = claims })

abbrev pub after_check {ℓ} : {A : Type ℓ} → Result A → World → (A → Answer) → Answer
after_check (ok a) w k = k a
after_check (err e) w k = (err e, w)

abbrev pub is_failed : ClaimState → Bool
is_failed failed = true
is_failed _ = false

abbrev pub is_pending : ClaimState → Bool
is_pending pending = true
is_pending _ = false

abbrev pub payment_state : FiberPaymentStatus → ClaimState
payment_state FiberPaymentStatus.success = paid
payment_state FiberPaymentStatus.failed = failed
payment_state _ = pending

module _ (c : Context) where
  open c use {config, ports, clock}

  abbrev pub settle : String → ClaimState → Option String → Option ℕ → World → Answer
  settle hash state code retry w =
      reply_with retry w (transition hash state code clock.settled_at w.claims)

  -- `applyPayment`.
  unfoldable pub apply_payment : ClaimRecord → FiberPayment → World → Answer
  apply_payment r payment w =
      let state = payment_state payment.status in
      settle r.quote_hash state (if is_failed state then some "fiber_failed" else none)
        (some (if is_pending state then 5 else 2)) w

  -- The `catch` of `dispatch`.
  abbrev pub recover_unknown : String → Answer → Answer
  recover_unknown hash (ok x, w) = (ok x, w)
  recover_unknown hash (err e, w) =
      settle hash recoverable (some "dispatch_unknown") (some config.recovery_delay_seconds) w

  -- The `try` of `dispatch`, once `sendPayment` has answered.
  sent_payment : ClaimRecord → ClaimRecord → Result FiberPayment → World → Answer
  sent_payment input marked (err e) w = (err e, w)
  sent_payment input marked (ok payment) w =
      if not (str_eq payment.payment_hash (text_of input.payment_hash))
      then settle input.quote_hash recoverable (some "payment_hash_mismatch") (some 30) w
      else apply_payment marked payment w

  -- The payment itself: the attempt is on record before it is sent.
  send_marked : ClaimRecord → World → Result ClaimRecord × List ClaimRecord → Answer
  unfolding sent_payment
  send_marked input w (err e, claims) = (err e, record w { claims = claims })
  send_marked input w (ok marked, claims) = recover_unknown input.quote_hash (
      sent_payment input marked (ports.send_payment (text_of input.invoice))
        (record { claims = claims; sent = (input.quote_hash, text_of input.invoice) ∷ w.sent }))

  unfoldable pub dispatch : ClaimRecord → World → Answer
  unfolding send_marked
  dispatch input w =
      if not (given input.invoice) || not (given input.payment_hash)
      then settle input.quote_hash recoverable (some "missing_dispatch_data") (some 30) w
      else send_marked input w (mark_attempt input.quote_hash clock.attempted w.claims)
