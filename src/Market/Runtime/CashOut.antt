-- ===== src/Market/Runtime/CashOut.antt =====
-- The operations that cash out: `reviewCashOut`, `confirmCashOut` and `refreshCashOut` of
-- market/src/domain/market-runtime.ts.
pub mod Keeps
pub mod Dispatched
use fibernuts.Common.{
  Throwing, ok, err, ℕ, ◌+◌, ◌/◌, String, Bool, true, false, not, Option, none, some, List, [], ◌∷◌,
  ◌++◌, str_eq, ◌&&◌, if◌then◌else◌,
}
use fibernuts.Js.{Value}
use fibernuts.Js.Text.{◌⧺◌}
use fibernuts.Wallet.Operations.{CashOutState}
use fibernuts.Market.Types.{
  Proof, StoredSwapPreview, QuoteState, StoredMeltQuote, CashOutOperation, MarketSnapshot,
}
use fibernuts.Market.Errors.{Failure, plain_error, Attempt}
use fibernuts.Market.Ports.{TokenSpendState, MeltQuote, PreparedMelt, MeltExecution, MarketContext}
use fibernuts.Market.Runtime.{
  completes_receive, executes_melt, Session, Runtime, return, asked, sends, reads, ◌>>=◌, ◌>>◌,
  tries, fails_if, find_by, or_else, now, commit_cash_out,
}
use fibernuts.Market.Runtime.Payments.{sum_proofs}

pub record CashOutReview : Type 0 where
  pub quote : MeltQuote
  pub prepared : PreparedMelt
  pub balance : ℕ
  pub maximum_debit : ℕ
  pub proof_fingerprint : String

unfoldable pub as_melt_quote : StoredMeltQuote → MeltQuote → MeltQuote
as_melt_quote stored checked = record checked {
  quote = stored.quote;
  amount = stored.amount;
  fee_reserve = stored.fee_reserve;
  expiry = some (or_else checked.expiry stored.expiry);
  request = stored.request;
}

-- `Boolean(list?.length)`.
abbrev pub is_filled : {A : Type 0} → Option (List A) → Bool
is_filled none = false
is_filled (some []) = false
is_filled (some (x ∷ xs)) = true

abbrev spend_state_text : TokenSpendState → String
spend_state_text TokenSpendState.unspent = "unspent"
spend_state_text TokenSpendState.pending = "pending"
spend_state_text TokenSpendState.spent = "spent"
spend_state_text TokenSpendState.mixed = "mixed"

module _ (c : MarketContext) where
  open c use {manifest, wallet, describe, fingerprint, new_id}

  abbrev expiry_of : Option ℕ → Runtime ℕ
  expiry_of (some expiry) = return expiry
  expiry_of none = now c >>= λ time. return (time / 1000 + 3600)

  unfoldable pub store_melt_quote : MeltQuote → Runtime StoredMeltQuote
  store_melt_quote quote = do
    expiry ← expiry_of quote.expiry
    return (record {
      quote = quote.quote;
      amount = quote.amount;
      fee_reserve = quote.fee_reserve;
      state = quote.state;
      expiry = expiry;
      request = quote.request;
    })

  unfoldable pub review_cash_out : MeltQuote → Runtime CashOutReview
  review_cash_out quote = do
    current ← reads (λ s. s)
    prepared ← asked (wallet.prepare_melt quote current.proofs)
    return (record {
      quote = quote;
      prepared = prepared;
      balance = sum_proofs current.proofs;
      maximum_debit = quote.amount + quote.fee_reserve + prepared.input_fee;
      proof_fingerprint = fingerprint current.proofs;
    })

  unfoldable pub new_cash_out : CashOutReview → ℕ → StoredMeltQuote → CashOutOperation
  new_cash_out review time quote = record {
    id = new_id;
    state = CashOutState.dispatching;
    amount = review.quote.amount;
    created_at = time;
    updated_at = time;
    mint_url = manifest.mint_url;
    error = none;
    invoice = review.quote.request;
    quote = quote;
    cashu_fee = some review.prepared.input_fee;
    reserved_proofs = some review.prepared.reserved_proofs;
    output_data = some review.prepared.output_data;
    keyset_id = some review.prepared.keyset_id;
    recovery_swap = none;
  }

  unfoldable pub commit_dispatching : CashOutReview → Runtime CashOutOperation
  commit_dispatching review = do
    time ← now c
    quote ← store_melt_quote review.quote
    commit_cash_out c (new_cash_out review time quote) (some review.prepared.keep)

  -- The handler of both operations.
  unfoldable pub cash_out_failed : CashOutOperation → Failure → Runtime CashOutOperation
  cash_out_failed operation e = do
    time ← now c
    commit_cash_out c
        (record operation {
          state = CashOutState.unknown;
          updated_at = time;
          error = some (describe e);
        })
        none

  -- The invoice is paid: the change is added, and no proofs are reserved any more. Where the mint
  -- executes the payment at once there is no recovery swap to drop.
  unfoldable pub commit_paid :
      CashOutOperation → Option StoredSwapPreview → List Proof → Runtime CashOutOperation
  commit_paid operation swap change = do
    time ← now c
    current ← reads (λ s. s.proofs)
    commit_cash_out c
        (record operation {
          state = CashOutState.paid;
          quote = record operation.quote { state = QuoteState.paid };
          reserved_proofs = none;
          output_data = none;
          keyset_id = none;
          recovery_swap = swap;
          updated_at = time;
          error = none;
        })
        (some (current ++ change))

  unfoldable pub commit_open :
      CashOutOperation → MeltExecution → CashOutState → Option String → Runtime CashOutOperation
  commit_open operation result state error = do
    time ← now c
    commit_cash_out c
        (record operation {
          state = state;
          quote = record operation.quote { state = result.state };
          output_data = some result.output_data;
          updated_at = time;
          error = error;
        })
        none

  unfoldable pub executed : CashOutOperation → MeltExecution → QuoteState → Runtime CashOutOperation
  executed operation result QuoteState.paid =
      tries (cash_out_failed operation)
        (commit_paid operation operation.recovery_swap result.change) return
  executed operation result QuoteState.pending =
      tries (cash_out_failed operation) (commit_open operation result CashOutState.pending none)
        return
  executed operation result QuoteState.unpaid =
      tries (cash_out_failed operation)
        (commit_open operation result CashOutState.unknown
          (some "The mint returned unpaid; check status before recovering reserved value."))
        return

  unfoldable pub execute : CashOutReview → CashOutOperation → Runtime CashOutOperation
  execute review operation =
      tries (cash_out_failed operation)
        (sends (executes_melt review.prepared) (wallet.execute_melt review.quote review.prepared))
        λ result. executed operation result result.state

  unfoldable pub confirm_cash_out : CashOutReview → Runtime CashOutOperation
  confirm_cash_out review = do
    current ← reads (λ s. s)
    fails_if (not (str_eq review.proof_fingerprint (fingerprint current.proofs)))
        "The ecash balance changed. Review the recalculated maximum debit before cashing out."
    operation ← commit_dispatching review
    execute review operation

  abbrev pub stored_cash_out : CashOutOperation → Runtime CashOutOperation
  stored_cash_out input =
      reads (λ s. or_else (find_by (λ (o : CashOutOperation). o.id) input.id s.cash_out) input)

  unfoldable pub recovered_change :
      MeltQuote → StoredMeltQuote → Option (List Value) → Attempt (List Proof)
  recovered_change checked quote (some (o ∷ outputs)) =
      wallet.recover_melt_change (o ∷ outputs) (as_melt_quote quote checked)
  recovered_change checked quote _ = ok []

  unfoldable pub refresh_paid : CashOutOperation → MeltQuote → Runtime CashOutOperation
  refresh_paid operation checked =
      if is_filled checked.change && not (is_filled operation.output_data)
      then cash_out_failed operation (plain_error "Stored change recovery outputs are missing.")
      else tries (cash_out_failed operation)
          (asked (recovered_change checked operation.quote operation.output_data))
          λ change. tries (cash_out_failed operation) (commit_paid operation none change) return

  unfoldable pub commit_pending : CashOutOperation → Runtime CashOutOperation
  commit_pending operation = do
    time ← now c
    commit_cash_out c
        (record operation {
          state = CashOutState.pending;
          quote = record operation.quote { state = QuoteState.pending };
          updated_at = time;
          error = none;
        })
        none

  -- The commit that follows a completed recovery.
  unfoldable pub commit_recovered : CashOutOperation → List Proof → Runtime CashOutOperation
  commit_recovered operation recovered = do
    time ← now c
    current ← reads (λ s. s.proofs)
    commit_cash_out c
        (record operation {
          state = CashOutState.failed;
          quote = record operation.quote { state = QuoteState.unpaid };
          reserved_proofs = none;
          output_data = none;
          keyset_id = none;
          recovery_swap = none;
          updated_at = time;
          error = some "The mint confirmed the payment was unpaid. Reserved ecash was recovered.";
        })
        (some (current ++ recovered))

  unfoldable pub complete_recovery : CashOutOperation → StoredSwapPreview → Runtime CashOutOperation
  complete_recovery operation swap =
      tries (cash_out_failed operation)
        (sends (completes_receive swap) (wallet.complete_prepared_receive swap))
        λ proofs. tries (cash_out_failed operation) (commit_recovered operation proofs) return

  -- `{ ...operation, state: "unknown", recoverySwap, … }`.
  unfoldable pub commit_recovering : CashOutOperation → StoredSwapPreview → Runtime CashOutOperation
  commit_recovering operation swap = do
    time ← now c
    commit_cash_out c
        (record operation {
          state = CashOutState.unknown;
          recovery_swap = some swap;
          updated_at = time;
          error =
              some "The mint confirmed the Fiber payment was unpaid. Recovering reserved ecash.";
        })
        none

  unfoldable pub commit_reserved : CashOutOperation → TokenSpendState → Runtime CashOutOperation
  commit_reserved operation state = do
    time ← now c
    commit_cash_out c
        (record operation {
          state = CashOutState.unknown;
          updated_at = time;
          error = some ("Reserved proofs are " ⧺ spend_state_text state ⧺ ".");
        })
        none

  unfoldable pub prepare_recovery : CashOutOperation → List Proof → Runtime CashOutOperation
  prepare_recovery operation reserved =
      tries (cash_out_failed operation) (asked (wallet.encode_proofs reserved)) λ token.
        tries (cash_out_failed operation) (asked (wallet.prepare_receive token none)) λ swap.
          tries (cash_out_failed operation) (commit_recovering operation swap)
            λ recovering. complete_recovery recovering swap

  unfoldable pub recover_checked :
      CashOutOperation → List Proof → TokenSpendState → Runtime CashOutOperation
  recover_checked operation reserved TokenSpendState.unspent = prepare_recovery operation reserved
  recover_checked operation reserved state =
      tries (cash_out_failed operation) (commit_reserved operation state) return

  unfoldable pub recover :
      CashOutOperation → List Proof → Option StoredSwapPreview → Runtime CashOutOperation
  recover operation reserved (some swap) = complete_recovery operation swap
  recover operation reserved none =
      tries (cash_out_failed operation) (asked (wallet.check_proofs_state reserved))
        (recover_checked operation reserved)

  unfoldable pub refresh_state :
      CashOutOperation → MeltQuote → QuoteState → Runtime CashOutOperation
  refresh_state operation checked QuoteState.paid = refresh_paid operation checked
  refresh_state operation checked QuoteState.pending =
      tries (cash_out_failed operation) (commit_pending operation) return
  refresh_state operation checked QuoteState.unpaid =
      if not (is_filled operation.reserved_proofs)
      then cash_out_failed operation
          (plain_error "The payment is unpaid, but its reserved proofs are unavailable.")
      else recover operation (or_else operation.reserved_proofs []) operation.recovery_swap

  unfoldable pub refresh_found : CashOutOperation → Runtime CashOutOperation
  refresh_found operation =
      tries (cash_out_failed operation) (asked (wallet.check_melt_quote operation.quote.quote))
        λ checked. refresh_state operation checked checked.state

  unfoldable pub refresh_cash_out : CashOutOperation → Runtime CashOutOperation
  refresh_cash_out input = stored_cash_out input >>= refresh_found
