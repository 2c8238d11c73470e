-- ===== src/Market/Runtime/AddCash.antt =====
-- The operations that add cash: `requestAddCash`, `requestTestCash`, `recordTestCashPayerFailure` and
-- `refreshAddCash` of market/src/domain/market-runtime.ts.
pub mod Keeps
use fibernuts.Common.{
  ok, err, ℕ, ◌*◌, String, Bool, true, false, not, Option, none, some, List, ◌++◌, leb, str_eq,
  is_some, ◌&&◌, ◌||◌, if◌then◌else◌,
}
use fibernuts.Js.Text.{to_lower}
use fibernuts.Wallet.Operations.{AddCashState}
use fibernuts.Market.Types.{Proof, AddCashOperation, MarketSnapshot, given, is_set}
use fibernuts.Market.Errors.{Failure, plain_error}
use fibernuts.Market.Ports.{MintQuoteState, MintQuote, LockedMintQuote, PreparedMint, MarketContext}
use fibernuts.Market.Runtime.{
  completes_mint, Session, Runtime, return, asked, sends, reads, ◌>>=◌, ◌>>◌, tries, fails_if,
  find_by, or_else, now, commit_add,
}
use fibernuts.Market.Runtime.Orders.{text_of}

abbrev covered_by : ℕ → Option ℕ → Bool
covered_by amount none = false
covered_by amount (some paid) = leb amount paid

abbrev is_paid_in_state : MintQuote → Option MintQuoteState → Bool
is_paid_in_state quote none = covered_by quote.amount quote.amount_paid
is_paid_in_state quote (some MintQuoteState.unpaid) = false
is_paid_in_state quote (some MintQuoteState.paid) = true
is_paid_in_state quote (some MintQuoteState.issued) = true

-- `mintQuoteIsPaid` of wallet/src/lib/wallet.ts.
unfoldable pub mint_quote_is_paid : MintQuote → Bool
mint_quote_is_paid quote = is_paid_in_state quote quote.state

unfoldable pub as_mint_quote : AddCashOperation → MintQuote → MintQuote
as_mint_quote operation checked = record checked {
  quote = operation.quote_id;
  request = operation.invoice;
  amount = operation.amount;
  pubkey = if given operation.quote_pubkey then operation.quote_pubkey else checked.pubkey;
}

-- Whether the mint does not return the key that the quote was locked to.
unfoldable pub is_locked_elsewhere : AddCashOperation → MintQuote → Bool
is_locked_elsewhere operation checked =
    given operation.quote_pubkey
    && (not (given checked.pubkey)
        || not (
            str_eq (to_lower (text_of checked.pubkey)) (to_lower (text_of operation.quote_pubkey))))

-- The prepared issuance that an operation stores: its outputs and its keyset, with the signatures.
unfoldable pub stored_mint : AddCashOperation → Option PreparedMint
stored_mint operation = stored_from operation.output_data operation.keyset_id
  where
    stored_from : Option (List fibernuts.Js.Value) → Option String → Option PreparedMint
    stored_from (some output_data) (some keyset_id) =
        if str_eq keyset_id ""
        then none
        else some (record {
          output_data = output_data;
          keyset_id = keyset_id;
          legacy_signature = operation.legacy_signature;
          payload_signature = operation.payload_signature;
        })
    stored_from _ _ = none

module _ (c : MarketContext) where
  open c use {manifest, wallet, describe, new_id}

  unfoldable pub new_add :
      ℕ
      → ℕ
      → MintQuote
      → (from_faucet : Bool) → (pubkey private_key : Option String) → AddCashOperation
  new_add amount time quote from_faucet pubkey private_key = record {
    id = new_id;
    state = AddCashState.awaiting_payment;
    amount = amount;
    created_at = time;
    updated_at = time;
    mint_url = manifest.mint_url;
    error = none;
    quote_id = quote.quote;
    invoice = quote.request;
    expiry = quote.expiry;
    from_faucet = from_faucet;
    quote_pubkey = pubkey;
    quote_private_key = private_key;
    output_data = none;
    keyset_id = none;
    legacy_signature = none;
    payload_signature = none;
  }

  unfoldable pub request_add_cash : ℕ → Runtime AddCashOperation
  request_add_cash amount = do
    quote ← asked (wallet.request_mint amount)
    time ← now c
    commit_add c (new_add amount time quote false none none) none

  unfoldable pub request_test_cash : ℕ → Runtime AddCashOperation
  request_test_cash amount = do
    locked ← asked (wallet.request_locked_mint amount)
    time ← now c
    commit_add c
        (new_add amount time locked.quote true (some locked.public_key) (some locked.private_key))
        none

  abbrev pub stored_add : AddCashOperation → Runtime AddCashOperation
  stored_add input =
      reads (λ s. or_else (find_by (λ (o : AddCashOperation). o.id) input.id s.add_cash) input)

  unfoldable pub commit_state :
      AddCashOperation → AddCashState → Option String → Runtime AddCashOperation
  commit_state operation state error = do
    time ← now c
    commit_add c (record operation { state = state; updated_at = time; error = error }) none

  -- `recordTestCashPayerFailure` of the stored operation.
  unfoldable pub payer_failed : String → AddCashOperation → Runtime AddCashOperation
  payer_failed message operation = do
    fails_if (not operation.from_faucet) "This is not a community testnet claim."
    commit_state operation AddCashState.recoverable (some message)

  unfoldable pub record_test_cash_payer_failure :
      AddCashOperation → String → Runtime AddCashOperation
  record_test_cash_payer_failure input message = stored_add input >>= payer_failed message

  -- The handler of `refreshAddCash`.
  abbrev pub refresh_failed : AddCashOperation → Failure → Runtime AddCashOperation
  refresh_failed operation e = commit_state operation AddCashState.recoverable (some (describe e))

  unfoldable pub commit_issuing : AddCashOperation → PreparedMint → Runtime AddCashOperation
  commit_issuing operation prepared = do
    time ← now c
    commit_add c
        (record operation {
          state = AddCashState.issuing;
          output_data = some prepared.output_data;
          keyset_id = some prepared.keyset_id;
          legacy_signature = prepared.legacy_signature;
          payload_signature = prepared.payload_signature;
          quote_private_key = none;
          updated_at = time;
        })
        none

  -- The last commit: the issued proofs are added, and the operation keeps no outputs.
  unfoldable pub commit_issued : AddCashOperation → List Proof → Runtime AddCashOperation
  commit_issued operation proofs = do
    time ← now c
    current ← reads (λ s. s.proofs)
    commit_add c
        (record operation {
          state = AddCashState.settled;
          output_data = none;
          keyset_id = none;
          legacy_signature = none;
          payload_signature = none;
          updated_at = time;
          error = none;
        })
        (some (current ++ proofs))

  unfoldable pub complete_issue :
      AddCashOperation → MintQuote → PreparedMint → Runtime AddCashOperation
  complete_issue operation checked prepared =
      tries (refresh_failed operation)
        (sends (completes_mint prepared)
          (wallet.complete_mint (as_mint_quote operation checked) prepared))
        λ proofs. tries (refresh_failed operation) (commit_issued operation proofs) return

  -- An issuance that has just been stored.
  unfoldable pub complete_stored :
      MintQuote → AddCashOperation → Option PreparedMint → Runtime AddCashOperation
  complete_stored checked operation none =
      refresh_failed operation (plain_error "Stored issuance recovery data is incomplete.")
  complete_stored checked operation (some prepared) = complete_issue operation checked prepared

  -- A paid quote: the issuance is prepared and stored, unless it is stored already, then completed.
  unfoldable pub issue :
      MintQuote → AddCashOperation → Option PreparedMint → Runtime AddCashOperation
  issue checked operation (some prepared) = complete_issue operation checked prepared
  issue checked operation none =
      tries (refresh_failed operation)
        (asked (wallet.prepare_mint (as_mint_quote operation checked) operation.quote_private_key))
        λ prepared.
          tries (refresh_failed operation) (commit_issuing operation prepared)
            λ issuing. complete_stored checked issuing (stored_mint issuing)

  unfoldable pub expire_if : AddCashOperation → Bool → Runtime AddCashOperation
  expire_if operation false = return operation
  expire_if operation true =
      tries (refresh_failed operation)
        (commit_state operation AddCashState.expired
          (some "The Fiber invoice expired before payment was observed."))
        return

  abbrev pub is_past : AddCashOperation → Runtime Bool
  is_past operation = now c >>= λ time. return (leb (or_else operation.expiry 0 * 1000) time)

  unfoldable pub refresh_unpaid : AddCashOperation → Runtime AddCashOperation
  refresh_unpaid operation =
      if is_set operation.expiry
      then tries (refresh_failed operation) (is_past operation) (expire_if operation)
      else return operation

  unfoldable pub refresh_paid : AddCashOperation → MintQuote → Runtime AddCashOperation
  refresh_paid operation checked =
      tries (refresh_failed operation) (commit_state operation AddCashState.payment_observed none)
        λ observed. issue checked observed (stored_mint observed)

  unfoldable pub refresh_checked : AddCashOperation → MintQuote → Runtime AddCashOperation
  refresh_checked operation checked =
      if is_locked_elsewhere operation checked
      then refresh_failed operation
          (plain_error "The mint did not return the expected browser lock for this quote.")
      else if mint_quote_is_paid checked
      then refresh_paid operation checked
      else refresh_unpaid operation

  unfoldable pub refresh_found : AddCashOperation → Runtime AddCashOperation
  refresh_found operation =
      tries (refresh_failed operation) (asked (wallet.check_mint_quote operation.quote_id))
        (refresh_checked operation)

  unfoldable pub refresh_add_cash : AddCashOperation → Runtime AddCashOperation
  refresh_add_cash input = stored_add input >>= refresh_found
