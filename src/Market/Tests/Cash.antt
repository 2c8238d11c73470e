-- ===== src/Market/Tests/Cash.antt =====
-- Cash that is added, and cash that is paid out, at concrete operations.
use fibernuts.Common.{ok, ◌⊎◌, false, none, some, [], ◌∷◌, ◌≡◌, refl}
use fibernuts.Wallet.Operations.{AddCashState, CashOutState}
use fibernuts.Market.Types.{MarketRole, QuoteState, AddCashOperation, CashOutOperation}
use fibernuts.Market.Runtime.{Session, find_by}
use fibernuts.Market.Runtime.Run.{Good}
use fibernuts.Market.Runtime.AddCash.{refresh_add_cash}
use fibernuts.Market.Runtime.AddCash.Keeps.{add_cash, refresh_add_cash-Good}
use fibernuts.Market.Runtime.CashOut.{
  CashOutReview, review_cash_out, confirm_cash_out, refresh_cash_out,
}
use fibernuts.Market.Runtime.CashOut.Keeps.{cash_out, refresh_cash_out-Good}
use fibernuts.Market.Runtime.CashOut.Dispatched.{Dispatched, confirm_cash_out-Dispatched}
use fibernuts.Market.Tests.{context, melt_quote, coin, fresh_coin, empty_snapshot}

abbrev adding : AddCashOperation
adding = record {
  id = "add-1";
  state = AddCashState.awaiting_payment;
  amount = 25;
  created_at = 900000;
  updated_at = 900000;
  mint_url = "https://event.example";
  error = none;
  quote_id = "q1";
  invoice = "fibt1";
  expiry = none;
  from_faucet = false;
  quote_pubkey = none;
  quote_private_key = none;
  output_data = none;
  keyset_id = none;
  legacy_signature = none;
  payload_signature = none;
}

abbrev unfunded : Session
unfunded = record {
  snapshot = record (empty_snapshot MarketRole.attendee []) { add_cash = adding ∷ [] };
  readings = 0;
  calls = [];
}

adding_stored :
    find_by (λ (o : AddCashOperation). o.id) adding.id unfunded.snapshot.add_cash ≡ some adding
unfolding find_by
adding_stored = refl

refresh_add_cash-Good_example :
    Good add_cash adding unfunded (refresh_add_cash context adding unfunded)
refresh_add_cash-Good_example = refresh_add_cash-Good context adding adding unfunded adding_stored

-- The mint has been paid: the fresh proofs are the balance.
issued : (refresh_add_cash context adding unfunded).1.snapshot.proofs ≡ fresh_coin ∷ []
unfolding fibernuts.Market.Runtime.find_by fibernuts.Market.Runtime.replace
    fibernuts.Market.Runtime.commit_add fibernuts.Market.Runtime.AddCash.refresh_add_cash
    fibernuts.Market.Runtime.AddCash.refresh_found fibernuts.Market.Runtime.AddCash.refresh_checked
    fibernuts.Market.Runtime.AddCash.is_locked_elsewhere
    fibernuts.Market.Runtime.AddCash.mint_quote_is_paid
    fibernuts.Market.Runtime.AddCash.refresh_paid fibernuts.Market.Runtime.AddCash.commit_state
    fibernuts.Market.Runtime.AddCash.stored_mint fibernuts.Market.Runtime.AddCash.issue
    fibernuts.Market.Runtime.AddCash.commit_issuing fibernuts.Market.Runtime.AddCash.complete_stored
    fibernuts.Market.Runtime.AddCash.complete_issue fibernuts.Market.Runtime.AddCash.commit_issued
issued = refl

abbrev paying : CashOutOperation
paying = record {
  id = "payment-1";
  state = CashOutState.dispatching;
  amount = 25;
  created_at = 1000000;
  updated_at = 1000000;
  mint_url = "https://event.example";
  error = none;
  invoice = "fibt1";
  quote = record {
    quote = "q2";
    amount = 25;
    fee_reserve = 0;
    state = QuoteState.unpaid;
    expiry = 4600;
    request = "fibt1";
  };
  cashu_fee = some 0;
  reserved_proofs = some (coin ∷ []);
  output_data = some [];
  keyset_id = some "00ff";
  recovery_swap = none;
}

abbrev dispatching : Session
dispatching = record {
  snapshot = record (empty_snapshot MarketRole.attendee []) { cash_out = paying ∷ [] };
  readings = 0;
  calls = [];
}

paying_stored :
    find_by (λ (o : CashOutOperation). o.id) paying.id dispatching.snapshot.cash_out ≡ some paying
unfolding find_by
paying_stored = refl

refresh_cash_out-Good_example :
    Good cash_out paying dispatching (refresh_cash_out context paying dispatching)
refresh_cash_out-Good_example =
    refresh_cash_out-Good context paying paying dispatching paying_stored

-- The invoice was not paid: the reserved proofs are recovered.
recovered : (refresh_cash_out context paying dispatching).1.snapshot.proofs ≡ fresh_coin ∷ []
unfolding fibernuts.Market.Runtime.find_by fibernuts.Market.Runtime.replace
    fibernuts.Market.Runtime.commit_cash_out fibernuts.Market.Runtime.CashOut.refresh_cash_out
    fibernuts.Market.Runtime.CashOut.refresh_found fibernuts.Market.Runtime.CashOut.refresh_state
    fibernuts.Market.Runtime.CashOut.recover fibernuts.Market.Runtime.CashOut.recover_checked
    fibernuts.Market.Runtime.CashOut.prepare_recovery
    fibernuts.Market.Runtime.CashOut.commit_recovering
    fibernuts.Market.Runtime.CashOut.complete_recovery
    fibernuts.Market.Runtime.CashOut.commit_recovered
recovered = refl

abbrev funded : Session
funded = record {
  snapshot = empty_snapshot MarketRole.attendee (coin ∷ []);
  readings = 0;
  calls = [];
}

abbrev cash_review : CashOutReview
cash_review = record {
  quote = melt_quote;
  prepared = record {
    keep = [];
    reserved_proofs = coin ∷ [];
    output_data = [];
    keyset_id = "00ff";
    input_fee = 0;
  };
  balance = 25;
  maximum_debit = 25;
  proof_fingerprint = "proofs";
}

cash_reviewed : (review_cash_out context melt_quote funded).0 ≡ ok cash_review
unfolding fibernuts.Market.Runtime.CashOut.review_cash_out
    fibernuts.Market.Runtime.Payments.sum_proofs
cash_reviewed = refl

abbrev cashed_out : Session
cashed_out = (confirm_cash_out context cash_review funded).1

confirm_cash_out-Dispatched_example :
    ((cashed_out.snapshot ≡ funded.snapshot) × (cashed_out.calls ≡ funded.calls))
    ⊎ Dispatched cash_review funded cashed_out
confirm_cash_out-Dispatched_example = confirm_cash_out-Dispatched context cash_review funded

-- The mint has paid the invoice.
paid_out :
    (confirm_cash_out context cash_review funded).0
    ≡ ok (record paying {
      state = CashOutState.paid;
      quote = record paying.quote { state = QuoteState.paid };
      reserved_proofs = none;
      output_data = none;
      keyset_id = none;
    })
unfolding fibernuts.Market.Runtime.replace fibernuts.Market.Runtime.commit_cash_out
    fibernuts.Market.Runtime.CashOut.confirm_cash_out
    fibernuts.Market.Runtime.CashOut.commit_dispatching
    fibernuts.Market.Runtime.CashOut.store_melt_quote fibernuts.Market.Runtime.CashOut.new_cash_out
    fibernuts.Market.Runtime.CashOut.execute fibernuts.Market.Runtime.CashOut.executed
    fibernuts.Market.Runtime.CashOut.commit_paid
paid_out = refl
