-- ===== src/Market/Runtime/AddCash/Keeps.antt =====
-- What refreshing an operation that adds cash keeps.
use fibernuts.Common.{
  ℕ, String, Bool, true, false, Option, none, some, List, ◌++◌, ◌≡◌, refl, sym, Bool-cases, inl,
  inr,
}
use fibernuts.Wallet.Operations.{AddCashState}
use fibernuts.Market.Types.{Proof, AddCashOperation, is_set}
use fibernuts.Market.Errors.{Failure}
use fibernuts.Market.Ports.{MintQuote, PreparedMint, MarketContext}
use fibernuts.Market.Runtime.{Call, completes_mint, Session, find_by, commit_add}
use fibernuts.Market.Runtime.Records.{find_by-id}
use fibernuts.Market.Runtime.Rules.{Ends}
use fibernuts.Market.Runtime.Run.{
  Kind, Keyed, At, Good, Good-of, start-Run, commit-Ends, recommit-Ends, sends-Ends, tries-Good,
  tries_asked-Good, tries_last-Good,
}
use fibernuts.Market.Runtime.AddCash.{
  stored_mint, is_locked_elsewhere, mint_quote_is_paid, commit_state, refresh_failed,
  commit_issuing, commit_issued, complete_issue, complete_stored, issue, expire_if, refresh_unpaid,
  refresh_paid, refresh_checked, refresh_found, refresh_add_cash,
}

-- An operation backs the completion of the issuance that it stores.
abbrev AddBacks : AddCashOperation → Call → Type 0
AddBacks operation (completes_mint prepared) = stored_mint operation ≡ some prepared
AddBacks operation _ = ⊥

abbrev pub add_cash : Kind AddCashOperation
add_cash = record {
  id = λ o. o.id;
  Mark = ℕ × String × String;
  mark = λ o. (o.amount, o.quote_id, o.invoice);
  records = λ s. s.add_cash;
  put = λ s proofs records. record s { proofs = proofs; add_cash = records };
  Same = λ a b.
      (b.role ≡ a.role)
      × (b.event_id ≡ a.event_id)
      × (b.mint_url ≡ a.mint_url)
      × (b.payments ≡ a.payments)
      × (b.orders ≡ a.orders)
      × (b.cash_out ≡ a.cash_out);
  Backs = AddBacks;
  records_put = λ s ps rs. refl;
  proofs_put = λ s ps rs. refl;
  same_refl = λ s. (refl, refl, refl, refl, refl, refl);
  same_put = λ a s ps rs h. h;
}

module _ (origin : AddCashOperation) (start : Session) (c : MarketContext) where
  abbrev Stored : AddCashOperation → Session → Type 0
  Stored = At add_cash origin start

  abbrev Sound : fibernuts.Market.Errors.Attempt AddCashOperation × Session → Type 0
  Sound = Good add_cash origin start

  recommit_add-Ends :
      (current next : AddCashOperation) (s : Session)
      → Stored current s
      → Keyed add_cash origin start next
      → Ends Stored (Stored current) (commit_add c next none s)
  unfolding commit_add
  recommit_add-Ends current next s = recommit-Ends add_cash origin start c current next s

  commit_state-Ends :
      (operation : AddCashOperation) (state : AddCashState) (error : Option String) (s : Session)
      → Stored operation s
      → Ends Stored (Stored operation) (commit_state c operation state error s)
  unfolding commit_state
  commit_state-Ends operation state error s at = recommit_add-Ends operation _ _ at at.1

  refresh_failed-Good :
      (operation : AddCashOperation) (e : Failure) (s : Session)
      → Stored operation s
      → Sound (refresh_failed c operation e s)
  refresh_failed-Good operation e s at =
      Good-of add_cash origin start operation _
        (commit_state-Ends operation AddCashState.recoverable _ s at)

  commit_issued-Ends :
      (operation : AddCashOperation) (proofs : List Proof) (s : Session)
      → Stored operation s
      → Ends Stored (Stored operation) (commit_issued c operation proofs s)
  unfolding commit_issued commit_add
  commit_issued-Ends operation proofs s at =
      commit-Ends add_cash origin start c operation _ (some (s.snapshot.proofs ++ proofs)) proofs _
        at at.1 refl

  complete_issue-Good :
      (operation : AddCashOperation) (checked : MintQuote) (prepared : PreparedMint) (s : Session)
      → Stored operation s
      → stored_mint operation ≡ some prepared
      → Sound (complete_issue c operation checked prepared s)
  unfolding complete_issue
  complete_issue-Good operation checked prepared s at held =
      tries-Good add_cash origin start (refresh_failed c operation) operation
        (refresh_failed-Good operation) (λ a t. Stored operation t) _ _
        (sends-Ends add_cash origin start operation (completes_mint prepared) _ s at held)
        (λ proofs t at'.
          tries_last-Good add_cash origin start (refresh_failed c operation) operation
            (refresh_failed-Good operation) _ (commit_issued-Ends operation proofs t at'))

  complete_stored-Good :
      (checked : MintQuote) (operation : AddCashOperation) (stored : Option PreparedMint)
      (s : Session)
      → Stored operation s
      → stored_mint operation ≡ stored
      → Sound (complete_stored c checked operation stored s)
  unfolding complete_stored
  complete_stored-Good checked operation none s at e = refresh_failed-Good operation _ s at
  complete_stored-Good checked operation (some prepared) s at e =
      complete_issue-Good operation checked prepared s at e

  issue-Good :
      (checked : MintQuote) (operation : AddCashOperation) (stored : Option PreparedMint)
      (s : Session)
      → Stored operation s
      → stored_mint operation ≡ stored
      → Sound (issue c checked operation stored s)
  unfolding issue commit_issuing
  issue-Good checked operation (some prepared) s at e =
      complete_issue-Good operation checked prepared s at e
  issue-Good checked operation none s at e =
      tries_asked-Good add_cash origin start (refresh_failed c operation) operation
        (refresh_failed-Good operation) _ s _ at
        (λ prepared t at'.
          tries-Good add_cash origin start (refresh_failed c operation) operation
            (refresh_failed-Good operation) Stored (commit_issuing c operation prepared t) _
            (recommit_add-Ends operation _ _ at' at'.1)
            (λ issuing u at''.
              complete_stored-Good checked issuing (stored_mint issuing) u at'' refl))

  expire_if-Good :
      (operation : AddCashOperation) (past : Bool) (s : Session)
      → Stored operation s
      → Sound (expire_if c operation past s)
  unfolding expire_if
  expire_if-Good operation false s at = at
  expire_if-Good operation true s at =
      tries_last-Good add_cash origin start (refresh_failed c operation) operation
        (refresh_failed-Good operation) _ (commit_state-Ends operation AddCashState.expired _ s at)

  refresh_unpaid-Good :
      (operation : AddCashOperation) (s : Session)
      → Stored operation s
      → Sound (refresh_unpaid c operation s)
  unfolding refresh_unpaid
  refresh_unpaid-Good operation s at = elim (Bool-cases (is_set operation.expiry)) [
    | inl e ↦ rw e (expire_if-Good operation _ _ at)
    | inr e ↦ rw e at
  ]

  refresh_paid-Good :
      (operation : AddCashOperation) (checked : MintQuote) (s : Session)
      → Stored operation s
      → Sound (refresh_paid c operation checked s)
  unfolding refresh_paid
  refresh_paid-Good operation checked s at =
      tries-Good add_cash origin start (refresh_failed c operation) operation
        (refresh_failed-Good operation) Stored
        (commit_state c operation AddCashState.payment_observed none s) _
        (commit_state-Ends operation AddCashState.payment_observed none s at)
        (λ observed t at'. issue-Good checked observed (stored_mint observed) t at' refl)

  refresh_checked-Good :
      (operation : AddCashOperation) (checked : MintQuote) (s : Session)
      → Stored operation s
      → Sound (refresh_checked c operation checked s)
  unfolding refresh_checked
  refresh_checked-Good operation checked s at =
      elim (Bool-cases (is_locked_elsewhere operation checked)) [
        | inl e ↦ rw e (refresh_failed-Good operation _ s at)
        | inr e ↦ rw e (elim (Bool-cases (mint_quote_is_paid checked)) [
          | inl f ↦ rw f (refresh_paid-Good operation checked s at)
          | inr f ↦ rw f (refresh_unpaid-Good operation s at)
        ])
      ]

  refresh_found-Good :
      (operation : AddCashOperation) (s : Session)
      → Stored operation s
      → Sound (refresh_found c operation s)
  unfolding refresh_found
  refresh_found-Good operation s at =
      tries_asked-Good add_cash origin start (refresh_failed c operation) operation
        (refresh_failed-Good operation) _ s _ at (refresh_checked-Good operation)

-- Whatever the wallet and the storage answer, refreshing a stored operation that adds cash changes no
-- other operation, order or payment, keeps identifiers distinct, removes no proofs, and completes no
-- issuance but one that is stored in the operation at that time. The operation stays stored, with the
-- amount, the quote and the invoice it had, and it is the one that is returned.
pub refresh_add_cash-Good :
    (c : MarketContext) (input operation : AddCashOperation) (s : Session)
    → find_by (λ (o : AddCashOperation). o.id) input.id s.snapshot.add_cash ≡ some operation
    → Good add_cash operation s (refresh_add_cash c input s)
unfolding refresh_add_cash
refresh_add_cash-Good c input operation s found = rw found (
    refresh_found-Good operation s c operation s
      (start-Run add_cash operation s (rw same at found), (refl, refl), rw same at found))
  where
    same : input.id ≡ operation.id
    same = sym (find_by-id (λ (o : AddCashOperation). o.id) input.id s.snapshot.add_cash found)
