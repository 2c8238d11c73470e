-- ===== src/Market/Runtime/CashOut/Keeps.antt =====
-- What confirming and refreshing an operation that cashes out keeps.
use fibernuts.Common.{
  ℕ, String, Bool, not, Option, none, some, List, ◌++◌, ◌≡◌, refl, sym, ap, ◌&&◌, Bool-cases, inl,
  inr,
}
use fibernuts.Market.Types.{Proof, StoredSwapPreview, QuoteState, CashOutOperation}
use fibernuts.Market.Errors.{Failure, Attempt}
use fibernuts.Market.Ports.{TokenSpendState, MeltQuote, MeltExecution, MarketContext}
use fibernuts.Market.Runtime.{
  Call, completes_receive, executes_melt, Session, find_by, or_else, commit_cash_out,
}
use fibernuts.Market.Runtime.Records.{find_by-id}
use fibernuts.Market.Runtime.Rules.{Ends, Ends-weaken}
use fibernuts.Market.Runtime.Run.{
  Kind, Keyed, At, Good, Good-of, start-Run, commit-Ends, recommit_exact-Ends, recommit-Ends,
  sends-Ends, tries-Good, tries_asked-Good, tries_last-Good,
}
use fibernuts.Market.Runtime.CashOut.{
  CashOutReview, is_filled, cash_out_failed, commit_paid, commit_open, executed, execute,
  refresh_paid, commit_pending, commit_recovered, complete_recovery, commit_recovering,
  commit_reserved, prepare_recovery, recover_checked, recover, refresh_state, refresh_found,
  refresh_cash_out,
}

-- An operation backs the payment of its invoice with the proofs that it reserves and the outputs that it
-- stores, and the swap by which it recovers reserved proofs.
abbrev pub CashOutBacks : CashOutOperation → Call → Type 0
CashOutBacks operation (executes_melt prepared) =
    (operation.reserved_proofs ≡ some prepared.reserved_proofs)
    × (operation.output_data ≡ some prepared.output_data)
    × (operation.keyset_id ≡ some prepared.keyset_id)
CashOutBacks operation (completes_receive swap) = operation.recovery_swap ≡ some swap
CashOutBacks operation _ = ⊥

abbrev pub cash_out : Kind CashOutOperation
cash_out = record {
  id = λ o. o.id;
  Mark = ℕ × String × String;
  mark = λ o. (o.amount, o.quote.quote, o.invoice);
  records = λ s. s.cash_out;
  put = λ s proofs records. record s { proofs = proofs; cash_out = records };
  Same = λ a b.
      (b.role ≡ a.role)
      × (b.event_id ≡ a.event_id)
      × (b.mint_url ≡ a.mint_url)
      × (b.payments ≡ a.payments)
      × (b.orders ≡ a.orders)
      × (b.add_cash ≡ a.add_cash);
  Backs = CashOutBacks;
  records_put = λ s ps rs. refl;
  proofs_put = λ s ps rs. refl;
  same_refl = λ s. (refl, refl, refl, refl, refl, refl);
  same_put = λ a s ps rs h. h;
}

module _ (origin : CashOutOperation) (start : Session) (c : MarketContext) where
  abbrev Stored : CashOutOperation → Session → Type 0
  Stored = At cash_out origin start

  abbrev Sound : Attempt CashOutOperation × Session → Type 0
  Sound = Good cash_out origin start

  recommit_cash_out-Ends :
      (current next : CashOutOperation) (s : Session)
      → Stored current s
      → Keyed cash_out origin start next
      → Ends Stored (Stored current) (commit_cash_out c next none s)
  unfolding commit_cash_out
  recommit_cash_out-Ends current next s = recommit-Ends cash_out origin start c current next s

  adds-Ends :
      (current next : CashOutOperation) (more : List Proof) (s : Session)
      → Stored current s
      → Keyed cash_out origin start next
      → Ends Stored (Stored current) (commit_cash_out c next (some (s.snapshot.proofs ++ more)) s)
  unfolding commit_cash_out
  adds-Ends current next more s at same =
      commit-Ends cash_out origin start c current next (some (s.snapshot.proofs ++ more)) more s at
        same refl

  cash_out_failed-Good :
      (operation : CashOutOperation) (e : Failure) (s : Session)
      → Stored operation s
      → Sound (cash_out_failed c operation e s)
  unfolding cash_out_failed
  cash_out_failed-Good operation e s at =
      Good-of cash_out origin start operation _ (recommit_cash_out-Ends operation _ _ at at.1)

  -- The last commit of a `try` block of an operation.
  last-Good :
      (operation : CashOutOperation) (r : Attempt CashOutOperation × Session)
      → Ends Stored (Stored operation) r
      → Sound (
          fibernuts.Market.Runtime.either
            (cash_out_failed c operation)
            fibernuts.Market.Runtime.return
            r)
  last-Good operation r =
      tries_last-Good cash_out origin start (cash_out_failed c operation) operation
        (cash_out_failed-Good operation) r

  commit_paid-Ends :
      (operation : CashOutOperation) (swap : Option StoredSwapPreview) (change : List Proof)
      (s : Session)
      → Stored operation s
      → Ends Stored (Stored operation) (commit_paid c operation swap change s)
  unfolding commit_paid
  commit_paid-Ends operation swap change s at = adds-Ends operation _ change _ at at.1

  executed-Good :
      (operation : CashOutOperation) (result : MeltExecution) (state : QuoteState) (s : Session)
      → Stored operation s
      → Sound (executed c operation result state s)
  unfolding executed commit_open
  executed-Good operation result QuoteState.paid s at =
      last-Good operation _ (commit_paid-Ends operation _ _ s at)
  executed-Good operation result QuoteState.pending s at =
      last-Good operation _ (recommit_cash_out-Ends operation _ _ at at.1)
  executed-Good operation result QuoteState.unpaid s at =
      last-Good operation _ (recommit_cash_out-Ends operation _ _ at at.1)

  pub execute-Good :
      (review : CashOutReview) (operation : CashOutOperation) (s : Session)
      → Stored operation s
      → CashOutBacks operation (executes_melt review.prepared)
      → Sound (execute c review operation s)
  unfolding execute
  execute-Good review operation s at held =
      tries-Good cash_out origin start (cash_out_failed c operation) operation
        (cash_out_failed-Good operation) (λ a t. Stored operation t) _ _
        (sends-Ends cash_out origin start operation (executes_melt review.prepared) _ s at held)
        (λ result t at'. executed-Good operation result result.state t at')

  refresh_paid-Good :
      (operation : CashOutOperation) (checked : MeltQuote) (s : Session)
      → Stored operation s
      → Sound (refresh_paid c operation checked s)
  unfolding refresh_paid
  refresh_paid-Good operation checked s at = elim (Bool-cases missing) [
    | inl e ↦ rw e (cash_out_failed-Good operation _ s at)
    | inr e ↦ rw e (
        tries_asked-Good cash_out origin start (cash_out_failed c operation) operation
          (cash_out_failed-Good operation) _ s _ at
          (λ change t at'. last-Good operation _ (commit_paid-Ends operation none change t at')))
  ]
    where
      missing : Bool
      missing = is_filled checked.change && not (is_filled operation.output_data)

  commit_recovered-Ends :
      (operation : CashOutOperation) (proofs : List Proof) (s : Session)
      → Stored operation s
      → Ends Stored (Stored operation) (commit_recovered c operation proofs s)
  unfolding commit_recovered
  commit_recovered-Ends operation proofs s at = adds-Ends operation _ proofs _ at at.1

  complete_recovery-Good :
      (operation : CashOutOperation) (swap : StoredSwapPreview) (s : Session)
      → Stored operation s
      → operation.recovery_swap ≡ some swap
      → Sound (complete_recovery c operation swap s)
  unfolding complete_recovery
  complete_recovery-Good operation swap s at held =
      tries-Good cash_out origin start (cash_out_failed c operation) operation
        (cash_out_failed-Good operation) (λ a t. Stored operation t) _ _
        (sends-Ends cash_out origin start operation (completes_receive swap) _ s at held)
        (λ proofs t at'. last-Good operation _ (commit_recovered-Ends operation proofs t at'))

  commit_recovering-Ends :
      (operation : CashOutOperation) (swap : StoredSwapPreview) (s : Session)
      → Stored operation s
      → Ends
          (λ o t. Stored o t × (o.recovery_swap ≡ some swap))
          (Stored operation)
          (commit_recovering c operation swap s)
  unfolding commit_recovering commit_cash_out
  commit_recovering-Ends operation swap s at =
      Ends-weaken (commit_recovering c operation swap s)
        (recommit_exact-Ends cash_out origin start c operation _ _ at at.1)
        (λ o t h. (h.0, ap (λ (x : CashOutOperation). x.recovery_swap) h.1)) (λ t h. h)

  prepare_recovery-Good :
      (operation : CashOutOperation) (reserved : List Proof) (s : Session)
      → Stored operation s
      → Sound (prepare_recovery c operation reserved s)
  unfolding prepare_recovery
  prepare_recovery-Good operation reserved s at =
      tries_asked-Good cash_out origin start (cash_out_failed c operation) operation
        (cash_out_failed-Good operation) (c.wallet.encode_proofs reserved) s _ at
        (λ token t at'.
          tries_asked-Good cash_out origin start (cash_out_failed c operation) operation
            (cash_out_failed-Good operation) (c.wallet.prepare_receive token none) t _ at'
            (λ swap u at''.
              tries-Good cash_out origin start (cash_out_failed c operation) operation
                (cash_out_failed-Good operation) (λ o v. Stored o v × (o.recovery_swap ≡ some swap))
                (commit_recovering c operation swap u) _
                (commit_recovering-Ends operation swap u at'')
                (λ o v h. complete_recovery-Good o swap v h.0 h.1)))

  recover_checked-Good :
      (operation : CashOutOperation) (reserved : List Proof) (state : TokenSpendState) (s : Session)
      → Stored operation s
      → Sound (recover_checked c operation reserved state s)
  unfolding recover_checked commit_reserved
  recover_checked-Good operation reserved TokenSpendState.unspent s at =
      prepare_recovery-Good operation reserved s at
  recover_checked-Good operation reserved TokenSpendState.pending s at =
      last-Good operation _ (recommit_cash_out-Ends operation _ _ at at.1)
  recover_checked-Good operation reserved TokenSpendState.spent s at =
      last-Good operation _ (recommit_cash_out-Ends operation _ _ at at.1)
  recover_checked-Good operation reserved TokenSpendState.mixed s at =
      last-Good operation _ (recommit_cash_out-Ends operation _ _ at at.1)

  recover-Good :
      (operation : CashOutOperation) (reserved : List Proof) (stored : Option StoredSwapPreview)
      (s : Session)
      → Stored operation s
      → operation.recovery_swap ≡ stored
      → Sound (recover c operation reserved stored s)
  unfolding recover
  recover-Good operation reserved (some swap) s at e = complete_recovery-Good operation swap s at e
  recover-Good operation reserved none s at e =
      tries_asked-Good cash_out origin start (cash_out_failed c operation) operation
        (cash_out_failed-Good operation) _ s _ at (recover_checked-Good operation reserved)

  refresh_state-Good :
      (operation : CashOutOperation) (checked : MeltQuote) (state : QuoteState) (s : Session)
      → Stored operation s
      → Sound (refresh_state c operation checked state s)
  unfolding refresh_state commit_pending
  refresh_state-Good operation checked QuoteState.paid s at =
      refresh_paid-Good operation checked s at
  refresh_state-Good operation checked QuoteState.pending s at =
      last-Good operation _ (recommit_cash_out-Ends operation _ _ at at.1)
  refresh_state-Good operation checked QuoteState.unpaid s at =
      elim (Bool-cases (not (is_filled operation.reserved_proofs))) [
        | inl e ↦ rw e (cash_out_failed-Good operation _ s at)
        | inr e ↦ rw e (recover-Good operation _ operation.recovery_swap s at refl)
      ]

  refresh_found-Good :
      (operation : CashOutOperation) (s : Session)
      → Stored operation s
      → Sound (refresh_found c operation s)
  unfolding refresh_found
  refresh_found-Good operation s at =
      tries_asked-Good cash_out origin start (cash_out_failed c operation) operation
        (cash_out_failed-Good operation) _ s _ at
        (λ checked t at'. refresh_state-Good operation checked checked.state t at')

-- Whatever the wallet and the storage answer, refreshing a stored operation that cashes out changes no
-- other operation, order or payment, keeps identifiers distinct, removes no proofs, and completes no
-- swap but one that is stored in the operation at that time. The operation stays stored, with the
-- amount, the quote and the invoice it had, and it is the one that is returned.
pub refresh_cash_out-Good :
    (c : MarketContext) (input operation : CashOutOperation) (s : Session)
    → find_by (λ (o : CashOutOperation). o.id) input.id s.snapshot.cash_out ≡ some operation
    → Good cash_out operation s (refresh_cash_out c input s)
unfolding refresh_cash_out
refresh_cash_out-Good c input operation s found = rw found (
    refresh_found-Good operation s c operation s
      (start-Run cash_out operation s (rw same at found), (refl, refl), rw same at found))
  where
    same : input.id ≡ operation.id
    same = sym (find_by-id (λ (o : CashOutOperation). o.id) input.id s.snapshot.cash_out found)
