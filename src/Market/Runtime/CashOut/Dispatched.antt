-- ===== src/Market/Runtime/CashOut/Dispatched.antt =====
-- What confirming a cash-out comes to: `confirmCashOut` of market/src/domain/market-runtime.ts.
use fibernuts.Common.{ok, err, ℕ, Bool, not, some, ◌≡◌, refl, str_eq, Option-cases, inl, inr, ◌⊎◌}
use fibernuts.Market.Types.{StoredMeltQuote, CashOutOperation}
use fibernuts.Market.Errors.{Attempt}
use fibernuts.Market.Ports.{MarketContext}
use fibernuts.Market.Runtime.{executes_melt, Session, and_then, commit_cash_out, find_by}
use fibernuts.Market.Runtime.Records.{find-replace}
use fibernuts.Market.Runtime.Rules.{Ends, Ends-weaken, committed-Ends, and_then-Ends, guard-Ends}
use fibernuts.Market.Runtime.Run.{Run, start-Run}
use fibernuts.Market.Runtime.CashOut.{
  CashOutReview, new_cash_out, commit_dispatching, store_melt_quote, execute, confirm_cash_out,
}
use fibernuts.Market.Runtime.CashOut.Keeps.{CashOutBacks, cash_out, execute-Good}

-- The operation as it was stored before the call to the mint, and the session then: the balance is what
-- the review keeps, the proofs to pay with are in the operation, and no call had been made. From there
-- on the session has run for this operation.
pub record Dispatched (review : CashOutReview) (before after : Session) : Type 0 where
  pub operation : CashOutOperation
  pub stored : Session
  pub found :
      find_by (λ (o : CashOutOperation). o.id) operation.id stored.snapshot.cash_out
      ≡ some operation
  pub backed : CashOutBacks operation (executes_melt review.prepared)
  pub balance : stored.snapshot.proofs ≡ review.prepared.keep
  pub payments : stored.snapshot.payments ≡ before.snapshot.payments
  pub orders : stored.snapshot.orders ≡ before.snapshot.orders
  pub add_cash : stored.snapshot.add_cash ≡ before.snapshot.add_cash
  pub uncalled : stored.calls ≡ before.calls
  pub run : Run cash_out operation stored after

module _ (c : MarketContext) (review : CashOutReview) (s : Session) where
  abbrev Same : Session → Type 0
  Same t = (t.snapshot ≡ s.snapshot) × (t.calls ≡ s.calls)

  -- The operation is stored, and no call has been made.
  abbrev Stored : CashOutOperation → Session → Type 0
  Stored o t =
      (find_by (λ (x : CashOutOperation). x.id) o.id t.snapshot.cash_out ≡ some o)
      × CashOutBacks o (executes_melt review.prepared)
      × (t.snapshot.proofs ≡ review.prepared.keep)
      × (t.snapshot.payments ≡ s.snapshot.payments)
      × (t.snapshot.orders ≡ s.snapshot.orders)
      × (t.snapshot.add_cash ≡ s.snapshot.add_cash)
      × (t.calls ≡ s.calls)

  abbrev Outcome : Session → Type 0
  Outcome t = Same t ⊎ Dispatched review s t

  first-Ends :
      (time : ℕ) (quote : StoredMeltQuote) (readings : ℕ)
      → Ends Stored Same (
          commit_cash_out c
            (new_cash_out c review time quote)
            (some review.prepared.keep)
            (record s { readings = readings }))
  unfolding commit_cash_out new_cash_out
  first-Ends time quote readings =
      committed-Ends c Stored Same (new_cash_out c review time quote) _
        (record s { readings = readings }) _
        (
          find-replace (λ (x : CashOutOperation). x.id) s.snapshot.cash_out
              (new_cash_out c review time quote),
          (refl, refl, refl),
          refl,
          refl,
          refl,
          refl,
          refl,
        )
        (refl, refl)

  commit_dispatching-Ends : Ends Stored Same (commit_dispatching c review s)
  unfolding commit_dispatching store_melt_quote commit_cash_out new_cash_out
  commit_dispatching-Ends = elim (Option-cases review.quote.expiry) [
    | inl e ↦ rw e (first-Ends _ _ _)
    | inr (expiry, e) ↦ rw e (first-Ends _ _ _)
  ]

  executed-Dispatched :
      (o : CashOutOperation) (t : Session)
      → Stored o t
      → Ends (λ p u. Outcome u) Outcome (execute c review o t)
  executed-Dispatched o t (found, backed, balance, payments, orders, add_cash, uncalled) =
      Ends-weaken (execute c review o t)
        (execute-Good o t c review o t (start-Run cash_out o t found, (refl, refl), found) backed)
        (λ p u at. inr (dispatched u at.0)) (λ u run. inr (dispatched u run))
    where
      dispatched : (u : Session) → Run cash_out o t u → Dispatched review s u
      dispatched u run = record {
        operation = o;
        stored = t;
        found = found;
        backed = backed;
        balance = balance;
        payments = payments;
        orders = orders;
        add_cash = add_cash;
        uncalled = uncalled;
        run = run;
      }

  confirm_cash_out-Outcome : Ends (λ p u. Outcome u) Outcome (confirm_cash_out c review s)
  unfolding confirm_cash_out
  confirm_cash_out-Outcome =
      guard-Ends (λ p u. Outcome u) Outcome changed _
        (λ done t. and_then (execute c review) (commit_dispatching c review t)) s (inl (refl, refl))
        (and_then-Ends Stored (λ p u. Outcome u) Outcome (commit_dispatching c review s)
          (execute c review)
          (Ends-weaken (commit_dispatching c review s) commit_dispatching-Ends (λ o t h. h)
            (λ t h. inl h))
          executed-Dispatched)
    where
      changed : Bool
      changed = not (str_eq review.proof_fingerprint (c.fingerprint s.snapshot.proofs))

  -- Confirming a cash-out changes nothing and moves no value, or else the operation is stored with the
  -- proofs to pay with, and the balance without them, before the mint is asked to pay. From then on no
  -- other operation, order or payment changes, proofs are only added, and the only calls that move
  -- value are backed by the stored operation.
  pub confirm_cash_out-Dispatched :
      let t = (confirm_cash_out c review s).1 in
      ((t.snapshot ≡ s.snapshot) × (t.calls ≡ s.calls)) ⊎ Dispatched review s t
  confirm_cash_out-Dispatched = after (confirm_cash_out c review s) confirm_cash_out-Outcome
    where
      after :
          (r : Attempt CashOutOperation × Session) → Ends (λ p u. Outcome u) Outcome r → Outcome r.1
      after (ok o, t) h = h
      after (err e, t) h = h
