-- ===== src/Market/Runtime.antt =====
-- market/src/domain/market-runtime.ts: a call of the runtime as a function from the session to what
-- it returns or throws and the session after it. What is committed stays committed after an error.
-- One operation runs at a time, under the lock that market/src/hooks/useMarket.ts takes.
pub mod Records
pub mod Rules
pub mod Run
pub mod Orders
pub mod Settlement
pub mod Inbox
pub mod Payments
pub mod AddCash
pub mod CashOut
use fibernuts.Common.{
  Throwing, ok, err, ℕ, ◌+◌, String, Bool, true, false, not, Option, none, some, List, [], ◌∷◌, map,
  str_eq, any, if◌then◌else◌,
}
use fibernuts.Market.Types.{
  Proof, StoredSwapPreview, MarketRole, AttendeePayment, VendorOrder, AddCashOperation,
  CashOutOperation, MarketSnapshot,
}
use fibernuts.Market.Errors.{Failure, plain_error, Attempt}
use fibernuts.Market.Ports.{MarketContext, PreparedMint, PreparedMelt}

-- The calls that move value, and that the relay's slot of an order is filled with.
pub data Call : Type 0 where
  completes_send : StoredSwapPreview → Call
  completes_receive : StoredSwapPreview → Call
  completes_mint : PreparedMint → Call
  executes_melt : PreparedMelt → Call
  delivers : (url payload : String) → Call

-- `readings` counts the readings of the clock, and `calls` holds the calls that move value, the last
-- one first, each with the snapshot that was committed when it was made.
pub record Session : Type 0 where
  pub snapshot : MarketSnapshot
  pub readings : ℕ
  pub calls : List (Call × MarketSnapshot)

abbrev pub Runtime : Type 0 → Type 0
Runtime A = Session → Attempt A × Session

module _ {A : Type 0} where
  abbrev pub return : A → Runtime A
  return a s = (ok a, s)

  abbrev pub raise : Failure → Runtime A
  raise e s = (err e, s)

  -- What a port or a pure function answers.
  abbrev pub asked : Attempt A → Runtime A
  asked r s = (r, s)

  -- The answer to a call that moves value.
  abbrev pub sends : Call → Attempt A → Runtime A
  sends call r s = (r, record s { calls = (call, s.snapshot) ∷ s.calls })

  abbrev pub reads : (MarketSnapshot → A) → Runtime A
  reads f s = (ok (f s.snapshot), s)

abbrev pub and_then : {A B : Type 0} → (A → Runtime B) → Attempt A × Session → Attempt B × Session
and_then next (ok a, s) = next a s
and_then next (err e, s) = (err e, s)

infixl 5 ◌>>=◌ ◌>>◌
abbrev pub ◌>>=◌ : {A B : Type 0} → Runtime A → (A → Runtime B) → Runtime B
◌>>=◌ m next s = and_then next (m s)

abbrev pub ◌>>◌ : {A B : Type 0} → Runtime A → Runtime B → Runtime B
m >> next = m >>= λ _. next

abbrev pub either :
    {A B : Type 0}
    → (Failure → Runtime B)
    → (A → Runtime B)
    → Attempt A × Session
    → Attempt B × Session
either handle next (ok a, s) = next a s
either handle next (err e, s) = handle e s

-- A step of a `try` block: its error goes to the handler, and the errors of what follows do not, unless
-- that is a step as well.
abbrev pub tries : {A B : Type 0} → (Failure → Runtime B) → Runtime A → (A → Runtime B) → Runtime B
tries handle m next s = either handle next (m s)

abbrev pub fails_if : Bool → String → Runtime (Unit {0})
fails_if bad text = if bad then raise (plain_error text) else return tt

-- `if (records.some(item => item.id === next.id)) records.map(…) else [next, ...records]`.
module _ {R : Type 0} (id : R → String) where
  abbrev pub swapped_in : R → R → R
  swapped_in next r = if str_eq (id r) (id next) then next else r

  unfoldable pub replace : List R → R → List R
  replace records next =
      if any (λ r. str_eq (id r) (id next)) records
      then map (swapped_in next) records
      else next ∷ records

  -- `records.find(item => item.id === key)`.
  unfoldable pub find_by : String → List R → Option R
  find_by key [] = none
  find_by key (r ∷ records) =
      let found = find_by key records in if str_eq (id r) key then some r else found

abbrev pub or_else {ℓ} : {A : Type ℓ} → Option A → A → A
or_else none d = d
or_else (some a) d = a

abbrev pub same_role : MarketRole → MarketRole → Bool
same_role MarketRole.attendee MarketRole.attendee = true
same_role MarketRole.vendor MarketRole.vendor = true
same_role _ _ = false

abbrev role_text : MarketRole → String
role_text MarketRole.attendee = "This action requires the attendee application."
role_text MarketRole.vendor = "This action requires the vendor application."

-- `assertRole`.
unfoldable pub assert_role : MarketRole → Runtime (Unit {0})
assert_role role s = fails_if (not (same_role s.snapshot.role role)) (role_text role) s

module _ (c : MarketContext) where
  -- `this.now()`.
  abbrev pub now : Runtime ℕ
  now s = (ok (c.now s.readings), record s { readings = s.readings + 1 })

  abbrev pub committed :
      {R : Type 0} → R → MarketSnapshot → Session → Attempt (Unit {0}) → Attempt R × Session
  committed r next s (ok done) = (ok r, record s { snapshot = next })
  committed r next s (err e) = (err e, s)

  abbrev pub commits : {R : Type 0} → R → MarketSnapshot → Runtime R
  commits r next s = committed r next s (c.commit next)

  -- `commitPayment`, `commitOrder`, `commitAdd` and `commitCashOut`, with the proofs where they are given.
  unfoldable pub commit_payment : AttendeePayment → Option (List Proof) → Runtime AttendeePayment
  commit_payment payment proofs s =
      commits payment
        (record s.snapshot {
          proofs = or_else proofs s.snapshot.proofs;
          payments = replace (λ (p : AttendeePayment). p.id) s.snapshot.payments payment;
        })
        s

  unfoldable pub commit_order : VendorOrder → Option (List Proof) → Runtime VendorOrder
  commit_order order proofs s =
      commits order
        (record s.snapshot {
          proofs = or_else proofs s.snapshot.proofs;
          orders = replace (λ (o : VendorOrder). o.id) s.snapshot.orders order;
        })
        s

  unfoldable pub commit_add : AddCashOperation → Option (List Proof) → Runtime AddCashOperation
  commit_add operation proofs s =
      commits operation
        (record s.snapshot {
          proofs = or_else proofs s.snapshot.proofs;
          add_cash = replace (λ (o : AddCashOperation). o.id) s.snapshot.add_cash operation;
        })
        s

  unfoldable pub commit_cash_out : CashOutOperation → Option (List Proof) → Runtime CashOutOperation
  commit_cash_out operation proofs s =
      commits operation
        (record s.snapshot {
          proofs = or_else proofs s.snapshot.proofs;
          cash_out = replace (λ (o : CashOutOperation). o.id) s.snapshot.cash_out operation;
        })
        s
