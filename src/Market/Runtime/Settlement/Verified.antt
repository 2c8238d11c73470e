-- ===== src/Market/Runtime/Settlement/Verified.antt =====
-- An order is settled by a token that has passed every test.
use mathlib.Core.Path.{subst}
use fibernuts.Common.{
  ok, err, ℕ, String, Bool, true, false, not, Option, none, some, List, ◌≡◌, refl, arith, eq_iff,
  ◌==◌, ◌||◌, Bool-cases, inl, inr,
}
use fibernuts.Js.Text.{to_lower}
use fibernuts.Market.Types.{Proof, StoredSwapPreview, MarketRole, OrderState, VendorOrder, given}
use fibernuts.Market.Errors.{Failure, Attempt}
use fibernuts.Market.Payment.{InspectedToken}
use fibernuts.Market.Ports.{MarketContext, TokenSpendState}
use fibernuts.Market.Runtime.{
  Session, Runtime, return, asked, sends, completes_receive, tries, either, and_then, find_by,
  commit_order,
}
use fibernuts.Market.Runtime.Rules.{Ends, Ends-weaken, either-Ends, role-Ends, committed-Ends}
use fibernuts.Market.Runtime.Orders.{
  commit_state, recoverable_with, other_mint, text_of, is_settled, stored_order,
}
use fibernuts.Market.Runtime.Settlement.{
  ends_with, commit_settled, settle_swap, commit_swapping, settle_prepared, settle_checked,
  settle_locked, mismatch, settle_matched, settle_inspected, settle_token, settle_stored,
  settle_order,
}

-- What the vendor has found out of the token of an order.
pub record Verified (c : MarketContext) (order : VendorOrder) : Type 0 where
  pub token : InspectedToken
  pub inspected : c.wallet.inspect_token (text_of order.incoming_token) ≡ ok token
  pub of_the_mint : other_mint c token.mint ≡ ok false
  pub unit : to_lower token.unit ≡ "rusd"
  pub amount : token.amount ≡ order.amount
  pub locked :
      c.wallet.token_is_locked_to (text_of order.incoming_token) (text_of order.public_key)
      ≡ ok true
  pub unspent :
      c.wallet.check_token_state (text_of order.incoming_token) ≡ ok TokenSpendState.unspent
  pub swap : StoredSwapPreview
  pub prepared : c.wallet.prepare_receive (text_of order.incoming_token) order.private_key ≡ ok swap
  pub exact : swap.amount ≡ order.amount
  pub fresh : List Proof
  pub completed : c.wallet.complete_prepared_receive swap ≡ ok fresh

module _ (c : MarketContext) (order : VendorOrder) where
  -- A settled order has a verified token.
  abbrev Sound : VendorOrder → Session → Type 0
  Sound o t = is_settled o.state ≡ true → Verified c order

  abbrev Always : Session → Type 0
  Always t = Unit {0}

  commits-Ends :
      (Q : VendorOrder → Session → Type 0) (next : VendorOrder) (proofs : Option (List Proof))
      (s : Session)
      → ((t : Session) → Q next t)
      → Ends Q Always (commit_order c next proofs s)
  unfolding commit_order
  commits-Ends Q next proofs s h = committed-Ends c Q Always next _ s _ (h _) tt

  recoverable_with-Sound :
      (o : VendorOrder) (e : Failure) (s : Session) → Ends Sound Always (recoverable_with c o e s)
  unfolding commit_state
  recoverable_with-Sound o e s = commits-Ends Sound _ none _ (λ t k. cc)

  tries-Sound :
      {A : Type 0} (P : A → Session → Type 0) (o : VendorOrder) (r : Attempt A × Session)
      (next : A → Runtime VendorOrder)
      → Ends P Always r
      → ((a : A) (s : Session) → P a s → Ends Sound Always (next a s))
      → Ends Sound Always (either (recoverable_with c o) next r)
  tries-Sound P o r next h k =
      either-Ends P Sound Always Always r (recoverable_with c o) next h
        (λ e s u. recoverable_with-Sound o e s) k

  -- What is asked has the answer that it has.
  asked-eq :
      {A : Type 0} (answer : Attempt A) (s : Session)
      → Ends (λ a t. answer ≡ ok a) Always (asked answer s)
  asked-eq (ok a) s = refl
  asked-eq (err e) s = tt

  rejected-Sound :
      (o : VendorOrder) (error : String) (s : Session)
      → Ends Sound Always (ends_with c o OrderState.rejected error s)
  unfolding commit_state
  rejected-Sound o error s =
      tries-Sound Sound o _ return (commits-Ends Sound _ none _ (λ t k. cc)) (λ p t h. h)

  pending-Sound :
      (o : VendorOrder) (error : String) (s : Session)
      → Ends Sound Always (ends_with c o OrderState.recoverable error s)
  unfolding commit_state
  pending-Sound o error s =
      tries-Sound Sound o _ return (commits-Ends Sound _ none _ (λ t k. cc)) (λ p t h. h)

  completed-Sound :
      (swap : StoredSwapPreview)
      → ((fresh : List Proof)
          → c.wallet.complete_prepared_receive swap ≡ ok fresh
          → Verified c order)
      → (p : VendorOrder) (s : Session) → Ends Sound Always (settle_swap c p swap s)
  unfolding settle_swap commit_settled
  completed-Sound swap verify p s = answered (c.wallet.complete_prepared_receive swap) refl
    where
      answered :
          (r : Attempt (List Proof))
          → c.wallet.complete_prepared_receive swap ≡ r
          → Ends Sound Always (
              tries
                (recoverable_with c p)
                (sends (completes_receive swap) r)
                (λ proofs. tries (recoverable_with c p) (commit_settled c p proofs) return)
                s)
      answered (err e) done = recoverable_with-Sound p e _
      answered (ok fresh) done =
          tries-Sound Sound p (commit_settled c p fresh _) return
            (commits-Ends Sound _ _ _ (λ t k. verify fresh done)) (λ q t h. h)

  prepared-Sound :
      ((swap : StoredSwapPreview)
        → c.wallet.prepare_receive (text_of order.incoming_token) order.private_key ≡ ok swap
        → swap.amount ≡ order.amount
        → (fresh : List Proof) → c.wallet.complete_prepared_receive swap ≡ ok fresh
        → Verified c order)
      → (swap : StoredSwapPreview) (s : Session)
      → c.wallet.prepare_receive (text_of order.incoming_token) order.private_key ≡ ok swap
      → Ends Sound Always (settle_prepared c order swap s)
  unfolding settle_prepared commit_swapping
  prepared-Sound verify swap s prepared = elim (Bool-cases (not (swap.amount == order.amount))) [
    | inl differs ↦ rw differs (rejected-Sound order _ s)
    | inr equal ↦ rw equal (
        tries-Sound (λ p t. Unit {0}) order (commit_swapping c order swap s) _
          (commits-Ends (λ p t. Unit {0}) _ none _ (λ t. tt))
          (λ p t u. completed-Sound swap (verify swap prepared (ground arith)) p t))
  ]

  checked-Sound :
      (c.wallet.check_token_state (text_of order.incoming_token) ≡ ok TokenSpendState.unspent
        → (swap : StoredSwapPreview)
        → c.wallet.prepare_receive (text_of order.incoming_token) order.private_key ≡ ok swap
        → swap.amount ≡ order.amount
        → (fresh : List Proof) → c.wallet.complete_prepared_receive swap ≡ ok fresh
        → Verified c order)
      → (state : TokenSpendState) (s : Session)
      → c.wallet.check_token_state (text_of order.incoming_token) ≡ ok state
      → Ends Sound Always (settle_checked c order state s)
  unfolding settle_checked
  checked-Sound verify TokenSpendState.spent s h = rejected-Sound order _ s
  checked-Sound verify TokenSpendState.mixed s h = rejected-Sound order _ s
  checked-Sound verify TokenSpendState.pending s h = pending-Sound order _ s
  checked-Sound verify TokenSpendState.unspent s h =
      tries-Sound _ order
        (asked (c.wallet.prepare_receive (text_of order.incoming_token) order.private_key) s)
        (settle_prepared c order) (asked-eq _ s)
        (λ swap t prepared. prepared-Sound (verify h) swap t prepared)

  -- The token that the wallet has read is the order's, if it matches the order and is locked to it.
  matched-Sound :
      (token : InspectedToken)
      → c.wallet.inspect_token (text_of order.incoming_token) ≡ ok token
      → (wrong : Bool) (s : Session) → mismatch c order token ≡ ok wrong
      → Ends Sound Always (settle_matched c order wrong s)
  unfolding settle_matched settle_locked mismatch
  matched-Sound token inspected true s h = rejected-Sound order _ s
  matched-Sound token inspected false s h =
      tries-Sound _ order
        (asked
          (c.wallet.token_is_locked_to (text_of order.incoming_token) (text_of order.public_key)) s)
        (settle_locked c order) (asked-eq _ s) locked
    where
      checked :
          c.wallet.token_is_locked_to (text_of order.incoming_token) (text_of order.public_key)
            ≡ ok true
          → (state : TokenSpendState) (t : Session)
          → c.wallet.check_token_state (text_of order.incoming_token) ≡ ok state
          → Ends Sound Always (settle_checked c order state t)
      checked is_locked state t answer =
          checked-Sound
            (λ unspent swap prepared exact fresh completed. record {
              token = token;
              inspected = inspected;
              of_the_mint = ground arith;
              unit = ground (arith, eq_iff (to_lower token.unit) "rusd");
              amount = ground arith;
              locked = is_locked;
              unspent = unspent;
              swap = swap;
              prepared = prepared;
              exact = exact;
              fresh = fresh;
              completed = completed;
            })
            state t answer

      locked :
          (is_locked : Bool) (t : Session)
          → c.wallet.token_is_locked_to (text_of order.incoming_token) (text_of order.public_key)
            ≡ ok is_locked
          → Ends Sound Always (settle_locked c order is_locked t)
      locked false t answer = rejected-Sound order _ t
      locked true t answer =
          tries-Sound _ order (asked (c.wallet.check_token_state (text_of order.incoming_token)) t)
            (settle_checked c order) (asked-eq _ t) (checked answer)

  inspected-Sound :
      (token : Attempt InspectedToken) (s : Session)
      → c.wallet.inspect_token (text_of order.incoming_token) ≡ token
      → Ends Sound Always (settle_inspected c order token s)
  unfolding settle_inspected
  inspected-Sound (err e) s h = rejected-Sound order _ s
  inspected-Sound (ok token) s h =
      tries-Sound _ order (asked (mismatch c order token) s) (settle_matched c order) (asked-eq _ s)
        (λ wrong t answer. matched-Sound token h wrong t answer)

module _ (c : MarketContext) (order : VendorOrder) where
  -- The order while its token is validated.
  abbrev validating_at : ℕ → VendorOrder
  validating_at time = record order {
    state = OrderState.validating;
    updated_at = time;
    error = none;
  }

  same-Verified :
      (o : VendorOrder) (time : ℕ) → o ≡ validating_at time → Verified c o → Verified c order
  same-Verified o time e v = repack (subst (λ x. Verified c x) e v)
    where
      repack : Verified c (validating_at time) → Verified c order
      repack w = record {
        token = w.token;
        inspected = w.inspected;
        of_the_mint = w.of_the_mint;
        unit = w.unit;
        amount = w.amount;
        locked = w.locked;
        unspent = w.unspent;
        swap = w.swap;
        prepared = w.prepared;
        exact = w.exact;
        fresh = w.fresh;
        completed = w.completed;
      }

  settle_token-Sound :
      (s : Session) → Ends (Sound c order) (Always c order) (settle_token c order s)
  unfolding settle_token commit_state
  settle_token-Sound s = elim (Bool-cases missing) [
    | inl e ↦ rw e (recoverable_with-Sound c order order _ s)
    | inr e ↦ rw e (
        tries-Sound c order (λ o t. o ≡ validating_at (c.now s.readings)) order
          (commit_state c order OrderState.validating none s) _
          (commits-Ends c order (λ o t. o ≡ validating_at (c.now s.readings)) _ none _ (λ t. refl))
          (λ o t same.
            Ends-weaken (settle_inspected c o (c.wallet.inspect_token (text_of o.incoming_token)) t)
              (inspected-Sound c o _ t refl)
              (λ p u sound k. same-Verified o (c.now s.readings) same (sound k)) (λ u k. tt)))
  ]
    where
      missing : Bool
      missing =
          not (given order.incoming_token)
          || not (given order.private_key)
          || not (given order.public_key)

  settle_found-Sound :
      (stored : Option StoredSwapPreview) (s : Session)
      → stored ≡ none
      → Ends (Sound c order) (Always c order) (settle_stored c order stored s)
  unfolding settle_stored
  settle_found-Sound none s e = settle_token-Sound s
  settle_found-Sound (some swap) s e = cc

-- If an order whose swap is not stored yet is settled, then its token is of the order's mint and unit and
-- of exactly its amount, its proofs were locked to the order's key and to nothing else and were unspent,
-- and the mint has completed a swap of them for exactly the amount of the order.
pub settle_order-Verified :
    (c : MarketContext) (input order : VendorOrder) (s : Session) {o : VendorOrder} {t : Session}
    → find_by (λ (x : VendorOrder). x.id) input.id s.snapshot.orders ≡ some order
    → order.incoming_swap ≡ none
    → settle_order c input s ≡ (ok o, t)
    → o.state ≡ OrderState.settled
    → Verified c order
unfolding settle_order
settle_order-Verified c input order s {o} {t} found fresh done settled = sound (rw settled refl)
  where
    ends : Ends (Sound c order) (Always c order) (settle_order c input s)
    ends =
        role-Ends (Sound c order) (Always c order) MarketRole.vendor
          (λ u v. and_then (λ x. settle_stored c x x.incoming_swap) (stored_order c input v)) s tt
          (rw found (settle_found-Sound c order order.incoming_swap s fresh))

    sound : is_settled o.state ≡ true → Verified c order
    sound = rw done at ends
