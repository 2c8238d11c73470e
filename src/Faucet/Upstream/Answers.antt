-- ===== src/Faucet/Upstream/Answers.antt =====
-- What the clients of faucet/src/upstream.ts let through of what the mint and the Fiber node say.
use fibernuts.Common.{
  none, some, Option, ℕ, ◌≤◌, ◌<◌, String, none, some, ◌≡◌, arith, ok, ◌>>=◌, >>=-eq-ok,
}
use fibernuts.Js.{property, safe_natural, Value, Props, max_safe_integer}
use fibernuts.Js.Text.{◌⧺◌}
use fibernuts.Faucet.Upstream.{MintQuoteView, FiberPayment, Fetched, unreachable, answered}
use fibernuts.Faucet.Upstream.Decode.{integer_like, record_of}
use fibernuts.Faucet.Upstream.Mint.{
  view_quote, view_fields, positive_safe, optional_integer, quote_response, get_quote,
}
use fibernuts.Faucet.Upstream.Fiber.{payment_of, send_payment, rpc_answer, thrown}

-- A quote that the faucet may act on.
pub record IsQuoteView (quote_id : String) (q : MintQuoteView) : Type 0 where
  pub asked : q.quote_id ≡ quote_id
  pub amount : q.amount ≤ max_safe_integer
  pub expiry : (0 < q.expiry) × (q.expiry ≤ max_safe_integer)

integer_like-le : (v : Value) {n : ℕ} → integer_like v ≡ ok n → n ≤ max_safe_integer
unfolding integer_like
integer_like-le v h = ground arith

positive_safe_bounds : (o : Option ℕ) {n : ℕ} → positive_safe o ≡ ok n → (0 < n) × (o ≡ some n)
positive_safe_bounds (some m) h = ground arith
positive_safe_bounds none h = cc

safe_natural-le : (v : Value) {n : ℕ} → safe_natural v ≡ some n → n ≤ max_safe_integer
safe_natural-le v h = ground arith

-- What follows the amounts.
checked_view :
    (quote_id : String) (raw : Props) (amount amount_paid amount_issued : ℕ) {q : MintQuoteView}
    → view_fields quote_id raw amount amount_paid amount_issued ≡ ok q
    → (q.quote_id ≡ quote_id)
      × (q.amount ≡ amount)
      × (positive_safe (safe_natural (property "expiry" raw)) ≡ ok q.expiry)
unfolding view_fields
checked_view quote_id raw amount amount_paid amount_issued h =
    (ground arith, ground arith, ground arith)

view_quote-IsQuoteView :
    (quote_id : String) (raw : Props) {q : MintQuoteView}
    → view_quote quote_id raw ≡ ok q
    → IsQuoteView quote_id q
unfolding view_quote
view_quote-IsQuoteView quote_id raw {q} h =
    let (amount, is_amount, h1) =
      >>=-eq-ok (integer_like (property "amount" raw))
        (λ amount. optional_integer (property "amount_paid" raw) >>= λ paid.
          optional_integer (property "amount_issued" raw) >>= λ issued.
          view_fields quote_id raw amount paid issued)
        h in
    let (paid, is_paid, h2) =
      >>=-eq-ok (optional_integer (property "amount_paid" raw))
        (λ paid. optional_integer (property "amount_issued" raw) >>= λ issued.
          view_fields quote_id raw amount paid issued)
        h1 in
    let (issued, is_issued, h3) =
      >>=-eq-ok (optional_integer (property "amount_issued" raw))
        (λ issued. view_fields quote_id raw amount paid issued) h2 in
    let (asked, same, expires) = checked_view quote_id raw amount paid issued h3 in
    let (positive, safe) = positive_safe_bounds (safe_natural (property "expiry" raw)) expires in
    record {
      asked = asked;
      amount = rw same (integer_like-le (property "amount" raw) is_amount);
      expiry = (positive, safe_natural-le (property "expiry" raw) safe);
    }

module _ (fetch : String → Fetched) (encode : String → String) (api_url : String) where
  -- A quote that the mint's client returns is the one that was asked for; its amount and its expiry
  -- are integers that JavaScript represents exactly, and the expiry is positive.
  get_quote-IsQuoteView :
      (quote_id : String) {q : MintQuoteView}
      → get_quote fetch encode api_url quote_id ≡ ok q
      → IsQuoteView quote_id q
  unfolding get_quote
  get_quote-IsQuoteView quote_id {q} h =
      of_response (fetch (api_url ⧺ "/v1/mint/quote/fiber/" ⧺ encode quote_id)) h
    where
      of_response : (r : Fetched) → quote_response quote_id r ≡ ok q → IsQuoteView quote_id q
      of_response unreachable e = cc
      of_response (answered status none) e = ground arith
      of_response (answered status (some v)) e =
          let viewed : (record_of v >>= view_quote quote_id) ≡ ok q = ground arith in
          let (raw, is_record, view) = >>=-eq-ok (record_of v) (view_quote quote_id) viewed in
          view_quote-IsQuoteView quote_id raw view

module _ (max_fee : ℕ) where
  -- A payment that the node's client returns has a fee within the configured limit, whether it was
  -- sent or asked for.
  pub payment_of-le-max_fee :
      (v : Value) {p : FiberPayment} → payment_of max_fee v ≡ ok p → p.fee ≤ max_fee
  unfolding payment_of
  payment_of-le-max_fee v h = ground arith

  -- A payment that the node reports sent is accepted only if its fee is within the configured
  -- limit.
  pub send_payment-le-max_fee :
      (fetched : Fetched) {p : FiberPayment} → send_payment max_fee fetched ≡ ok p → p.fee ≤ max_fee
  unfolding send_payment
  send_payment-le-max_fee fetched h =
      let (v, sent, paid) = >>=-eq-ok (thrown (rpc_answer fetched)) (payment_of max_fee) h in
      payment_of-le-max_fee v paid
