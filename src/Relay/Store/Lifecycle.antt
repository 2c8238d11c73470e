-- ===== src/Relay/Store/Lifecycle.antt =====
-- The life of a slot: which states follow which, what never changes, and when a row is deleted.
use fibernuts.Common.{
  ℕ, ◌+◌, ◌≤◌, String, Bool, true, false, none, some, List, [], ◌∷◌, ◌≡◌, refl, arith, ap, ◌∙◌, map,
}
use fibernuts.Table.Evolution.{
  Evolves, when, update-eq-map, Evolves-same, Evolves-append, Evolves-update, Evolves-delete,
}
use fibernuts.Relay.Protocol.{PaymentPayload}
use fibernuts.Relay.Store.{
  OrderState, open_slot, delivered, acknowledged, cancelled, expired, OrderRow, mark_expired,
  is_due, is_open_order, is_late, is_stale, is_disposable, sweep, cleanup, new_row, deliver_into,
  is_vacant, acknowledge_row, is_held, cancel_row, is_cancellable, is_delivered,
}
use fibernuts.Relay.Store.Changes.{
  Change, same, expire, store, collect, withdraw, add, register-Change, deliver-Change, read-Change,
  acknowledge-Change, cancel-Change,
}
use fibernuts.Relay.Store.Commands.{
  Command, registering, delivering, reading, acknowledging, cancelling, cleaning, run,
}

-- The states that one call may leave where it finds the first.
abbrev pub may_become : OrderState → OrderState → Bool
may_become open_slot acknowledged = false
may_become open_slot _ = true
may_become delivered open_slot = false
may_become delivered cancelled = false
may_become delivered _ = true
may_become acknowledged acknowledged = true
may_become cancelled cancelled = true
may_become expired expired = true
may_become _ _ = false

-- One row before and after a call: the terms of the order stand, the state moves forward, and a
-- digest once stored is never replaced.
pub record RowStep (r r' : OrderRow) : Type 0 where
  pub order : r'.order_id_hash ≡ r.order_id_hash
  pub writer : r'.write_hash ≡ r.write_hash
  pub reader : r'.read_hash ≡ r.read_hash
  pub amount : r'.amount ≡ r.amount
  pub unit : r'.unit ≡ r.unit
  pub mint : r'.mint ≡ r.mint
  pub request : r'.request_digest ≡ r.request_digest
  pub expiry : r'.expires_at ≡ r.expires_at
  pub moves : may_become r.state r'.state ≡ true
  pub digest : (d : String) → r.payload_digest ≡ some d → r'.payload_digest ≡ some d

-- Only `cleanup` deletes: past the expiry by the retention, and a payload that was not collected
-- only when it has been held for as long.
abbrev pub Gone : Command → ℕ → OrderRow → Type 0
Gone (cleaning retention) now r =
    (r.expires_at + retention ≤ now)
    × (is_delivered r.state ≡ true → is_late now retention r.delivered_at ≡ true)
Gone _ now r = ⊥

-- A new row is an open slot with no payload.
abbrev pub Vacant : OrderRow → Type 0
Vacant r = (r.state ≡ open_slot) × (r.payload_json ≡ none) × (r.payload_digest ≡ none)

may_become_same : (s : OrderState) → may_become s s ≡ true
may_become_same open_slot = refl
may_become_same _ = refl

RowStep-same : (r : OrderRow) → RowStep r r
RowStep-same r = record {
  order = refl;
  writer = refl;
  reader = refl;
  amount = refl;
  unit = refl;
  mint = refl;
  request = refl;
  expiry = refl;
  moves = may_become_same r.state;
  digest = λ d h. h;
}

due_step : (now : ℕ) (r : OrderRow) → is_due now r ≡ true → RowStep r (mark_expired r)
due_step now r h = record {
  order = refl;
  writer = refl;
  reader = refl;
  amount = refl;
  unit = refl;
  mint = refl;
  request = refl;
  expiry = refl;
  moves = ground arith;
  digest = λ d h. h;
}

delivery_step :
    (sha256 : String → String) (hash : String) (payload : PaymentPayload) (now : ℕ) (r : OrderRow)
    → is_vacant sha256 hash r ≡ true
    → RowStep r (deliver_into sha256 payload now r)
delivery_step sha256 hash payload now r h = record {
  order = refl;
  writer = refl;
  reader = refl;
  amount = refl;
  unit = refl;
  mint = refl;
  request = refl;
  expiry = refl;
  moves = ground arith;
  digest = λ d e. ground arith;
}

collect_step :
    (hash : String) (now : ℕ) (r : OrderRow)
    → is_held hash r ≡ true
    → RowStep r (acknowledge_row now r)
collect_step hash now r h = record {
  order = refl;
  writer = refl;
  reader = refl;
  amount = refl;
  unit = refl;
  mint = refl;
  request = refl;
  expiry = refl;
  moves = ground arith;
  digest = λ d e. e;
}

withdraw_step :
    (hash : String) (now : ℕ) (r : OrderRow)
    → is_cancellable hash r ≡ true
    → RowStep r (cancel_row now r)
withdraw_step hash now r h = record {
  order = refl;
  writer = refl;
  reader = refl;
  amount = refl;
  unit = refl;
  mint = refl;
  request = refl;
  expiry = refl;
  moves = ground arith;
  digest = λ d e. e;
}

open_step : (row r : OrderRow) → is_open_order row r ≡ true → RowStep r (mark_expired r)
open_step row r h = record {
  order = refl;
  writer = refl;
  reader = refl;
  amount = refl;
  unit = refl;
  mint = refl;
  request = refl;
  expiry = refl;
  moves = ground arith;
  digest = λ d e. e;
}

-- What the two updates of `cleanup` make of one row.
abbrev pub swept_row : ℕ → ℕ → OrderRow → OrderRow
swept_row retention now r =
    when (is_stale now retention) mark_expired (when (is_due now) mark_expired r)

pub sweep-eq-map :
    (retention now : ℕ) (rs : List OrderRow)
    → sweep retention now rs ≡ map (swept_row retention now) rs
unfolding sweep
sweep-eq-map retention now rs = rw (update-eq-map (is_due now) mark_expired rs) (
    update-eq-map (is_stale now retention) mark_expired (map (when (is_due now) mark_expired) rs)
    ∙ map_map rs)
  where
    map_map :
        (rs : List OrderRow)
        → map (when (is_stale now retention) mark_expired) (map (when (is_due now) mark_expired) rs)
          ≡ map (swept_row retention now) rs
    map_map [] = refl
    map_map (r ∷ rs) = ap (λ t. swept_row retention now r ∷ t) (map_map rs)

swept_step : (retention now : ℕ) (r : OrderRow) → RowStep r (swept_row retention now r)
swept_step retention now r = record {
  order = ground arith;
  writer = ground arith;
  reader = ground arith;
  amount = ground arith;
  unit = ground arith;
  mint = ground arith;
  request = ground arith;
  expiry = ground arith;
  moves = ground (arith, may_become_same r.state);
  digest = λ d e. ground arith;
}

swept-Gone :
    (retention now : ℕ) (r : OrderRow)
    → is_disposable now retention (swept_row retention now r) ≡ true
    → Gone (cleaning retention) now r
swept-Gone retention now r h = (ground arith, λ d. ground arith)

module _ (sha256 : String → String) where
  Change-Evolves :
      {Lost : OrderRow → Type 0} {now : ℕ} {rs rs' : List OrderRow}
      → Change sha256 now rs rs'
      → Evolves RowStep Lost Vacant rs rs'
  Change-Evolves {rs} same = Evolves-same RowStep-same rs
  Change-Evolves {rs} (expire row due) =
      Evolves-update RowStep-same (is_open_order row) mark_expired (open_step row) rs
  Change-Evolves {now} {rs} (store hash payload row f d s g fits) =
      Evolves-update RowStep-same (is_vacant sha256 hash) (deliver_into sha256 payload now)
        (delivery_step sha256 hash payload now) rs
  Change-Evolves {now} {rs} (collect hash) =
      Evolves-update RowStep-same (is_held hash) (acknowledge_row now) (collect_step hash now) rs
  Change-Evolves {now} {rs} (withdraw hash) =
      Evolves-update RowStep-same (is_cancellable hash) (cancel_row now) (withdraw_step hash now) rs
  Change-Evolves {now} {rs} (add input fresh allowed) =
      Evolves-append RowStep-same rs (new_row sha256 input now) (refl, refl, refl)

  -- One call leaves every row in its place with the same terms of the order, moves its state only
  -- forward, and never replaces a digest; it deletes a row only in cleanup, past its expiry by
  -- the retention and, if it was still delivered, once the payload was held that long; and it
  -- adds only open slots with no payload.
  pub run-Evolves :
      (c : Command) (now : ℕ) (rs : List OrderRow)
      → Evolves RowStep (Gone c now) Vacant rs (run sha256 c now rs)
  unfolding run cleanup
  run-Evolves (registering input) now rs = Change-Evolves (register-Change sha256 now rs input)
  run-Evolves (delivering w payload) now rs =
      Change-Evolves (deliver-Change sha256 w payload now rs)
  run-Evolves (reading r) now rs = Change-Evolves (read-Change sha256 now rs r)
  run-Evolves (acknowledging r) now rs = Change-Evolves (acknowledge-Change sha256 now rs r)
  run-Evolves (cancelling r) now rs = Change-Evolves (cancel-Change sha256 now rs r)
  run-Evolves (cleaning retention) now rs = rw (sweep-eq-map retention now rs) (
      Evolves-delete (is_disposable now retention) (swept_row retention now)
        (swept_step retention now) (swept-Gone retention now) rs)
