-- ===== src/Relay/Store.antt =====
-- relay/src/database.ts: the table `relay_orders` and the methods of `RelayStore`.
-- A method takes the clock's reading and the table, and returns its result and the new table.
-- `payload_json` holds the value whose JSON text the column has: `JSON.parse` gives it back.
pub mod Changes
pub mod Slots
pub mod Exchange
pub mod Invariant
pub mod Commands
pub mod Lifecycle
use fibernuts.Common.{
  ℕ, ◌+◌, String, Bool, true, false, not, Option, none, some, List, [], ◌∷◌, ◌++◌, leb, ltb, ◌==◌,
  str_eq, is_some, ◌&&◌, ◌||◌, if◌then◌else◌, Result, ok, err, fail, throw_if, ◌>>=◌, ◌>>◌,
}
use fibernuts.Table.{select, update, delete, count}
use fibernuts.Table.Keys.{has_key}
use fibernuts.Relay.Protocol.{RegisterOrderInput, PaymentPayload}
use fibernuts.Relay.Protocol.Payload.{payload_amount, digest_payload}

pub data OrderState : Type 0 where
  open_slot delivered acknowledged cancelled expired : OrderState

pub record OrderRow : Type 0 where
  pub order_id_hash : String
  pub write_hash : String
  pub read_hash : String
  pub amount : ℕ
  pub unit : String
  pub mint : String
  pub request_digest : String
  pub expires_at : ℕ
  pub state : OrderState
  pub payload_json : Option PaymentPayload
  pub payload_digest : Option String
  pub created_at : ℕ
  pub delivered_at : Option ℕ
  pub acknowledged_at : Option ℕ
  pub cancelled_at : Option ℕ

pub data Registered : Type 0 where
  created existing : Registered

pub data DeliveryResult : Type 0 where
  stored duplicate : DeliveryResult

pub data Closed : Type 0 where
  closed_now closed_before : Closed

abbrev pub is_open : OrderState → Bool
is_open open_slot = true
is_open _ = false

abbrev pub is_delivered : OrderState → Bool
is_delivered delivered = true
is_delivered _ = false

-- `row.state === "expired" || row.state === "cancelled"`.
abbrev pub is_shut : OrderState → Bool
is_shut expired = true
is_shut cancelled = true
is_shut _ = false

-- `state IN ('expired', 'acknowledged', 'cancelled')`.
abbrev pub is_final : OrderState → Bool
is_final open_slot = false
is_final delivered = false
is_final _ = true

-- What a statement of an operation leaves: a transaction that fails is rolled back.
abbrev pub commit {ℓ} :
    {A : Type ℓ} → List OrderRow → Result (A × List OrderRow) → Result A × List OrderRow
commit before (ok (a, after)) = (ok a, after)
commit before (err e) = (err e, before)

abbrev pub mark_expired : OrderRow → OrderRow
mark_expired r = record r { state = expired; payload_json = none }

abbrev pub is_due : ℕ → OrderRow → Bool
is_due now row = not (ltb now row.expires_at) && is_open row.state

abbrev pub is_open_order : OrderRow → OrderRow → Bool
is_open_order row r = has_key (λ r. r.order_id_hash) row.order_id_hash r && is_open r.state

-- `expireRow`: the row as it is in memory afterwards, and the table.
unfoldable pub expire_row : ℕ → OrderRow → List OrderRow → OrderRow × List OrderRow
expire_row now row rs =
    if is_due now row
    then (mark_expired row, update (is_open_order row) mark_expired rs)
    else (row, rs)

abbrev pub is_late : ℕ → ℕ → Option ℕ → Bool
is_late now retention none = false
is_late now retention (some t) = leb (t + retention) now

abbrev pub is_stale : ℕ → ℕ → OrderRow → Bool
is_stale now retention r = is_late now retention r.delivered_at && is_delivered r.state

abbrev pub is_disposable : ℕ → ℕ → OrderRow → Bool
is_disposable now retention r = leb (r.expires_at + retention) now && is_final r.state

-- The two updates of `cleanup`. `t <= now - retention` is written without the subtraction.
unfoldable pub sweep : ℕ → ℕ → List OrderRow → List OrderRow
sweep retention now rs =
    update (is_stale now retention) mark_expired (update (is_due now) mark_expired rs)

-- `cleanup`: the number of deleted rows, and the table.
unfoldable pub cleanup : ℕ → ℕ → List OrderRow → ℕ × List OrderRow
cleanup retention now rs =
    let swept = sweep retention now rs in
    (count (is_disposable now retention) swept, delete (is_disposable now retention) swept)

-- `throw new HttpError(404, …)` of `rowForRead`, and the rest after `expireRow`.
abbrev pub for_reader {ℓ} :
    {A : Type ℓ}
    → (OrderRow × List OrderRow → Result A × List OrderRow)
    → ℕ
    → List OrderRow
    → Option OrderRow
    → Result A × List OrderRow
for_reader k now rs none = (fail 404 "not_found", rs)
for_reader k now rs (some row) = k (expire_row now row rs)

abbrev pub is_acknowledged : OrderState → Bool
is_acknowledged acknowledged = true
is_acknowledged _ = false

abbrev pub acknowledge_row : ℕ → OrderRow → OrderRow
acknowledge_row now r = record r {
  state = acknowledged;
  payload_json = none;
  acknowledged_at = some now;
}

abbrev pub is_held : String → OrderRow → Bool
is_held hash r = has_key (λ r. r.read_hash) hash r && is_delivered r.state

abbrev pub is_cancelled : OrderState → Bool
is_cancelled cancelled = true
is_cancelled _ = false

abbrev pub cancel_row : ℕ → OrderRow → OrderRow
cancel_row now r = record r { state = cancelled; cancelled_at = some now }

abbrev pub is_cancellable : String → OrderRow → Bool
is_cancellable hash r = has_key (λ r. r.read_hash) hash r && is_open r.state

module _ (sha256 : String → String) where
  -- `register`'s comparison of an existing row with the input.
  unfoldable pub same_registration : OrderRow → RegisterOrderInput → Bool
  same_registration row input =
      str_eq row.write_hash (sha256 input.write_capability)
      && str_eq row.read_hash (sha256 input.read_capability)
      && (row.amount == input.amount)
      && str_eq row.unit input.unit
      && str_eq row.mint input.mint
      && str_eq row.request_digest input.request_digest
      && (row.expires_at == input.expires_at)

  abbrev pub new_row : RegisterOrderInput → ℕ → OrderRow
  new_row input now = record {
    order_id_hash = sha256 input.order_id;
    write_hash = sha256 input.write_capability;
    read_hash = sha256 input.read_capability;
    amount = input.amount;
    unit = input.unit;
    mint = input.mint;
    request_digest = input.request_digest;
    expires_at = input.expires_at;
    state = open_slot;
    payload_json = none;
    payload_digest = none;
    created_at = now;
    delivered_at = none;
    acknowledged_at = none;
    cancelled_at = none;
  }

  -- The constraints of the INSERT: unique capabilities and a positive amount.
  unfoldable pub insert_allowed : RegisterOrderInput → List OrderRow → Bool
  insert_allowed input rs =
      not (is_some (select (has_key (λ r. r.write_hash) (sha256 input.write_capability)) rs))
      && not (is_some (select (has_key (λ r. r.read_hash) (sha256 input.read_capability)) rs))
      && ltb 0 input.amount

  register_found :
      RegisterOrderInput → ℕ → List OrderRow → Option OrderRow → Result Registered × List OrderRow
  register_found input now rs (some row) =
      (if same_registration row input then ok existing else fail 409 "order_conflict", rs)
  register_found input now rs none =
      if insert_allowed input rs
      then (ok created, rs ++ new_row input now ∷ [])
      else (fail 409 "capability_conflict", rs)

  unfoldable pub register :
      RegisterOrderInput → ℕ → List OrderRow → Result Registered × List OrderRow
  unfolding register_found
  register input now rs =
      register_found input now rs
        (select (has_key (λ r. r.order_id_hash) (sha256 input.order_id)) rs)

  -- The payload's checks against the order; the total is read only if the rest fits.
  unfoldable pub fits_order : PaymentPayload → OrderRow → Result Bool
  fits_order payload row =
      if str_eq (sha256 payload.id) row.order_id_hash
        && str_eq payload.unit row.unit
        && str_eq payload.mint row.mint
      then (do n ← payload_amount payload; ok (n == row.amount))
      else ok false

  abbrev pub deliver_into : PaymentPayload → ℕ → OrderRow → OrderRow
  deliver_into payload now r = record r {
    state = delivered;
    payload_json = some payload;
    payload_digest = some (digest_payload sha256 payload);
    delivered_at = some now;
  }

  abbrev pub is_vacant : String → OrderRow → Bool
  is_vacant hash r =
      has_key (λ r. r.write_hash) hash r && is_open r.state && not (is_some r.payload_digest)

  -- `deliver` from the row that `expireRow` leaves.
  pub deliver_slot :
      String
      → PaymentPayload
      → ℕ
      → OrderRow × List OrderRow
      → Result (DeliveryResult × List OrderRow)
  deliver_slot write_hash payload now (row, rs) =
      if is_shut row.state then fail 410 "slot_closed" else elim row.payload_digest [
        | some digest ↦
            if str_eq digest (digest_payload sha256 payload)
            then ok (duplicate, rs)
            else fail 409 "payload_conflict"
        | none ↦ (do
          fits ← fits_order payload row
          throw_if (not fits) 422 "payload_mismatch"
          ok (stored, update (is_vacant write_hash) (deliver_into payload now) rs))
      ]

  deliver_found :
      String
      → PaymentPayload
      → ℕ
      → List OrderRow
      → Option OrderRow
      → Result (DeliveryResult × List OrderRow)
  deliver_found write_hash payload now rs none = fail 404 "not_found"
  deliver_found write_hash payload now rs (some row) =
      deliver_slot write_hash payload now (expire_row now row rs)

  unfoldable pub deliver :
      String → PaymentPayload → ℕ → List OrderRow → Result DeliveryResult × List OrderRow
  unfolding deliver_found deliver_slot
  deliver write_capability payload now rs =
      let write_hash = sha256 write_capability in
      commit rs (
        deliver_found write_hash payload now rs
          (select (has_key (λ r. r.write_hash) write_hash) rs))

  -- `rowForRead`.
  unfoldable pub row_for_read : String → List OrderRow → Option OrderRow
  row_for_read read_capability rs = select (has_key (λ r. r.read_hash) (sha256 read_capability)) rs

  pub read_slot : OrderRow × List OrderRow → Result (Option PaymentPayload) × List OrderRow
  read_slot (row, rs) =
      if is_open row.state
      then (ok none, rs)
      else if not (is_delivered row.state) || not (is_some row.payload_json)
      then (fail 410 "slot_closed", rs)
      else (ok row.payload_json, rs)

  unfoldable pub read : String → ℕ → List OrderRow → Result (Option PaymentPayload) × List OrderRow
  unfolding read_slot row_for_read
  read read_capability now rs = for_reader read_slot now rs (row_for_read read_capability rs)

  pub acknowledge_slot : String → ℕ → OrderRow × List OrderRow → Result Closed × List OrderRow
  acknowledge_slot read_hash now (row, rs) =
      if is_acknowledged row.state
      then (ok closed_before, rs)
      else if not (is_delivered row.state)
      then (fail 409 "not_delivered", rs)
      else (ok closed_now, update (is_held read_hash) (acknowledge_row now) rs)

  unfoldable pub acknowledge : String → ℕ → List OrderRow → Result Closed × List OrderRow
  unfolding acknowledge_slot row_for_read
  acknowledge read_capability now rs =
      for_reader (acknowledge_slot (sha256 read_capability) now) now rs
        (row_for_read read_capability rs)

  pub cancel_slot : String → ℕ → OrderRow × List OrderRow → Result Closed × List OrderRow
  cancel_slot read_hash now (row, rs) =
      if is_cancelled row.state
      then (ok closed_before, rs)
      else if not (is_open row.state)
      then (fail 409 "delivery_won", rs)
      else (ok closed_now, update (is_cancellable read_hash) (cancel_row now) rs)

  unfoldable pub cancel : String → ℕ → List OrderRow → Result Closed × List OrderRow
  unfolding cancel_slot row_for_read
  cancel read_capability now rs =
      for_reader (cancel_slot (sha256 read_capability) now) now rs (row_for_read read_capability rs)
