-- ===== src/Relay/Tests.antt =====
-- Runs of the relay (relay/src) at concrete orders and payloads, with the identity for SHA-256 and a
-- URL parser that knows one mint.
mod Requests
use fibernuts.Common.{
  ℕ, suc, String, Bool, true, false, Option, none, some, List, [], ◌∷◌, ◌≡◌, ◌≢◌, ◌<◌, refl, ok,
  fail, str_eq, if◌then◌else◌, Result, arith,
}
use fibernuts.Table.Keys.{has_key}
use fibernuts.Table.{select, update, delete, count}
use fibernuts.Js.{
  Value, num, nat, str, obj, arr, cons, nil, prop, end, undefined, property, keys, includes,
}
use fibernuts.Js.Url.{Url}
use fibernuts.Http.{Request, read_json, size_from, origin_allowed}
use fibernuts.Relay.Protocol.{RegisterOrderInput, PaymentProof, PaymentPayload, positive_integer}
use fibernuts.Relay.Protocol.Registration.{parse_registration}
use fibernuts.Relay.Protocol.Payload.{
  parse_payment_payload, digest_payload, payload_amount, amount_from,
}
use fibernuts.Relay.Store.{
  OrderState, OrderRow, register, fits_order, created, deliver, stored, duplicate, read,
  acknowledge, closed_before, is_delivered, row_for_read, cancel, closed_now, same_registration,
  new_row, insert_allowed, expire_row, is_due,
}
use fibernuts.Relay.Store.Commands.{
  Command, registering, delivering, reading, acknowledging, cancelling, cleaning, run, run_all,
}
use fibernuts.Relay.Store.Invariant.{IsTable, Pays, run-IsTable, run_all-IsTable}
use fibernuts.Relay.Store.Slots.{Slot}
use fibernuts.Relay.Store.Exchange.{
  read-deliver, deliver-deliver, cancel-deliver, deliver-cancel, read-acknowledge, deliver_expired,
  deliver-Pays, read-deliver-register,
}
use fibernuts.Table.Evolution.{Evolves}
use fibernuts.Relay.Store.Lifecycle.{RowStep, Gone, Vacant, run-Evolves}

abbrev pub hash : String → String
hash s = s

abbrev pub writer : String
writer = "wwwwwwwwwwwwwwwwwwwwwwwwwwwwwwwwwwwwwwwwwww"

abbrev pub reader : String
reader = "rrrrrrrrrrrrrrrrrrrrrrrrrrrrrrrrrrrrrrrrrrr"

abbrev pub order : RegisterOrderInput
order = record {
  order_id = "order-0000000001";
  amount = 5;
  unit = "rusd";
  mint = "https://mint.example";
  request_digest = "sha256:aaaaaaaaaaaaaaaaaaaaaaaaaaaaaaaaaaaaaaaaaaaaaaaaaaaaaaaaaaaaaaaa";
  expires_at = 400;
  write_capability = writer;
  read_capability = reader;
}

abbrev proof : ℕ → PaymentProof
proof n = record {
  amount = num (nat n);
  id = "keyset";
  secret = "secret-000000001";
  c = "02020202020202020202020202020202";
  dleq = undefined;
  witness = undefined;
  p2pk_e = undefined;
}

abbrev pub payment : PaymentPayload
payment = record {
  id = "order-0000000001";
  memo = none;
  unit = "rusd";
  mint = "https://mint.example";
  proofs = proof 2 ∷ proof 3 ∷ [];
}

abbrev row : OrderRow
row = new_row hash order 100

abbrev pub no_rows : IsTable hash []
no_rows = record { rows = tt; orders = tt; writers = tt; readers = tt }

abbrev pub registered : List OrderRow
registered = row ∷ []

pub registered-IsTable : IsTable hash registered
unfolding run register insert_allowed select
registered-IsTable = run-IsTable hash (registering order) 100 [] no_rows

registered-Slot : Slot hash writer reader row registered
unfolding select
registered-Slot = record { by_writer = refl; by_reader = refl }

abbrev pub paid_row : OrderRow
paid_row = (record row {
  state = OrderState.delivered;
  payload_json = some payment;
  payload_digest = some (digest_payload hash payment);
  delivered_at = some 150;
})

abbrev pub paid_table : List OrderRow
paid_table = paid_row ∷ []

slot_filled : deliver hash writer payment 150 registered ≡ (ok stored, paid_table)
unfolding deliver select update expire_row fits_order payload_amount amount_from positive_integer
slot_filled = refl

run_all-IsTable_example : IsTable hash (
    run_all hash
      ((100, registering order) ∷ (150, delivering writer payment) ∷ (4000, cleaning 60) ∷ [])
      [])
run_all-IsTable_example =
    run_all-IsTable hash
      ((100, registering order) ∷ (150, delivering writer payment) ∷ (4000, cleaning 60) ∷ []) []
      no_rows

run-Evolves_example :
    Evolves RowStep
      (Gone (delivering writer payment) 150)
      Vacant
      registered
      (run hash (delivering writer payment) 150 registered)
run-Evolves_example = run-Evolves hash (delivering writer payment) 150 registered

read-deliver_example : read hash reader 900 paid_table ≡ (ok (some payment), paid_table)
read-deliver_example =
    read-deliver hash writer reader row payment 150 900 registered paid_table registered-IsTable
      registered-Slot slot_filled

abbrev other_payment : PaymentPayload
other_payment = record payment { proofs = proof 1 ∷ proof 4 ∷ [] }

deliver-deliver_example : deliver hash writer other_payment 160 paid_table ≡ (
  (if str_eq (digest_payload hash payment) (digest_payload hash other_payment)
      then ok duplicate
      else fail 409 "payload_conflict"),
  paid_table,
)
deliver-deliver_example =
    deliver-deliver hash writer reader row payment other_payment 150 160 registered paid_table
      registered-IsTable registered-Slot slot_filled

cancel-deliver_example : cancel hash reader 160 paid_table ≡ (fail 409 "delivery_won", paid_table)
cancel-deliver_example =
    cancel-deliver hash writer reader row payment 150 160 registered paid_table registered-IsTable
      registered-Slot slot_filled

abbrev cancelled_table : List OrderRow
cancelled_table = record row { state = OrderState.cancelled; cancelled_at = some 120 } ∷ []

cancel_order : cancel hash reader 120 registered ≡ (ok closed_now, cancelled_table)
unfolding cancel select update expire_row row_for_read
cancel_order = refl

deliver-cancel_example :
    deliver hash writer payment 150 cancelled_table ≡ (fail 410 "slot_closed", cancelled_table)
deliver-cancel_example =
    deliver-cancel hash writer reader row payment 120 150 registered cancelled_table registered-Slot
      cancel_order

paid-Slot : Slot hash writer reader paid_row paid_table
unfolding select
paid-Slot = record { by_writer = refl; by_reader = refl }

abbrev collected_table : List OrderRow
collected_table =
    record paid_row {
      state = OrderState.acknowledged;
      payload_json = none;
      acknowledged_at = some 200;
    }
    ∷ []

acknowledge_order : acknowledge hash reader 200 paid_table ≡ (ok closed_now, collected_table)
unfolding acknowledge select update expire_row row_for_read
acknowledge_order = refl

paid-IsTable : IsTable hash paid_table
unfolding run deliver select update expire_row fits_order payload_amount amount_from
    positive_integer
paid-IsTable = run-IsTable hash (delivering writer payment) 150 registered registered-IsTable

read-acknowledge_example :
    ((p : PaymentPayload) × (read hash reader 170 paid_table ≡ (ok (some p), paid_table))
      × Pays hash p paid_row)
    × (read hash reader 210 collected_table ≡ (fail 410 "slot_closed", collected_table))
    × (acknowledge hash reader 210 collected_table ≡ (ok closed_before, collected_table))
read-acknowledge_example =
    read-acknowledge hash writer reader paid_row 170 200 210 paid_table collected_table paid-IsTable
      paid-Slot acknowledge_order

deliver-Pays_example :
    (150 < row.expires_at)
    × Pays hash payment row
    × Slot hash writer reader paid_row paid_table
    × ((key : String)
        → key ≢ hash writer
        → select (has_key (λ r. r.write_hash) key) paid_table
          ≡ select (has_key (λ r. r.write_hash) key) registered)
deliver-Pays_example =
    deliver-Pays hash writer reader row payment 150 registered paid_table registered-IsTable
      registered-Slot slot_filled

deliver_expired_example :
    deliver hash writer payment 500 registered ≡ (fail 410 "slot_closed", registered)
deliver_expired_example =
    deliver_expired hash writer reader row payment 500 registered registered-Slot refl

register_order : register hash order 100 [] ≡ (ok created, registered)
unfolding register insert_allowed select
register_order = refl

payment_total : payload_amount payment ≡ ok 5
unfolding payload_amount amount_from positive_integer
payment_total = refl

read-deliver-register_example :
    (rs'' : List OrderRow) × (deliver hash writer payment 150 registered ≡ (ok stored, rs''))
    × (read hash reader 900 rs'' ≡ (ok (some payment), rs''))
read-deliver-register_example =
    read-deliver-register hash order payment 100 150 900 [] registered register_order refl refl refl
      payment_total (omega arith)
