-- ===== src/Relay/Store/Exchange.antt =====
-- What the two holders of a slot's capabilities see of one another.

use text.Mathlib.TextPositions.{eq_refl}
use fibernuts.Common.{
  ℕ, ◌<◌, String, true, false, is_some, Option, none, some, List, [], ◌∷◌, ◌++◌, ◌≡◌, ◌≢◌, refl,
  ◌∙◌, ap, arith, eq_iff, Option-cases, inl, inr, ok, fail, str_eq, if◌then◌else◌,
}
use fibernuts.Table.{select, update}
use fibernuts.Table.Rows.{select_match, select-append, select-All, select-update}
use fibernuts.Table.Keys.{has_key}
use fibernuts.Relay.Protocol.{PaymentPayload, RegisterOrderInput}
use fibernuts.Relay.Protocol.Payload.{digest_payload, payload_amount}
use fibernuts.Relay.Store.{
  OrderState, open_slot, delivered, acknowledged, cancelled, expired, OrderRow, is_open,
  is_delivered, is_due, new_row, insert_allowed, deliver_into, is_vacant, acknowledge_row, is_held,
  cancel_row, is_cancellable, register, created, deliver, deliver_slot, stored, duplicate, read,
  read_slot, acknowledge, acknowledge_slot, cancel, cancel_slot, closed_now, closed_before,
}
use fibernuts.Relay.Store.Changes.{expire_row_idle, expire_row_due}
use fibernuts.Relay.Store.Invariant.{
  IsTable, IsRow, Contents, Pays, fits_order-Pays, Pays-fits_order,
}
use fibernuts.Relay.Store.Slots.{
  Slot, Slot-update, deliver_at, deliver_again, deliver_shut, read_idle, acknowledge_idle,
  cancel_idle, deliver_inv, stored-Slot, cancel_inv, acknowledge_inv,
}

module _ (sha256 : String → String) where
  -- The reader gets the payload that the writer has stored, at any later time, and reading it
  -- leaves the table as it is.
  pub read-deliver :
      (writer reader : String) (row : OrderRow) (payload : PaymentPayload) (now later : ℕ)
      (rs rs' : List OrderRow)
      → IsTable sha256 rs
      → Slot sha256 writer reader row rs
      → deliver sha256 writer payload now rs ≡ (ok stored, rs')
      → read sha256 reader later rs' ≡ (ok (some payload), rs')
  read-deliver writer reader row payload now later rs rs' t slot e =
      read_idle sha256 (stored-Slot sha256 slot payload now t e) later refl
      ∙ unfold read_slot in refl

  -- After a delivery the slot takes no other payload: the same one is a duplicate, one with another
  -- digest a conflict, and neither changes the table.
  pub deliver-deliver :
      (writer reader : String) (row : OrderRow) (payload other : PaymentPayload) (now later : ℕ)
      (rs rs' : List OrderRow)
      → IsTable sha256 rs
      → Slot sha256 writer reader row rs
      → deliver sha256 writer payload now rs ≡ (ok stored, rs')
      → deliver sha256 writer other later rs' ≡ (
        (if str_eq (digest_payload sha256 payload) (digest_payload sha256 other)
            then ok duplicate
            else fail 409 "payload_conflict"),
        rs',
      )
  deliver-deliver writer reader row payload other now later rs rs' t slot e =
      deliver_again sha256 (stored-Slot sha256 slot payload now t e) other later
        (digest_payload sha256 payload) refl refl refl

  -- A slot cannot be cancelled once it has a payload.
  pub cancel-deliver :
      (writer reader : String) (row : OrderRow) (payload : PaymentPayload) (now later : ℕ)
      (rs rs' : List OrderRow)
      → IsTable sha256 rs
      → Slot sha256 writer reader row rs
      → deliver sha256 writer payload now rs ≡ (ok stored, rs')
      → cancel sha256 reader later rs' ≡ (fail 409 "delivery_won", rs')
  cancel-deliver writer reader row payload now later rs rs' t slot e =
      cancel_idle sha256 (stored-Slot sha256 slot payload now t e) later (ground arith)
      ∙ unfold cancel_slot in refl

  -- A cancelled slot takes no payload.
  pub deliver-cancel :
      (writer reader : String) (row : OrderRow) (payload : PaymentPayload) (now later : ℕ)
      (rs rs' : List OrderRow)
      → Slot sha256 writer reader row rs
      → cancel sha256 reader now rs ≡ (ok closed_now, rs')
      → deliver sha256 writer payload later rs' ≡ (fail 410 "slot_closed", rs')
  deliver-cancel writer reader row payload now later rs rs' slot e =
      let (due, empty, after) = cancel_inv sha256 slot now e in
      let hash = select_match (has_key (λ r. r.read_hash) (sha256 reader)) rs slot.by_reader in
      let closed =
        Slot-update sha256 slot (is_cancellable (sha256 reader)) (cancel_row now) (λ r. refl)
          (λ r. refl) (rw (hash, empty)) in
      rw (← after) (deliver_shut sha256 closed payload later refl refl)

  -- What a delivered row holds.
  delivered-Contents :
      (state : OrderState) (row : OrderRow)
      → is_delivered state ≡ true
      → Contents sha256 state row
      → (is_open state ≡ false)
        × (payload : PaymentPayload) × (row.payload_json ≡ some payload)
        × Pays sha256 payload row
  delivered-Contents delivered row d (payload, json, digest, pays, at) = (refl, payload, json, pays)
  delivered-Contents open_slot row d c = cc
  delivered-Contents acknowledged row d c = cc
  delivered-Contents cancelled row d c = cc
  delivered-Contents expired row d c = cc

  -- If an acknowledgement closes a slot, then until then its reader got, at any time, a payload that
  -- pays the order in full. Afterwards the slot is closed to its reader, and further acknowledgements
  -- are duplicates.
  pub read-acknowledge :
      (writer reader : String) (row : OrderRow) (before now later : ℕ) (rs rs' : List OrderRow)
      → IsTable sha256 rs
      → Slot sha256 writer reader row rs
      → acknowledge sha256 reader now rs ≡ (ok closed_now, rs')
      → ((payload : PaymentPayload) × (read sha256 reader before rs ≡ (ok (some payload), rs))
          × Pays sha256 payload row)
        × (read sha256 reader later rs' ≡ (fail 410 "slot_closed", rs'))
        × (acknowledge sha256 reader later rs' ≡ (ok closed_before, rs'))
  read-acknowledge writer reader row before now later rs rs' t slot e =
      let (held, after) = acknowledge_inv sha256 slot now e in
      let holds = select-All (IsRow sha256) _ rs t.rows slot.by_reader in
      let (closed_slot, payload, json, pays) =
        delivered-Contents row.state row held holds.contents in
      let hash = select_match (has_key (λ r. r.read_hash) (sha256 reader)) rs slot.by_reader in
      let closed =
        Slot-update sha256 slot (is_held (sha256 reader)) (acknowledge_row now) (λ r. refl)
          (λ r. refl) (rw (hash, held)) in
      (
        (
          payload,
          read_idle sha256 slot before closed_slot
              ∙ unfold read_slot in rw (closed_slot, held, json) refl,
          pays,
        ),
        rw (← after) (read_idle sha256 closed later refl ∙ unfold read_slot in refl),
        rw (← after) (acknowledge_idle sha256 closed later refl ∙ unfold acknowledge_slot in refl),
      )

  -- A delivery that is stored comes before the order runs out and pays it in full: the identifier, the
  -- unit and the mint are those of the order, and the proofs add up to its amount. The row of the slot
  -- then holds the payload, its digest and the time, and is otherwise as it was, and so are the rows of
  -- all other slots.
  pub deliver-Pays :
      (writer reader : String) (row : OrderRow) (payload : PaymentPayload) (now : ℕ)
      (rs rs' : List OrderRow)
      → IsTable sha256 rs
      → Slot sha256 writer reader row rs
      → deliver sha256 writer payload now rs ≡ (ok stored, rs')
      → (now < row.expires_at)
        × Pays sha256 payload row
        × Slot sha256 writer reader
            (record row {
              state = delivered;
              payload_json = some payload;
              payload_digest = some (digest_payload sha256 payload);
              delivered_at = some now;
            })
            rs'
        × ((hash : String)
            → hash ≢ sha256 writer
            → select (has_key (λ r. r.write_hash) hash) rs'
              ≡ select (has_key (λ r. r.write_hash) hash) rs)
  deliver-Pays writer reader row payload now rs rs' t slot e =
      let (not_due, empty, digest, fits, after) = deliver_inv sha256 slot payload now t e in
      (
        ground arith,
        fits_order-Pays sha256 payload row fits,
        stored-Slot sha256 slot payload now t e,
        λ hash other. rw (← after) (elsewhere hash other),
      )
    where
      elsewhere :
          (hash : String)
          → hash ≢ sha256 writer
          → select
              (has_key (λ r. r.write_hash) hash)
              (update (is_vacant sha256 (sha256 writer)) (deliver_into sha256 payload now) rs)
            ≡ select (has_key (λ r. r.write_hash) hash) rs
      elsewhere hash other =
          select-update (has_key (λ r. r.write_hash) hash) (is_vacant sha256 (sha256 writer))
            (deliver_into sha256 payload now) (λ r. refl) rs
          ∙ elim (Option-cases (select (has_key (λ r. r.write_hash) hash) rs)) [
            | inl none_there ↦ rw none_there
            | inr (r, there) ↦ rw (there, apart hash other r there)
          ]
        where
          apart :
              (hash : String)
              → hash ≢ sha256 writer
              → (r : OrderRow) → select (has_key (λ r. r.write_hash) hash) rs ≡ some r
              → is_vacant sha256 (sha256 writer) r ≡ false
          apart hash other r there =
              let here = select_match (has_key (λ r. r.write_hash) hash) rs there in
              ground
                (arith, here, eq_iff r.write_hash hash, eq_iff r.write_hash (sha256 writer), other)

  -- A slot past its expiry with no payload takes none, and the failed delivery leaves no trace.
  pub deliver_expired :
      (writer reader : String) (row : OrderRow) (payload : PaymentPayload) (now : ℕ)
      (rs : List OrderRow)
      → Slot sha256 writer reader row rs
      → is_due now row ≡ true
      → deliver sha256 writer payload now rs ≡ (fail 410 "slot_closed", rs)
  deliver_expired writer reader row payload now rs slot due =
      deliver_at sha256 slot payload now
      ∙ rw (expire_row_due now row rs due) (unfold deliver_slot in refl)

  register_created :
      (input : RegisterOrderInput) (now : ℕ) (rs : List OrderRow) {rs' : List OrderRow}
      → register sha256 input now rs ≡ (ok created, rs')
      → (insert_allowed sha256 input rs ≡ true) × (rs ++ new_row sha256 input now ∷ [] ≡ rs')
  unfolding register
  register_created input now rs e =
      elim (Option-cases (select (has_key (λ r. r.order_id_hash) (sha256 input.order_id)) rs)) [
        | inl absent ↦ let at_none = rw absent at e in ground arith
        | inr (row, found) ↦ let at_row = rw found at e in ground arith
      ]

  -- The two capabilities of a registration find its row.
  register-Slot :
      (input : RegisterOrderInput) (now : ℕ) (rs rs' : List OrderRow)
      → register sha256 input now rs ≡ (ok created, rs')
      → Slot sha256 input.write_capability input.read_capability (new_row sha256 input now) rs'
  unfolding insert_allowed
  register-Slot input now rs rs' e =
      let (allowed, after) = register_created input now rs e in
      let row = new_row sha256 input now in
      rw (← after) (record {
        by_writer =
            select-append (has_key (λ r. r.write_hash) (sha256 input.write_capability)) rs row
            ∙ rw (
              absent (select (has_key (λ r. r.write_hash) (sha256 input.write_capability)) rs)
                  (ground arith),
              eq_refl,
            );
        by_reader =
            select-append (has_key (λ r. r.read_hash) (sha256 input.read_capability)) rs row
            ∙ rw (
              absent (select (has_key (λ r. r.read_hash) (sha256 input.read_capability)) rs)
                  (ground arith),
              eq_refl,
            );
      })
    where
      absent : (o : Option OrderRow) → is_some o ≡ false → o ≡ none
      absent none h = refl
      absent (some r) h = cc

  -- A registered order that is paid in full before it runs out reaches its reader.
  pub read-deliver-register :
      (input : RegisterOrderInput) (payload : PaymentPayload) (now then' later : ℕ)
      (rs rs' : List OrderRow)
      → register sha256 input now rs ≡ (ok created, rs')
      → payload.id ≡ input.order_id
      → payload.unit ≡ input.unit
      → payload.mint ≡ input.mint
      → payload_amount payload ≡ ok input.amount
      → then' < input.expires_at
      → (rs'' : List OrderRow) × (deliver sha256 input.write_capability payload then' rs'
          ≡ (ok stored, rs''))
        × (read sha256 input.read_capability later rs'' ≡ (ok (some payload), rs''))
  read-deliver-register input payload now then' later rs rs' e id unit mint total early =
      let slot = register-Slot input now rs rs' e in
      let row = new_row sha256 input now in
      let after =
        update (is_vacant sha256 (sha256 input.write_capability))
          (deliver_into sha256 payload then') rs' in
      let fits =
        Pays-fits_order sha256 payload row
          (record { order = ap sha256 id; unit = unit; mint = mint; total = total }) in
      let paid =
        Slot-update sha256 slot (is_vacant sha256 (sha256 input.write_capability))
          (deliver_into sha256 payload then') (λ r. refl) (λ r. refl) (rw eq_refl) in
      (
        after,
        deliver_at sha256 slot payload then'
            ∙ rw (expire_row_idle then' row rs' (ground arith)) (unfold deliver_slot in rw fits),
        read_idle sha256 paid later refl ∙ unfold read_slot in refl,
      )
