-- ===== src/Relay/Store/Slots.antt =====
-- A slot as its two capabilities find it, and what each method does to it.

use mathlib.Core.Option.{some-injective}
use fibernuts.Common.{
  ℕ, String, Bool, true, false, none, some, List, ◌≡◌, refl, sym, ◌∙◌, ap, arith, Bool-cases, inl,
  inr, Result, ok, fail, str_eq, if◌then◌else◌,
}
use fibernuts.Table.{select, update}
use fibernuts.Table.Rows.{select_match, select-All, select-update}
use fibernuts.Table.Keys.{has_key}
use fibernuts.Relay.Protocol.{PaymentPayload}
use fibernuts.Relay.Protocol.Payload.{digest_payload}
use fibernuts.Relay.Store.{
  OrderState, open_slot, delivered, acknowledged, cancelled, expired, OrderRow, is_open,
  is_delivered, is_shut, is_due, deliver_into, is_vacant, acknowledge_row, is_held, cancel_row,
  is_cancellable, fits_order, deliver, deliver_slot, DeliveryResult, stored, duplicate, read,
  read_slot, acknowledge, acknowledge_slot, cancel, cancel_slot, closed_now, expire_row, commit,
}
use fibernuts.Relay.Store.Changes.{
  expire_row_idle, Delivery, refused, repeated, accepted, deliver-Delivery,
}
use fibernuts.Relay.Store.Invariant.{IsTable, IsRow, Contents}

module _ (sha256 : String → String) where
  -- The slot that a write and a read capability share.
  pub record Slot (writer reader : String) (row : OrderRow) (rs : List OrderRow) : Type 0 where
    pub by_writer : select (has_key (λ r. r.write_hash) (sha256 writer)) rs ≡ some row
    pub by_reader : select (has_key (λ r. r.read_hash) (sha256 reader)) rs ≡ some row

  -- A row that is neither shut nor has a digest is open.
  vacant_open :
      (s : OrderState) (r : OrderRow)
      → is_shut s ≡ false
      → r.payload_digest ≡ none
      → Contents sha256 s r
      → is_open s ≡ true
  vacant_open open_slot r n d c = refl
  vacant_open delivered r n d (payload, j, g, pays, at) = cc
  vacant_open acknowledged r n d c = absurd (c.1 d)
  vacant_open cancelled r n d c = cc
  vacant_open expired r n d c = cc

  module _ {writer reader : String} {row : OrderRow} {rs : List OrderRow}
      (slot : Slot writer reader row rs) where
    -- What an update makes of the slot.
    pub Slot-update :
        (q : OrderRow → Bool) (f : OrderRow → OrderRow)
        → ((r : OrderRow) → (f r).write_hash ≡ r.write_hash)
        → ((r : OrderRow) → (f r).read_hash ≡ r.read_hash)
        → q row ≡ true
        → Slot writer reader (f row) (update q f rs)
    Slot-update q f w d hit = record {
      by_writer =
          select-update (has_key (λ r. r.write_hash) (sha256 writer)) q f (λ r. rw (w r)) rs
          ∙ rw (slot.by_writer, hit);
      by_reader =
          select-update (has_key (λ r. r.read_hash) (sha256 reader)) q f (λ r. rw (d r)) rs
          ∙ rw (slot.by_reader, hit);
    }

    pub deliver_at :
        (payload : PaymentPayload) (now : ℕ)
        → deliver sha256 writer payload now rs
          ≡ commit rs (deliver_slot sha256 (sha256 writer) payload now (expire_row now row rs))
    unfolding deliver
    deliver_at payload now = rw slot.by_writer

    -- A row that holds or has held a payload answers by the digest alone.
    pub deliver_again :
        (payload : PaymentPayload) (now : ℕ) (digest : String)
        → is_open row.state ≡ false
        → is_shut row.state ≡ false
        → row.payload_digest ≡ some digest
        → deliver sha256 writer payload now rs ≡ (
          (if str_eq digest (digest_payload sha256 payload)
              then ok duplicate
              else fail 409 "payload_conflict"),
          rs,
        )
    deliver_again payload now digest o n d =
        deliver_at payload now
        ∙ rw (expire_row_idle now row rs (ground arith)) (
            unfold deliver_slot in
            rw (n, d)
              (elim (Bool-cases (str_eq digest (digest_payload sha256 payload))) [
                | inl e ↦ rw e
                | inr e ↦ rw e
              ]))

    pub deliver_shut :
        (payload : PaymentPayload) (now : ℕ)
        → is_open row.state ≡ false
        → is_shut row.state ≡ true
        → deliver sha256 writer payload now rs ≡ (fail 410 "slot_closed", rs)
    deliver_shut payload now o h =
        deliver_at payload now
        ∙ rw (expire_row_idle now row rs (ground arith)) (unfold deliver_slot in rw h)

    pub read_idle :
        (now : ℕ)
        → is_open row.state ≡ false
        → read sha256 reader now rs ≡ read_slot sha256 (row, rs)
    unfolding read
    read_idle now o = rw slot.by_reader (rw (expire_row_idle now row rs (ground arith)))

    pub acknowledge_idle :
        (now : ℕ)
        → is_open row.state ≡ false
        → acknowledge sha256 reader now rs ≡ acknowledge_slot sha256 (sha256 reader) now (row, rs)
    unfolding acknowledge
    acknowledge_idle now o = rw slot.by_reader (rw (expire_row_idle now row rs (ground arith)))

    pub cancel_idle :
        (now : ℕ)
        → is_due now row ≡ false
        → cancel sha256 reader now rs ≡ cancel_slot sha256 (sha256 reader) now (row, rs)
    unfolding cancel
    cancel_idle now o = rw slot.by_reader (rw (expire_row_idle now row rs o))

    -- What a delivery that was stored has found and done.
    pub deliver_inv :
        (payload : PaymentPayload) (now : ℕ) {rs' : List OrderRow}
        → IsTable sha256 rs
        → deliver sha256 writer payload now rs ≡ (ok stored, rs')
        → (is_due now row ≡ false)
          × (is_open row.state ≡ true)
          × (row.payload_digest ≡ none)
          × (fits_order sha256 payload row ≡ ok true)
          × (update (is_vacant sha256 (sha256 writer)) (deliver_into sha256 payload now) rs ≡ rs')
    deliver_inv payload now {rs'} t e =
        of_delivery (deliver-Delivery sha256 writer payload now rs) e
      where
        of_delivery :
            {x : Result DeliveryResult × List OrderRow}
            → Delivery sha256 (sha256 writer) payload now rs x
            → x ≡ (ok stored, rs')
            → (is_due now row ≡ false)
              × (is_open row.state ≡ true)
              × (row.payload_digest ≡ none)
              × (fits_order sha256 payload row ≡ ok true)
              × (update (is_vacant sha256 (sha256 writer)) (deliver_into sha256 payload now) rs
                  ≡ rs')
        of_delivery (refused error) e =
            cc (ap (λ (y : Result DeliveryResult × List OrderRow). y.0) e)
        of_delivery (repeated r f d n g) e =
            cc (ap (λ (y : Result DeliveryResult × List OrderRow). y.0) e)
        of_delivery (accepted r f d n g fits) e =
            let same : r ≡ row = some-injective r row (sym f ∙ slot.by_writer) in
            let holds = select-All (IsRow sha256) _ rs t.rows slot.by_writer in
            (
              rw (← same) d,
              vacant_open row.state row (rw (← same) n) (rw (← same) g) holds.contents,
              rw (← same) g,
              rw (← same) fits,
              ap (λ (y : Result DeliveryResult × List OrderRow). y.1) e,
            )

    -- The slot after a delivery that was stored: its row has the payload.
    pub stored-Slot :
        (payload : PaymentPayload) (now : ℕ) {rs' : List OrderRow}
        → IsTable sha256 rs
        → deliver sha256 writer payload now rs ≡ (ok stored, rs')
        → Slot writer reader (deliver_into sha256 payload now row) rs'
    stored-Slot payload now t e =
        let (due, empty, digest, fits, after) = deliver_inv payload now t e in
        let is_hash =
          select_match (has_key (λ r. r.write_hash) (sha256 writer)) rs slot.by_writer in
        rw (← after) (
          Slot-update (is_vacant sha256 (sha256 writer)) (deliver_into sha256 payload now)
            (λ r. refl) (λ r. refl) (rw (is_hash, empty, digest)))

  module _ {writer reader : String} {row : OrderRow} {rs : List OrderRow}
      (slot : Slot writer reader row rs) where
    -- `cancel` succeeds on an open slot that has not run out.
    pub cancel_inv :
        (now : ℕ) {rs' : List OrderRow}
        → cancel sha256 reader now rs ≡ (ok closed_now, rs')
        → (is_due now row ≡ false)
          × (is_open row.state ≡ true)
          × (update (is_cancellable (sha256 reader)) (cancel_row now) rs ≡ rs')
    unfolding cancel cancel_slot expire_row
    cancel_inv now e = let at_row = rw slot.by_reader at e in ground arith

    pub acknowledge_inv :
        (now : ℕ) {rs' : List OrderRow}
        → acknowledge sha256 reader now rs ≡ (ok closed_now, rs')
        → (is_delivered row.state ≡ true)
          × (update (is_held (sha256 reader)) (acknowledge_row now) rs ≡ rs')
    unfolding acknowledge acknowledge_slot expire_row
    acknowledge_inv now e = let at_row = rw slot.by_reader at e in ground arith
