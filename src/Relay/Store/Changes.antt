-- ===== src/Relay/Store/Changes.antt =====
-- What a call does to the table: every method but `cleanup` leaves it, makes one update, or adds one
-- row, and each of these under the conditions that the code has tested.
use fibernuts.Common.{
  ℕ, String, Bool, true, false, Option, none, some, List, [], ◌∷◌, ◌++◌, ◌≡◌, refl, arith,
  Bool-cases, Option-cases, inl, inr, Result, ok, err, HttpError, str_eq, eq_iff, ap,
}
use fibernuts.Table.{select, update}
use fibernuts.Table.Keys.{has_key}
use fibernuts.Relay.Protocol.{PaymentPayload, RegisterOrderInput}
use fibernuts.Relay.Protocol.Payload.{digest_payload}
use fibernuts.Relay.Store.{
  OrderRow, is_shut, mark_expired, is_due, is_open_order, expire_row, new_row, insert_allowed,
  deliver_into, is_vacant, acknowledge_row, is_held, cancel_row, is_cancellable, register, deliver,
  deliver_slot, fits_order, read, read_slot, acknowledge, acknowledge_slot, cancel, cancel_slot,
  is_delivered, is_open, is_acknowledged, is_cancelled, commit, DeliveryResult, stored, duplicate,
}

pub expire_row_due :
    (now : ℕ) (row : OrderRow) (rs : List OrderRow)
    → is_due now row ≡ true
    → expire_row now row rs ≡ (mark_expired row, update (is_open_order row) mark_expired rs)
unfolding expire_row
expire_row_due now row rs due = rw due

pub expire_row_idle :
    (now : ℕ) (row : OrderRow) (rs : List OrderRow)
    → is_due now row ≡ false
    → expire_row now row rs ≡ (row, rs)
unfolding expire_row
expire_row_idle now row rs not_due = rw not_due

module _ (sha256 : String → String) where
  pub data Change (now : ℕ) (rs : List OrderRow) : List OrderRow → Type 0 where
    same : Change now rs rs
    expire :
        (row : OrderRow)
        → is_due now row ≡ true
        → Change now rs (update (is_open_order row) mark_expired rs)
    store :
        (hash : String) (payload : PaymentPayload) (row : OrderRow)
        → select (has_key (λ r. r.write_hash) hash) rs ≡ some row
        → is_due now row ≡ false
        → is_shut row.state ≡ false
        → row.payload_digest ≡ none
        → fits_order sha256 payload row ≡ ok true
        → Change now rs (update (is_vacant sha256 hash) (deliver_into sha256 payload now) rs)
    collect : (hash : String) → Change now rs (update (is_held hash) (acknowledge_row now) rs)
    withdraw : (hash : String) → Change now rs (update (is_cancellable hash) (cancel_row now) rs)
    add :
        (input : RegisterOrderInput)
        → select (has_key (λ r. r.order_id_hash) (sha256 input.order_id)) rs ≡ none
        → insert_allowed sha256 input rs ≡ true
        → Change now rs (rs ++ new_row sha256 input now ∷ [])

  module _ (now : ℕ) (rs : List OrderRow) where
    expire_row-Change : (row : OrderRow) → Change now rs (expire_row now row rs).1
    unfolding expire_row
    expire_row-Change row = elim (Bool-cases (is_due now row)) [
      | inl due ↦ rw due (expire row due)
      | inr not_due ↦ rw not_due same
    ]

    read_slot-table : (x : OrderRow × List OrderRow) → (read_slot sha256 x).1 ≡ x.1
    unfolding read_slot
    read_slot-table (row, rs) = ground arith

    pub read-Change : (capability : String) → Change now rs (read sha256 capability now rs).1
    unfolding read
    read-Change capability =
        elim (Option-cases (select (has_key (λ r. r.read_hash) (sha256 capability)) rs)) [
          | inl e ↦ rw e same
          | inr (row, e) ↦ rw (e, read_slot-table (expire_row now row rs)) (expire_row-Change row)
        ]

    acknowledge_slot-Change :
        (hash : String) (row : OrderRow)
        → Change now rs (acknowledge_slot sha256 hash now (expire_row now row rs)).1
    unfolding acknowledge_slot expire_row
    acknowledge_slot-Change hash row = elim (Bool-cases (is_due now row)) [
      | inl due ↦ rw due (expire row due)
      | inr not_due ↦ rw not_due (elim (Bool-cases (is_acknowledged row.state)) [
        | inl before ↦ rw before same
        | inr fresh ↦ rw fresh (elim (Bool-cases (is_delivered row.state)) [
          | inl held ↦ rw held (collect hash)
          | inr empty ↦ rw empty same
        ])
      ])
    ]

    pub acknowledge-Change :
        (capability : String) → Change now rs (acknowledge sha256 capability now rs).1
    unfolding acknowledge
    acknowledge-Change capability =
        elim (Option-cases (select (has_key (λ r. r.read_hash) (sha256 capability)) rs)) [
          | inl e ↦ rw e same
          | inr (row, e) ↦ rw e (acknowledge_slot-Change (sha256 capability) row)
        ]

    cancel_slot-Change :
        (hash : String) (row : OrderRow)
        → Change now rs (cancel_slot sha256 hash now (expire_row now row rs)).1
    unfolding cancel_slot expire_row
    cancel_slot-Change hash row = elim (Bool-cases (is_due now row)) [
      | inl due ↦ rw due (expire row due)
      | inr not_due ↦ rw not_due (elim (Bool-cases (is_cancelled row.state)) [
        | inl before ↦ rw before same
        | inr fresh ↦ rw fresh (elim (Bool-cases (is_open row.state)) [
          | inl empty ↦ rw empty (withdraw hash)
          | inr closed ↦ rw closed same
        ])
      ])
    ]

    pub cancel-Change : (capability : String) → Change now rs (cancel sha256 capability now rs).1
    unfolding cancel
    cancel-Change capability =
        elim (Option-cases (select (has_key (λ r. r.read_hash) (sha256 capability)) rs)) [
          | inl e ↦ rw e same
          | inr (row, e) ↦ rw e (cancel_slot-Change (sha256 capability) row)
        ]

    pub register-Change :
        (input : RegisterOrderInput) → Change now rs (register sha256 input now rs).1
    unfolding register
    register-Change input =
        elim (Option-cases (select (has_key (λ r. r.order_id_hash) (sha256 input.order_id)) rs)) [
          | inl e ↦ rw e (elim (Bool-cases (insert_allowed sha256 input rs)) [
            | inl free ↦ rw free (add input e free)
            | inr taken ↦ rw taken same
          ])
          | inr (row, e) ↦ rw e same
        ]

  -- How `deliver` ends, with what it has tested: it fails, finds the same payload, or stores it.
  pub data Delivery (hash : String) (payload : PaymentPayload) (now : ℕ) (rs : List OrderRow)
      : Result DeliveryResult × List OrderRow → Type 0 where
    refused : (e : HttpError) → Delivery hash payload now rs (err e, rs)
    repeated :
        (row : OrderRow)
        → select (has_key (λ r. r.write_hash) hash) rs ≡ some row
        → is_due now row ≡ false
        → is_shut row.state ≡ false
        → row.payload_digest ≡ some (digest_payload sha256 payload)
        → Delivery hash payload now rs (ok duplicate, rs)
    accepted :
        (row : OrderRow)
        → select (has_key (λ r. r.write_hash) hash) rs ≡ some row
        → is_due now row ≡ false
        → is_shut row.state ≡ false
        → row.payload_digest ≡ none
        → fits_order sha256 payload row ≡ ok true
        → Delivery hash payload now rs
            (ok stored, update (is_vacant sha256 hash) (deliver_into sha256 payload now) rs)

  module _ (hash : String) (payload : PaymentPayload) (now : ℕ) (rs : List OrderRow) where
    -- A slot that is still open, or holds a payload.
    module _ (row : OrderRow) (found : select (has_key (λ r. r.write_hash) hash) rs ≡ some row)
        (not_due : is_due now row ≡ false) (not_shut : is_shut row.state ≡ false) where
      fits-Delivery :
          (fits : Result Bool)
          → fits_order sha256 payload row ≡ fits
          → row.payload_digest ≡ none
          → Delivery hash payload now rs
              (commit rs (deliver_slot sha256 hash payload now (row, rs)))
      unfolding deliver_slot
      fits-Delivery (err e) f d = rw (not_shut, d, f) (refused e)
      fits-Delivery (ok false) f d = rw (not_shut, d, f) (refused _)
      fits-Delivery (ok true) f d = rw (not_shut, d, f) (accepted row found not_due not_shut d f)

      digest-Delivery :
          (digest : Option String)
          → row.payload_digest ≡ digest
          → Delivery hash payload now rs
              (commit rs (deliver_slot sha256 hash payload now (row, rs)))
      digest-Delivery none d = fits-Delivery (fits_order sha256 payload row) refl d
      digest-Delivery (some digest) d =
          elim (Bool-cases (str_eq digest (digest_payload sha256 payload))) [
            | inl e ↦
                unfold deliver_slot in
                rw (not_shut, d, e)
                  (repeated row found not_due not_shut (rw d (ap some ((eq_iff _ _).0 e))))
            | inr e ↦ unfold deliver_slot in rw (not_shut, d, e) (refused _)
          ]

    found-Delivery :
        (row : OrderRow)
        → select (has_key (λ r. r.write_hash) hash) rs ≡ some row
        → Delivery hash payload now rs
            (commit rs (deliver_slot sha256 hash payload now (expire_row now row rs)))
    found-Delivery row found = elim (Bool-cases (is_due now row)) [
      | inl due ↦ rw (expire_row_due now row rs due) (unfold deliver_slot in refused _)
      | inr not_due ↦
          rw (expire_row_idle now row rs not_due) (elim (Bool-cases (is_shut row.state)) [
            | inl shut ↦ unfold deliver_slot in rw shut (refused _)
            | inr not_shut ↦ digest-Delivery row found not_due not_shut row.payload_digest refl
          ])
    ]

  -- A delivery ends in one of three ways: it fails and leaves the table as it was; it repeats the
  -- payload that the slot of its capability has on record, and changes nothing; or it stores a
  -- payload that fits the order of an open slot, not yet due and without a payload, and changes
  -- nothing else.
  pub deliver-Delivery :
      (capability : String) (payload : PaymentPayload) (now : ℕ) (rs : List OrderRow)
      → Delivery (sha256 capability) payload now rs (deliver sha256 capability payload now rs)
  unfolding deliver
  deliver-Delivery capability payload now rs =
      elim (Option-cases (select (has_key (λ r. r.write_hash) (sha256 capability)) rs)) [
        | inl e ↦ rw e (refused _)
        | inr (row, e) ↦ rw e (found-Delivery (sha256 capability) payload now rs row e)
      ]

  pub deliver-Change :
      (capability : String) (payload : PaymentPayload) (now : ℕ) (rs : List OrderRow)
      → Change now rs (deliver sha256 capability payload now rs).1
  deliver-Change capability payload now rs =
      of_delivery (deliver-Delivery capability payload now rs)
    where
      of_delivery :
          {x : Result DeliveryResult × List OrderRow}
          → Delivery (sha256 capability) payload now rs x
          → Change now rs x.1
      of_delivery (refused e) = same
      of_delivery (repeated row f d s g) = same
      of_delivery (accepted row f d s g fits) = store (sha256 capability) payload row f d s g fits
