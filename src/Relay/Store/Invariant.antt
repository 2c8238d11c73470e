-- ===== src/Relay/Store/Invariant.antt =====
-- What every row of the relay's table holds at any time: the payload is there only while it waits
-- to be collected, and it is the payload that the order asked for.
use fibernuts.Common.{
  ℕ, ◌<◌, String, Bool, true, false, is_some, Option, none, some, List, [], ◌∷◌, ◌++◌, ◌≡◌, ◌≢◌,
  refl, ap, ◌∙◌, arith, eq_iff, All, All-append, ok, ==_iff,
}
use fibernuts.Table.{select, update}
use fibernuts.Table.Rows.{All-update, All-delete, select-none}
use fibernuts.Table.Keys.{
  Pairs, Pairs-append, Pairs-delete, Pairs-update, Differ, has_key, All-update_key,
}
use fibernuts.Relay.Protocol.{PaymentPayload, RegisterOrderInput}
use fibernuts.Relay.Protocol.Payload.{digest_payload, payload_amount}
use fibernuts.Relay.Store.{
  OrderState, open_slot, delivered, acknowledged, OrderRow, mark_expired, is_due, is_open_order,
  is_stale, is_disposable, sweep, cleanup, new_row, insert_allowed, deliver_into, is_vacant,
  acknowledge_row, is_held, is_open, is_delivered, cancel_row, is_cancellable, fits_order,
}
use fibernuts.Relay.Store.Changes.{
  Change, same, expire, store, collect, withdraw, add, register-Change, deliver-Change, read-Change,
  acknowledge-Change, cancel-Change,
}
use fibernuts.Relay.Store.Commands.{
  Command, registering, delivering, reading, acknowledging, cancelling, cleaning, run, run_all,
}

module _ (sha256 : String → String) where
  -- The payload pays this order: its id, unit and mint, and the total of its proofs.
  pub record Pays (payload : PaymentPayload) (r : OrderRow) : Type 0 where
    pub order : sha256 payload.id ≡ r.order_id_hash
    pub unit : payload.unit ≡ r.unit
    pub mint : payload.mint ≡ r.mint
    pub total : payload_amount payload ≡ ok r.amount

  abbrev pub Contents : OrderState → OrderRow → Type 0
  Contents open_slot r =
      (r.payload_json ≡ none) × (r.payload_digest ≡ none) × (r.delivered_at ≡ none)
  Contents delivered r =
      (payload : PaymentPayload) × (r.payload_json ≡ some payload)
      × (r.payload_digest ≡ some (digest_payload sha256 payload))
      × Pays payload r
      × (r.delivered_at ≢ none)
  Contents acknowledged r = (r.payload_json ≡ none) × (r.payload_digest ≢ none)
  Contents _ r = r.payload_json ≡ none

  pub record IsRow (r : OrderRow) : Type 0 where
    pub positive : 0 < r.amount
    pub contents : Contents r.state r

  pub record IsTable (rs : List OrderRow) : Type 0 where
    pub rows : All IsRow rs
    pub orders : Pairs (Differ (λ (r : OrderRow). r.order_id_hash)) rs
    pub writers : Pairs (Differ (λ (r : OrderRow). r.write_hash)) rs
    pub readers : Pairs (Differ (λ (r : OrderRow). r.read_hash)) rs

  pub fits_order-Pays :
      (payload : PaymentPayload) (r : OrderRow)
      → fits_order sha256 payload r ≡ ok true
      → Pays payload r
  unfolding fits_order
  fits_order-Pays payload r h = record {
    order = ground (arith, eq_iff (sha256 payload.id) r.order_id_hash);
    unit = ground (arith, eq_iff payload.unit r.unit);
    mint = ground (arith, eq_iff payload.mint r.mint);
    total = ground arith;
  }

  pub Pays-fits_order :
      (payload : PaymentPayload) (r : OrderRow)
      → Pays payload r
      → fits_order sha256 payload r ≡ ok true
  unfolding fits_order
  Pays-fits_order payload r p = rw ((eq_iff _ _).1 p.order) (
      rw ((eq_iff _ _).1 p.unit)
        (rw ((eq_iff _ _).1 p.mint) (rw p.total (ap ok ((==_iff r.amount r.amount).1 refl)))))

  -- An update that keeps the three hashes keeps the table.
  IsTable-update :
      (q : OrderRow → Bool) (f : OrderRow → OrderRow) (rs : List OrderRow)
      → ((r : OrderRow) → (f r).order_id_hash ≡ r.order_id_hash)
      → ((r : OrderRow) → (f r).write_hash ≡ r.write_hash)
      → ((r : OrderRow) → (f r).read_hash ≡ r.read_hash)
      → IsTable rs
      → All IsRow (update q f rs)
      → IsTable (update q f rs)
  IsTable-update q f rs o w d t rows = record {
    rows = rows;
    orders = Pairs-update _ q f (λ x y n. rw (o x) n) (λ x y n. rw (o y) n) rs t.orders;
    writers = Pairs-update _ q f (λ x y n. rw (w x) n) (λ x y n. rw (w y) n) rs t.writers;
    readers = Pairs-update _ q f (λ x y n. rw (d x) n) (λ x y n. rw (d y) n) rs t.readers;
  }

  mark_expired-IsRow : (r : OrderRow) → IsRow r → IsRow (mark_expired r)
  mark_expired-IsRow r h = record { positive = h.positive; contents = refl }

  IsTable-expire :
      (q : OrderRow → Bool) (rs : List OrderRow) → IsTable rs → IsTable (update q mark_expired rs)
  IsTable-expire q rs t =
      IsTable-update q mark_expired rs (λ r. refl) (λ r. refl) (λ r. refl) t
        (All-update IsRow q mark_expired (λ r _ h. mark_expired-IsRow r h) rs t.rows)

  deliver_into-IsRow :
      (payload : PaymentPayload) (now : ℕ) (r : OrderRow)
      → Pays payload r
      → IsRow r
      → IsRow (deliver_into sha256 payload now r)
  deliver_into-IsRow payload now r pays h = record {
    positive = h.positive;
    contents = (
      payload,
      refl,
      refl,
      record { order = pays.order; unit = pays.unit; mint = pays.mint; total = pays.total },
      λ e. cc,
    );
  }

  pub held_digest :
      (s : OrderState) (r : OrderRow)
      → is_delivered s ≡ true
      → Contents s r
      → r.payload_digest ≢ none
  held_digest delivered r d (payload, j, g, pays, at) e = cc
  held_digest open_slot r d c e = cc
  held_digest _ r d c e = cc

  open_payload :
      (s : OrderState) (r : OrderRow) → is_open s ≡ true → Contents s r → r.payload_json ≡ none
  open_payload open_slot r d c = c.0
  open_payload delivered r d c = cc
  open_payload _ r d c = cc

  acknowledge_row-IsRow :
      (hash : String) (now : ℕ) (r : OrderRow)
      → is_held hash r ≡ true
      → IsRow r
      → IsRow (acknowledge_row now r)
  acknowledge_row-IsRow hash now r q h = record {
    positive = h.positive;
    contents = (refl, held_digest r.state r (ground arith) h.contents);
  }

  cancel_row-IsRow :
      (hash : String) (now : ℕ) (r : OrderRow)
      → is_cancellable hash r ≡ true
      → IsRow r
      → IsRow (cancel_row now r)
  cancel_row-IsRow hash now r q h = record {
    positive = h.positive;
    contents = open_payload r.state r (ground arith) h.contents;
  }

  -- No row has a key that a selection by it did not find.
  absent-Differ :
      (key : OrderRow → String) (k : String) (new : OrderRow) (rs : List OrderRow)
      → key new ≡ k
      → select (has_key key k) rs ≡ none
      → All (λ r. Differ key r new) rs
  absent-Differ key k new rs e absent = go rs (select-none (has_key key k) rs absent)
    where
      go :
          (rs : List OrderRow)
          → All (λ r. has_key key k r ≡ false) rs
          → All (λ r. Differ key r new) rs
      go [] h = tt
      go (r ∷ rs) h = ((λ same. cc (h.0, (eq_iff (key r) k).1 (same ∙ e))), go rs h.1)

  IsTable-add :
      (input : RegisterOrderInput) (now : ℕ) (rs : List OrderRow)
      → select (has_key (λ r. r.order_id_hash) (sha256 input.order_id)) rs ≡ none
      → insert_allowed sha256 input rs ≡ true
      → IsTable rs
      → IsTable (rs ++ new_row sha256 input now ∷ [])
  unfolding insert_allowed
  IsTable-add input now rs fresh allowed t =
      let row = new_row sha256 input now in
      record {
        rows =
            All-append IsRow rs (row ∷ []) t.rows
              (record { positive = ground arith; contents = (refl, refl, refl) }, tt);
        orders = Pairs-append _ rs row t.orders (absent-Differ _ _ row rs refl fresh);
        writers = Pairs-append _ rs row t.writers (
            absent-Differ (λ r. r.write_hash) (sha256 input.write_capability) row rs refl
              (not_some _ (ground arith)));
        readers = Pairs-append _ rs row t.readers (
            absent-Differ (λ r. r.read_hash) (sha256 input.read_capability) row rs refl
              (not_some _ (ground arith)));
      }
    where
      not_some : (o : Option OrderRow) → is_some o ≡ false → o ≡ none
      not_some none h = refl
      not_some (some r) h = cc

  Change-IsTable :
      {now : ℕ} {rs rs' : List OrderRow} → Change sha256 now rs rs' → IsTable rs → IsTable rs'
  Change-IsTable same t = t
  Change-IsTable {rs} (expire row due) t = IsTable-expire (is_open_order row) rs t
  Change-IsTable {now} {rs} (store hash payload row found d s g fits) t =
      IsTable-update (is_vacant sha256 hash) (deliver_into sha256 payload now) rs (λ r. refl)
        (λ r. refl) (λ r. refl) t
        (All-update_key (λ r. r.write_hash) hash (is_vacant sha256 hash)
          (deliver_into sha256 payload now) IsRow rs row t.writers
          (λ r q. ground (arith, eq_iff r.write_hash hash)) found
          (λ q h. deliver_into-IsRow payload now row (fits_order-Pays payload row fits) h) t.rows)
  Change-IsTable {now} {rs} (collect hash) t =
      IsTable-update (is_held hash) (acknowledge_row now) rs (λ r. refl) (λ r. refl) (λ r. refl) t
        (All-update IsRow (is_held hash) (acknowledge_row now) (acknowledge_row-IsRow hash now) rs
          t.rows)
  Change-IsTable {now} {rs} (withdraw hash) t =
      IsTable-update (is_cancellable hash) (cancel_row now) rs (λ r. refl) (λ r. refl) (λ r. refl) t
        (All-update IsRow (is_cancellable hash) (cancel_row now) (cancel_row-IsRow hash now) rs
          t.rows)
  Change-IsTable {now} {rs} (add input fresh allowed) t = IsTable-add input now rs fresh allowed t

  cleanup-IsTable :
      (retention now : ℕ) (rs : List OrderRow) → IsTable rs → IsTable (cleanup retention now rs).1
  unfolding cleanup sweep
  cleanup-IsTable retention now rs t =
      let due = update (is_due now) mark_expired rs in
      let swept = update (is_stale now retention) mark_expired due in
      let u = IsTable-expire (is_stale now retention) due (IsTable-expire (is_due now) rs t) in
      record {
        rows = All-delete IsRow (is_disposable now retention) swept u.rows;
        orders = Pairs-delete _ (is_disposable now retention) swept u.orders;
        writers = Pairs-delete _ (is_disposable now retention) swept u.writers;
        readers = Pairs-delete _ (is_disposable now retention) swept u.readers;
      }

  pub run-IsTable :
      (c : Command) (now : ℕ) (rs : List OrderRow) → IsTable rs → IsTable (run sha256 c now rs)
  unfolding run
  run-IsTable (registering input) now rs t = Change-IsTable (register-Change sha256 now rs input) t
  run-IsTable (delivering w payload) now rs t =
      Change-IsTable (deliver-Change sha256 w payload now rs) t
  run-IsTable (reading r) now rs t = Change-IsTable (read-Change sha256 now rs r) t
  run-IsTable (acknowledging r) now rs t = Change-IsTable (acknowledge-Change sha256 now rs r) t
  run-IsTable (cancelling r) now rs t = Change-IsTable (cancel-Change sha256 now rs r) t
  run-IsTable (cleaning retention) now rs t = cleanup-IsTable retention now rs t

  -- From a table whose rows are well formed and whose keys are unique, every history of calls of
  -- the store, at any readings of the clock, leads to such a table: a row is then delivered
  -- exactly while it waits to be collected, its payload pays its order in full and has the digest
  -- on record, and no other row holds a payload.
  pub run_all-IsTable :
      (cs : List (ℕ × Command)) (rs : List OrderRow) → IsTable rs → IsTable (run_all sha256 cs rs)
  unfolding run_all
  run_all-IsTable [] rs t = t
  run_all-IsTable ((now, c) ∷ cs) rs t =
      run_all-IsTable cs (run sha256 c now rs) (run-IsTable c now rs t)
