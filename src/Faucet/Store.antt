-- ===== src/Faucet/Store.antt =====
-- faucet/src/database.ts: the table `faucet_claims` and the methods of `FaucetStore`. A method takes
-- the clock's reading and the table, and returns its result and the new table.
pub mod Reserving
pub mod Limits
use fibernuts.Common.{
  ℕ, zero, suc, ◌+◌, ◌-◌, ◌<◌, String, Bool, true, false, not, Option, none, some, List, [], ◌∷◌,
  ◌++◌, leb, ltb, ◌==◌, str_eq, is_some, ◌&&◌, ◌||◌, max, if◌then◌else◌, Result, ok, err, fail,
  HttpError, throw_if, ◌>>=◌, ◌>>◌,
}
use fibernuts.Table.{select, update, count}
use fibernuts.Table.Keys.{has_key}
use fibernuts.Faucet.Protocol.{next_utc_day, start_of_utc_day}

pub data ClaimState : Type 0 where
  dispatching pending paid issued failed recoverable : ClaimState

-- A row of the table; `mapRow` only renames the columns.
pub record ClaimRecord : Type 0 where
  pub quote_hash : String
  pub quote_id : Option String
  pub invoice : Option String
  pub payment_hash : Option String
  pub quote_pubkey : Option String
  pub client_hash : Option String
  pub network_hash : Option String
  pub state : ClaimState
  pub amount : ℕ
  pub unit : String
  pub expiry : ℕ
  pub attempt_count : ℕ
  pub attempted_at : Option ℕ
  pub created_at : ℕ
  pub updated_at : ℕ
  pub failure_code : Option String

pub record ReserveClaim : Type 0 where
  pub quote_hash : String
  pub quote_id : String
  pub invoice : String
  pub payment_hash : String
  pub quote_pubkey : String
  pub client_hash : String
  pub network_hash : String
  pub amount : ℕ
  pub unit : String
  pub expiry : ℕ
  pub cooldown_seconds : ℕ
  pub network_daily_limit : ℕ
  pub daily_limit : ℕ

pub record FaucetStats : Type 0 where
  pub claims_total : ℕ
  pub claims_today : ℕ
  pub paid_total : ℕ
  pub issued_total : ℕ

pub record Reservation : Type 0 where
  pub claim : ClaimRecord
  pub created : Bool

-- A nullable column equals a text.
abbrev pub column_is : Option String → String → Bool
column_is none s = false
column_is (some t) s = str_eq t s

abbrev pub is_quote : String → ClaimRecord → Bool
is_quote hash r = has_key (λ (r : ClaimRecord). r.quote_hash) hash r

unfoldable pub find : String → List ClaimRecord → Option ClaimRecord
find quote_hash rs = select (is_quote quote_hash) rs

-- `client_hash = ? AND created_at > now - cooldown`, without the subtraction.
abbrev pub is_recent : String → ℕ → ℕ → ClaimRecord → Bool
is_recent client cooldown now r =
    column_is r.client_hash client && ltb now (r.created_at + cooldown)

-- `SELECT created_at … ORDER BY created_at DESC LIMIT 1`.
abbrev later : ℕ → Option ℕ → Option ℕ
later t none = some t
later t (some u) = some (max t u)

unfoldable pub latest : (ClaimRecord → Bool) → List ClaimRecord → Option ℕ
latest p [] = none
latest p (r ∷ rs) = let rest = latest p rs in if p r then later r.created_at rest else rest

abbrev pub created_today : ℕ → ClaimRecord → Bool
created_today now r = leb (start_of_utc_day now) r.created_at

abbrev pub network_today : String → ℕ → ClaimRecord → Bool
network_today network now r = column_is r.network_hash network && created_today now r

abbrev pub retry_later {ℓ} : {A : Type ℓ} → String → ℕ → Result A
retry_later code seconds =
    err (record { status = 429; code = code; retry_after_seconds = some seconds })

abbrev pub cooldown_check : Option ℕ → ℕ → ℕ → Result (Unit {0})
cooldown_check none cooldown now = ok tt
cooldown_check (some created_at) cooldown now =
    retry_later "claim_cooldown" (max 1 (created_at + cooldown - now))

abbrev pub limit_check : ℕ → ℕ → String → ℕ → Result (Unit {0})
limit_check used limit code now =
    if leb limit used then retry_later code (next_utc_day now - now) else ok tt

abbrev pub new_claim : ReserveClaim → ℕ → ClaimRecord
new_claim input now = record {
  quote_hash = input.quote_hash;
  quote_id = some input.quote_id;
  invoice = some input.invoice;
  payment_hash = some input.payment_hash;
  quote_pubkey = some input.quote_pubkey;
  client_hash = some input.client_hash;
  network_hash = some input.network_hash;
  state = dispatching;
  amount = input.amount;
  unit = input.unit;
  expiry = input.expiry;
  attempt_count = 0;
  attempted_at = none;
  created_at = now;
  updated_at = now;
  failure_code = none;
}

-- The constraints of the INSERT that can fail: a unique payment hash and a positive amount.
unfoldable pub insert_allowed : ReserveClaim → List ClaimRecord → Bool
insert_allowed input rs =
    not (is_some (select (λ r. column_is r.payment_hash input.payment_hash) rs))
    && ltb 0 input.amount

-- The INSERT and the read of the new row; a failure of either is a conflict.
abbrev inserted : Option ClaimRecord → List ClaimRecord → Result (Reservation × List ClaimRecord)
inserted none rs = fail 409 "claim_conflict"
inserted (some claim) rs = ok (record { claim = claim; created = true }, rs)

unfoldable pub insert_claim :
    ReserveClaim → ℕ → List ClaimRecord → Result (Reservation × List ClaimRecord)
insert_claim input now rs =
    let rs' = rs ++ new_claim input now ∷ [] in
    if insert_allowed input rs
    then inserted (find input.quote_hash rs') rs'
    else fail 409 "claim_conflict"

reserve_found :
    ReserveClaim
    → ℕ
    → List ClaimRecord
    → Option ClaimRecord
    → Result (Reservation × List ClaimRecord)
reserve_found input now rs (some existing) = ok (record { claim = existing; created = false }, rs)
reserve_found input now rs none = do
  cooldown_check (latest (is_recent input.client_hash input.cooldown_seconds now) rs)
      input.cooldown_seconds now
  limit_check (count (network_today input.network_hash now) rs) input.network_daily_limit
      "network_limit" now
  limit_check (count (created_today now) rs) input.daily_limit "daily_limit" now
  insert_claim input now rs

-- COMMIT, or ROLLBACK on any failure.
abbrev pub commit {ℓ} :
    {A : Type ℓ} → List ClaimRecord → Result (A × List ClaimRecord) → Result A × List ClaimRecord
commit before (ok (a, after)) = (ok a, after)
commit before (err e) = (err e, before)

unfoldable pub reserve : ReserveClaim → ℕ → List ClaimRecord → Result Reservation × List ClaimRecord
unfolding reserve_found
reserve input now rs =
    commit rs (reserve_found input now rs (select (is_quote input.quote_hash) rs))

-- `require`: a missing row is a plain `Error`, which the server answers with 500.
abbrev pub required : Option ClaimRecord → Result ClaimRecord
required none = fail 500 "internal_error"
required (some r) = ok r

abbrev pub attempt_row : ℕ → ClaimRecord → ClaimRecord
attempt_row now r = record r {
  state = dispatching;
  attempt_count = r.attempt_count + 1;
  attempted_at = some now;
  updated_at = now;
  failure_code = none;
}

unfoldable pub mark_attempt : String → ℕ → List ClaimRecord → Result ClaimRecord × List ClaimRecord
mark_attempt quote_hash now rs =
    let rs' = update (is_quote quote_hash) (attempt_row now) rs in
    (required (find quote_hash rs'), rs')

abbrev pub transition_row : ClaimState → Option String → ℕ → ClaimRecord → ClaimRecord
transition_row state code now r = record r { state = state; updated_at = now; failure_code = code }

unfoldable pub transition :
    String
    → ClaimState
    → Option String
    → ℕ
    → List ClaimRecord
    → Result ClaimRecord × List ClaimRecord
transition quote_hash state code now rs =
    let rs' = update (is_quote quote_hash) (transition_row state code now) rs in
    (required (find quote_hash rs'), rs')

abbrev pub is_unsettled : ClaimState → Bool
is_unsettled dispatching = true
is_unsettled pending = true
is_unsettled recoverable = true
is_unsettled _ = false

-- `COALESCE(failure_code, '') NOT IN (…)`.
abbrev pub needs_review : Option String → Bool
needs_review none = false
needs_review (some code) =
    str_eq code "manual_review_required"
    || str_eq code "payment_hash_mismatch"
    || str_eq code "missing_dispatch_data"
    || str_eq code "missing_payment_hash"
    || str_eq code "quote_changed"

abbrev pub is_open_claim : ClaimRecord → Bool
is_open_claim r = is_unsettled r.state && is_some r.quote_id && not (needs_review r.failure_code)

-- `ORDER BY updated_at ASC`, rows of the same second in the table's order.
unfoldable pub insert_by_update : ClaimRecord → List ClaimRecord → List ClaimRecord
insert_by_update r [] = r ∷ []
insert_by_update r (x ∷ xs) =
    if leb r.updated_at x.updated_at then r ∷ x ∷ xs else x ∷ insert_by_update r xs

unfoldable pub open_sorted : List ClaimRecord → List ClaimRecord
open_sorted [] = []
open_sorted (r ∷ rs) =
    let rest = open_sorted rs in if is_open_claim r then insert_by_update r rest else rest

unfoldable pub first_rows : ℕ → List ClaimRecord → List ClaimRecord
first_rows zero rs = []
first_rows (suc n) [] = []
first_rows (suc n) (r ∷ rs) = r ∷ first_rows n rs

unfoldable pub open_claims : ℕ → List ClaimRecord → List ClaimRecord
open_claims limit rs = first_rows limit (open_sorted rs)

abbrev pub is_paid : ClaimState → Bool
is_paid paid = true
is_paid issued = true
is_paid _ = false

abbrev pub is_issued : ClaimState → Bool
is_issued issued = true
is_issued _ = false

unfoldable pub stats : ℕ → List ClaimRecord → FaucetStats
stats now rs = record {
  claims_total = count (λ r. true) rs;
  claims_today = count (created_today now) rs;
  paid_total = count (λ r. is_paid r.state) rs;
  issued_total = count (λ r. is_issued r.state) rs;
}

abbrev pub scrubbed_state : ClaimState → ClaimState
scrubbed_state dispatching = recoverable
scrubbed_state pending = recoverable
scrubbed_state s = s

abbrev pub scrub_row : ClaimRecord → ClaimRecord
scrub_row r = record r {
  quote_id = none;
  invoice = none;
  payment_hash = none;
  quote_pubkey = none;
  client_hash = none;
  network_hash = none;
  state = scrubbed_state r.state;
}

abbrev pub is_scrubbable : ℕ → ℕ → ClaimRecord → Bool
is_scrubbable retention now r =
    leb (r.updated_at + retention) now
    && (is_some r.quote_id
        || is_some r.invoice
        || is_some r.payment_hash
        || is_some r.quote_pubkey
        || is_some r.client_hash
        || is_some r.network_hash)

-- `scrub`: the number of changed rows, and the table.
unfoldable pub scrub : ℕ → ℕ → List ClaimRecord → ℕ × List ClaimRecord
scrub retention now rs =
    (count (is_scrubbable retention now) rs, update (is_scrubbable retention now) scrub_row rs)
