-- ===== src/Faucet/Store/Reserving.antt =====
-- How `reserve` ends: it refuses, finds the claim on record, or adds it within every limit.
use text.Mathlib.TextPositions.{eq_refl}
use fibernuts.Common.{
  ℕ, ◌<◌, true, false, none, some, List, [], ◌∷◌, ◌++◌, ◌≡◌, ◌∙◌, arith, leb, Bool-cases,
  Option-cases, inl, inr, Result, ok, err, HttpError,
}
use fibernuts.Table.{select, count}
use fibernuts.Table.Rows.{select-append}
use fibernuts.Faucet.Store.{
  ClaimRecord, ReserveClaim, Reservation, is_quote, is_recent, latest, created_today, network_today,
  new_claim, insert_allowed, insert_claim, find, reserve, reserve_found, commit,
}

-- The conditions under which a claim is added.
pub record Granted (input : ReserveClaim) (now : ℕ) (rs : List ClaimRecord) : Type 0 where
  pub fresh : find input.quote_hash rs ≡ none
  pub rested : latest (is_recent input.client_hash input.cooldown_seconds now) rs ≡ none
  pub network : count (network_today input.network_hash now) rs < input.network_daily_limit
  pub daily : count (created_today now) rs < input.daily_limit
  pub allowed : insert_allowed input rs ≡ true

pub data Reserving (input : ReserveClaim) (now : ℕ) (rs : List ClaimRecord)
    : Result Reservation × List ClaimRecord → Type 0 where
  refused : (e : HttpError) → Reserving input now rs (err e, rs)
  on_record :
      (claim : ClaimRecord)
      → find input.quote_hash rs ≡ some claim
      → Reserving input now rs (ok (record { claim = claim; created = false }), rs)
  granted :
      Granted input now rs
      → Reserving input now rs (
        ok (record { claim = new_claim input now; created = true }),
        rs ++ new_claim input now ∷ [],
      )

-- The new row is the one that its quote hash finds.
pub find-new_claim :
    (input : ReserveClaim) (now : ℕ) (rs : List ClaimRecord)
    → find input.quote_hash rs ≡ none
    → find input.quote_hash (rs ++ new_claim input now ∷ []) ≡ some (new_claim input now)
unfolding find
find-new_claim input now rs fresh =
    select-append (is_quote input.quote_hash) rs (new_claim input now) ∙ rw (fresh, eq_refl)

module _ (input : ReserveClaim) (now : ℕ) (rs : List ClaimRecord) where
  insert-Reserving :
      find input.quote_hash rs ≡ none
      → latest (is_recent input.client_hash input.cooldown_seconds now) rs ≡ none
      → count (network_today input.network_hash now) rs < input.network_daily_limit
      → count (created_today now) rs < input.daily_limit
      → Reserving input now rs (commit rs (insert_claim input now rs))
  unfolding insert_claim
  insert-Reserving fresh rested network daily = elim (Bool-cases (insert_allowed input rs)) [
    | inl allowed ↦
        rw (allowed, find-new_claim input now rs fresh)
          (granted (record {
            fresh = fresh;
            rested = rested;
            network = network;
            daily = daily;
            allowed = allowed;
          }))
    | inr taken ↦ rw taken (refused _)
  ]

  limits-Reserving :
      find input.quote_hash rs ≡ none
      → latest (is_recent input.client_hash input.cooldown_seconds now) rs ≡ none
      → Reserving input now rs (commit rs (reserve_found input now rs none))
  unfolding reserve_found
  limits-Reserving fresh rested =
      rw rested
        (elim (Bool-cases
          (leb input.network_daily_limit (count (network_today input.network_hash now) rs))) [
            | inl full ↦ rw full (refused _)
            | inr room ↦
                rw room (elim (Bool-cases (leb input.daily_limit (count (created_today now) rs))) [
                  | inl spent ↦ rw spent (refused _)
                  | inr left ↦ rw left (insert-Reserving fresh rested (ground arith) (ground arith))
                ])
          ])

  -- A reservation ends in one of three ways: it fails and leaves the table as it was; it finds
  -- the claim that is on record for the quote, and changes nothing; or it adds one new claim, and
  -- then only if the browser has rested, the network and the day are below their limits, and the
  -- quote and the payment are new.
  pub reserve-Reserving : Reserving input now rs (reserve input now rs)
  unfolding reserve find
  reserve-Reserving = elim (Option-cases (select (is_quote input.quote_hash) rs)) [
    | inr (claim, e) ↦ rw e (on_record claim e)
    | inl fresh ↦
        elim (Option-cases (latest (is_recent input.client_hash input.cooldown_seconds now) rs)) [
          | inl rested ↦ rw fresh (limits-Reserving fresh rested)
          | inr (created_at, e) ↦ rw (fresh, e) (refused _)
        ]
  ]

-- A claim of a new quote and payment, by a browser that has rested, is reserved if the network
-- and the day are below their limits and its amount is positive.
pub reserve-Granted :
    (input : ReserveClaim) (now : ℕ) (rs : List ClaimRecord)
    → Granted input now rs
    → reserve input now rs ≡ (
      ok (record { claim = new_claim input now; created = true }),
      rs ++ new_claim input now ∷ [],
    )
unfolding reserve reserve_found insert_claim find
reserve-Granted input now rs g =
    let has_room : leb input.network_daily_limit (count (network_today input.network_hash now) rs)
        ≡ false =
      (let n = g.network in ground arith) in
    let has_budget : leb input.daily_limit (count (created_today now) rs) ≡ false =
      (let n = g.daily in ground arith) in
    rw (g.fresh, g.rested, has_room, has_budget, g.allowed, find-new_claim input now rs g.fresh)
