-- ===== src/Relay/Server/Limits.antt =====
-- The rate limit of the relay, and who is shown a payload.
use fibernuts.Common.{
  ℕ, ◌+◌, ◌-◌, ◌≤◌, String, Bool, not, Option, List, [], ◌∷◌, ◌≡◌, arith, ltb, str_eq, eq_iff,
  if◌then◌else◌, Bool-cases, inl, inr, ◌&&◌,
}
use fibernuts.Js.Table.{Table}
use fibernuts.Http.{Request}
use fibernuts.Http.Rate.{RateEntry, count_request}
use fibernuts.Http.Rate.Bounds.{seen, next_count-eq-seen, seen-count_request, seen-forget_before}
use fibernuts.Js.Url.{Url}
use fibernuts.Relay.Server.{RelayConfig, limited, rate_key}

module _ (sha256 : String → String) (new_url : String → Option Url) (config : RelayConfig) where
  abbrev limit : Request → ℕ → Table RateEntry → Table RateEntry × Bool
  limit = limited sha256 new_url config

  abbrev key_of : Request → ℕ → String
  key_of = rate_key sha256 new_url config

  limited_passes :
      (request : Request) (minute : ℕ) (rate : Table RateEntry)
      → (limit request minute rate).1
        ≡ not (ltb config.max_requests_per_minute (seen minute (key_of request minute) rate + 1))
  unfolding limited
  limited_passes request minute rate =
      rw (next_count-eq-seen minute (key_of request minute) rate) (ground arith)

  limited_counts :
      (request : Request) (minute : ℕ) (key : String) (rate : Table RateEntry)
      → (if str_eq (key_of request minute) key
          then seen minute key rate + 1
          else seen minute key rate)
        ≤ seen minute key (limit request minute rate).0
  unfolding limited
  limited_counts request minute key rate = ground (
    arith,
    seen-count_request minute (key_of request minute) key rate,
    seen-forget_before minute key (count_request minute (key_of request minute) rate),
  )

  -- The requests of one key that pass, among requests of one minute.
  pub passed : ℕ → String → List Request → Table RateEntry → ℕ
  passed minute key [] rate = 0
  passed minute key (request ∷ requests) rate =
      let (rate', passes) = limit request minute rate in
      (if passes && str_eq (key_of request minute) key then 1 else 0)
      + passed minute key requests rate'

  -- Within a minute a client passes at most as often as the limit says, less what it has used.
  pub passed-le-limit :
      (minute : ℕ) (key : String) (requests : List Request) (rate : Table RateEntry)
      → passed minute key requests rate ≤ config.max_requests_per_minute - seen minute key rate
  unfolding passed
  passed-le-limit minute key [] rate = omega arith
  passed-le-limit minute key (request ∷ requests) rate =
      let rest = passed-le-limit minute key requests (limit request minute rate).0 in
      let counts = limited_counts request minute key rate in
      elim (Bool-cases (str_eq (key_of request minute) key)) [
        | inl same ↦
            let is_key = (eq_iff (key_of request minute) key).0 same in
            ground (arith, limited_passes request minute rate)
        | inr other ↦ ground arith
      ]
