-- ===== src/Faucet/Server.antt =====
-- faucet/src/server.ts: one request of the faucet, from its headers to the reply.
pub mod Limits
pub mod Keeps
use fibernuts.Common.{
  List, ◌/◌, ℕ, ◌+◌, ◌-◌, String, Bool, true, false, not, Option, none, some, is_some, ltb, leb,
  str_eq, ◌&&◌, if◌then◌else◌, Result, ok, err, fail, HttpError, throw_if, ◌>>=◌, ◌>>◌, length,
}
use fibernuts.Js.{Value}
use fibernuts.Js.Table.{Table, get}
use fibernuts.Js.Text.{trim, before_comma, utf16_length}
use fibernuts.Http.{Request, or_default, read_json, origin_allowed, echoed}
use fibernuts.Http.Rate.{RateEntry, next_count, count_request, forget_before}
use fibernuts.Faucet.Protocol.{ClaimRequest, parse_claim_request, identifier_hash}
use fibernuts.Faucet.Store.{FaucetStats, stats}
use fibernuts.Faucet.Service.{
  Context, World, Answer, ClaimResult, PublicClaimStatus, paying, unclear,
}
use fibernuts.Faucet.Service.Claims.{claim_alone}

pub record ServerConfig : Type 0 where
  pub allowed_origins : List String
  pub trust_proxy : Bool
  pub max_requests_per_minute : ℕ
  pub body_limit_bytes : ℕ
  pub identifier_secret : String
  pub mint_url : String

pub record PublicFaucetConfig : Type 0 where
  pub enabled : Bool
  pub amount : ℕ
  pub mint : String
  pub cooldown_seconds : ℕ
  pub remaining_today : ℕ

-- What a reply's body says.
pub data Body : Type 0 where
  empty health : Body
  public_config : PublicFaucetConfig → Body
  public_stats : FaucetStats → Body
  claim : ClaimResult → Body
  failure : HttpError → Body

pub record Response : Type 0 where
  pub status : ℕ
  pub allow_origin : Option String
  pub body : Body

pub record State : Type 0 where
  pub rate : Table RateEntry
  pub world : World

-- The first address of the header `X-Forwarded-For`, if it is no longer than 128.
abbrev usable : String → Option String
usable first = if not (str_eq first "") && leb (utf16_length first) 128 then some first else none

abbrev forwarded_address : Option String → Option String
forwarded_address none = none
forwarded_address (some forwarded) = usable (trim (before_comma forwarded))

unfoldable pub remote_address : Request → Bool → String
remote_address request false = or_default "unknown" request.remote_address
remote_address request true =
    or_default (or_default "unknown" request.remote_address)
      (forwarded_address request.forwarded_for)

abbrev rate_limited : Result (Unit {0})
rate_limited = err (record { status = 429; code = "rate_limited"; retry_after_seconds = some 60 })

-- The count of a request whose key has a place in the table.
abbrev counted : ℕ → ℕ → String → Table RateEntry → Table RateEntry × Result (Unit {0})
counted limit minute key rate = (
  count_request minute key rate,
  if ltb limit (next_count minute (get key rate)) then rate_limited else ok tt,
)

-- The rate table after a request, and whether the request is refused: a new key needs a place among
-- ten thousand, for which the entries of earlier minutes make room.
unfoldable pub admit : ℕ → ℕ → String → Table RateEntry → Table RateEntry × Result (Unit {0})
admit limit minute key rate =
    let trimmed = forget_before minute rate in
    if not (is_some (get key rate)) && leb 10_000 (length rate)
    then (if leb 10_000 (length trimmed)
        then (trimmed, rate_limited)
        else counted limit minute key trimmed)
    else counted limit minute key rate

abbrev claim_code : PublicClaimStatus → ℕ
claim_code paying = 202
claim_code unclear = 202
claim_code _ = 200

abbrev claim_reply : Result ClaimResult → Result (ℕ × Body)
claim_reply (ok r) = ok (claim_code r.status, claim r)
claim_reply (err e) = err e

abbrev pub Reply : Type 0
Reply = Result (ℕ × Body) × World

module _ (c : Context) (hmac : String → String → String) (config : ServerConfig) where
  -- `publicConfig`; the store reads the clock once.
  unfoldable pub config_view : ℕ → World → PublicFaucetConfig
  config_view now w =
      let claims_today = (stats now w.claims).claims_today in
      record {
        enabled = c.config.enabled && ltb claims_today c.config.daily_claim_limit;
        amount = c.config.amount;
        mint = config.mint_url;
        cooldown_seconds = c.config.client_cooldown_seconds;
        remaining_today = c.config.daily_claim_limit - claims_today;
      }

  abbrev claim_answer : Answer → Reply
  claim_answer (r, w) = (claim_reply r, w)

  abbrev pub claim_input : Result ClaimRequest → String → World → Reply
  claim_input (err e) address w = (err e, w)
  claim_input (ok input) address w = claim_answer (
      claim_alone c hmac config.identifier_secret
        (record { quote_id = input.quote_id; client_id = input.client_id; network_id = address }) w)

  abbrev is_get : Request → Bool
  is_get request = str_eq request.method "GET"

  unfoldable pub route : Request → ℕ → String → World → Reply
  route request now address w =
      if not (str_eq request.search "")
      then (fail 400 "query_forbidden", w)
      else if is_get request && str_eq request.pathname "/healthz"
      then (ok (200, health), w)
      else if is_get request && str_eq request.pathname "/v1/config"
      then (ok (200, public_config (config_view now w)), w)
      else if is_get request && str_eq request.pathname "/v1/stats"
      then (ok (200, public_stats (stats now w.claims)), w)
      else if str_eq request.method "POST" && str_eq request.pathname "/v1/claims"
      then claim_input (read_json request config.body_limit_bytes >>= parse_claim_request) address w
      else (fail 404 "not_found", w)

  abbrev respond : Option String → Result (ℕ × Body) → Response
  respond origin (ok (status, body)) = record {
    status = status;
    allow_origin = origin;
    body = body;
  }
  respond origin (err e) = record { status = e.status; allow_origin = origin; body = failure e }

  abbrev pub after_admit :
      Request → ℕ → String → World → Table RateEntry × Result (Unit {0}) → Response × State
  after_admit request now address w (rate, err e) =
      (respond (echoed request.origin) (err e), record { rate = rate; world = w })
  after_admit request now address w (rate, ok u) =
      let (result, w') = route request now address w in
      (respond (echoed request.origin) result, record { rate = rate; world = w' })

  abbrev pub address_of : Request → String
  address_of request = remote_address request config.trust_proxy

  unfoldable pub handle : Request → ℕ → State → Response × State
  handle request now s =
      if not (origin_allowed config.allowed_origins request.origin)
      then (respond none (fail 403 "origin_forbidden"), s)
      else if str_eq request.method "OPTIONS"
      then (record { status = 204; allow_origin = echoed request.origin; body = empty }, s)
      else after_admit request now (address_of request) s.world (
          admit config.max_requests_per_minute (now / 60)
            (identifier_hash hmac config.identifier_secret "rate" (address_of request)) s.rate)
