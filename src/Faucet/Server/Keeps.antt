-- ===== src/Faucet/Server/Keeps.antt =====
-- What every request to the faucet keeps.
use fibernuts.Common.{
  ℕ, String, Bool, true, false, not, List, [], ◌∷◌, str_eq, if◌then◌else◌, Bool-cases, inl, inr,
  ◌&&◌, Result, ok, err, ◌>>=◌,
}
use fibernuts.Http.{Request, read_json, origin_allowed}
use fibernuts.Http.Rate.{RateEntry}
use fibernuts.Js.Table.{Table}
use fibernuts.Faucet.Protocol.{ClaimRequest, parse_claim_request}
use fibernuts.Faucet.Store.Limits.{WithinLimits}
use fibernuts.Faucet.Upstream.{Ports}
use fibernuts.Faucet.Service.{FaucetConfig, Clock, Context, World}
use fibernuts.Faucet.Service.Claims.{claim_alone}
use fibernuts.Faucet.Service.Attempts.{
  Accounted, claim_exclusive-Accounted, claim_exclusive-WithinLimits,
}
use fibernuts.Faucet.Server.{ServerConfig, State, Reply, route, claim_input, after_admit, handle}

-- Every payment that was sent is on record with its claim, two for a claim at most, and the claims
-- are within the limits of the configuration.
pub record Sound (config : FaucetConfig) (w : World) : Type 0 where
  pub accounted : Accounted w
  pub limits :
      WithinLimits config.client_cooldown_seconds config.network_daily_claim_limit
        config.daily_claim_limit w.claims

module _ (c : Context) (hmac : String → String → String) (config : ServerConfig) where
  claim_input-Sound :
      (r : Result ClaimRequest) (address : String) (w : World)
      → Sound c.config w
      → Sound c.config (claim_input c hmac config r address w).1
  unfolding claim_alone
  claim_input-Sound (err e) address w s = s
  claim_input-Sound (ok input) address w s = record {
    accounted = claim_exclusive-Accounted c _ _ _ _ w s.accounted;
    limits = claim_exclusive-WithinLimits c _ _ _ _ w s.limits;
  }

  route-Sound :
      (request : Request) (now : ℕ) (address : String) (w : World)
      → Sound c.config w
      → Sound c.config (route c hmac config request now address w).1
  unfolding route
  route-Sound request now address w s = either (not (str_eq request.search "")) _ _ s (
      either (is_get request && str_eq request.pathname "/healthz") _ _ s (
        either (is_get request && str_eq request.pathname "/v1/config") _ _ s (
          either (is_get request && str_eq request.pathname "/v1/stats") _ _ s (
            either (str_eq request.method "POST" && str_eq request.pathname "/v1/claims") _ _
              (claim_input-Sound (read_json request config.body_limit_bytes >>= parse_claim_request)
                address w s)
              s))))
    where
      is_get : Request → Bool
      is_get request = str_eq request.method "GET"

      either :
          (b : Bool) (x y : Reply)
          → Sound c.config x.1
          → Sound c.config y.1
          → Sound c.config (if b then x else y).1
      either true x y p q = p
      either false x y p q = q

  after_admit-Sound :
      (request : Request) (now : ℕ) (address : String) (w : World)
      (x : Table RateEntry × Result (Unit {0}))
      → Sound c.config w
      → Sound c.config (after_admit c hmac config request now address w x).1.world
  after_admit-Sound request now address w (rate, err e) s = s
  after_admit-Sound request now address w (rate, ok u) s = route-Sound request now address w s

  handle-Sound :
      (request : Request) (now : ℕ) (s : State)
      → Sound c.config s.world
      → Sound c.config (handle c hmac config request now s).1.world
  unfolding handle
  handle-Sound request now s h =
      elim (Bool-cases (origin_allowed config.allowed_origins request.origin)) [
        | inr forbidden ↦ rw forbidden h
        | inl allowed ↦ rw allowed (elim (Bool-cases (str_eq request.method "OPTIONS")) [
          | inl options ↦ rw options h
          | inr call ↦ rw call (after_admit-Sound request now _ s.world _ h)
        ])
      ]

-- A request as it comes: with what the ports answer during it, the readings of the clock, and the
-- second in which it is counted.
pub record Arrival : Type 0 where
  pub request : Request
  pub ports : Ports
  pub clock : Clock
  pub now : ℕ

module _ (service : FaucetConfig) (hmac : String → String → String) (config : ServerConfig) where
  abbrev context_of : Arrival → Context
  context_of a = record { config = service; ports = a.ports; clock = a.clock }

  -- The state of the server after some requests.
  unfoldable pub serve : List Arrival → State → State
  serve [] s = s
  serve (a ∷ arrivals) s = serve arrivals (handle (context_of a) hmac config a.request a.now s).1

  -- If the table of claims is within the limits of the configuration, and has on record how many
  -- payments were sent for each claim, two at most, then this still holds after any requests,
  -- whatever the mint and the Fiber node answer and whatever the clock says.
  pub serve-Sound :
      (arrivals : List Arrival) (s : State)
      → Sound service s.world
      → Sound service (serve arrivals s).world
  unfolding serve
  serve-Sound [] s h = h
  serve-Sound (a ∷ arrivals) s h =
      serve-Sound arrivals (handle (context_of a) hmac config a.request a.now s).1
        (handle-Sound (context_of a) hmac config a.request a.now s h)
