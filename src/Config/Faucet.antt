-- ===== src/Config/Faucet.antt =====
-- `loadConfig` of faucet/src/config.ts.
use fibernuts.Common.{
  ok, ◌>>=◌, ◌>>◌, throw_when, ℕ, ◌≤◌, ◌<◌, ◌≡◌, String, true, false, not, Option, ◌==◌, ltb, ◌&&◌,
  length, arith,
}
use fibernuts.Js.{Number}
use fibernuts.Js.Text.{split_commas, matches, is_hex}
use fibernuts.Js.Url.{Url}
use fibernuts.Config.{
  Loaded, no_origin, weak_secret, short_retention, or_fallback, integer, integer_bounds, flag,
  in_production, http_url, origins,
}
use fibernuts.Faucet.Upstream.{HashType}
use fibernuts.Faucet.Service.{FaucetConfig}
use fibernuts.Faucet.Server.{ServerConfig}

-- `FaucetConfig`, with what the service and the server take of it.
pub record FaucetSettings : Type 0 where
  pub host : String
  pub port : ℕ
  pub database_path : String
  pub public_origin : String
  pub mint_api_url : String
  pub fiber_rpc_url : String
  pub service : FaucetConfig
  pub server : ServerConfig
  pub max_fee_base_units : ℕ
  pub max_fee_rate : ℕ
  pub reconciliation_interval_seconds : ℕ
  pub sensitive_retention_seconds : ℕ
  pub upstream_timeout_ms : ℕ

module _ (env : String → Option String) (to_number : String → Number)
    (new_url : String → Option Url) where
  unfoldable pub load_faucet_config : Loaded FaucetSettings
  load_faucet_config = do
    public_origin ←
        http_url new_url "FIBERNUTS_FAUCET_PUBLIC_ORIGIN" (in_production env to_number)
          (or_fallback "http://127.0.0.1:8091" (env "FIBERNUTS_FAUCET_PUBLIC_ORIGIN"))
    mint_url ←
        http_url new_url "FIBERNUTS_FAUCET_MINT_URL" (in_production env to_number)
          (or_fallback "http://127.0.0.1:8085" (env "FIBERNUTS_FAUCET_MINT_URL"))
    mint_api_url ←
        http_url new_url "FIBERNUTS_FAUCET_MINT_API_URL" false
          (or_fallback mint_url (env "FIBERNUTS_FAUCET_MINT_API_URL"))
    fiber_rpc_url ←
        http_url new_url "FIBERNUTS_FAUCET_FIBER_RPC" false
          (or_fallback "http://127.0.0.1:8227" (env "FIBERNUTS_FAUCET_FIBER_RPC"))
    allowed_origins ←
        origins new_url "FIBERNUTS_FAUCET_ALLOWED_ORIGINS" (in_production env to_number) (
          split_commas
            (or_fallback "http://127.0.0.1:5175" (env "FIBERNUTS_FAUCET_ALLOWED_ORIGINS")))
    throw_when (length allowed_origins == 0) no_origin
    throw_when
        (in_production env to_number
          && not (
              matches is_hex 64 64 (
                or_fallback "local-faucet-identifier-secret-change-me"
                  (env "FIBERNUTS_FAUCET_IDENTIFIER_SECRET"))))
        weak_secret
    client_cooldown ←
        integer env to_number "FIBERNUTS_FAUCET_CLIENT_COOLDOWN_SECONDS" 86_400 60 2_592_000
    retention ←
        integer env to_number "FIBERNUTS_FAUCET_SENSITIVE_RETENTION_SECONDS" 604_800 3600 2_592_000
    throw_when (ltb retention client_cooldown) short_retention
    port ← integer env to_number "FIBERNUTS_FAUCET_PORT" 8091 1 65_535
    enabled ← flag env to_number "FIBERNUTS_FAUCET_ENABLED" false
    amount ← integer env to_number "FIBERNUTS_FAUCET_AMOUNT" 1000 1 100_000
    unit_scale ← integer env to_number "FIBERNUTS_FAUCET_UNIT_SCALE" 1_000_000 1 1_000_000_000
    network_limit ← integer env to_number "FIBERNUTS_FAUCET_NETWORK_DAILY_CLAIM_LIMIT" 3 1 1000
    daily_limit ← integer env to_number "FIBERNUTS_FAUCET_DAILY_CLAIM_LIMIT" 25 1 100_000
    max_requests ← integer env to_number "FIBERNUTS_FAUCET_MAX_REQUESTS_PER_MINUTE" 120 10 10_000
    max_fee ← integer env to_number "FIBERNUTS_FAUCET_MAX_FEE_BASE_UNITS" 5_000_000 0 1_000_000_000
    max_fee_rate ← integer env to_number "FIBERNUTS_FAUCET_MAX_FEE_RATE" 5 0 1000
    recovery_delay ← integer env to_number "FIBERNUTS_FAUCET_RECOVERY_DELAY_SECONDS" 10 5 300
    interval ← integer env to_number "FIBERNUTS_FAUCET_RECONCILIATION_SECONDS" 10 5 300
    timeout ← integer env to_number "FIBERNUTS_FAUCET_UPSTREAM_TIMEOUT_MS" 10_000 1000 60_000
    trust_proxy ← flag env to_number "FIBERNUTS_FAUCET_TRUST_PROXY" false
    ok (record {
      host = or_fallback "127.0.0.1" (env "FIBERNUTS_FAUCET_HOST");
      port = port;
      database_path = or_fallback "./data/faucet.sqlite3" (env "FIBERNUTS_FAUCET_DATABASE");
      public_origin = public_origin;
      mint_api_url = mint_api_url;
      fiber_rpc_url = fiber_rpc_url;
      service = (record {
        enabled = enabled;
        amount = amount;
        unit = "rusd";
        unit_scale = unit_scale;
        invoice_currency = "Fibt";
        udt_script = (record {
          code_hash = "0x1142755a044bf2ee358cba9f2da187ce928c91cd4dc8692ded0337efa677d21a";
          hash_type = HashType.type_hash;
          args = "0x878fcc6f1f08d48e87bb1c3b3d5083f23f8a39c5d5c764f253b55b998526439b";
        });
        client_cooldown_seconds = client_cooldown;
        network_daily_claim_limit = network_limit;
        daily_claim_limit = daily_limit;
        recovery_delay_seconds = recovery_delay;
      });
      server = (record {
        allowed_origins = allowed_origins;
        trust_proxy = trust_proxy;
        max_requests_per_minute = max_requests;
        body_limit_bytes = 4096;
        identifier_secret =
            or_fallback "local-faucet-identifier-secret-change-me"
              (env "FIBERNUTS_FAUCET_IDENTIFIER_SECRET");
        mint_url = mint_url;
      });
      max_fee_base_units = max_fee;
      max_fee_rate = max_fee_rate;
      reconciliation_interval_seconds = interval;
      sensitive_retention_seconds = retention;
      upstream_timeout_ms = timeout;
    })

  -- What the service relies on in a loaded configuration.
  pub record IsFaucetSettings (s : FaucetSettings) : Type 0 where
    pub amount : (1 ≤ s.service.amount) × (s.service.amount ≤ 100_000)
    pub scale : (1 ≤ s.service.unit_scale) × (s.service.unit_scale ≤ 1_000_000_000)
    pub daily : 1 ≤ s.service.daily_claim_limit
    pub network : 1 ≤ s.service.network_daily_claim_limit
    pub cooldown :
        (60 ≤ s.service.client_cooldown_seconds)
        × (s.service.client_cooldown_seconds ≤ s.sensitive_retention_seconds)
    pub delay : 5 ≤ s.service.recovery_delay_seconds
    pub requests : s.server.max_requests_per_minute ≤ 10_000
    pub origins : 0 < length s.server.allowed_origins
    pub secret :
        in_production env to_number ≡ true → matches is_hex 64 64 s.server.identifier_secret ≡ true

  -- A configuration that the faucet loads has an amount and a scale within their bounds, positive daily
  -- limits, a cooldown of a minute at least that is no longer than the retention of the columns it is
  -- checked against, a delay of five seconds at least before a payment is tried again, and at least one
  -- allowed origin, whatever the environment says; in production its secret is 64 hexadecimal digits.
  pub load_faucet_config-IsFaucetSettings :
      (s : FaucetSettings) → load_faucet_config ≡ ok s → IsFaucetSettings s
  unfolding load_faucet_config
  load_faucet_config-IsFaucetSettings s h = record {
    amount =
        bounds "FIBERNUTS_FAUCET_AMOUNT" 1000 1 100_000 (omega arith) (omega arith) (ground arith);
    scale =
        bounds "FIBERNUTS_FAUCET_UNIT_SCALE" 1_000_000 1 1_000_000_000 (omega arith) (omega arith)
          (ground arith);
    daily =
        (bounds "FIBERNUTS_FAUCET_DAILY_CLAIM_LIMIT" 25 1 100_000 (omega arith) (omega arith)
          (ground arith)).0;
    network =
        (bounds "FIBERNUTS_FAUCET_NETWORK_DAILY_CLAIM_LIMIT" 3 1 1000 (omega arith) (omega arith)
          (ground arith)).0;
    cooldown = (
      (bounds "FIBERNUTS_FAUCET_CLIENT_COOLDOWN_SECONDS" 86_400 60 2_592_000 (omega arith)
          (omega arith) (ground arith)).0,
      ground arith,
    );
    delay =
        (bounds "FIBERNUTS_FAUCET_RECOVERY_DELAY_SECONDS" 10 5 300 (omega arith) (omega arith)
          (ground arith)).0;
    requests =
        (bounds "FIBERNUTS_FAUCET_MAX_REQUESTS_PER_MINUTE" 120 10 10_000 (omega arith) (omega arith)
          (ground arith)).1;
    origins = ground arith;
    secret = λ production. ground arith;
  }
    where
      bounds :
          (name : String) (fallback minimum maximum : ℕ) {n : ℕ}
          → minimum ≤ fallback
          → fallback ≤ maximum
          → integer env to_number name fallback minimum maximum ≡ ok n
          → (minimum ≤ n) × (n ≤ maximum)
      bounds = integer_bounds env to_number
