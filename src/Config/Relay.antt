-- ===== src/Config/Relay.antt =====
-- `loadConfig` of relay/src/config.ts.
use fibernuts.Common.{
  ok, ◌>>=◌, ◌>>◌, throw_when, ℕ, ◌*◌, ◌≤◌, ◌<◌, ◌≡◌, String, true, false, not, Option, ◌==◌, ◌&&◌,
  length, arith,
}
use fibernuts.Js.{Number}
use fibernuts.Js.Text.{split_commas}
use fibernuts.Js.Url.{Url}
use text.Mathlib.Text.{starts_with}
use fibernuts.Config.{
  Loaded, needs_https, no_origin, or_fallback, integer, in_production, http_url, origins,
}
use fibernuts.Relay.Server.{RelayConfig}

pub record RelaySettings : Type 0 where
  pub host : String
  pub port : ℕ
  pub database_path : String
  pub server : RelayConfig
  pub retention_seconds : ℕ

module _ (env : String → Option String) (to_number : String → Number)
    (new_url : String → Option Url) where
  unfoldable pub load_relay_config : Loaded RelaySettings
  load_relay_config = do
    public_origin ←
        http_url new_url "FIBERNUTS_RELAY_PUBLIC_ORIGIN" false
          (or_fallback "http://127.0.0.1:8090" (env "FIBERNUTS_RELAY_PUBLIC_ORIGIN"))
    throw_when (in_production env to_number && not (starts_with public_origin "https://"))
        (needs_https "FIBERNUTS_RELAY_PUBLIC_ORIGIN")
    allowed_origins ←
        origins new_url "FIBERNUTS_RELAY_ALLOWED_ORIGINS" false (
          split_commas
            (or_fallback "http://127.0.0.1:5175" (env "FIBERNUTS_RELAY_ALLOWED_ORIGINS")))
    throw_when (length allowed_origins == 0) no_origin
    port ← integer env to_number "FIBERNUTS_RELAY_PORT" 8090 1 65_535
    max_ttl_seconds ← integer env to_number "FIBERNUTS_RELAY_MAX_TTL_SECONDS" 600 30 3600
    retention_seconds ← integer env to_number "FIBERNUTS_RELAY_RETENTION_SECONDS" 3600 60 86_400
    max_requests ← integer env to_number "FIBERNUTS_RELAY_MAX_REQUESTS_PER_MINUTE" 120 10 10_000
    ok (record {
      host = or_fallback "127.0.0.1" (env "FIBERNUTS_RELAY_HOST");
      port = port;
      database_path = or_fallback "./data/relay.sqlite3" (env "FIBERNUTS_RELAY_DATABASE");
      server = (record {
        public_origin = public_origin;
        allowed_origins = allowed_origins;
        max_ttl_seconds = max_ttl_seconds;
        max_requests_per_minute = max_requests;
        body_limit_bytes = 128 * 1024;
      });
      retention_seconds = retention_seconds;
    })

  -- The bounds of a loaded configuration.
  pub record IsRelaySettings (s : RelaySettings) : Type 0 where
    pub port : (1 ≤ s.port) × (s.port ≤ 65_535)
    pub origins : 0 < length s.server.allowed_origins
    pub lifetime : (30 ≤ s.server.max_ttl_seconds) × (s.server.max_ttl_seconds ≤ 3600)
    pub retention : (60 ≤ s.retention_seconds) × (s.retention_seconds ≤ 86_400)
    pub requests :
        (10 ≤ s.server.max_requests_per_minute) × (s.server.max_requests_per_minute ≤ 10_000)
    pub secure :
        in_production env to_number ≡ true → starts_with s.server.public_origin "https://" ≡ true

  -- A configuration that the relay loads has a valid port, at least one allowed origin, and every
  -- limit within its bounds, whatever the environment says; in production its origin is HTTPS.
  load_relay_config-IsRelaySettings :
      (s : RelaySettings) → load_relay_config ≡ ok s → IsRelaySettings s
  unfolding load_relay_config integer
  load_relay_config-IsRelaySettings s h = record {
    port = ground arith;
    origins = ground arith;
    lifetime = ground arith;
    retention = ground arith;
    requests = ground arith;
    secure = λ production. ground arith;
  }
