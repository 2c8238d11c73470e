-- ===== src/Config/Tests.antt =====
-- The configurations that the two services (relay/src, faucet/src) load in an empty environment.
use fibernuts.Common.{
  ok, String, Option, none, some, [], ◌∷◌, ◌≡◌, refl, str_eq, if◌then◌else◌, false,
}
use fibernuts.Js.{Number, nat}
use fibernuts.Js.Url.{Url}
use fibernuts.Config.Relay.{RelaySettings, load_relay_config}
use fibernuts.Config.Faucet.{
  FaucetSettings, load_faucet_config, IsFaucetSettings, load_faucet_config-IsFaucetSettings,
}
use fibernuts.Faucet.Upstream.{HashType}

abbrev env : String → Option String
env name = if str_eq name "FIBERNUTS_RELAY_PORT" then some "9000" else none

abbrev to_number : String → Number
to_number s = nat 9000

abbrev url_of : String → Option Url
url_of s = some (record {
  protocol = "http:";
  username = "";
  password = "";
  host = "127.0.0.1";
  pathname = "/";
  query = none;
  fragment = none;
})

abbrev relay : RelaySettings
relay = record {
  host = "127.0.0.1";
  port = 9000;
  database_path = "./data/relay.sqlite3";
  server = (record {
    public_origin = "http://127.0.0.1";
    allowed_origins = "http://127.0.0.1" ∷ [];
    max_ttl_seconds = 600;
    max_requests_per_minute = 120;
    body_limit_bytes = 131_072;
  });
  retention_seconds = 3600;
}

relay_loads : load_relay_config env to_number url_of ≡ ok relay
unfolding load_relay_config fibernuts.Config.http_url fibernuts.Config.in_production
    fibernuts.Config.origins fibernuts.Js.Text.split_commas fibernuts.Js.Text.trim
    fibernuts.Js.Text.trim_start fibernuts.Js.Text.trim_end fibernuts.Js.Text.is_space
    fibernuts.Config.integer
relay_loads = refl

abbrev faucet : FaucetSettings
faucet = record {
  host = "127.0.0.1";
  port = 8091;
  database_path = "./data/faucet.sqlite3";
  public_origin = "http://127.0.0.1";
  mint_api_url = "http://127.0.0.1";
  fiber_rpc_url = "http://127.0.0.1";
  service = (record {
    enabled = false;
    amount = 1000;
    unit = "rusd";
    unit_scale = 1_000_000;
    invoice_currency = "Fibt";
    udt_script = (record {
      code_hash = "0x1142755a044bf2ee358cba9f2da187ce928c91cd4dc8692ded0337efa677d21a";
      hash_type = HashType.type_hash;
      args = "0x878fcc6f1f08d48e87bb1c3b3d5083f23f8a39c5d5c764f253b55b998526439b";
    });
    client_cooldown_seconds = 86_400;
    network_daily_claim_limit = 3;
    daily_claim_limit = 25;
    recovery_delay_seconds = 10;
  });
  server = (record {
    allowed_origins = "http://127.0.0.1" ∷ [];
    trust_proxy = false;
    max_requests_per_minute = 120;
    body_limit_bytes = 4096;
    identifier_secret = "local-faucet-identifier-secret-change-me";
    mint_url = "http://127.0.0.1";
  });
  max_fee_base_units = 5_000_000;
  max_fee_rate = 5;
  reconciliation_interval_seconds = 10;
  sensitive_retention_seconds = 604_800;
  upstream_timeout_ms = 10_000;
}

faucet_loads : load_faucet_config env to_number url_of ≡ ok faucet
unfolding load_faucet_config fibernuts.Config.http_url fibernuts.Config.in_production
    fibernuts.Config.origins fibernuts.Js.Text.split_commas fibernuts.Js.Text.trim
    fibernuts.Js.Text.trim_start fibernuts.Js.Text.trim_end fibernuts.Js.Text.is_space
    fibernuts.Config.integer fibernuts.Config.flag
faucet_loads = refl

load_faucet_config-IsFaucetSettings_example : IsFaucetSettings env to_number url_of faucet
load_faucet_config-IsFaucetSettings_example =
    load_faucet_config-IsFaucetSettings env to_number url_of faucet faucet_loads
