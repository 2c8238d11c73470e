-- ===== src/Market/Tests.antt =====
-- An event with one vendor, and the data on which the market (market/src) is run.
mod Events
mod Orders
mod Payments
mod Cash
use fibernuts.Common.{
  ok, ℕ, String, Bool, true, false, Option, none, some, List, [], ◌∷◌, str_eq, if◌then◌else◌,
}
use fibernuts.Js.{Value, undefined, nat}
use fibernuts.Js.Url.{Url}
use fibernuts.Wallet.PaymentRequest.{Transport, DecodedPaymentRequest, CashuRequest}
use fibernuts.Market.Types.{Proof, StoredSwapPreview, QuoteState, MarketRole, MarketSnapshot}
use fibernuts.Market.Manifest.{fixed, CatalogItem, VendorManifest, EventManifest}
use fibernuts.Market.Payment.{LockOptions, Platform, Secrets, InspectedToken, p2pk_lock}
use fibernuts.Market.Ports.{
  TokenSpendState, by_swap, MintQuoteState, MintQuote, MeltQuote, MarketWallet, DeliveredPayload,
  RelayPort, MarketContext,
}
use fibernuts.Market.Runtime.{Session}

abbrev pub delivery_url : String
delivery_url = "https://event.example/v1/deliver/wwwwwwwwwwwwwwwwwwwwwwwwwwwwwwwwwwwwwwwwwww"

abbrev url_with : String → Url
url_with path = record {
  protocol = "https:";
  username = "";
  password = "";
  host = "event.example";
  pathname = path;
  query = none;
  fragment = none;
}

abbrev pub url_of : String → Option Url
url_of s = some (
    url_with (
      if str_eq s delivery_url
      then "/v1/deliver/wwwwwwwwwwwwwwwwwwwwwwwwwwwwwwwwwwwwwwwwwww"
      else "/"))

abbrev pub tea : VendorManifest
tea = record {
  id = "tea-stall";
  name = "Tea stall";
  description = "Tea and cake";
  location = "Hall 1";
  catalog =
      record { id = "tea"; label = "Tea"; description = "A cup of tea"; price = fixed 25 } ∷ [];
}

abbrev pub event : EventManifest
event = record {
  id = "ckb-fair";
  name = "CKB fair";
  description = "A fair";
  venue = "Town hall";
  network_label = "CKB testnet";
  mint_url = "https://event.example";
  code_hash = "0xaaaaaaaaaaaaaaaaaaaaaaaaaaaaaaaaaaaaaaaaaaaaaaaaaaaaaaaaaaaaaaaa";
  type_args = "0xaaaaaaaaaaaaaaaaaaaaaaaaaaaaaaaaaaaaaaaaaaaaaaaaaaaaaaaaaaaaaaaa";
  relay_origin = "https://event.example";
  faucet_origin = "https://event.example";
  vendors = tea ∷ [];
}

abbrev pub transport : Transport
transport = record {
  kind = "post";
  target = delivery_url;
  tags =
      ("event_id" ∷ "ckb-fair" ∷ [])
      ∷ ("vendor_id" ∷ "tea-stall" ∷ [])
      ∷ ("expires_at" ∷ "1300" ∷ [])
      ∷ [];
}

abbrev pub raw_request : CashuRequest
raw_request = record {
  transport = some (transport ∷ []);
  id = some "order_1";
  amount = some (nat 25);
  unit = some "rusd";
  mints = some ("https://event.example" ∷ []);
  description = some "Tea";
  single_use = true;
  nut10 = some (p2pk_lock "02ab");
}

abbrev pub lock : LockOptions
lock = record {
  pubkey = some "02ab";
  locktime = none;
  refund_keys = none;
  required_signatures = none;
}

abbrev pub platform : Platform
platform = record {
  new_url = url_of;
  to_number = λ s. nat 1300;
  decode = λ s. some raw_request;
  lock_options = λ s. ok (some lock);
  encode = λ r. "creqa1";
  sha256 = λ s. "digest";
}

abbrev pub coin : Proof
coin = record { amount = 25; secret = "s1"; rest = undefined }

abbrev pub fresh_coin : Proof
fresh_coin = record { amount = 25; secret = "s2"; rest = undefined }

abbrev pub swap : StoredSwapPreview
swap = record {
  amount = 25;
  fees = 0;
  keyset_id = "00ff";
  inputs = coin ∷ [];
  send_outputs = none;
  keep_outputs = none;
  unselected_proofs = some [];
}

abbrev mint_quote : MintQuote
mint_quote = record {
  quote = "q1";
  request = "fibt1";
  amount = 25;
  amount_paid = none;
  state = some MintQuoteState.paid;
  expiry = none;
  pubkey = none;
}

abbrev pub melt_quote : MeltQuote
melt_quote = record {
  quote = "q2";
  amount = 25;
  fee_reserve = 0;
  state = QuoteState.unpaid;
  expiry = none;
  request = "fibt1";
  change = none;
}

abbrev token : InspectedToken
token = record { amount = 25; mint = "https://event.example"; unit = "rusd"; proofs = coin ∷ [] }

abbrev wallet : MarketWallet
wallet = record {
  mint_url = "https://event.example";
  unit = "rusd";
  prepare_send = λ amount proofs options. ok (by_swap swap 25 0);
  complete_prepared_send = λ p. ok (record { token = "cashuA1"; change = [] });
  inspect_token = λ t. ok token;
  encode_proofs = λ proofs. ok "cashuA1";
  token_is_locked_to = λ t key. ok true;
  prepare_receive = λ t key. ok swap;
  complete_prepared_receive = λ p. ok (fresh_coin ∷ []);
  check_token_state = λ t. ok TokenSpendState.unspent;
  request_mint = λ amount. ok mint_quote;
  request_locked_mint =
      λ amount. ok (record { quote = mint_quote; private_key = "01"; public_key = "02ab" });
  check_mint_quote = λ id. ok mint_quote;
  prepare_mint = λ quote key. ok (record {
    output_data = [];
    keyset_id = "00ff";
    legacy_signature = none;
    payload_signature = none;
  });
  complete_mint = λ quote prepared. ok (fresh_coin ∷ []);
  request_melt = λ invoice. ok melt_quote;
  check_melt_quote = λ id. ok melt_quote;
  prepare_melt = λ quote proofs. ok (record {
    keep = [];
    reserved_proofs = proofs;
    output_data = [];
    keyset_id = "00ff";
    input_fee = 0;
  });
  execute_melt =
      λ quote prepared. ok (record { state = QuoteState.paid; change = []; output_data = [] });
  recover_melt_change = λ outputs quote. ok [];
  check_proofs_state = λ proofs. ok TokenSpendState.unspent;
}

abbrev relay : RelayPort
relay = record {
  register = λ request amount. ok tt;
  deliver = λ url payload. ok tt;
  read = λ capability. ok (
      some (record {
        id = some "order_1";
        mint = some "https://event.example";
        unit = some "rusd";
        proofs = some (coin ∷ []);
      }));
  acknowledge = λ capability. ok tt;
  cancel = λ capability. ok tt;
}

abbrev pub context : MarketContext
context = record {
  manifest = event;
  vendor = tea;
  wallet = wallet;
  relay = relay;
  platform = platform;
  commit = λ s. ok tt;
  now = λ n. 1000000;
  new_id = "payment-1";
  secrets = record {
    order_capability = "ooo";
    read_capability = "rrr";
    write_capability = "www";
    private_key = "01";
    public_key = "02ab";
  };
  describe = λ e. "failed";
  fingerprint = λ proofs. "proofs";
  stringify = λ p. "payload";
}

abbrev pub empty_snapshot : MarketRole → List Proof → MarketSnapshot
empty_snapshot role proofs = record {
  event_id = "ckb-fair";
  role = role;
  mint_url = "https://event.example";
  proofs = proofs;
  add_cash = [];
  payments = [];
  orders = [];
  cash_out = [];
}
