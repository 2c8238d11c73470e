-- ===== src/Market/Manifest.antt =====
-- market/src/event/manifest.ts: the event, its vendors and their catalogs, as they are validated.
-- A field that its type makes a text, and that the code tests no further, is refused if it is none.
pub mod Accepted
use fibernuts.Common.{
  ◌>>=◌, ◌>>◌, ok, err, ℕ, String, Bool, false, not, Option, none, some, List, [], ◌∷◌, str_eq,
  ◌==◌, ◌&&◌, ◌||◌, if◌then◌else◌, length,
}
use fibernuts.Js.{Value, str, Props, property, includes, safe_natural}
use fibernuts.Js.Text.{◌⧺◌, strip_slashes, drop_slash}
use fibernuts.Js.Url.{Url, is_blank, href, hostname}
use fibernuts.Market.Errors.{Failure, plain_error, Attempt, refuse_if}
use fibernuts.Market.Fields.{
  as_record, wrong_keys, text_that, is_filled, is_text, integer_from, array_of, is_slug, is_hex_32,
}

pub data Price : Type 0 where
  fixed : ℕ → Price
  custom : Price

pub record CatalogItem : Type 0 where
  pub id : String
  pub label : String
  pub description : String
  pub price : Price

pub record VendorManifest : Type 0 where
  pub id : String
  pub name : String
  pub description : String
  pub location : String
  pub catalog : List CatalogItem

-- The version, the network, the unit, the hash type and the mode of the transport are constants.
pub record EventManifest : Type 0 where
  pub id : String
  pub name : String
  pub description : String
  pub venue : String
  pub network_label : String
  pub mint_url : String
  pub code_hash : String
  pub type_args : String
  pub relay_origin : String
  pub faucet_origin : String
  pub vendors : List VendorManifest

abbrev pub manifest_keys : List String
manifest_keys =
    "schemaVersion" ∷ "id" ∷ "name" ∷ "description" ∷ "venue" ∷ "network" ∷ "networkLabel" ∷ "unit"
    ∷ "mintUrl" ∷ "assetTypeScript" ∷ "paymentTransport" ∷ "faucet" ∷ "vendors" ∷ []

abbrev pub identity_error : Failure
identity_error = plain_error "Event identity fields must be non-empty strings."

abbrev pub script_error : Failure
script_error = plain_error "The configured RUSD type script is malformed."

abbrev pub vendor_error : Failure
vendor_error = plain_error "Every vendor needs a name, description, location, and catalog."

abbrev pub item_error : Failure
item_error = plain_error "Catalog items require a label and positive integer price."

-- `record` and `exactKeys`, one after the other.
abbrev pub fields_of : String → List String → Value → Attempt Props
fields_of label names value = do
  ps ← as_record (plain_error (label ⧺ " must be an object.")) value
  refuse_if (wrong_keys ps names []) (label ⧺ " contains missing or unsupported fields.")
  ok ps

-- The identifiers of one loop, each new: `set.has(id)` and `set.add(id)`.
abbrev pub new_slug : List String → String → Value → Attempt String
new_slug seen text v = text_that (λ s. is_slug s && not (includes seen s)) (plain_error text) v

abbrev pub price_of : Value → Attempt Price
price_of v =
    if is_text "custom" v then ok custom else (do n ← integer_from 1 item_error v; ok (fixed n))

-- The body of the loop over a catalog.
unfoldable pub catalog_item : List String → Value → Attempt CatalogItem
catalog_item seen value = do
  ps ← fields_of "Catalog item" ("id" ∷ "label" ∷ "description" ∷ "price" ∷ []) value
  id ← new_slug seen "Catalog item IDs must be unique lowercase slugs." (property "id" ps)
  label ← text_that is_filled item_error (property "label" ps)
  description ← text_that is_filled item_error (property "description" ps)
  price ← price_of (property "price" ps)
  ok (record { id = id; label = label; description = description; price = price })

unfoldable pub catalog_items : List String → List Value → Attempt (List CatalogItem)
catalog_items seen [] = ok []
catalog_items seen (v ∷ vs) = do
  item ← catalog_item seen v
  items ← catalog_items (item.id ∷ seen) vs
  ok (item ∷ items)

abbrev pub filled_list : Failure → Value → Attempt (List Value)
filled_list e v = do vs ← array_of e v; (if length vs == 0 then err e else ok vs)

-- The body of the loop over the vendors.
unfoldable pub vendor_manifest : List String → Value → Attempt VendorManifest
vendor_manifest seen value = do
  ps ← fields_of "Vendor" ("id" ∷ "name" ∷ "description" ∷ "location" ∷ "catalog" ∷ []) value
  id ← new_slug seen "Vendor IDs must be unique lowercase slugs." (property "id" ps)
  name ← text_that is_filled vendor_error (property "name" ps)
  description ← text_that is_filled vendor_error (property "description" ps)
  location ← text_that is_filled vendor_error (property "location" ps)
  listed ← filled_list vendor_error (property "catalog" ps)
  catalog ← catalog_items [] listed
  ok (record {
    id = id;
    name = name;
    description = description;
    location = location;
    catalog = catalog;
  })

unfoldable pub vendor_manifests : List String → List Value → Attempt (List VendorManifest)
vendor_manifests seen [] = ok []
vendor_manifests seen (v ∷ vs) = do
  vendor ← vendor_manifest seen v
  vendors ← vendor_manifests (vendor.id ∷ seen) vs
  ok (vendor ∷ vendors)

abbrev pub is_one : Option ℕ → Bool
is_one none = false
is_one (some n) = n == 1

pub record EventIdentity : Type 0 where
  pub id : String
  pub name : String
  pub description : String
  pub venue : String
  pub network_label : String
  pub mint_url : String

-- The fields of the event itself, its version, its network and its unit.
unfoldable pub event_identity : Props → Attempt EventIdentity
event_identity ps = do
  id ← text_that is_filled identity_error (property "id" ps)
  name ← text_that is_filled identity_error (property "name" ps)
  description ← text_that is_filled identity_error (property "description" ps)
  venue ← text_that is_filled identity_error (property "venue" ps)
  network_label ← text_that is_filled identity_error (property "networkLabel" ps)
  mint_url ← text_that is_filled identity_error (property "mintUrl" ps)
  refuse_if (not (is_one (safe_natural (property "schemaVersion" ps))))
      "Unsupported event manifest version."
  refuse_if (not (is_slug id)) "Event ID must be a stable lowercase slug."
  refuse_if
      (not (is_text "testnet" (property "network" ps)) || not (is_text "rusd" (property "unit" ps)))
      "The first market release supports only CKB testnet RUSD."
  ok (record {
    id = id;
    name = name;
    description = description;
    venue = venue;
    network_label = network_label;
    mint_url = mint_url;
  })

pub record AssetTypeScript : Type 0 where
  pub code_hash : String
  pub type_args : String

unfoldable pub asset_type_script : Value → Attempt AssetTypeScript
asset_type_script value = do
  ps ← fields_of "Asset type script" ("codeHash" ∷ "hashType" ∷ "args" ∷ []) value
  hash_type ← text_that (λ s. str_eq s "type") script_error (property "hashType" ps)
  code_hash ← text_that is_hex_32 script_error (property "codeHash" ps)
  type_args ← text_that is_hex_32 script_error (property "args" ps)
  ok (record { code_hash = code_hash; type_args = type_args })

unfoldable pub payment_transport : Value → Attempt Props
payment_transport value = do
  ps ← fields_of "Payment transport" ("mode" ∷ "relayOrigin" ∷ []) value
  refuse_if (not (is_text "post_p2pk" (property "mode" ps))) "Unsupported payment transport mode."
  ok ps

-- The vendors of the event, of which there is one at least.
unfoldable pub event_vendors : Value → Attempt (List VendorManifest)
event_vendors value = do
  listed ← filled_list (plain_error "The event must configure at least one vendor.") value
  vendor_manifests [] listed

module _ (new_url : String → Option Url) where
  abbrev pub normal_form : String → Option Url → Attempt String
  normal_form label none = err (plain_error "Invalid URL")
  normal_form label (some u) = do
    refuse_if
        (not (str_eq u.protocol "https:" || str_eq u.protocol "http:")
          || not (str_eq u.username "")
          || not (str_eq u.password "")
          || not (is_blank u.query)
          || not (is_blank u.fragment))
        (label ⧺ " must be an HTTP(S) URL without credentials, query, or fragment.")
    refuse_if
        (not (str_eq u.protocol "https:")
          && not (str_eq (hostname u) "localhost" || str_eq (hostname u) "127.0.0.1"))
        (label ⧺ " must use HTTPS outside local development.")
    ok (drop_slash (href u (strip_slashes u.pathname)))

  -- `normalizedUrl`.
  unfoldable pub normalized_url : String → Value → Attempt String
  normalized_url label (str s) = normal_form label (new_url s)
  normalized_url label _ = err (plain_error "Invalid URL")

  -- `new URL(origin).pathname !== "/"`.
  abbrev pub bare_origin : String → Option Url → Attempt (Unit {0})
  bare_origin label none = err (plain_error "Invalid URL")
  bare_origin label (some u) =
      refuse_if (not (str_eq u.pathname "/")) (label ⧺ " must not contain a path.")

  unfoldable pub normalized_origin : String → Value → Attempt String
  normalized_origin label v = do o ← normalized_url label v; bare_origin label (new_url o); ok o

  -- `faucet.origin`, of a record with that key alone.
  unfoldable pub faucet_url : Value → Attempt String
  faucet_url v = do
    ps ← fields_of "Faucet" ("origin" ∷ []) v
    normalized_origin "Faucet origin" (property "origin" ps)

  unfoldable pub validate_event_manifest : Value → Attempt EventManifest
  validate_event_manifest input = do
    ps ← fields_of "Event manifest" manifest_keys input
    identity ← event_identity ps
    script ← asset_type_script (property "assetTypeScript" ps)
    transport ← payment_transport (property "paymentTransport" ps)
    mint_url ← normalized_url "Mint URL" (str identity.mint_url)
    relay_origin ← normalized_origin "Relay origin" (property "relayOrigin" transport)
    faucet_origin ← faucet_url (property "faucet" ps)
    vendors ← event_vendors (property "vendors" ps)
    ok (record {
      id = identity.id;
      name = identity.name;
      description = identity.description;
      venue = identity.venue;
      network_label = identity.network_label;
      mint_url = mint_url;
      code_hash = script.code_hash;
      type_args = script.type_args;
      relay_origin = relay_origin;
      faucet_origin = faucet_origin;
      vendors = vendors;
    })
