-- ===== src/Market/Manifest/Accepted.antt =====
-- What the market knows of an event manifest that has been accepted.
use fibernuts.Common.{
  ◌≤◌, ◌<◌, String, true, false, Option, none, some, List, ◌≡◌, length, ◌⊎◌, All,
}
use fibernuts.Js.{undefined, obj, str, Value, includes, max_safe_integer, property}
use fibernuts.Js.Text.{strip_slashes, drop_slash}
use fibernuts.Js.Url.{Url, href, hostname}
use fibernuts.Table.Keys.{Pairs, Differ}
use fibernuts.Market.Fields.{is_slug}
use fibernuts.Market.Manifest.{Price, fixed, custom, CatalogItem, VendorManifest, EventManifest}

-- A fixed price is positive and exact.
abbrev pub IsPrice : Price → Type 0
IsPrice (fixed n) = (0 < n) × (n ≤ max_safe_integer)
IsPrice custom = Unit

abbrev pub IsItem : CatalogItem → Type 0
IsItem item = (is_slug item.id ≡ true) × IsPrice item.price

abbrev pub NotEmpty {ℓ} : {A : Type ℓ} → List A → Type 0
NotEmpty xs = 0 < length xs

pub record IsVendor (v : VendorManifest) : Type 0 where
  pub id : is_slug v.id ≡ true
  pub stocked : NotEmpty v.catalog
  pub items : All IsItem v.catalog
  pub distinct : Pairs (Differ (λ (i : CatalogItem). i.id)) v.catalog

-- Records whose keys are none of `k ∷ seen` have keys apart from `k`, and none of `seen`.
module _ {R : Type 0} (key : R → String) where
  abbrev Unseen : List String → List R → Type 0
  Unseen seen rs = All (λ (r : R). includes seen (key r) ≡ false) rs

-- The property of an object, and nothing of another value.
abbrev pub field : String → Value → Value
field key (obj ps) = property key ps
field key _ = undefined

module _ (new_url : String → Option Url) where
  -- `s` is the URL that the text of a field is read as: without credentials, with an empty query and an
  -- empty fragment or none, with HTTPS unless it is local, and without trailing slashes.
  pub record IsNormal (v : Value) (s : String) : Type 0 where
    pub source : String
    pub given : v ≡ str source
    pub url : Url
    pub read : new_url source ≡ some url
    pub plain : (url.username ≡ "") × (url.password ≡ "")
    pub unqueried : (url.query ≡ none) ⊎ (url.query ≡ some "")
    pub unmarked : (url.fragment ≡ none) ⊎ (url.fragment ≡ some "")
    pub secure :
        (url.protocol ≡ "https:")
        ⊎ ((url.protocol ≡ "http:") × ((hostname url ≡ "localhost") ⊎ (hostname url ≡ "127.0.0.1")))
    pub text : s ≡ drop_slash (href url (strip_slashes url.pathname))

  -- A normal URL that reads back as one without a path.
  pub record IsOrigin (v : Value) (s : String) : Type 0 where
    pub normal : IsNormal v s
    pub url : Url
    pub read : new_url s ≡ some url
    pub bare : url.pathname ≡ "/"

  pub record IsManifest (input : Value) (m : EventManifest) : Type 0 where
    pub id : is_slug m.id ≡ true
    pub mint : IsNormal (field "mintUrl" input) m.mint_url
    pub relay : IsOrigin (field "relayOrigin" (field "paymentTransport" input)) m.relay_origin
    pub faucet : IsOrigin (field "origin" (field "faucet" input)) m.faucet_origin
    pub vendors_given : NotEmpty m.vendors
    pub vendors : All IsVendor m.vendors
    pub distinct : Pairs (Differ (λ (v : VendorManifest). v.id)) m.vendors
