-- ===== src/Http.antt =====
-- What the two servers (relay/src/server.ts, faucet/src/server.ts) have in common: the request as
-- node:http hands it over, `readJson`, the header `Authorization` and the rate table.
pub mod Rate
use Prim.Native.String
use fibernuts.Common.{
  ℕ, ◌+◌, String, Bool, true, false, not, Option, none, some, List, [], ◌∷◌, ltb, if◌then◌else◌,
  Result, ok, err, fail, throw_if, ◌>>=◌, ◌>>◌,
}
use fibernuts.Js.{Value, includes}
use fibernuts.Js.Text.{to_lower}
use text.Mathlib.Text.{starts_with}

-- The body is the sizes of its chunks and what `JSON.parse` yields of their text, `none` where it
-- throws. `pathname` and `search` are those of `new URL(request.url, config.publicOrigin)`.
pub record Request : Type 0 where
  pub method : String
  pub pathname : String
  pub search : String
  pub origin : Option String
  pub authorization : Option String
  pub content_type : Option String
  pub forwarded_for : Option String
  pub remote_address : Option String
  pub chunks : List ℕ
  pub json : Option Value

abbrev pub or_default : String → Option String → String
or_default d none = d
or_default d (some s) = s

-- The loop over the chunks, which stops once their sizes pass the limit.
unfoldable pub size_from : ℕ → ℕ → List ℕ → Result ℕ
size_from limit size [] = ok size
size_from limit size (n ∷ ns) =
    let rest = size_from limit (size + n) ns in
    if ltb limit (size + n) then fail 413 "body_too_large" else rest

abbrev parsed : Option Value → Result Value
parsed none = fail 400 "invalid_json"
parsed (some v) = ok v

unfoldable pub read_json : Request → ℕ → Result Value
read_json request limit = do
  throw_if (not (starts_with (to_lower (or_default "" request.content_type)) "application/json"))
      415 "content_type"
  _ ← size_from limit 0 request.chunks
  parsed request.json

-- `requestOrigin && !config.allowedOrigins.has(requestOrigin)` throws; otherwise the origin is
-- echoed in Access-Control-Allow-Origin. An absent or empty header is no origin.
unfoldable pub origin_allowed : List String → Option String → Bool
origin_allowed allowed none = true
origin_allowed allowed (some String.[]) = true
origin_allowed allowed (some o) = includes allowed o

abbrev pub echoed : Option String → Option String
echoed none = none
echoed (some String.[]) = none
echoed (some o) = some o
