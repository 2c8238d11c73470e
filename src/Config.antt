-- ===== src/Config.antt =====
-- What relay/src/config.ts and faucet/src/config.ts have in common: how they read the environment.
-- The environment, `Number(text)` and the URL parser are parameters.
pub mod Relay
pub mod Faucet
mod Tests
use fibernuts.Common.{
  Throwing, ok, err, ◌>>=◌, ◌>>◌, throw_when, ◌≤◌, ◌≡◌, arith, ℕ, ◌+◌, String, Bool, true, false,
  not, Option, none, some, List, [], ◌∷◌, ltb, leb, ◌==◌, str_eq, ◌&&◌, ◌||◌, if◌then◌else◌, length,
}
use fibernuts.Js.{Number, nat, num, safe_natural}
use fibernuts.Js.Text.{◌⧺◌, trim, split_commas}
use fibernuts.Js.Url.{Url, is_blank}

-- What is thrown, with the variable's name where the text has it.
pub data ConfigError : Type 0 where
  out_of_range no_flag missing bad_url not_http has_path needs_https : String → ConfigError
  no_origin weak_secret short_retention : ConfigError

abbrev pub Loaded {ℓ} : Type ℓ → Type ℓ
Loaded A = Throwing ConfigError A

abbrev pub or_fallback : String → Option String → String
or_fallback fallback none = fallback
or_fallback fallback (some s) = s

abbrev in_range : String → ℕ → ℕ → Option ℕ → Loaded ℕ
in_range name minimum maximum none = err (out_of_range name)
in_range name minimum maximum (some n) =
    if ltb n minimum || ltb maximum n then err (out_of_range name) else ok n

module _ (env : String → Option String) (to_number : String → Number) where
  abbrev raw_or : ℕ → Option String → Option ℕ
  raw_or fallback none = some fallback
  raw_or fallback (some raw) = safe_natural (num (to_number raw))

  -- `integer`; the fallbacks and the bounds are natural numbers.
  unfoldable pub integer : String → ℕ → ℕ → ℕ → Loaded ℕ
  integer name fallback minimum maximum = in_range name minimum maximum (raw_or fallback (env name))

  abbrev flag_of : String → Bool → Option String → Loaded Bool
  flag_of name fallback none = ok fallback
  flag_of name fallback (some raw) =
      if str_eq raw "true"
      then ok true
      else if str_eq raw "false"
      then ok false
      else err (no_flag name)

  unfoldable pub flag : String → Bool → Loaded Bool
  flag name fallback = flag_of name fallback (env name)

  -- `process.env.NODE_ENV === "production"`.
  unfoldable pub in_production : Bool
  in_production = str_eq (or_fallback "" (env "NODE_ENV")) "production"

module _ (env : String → Option String) (to_number : String → Number) where
  -- A setting that is read is within its bounds.
  pub integer_bounds :
      (name : String) (fallback minimum maximum : ℕ) {n : ℕ}
      → minimum ≤ fallback
      → fallback ≤ maximum
      → integer env to_number name fallback minimum maximum ≡ ok n
      → (minimum ≤ n) × (n ≤ maximum)
  unfolding integer
  integer_bounds name fallback minimum maximum low high h = ground arith

module _ (new_url : String → Option Url) where
  -- `parsed.origin` of an http or https URL.
  abbrev origin_of : Url → String
  origin_of u = u.protocol ⧺ "//" ⧺ u.host

  abbrev checked_url : String → Bool → Option Url → Loaded String
  checked_url name require_https none = err (bad_url name)
  checked_url name require_https (some u) = do
    throw_when
        (not (str_eq u.protocol "https:" || str_eq u.protocol "http:")
          || not (str_eq u.username "")
          || not (str_eq u.password ""))
        (not_http name)
    throw_when (not (str_eq u.pathname "/") || not (is_blank u.query) || not (is_blank u.fragment))
        (has_path name)
    throw_when (require_https && not (str_eq u.protocol "https:")) (needs_https name)
    ok (origin_of u)

  -- `httpUrl`, and `parseOrigin` where HTTPS is not required.
  unfoldable pub http_url : String → Bool → String → Loaded String
  http_url name require_https raw =
      if str_eq raw "" then err (missing name) else checked_url name require_https (new_url raw)

  -- `.map(trim).filter(Boolean).map(httpUrl)` of the parts of a list.
  unfoldable pub origins : String → Bool → List String → Loaded (List String)
  origins name require_https [] = ok []
  origins name require_https (part ∷ parts) =
      let rest = origins name require_https parts in
      if str_eq (trim part) ""
      then rest
      else (do o ← http_url name require_https (trim part); os ← rest; ok (o ∷ os))
