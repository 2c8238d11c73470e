-- ===== src/Js/Url.antt =====
-- The URL parser of the platform, as far as the code looks at its result.
use Prim.Native.Char.{code}
use fibernuts.Common.{
  String, Bool, true, false, not, Option, none, some, str_eq, ◌==◌, ◌&&◌, ◌||◌, if◌then◌else◌,
}
use fibernuts.Js.Text.{◌⧺◌}
use text.Mathlib.Text.{starts_with}

-- What `new URL(value)` yields; `query` and `fragment` are `none` where the text has no mark for
-- them, and `some ""` where nothing follows the mark.
pub record Url : Type 0 where
  pub protocol : String
  pub username : String
  pub password : String
  pub host : String
  pub pathname : String
  pub query : Option String
  pub fragment : Option String

-- `url.search` and `url.hash` are empty in both cases.
abbrev pub is_blank : Option String → Bool
is_blank none = true
is_blank (some s) = str_eq s ""

-- `url.origin` of the schemes that have one; `blob:` is not among them.
abbrev pub origin : Url → String
origin u =
    if str_eq u.protocol "https:"
      || str_eq u.protocol "http:"
      || str_eq u.protocol "wss:"
      || str_eq u.protocol "ws:"
      || str_eq u.protocol "ftp:"
    then u.protocol ⧺ "//" ⧺ u.host
    else "null"

-- `url.hostname`: the host without its port. An address in brackets keeps its colons.
unfoldable pub before_colon : Bool → String → String
before_colon bracket String.[] = ""
before_colon bracket (String.◌∷◌ c s) =
    let rest = before_colon ((bracket || code c == b'[') && not (code c == b']')) s in
    if code c == b':' && not bracket then "" else String.◌∷◌ c rest

unfoldable pub hostname : Url → String
unfolding before_colon
hostname u = before_colon false u.host

abbrev marked : String → Option String → String
marked mark none = ""
marked mark (some s) = mark ⧺ s

-- `url.toString()` of an http or https URL without credentials, its path set to `path`.
abbrev pub href : Url → String → String
href u path =
    u.protocol
    ⧺ "//"
    ⧺ u.host
    ⧺ (if starts_with path "/" then path else "/" ⧺ path)
    ⧺ marked "?" u.query
    ⧺ marked "#" u.fragment
