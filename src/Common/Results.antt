-- ===== src/Common/Results.antt =====
-- Errors as values. `HttpError` is the class of relay/src/protocol.ts and faucet/src/protocol.ts:
-- a status, a code and the seconds after which to retry; the text for people is left out.
-- A handler that fails some other way throws an `Error`, which the servers answer with 500.
use Prim.Native.Nat.{ℕ}
use Prim.Native.String.{String}
use mathlib.Core.Path.{◌≡◌, refl}
use mathlib.Core.Logic.{◌≢◌, ◌⊎◌, inl, inr}
use mathlib.Core.Bool.{Bool, true, false}
use mathlib.Core.Option.{Option, none}
use fibernuts.Common.Tests.{if◌then◌else◌}

pub record HttpError : Type 0 where
  pub status : ℕ
  pub code : String
  pub retry_after_seconds : Option ℕ

-- What a call returns, or the error that it throws.
pub data Throwing {ℓ} (E : Type 0) (A : Type ℓ) : Type ℓ where
  ok : (value : A) → Throwing E A
  err : (error : E) → Throwing E A

abbrev pub Result {ℓ} : Type ℓ → Type ℓ
Result A = Throwing HttpError A

abbrev pub http_error : ℕ → String → HttpError
http_error status code = record { status = status; code = code; retry_after_seconds = none }

abbrev pub fail {ℓ} : {A : Type ℓ} → ℕ → String → Result A
fail status code = err (http_error status code)

module _ {ℓ} {E : Type 0} {B : Type ℓ} where
  infixl 5 ◌>>=◌ ◌>>◌
  abbrev pub ◌>>=◌ {κ} : {A : Type κ} → Throwing E A → (A → Throwing E B) → Throwing E B
  err error >>= next = err error
  ok value >>= next = next value

  abbrev pub ◌>>◌ : Throwing E (Unit {0}) → Throwing E B → Throwing E B
  err error >> next = err error
  ok done >> next = next

-- `if (bad) throw new HttpError(status, code, …)`.
abbrev pub throw_if : Bool → ℕ → String → Result (Unit {0})
throw_if true status code = fail status code
throw_if false status code = ok tt

abbrev pub throw_when : {E : Type 0} → Bool → E → Throwing E (Unit {0})
throw_when bad error = if bad then err error else ok tt

-- A chain that returns has a first call that returned.
pub >>=-eq-ok {κ ℓ} :
    {E : Type 0} {B : Type κ} {A : Type ℓ} (first : Throwing E A) (next : A → Throwing E B) {b : B}
    → first >>= next ≡ ok b
    → (a : A) × (first ≡ ok a) × (next a ≡ ok b)
>>=-eq-ok (err error) next e = cc
>>=-eq-ok (ok value) next e = (value, refl, e)

pub throw_if-eq-ok :
    (b : Bool) (status : ℕ) (code : String) {u : Unit {0}}
    → throw_if b status code ≡ ok u
    → b ≡ false
throw_if-eq-ok false status code h = refl
throw_if-eq-ok true status code h = cc

-- A call that throws no error returns.
pub returned {ℓ} :
    {E : Type 0} {A : Type ℓ} (call : Throwing E A)
    → ((e : E) → call ≢ err e)
    → (a : A) × (call ≡ ok a)
returned (ok value) h = (value, refl)
returned (err error) h = absurd (h error refl)

pub Throwing-cases {ℓ} :
    {E : Type 0} {A : Type ℓ} (call : Throwing E A)
    → ((e : E) × (call ≡ err e)) ⊎ ((a : A) × (call ≡ ok a))
Throwing-cases (ok value) = inr (value, refl)
Throwing-cases (err error) = inl (error, refl)
