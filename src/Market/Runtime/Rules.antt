-- ===== src/Market/Runtime/Rules.antt =====
-- Rules for what holds after a call of the runtime, by how it ended.
use mathlib.Core.Path.{subst}
use fibernuts.Common.{◌≡◌, refl, sym, ok, err, String, Bool, true, false}
use fibernuts.Market.Types.{MarketRole, MarketSnapshot}
use fibernuts.Market.Errors.{Failure, Attempt}
use fibernuts.Market.Ports.{MarketContext}
use fibernuts.Market.Runtime.{
  Session, Runtime, and_then, either, asked, fails_if, assert_role, same_role, committed,
}

module _ {A : Type 0} where
  -- `Q` of a value and the session after it, and `E` of the session after an error.
  abbrev pub Ends : (A → Session → Type 0) → (Session → Type 0) → Attempt A × Session → Type 0
  Ends Q E (ok a, s) = Q a s
  Ends Q E (err e, s) = E s

  pub Ends-weaken :
      {P Q : A → Session → Type 0} {E F : Session → Type 0} (r : Attempt A × Session)
      → Ends P E r
      → ((a : A) (s : Session) → P a s → Q a s)
      → ((s : Session) → E s → F s)
      → Ends Q F r
  Ends-weaken (ok a, s) h f g = f a s h
  Ends-weaken (err e, s) h f g = g s h

module _ {A B : Type 0} (P : A → Session → Type 0) (Q : B → Session → Type 0)
    (E : Session → Type 0) where
  pub and_then-Ends :
      (r : Attempt A × Session) (next : A → Runtime B)
      → Ends P E r
      → ((a : A) (s : Session) → P a s → Ends Q E (next a s))
      → Ends Q E (and_then next r)
  and_then-Ends (ok a, s) next h k = k a s h
  and_then-Ends (err e, s) next h k = h

  pub either-Ends :
      (D : Session → Type 0) (r : Attempt A × Session) (handle : Failure → Runtime B)
      (next : A → Runtime B)
      → Ends P D r
      → ((e : Failure) (s : Session) → D s → Ends Q E (handle e s))
      → ((a : A) (s : Session) → P a s → Ends Q E (next a s))
      → Ends Q E (either handle next r)
  either-Ends D (ok a, s) handle next h f k = k a s h
  either-Ends D (err e, s) handle next h f k = f e s h

-- A commit is done, or has left the session as it was.
pub committed-Ends :
    (c : MarketContext) {R : Type 0} (Q : R → Session → Type 0) (E : Session → Type 0) (r : R)
    (next : MarketSnapshot) (s : Session) (answer : Attempt (Unit {0}))
    → Q r (record s { snapshot = next })
    → E s
    → Ends Q E (committed c r next s answer)
committed-Ends c Q E r next s (ok done) q e = q
committed-Ends c Q E r next s (err e) q h = h

-- An answer leaves the session as it is.
pub asked-Ends :
    {A : Type 0} (r : Attempt A) (s : Session) (E : Session → Type 0)
    → E s
    → Ends (λ a t. E t) E (asked r s)
asked-Ends (ok a) s E h = h
asked-Ends (err e) s E h = h

module _ {B : Type 0} (Q : B → Session → Type 0) (E : Session → Type 0) where
  -- A guard that throws leaves the session as it is.
  pub guard-Ends :
      (bad : Bool) (text : String) (next : Unit {0} → Runtime B) (s : Session)
      → E s
      → Ends Q E (next tt s)
      → Ends Q E (and_then next (fails_if bad text s))
  guard-Ends true text next s e h = e
  guard-Ends false text next s e h = h

  pub role-Ends :
      (role : MarketRole) (next : Unit {0} → Runtime B) (s : Session)
      → E s
      → Ends Q E (next tt s)
      → Ends Q E (and_then next (assert_role role s))
  unfolding assert_role
  role-Ends role next s = guard-Ends _ _ next s

  pub answer-Ends :
      {A : Type 0} (answer : Attempt A) (next : A → Runtime B) (s : Session)
      → E s
      → ((a : A) → Ends Q E (next a s))
      → Ends Q E (and_then next (asked answer s))
  answer-Ends (ok a) next s e h = h a
  answer-Ends (err x) next s e h = e

  -- In its own role an operation goes on.
  pub in_role-Ends :
      (role : MarketRole) (next : Unit {0} → Runtime B) (s : Session)
      → s.snapshot.role ≡ role
      → Ends Q E (next tt s)
      → Ends Q E (and_then next (assert_role role s))
  unfolding assert_role
  in_role-Ends role next s e h = rw same h
    where
      reflexive : (r : MarketRole) → same_role r r ≡ true
      reflexive MarketRole.attendee = refl
      reflexive MarketRole.vendor = refl

      same : same_role s.snapshot.role role ≡ true
      same = subst (λ r. same_role r role ≡ true) (sym e) (reflexive role)
