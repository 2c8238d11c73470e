-- ===== src/Faucet/Service/Attempts.antt =====
-- What the steps of a claim keep: the count of payments sent for each claim, and the limits.

use mathlib.Core.Path.{subst}
use text.Mathlib.TextPositions.{eq_refl}
use fibernuts.Common.{
  ℕ, ◌+◌, ◌≤◌, ◌<◌, String, Bool, true, false, Option, none, some, List, [], ◌∷◌, ◌≡◌, refl, sym,
  ◌∙◌, arith, eq_iff, str_eq, if◌then◌else◌, Bool-cases, Option-cases, inl, inr, Result,
}
use fibernuts.Table.{select, count}
use fibernuts.Table.Rows.{select_match, select-update, select-append, or_else}
use fibernuts.Faucet.Store.{
  ClaimState, ClaimRecord, ReserveClaim, Reservation, find, is_quote, reserve, mark_attempt,
  attempt_row, transition, transition_row, new_claim,
}
use fibernuts.Faucet.Store.Reserving.{Reserving, refused, on_record, granted, reserve-Reserving}
use fibernuts.Faucet.Store.Limits.{
  WithinLimits, mark_attempt-WithinLimits, transition-WithinLimits, reserve-WithinLimits,
}
use fibernuts.Faucet.Service.{Context, World}
use fibernuts.Faucet.Service.Claims.{claim_exclusive, reservation_of}
use fibernuts.Faucet.Service.Steps.{
  MayPay, first_attempt, second_attempt, Step, moves, pays, reserves, Steps, here, next,
  claim_exclusive-Steps,
}

-- The payments sent for a claim.
unfoldable pub sends : String → List (String × String) → ℕ
sends hash [] = 0
sends hash ((h, invoice) ∷ sent) = (if str_eq h hash then 1 else 0) + sends hash sent

abbrev pub attempts : Option ClaimRecord → ℕ
attempts none = 0
attempts (some r) = r.attempt_count

-- Every claim has on record how many payments were sent for it, which are two at most; for a claim
-- that is not on record none was.
abbrev pub Accounted : World → Type 0
Accounted w =
    (hash : String)
    → (sends hash w.sent ≡ attempts (find hash w.claims)) × (attempts (find hash w.claims) ≤ 2)

attempts-transition :
    (hash h : String) (state : ClaimState) (code : Option String) (now : ℕ) (rs : List ClaimRecord)
    → attempts (find h (transition hash state code now rs).1) ≡ attempts (find h rs)
unfolding find transition
attempts-transition hash h state code now rs =
    rw (select-update (is_quote h) (is_quote hash) (transition_row state code now) (λ r. refl) rs)
      (elim (Option-cases (select (is_quote h) rs)) [
        | inl e ↦ rw e
        | inr (r, e) ↦
            rw e (elim (Bool-cases (is_quote hash r)) [ inl hit ↦ rw hit | inr miss ↦ rw miss ])
      ])

attempts-mark_attempt :
    (h : String) (r : ClaimRecord) (now : ℕ) (rs : List ClaimRecord)
    → find r.quote_hash rs ≡ some r
    → attempts (find h (mark_attempt r.quote_hash now rs).1)
      ≡ (if str_eq r.quote_hash h then r.attempt_count + 1 else attempts (find h rs))
unfolding find mark_attempt
attempts-mark_attempt h r now rs found =
    rw (select-update (is_quote h) (is_quote r.quote_hash) (attempt_row now) (λ x. refl) rs)
      (elim (Bool-cases (str_eq r.quote_hash h)) [
        | inl same ↦
            let here : select (is_quote h) rs ≡ some r =
              subst (λ k. select (is_quote k) rs ≡ some r) ((eq_iff r.quote_hash h).0 same) found in
            rw (here, same, eq_refl)
        | inr other ↦ rw other (elim (Option-cases (select (is_quote h) rs)) [
          | inl e ↦ rw e
          | inr (x, e) ↦ rw (e, apart other x e)
        ])
      ])
  where
    apart :
        str_eq r.quote_hash h ≡ false
        → (x : ClaimRecord) → select (is_quote h) rs ≡ some x
        → is_quote r.quote_hash x ≡ false
    apart other x e = elim (Bool-cases (is_quote r.quote_hash x)) [
      | inr miss ↦ miss
      | inl hit ↦ cc (
        other,
        (eq_iff r.quote_hash h).1 (
            sym ((eq_iff x.quote_hash r.quote_hash).0 hit)
            ∙ (eq_iff x.quote_hash h).0 (select_match (is_quote h) rs e)),
      )
    ]

attempts-reserve :
    (h : String) (input : ReserveClaim) (now : ℕ) (rs : List ClaimRecord)
    → attempts (find h (reserve input now rs).1) ≡ attempts (find h rs)
unfolding find
attempts-reserve h input now rs = of_reserving (reserve-Reserving input now rs)
  where
    added :
        (o : Option ClaimRecord) (b : Bool)
        → attempts (or_else o (if b then some (new_claim input now) else none)) ≡ attempts o
    added none true = refl
    added none false = refl
    added (some r) b = refl

    of_reserving :
        {x : Result Reservation × List ClaimRecord}
        → Reserving input now rs x
        → attempts (select (is_quote h) x.1) ≡ attempts (select (is_quote h) rs)
    of_reserving (refused e) = refl
    of_reserving (on_record claim e) = refl
    of_reserving (granted g) =
        rw (select-append (is_quote h) rs (new_claim input now))
          (added (select (is_quote h) rs) (is_quote h (new_claim input now)))

module _ (c : Context) where
  open c use {config, clock}

  may_attempt : {r : ClaimRecord} → MayPay c r → r.attempt_count < 2
  may_attempt (first_attempt quote_id quote decoded checked i p none_yet) = omega (arith, none_yet)
  may_attempt (second_attempt quote u s t a k o count) = count

  with_one : (n : ℕ) {sent : ℕ} → n < 2 → (sent ≡ n) × (n ≤ 2) → (1 + sent ≡ n + 1) × (n + 1 ≤ 2)
  with_one n few before = (omega (arith, before.0), omega (arith, few))

  Step-Accounted : (w v : World) → Step c w v → Accounted w → Accounted v
  unfolding sends
  Step-Accounted w v (moves hash state code) a h =
      rw (attempts-transition hash h state code clock.settled_at w.claims) (a h)
  Step-Accounted w v (pays r found may) a h =
      rw (attempts-mark_attempt h r clock.attempted w.claims found)
        (elim (Bool-cases (str_eq r.quote_hash h)) [
          | inl same ↦
              let here : find h w.claims ≡ some r =
                subst (λ k. find k w.claims ≡ some r) ((eq_iff r.quote_hash h).0 same) found in
              rw same (with_one r.attempt_count (may_attempt may) (rw here at (a h)))
          | inr other ↦ rw other (omega (arith, (a h).0), (a h).1)
        ])
  Step-Accounted w v (reserves hash quote_id client network quote decoded checked) a h =
      rw
        (attempts-reserve h (reservation_of c hash quote_id client network quote decoded)
          clock.reserved w.claims)
        (a h)

  Step-WithinLimits :
      (w v : World)
      → Step c w v
      → WithinLimits config.client_cooldown_seconds config.network_daily_claim_limit
          config.daily_claim_limit w.claims
      → WithinLimits config.client_cooldown_seconds config.network_daily_claim_limit
          config.daily_claim_limit v.claims
  Step-WithinLimits w v (moves hash state code) l =
      transition-WithinLimits hash state code clock.settled_at w.claims l
  Step-WithinLimits w v (pays r found may) l =
      mark_attempt-WithinLimits r.quote_hash clock.attempted w.claims l
  Step-WithinLimits w v (reserves hash quote_id client network quote decoded checked) l =
      reserve-WithinLimits (reservation_of c hash quote_id client network quote decoded)
        clock.reserved w.claims l

  Steps-keep :
      (P : World → Type 0)
      → ((w v : World) → Step c w v → P w → P v)
      → {w v : World} → Steps c w v
      → P w
      → P v
  Steps-keep P step here p = p
  Steps-keep P step (next s t) p = step _ _ t (Steps-keep P step s p)

  module _ (quote_hash quote_id client network : String) (w : World) where
    -- If every claim has on record how many payments were sent for it, two at most, then this still
    -- holds after any claim.
    pub claim_exclusive-Accounted :
        Accounted w → Accounted (claim_exclusive c quote_hash quote_id client network w).1
    claim_exclusive-Accounted a =
        Steps-keep Accounted Step-Accounted
          (claim_exclusive-Steps c quote_hash quote_id client network w) a

    -- A claim keeps the limits of the configuration: the claims of each day, the claims of each
    -- network and day, the rest between two claims of one browser, and one claim for each quote
    -- and payment.
    pub claim_exclusive-WithinLimits :
        WithinLimits config.client_cooldown_seconds config.network_daily_claim_limit
          config.daily_claim_limit w.claims
        → WithinLimits config.client_cooldown_seconds config.network_daily_claim_limit
            config.daily_claim_limit
            (claim_exclusive c quote_hash quote_id client network w).1.claims
    claim_exclusive-WithinLimits l =
        Steps-keep
          (λ v.
            WithinLimits config.client_cooldown_seconds config.network_daily_claim_limit
              config.daily_claim_limit v.claims)
          Step-WithinLimits (claim_exclusive-Steps c quote_hash quote_id client network w) l
