-- ===== src/Faucet/Store/Limits.antt =====
-- The limits of the faucet as an invariant of its table: claims for each day, for each network and
-- day, the rest between two claims of one browser, and one claim for each quote and payment.
use fibernuts.Common.{
  ℕ, ◌+◌, ◌/◌, ◌≤◌, String, Bool, true, false, is_some, Option, none, some, List, [], ◌∷◌, ◌++◌,
  ◌≡◌, ◌≢◌, refl, arith, eq_iff, ◌==◌, ◌&&◌, Bool-cases, inl, inr, All, Result,
}
use fibernuts.Table.{select, update, count}
use fibernuts.Table.Rows.{select-none, count-append, count-update, count-update_le, count_mono}
use fibernuts.Table.Keys.{Pairs, Pairs-append, Pairs-update, Differ}
use fibernuts.Faucet.Protocol.{start_of_utc_day, day_seconds}
use fibernuts.Faucet.Store.{
  ClaimState, ClaimRecord, ReserveClaim, Reservation, column_is, is_quote, is_recent, later, latest,
  created_today, network_today, new_claim, insert_allowed, find, reserve, mark_attempt, transition,
  scrub, attempt_row, transition_row, scrub_row, is_scrubbable,
}
use fibernuts.Faucet.Store.Reserving.{
  Granted, Reserving, refused, on_record, granted, reserve-Reserving,
}

abbrev pub on_day : ℕ → ClaimRecord → Bool
on_day d r = r.created_at / day_seconds == d

abbrev pub network_on_day : String → ℕ → ClaimRecord → Bool
network_on_day n d r = column_is r.network_hash n && on_day d r

-- Two claims of one browser, the earlier one first.
abbrev pub Spaced : ℕ → ClaimRecord → ClaimRecord → Type 0
Spaced cooldown x y =
    (client : String)
    → x.client_hash ≡ some client
    → y.client_hash ≡ some client
    → x.created_at + cooldown ≤ y.created_at

abbrev pub OtherPayment : ClaimRecord → ClaimRecord → Type 0
OtherPayment x y = (hash : String) → x.payment_hash ≡ some hash → y.payment_hash ≢ some hash

pub record WithinLimits (cooldown network_limit daily_limit : ℕ) (rs : List ClaimRecord)
    : Type 0 where
  pub quotes : Pairs (Differ (λ (r : ClaimRecord). r.quote_hash)) rs
  pub payments : Pairs OtherPayment rs
  pub rested : Pairs (Spaced cooldown) rs
  pub each_network : (n : String) (d : ℕ) → count (network_on_day n d) rs ≤ network_limit
  pub each_day : (d : ℕ) → count (on_day d) rs ≤ daily_limit

-- From the last midnight on a claim counts for today.
today_counts :
    (now : ℕ) (r : ClaimRecord) → on_day (now / day_seconds) r ≡ true → created_today now r ≡ true
unfolding start_of_utc_day
today_counts now r h = ground arith

network_today_counts :
    (n : String) (now : ℕ) (r : ClaimRecord)
    → network_on_day n (now / day_seconds) r ≡ true
    → network_today n now r ≡ true
unfolding start_of_utc_day
network_today_counts n now r h = ground arith

latest-none :
    (p : ClaimRecord → Bool) (rs : List ClaimRecord)
    → latest p rs ≡ none
    → All (λ r. p r ≡ false) rs
unfolding latest
latest-none p [] h = tt
latest-none p (r ∷ rs) h = elim (Bool-cases (p r)) [
  | inl e ↦ absurd (not_later r.created_at (latest p rs) (rw (e, latest) at h))
  | inr e ↦ (e, latest-none p rs (rw (e, latest) at h))
]
  where
    not_later : (t : ℕ) (o : Option ℕ) → later t o ≢ none
    not_later t none h = cc
    not_later t (some u) h = cc

-- From a fact of each old row to the relation with the new one.
All-imp :
    (P Q : ClaimRecord → Type 0)
    → ((r : ClaimRecord) → P r → Q r)
    → (rs : List ClaimRecord) → All P rs
    → All Q rs
All-imp P Q f [] h = tt
All-imp P Q f (r ∷ rs) h = (f r h.0, All-imp P Q f rs h.1)

module _ {cooldown network_limit daily_limit : ℕ} where
  WithinLimits-update :
      (q : ClaimRecord → Bool) (f : ClaimRecord → ClaimRecord) (rs : List ClaimRecord)
      → ((r : ClaimRecord) → (f r).quote_hash ≡ r.quote_hash)
      → ((r : ClaimRecord) → (f r).created_at ≡ r.created_at)
      → ((r : ClaimRecord) (h : String) → (f r).payment_hash ≡ some h → r.payment_hash ≡ some h)
      → ((r : ClaimRecord) (h : String) → (f r).client_hash ≡ some h → r.client_hash ≡ some h)
      → ((r : ClaimRecord) (h : String) → (f r).network_hash ≡ some h → r.network_hash ≡ some h)
      → WithinLimits cooldown network_limit daily_limit rs
      → WithinLimits cooldown network_limit daily_limit (update q f rs)
  WithinLimits-update q f rs quote created payment client network w = record {
    quotes = Pairs-update _ q f (λ x y n. rw (quote x) n) (λ x y n. rw (quote y) n) rs w.quotes;
    payments =
        Pairs-update OtherPayment q f (λ x y n h e. n h (payment x h e))
          (λ x y n h e e'. n h e (payment y h e')) rs w.payments;
    rested =
        Pairs-update (Spaced cooldown) q f (λ x y n c e e'. rw (created x) (n c (client x c e) e'))
          (λ x y n c e e'. rw (created y) (n c e (client y c e'))) rs w.rested;
    each_network = λ n d.
        omega (arith, count-update_le (network_on_day n d) q f (lose n d) rs, w.each_network n d);
    each_day =
        λ d. omega (arith, count-update (on_day d) q f (λ r. rw (created r)) rs, w.each_day d);
  }
    where
      column :
          (o o' : Option String) (n : String)
          → ((h : String) → o ≡ some h → o' ≡ some h)
          → column_is o n ≡ true
          → column_is o' n ≡ true
      column none o' n keep h = cc
      column (some t) o' n keep h = rw (keep t refl) h

      lose :
          (n : String) (d : ℕ) (r : ClaimRecord)
          → network_on_day n d (f r) ≡ true
          → network_on_day n d r ≡ true
      lose n d r h =
          rw (column (f r).network_hash r.network_hash n (network r) (ground arith))
            (ground (arith, created r))

  pub mark_attempt-WithinLimits :
      (hash : String) (now : ℕ) (rs : List ClaimRecord)
      → WithinLimits cooldown network_limit daily_limit rs
      → WithinLimits cooldown network_limit daily_limit (mark_attempt hash now rs).1
  unfolding mark_attempt
  mark_attempt-WithinLimits hash now rs w =
      WithinLimits-update (is_quote hash) (attempt_row now) rs (λ r. refl) (λ r. refl) (λ r h e. e)
        (λ r h e. e) (λ r h e. e) w

  pub transition-WithinLimits :
      (hash : String) (state : ClaimState) (code : Option String) (now : ℕ) (rs : List ClaimRecord)
      → WithinLimits cooldown network_limit daily_limit rs
      → WithinLimits cooldown network_limit daily_limit (transition hash state code now rs).1
  unfolding transition
  transition-WithinLimits hash state code now rs w =
      WithinLimits-update (is_quote hash) (transition_row state code now) rs (λ r. refl) (λ r. refl)
        (λ r h e. e) (λ r h e. e) (λ r h e. e) w

  -- Removing the sensitive columns of old claims keeps the table within its limits.
  scrub-WithinLimits :
      (retention now : ℕ) (rs : List ClaimRecord)
      → WithinLimits cooldown network_limit daily_limit rs
      → WithinLimits cooldown network_limit daily_limit (scrub retention now rs).1
  unfolding scrub
  scrub-WithinLimits retention now rs w =
      WithinLimits-update (is_scrubbable retention now) scrub_row rs (λ r. refl) (λ r. refl)
        (λ r h e. cc) (λ r h e. cc) (λ r h e. cc) w

module _ (input : ReserveClaim) (now : ℕ) (rs : List ClaimRecord) (g : Granted input now rs) where
  granted_day :
      (d : ℕ)
      → count (on_day d) rs ≤ input.daily_limit
      → count (on_day d) (rs ++ new_claim input now ∷ []) ≤ input.daily_limit
  granted_day d h =
      rw (count-append (on_day d) rs (new_claim input now))
        (elim (Bool-cases (now / day_seconds == d)) [
          | inl e ↦ rw e (
              let same : now / day_seconds ≡ d = ground arith in
              omega (
                arith,
                g.daily,
                count_mono (on_day d) (created_today now) (λ r k. today_counts now r (rw same k))
                    rs,
              ))
          | inr e ↦ rw e (omega arith)
        ])

  granted_network :
      (n : String) (d : ℕ)
      → count (network_on_day n d) rs ≤ input.network_daily_limit
      → count (network_on_day n d) (rs ++ new_claim input now ∷ []) ≤ input.network_daily_limit
  granted_network n d h =
      rw (count-append (network_on_day n d) rs (new_claim input now))
        (elim (Bool-cases (network_on_day n d (new_claim input now))) [
          | inl e ↦ rw e (
              let same : now / day_seconds ≡ d = ground arith in
              let network : input.network_hash ≡ n = ground (arith, eq_iff input.network_hash n) in
              omega (
                arith,
                g.network,
                count_mono (network_on_day n d) (network_today input.network_hash now)
                    (λ r k. rw network (network_today_counts n now r (rw same k))) rs,
              ))
          | inr e ↦ rw e (omega arith)
        ])

  granted_rested :
      (cooldown : ℕ)
      → input.cooldown_seconds ≡ cooldown
      → All (λ r. Spaced cooldown r (new_claim input now)) rs
  granted_rested cooldown same =
      All-imp (λ r. is_recent input.client_hash input.cooldown_seconds now r ≡ false)
        (λ r. Spaced cooldown r (new_claim input now))
        (λ r old client e e'. ground (arith, eq_iff client input.client_hash)) rs
        (latest-none _ rs g.rested)

  granted_payment : All (λ r. OtherPayment r (new_claim input now)) rs
  unfolding insert_allowed
  granted_payment =
      All-imp (λ r. column_is r.payment_hash input.payment_hash ≡ false)
        (λ r. OtherPayment r (new_claim input now))
        (λ r other hash e e'. ground (arith, eq_iff hash input.payment_hash)) rs
        (select-none (λ r. column_is r.payment_hash input.payment_hash) rs
          (absent (select (λ r. column_is r.payment_hash input.payment_hash) rs)
            (let a = g.allowed in ground arith)))
    where
      absent : (o : Option ClaimRecord) → is_some o ≡ false → o ≡ none
      absent none h = refl
      absent (some r) h = cc

  granted_quote : All (λ r. Differ (λ (r : ClaimRecord). r.quote_hash) r (new_claim input now)) rs
  unfolding find
  granted_quote =
      All-imp (λ r. is_quote input.quote_hash r ≡ false)
        (λ r. Differ (λ (r : ClaimRecord). r.quote_hash) r (new_claim input now))
        (λ r other e. cc (other, (eq_iff r.quote_hash input.quote_hash).1 e)) rs
        (select-none (is_quote input.quote_hash) rs g.fresh)

  granted-WithinLimits :
      WithinLimits input.cooldown_seconds input.network_daily_limit input.daily_limit rs
      → WithinLimits input.cooldown_seconds input.network_daily_limit input.daily_limit
          (rs ++ new_claim input now ∷ [])
  granted-WithinLimits w = record {
    quotes = Pairs-append _ rs (new_claim input now) w.quotes granted_quote;
    payments = Pairs-append OtherPayment rs (new_claim input now) w.payments granted_payment;
    rested =
        Pairs-append (Spaced input.cooldown_seconds) rs (new_claim input now) w.rested
          (granted_rested input.cooldown_seconds refl);
    each_network = λ n d. granted_network n d (w.each_network n d);
    each_day = λ d. granted_day d (w.each_day d);
  }

-- A reservation keeps a table within the limits that it states: claims for each day, claims for
-- each network and day, the rest between two claims of one browser, and one claim for each quote
-- and payment.
pub reserve-WithinLimits :
    (input : ReserveClaim) (now : ℕ) (rs : List ClaimRecord)
    → WithinLimits input.cooldown_seconds input.network_daily_limit input.daily_limit rs
    → WithinLimits input.cooldown_seconds input.network_daily_limit input.daily_limit
        (reserve input now rs).1
reserve-WithinLimits input now rs w = of_reserving (reserve-Reserving input now rs)
  where
    of_reserving :
        {x : Result Reservation × List ClaimRecord}
        → Reserving input now rs x
        → WithinLimits input.cooldown_seconds input.network_daily_limit input.daily_limit x.1
    of_reserving (refused e) = w
    of_reserving (on_record claim e) = w
    of_reserving (granted g) = granted-WithinLimits input now rs g w
