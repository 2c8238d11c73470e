-- ===== src/Faucet/Server/Limits.antt =====
-- The rate table of the faucet: how large it grows, and how many requests of a key pass.
use fibernuts.Common.{
  ℕ, ◌+◌, ◌-◌, ◌≤◌, String, Bool, true, false, none, is_some, List, [], ◌∷◌, ◌≡◌, refl, arith, ltb,
  str_eq, eq_iff, if◌then◌else◌, Bool-cases, inl, inr, ◌&&◌, length, Result, ok, err,
}
use fibernuts.Js.Table.{Table, get, set, delete_where}
use fibernuts.Http.Rate.{RateEntry, next_count, count_request, forget_before}
use fibernuts.Http.Rate.Bounds.{seen, next_count-eq-seen, seen-count_request, seen-forget_before}
use fibernuts.Faucet.Server.{admit}

length-set :
    (k : String) (v : RateEntry) (m : Table RateEntry)
    → length (set k v m) ≡ (if is_some (get k m) then length m else length m + 1)
unfolding set get
length-set k v [] = refl
length-set k v ((j, w) ∷ m) = let rest = length-set k v m in ground arith

length-delete_where :
    (p : RateEntry → Bool) (m : Table RateEntry) → length (delete_where p m) ≤ length m
unfolding delete_where
length-delete_where p [] = omega arith
length-delete_where p ((j, w) ∷ m) = let rest = length-delete_where p m in ground arith

get-delete_where-none :
    (p : RateEntry → Bool) (k : String) (m : Table RateEntry)
    → get k m ≡ none
    → get k (delete_where p m) ≡ none
unfolding get delete_where
get-delete_where-none p k [] e = refl
get-delete_where-none p k ((j, w) ∷ m) e = let rest = get-delete_where-none p k m in ground arith

-- The table never holds more than ten thousand keys, whatever requests come.
admit-le :
    (limit minute : ℕ) (key : String) (rate : Table RateEntry)
    → length rate ≤ 10_000
    → length (admit limit minute key rate).0 ≤ 10_000
unfolding admit count_request forget_before
admit-le limit minute key rate h =
    let trimmed = delete_where (λ (e : RateEntry). ltb e.minute minute) rate in
    ground (
      arith,
      length-delete_where (λ e. ltb e.minute minute) rate,
      length-set key (record { minute = minute; count = next_count minute (get key rate) }) rate,
      length-set key (record { minute = minute; count = next_count minute (get key trimmed) })
          trimmed,
    )

abbrev passes : Result (Unit {0}) → Bool
passes (ok u) = true
passes (err e) = false

-- The requests of one key that pass, among requests of one minute given by their keys.
pub admitted : ℕ → ℕ → String → List String → Table RateEntry → ℕ
admitted limit minute key [] rate = 0
admitted limit minute key (k ∷ ks) rate =
    let (rate', result) = admit limit minute k rate in
    (if passes result && str_eq k key then 1 else 0) + admitted limit minute key ks rate'

-- A request raises what was seen of its own key if it passes, and lowers nothing of this minute.
admit_step :
    (limit minute : ℕ) (key k : String) (rate : Table RateEntry)
    → (if passes (admit limit minute k rate).1 && str_eq k key then 1 else 0) + seen minute key rate
      ≤ seen minute key (admit limit minute k rate).0
unfolding admit
admit_step limit minute key k rate = ground (
  arith,
  seen-forget_before minute key rate,
  seen-count_request minute k key rate,
  seen-count_request minute k key (forget_before minute rate),
)

admit_full :
    (limit minute : ℕ) (k : String) (rate : Table RateEntry)
    → passes (admit limit minute k rate).1 ≡ true
    → seen minute k (admit limit minute k rate).0 ≤ limit
unfolding admit
admit_full limit minute k rate h = ground (
  arith,
  eq_iff k k,
  next_count-eq-seen minute k rate,
  next_count-eq-seen minute k (forget_before minute rate),
  seen-count_request minute k k rate,
  seen-count_request minute k k (forget_before minute rate),
)

-- Within a minute the requests of one key pass at most as often as the limit says, less what the
-- table has counted of them.
pub admitted-le-limit :
    (limit minute : ℕ) (key : String) (ks : List String) (rate : Table RateEntry)
    → admitted limit minute key ks rate ≤ limit - seen minute key rate
unfolding admitted
admitted-le-limit limit minute key [] rate = omega arith
admitted-le-limit limit minute key (k ∷ ks) rate =
    let rest = admitted-le-limit limit minute key ks (admit limit minute k rate).0 in
    let step = admit_step limit minute key k rate in
    elim (Bool-cases (passes (admit limit minute k rate).1 && str_eq k key)) [
      | inr other ↦ rw other (omega (arith, rw other at step))
      | inl passed ↦ rw passed (ground (arith, eq_iff k key, admit_full limit minute k rate))
    ]
