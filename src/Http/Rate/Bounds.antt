-- ===== src/Http/Rate/Bounds.antt =====
-- How the rate table counts a key's requests within a minute.
use fibernuts.Common.{
  ℕ, ◌+◌, ◌≤◌, String, Option, none, some, ◌≡◌, arith, ltb, ◌==◌, str_eq, eq_iff, if◌then◌else◌,
  Option-cases, Bool-cases, inl, inr,
}
use fibernuts.Js.Table.{Table, get, get-set, get-delete_where}
use fibernuts.Http.Rate.{RateEntry, next_count, count_request, forget_before}

-- The requests of a minute that an entry stands for.
abbrev pub seen_in : ℕ → Option RateEntry → ℕ
seen_in minute none = 0
seen_in minute (some e) = if e.minute == minute then e.count else 0

pub seen : ℕ → String → Table RateEntry → ℕ
seen minute key rate = seen_in minute (get key rate)

pub next_count-eq-seen :
    (minute : ℕ) (key : String) (rate : Table RateEntry)
    → next_count minute (get key rate) ≡ seen minute key rate + 1
unfolding next_count seen
next_count-eq-seen minute key rate = ground arith

-- Counting a request adds one to its own key and nothing to the others.
pub seen-count_request :
    (minute : ℕ) (key k : String) (rate : Table RateEntry)
    → seen minute k (count_request minute key rate)
      ≡ (if str_eq key k then seen minute k rate + 1 else seen minute k rate)
unfolding seen count_request next_count
seen-count_request minute key k rate = ground (
  arith,
  eq_iff key k,
  get-set key k (record { minute = minute; count = next_count minute (get key rate) }) rate,
)

-- Trimming forgets nothing of the current minute.
pub seen-forget_before :
    (minute : ℕ) (k : String) (rate : Table RateEntry)
    → seen minute k rate ≤ seen minute k (forget_before minute rate)
unfolding seen forget_before
seen-forget_before minute k rate = elim (Option-cases (get k rate)) [
  | inl e ↦ rw e (omega arith)
  | inr (entry, e) ↦ elim (Bool-cases (ltb entry.minute minute)) [
    | inl old ↦ rw e (ground arith)
    | inr current ↦
        rw (e, get-delete_where (λ x. ltb x.minute minute) k rate e current) (omega arith)
  ]
]
