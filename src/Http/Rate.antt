-- ===== src/Http/Rate.antt =====
-- The fixed-window rate table of the two servers: how often a key was seen in its minute.
pub mod Bounds
use fibernuts.Common.{
  ℕ, ◌+◌, String, Bool, true, false, Option, none, some, ltb, ◌==◌, if◌then◌else◌,
}
use fibernuts.Js.Table.{Table, get, set, delete_where}

pub record RateEntry : Type 0 where
  pub minute : ℕ
  pub count : ℕ

-- `current?.minute === minute ? current.count + 1 : 1`.
unfoldable pub next_count : ℕ → Option RateEntry → ℕ
next_count minute none = 1
next_count minute (some current) = if current.minute == minute then current.count + 1 else 1

-- `rate.set(key, { minute, count })` with that count.
unfoldable pub count_request : ℕ → String → Table RateEntry → Table RateEntry
count_request minute key rate =
    set key (record { minute = minute; count = next_count minute (get key rate) }) rate

-- `for (const [key, entry] of rate) if (entry.minute < minute) rate.delete(key)`.
unfoldable pub forget_before : ℕ → Table RateEntry → Table RateEntry
forget_before minute rate = delete_where (λ e. ltb e.minute minute) rate
