-- ===== src/Analytics/Buckets.antt =====
-- The time buckets of packages/analytics/dfip_analytics/trends.py: days, ISO weeks and months, and the
-- loop that lists those of a window. The loop takes the number of days from the first bucket to the last
-- as fuel, and is `none` if that runs out.
pub mod Laws
pub mod Walk
pub mod Listed
use dfip_v.Prelude.{
  ℕ, zero, suc, ◌+◌, ◌-◌, String, Bool, true, false, not, Option, none, some, List, [], ◌∷◌, ◌==◌,
  string_eq, nat_eq, if◌then◌else◌,
}
use mathlib.Core.Option
use dfip_v.Prelude.Dates.{Date, date_ltb}
use dfip_v.Prelude.Calendar.{next_day, previous_day, plus_days, minus_days, weekday, ordinal}
use dfip_v.Transform.Derive.{month_start}

pub data TrendGrain : Type 0 where
  day week month : TrendGrain

unfoldable pub iso_week_start : Date → Date
iso_week_start d = minus_days (weekday d) d

unfoldable pub bucket_start : Date → TrendGrain → Date
bucket_start d day = d
bucket_start d week = iso_week_start d
bucket_start d month = month_start d

-- the step of the loop of `iter_buckets`
unfoldable pub next_bucket : Date → TrendGrain → Date
next_bucket cursor day = next_day cursor
next_bucket cursor week = plus_days 7 cursor
next_bucket cursor month =
    let december = cursor.month == 12 in
    record {
      year = cursor.year + (if december then 1 else 0);
      month = if december then 1 else cursor.month + 1;
      day = 1;
    }

-- what the loop appends from `cursor` on
unfoldable pub walk : ℕ → TrendGrain → Date → Date → Option (List Date)
walk zero grain cursor last = if date_ltb cursor last then none else some []
walk (suc fuel) grain cursor last =
    let next = next_bucket cursor grain in
    let rest = Option.map (λ out. next ∷ out) (walk fuel grain next last) in
    if date_ltb cursor last then rest else some []

unfoldable pub iter_buckets : Date → Date → TrendGrain → Option (List Date)
iter_buckets day_from day_to_exclusive grain =
    let first = bucket_start day_from grain in
    let last = bucket_start (previous_day day_to_exclusive) grain in
    let rest = walk (ordinal last - ordinal first) grain first last in
    if not (date_ltb day_from day_to_exclusive)
    then some []
    else Option.map (λ out. first ∷ out) rest
