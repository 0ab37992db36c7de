-- ===== src/Prelude/Calendar.antt =====
-- The proleptic Gregorian calendar of Python's `datetime.date`: days of a month, the day after and the
-- day before, `toordinal` and `weekday`. Years have no upper bound here; Python's end at 9999.
pub mod Order
pub mod Shift
use dfip_v.Prelude.Tests.{if◌then◌else◌, ltb, leb, nat_beq}
use dfip_v.Prelude.Dates.{Date}
use Prim.Native.Nat.{ℕ, zero, suc, ◌+◌, ◌-◌, ◌*◌, ◌/◌, ◌%◌, ◌≤◌}
use mathlib.Core.Path.{◌≡◌, refl}
use mathlib.Core.Bool.{Bool, true, false, not, ◌&&◌, ◌||◌}
use native.Mathlib.Omega.{arith}

unfoldable pub is_leap : ℕ → Bool
is_leap y = nat_beq (y % 4) 0 && (not (nat_beq (y % 100) 0) || nat_beq (y % 400) 0)

unfoldable pub days_in_month : ℕ → ℕ → ℕ
unfolding is_leap
days_in_month y m =
    if nat_beq m 0
    then 0
    else if nat_beq m 2
    then (if is_leap y then 29 else 28)
    else if nat_beq m 4 || (nat_beq m 6 || (nat_beq m 9 || nat_beq m 11))
    then 30
    else 31

unfoldable pub days_before_year : ℕ → ℕ
days_before_year y = let p = y - 1 in p * 365 + p / 4 - p / 100 + p / 400

-- the days of the months before month `m`
unfoldable pub days_before_month : ℕ → ℕ → ℕ
days_before_month y zero = 0
days_before_month y (suc m) = days_before_month y m + days_in_month y m

-- `d.toordinal()`
unfoldable pub ordinal : Date → ℕ
ordinal d = days_before_year d.year + days_before_month d.year d.month + d.day

-- `d.weekday()`, where Monday is 0
unfoldable pub weekday : Date → ℕ
weekday d = (ordinal d + 6) % 7

-- `d + timedelta(days=1)` and `d - timedelta(days=1)`
unfoldable pub next_day : Date → Date
next_day d =
    if ltb d.day (days_in_month d.year d.month)
    then record d { day = d.day + 1 }
    else if nat_beq d.month 12
    then record { year = d.year + 1; month = 1; day = 1 }
    else record { year = d.year; month = d.month + 1; day = 1 }

unfoldable pub previous_day : Date → Date
previous_day d =
    if ltb 1 d.day
    then record d { day = d.day - 1 }
    else if nat_beq d.month 1
    then record { year = d.year - 1; month = 12; day = 31 }
    else record { year = d.year; month = d.month - 1; day = days_in_month d.year (d.month - 1) }

-- `d + timedelta(days=n)` and `d - timedelta(days=n)`
unfoldable pub plus_days : ℕ → Date → Date
plus_days zero d = d
plus_days (suc n) d = plus_days n (next_day d)

unfoldable pub minus_days : ℕ → Date → Date
minus_days zero d = d
minus_days (suc n) d = minus_days n (previous_day d)

-- what every `date` is
pub record IsDate (d : Date) : Type 0 where
  pub year_ge : 1 ≤ d.year
  pub month_ge : 1 ≤ d.month
  pub month_le : d.month ≤ 12
  pub day_ge : 1 ≤ d.day
  pub day_le : d.day ≤ days_in_month d.year d.month

weekday_runs : weekday (record { year = 2026; month = 11; day = 26 }) ≡ 3
unfolding weekday ordinal days_before_year days_before_month days_in_month
weekday_runs = refl
