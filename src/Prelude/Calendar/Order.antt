-- ===== src/Prelude/Calendar/Order.antt =====
-- `toordinal` counts the days: it grows by one from a day to the next, and orders the dates.
use dfip_v.Prelude.Tests.{if◌then◌else◌, ltb, nat_beq, Bool-cases}
use dfip_v.Prelude.Dates.{Date, date_ltb}
use dfip_v.Prelude.Calendar.{
  is_leap, days_in_month, days_before_year, days_before_month, ordinal, next_day, IsDate,
}
use Prim.Native.Nat.{ℕ, zero, suc, ◌+◌, ◌-◌, ◌≤◌, ◌<◌}
use mathlib.Core.Path.{◌≡◌, refl}
use mathlib.Core.Logic.{inl, inr}
use mathlib.Core.Bool.{true}
use native.Mathlib.Omega.{arith}

abbrev pub year_length : ℕ → ℕ
year_length y = if is_leap y then 366 else 365

days_before_year-next :
    (y : ℕ) → 1 ≤ y → days_before_year (y + 1) ≡ days_before_year y + year_length y
unfolding days_before_year is_leap
days_before_year-next y h = ground arith

days_before_month-full : (y : ℕ) → days_before_month y 12 + 31 ≡ year_length y
unfolding days_before_month days_in_month
days_before_month-full y = ground arith

pub days_in_month_cases : (y m : ℕ) → 1 ≤ m → (28 ≤ days_in_month y m) × (days_in_month y m ≤ 31)
unfolding days_in_month
days_in_month_cases y m h = ground arith

days_before_month-suc :
    (y m : ℕ) → days_before_month y (m + 1) ≡ days_before_month y m + days_in_month y m
unfolding days_before_month
days_before_month-suc y m = let e : m + 1 ≡ suc m = omega arith in rw e refl

pub ordinal-next_day : (d : Date) → IsDate d → ordinal (next_day d) ≡ ordinal d + 1
unfolding ordinal next_day
ordinal-next_day d v = elim (Bool-cases (ltb d.day (days_in_month d.year d.month))) [
  | inl e ↦ rw e (omega arith)
  | inr e ↦ elim (Bool-cases (nat_beq d.month 12)) [
    | inl december ↦
        let m : d.month ≡ 12 = ground arith in
        let full : days_in_month d.year 12 ≡ 31 = unfold days_in_month in refl in
        let first : days_before_month (d.year + 1) 1 ≡ 0 =
          unfold days_before_month in unfold days_in_month in refl in
        rw (e, december)
          (ground (
            arith,
            m,
            full,
            first,
            days_before_month-full d.year,
            days_before_year-next d.year v.year_ge,
          ))
    | inr other ↦ rw (e, other) (ground (arith, days_before_month-suc d.year d.month))
  ]
]

pub next_day-IsDate : (d : Date) → IsDate d → IsDate (next_day d)
unfolding next_day
next_day-IsDate d v =
    let january : days_in_month (d.year + 1) 1 ≡ 31 = unfold days_in_month in refl in
    ground
      (arith, january, days_in_month_cases d.year (d.month + 1), days_in_month_cases d.year d.month)

days_before_month_mono :
    (y m k : ℕ) → m < k → days_before_month y m + days_in_month y m ≤ days_before_month y k
unfolding days_before_month
days_before_month_mono y m zero h = absurd (omega arith)
days_before_month_mono y m (suc k) h = elim (Bool-cases (nat_beq m k)) [
  | inl e ↦ let same : m ≡ k = ground arith in rw same (omega arith)
  | inr e ↦ omega (arith, days_before_month_mono y m k (ground arith))
]

days_before_year_mono :
    (y k z : ℕ) → 1 ≤ y → z ≡ y + 1 + k → days_before_year y + year_length y ≤ days_before_year z
days_before_year_mono y zero z h e = rw e (ground (arith, days_before_year-next y h))
days_before_year_mono y (suc k) z h e =
    let w : z ≡ y + 1 + k + 1 = omega arith in
    rw w (
      omega (
        arith,
        days_before_year_mono y k (y + 1 + k) h refl,
        days_before_year-next (y + 1 + k) (omega arith),
      ))

-- the day of the year is at most its length
day_of_year-le :
    (d : Date) → IsDate d → days_before_month d.year d.month + d.day ≤ year_length d.year
day_of_year-le d v = elim (Bool-cases (nat_beq d.month 12)) [
  | inl e ↦
      let m : d.month ≡ 12 = ground arith in
      let full : days_in_month d.year 12 ≡ 31 = unfold days_in_month in refl in
      ground (arith, m, full, days_before_month-full d.year)
  | inr e ↦ omega (
    arith,
    days_before_month_mono d.year d.month 12 (ground arith),
    days_before_month-full d.year,
    v.day_le,
  )
]

pub ordinal-lt : (a b : Date) → IsDate a → IsDate b → date_ltb a b ≡ true → ordinal a < ordinal b
unfolding date_ltb ordinal
ordinal-lt a b va vb h = elim (Bool-cases (nat_beq a.year b.year)) [
  | inl ye ↦
      let y : a.year ≡ b.year = ground arith in
      let h1 = rw ye at h in
      elim (Bool-cases (nat_beq a.month b.month)) [
        | inl me ↦
            let m : a.month ≡ b.month = ground arith in
            let h2 = rw me at h1 in rw (y, m) (ground arith)
        | inr me ↦
            let h2 = rw me at h1 in
            let before = days_before_month_mono a.year a.month b.month (ground arith) in
            rw (← y) (omega (arith, before, va.day_le, vb.day_ge))
      ]
  | inr ye ↦
      let h1 = rw ye at h in
      let lt : a.year < b.year = ground arith in
      omega (
        arith,
        days_before_year_mono a.year (b.year - a.year - 1) b.year va.year_ge (omega arith),
        day_of_year-le a va,
        vb.day_ge,
      )
]
