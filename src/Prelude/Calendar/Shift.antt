-- ===== src/Prelude/Calendar/Shift.antt =====
-- Adding and subtracting days, by their day numbers.
use dfip_v.Prelude.Tests.{ltb, Bool-cases}
use dfip_v.Prelude.Dates.{Date, date_ltb}
use dfip_v.Prelude.Calendar.{
  days_in_month, days_before_year, days_before_month, ordinal, next_day, previous_day, plus_days,
  minus_days, IsDate,
}
use dfip_v.Prelude.Calendar.Order.{
  ordinal-next_day, next_day-IsDate, ordinal-lt, days_in_month_cases,
}
use Prim.Native.Nat.{ℕ, zero, suc, ◌+◌, ◌-◌, ◌≤◌, ◌<◌}
use mathlib.Core.Path.{◌≡◌, refl, sym, ap, ◌∙◌}
use mathlib.Core.Logic.{inl, inr}
use mathlib.Core.Bool.{false}
use native.Mathlib.Omega.{arith}

-- Dates are ordered as their day numbers are, and are equal when these are.
pub date_ltb-ordinal :
    (a b : Date) → IsDate a → IsDate b → date_ltb a b ≡ ltb (ordinal a) (ordinal b)
date_ltb-ordinal a b va vb = elim (Bool-cases (date_ltb a b)) [
  | inl e ↦ rw e (ground (arith, ordinal-lt a b va vb e))
  | inr e ↦ elim (Bool-cases (date_ltb b a)) [
    | inl f ↦ rw e (ground (arith, ordinal-lt b a vb va f))
    | inr f ↦ let same : a ≡ b = unfold date_ltb in ground arith in rw (e, same) (ground arith)
  ]
]

pub ordinal-injective : (a b : Date) → IsDate a → IsDate b → ordinal a ≡ ordinal b → a ≡ b
ordinal-injective a b va vb h =
    let e : date_ltb a b ≡ false = rw (date_ltb-ordinal a b va vb, h) (ground arith) in
    let f : date_ltb b a ≡ false = rw (date_ltb-ordinal b a vb va, h) (ground arith) in
    unfold date_ltb in ground arith

pub previous_day-IsDate : (d : Date) → IsDate d → 1 < ordinal d → IsDate (previous_day d)
unfolding previous_day ordinal
previous_day-IsDate d v later =
    let december : days_in_month (d.year - 1) 12 ≡ 31 = unfold days_in_month in refl in
    let first : days_before_month d.year 1 ≡ 0 =
      unfold days_before_month in unfold days_in_month in refl in
    let origin : days_before_year 1 ≡ 0 = unfold days_before_year in refl in
    ground (arith, december, first, origin, days_in_month_cases d.year (d.month - 1))

next-previous_day : (d : Date) → IsDate d → 1 < ordinal d → next_day (previous_day d) ≡ d
unfolding next_day previous_day ordinal
next-previous_day d v later =
    let december : days_in_month (d.year - 1) 12 ≡ 31 = unfold days_in_month in refl in
    let first : days_before_month d.year 1 ≡ 0 =
      unfold days_before_month in unfold days_in_month in refl in
    let origin : days_before_year 1 ≡ 0 = unfold days_before_year in refl in
    ground (arith, december, first, origin, days_in_month_cases d.year (d.month - 1))

pub ordinal-previous_day :
    (d : Date) → IsDate d → 1 < ordinal d → ordinal (previous_day d) + 1 ≡ ordinal d
ordinal-previous_day d v later =
    sym (ordinal-next_day (previous_day d) (previous_day-IsDate d v later))
    ∙ ap ordinal (next-previous_day d v later)

pub plus_days-IsDate : (n : ℕ) (d : Date) → IsDate d → IsDate (plus_days n d)
unfolding plus_days
plus_days-IsDate zero d v = v
plus_days-IsDate (suc n) d v = plus_days-IsDate n (next_day d) (next_day-IsDate d v)

pub ordinal-plus_days : (n : ℕ) (d : Date) → IsDate d → ordinal (plus_days n d) ≡ ordinal d + n
unfolding plus_days
ordinal-plus_days zero d v = omega arith
ordinal-plus_days (suc n) d v =
    omega (arith, ordinal-plus_days n (next_day d) (next_day-IsDate d v), ordinal-next_day d v)

pub minus_days-IsDate : (n : ℕ) (d : Date) → IsDate d → n < ordinal d → IsDate (minus_days n d)
unfolding minus_days
minus_days-IsDate zero d v h = v
minus_days-IsDate (suc n) d v h =
    minus_days-IsDate n (previous_day d) (previous_day-IsDate d v (omega arith))
      (omega (arith, ordinal-previous_day d v (omega arith)))

pub ordinal-minus_days :
    (n : ℕ) (d : Date) → IsDate d → n < ordinal d → ordinal (minus_days n d) + n ≡ ordinal d
unfolding minus_days
ordinal-minus_days zero d v h = omega arith
ordinal-minus_days (suc n) d v h =
    let p = ordinal-previous_day d v (omega arith) in
    omega (
      arith,
      p,
      ordinal-minus_days n (previous_day d) (previous_day-IsDate d v (omega arith))
          (omega (arith, p)),
    )

pub ordinal_pos : (d : Date) → IsDate d → 1 ≤ ordinal d
unfolding ordinal
ordinal_pos d v = omega (arith, v.day_ge)
