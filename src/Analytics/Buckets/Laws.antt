-- ===== src/Analytics/Buckets/Laws.antt =====
-- What makes days, weeks and months buckets: every day lies in one, and they follow one another without
-- a gap.
use dfip_v.Prelude.{◌+◌, ◌%◌, ◌≤◌, ◌<◌, ◌≡◌, refl, sym, ap, ◌∙◌, true, false, arith, nat_eq, ltb}
use mathlib.Core.Path.{subst}
use dfip_v.Prelude.Dates.{Date, date_ltb}
use dfip_v.Prelude.Calendar.{IsDate, ordinal, weekday, plus_days, minus_days}
use dfip_v.Prelude.Calendar.Order.{
  ordinal-next_day, next_day-IsDate, ordinal-lt, days_in_month_cases,
}
use dfip_v.Prelude.Calendar.Shift.{
  date_ltb-ordinal, ordinal-injective, ordinal-plus_days, plus_days-IsDate, ordinal-minus_days,
  minus_days-IsDate,
}
use dfip_v.Transform.Derive.{month_start}
use dfip_v.Analytics.Buckets.{
  TrendGrain, day, week, month, bucket_start, next_bucket, iso_week_start,
}

-- a date with a whole month and week before it: one from 7 February of year 1 on
abbrev pub IsDay : Date → Type 0
IsDay d = IsDate d × (37 < ordinal d)

abbrev pub IsBucket : TrendGrain → Date → Type 0
IsBucket g c = IsDate c × (6 < ordinal c) × (bucket_start c g ≡ c)

pub record IsBucketing (g : TrendGrain) : Type 0 where
  pub start : (d : Date) → IsDay d → IsBucket g (bucket_start d g)
  pub starts_by : (d : Date) → IsDay d → ordinal (bucket_start d g) ≤ ordinal d
  pub next : (c : Date) → IsBucket g c → IsBucket g (next_bucket c g)
  pub grows : (c : Date) → IsBucket g c → ordinal c < ordinal (next_bucket c g)
  pub ends_after : (d : Date) → IsDay d → ordinal d < ordinal (next_bucket (bucket_start d g) g)
  pub within :
      (c d : Date)
      → IsBucket g c
      → IsDay d
      → ordinal c ≤ ordinal d
      → ordinal d < ordinal (next_bucket c g)
      → bucket_start d g ≡ c
  pub not_before :
      (c d : Date)
      → IsBucket g c
      → IsDay d
      → ordinal c ≤ ordinal d
      → ordinal c ≤ ordinal (bucket_start d g)

pub day-IsBucketing : IsBucketing day
unfolding bucket_start next_bucket
day-IsBucketing = record {
  start = λ d v. (v.0, omega (arith, v.1), refl);
  starts_by = λ d v. omega arith;
  next = λ c v. (next_day-IsDate c v.0, omega (arith, v.1, ordinal-next_day c v.0), refl);
  grows = λ c v. omega (arith, ordinal-next_day c v.0);
  ends_after = λ d v. omega (arith, ordinal-next_day d v.0);
  within = λ c d b v le lt.
      ordinal-injective d c v.0 b.0 (omega (arith, le, lt, ordinal-next_day c b.0));
  not_before = λ c d b v le. le;
}

weekday-lt : (d : Date) → weekday d < 7
unfolding weekday
weekday-lt d = omega arith

ordinal-iso_week_start :
    (d : Date)
    → IsDate d
    → 6 < ordinal d
    → ordinal (iso_week_start d) + (ordinal d + 6) % 7 ≡ ordinal d
unfolding iso_week_start weekday
ordinal-iso_week_start d v h = ordinal-minus_days ((ordinal d + 6) % 7) d v (omega (arith, h))

iso_week_start-IsDate : (d : Date) → IsDate d → 6 < ordinal d → IsDate (iso_week_start d)
unfolding iso_week_start
iso_week_start-IsDate d v h = minus_days-IsDate (weekday d) d v (omega (arith, h, weekday-lt d))

-- A day is the start of its week exactly if it is a Monday.
monday : (c : Date) → (ordinal c + 6) % 7 ≡ 0 → iso_week_start c ≡ c
unfolding iso_week_start weekday minus_days
monday c h = rw h refl

of_monday : (c : Date) → IsBucket week c → (ordinal c + 6) % 7 ≡ 0
unfolding bucket_start
of_monday c (v, h, e) = omega (arith, ordinal-iso_week_start c v h, ap ordinal e)

pub week-IsBucketing : IsBucketing week
unfolding bucket_start next_bucket
week-IsBucketing = record {
  start = λ d v.
      let o = ordinal-iso_week_start d v.0 (omega (arith, v.1)) in
      (
        iso_week_start-IsDate d v.0 (omega (arith, v.1)),
        omega (arith, o, v.1),
        monday (iso_week_start d) (omega (arith, o)),
      );
  starts_by = λ d v. omega (arith, ordinal-iso_week_start d v.0 (omega (arith, v.1)));
  next = λ c b.
      let o = ordinal-plus_days 7 c b.0 in
      (
        plus_days-IsDate 7 c b.0,
        omega (arith, o, b.1),
        monday (plus_days 7 c) (omega (arith, o, of_monday c b)),
      );
  grows = λ c b. omega (arith, ordinal-plus_days 7 c b.0);
  ends_after = λ d v.
      let later : 6 < ordinal d = omega (arith, v.1) in
      omega (
        arith,
        ordinal-plus_days 7 (iso_week_start d) (iso_week_start-IsDate d v.0 later),
        ordinal-iso_week_start d v.0 later,
      );
  within = λ c d b v le lt.
      let later : 6 < ordinal d = omega (arith, v.1) in
      ordinal-injective (iso_week_start d) c (iso_week_start-IsDate d v.0 later) b.0 (
        omega (
          arith,
          le,
          lt,
          ordinal-iso_week_start d v.0 later,
          of_monday c b,
          ordinal-plus_days 7 c b.0,
        ));
  not_before = λ c d b v le.
      omega (arith, le, ordinal-iso_week_start d v.0 (omega (arith, v.1)), of_monday c b);
}

month_start-IsDate : (d : Date) → IsDate d → IsDate (month_start d)
unfolding month_start
month_start-IsDate d v = ground (arith, days_in_month_cases d.year d.month)

ordinal-month_start : (d : Date) → ordinal (month_start d) + d.day ≡ ordinal d + 1
unfolding ordinal month_start
ordinal-month_start d = omega arith

next_month-IsDate : (c : Date) → IsDate c → IsDate (next_bucket c month)
unfolding next_bucket
next_month-IsDate c v = ground (
  arith,
  days_in_month_cases c.year (c.month + 1),
  days_in_month_cases (c.year + 1) 1,
  days_in_month_cases (c.year + 0) (c.month + 1),
)

-- the first of a month comes before the first of the next one, and so does every day of it
month_before : (d : Date) → date_ltb d (next_bucket (month_start d) month) ≡ true
unfolding next_bucket date_ltb month_start
month_before d = ground arith

month_day : (c : Date) → IsBucket month c → c.day ≡ 1
unfolding bucket_start month_start
month_day c b = sym (ap (λ x. x.day) b.2)

month_same :
    (c d : Date)
    → IsDate c
    → IsDate d
    → c.day ≡ 1
    → date_ltb d c ≡ false
    → date_ltb d (next_bucket c month) ≡ true
    → month_start d ≡ c
unfolding date_ltb next_bucket month_start
month_same c d vc vd one ge lt = ground arith

month_not_before :
    (c d : Date) → c.day ≡ 1 → date_ltb d c ≡ false → date_ltb (month_start d) c ≡ false
unfolding date_ltb month_start
month_not_before c d one ge = ground arith

not_before_date : (c d : Date) → IsDate c → IsDate d → ordinal c ≤ ordinal d → date_ltb d c ≡ false
not_before_date c d vc vd le = date_ltb-ordinal d c vd vc ∙ ground arith

before_date : (c d : Date) → IsDate c → IsDate d → ordinal d < ordinal c → date_ltb d c ≡ true
before_date c d vc vd lt = date_ltb-ordinal d c vd vc ∙ ground arith

ordinal_not_before :
    (c d : Date) → IsDate c → IsDate d → date_ltb d c ≡ false → ordinal c ≤ ordinal d
ordinal_not_before c d vc vd h =
    let e : ltb (ordinal d) (ordinal c) ≡ false = sym (date_ltb-ordinal d c vd vc) ∙ h in
    ground arith

month_start-fixed : (d : Date) → d.day ≡ 1 → month_start d ≡ d
unfolding month_start
month_start-fixed d one = ground arith

month_of_first : (d : Date) → (month_start d).day ≡ 1
unfolding month_start
month_of_first d = refl

next_month_first : (c : Date) → (next_bucket c month).day ≡ 1
unfolding next_bucket
next_month_first c = refl

next_month_after : (c : Date) → IsBucket month c → ordinal c < ordinal (next_bucket c month)
next_month_after c b =
    let n = next_month-IsDate c b.0 in
    let h : date_ltb c (next_bucket c month) ≡ true =
      subst (λ x. date_ltb c (next_bucket x month) ≡ true) (month_start-fixed c (month_day c b))
        (month_before c) in
    ordinal-lt c (next_bucket c month) b.0 n h

pub month-IsBucketing : IsBucketing month
unfolding bucket_start
month-IsBucketing = record {
  start = λ d v. (
    month_start-IsDate d v.0,
    omega (
      arith,
      ordinal-month_start d,
      v.1,
      v.0.day_le,
      days_in_month_cases d.year d.month v.0.month_ge,
    ),
    month_start-fixed (month_start d) (month_of_first d),
  );
  starts_by = λ d v. omega (arith, ordinal-month_start d, v.0.day_ge);
  next = λ c b. (
    next_month-IsDate c b.0,
    omega (arith, b.1, next_month_after c b),
    month_start-fixed (next_bucket c month) (next_month_first c),
  );
  grows = next_month_after;
  ends_after = λ d v.
      ordinal-lt d (next_bucket (month_start d) month) v.0
        (next_month-IsDate (month_start d) (month_start-IsDate d v.0)) (month_before d);
  within = λ c d b v le lt.
      month_same c d b.0 v.0 (month_day c b) (not_before_date c d b.0 v.0 le)
        (before_date (next_bucket c month) d (next_month-IsDate c b.0) v.0 lt);
  not_before = λ c d b v le.
      ordinal_not_before c (month_start d) b.0 (month_start-IsDate d v.0)
        (month_not_before c d (month_day c b) (not_before_date c d b.0 v.0 le));
}

pub all-IsBucketing : (g : TrendGrain) → IsBucketing g
all-IsBucketing day = day-IsBucketing
all-IsBucketing week = week-IsBucketing
all-IsBucketing month = month-IsBucketing
