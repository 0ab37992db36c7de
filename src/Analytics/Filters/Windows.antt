-- ===== src/Analytics/Filters/Windows.antt =====
-- The window that `resolve_period` of packages/analytics/dfip_analytics/filters.py chooses.
use dfip_v.Prelude.{
  ◌≡◌, ◌⊎◌, refl, sym, ◌∙◌, inl, inr, Bool, true, false, not, Option, none, some, List, [], ◌∷◌,
  ◌==◌, ◌&&◌, All, any, arith, beq_refl, Bool-cases, is_some, if◌then◌else◌,
}
use mathlib.Core.Path.{subst}
use mathlib.Core.Option.{some-injective}
use dfip_v.Prelude.Dates.{Date, date_eq, date_ltb, date_ltb_irrefl}
use dfip_v.Prelude.Calendar.{next_day}
use dfip_v.Prelude.Result.{Result, ok, err}
use dfip_v.Transform.Derive.{month_start}
use dfip_v.Analytics.Filters.{
  range, FilterError, PeriodWindow, month_window, range_window, clip, sorted_months, last,
  PeriodChoice, unset, by_month, by_range, everything, unknown, period_choice, with_grain, range_of,
  month_of, latest_from, PeriodRequest, selected_or, has_range, resolve_choice, is_nil,
  resolve_period,
}
use dfip_v.Analytics.Filters.Sorted.{
  all_has, date_ltb_asym, has, IsAscending, sorted_months-IsAscending, has-sorted_months,
  of_sorted_months-All,
}

-- a range of days that ends with `final`, is not empty and lies between `lo` and `hi`
abbrev pub IsWithin : Date → Date → PeriodWindow → Date → Type 0
IsWithin lo hi w final =
    (w.day_to_exclusive ≡ next_day final)
    × (date_ltb w.day_from lo ≡ false)
    × (date_ltb final w.day_from ≡ false)
    × (date_ltb hi final ≡ false)

-- What a request may give: the latest published month, the published month that it names, or a range
-- of days within the published ones. Only the first may count as the default.
abbrev pub IsPublished : List Date → Date → Date → PeriodRequest → PeriodWindow × Bool → Type 0
IsPublished months lo hi r (w, is_default) =
    ((m : Date) × (has m months ≡ true)
      × All (λ e. date_ltb m e ≡ false) months
      × (w ≡ month_window m))
    ⊎ ((m : Date) × (r.selected_month ≡ some m)
        × (has m months ≡ true)
        × (w ≡ month_window m)
        × (is_default ≡ false))
    ⊎ ((final : Date) × IsWithin lo hi w final × (is_default ≡ false))

last_of_ascending :
    (ds : List Date) (m : Date)
    → IsAscending ds
    → last ds ≡ some m
    → (has m ds ≡ true) × All (λ e. date_ltb m e ≡ false) ds
unfolding any
last_of_ascending [] m asc h = absurd cc
last_of_ascending (d ∷ []) m asc h =
    let same : d ≡ m = some-injective _ _ h in rw (same, beq_refl m) (refl, (date_ltb_irrefl m, tt))
last_of_ascending (d ∷ e ∷ ds) m asc h =
    let ih = last_of_ascending (e ∷ ds) m asc.1 h in
    let before : date_ltb d m ≡ true = all_has (λ x. date_ltb d x ≡ true) m (e ∷ ds) asc.0 ih.0 in
    (rw ih.0 (ground arith), (date_ltb_asym d m before, ih.1))

clip_lo : (v lo hi : Date) → date_ltb hi lo ≡ false → date_ltb (clip v lo hi) lo ≡ false
unfolding clip date_ltb
clip_lo v lo hi h = ground arith

clip_hi : (v lo hi : Date) → date_ltb hi lo ≡ false → date_ltb hi (clip v lo hi) ≡ false
unfolding clip date_ltb
clip_hi v lo hi h = ground arith

module _ (months : List Date) (lo hi : Date) (r : PeriodRequest) where
  abbrev Good : Result FilterError (PeriodWindow × Bool) → Type 0
  Good (err e) = Unit
  Good (ok result) = IsPublished months lo hi r result

  latest_from-Good :
      (is_default : Bool) (o : Option Date)
      → last (sorted_months months) ≡ o
      → Good (latest_from o is_default)
  latest_from-Good is_default none e = tt
  latest_from-Good is_default (some m) e =
      let (found, top) =
        last_of_ascending (sorted_months months) m (sorted_months-IsAscending months) e in
      inl (
        m,
        sym (has-sorted_months m months) ∙ found,
        of_sorted_months-All (λ x. date_ltb m x ≡ false) months top,
        refl,
      )

  month_of-Good : (m : Date) → r.selected_month ≡ some m → Good (month_of (sorted_months months) m)
  month_of-Good m e = elim (Bool-cases (month_start m == m)) [
    | inr later ↦ rw later tt
    | inl first ↦ elim (Bool-cases (has m (sorted_months months))) [
      | inr missing ↦ rw (first, missing) tt
      | inl found ↦
          rw (first, found) (inr (inl (m, e, sym (has-sorted_months m months) ∙ found, refl, refl)))
    ]
  ]

  widened-IsPublished :
      (as_range : Bool) (w : PeriodWindow) (final : Date)
      → IsWithin lo hi w final
      → IsPublished months lo hi r (if as_range then with_grain range w else w, false)
  widened-IsPublished true w final h = inr (inr (final, h, refl))
  widened-IsPublished false w final h = inr (inr (final, h, refl))

  range_of-Good :
      (as_range : Bool) (day_from day_to : Option Date)
      → date_ltb hi lo ≡ false
      → Good (range_of as_range lo hi day_from day_to)
  unfolding range_window
  range_of-Good as_range none day_to h = tt
  range_of-Good as_range (some from) none h = tt
  range_of-Good as_range (some from) (some to) h =
      let a = clip from lo hi in
      let b = clip to lo hi in
      elim (Bool-cases (date_ltb b a)) [
        | inl bad ↦ rw bad tt
        | inr fine ↦ rw fine (
            widened-IsPublished as_range _ b (refl, clip_lo from lo hi h, fine, clip_hi to lo hi h))
      ]

  selected_or-Good :
      (is_default : Bool) (o : Option Date)
      → r.selected_month ≡ o
      → Good (selected_or o (sorted_months months) is_default)
  selected_or-Good is_default none e =
      latest_from-Good is_default (last (sorted_months months)) refl
  selected_or-Good is_default (some m) e = month_of-Good m e

  resolve_choice-Good :
      (choice : PeriodChoice)
      → date_ltb hi lo ≡ false
      → Good (resolve_choice choice (sorted_months months) lo hi r)
  resolve_choice-Good unknown h = tt
  resolve_choice-Good everything h =
      inr (inr (hi, (refl, date_ltb_irrefl lo, h, date_ltb_irrefl hi), refl))
  resolve_choice-Good by_range h = range_of-Good true r.day_from r.day_to h
  resolve_choice-Good by_month h = selected_or-Good false r.selected_month refl
  resolve_choice-Good unset h = elim (Bool-cases (has_range r)) [
    | inl e ↦ rw e (range_of-Good false r.day_from r.day_to h)
    | inr e ↦ rw e (
        selected_or-Good (not (is_some r.day_from) && not (is_some r.day_to)) r.selected_month refl)
  ]

-- A period that is resolved within published days from `lo` to `hi` is one of three: the latest published
-- month; the published month that the request names; or a range of days that is not empty, starts at
-- `lo` or later and ends at `hi` or earlier, whatever days the request asks for. Only the first may be
-- reported as the default.
pub resolve_period-IsPublished :
    (months : List Date) (lo hi : Date) (r : PeriodRequest) (w : PeriodWindow) (is_default : Bool)
    → date_ltb hi lo ≡ false
    → resolve_period months (some lo) (some hi) r ≡ ok (w, is_default)
    → IsPublished months lo hi r (w, is_default)
unfolding resolve_period
resolve_period-IsPublished months lo hi r w is_default h e =
    elim (Bool-cases (is_nil (sorted_months months))) [
      | inl nothing ↦ let e' = rw nothing at e in absurd cc
      | inr full ↦
          let e' = rw full at e in
          subst (Good months lo hi r) e'
            (resolve_choice-Good months lo hi r (period_choice r.period) h)
    ]
