-- ===== src/Analytics/Filters/Comparison.antt =====
-- `resolve_comparison` of packages/analytics/dfip_analytics/filters.py: the period that a report is
-- compared with.
use dfip_v.Prelude.{
  ℕ, zero, suc, String, Bool, not, Option, none, some, List, [], ◌∷◌, ◌==◌, ◌&&◌, ◌||◌, string_eq,
  nat_eq, any, is_some, if◌then◌else◌,
}
use mathlib.Core.Option
use dfip_v.Prelude.Dates.{Date, date_eq}
use dfip_v.Prelude.Result.{Result, ok, err, ◌>>=◌}
use dfip_v.Prelude.Text.{strip, lower, truthy}
use dfip_v.Transform.Derive.{month_start}
use dfip_v.Analytics.Filters.{
  PeriodGrain, month, range, CompareMode, auto, no_comparison, Reason, no_prior,
  comparison_disabled, comparison_not_applicable, FilterError, unknown_compare,
  compare_not_published, same_period, compare_range_incomplete, PeriodWindow, month_window,
  range_window, clip, sorted_months, with_grain,
}

-- `unique.index(selected)`
unfoldable pub index_of : Date → List Date → Option ℕ
index_of d [] = none
index_of d (e ∷ ds) = if e == d then some 0 else Option.map suc (index_of d ds)

unfoldable pub get_elem? : List Date → ℕ → Option Date
get_elem? [] i = none
get_elem? (d ∷ ds) zero = some d
get_elem? (d ∷ ds) (suc i) = get_elem? ds i

-- `unique[index - 1] if index > 0 else None`
abbrev pub entry_before : List Date → Option ℕ → Option Date
entry_before ds none = none
entry_before ds (some zero) = none
entry_before ds (some (suc i)) = get_elem? ds i

-- the second result of `_latest_and_prior`
unfoldable pub prior_month : List Date → Date → Option Date
prior_month months selected =
    let unique = sorted_months months in
    if any (λ m. m == selected) unique then entry_before unique (index_of selected unique) else none

-- The comparison window, if there is one, its mode, and the reason where there is none.
pub record Comparison : Type 0 where
  pub window : Option PeriodWindow
  pub mode : CompareMode
  pub reason : Option Reason

abbrev pub compared_with : PeriodWindow → Comparison
compared_with w = record { window = some w; mode = auto; reason = none }

abbrev pub not_compared : CompareMode → Reason → Comparison
not_compared m r = record { window = none; mode = m; reason = some r }

abbrev pub same_days : PeriodWindow → PeriodWindow → Bool
same_days a b = a.day_from == b.day_from && a.day_to_exclusive == b.day_to_exclusive

abbrev pub unless_same : PeriodWindow → PeriodWindow → Result FilterError Comparison
unless_same current w = if same_days w current then err same_period else ok (compared_with w)

-- the parts of the request
pub record CompareRequest : Type 0 where
  pub compare : Option String
  pub compare_month_start : Option Date
  pub compare_from : Option Date
  pub compare_to : Option Date

abbrev pub compare_month : List Date → PeriodWindow → Date → Result FilterError Comparison
compare_month unique current m =
    if not (month_start m == m) || not (any (λ u. u == m) unique)
    then err compare_not_published
    else unless_same current (month_window m)

abbrev pub compare_range :
    PeriodWindow
    → Option Date
    → Option Date
    → Option Date
    → Option Date
    → Result FilterError Comparison
compare_range current (some from) (some to) (some lo) (some hi) = do
  w ← range_window (clip from lo hi) (clip to lo hi)
  unless_same current (with_grain range w)
compare_range current _ _ _ _ = err compare_range_incomplete

abbrev pub compare_prior : Option Date → Comparison
compare_prior none = not_compared auto no_prior
compare_prior (some m) = compared_with (month_window m)

abbrev pub compare_default : List Date → PeriodGrain → Option Date → Comparison
compare_default months month (some selected) = compare_prior (prior_month months selected)
compare_default months _ _ = not_compared auto comparison_not_applicable

abbrev pub compare_auto :
    List Date
    → PeriodWindow
    → Option Date
    → Option Date
    → CompareRequest
    → Result FilterError Comparison
compare_auto months current lo hi r = elim r.compare_month_start [
  | some m ↦ compare_month (sorted_months months) current m
  | none ↦
      if is_some r.compare_from || is_some r.compare_to
      then compare_range current r.compare_from r.compare_to lo hi
      else ok (compare_default months current.grain current.first_of_month)
]

unfoldable pub resolve_comparison :
    List Date
    → PeriodWindow
    → Option Date
    → Option Date
    → CompareRequest
    → Result FilterError Comparison
resolve_comparison months current lo hi r =
    let mode = lower (strip (truthy r.compare "auto")) in
    if not (mode == "auto" || mode == "none")
    then err unknown_compare
    else if mode == "none"
    then ok (not_compared no_comparison comparison_disabled)
    else compare_auto months current lo hi r
