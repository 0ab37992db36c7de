-- ===== src/Tests/Analytics.antt =====
-- Runs of packages/analytics/dfip_analytics: KPIs, aggregates, comparisons and time buckets.
use dfip_v.Prelude.{
  ℕ, ◌≤◌, ◌≡◌, refl, false, Option, none, some, List, [], ◌∷◌, ◌==◌, string_eq, All, filter, any,
  length, map, if◌then◌else◌, arith,
}
use dfip_v.Prelude.Dates.{Date, date_ltb}
use dfip_v.Prelude.Sort.{sort, insert_sorted}
use dfip_v.Prelude.Int.{pos}
use dfip_v.Prelude.Decimal.{of_int}
use dfip_v.Prelude.Result.{ok}
use dfip_v.Prelude.Text.{strip, lower}
use dfip_v.Prelude.Calendar.{
  next_day, IsDate, days_in_month, days_before_month, days_before_year, is_leap, ordinal,
}
use dfip_v.Transform.Derive.{month_start, month_label}
use dfip_v.Transform.Fact.{FactRecord}
use dfip_v.Analytics.Kpis.{Measure, delivered, unique_clicks, Measures}
use dfip_v.Analytics.Kpis.Formulas.{HasEntries, formulas, compute_kpis_lem}
use dfip_v.Analytics.Grains.{Grain, campaign, GrainKey, grain_key, grain_key_eq}
use dfip_v.Analytics.Aggregate.{aggregate_facts, sum_values, sum_measure}
use dfip_v.Analytics.Aggregate.Rollup.{aggregate_facts-rollup}
use dfip_v.Analytics.Aggregate.Groups.{facts_of, aggregate_facts_lem}
use dfip_v.Analytics.Filters.{
  PeriodWindow, PeriodRequest, range, month_window, range_window, resolve_period, period_choice,
  clip, sorted_months,
}
use dfip_v.Analytics.Filters.Windows.{IsPublished, resolve_period-IsPublished}
use dfip_v.Analytics.Filters.Comparison.{resolve_comparison, compare_prior}
use dfip_v.Analytics.Filters.Months.{IsPrior, default_comparison, resolve_comparison-IsPrior}
use dfip_v.Analytics.Buckets.{week, iter_buckets}
use dfip_v.Analytics.Buckets.Laws.{IsDay}
use dfip_v.Analytics.Buckets.Listed.{IsListing, iter_buckets_lem}
use dfip_v.Tests.Facts.{old, new}

-- 200 delivered, 7 clicks and nothing else
abbrev clicks : Measures
clicks delivered = some (of_int (pos 200))
clicks unique_clicks = some (of_int (pos 7))
clicks _ = none

compute_kpis_lem_example : HasEntries (formulas clicks) clicks
compute_kpis_lem_example = compute_kpis_lem clicks

-- two facts of one campaign and day, and another of the day
abbrev facts : List FactRecord
facts = old ∷ new ∷ record old { campaign_id = "k2" } ∷ []

abbrev by_campaign : Grain
by_campaign = campaign

aggregate_facts-rollup_example :
    sum_values (map (λ row. row.measures delivered) (aggregate_facts facts by_campaign none))
    ≡ sum_measure facts delivered
aggregate_facts-rollup_example = aggregate_facts-rollup facts by_campaign none delivered

aggregate_facts_lem_example :
    let rows = aggregate_facts facts by_campaign none in
    ((k : GrainKey)
      → length (filter (λ row. row.key == k) rows)
        ≡ (if any (λ f. grain_key f by_campaign == k) facts then 1 else 0))
    × All
        (λ row. (m : Measure) → row.measures m ≡ sum_measure (facts_of by_campaign row.key facts) m)
        rows
aggregate_facts_lem_example = aggregate_facts_lem facts by_campaign none

abbrev first_of : ℕ → ℕ → Date
first_of y m = record { year = y; month = m; day = 1 }

-- October was not published
abbrev published : List Date
published = first_of 2025 11 ∷ first_of 2025 8 ∷ first_of 2025 9 ∷ []

resolve_comparison-IsPrior_example :
    (prior : Option Date) × IsPrior (first_of 2025 11) published prior
    × (resolve_comparison published (month_window (first_of 2025 11)) none none default_comparison
        ≡ ok (compare_prior prior))
resolve_comparison-IsPrior_example =
    resolve_comparison-IsPrior published (month_window (first_of 2025 11)) none none
      (first_of 2025 11) (unfold month_window in refl)
      (unfold month_window in unfold month_start in refl) (unfold any in refl)

abbrev june : ℕ → Date
june d = record { year = 2025; month = 6; day = d }

june-IsDate : (d : ℕ) → 1 ≤ d → d ≤ 30 → IsDate (june d)
unfolding days_in_month
june-IsDate d lo hi = record {
  year_ge = omega arith;
  month_ge = omega arith;
  month_le = omega arith;
  day_ge = lo;
  day_le = hi;
}

june-IsDay : (d : ℕ) → 1 ≤ d → d ≤ 30 → IsDay (june d)
june-IsDay d lo hi = (
  june-IsDate d lo hi,
  unfold ordinal in
      unfold days_before_year in
      unfold days_before_month in unfold days_in_month in unfold is_leap in omega arith,
)

iter_buckets_lem_example :
    (out : List Date) × ((iter_buckets (june 5) (june 25) week ≡ some out)
      × IsListing week (june 5) (june 25) out)
iter_buckets_lem_example =
    iter_buckets_lem week (june 5) (june 25) (june-IsDay 5 (omega arith) (omega arith))
      (june-IsDate 25 (omega arith) (omega arith)) (unfold date_ltb in refl)

-- a range that starts before the first published day
abbrev request : PeriodRequest
request = record {
  period = some " Range ";
  selected_month = none;
  day_from = some (first_of 2025 1);
  day_to = some (june 12);
}

abbrev resolved : PeriodWindow
resolved = record {
  grain = range;
  day_from = june 5;
  day_to_exclusive = june 13;
  first_of_month = some (june 1);
  label = some "Jun-25";
}

resolves_range :
    resolve_period (june 1 ∷ []) (some (june 5)) (some (june 25)) request ≡ ok (resolved, false)
unfolding resolve_period period_choice clip sorted_months range_window strip lower month_start
    month_label next_day date_ltb sort insert_sorted any days_in_month
resolves_range = refl

resolve_period-IsPublished_example :
    IsPublished (june 1 ∷ []) (june 5) (june 25) request (resolved, false)
resolve_period-IsPublished_example =
    resolve_period-IsPublished (june 1 ∷ []) (june 5) (june 25) request resolved false
      (unfold date_ltb in refl) resolves_range
