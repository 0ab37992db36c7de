-- ===== src/Analytics/Aggregate.antt =====
-- packages/analytics/dfip_analytics/aggregate.py: sums of the additive measures over groups of facts.

pub mod Sums
pub mod Rollup
pub mod Groups
use dfip_v.Prelude.{
  Bool, true, false, Option, none, some, List, [], ◌∷◌, ◌++◌, map, get_or, if◌then◌else◌,
}
use dfip_v.Prelude.Decimal.{Decimal, add, zero_decimal, of_int}
use dfip_v.Prelude.Int.{ℤ}
use dfip_v.Prelude.Dict.{Dict, lookup, insert}
use dfip_v.Prelude.Sort.{sort}
use dfip_v.Transform.Fact.{FactRecord}
use dfip_v.Analytics.Grains.{Grain, GrainKey, grain_key, grain_key_eq, key_before}
use dfip_v.Analytics.Kpis.{
  Measure, sent, failed, delivered, unique_impressions, unique_clicks, unique_conversions,
  unique_impression_through_conversions, unique_click_through_conversions, revenue_inr,
  impression_through_revenue_inr, click_through_revenue_inr, total_cost, Measures, Computed,
  Namespace, compute_kpis,
}

abbrev pub int_value : Option ℤ → Option Decimal
int_value none = none
int_value (some n) = some (of_int n)

-- a stored cost is its number of ten-thousandths
abbrev pub cost_value : Option ℤ → Option Decimal
cost_value none = none
cost_value (some n) = some (record { coefficient = n; places = 4 })

-- `as_decimal(getattr(fact, name))`
unfoldable pub measure_of : Measure → FactRecord → Option Decimal
measure_of sent f = int_value f.sent
measure_of failed f = int_value f.failed
measure_of delivered f = int_value f.delivered
measure_of unique_impressions f = int_value f.unique_impressions
measure_of unique_clicks f = int_value f.unique_clicks
measure_of unique_conversions f = int_value f.unique_conversions
measure_of unique_impression_through_conversions f =
    int_value f.unique_impression_through_conversions
measure_of unique_click_through_conversions f = int_value f.unique_click_through_conversions
measure_of revenue_inr f = f.revenue_inr
measure_of impression_through_revenue_inr f = f.impression_through_revenue_inr
measure_of click_through_revenue_inr f = f.click_through_revenue_inr
measure_of total_cost f = cost_value f.total_cost

-- one round of the loop of `_sum_measure`: the total so far and whether a value was seen
abbrev pub step : Decimal × Bool → Option Decimal → Decimal × Bool
step acc none = acc
step acc (some value) = (add acc.0 value, true)

unfoldable pub sum_loop : Decimal × Bool → List (Option Decimal) → Decimal × Bool
sum_loop acc [] = acc
sum_loop acc (v ∷ vs) = sum_loop (step acc v) vs

abbrev pub if_seen : Decimal × Bool → Option Decimal
if_seen (total, seen) = if seen then some total else none

-- `SUM` over optional values
unfoldable pub sum_values : List (Option Decimal) → Option Decimal
unfolding sum_loop
sum_values vs = if_seen (sum_loop (zero_decimal, false) vs)

unfoldable pub sum_measure : List FactRecord → Measure → Option Decimal
sum_measure facts m = sum_values (map (measure_of m) facts)

abbrev pub sum_additive_measures : List FactRecord → Measures
sum_additive_measures facts m = sum_measure facts m

pub record AggregatedRow : Type 0 where
  pub grain : Grain
  pub key : GrainKey
  pub measures : Measures
  pub kpis : Computed

abbrev pub Groups : Type 0
Groups = Dict GrainKey (List FactRecord)

-- the loop that fills the groups of a `defaultdict(list)`
unfoldable pub group_facts : Grain → List FactRecord → Groups → Groups
group_facts grain [] groups = groups
group_facts grain (f ∷ facts) groups =
    let key = grain_key f grain in
    group_facts grain facts (insert key (get_or (lookup key groups) [] ++ (f ∷ [])) groups)

abbrev pub row_of : Grain → Option Namespace → GrainKey × List FactRecord → AggregatedRow
row_of grain namespace (key, members) = record {
  grain = grain;
  key = key;
  measures = sum_additive_measures members;
  kpis = compute_kpis (sum_additive_measures members) namespace;
}

abbrev pub group_before : GrainKey × List FactRecord → GrainKey × List FactRecord → Bool
group_before a b = key_before a.0 b.0

unfoldable pub aggregate_facts : List FactRecord → Grain → Option Namespace → List AggregatedRow
unfolding group_facts
aggregate_facts facts grain namespace =
    map (row_of grain namespace) (sort group_before (group_facts grain facts []))
