-- ===== src/Analytics/Kpis.antt =====
-- packages/analytics/dfip_analytics/kpis.py: the KPIs over summed measures. A measure is one of the
-- twelve names of `ADDITIVE_MEASURES`, so the guards against native rate columns have nothing to
-- refuse. The texts that only describe a KPI (display name, formula, notes, unit) are left out.

pub mod Formulas
use dfip_v.Prelude.{
  ℕ, String, Bool, true, false, Option, none, some, List, [], ◌∷◌, ◌++◌, ◌==◌, string_eq, nat_eq,
  filter, find?, if◌then◌else◌,
}
use Prim.Native.String.{◌++◌ as concat}
use dfip_v.Prelude.Decimal.{Decimal}
use dfip_v.Prelude.Dict.{Dict, lookup, insert}
use dfip_v.Prelude.Sort.{sort, by_rank}
use dfip_v.Analytics.Divide.{safe_divide, safe_add, safe_subtract, money_scale, rate_scale}

-- `ADDITIVE_MEASURES`: `INTEGER_MEASURES` and then `MONEY_MEASURES`
pub data Measure : Type 0 where
  sent failed delivered unique_impressions unique_clicks unique_conversions : Measure
  unique_impression_through_conversions unique_click_through_conversions : Measure
  revenue_inr impression_through_revenue_inr click_through_revenue_inr total_cost : Measure

pub data Operation : Type 0 where
  divide add subtract : Operation

pub data ValueKind : Type 0 where
  rate money count : ValueKind

pub data Namespace : Type 0 where
  qa client : Namespace

pub record KpiSpec : Type 0 where
  pub id : String
  pub namespace : Namespace
  pub slug : String
  pub numerator_measure : Option Measure
  pub denominator_measure : Option Measure
  pub operation : Operation
  pub is_linear : Bool
  pub solve_order : ℕ
  pub depends_on_kpi_id : Option String
  pub value_kind : ValueKind

abbrev pub kpi :
    String
    → Namespace
    → String
    → Option Measure
    → Option Measure
    → Operation
    → Bool
    → ℕ
    → Option String
    → ValueKind
    → KpiSpec
kpi id namespace slug numerator denominator operation is_linear solve_order depends_on value_kind =
    record {
      id = id;
      namespace = namespace;
      slug = slug;
      numerator_measure = numerator;
      denominator_measure = denominator;
      operation = operation;
      is_linear = is_linear;
      solve_order = solve_order;
      depends_on_kpi_id = depends_on;
      value_kind = value_kind;
    }

unfoldable pub kpi_specs : List KpiSpec
kpi_specs =
    kpi "a0000000-0000-4000-8000-000000000201" qa "ctr" (some unique_clicks) (some delivered) divide
      false 1 none rate
    ∷ kpi "a0000000-0000-4000-8000-000000000202" qa "conversion_rate" (some unique_conversions)
        (some delivered) divide false 2 none rate
    ∷ kpi "a0000000-0000-4000-8000-000000000203" qa "roas" (some revenue_inr) (some total_cost)
        divide false 3 none money
    ∷ kpi "a0000000-0000-4000-8000-000000000204" qa "delivered_rate_star" (some delivered)
        (some sent) divide false 4 none rate
    ∷ kpi "a0000000-0000-4000-8000-000000000205" qa "cost_conv" (some total_cost)
        (some unique_click_through_conversions) divide false 5 none money
    ∷ kpi "a0000000-0000-4000-8000-000000000206" qa "click_thou_conv_rate"
        (some unique_click_through_conversions) (some delivered) divide false 6 none rate
    ∷ kpi "a0000000-0000-4000-8000-000000000207" qa "click_through_cost_conv" (some total_cost)
        (some unique_click_through_conversions) divide false 7 none money
    ∷ kpi "a0000000-0000-4000-8000-000000000208" qa "cost_view_through_conv" (some total_cost)
        (some unique_impression_through_conversions) divide false 8 none money
    ∷ kpi "a0000000-0000-4000-8000-000000000209" qa "view_through_conv_rate"
        (some unique_impression_through_conversions) (some delivered) divide false 9 none rate
    ∷ kpi "a0000000-0000-4000-8000-000000000210" qa "click_plus_view_conv"
        (some unique_impression_through_conversions) (some unique_click_through_conversions) add
        true 10 none count
    ∷ kpi "a0000000-0000-4000-8000-000000000211" qa "click_plus_view_revenue"
        (some impression_through_revenue_inr) (some click_through_revenue_inr) add true 11 none
        money
    ∷ kpi "a0000000-0000-4000-8000-000000000212" qa "cost_click_plus_view_conv" (some total_cost)
        none divide false 12 (some "a0000000-0000-4000-8000-000000000210") money
    ∷ kpi "a0000000-0000-4000-8000-000000000213" qa "all_click_plus_view_conv_rate" none
        (some delivered) divide false 13 (some "a0000000-0000-4000-8000-000000000210") rate
    ∷ kpi "a0000000-0000-4000-8000-000000000214" qa "delivered_to_imp_rate"
        (some unique_impressions) (some delivered) divide false 14 none rate
    ∷ kpi "a0000000-0000-4000-8000-000000000215" qa "ctr_del_to_click" (some unique_clicks)
        (some delivered) divide false 15 none rate
    ∷ kpi "a0000000-0000-4000-8000-000000000216" qa "ctr_impr_to_click" (some unique_clicks)
        (some unique_impressions) divide false 16 none rate
    ∷ kpi "a0000000-0000-4000-8000-000000000301" client "delivery_rate" (some delivered) (some sent)
        divide false 1 none rate
    ∷ kpi "a0000000-0000-4000-8000-000000000302" client "delivered_to_imp_rate"
        (some unique_impressions) (some delivered) divide false 2 none rate
    ∷ kpi "a0000000-0000-4000-8000-000000000303" client "ctr_del_to_clicks" (some unique_clicks)
        (some delivered) divide false 3 none rate
    ∷ kpi "a0000000-0000-4000-8000-000000000304" client "ctr_impr_to_click" (some unique_clicks)
        (some unique_impressions) divide false 4 none rate
    ∷ kpi "a0000000-0000-4000-8000-000000000305" client "click_through_cost_conv" (some total_cost)
        (some unique_click_through_conversions) divide false 5 none money
    ∷ kpi "a0000000-0000-4000-8000-000000000306" client "cost_unique_conversion" (some total_cost)
        (some unique_conversions) divide false 6 none money
    ∷ kpi "a0000000-0000-4000-8000-000000000307" client "delivered_thru_conv_rate"
        (some unique_conversions) (some delivered) divide false 7 none rate
    ∷ kpi "a0000000-0000-4000-8000-000000000308" client "cost_uct_conversion" (some total_cost)
        (some unique_click_through_conversions) divide false 8 none money
    ∷ kpi "a0000000-0000-4000-8000-000000000309" client "uct_conversion_rate"
        (some unique_click_through_conversions) (some unique_clicks) divide false 9 none rate
    ∷ kpi "a0000000-0000-4000-8000-000000000310" client "uc_to_uctc_conversions"
        (some unique_conversions) (some unique_click_through_conversions) subtract true 10 none
        count
    ∷ kpi "a0000000-0000-4000-8000-000000000311" client "uc_to_uctc_revenue" (some revenue_inr)
        (some click_through_revenue_inr) subtract true 11 none money
    ∷ kpi "a0000000-0000-4000-8000-000000000312" client "actual_sent" (some sent) (some failed)
        subtract true 12 none count
    ∷ kpi "a0000000-0000-4000-8000-000000000313" client "failed_rate_sm" (some failed) (some sent)
        divide false 13 none rate
    ∷ kpi "a0000000-0000-4000-8000-000000000314" client "unique_click_through_conv_roas"
        (some click_through_revenue_inr) (some total_cost) divide false 14 none money
    ∷ kpi "a0000000-0000-4000-8000-000000000315" client "overall_roas" (some revenue_inr)
        (some total_cost) divide false 15 none money
    ∷ []

-- the places of `decimal_scale`, which is 1 for a count
abbrev pub decimal_scale : ValueKind → ℕ
decimal_scale rate = rate_scale
decimal_scale money = money_scale
decimal_scale count = 0

abbrev pub sum_scale : ValueKind → Option ℕ
sum_scale rate = some rate_scale
sum_scale money = some money_scale
sum_scale count = none

-- the measures that `sum_additive_measures` returns, under every name
abbrev pub Measures : Type 0
Measures = Measure → Option Decimal

abbrev pub Computed : Type 0
Computed = Dict String (Option Decimal)

abbrev pub joined : Option (Option Decimal) → Option Decimal
joined none = none
joined (some value) = value

abbrev pub slug_of : Option KpiSpec → String
slug_of none = ""
slug_of (some spec) = spec.slug

-- `_BY_ID[...]`
unfoldable pub parent_slug : String → String
parent_slug id = slug_of (find? (λ spec. spec.id == id) kpi_specs)

-- `_operand` for the measure of its side
unfoldable pub operand : KpiSpec → Option Measure → Measures → Computed → Option Decimal
operand spec (some measure) measures computed = measures measure
operand spec none measures computed = elim spec.depends_on_kpi_id [
  | none ↦ none
  | some id ↦ joined (lookup (parent_slug id) computed)
]

unfoldable pub evaluate : Operation → ValueKind → Option Decimal → Option Decimal → Option Decimal
evaluate divide kind left right = safe_divide left right (decimal_scale kind)
evaluate add kind left right = safe_add left right (sum_scale kind)
evaluate subtract kind left right = safe_subtract left right (sum_scale kind)

unfoldable pub kpi_value : KpiSpec → Measures → Computed → Option Decimal
kpi_value spec measures computed =
    evaluate spec.operation spec.value_kind (operand spec spec.numerator_measure measures computed)
      (operand spec spec.denominator_measure measures computed)

abbrev pub prefix : Namespace → String
prefix qa = "qa."
prefix client = "client."

-- the loop over the specs of one namespace: the results by slug, and the output under
-- `namespace.slug` and, where one namespace was asked for, under the slug
unfoldable pub solve : Bool → Measures → List KpiSpec → Computed → Computed → Computed
unfolding kpi_value
solve short measures [] results output = output
solve short measures (spec ∷ specs) results output =
    let value = kpi_value spec measures results in
    let named = insert (concat (prefix spec.namespace) spec.slug) value output in
    solve short measures specs (insert spec.slug value results)
      (if short then insert spec.slug value named else named)

abbrev pub is_in : Namespace → KpiSpec → Bool
is_in qa spec = elim spec.namespace [ qa ↦ true | client ↦ false ]
is_in client spec = elim spec.namespace [ qa ↦ false | client ↦ true ]

abbrev pub solve_namespace : Bool → Measures → Namespace → Computed → Computed
solve_namespace short measures namespace output =
    solve short measures
      (sort (by_rank (λ spec. spec.solve_order)) (filter (is_in namespace) kpi_specs)) [] output

unfoldable pub compute_kpis : Measures → Option Namespace → Computed
unfolding solve
compute_kpis measures none =
    solve_namespace false measures client (solve_namespace false measures qa [])
compute_kpis measures (some namespace) = solve_namespace true measures namespace []
