-- ===== src/Analytics/Kpis/Formulas.antt =====
-- What `compute_kpis` stores under each name, against the formula texts of `KPI_SPECS`.
use dfip_v.Prelude.{
  ℕ, ◌≡◌, refl, String, Option, none, some, List, [], ◌∷◌, string_eq, nat_eq, filter, find?, length,
  All, if◌then◌else◌,
}
use mathlib.Core.Path.{subst}
use dfip_v.Prelude.Decimal.{Decimal, add, subtract, quantize, divide_to, is_zero}
use dfip_v.Prelude.Dict.{lookup, insert}
use dfip_v.Prelude.Sort.{sort, insert_sorted}
use dfip_v.Analytics.Divide.{safe_divide, safe_add, safe_subtract}
use dfip_v.Analytics.Kpis.{
  Measures, kpi_specs, operand, parent_slug, evaluate, compute_kpis, solve, sent, failed, delivered,
  unique_impressions, unique_clicks, unique_conversions, unique_impression_through_conversions,
  unique_click_through_conversions, revenue_inr, impression_through_revenue_inr,
  click_through_revenue_inr, total_cost,
}

-- The quotient at a number of places; there is none if an operand is missing or the divisor is zero.
abbrev pub ratio : ℕ → Option Decimal → Option Decimal → Option Decimal
ratio places none b = none
ratio places (some a) none = none
ratio places (some a) (some b) = if is_zero b then none else some (divide_to places a b)

abbrev both : (Decimal → Decimal → Decimal) → Option Decimal → Option Decimal → Option Decimal
both f none b = none
both f (some a) none = none
both f (some a) (some b) = some (f a b)

-- sums and differences of counts and, at four places, of amounts of money
abbrev pub total : Option Decimal → Option Decimal → Option Decimal
total = both add

abbrev pub total_money : Option Decimal → Option Decimal → Option Decimal
total_money = both (λ a b. quantize 4 (add a b))

abbrev pub difference : Option Decimal → Option Decimal → Option Decimal
difference = both subtract

abbrev pub difference_money : Option Decimal → Option Decimal → Option Decimal
difference_money = both (λ a b. quantize 4 (subtract a b))

-- The formula texts, over what stands for the quotient, the sums and the differences: a rate has six
-- places, an amount of money four.
module _ (ratio : ℕ → Option Decimal → Option Decimal → Option Decimal)
    (total total_money difference difference_money : Option Decimal
      → Option Decimal
      → Option Decimal)
    (m : Measures) where
  abbrev pub texts : List (String × Option Decimal)
  texts =
      ("qa.ctr", ratio 6 (m unique_clicks) (m delivered))
      ∷ ("qa.conversion_rate", ratio 6 (m unique_conversions) (m delivered))
      ∷ ("qa.roas", ratio 4 (m revenue_inr) (m total_cost))
      ∷ ("qa.delivered_rate_star", ratio 6 (m delivered) (m sent))
      ∷ ("qa.cost_conv", ratio 4 (m total_cost) (m unique_click_through_conversions))
      ∷ ("qa.click_thou_conv_rate", ratio 6 (m unique_click_through_conversions) (m delivered))
      ∷ ("qa.click_through_cost_conv", ratio 4 (m total_cost) (m unique_click_through_conversions))
      ∷ (
        "qa.cost_view_through_conv",
        ratio 4 (m total_cost) (m unique_impression_through_conversions),
      )
      ∷ (
        "qa.view_through_conv_rate",
        ratio 6 (m unique_impression_through_conversions) (m delivered),
      )
      ∷ (
        "qa.click_plus_view_conv",
        total (m unique_impression_through_conversions) (m unique_click_through_conversions),
      )
      ∷ (
        "qa.click_plus_view_revenue",
        total_money (m impression_through_revenue_inr) (m click_through_revenue_inr),
      )
      ∷ (
        "qa.cost_click_plus_view_conv",
        ratio 4 (m total_cost)
            (total (m unique_impression_through_conversions) (m unique_click_through_conversions)),
      )
      ∷ (
        "qa.all_click_plus_view_conv_rate",
        ratio 6
            (total (m unique_impression_through_conversions) (m unique_click_through_conversions))
            (m delivered),
      )
      ∷ ("qa.delivered_to_imp_rate", ratio 6 (m unique_impressions) (m delivered))
      ∷ ("qa.ctr_del_to_click", ratio 6 (m unique_clicks) (m delivered))
      ∷ ("qa.ctr_impr_to_click", ratio 6 (m unique_clicks) (m unique_impressions))
      ∷ ("client.delivery_rate", ratio 6 (m delivered) (m sent))
      ∷ ("client.delivered_to_imp_rate", ratio 6 (m unique_impressions) (m delivered))
      ∷ ("client.ctr_del_to_clicks", ratio 6 (m unique_clicks) (m delivered))
      ∷ ("client.ctr_impr_to_click", ratio 6 (m unique_clicks) (m unique_impressions))
      ∷ (
        "client.click_through_cost_conv",
        ratio 4 (m total_cost) (m unique_click_through_conversions),
      )
      ∷ ("client.cost_unique_conversion", ratio 4 (m total_cost) (m unique_conversions))
      ∷ ("client.delivered_thru_conv_rate", ratio 6 (m unique_conversions) (m delivered))
      ∷ ("client.cost_uct_conversion", ratio 4 (m total_cost) (m unique_click_through_conversions))
      ∷ (
        "client.uct_conversion_rate",
        ratio 6 (m unique_click_through_conversions) (m unique_clicks),
      )
      ∷ (
        "client.uc_to_uctc_conversions",
        difference (m unique_conversions) (m unique_click_through_conversions),
      )
      ∷ (
        "client.uc_to_uctc_revenue",
        difference_money (m revenue_inr) (m click_through_revenue_inr),
      )
      ∷ ("client.actual_sent", difference (m sent) (m failed))
      ∷ ("client.failed_rate_sm", ratio 6 (m failed) (m sent))
      ∷ (
        "client.unique_click_through_conv_roas",
        ratio 4 (m click_through_revenue_inr) (m total_cost),
      )
      ∷ ("client.overall_roas", ratio 4 (m revenue_inr) (m total_cost))
      ∷ []

-- every KPI by its name and formula
abbrev pub formulas : Measures → List (String × Option Decimal)
formulas = texts ratio total total_money difference difference_money

safe_divide-ratio : (p : ℕ) (a b : Option Decimal) → safe_divide a b p ≡ ratio p a b
unfolding safe_divide
safe_divide-ratio p none b = refl
safe_divide-ratio p (some a) none = refl
safe_divide-ratio p (some a) (some b) = refl

safe_add-total : (a b : Option Decimal) → safe_add a b none ≡ total a b
unfolding safe_add
safe_add-total none b = refl
safe_add-total (some a) none = refl
safe_add-total (some a) (some b) = refl

safe_add-total_money : (a b : Option Decimal) → safe_add a b (some 4) ≡ total_money a b
unfolding safe_add
safe_add-total_money none b = refl
safe_add-total_money (some a) none = refl
safe_add-total_money (some a) (some b) = refl

safe_subtract-difference : (a b : Option Decimal) → safe_subtract a b none ≡ difference a b
unfolding safe_subtract
safe_subtract-difference none b = refl
safe_subtract-difference (some a) none = refl
safe_subtract-difference (some a) (some b) = refl

safe_subtract-difference_money :
    (a b : Option Decimal) → safe_subtract a b (some 4) ≡ difference_money a b
unfolding safe_subtract
safe_subtract-difference_money none b = refl
safe_subtract-difference_money (some a) none = refl
safe_subtract-difference_money (some a) (some b) = refl

texts-formulas :
    (measures : Measures)
    → texts
        (λ p a b. safe_divide a b p)
        (λ a b. safe_add a b none)
        (λ a b. safe_add a b (some 4))
        (λ a b. safe_subtract a b none)
        (λ a b. safe_subtract a b (some 4))
        measures
      ≡ formulas measures
texts-formulas measures i =
    texts (λ p a b. safe_divide-ratio p a b i) (λ a b. safe_add-total a b i)
      (λ a b. safe_add-total_money a b i) (λ a b. safe_subtract-difference a b i)
      (λ a b. safe_subtract-difference_money a b i) measures

-- what was computed has exactly these entries
abbrev pub HasEntries : List (String × Option Decimal) → Measures → Type 0
HasEntries expected measures =
    All (λ (name, value). lookup name (compute_kpis measures none) ≡ some value) expected
    × (length (compute_kpis measures none) ≡ length expected)

texts_found :
    (measures : Measures)
    → HasEntries
        (texts
          (λ p a b. safe_divide a b p)
          (λ a b. safe_add a b none)
          (λ a b. safe_add a b (some 4))
          (λ a b. safe_subtract a b none)
          (λ a b. safe_subtract a b (some 4))
          measures)
        measures
unfolding compute_kpis kpi_specs lookup insert sort insert_sorted filter solve operand parent_slug
    find? evaluate
texts_found measures = search

-- One evaluation of both namespaces gives every KPI, under its name, the value of its written formula
-- over the measures, those that depend on another KPI included, and nothing else: a quotient at six
-- places for a rate and at four for an amount, or none if a measure is missing or the divisor is zero,
-- and sums and differences, at four places for an amount.
pub compute_kpis_lem : (measures : Measures) → HasEntries (formulas measures) measures
compute_kpis_lem measures =
    subst (λ expected. HasEntries expected measures) (texts-formulas measures)
      (texts_found measures)
