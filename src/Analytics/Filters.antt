-- ===== src/Analytics/Filters.antt =====
-- packages/analytics/dfip_analytics/filters.py and `select_overview_months` of overview.py: the filters
-- of a report and its periods. A list of months holds no `None`; an error keeps its message as a
-- constructor.
pub mod Comparison
pub mod Sorted
pub mod Months
pub mod Windows
use dfip_v.Prelude.{
  ℕ, zero, suc, ◌+◌, ◌-◌, ◌<◌, String, Bool, true, false, not, Option, none, some, List, [], ◌∷◌,
  ◌++◌, ◌==◌, ◌&&◌, ◌||◌, string_eq, nat_eq, any, filter, length, is_some, if◌then◌else◌, ltb,
}
use dfip_v.Prelude.Dates.{Date, date_eq, date_beq, date_ltb}
use dfip_v.Prelude.Calendar.{next_day, previous_day}
use dfip_v.Prelude.Result.{Result, ok, err, ◌>>=◌}
use dfip_v.Prelude.Sort.{sort}
use dfip_v.Prelude.Text.{strip, lower, truthy}
use dfip_v.Transform.Derive.{month_label, month_start}

pub data PeriodGrain : Type 0 where
  month range all_history : PeriodGrain

pub data CompareMode : Type 0 where
  auto no_comparison : CompareMode

pub data Reason : Type 0 where
  no_history no_prior comparison_disabled comparison_not_applicable no_comparable_range : Reason

pub data FilterError : Type 0 where
  range_end_before_start too_many_values no_published_history unknown_period range_incomplete :
      FilterError
  not_first_of_month not_published unknown_compare compare_not_published same_period : FilterError
  compare_range_incomplete : FilterError

pub record DimensionFilters : Type 0 where
  pub campaign_ids : List String
  pub channels : List String
  pub filter_logic_1 : List String
  pub filter_logic_1_group : List String

pub record PeriodWindow : Type 0 where
  pub grain : PeriodGrain
  pub day_from : Date
  pub day_to_exclusive : Date
  pub first_of_month : Option Date
  pub label : Option String

pub inclusive_to : PeriodWindow → Date
inclusive_to w = previous_day w.day_to_exclusive

unfoldable pub add_calendar_month : Date → Date
add_calendar_month m =
    if m.month == 12
    then record { year = m.year + 1; month = 1; day = 1 }
    else record { year = m.year; month = m.month + 1; day = 1 }

unfoldable pub month_window : Date → PeriodWindow
month_window m =
    let start = month_start m in
    record {
      grain = month;
      day_from = start;
      day_to_exclusive = add_calendar_month start;
      first_of_month = some start;
      label = some (month_label start);
    }

unfoldable pub range_window : Date → Date → Result FilterError PeriodWindow
range_window day_from inclusive_to =
    let start = month_start day_from in
    let single = start == month_start inclusive_to in
    if date_ltb inclusive_to day_from
    then err range_end_before_start
    else ok (record {
      grain = if single then month else range;
      day_from = day_from;
      day_to_exclusive = next_day inclusive_to;
      first_of_month = if single then some start else none;
      label = if single then some (month_label start) else none;
    })

-- the loop of `normalize_multi`, with the values kept so far
unfoldable pub keep_distinct : List String → List String → List String
keep_distinct seen [] = seen
keep_distinct seen (v ∷ vs) =
    keep_distinct (if any (λ s. s == v) seen then seen else seen ++ (v ∷ [])) vs

abbrev pub max_multi_values : ℕ
max_multi_values = 500

-- A missing list is the empty one; a missing value is the empty text.
unfoldable pub normalize_multi : List String → Result FilterError (List String)
normalize_multi values =
    if ltb max_multi_values (length values)
    then err too_many_values
    else ok (keep_distinct [] values)

unfoldable pub drop_unknown : List String → List String → List String × List String
drop_unknown selected allowed = (
  filter (λ item. any (λ a. a == item) allowed) selected,
  filter (λ item. not (any (λ a. a == item) allowed)) selected,
)

unfoldable pub clip : Date → Date → Date → Date
clip value lo hi = if date_ltb value lo then lo else if date_ltb hi value then hi else value

-- `sorted({...})`
abbrev pub distinct : List Date → List Date
distinct [] = []
distinct (d ∷ ds) = if any (λ e. e == d) ds then distinct ds else d ∷ distinct ds

unfoldable pub sorted_months : List Date → List Date
sorted_months months = sort date_ltb (distinct months)

abbrev pub last : List Date → Option Date
last [] = none
last (d ∷ []) = some d
last (d ∷ e ∷ ds) = last (e ∷ ds)

-- `unique[-2]`
abbrev pub last_but_one : List Date → Option Date
last_but_one [] = none
last_but_one (d ∷ []) = none
last_but_one (d ∷ e ∷ []) = some d
last_but_one (d ∷ e ∷ f ∷ ds) = last_but_one (e ∷ f ∷ ds)

unfoldable pub select_overview_months : List Date → Option Date × Option Date
select_overview_months months = (last (sorted_months months), last_but_one (sorted_months months))

-- `(period or "").strip().lower() or None`, with "all" read as "all_history"
pub data PeriodChoice : Type 0 where
  unset by_month by_range everything unknown : PeriodChoice

unfoldable pub period_choice : Option String → PeriodChoice
period_choice period =
    let grain = lower (strip (truthy period "")) in
    if grain == ""
    then unset
    else if grain == "month"
    then by_month
    else if grain == "range"
    then by_range
    else if grain == "all" || grain == "all_history"
    then everything
    else unknown

abbrev pub with_grain : PeriodGrain → PeriodWindow → PeriodWindow
with_grain g w = record w { grain = g }

abbrev pub range_of :
    Bool → Date → Date → Option Date → Option Date → Result FilterError (PeriodWindow × Bool)
range_of as_range lo hi (some day_from) (some day_to) = do
  w ← range_window (clip day_from lo hi) (clip day_to lo hi)
  ok (if as_range then with_grain range w else w, false)
range_of as_range lo hi _ _ = err range_incomplete

abbrev pub month_of : List Date → Date → Result FilterError (PeriodWindow × Bool)
month_of unique selected =
    if not (month_start selected == selected)
    then err not_first_of_month
    else if any (λ m. m == selected) unique
    then ok (month_window selected, false)
    else err not_published

abbrev pub latest_from : Option Date → Bool → Result FilterError (PeriodWindow × Bool)
latest_from none is_default = err no_published_history
latest_from (some m) is_default = ok (month_window m, is_default)

abbrev pub latest_of : List Date → Bool → Result FilterError (PeriodWindow × Bool)
latest_of unique is_default = latest_from (last unique) is_default

-- the parts of the request
pub record PeriodRequest : Type 0 where
  pub period : Option String
  pub selected_month : Option Date
  pub day_from : Option Date
  pub day_to : Option Date

abbrev pub selected_or : Option Date → List Date → Bool → Result FilterError (PeriodWindow × Bool)
selected_or (some selected) unique is_default = month_of unique selected
selected_or none unique is_default = latest_of unique is_default

abbrev pub has_range : PeriodRequest → Bool
has_range r = (is_some r.day_from || is_some r.day_to) && not (is_some r.selected_month)

abbrev pub resolve_choice :
    PeriodChoice
    → List Date
    → Date
    → Date
    → PeriodRequest
    → Result FilterError (PeriodWindow × Bool)
resolve_choice unknown unique lo hi r = err unknown_period
resolve_choice everything unique lo hi r = ok (
  record {
    grain = all_history;
    day_from = lo;
    day_to_exclusive = next_day hi;
    first_of_month = none;
    label = none;
  },
  false,
)
resolve_choice by_range unique lo hi r = range_of true lo hi r.day_from r.day_to
resolve_choice by_month unique lo hi r = selected_or r.selected_month unique false
resolve_choice unset unique lo hi r =
    if has_range r
    then range_of false lo hi r.day_from r.day_to
    else selected_or r.selected_month unique (not (is_some r.day_from) && not (is_some r.day_to))

abbrev pub is_nil : List Date → Bool
is_nil [] = true
is_nil (d ∷ ds) = false

unfoldable pub resolve_period :
    List Date → Option Date → Option Date → PeriodRequest → Result FilterError (PeriodWindow × Bool)
resolve_period months (some lo) (some hi) r =
    let unique = sorted_months months in
    if is_nil unique
    then err no_published_history
    else resolve_choice (period_choice r.period) unique lo hi r
resolve_period months _ _ r = err no_published_history
