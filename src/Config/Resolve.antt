-- ===== src/Config/Resolve.antt =====
-- packages/config/dfip_config/resolve.py: the spreadsheet lookups. The packaged snapshots are JSON
-- files read at run time: the rows of a version are an argument.
pub mod FirstMatch
pub mod Windows
pub mod Blank
use dfip_v.Prelude.{
  ℕ, String, Bool, true, false, Option, none, some, List, [], ◌∷◌, ◌==◌, string_eq, option_eq, ltb,
  is_some, if◌then◌else◌,
}
use dfip_v.Prelude.Dates.{Date, date_ltb, date_leb}
use dfip_v.Prelude.Dict.{Dict, lookup, insert, contains}
use dfip_v.Prelude.Sort.{sort, by_rank}
use dfip_v.Prelude.Text.{lower}
use dfip_v.Config.Catalog.{CatalogRow}
use dfip_v.Config.RateCards.{Window}

-- `row.get(name)`
abbrev pub cell : CatalogRow → String → Option String
cell row name = lookup name row.cells

-- lowered, not trimmed; the empty text is no key
unfoldable pub match_key : Option String → Option String
unfolding lower
match_key none = none
match_key (some value) = if value == "" then none else some (lower value)

starts_after : Option Date → Date → Bool
starts_after none target = false
starts_after (some start) target = date_ltb target start

ends_by : Option Date → Date → Bool
ends_by none target = false
ends_by (some end) target = date_leb end target

-- the version whose window, closed at its start and open at its end, contains the day
unfoldable pub select_version_for_day : List Window → Date → Option String
unfolding starts_after ends_by
select_version_for_day [] target = none
select_version_for_day ((label, start, end) ∷ versions) target =
    if starts_after start target
    then select_version_for_day versions target
    else if ends_by end target
    then select_version_for_day versions target
    else some label

-- one round of the loop in `_first_match_index`, once the row's key is known
index_under : CatalogRow → Dict String CatalogRow → Option String → Dict String CatalogRow
index_under row index none = index
index_under row index (some key) = if contains key index then index else insert key row index

index_rows : String → List CatalogRow → Dict String CatalogRow → Dict String CatalogRow
unfolding index_under
index_rows key_field [] index = index
index_rows key_field (row ∷ rows) index =
    index_rows key_field rows (index_under row index (match_key (cell row key_field)))

unfoldable pub first_match_index : List CatalogRow → String → Dict String CatalogRow
unfolding index_rows sort
first_match_index rows key_field = index_rows key_field (sort (by_rank (λ r. r.row_order)) rows) []

-- the texts of `match_status`
pub data MatchStatus : Type 0 where
  matched unmatched blank_key : MatchStatus

pub record CampaignResolution : Type 0 where
  pub match_status : MatchStatus
  pub row_order : Option ℕ
  pub campaign_name : Option String
  pub filter_logic_1 : Option String
  pub filter_logic_2 : Option String
  pub amc_status_filter_logic_3 : Option String
  pub amc_device_category_filter_logic_4 : Option String
  pub amc_product_cat_filter_logic_5 : Option String
  pub manual_or_automated : Option String

pub record TemplateResolution : Type 0 where
  pub match_status : MatchStatus
  pub row_order : Option ℕ
  pub template_name : Option String
  pub template_status : String

abbrev pub empty_campaign : MatchStatus → CampaignResolution
empty_campaign status = record {
  match_status = status;
  row_order = none;
  campaign_name = none;
  filter_logic_1 = none;
  filter_logic_2 = none;
  amc_status_filter_logic_3 = none;
  amc_device_category_filter_logic_4 = none;
  amc_product_cat_filter_logic_5 = none;
  manual_or_automated = none;
}

unfoldable pub campaign_resolution_from_row : CatalogRow → CampaignResolution
unfolding lookup
campaign_resolution_from_row row = record {
  match_status = matched;
  row_order = some row.row_order;
  campaign_name = cell row "campaign_name";
  filter_logic_1 = cell row "filter_logic_1";
  filter_logic_2 = cell row "filter_logic_2";
  amc_status_filter_logic_3 = cell row "amc_status_filter_logic_3";
  amc_device_category_filter_logic_4 = cell row "amc_device_category_filter_logic_4";
  amc_product_cat_filter_logic_5 = cell row "amc_product_cat_filter_logic_5";
  manual_or_automated = cell row "manual_or_automated";
}

campaign_found : Option CatalogRow → CampaignResolution
unfolding campaign_resolution_from_row
campaign_found none = empty_campaign unmatched
campaign_found (some row) = campaign_resolution_from_row row

campaign_under : List CatalogRow → Option String → CampaignResolution
unfolding campaign_found
campaign_under rows none = empty_campaign blank_key
campaign_under rows (some key) =
    campaign_found (lookup key (first_match_index rows "campaign_name"))

-- `resolve_campaign_label_from_rows`, and `resolve_campaign_label` at the rows of its version
unfoldable pub resolve_campaign_label : List CatalogRow → Option String → CampaignResolution
unfolding campaign_under
resolve_campaign_label rows campaign_name = campaign_under rows (match_key campaign_name)

template_found : Option String → Option CatalogRow → TemplateResolution
template_found name none = record {
  match_status = unmatched;
  row_order = none;
  template_name = name;
  template_status = "";
}
template_found name (some row) = record {
  match_status = matched;
  row_order = some row.row_order;
  template_name = cell row "template_name";
  template_status = elim (cell row "template_status") [ none ↦ "" | some status ↦ status ];
}

template_under : List CatalogRow → Option String → Option String → TemplateResolution
unfolding template_found
template_under rows name none = record {
  match_status = blank_key;
  row_order = none;
  template_name = name;
  template_status = "";
}
template_under rows name (some key) =
    template_found name (lookup key (first_match_index rows "template_name"))

-- `resolve_template_status` at the rows of its version
unfoldable pub resolve_template_status : List CatalogRow → Option String → TemplateResolution
unfolding template_under
resolve_template_status rows template_name =
    template_under rows template_name (match_key template_name)

-- the loop of `_group_index` and `group_index_from_rows`
group_rows :
    List CatalogRow → Dict (Option String) (Option String) → Dict (Option String) (Option String)
group_rows [] index = index
group_rows (row ∷ rows) index = group_rows rows (
    if contains (cell row "filter_logic_1_value") index
    then index
    else insert (cell row "filter_logic_1_value") (cell row "group_name") index)

abbrev pub group_or : Option String → Option (Option String) → Option String
group_or other none = other
group_or other (some group) = group

-- `resolve_filter_logic_1_group_from_rows`, and `resolve_filter_logic_1_group` at the rows of its
-- version: an unknown value passes through
unfoldable pub resolve_filter_logic_1_group : Option String → List CatalogRow → Option String
unfolding group_rows
resolve_filter_logic_1_group filter_logic_1 rows =
    group_or filter_logic_1 (lookup filter_logic_1 (group_rows rows []))

-- the loop of `resolve_group_display_name` over the captions of the version
display_name : String → List (String × String) → String
display_name group_name [] = group_name
display_name group_name ((key, caption) ∷ captions) =
    if key == group_name then caption else display_name group_name captions

pub resolve_group_display_name : Option String → List (String × String) → Option String
unfolding display_name
resolve_group_display_name none captions = none
resolve_group_display_name (some group_name) captions = some (display_name group_name captions)
