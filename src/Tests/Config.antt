-- ===== src/Tests/Config.antt =====
-- Runs of the configuration of packages/config/dfip_config.
use dfip_v.Prelude.{
  ◌≡◌, ◌≢◌, ◌⊎◌, refl, String, string_eq, ne_of_beq, true, Option, none, some, [], ◌∷◌,
}
use mathlib.Core.Option
use dfip_v.Prelude.Dates.{Date, date_ltb}
use dfip_v.Prelude.Dict.{lookup, insert, map_values}
use dfip_v.Prelude.Result.{ok}
use dfip_v.Config.Catalog.{
  CatalogRow, CatalogVersion, CatalogStore, logic, draft, add_version, activate, activated,
  supersede, get_for_client,
}
use dfip_v.Config.Catalog.Activation.{Activated, activate_lem, IsValid}
use dfip_v.Config.Catalog.Reach.{Reach, empty, next, imports, activates, Reach-IsValid}
use dfip_v.Config.Identity.{Manifest, persistable_catalog_version_id, is_packaged}
use dfip_v.Config.Identity.Ownership.{persistable_owned}
use dfip_v.Config.RateCards.{rate_card_versions, resolve_rate_card_rule}
use dfip_v.Config.RateCards.Expected.{expected_rate, expected_rate-eq-resolve}
use dfip_v.Config.Resolve.{first_match_index, select_version_for_day}
use dfip_v.Config.Resolve.FirstMatch.{IsFirst, has_key, first_match_index_lem}
use dfip_v.Prelude.{filter, length}
use dfip_v.Config.Resolve.Windows.{contains_day, rate_card_of_day}

abbrev manifest : Manifest
manifest = record {
  client_id = "owner";
  ids = ("rate-v1", "r1") ∷ ("rate-v2", "r2") ∷ [];
  campaign_versions = [];
  template_versions = [];
}

abbrev row : CatalogRow
row = record {
  row_order = 2;
  cells =
      ("campaign_name", "Diwali") ∷ ("filter_logic_1_value", "Gold") ∷ ("group_name", "Metal") ∷ [];
}

abbrev earlier_row : CatalogRow
earlier_row = record {
  row_order = 1;
  cells =
      ("campaign_name", "DIWALI") ∷ ("filter_logic_1_value", "Gold") ∷ ("group_name", "First") ∷ [];
}

abbrev version : CatalogVersion
version = record {
  id = "v1";
  client_id = "c1";
  kind = logic;
  version_label = "logic-1";
  status = draft;
  row_count = 1;
  distinct_key_count = 1;
  duplicate_key_count = 0;
  created_at = 1;
  created_by = none;
  notes = none;
  source_filename = none;
  rows = row ∷ [];
  effective_from = none;
  effective_to = none;
}

abbrev imported : CatalogStore
imported = ("v1", version) ∷ []

abbrev turned_active : CatalogStore × CatalogVersion
turned_active =
    (("v1", activated "now" (some "ann") version) ∷ [], activated "now" (some "ann") version)

activate_runs : activate "c1" "v1" "now" (some "ann") imported ≡ ok turned_active
unfolding activate get_for_client lookup insert supersede map_values
activate_runs = refl

import_runs : add_version version [] ≡ ok imported
unfolding add_version lookup insert
import_runs = refl

imported_reached : Reach imported
imported_reached = next empty (imports version refl import_runs)

Reach-IsValid_example : IsValid turned_active.0
Reach-IsValid_example =
    Reach-IsValid
      (next imported_reached (activates "c1" "v1" "now" (some "ann") turned_active.1 activate_runs))

activate_lem_example :
    Activated "c1" "v1" "now" (some "ann") imported turned_active.0 turned_active.1
activate_lem_example =
    activate_lem "c1" "v1" "now" (some "ann") imported turned_active.0 turned_active.1
      (Reach-IsValid imported_reached) activate_runs

first_match_index_lem_example :
    IsFirst
      (has_key "campaign_name" "diwali")
      (row ∷ earlier_row ∷ [])
      (lookup "diwali" (first_match_index (row ∷ earlier_row ∷ []) "campaign_name"))
first_match_index_lem_example =
    first_match_index_lem (row ∷ earlier_row ∷ []) "campaign_name" "diwali"

abbrev july_last : Date
july_last = record { year = 2025; month = 7; day = 31 }

rate_card_of_day_example :
    (select_version_for_day rate_card_versions july_last ≡ some "rate-v1")
    × (length (filter (contains_day july_last) rate_card_versions) ≡ 1)
unfolding date_ltb
rate_card_of_day_example = rate_card_of_day july_last

expected_rate-eq-resolve_example :
    expected_rate "rate-v2" (some "Utility") (some "sms")
    ≡ Option.map (λ r. r.rate) (resolve_rate_card_rule "rate-v2" (some "Utility") (some "sms"))
expected_rate-eq-resolve_example = expected_rate-eq-resolve "rate-v2" (some "Utility") (some "sms")

abbrev given : Option String
given = some "r1"

abbrev text_r1 : String
text_r1 = "r1"

abbrev no_owner : Option String
no_owner = none

abbrev tenant : String
tenant = "owner"

persistable_owned_example :
    (given ≡ some "r1")
    × (text_r1 ≢ "")
    × ((no_owner ≡ some tenant)
        ⊎ ((no_owner ≡ none) × (is_packaged manifest "r1" ≡ true) × (tenant ≡ manifest.client_id)))
unfolding persistable_catalog_version_id is_packaged
persistable_owned_example =
    persistable_owned manifest tenant "r1" given no_owner (ne_of_beq string_eq tenant "" refl) refl
