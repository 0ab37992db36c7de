-- ===== src/Tests/Facts.antt =====
-- Runs of the fact store of packages/core/dfip_core/transform/store.py, of the costs and of the cells.
use dfip_v.Prelude.{
  ◌≡◌, ◌≢◌, ◌+◌, refl, String, string_eq, option_eq, Option, none, some, [], ◌∷◌, length, arith,
}
use dfip_v.Prelude.Dates.{Date}
use dfip_v.Prelude.Dict.{lookup}
use dfip_v.Prelude.Int.{pos}
use dfip_v.Config.RateCards.Expected.{expected_rate}
use dfip_v.Transform.Cost.{calculate_total_cost}
use dfip_v.Transform.Cost.Exact.{FollowsContract, cost_exact}
use dfip_v.Transform.Fact.{
  FactKey, FactRecord, key, fact_key_eq, fact_key_beq, same_business_values,
}
use dfip_v.Transform.Reconcile.Report.{
  Expectation, passed, lineage_ok, version_ok, no_problem, reconcile_run,
}
use dfip_v.Transform.Reconcile.Passed.{every, is_sound, check_of, sum_ints, reconcile_run_lem}
use dfip_v.Prelude.{get_or, map}
use dfip_v.Transform.FactStore.{
  FactStore, SliceQuery, upsert, upsert_many, revert_run, list_published_slice, inserted, restated,
  unchanged,
}
use dfip_v.Transform.FactStore.Revert.Closed.{latest_at}
use dfip_v.Transform.FactStore.Revert.RoundTrip.{revert_run-upsert_many, IsUntouched}
use dfip_v.Transform.FactStore.Revert.Twice.{revert_run_loses}
use dfip_v.Transform.FactStore.Slice.{IsPage, list_published_slice_lem}
use dfip_v.Transform.FactStore.Upsert.{IsValid, Wrote, tally, upsert_lem, upsert_many-counts}

abbrev pub june_first : Date
june_first = record { year = 2025; month = 6; day = 1 }

-- a fact of one campaign, with its label and the run that made it
abbrev pub fact_of_run : Option String → String → FactRecord
fact_of_run label run_id = record {
  client_id = "c1";
  campaign_id = "k1";
  variation_id = none;
  variation_id_key = "";
  day = june_first;
  descriptors = record {
    campaign_name = none;
    variation_name = none;
    channel = some "SMS";
    type_of_campaign = none;
    start_date = none;
    template_name_whatsapp = none;
  };
  integers = record {
    sent = none;
    failed = none;
    delivered = some (pos 10);
    unique_impressions = none;
    unique_clicks = none;
    unique_conversions = none;
    unique_impression_through_conversions = none;
    unique_click_through_conversions = none;
  };
  decimals = record {
    revenue_inr = none;
    impression_through_revenue_inr = none;
    click_through_revenue_inr = none;
  };
  labels = record {
    filter_logic_1 = label;
    filter_logic_2 = none;
    template_status = some "";
    amc_status_filter_logic_3 = none;
    amc_device_category_filter_logic_4 = none;
    amc_product_cat_filter_logic_5 = none;
    manual_or_automated = none;
    filter_logic_1_group = label;
    label_match_status = some "matched";
    template_match_status = some "blank_key";
  };
  derived = record {
    month_start = none;
    month_label = none;
    total_cost = some (pos 15000);
    hhh = some "00";
  };
  lineage = record {
    rate_card_rule_id = none;
    processing_run_id = some run_id;
    batch_id = some "b1";
    campaign_label_version_id = none;
    template_label_version_id = none;
    rate_card_version_id = none;
    label_group_version_id = none;
  };
  first_seen_at = 5;
  last_seen_at = 5;
}

abbrev pub old : FactRecord
old = fact_of_run (some "Gold") "r1"

abbrev pub new : FactRecord
new = fact_of_run (some "Silver") "r2"

abbrev newer : FactRecord
newer = fact_of_run (some "Bronze") "r2"

abbrev before : FactStore
before = record { facts = (key old, old) ∷ []; history = [] }

before-IsValid : IsValid before
unfolding lookup
before-IsValid = record {
  unique = (refl, tt);
  keyed = λ k f e. ground (arith, e, fact_key_eq.equal_iff (key old) k);
}

upsert_lem_example :
    let (s', a) = upsert 9 new before in
    Wrote 9 new before s' (some old) a
    × ((k : FactKey) → k ≢ key new → lookup k s'.facts ≡ lookup k before.facts)
unfolding lookup fact_key_beq
upsert_lem_example = upsert_lem 9 new before

upsert_many-counts_example :
    let (s', actions) = upsert_many ((9, new) ∷ []) before in
    (length s'.facts ≡ length before.facts + tally inserted actions)
    × (length s'.history ≡ length before.history + tally restated actions)
    × (tally inserted actions + tally restated actions + tally unchanged actions ≡ 1)
upsert_many-counts_example = upsert_many-counts ((9, new) ∷ []) before

new_run-IsUntouched : (k : FactKey) → IsUntouched "r2" before k
unfolding lookup latest_at
new_run-IsUntouched k = record {
  no_archive = refl;
  not_owned = ground (arith, fact_key_eq.equal_iff (key old) k);
}

revert_run-upsert_many_example :
    lookup (key old) (revert_run "r2" (upsert_many ((9, new) ∷ []) before).0).facts
    ≡ lookup (key old) before.facts
revert_run-upsert_many_example =
    revert_run-upsert_many "r2" ((9, new) ∷ []) before (refl, tt) (tt, tt) before-IsValid
      new_run-IsUntouched (key old)

revert_run_loses_example :
    lookup (key new) (revert_run "r2" (upsert_many ((9, new) ∷ (10, newer) ∷ []) before).0).facts
    ≡ none
unfolding lookup fact_key_beq same_business_values
revert_run_loses_example =
    revert_run_loses "r2" 9 10 old new newer before before-IsValid (new_run-IsUntouched (key new))
      refl refl refl refl (omega arith) refl

abbrev june : SliceQuery
june = record {
  client_id = "c1";
  processing_run_id = "r1";
  period_start = some june_first;
  period_end = none;
  fact_scope = "processing_run";
}

list_published_slice_lem_example :
    let (page, total) = list_published_slice june 50 0 before in IsPage june 50 0 before page total
list_published_slice_lem_example = list_published_slice_lem june 50 0 before

cost_exact_example :
    FollowsContract
      (expected_rate "rate-v2" (some "") (some "whatsapp"))
      (some (pos 3))
      (calculate_total_cost "rate-v2" (some "") (some "whatsapp") (some (pos 3)))
cost_exact_example = cost_exact "rate-v2" (some "") (some "whatsapp") (some (pos 3))

abbrev expectation : Expectation
expectation = record {
  rate_card_version_label = "rate-v1";
  processing_run_id = "r1";
  campaign_label_version_id = none;
  template_label_version_id = none;
}

reconcile_run_lem_example :
    let r = reconcile_run (λ f problems. f.campaign_id) expectation (old ∷ new ∷ []) in
    (passed r ≡ every (is_sound expectation) (old ∷ new ∷ []))
    × (check_of "derived_values" r ≡ every (no_problem expectation) (old ∷ new ∷ []))
    × (check_of "lineage" r ≡ every (lineage_ok expectation) (old ∷ new ∷ []))
    × (check_of "configuration_versions" r ≡ every (version_ok expectation) (old ∷ new ∷ []))
    × (r.total_delivered ≡ sum_ints (map (λ f. get_or f.delivered (pos 0)) (old ∷ new ∷ [])))
    × (r.total_cost ≡ sum_ints (map (λ f. get_or f.total_cost (pos 0)) (old ∷ new ∷ [])))
reconcile_run_lem_example =
    reconcile_run_lem (λ f problems. f.campaign_id) expectation (old ∷ new ∷ [])
