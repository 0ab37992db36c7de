-- ===== src/Transform/Engine.antt =====
-- packages/core/dfip_core/transform/engine.py: a staged row becomes a fact or a rejection. The
-- binder's memory of a day is left out: what it remembers is what it would compute again. A rejection
-- carries its code; the sentence that goes with it is left out.
pub mod Loop
pub mod Run
pub mod Chunks
pub mod Counts
use dfip_v.Prelude.{
  ℕ, suc, ◌+◌, String, Bool, true, false, not, Option, none, some, List, [], ◌∷◌, ◌++◌, ◌==◌,
  string_eq, nat_eq, ◌||◌, length, map, any, leb, ltb, if◌then◌else◌,
}
use dfip_v.Prelude.Dates.{Date, DateTime, Moment}
use dfip_v.Prelude.Dict.{lookup}
use dfip_v.Prelude.Result.{Result, ok, err, ◌>>=◌}
use dfip_v.Prelude.Int.{ℤ, pos_part}
use dfip_v.Config.Identity.{Manifest}
use dfip_v.Config.Catalog.{CatalogStore}
use dfip_v.Config.Resolve.{MatchStatus, matched, unmatched, blank_key}
use dfip_v.Ingest.Records.{BatchRecord, StagedRowRecord, RejectedRowRecord, ProcessingRunRecord}
use dfip_v.Ingest.Store.{IngestStore, add_rejected_row, save_batch}
use dfip_v.Ingest.Store.Queries.{staged_for_batch}
use dfip_v.Ingest.Store.Runs.{save_processing_run, owned_processing_run}
use dfip_v.Transform.Cost.{CostResolution, calculate_total_cost, persistable_rate_card_rule_id}
use dfip_v.Transform.Derive.{month_start, month_label, hhh, variation_id_key}
use dfip_v.Transform.Extract.{
  Cell, ReasonCode, missing_campaign_id, missing_day, invalid_day, invalid_numeric,
  no_config_version, duplicate_grain_key, SourceFields, extract_source_fields,
}
use dfip_v.Transform.Fact.{FactKey, FactRecord, key, fact_key_eq}
use dfip_v.Transform.FactStore.{FactStore, Action, inserted, restated, unchanged, upsert_many}
use dfip_v.Transform.Labels.{
  Packaged, ConfigBundle, BindingError, campaign, template, filter_logic_1_group,
  bind_configuration_for_run,
}

pub record RowRejection : Type 0 where
  pub source_row_number : ℕ
  pub reason_code : ReasonCode

-- `RowOutcome`: exactly one of its `fact` and `rejection` is set
pub data RowOutcome : Type 0 where
  fact : ℕ → FactRecord → RowOutcome
  rejection : RowRejection → RowOutcome

pub record TransformResult : Type 0 where
  pub transformed : ℕ
  pub inserted_count : ℕ
  pub restated_count : ℕ
  pub unchanged_count : ℕ
  pub rejected : ℕ
  pub rejections : List RowRejection

abbrev pub reason_text : ReasonCode → String
reason_text missing_campaign_id = "MISSING_CAMPAIGN_ID"
reason_text missing_day = "MISSING_DAY"
reason_text invalid_day = "INVALID_DAY"
reason_text invalid_numeric = "INVALID_NUMERIC"
reason_text no_config_version = "NO_CONFIG_VERSION"
reason_text duplicate_grain_key = "DUPLICATE_GRAIN_KEY"

abbrev pub status_text : MatchStatus → String
status_text matched = "matched"
status_text unmatched = "unmatched"
status_text blank_key = "blank_key"

module _ (p : Packaged) (str_of : Cell → String) (fromisoformat : String → Option DateTime) where
  -- the fact of a row, once its fields and its configuration are known
  unfoldable pub fact_of :
      String → String → String → Moment → SourceFields → ConfigBundle → FactRecord
  fact_of client_id batch_id processing_run_id observed_at fields bundle =
      let labels = campaign p bundle fields.descriptors.campaign_name in
      let status = template p bundle fields.descriptors.template_name_whatsapp in
      let cost =
        calculate_total_cost bundle.rate_card_version_label (some status.template_status)
          fields.descriptors.channel fields.integers.delivered in
      record {
        client_id = client_id;
        campaign_id = fields.campaign_id;
        variation_id = fields.variation_id;
        variation_id_key = variation_id_key fields.variation_id;
        day = fields.day;
        descriptors = fields.descriptors;
        integers = fields.integers;
        decimals = fields.decimals;
        labels = record {
          filter_logic_1 = labels.filter_logic_1;
          filter_logic_2 = labels.filter_logic_2;
          template_status = some status.template_status;
          amc_status_filter_logic_3 = labels.amc_status_filter_logic_3;
          amc_device_category_filter_logic_4 = labels.amc_device_category_filter_logic_4;
          amc_product_cat_filter_logic_5 = labels.amc_product_cat_filter_logic_5;
          manual_or_automated = labels.manual_or_automated;
          filter_logic_1_group = filter_logic_1_group p bundle labels.filter_logic_1;
          label_match_status = some (status_text labels.match_status);
          template_match_status = some (status_text status.match_status);
        };
        derived = record {
          month_start = some (month_start fields.day);
          month_label = some (month_label fields.day);
          total_cost = some cost.total_cost;
          hhh = some (hhh fields.descriptors.start_date);
        };
        lineage = record {
          rate_card_rule_id =
              persistable_rate_card_rule_id p.manifest (some client_id) cost.rule_id;
          processing_run_id = some processing_run_id;
          batch_id = some batch_id;
          campaign_label_version_id = bundle.campaign_label_version_id;
          template_label_version_id = bundle.template_label_version_id;
          rate_card_version_id = bundle.rate_card_version_id;
          label_group_version_id = bundle.label_group_version_id;
        };
        first_seen_at = observed_at;
        last_seen_at = observed_at;
      }

  abbrev pub bundle_or_none : Result BindingError ConfigBundle → Option ConfigBundle
  bundle_or_none (ok bundle) = some bundle
  bundle_or_none (err e) = none

  -- `ConfigBinder.for_day` of a binder that was given the run
  unfoldable pub for_day :
      Option CatalogStore → String → ProcessingRunRecord → Date → Option ConfigBundle
  for_day catalog client_id run day = bundle_or_none (
      bind_configuration_for_run p day run.versions.campaign_label_version_id
        run.versions.template_label_version_id run.versions.rate_card_version_id
        run.versions.label_group_version_id catalog (some client_id))

  abbrev bound :
      ℕ
      → (SourceFields → ConfigBundle → FactRecord)
      → SourceFields
      → Option ConfigBundle
      → RowOutcome
  bound row_number make fields none =
      rejection (record { source_row_number = row_number; reason_code = no_config_version })
  bound row_number make fields (some bundle) = fact row_number (make fields bundle)

  abbrev extracted :
      ℕ
      → (Date → Option ConfigBundle)
      → (SourceFields → ConfigBundle → FactRecord)
      → Result ReasonCode SourceFields
      → RowOutcome
  extracted row_number binder make (err reason) =
      rejection (record { source_row_number = row_number; reason_code = reason })
  extracted row_number binder make (ok fields) = bound row_number make fields (binder fields.day)

  unfoldable pub transform_row :
      StagedRowRecord
      → (Date → Option ConfigBundle)
      → String
      → String
      → String
      → Moment
      → RowOutcome
  transform_row staged binder client_id batch_id processing_run_id observed_at =
      extracted staged.source_row_number binder
        (fact_of client_id batch_id processing_run_id observed_at)
        (extract_source_fields str_of fromisoformat staged.raw)
