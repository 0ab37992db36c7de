-- ===== src/Tests/Engine.antt =====
-- A run of packages/core/dfip_core/transform/engine.py over three rows: one that becomes a fact, one
-- that repeats its key and one without a campaign.
use mathlib.Core.Option
use dfip_v.Prelude.{
  ℕ, ◌≡◌, refl, String, string_eq, true, if◌then◌else◌, Option, none, some, [], ◌∷◌, length,
}
use dfip_v.Prelude.Dates.{DateTime}
use dfip_v.Prelude.Dict.{lookup}
use dfip_v.Prelude.Int.{pos}
use dfip_v.Prelude.Result.{ok}
use dfip_v.Ingest.Records.{StagedRowRecord, ProcessingRunRecord}
use dfip_v.Ingest.Store.{IngestStore}
use dfip_v.Ingest.Store.Queries.{staged_for_batch}
use dfip_v.Transform.Extract.{Cell, text, SourceFields}
use dfip_v.Transform.FactStore.{FactStore, upsert_many}
use dfip_v.Transform.Labels.{Packaged, ConfigBundle}
use dfip_v.Transform.Engine.{transform_row, for_day}
use dfip_v.Transform.Engine.Run.{Outside, Transformed, run_transformation, run_found, succeeds}
use dfip_v.Transform.Engine.Chunks.{accepted, stamped}
use dfip_v.Transform.Engine.Counts.{
  Counted, outcomes, written, run_transformation_lem, run_transformation-chunks,
}
use dfip_v.Transform.Reconcile.Rows.{Reconciles, transform_row-Reconciles}
use dfip_v.Tests.Ingest.{manifest, batch, store}

abbrev packaged : Packaged
packaged = record {
  manifest = manifest;
  campaign_windows = ("newlogic-v1", none, none) ∷ [];
  template_windows = ("tpl-v1", none, none) ∷ [];
  campaign_rows = λ label. [];
  template_rows = λ label. [];
  group_rows = λ label. [];
}

-- Every cell of the rows below that these are asked of is a text, or a text that is this date.
abbrev str_of : Cell → String
str_of cell = "None"

abbrev fromisoformat : String → Option DateTime
fromisoformat s =
    some (record {
      date = record { year = 2025; month = 8; day = 3 };
      hour = 9;
      minute = 0;
      second = 0;
    })

abbrev row : String → ℕ → String → StagedRowRecord
row id number campaign = record {
  id = id;
  batch_id = "b1";
  source_row_number = number;
  raw =
      ("Campaign ID", text campaign)
      ∷ ("Day", text "2025-08-03")
      ∷ ("Channel", text "sms")
      ∷ ("Delivered", text "12")
      ∷ [];
  campaign_id = none;
  variation_id = none;
  day = none;
}

abbrev run : ProcessingRunRecord
run = record {
  id = "p1";
  batch_id = "b1";
  versions = record {
    campaign_label_version_id = none;
    template_label_version_id = none;
    rate_card_version_id = none;
    label_group_version_id = none;
  };
  engine_version = none;
  started_at = 3;
  finished_at = none;
  status = "pending";
  qa_verdict = none;
  client_id = some "c1";
  error_summary = none;
  progress_at = none;
}

abbrev staged : IngestStore
staged = record store {
  staged_rows = row "s1" 4 "k1" ∷ row "s2" 5 "k1" ∷ row "s3" 6 "" ∷ [];
  processing_runs = ("p1", run) ∷ [];
}

abbrev no_facts : FactStore
no_facts = record { facts = []; history = [] }

abbrev outside : Outside
outside = record {
  clock = λ f. 10;
  tick = λ n. n;
  observed = λ staged. 7;
  finished = 20;
  fresh = λ n. "x";
  sentence = λ r. "rejected";
}

run_transformation_lem_example :
    let rows =
      outcomes packaged str_of fromisoformat outside none true "b1" batch run staged no_facts in
    (t : Transformed) × (run_transformation packaged str_of fromisoformat outside "b1" "p1" none
        true
        (pos 2)
        staged
        no_facts
      ≡ ok t)
    × (t.facts ≡ (upsert_many (stamped outside.clock (accepted [] rows)) no_facts).0)
    × Counted (length (staged_for_batch "b1" staged)) t.result
    × (Option.map (λ r. r.status) (lookup run.id t.ingest.processing_runs)
        ≡ some (if succeeds t.result then "succeeded" else "failed"))
unfolding lookup
run_transformation_lem_example =
    run_transformation_lem packaged str_of fromisoformat outside none true (pos 2) "b1" "p1" batch
      run staged no_facts refl refl refl

run_transformation-chunks_example :
    written (
      run_found packaged str_of fromisoformat outside none true
        (pos 1)
        "b1"
        batch
        run
        staged
        no_facts)
    ≡ written (
        run_found packaged str_of fromisoformat outside none true
          (pos 5000)
          "b1"
          batch
          run
          staged
          no_facts)
run_transformation-chunks_example =
    run_transformation-chunks packaged str_of fromisoformat outside none true "b1" batch run staged
      no_facts (pos 1) (pos 5000)

transform_row-Reconciles_example :
    Reconciles (for_day packaged str_of fromisoformat none "c1" run) "c1" "b1" "p1" (
      transform_row packaged str_of fromisoformat
        (row "s1" 4 "k1")
        (for_day packaged str_of fromisoformat none "c1" run)
        "c1"
        "b1"
        "p1"
        7)
transform_row-Reconciles_example =
    transform_row-Reconciles packaged str_of fromisoformat (row "s1" 4 "k1") none "c1" "b1" run 7

abbrev fields : SourceFields
fields = record {
  campaign_id = "k1";
  day = record { year = 2025; month = 8; day = 3 };
  variation_id = some "A";
  descriptors = record {
    campaign_name = none;
    variation_name = none;
    channel = some "sms";
    type_of_campaign = none;
    start_date = none;
    template_name_whatsapp = none;
  };
  integers = record {
    sent = none;
    failed = none;
    delivered = some (pos 12);
    unique_impressions = none;
    unique_clicks = none;
    unique_conversions = none;
    unique_impression_through_conversions = none;
    unique_click_through_conversions = none;
  };
  decimals = record {
    revenue_inr = none;
    impression_through_revenue_inr = none;
    click_through_revenue_inr = none;
  };
}

abbrev bundle : ConfigBundle
bundle = record {
  campaign_version_label = "newlogic-v1";
  template_version_label = "tpl-v1";
  rate_card_version_label = "rate-v2";
  label_group_version_label = "fl1-group-v1";
  campaign_label_version_id = none;
  template_label_version_id = none;
  rate_card_version_id = some "r2";
  label_group_version_id = none;
  binding_day = record { year = 2025; month = 8; day = 3 };
  campaign_rows = none;
  label_group_rows = none;
}
