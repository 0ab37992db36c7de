-- ===== src/Ingest/Store/Runs.antt =====
-- The processing runs of `InMemoryIngestStore`. Their version ids pass the ownership test of
-- packages/config/dfip_config/catalog_identity.py, under the packaged manifest.
pub mod Active
use dfip_v.Prelude.{
  ℕ, suc, String, Bool, true, false, not, Option, none, some, List, [], ◌∷◌, ◌&&◌, ◌||◌, ◌==◌,
  string_eq, nat_eq, filter, if◌then◌else◌, ltb, length,
}
use dfip_v.Prelude.Dates.{Moment}
use dfip_v.Prelude.Dict.{lookup, insert, values, map_values}
use dfip_v.Prelude.Sort.{best, sort}
use dfip_v.Prelude.Text.{is_falsy, str_ltb}
use dfip_v.Config.Identity.{Manifest, strip_foreign_packaged_catalog_version_id}
use dfip_v.Ingest.Records.{BatchRecord, ProcessingRunRecord, VersionIds}
use dfip_v.Ingest.Store.{IngestStore}

-- `run.status in {"pending", "running"}`
abbrev pub is_open : ProcessingRunRecord → Bool
is_open run = run.status == "pending" || run.status == "running"

abbrev pub is_open_of : String → ProcessingRunRecord → Bool
is_open_of batch_id run = run.batch_id == batch_id && is_open run

abbrev later : ProcessingRunRecord → ProcessingRunRecord → Bool
later a b = ltb b.started_at a.started_at

abbrev earlier : ProcessingRunRecord → ProcessingRunRecord → Bool
earlier a b = ltb a.started_at b.started_at

unfoldable pub active_processing_run_for_batch : String → IngestStore → Option ProcessingRunRecord
active_processing_run_for_batch batch_id s =
    best later (filter (is_open_of batch_id) (values s.processing_runs))

pub processing_run_for_batch : String → IngestStore → Option ProcessingRunRecord
processing_run_for_batch batch_id s =
    best earlier (filter (λ run. run.batch_id == batch_id) (values s.processing_runs))

-- sorted by `(started_at, id)` in reverse
abbrev newer : ProcessingRunRecord → ProcessingRunRecord → Bool
newer a b = ltb b.started_at a.started_at || (b.started_at == a.started_at && str_ltb b.id a.id)

pub list_processing_runs_for_batch : String → IngestStore → List ProcessingRunRecord
list_processing_runs_for_batch batch_id s =
    sort newer (filter (λ run. run.batch_id == batch_id) (values s.processing_runs))

-- The client of the batch, if the batch is there.
abbrev pub client_of : Option BatchRecord → Option String
client_of none = none
client_of (some batch) = some batch.client_id

abbrev pub abandoned : String → Moment → ProcessingRunRecord → ProcessingRunRecord
abandoned reason now run =
    if is_open run
    then record run {
      status = "failed";
      finished_at = some now;
      error_summary = if is_falsy run.error_summary then some reason else run.error_summary;
    }
    else run

unfoldable pub fail_abandoned_processing_runs : String → Moment → IngestStore → IngestStore × ℕ
fail_abandoned_processing_runs reason now s = (
  record s { processing_runs = map_values (abandoned reason now) s.processing_runs },
  length (filter is_open (values s.processing_runs)),
)

module _ (manifest : Manifest) where
  unfoldable pub owned_versions : Option String → VersionIds → VersionIds
  owned_versions client_id v = record {
    campaign_label_version_id =
        strip_foreign_packaged_catalog_version_id manifest client_id v.campaign_label_version_id;
    template_label_version_id =
        strip_foreign_packaged_catalog_version_id manifest client_id v.template_label_version_id;
    rate_card_version_id =
        strip_foreign_packaged_catalog_version_id manifest client_id v.rate_card_version_id;
    label_group_version_id =
        strip_foreign_packaged_catalog_version_id manifest client_id v.label_group_version_id;
  }

  -- `_owned_processing_run`
  abbrev pub owned_processing_run : ProcessingRunRecord → ProcessingRunRecord
  owned_processing_run run = record run { versions = owned_versions run.client_id run.versions }

  unfoldable pub save_processing_run : ProcessingRunRecord → IngestStore → IngestStore
  save_processing_run run s = record s {
    processing_runs = insert run.id (owned_processing_run run) s.processing_runs;
  }

  unfoldable pub new_processing_run :
      String → VersionIds → Option String → String → Moment → IngestStore → ProcessingRunRecord
  new_processing_run batch_id versions engine_version id now s =
      let client_id = client_of (lookup batch_id s.batches) in
      record {
        id = id;
        batch_id = batch_id;
        versions = owned_versions client_id versions;
        engine_version = engine_version;
        started_at = now;
        finished_at = none;
        status = "pending";
        qa_verdict = none;
        client_id = client_id;
        error_summary = none;
        progress_at = none;
      }

  unfoldable pub add_processing_run :
      String
      → VersionIds
      → Option String
      → String
      → Moment
      → IngestStore
      → IngestStore × ProcessingRunRecord
  add_processing_run batch_id versions engine_version id now s =
      let run = new_processing_run batch_id versions engine_version id now s in
      (record s { processing_runs = insert id run s.processing_runs }, run)

  abbrev pub create_over :
      String
      → VersionIds
      → Option String
      → String
      → Moment
      → IngestStore
      → Option ProcessingRunRecord
      → IngestStore × ProcessingRunRecord
  create_over batch_id versions engine_version id now s (some active) = (s, active)
  create_over batch_id versions engine_version id now s none =
      add_processing_run batch_id versions engine_version id now s

  unfoldable pub create_processing_run :
      String
      → VersionIds
      → Option String
      → String
      → Moment
      → IngestStore
      → IngestStore × ProcessingRunRecord
  create_processing_run batch_id versions engine_version id now s =
      create_over batch_id versions engine_version id now s
        (active_processing_run_for_batch batch_id s)
