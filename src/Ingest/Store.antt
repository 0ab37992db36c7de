-- ===== src/Ingest/Store.antt =====
-- `InMemoryIngestStore` of packages/core/dfip_core/ingest/store.py. Its lock makes every method one
-- step; fresh ids and readings of the clock are arguments. A file is stored under its hash and under
-- its id as one shared object, so a change of it is written to both.
pub mod Queries
pub mod Cancel
pub mod Runs
pub mod Purge
pub mod Deletion
use dfip_v.Prelude.{
  ℕ, String, Bool, true, false, not, Option, none, some, List, [], ◌∷◌, ◌++◌, ◌&&◌, ◌||◌, ◌==◌,
  string_eq, option_eq, filter, map, any, if◌then◌else◌, ltb, length,
}
use dfip_v.Prelude.Dates.{Moment}
use dfip_v.Prelude.Dict.{Dict, lookup, insert, erase, values, filter_values, map_values}
use dfip_v.Prelude.Sort.{best}
use dfip_v.Prelude.Text.{is_falsy}
use dfip_v.Prelude.Result.{Result, ok, err}
use dfip_v.Config.Identity.{Manifest, strip_foreign_packaged_catalog_version_id}
use dfip_v.Ingest.Progress.{Report, apply_batch_progress}
use dfip_v.Ingest.Records.{
  SourceFileRecord, BatchRecord, StagedRowRecord, RejectedRowRecord, ProcessingRunRecord,
  VersionIds, Layout, no_counts, no_layout, no_progress,
}

pub record IngestStore : Type 0 where
  pub source_files : Dict String SourceFileRecord
  pub source_files_by_id : Dict String SourceFileRecord
  pub batches : Dict String BatchRecord
  pub staged_rows : List StagedRowRecord
  pub rejected_rows : List RejectedRowRecord
  pub processing_runs : Dict String ProcessingRunRecord

pub data IngestError : Type 0 where
  key_error processing_cancelled : String → IngestError

-- `register_source_file` once the file under the hash is known; `fresh` is the record to create
abbrev register_over :
    SourceFileRecord → IngestStore → Option SourceFileRecord → IngestStore × SourceFileRecord
register_over fresh s (some existing) = (s, existing)
register_over fresh s none = (
  record s {
    source_files = insert fresh.sha256 fresh s.source_files;
    source_files_by_id = insert fresh.id fresh s.source_files_by_id;
  },
  fresh,
)

unfoldable pub register_source_file :
    String
    → String
    → String
    → ℕ
    → String
    → String
    → Moment
    → IngestStore
    → IngestStore × SourceFileRecord
register_source_file client_id sha256 original_filename byte_size source_kind id now s =
    register_over
      (record {
        id = id;
        client_id = client_id;
        sha256 = sha256;
        original_filename = original_filename;
        byte_size = byte_size;
        source_kind = source_kind;
        uploaded_at = now;
        storage_uri = none;
      })
      s (lookup sha256 s.source_files)

abbrev set_over :
    String
    → String
    → IngestStore
    → Option SourceFileRecord
    → Result IngestError (IngestStore × SourceFileRecord)
set_over source_file_id storage_uri s none = err (key_error source_file_id)
set_over source_file_id storage_uri s (some file) =
    let file' = record file { storage_uri = some storage_uri } in
    ok (
      record s {
        source_files = insert file.sha256 file' s.source_files;
        source_files_by_id = insert source_file_id file' s.source_files_by_id;
      },
      file',
    )

unfoldable pub set_storage_uri :
    String → String → IngestStore → Result IngestError (IngestStore × SourceFileRecord)
set_storage_uri source_file_id storage_uri s =
    set_over source_file_id storage_uri s (lookup source_file_id s.source_files_by_id)

unfoldable pub create_batch :
    String → String → Layout → String → Moment → IngestStore → IngestStore × BatchRecord
create_batch source_file_id client_id layout id now s =
    let batch : BatchRecord = record {
      id = id;
      source_file_id = source_file_id;
      client_id = client_id;
      status = "received";
      counts = no_counts;
      layout = layout;
      created_at = now;
      completed_at = none;
      error_summary = none;
      progress = no_progress;
      cancel_requested = false;
    } in
    (record s { batches = insert id batch s.batches }, batch)

unfoldable pub save_batch : BatchRecord → IngestStore → IngestStore
save_batch batch s = record s { batches = insert batch.id batch s.batches }

abbrev pub is_cancelling : Option String → Bool
is_cancelling stage = stage == some "cancelling" || stage == some "cancelled"

abbrev pub with_progress : Report → Moment → BatchRecord → BatchRecord
with_progress r now b = record b { progress = apply_batch_progress r now b.progress }

abbrev pub progress_over :
    String → Report → Moment → IngestStore → Option BatchRecord → Result IngestError IngestStore
progress_over batch_id r now s none = ok s
progress_over batch_id r now s (some batch) =
    if batch.cancel_requested && not (is_cancelling r.stage)
    then err (processing_cancelled batch_id)
    else ok (record s { batches = insert batch_id (with_progress r now batch) s.batches })

unfoldable pub save_batch_progress :
    String → Report → Moment → IngestStore → Result IngestError IngestStore
save_batch_progress batch_id r now s = progress_over batch_id r now s (lookup batch_id s.batches)

abbrev pub cancelling : Report
cancelling = record {
  stage = some "cancelling";
  current = none;
  total = none;
  message = some "Cancelling...";
}

abbrev pub cancel_over :
    String → Moment → IngestStore → Option BatchRecord → IngestStore × Option BatchRecord
cancel_over batch_id now s none = (s, none)
cancel_over batch_id now s (some batch) =
    let batch' = with_progress cancelling now (record batch { cancel_requested = true }) in
    (record s { batches = insert batch_id batch' s.batches }, some batch')

unfoldable pub request_cancel : String → Moment → IngestStore → IngestStore × Option BatchRecord
request_cancel batch_id now s = cancel_over batch_id now s (lookup batch_id s.batches)

unfoldable pub discard_staging : String → IngestStore → IngestStore
discard_staging batch_id s = record s {
  staged_rows = filter (λ row. not (row.batch_id == batch_id)) s.staged_rows;
  rejected_rows = filter (λ row. not (row.batch_id == batch_id)) s.rejected_rows;
}

-- the file that loses its last batch goes as well
abbrev pub drop_file : String → IngestStore → Option SourceFileRecord → IngestStore
drop_file source_id s none = s
drop_file source_id s (some file) = record s {
  source_files_by_id = erase source_id s.source_files_by_id;
  source_files = erase file.sha256 s.source_files;
}

abbrev pub delete_over :
    String → IngestStore → Option BatchRecord → Result IngestError (IngestStore × Option String)
delete_over batch_id s none = err (key_error batch_id)
delete_over batch_id s (some batch) =
    let discarded = discard_staging batch_id s in
    let s' = record discarded {
      processing_runs = filter_values (λ run. not (run.batch_id == batch_id)) s.processing_runs;
      batches = erase batch_id s.batches;
    } in
    if any (λ item. item.source_file_id == batch.source_file_id) (values s'.batches)
    then ok (s', none)
    else ok (
      drop_file batch.source_file_id s' (lookup batch.source_file_id s.source_files_by_id),
      some batch.source_file_id,
    )

unfoldable pub delete_batch_record :
    String → IngestStore → Result IngestError (IngestStore × Option String)
delete_batch_record batch_id s = delete_over batch_id s (lookup batch_id s.batches)

unfoldable pub add_staged_row : StagedRowRecord → IngestStore → IngestStore
add_staged_row row s = record s { staged_rows = s.staged_rows ++ row ∷ [] }

unfoldable pub add_staged_rows : List StagedRowRecord → IngestStore → IngestStore
unfolding add_staged_row
add_staged_rows [] s = s
add_staged_rows (row ∷ rows) s = add_staged_rows rows (add_staged_row row s)

unfoldable pub add_rejected_row : RejectedRowRecord → IngestStore → IngestStore
add_rejected_row row s = record s { rejected_rows = s.rejected_rows ++ row ∷ [] }

abbrev pub reset : BatchRecord → BatchRecord
reset batch = record batch {
  status = "received";
  counts = no_counts;
  completed_at = none;
  error_summary = none;
  layout = no_layout;
  progress = no_progress;
}

abbrev pub reset_over : String → IngestStore → Option BatchRecord → Result IngestError IngestStore
reset_over batch_id s none = err (key_error batch_id)
reset_over batch_id s (some batch) =
    let discarded = discard_staging batch_id s in
    ok (record discarded { batches = insert batch_id (reset batch) s.batches })

unfoldable pub reset_staging_for_batch : String → IngestStore → Result IngestError IngestStore
reset_staging_for_batch batch_id s = reset_over batch_id s (lookup batch_id s.batches)

-- `batch_id in batch_ids`, the ids of the client's batches
unfoldable pub is_batch_of : String → IngestStore → String → Bool
is_batch_of client_id s batch_id =
    any (λ batch. batch.client_id == client_id && batch.id == batch_id) (values s.batches)

-- `key in file_ids`
unfoldable pub is_file_of : String → IngestStore → String → Bool
is_file_of client_id s id =
    any (λ file. file.client_id == client_id && file.id == id) (values s.source_files_by_id)

unfoldable pub purge_client : String → IngestStore → IngestStore
purge_client client_id s = record {
  batches = filter_values (λ batch. not (batch.client_id == client_id)) s.batches;
  staged_rows = filter (λ row. not (is_batch_of client_id s row.batch_id)) s.staged_rows;
  rejected_rows = filter (λ row. not (is_batch_of client_id s row.batch_id)) s.rejected_rows;
  processing_runs =
      filter_values
        (λ run. not (run.client_id == some client_id) && not (is_batch_of client_id s run.batch_id))
        s.processing_runs;
  source_files = filter_values (λ file. not (file.client_id == client_id)) s.source_files;
  source_files_by_id = filter (λ entry. not (is_file_of client_id s entry.0)) s.source_files_by_id;
}
