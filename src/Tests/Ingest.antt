-- ===== src/Tests/Ingest.antt =====
-- Runs of the ingest store of packages/core/dfip_core/ingest/store.py.
use dfip_v.Prelude.{
  ℕ, ◌≡◌, refl, String, string_eq, option_eq, false, Option, none, some, List, [], ◌∷◌, ◌==◌, ◌⊎◌,
  Bool-cases, inl, inr, eq_iff, ap, sym, ◌∙◌,
}
use mathlib.Core.Option.{some-injective}
use dfip_v.Prelude.Dict.{lookup}
use dfip_v.Prelude.Int.{pos}
use dfip_v.Prelude.Result.{ok, err}
use dfip_v.Config.Identity.{Manifest}
use dfip_v.Ingest.Progress.{Report}
use dfip_v.Ingest.Records.{
  BatchRecord, SourceFileRecord, StagedRowRecord, VersionIds, no_counts, no_layout, no_progress,
}
use dfip_v.Ingest.Store.{
  IngestStore, processing_cancelled, save_batch_progress, request_cancel, purge_client,
  delete_batch_record, cancelling,
}
use dfip_v.Ingest.Store.Cancel.{Op, reports, resets, purges, deletes, run_ops, request_cancel-stops}
use dfip_v.Ingest.Store.Purge.{Purged, Spared, purge_client_lem}
use dfip_v.Ingest.Store.Deletion.{Deleted, FileOutcome, delete_batch_record_lem}
use dfip_v.Ingest.Store.Runs.{create_processing_run}
use dfip_v.Ingest.Store.Runs.Active.{Joins, Starts, create_processing_run_lem}

abbrev pub manifest : Manifest
manifest = record {
  client_id = "c1";
  ids = ("rate-v1", "r1") ∷ [];
  campaign_versions = [];
  template_versions = [];
}

abbrev pub file : SourceFileRecord
file = record {
  id = "f1";
  client_id = "c1";
  sha256 = "abc";
  original_filename = "june.xlsx";
  byte_size = 1000;
  source_kind = "xlsx";
  uploaded_at = 1;
  storage_uri = none;
}

abbrev pub batch : BatchRecord
batch = record {
  id = "b1";
  source_file_id = "f1";
  client_id = "c1";
  status = "received";
  counts = no_counts;
  layout = no_layout;
  created_at = 2;
  completed_at = none;
  error_summary = none;
  progress = record no_progress {
    progress_stage = some "staging";
    progress_current = some (pos 99);
    progress_total = some (pos 100);
  };
  cancel_requested = false;
}

abbrev row : StagedRowRecord
row = record {
  id = "s1";
  batch_id = "b1";
  source_row_number = 3;
  raw = [];
  campaign_id = none;
  variation_id = none;
  day = none;
}

abbrev pub store : IngestStore
store = record {
  source_files = ("abc", file) ∷ [];
  source_files_by_id = ("f1", file) ∷ [];
  batches = ("b1", batch) ∷ [];
  staged_rows = row ∷ [];
  rejected_rows = [];
  processing_runs = [];
}

abbrev versions : VersionIds
versions = record {
  campaign_label_version_id = none;
  template_label_version_id = none;
  rate_card_version_id = some "r1";
  label_group_version_id = none;
}

abbrev validating : Report
validating = record { stage = some "validating"; current = none; total = none; message = none }

abbrev shown : ℕ
shown = 99

abbrev staging : Option String
staging = some "staging"

abbrev between : List Op
between = resets "b1" ∷ reports "b1" cancelling 8 ∷ purges "c2" ∷ deletes "b2" ∷ []

-- files stand under their own ids
keyed_by_id :
    (k : String) (f : SourceFileRecord) → lookup k store.source_files_by_id ≡ some f → f.id ≡ k
unfolding lookup
keyed_by_id k f l = elim (Bool-cases ("f1" == k)) [
  | inl same ↦
      let l' : some file ≡ some f = rw same at l in
      ap (λ g. g.id) (sym (some-injective _ _ l')) ∙ (eq_iff "f1" k).0 same
  | inr other ↦ let l' : none ≡ some f = rw other at l in absurd cc
]

request_cancel-stops_example :
    save_batch_progress "b1" validating 9 (run_ops between (request_cancel "b1" 5 store).0)
    ≡ err (processing_cancelled "b1")
unfolding lookup
request_cancel-stops_example =
    request_cancel-stops "b1" batch validating 5 9 between store refl (tt, (tt, (refl, (refl, tt))))
      refl

purge_client_lem_example :
    Purged "c1" store (purge_client "c1" store) × Spared "c1" store (purge_client "c1" store)
unfolding lookup
purge_client_lem_example =
    purge_client_lem "c1" store (refl, tt) (refl, tt) (refl, tt) keyed_by_id tt

delete_batch_record_lem_example :
    (s' : IngestStore) × (removed : Option String) × (delete_batch_record "b1" store
      ≡ ok (s', removed))
    × Deleted "b1" store s'
    × FileOutcome "f1" "b1" store s' removed
unfolding lookup
delete_batch_record_lem_example =
    delete_batch_record_lem "b1" batch store (refl, tt) tt (refl, tt) (refl, tt) refl

create_processing_run_lem_example :
    let (s', run) = create_processing_run manifest "b1" versions none "p1" 5 store in
    Joins "b1" store s' run ⊎ Starts "b1" "p1" 5 store s' run
create_processing_run_lem_example =
    create_processing_run_lem manifest "b1" versions none "p1" 5 store tt
