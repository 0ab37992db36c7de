-- ===== src/Transform/Engine/Run.antt =====
-- `run_transformation` of packages/core/dfip_core/transform/engine.py around its loop: the checks
-- before it, and what becomes of the run and the batch after it.
use dfip_v.Prelude.{
  ℕ, String, Bool, Option, none, some, List, [], ◌==◌, string_eq, nat_eq, ◌||◌, map, leb, ltb,
  if◌then◌else◌,
}
use dfip_v.Prelude.Dates.{DateTime, Moment}
use dfip_v.Prelude.Dict.{lookup}
use dfip_v.Prelude.Result.{Result, ok, err}
use dfip_v.Prelude.Int.{ℤ, pos_part}
use dfip_v.Config.Identity.{Manifest}
use dfip_v.Config.Catalog.{CatalogStore}
use dfip_v.Ingest.Records.{BatchRecord, StagedRowRecord, ProcessingRunRecord}
use dfip_v.Ingest.Store.{IngestStore, save_batch}
use dfip_v.Ingest.Store.Queries.{staged_for_batch}
use dfip_v.Ingest.Store.Runs.{save_processing_run, owned_processing_run}
use dfip_v.Transform.Extract.{Cell}
use dfip_v.Transform.Fact.{FactRecord, fact_key_eq}
use dfip_v.Transform.FactStore.{FactStore}
use dfip_v.Transform.Labels.{Packaged}
use dfip_v.Transform.Engine.{RowRejection, RowOutcome, TransformResult, transform_row, for_day}
use dfip_v.Transform.Engine.Loop.{Loop, take_outcomes}

pub data EngineError : Type 0 where
  unknown_batch unknown_processing_run foreign_processing_run : EngineError

abbrev pub no_result : TransformResult
no_result = record {
  transformed = 0;
  inserted_count = 0;
  restated_count = 0;
  unchanged_count = 0;
  rejected = 0;
  rejections = [];
}

abbrev pub chunk_of : ℤ → ℕ
chunk_of persist_chunk_size =
    if leb 1 (pos_part persist_chunk_size) then pos_part persist_chunk_size else 5000

-- `result.transformed > 0 or result.rejected == 0`
abbrev pub succeeds : TransformResult → Bool
succeeds r = ltb 0 r.transformed || r.rejected == 0

-- the store after the last row
unfoldable pub finish : Manifest → ProcessingRunRecord → BatchRecord → Moment → Loop → IngestStore
finish manifest run batch finished l =
    let run' = record run {
      finished_at = some finished;
      status = if succeeds l.result then "succeeded" else "failed";
      error_summary = none;
      progress_at = some l.progress_at;
    } in
    let saved = save_processing_run manifest run' l.ingest in
    if succeeds l.result then save_batch (record batch { status = "processed" }) saved else saved

-- what `run_transformation` leaves in the two stores, and what it returns
pub record Transformed : Type 0 where
  pub ingest : IngestStore
  pub facts : FactStore
  pub result : TransformResult

-- The readings of the clock and the other outside values of one run.
pub record Outside : Type 0 where
  pub clock : FactRecord → Moment
  pub tick : ℕ → Moment
  pub observed : StagedRowRecord → Moment
  pub finished : Moment
  pub fresh : ℕ → String
  pub sentence : RowRejection → String

module _ (p : Packaged) (str_of : Cell → String) (fromisoformat : String → Option DateTime)
    (out : Outside) where
  unfoldable pub outcomes_of :
      Option CatalogStore
      → String
      → String
      → ProcessingRunRecord
      → List StagedRowRecord
      → List RowOutcome
  outcomes_of catalog client_id batch_id run rows =
      map
        (λ row.
          transform_row p str_of fromisoformat row
            (for_day p str_of fromisoformat catalog client_id run) client_id batch_id run.id
            (out.observed row))
        rows

  -- the run as the first save leaves it
  unfoldable pub begun : ProcessingRunRecord → ProcessingRunRecord
  begun run =
      owned_processing_run p.manifest
        (record run { status = "running"; finished_at = none; progress_at = some (out.tick 0) })

  unfoldable pub begin_loop : IngestStore → FactStore → Loop
  begin_loop ingest facts = record {
    ingest = ingest;
    facts = facts;
    result = no_result;
    seen = [];
    pending = [];
    seen_rows = 0;
    progress_at = out.tick 0;
  }

  unfoldable pub run_found :
      Option CatalogStore
      → Bool
      → ℤ
      → String
      → BatchRecord
      → ProcessingRunRecord
      → IngestStore
      → FactStore
      → Transformed
  run_found catalog persist_rejections persist_chunk_size batch_id batch run ingest facts =
      let run' = begun run in
      let started = save_processing_run p.manifest run' ingest in
      let l =
        take_outcomes out.clock out.tick out.fresh out.sentence batch_id persist_rejections
          (chunk_of persist_chunk_size)
          (outcomes_of catalog batch.client_id batch_id run' (staged_for_batch batch_id started))
          (begin_loop started facts) in
      record {
        ingest = finish p.manifest run' batch out.finished l;
        facts = l.facts;
        result = l.result;
      }

  -- `run_transformation` once the batch and the run are looked up
  abbrev run_over :
      String
      → Option CatalogStore
      → Bool
      → ℤ
      → IngestStore
      → FactStore
      → Option BatchRecord
      → Option ProcessingRunRecord
      → Result EngineError Transformed
  run_over batch_id catalog persist_rejections persist_chunk_size ingest facts none _ =
      err unknown_batch
  run_over batch_id catalog persist_rejections persist_chunk_size ingest facts (some batch) none =
      err unknown_processing_run
  run_over batch_id catalog persist_rejections persist_chunk_size ingest facts (some batch)
        (some run) =
      if run.batch_id == batch_id
      then ok
          (run_found catalog persist_rejections persist_chunk_size batch_id batch run ingest facts)
      else err foreign_processing_run

  unfoldable pub run_transformation :
      String
      → String
      → Option CatalogStore
      → Bool
      → ℤ
      → IngestStore
      → FactStore
      → Result EngineError Transformed
  run_transformation batch_id processing_run_id catalog persist_rejections persist_chunk_size ingest
        facts =
      run_over batch_id catalog persist_rejections persist_chunk_size ingest facts
        (lookup batch_id ingest.batches) (lookup processing_run_id ingest.processing_runs)
