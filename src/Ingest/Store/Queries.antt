-- ===== src/Ingest/Store/Queries.antt =====
-- The questions that the workers ask of the batches and the rows of `InMemoryIngestStore`.
use dfip_v.Prelude.{
  ◌≡◌, refl, ap, Bool-cases, inl, inr, ℕ, zero, suc, String, Bool, true, false, not, Option, List,
  [], ◌∷◌, ◌&&◌, ◌||◌, ◌==◌, string_eq, option_eq, nat_eq, filter, any, take, if◌then◌else◌, ltb,
  leb,
}
use dfip_v.Prelude.Dict.{values}
use dfip_v.Prelude.Sort.{best, sort}
use dfip_v.Prelude.Text.{truthy, str_ltb}
use dfip_v.Ingest.Records.{
  BatchRecord, ProcessingRunRecord, StagedRowRecord, RejectedRowRecord, is_success_status,
  is_recoverable_status,
}
use dfip_v.Ingest.Store.{IngestStore}

abbrev created_earlier : BatchRecord → BatchRecord → Bool
created_earlier a b = ltb a.created_at b.created_at

-- the key `(created_at, id)`
abbrev pub created_before : BatchRecord → BatchRecord → Bool
created_before a b =
    ltb a.created_at b.created_at || (a.created_at == b.created_at && str_ltb a.id b.id)

pub successful_batch_for_file : String → IngestStore → Option BatchRecord
successful_batch_for_file source_file_id s = best created_earlier (
    filter (λ b. b.source_file_id == source_file_id && is_success_status b.status)
      (values s.batches))

pub processed_batch_for_file : String → IngestStore → Option BatchRecord
processed_batch_for_file source_file_id s =
    best created_earlier (
      filter (λ b. b.source_file_id == source_file_id && b.status == "processed")
        (values s.batches))

pub recoverable_batch_for_file : String → IngestStore → Option BatchRecord
recoverable_batch_for_file source_file_id s =
    best (λ a b. created_before b a)
      (filter (λ b. b.source_file_id == source_file_id && is_recoverable_status b.status)
        (values s.batches))

-- `(error_summary or "") in reasons`
abbrev is_reason : List String → Option String → Bool
is_reason reasons summary = any (λ reason. reason == truthy summary "") reasons

-- the tests of the loop of `list_auto_resume_batches`, in their order
unfoldable pub is_resumable : List String → List ProcessingRunRecord → BatchRecord → Bool
is_resumable reasons runs b =
    if b.cancel_requested || b.status == "cancelled"
    then false
    else if b.status == "received"
    then true
    else if b.status == "staged" && ltb 0 b.counts.row_count_staged
    then true
    else if not (b.status == "failed")
    then false
    else if is_reason reasons b.error_summary
    then true
    else any (λ run. run.batch_id == b.id && is_reason reasons run.error_summary) runs

-- the loop, with the room that is left
unfoldable pub select_resumable :
    ℕ → List String → List ProcessingRunRecord → List BatchRecord → List BatchRecord
select_resumable room reasons runs [] = []
select_resumable zero reasons runs (b ∷ bs) = []
select_resumable (suc room) reasons runs (b ∷ bs) =
    if is_resumable reasons runs b
    then b ∷ select_resumable room reasons runs bs
    else select_resumable (suc room) reasons runs bs

unfoldable pub list_auto_resume_batches : ℕ → List String → IngestStore → List BatchRecord
list_auto_resume_batches limit reasons s =
    select_resumable (if leb 1 limit then limit else 1) reasons (values s.processing_runs)
      (sort created_before (values s.batches))

select_resumable-take :
    (room : ℕ) (reasons : List String) (runs : List ProcessingRunRecord) (bs : List BatchRecord)
    → select_resumable room reasons runs bs ≡ take room (filter (is_resumable reasons runs) bs)
unfolding select_resumable filter
select_resumable-take zero reasons runs [] = refl
select_resumable-take (suc room) reasons runs [] = refl
select_resumable-take zero reasons runs (b ∷ bs) = refl
select_resumable-take (suc room) reasons runs (b ∷ bs) =
    elim (Bool-cases (is_resumable reasons runs b)) [
      | inl e ↦ rw e (ap (λ r. b ∷ r) (select_resumable-take room reasons runs bs))
      | inr e ↦ rw e (select_resumable-take (suc room) reasons runs bs)
    ]

-- The loop that stops when it has enough finds the first of all resumable batches, oldest first:
-- stopping early skips none that an unbounded search would put ahead.
pub list_auto_resume_batches-eq-take :
    (limit : ℕ) (reasons : List String) (s : IngestStore)
    → list_auto_resume_batches limit reasons s
      ≡ take (if leb 1 limit then limit else 1) (
          filter
            (is_resumable reasons (values s.processing_runs))
            (sort created_before (values s.batches)))
unfolding list_auto_resume_batches
list_auto_resume_batches-eq-take limit reasons s =
    select_resumable-take (if leb 1 limit then limit else 1) reasons (values s.processing_runs)
      (sort created_before (values s.batches))

-- the key `(source_row_number, id)`
abbrev row_before : StagedRowRecord → StagedRowRecord → Bool
row_before a b =
    ltb a.source_row_number b.source_row_number
    || (a.source_row_number == b.source_row_number && str_ltb a.id b.id)

unfoldable pub staged_for_batch : String → IngestStore → List StagedRowRecord
staged_for_batch batch_id s =
    sort row_before (filter (λ row. row.batch_id == batch_id) s.staged_rows)

unfoldable pub rejected_for_batch : String → IngestStore → List RejectedRowRecord
rejected_for_batch batch_id s = filter (λ row. row.batch_id == batch_id) s.rejected_rows
