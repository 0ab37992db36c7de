-- ===== src/Ingest/Store/Deletion.antt =====
-- What deleting a batch removes from the store, and what it leaves.
use dfip_v.Prelude.{
  ◌≡◌, ◌≢◌, ◌⊎◌, refl, sym, ap, ◌∙◌, String, Bool, true, not, Option, none, some, List, ◌==◌,
  string_eq, Bool-cases, inl, inr, arith, eq_iff, All, All_mono, filter, any, filter-All,
  any-filter_kept, any-found, beq_refl,
}
use mathlib.Core.Option.{some-injective}
use dfip_v.Prelude.Dict.{
  lookup, erase, values, filter_values, UniqueKeys, lookup-erase, erase-UniqueKeys,
}
use dfip_v.Prelude.Members.{
  lookup-filter_values_cases, lookup-filter_values_kept, lookup-erase_cases, lookup-erase_ne,
  any-values, values-All,
}
use dfip_v.Prelude.Result.{ok}
use dfip_v.Ingest.Records.{
  BatchRecord, SourceFileRecord, StagedRowRecord, RejectedRowRecord, ProcessingRunRecord,
}
use dfip_v.Ingest.Store.{IngestStore, delete_batch_record, drop_file, discard_staging}

-- Another batch than the one under `id` was made from the file.
abbrev pub IsUsed : String → String → IngestStore → Type 0
IsUsed source id s =
    (k : String) × (b : BatchRecord) × (lookup k s.batches ≡ some b)
    × (k ≢ id)
    × (b.source_file_id ≡ source)

-- The file under the id is gone, under its hash too, and every other file is as it was.
pub record FileDropped (source : String) (before after : IngestStore) : Type 0 where
  pub by_id : lookup source after.source_files_by_id ≡ none
  pub by_hash :
      (f : SourceFileRecord)
      → lookup source before.source_files_by_id ≡ some f
      → lookup f.sha256 after.source_files ≡ none
  pub other_ids :
      (k : String)
      → k ≢ source
      → lookup k after.source_files_by_id ≡ lookup k before.source_files_by_id
  pub other_hashes :
      (h : String)
      → ((f : SourceFileRecord) → lookup source before.source_files_by_id ≡ some f → h ≢ f.sha256)
      → lookup h after.source_files ≡ lookup h before.source_files

-- What becomes of the file of the batch, and what the answer says of it.
abbrev pub FileOutcome : String → String → IngestStore → IngestStore → Option String → Type 0
FileOutcome source id before after removed =
    (IsUsed source id before
      × (removed ≡ none)
      × (after.source_files ≡ before.source_files)
      × (after.source_files_by_id ≡ before.source_files_by_id))
    ⊎ ((¬ IsUsed source id before) × (removed ≡ some source) × FileDropped source before after)

pub record Deleted (id : String) (before after : IngestStore) : Type 0 where
  pub batches : lookup id after.batches ≡ none
  pub other_batches : (k : String) → k ≢ id → lookup k after.batches ≡ lookup k before.batches
  pub staged : All (λ row. row.batch_id ≢ id) after.staged_rows
  pub other_staged :
      (P : StagedRowRecord → Bool)
      → ((row : StagedRowRecord) → P row ≡ true → row.batch_id ≢ id)
      → any P after.staged_rows ≡ any P before.staged_rows
  pub rejected : All (λ row. row.batch_id ≢ id) after.rejected_rows
  pub other_rejected :
      (P : RejectedRowRecord → Bool)
      → ((row : RejectedRowRecord) → P row ≡ true → row.batch_id ≢ id)
      → any P after.rejected_rows ≡ any P before.rejected_rows
  pub runs :
      (k : String) (r : ProcessingRunRecord)
      → lookup k after.processing_runs ≡ some r
      → r.batch_id ≢ id
  pub other_runs :
      (k : String) (r : ProcessingRunRecord)
      → lookup k before.processing_runs ≡ some r
      → r.batch_id ≢ id
      → lookup k after.processing_runs ≡ some r

-- the store between the removal of the batch and that of its file
abbrev without : String → IngestStore → IngestStore
without id s = record s {
  staged_rows = filter (λ row. not (row.batch_id == id)) s.staged_rows;
  rejected_rows = filter (λ row. not (row.batch_id == id)) s.rejected_rows;
  processing_runs = filter_values (λ run. not (run.batch_id == id)) s.processing_runs;
  batches = erase id s.batches;
}

rows_left {ℓ} :
    {A : Type ℓ} (batch_of : A → String) (id : String) (rows : List A)
    → All (λ row. batch_of row ≢ id) (filter (λ row. not (batch_of row == id)) rows)
rows_left batch_of id rows =
    All_mono (λ row. not (batch_of row == id) ≡ true) (λ row. batch_of row ≢ id)
      (λ row n same. absurd (ground (arith, n, same, eq_iff (batch_of row) id))) _
      (filter-All (λ row. not (batch_of row == id)) rows)

without-Deleted :
    (id : String) (s : IngestStore)
    → UniqueKeys s.batches
    → UniqueKeys s.processing_runs
    → Deleted id s (without id s)
without-Deleted id s ub ur = record {
  batches = rw (lookup-erase id id s.batches ub, beq_refl id) refl;
  other_batches = λ k ne. lookup-erase_ne id k s.batches (ground (arith, ne, eq_iff id k));
  staged = rows_left (λ row. row.batch_id) id s.staged_rows;
  other_staged = λ P others.
      any-filter_kept P _ (λ row p. ground (arith, others row p, eq_iff row.batch_id id))
        s.staged_rows;
  rejected = rows_left (λ row. row.batch_id) id s.rejected_rows;
  other_rejected = λ P others.
      any-filter_kept P _ (λ row p. ground (arith, others row p, eq_iff row.batch_id id))
        s.rejected_rows;
  runs = λ k r l same. absurd (
      ground (
        arith,
        (lookup-filter_values_cases _ s.processing_runs k r ur l).1,
        same,
        eq_iff r.batch_id id,
      ));
  other_runs = λ k r l ne.
      lookup-filter_values_kept _ s.processing_runs k r l
        (ground (arith, ne, eq_iff r.batch_id id));
}

drop_file-Deleted :
    (id source : String) (s t : IngestStore) (o : Option SourceFileRecord)
    → Deleted id s t
    → Deleted id s (drop_file source t o)
drop_file-Deleted id source s t none d = d
drop_file-Deleted id source s t (some file) d = record {
  batches = d.batches;
  other_batches = d.other_batches;
  staged = d.staged;
  other_staged = d.other_staged;
  rejected = d.rejected;
  other_rejected = d.other_rejected;
  runs = d.runs;
  other_runs = d.other_runs;
}

drop_file-FileDropped :
    (id source : String) (s : IngestStore) (o : Option SourceFileRecord)
    → UniqueKeys s.source_files
    → UniqueKeys s.source_files_by_id
    → lookup source s.source_files_by_id ≡ o
    → FileDropped source s (drop_file source (without id s) o)
drop_file-FileDropped id source s none uh ui e = record {
  by_id = e;
  by_hash = λ f l. let l' = sym e ∙ l in absurd cc;
  other_ids = λ k ne. refl;
  other_hashes = λ h ne. refl;
}
drop_file-FileDropped id source s (some file) uh ui e = record {
  by_id = rw (lookup-erase source source s.source_files_by_id ui, beq_refl source) refl;
  by_hash = λ f l.
      let same : file ≡ f = some-injective _ _ (sym e ∙ l) in
      rw
        (
          lookup-erase file.sha256 f.sha256 s.source_files uh,
          ap (λ x. x.sha256) same,
          beq_refl f.sha256,
        )
        refl;
  other_ids =
      λ k ne. lookup-erase_ne source k s.source_files_by_id (ground (arith, ne, eq_iff source k));
  other_hashes = λ h ne.
      lookup-erase_ne file.sha256 h s.source_files
        (ground (arith, ne file e, eq_iff file.sha256 h));
}

-- Deleting a batch that is there succeeds: it leaves no row and no run of it and every other batch, row
-- and run as it was. Its file goes with it, under its id and its hash, exactly if no other batch was made
-- from the file, and the answer names the file if so; every other file stays. Asked of the store: its
-- dictionaries list no key twice.
pub delete_batch_record_lem :
    (id : String) (batch : BatchRecord) (s : IngestStore)
    → UniqueKeys s.batches
    → UniqueKeys s.processing_runs
    → UniqueKeys s.source_files
    → UniqueKeys s.source_files_by_id
    → lookup id s.batches ≡ some batch
    → (s' : IngestStore) × (removed : Option String) × (delete_batch_record id s ≡ ok (s', removed))
      × Deleted id s s'
      × FileOutcome batch.source_file_id id s s' removed
unfolding delete_batch_record discard_staging
delete_batch_record_lem id batch s ub ur uh ui l =
    let source = batch.source_file_id in
    let stored = lookup source s.source_files_by_id in
    let deleted = without-Deleted id s ub ur in
    let rest = erase id s.batches in
    let uses = λ (item : BatchRecord). item.source_file_id == source in
    elim (Bool-cases (any uses (values rest))) [
      | inl used ↦
          let (b, from, (k, found)) =
            any-found uses (λ v. (k : String) × (lookup k rest ≡ some v)) (values rest) used
              (values-All rest (erase-UniqueKeys id s.batches ub)) in
          let (was, other) = lookup-erase_cases id k s.batches b ub found in
          (
            without id s,
            none,
            rw (l, used) refl,
            deleted,
            inl (
              (
                k,
                b,
                was,
                (λ same. absurd (ground (arith, other, same, beq_refl id))),
                (eq_iff b.source_file_id source).0 from,
              ),
              refl,
              refl,
              refl,
            ),
          )
      | inr unused ↦ (
        drop_file source (without id s) stored,
        some source,
        rw (l, unused) refl,
        drop_file-Deleted id source s (without id s) stored deleted,
        inr (
          (λ (k, b, was, ne, from). absurd (
              ground (
                arith,
                unused,
                any-values uses rest k b
                    (lookup-erase_ne id k s.batches (ground (arith, ne, eq_iff id k)) ∙ was)
                    (ground (arith, from, eq_iff b.source_file_id source)),
              ))),
          refl,
          drop_file-FileDropped id source s stored uh ui refl,
        ),
      )
    ]
