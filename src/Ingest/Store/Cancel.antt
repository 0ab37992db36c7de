-- ===== src/Ingest/Store/Cancel.antt =====
-- A requested cancellation is not lost.
use dfip_v.Prelude.{
  ◌≡◌, refl, sym, ap, ◌∙◌, String, true, false, not, Option, none, some, List, [], ◌∷◌, ◌==◌, ◌&&◌,
  string_eq, option_eq, Bool-cases, inl, inr, ◌⊎◌, false, All, any,
}
use mathlib.Core.Option.{some-injective}
use dfip_v.Prelude.Dates.{Moment}
use dfip_v.Prelude.Dict.{lookup, insert, erase, values, lookup-insert, lookup-insert_self}
use dfip_v.Prelude.Members.{lookup-filter_values_kept, lookup-erase_ne}
use dfip_v.Prelude.Result.{Result, ok, err}
use dfip_v.Ingest.Progress.{Report}
use dfip_v.Ingest.Records.{
  BatchRecord, SourceFileRecord, Layout, StagedRowRecord, RejectedRowRecord,
}
use dfip_v.Ingest.Store.{
  IngestStore, IngestError, processing_cancelled, save_batch_progress, request_cancel,
  add_staged_rows, add_staged_row, add_rejected_row, reset_staging_for_batch, reset, cancelling,
  create_batch, save_batch, delete_batch_record, delete_over, drop_file, purge_client,
  with_progress, discard_staging, is_cancelling, progress_over, reset_over, cancel_over,
}

-- the calls that change the batches or their rows
pub data Op : Type 0 where
  reports : String → Report → Moment → Op
  cancels : String → Moment → Op
  stages : List StagedRowRecord → Op
  rejects : RejectedRowRecord → Op
  resets : String → Op
  creates : String → String → Layout → String → Moment → Op
  saves : BatchRecord → Op
  deletes : String → Op
  purges : String → Op

-- a call that raises leaves the store as it was
abbrev kept : IngestStore → Result IngestError IngestStore → IngestStore
kept s (ok s') = s'
kept s (err e) = s

abbrev kept_first : IngestStore → Result IngestError (IngestStore × Option String) → IngestStore
kept_first s (ok (s', removed)) = s'
kept_first s (err e) = s

abbrev pub apply : Op → IngestStore → IngestStore
apply (reports id r now) s = kept s (save_batch_progress id r now s)
apply (cancels id now) s = (request_cancel id now s).0
apply (stages rows) s = add_staged_rows rows s
apply (rejects row) s = add_rejected_row row s
apply (resets id) s = kept s (reset_staging_for_batch id s)
apply (creates file client layout id now) s = (create_batch file client layout id now s).0
apply (saves batch) s = save_batch batch s
apply (deletes id) s = kept_first s (delete_batch_record id s)
apply (purges client) s = purge_client client s

-- The call does not undo a request to cancel this batch of this client: it neither makes a new batch
-- under its id, nor deletes it, nor purges its client, nor saves it without the request or for another
-- client.
abbrev pub Respects : String → String → Op → Type 0
Respects id client (creates file other layout k now) = (k == id) ≡ false
Respects id client (saves batch) =
    ((batch.id == id) ≡ false) ⊎ ((batch.client_id ≡ client) × (batch.cancel_requested ≡ true))
Respects id client (deletes k) = (k == id) ≡ false
Respects id client (purges other) = (client == other) ≡ false
Respects id client _ = Unit

abbrev pub run_ops : List Op → IngestStore → IngestStore
run_ops [] s = s
run_ops (op ∷ ops) s = run_ops ops (apply op s)

-- the batch stands, for its client, with the request
abbrev Cancelled : String → String → IngestStore → Type 0
Cancelled id client s =
    (batch : BatchRecord) × (lookup id s.batches ≡ some batch)
    × (batch.client_id ≡ client)
    × (batch.cancel_requested ≡ true)

module _ (id client : String) where
  -- A batch may be written over by one of its client that is cancelled if it was.
  insert-Cancelled :
      (k : String) (x y : BatchRecord) (s : IngestStore)
      → lookup k s.batches ≡ some x
      → y.client_id ≡ x.client_id
      → (x.cancel_requested ≡ true → y.cancel_requested ≡ true)
      → Cancelled id client s
      → Cancelled id client (record s { batches = insert k y s.batches })
  insert-Cancelled k x y s l owner keeps (batch, stored, mine, c) = elim (Bool-cases (k == id)) [
    | inl same ↦
        let k=id : k ≡ id = (string_eq.equal_iff k id).0 same in
        let x=batch : x ≡ batch =
          some-injective _ _ (sym l ∙ ap (λ i. lookup i s.batches) k=id ∙ stored) in
        (
          y,
          rw (lookup-insert k id y s.batches, same) refl,
          owner ∙ ap (λ b. b.client_id) x=batch ∙ mine,
          keeps (ap (λ b. b.cancel_requested) x=batch ∙ c),
        )
    | inr other ↦ (batch, rw (lookup-insert k id y s.batches, other) stored, mine, c)
  ]

  reports-Cancelled :
      (k : String) (r : Report) (now : Moment) (s : IngestStore) (o : Option BatchRecord)
      → lookup k s.batches ≡ o
      → Cancelled id client s
      → Cancelled id client (kept s (progress_over k r now s o))
  reports-Cancelled k r now s none e h = h
  reports-Cancelled k r now s (some b) e h =
      elim (Bool-cases (b.cancel_requested && not (is_cancelling r.stage))) [
        | inl t ↦ rw t h
        | inr f ↦ rw f (insert-Cancelled k b (with_progress r now b) s e refl (λ c. c) h)
      ]

  cancels-Cancelled :
      (k : String) (now : Moment) (s : IngestStore) (o : Option BatchRecord)
      → lookup k s.batches ≡ o
      → Cancelled id client s
      → Cancelled id client (cancel_over k now s o).0
  cancels-Cancelled k now s none e h = h
  cancels-Cancelled k now s (some b) e h =
      insert-Cancelled k b (with_progress cancelling now (record b { cancel_requested = true })) s e
        refl (λ c. refl) h

  resets-Cancelled :
      (k : String) (s : IngestStore) (o : Option BatchRecord)
      → lookup k s.batches ≡ o
      → Cancelled id client s
      → Cancelled id client (kept s (reset_over k s o))
  resets-Cancelled k s none e h = h
  resets-Cancelled k s (some b) e h =
      unfold discard_staging in insert-Cancelled k b (reset b) s e refl (λ c. c) h

  stages-Cancelled :
      (rows : List StagedRowRecord) (s : IngestStore)
      → Cancelled id client s
      → Cancelled id client (add_staged_rows rows s)
  unfolding add_staged_rows add_staged_row
  stages-Cancelled [] s h = h
  stages-Cancelled (row ∷ rows) s h = stages-Cancelled rows (add_staged_row row s) h

  -- Another batch may be written.
  other-Cancelled :
      (k : String) (y : BatchRecord) (s : IngestStore)
      → (k == id) ≡ false
      → Cancelled id client s
      → Cancelled id client (record s { batches = insert k y s.batches })
  other-Cancelled k y s ne (batch, stored, mine, c) =
      (batch, rw (lookup-insert k id y s.batches, ne) stored, mine, c)

  saves-Cancelled :
      (b : BatchRecord) (s : IngestStore)
      → Respects id client (saves b)
      → Cancelled id client s
      → Cancelled id client (save_batch b s)
  unfolding save_batch
  saves-Cancelled b s (inl ne) h = other-Cancelled b.id b s ne h
  saves-Cancelled b s (inr (mine, asked)) h = elim (Bool-cases (b.id == id)) [
    | inr ne ↦ other-Cancelled b.id b s ne h
    | inl same ↦ (b, rw (lookup-insert b.id id b s.batches, same) refl, mine, asked)
  ]

  drop_file-Cancelled :
      (source : String) (s : IngestStore) (o : Option SourceFileRecord)
      → Cancelled id client s
      → Cancelled id client (drop_file source s o)
  drop_file-Cancelled source s none h = h
  drop_file-Cancelled source s (some file) h = h

  deletes-Cancelled :
      (k : String) (s : IngestStore) (o : Option BatchRecord)
      → (k == id) ≡ false
      → Cancelled id client s
      → Cancelled id client (kept_first s (delete_over k s o))
  unfolding discard_staging
  deletes-Cancelled k s none ne h = h
  deletes-Cancelled k s (some b) ne (batch, stored, mine, c) =
      let found = lookup-erase_ne k id s.batches ne ∙ stored in
      elim (Bool-cases
        (any (λ item. item.source_file_id == b.source_file_id) (values (erase k s.batches)))) [
          | inl used ↦ rw used (batch, found, mine, c)
          | inr unused ↦ rw unused (
              drop_file-Cancelled b.source_file_id _ (lookup b.source_file_id s.source_files_by_id)
                (batch, found, mine, c))
        ]

  purges-Cancelled :
      (other : String) (s : IngestStore)
      → (client == other) ≡ false
      → Cancelled id client s
      → Cancelled id client (purge_client other s)
  unfolding purge_client
  purges-Cancelled other s ne (batch, stored, mine, c) = (
    batch,
    lookup-filter_values_kept (λ b. not (b.client_id == other)) s.batches id batch stored
        (rw (mine, ne) refl),
    mine,
    c,
  )

  apply-Cancelled :
      (op : Op) (s : IngestStore)
      → Respects id client op
      → Cancelled id client s
      → Cancelled id client (apply op s)
  unfolding save_batch_progress request_cancel add_rejected_row reset_staging_for_batch create_batch
      delete_batch_record
  apply-Cancelled (reports k r now) s a h = reports-Cancelled k r now s (lookup k s.batches) refl h
  apply-Cancelled (cancels k now) s a h = cancels-Cancelled k now s (lookup k s.batches) refl h
  apply-Cancelled (stages rows) s a h = stages-Cancelled rows s h
  apply-Cancelled (rejects row) s a h = h
  apply-Cancelled (resets k) s a h = resets-Cancelled k s (lookup k s.batches) refl h
  apply-Cancelled (creates file other layout k now) s a h = other-Cancelled k _ s a h
  apply-Cancelled (saves b) s a h = saves-Cancelled b s a h
  apply-Cancelled (deletes k) s a h = deletes-Cancelled k s (lookup k s.batches) a h
  apply-Cancelled (purges other) s a h = purges-Cancelled other s a h

  run_ops-Cancelled :
      (ops : List Op) (s : IngestStore)
      → All (Respects id client) ops
      → Cancelled id client s
      → Cancelled id client (run_ops ops s)
  run_ops-Cancelled [] s a h = h
  run_ops-Cancelled (op ∷ ops) s a h =
      run_ops-Cancelled ops (apply op s) a.1 (apply-Cancelled op s a.0 h)

-- Once an operator has asked to cancel a batch that is there, every later progress report of another
-- stage than cancelling raises `ProcessingCancelled`, whatever calls on batches and their rows come in
-- between, as long as none of them takes the request back by what it writes: none makes a new batch under
-- this id, deletes the batch, purges its client, or saves it without the request or for another client.
-- Reports, staged and rejected rows, resets, further cancellations, and any call on other batches of
-- other clients are free.
pub request_cancel-stops :
    (id : String) (batch : BatchRecord) (r : Report) (now t : Moment) (ops : List Op)
    (s : IngestStore)
    → lookup id s.batches ≡ some batch
    → All (Respects id batch.client_id) ops
    → is_cancelling r.stage ≡ false
    → save_batch_progress id r t (run_ops ops (request_cancel id now s).0)
      ≡ err (processing_cancelled id)
unfolding request_cancel save_batch_progress
request_cancel-stops id batch r now t ops s l respected going =
    let asked = with_progress cancelling now (record batch { cancel_requested = true }) in
    let first : Cancelled id batch.client_id (request_cancel id now s).0 =
      rw l (asked, lookup-insert_self id asked s.batches, refl, refl) in
    let (later, stored, mine, c) =
      run_ops-Cancelled id batch.client_id ops (request_cancel id now s).0 respected first in
    rw (stored, c, going) refl
