-- ===== src/Transform/Engine/Counts.antt =====
-- What a run reports and leaves: every staged row is counted once, and the chunk size does not show.
use dfip_v.Prelude.{
  ◌≡◌, refl, sym, ap, ◌∙◌, ℕ, suc, ◌+◌, String, Bool, true, Bool-cases, inl, inr, Option, some,
  List, [], ◌∷◌, ◌==◌, map, any, length, length-append, if◌then◌else◌, arith, string_eq,
}
use mathlib.Core.Option
use mathlib.Core.Path.{subst}
use dfip_v.Prelude.Dates.{DateTime, Moment}
use dfip_v.Prelude.Dict.{lookup, lookup-insert_self}
use dfip_v.Prelude.Int.{ℤ}
use dfip_v.Prelude.Result.{ok}
use dfip_v.Config.Catalog.{CatalogStore}
use dfip_v.Config.Identity.{Manifest}
use dfip_v.Ingest.Records.{BatchRecord, ProcessingRunRecord}
use dfip_v.Ingest.Store.{IngestStore, save_batch}
use dfip_v.Ingest.Store.Queries.{staged_for_batch}
use dfip_v.Ingest.Store.Runs.{save_processing_run}
use dfip_v.Transform.Extract.{Cell}
use dfip_v.Transform.Fact.{FactKey, FactRecord, key, fact_key_eq}
use dfip_v.Transform.FactStore.{
  FactStore, Action, inserted, restated, unchanged, upsert, upsert_many,
}
use dfip_v.Transform.Labels.{Packaged}
use dfip_v.Transform.Engine.{RowRejection, RowOutcome, fact, rejection, TransformResult}
use dfip_v.Transform.Engine.Loop.{Loop, count_actions}
use dfip_v.Transform.Engine.Run.{
  Transformed, Outside, outcomes_of, begun, begin_loop, no_result, run_found, run_transformation,
  chunk_of, succeeds, finish,
}
use dfip_v.Transform.Engine.Chunks.{
  accepted, rejects, reject, duplicate, stamped, settled, take_outcomes-settled,
}

-- The counters of a result add up over `n` rows.
pub record Counted (n : ℕ) (r : TransformResult) : Type 0 where
  pub actions : r.inserted_count + r.restated_count + r.unchanged_count ≡ r.transformed
  pub rows : r.transformed + r.rejected ≡ n
  pub listed : length r.rejections ≡ r.rejected

one_more-Counted :
    (n : ℕ) (r r' : TransformResult)
    → Counted n r
    → r'.inserted_count + r'.restated_count + r'.unchanged_count
      ≡ suc (r.inserted_count + r.restated_count + r.unchanged_count)
    → r'.transformed ≡ suc r.transformed
    → r'.rejected ≡ r.rejected
    → length r'.rejections ≡ length r.rejections
    → Counted (suc n) r'
one_more-Counted n r r' h a t e l = record {
  actions = omega (arith, a, t, h.actions);
  rows = omega (arith, t, e, h.rows);
  listed = l ∙ h.listed ∙ sym e;
}

count_actions-Counted :
    (n : ℕ) (actions : List Action) (r : TransformResult)
    → Counted n r
    → Counted (length actions + n) (count_actions actions r)
unfolding count_actions
count_actions-Counted n [] r h = subst (λ m. Counted m r) (omega arith) h
count_actions-Counted n (inserted ∷ actions) r h =
    let r' : TransformResult = record r {
      inserted_count = suc r.inserted_count;
      transformed = suc r.transformed;
    } in
    subst (λ m. Counted m (count_actions actions r')) (omega arith)
      (count_actions-Counted (suc n) actions r'
        (one_more-Counted n r r' h (omega arith) refl refl refl))
count_actions-Counted n (restated ∷ actions) r h =
    let r' : TransformResult = record r {
      restated_count = suc r.restated_count;
      transformed = suc r.transformed;
    } in
    subst (λ m. Counted m (count_actions actions r')) (omega arith)
      (count_actions-Counted (suc n) actions r'
        (one_more-Counted n r r' h (omega arith) refl refl refl))
count_actions-Counted n (unchanged ∷ actions) r h =
    let r' : TransformResult = record r {
      unchanged_count = suc r.unchanged_count;
      transformed = suc r.transformed;
    } in
    subst (λ m. Counted m (count_actions actions r')) (omega arith)
      (count_actions-Counted (suc n) actions r'
        (one_more-Counted n r r' h (omega arith) refl refl refl))

reject-Counted :
    (n : ℕ) (x : RowRejection) (r : TransformResult) → Counted n r → Counted (suc n) (reject x r)
reject-Counted n x r h = record {
  actions = h.actions;
  rows = omega (arith, h.rows);
  listed = omega (arith, h.listed, length-append {0} r.rejections (x ∷ []));
}

-- The rows that are not accepted are rejected.
rejects-Counted :
    (n : ℕ) (seen : List FactKey) (outcomes : List RowOutcome) (r : TransformResult)
    → Counted n r
    → (m : ℕ) × (Counted m (rejects seen outcomes r))
      × (m + length (accepted seen outcomes) ≡ n + length outcomes)
unfolding rejects accepted
rejects-Counted n seen [] r h = (n, h, refl)
rejects-Counted n seen (rejection x ∷ outcomes) r h =
    let (m, c, e) = rejects-Counted (suc n) seen outcomes (reject x r) (reject-Counted n x r h) in
    (m, c, omega (arith, e))
rejects-Counted n seen (fact i f ∷ outcomes) r h = elim (Bool-cases (any (λ k. k == key f) seen)) [
  | inl t ↦
      let (m, c, e) =
        rejects-Counted (suc n) seen outcomes (reject (duplicate i) r)
          (reject-Counted n (duplicate i) r h) in
      rw t (m, c, omega (arith, e))
  | inr u ↦
      let (m, c, e) = rejects-Counted n (key f ∷ seen) outcomes r h in rw u (m, c, omega (arith, e))
]

length-upsert_many :
    (xs : List (Moment × FactRecord)) (s : FactStore) → length (upsert_many xs s).1 ≡ length xs
unfolding upsert_many
length-upsert_many [] s = refl
length-upsert_many ((now, r) ∷ xs) s = ap suc (length-upsert_many xs (upsert now r s).0)

length-map {ℓ κ} :
    {A : Type ℓ} {B : Type κ} (f : A → B) (xs : List A) → length (map f xs) ≡ length xs
length-map f [] = refl
length-map f (x ∷ xs) = ap suc (length-map f xs)

settled-Counted :
    (clock : FactRecord → Moment) (outcomes : List RowOutcome) (facts : FactStore)
    → Counted (length outcomes) (settled clock [] [] outcomes facts no_result).1
unfolding settled
settled-Counted clock outcomes facts =
    let xs = stamped clock (accepted [] outcomes) in
    let (m, c, e) =
      rejects-Counted 0 [] outcomes no_result
        (record { actions = refl; rows = refl; listed = refl }) in
    let done = count_actions-Counted m (upsert_many xs facts).1 (rejects [] outcomes no_result) c in
    record {
      actions = done.actions;
      rows = omega (
        arith,
        done.rows,
        e,
        length-upsert_many xs facts,
        length-map {0, 0} {B = Moment × FactRecord} (λ (r : FactRecord). (clock r, r))
            (accepted [] outcomes),
      );
      listed = done.listed;
    }

-- what a run wrote to the fact store, and what it reports
abbrev pub written : Transformed → FactStore × TransformResult
written t = (t.facts, t.result)

finish-status :
    (manifest : Manifest) (run : ProcessingRunRecord) (batch : BatchRecord) (finished : Moment)
    (l : Loop)
    → Option.map
        (λ r. r.status)
        (lookup run.id (finish manifest run batch finished l).processing_runs)
      ≡ some (if succeeds l.result then "succeeded" else "failed")
unfolding finish save_processing_run save_batch
finish-status manifest run batch finished l = elim (Bool-cases (succeeds l.result)) [
  | inl e ↦ rw (e, lookup-insert_self run.id _ l.ingest.processing_runs) refl
  | inr e ↦ rw (e, lookup-insert_self run.id _ l.ingest.processing_runs) refl
]

module _ (p : Packaged) (str_of : Cell → String) (fromisoformat : String → Option DateTime)
    (out : Outside) (catalog : Option CatalogStore) (persist : Bool) (batch_id : String)
    (batch : BatchRecord) (run : ProcessingRunRecord) (ingest : IngestStore)
    (facts : FactStore) where
  -- what becomes of the batch's rows, in the order in which the run reads them
  abbrev pub outcomes : List RowOutcome
  outcomes =
      outcomes_of p str_of fromisoformat out catalog batch.client_id batch_id
        (begun p str_of fromisoformat out run) (staged_for_batch batch_id ingest)

  run_found-settled :
      (chunk : ℤ)
      → let t =
          run_found p str_of fromisoformat out catalog persist chunk batch_id batch run ingest
            facts in
        written t ≡ settled out.clock [] [] outcomes facts no_result
  unfolding run_found begin_loop save_processing_run staged_for_batch
  run_found-settled chunk =
      take_outcomes-settled out.clock out.tick out.fresh out.sentence batch_id persist
        (chunk_of chunk) outcomes _

  -- The chunk size, and with it the number of commits, does not show in the facts, the history, the
  -- counters or the recorded rejections of a run.
  pub run_transformation-chunks :
      (chunk chunk' : ℤ)
      → let t =
          run_found p str_of fromisoformat out catalog persist chunk batch_id batch run ingest
            facts in
        let t' =
          run_found p str_of fromisoformat out catalog persist chunk' batch_id batch run ingest
            facts in
        written t ≡ written t'
  run_transformation-chunks chunk chunk' = run_found-settled chunk ∙ sym (run_found-settled chunk')

-- A run over a stored batch, with a stored run of its own, always comes to an end: the fact store
-- holds what one write of the first fact of every key leaves, in the order of the rows; each row is
-- counted once, as inserted, restated, unchanged or rejected; and the stored run has succeeded
-- exactly if some fact was written or no row was rejected.
pub run_transformation_lem :
    (p : Packaged) (str_of : Cell → String) (fromisoformat : String → Option DateTime)
    (out : Outside) (catalog : Option CatalogStore) (persist : Bool) (chunk : ℤ)
    (batch_id run_id : String) (batch : BatchRecord) (run : ProcessingRunRecord)
    (ingest : IngestStore) (facts : FactStore)
    → lookup batch_id ingest.batches ≡ some batch
    → lookup run_id ingest.processing_runs ≡ some run
    → run.batch_id ≡ batch_id
    → let rows =
        outcomes p str_of fromisoformat out catalog persist batch_id batch run ingest facts in
      (t : Transformed) × (run_transformation p str_of fromisoformat out batch_id run_id catalog
          persist chunk ingest facts
        ≡ ok t)
      × (t.facts ≡ (upsert_many (stamped out.clock (accepted [] rows)) facts).0)
      × Counted (length (staged_for_batch batch_id ingest)) t.result
      × (Option.map (λ r. r.status) (lookup run.id t.ingest.processing_runs)
          ≡ some (if succeeds t.result then "succeeded" else "failed"))
unfolding run_transformation
run_transformation_lem p str_of fromisoformat out catalog persist chunk batch_id run_id batch run
      ingest facts b r own =
    let t =
      run_found p str_of fromisoformat out catalog persist chunk batch_id batch run ingest facts in
    let rows =
      outcomes p str_of fromisoformat out catalog persist batch_id batch run ingest facts in
    let s =
      run_found-settled p str_of fromisoformat out catalog persist batch_id batch run ingest facts
        chunk in
    let owned : (run.batch_id == batch_id) ≡ true =
      (string_eq.equal_iff run.batch_id batch_id).1 own in
    let count : length rows ≡ length (staged_for_batch batch_id ingest) =
      unfold outcomes_of in length-map _ _ in
    (
      t,
      rw (b, r, owned) refl,
      ap (λ q. q.0) s ∙ (unfold settled in refl),
      subst (λ r. Counted (length (staged_for_batch batch_id ingest)) r) (sym (ap (λ q. q.1) s))
          (subst (λ n. Counted n (settled out.clock [] [] rows facts no_result).1) count
            (settled-Counted out.clock rows facts)),
      unfold run_found in
          unfold begun in
          finish-status p.manifest (begun p str_of fromisoformat out run) batch out.finished _,
    )
