-- ===== src/Transform/Engine/Loop.antt =====
-- The loop of `run_transformation` in packages/core/dfip_core/transform/engine.py: rejections are
-- recorded, facts are collected and flushed in chunks. The readings of the clock are arguments, `clock`
-- when a fact is written and `tick` by the number of rows seen; `fresh` gives the id of a rejected row
-- and `sentence` the text of a reason. Progress events, and a cancellation that a listener raises on
-- one, are left out.
use dfip_v.Prelude.{
  ℕ, suc, String, Bool, none, some, List, [], ◌∷◌, ◌++◌, ◌==◌, string_eq, nat_eq, length, map, any,
  leb, if◌then◌else◌,
}
use dfip_v.Prelude.Dates.{Moment}
use dfip_v.Ingest.Records.{RejectedRowRecord}
use dfip_v.Ingest.Store.{IngestStore, add_rejected_row}
use dfip_v.Transform.Extract.{duplicate_grain_key}
use dfip_v.Transform.Fact.{FactKey, FactRecord, key, fact_key_eq}
use dfip_v.Transform.FactStore.{FactStore, Action, inserted, restated, unchanged, upsert_many}
use dfip_v.Transform.Engine.{
  RowRejection, RowOutcome, fact, rejection, TransformResult, reason_text,
}

-- the counters after the actions of a flush
unfoldable pub count_actions : List Action → TransformResult → TransformResult
count_actions [] r = r
count_actions (inserted ∷ actions) r =
    count_actions actions
      (record r { inserted_count = suc r.inserted_count; transformed = suc r.transformed })
count_actions (restated ∷ actions) r =
    count_actions actions
      (record r { restated_count = suc r.restated_count; transformed = suc r.transformed })
count_actions (unchanged ∷ actions) r =
    count_actions actions
      (record r { unchanged_count = suc r.unchanged_count; transformed = suc r.transformed })

-- the variables of `run_transformation` while it reads the rows
pub record Loop : Type 0 where
  pub ingest : IngestStore
  pub facts : FactStore
  pub result : TransformResult
  pub seen : List FactKey
  pub pending : List FactRecord
  pub seen_rows : ℕ
  pub progress_at : Moment

module _ (clock : FactRecord → Moment) (tick : ℕ → Moment) (fresh : ℕ → String)
    (sentence : RowRejection → String) (batch_id : String) (persist : Bool) (chunk_size : ℕ) where
  abbrev pub flush_over : List FactRecord → Loop → Loop
  flush_over [] l = l
  flush_over (f ∷ fs) l =
      let (facts', actions) = upsert_many (map (λ r. (clock r, r)) (f ∷ fs)) l.facts in
      record l {
        facts = facts';
        result = count_actions actions l.result;
        pending = [];
        progress_at = tick l.seen_rows;
      }

  unfoldable pub flush_pending : Loop → Loop
  flush_pending l = flush_over l.pending l

  abbrev rejected_row : RowRejection → ℕ → RejectedRowRecord
  rejected_row r n = record {
    id = fresh n;
    batch_id = batch_id;
    source_row_number = some r.source_row_number;
    raw = none;
    reason_code = reason_text r.reason_code;
    reason_detail = some (sentence r);
    rejected_at = tick n;
  }

  unfoldable pub record_rejection : RowRejection → Loop → Loop
  record_rejection r l = record l {
    ingest = if persist then add_rejected_row (rejected_row r l.seen_rows) l.ingest else l.ingest;
    result = record l.result {
      rejected = suc l.result.rejected;
      rejections = l.result.rejections ++ r ∷ [];
    };
  }

  -- `seen.add`, `pending.append` and the flush of a full chunk
  unfoldable pub accept : FactRecord → Loop → Loop
  accept f l =
      let l' = record l { seen = key f ∷ l.seen; pending = l.pending ++ f ∷ [] } in
      if leb chunk_size (length l'.pending) then flush_pending l' else l'

  -- one round of the loop over the outcomes, after `seen_rows` is counted up
  unfoldable pub take_outcome : RowOutcome → Loop → Loop
  take_outcome (rejection r) l = record_rejection r l
  take_outcome (fact row_number f) l =
      if any (λ k. k == key f) l.seen
      then record_rejection
          (record { source_row_number = row_number; reason_code = duplicate_grain_key }) l
      else accept f l

  unfoldable pub take_outcomes : List RowOutcome → Loop → Loop
  take_outcomes [] l = flush_pending l
  take_outcomes (o ∷ outcomes) l =
      take_outcomes outcomes (take_outcome o (record l { seen_rows = suc l.seen_rows }))
