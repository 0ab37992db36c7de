-- ===== src/Transform/Engine/Chunks.antt =====
-- Writing in chunks comes to the same as one write of the first fact of every key.
use dfip_v.Prelude.{
  ◌≡◌, refl, sym, ap, ◌∙◌, ℕ, suc, String, Bool, true, false, Bool-cases, inl, inr, List, [], ◌∷◌,
  ◌++◌, ◌==◌, map, any, length, leb, append_assoc, if◌then◌else◌,
}
use dfip_v.Prelude.Dates.{Moment}
use dfip_v.Transform.Extract.{duplicate_grain_key}
use dfip_v.Transform.Fact.{FactKey, FactRecord, key, fact_key_eq}
use dfip_v.Transform.FactStore.{
  FactStore, Action, inserted, restated, unchanged, upsert, upsert_many,
}
use dfip_v.Transform.Engine.{RowRejection, RowOutcome, fact, rejection, TransformResult}
use dfip_v.Transform.Engine.Loop.{
  Loop, count_actions, flush_over, flush_pending, record_rejection, accept, take_outcome,
  take_outcomes,
}

-- the facts that a run writes: of each key the first
unfoldable pub accepted : List FactKey → List RowOutcome → List FactRecord
accepted seen [] = []
accepted seen (rejection r ∷ outcomes) = accepted seen outcomes
accepted seen (fact n f ∷ outcomes) =
    if any (λ k. k == key f) seen
    then accepted seen outcomes
    else f ∷ accepted (key f ∷ seen) outcomes

abbrev pub reject : RowRejection → TransformResult → TransformResult
reject r res = record res { rejected = suc res.rejected; rejections = res.rejections ++ r ∷ [] }

abbrev pub duplicate : ℕ → RowRejection
duplicate n = record { source_row_number = n; reason_code = duplicate_grain_key }

-- the rejections that it records: the rows without a fact, and the later facts of a key
unfoldable pub rejects : List FactKey → List RowOutcome → TransformResult → TransformResult
rejects seen [] res = res
rejects seen (rejection r ∷ outcomes) res = rejects seen outcomes (reject r res)
rejects seen (fact n f ∷ outcomes) res =
    if any (λ k. k == key f) seen
    then rejects seen outcomes (reject (duplicate n) res)
    else rejects (key f ∷ seen) outcomes res

count_actions-reject :
    (r : RowRejection) (actions : List Action) (res : TransformResult)
    → count_actions actions (reject r res) ≡ reject r (count_actions actions res)
unfolding count_actions
count_actions-reject r [] res = refl
count_actions-reject r (inserted ∷ actions) res = count_actions-reject r actions _
count_actions-reject r (restated ∷ actions) res = count_actions-reject r actions _
count_actions-reject r (unchanged ∷ actions) res = count_actions-reject r actions _

count_actions-rejects :
    (actions : List Action) (seen : List FactKey) (outcomes : List RowOutcome)
    (res : TransformResult)
    → rejects seen outcomes (count_actions actions res)
      ≡ count_actions actions (rejects seen outcomes res)
unfolding rejects
count_actions-rejects actions seen [] res = refl
count_actions-rejects actions seen (rejection r ∷ outcomes) res =
    ap (rejects seen outcomes) (sym (count_actions-reject r actions res))
    ∙ count_actions-rejects actions seen outcomes (reject r res)
count_actions-rejects actions seen (fact n f ∷ outcomes) res =
    elim (Bool-cases (any (λ k. k == key f) seen)) [
      | inl e ↦ rw e (
          ap (rejects seen outcomes) (sym (count_actions-reject (duplicate n) actions res))
          ∙ count_actions-rejects actions seen outcomes (reject (duplicate n) res))
      | inr e ↦ rw e (count_actions-rejects actions (key f ∷ seen) outcomes res)
    ]

count_actions-append :
    (xs ys : List Action) (res : TransformResult)
    → count_actions (xs ++ ys) res ≡ count_actions ys (count_actions xs res)
unfolding count_actions
count_actions-append [] ys res = refl
count_actions-append (inserted ∷ xs) ys res = count_actions-append xs ys _
count_actions-append (restated ∷ xs) ys res = count_actions-append xs ys _
count_actions-append (unchanged ∷ xs) ys res = count_actions-append xs ys _

-- Two writes one after the other are one write of both lists.
pub upsert_many-append :
    (xs ys : List (Moment × FactRecord)) (s : FactStore)
    → (upsert_many (xs ++ ys) s ≡ (
      (upsert_many ys (upsert_many xs s).0).0,
      (upsert_many xs s).1 ++ (upsert_many ys (upsert_many xs s).0).1,
    ))
unfolding upsert_many
upsert_many-append [] ys s = refl
upsert_many-append ((now, r) ∷ xs) ys s = rw (upsert_many-append xs ys (upsert now r s).0) refl

module _ (clock : FactRecord → Moment) where
  abbrev pub stamped : List FactRecord → List (Moment × FactRecord)
  stamped = map (λ r. (clock r, r))

  stamped-append : (xs ys : List FactRecord) → stamped (xs ++ ys) ≡ stamped xs ++ stamped ys
  stamped-append [] ys = refl
  stamped-append (x ∷ xs) ys = ap (λ r. (clock x, x) ∷ r) (stamped-append xs ys)

  -- the two stores' worth of a run: the facts after one write, and the counters
  unfoldable pub settled :
      List FactRecord
      → List FactKey
      → List RowOutcome
      → FactStore
      → TransformResult
      → FactStore × TransformResult
  settled pending seen outcomes facts res =
      let (facts', actions) = upsert_many (stamped (pending ++ accepted seen outcomes)) facts in
      (facts', count_actions actions (rejects seen outcomes res))

  -- A flush in between does not show in the end.
  settled-flush :
      (pending : List FactRecord) (seen : List FactKey) (outcomes : List RowOutcome)
      (facts : FactStore) (res : TransformResult)
      → let (facts', actions) = upsert_many (stamped pending) facts in
        settled [] seen outcomes facts' (count_actions actions res)
        ≡ settled pending seen outcomes facts res
  unfolding settled
  settled-flush pending seen outcomes facts res =
      rw
        (
          stamped-append pending (accepted seen outcomes),
          upsert_many-append (stamped pending) (stamped (accepted seen outcomes)) facts,
        )
        (ap
          (λ r. (
            (upsert_many (stamped (accepted seen outcomes))
                (upsert_many (stamped pending) facts).0).0,
            r,
          ))
          (ap
              (count_actions
                (upsert_many (stamped (accepted seen outcomes))
                  (upsert_many (stamped pending) facts).0).1)
              (count_actions-rejects (upsert_many (stamped pending) facts).1 seen outcomes res)
            ∙ sym (
                count_actions-append (upsert_many (stamped pending) facts).1
                  (upsert_many (stamped (accepted seen outcomes))
                    (upsert_many (stamped pending) facts).0).1
                  (rejects seen outcomes res))))

  module _ (tick : ℕ → Moment) (fresh : ℕ → String) (sentence : RowRejection → String)
      (batch_id : String) (persist : Bool) (chunk_size : ℕ) where
    abbrev settles : List RowOutcome → Loop → FactStore × TransformResult
    settles outcomes l = settled l.pending l.seen outcomes l.facts l.result

    flush_over-settled :
        (pending : List FactRecord) (outcomes : List RowOutcome) (l : Loop)
        → l.pending ≡ pending
        → settles outcomes
            (flush_over clock tick fresh sentence batch_id persist chunk_size pending l)
          ≡ settles outcomes l
    flush_over-settled [] outcomes l e = refl
    flush_over-settled (f ∷ fs) outcomes l e =
        settled-flush (f ∷ fs) l.seen outcomes l.facts l.result
        ∙ ap (λ ps. settled ps l.seen outcomes l.facts l.result) (sym e)

    flush_over-done :
        (pending : List FactRecord) (l : Loop)
        → l.pending ≡ pending
        → let l' = flush_over clock tick fresh sentence batch_id persist chunk_size pending l in
          (l'.facts, l'.result) ≡ settles [] l'
    unfolding settled accepted rejects upsert_many count_actions
    flush_over-done [] l e = rw e refl
    flush_over-done (f ∷ fs) l e = refl

    accept-settled :
        (f : FactRecord) (n : ℕ) (outcomes : List RowOutcome) (l : Loop)
        → any (λ k. k == key f) l.seen ≡ false
        → settles outcomes (accept clock tick fresh sentence batch_id persist chunk_size f l)
          ≡ settles (fact n f ∷ outcomes) l
    unfolding accept flush_pending
    accept-settled f n outcomes l new =
        let l' : Loop = record l { seen = key f ∷ l.seen; pending = l.pending ++ f ∷ [] } in
        let joins : settles outcomes l' ≡ settles (fact n f ∷ outcomes) l =
          unfold settled in
          unfold accepted in
          unfold rejects in
          rw (new, append_assoc l.pending (f ∷ []) (accepted (key f ∷ l.seen) outcomes)) refl in
        elim (Bool-cases (leb chunk_size (length (l.pending ++ f ∷ [])))) [
          | inl e ↦ rw e (flush_over-settled (l.pending ++ f ∷ []) outcomes l' refl ∙ joins)
          | inr e ↦ rw e joins
        ]

    abbrev ends : List RowOutcome → Loop → FactStore × TransformResult
    ends outcomes l =
        let l' = take_outcomes clock tick fresh sentence batch_id persist chunk_size outcomes l in
        (l'.facts, l'.result)

    take_outcome-duplicate :
        (n : ℕ) (f : FactRecord) (l : Loop)
        → any (λ k. k == key f) l.seen ≡ true
        → take_outcome clock tick fresh sentence batch_id persist chunk_size (fact n f) l
          ≡ record_rejection clock tick fresh sentence batch_id persist chunk_size (duplicate n) l
    unfolding take_outcome
    take_outcome-duplicate n f l e = rw e refl

    take_outcome-new :
        (n : ℕ) (f : FactRecord) (l : Loop)
        → any (λ k. k == key f) l.seen ≡ false
        → take_outcome clock tick fresh sentence batch_id persist chunk_size (fact n f) l
          ≡ accept clock tick fresh sentence batch_id persist chunk_size f l
    unfolding take_outcome
    take_outcome-new n f l e = rw e refl

    -- Whatever the chunk size, the loop leaves the facts and the counters of one write of the first fact
    -- of every key.
    pub take_outcomes-settled :
        (outcomes : List RowOutcome) (l : Loop)
        → let l' = take_outcomes clock tick fresh sentence batch_id persist chunk_size outcomes l in
          (l'.facts, l'.result) ≡ settles outcomes l
    unfolding take_outcomes take_outcome flush_pending record_rejection
    take_outcomes-settled [] l =
        flush_over-done l.pending l refl ∙ flush_over-settled l.pending [] l refl
    take_outcomes-settled (rejection r ∷ outcomes) l =
        take_outcomes-settled outcomes (
          record_rejection clock tick fresh sentence batch_id persist chunk_size r
            (record l { seen_rows = suc l.seen_rows }))
        ∙ (unfold settled in unfold accepted in unfold rejects in refl)
    take_outcomes-settled (fact n f ∷ outcomes) l =
        let l' : Loop = record l { seen_rows = suc l.seen_rows } in
        elim (Bool-cases (any (λ k. k == key f) l.seen)) [
          | inl e ↦
              ap (ends outcomes) (take_outcome-duplicate n f l' e)
              ∙ take_outcomes-settled outcomes (
                  record_rejection clock tick fresh sentence batch_id persist chunk_size
                    (duplicate n) l')
              ∙ (unfold settled in unfold accepted in unfold rejects in rw e refl)
          | inr e ↦
              ap (ends outcomes) (take_outcome-new n f l' e)
              ∙ take_outcomes-settled outcomes
                  (accept clock tick fresh sentence batch_id persist chunk_size f l')
              ∙ accept-settled f n outcomes l' e
        ]
