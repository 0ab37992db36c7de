-- ===== src/Transform/FactStore/Revert/RoundTrip.antt =====
-- Reverting a run takes back the writes of that run.
use dfip_v.Prelude.{
  ◌≡◌, ◌≢◌, refl, ◌∙◌, inl, inr, true, Bool-cases, Option, none, some, List, [], ◌∷◌, ◌++◌, ◌==◌,
  String, string_eq, option_eq, arith, All, eq_iff,
}
use dfip_v.Prelude.Dates.{Moment}
use dfip_v.Prelude.Dict.{lookup, keep_if, lookup-insert, lookup-insert_ne}
use dfip_v.Transform.Fact.{
  FactKey, FactRecord, key, fact_key_eq, fact_key_beq_iff, same_business_values, carry_first_seen,
  same_business_values-run,
}
use dfip_v.Transform.FactStore.{
  FactStore, SupersededFact, upsert, upsert_over, upsert_many, revert_run,
}
use dfip_v.Transform.FactStore.Upsert.{IsValid, archived, upsert_many-IsValid}
use dfip_v.Transform.FactStore.Revert.Closed.{latest_at, not_of_run, reverted_at, lookup-revert_run}

pub latest_at-append :
    (run : Option String) (k : FactKey) (xs ys : List SupersededFact)
    (found : Option SupersededFact)
    → latest_at run k (xs ++ ys) found ≡ latest_at run k ys (latest_at run k xs found)
unfolding latest_at
latest_at-append run k [] ys found = refl
latest_at-append run k (x ∷ xs) ys found = latest_at-append run k xs ys _

-- The run has neither written nor archived anything under the key.
pub record IsUntouched (run_id : String) (s : FactStore) (k : FactKey) : Type 0 where
  pub no_archive : latest_at (some run_id) k s.history none ≡ none
  pub not_owned : keep_if (not_of_run run_id) (lookup k s.facts) ≡ lookup k s.facts

module _ (run_id : String) (now : Moment) (r : FactRecord) (s : FactStore)
    (of_run : r.processing_run_id ≡ some run_id) where
  -- A stored fact that the run has not written does not pass for a write of the run.
  pub owned :
      (p : FactRecord)
      → lookup (key r) s.facts ≡ some p
      → IsUntouched run_id s (key r)
      → (p.processing_run_id == r.processing_run_id) ≡ true
      → ⊥
  owned p e h same = ground (arith, of_run, e, h.not_owned, same)

  reverted_at-upsert_over :
      (o : Option FactRecord)
      → lookup (key r) s.facts ≡ o
      → IsValid s
      → IsUntouched run_id s (key r)
      → (k : FactKey) → reverted_at run_id (upsert_over now r s o).0 k ≡ reverted_at run_id s k
  unfolding upsert_over reverted_at latest_at
  reverted_at-upsert_over none e valid h k = ground (
    arith,
    of_run,
    h.no_archive,
    eq_iff run_id run_id,
    lookup-insert (key r) k r s.facts,
    fact_key_beq_iff (key r) k,
  )
  reverted_at-upsert_over (some p) e valid h k =
      let c = carry_first_seen r p in
      elim (Bool-cases (same_business_values p c)) [
        | inl same ↦ absurd (owned p e h (same_business_values-run p c same))
        | inr other ↦ rw other (
            ground (
              arith,
              of_run,
              e,
              valid.keyed (key r) p e,
              fact_key_beq_iff (key p) k,
              h.no_archive,
              h.not_owned,
              eq_iff run_id run_id,
              latest_at-append (some run_id) k s.history (archived now r p ∷ []) none,
              lookup-insert (key r) k c s.facts,
              fact_key_beq_iff (key r) k,
            ))
      ]

  IsUntouched-upsert_over :
      (o : Option FactRecord)
      → lookup (key r) s.facts ≡ o
      → IsValid s
      → (k : FactKey) → k ≢ key r
      → IsUntouched run_id s k
      → IsUntouched run_id (upsert_over now r s o).0 k
  unfolding upsert_over latest_at
  IsUntouched-upsert_over none e valid k other h = record {
    no_archive = h.no_archive;
    not_owned = ground (arith, h.not_owned, lookup-insert_ne (key r) r s.facts k other);
  }
  IsUntouched-upsert_over (some p) e valid k other h =
      let c = carry_first_seen r p in
      let kept = lookup-insert_ne (key r) c s.facts k other in
      elim (Bool-cases (same_business_values p c)) [
        | inl same ↦
            rw same
              (record { no_archive = h.no_archive; not_owned = ground (arith, h.not_owned, kept) })
        | inr differs ↦ rw differs (record {
          no_archive = ground (
            arith,
            h.no_archive,
            valid.keyed (key r) p e,
            latest_at-append (some run_id) k s.history (archived now r p ∷ []) none,
            fact_key_beq_iff (key p) k,
          );
          not_owned = ground (arith, h.not_owned, kept);
        })
      ]

abbrev OfRun : String → List (Moment × FactRecord) → Type 0
OfRun run_id records = All (λ e. e.1.processing_run_id ≡ some run_id) records

-- no two of the records have one grain key
abbrev DistinctKeys : List (Moment × FactRecord) → Type 0
DistinctKeys [] = Unit
DistinctKeys ((now, r) ∷ records) = All (λ e. key e.1 ≢ key r) records × DistinctKeys records

abbrev AllUntouched : String → FactStore → List (Moment × FactRecord) → Type 0
AllUntouched run_id s records = All (λ e. IsUntouched run_id s (key e.1)) records

module _ (run_id : String) (now : Moment) (r : FactRecord) (s : FactStore) where
  AllUntouched-upsert :
      r.processing_run_id ≡ some run_id
      → IsValid s
      → (records : List (Moment × FactRecord)) → All (λ e. key e.1 ≢ key r) records
      → AllUntouched run_id s records
      → AllUntouched run_id (upsert now r s).0 records
  unfolding upsert
  AllUntouched-upsert of_run valid [] d h = tt
  AllUntouched-upsert of_run valid ((now', q) ∷ records) d h = (
    IsUntouched-upsert_over run_id now r s of_run (lookup (key r) s.facts) refl valid (key q) d.0
        h.0,
    AllUntouched-upsert of_run valid records d.1 h.1,
  )

reverted_at-upsert_many :
    (run_id : String) (records : List (Moment × FactRecord)) (s : FactStore)
    → OfRun run_id records
    → DistinctKeys records
    → IsValid s
    → AllUntouched run_id s records
    → (k : FactKey) → reverted_at run_id (upsert_many records s).0 k ≡ reverted_at run_id s k
unfolding upsert_many upsert
reverted_at-upsert_many run_id [] s o d valid h k = refl
reverted_at-upsert_many run_id ((now, r) ∷ records) s o d valid h k =
    reverted_at-upsert_many run_id records (upsert now r s).0 o.1 d.1
      (upsert_many-IsValid ((now, r) ∷ []) s valid)
      (AllUntouched-upsert run_id now r s o.0 valid records d.0 h.1) k
    ∙ reverted_at-upsert_over run_id now r s o.0 (lookup (key r) s.facts) refl valid h.0 k

-- A run that starts on a store with one fact to a key, holding nothing of the run, and that writes
-- each grain key at most once is taken back entirely by `revert_run`: every key, written or not, holds
-- the fact that it held before, or none if it held none.
pub revert_run-upsert_many :
    (run_id : String) (records : List (Moment × FactRecord)) (s : FactStore)
    → OfRun run_id records
    → DistinctKeys records
    → IsValid s
    → ((k : FactKey) → IsUntouched run_id s k)
    → (k : FactKey)
    → lookup k (revert_run run_id (upsert_many records s).0).facts ≡ lookup k s.facts
unfolding reverted_at
revert_run-upsert_many run_id records s o d valid h k =
    lookup-revert_run run_id (upsert_many records s).0 k (upsert_many-IsValid records s valid)
    ∙ reverted_at-upsert_many run_id records s o d valid (untouched records) k
    ∙ ground (arith, (h k).no_archive, (h k).not_owned)
  where
    untouched : (rs : List (Moment × FactRecord)) → AllUntouched run_id s rs
    untouched [] = tt
    untouched ((now, r) ∷ rs) = (h (key r), untouched rs)
