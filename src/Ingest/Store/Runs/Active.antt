-- ===== src/Ingest/Store/Runs/Active.antt =====
-- What a request for a processing run of a batch gives.
use dfip_v.Prelude.{
  ◌≡◌, ◌≢◌, ◌⊎◌, ◌≤◌, refl, String, Option-cases, inl, inr, true, false, Option, none, some, [],
  ◌∷◌, beq_refl, string_eq, arith, eq_iff, filter, filter-All, filter-All_of, of_filter-All,
}
use dfip_v.Prelude.Dates.{Moment}
use dfip_v.Prelude.Dict.{
  lookup, insert, values, UniqueKeys, insert-UniqueKeys, lookup-insert_self, lookup-insert_ne,
  filter-values_one, lookup-insert_cases,
}
use dfip_v.Prelude.Members.{filter-values_nil, values-All, All-lookup}
use dfip_v.Prelude.Sort.{best, best_from, best-none, best-All, best-le}
use dfip_v.Config.Identity.{Manifest}
use dfip_v.Ingest.Records.{ProcessingRunRecord, VersionIds}
use dfip_v.Ingest.Store.{IngestStore}
use dfip_v.Ingest.Store.Runs.{
  is_open_of, later, active_processing_run_for_batch, new_processing_run, add_processing_run,
  create_processing_run, create_over,
}

-- a pending or running run of the batch
abbrev pub IsOpenFor : String → ProcessingRunRecord → Type 0
IsOpenFor batch_id run =
    (run.batch_id ≡ batch_id) × ((run.status ≡ "pending") ⊎ (run.status ≡ "running"))

-- An open run of the batch was stored: the answer is one that started last, and nothing changed.
pub record Joins (batch_id : String) (s s' : IngestStore) (run : ProcessingRunRecord) : Type 0 where
  pub unchanged : s' ≡ s
  pub stored : (k : String) × (lookup k s.processing_runs ≡ some run)
  pub open_ : IsOpenFor batch_id run
  pub latest :
      (k : String) (a : ProcessingRunRecord)
      → lookup k s.processing_runs ≡ some a
      → IsOpenFor batch_id a
      → a.started_at ≤ run.started_at

-- None was stored: the answer is a new run under the fresh id, and the only one of the batch that is open.
pub record Starts (batch_id id : String) (now : Moment) (s s' : IngestStore)
    (run : ProcessingRunRecord) : Type 0 where
  pub none_open :
      (k : String) (a : ProcessingRunRecord)
      → lookup k s.processing_runs ≡ some a
      → ¬ IsOpenFor batch_id a
  pub stored : lookup id s'.processing_runs ≡ some run
  pub pending : (run.batch_id ≡ batch_id) × (run.status ≡ "pending") × (run.started_at ≡ now)
  pub others : (k : String) → k ≢ id → lookup k s'.processing_runs ≡ lookup k s.processing_runs

to_open :
    (batch_id : String) (a : ProcessingRunRecord)
    → IsOpenFor batch_id a
    → is_open_of batch_id a ≡ true
to_open batch_id a h =
    ground
      (arith, h, eq_iff a.batch_id batch_id, eq_iff a.status "pending", eq_iff a.status "running")

of_open :
    (batch_id : String) (a : ProcessingRunRecord)
    → is_open_of batch_id a ≡ true
    → IsOpenFor batch_id a
of_open batch_id a h =
    ground
      (arith, h, eq_iff a.batch_id batch_id, eq_iff a.status "pending", eq_iff a.status "running")

no_open_of :
    (batch_id : String) (s : IngestStore) (k : String) (a : ProcessingRunRecord)
    → active_processing_run_for_batch batch_id s ≡ none
    → lookup k s.processing_runs ≡ some a
    → is_open_of batch_id a ≡ false
unfolding active_processing_run_for_batch
no_open_of batch_id s k a h l =
    filter-values_nil (is_open_of batch_id) s.processing_runs k a (best-none _ _ h) l

joins :
    (batch_id : String) (s : IngestStore) (run : ProcessingRunRecord)
    → UniqueKeys s.processing_runs
    → active_processing_run_for_batch batch_id s ≡ some run
    → Joins batch_id s s run
unfolding active_processing_run_for_batch
joins batch_id s run u e =
    let all = values s.processing_runs in
    let Stored =
      λ (v : ProcessingRunRecord). (k : String) × (lookup k s.processing_runs ≡ some v) in
    record {
      unchanged = refl;
      stored =
          best-All Stored later (filter (is_open_of batch_id) all) run
            (filter-All_of Stored (is_open_of batch_id) all (values-All s.processing_runs u)) e;
      open_ = of_open batch_id run (
          best-All (λ v. is_open_of batch_id v ≡ true) later (filter (is_open_of batch_id) all) run
            (filter-All (is_open_of batch_id) all) e);
      latest = λ k a l o.
          All-lookup (λ v. is_open_of batch_id v ≡ true → v.started_at ≤ run.started_at)
            s.processing_runs k a
            (of_filter-All (λ v. v.started_at ≤ run.started_at) (is_open_of batch_id) all
              (best-le (λ v. v.started_at) (filter (is_open_of batch_id) all) run e))
            l (to_open batch_id a o);
    }

module _ (manifest : Manifest) (batch_id : String) (versions : VersionIds) (engine : Option String)
    (id : String) (now : Moment) where
  starts :
      (s : IngestStore)
      → active_processing_run_for_batch batch_id s ≡ none
      → let (s', run) = add_processing_run manifest batch_id versions engine id now s in
        Starts batch_id id now s s' run
  unfolding add_processing_run new_processing_run
  starts s e = record {
    none_open =
        λ k a l o. absurd (ground (arith, no_open_of batch_id s k a e l, to_open batch_id a o));
    stored = lookup-insert_self id _ s.processing_runs;
    pending = (refl, refl, refl);
    others = λ k ne. lookup-insert_ne id _ s.processing_runs k ne;
  }

  create_over-cases :
      (s : IngestStore) (o : Option ProcessingRunRecord)
      → UniqueKeys s.processing_runs
      → active_processing_run_for_batch batch_id s ≡ o
      → let (s', run) = create_over manifest batch_id versions engine id now s o in
        Joins batch_id s s' run ⊎ Starts batch_id id now s s' run
  create_over-cases s (some run) u e = inl (joins batch_id s run u e)
  create_over-cases s none u e = inr (starts s e)

  -- A request for a run of a batch makes no second open run, also where runs were added past it: if some
  -- pending or running run of the batch is stored, in whatever number, it answers one of them that
  -- started last and changes nothing; and otherwise it adds a pending run under the fresh id, which it
  -- answers, and changes no other run. Asked of the store: its runs list no id twice.
  pub create_processing_run_lem :
      (s : IngestStore)
      → UniqueKeys s.processing_runs
      → let (s', run) = create_processing_run manifest batch_id versions engine id now s in
        Joins batch_id s s' run ⊎ Starts batch_id id now s s' run
  unfolding create_processing_run
  create_processing_run_lem s u =
      create_over-cases s (active_processing_run_for_batch batch_id s) u refl

module _ (manifest : Manifest) where
  -- Two workers that ask for a run of one batch, one after the other, get the same run, and the
  -- second request changes nothing, whatever versions it asks for. Asked of the store: its runs list no
  -- id twice.
  pub create_processing_run-twice :
      (batch_id : String) (versions versions' : VersionIds) (engine engine' : Option String)
      (id id' : String) (now now' : Moment) (s : IngestStore)
      → UniqueKeys s.processing_runs
      → let (s', run) = create_processing_run manifest batch_id versions engine id now s in
        create_processing_run manifest batch_id versions' engine' id' now' s' ≡ (s', run)
  unfolding create_processing_run
  create_processing_run-twice batch_id versions versions' engine engine' id id' now now' s u =
      elim (Option-cases (active_processing_run_for_batch batch_id s)) [
        | inr (a, e) ↦ rw (e, e) refl
        | inl e ↦
            let run = new_processing_run manifest batch_id versions engine id now s in
            let d = insert id run s.processing_runs in
            let alone : filter (is_open_of batch_id) (values d) ≡ run ∷ [] =
              filter-values_one (is_open_of batch_id) d id run
                (insert-UniqueKeys id run s.processing_runs u)
                (lookup-insert_self id run s.processing_runs)
                (unfold new_processing_run in rw (beq_refl batch_id) refl)
                (λ j w l p. elim (lookup-insert_cases id run s.processing_runs j w l) [
                  | inl (same, _) ↦ same
                  | inr old ↦ absurd (ground (arith, no_open_of batch_id s j w e old, p))
                ]) in
            rw e (
              unfold add_processing_run in
              unfold active_processing_run_for_batch in
              unfold best in unfold best_from in rw alone refl)
      ]
