-- ===== src/Ingest/Store/Purge.antt =====
-- What purging a client removes from the store, and what it leaves.
use dfip_v.Prelude.{
  ◌≡◌, ◌≢◌, refl, sym, ap, ◌∙◌, String, Bool, true, false, not, none, some, List, [], ◌∷◌, ◌==◌,
  ◌&&◌, string_eq, option_eq, option_beq_iff, Bool-cases, inl, inr, arith, eq_iff, All, All_mono,
  filter, any, any-false, of_any-false, any-filter_kept, filter-All, if◌then◌else◌,
}
use mathlib.Core.Option.{some-injective}
use dfip_v.Prelude.Dict.{Dict, lookup, values, UniqueKeys}
use dfip_v.Prelude.Members.{
  lookup-filter_values_cases, lookup-filter_values_kept, any-values, values-All,
}
use dfip_v.Ingest.Records.{
  BatchRecord, SourceFileRecord, StagedRowRecord, RejectedRowRecord, ProcessingRunRecord,
}
use dfip_v.Ingest.Store.{IngestStore, purge_client, is_batch_of, is_file_of}

-- The id is that of no batch of the client.
abbrev pub NotOf : String → IngestStore → String → Type 0
NotOf client_id s id = All (λ b. b.client_id ≡ client_id → b.id ≢ id) (values s.batches)

-- nothing of the client is left
pub record Purged (client_id : String) (before after : IngestStore) : Type 0 where
  pub batches :
      (k : String) (b : BatchRecord) → lookup k after.batches ≡ some b → b.client_id ≢ client_id
  pub runs :
      (k : String) (r : ProcessingRunRecord)
      → lookup k after.processing_runs ≡ some r
      → (r.client_id ≢ some client_id) × NotOf client_id before r.batch_id
  pub files :
      (k : String) (f : SourceFileRecord)
      → lookup k after.source_files ≡ some f
      → f.client_id ≢ client_id
  pub files_by_id :
      (k : String) (f : SourceFileRecord)
      → lookup k after.source_files_by_id ≡ some f
      → f.client_id ≢ client_id
  pub staged : All (λ row. NotOf client_id before row.batch_id) after.staged_rows
  pub rejected : All (λ row. NotOf client_id before row.batch_id) after.rejected_rows

-- What is kept: for the rows, a test that only rows of other batches pass finds one after the purge
-- exactly if it did before.
pub record Spared (client_id : String) (before after : IngestStore) : Type 0 where
  pub batches :
      (k : String) (b : BatchRecord)
      → lookup k before.batches ≡ some b
      → b.client_id ≢ client_id
      → lookup k after.batches ≡ some b
  pub runs :
      (k : String) (r : ProcessingRunRecord)
      → lookup k before.processing_runs ≡ some r
      → r.client_id ≢ some client_id
      → NotOf client_id before r.batch_id
      → lookup k after.processing_runs ≡ some r
  pub files :
      (k : String) (f : SourceFileRecord)
      → lookup k before.source_files ≡ some f
      → f.client_id ≢ client_id
      → lookup k after.source_files ≡ some f
  pub files_by_id :
      (k : String) (f : SourceFileRecord)
      → lookup k before.source_files_by_id ≡ some f
      → f.client_id ≢ client_id
      → lookup k after.source_files_by_id ≡ some f
  pub staged :
      (P : StagedRowRecord → Bool)
      → ((row : StagedRowRecord) → P row ≡ true → NotOf client_id before row.batch_id)
      → any P after.staged_rows ≡ any P before.staged_rows
  pub rejected :
      (P : RejectedRowRecord → Bool)
      → ((row : RejectedRowRecord) → P row ≡ true → NotOf client_id before row.batch_id)
      → any P after.rejected_rows ≡ any P before.rejected_rows

-- The files stand under their own ids.
abbrev pub KeyedById : Dict String SourceFileRecord → Type 0
KeyedById d = (k : String) (f : SourceFileRecord) → lookup k d ≡ some f → f.id ≡ k

not-true : (b : Bool) → not b ≡ true → b ≡ false
not-true true h = absurd cc
not-true false h = refl

lookup-filter_keys :
    (q : String → Bool) (k : String) (d : Dict String SourceFileRecord)
    → lookup k (filter (λ entry. q entry.0) d) ≡ (if q k then lookup k d else none)
unfolding lookup filter
lookup-filter_keys q k [] = ground arith
lookup-filter_keys q k ((i, f) ∷ d) = elim (Bool-cases (i == k)) [
  | inl same ↦
      let same' : q i ≡ q k = ap q ((eq_iff i k).0 same) in
      elim (Bool-cases (q k)) [
        | inl e ↦ rw (same' ∙ e, e, same) refl
        | inr e ↦ rw (same' ∙ e, e) (lookup-filter_keys q k d ∙ rw e refl)
      ]
  | inr other ↦ elim (Bool-cases (q i)) [
    | inl e ↦ rw (e, other) (lookup-filter_keys q k d)
    | inr e ↦ rw (e, other) (lookup-filter_keys q k d)
  ]
]

module _ (client_id : String) (s : IngestStore) where
  of_is_batch_of : (id : String) → is_batch_of client_id s id ≡ false → NotOf client_id s id
  unfolding is_batch_of
  of_is_batch_of id h =
      All_mono (λ b. (b.client_id == client_id && b.id == id) ≡ false)
        (λ b. b.client_id ≡ client_id → b.id ≢ id)
        (λ b n mine same.
          absurd (ground (arith, n, mine, same, eq_iff b.client_id client_id, eq_iff b.id id)))
        (values s.batches) (of_any-false _ (values s.batches) h)

  to_is_batch_of : (id : String) → NotOf client_id s id → is_batch_of client_id s id ≡ false
  unfolding is_batch_of
  to_is_batch_of id h = any-false _ (values s.batches) (
      All_mono (λ b. b.client_id ≡ client_id → b.id ≢ id)
        (λ b. (b.client_id == client_id && b.id == id) ≡ false)
        (λ b n. ground (arith, n, eq_iff b.client_id client_id, eq_iff b.id id)) (values s.batches)
        h)

  rows-NotOf {ℓ} :
      {A : Type ℓ} (batch_of : A → String) (rows : List A)
      → All
          (λ row. NotOf client_id s (batch_of row))
          (filter (λ row. not (is_batch_of client_id s (batch_of row))) rows)
  rows-NotOf batch_of rows =
      All_mono (λ row. not (is_batch_of client_id s (batch_of row)) ≡ true)
        (λ row. NotOf client_id s (batch_of row))
        (λ row n. of_is_batch_of (batch_of row) (not-true _ n)) _
        (filter-All (λ row. not (is_batch_of client_id s (batch_of row))) rows)

  is_file_of-own :
      (k : String) (f : SourceFileRecord)
      → KeyedById s.source_files_by_id
      → lookup k s.source_files_by_id ≡ some f
      → f.client_id ≡ client_id
      → is_file_of client_id s k ≡ true
  unfolding is_file_of
  is_file_of-own k f keyed l mine =
      any-values _ s.source_files_by_id k f l
        (ground (arith, mine, keyed k f l, eq_iff f.client_id client_id, eq_iff f.id k))

  is_file_of-other :
      (k : String) (f : SourceFileRecord)
      → UniqueKeys s.source_files_by_id
      → KeyedById s.source_files_by_id
      → lookup k s.source_files_by_id ≡ some f
      → f.client_id ≢ client_id
      → is_file_of client_id s k ≡ false
  unfolding is_file_of
  is_file_of-other k f u keyed l other = any-false _ (values s.source_files_by_id) (
      All_mono (λ g. (j : String) × (lookup j s.source_files_by_id ≡ some g))
        (λ g. (g.client_id == client_id && g.id == k) ≡ false)
        (λ g (j, m). elim (Bool-cases (g.id == k)) [
          | inr e ↦ rw e (ground arith)
          | inl e ↦
              let j=k : j ≡ k = sym (keyed j g m) ∙ (eq_iff g.id k).0 e in
              let same : g ≡ f =
                some-injective _ _ (sym m ∙ ap (λ i. lookup i s.source_files_by_id) j=k ∙ l) in
              let owner : g.client_id ≡ f.client_id = ap (λ x. x.client_id) same in
              ground (arith, other, owner, eq_iff g.client_id client_id)
        ])
        (values s.source_files_by_id) (values-All s.source_files_by_id u))

-- A purge takes the client's batches with their staged and rejected rows, the runs of the client and of
-- its batches, and the client's files under hashes and under ids; and it leaves every batch, file and
-- run that belongs to another client and to no batch of this one, and every row of another batch. Asked
-- of the store: its dictionaries list no key twice and files stand under their own ids.
pub purge_client_lem :
    (client_id : String) (s : IngestStore)
    → UniqueKeys s.batches
    → UniqueKeys s.source_files
    → UniqueKeys s.source_files_by_id
    → KeyedById s.source_files_by_id
    → UniqueKeys s.processing_runs
    → let s' = purge_client client_id s in Purged client_id s s' × Spared client_id s s'
unfolding purge_client
purge_client_lem client_id s ub uf ui keyed ur = (
  record {
    batches = λ k b l same. absurd (
        ground (
          arith,
          (lookup-filter_values_cases _ s.batches k b ub l).1,
          same,
          eq_iff b.client_id client_id,
        ));
    runs = λ k r l.
        let kept = (lookup-filter_values_cases _ s.processing_runs k r ur l).1 in
        (
          λ same.
              absurd
                (ground (arith, kept, same, option_beq_iff string_eq r.client_id (some client_id))),
          of_is_batch_of client_id s r.batch_id (ground (arith, kept)),
        );
    files = λ k f l same. absurd (
        ground (
          arith,
          (lookup-filter_values_cases _ s.source_files k f uf l).1,
          same,
          eq_iff f.client_id client_id,
        ));
    files_by_id = λ k f l mine.
        let e =
          sym (lookup-filter_keys (λ i. not (is_file_of client_id s i)) k s.source_files_by_id)
          ∙ l in
        elim (Bool-cases (is_file_of client_id s k)) [
          | inl own ↦ let e' = rw own at e in absurd cc
          | inr fine ↦
              let e' : lookup k s.source_files_by_id ≡ some f = rw fine at e in
              absurd (ground (arith, fine, is_file_of-own client_id s k f keyed e' mine))
        ];
    staged = rows-NotOf client_id s (λ row. row.batch_id) s.staged_rows;
    rejected = rows-NotOf client_id s (λ row. row.batch_id) s.rejected_rows;
  },
  record {
    batches = λ k b l o.
        lookup-filter_values_kept _ s.batches k b l
          (ground (arith, o, eq_iff b.client_id client_id));
    files = λ k f l o.
        lookup-filter_values_kept _ s.source_files k f l
          (ground (arith, o, eq_iff f.client_id client_id));
    files_by_id = λ k f l o.
        lookup-filter_keys (λ i. not (is_file_of client_id s i)) k s.source_files_by_id
        ∙ rw (is_file_of-other client_id s k f ui keyed l o) l;
    runs = λ k r l o n. lookup-filter_values_kept _ s.processing_runs k r l (
        rw (to_is_batch_of client_id s r.batch_id n)
          (ground (arith, o, option_beq_iff string_eq r.client_id (some client_id))));
    staged = λ P others.
        any-filter_kept P _
          (λ row p. rw (to_is_batch_of client_id s row.batch_id (others row p)) refl) s.staged_rows;
    rejected = λ P others.
        any-filter_kept P _
          (λ row p. rw (to_is_batch_of client_id s row.batch_id (others row p)) refl)
          s.rejected_rows;
  },
)
