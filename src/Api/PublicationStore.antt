-- ===== src/Api/PublicationStore.antt =====
-- `InMemoryPublicationStore` of packages/api/dfip_api/publication_store.py: what a client may read.
-- The fresh id and the reading of the clock are arguments; the progress callback is left out, and so
-- are the aggregates over the history, which belong to the analytics.
pub mod Copy
pub mod History
use dfip_v.Prelude.{
  ℕ, zero, suc, ◌+◌, ◌/◌, String, Bool, true, false, not, Option, none, some, List, [], ◌∷◌, ◌++◌,
  ◌==◌, ◌&&◌, ◌||◌, string_eq, option_eq, nat_eq, length, take, drop, filter, any, get_or,
  if◌then◌else◌, ltb,
}
use dfip_v.Prelude.Dates.{Date, Moment}
use dfip_v.Prelude.Dict.{Dict, lookup, insert, erase, values, contains}
use dfip_v.Prelude.Result.{Result, ok, err, ◌>>=◌}
use dfip_v.Prelude.Sort.{sort}
use dfip_v.Prelude.Text.{str_ltb}
use dfip_v.Transform.Fact.{FactKey, FactRecord, key, fact_key_eq}
use dfip_v.Transform.FactStore.{before_in_slice}

pub record PublicationRecord : Type 0 where
  pub id : String
  pub client_id : String
  pub processing_run_id : String
  pub period_start : Option Date
  pub period_end : Option Date
  pub published_at : Moment
  pub published_by : Option String
  pub notes : Option String
  pub fact_scope : String
  pub snapshot_status : String
  pub snapshot_row_count : Option ℕ

pub record PublicationCurrentRecord : Type 0 where
  pub client_id : String
  pub publication_id : String
  pub updated_at : Moment

pub record PublicationStore : Type 0 where
  pub publications : Dict String PublicationRecord
  pub current : Dict String PublicationCurrentRecord
  pub snapshots : Dict String (List FactRecord)

pub data PublicationError : Type 0 where
  duplicate_grains incomplete_snapshot : PublicationError

-- the keyword arguments of `create`
pub record Request : Type 0 where
  pub client_id : String
  pub processing_run_id : String
  pub period_start : Option Date
  pub period_end : Option Date
  pub published_by : Option String
  pub notes : Option String
  pub fact_scope : String
  pub snapshot_facts : List FactRecord

-- the loop of `_unique_snapshot_rows`
unfoldable pub unique_rows : List FactKey → List FactRecord → Bool
unique_rows seen [] = true
unique_rows seen (f ∷ facts) =
    let rest = unique_rows (key f ∷ seen) facts in
    if any (λ k. k == key f) seen then false else rest

-- the loop that copies the rows in chunks, with the number of chunks that are left
unfoldable pub copy_chunks : ℕ → List FactRecord → List FactRecord
copy_chunks zero rows = []
copy_chunks (suc n) rows = take 500 rows ++ copy_chunks n (drop 500 rows)

-- `range(0, len(rows), SNAPSHOT_CHUNK_SIZE)`
abbrev pub chunk_count : List FactRecord → ℕ
chunk_count rows = (length rows + 499) / 500

abbrev pub record_of : Request → String → Moment → PublicationRecord
record_of r id now = record {
  id = id;
  client_id = r.client_id;
  processing_run_id = r.processing_run_id;
  period_start = r.period_start;
  period_end = r.period_end;
  published_at = now;
  published_by = r.published_by;
  notes = r.notes;
  fact_scope = r.fact_scope;
  snapshot_status = "complete";
  snapshot_row_count = some (length r.snapshot_facts);
}

abbrev pub pointer_of : Request → String → Moment → PublicationCurrentRecord
pointer_of r id now = record { client_id = r.client_id; publication_id = id; updated_at = now }

abbrev pub stored :
    Request → String → Moment → List FactRecord → PublicationStore → PublicationStore
stored r id now copied s = record {
  snapshots = insert id copied s.snapshots;
  publications = insert id (record_of r id now) s.publications;
  current = insert r.client_id (pointer_of r id now) s.current;
}

unfoldable pub create :
    Request → String → Moment → PublicationStore → Result PublicationError PublicationStore
create r id now s =
    let copied = copy_chunks (chunk_count r.snapshot_facts) r.snapshot_facts in
    if not (unique_rows [] r.snapshot_facts)
    then err duplicate_grains
    else if not (length copied == length r.snapshot_facts)
    then err incomplete_snapshot
    else ok (stored r id now copied s)

pub has_publication_for_runs : List String → PublicationStore → Bool
has_publication_for_runs run_ids s =
    any (λ p. any (λ run. run == p.processing_run_id) run_ids) (values s.publications)

abbrev pub publication_at :
    PublicationStore
    → Option PublicationCurrentRecord
    → Option PublicationRecord × Option PublicationCurrentRecord
publication_at s none = (none, none)
publication_at s (some pointer) = (lookup pointer.publication_id s.publications, some pointer)

unfoldable pub get_current :
    String → PublicationStore → Option PublicationRecord × Option PublicationCurrentRecord
get_current client_id s = publication_at s (lookup client_id s.current)

-- the key `(published_at, id)`
abbrev published_before : PublicationRecord → PublicationRecord → Bool
published_before a b =
    ltb a.published_at b.published_at || (a.published_at == b.published_at && str_ltb a.id b.id)

pub list_for_client : String → PublicationStore → List PublicationRecord
list_for_client client_id s =
    sort published_before (filter (λ p. p.client_id == client_id) (values s.publications))

abbrev pub snapshot_of : String → PublicationStore → List FactRecord
snapshot_of publication_id s = get_or (lookup publication_id s.snapshots) []

unfoldable pub list_snapshot : String → String → ℕ → ℕ → PublicationStore → List FactRecord × ℕ
list_snapshot publication_id client_id limit offset s =
    let records =
      sort before_in_slice
        (filter (λ f. f.client_id == client_id) (snapshot_of publication_id s)) in
    (take limit (drop offset records), length records)

-- `reversed(xs)`
unfoldable pub reversed {ℓ} : {A : Type ℓ} → List A → List A
reversed [] = []
reversed (x ∷ xs) = reversed xs ++ x ∷ []

-- the inner loop of `list_published_history`
unfoldable pub note_facts :
    String → List FactRecord → Dict FactKey FactRecord → Dict FactKey FactRecord
note_facts client_id [] merged = merged
note_facts client_id (f ∷ facts) merged = note_facts client_id facts (
    if not (f.client_id == client_id)
    then merged
    else if contains (key f) merged
    then merged
    else insert (key f) f merged)

unfoldable pub merge_snapshots :
    String
    → List PublicationRecord
    → PublicationStore
    → Dict FactKey FactRecord
    → Dict FactKey FactRecord
merge_snapshots client_id [] s merged = merged
merge_snapshots client_id (p ∷ publications) s merged =
    merge_snapshots client_id publications s (note_facts client_id (snapshot_of p.id s) merged)

abbrev pub is_complete_of : String → PublicationRecord → Bool
is_complete_of client_id p = p.client_id == client_id && p.snapshot_status == "complete"

-- `merged` of `list_published_history`
unfoldable pub merged_history : String → PublicationStore → Dict FactKey FactRecord
merged_history client_id s =
    merge_snapshots client_id (filter (is_complete_of client_id) (reversed (values s.publications)))
      s []

unfoldable pub list_published_history : String → ℕ → ℕ → PublicationStore → List FactRecord × ℕ
list_published_history client_id limit offset s =
    let records = sort before_in_slice (values (merged_history client_id s)) in
    (take limit (drop offset records), length records)

-- the loop over `drop_ids`
unfoldable pub drop_publications : List PublicationRecord → PublicationStore → PublicationStore
drop_publications [] s = s
drop_publications (p ∷ publications) s =
    drop_publications publications
      (record s { publications = erase p.id s.publications; snapshots = erase p.id s.snapshots })

unfoldable pub purge_client : String → PublicationStore → PublicationStore
purge_client client_id s =
    let dropped =
      drop_publications (filter (λ p. p.client_id == client_id) (values s.publications)) s in
    record dropped { current = erase client_id dropped.current }
