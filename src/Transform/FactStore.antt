-- ===== src/Transform/FactStore.antt =====
-- `InMemoryFactStore` of packages/core/dfip_core/transform/store.py. Its lock makes every method one
-- step. A reading of the clock is an argument of the method that reads it.
pub mod Revert
pub mod Upsert
pub mod Ascending
pub mod Slice
use dfip_v.Prelude.{
  ℕ, String, Bool, true, false, not, Option, none, some, List, [], ◌∷◌, ◌++◌, ◌&&◌, ◌||◌, ◌==◌,
  string_eq, option_eq, leb, length, take, drop, filter, if◌then◌else◌,
}
use dfip_v.Prelude.Dates.{Date, Moment, date_ltb, date_leb, date_eq}
use dfip_v.Prelude.Dict.{Dict, lookup, insert, values, filter_values}
use dfip_v.Prelude.Sort.{sort}
use dfip_v.Prelude.Text.{str_ltb}
use dfip_v.Transform.Fact.{
  FactKey, FactRecord, key, fact_key_eq, same_business_values, carry_first_seen,
}

-- one `fact_campaign_day_history` row
pub record SupersededFact : Type 0 where
  pub fact : FactRecord
  pub superseded_at : Moment
  pub superseded_by_run_id : Option String

pub record FactStore : Type 0 where
  pub facts : Dict FactKey FactRecord
  pub history : List SupersededFact

-- the texts that `upsert` returns
pub data Action : Type 0 where
  inserted restated unchanged : Action

-- `upsert` once the stored record is known
upsert_over : Moment → FactRecord → FactStore → Option FactRecord → FactStore × Action
upsert_over now r s none = (record s { facts = insert (key r) r s.facts }, inserted)
upsert_over now r s (some previous) =
    let carried = carry_first_seen r previous in
    if same_business_values previous carried
    then (
      record s {
        facts = insert (key r) (record carried { last_seen_at = r.last_seen_at }) s.facts;
      },
      unchanged,
    )
    else (
      record {
        facts = insert (key r) carried s.facts;
        history =
            s.history
            ++ record {
              fact = previous;
              superseded_at = now;
              superseded_by_run_id = r.processing_run_id;
            }
              ∷ [];
      },
      restated,
    )

unfoldable pub upsert : Moment → FactRecord → FactStore → FactStore × Action
unfolding upsert_over
upsert now r s = upsert_over now r s (lookup (key r) s.facts)

-- Each record comes with the reading of the clock at its turn.
unfoldable pub upsert_many : List (Moment × FactRecord) → FactStore → FactStore × List Action
upsert_many [] s = (s, [])
upsert_many ((now, r) ∷ records) s =
    let (s', action) = upsert now r s in
    let (s'', actions) = upsert_many records s' in (s'', action ∷ actions)

pub for_batch : String → FactStore → List FactRecord
for_batch batch_id s = filter (λ f. f.batch_id == some batch_id) (values s.facts)

pub for_run : String → FactStore → List FactRecord
for_run run_id s = filter (λ f. f.processing_run_id == some run_id) (values s.facts)

-- the sort key `(day, campaign_id, variation_id_key, client_id)`
unfoldable pub before_in_slice : FactRecord → FactRecord → Bool
before_in_slice a b =
    if a.day == b.day
    then (if a.campaign_id == b.campaign_id
        then (if a.variation_id_key == b.variation_id_key
            then str_ltb a.client_id b.client_id
            else str_ltb a.variation_id_key b.variation_id_key)
        else str_ltb a.campaign_id b.campaign_id)
    else date_ltb a.day b.day

abbrev pub from_day : Option Date → Date → Bool
from_day none day = true
from_day (some start) day = date_leb start day

abbrev pub to_day : Option Date → Date → Bool
to_day none day = true
to_day (some end) day = date_leb day end

pub record SliceQuery : Type 0 where
  pub client_id : String
  pub processing_run_id : String
  pub period_start : Option Date
  pub period_end : Option Date
  pub fact_scope : String

unfoldable pub in_slice : SliceQuery → FactRecord → Bool
in_slice q f =
    f.client_id == q.client_id
    && ((f.processing_run_id == some q.processing_run_id || q.fact_scope == "client_current")
        && (from_day q.period_start f.day && to_day q.period_end f.day))

-- a page of the slice, and the number of its records
unfoldable pub list_published_slice : SliceQuery → ℕ → ℕ → FactStore → List FactRecord × ℕ
unfolding filter in_slice values
list_published_slice q limit offset s =
    let records = sort before_in_slice (filter (in_slice q) (values s.facts)) in
    (take limit (drop offset records), length records)

-- one round of the loop that fills `latest`, once the row under the key is known
note_over :
    SupersededFact
    → Dict FactKey SupersededFact
    → Option SupersededFact
    → Dict FactKey SupersededFact
note_over item latest none = insert (key item.fact) item latest
note_over item latest (some previous) =
    if leb previous.superseded_at item.superseded_at
    then insert (key item.fact) item latest
    else latest

note_latest : SupersededFact → Dict FactKey SupersededFact → Dict FactKey SupersededFact
unfolding note_over
note_latest item latest = note_over item latest (lookup (key item.fact) latest)

latest_of :
    Option String → List SupersededFact → Dict FactKey SupersededFact → Dict FactKey SupersededFact
unfolding note_latest
latest_of run [] latest = latest
latest_of run (item ∷ items) latest =
    latest_of run items
      (if item.superseded_by_run_id == run then note_latest item latest else latest)

-- `for item in latest.values(): self.facts[item.fact.key] = item.fact`
restore_all : List SupersededFact → Dict FactKey FactRecord → Dict FactKey FactRecord
restore_all [] facts = facts
restore_all (item ∷ items) facts = restore_all items (insert (key item.fact) item.fact facts)

unfoldable pub revert_run : String → FactStore → FactStore
unfolding latest_of restore_all values filter_values filter
revert_run run_id s = record {
  facts =
      filter_values (λ f. not (f.processing_run_id == some run_id))
        (restore_all (values (latest_of (some run_id) s.history [])) s.facts);
  history = filter (λ item. not (item.superseded_by_run_id == some run_id)) s.history;
}

unfoldable pub purge_client : String → FactStore → FactStore
unfolding filter_values filter
purge_client client_id s = record {
  facts = filter_values (λ f. not (f.client_id == client_id)) s.facts;
  history = filter (λ item. not (item.fact.client_id == client_id)) s.history;
}
