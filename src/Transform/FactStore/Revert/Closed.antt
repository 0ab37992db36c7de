-- ===== src/Transform/FactStore/Revert/Closed.antt =====
-- A reverted store, key by key.
use dfip_v.Prelude.{
  ◌≡◌, refl, ap, ◌∙◌, inl, inr, Bool, not, Bool-cases, Option, none, some, List, [], ◌∷◌, ◌==◌,
  String, string_eq, option_eq, arith, leb, if◌then◌else◌,
}
use dfip_v.Prelude.Dict.{
  Dict, lookup, insert, values, keep_if, UniqueKeys, lookup-insert, insert-UniqueKeys,
  lookup-filter_values,
}
use dfip_v.Transform.Fact.{FactKey, FactRecord, key, fact_key_eq, fact_key_beq, fact_key_beq_iff}
use dfip_v.Transform.FactStore.{
  FactStore, SupersededFact, note_over, note_latest, latest_of, restore_all, revert_run,
}
use dfip_v.Transform.FactStore.Upsert.{IsValid}

-- The later of two archived rows, the second of two at one moment.
abbrev pub later : SupersededFact → Option SupersededFact → Option SupersededFact
later item none = some item
later item (some previous) =
    if leb previous.superseded_at item.superseded_at then some item else some previous

-- The latest row that `run` archived under `k`.
unfoldable pub latest_at :
    Option String → FactKey → List SupersededFact → Option SupersededFact → Option SupersededFact
latest_at run k [] found = found
latest_at run k (item ∷ items) found = latest_at run k items (
    if item.superseded_by_run_id == run
    then (if fact_key_beq (key item.fact) k then later item found else found)
    else found)

-- every row stands under its own key
abbrev IsKeyed : Dict FactKey SupersededFact → Type 0
IsKeyed [] = Unit
IsKeyed ((k, item) ∷ d) = (key item.fact ≡ k) × IsKeyed d

abbrev IsLatest : Dict FactKey SupersededFact → Type 0
IsLatest d = UniqueKeys d × IsKeyed d

lookup-note_over :
    (item : SupersededFact) (d : Dict FactKey SupersededFact) (k : FactKey)
    (o : Option SupersededFact)
    → lookup (key item.fact) d ≡ o
    → lookup k (note_over item d o)
      ≡ (if fact_key_beq (key item.fact) k then later item (lookup k d) else lookup k d)
unfolding note_over
lookup-note_over item d k none e =
    ground (arith, lookup-insert (key item.fact) k item d, fact_key_beq_iff (key item.fact) k)
lookup-note_over item d k (some p) e =
    ground (arith, lookup-insert (key item.fact) k item d, fact_key_beq_iff (key item.fact) k)

lookup-note_latest :
    (item : SupersededFact) (d : Dict FactKey SupersededFact) (k : FactKey)
    → lookup k (note_latest item d)
      ≡ (if fact_key_beq (key item.fact) k then later item (lookup k d) else lookup k d)
unfolding note_latest
lookup-note_latest item d k = lookup-note_over item d k (lookup (key item.fact) d) refl

insert-IsKeyed :
    (item : SupersededFact) (d : Dict FactKey SupersededFact)
    → IsKeyed d
    → IsKeyed (insert (key item.fact) item d)
unfolding insert
insert-IsKeyed item [] h = (refl, tt)
insert-IsKeyed item ((k, x) ∷ d) h =
    ground (arith, insert-IsKeyed item d h.1, fact_key_beq_iff k (key item.fact))

insert-IsLatest :
    (item : SupersededFact) (d : Dict FactKey SupersededFact)
    → IsLatest d
    → IsLatest (insert (key item.fact) item d)
insert-IsLatest item d (u, h) =
    (insert-UniqueKeys (key item.fact) item d u, insert-IsKeyed item d h)

note_over-IsLatest :
    (item : SupersededFact) (d : Dict FactKey SupersededFact) (o : Option SupersededFact)
    → IsLatest d
    → IsLatest (note_over item d o)
unfolding note_over
note_over-IsLatest item d none h = insert-IsLatest item d h
note_over-IsLatest item d (some p) h = elim (Bool-cases (leb p.superseded_at item.superseded_at)) [
  | inl t ↦ rw t (insert-IsLatest item d h)
  | inr f ↦ rw f h
]

latest_of-IsLatest :
    (run : Option String) (items : List SupersededFact) (d : Dict FactKey SupersededFact)
    → IsLatest d
    → IsLatest (latest_of run items d)
unfolding latest_of note_latest
latest_of-IsLatest run [] d h = h
latest_of-IsLatest run (item ∷ items) d h = elim (Bool-cases (item.superseded_by_run_id == run)) [
  | inl t ↦ rw t (
      latest_of-IsLatest run items (note_latest item d)
        (note_over-IsLatest item d (lookup (key item.fact) d) h))
  | inr f ↦ rw f (latest_of-IsLatest run items d h)
]

lookup-latest_of :
    (run : Option String) (items : List SupersededFact) (d : Dict FactKey SupersededFact)
    (k : FactKey)
    → lookup k (latest_of run items d) ≡ latest_at run k items (lookup k d)
unfolding latest_of latest_at
lookup-latest_of run [] d k = refl
lookup-latest_of run (item ∷ items) d k = elim (Bool-cases (item.superseded_by_run_id == run)) [
  | inl t ↦
      rw t (lookup-latest_of run items (note_latest item d) k ∙ rw (lookup-note_latest item d k))
  | inr f ↦ rw f (lookup-latest_of run items d k)
]

abbrev pub or_fact : Option SupersededFact → Option FactRecord → Option FactRecord
or_fact none o = o
or_fact (some item) o = some item.fact

lookup-restore_all :
    (d : Dict FactKey SupersededFact) (facts : Dict FactKey FactRecord) (k : FactKey)
    → IsLatest d
    → lookup k (restore_all (values d) facts) ≡ or_fact (lookup k d) (lookup k facts)
unfolding restore_all values lookup
lookup-restore_all [] facts k h = refl
lookup-restore_all ((i, item) ∷ d) facts k h =
    lookup-restore_all d (insert (key item.fact) item.fact facts) k (h.0.1, h.1.1)
    ∙ ground (
      arith,
      h.0.0,
      h.1.0,
      lookup-insert (key item.fact) k item.fact facts,
      fact_key_beq_iff i k,
      fact_key_beq_iff (key item.fact) k,
    )

restore_all-UniqueKeys :
    (items : List SupersededFact) (facts : Dict FactKey FactRecord)
    → UniqueKeys facts
    → UniqueKeys (restore_all items facts)
unfolding restore_all
restore_all-UniqueKeys [] facts u = u
restore_all-UniqueKeys (item ∷ items) facts u =
    restore_all-UniqueKeys items (insert (key item.fact) item.fact facts)
      (insert-UniqueKeys (key item.fact) item.fact facts u)

abbrev pub not_of_run : String → FactRecord → Bool
not_of_run run_id f = not (f.processing_run_id == some run_id)

-- what a reverted store holds under a key
unfoldable pub reverted_at : String → FactStore → FactKey → Option FactRecord
reverted_at run_id s k =
    keep_if (not_of_run run_id)
      (or_fact (latest_at (some run_id) k s.history none) (lookup k s.facts))

pub lookup-revert_run :
    (run_id : String) (s : FactStore) (k : FactKey)
    → IsValid s
    → lookup k (revert_run run_id s).facts ≡ reverted_at run_id s k
unfolding revert_run reverted_at lookup
lookup-revert_run run_id s k h =
    let latest = latest_of (some run_id) s.history [] in
    lookup-filter_values (not_of_run run_id) k (restore_all (values latest) s.facts)
      (restore_all-UniqueKeys (values latest) s.facts h.unique)
    ∙ ap (keep_if (not_of_run run_id)) (
        lookup-restore_all latest s.facts k (latest_of-IsLatest (some run_id) s.history [] (tt, tt))
        ∙ ap (λ o. or_fact o (lookup k s.facts)) (lookup-latest_of (some run_id) s.history [] k))
