-- ===== src/Analytics/Aggregate/Groups.antt =====
-- The rows of an aggregation against the facts of each key.
use dfip_v.Prelude.{
  ◌≡◌, refl, sym, ap, ◌∙◌, ◌||◌, Option, some, List, [], ◌∷◌, ◌++◌, map, inl, inr, Bool-cases, ◌==◌,
  get_or, if◌then◌else◌, arith, filter, any, All, All_mono, map-All, length, append_assoc, beq_refl,
}
use mathlib.Core.List.{append-nil}
use dfip_v.Prelude.Dict.{
  lookup, insert, contains, UniqueKeys, lookup-insert, insert-UniqueKeys, lookup-cons,
}
use dfip_v.Prelude.Sort.{sort, sort-All, length-filter-sort}
use dfip_v.Transform.Fact.{FactRecord}
use dfip_v.Analytics.Grains.{Grain, GrainKey, grain_key, grain_key_eq, grain_key_beq_iff}
use dfip_v.Analytics.Kpis.{Measure, Namespace}
use dfip_v.Analytics.Aggregate.{
  Groups, sum_measure, group_facts, aggregate_facts, row_of, group_before,
}

-- the facts of one key, in order
abbrev pub facts_of : Grain → GrainKey → List FactRecord → List FactRecord
facts_of grain k facts = filter (λ f. grain_key f grain == k) facts

abbrev members_at : GrainKey → Groups → List FactRecord
members_at k groups = get_or (lookup k groups) []

lookup-group_facts :
    (grain : Grain) (k : GrainKey) (facts : List FactRecord) (groups : Groups)
    → members_at k (group_facts grain facts groups) ≡ members_at k groups ++ facts_of grain k facts
unfolding group_facts filter
lookup-group_facts grain k [] groups = sym (append-nil (members_at k groups))
lookup-group_facts grain k (f ∷ facts) groups =
    let key = grain_key f grain in
    let members = get_or (lookup key groups) [] ++ (f ∷ []) in
    lookup-group_facts grain k facts (insert key members groups)
    ∙ rw (lookup-insert key k members groups) (elim (Bool-cases (key == k)) [
      | inl e ↦
          let same : key ≡ k = (grain_key_beq_iff key k).0 e in
          rw (e, same) (append_assoc (members_at k groups) (f ∷ []) (facts_of grain k facts))
      | inr e ↦ rw e refl
    ])

group_facts-UniqueKeys :
    (grain : Grain) (facts : List FactRecord) (groups : Groups)
    → UniqueKeys groups
    → UniqueKeys (group_facts grain facts groups)
unfolding group_facts
group_facts-UniqueKeys grain [] groups u = u
group_facts-UniqueKeys grain (f ∷ facts) groups u =
    let key = grain_key f grain in
    let members = get_or (lookup key groups) [] ++ (f ∷ []) in
    group_facts-UniqueKeys grain facts (insert key members groups)
      (insert-UniqueKeys key members groups u)

contains-group_facts :
    (grain : Grain) (k : GrainKey) (facts : List FactRecord) (groups : Groups)
    → contains k (group_facts grain facts groups)
      ≡ (contains k groups || any (λ f. grain_key f grain == k) facts)
unfolding group_facts any
contains-group_facts grain k [] groups = ground arith
contains-group_facts grain k (f ∷ facts) groups =
    let key = grain_key f grain in
    let members = get_or (lookup key groups) [] ++ (f ∷ []) in
    contains-group_facts grain k facts (insert key members groups)
    ∙ rw (lookup-insert key k members groups) (ground arith)

-- Each entry of a dictionary is what its key finds.
entries_found :
    (groups : Groups) → UniqueKeys groups → All (λ e. lookup e.0 groups ≡ some e.1) groups
unfolding lookup
entries_found [] u = tt
entries_found ((k, members) ∷ groups) u = (
  rw (beq_refl k) refl,
  All_mono (λ e. lookup e.0 groups ≡ some e.1) (λ e. lookup e.0 ((k, members) ∷ groups) ≡ some e.1)
      (λ e. lookup-cons e.0 k members e.1 groups u) groups (entries_found groups u.1),
)

count-keys :
    (k : GrainKey) (groups : Groups)
    → UniqueKeys groups
    → length (filter (λ e. e.0 == k) groups) ≡ (if contains k groups then 1 else 0)
unfolding filter lookup
count-keys k [] u = refl
count-keys k ((j, members) ∷ groups) u =
    ground (arith, count-keys k groups u.1, grain_key_beq_iff j k)

key_present :
    (grain : Grain) (k : GrainKey) (facts : List FactRecord)
    → contains k (group_facts grain facts []) ≡ any (λ f. grain_key f grain == k) facts
unfolding lookup
key_present grain k facts = contains-group_facts grain k facts []

all_members :
    (grain : Grain) (k : GrainKey) (facts : List FactRecord)
    → members_at k (group_facts grain facts []) ≡ facts_of grain k facts
unfolding lookup
all_members grain k facts = lookup-group_facts grain k facts []

filter-rows :
    (grain : Grain) (namespace : Option Namespace) (k : GrainKey) (groups : Groups)
    → length (filter (λ row. row.key == k) (map (row_of grain namespace) groups))
      ≡ length (filter (λ e. e.0 == k) groups)
unfolding filter
filter-rows grain namespace k [] = refl
filter-rows grain namespace k ((j, members) ∷ groups) =
    ground (arith, filter-rows grain namespace k groups)

-- An aggregation has one row for every key that some fact has at its grain, and no other row; and the
-- measures of a row are the sums over the facts of its key.
pub aggregate_facts_lem :
    (facts : List FactRecord) (grain : Grain) (namespace : Option Namespace)
    → let rows = aggregate_facts facts grain namespace in
      ((k : GrainKey)
        → length (filter (λ row. row.key == k) rows)
          ≡ (if any (λ f. grain_key f grain == k) facts then 1 else 0))
      × All
          (λ row. (m : Measure) → row.measures m ≡ sum_measure (facts_of grain row.key facts) m)
          rows
unfolding aggregate_facts
aggregate_facts_lem facts grain namespace =
    let groups = group_facts grain facts [] in
    let unique = group_facts-UniqueKeys grain facts [] tt in
    (
      λ k.
          filter-rows grain namespace k (sort group_before groups)
          ∙ length-filter-sort (λ e. e.0 == k) group_before groups
          ∙ count-keys k groups unique
          ∙ ap (λ b. if b then 1 else 0) (key_present grain k facts),
      map-All (row_of grain namespace)
          (λ row. (m : Measure) → row.measures m ≡ sum_measure (facts_of grain row.key facts) m)
          (sort group_before groups)
          (sort-All
            (λ e. (m : Measure) → sum_measure e.1 m ≡ sum_measure (facts_of grain e.0 facts) m)
            group_before groups
            (All_mono (λ e. lookup e.0 groups ≡ some e.1)
              (λ e. (m : Measure) → sum_measure e.1 m ≡ sum_measure (facts_of grain e.0 facts) m)
              (λ (e : GrainKey × List FactRecord) found m.
                ap (λ l. sum_measure l m)
                  (ap (λ o. get_or o []) (sym found) ∙ all_members grain e.0 facts))
              groups (entries_found groups unique))),
    )
