-- ===== src/Analytics/Aggregate/Rollup.antt =====
-- The rows of every grain add up to the same totals.
use dfip_v.Prelude.{
  ◌≡◌, refl, sym, ap, ◌∙◌, Option, none, some, List, [], ◌∷◌, ◌++◌, map, inl, inr, Bool-cases, ◌==◌,
  get_or,
}
use mathlib.Core.List.{map-append}
use dfip_v.Prelude.Decimal.{Decimal}
use dfip_v.Prelude.Dict.{lookup, insert}
use dfip_v.Prelude.Sort.{sort}
use dfip_v.Transform.Fact.{FactRecord}
use dfip_v.Analytics.Grains.{Grain, GrainKey, grain_key, grain_key_eq}
use dfip_v.Analytics.Kpis.{Measure, Namespace}
use dfip_v.Analytics.Aggregate.{
  Groups, sum_values, sum_measure, measure_of, group_facts, aggregate_facts, row_of, group_before,
}
use dfip_v.Analytics.Aggregate.Sums.{
  plus, plus-none, plus_assoc, plus_comm, sum_values-nil, sum_values-cons, sum_values-append,
  sum_values-sort,
}

module _ (m : Measure) where
  abbrev group_sum : GrainKey × List FactRecord → Option Decimal
  group_sum (key, members) = sum_measure members m

  abbrev groups_total : Groups → Option Decimal
  groups_total groups = sum_values (map group_sum groups)

  sum_measure-append :
      (xs ys : List FactRecord)
      → sum_measure (xs ++ ys) m ≡ plus (sum_measure xs m) (sum_measure ys m)
  unfolding sum_measure
  sum_measure-append xs ys =
      ap sum_values (map-append (measure_of m) xs ys)
      ∙ sum_values-append (map (measure_of m) xs) (map (measure_of m) ys)

  -- one more member in the group of its key
  groups_total-insert :
      (key : GrainKey) (f : FactRecord) (groups : Groups) (old : Option (List FactRecord))
      → lookup key groups ≡ old
      → groups_total (insert key (get_or old [] ++ (f ∷ [])) groups)
        ≡ plus (groups_total groups) (sum_measure (f ∷ []) m)
  unfolding insert lookup
  groups_total-insert key f [] old l =
      let e : old ≡ none = sym l in
      rw e (
        sum_values-cons (sum_measure (f ∷ []) m) []
        ∙ rw sum_values-nil (plus-none (sum_measure (f ∷ []) m)))
  groups_total-insert key f ((k, members) ∷ groups) old l = elim (Bool-cases (k == key)) [
    | inl e ↦
        let found : some members ≡ old = rw e at l in
        rw (e, ← found)
          (sum_values-cons (sum_measure (members ++ (f ∷ [])) m) (map group_sum groups)
            ∙ ap (λ x. plus x (groups_total groups)) (sum_measure-append members (f ∷ []))
            ∙ plus_assoc (sum_measure members m) (sum_measure (f ∷ []) m) (groups_total groups)
            ∙ ap (plus (sum_measure members m))
                (plus_comm (sum_measure (f ∷ []) m) (groups_total groups))
            ∙ more_values members groups (sum_measure (f ∷ []) m))
    | inr e ↦
        let rest : lookup key groups ≡ old = rw e at l in
        rw e (
          sum_values-cons (sum_measure members m)
            (map group_sum (insert key (get_or old [] ++ (f ∷ [])) groups))
          ∙ ap (plus (sum_measure members m)) (groups_total-insert key f groups old rest)
          ∙ more_values members groups (sum_measure (f ∷ []) m))
  ]
    where
      more_values :
          (members : List FactRecord) (groups : Groups) (v : Option Decimal)
          → plus (sum_measure members m) (plus (groups_total groups) v)
            ≡ plus (sum_values (sum_measure members m ∷ map group_sum groups)) v
      more_values members groups v =
          sym (plus_assoc (sum_measure members m) (groups_total groups) v)
          ∙ ap (λ x. plus x v)
              (sym (sum_values-cons (sum_measure members m) (map group_sum groups)))

  groups_total-group_facts :
      (grain : Grain) (facts : List FactRecord) (groups : Groups)
      → groups_total (group_facts grain facts groups)
        ≡ plus (groups_total groups) (sum_measure facts m)
  unfolding group_facts
  groups_total-group_facts grain [] groups =
      unfold sum_measure in rw sum_values-nil (sym (plus-none (groups_total groups)))
  groups_total-group_facts grain (f ∷ facts) groups =
      let key = grain_key f grain in
      groups_total-group_facts grain facts
        (insert key (get_or (lookup key groups) [] ++ (f ∷ [])) groups)
      ∙ ap (λ x. plus x (sum_measure facts m))
          (groups_total-insert key f groups (lookup key groups) refl)
      ∙ plus_assoc (groups_total groups) (sum_measure (f ∷ []) m) (sum_measure facts m)
      ∙ ap (plus (groups_total groups)) (sym (sum_measure-append (f ∷ []) facts))

  row_sums :
      (grain : Grain) (namespace : Option Namespace) (groups : Groups)
      → map (λ row. row.measures m) (map (row_of grain namespace) groups) ≡ map group_sum groups
  row_sums grain namespace [] = refl
  row_sums grain namespace ((key, members) ∷ groups) =
      ap (λ l. sum_measure members m ∷ l) (row_sums grain namespace groups)

-- Whatever the grain, the rows add up: for every measure the sum over the rows of an aggregation, by the
-- same rule that skips missing values, is the sum over all its facts.
pub aggregate_facts-rollup :
    (facts : List FactRecord) (grain : Grain) (namespace : Option Namespace) (m : Measure)
    → sum_values (map (λ row. row.measures m) (aggregate_facts facts grain namespace))
      ≡ sum_measure facts m
unfolding aggregate_facts
aggregate_facts-rollup facts grain namespace m =
    ap sum_values (row_sums m grain namespace (sort group_before (group_facts grain facts [])))
    ∙ sum_values-sort group_before (group_sum m) (group_facts grain facts [])
    ∙ groups_total-group_facts m grain facts []
    ∙ rw sum_values-nil refl
