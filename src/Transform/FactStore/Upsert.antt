-- ===== src/Transform/FactStore/Upsert.antt =====
-- What one write does to the current facts and to the history.
use dfip_v.Prelude.{
  ◌≡◌, ◌≢◌, refl, sym, ◌∙◌, ℕ, suc, length-append, Option-cases, inl, inr, Bool-cases, true, false,
  Option, none, some, List, [], ◌∷◌, ◌++◌, arith, length, ◌+◌,
}
use dfip_v.Prelude.Dates.{Moment}
use dfip_v.Prelude.Dict.{
  lookup, insert, UniqueKeys, lookup-insert, lookup-insert_self, lookup-insert_ne, length-insert,
  insert-UniqueKeys,
}
use dfip_v.Transform.Fact.{
  FactKey, FactRecord, key, fact_key_eq, fact_key_beq_iff, same_business_values, carry_first_seen,
  same_business_values-carry,
}
use dfip_v.Transform.FactStore.{
  FactStore, SupersededFact, Action, inserted, restated, unchanged, upsert, upsert_over,
  upsert_many,
}

-- Every fact is stored once, under its own grain key.
pub record IsValid (s : FactStore) : Type 0 where
  pub unique : UniqueKeys s.facts
  pub keyed : (k : FactKey) (f : FactRecord) → lookup k s.facts ≡ some f → key f ≡ k

insert-IsValid :
    (f : FactRecord) (s : FactStore) (history : List SupersededFact)
    → IsValid s
    → IsValid (record { facts = insert (key f) f s.facts; history = history })
insert-IsValid f s history h = record {
  unique = insert-UniqueKeys (key f) f s.facts h.unique;
  keyed = λ k g e.
      ground (arith, h.keyed k g, lookup-insert (key f) k f s.facts, fact_key_beq_iff (key f) k);
}

upsert_over-IsValid :
    (now : Moment) (r : FactRecord) (s : FactStore) (o : Option FactRecord)
    → IsValid s
    → IsValid (upsert_over now r s o).0
unfolding upsert_over
upsert_over-IsValid now r s none h = insert-IsValid r s s.history h
upsert_over-IsValid now r s (some p) h =
    elim (Bool-cases (same_business_values p (carry_first_seen r p))) [
      | inl e ↦ rw e (insert-IsValid (carry_first_seen r p) s s.history h)
      | inr e ↦ rw e (insert-IsValid (carry_first_seen r p) s _ h)
    ]

-- Any sequence of writes keeps the grain of the table, if it holds before: one fact to a key, under its
-- own key.
pub upsert_many-IsValid :
    (records : List (Moment × FactRecord)) (s : FactStore)
    → IsValid s
    → IsValid (upsert_many records s).0
unfolding upsert_many upsert
upsert_many-IsValid [] s h = h
upsert_many-IsValid ((now, r) ∷ records) s h =
    upsert_many-IsValid records (upsert now r s).0
      (upsert_over-IsValid now r s (lookup (key r) s.facts) h)

-- the row that a superseding write leaves in the history
abbrev pub archived : Moment → FactRecord → FactRecord → SupersededFact
archived now r previous = record {
  fact = previous;
  superseded_at = now;
  superseded_by_run_id = r.processing_run_id;
}

-- What became of a write, by the fact that stood under its key and the action that it reports.
abbrev pub Wrote : Moment → FactRecord → FactStore → FactStore → Option FactRecord → Action → Type 0
Wrote now r s s' none inserted = (lookup (key r) s'.facts ≡ some r) × (s'.history ≡ s.history)
Wrote now r s s' (some p) unchanged =
    (same_business_values p r ≡ true)
    × (lookup (key r) s'.facts ≡ some (record r { first_seen_at = p.first_seen_at }))
    × (s'.history ≡ s.history)
Wrote now r s s' (some p) restated =
    (same_business_values p r ≡ false)
    × (lookup (key r) s'.facts ≡ some (record r { first_seen_at = p.first_seen_at }))
    × (s'.history ≡ s.history ++ archived now r p ∷ [])
Wrote now r s s' _ _ = ⊥

upsert_over-Wrote :
    (now : Moment) (r : FactRecord) (s : FactStore) (o : Option FactRecord)
    → let (s', a) = upsert_over now r s o in
      Wrote now r s s' o a × ((k : FactKey) → k ≢ key r → lookup k s'.facts ≡ lookup k s.facts)
unfolding upsert_over
upsert_over-Wrote now r s none =
    ((lookup-insert_self (key r) r s.facts, refl), lookup-insert_ne (key r) r s.facts)
upsert_over-Wrote now r s (some p) =
    elim (Bool-cases (same_business_values p (carry_first_seen r p))) [
      | inl e ↦ rw e (
        (
          sym (same_business_values-carry p r p) ∙ e,
          lookup-insert_self (key r) (carry_first_seen r p) s.facts,
          refl,
        ),
        lookup-insert_ne (key r) (carry_first_seen r p) s.facts,
      )
      | inr e ↦ rw e (
        (
          sym (same_business_values-carry p r p) ∙ e,
          lookup-insert_self (key r) (carry_first_seen r p) s.facts,
          refl,
        ),
        lookup-insert_ne (key r) (carry_first_seen r p) s.facts,
      )
    ]

-- A write never overwrites a fact in place. A new key is inserted; business values that are there
-- already only have their last observation moved; any other values replace the fact, whose earlier
-- form is appended to the history under the run that replaced it. In both the time of the first
-- observation stays. The action reported says which, and no other key changes.
pub upsert_lem :
    (now : Moment) (r : FactRecord) (s : FactStore)
    → let (s', a) = upsert now r s in
      Wrote now r s s' (lookup (key r) s.facts) a
      × ((k : FactKey) → k ≢ key r → lookup k s'.facts ≡ lookup k s.facts)
unfolding upsert
upsert_lem now r s = upsert_over-Wrote now r s (lookup (key r) s.facts)

-- how often an action is reported
abbrev pub tally : Action → List Action → ℕ
tally a [] = 0
tally inserted (inserted ∷ rest) = suc (tally inserted rest)
tally restated (restated ∷ rest) = suc (tally restated rest)
tally unchanged (unchanged ∷ rest) = suc (tally unchanged rest)
tally a (_ ∷ rest) = tally a rest

upsert-counts :
    (now : Moment) (r : FactRecord) (s : FactStore)
    → let (s', a) = upsert now r s in
      (length s'.facts ≡ length s.facts + tally inserted (a ∷ []))
      × (length s'.history ≡ length s.history + tally restated (a ∷ []))
      × (tally inserted (a ∷ []) + tally restated (a ∷ []) + tally unchanged (a ∷ []) ≡ 1)
unfolding upsert upsert_over
upsert-counts now r s = elim (Option-cases (lookup (key r) s.facts)) [
  | inl e ↦ rw e (
      let l = length-insert (key r) r s.facts in
      let l' = rw e at l in (l', omega arith, omega arith))
  | inr (p, e) ↦
      let c = carry_first_seen r p in
      let l = length-insert (key r) c s.facts in
      let l' = rw e at l in
      elim (Bool-cases (same_business_values p c)) [
        | inl same ↦ rw (e, same) (omega (arith, l'), omega arith, omega arith)
        | inr other ↦
            rw (e, other)
              (
                omega (arith, l'),
                omega (arith, length-append {0} s.history (archived now r p ∷ [])),
                omega arith,
              )
      ]
]

tally-cons :
    (a b : Action) (rest : List Action) → tally a (b ∷ rest) ≡ tally a (b ∷ []) + tally a rest
tally-cons inserted inserted rest = omega arith
tally-cons inserted restated rest = omega arith
tally-cons inserted unchanged rest = omega arith
tally-cons restated inserted rest = omega arith
tally-cons restated restated rest = omega arith
tally-cons restated unchanged rest = omega arith
tally-cons unchanged inserted rest = omega arith
tally-cons unchanged restated rest = omega arith
tally-cons unchanged unchanged rest = omega arith

-- After any sequence of writes the number of current facts has grown by the number of reported
-- insertions and the history by the number of reported restatements, and every record was reported
-- as exactly one of inserted, restated and unchanged.
pub upsert_many-counts :
    (records : List (Moment × FactRecord)) (s : FactStore)
    → let (s', actions) = upsert_many records s in
      (length s'.facts ≡ length s.facts + tally inserted actions)
      × (length s'.history ≡ length s.history + tally restated actions)
      × (tally inserted actions + tally restated actions + tally unchanged actions ≡ length records)
unfolding upsert_many
upsert_many-counts [] s = (omega arith, omega arith, omega arith)
upsert_many-counts ((now, r) ∷ records) s =
    let (s', a) = upsert now r s in
    let (s'', rest) = upsert_many records s' in
    let one = upsert-counts now r s in
    let more = upsert_many-counts records s' in
    (
      omega (arith, one.0, more.0, tally-cons inserted a rest),
      omega (arith, one.1, more.1, tally-cons restated a rest),
      omega (
        arith,
        one.2,
        more.2,
        tally-cons inserted a rest,
        tally-cons restated a rest,
        tally-cons unchanged a rest,
      ),
    )

-- The store after `r` has superseded `p`.
abbrev pub replaced : Moment → FactRecord → FactRecord → FactStore → FactStore
replaced now p r s = record {
  facts = insert (key r) (carry_first_seen r p) s.facts;
  history = s.history ++ archived now r p ∷ [];
}

pub upsert-restates :
    (now : Moment) (p r : FactRecord) (s : FactStore)
    → lookup (key r) s.facts ≡ some p
    → same_business_values p r ≡ false
    → upsert now r s ≡ (replaced now p r s, restated)
unfolding upsert upsert_over
upsert-restates now p r s e differs = rw (e, same_business_values-carry p r p ∙ differs)
