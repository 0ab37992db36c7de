-- ===== src/Api/PublicationStore/History.antt =====
-- What a new publication does to the published history of its client.
use dfip_v.Prelude.{
  ◌≡◌, ◌≢◌, refl, sym, ap, ◌∙◌, String, Bool, Bool-cases, Option-cases, inl, inr, not, Option, none,
  some, List, [], ◌∷◌, ◌++◌, ◌==◌, ◌&&◌, string_eq, All, filter, find?, or_else, beq_ne,
  if◌then◌else◌, arith, append-All, filter-All_of,
}
use mathlib.Core.Path.{subst}
use dfip_v.Prelude.Dates.{Moment}
use dfip_v.Prelude.Dict.{
  Dict, lookup, insert, values, contains, lookup-insert, lookup-insert_self, lookup-insert_ne,
}
use dfip_v.Prelude.Result.{ok, ok-injective}
use dfip_v.Api.PublicationStore.Copy.{create_branches}
use dfip_v.Transform.Fact.{FactKey, FactRecord, key, fact_key_eq}
use dfip_v.Api.PublicationStore.{
  PublicationRecord, PublicationStore, Request, record_of, pointer_of, stored, create, get_current,
  unique_rows, snapshot_of, reversed, note_facts, merge_snapshots, is_complete_of, merged_history,
}

-- the first fact of the client under the key
abbrev pub fact_under : String → FactKey → List FactRecord → Option FactRecord
fact_under client_id k facts = find? (λ f. f.client_id == client_id && key f == k) facts

lookup-note_fact :
    (c : String) (k : FactKey) (f : FactRecord) (merged : Dict FactKey FactRecord)
    → lookup k (
        if not (f.client_id == c)
        then merged
        else if contains (key f) merged
        then merged
        else insert (key f) f merged)
      ≡ or_else (lookup k merged) (if f.client_id == c && key f == k then some f else none)
lookup-note_fact c k f merged = elim (Bool-cases (f.client_id == c)) [
  | inr e ↦ rw e (ground arith)
  | inl e ↦ elim (Option-cases (lookup (key f) merged)) [
    | inr (g, l) ↦ rw (e, l) (ground (arith, fact_key_eq.equal_iff (key f) k, l))
    | inl l ↦
        rw (e, l, lookup-insert (key f) k f merged)
          (ground (arith, fact_key_eq.equal_iff (key f) k, l))
  ]
]

or_else_assoc : (a b c : Option FactRecord) → or_else (or_else a b) c ≡ or_else a (or_else b c)
or_else_assoc none b c = refl
or_else_assoc (some x) b c = refl

find-cons :
    (p : FactRecord → Bool) (f : FactRecord) (facts : List FactRecord)
    → find? p (f ∷ facts) ≡ or_else (if p f then some f else none) (find? p facts)
unfolding find?
find-cons p f facts = ground arith

lookup-note_facts :
    (c : String) (k : FactKey) (facts : List FactRecord) (merged : Dict FactKey FactRecord)
    → lookup k (note_facts c facts merged) ≡ or_else (lookup k merged) (fact_under c k facts)
unfolding note_facts find?
lookup-note_facts c k [] merged = elim (Option-cases (lookup k merged)) [
  | inl e ↦ rw e refl
  | inr (f, e) ↦ rw e refl
]
lookup-note_facts c k (f ∷ facts) merged =
    let one = if f.client_id == c && key f == k then some f else none in
    lookup-note_facts c k facts _
    ∙ ap (λ o. or_else o (fact_under c k facts)) (lookup-note_fact c k f merged)
    ∙ or_else_assoc (lookup k merged) one (fact_under c k facts)
    ∙ ap (or_else (lookup k merged)) (sym (find-cons (λ g. g.client_id == c && key g == k) f facts))

-- the fact of the first publication that has one
abbrev scan : String → FactKey → List PublicationRecord → PublicationStore → Option FactRecord
scan c k [] s = none
scan c k (p ∷ ps) s = or_else (fact_under c k (snapshot_of p.id s)) (scan c k ps s)

or_else-none : (a : Option FactRecord) → or_else a none ≡ a
or_else-none none = refl
or_else-none (some x) = refl

lookup-merge_snapshots :
    (c : String) (k : FactKey) (ps : List PublicationRecord) (s : PublicationStore)
    (merged : Dict FactKey FactRecord)
    → lookup k (merge_snapshots c ps s merged) ≡ or_else (lookup k merged) (scan c k ps s)
unfolding merge_snapshots
lookup-merge_snapshots c k [] s merged = sym (or_else-none (lookup k merged))
lookup-merge_snapshots c k (p ∷ ps) s merged =
    lookup-merge_snapshots c k ps s (note_facts c (snapshot_of p.id s) merged)
    ∙ ap (λ o. or_else o (scan c k ps s)) (lookup-note_facts c k (snapshot_of p.id s) merged)
    ∙ or_else_assoc (lookup k merged) (fact_under c k (snapshot_of p.id s)) (scan c k ps s)

-- the id is new: no publication is stored under it or carries it
abbrev pub FreshId : String → Dict String PublicationRecord → Type 0
FreshId id [] = Unit
FreshId id ((k, p) ∷ d) = (k ≢ id) × (p.id ≢ id) × FreshId id d

reversed-insert :
    (id : String) (x : PublicationRecord) (d : Dict String PublicationRecord)
    → FreshId id d
    → reversed (values (insert id x d)) ≡ x ∷ reversed (values d)
unfolding reversed values insert
reversed-insert id x [] h = refl
reversed-insert id x ((k, p) ∷ d) h =
    rw (beq_ne string_eq k id h.0) (ap (λ l. l ++ p ∷ []) (reversed-insert id x d h.2))

reversed-All :
    (P : PublicationRecord → Type 0) (xs : List PublicationRecord) → All P xs → All P (reversed xs)
unfolding reversed
reversed-All P [] h = tt
reversed-All P (x ∷ xs) h = append-All P (reversed xs) (x ∷ []) (reversed-All P xs h.1) (h.0, tt)

FreshId-All :
    (id : String) (d : Dict String PublicationRecord)
    → FreshId id d
    → All (λ p. p.id ≢ id) (values d)
unfolding values
FreshId-All id [] h = tt
FreshId-All id ((k, p) ∷ d) h = (h.1, FreshId-All id d h.2)

-- Snapshots of other publications are found as before.
scan-stored :
    (c : String) (k : FactKey) (r : Request) (id : String) (now : Moment) (facts : List FactRecord)
    (s : PublicationStore) (ps : List PublicationRecord)
    → All (λ p. p.id ≢ id) ps
    → scan c k ps (stored r id now facts s) ≡ scan c k ps s
scan-stored c k r id now facts s [] h = refl
scan-stored c k r id now facts s (p ∷ ps) h =
    rw (lookup-insert_ne id facts s.snapshots p.id h.0)
      (ap (or_else (fact_under c k (snapshot_of p.id s))) (scan-stored c k r id now facts s ps h.1))

lookup-merged_history :
    (c : String) (k : FactKey) (s : PublicationStore)
    → lookup k (merged_history c s)
      ≡ scan c k (filter (is_complete_of c) (reversed (values s.publications))) s
unfolding merged_history lookup
lookup-merged_history c k s =
    lookup-merge_snapshots c k (filter (is_complete_of c) (reversed (values s.publications))) s []

-- Newest wins by grain: after a publication, a client's history holds under every key the published
-- fact of the key that is the client's own, if the publication is the client's and has one, and
-- otherwise what it held before; nothing else is lost. Asked of the id: it is new.
pub merged_history-stored :
    (r : Request) (id : String) (now : Moment) (s : PublicationStore) (c : String) (k : FactKey)
    → FreshId id s.publications
    → lookup k (merged_history c (stored r id now r.snapshot_facts s))
      ≡ or_else
          (if r.client_id == c then fact_under c k r.snapshot_facts else none)
          (lookup k (merged_history c s))
unfolding filter
merged_history-stored r id now s c k h =
    let s' = stored r id now r.snapshot_facts s in
    let x = record_of r id now in
    let before = reversed (values s.publications) in
    let ps = filter (is_complete_of c) before in
    let others : scan c k ps s' ≡ scan c k ps s = scan-stored c k r id now r.snapshot_facts s ps (
      filter-All_of (λ p. p.id ≢ id) (is_complete_of c) before
        (reversed-All (λ p. p.id ≢ id) (values s.publications)
          (FreshId-All id s.publications h))) in
    lookup-merged_history c k s'
    ∙ ap (λ l. scan c k (filter (is_complete_of c) l) s') (reversed-insert id x s.publications h)
    ∙ elim (Bool-cases (r.client_id == c)) [
      | inl e ↦
          rw (e, lookup-insert_self id r.snapshot_facts s.snapshots)
            (ap (or_else (fact_under c k r.snapshot_facts))
              (others ∙ sym (lookup-merged_history c k s)))
      | inr e ↦ rw e (others ∙ sym (lookup-merged_history c k s))
    ]

-- What a created publication has done.
pub record Published (r : Request) (id : String) (now : Moment) (s s' : PublicationStore)
    : Type 0 where
  -- the client's pointer and the snapshot are those of this publication
  pub current : get_current r.client_id s' ≡ (some (record_of r id now), some (pointer_of r id now))
  pub snapshot : lookup id s'.snapshots ≡ some r.snapshot_facts
  -- other clients' pointers are as they were
  pub others : (c : String) → c ≢ r.client_id → lookup c s'.current ≡ lookup c s.current
  -- the history of every client: newest wins under each key
  pub history :
      (c : String) (k : FactKey)
      → lookup k (merged_history c s')
        ≡ or_else
            (if r.client_id == c then fact_under c k r.snapshot_facts else none)
            (lookup k (merged_history c s))

-- A created publication becomes its client's current one with all its facts, moves no other client's
-- pointer, and joins the history by newest wins: under every key the client's history holds the
-- published fact of the client, if there is one, and otherwise what it held before. Asked of the id: it
-- is new.
pub create-Published :
    (r : Request) (id : String) (now : Moment) (s s' : PublicationStore)
    → FreshId id s.publications
    → create r id now s ≡ ok s'
    → Published r id now s s'
unfolding get_current
create-Published r id now s s' fresh h = elim (Bool-cases (unique_rows [] r.snapshot_facts)) [
  | inr e ↦ let h' = rw e at (sym (create_branches r id now s) ∙ h) in absurd cc
  | inl e ↦
      let h' : ok (stored r id now r.snapshot_facts s) ≡ ok s' =
        rw e at (sym (create_branches r id now s) ∙ h) in
      subst (Published r id now s) (ok-injective _ _ h') (record {
        current =
            rw
              (
                lookup-insert_self r.client_id (pointer_of r id now) s.current,
                lookup-insert_self id (record_of r id now) s.publications,
              )
              refl;
        snapshot = lookup-insert_self id r.snapshot_facts s.snapshots;
        others = λ c ne. lookup-insert_ne r.client_id (pointer_of r id now) s.current c ne;
        history = λ c k. merged_history-stored r id now s c k fresh;
      })
]
