-- ===== src/Api/PublicationStore/Copy.antt =====
-- Copying a snapshot in chunks copies it whole.
use dfip_v.Prelude.{
  ◌≡◌, refl, sym, ap, some, ◌∙◌, ℕ, zero, suc, ◌+◌, ◌*◌, ◌/◌, ◌≤◌, String, Bool-cases, inl, inr,
  List, [], ◌∷◌, ◌++◌, ◌==◌, ◌⊎◌, ◌≢◌, true, false, All, All_mono, All_both, any, length, take,
  drop, length-drop, nat_eq, string_eq, beq_refl, if◌then◌else◌, arith,
}
use dfip_v.Prelude.Dates.{Moment}
use dfip_v.Prelude.Dict.{lookup, lookup-insert_self, lookup-insert_ne}
use dfip_v.Prelude.Result.{ok, err}
use dfip_v.Transform.Fact.{FactKey, FactRecord, key, fact_key_eq}
use dfip_v.Api.PublicationStore.{
  PublicationStore, PublicationRecord, record_of, duplicate_grains, Request, unique_rows,
  copy_chunks, chunk_count, stored, create,
}

take-drop : (n : ℕ) (xs : List FactRecord) → take n xs ++ drop n xs ≡ xs
take-drop zero xs = refl
take-drop (suc n) [] = refl
take-drop (suc n) (x ∷ xs) = ap (λ l. x ∷ l) (take-drop n xs)

copy_chunks-whole :
    (n : ℕ) (rows : List FactRecord) → length rows ≤ n * 500 → copy_chunks n rows ≡ rows
unfolding copy_chunks
copy_chunks-whole zero [] h = refl
copy_chunks-whole zero (x ∷ rows) h = absurd (omega (arith, h))
copy_chunks-whole (suc n) rows h =
    ap (λ r. take 500 rows ++ r)
      (copy_chunks-whole n (drop 500 rows) (omega (arith, h, length-drop {0} 500 rows)))
    ∙ take-drop 500 rows

enough : (n : ℕ) → n ≤ (n + 499) / 500 * 500
enough n = omega arith

copied : (rows : List FactRecord) → copy_chunks (chunk_count rows) rows ≡ rows
copied rows = copy_chunks-whole (chunk_count rows) rows (enough (length rows))

-- No two facts of the list have the same grain.
abbrev pub DistinctGrains : List FactRecord → Type 0
DistinctGrains [] = Unit
DistinctGrains (f ∷ facts) = All (λ g. key g ≢ key f) facts × DistinctGrains facts

of_unique_rows :
    (seen : List FactKey) (facts : List FactRecord)
    → unique_rows seen facts ≡ true
    → DistinctGrains facts × All (λ f. any (λ k. k == key f) seen ≡ false) facts
unfolding unique_rows any
of_unique_rows seen [] h = (tt, tt)
of_unique_rows seen (f ∷ facts) h = elim (Bool-cases (any (λ k. k == key f) seen)) [
  | inl e ↦ let h' = rw e at h in absurd cc
  | inr e ↦
      let h' : unique_rows (key f ∷ seen) facts ≡ true = rw e at h in
      let (distinct, fresh) = of_unique_rows (key f ∷ seen) facts h' in
      let Fresh = λ (g : FactRecord). any (λ k. k == key g) (key f ∷ seen) ≡ false in
      (
        (
          All_mono Fresh (λ g. key g ≢ key f)
              (λ g n same.
                absurd (
                  ground (arith, n, same, beq_refl (key f), fact_key_eq.equal_iff (key f) (key g))))
              facts fresh,
          distinct,
        ),
        (
          e,
          All_mono Fresh (λ g. any (λ k. k == key g) seen ≡ false) (λ g n. ground arith) facts
              fresh,
        ),
      )
]

to_unique_rows :
    (seen : List FactKey) (facts : List FactRecord)
    → DistinctGrains facts
    → All (λ f. any (λ k. k == key f) seen ≡ false) facts
    → unique_rows seen facts ≡ true
unfolding unique_rows any
to_unique_rows seen [] d n = refl
to_unique_rows seen (f ∷ facts) d n = rw n.0 (
    to_unique_rows (key f ∷ seen) facts d.1 (
      All_both (λ g. key g ≢ key f) (λ g. any (λ k. k == key g) seen ≡ false)
        (λ g. any (λ k. k == key g) (key f ∷ seen) ≡ false)
        (λ g ne new. ground (arith, new, ne, fact_key_eq.equal_iff (key f) (key g))) facts d.0 n.1))

nothing_seen : (facts : List FactRecord) → All (λ f. any (λ k. k == key f) [] ≡ false) facts
unfolding any
nothing_seen [] = tt
nothing_seen (f ∷ facts) = (refl, nothing_seen facts)

-- `create` by the test of its code, with the snapshot that it copies
pub create_branches :
    (r : Request) (id : String) (now : Moment) (s : PublicationStore)
    → create r id now s ≡ (
        if unique_rows [] r.snapshot_facts
        then ok (stored r id now r.snapshot_facts s)
        else err duplicate_grains)
unfolding create
create_branches r id now s = elim (Bool-cases (unique_rows [] r.snapshot_facts)) [
  | inl e ↦ rw (e, copied r.snapshot_facts, beq_refl (length r.snapshot_facts)) refl
  | inr e ↦ rw e refl
]

-- The snapshot under the id is whole and in order, its row says so, and those of others are as they were.
pub record Holds (id : String) (facts : List FactRecord) (before after : PublicationStore)
    : Type 0 where
  pub snapshot : lookup id after.snapshots ≡ some facts
  pub row :
      (p : PublicationRecord) × (lookup id after.publications ≡ some p)
      × (p.snapshot_status ≡ "complete")
      × (p.snapshot_row_count ≡ some (length facts))
  pub other_snapshots : (k : String) → k ≢ id → lookup k after.snapshots ≡ lookup k before.snapshots
  pub other_rows :
      (k : String) → k ≢ id → lookup k after.publications ≡ lookup k before.publications

stored-Holds :
    (r : Request) (id : String) (now : Moment) (facts : List FactRecord) (s : PublicationStore)
    → length facts ≡ length r.snapshot_facts
    → Holds id facts s (stored r id now facts s)
stored-Holds r id now facts s same = record {
  snapshot = lookup-insert_self id facts s.snapshots;
  row = (
    record_of r id now,
    lookup-insert_self id (record_of r id now) s.publications,
    refl,
    ap some (sym same),
  );
  other_snapshots = λ k ne. lookup-insert_ne id facts s.snapshots k ne;
  other_rows = λ k ne. lookup-insert_ne id (record_of r id now) s.publications k ne;
}

-- A publication is created exactly if no two of its facts share a grain. Then its snapshot holds all of
-- them in their order, its row calls it complete and counts them, and other publications stay, so the
-- error of an incomplete snapshot is never raised; otherwise the error of duplicate grains is raised.
pub create_lem :
    (r : Request) (id : String) (now : Moment) (s : PublicationStore)
    → (DistinctGrains r.snapshot_facts
        × (s' : PublicationStore) × (create r id now s ≡ ok s')
        × Holds id r.snapshot_facts s s')
      ⊎ ((¬ DistinctGrains r.snapshot_facts) × (create r id now s ≡ err duplicate_grains))
create_lem r id now s = elim (Bool-cases (unique_rows [] r.snapshot_facts)) [
  | inl e ↦ inl (
    (of_unique_rows [] r.snapshot_facts e).0,
    stored r id now r.snapshot_facts s,
    create_branches r id now s ∙ rw e refl,
    stored-Holds r id now r.snapshot_facts s refl,
  )
  | inr e ↦ inr (
    λ d.
        absurd
          (ground (arith, e, to_unique_rows [] r.snapshot_facts d (nothing_seen r.snapshot_facts))),
    create_branches r id now s ∙ rw e refl,
  )
]
