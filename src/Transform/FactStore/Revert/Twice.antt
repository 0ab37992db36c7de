-- ===== src/Transform/FactStore/Revert/Twice.antt =====
-- A run that writes one grain key twice, as a second transformation under one run id does.
use dfip_v.Prelude.{
  ◌≡◌, ap, ◌∙◌, inl, inr, false, Bool-cases, none, some, [], ◌∷◌, ◌++◌, ◌≤◌, String, string_eq,
  option_eq, arith, eq_iff,
}
use dfip_v.Prelude.Dates.{Moment}
use dfip_v.Prelude.Dict.{lookup, keep_if, lookup-insert_self}
use dfip_v.Transform.Fact.{
  FactRecord, key, fact_key_eq, fact_key_beq_iff, same_business_values, carry_first_seen,
  same_business_values-run, carry-same_business_values,
}
use dfip_v.Transform.FactStore.{FactStore, upsert, upsert_many, revert_run}
use dfip_v.Transform.FactStore.Upsert.{
  IsValid, archived, upsert_many-IsValid, upsert-restates, replaced,
}
use dfip_v.Transform.FactStore.Revert.Closed.{latest_at, not_of_run, reverted_at, lookup-revert_run}
use dfip_v.Transform.FactStore.Revert.RoundTrip.{IsUntouched, latest_at-append, owned}

-- The store after two restatements of `p`, by `r` and then by `r'`.
abbrev twice : Moment → Moment → FactRecord → FactRecord → FactRecord → FactStore → FactStore
twice t t' p r r' s = replaced t' (carry_first_seen r p) r' (replaced t p r s)

module _ (run_id : String) (t t' : Moment) (p r r' : FactRecord) (s : FactStore) (valid : IsValid s)
    (stored : lookup (key r) s.facts ≡ some p) (same_key : key r' ≡ key r) where
  upsert_many-twice :
      same_business_values p r ≡ false
      → same_business_values r r' ≡ false
      → (upsert_many ((t, r) ∷ (t', r') ∷ []) s).0 ≡ twice t t' p r r' s
  unfolding upsert_many
  upsert_many-twice d d' =
      ap (λ x. (upsert t' r' x.0).0) (upsert-restates t p r s stored d)
      ∙ ap (λ x. x.0)
          (upsert-restates t' (carry_first_seen r p) r' (replaced t p r s)
            (rw same_key (lookup-insert_self (key r) (carry_first_seen r p) s.facts))
            (carry-same_business_values r p r' ∙ d'))

  latest_at-twice :
      r.processing_run_id ≡ some run_id
      → r'.processing_run_id ≡ some run_id
      → t ≤ t'
      → latest_at (some run_id) (key r) s.history none ≡ none
      → latest_at (some run_id) (key r) (twice t t' p r r' s).history none
        ≡ some (archived t' r' (carry_first_seen r p))
  unfolding latest_at
  latest_at-twice o o' order h = ground (
    arith,
    o,
    o',
    order,
    h,
    valid.keyed (key r) p stored,
    eq_iff run_id run_id,
    fact_key_beq_iff (key p) (key r),
    fact_key_beq_iff (key r) (key r),
    latest_at-append (some run_id) (key r) s.history (archived t r p ∷ []) none,
    latest_at-append (some run_id) (key r) (s.history ++ archived t r p ∷ [])
        (archived t' r' (carry_first_seen r p) ∷ []) none,
  )

-- In a store with one fact to a key, a run that had written nothing under a key and then restates the
-- fact there twice, with different business values, cannot be taken back: the latest archived row
-- is the run's own first version, which is put back and then dropped with the run, so the fact that
-- stood there before is gone.
pub revert_run_loses :
    (run_id : String) (t t' : Moment) (p r r' : FactRecord) (s : FactStore)
    → IsValid s
    → IsUntouched run_id s (key r)
    → lookup (key r) s.facts ≡ some p
    → r.processing_run_id ≡ some run_id
    → r'.processing_run_id ≡ some run_id
    → key r' ≡ key r
    → t ≤ t'
    → same_business_values r r' ≡ false
    → lookup (key r) (revert_run run_id (upsert_many ((t, r) ∷ (t', r') ∷ []) s).0).facts ≡ none
unfolding reverted_at
revert_run_loses run_id t t' p r r' s valid h e o o' same_key order differs =
    lookup-revert_run run_id (upsert_many ((t, r) ∷ (t', r') ∷ []) s).0 (key r)
      (upsert_many-IsValid ((t, r) ∷ (t', r') ∷ []) s valid)
    ∙ rw (upsert_many-twice run_id t t' p r r' s valid e same_key first differs)
        (rw (latest_at-twice run_id t t' p r r' s valid e same_key o o' order h.no_archive) dropped)
  where
    first : same_business_values p r ≡ false
    first = elim (Bool-cases (same_business_values p r)) [
      | inl same ↦ absurd (owned run_id t r s o p e h (same_business_values-run p r same))
      | inr d ↦ d
    ]

    dropped : keep_if (not_of_run run_id) (some (carry_first_seen r p)) ≡ none
    dropped = ground (arith, o, eq_iff run_id run_id)
