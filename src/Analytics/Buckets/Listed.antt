-- ===== src/Analytics/Buckets/Listed.antt =====
-- The list of `iter_buckets` of packages/analytics/dfip_analytics/trends.py, for a whole window.
use dfip_v.Prelude.{
  ◌+◌, ◌-◌, ◌≤◌, ◌<◌, ◌≡◌, refl, inl, inr, true, Bool-cases, some, List, ◌∷◌, any, All, All_mono,
  arith, beq_refl, ltb,
}
use dfip_v.Prelude.Dates.{Date, date_eq, date_ltb}
use dfip_v.Prelude.Calendar.{IsDate, ordinal, previous_day}
use dfip_v.Prelude.Calendar.Shift.{ordinal-previous_day, previous_day-IsDate}
use dfip_v.Analytics.Filters.Sorted.{has, IsAscending}
use dfip_v.Analytics.Buckets.{TrendGrain, bucket_start, next_bucket, iter_buckets}
use dfip_v.Analytics.Buckets.Laws.{IsDay, all-IsBucketing}
use dfip_v.Analytics.Buckets.Walk.{Between, Walked, ordinal_lt, walk_lem}

-- a day of the window from `day_from` to before `day_to`
abbrev pub InWindow : Date → Date → Date → Type 0
InWindow day_from day_to d = IsDay d × (ordinal day_from ≤ ordinal d) × (ordinal d < ordinal day_to)

-- `buckets` are those of the days of the window, each once and in order
pub record IsListing (g : TrendGrain) (day_from day_to : Date) (buckets : List Date) : Type 0 where
  pub covers : (d : Date) → InWindow day_from day_to d → has (bucket_start d g) buckets ≡ true
  pub only : All (λ b. (d : Date) × (InWindow day_from day_to d × (bucket_start d g ≡ b))) buckets
  pub ascending : IsAscending buckets

module _ (g : TrendGrain) (day_from day_to : Date) where
  module _ (v : IsDay day_from) (ends : IsDate day_to)
      (opens : date_ltb day_from day_to ≡ true) where
    last-IsDay : IsDay (previous_day day_to) × (ordinal (previous_day day_to) + 1 ≡ ordinal day_to)
    last-IsDay =
        let lt = ordinal_lt day_from day_to v.0 ends opens in
        let pos : 1 < ordinal day_to = omega (arith, lt, v.1) in
        let o = ordinal-previous_day day_to ends pos in
        ((previous_day-IsDate day_to ends pos, omega (arith, o, lt, v.1)), o)

    -- the buckets after the first are those of their own first days
    own_day :
        (b : Date)
        → Between g (bucket_start day_from g) (previous_day day_to) b
        → (d : Date) × (InWindow day_from day_to d × (bucket_start d g ≡ b))
    own_day b (bucket, after, before) =
        let later = (all-IsBucketing g).ends_after day_from v in
        (
          b,
          (
            (
              (bucket.0, omega (arith, later, after, v.1)),
              omega (arith, later, after),
              omega (arith, before, last-IsDay.1),
            ),
            bucket.2,
          ),
        )

    covers_first :
        (out : List Date)
        → Walked g (bucket_start day_from g) (previous_day day_to) out
        → (d : Date) → InWindow day_from day_to d
        → has (bucket_start d g) (bucket_start day_from g ∷ out) ≡ true
    unfolding any
    covers_first out w d (vd, from, to) =
        let laws = all-IsBucketing g in
        let first = bucket_start day_from g in
        let after : ordinal first ≤ ordinal d = omega (arith, laws.starts_by day_from v, from) in
        elim (Bool-cases (ltb (ordinal d) (ordinal (next_bucket first g)))) [
          | inl inside ↦
              let same : bucket_start d g ≡ first =
                laws.within first d (laws.start day_from v) vd after (ground arith) in
              rw (same, beq_refl first) refl
          | inr later ↦
              rw (w.covers d vd (ground arith) (omega (arith, to, last-IsDay.1))) (ground arith)
        ]

  -- For a window that is not empty, of dates from 7 February of year 1 on, `iter_buckets` ends within
  -- its fuel and lists, in ascending order, the buckets of the days of the window: the bucket of each
  -- of these days is in the list, and each entry of the list is the bucket of one of them.
  pub iter_buckets_lem :
      IsDay day_from
      → IsDate day_to
      → date_ltb day_from day_to ≡ true
      → (out : List Date) × ((iter_buckets day_from day_to g ≡ some out)
          × IsListing g day_from day_to out)
  unfolding iter_buckets
  iter_buckets_lem v ends opens =
      let laws = all-IsBucketing g in
      let last = last-IsDay v ends opens in
      let first = bucket_start day_from g in
      let z = previous_day day_to in
      let lt = ordinal_lt day_from day_to v.0 ends opens in
      let from_first = laws.starts_by day_from v in
      let (out, (found, w)) =
        walk_lem g (ordinal (bucket_start z g) - ordinal first) first z (laws.start day_from v)
          last.0 (omega (arith, from_first, lt, last.1)) (omega arith) in
      (
        first ∷ out,
        (
          rw (opens, found) refl,
          record {
            covers = covers_first v ends opens out w;
            only = (
              (day_from, ((v, omega arith, lt), refl)),
              All_mono (Between g first z)
                  (λ b. (d : Date) × (InWindow day_from day_to d × (bucket_start d g ≡ b)))
                  (own_day v ends opens) out w.inside,
            );
            ascending = w.ascending;
          },
        ),
      )
