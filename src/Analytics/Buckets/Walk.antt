-- ===== src/Analytics/Buckets/Walk.antt =====
-- The loop inside `iter_buckets` of packages/analytics/dfip_analytics/trends.py.
use dfip_v.Prelude.{
  ℕ, zero, suc, ◌-◌, ◌≤◌, ◌<◌, ◌≡◌, refl, sym, ap, ◌∙◌, inl, inr, true, false, Bool-cases, some,
  List, [], ◌∷◌, any, All, All_mono, arith, beq_refl, ltb,
}
use mathlib.Core.Path.{subst}
use dfip_v.Prelude.Dates.{Date, date_eq, date_ltb}
use dfip_v.Prelude.Calendar.{IsDate, ordinal}
use dfip_v.Prelude.Calendar.Order.{ordinal-lt}
use dfip_v.Prelude.Calendar.Shift.{date_ltb-ordinal, ordinal-injective}
use dfip_v.Analytics.Filters.Sorted.{has, IsAscending}
use dfip_v.Analytics.Buckets.{TrendGrain, bucket_start, next_bucket, walk}
use dfip_v.Analytics.Buckets.Laws.{IsDay, IsBucket, all-IsBucketing}

pub ordinal_lt : (a b : Date) → IsDate a → IsDate b → date_ltb a b ≡ true → ordinal a < ordinal b
ordinal_lt a b va vb h = ordinal-lt a b va vb h

ordinal_le : (a b : Date) → IsDate a → IsDate b → date_ltb a b ≡ false → ordinal b ≤ ordinal a
ordinal_le a b va vb h =
    let e : ltb (ordinal a) (ordinal b) ≡ false = sym (date_ltb-ordinal a b va vb) ∙ h in
    ground arith

later-date_ltb : (a b : Date) → IsDate a → IsDate b → ordinal a < ordinal b → date_ltb a b ≡ true
later-date_ltb a b va vb lt = date_ltb-ordinal a b va vb ∙ ground arith

module _ (g : TrendGrain) where
  -- a bucket from the one after `c` on that starts in the window up to `z`
  abbrev pub Between : Date → Date → Date → Type 0
  Between c z b = IsBucket g b × (ordinal (next_bucket c g) ≤ ordinal b) × (ordinal b ≤ ordinal z)

  -- the loop from the bucket `c` on, in a window whose last day is `z`
  pub record Walked (c z : Date) (out : List Date) : Type 0 where
    pub inside : All (Between c z) out
    pub covers :
        (d : Date)
        → IsDay d
        → ordinal (next_bucket c g) ≤ ordinal d
        → ordinal d ≤ ordinal z
        → has (bucket_start d g) out ≡ true
    pub ascending : IsAscending (c ∷ out)

  last_bucket :
      (c z : Date)
      → IsBucket g c
      → IsDay z
      → ordinal c ≤ ordinal z
      → date_ltb c (bucket_start z g) ≡ false
      → Walked c z []
  last_bucket c z b v le e =
      let laws = all-IsBucketing g in
      let s = laws.start z v in
      let same : bucket_start z g ≡ c =
        ordinal-injective (bucket_start z g) c s.0 b.0
          (omega (arith, laws.not_before c z b v le, ordinal_le c (bucket_start z g) b.0 s.0 e)) in
      let after : ordinal z < ordinal (next_bucket c g) =
        subst (λ x. ordinal z < ordinal (next_bucket x g)) same (laws.ends_after z v) in
      record { inside = tt; covers = λ d vd from to. absurd (omega arith); ascending = (tt, tt) }

  next_fits :
      (c z : Date)
      → IsBucket g c
      → IsDay z
      → ordinal c ≤ ordinal z
      → date_ltb c (bucket_start z g) ≡ true
      → ordinal (next_bucket c g) ≤ ordinal z
  next_fits c z b v le e =
      let laws = all-IsBucketing g in
      let s = laws.start z v in
      let lt = ordinal_lt c (bucket_start z g) b.0 s.0 e in
      elim (Bool-cases (ltb (ordinal z) (ordinal (next_bucket c g)))) [
        | inl inside ↦
            absurd (omega (arith, lt, ap ordinal (laws.within c z b v le (ground arith))))
        | inr fits ↦ ground arith
      ]

  one_more-Walked :
      (c z : Date) (out : List Date)
      → IsBucket g c
      → IsDay z
      → ordinal (next_bucket c g) ≤ ordinal z
      → Walked (next_bucket c g) z out
      → Walked c z (next_bucket c g ∷ out)
  unfolding any
  one_more-Walked c z out b v fits w =
      let laws = all-IsBucketing g in
      let n = next_bucket c g in
      let nb = laws.next c b in
      let grows = laws.grows c b in
      let more = laws.grows n nb in
      let earlier : date_ltb c n ≡ true = later-date_ltb c n b.0 nb.0 grows in
      record {
        inside = (
          (nb, omega arith, fits),
          All_mono (Between n z) (Between c z) (λ x h. (h.0, omega (arith, h.1, more), h.2)) out
              w.inside,
        );
        covers = λ d vd from to. elim (Bool-cases (ltb (ordinal d) (ordinal (next_bucket n g)))) [
          | inl inside ↦
              let same : bucket_start d g ≡ n = laws.within n d nb vd from (ground arith) in
              rw (sym same, beq_refl (bucket_start d g)) refl
          | inr later ↦ rw (w.covers d vd (ground arith) to) (ground arith)
        ];
        ascending = (
          (
            earlier,
            All_mono (Between n z) (λ x. date_ltb c x ≡ true)
                (λ x h. later-date_ltb c x b.0 h.0.0 (omega (arith, h.1, grows, more))) out
                w.inside,
          ),
          w.ascending,
        );
      }

  pub walk_lem :
      (fuel : ℕ) (c z : Date)
      → IsBucket g c
      → IsDay z
      → ordinal c ≤ ordinal z
      → ordinal (bucket_start z g) - ordinal c ≤ fuel
      → (out : List Date) × ((walk fuel g c (bucket_start z g) ≡ some out) × Walked c z out)
  unfolding walk
  walk_lem zero c z b v le enough = elim (Bool-cases (date_ltb c (bucket_start z g))) [
    | inl e ↦ absurd (
        omega
          (arith, enough, ordinal_lt c (bucket_start z g) b.0 ((all-IsBucketing g).start z v).0 e))
    | inr e ↦ ([], (rw e refl, last_bucket c z b v le e))
  ]
  walk_lem (suc fuel) c z b v le enough = elim (Bool-cases (date_ltb c (bucket_start z g))) [
    | inr e ↦ ([], (rw e refl, last_bucket c z b v le e))
    | inl e ↦
        let laws = all-IsBucketing g in
        let n = next_bucket c g in
        let fits = next_fits c z b v le e in
        let (out, (found, w)) =
          walk_lem fuel n z (laws.next c b) v fits (omega (arith, enough, laws.grows c b)) in
        (n ∷ out, (rw (e, found) refl, one_more-Walked c z out b v fits w))
  ]
