-- ===== src/Analytics/Filters/Months.antt =====
-- The month before a selected one, of packages/analytics/dfip_analytics/filters.py.
use dfip_v.Prelude.{
  ℕ, zero, suc, ◌≡◌, refl, sym, ◌∙◌, ◌⊎◌, inl, inr, true, false, Option, none, some, List, [], ◌∷◌,
  ◌==◌, any, All, All_mono, Bool-cases, Option-cases, arith, beq_refl, ◌≤◌,
}
use mathlib.Core.Path.{subst}
use mathlib.Core.Option
use mathlib.Core.Option.{some-injective}
use dfip_v.Prelude.Dates.{Date, date_eq, date_beq_iff, date_ltb, date_ltb_irrefl}
use dfip_v.Prelude.Result.{ok}
use dfip_v.Prelude.Text.{strip, lower}
use dfip_v.Analytics.Filters.{sorted_months, PeriodWindow, month}
use dfip_v.Analytics.Filters.Comparison.{
  index_of, get_elem?, entry_before, prior_month, CompareRequest, resolve_comparison, compare_prior,
}
use dfip_v.Analytics.Filters.Sorted.{
  IsAscending, all_has, date_ltb_asym, has, has-sorted_months, of_sorted_months-All,
  sorted_months-IsAscending,
}

-- The latest of the months that come before `s`, or nothing where there is none.
abbrev pub IsPrior : Date → List Date → Option Date → Type 0
IsPrior s months none = All (λ d. date_ltb d s ≡ false) months
IsPrior s months (some p) =
    (has p months ≡ true)
    × (date_ltb p s ≡ true)
    × All (λ d. (date_ltb d s ≡ false) ⊎ (date_ltb p d ≡ false)) months

index_found : (s : Date) (ds : List Date) → has s ds ≡ true → (i : ℕ) × (index_of s ds ≡ some i)
unfolding any index_of
index_found s [] h = absurd cc
index_found s (x ∷ ds) h = elim (Bool-cases (x == s)) [
  | inl same ↦ (0, rw same refl)
  | inr other ↦
      let h' : has s ds ≡ true = rw other at h in
      let (i, e) = index_found s ds h' in (suc i, rw (other, e) refl)
]

index_prefix :
    (s : Date) (ds : List Date) (i j : ℕ)
    → index_of s ds ≡ some i
    → j ≤ i
    → (d : Date) × (get_elem? ds j ≡ some d)
unfolding index_of get_elem?
index_prefix s [] i j h le = absurd cc
index_prefix s (x ∷ ds) i zero h le = (x, refl)
index_prefix s (x ∷ ds) i (suc j) h le = elim (Bool-cases (x == s)) [
  | inl same ↦ let h' = rw same at h in absurd (ground arith)
  | inr other ↦
      let h' : Option.map suc (index_of s ds) ≡ some i = rw other at h in
      elim (Option-cases (index_of s ds)) [
        | inl n ↦ let h'' = rw n at h' in absurd cc
        | inr (k, e) ↦
            let h'' : some (suc k) ≡ some i = rw e at h' in
            let below : j ≤ k = omega (arith, some-injective _ _ h'') in
            index_prefix s ds k j e below
      ]
]

cons-IsPrior :
    (s x p : Date) (ds : List Date)
    → All (λ d. date_ltb x d ≡ true) ds
    → IsPrior s ds (some p)
    → IsPrior s (x ∷ ds) (some p)
unfolding any
cons-IsPrior s x p ds below (found, lt, top) =
    let under = all_has (λ d. date_ltb x d ≡ true) p ds below found in
    (rw found (ground arith), lt, (inr (date_ltb_asym x p under), top))

first-IsPrior :
    (s x : Date) (ds : List Date)
    → date_ltb x s ≡ true
    → IsPrior s ds none
    → IsPrior s (x ∷ ds) (some x)
unfolding any
first-IsPrior s x ds lt later = (
  rw (beq_refl x) refl,
  lt,
  (
    inr (date_ltb_irrefl x),
    All_mono (λ d. date_ltb d s ≡ false) (λ d. (date_ltb d s ≡ false) ⊎ (date_ltb x d ≡ false))
        (λ d h. inl h) ds later,
  ),
)

next_entry :
    (s x : Date) (ds : List Date) (i : ℕ)
    → index_of s ds ≡ some i
    → date_ltb x s ≡ true
    → All (λ d. date_ltb x d ≡ true) ds
    → IsPrior s ds (entry_before ds (some i))
    → IsPrior s (x ∷ ds) (get_elem? (x ∷ ds) i)
unfolding get_elem?
next_entry s x ds zero found lt below ih = first-IsPrior s x ds lt ih
next_entry s x ds (suc j) found lt below ih =
    let (p, e) = index_prefix s ds (suc j) j found (omega arith) in
    rw e (let ih' : IsPrior s ds (some p) = rw e at ih in cons-IsPrior s x p ds below ih')

entry_before-IsPrior :
    (s : Date) (ds : List Date)
    → IsAscending ds
    → has s ds ≡ true
    → IsPrior s ds (entry_before ds (index_of s ds))
unfolding any index_of
entry_before-IsPrior s [] asc h = absurd cc
entry_before-IsPrior s (x ∷ ds) asc h = elim (Bool-cases (x == s)) [
  | inl same ↦
      let x_is : x ≡ s = (date_beq_iff x s).0 same in
      rw same (
        rw x_is (date_ltb_irrefl s),
        All_mono (λ d. date_ltb x d ≡ true) (λ d. date_ltb d s ≡ false)
            (λ d k. subst (λ y. date_ltb d y ≡ false) x_is (date_ltb_asym x d k)) ds asc.0,
      )
  | inr other ↦
      let h' : has s ds ≡ true = rw other at h in
      let x_before : date_ltb x s ≡ true = all_has (λ d. date_ltb x d ≡ true) s ds asc.0 h' in
      let (i, e) = index_found s ds h' in
      let ih : IsPrior s ds (entry_before ds (some i)) =
        rw e at (entry_before-IsPrior s ds asc.1 h') in
      rw (other, e) (next_entry s x ds i e x_before asc.0 ih)
]

transfer-IsPrior :
    (s : Date) (months : List Date) (o : Option Date)
    → IsPrior s (sorted_months months) o
    → IsPrior s months o
transfer-IsPrior s months none h = of_sorted_months-All (λ d. date_ltb d s ≡ false) months h
transfer-IsPrior s months (some p) (found, lt, top) = (
  sym (has-sorted_months p months) ∙ found,
  lt,
  of_sorted_months-All (λ d. (date_ltb d s ≡ false) ⊎ (date_ltb p d ≡ false)) months top,
)

pub prior_month-IsPrior :
    (months : List Date) (s : Date) → has s months ≡ true → IsPrior s months (prior_month months s)
unfolding prior_month
prior_month-IsPrior months s h =
    let h' : has s (sorted_months months) ≡ true = has-sorted_months s months ∙ h in
    rw h' (
      transfer-IsPrior s months
        (entry_before (sorted_months months) (index_of s (sorted_months months)))
        (entry_before-IsPrior s (sorted_months months) (sorted_months-IsAscending months) h'))

-- no part of the comparison is asked for
abbrev pub default_comparison : CompareRequest
default_comparison = record {
  compare = none;
  compare_month_start = none;
  compare_from = none;
  compare_to = none;
}

-- By default a published month is compared with the latest month published before it, whatever months
-- between them were never published; and where no earlier month is published, there is no comparison
-- and the reason says so.
pub resolve_comparison-IsPrior :
    (months : List Date) (current : PeriodWindow) (lo hi : Option Date) (s : Date)
    → current.grain ≡ month
    → current.first_of_month ≡ some s
    → has s months ≡ true
    → (prior : Option Date) × IsPrior s months prior
      × (resolve_comparison months current lo hi default_comparison ≡ ok (compare_prior prior))
unfolding resolve_comparison
resolve_comparison-IsPrior months current lo hi s g m h = (
  prior_month months s,
  prior_month-IsPrior months s h,
  unfold strip in unfold lower in rw (g, m) refl,
)
