-- ===== src/Analytics/Filters/Sorted.antt =====
-- `sorted({...})` of packages/analytics/dfip_analytics/filters.py: the published months in order.
use dfip_v.Prelude.{
  ◌≡◌, refl, ap, ◌∙◌, inl, inr, Bool, true, false, List, [], ◌∷◌, ◌==◌, ◌||◌, any, All, All_mono,
  Bool-cases, arith,
}
use mathlib.Core.Path.{subst}
use dfip_v.Prelude.Dates.{Date, date_eq, date_beq_iff, date_ltb, date_ltb_trans}
use dfip_v.Prelude.Sort.{sort, insert_sorted, insert_sorted-All, of_sort-All, any-sort}
use dfip_v.Analytics.Filters.{distinct, sorted_months}

-- each month comes strictly before all that follow it
abbrev pub IsAscending : List Date → Type 0
IsAscending [] = Unit
IsAscending (d ∷ ds) = All (λ e. date_ltb d e ≡ true) ds × IsAscending ds

abbrev pub has : Date → List Date → Bool
has d ds = any (λ e. e == d) ds

pub date_ltb_asym : (a b : Date) → date_ltb a b ≡ true → date_ltb b a ≡ false
unfolding date_ltb
date_ltb_asym a b h = ground arith

date_ltb_total : (a b : Date) → date_ltb a b ≡ false → (a == b) ≡ false → date_ltb b a ≡ true
unfolding date_ltb
date_ltb_total a b h ne = ground arith

pub all_has {κ} : (P : Date → Type κ) (d : Date) (ds : List Date) → All P ds → has d ds ≡ true → P d
unfolding any
all_has P d [] h e = absurd cc
all_has P d (x ∷ ds) h e = elim (Bool-cases (x == d)) [
  | inl same ↦ subst P ((date_beq_iff x d).0 same) h.0
  | inr other ↦ let e' : has d ds ≡ true = rw other at e in all_has P d ds h.1 e'
]

insert_sorted-IsAscending :
    (x : Date) (ys : List Date)
    → IsAscending ys
    → has x ys ≡ false
    → IsAscending (insert_sorted date_ltb x ys)
unfolding insert_sorted any
insert_sorted-IsAscending x [] h ne = (tt, tt)
insert_sorted-IsAscending x (y ∷ ys) h ne = elim (Bool-cases (date_ltb y x)) [
  | inl e ↦
      let rest : has x ys ≡ false = ground arith in
      rw e (
        insert_sorted-All (λ z. date_ltb y z ≡ true) date_ltb x ys e h.0,
        insert_sorted-IsAscending x ys h.1 rest,
      )
  | inr e ↦
      let lt : date_ltb x y ≡ true = date_ltb_total y x e (ground arith) in
      rw e (
        (
          lt,
          All_mono (λ z. date_ltb y z ≡ true) (λ z. date_ltb x z ≡ true)
              (λ z k. date_ltb_trans x y z lt k) ys h.0,
        ),
        h,
      )
]

has-distinct : (d : Date) (ds : List Date) → has d (distinct ds) ≡ has d ds
unfolding any
has-distinct d [] = refl
has-distinct d (x ∷ ds) = elim (Bool-cases (has x ds)) [
  | inr e ↦ rw e (ap (λ b. x == d || b) (has-distinct d ds))
  | inl e ↦ rw e (
      has-distinct d ds ∙ elim (Bool-cases (x == d)) [
        | inl same ↦
            let x_is : x ≡ d = (date_beq_iff x d).0 same in
            let e' : has d ds ≡ true = subst (λ y. has y ds ≡ true) x_is e in rw (same, e') refl
        | inr other ↦ rw other refl
      ])
]

sort-IsAscending : (ds : List Date) → IsAscending (sort date_ltb (distinct ds))
unfolding sort
sort-IsAscending [] = tt
sort-IsAscending (x ∷ ds) = elim (Bool-cases (has x ds)) [
  | inl e ↦ rw e (sort-IsAscending ds)
  | inr e ↦ rw e (
      insert_sorted-IsAscending x (sort date_ltb (distinct ds)) (sort-IsAscending ds)
        (any-sort (λ y. y == x) date_ltb (distinct ds) ∙ has-distinct x ds ∙ e))
]

pub sorted_months-IsAscending : (months : List Date) → IsAscending (sorted_months months)
unfolding sorted_months
sorted_months-IsAscending months = sort-IsAscending months

pub has-sorted_months :
    (d : Date) (months : List Date) → has d (sorted_months months) ≡ has d months
unfolding sorted_months
has-sorted_months d months =
    any-sort (λ y. y == d) date_ltb (distinct months) ∙ has-distinct d months

of_distinct-All {κ} : (P : Date → Type κ) (ds : List Date) → All P (distinct ds) → All P ds
of_distinct-All P [] h = tt
of_distinct-All P (x ∷ ds) h = elim (Bool-cases (has x ds)) [
  | inl e ↦
      let h' : All P (distinct ds) = rw e at h in
      let rest = of_distinct-All P ds h' in (all_has P x ds rest e, rest)
  | inr e ↦ let h' : All P (x ∷ distinct ds) = rw e at h in (h'.0, of_distinct-All P ds h'.1)
]

pub of_sorted_months-All {κ} :
    (P : Date → Type κ) (months : List Date) → All P (sorted_months months) → All P months
unfolding sorted_months
of_sorted_months-All P months h =
    of_distinct-All P months (of_sort-All P date_ltb (distinct months) h)
