-- ===== src/Transform/FactStore/Ascending.antt =====
-- The sort of `list_published_slice` puts the days in order, and its slicing keeps them so.
use Prim.Native.Nat.{zero, suc}
use dfip_v.Prelude.{
  ℕ, ◌≡◌, inl, inr, sym, ap, ◌∙◌, Bool-cases, true, false, ◌==◌, List, [], ◌∷◌, string_eq, arith,
  All, All_mono, take, drop, take-All,
}
use dfip_v.Prelude.Dates.{Date, date_ltb, date_eq, date_ltb_irrefl}
use dfip_v.Prelude.Sort.{sort, insert_sorted, insert_sorted-All}
use dfip_v.Transform.Fact.{FactRecord}
use dfip_v.Transform.FactStore.{before_in_slice}

-- no fact of an earlier day after one of a later day
abbrev pub IsAscending : List FactRecord → Type 0
IsAscending [] = Unit
IsAscending (f ∷ facts) = All (λ g. date_ltb g.day f.day ≡ false) facts × IsAscending facts

date_ltb_asym : (a b : Date) → date_ltb a b ≡ true → date_ltb b a ≡ false
unfolding date_ltb
date_ltb_asym a b h = ground arith

before-days : (f g : FactRecord) → before_in_slice g f ≡ true → date_ltb f.day g.day ≡ false
unfolding before_in_slice
before-days f g h = elim (Bool-cases (g.day == f.day)) [
  | inl same ↦ ap (date_ltb f.day) ((date_eq.equal_iff g.day f.day).0 same) ∙ date_ltb_irrefl f.day
  | inr other ↦ let h' : date_ltb g.day f.day ≡ true = rw other at h in date_ltb_asym g.day f.day h'
]

not_before-days : (f g : FactRecord) → before_in_slice g f ≡ false → date_ltb g.day f.day ≡ false
unfolding before_in_slice
not_before-days f g h = elim (Bool-cases (g.day == f.day)) [
  | inl same ↦
      ap (date_ltb g.day) (sym ((date_eq.equal_iff g.day f.day).0 same)) ∙ date_ltb_irrefl g.day
  | inr other ↦ let h' : date_ltb g.day f.day ≡ false = rw other at h in h'
]

date_leb_trans : (a b c : Date) → date_ltb b a ≡ false → date_ltb c b ≡ false → date_ltb c a ≡ false
unfolding date_ltb
date_leb_trans a b c h k = ground arith

insert_sorted-IsAscending :
    (f : FactRecord) (facts : List FactRecord)
    → IsAscending facts
    → IsAscending (insert_sorted before_in_slice f facts)
unfolding insert_sorted
insert_sorted-IsAscending f [] h = (tt, tt)
insert_sorted-IsAscending f (g ∷ facts) h = elim (Bool-cases (before_in_slice g f)) [
  | inl t ↦ rw t (
    insert_sorted-All (λ x. date_ltb x.day g.day ≡ false) before_in_slice f facts
        (before-days f g t) h.0,
    insert_sorted-IsAscending f facts h.1,
  )
  | inr e ↦
      let le = not_before-days f g e in
      rw e (
        (
          le,
          All_mono (λ (x : FactRecord). date_ltb x.day g.day ≡ false)
              (λ x. date_ltb x.day f.day ≡ false) (λ x k. date_leb_trans f.day g.day x.day le k)
              facts h.0,
        ),
        h,
      )
]

pub sort-IsAscending : (facts : List FactRecord) → IsAscending (sort before_in_slice facts)
unfolding sort
sort-IsAscending [] = tt
sort-IsAscending (f ∷ facts) =
    insert_sorted-IsAscending f (sort before_in_slice facts) (sort-IsAscending facts)

pub drop-IsAscending :
    (n : ℕ) (facts : List FactRecord) → IsAscending facts → IsAscending (drop n facts)
drop-IsAscending zero facts h = h
drop-IsAscending (suc n) [] h = tt
drop-IsAscending (suc n) (f ∷ facts) h = drop-IsAscending n facts h.1

pub take-IsAscending :
    (n : ℕ) (facts : List FactRecord) → IsAscending facts → IsAscending (take n facts)
take-IsAscending zero facts h = tt
take-IsAscending (suc n) [] h = tt
take-IsAscending (suc n) (f ∷ facts) h =
    (take-All (λ g. date_ltb g.day f.day ≡ false) n facts h.0, take-IsAscending n facts h.1)
