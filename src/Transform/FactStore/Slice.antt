-- ===== src/Transform/FactStore/Slice.antt =====
-- The pages of `list_published_slice`.
use Prim.Native.Nat.{min}
use dfip_v.Prelude.{
  ℕ, ◌-◌, ◌+◌, ◌≡◌, ◌⊎◌, inl, inr, refl, sym, ap, ◌∙◌, Bool, Bool-cases, true, false, ◌||◌, ◌&&◌,
  ◌==◌, Option, none, some, List, ◌++◌, string_eq, option_eq, arith, eq_iff, All, All_mono, any,
  filter, filter-All, any-filter_of, length, take, drop, take-All, drop-All, length-take,
  length-drop, take-add, drop-add, take-length,
}
use mathlib.Core.Option.{some-injective}
use dfip_v.Prelude.Dates.{Date, date_ltb, date_leb, date_eq}
use dfip_v.Prelude.Dict.{lookup, values}
use dfip_v.Prelude.Members.{any-values}
use dfip_v.Prelude.Sort.{sort, sort-All, length-sort, any-sort}
use dfip_v.Transform.Fact.{FactRecord, FactKey, fact_key_eq}
use dfip_v.Transform.FactStore.{
  FactStore, SliceQuery, before_in_slice, in_slice, from_day, to_day, list_published_slice,
}
use dfip_v.Transform.FactStore.Ascending.{
  IsAscending, sort-IsAscending, drop-IsAscending, take-IsAscending,
}

-- A fact of the tenant that was asked for, of the run unless the scope is the whole tenant, and of a day
-- that is not before the start of the period, where it has one, and not after its end.
pub record IsInSlice (q : SliceQuery) (f : FactRecord) : Type 0 where
  pub tenant : f.client_id ≡ q.client_id
  pub run : (f.processing_run_id ≡ some q.processing_run_id) ⊎ (q.fact_scope ≡ "client_current")
  pub start : (day : Date) → q.period_start ≡ some day → date_ltb f.day day ≡ false
  pub end : (day : Date) → q.period_end ≡ some day → date_ltb day f.day ≡ false

from_day-bound :
    (bound : Option Date) (day d : Date)
    → from_day bound day ≡ true
    → bound ≡ some d
    → date_ltb day d ≡ false
unfolding date_leb
from_day-bound none day d h e = absurd cc
from_day-bound (some b) day d h e =
    ap (date_ltb day) (sym (some-injective _ _ e)) ∙ ground (arith, h)

to_day-bound :
    (bound : Option Date) (day d : Date)
    → to_day bound day ≡ true
    → bound ≡ some d
    → date_ltb d day ≡ false
unfolding date_leb
to_day-bound none day d h e = absurd cc
to_day-bound (some b) day d h e =
    ap (λ x. date_ltb x day) (sym (some-injective _ _ e)) ∙ ground (arith, h)

of_from_day :
    (bound : Option Date) (day : Date)
    → ((d : Date) → bound ≡ some d → date_ltb day d ≡ false)
    → from_day bound day ≡ true
unfolding date_leb
of_from_day none day h = refl
of_from_day (some b) day h = rw (h b refl) refl

of_to_day :
    (bound : Option Date) (day : Date)
    → ((d : Date) → bound ≡ some d → date_ltb d day ≡ false)
    → to_day bound day ≡ true
unfolding date_leb
of_to_day none day h = refl
of_to_day (some b) day h = rw (h b refl) refl

in_slice-IsInSlice : (q : SliceQuery) (f : FactRecord) → in_slice q f ≡ true → IsInSlice q f
unfolding in_slice
in_slice-IsInSlice q f h = record {
  tenant = ground (arith, h, eq_iff f.client_id q.client_id);
  run = elim (Bool-cases (q.fact_scope == "client_current")) [
    | inl all ↦ inr ((eq_iff q.fact_scope "client_current").0 all)
    | inr scoped ↦ inl (
        (option_eq.equal_iff f.processing_run_id (some q.processing_run_id)).0
          (ground (arith, h, scoped)))
  ];
  start = λ day e. from_day-bound q.period_start f.day day (ground (arith, h)) e;
  end = λ day e. to_day-bound q.period_end f.day day (ground (arith, h)) e;
}

of_IsInSlice : (q : SliceQuery) (f : FactRecord) → IsInSlice q f → in_slice q f ≡ true
unfolding in_slice
of_IsInSlice q f h =
    let mine : (f.client_id == q.client_id) ≡ true = (eq_iff f.client_id q.client_id).1 h.tenant in
    let first = of_from_day q.period_start f.day h.start in
    let last = of_to_day q.period_end f.day h.end in
    let run : (f.processing_run_id == some q.processing_run_id || q.fact_scope == "client_current")
        ≡ true =
      elim h.run [
        | inl same ↦
            let e = (option_eq.equal_iff f.processing_run_id (some q.processing_run_id)).1 same in
            ground (arith, e)
        | inr all ↦ let e = (eq_iff q.fact_scope "client_current").1 all in ground (arith, e)
      ] in
    ground (arith, mine, first, last, run)

-- What a page and its total are, for the stored facts.
pub record IsPage (q : SliceQuery) (limit offset : ℕ) (s : FactStore) (page : List FactRecord)
    (total : ℕ) : Type 0 where
  pub within : All (IsInSlice q) page
  pub ascending : IsAscending page
  pub exact :
      (P : FactRecord → Bool)
      → ((f : FactRecord) → (P f ≡ true → IsInSlice q f) × (IsInSlice q f → P f ≡ true))
      → total ≡ length (filter P (values s.facts))
  pub size : length page ≡ min limit (total - offset)
  pub next :
      (more : ℕ)
      → page ++ (list_published_slice q more (offset + limit) s).0
        ≡ (list_published_slice q (limit + more) offset s).0
  pub whole :
      (P : FactRecord → Bool) (k : FactKey) (f : FactRecord)
      → lookup k s.facts ≡ some f
      → IsInSlice q f
      → P f ≡ true
      → any P (list_published_slice q total 0 s).0 ≡ true

same_test :
    (q : SliceQuery) (P : FactRecord → Bool)
    → ((f : FactRecord) → (P f ≡ true → IsInSlice q f) × (IsInSlice q f → P f ≡ true))
    → (f : FactRecord) → in_slice q f ≡ P f
same_test q P decides f = elim (Bool-cases (in_slice q f)) [
  | inl t ↦ t ∙ sym ((decides f).1 (in_slice-IsInSlice q f t))
  | inr e ↦ elim (Bool-cases (P f)) [
    | inl t ↦ let back = of_IsInSlice q f ((decides f).0 t) in absurd (ground (arith, e, back))
    | inr e' ↦ e ∙ sym e'
  ]
]

-- A page of a slice holds facts of the slice only, so of one tenant, of one run unless the scope is the
-- whole tenant, and of the period; earlier days come first; its size is what fits after the offset; the
-- total is the number of stored facts in the slice; the next page continues where the page ends; and
-- a page of the total size holds every stored fact of the slice.
pub list_published_slice_lem :
    (q : SliceQuery) (limit offset : ℕ) (s : FactStore)
    → let (page, total) = list_published_slice q limit offset s in
      IsPage q limit offset s page total
unfolding list_published_slice
list_published_slice_lem q limit offset s =
    let kept = filter (in_slice q) (values s.facts) in
    let records = sort before_in_slice kept in
    let rest = drop offset records in
    record {
      within = take-All (IsInSlice q) limit rest (
          drop-All (IsInSlice q) offset records (
            sort-All (IsInSlice q) before_in_slice kept (
              All_mono (λ f. in_slice q f ≡ true) (IsInSlice q) (in_slice-IsInSlice q) kept
                (filter-All (in_slice q) (values s.facts)))));
      ascending =
          take-IsAscending limit rest (drop-IsAscending offset records (sort-IsAscending kept));
      exact = λ P decides.
          length-sort before_in_slice kept
          ∙ (λ i. length (filter (λ f. same_test q P decides f i) (values s.facts)));
      size = length-take limit rest ∙ ap (min limit) (length-drop offset records);
      next = λ more.
          ap (λ l. take limit rest ++ take more l) (drop-add offset limit records)
          ∙ take-add limit more rest;
      whole = λ P k f l h t.
          let test = λ (g : FactRecord). in_slice q g && P g in
          let both : test f ≡ true = ground (arith, of_IsInSlice q f h, t) in
          let found =
            any-filter_of (in_slice q) P (values s.facts) (any-values test s.facts k f l both) in
          ap (any P) (take-length records) ∙ any-sort P before_in_slice kept ∙ found;
    }
