-- ===== src/Config/Resolve/FirstMatch.antt =====
-- The indexes against a scan of the rows.
use dfip_v.Config.Catalog.{CatalogRow}
use dfip_v.Config.Resolve.{
  cell, match_key, index_under, index_rows, first_match_index, resolve_filter_logic_1_group,
  group_rows, group_or,
}
use dfip_v.Prelude.{
  ℕ, ◌≤◌, ◌≡◌, refl, ◌∙◌, inl, inr, ◌⊎◌, Bool, true, false, Bool-cases, Option-cases, Option, none,
  some, List, [], ◌∷◌, String, ◌==◌, string_eq, option_eq, option_beq_iff, arith, eq_iff, All,
  find?, if◌then◌else◌, or_else,
}
use dfip_v.Prelude.Dict.{Dict, lookup, insert, contains, lookup-insert}
use dfip_v.Prelude.Sort.{sort, insert_sorted, by_rank, IsSorted, sort-IsSorted, of_sort-All}

abbrev pub has_key : String → String → CatalogRow → Bool
has_key key_field key row = match_key (cell row key_field) == some key

lookup-index_under :
    (row : CatalogRow) (index : Dict String CatalogRow) (o : Option String) (key : String)
    → lookup key (index_under row index o)
      ≡ or_else (lookup key index) (if o == some key then some row else none)
unfolding index_under
lookup-index_under row index none key = ground arith
lookup-index_under row index (some k) key =
    ground (arith, lookup-insert k key row index, eq_iff k key)

lookup-index_rows :
    (key_field key : String) (rows : List CatalogRow) (index : Dict String CatalogRow)
    → lookup key (index_rows key_field rows index)
      ≡ or_else (lookup key index) (find? (has_key key_field key) rows)
unfolding index_rows find?
lookup-index_rows key_field key [] index = ground arith
lookup-index_rows key_field key (row ∷ rows) index =
    lookup-index_rows key_field key rows (index_under row index (match_key (cell row key_field)))
    ∙ ground (arith, lookup-index_under row index (match_key (cell row key_field)) key)

-- `row` stands in the list.
abbrev pub IsMember : CatalogRow → List CatalogRow → Type 0
IsMember row [] = ⊥
IsMember row (x ∷ rows) = (x ≡ row) ⊎ IsMember row rows

-- What a scan says of the rows: a row found is one of them, has the key, and no row with the key has a
-- smaller `row_order`; and where none is found no row has the key.
abbrev pub IsFirst : (CatalogRow → Bool) → List CatalogRow → Option CatalogRow → Type 0
IsFirst p rows none = All (λ x. p x ≡ false) rows
IsFirst p rows (some row) =
    IsMember row rows × (p row ≡ true) × All (λ x. p x ≡ true → row.row_order ≤ x.row_order) rows

insert_sorted-IsMember :
    (row x : CatalogRow) (ys : List CatalogRow)
    → IsMember row (insert_sorted (by_rank (λ r. r.row_order)) x ys)
    → (x ≡ row) ⊎ IsMember row ys
unfolding insert_sorted
insert_sorted-IsMember row x [] h = h
insert_sorted-IsMember row x (y ∷ ys) h = elim (Bool-cases (by_rank (λ r. r.row_order) y x)) [
  | inr e ↦ let h' : (x ≡ row) ⊎ IsMember row (y ∷ ys) = rw e at h in h'
  | inl e ↦
      let h' : (y ≡ row) ⊎ IsMember row (insert_sorted (by_rank (λ r. r.row_order)) x ys) =
        rw e at h in
      elim h' [
        | inl here ↦ inr (inl here)
        | inr there ↦ elim (insert_sorted-IsMember row x ys there) [
          | inl new ↦ inl new
          | inr old ↦ inr (inr old)
        ]
      ]
]

sort-IsMember :
    (row : CatalogRow) (rows : List CatalogRow)
    → IsMember row (sort (by_rank (λ r. r.row_order)) rows)
    → IsMember row rows
unfolding sort
sort-IsMember row [] h = h
sort-IsMember row (x ∷ rows) h =
    elim (insert_sorted-IsMember row x (sort (by_rank (λ r. r.row_order)) rows) h) [
      | inl here ↦ inl here
      | inr there ↦ inr (sort-IsMember row rows there)
    ]

module _ (p : CatalogRow → Bool) where
  weaken :
      (n : ℕ) (rows : List CatalogRow)
      → All (λ y. n ≤ y.row_order) rows
      → All (λ x. p x ≡ true → n ≤ x.row_order) rows
  weaken n [] h = tt
  weaken n (x ∷ rows) h = (λ _. h.0, weaken n rows h.1)

  IsFirst-cons :
      (row : CatalogRow) (rows : List CatalogRow) (o : Option CatalogRow)
      → p row ≡ false
      → IsFirst p rows o
      → IsFirst p (row ∷ rows) o
  IsFirst-cons row rows none f h = (f, h)
  IsFirst-cons row rows (some x) f h = (inr h.0, h.1, (λ t. absurd (cc (t, f)), h.2))

  find?-IsFirst :
      (rows : List CatalogRow) → IsSorted (λ r. r.row_order) rows → IsFirst p rows (find? p rows)
  unfolding find?
  find?-IsFirst [] h = tt
  find?-IsFirst (row ∷ rows) h = elim (Bool-cases (p row)) [
    | inl t ↦ rw t (inl refl, t, (λ _. omega arith, weaken row.row_order rows h.0))
    | inr f ↦ rw f (IsFirst-cons row rows (find? p rows) f (find?-IsFirst rows h.1))
  ]

  IsFirst-of_sort :
      (rows : List CatalogRow) (o : Option CatalogRow)
      → IsFirst p (sort (by_rank (λ r. r.row_order)) rows) o
      → IsFirst p rows o
  IsFirst-of_sort rows none h = of_sort-All (λ x. p x ≡ false) (by_rank (λ r. r.row_order)) rows h
  IsFirst-of_sort rows (some row) h = (
    sort-IsMember row rows h.0,
    h.1,
    of_sort-All (λ x. p x ≡ true → row.row_order ≤ x.row_order) (by_rank (λ r. r.row_order)) rows
        h.2,
  )

-- First match wins by `row_order`, whatever the order in which the rows were stored: the index holds
-- under a key one of the rows with that key, such that no row with the key has a smaller `row_order`,
-- and it holds none only if no row has the key.
pub first_match_index_lem :
    (rows : List CatalogRow) (key_field key : String)
    → IsFirst (has_key key_field key) rows (lookup key (first_match_index rows key_field))
unfolding first_match_index lookup
first_match_index_lem rows key_field key =
    let sorted = sort (by_rank (λ (r : CatalogRow). r.row_order)) rows in
    rw (lookup-index_rows key_field key sorted []) (
      IsFirst-of_sort (has_key key_field key) rows (find? (has_key key_field key) sorted)
        (find?-IsFirst (has_key key_field key) sorted (sort-IsSorted (λ r. r.row_order) rows)))

-- The membership rule as a scan: the first row listed for the value gives the group, and a value that
-- no row lists is its own group.
pub group_scan : Option String → List CatalogRow → Option String
group_scan value [] = value
group_scan value (row ∷ rows) =
    if cell row "filter_logic_1_value" == value
    then cell row "group_name"
    else group_scan value rows

lookup-note_group :
    (v value g : Option String) (index : Dict (Option String) (Option String))
    → lookup value (if contains v index then index else insert v g index)
      ≡ or_else (lookup value index) (if v == value then some g else none)
lookup-note_group v value g index = elim (Option-cases (lookup v index)) [
  | inl e ↦
      rw e (lookup-insert v value g index ∙ ground (arith, e, option_beq_iff string_eq v value))
  | inr (x, e) ↦ rw e (ground (arith, e, option_beq_iff string_eq v value))
]

group_rows-eq-scan :
    (value : Option String) (rows : List CatalogRow) (index : Dict (Option String) (Option String))
    → group_or value (lookup value (group_rows rows index))
      ≡ group_or (group_scan value rows) (lookup value index)
unfolding group_rows group_scan
group_rows-eq-scan value [] index = refl
group_rows-eq-scan value (row ∷ rows) index =
    let v = cell row "filter_logic_1_value" in
    let g = cell row "group_name" in
    group_rows-eq-scan value rows (if contains v index then index else insert v g index)
    ∙ rw (lookup-note_group v value g index) (ground arith)

-- The index behind the Filter Logic 1 groups gives what a scan of the rows gives, for missing, blank,
-- listed and unknown values alike.
pub resolve_filter_logic_1_group-eq-scan :
    (value : Option String) (rows : List CatalogRow)
    → resolve_filter_logic_1_group value rows ≡ group_scan value rows
unfolding resolve_filter_logic_1_group lookup
resolve_filter_logic_1_group-eq-scan value rows = group_rows-eq-scan value rows []
