-- ===== src/Prelude/Sort.antt =====
-- `sorted(xs, key=...)`: the stable sort, by insertion, for a test "comes strictly before".
use mathlib.Core.Path.{◌≡◌, refl, ap, ◌∙◌, subst}
use mathlib.Core.Bool.{Bool, true, false, ◌||◌}
use mathlib.Core.List.{List, [], ◌∷◌}
use mathlib.Core.Option.{Option, none, some, some-injective}
use native.Mathlib.Omega.{arith}
use dfip_v.Prelude.Tests.{if◌then◌else◌, Bool-cases, ltb}
use mathlib.Core.Logic.{inl, inr}
use dfip_v.Prelude.Lists.{All, length, filter, any}
use Prim.Native.Nat.{ℕ, suc, ◌≤◌}

module _ {ℓ} {A : Type ℓ} (before : A → A → Bool) where
  -- In front of the first that does not come strictly before `x`, so equal keys keep their order.
  unfoldable pub insert_sorted : A → List A → List A
  insert_sorted x [] = x ∷ []
  insert_sorted x (y ∷ ys) = if before y x then y ∷ insert_sorted x ys else x ∷ y ∷ ys

  unfoldable pub sort : List A → List A
  unfolding insert_sorted
  sort [] = []
  sort (x ∷ xs) = insert_sorted x (sort xs)

module _ {ℓ κ} {A : Type ℓ} (P : A → Type κ) (before : A → A → Bool) where
  pub insert_sorted-All : (x : A) (ys : List A) → P x → All P ys → All P (insert_sorted before x ys)
  unfolding insert_sorted
  insert_sorted-All x [] p h = (p, tt)
  insert_sorted-All x (y ∷ ys) p h =
      elim (before y x) as (λ b. All P (if b then y ∷ insert_sorted before x ys else x ∷ y ∷ ys)) [
        | true ↦ (h.0, insert_sorted-All x ys p h.1)
        | false ↦ (p, h)
      ]

  pub sort-All : (xs : List A) → All P xs → All P (sort before xs)
  unfolding sort
  sort-All [] h = tt
  sort-All (x ∷ xs) h = insert_sorted-All x (sort before xs) h.0 (sort-All xs h.1)

module _ {ℓ} {A : Type ℓ} (before : A → A → Bool) where
  length-insert_sorted :
      (x : A) (ys : List A) → length (insert_sorted before x ys) ≡ suc (length ys)
  unfolding insert_sorted
  length-insert_sorted x [] = refl
  length-insert_sorted x (y ∷ ys) = ground (arith, length-insert_sorted x ys)

  pub length-sort : (xs : List A) → length (sort before xs) ≡ length xs
  unfolding sort
  length-sort [] = refl
  length-sort (x ∷ xs) = omega (arith, length-insert_sorted x (sort before xs), length-sort xs)

-- A sort by a number.
module _ {ℓ} {A : Type ℓ} (rank : A → ℕ) where
  abbrev pub by_rank : A → A → Bool
  by_rank a b = ltb (rank a) (rank b)

  -- Each element stands before no element of a smaller rank.
  abbrev pub IsSorted : List A → Type 0
  IsSorted [] = Unit
  IsSorted (x ∷ xs) = All (λ y. rank x ≤ rank y) xs × IsSorted xs

  insert_sorted-IsSorted :
      (x : A) (ys : List A) → IsSorted ys → IsSorted (insert_sorted by_rank x ys)
  unfolding insert_sorted
  insert_sorted-IsSorted x [] h = (tt, tt)
  insert_sorted-IsSorted x (y ∷ ys) h = elim (Bool-cases (by_rank y x)) [
    | inl t ↦ rw t (
      insert_sorted-All (λ z. rank y ≤ rank z) by_rank x ys (ground arith) h.0,
      insert_sorted-IsSorted x ys h.1,
    )
    | inr f ↦ rw f ((ground arith, below (ground arith) ys h.0), h)
  ]
    where
      below :
          rank x ≤ rank y
          → (zs : List A) → All (λ z. rank y ≤ rank z) zs
          → All (λ z. rank x ≤ rank z) zs
      below le [] k = tt
      below le (z ∷ zs) k = (omega arith, below le zs k.1)

  pub sort-IsSorted : (xs : List A) → IsSorted (sort by_rank xs)
  unfolding sort
  sort-IsSorted [] = tt
  sort-IsSorted (x ∷ xs) = insert_sorted-IsSorted x (sort by_rank xs) (sort-IsSorted xs)

module _ {ℓ κ} {A : Type ℓ} (P : A → Type κ) (before : A → A → Bool) where
  of_insert_sorted-All : (x : A) (ys : List A) → All P (insert_sorted before x ys) → P x × All P ys
  unfolding insert_sorted
  of_insert_sorted-All x [] h = (h.0, tt)
  of_insert_sorted-All x (y ∷ ys) h = elim (Bool-cases (before y x)) [
    | inl t ↦
        let k : All P (y ∷ insert_sorted before x ys) = rw t at h in
        let r = of_insert_sorted-All x ys k.1 in (r.0, (k.0, r.1))
    | inr f ↦ let k : All P (x ∷ y ∷ ys) = rw f at h in k
  ]

  -- What holds of every element of the sorted list holds of every element of the list.
  pub of_sort-All : (xs : List A) → All P (sort before xs) → All P xs
  unfolding sort
  of_sort-All [] h = tt
  of_sort-All (x ∷ xs) h =
      let r = of_insert_sorted-All x (sort before xs) h in (r.0, of_sort-All xs r.1)

-- `min(xs, key=...)` and `max(xs, key=...)` of a list that starts with `x`: of equals, the first.
module _ {ℓ} {A : Type ℓ} (better : A → A → Bool) where
  unfoldable pub best_from : A → List A → A
  best_from x [] = x
  best_from x (y ∷ ys) = best_from (if better y x then y else x) ys

  unfoldable pub best : List A → Option A
  unfolding best_from
  best [] = none
  best (x ∷ xs) = some (best_from x xs)

-- What holds of every candidate holds of the best one.
module _ {ℓ κ} {A : Type ℓ} (P : A → Type κ) (better : A → A → Bool) where
  best_from-All : (x : A) (xs : List A) → P x → All P xs → P (best_from better x xs)
  unfolding best_from
  best_from-All x [] p h = p
  best_from-All x (y ∷ ys) p h = elim (Bool-cases (better y x)) [
    | inl e ↦ rw e (best_from-All y ys h.0 h.1)
    | inr e ↦ rw e (best_from-All x ys p h.1)
  ]

  pub best-All : (xs : List A) (x : A) → All P xs → best better xs ≡ some x → P x
  unfolding best
  best-All [] x h e = absurd cc
  best-All (y ∷ ys) x h e = subst P (some-injective _ _ e) (best_from-All y ys h.0 h.1)

pub best-none {ℓ} :
    {A : Type ℓ} (better : A → A → Bool) (xs : List A) → best better xs ≡ none → xs ≡ []
unfolding best
best-none better [] h = refl
best-none better (x ∷ xs) h = absurd cc

-- `max(xs, key=rank)`: no candidate has a larger rank than the one that is taken.
module _ {ℓ} {A : Type ℓ} (rank : A → ℕ) where
  abbrev pub higher : A → A → Bool
  higher a b = ltb (rank b) (rank a)

  best_from-le :
      (x : A) (xs : List A) (top : A)
      → best_from higher x xs ≡ top
      → (rank x ≤ rank top) × All (λ y. rank y ≤ rank top) xs
  unfolding best_from
  best_from-le x [] top h = (omega (arith, ap rank h), tt)
  best_from-le x (y ∷ ys) top h = elim (Bool-cases (higher y x)) [
    | inl e ↦
        let h' : best_from higher y ys ≡ top = rw e at h in
        let r = best_from-le y ys top h' in (ground (arith, r.0, e), r)
    | inr e ↦
        let h' : best_from higher x ys ≡ top = rw e at h in
        let r = best_from-le x ys top h' in (r.0, (ground (arith, r.0, e), r.1))
  ]

  pub best-le : (xs : List A) (x : A) → best higher xs ≡ some x → All (λ y. rank y ≤ rank x) xs
  unfolding best
  best-le [] x e = absurd cc
  best-le (y ∷ ys) x e = best_from-le y ys x (some-injective _ _ e)

-- A sort loses and adds nothing that a test tells apart.
module _ {ℓ} {A : Type ℓ} (p : A → Bool) (before : A → A → Bool) where
  filter-insert_sorted :
      (x : A) (ys : List A)
      → length (filter p (insert_sorted before x ys)) ≡ length (filter p (x ∷ ys))
  unfolding insert_sorted filter
  filter-insert_sorted x [] = refl
  filter-insert_sorted x (y ∷ ys) = elim (Bool-cases (before y x)) [
    | inl e ↦ rw e (ground (arith, filter-insert_sorted x ys))
    | inr e ↦ rw e refl
  ]

  pub length-filter-sort : (xs : List A) → length (filter p (sort before xs)) ≡ length (filter p xs)
  unfolding sort filter
  length-filter-sort [] = refl
  length-filter-sort (x ∷ xs) =
      filter-insert_sorted x (sort before xs) ∙ ground (arith, length-filter-sort xs)

module _ {ℓ} {A : Type ℓ} (p : A → Bool) (before : A → A → Bool) where
  any-insert_sorted : (x : A) (ys : List A) → any p (insert_sorted before x ys) ≡ (p x || any p ys)
  unfolding insert_sorted any
  any-insert_sorted x [] = refl
  any-insert_sorted x (y ∷ ys) = elim (Bool-cases (before y x)) [
    | inl e ↦ rw (e, any-insert_sorted x ys) (ground arith)
    | inr e ↦ rw e refl
  ]

  -- Some element of the sorted list passes a test exactly if some element of the list does.
  pub any-sort : (xs : List A) → any p (sort before xs) ≡ any p xs
  unfolding sort any
  any-sort [] = refl
  any-sort (x ∷ xs) = any-insert_sorted x (sort before xs) ∙ ap (λ b. p x || b) (any-sort xs)
