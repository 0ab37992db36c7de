-- ===== src/Prelude/Dict.antt =====
-- Python's `dict` in insertion order. Its keys are compared by the instance `Comparable K`.
use dfip_v.Prelude.Tests.{if◌then◌else◌, Bool-cases, is_some}
use dfip_v.Prelude.Equality.{Comparable, ◌==◌, beq_refl}
use mathlib.Core.Path.{◌≡◌, refl, ap, sym, ◌∙◌}
use mathlib.Core.Logic.{◌≢◌, ◌⊎◌, inl, inr}
use mathlib.Core.Bool.{Bool, true, false}
use mathlib.Core.List.{List, [], ◌∷◌}
use mathlib.Core.Option
use mathlib.Core.Option.{Option, none, some, some-injective}
use native.Mathlib.Omega.{arith}
use Prim.Native.Nat.{◌+◌}
use dfip_v.Prelude.Lists.{length, filter}

abbrev pub Dict {ℓ κ} : Type ℓ → Type κ → Type (ℓ ⊔ κ)
Dict K V = List (K × V)

module _ {ℓ κ} {K : Type ℓ} {V : Type κ} where
  -- `d.values()`
  unfoldable pub values : Dict K V → List V
  values [] = []
  values ((k, v) ∷ d) = v ∷ values d

  -- `{k: v for k, v in d.items() if p(v)}`
  unfoldable pub filter_values : (V → Bool) → Dict K V → Dict K V
  filter_values p [] = []
  filter_values p ((k, v) ∷ d) = if p v then (k, v) ∷ filter_values p d else filter_values p d

  -- a loop that rewrites every value in place
  unfoldable pub map_values : (V → V) → Dict K V → Dict K V
  map_values f [] = []
  map_values f ((k, v) ∷ d) = (k, f v) ∷ map_values f d

module _ {ℓ κ} {K : Type ℓ} {V : Type κ} ⦃e : Comparable K⦄ where
  -- `d.get(k)`
  unfoldable pub lookup : K → Dict K V → Option V
  lookup k [] = none
  lookup k ((j, v) ∷ d) = if j == k then some v else lookup k d

  -- `k in d`
  abbrev pub contains : K → Dict K V → Bool
  contains k d = is_some (lookup k d)

  -- `d[k] = v`
  unfoldable pub insert : K → V → Dict K V → Dict K V
  insert k v [] = (k, v) ∷ []
  insert k v ((j, w) ∷ d) = if j == k then (j, v) ∷ d else (j, w) ∷ insert k v d

  -- `d.pop(k, None)`
  unfoldable pub erase : K → Dict K V → Dict K V
  erase k [] = []
  erase k ((j, w) ∷ d) = if j == k then d else (j, w) ∷ erase k d

  -- no key is listed twice, as in every `dict`
  abbrev pub UniqueKeys : Dict K V → Type κ
  UniqueKeys [] = Unit
  UniqueKeys ((k, v) ∷ d) = (lookup k d ≡ none) × UniqueKeys d

abbrev pub keep_if {κ} : {V : Type κ} → (V → Bool) → Option V → Option V
keep_if p none = none
keep_if p (some v) = if p v then some v else none

module _ {ℓ κ} {K : Type ℓ} {V : Type κ} ⦃e : Comparable K⦄ where
  pub lookup-insert :
      (k j : K) (v : V) (d : Dict K V)
      → lookup j (insert k v d) ≡ (if k == j then some v else lookup j d)
  unfolding lookup insert
  lookup-insert k j v [] = refl
  lookup-insert k j v ((i, w) ∷ d) =
      ground (arith, e.equal_iff k j, e.equal_iff i k, e.equal_iff i j, lookup-insert k j v d)

  pub lookup-insert_self : (k : K) (v : V) (d : Dict K V) → lookup k (insert k v d) ≡ some v
  lookup-insert_self k v d = simp (lookup-insert, beq_refl)

  pub lookup-insert_ne :
      (k : K) (v : V) (d : Dict K V) (j : K) → j ≢ k → lookup j (insert k v d) ≡ lookup j d
  lookup-insert_ne k v d j h = ground (arith, lookup-insert k j v d, e.equal_iff k j)

  pub insert-UniqueKeys : (k : K) (v : V) (d : Dict K V) → UniqueKeys d → UniqueKeys (insert k v d)
  unfolding insert lookup
  insert-UniqueKeys k v [] u = (refl, tt)
  insert-UniqueKeys k v ((i, w) ∷ d) u =
      ground (
        arith,
        insert-UniqueKeys k v d u.1,
        lookup-insert k i v d,
        e.equal_iff i k,
        e.equal_iff k i,
      )

  pub lookup-erase :
      (k j : K) (d : Dict K V)
      → UniqueKeys d
      → lookup j (erase k d) ≡ (if k == j then none else lookup j d)
  unfolding lookup erase
  lookup-erase k j [] u = ground arith
  lookup-erase k j ((i, w) ∷ d) u =
      ground (arith, e.equal_iff k j, e.equal_iff i k, e.equal_iff i j, lookup-erase k j d u.1)

  pub erase-UniqueKeys : (k : K) (d : Dict K V) → UniqueKeys d → UniqueKeys (erase k d)
  unfolding erase
  erase-UniqueKeys k [] u = tt
  erase-UniqueKeys k ((i, w) ∷ d) u =
      ground (arith, erase-UniqueKeys k d u.1, lookup-erase k i d u.1)

  lookup-filter_values-none :
      (p : V → Bool) (j : K) (d : Dict K V)
      → lookup j d ≡ none
      → lookup j (filter_values p d) ≡ none
  unfolding lookup filter_values
  lookup-filter_values-none p j [] h = refl
  lookup-filter_values-none p j ((i, w) ∷ d) h = ground (arith, lookup-filter_values-none p j d)

  pub lookup-filter_values :
      (p : V → Bool) (j : K) (d : Dict K V)
      → UniqueKeys d
      → lookup j (filter_values p d) ≡ keep_if p (lookup j d)
  unfolding lookup filter_values
  lookup-filter_values p j [] u = refl
  lookup-filter_values p j ((i, w) ∷ d) u = ground (
    arith,
    e.equal_iff i j,
    lookup-filter_values p j d u.1,
    lookup-filter_values-none p j d,
    lookup-filter_values-none p i d u.0,
  )

  pub filter_values-UniqueKeys :
      (p : V → Bool) (d : Dict K V) → UniqueKeys d → UniqueKeys (filter_values p d)
  unfolding filter_values
  filter_values-UniqueKeys p [] u = tt
  filter_values-UniqueKeys p ((i, w) ∷ d) u =
      ground (arith, filter_values-UniqueKeys p d u.1, lookup-filter_values-none p i d u.0)

  pub lookup-map_values :
      (f : V → V) (j : K) (d : Dict K V) → lookup j (map_values f d) ≡ Option.map f (lookup j d)
  unfolding lookup map_values
  lookup-map_values f j [] = refl
  lookup-map_values f j ((i, w) ∷ d) = ground (arith, lookup-map_values f j d)

  pub map_values-UniqueKeys :
      (f : V → V) (d : Dict K V) → UniqueKeys d → UniqueKeys (map_values f d)
  unfolding map_values
  map_values-UniqueKeys f [] u = tt
  map_values-UniqueKeys f ((i, w) ∷ d) u =
      ground (arith, map_values-UniqueKeys f d u.1, lookup-map_values f i d)

  pub length-insert :
      (k : K) (v : V) (d : Dict K V)
      → length (insert k v d) ≡ (if contains k d then length d else length d + 1)
  unfolding insert lookup
  length-insert k v [] = omega arith
  length-insert k v ((i, w) ∷ d) = ground (arith, length-insert k v d)

  pub lookup-cons :
      (j i : K) (w x : V) (d : Dict K V)
      → UniqueKeys ((i, w) ∷ d)
      → lookup j d ≡ some x
      → lookup j ((i, w) ∷ d) ≡ some x
  unfolding lookup
  lookup-cons j i w x d u l = elim (Bool-cases (i == j)) [
    | inl same ↦ absurd (ground (arith, e.equal_iff i j, same, u.0, l))
    | inr other ↦ rw other l
  ]

  filter-values_none :
      (p : V → Bool) (d : Dict K V)
      → UniqueKeys d
      → ((k : K) (v : V) → lookup k d ≡ some v → p v ≡ false)
      → filter p (values d) ≡ []
  unfolding filter values lookup
  filter-values_none p [] u h = refl
  filter-values_none p ((i, w) ∷ d) u h =
      rw (h i w (rw (beq_refl i)))
        (filter-values_none p d u.1 (λ k v l. h k v (lookup-cons k i w v d u l)))

  -- The one value that passes a test is all that a comprehension over the values finds.
  pub filter-values_one :
      (p : V → Bool) (d : Dict K V) (k : K) (v : V)
      → UniqueKeys d
      → lookup k d ≡ some v
      → p v ≡ true
      → ((j : K) (w : V) → lookup j d ≡ some w → p w ≡ true → j ≡ k)
      → filter p (values d) ≡ v ∷ []
  unfolding filter values lookup
  filter-values_one p [] k v u l t h = cc
  filter-values_one p ((i, w) ∷ d) k v u l t h = elim (Bool-cases (i == k)) [
    | inl same ↦
        let found : some w ≡ some v = rw same at l in
        let e' : w ≡ v = some-injective _ _ found in
        rw (e', t)
          (ap (λ r. v ∷ r)
            (filter-values_none p d u.1 (λ j x lj. elim (Bool-cases (p x)) [
              | inl px ↦ absurd (
                  ground (
                    arith,
                    h j x (lookup-cons j i w x d u lj) px,
                    (e.equal_iff i k).0 same,
                    u.0,
                    lj,
                  ))
              | inr npx ↦ npx
            ])))
    | inr other ↦
        let rest : lookup k d ≡ some v = rw other at l in
        elim (Bool-cases (p w)) [
          | inl pw ↦ absurd (ground (arith, h i w (rw (beq_refl i)) pw, e.equal_iff i k, other))
          | inr npw ↦ rw npw (
              filter-values_one p d k v u.1 rest t
                (λ j x lj px. h j x (lookup-cons j i w x d u lj) px))
        ]
  ]

  -- Who stands in a dictionary after a write was written or stood there before.
  pub lookup-insert_cases :
      (k : K) (v : V) (d : Dict K V) (j : K) (w : V)
      → lookup j (insert k v d) ≡ some w
      → ((j ≡ k) × (w ≡ v)) ⊎ (lookup j d ≡ some w)
  lookup-insert_cases k v d j w l = elim (Bool-cases (k == j)) [
    | inl same ↦
        let found : some v ≡ some w = rw same at (sym (lookup-insert k j v d) ∙ l) in
        inl (sym ((e.equal_iff k j).0 same), sym (some-injective _ _ found))
    | inr other ↦
        let old : lookup j d ≡ some w = rw other at (sym (lookup-insert k j v d) ∙ l) in inr old
  ]

pub keep_if-some {κ} :
    {V : Type κ} (p : V → Bool) (o : Option V) (v : V) → keep_if p o ≡ some v → o ≡ some v
keep_if-some p none v h = cc
keep_if-some p (some w) v h = ground arith
