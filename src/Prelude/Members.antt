-- ===== src/Prelude/Members.antt =====
-- What a value that is found in a dictionary says of a comprehension, and the other way round.
use dfip_v.Prelude.Tests.{Bool-cases, Option-cases}
use dfip_v.Prelude.Equality.{Comparable, ◌==◌, beq_refl}
use dfip_v.Prelude.Lists.{filter, any, All, All_mono}
use dfip_v.Prelude.Dict.{
  Dict, values, filter_values, map_values, lookup, erase, UniqueKeys, keep_if, lookup-filter_values,
  lookup-map_values, lookup-erase, lookup-cons,
}
use mathlib.Core.Path.{◌≡◌, refl, ap, sym, ◌∙◌, subst}
use mathlib.Core.Logic.{inl, inr}
use mathlib.Core.Bool.{Bool, true, false}
use mathlib.Core.List.{[], ◌∷◌}
use mathlib.Core.Option.{Option, none, some, some-injective}
use native.Mathlib.Omega.{arith}

module _ {κ} {V : Type κ} where
  keep_if_cases :
      (p : V → Bool) (o : Option V) (v : V) → keep_if p o ≡ some v → (o ≡ some v) × (p v ≡ true)
  keep_if_cases p none v h = absurd cc
  keep_if_cases p (some w) v h = elim (Bool-cases (p w)) [
    | inl e ↦ let h' : some w ≡ some v = rw e at h in (h', ap p (sym (some-injective _ _ h')) ∙ e)
    | inr e ↦ let h' = rw e at h in absurd cc
  ]

module _ {ℓ κ} {K : Type ℓ} {V : Type κ} ⦃e : Comparable K⦄ where
  pub filter-values_nil :
      (p : V → Bool) (d : Dict K V) (k : K) (v : V)
      → filter p (values d) ≡ []
      → lookup k d ≡ some v
      → p v ≡ false
  unfolding filter values lookup
  filter-values_nil p [] k v h l = absurd cc
  filter-values_nil p ((i, w) ∷ d) k v h l = elim (Bool-cases (p w)) [
    | inl t ↦ let h' = rw t at h in absurd cc
    | inr f ↦
        let h' = rw f at h in
        elim (Bool-cases (i == k)) [
          | inl same ↦
              let l' : some w ≡ some v = rw same at l in ap p (sym (some-injective _ _ l')) ∙ f
          | inr other ↦ let l' = rw other at l in filter-values_nil p d k v h' l'
        ]
  ]

  pub any-values :
      (p : V → Bool) (d : Dict K V) (k : K) (v : V)
      → lookup k d ≡ some v
      → p v ≡ true
      → any p (values d) ≡ true
  unfolding any values lookup
  any-values p [] k v l t = absurd cc
  any-values p ((i, w) ∷ d) k v l t = elim (Bool-cases (i == k)) [
    | inl same ↦
        let l' : some w ≡ some v = rw same at l in rw (ap p (some-injective _ _ l') ∙ t) refl
    | inr other ↦ let l' = rw other at l in rw (any-values p d k v l' t) (ground arith)
  ]

  pub lookup-filter_values_cases :
      (p : V → Bool) (d : Dict K V) (k : K) (v : V)
      → UniqueKeys d
      → lookup k (filter_values p d) ≡ some v
      → (lookup k d ≡ some v) × (p v ≡ true)
  lookup-filter_values_cases p d k v u l =
      keep_if_cases p (lookup k d) v (sym (lookup-filter_values p k d u) ∙ l)

  pub lookup-map_values_cases :
      (f : V → V) (d : Dict K V) (k : K) (w : V)
      → lookup k (map_values f d) ≡ some w
      → (v : V) × (lookup k d ≡ some v) × (f v ≡ w)
  lookup-map_values_cases f d k w l = elim (Option-cases (lookup k d)) [
    | inl n ↦ let l' = rw (lookup-map_values f k d, n) at l in absurd cc
    | inr (v, s) ↦ let l' = rw (lookup-map_values f k d, s) at l in (v, s, some-injective _ _ l')
  ]

  pub lookup-erase_cases :
      (k j : K) (d : Dict K V) (v : V)
      → UniqueKeys d
      → lookup j (erase k d) ≡ some v
      → (lookup j d ≡ some v) × ((k == j) ≡ false)
  lookup-erase_cases k j d v u l = elim (Bool-cases (k == j)) [
    | inl same ↦ let l' = rw (lookup-erase k j d u, same) at l in absurd cc
    | inr other ↦ let l' = rw (lookup-erase k j d u, other) at l in (l', other)
  ]

  -- What is found and passes the test is still found.
  pub lookup-filter_values_kept :
      (p : V → Bool) (d : Dict K V) (k : K) (v : V)
      → lookup k d ≡ some v
      → p v ≡ true
      → lookup k (filter_values p d) ≡ some v
  unfolding lookup filter_values
  lookup-filter_values_kept p [] k v l t = absurd cc
  lookup-filter_values_kept p ((i, w) ∷ d) k v l t = elim (Bool-cases (i == k)) [
    | inl same ↦
        let l' : some w ≡ some v = rw same at l in
        let t' : p w ≡ true = ap p (some-injective _ _ l') ∙ t in rw (t', same) l'
    | inr other ↦
        let l' : lookup k d ≡ some v = rw other at l in
        let rest = lookup-filter_values_kept p d k v l' t in
        elim (Bool-cases (p w)) [ inl e ↦ rw (e, other) rest | inr e ↦ rw e rest ]
  ]

  pub lookup-erase_ne :
      (k j : K) (d : Dict K V) → (k == j) ≡ false → lookup j (erase k d) ≡ lookup j d
  unfolding lookup erase
  lookup-erase_ne k j [] h = refl
  lookup-erase_ne k j ((i, w) ∷ d) h =
      ground (arith, lookup-erase_ne k j d h, e.equal_iff i k, e.equal_iff i j, e.equal_iff k j)

  -- Every value stands under a key.
  pub values-All :
      (d : Dict K V) → UniqueKeys d → All (λ v. (k : K) × (lookup k d ≡ some v)) (values d)
  unfolding values lookup
  values-All [] u = tt
  values-All ((i, w) ∷ d) u = (
    (i, rw (beq_refl i) refl),
    All_mono (λ v. (k : K) × (lookup k d ≡ some v))
        (λ v. (k : K) × (lookup k ((i, w) ∷ d) ≡ some v))
        (λ v h. (h.0, lookup-cons h.0 i w v d u h.1)) (values d) (values-All d u.1),
  )

  -- What holds of every value holds of one that is found.
  pub All-lookup {μ} :
      (P : V → Type μ) (d : Dict K V) (k : K) (v : V) → All P (values d) → lookup k d ≡ some v → P v
  unfolding values lookup
  All-lookup P [] k v h l = absurd cc
  All-lookup P ((i, w) ∷ d) k v h l = elim (Bool-cases (i == k)) [
    | inl same ↦ let l' : some w ≡ some v = rw same at l in subst P (some-injective _ _ l') h.0
    | inr other ↦ let l' = rw other at l in All-lookup P d k v h.1 l'
  ]
