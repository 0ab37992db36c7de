-- ===== src/Analytics/Aggregate/Sums.antt =====
-- `SUM` over optional values, by its algebra.
use dfip_v.Prelude.{
  ◌≡◌, refl, sym, ap, ◌∙◌, Bool, true, Option, none, some, List, [], ◌∷◌, ◌++◌, map, inl, inr,
  Bool-cases,
}
use dfip_v.Prelude.Decimal.{Decimal, add, zero_decimal}
use dfip_v.Prelude.Decimal.Sums.{add_comm, add_assoc, add-zero}
use dfip_v.Prelude.Sort.{sort, insert_sorted}
use dfip_v.Analytics.Aggregate.{sum_values, sum_loop, if_seen}

-- the sum of two values, of which a missing one is skipped
abbrev pub plus : Option Decimal → Option Decimal → Option Decimal
plus none b = b
plus (some a) none = some a
plus (some a) (some b) = some (add a b)

pub plus-none : (a : Option Decimal) → plus a none ≡ a
plus-none none = refl
plus-none (some a) = refl

pub plus_comm : (a b : Option Decimal) → plus a b ≡ plus b a
plus_comm none none = refl
plus_comm none (some b) = refl
plus_comm (some a) none = refl
plus_comm (some a) (some b) = ap (λ x. some x) (add_comm a b)

pub plus_assoc : (a b c : Option Decimal) → plus (plus a b) c ≡ plus a (plus b c)
plus_assoc none b c = refl
plus_assoc (some a) none c = refl
plus_assoc (some a) (some b) none = refl
plus_assoc (some a) (some b) (some c) = ap (λ x. some x) (add_assoc a b c)

pub plus_swap : (a b c : Option Decimal) → plus a (plus b c) ≡ plus b (plus a c)
plus_swap a b c = sym (plus_assoc a b c) ∙ ap (λ x. plus x c) (plus_comm a b) ∙ plus_assoc b a c

abbrev total : List (Option Decimal) → Option Decimal
total [] = none
total (v ∷ vs) = plus v (total vs)

sum_loop_seen :
    (t : Decimal) (vs : List (Option Decimal))
    → if_seen (sum_loop (t, true) vs) ≡ plus (some t) (total vs)
unfolding sum_loop
sum_loop_seen t [] = refl
sum_loop_seen t (none ∷ vs) = sum_loop_seen t vs
sum_loop_seen t (some v ∷ vs) = sum_loop_seen (add t v) vs ∙ plus_assoc (some t) (some v) (total vs)

sum_values-total : (vs : List (Option Decimal)) → sum_values vs ≡ total vs
unfolding sum_values sum_loop
sum_values-total [] = refl
sum_values-total (none ∷ vs) = sum_values-total vs
sum_values-total (some v ∷ vs) =
    sum_loop_seen (add zero_decimal v) vs ∙ ap (λ x. plus (some x) (total vs)) (add-zero v)

pub sum_values-nil : sum_values [] ≡ none
sum_values-nil = sum_values-total []

pub sum_values-cons :
    (v : Option Decimal) (vs : List (Option Decimal)) → sum_values (v ∷ vs) ≡ plus v (sum_values vs)
sum_values-cons v vs = sum_values-total (v ∷ vs) ∙ ap (plus v) (sym (sum_values-total vs))

pub sum_values-append :
    (vs ws : List (Option Decimal)) → sum_values (vs ++ ws) ≡ plus (sum_values vs) (sum_values ws)
sum_values-append [] ws = rw sum_values-nil refl
sum_values-append (v ∷ vs) ws =
    sum_values-cons v (vs ++ ws)
    ∙ ap (plus v) (sum_values-append vs ws)
    ∙ sym (plus_assoc v (sum_values vs) (sum_values ws))
    ∙ ap (λ x. plus x (sum_values ws)) (sym (sum_values-cons v vs))

-- A sum does not depend on the order.
module _ {ℓ} {A : Type ℓ} (before : A → A → Bool) (f : A → Option Decimal) where
  sum_values-insert_sorted :
      (x : A) (xs : List A)
      → sum_values (map f (insert_sorted before x xs)) ≡ plus (f x) (sum_values (map f xs))
  unfolding insert_sorted
  sum_values-insert_sorted x [] = sum_values-cons (f x) []
  sum_values-insert_sorted x (y ∷ ys) = elim (Bool-cases (before y x)) [
    | inl e ↦ rw e (
        sum_values-cons (f y) (map f (insert_sorted before x ys))
        ∙ ap (plus (f y)) (sum_values-insert_sorted x ys)
        ∙ plus_swap (f y) (f x) (sum_values (map f ys))
        ∙ ap (plus (f x)) (sym (sum_values-cons (f y) (map f ys))))
    | inr e ↦ rw e (sum_values-cons (f x) (map f (y ∷ ys)))
  ]

  pub sum_values-sort : (xs : List A) → sum_values (map f (sort before xs)) ≡ sum_values (map f xs)
  unfolding sort
  sum_values-sort [] = refl
  sum_values-sort (x ∷ xs) =
      sum_values-insert_sorted x (sort before xs)
      ∙ ap (plus (f x)) (sum_values-sort xs)
      ∙ sym (sum_values-cons (f x) (map f xs))
