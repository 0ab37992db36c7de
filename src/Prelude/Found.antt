-- ===== src/Prelude/Found.antt =====
-- Whether some element of a list passes a test: Python's `any`.
use mathlib.Core.Path.{◌≡◌, refl}
use mathlib.Core.Bool.{Bool, true, false, ◌&&◌}
use mathlib.Core.List.{List, [], ◌∷◌}
use native.Mathlib.Omega.{arith}
use mathlib.Core.Logic.{inl, inr}
use dfip_v.Prelude.Tests.{Bool-cases}
use dfip_v.Prelude.Lists.{All, any, filter}

-- No element passes the test exactly if each fails it.
pub any-false {ℓ} :
    {A : Type ℓ} (p : A → Bool) (xs : List A) → All (λ x. p x ≡ false) xs → any p xs ≡ false
unfolding any
any-false p [] h = refl
any-false p (x ∷ xs) h = rw h.0 (any-false p xs h.1)

pub of_any-false {ℓ} :
    {A : Type ℓ} (p : A → Bool) (xs : List A) → any p xs ≡ false → All (λ x. p x ≡ false) xs
unfolding any
of_any-false p [] h = tt
of_any-false p (x ∷ xs) h = (ground arith, of_any-false p xs (ground arith))

pub any-filter_kept {ℓ} :
    {A : Type ℓ} (P q : A → Bool)
    → ((x : A) → P x ≡ true → q x ≡ true)
    → (xs : List A) → any P (filter q xs) ≡ any P xs
unfolding any filter
any-filter_kept P q imp [] = refl
any-filter_kept P q imp (x ∷ xs) = ground (arith, imp x, any-filter_kept P q imp xs)

-- One that passes the test can be named, with what holds of every element.
pub any-found {ℓ κ} :
    {A : Type ℓ} (p : A → Bool) (Q : A → Type κ) (xs : List A)
    → any p xs ≡ true
    → All Q xs
    → (x : A) × (p x ≡ true) × Q x
unfolding any
any-found p Q [] h q = absurd cc
any-found p Q (x ∷ xs) h q = elim (Bool-cases (p x)) [
  | inl e ↦ (x, e, q.0)
  | inr e ↦ any-found p Q xs (ground (arith, h, e)) q.1
]

-- What is found among those of a test is found among those that the comprehension keeps.
pub any-filter_of {ℓ} :
    {A : Type ℓ} (g P : A → Bool) (xs : List A)
    → any (λ x. g x && P x) xs ≡ true
    → any P (filter g xs) ≡ true
unfolding any filter
any-filter_of g P [] h = absurd cc
any-filter_of g P (x ∷ xs) h = ground (arith, h, any-filter_of g P xs)
