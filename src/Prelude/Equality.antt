-- ===== src/Prelude/Equality.antt =====
-- Python's `==` on the types that the program compares, as an instance argument.
use Prim.Native.Nat.{ℕ}
use Prim.Native.String.{String}
use mathlib.Core.Path.{◌≡◌, refl}
use mathlib.Core.Logic.{◌↔◌, ◌≢◌, inl, inr}
use mathlib.Core.Bool.{Bool, true, false, ◌&&◌}
use mathlib.Core.Option.{Option, none, some}
use native.Mathlib.Omega.{arith}
use text.Mathlib.Text.{◌==◌ as str_beq}
use text.Mathlib.TextEquality.{eq_iff}
use dfip_v.Prelude.Tests.{nat_beq, Bool-cases}

infix 50 ◌==◌
-- the types whose values `==` compares: the test, and that it tells whether two values are one
pub record Comparable {ℓ} (A : Type ℓ) : Type ℓ where
  pub equal : (a b : A) → Bool
  pub equal_iff : (x y : A) → (equal x y ≡ true) ↔ (x ≡ y)

instance abbrev pub string_eq : Comparable String
string_eq = record { equal_iff = eq_iff; equal = str_beq }

pub nat_beq_iff : (a b : ℕ) → (nat_beq a b ≡ true) ↔ (a ≡ b)
nat_beq_iff a b = ground arith

instance abbrev pub nat_eq : Comparable ℕ
nat_eq = record { equal_iff = nat_beq_iff; equal = nat_beq }

-- `a == b`
abbrev pub ◌==◌ {κ} : {B : Type κ} ⦃class : Comparable B⦄ (x y : B) → Bool
◌==◌ ⦃class⦄ x y = class.equal x y

abbrev pub option_beq {ℓ} : {A : Type ℓ} → (A → A → Bool) → Option A → Option A → Bool
option_beq f none none = true
option_beq f (some a) (some b) = f a b
option_beq f _ _ = false

pub option_beq_iff {ℓ} :
    {A : Type ℓ} (e : Comparable A) (a b : Option A) → (option_beq e.equal a b ≡ true) ↔ (a ≡ b)
option_beq_iff e none none = ground arith
option_beq_iff e (some a) (some b) = ground (arith, e.equal_iff a b)
option_beq_iff e none (some b) = ground arith
option_beq_iff e (some a) none = ground arith

instance abbrev pub option_eq {ℓ} : {A : Type ℓ} ⦃e : Comparable A⦄ → Comparable (Option A)
option_eq ⦃e⦄ = record { equal = option_beq e.equal; equal_iff = option_beq_iff e }

abbrev pub pair_beq {ℓ κ} :
    {A : Type ℓ} {B : Type κ} → Comparable A → Comparable B → A × B → A × B → Bool
pair_beq e f (a, b) (c, d) = e.equal a c && f.equal b d

pub pair_beq_iff {ℓ κ} :
    {A : Type ℓ} {B : Type κ} (e : Comparable A) (f : Comparable B) (p q : A × B)
    → (pair_beq e f p q ≡ true) ↔ (p ≡ q)
pair_beq_iff e f (a, b) (c, d) = ground (arith, e.equal_iff a c, f.equal_iff b d)

instance abbrev pub pair_eq {ℓ κ} :
    {A : Type ℓ} {B : Type κ} ⦃e : Comparable A⦄ ⦃f : Comparable B⦄ → Comparable (A × B)
pair_eq ⦃e⦄ ⦃f⦄ = record { equal = pair_beq e f; equal_iff = pair_beq_iff e f }

module _ {ℓ} {A : Type ℓ} ⦃e : Comparable A⦄ where
  pub beq_refl : (a : A) → (a == a) ≡ true
  beq_refl a = (e.equal_iff a a).1 refl

  pub beq_sym : (a b : A) → (a == b) ≡ (b == a)
  beq_sym a b = ground (arith, e.equal_iff a b, e.equal_iff b a)

pub beq_ne {ℓ} : {A : Type ℓ} (e : Comparable A) (a b : A) → a ≢ b → e.equal a b ≡ false
beq_ne e a b ne = elim (Bool-cases (e.equal a b)) [
  | inl t ↦ absurd (ne ((e.equal_iff a b).0 t))
  | inr f ↦ f
]

pub ne_of_beq {ℓ} : {A : Type ℓ} (e : Comparable A) (a b : A) → e.equal a b ≡ false → a ≢ b
ne_of_beq e a b f same = ground (arith, (e.equal_iff a b).1 same, f)
