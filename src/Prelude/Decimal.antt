-- ===== src/Prelude/Decimal.antt =====
-- `decimal.Decimal` as an integer coefficient over a power of ten. `==` compares values, so 1.0 and
-- 1.00 are equal. Python rounds results to 28 digits; here they are exact.
pub mod Sums
use Prim.Native.Nat.{ℕ, suc, ◌+◌, ◌-◌, ◌*◌, ◌/◌, ◌^◌, max}
use mathlib.Core.Path.{◌≡◌}
use mathlib.Core.Bool.{Bool, true, false, not}
use mathlib.Core.Option.{Option, none, some}
use native.Mathlib.Omega.{arith}
use dfip_v.Prelude.Tests.{if◌then◌else◌}
use dfip_v.Prelude.Int.{
  ℤ, pos, negsuc, neg, int_beq, scale, pos_part, neg_part, ◌+ℤ◌, on_magnitude, negate, is_negative,
}

pub record Decimal : Type 0 where
  pub coefficient : ℤ
  pub places : ℕ

unfoldable pub decimal_beq : Decimal → Decimal → Bool
decimal_beq a b =
    int_beq (scale a.coefficient (10 ^ b.places)) (scale b.coefficient (10 ^ a.places))

pub int_beq_refl : (a : ℤ) → int_beq a a ≡ true
int_beq_refl a = ground arith

pub decimal_beq_refl : (a : Decimal) → decimal_beq a a ≡ true
unfolding decimal_beq
decimal_beq_refl a = int_beq_refl (scale a.coefficient (10 ^ a.places))

abbrev pub zero_decimal : Decimal
zero_decimal = record { coefficient = pos 0; places = 0 }

-- the coefficient of the same value at `p` places, where `p` is at least its own
unfoldable pub at_places : ℕ → Decimal → ℤ
at_places p a = scale a.coefficient (10 ^ (p - a.places))

-- `a + b` keeps the places of the operand that has more
unfoldable pub add : Decimal → Decimal → Decimal
add a b =
    let p = max a.places b.places in
    record { coefficient = at_places p a +ℤ at_places p b; places = p }

unfoldable pub minus : Decimal → Decimal
minus a = record a { coefficient = negate a.coefficient }

unfoldable pub subtract : Decimal → Decimal → Decimal
subtract a b = add a (minus b)

-- the nearest integer to n / d, of two the larger: ROUND_HALF_UP on a magnitude
unfoldable pub half_up : ℕ → ℕ → ℕ
half_up n d = (2 * n + d) / (2 * d)

-- `a.quantize(Decimal(10) ** -p, rounding=ROUND_HALF_UP)`
unfoldable pub quantize : ℕ → Decimal → Decimal
quantize p a = record {
  coefficient = on_magnitude (λ m. half_up (m * 10 ^ p) (10 ^ a.places)) a.coefficient;
  places = p;
}

abbrev pub magnitude : ℤ → ℕ
magnitude a = pos_part a + neg_part a

abbrev pub signed : Bool → ℕ → ℤ
signed true n = neg n
signed false n = pos n

abbrev pub differ : Bool → Bool → Bool
differ true b = not b
differ false b = b

-- `(a / b).quantize(...)` for b other than zero
unfoldable pub divide_to : ℕ → Decimal → Decimal → Decimal
divide_to p a b = record {
  coefficient = signed (differ (is_negative a.coefficient) (is_negative b.coefficient)) (
      half_up (magnitude a.coefficient * 10 ^ b.places * 10 ^ p)
        (magnitude b.coefficient * 10 ^ a.places));
  places = p;
}

-- `a == 0` and `a < 0`
abbrev pub is_zero : Decimal → Bool
is_zero a = int_beq a.coefficient (pos 0)

-- an `int` as a `Decimal`
abbrev pub of_int : ℤ → Decimal
of_int n = record { coefficient = n; places = 0 }
