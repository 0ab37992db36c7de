-- ===== src/Transform/Extract/Numbers.antt =====
-- The count that is read from a cell is the number that the cell shows.
use native.Mathlib.Nat.{div-add-mod', add-zero, zero-add}
use dfip_v.Prelude.{
  ◌≡◌, refl, sym, ap, ◌∙◌, ℕ, zero, suc, ◌+◌, ◌*◌, ◌/◌, ◌%◌, ◌^◌, Bool-cases, inl, inr, Option,
  none, some, ◌==◌, string_eq, nat_beq, nat_beq_iff, arith,
}
use mathlib.Core.Option.{some-injective}
use dfip_v.Prelude.Decimal.{Decimal}
use dfip_v.Prelude.Int.{ℤ, pos, negsuc, neg, scale, on_magnitude, pos_part, neg_part}
use dfip_v.Prelude.Result.{Result, ok, err}
use dfip_v.Transform.Extract.{
  Cell, ReasonCode, missing, text, boolean, integer, float, date_time, date, other, parse_integer,
  parse_decimal, integer_of, decimal_of, whole_or, integral, strict_number,
}

divides : (m k : ℕ) → m % k ≡ 0 → m / k * k ≡ m
divides m k h = omega (arith, div-add-mod' m k, h)

scale-neg : (m k : ℕ) → scale (neg m) k ≡ neg (m * k)
unfolding scale
scale-neg zero k = ground arith
scale-neg (suc m) k = refl

exact-magnitude :
    (k : ℕ) (c : ℤ) → (pos_part c + neg_part c) % k ≡ 0 → scale (on_magnitude (λ m. m / k) c) k ≡ c
unfolding scale on_magnitude
exact-magnitude k (pos n) h = ap pos (divides n k (ap (λ m. m % k) (sym (add-zero n)) ∙ h))
exact-magnitude k (negsuc n) h =
    scale-neg (suc n / k) k
    ∙ ap neg (divides (suc n) k (ap (λ m. m % k) (sym (zero-add (suc n))) ∙ h))

integral-exact :
    (d : Decimal) (n : ℤ) → integral d ≡ some n → scale n (10 ^ d.places) ≡ d.coefficient
unfolding integral
integral-exact d n h =
    elim (Bool-cases
      (nat_beq ((pos_part d.coefficient + neg_part d.coefficient) % 10 ^ d.places) 0)) [
        | inl e ↦
            let h' : some (on_magnitude (λ m. m / 10 ^ d.places) d.coefficient) ≡ some n =
              rw e at h in
            ap (λ x. scale x (10 ^ d.places)) (sym (some-injective _ _ h'))
            ∙ exact-magnitude (10 ^ d.places) d.coefficient ((nat_beq_iff _ 0).0 e)
        | inr e ↦ let h' = rw e at h in absurd cc
      ]

-- the reader of counts and the reader of amounts see the same number in a text
abbrev pub SameNumber : Result ReasonCode (Option ℤ) → Result ReasonCode (Option Decimal) → Type 0
SameNumber (ok (some n)) (ok (some d)) = scale n (10 ^ d.places) ≡ d.coefficient
SameNumber (ok none) (ok none) = Unit
SameNumber (err e) _ = Unit
SameNumber _ _ = ⊥

whole_or-SameNumber :
    (d : Decimal) (o : Option ℤ) → integral d ≡ o → SameNumber (whole_or o) (ok (some d))
unfolding whole_or
whole_or-SameNumber d none h = tt
whole_or-SameNumber d (some n) h = integral-exact d n h

integer_of-SameNumber : (o : Option Decimal) → SameNumber (integer_of o) (decimal_of o)
unfolding integer_of decimal_of
integer_of-SameNumber none = tt
integer_of-SameNumber (some d) = whole_or-SameNumber d (integral d) refl

-- the cells that are no floats, whose two readings the reader of workbooks fixes
abbrev pub IsExact : Cell → Type 0
IsExact (float whole shown) = ⊥
IsExact c = Unit

-- Wherever a cell that is no float is accepted as a count, the same cell read as an amount is accepted
-- as well and has exactly the same value, whatever its sign, its leading zeros and the zeros behind
-- its point; a blank is blank for both.
pub parse_integer_lem : (c : Cell) → IsExact c → SameNumber (parse_integer c) (parse_decimal c)
unfolding parse_integer parse_decimal scale
parse_integer_lem missing h = tt
parse_integer_lem (text s) h = elim (Bool-cases (s == "")) [
  | inl e ↦ rw e tt
  | inr e ↦ rw e (integer_of-SameNumber (strict_number s))
]
parse_integer_lem (boolean b) h = tt
parse_integer_lem (integer (pos n)) h = let e : n * 10 ^ 0 ≡ n = omega arith in ap pos e
parse_integer_lem (integer (negsuc n)) h = let e : suc n * 10 ^ 0 ≡ suc n = omega arith in ap neg e
parse_integer_lem (float whole shown) h = absurd h
parse_integer_lem (date_time d) h = tt
parse_integer_lem (date d) h = tt
parse_integer_lem other h = tt
