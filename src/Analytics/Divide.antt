-- ===== src/Analytics/Divide.antt =====
-- packages/analytics/dfip_analytics/divide.py: arithmetic where a missing operand gives a missing
-- result. Both kinds of operand are decimals here; a scale is its number of places.
use dfip_v.Prelude.{ℕ, Option, none, some, if◌then◌else◌}
use dfip_v.Prelude.Decimal.{Decimal, add, subtract, quantize, divide_to, is_zero}

abbrev pub money_scale : ℕ
money_scale = 4

abbrev pub rate_scale : ℕ
rate_scale = 6

unfoldable pub safe_divide : Option Decimal → Option Decimal → ℕ → Option Decimal
safe_divide none denominator scale = none
safe_divide (some num) none scale = none
safe_divide (some num) (some den) scale =
    if is_zero den then none else some (divide_to scale num den)

abbrev pub scaled : Option ℕ → Decimal → Decimal
scaled none d = d
scaled (some scale) d = quantize scale d

unfoldable pub safe_add : Option Decimal → Option Decimal → Option ℕ → Option Decimal
safe_add none right scale = none
safe_add (some a) none scale = none
safe_add (some a) (some b) scale = some (scaled scale (add a b))

unfoldable pub safe_subtract : Option Decimal → Option Decimal → Option ℕ → Option Decimal
safe_subtract none right scale = none
safe_subtract (some a) none scale = none
safe_subtract (some a) (some b) scale = some (scaled scale (subtract a b))
