-- ===== src/Transform/Derive.antt =====
-- packages/core/dfip_core/transform/derive.py: the scalars that the spreadsheet derives.
use dfip_v.Prelude.{ℕ, ◌/◌, ◌%◌, String, ◌≡◌, refl, Option, none, some, zero, suc}
use Prim.Native.String.{◌++◌}
use dfip_v.Prelude.Dates.{Date, DateTime}

month_abbreviation : ℕ → String
month_abbreviation (suc zero) = "Jan"
month_abbreviation (suc (suc zero)) = "Feb"
month_abbreviation (suc (suc (suc zero))) = "Mar"
month_abbreviation (suc (suc (suc (suc zero)))) = "Apr"
month_abbreviation (suc (suc (suc (suc (suc zero))))) = "May"
month_abbreviation (suc (suc (suc (suc (suc (suc zero)))))) = "Jun"
month_abbreviation (suc (suc (suc (suc (suc (suc (suc zero))))))) = "Jul"
month_abbreviation (suc (suc (suc (suc (suc (suc (suc (suc zero)))))))) = "Aug"
month_abbreviation (suc (suc (suc (suc (suc (suc (suc (suc (suc zero))))))))) = "Sep"
month_abbreviation (suc (suc (suc (suc (suc (suc (suc (suc (suc (suc zero)))))))))) = "Oct"
month_abbreviation (suc (suc (suc (suc (suc (suc (suc (suc (suc (suc (suc zero))))))))))) = "Nov"
month_abbreviation _ = "Dec"

digit : ℕ → String
digit zero = "0"
digit (suc zero) = "1"
digit (suc (suc zero)) = "2"
digit (suc (suc (suc zero))) = "3"
digit (suc (suc (suc (suc zero)))) = "4"
digit (suc (suc (suc (suc (suc zero))))) = "5"
digit (suc (suc (suc (suc (suc (suc zero)))))) = "6"
digit (suc (suc (suc (suc (suc (suc (suc zero))))))) = "7"
digit (suc (suc (suc (suc (suc (suc (suc (suc zero)))))))) = "8"
digit _ = "9"

-- `f"{n:02d}"` below 100
two_digits : ℕ → String
unfolding digit
two_digits n = digit (n / 10 % 10) ++ digit (n % 10)

-- `TEXT(Day, "MMM-YY")`; the month of a `date` is 1 to 12
unfoldable pub month_label : Date → String
unfolding month_abbreviation two_digits
month_label d = month_abbreviation d.month ++ "-" ++ two_digits (d.year % 100)

unfoldable pub month_start : Date → Date
month_start d = record { year = d.year; month = d.month; day = 1 }

unfoldable pub hhh : Option DateTime → String
unfolding two_digits
hhh none = "00"
hhh (some start_date) = two_digits start_date.hour

unfoldable pub variation_id_key : Option String → String
variation_id_key none = ""
variation_id_key (some variation_id) = variation_id

month_label_runs : month_label (record { year = 2025; month = 4; day = 1 }) ≡ "Apr-25"
unfolding month_label
month_label_runs = refl
