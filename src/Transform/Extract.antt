-- ===== src/Transform/Extract.antt =====
-- packages/core/dfip_core/transform/extract.py. A cell is what the workbook reader puts into the raw
-- dictionary. A float is seen through its two observers, `int(value)` where it is whole and
-- `Decimal(str(value))`. The digits of `\d` are the ASCII ones. `str` of a value that is no text, and
-- `datetime.fromisoformat`, are the parameters `str_of` and `fromisoformat`. A rejection carries its
-- reason code; the sentence that goes with it is left out.
pub mod Numbers
use Prim.Native.Char.{code}
use dfip_v.Prelude.{
  ℕ, zero, suc, ◌+◌, ◌-◌, ◌*◌, ◌/◌, ◌%◌, ◌^◌, String, Bool, true, false, Option, none, some, ◌&&◌,
  ◌==◌, string_eq, nat_beq, leb, get_or, if◌then◌else◌,
}
use dfip_v.Prelude.Dates.{Date, DateTime}
use dfip_v.Prelude.Decimal.{Decimal}
use dfip_v.Prelude.Dict.{Dict, lookup}
use dfip_v.Prelude.Int.{ℤ, pos, negsuc, neg, on_magnitude, pos_part, neg_part}
use dfip_v.Prelude.Result.{Result, ok, err, ◌>>=◌}
use dfip_v.Transform.Fact.{Integers, Decimals, Descriptors}

pub data Cell : Type 0 where
  missing : Cell
  text : String → Cell
  boolean : Bool → Cell
  integer : ℤ → Cell
  float : Option ℤ → Decimal → Cell
  date_time : DateTime → Cell
  date : Date → Cell
  other : Cell

pub data ReasonCode : Type 0 where
  missing_campaign_id missing_day invalid_day invalid_numeric no_config_version : ReasonCode
  duplicate_grain_key : ReasonCode

abbrev pub Raw : Type 0
Raw = Dict String Cell

pub record SourceFields : Type 0 where
  pub campaign_id : String
  pub day : Date
  pub variation_id : Option String
  pub descriptors : Descriptors
  pub integers : Integers
  pub decimals : Decimals

-- a run of digits: how many, the number that they continue, and the rest
record Digits : Type 0 where
  count : ℕ
  value : ℕ
  rest : String

digits : ℕ → ℕ → String → Digits
digits count value String.[] = record { count = count; value = value; rest = "" }
digits count value (String.◌∷◌ c s) =
    let d = code c in
    if leb b'0' d && leb d b'9'
    then digits (count + 1) (value * 10 + (d - b'0')) s
    else record { count = count; value = value; rest = String.◌∷◌ c s }

-- `$` holds at the end and before a last newline
at_end : String → Bool
at_end s = elim (s == "") [ true ↦ true | false ↦ s == "\n" ]

after_point : ℕ → String → Option Decimal
unfolding digits at_end
after_point value s =
    let d = digits 0 value s in
    if nat_beq d.count 0
    then none
    else if at_end d.rest
    then some (record { coefficient = pos d.value; places = d.count })
    else none

fraction : ℕ → String → Option Decimal
unfolding after_point at_end
fraction value (String.◌∷◌ c s) =
    if nat_beq (code c) b'.'
    then after_point value s
    else if at_end (String.◌∷◌ c s)
    then some (record { coefficient = pos value; places = 0 })
    else none
fraction value String.[] = some (record { coefficient = pos value; places = 0 })

unsigned : String → Option Decimal
unfolding digits fraction
unsigned s = let d = digits 0 0 s in if nat_beq d.count 0 then none else fraction d.value d.rest

negated : Option Decimal → Option Decimal
negated none = none
negated (some d) = some (record d { coefficient = neg (pos_part d.coefficient) })

-- `Decimal(value)` of a text that matches `^-?\d+(\.\d+)?$`
unfoldable pub strict_number : String → Option Decimal
unfolding unsigned negated
strict_number String.[] = none
strict_number (String.◌∷◌ c s) =
    if nat_beq (code c) b'-' then negated (unsigned s) else unsigned (String.◌∷◌ c s)

-- `int(number)` if `number == number.to_integral_value()`
unfoldable pub integral : Decimal → Option ℤ
unfolding on_magnitude
integral d =
    if nat_beq ((pos_part d.coefficient + neg_part d.coefficient) % 10 ^ d.places) 0
    then some (on_magnitude (λ m. m / 10 ^ d.places) d.coefficient)
    else none

whole_or : Option ℤ → Result ReasonCode (Option ℤ)
whole_or none = err invalid_numeric
whole_or (some n) = ok (some n)

integer_of : Option Decimal → Result ReasonCode (Option ℤ)
unfolding whole_or
integer_of none = err invalid_numeric
integer_of (some d) = whole_or (integral d)

unfoldable pub parse_integer : Cell → Result ReasonCode (Option ℤ)
unfolding integer_of whole_or
parse_integer missing = ok none
parse_integer (text s) = if s == "" then ok none else integer_of (strict_number s)
parse_integer (boolean b) = err invalid_numeric
parse_integer (integer n) = ok (some n)
parse_integer (float whole shown) = whole_or whole
parse_integer (date_time d) = err invalid_numeric
parse_integer (date d) = err invalid_numeric
parse_integer other = err invalid_numeric

decimal_of : Option Decimal → Result ReasonCode (Option Decimal)
decimal_of none = err invalid_numeric
decimal_of (some d) = ok (some d)

unfoldable pub parse_decimal : Cell → Result ReasonCode (Option Decimal)
unfolding decimal_of
parse_decimal missing = ok none
parse_decimal (text s) = if s == "" then ok none else decimal_of (strict_number s)
parse_decimal (boolean b) = err invalid_numeric
parse_decimal (integer n) = ok (some (record { coefficient = n; places = 0 }))
parse_decimal (float whole shown) = ok (some shown)
parse_decimal (date_time d) = err invalid_numeric
parse_decimal (date d) = err invalid_numeric
parse_decimal other = err invalid_numeric

-- `raw.get(header)`
abbrev get : Raw → String → Cell
get raw header = get_or (lookup header raw) missing

module _ (str_of : Cell → String) (fromisoformat : String → Option DateTime) where
  unfoldable pub text_of : Cell → Option String
  text_of missing = none
  text_of (text s) = some s
  text_of c = some (str_of c)

  unfoldable pub require_nonblank : Option String → Result ReasonCode String
  require_nonblank none = err missing_campaign_id
  require_nonblank (some value) = if value == "" then err missing_campaign_id else ok value

  day_of : Option DateTime → Result ReasonCode Date
  day_of none = err invalid_day
  day_of (some d) = ok d.date

  unfoldable pub parse_day : Cell → Result ReasonCode Date
  unfolding day_of
  parse_day missing = err missing_day
  parse_day (text s) = if s == "" then err missing_day else day_of (fromisoformat s)
  parse_day (date_time d) = ok d.date
  parse_day (date d) = ok d
  parse_day _ = err invalid_day

  unfoldable pub parse_start_date : Cell → Option DateTime
  parse_start_date (text s) = if s == "" then none else fromisoformat s
  parse_start_date (date_time d) = some d
  parse_start_date (date d) = some (record { date = d; hour = 0; minute = 0; second = 0 })
  parse_start_date _ = none

  integers_of : Raw → Result ReasonCode Integers
  unfolding parse_integer lookup
  integers_of raw = do
    sent ← parse_integer (get raw "Sent")
    failed ← parse_integer (get raw "Failed")
    delivered ← parse_integer (get raw "Delivered")
    unique_impressions ← parse_integer (get raw "Unique Impressions")
    unique_clicks ← parse_integer (get raw "Unique Clicks")
    unique_conversions ← parse_integer (get raw "Unique Conversions")
    through_impressions ← parse_integer (get raw "Unique Impression-Through Conversions")
    through_clicks ← parse_integer (get raw "Unique Click-Through Conversions")
    ok (record {
      sent = sent;
      failed = failed;
      delivered = delivered;
      unique_impressions = unique_impressions;
      unique_clicks = unique_clicks;
      unique_conversions = unique_conversions;
      unique_impression_through_conversions = through_impressions;
      unique_click_through_conversions = through_clicks;
    })

  decimals_of : Raw → Result ReasonCode Decimals
  unfolding parse_decimal lookup
  decimals_of raw = do
    revenue ← parse_decimal (get raw "Revenue (INR)")
    through_impressions ← parse_decimal (get raw "Impression-Through Revenue (INR)")
    through_clicks ← parse_decimal (get raw "Click-Through Revenue (INR)")
    ok (record {
      revenue_inr = revenue;
      impression_through_revenue_inr = through_impressions;
      click_through_revenue_inr = through_clicks;
    })

  unfoldable pub extract_source_fields : Raw → Result ReasonCode SourceFields
  unfolding text_of require_nonblank parse_day parse_start_date integers_of decimals_of lookup
  extract_source_fields raw = do
    campaign_id ← require_nonblank (text_of (get raw "Campaign ID"))
    day ← parse_day (get raw "Day")
    integers ← integers_of raw
    decimals ← decimals_of raw
    ok (record {
      campaign_id = campaign_id;
      day = day;
      variation_id = text_of (get raw "Variation ID");
      descriptors = record {
        campaign_name = text_of (get raw "Campaign Name");
        variation_name = text_of (get raw "Variation Name");
        channel = text_of (get raw "Channel");
        type_of_campaign = text_of (get raw "Type of Campaign");
        start_date = parse_start_date (get raw "Start Date");
        template_name_whatsapp = text_of (get raw "Template Name (WhatsApp)");
      };
      integers = integers;
      decimals = decimals;
    })
