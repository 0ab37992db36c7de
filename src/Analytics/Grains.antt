-- ===== src/Analytics/Grains.antt =====
-- packages/analytics/dfip_analytics/grains.py: what facts are grouped by. A grouping tuple is a list of
-- texts and dates.
use Prim.Native.Char.{code}
use dfip_v.Prelude.{
  String, ◌≡◌, ◌↔◌, Bool, true, false, ◌&&◌, ◌||◌, Option, none, some, List, [], ◌∷◌, any, arith,
  ◌==◌, string_eq, eq_iff, Comparable, if◌then◌else◌, nat_beq,
}
use dfip_v.Prelude.Dates.{Date, date_beq, date_beq_iff, date_ltb}
use dfip_v.Prelude.Result.{Result, ok, err}
use dfip_v.Prelude.Text.{strip, lower, str_ltb}
use dfip_v.Transform.Fact.{FactRecord}

pub data Grain : Type 0 where
  overall client date campaign variation client_date client_campaign_date : Grain
  client_campaign_variation_date : Grain

pub data GrainError : Type 0 where
  product_grain unknown_grain : GrainError

unfoldable pub drill_path : List Grain
drill_path = client ∷ date ∷ campaign ∷ variation ∷ client_campaign_variation_date ∷ []

unfoldable pub unsupported_grain_names : List String
unsupported_grain_names =
    "product" ∷ "asin" ∷ "product_asin" ∷ "client_product_date" ∷ "client_asin_date" ∷ []

-- `s.replace("-", "_").replace(" ", "_")`
unfoldable pub underscored : String → String
underscored String.[] = ""
underscored (String.◌∷◌ c s) =
    String.◌∷◌ (if nat_beq (code c) 45 || nat_beq (code c) 32 then "_" else c) (underscored s)

-- `Grain(key)`
unfoldable pub grain_named : String → Option Grain
grain_named key =
    if key == "overall"
    then some overall
    else if key == "client"
    then some client
    else if key == "date"
    then some date
    else if key == "campaign"
    then some campaign
    else if key == "variation"
    then some variation
    else if key == "client_date"
    then some client_date
    else if key == "client_campaign_date"
    then some client_campaign_date
    else if key == "client_campaign_variation_date"
    then some client_campaign_variation_date
    else none

abbrev pub or_unknown : Option Grain → Result GrainError Grain
or_unknown none = err unknown_grain
or_unknown (some grain) = ok grain

unfoldable pub parse_grain : String → Result GrainError Grain
unfolding unsupported_grain_names underscored grain_named any
parse_grain name =
    let key = underscored (lower (strip name)) in
    if any (λ n. n == key) unsupported_grain_names
    then err product_grain
    else or_unknown (grain_named key)

pub data KeyPart : Type 0 where
  text : String → KeyPart
  on_day : Date → KeyPart

abbrev pub part_beq : KeyPart → KeyPart → Bool
part_beq (text a) (text b) = a == b
part_beq (on_day a) (on_day b) = date_beq a b
part_beq _ _ = false

abbrev pub GrainKey : Type 0
GrainKey = List KeyPart

unfoldable pub grain_key_beq : GrainKey → GrainKey → Bool
grain_key_beq [] [] = true
grain_key_beq (p ∷ ps) (q ∷ qs) = part_beq p q && grain_key_beq ps qs
grain_key_beq _ _ = false

pub part_beq_iff : (p q : KeyPart) → (part_beq p q ≡ true) ↔ (p ≡ q)
part_beq_iff (text a) (text b) = ground (arith, eq_iff a b)
part_beq_iff (on_day a) (on_day b) = ground (arith, date_beq_iff a b)
part_beq_iff (text a) (on_day b) = ground arith
part_beq_iff (on_day a) (text b) = ground arith

pub grain_key_beq_iff : (k j : GrainKey) → (grain_key_beq k j ≡ true) ↔ (k ≡ j)
unfolding grain_key_beq
grain_key_beq_iff [] [] = ground arith
grain_key_beq_iff (p ∷ ps) (q ∷ qs) = ground (arith, part_beq_iff p q, grain_key_beq_iff ps qs)
grain_key_beq_iff [] (q ∷ qs) = ground arith
grain_key_beq_iff (p ∷ ps) [] = ground arith

instance abbrev pub grain_key_eq : Comparable GrainKey
grain_key_eq = record { equal = grain_key_beq; equal_iff = grain_key_beq_iff }

unfoldable pub grain_key : FactRecord → Grain → GrainKey
grain_key f overall = []
grain_key f client = text f.client_id ∷ []
grain_key f date = on_day f.day ∷ []
grain_key f campaign = text f.client_id ∷ text f.campaign_id ∷ []
grain_key f variation = text f.client_id ∷ text f.campaign_id ∷ text f.variation_id_key ∷ []
grain_key f client_date = text f.client_id ∷ on_day f.day ∷ []
grain_key f client_campaign_date = text f.client_id ∷ text f.campaign_id ∷ on_day f.day ∷ []
grain_key f client_campaign_variation_date =
    text f.client_id ∷ text f.campaign_id ∷ text f.variation_id_key ∷ on_day f.day ∷ []

abbrev pub part_ltb : KeyPart → KeyPart → Bool
part_ltb (text a) (text b) = str_ltb a b
part_ltb (on_day a) (on_day b) = date_ltb a b
part_ltb _ _ = false

-- `tuple(_sort_part(part) for part in item)` of the first comes strictly before that of the second. No
-- part is missing, and parts at one place have one type.
unfoldable pub key_before : GrainKey → GrainKey → Bool
key_before [] [] = false
key_before [] (q ∷ qs) = true
key_before (p ∷ ps) [] = false
key_before (p ∷ ps) (q ∷ qs) = part_ltb p q || (part_beq p q && key_before ps qs)
