-- ===== src/Transform/Fact.antt =====
-- packages/core/dfip_core/transform/fact.py. The columns of `FactRecord` are grouped into records
-- that it opens, so each is still reached by its own name.
use dfip_v.Prelude.{
  String, ◌≡◌, refl, ◌↔◌, Bool, true, Option, none, some, ◌&&◌, arith, eq_iff, Comparable, ◌==◌,
  string_eq, option_eq, option_beq, beq_refl,
}
use dfip_v.Prelude.Dates.{Date, DateTime, Moment, date_eq, date_beq_iff, datetime_eq}
use dfip_v.Prelude.Decimal.{Decimal, decimal_beq, decimal_beq_refl}
use dfip_v.Prelude.Int.{ℤ, int_eq}

pub record FactKey : Type 0 where
  pub client_id : String
  pub campaign_id : String
  pub variation_id_key : String
  pub day : Date

unfoldable pub fact_key_beq : FactKey → FactKey → Bool
fact_key_beq a b =
    a.client_id == b.client_id
    && (a.campaign_id == b.campaign_id
        && (a.variation_id_key == b.variation_id_key && a.day == b.day))

pub fact_key_beq_iff : (a b : FactKey) → (fact_key_beq a b ≡ true) ↔ (a ≡ b)
unfolding fact_key_beq
fact_key_beq_iff a b = ground (
  arith,
  eq_iff a.client_id b.client_id,
  eq_iff a.campaign_id b.campaign_id,
  eq_iff a.variation_id_key b.variation_id_key,
  date_beq_iff a.day b.day,
)

instance abbrev pub fact_key_eq : Comparable FactKey
fact_key_eq = record { equal = fact_key_beq; equal_iff = fact_key_beq_iff }

pub record Descriptors : Type 0 where
  pub campaign_name : Option String
  pub variation_name : Option String
  pub channel : Option String
  pub type_of_campaign : Option String
  pub start_date : Option DateTime
  pub template_name_whatsapp : Option String

pub record Integers : Type 0 where
  pub sent : Option ℤ
  pub failed : Option ℤ
  pub delivered : Option ℤ
  pub unique_impressions : Option ℤ
  pub unique_clicks : Option ℤ
  pub unique_conversions : Option ℤ
  pub unique_impression_through_conversions : Option ℤ
  pub unique_click_through_conversions : Option ℤ

pub record Decimals : Type 0 where
  pub revenue_inr : Option Decimal
  pub impression_through_revenue_inr : Option Decimal
  pub click_through_revenue_inr : Option Decimal

pub record Labels : Type 0 where
  pub filter_logic_1 : Option String
  pub filter_logic_2 : Option String
  pub template_status : Option String
  pub amc_status_filter_logic_3 : Option String
  pub amc_device_category_filter_logic_4 : Option String
  pub amc_product_cat_filter_logic_5 : Option String
  pub manual_or_automated : Option String
  pub filter_logic_1_group : Option String
  pub label_match_status : Option String
  pub template_match_status : Option String

pub record Derived : Type 0 where
  pub month_start : Option Date
  pub month_label : Option String
  pub total_cost : Option ℤ
  pub hhh : Option String

pub record Lineage : Type 0 where
  pub rate_card_rule_id : Option String
  pub processing_run_id : Option String
  pub batch_id : Option String
  pub campaign_label_version_id : Option String
  pub template_label_version_id : Option String
  pub rate_card_version_id : Option String
  pub label_group_version_id : Option String

pub record FactRecord : Type 0 where
  pub client_id : String
  pub campaign_id : String
  pub variation_id : Option String
  pub variation_id_key : String
  pub day : Date
  pub descriptors : Descriptors
  pub open descriptors use *
  pub integers : Integers
  pub open integers use *
  pub decimals : Decimals
  pub open decimals use *
  pub labels : Labels
  pub open labels use *
  pub derived : Derived
  pub open derived use *
  pub lineage : Lineage
  pub open lineage use *
  pub first_seen_at : Moment
  pub last_seen_at : Moment

-- the property `FactRecord.key`
abbrev pub key : FactRecord → FactKey
key f = record {
  client_id = f.client_id;
  campaign_id = f.campaign_id;
  variation_id_key = f.variation_id_key;
  day = f.day;
}

same_descriptors : FactRecord → FactRecord → Bool
same_descriptors a b =
    a.campaign_name == b.campaign_name
    && (a.variation_name == b.variation_name
        && (a.channel == b.channel
            && (a.type_of_campaign == b.type_of_campaign
                && (a.start_date == b.start_date
                    && a.template_name_whatsapp == b.template_name_whatsapp))))

same_integers : FactRecord → FactRecord → Bool
same_integers a b =
    a.sent == b.sent
    && (a.failed == b.failed
        && (a.delivered == b.delivered
            && (a.unique_impressions == b.unique_impressions
                && (a.unique_clicks == b.unique_clicks
                    && (a.unique_conversions == b.unique_conversions
                        && (a.unique_impression_through_conversions
                              == b.unique_impression_through_conversions
                            && a.unique_click_through_conversions
                              == b.unique_click_through_conversions))))))

same_decimals : FactRecord → FactRecord → Bool
same_decimals a b =
    option_beq decimal_beq a.revenue_inr b.revenue_inr
    && (option_beq decimal_beq a.impression_through_revenue_inr b.impression_through_revenue_inr
        && option_beq decimal_beq a.click_through_revenue_inr b.click_through_revenue_inr)

same_labels : FactRecord → FactRecord → Bool
same_labels a b =
    a.filter_logic_1 == b.filter_logic_1
    && (a.filter_logic_2 == b.filter_logic_2
        && (a.template_status == b.template_status
            && (a.amc_status_filter_logic_3 == b.amc_status_filter_logic_3
                && (a.amc_device_category_filter_logic_4 == b.amc_device_category_filter_logic_4
                    && (a.amc_product_cat_filter_logic_5 == b.amc_product_cat_filter_logic_5
                        && (a.manual_or_automated == b.manual_or_automated
                            && (a.filter_logic_1_group == b.filter_logic_1_group
                                && (a.label_match_status == b.label_match_status
                                    && a.template_match_status == b.template_match_status))))))))

same_derived : FactRecord → FactRecord → Bool
same_derived a b =
    a.month_start == b.month_start
    && (a.month_label == b.month_label && (a.total_cost == b.total_cost && a.hhh == b.hhh))

same_versions : FactRecord → FactRecord → Bool
same_versions a b =
    a.rate_card_rule_id == b.rate_card_rule_id
    && (a.batch_id == b.batch_id
        && (a.campaign_label_version_id == b.campaign_label_version_id
            && (a.template_label_version_id == b.template_label_version_id
                && (a.rate_card_version_id == b.rate_card_version_id
                    && a.label_group_version_id == b.label_group_version_id))))

-- `a.business_values() == b.business_values()`: every column but the two observation times
unfoldable pub same_business_values : FactRecord → FactRecord → Bool
unfolding same_descriptors same_integers same_decimals same_labels same_derived same_versions
same_business_values a b =
    fact_key_beq (key a) (key b)
    && (a.variation_id == b.variation_id
        && (a.processing_run_id == b.processing_run_id
            && (same_descriptors a b
                && (same_integers a b
                    && (same_decimals a b
                        && (same_labels a b && (same_derived a b && same_versions a b)))))))

abbrev pub carry_first_seen : FactRecord → FactRecord → FactRecord
carry_first_seen f previous = record f { first_seen_at = previous.first_seen_at }

pub same_business_values-run :
    (a b : FactRecord)
    → same_business_values a b ≡ true
    → (a.processing_run_id == b.processing_run_id) ≡ true
unfolding same_business_values
same_business_values-run a b h = ground arith

option_beq_refl {ℓ} :
    {A : Type ℓ} (f : A → A → Bool)
    → ((a : A) → f a a ≡ true)
    → (o : Option A) → option_beq f o o ≡ true
option_beq_refl f r none = ground arith
option_beq_refl f r (some a) = r a

text_refl : (s : String) → (s == s) ≡ true
text_refl s = beq_refl s

option_text_refl : (o : Option String) → (o == o) ≡ true
option_text_refl o = beq_refl o

option_int_refl : (o : Option ℤ) → (o == o) ≡ true
option_int_refl o = beq_refl o

option_date_refl : (o : Option Date) → (o == o) ≡ true
option_date_refl o = beq_refl o

option_datetime_refl : (o : Option DateTime) → (o == o) ≡ true
option_datetime_refl o = beq_refl o

option_decimal_refl : (o : Option Decimal) → option_beq decimal_beq o o ≡ true
option_decimal_refl o = option_beq_refl decimal_beq decimal_beq_refl o

key_refl : (k : FactKey) → fact_key_beq k k ≡ true
key_refl k = (fact_key_beq_iff k k).1 refl

ruleset refls = (
  text_refl, option_text_refl, option_int_refl, option_date_refl, option_datetime_refl,
  option_decimal_refl, key_refl,
)

-- The comparison sees no difference between a record and the same record observed at other times.
pub same_business_values-observed :
    (f : FactRecord) (first last : Moment)
    → same_business_values f (record f { first_seen_at = first; last_seen_at = last }) ≡ true
unfolding same_business_values same_descriptors same_integers same_decimals same_labels same_derived
    same_versions
same_business_values-observed f first last = simp refls

pub same_business_values-carry :
    (p r q : FactRecord) → same_business_values p (carry_first_seen r q) ≡ same_business_values p r
unfolding same_business_values same_descriptors same_integers same_decimals same_labels same_derived
    same_versions
same_business_values-carry p r q = refl

pub carry-same_business_values :
    (p q r : FactRecord) → same_business_values (carry_first_seen p q) r ≡ same_business_values p r
unfolding same_business_values same_descriptors same_integers same_decimals same_labels same_derived
    same_versions
carry-same_business_values p q r = refl
