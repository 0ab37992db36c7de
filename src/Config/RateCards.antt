-- ===== src/Config/RateCards.antt =====
-- packages/config/dfip_config/rate_cards.py, and `resolve_rate_card_rule` of resolve.py.
-- A rate is the number of millionths that its six-digit literal spells.
pub mod Expected
pub mod Members
use dfip_v.Prelude.{
  ℕ, String, Bool, true, false, Option, none, some, List, [], ◌∷◌, ◌&&◌, ◌==◌, string_eq, ltb,
  filter, if◌then◌else◌,
}
use dfip_v.Prelude.Dates.{Date}
use dfip_v.Prelude.Sort.{sort}
use dfip_v.Prelude.Text.{lower}

pub record RateCardRule : Type 0 where
  pub version_label : String
  pub priority : ℕ
  pub match_field : String
  pub match_value : String
  pub match_mode : String
  pub rate : ℕ
  pub applies_to_measure : String

abbrev pub rule : String → ℕ → String → String → ℕ → RateCardRule
rule label priority field value rate = record {
  version_label = label;
  priority = priority;
  match_field = field;
  match_value = value;
  match_mode = "equals_ci";
  rate = rate;
  applies_to_measure = "delivered";
}

unfoldable pub rate_card_rules : List RateCardRule
rate_card_rules =
    rule "rate-v1" 1 "template_status" "Utility" 120000
    ∷ rule "rate-v1" 2 "channel" "SMS" 150000
    ∷ rule "rate-v1" 3 "channel" "Email" 10000
    ∷ rule "rate-v1" 4 "channel" "RCS" 250000
    ∷ rule "rate-v1" 5 "channel" "WhatsApp" 830000
    ∷ rule "rate-v2" 1 "template_status" "Utility" 115000
    ∷ rule "rate-v2" 2 "channel" "SMS" 150000
    ∷ rule "rate-v2" 3 "channel" "Email" 10000
    ∷ rule "rate-v2" 4 "channel" "RCS" 250000
    ∷ rule "rate-v2" 5 "channel" "WhatsApp" 785000
    ∷ []

abbrev pub Window : Type 0
Window = String × Option Date × Option Date

unfoldable pub rate_card_versions : List Window
rate_card_versions =
    (
      "rate-v1",
      some (record { year = 2025; month = 4; day = 1 }),
      some (record { year = 2025; month = 8; day = 1 }),
    )
    ∷ ("rate-v2", some (record { year = 2025; month = 8; day = 1 }), none)
    ∷ []

-- `None` is `RateRuleResolution(False, None)`, and a rule is `RateRuleResolution(True, rule)`.
abbrev pub RateRuleResolution : Type 0
RateRuleResolution = Option RateCardRule

rule_applies : Option String → Option String → RateCardRule → Bool
rule_applies template_status channel r =
    elim (if r.match_field == "template_status" then template_status else channel) [
      | none ↦ false
      | some candidate ↦ r.match_mode == "equals_ci" && lower candidate == lower r.match_value
    ]

first_rule : Option String → Option String → List RateCardRule → RateRuleResolution
unfolding rule_applies
first_rule template_status channel [] = none
first_rule template_status channel (r ∷ rules) =
    if rule_applies template_status channel r
    then some r
    else first_rule template_status channel rules

-- the rules of one version in the order in which they are tried
ordered_rules : String → List RateCardRule
unfolding rate_card_rules sort filter
ordered_rules version_label =
    sort (λ a b. ltb a.priority b.priority)
      (filter (λ r. r.version_label == version_label) rate_card_rules)

unfoldable pub resolve_rate_card_rule : String → Option String → Option String → RateRuleResolution
unfolding first_rule ordered_rules
resolve_rate_card_rule version_label template_status channel =
    first_rule template_status channel (ordered_rules version_label)
