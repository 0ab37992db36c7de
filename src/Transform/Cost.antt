-- ===== src/Transform/Cost.antt =====
-- packages/core/dfip_core/transform/cost.py. An amount of money is the number of ten-thousandths
-- that it holds (`COST_EXPONENT`), a rate the number of millionths. `decimal` rounds products past
-- 28 digits; the numbers here are unbounded.
pub mod Exact
pub mod Rules
use dfip_v.Config.Identity.{Manifest}
use dfip_v.Config.RateCards.{RateCardRule, RateRuleResolution, resolve_rate_card_rule}
use dfip_v.Prelude.{
  ℕ, ◌+◌, ◌/◌, String, Bool, true, false, Option, none, some, [], ◌∷◌, ◌==◌, string_eq, nat_eq,
  pair_eq, option_eq, any, if◌then◌else◌,
}
use dfip_v.Prelude.Dict.{Dict, lookup, values}
use dfip_v.Prelude.Int.{ℤ, pos, scale, on_magnitude}
use dfip_v.Prelude.Text.{is_falsy}

abbrev pub zero_cost : ℤ
zero_cost = pos 0

unfoldable pub rate_card_rule_ids : Dict (String × ℕ) String
rate_card_rule_ids =
    (("rate-v1", 1), "a0000000-0000-4000-8000-000000000111")
    ∷ (("rate-v1", 2), "a0000000-0000-4000-8000-000000000112")
    ∷ (("rate-v1", 3), "a0000000-0000-4000-8000-000000000113")
    ∷ (("rate-v1", 4), "a0000000-0000-4000-8000-000000000114")
    ∷ (("rate-v1", 5), "a0000000-0000-4000-8000-000000000115")
    ∷ (("rate-v2", 1), "a0000000-0000-4000-8000-000000000121")
    ∷ (("rate-v2", 2), "a0000000-0000-4000-8000-000000000122")
    ∷ (("rate-v2", 3), "a0000000-0000-4000-8000-000000000123")
    ∷ (("rate-v2", 4), "a0000000-0000-4000-8000-000000000124")
    ∷ (("rate-v2", 5), "a0000000-0000-4000-8000-000000000125")
    ∷ []

pub record CostResolution : Type 0 where
  pub matched : Bool
  pub rule : Option RateCardRule
  pub rule_id : Option String
  pub rate : Option ℕ
  pub total_cost : ℤ

unfoldable pub rate_card_rule_id : RateCardRule → Option String
unfolding rate_card_rule_ids lookup
rate_card_rule_id r = lookup (r.version_label, r.priority) rate_card_rule_ids

unfoldable pub persistable_rate_card_rule_id :
    Manifest → Option String → Option String → Option String
unfolding any values
persistable_rate_card_rule_id manifest client_id none = none
persistable_rate_card_rule_id manifest client_id (some rule_id) =
    if rule_id == ""
    then none
    else if is_falsy client_id
    then some rule_id
    else if any (λ packaged. packaged == rule_id) (values rate_card_rule_ids)
    then (if client_id == some manifest.client_id then some rule_id else none)
    else none

-- `quantize(Decimal("0.0001"), rounding=ROUND_HALF_UP)` of a number of millionths
unfoldable pub quantize_half_up : ℤ → ℤ
unfolding on_magnitude
quantize_half_up = on_magnitude (λ m. (m + 50) / 100)

abbrev pub units_of : Option ℤ → ℤ
units_of none = pos 0
units_of (some delivered) = delivered

cost_of : Option ℤ → RateRuleResolution → CostResolution
unfolding quantize_half_up scale rate_card_rule_id
cost_of delivered none = record {
  matched = false;
  rule = none;
  rule_id = none;
  rate = none;
  total_cost = zero_cost;
}
cost_of delivered (some r) = record {
  matched = true;
  rule = some r;
  rule_id = rate_card_rule_id r;
  rate = some r.rate;
  total_cost = quantize_half_up (scale (units_of delivered) r.rate);
}

unfoldable pub calculate_total_cost :
    String → Option String → Option String → Option ℤ → CostResolution
unfolding cost_of
calculate_total_cost rate_card_version_label template_status channel delivered =
    cost_of delivered (resolve_rate_card_rule rate_card_version_label template_status channel)
