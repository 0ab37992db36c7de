-- ===== src/Transform/Cost/Exact.antt =====
-- The cost that the engine stores, against the contract's formula and against reconciliation.
use dfip_v.Config.RateCards.{RateRuleResolution, rate_card_rules, resolve_rate_card_rule}
use dfip_v.Config.RateCards.Expected.{expected_rate, expected_rate-eq-resolve}
use dfip_v.Prelude.{
  ℕ, suc, ◌+◌, ◌*◌, ◌/◌, ◌%◌, String, ◌≡◌, refl, ap, true, false, Option, none, some, arith, All,
  nat_beq, ltb, if◌then◌else◌,
}
use dfip_v.Prelude.Int.{ℤ, pos, negsuc, scale, on_magnitude}
use mathlib.Core.Option
use dfip_v.Config.RateCards.Members.{resolve-All}
use dfip_v.Transform.Cost.{
  CostResolution, cost_of, calculate_total_cost, quantize_half_up, units_of, zero_cost,
}

-- `quantize(ZERO_COST)` of reconcile.py rounds half to even, the default of `decimal`.
unfoldable pub quantize_half_even : ℤ → ℤ
unfolding on_magnitude
quantize_half_even = on_magnitude (λ m.
    let q = m / 100 in
    let r = m % 100 in
    if ltb 50 r
    then q + 1
    else if nat_beq r 50
    then (if nat_beq (q % 2) 1 then q + 1 else q)
    else q)

want_of : Option ℤ → Option ℕ → ℤ
unfolding quantize_half_even
want_of delivered none = zero_cost
want_of delivered (some rate) = quantize_half_even (scale (units_of delivered) rate)

-- `want_cost` of `reconcile_fact`
unfoldable pub want_cost : String → Option String → Option String → Option ℤ → ℤ
unfolding want_of
want_cost version_label template_status channel delivered =
    want_of delivered (expected_rate version_label template_status channel)

-- Every rate of the table is a whole number of ten-thousandths.
rates_whole : All (λ r. r.rate % 100 ≡ 0) rate_card_rules
unfolding rate_card_rules
rates_whole = omega arith

mul-mod_zero : (n k : ℕ) → k % 100 ≡ 0 → n * k % 100 ≡ 0
mul-mod_zero n k h =
    let e : k ≡ k / 100 * 100 = omega arith in omega (arith, ap (λ (t : ℕ). n * t) e)

-- The product of an integer and a whole rate loses nothing in either rounding.
half_up_exact : (u : ℤ) (k : ℕ) → k % 100 ≡ 0 → scale (quantize_half_up (scale u k)) 100 ≡ scale u k
unfolding quantize_half_up scale
half_up_exact (pos n) k h = ground (arith, mul-mod_zero n k h)
half_up_exact (negsuc n) k h = ground (arith, mul-mod_zero (suc n) k h)

half_even-eq-half_up :
    (u : ℤ) (k : ℕ) → k % 100 ≡ 0 → quantize_half_even (scale u k) ≡ quantize_half_up (scale u k)
unfolding quantize_half_up quantize_half_even scale
half_even-eq-half_up (pos n) k h = ground (arith, mul-mod_zero n k h)
half_even-eq-half_up (negsuc n) k h = ground (arith, mul-mod_zero (suc n) k h)

-- What the formula of the contract says of a cost: no rate gives cost 0 and no rule, and a rate
-- gives exactly Delivered times the rate, at the rate's own precision.
abbrev pub FollowsContract : Option ℕ → Option ℤ → CostResolution → Type 0
FollowsContract none delivered cost =
    (cost.total_cost ≡ zero_cost)
    × (cost.matched ≡ false)
    × (cost.rule_id ≡ none)
    × (cost.rate ≡ none)
FollowsContract (some rate) delivered cost =
    (scale cost.total_cost 100 ≡ scale (units_of delivered) rate)
    × (cost.matched ≡ true)
    × (cost.rate ≡ some rate)

-- A resolution whose rule, if there is one, has a whole rate.
abbrev HasWholeRate : RateRuleResolution → Type 0
HasWholeRate none = Unit
HasWholeRate (some r) = r.rate % 100 ≡ 0

resolve-HasWholeRate :
    (l : String) (s c : Option String) → HasWholeRate (resolve_rate_card_rule l s c)
resolve-HasWholeRate l s c = go (resolve_rate_card_rule l s c) refl
  where
    go : (o : RateRuleResolution) → resolve_rate_card_rule l s c ≡ o → HasWholeRate o
    go none e = tt
    go (some r) e = resolve-All (λ x. x.rate % 100 ≡ 0) l s c r rates_whole e

cost_of-FollowsContract :
    (d : Option ℤ) (o : RateRuleResolution)
    → HasWholeRate o
    → FollowsContract (Option.map (λ r. r.rate) o) d (cost_of d o)
unfolding cost_of
cost_of-FollowsContract d none h = (refl, refl, refl, refl)
cost_of-FollowsContract d (some r) h = (half_up_exact (units_of d) r.rate h, refl, refl)

want_of-eq-cost_of :
    (d : Option ℤ) (o : RateRuleResolution)
    → HasWholeRate o
    → want_of d (Option.map (λ r. r.rate) o) ≡ (cost_of d o).total_cost
unfolding want_of cost_of
want_of-eq-cost_of d none h = refl
want_of-eq-cost_of d (some r) h = half_even-eq-half_up (units_of d) r.rate h

-- For every version label, template status, channel and Delivered, negative or blank included, the
-- cost that the engine computes follows the contract at the independently recomputed rate: rounding
-- never changes it, and an unmatched row costs 0.
pub cost_exact :
    (l : String) (s c : Option String) (d : Option ℤ)
    → FollowsContract (expected_rate l s c) d (calculate_total_cost l s c d)
unfolding calculate_total_cost
cost_exact l s c d =
    rw (expected_rate-eq-resolve l s c)
      (cost_of-FollowsContract d (resolve_rate_card_rule l s c) (resolve-HasWholeRate l s c))

-- Reconciliation rounds half to even and the engine half up, and yet the cost that reconciliation
-- expects is always the cost that the engine stored.
pub want_cost-eq-total_cost :
    (l : String) (s c : Option String) (d : Option ℤ)
    → want_cost l s c d ≡ (calculate_total_cost l s c d).total_cost
unfolding calculate_total_cost want_cost
want_cost-eq-total_cost l s c d =
    rw (expected_rate-eq-resolve l s c)
      (want_of-eq-cost_of d (resolve_rate_card_rule l s c) (resolve-HasWholeRate l s c))
