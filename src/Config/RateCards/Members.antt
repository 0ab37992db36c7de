-- ===== src/Config/RateCards/Members.antt =====
-- What holds of every rule of the table holds of the rule that the resolver picks.
use dfip_v.Config.RateCards.{
  RateCardRule, rate_card_rules, resolve_rate_card_rule, first_rule, rule_applies, ordered_rules,
}
use dfip_v.Prelude.{
  String, ◌≡◌, Option, some, List, [], ◌∷◌, All, filter-All_of, ◌==◌, string_eq, ltb, filter,
  Bool-cases, inl, inr,
}
use dfip_v.Prelude.Sort.{sort-All}
use mathlib.Core.Option.{some-injective}
use mathlib.Core.Path.{subst}

module _ {ℓ} (P : RateCardRule → Type ℓ) where
  first_rule-All :
      (s c : Option String) (rules : List RateCardRule) (r : RateCardRule)
      → All P rules
      → first_rule s c rules ≡ some r
      → P r
  unfolding first_rule
  first_rule-All s c [] r h e = cc
  first_rule-All s c (x ∷ rules) r h e = elim (Bool-cases (rule_applies s c x)) [
    | inl t ↦ subst P (some-injective _ _ (rw t at e)) h.0
    | inr f ↦ first_rule-All s c rules r h.1 (rw f at e)
  ]

  ordered_rules-All : (l : String) → All P rate_card_rules → All P (ordered_rules l)
  unfolding ordered_rules
  ordered_rules-All l h =
      sort-All P (λ a b. ltb a.priority b.priority)
        (filter (λ r. r.version_label == l) rate_card_rules)
        (filter-All_of P (λ r. r.version_label == l) rate_card_rules h)

  pub resolve-All :
      (l : String) (s c : Option String) (r : RateCardRule)
      → All P rate_card_rules
      → resolve_rate_card_rule l s c ≡ some r
      → P r
  unfolding resolve_rate_card_rule
  resolve-All l s c r h e = first_rule-All s c (ordered_rules l) r (ordered_rules-All l h) e
