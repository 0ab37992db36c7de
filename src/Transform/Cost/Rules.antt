-- ===== src/Transform/Cost/Rules.antt =====
-- Which rule ids a tenant stores with its costs.
use dfip_v.Prelude.{
  ◌≡◌, refl, sym, ◌∙◌, ℕ, String, Option-cases, Bool-cases, inl, inr, true, Option, none, some,
  ◌==◌, string_eq, option_eq, ◌||◌, is_some, All, any, Bool,
}
use dfip_v.Config.Identity.{Manifest}
use dfip_v.Config.RateCards.{rate_card_rules, resolve_rate_card_rule}
use dfip_v.Config.RateCards.Expected.{expected_rate, expected_rate-eq-resolve}
use dfip_v.Config.RateCards.Members.{resolve-All}
use dfip_v.Prelude.Int.{ℤ}
use dfip_v.Prelude.Dict.{lookup, values}
use dfip_v.Transform.Cost.{
  calculate_total_cost, cost_of, persistable_rate_card_rule_id, rate_card_rule_id,
  rate_card_rule_ids,
}

-- the client may store packaged ids: it owns the package, or it is no tenant at all
abbrev pub owns_package : Manifest → String → Bool
owns_package manifest client_id = client_id == "" || client_id == manifest.client_id

persists :
    (manifest : Manifest) (client_id : String)
    → owns_package manifest client_id ≡ true
    → All
        (λ r.
          is_some (persistable_rate_card_rule_id manifest (some client_id) (rate_card_rule_id r))
          ≡ true)
        rate_card_rules
unfolding rate_card_rules persistable_rate_card_rule_id rate_card_rule_id rate_card_rule_ids lookup
    any values
persists manifest client_id h = elim (Bool-cases (client_id == "")) [
  | inl e ↦ rw e (refl, (refl, (refl, (refl, (refl, (refl, (refl, (refl, (refl, (refl, tt))))))))))
  | inr e ↦
      let h' : (client_id == manifest.client_id) ≡ true = rw e at h in
      rw (e, h') (refl, (refl, (refl, (refl, (refl, (refl, (refl, (refl, (refl, (refl, tt))))))))))
]

-- A matched rate has a rule id that the owner of the package stores.
pub stored_rule :
    (manifest : Manifest) (client_id : String) (l : String) (s c : Option String) (d : Option ℤ)
    (rate : ℕ)
    → owns_package manifest client_id ≡ true
    → expected_rate l s c ≡ some rate
    → is_some (
        persistable_rate_card_rule_id manifest
          (some client_id)
          (calculate_total_cost l s c d).rule_id)
      ≡ true
unfolding calculate_total_cost cost_of
stored_rule manifest client_id l s c d rate owns e =
    elim (Option-cases (resolve_rate_card_rule l s c)) [
      | inl n ↦ let e' = rw n at (sym (expected_rate-eq-resolve l s c) ∙ e) in absurd cc
      | inr (r, found) ↦ rw found (
          resolve-All
            (λ r.
              is_some
                (persistable_rate_card_rule_id manifest (some client_id) (rate_card_rule_id r))
              ≡ true)
            l s c r (persists manifest client_id owns) found)
    ]

-- Without a rate there is no rule id.
pub no_rule :
    (manifest : Manifest) (client_id : Option String) (l : String) (s c : Option String)
    (d : Option ℤ)
    → expected_rate l s c ≡ none
    → persistable_rate_card_rule_id manifest client_id (calculate_total_cost l s c d).rule_id ≡ none
unfolding calculate_total_cost cost_of persistable_rate_card_rule_id
no_rule manifest client_id l s c d e = elim (Option-cases (resolve_rate_card_rule l s c)) [
  | inl n ↦ rw n refl
  | inr (r, found) ↦ let e' = rw found at (sym (expected_rate-eq-resolve l s c) ∙ e) in absurd cc
]
