-- ===== src/Config/RateCards/Expected.antt =====
-- `_RATES` and `expected_rate` of packages/core/dfip_core/transform/reconcile.py: the rate computed
-- a second time, against the resolver that the engine uses.
use dfip_v.Config.RateCards.{RateCardRule, rate_card_rules, resolve_rate_card_rule}
use dfip_v.Prelude.{
  ℕ, String, ◌≡◌, refl, inl, inr, false, Option, none, some, List, [], ◌∷◌, arith, eq_iff, ◌==◌,
  string_eq, pair_eq, Bool-cases, if◌then◌else◌,
}
use dfip_v.Prelude.Dict.{Dict, lookup, insert}
use dfip_v.Prelude.Text.{lower}
use mathlib.Core.Option
use mathlib.Core.Path.{subst}

abbrev RateKey : Type 0
RateKey = String × (String × String)

rates_of : List RateCardRule → Dict RateKey ℕ → Dict RateKey ℕ
rates_of [] d = d
rates_of (r ∷ rules) d =
    rates_of rules (insert (r.version_label, (r.match_field, lower r.match_value)) r.rate d)

rates : Dict RateKey ℕ
unfolding rates_of rate_card_rules lower insert
rates = rates_of rate_card_rules []

channel_rate : String → Option String → Option ℕ
unfolding rates
channel_rate version_label none = none
channel_rate version_label (some channel) = lookup (version_label, ("channel", lower channel)) rates

unfoldable pub expected_rate : String → Option String → Option String → Option ℕ
unfolding rates channel_rate
expected_rate version_label none channel = channel_rate version_label channel
expected_rate version_label (some status) channel =
    if lower status == "utility"
    then lookup (version_label, ("template_status", "utility")) rates
    else channel_rate version_label channel

abbrev Agrees : String → Option String → Option String → Type 0
Agrees l s c = expected_rate l s c ≡ Option.map (λ r. r.rate) (resolve_rate_card_rule l s c)

-- `==` of texts in the one order and in the other.
str_beq_sym : (a b : String) → (a == b) ≡ (b == a)
str_beq_sym a b = ground (arith, eq_iff a b, eq_iff b a)

Agrees-v1 : (s c : Option String) → Agrees "rate-v1" s c
unfolding expected_rate resolve_rate_card_rule lookup
Agrees-v1 none none = refl
Agrees-v1 (some s) none = ground arith
Agrees-v1 s (some c) = ground (
  arith,
  str_beq_sym (lower c) "sms",
  str_beq_sym (lower c) "email",
  str_beq_sym (lower c) "rcs",
  str_beq_sym (lower c) "whatsapp",
)

Agrees-v2 : (s c : Option String) → Agrees "rate-v2" s c
unfolding expected_rate resolve_rate_card_rule lookup
Agrees-v2 none none = refl
Agrees-v2 (some s) none = ground arith
Agrees-v2 s (some c) = ground (
  arith,
  str_beq_sym (lower c) "sms",
  str_beq_sym (lower c) "email",
  str_beq_sym (lower c) "rcs",
  str_beq_sym (lower c) "whatsapp",
)

-- A label that no rule carries has no rate on either side.
Agrees-unknown :
    (l : String) (s c : Option String)
    → ("rate-v1" == l) ≡ false
    → ("rate-v2" == l) ≡ false
    → Agrees l s c
unfolding expected_rate resolve_rate_card_rule lookup
Agrees-unknown l none none h k = ground arith
Agrees-unknown l (some s) none h k = ground arith
Agrees-unknown l s (some c) h k = ground arith

-- The contract rate recomputed for reconciliation is the rate of the rule that the resolver picks,
-- for every version label, template status and channel, known or not.
pub expected_rate-eq-resolve :
    (version_label : String) (template_status channel : Option String)
    → expected_rate version_label template_status channel
      ≡ Option.map (λ r. r.rate) (resolve_rate_card_rule version_label template_status channel)
expected_rate-eq-resolve l s c = elim (Bool-cases ("rate-v1" == l)) [
  | inl e ↦ subst (λ x. Agrees x s c) ((eq_iff "rate-v1" l).0 e) (Agrees-v1 s c)
  | inr h ↦ elim (Bool-cases ("rate-v2" == l)) [
    | inl e ↦ subst (λ x. Agrees x s c) ((eq_iff "rate-v2" l).0 e) (Agrees-v2 s c)
    | inr k ↦ Agrees-unknown l s c h k
  ]
]
