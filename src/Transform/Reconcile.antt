-- ===== src/Transform/Reconcile.antt =====
-- `reconcile_fact` of packages/core/dfip_core/transform/reconcile.py: every derived value of a fact,
-- recomputed. A problem is named by the check that found it, its sentence is left out.
pub mod Rows
pub mod Report
pub mod Passed
use mathlib.Core.Path.{subst}
use dfip_v.Prelude.{
  ◌≡◌, ◌≢◌, refl, sym, ap, ◌∙◌, ℕ, String, Bool, true, false, not, Bool-cases, Option-cases, inl,
  inr, Option, none, some, List, [], ◌∷◌, ◌++◌, ◌==◌, ◌&&◌, ◌||◌, ◌⊎◌, string_eq, option_eq,
  is_some, if◌then◌else◌, arith, beq_refl, Comparable, All,
}
use dfip_v.Prelude.Dates.{Date, DateTime, Moment, date_eq}
use dfip_v.Prelude.Int.{ℤ, int_eq}
use mathlib.Core.Option
use dfip_v.Config.RateCards.Expected.{expected_rate, expected_rate-eq-resolve}
use dfip_v.Config.RateCards.{RateCardRule, resolve_rate_card_rule}
use dfip_v.Config.Resolve.{
  MatchStatus, matched, unmatched, blank_key, CampaignResolution, resolve_campaign_label,
}
use dfip_v.Config.Resolve.Blank.{resolve_campaign_label-labels}
use dfip_v.Transform.Cost.{calculate_total_cost, persistable_rate_card_rule_id}
use dfip_v.Transform.Cost.Rules.{owns_package, stored_rule, no_rule}
use dfip_v.Transform.Cost.Exact.{want_cost, want_cost-eq-total_cost}
use dfip_v.Transform.Derive.{month_start, month_label, hhh, variation_id_key}
use dfip_v.Transform.Extract.{Cell, SourceFields}
use dfip_v.Transform.Fact.{FactRecord}
use dfip_v.Transform.Labels.{Packaged, ConfigBundle, campaign, template}
use dfip_v.Transform.Engine.{fact_of, status_text}

pub data Problem : Type 0 where
  wrong_cost stray_rule missing_rule wrong_month_label wrong_month_start wrong_hhh : Problem
  blank_variation_key wrong_variation_key no_template_status labels_without_match : Problem

-- the names of the checks that fail, in their order
found : List (Bool × Problem) → List Problem
found [] = []
found ((bad, name) ∷ checks) = if bad then name ∷ found checks else found checks

-- `variation_id not in (None, "")`
abbrev is_given : Option String → Bool
is_given none = false
is_given (some v) = not (v == "")

abbrev mirrors : Option String → String → Bool
mirrors none k = true
mirrors (some v) k = k == v

-- the checks in the order of the code
unfoldable pub checks : FactRecord → String → List (Bool × Problem)
checks f rate_card_version_label =
    let rate = expected_rate rate_card_version_label f.template_status f.channel in
    (
      not (
          f.total_cost
          == some (want_cost rate_card_version_label f.template_status f.channel f.delivered)),
      wrong_cost,
    )
    ∷ (not (is_some rate) && is_some f.rate_card_rule_id, stray_rule)
    ∷ (
      (is_some rate && not (is_some f.rate_card_rule_id)) && is_some f.rate_card_version_id,
      missing_rule,
    )
    ∷ (not (f.month_label == some (month_label f.day)), wrong_month_label)
    ∷ (not (f.month_start == some (month_start f.day)), wrong_month_start)
    ∷ (not (f.hhh == some (hhh f.start_date)), wrong_hhh)
    ∷ (f.variation_id_key == "" && is_given f.variation_id, blank_variation_key)
    ∷ (
      is_given f.variation_id && not (mirrors f.variation_id f.variation_id_key),
      wrong_variation_key,
    )
    ∷ (not (is_some f.template_status), no_template_status)
    ∷ (
      not (f.label_match_status == some "matched") && is_some f.filter_logic_1,
      labels_without_match,
    )
    ∷ []

unfoldable pub reconcile_fact : FactRecord → String → List Problem
unfolding found checks
reconcile_fact f rate_card_version_label = found (checks f rate_card_version_label)

-- The tenant stores a rate card version only if it may store packaged ids.
abbrev pub Consistent : Packaged → String → ConfigBundle → Type 0
Consistent p client_id b =
    (b.rate_card_version_id ≡ none) ⊎ (owns_package p.manifest client_id ≡ true)

no_missing_rule :
    (p : Packaged) (client_id : String) (b : ConfigBundle) (s c : Option String) (d : Option ℤ)
    → Consistent p client_id b
    → let id =
        persistable_rate_card_rule_id p.manifest
          (some client_id)
          (calculate_total_cost b.rate_card_version_label s c d).rule_id in
      ((is_some (expected_rate b.rate_card_version_label s c) && not (is_some id))
        && is_some b.rate_card_version_id)
      ≡ false
no_missing_rule p client_id b s c d (inl n) = rw n (ground arith)
no_missing_rule p client_id b s c d (inr owns) =
    elim (Option-cases (expected_rate b.rate_card_version_label s c)) [
      | inl e ↦ rw e (ground arith)
      | inr (rate, e) ↦
          rw (stored_rule p.manifest client_id b.rate_card_version_label s c d rate owns e)
            (ground arith)
    ]

no_stray_rule :
    (p : Packaged) (client_id : String) (l : String) (s c : Option String) (d : Option ℤ)
    → let id =
        persistable_rate_card_rule_id p.manifest
          (some client_id)
          (calculate_total_cost l s c d).rule_id in
      (not (is_some (expected_rate l s c)) && is_some id) ≡ false
no_stray_rule p client_id l s c d = elim (Option-cases (expected_rate l s c)) [
  | inl e ↦ rw (no_rule p.manifest (some client_id) l s c d e) (ground arith)
  | inr (rate, e) ↦ rw e refl
]

no_label_problem :
    (r : CampaignResolution)
    → (r.match_status ≡ matched) ⊎ (r.filter_logic_1 ≡ none)
    → (not (some (status_text r.match_status) == some "matched") && is_some r.filter_logic_1)
      ≡ false
no_label_problem r (inl m) = rw m refl
no_label_problem r (inr n) = rw n (ground arith)

no_variation_problem :
    (v : Option String)
    → ((variation_id_key v == "" && is_given v) ≡ false)
      × ((is_given v && not (mirrors v (variation_id_key v))) ≡ false)
unfolding variation_id_key
no_variation_problem none = (refl, refl)
no_variation_problem (some v) = (ground arith, rw (beq_refl v) (ground arith))

found-none :
    (checks : List (Bool × Problem)) → All (λ check. check.0 ≡ false) checks → found checks ≡ []
unfolding found
found-none [] h = refl
found-none ((bad, name) ∷ rest) h = rw h.0 (found-none rest h.1)

no_difference : {A : Type 0} ⦃e : Comparable A⦄ (a b : A) → a ≡ b → not (some a == some b) ≡ false
no_difference ⦃e⦄ a b h = rw ((e.equal_iff a b).1 h) refl

-- Reconciliation, which recomputes a fact on its own, finds no problem in any fact that the engine
-- makes: not in the cost, the rule, the month, the hour, the variation key or the labels. Asked of the
-- configuration: a tenant that may not store packaged ids has no rate card version id either.
pub reconcile_fact-fact_of :
    (p : Packaged) (str_of : Cell → String) (fromisoformat : String → Option DateTime)
    (client_id batch_id run_id : String) (at : Moment) (fields : SourceFields)
    (bundle : ConfigBundle)
    → Consistent p client_id bundle
    → reconcile_fact
        (fact_of p str_of fromisoformat client_id batch_id run_id at fields bundle)
        bundle.rate_card_version_label
      ≡ []
unfolding reconcile_fact checks fact_of
reconcile_fact-fact_of p str_of fromisoformat client_id batch_id run_id at fields bundle h =
    let l = bundle.rate_card_version_label in
    let s = some (template p bundle fields.descriptors.template_name_whatsapp).template_status in
    let c = fields.descriptors.channel in
    let d = fields.integers.delivered in
    found-none
      (checks (fact_of p str_of fromisoformat client_id batch_id run_id at fields bundle) l)
      (
        no_difference _ _ (sym (want_cost-eq-total_cost l s c d)),
        (
          no_stray_rule p client_id l s c d,
          (
            no_missing_rule p client_id bundle s c d h,
            (
              no_difference (month_label fields.day) _ refl,
              (
                no_difference (month_start fields.day) _ refl,
                (
                  no_difference (hhh fields.descriptors.start_date) _ refl,
                  (
                    (no_variation_problem fields.variation_id).0,
                    (
                      (no_variation_problem fields.variation_id).1,
                      (
                        refl,
                        (
                          no_label_problem (campaign p bundle fields.descriptors.campaign_name)
                              (unfold campaign in resolve_campaign_label-labels _ _),
                          tt,
                        ),
                      ),
                    ),
                  ),
                ),
              ),
            ),
          ),
        ),
      )
