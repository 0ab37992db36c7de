-- ===== src/Transform/Reconcile/Passed.antt =====
-- What the report of `reconcile_run` of packages/core/dfip_core/transform/reconcile.py says of the facts.
use dfip_v.Prelude.{
  ◌≡◌, refl, ◌∙◌, String, Bool, true, false, List, [], ◌∷◌, ◌++◌, ◌==◌, ◌&&◌, string_eq, option_eq,
  get_or, any, map, inl, inr, if◌then◌else◌, arith, Bool-cases,
}
use dfip_v.Prelude.Dict.{lookup, lookup-insert}
use dfip_v.Prelude.Int.{ℤ, pos, ◌+ℤ◌, +ℤ_assoc, int_laws}
use dfip_v.Transform.Fact.{FactRecord}
use dfip_v.Transform.Reconcile.{Problem}
use dfip_v.Transform.Reconcile.Report.{
  ReconciliationReport, empty_report, Expectation, is_nil, passed, record_check, tally_fact,
  lineage_ok, version_ok, no_problem, reconcile_one, reconcile_facts, reconcile_run,
}

abbrev pub every : (FactRecord → Bool) → List FactRecord → Bool
every P [] = true
every P (f ∷ fs) = P f && every P fs

abbrev pub sum_ints : List ℤ → ℤ
sum_ints [] = pos 0
sum_ints (n ∷ ns) = n +ℤ sum_ints ns

abbrev pub is_sound : Expectation → FactRecord → Bool
is_sound x f = no_problem x f && (lineage_ok x f && version_ok x f)

-- the entry of a check, which counts as passed where it never ran
abbrev pub check_of : String → ReconciliationReport → Bool
check_of name r = get_or (lookup name r.checks) true

+ℤ_zero : (a : ℤ) → a ≡ a +ℤ pos 0
+ℤ_zero a = omega int_laws

zero_+ℤ : (a : ℤ) → pos 0 +ℤ a ≡ a
zero_+ℤ a = omega int_laws

is_nil-append : (xs : List String) (x : String) → is_nil (xs ++ (x ∷ [])) ≡ false
is_nil-append [] x = refl
is_nil-append (y ∷ xs) x = refl

not_nil : (P : String → Bool) (xs : List String) → any P xs ≡ true → is_nil xs ≡ false
unfolding any
not_nil P [] h = cc
not_nil P (x ∷ xs) h = refl

passed-record_check :
    (name : String) (passes : Bool) (detail : String) (r : ReconciliationReport)
    → passed (record_check name passes detail r) ≡ (passed r && passes)
unfolding record_check
passed-record_check name true detail r = ground arith
passed-record_check name false detail r = elim (Bool-cases (any (λ d. d == detail) r.failures)) [
  | inl e ↦ rw e (ground (arith, not_nil (λ d. d == detail) r.failures e))
  | inr e ↦ rw e (ground (arith, is_nil-append r.failures detail))
]

check_of-record_check :
    (wanted name : String) (passes : Bool) (detail : String) (r : ReconciliationReport)
    → check_of wanted (record_check name passes detail r)
      ≡ (if name == wanted then check_of name r && passes else check_of wanted r)
unfolding record_check
check_of-record_check wanted name passes detail r =
    rw (lookup-insert name wanted (check_of name r && passes) r.checks)
      (elim (Bool-cases (name == wanted)) [ inl e ↦ rw e refl | inr e ↦ rw e refl ])

module _ (sentence : FactRecord → List Problem → String) (x : Expectation) where
  passed-reconcile_one :
      (f : FactRecord) (r : ReconciliationReport)
      → passed (reconcile_one sentence x f r) ≡ (passed r && is_sound x f)
  unfolding reconcile_one
  passed-reconcile_one f r =
      let before : passed (tally_fact x f r) ≡ passed r = unfold tally_fact in refl in
      rw
        (
          passed-record_check "configuration_versions" (version_ok x f) _ _,
          passed-record_check "lineage" (lineage_ok x f) _ _,
          passed-record_check "derived_values" (no_problem x f) _ _,
          before,
        )
        (ground arith)

  passed-reconcile_facts :
      (facts : List FactRecord) (r : ReconciliationReport)
      → passed (reconcile_facts sentence x facts r) ≡ (passed r && every (is_sound x) facts)
  unfolding reconcile_facts
  passed-reconcile_facts [] r = ground arith
  passed-reconcile_facts (f ∷ facts) r =
      rw (passed-reconcile_facts facts (reconcile_one sentence x f r), passed-reconcile_one f r)
        (ground arith)

  -- What one fact does to a check: `ok` says whether the fact passes it.
  every-from :
      (name : String) (ok : FactRecord → Bool)
      → ((f : FactRecord) (r : ReconciliationReport)
          → check_of name (reconcile_one sentence x f r) ≡ (check_of name r && ok f))
      → (facts : List FactRecord) (r : ReconciliationReport)
      → check_of name (reconcile_facts sentence x facts r) ≡ (check_of name r && every ok facts)
  unfolding reconcile_facts
  every-from name ok one [] r = ground arith
  every-from name ok one (f ∷ facts) r =
      rw (every-from name ok one facts (reconcile_one sentence x f r), one f r) (ground arith)

  derived_one :
      (f : FactRecord) (r : ReconciliationReport)
      → check_of "derived_values" (reconcile_one sentence x f r)
        ≡ (check_of "derived_values" r && no_problem x f)
  unfolding reconcile_one
  derived_one f r =
      let before : check_of "derived_values" (tally_fact x f r) ≡ check_of "derived_values" r =
        unfold tally_fact in refl in
      rw
        (
          check_of-record_check "derived_values" "configuration_versions" (version_ok x f) _ _,
          check_of-record_check "derived_values" "lineage" (lineage_ok x f) _ _,
          check_of-record_check "derived_values" "derived_values" (no_problem x f) _ _,
          before,
        )
        refl

  lineage_one :
      (f : FactRecord) (r : ReconciliationReport)
      → check_of "lineage" (reconcile_one sentence x f r) ≡ (check_of "lineage" r && lineage_ok x f)
  unfolding reconcile_one
  lineage_one f r =
      let before : check_of "lineage" (tally_fact x f r) ≡ check_of "lineage" r =
        unfold tally_fact in refl in
      rw
        (
          check_of-record_check "lineage" "configuration_versions" (version_ok x f) _ _,
          check_of-record_check "lineage" "lineage" (lineage_ok x f) _ _,
          check_of-record_check "lineage" "derived_values" (no_problem x f) _ _,
          before,
        )
        refl

  version_one :
      (f : FactRecord) (r : ReconciliationReport)
      → check_of "configuration_versions" (reconcile_one sentence x f r)
        ≡ (check_of "configuration_versions" r && version_ok x f)
  unfolding reconcile_one
  version_one f r =
      let before : check_of "configuration_versions" (tally_fact x f r)
          ≡ check_of "configuration_versions" r =
        unfold tally_fact in refl in
      rw
        (
          check_of-record_check "configuration_versions" "configuration_versions" (version_ok x f) _
              _,
          check_of-record_check "configuration_versions" "lineage" (lineage_ok x f) _ _,
          check_of-record_check "configuration_versions" "derived_values" (no_problem x f) _ _,
          before,
        )
        refl

  delivered_from :
      (facts : List FactRecord) (r : ReconciliationReport)
      → (reconcile_facts sentence x facts r).total_delivered
        ≡ r.total_delivered +ℤ sum_ints (map (λ f. get_or f.delivered (pos 0)) facts)
  unfolding reconcile_facts
  delivered_from [] r = +ℤ_zero r.total_delivered
  delivered_from (f ∷ facts) r =
      delivered_from facts (reconcile_one sentence x f r)
      ∙ (unfold reconcile_one in
          unfold tally_fact in
          unfold record_check in +ℤ_assoc r.total_delivered (get_or f.delivered (pos 0)) _)

  cost_from :
      (facts : List FactRecord) (r : ReconciliationReport)
      → (reconcile_facts sentence x facts r).total_cost
        ≡ r.total_cost +ℤ sum_ints (map (λ f. get_or f.total_cost (pos 0)) facts)
  unfolding reconcile_facts
  cost_from [] r = +ℤ_zero r.total_cost
  cost_from (f ∷ facts) r =
      cost_from facts (reconcile_one sentence x f r)
      ∙ (unfold reconcile_one in
          unfold tally_fact in
          unfold record_check in +ℤ_assoc r.total_cost (get_or f.total_cost (pos 0)) _)

-- However problems are written out, also where two facts give the same sentence: the report passes exactly
-- if every fact has no problem, belongs to the run and a batch, and has the versions that were asked for;
-- the entry of each of the three checks is true exactly if every fact passes it; and the totals are the
-- sums of the delivered units and of the costs, with a missing one as 0.
pub reconcile_run_lem :
    (sentence : FactRecord → List Problem → String) (x : Expectation) (facts : List FactRecord)
    → let r = reconcile_run sentence x facts in
      (passed r ≡ every (is_sound x) facts)
      × (check_of "derived_values" r ≡ every (no_problem x) facts)
      × (check_of "lineage" r ≡ every (lineage_ok x) facts)
      × (check_of "configuration_versions" r ≡ every (version_ok x) facts)
      × (r.total_delivered ≡ sum_ints (map (λ f. get_or f.delivered (pos 0)) facts))
      × (r.total_cost ≡ sum_ints (map (λ f. get_or f.total_cost (pos 0)) facts))
unfolding reconcile_run lookup
reconcile_run_lem sentence x facts = (
  passed-reconcile_facts sentence x facts empty_report,
  every-from sentence x "derived_values" (no_problem x) (derived_one sentence x) facts empty_report,
  every-from sentence x "lineage" (lineage_ok x) (lineage_one sentence x) facts empty_report,
  every-from sentence x "configuration_versions" (version_ok x) (version_one sentence x) facts
      empty_report,
  delivered_from sentence x facts empty_report ∙ zero_+ℤ _,
  cost_from sentence x facts empty_report ∙ zero_+ℤ _,
)
