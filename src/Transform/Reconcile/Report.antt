-- ===== src/Transform/Reconcile/Report.antt =====
-- `reconcile_run` of packages/core/dfip_core/transform/reconcile.py: the checks of `reconcile_fact`, the
-- lineage and the versions over the facts of a run. How the problems of a fact are written out is a
-- parameter.
use dfip_v.Prelude.{
  ℕ, ◌+◌, String, Bool, true, false, not, Option, none, some, List, [], ◌∷◌, ◌++◌, ◌==◌, ◌&&◌, ◌||◌,
  string_eq, option_eq, get_or, is_some, any, if◌then◌else◌,
}
use Prim.Native.String.{◌++◌ as concat}
use dfip_v.Prelude.Dict.{Dict, lookup, insert}
use dfip_v.Prelude.Int.{ℤ, pos, ◌+ℤ◌}
use dfip_v.Config.RateCards.Expected.{expected_rate}
use dfip_v.Transform.Fact.{FactRecord}
use dfip_v.Transform.Reconcile.{Problem, reconcile_fact}

pub record ReconciliationReport : Type 0 where
  pub checks : Dict String Bool
  pub failures : List String
  pub counts : Dict String ℕ
  pub total_cost : ℤ
  pub total_delivered : ℤ

abbrev pub empty_report : ReconciliationReport
empty_report = record {
  checks = [];
  failures = [];
  counts = [];
  total_cost = pos 0;
  total_delivered = pos 0;
}

abbrev pub is_nil {ℓ} : {A : Type ℓ} → List A → Bool
is_nil [] = true
is_nil (x ∷ xs) = false

abbrev pub passed : ReconciliationReport → Bool
passed r = is_nil r.failures

-- `report.record`
unfoldable pub record_check : String → Bool → String → ReconciliationReport → ReconciliationReport
record_check name passes detail r = record r {
  checks = insert name (get_or (lookup name r.checks) true && passes) r.checks;
  failures =
      if not passes && not (any (λ d. d == detail) r.failures)
      then r.failures ++ (detail ∷ [])
      else r.failures;
}

-- `report.counts[name] += 1`
abbrev pub count_one : String → ReconciliationReport → ReconciliationReport
count_one name r = record r { counts = insert name (get_or (lookup name r.counts) 0 + 1) r.counts }

-- a status in an f-string
abbrev pub shown : Option String → String
shown none = "None"
shown (some status) = status

-- the arguments of `reconcile_run`
pub record Expectation : Type 0 where
  pub rate_card_version_label : String
  pub processing_run_id : String
  pub campaign_label_version_id : Option String
  pub template_label_version_id : Option String

abbrev pub is_asked : Option String → Option String → Bool
is_asked wanted given = not (is_some wanted) || given == wanted

abbrev pub lineage_ok : Expectation → FactRecord → Bool
lineage_ok x f = f.processing_run_id == some x.processing_run_id && is_some f.batch_id

abbrev pub version_ok : Expectation → FactRecord → Bool
version_ok x f =
    is_asked x.campaign_label_version_id f.campaign_label_version_id
    && is_asked x.template_label_version_id f.template_label_version_id

abbrev pub no_problem : Expectation → FactRecord → Bool
no_problem x f = is_nil (reconcile_fact f x.rate_card_version_label)

-- the counters and totals of one fact
unfoldable pub tally_fact : Expectation → FactRecord → ReconciliationReport → ReconciliationReport
tally_fact x f r =
    let rate = expected_rate x.rate_card_version_label f.template_status f.channel in
    let r1 = count_one "facts" r in
    let r2 = count_one (concat "label_" (shown f.label_match_status)) r1 in
    let r3 = count_one (concat "template_" (shown f.template_match_status)) r2 in
    let r4 = count_one (if is_some rate then "rate_matched" else "rate_unmatched") r3 in
    record r4 {
      total_cost = r4.total_cost +ℤ get_or f.total_cost (pos 0);
      total_delivered = r4.total_delivered +ℤ get_or f.delivered (pos 0);
    }

module _ (sentence : FactRecord → List Problem → String) (x : Expectation) where
  unfoldable pub reconcile_one : FactRecord → ReconciliationReport → ReconciliationReport
  unfolding record_check tally_fact
  reconcile_one f r =
      let r1 = tally_fact x f r in
      let r2 =
        record_check "derived_values" (no_problem x f)
          (sentence f (reconcile_fact f x.rate_card_version_label)) r1 in
      let r3 =
        record_check "lineage" (lineage_ok x f)
          (concat f.campaign_id (concat ": fact is not bound to run " x.processing_run_id)) r2 in
      record_check "configuration_versions" (version_ok x f)
        (concat f.campaign_id ": configuration version ids do not match the run binding") r3

  -- the loop of `reconcile_run`
  unfoldable pub reconcile_facts : List FactRecord → ReconciliationReport → ReconciliationReport
  reconcile_facts [] r = r
  reconcile_facts (f ∷ facts) r = reconcile_facts facts (reconcile_one f r)

  unfoldable pub reconcile_run : List FactRecord → ReconciliationReport
  unfolding reconcile_facts
  reconcile_run facts = reconcile_facts facts empty_report
