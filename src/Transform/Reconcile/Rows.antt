-- ===== src/Transform/Reconcile/Rows.antt =====
-- The rows of a run reconcile.
use dfip_v.Prelude.{◌≡◌, refl, String, Option-cases, inl, inr, Option, some, []}
use mathlib.Core.Option.{some-injective}
use mathlib.Core.Path.{subst}
use dfip_v.Prelude.Dates.{Date, DateTime, Moment}
use dfip_v.Prelude.Result.{Result-cases}
use dfip_v.Config.Catalog.{CatalogStore}
use dfip_v.Ingest.Records.{StagedRowRecord, ProcessingRunRecord}
use dfip_v.Transform.Extract.{Cell, extract_source_fields}
use dfip_v.Transform.Labels.{Packaged, ConfigBundle, bind_configuration_for_run}
use dfip_v.Transform.Labels.Axes.{bind_configuration_for_run-owned}
use dfip_v.Transform.Engine.{RowOutcome, fact, rejection, transform_row, for_day, fact_of}
use dfip_v.Transform.Reconcile.{Consistent, reconcile_fact, reconcile_fact-fact_of}

-- Of an outcome with a fact: the fact belongs to the tenant, the batch and the run, its day is bound to
-- a configuration, and reconciliation under that configuration's rate card finds no problem.
abbrev pub Reconciles :
    (Date → Option ConfigBundle) → String → String → String → RowOutcome → Type 0
Reconciles binder client_id batch_id run_id (rejection r) = Unit
Reconciles binder client_id batch_id run_id (fact n f) =
    (bundle : ConfigBundle) × (binder f.day ≡ some bundle)
    × (f.client_id ≡ client_id)
    × (f.batch_id ≡ some batch_id)
    × (f.processing_run_id ≡ some run_id)
    × (reconcile_fact f bundle.rate_card_version_label ≡ [])

module _ (p : Packaged) (str_of : Cell → String) (fromisoformat : String → Option DateTime) where
  for_day-Consistent :
      (catalog : Option CatalogStore) (client_id : String) (run : ProcessingRunRecord) (day : Date)
      (b : ConfigBundle)
      → for_day p str_of fromisoformat catalog client_id run day ≡ some b
      → Consistent p client_id b
  unfolding for_day
  for_day-Consistent catalog client_id run day b h =
      elim (Result-cases (
        bind_configuration_for_run p day run.versions.campaign_label_version_id
          run.versions.template_label_version_id run.versions.rate_card_version_id
          run.versions.label_group_version_id catalog (some client_id))) [
            | inl (b', e) ↦
                let h' : some b' ≡ some b = rw e at h in
                subst (Consistent p client_id) (some-injective _ _ h')
                  (bind_configuration_for_run-owned p day _ _ _ _ catalog client_id b' e)
            | inr (x, e) ↦ let h' = rw e at h in absurd cc
          ]

  -- Every row of a run that becomes a fact becomes one of the run's own tenant, batch and run, under the
  -- configuration that the run binds its day to, and with values that reconciliation recomputes.
  pub transform_row-Reconciles :
      (staged : StagedRowRecord) (catalog : Option CatalogStore) (client_id batch_id : String)
      (run : ProcessingRunRecord) (at : Moment)
      → Reconciles
          (for_day p str_of fromisoformat catalog client_id run)
          client_id
          batch_id
          run.id
          (transform_row p str_of fromisoformat staged
            (for_day p str_of fromisoformat catalog client_id run)
            client_id
            batch_id
            run.id
            at)
  unfolding transform_row
  transform_row-Reconciles staged catalog client_id batch_id run at =
      elim (Result-cases (extract_source_fields str_of fromisoformat staged.raw)) [
        | inr (reason, e) ↦ rw e tt
        | inl (fields, e) ↦
            elim (Option-cases (for_day p str_of fromisoformat catalog client_id run fields.day)) [
              | inl none_bound ↦ rw (e, none_bound) tt
              | inr (bundle, bound) ↦
                  rw (e, bound)
                    (unfold fact_of in
                      (
                        bundle,
                        bound,
                        refl,
                        refl,
                        refl,
                        reconcile_fact-fact_of p str_of fromisoformat client_id batch_id run.id at
                            fields bundle
                            (for_day-Consistent catalog client_id run fields.day bundle bound),
                      ))
            ]
      ]
