-- ===== src/Transform/Labels/Axes.antt =====
-- The version ids that a bundle carries are ones that the tenant may store.
use dfip_v.Prelude.{
  ◌≡◌, ◌⊎◌, refl, sym, ap, ◌∙◌, String, Bool-cases, inl, inr, true, Option, none, some, ◌==◌,
  string_eq, option_eq, or_else, arith,
}
use dfip_v.Prelude.Dates.{Date}
use dfip_v.Prelude.Result.{Result, ok, err, Result-cases}
use dfip_v.Config.Catalog.{CatalogStore}
use dfip_v.Config.Identity.{persistable_catalog_version_id, persistable_of}
use dfip_v.Transform.Cost.Rules.{owns_package}
use dfip_v.Transform.Labels.{
  Packaged, ConfigBundle, BindingError, persistable, run_axis, bind_configuration,
  bind_configuration_for_run,
}

persistable-owned :
    (p : Packaged) (client_id : String) (version_id : Option String)
    → (persistable p (some client_id) version_id ≡ none)
      ⊎ (owns_package p.manifest client_id ≡ true)
unfolding persistable_catalog_version_id persistable_of
persistable-owned p client_id none = inl refl
persistable-owned p client_id (some v) = elim (Bool-cases (v == "")) [
  | inl e ↦ inl (rw e refl)
  | inr e ↦ elim (Bool-cases (client_id == "")) [
    | inl f ↦ inr (rw f refl)
    | inr f ↦ elim (Bool-cases (client_id == p.manifest.client_id)) [
      | inl g ↦ inr (rw (f, g) refl)
      | inr g ↦ inl (rw (e, f, g) (ground arith))
    ]
  ]
]

or_else-owned :
    (p : Packaged) (client_id : String) (a b : Option String)
    → (a ≡ none) ⊎ (owns_package p.manifest client_id ≡ true)
    → (b ≡ none) ⊎ (owns_package p.manifest client_id ≡ true)
    → (or_else a b ≡ none) ⊎ (owns_package p.manifest client_id ≡ true)
or_else-owned p client_id a b (inr o) h = inr o
or_else-owned p client_id a b (inl e) (inr o) = inr o
or_else-owned p client_id a b (inl e) (inl f) = inl (rw (e, f) refl)

run_axis-owned :
    (p : Packaged) (client_id : String) (version_id : Option String) (fallback : String)
    → ((run_axis p (some client_id) version_id fallback).id ≡ none)
      ⊎ (owns_package p.manifest client_id ≡ true)
unfolding run_axis
run_axis-owned p client_id version_id fallback =
    or_else-owned p client_id _ _ (persistable-owned p client_id version_id)
      (persistable-owned p client_id _)

rate_id_of : Result BindingError ConfigBundle → Option String
rate_id_of (ok b) = b.rate_card_version_id
rate_id_of (err e) = none

rate_id-owned :
    (p : Packaged) (day : Date) (campaign_id template_id rate_id group_id : Option String)
    (catalog : Option CatalogStore) (client_id : String)
    → (rate_id_of (
          bind_configuration_for_run p day campaign_id template_id rate_id group_id catalog
            (some client_id))
        ≡ none)
      ⊎ (owns_package p.manifest client_id ≡ true)
unfolding bind_configuration_for_run rate_id_of
rate_id-owned p day campaign_id template_id rate_id group_id catalog client_id =
    elim (Result-cases (bind_configuration p day none none)) [
      | inl (f, e) ↦ rw e (run_axis-owned p client_id rate_id f.rate_card_version_label)
      | inr (x, e) ↦ rw e (inl refl)
    ]

-- Of a run's bundle: a tenant that may not store packaged ids gets no rate card version id.
pub bind_configuration_for_run-owned :
    (p : Packaged) (day : Date) (campaign_id template_id rate_id group_id : Option String)
    (catalog : Option CatalogStore) (client_id : String) (b : ConfigBundle)
    → bind_configuration_for_run p day campaign_id template_id rate_id group_id catalog
        (some client_id)
      ≡ ok b
    → (b.rate_card_version_id ≡ none) ⊎ (owns_package p.manifest client_id ≡ true)
bind_configuration_for_run-owned p day campaign_id template_id rate_id group_id catalog client_id b
      h =
    let same : rate_id_of (
          bind_configuration_for_run p day campaign_id template_id rate_id group_id catalog
            (some client_id))
        ≡ b.rate_card_version_id =
      ap rate_id_of h ∙ (unfold rate_id_of in refl) in
    elim (rate_id-owned p day campaign_id template_id rate_id group_id catalog client_id) [
      | inl n ↦ inl (sym same ∙ n)
      | inr o ↦ inr o
    ]
