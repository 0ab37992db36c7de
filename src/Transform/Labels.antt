-- ===== src/Transform/Labels.antt =====
-- packages/core/dfip_core/transform/labels.py: the configuration that a day, or a run, is bound to.
-- The packaged snapshots are JSON files read at run time: their windows and rows are the fields of
-- the parameter `Packaged`.
-- A loader raises on a version label that it does not know; here it is a total function, for the labels
-- that are known.
pub mod Axes
use dfip_v.Prelude.{
  String, Bool, true, false, Option, none, some, List, [], ◌∷◌, ◌==◌, string_eq, is_some, or_else,
  if◌then◌else◌,
}
use dfip_v.Prelude.Dates.{Date}
use dfip_v.Prelude.Dict.{Dict, lookup}
use dfip_v.Prelude.Text.{is_falsy, truthy}
use dfip_v.Prelude.Result.{Result, ok, err, ◌>>=◌}
use dfip_v.Config.Catalog.{
  CatalogRow, CatalogVersion, CatalogStore, CatalogKind, logic, labels, kind_eq, active_for,
  get_for_client,
}
use dfip_v.Config.Identity.{Manifest, persistable_catalog_version_id}
use dfip_v.Config.RateCards.{Window, rate_card_versions}
use dfip_v.Config.Resolve.{
  CampaignResolution, TemplateResolution, resolve_campaign_label, resolve_template_status,
  resolve_filter_logic_1_group, select_version_for_day,
}

pub record Packaged : Type 0 where
  pub manifest : Manifest
  pub campaign_windows : List Window
  pub template_windows : List Window
  pub campaign_rows : String → List CatalogRow
  pub template_rows : String → List CatalogRow
  pub group_rows : String → List CatalogRow

pub record ConfigBundle : Type 0 where
  pub campaign_version_label : String
  pub template_version_label : String
  pub rate_card_version_label : String
  pub label_group_version_label : String
  pub campaign_label_version_id : Option String
  pub template_label_version_id : Option String
  pub rate_card_version_id : Option String
  pub label_group_version_id : Option String
  pub binding_day : Date
  pub campaign_rows : Option (List CatalogRow)
  pub label_group_rows : Option (List CatalogRow)

-- `ConfigurationBindingError`, with the axis that its message names
pub data BindingError : Type 0 where
  no_version : String → BindingError

abbrev pub require : Option String → String → Result BindingError String
require none axis = err (no_version axis)
require (some label) axis = ok label

-- one axis of a bundle: its label, the id to store and the rows that replace the packaged ones
pub record Axis : Type 0 where
  pub label : String
  pub id : Option String
  pub rows : Option (List CatalogRow)

-- the first label under which the manifest lists the id
unfoldable pub label_listed : Dict String String → String → Option String
label_listed [] version_id = none
label_listed ((label, packaged_id) ∷ ids) version_id =
    if packaged_id == version_id then some label else label_listed ids version_id

abbrev default_label_group_version : String
default_label_group_version = "fl1-group-v1"

module _ (p : Packaged) where
  -- the methods of `ConfigBundle`
  unfoldable pub campaign : ConfigBundle → Option String → CampaignResolution
  campaign b campaign_name =
      resolve_campaign_label
        (elim b.campaign_rows [
          | some rows ↦ rows
          | none ↦ p.campaign_rows b.campaign_version_label
        ])
        campaign_name

  unfoldable pub template : ConfigBundle → Option String → TemplateResolution
  template b template_name =
      resolve_template_status (p.template_rows b.template_version_label) template_name

  unfoldable pub filter_logic_1_group : ConfigBundle → Option String → Option String
  filter_logic_1_group b filter_logic_1 =
      resolve_filter_logic_1_group filter_logic_1 (elim b.label_group_rows [
        | some rows ↦ rows
        | none ↦ p.group_rows b.label_group_version_label
      ])

  unfoldable pub packaged_label_for_id : Option String → Option String
  packaged_label_for_id none = none
  packaged_label_for_id (some version_id) =
      if version_id == "" then none else label_listed p.manifest.ids version_id

  abbrev pub persistable : Option String → Option String → Option String
  persistable client_id version_id =
      persistable_catalog_version_id p.manifest client_id version_id none

  -- an uploaded version takes the place of the packaged axis
  unfoldable pub overlay : Option String → CatalogVersion → Axis
  overlay client_id v = record {
    label = v.version_label;
    id = persistable_catalog_version_id p.manifest client_id (some v.id) (some v.client_id);
    rows = some v.rows;
  }

  -- `catalog.active_for(client_id, kind) if catalog and client_id else None`
  unfoldable pub active_overlay :
      Option CatalogStore → Option String → CatalogKind → Option CatalogVersion
  active_overlay (some catalog) (some client_id) kind =
      if client_id == "" then none else active_for client_id kind catalog
  active_overlay _ _ kind = none

  unfoldable pub campaign_axis :
      Option String → Date → Option CatalogVersion → Result BindingError Axis
  campaign_axis client_id day (some v) = ok (overlay client_id v)
  campaign_axis client_id day none = do
    label ← require (select_version_for_day p.campaign_windows day) "campaign label"
    ok (record {
      label = label;
      id = persistable client_id (lookup label p.manifest.ids);
      rows = none;
    })

  unfoldable pub group_axis : Option String → Option CatalogVersion → Axis
  group_axis client_id (some v) = overlay client_id v
  group_axis client_id none = record {
    label = default_label_group_version;
    id = persistable client_id (lookup default_label_group_version p.manifest.ids);
    rows = none;
  }

  unfoldable pub bind_configuration :
      Date → Option CatalogStore → Option String → Result BindingError ConfigBundle
  bind_configuration day catalog client_id = do
    campaign_part ← campaign_axis client_id day (active_overlay catalog client_id logic)
    template_label ← require (select_version_for_day p.template_windows day) "template label"
    rate_label ← require (select_version_for_day rate_card_versions day) "rate card"
    let group_part = group_axis client_id (active_overlay catalog client_id labels)
    ok (record {
      campaign_version_label = campaign_part.label;
      template_version_label = template_label;
      rate_card_version_label = rate_label;
      label_group_version_label = group_part.label;
      campaign_label_version_id = campaign_part.id;
      template_label_version_id = persistable client_id (lookup template_label p.manifest.ids);
      rate_card_version_id = persistable client_id (lookup rate_label p.manifest.ids);
      label_group_version_id = group_part.id;
      binding_day = day;
      campaign_rows = campaign_part.rows;
      label_group_rows = group_part.rows;
    })

  -- `catalog.get_for_client(client_id, id) if catalog and client_id and id else None`, of its kind
  unfoldable pub stored_overlay :
      Option CatalogStore → Option String → Option String → CatalogKind → Option CatalogVersion
  stored_overlay (some catalog) (some client_id) (some version_id) kind =
      if client_id == ""
      then none
      else if version_id == ""
      then none
      else elim (get_for_client client_id version_id catalog) [
        | none ↦ none
        | some v ↦ if v.kind == kind then some v else none
      ]
  stored_overlay _ _ _ kind = none

  -- the campaign axis of a run without an uploaded version
  unfoldable pub run_campaign_under :
      Option String → Option String → ConfigBundle → Option String → Axis
  run_campaign_under client_id version_id fallback (some label) = record {
    label = label;
    id = persistable client_id version_id;
    rows = none;
  }
  run_campaign_under client_id version_id fallback none = record {
    label = fallback.campaign_version_label;
    id =
        or_else (persistable client_id version_id)
          (persistable client_id fallback.campaign_label_version_id);
    rows = none;
  }

  unfoldable pub run_campaign_axis :
      Option String → Option String → ConfigBundle → Option CatalogVersion → Axis
  run_campaign_axis client_id version_id fallback (some v) = overlay client_id v
  run_campaign_axis client_id version_id fallback none =
      run_campaign_under client_id version_id fallback (packaged_label_for_id version_id)

  -- the template and the rate axis of a run
  unfoldable pub run_axis : Option String → Option String → String → Axis
  run_axis client_id version_id fallback_label =
      let label : String = elim (packaged_label_for_id version_id) [
        | none ↦ fallback_label
        | some label ↦ label
      ] in
      record {
        label = label;
        id =
            or_else (persistable client_id version_id)
              (persistable client_id (lookup label p.manifest.ids));
        rows = none;
      }

  unfoldable pub run_group_axis : Option String → Option String → Option CatalogVersion → Axis
  run_group_axis client_id version_id (some v) = overlay client_id v
  run_group_axis client_id version_id none =
      let label = truthy (packaged_label_for_id version_id) default_label_group_version in
      record {
        label = label;
        id =
            or_else (persistable client_id version_id)
              (persistable client_id (lookup label p.manifest.ids));
        rows = none;
      }

  unfoldable pub bind_configuration_for_run :
      Date
      → Option String
      → Option String
      → Option String
      → Option String
      → Option CatalogStore
      → Option String
      → Result BindingError ConfigBundle
  bind_configuration_for_run day campaign_id template_id rate_id group_id catalog client_id = do
    fallback ← bind_configuration day none none
    let campaign_part =
        run_campaign_axis client_id campaign_id fallback
          (stored_overlay catalog client_id campaign_id logic)
    let template_part = run_axis client_id template_id fallback.template_version_label
    let rate_part = run_axis client_id rate_id fallback.rate_card_version_label
    let group_part =
        run_group_axis client_id group_id (stored_overlay catalog client_id group_id labels)
    ok (record {
      campaign_version_label = campaign_part.label;
      template_version_label = template_part.label;
      rate_card_version_label = rate_part.label;
      label_group_version_label = group_part.label;
      campaign_label_version_id = campaign_part.id;
      template_label_version_id = template_part.id;
      rate_card_version_id = rate_part.id;
      label_group_version_id = group_part.id;
      binding_day = day;
      campaign_rows = campaign_part.rows;
      label_group_rows = group_part.rows;
    })
