-- ===== src/Config/Resolve/Blank.antt =====
-- A campaign that matches no row has no labels.
use dfip_v.Prelude.{◌≡◌, ◌⊎◌, inl, inr, refl, String, string_eq, Option, none, some, List}
use dfip_v.Prelude.Dict.{lookup}
use dfip_v.Config.Catalog.{CatalogRow}
use dfip_v.Config.Resolve.{
  CampaignResolution, matched, resolve_campaign_label, campaign_under, campaign_found,
  campaign_resolution_from_row, match_key, first_match_index,
}

abbrev pub Labelled : CampaignResolution → Type 0
Labelled r = (r.match_status ≡ matched) ⊎ (r.filter_logic_1 ≡ none)

campaign_found-labels : (o : Option CatalogRow) → Labelled (campaign_found o)
unfolding campaign_found campaign_resolution_from_row
campaign_found-labels none = inr refl
campaign_found-labels (some row) = inl refl

campaign_under-labels :
    (rows : List CatalogRow) (k : Option String) → Labelled (campaign_under rows k)
unfolding campaign_under
campaign_under-labels rows none = inr refl
campaign_under-labels rows (some key) =
    campaign_found-labels (lookup key (first_match_index rows "campaign_name"))

pub resolve_campaign_label-labels :
    (rows : List CatalogRow) (name : Option String) → Labelled (resolve_campaign_label rows name)
unfolding resolve_campaign_label
resolve_campaign_label-labels rows name = campaign_under-labels rows (match_key name)
