-- ===== src/Config/Identity.antt =====
-- packages/config/dfip_config/catalog_identity.py: which catalog version ids a tenant may store.
-- The manifest is the packaged manifest.json, a file read at run time: its owner and its ids are
-- the fields of the parameter `Manifest`.
pub mod Ownership
use dfip_v.Prelude.{
  String, Bool, Option, none, some, List, ◌==◌, string_eq, option_eq, any, if◌then◌else◌, ◌&&◌,
  ◌||◌, not,
}
use dfip_v.Prelude.Dict.{Dict, values}
use dfip_v.Prelude.Text.{is_falsy}

pub record Manifest : Type 0 where
  pub client_id : String
  pub ids : Dict String String
  pub campaign_versions : List String
  pub template_versions : List String

module _ (manifest : Manifest) where
  -- `version_id in packaged_catalog_version_ids()`
  unfoldable pub is_packaged : String → Bool
  unfolding any values
  is_packaged version_id = any (λ packaged_id. packaged_id == version_id) (values manifest.ids)

  -- the present `version_id`, with its keyword `owner_client_id`
  unfoldable pub persistable_of : Option String → String → Option String → Option String
  persistable_of client_id version_id (some owner) =
      if is_falsy client_id
      then some version_id
      else if some owner == client_id
      then some version_id
      else none
  persistable_of client_id version_id none =
      if is_falsy client_id
      then some version_id
      else if is_packaged version_id
      then (if client_id == some manifest.client_id then some version_id else none)
      else none

  unfoldable pub persistable_catalog_version_id :
      Option String → Option String → Option String → Option String
  unfolding persistable_of
  persistable_catalog_version_id client_id none owner_client_id = none
  persistable_catalog_version_id client_id (some version_id) owner_client_id =
      if version_id == "" then none else persistable_of client_id version_id owner_client_id

  unfoldable pub strip_foreign_packaged_catalog_version_id :
      Option String → Option String → Option String
  strip_foreign_packaged_catalog_version_id none version_id = version_id
  strip_foreign_packaged_catalog_version_id (some client_id) none = none
  strip_foreign_packaged_catalog_version_id (some client_id) (some version_id) =
      if version_id == "" || client_id == ""
      then some version_id
      else if is_packaged version_id && not (client_id == manifest.client_id)
      then none
      else some version_id
