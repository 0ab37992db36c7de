-- ===== src/Config/Identity/Ownership.antt =====
-- What the identity functions let through.
use dfip_v.Config.Identity.{
  Manifest, is_packaged, persistable_of, persistable_catalog_version_id,
  strip_foreign_packaged_catalog_version_id,
}
use dfip_v.Prelude.{String, ◌≡◌, ◌≢◌, ◌⊎◌, refl, true, Option, none, some, arith, eq_iff, string_eq}

module _ (manifest : Manifest) where
  -- For a named tenant a version id is stored only if it is not empty and either its recorded owner
  -- is the tenant or, with no recorded owner, it is a packaged id and the tenant owns the package.
  pub persistable_owned :
      (client_id version_id : String) (given owner : Option String)
      → client_id ≢ ""
      → persistable_catalog_version_id manifest (some client_id) given owner ≡ some version_id
      → (given ≡ some version_id)
        × (version_id ≢ "")
        × ((owner ≡ some client_id)
            ⊎ ((owner ≡ none)
                × (is_packaged manifest version_id ≡ true)
                × (client_id ≡ manifest.client_id)))
  unfolding persistable_catalog_version_id persistable_of
  persistable_owned c v none owner hc h = ground arith
  persistable_owned c v (some g) none hc h =
      ground (arith, eq_iff c "", eq_iff g "", eq_iff c manifest.client_id)
  persistable_owned c v (some g) (some o) hc h =
      ground (arith, eq_iff c "", eq_iff g "", eq_iff o c)

  -- What may be stored with no recorded owner survives the check that the run store makes before it
  -- writes a run, so a bound version id is never lost between binding and storage.
  pub strip-persistable :
      (client_id given : Option String)
      → strip_foreign_packaged_catalog_version_id manifest client_id
          (persistable_catalog_version_id manifest client_id given none)
        ≡ persistable_catalog_version_id manifest client_id given none
  unfolding persistable_catalog_version_id persistable_of strip_foreign_packaged_catalog_version_id
  strip-persistable none given = refl
  strip-persistable (some c) none = refl
  strip-persistable (some c) (some g) =
      ground (arith, eq_iff c "", eq_iff g "", eq_iff c manifest.client_id)
