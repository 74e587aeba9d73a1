-- ===== src/Registry/Tests.antt =====
-- Manifests of internal/registry on examples.
use ironclaw_go.Shared.{values, values, true, ◌≡◌, refl, none, [], put, ok, length}
use ironclaw_go.Registry.{ExtensionManifest, validate_manifest}
use ironclaw_go.Registry.Catalog.{new_catalog, search, bundle_extensions}
use ironclaw_go.Registry.Catalog

abbrev mail : ExtensionManifest
mail = record {
  name = "mail";
  display_name = "Mail";
  kind = "channel";
  version = "";
  description = "reads mail";
  keywords = [];
  source = none;
  artifacts = [];
  auth_summary = none;
  tags = [];
  url = "";
  auth = "";
  hidden = true;
}

-- A hidden manifest is found by the empty query alone.
shown : length (search "" (Catalog.register mail new_catalog)) ≡ 1
unfolding search Catalog.register values put
shown = refl

not_found : length (search "mail" (Catalog.register mail new_catalog)) ≡ 0
unfolding search Catalog.register values put
not_found = refl

valid : validate_manifest mail ≡ ok tt
unfolding validate_manifest
valid = refl
