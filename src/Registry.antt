-- ===== src/Registry.antt =====
-- internal/registry/manifest.go: the manifests of extensions. ManifestKind is a string.
pub mod Catalog
pub mod Laws
pub mod Tests
use ironclaw_go.Shared.{
  String, Bool, Option, none, some, List, [], ◌∷◌, Bytes, Dict, get, put, if◌then◌else◌, ◌==◌, ◌||◌,
  starts_with, skip, Result, ok, err, ◌>>=◌,
}
use ironclaw_go.Extensions.Entries.{
  ExtensionKind, ExtensionSource, source_of, AuthHint, RegistryEntry,
}

pub record SourceSpec : Type 0 where
  pub dir : String
  pub capabilities : String
  pub crate_name : String

pub record ArtifactSpec : Type 0 where
  pub url : String
  pub sha256 : String
  pub capabilities_url : String

pub record AuthSummary : Type 0 where
  pub method : String
  pub provider : String
  pub secrets : List String
  pub shared_auth : String
  pub setup_url : String

pub record BundleDefinition : Type 0 where
  pub display_name : String
  pub description : String
  pub extensions : List String
  pub shared_auth : String
  pub aliases : List String

pub record ExtensionManifest : Type 0 where
  pub name : String
  pub display_name : String
  pub kind : String
  pub version : String
  pub description : String
  pub keywords : List String
  pub source : Option SourceSpec
  pub artifacts : Dict ArtifactSpec
  pub auth_summary : Option AuthSummary
  pub tags : List String
  pub url : String
  pub auth : String
  pub hidden : Bool

pub data ManifestError : Type 0 where
  name_required : ManifestError
  kind_required display_name_required missing_url : String → ManifestError

-- ExtensionManifest.Validate
unfoldable pub validate_manifest : ExtensionManifest → Result ManifestError (Unit {0})
validate_manifest m =
    if m.name == ""
    then err name_required
    else if m.kind == ""
    then err (kind_required m.name)
    else if m.display_name == ""
    then err (display_name_required m.name)
    else ok tt

-- ToExtensionKind
unfoldable pub to_extension_kind : String → ExtensionKind
to_extension_kind kind =
    if kind == "tool"
    then "wasm_tool"
    else if kind == "channel"
    then "wasm_channel"
    else if kind == "mcp_server"
    then "mcp_server"
    else "wasm_tool"

abbrev pub hint_of : String → AuthHint
hint_of kind = record { kind = kind; setup_url = "" }

-- The hint of an MCP server; the prefix "oauth_pre_configured:" has 21 characters.
unfoldable pub mcp_hint : String → AuthHint
mcp_hint auth =
    if auth == "" || auth == "dcr"
    then hint_of "dcr"
    else if auth == "none"
    then hint_of "none"
    else if starts_with auth "oauth_pre_configured:"
    then record { kind = "oauth_pre_configured"; setup_url = skip 21 auth }
    else hint_of "dcr"

abbrev pub entry_of :
    ExtensionManifest
    → ExtensionKind
    → ExtensionSource
    → Option ExtensionSource
    → AuthHint
    → RegistryEntry
entry_of m kind source fallback hint = record {
  name = m.name;
  display_name = m.display_name;
  kind = kind;
  description = m.description;
  keywords = m.keywords;
  source = source;
  fallback_source = fallback;
  auth_hint = hint;
  version = m.version;
  hidden = m.hidden;
}

abbrev pub mcp_entry : ExtensionManifest → RegistryEntry
mcp_entry m =
    entry_of m "mcp_server" (record (source_of "mcp_url") { url = m.url }) none (mcp_hint m.auth)

-- toMcpRegistryEntry
unfoldable pub to_mcp_registry_entry : ExtensionManifest → Result ManifestError RegistryEntry
unfolding mcp_hint
to_mcp_registry_entry m = if m.url == "" then err (missing_url m.name) else ok (mcp_entry m)

-- buildableSource
unfoldable pub buildable_source : ExtensionManifest → Option ExtensionSource
buildable_source m = elim m.source [
  | none ↦ none
  | some s ↦ some (record (source_of "wasm_buildable") {
    source_dir = s.dir;
    build_dir = s.dir;
    crate_name = s.crate_name;
  })
]

abbrev pub built_source : Option ExtensionSource → ExtensionSource
built_source none = source_of "wasm_buildable"
built_source (some s) = s

-- A build of the module that can be downloaded goes before its source.
unfoldable pub sources :
    Option ArtifactSpec → Option ExtensionSource → ExtensionSource × Option ExtensionSource
sources none buildable = (built_source buildable, none)
sources (some a) buildable = if a.url == "" then (built_source buildable, none) else (
  record (source_of "wasm_download") { wasm_url = a.url; capabilities_url = a.capabilities_url },
  buildable,
)

unfoldable pub wasm_hint : Option AuthSummary → AuthHint
wasm_hint none = hint_of "none"
wasm_hint (some a) =
    if a.method == "oauth" || a.method == "manual"
    then hint_of "capabilities_auth"
    else if a.method == "none"
    then hint_of "none"
    else hint_of "capabilities_auth"

-- toWasmRegistryEntry
unfoldable pub to_wasm_registry_entry : ExtensionManifest → RegistryEntry
unfolding sources buildable_source wasm_hint to_extension_kind
to_wasm_registry_entry m =
    let (source, fallback) = sources (get "wasm32-wasip2" m.artifacts) (buildable_source m) in
    entry_of m (to_extension_kind m.kind) source fallback (wasm_hint m.auth_summary)

-- ToRegistryEntry
unfoldable pub to_registry_entry : ExtensionManifest → Result ManifestError RegistryEntry
unfolding to_mcp_registry_entry to_wasm_registry_entry
to_registry_entry m =
    if m.kind == "mcp_server" then to_mcp_registry_entry m else ok (to_wasm_registry_entry m)

-- MergeBundles, where a file that is nil is none: later files take the place of earlier ones.
unfoldable pub copy_bundles : Dict BundleDefinition → Dict BundleDefinition → Dict BundleDefinition
copy_bundles [] into = into
copy_bundles ((name, b) ∷ rest) into = copy_bundles rest (put name b into)

unfoldable pub merge_bundles :
    List (Option (Dict BundleDefinition)) → Dict BundleDefinition → Dict BundleDefinition
unfolding copy_bundles
merge_bundles [] merged = merged
merge_bundles (none ∷ files) merged = merge_bundles files merged
merge_bundles (some bundles ∷ files) merged = merge_bundles files (copy_bundles bundles merged)
