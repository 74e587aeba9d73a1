-- ===== src/Registry/Catalog.antt =====
-- internal/registry/catalog.go: the catalog of manifests and bundles.
use ironclaw_go.Shared.{
  String, Bool, not, Option, none, some, List, [], ◌∷◌, ◌++◌, Bytes, bytes, Dict, get, put, keys,
  values, keep_if, any, if◌then◌else◌, ◌==◌, ◌||◌, ◌&&◌, contains_bytes, to_lower, Result, ok, err,
}
use ironclaw_go.Workspace.Clean.{is_slash}
use ironclaw_go.Extensions.Entries.{RegistryEntry}
use ironclaw_go.Registry.{ExtensionManifest, BundleDefinition, to_registry_entry, copy_bundles}

pub record Catalog : Type 0 where
  pub manifests : Dict ExtensionManifest
  pub bundles : Dict BundleDefinition

-- NewCatalog
abbrev pub new_catalog : Catalog
new_catalog = record { manifests = []; bundles = [] }

-- Register
unfoldable pub register : ExtensionManifest → Catalog → Catalog
register m c = record c { manifests = put m.name m c.manifests }

unfoldable pub register_all : List ExtensionManifest → Catalog → Catalog
unfolding register
register_all [] c = c
register_all (m ∷ ms) c = register_all ms (register m c)

-- LoadFromDir, by what DiscoverManifests answers
unfoldable pub load_from_dir :
    Result String (List ExtensionManifest) → Catalog → Catalog × Result String (Unit {0})
unfolding register_all
load_from_dir (err e) c = (c, err e)
load_from_dir (ok ms) c = (register_all ms c, ok tt)

-- Catalog.LoadBundles, by what LoadBundles answers
unfoldable pub load_bundles :
    Result String (Dict BundleDefinition) → Catalog → Catalog × Result String (Unit {0})
unfolding copy_bundles
load_bundles (err e) c = (c, err e)
load_bundles (ok bundles) c = (record c { bundles = copy_bundles bundles c.bundles }, ok tt)

-- Get
unfoldable pub get_manifest : String → Catalog → Option ExtensionManifest
get_manifest name c = get name c.manifests

-- List
unfoldable pub list : Catalog → List ExtensionManifest
list c = values c.manifests

-- ListByKind
unfoldable pub list_by_kind : String → Catalog → List ExtensionManifest
list_by_kind kind c = keep_if (λ m. m.kind == kind) (values c.manifests)

abbrev pub mentions : Bytes → String → Bool
mentions q text = contains_bytes (to_lower (bytes text)) q

-- matchManifest
unfoldable pub match_manifest : Bytes → ExtensionManifest → Bool
unfolding contains_bytes
match_manifest q m =
    mentions q m.name
    || mentions q m.display_name
    || mentions q m.description
    || any (mentions q) m.keywords

-- Search
unfoldable pub search : String → Catalog → List ExtensionManifest
unfolding match_manifest list
search query c =
    if query == ""
    then list c
    else keep_if (λ m. not m.hidden && match_manifest (to_lower (bytes query)) m)
        (values c.manifests)

-- GetBundle
unfoldable pub get_bundle : String → Catalog → Option BundleDefinition
get_bundle name c = get name c.bundles

-- ListBundles
unfoldable pub list_bundles : Catalog → List String
list_bundles c = keys c.bundles

-- What stands after the first slash, if there is one.
unfoldable pub after_slash : String → Option String
after_slash String.[] = none
after_slash (String.◌∷◌ c s) = let rest = after_slash s in if is_slash c then some s else rest

abbrev pub found : Option String → Catalog → List ExtensionManifest
found none c = []
found (some name) c = elim (get name c.manifests) [ none ↦ [] | some m ↦ m ∷ [] ]

-- The manifests that the references of a bundle name.
unfoldable pub members : List String → Catalog → List ExtensionManifest
unfolding after_slash
members [] c = []
members (ref ∷ refs) c = found (after_slash ref) c ++ members refs c

-- BundleExtensions: none where there is no such bundle
unfoldable pub bundle_extensions : String → Catalog → Option (List ExtensionManifest)
unfolding members
bundle_extensions name c = elim (get name c.bundles) [
  | none ↦ none
  | some b ↦ some (members b.extensions c)
]

unfoldable pub entries : List ExtensionManifest → List RegistryEntry
unfolding to_registry_entry
entries [] = []
entries (m ∷ ms) = elim (to_registry_entry m) [ err e ↦ entries ms | ok e ↦ e ∷ entries ms ]

-- AllEntries
unfoldable pub all_entries : Catalog → List RegistryEntry
unfolding entries
all_entries c = entries (values c.manifests)
