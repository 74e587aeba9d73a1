-- ===== src/Extensions/Entries.antt =====
-- internal/extensions/registry.go and types.go: the index of the extensions that there are.
use ironclaw_go.Shared.{
  String, Bool, true, not, Option, List, map, Dict, get, put, values, keep_if, if◌then◌else◌, ◌==◌,
  ◌&&◌, Result, ok, err,
}

-- ExtensionKind: a string
abbrev pub ExtensionKind : Type 0
ExtensionKind = String

pub record ExtensionSource : Type 0 where
  pub kind : String
  pub url : String
  pub wasm_url : String
  pub capabilities_url : String
  pub source_dir : String
  pub build_dir : String
  pub crate_name : String
  pub relay_url : String

-- A source of one type, its other fields empty.
abbrev pub source_of : String → ExtensionSource
source_of kind = record {
  kind = kind;
  url = "";
  wasm_url = "";
  capabilities_url = "";
  source_dir = "";
  build_dir = "";
  crate_name = "";
  relay_url = "";
}

pub record AuthHint : Type 0 where
  pub kind : String
  pub setup_url : String

pub record RegistryEntry : Type 0 where
  pub name : String
  pub display_name : String
  pub kind : ExtensionKind
  pub description : String
  pub keywords : List String
  pub source : ExtensionSource
  pub fallback_source : Option ExtensionSource
  pub auth_hint : AuthHint
  pub version : String
  pub hidden : Bool

pub data ResultSource : Type 0 where
  registry discovered : ResultSource

pub record SearchResult : Type 0 where
  pub entry : RegistryEntry
  pub source : ResultSource
  pub validated : Bool

pub data EntryError : Type 0 where
  name_required : EntryError
  kind_required : String → EntryError

-- RegistryEntry.Validate
unfoldable pub validate : RegistryEntry → Result EntryError (Unit {0})
validate r =
    if r.name == ""
    then err name_required
    else if r.kind == ""
    then err (kind_required r.name)
    else ok tt

-- EntryRegistry
abbrev pub EntryRegistry : Type 0
EntryRegistry = Dict RegistryEntry

-- Register
unfoldable pub register :
    RegistryEntry → EntryRegistry → EntryRegistry × Result EntryError (Unit {0})
unfolding validate
register e r = elim (validate e) [ err text ↦ (r, err text) | ok u ↦ (put e.name e r, ok tt) ]

-- EntryRegistry.Get
unfoldable pub get_entry : String → EntryRegistry → Option RegistryEntry
get_entry name r = get name r

-- EntryRegistry.List
unfoldable pub list_entries : EntryRegistry → List RegistryEntry
list_entries r = values r

unfoldable pub match_entry : RegistryEntry → String → Bool
match_entry e query = if query == "" then true else true

abbrev pub result_of : RegistryEntry → SearchResult
result_of e = record { entry = e; source = registry; validated = true }

-- EntryRegistry.Search
unfoldable pub search_entries : String → EntryRegistry → List SearchResult
unfolding match_entry
search_entries query r =
    map result_of (keep_if (λ e. not e.hidden && match_entry e query) (values r))

-- EntryRegistry.ListByKind
unfoldable pub list_by_kind : ExtensionKind → EntryRegistry → List RegistryEntry
list_by_kind kind r = keep_if (λ e. e.kind == kind) (values r)
