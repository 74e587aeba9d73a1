-- ===== src/Registry/Laws.antt =====
-- What becomes of a manifest of internal/registry/manifest.go in the index of internal/extensions/registry.go.
use ironclaw_go.Shared.{
  String, Bool, true, false, ◌≡◌, refl, ◌⊎◌, inl, inr, put, if◌then◌else◌, ◌==◌, eq_iff, Bool-cases,
  ok, err,
}
use ironclaw_go.Extensions.Entries.{RegistryEntry, EntryRegistry, validate, register}
use ironclaw_go.Registry.{
  ExtensionManifest, ManifestError, name_required, kind_required, display_name_required,
  missing_url, validate_manifest, to_registry_entry, to_mcp_registry_entry, to_wasm_registry_entry,
  to_extension_kind, mcp_entry,
}

-- A manifest that is valid has a name.
named_of :
    (n k d : Bool) (a b c : ManifestError)
    → (if n then err a else if k then err b else if d then err c else ok tt) ≡ ok tt
    → n ≡ false
named_of false k d a b c h = refl
named_of true k d a b c h = cc

valid-named : (m : ExtensionManifest) → validate_manifest m ≡ ok tt → (m.name == "") ≡ false
unfolding validate_manifest
valid-named m h =
    named_of (m.name == "") (m.kind == "") (m.display_name == "") name_required
      (kind_required m.name) (display_name_required m.name) h

-- Every kind of manifest has a kind of extension.
to_extension_kind-full : (kind : String) → (to_extension_kind kind == "") ≡ false
unfolding to_extension_kind
to_extension_kind-full kind = elim (Bool-cases (kind == "tool")) [
  | inl a ↦ rw a refl
  | inr a ↦ elim (Bool-cases (kind == "channel")) [
    | inl b ↦ rw (a, b) refl
    | inr b ↦ elim (Bool-cases (kind == "mcp_server")) [
      | inl c ↦ rw (a, b, c) refl
      | inr c ↦ rw (a, b, c) refl
    ]
  ]
]

validate-full :
    (e : RegistryEntry) → (e.name == "") ≡ false → (e.kind == "") ≡ false → validate e ≡ ok tt
unfolding validate
validate-full e named kind = rw (named, kind) refl

register-full :
    (e : RegistryEntry) (r : EntryRegistry)
    → (e.name == "") ≡ false
    → (e.kind == "") ≡ false
    → register e r ≡ (put e.name e r, ok tt)
unfolding register
register-full e r named kind = rw (validate-full e named kind, register) refl

-- A manifest that passed its validation either is an MCP server without an address, which is refused by
-- ToRegistryEntry, or becomes an entry that the index takes under the manifest's name.
pub to_registry_entry-registers :
    (m : ExtensionManifest) (r : EntryRegistry)
    → validate_manifest m ≡ ok tt
    → ((m.kind ≡ "mcp_server") × ((m.url ≡ "") × (to_registry_entry m ≡ err (missing_url m.name))))
      ⊎ ((e : RegistryEntry) × ((to_registry_entry m ≡ ok e)
            × (register e r ≡ (put m.name e r, ok tt))))
unfolding to_registry_entry to_mcp_registry_entry to_wasm_registry_entry
to_registry_entry-registers m r valid =
    let named = valid-named m valid in
    elim (Bool-cases (m.kind == "mcp_server")) [
      | inr wasm ↦ inr (
        to_wasm_registry_entry m,
        (
          rw wasm refl,
          register-full (to_wasm_registry_entry m) r named (to_extension_kind-full m.kind),
        ),
      )
      | inl mcp ↦ elim (Bool-cases (m.url == "")) [
        | inl no_url ↦ inl (
          (eq_iff m.kind "mcp_server").0 mcp,
          ((eq_iff m.url "").0 no_url, rw (mcp, no_url) refl),
        )
        | inr url ↦
            inr (mcp_entry m, (rw (mcp, url) refl, register-full (mcp_entry m) r named refl))
      ]
    ]
