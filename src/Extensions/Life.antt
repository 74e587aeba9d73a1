-- ===== src/Extensions/Life.antt =====
-- When an extension of internal/extensions/extensions.go is active.
use ironclaw_go.Shared.{
  String, Bool, true, false, ◌≡◌, refl, Option, none, some, List, [], ◌∷◌, Dict, Bytes, get, put,
  remove, get-put, get-remove, ◌==◌, Result-cases, Option-cases, Bool-cases, inl, inr, All,
}
use ironclaw_go.Workspace.{Os, Entry}
use ironclaw_go.Workspace.Clean.{join}
use ironclaw_go.Extensions.{
  Extension, ExtensionType, tool, channel, Manager, set_active, activate, deactivate, extension_at,
  add_found, add_all, discover_type, discover, type_dir, install, write_if, uninstall, Call,
  discovers, activates, deactivates, uninstalls, installs, step, run,
}

abbrev pub active_of : Option Extension → Bool
active_of none = false
active_of (some e) = e.active

-- Whether the extension of the name is active.
abbrev pub active_at : String → Manager → Bool
active_at name m = active_of (get name m.extensions)

-- Not a call of Activate for the name.
abbrev pub NoStart : String → Call → Type 0
NoStart name (activates other) = (other == name) ≡ false
NoStart name discovers = Unit
NoStart name (deactivates other) = Unit
NoStart name (uninstalls other) = Unit
NoStart name (installs other kind wasm config) = Unit

put-idle :
    (j k : String) (e : Extension) (m : Dict Extension)
    → active_of (get j m) ≡ false
    → e.active ≡ false
    → active_of (get j (put k e m)) ≡ false
put-idle j k e m h idle = elim (Bool-cases (k == j)) [
  | inl here ↦ rw (get-put k j e m, here) idle
  | inr away ↦ rw (get-put k j e m, away) h
]

remove-idle :
    (j k : String) (m : Dict Extension)
    → active_of (get j m) ≡ false
    → active_of (get j (remove k m)) ≡ false
remove-idle j k m h = elim (Bool-cases (k == j)) [
  | inl here ↦ rw (get-remove k j m, here) refl
  | inr away ↦ rw (get-remove k j m, away) h
]

stop-idle :
    (j k : String) (o : Option Extension) (m : Manager)
    → active_at j m ≡ false
    → active_at j (set_active false k o m).0 ≡ false
stop-idle j k none m h = h
stop-idle j k (some e) m h = put-idle j k (record e { active = false }) m.extensions h refl

start-idle :
    (j k : String) (o : Option Extension) (m : Manager)
    → (k == j) ≡ false
    → active_at j m ≡ false
    → active_at j (set_active true k o m).0 ≡ false
start-idle j k none m away h = h
start-idle j k (some e) m away h =
    rw (get-put k j (record e { active = true }) m.extensions, away) h

module _ {S : Type 0} (os : Os S) where
  add_found-idle :
      (j : String) (kind : ExtensionType) (dir : String) (e : Entry) (s : S) (m : Manager)
      → active_at j m ≡ false
      → active_at j (add_found os kind dir e s m).1 ≡ false
  unfolding add_found extension_at
  add_found-idle j kind dir e s m h = elim (Bool-cases e.is_dir) [
    | inr file ↦ rw file h
    | inl folder ↦
        elim (Result-cases (os.stat (extension_at kind (join dir e.name) e.name).path s).0) [
          | inl (info, there) ↦ rw folder (
              rw there (
                put-idle j e.name (extension_at kind (join dir e.name) e.name) m.extensions h refl))
          | inr (text, missing) ↦ rw folder (rw missing h)
        ]
  ]

  add_all-idle :
      (j : String) (kind : ExtensionType) (dir : String) (es : List Entry) (s : S) (m : Manager)
      → active_at j m ≡ false
      → active_at j (add_all os kind dir es s m).1 ≡ false
  unfolding add_all
  add_all-idle j kind dir [] s m h = h
  add_all-idle j kind dir (e ∷ es) s m h =
      let next = add_found os kind dir e s m in
      add_all-idle j kind dir es next.0 next.1 (add_found-idle j kind dir e s m h)

  discover_type-idle :
      (j : String) (kind : ExtensionType) (s : S) (m : Manager)
      → active_at j m ≡ false
      → active_at j (discover_type os kind s m).1 ≡ false
  unfolding discover_type
  discover_type-idle j kind s m h =
      let read = os.read_dir (type_dir kind m) s in
      elim (Result-cases read.0) [
        | inl (es, there) ↦
            rw (there, discover_type) (add_all-idle j kind (type_dir kind m) es read.1 m h)
        | inr (text, missing) ↦ rw (missing, discover_type) h
      ]

  uninstall-idle :
      (j k : String) (s : S) (m : Manager)
      → active_at j m ≡ false
      → active_at j (uninstall os k s m).1.0 ≡ false
  unfolding uninstall
  uninstall-idle j k s m h =
      let gone = remove-idle j k m.extensions h in
      elim (Option-cases (get k m.extensions)) [
        | inl missing ↦ rw (missing, uninstall) gone
        | inr (e, at) ↦ elim (Result-cases (os.remove_all (join (type_dir e.kind m) k) s).0) [
          | inl (u, done) ↦ rw (at, uninstall) (rw (done, uninstall) gone)
          | inr (text, failed) ↦ rw (at, uninstall) (rw (failed, uninstall) gone)
        ]
      ]

  install-idle :
      (j k : String) (kind : ExtensionType) (wasm : Bytes) (config : Option Bytes) (s : S)
      (m : Manager)
      → active_at j m ≡ false
      → active_at j (install os k kind wasm config s m).1.0 ≡ false
  unfolding install extension_at
  install-idle j k kind wasm config s m h =
      let dest = join (type_dir kind m) k in
      let found = extension_at kind dest k in
      let made = os.mkdir_all dest s in
      let written = os.write_file found.path wasm made.1 in
      let configured = write_if os found.config_path config written.1 in
      elim (Result-cases made.0) [
        | inr (text, failed) ↦ rw (failed, install) h
        | inl (u, dir) ↦ elim (Result-cases written.0) [
          | inr (text, failed) ↦ rw (dir, install) (rw (failed, install) h)
          | inl (u', placed) ↦ elim (Result-cases configured.0) [
            | inr (text, failed) ↦ rw (dir, install) (rw (placed, install) (rw (failed, install) h))
            | inl (u'', whole) ↦
                rw (dir, install)
                  (rw (placed, install)
                    (rw (whole, install) (put-idle j k found m.extensions h refl)))
          ]
        ]
      ]

  step-idle :
      (j : String) (call : Call) (s : S) (m : Manager)
      → NoStart j call
      → active_at j m ≡ false
      → active_at j (step os call s m).1 ≡ false
  unfolding step discover activate deactivate
  step-idle j discovers s m no_start h =
      let first = discover_type os tool s m in
      discover_type-idle j channel first.0 first.1 (discover_type-idle j tool s m h)
  step-idle j (activates k) s m away h = start-idle j k (get k m.extensions) m away h
  step-idle j (deactivates k) s m no_start h = stop-idle j k (get k m.extensions) m h
  step-idle j (uninstalls k) s m no_start h = uninstall-idle j k s m h
  step-idle j (installs k kind wasm config) s m no_start h = install-idle j k kind wasm config s m h

  -- Whatever Discover finds on the disk and whatever is installed, deactivated or uninstalled, an extension
  -- that is not active stays so until Activate is called with its name.
  pub run-idle :
      (j : String) (calls : List Call) (s : S) (m : Manager)
      → All (NoStart j) calls
      → active_at j m ≡ false
      → active_at j (run os calls s m).1 ≡ false
  run-idle j [] s m none_starts h = h
  run-idle j (call ∷ calls) s m (no_start, later) h =
      let next = step os call s m in
      run-idle j calls next.0 next.1 later (step-idle j call s m no_start h)
