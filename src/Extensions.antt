-- ===== src/Extensions.antt =====
-- internal/extensions/extensions.go: the installed extensions. What the operating system answers is the
-- parameter of Workspace.
pub mod Entries
pub mod Life
pub mod Tests
use ironclaw_go.Shared.{
  String, Bool, true, false, Option, none, some, List, [], ◌∷◌, Bytes, Dict, get, put, remove,
  values, keep_if, if◌then◌else◌, concat, Result, ok, err,
}
use ironclaw_go.Workspace.Clean.{join}
use ironclaw_go.Workspace.{Os, Entry}

-- ExtensionType
pub data ExtensionType : Type 0 where
  tool channel : ExtensionType

unfoldable pub string_of : ExtensionType → String
string_of tool = "tool"
string_of channel = "channel"

abbrev pub same_type : ExtensionType → ExtensionType → Bool
same_type tool tool = true
same_type tool channel = false
same_type channel tool = false
same_type channel channel = true

pub record Extension : Type 0 where
  pub name : String
  pub kind : ExtensionType
  pub version : String
  pub path : String
  pub config_path : String
  pub active : Bool

pub record Manager : Type 0 where
  pub extensions : Dict Extension
  pub registry_dir : String

pub data ExtensionsError : Type 0 where
  not_found : String → ExtensionsError
  create_dir write_wasm write_config from_os : String → ExtensionsError

-- NewManager
abbrev pub new_manager : String → Manager
new_manager dir = record { extensions = []; registry_dir = dir }

abbrev pub type_dir : ExtensionType → Manager → String
type_dir kind m = join m.registry_dir (concat (string_of kind ∷ "s" ∷ []))

abbrev pub file_in : String → String → String → String
file_in dir name suffix = join dir (concat (name ∷ suffix ∷ []))

-- The extension of a directory of its own, not active.
unfoldable pub extension_at : ExtensionType → String → String → Extension
unfolding join
extension_at kind dir name = record {
  name = name;
  kind = kind;
  version = "";
  path = file_in dir name ".wasm";
  config_path = file_in dir name ".json";
  active = false;
}

-- Get
unfoldable pub get_extension : String → Manager → Option Extension
get_extension name m = get name m.extensions

-- List
unfoldable pub list : Manager → List Extension
list m = values m.extensions

-- ListByType
unfoldable pub list_by_type : ExtensionType → Manager → List Extension
list_by_type kind m = keep_if (λ e. same_type e.kind kind) (values m.extensions)

abbrev pub set_active :
    Bool → String → Option Extension → Manager → Manager × Result ExtensionsError (Unit {0})
set_active on name none m = (m, err (not_found name))
set_active on name (some e) m =
    (record m { extensions = put name (record e { active = on }) m.extensions }, ok tt)

-- Activate
unfoldable pub activate : String → Manager → Manager × Result ExtensionsError (Unit {0})
activate name m = set_active true name (get name m.extensions) m

-- Deactivate
unfoldable pub deactivate : String → Manager → Manager × Result ExtensionsError (Unit {0})
deactivate name m = set_active false name (get name m.extensions) m

module _ {S : Type 0} (os : Os S) where
  -- An entry that is a directory with the module in it.
  unfoldable pub add_found : ExtensionType → String → Entry → S → Manager → S × Manager
  unfolding extension_at
  add_found kind dir e s m =
      let found = extension_at kind (join dir e.name) e.name in
      let (answer, t) = os.stat found.path s in
      if e.is_dir
      then elim answer [
        | ok info ↦ (t, record m { extensions = put e.name found m.extensions })
        | err text ↦ (t, m)
      ]
      else (s, m)

  unfoldable pub add_all : ExtensionType → String → List Entry → S → Manager → S × Manager
  unfolding add_found
  add_all kind dir [] s m = (s, m)
  add_all kind dir (e ∷ es) s m = let (t, n) = add_found kind dir e s m in add_all kind dir es t n

  unfoldable pub discover_type : ExtensionType → S → Manager → S × Manager
  unfolding add_all
  discover_type kind s m =
      let (answer, t) = os.read_dir (type_dir kind m) s in
      elim answer [ err text ↦ (t, m) | ok entries ↦ add_all kind (type_dir kind m) entries t m ]

  -- Discover, which never fails
  unfoldable pub discover : S → Manager → S × Manager
  unfolding discover_type
  discover s m = let (t, n) = discover_type tool s m in discover_type channel t n

  abbrev pub write_if : String → Option Bytes → S → Result String (Unit {0}) × S
  write_if path none s = (ok tt, s)
  write_if path (some bytes) s = os.write_file path bytes s

  -- Install, where a config that is nil is none
  unfoldable pub install :
      String
      → ExtensionType
      → Bytes
      → Option Bytes
      → S
      → Manager
      → S × (Manager × Result ExtensionsError (Unit {0}))
  unfolding extension_at
  install name kind wasm config s m =
      let dest = join (type_dir kind m) name in
      let found = extension_at kind dest name in
      let (made, t) = os.mkdir_all dest s in
      let (written, v) = os.write_file found.path wasm t in
      let (configured, w) = write_if found.config_path config v in
      elim made [
        | err text ↦ (t, (m, err (create_dir text)))
        | ok u ↦ elim written [
          | err text ↦ (v, (m, err (write_wasm text)))
          | ok u' ↦ elim configured [
            | err text ↦ (w, (m, err (write_config text)))
            | ok u'' ↦ (w, (record m { extensions = put name found m.extensions }, ok tt))
          ]
        ]
      ]

  -- Uninstall
  unfoldable pub uninstall :
      String → S → Manager → S × (Manager × Result ExtensionsError (Unit {0}))
  unfolding join
  uninstall name s m =
      let n = record m { extensions = remove name m.extensions } in
      elim (get name m.extensions) [
        | none ↦ (s, (n, err (not_found name)))
        | some e ↦
            let (removed, t) = os.remove_all (join (type_dir e.kind m) name) s in
            elim removed [ err text ↦ (t, (n, err (from_os text))) | ok u ↦ (t, (n, ok tt)) ]
      ]

  -- ReadWASM
  unfoldable pub read_wasm : String → S → Manager → S × Result ExtensionsError Bytes
  read_wasm name s m = elim (get name m.extensions) [
    | none ↦ (s, err (not_found name))
    | some e ↦
        let (answer, t) = os.read_file e.path s in
        elim answer [ err text ↦ (t, err (from_os text)) | ok bytes ↦ (t, ok bytes) ]
  ]

-- The calls that change the extensions.
pub data Call : Type 0 where
  discovers : Call
  activates deactivates uninstalls : String → Call
  installs : String → ExtensionType → Bytes → Option Bytes → Call

module _ {S : Type 0} (os : Os S) where
  unfoldable pub step : Call → S → Manager → S × Manager
  unfolding discover activate deactivate uninstall install
  step discovers s m = discover os s m
  step (activates name) s m = (s, (activate name m).0)
  step (deactivates name) s m = (s, (deactivate name m).0)
  step (uninstalls name) s m = let (t, (n, r)) = uninstall os name s m in (t, n)
  step (installs name kind wasm config) s m =
      let (t, (n, r)) = install os name kind wasm config s m in (t, n)

  abbrev pub run : List Call → S → Manager → S × Manager
  run [] s m = (s, m)
  run (call ∷ calls) s m = let (t, n) = step call s m in run calls t n
