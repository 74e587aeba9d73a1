-- ===== src/Workspace.antt =====
-- internal/workspace/workspace.go: the files of a user. What the operating system answers is a record of
-- functions of the path and of the files there are.
pub mod Clean
pub mod Paths
pub mod Names
pub mod Rooted
pub mod Inside
pub mod Tests
use ironclaw_go.Shared.{
  ℕ, ◌*◌, String, Bool, true, false, not, Option, none, some, List, Result, ok, err, map, Bytes,
  contains, starts_with, if◌then◌else◌, ◌==◌, ltb,
}
use ironclaw_go.Workspace.Clean.{join, clean}

-- DirEntry
pub record DirEntry : Type 0 where
  pub name : String
  pub is_dir : Bool
  pub size : ℕ

-- FSWorkspace
pub record Workspace : Type 0 where
  pub base_dir : String
  pub max_size : ℕ

-- NewFSWorkspace
abbrev pub new_workspace : String → Workspace
new_workspace base = record { base_dir = base; max_size = 10 * 1024 * 1024 }

pub record FileInfo : Type 0 where
  pub is_dir : Bool
  pub size : ℕ

-- An entry as os.ReadDir answers it; what its Info answers is none where that is an error.
pub record Entry : Type 0 where
  pub name : String
  pub is_dir : Bool
  pub info : Option FileInfo

abbrev pub info_size : Option FileInfo → ℕ
info_size none = 0
info_size (some info) = info.size

unfoldable pub entry_of : Entry → DirEntry
entry_of e = record { name = e.name; is_dir = e.is_dir; size = info_size e.info }

-- What the calls of package os do to the files of the machine, S, and what they answer, where an
-- error is its text; `dir` is filepath.Dir.
pub record Os (S : Type 0) : Type 0 where
  pub stat : String → S → Result String FileInfo × S
  pub read_file : String → S → Result String Bytes × S
  pub write_file : String → Bytes → S → Result String (Unit {0}) × S
  pub mkdir_all : String → S → Result String (Unit {0}) × S
  pub remove : String → S → Result String (Unit {0}) × S
  pub remove_all : String → S → Result String (Unit {0}) × S
  pub read_dir : String → S → Result String (List Entry) × S
  pub dir : String → String

pub data WorkspaceError : Type 0 where
  required forbidden escapes is_directory : WorkspaceError
  too_large : ℕ → WorkspaceError
  failed : String → WorkspaceError

-- userDir
unfoldable pub user_dir : String → Workspace → String
unfolding join
user_dir user w = join w.base_dir user

-- resolvePath
unfoldable pub resolve_path : String → String → Workspace → Result WorkspaceError String
unfolding user_dir join clean
resolve_path user path w =
    if contains path ".."
    then err forbidden
    else (let root = user_dir user w in
        let abs = clean (join root path) in if starts_with abs root then ok abs else err escapes)

-- The path of an operation that wants one.
unfoldable pub checked_path : String → String → Workspace → Result WorkspaceError String
unfolding resolve_path
checked_path user path w = if path == "" then err required else resolve_path user path w

-- An operation on the files of the machine, which stops at the first error.
abbrev pub Operation : Type 0 → Type 0 → Type 0
Operation S A = S → Result WorkspaceError A × S

module _ {S : Type 0} where
  abbrev pub ◌>>=◌ : {A B : Type 0} → Operation S A → (A → Operation S B) → Operation S B
  ◌>>=◌ run next s = let (r, t) = run s in elim r [ err e ↦ (err e, t) | ok a ↦ next a t ]

  abbrev pub pure : {A : Type 0} → Result WorkspaceError A → Operation S A
  pure r s = (r, s)

  abbrev pub from_os : {A : Type 0} → (S → Result String A × S) → Operation S A
  from_os call s = let (r, t) = call s in elim r [ err e ↦ (err (failed e), t) | ok a ↦ (ok a, t) ]

  -- ReadFile
  unfoldable pub read_file : Os S → String → String → Workspace → Operation S Bytes
  unfolding checked_path
  read_file os user path w = do
    abs ← pure (checked_path user path w)
    info ← from_os (os.stat abs)
    (if info.is_dir
        then pure (err is_directory)
        else if ltb w.max_size info.size
        then pure (err (too_large info.size))
        else from_os (os.read_file abs))

  -- WriteFile
  unfoldable pub write_file : Os S → String → String → Bytes → Workspace → Operation S (Unit {0})
  unfolding checked_path user_dir
  write_file os user path content w = do
    abs ← pure (checked_path user path w)
    made ← from_os (os.mkdir_all (user_dir user w))
    parent ← from_os (os.mkdir_all (os.dir abs))
    from_os (os.write_file abs content)

  -- ListDir
  unfoldable pub list_dir : Os S → String → String → Workspace → Operation S (List DirEntry)
  unfolding resolve_path entry_of
  list_dir os user path w = do
    abs ← pure (resolve_path user path w)
    entries ← from_os (os.read_dir abs)
    pure (ok (map entry_of entries))

  -- DeleteFile
  unfoldable pub delete_file : Os S → String → String → Workspace → Operation S (Unit {0})
  unfolding checked_path
  delete_file os user path w = do abs ← pure (checked_path user path w); from_os (os.remove abs)

  -- Mkdir
  unfoldable pub mkdir : Os S → String → String → Workspace → Operation S (Unit {0})
  unfolding checked_path
  mkdir os user path w = do abs ← pure (checked_path user path w); from_os (os.mkdir_all abs)
