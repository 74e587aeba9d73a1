-- ===== src/Workspace/Tests.antt =====
-- The workspace of internal/workspace/workspace.go on an example, with the files of the machine in a
-- dictionary.
use ironclaw_go.Shared.{
  true, false, ◌≡◌, refl, none, some, [], ◌∷◌, ◌++◌, Bytes, Dict, get, put, remove, length,
  contains, keep_if, ok, err,
}
use ironclaw_go.Workspace.Clean.{pieces, push_all, slashes, clean, join, is_rooted}
use ironclaw_go.Workspace.Paths.{IsPiece, IsName, is_plain}
use ironclaw_go.Workspace.{
  Workspace, new_workspace, Os, required, forbidden, user_dir, resolve_path, checked_path,
  read_file, write_file, delete_file,
}
use ironclaw_go.Workspace.Inside.{resolve_path-inside}

abbrev Files : Type 0
Files = Dict Bytes

abbrev machine : Os Files
machine = record {
  stat = λ p s. elim (get p s) [
    | none ↦ (err "no such file", s)
    | some b ↦ (ok (record { is_dir = false; size = length b }), s)
  ];
  read_file = λ p s. elim (get p s) [ none ↦ (err "no such file", s) | some b ↦ (ok b, s) ];
  write_file = λ p b s. (ok tt, put p b s);
  mkdir_all = λ p s. (ok tt, s);
  remove = λ p s. (ok tt, remove p s);
  remove_all = λ p s. (ok tt, remove p s);
  read_dir = λ p s. (ok [], s);
  dir = λ p. p;
}

abbrev home : Workspace
home = new_workspace "/srv//data/../ws/"

ann-IsPiece : IsPiece "ann"
unfolding IsPiece
ann-IsPiece = (refl, (refl, (refl, tt)))

ann-IsName : IsName "ann"
ann-IsName = record { piece = ann-IsPiece; some_name = refl; no_dot = refl; no_up = refl }

without_up : contains "./notes//a.md" ".." ≡ false
unfolding contains
without_up = refl

rooted : is_rooted home.base_dir ≡ true
unfolding is_rooted
rooted = refl

-- "/srv//data/../ws/" is cleaned to "/srv/ws".
inside : resolve_path "ann" "./notes//a.md" home ≡ ok "/srv/ws/ann/notes/a.md"
unfolding resolve_path user_dir join clean contains
inside = refl

refused : resolve_path "ann" "notes/../../bob" home ≡ err forbidden
unfolding resolve_path contains
refused = refl

-- A user whose ID is ".." has the directory above the base directory.
above : resolve_path ".." "etc" home ≡ ok "/srv/etc"
unfolding resolve_path user_dir join clean contains
above = refl

written : (write_file machine "ann" "a.md" (1 ∷ 2 ∷ []) home []).0 ≡ ok tt
unfolding write_file checked_path resolve_path user_dir contains
written = refl

read_back :
    (read_file machine "ann" "/a.md" home
      (write_file machine "ann" "a.md" (1 ∷ 2 ∷ []) home []).1).0
    ≡ ok (1 ∷ 2 ∷ [])
unfolding read_file write_file checked_path resolve_path user_dir contains get put
read_back = refl

no_path : (delete_file machine "ann" "" home []).0 ≡ err required
unfolding delete_file checked_path
no_path = refl

resolve_path-inside_example :
    resolve_path "ann" "./notes//a.md" home
    ≡ ok (
        slashes (
          push_all true [] (pieces home.base_dir)
          ++ "ann" ∷ keep_if is_plain (pieces "./notes//a.md")))
resolve_path-inside_example =
    resolve_path-inside "ann" "./notes//a.md" home ann-IsName rooted without_up
