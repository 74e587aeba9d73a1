-- ===== src/Workspace/Inside.antt =====
-- resolvePath of internal/workspace/workspace.go keeps to the directory of the user.
use ironclaw_go.Shared.{
  String, true, false, ◌≡◌, refl, sym, ap, ◌∙◌, List, [], ◌∷◌, ◌++◌, append_assoc, All, All-append,
  keep_if, contains, starts_with, ok,
}
use text.Mathlib.TextPositions.{starts_with-append}
use ironclaw_go.Workspace.Clean.{pieces, push_all, slashes, print, is_rooted, clean, join}
use ironclaw_go.Workspace.Paths.{IsName, is_plain, pieces-name, pieces-IsPiece, push_all-plain}
use ironclaw_go.Workspace.{Workspace, user_dir, resolve_path}
use ironclaw_go.Workspace.Names.{push_all-All, keep_if-names, slashes-append}
use ironclaw_go.Workspace.Rooted.{
  pieces-NotUp, keep_if-IsName, join-rooted, print-middle, clean-middle, join-middle,
}

starts_with-middle :
    (xs : List String) (p : String) (ps : List String)
    → starts_with (slashes (xs ++ p ∷ ps)) (slashes (xs ++ p ∷ [])) ≡ true
starts_with-middle xs p ps =
    ap (λ (l : List String). starts_with (slashes l) (slashes (xs ++ p ∷ [])))
      (sym (append_assoc xs (p ∷ []) ps))
    ∙ ap (λ t. starts_with t (slashes (xs ++ p ∷ []))) (slashes-append (xs ++ p ∷ []) ps)
    ∙ starts_with-append (slashes (xs ++ p ∷ [])) (slashes ps)

-- What Clean keeps of the base directory.
abbrev pub base_pieces : Workspace → List String
base_pieces w = push_all true [] (pieces w.base_dir)

base_pieces-All : (w : Workspace) → All IsName (base_pieces w)
base_pieces-All w = push_all-All [] (pieces w.base_dir) tt (pieces-IsPiece w.base_dir)

user_dir-slashes :
    (user : String) (w : Workspace)
    → IsName user
    → is_rooted w.base_dir ≡ true
    → user_dir user w ≡ slashes (base_pieces w ++ user ∷ [])
unfolding user_dir
user_dir-slashes user w name rooted =
    join-rooted w.base_dir user rooted
    ∙ ap (λ ps. print true (push_all true (base_pieces w) ps)) (pieces-name user name.piece)
    ∙ ap (print true) (
        push_all-plain true (base_pieces w) (user ∷ []) (name.no_up, tt)
        ∙ ap (λ (r : List String). base_pieces w ++ r) (keep_if-names (user ∷ []) (name, tt)))
    ∙ print-middle (base_pieces w) user []

-- Where the base directory is absolute, the ID of the user is a name other than "." and "..",
-- and the path does not contain "..", resolve_path answers the path whose pieces are those of the
-- cleaned base directory, then the user's, then the pieces of the path that are neither empty nor
-- ".": the check of the prefix never fails, and the answer is below the user's directory.
pub resolve_path-inside :
    (user path : String) (w : Workspace)
    → IsName user
    → is_rooted w.base_dir ≡ true
    → contains path ".." ≡ false
    → resolve_path user path w
      ≡ ok (slashes (push_all true [] (pieces w.base_dir) ++ user ∷ keep_if is_plain (pieces path)))
unfolding resolve_path
resolve_path-inside user path w name rooted down =
    let root = user_dir-slashes user w name rooted in
    let kept = keep_if-IsName (pieces path) (pieces-IsPiece path) (pieces-NotUp path down) in
    let plain = keep_if is_plain (pieces path) in
    let whole = All-append IsName (base_pieces w) (user ∷ plain) (base_pieces-All w) (name, kept) in
    let here = All-append IsName (base_pieces w) (user ∷ []) (base_pieces-All w) (name, tt) in
    let cleaned : clean (join (user_dir user w) path) ≡ slashes (base_pieces w ++ user ∷ plain) =
      ap (λ r. clean (join r path)) root
      ∙ ap clean (join-middle (base_pieces w) user path here down)
      ∙ clean-middle (base_pieces w) user plain whole in
    rw (down, cleaned, root) (rw (starts_with-middle (base_pieces w) user plain) refl)
