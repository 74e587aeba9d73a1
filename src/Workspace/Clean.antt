-- ===== src/Workspace/Clean.antt =====
-- filepath.Clean and filepath.Join of Go's library, on a system that parts paths by slashes.
use ironclaw_go.Shared.{
  String, Bool, true, false, List, [], ◌∷◌, ◌++◌, if◌then◌else◌, ◌==◌, leb, ◌&&◌,
}
use Prim.Native.Char.{Char, code}
use Prim.Native.String

abbrev pub slash : Char
slash = "/"

abbrev pub is_slash : Char → Bool
is_slash c = leb (code c) 47 && leb 47 (code c)

-- What stands before the first slash, and the pieces after it.
unfoldable pub split : String → String × List String
split String.[] = ("", [])
split (String.◌∷◌ c s) =
    let (head, tail) = split s in
    if is_slash c then ("", head ∷ tail) else (String.◌∷◌ c head, tail)

unfoldable pub pieces : String → List String
unfolding split
pieces s = let (head, tail) = split s in head ∷ tail

unfoldable pub drop_last : List String → List String
drop_last [] = []
drop_last (p ∷ []) = []
drop_last (p ∷ q ∷ ps) = p ∷ drop_last (q ∷ ps)

-- Whether the last piece is "..", or there is none.
unfoldable pub at_top : List String → Bool
at_top [] = true
at_top (p ∷ []) = p == ".."
at_top (p ∷ q ∷ ps) = at_top (q ∷ ps)

-- A piece "..": the last piece goes, unless it is ".." itself; at the root nothing goes.
unfoldable pub go_up : Bool → List String → List String
unfolding drop_last at_top
go_up rooted ps = if at_top ps then (if rooted then ps else ps ++ ".." ∷ []) else drop_last ps

unfoldable pub push : Bool → List String → String → List String
unfolding go_up
push rooted ps e =
    if e == ""
    then ps
    else if e == "."
    then ps
    else if e == ".."
    then go_up rooted ps
    else ps ++ e ∷ []

unfoldable pub push_all : Bool → List String → List String → List String
unfolding push
push_all rooted ps [] = ps
push_all rooted ps (e ∷ es) = push_all rooted (push rooted ps e) es

-- The pieces, each with a slash before it.
unfoldable pub slashes : List String → String
slashes [] = ""
slashes (p ∷ ps) = String.◌∷◌ slash (String.◌++◌ p (slashes ps))

unfoldable pub print : Bool → List String → String
unfolding slashes
print true [] = "/"
print true (p ∷ ps) = slashes (p ∷ ps)
print false [] = "."
print false (p ∷ ps) = String.◌++◌ p (slashes ps)

unfoldable pub is_rooted : String → Bool
is_rooted String.[] = false
is_rooted (String.◌∷◌ c s) = is_slash c

-- filepath.Clean
unfoldable pub clean : String → String
unfolding pieces push_all print is_rooted
clean s = if s == "" then "." else print (is_rooted s) (push_all (is_rooted s) [] (pieces s))

-- filepath.Join of two paths
unfoldable pub join : String → String → String
unfolding clean
join a b =
    if a == ""
    then (if b == "" then "" else clean b)
    else clean (String.◌++◌ a (String.◌∷◌ slash b))
