-- ===== src/Agent/Router/Laws.antt =====
-- A command of agent/router.go has a word to take its name from.
use ironclaw_go.Shared.{
  String, true, ◌≡◌, refl, sym, ap, ◌∙◌, inl, inr, List, [], ◌∷◌, trim_space, is_space, starts_with,
  skip, Bool-cases,
}
use Prim.Native.Char.{Char}
use Prim.Native.String
use text.Mathlib.TextEquality.{starts_with_iff}
use ironclaw_go.Agent.Router.{system_cmd, onto_word, starts_word, fields, command_of, route}

abbrev pub slash : Char
slash = "/"

-- A text with a slash in front has a first word, which is a slash and the rest of the word.
fields-slash :
    (u : String)
    → (w : String) × (args : List String) × (fields (String.◌∷◌ slash u)
        ≡ String.◌∷◌ slash w ∷ args)
unfolding fields is_space
fields-slash u = elim (Bool-cases (starts_word u)) [
  | inr apart ↦ rw apart ("", fields u, refl)
  | inl joined ↦ rw joined (word (fields u))
]
  where
    word :
        (ws : List String)
        → (w : String) × (args : List String) × (onto_word slash ws ≡ String.◌∷◌ slash w ∷ args)
    word [] = ("", [], refl)
    word (x ∷ xs) = (x, xs, refl)

-- An input that starts with a slash, once trimmed, is a command: it has a first word, which starts
-- with the slash and whose rest is the command's name, and the other words are its arguments.
pub route-command :
    (input : String)
    → starts_with (trim_space input) "/" ≡ true
    → (w : String) × (args : List String) × (fields (trim_space input) ≡ String.◌∷◌ slash w ∷ args)
      × (route input ≡ system_cmd w args (trim_space input))
unfolding route command_of skip
route-command input h =
    let (u, whole) = (starts_with_iff (trim_space input) "/").0 h in
    let (w, args, split) = fields-slash u in
    let words =
      ap fields
        (sym whole ∙ String.append.cons slash "" u ∙ ap (String.◌∷◌ slash) (String.append.nil u))
      ∙ split in
    (w, args, words, rw h (rw (words, command_of) refl))
