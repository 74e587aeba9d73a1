-- ===== src/Shared/Values.antt =====
-- The values of a Go `map[string]any`. The program only ever asks whether an entry is a string;
-- a value of any other dynamic type is `other`.
use mathlib.Core.Option.{Option, none, some}
use Prim.Native.Nat.{ℕ}
use Prim.Native.String.{String}
use ironclaw_go.Shared.Dicts.{Dict, get}

pub data Value : Type 0 where
  string : String → Value
  other : ℕ → Value

abbrev pub Params : Type 0
Params = Dict Value

abbrev as_text : Option Value → String
as_text none = ""
as_text (some (string s)) = s
as_text (some (other n)) = ""

-- s, _ := params[key].(string): the string, or "" where there is none.
unfoldable pub text_at : String → Params → String
unfolding get
text_at key params = as_text (get key params)
