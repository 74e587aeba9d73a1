-- ===== src/Extensions/Tests.antt =====
-- The extensions of internal/extensions/extensions.go on an example: Discover finds the one that is active, and
-- deactivates it.
use ironclaw_go.Shared.{
  get, put, get, put, get, false, true, ◌≡◌, refl, none, List, [], ◌∷◌, ok, All,
}
use ironclaw_go.Workspace.{Os}
use ironclaw_go.Extensions.{
  Manager, tool, new_manager, Call, discovers, activates, deactivates, installs, uninstalls, step,
  run,
}
use ironclaw_go.Extensions.Life.{NoStart, active_at, run-idle}

-- A disk on which every directory holds "clock" and every file is there.
abbrev disk : Os (Unit {0})
disk = record {
  stat = λ p s. (ok (record { is_dir = false; size = 1 }), s);
  read_file = λ p s. (ok [], s);
  write_file = λ p b s. (ok tt, s);
  mkdir_all = λ p s. (ok tt, s);
  remove = λ p s. (ok tt, s);
  remove_all = λ p s. (ok tt, s);
  read_dir = λ p s. (ok (record { name = "clock"; is_dir = true; info = none } ∷ []), s);
  dir = λ p. p;
}

abbrev start : Manager
start = new_manager "registry"

abbrev starts : List Call
starts = installs "clock" tool [] none ∷ activates "clock" ∷ []

active_then : active_at "clock" (run disk starts tt start).1 ≡ true
unfolding step get put
active_then = refl

inactive_after : active_at "clock" (step disk discovers tt (run disk starts tt start).1).1 ≡ false
unfolding step get put
inactive_after = refl

abbrev others : List Call
others =
    discovers
    ∷ activates "mail"
    ∷ installs "clock" tool [] none
    ∷ deactivates "mail"
    ∷ uninstalls "clock"
    ∷ []

none_of_clock : All (NoStart "clock") others
none_of_clock = (tt, (refl, (tt, (tt, (tt, tt)))))

idle_at_first : active_at "clock" start ≡ false
unfolding get
idle_at_first = refl

run-idle_example : active_at "clock" (run disk others tt start).1 ≡ false
run-idle_example = run-idle disk "clock" others tt start none_of_clock idle_at_first
