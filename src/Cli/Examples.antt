-- ===== src/Cli/Examples.antt =====
-- internal/cli/cli.go: lines that end the command line.
use lan_a2a.Prelude.{◌≡◌, refl, true, [], ◌∷◌, nat_eq, string_eq, list_eq, trim_space, fields}
use lan_a2a.Cli.{parsed}
use lan_a2a.Cli.Quitting.{quits}

then_quits : quits ("list" ∷ " Quit " ∷ []) ≡ true
unfolding parsed fields trim_space lan_a2a.Cli.command_of
then_quits = refl
