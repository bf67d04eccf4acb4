-- ===== src/Cli/Quitting.antt =====
-- internal/cli/cli.go: where the loop over the lines ends.
use lan_a2a.Prelude.{
  ◌++◌, String, ◌≡◌, inl, inr, Bool, true, false, none, some, List, [], ◌∷◌, arith, Bool-cases,
  Option-cases, nat_eq, string_eq, list_eq,
}
use lan_a2a.AgentApi.{AgentApi}
use lan_a2a.Cli.{Cli, Command, cmd_quit, run_command, parsed, run_lines, is_quit}

-- Some line is a command to quit.
abbrev pub quits : List String → Bool
quits [] = false
quits (line ∷ lines) = elim (parsed line) [
  | none ↦ quits lines
  | some (cmd, args) ↦ elim (is_quit cmd) [ true ↦ true | false ↦ quits lines ]
]

closed-quit :
    {S : Type 0} (api : AgentApi S) (cmd : Command) (args : List String) (c c' : Cli S)
    → is_quit cmd ≡ true
    → run_command api cmd args c ≡ some c'
    → c'.quit_closed ≡ true
unfolding run_command
closed-quit api cmd_quit args c c' q r = ground (arith, r)
closed-quit api cmd args c c' q r = cc

module _ {S : Type 0} (api : AgentApi S) where
  -- Once a line quits, the lines behind it are not read, and the channel that `Quit` returns is closed,
  -- unless a method of the agent has panicked before.
  pub run_lines-quits :
      (lines rest : List String) (c : Cli S)
      → quits lines ≡ true
      → (run_lines api (lines ++ rest) c ≡ run_lines api lines c)
        × ((c' : Cli S) → run_lines api lines c ≡ some c' → c'.quit_closed ≡ true)
  unfolding run_lines
  run_lines-quits [] rest c h = absurd (cc h)
  run_lines-quits (line ∷ lines) rest c h = elim (Option-cases (parsed line)) [
    | inl e ↦
        let (same, closed) = run_lines-quits lines rest c (ground (arith, h, e)) in
        (ground (arith, e, same), (λ c' r. closed c' (ground (arith, e, r))))
    | inr ((cmd, args), e) ↦ elim (Bool-cases (is_quit cmd)) [
      | inl q ↦ elim (Option-cases (run_command api cmd args c)) [
        | inl r ↦ (ground (arith, e, q, r), (λ c' p. ground (arith, e, q, r, p)))
        | inr (d, r) ↦ (
          ground (arith, e, q, r),
          (λ c' p. ground (arith, e, q, r, p, closed-quit api cmd args c d q r)),
        )
      ]
      | inr q ↦ elim (Option-cases (run_command api cmd args c)) [
        | inl r ↦ (ground (arith, e, q, r), (λ c' p. ground (arith, e, q, r, p)))
        | inr (d, r) ↦
            let (same, closed) = run_lines-quits lines rest d (ground (arith, h, e, q)) in
            (ground (arith, e, q, r, same), (λ c' p. closed c' (ground (arith, e, q, r, p))))
      ]
    ]
  ]
