-- ===== src/Cli/Sending.antt =====
-- internal/cli/cli.go: the text that a command line sends.
use lan_a2a.Prelude.{
  fields, none, String, ◌≡◌, refl, sym, ap, subst, ◌∙◌, false, some, List, ◌∷◌, map, nat_eq,
  string_eq, list_eq, Result, ok, err, All, Bytes, codes, join_words,
}
use lan_a2a.AgentApi.{AgentApi, Answer, Call}
use lan_a2a.Cli.{
  fields, none, asked, command_in, Cli, Command, cmd_send, command_of, lower, print, failed,
  cmd_send_message, run_command, parsed, run_lines, is_quit,
}
use lan_a2a.Cli.Words.{IsWord, fields-join_words, trim_space-join_words}

parsed-join_words :
    (word : String) (args : List String)
    → All IsWord (word ∷ args)
    → parsed (join_words (word ∷ args)) ≡ some (command_of (map lower (codes word)), args)
unfolding parsed
parsed-join_words word args h =
    ap (λ (t : String). command_in (fields t)) (trim_space-join_words word args h)
    ∙ ap command_in (fields-join_words (word ∷ args) h)

command_of-send : (cmd : Bytes) → cmd ≡ codes "send" → command_of cmd ≡ cmd_send
unfolding command_of
command_of-send cmd h = subst (λ (b : Bytes). command_of b ≡ cmd_send) (sym h) refl

module _ {S : Type 0} where
  -- An error is printed, and a success is not.
  abbrev pub told : Result Answer → Cli S → Cli S
  told (ok answer) c = c
  told (err e) c = print (failed e) c

  cmd_send_message-told :
      (api : AgentApi S) (ch w : String) (ws : List String) (c : Cli S) (agent : S)
      (r : Result Answer)
      → api.perform (Call.send_message ch (join_words (w ∷ ws))) c.agent ≡ some (agent, r)
      → cmd_send_message api (ch ∷ w ∷ ws) c ≡ some (told r (record c { agent = agent }))
  unfolding cmd_send_message
  cmd_send_message-told api ch w ws c agent (ok answer) h = ap (asked (λ answer. none) c) h
  cmd_send_message-told api ch w ws c agent (err e) h = ap (asked (λ answer. none) c) h

  run_command-send :
      (api : AgentApi S) (ch w : String) (ws : List String) (c : Cli S)
      → run_command api cmd_send (ch ∷ w ∷ ws) c ≡ cmd_send_message api (ch ∷ w ∷ ws) c
  unfolding run_command
  run_command-send api ch w ws c = refl

  run_lines-step :
      (api : AgentApi S) (line : String) (lines : List String) (cmd : Command) (args : List String)
      (c c' : Cli S)
      → parsed line ≡ some (cmd, args)
      → is_quit cmd ≡ false
      → run_command api cmd args c ≡ some c'
      → run_lines api (line ∷ lines) c ≡ run_lines api lines c'
  unfolding run_lines
  run_lines-step api line lines cmd args c c' p q r =
      rw (p, run_lines) (rw (r, run_lines) (rw (q, run_lines) refl))

  -- A line that is made of `send`, in any case of its letters, a channel and at least one word, with
  -- single spaces between: `SendMessage` is called with the channel and the words behind it, joined as
  -- they stood; its error is printed, and the loop goes on with the next line.
  pub run_lines-send :
      (api : AgentApi S) (word ch w : String) (ws lines : List String) (c : Cli S) (agent : S)
      (r : Result Answer)
      → All IsWord (word ∷ ch ∷ w ∷ ws)
      → map lower (codes word) ≡ codes "send"
      → api.perform (Call.send_message ch (join_words (w ∷ ws))) c.agent ≡ some (agent, r)
      → run_lines api (join_words (word ∷ ch ∷ w ∷ ws) ∷ lines) c
        ≡ run_lines api lines (told r (record c { agent = agent }))
  run_lines-send api word ch w ws lines c agent r h n p =
      run_lines-step api (join_words (word ∷ ch ∷ w ∷ ws)) lines cmd_send (ch ∷ w ∷ ws) c
        (told r (record c { agent = agent }))
        (parsed-join_words word (ch ∷ w ∷ ws) h
          ∙ ap (λ (k : Command). some (k, ch ∷ w ∷ ws))
              (command_of-send (map lower (codes word)) n))
        refl (run_command-send api ch w ws c ∙ cmd_send_message-told api ch w ws c agent r p)
