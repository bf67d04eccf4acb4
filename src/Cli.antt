-- ===== src/Cli.antt =====
-- internal/cli/cli.go: the interactive commands, over any agent. What is printed is a list, oldest
-- first; the colours and the wording are left out.
pub mod Words
pub mod Sending
pub mod Quitting
mod Examples
use lan_a2a.Prelude.{
  ℕ, zero, suc, ◌+◌, ◌-◌, ◌*◌, ◌/◌, ◌%◌, ◌^◌, ◌≤◌, ◌<◌, String, ◌≡◌, refl, sym, ap, subst, ◌∙◌, ◌≢◌,
  ◌↔◌, ◌⊎◌, inl, inr, Bool, true, false, not, ◌&&◌, ◌||◌, Option, none, some, List, [], ◌∷◌, ◌++◌,
  map, arith, ltb, leb, if◌then◌else◌, Bool-cases, Option-cases, Result-cases, is_some, Eq, ◌==◌,
  nat_eq, string_eq, list_eq, beq_self, beq_ne, Result, ok, err, ◌>>=◌, length, take, drop, filter,
  All, get_elem?, In, In-filter, filter-In, contains, Distinct, length-append, contains-append,
  contains-filter, Bytes, codes, trim_space, append_text, fields, join_words, Distinct-append_one,
}
use lan_a2a.AgentApi.{AgentApi, Call, Answer, nothing, peers, info, infos, created}

pub data Output : Type 0 where
  banner help no_agents no_channels : Output
  usage failed agent_info connected disconnected left shared : String → Output
  profile_shown profile_updated : String → Output
  unknown : Bytes → Output
  agents channels : List String → Output
  channel_created : String → List String → Output
  status_shown : String → ℕ → ℕ → Output

pub record Cli (S : Type 0) : Type 0 where
  pub agent : S
  pub agent_id : String
  pub profile : String
  pub quit_closed : Bool
  pub printed : List Output

-- The cases of the switch in `Run`.
pub data Command : Type 0 where
  cmd_help cmd_status cmd_list cmd_info cmd_connect cmd_disconnect cmd_channels : Command
  cmd_create cmd_leave cmd_send cmd_share cmd_profile cmd_quit : Command
  cmd_unknown : Bytes → Command

-- strings.ToLower, on a command; beyond ASCII no letter has the name of a command below it.
abbrev pub lower : ℕ → ℕ
lower c = if leb b'A' c && leb c b'Z' then c + 32 else c

abbrev pub one_of : Bytes → List String → Bool
one_of cmd [] = false
one_of cmd (name ∷ names) = cmd == codes name || one_of cmd names

unfoldable pub command_of : Bytes → Command
command_of cmd =
    if one_of cmd ("help" ∷ "h" ∷ "?" ∷ [])
    then cmd_help
    else if one_of cmd ("status" ∷ "st" ∷ [])
    then cmd_status
    else if one_of cmd ("list" ∷ "ls" ∷ [])
    then cmd_list
    else if one_of cmd ("info" ∷ "i" ∷ [])
    then cmd_info
    else if one_of cmd ("connect" ∷ "conn" ∷ [])
    then cmd_connect
    else if one_of cmd ("disconnect" ∷ "dc" ∷ [])
    then cmd_disconnect
    else if one_of cmd ("channels" ∷ "ch" ∷ [])
    then cmd_channels
    else if one_of cmd ("create" ∷ [])
    then cmd_create
    else if one_of cmd ("leave" ∷ [])
    then cmd_leave
    else if one_of cmd ("send" ∷ "msg" ∷ [])
    then cmd_send
    else if one_of cmd ("share" ∷ [])
    then cmd_share
    else if one_of cmd ("profile" ∷ [])
    then cmd_profile
    else if one_of cmd ("quit" ∷ "exit" ∷ "q" ∷ [])
    then cmd_quit
    else cmd_unknown cmd

abbrev ids_of : Answer → List String
ids_of (peers ids) = ids
ids_of (infos vs) = vs
ids_of _ = []

abbrev agents_or_none : Answer → Option Output
agents_or_none answer = elim (ids_of answer) [
  | [] ↦ some no_agents
  | id ∷ ids ↦ some (agents (id ∷ ids))
]

abbrev channels_or_none : Answer → Option Output
channels_or_none answer = elim (ids_of answer) [
  | [] ↦ some no_channels
  | ch ∷ chs ↦ some (channels (ch ∷ chs))
]

abbrev info_shown : Answer → Option Output
info_shown (info v) = some (agent_info v)
info_shown _ = none

abbrev creation_shown : Answer → Option Output
creation_shown (created ch ids) = some (channel_created ch ids)
creation_shown _ = none

abbrev listed : Result Answer → ℕ
listed (ok answer) = length (ids_of answer)
listed (err e) = 0

abbrev pub is_quit : Command → Bool
is_quit cmd_quit = true
is_quit _ = false

abbrev pub command_in : List String → Option (Command × List String)
command_in [] = none
command_in (word ∷ args) = some (command_of (map lower (codes word)), args)

-- The command and the arguments of a line; a blank line has none.
unfoldable pub parsed : String → Option (Command × List String)
parsed line = command_in (fields (trim_space line))

module _ {S : Type 0} where
  abbrev pub print : Output → Cli S → Cli S
  print o c = record c { printed = c.printed ++ o ∷ [] }

  abbrev pub reported : Option Output → Cli S → Cli S
  reported none c = c
  reported (some o) c = print o c

  abbrev pub asked : (Answer → Option Output) → Cli S → Option (S × Result Answer) → Option (Cli S)
  asked k c none = none
  asked k c (some (agent, ok answer)) = some (reported (k answer) (record c { agent = agent }))
  asked k c (some (agent, err e)) = some (print (failed e) (record c { agent = agent }))

  -- A method is called: its error is printed, or what `k` makes of its answer.
  unfoldable pub ask : AgentApi S → Call → (Answer → Option Output) → Cli S → Option (Cli S)
  ask api call k c = asked k c (api.perform call c.agent)

  unfoldable pub show_status : AgentApi S → Cli S → Option (Cli S)
  show_status api c = elim (api.perform Call.get_online_peers c.agent) [
    | none ↦ none
    | some (agent, online) ↦ elim (api.perform Call.list_channels agent) [
      | none ↦ none
      | some (agent', joined) ↦ some (
          print (status_shown c.agent_id (listed online) (listed joined))
            (record c { agent = agent' }))
    ]
  ]

  unfoldable pub cmd_create_channel : AgentApi S → List String → Cli S → Option (Cli S)
  unfolding ask
  cmd_create_channel api [] c =
      some (print (usage "create <channel_name> <peer_id> [peer_id2 ...]") c)
  cmd_create_channel api (name ∷ []) c =
      some (print (usage "create <channel_name> <peer_id> [peer_id2 ...]") c)
  cmd_create_channel api (name ∷ id ∷ ids) c =
      ask api (Call.create_channel name (id ∷ ids)) creation_shown c

  -- `cmdSend`; the success is only logged.
  unfoldable pub cmd_send_message : AgentApi S → List String → Cli S → Option (Cli S)
  unfolding ask
  cmd_send_message api [] c = some (print (usage "send <channel_id> <message>") c)
  cmd_send_message api (ch ∷ []) c = some (print (usage "send <channel_id> <message>") c)
  cmd_send_message api (ch ∷ w ∷ ws) c =
      ask api (Call.send_message ch (join_words (w ∷ ws))) (λ answer. none) c

  unfoldable pub cmd_share_file : AgentApi S → List String → Cli S → Option (Cli S)
  unfolding ask
  cmd_share_file api [] c = some (print (usage "share <channel_id> <file_path>") c)
  cmd_share_file api (ch ∷ []) c = some (print (usage "share <channel_id> <file_path>") c)
  cmd_share_file api (ch ∷ path ∷ more) c =
      ask api (Call.share_file ch path) (λ answer. some (shared ch)) c

  unfoldable pub cmd_set_profile : AgentApi S → List String → Cli S → Option (Cli S)
  unfolding ask
  cmd_set_profile api [] c = some (print (profile_shown c.profile) c)
  cmd_set_profile api (name ∷ desc) c =
      ask api (Call.set_profile name (join_words desc) []) (λ answer. some (profile_updated name)) c

  -- The commands with one argument.
  unfoldable pub cmd_one :
      AgentApi S
      → String
      → (String → Call)
      → (String → Answer → Option Output)
      → List String
      → Cli S
      → Option (Cli S)
  unfolding ask
  cmd_one api how call k [] c = some (print (usage how) c)
  cmd_one api how call k (a ∷ more) c = ask api (call a) (k a) c

  -- The switch; `quit` prints nothing.
  unfoldable pub run_command : AgentApi S → Command → List String → Cli S → Option (Cli S)
  unfolding show_status cmd_create_channel cmd_send_message cmd_share_file cmd_set_profile cmd_one
  run_command api cmd_help args c = some (print help c)
  run_command api cmd_status args c = show_status api c
  run_command api cmd_list args c = ask api Call.get_online_peers agents_or_none c
  run_command api cmd_info args c =
      cmd_one api "info <peer_id>" Call.get_agent_info (λ id. info_shown) args c
  run_command api cmd_connect args c =
      cmd_one api "connect <peer_id>" Call.open_connection (λ id answer. some (connected id)) args c
  run_command api cmd_disconnect args c =
      cmd_one api "disconnect <peer_id>" Call.close_connection (λ id answer. some (disconnected id))
        args c
  run_command api cmd_channels args c = ask api Call.list_channels channels_or_none c
  run_command api cmd_create args c = cmd_create_channel api args c
  run_command api cmd_leave args c =
      cmd_one api "leave <channel_id>" Call.leave_channel (λ id answer. some (left id)) args c
  run_command api cmd_send args c = cmd_send_message api args c
  run_command api cmd_share args c = cmd_share_file api args c
  run_command api cmd_profile args c = cmd_set_profile api args c
  run_command api cmd_quit args c = some (record c { quit_closed = true })
  run_command api (cmd_unknown cmd) args c = some (print (unknown cmd) c)

  -- `Run` after the banner, on the lines up to the end of the input.
  unfoldable pub run_lines : AgentApi S → List String → Cli S → Option (Cli S)
  run_lines api [] c = some c
  run_lines api (line ∷ lines) c = elim (parsed line) [
    | none ↦ run_lines api lines c
    | some (cmd, args) ↦ elim (run_command api cmd args c) [
      | none ↦ none
      | some c' ↦ elim (is_quit cmd) [ true ↦ some c' | false ↦ run_lines api lines c' ]
    ]
  ]

  unfoldable pub run : AgentApi S → List String → Cli S → Option (Cli S)
  unfolding run_lines
  run api lines c = run_lines api lines (print help (print banner c))
