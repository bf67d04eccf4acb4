-- ===== src/Tools/Examples.antt =====
-- internal/mcp/server.go: the theorems about the server of the tools, with an agent that is alone.
use lan_a2a.Prelude.{
  String, ◌≡◌, refl, true, none, some, List, [], ◌∷◌, if◌then◌else◌, ◌==◌, nat_eq, string_eq,
  list_eq, ok, trim_space,
}
use lan_a2a.Prelude.GoMap
use lan_a2a.AgentApi.{AgentApi, Call, Answer, nothing, peers}
use lan_a2a.Tools.{content, switch, no_arguments, Json, Server}
use lan_a2a.Tools.Dispatch.{call_tool, new_server}
use lan_a2a.Tools.Replies.{requests, wanted}

-- An agent that knows nobody: it lists no peers, and its other methods do nothing.
abbrev told : Call → Answer
told Call.get_online_peers = peers []
told _ = nothing

abbrev alone : AgentApi (Unit {0})
alone = record { perform = λ call s. some (s, ok (told call)) }

-- A JSON of two request lines, in which every call subscribes to one event.
abbrev json : Json
json = record {
  request = λ line.
      if line == "ping"
      then some (record { id = some "1"; method = "ping"; params = "" })
      else if line == "call"
      then some (record { id = some "2"; method = "tools/call"; params = "p" })
      else none;
  call = λ params. some ("lan_subscribe", "a");
  arguments = λ names raw. some (record no_arguments { events = "agent.online" ∷ [] });
  marshal = λ r. "{}";
}

abbrev lines : List String
lines = " ping " ∷ "" ∷ "noise" ∷ "call" ∷ []

two_answers : wanted (requests json lines) ≡ some "1" ∷ some "2" ∷ []
unfolding trim_space
two_answers = refl

abbrev one_answer : Server (Unit {0})
one_answer = record {
  agent = tt;
  subscribers = ("agent.online", true) ∷ [];
  written = content (some "2") "{}" ∷ [];
}

subscribed : call_tool json alone (some "2") "lan_subscribe" "a" (new_server tt) ≡ some one_answer
unfolding call_tool new_server GoMap.get GoMap.put switch lan_a2a.Tools.plan
subscribed = refl
