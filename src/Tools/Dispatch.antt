-- ===== src/Tools/Dispatch.antt =====
-- internal/mcp/server.go: the dispatch of requests and of tool calls, and the loop over the lines. A
-- last line that no newline ends is not read.
use lan_a2a.Prelude.{
  append_text, String, Bool, true, Option, none, some, List, [], ◌∷◌, ◌++◌, if◌then◌else◌, is_some,
  ◌==◌, nat_eq, string_eq, list_eq, ok, err, trim_space,
}
use lan_a2a.Prelude.Int.{negsuc}
use lan_a2a.Prelude.GoMap
use lan_a2a.Prelude.GoMap.{GoMap}
use lan_a2a.AgentApi.{AgentApi}
use lan_a2a.Tools.{
  notification, no_arguments, Tool, lan_get_online_agents, lan_get_agent_info, lan_open_connection,
  lan_close_connection, lan_list_channels, lan_list_transfers, lan_subscribe, lan_unsubscribe,
  switch, Arguments, arguments_of, text, texts, ToolResult, object, no_result, Request, Json, Reply,
  server_info, tool_list, pong, content, tool_error, error, Server, Plan, refuse, ask, subscribe,
  unsubscribe, plan,
}

abbrev pub tool_in : List (String × Tool) → String → Option Tool
tool_in cases name = GoMap.get name cases

unfoldable pub new_server {ℓ} : {S : Type ℓ} → S → Server S
new_server agent = record { agent = agent; subscribers = []; written = [] }

-- The error of a case that cannot unmarshal its arguments.
unfoldable pub invalid : Tool → String
invalid lan_get_agent_info = "Invalid arguments: peer_id required"
invalid lan_open_connection = "Invalid arguments: peer_id required"
invalid lan_close_connection = "Invalid arguments: peer_id required"
invalid lan_subscribe = "Invalid arguments: events array required"
invalid lan_unsubscribe = "Invalid arguments: events array required"
invalid _ = "Invalid arguments"

-- A case of the switch: the tools without arguments unmarshal nothing.
unfoldable pub plan_of : Tool → Option Arguments → Plan
unfolding invalid
plan_of lan_get_online_agents args = plan lan_get_online_agents no_arguments
plan_of lan_list_channels args = plan lan_list_channels no_arguments
plan_of lan_list_transfers args = plan lan_list_transfers no_arguments
plan_of t none = refuse (invalid t)
plan_of t (some a) = plan t a

abbrev pub put_all : List String → GoMap String Bool → GoMap String Bool
put_all [] m = m
put_all (e ∷ es) m = put_all es (GoMap.put e true m)

abbrev pub del_all : List String → GoMap String Bool → GoMap String Bool
del_all [] m = m
del_all (e ∷ es) m = del_all es (GoMap.del e m)

module _ {S : Type 0} where
  -- `reply` and `replyError`: one line is written.
  unfoldable pub write : Reply → Server S → Server S
  write r s = record s { written = s.written ++ r ∷ [] }

  -- `Notify`; `params` is the JSON of the parameters.
  unfoldable pub notify : String → String → Server S → Server S
  unfolding write
  notify method params s = write (notification method params) s

  unfoldable pub is_subscribed : String → Server S → Bool
  is_subscribed e s = is_some (GoMap.get e s.subscribers)

  -- The replies of a case: `toolErr` is a result that says so; an empty one counts as none.
  unfoldable pub answer_with : Json → Option String → ToolResult → String → Server S → Server S
  unfolding write
  answer_with js id result tool_err s =
      if tool_err == ""
      then write (content id (js.marshal result)) s
      else write (tool_error id tool_err) s

  unfoldable pub carry_out : Json → AgentApi S → Option String → Plan → Server S → Option (Server S)
  unfolding answer_with
  carry_out js api id (refuse e) s = some (answer_with js id no_result e s)
  carry_out js api id (subscribe es) s = some (
      answer_with js id (object (("status", text "subscribed") ∷ ("events", texts es) ∷ [])) ""
        (record s { subscribers = put_all es s.subscribers }))
  carry_out js api id (unsubscribe es) s = some (
      answer_with js id (object (("status", text "unsubscribed") ∷ ("events", texts es) ∷ [])) ""
        (record s { subscribers = del_all es s.subscribers }))
  carry_out js api id (ask call result) s = elim (api.perform call s.agent) [
    | none ↦ none
    | some (agent, ok answer) ↦
        some (answer_with js id (result answer) "" (record s { agent = agent }))
    | some (agent, err e) ↦ some (answer_with js id no_result e (record s { agent = agent }))
  ]

  unfoldable pub call_tool :
      Json → AgentApi S → Option String → String → String → Server S → Option (Server S)
  unfolding carry_out plan_of
  call_tool js api id name raw s = elim (tool_in switch name) [
    | none ↦ some (write (error id (negsuc 32600) (append_text "Unknown tool: " name)) s)
    | some t ↦ carry_out js api id (plan_of t (js.arguments (arguments_of t) raw)) s
  ]

  unfoldable pub handle_tool_call :
      Json → AgentApi S → Option String → String → Server S → Option (Server S)
  unfolding call_tool
  handle_tool_call js api id params s = elim (js.call params) [
    | none ↦ some (write (error id (negsuc 32601) "Invalid params") s)
    | some (name, raw) ↦ call_tool js api id name raw s
  ]

  unfoldable pub handle : Json → AgentApi S → Request → Server S → Option (Server S)
  unfolding handle_tool_call
  handle js api req s =
      if req.method == "initialize"
      then some (write (server_info req.id) s)
      else if req.method == "notifications/initialized"
      then some s
      else if req.method == "tools/list"
      then some (write (tool_list req.id) s)
      else if req.method == "tools/call"
      then handle_tool_call js api req.id req.params s
      else if req.method == "ping"
      then some (write (pong req.id) s)
      else some
          (write (error req.id (negsuc 32600) (append_text "Method not found: " req.method)) s)

  -- One line: blank ones and those that are no request are skipped.
  unfoldable pub handle_line : Json → AgentApi S → String → Server S → Option (Server S)
  unfolding handle
  handle_line js api line s =
      let request = trim_space line in
      if request == ""
      then some s
      else elim (js.request request) [ none ↦ some s | some req ↦ handle js api req s ]

  -- `Run`, on the lines up to the end of the input.
  unfoldable pub run : Json → AgentApi S → List String → Server S → Option (Server S)
  unfolding handle_line
  run js api [] s = some s
  run js api (line ∷ lines) s = elim (handle_line js api line s) [
    | none ↦ none
    | some s' ↦ run js api lines s'
  ]
