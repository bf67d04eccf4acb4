-- ===== src/Tools/Replies.antt =====
-- internal/mcp/server.go: which requests are answered.
use lan_a2a.Prelude.{
  ap, subst, ◌∙◌, refl, sym, true, Bool-cases, false, String, ◌≡◌, ◌≢◌, inl, inr, Option, none,
  some, List, [], ◌∷◌, ◌++◌, map, arith, if◌then◌else◌, Option-cases, ◌==◌, nat_eq, string_eq,
  list_eq, ok, err, trim_space, append_text,
}
use mathlib.Core.List.{append_assoc, append-nil, map-append}
use lan_a2a.AgentApi.{AgentApi, Call}
use lan_a2a.Tools.{
  notification, texts, text, object, negsuc, no_result, switch, arguments_of, Request, Json, Reply,
  server_info, tool_list, pong, content, tool_error, error, Server, Plan, refuse, ask, subscribe,
  unsubscribe, ToolResult,
}
use lan_a2a.Tools.Dispatch.{
  handle_line, run, del_all, put_all, write, answer_with, carry_out, call_tool, handle_tool_call,
  handle, plan_of, tool_in,
}

-- No method of the agent panics.
abbrev pub IsTotal : {S : Type 0} → AgentApi S → Type 0
IsTotal {S} api = (call : Call) (agent : S) → api.perform call agent ≢ none

abbrev pub reply_id : Reply → Option String
reply_id (server_info id) = id
reply_id (tool_list id) = id
reply_id (pong id) = id
reply_id (content id t) = id
reply_id (tool_error id t) = id
reply_id (error id code t) = id
reply_id (notification method params) = none

-- The requests among the lines, in their order.
abbrev pub requests : Json → List String → List Request
requests js [] = []
requests js (line ∷ lines) =
    if trim_space line == "" then requests js lines else elim (js.request (trim_space line)) [
      | none ↦ requests js lines
      | some req ↦ req ∷ requests js lines
    ]

-- The identifiers of the requests that want an answer.
abbrev pub wanted : List Request → List (Option String)
wanted [] = []
wanted (req ∷ reqs) =
    if req.method == "notifications/initialized" then wanted reqs else req.id ∷ wanted reqs

-- One reply more, under the given identifier.
abbrev Answered : {S : Type 0} → Option String → Server S → Option (Server S) → Type 0
Answered id s none = ⊥
Answered id s (some s') = map reply_id s'.written ≡ map reply_id s.written ++ id ∷ []

module _ {S : Type 0} (js : Json) (api : AgentApi S) (total : IsTotal api) where
  write-Answered : (r : Reply) (s : Server S) → Answered (reply_id r) s (some (write r s))
  unfolding write
  write-Answered r s = map-append reply_id s.written (r ∷ [])

  answer_with-Answered :
      (id : Option String) (result : ToolResult) (e : String) (s : Server S)
      → Answered id s (some (answer_with js id result e s))
  unfolding answer_with
  answer_with-Answered id result e s =
      ground (
        arith,
        write-Answered (content id (js.marshal result)) s,
        write-Answered (tool_error id e) s,
      )

  carry_out-Answered :
      (id : Option String) (p : Plan) (s : Server S) → Answered id s (carry_out js api id p s)
  unfolding carry_out
  carry_out-Answered id (refuse e) s = answer_with-Answered id no_result e s
  carry_out-Answered id (subscribe es) s =
      answer_with-Answered id (object (("status", text "subscribed") ∷ ("events", texts es) ∷ []))
        "" (record s { subscribers = put_all es s.subscribers })
  carry_out-Answered id (unsubscribe es) s =
      answer_with-Answered id (object (("status", text "unsubscribed") ∷ ("events", texts es) ∷ []))
        "" (record s { subscribers = del_all es s.subscribers })
  carry_out-Answered id (ask call result) s = elim (Option-cases (api.perform call s.agent)) [
    | inl e ↦ absurd (total call s.agent e)
    | inr ((agent, ok answer), e) ↦
        rw (e, Answered) (answer_with-Answered id (result answer) "" (record s { agent = agent }))
    | inr ((agent, err m), e) ↦
        rw (e, Answered) (answer_with-Answered id no_result m (record s { agent = agent }))
  ]

  call_tool-Answered :
      (id : Option String) (name raw : String) (s : Server S)
      → Answered id s (call_tool js api id name raw s)
  unfolding call_tool
  call_tool-Answered id name raw s = elim (Option-cases (tool_in switch name)) [
    | inl e ↦
        rw (e, Answered)
          (write-Answered (error id (negsuc 32600) (append_text "Unknown tool: " name)) s)
    | inr (t, e) ↦
        rw (e, Answered) (carry_out-Answered id (plan_of t (js.arguments (arguments_of t) raw)) s)
  ]

  handle_tool_call-Answered :
      (id : Option String) (params : String) (s : Server S)
      → Answered id s (handle_tool_call js api id params s)
  unfolding handle_tool_call
  handle_tool_call-Answered id params s = elim (Option-cases (js.call params)) [
    | inl e ↦ rw (e, Answered) (write-Answered (error id (negsuc 32601) "Invalid params") s)
    | inr ((name, raw), e) ↦ rw (e, Answered) (call_tool-Answered id name raw s)
  ]

  handle-Answered :
      (req : Request) (s : Server S)
      → (req.method == "notifications/initialized") ≡ false
      → Answered req.id s (handle js api req s)
  unfolding handle
  handle-Answered req s h = elim (Bool-cases (req.method == "initialize")) [
    | inl e ↦ rw (e, Answered) (write-Answered (server_info req.id) s)
    | inr a ↦ elim (Bool-cases (req.method == "tools/list")) [
      | inl e ↦ rw (a, h, e, Answered) (write-Answered (tool_list req.id) s)
      | inr b ↦ elim (Bool-cases (req.method == "tools/call")) [
        | inl e ↦ rw (a, h, b, e, Answered) (handle_tool_call-Answered req.id req.params s)
        | inr c ↦ elim (Bool-cases (req.method == "ping")) [
          | inl e ↦ rw (a, h, b, c, e, Answered) (write-Answered (pong req.id) s)
          | inr d ↦
              rw (a, h, b, c, d, Answered)
                (write-Answered
                  (error req.id (negsuc 32600) (append_text "Method not found: " req.method)) s)
        ]
      ]
    ]
  ]

  handle-silent :
      (req : Request) (s : Server S)
      → (req.method == "notifications/initialized") ≡ true
      → handle js api req s ≡ some s
  unfolding handle
  handle-silent req s h =
      let named = (string_eq.beq_iff req.method "notifications/initialized").0 h in
      let other = subst (λ (m : String). string_eq.beq m "initialize" ≡ false) (sym named) refl in
      rw (other, h) refl

  -- The identifiers that one line wants an answer for.
  abbrev wanted_by : String → List (Option String)
  wanted_by line = wanted (requests js (line ∷ []))

  wanted-cons :
      (line : String) (lines : List String)
      → wanted (requests js (line ∷ lines)) ≡ wanted_by line ++ wanted (requests js lines)
  wanted-cons line lines = elim (Bool-cases (trim_space line == "")) [
    | inl e ↦ ground (arith, e)
    | inr a ↦ elim (Option-cases (js.request (trim_space line))) [
      | inl e ↦ ground (arith, a, e)
      | inr (req, e) ↦ ground (arith, a, e)
    ]
  ]

  -- What a line leaves.
  abbrev Leaves : List (Option String) → Server S → Option (Server S) → Type 0
  Leaves ids s r =
      (s' : Server S) × (r ≡ some s') × (map reply_id s'.written ≡ map reply_id s.written ++ ids)

  Leaves-Answered :
      (id : Option String) (s : Server S) (r : Option (Server S))
      → Answered id s r
      → Leaves (id ∷ []) s r
  Leaves-Answered id s none h = absurd h
  Leaves-Answered id s (some s') h = (s', refl, h)

  Leaves-nothing : (s : Server S) (r : Option (Server S)) → r ≡ some s → Leaves [] s r
  Leaves-nothing s r e = (s, e, sym (append-nil (map reply_id s.written)))

  handle-Leaves :
      (req : Request) (s : Server S) → Leaves (wanted (req ∷ [])) s (handle js api req s)
  handle-Leaves req s = elim (Bool-cases (req.method == "notifications/initialized")) [
    | inl h ↦ rw h (Leaves-nothing s (handle js api req s) (handle-silent req s h))
    | inr h ↦ rw h (Leaves-Answered req.id s (handle js api req s) (handle-Answered req s h))
  ]

  handle_line-Leaves :
      (line : String) (s : Server S) → Leaves (wanted_by line) s (handle_line js api line s)
  unfolding handle_line
  handle_line-Leaves line s = elim (Bool-cases (trim_space line == "")) [
    | inl e ↦ rw (e, wanted_by) (Leaves-nothing s (some s) refl)
    | inr a ↦ elim (Option-cases (js.request (trim_space line))) [
      | inl e ↦ rw (a, e, wanted_by) (Leaves-nothing s (some s) refl)
      | inr (req, e) ↦ rw (a, e, wanted_by) (handle-Leaves req s)
    ]
  ]

  -- Where no method of the agent panics, the server reads every line, and its answers are, in order,
  -- one for each request among the lines, under the request's identifier: for an unknown method, an
  -- unknown tool, parameters that cannot be read and a tool's error too. Only
  -- `notifications/initialized` gets none.
  run-replies :
      (lines : List String) (s : Server S)
      → (s' : Server S) × (run js api lines s ≡ some s')
        × (map reply_id s'.written ≡ map reply_id s.written ++ wanted (requests js lines))
  unfolding run
  run-replies [] s = Leaves-nothing s (some s) refl
  run-replies (line ∷ lines) s =
      let (s1, e1, w1) = handle_line-Leaves line s in
      let (s2, e2, w2) = run-replies lines s1 in
      (
        s2,
        rw (e1, run) e2,
        w2
            ∙ ap (λ (ids : List (Option String)). ids ++ wanted (requests js lines)) w1
            ∙ append_assoc (map reply_id s.written) (wanted_by line) (wanted (requests js lines))
            ∙ ap (λ (ids : List (Option String)). map reply_id s.written ++ ids)
                (sym (wanted-cons line lines)),
      )
