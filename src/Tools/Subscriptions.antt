-- ===== src/Tools/Subscriptions.antt =====
-- internal/mcp/server.go: the subscribers.
use lan_a2a.Prelude.{
  String, ◌≡◌, refl, sym, ◌∙◌, inl, inr, Bool, true, not, ◌&&◌, ◌||◌, Option, none, some, List, [],
  ◌∷◌, arith, Option-cases, is_some, nat_eq, string_eq, list_eq, contains, append_text,
}
use lan_a2a.Prelude.GoMap
use lan_a2a.Prelude.GoMap.{GoMap, get-put, get-del}
use lan_a2a.AgentApi.{AgentApi}
use lan_a2a.Tools.{
  negsuc, Reply, error, Tool, switch, arguments_of, Json, Server, Plan, refuse, ask, subscribe,
  unsubscribe, ToolResult,
}
use lan_a2a.Tools.Dispatch.{
  write, answer_with, carry_out, call_tool, plan_of, tool_in, is_subscribed, put_all, del_all,
}

get-put_all :
    (e : String) (es : List String) (m : GoMap String Bool)
    → is_some (GoMap.get e (put_all es m)) ≡ contains e es || is_some (GoMap.get e m)
get-put_all e [] m = ground arith
get-put_all e (x ∷ es) m = ground (
  arith,
  get-put_all e es (GoMap.put x true m),
  get-put x e true m,
  string_eq.beq_iff x e,
  string_eq.beq_iff e x,
)

get-del_all :
    (e : String) (es : List String) (m : GoMap String Bool)
    → is_some (GoMap.get e (del_all es m)) ≡ not (contains e es) && is_some (GoMap.get e m)
get-del_all e [] m = ground arith
get-del_all e (x ∷ es) m = ground (
  arith,
  get-del_all e es (GoMap.del x m),
  get-del {V = Bool} x e m,
  string_eq.beq_iff x e,
  string_eq.beq_iff e x,
)

-- Whether an event is subscribed after a call that plans as given.
abbrev pub after : String → Option Plan → Bool → Bool
after e (some (subscribe es)) before = contains e es || before
after e (some (unsubscribe es)) before = not (contains e es) && before
after e _ before = before

-- The plan of a call, where the switch has a case for its tool.
abbrev pub planned : Json → String → String → Option Plan
planned js name raw = elim (tool_in switch name) [
  | none ↦ none
  | some t ↦ some (plan_of t (js.arguments (arguments_of t) raw))
]

module _ {S : Type 0} (js : Json) (api : AgentApi S) where
  subscribers-answer_with :
      (id : Option String) (outcome : ToolResult) (m : String) (s : Server S)
      → (answer_with js id outcome m s).subscribers ≡ s.subscribers
  unfolding answer_with write
  subscribers-answer_with id outcome m s = ground arith

  is_subscribed-carry_out :
      (id : Option String) (e : String) (p : Plan) (s s' : Server S)
      → carry_out js api id p s ≡ some s'
      → is_subscribed e s' ≡ after e (some p) (is_subscribed e s)
  unfolding carry_out is_subscribed answer_with write
  is_subscribed-carry_out id e (refuse m) s s' h = ground arith
  is_subscribed-carry_out id e (subscribe es) s s' h =
      ground (arith, get-put_all e es s.subscribers)
  is_subscribed-carry_out id e (unsubscribe es) s s' h =
      ground (arith, get-del_all e es s.subscribers)
  is_subscribed-carry_out id e (ask call outcome) s s' h = ground arith

  call_tool-unknown :
      (id : Option String) (name raw : String) (s : Server S)
      → tool_in switch name ≡ none
      → call_tool js api id name raw s
        ≡ some (write (error id (negsuc 32600) (append_text "Unknown tool: " name)) s)
  unfolding call_tool
  call_tool-unknown id name raw s n = rw (n, call_tool) refl

  call_tool-known :
      (id : Option String) (name raw : String) (s : Server S) (t : Tool)
      → tool_in switch name ≡ some t
      → call_tool js api id name raw s
        ≡ carry_out js api id (plan_of t (js.arguments (arguments_of t) raw)) s
  unfolding call_tool
  call_tool-known id name raw s t n = rw (n, call_tool) refl

  is_subscribed-write :
      (r : Reply) (e : String) (s s' : Server S)
      → some (write r s) ≡ some s'
      → is_subscribed e s' ≡ is_subscribed e s
  unfolding is_subscribed write
  is_subscribed-write r e s s' h = ground arith

  -- After a call of a tool that is answered, an event is subscribed if `lan_subscribe` named it, or if
  -- it was before and `lan_unsubscribe` did not name it; no other call, and none that is refused,
  -- changes that.
  pub is_subscribed-call_tool :
      (id : Option String) (name raw e : String) (s s' : Server S)
      → call_tool js api id name raw s ≡ some s'
      → is_subscribed e s' ≡ after e (planned js name raw) (is_subscribed e s)
  is_subscribed-call_tool id name raw e s s' h = elim (Option-cases (tool_in switch name)) [
    | inl n ↦
        rw (n, planned)
          (is_subscribed-write (error id (negsuc 32600) (append_text "Unknown tool: " name)) e s s'
            (sym (call_tool-unknown id name raw s n) ∙ h))
    | inr (t, n) ↦
        rw (n, planned)
          (is_subscribed-carry_out id e (plan_of t (js.arguments (arguments_of t) raw)) s s'
            (sym (call_tool-known id name raw s t n) ∙ h))
  ]
