-- ===== src/Plugins/Delivery.antt =====
-- internal/plugins/plugins.go: what `Emit` and `Authenticate` do after any calls of `Register`, `On` and
-- `SetAuth`.
use lan_a2a.Prelude.{
  ℕ, String, ◌≡◌, refl, sym, ap, ◌∙◌, Bool, true, false, Option, none, some, List, [], ◌∷◌, ◌++◌,
  map, inl, inr, Option-cases, arith, if◌then◌else◌, ◌==◌, nat_eq, string_eq, list_eq, Result, ok,
}
use mathlib.Core.List.{append_assoc, append-nil}
use lan_a2a.Prelude.GoMap
use lan_a2a.Prelude.GoMap.{get-put}
use lan_a2a.Protocol.{Message}
use lan_a2a.Plugins.{
  Event, Hook, Seen, Plugin, Auth, Manager, new_manager, register, on, set_auth, authenticate,
  hooks_at, emit_to, run_hooks, and_before, emit, on_event, call,
}

-- A call that changes the manager.
pub data Registration : Type 0 where
  with_plugin : Plugin → Registration
  with_hook : String → ℕ × Hook → Registration
  with_auth : Option Auth → Registration

unfoldable pub perform_one : Registration → Manager → Manager
unfolding register on set_auth
perform_one (with_plugin p) m = register p m
perform_one (with_hook event_type hook) m = on event_type hook m
perform_one (with_auth p) m = set_auth p m

unfoldable pub perform : List Registration → Manager → Manager
unfolding perform_one
perform [] m = m
perform (op ∷ ops) m = perform ops (perform_one op m)

-- The same, read from the calls: the plugins, the hooks for a type, and the last authentication.
unfoldable pub plugins_of : List Registration → List Plugin
plugins_of [] = []
plugins_of (with_plugin p ∷ ops) = p ∷ plugins_of ops
plugins_of (with_hook t h ∷ ops) = plugins_of ops
plugins_of (with_auth a ∷ ops) = plugins_of ops

unfoldable pub hooks_of : String → List Registration → List (ℕ × Hook)
hooks_of event_type [] = []
hooks_of event_type (with_plugin p ∷ ops) = hooks_of event_type ops
hooks_of event_type (with_hook t h ∷ ops) =
    let rest = hooks_of event_type ops in if t == event_type then h ∷ rest else rest
hooks_of event_type (with_auth a ∷ ops) = hooks_of event_type ops

unfoldable pub auth_of : Option Auth → List Registration → Option Auth
auth_of found [] = found
auth_of found (with_plugin p ∷ ops) = auth_of found ops
auth_of found (with_hook t h ∷ ops) = auth_of found ops
auth_of found (with_auth a ∷ ops) = auth_of a ops

plugins-perform :
    (ops : List Registration) (m : Manager) → (perform ops m).plugins ≡ m.plugins ++ plugins_of ops
unfolding perform plugins_of
plugins-perform [] m = sym (append-nil m.plugins)
plugins-perform (with_plugin p ∷ ops) m =
    plugins-perform ops (register p m) ∙ append_assoc m.plugins (p ∷ []) (plugins_of ops)
plugins-perform (with_hook t h ∷ ops) m = plugins-perform ops (on t h m)
plugins-perform (with_auth a ∷ ops) m = plugins-perform ops (set_auth a m)

hooks_of-hook :
    {A : Type 0}
    → (b : Bool) (h : A) (hs rest : List A)
    → (if b then hs ++ h ∷ [] else hs) ++ rest ≡ hs ++ (if b then h ∷ rest else rest)
hooks_of-hook true h hs rest = append_assoc hs (h ∷ []) rest
hooks_of-hook false h hs rest = refl

hooks_at-on :
    (t event_type : String) (h : ℕ × Hook) (m : Manager)
    → hooks_at t (on event_type h m)
      ≡ (if event_type == t then hooks_at t m ++ h ∷ [] else hooks_at t m)
unfolding on
hooks_at-on t event_type h m = ground (
  arith,
  get-put event_type t (hooks_at event_type m ++ h ∷ []) m.hooks,
  string_eq.beq_iff event_type t,
)

hooks_at-perform :
    (t : String) (ops : List Registration) (m : Manager)
    → hooks_at t (perform ops m) ≡ hooks_at t m ++ hooks_of t ops
unfolding perform hooks_of
hooks_at-perform t [] m = sym (append-nil (hooks_at t m))
hooks_at-perform t (with_plugin p ∷ ops) m = hooks_at-perform t ops (register p m)
hooks_at-perform t (with_hook event_type h ∷ ops) m =
    hooks_at-perform t ops (on event_type h m)
    ∙ ap (λ hs. hs ++ hooks_of t ops) (hooks_at-on t event_type h m)
    ∙ hooks_of-hook (event_type == t) h (hooks_at t m) (hooks_of t ops)
hooks_at-perform t (with_auth a ∷ ops) m = hooks_at-perform t ops (set_auth a m)

auth-perform : (ops : List Registration) (m : Manager) → (perform ops m).auth ≡ auth_of m.auth ops
unfolding perform auth_of
auth-perform [] m = refl
auth-perform (with_plugin p ∷ ops) m = auth-perform ops (register p m)
auth-perform (with_hook t h ∷ ops) m = auth-perform ops (on t h m)
auth-perform (with_auth a ∷ ops) m = auth-perform ops (set_auth a m)

-- A number of callees in turn: each gets the event as the one before leaves it, and what they call
-- comes in that order; a panic ends it.
abbrev pub in_turn : List (Event → Option Seen) → Event → List (ℕ × Event) → Option Seen
in_turn [] e calls = some (e, calls)
in_turn (act ∷ acts) e calls = elim (act e) [
  | none ↦ none
  | some (e', more) ↦ in_turn acts e' (calls ++ more)
]

-- A hook, as a callee.
abbrev pub hooked : ℕ × Hook → Event → Option Seen
hooked (k, hook) e = call k hook e

-- An event goes to the plugins in turn, then to the hooks for the type that they leave it with.
abbrev pub reaches : (String → List (ℕ × Hook)) → List Plugin → Event → Option Seen
reaches hooks plugins e = elim (in_turn (map on_event plugins) e []) [
  | none ↦ none
  | some (e', calls) ↦ in_turn (map hooked (hooks e'.type)) e' calls
]

and_before-append :
    (xs ys : List (ℕ × Event)) (r : Option Seen)
    → and_before (xs ++ ys) r ≡ and_before xs (and_before ys r)
and_before-append xs ys none = refl
and_before-append xs ys (some (e, more)) =
    ap (λ (l : List (ℕ × Event)). some (e, l)) (append_assoc xs ys more)

and_before-nil : (r : Option Seen) → and_before [] r ≡ r
and_before-nil none = refl
and_before-nil (some (e, calls)) = refl

-- One callee of several.
in_turn-cons :
    (act : Event → Option Seen) (acts : List (Event → Option Seen)) (e : Event)
    (calls : List (ℕ × Event)) (r : Option Seen)
    → act e ≡ r
    → elim r [ none ↦ none | some (e', more) ↦ in_turn acts e' (calls ++ more) ]
      ≡ in_turn (act ∷ acts) e calls
in_turn-cons act acts e calls r h =
    ap
      (λ (o : Option Seen).
        let out : Option Seen = elim o [
          | none ↦ none
          | some (e', more) ↦ in_turn acts e' (calls ++ more)
        ] in
        out)
      (sym h)

in_turn-emit_to :
    (ps : List Plugin) (e : Event) (calls : List (ℕ × Event))
    → and_before calls (emit_to ps e) ≡ in_turn (map on_event ps) e calls
unfolding emit_to
in_turn-emit_to [] e calls = ap (λ (l : List (ℕ × Event)). some (e, l)) (append-nil calls)
in_turn-emit_to (p ∷ ps) e calls = elim (Option-cases (on_event p e)) [
  | inl n ↦ rw (emit_to, n) (in_turn-cons (on_event p) (map on_event ps) e calls none n)
  | inr ((e', more), h) ↦
      rw (emit_to, h)
        (sym (and_before-append calls more (emit_to ps e'))
          ∙ in_turn-emit_to ps e' (calls ++ more)
          ∙ in_turn-cons (on_event p) (map on_event ps) e calls (some (e', more)) h)
]

in_turn-run_hooks :
    (hs : List (ℕ × Hook)) (e : Event) (calls : List (ℕ × Event))
    → and_before calls (run_hooks hs e) ≡ in_turn (map hooked hs) e calls
unfolding run_hooks
in_turn-run_hooks [] e calls = ap (λ (l : List (ℕ × Event)). some (e, l)) (append-nil calls)
in_turn-run_hooks ((k, hook) ∷ hs) e calls = elim (Option-cases (call k hook e)) [
  | inl n ↦ rw (run_hooks, n) (in_turn-cons (hooked (k, hook)) (map hooked hs) e calls none n)
  | inr ((e', more), h) ↦
      rw (run_hooks, h)
        (sym (and_before-append calls more (run_hooks hs e'))
          ∙ in_turn-run_hooks hs e' (calls ++ more)
          ∙ in_turn-cons (hooked (k, hook)) (map hooked hs) e calls (some (e', more)) h)
]

-- The hooks, after the plugins.
then_hooks : (String → List (ℕ × Hook)) → Option Seen → Option Seen
then_hooks hooks none = none
then_hooks hooks (some (e, calls)) = in_turn (map hooked (hooks e.type)) e calls

emit-then_hooks :
    (m : Manager) (hooks : String → List (ℕ × Hook)) (r : Option Seen)
    → ((t : String) → hooks_at t m ≡ hooks t)
    → elim r [
      | none ↦ none
      | some (e', calls) ↦ and_before calls (run_hooks (hooks_at e'.type m) e')
    ]
      ≡ then_hooks hooks r
unfolding then_hooks
emit-then_hooks m hooks none same = refl
emit-then_hooks m hooks (some (e, calls)) same =
    ap (λ (hs : List (ℕ × Hook)). and_before calls (run_hooks hs e)) (same e.type)
    ∙ in_turn-run_hooks (hooks e.type) e calls

emit-reaches :
    (e : Event) (m : Manager) (hooks : String → List (ℕ × Hook))
    → ((t : String) → hooks_at t m ≡ hooks t)
    → emit e m ≡ reaches hooks m.plugins e
unfolding emit then_hooks
emit-reaches e m hooks same =
    emit-then_hooks m hooks (emit_to m.plugins e) same
    ∙ ap (then_hooks hooks)
        (sym (and_before-nil (emit_to m.plugins e)) ∙ in_turn-emit_to m.plugins e [])
    ∙ then_hooks-reaches (in_turn (map on_event m.plugins) e [])
  where
    then_hooks-reaches :
        (r : Option Seen)
        → then_hooks hooks r ≡ elim r [
          | none ↦ none
          | some (e', calls) ↦ in_turn (map hooked (hooks e'.type)) e' calls
        ]
    then_hooks-reaches none = refl
    then_hooks-reaches (some (e', calls)) = refl

hooks_at-new : (t : String) → hooks_at t new_manager ≡ []
unfolding GoMap.get
hooks_at-new t = refl

abbrev pub judged : String → Message → Option Auth → Result (Unit {0})
judged agent_id msg none = ok tt
judged agent_id msg (some p) = p agent_id msg

authenticate-eq :
    (agent_id : String) (msg : Message) (m : Manager)
    → authenticate agent_id msg m ≡ judged agent_id msg m.auth
unfolding authenticate
authenticate-eq agent_id msg m = elim (m.auth) [ none ↦ refl | some p ↦ refl ]

-- After any calls of `Register`, `On` and `SetAuth` on a new manager, in any order, an event goes to
-- every plugin in the order of the calls, each of which gets it as the one before leaves it, then to
-- every hook for the type that the plugins leave it with, in the order of the calls, and to no other
-- hook, until one panics; and a connection is judged by the last authentication that was set, or allowed
-- when that is nil or there was none.
pub emit-perform :
    (ops : List Registration) (e : Event) (agent_id : String) (msg : Message)
    → let m = perform ops new_manager in
      (emit e m ≡ reaches (λ t. hooks_of t ops) (plugins_of ops) e)
      × (authenticate agent_id msg m ≡ judged agent_id msg (auth_of none ops))
emit-perform ops e agent_id msg =
    let m = perform ops new_manager in
    let hooks : String → List (ℕ × Hook) = λ t. hooks_of t ops in
    (
      emit-reaches e m hooks (λ t.
            hooks_at-perform t ops new_manager ∙ ap (λ hs. hs ++ hooks_of t ops) (hooks_at-new t))
          ∙ ap (λ (ps : List Plugin). reaches hooks ps e) (plugins-perform ops new_manager),
      authenticate-eq agent_id msg m ∙ ap (judged agent_id msg) (auth-perform ops new_manager),
    )
