-- ===== src/Plugins.antt =====
-- internal/plugins/plugins.go: the manager of plugins, the hooks and the authentication that it holds,
-- and the built-in plugins. A panic is `none`.
pub mod Delivery
pub mod Logging
mod Examples
use lan_a2a.Prelude.{
  ℕ, zero, suc, ◌+◌, ◌-◌, ◌*◌, ◌/◌, ◌%◌, ◌^◌, ◌≤◌, ◌<◌, String, ◌≡◌, refl, sym, ap, subst, ◌∙◌, ◌≢◌,
  ◌↔◌, ◌⊎◌, inl, inr, Bool, true, false, not, ◌&&◌, ◌||◌, Option, none, some, List, [], ◌∷◌, ◌++◌,
  map, arith, ltb, leb, if◌then◌else◌, Bool-cases, Option-cases, Result-cases, is_some, Eq, ◌==◌,
  nat_eq, string_eq, list_eq, beq_self, beq_ne, Result, ok, err, ◌>>=◌, length, take, drop, filter,
  All, get_elem?, In, In-filter, filter-In, contains, Distinct, length-append, contains-append,
  contains-filter, Bytes, codes, cons_unless_blank, trim_space, trim_left, trim_right, split_words,
  cons_word, space, is_space, append_text, fields, join_words, Distinct-append_one,
}
use lan_a2a.Prelude.GoMap
use lan_a2a.Prelude.GoMap.{GoMap}
use lan_a2a.Protocol.{Message}

-- A value of type interface{}: nil, or a value, by a number, with or without a method GetID.
pub data Value : Type 0 where
  nil : Value
  value : Bool → ℕ → Value

pub record Event : Type 0 where
  pub type : String
  pub transfer : Value
  pub chunk : Value
  pub peer_id : String
  pub folder : String
  pub diff : Value
  pub result : Value
  pub payload : GoMap String Value

abbrev pub transfer_start : String
transfer_start = "transfer.start"

-- What a call of `Transform` returns: nil, the event that it was given, or another.
pub data Transformed : Type 0 where
  dropped : Transformed
  same : Transformed
  fresh : Event → Transformed

-- Functions of the program that uses the package: what they leave of the event that they are given a
-- pointer to, with what they return. A call that panics is `none`.
abbrev pub Hook : Type 0
Hook = Event → Option Event

abbrev pub Match : Type 0
Match = Event → Option (Event × Bool)

abbrev pub Transform : Type 0
Transform = Event → Option (Event × Transformed)

-- The values of the interface `Plugin`: the built-in plugins, nil, and plugins of the program, with the
-- name and `OnEvent`. The numbers tell functions apart.
pub data Plugin : Type 0 where
  no_plugin : Plugin
  other : String → ℕ → Hook → Plugin
  log_plugin : Plugin
  progress_plugin : Option (ℕ × Hook) → Plugin
  filter_plugin : Option Match → Plugin → Plugin
  transform_plugin : Option Transform → Plugin → Plugin

unfoldable pub name : Plugin → Option String
name no_plugin = none
name (other n k hook) = some n
name log_plugin = some "log"
name (progress_plugin hook) = some "progress"
name (filter_plugin accepts inner) = elim (name inner) [
  | none ↦ none
  | some n ↦ some (append_text "filter:" n)
]
name (transform_plugin change inner) = elim (name inner) [
  | none ↦ none
  | some n ↦ some (append_text "transform:" n)
]

-- An event is passed by pointer; each call of a function is listed, with the event that it got.
abbrev pub Seen : Type 0
Seen = Event × List (ℕ × Event)

unfoldable pub call : ℕ → Hook → Event → Option Seen
call k hook e = elim (hook e) [ none ↦ none | some e' ↦ some (e', (k, e) ∷ []) ]

-- `OnEvent` of `LogPlugin`: the type assertion panics on a value without GetID.
unfoldable pub on_log : Event → Option Seen
on_log e =
    if e.type == transfer_start
    then elim (e.transfer) [
      | nil ↦ none
      | value has_get_id k ↦ if has_get_id then some (e, []) else none
    ]
    else some (e, [])

-- What the outer event is after a call: an inner plugin that got another event leaves it alone.
abbrev pub kept : Event → Option Seen → Option Seen
kept e none = none
kept e (some (e', calls)) = some (e, calls)

unfoldable pub on_event : Plugin → Event → Option Seen
unfolding call on_log
on_event no_plugin e = none
on_event (other n k hook) e = call k hook e
on_event log_plugin e = on_log e
on_event (progress_plugin none) e = some (e, [])
on_event (progress_plugin (some (k, hook))) e = call k hook e
on_event (filter_plugin none inner) e = none
on_event (filter_plugin (some accepts) inner) e = elim (accepts e) [
  | none ↦ none
  | some (e', false) ↦ some (e', [])
  | some (e', true) ↦ on_event inner e'
]
on_event (transform_plugin none inner) e = none
on_event (transform_plugin (some change) inner) e = elim (change e) [
  | none ↦ none
  | some (e', dropped) ↦ some (e', [])
  | some (e', same) ↦ on_event inner e'
  | some (e', fresh other_event) ↦ kept e' (on_event inner other_event)
]

-- `AuthPlugin`, by its function `Authenticate`.
abbrev pub Auth : Type 0
Auth = String → Message → Result (Unit {0})

pub record Manager : Type 0 where
  pub plugins : List Plugin
  pub hooks : GoMap String (List (ℕ × Hook))
  pub auth : Option Auth

abbrev pub new_manager : Manager
new_manager = record { plugins = []; hooks = []; auth = none }

unfoldable pub register : Plugin → Manager → Manager
register p m = record m { plugins = m.plugins ++ p ∷ [] }

abbrev pub hooks_at : String → Manager → List (ℕ × Hook)
hooks_at event_type m = elim (GoMap.get event_type m.hooks) [ none ↦ [] | some hooks ↦ hooks ]

unfoldable pub on : String → ℕ × Hook → Manager → Manager
on event_type hook m = record m {
  hooks = GoMap.put event_type (hooks_at event_type m ++ hook ∷ []) m.hooks;
}

unfoldable pub set_auth : Option Auth → Manager → Manager
set_auth p m = record m { auth = p }

unfoldable pub authenticate : String → Message → Manager → Result (Unit {0})
authenticate agent_id msg m = elim (m.auth) [ none ↦ ok tt | some p ↦ p agent_id msg ]

abbrev pub and_before : List (ℕ × Event) → Option Seen → Option Seen
and_before calls none = none
and_before calls (some (e, more)) = some (e, calls ++ more)

-- The first loop of `Emit`.
unfoldable pub emit_to : List Plugin → Event → Option Seen
unfolding on_event
emit_to [] e = some (e, [])
emit_to (p ∷ plugins) e = elim (on_event p e) [
  | none ↦ none
  | some (e', calls) ↦ and_before calls (emit_to plugins e')
]

-- The second loop.
unfoldable pub run_hooks : List (ℕ × Hook) → Event → Option Seen
unfolding call
run_hooks [] e = some (e, [])
run_hooks ((k, hook) ∷ hooks) e = elim (call k hook e) [
  | none ↦ none
  | some (e', calls) ↦ and_before calls (run_hooks hooks e')
]

-- The hooks are those for the type that the plugins leave.
unfoldable pub emit : Event → Manager → Option Seen
unfolding emit_to run_hooks
emit e m = elim (emit_to m.plugins e) [
  | none ↦ none
  | some (e', calls) ↦ and_before calls (run_hooks (hooks_at e'.type m) e')
]
