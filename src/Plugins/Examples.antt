-- ===== src/Plugins/Examples.antt =====
-- internal/plugins/plugins.go: a manager with a plugin of the program, a filter around another, and
-- hooks.
use lan_a2a.Prelude.{
  ◌≡◌, refl, false, none, some, List, [], ◌∷◌, ◌==◌, nat_eq, string_eq, list_eq, err,
}
use lan_a2a.Prelude.GoMap
use lan_a2a.Protocol.{message, text}
use lan_a2a.Plugins.{
  set_auth, on, call, run_hooks, nil, value, Event, Hook, Plugin, other, filter_plugin, on_event,
  emit_to, Auth, new_manager, transfer_start, emit, authenticate, register, name,
}
use lan_a2a.Plugins.Delivery.{
  Registration, with_plugin, with_hook, with_auth, perform, plugins_of, hooks_of, auth_of, reaches,
  judged, emit-perform,
}

abbrev watch : Hook
watch e = some e

abbrev started : Event
started = record {
  type = transfer_start;
  transfer = value false 1;
  chunk = nil;
  peer_id = "b";
  folder = "";
  diff = nil;
  result = nil;
  payload = [];
}

abbrev for_c : Plugin
for_c = filter_plugin (some (λ e. some (e, e.peer_id == "c"))) (other "inner" 2 watch)

abbrev refuses : Auth
refuses agent_id msg = err "no"

abbrev setup : List Registration
setup =
    with_hook transfer_start (7, watch)
    ∷ with_plugin for_c
    ∷ with_auth (some refuses)
    ∷ with_plugin (other "outer" 1 watch)
    ∷ with_hook "chunk.done" (8, watch)
    ∷ with_hook transfer_start (9, watch)
    ∷ []

-- The filter keeps its plugin from an event for another peer; the plugin comes before the hooks.
calls_made :
    emit started (perform setup new_manager)
    ≡ some (started, (1, started) ∷ (7, started) ∷ (9, started) ∷ [])
unfolding emit emit_to run_hooks call on_event perform register on set_auth GoMap.get GoMap.put
calls_made = refl

filter_name : name for_c ≡ some "filter:inner"
unfolding name
filter_name = refl

emit-perform_example :
    let m = perform setup new_manager in
    (emit started m ≡ reaches (λ t. hooks_of t setup) (plugins_of setup) started)
    × (authenticate "x" (message text "1" "x") m
        ≡ judged "x" (message text "1" "x") (auth_of none setup))
emit-perform_example = emit-perform setup started "x" (message text "1" "x")
