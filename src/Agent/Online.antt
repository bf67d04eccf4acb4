-- ===== src/Agent/Online.antt =====
-- cmd/lan-a2a/main.go: who is online, on the local network or through the relay.
use lan_a2a.Prelude.{
  Distinct-append_one, String, ◌≡◌, Bool, true, not, ◌&&◌, ◌||◌, List, [], ◌∷◌, ◌++◌, arith,
  is_some, ◌==◌, nat_eq, string_eq, list_eq, contains, Distinct, contains-append,
}
use lan_a2a.Prelude.GoMap
use lan_a2a.Prelude.GoMap.{GoMap, keys, get-put, contains-keys}
use lan_a2a.Agent.{Agent, add_others, mark_relay_online, append_unseen, get_online_peers}

contains-append_unseen :
    (id : String) (result ids : List String)
    → contains id (append_unseen result ids) ≡ contains id result || contains id ids
unfolding append_unseen
contains-append_unseen id result [] = ground arith
contains-append_unseen id result (x ∷ ids) = ground (
  arith,
  contains-append_unseen id result ids,
  contains-append_unseen id (result ++ x ∷ []) ids,
  contains-append id result (x ∷ []),
  string_eq.beq_iff x id,
  string_eq.beq_iff id x,
)

Distinct-append_unseen :
    (result ids : List String) → Distinct result → Distinct (append_unseen result ids)
unfolding append_unseen
Distinct-append_unseen result [] d = d
Distinct-append_unseen result (x ∷ ids) d = ground (
  arith,
  Distinct-append_unseen result ids d,
  Distinct-append_unseen (result ++ x ∷ []) ids,
  Distinct-append_one x result d,
)

get-add_others :
    (self id : String) (ids : List String) (m : GoMap String Bool)
    → is_some (GoMap.get id (add_others self ids m))
      ≡ is_some (GoMap.get id m) || (contains id ids && not (id == self))
unfolding add_others
get-add_others self id [] m = ground arith
get-add_others self id (x ∷ ids) m = ground (
  arith,
  get-add_others self id ids m,
  get-add_others self id ids (GoMap.put x true m),
  get-put x id true m,
  string_eq.beq_iff x id,
  string_eq.beq_iff id x,
  string_eq.beq_iff x self,
  string_eq.beq_iff id self,
)

-- After a list of agents from the relay, the agents that are listed as online are those known on the
-- local network and those of the list, without the agent itself unless the local network names it;
-- what an earlier list named is forgotten, and no agent is listed twice.
pub get_online_peers-mark_relay_online :
    (a : Agent) (ids : List String) (id : String)
    → let listed = get_online_peers (mark_relay_online ids a) in
      (contains id listed
        ≡ is_some (GoMap.get id a.lan_online) || (contains id ids && not (id == a.id)))
      × Distinct listed
unfolding get_online_peers mark_relay_online
get_online_peers-mark_relay_online a ids id =
    let lan = append_unseen [] (keys a.lan_online) in
    let known = add_others a.id ids [] in
    (
      ground (
        arith,
        contains-append_unseen id lan (keys known),
        contains-append_unseen id [] (keys a.lan_online),
        contains-keys id a.lan_online,
        contains-keys id known,
        get-add_others a.id id ids [],
        GoMap.get-nil {V = Bool} id,
      ),
      Distinct-append_unseen lan (keys known) (Distinct-append_unseen [] (keys a.lan_online) tt),
    )
