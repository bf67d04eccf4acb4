-- ===== src/Agent/Examples.antt =====
-- cmd/lan-a2a/main.go: the theorems about the agent at a concrete agent.
use lan_a2a.Prelude.{false, ◌≡◌, refl, true, none, [], ◌∷◌, ok, string_eq}
use lan_a2a.Prelude.GoMap
use lan_a2a.Channel.{Channel, mode_p2p}
use lan_a2a.Peers.{new_peers, Handshake}
use lan_a2a.Agent.{close_connection, open_connection, relayed, Agent, direct}

abbrev team : Channel
team = record {
  id = "ch-1";
  name = "team";
  mode = mode_p2p;
  host = "me";
  members = "me" ∷ "b" ∷ "c" ∷ [];
  created_at = 0;
  creator = "me";
}

abbrev me : Agent
me = record {
  id = "me";
  peers = new_peers "me" 19100;
  relay = none;
  channels = ("ch-1", team) ∷ [];
  conns = ("b", direct 7) ∷ [];
  lan_online = ("b", true) ∷ [];
  relay_online = ("old", true) ∷ [];
  sent = [];
}

none_yet : GoMap.get "old" me.conns ≡ none
unfolding GoMap.get
none_yet = refl

abbrev no_answer : Handshake
no_answer = record { dials = false; sends = false; answer = none }

opened :
    open_connection "old" no_answer 8 me
    ≡ (record me { conns = ("b", direct 7) ∷ ("old", relayed) ∷ [] }, ok tt)
unfolding open_connection GoMap.get GoMap.put
opened = refl

-- The connection that stands for the relay cannot be closed.
relayed_panics :
    close_connection "old" (record me { conns = ("b", direct 7) ∷ ("old", relayed) ∷ [] }) ≡ none
unfolding close_connection GoMap.get GoMap.del
relayed_panics = refl
