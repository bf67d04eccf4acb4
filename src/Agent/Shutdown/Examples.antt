-- ===== src/Agent/Shutdown/Examples.antt =====
-- cmd/lan-a2a/main.go: the end of an agent that is connected to one peer, knows another from discovery,
-- and has a relay.
use lan_a2a.Prelude.{
  ℕ, String, ◌≡◌, refl, subst, true, false, Option, none, some, [], ◌∷◌, nat_eq, string_eq, list_eq,
  In,
}
use lan_a2a.Prelude.GoMap.{keys}
use lan_a2a.Protocol.{Message, message, goodbye, register_ok}
use lan_a2a.Peers.{Handshake}
use lan_a2a.RelayClient.{Client}
use lan_a2a.Agent.{Agent, direct}
use lan_a2a.Agent.Shutdown.{shut_down}
use lan_a2a.Agent.Shutdown.Goodbyes.{Reachable, RelayIsUp, shut_down-tells}

abbrev client : Client
client = record {
  agent_id = "me";
  has_conn = true;
  stopped = false;
  done_closed = false;
  max_retries = 0;
  read_loops = 1;
  ping_loops = 1;
  query_loops = 1;
  sent = [];
  write_error = none;
}

abbrev me : Agent
me = record {
  id = "me";
  peers = record {
    agent_id = "me";
    port = 19100;
    own_profile = none;
    online = ("d", record { id = "d"; addr = "10.0.0.4:1"; last_seen = 1; profile = none }) ∷ [];
  };
  relay = some client;
  channels = [];
  conns = ("b", direct 7) ∷ [];
  lan_online = ("d", true) ∷ [];
  relay_online = [];
  sent = [];
}

abbrev welcoming : String → Handshake
welcoming id = record { dials = true; sends = true; answer = some (message register_ok "r" id) }

UpOf : Option Client → Type 0
UpOf none = Unit {0}
UpOf (some c) = (c.has_conn ≡ true) × (c.done_closed ≡ false)

me-RelayIsUp : RelayIsUp me
unfolding UpOf
me-RelayIsUp c e = subst UpOf e (refl, refl)

shut_down-tells_example :
    let bye : Message = record (message goodbye "bye" "me") { timestamp = 3 } in
    (a' : Agent) × (shut_down welcoming (λ id. 8) "bye" "bye2" 3 me ≡ some a')
    × (a'.conns ≡ [])
    × ((id : String) (h : ℕ) → In (id, direct h) me.conns → In (h, bye) a'.sent)
    × ((id : String)
        → In id (keys me.lan_online)
        → Reachable welcoming me.peers id
        → In (8, bye) a'.sent)
    × ((c : Client)
        → me.relay ≡ some c
        → (c' : Client) × (a'.relay ≡ some c')
          × (c'.stopped ≡ true)
          × (c'.sent ≡ message goodbye "bye2" c.agent_id ∷ c.sent))
shut_down-tells_example = shut_down-tells welcoming (λ id. 8) "bye" "bye2" 3 me me-RelayIsUp
