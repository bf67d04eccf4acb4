-- ===== src/Agent/Driven/Examples.antt =====
-- cmd/lan-a2a/main.go: an agent that is driven from the command line.
use lan_a2a.Prelude.{
  ℕ, String, ◌≡◌, refl, ◌≢◌, ◌↔◌, ◌⊎◌, inl, inr, true, false, Option, none, some, [], ◌∷◌, arith,
  is_some, nat_eq, string_eq, list_eq, ok, err, All, In, join_words,
}
use lan_a2a.Prelude.Int.{pos}
use lan_a2a.Prelude.GoMap
use lan_a2a.Protocol.{Message, ProfilePayload}
use lan_a2a.Channel.{Channel, mode_p2p}
use lan_a2a.Channel
use lan_a2a.Peers.{Peers, OnlinePeer, is_online, admit, register_message}
use lan_a2a.FileService
use lan_a2a.Cli.{Cli, run_lines}
use lan_a2a.Cli.Words.{IsWord}
use lan_a2a.Agent.{Agent, direct, open_connection, text_message}
use lan_a2a.Agent.Sending.{IsDirect}
use lan_a2a.Agent.Driven
use lan_a2a.Agent.Driven.{Surroundings, Driven, agent_api, payload, get_agent_info}
use lan_a2a.Agent.Driven.Profiles.{undisturbed, told_of, get_agent_info-open_connection}
use lan_a2a.Agent.Driven.Typing.{run_lines-delivers}

abbrev card : ProfilePayload
card = payload "me" "Me" "tests" []

abbrev peer_b : OnlinePeer
peer_b = record { id = "b"; addr = "10.0.0.2:1"; last_seen = 1; profile = none }

abbrev peers_of : String → Option ProfilePayload → Peers
peers_of id prof = record {
  agent_id = id;
  port = 19100;
  own_profile = prof;
  online = ("b", peer_b) ∷ [];
}

abbrev lobby : Channel
lobby = record {
  id = "c";
  name = "lobby";
  mode = mode_p2p;
  host = "me";
  members = "me" ∷ "b" ∷ [];
  created_at = 0;
  creator = "me";
}

abbrev agent_with : String → Option ProfilePayload → Agent
agent_with id prof = record {
  id = id;
  peers = peers_of id prof;
  relay = none;
  channels = ("c", lobby) ∷ [];
  conns = [];
  lan_online = ("b", true) ∷ [];
  relay_online = [];
  sent = [];
}

abbrev connected : Agent
connected = record (agent_with "me" (some card)) { conns = ("b", direct 7) ∷ [] }

abbrev surroundings : Surroundings
surroundings = record {
  outside = record {
    abs = λ p. ok p;
    base_of = λ p. p;
    split = λ p. record { chunks = []; checksum = ""; size = 0; error = none };
    world = record {
      now = 9;
      walk = λ p. ok [];
      can_write = λ p. true;
      split = λ p. err "no such file";
      new_id = λ p. p;
    };
    now = 9;
    new_msg_id = λ k. "id";
  };
  handshake = λ id. undisturbed "r" (peers_of id none);
  conn = 8;
  channel_id = "ch-9";
  json_arr = λ ids. "ids";
  event_left = λ ch id. id;
  json_of_peer = λ p. p.id;
  json_of_channel = λ ch. ch.id;
  json_of_transfer = λ t. t.id;
}

abbrev terminal : Cli Driven
terminal = record {
  agent = record {
    node = record {
      agent = connected;
      files = record {
        agent_id = "me";
        incoming = [];
        has_on_complete = true;
        disk = [];
        completed = [];
      };
      folder_sync = record {
        manifests = [];
        saved = [];
        service = FileService.new_file_service (pos 4);
      };
    };
    calls = 0;
  };
  agent_id = "me";
  profile = "Me (me)";
  quit_closed = false;
  printed = [];
}

words : All IsWord ("send" ∷ "c" ∷ "hi" ∷ "yo" ∷ [])
words = (
  (refl, (refl, (refl, (refl, tt)))),
  ((refl, tt), ((refl, (refl, tt)), ((refl, (refl, tt)), tt))),
)

connected-IsDirect : IsDirect connected
unfolding GoMap.get
connected-IsDirect id = ground arith

lobby_there : lan_a2a.Channel.get connected.channels "c" ≡ some lobby
unfolding lan_a2a.Channel.get GoMap.get
lobby_there = refl

b-ne-me : "b" ≢ connected.id
b-ne-me p = ground (arith, p, string_eq.beq_iff "b" "me")

run_lines-delivers_example :
    let api = agent_api (λ k. surroundings) in
    let msg = text_message "id" "me" "c" (join_words ("hi" ∷ "yo" ∷ [])) 9 in
    (c' : Cli Driven) × (run_lines api
        (join_words ("send" ∷ "c" ∷ "hi" ∷ "yo" ∷ []) ∷ "status" ∷ [])
        terminal
      ≡ run_lines api ("status" ∷ []) c')
    × (c'.printed ≡ [])
    × ((h : ℕ) (m : Message)
        → In (h, m) c'.agent.node.agent.sent ↔ (
            In (h, m) connected.sent
            ⊎ ((m ≡ msg)
                × ((id : String) × In id lobby.members
                    × (id ≢ "me")
                    × (GoMap.get id connected.conns ≡ some (direct h))))))
run_lines-delivers_example =
    run_lines-delivers (λ k. surroundings) "send" "c" "hi" "b" ("yo" ∷ []) ("status" ∷ []) terminal
      lobby words refl connected-IsDirect lobby_there refl (inr (inl refl)) b-ne-me

abbrev a : Agent
a = agent_with "me" (some card)

abbrev b : Agent
b = agent_with "b" none

b_is_online : is_online b.id a.peers ≡ true
unfolding is_online GoMap.get
b_is_online = refl

b_on_lan : is_some (GoMap.get b.id a.lan_online) ≡ true
unfolding GoMap.get
b_on_lan = refl

not_yet : GoMap.get b.id a.conns ≡ none
unfolding GoMap.get
not_yet = refl

get_agent_info-open_connection_example :
    let b' = Driven.set_profile "Bee" "helps" ("go" ∷ []) b in
    let (a', r) = open_connection b.id (undisturbed "1" b'.peers) 7 a in
    let seen = admit (register_message "2" a.peers) "10.0.0.1:5" 9 b'.peers in
    (r ≡ ok tt)
    × (GoMap.get b.id a'.conns ≡ some (direct 7))
    × (get_agent_info b.id a' ≡ ok (told_of b.id (payload b.id "Bee" "helps" ("go" ∷ [])) a))
    × (get_agent_info a.peers.agent_id (record b' { peers = seen })
        ≡ ok (told_of a.peers.agent_id card b))
get_agent_info-open_connection_example =
    get_agent_info-open_connection a b "Bee" "helps" "1" "2" "10.0.0.1:5" ("go" ∷ []) 9 7 card refl
      b_is_online b_on_lan not_yet
