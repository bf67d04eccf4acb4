-- ===== src/Network/Examples.antt =====
-- A channel that `agent-aa` creates with `agent-b` through the relay, and what `agent-b` makes of it.
use lan_a2a.Prelude.{
  ℕ, String, ◌≡◌, refl, ◌≢◌, ◌↔◌, ◌⊎◌, true, false, Option, none, some, List, [], ◌∷◌, arith,
  if◌then◌else◌, ◌==◌, nat_eq, string_eq, list_eq, ok, err, In, contains, codes,
}
use lan_a2a.Prelude.Int.{pos}
use lan_a2a.Prelude.GoMap
use lan_a2a.Protocol.{Message, message, goodbye}
use lan_a2a.Channel
use lan_a2a.Peers.{Peers, OnlinePeer, new_peers}
use lan_a2a.FileTransfer.{Os}
use lan_a2a.FileService
use lan_a2a.RelayServer.{ChannelEvent, Server}
use lan_a2a.RelayClient.{Client, new_client}
use lan_a2a.Agent.{
  Agent, channel_created, direct, check_peers, create_channel, send_message, leave_channel,
  text_message,
}
use lan_a2a.Agent.Sharing.{Node, Outside, share_file, share_folder}
use lan_a2a.RelayServer.Handler.{serve}
use lan_a2a.Network.{read_loop}
use lan_a2a.Network.Delivery.{event_of}
use lan_a2a.Network.Invitation.{create_channel-reaches}
use lan_a2a.Network.Uninvited.{read_loop-uninvited}

abbrev ch_id : String
ch_id = "ch-100-agent-aa"

-- The text of the event.
abbrev event_text : String
event_text =
    "{\"event\":\"channel_created\",\"channel_id\":\"ch-100-agent-aa\",\"channel_name\":\"team\",\"mode\":\"relay\",\"host\":\"agent-aa\",\"members\":[\"agent-aa\",\"agent-b\"]}"

-- jsonArr, for the members of the channel.
abbrev json_arr : List String → String
json_arr ids = "[\"agent-aa\",\"agent-b\"]"

abbrev decode : String → Option ChannelEvent
decode content =
    if content == event_text then some (event_of ch_id ("agent-aa" ∷ "agent-b" ∷ [])) else none

abbrev encode : List String → String
encode ids = "ids"

-- The client of `agent-aa`, once it has registered.
abbrev client : Client
client = record {
  agent_id = "agent-aa";
  has_conn = true;
  stopped = false;
  done_closed = false;
  max_retries = 0;
  read_loops = 1;
  ping_loops = 1;
  query_loops = 1;
  sent = [];
  write_error = none;
}

abbrev peer_b : OnlinePeer
peer_b = record { id = "agent-b"; addr = "10.0.0.2:19100"; last_seen = 0; profile = none }

abbrev creator : Agent
creator = record {
  id = "agent-aa";
  peers = record (new_peers "agent-aa" 19100) { online = ("agent-b", peer_b) ∷ [] };
  relay = some client;
  channels = [];
  conns = ("agent-b", direct 7) ∷ [];
  lan_online = ("agent-b", true) ∷ [];
  relay_online = [];
  sent = [];
}

abbrev server : Server
server = record {
  agents = ("agent-aa", 1) ∷ ("agent-b", 2) ∷ ("agent-c", 3) ∷ [];
  channel_index = [];
  conns =
      (1, record { id = "agent-aa"; is_closed = false; channels = [] })
      ∷ (2, record { id = "agent-b"; is_closed = false; channels = [] })
      ∷ (3, record { id = "agent-c"; is_closed = false; channels = [] })
      ∷ [];
}

checked : check_peers ("agent-b" ∷ []) creator ≡ ok tt
unfolding check_peers lan_a2a.Peers.is_online new_peers GoMap.get
checked = refl

unused : GoMap.get ch_id server.channel_index ≡ none
unfolding GoMap.get
unused = refl

create_channel-reaches_example :
    let e = text_message "m1" "agent-aa" ch_id event_text 4 in
    let t = text_message "m2" "agent-aa" ch_id "hello" 5 in
    (a1 : Agent) × (a2 : Agent) × (create_channel json_arr "team"
        ("agent-b" ∷ [])
        ch_id
        "m1"
        4
        creator
      ≡ some (a1, ok (ch_id, "agent-aa" ∷ "agent-b" ∷ [])))
    × (send_message ch_id "hello" "m2" 5 a1 ≡ some (a2, ok tt))
    × (a2.relay ≡ some (record client { sent = t ∷ e ∷ [] }))
    × ((k : ℕ) (m : Message)
        → In (k, m) (serve decode encode 1 "agent-aa" (e ∷ t ∷ []) server).1 ↔ (
            ((m ≡ e) ⊎ (m ≡ t))
            × ((id : String) × (contains id ("agent-b" ∷ []) ≡ true)
                × (id ≢ "agent-aa")
                × (GoMap.get id server.agents ≡ some k))))
unfolding channel_created
create_channel-reaches_example =
    create_channel-reaches decode encode creator client json_arr server 1 "team" ("agent-b" ∷ [])
      ch_id "hello" "m1" "m2" 4 5 refl refl refl checked refl refl (omega arith) unused

-- What `agent-b` receives: the event and the message.
abbrev received : List Message
received =
    text_message "m1" "agent-aa" ch_id event_text 4
    ∷ text_message "m2" "agent-aa" ch_id "hello" 5
    ∷ message goodbye "m3" "agent-aa"
    ∷ []

abbrev no_disk : Os
no_disk = record { home = codes "home" ∷ []; can_create = λ p. true; fails_after = λ p o b. none }

abbrev member : Node
member = record {
  agent = record {
    id = "agent-b";
    peers = new_peers "agent-b" 19100;
    relay = some client;
    channels = [];
    conns = [];
    lan_online = [];
    relay_online = ("agent-aa", true) ∷ [];
    sent = [];
  };
  files = record {
    agent_id = "agent-b";
    incoming = [];
    has_on_complete = true;
    disk = [];
    completed = [];
  };
  folder_sync = record {
    manifests = [];
    saved = [];
    service = FileService.new_file_service (pos 4);
  };
}

abbrev later : Node
later = record member { agent = record member.agent { relay_online = [] } }

abbrev no_list : String → Option (List String)
no_list content = none

heard : read_loop no_list no_disk 6 client received member ≡ some later
unfolding read_loop lan_a2a.RelayClient.read_step lan_a2a.Agent.Sharing.on_message
    lan_a2a.Agent.mark_lan_offline GoMap.del lan_a2a.Channel.is_member GoMap.get
heard = refl

not_yet : Channel.get member.agent.channels ch_id ≡ none
unfolding Channel.get GoMap.get
not_yet = refl

abbrev outside : Outside
outside = record {
  abs = λ p. ok p;
  base_of = λ p. p;
  split = λ p. record { chunks = []; checksum = ""; size = 0; error = none };
  world = record {
    now = 9;
    walk = λ p. ok [];
    can_write = λ p. true;
    split = λ p. err "no such file";
    new_id = λ p. p;
  };
  now = 9;
  new_msg_id = λ k. "m";
}

abbrev left : String → String → String
left ch id = "left"

read_loop-uninvited_example :
    (later.agent.channels ≡ member.agent.channels)
    × (send_message ch_id "hi" "m4" 6 later.agent ≡ some (later.agent, err "channel not found"))
    × (leave_channel ch_id left "m4" 6 later.agent ≡ some (later.agent, err "channel not found"))
    × (share_file outside ch_id "a.txt" later ≡ some (later, err "channel not found"))
    × (share_folder outside ch_id "a.txt" later ≡ (later, err "channel not found"))
read_loop-uninvited_example =
    read_loop-uninvited no_list no_disk 6 client received member later outside left ch_id "hi" "m4"
      "a.txt" heard not_yet
