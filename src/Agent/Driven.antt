-- ===== src/Agent/Driven.antt =====
-- cmd/lan-a2a/main.go: the agent as the `AgentAPI` of those who drive it, the tools server and the
-- command line.
pub mod Typing
pub mod Profiles
mod Examples
use lan_a2a.Prelude.{
  ℕ, zero, suc, ◌+◌, ◌-◌, ◌*◌, ◌/◌, ◌%◌, ◌^◌, ◌≤◌, ◌<◌, String, ◌≡◌, refl, sym, ap, subst, ◌∙◌, ◌≢◌,
  ◌↔◌, ◌⊎◌, inl, inr, Bool, true, false, not, ◌&&◌, ◌||◌, Option, none, some, List, [], ◌∷◌, ◌++◌,
  map, arith, ltb, leb, if◌then◌else◌, Bool-cases, Option-cases, Result-cases, is_some, Eq, ◌==◌,
  nat_eq, string_eq, list_eq, beq_self, beq_ne, Result, ok, err, ◌>>=◌, length, take, drop, filter,
  All, get_elem?, In, In-filter, filter-In, contains, Distinct, length-append, contains-append,
  contains-filter, Bytes, codes, cons_unless_blank, trim_space, trim_left, trim_right, split_words,
  cons_word, space, is_space, append_text, fields, join_words, Distinct-append_one,
}
use lan_a2a.Prelude.GoMap
use lan_a2a.Protocol.{ProfilePayload}
use lan_a2a.Channel
use lan_a2a.Peers
use lan_a2a.Peers.{Handshake}
use lan_a2a.FileService.{Transfer}
use lan_a2a.FileService
use lan_a2a.AgentApi
use lan_a2a.AgentApi.{AgentApi, Call, Answer, nothing, peers, info, infos, created}
use lan_a2a.Agent.{
  Agent, open_connection, close_connection, create_channel, leave_channel, send_message,
  get_online_peers,
}
use lan_a2a.Agent.Sharing.{Node, Outside, share_file, share_folder, sync_folder}

-- What `GetAgentInfo` returns: the profile's fields when there is a profile.
pub record PeerInfo : Type 0 where
  pub id : String
  pub profile : Option ProfilePayload
  pub source : String

abbrev listed_at : Option Bool → Bool
listed_at none = false
listed_at (some b) = b

unfoldable pub get_agent_info : String → Agent → Result PeerInfo
get_agent_info peer_id a =
    if not (Peers.is_online peer_id a.peers)
    then err "not online"
    else elim (Peers.get_peer_profile peer_id a.peers) [
      | none ↦ ok (record { id = peer_id; profile = none; source = "lan" })
      | some p ↦ ok (record {
        id = p.id;
        profile = some p;
        source = if listed_at (GoMap.get peer_id a.relay_online) then "relay" else "lan";
      })
    ]

-- `SetProfile`: the skills are the roles.
abbrev pub payload : String → String → String → List String → ProfilePayload
payload id name description skills = record {
  id = id;
  name = name;
  avatar = "";
  roles = skills;
  tags = [];
  metadata = ("description", description) ∷ [];
}

unfoldable pub set_profile : String → String → List String → Agent → Agent
set_profile name description skills a = record a {
  peers = Peers.set_profile (some (payload a.id name description skills)) a.peers;
}

unfoldable pub get_transfer_status : String → Node → Result Transfer
get_transfer_status id n = elim (FileService.get_transfer n.folder_sync.service id) [
  | none ↦ err "transfer not found"
  | some t ↦ ok t
]

-- What a call meets: as in `Outside`, the peer's part of a handshake, the number of a new connection,
-- the identifier of a new channel, the JSON of the two events, and how values are written as JSON.
pub record Surroundings : Type 0 where
  pub outside : Outside
  pub handshake : String → Handshake
  pub conn : ℕ
  pub channel_id : String
  pub json_arr : List String → String
  pub event_left : String → String → String
  pub json_of_peer : PeerInfo → String
  pub json_of_channel : Channel.Channel → String
  pub json_of_transfer : Transfer → String

abbrev pub on_agent : Node → Option (Agent × Result (Unit {0})) → Option (Node × Result Answer)
on_agent n none = none
on_agent n (some (a, ok u)) = some (record n { agent = a }, ok nothing)
on_agent n (some (a, err e)) = some (record n { agent = a }, err e)

abbrev on_created :
    Node → Option (Agent × Result (String × List String)) → Option (Node × Result Answer)
on_created n none = none
on_created n (some (a, ok (id, members))) = some (record n { agent = a }, ok (created id members))
on_created n (some (a, err e)) = some (record n { agent = a }, err e)

abbrev on_node : Option (Node × Result (Unit {0})) → Option (Node × Result Answer)
on_node none = none
on_node (some (n, ok u)) = some (n, ok nothing)
on_node (some (n, err e)) = some (n, err e)

abbrev shown : {A : Type 0} → (A → String) → Result A → Result Answer
shown json (ok x) = ok (info (json x))
shown json (err e) = err e

unfoldable pub perform_call : Surroundings → Call → Node → Option (Node × Result Answer)
unfolding get_agent_info set_profile get_transfer_status
perform_call w Call.get_online_peers n = some (n, ok (peers (get_online_peers n.agent)))
perform_call w Call.list_channels n =
    some (n, ok (infos (map w.json_of_channel (Channel.list_by_peer n.agent.channels n.agent.id))))
perform_call w Call.list_transfers n =
    some (n, ok (infos (map w.json_of_transfer (FileService.list_transfers n.folder_sync.service))))
perform_call w (Call.get_agent_info peer_id) n =
    some (n, shown w.json_of_peer (get_agent_info peer_id n.agent))
perform_call w (Call.open_connection peer_id) n =
    on_agent n (some (open_connection peer_id (w.handshake peer_id) w.conn n.agent))
perform_call w (Call.close_connection peer_id) n = on_agent n (close_connection peer_id n.agent)
perform_call w (Call.leave_channel ch) n =
    on_agent n (leave_channel ch w.event_left (w.outside.new_msg_id 0) w.outside.now n.agent)
perform_call w (Call.get_transfer_status id) n =
    some (n, shown w.json_of_transfer (get_transfer_status id n))
perform_call w (Call.create_channel name ids) n =
    on_created n (
      create_channel w.json_arr name ids w.channel_id (w.outside.new_msg_id 0) w.outside.now
        n.agent)
perform_call w (Call.send_message ch body) n =
    on_agent n (send_message ch body (w.outside.new_msg_id 0) w.outside.now n.agent)
perform_call w (Call.share_file ch path) n = on_node (share_file w.outside ch path n)
perform_call w (Call.share_folder ch path) n = on_node (some (share_folder w.outside ch path n))
perform_call w (Call.sync_folder path peer_id) n =
    on_node (some (sync_folder w.outside path peer_id n))
perform_call w (Call.set_profile name description skills) n =
    some (record n { agent = set_profile name description skills n.agent }, ok nothing)

-- The agent, and how many calls came before: each call meets its own surroundings.
pub record Driven : Type 0 where
  pub node : Node
  pub calls : ℕ

abbrev pub counted : ℕ → Option (Node × Result Answer) → Option (Driven × Result Answer)
counted k none = none
counted k (some (n, r)) = some (record { node = n; calls = k + 1 }, r)

abbrev pub agent_api : (ℕ → Surroundings) → AgentApi Driven
agent_api at = record {
  perform = λ call d. counted d.calls (perform_call (at d.calls) call d.node);
}
