-- ===== src/Peers.antt =====
-- internal/p2p/p2p.go: the map of the peers that are online, its clean-up, the connection that is
-- opened to a peer, and the handler of a connection that a peer opens. A time is a number of
-- nanoseconds; what the network answers is an argument.
pub mod Online
pub mod Discovery
pub mod Handler
pub mod Running
pub mod Rounds
mod Examples
use lan_a2a.Prelude.{
  ℕ, zero, suc, ◌+◌, ◌-◌, ◌*◌, ◌/◌, ◌%◌, ◌^◌, ◌≤◌, ◌<◌, String, ◌≡◌, refl, sym, ap, subst, ◌∙◌, ◌≢◌,
  ◌↔◌, ◌⊎◌, inl, inr, Bool, true, false, not, ◌&&◌, ◌||◌, Option, none, some, List, [], ◌∷◌, ◌++◌,
  map, arith, ltb, leb, if◌then◌else◌, Bool-cases, Option-cases, Result-cases, is_some, Eq, ◌==◌,
  nat_eq, string_eq, list_eq, beq_self, beq_ne, Result, ok, err, ◌>>=◌, length, take, drop, filter,
  All, get_elem?, In, In-filter, filter-In, contains, Distinct, length-append, contains-append,
  contains-filter, Bytes, codes,
}
use lan_a2a.Prelude.GoMap
use lan_a2a.Prelude.GoMap.{GoMap, keys}
use lan_a2a.Protocol.{
  MsgType, ProfilePayload, Message, SliceReader, bytes_reader, register, register_ok, ping, pong,
  text, file_meta, file_data, file_done, query_online, online_list, goodbye, message,
}

pub record OnlinePeer : Type 0 where
  pub id : String
  pub addr : String
  pub last_seen : ℕ
  pub profile : Option ProfilePayload

pub record Peers : Type 0 where
  pub agent_id : String
  pub port : ℕ
  pub own_profile : Option ProfilePayload
  pub online : GoMap String OnlinePeer

unfoldable pub new_peers : String → ℕ → Peers
new_peers agent_id port = record {
  agent_id = agent_id;
  port = port;
  own_profile = none;
  online = [];
}

unfoldable pub set_profile : Option ProfilePayload → Peers → Peers
set_profile prof p = record p { own_profile = prof }

-- time.Since(peer.LastSeen) > 30*time.Second
unfoldable pub is_stale : ℕ → OnlinePeer → Bool
is_stale now peer = ltb 30_000_000_000 (now - peer.last_seen)

unfoldable pub drop_stale : ℕ → GoMap String OnlinePeer → GoMap String OnlinePeer
drop_stale now [] = []
drop_stale now ((id, peer) ∷ m) =
    if is_stale now peer then drop_stale now m else (id, peer) ∷ drop_stale now m

-- One tick of `cleanupStalePeers`.
unfoldable pub cleanup_stale_peers : ℕ → Peers → Peers
cleanup_stale_peers now p = record p { online = drop_stale now p.online }

unfoldable pub mark_online : String → String → ℕ → Peers → Peers
mark_online peer_id addr now p = record p {
  online =
      GoMap.put peer_id (record { id = peer_id; addr = addr; last_seen = now; profile = none })
        p.online;
}

unfoldable pub get_online_peers : Peers → List String
get_online_peers p = keys p.online

unfoldable pub is_online : String → Peers → Bool
is_online peer_id p = is_some (GoMap.get peer_id p.online)

abbrev profile_of : Option OnlinePeer → Option ProfilePayload
profile_of none = none
profile_of (some peer) = peer.profile

unfoldable pub get_peer_profile : String → Peers → Option ProfilePayload
get_peer_profile peer_id p = profile_of (GoMap.get peer_id p.online)

unfoldable pub remove_online : String → Peers → Peers
remove_online peer_id p = record p { online = GoMap.del peer_id p.online }

-- The messages of the handshake: `OpenConn` sends the first, `handleWS` answers with the second.
abbrev pub register_message : String → Peers → Message
register_message msg_id p = record (message register msg_id p.agent_id) { profile = p.own_profile }

abbrev pub register_answer : String → Peers → Message
register_answer msg_id p = record (message register_ok msg_id p.agent_id) {
  profile = p.own_profile;
}

-- What `OpenConn` meets: dialling, sending the registration, reading the answer.
pub record Handshake : Type 0 where
  pub dials : Bool
  pub sends : Bool
  pub answer : Option Message

abbrev store_in :
    String → ProfilePayload → GoMap String OnlinePeer → Option OnlinePeer → GoMap String OnlinePeer
store_in peer_id prof m none = m
store_in peer_id prof m (some peer) = GoMap.put peer_id (record peer { profile = some prof }) m

unfoldable pub store_profile : String → Option ProfilePayload → Peers → Peers
store_profile peer_id none p = p
store_profile peer_id (some prof) p = record p {
  online = store_in peer_id prof p.online (GoMap.get peer_id p.online);
}

-- The answer to the registration, when it is a `register_ok`.
abbrev accepted : Option Message → Option Message
accepted none = none
accepted (some m) = elim (m.type) [ register_ok ↦ some m | _ ↦ none ]

-- `OpenConn`: `p` is the state when the peer is looked up, `later` the state when the answer is in,
-- which other goroutines may have changed. The result is the address of the connection.
unfoldable pub open_conn : String → Handshake → Peers → Peers → Peers × Result String
open_conn peer_id h p later = elim (GoMap.get peer_id p.online) [
  | none ↦ (later, err "not online")
  | some peer ↦
      if not h.dials
      then (later, err "connect failed")
      else if not h.sends
      then (later, err "send")
      else elim (accepted h.answer) [
        | none ↦ (later, err "handshake failed")
        | some m ↦ (store_profile peer_id m.profile later, ok peer.addr)
      ]
]

-- The calls of the agent's callbacks.
pub data Event : Type 0 where
  on_message : Message → String → Event
  on_file_data : Message → Option SliceReader → String → Event
  on_goodbye : String → Event

-- The profile that stays: the one received, or the one before.
abbrev newer : Option ProfilePayload → Option ProfilePayload → Option ProfilePayload
newer none before = before
newer (some prof) before = some prof

abbrev pub admitted : Message → String → ℕ → Option OnlinePeer → OnlinePeer
admitted m remote_addr now none = record {
  id = m.from;
  addr = remote_addr;
  last_seen = now;
  profile = m.profile;
}
admitted m remote_addr now (some existing) = record existing {
  last_seen = now;
  profile = newer m.profile existing.profile;
}

-- `Store peer with profile` of `handleWS`.
unfoldable pub admit : Message → String → ℕ → Peers → Peers
admit m remote_addr now p = record p {
  online = GoMap.put m.from (admitted m remote_addr now (GoMap.get m.from p.online)) p.online;
}

-- The read loop of `handleWS`: the messages that come before reading fails.
unfoldable pub read_messages : String → List Message → Peers → Peers × List Event
read_messages peer_id [] p = (remove_online peer_id p, on_goodbye peer_id ∷ [])
read_messages peer_id (m ∷ ms) p =
    let (end, events) = read_messages peer_id ms p in
    elim (m.type) [
      | text ↦ (end, on_message m m.from ∷ events)
      | file_meta ↦ (end, on_message m m.from ∷ events)
      | file_done ↦ (end, on_message m m.from ∷ events)
      | file_data ↦ (end, on_file_data m (bytes_reader m.body) m.from ∷ events)
      | goodbye ↦ (remove_online m.from p, on_goodbye m.from ∷ [])
      | _ ↦ (end, events)
    ]

-- The first message, when it is a registration.
abbrev registration : Option Message → Option Message
registration none = none
registration (some m) = elim (m.type) [ register ↦ some m | _ ↦ none ]

-- `handleWS` after the upgrade: the first message that is read, whether the answer is sent, and the
-- messages of the read loop.
unfoldable pub handle_ws :
    Option Message → Bool → String → ℕ → List Message → Peers → Peers × List Event
handle_ws first sends remote_addr now ms p = elim (registration first) [
  | none ↦ (p, [])
  | some m ↦ if not sends then (p, []) else read_messages m.from ms (admit m remote_addr now p)
]
