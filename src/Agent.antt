-- ===== src/Agent.antt =====
-- cmd/lan-a2a/main.go: the agent, over the models of its channels, its peers and its relay client: who
-- is online, the connections that it holds, and its channels and messages. A panic is `none`.
pub mod Online
pub mod Connections
pub mod Sending
pub mod Sharing
pub mod Startup
pub mod Driven
pub mod Shutdown
mod Examples
use lan_a2a.Prelude.{
  ℕ, zero, suc, ◌+◌, ◌-◌, ◌*◌, ◌/◌, ◌%◌, ◌^◌, ◌≤◌, ◌<◌, String, ◌≡◌, refl, sym, ap, subst, ◌∙◌, ◌≢◌,
  ◌↔◌, ◌⊎◌, inl, inr, Bool, true, false, not, ◌&&◌, ◌||◌, Option, none, some, List, [], ◌∷◌, ◌++◌,
  map, arith, ltb, leb, if◌then◌else◌, Bool-cases, Option-cases, Result-cases, is_some, Eq, ◌==◌,
  nat_eq, string_eq, list_eq, beq_self, beq_ne, Result, ok, err, ◌>>=◌, length, take, drop, filter,
  All, get_elem?, In, In-filter, filter-In, contains, Distinct, length-append, contains-append,
  contains-filter, Bytes, codes, append_text,
}
use lan_a2a.Prelude.GoMap
use lan_a2a.Prelude.GoMap.{GoMap, keys}
use lan_a2a.Protocol.{Message, message, text}
use lan_a2a.Channel.{ChannelMode, mode_p2p, mode_relay}
use lan_a2a.Channel
use lan_a2a.Peers.{Peers, Handshake}
use lan_a2a.Peers
use lan_a2a.RelayClient
use lan_a2a.RelayClient.{Client}

-- *protocol.Conn: a WebSocket connection, by a number, or nil, which stands for the relay.
pub data Conn : Type 0 where
  direct : ℕ → Conn
  relayed : Conn

pub record Agent : Type 0 where
  pub id : String
  pub peers : Peers
  pub relay : Option Client
  pub channels : Channel.Manager
  pub conns : GoMap String Conn
  pub lan_online : GoMap String Bool
  pub relay_online : GoMap String Bool
  pub sent : List (ℕ × Message)

-- The agent that main makes.
unfoldable pub new_agent : String → ℕ → Agent
new_agent id port = record {
  id = id;
  peers = Peers.new_peers id port;
  relay = none;
  channels = Channel.new_manager;
  conns = [];
  lan_online = [];
  relay_online = [];
  sent = [];
}

unfoldable pub mark_lan_online : String → Agent → Agent
mark_lan_online peer_id a = record a { lan_online = GoMap.put peer_id true a.lan_online }

unfoldable pub mark_lan_offline : String → Agent → Agent
mark_lan_offline peer_id a = record a {
  lan_online = GoMap.del peer_id a.lan_online;
  relay_online = GoMap.del peer_id a.relay_online;
}

-- The loop of `markRelayOnline`, from the set that it has so far.
unfoldable pub add_others : String → List String → GoMap String Bool → GoMap String Bool
add_others self [] m = m
add_others self (id ∷ ids) m =
    if id == self then add_others self ids m else add_others self ids (GoMap.put id true m)

unfoldable pub mark_relay_online : List String → Agent → Agent
mark_relay_online ids a = record a { relay_online = add_others a.id ids [] }

-- A loop of `GetOnlinePeers`: the identifiers not seen yet are appended.
unfoldable pub append_unseen : List String → List String → List String
append_unseen result [] = result
append_unseen result (id ∷ ids) =
    if contains id result then append_unseen result ids else append_unseen (result ++ id ∷ []) ids

unfoldable pub get_online_peers : Agent → List String
get_online_peers a = append_unseen (append_unseen [] (keys a.lan_online)) (keys a.relay_online)

-- `OpenConnection`: `h` is what the peer answers, `conn` the number of a new connection.
unfoldable pub open_connection : String → Handshake → ℕ → Agent → Agent × Result (Unit {0})
open_connection peer_id h conn a =
    if not (is_some (GoMap.get peer_id a.lan_online) || is_some (GoMap.get peer_id a.relay_online))
    then (a, err "not online")
    else if is_some (GoMap.get peer_id a.conns)
    then (a, ok tt)
    else if is_some (GoMap.get peer_id a.lan_online)
    then (let (peers, r) = Peers.open_conn peer_id h a.peers a.peers in
        elim r [
          | err e ↦ (record a { peers = peers }, err e)
          | ok addr ↦
              (record a { peers = peers; conns = GoMap.put peer_id (direct conn) a.conns }, ok tt)
        ])
    else (record a { conns = GoMap.put peer_id relayed a.conns }, ok tt)

-- `CloseConnection`; closing a nil connection panics.
unfoldable pub close_connection : String → Agent → Option (Agent × Result (Unit {0}))
close_connection peer_id a = elim (GoMap.get peer_id a.conns) [
  | none ↦ some (a, ok tt)
  | some (direct h) ↦ some (record a { conns = GoMap.del peer_id a.conns }, ok tt)
  | some relayed ↦ none
]

unfoldable pub get_conn : String → Agent → Result Conn
get_conn peer_id a = elim (GoMap.get peer_id a.conns) [
  | none ↦ err "no connection"
  | some conn ↦ ok conn
]

-- `broadcastToMembers`: a member without a connection is skipped, and a nil one panics.
unfoldable pub broadcast_to_members : List String → Message → Agent → Option Agent
unfolding get_conn
broadcast_to_members [] msg a = some a
broadcast_to_members (id ∷ ids) msg a = elim (GoMap.get id a.conns) [
  | none ↦ broadcast_to_members ids msg a
  | some (direct h) ↦ broadcast_to_members ids msg (record a { sent = a.sent ++ (h, msg) ∷ [] })
  | some relayed ↦ none
]

-- a.relay.Send(msg), which panics without a connection.
unfoldable pub relay_send : Client → Message → Agent → Option Agent
relay_send c msg a = elim (RelayClient.send c msg) [
  | none ↦ none
  | some c' ↦ some (record a { relay = some c' })
]

abbrev pub others : String → List String → List String
others self members = filter (λ m. not (m == self)) members

abbrev answered : Option Agent → Option (Agent × Result (Unit {0}))
answered none = none
answered (some a) = some (a, ok tt)

-- With the error that `Send` returns.
abbrev returning : Result (Unit {0}) → Option Agent → Option (Agent × Result (Unit {0}))
returning r none = none
returning r (some a) = some (a, r)

abbrev pub text_message : String → String → String → String → ℕ → Message
text_message msg_id from channel_id content now = record (message text msg_id from) {
  channel_id = channel_id;
  content = content;
  timestamp = now;
}

-- `SendMessage`; `msg_id` is a new identifier.
unfoldable pub send_message :
    String → String → String → ℕ → Agent → Option (Agent × Result (Unit {0}))
send_message channel_id body msg_id now a = elim (Channel.get a.channels channel_id) [
  | none ↦ some (a, err "channel not found")
  | some ch ↦
      let msg = text_message msg_id a.id channel_id body now in
      elim ch.mode [
        | mode_relay ↦ elim (a.relay) [
          | none ↦ some (a, err "no relay connection")
          | some c ↦ returning (RelayClient.send_result c) (relay_send c msg a)
        ]
        | mode_p2p ↦ elim (others a.id ch.members) [
          | [] ↦ some (a, err "no other members in channel")
          | x ∷ xs ↦ answered (broadcast_to_members (x ∷ xs) msg a)
        ]
      ]
]

-- `LeaveChannel`; `left` is the JSON of the event.
unfoldable pub leave_channel :
    String → (String → String → String) → String → ℕ → Agent → Option (Agent × Result (Unit {0}))
leave_channel channel_id left msg_id now a = elim (Channel.get a.channels channel_id) [
  | none ↦ some (a, err "channel not found")
  | some ch ↦
      let msg = text_message msg_id a.id channel_id (left channel_id a.id) now in
      let a' : Agent = record a { channels = (Channel.leave a.channels channel_id a.id).0 } in
      elim ch.mode [
        | mode_relay ↦ elim (a.relay) [
          | none ↦ some (a', ok tt)
          | some c ↦ answered (relay_send c msg a')
        ]
        | mode_p2p ↦ answered (broadcast_to_members (others a.id ch.members) msg a')
      ]
]

-- The checks of `CreateChannel` on the peers that are named.
unfoldable pub check_peers : List String → Agent → Result (Unit {0})
check_peers [] a = ok tt
check_peers (id ∷ ids) a =
    if not (Peers.is_online id a.peers)
    then err "peer not online"
    else elim (GoMap.get id a.conns) [ none ↦ err "no connection" | some conn ↦ check_peers ids a ]

abbrev finished :
    String → List String → Option Agent → Option (Agent × Result (String × List String))
finished ch_id members none = none
finished ch_id members (some a) = some (a, ok (ch_id, members))

abbrev pub mode_name : ChannelMode → String
mode_name mode_p2p = "p2p"
mode_name mode_relay = "relay"

abbrev pub texts : List String → String
texts [] = ""
texts (s ∷ ss) = append_text s (texts ss)

abbrev pub opening : String
opening = "{\"event\":\"channel_created\",\"channel_id\":\""

-- The text of the event, by Sprintf, which escapes nothing; `json_arr` is jsonArr, by encoding/json.
unfoldable pub channel_created :
    (List String → String) → String → String → ChannelMode → String → List String → String
channel_created json_arr ch_id name mode host members = texts (
    opening
    ∷ ch_id
    ∷ "\",\"channel_name\":\""
    ∷ name
    ∷ "\",\"mode\":\""
    ∷ mode_name mode
    ∷ "\",\"host\":\""
    ∷ host
    ∷ "\",\"members\":"
    ∷ json_arr members
    ∷ "}"
    ∷ [])

-- `CreateChannel`: `ch_id` and `msg_id` are new identifiers, `json_arr` is jsonArr.
-- The errors of the sends are dropped.
unfoldable pub create_channel :
    (List String → String)
    → String
    → List String
    → String
    → String
    → ℕ
    → Agent
    → Option (Agent × Result (String × List String))
create_channel json_arr name peer_ids ch_id msg_id now a = elim (check_peers peer_ids a) [
  | err e ↦ some (a, err e)
  | ok u ↦
      let members = a.id ∷ peer_ids in
      let event : ChannelMode → String =
        λ mode. channel_created json_arr ch_id name mode a.id members in
      elim (a.relay) [
        | some c ↦
            let msg = text_message msg_id a.id ch_id (event mode_relay) now in
            let chs = (Channel.create a.channels now ch_id name a.id members mode_relay).0 in
            finished ch_id members (relay_send c msg (record a { channels = chs }))
        | none ↦
            let msg = text_message msg_id a.id ch_id (event mode_p2p) now in
            let chs = (Channel.create a.channels now ch_id name a.id members mode_p2p).0 in
            finished ch_id members (broadcast_to_members peer_ids msg (record a { channels = chs }))
      ]
]
