-- ===== src/RelayServer.antt =====
-- cmd/lan-relay/main.go: the relay server. A connection is a handle, the pointer to its `AgentConn`;
-- the store `conns` holds what it points to. Each handler is one step: the locks serialise them. The
-- body of a channel event is decoded by a parameter, JSON decoding. A handler that panics ends there;
-- its result says so.
pub mod Liveness
pub mod Registration
pub mod Cleanup
pub mod Index
pub mod Delivery
pub mod Sessions
pub mod Handler
pub mod Sets
pub mod Order
mod Examples
use lan_a2a.Prelude.{
  ℕ, zero, suc, ◌+◌, ◌-◌, ◌*◌, ◌/◌, ◌%◌, ◌^◌, ◌≤◌, ◌<◌, String, ◌≡◌, refl, sym, ap, subst, ◌∙◌, ◌≢◌,
  ◌↔◌, ◌⊎◌, inl, inr, Bool, true, false, not, ◌&&◌, ◌||◌, Option, none, some, List, [], ◌∷◌, ◌++◌,
  map, arith, ltb, leb, if◌then◌else◌, Bool-cases, Option-cases, Result-cases, is_some, Eq, ◌==◌,
  nat_eq, string_eq, list_eq, beq_self, beq_ne, Result, ok, err, ◌>>=◌, length, take, drop, filter,
  All, get_elem?, In, In-filter, filter-In, contains, Distinct, length-append, contains-append,
  contains-filter, Bytes, codes,
}
use Prim.Native.String.{len}
use lan_a2a.Prelude.GoMap
use lan_a2a.Prelude.GoMap.{GoMap}
use lan_a2a.Protocol.{
  MsgType, Message, register, register_ok, ping, pong, text, file_meta, file_data, file_done,
  query_online, online_list, goodbye, message,
}

-- map[string]bool, a set.
abbrev pub IdSet : Type 0
IdSet = GoMap String Bool

pub record AgentConn : Type 0 where
  pub id : String
  pub is_closed : Bool
  pub channels : IdSet

pub record Server : Type 0 where
  pub agents : GoMap String ℕ
  pub channel_index : GoMap String IdSet
  pub conns : GoMap ℕ AgentConn

unfoldable pub new_server : Server
new_server = record { agents = []; channel_index = []; conns = [] }

pub data Outcome : Type 0 where
  proceeds panics : Outcome

-- close(ac.done): closing a closed channel panics.
unfoldable pub close_done : Server → ℕ → Server × Outcome
close_done s h = elim (GoMap.get h s.conns) [
  | none ↦ (s, panics)
  | some ac ↦
      if ac.is_closed
      then (s, panics)
      else (record s { conns = GoMap.put h (record ac { is_closed = true }) s.conns }, proceeds)
]

-- if old, ok := s.agents[agentID]; ok { close(old.done) }
unfoldable pub close_replaced : Server → Option ℕ → Server × Outcome
unfolding close_done
close_replaced s none = (s, proceeds)
close_replaced s (some old) = close_done s old

-- The registration in `handleWS`, once the handshake is done.
unfoldable pub register_agent : Server → ℕ → String → Server × Outcome
unfolding close_replaced
register_agent s h id =
    let ac : AgentConn = record { id = id; is_closed = false; channels = [] } in
    let (s1, r) = close_replaced s (GoMap.get id s.agents) in
    elim r [
      | panics ↦ (s1, panics)
      | proceeds ↦ (
        record s1 { agents = GoMap.put id h s1.agents; conns = GoMap.put h ac s1.conns },
        proceeds,
      )
    ]

-- The handshake: the first message is `register`, or the connection is closed (`none`).
unfoldable pub handshake : Server → ℕ → Option Message → Option (Server × Outcome)
handshake s h none = none
handshake s h (some msg) = elim msg.type [
  | register ↦ some (register_agent s h msg.from)
  | _ ↦ none
]

-- A channel's members; a channel with none is deleted.
unfoldable pub store_members : GoMap String IdSet → String → IdSet → GoMap String IdSet
store_members index ch [] = GoMap.del ch index
store_members index ch (m ∷ ms) = GoMap.put ch (m ∷ ms) index

-- Remove one agent from one channel.
unfoldable pub leave_index : GoMap String IdSet → String → String → GoMap String IdSet
unfolding store_members
leave_index index ch id = elim (GoMap.get ch index) [
  | none ↦ index
  | some members ↦ store_members index ch (GoMap.del id members)
]

unfoldable pub leave_all : GoMap String IdSet → List String → String → GoMap String IdSet
leave_all index [] id = index
leave_all index (ch ∷ chs) id = leave_all (leave_index index ch id) chs id

-- The deferred cleanup of `handleWS`. A panic in `close` skips the rest.
unfoldable pub disconnect : Server → ℕ → Server × Outcome
unfolding close_done leave_index leave_all
disconnect s h = elim (GoMap.get h s.conns) [
  | none ↦ (s, panics)
  | some ac ↦
      let (s1, r) = close_done s h in
      elim r [
        | panics ↦ (s1, panics)
        | proceeds ↦ (
          record s1 {
            agents = elim (GoMap.get ac.id s1.agents) [
              | none ↦ s1.agents
              | some cur ↦ if cur == h then GoMap.del ac.id s1.agents else s1.agents
            ];
            channel_index = leave_all s1.channel_index (GoMap.keys ac.channels) ac.id;
          },
          proceeds,
        )
      ]
]

pub record ChannelEvent : Type 0 where
  pub event : String
  pub channel_id : String
  pub members : List String

-- member.channels[ch] = true, where the member is registered.
unfoldable pub note_channel : Server → String → String → Server
note_channel s ch id = elim (GoMap.get id s.agents) [
  | none ↦ s
  | some h ↦ elim (GoMap.get h s.conns) [
    | none ↦ s
    | some ac ↦ record s {
      conns = GoMap.put h (record ac { channels = GoMap.put ch true ac.channels }) s.conns;
    }
  ]
]

abbrev pub members_of : GoMap String IdSet → String → IdSet
members_of index ch = elim (GoMap.get ch index) [ none ↦ [] | some m ↦ m ]

unfoldable pub join : Server → String → String → Server
unfolding note_channel
join s ch id =
    note_channel
      (record s {
        channel_index =
            GoMap.put ch (GoMap.put id true (members_of s.channel_index ch)) s.channel_index;
      })
      ch id

unfoldable pub join_all : Server → String → List String → Server
unfolding join
join_all s ch [] = s
join_all s ch (id ∷ ids) = join_all (join s ch id) ch ids

unfoldable pub create_channel : Server → String → List String → Server
unfolding join_all
create_channel s ch ids =
    join_all
      (record s { channel_index = GoMap.put ch (members_of s.channel_index ch) s.channel_index }) ch
      ids

-- delete(ac.channels, ch)
unfoldable pub forget_channel : Server → ℕ → String → Server
forget_channel s h ch = elim (GoMap.get h s.conns) [
  | none ↦ s
  | some ac ↦ record s {
    conns = GoMap.put h (record ac { channels = GoMap.del ch ac.channels }) s.conns;
  }
]

-- `handleChannelJoinLeave`. The log line after a creation slices the channel ID at 12 bytes.
unfoldable pub handle_join_leave :
    (String → Option ChannelEvent) → Server → ℕ → String → Message → Server × Outcome
unfolding create_channel forget_channel leave_index
handle_join_leave decode s h agent_id msg =
    if msg.channel_id == "" || msg.content == "" then (s, proceeds) else elim (decode msg.content) [
      | none ↦ (s, proceeds)
      | some ev ↦
          if ev.event == "channel_created"
          then (
            create_channel s ev.channel_id ev.members,
            (if ltb (len ev.channel_id) 12 then panics else proceeds),
          )
          else if ev.event == "peer_left"
          then (
            forget_channel
                (record s { channel_index = leave_index s.channel_index ev.channel_id agent_id }) h
                ev.channel_id,
            proceeds,
          )
          else (s, proceeds)
    ]

-- The connections that `relayToChannel` writes a message to.
unfoldable pub targets : Server → List String → String → List ℕ
targets s [] from = []
targets s (id ∷ ids) from =
    if id == from then targets s ids from else elim (GoMap.get id s.agents) [
      | none ↦ targets s ids from
      | some h ↦ h ∷ targets s ids from
    ]

unfoldable pub relay_to_channel : Server → Message → String → List ℕ
unfolding targets
relay_to_channel s msg from =
    if msg.channel_id == "" then [] else elim (GoMap.get msg.channel_id s.channel_index) [
      | none ↦ []
      | some members ↦ targets s (GoMap.keys members) from
    ]

-- What a message makes the server send: a message to a connection.
abbrev pub Sent : Type 0
Sent = List (ℕ × Message)

abbrev pub to_each : Message → List ℕ → Sent
to_each msg [] = []
to_each msg (h ∷ hs) = (h, msg) ∷ to_each msg hs

-- `handleQueryOnline`; `encode` is the JSON of the list of IDs.
unfoldable pub handle_query_online : (List String → String) → Server → Message → Message
handle_query_online encode s req = record (message online_list req.id "relay") {
  content = encode (GoMap.keys s.agents);
}

-- One round of the loop of `handleWS`, for a message that was read.
unfoldable pub handle_message :
    (String → Option ChannelEvent)
    → (List String → String)
    → Server
    → ℕ
    → String
    → Message
    → Server × Sent × Outcome
unfolding handle_join_leave relay_to_channel handle_query_online
handle_message decode encode s h agent_id msg = elim msg.type [
  | ping ↦ (s, (h, message pong "" "relay") ∷ [], proceeds)
  | query_online ↦ (s, (h, handle_query_online encode s msg) ∷ [], proceeds)
  | text ↦
      let (s', r) = handle_join_leave decode s h agent_id msg in
      elim r [
        | panics ↦ (s', [], panics)
        | proceeds ↦ (s', to_each msg (relay_to_channel s' msg agent_id), proceeds)
      ]
  | file_meta ↦ (s, to_each msg (relay_to_channel s msg agent_id), proceeds)
  | file_data ↦ (s, to_each msg (relay_to_channel s msg agent_id), proceeds)
  | file_done ↦ (s, to_each msg (relay_to_channel s msg agent_id), proceeds)
  | _ ↦ (s, [], proceeds)
]

unfoldable pub agent_count : Server → ℕ
agent_count s = GoMap.len s.agents

unfoldable pub channel_count : Server → ℕ
channel_count s = GoMap.len s.channel_index

-- The handler of `/status`: the agents, how many there are, and how many channels.
unfoldable pub status_page : Server → List String × ℕ × ℕ
unfolding channel_count
status_page s = let ids = GoMap.keys s.agents in (ids, length ids, channel_count s)
