-- ===== src/Network/Invitation.antt =====
-- cmd/lan-a2a/main.go with cmd/lan-relay/main.go: a channel in relay mode, from its creation to the
-- members whom a message reaches.
use lan_a2a.Prelude.{
  ℕ, ◌≤◌, String, ◌≡◌, refl, ap, subst, ◌∙◌, ◌≢◌, ◌↔◌, ◌⊎◌, true, Option, none, some, Result, err,
  List, [], ◌∷◌, arith, nat_eq, string_eq, list_eq, beq_self, ok, In, contains,
}
use Prim.Native.String.{len}
use lan_a2a.Prelude.GoMap
use lan_a2a.Prelude.GoMap.{GoMap, get-put}
use lan_a2a.Protocol.{Message}
use lan_a2a.Channel.{mode_relay}
use lan_a2a.Channel
use lan_a2a.RelayServer.{Server, ChannelEvent}
use lan_a2a.RelayClient.{Client}
use lan_a2a.RelayClient
use lan_a2a.Agent.Startup.Created.{append_text-nonempty}
use lan_a2a.Agent.{
  channel_created, mode_name, opening, texts, Agent, check_peers, create_channel, send_message,
  relay_send, text_message,
}
use lan_a2a.RelayServer.Handler.{serve}
use lan_a2a.Network.Delivery.{event_of, serve-Invited}

-- The agent's side: both messages go to the relay, the event first.
abbrev channel_of : String → String → String → List String → ℕ → Channel.Channel
channel_of ch_id name self members now = record {
  id = ch_id;
  name = name;
  mode = mode_relay;
  host = self;
  members = members;
  created_at = now;
  creator = self;
}

relay_send-sent :
    (a : Agent) (c : Client) (msg : Message)
    → c.has_conn ≡ true
    → relay_send c msg a ≡ some (record a { relay = some (record c { sent = msg ∷ c.sent }) })
unfolding relay_send RelayClient.send
relay_send-sent a c msg h = ground (arith, h)

-- The agent once it has created the channel.
abbrev created_by : Agent → Client → String → List String → String → String → String → ℕ → Agent
created_by a c name ids ch_id event m1 now = record a {
  channels = GoMap.put ch_id (channel_of ch_id name a.id (a.id ∷ ids) now) a.channels;
  relay = some (record c { sent = text_message m1 a.id ch_id event now ∷ c.sent });
}

create_channel-sent :
    (json_arr : List String → String) (a : Agent) (c : Client) (name : String) (ids : List String)
    (ch_id m1 : String) (now : ℕ)
    → let event = channel_created json_arr ch_id name mode_relay a.id (a.id ∷ ids) in
      a.relay ≡ some c
      → c.has_conn ≡ true
      → check_peers ids a ≡ ok tt
      → create_channel json_arr name ids ch_id m1 now a
        ≡ some (created_by a c name ids ch_id event m1 now, ok (ch_id, a.id ∷ ids))
unfolding create_channel Channel.create
create_channel-sent json_arr a c name ids ch_id m1 now e h p =
    let event = channel_created json_arr ch_id name mode_relay a.id (a.id ∷ ids) in
    let chs = GoMap.put ch_id (channel_of ch_id name a.id (a.id ∷ ids) now) a.channels in
    ground (
      arith,
      e,
      h,
      p,
      relay_send-sent (record a { channels = chs }) c (text_message m1 a.id ch_id event now),
    )

send_message-relayed :
    (a : Agent) (c : Client) (ch : Channel.Channel) (ch_id body m2 : String) (now : ℕ)
    → a.relay ≡ some c
    → c.has_conn ≡ true
    → Channel.get a.channels ch_id ≡ some ch
    → ch.mode ≡ mode_relay
    → let msg = text_message m2 a.id ch_id body now in
      send_message ch_id body m2 now a
      ≡ some
          (record a { relay = some (record c { sent = msg ∷ c.sent }) }, RelayClient.send_result c)
unfolding send_message
send_message-relayed a c ch ch_id body m2 now e h g m =
    ground (arith, e, g, m, relay_send-sent a c (text_message m2 a.id ch_id body now) h)

get-created :
    (a : Agent) (ch_id name : String) (ids : List String) (now : ℕ)
    → let ch = channel_of ch_id name a.id (a.id ∷ ids) now in
      Channel.get (GoMap.put ch_id ch a.channels) ch_id ≡ some ch
unfolding Channel.get
get-created a ch_id name ids now =
    let ch = channel_of ch_id name a.id (a.id ∷ ids) now in
    get-put ch_id ch_id ch a.channels ∙ rw (beq_self ch_id) refl

-- What `Send` returns for an error of WriteJSON, or for none.
abbrev written : Option String → Result (Unit {0})
written o = elim o [ none ↦ ok tt | some e ↦ err e ]

channel_created-nonempty :
    (json_arr : List String → String) (ch_id name : String) (mode : Channel.ChannelMode)
    (host : String) (members : List String)
    → channel_created json_arr ch_id name mode host members ≢ ""
unfolding channel_created
channel_created-nonempty json_arr ch_id name mode host members =
    append_text-nonempty opening
      (texts (
        ch_id
        ∷ "\",\"channel_name\":\""
        ∷ name
        ∷ "\",\"mode\":\""
        ∷ mode_name mode
        ∷ "\",\"host\":\""
        ∷ host
        ∷ "\",\"members\":"
        ∷ json_arr members
        ∷ "}"
        ∷ []))
      (λ h. ground (arith, h, string_eq.beq_iff opening ""))

named : (ch : String) → 12 ≤ len ch → ch ≢ ""
named ch l p = ground (arith, subst (λ (x : String). 12 ≤ len x) p l)

-- An agent with a connection to the relay, on which writing does not fail, creates a channel with peers
-- that it is connected to, and then sends a message to the channel. Both calls succeed, and the relay,
-- which has no channel of that ID, is sent the event and then the message. Of the two, the relay writes
-- each to a connection exactly when the connection is the registered one of a peer that was invited, the
-- agent itself excepted; it writes nothing else. The text that CreateChannel makes of the event, which
-- escapes nothing in the names, is read by encoding/json as the event with the channel's ID and the
-- members; the message's text is no JSON; and the channel's ID has at least twelve bytes.
pub create_channel-reaches :
    (decode : String → Option ChannelEvent) (encode : List String → String) (a : Agent) (c : Client)
    (json_arr : List String → String) (s : Server) (h : ℕ) (name : String) (ids : List String)
    (ch_id body m1 m2 : String) (now now' : ℕ)
    → a.relay ≡ some c
    → c.has_conn ≡ true
    → c.write_error ≡ none
    → check_peers ids a ≡ ok tt
    → decode (channel_created json_arr ch_id name mode_relay a.id (a.id ∷ ids))
      ≡ some (event_of ch_id (a.id ∷ ids))
    → decode body ≡ none
    → 12 ≤ len ch_id
    → GoMap.get ch_id s.channel_index ≡ none
    → let event = channel_created json_arr ch_id name mode_relay a.id (a.id ∷ ids) in
      let e = text_message m1 a.id ch_id event now in
      let t = text_message m2 a.id ch_id body now' in
      (a1 : Agent) × (a2 : Agent) × (create_channel json_arr name ids ch_id m1 now a
        ≡ some (a1, ok (ch_id, a.id ∷ ids)))
      × (send_message ch_id body m2 now' a1 ≡ some (a2, ok tt))
      × (a2.relay ≡ some (record c { sent = t ∷ e ∷ c.sent }))
      × ((k : ℕ) (m : Message)
          → In (k, m) (serve decode encode h a.id (e ∷ t ∷ []) s).1 ↔ (
              ((m ≡ e) ⊎ (m ≡ t))
              × ((id : String) × (contains id ids ≡ true)
                  × (id ≢ a.id)
                  × (GoMap.get id s.agents ≡ some k))))
create_channel-reaches decode encode a c json_arr s h name ids ch_id body m1 m2 now now' r conn
      works p d d' l new =
    let event = channel_created json_arr ch_id name mode_relay a.id (a.id ∷ ids) in
    let e = text_message m1 a.id ch_id event now in
    let t = text_message m2 a.id ch_id body now' in
    let a1 = created_by a c name ids ch_id event m1 now in
    let c1 : Client = record c { sent = e ∷ c.sent } in
    (
      a1,
      record a1 { relay = some (record c { sent = t ∷ e ∷ c.sent }) },
      create_channel-sent json_arr a c name ids ch_id m1 now r conn p,
      send_message-relayed a1 c1 (channel_of ch_id name a.id (a.id ∷ ids) now) ch_id body m2 now'
            refl conn (get-created a ch_id name ids now) refl
          ∙ ap
              (λ (o : Option String).
                some (record a1 { relay = some (record c { sent = t ∷ e ∷ c.sent }) }, written o))
              works,
      refl,
      (λ k m.
          serve-Invited decode encode s h a.id ids e t m k refl refl refl d d' (named ch_id l)
            (channel_created-nonempty json_arr ch_id name mode_relay a.id (a.id ∷ ids)) l new),
    )
