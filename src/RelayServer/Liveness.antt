-- ===== src/RelayServer/Liveness.antt =====
-- cmd/lan-relay/main.go: which connections are registered, and when closing one panics.
use lan_a2a.Prelude.{
  ℕ, String, ◌≡◌, ◌⊎◌, inl, inr, true, false, ◌||◌, Option, some, List, [], ◌∷◌, arith, Bool-cases,
  Option-cases, ◌==◌, nat_eq, string_eq, list_eq,
}
use lan_a2a.Prelude.GoMap
use lan_a2a.Prelude.GoMap.{GoMap, get-put, get-del}
use lan_a2a.RelayServer.{
  handle_message, Message, ChannelEvent, create_channel, join, forget_channel, handle_join_leave,
  join_all, note_channel, AgentConn, IdSet, Server, close_done, new_server, proceeds,
}

-- The registered connection of an agent is there, is the agent's, and is not closed.
abbrev pub Registered : Server → String → ℕ → Type 0
Registered s id h =
    (ac : AgentConn) × (GoMap.get h s.conns ≡ some ac) × (ac.id ≡ id) × (ac.is_closed ≡ false)

-- And a connection that is not closed is the registered one of its agent.
pub record IsLive (s : Server) : Type 0 where
  pub alive : (id : String) (h : ℕ) → GoMap.get id s.agents ≡ some h → Registered s id h
  pub only :
      (h : ℕ) (ac : AgentConn)
      → GoMap.get h s.conns ≡ some ac
      → ac.is_closed ≡ false
      → GoMap.get ac.id s.agents ≡ some h

pub IsLive-new : IsLive new_server
unfolding new_server
IsLive-new = record {
  alive = λ id h e. cc (e, GoMap.get-nil {V = ℕ} id);
  only = λ h ac e c. cc (e, GoMap.get-nil {V = AgentConn} h);
}

-- A change of a connection's channels, or of the index, touches none of this.
pub IsLive-channels :
    (s : Server) (h : ℕ) (ac : AgentConn) (chs : IdSet)
    → GoMap.get h s.conns ≡ some ac
    → IsLive s
    → IsLive (record s { conns = GoMap.put h (record ac { channels = chs }) s.conns })
IsLive-channels s h ac chs e v = record {
  alive = λ id k r.
      let (ac', found, named, still) = v.alive id k r in
      elim (Bool-cases (h == k)) [
        | inl same ↦ (
          record ac { channels = chs },
          ground (arith, get-put h k (record ac { channels = chs }) s.conns),
          ground arith,
          ground arith,
        )
        | inr other ↦
            (ac', ground (arith, get-put h k (record ac { channels = chs }) s.conns), named, still)
      ];
  only = λ k ac' found still.
      ground (arith, get-put h k (record ac { channels = chs }) s.conns, v.only k ac', v.only h ac);
}

-- Once a connection is closed, its agent has to be another one's.
pub close_done-open :
    (s : Server) (h : ℕ) (ac : AgentConn)
    → GoMap.get h s.conns ≡ some ac
    → ac.is_closed ≡ false
    → close_done s h
      ≡ (record s { conns = GoMap.put h (record ac { is_closed = true }) s.conns }, proceeds)
unfolding close_done
close_done-open s h ac e c = ground (arith, e, c)

note_channel-IsLive : (s : Server) (ch id : String) → IsLive s → IsLive (note_channel s ch id)
unfolding note_channel
note_channel-IsLive s ch id v = elim (Option-cases (GoMap.get id s.agents)) [
  | inl e ↦ rw (e, note_channel) v
  | inr (h, e) ↦
      let (ac, found, named, still) = v.alive id h e in
      rw (e, note_channel, found) (IsLive-channels s h ac (GoMap.put ch true ac.channels) found v)
]

forget_channel-IsLive :
    (s : Server) (h : ℕ) (ch : String) → IsLive s → IsLive (forget_channel s h ch)
unfolding forget_channel
forget_channel-IsLive s h ch v = elim (Option-cases (GoMap.get h s.conns)) [
  | inl e ↦ rw (e, forget_channel) v
  | inr (ac, e) ↦ rw (e, forget_channel) (IsLive-channels s h ac (GoMap.del ch ac.channels) e v)
]

IsLive-index :
    (s : Server) (index : GoMap String IdSet)
    → IsLive s
    → IsLive (record s { channel_index = index })
IsLive-index s index v = record { alive = v.alive; only = v.only }

join_all-IsLive :
    (s : Server) (ch : String) (ids : List String) → IsLive s → IsLive (join_all s ch ids)
unfolding join_all join
join_all-IsLive s ch [] v = v
join_all-IsLive s ch (id ∷ ids) v =
    join_all-IsLive (join s ch id) ch ids (note_channel-IsLive _ ch id (IsLive-index s _ v))

handle_join_leave-IsLive :
    (decode : String → Option ChannelEvent) (s : Server) (h : ℕ) (agent_id : String) (msg : Message)
    → IsLive s
    → IsLive (handle_join_leave decode s h agent_id msg).0
unfolding handle_join_leave create_channel
handle_join_leave-IsLive decode s h agent_id msg v =
    elim (Bool-cases (msg.channel_id == "" || msg.content == "")) [
      | inl skip ↦ rw skip v
      | inr real ↦ rw real (elim (Option-cases (decode msg.content)) [
        | inl e ↦ rw e v
        | inr (ev, e) ↦ rw e (elim (Bool-cases (ev.event == "channel_created")) [
          | inl created ↦
              rw created (join_all-IsLive _ ev.channel_id ev.members (IsLive-index s _ v))
          | inr other ↦ rw other (elim (Bool-cases (ev.event == "peer_left")) [
            | inl left ↦ rw left (forget_channel-IsLive _ h ev.channel_id (IsLive-index s _ v))
            | inr none_ ↦ rw none_ v
          ])
        ])
      ])
    ]

pub handle_message-text :
    (decode : String → Option ChannelEvent) (encode : List String → String) (s : Server) (h : ℕ)
    (agent_id : String) (msg : Message)
    → ((handle_message decode encode s h agent_id msg).0 ≡ s)
      ⊎ ((handle_message decode encode s h agent_id msg).0
          ≡ (handle_join_leave decode s h agent_id msg).0)
unfolding handle_message
handle_message-text decode encode s h agent_id msg = ground arith

pub handle_message-IsLive :
    (decode : String → Option ChannelEvent) (encode : List String → String) (s : Server) (h : ℕ)
    (agent_id : String) (msg : Message)
    → IsLive s
    → IsLive (handle_message decode encode s h agent_id msg).0
handle_message-IsLive decode encode s h agent_id msg v =
    elim (handle_message-text decode encode s h agent_id msg) [
      | inl e ↦ rw e v
      | inr e ↦ rw e (handle_join_leave-IsLive decode s h agent_id msg v)
    ]
