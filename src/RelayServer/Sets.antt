-- ===== src/RelayServer/Sets.antt =====
-- cmd/lan-relay/main.go: the channel index has each member of a channel once.
use lan_a2a.Prelude.{
  ℕ, String, ◌≡◌, refl, sym, subst, inl, inr, true, ◌||◌, Option, none, some, List, [], ◌∷◌, arith,
  Bool-cases, Option-cases, ◌==◌, nat_eq, string_eq, list_eq, Distinct,
}
use lan_a2a.Prelude.GoMap
use lan_a2a.Prelude.GoMap.{GoMap, get-put, get-del, Distinct-put, Distinct-del}
use lan_a2a.Protocol.{Message}
use lan_a2a.RelayServer.{
  ChannelEvent, IdSet, Server, create_channel, disconnect, forget_channel, handle_join_leave,
  handle_message, join, join_all, leave_all, leave_index, members_of, new_server, store_members,
}
use lan_a2a.RelayServer.Index.{index-note_channel}
use lan_a2a.RelayServer.Liveness.{IsLive, handle_message-text}
use lan_a2a.RelayServer.Registration.{register_agent-conn}
use lan_a2a.RelayServer.Cleanup.{
  Reach, Reach-IsLive, connected, disconnect-closed, disconnect-open, disconnect-unknown, ended,
  said, start,
}

-- The set of a channel's members has each of them once.
abbrev pub AreSets : GoMap String IdSet → Type 0
AreSets index =
    (ch : String) (members : IdSet)
    → GoMap.get ch index ≡ some members
    → Distinct (GoMap.keys members)

put-AreSets :
    (index : GoMap String IdSet) (ch : String) (members : IdSet)
    → Distinct (GoMap.keys members)
    → AreSets index
    → AreSets (GoMap.put ch members index)
put-AreSets index ch members d h c ms e = elim (Bool-cases (ch == c)) [
  | inl same ↦
      subst (λ (m : IdSet). Distinct (GoMap.keys m))
        (ground (arith, get-put ch c members index, same, e)) d
  | inr other ↦ h c ms (ground (arith, get-put ch c members index, other, e))
]

del-AreSets :
    (index : GoMap String IdSet) (ch : String) → AreSets index → AreSets (GoMap.del ch index)
del-AreSets index ch h c ms e = h c ms (ground (arith, get-del ch c index, e))

store_members-AreSets :
    (index : GoMap String IdSet) (ch : String) (members : IdSet)
    → Distinct (GoMap.keys members)
    → AreSets index
    → AreSets (store_members index ch members)
unfolding store_members
store_members-AreSets index ch [] d h = del-AreSets index ch h
store_members-AreSets index ch (m ∷ ms) d h = put-AreSets index ch (m ∷ ms) d h

leave_index-AreSets :
    (index : GoMap String IdSet) (ch id : String)
    → AreSets index
    → AreSets (leave_index index ch id)
unfolding leave_index
leave_index-AreSets index ch id h = elim (Option-cases (GoMap.get ch index)) [
  | inl e ↦ rw (leave_index, e) h
  | inr (members, e) ↦
      rw (leave_index, e)
        (store_members-AreSets index ch (GoMap.del id members)
          (Distinct-del id members (h ch members e)) h)
]

leave_all-AreSets :
    (index : GoMap String IdSet) (chs : List String) (id : String)
    → AreSets index
    → AreSets (leave_all index chs id)
unfolding leave_all
leave_all-AreSets index [] id h = h
leave_all-AreSets index (ch ∷ chs) id h =
    leave_all-AreSets (leave_index index ch id) chs id (leave_index-AreSets index ch id h)

Distinct-of :
    (found : Option IdSet)
    → ((members : IdSet) → found ≡ some members → Distinct (GoMap.keys members))
    → Distinct (GoMap.keys (elim found [ none ↦ [] | some members ↦ members ]))
Distinct-of none h = tt
Distinct-of (some members) h = h members refl

Distinct-members_of :
    (index : GoMap String IdSet) (ch : String)
    → AreSets index
    → Distinct (GoMap.keys (members_of index ch))
Distinct-members_of index ch h = Distinct-of (GoMap.get ch index) (h ch)

join_all-AreSets :
    (s : Server) (ch : String) (ids : List String)
    → AreSets s.channel_index
    → AreSets (join_all s ch ids).channel_index
unfolding join_all join
join_all-AreSets s ch [] h = h
join_all-AreSets s ch (id ∷ ids) h =
    let members = GoMap.put id true (members_of s.channel_index ch) in
    join_all-AreSets (join s ch id) ch ids (
      subst AreSets
        (sym (
          index-note_channel (record s { channel_index = GoMap.put ch members s.channel_index }) ch
            id))
        (put-AreSets s.channel_index ch members
          (Distinct-put id true (members_of s.channel_index ch)
            (Distinct-members_of s.channel_index ch h))
          h))

index-forget_channel :
    (s : Server) (h : ℕ) (ch : String) → (forget_channel s h ch).channel_index ≡ s.channel_index
unfolding forget_channel
index-forget_channel s h ch = ground arith

handle_join_leave-AreSets :
    (decode : String → Option ChannelEvent) (s : Server) (h : ℕ) (agent_id : String) (msg : Message)
    → AreSets s.channel_index
    → AreSets (handle_join_leave decode s h agent_id msg).0.channel_index
unfolding handle_join_leave create_channel
handle_join_leave-AreSets decode s h agent_id msg v =
    elim (Bool-cases (msg.channel_id == "" || msg.content == "")) [
      | inl skip ↦ rw skip v
      | inr real ↦ rw real (elim (Option-cases (decode msg.content)) [
        | inl e ↦ rw e v
        | inr (ev, e) ↦ rw e (elim (Bool-cases (ev.event == "channel_created")) [
          | inl created ↦ rw created (
              join_all-AreSets _ ev.channel_id ev.members (
                put-AreSets s.channel_index ev.channel_id (members_of s.channel_index ev.channel_id)
                  (Distinct-members_of s.channel_index ev.channel_id v) v))
          | inr other ↦ rw other (elim (Bool-cases (ev.event == "peer_left")) [
            | inl left ↦ rw left (
                subst AreSets (sym (index-forget_channel _ h ev.channel_id))
                  (leave_index-AreSets s.channel_index ev.channel_id agent_id v))
            | inr none_ ↦ rw none_ v
          ])
        ])
      ])
    ]

handle_message-AreSets :
    (decode : String → Option ChannelEvent) (encode : List String → String) (s : Server) (h : ℕ)
    (agent_id : String) (msg : Message)
    → AreSets s.channel_index
    → AreSets (handle_message decode encode s h agent_id msg).0.channel_index
handle_message-AreSets decode encode s h agent_id msg v =
    elim (handle_message-text decode encode s h agent_id msg) [
      | inl e ↦ rw e v
      | inr e ↦ rw e (handle_join_leave-AreSets decode s h agent_id msg v)
    ]

disconnect-AreSets :
    (s : Server) (h : ℕ)
    → IsLive s
    → AreSets s.channel_index
    → AreSets (disconnect s h).0.channel_index
disconnect-AreSets s h v d = elim (Option-cases (GoMap.get h s.conns)) [
  | inl e ↦ rw (disconnect-unknown s h e) d
  | inr (ac, e) ↦ elim (Bool-cases ac.is_closed) [
    | inl c ↦ rw (disconnect-closed s h ac e c) d
    | inr c ↦
        rw (disconnect-open s h ac v e c)
          (leave_all-AreSets s.channel_index (GoMap.keys ac.channels) ac.id d)
  ]
]

AreSets-new : AreSets new_server.channel_index
unfolding new_server GoMap.get
AreSets-new ch members e = absurd (ground (arith, e))

module _ (decode : String → Option ChannelEvent) (encode : List String → String) where
  -- In every server that connections can bring about.
  pub Reach-AreSets : {s : Server} → Reach decode encode s → AreSets s.channel_index
  Reach-AreSets start = AreSets-new
  Reach-AreSets (connected {s = s} h id r fresh) =
      rw (register_agent-conn s h id (Reach-IsLive decode encode r)).1 (Reach-AreSets r)
  Reach-AreSets (said {s = s} h ac msg r e) =
      handle_message-AreSets decode encode s h ac.id msg (Reach-AreSets r)
  Reach-AreSets (ended {s = s} h r) =
      disconnect-AreSets s h (Reach-IsLive decode encode r) (Reach-AreSets r)
