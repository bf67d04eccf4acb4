-- ===== src/RelayServer/Cleanup.antt =====
-- cmd/lan-relay/main.go: the cleanup of a connection, what it leaves, and when it panics.
use lan_a2a.Prelude.{
  beq_self, ap, ◌∙◌, ℕ, String, ◌≡◌, refl, ◌≢◌, ◌⊎◌, inl, inr, true, false, ◌&&◌, Option, none,
  some, List, arith, if◌then◌else◌, Bool-cases, Option-cases, ◌==◌, nat_eq, string_eq, list_eq,
  contains,
}
use lan_a2a.Prelude.GoMap
use lan_a2a.Prelude.GoMap.{GoMap, get-put, get-del}
use lan_a2a.RelayServer.{
  IdSet, panics, disconnect, leave_all, leave_all, register_agent, handle_message, Message,
  ChannelEvent, AgentConn, Server, close_done, new_server, proceeds,
}
use lan_a2a.RelayServer.Liveness.{IsLive, IsLive-new, close_done-open, handle_message-IsLive}
use lan_a2a.RelayServer.Registration.{
  new_conn, register_agent-conn, closed, register_agent-Registers, only-closed, alive-closed,
}
use lan_a2a.RelayServer.Index.{in_channel, in_channel-leave_all}

-- The server after the cleanup of an open connection.
abbrev pub cleaned : Server → ℕ → AgentConn → Server
cleaned s h ac = record (closed s h ac) {
  agents = GoMap.del ac.id s.agents;
  channel_index = leave_all s.channel_index (GoMap.keys ac.channels) ac.id;
}

pub disconnect-open :
    (s : Server) (h : ℕ) (ac : AgentConn)
    → IsLive s
    → GoMap.get h s.conns ≡ some ac
    → ac.is_closed ≡ false
    → disconnect s h ≡ (cleaned s h ac, proceeds)
unfolding disconnect
disconnect-open s h ac v e c =
    ground (arith, close_done-open s h ac e c, v.only h ac e c, nat_eq.beq_iff h h)

pub disconnect-closed :
    (s : Server) (h : ℕ) (ac : AgentConn)
    → GoMap.get h s.conns ≡ some ac
    → ac.is_closed ≡ true
    → disconnect s h ≡ (s, panics)
unfolding disconnect close_done
disconnect-closed s h ac e c = ground (arith, e, c)

cleaned-IsLive :
    (s : Server) (h : ℕ) (ac : AgentConn)
    → IsLive s
    → GoMap.get h s.conns ≡ some ac
    → ac.is_closed ≡ false
    → IsLive (cleaned s h ac)
cleaned-IsLive s h ac v e c = record {
  alive = λ k j f.
      alive-closed s ac.id k h j ac v e refl (ground (arith, get-del ac.id k s.agents, f))
        (λ p. ground (arith, get-del ac.id k s.agents, f, string_eq.beq_iff ac.id k, p));
  only = λ j ac' f still.
      let (other, there) = only-closed s ac.id h j ac ac' v (v.only h ac e c) f still in
      ground (arith, get-del ac.id ac'.id s.agents, other, there, string_eq.beq_iff ac.id ac'.id);
}

pub disconnect-unknown :
    (s : Server) (h : ℕ) → GoMap.get h s.conns ≡ none → disconnect s h ≡ (s, panics)
unfolding disconnect
disconnect-unknown s h e = ground (arith, e)

pub disconnect-IsLive : (s : Server) (h : ℕ) → IsLive s → IsLive (disconnect s h).0
disconnect-IsLive s h v = elim (Option-cases (GoMap.get h s.conns)) [
  | inl e ↦ rw (disconnect-unknown s h e) v
  | inr (ac, e) ↦ elim (Bool-cases ac.is_closed) [
    | inl c ↦ rw (disconnect-closed s h ac e c) v
    | inr c ↦ rw (disconnect-open s h ac v e c) (cleaned-IsLive s h ac v e c)
  ]
]

cleanup :
    (s : Server) (h : ℕ) (ac : AgentConn)
    → IsLive s
    → GoMap.get h s.conns ≡ some ac
    → ((GoMap.get ac.id s.agents ≡ some h) × ((disconnect s h).1 ≡ proceeds))
      ⊎ ((GoMap.get ac.id s.agents ≢ some h) × (disconnect s h ≡ (s, panics)))
cleanup s h ac v e = elim (Bool-cases ac.is_closed) [
  | inl c ↦ inr (
    (λ p. let (ac', found, named, still) = v.alive ac.id h p in ground (arith, e, found, still, c)),
    disconnect-closed s h ac e c,
  )
  | inr c ↦ inl (v.only h ac e c, rw (disconnect-open s h ac v e c) refl)
]

-- The cleanup of an open connection takes its agent out of every channel that the connection has noted,
-- and changes no other membership.
cleaned-in_channel :
    (s : Server) (h : ℕ) (ac : AgentConn) (ch id : String)
    → IsLive s
    → GoMap.get h s.conns ≡ some ac
    → ac.is_closed ≡ false
    → in_channel (disconnect s h).0.channel_index ch id ≡ (
        if contains ch (GoMap.keys ac.channels) && (ac.id == id)
        then false
        else in_channel s.channel_index ch id)
cleaned-in_channel s h ac ch id v e c =
    rw (disconnect-open s h ac v e c)
      (in_channel-leave_all s.channel_index (GoMap.keys ac.channels) ac.id ch id)

module _ (decode : String → Option ChannelEvent) (encode : List String → String) where
  -- The servers that connections can bring about, each connection under a handle of its own.
  pub data Reach : Server → Type 0 where
    start : Reach new_server
    connected :
        {s : Server} (h : ℕ) (id : String)
        → Reach s
        → GoMap.get h s.conns ≡ none
        → Reach (register_agent s h id).0
    said :
        {s : Server} (h : ℕ) (ac : AgentConn) (msg : Message)
        → Reach s
        → GoMap.get h s.conns ≡ some ac
        → Reach (handle_message decode encode s h ac.id msg).0
    ended : {s : Server} (h : ℕ) → Reach s → Reach (disconnect s h).0

  pub Reach-IsLive : {s : Server} → Reach s → IsLive s
  Reach-IsLive start = IsLive-new
  Reach-IsLive (connected {s = s} h id r fresh) =
      (register_agent-Registers s h id fresh (Reach-IsLive r)).1
  Reach-IsLive (said {s = s} h ac msg r e) =
      handle_message-IsLive decode encode s h ac.id msg (Reach-IsLive r)
  Reach-IsLive (ended {s = s} h r) = disconnect-IsLive s h (Reach-IsLive r)

  -- In every server that connections can bring about, by registrations, messages and disconnections in
  -- any order, a further registration on a fresh connection does not panic, and makes that connection
  -- the agent's; and the cleanup of a connection does not panic exactly when the connection is still
  -- the registered one of its agent: after the agent has registered again, the cleanup of its old
  -- connection closes a closed channel, panics, and changes nothing.
  pub register_disconnect_panics :
      (s : Server)
      → Reach s
      → ((h : ℕ) (id : String)
          → GoMap.get h s.conns ≡ none
          → ((register_agent s h id).1 ≡ proceeds)
            × (GoMap.get id (register_agent s h id).0.agents ≡ some h))
        × ((h : ℕ) (ac : AgentConn)
            → GoMap.get h s.conns ≡ some ac
            → ((GoMap.get ac.id s.agents ≡ some h) × ((disconnect s h).1 ≡ proceeds))
              ⊎ ((GoMap.get ac.id s.agents ≢ some h) × (disconnect s h ≡ (s, panics))))
  register_disconnect_panics s r = (
    (λ h id fresh.
        let (a, b, c) = register_agent-Registers s h id fresh (Reach-IsLive r) in (a, c)),
    (λ h ac e. cleanup s h ac (Reach-IsLive r) e),
  )

  -- In every server that connections can bring about, the cleanup of an agent's registered connection
  -- takes the agent out of exactly the channels that the connection has noted; every other membership
  -- stays.
  pub in_channel-disconnect :
      (s : Server) (h : ℕ) (ac : AgentConn) (ch id : String)
      → Reach s
      → GoMap.get h s.conns ≡ some ac
      → ac.is_closed ≡ false
      → in_channel (disconnect s h).0.channel_index ch id ≡ (
          if contains ch (GoMap.keys ac.channels) && (ac.id == id)
          then false
          else in_channel s.channel_index ch id)
  in_channel-disconnect s h ac ch id r e c = cleaned-in_channel s h ac ch id (Reach-IsLive r) e c

  -- An agent that registers on a fresh connection and leaves again, with no channel event in between,
  -- is in the same channels of the index afterwards as before, although it is no longer registered.
  register_disconnect_index :
      (s : Server) (h : ℕ) (id ch i : String)
      → Reach s
      → GoMap.get h s.conns ≡ none
      → let end = (disconnect (register_agent s h id).0 h).0 in
        (in_channel end.channel_index ch i ≡ in_channel s.channel_index ch i)
        × (GoMap.get id end.agents ≡ none)
  register_disconnect_index s h id ch i r fresh =
      let (a, live, there) = register_agent-Registers s h id fresh (Reach-IsLive r) in
      let (conn, same) = register_agent-conn s h id (Reach-IsLive r) in
      (
        cleaned-in_channel (register_agent s h id).0 h (new_conn id) ch i live conn refl
            ∙ ap (λ (index : GoMap String IdSet). in_channel index ch i) same,
        rw (disconnect-open (register_agent s h id).0 h (new_conn id) live conn refl)
            (get-del id id (register_agent s h id).0.agents ∙ rw (beq_self id) refl),
      )
