-- ===== src/RelayServer/Handler.antt =====
-- cmd/lan-relay/main.go: `handleWS` as a whole, one connection from the first message to the cleanup.
use lan_a2a.Prelude.{
  ℕ, String, ◌≡◌, refl, sym, ap, ◌∙◌, ◌⊎◌, inl, inr, Bool, true, not, Option, none, some, List, [],
  ◌∷◌, ◌++◌, arith, if◌then◌else◌, ◌==◌, nat_eq, string_eq, list_eq,
}
use lan_a2a.Prelude.GoMap
use lan_a2a.Prelude.GoMap.{GoMap}
use lan_a2a.Protocol.{Message, message, register, register_ok}
use lan_a2a.RelayServer.{
  Server, ChannelEvent, Sent, Outcome, proceeds, panics, register_agent, handshake, handle_message,
  disconnect,
}
use lan_a2a.RelayServer.Liveness.{IsLive, handle_message-IsLive}
use lan_a2a.RelayServer.Registration.{register_agent-Registers}
use lan_a2a.RelayServer.Cleanup.{disconnect-IsLive}
use lan_a2a.RelayServer.Sessions.{
  agents-handle_message, get-register_agent, get-disconnect, without, without-other,
}

-- The loop over the messages of a connection, until one cannot be read, with all that it makes the
-- server send. A handler that panics ends it.
unfoldable pub serve :
    (String → Option ChannelEvent)
    → (List String → String)
    → ℕ
    → String
    → List Message
    → Server
    → Server × Sent × Outcome
serve decode encode h agent_id [] s = (s, [], proceeds)
serve decode encode h agent_id (msg ∷ msgs) s =
    let (s', out, r) = handle_message decode encode s h agent_id msg in
    let (end, more, last) = serve decode encode h agent_id msgs s' in
    elim r [ panics ↦ (s', out, panics) | proceeds ↦ (end, out ++ more, last) ]

-- What the handler meets before it registers the agent: the first message, and whether the answer can
-- be sent. A panic in the loop runs the deferred cleanup, too; one in the registration comes before it.
unfoldable pub handle_ws :
    (String → Option ChannelEvent)
    → (List String → String)
    → ℕ
    → Option Message
    → Bool
    → List Message
    → Server
    → Server × Sent
unfolding serve
handle_ws decode encode h none answers msgs s = (s, [])
handle_ws decode encode h (some first) answers msgs s =
    if not answers then (s, []) else elim (handshake s h (some first)) [
      | none ↦ (s, [])
      | some (s1, panics) ↦ (s1, (h, message register_ok "" "relay") ∷ [])
      | some (s1, proceeds) ↦
          let (s2, out, r) = serve decode encode h first.from msgs s1 in
          ((disconnect s2 h).0, (h, message register_ok "" "relay") ∷ out)
    ]

module _ (decode : String → Option ChannelEvent) (encode : List String → String) where
  Outcome-cases : (o : Outcome) → (o ≡ panics) ⊎ (o ≡ proceeds)
  Outcome-cases panics = inl refl
  Outcome-cases proceeds = inr refl

  pub serve-step :
      (s s' : Server) (h : ℕ) (self : String) (msg : Message) (msgs : List Message) (out : Sent)
      → handle_message decode encode s h self msg ≡ (s', out, proceeds)
      → serve decode encode h self (msg ∷ msgs) s
        ≡ (let (end, more, last) = serve decode encode h self msgs s' in (end, out ++ more, last))
  unfolding serve
  serve-step s s' h self msg msgs out e =
      ap
        (λ (r : Server × Sent × Outcome).
          let (s1, out', o) = r in
          let (end, more, last) = serve decode encode h self msgs s1 in
          elim o [ panics ↦ (s1, out', panics) | proceeds ↦ (end, out' ++ more, last) ])
        e

  -- The loop keeps the server live, and the registrations as they are.
  serve-IsLive :
      (h : ℕ) (id : String) (msgs : List Message) (s : Server)
      → IsLive s
      → let end = (serve decode encode h id msgs s).0 in IsLive end × (end.agents ≡ s.agents)
  unfolding serve
  serve-IsLive h id [] s v = (v, refl)
  serve-IsLive h id (msg ∷ msgs) s v =
      let live = handle_message-IsLive decode encode s h id msg v in
      let same = agents-handle_message decode encode s h id msg in
      elim (Outcome-cases (handle_message decode encode s h id msg).2) [
        | inl e ↦ rw (serve, e) (live, same)
        | inr e ↦
            let (live', same') =
              serve-IsLive h id msgs (handle_message decode encode s h id msg).0 live in
            rw (serve, e) (live', same' ∙ same)
      ]

  -- A handle that is not there is registered nowhere.
  without-fresh :
      (s : Server) (h : ℕ) (x : String)
      → IsLive s
      → GoMap.get h s.conns ≡ none
      → without h (GoMap.get x s.agents) ≡ GoMap.get x s.agents
  without-fresh s h x v fresh =
      sym (without-other s h x v (λ ac f. absurd (ground (arith, f, fresh))))

  without-registered :
      (h : ℕ) (id x : String) (r : Option ℕ)
      → without h r ≡ r
      → without h (if id == x then some h else r) ≡ (if id == x then none else r)
  without-registered h id x r e = ground (arith, e, nat_eq.beq_iff h h)

  -- The connection of an agent, from its registration on a live server, over any messages, to its
  -- cleanup, with nothing else happening in between: afterwards the agent is not registered, whether it
  -- was before or not, every other agent is registered as it was, and the server is live again. This
  -- holds also where a handler panics.
  pub handle_ws-unregisters :
      (h : ℕ) (first : Message) (msgs : List Message) (s : Server)
      → first.type ≡ register
      → GoMap.get h s.conns ≡ none
      → IsLive s
      → let end = (handle_ws decode encode h (some first) true msgs s).0 in
        IsLive end
        × ((x : String)
            → GoMap.get x end.agents ≡ (if first.from == x then none else GoMap.get x s.agents))
  unfolding handle_ws handshake
  handle_ws-unregisters h first msgs s t fresh v =
      let (proceeded, live, there) = register_agent-Registers s h first.from fresh v in
      let (live', same) = serve-IsLive h first.from msgs (register_agent s h first.from).0 live in
      let s2 = (serve decode encode h first.from msgs (register_agent s h first.from).0).0 in
      rw (handle_ws, t, proceeded)
        (
          disconnect-IsLive s2 h live',
          (λ x.
              get-disconnect s2 h x live'
              ∙ ap (λ (m : GoMap String ℕ). without h (GoMap.get x m)) same
              ∙ ap (without h) (get-register_agent s h first.from x v)
              ∙ without-registered h first.from x (GoMap.get x s.agents)
                  (without-fresh s h x v fresh)),
        )
