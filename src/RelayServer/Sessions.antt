-- ===== src/RelayServer/Sessions.antt =====
-- cmd/lan-relay/main.go: whose connection is registered, after any sequence of registrations, messages
-- and disconnections.
use lan_a2a.Prelude.{
  ℕ, String, ◌≡◌, refl, ap, ◌∙◌, inl, inr, true, false, ◌||◌, Option, none, some, List, [], ◌∷◌,
  arith, if◌then◌else◌, Bool-cases, Option-cases, ◌==◌, nat_eq, string_eq, list_eq,
}
use lan_a2a.Prelude.GoMap
use lan_a2a.Prelude.GoMap.{GoMap, get-put, get-del, get-nil}
use lan_a2a.Protocol.{Message}
use lan_a2a.RelayServer.{
  AgentConn, ChannelEvent, Server, new_server, register_agent, handle_message, disconnect,
  note_channel, forget_channel, join_all, join, create_channel, handle_join_leave,
}
use lan_a2a.RelayServer.Liveness.{IsLive, IsLive-new, handle_message-text, handle_message-IsLive}
use lan_a2a.RelayServer.Registration.{
  register_agent-Registers, register_agent-new, register_agent-over,
}
use lan_a2a.RelayServer.Cleanup.{
  disconnect-open, disconnect-closed, disconnect-unknown, disconnect-IsLive,
}

-- What happens at the server: a connection registers, sends a message, or ends.
pub data Event : Type 0 where
  registers : ℕ → String → Event
  sends : ℕ → Message → Event
  ends : ℕ → Event

-- Who is registered under an ID, as a function, and what each event makes of it: a registration
-- replaces whoever was there, the end of a connection removes it where it is still registered, and a
-- message changes nothing.
abbrev pub Registry : Type 0
Registry = String → Option ℕ

abbrev pub without : ℕ → Option ℕ → Option ℕ
without h none = none
without h (some k) = if k == h then none else some k

abbrev pub change : Event → Registry → Registry
change (registers h id) reg = λ x. if id == x then some h else reg x
change (sends h msg) reg = reg
change (ends h) reg = λ x. without h (reg x)

unfoldable pub changes : List Event → Registry → Registry
changes [] reg = reg
changes (e ∷ es) reg = changes es (change e reg)

agents-note_channel : (s : Server) (ch id : String) → (note_channel s ch id).agents ≡ s.agents
unfolding note_channel
agents-note_channel s ch id = ground arith

agents-join_all :
    (s : Server) (ch : String) (ids : List String) → (join_all s ch ids).agents ≡ s.agents
unfolding join_all join
agents-join_all s ch [] = refl
agents-join_all s ch (id ∷ ids) =
    agents-join_all (join s ch id) ch ids ∙ agents-note_channel _ ch id

pub agents-create_channel :
    (s : Server) (ch : String) (ids : List String) → (create_channel s ch ids).agents ≡ s.agents
unfolding create_channel
agents-create_channel s ch ids = agents-join_all _ ch ids

agents-forget_channel :
    (s : Server) (h : ℕ) (ch : String) → (forget_channel s h ch).agents ≡ s.agents
unfolding forget_channel
agents-forget_channel s h ch = ground arith

agents-handle_join_leave :
    (decode : String → Option ChannelEvent) (s : Server) (h : ℕ) (agent_id : String) (msg : Message)
    → (handle_join_leave decode s h agent_id msg).0.agents ≡ s.agents
unfolding handle_join_leave create_channel
agents-handle_join_leave decode s h agent_id msg =
    elim (Bool-cases (msg.channel_id == "" || msg.content == "")) [
      | inl skip ↦ rw skip refl
      | inr real ↦ rw real (elim (Option-cases (decode msg.content)) [
        | inl e ↦ rw e refl
        | inr (ev, e) ↦ rw e (elim (Bool-cases (ev.event == "channel_created")) [
          | inl created ↦ rw created (agents-join_all _ ev.channel_id ev.members)
          | inr other ↦ rw other (elim (Bool-cases (ev.event == "peer_left")) [
            | inl left ↦ rw left (agents-forget_channel _ h ev.channel_id)
            | inr none_ ↦ rw none_ refl
          ])
        ])
      ])
    ]

pub agents-handle_message :
    (decode : String → Option ChannelEvent) (encode : List String → String) (s : Server) (h : ℕ)
    (agent_id : String) (msg : Message)
    → (handle_message decode encode s h agent_id msg).0.agents ≡ s.agents
agents-handle_message decode encode s h agent_id msg =
    elim (handle_message-text decode encode s h agent_id msg) [
      | inl e ↦ rw e refl
      | inr e ↦ rw e (agents-handle_join_leave decode s h agent_id msg)
    ]

pub get-register_agent :
    (s : Server) (h : ℕ) (id x : String)
    → IsLive s
    → GoMap.get x (register_agent s h id).0.agents
      ≡ (if id == x then some h else GoMap.get x s.agents)
get-register_agent s h id x v = elim (Option-cases (GoMap.get id s.agents)) [
  | inl e ↦ rw (register_agent-new s h id e) (get-put id x h s.agents)
  | inr (old, e) ↦
      let (ac, found, named, still) = v.alive id old e in
      rw (register_agent-over s h old id ac e found still) (get-put id x h s.agents)
]

-- A handle under which no open connection stands is registered nowhere.
pub without-other :
    (s : Server) (h : ℕ) (x : String)
    → IsLive s
    → ((ac : AgentConn) → GoMap.get h s.conns ≡ some ac → ac.is_closed ≡ true)
    → GoMap.get x s.agents ≡ without h (GoMap.get x s.agents)
without-other s h x v gone = elim (Option-cases (GoMap.get x s.agents)) [
  | inl e ↦ rw e refl
  | inr (k, e) ↦ elim (Bool-cases (k == h)) [
    | inl same ↦
        let (ac, found, named, still) = v.alive x k e in
        absurd (
          ground (
            arith,
            still,
            gone ac,
            found,
            same,
            nat_eq.beq_iff k h,
            ap (λ (j : ℕ). GoMap.get j s.conns) {x = k} {y = h},
          ))
    | inr other ↦ rw (e, other) refl
  ]
]

-- An open connection is registered under its own ID only.
without-own :
    (s : Server) (h : ℕ) (x : String) (ac : AgentConn)
    → IsLive s
    → GoMap.get h s.conns ≡ some ac
    → ac.is_closed ≡ false
    → (if ac.id == x then none else GoMap.get x s.agents) ≡ without h (GoMap.get x s.agents)
without-own s h x ac v e c = elim (Option-cases (GoMap.get x s.agents)) [
  | inl f ↦ rw f (ground arith)
  | inr (k, f) ↦
      let (ac', found, named, still) = v.alive x k f in
      ground (
        arith,
        f,
        found,
        named,
        e,
        v.only h ac e c,
        string_eq.beq_iff ac.id x,
        nat_eq.beq_iff k h,
        ap (λ (j : ℕ). GoMap.get j s.conns) {x = k} {y = h},
        ap (λ (y : String). GoMap.get y s.agents) {x = ac.id} {y = x},
        ap AgentConn.id {x = ac} {y = ac'},
      )
]

pub get-disconnect :
    (s : Server) (h : ℕ) (x : String)
    → IsLive s
    → GoMap.get x (disconnect s h).0.agents ≡ without h (GoMap.get x s.agents)
get-disconnect s h x v = elim (Option-cases (GoMap.get h s.conns)) [
  | inl e ↦
      rw (disconnect-unknown s h e) (without-other s h x v (λ ac f. absurd (ground (arith, e, f))))
  | inr (ac, e) ↦ elim (Bool-cases ac.is_closed) [
    | inl c ↦
        rw (disconnect-closed s h ac e c) (without-other s h x v (λ ac' f. ground (arith, e, f, c)))
    | inr c ↦
        rw (disconnect-open s h ac v e c) (get-del ac.id x s.agents ∙ without-own s h x ac v e c)
  ]
]

module _ (decode : String → Option ChannelEvent) (encode : List String → String) where
  -- The handlers, as `handleWS` calls them; a panic ends the handler, not the server. Only a
  -- connection that has registered is read from.
  unfoldable pub step : Event → Server → Server
  step (registers h id) s = (register_agent s h id).0
  step (sends h msg) s = elim (GoMap.get h s.conns) [
    | none ↦ s
    | some ac ↦ (handle_message decode encode s h ac.id msg).0
  ]
  step (ends h) s = (disconnect s h).0

  unfoldable pub run : List Event → Server → Server
  unfolding step
  run [] s = s
  run (e ∷ es) s = run es (step e s)

  -- Each registration is on a connection that was not there.
  abbrev pub IsFresh : Event → Server → Type 0
  IsFresh (registers h id) s = GoMap.get h s.conns ≡ none
  IsFresh (sends h msg) s = Unit {0}
  IsFresh (ends h) s = Unit {0}

  unfoldable pub AreFresh : List Event → Server → Type 0
  AreFresh [] s = Unit {0}
  AreFresh (e ∷ es) s = IsFresh e s × AreFresh es (step e s)

  step-IsLive : (e : Event) (s : Server) → IsFresh e s → IsLive s → IsLive (step e s)
  unfolding step
  step-IsLive (registers h id) s f v = (register_agent-Registers s h id f v).1
  step-IsLive (sends h msg) s f v = elim (Option-cases (GoMap.get h s.conns)) [
    | inl e ↦ rw (step, e) v
    | inr (ac, e) ↦ rw (step, e) (handle_message-IsLive decode encode s h ac.id msg v)
  ]
  step-IsLive (ends h) s f v = disconnect-IsLive s h v

  get-step :
      (e : Event) (s : Server) (x : String)
      → IsLive s
      → GoMap.get x (step e s).agents ≡ change e (λ y. GoMap.get y s.agents) x
  unfolding step
  get-step (registers h id) s x v = get-register_agent s h id x v
  get-step (sends h msg) s x v = elim (Option-cases (GoMap.get h s.conns)) [
    | inl e ↦ rw (step, e) refl
    | inr (ac, e) ↦ rw (step, e, agents-handle_message decode encode s h ac.id msg) refl
  ]
  get-step (ends h) s x v = get-disconnect s h x v

  change-ext :
      (e : Event) (r r' : Registry) (x : String)
      → ((y : String) → r y ≡ r' y)
      → change e r x ≡ change e r' x
  change-ext (registers h id) r r' x same = rw (same x) refl
  change-ext (sends h msg) r r' x same = same x
  change-ext (ends h) r r' x same = rw (same x) refl

  run-changes :
      (es : List Event) (s : Server) (r : Registry)
      → AreFresh es s
      → IsLive s
      → ((y : String) → GoMap.get y s.agents ≡ r y)
      → IsLive (run es s) × ((x : String) → GoMap.get x (run es s).agents ≡ changes es r x)
  unfolding run changes AreFresh
  run-changes [] s r f v same = (v, same)
  run-changes (e ∷ es) s r f v same =
      run-changes es (step e s) (change e r) f.1 (step-IsLive e s f.0 v)
        (λ y. get-step e s y v ∙ change-ext e (λ z. GoMap.get z s.agents) r y same)

  -- From a new server on, whatever connections register, send and end, in whatever order, each
  -- registration on a connection of its own: the connection that the server has under an ID is the one
  -- that registered last under that ID, until that connection itself ends. The late end of a
  -- connection that was replaced removes nobody, and messages change nothing.
  pub run-registry :
      (es : List Event)
      → AreFresh es new_server
      → (x : String) → GoMap.get x (run es new_server).agents ≡ changes es (λ y. none) x
  unfolding new_server
  run-registry es f x =
      (run-changes es new_server (λ y. none) f IsLive-new (λ y. get-nil {V = ℕ} y)).1 x
