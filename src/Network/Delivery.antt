-- ===== src/Network/Delivery.antt =====
-- cmd/lan-relay/main.go: whom the relay passes on the first messages of a channel to.
use lan_a2a.Prelude.{
  ℕ, ◌≤◌, String, ◌≡◌, refl, sym, ap, ◌∙◌, ◌≢◌, ◌↔◌, ◌⊎◌, inl, inr, Bool, true, Option, none, some,
  List, [], ◌∷◌, ◌++◌, arith, nat_eq, string_eq, list_eq, In, contains,
}
use Prim.Native.String.{len}
use lan_a2a.Prelude.GoMap
use lan_a2a.Prelude.GoMap.{GoMap, get-put}
use lan_a2a.Protocol.{Message, text}
use lan_a2a.RelayServer.{
  Server, ChannelEvent, Sent, Outcome, proceeds, panics, handle_message, handle_join_leave,
  relay_to_channel, to_each,
}
use lan_a2a.RelayServer
use lan_a2a.RelayServer.Index.{in_channel, in_channel-create_channel}
use lan_a2a.RelayServer.Delivery.{relay_to_channel_exact}
use lan_a2a.RelayServer.Sessions.{agents-create_channel}
use lan_a2a.Agent.Sending.{In-append}
use lan_a2a.RelayServer.Handler.{serve, serve-step}

-- The server's side, on which the event is read as this.
abbrev pub event_of : String → List String → ChannelEvent
event_of ch_id members = record { event = "channel_created"; channel_id = ch_id; members = members }

module _ (decode : String → Option ChannelEvent) (encode : List String → String) where
  join_leave-event :
      (s : Server) (h : ℕ) (self : String) (members : List String) (msg : Message)
      → decode msg.content ≡ some (event_of msg.channel_id members)
      → msg.channel_id ≢ ""
      → msg.content ≢ ""
      → 12 ≤ len msg.channel_id
      → handle_join_leave decode s h self msg
        ≡ (RelayServer.create_channel s msg.channel_id members, proceeds)
  unfolding handle_join_leave
  join_leave-event s h self members msg d n c l = ground (
    arith,
    d,
    n,
    c,
    l,
    string_eq.beq_iff msg.channel_id "",
    string_eq.beq_iff msg.content "",
    string_eq.beq_iff "channel_created" "channel_created",
  )

  join_leave-text :
      (s : Server) (h : ℕ) (self : String) (msg : Message)
      → decode msg.content ≡ none
      → handle_join_leave decode s h self msg ≡ (s, proceeds)
  unfolding handle_join_leave
  join_leave-text s h self msg d = ground (arith, d)

  handle_message-passes :
      (s s' : Server) (h : ℕ) (self : String) (msg : Message)
      → msg.type ≡ text
      → handle_join_leave decode s h self msg ≡ (s', proceeds)
      → handle_message decode encode s h self msg
        ≡ (s', to_each msg (relay_to_channel s' msg self), proceeds)
  unfolding handle_message
  handle_message-passes s s' h self msg t e = ground (arith, t, e)

  -- What the server makes of the two messages.
  serve-two :
      (s : Server) (h : ℕ) (self : String) (members : List String) (event said : Message)
      → event.type ≡ text
      → said.type ≡ text
      → decode event.content ≡ some (event_of event.channel_id members)
      → decode said.content ≡ none
      → event.channel_id ≢ ""
      → event.content ≢ ""
      → 12 ≤ len event.channel_id
      → let s' = RelayServer.create_channel s event.channel_id members in
        serve decode encode h self (event ∷ said ∷ []) s ≡ (
          s',
          to_each event (relay_to_channel s' event self)
              ++ (to_each said (relay_to_channel s' said self) ++ []),
          proceeds,
        )
  unfolding serve
  serve-two s h self members event said t t' d d' n c l =
      let s' = RelayServer.create_channel s event.channel_id members in
      serve-step decode encode s s' h self event (said ∷ [])
        (to_each event (relay_to_channel s' event self))
        (handle_message-passes s s' h self event t
          (join_leave-event s h self members event d n c l))
      ∙ ap
          (λ (r : Server × Sent × Outcome).
            (r.0, to_each event (relay_to_channel s' event self) ++ r.1, r.2))
          (serve-step decode encode s' s' h self said []
            (to_each said (relay_to_channel s' said self))
            (handle_message-passes s' s' h self said t' (join_leave-text s' h self said d')))

-- Whom a message to a new channel is written to.
abbrev pub Invited : Server → String → List String → ℕ → Type 0
Invited s self ids k =
    (id : String) × (contains id ids ≡ true) × (id ≢ self) × (GoMap.get id s.agents ≡ some k)

in_channel-invited :
    (s : Server) (ch self id : String) (ids : List String)
    → GoMap.get ch s.channel_index ≡ none
    → id ≢ self
    → in_channel (RelayServer.create_channel s ch (self ∷ ids)).channel_index ch id
      ≡ contains id ids
in_channel-invited s ch self id ids new other = ground (
  arith,
  in_channel-create_channel s ch (self ∷ ids) ch id,
  new,
  other,
  GoMap.get-nil {V = Bool} id,
  string_eq.beq_iff id self,
  string_eq.beq_iff ch ch,
)

relay_to_channel-Invited :
    (s : Server) (self : String) (ids : List String) (ch : String) (msg : Message) (k : ℕ)
    → msg.channel_id ≡ ch
    → GoMap.get ch s.channel_index ≡ none
    → ch ≢ ""
    → In k (relay_to_channel (RelayServer.create_channel s ch (self ∷ ids)) msg self)
      ↔ Invited s self ids k
relay_to_channel-Invited s self ids ch msg k e new n =
    let s' = RelayServer.create_channel s ch (self ∷ ids) in
    let same : s'.agents ≡ s.agents = agents-create_channel s ch (self ∷ ids) in
    let (only, all) = relay_to_channel_exact s' msg self k in
    let member : (id : String)
        → id ≢ self
        → in_channel s'.channel_index msg.channel_id id ≡ contains id ids =
      λ id other. rw e (in_channel-invited s ch self id ids new other) in
    (
      (λ i.
          let (named_, (id, there, other, reg)) = only i in
          (
            id,
            sym (member id other) ∙ there,
            other,
            ap (λ (m : GoMap String ℕ). GoMap.get id m) (sym same) ∙ reg,
          )),
      (λ (id, there, other, reg).
          all id (λ p. n (sym e ∙ p)) (member id other ∙ there) other
            (ap (λ (m : GoMap String ℕ). GoMap.get id m) same ∙ reg)),
    )

In-to_each :
    (msg m : Message) (k : ℕ) (hs : List ℕ) → In (k, m) (to_each msg hs) ↔ ((m ≡ msg) × In k hs)
In-to_each msg m k [] = ((λ i. absurd i), (λ (e, i). absurd i))
In-to_each msg m k (h ∷ hs) = (
  (λ i. elim i [
    | inl p ↦ (ap (λ (q : ℕ × Message). q.1) p, inl (ap (λ (q : ℕ × Message). q.0) p))
    | inr later ↦ let (e, j) = (In-to_each msg m k hs).0 later in (e, inr j)
  ]),
  (λ (e, i). elim i [
    | inl p ↦ inl (ap (λ (j : ℕ). (j, m)) p ∙ ap (λ (q : Message). (h, q)) e)
    | inr j ↦ inr ((In-to_each msg m k hs).1 (e, j))
  ]),
)

In-both :
    (event said m : Message) (k : ℕ) (hs hs' : List ℕ)
    → In (k, m) (to_each event hs ++ (to_each said hs' ++ []))
      ↔ (((m ≡ event) × In k hs) ⊎ ((m ≡ said) × In k hs'))
In-both event said m k hs hs' = (
  (λ i. elim ((In-append (k, m) (to_each event hs) (to_each said hs' ++ [])).0 i) [
    | inl j ↦ inl ((In-to_each event m k hs).0 j)
    | inr j ↦ elim ((In-append (k, m) (to_each said hs') []).0 j) [
      | inl l ↦ inr ((In-to_each said m k hs').0 l)
      | inr l ↦ absurd l
    ]
  ]),
  (λ s. (In-append (k, m) (to_each event hs) (to_each said hs' ++ [])).1 (elim s [
    | inl j ↦ inl ((In-to_each event m k hs).1 j)
    | inr j ↦ inr ((In-append (k, m) (to_each said hs') []).1 (inl ((In-to_each said m k hs').1 j)))
  ])),
)

-- The server writes both messages of a new channel to exactly the members that are registered.
pub serve-Invited :
    (decode : String → Option ChannelEvent) (encode : List String → String) (s : Server) (h : ℕ)
    (self : String) (ids : List String) (event said m : Message) (k : ℕ)
    → event.type ≡ text
    → said.type ≡ text
    → said.channel_id ≡ event.channel_id
    → decode event.content ≡ some (event_of event.channel_id (self ∷ ids))
    → decode said.content ≡ none
    → event.channel_id ≢ ""
    → event.content ≢ ""
    → 12 ≤ len event.channel_id
    → GoMap.get event.channel_id s.channel_index ≡ none
    → In (k, m) (serve decode encode h self (event ∷ said ∷ []) s).1
      ↔ (((m ≡ event) ⊎ (m ≡ said)) × Invited s self ids k)
serve-Invited decode encode s h self ids event said m k t t' same d d' n c l new =
    let s' = RelayServer.create_channel s event.channel_id (self ∷ ids) in
    let hs = relay_to_channel s' event self in
    let hs' = relay_to_channel s' said self in
    let r = relay_to_channel-Invited s self ids event.channel_id event k refl new n in
    let r' = relay_to_channel-Invited s self ids event.channel_id said k same new n in
    let both = In-both event said m k hs hs' in
    rw (serve-two decode encode s h self (self ∷ ids) event said t t' d d' n c l) (
      (λ i. elim (both.0 i) [ inl (e, j) ↦ (inl e, r.0 j) | inr (e, j) ↦ (inr e, r'.0 j) ]),
      (λ (e, j). both.1 (elim e [ inl p ↦ inl (p, r.1 j) | inr p ↦ inr (p, r'.1 j) ])),
    )
