-- ===== src/RelayServer/Order.antt =====
-- cmd/lan-relay/main.go: what a connection gets of the messages that the relay passes on.
use lan_a2a.Prelude.{
  ℕ, String, ◌≡◌, refl, sym, ap, ◌∙◌, ◌≢◌, ◌↔◌, ◌⊎◌, inl, inr, true, false, Option, some, List, [],
  ◌∷◌, ◌++◌, arith, if◌then◌else◌, Bool-cases, Option-cases, ◌==◌, nat_eq, string_eq, list_eq, All,
  In, contains, Distinct,
}
use lan_a2a.Prelude.GoMap
use lan_a2a.Prelude.GoMap.{GoMap}
use lan_a2a.Protocol.{Message, message, file_meta, file_data, file_done}
use lan_a2a.RelayServer.{
  AgentConn, ChannelEvent, Outcome, Sent, Server, handle_message, proceeds, relay_to_channel,
  targets, to_each,
}
use lan_a2a.RelayServer.Liveness.{IsLive}
use lan_a2a.RelayServer.Index.{in_channel}
use lan_a2a.RelayServer.Delivery.{In-targets, relay_to_channel_exact}
use lan_a2a.RelayServer.Cleanup.{Reach, Reach-IsLive}
use lan_a2a.RelayServer.Sets.{AreSets, Reach-AreSets}
use lan_a2a.RelayServer.Handler.{serve, serve-step}

-- What is written to a connection, in its order.
unfoldable pub received : ℕ → Sent → List Message
received k [] = []
received k ((h, msg) ∷ sent) = if h == k then msg ∷ received k sent else received k sent

received-append : (k : ℕ) (xs ys : Sent) → received k (xs ++ ys) ≡ received k xs ++ received k ys
unfolding received
received-append k [] ys = refl
received-append k ((h, msg) ∷ xs) ys = ground (arith, received-append k xs ys)

received-to_each :
    (k : ℕ) (msg : Message) (hs : List ℕ)
    → Distinct hs
    → received k (to_each msg hs) ≡ (if contains k hs then msg ∷ [] else [])
unfolding received
received-to_each k msg [] d = ground arith
received-to_each k msg (h ∷ hs) d =
    ground (arith, d, received-to_each k msg hs, nat_eq.beq_iff h k, nat_eq.beq_iff k h)

In-contains : (k : ℕ) (hs : List ℕ) → In k hs ↔ (contains k hs ≡ true)
In-contains k [] = ((λ i. absurd i), (λ e. absurd (ground (arith, e))))
In-contains k (h ∷ hs) = ground (arith, In-contains k hs, nat_eq.beq_iff k h)

-- An agent is registered on one connection, and a connection for one agent.
targets-once :
    (s : Server) (x : String) (ids : List String) (from : String) (h : ℕ)
    → IsLive s
    → contains x ids ≡ false
    → GoMap.get x s.agents ≡ some h
    → contains h (targets s ids from) ≡ false
targets-once s x ids from h v n e = elim (Bool-cases (contains h (targets s ids from))) [
  | inl c ↦
      let (id, there, other, reg) =
        In-targets s ids from h ((In-contains h (targets s ids from)).1 c) in
      let (ac, found, named, still) = v.alive x h e in
      let (ac', found', named', still') = v.alive id h reg in
      absurd (
        ground (
          arith,
          n,
          there,
          ap (λ (y : String). contains y ids) {x = id} {y = x},
          named,
          named',
          found,
          found',
          ap AgentConn.id {x = ac} {y = ac'},
        ))
  | inr c ↦ c
]

Distinct-targets :
    (s : Server) (ids : List String) (from : String)
    → IsLive s
    → Distinct ids
    → Distinct (targets s ids from)
unfolding targets
Distinct-targets s [] from v d = tt
Distinct-targets s (x ∷ ids) from v d = elim (Bool-cases (x == from)) [
  | inl e ↦ rw (targets, e) (Distinct-targets s ids from v d.1)
  | inr n ↦ elim (Option-cases (GoMap.get x s.agents)) [
    | inl e ↦ rw (targets, n, e) (Distinct-targets s ids from v d.1)
    | inr (h, e) ↦
        rw (targets, n, e) (targets-once s x ids from h v d.0 e, Distinct-targets s ids from v d.1)
  ]
]

Distinct-relay_to_channel :
    (s : Server) (msg : Message) (from : String)
    → IsLive s
    → AreSets s.channel_index
    → Distinct (relay_to_channel s msg from)
unfolding relay_to_channel
Distinct-relay_to_channel s msg from v d = elim (Bool-cases (msg.channel_id == "")) [
  | inl e ↦ rw (relay_to_channel, e) tt
  | inr n ↦ elim (Option-cases (GoMap.get msg.channel_id s.channel_index)) [
    | inl e ↦ rw (relay_to_channel, n, e) tt
    | inr (members, e) ↦
        rw (relay_to_channel, n, e)
          (Distinct-targets s (GoMap.keys members) from v (d msg.channel_id members e))
  ]
]

-- A message that the relay only passes on, to a channel.
abbrev pub IsPassed : String → Message → Type 0
IsPassed ch msg =
    (msg.channel_id ≡ ch)
    × ((msg.type ≡ file_meta) ⊎ (msg.type ≡ file_data) ⊎ (msg.type ≡ file_done))

relay_to_channel-same :
    (s : Server) (msg msg' : Message) (from : String)
    → msg.channel_id ≡ msg'.channel_id
    → relay_to_channel s msg from ≡ relay_to_channel s msg' from
unfolding relay_to_channel
relay_to_channel-same s msg msg' from e = rw (relay_to_channel, e) refl

abbrev passed_all : List Message → List ℕ → Sent
passed_all [] hs = []
passed_all (msg ∷ msgs) hs = to_each msg hs ++ passed_all msgs hs

received-passed_all :
    (k : ℕ) (msgs : List Message) (hs : List ℕ)
    → Distinct hs
    → received k (passed_all msgs hs) ≡ (if contains k hs then msgs else [])
unfolding received
received-passed_all k [] hs d = ground arith
received-passed_all k (msg ∷ msgs) hs d =
    received-append k (to_each msg hs) (passed_all msgs hs)
    ∙ ground (arith, received-to_each k msg hs d, received-passed_all k msgs hs d)

module _ (decode : String → Option ChannelEvent) (encode : List String → String) where
  handle_message-IsPassed :
      (s : Server) (h : ℕ) (self ch : String) (msg : Message)
      → IsPassed ch msg
      → handle_message decode encode s h self msg
        ≡ (s, to_each msg (relay_to_channel s msg self), proceeds)
  unfolding handle_message
  handle_message-IsPassed s h self ch msg (c, inl t) = ground (arith, t)
  handle_message-IsPassed s h self ch msg (c, inr (inl t)) = ground (arith, t)
  handle_message-IsPassed s h self ch msg (c, inr (inr t)) = ground (arith, t)

  -- The relay passes on a run of such messages, and stays as it is.
  serve-passed :
      (s : Server) (h : ℕ) (self ch : String) (first : Message) (msgs : List Message)
      → first.channel_id ≡ ch
      → All (IsPassed ch) msgs
      → serve decode encode h self msgs s
        ≡ (s, passed_all msgs (relay_to_channel s first self), proceeds)
  unfolding serve
  serve-passed s h self ch first [] c p = refl
  serve-passed s h self ch first (msg ∷ msgs) c p =
      let hs = relay_to_channel s first self in
      serve-step decode encode s s h self msg msgs (to_each msg hs) (
        handle_message-IsPassed s h self ch msg p.0
        ∙ ap (λ (l : List ℕ). (s, to_each msg l, proceeds))
            (relay_to_channel-same s msg first self (p.0.0 ∙ sym c)))
      ∙ ap (λ (r : Server × Sent × Outcome). (r.0, to_each msg hs ++ r.1, r.2))
          (serve-passed s h self ch first msgs c p.1)

  -- In every server that connections can bring about: messages that announce a file of a channel,
  -- bring its pieces and end it, which an agent sends over one connection. Every other agent that is in
  -- the channel and registered gets each of them exactly once, in the order in which they were sent; a
  -- connection that is not such an agent's gets none; and the relay itself stays as it is.
  pub received-serve :
      (s : Server) (h : ℕ) (self ch : String) (msgs : List Message) (k : ℕ)
      → Reach decode encode s
      → ch ≢ ""
      → All (IsPassed ch) msgs
      → let (end, sent, r) = serve decode encode h self msgs s in
        (end ≡ s)
        × ((id : String)
            → in_channel s.channel_index ch id ≡ true
            → id ≢ self
            → GoMap.get id s.agents ≡ some k
            → received k sent ≡ msgs)
        × (((id : String)
              → in_channel s.channel_index ch id ≡ true
              → id ≢ self
              → GoMap.get id s.agents ≢ some k)
            → received k sent ≡ [])
  received-serve s h self ch msgs k reach n p =
      let any : Message = record (message file_meta "" self) { channel_id = ch } in
      let hs = relay_to_channel s any self in
      let got = received-passed_all k msgs hs (
        Distinct-relay_to_channel s any self (Reach-IsLive decode encode reach)
          (Reach-AreSets decode encode reach)) in
      let (only, all) = relay_to_channel_exact s any self k in
      rw (serve-passed s h self ch any msgs refl p) (
        refl,
        (λ id there other reg. got ∙ rw ((In-contains k hs).0 (all id n there other reg)) refl),
        (λ none_. elim (Bool-cases (contains k hs)) [
          | inl c ↦
              let (named, (id, there, other, reg)) = only ((In-contains k hs).1 c) in
              absurd (none_ id there other reg)
          | inr c ↦ got ∙ rw c refl
        ]),
      )
