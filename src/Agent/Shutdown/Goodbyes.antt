-- ===== src/Agent/Shutdown/Goodbyes.antt =====
-- cmd/lan-a2a/main.go: who is told when an agent stops.
use lan_a2a.Prelude.{
  ℕ, String, ◌≡◌, refl, sym, ap, subst, ◌∙◌, inl, inr, true, false, Option, none, some, List, [],
  ◌∷◌, ◌++◌, arith, Option-cases, Result-cases, nat_eq, string_eq, list_eq, ok, err, In,
}
use lan_a2a.Prelude.GoMap
use lan_a2a.Prelude.GoMap.{GoMap, keys}
use lan_a2a.Protocol.{Message, message, goodbye, register_ok}
use lan_a2a.Peers.{Handshake, Peers, open_conn, is_online}
use lan_a2a.Peers.Online.{is_online-open_conn}
use lan_a2a.RelayClient.{Client, send_goodbye, stop, send}
use lan_a2a.Agent.{Agent, Conn, direct, relayed}
use lan_a2a.Agent.Sending.{In-append}
use lan_a2a.Agent.Shutdown.{say_to_connected, say_to_discovered, say_to_relay, shut_down}

-- A peer that is known, can be dialled, takes the registration and accepts it.
abbrev pub Reachable : (String → Handshake) → Peers → String → Type 0
Reachable at p id =
    (is_online id p ≡ true)
    × ((at id).dials ≡ true)
    × ((at id).sends ≡ true)
    × ((m : Message) × ((at id).answer ≡ some m) × (m.type ≡ register_ok))

-- The connection to the relay, when there is a relay, is up, and the client was not stopped.
abbrev pub RelayIsUp : Agent → Type 0
RelayIsUp a = (c : Client) → a.relay ≡ some c → (c.has_conn ≡ true) × (c.done_closed ≡ false)

open_conn-Reachable :
    (at : String → Handshake) (p : Peers) (id : String)
    → Reachable at p id
    → (addr : String) × ((open_conn id (at id) p p).1 ≡ ok addr)
unfolding open_conn is_online
open_conn-Reachable at p id (o, d, s, (m, e, t)) = elim (Option-cases (GoMap.get id p.online)) [
  | inl q ↦ ground (arith, o, q)
  | inr (peer, q) ↦ (peer.addr, rw (open_conn, q, d, s, e, t) refl)
]

In-left : {A : Type 0} (x : A) (xs ys : List A) → In x xs → In x (xs ++ ys)
In-left x xs ys i = (In-append x xs ys).1 (inl i)

In-right : {A : Type 0} (x : A) (xs ys : List A) → In x ys → In x (xs ++ ys)
In-right x xs ys i = (In-append x xs ys).1 (inr i)

abbrev handle : Conn → ℕ
handle (direct h) = h
handle relayed = 0

say_to_connected-In :
    (conns : GoMap String Conn) (bye : Message) (id : String) (h : ℕ)
    → In (id, direct h) conns
    → In (h, bye) (say_to_connected conns bye)
unfolding say_to_connected
say_to_connected-In [] bye id h i = absurd i
say_to_connected-In ((j, direct k) ∷ conns) bye id h (inl e) =
    inl (ap (λ (x : String × Conn). (handle x.1, bye)) e)
say_to_connected-In ((j, direct k) ∷ conns) bye id h (inr i) =
    inr (say_to_connected-In conns bye id h i)
say_to_connected-In ((j, relayed) ∷ conns) bye id h (inl e) =
    ground (arith, ap (λ (x : String × Conn). x.1) e)
say_to_connected-In ((j, relayed) ∷ conns) bye id h (inr i) = say_to_connected-In conns bye id h i

-- What telling the peers that were discovered keeps, and does.
abbrev Told : (String → Handshake) → (String → ℕ) → List String → Message → Agent → Agent → Type 0
Told at conn ids bye a a' =
    (a'.conns ≡ a.conns)
    × (a'.relay ≡ a.relay)
    × ((y : ℕ × Message) → In y a.sent → In y a'.sent)
    × ((id : String) → In id ids → Reachable at a.peers id → In (conn id, bye) a'.sent)

Told-cons :
    (at : String → Handshake) (conn : String → ℕ) (x : String) (ids : List String) (bye : Message)
    (a a1 a' : Agent)
    → a1.conns ≡ a.conns
    → a1.relay ≡ a.relay
    → ((id : String) → is_online id a1.peers ≡ is_online id a.peers)
    → ((y : ℕ × Message) → In y a.sent → In y a1.sent)
    → (Reachable at a.peers x → In (conn x, bye) a1.sent)
    → Told at conn ids bye a1 a'
    → Told at conn (x ∷ ids) bye a a'
Told-cons at conn x ids bye a a1 a' c r o keeps says (c', r', keeps', says') = (
  c' ∙ c,
  r' ∙ r,
  (λ y i. keeps' y (keeps y i)),
  (λ id i reach. elim i [
    | inl e ↦
        keeps' (conn id, bye)
          (subst (λ z. In (conn z, bye) a1.sent) (sym e)
            (says (subst (Reachable at a.peers) e reach)))
    | inr j ↦ says' id j (o id ∙ reach.0, reach.1, reach.2, reach.3)
  ]),
)

discovered_ok :
    (at : String → Handshake) (conn : String → ℕ) (x addr : String) (ids : List String)
    (bye : Message) (a : Agent)
    → (open_conn x (at x) a.peers a.peers).1 ≡ ok addr
    → say_to_discovered at conn (x ∷ ids) bye a
      ≡ say_to_discovered at conn ids bye (record a {
        peers = (open_conn x (at x) a.peers a.peers).0;
        sent = a.sent ++ (conn x, bye) ∷ [];
      })
unfolding say_to_discovered
discovered_ok at conn x addr ids bye a q = rw (say_to_discovered, q) refl

discovered_err :
    (at : String → Handshake) (conn : String → ℕ) (x e : String) (ids : List String) (bye : Message)
    (a : Agent)
    → (open_conn x (at x) a.peers a.peers).1 ≡ err e
    → say_to_discovered at conn (x ∷ ids) bye a
      ≡ say_to_discovered at conn ids bye
          (record a { peers = (open_conn x (at x) a.peers a.peers).0 })
unfolding say_to_discovered
discovered_err at conn x e ids bye a q = rw (say_to_discovered, q) refl

say_to_discovered-Told :
    (at : String → Handshake) (conn : String → ℕ) (ids : List String) (bye : Message) (a : Agent)
    → Told at conn ids bye a (say_to_discovered at conn ids bye a)
unfolding say_to_discovered
say_to_discovered-Told at conn [] bye a = (refl, refl, (λ y i. i), (λ id i r. absurd i))
say_to_discovered-Told at conn (x ∷ ids) bye a =
    let peers = (open_conn x (at x) a.peers a.peers).0 in
    let online = λ (id : String). is_online-open_conn id x (at x) a.peers in
    elim (Result-cases (open_conn x (at x) a.peers a.peers).1) [
      | inl (addr, q) ↦
          let a1 : Agent = record a { peers = peers; sent = a.sent ++ (conn x, bye) ∷ [] } in
          subst (Told at conn (x ∷ ids) bye a) (sym (discovered_ok at conn x addr ids bye a q)) (
            Told-cons at conn x ids bye a a1 (say_to_discovered at conn ids bye a1) refl refl online
              (λ y i. In-left y a.sent ((conn x, bye) ∷ []) i)
              (λ r. In-right (conn x, bye) a.sent ((conn x, bye) ∷ []) (inl refl))
              (say_to_discovered-Told at conn ids bye a1))
      | inr (e, q) ↦
          let a1 : Agent = record a { peers = peers } in
          subst (Told at conn (x ∷ ids) bye a) (sym (discovered_err at conn x e ids bye a q)) (
            Told-cons at conn x ids bye a a1 (say_to_discovered at conn ids bye a1) refl refl online
              (λ y i. i) (λ r. ground (arith, q, open_conn-Reachable at a.peers x r))
              (say_to_discovered-Told at conn ids bye a1))
    ]

abbrev then_goodbye : String → Option Client → List Message
then_goodbye msg_id none = []
then_goodbye msg_id (some c) = message goodbye msg_id c.agent_id ∷ c.sent

say_to_relay_up :
    (msg_id : String) (a : Agent)
    → RelayIsUp a
    → (a' : Agent) × (say_to_relay msg_id a ≡ some a')
      × (a'.conns ≡ a.conns)
      × (a'.sent ≡ a.sent)
      × ((c : Client)
          → a.relay ≡ some c
          → (c' : Client) × (a'.relay ≡ some c')
            × (c'.stopped ≡ true)
            × (c'.sent ≡ message goodbye msg_id c.agent_id ∷ c.sent))
unfolding say_to_relay send_goodbye send stop
say_to_relay_up msg_id a up = elim (Option-cases a.relay) [
  | inl q ↦ (a, ground (arith, q), refl, refl, (λ c e. ground (arith, q, e)))
  | inr (c, q) ↦
      let (h, d) = up c q in
      let c' = record c {
        sent = message goodbye msg_id c.agent_id ∷ c.sent;
        stopped = true;
        done_closed = true;
        ping_loops = 0;
        query_loops = 0;
      } in
      (
        record a { relay = some c' },
        ground (arith, q, h, d),
        refl,
        refl,
        (λ x e. (c', refl, refl, ap (then_goodbye msg_id) (sym q ∙ e))),
      )
]

-- An agent whose connection to the relay, if it has a relay, is up, and whose client was not stopped,
-- shuts down without a panic: it has no connections left, and what it has sent contains its goodbye on
-- every connection that was open to a peer and on a new connection to every peer that discovery has
-- found and that can be reached; the relay's client has sent one to the relay, last, and is stopped.
pub shut_down-tells :
    (at : String → Handshake) (conn : String → ℕ) (msg_id relay_msg_id : String) (now : ℕ)
    (a : Agent)
    → RelayIsUp a
    → let bye : Message = record (message goodbye msg_id a.id) { timestamp = now } in
      (a' : Agent) × (shut_down at conn msg_id relay_msg_id now a ≡ some a')
      × (a'.conns ≡ [])
      × ((id : String) (h : ℕ) → In (id, direct h) a.conns → In (h, bye) a'.sent)
      × ((id : String)
          → In id (keys a.lan_online)
          → Reachable at a.peers id
          → In (conn id, bye) a'.sent)
      × ((c : Client)
          → a.relay ≡ some c
          → (c' : Client) × (a'.relay ≡ some c')
            × (c'.stopped ≡ true)
            × (c'.sent ≡ message goodbye relay_msg_id c.agent_id ∷ c.sent))
unfolding shut_down
shut_down-tells at conn msg_id relay_msg_id now a up =
    let bye : Message = record (message goodbye msg_id a.id) { timestamp = now } in
    let said : Agent = record a { conns = []; sent = a.sent ++ say_to_connected a.conns bye } in
    let told = say_to_discovered at conn (keys a.lan_online) bye said in
    let (no_conns, relay, keeps, says) =
      say_to_discovered-Told at conn (keys a.lan_online) bye said in
    let (a', e, conns, sent, last) =
      say_to_relay_up relay_msg_id told (λ c r. up c (sym relay ∙ r)) in
    (
      a',
      e,
      conns ∙ no_conns,
      (λ id h i. subst (In (h, bye)) (sym sent) (
          keeps (h, bye)
            (In-right (h, bye) a.sent (say_to_connected a.conns bye)
              (say_to_connected-In a.conns bye id h i)))),
      (λ id i r. subst (In (conn id, bye)) (sym sent) (says id i r)),
      (λ c r. last c (relay ∙ r)),
    )
