-- ===== src/Agent/Shutdown.antt =====
-- cmd/lan-a2a/main.go: what discovery reports to the agent, and the end of `main`, which says goodbye.
pub mod Goodbyes
mod Examples
use lan_a2a.Prelude.{
  ℕ, zero, suc, ◌+◌, ◌-◌, ◌*◌, ◌/◌, ◌%◌, ◌^◌, ◌≤◌, ◌<◌, String, ◌≡◌, refl, sym, ap, subst, ◌∙◌, ◌≢◌,
  ◌↔◌, ◌⊎◌, inl, inr, Bool, true, false, not, ◌&&◌, ◌||◌, Option, none, some, List, [], ◌∷◌, ◌++◌,
  map, arith, ltb, leb, if◌then◌else◌, Bool-cases, Option-cases, Result-cases, is_some, Eq, ◌==◌,
  nat_eq, string_eq, list_eq, beq_self, beq_ne, Result, ok, err, ◌>>=◌, length, take, drop, filter,
  All, get_elem?, In, In-filter, filter-In, contains, Distinct, length-append, contains-append,
  contains-filter, Bytes, codes, cons_unless_blank, trim_space, trim_left, trim_right, split_words,
  cons_word, space, is_space, append_text, fields, join_words, Distinct-append_one,
}
use lan_a2a.Prelude.GoMap
use lan_a2a.Prelude.GoMap.{GoMap, keys}
use lan_a2a.Protocol.{Message, message, goodbye}
use lan_a2a.Peers.{Handshake}
use lan_a2a.Peers
use lan_a2a.RelayClient.{Client, Dial, new_client, connect}
use lan_a2a.RelayClient
use lan_a2a.Agent.{Agent, Conn, direct, relayed, mark_lan_online}

-- A peer that discovery finds: `addr` is its address with its port.
unfoldable pub on_found : String → String → ℕ → Agent → Agent
on_found peer_id addr now a =
    let a' = mark_lan_online peer_id a in
    record a' { peers = Peers.mark_online peer_id addr now a'.peers }

-- A relay that discovery finds; the flag is `relayConnected`.
unfoldable pub on_relay : Dial → Bool × Agent → Bool × Agent
on_relay d (relay_connected, a) =
    if relay_connected || is_some a.relay
    then (relay_connected, a)
    else (let (c, r) = connect (new_client a.id) d in
        elim r [
          | err e ↦ (relay_connected, record a { relay = none })
          | ok u ↦ (true, record a { relay = some c })
        ])

-- The first goodbyes: the connections that are not nil; the others are only forgotten.
unfoldable pub say_to_connected : GoMap String Conn → Message → List (ℕ × Message)
say_to_connected [] bye = []
say_to_connected ((id, direct h) ∷ conns) bye = (h, bye) ∷ say_to_connected conns bye
say_to_connected ((id, relayed) ∷ conns) bye = say_to_connected conns bye

-- The second: a connection of its own to each peer that was discovered, by the number that `conn` gives
-- it; a peer that cannot be reached is skipped.
unfoldable pub say_to_discovered :
    (String → Handshake) → (String → ℕ) → List String → Message → Agent → Agent
say_to_discovered at conn [] bye a = a
say_to_discovered at conn (id ∷ ids) bye a =
    let (peers, r) = Peers.open_conn id (at id) a.peers a.peers in
    elim r [
      | err e ↦ say_to_discovered at conn ids bye (record a { peers = peers })
      | ok addr ↦
          say_to_discovered at conn ids bye
            (record a { peers = peers; sent = a.sent ++ (conn id, bye) ∷ [] })
    ]

-- The third: the relay, whose client then stops.
unfoldable pub say_to_relay : String → Agent → Option Agent
say_to_relay msg_id a = elim (a.relay) [
  | none ↦ some a
  | some c ↦ elim (RelayClient.send_goodbye c msg_id) [
    | none ↦ none
    | some c' ↦ elim (RelayClient.stop c') [
      | none ↦ none
      | some c'' ↦ some (record a { relay = some c'' })
    ]
  ]
]

unfoldable pub shut_down :
    (String → Handshake) → (String → ℕ) → String → String → ℕ → Agent → Option Agent
unfolding say_to_connected say_to_discovered say_to_relay
shut_down at conn msg_id relay_msg_id now a =
    let bye : Message = record (message goodbye msg_id a.id) { timestamp = now } in
    let said : Agent = record a { conns = []; sent = a.sent ++ say_to_connected a.conns bye } in
    say_to_relay relay_msg_id (say_to_discovered at conn (keys a.lan_online) bye said)
