-- ===== src/Agent/Driven/Profiles.antt =====
-- internal/p2p/p2p.go and cmd/lan-a2a/main.go: the profiles that two agents exchange when one opens a
-- connection to the other.
use lan_a2a.Prelude.{
  ℕ, String, ◌≡◌, refl, ap, ◌∙◌, inl, inr, true, none, some, List, arith, if◌then◌else◌,
  Option-cases, is_some, nat_eq, string_eq, list_eq, beq_self, Result, ok,
}
use lan_a2a.Prelude.GoMap
use lan_a2a.Protocol.{ProfilePayload}
use lan_a2a.Peers.{
  Peers, Handshake, set_profile, is_online, get_peer_profile, admit, open_conn, register_message,
  register_answer, store_profile,
}
use lan_a2a.Peers.Online.{get-store_profile, is_online-store_profile}
use lan_a2a.Agent.{Agent, direct, open_connection}
use lan_a2a.Agent.Driven
use lan_a2a.Agent.Driven.{PeerInfo, payload, listed_at, get_agent_info}

-- A handshake that nothing disturbs.
abbrev pub undisturbed : String → Peers → Handshake
undisturbed msg_id p = record {
  dials = true;
  sends = true;
  answer = some (register_answer msg_id p);
}

-- What an agent says of a peer whose profile it has.
abbrev pub told_of : String → ProfilePayload → Agent → PeerInfo
told_of peer_id prof a = record {
  id = prof.id;
  profile = some prof;
  source = if listed_at (GoMap.get peer_id a.relay_online) then "relay" else "lan";
}

get_agent_info-told_of :
    (peer_id : String) (prof : ProfilePayload) (a : Agent)
    → is_online peer_id a.peers ≡ true
    → get_peer_profile peer_id a.peers ≡ some prof
    → get_agent_info peer_id a ≡ ok (told_of peer_id prof a)
unfolding get_agent_info
get_agent_info-told_of peer_id prof a o e = rw (get_agent_info, o, e) refl

get_peer_profile-admit :
    (msg_id addr : String) (now : ℕ) (prof : ProfilePayload) (a b : Peers)
    → a.own_profile ≡ some prof
    → (get_peer_profile a.agent_id (admit (register_message msg_id a) addr now b) ≡ some prof)
      × (is_online a.agent_id (admit (register_message msg_id a) addr now b) ≡ true)
unfolding admit get_peer_profile is_online
get_peer_profile-admit msg_id addr now prof a b e =
    let id = a.agent_id in
    elim (Option-cases (GoMap.get id b.online)) [
      | inl q ↦ ground (
        arith,
        e,
        q,
        GoMap.get-put id id
            (record { id = id; addr = addr; last_seen = now; profile = a.own_profile }) b.online,
        string_eq.beq_iff id id,
      )
      | inr (peer, q) ↦ ground (
        arith,
        e,
        q,
        GoMap.get-put id id (record peer { last_seen = now; profile = some prof }) b.online,
        string_eq.beq_iff id id,
      )
    ]

open_conn-undisturbed :
    (id msg_id : String) (prof : ProfilePayload) (b p : Peers)
    → b.own_profile ≡ some prof
    → is_online id p ≡ true
    → (addr : String) × (open_conn id (undisturbed msg_id b) p p
        ≡ (store_profile id (some prof) p, ok addr))
unfolding open_conn is_online
open_conn-undisturbed id msg_id prof b p e o = elim (Option-cases (GoMap.get id p.online)) [
  | inl q ↦ ground (arith, o, q)
  | inr (peer, q) ↦ (peer.addr, rw (open_conn, q, e) refl)
]

open_connection-undisturbed :
    (id msg_id : String) (conn : ℕ) (prof : ProfilePayload) (b : Peers) (a : Agent)
    → b.own_profile ≡ some prof
    → is_online id a.peers ≡ true
    → is_some (GoMap.get id a.lan_online) ≡ true
    → GoMap.get id a.conns ≡ none
    → open_connection id (undisturbed msg_id b) conn a ≡ (
      record a {
        peers = store_profile id (some prof) a.peers;
        conns = GoMap.put id (direct conn) a.conns;
      },
      ok tt,
    )
unfolding open_connection
open_connection-undisturbed id msg_id conn prof b a e o l c =
    let (addr, q) = open_conn-undisturbed id msg_id prof b a.peers e o in
    rw (open_connection, l, c, ap (λ x. x.1) q)
      (ap
        (λ (x : Peers × Result String).
          (record a { peers = x.0; conns = GoMap.put id (direct conn) a.conns }, ok tt))
        q)

-- When an agent has set its profile and another, with a profile of its own, for which it is online on
-- the LAN, opens a connection to it, for the first time and undisturbed: the connection is open, and
-- each of the two then tells of the other the profile that the other has set.
pub get_agent_info-open_connection :
    (a b : Agent) (name description msg_id reg_id addr : String) (skills : List String)
    (now conn : ℕ) (mine : ProfilePayload)
    → a.peers.own_profile ≡ some mine
    → is_online b.id a.peers ≡ true
    → is_some (GoMap.get b.id a.lan_online) ≡ true
    → GoMap.get b.id a.conns ≡ none
    → let b' = Driven.set_profile name description skills b in
      let (a', r) = open_connection b.id (undisturbed msg_id b'.peers) conn a in
      let seen = admit (register_message reg_id a.peers) addr now b'.peers in
      (r ≡ ok tt)
      × (GoMap.get b.id a'.conns ≡ some (direct conn))
      × (get_agent_info b.id a' ≡ ok (told_of b.id (payload b.id name description skills) a))
      × (get_agent_info a.peers.agent_id (record b' { peers = seen })
          ≡ ok (told_of a.peers.agent_id mine b))
unfolding Driven.set_profile set_profile
get_agent_info-open_connection a b name description msg_id reg_id addr skills now conn mine e o l
      c =
    let prof = payload b.id name description skills in
    let b' = Driven.set_profile name description skills b in
    let opened = open_connection-undisturbed b.id msg_id conn prof b'.peers a refl o l c in
    let (told, on) = get_peer_profile-admit reg_id addr now mine a.peers b'.peers e in
    (
      ap (λ x. x.1) opened,
      ap (λ x. GoMap.get b.id x.0.conns) opened
          ∙ GoMap.get-put b.id b.id (direct conn) a.conns
          ∙ ap (λ t. if t then some (direct conn) else GoMap.get b.id a.conns) (beq_self b.id),
      ap (λ x. get_agent_info b.id x.0) opened
          ∙ get_agent_info-told_of b.id prof
              (record a {
                peers = store_profile b.id (some prof) a.peers;
                conns = GoMap.put b.id (direct conn) a.conns;
              })
              (is_online-store_profile b.id b.id (some prof) a.peers o ∙ o)
              (get-store_profile b.id prof a.peers o),
      get_agent_info-told_of a.peers.agent_id mine
          (record b' { peers = admit (register_message reg_id a.peers) addr now b'.peers }) on told,
    )
