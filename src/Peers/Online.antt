-- ===== src/Peers/Online.antt =====
-- internal/p2p/p2p.go: which peers are online, and what is known of them.
use lan_a2a.Prelude.{
  ap, ◌⊎◌, ◌∙◌, Bool-cases, inl, inr, ok, Option-cases, ◌+◌, ◌≤◌, ◌↔◌, true, ℕ, String, ◌≡◌, refl,
  false, Option, none, some, [], ◌∷◌, arith, if◌then◌else◌, nat_eq, string_eq, list_eq, contains,
  Distinct,
}
use lan_a2a.Prelude.GoMap
use lan_a2a.Prelude.GoMap.{GoMap, keys, contains-keys}
use lan_a2a.Protocol.{ProfilePayload, Message}
use lan_a2a.Peers.{
  accepted, Handshake, store_profile, mark_online, cleanup_stale_peers, get_peer_profile, is_online,
  open_conn, OnlinePeer, Peers, is_stale, drop_stale,
}

-- No peer stands twice in the map.
abbrev pub IsSound : Peers → Type 0
IsSound p = Distinct (keys p.online)

abbrev keep : ℕ → Option OnlinePeer → Option OnlinePeer
keep now none = none
keep now (some peer) = if is_stale now peer then none else some peer

pub absent-drop_stale :
    (id : String) (now : ℕ) (m : GoMap String OnlinePeer)
    → contains id (keys m) ≡ false
    → contains id (keys (drop_stale now m)) ≡ false
unfolding drop_stale
absent-drop_stale id now [] h = refl
absent-drop_stale id now ((j, peer) ∷ m) h = ground (arith, absent-drop_stale id now m)

pub get-drop_stale :
    (id : String) (now : ℕ) (m : GoMap String OnlinePeer)
    → Distinct (keys m)
    → GoMap.get id (drop_stale now m) ≡ keep now (GoMap.get id m)
unfolding drop_stale GoMap.get
get-drop_stale id now [] d = refl
get-drop_stale id now ((j, peer) ∷ m) d = ground (
  arith,
  get-drop_stale id now m d.1,
  absent-drop_stale j now m,
  contains-keys j m,
  contains-keys j (drop_stale now m),
  string_eq.beq_iff j id,
)

-- After a tick of the clean-up, a peer is online exactly when it was online before and was last seen
-- at most 30 seconds ago; where no peer stands twice in the map.
pub cleanup_stale_peers_exact :
    (p : Peers) (now : ℕ) (id : String)
    → IsSound p
    → (is_online id (cleanup_stale_peers now p) ≡ true) ↔ (
        (peer : OnlinePeer) × (GoMap.get id p.online ≡ some peer)
        × (now ≤ peer.last_seen + 30_000_000_000))
unfolding is_online cleanup_stale_peers is_stale
cleanup_stale_peers_exact p now id d =
    let step = get-drop_stale id now p.online d in
    elim (Option-cases (GoMap.get id p.online)) [
      | inl e ↦ ground (arith, step, e)
      | inr (peer, e) ↦
          ((λ h. (peer, e, ground (arith, step, e))), (λ (q, e', h). ground (arith, step, e, e')))
    ]

pub get-store_profile :
    (id : String) (prof : ProfilePayload) (p : Peers)
    → is_online id p ≡ true
    → get_peer_profile id (store_profile id (some prof) p) ≡ some prof
unfolding get_peer_profile store_profile is_online
get-store_profile id prof p h = elim (Option-cases (GoMap.get id p.online)) [
  | inl e ↦ ground (arith, e)
  | inr (peer, e) ↦ ground (
    arith,
    e,
    GoMap.get-put id id (record peer { profile = some prof }) p.online,
    string_eq.beq_iff id id,
  )
]

-- A connection to a peer stores the profile that the peer's answer carries; marking the peer online
-- again, as each round of discovery does, forgets it, though the peer stays online.
pub mark_online_forgets :
    (p p' : Peers) (id address addr : String) (now : ℕ) (h : Handshake) (m : Message)
    (prof : ProfilePayload)
    → open_conn id h p p ≡ (p', ok address)
    → h.answer ≡ some m
    → m.profile ≡ some prof
    → (get_peer_profile id p' ≡ some prof)
      × (get_peer_profile id (mark_online id addr now p') ≡ none)
      × (is_online id (mark_online id addr now p') ≡ true)
unfolding open_conn get_peer_profile mark_online is_online store_profile
mark_online_forgets p p' id address addr now h m prof e a b = ground (
  arith,
  GoMap.get-put id id (record { id = id; addr = addr; last_seen = now; profile = none }) p'.online,
  get-store_profile id prof p,
  string_eq.beq_iff id id,
)

pub is_online-store_profile :
    (x id : String) (prof : Option ProfilePayload) (p : Peers)
    → is_online id p ≡ true
    → is_online x (store_profile id prof p) ≡ is_online x p
unfolding is_online store_profile
is_online-store_profile x id none p o = refl
is_online-store_profile x id (some prof) p o = elim (Option-cases (GoMap.get id p.online)) [
  | inl q ↦ ground (arith, o, q)
  | inr (peer, q) ↦ ground (
    arith,
    q,
    GoMap.get-put id x (record peer { profile = some prof }) p.online,
    string_eq.beq_iff id x,
    λ (e : id ≡ x). ap (λ y. GoMap.get y p.online) e,
  )
]

open_conn-cases :
    (id : String) (h : Handshake) (p : Peers)
    → ((open_conn id h p p).0 ≡ p)
      ⊎ ((prof : Option ProfilePayload) × (is_online id p ≡ true)
          × ((open_conn id h p p).0 ≡ store_profile id prof p))
unfolding open_conn is_online
open_conn-cases id h p = elim (Option-cases (GoMap.get id p.online)) [
  | inl q ↦ inl (rw (open_conn, q) refl)
  | inr (peer, q) ↦ elim (Bool-cases h.dials) [
    | inr d ↦ inl (rw (open_conn, q, d) refl)
    | inl d ↦ elim (Bool-cases h.sends) [
      | inr s ↦ inl (rw (open_conn, q, d, s) refl)
      | inl s ↦ elim (Option-cases (accepted h.answer)) [
        | inl a ↦ inl (rw (open_conn, q, d, s, a) refl)
        | inr (m, a) ↦ inr (m.profile, rw (q) refl, rw (open_conn, q, d, s, a) refl)
      ]
    ]
  ]
]

-- A handshake changes nothing of who is online.
pub is_online-open_conn :
    (x id : String) (h : Handshake) (p : Peers) → is_online x (open_conn id h p p).0 ≡ is_online x p
is_online-open_conn x id h p = elim (open_conn-cases id h p) [
  | inl e ↦ ap (is_online x) e
  | inr (prof, o, e) ↦ ap (is_online x) e ∙ is_online-store_profile x id prof p o
]
