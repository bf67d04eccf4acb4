-- ===== src/Peers/Running.antt =====
-- internal/p2p/p2p.go: the peers over time, found by discovery, cleaned up by ticks, and leaving.
use lan_a2a.Prelude.{
  refl, Option, ℕ, ◌+◌, ◌≤◌, String, ◌≡◌, sym, ap, subst, ◌∙◌, ◌≢◌, ◌↔◌, ◌⊎◌, inl, inr, true, false,
  none, some, List, [], ◌∷◌, arith, Bool-cases, Option-cases, is_some, ◌==◌, nat_eq, string_eq,
  list_eq, All, Distinct,
}
use lan_a2a.Prelude.GoMap
use lan_a2a.Prelude.GoMap.{GoMap, keys, contains-keys}
use lan_a2a.Protocol.{Message}
use lan_a2a.Peers.{
  OnlinePeer, Peers, admit, admitted, new_peers, mark_online, cleanup_stale_peers, remove_online,
  is_online, is_stale, drop_stale,
}
use lan_a2a.Peers.Online.{IsSound, get-drop_stale, absent-drop_stale}

-- What happens to the map: MarkOnline, which discovery calls for a peer that it finds, a tick of
-- cleanupStalePeers, the registration of a peer that opens a connection, from a remote address, each at
-- a time in nanoseconds, and the end of the peer's own connection. What a connection to the peer stores
-- is its profile alone, which is left out.
pub data Change : Type 0 where
  found : String → String → ℕ → Change
  tick : ℕ → Change
  registered : Message → String → ℕ → Change
  left : String → Change

unfoldable pub change : Change → Peers → Peers
change (found id addr now) p = mark_online id addr now p
change (tick now) p = cleanup_stale_peers now p
change (registered m addr now) p = admit m addr now p
change (left id) p = remove_online id p

unfoldable pub change_all : List Change → Peers → Peers
unfolding change
change_all [] p = p
change_all (c ∷ cs) p = change_all cs (change c p)

-- A change that leaves a peer alone that was seen last at the time t: a tick at most 30 seconds later,
-- the end of another peer's connection, another peer that is found or registers.
abbrev pub IsQuiet : String → ℕ → Change → Type 0
IsQuiet id t (found j addr now) = j ≢ id
IsQuiet id t (tick now) = now ≤ t + 30_000_000_000
IsQuiet id t (registered m addr now) = m.from ≢ id
IsQuiet id t (left j) = j ≢ id

-- The peer was found, or it registered, and everything after the last time leaves it alone.
pub data WasFound (id : String) : List Change → Type 0 where
  here :
      (addr : String) (t : ℕ) {cs : List Change}
      → All (IsQuiet id t) cs
      → WasFound id (found id addr t ∷ cs)
  joined :
      (m : Message) (addr : String) (t : ℕ) {cs : List Change}
      → m.from ≡ id
      → All (IsQuiet id t) cs
      → WasFound id (registered m addr t ∷ cs)
  later : (c : Change) {cs : List Change} → WasFound id cs → WasFound id (c ∷ cs)

-- The peer is in the map, and stays there.
abbrev Stays : String → Peers → List Change → Type 0
Stays id p cs =
    (peer : OnlinePeer) × (GoMap.get id p.online ≡ some peer) × All (IsQuiet id peer.last_seen) cs

IsSound-drop_stale :
    (now : ℕ) (m : GoMap String OnlinePeer) → Distinct (keys m) → Distinct (keys (drop_stale now m))
unfolding drop_stale
IsSound-drop_stale now [] d = tt
IsSound-drop_stale now ((j, peer) ∷ m) d = elim (Bool-cases (is_stale now peer)) [
  | inl e ↦ rw (drop_stale, e) (IsSound-drop_stale now m d.1)
  | inr e ↦ rw (drop_stale, e) (absent-drop_stale j now m d.0, IsSound-drop_stale now m d.1)
]

IsSound-change : (c : Change) (p : Peers) → IsSound p → IsSound (change c p)
unfolding change mark_online cleanup_stale_peers remove_online admit
IsSound-change (found id addr now) p d = GoMap.Distinct-put id _ p.online d
IsSound-change (tick now) p d = IsSound-drop_stale now p.online d
IsSound-change (registered m addr now) p d = GoMap.Distinct-put m.from _ p.online d
IsSound-change (left id) p d = GoMap.Distinct-del id p.online d

-- The entry that a finding makes, the same at every place where it is written down.
abbrev entry : String → String → ℕ → OnlinePeer
entry id addr now = record { id = id; addr = addr; last_seen = now; profile = none }

Is-entry :
    (id j addr : String) (now : ℕ) (m : GoMap String OnlinePeer) (peer : OnlinePeer)
    → j == id ≡ true
    → GoMap.get id (GoMap.put j (entry j addr now) m) ≡ some peer
    → entry j addr now ≡ peer
Is-entry id j addr now m peer same e =
    ground (arith, e, same, GoMap.get-put j id (entry j addr now) m)

last_seen-admitted :
    (m : Message) (addr : String) (now : ℕ) (before : Option OnlinePeer)
    → (admitted m addr now before).last_seen ≡ now
last_seen-admitted m addr now none = refl
last_seen-admitted m addr now (some peer) = refl

Is-admitted :
    (id addr : String) (msg : Message) (now : ℕ) (m : GoMap String OnlinePeer) (peer : OnlinePeer)
    → msg.from == id ≡ true
    → GoMap.get id (GoMap.put msg.from (admitted msg addr now (GoMap.get msg.from m)) m) ≡ some peer
    → now ≡ peer.last_seen
Is-admitted id addr msg now m peer same e =
    let kept : admitted msg addr now (GoMap.get msg.from m) ≡ peer = ground (
      arith,
      e,
      same,
      GoMap.get-put msg.from id (admitted msg addr now (GoMap.get msg.from m)) m,
    ) in
    sym (last_seen-admitted msg addr now (GoMap.get msg.from m)) ∙ ap OnlinePeer.last_seen kept

other-name : (j id : String) → j == id ≡ false → j ≢ id
other-name j id n e = ground (arith, n, e, string_eq.beq_iff j id)

-- A change after which the peer stays is one that finds it, or one that leaves it alone.
Stays-change :
    (id : String) (c : Change) (cs : List Change) (p : Peers)
    → IsSound p
    → Stays id (change c p) cs
    → WasFound id (c ∷ cs) ⊎ Stays id p (c ∷ cs)
unfolding change mark_online cleanup_stale_peers remove_online admit is_stale
Stays-change id (found j addr now) cs p d (peer, e, q) = elim (Bool-cases (j == id)) [
  | inl same ↦ inl (
      subst (λ (k : String). WasFound id (found k addr now ∷ cs))
        (sym ((string_eq.beq_iff j id).0 same))
        (here addr now (
          subst (λ (x : OnlinePeer). All (IsQuiet id x.last_seen) cs)
            (sym (Is-entry id j addr now p.online peer same e)) q)))
  | inr other ↦ inr (
    peer,
    ground (arith, e, other, GoMap.get-put j id (entry j addr now) p.online),
    (other-name j id other, q),
  )
]
Stays-change id (tick now) cs p d (peer, e, q) =
    let step = get-drop_stale id now p.online d in
    elim (Option-cases (GoMap.get id p.online)) [
      | inl gone ↦ absurd (ground (arith, e, gone, step))
      | inr (before, there) ↦ elim (Bool-cases (is_stale now before)) [
        | inl stale ↦ absurd (ground (arith, e, there, stale, step))
        | inr fresh ↦
            let same : before ≡ peer = ground (arith, e, there, fresh, step) in
            inr (
              before,
              there,
              (
                ground (arith, fresh),
                subst (λ (x : OnlinePeer). All (IsQuiet id x.last_seen) cs) (sym same) q,
              ),
            )
      ]
    ]
Stays-change id (registered m addr now) cs p d (peer, e, q) = elim (Bool-cases (m.from == id)) [
  | inl same ↦ inl (
      joined m addr now ((string_eq.beq_iff m.from id).0 same) (
        subst (λ (t : ℕ). All (IsQuiet id t) cs)
          (sym (Is-admitted id addr m now p.online peer same e)) q))
  | inr other ↦ inr (
    peer,
    ground (
      arith,
      e,
      other,
      GoMap.get-put m.from id (admitted m addr now (GoMap.get m.from p.online)) p.online,
    ),
    (other-name m.from id other, q),
  )
]
Stays-change id (left j) cs p d (peer, e, q) = elim (Bool-cases (j == id)) [
  | inl same ↦ absurd (ground (arith, e, same, GoMap.get-del j id p.online))
  | inr other ↦
      inr (peer, ground (arith, e, other, GoMap.get-del j id p.online), (other-name j id other, q))
]

change-Stays :
    (id : String) (c : Change) (cs : List Change) (p : Peers)
    → IsSound p
    → Stays id p (c ∷ cs)
    → Stays id (change c p) cs
unfolding change mark_online cleanup_stale_peers remove_online admit is_stale
change-Stays id (found j addr now) cs p d (peer, e, (n, q)) = (
  peer,
  ground (arith, e, n, string_eq.beq_iff j id, GoMap.get-put j id (entry j addr now) p.online),
  q,
)
change-Stays id (tick now) cs p d (peer, e, (n, q)) =
    (peer, get-drop_stale id now p.online d ∙ ground (arith, e, n), q)
change-Stays id (registered m addr now) cs p d (peer, e, (n, q)) = (
  peer,
  ground (
    arith,
    e,
    n,
    string_eq.beq_iff m.from id,
    GoMap.get-put m.from id (admitted m addr now (GoMap.get m.from p.online)) p.online,
  ),
  q,
)
change-Stays id (left j) cs p d (peer, e, (n, q)) =
    (peer, ground (arith, e, n, string_eq.beq_iff j id, GoMap.get-del j id p.online), q)

-- A finding makes the entry.
found-Stays :
    (id addr : String) (t : ℕ) (cs : List Change) (p : Peers)
    → All (IsQuiet id t) cs
    → Stays id (change (found id addr t) p) cs
unfolding change mark_online
found-Stays id addr t cs p q = (
  entry id addr t,
  ground (arith, string_eq.beq_iff id id, GoMap.get-put id id (entry id addr t) p.online),
  q,
)

-- So does a registration.
registered-Stays :
    (id addr : String) (m : Message) (t : ℕ) (cs : List Change) (p : Peers)
    → m.from ≡ id
    → All (IsQuiet id t) cs
    → Stays id (change (registered m addr t) p) cs
unfolding change admit
registered-Stays id addr m t cs p own q = (
  admitted m addr t (GoMap.get m.from p.online),
  ground (
    arith,
    own,
    string_eq.beq_iff m.from id,
    GoMap.get-put m.from id (admitted m addr t (GoMap.get m.from p.online)) p.online,
  ),
  subst (λ (n : ℕ). All (IsQuiet id n) cs)
      (sym (last_seen-admitted m addr t (GoMap.get m.from p.online))) q,
)

change_all-Stays :
    (id : String) (cs : List Change) (p : Peers)
    → IsSound p
    → (is_online id (change_all cs p) ≡ true) ↔ (WasFound id cs ⊎ Stays id p cs)
unfolding change_all is_online
change_all-Stays id [] p d = (
  (λ h. elim (Option-cases (GoMap.get id p.online)) [
    | inl e ↦ absurd (ground (arith, h, e))
    | inr (peer, e) ↦ inr (peer, e, tt)
  ]),
  (λ w. nothing_yet id p w),
)
  where
    nothing_yet :
        (id : String) (p : Peers)
        → WasFound id [] ⊎ Stays id p []
        → is_some (GoMap.get id p.online) ≡ true
    nothing_yet id p (inl w) = elim w [ ]
    nothing_yet id p (inr (peer, e, q)) = ap is_some e
change_all-Stays id (c ∷ cs) p d =
    let (only, enough) = change_all-Stays id cs (change c p) (IsSound-change c p d) in
    (
      (λ h. elim (only h) [ inl w ↦ inl (later c w) | inr s ↦ Stays-change id c cs p d s ]),
      (λ w. enough (onward id c cs p d w)),
    )
  where
    onward :
        (id : String) (c : Change) (cs : List Change) (p : Peers)
        → IsSound p
        → WasFound id (c ∷ cs) ⊎ Stays id p (c ∷ cs)
        → WasFound id cs ⊎ Stays id (change c p) cs
    onward id _ cs p d (inl (here addr t q)) = inr (found-Stays id addr t cs p q)
    onward id _ cs p d (inl (joined m addr t own q)) = inr (registered-Stays id addr m t cs p own q)
    onward id _ cs p d (inl (later c w)) = inl w
    onward id c cs p d (inr s) = inr (change-Stays id c cs p d s)

pub change_all-WasFound :
    (agent_id : String) (port : ℕ) (id : String) (cs : List Change)
    → (is_online id (change_all cs (new_peers agent_id port)) ≡ true) ↔ WasFound id cs
unfolding new_peers
change_all-WasFound agent_id port id cs =
    let (only, enough) = change_all-Stays id cs (new_peers agent_id port) tt in
    (
      (λ h. elim (only h) [
        | inl w ↦ w
        | inr (peer, e, q) ↦ absurd (ground (arith, e, GoMap.get-nil {V = OnlinePeer} id))
      ]),
      (λ w. enough (inl w)),
    )
