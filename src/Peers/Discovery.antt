-- ===== src/Peers/Discovery.antt =====
-- internal/p2p/p2p.go: what agents and relays announce by mDNS, and what a round of browsing reports.
-- The library that carries the announcements is not modelled: a round sees a list of them.
use Prim.Native.Char.{code}
use lan_a2a.Prelude.{
  if_same, ℕ, String, ◌≡◌, refl, sym, ap, subst, ◌∙◌, ◌≢◌, ◌↔◌, inl, inr, ◌&&◌, Option, none, some,
  List, [], ◌∷◌, map, arith, if◌then◌else◌, Bool-cases, ◌==◌, nat_eq, string_eq, list_eq, In,
  append_text,
}

-- An announcement, a zeroconf.ServiceEntry: the name of the instance, the texts, the addresses of
-- version 4, as text, and the port.
pub record ServiceEntry : Type 0 where
  pub instance_name : String
  pub text : List String
  pub addresses : List String
  pub port : ℕ

-- The rest of a text behind `id=`, when it is not empty.
unfoldable pub id_in : String → Option String
id_in (String.◌∷◌ c (String.◌∷◌ d (String.◌∷◌ e (String.◌∷◌ f rest)))) =
    if code c == 105 && (code d == 100 && code e == 61) then some (String.◌∷◌ f rest) else none
id_in _ = none

-- The loop over the texts: the last one counts.
unfoldable pub last_id : String → List String → String
unfolding id_in
last_id found [] = found
last_id found (txt ∷ texts) = elim (id_in txt) [
  | none ↦ last_id found texts
  | some id ↦ last_id id texts
]

unfoldable pub peer_id_of : ServiceEntry → String
unfolding last_id
peer_id_of entry = let id = last_id "" entry.text in if id == "" then entry.instance_name else id

-- The calls of `onFound`: the peer's identifier, its address and its port.
unfoldable pub browse : String → List ServiceEntry → List (String × String × ℕ)
unfolding peer_id_of
browse self [] = []
browse self (entry ∷ entries) =
    let rest = browse self entries in
    if entry.instance_name == self then rest else elim (entry.addresses) [
      | [] ↦ rest
      | addr ∷ addrs ↦ if addr == "" then rest else (peer_id_of entry, addr, entry.port) ∷ rest
    ]

-- The calls of `onFound` for relays: the address and the port.
unfoldable pub browse_relay : List ServiceEntry → List (String × ℕ)
browse_relay [] = []
browse_relay (entry ∷ entries) =
    let rest = browse_relay entries in
    elim (entry.addresses) [
      | [] ↦ rest
      | addr ∷ addrs ↦ if addr == "" then rest else (addr, entry.port) ∷ rest
    ]

-- What `StartDiscovery` announces of an agent, on a host with the given addresses.
unfoldable pub announced : String → ℕ → List String → ServiceEntry
announced agent_id port addresses = record {
  instance_name = agent_id;
  text = append_text "id=" agent_id ∷ "version=0.1.0" ∷ [];
  addresses = addresses;
  port = port;
}

-- What `RegisterRelay` announces.
unfoldable pub announced_relay : String → ℕ → List String → ServiceEntry
announced_relay name port addresses = record {
  instance_name = name;
  text = append_text "id=" name ∷ "version=0.1.0" ∷ "role=relay" ∷ [];
  addresses = addresses;
  port = port;
}

last_id-announced : (id : String) → last_id "" (append_text "id=" id ∷ "version=0.1.0" ∷ []) ≡ id
unfolding last_id id_in
last_id-announced String.[] = refl
last_id-announced (String.◌∷◌ c s) = refl

peer_id_of-announced :
    (id : String) (port : ℕ) (addresses : List String)
    → peer_id_of (announced id port addresses) ≡ id
unfolding peer_id_of announced
peer_id_of-announced id port addresses =
    ap (λ x. if x == "" then id else x) (last_id-announced id) ∙ if_same (id == "") id

abbrev first : List String → String
first [] = ""
first (a ∷ addrs) = a

-- An agent that announces itself: its identifier, its port and its host's addresses.
abbrev pub Announcer : Type 0
Announcer = String × ℕ × List String

abbrev pub announce_all : List Announcer → List ServiceEntry
announce_all = map (λ (id, port, addresses). announced id port addresses)

abbrev pub IsReported : String → String × String × ℕ → List Announcer → Type 0
IsReported self (id, addr, port) agents =
    (addrs : List String) × In (id, port, addr ∷ addrs) agents × (id ≢ self) × (addr ≢ "")

-- An agent that is not reported.
IsReported-skip :
    (self : String) (y : String × String × ℕ) (agent : Announcer) (agents : List Announcer)
    (all rest : List (String × String × ℕ))
    → all ≡ rest
    → ((addrs : List String) → (y.0, y.2, y.1 ∷ addrs) ≡ agent → y.0 ≢ self → y.1 ≢ "" → ⊥)
    → In y rest ↔ IsReported self y agents
    → In y all ↔ IsReported self y (agent ∷ agents)
IsReported-skip self y agent agents all rest e never h = (
  (λ i. let (addrs, j, n, m) = h.0 (subst (In y) e i) in (addrs, inr j, n, m)),
  (λ (addrs, j, n, m). elim j [
    | inl q ↦ absurd (never addrs q n m)
    | inr k ↦ subst (In y) (sym e) (h.1 (addrs, k, n, m))
  ]),
)

IsReported-found :
    (self : String) (y : String × String × ℕ) (x a : String) (p : ℕ) (addrs : List String)
    (agents : List Announcer) (all rest : List (String × String × ℕ))
    → all ≡ (x, a, p) ∷ rest
    → x ≢ self
    → a ≢ ""
    → In y rest ↔ IsReported self y agents
    → In y all ↔ IsReported self y ((x, p, a ∷ addrs) ∷ agents)
IsReported-found self y x a p addrs agents all rest e n m h = (
  (λ i. elim (subst (In y) e i) [
    | inl q ↦ (
      addrs,
      inl (ap (λ (t : String × String × ℕ). (t.0, t.2, t.1 ∷ addrs)) q),
      (λ s. n (sym (ap (λ (t : String × String × ℕ). t.0) q) ∙ s)),
      (λ s. m (sym (ap (λ (t : String × String × ℕ). t.1) q) ∙ s)),
    )
    | inr j ↦ (let (more, k, n', m') = h.0 j in (more, inr k, n', m'))
  ]),
  (λ (more, j, n', m'). subst (In y) (sym e) (elim j [
    | inl q ↦ inl (ap (λ (t : Announcer). (t.0, first t.2, t.1)) q)
    | inr k ↦ inr (h.1 (more, k, n', m'))
  ])),
)

-- A round of browsing that sees the announcements of some agents reports exactly the agents other than
-- the one that browses whose host has an address, that is not empty, with the identifier and the port
-- that they announced and the first of the addresses.
pub browse-announce_all :
    (self : String) (y : String × String × ℕ) (agents : List Announcer)
    → In y (browse self (announce_all agents)) ↔ IsReported self y agents
unfolding browse announced
browse-announce_all self y [] = ((λ i. absurd i), (λ (addrs, i, n, m). absurd i))
browse-announce_all self y ((x, p, []) ∷ agents) =
    let rest = browse self (announce_all agents) in
    IsReported-skip self y (x, p, []) agents (browse self (announce_all ((x, p, []) ∷ agents))) rest
      (if_same (x == self) rest) (λ addrs q n m. ground (arith, ap (λ (t : Announcer). t.2) q))
      (browse-announce_all self y agents)
browse-announce_all self y ((x, p, a ∷ addrs) ∷ agents) =
    let rest = browse self (announce_all agents) in
    let all = browse self (announce_all ((x, p, a ∷ addrs) ∷ agents)) in
    let ih = browse-announce_all self y agents in
    elim (Bool-cases (x == self)) [
      | inl s ↦
          IsReported-skip self y (x, p, a ∷ addrs) agents all rest (rw (s) refl)
            (λ more q n m. n (ap (λ (t : Announcer). t.0) q ∙ (string_eq.beq_iff x self).0 s)) ih
      | inr s ↦ elim (Bool-cases (a == "")) [
        | inl t ↦
            IsReported-skip self y (x, p, a ∷ addrs) agents all rest (rw (s, t) refl)
              (λ more q n m. m (ap (λ (t : Announcer). first t.2) q ∙ (string_eq.beq_iff a "").0 t))
              ih
        | inr t ↦
            IsReported-found self y x a p addrs agents all rest
              (rw (s, t, peer_id_of-announced x p (a ∷ addrs)) refl)
              (λ e. ground (arith, s, e, string_eq.beq_iff x self))
              (λ e. ground (arith, t, e, string_eq.beq_iff a "")) ih
      ]
    ]
