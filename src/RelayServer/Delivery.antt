-- ===== src/RelayServer/Delivery.antt =====
-- `relayToChannel` of cmd/lan-relay/main.go: whom a message reaches.
use lan_a2a.Prelude.{
  ℕ, String, ◌≡◌, ap, ◌≢◌, ◌⊎◌, inl, inr, Bool, true, false, some, List, [], ◌∷◌, arith, Bool-cases,
  Option-cases, ◌==◌, nat_eq, string_eq, list_eq, In, contains,
}
use lan_a2a.Prelude.GoMap
use lan_a2a.Prelude.GoMap.{GoMap, contains-keys}
use lan_a2a.Protocol.{Message}
use lan_a2a.RelayServer.{Server, relay_to_channel, targets}
use lan_a2a.RelayServer.Index.{in_channel}

targets-In :
    (s : Server) (ids : List String) (from id : String) (h : ℕ)
    → contains id ids ≡ true
    → id ≢ from
    → GoMap.get id s.agents ≡ some h
    → In h (targets s ids from)
unfolding targets
targets-In s [] from id h c n e = absurd (ground (arith, c))
targets-In s (x ∷ ids) from id h c n e = ground (
  arith,
  targets-In s ids from id h,
  string_eq.beq_iff id x,
  string_eq.beq_iff x from,
  ap (λ (k : String). GoMap.get k s.agents) {x = id} {y = x},
)

-- The agent behind a target, in a list of IDs.
abbrev pub Aimed : Server → List String → String → ℕ → Type 0
Aimed s ids from h =
    (id : String) × (contains id ids ≡ true) × (id ≢ from) × (GoMap.get id s.agents ≡ some h)

Aimed-cons :
    (s : Server) (x : String) (ids : List String) (from : String) (h : ℕ)
    → Aimed s ids from h
    → Aimed s (x ∷ ids) from h
Aimed-cons s x ids from h (id, c, n, e) = (id, ground (arith, c), n, e)

pub In-targets :
    (s : Server) (ids : List String) (from : String) (h : ℕ)
    → In h (targets s ids from)
    → Aimed s ids from h
unfolding targets
In-targets s [] from h i = absurd i
In-targets s (x ∷ ids) from h i = elim (Bool-cases (x == from)) [
  | inl e ↦ Aimed-cons s x ids from h (In-targets s ids from h (ground (arith, i, e)))
  | inr n ↦ elim (Option-cases (GoMap.get x s.agents)) [
    | inl e ↦ Aimed-cons s x ids from h (In-targets s ids from h (ground (arith, i, e, n)))
    | inr (k, e) ↦ elim (first_or_later s x ids from h k n e i) [
      | inl p ↦ (
        x,
        ground (arith, string_eq.beq_iff x x),
        (λ q. ground (arith, string_eq.beq_iff x from, q, n)),
        ground (arith, e, p),
      )
      | inr later ↦ Aimed-cons s x ids from h (In-targets s ids from h later)
    ]
  ]
]
  where
    first_or_later :
        (s' : Server) (x' : String) (ids' : List String) (from' : String) (h' k : ℕ)
        → (x' == from') ≡ false
        → GoMap.get x' s'.agents ≡ some k
        → In h' (targets s' (x' ∷ ids') from')
        → (h' ≡ k) ⊎ In h' (targets s' ids' from')
    first_or_later s' x' ids' from' h' k n e i = ground (arith, n, e, i)

-- A message to a channel is written to a connection exactly when the message names a channel and the
-- connection is the registered one of an agent, other than the sender, that is in the channel.
pub relay_to_channel_exact :
    (s : Server) (msg : Message) (from : String) (h : ℕ)
    → (In h (relay_to_channel s msg from)
        → (msg.channel_id ≢ "")
          × ((id : String) × (in_channel s.channel_index msg.channel_id id ≡ true)
              × (id ≢ from)
              × (GoMap.get id s.agents ≡ some h)))
      × ((id : String)
          → msg.channel_id ≢ ""
          → in_channel s.channel_index msg.channel_id id ≡ true
          → id ≢ from
          → GoMap.get id s.agents ≡ some h
          → In h (relay_to_channel s msg from))
unfolding relay_to_channel
relay_to_channel_exact s msg from h = (
  (λ i. elim (Option-cases (GoMap.get msg.channel_id s.channel_index)) [
    | inl e ↦ absurd (ground (arith, i, e))
    | inr (members, e) ↦
        let (id, c, n, f) = In-targets s (GoMap.keys members) from h (ground (arith, i, e)) in
        (
          (λ p. ground (arith, i, p, string_eq.beq_iff msg.channel_id "")),
          (id, ground (arith, e, c, contains-keys id members), n, f),
        )
  ]),
  (λ id named there n f. elim (Option-cases (GoMap.get msg.channel_id s.channel_index)) [
    | inl e ↦ absurd (ground (arith, there, e, GoMap.get-nil {V = Bool} id))
    | inr (members, e) ↦ ground (
      arith,
      e,
      there,
      string_eq.beq_iff msg.channel_id "",
      contains-keys id members,
      targets-In s (GoMap.keys members) from id h,
    )
  ]),
)
