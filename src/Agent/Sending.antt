-- ===== src/Agent/Sending.antt =====
-- cmd/lan-a2a/main.go: which connections a message of a channel goes to.
use lan_a2a.Prelude.{
  inl, inr, ℕ, String, ◌≡◌, refl, sym, ap, subst, ◌≢◌, ◌↔◌, ◌⊎◌, inl, inr, not, Option, none, some,
  List, [], ◌∷◌, ◌++◌, arith, ◌==◌, nat_eq, string_eq, list_eq, ok, In, In-filter, filter-In,
}
use mathlib.Core.List.{append-nil}
use lan_a2a.Prelude.GoMap
use lan_a2a.Prelude.GoMap.{GoMap, keys, get-put, contains-keys}
use lan_a2a.Protocol.{Message}
use lan_a2a.Channel.{mode_p2p}
use lan_a2a.Channel
use lan_a2a.Agent.{
  Agent, Conn, direct, relayed, broadcast_to_members, others, send_message, text_message,
}

-- No connection is nil.
abbrev pub IsDirect : Agent → Type 0
IsDirect a = (id : String) → GoMap.get id a.conns ≢ some relayed

-- The connections of the members that have one, in their order.
abbrev pub reached : GoMap String Conn → List String → List ℕ
reached conns [] = []
reached conns (id ∷ ids) = elim (GoMap.get id conns) [
  | some (direct h) ↦ h ∷ reached conns ids
  | _ ↦ reached conns ids
]

abbrev pub each : Message → List ℕ → List (ℕ × Message)
each msg [] = []
each msg (h ∷ hs) = (h, msg) ∷ each msg hs

List-cases : {A : Type 0} (xs : List A) → (xs ≡ []) ⊎ ((y : A) × (ys : List A) × (xs ≡ y ∷ ys))
List-cases [] = inl refl
List-cases (y ∷ ys) = inr (y, ys, refl)

Conn-cases :
    (o : Option Conn) → (o ≡ none) ⊎ (((h : ℕ) × (o ≡ some (direct h))) ⊎ (o ≡ some relayed))
Conn-cases none = inl refl
Conn-cases (some (direct h)) = inr (inl (h, refl))
Conn-cases (some relayed) = inr (inr refl)

append-one : {A : Type 0} (xs : List A) (x : A) (ys : List A) → (xs ++ x ∷ []) ++ ys ≡ xs ++ x ∷ ys
append-one [] x ys = refl
append-one (y ∷ xs) x ys = ap (λ r. y ∷ r) (append-one xs x ys)

broadcast_to_members-reached :
    (ids : List String) (msg : Message) (a : Agent)
    → IsDirect a
    → broadcast_to_members ids msg a
      ≡ some (record a { sent = a.sent ++ each msg (reached a.conns ids) })
unfolding broadcast_to_members
broadcast_to_members-reached [] msg a d =
    ap (λ (l : List (ℕ × Message)). some (record a { sent = l })) (sym (append-nil a.sent))
broadcast_to_members-reached (id ∷ ids) msg a d = elim (Conn-cases (GoMap.get id a.conns)) [
  | inl e ↦ ground (arith, e, broadcast_to_members-reached ids msg a d)
  | inr (inl (h, e)) ↦ ground (
    arith,
    e,
    broadcast_to_members-reached ids msg (record a { sent = a.sent ++ (h, msg) ∷ [] }) d,
    append-one a.sent (h, msg) (each msg (reached a.conns ids)),
  )
  | inr (inr e) ↦ absurd (d id e)
]

In-first :
    (x : String) (ids : List String) (conns : GoMap String Conn) (msg : Message) (h k : ℕ)
    → GoMap.get x conns ≡ some (direct k)
    → In (h, msg) (each msg (reached conns (x ∷ ids)))
    → (h ≡ k) ⊎ In (h, msg) (each msg (reached conns ids))
In-first x ids conns msg h k e i = ground (arith, e, i)

In-each :
    (ids : List String) (conns : GoMap String Conn) (msg : Message) (h : ℕ)
    → In (h, msg) (each msg (reached conns ids))
    → (id : String) × In id ids × (GoMap.get id conns ≡ some (direct h))
In-each [] conns msg h i = absurd i
In-each (x ∷ ids) conns msg h i = elim (Conn-cases (GoMap.get x conns)) [
  | inl e ↦
      let (id, there, g) = In-each ids conns msg h (ground (arith, e, i)) in (id, inr there, g)
  | inr (inl (k, e)) ↦ elim (In-first x ids conns msg h k e i) [
    | inl p ↦ (x, inl refl, subst (λ (j : ℕ). GoMap.get x conns ≡ some (direct j)) (sym p) e)
    | inr later ↦ let (id, there, g) = In-each ids conns msg h later in (id, inr there, g)
  ]
  | inr (inr e) ↦
      let (id, there, g) = In-each ids conns msg h (ground (arith, e, i)) in (id, inr there, g)
]

each-In :
    (ids : List String) (conns : GoMap String Conn) (msg : Message) (h : ℕ) (id : String)
    → In id ids
    → GoMap.get id conns ≡ some (direct h)
    → In (h, msg) (each msg (reached conns ids))
each-In [] conns msg h id i g = absurd i
each-In (x ∷ ids) conns msg h id (inl p) g = ground (arith, p, g)
each-In (x ∷ ids) conns msg h id (inr i) g = elim (Conn-cases (GoMap.get x conns)) [
  | inl e ↦ ground (arith, e, each-In ids conns msg h id i g)
  | inr (inl (k, e)) ↦ ground (arith, e, each-In ids conns msg h id i g)
  | inr (inr e) ↦ ground (arith, e, each-In ids conns msg h id i g)
]

pub In-append : {A : Type 0} (x : A) (xs ys : List A) → In x (xs ++ ys) ↔ (In x xs ⊎ In x ys)
In-append x [] ys = ((λ i. inr i), (λ s. elim s [ inl i ↦ absurd i | inr i ↦ i ]))
In-append x (y ∷ xs) ys = ground (arith, In-append x xs ys)

each-same : (msg m : Message) (h : ℕ) (hs : List ℕ) → In (h, m) (each msg hs) → m ≡ msg
each-same msg m h [] i = absurd i
each-same msg m h (k ∷ hs) (inl e) = ap (λ (q : ℕ × Message). q.1) e
each-same msg m h (k ∷ hs) (inr i) = each-same msg m h hs i

send_message-sent :
    (a : Agent) (channel_id body msg_id x : String) (now : ℕ) (ch : Channel.Channel)
    → IsDirect a
    → Channel.get a.channels channel_id ≡ some ch
    → ch.mode ≡ mode_p2p
    → In x (others a.id ch.members)
    → let msg = text_message msg_id a.id channel_id body now in
      send_message channel_id body msg_id now a
      ≡ some
          (record a { sent = a.sent ++ each msg (reached a.conns (others a.id ch.members)) }, ok tt)
unfolding send_message
send_message-sent a channel_id body msg_id x now ch d c p i =
    let msg = text_message msg_id a.id channel_id body now in
    let to = others a.id ch.members in
    elim (List-cases to) [
      | inl e ↦ absurd (ground (arith, e, i))
      | inr (y, ys, e) ↦ ground (arith, c, p, e, broadcast_to_members-reached to msg a d)
    ]

In-others :
    (self x : String) (members : List String)
    → In x (others self members) ↔ (In x members × (x ≢ self))
In-others self x members = (
  (λ i.
      let (there, q) = filter-In x (λ m. not (m == self)) members i in
      (there, ground (arith, q, string_eq.beq_iff x self))),
  (λ (there, n).
      In-filter x (λ m. not (m == self)) members there
        (ground (arith, n, string_eq.beq_iff x self))),
)

-- In a channel whose members talk to each other directly, where no connection of the agent is nil and
-- there is another member: a message is sent without error, and what is sent on a connection beside
-- what was sent before is that message, and exactly on the connections of the other members.
pub send_message-exact :
    (a : Agent) (channel_id body msg_id x : String) (now : ℕ) (ch : Channel.Channel)
    → IsDirect a
    → Channel.get a.channels channel_id ≡ some ch
    → ch.mode ≡ mode_p2p
    → In x ch.members
    → x ≢ a.id
    → (a' : Agent) × (send_message channel_id body msg_id now a ≡ some (a', ok tt))
      × ((h : ℕ) (m : Message)
          → In (h, m) a'.sent ↔ (
              In (h, m) a.sent
              ⊎ ((m ≡ text_message msg_id a.id channel_id body now)
                  × ((id : String) × In id ch.members
                      × (id ≢ a.id)
                      × (GoMap.get id a.conns ≡ some (direct h))))))
send_message-exact a channel_id body msg_id x now ch d c p i n =
    let msg = text_message msg_id a.id channel_id body now in
    let to = others a.id ch.members in
    (
      record a { sent = a.sent ++ each msg (reached a.conns to) },
      send_message-sent a channel_id body msg_id x now ch d c p
          ((In-others a.id x ch.members).1 (i, n)),
      (λ h m. (
        (λ j. elim ((In-append (h, m) a.sent (each msg (reached a.conns to))).0 j) [
          | inl before ↦ inl before
          | inr new ↦
              let e = each-same msg m h (reached a.conns to) new in
              let (id, there, g) =
                In-each to a.conns msg h
                  (subst (λ (q : Message). In (h, q) (each msg (reached a.conns to))) e new) in
              let (member, other) = (In-others a.id id ch.members).0 there in
              inr (e, (id, member, other, g))
        ]),
        (λ s. (In-append (h, m) a.sent (each msg (reached a.conns to))).1 (elim s [
          | inl before ↦ inl before
          | inr (e, (id, member, other, g)) ↦ inr (
              subst (λ (q : Message). In (h, q) (each msg (reached a.conns to))) (sym e)
                (each-In to a.conns msg h id ((In-others a.id id ch.members).1 (member, other)) g))
        ])),
      )),
    )
