-- ===== src/RelayClient/Loops.antt =====
-- internal/relay/client.go: the ping loops and the query loops, over several connections.
use lan_a2a.Prelude.{
  ℕ, zero, suc, ◌+◌, ◌*◌, String, ◌≡◌, refl, ap, subst, ◌∙◌, Bool, true, ◌&&◌, ◌||◌, Option, none,
  some, List, [], ◌∷◌, arith, ltb, if◌then◌else◌, nat_eq, string_eq, list_eq, length, filter,
}
use lan_a2a.Protocol.{MsgType, Message, message, ping, query_online}
use lan_a2a.RelayClient.{Client, Dial, connect, is_register_ok, new_client, query_online_now, send}

-- One tick of `pingLoop`; `id` is a new identifier.
unfoldable pub send_ping : Client → String → Option Client
send_ping c id = send c (message ping id c.agent_id)

-- A number of loops, each of which sends once.
unfoldable pub each_loop : (Client → Option Client) → ℕ → Client → Option Client
each_loop act zero c = some c
each_loop act (suc n) c = elim (act c) [ none ↦ none | some c' ↦ each_loop act n c' ]

-- What every `pingLoop` that runs sends over a number of its ticks, and every `queryLoop`, which sends
-- once more, before its first tick.
unfoldable pub ping_run : ℕ → String → Client → Option Client
unfolding send_ping each_loop
ping_run ticks id c = each_loop (each_loop (λ c'. send_ping c' id) ticks) c.ping_loops c

unfoldable pub query_run : ℕ → String → Client → Option Client
unfolding each_loop
query_run ticks id c =
    each_loop (each_loop (λ c'. query_online_now c' id) (ticks + 1)) c.query_loops c

-- What the first connection and the reconnections meet, one after the other.
unfoldable pub connect_all : List Dial → Client → Client
connect_all [] c = c
connect_all (d ∷ ds) c = connect_all ds (connect c d).0

-- The dials that lead to a connection.
abbrev pub succeeds : Dial → Bool
succeeds d = d.dials && (d.sends && is_register_ok d.answer)

abbrev pub successes : List Dial → ℕ
successes ds = length (filter succeeds ds)

-- What connecting again and again adds up to.
abbrev Adds : ℕ → Client → Client → Type 0
Adds n c c' =
    (c'.ping_loops ≡ c.ping_loops + n)
    × (c'.query_loops ≡ c.query_loops + n)
    × (c'.has_conn ≡ (c.has_conn || ltb 0 n))
    × (c'.sent ≡ c.sent)
    × (c'.agent_id ≡ c.agent_id)
    × (c'.done_closed ≡ c.done_closed)

connect-Adds : (c : Client) (d : Dial) → Adds (if succeeds d then 1 else 0) c (connect c d).0
unfolding connect
connect-Adds c d = ground arith

Adds-then : (m n : ℕ) (c c' c'' : Client) → Adds m c c' → Adds n c' c'' → Adds (m + n) c c''
Adds-then m n c c' c'' a b = ground (arith, a, b)

successes-cons :
    (d : Dial) (ds : List Dial) → (if succeeds d then 1 else 0) + successes ds ≡ successes (d ∷ ds)
successes-cons d ds = ground arith

connect_all-Adds : (ds : List Dial) (c : Client) → Adds (successes ds) c (connect_all ds c)
unfolding connect_all
connect_all-Adds [] c = ground arith
connect_all-Adds (d ∷ ds) c =
    subst (λ (n : ℕ). Adds n c (connect_all ds (connect c d).0)) (successes-cons d ds)
      (Adds-then _ (successes ds) c (connect c d).0 (connect_all ds (connect c d).0)
        (connect-Adds c d) (connect_all-Adds ds (connect c d).0))

-- A message that a number of loops send, in front of what was sent.
abbrev pub times : ℕ → Message → List Message → List Message
times zero msg sent = sent
times (suc n) msg sent = times n msg (msg ∷ sent)

each_loop-times :
    (act : Client → Option Client) (msg : Message) (n : ℕ) (c : Client)
    → ((sent : List Message)
        → act (record c { sent = sent }) ≡ some (record c { sent = msg ∷ sent }))
    → each_loop act n c ≡ some (record c { sent = times n msg c.sent })
unfolding each_loop
each_loop-times act msg zero c h = refl
each_loop-times act msg (suc n) c h =
    rw (each_loop, h c.sent) (each_loop-times act msg n (record c { sent = msg ∷ c.sent }) h)

times-none :
    (k : ℕ) (msg : Message) (c : Client)
    → some c ≡ some (record c { sent = times (0 * k) msg c.sent })
times-none k msg c =
    ap (λ (j : ℕ). some (record c { sent = times j msg c.sent })) {x = 0} {y = 0 * k} (omega arith)

times-times :
    (m k : ℕ) (msg : Message) (sent : List Message)
    → times m msg (times k msg sent) ≡ times (m + k) msg sent
times-times m zero msg sent = ap (λ (j : ℕ). times j msg sent) {x = m} {y = m + 0} (omega arith)
times-times m (suc k) msg sent =
    times-times m k msg (msg ∷ sent) ∙ ap (λ (j : ℕ). times j msg sent) (shift m k)
  where
    shift : (a b : ℕ) → suc (a + b) ≡ a + suc b
    shift a b = omega arith

each_loop-each_loop :
    (act : Client → Option Client) (msg : Message) (k n : ℕ) (c : Client)
    → ((sent : List Message)
        → act (record c { sent = sent }) ≡ some (record c { sent = msg ∷ sent }))
    → each_loop (each_loop act k) n c ≡ some (record c { sent = times (n * k) msg c.sent })
unfolding each_loop
each_loop-each_loop act msg k zero c h = times-none k msg c
each_loop-each_loop act msg k (suc n) c h =
    let c' : Client = record c { sent = times k msg c.sent } in
    ap
      (λ (r : Option Client).
        let out : Option Client = elim r [
          | none ↦ none
          | some c1 ↦ each_loop (each_loop act k) n c1
        ] in
        out)
      (each_loop-times act msg k c h)
    ∙ each_loop-each_loop act msg k n c' h
    ∙ ap (λ (l : List Message). some (record c { sent = l }))
        (times-times (n * k) k msg c.sent ∙ ap (λ (j : ℕ). times j msg c.sent) (once_more n k))
  where
    once_more : (a b : ℕ) → a * b + b ≡ suc a * b
    once_more a b = ground arith

-- A client that has a connection, or else no loops.
loops-send :
    (act : Client → Option Client) (msg : Message) (k n : ℕ) (c : Client)
    → c.has_conn ≡ ltb 0 n
    → ((sent : List Message)
        → c.has_conn ≡ true
        → act (record c { sent = sent }) ≡ some (record c { sent = msg ∷ sent }))
    → each_loop (each_loop act k) n c ≡ some (record c { sent = times (n * k) msg c.sent })
unfolding each_loop
loops-send act msg k zero c e h = times-none k msg c
loops-send act msg k (suc n) c e h =
    each_loop-each_loop act msg k (suc n) c (λ sent. h sent (ground (arith, e)))

send-sends :
    (c : Client) (msg : Message) (sent : List Message)
    → c.has_conn ≡ true
    → send (record c { sent = sent }) msg ≡ some (record c { sent = msg ∷ sent })
unfolding send
send-sends c msg sent h = rw (send, h) refl

times-same :
    (type : MsgType) (id self : String) (k m n : ℕ) (c : Client)
    → m ≡ n
    → c.agent_id ≡ self
    → c.sent ≡ []
    → times (m * k) (message type id c.agent_id) c.sent ≡ times (n * k) (message type id self) []
times-same type id self k m n c e f g =
    ap (λ (j : ℕ). times (j * k) (message type id c.agent_id) c.sent) e
    ∙ ap (λ (a : String). times (n * k) (message type id a) c.sent) f
    ∙ ap (λ (l : List Message). times (n * k) (message type id self) l) g

-- A client that connects again and again has one ping loop and one query loop for every time that it has
-- connected: over a number of ticks of its ping loops it sends that many pings for each of these times,
-- and over as many ticks of its query loops that many queries and one more for each.
pub connect_all-repeats :
    (ds : List Dial) (agent_id id : String) (ticks : ℕ)
    → let c = connect_all ds (new_client agent_id) in
      let n = successes ds in
      (ping_run ticks id c
        ≡ some (record c { sent = times (n * ticks) (message ping id agent_id) [] }))
      × (query_run ticks id c
          ≡ some
              (record c { sent = times (n * (ticks + 1)) (message query_online id agent_id) [] }))
unfolding new_client ping_run query_run send_ping query_online_now
connect_all-repeats ds agent_id id ticks =
    let c = connect_all ds (new_client agent_id) in
    let (pings, queries, conn, sent, self, open_) = connect_all-Adds ds (new_client agent_id) in
    let pinged = message ping id c.agent_id in
    let queried = message query_online id c.agent_id in
    (
      loops-send (λ c'. send_ping c' id) pinged ticks c.ping_loops c (ground (arith, pings, conn))
            (λ l h. send-sends c pinged l h)
          ∙ ap (λ (l : List Message). some (record c { sent = l }))
              (times-same ping id agent_id ticks c.ping_loops (successes ds) c
                (omega (arith, pings)) self sent),
      loops-send (λ c'. query_online_now c' id) queried (ticks + 1) c.query_loops c
            (ground (arith, queries, conn)) (λ l h. send-sends c queried l h)
          ∙ ap (λ (l : List Message). some (record c { sent = l }))
              (times-same query_online id agent_id (ticks + 1) c.query_loops (successes ds) c
                (omega (arith, queries)) self sent),
    )
