-- ===== src/Agent/Connections.antt =====
-- cmd/lan-a2a/main.go: the connections that the agent opens and closes.
use lan_a2a.Prelude.{
  ℕ, String, ◌≡◌, inl, inr, true, false, none, some, arith, Result-cases, is_some, nat_eq,
  string_eq, list_eq, ok,
}
use lan_a2a.Prelude.GoMap
use lan_a2a.Prelude.GoMap.{get-put, get-del}
use lan_a2a.Peers.{Handshake}
use lan_a2a.Peers
use lan_a2a.Agent.{Agent, Conn, direct, relayed, open_connection, close_connection}

open_lan :
    (a a' : Agent) (id : String) (h : Handshake) (conn : ℕ)
    → GoMap.get id a.conns ≡ none
    → is_some (GoMap.get id a.lan_online) ≡ true
    → open_connection id h conn a ≡ (a', ok tt)
    → GoMap.get id a'.conns ≡ some (direct conn)
unfolding open_connection
open_lan a a' id h conn n l e = elim (Result-cases (Peers.open_conn id h a.peers a.peers).1) [
  | inl (addr, r) ↦
      ground (arith, n, l, e, r, get-put id id (direct conn) a.conns, string_eq.beq_iff id id)
  | inr (why, r) ↦ ground (arith, n, l, e, r)
]

open_relayed :
    (a a' : Agent) (id : String) (h : Handshake) (conn : ℕ)
    → GoMap.get id a.conns ≡ none
    → is_some (GoMap.get id a.lan_online) ≡ false
    → open_connection id h conn a ≡ (a', ok tt)
    → GoMap.get id a'.conns ≡ some relayed
unfolding open_connection
open_relayed a a' id h conn n l e =
    ground (arith, n, l, e, get-put id id relayed a.conns, string_eq.beq_iff id id)

-- After a connection was opened to a peer that had none: closing it removes it if the peer is on the
-- local network; for a peer that only the relay names, closing it panics.
close_connection-open_connection :
    (a a' : Agent) (id : String) (h : Handshake) (conn : ℕ)
    → GoMap.get id a.conns ≡ none
    → open_connection id h conn a ≡ (a', ok tt)
    → (is_some (GoMap.get id a.lan_online) ≡ true
        → (end : Agent) × (close_connection id a' ≡ some (end, ok tt))
          × (GoMap.get id end.conns ≡ none))
      × (is_some (GoMap.get id a.lan_online) ≡ false → close_connection id a' ≡ none)
unfolding close_connection
close_connection-open_connection a a' id h conn n e = (
  (λ l. (
    record a' { conns = GoMap.del id a'.conns },
    ground (arith, open_lan a a' id h conn n l e),
    ground (arith, get-del {V = Conn} id id a'.conns, string_eq.beq_iff id id),
  )),
  (λ l. ground (arith, open_relayed a a' id h conn n l e)),
)
