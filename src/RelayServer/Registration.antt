-- ===== src/RelayServer/Registration.antt =====
-- cmd/lan-relay/main.go: a registration replaces the open connection of an agent.
use lan_a2a.Prelude.{
  ℕ, String, ◌≡◌, refl, sym, ap, subst, ◌∙◌, ◌≢◌, inl, inr, true, false, none, some, [], arith,
  Bool-cases, Option-cases, ◌==◌, nat_eq, string_eq, list_eq, beq_self,
}
use lan_a2a.Prelude.GoMap
use lan_a2a.Prelude.GoMap.{GoMap, get-put, get-del}
use lan_a2a.RelayServer.{Outcome, register_agent, AgentConn, Server, proceeds}
use lan_a2a.RelayServer.Liveness.{IsLive, Registered, close_done-open}

abbrev pub new_conn : String → AgentConn
new_conn id = record { id = id; is_closed = false; channels = [] }

-- Registering over nobody, or over a connection that is open: the server that results.
abbrev pub registered : Server → ℕ → String → Server
registered s h id = record s {
  agents = GoMap.put id h s.agents;
  conns = GoMap.put h (new_conn id) s.conns;
}

abbrev pub closed : Server → ℕ → AgentConn → Server
closed s h ac = record s { conns = GoMap.put h (record ac { is_closed = true }) s.conns }

registered-IsLive :
    (s : Server) (h : ℕ) (id : String)
    → GoMap.get h s.conns ≡ none
    → ((k : String) (j : ℕ) → GoMap.get k s.agents ≡ some j → k ≢ id → Registered s k j)
    → ((j : ℕ) (ac : AgentConn)
        → GoMap.get j s.conns ≡ some ac
        → ac.is_closed ≡ false
        → (ac.id ≢ id) × (GoMap.get ac.id s.agents ≡ some j))
    → IsLive (registered s h id)
registered-IsLive s h id fresh alive only = record {
  alive = λ k j e. elim (Bool-cases (id == k)) [
    | inl same ↦ (
      new_conn id,
      ground (arith, get-put id k h s.agents, get-put h j (new_conn id) s.conns, e),
      ground (arith, string_eq.beq_iff id k),
      refl,
    )
    | inr other ↦
        let (ac, found, named, still) =
          alive k j (ground (arith, get-put id k h s.agents, e))
            (λ p. ground (arith, string_eq.beq_iff id k, p)) in
        (ac, ground (arith, get-put h j (new_conn id) s.conns), named, still)
  ];
  only = λ j ac found still. ground (
    arith,
    get-put h j (new_conn id) s.conns,
    only j ac,
    get-put id ac.id h s.agents,
    string_eq.beq_iff id ac.id,
  );
}

-- Where nobody is registered under an ID, no open connection is that agent's.
pub only-none :
    (s : Server) (id : String) (j : ℕ) (ac : AgentConn)
    → IsLive s
    → GoMap.get id s.agents ≡ none
    → GoMap.get j s.conns ≡ some ac
    → ac.is_closed ≡ false
    → (ac.id ≢ id) × (GoMap.get ac.id s.agents ≡ some j)
only-none s id j ac v e f still = (
  λ p. ground (arith, v.only j ac f still, ap (λ (k : String). GoMap.get k s.agents) p, e),
  v.only j ac f still,
)

-- Once the registered connection is closed, no open connection is the agent's.
pub only-closed :
    (s : Server) (id : String) (old j : ℕ) (ac0 ac : AgentConn)
    → IsLive s
    → GoMap.get id s.agents ≡ some old
    → GoMap.get j (closed s old ac0).conns ≡ some ac
    → ac.is_closed ≡ false
    → (ac.id ≢ id) × (GoMap.get ac.id s.agents ≡ some j)
only-closed s id old j ac0 ac v e f still = elim (Bool-cases (old == j)) [
  | inl same ↦
      absurd (ground (arith, get-put old j (record ac0 { is_closed = true }) s.conns, f, still))
  | inr other ↦
      let f' : GoMap.get j s.conns ≡ some ac =
        ground (arith, get-put old j (record ac0 { is_closed = true }) s.conns, f) in
      (
        (λ p. ground (
          arith,
          v.only j ac f' still,
          ap (λ (k : String). GoMap.get k s.agents) p,
          e,
          nat_eq.beq_iff old j,
        )),
        v.only j ac f' still,
      )
]

-- The other agents' connections are as they were.
pub alive-closed :
    (s : Server) (id k : String) (old j : ℕ) (ac0 : AgentConn)
    → IsLive s
    → GoMap.get old s.conns ≡ some ac0
    → ac0.id ≡ id
    → GoMap.get k s.agents ≡ some j
    → k ≢ id
    → Registered (closed s old ac0) k j
alive-closed s id k old j ac0 v found named e n =
    let (ac, f, who, still) = v.alive k j e in
    (
      ac,
      ground (
        arith,
        get-put old j (record ac0 { is_closed = true }) s.conns,
        f,
        found,
        who,
        named,
        n,
        ap (λ (h : ℕ). GoMap.get h s.conns) {x = old} {y = j},
      ),
      who,
      still,
    )

pub fresh-closed :
    (s : Server) (old h : ℕ) (ac : AgentConn)
    → GoMap.get old s.conns ≡ some ac
    → GoMap.get h s.conns ≡ none
    → GoMap.get h (closed s old ac).conns ≡ none
fresh-closed s old h ac f n = ground (
  arith,
  get-put old h (record ac { is_closed = true }) s.conns,
  f,
  n,
  ap (λ (k : ℕ). GoMap.get k s.conns) {x = old} {y = h},
)

-- What a registration does: it never panics, and it leaves a live server in which the fresh connection
-- is the agent's.
abbrev pub Registers : ℕ → String → Server × Outcome → Type 0
Registers h id r = (r.1 ≡ proceeds) × IsLive r.0 × (GoMap.get id r.0.agents ≡ some h)

pub register_agent-new :
    (s : Server) (h : ℕ) (id : String)
    → GoMap.get id s.agents ≡ none
    → register_agent s h id ≡ (registered s h id, proceeds)
unfolding register_agent
register_agent-new s h id e = ground (arith, e)

pub register_agent-over :
    (s : Server) (h old : ℕ) (id : String) (ac : AgentConn)
    → GoMap.get id s.agents ≡ some old
    → GoMap.get old s.conns ≡ some ac
    → ac.is_closed ≡ false
    → register_agent s h id ≡ (registered (closed s old ac) h id, proceeds)
unfolding register_agent
register_agent-over s h old id ac e f c = ground (arith, e, close_done-open s old ac f c)

pub register_agent-Registers :
    (s : Server) (h : ℕ) (id : String)
    → GoMap.get h s.conns ≡ none
    → IsLive s
    → Registers h id (register_agent s h id)
register_agent-Registers s h id fresh v = elim (Option-cases (GoMap.get id s.agents)) [
  | inl e ↦ subst (Registers h id) (sym (register_agent-new s h id e)) (
    refl,
    registered-IsLive s h id fresh (λ k j f n. v.alive k j f)
        (λ j ac f still. only-none s id j ac v e f still),
    get-put id id h s.agents ∙ rw (beq_self id) refl,
  )
  | inr (old, e) ↦
      let (ac0, found0, named0, still0) = v.alive id old e in
      subst (Registers h id) (sym (register_agent-over s h old id ac0 e found0 still0)) (
        refl,
        registered-IsLive (closed s old ac0) h id (fresh-closed s old h ac0 found0 fresh)
            (λ k j f n. alive-closed s id k old j ac0 v found0 named0 f n)
            (λ j ac f still. only-closed s id old j ac0 ac v e f still),
        get-put id id h s.agents ∙ rw (beq_self id) refl,
      )
]

-- The connection of a registration starts with no channels, and the index is as it was.
pub register_agent-conn :
    (s : Server) (h : ℕ) (id : String)
    → IsLive s
    → (GoMap.get h (register_agent s h id).0.conns ≡ some (new_conn id))
      × ((register_agent s h id).0.channel_index ≡ s.channel_index)
register_agent-conn s h id v = elim (Option-cases (GoMap.get id s.agents)) [
  | inl e ↦
      rw (register_agent-new s h id e)
        (get-put h h (new_conn id) s.conns ∙ rw (beq_self h) refl, refl)
  | inr (old, e) ↦
      let (ac0, found0, named0, still0) = v.alive id old e in
      rw (register_agent-over s h old id ac0 e found0 still0)
        (get-put h h (new_conn id) (closed s old ac0).conns ∙ rw (beq_self h) refl, refl)
]
