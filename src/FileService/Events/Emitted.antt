-- ===== src/FileService/Events/Emitted.antt =====
-- internal/fileservice/service.go with internal/plugins/plugins.go: what a hook sees of a transfer.
use lan_a2a.Prelude.{
  zero, suc, ◌+◌, String, ◌≡◌, refl, subst, ◌≢◌, ◌⊎◌, inl, inr, true, false, none, some, List, [],
  ◌∷◌, sym, ap, ◌∙◌, not, ◌&&◌, if◌then◌else◌, ℕ, ◌++◌, map, arith, Bool-cases, Option-cases,
  nat_eq, string_eq, list_eq, length, All,
}
use mathlib.Core.List.{append-nil}
use lan_a2a.Prelude.GoMap
use lan_a2a.Prelude.GoMap.{GoMap}
use lan_a2a.FileService.{
  Attempt, Chunk, Env, Transfer, chunk_failed, delivered, stopped, exhausted, done_count, is_done,
  launch, rounds, send_concurrent, worker,
}
use lan_a2a.Plugins.{
  Event, Hook, Manager, nil, value, emit, emit_to, run_hooks, call, on, new_manager,
}
use lan_a2a.FileService.Events.{
  chunk_done_type, transfer_done_type, event_of, worker_event, chunk_events, send_events, emit_all,
}

-- How the worker of a chunk that was not done ends, with what it leaves.
worker-delivered :
    (o : ℕ → Attempt) (fuel : ℕ) (c : Chunk)
    → is_done c.status ≡ false
    → ((worker o fuel c).1 ≡ delivered) × (is_done (worker o fuel c).0.status ≡ true)
      ⊎ (((worker o fuel c).1 ≡ stopped) × (is_done (worker o fuel c).0.status ≡ false))
      ⊎ (((worker o fuel c).1 ≡ exhausted) × (is_done (worker o fuel c).0.status ≡ false))
unfolding worker
worker-delivered o zero c d = ground (arith, d)
worker-delivered o (suc fuel) c d = ground (
  arith,
  d,
  worker-delivered o fuel (record c { retries = c.retries + 1 }),
  worker-delivered o fuel (record c { retries = c.retries + 1; status = chunk_failed }) refl,
)

length-chunk_events :
    (env : Env) (k : ℕ) (peer_id : String) (i : ℕ) (cs : List Chunk)
    → done_count (launch env i cs).chunks ≡ length (chunk_events env k peer_id i cs) + done_count cs
unfolding launch chunk_events worker_event done_count
length-chunk_events env k peer_id i [] = refl
length-chunk_events env k peer_id i (c ∷ cs) = elim (Bool-cases (is_done c.status)) [
  | inl d ↦ ground (arith, d, length-chunk_events env k peer_id (i + 1) cs)
  | inr n ↦ ground (
    arith,
    n,
    worker-delivered (env.outcome i) rounds c n,
    length-chunk_events env k peer_id (i + 1) cs,
  )
]

-- A manager with one hook, for delivered chunks.
abbrev pub listening : ℕ → Hook → Manager
listening j hook = on chunk_done_type (j, hook) new_manager

emit-delivered :
    (j : ℕ) (hook : Hook) (e e' : Event)
    → e.type ≡ chunk_done_type
    → hook e ≡ some e'
    → emit e (listening j hook) ≡ some (e', (j, e) ∷ [])
unfolding emit emit_to run_hooks call on GoMap.get GoMap.put
emit-delivered j hook e e' t h = ground (arith, t, h, string_eq.beq_iff chunk_done_type e.type)

emit-finished :
    (j : ℕ) (hook : Hook) (k : ℕ) (peer_id : String)
    → let e = event_of transfer_done_type k nil peer_id in emit e (listening j hook) ≡ some (e, [])
unfolding emit emit_to run_hooks call on GoMap.get GoMap.put
emit-finished j hook k peer_id = refl

-- The event of a delivered chunk of this transfer, as it goes to this peer.
abbrev pub IsDelivery : ℕ → String → Event → Type 0
IsDelivery k peer_id e =
    (e.type ≡ chunk_done_type) × (e.transfer ≡ value false k) × (e.peer_id ≡ peer_id)

chunk_events-IsDelivery :
    (env : Env) (k : ℕ) (peer_id : String) (i : ℕ) (cs : List Chunk)
    → All (IsDelivery k peer_id) (chunk_events env k peer_id i cs)
unfolding chunk_events worker_event
chunk_events-IsDelivery env k peer_id i [] = tt
chunk_events-IsDelivery env k peer_id i (c ∷ cs) =
    ground (arith, chunk_events-IsDelivery env k peer_id (i + 1) cs)

-- The places of the chunks that were not done and are done now.
abbrev pub newly : ℕ → List Chunk → List Chunk → List ℕ
newly i (c ∷ cs) (d ∷ ds) =
    let rest = newly (i + 1) cs ds in
    if not (is_done c.status) && is_done d.status then i ∷ rest else rest
newly i _ _ = []

newly-same : (i : ℕ) (cs : List Chunk) → newly i cs cs ≡ []
newly-same i [] = refl
newly-same i (c ∷ cs) = ground (arith, newly-same (i + 1) cs)

-- The event of a delivered chunk.
abbrev pub delivery : ℕ → String → ℕ → Event
delivery k peer_id i = record {
  type = "chunk.done";
  transfer = value false k;
  chunk = value false i;
  peer_id = peer_id;
  folder = "";
  diff = nil;
  result = nil;
  payload = [];
}

chunk_events-newly :
    (env : Env) (k : ℕ) (peer_id : String) (i : ℕ) (cs : List Chunk)
    → chunk_events env k peer_id i cs
      ≡ map (delivery k peer_id) (newly i cs (launch env i cs).chunks)
unfolding launch chunk_events worker_event
chunk_events-newly env k peer_id i [] = refl
chunk_events-newly env k peer_id i (c ∷ cs) = elim (Bool-cases (env.closed_at i)) [
  | inl closed ↦ ground (arith, closed, newly-same i (c ∷ cs))
  | inr more ↦ elim (Bool-cases (is_done c.status)) [
    | inl d ↦ ground (arith, more, d, chunk_events-newly env k peer_id (i + 1) cs)
    | inr n ↦ ground (
      arith,
      more,
      n,
      worker-delivered (env.outcome i) rounds c n,
      chunk_events-newly env k peer_id (i + 1) cs,
    )
  ]
]

-- The calls of a hook, one for each event.
abbrev pub calls_of : ℕ → List Event → List (ℕ × Event)
calls_of j es = map (λ e. (j, e)) es

emit_all-deliveries :
    (j : ℕ) (hook : Hook) (k : ℕ) (peer_id : String) (es rest : List Event)
    → ((e : Event) → hook e ≢ none)
    → All (IsDelivery k peer_id) es
    → emit_all rest (listening j hook) ≡ some []
    → emit_all (es ++ rest) (listening j hook) ≡ some (calls_of j es)
unfolding emit_all
emit_all-deliveries j hook k peer_id [] rest total a r = r
emit_all-deliveries j hook k peer_id (e ∷ es) rest total a r = elim (Option-cases (hook e)) [
  | inl h ↦ absurd (total e h)
  | inr (e', h) ↦
      rw
        (
          emit_all,
          emit-delivered j hook e e' a.0.0 h,
          emit_all-deliveries j hook k peer_id es rest total a.1 r,
        )
        refl
]

emit_all-finished :
    (j : ℕ) (hook : Hook) (k : ℕ) (peer_id : String)
    → emit_all (event_of transfer_done_type k nil peer_id ∷ []) (listening j hook) ≡ some []
unfolding emit_all
emit_all-finished j hook k peer_id = rw (emit_all, emit-finished j hook k peer_id) refl

emit_all-none : (j : ℕ) (hook : Hook) → emit_all [] (listening j hook) ≡ some []
unfolding emit_all
emit_all-none j hook = refl

send_events-calls :
    (env : Env) (k j : ℕ) (hook : Hook) (peer_id : String) (t : Transfer)
    → ((e : Event) → hook e ≢ none)
    → emit_all (send_events env k peer_id t) (listening j hook)
      ≡ some (calls_of j (chunk_events env k peer_id 0 t.chunks))
unfolding send_events
send_events-calls env k j hook peer_id t total =
    let es = chunk_events env k peer_id 0 t.chunks in
    let all = chunk_events-IsDelivery env k peer_id 0 t.chunks in
    elim (Bool-cases (launch env 0 t.chunks).returned) [
      | inl r ↦
          rw (send_events, r)
            (subst (λ (l : List Event). emit_all l (listening j hook) ≡ some (calls_of j es))
              (append-nil es)
              (emit_all-deliveries j hook k peer_id es [] total all (emit_all-none j hook)))
      | inr r ↦
          rw (send_events, r)
            (emit_all-deliveries j hook k peer_id es _ total all
              (emit_all-finished j hook k peer_id))
    ]

map-calls_of :
    (j k : ℕ) (peer_id : String) (is : List ℕ)
    → calls_of j (map (delivery k peer_id) is) ≡ map (λ (i : ℕ). (j, delivery k peer_id i)) is
map-calls_of j k peer_id [] = refl
map-calls_of j k peer_id (i ∷ is) =
    ap (λ (l : List (ℕ × Event)). (j, delivery k peer_id i) ∷ l) (map-calls_of j k peer_id is)

length-delivery :
    (k : ℕ) (peer_id : String) (is : List ℕ) → length (map (delivery k peer_id) is) ≡ length is
length-delivery k peer_id [] = refl
length-delivery k peer_id (i ∷ is) = ap (λ (n : ℕ). suc n) (length-delivery k peer_id is)

chunks-send_concurrent :
    (env : Env) (now : ℕ) (t : Transfer)
    → (send_concurrent env now t).chunks ≡ (launch env 0 t.chunks).chunks
unfolding send_concurrent
chunks-send_concurrent env now t = ground arith

-- A hook that is registered for delivered chunks with a manager that has no plugin and no other hook,
-- and that does not panic, is called exactly once for each chunk that a run of a transfer completes,
-- with the event of this chunk, of the transfer and of its peer, and for nothing else, whether the run
-- ends or returns early. There are as many calls as chunks that are done after the run and were not
-- before.
pub send_events-completed :
    (env : Env) (now k j : ℕ) (hook : Hook) (peer_id : String) (t : Transfer)
    → ((e : Event) → hook e ≢ none)
    → let after = (send_concurrent env now t).chunks in
      let completed_now = newly 0 t.chunks after in
      (emit_all (send_events env k peer_id t) (listening j hook)
        ≡ some (map (λ (i : ℕ). (j, delivery k peer_id i)) completed_now))
      × (done_count after ≡ length completed_now + done_count t.chunks)
send_events-completed env now k j hook peer_id t total =
    let chunks = (launch env 0 t.chunks).chunks in
    let same = chunk_events-newly env k peer_id 0 t.chunks in
    (
      send_events-calls env k j hook peer_id t total
          ∙ ap (λ (es : List Event). some (calls_of j es)) same
          ∙ ap some (map-calls_of j k peer_id (newly 0 t.chunks chunks))
          ∙ ap
              (λ (l : List Chunk).
                some (map (λ (i : ℕ). (j, delivery k peer_id i)) (newly 0 t.chunks l)))
              (sym (chunks-send_concurrent env now t)),
      ground (
        arith,
        chunks-send_concurrent env now t,
        length-chunk_events env k peer_id 0 t.chunks,
        same,
        length-delivery k peer_id (newly 0 t.chunks chunks),
      ),
    )
