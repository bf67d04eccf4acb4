-- ===== src/FileService/Outcome.antt =====
-- What a transfer of internal/fileservice/service.go comes to: completion, failure, resumption, and
-- what pausing, cancelling and stopping do to it.
use lan_a2a.Prelude.{
  ℕ, zero, suc, ◌+◌, ◌≤◌, ◌<◌, String, ◌≡◌, refl, ◌⊎◌, inl, inr, true, false, some, List, [], ◌∷◌,
  arith, Option-cases, nat_eq, string_eq, list_eq, length, All, get_elem?,
}
use lan_a2a.Prelude.GoMap
use lan_a2a.Prelude.GoMap.{get-put}
use lan_a2a.FileService.{
  paused, Attempt, Chunk, Env, FileService, Transfer, TransferStatus, completed, exhausted, failed,
  finish, get_transfer, halted, is_done, launch, pause_transfer, cancel_transfer, rounds,
  send_concurrent, worker, stopped,
}
use lan_a2a.FileService.Workers.{AllDone, GivenUp, IsUndisturbed, launch-undisturbed}

-- A transfer that runs undisturbed ends as completed with every chunk done, or as failed with a
-- chunk that is not done after three retries.
pub send_concurrent-outcome :
    (env : Env) (now : ℕ) (t : Transfer)
    → IsUndisturbed env
    → let t' = send_concurrent env now t in
      ((t'.status ≡ completed) × AllDone t'.chunks) ⊎ ((t'.status ≡ failed) × GivenUp t'.chunks)
unfolding send_concurrent
send_concurrent-outcome env now t u = ground (arith, launch-undisturbed env 0 t.chunks u)

launch-keeps_done :
    (env : Env) (i k : ℕ) (cs : List Chunk) (c : Chunk)
    → get_elem? cs k ≡ some c
    → is_done c.status ≡ true
    → get_elem? (launch env i cs).chunks k ≡ some c
unfolding launch
launch-keeps_done env i k [] c e d = cc
launch-keeps_done env i zero (x ∷ cs) c e d = ground arith
launch-keeps_done env i (suc k) (x ∷ cs) c e d =
    ground (arith, launch-keeps_done env (i + 1) k cs c)

length-launch : (env : Env) (i : ℕ) (cs : List Chunk) → length (launch env i cs).chunks ≡ length cs
unfolding launch
length-launch env i [] = refl
length-launch env i (c ∷ cs) = ground (arith, length-launch env (i + 1) cs)

-- Whatever happens, a transfer keeps its number of chunks, and a chunk that is done is left as it is:
-- resuming a transfer does not send it again.
pub send_concurrent-keeps_done :
    (env : Env) (now : ℕ) (t : Transfer)
    → (length (send_concurrent env now t).chunks ≡ length t.chunks)
      × ((k : ℕ) (c : Chunk)
          → get_elem? t.chunks k ≡ some c
          → is_done c.status ≡ true
          → get_elem? (send_concurrent env now t).chunks k ≡ some c)
unfolding send_concurrent
send_concurrent-keeps_done env now t = ground (arith, length-launch env 0 t.chunks, keeps)
  where
    keeps :
        (k : ℕ) (c : Chunk)
        → get_elem? t.chunks k ≡ some c
        → is_done c.status ≡ true
        → get_elem? (launch env 0 t.chunks).chunks k ≡ some c
    keeps k c = launch-keeps_done env 0 k t.chunks c

worker_given_up :
    (o : ℕ → Attempt) (fuel : ℕ) (c : Chunk) → 3 ≤ c.retries → worker o fuel c ≡ (c, exhausted)
unfolding worker
worker_given_up o zero c h = refl
worker_given_up o (suc fuel) c h = ground arith

launch-open :
    (env : Env) (i : ℕ) (cs : List Chunk)
    → ((j : ℕ) → env.closed_at j ≡ false)
    → (launch env i cs).returned ≡ false
unfolding launch
launch-open env i [] u = refl
launch-open env i (c ∷ cs) u = ground (arith, u i, launch-open env (i + 1) cs u)

launch-GivenUp :
    (env : Env) (i : ℕ) (cs : List Chunk)
    → ((j : ℕ) → env.closed_at j ≡ false)
    → GivenUp cs
    → let l = launch env i cs in (l.returned ≡ false) × (l.any_failed ≡ true) × GivenUp l.chunks
unfolding launch
launch-GivenUp env i [] u g = absurd g
launch-GivenUp env i (c ∷ cs) u (inl g) =
    ground (arith, u i, launch-open env (i + 1) cs u, worker_given_up (env.outcome i) rounds c g.1)
launch-GivenUp env i (c ∷ cs) u (inr g) = ground (arith, u i, launch-GivenUp env (i + 1) cs u g)

-- The status that a run ends with is its own: a status set while it runs is overwritten.
send_concurrent-status :
    (env : Env) (now : ℕ) (t : Transfer) (status : TransferStatus)
    → (launch env 0 t.chunks).returned ≡ false
    → send_concurrent env now (record t { status = status }) ≡ send_concurrent env now t
unfolding send_concurrent
send_concurrent-status env now t status h = ground (arith, h)

-- A chunk that has used up its retries is never tried again: resuming a transfer that has one ends as
-- failed, although every send would succeed now.
pub send_concurrent-GivenUp :
    (env : Env) (now : ℕ) (t : Transfer)
    → ((j : ℕ) → env.closed_at j ≡ false)
    → GivenUp t.chunks
    → ((send_concurrent env now t).status ≡ failed) × GivenUp (send_concurrent env now t).chunks
unfolding send_concurrent
send_concurrent-GivenUp env now t u g = ground (arith, launch-GivenUp env 0 t.chunks u g)

-- Pausing or cancelling a transfer that is being sent has no effect on how it ends, unless the
-- service is stopped: the transfer ends as it would have ended without the call.
pub finish-set_status :
    (fs : FileService) (env : Env) (now : ℕ) (id : String)
    → ((j : ℕ) → env.closed_at j ≡ false)
    → (get_transfer (finish (pause_transfer fs id).0 env now id) id
        ≡ get_transfer (finish fs env now id) id)
      × (get_transfer (finish (cancel_transfer fs id).0 env now id) id
          ≡ get_transfer (finish fs env now id) id)
unfolding finish pause_transfer cancel_transfer get_transfer
finish-set_status fs env now id u = elim (Option-cases (GoMap.get id fs.transfers)) [
  | inl e ↦ ground (arith, e)
  | inr (t, e) ↦ ground (
    arith,
    e,
    get-put id id (record t { status = paused }) fs.transfers,
    get-put id id (record t { status = failed }) fs.transfers,
    string_eq.beq_iff id id,
    send_concurrent-status env now t paused (launch-open env 0 t.chunks u),
    send_concurrent-status env now t failed (launch-open env 0 t.chunks u),
    get-put id id (send_concurrent env now t) fs.transfers,
    get-put id id (send_concurrent env now (record t { status = paused }))
        (GoMap.put id (record t { status = paused }) fs.transfers),
    get-put id id (send_concurrent env now (record t { status = failed }))
        (GoMap.put id (record t { status = failed }) fs.transfers),
  )
]

worker_halted :
    (o : ℕ → Attempt) (c : Chunk)
    → o c.retries ≡ halted
    → c.retries < 3
    → worker o rounds c ≡ (c, stopped)
unfolding worker
worker_halted o c h few = ground arith

-- Every worker that is stopped in its first round leaves its chunk as it was.
launch-stopped :
    (env : Env) (i : ℕ) (cs : List Chunk)
    → ((j : ℕ) → env.closed_at j ≡ false)
    → ((j r : ℕ) → env.outcome j r ≡ halted)
    → All (λ c. c.retries < 3) cs
    → launch env i cs ≡ record { chunks = cs; any_failed = false; returned = false }
unfolding launch
launch-stopped env i [] u h few = refl
launch-stopped env i (c ∷ cs) u h few = ground (
  arith,
  u i,
  worker_halted (env.outcome i) c (h i c.retries),
  launch-stopped env (i + 1) cs u h few.1,
)

-- When `done` is closed after the last chunk was launched and before any was sent, the transfer ends
-- as completed although nothing was sent.
pub send_concurrent-stopped :
    (env : Env) (now : ℕ) (t : Transfer)
    → ((j : ℕ) → env.closed_at j ≡ false)
    → ((j r : ℕ) → env.outcome j r ≡ halted)
    → All (λ c. c.retries < 3) t.chunks
    → ((send_concurrent env now t).status ≡ completed)
      × ((send_concurrent env now t).chunks ≡ t.chunks)
unfolding send_concurrent
send_concurrent-stopped env now t u h few = ground (arith, launch-stopped env 0 t.chunks u h few)
