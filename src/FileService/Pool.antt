-- ===== src/FileService/Pool.antt =====
-- internal/fileservice/service.go: sendConcurrent as interleaved steps. The loop over the chunks skips
-- a chunk that is done, or waits for a place among the workers and starts one; a worker makes one
-- round of its loop at a time. What a worker meets is an `Env`, as in the run of all workers.
pub mod Bound
pub mod Interleaving
pub mod Progress
mod Examples
use lan_a2a.Prelude.{
  ℕ, zero, suc, ◌+◌, ◌-◌, ◌*◌, ◌/◌, ◌%◌, ◌^◌, ◌≤◌, ◌<◌, String, ◌≡◌, refl, sym, ap, subst, ◌∙◌, ◌≢◌,
  ◌↔◌, ◌⊎◌, inl, inr, Bool, true, false, not, ◌&&◌, ◌||◌, Option, none, some, List, [], ◌∷◌, ◌++◌,
  map, arith, ltb, leb, if◌then◌else◌, Bool-cases, Option-cases, Result-cases, is_some, Eq, ◌==◌,
  nat_eq, string_eq, list_eq, beq_self, beq_ne, Result, ok, err, ◌>>=◌, length, take, drop, filter,
  All, get_elem?, In, In-filter, filter-In, contains, Distinct, length-append, contains-append,
  contains-filter, Bytes, codes,
}
use lan_a2a.FileService.{
  Attempt, halted, unreadable, unsent, sent, Chunk, chunk_done, chunk_failed, Env, WorkerEnd,
  delivered, stopped, exhausted, is_done, Transfer,
}

-- A chunk that the loop has reached: skipped, with a worker, or left by a worker that has ended.
pub data Slot : Type 0 where
  skipped : Chunk → Slot
  active : Chunk → Slot
  ended : Chunk → WorkerEnd → Slot

-- One round of a worker: the test `c.Retries < 3`, and the attempt.
unfoldable pub worker_round : (ℕ → Attempt) → Chunk → Slot
worker_round outcome c = elim (ltb c.retries 3) [
  | false ↦ ended c exhausted
  | true ↦ elim (outcome c.retries) [
    | halted ↦ ended c stopped
    | unreadable ↦ active (record c { retries = c.retries + 1 })
    | unsent ↦ active (record c { retries = c.retries + 1; status = chunk_failed })
    | sent ↦ ended (record c { status = chunk_done }) delivered
  ]
]

-- The chunks that the loop has reached, in order, those before it, whether it returned early, and the
-- values in the channel `sem`, which has room for `max_workers` and belongs to this run alone.
pub record Pool : Type 0 where
  pub slots : List Slot
  pub waiting : List Chunk
  pub returned : Bool
  pub sem : ℕ

unfoldable pub start_pool : List Chunk → Pool
start_pool chunks = record { slots = []; waiting = chunks; returned = false; sem = 0 }

abbrev pub is_active : Slot → Bool
is_active (active c) = true
is_active _ = false

-- The workers that run.
abbrev pub active_count : List Slot → ℕ
active_count [] = 0
active_count (s ∷ ss) = if is_active s then active_count ss + 1 else active_count ss

-- The chunk that the loop has reached goes to the slots.
abbrev pub reached : Pool → Slot → List Chunk → Pool
reached p slot rest = record p { slots = p.slots ++ slot ∷ []; waiting = rest }

-- What a worker leaves in `sem` after a round: when it ends, it receives one value from it.
abbrev pub released : ℕ → Slot → ℕ
released n (active c) = n
released n (skipped c) = n - 1
released n (ended c e) = n - 1

-- A round of the worker between these slots.
abbrev pub worked : Env → Pool → List Slot → Chunk → List Slot → Pool
worked env p before c after =
    let slot = worker_round (env.outcome (length before)) c in
    record p { slots = before ++ slot ∷ after; sem = released p.sem slot }

-- The steps. The loop starts a worker once it can send to `sem`.
pub data Step (env : Env) (max_workers : ℕ) (p q : Pool) : Type 0 where
  return_early :
      (c : Chunk) (rest : List Chunk)
      → p.returned ≡ false
      → p.waiting ≡ c ∷ rest
      → env.closed_at (length p.slots) ≡ true
      → q ≡ record p { returned = true }
      → Step env max_workers p q
  skip :
      (c : Chunk) (rest : List Chunk)
      → p.returned ≡ false
      → p.waiting ≡ c ∷ rest
      → env.closed_at (length p.slots) ≡ false
      → is_done c.status ≡ true
      → q ≡ reached p (skipped c) rest
      → Step env max_workers p q
  begin :
      (c : Chunk) (rest : List Chunk)
      → p.returned ≡ false
      → p.waiting ≡ c ∷ rest
      → env.closed_at (length p.slots) ≡ false
      → is_done c.status ≡ false
      → p.sem < max_workers
      → q ≡ record (reached p (active c) rest) { sem = p.sem + 1 }
      → Step env max_workers p q
  work :
      (before : List Slot) (c : Chunk) (after : List Slot)
      → p.slots ≡ before ++ active c ∷ after
      → q ≡ worked env p before c after
      → Step env max_workers p q

pub data Reach (env : Env) (max_workers : ℕ) (p : Pool) : Pool → Type 0 where
  here : Reach env max_workers p p
  later :
      {q r : Pool}
      → Reach env max_workers p q
      → Step env max_workers q r
      → Reach env max_workers p r

-- `wg.Wait()` returns: the loop has ended and every worker too.
abbrev pub Finished : Pool → Type 0
Finished p = (active_count p.slots ≡ 0) × ((p.returned ≡ true) ⊎ (p.waiting ≡ []))

abbrev pub chunk_of : Slot → Chunk
chunk_of (skipped c) = c
chunk_of (active c) = c
chunk_of (ended c e) = c

-- The chunks of the transfer.
abbrev pub chunks_of : Pool → List Chunk
chunks_of p = map chunk_of p.slots ++ p.waiting

abbrev gave_up : Slot → Bool
gave_up (ended c exhausted) = true
gave_up _ = false

-- The variable `failed`.
abbrev pub any_gave_up : List Slot → Bool
any_gave_up [] = false
any_gave_up (s ∷ ss) = gave_up s || any_gave_up ss
