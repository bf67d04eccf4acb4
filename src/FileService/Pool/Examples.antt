-- ===== src/FileService/Pool/Examples.antt =====
-- internal/fileservice/service.go: the theorems about the pool of workers, with two workers for two
-- chunks.
use lan_a2a.Prelude.{
  ℕ, ◌+◌, ◌*◌, ◌≤◌, ◌≡◌, refl, ◌⊎◌, inr, false, List, [], ◌∷◌, arith, nat_eq, string_eq, list_eq,
  length,
}
use lan_a2a.FileService.{Chunk, Env, launch, chunk_done, chunk_pending, sent, delivered}
use lan_a2a.FileService.Pool.{
  Slot, active, ended, worker_round, Pool, start_pool, active_count, Step, begin, work, Reach, here,
  later, Finished, chunks_of, any_gave_up,
}
use lan_a2a.FileService.Pool.Bound.{active_count-le-max}
use lan_a2a.FileService.Pool.Interleaving.{pool-launch}
use lan_a2a.FileService.Pool.Progress.{steps, pool_ends}

-- Every attempt succeeds; `done` stays open.
abbrev calm : Env
calm = record { closed_at = λ i. false; outcome = λ i r. sent }

abbrev part : ℕ → Chunk
part i = record {
  index = i;
  offset = i * 65536;
  size = 65536;
  hash = "h";
  status = chunk_pending;
  retries = 0;
}

abbrev pool_of : List Slot → List Chunk → Pool
pool_of slots waiting = record {
  slots = slots;
  waiting = waiting;
  returned = false;
  sem = active_count slots;
}

abbrev sent_part : ℕ → Slot
sent_part i = ended (record (part i) { status = chunk_done }) delivered

abbrev both_running : Pool
both_running = pool_of (active (part 0) ∷ active (part 1) ∷ []) []

both_run : Reach calm 2 (start_pool (part 0 ∷ part 1 ∷ [])) both_running
unfolding start_pool
both_run =
    later {q = pool_of (active (part 0) ∷ []) (part 1 ∷ [])}
      (later here (begin (part 0) (part 1 ∷ []) refl refl refl refl (omega arith) refl))
      (begin (part 1) [] refl refl refl refl (omega arith) refl)

abbrev both_sent : Pool
both_sent = pool_of (sent_part 0 ∷ sent_part 1 ∷ []) []

-- The second worker ends first.
both_end : Reach calm 2 (start_pool (part 0 ∷ part 1 ∷ [])) both_sent
unfolding worker_round
both_end =
    later {q = pool_of (active (part 0) ∷ sent_part 1 ∷ []) []}
      (later both_run (work (active (part 0) ∷ []) (part 1) [] refl refl))
      (work [] (part 0) (sent_part 1 ∷ []) refl refl)

active_count-le-max_example :
    (both_running.sem ≡ active_count both_running.slots) × (active_count both_running.slots ≤ 2)
active_count-le-max_example =
    active_count-le-max calm 2 (part 0 ∷ part 1 ∷ []) both_running both_run

pool-launch_example : launch calm 0 (part 0 ∷ part 1 ∷ []) ≡ record {
  chunks = chunks_of both_sent;
  any_failed = any_gave_up both_sent.slots;
  returned = both_sent.returned;
}
pool-launch_example = pool-launch calm 2 (part 0 ∷ part 1 ∷ []) both_sent both_end (refl, inr refl)

pool_ends_example :
    (steps both_run ≤ 5 * length (part 0 ∷ part 1 ∷ []) + 1)
    × (Finished both_running ⊎ ((q : Pool) × Step calm 2 both_running q))
pool_ends_example = pool_ends calm 2 (part 0 ∷ part 1 ∷ []) both_running (omega arith) both_run
