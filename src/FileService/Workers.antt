-- ===== src/FileService/Workers.antt =====
-- Retries, final statuses and resumption in internal/fileservice/service.go.
use lan_a2a.Prelude.{
  ℕ, zero, suc, ◌+◌, ◌≤◌, ◌<◌, ◌≡◌, refl, ◌≢◌, ◌⊎◌, inl, true, false, List, [], ◌∷◌, arith, nat_eq,
  string_eq, list_eq, All,
}
use lan_a2a.FileService.{
  Attempt, Chunk, Env, chunk_done, chunk_failed, delivered, exhausted, halted, is_done,
  is_exhausted, launch, rounds, stopped, worker,
}

-- More fuel than rounds left changes nothing: the fuel of the model is enough.
pub worker-fuel :
    (o : ℕ → Attempt) (fuel : ℕ) (c : Chunk)
    → 3 < fuel + c.retries
    → worker o fuel c ≡ worker o (suc fuel) c
unfolding worker
worker-fuel o zero c h = ground arith
worker-fuel o (suc fuel) c h = ground (
  arith,
  worker-fuel o fuel (record c { retries = c.retries + 1 }),
  worker-fuel o fuel (record c { retries = c.retries + 1; status = chunk_failed }),
)

-- How a worker ends: it delivered the chunk, it was stopped, or it has made three retries.
worker_ends :
    (o : ℕ → Attempt) (fuel : ℕ) (c : Chunk)
    → 3 < fuel + c.retries
    → let (c', ending) = worker o fuel c in
      ((ending ≡ delivered) × (c'.status ≡ chunk_done))
      ⊎ ((ending ≡ stopped) × (o c'.retries ≡ halted))
      ⊎ ((ending ≡ exhausted) × (3 ≤ c'.retries))
unfolding worker
worker_ends o zero c h = ground arith
worker_ends o (suc fuel) c h = ground (
  arith,
  worker_ends o fuel (record c { retries = c.retries + 1 }),
  worker_ends o fuel (record c { retries = c.retries + 1; status = chunk_failed }),
)

-- All chunks are done.
abbrev pub AllDone : List Chunk → Type 0
AllDone = All (λ c. is_done c.status ≡ true)

-- Some chunk is not done after three retries.
abbrev pub GivenUp : List Chunk → Type 0
GivenUp [] = ⊥
GivenUp (c ∷ cs) = ((is_done c.status ≡ false) × (3 ≤ c.retries)) ⊎ GivenUp cs

-- `done` is never closed while the transfer runs.
pub record IsUndisturbed (env : Env) : Type 0 where
  pub open_ : (i : ℕ) → env.closed_at i ≡ false
  pub going : (i r : ℕ) → env.outcome i r ≢ halted

-- A chunk that is not done, with fuel left: a worker that gave up did not mark it done.
worker_status :
    (o : ℕ → Attempt) (fuel : ℕ) (c : Chunk)
    → is_done c.status ≡ false
    → is_exhausted (worker o fuel c).1 ≡ true
    → is_done (worker o fuel c).0.status ≡ false
unfolding worker
worker_status o zero c h e = h
worker_status o (suc fuel) c h e = ground (
  arith,
  worker_status o fuel (record c { retries = c.retries + 1 }) h,
  worker_status o fuel (record c { retries = c.retries + 1; status = chunk_failed }) refl,
)

pub launch-undisturbed :
    (env : Env) (i : ℕ) (cs : List Chunk)
    → IsUndisturbed env
    → let l = launch env i cs in
      (l.returned ≡ false)
      × (((l.any_failed ≡ false) × AllDone l.chunks) ⊎ ((l.any_failed ≡ true) × GivenUp l.chunks))
unfolding launch
launch-undisturbed env i [] u = (refl, inl (refl, tt))
launch-undisturbed env i (c ∷ cs) u = ground (
  arith,
  u.open_ i,
  launch-undisturbed env (i + 1) cs u,
  worker_ends (env.outcome i) rounds c (omega arith),
  worker_status (env.outcome i) rounds c,
  u.going i (worker (env.outcome i) rounds c).0.retries,
)
