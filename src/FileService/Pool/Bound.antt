-- ===== src/FileService/Pool/Bound.antt =====
-- internal/fileservice/service.go: the semaphore of sendConcurrent.
use lan_a2a.Prelude.{
  sym, ap, subst, refl, ◌∙◌, ℕ, ◌+◌, ◌≤◌, ◌≡◌, List, [], ◌∷◌, ◌++◌, arith, nat_eq, string_eq,
  list_eq, length,
}
use lan_a2a.FileService.{Chunk, Env}
use lan_a2a.FileService.Pool.{
  Slot, active, worker_round, released, skipped, ended, Pool, start_pool, active_count, Step,
  return_early, skip, begin, work, Reach, here, later,
}

pub active_count-append :
    (xs ys : List Slot) → active_count (xs ++ ys) ≡ active_count xs + active_count ys
active_count-append [] ys = omega arith
active_count-append (x ∷ xs) ys = ground (arith, active_count-append xs ys)

-- A value less in `sem` for a worker less.
released-count :
    (before after : List Slot) (c : Chunk) (w : Slot)
    → released (active_count (before ++ active c ∷ after)) w ≡ active_count (before ++ w ∷ after)
released-count before after c (active d) = ground (
  arith,
  active_count-append before (active d ∷ after),
  active_count-append before (active c ∷ after),
)
released-count before after c (skipped d) = ground (
  arith,
  active_count-append before (skipped d ∷ after),
  active_count-append before (active c ∷ after),
)
released-count before after c (ended d e) = ground (
  arith,
  active_count-append before (ended d e ∷ after),
  active_count-append before (active c ∷ after),
)

-- One value in `sem` for each worker that runs, and as many as fit.
abbrev pub Counts : ℕ → Pool → Type 0
Counts n p = (p.sem ≡ active_count p.slots) × (p.sem ≤ n)

released-le : (n : ℕ) (w : Slot) → released n w ≤ n
released-le n (active d) = omega arith
released-le n (skipped d) = omega arith
released-le n (ended d e) = omega arith

Step-Counts : (env : Env) (n : ℕ) (p q : Pool) → Step env n p q → Counts n p → Counts n q
Step-Counts env n p q (return_early c rest o w k e) (b, l) =
    (ground (arith, e, b), ground (arith, e, l))
Step-Counts env n p q (skip c rest o w k d e) (b, l) =
    (ground (arith, e, b, active_count-append p.slots (skipped c ∷ [])), ground (arith, e, l))
Step-Counts env n p q (begin c rest o w k d room e) (b, l) =
    (ground (arith, e, b, active_count-append p.slots (active c ∷ [])), ground (arith, e, room))
Step-Counts env n p q (work before c after s e) (b, l) =
    let slot = worker_round (env.outcome (length before)) c in
    (
      ap Pool.sem e
          ∙ ap (λ (k : ℕ). released k slot) (b ∙ ap active_count s)
          ∙ released-count before after c slot
          ∙ sym (ap (λ (r : Pool). active_count r.slots) e),
      subst (λ (r : Pool). r.sem ≤ n) (sym e)
          (let g = released-le p.sem slot in omega (arith, g, l)),
    )

pub Reach-Counts :
    (env : Env) (n : ℕ) (chunks : List Chunk) (p : Pool)
    → Reach env n (start_pool chunks) p
    → Counts n p
unfolding start_pool
Reach-Counts env n chunks p here = (refl, omega arith)
Reach-Counts env n chunks p (later {q = q} r s) =
    Step-Counts env n q p s (Reach-Counts env n chunks q r)

-- However the steps of a run of sendConcurrent interleave, the values in its channel `sem` are as many as
-- its workers that run; so no more of these run at a time than the channel has room for. Another run has
-- a channel of its own.
pub active_count-le-max :
    (env : Env) (n : ℕ) (chunks : List Chunk) (p : Pool)
    → Reach env n (start_pool chunks) p
    → (p.sem ≡ active_count p.slots) × (active_count p.slots ≤ n)
active_count-le-max env n chunks p r =
    let (same, room) = Reach-Counts env n chunks p r in (same, subst (λ (k : ℕ). k ≤ n) same room)
