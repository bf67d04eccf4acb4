-- ===== src/FileService/Pool/Progress.antt =====
-- internal/fileservice/service.go: sendConcurrent comes to an end, however its steps interleave.
use lan_a2a.Prelude.{
  ℕ, ◌+◌, ◌-◌, ◌*◌, ◌≤◌, ◌<◌, ◌≡◌, refl, ap, ◌⊎◌, inl, inr, true, false, List, [], ◌∷◌, ◌++◌, arith,
  if◌then◌else◌, Bool-cases, nat_eq, string_eq, list_eq, length,
}
use lan_a2a.FileService.{Attempt, Chunk, Env, is_done}
use lan_a2a.FileService.Pool.Bound.{Reach-Counts}
use lan_a2a.FileService.Pool.{
  Slot, skipped, active, ended, worker_round, Pool, start_pool, active_count, Step, return_early,
  worked, skip, begin, work, Reach, here, later, reached, Finished,
}

-- The rounds and ends that are left to a slot's worker, at most.
abbrev slot_left : Slot → ℕ
slot_left (active c) = 1 + (3 - c.retries)
slot_left _ = 0

abbrev slots_left : List Slot → ℕ
slots_left [] = 0
slots_left (s ∷ ss) = slot_left s + slots_left ss

abbrev steps_left : Pool → ℕ
steps_left p = slots_left p.slots + 5 * length p.waiting + (if p.returned then 0 else 1)

slots_left-append : (xs ys : List Slot) → slots_left (xs ++ ys) ≡ slots_left xs + slots_left ys
slots_left-append [] ys = omega arith
slots_left-append (x ∷ xs) ys = omega (arith, slots_left-append xs ys)

worker_round-lt :
    (o : ℕ → Attempt) (c : Chunk) → slot_left (worker_round o c) < slot_left (active c)
unfolding worker_round
worker_round-lt o c = ground arith

Step-lt : (env : Env) (n : ℕ) (p q : Pool) → Step env n p q → steps_left q < steps_left p
Step-lt env n p q (return_early c rest o w k e) = ground (arith, e, o)
Step-lt env n p q (skip c rest o w k d e) =
    ground (arith, e, o, w, slots_left-append p.slots (skipped c ∷ []))
Step-lt env n p q (begin c rest o w k d room e) =
    ground (arith, e, o, w, slots_left-append p.slots (active c ∷ []))
Step-lt env n p q (work before c after s e) = ground (
  arith,
  e,
  s,
  slots_left-append before (active c ∷ after),
  slots_left-append before (worker_round (env.outcome (length before)) c ∷ after),
  worker_round-lt (env.outcome (length before)) c,
)

-- The first worker that is running, if one is.
first_active :
    (slots : List Slot)
    → (active_count slots ≡ 0)
      ⊎ ((before : List Slot) × (c : Chunk) × (after : List Slot) × (slots
            ≡ before ++ active c ∷ after))
first_active [] = inl refl
first_active (active c ∷ ss) = inr ([], c, ss, refl)
first_active (skipped c ∷ ss) = elim (first_active ss) [
  | inl none_left ↦ inl none_left
  | inr (before, d, after, e) ↦ inr (skipped c ∷ before, d, after, ap (λ r. skipped c ∷ r) e)
]
first_active (ended c w ∷ ss) = elim (first_active ss) [
  | inl none_left ↦ inl none_left
  | inr (before, d, after, e) ↦ inr (ended c w ∷ before, d, after, ap (λ r. ended c w ∷ r) e)
]

loop-Step :
    (env : Env) (n : ℕ) (p : Pool) (c : Chunk) (rest : List Chunk)
    → p.sem < n
    → p.returned ≡ false
    → p.waiting ≡ c ∷ rest
    → (q : Pool) × Step env n p q
loop-Step env n p c rest room o w = elim (Bool-cases (env.closed_at (length p.slots))) [
  | inl k ↦ (record p { returned = true }, return_early c rest o w k refl)
  | inr k ↦ elim (Bool-cases (is_done c.status)) [
    | inl d ↦ (reached p (skipped c) rest, skip c rest o w k d refl)
    | inr d ↦
        (record (reached p (active c) rest) { sem = p.sem + 1 }, begin c rest o w k d room refl)
  ]
]

List-cases : (xs : List Chunk) → (xs ≡ []) ⊎ ((y : Chunk) × (ys : List Chunk) × (xs ≡ y ∷ ys))
List-cases [] = inl refl
List-cases (y ∷ ys) = inr (y, ys, refl)

progress :
    (env : Env) (n : ℕ) (p : Pool)
    → 0 < n
    → p.sem ≡ active_count p.slots
    → Finished p ⊎ ((q : Pool) × Step env n p q)
progress env n p room counts = elim (first_active p.slots) [
  | inr (before, c, after, e) ↦ inr (worked env p before c after, work before c after e refl)
  | inl quiet ↦ elim (Bool-cases p.returned) [
    | inl r ↦ inl (quiet, inl r)
    | inr r ↦ elim (List-cases p.waiting) [
      | inl w ↦ inl (quiet, inr w)
      | inr (c, rest, w) ↦ inr (loop-Step env n p c rest (omega arith) r w)
    ]
  ]
]

abbrev pub steps : {env : Env} {n : ℕ} {p q : Pool} → Reach env n p q → ℕ
steps here = 0
steps (later r s) = steps r + 1

steps-le :
    (env : Env) (n : ℕ) (p q : Pool) (r : Reach env n p q) → steps r + steps_left q ≤ steps_left p
steps-le env n p q here = omega arith
steps-le env n p q (later {q = m} r s) = omega (arith, steps-le env n p m r, Step-lt env n m q s)

-- Where at least one worker may run, sendConcurrent ends: however its steps interleave, there are at
-- most five for each chunk and one more, and as long as it has not ended some step can be made.
pub pool_ends :
    (env : Env) (n : ℕ) (chunks : List Chunk) (p : Pool)
    → 0 < n
    → (r : Reach env n (start_pool chunks) p)
    → (steps r ≤ 5 * length chunks + 1) × (Finished p ⊎ ((q : Pool) × Step env n p q))
unfolding start_pool
pool_ends env n chunks p room r = (
  omega (arith, steps-le env n (start_pool chunks) p r),
  progress env n p room (Reach-Counts env n chunks p r).0,
)
