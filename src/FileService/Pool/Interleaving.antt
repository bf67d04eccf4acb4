-- ===== src/FileService/Pool/Interleaving.antt =====
-- internal/fileservice/service.go: the order in which the steps of sendConcurrent interleave does not
-- matter for what it leaves.
use lan_a2a.Prelude.{
  map, refl, ◌∙◌, ◌⊎◌, ℕ, suc, ◌+◌, ◌<◌, ◌≡◌, sym, ap, subst, Bool, true, false, ◌||◌, List, [],
  ◌∷◌, ◌++◌, arith, nat_eq, string_eq, list_eq, length,
}
use lan_a2a.FileService.{
  map, launch, Launched, is_done, delivered, stopped, exhausted, chunk_failed, Attempt, Chunk, Env,
  WorkerEnd, worker, rounds, is_exhausted,
}
use mathlib.Core.List.{append-nil}
use lan_a2a.FileService.Workers.{worker-fuel}
use lan_a2a.FileService.Pool.{
  start_pool, active_count, Step, return_early, skip, begin, work, Reach, here, later, chunk_of,
  chunks_of, any_gave_up, Finished, Pool, Slot, skipped, active, ended, worker_round,
}

-- What a slot comes to when its worker runs on to its end.
abbrev settled : (ℕ → Attempt) → Slot → Chunk × Bool
settled o (skipped c) = (c, false)
settled o (active c) = ((worker o rounds c).0, is_exhausted (worker o rounds c).1)
settled o (ended c e) = (c, is_exhausted e)

-- What a pool comes to when every worker runs on, and then the loop.
predict : Env → ℕ → List Slot → List Chunk → Bool → Launched
predict env i [] waiting true = record { chunks = waiting; any_failed = false; returned = true }
predict env i [] waiting false = launch env i waiting
predict env i (s ∷ ss) waiting returned =
    let rest = predict env (i + 1) ss waiting returned in
    let (c, failed) = settled (env.outcome i) s in
    record {
      chunks = c ∷ rest.chunks;
      any_failed = failed || rest.any_failed;
      returned = rest.returned;
    }

-- What a worker that is at a slot's chunk comes to is `r`.
abbrev Continues : (ℕ → Attempt) → ℕ → Chunk × WorkerEnd → Slot → Type 0
Continues o fuel r (active c) = r ≡ worker o fuel c
Continues o fuel r (ended c e) = r ≡ (c, e)
Continues o fuel r (skipped c) = ⊥

-- The first of a worker's rounds, with fuel left for the others.
worker-round :
    (o : ℕ → Attempt) (fuel : ℕ) (c : Chunk)
    → 3 < fuel + 1 + c.retries
    → Continues o (suc fuel) (worker o (suc fuel) c) (worker_round o c)
unfolding worker_round worker
worker-round o fuel c h = ground (
  arith,
  worker-fuel o fuel (record c { retries = c.retries + 1 }),
  worker-fuel o fuel (record c { retries = c.retries + 1; status = chunk_failed }),
)

settled-Continues :
    (o : ℕ → Attempt) (c : Chunk) (slot : Slot)
    → Continues o rounds (worker o rounds c) slot
    → settled o slot ≡ settled o (active c)
settled-Continues o c (active c') h =
    ap (λ (r : Chunk × WorkerEnd). (r.0, is_exhausted r.1)) (sym h)
settled-Continues o c (ended c' e) h =
    ap (λ (r : Chunk × WorkerEnd). (r.0, is_exhausted r.1)) (sym h)
settled-Continues o c (skipped c') h = absurd h

settled-round : (o : ℕ → Attempt) (c : Chunk) → settled o (worker_round o c) ≡ settled o (active c)
settled-round o c = settled-Continues o c (worker_round o c) (worker-round o 3 c (omega arith))

predict-append :
    (env : Env) (i : ℕ) (xs ys : List Slot) (waiting waiting' : List Chunk) (r r' : Bool)
    → ((k : ℕ) → k ≡ i + length xs → predict env k ys waiting r ≡ predict env k [] waiting' r')
    → predict env i (xs ++ ys) waiting r ≡ predict env i xs waiting' r'
unfolding predict
predict-append env i [] ys waiting waiting' r r' h = h i (omega arith)
predict-append env i (x ∷ xs) ys waiting waiting' r r' h =
    let ih = predict-append env (i + 1) xs ys waiting waiting' r r' (λ k e. h k (omega arith)) in
    ground (arith, ih)

zero_add_lem : (i : ℕ) → 0 + i ≡ i
zero_add_lem i = omega arith

add_zero_lem : (i : ℕ) → i + 0 ≡ i
add_zero_lem i = omega arith

predict-replace :
    (env : Env) (i : ℕ) (xs ys : List Slot) (s t : Slot) (waiting : List Chunk) (r : Bool)
    → settled (env.outcome (i + length xs)) s ≡ settled (env.outcome (i + length xs)) t
    → predict env i (xs ++ s ∷ ys) waiting r ≡ predict env i (xs ++ t ∷ ys) waiting r
unfolding predict
predict-replace env i [] ys s t waiting r h =
    ground
      (arith, subst (λ k. settled (env.outcome k) s ≡ settled (env.outcome k) t) (add_zero_lem i) h)
predict-replace env i (x ∷ xs) ys s t waiting r h =
    let e : i + 1 + length xs ≡ i + length (x ∷ xs) = omega arith in
    ground (
      arith,
      predict-replace env (i + 1) xs ys s t waiting r
          (subst (λ k. settled (env.outcome k) s ≡ settled (env.outcome k) t) (sym e) h),
    )

predict-return :
    (env : Env) (k : ℕ) (c : Chunk) (rest : List Chunk)
    → env.closed_at k ≡ true
    → predict env k [] (c ∷ rest) true ≡ predict env k [] (c ∷ rest) false
unfolding predict launch
predict-return env k c rest h = ground arith

predict-skip :
    (env : Env) (k : ℕ) (c : Chunk) (rest : List Chunk)
    → env.closed_at k ≡ false
    → is_done c.status ≡ true
    → predict env k (skipped c ∷ []) rest false ≡ predict env k [] (c ∷ rest) false
unfolding predict launch
predict-skip env k c rest h d = ground arith

predict-begin :
    (env : Env) (k : ℕ) (c : Chunk) (rest : List Chunk)
    → env.closed_at k ≡ false
    → is_done c.status ≡ false
    → predict env k (active c ∷ []) rest false ≡ predict env k [] (c ∷ rest) false
unfolding predict launch
predict-begin env k c rest h d = ground arith

-- What a pool comes to.
abbrev prospect : Env → Pool → Launched
prospect env p = predict env 0 p.slots p.waiting p.returned

Step-prospect : (env : Env) (n : ℕ) (p q : Pool) → Step env n p q → prospect env q ≡ prospect env p
Step-prospect env n p q (return_early c rest o w k e) = ground (
  arith,
  e,
  o,
  w,
  append-nil p.slots,
  predict-append env 0 p.slots [] (c ∷ rest) (c ∷ rest) true false (λ j x.
      predict-return env j c rest
        (subst (λ (m : ℕ). env.closed_at m ≡ true) (sym (x ∙ zero_add_lem (length p.slots))) k)),
)
Step-prospect env n p q (skip c rest o w k d e) = ground (
  arith,
  e,
  o,
  w,
  predict-append env 0 p.slots (skipped c ∷ []) rest (c ∷ rest) false false (λ j x.
      predict-skip env j c rest
        (subst (λ (m : ℕ). env.closed_at m ≡ false) (sym (x ∙ zero_add_lem (length p.slots))) k) d),
)
Step-prospect env n p q (begin c rest o w k d room e) = ground (
  arith,
  e,
  o,
  w,
  predict-append env 0 p.slots (active c ∷ []) rest (c ∷ rest) false false (λ j x.
      predict-begin env j c rest
        (subst (λ (m : ℕ). env.closed_at m ≡ false) (sym (x ∙ zero_add_lem (length p.slots))) k) d),
)
Step-prospect env n p q (work before c after s e) =
    let o = env.outcome (length before) in
    let same =
      subst
        (λ (k : ℕ). settled (env.outcome k) (worker_round o c) ≡ settled (env.outcome k) (active c))
        (sym (zero_add_lem (length before))) (settled-round o c) in
    let replaced =
      predict-replace env 0 before after (worker_round o c) (active c) p.waiting p.returned same in
    ground (arith, e, s, replaced)

Reach-prospect :
    (env : Env) (n : ℕ) (p q : Pool) → Reach env n p q → prospect env q ≡ prospect env p
Reach-prospect env n p q here = refl
Reach-prospect env n p q (later {q = m} r s) =
    Step-prospect env n m q s ∙ Reach-prospect env n p m r

predict-ended :
    (env : Env) (i : ℕ) (slots : List Slot) (waiting : List Chunk) (returned : Bool)
    → active_count slots ≡ 0
    → (returned ≡ true) ⊎ (waiting ≡ [])
    → predict env i slots waiting returned ≡ record {
      chunks = map chunk_of slots ++ waiting;
      any_failed = any_gave_up slots;
      returned = returned;
    }
unfolding predict launch
predict-ended env i [] waiting true a e = refl
predict-ended env i [] [] false a e = refl
predict-ended env i [] (c ∷ waiting) false a e = ground (arith, e)
predict-ended env i (skipped c ∷ ss) waiting returned a e =
    ground (arith, predict-ended env (i + 1) ss waiting returned a e)
predict-ended env i (active c ∷ ss) waiting returned a e = absurd (omega arith)
predict-ended env i (ended c delivered ∷ ss) waiting returned a e =
    ground (arith, predict-ended env (i + 1) ss waiting returned a e)
predict-ended env i (ended c stopped ∷ ss) waiting returned a e =
    ground (arith, predict-ended env (i + 1) ss waiting returned a e)
predict-ended env i (ended c exhausted ∷ ss) waiting returned a e =
    ground (arith, predict-ended env (i + 1) ss waiting returned a e)

-- However the steps interleave, and however many workers run at a time: once the loop and all workers
-- have ended, the chunks, the variable `failed` and whether the loop returned early are those of the
-- run in which each worker runs to its end before the next one starts.
pub pool-launch :
    (env : Env) (n : ℕ) (chunks : List Chunk) (p : Pool)
    → Reach env n (start_pool chunks) p
    → Finished p
    → launch env 0 chunks
      ≡ record { chunks = chunks_of p; any_failed = any_gave_up p.slots; returned = p.returned }
unfolding start_pool predict
pool-launch env n chunks p r f =
    sym (Reach-prospect env n (start_pool chunks) p r)
    ∙ predict-ended env 0 p.slots p.waiting p.returned f.0 f.1
