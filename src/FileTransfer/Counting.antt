-- ===== src/FileTransfer/Counting.antt =====
-- Distinct chunk indices below a bound: there are at most so many, and so many are all.
use lan_a2a.Prelude.{
  ◌∙◌, ℕ, zero, suc, ◌≤◌, ◌<◌, ◌≡◌, refl, ap, inl, inr, true, false, not, List, [], ◌∷◌, arith,
  Bool-cases, nat_eq, string_eq, list_eq, length, filter, All, contains, Distinct, contains-filter,
}
use lan_a2a.Prelude.Int.{ℤ, pos, negsuc, int_eq}

abbrev pub IsBelow : ℕ → ℤ → Type 0
IsBelow n (pos k) = k < n
IsBelow n (negsuc k) = ⊥

abbrev but : ℤ → List ℤ → List ℤ
but a = filter (λ z. not (int_eq.beq z a))

but-absent : (a : ℤ) (zs : List ℤ) → contains a zs ≡ false → but a zs ≡ zs
but-absent a [] h = refl
but-absent a (z ∷ zs) h = ground (arith, but-absent a zs, int_eq.beq_iff a z, int_eq.beq_iff z a)

length-but : (a : ℤ) (zs : List ℤ) → Distinct zs → length zs ≤ suc (length (but a zs))
length-but a [] h = omega arith
length-but a (z ∷ zs) h = ground (
  arith,
  length-but a zs h.1,
  ap (length {A = ℤ}),
  but-absent a zs,
  int_eq.beq_iff a z,
  int_eq.beq_iff z a,
)

Distinct-but : (a : ℤ) (zs : List ℤ) → Distinct zs → Distinct (but a zs)
Distinct-but a [] h = tt
Distinct-but a (z ∷ zs) h =
    ground (arith, Distinct-but a zs h.1, contains-filter z (λ y. not (int_eq.beq y a)) zs)

but-IsBelow : (n : ℕ) (zs : List ℤ) → All (IsBelow (suc n)) zs → All (IsBelow n) (but (pos n) zs)
but-IsBelow n [] h = tt
but-IsBelow n (pos k ∷ zs) h = ground (arith, but-IsBelow n zs h.1)
but-IsBelow n (negsuc k ∷ zs) h = absurd h.0

pub length-le-below : (n : ℕ) (zs : List ℤ) → Distinct zs → All (IsBelow n) zs → length zs ≤ n
length-le-below zero [] d b = omega arith
length-le-below zero (pos k ∷ zs) d b = absurd (omega arith)
length-le-below zero (negsuc k ∷ zs) d b = absurd b.0
length-le-below (suc n) zs d b = omega (
  arith,
  length-but (pos n) zs d,
  length-le-below n (but (pos n) zs) (Distinct-but (pos n) zs d) (but-IsBelow n zs b),
)

-- As many distinct indices as there are chunks are all of them.
pub contains_of_length :
    (n k : ℕ) (zs : List ℤ)
    → Distinct zs
    → All (IsBelow n) zs
    → n ≤ length zs
    → k < n
    → contains (pos k) zs ≡ true
contains_of_length n k zs d b h lt = elim (Bool-cases (contains (pos k) zs)) [
  | inl e ↦ e
  | inr e ↦ absurd (omega (arith, length-le-below n (pos k ∷ zs) (e, d) (lt, b)))
]

but-shorter : (a : ℤ) (zs : List ℤ) → contains a zs ≡ true → suc (length (but a zs)) ≤ length zs
but-shorter a [] h = absurd (ground (arith, h))
but-shorter a (z ∷ zs) h =
    ground (arith, but-shorter a zs, but-at_most a zs, int_eq.beq_iff a z, int_eq.beq_iff z a)
  where
    but-at_most : (b : ℤ) (ys : List ℤ) → length (but b ys) ≤ length ys
    but-at_most b [] = omega arith
    but-at_most b (y ∷ ys) = ground (arith, but-at_most b ys)

-- All indices below `n` are at least `n` indices.
pub le-length_of_all :
    (n : ℕ) (zs : List ℤ) → ((k : ℕ) → k < n → contains (pos k) zs ≡ true) → n ≤ length zs
le-length_of_all zero zs h = omega arith
le-length_of_all (suc n) zs h = omega (
  arith,
  but-shorter (pos n) zs (h n (omega arith)),
  le-length_of_all n (but (pos n) zs) (λ k lt.
      contains-filter (pos k) (λ z. not (int_eq.beq z (pos n))) zs
      ∙ ground (arith, h k (omega arith))),
)
