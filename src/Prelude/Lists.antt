-- ===== src/Prelude/Lists.antt =====
-- Lists measured by native numbers, searched by an equality, and predicates on them by recursion.
use Prim.Native.Nat.{ℕ, zero, suc, ◌+◌}
use mathlib.Core.Path.{◌≡◌, refl, ap}
use mathlib.Core.Option.{Option, none, some}
use mathlib.Core.Logic.{◌⊎◌}
use mathlib.Core.Bool.{Bool, true, false, ◌||◌, ◌&&◌}
use mathlib.Core.List.{List, [], ◌∷◌, ◌++◌}
use native.Mathlib.Omega.{arith}
use lan_a2a.Prelude.Tests.{Eq, if◌then◌else◌}

module _ {ℓ} {A : Type ℓ} where
  abbrev pub length : List A → ℕ
  length [] = 0
  length (x ∷ xs) = suc (length xs)

  abbrev pub take : ℕ → List A → List A
  take zero xs = []
  take (suc n) [] = []
  take (suc n) (x ∷ xs) = x ∷ take n xs

  abbrev pub drop : ℕ → List A → List A
  drop zero xs = xs
  drop (suc n) [] = []
  drop (suc n) (x ∷ xs) = drop n xs

  abbrev pub get_elem? : List A → ℕ → Option A
  get_elem? [] i = none
  get_elem? (x ∷ xs) zero = some x
  get_elem? (x ∷ xs) (suc i) = get_elem? xs i

  -- The elements that pass a Boolean test.
  abbrev pub filter : (A → Bool) → List A → List A
  filter p [] = []
  filter p (x ∷ xs) = if p x then x ∷ filter p xs else filter p xs

  abbrev pub All {κ} : (A → Type κ) → List A → Type κ
  All P [] = Unit
  All P (x ∷ xs) = P x × All P xs

  pub length-append : (xs ys : List A) → length (xs ++ ys) ≡ length xs + length ys
  length-append [] ys = omega arith
  length-append (x ∷ xs) ys = omega (arith, length-append xs ys)

module _ {ℓ} {A : Type ℓ} ⦃e : Eq A⦄ where
  abbrev pub contains : A → List A → Bool
  contains a [] = false
  contains a (x ∷ xs) = e.beq a x || contains a xs

  -- No element stands twice.
  abbrev pub Distinct : List A → Type 0
  Distinct [] = Unit
  Distinct (x ∷ xs) = (contains x xs ≡ false) × Distinct xs

  pub contains-append :
      (a : A) (xs ys : List A) → contains a (xs ++ ys) ≡ (contains a xs || contains a ys)
  contains-append a [] ys = refl
  contains-append a (x ∷ xs) ys = ground (arith, contains-append a xs ys)

  pub Distinct-append_one :
      (x : A) (xs : List A) → Distinct xs → contains x xs ≡ false → Distinct (xs ++ x ∷ [])
  Distinct-append_one x [] d h = (refl, tt)
  Distinct-append_one x (y ∷ xs) d h = ground (
    arith,
    Distinct-append_one x xs d.1,
    contains-append y xs (x ∷ []),
    e.beq_iff x y,
    e.beq_iff y x,
  )

  pub contains-filter :
      (a : A) (p : A → Bool) (xs : List A) → contains a (filter p xs) ≡ (p a && contains a xs)
  contains-filter a p [] = ground arith
  contains-filter a p (x ∷ xs) =
      ground (arith, contains-filter a p xs, e.beq_iff a x, λ (h : a ≡ x). ap p h)

module _ {A : Type 0} where
  -- `a` is an element of the list, at a position that the proof shows.
  abbrev pub In : A → List A → Type 0
  In a [] = ⊥
  In a (x ∷ xs) = (a ≡ x) ⊎ In a xs

  pub In-filter : (a : A) (p : A → Bool) (xs : List A) → In a xs → p a ≡ true → In a (filter p xs)
  In-filter a p [] h e = h
  In-filter a p (x ∷ xs) h e = ground (arith, In-filter a p xs, λ (q : a ≡ x). ap p q)

  pub filter-In : (a : A) (p : A → Bool) (xs : List A) → In a (filter p xs) → In a xs × (p a ≡ true)
  filter-In a p [] h = absurd h
  filter-In a p (x ∷ xs) h = ground (arith, filter-In a p xs, λ (q : a ≡ x). ap p q)
