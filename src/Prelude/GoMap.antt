-- ===== src/Prelude/GoMap.antt =====
-- Go's maps as association lists. The order of the entries stands for an iteration order, which Go
-- leaves open; theorems speak of lookups and of membership.
use Prim.Native.Nat.{ℕ}
use mathlib.Core.Path.{◌≡◌, refl}
use mathlib.Core.Logic.{inl, inr}
use mathlib.Core.Bool.{false}
use mathlib.Core.Option.{Option, none, some}
use mathlib.Core.List.{List, [], ◌∷◌, ◌++◌}
use native.Mathlib.Omega.{arith}
use lan_a2a.Prelude.Tests.{Eq, if◌then◌else◌, is_some}
use lan_a2a.Prelude.Lists.{In, length, contains, Distinct, contains-append}

abbrev pub GoMap {ℓ κ} : Type ℓ → Type κ → Type (ℓ ⊔ κ)
GoMap K V = List (K × V)

module _ {ℓ κ} {K : Type ℓ} {V : Type κ} where
  abbrev pub keys : GoMap K V → List K
  keys [] = []
  keys ((k, v) ∷ m) = k ∷ keys m

  abbrev pub values : GoMap K V → List V
  values [] = []
  values ((k, v) ∷ m) = v ∷ values m

  -- Go's `len`, where no key stands twice.
  abbrev pub len : GoMap K V → ℕ
  len m = length (keys m)

module _ {ℓ κ} {K : Type ℓ} {V : Type κ} ⦃e : Eq K⦄ where
  -- v, ok := m[k]
  unfoldable pub get : K → GoMap K V → Option V
  get k [] = none
  get k ((j, v) ∷ m) = if e.beq j k then some v else get k m

  -- m[k] = v
  unfoldable pub put : K → V → GoMap K V → GoMap K V
  put k v [] = (k, v) ∷ []
  put k v ((j, w) ∷ m) = if e.beq j k then (j, v) ∷ m else (j, w) ∷ put k v m

  -- delete(m, k)
  unfoldable pub del : K → GoMap K V → GoMap K V
  del k [] = []
  del k ((j, w) ∷ m) = if e.beq j k then del k m else (j, w) ∷ del k m

  pub get-nil : (k : K) → get k [] ≡ none
  unfolding get
  get-nil k = refl

  pub get-put :
      (k j : K) (v : V) (m : GoMap K V)
      → get j (put k v m) ≡ (if e.beq k j then some v else get j m)
  unfolding get put
  get-put k j v [] = refl
  get-put k j v ((i, w) ∷ m) =
      ground (arith, e.beq_iff k j, e.beq_iff i k, e.beq_iff i j, get-put k j v m)

  pub get-del : (k j : K) (m : GoMap K V) → get j (del k m) ≡ (if e.beq k j then none else get j m)
  unfolding get del
  get-del k j [] = ground arith
  get-del k j ((i, w) ∷ m) =
      ground (arith, e.beq_iff k j, e.beq_iff i k, e.beq_iff i j, get-del k j m)

  pub contains-keys : (k : K) (m : GoMap K V) → contains k (keys m) ≡ is_some (get k m)
  unfolding get
  contains-keys k [] = refl
  contains-keys k ((j, v) ∷ m) = ground (arith, e.beq_iff k j, e.beq_iff j k, contains-keys k m)

  pub keys-put :
      (k : K) (v : V) (m : GoMap K V)
      → keys (put k v m) ≡ (if contains k (keys m) then keys m else keys m ++ k ∷ [])
  unfolding put
  keys-put k v [] = refl
  keys-put k v ((j, w) ∷ m) = ground (arith, e.beq_iff k j, e.beq_iff j k, keys-put k v m)

  pub contains-keys-del :
      (k j : K) (m : GoMap K V)
      → contains j (keys (del k m)) ≡ (if e.beq k j then false else contains j (keys m))
  unfolding del
  contains-keys-del k j [] = ground arith
  contains-keys-del k j ((i, w) ∷ m) =
      ground
        (arith, e.beq_iff k j, e.beq_iff j k, e.beq_iff i k, e.beq_iff j i, contains-keys-del k j m)

  pub Distinct-put :
      (k : K) (v : V) (m : GoMap K V) → Distinct (keys m) → Distinct (keys (put k v m))
  unfolding put
  Distinct-put k v [] h = (refl, tt)
  Distinct-put k v ((j, w) ∷ m) h = ground (
    arith,
    e.beq_iff j k,
    Distinct-put k v m h.1,
    keys-put k v m,
    contains-append j (keys m) (k ∷ []),
  )

  pub Distinct-del : (k : K) (m : GoMap K V) → Distinct (keys m) → Distinct (keys (del k m))
  unfolding del
  Distinct-del k [] h = tt
  Distinct-del k ((j, w) ∷ m) h = ground (arith, contains-keys-del k j m, Distinct-del k m h.1)

module _ {K V : Type 0} ⦃e : Eq K⦄ where
  pub In-values-get :
      (m : GoMap K V) (v : V) → Distinct (keys m) → In v (values m) → (k : K) × (get k m ≡ some v)
  unfolding get
  In-values-get [] v d h = absurd h
  In-values-get ((j, w) ∷ m) v d (inl p) = (j, ground (arith, e.beq_iff j j))
  In-values-get ((j, w) ∷ m) v d (inr h) =
      let (k, p) = In-values-get m v d.1 h in
      (k, ground (arith, p, contains-keys j m, e.beq_iff j k))

  pub get-In-values : (m : GoMap K V) (k : K) (v : V) → get k m ≡ some v → In v (values m)
  unfolding get
  get-In-values [] k v p = cc
  get-In-values ((j, w) ∷ m) k v p = ground (arith, get-In-values m k v)

pub ruleset map_laws = (get-nil, get-put, get-del)
