-- ===== src/Profile/Identifiers.antt =====
-- NewID of internal/profile/profile.go, as bytes: the sixteen random bytes are an argument, by their
-- places.
use lan_a2a.Prelude.{
  ℕ, zero, suc, ◌+◌, ◌/◌, ◌%◌, ◌<◌, ◌≡◌, refl, ap, ◌∙◌, ◌⊎◌, false, not, some, List, [], ◌∷◌, ◌++◌,
  arith, if◌then◌else◌, ◌==◌, nat_eq, string_eq, list_eq, length, filter, get_elem?, Bytes,
}
use lan_a2a.Prelude.{AreBytes, to_hex, of_hex, of_hex-to_hex, hex_digit}

-- b[i] = v
abbrev assign : ℕ → ℕ → (ℕ → ℕ) → ℕ → ℕ
assign i v b = λ j. if i == j then v else b j

-- The version, b[6] & 0x0f | 0x40, and the variant, b[8] & 0x3f | 0x80.
unfoldable pub mark_version : (ℕ → ℕ) → ℕ → ℕ
mark_version b = assign 8 (b 8 % 64 + 128) (assign 6 (b 6 % 16 + 64) b)

-- b[from:from+n]
abbrev pub slice : (ℕ → ℕ) → ℕ → ℕ → List ℕ
slice b from zero = []
slice b from (suc n) = b from ∷ slice b (from + 1) n

abbrev pub dash : ℕ
dash = 45

unfoldable pub new_id : (ℕ → ℕ) → Bytes
unfolding mark_version
new_id random =
    let b = mark_version random in
    to_hex (slice b 0 4)
    ++ (dash ∷ to_hex (slice b 4 2))
    ++ (dash ∷ to_hex (slice b 6 2))
    ++ (dash ∷ to_hex (slice b 8 2))
    ++ (dash ∷ to_hex (slice b 10 6))

undashed : Bytes → Bytes
undashed cs = filter (λ c. not (c == dash)) cs

hex_digit-ne-dash : (n : ℕ) → (hex_digit n == dash) ≡ false
hex_digit-ne-dash n = ground (arith, nat_eq.beq_iff (hex_digit n) dash)

undashed-to_hex :
    (bs : List ℕ) (rest : Bytes) → undashed (to_hex bs ++ rest) ≡ to_hex bs ++ undashed rest
unfolding undashed to_hex
undashed-to_hex [] rest = refl
undashed-to_hex (b ∷ bs) rest =
    ground (arith, hex_digit-ne-dash (b / 16), hex_digit-ne-dash (b % 16), undashed-to_hex bs rest)

undashed-group :
    (bs : List ℕ) (rest : Bytes) → undashed (to_hex bs ++ dash ∷ rest) ≡ to_hex bs ++ undashed rest
unfolding undashed
undashed-group bs rest = undashed-to_hex bs (dash ∷ rest)

-- The groups of an identifier, one after the other.
undashed-new_id :
    (random : ℕ → ℕ) → undashed (new_id random) ≡ to_hex (slice (mark_version random) 0 16)
unfolding new_id to_hex undashed
undashed-new_id random =
    let group : ℕ → ℕ → Bytes = λ from n. to_hex (slice (mark_version random) from n) in
    let step : (from n : ℕ) (rest : Bytes)
        → undashed (group from n ++ dash ∷ rest) ≡ group from n ++ undashed rest =
      λ from n rest. undashed-group (slice (mark_version random) from n) rest in
    let rest3 = group 8 2 ++ dash ∷ group 10 6 in
    let rest2 = group 6 2 ++ dash ∷ rest3 in
    let rest1 = group 4 2 ++ dash ∷ rest2 in
    step 0 4 rest1
    ∙ ap (λ r. group 0 4 ++ r) (step 4 2 rest2)
    ∙ ap (λ r. group 0 4 ++ group 4 2 ++ r) (step 6 2 rest3)
    ∙ ap (λ r. group 0 4 ++ group 4 2 ++ group 6 2 ++ r) (step 8 2 (group 10 6))
    ∙ ap (λ r. group 0 4 ++ group 4 2 ++ group 6 2 ++ group 8 2 ++ r)
        (undashed-to_hex (slice (mark_version random) 10 6) [])

mark_version-byte :
    (random : ℕ → ℕ) (i : ℕ) → ((j : ℕ) → random j < 256) → mark_version random i < 256
unfolding mark_version
mark_version-byte random i h = ground (arith, h i, h 6, h 8)

slice-AreBytes : (b : ℕ → ℕ) (from n : ℕ) → ((j : ℕ) → b j < 256) → AreBytes (slice b from n)
slice-AreBytes b from zero h = tt
slice-AreBytes b from (suc n) h = (h from, slice-AreBytes b (from + 1) n h)

-- The shape of an identifier of a random UUID: 36 bytes, dashes after 8, 4, 4 and 4 digits, the
-- version 4, and a variant from 8 to b.
abbrev pub IsUuid : Bytes → Type 0
IsUuid s =
    (length s ≡ 36)
    × (get_elem? s 8 ≡ some dash)
    × (get_elem? s 13 ≡ some dash)
    × (get_elem? s 18 ≡ some dash)
    × (get_elem? s 23 ≡ some dash)
    × (get_elem? s 14 ≡ some 52)
    × ((get_elem? s 19 ≡ some 56)
        ⊎ (get_elem? s 19 ≡ some 57)
        ⊎ (get_elem? s 19 ≡ some 97)
        ⊎ (get_elem? s 19 ≡ some 98))

variant_digit :
    (n : ℕ) → let d = hex_digit ((n % 64 + 128) / 16) in (d ≡ 56) ⊎ (d ≡ 57) ⊎ (d ≡ 97) ⊎ (d ≡ 98)
variant_digit n = ground arith

version_digit : (n : ℕ) → hex_digit ((n % 16 + 64) / 16) ≡ 52
version_digit n = ground arith

-- The sixteen bytes, where the upper four bits of the seventh are 4, and the upper two of the ninth 2.
abbrev pub with_marks : (ℕ → ℕ) → List ℕ
with_marks random =
    random 0
    ∷ random 1
    ∷ random 2
    ∷ random 3
    ∷ random 4
    ∷ random 5
    ∷ (random 6 % 16 + 64)
    ∷ random 7
    ∷ (random 8 % 64 + 128)
    ∷ random 9
    ∷ random 10
    ∷ random 11
    ∷ random 12
    ∷ random 13
    ∷ random 14
    ∷ random 15
    ∷ []

-- An identifier has the shape of a random UUID, whatever the random bytes are; and its digits give back
-- the sixteen bytes in their order, fourteen as they are, of the seventh the lower four bits under the
-- version, and of the ninth the lower six bits under the variant. So of the random bits only the six
-- that these two take are lost.
pub new_id-IsUuid :
    (random : ℕ → ℕ)
    → ((j : ℕ) → random j < 256)
    → IsUuid (new_id random)
      × (of_hex (filter (λ c. not (c == dash)) (new_id random)) ≡ with_marks random)
unfolding new_id to_hex undashed mark_version
new_id-IsUuid random h = (
  (
    refl,
    refl,
    refl,
    refl,
    refl,
    ap some (version_digit (random 6)),
    ground (arith, variant_digit (random 8)),
  ),
  ap of_hex (undashed-new_id random)
      ∙ of_hex-to_hex (slice (mark_version random) 0 16)
          (slice-AreBytes (mark_version random) 0 16 (λ j. mark_version-byte random j h)),
)
