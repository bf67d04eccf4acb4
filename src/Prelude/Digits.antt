-- ===== src/Prelude/Digits.antt =====
-- How fmt and encoding/hex write numbers, as bytes: decimal digits, two hexadecimal digits for a byte;
-- and the readers that take them back.
use Prim.Native.Nat.{ℕ, zero, suc, ◌+◌, ◌-◌, ◌*◌, ◌/◌, ◌%◌, ◌≤◌, ◌<◌}
use mathlib.Core.Path.{◌≡◌, refl, ap, ◌∙◌}
use mathlib.Core.Logic.{inl, inr}
use mathlib.Core.List.{List, [], ◌∷◌, ◌++◌}
use native.Mathlib.Omega.{arith}
use lan_a2a.Prelude.Tests.{ltb, if◌then◌else◌, Bool-cases}
use lan_a2a.Prelude.Lists.{All, length}
use lan_a2a.Prelude.Text.{Bytes}

abbrev pub hex_digit : ℕ → ℕ
hex_digit n = if ltb n 10 then 48 + n else 87 + n

abbrev pub hex_value : ℕ → ℕ
hex_value c = if ltb c 58 then c - 48 else c - 87

unfoldable pub to_hex : List ℕ → Bytes
to_hex [] = []
to_hex (b ∷ bs) = hex_digit (b / 16) ∷ hex_digit (b % 16) ∷ to_hex bs

unfoldable pub of_hex : Bytes → List ℕ
of_hex [] = []
of_hex (c ∷ []) = []
of_hex (c ∷ d ∷ cs) = (hex_value c * 16 + hex_value d) ∷ of_hex cs

abbrev pub AreBytes : List ℕ → Type 0
AreBytes = All (λ b. b < 256)

hex_value-hex_digit : (n : ℕ) → n < 16 → hex_value (hex_digit n) ≡ n
hex_value-hex_digit n h = ground arith

hex_byte :
    (b : ℕ) → b < 256 → hex_value (hex_digit (b / 16)) * 16 + hex_value (hex_digit (b % 16)) ≡ b
hex_byte b h =
    rw (hex_value-hex_digit (b / 16) (omega arith), hex_value-hex_digit (b % 16) (omega arith))
      (omega arith)

pub of_hex-to_hex : (bs : List ℕ) → AreBytes bs → of_hex (to_hex bs) ≡ bs
unfolding of_hex to_hex
of_hex-to_hex [] h = refl
of_hex-to_hex (b ∷ bs) h =
    ap (λ (x : ℕ). x ∷ of_hex (to_hex bs)) (hex_byte b h.0)
    ∙ ap (λ (r : List ℕ). b ∷ r) (of_hex-to_hex bs h.1)

pub length-to_hex : (bs : List ℕ) → length (to_hex bs) ≡ 2 * length bs
unfolding to_hex
length-to_hex [] = refl
length-to_hex (b ∷ bs) = ground (arith, length-to_hex bs)

-- A digit at a time, the last one first; the fuel is the number of digits that may come.
unfoldable pub decimal_loop : ℕ → ℕ → Bytes
decimal_loop zero n = (48 + n % 10) ∷ []
decimal_loop (suc fuel) n =
    let rest = decimal_loop fuel (n / 10) in
    if ltb n 10 then (48 + n) ∷ [] else rest ++ (48 + n % 10) ∷ []

-- %d of a number that is not negative.
unfoldable pub decimal : ℕ → Bytes
unfolding decimal_loop
decimal n = decimal_loop n n

-- Reading digits, from the number that has been read so far.
unfoldable pub of_decimal : ℕ → Bytes → ℕ
of_decimal acc [] = acc
of_decimal acc (c ∷ cs) = of_decimal (acc * 10 + (c - 48)) cs

of_decimal-append :
    (acc : ℕ) (cs ds : Bytes) → of_decimal acc (cs ++ ds) ≡ of_decimal (of_decimal acc cs) ds
unfolding of_decimal
of_decimal-append acc [] ds = refl
of_decimal-append acc (c ∷ cs) ds = of_decimal-append (acc * 10 + (c - 48)) cs ds

of_decimal-decimal_loop : (fuel n : ℕ) → n ≤ fuel → of_decimal 0 (decimal_loop fuel n) ≡ n
unfolding of_decimal decimal_loop
of_decimal-decimal_loop zero n h = omega arith
of_decimal-decimal_loop (suc fuel) n h = elim (Bool-cases (ltb n 10)) [
  | inl small ↦ rw small (omega arith)
  | inr big ↦
      rw
        (
          big,
          of_decimal-append 0 (decimal_loop fuel (n / 10)) ((48 + n % 10) ∷ []),
          of_decimal-decimal_loop fuel (n / 10) (ground arith),
        )
        (omega arith)
]

pub of_decimal-decimal : (n : ℕ) → of_decimal 0 (decimal n) ≡ n
unfolding decimal
of_decimal-decimal n = of_decimal-decimal_loop n n (omega arith)
