-- ===== src/Prelude/Int.antt =====
-- Signed integers over the native numbers, and Go's 64-bit wrap-around.
use lan_a2a.Prelude.Tests.{Eq, nat_beq, nat_eq, ltb, if◌then◌else◌}
use Prim.Native.Nat.{ℕ, ◌+◌, ◌-◌, ◌*◌, ◌%◌, ◌^◌}
use mathlib.Core.Path.{◌≡◌}
use mathlib.Core.Logic.{◌↔◌}
use mathlib.Core.Bool.{Bool, true, false}
use native.Mathlib.Omega.{arith}

-- `negsuc n` is -(n + 1).
pub data ℤ : Type 0 where
  pos : ℕ → ℤ
  negsuc : ℕ → ℤ

abbrev pub int_beq : ℤ → ℤ → Bool
int_beq (pos a) (pos b) = nat_beq a b
int_beq (negsuc a) (negsuc b) = nat_beq a b
int_beq _ _ = false

pub int_beq_iff : (a b : ℤ) → (int_beq a b ≡ true) ↔ (a ≡ b)
int_beq_iff a b = ground arith

instance abbrev pub int_eq : Eq ℤ
int_eq = record { beq = int_beq; beq_iff = int_beq_iff }

-- The int64 whose bit pattern is `w`.
abbrev pub signed64 : ℕ → ℤ
signed64 w = if ltb w (2 ^ 63) then pos w else negsuc (2 ^ 64 - w - 1)

-- The bit pattern of a * k in int64 arithmetic.
abbrev pub mul64_bits : ℤ → ℕ → ℕ
mul64_bits (pos a) k = (a * k) % 2 ^ 64
mul64_bits (negsuc a) k = (2 ^ 64 - ((a + 1) * k) % 2 ^ 64) % 2 ^ 64
