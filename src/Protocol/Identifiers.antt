-- ===== src/Protocol/Identifiers.antt =====
-- NewMsgID of internal/protocol/message.go, as bytes: the clock and random bytes are arguments.
use lan_a2a.Prelude.{
  ℕ, zero, suc, ◌+◌, ◌/◌, ◌%◌, ◌≡◌, refl, sym, ap, ◌∙◌, inl, inr, false, List, [], ◌∷◌, ◌++◌, arith,
  ltb, if◌then◌else◌, Bool-cases, ◌==◌, nat_eq, string_eq, list_eq, All, Bytes,
}
use lan_a2a.Prelude.{
  AreBytes, to_hex, of_hex, of_hex-to_hex, decimal, decimal_loop, of_decimal, of_decimal-decimal,
}

abbrev dash : ℕ
dash = 45

unfoldable pub new_msg_id : ℕ → List ℕ → Bytes
new_msg_id now random = decimal now ++ dash ∷ to_hex random

-- What stands before the first dash, and what stands behind it.
split_dash : Bytes → Bytes × Bytes
split_dash [] = ([], [])
split_dash (c ∷ cs) =
    let (before, after) = split_dash cs in if c == dash then ([], cs) else (c ∷ before, after)

abbrev HasNoDash : Bytes → Type 0
HasNoDash = All (λ c. (c == dash) ≡ false)

split_dash-append : (cs ds : Bytes) → HasNoDash cs → split_dash (cs ++ dash ∷ ds) ≡ (cs, ds)
unfolding split_dash
split_dash-append [] ds h = refl
split_dash-append (c ∷ cs) ds h = ground (arith, split_dash-append cs ds h.1, h.0)

append-HasNoDash : (cs ds : Bytes) → HasNoDash cs → HasNoDash ds → HasNoDash (cs ++ ds)
append-HasNoDash [] ds h k = k
append-HasNoDash (c ∷ cs) ds h k = (h.0, append-HasNoDash cs ds h.1 k)

not_dash : (n : ℕ) → ((48 + n) == dash) ≡ false
not_dash n = ground (arith, nat_eq.beq_iff (48 + n) dash)

decimal_loop-HasNoDash : (fuel n : ℕ) → HasNoDash (decimal_loop fuel n)
unfolding decimal_loop
decimal_loop-HasNoDash zero n = (not_dash (n % 10), tt)
decimal_loop-HasNoDash (suc fuel) n = elim (Bool-cases (ltb n 10)) [
  | inl small ↦ rw small (not_dash n, tt)
  | inr big ↦ rw big (
      append-HasNoDash (decimal_loop fuel (n / 10)) _ (decimal_loop-HasNoDash fuel (n / 10))
        (not_dash (n % 10), tt))
]

decimal-HasNoDash : (n : ℕ) → HasNoDash (decimal n)
unfolding decimal
decimal-HasNoDash n = decimal_loop-HasNoDash n n

-- An identifier of a message tells when it was made and with which random bytes: two messages have the
-- same identifier only when the clock showed the same and the random bytes were the same.
new_msg_id-injective :
    (now now' : ℕ) (random random' : List ℕ)
    → AreBytes random
    → AreBytes random'
    → new_msg_id now random ≡ new_msg_id now' random'
    → (now ≡ now') × (random ≡ random')
unfolding new_msg_id
new_msg_id-injective now now' random random' h h' e =
    let split : (decimal now, to_hex random) ≡ (decimal now', to_hex random') =
      sym (split_dash-append (decimal now) (to_hex random) (decimal-HasNoDash now))
      ∙ ap split_dash e
      ∙ split_dash-append (decimal now') (to_hex random') (decimal-HasNoDash now') in
    (
      sym (of_decimal-decimal now)
          ∙ ap (λ (p : Bytes × Bytes). of_decimal 0 p.0) split
          ∙ of_decimal-decimal now',
      sym (of_hex-to_hex random h)
          ∙ ap (λ (p : Bytes × Bytes). of_hex p.1) split
          ∙ of_hex-to_hex random' h',
    )
