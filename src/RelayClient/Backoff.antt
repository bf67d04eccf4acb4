-- ===== src/RelayClient/Backoff.antt =====
-- The delays of `reconnect` in internal/relay/client.go.
use lan_a2a.Prelude.{
  ℕ, zero, suc, ◌+◌, ◌-◌, ◌*◌, ◌^◌, ◌≤◌, ◌<◌, ◌≡◌, refl, ap, subst, ◌∙◌, inl, inr, Bool, true, ◌&&◌,
  arith, ltb, if◌then◌else◌, Bool-cases, ◌==◌, nat_eq, string_eq, list_eq,
}
use lan_a2a.Prelude.Int.{ℤ, pos, signed64}
use lan_a2a.Prelude.Int.{int_eq}
use lan_a2a.RelayClient.{Client, exceeds, next_backoff, second, shifted_second}

-- The delays of a client that fails again and again, from a count of failures on.
abbrev pub delay : ℕ → ℤ
delay n =
    let backoff = signed64 (shifted_second n) in
    if exceeds backoff (30 * second) then pos (30 * second) else backoff

next_backoff-delay :
    (c : Client)
    → next_backoff c ≡ (record c { max_retries = c.max_retries + 1 }, delay c.max_retries)
unfolding next_backoff
next_backoff-delay c =
    let same : c.max_retries + 1 - 1 ≡ c.max_retries = omega arith in
    ap (λ (n : ℕ). (record c { max_retries = c.max_retries + 1 }, delay n)) same

-- Two sequences of delays agree below a bound.
agree_until : (ℕ → ℤ) → (ℕ → ℤ) → ℕ → Bool
agree_until f g zero = true
agree_until f g (suc n) = agree_until f g n && f n == g n

agree_until-eq :
    (f g : ℕ → ℤ) (n attempt : ℕ) → attempt < n → agree_until f g n ≡ true → f attempt ≡ g attempt
unfolding agree_until
agree_until-eq f g zero attempt h e = ground arith
agree_until-eq f g (suc n) attempt h e =
    ground (arith, agree_until-eq f g n attempt, int_eq.beq_iff (f n) (g n))

-- The delays as the source's documentation gives them, and what they are for long outages.
expected : ℕ → ℤ
expected n =
    if ltb n 5 then pos (second * 2 ^ n) else if ltb n 34 then pos (30 * second) else delay n

documented_table : agree_until delay expected 34 ≡ true
unfolding agree_until expected shifted_second
documented_table = refl

overflow_table : agree_until (λ n. delay (n + 55)) (λ n. pos 0) 9 ≡ true
unfolding agree_until shifted_second
overflow_table = refl

delay-large : (n : ℕ) → 64 ≤ n → delay n ≡ pos 0
unfolding shifted_second
delay-large n h = ground arith

delay-overflow : (n : ℕ) → 55 ≤ n → delay n ≡ pos 0
delay-overflow n h = elim (Bool-cases (ltb n 64)) [
  | inl small ↦
      let back : n - 55 + 55 ≡ n = omega arith in
      subst (λ (k : ℕ). delay k ≡ pos 0) back
        (agree_until-eq (λ k. delay (k + 55)) (λ k. pos 0) 9 (n - 55) (ground arith) overflow_table)
  | inr large ↦ delay-large n (ground arith)
]

delay-documented : (n : ℕ) → n < 34 → delay n ≡ expected n
delay-documented n h = agree_until-eq delay expected 34 n h documented_table

-- The delay after n failures in a row doubles from one second up to 16 and is 30 seconds from the
-- sixth attempt to the thirty-fourth; but from the fifty-sixth attempt on the shifted product has
-- overflowed to 0, and the client tries again without any delay.
pub next_backoff_delays :
    (c : Client)
    → let n = c.max_retries in
      (n < 5 → (next_backoff c).1 ≡ pos (second * 2 ^ n))
      × (5 ≤ n → n < 34 → (next_backoff c).1 ≡ pos (30 * second))
      × (55 ≤ n → (next_backoff c).1 ≡ pos 0)
unfolding expected
next_backoff_delays c =
    let step : (next_backoff c).1 ≡ delay c.max_retries =
      ap (λ (r : Client × ℤ). r.1) (next_backoff-delay c) in
    (
      (λ h. step ∙ delay-documented c.max_retries (omega arith) ∙ ground arith),
      (λ h k. step ∙ delay-documented c.max_retries k ∙ ground arith),
      (λ h. step ∙ delay-overflow c.max_retries h),
    )
