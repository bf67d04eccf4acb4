-- ===== src/Peers/Rounds.antt =====
-- internal/p2p/p2p.go: when `StartDiscovery` browses, and what that keeps online.
use lan_a2a.Prelude.{
  ℕ, zero, suc, ◌+◌, ◌≤◌, String, ◌≡◌, ◌≢◌, true, List, [], ◌∷◌, ◌++◌, arith, nat_eq, string_eq,
  list_eq, All,
}
use lan_a2a.Peers.{new_peers, is_online}
use lan_a2a.Peers.Running.{
  Change, found, tick, registered, left, change_all, IsQuiet, WasFound, here, later,
  change_all-WasFound,
}

-- The waits after the first rounds, in nanoseconds.
abbrev pub intervals : List ℕ
intervals = 3_000_000_000 ∷ 3_000_000_000 ∷ 3_000_000_000 ∷ 5_000_000_000 ∷ []

-- How long the discovery waits after a round: an interval of the list, while there is one; after that it
-- waits for its ticker, which the last argument gives.
unfoldable pub wait_after : List ℕ → ℕ → ℕ → ℕ
wait_after [] n ticker = ticker
wait_after (iv ∷ ivs) zero ticker = iv
wait_after (iv ∷ ivs) (suc n) ticker = wait_after ivs n ticker

-- When a round starts: it browses as long as `takes` says, and then waits for the next one.
unfoldable pub round_start : (ℕ → ℕ) → (ℕ → ℕ) → ℕ → ℕ
round_start takes ticker zero = 0
round_start takes ticker (suc n) =
    round_start takes ticker n + takes n + wait_after intervals n (ticker n)

-- No wait is longer than the ticker's period.
wait_after-le :
    (ivs : List ℕ) (n t : ℕ)
    → All (λ iv. iv ≤ 10_000_000_000) ivs
    → t ≤ 10_000_000_000
    → wait_after ivs n t ≤ 10_000_000_000
unfolding wait_after
wait_after-le [] n t q h = h
wait_after-le (iv ∷ ivs) zero t q h = q.0
wait_after-le (iv ∷ ivs) (suc n) t q h = wait_after-le ivs n t q.1 h

intervals-le : All (λ iv. iv ≤ 10_000_000_000) intervals
intervals-le = (omega arith, (omega arith, (omega arith, (omega arith, tt))))

-- A change before a time, that is neither a finding or a registration of the peer nor the end of its
-- connection.
abbrev pub IsBefore : String → ℕ → Change → Type 0
IsBefore id t (found j addr now) = j ≢ id
IsBefore id t (tick now) = now ≤ t
IsBefore id t (registered m addr now) = m.from ≢ id
IsBefore id t (left j) = j ≢ id

IsQuiet-IsBefore :
    (id : String) (t t' : ℕ) (c : Change)
    → t' ≤ t + 30_000_000_000
    → IsBefore id t' c
    → IsQuiet id t c
IsQuiet-IsBefore id t t' (found j addr now) h n = n
IsQuiet-IsBefore id t t' (tick now) h n = omega arith
IsQuiet-IsBefore id t t' (registered m addr now) h n = n
IsQuiet-IsBefore id t t' (left j) h n = n

All-IsQuiet :
    (id : String) (t t' : ℕ) (cs : List Change)
    → t' ≤ t + 30_000_000_000
    → All (IsBefore id t') cs
    → All (IsQuiet id t) cs
All-IsQuiet id t t' [] h q = tt
All-IsQuiet id t t' (c ∷ cs) h q = (IsQuiet-IsBefore id t t' c h q.0, All-IsQuiet id t t' cs h q.1)

WasFound-append :
    (id : String) (before : List Change) {cs : List Change}
    → WasFound id cs
    → WasFound id (before ++ cs)
WasFound-append id [] w = w
WasFound-append id (c ∷ before) w = later c (WasFound-append id before w)

-- From one report of a peer to its report in the next round there are at most 25 seconds.
next_report-le :
    (takes ticker after : ℕ → ℕ) (k : ℕ)
    → ((n : ℕ) → takes n ≤ 10_000_000_000)
    → ((n : ℕ) → ticker n ≤ 10_000_000_000)
    → ((n : ℕ) → after n ≤ 5_000_000_000)
    → round_start takes ticker (suc k) + after (suc k)
      ≤ round_start takes ticker k + after k + 25_000_000_000
unfolding round_start
next_report-le takes ticker after k h1 h2 h3 =
    let a = h1 k in
    let b = wait_after-le intervals k (ticker k) intervals-le (h2 k) in
    let c = h3 (suc k) in omega arith

-- A peer that the first five seconds of every round report, while a round takes at most the ten seconds
-- of its two timeouts and the ticker is waited for at most its period: whatever happened before a round,
-- the peer is online from its report in that round up to its report in the next one, at every tick of
-- the clean-up in between, as long as its own connection does not end.
pub is_online-round_start :
    (agent_id : String) (port : ℕ) (id addr : String) (takes ticker after : ℕ → ℕ) (k : ℕ)
    (before cs : List Change)
    → ((n : ℕ) → takes n ≤ 10_000_000_000)
    → ((n : ℕ) → ticker n ≤ 10_000_000_000)
    → ((n : ℕ) → after n ≤ 5_000_000_000)
    → All (IsBefore id (round_start takes ticker (suc k) + after (suc k))) cs
    → is_online id (
        change_all
          (before ++ found id addr (round_start takes ticker k + after k) ∷ cs)
          (new_peers agent_id port))
      ≡ true
is_online-round_start agent_id port id addr takes ticker after k before cs h1 h2 h3 q =
    let report = round_start takes ticker k + after k in
    (change_all-WasFound agent_id port id (before ++ found id addr report ∷ cs)).1 (
      WasFound-append id before (
        here addr report (
          All-IsQuiet id report (round_start takes ticker (suc k) + after (suc k)) cs
            (let g = next_report-le takes ticker after k h1 h2 h3 in omega arith) q)))
