-- ===== src/RelayClient/Examples.antt =====
-- internal/relay/client.go: the theorems about the relay client at concrete clients.
use lan_a2a.Prelude.{
  false, none, List, [], ◌∷◌, ◌*◌, ◌^◌, ◌≤◌, ◌<◌, ◌≡◌, true, some, nat_eq, string_eq, list_eq,
}
use lan_a2a.Prelude.Int.{pos}
use lan_a2a.Protocol.{message, ping, query_online, register_ok}
use lan_a2a.RelayClient.Loops.{connect_all, connect_all-repeats, ping_run, query_run, times}
use lan_a2a.RelayClient.{Client, new_client, Dial, next_backoff, second}
use lan_a2a.RelayClient.Backoff.{next_backoff_delays}

abbrev failed_client : Client
failed_client = record (new_client "a1") { max_retries = 60 }

next_backoff_delays_example :
    (60 < 5 → (next_backoff failed_client).1 ≡ pos (second * 2 ^ 60))
    × (5 ≤ 60 → 60 < 34 → (next_backoff failed_client).1 ≡ pos (30 * second))
    × (55 ≤ 60 → (next_backoff failed_client).1 ≡ pos 0)
next_backoff_delays_example = next_backoff_delays failed_client

abbrev good_dial : Dial
good_dial = record { dials = true; sends = true; answer = some register_ok }

abbrev no_dial : Dial
no_dial = record { dials = false; sends = true; answer = none }

-- Three dials, of which two succeed.
abbrev dials_made : List Dial
dials_made = good_dial ∷ no_dial ∷ good_dial ∷ []

connect_all-repeats_example :
    let c = connect_all dials_made (new_client "a1") in
    (ping_run 3 "m1" c ≡ some (record c { sent = times 6 (message ping "m1" "a1") [] }))
    × (query_run 3 "m1" c ≡ some (record c { sent = times 8 (message query_online "m1" "a1") [] }))
connect_all-repeats_example = connect_all-repeats dials_made "a1" "m1" 3
