-- ===== src/Peers/Examples.antt =====
-- internal/p2p/p2p.go: the theorems about the peers at concrete states.
use lan_a2a.Prelude.{
  arith, List, In, String, ℕ, ok, ◌↔◌, true, false, ◌≡◌, refl, some, List, [], ◌∷◌, ◌++◌, string_eq,
  codes,
}
use lan_a2a.Prelude.GoMap
use lan_a2a.Protocol.{
  ProfilePayload, Message, message, register, register_ok, text, file_data, goodbye,
}
use lan_a2a.Peers.Running.{Change, found, tick, left, change_all, WasFound, change_all-WasFound}
use lan_a2a.Peers.Rounds.{round_start, wait_after, is_online-round_start}
use lan_a2a.Peers.{
  is_stale, remove_online, drop_stale, arith, cleanup_stale_peers, Handshake, mark_online,
  is_online, open_conn, new_peers, Peers, handle_ws, on_goodbye, store_profile,
}
use lan_a2a.Peers.Discovery.{
  Announcer, announce_all, browse, announced, peer_id_of, last_id, id_in, IsReported,
  browse-announce_all,
}
use lan_a2a.Peers.Handler.{handle_ws_exact, deliveries, until_goodbye}

abbrev two_peers : Peers
two_peers =
    mark_online "b" "10.0.0.2" 50_000_000_000 (mark_online "a" "10.0.0.1" 10 (new_peers "me" 7331))

abbrev alice : ProfilePayload
alice = record {
  id = "a";
  name = "Alice";
  avatar = "";
  roles = "frontend" ∷ [];
  tags = [];
  metadata = [];
}

abbrev answer : Message
answer = record (message register_ok "1" "a") { profile = some alice }

abbrev shake : Handshake
shake = record { dials = true; sends = true; answer = some answer }

connected :
    open_conn "a" shake two_peers two_peers
    ≡ (store_profile "a" (some alice) two_peers, ok "10.0.0.1")
unfolding open_conn mark_online new_peers GoMap.put GoMap.get
connected = refl

abbrev hello : Message
hello = message register "1" "c"

abbrev talk : List Message
talk =
    message text "2" "c"
    ∷ record (message file_data "3" "c") { body = some (codes "xy") }
    ∷ message goodbye "4" "c"
    ∷ message text "5" "c"
    ∷ []

handle_ws_exact_example :
    ((handle_ws (some hello) true "10.0.0.3" 70 talk two_peers).1
      ≡ deliveries (until_goodbye talk) ++ on_goodbye "c" ∷ [])
    × (is_online "c" (handle_ws (some hello) true "10.0.0.3" 70 talk two_peers).0 ≡ false)
handle_ws_exact_example =
    handle_ws_exact hello "10.0.0.3" 70 talk two_peers refl (refl, (refl, (refl, (refl, tt))))

abbrev neighbours : List Announcer
neighbours = ("a", 19100, "10.0.0.1" ∷ []) ∷ ("b", 19101, "10.0.0.2" ∷ "10.1.0.2" ∷ []) ∷ []

browse-announce_all_example :
    In {A = String × String × ℕ} ("b", "10.0.0.2", 19101) (browse "a" (announce_all neighbours))
    ↔ IsReported "a" ("b", "10.0.0.2", 19101) neighbours
browse-announce_all_example = browse-announce_all "a" ("b", "10.0.0.2", 19101) neighbours

-- The agent that browses is not reported to itself.
only_the_other : browse "a" (announce_all neighbours) ≡ ("b", "10.0.0.2", 19101) ∷ []
unfolding browse announced peer_id_of last_id id_in
only_the_other = refl

-- `a` is found at 0 and again after 20 seconds; the tick after 40 seconds comes soon enough, the one after
-- 60 seconds does not.
abbrev forty_seconds : List Change
forty_seconds =
    found "a" "10.0.0.1:19100" 0
    ∷ found "b" "10.0.0.2:19100" 5_000_000_000
    ∷ found "a" "10.0.0.1:19100" 20_000_000_000
    ∷ left "b"
    ∷ tick 40_000_000_000
    ∷ []

a_stays : is_online "a" (change_all forty_seconds (new_peers "me" 19100)) ≡ true
unfolding is_online change_all new_peers GoMap.put GoMap.get GoMap.del cleanup_stale_peers
    drop_stale remove_online mark_online is_stale
a_stays = refl

a_goes :
    is_online "a" (change_all (forty_seconds ++ tick 60_000_000_000 ∷ []) (new_peers "me" 19100))
    ≡ false
unfolding is_online change_all new_peers GoMap.put GoMap.get GoMap.del cleanup_stale_peers
    drop_stale remove_online mark_online is_stale
a_goes = refl

change_all-WasFound_example :
    (is_online "a" (change_all forty_seconds (new_peers "me" 19100)) ≡ true)
    ↔ WasFound "a" forty_seconds
change_all-WasFound_example = change_all-WasFound "me" 19100 "a" forty_seconds

-- Rounds of ten seconds that report `a` after one second each: the fourth round starts after 39 seconds,
-- the fifth after 54, and the sixth when the ticker comes, 4 seconds after the fifth has ended.
abbrev ten_seconds : ℕ → ℕ
ten_seconds n = 10_000_000_000

abbrev one_second : ℕ → ℕ
one_second n = 1_000_000_000

abbrev four_seconds : ℕ → ℕ
four_seconds n = 4_000_000_000

fifth_round : round_start ten_seconds four_seconds 4 ≡ 54_000_000_000
unfolding round_start wait_after
fifth_round = refl

sixth_round : round_start ten_seconds four_seconds 5 ≡ 68_000_000_000
unfolding round_start wait_after
sixth_round = refl

is_online-round_start_example :
    is_online "a" (
      change_all
        (forty_seconds
          ++ found "a" "10.0.0.1:19100" 55_000_000_000
            ∷ found "b" "10.0.0.2:19100" 56_000_000_000
            ∷ tick 60_000_000_000
            ∷ [])
        (new_peers "me" 19100))
    ≡ true
unfolding round_start wait_after
is_online-round_start_example =
    is_online-round_start "me" 19100 "a" "10.0.0.1:19100" ten_seconds four_seconds one_second 4
      forty_seconds (found "b" "10.0.0.2:19100" 56_000_000_000 ∷ tick 60_000_000_000 ∷ [])
      (λ n. omega arith) (λ n. omega arith) (λ n. omega arith)
      ((λ e. ground (arith, e, string_eq.beq_iff "b" "a")), (omega arith, tt))
