-- ===== src/Channel/Examples.antt =====
-- The theorems about internal/channel/channel.go at two channels.
use lan_a2a.Prelude.{◌≡◌, refl, List, [], ◌∷◌, nat_eq, string_eq, list_eq}
use lan_a2a.Prelude.GoMap
use lan_a2a.Channel.{Channel, Manager, mode_p2p, mode_relay, new_manager, create, leave, depart}
use lan_a2a.Channel.Invariant.{IsValid, creates, leaves, Op, run, run_from_new-IsValid}

abbrev trio : Channel
trio = record {
  id = "c1";
  name = "team";
  mode = mode_p2p;
  host = "a";
  members = "a" ∷ "b" ∷ "c" ∷ [];
  created_at = 5;
  creator = "a";
}

abbrev team : Manager
team = ("c1", trio) ∷ []

abbrev history : List Op
history =
    creates 5 "c1" "team" "a" ("a" ∷ "b" ∷ "c" ∷ []) mode_p2p
    ∷ leaves "c1" "a"
    ∷ leaves "c2" "b"
    ∷ []

run_from_new-IsValid_example : IsValid (run new_manager history)
run_from_new-IsValid_example = run_from_new-IsValid history (refl, (tt, (tt, tt)))

-- The last member's departure deletes the channel.
last_leaves :
    run new_manager (creates 5 "c1" "solo" "a" ("a" ∷ []) mode_relay ∷ leaves "c1" "a" ∷ []) ≡ []
unfolding run new_manager leave create depart GoMap.put GoMap.get GoMap.del
last_leaves = refl
