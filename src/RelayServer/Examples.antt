-- ===== src/RelayServer/Examples.antt =====
-- The theorems about cmd/lan-relay/main.go at small servers.
use lan_a2a.Prelude.{
  inr, inl, arith, ℕ, String, ◌≡◌, refl, subst, ◌≢◌, ◌⊎◌, true, false, Option, none, some, List, [],
  ◌∷◌, if◌then◌else◌, ◌==◌, nat_eq, string_eq, list_eq,
}
use lan_a2a.Prelude.GoMap
use lan_a2a.Protocol.{Message, message, register, text, file_meta, file_data, file_done}
use lan_a2a.RelayServer.Order.{received, received-serve}
use lan_a2a.RelayServer.{
  AgentConn, ChannelEvent, Server, disconnect, handle_message, new_server, panics, proceeds,
  register_agent, relay_to_channel,
}
use lan_a2a.RelayServer.Liveness.{IsLive}
use lan_a2a.RelayServer.Handler.{serve, handle_ws, handle_ws-unregisters}
use lan_a2a.RelayServer.Cleanup.{
  Reach, Reach-IsLive, start, connected, said, register_disconnect_panics, in_channel-disconnect,
}
use lan_a2a.RelayServer.Index.{in_channel}
use lan_a2a.RelayServer.Sessions.{
  Event, registers, sends, ends, run, AreFresh, changes, run-registry,
}

-- A decoder for the tests: one text creates a channel.
abbrev decode : String → Option ChannelEvent
decode content =
    if content == "create"
    then some (record {
      event = "channel_created";
      channel_id = "ch-100000000";
      members = "a" ∷ "b" ∷ [];
    })
    else none

abbrev encode : List String → String
encode ids = "ids"

abbrev created : Message
created = record (message text "m1" "a") { channel_id = "ch-100000000"; content = "create" }

abbrev one : Server
one = (register_agent new_server 1 "a").0

abbrev two : Server
two = (register_agent one 2 "b").0

abbrev joined : Server
joined = (handle_message decode encode two 1 "a" created).0

-- The server as it is after the channel was created.
abbrev full : Server
full = record {
  agents = ("a", 1) ∷ ("b", 2) ∷ [];
  channel_index = ("ch-100000000", ("a", true) ∷ ("b", true) ∷ []) ∷ [];
  conns =
      (1, record { id = "a"; is_closed = false; channels = ("ch-100000000", true) ∷ [] })
      ∷ (2, record { id = "b"; is_closed = false; channels = ("ch-100000000", true) ∷ [] })
      ∷ [];
}

joined_is_full : joined ≡ full
unfolding handle_message register_agent new_server GoMap.get GoMap.put
joined_is_full = refl

Reach-joined : Reach decode encode joined
unfolding register_agent new_server GoMap.get GoMap.put
Reach-joined =
    said 1 (record { id = "a"; is_closed = false; channels = [] }) created
      (connected 2 "b" (connected 1 "a" start refl) refl) refl

Reach-full : Reach decode encode full
Reach-full = subst (Reach decode encode) joined_is_full Reach-joined

relayed : relay_to_channel full created "a" ≡ 2 ∷ []
unfolding relay_to_channel GoMap.get
relayed = refl

register_disconnect_panics_example :
    ((h : ℕ) (id : String)
      → GoMap.get h full.conns ≡ none
      → ((register_agent full h id).1 ≡ proceeds)
        × (GoMap.get id (register_agent full h id).0.agents ≡ some h))
    × ((h : ℕ) (ac : AgentConn)
        → GoMap.get h full.conns ≡ some ac
        → ((GoMap.get ac.id full.agents ≡ some h) × ((disconnect full h).1 ≡ proceeds))
          ⊎ ((GoMap.get ac.id full.agents ≢ some h) × (disconnect full h ≡ (full, panics))))
register_disconnect_panics_example = register_disconnect_panics decode encode full Reach-full

in_channel-disconnect_example :
    in_channel (disconnect full 1).0.channel_index "ch-100000000" "b" ≡ true
unfolding GoMap.get
in_channel-disconnect_example =
    in_channel-disconnect decode encode full 1
      (record { id = "a"; is_closed = false; channels = ("ch-100000000", true) ∷ [] })
      "ch-100000000" "b" Reach-full refl refl

-- `a` registers twice; its first connection, which was replaced, ends after that.
abbrev two_lives : List Event
two_lives = registers 1 "a" ∷ sends 1 created ∷ registers 2 "a" ∷ ends 1 ∷ []

two_lives-AreFresh : AreFresh decode encode two_lives new_server
unfolding AreFresh run register_agent disconnect handle_message new_server GoMap.get GoMap.put
two_lives-AreFresh = (refl, (tt, (refl, (tt, tt))))

still_there : changes two_lives (λ y. none) "a" ≡ some 2
unfolding changes
still_there = refl

run-registry_example :
    GoMap.get "a" (run decode encode two_lives new_server).agents
    ≡ changes two_lives (λ y. none) "a"
run-registry_example = run-registry decode encode two_lives two_lives-AreFresh "a"

abbrev hello : Message
hello = message register "m2" "c"

handle_ws-unregisters_example :
    let end = (handle_ws decode encode 3 (some hello) true (created ∷ []) full).0 in
    IsLive end
    × ((x : String) → GoMap.get x end.agents ≡ (if "c" == x then none else GoMap.get x full.agents))
unfolding GoMap.get
handle_ws-unregisters_example =
    handle_ws-unregisters decode encode 3 hello (created ∷ []) full refl refl
      (Reach-IsLive decode encode Reach-full)

-- A file of two pieces, in the channel.
abbrev file_run : List Message
file_run =
    record (message file_meta "f1" "a") { channel_id = "ch-100000000" }
    ∷ record (message file_data "f1" "a") { channel_id = "ch-100000000"; content = "AA==" }
    ∷ record (message file_data "f1" "a") { channel_id = "ch-100000000"; content = "AQ==" }
    ∷ record (message file_done "f1" "a") { channel_id = "ch-100000000" }
    ∷ []

file_run_reaches : received 2 (serve decode encode 1 "a" file_run full).1 ≡ file_run
unfolding received serve handle_message relay_to_channel GoMap.get
file_run_reaches = refl

received-serve_example :
    let (end, sent, r) = serve decode encode 1 "a" file_run full in
    (end ≡ full)
    × ((id : String)
        → in_channel full.channel_index "ch-100000000" id ≡ true
        → id ≢ "a"
        → GoMap.get id full.agents ≡ some 2
        → received 2 sent ≡ file_run)
    × (((id : String)
          → in_channel full.channel_index "ch-100000000" id ≡ true
          → id ≢ "a"
          → GoMap.get id full.agents ≢ some 2)
        → received 2 sent ≡ [])
received-serve_example =
    received-serve decode encode full 1 "a" "ch-100000000" file_run 2 Reach-full
      (λ e. absurd (ground (arith, e, string_eq.beq_iff "ch-100000000" "")))
      (
        (refl, inl refl),
        ((refl, inr (inl refl)), ((refl, inr (inl refl)), ((refl, inr (inr refl)), tt))),
      )
