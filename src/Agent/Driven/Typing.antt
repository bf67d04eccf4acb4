-- ===== src/Agent/Driven/Typing.antt =====
-- internal/cli/cli.go and cmd/lan-a2a/main.go: a message that is typed at the command line of an agent.
use lan_a2a.Prelude.{
  ℕ, ◌+◌, String, ◌≡◌, refl, ap, ◌≢◌, ◌↔◌, ◌⊎◌, some, List, ◌∷◌, map, nat_eq, string_eq, list_eq,
  ok, All, In, codes, join_words,
}
use lan_a2a.Prelude.GoMap
use lan_a2a.Protocol.{Message}
use lan_a2a.Channel.{mode_p2p}
use lan_a2a.Channel
use lan_a2a.AgentApi.{Call, nothing}
use lan_a2a.Agent.{Agent, direct, send_message, text_message}
use lan_a2a.Agent.Sending.{IsDirect, send_message-exact}
use lan_a2a.Agent.Driven.{Surroundings, Driven, agent_api, perform_call, on_agent, counted}
use lan_a2a.Cli.{Cli, run_lines, lower}
use lan_a2a.Cli.Words.{IsWord}
use lan_a2a.Cli.Sending.{run_lines-send}

perform-send :
    (at : ℕ → Surroundings) (ch body : String) (d : Driven) (a : Agent)
    → send_message ch body ((at d.calls).outside.new_msg_id 0) (at d.calls).outside.now d.node.agent
      ≡ some (a, ok tt)
    → (agent_api at).perform (Call.send_message ch body) d
      ≡ some (record { node = record d.node { agent = a }; calls = d.calls + 1 }, ok nothing)
unfolding perform_call
perform-send at ch body d a h = ap (λ r. counted d.calls (on_agent d.node r)) h

pub run_lines-delivers :
    (at : ℕ → Surroundings) (word ch w x : String) (ws lines : List String) (c : Cli Driven)
    (channel : Channel.Channel)
    → All IsWord (word ∷ ch ∷ w ∷ ws)
    → map lower (codes word) ≡ codes "send"
    → IsDirect c.agent.node.agent
    → Channel.get c.agent.node.agent.channels ch ≡ some channel
    → channel.mode ≡ mode_p2p
    → In x channel.members
    → x ≢ c.agent.node.agent.id
    → let self = c.agent.node.agent in
      let o = (at c.agent.calls).outside in
      let msg = text_message (o.new_msg_id 0) self.id ch (join_words (w ∷ ws)) o.now in
      (c' : Cli Driven) × (run_lines (agent_api at) (join_words (word ∷ ch ∷ w ∷ ws) ∷ lines) c
        ≡ run_lines (agent_api at) lines c')
      × (c'.printed ≡ c.printed)
      × ((h : ℕ) (m : Message)
          → In (h, m) c'.agent.node.agent.sent ↔ (
              In (h, m) self.sent
              ⊎ ((m ≡ msg)
                  × ((id : String) × In id channel.members
                      × (id ≢ self.id)
                      × (GoMap.get id self.conns ≡ some (direct h))))))
run_lines-delivers at word ch w x ws lines c channel iw n d g p i ne =
    let self = c.agent.node.agent in
    let o = (at c.agent.calls).outside in
    let (a, s, e) =
      send_message-exact self ch (join_words (w ∷ ws)) (o.new_msg_id 0) x o.now channel d g p i
        ne in
    let after : Driven = record {
      node = record c.agent.node { agent = a };
      calls = c.agent.calls + 1;
    } in
    (
      record c { agent = after },
      run_lines-send (agent_api at) word ch w ws lines c after (ok nothing) iw n
          (perform-send at ch (join_words (w ∷ ws)) c.agent a s),
      refl,
      e,
    )
