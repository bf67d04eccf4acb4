-- ===== src/Network/Uninvited.antt =====
-- cmd/lan-a2a/main.go with internal/relay/client.go: what an agent that was invited to a channel makes
-- of the messages that reach it.
use lan_a2a.Prelude.{
  ℕ, String, ◌≡◌, refl, ap, subst, ◌∙◌, ◌⊎◌, inl, inr, Option, none, some, List, [], ◌∷◌, arith,
  Option-cases, nat_eq, string_eq, list_eq, err,
}
use lan_a2a.Protocol.{Message}
use lan_a2a.Channel
use lan_a2a.FileTransfer.{Os}
use lan_a2a.RelayClient.{
  Client, Callback, ReadStep, read_step, on_message, on_file_data, on_online_list, on_goodbye,
  calls, answers, ignores, reconnects, returns,
}
use lan_a2a.Agent.{send_message, leave_channel, mark_relay_online, mark_lan_offline}
use lan_a2a.Agent.Sharing
use lan_a2a.Agent.Sharing.{Node, Outside, share_file, share_folder}
use lan_a2a.Network.{on_callback, read_loop}

-- A result keeps the channels of a node, where there is one.
abbrev KeepsChannels : Node → Option Node → Type 0
KeepsChannels n none = Unit {0}
KeepsChannels n (some n') = n'.agent.channels ≡ n.agent.channels

on_message-KeepsChannels :
    (os : Os) (now : ℕ) (msg : Message) (from : String) (n : Node)
    → KeepsChannels n (Sharing.on_message os now msg from n)
unfolding Sharing.on_message
on_message-KeepsChannels os now msg from n = ground arith

on_file_data-KeepsChannels :
    (os : Os) (msg : Message) (n : Node) → KeepsChannels n (Sharing.on_file_data os msg n)
unfolding Sharing.on_file_data
on_file_data-KeepsChannels os msg n = ground arith

on_callback-KeepsChannels :
    (os : Os) (now : ℕ) (cb : Callback) (n : Node) → KeepsChannels n (on_callback os now cb n)
unfolding on_callback mark_relay_online mark_lan_offline
on_callback-KeepsChannels os now (on_message msg) n = on_message-KeepsChannels os now msg msg.from n
on_callback-KeepsChannels os now (on_file_data msg) n = on_file_data-KeepsChannels os msg n
on_callback-KeepsChannels os now (on_online_list ids) n = refl
on_callback-KeepsChannels os now (on_goodbye from) n = refl

ReadStep-cases :
    (s : ReadStep)
    → ((cb : Callback) × (s ≡ calls cb))
      ⊎ (((msg : Message) × (s ≡ answers msg))
          ⊎ ((s ≡ ignores) ⊎ ((s ≡ reconnects) ⊎ (s ≡ returns))))
ReadStep-cases (calls cb) = inl (cb, refl)
ReadStep-cases (answers msg) = inr (inl (msg, refl))
ReadStep-cases ignores = inr (inr (inl refl))
ReadStep-cases reconnects = inr (inr (inr (inl refl)))
ReadStep-cases returns = inr (inr (inr (inr refl)))

-- What was kept on the way from one node to another is kept from the first on.
KeepsChannels-after :
    (n n' : Node) (r : Option Node)
    → n'.agent.channels ≡ n.agent.channels
    → KeepsChannels n' r
    → KeepsChannels n r
KeepsChannels-after n n' none e k = tt
KeepsChannels-after n n' (some end) e k = k ∙ e

read_loop-KeepsChannels :
    (decode : String → Option (List String)) (os : Os) (now : ℕ) (c : Client) (msgs : List Message)
    (n : Node)
    → KeepsChannels n (read_loop decode os now c msgs n)
unfolding read_loop
read_loop-KeepsChannels decode os now c [] n = refl
read_loop-KeepsChannels decode os now c (msg ∷ msgs) n =
    elim (ReadStep-cases (read_step decode c (some msg))) [
      | inl (cb, e) ↦ elim (Option-cases (on_callback os now cb n)) [
        | inl f ↦ rw (read_loop, e, f) tt
        | inr (n', f) ↦
            let k : KeepsChannels n (some n') =
              subst (KeepsChannels n) f (on_callback-KeepsChannels os now cb n) in
            rw (read_loop, e, f)
              (KeepsChannels-after n n' _ k (read_loop-KeepsChannels decode os now c msgs n'))
      ]
      | inr (inl (reply, e)) ↦ rw (read_loop, e) (read_loop-KeepsChannels decode os now c msgs n)
      | inr (inr (inl e)) ↦ rw (read_loop, e) (read_loop-KeepsChannels decode os now c msgs n)
      | inr (inr (inr (inl e))) ↦ rw (read_loop, e) refl
      | inr (inr (inr (inr e))) ↦ rw (read_loop, e) refl
    ]

-- The calls on a channel that the agent has not.
not_found-calls :
    (o : Outside) (left : String → String → String) (ch body msg_id path : String) (now : ℕ)
    (n : Node)
    → Channel.get n.agent.channels ch ≡ none
    → (send_message ch body msg_id now n.agent ≡ some (n.agent, err "channel not found"))
      × (leave_channel ch left msg_id now n.agent ≡ some (n.agent, err "channel not found"))
      × (share_file o ch path n ≡ some (n, err "channel not found"))
      × (share_folder o ch path n ≡ (n, err "channel not found"))
unfolding send_message leave_channel share_file share_folder
not_found-calls o left ch body msg_id path now n e =
    (ground (arith, e), ground (arith, e), ground (arith, e), ground (arith, e))

-- An agent to which the relay passes on any messages, an invitation to a channel among them, has the
-- same channels afterwards as before: of a channel that it had not, it can send no message, share no
-- file and no folder, and it cannot leave it, for each of these calls answers that the channel is not
-- found and changes nothing.
pub read_loop-uninvited :
    (decode : String → Option (List String)) (os : Os) (now : ℕ) (c : Client) (msgs : List Message)
    (n n' : Node) (o : Outside) (left : String → String → String) (ch body msg_id path : String)
    → read_loop decode os now c msgs n ≡ some n'
    → Channel.get n.agent.channels ch ≡ none
    → (n'.agent.channels ≡ n.agent.channels)
      × (send_message ch body msg_id now n'.agent ≡ some (n'.agent, err "channel not found"))
      × (leave_channel ch left msg_id now n'.agent ≡ some (n'.agent, err "channel not found"))
      × (share_file o ch path n' ≡ some (n', err "channel not found"))
      × (share_folder o ch path n' ≡ (n', err "channel not found"))
read_loop-uninvited decode os now c msgs n n' o left ch body msg_id path e h =
    let k : KeepsChannels n (some n') =
      subst (KeepsChannels n) e (read_loop-KeepsChannels decode os now c msgs n) in
    let (said, departed, shared, folder) =
      not_found-calls o left ch body msg_id path now n'
        (ap (λ (chs : Channel.Manager). Channel.get chs ch) k ∙ h) in
    (k, said, departed, shared, folder)
