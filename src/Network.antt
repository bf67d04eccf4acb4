-- ===== src/Network.antt =====
-- cmd/lan-relay/main.go, internal/relay/client.go and cmd/lan-a2a/main.go together: what an agent says
-- to the relay over one connection, and what another agent makes of what the relay passes on. A handler
-- that panics ends there.
pub mod Delivery
pub mod Invitation
pub mod Uninvited
mod Examples
use lan_a2a.Prelude.{
  ℕ, zero, suc, ◌+◌, ◌-◌, ◌*◌, ◌/◌, ◌%◌, ◌^◌, ◌≤◌, ◌<◌, String, ◌≡◌, refl, sym, ap, subst, ◌∙◌, ◌≢◌,
  ◌↔◌, ◌⊎◌, inl, inr, Bool, true, false, not, ◌&&◌, ◌||◌, Option, none, some, List, [], ◌∷◌, ◌++◌,
  map, arith, ltb, leb, if◌then◌else◌, Bool-cases, Option-cases, Result-cases, is_some, Eq, ◌==◌,
  nat_eq, string_eq, list_eq, beq_self, beq_ne, Result, ok, err, ◌>>=◌, length, take, drop, filter,
  All, get_elem?, In, In-filter, filter-In, contains, Distinct, length-append, contains-append,
  contains-filter, Bytes, codes, cons_unless_blank, trim_space, trim_left, trim_right, split_words,
  cons_word, space, is_space, append_text, fields, join_words, Distinct-append_one,
}
use lan_a2a.Protocol.{Message}
use lan_a2a.RelayClient.{
  Client, Callback, ReadStep, read_step, on_message, on_file_data, on_online_list, on_goodbye,
  calls, answers, ignores, reconnects, returns,
}
use lan_a2a.FileTransfer.{Os}
use lan_a2a.Agent.{mark_relay_online, mark_lan_offline}
use lan_a2a.Agent.Sharing
use lan_a2a.Agent.Sharing.{Node}

-- The callbacks that main installs at the relay client. The reader of file data is over the body.
unfoldable pub on_callback : Os → ℕ → Callback → Node → Option Node
on_callback os now (on_message msg) n = Sharing.on_message os now msg msg.from n
on_callback os now (on_file_data msg) n = Sharing.on_file_data os msg n
on_callback os now (on_online_list ids) n =
    some (record n { agent = mark_relay_online ids n.agent })
on_callback os now (on_goodbye from) n = some (record n { agent = mark_lan_offline from n.agent })

-- The read loop of the relay client over the messages that it reads, until it reconnects or returns.
unfoldable pub read_loop :
    (String → Option (List String)) → Os → ℕ → Client → List Message → Node → Option Node
unfolding on_callback
read_loop decode os now c [] n = some n
read_loop decode os now c (msg ∷ msgs) n = elim (read_step decode c (some msg)) [
  | calls callback ↦ elim (on_callback os now callback n) [
    | none ↦ none
    | some n' ↦ read_loop decode os now c msgs n'
  ]
  | answers reply ↦ read_loop decode os now c msgs n
  | ignores ↦ read_loop decode os now c msgs n
  | reconnects ↦ some n
  | returns ↦ some n
]
