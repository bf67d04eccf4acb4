-- ===== src/RelayServer/Index.antt =====
-- cmd/lan-relay/main.go: who is in which channel, after the calls that change the channel index.
use lan_a2a.Prelude.{
  String, ◌≡◌, refl, ap, ◌∙◌, inl, inr, Bool, true, false, ◌&&◌, ◌||◌, List, [], ◌∷◌, arith,
  if◌then◌else◌, Option-cases, is_some, ◌==◌, nat_eq, string_eq, list_eq, contains,
}
use lan_a2a.Prelude.GoMap
use lan_a2a.Prelude.GoMap.{GoMap, get-put, get-del, contains-keys, get-nil}
use lan_a2a.RelayServer.{
  IdSet, Server, create_channel, join, join_all, leave_all, leave_index, members_of, note_channel,
  store_members,
}

-- The index says that the agent is in the channel.
abbrev pub in_channel : GoMap String IdSet → String → String → Bool
in_channel index ch id = is_some (GoMap.get id (members_of index ch))

in_channel-put :
    (index : GoMap String IdSet) (ch c id : String) (members : IdSet)
    → in_channel (GoMap.put ch members index) c id
      ≡ (if ch == c then is_some (GoMap.get id members) else in_channel index c id)
in_channel-put index ch c id members = ground (arith, get-put ch c members index)

in_channel-store_members :
    (index : GoMap String IdSet) (ch c id : String) (members : IdSet)
    → in_channel (store_members index ch members) c id
      ≡ (if ch == c then is_some (GoMap.get id members) else in_channel index c id)
unfolding store_members
in_channel-store_members index ch c id [] =
    ground (arith, get-del ch c index, get-nil {V = Bool} id)
in_channel-store_members index ch c id (m ∷ ms) = in_channel-put index ch c id (m ∷ ms)

pub in_channel-leave_index :
    (index : GoMap String IdSet) (ch id c i : String)
    → in_channel (leave_index index ch id) c i
      ≡ (if (ch == c) && (id == i) then false else in_channel index c i)
unfolding leave_index
in_channel-leave_index index ch id c i = elim (Option-cases (GoMap.get ch index)) [
  | inl e ↦ ground (arith, e, string_eq.beq_iff ch c, get-nil {V = Bool} i)
  | inr (members, e) ↦ ground (
    arith,
    e,
    string_eq.beq_iff ch c,
    in_channel-store_members index ch c i (GoMap.del id members),
    get-del id i members,
  )
]

pub in_channel-leave_all :
    (index : GoMap String IdSet) (chs : List String) (id c i : String)
    → in_channel (leave_all index chs id) c i
      ≡ (if contains c chs && (id == i) then false else in_channel index c i)
unfolding leave_all
in_channel-leave_all index [] id c i = refl
in_channel-leave_all index (ch ∷ chs) id c i =
    in_channel-leave_all (leave_index index ch id) chs id c i
    ∙ ground (
      arith,
      in_channel-leave_index index ch id c i,
      string_eq.beq_iff ch c,
      string_eq.beq_iff c ch,
    )

pub index-note_channel :
    (s : Server) (ch id : String) → (note_channel s ch id).channel_index ≡ s.channel_index
unfolding note_channel
index-note_channel s ch id = ground arith

in_channel-join_all :
    (s : Server) (ch : String) (ids : List String) (c i : String)
    → in_channel (join_all s ch ids).channel_index c i
      ≡ (((ch == c) && contains i ids) || in_channel s.channel_index c i)
unfolding join_all join
in_channel-join_all s ch [] c i = ground arith
in_channel-join_all s ch (id ∷ ids) c i =
    in_channel-join_all (join s ch id) ch ids c i
    ∙ ground (
      arith,
      ap (λ (index : GoMap String IdSet). in_channel index c i)
          (index-note_channel
            (record s {
              channel_index =
                  GoMap.put ch (GoMap.put id true (members_of s.channel_index ch)) s.channel_index;
            })
            ch id),
      in_channel-put s.channel_index ch c i (GoMap.put id true (members_of s.channel_index ch)),
      get-put id i true (members_of s.channel_index ch),
      string_eq.beq_iff ch c,
      string_eq.beq_iff id i,
      string_eq.beq_iff i id,
    )

-- A `channel_created` event puts exactly its members into the channel, beside those who are in it; no
-- other channel changes.
pub in_channel-create_channel :
    (s : Server) (ch : String) (ids : List String) (c i : String)
    → in_channel (create_channel s ch ids).channel_index c i
      ≡ (((ch == c) && contains i ids) || in_channel s.channel_index c i)
unfolding create_channel
in_channel-create_channel s ch ids c i =
    in_channel-join_all _ ch ids c i
    ∙ ground (
      arith,
      in_channel-put s.channel_index ch c i (members_of s.channel_index ch),
      string_eq.beq_iff ch c,
    )
