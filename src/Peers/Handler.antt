-- ===== src/Peers/Handler.antt =====
-- internal/p2p/p2p.go: the handler of a connection that a peer opens.
use lan_a2a.Prelude.{
  ℕ, String, ◌≡◌, refl, true, false, some, List, [], ◌∷◌, ◌++◌, arith, nat_eq, string_eq, list_eq,
  All,
}
use lan_a2a.Prelude.GoMap
use lan_a2a.Protocol.{
  Message, bytes_reader, text, file_meta, file_data, file_done, goodbye, register,
}
use lan_a2a.Peers.{
  Peers, Event, on_message, on_file_data, on_goodbye, admit, read_messages, handle_ws, is_online,
  remove_online,
}

-- The messages before the first goodbye.
abbrev pub until_goodbye : List Message → List Message
until_goodbye [] = []
until_goodbye (m ∷ ms) = elim (m.type) [ goodbye ↦ [] | _ ↦ m ∷ until_goodbye ms ]

-- The callback that a message goes to.
abbrev pub delivered : Message → List Event
delivered m = elim (m.type) [
  | text ↦ on_message m m.from ∷ []
  | file_meta ↦ on_message m m.from ∷ []
  | file_done ↦ on_message m m.from ∷ []
  | file_data ↦ on_file_data m (bytes_reader m.body) m.from ∷ []
  | _ ↦ []
]

abbrev pub deliveries : List Message → List Event
deliveries [] = []
deliveries (m ∷ ms) = delivered m ++ deliveries ms

abbrev pub From : String → Message → Type 0
From id m = m.from ≡ id

read_messages_lem :
    (id : String) (ms : List Message) (p : Peers)
    → All (From id) ms
    → read_messages id ms p
      ≡ (remove_online id p, deliveries (until_goodbye ms) ++ on_goodbye id ∷ [])
unfolding read_messages
read_messages_lem id [] p h = refl
read_messages_lem id (m ∷ ms) p h = ground (arith, read_messages_lem id ms p h.1)

-- A connection that a peer opens with a registration, and on which every message is the peer's: the
-- callbacks get the messages before the first goodbye, in their order and by their types, and then
-- one goodbye for the peer, whether it said goodbye or the connection broke; and the peer is no
-- longer online.
pub handle_ws_exact :
    (m : Message) (addr : String) (now : ℕ) (ms : List Message) (p : Peers)
    → m.type ≡ register
    → All (From m.from) ms
    → let end = handle_ws (some m) true addr now ms p in
      (end.1 ≡ deliveries (until_goodbye ms) ++ on_goodbye m.from ∷ [])
      × (is_online m.from end.0 ≡ false)
unfolding handle_ws is_online remove_online
handle_ws_exact m addr now ms p r h = ground (
  arith,
  read_messages_lem m.from ms (admit m addr now p) h,
  GoMap.get-del m.from m.from (admit m addr now p).online,
  string_eq.beq_iff m.from m.from,
)
