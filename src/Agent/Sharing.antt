-- ===== src/Agent/Sharing.antt =====
-- cmd/lan-a2a/main.go: sharing files and folders, and the callbacks that main installs for what other
-- agents send. A panic is `none`; the log lines that slice an identifier are among its causes.
pub mod Undelivered
mod Examples
use lan_a2a.Prelude.{
  ℕ, zero, suc, ◌+◌, ◌-◌, ◌*◌, ◌/◌, ◌%◌, ◌^◌, ◌≤◌, ◌<◌, String, ◌≡◌, refl, sym, ap, subst, ◌∙◌, ◌≢◌,
  ◌↔◌, ◌⊎◌, inl, inr, Bool, true, false, not, ◌&&◌, ◌||◌, Option, none, some, List, [], ◌∷◌, ◌++◌,
  map, arith, ltb, leb, if◌then◌else◌, Bool-cases, Option-cases, Result-cases, is_some, Eq, ◌==◌,
  nat_eq, string_eq, list_eq, beq_self, beq_ne, Result, ok, err, ◌>>=◌, length, take, drop, filter,
  All, get_elem?, In, In-filter, filter-In, contains, Distinct, length-append, contains-append,
  contains-filter, Bytes, codes, cons_unless_blank, trim_space, trim_left, trim_right, split_words,
  cons_word, space, is_space, append_text, fields, join_words, Distinct-append_one,
}
use Prim.Native.String.{len}
use lan_a2a.Prelude.Int.{ℤ, pos}
use lan_a2a.Prelude.GoMap
use lan_a2a.Protocol.{
  MsgType, Message, message, register, register_ok, ping, pong, text, file_meta, file_data,
  file_done, query_online, online_list, goodbye, bytes_reader,
}
use lan_a2a.Channel.{ChannelMode, mode_p2p, mode_relay}
use lan_a2a.Channel
use lan_a2a.Peers
use lan_a2a.RelayClient.{Client}
use lan_a2a.FileTransfer.{Os, Split}
use lan_a2a.FileTransfer
use lan_a2a.FileService.{FileService}
use lan_a2a.FileService
use lan_a2a.FileService.Folders.{FolderSync, World, SyncResult}
use lan_a2a.FileService.Folders
use lan_a2a.Agent.{Agent, Conn, direct, relayed, others, get_conn, relay_send, mark_lan_offline}

-- The agent with its managers of files; the file service is the one of `folder_sync`.
pub record Node : Type 0 where
  pub agent : Agent
  pub files : FileTransfer.Manager
  pub folder_sync : FolderSync

-- What a call meets outside: filepath.Abs and filepath.Base, SplitFile on a path, what the file service
-- meets, the clock, and the identifiers that NewMsgID makes, in order.
pub record Outside : Type 0 where
  pub abs : String → Result String
  pub base_of : String → String
  pub split : String → Split
  pub world : World
  pub now : ℕ
  pub new_msg_id : ℕ → String

abbrev pub data_message : Outside → String → String → ℕ → Bytes → Message
data_message o from ch i chunk = record (message file_data (o.new_msg_id (i + 1)) from) {
  channel_id = ch;
  chunk_idx = i;
  body = some chunk;
  timestamp = o.now;
}

-- The messages of a shared file: each chunk has an identifier of its own.
unfoldable pub data_messages : Outside → String → String → ℕ → List Bytes → List Message
data_messages o from ch i [] = []
data_messages o from ch i (chunk ∷ chunks) =
    data_message o from ch i chunk ∷ data_messages o from ch (i + 1) chunks

unfoldable pub meta_message : Outside → String → String → String → Split → Message
meta_message o from ch filename split = record (message file_meta (o.new_msg_id 0) from) {
  channel_id = ch;
  filename = filename;
  file_size = split.size;
  checksum = split.checksum;
  total_chunks = length split.chunks;
  timestamp = o.now;
}

unfoldable pub done_message : Outside → String → String → String → Split → Message
done_message o from ch filename split = record (message file_done (o.new_msg_id 0) from) {
  channel_id = ch;
  filename = filename;
  checksum = split.checksum;
  timestamp = o.now;
}

unfoldable pub file_messages : Outside → String → String → String → Split → List Message
unfolding data_messages
file_messages o from ch filename split =
    meta_message o from ch filename split
    ∷ (data_messages o from ch 0 split.chunks ++ done_message o from ch filename split ∷ [])

-- Messages go to the relay one after the other.
unfoldable pub relay_send_all : List Message → Agent → Option Agent
relay_send_all [] a = some a
relay_send_all (msg ∷ msgs) a = elim (a.relay) [
  | none ↦ none
  | some c ↦ elim (relay_send c msg a) [ none ↦ none | some a' ↦ relay_send_all msgs a' ]
]

abbrev shared : Node → Option Agent → Option (Node × Result (Unit {0}))
shared n none = none
shared n (some a) = some (record n { agent = a }, ok tt)

-- The relay branch of `ShareFile`.
unfoldable pub share_by_relay : Outside → String → String → Node → Option (Node × Result (Unit {0}))
unfolding file_messages
share_by_relay o ch path n = elim (o.abs path) [
  | err e ↦ some (n, err e)
  | ok abs_path ↦
      let split = o.split abs_path in
      elim (split.error) [
        | some e ↦ some (n, err e)
        | none ↦
            let msgs = file_messages o n.agent.id ch (o.base_of abs_path) split in
            shared n (relay_send_all msgs n.agent)
      ]
]

-- The other branch: a transfer to each other member; errors are logged.
unfoldable pub send_to_each : Outside → List String → String → FileService → FileService
send_to_each o [] path fs = fs
send_to_each o (peer_id ∷ ids) path fs =
    let w = o.world in
    let (fs', sent) = FileService.send_file fs w.now (w.new_id path) peer_id path (w.split path) in
    send_to_each o ids path fs'

unfoldable pub share_file : Outside → String → String → Node → Option (Node × Result (Unit {0}))
unfolding share_by_relay
share_file o ch path n = elim (Channel.get n.agent.channels ch) [
  | none ↦ some (n, err "channel not found")
  | some channel ↦ elim (channel.mode) [
    | mode_relay ↦ elim (n.agent.relay) [
      | none ↦ some (n, err "no relay connection")
      | some c ↦ share_by_relay o ch path n
    ]
    | mode_p2p ↦
        let fs = send_to_each o (others n.agent.id channel.members) path n.folder_sync.service in
        some (record n { folder_sync = record n.folder_sync { service = fs } }, ok tt)
  ]
]

-- The loop of `ShareFolder`; errors are logged.
unfoldable pub sync_with_each : World → List String → String → FolderSync → FolderSync
sync_with_each w [] root s = s
sync_with_each w (peer_id ∷ ids) root s =
    sync_with_each w ids root (Folders.sync_folder w s root peer_id).0

unfoldable pub share_folder : Outside → String → String → Node → Node × Result (Unit {0})
share_folder o ch path n = elim (Channel.get n.agent.channels ch) [
  | none ↦ (n, err "channel not found")
  | some channel ↦ elim (o.abs path) [
    | err e ↦ (n, err e)
    | ok root ↦
        let ids = others n.agent.id channel.members in
        (record n { folder_sync = sync_with_each o.world ids root n.folder_sync }, ok tt)
  ]
]

abbrev synced : Node → FolderSync × Result SyncResult → Node × Result (Unit {0})
synced n (s, ok r) = (record n { folder_sync = s }, ok tt)
synced n (s, err e) = (record n { folder_sync = s }, err e)

unfoldable pub sync_folder : Outside → String → String → Node → Node × Result (Unit {0})
sync_folder o path peer_id n =
    if not (Peers.is_online peer_id n.agent.peers)
    then (n, err "peer not online")
    else elim (o.abs path) [
      | err e ↦ (n, err e)
      | ok root ↦ synced n (Folders.sync_folder o.world n.folder_sync root peer_id)
    ]

-- The function that the file service sends a chunk with: `chunk_id` is a new identifier. A nil
-- connection panics.
unfoldable pub send_chunk :
    Agent → String → String → ℕ → Bytes → String → ℕ → Option (Result (ℕ × Message))
send_chunk a peer_id transfer_id idx bytes chunk_id now = elim (GoMap.get peer_id a.conns) [
  | none ↦ some (err "no connection")
  | some relayed ↦ none
  | some (direct h) ↦ some (
      ok (
        h,
        record (message file_data chunk_id a.id) {
          channel_id = transfer_id;
          chunk_idx = idx;
          body = some bytes;
          timestamp = now;
        },
      ))
]

-- a.p2p.OnMessage: the log lines slice the sender's identifier at 8 bytes and the channel's at 12.
unfoldable pub on_message : Os → ℕ → Message → String → Node → Option Node
on_message os now msg from n = elim (msg.type) [
  | text ↦
      if not (msg.channel_id == "") && Channel.is_member n.agent.channels msg.channel_id from
      then (if ltb (len msg.channel_id) 12 || ltb (len from) 8 then none else some n)
      else some n
  | file_meta ↦
      if ltb (len from) 8
      then none
      else some (record n {
        files =
            (FileTransfer.prepare_incoming os now n.files (codes msg.channel_id) msg.id from
              (codes msg.filename) msg.file_size msg.total_chunks).0;
      })
  | file_done ↦ if ltb (len from) 8 then none else some n
  | _ ↦ some n
]

-- a.p2p.OnFileData: a nil reader panics, and the error of `AddChunk` is dropped.
unfoldable pub on_file_data : Os → Message → Node → Option Node
on_file_data os msg n = elim (msg.body) [
  | none ↦ none
  | some bytes ↦
      some (record n {
        files = (FileTransfer.add_chunk os n.files msg.id (pos msg.chunk_idx) bytes).0;
      })
]

-- A message that the handler of a connection, or the relay's read loop, hands to the callbacks.
unfoldable pub receive : Os → ℕ → Message → Node → Option Node
unfolding on_message on_file_data
receive os now msg n = elim (msg.type) [
  | file_data ↦ on_file_data os msg n
  | goodbye ↦ some (record n { agent = mark_lan_offline msg.from n.agent })
  | _ ↦ on_message os now msg msg.from n
]

unfoldable pub receive_all : Os → ℕ → List Message → Node → Option Node
unfolding receive
receive_all os now [] n = some n
receive_all os now (msg ∷ msgs) n = elim (receive os now msg n) [
  | none ↦ none
  | some n' ↦ receive_all os now msgs n'
]
