-- ===== src/Agent/Sharing/Examples.antt =====
-- cmd/lan-a2a/main.go: a file that `agent-aa` shares through the relay with `agent-b`.
use lan_a2a.Prelude.{
  ℕ, ◌+◌, ◌≡◌, refl, ◌≢◌, true, none, some, [], ◌∷◌, arith, leb, if◌then◌else◌, nat_eq, string_eq,
  list_eq, ok, err, codes,
}
use lan_a2a.Prelude.GoMap
use lan_a2a.Peers.{new_peers}
use lan_a2a.FileTransfer.{Os, Split}
use lan_a2a.FileService
use lan_a2a.FileService.{FileService}
use lan_a2a.Prelude.Int.{pos}
use lan_a2a.Agent.Sharing.{Node, Outside, file_messages, meta_message, receive_all}
use lan_a2a.Agent.Sharing.Undelivered.{announced, file_messages-undelivered}

abbrev home_os : Os
home_os = record { home = codes "home" ∷ []; can_create = λ p. true; fails_after = λ p o b. none }

abbrev note_split : Split
note_split = record {
  chunks = codes "he" ∷ codes "llo" ∷ [];
  checksum = "full";
  size = 5;
  error = none;
}

abbrev outside : Outside
outside = record {
  abs = λ p. ok p;
  base_of = λ p. "note.txt";
  split = λ p. note_split;
  world = record {
    now = 9;
    walk = λ p. ok [];
    can_write = λ p. true;
    split = λ p. err "no such file";
    new_id = λ p. p;
  };
  now = 9;
  new_msg_id = λ k. if leb 1 k then "chunk-id" else "meta-id";
}

abbrev receiver : Node
receiver = record {
  agent = record {
    id = "agent-b";
    peers = new_peers "agent-b" 19100;
    relay = none;
    channels = [];
    conns = [];
    lan_online = [];
    relay_online = [];
    sent = [];
  };
  files = record {
    agent_id = "agent-b";
    incoming = [];
    has_on_complete = true;
    disk = [];
    completed = [];
  };
  folder_sync = record {
    manifests = [];
    saved = [];
    service = FileService.new_file_service (pos 4);
  };
}

chunk-ne-meta : (k : ℕ) → outside.new_msg_id (k + 1) ≢ outside.new_msg_id 0
chunk-ne-meta k p = ground (arith, p, string_eq.beq_iff "chunk-id" "meta-id")

nothing_comes : (k : ℕ) → GoMap.get (outside.new_msg_id (k + 1)) receiver.files.incoming ≡ none
unfolding GoMap.get
nothing_comes k = refl

file_messages-undelivered_example :
    let meta = meta_message outside "agent-aa" "ch-1" "note.txt" note_split in
    let left = announced home_os 9 meta receiver in
    (receive_all home_os 9 (file_messages outside "agent-aa" "ch-1" "note.txt" note_split) receiver
      ≡ some left)
    × (left.files.completed ≡ receiver.files.completed)
file_messages-undelivered_example =
    file_messages-undelivered home_os 9 outside "agent-aa" "ch-1" "note.txt" note_split receiver
      (omega arith) chunk-ne-meta nothing_comes
