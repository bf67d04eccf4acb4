-- ===== src/Agent/Sharing/Undelivered.antt =====
-- cmd/lan-a2a/main.go: what becomes of a shared file at the agent that receives its messages.
use lan_a2a.Prelude.{
  ℕ, ◌+◌, ◌≤◌, String, ◌≡◌, refl, ◌∙◌, ◌≢◌, none, some, List, [], ◌∷◌, ◌++◌, arith, nat_eq,
  string_eq, list_eq, Bytes, codes, length,
}
use Prim.Native.String.{len}
use lan_a2a.Prelude.GoMap
use lan_a2a.Prelude.GoMap.{get-put}
use lan_a2a.Protocol.{Message, file_data}
use lan_a2a.FileTransfer.{Os, Split, IncomingFile, incoming_file}
use lan_a2a.FileTransfer
use lan_a2a.Agent.Sharing.{
  Node, Outside, data_message, data_messages, meta_message, done_message, file_messages, receive,
  receive_all,
}

-- No transfer that comes in has this identifier.
abbrev IsUnknown : Node → String → Type 0
IsUnknown n id = GoMap.get id n.files.incoming ≡ none

receive-data :
    (os : Os) (now : ℕ) (msg : Message) (bytes : Bytes) (n : Node)
    → msg.type ≡ file_data
    → msg.body ≡ some bytes
    → IsUnknown n msg.id
    → receive os now msg n ≡ some n
unfolding receive FileTransfer.add_chunk
receive-data os now msg bytes n t b u = ground (arith, t, b, u)

receive_all-step :
    (os : Os) (now : ℕ) (msg : Message) (msgs : List Message) (n n' : Node)
    → receive os now msg n ≡ some n'
    → receive_all os now (msg ∷ msgs) n ≡ receive_all os now msgs n'
unfolding receive_all
receive_all-step os now msg msgs n n' h = rw (h, receive_all) refl

receive_all-data :
    (os : Os) (now : ℕ) (o : Outside) (from ch : String) (i : ℕ) (chunks : List Bytes)
    (rest : List Message) (n : Node)
    → ((k : ℕ) → IsUnknown n (o.new_msg_id (k + 1)))
    → receive_all os now (data_messages o from ch i chunks ++ rest) n ≡ receive_all os now rest n
unfolding data_messages receive_all
receive_all-data os now o from ch i [] rest n u = refl
receive_all-data os now o from ch i (chunk ∷ chunks) rest n u =
    let msg = data_message o from ch i chunk in
    receive_all-step os now msg (data_messages o from ch (i + 1) chunks ++ rest) n n
      (receive-data os now msg chunk n refl refl (u i))
    ∙ receive_all-data os now o from ch (i + 1) chunks rest n u

-- What a receiver makes of the message that announces a file.
abbrev pub announced : Os → ℕ → Message → Node → Node
announced os now msg n = record n {
  files =
      (FileTransfer.prepare_incoming os now n.files (codes msg.channel_id) msg.id msg.from
        (codes msg.filename) msg.file_size msg.total_chunks).0;
}

receive-meta :
    (os : Os) (now : ℕ) (o : Outside) (from ch filename : String) (split : Split) (n : Node)
    → 8 ≤ len from
    → receive os now (meta_message o from ch filename split) n
      ≡ some (announced os now (meta_message o from ch filename split) n)
unfolding receive meta_message
receive-meta os now o from ch filename split n h = ground arith

receive-done :
    (os : Os) (now : ℕ) (o : Outside) (from ch filename : String) (split : Split) (n : Node)
    → 8 ≤ len from
    → receive os now (done_message o from ch filename split) n ≡ some n
unfolding receive done_message
receive-done os now o from ch filename split n h = ground arith

announced-IsUnknown :
    (os : Os) (now : ℕ) (o : Outside) (from ch filename : String) (split : Split) (n : Node) (k : ℕ)
    → o.new_msg_id (k + 1) ≢ o.new_msg_id 0
    → IsUnknown n (o.new_msg_id (k + 1))
    → IsUnknown (announced os now (meta_message o from ch filename split) n) (o.new_msg_id (k + 1))
unfolding meta_message FileTransfer.prepare_incoming
announced-IsUnknown os now o from ch filename split n k d u =
    let fi =
      incoming_file os now (codes ch) from (codes filename) split.size (length split.chunks) in
    ground (
      arith,
      get-put {V = IncomingFile} (o.new_msg_id 0) (o.new_msg_id (k + 1)) fi n.files.incoming,
      string_eq.beq_iff (o.new_msg_id 0) (o.new_msg_id (k + 1)),
      d,
      u,
    )

-- A file that is shared through the relay never arrives: whatever its content, an agent that receives
-- all its messages, in order, is left as if only the announcement had come, and reports no file. The
-- chunks come under identifiers of their own, which are new, and not under the announced one. The
-- sender's identifier has at least eight bytes.
pub file_messages-undelivered :
    (os : Os) (now : ℕ) (o : Outside) (from ch filename : String) (split : Split) (n : Node)
    → 8 ≤ len from
    → ((k : ℕ) → o.new_msg_id (k + 1) ≢ o.new_msg_id 0)
    → ((k : ℕ) → GoMap.get (o.new_msg_id (k + 1)) n.files.incoming ≡ none)
    → let left = announced os now (meta_message o from ch filename split) n in
      (receive_all os now (file_messages o from ch filename split) n ≡ some left)
      × (left.files.completed ≡ n.files.completed)
unfolding file_messages receive_all FileTransfer.prepare_incoming
file_messages-undelivered os now o from ch filename split n h d u =
    let meta = meta_message o from ch filename split in
    let left = announced os now meta n in
    let last = done_message o from ch filename split in
    (
      receive_all-step os now meta (data_messages o from ch 0 split.chunks ++ last ∷ []) n left
            (receive-meta os now o from ch filename split n h)
          ∙ receive_all-data os now o from ch 0 split.chunks (last ∷ []) left
              (λ k. announced-IsUnknown os now o from ch filename split n k (d k) (u k))
          ∙ receive_all-step os now last [] left left
              (receive-done os now o from ch filename split left h),
      refl,
    )
