-- ===== src/FileTransfer/Recording.antt =====
-- internal/filetransfer/transfer.go: what recording a chunk leaves, and how far a transfer has come.
use lan_a2a.Prelude.{
  ℕ, suc, ◌*◌, ◌^◌, ◌≤◌, ◌<◌, String, ◌≡◌, ap, ◌↔◌, Bool, true, false, none, some, List, [], ◌∷◌,
  arith, ltb, if◌then◌else◌, ◌==◌, nat_eq, string_eq, list_eq, Result, ok, length, All, contains,
  Distinct, length-append, contains-append, Bytes,
}
use lan_a2a.Prelude.GoMap
use lan_a2a.Prelude.GoMap.{GoMap, get-put, keys-put, Distinct-put}
use lan_a2a.Prelude.Int.{ℤ, pos, int_eq}
use lan_a2a.FileTransfer.{
  Os, FilePath, Manager, IncomingFile, chunk_size, chunk_offset, record_chunk, add_chunk,
}
use lan_a2a.FileTransfer.Pieces.{piece, Holds}
use lan_a2a.FileTransfer.Counting.{IsBelow}

-- The chunks of a file arrive, in the order of the list of their indices.
unfoldable pub deliver : Os → String → Bytes → Manager → List ℕ → Manager
deliver os msg_id file m [] = m
deliver os msg_id file m (k ∷ ks) =
    deliver os msg_id file (add_chunk os m msg_id (pos k) (piece file k)).0 ks

-- No write fails.
abbrev pub IsSound : Os → Type 0
IsSound os = (p : FilePath) (o : ℕ) (b : Bytes) → os.fails_after p o b ≡ none

-- `n` chunks are what a file of this length is cut into, and their offsets fit an int64.
pub record IsCount (file : Bytes) (n : ℕ) : Type 0 where
  pub covers : length file ≤ n * chunk_size
  pub needed : (k : ℕ) → k < n → k * chunk_size < length file
  pub fits : n < 2 ^ 47

-- A transfer of `file` to `path` of which the chunks `seen` have arrived.
pub record Progress (file : Bytes) (n : ℕ) (path : FilePath) (msg_id : String) (seen : List ℕ)
    (m : Manager) : Type 0 where
  pub fi : IncomingFile
  pub found : GoMap.get msg_id m.incoming ≡ some fi
  pub stored : fi.local_path ≡ path
  pub total : fi.total_chunks ≡ n
  pub distinct : Distinct (GoMap.keys fi.received)
  pub below : All (IsBelow n) (GoMap.keys fi.received)
  pub marks : (k : ℕ) → contains (pos k) (GoMap.keys fi.received) ≡ contains k seen
  pub content : Bytes
  pub on_disk : GoMap.get path m.disk ≡ some content
  pub held : Holds file seen content
  pub opened : fi.is_open ≡ ltb (GoMap.len fi.received) n
  pub reports : m.has_on_complete ≡ true
  pub reported : (m.completed ≡ []) ↔ (GoMap.len fi.received < n)

-- The file as `AddChunk` leaves it.
abbrev pub marked : IncomingFile → ℤ → IncomingFile
marked fi idx = record fi { received = GoMap.put idx true fi.received }

abbrev pub all_received : IncomingFile → Bool
all_received fi = GoMap.len fi.received == fi.total_chunks

pub record Recorded (m : Manager) (msg_id : String) (fi : IncomingFile)
    (r : Manager × Result (Unit {0})) : Type 0 where
  pub same_disk : r.0.disk ≡ m.disk
  pub same_callback : r.0.has_on_complete ≡ m.has_on_complete
  pub now_stored :
      GoMap.get msg_id r.0.incoming
      ≡ some (record fi { is_open = if all_received fi then false else fi.is_open })
  pub now_reported :
      r.0.completed
      ≡ (if all_received fi then record fi { is_open = false } ∷ m.completed else m.completed)
  pub succeeds : r.1 ≡ ok tt

pub record_chunk-Recorded :
    (m : Manager) (msg_id : String) (fi : IncomingFile) (idx : ℤ) (content : Bytes)
    → GoMap.get fi.local_path m.disk ≡ some content
    → m.has_on_complete ≡ true
    → Recorded m msg_id (marked fi idx) (record_chunk m msg_id fi idx)
unfolding record_chunk
record_chunk-Recorded m msg_id fi idx content e cb = ground (
  arith,
  get-put msg_id msg_id (record (marked fi idx) { is_open = false }) m.incoming,
  get-put msg_id msg_id (marked fi idx) m.incoming,
  string_eq.beq_iff msg_id msg_id,
)

pub len-put :
    (idx : ℤ) (r : GoMap ℤ Bool)
    → GoMap.len (GoMap.put idx true r)
      ≡ (if contains idx (GoMap.keys r) then GoMap.len r else suc (GoMap.len r))
len-put idx r =
    ground
      (arith, ap (length {A = ℤ}) (keys-put idx true r), length-append (GoMap.keys r) (idx ∷ []))

pub IsBelow-put :
    (n k : ℕ) (r : GoMap ℤ Bool)
    → k < n
    → All (IsBelow n) (GoMap.keys r)
    → All (IsBelow n) (GoMap.keys (GoMap.put (pos k) true r))
unfolding GoMap.put
IsBelow-put n k [] h b = (h, tt)
IsBelow-put n k ((z, v) ∷ r) h b = ground (arith, IsBelow-put n k r h b.1)

pub marks-put :
    (k j : ℕ) (r : GoMap ℤ Bool) (seen : List ℕ)
    → contains (pos j) (GoMap.keys r) ≡ contains j seen
    → contains (pos j) (GoMap.keys (GoMap.put (pos k) true r)) ≡ contains j (k ∷ seen)
marks-put k j r seen h = ground (
  arith,
  ap (contains (pos j)) (keys-put (pos k) true r),
  contains-append (pos j) (GoMap.keys r) (pos k ∷ []),
  int_eq.beq_iff (pos j) (pos k),
)

pub chunk_offset-pos : (k : ℕ) → k < 2 ^ 47 → chunk_offset (pos k) ≡ pos (k * chunk_size)
chunk_offset-pos k h = ground arith

pub Holds-again :
    (file : Bytes) (seen : List ℕ) (content : Bytes) (k : ℕ)
    → contains k seen ≡ true
    → Holds file seen content
    → Holds file (k ∷ seen) content
Holds-again file seen content k h held = record {
  short = held.short;
  same = λ i lt e. held.same i lt (ground (arith, e, h));
}
