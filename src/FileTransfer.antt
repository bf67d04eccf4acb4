-- ===== src/FileTransfer.antt =====
-- internal/filetransfer/transfer.go: files that arrive in chunks, written to disk at their offsets.
-- A path is the list of its components, the last one first, as `filepath.Join` cleans it below an
-- absolute home directory. The disk maps paths to contents: handles of one path share its content.
pub mod Names
pub mod Pieces
mod Counting
pub mod Recording
pub mod Reassembly
pub mod Interleaving
pub mod Splitting
mod Examples
use lan_a2a.Prelude.{
  ℕ, zero, suc, ◌+◌, ◌-◌, ◌*◌, ◌/◌, ◌%◌, ◌^◌, ◌≤◌, ◌<◌, String, ◌≡◌, refl, sym, ap, subst, ◌∙◌, ◌≢◌,
  ◌↔◌, ◌⊎◌, inl, inr, Bool, true, false, not, ◌&&◌, ◌||◌, Option, none, some, List, [], ◌∷◌, ◌++◌,
  map, arith, ltb, leb, if◌then◌else◌, Bool-cases, Option-cases, is_some, Eq, ◌==◌, nat_eq,
  string_eq, list_eq, beq_self, beq_ne, Result, ok, err, ◌>>=◌, length, take, drop, filter, All, In,
  In-filter, filter-In, contains, Distinct, length-append, contains-append, contains-filter, Bytes,
  codes,
}
use mathlib.Core.List.{foldl}
use lan_a2a.Prelude.GoMap
use lan_a2a.Prelude.GoMap.{GoMap}
use lan_a2a.Prelude.Int.{ℤ, pos, negsuc, int_eq, signed64, mul64_bits}

abbrev pub chunk_size : ℕ
chunk_size = 64 * 1024

abbrev pub slash : ℕ
slash = b'/'

abbrev pub is_empty : Bytes → Bool
is_empty [] = true
is_empty (c ∷ cs) = false

unfoldable pub strip_slashes : Bytes → Bytes
strip_slashes [] = []
strip_slashes (c ∷ cs) =
    let rest = strip_slashes cs in if is_empty rest && c == slash then [] else c ∷ rest

unfoldable pub last_element : Bytes → Bytes → Bytes
last_element acc [] = acc
last_element acc (c ∷ cs) = last_element (if c == slash then [] else acc ++ c ∷ []) cs

-- filepath.Base
unfoldable pub base : Bytes → Bytes
unfolding strip_slashes last_element
base name =
    if is_empty name
    then codes "."
    else let last = last_element [] (strip_slashes name) in
      if is_empty last then codes "/" else last

unfoldable pub sanitize_filename : Bytes → Bytes
unfolding base
sanitize_filename name =
    let last = base name in
    if last == codes "." || last == codes ".." || last == codes "/" then codes "unnamed" else last

abbrev pub FilePath : Type 0
FilePath = List Bytes

unfoldable pub split_path : Bytes → Bytes → List Bytes
split_path acc [] = acc ∷ []
split_path acc (c ∷ cs) = elim (c == slash) [
  | true ↦ acc ∷ split_path [] cs
  | false ↦ split_path (acc ++ c ∷ []) cs
]

abbrev pub parent : FilePath → FilePath
parent [] = []
parent (c ∷ p) = p

unfoldable pub enter : FilePath → Bytes → FilePath
enter p c = if is_empty c || c == codes "." then p else if c == codes ".." then parent p else c ∷ p

-- filepath.Join of a cleaned absolute path and one more element.
unfoldable pub join : FilePath → Bytes → FilePath
unfolding split_path enter
join p element = foldl enter p (split_path [] element)

-- What the code calls of `os`: the home directory, whether a file can be created, and how many bytes
-- of a write reach the disk before it fails (`none`: all of them, and it does not fail).
pub record Os : Type 0 where
  pub home : FilePath
  pub can_create : FilePath → Bool
  pub fails_after : FilePath → ℕ → Bytes → Option ℕ

unfoldable pub download_dir : Os → Bytes → FilePath
unfolding join
download_dir os channel_id = join (join os.home (codes ".lan-agent-bus/downloads")) channel_id

pub record IncomingFile : Type 0 where
  pub channel_id : Bytes
  pub filename : Bytes
  pub file_size : ℕ
  pub from : String
  pub received_at : ℕ
  pub total_chunks : ℕ
  pub received : GoMap ℤ Bool
  pub is_open : Bool
  pub local_path : FilePath

-- The manager with the disk, and the files that `OnComplete` was called with, newest first.
pub record Manager : Type 0 where
  pub agent_id : String
  pub incoming : GoMap String IncomingFile
  pub has_on_complete : Bool
  pub disk : GoMap FilePath Bytes
  pub completed : List IncomingFile

unfoldable pub new_manager : String → Bool → GoMap FilePath Bytes → Manager
new_manager agent_id has_on_complete disk = record {
  agent_id = agent_id;
  incoming = [];
  has_on_complete = has_on_complete;
  disk = disk;
  completed = [];
}

-- What `PrepareIncoming` notes of a transfer, `os.Create` having succeeded or not.
unfoldable pub incoming_file : Os → ℕ → Bytes → String → Bytes → ℕ → ℕ → IncomingFile
incoming_file os now channel_id from filename file_size total_chunks =
    let safe = sanitize_filename filename in
    let path = join (download_dir os channel_id) safe in
    record {
      channel_id = channel_id;
      filename = safe;
      file_size = file_size;
      from = from;
      received_at = now;
      total_chunks = total_chunks;
      received = [];
      is_open = os.can_create path;
      local_path = path;
    }

unfoldable pub prepare_incoming :
    Os → ℕ → Manager → Bytes → String → String → Bytes → ℕ → ℕ → Manager × FilePath
unfolding incoming_file
prepare_incoming os now m channel_id msg_id from filename file_size total_chunks =
    let fi = incoming_file os now channel_id from filename file_size total_chunks in
    (
      record m {
        incoming = GoMap.put msg_id fi m.incoming;
        disk = if fi.is_open then GoMap.put fi.local_path [] m.disk else m.disk;
      },
      fi.local_path,
    )

-- The content after `WriteAt` of some bytes at an offset: a gap is filled by zeros.
unfoldable pub patch : Bytes → ℕ → Bytes → Bytes
patch content zero bytes = bytes ++ drop (length bytes) content
patch [] (suc k) bytes = 0 ∷ patch [] k bytes
patch (c ∷ content) (suc k) bytes = c ∷ patch content k bytes

unfoldable pub write_at : Bytes → ℕ → Bytes → Bytes
unfolding patch
write_at content offset bytes = if is_empty bytes then content else patch content offset bytes

abbrev pub content_of : Option Bytes → Bytes
content_of none = []
content_of (some c) = c

-- int64(chunkIdx) * ChunkSize
abbrev pub chunk_offset : ℤ → ℤ
chunk_offset idx = signed64 (mul64_bits idx chunk_size)

-- `WriteAt` on the file of a path; the flag says whether it returned an error.
unfoldable pub write_file :
    Os → GoMap FilePath Bytes → FilePath → ℤ → Bytes → GoMap FilePath Bytes × Bool
unfolding write_at
write_file os disk path (negsuc k) bytes = (disk, true)
write_file os disk path (pos offset) bytes =
    let old = content_of (GoMap.get path disk) in
    elim (os.fails_after path offset bytes) [
      | none ↦ (GoMap.put path (write_at old offset bytes) disk, false)
      | some n ↦ (GoMap.put path (write_at old offset (take n bytes)) disk, true)
    ]

-- `assemble`: close the file, read it again (its checksum is only logged), and report it.
unfoldable pub assemble : Manager → String → IncomingFile → Manager × Result (Unit {0})
assemble m msg_id fi =
    let closed : IncomingFile = record fi { is_open = false } in
    let m' : Manager = record m { incoming = GoMap.put msg_id closed m.incoming } in
    elim (GoMap.get fi.local_path m.disk) [
      | none ↦ (m', err "open: no such file")
      | some content ↦ (
        (if m.has_on_complete then record m' { completed = closed ∷ m.completed } else m'),
        ok tt,
      )
    ]

-- The part of `AddChunk` after the write.
unfoldable pub record_chunk : Manager → String → IncomingFile → ℤ → Manager × Result (Unit {0})
unfolding assemble
record_chunk m msg_id fi idx =
    let fi' : IncomingFile = record fi { received = GoMap.put idx true fi.received } in
    if GoMap.len fi'.received == fi'.total_chunks
    then assemble m msg_id fi'
    else (record m { incoming = GoMap.put msg_id fi' m.incoming }, ok tt)

unfoldable pub add_chunk_to :
    Os → Manager → String → IncomingFile → ℤ → Bytes → Manager × Result (Unit {0})
unfolding write_file record_chunk
add_chunk_to os m msg_id fi idx bytes =
    if fi.is_open
    then (let (disk, failed) = write_file os m.disk fi.local_path (chunk_offset idx) bytes in
        let m' : Manager = record m { disk = disk } in
        if failed then (m', err "write chunk") else record_chunk m' msg_id fi idx)
    else record_chunk m msg_id fi idx

unfoldable pub add_chunk : Os → Manager → String → ℤ → Bytes → Manager × Result (Unit {0})
add_chunk os m msg_id idx bytes = elim (GoMap.get msg_id m.incoming) [
  | none ↦ (m, err "unknown transfer")
  | some fi ↦ add_chunk_to os m msg_id fi idx bytes
]

-- How a read of a file ended.
pub data ReadEnd : Type 0 where
  more eof : ReadEnd
  read_failed : String → ReadEnd

pub record Split : Type 0 where
  pub chunks : List Bytes
  pub checksum : String
  pub size : ℕ
  pub error : Option String

-- The loop of `SplitFile` over what `Read` returns; `hashed` is what was written to the hash.
unfoldable pub split_loop :
    (Bytes → String) → ℕ → List Bytes → Bytes → List (Bytes × ReadEnd) → Split
split_loop hash size chunks hashed [] = record {
  chunks = chunks;
  checksum = hash hashed;
  size = size;
  error = none;
}
split_loop hash size chunks hashed ((bytes, ending) ∷ reads) =
    let chunks' = if is_empty bytes then chunks else chunks ++ bytes ∷ [] in
    let hashed' = if is_empty bytes then hashed else hashed ++ bytes in
    elim ending [
      | more ↦ split_loop hash size chunks' hashed' reads
      | eof ↦ record { chunks = chunks'; checksum = hash hashed'; size = size; error = none }
      | read_failed e ↦ record { chunks = chunks'; checksum = ""; size = size; error = some e }
    ]

-- `SplitFile`, given what `Open` and `Stat` return and the results of the reads.
unfoldable pub split_file : (Bytes → String) → Option ℕ → List (Bytes × ReadEnd) → Split
unfolding split_loop
split_file hash none reads = record { chunks = []; checksum = ""; size = 0; error = some "open" }
split_file hash (some size) reads = split_loop hash size [] [] reads
