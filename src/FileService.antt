-- ===== src/FileService.antt =====
-- internal/fileservice/service.go and types.go: chunked transfers with retries.
-- A worker touches its own chunk only, so the chunks that the workers leave are computed one after the
-- other; the order of their rounds, and the limit of concurrent workers, are in Pool. What the file
-- system, the connection and the closing of `done` answer is an `Env`. The progress, a float in the
-- source, is the fraction (done, total).
pub mod Chunks
pub mod Workers
pub mod Outcome
pub mod Folders
pub mod Pool
pub mod Events
mod Examples
use lan_a2a.Prelude.{
  ℕ, zero, suc, ◌+◌, ◌-◌, ◌*◌, ◌/◌, ◌%◌, ◌^◌, ◌≤◌, ◌<◌, String, ◌≡◌, refl, sym, ap, subst, ◌∙◌, ◌≢◌,
  ◌↔◌, ◌⊎◌, inl, inr, Bool, true, false, not, ◌&&◌, ◌||◌, Option, none, some, List, [], ◌∷◌, ◌++◌,
  map, arith, ltb, leb, if◌then◌else◌, Bool-cases, Option-cases, is_some, Eq, ◌==◌, nat_eq,
  string_eq, list_eq, beq_self, beq_ne, Result, ok, err, ◌>>=◌, length, take, drop, filter, All,
  get_elem?, In, In-filter, filter-In, contains, Distinct, length-append, contains-append,
  contains-filter, Bytes, codes,
}
use lan_a2a.Prelude.GoMap
use lan_a2a.Prelude.GoMap.{GoMap}
use lan_a2a.Prelude.Int.{ℤ, pos, negsuc}
use lan_a2a.FileTransfer.{ReadEnd, more, eof, read_failed, is_empty}

pub data TransferStatus : Type 0 where
  pending running completed failed paused : TransferStatus

pub data ChunkStatus : Type 0 where
  chunk_pending chunk_sending chunk_done chunk_failed : ChunkStatus

abbrev pub is_done : ChunkStatus → Bool
is_done chunk_done = true
is_done _ = false

pub record Chunk : Type 0 where
  pub index : ℕ
  pub offset : ℕ
  pub size : ℕ
  pub hash : String
  pub status : ChunkStatus
  pub retries : ℕ

pub record Transfer : Type 0 where
  pub id : String
  pub file_path : String
  pub file_size : ℕ
  pub file_hash : String
  pub chunk_size : ℕ
  pub total_chunks : ℕ
  pub chunks : List Chunk
  pub status : TransferStatus
  pub progress : ℕ × ℕ
  pub created_at : ℕ
  pub updated_at : ℕ

abbrev pub default_chunk_size : ℕ
default_chunk_size = 64 * 1024

-- `HashFile`, given the bytes that `io.Copy` read, or nothing where a call failed.
unfoldable pub hash_file : (Bytes → String) → Option Bytes → Result (String × ℕ)
hash_file hash none = err "open"
hash_file hash (some content) = ok (hash content, length content)

-- The loop of `SplitIntoChunks` over what `Read` returns.
unfoldable pub chunk_loop :
    (Bytes → String) → ℕ → ℕ → List Chunk → List (Bytes × ReadEnd) → Result (List Chunk)
chunk_loop hash idx offset chunks [] = ok chunks
chunk_loop hash idx offset chunks ((bytes, ending) ∷ reads) =
    let chunk : Chunk = record {
      index = idx;
      offset = offset;
      size = length bytes;
      hash = hash bytes;
      status = chunk_pending;
      retries = 0;
    } in
    let got = not (is_empty bytes) in
    let chunks' = if got then chunks ++ chunk ∷ [] else chunks in
    elim ending [
      | more ↦
          chunk_loop hash (if got then idx + 1 else idx)
            (if got then offset + length bytes else offset) chunks' reads
      | eof ↦ ok chunks'
      | read_failed e ↦ err e
    ]

-- `SplitIntoChunks`, given the size from `Stat`, the bytes that `io.Copy` hashed, and the reads.
unfoldable pub split_into_chunks :
    (Bytes → String) → Option ℕ → Bytes → List (Bytes × ReadEnd) → Result (List Chunk × String × ℕ)
unfolding chunk_loop
split_into_chunks hash none copied reads = err "open"
split_into_chunks hash (some size) copied reads =
    chunk_loop hash 0 0 [] reads >>= λ chunks. ok (chunks, hash copied, size)

-- `ReadChunk` of a file with this content, or of one that cannot be opened; with what its one call of
-- Read meets: an error, or a number of bytes that it returns at most.
unfoldable pub read_chunk : Option Bytes → Result ℕ → Chunk → Result Bytes
read_chunk none r c = err "open"
read_chunk (some content) (err e) c = err e
read_chunk (some content) (ok most) c =
    if leb (length content) c.offset && ltb 0 c.size
    then err "EOF"
    else ok (take most (take c.size (drop c.offset content)))

-- What one round of a worker meets: `done` is closed, the chunk cannot be read, it cannot be sent,
-- or it is sent.
pub data Attempt : Type 0 where
  halted unreadable unsent sent : Attempt

pub data WorkerEnd : Type 0 where
  delivered stopped exhausted : WorkerEnd

-- `closed_at i`: `done` is closed when the loop reaches chunk `i`. `outcome i r`: what the worker of
-- chunk `i` meets in the round in which it has made `r` retries.
pub record Env : Type 0 where
  pub closed_at : ℕ → Bool
  pub outcome : ℕ → ℕ → Attempt

-- `for c.Retries < 3`; the fuel is the number of rounds.
unfoldable pub worker : (ℕ → Attempt) → ℕ → Chunk → Chunk × WorkerEnd
worker outcome zero c = (c, exhausted)
worker outcome (suc fuel) c = elim (ltb c.retries 3) [
  | false ↦ (c, exhausted)
  | true ↦ elim (outcome c.retries) [
    | halted ↦ (c, stopped)
    | unreadable ↦ worker outcome fuel (record c { retries = c.retries + 1 })
    | unsent ↦ worker outcome fuel (record c { retries = c.retries + 1; status = chunk_failed })
    | sent ↦ (record c { status = chunk_done }, delivered)
  ]
]

abbrev pub rounds : ℕ
rounds = 4

abbrev pub is_exhausted : WorkerEnd → Bool
is_exhausted exhausted = true
is_exhausted _ = false

-- The chunks that the workers leave, whether one of them gave up, and whether the loop returned early.
pub record Launched : Type 0 where
  pub chunks : List Chunk
  pub any_failed : Bool
  pub returned : Bool

unfoldable pub launch : Env → ℕ → List Chunk → Launched
launch env i [] = record { chunks = []; any_failed = false; returned = false }
launch env i (c ∷ cs) =
    let rest = launch env (i + 1) cs in
    let (c', ending) =
      if is_done c.status then (c, delivered) else worker (env.outcome i) rounds c in
    if env.closed_at i
    then record { chunks = c ∷ cs; any_failed = false; returned = true }
    else record {
      chunks = c' ∷ rest.chunks;
      any_failed = is_exhausted ending || rest.any_failed;
      returned = rest.returned;
    }

unfoldable pub done_count : List Chunk → ℕ
done_count [] = 0
done_count (c ∷ cs) = if is_done c.status then done_count cs + 1 else done_count cs

-- `sendConcurrent`, when all its workers have ended; the progress is updated when a chunk was
-- delivered.
unfoldable pub send_concurrent : Env → ℕ → Transfer → Transfer
unfolding launch done_count
send_concurrent env now t =
    let l = launch env 0 t.chunks in
    let unchanged = done_count l.chunks == done_count t.chunks in
    let sent_all : Transfer = record t {
      chunks = l.chunks;
      progress = if unchanged then t.progress else (done_count l.chunks, t.total_chunks);
      updated_at = if unchanged then t.updated_at else now;
    } in
    if l.returned
    then sent_all
    else record sent_all { status = if l.any_failed then failed else completed; updated_at = now }

-- The service: the transfers by ID, and the goroutines that were started, newest first.
pub record FileService : Type 0 where
  pub transfers : GoMap String Transfer
  pub max_workers : ℕ
  pub started : List (String × String)

unfoldable pub new_file_service : ℤ → FileService
new_file_service (pos zero) = record { transfers = []; max_workers = 4; started = [] }
new_file_service (pos (suc n)) = record { transfers = []; max_workers = suc n; started = [] }
new_file_service (negsuc n) = record { transfers = []; max_workers = 4; started = [] }

-- `SendFile`, given what `SplitIntoChunks` returned and the ID made from the clock.
unfoldable pub send_file :
    FileService
    → ℕ
    → String
    → String
    → String
    → Result (List Chunk × String × ℕ)
    → FileService × Result Transfer
send_file fs now id peer_id file_path (err e) = (fs, err e)
send_file fs now id peer_id file_path (ok (chunks, checksum, size)) =
    let t : Transfer = record {
      id = id;
      file_path = file_path;
      file_size = size;
      file_hash = checksum;
      chunk_size = default_chunk_size;
      total_chunks = length chunks;
      chunks = chunks;
      status = running;
      progress = (0, length chunks);
      created_at = now;
      updated_at = now;
    } in
    (
      record fs { transfers = GoMap.put id t fs.transfers; started = (peer_id, id) ∷ fs.started },
      ok t,
    )

unfoldable pub get_transfer : FileService → String → Option Transfer
get_transfer fs id = GoMap.get id fs.transfers

-- The methods that only set the status.
unfoldable pub set_status : FileService → String → TransferStatus → FileService × Result (Unit {0})
set_status fs id status = elim (GoMap.get id fs.transfers) [
  | none ↦ (fs, err "transfer not found")
  | some t ↦
      (record fs { transfers = GoMap.put id (record t { status = status }) fs.transfers }, ok tt)
]

unfoldable pub pause_transfer : FileService → String → FileService × Result (Unit {0})
unfolding set_status
pause_transfer fs id = set_status fs id paused

unfoldable pub cancel_transfer : FileService → String → FileService × Result (Unit {0})
unfolding set_status
cancel_transfer fs id = set_status fs id failed

unfoldable pub resume_transfer : FileService → String → String → FileService × Result (Unit {0})
unfolding set_status
resume_transfer fs id peer_id =
    let (fs', r) = set_status fs id running in
    elim r [
      | ok u ↦ (record fs' { started = (peer_id, id) ∷ fs'.started }, ok u)
      | err e ↦ (fs', err e)
    ]

-- A started goroutine runs to its end.
unfoldable pub finish : FileService → Env → ℕ → String → FileService
finish fs env now id = elim (GoMap.get id fs.transfers) [
  | none ↦ fs
  | some t ↦ record fs { transfers = GoMap.put id (send_concurrent env now t) fs.transfers }
]

unfoldable pub list_transfers : FileService → List Transfer
list_transfers fs = GoMap.values fs.transfers
