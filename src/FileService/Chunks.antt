-- ===== src/FileService/Chunks.antt =====
-- internal/fileservice/types.go: the chunks of a file, and reading them back.
use lan_a2a.Prelude.{
  ℕ, zero, suc, ◌≤◌, ◌+◌, ◌<◌, String, ◌≡◌, refl, ap, subst, ◌∙◌, Option, some, List, [], ◌∷◌, ◌++◌,
  arith, nat_eq, string_eq, list_eq, Result, ok, ◌>>=◌, length, take, drop, length-append, Bytes,
}
use mathlib.Core.List.{append_assoc, append-nil}
use lan_a2a.FileTransfer.{ReadEnd, more, eof, read_failed}
use lan_a2a.FileTransfer.Splitting.{EndsWell, bytes_read}
use lan_a2a.FileService.{Chunk, chunk_pending, chunk_loop, split_into_chunks, read_chunk}

abbrev fresh_chunk : (Bytes → String) → ℕ → ℕ → Bytes → Chunk
fresh_chunk hash idx offset bytes = record {
  index = idx;
  offset = offset;
  size = length bytes;
  hash = hash bytes;
  status = chunk_pending;
  retries = 0;
}

-- The chunks that the reads give, from an index and an offset on.
chunks_from : (Bytes → String) → ℕ → ℕ → List (Bytes × ReadEnd) → List Chunk
chunks_from hash idx offset [] = []
chunks_from hash idx offset (([], e) ∷ reads) = chunks_from hash idx offset reads
chunks_from hash idx offset ((b ∷ bs, e) ∷ reads) =
    fresh_chunk hash idx offset (b ∷ bs)
    ∷ chunks_from hash (idx + 1) (offset + length (b ∷ bs)) reads

chunk_loop-eq :
    (hash : Bytes → String) (idx offset : ℕ) (chunks : List Chunk) (reads : List (Bytes × ReadEnd))
    → EndsWell reads
    → chunk_loop hash idx offset chunks reads ≡ ok (chunks ++ chunks_from hash idx offset reads)
unfolding chunk_loop chunks_from
chunk_loop-eq hash idx offset chunks [] h = absurd h
chunk_loop-eq hash idx offset chunks (([], more) ∷ reads) h =
    chunk_loop-eq hash idx offset chunks reads h
chunk_loop-eq hash idx offset chunks ((b ∷ bs, more) ∷ reads) h =
    chunk_loop-eq hash (idx + 1) (offset + length (b ∷ bs)) _ reads h
    ∙ ap ok (append_assoc chunks _ _)
chunk_loop-eq hash idx offset chunks (([], eof) ∷ []) h = rw append-nil
chunk_loop-eq hash idx offset chunks ((b ∷ bs, eof) ∷ []) h = refl
chunk_loop-eq hash idx offset chunks ((b, eof) ∷ r ∷ reads) h = absurd h
chunk_loop-eq hash idx offset chunks ((b, read_failed e) ∷ reads) h = absurd h

-- All chunks are read, in their order.
pub read_chunks : (Chunk → Result ℕ) → Option Bytes → List Chunk → Result Bytes
read_chunks os file [] = ok []
read_chunks os file (c ∷ cs) =
    read_chunk file (os c) c >>= λ b. read_chunks os file cs >>= λ bs. ok (b ++ bs)

-- No read of a chunk fails, and none is cut short.
abbrev pub IsWhole : (Chunk → Result ℕ) → Type 0
IsWhole os = (c : Chunk) → (most : ℕ) × (os c ≡ ok most) × (c.size ≤ most)

-- The chunks carry the indices from `idx` on, and wait to be sent.
abbrev pub Numbered : ℕ → List Chunk → Type 0
Numbered idx [] = Unit
Numbered idx (c ∷ cs) =
    (c.index ≡ idx) × (c.status ≡ chunk_pending) × (c.retries ≡ 0) × Numbered (idx + 1) cs

-- Each chunk's hash is that of the bytes that are read back for it.
abbrev pub Hashed : (Chunk → Result ℕ) → (Bytes → String) → Option Bytes → List Chunk → Type 0
Hashed os hash file [] = Unit
Hashed os hash file (c ∷ cs) =
    ((b : Bytes) × (read_chunk file (os c) c ≡ ok b) × (hash b ≡ c.hash)) × Hashed os hash file cs

chunks_from-Numbered :
    (hash : Bytes → String) (idx offset : ℕ) (reads : List (Bytes × ReadEnd))
    → Numbered idx (chunks_from hash idx offset reads)
unfolding chunks_from
chunks_from-Numbered hash idx offset [] = tt
chunks_from-Numbered hash idx offset (([], e) ∷ reads) = chunks_from-Numbered hash idx offset reads
chunks_from-Numbered hash idx offset ((b ∷ bs, e) ∷ reads) =
    (refl, refl, refl, chunks_from-Numbered hash (idx + 1) (offset + length (b ∷ bs)) reads)

drop-append : (xs ys : Bytes) → drop (length xs) (xs ++ ys) ≡ ys
drop-append [] ys = refl
drop-append (x ∷ xs) ys = drop-append xs ys

take-append : (xs ys : Bytes) → take (length xs) (xs ++ ys) ≡ xs
take-append [] ys = refl
take-append (x ∷ xs) ys = ap (λ (zs : Bytes). x ∷ zs) (take-append xs ys)

take-all : (n : ℕ) (xs : Bytes) → length xs ≤ n → take n xs ≡ xs
take-all zero [] h = refl
take-all zero (x ∷ xs) h = absurd (omega arith)
take-all (suc n) [] h = refl
take-all (suc n) (x ∷ xs) h = ap (λ (l : Bytes). x ∷ l) (take-all n xs (omega arith))

-- A chunk that lies behind some bytes of the file is read back.
read_chunk-middle :
    (os : Chunk → Result ℕ) (before b after : Bytes) (c : Chunk)
    → c.offset ≡ length before
    → c.size ≡ length b
    → 0 < length b
    → IsWhole os
    → read_chunk (some (before ++ (b ++ after))) (os c) c ≡ ok b
unfolding read_chunk
read_chunk-middle os before b after c o n h w =
    let (most, e, l) = w c in
    ground (
      arith,
      e,
      take-all most b (omega (arith, l, n)),
      length-append before (b ++ after),
      length-append b after,
      drop-append before (b ++ after),
      take-append b after,
      ap (λ (k : ℕ). drop k (before ++ (b ++ after))) o,
      ap (λ (k : ℕ). take k (b ++ after)) n,
    )

read_chunks-from :
    (os : Chunk → Result ℕ) (hash : Bytes → String) (idx offset : ℕ) (before : Bytes)
    (reads : List (Bytes × ReadEnd))
    → offset ≡ length before
    → IsWhole os
    → read_chunks os (some (before ++ bytes_read reads)) (chunks_from hash idx offset reads)
      ≡ ok (bytes_read reads)
unfolding read_chunks chunks_from
read_chunks-from os hash idx offset before [] o w = refl
read_chunks-from os hash idx offset before (([], e) ∷ reads) o w =
    read_chunks-from os hash idx offset before reads o w
read_chunks-from os hash idx offset before ((b ∷ bs, e) ∷ reads) o w =
    let rest =
      read_chunks-from os hash (idx + 1) (offset + length (b ∷ bs)) (before ++ b ∷ bs) reads
        (omega (arith, length-append before (b ∷ bs))) w in
    rw
      (read_chunk-middle os before (b ∷ bs) (bytes_read reads)
        (fresh_chunk hash idx offset (b ∷ bs)) o refl (omega arith) w)
      (ap (λ (r : Result Bytes). r >>= λ xs. ok ((b ∷ bs) ++ xs))
        (subst
          (λ (whole : Bytes).
            read_chunks os (some whole)
              (chunks_from hash (idx + 1) (offset + length (b ∷ bs)) reads)
            ≡ ok (bytes_read reads))
          (append_assoc before (b ∷ bs) (bytes_read reads)) rest))

chunks_from-Hashed :
    (os : Chunk → Result ℕ) (hash : Bytes → String) (idx offset : ℕ) (before : Bytes)
    (reads : List (Bytes × ReadEnd))
    → offset ≡ length before
    → IsWhole os
    → Hashed os hash (some (before ++ bytes_read reads)) (chunks_from hash idx offset reads)
unfolding chunks_from
chunks_from-Hashed os hash idx offset before [] o w = tt
chunks_from-Hashed os hash idx offset before (([], e) ∷ reads) o w =
    chunks_from-Hashed os hash idx offset before reads o w
chunks_from-Hashed os hash idx offset before ((b ∷ bs, e) ∷ reads) o w = (
  (
    b ∷ bs,
    read_chunk-middle os before (b ∷ bs) (bytes_read reads) (fresh_chunk hash idx offset (b ∷ bs)) o
        refl (omega arith) w,
    refl,
  ),
  subst
      (λ (whole : Bytes).
        Hashed os hash (some whole) (chunks_from hash (idx + 1) (offset + length (b ∷ bs)) reads))
      (append_assoc before (b ∷ bs) (bytes_read reads))
      (chunks_from-Hashed os hash (idx + 1) (offset + length (b ∷ bs)) (before ++ b ∷ bs) reads
        (omega (arith, length-append before (b ∷ bs))) w),
)

-- When the reads of a file end well, however they cut it, the chunks are numbered from 0 and wait to
-- be sent; and the checksum and size are those of the whole. When, later, each chunk is read back by one
-- read that does not fail and is not cut short, these reads give the file, in order, and each chunk's
-- hash is that of the bytes read back for it.
pub split_into_chunks-read_back :
    (os : Chunk → Result ℕ) (hash : Bytes → String) (size : ℕ) (reads : List (Bytes × ReadEnd))
    → EndsWell reads
    → IsWhole os
    → let file = bytes_read reads in
      (chunks : List Chunk) × (split_into_chunks hash (some size) file reads
        ≡ ok (chunks, hash file, size))
      × Numbered 0 chunks
      × (read_chunks os (some file) chunks ≡ ok file)
      × Hashed os hash (some file) chunks
unfolding split_into_chunks
split_into_chunks-read_back os hash size reads h w = (
  chunks_from hash 0 0 reads,
  rw (chunk_loop-eq hash 0 0 [] reads h) refl,
  chunks_from-Numbered hash 0 0 reads,
  read_chunks-from os hash 0 0 [] reads refl w,
  chunks_from-Hashed os hash 0 0 [] reads refl w,
)
