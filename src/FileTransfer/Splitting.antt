-- ===== src/FileTransfer/Splitting.antt =====
-- `SplitFile` of internal/filetransfer/transfer.go: the chunks that a sender reads.
use lan_a2a.Prelude.{
  ℕ, zero, suc, ◌+◌, ◌*◌, ◌<◌, String, ◌≡◌, refl, sym, ap, ◌∙◌, Bool, false, none, some, List, [],
  ◌∷◌, ◌++◌, arith, if◌then◌else◌, nat_eq, string_eq, list_eq, length, take, drop, get_elem?, Bytes,
}
use mathlib.Core.List.{append_assoc, append-nil}
use lan_a2a.FileTransfer.{
  ReadEnd, Split, chunk_size, eof, read_failed, is_empty, more, split_file, split_loop,
}
use lan_a2a.FileTransfer.Pieces.{piece, length-drop}
use lan_a2a.FileTransfer.Recording.{IsCount}

abbrev pub concat : List Bytes → Bytes
concat [] = []
concat (b ∷ bs) = b ++ concat bs

abbrev pub bytes_read : List (Bytes × ReadEnd) → Bytes
bytes_read [] = []
bytes_read ((b, e) ∷ reads) = b ++ bytes_read reads

-- Reads that end by EOF, whatever their lengths.
abbrev pub EndsWell : List (Bytes × ReadEnd) → Type 0
EndsWell [] = ⊥
EndsWell ((b, more) ∷ reads) = EndsWell reads
EndsWell ((b, eof) ∷ []) = Unit
EndsWell ((b, eof) ∷ r ∷ reads) = ⊥
EndsWell ((b, read_failed e) ∷ reads) = ⊥

concat-append : (xs : List Bytes) (b : Bytes) → concat (xs ++ b ∷ []) ≡ concat xs ++ b
concat-append [] b = rw append-nil
concat-append (x ∷ xs) b = rw (concat-append xs b, append_assoc)

-- One read, as the loop takes it in.
abbrev with_chunk : List Bytes → Bytes → List Bytes
with_chunk chunks b = if is_empty b then chunks else chunks ++ b ∷ []

abbrev with_bytes : Bytes → Bytes → Bytes
with_bytes hashed b = if is_empty b then hashed else hashed ++ b

concat-with_chunk :
    (chunks : List Bytes) (b : Bytes) → concat (with_chunk chunks b) ≡ concat chunks ++ b
concat-with_chunk chunks [] = rw append-nil
concat-with_chunk chunks (c ∷ b) = concat-append chunks (c ∷ b)

with_bytes-append : (hashed b : Bytes) → with_bytes hashed b ≡ hashed ++ b
with_bytes-append hashed [] = rw append-nil
with_bytes-append hashed (c ∷ b) = refl

split_loop-concat :
    (hash : Bytes → String) (size : ℕ) (chunks : List Bytes) (hashed : Bytes)
    (reads : List (Bytes × ReadEnd))
    → EndsWell reads
    → let s = split_loop hash size chunks hashed reads in
      (concat s.chunks ≡ concat chunks ++ bytes_read reads)
      × (s.checksum ≡ hash (hashed ++ bytes_read reads))
      × (s.size ≡ size)
      × (s.error ≡ none)
unfolding split_loop
split_loop-concat hash size chunks hashed [] h = absurd h
split_loop-concat hash size chunks hashed ((b, more) ∷ reads) h =
    let ih = split_loop-concat hash size (with_chunk chunks b) (with_bytes hashed b) reads h in
    (
      ih.0 ∙ rw (concat-with_chunk chunks b) (append_assoc (concat chunks) b (bytes_read reads)),
      ih.1 ∙ rw (with_bytes-append hashed b) (rw append_assoc refl),
      ih.2,
      ih.3,
    )
split_loop-concat hash size chunks hashed ((b, eof) ∷ []) h = (
  rw append-nil (concat-with_chunk chunks b),
  rw append-nil (ap hash (with_bytes-append hashed b)),
  refl,
  refl,
)
split_loop-concat hash size chunks hashed ((b, eof) ∷ r ∷ reads) h = absurd h
split_loop-concat hash size chunks hashed ((b, read_failed e) ∷ reads) h = absurd h

-- However the reads cut the file, the chunks joined are the bytes read, the checksum is the hash of
-- those bytes, the size is the one that `Stat` gave, and there is no error.
pub split_file-concat :
    (hash : Bytes → String) (size : ℕ) (reads : List (Bytes × ReadEnd))
    → EndsWell reads
    → let s = split_file hash (some size) reads in
      (concat s.chunks ≡ bytes_read reads)
      × (s.checksum ≡ hash (bytes_read reads))
      × (s.size ≡ size)
      × (s.error ≡ none)
unfolding split_file
split_file-concat hash size reads h = split_loop-concat hash size [] [] reads h

-- The reads of a regular file into a buffer of `chunk_size` bytes: full ones, then EOF.
pub full_reads : ℕ → Bytes → List (Bytes × ReadEnd)
full_reads zero file = ([], eof) ∷ []
full_reads (suc n) file = (take chunk_size file, more) ∷ full_reads n (drop chunk_size file)

pieces : ℕ → Bytes → List Bytes
pieces zero file = []
pieces (suc n) file = take chunk_size file ∷ pieces n (drop chunk_size file)

take_nonempty : (file : Bytes) → 0 < length file → is_empty (take chunk_size file) ≡ false
take_nonempty [] h = absurd (omega arith)
take_nonempty (c ∷ file) h = refl

-- The loop after a full read, which was empty or not.
abbrev after_read : (Bytes → String) → ℕ → ℕ → Bytes → List Bytes → Bytes → Bool → Split
after_read hash size n file chunks hashed nothing =
    split_loop hash size (if nothing then chunks else chunks ++ take chunk_size file ∷ [])
      (if nothing then hashed else hashed ++ take chunk_size file)
      (full_reads n (drop chunk_size file))

split_loop-pieces :
    (hash : Bytes → String) (size n : ℕ) (file : Bytes) (chunks : List Bytes) (hashed : Bytes)
    → ((k : ℕ) → k < n → k * chunk_size < length file)
    → (split_loop hash size chunks hashed (full_reads n file)).chunks ≡ chunks ++ pieces n file
unfolding split_loop full_reads pieces
split_loop-pieces hash size zero file chunks hashed h = rw append-nil
split_loop-pieces hash size (suc n) file chunks hashed h =
    ap (λ (b : Bool). (after_read hash size n file chunks hashed b).chunks)
      (take_nonempty file (omega (arith, h 0 (omega arith))))
    ∙ split_loop-pieces hash size n (drop chunk_size file) (chunks ++ take chunk_size file ∷ [])
        (hashed ++ take chunk_size file)
        (λ k lt. omega (arith, h (suc k) (omega arith), length-drop chunk_size file))
    ∙ append_assoc chunks (take chunk_size file ∷ []) (pieces n (drop chunk_size file))

suc_sum : (j i : ℕ) → suc (j + i) ≡ suc j + i
suc_sum j i = omega arith

drop-nil : (n : ℕ) → drop {A = ℕ} n [] ≡ []
drop-nil zero = refl
drop-nil (suc n) = refl

drop-drop : (i j : ℕ) (file : Bytes) → drop i (drop j file) ≡ drop (j + i) file
drop-drop i zero file = ground arith
drop-drop zero (suc j) [] = ground arith
drop-drop (suc i) (suc j) [] = sym (drop-nil (suc j + suc i))
drop-drop i (suc j) (c ∷ file) =
    drop-drop i j file ∙ ap (λ (n : ℕ). drop n (c ∷ file)) (suc_sum j i)

get_elem?-pieces :
    (n k : ℕ) (file : Bytes) → k < n → get_elem? (pieces n file) k ≡ some (piece file k)
unfolding pieces piece
get_elem?-pieces zero k file h = absurd (omega arith)
get_elem?-pieces (suc n) zero file h = refl
get_elem?-pieces (suc n) (suc k) file h =
    get_elem?-pieces n k (drop chunk_size file) (omega arith)
    ∙ ap (λ (b : Bytes). some (take chunk_size b))
        (drop-drop (k * chunk_size) chunk_size file ∙ ap (λ (i : ℕ). drop i file) (omega arith))

length-pieces : (n : ℕ) (file : Bytes) → length (pieces n file) ≡ n
unfolding pieces
length-pieces zero file = refl
length-pieces (suc n) file = ap suc (length-pieces n (drop chunk_size file))

-- For a regular file that is cut into `n` chunks, the sender's chunk at each index is the piece of
-- the file that the receiver puts at that index's offset, and there are `n` chunks.
pub split_file-pieces :
    (hash : Bytes → String) (size n : ℕ) (file : Bytes)
    → IsCount file n
    → let s = split_file hash (some size) (full_reads n file) in
      (length s.chunks ≡ n) × ((k : ℕ) → k < n → get_elem? s.chunks k ≡ some (piece file k))
unfolding split_file
split_file-pieces hash size n file count =
    let e = split_loop-pieces hash size n file [] [] count.needed in
    (
      ap length e ∙ length-pieces n file,
      λ k lt. ap (λ (cs : List Bytes). get_elem? cs k) e ∙ get_elem?-pieces n k file lt,
    )
