-- ===== src/FileTransfer/Pieces.antt =====
-- Contents byte by byte: a patch, and the pieces of a file.
use lan_a2a.Prelude.{
  ap, ◌∙◌, ℕ, zero, suc, ◌+◌, ◌-◌, ◌*◌, ◌/◌, ◌≤◌, ◌<◌, ◌≡◌, refl, true, ◌&&◌, List, [], ◌∷◌, ◌++◌,
  arith, ltb, leb, if◌then◌else◌, nat_eq, string_eq, list_eq, length, take, drop, contains,
  length-append, Bytes,
}
use lan_a2a.FileTransfer.{ap, write_at, chunk_size, patch}

pub byte_at : Bytes → ℕ → ℕ
byte_at [] i = 0
byte_at (c ∷ cs) zero = c
byte_at (c ∷ cs) (suc i) = byte_at cs i

pub eq_of_bytes :
    (a b : Bytes)
    → length a ≡ length b
    → ((i : ℕ) → i < length b → byte_at a i ≡ byte_at b i)
    → a ≡ b
unfolding byte_at
eq_of_bytes [] [] e h = refl
eq_of_bytes [] (y ∷ ys) e h = absurd (omega arith)
eq_of_bytes (x ∷ xs) [] e h = absurd (omega arith)
eq_of_bytes (x ∷ xs) (y ∷ ys) e h =
    cc (h 0 (omega arith), eq_of_bytes xs ys (omega arith) (λ i lt. h (suc i) (omega arith)))

pub byte_at-append :
    (a b : Bytes) (i : ℕ)
    → byte_at (a ++ b) i ≡ (if ltb i (length a) then byte_at a i else byte_at b (i - length a))
unfolding byte_at
byte_at-append [] b i = ground arith
byte_at-append (x ∷ a) b zero = ground arith
byte_at-append (x ∷ a) b (suc i) = ground (arith, byte_at-append a b i)

pub byte_at-drop : (n : ℕ) (a : Bytes) (i : ℕ) → byte_at (drop n a) i ≡ byte_at a (n + i)
unfolding byte_at
byte_at-drop zero a i = ground arith
byte_at-drop (suc n) [] i = refl
byte_at-drop (suc n) (x ∷ a) i = ground (arith, byte_at-drop n a i)

pub byte_at-take : (n : ℕ) (a : Bytes) (i : ℕ) → i < n → byte_at (take n a) i ≡ byte_at a i
unfolding byte_at
byte_at-take zero a i h = absurd (omega arith)
byte_at-take (suc n) [] i h = refl
byte_at-take (suc n) (x ∷ a) zero h = refl
byte_at-take (suc n) (x ∷ a) (suc i) h = byte_at-take n a i (omega arith)

pub length-take :
    (n : ℕ) (a : Bytes) → length (take n a) ≡ (if ltb n (length a) then n else length a)
length-take zero a = ground arith
length-take (suc n) [] = ground arith
length-take (suc n) (x ∷ a) = ground (arith, length-take n a)

pub length-drop : (n : ℕ) (a : Bytes) → length (drop n a) ≡ length a - n
length-drop zero a = omega arith
length-drop (suc n) [] = omega arith
length-drop (suc n) (x ∷ a) = omega (arith, length-drop n a)

length-patch :
    (c : Bytes) (k : ℕ) (d : Bytes)
    → length (patch c k d) ≡ (if ltb (length c) (k + length d) then k + length d else length c)
unfolding patch
length-patch c zero d =
    ground (arith, length-append d (drop (length d) c), length-drop (length d) c)
length-patch [] (suc k) d = ground (arith, length-patch [] k d)
length-patch (x ∷ c) (suc k) d = ground (arith, length-patch c k d)

byte_at-patch :
    (c : Bytes) (k : ℕ) (d : Bytes) (i : ℕ)
    → byte_at (patch c k d) i
      ≡ (if leb k i && ltb i (k + length d) then byte_at d (i - k) else byte_at c i)
unfolding patch byte_at
byte_at-patch c zero d i =
    ground (arith, byte_at-append d (drop (length d) c) i, byte_at-drop (length d) c (i - length d))
byte_at-patch [] (suc k) d zero = ground arith
byte_at-patch [] (suc k) d (suc i) = ground (arith, byte_at-patch [] k d i)
byte_at-patch (x ∷ c) (suc k) d zero = ground arith
byte_at-patch (x ∷ c) (suc k) d (suc i) = ground (arith, byte_at-patch c k d i)

-- The piece of a file that a chunk index stands for.
unfoldable pub piece : Bytes → ℕ → Bytes
piece file k = take chunk_size (drop (k * chunk_size) file)

-- The bytes of the pieces written so far are the file's, and nothing lies behind the file's end.
pub record Holds (file : Bytes) (written : List ℕ) (content : Bytes) : Type 0 where
  pub short : length content ≤ length file
  pub same :
      (i : ℕ)
      → i < length file
      → contains (i / chunk_size) written ≡ true
      → (i < length content) × (byte_at content i ≡ byte_at file i)

pub Holds-empty : (file : Bytes) → Holds file [] []
Holds-empty file = record { short = omega arith; same = λ i h e. absurd (ground arith) }

min_part : ℕ → ℕ → ℕ
min_part a b = if ltb a b then a else b

length-piece_eq :
    (file : Bytes) (k : ℕ)
    → length (piece file k) ≡ min_part chunk_size (length file - k * chunk_size)
unfolding piece min_part
length-piece_eq file k =
    length-take chunk_size (drop (k * chunk_size) file)
    ∙ ap (min_part chunk_size) (length-drop (k * chunk_size) file)

length-piece :
    (file : Bytes) (k : ℕ)
    → k * chunk_size < length file
    → (0 < length (piece file k))
      × (k * chunk_size + length (piece file k) ≤ length file)
      × (length (piece file k) ≤ chunk_size)
      × (length (piece file k) < chunk_size → k * chunk_size + length (piece file k) ≡ length file)
length-piece file k h = part (length (piece file k)) (length-piece_eq file k)
  where
    part :
        (n : ℕ)
        → n ≡ min_part chunk_size (length file - k * chunk_size)
        → (0 < n)
          × (k * chunk_size + n ≤ length file)
          × (n ≤ chunk_size)
          × (n < chunk_size → k * chunk_size + n ≡ length file)
    part n e = unfold min_part in ground arith

byte_at-piece :
    (file : Bytes) (k i : ℕ)
    → i < chunk_size
    → byte_at (piece file k) i ≡ byte_at file (k * chunk_size + i)
unfolding piece
byte_at-piece file k i h =
    byte_at-take chunk_size (drop (k * chunk_size) file) i h ∙ byte_at-drop (k * chunk_size) file i

write_at-nonempty : (c : Bytes) (k : ℕ) (d : Bytes) → 0 < length d → write_at c k d ≡ patch c k d
unfolding write_at
write_at-nonempty c k [] h = absurd (omega arith)
write_at-nonempty c k (x ∷ d) h = refl

Holds-byte :
    (file : Bytes) (written : List ℕ) (content : Bytes) (k i : ℕ)
    → k * chunk_size < length file
    → Holds file written content
    → i < length file
    → contains (i / chunk_size) (k ∷ written) ≡ true
    → (i < length (patch content (k * chunk_size) (piece file k)))
      × (byte_at (patch content (k * chunk_size) (piece file k)) i ≡ byte_at file i)
Holds-byte file written content k i h held lt e = ground (
  arith,
  held.same i lt,
  length-piece file k h,
  length-patch content (k * chunk_size) (piece file k),
  byte_at-patch content (k * chunk_size) (piece file k) i,
  byte_at-piece file k (i - k * chunk_size),
  back,
)
  where
    back : k * chunk_size ≤ i → k * chunk_size + (i - k * chunk_size) ≡ i
    back le = omega arith

-- Writing a piece at its offset adds its index to the pieces that hold.
pub Holds-write_at :
    (file : Bytes) (written : List ℕ) (content : Bytes) (k : ℕ)
    → k * chunk_size < length file
    → Holds file written content
    → Holds file (k ∷ written) (write_at content (k * chunk_size) (piece file k))
Holds-write_at file written content k h held =
    rw (write_at-nonempty content (k * chunk_size) (piece file k) (length-piece file k h).0)
      (record {
        short = ground (
          arith,
          held.short,
          length-piece file k h,
          length-patch content (k * chunk_size) (piece file k),
        );
        same = λ i lt e. Holds-byte file written content k i h held lt e;
      })

length-full :
    (file : Bytes) (written : List ℕ) (content : Bytes)
    → ((k : ℕ) → k * chunk_size < length file → contains k written ≡ true)
    → Holds file written content
    → length content ≡ length file
length-full [] written content all held = omega (arith, held.short)
length-full (c ∷ cs) written content all held =
    let n : ℕ = length cs in
    let last = held.same n (omega arith) (all (n / chunk_size) (omega arith)) in
    omega (arith, held.short, last.0)

-- When every piece is there, the content is the file.
pub eq_of_Holds :
    (file : Bytes) (written : List ℕ) (content : Bytes)
    → ((k : ℕ) → k * chunk_size < length file → contains k written ≡ true)
    → Holds file written content
    → content ≡ file
eq_of_Holds file written content all held =
    eq_of_bytes content file (length-full file written content all held)
      (λ i lt. (held.same i lt (all (i / chunk_size) (omega arith))).1)
