-- ===== src/Protocol/Reader.antt =====
-- Reading a byte slice of internal/protocol/message.go to its end.
use lan_a2a.Prelude.{
  Option, true, false, ℕ, zero, suc, ◌+◌, ◌≤◌, ◌≡◌, refl, sym, ap, ◌∙◌, inl, inr, none, some, List,
  [], ◌∷◌, ◌++◌, arith, leb, Bool-cases, nat_eq, string_eq, list_eq, length, take, drop, Bytes,
}
use lan_a2a.Protocol.{SliceReader, bytes_reader, read}

abbrev pub upto_eof : Option Bytes → Bytes → Bytes
upto_eof none rest = []
upto_eof (some b) rest = b ++ rest

-- The bytes that reads into buffers of the given sizes return, up to EOF.
pub read_all : SliceReader → List ℕ → Bytes
read_all r [] = []
read_all r (n ∷ sizes) = upto_eof (read r n).1 (read_all (read r n).0 sizes)

abbrev pub sum : List ℕ → ℕ
sum [] = 0
sum (n ∷ ns) = n + sum ns

drop_all : (n : ℕ) (xs : Bytes) → length xs ≤ n → drop n xs ≡ []
drop_all zero [] h = refl
drop_all zero (x ∷ xs) h = absurd (omega arith)
drop_all (suc n) [] h = refl
drop_all (suc n) (x ∷ xs) h = drop_all n xs (omega arith)

take-nil : (n : ℕ) → take {A = ℕ} n [] ≡ []
take-nil zero = refl
take-nil (suc n) = refl

take-add :
    (n m : ℕ) (xs : Bytes) → take n xs ++ take m (drop (length (take n xs)) xs) ≡ take (n + m) xs
take-add zero m xs = ground arith
take-add (suc n) m [] = take-nil m ∙ sym (take-nil (suc n + m))
take-add (suc n) m (x ∷ xs) =
    ap (λ (ys : Bytes). x ∷ ys) (take-add n m xs) ∙ ap (λ (k : ℕ). take k (x ∷ xs)) (shift n m)
  where
    shift : (a b : ℕ) → suc (a + b) ≡ suc a + b
    shift a b = omega arith

drop-drop : (i j : ℕ) (xs : Bytes) → drop i (drop j xs) ≡ drop (j + i) xs
drop-drop i zero xs = ground arith
drop-drop i (suc j) [] = drop-nil i ∙ sym (drop-nil (suc j + i))
  where
    drop-nil : (n : ℕ) → drop {A = ℕ} n [] ≡ []
    drop-nil zero = refl
    drop-nil (suc n) = refl
drop-drop i (suc j) (x ∷ xs) = drop-drop i j xs ∙ ap (λ (k : ℕ). drop k (x ∷ xs)) (shift j i)
  where
    shift : (a b : ℕ) → suc (a + b) ≡ suc a + b
    shift a b = omega arith

read_eof : (r : SliceReader) (n : ℕ) → leb (length r.bytes) r.off ≡ true → read r n ≡ (r, none)
unfolding read
read_eof r n h = rw h refl

read_more :
    (r : SliceReader) (n : ℕ)
    → leb (length r.bytes) r.off ≡ false
    → read r n ≡ (
      record r { off = r.off + length (take n (drop r.off r.bytes)) },
      some (take n (drop r.off r.bytes)),
    )
unfolding read
read_more r n h = rw h refl

-- Reading on into further buffers returns the bytes behind the offset, in order and none twice, as
-- many as the buffers hold together.
read_all-from :
    (r : SliceReader) (sizes : List ℕ) → read_all r sizes ≡ take (sum sizes) (drop r.off r.bytes)
unfolding read_all
read_all-from r [] = refl
read_all-from r (n ∷ sizes) = elim (Bool-cases (leb (length r.bytes) r.off)) [
  | inl ended ↦
      ap (λ (p : SliceReader × Option Bytes). upto_eof p.1 (read_all p.0 sizes))
        (read_eof r n ended)
      ∙ sym (
          ap (take (n + sum sizes)) (drop_all r.off r.bytes (ground arith))
          ∙ take-nil (n + sum sizes))
  | inr more ↦
      let copied = take n (drop r.off r.bytes) in
      let r' : SliceReader = record r { off = r.off + length copied } in
      ap (λ (p : SliceReader × Option Bytes). upto_eof p.1 (read_all p.0 sizes))
        (read_more r n more)
      ∙ ap (λ (b : Bytes). copied ++ b)
          (read_all-from r' sizes
            ∙ ap (take (sum sizes)) (sym (drop-drop (length copied) r.off r.bytes)))
      ∙ take-add n (sum sizes) (drop r.off r.bytes)
]

-- Reading a byte slice through `BytesReader` into buffers of any sizes returns its bytes in order, as
-- many as the buffers hold together; where they hold the slice, that is all of it.
pub read_all-bytes_reader :
    (b : Bytes) (sizes : List ℕ) (r : SliceReader)
    → bytes_reader (some b) ≡ some r
    → (read_all r sizes ≡ take (sum sizes) b) × (length b ≤ sum sizes → read_all r sizes ≡ b)
unfolding bytes_reader
read_all-bytes_reader b sizes r e = (whole, λ h. whole ∙ take_all (sum sizes) b h)
  where
    whole : read_all r sizes ≡ take (sum sizes) b
    whole = read_all-from r sizes ∙ ground (arith, e)

    take_all : (n : ℕ) (xs : Bytes) → length xs ≤ n → take n xs ≡ xs
    take_all zero [] h = refl
    take_all zero (x ∷ xs) h = absurd (omega arith)
    take_all (suc n) [] h = refl
    take_all (suc n) (x ∷ xs) h = ap (λ (ys : Bytes). x ∷ ys) (take_all n xs (omega arith))
