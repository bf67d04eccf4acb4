-- ===== src/FileTransfer/Interleaving/Apart.antt =====
-- internal/filetransfer/transfer.go: each transfer stays at its path.
use lan_a2a.Prelude.{
  ℕ, String, ◌≡◌, refl, sym, ap, subst, ◌∙◌, inl, inr, ◌&&◌, some, [], arith, if◌then◌else◌,
  Bool-cases, Option-cases, ◌==◌, nat_eq, string_eq, list_eq, Bytes,
}
use lan_a2a.Prelude.GoMap
use lan_a2a.Prelude.GoMap.{GoMap, get-put}
use lan_a2a.Prelude.Int.{ℤ, int_eq}
use lan_a2a.FileTransfer.{
  FilePath, IncomingFile, Manager, Os, add_chunk, add_chunk_to, chunk_offset, incoming_file,
  prepare_incoming, record_chunk, write_file,
}
use lan_a2a.FileTransfer.Interleaving.{
  answering, AreApart, Arrival, ArrivesApart, IsAt, announces, arrive, brings,
}
use lan_a2a.FileTransfer.Interleaving.Chunks.{
  add_chunk_to-closed, add_chunk_to-open, incoming-record_chunk, stored, written,
}

pub incoming-prepare :
    (os : Os) (now : ℕ) (m : Manager) (ch : Bytes) (j from : String) (filename : Bytes)
    (size total : ℕ) (id : String)
    → GoMap.get id (prepare_incoming os now m ch j from filename size total).0.incoming ≡ (
        if j == id
        then some (incoming_file os now ch from filename size total)
        else GoMap.get id m.incoming)
unfolding prepare_incoming
incoming-prepare os now m ch j from filename size total id =
    get-put j id (incoming_file os now ch from filename size total) m.incoming

pub disk-prepare :
    (os : Os) (now : ℕ) (m : Manager) (ch : Bytes) (j from : String) (filename : Bytes)
    (size total : ℕ) (path : FilePath)
    → let fi = incoming_file os now ch from filename size total in
      GoMap.get path (prepare_incoming os now m ch j from filename size total).0.disk
      ≡ (if fi.is_open && (fi.local_path == path) then some [] else GoMap.get path m.disk)
unfolding prepare_incoming
disk-prepare os now m ch j from filename size total path =
    let fi = incoming_file os now ch from filename size total in
    ground (arith, get-put fi.local_path path [] m.disk)

-- Where the transfers are stored stays as it is.
local_path-stored : (fi : IncomingFile) (idx : ℤ) → (stored fi idx).local_path ≡ fi.local_path
local_path-stored fi idx = ground arith

Kept : Manager → Manager → Type 0
Kept m m' =
    (k : String) (fi' : IncomingFile)
    → GoMap.get k m'.incoming ≡ some fi'
    → (fi : IncomingFile) × (GoMap.get k m.incoming ≡ some fi) × (fi'.local_path ≡ fi.local_path)

record_chunk-Kept :
    (m : Manager) (j : String) (fi : IncomingFile) (idx : ℤ)
    → GoMap.get j m.incoming ≡ some fi
    → Kept m (record_chunk m j fi idx).0
unfolding Kept
record_chunk-Kept m j fi idx e k fi' e' = elim (Bool-cases (j == k)) [
  | inl own_ ↦ (
    fi,
    ground (arith, e, own_, string_eq.beq_iff j k),
    ground (
      arith,
      incoming-record_chunk m j k fi idx,
      own_,
      e',
      local_path-stored fi idx,
      ap IncomingFile.local_path {x = stored fi idx} {y = fi'},
    ),
  )
  | inr other ↦ (fi', ground (arith, incoming-record_chunk m j k fi idx, other, e'), refl)
]

add_chunk_to-Kept :
    (os : Os) (m : Manager) (j : String) (fi : IncomingFile) (idx : ℤ) (bytes : Bytes)
    → GoMap.get j m.incoming ≡ some fi
    → Kept m (add_chunk_to os m j fi idx bytes).0
unfolding Kept
add_chunk_to-Kept os m j fi idx bytes e = elim (Bool-cases fi.is_open) [
  | inr c ↦ rw (add_chunk_to-closed os m j fi idx bytes c) (record_chunk-Kept m j fi idx e)
  | inl c ↦
      rw (add_chunk_to-open os m j fi idx bytes c)
        (elim (Bool-cases (write_file os m.disk fi.local_path (chunk_offset idx) bytes).1) [
          | inl f ↦ rw f (λ k fi' e'. (fi', e', refl))
          | inr f ↦ rw f (record_chunk-Kept (written os m fi idx bytes) j fi idx e)
        ])
]

add_chunk-Kept :
    (os : Os) (m : Manager) (j : String) (idx : ℤ) (bytes : Bytes)
    → Kept m (add_chunk os m j idx bytes).0
unfolding add_chunk Kept
add_chunk-Kept os m j idx bytes = elim (Option-cases (GoMap.get j m.incoming)) [
  | inl e ↦ rw (add_chunk, e) (λ k fi' e'. (fi', e', refl))
  | inr (fi, e) ↦ rw (add_chunk, e) (add_chunk_to-Kept os m j fi idx bytes e)
]

pub arrive-AreApart :
    (os : Os) (id : String) (path : FilePath) (a : Arrival) (m : Manager)
    → ArrivesApart os id path a
    → AreApart id path m
    → AreApart id path (arrive os a m)
unfolding arrive Kept
arrive-AreApart os id path (brings j idx bytes) m h apart k fi' e' =
    let (fi, e, same) = add_chunk-Kept os m j idx bytes k fi' e' in
    let (own_, other) = apart k fi e in ((λ p. same ∙ own_ p), (λ n p. other n (sym same ∙ p)))
arrive-AreApart os id path (announces can now ch j from filename size total) m h apart k fi' e' =
    let fi = incoming_file (answering can os) now ch from filename size total in
    elim (Bool-cases (j == k)) [
      | inl same ↦
          let at : fi ≡ fi' = ground (
            arith,
            incoming-prepare (answering can os) now m ch j from filename size total k,
            same,
            e',
          ) in
          let jk : j ≡ k = ground (arith, same, string_eq.beq_iff j k) in
          subst (λ (f : IncomingFile). IsAt id path k f.local_path) at
            (subst (λ (i : String). IsAt id path i fi.local_path) jk h)
      | inr other ↦ apart k fi' (
          ground (
            arith,
            incoming-prepare (answering can os) now m ch j from filename size total k,
            other,
            e',
          ))
    ]
