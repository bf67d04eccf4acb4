-- ===== src/FileTransfer/Interleaving/Chunks.antt =====
-- internal/filetransfer/transfer.go: a chunk changes nothing of another transfer, and does the same to
-- its own in managers that agree on it.
use lan_a2a.Prelude.{
  String, ◌≡◌, refl, sym, ap, subst, ◌∙◌, ◌≢◌, inl, inr, true, false, some, arith, if◌then◌else◌,
  Bool-cases, Option-cases, ◌==◌, nat_eq, string_eq, list_eq, beq_self, beq_ne, err, take, Bytes,
}
use lan_a2a.Prelude.GoMap
use lan_a2a.Prelude.GoMap.{GoMap, get-put}
use lan_a2a.Prelude.Int.{ℤ, pos, negsuc, int_eq}
use lan_a2a.FileTransfer.{
  FilePath, IncomingFile, Manager, Os, add_chunk, add_chunk_to, assemble, chunk_offset, content_of,
  record_chunk, write_at, write_file,
}
use lan_a2a.FileTransfer.Interleaving.{Agree, AreApart}

disk-record_chunk :
    (m : Manager) (id : String) (fi : IncomingFile) (idx : ℤ)
    → (record_chunk m id fi idx).0.disk ≡ m.disk
unfolding record_chunk assemble
disk-record_chunk m id fi idx = ground arith

-- What is stored for a transfer once a chunk is recorded.
abbrev pub stored : IncomingFile → ℤ → IncomingFile
stored fi idx =
    let fi' : IncomingFile = record fi { received = GoMap.put idx true fi.received } in
    if GoMap.len fi'.received == fi'.total_chunks then record fi' { is_open = false } else fi'

pub incoming-record_chunk :
    (m : Manager) (id j : String) (fi : IncomingFile) (idx : ℤ)
    → GoMap.get j (record_chunk m id fi idx).0.incoming
      ≡ (if id == j then some (stored fi idx) else GoMap.get j m.incoming)
unfolding record_chunk assemble
incoming-record_chunk m id j fi idx =
    let fi' : IncomingFile = record fi { received = GoMap.put idx true fi.received } in
    elim (Bool-cases (GoMap.len fi'.received == fi'.total_chunks)) [
      | inl all ↦ ground (arith, all, get-put id j (record fi' { is_open = false }) m.incoming)
      | inr some_ ↦ ground (arith, some_, get-put id j fi' m.incoming)
    ]

get-write_file :
    (os : Os) (disk : GoMap FilePath Bytes) (p q : FilePath) (o : ℤ) (bytes : Bytes)
    → p ≢ q
    → GoMap.get q (write_file os disk p o bytes).0 ≡ GoMap.get q disk
unfolding write_file
get-write_file os disk p q (negsuc k) bytes n = refl
get-write_file os disk p q (pos k) bytes n = elim (Option-cases (os.fails_after p k bytes)) [
  | inl e ↦
      ground (
        arith,
        e,
        beq_ne p q n,
        get-put p q (write_at (content_of (GoMap.get p disk)) k bytes) disk,
      )
  | inr (j, e) ↦ ground (
    arith,
    e,
    beq_ne p q n,
    get-put p q (write_at (content_of (GoMap.get p disk)) k (take j bytes)) disk,
  )
]

write_file-same :
    (os : Os) (disk disk' : GoMap FilePath Bytes) (p : FilePath) (o : ℤ) (bytes : Bytes)
    → GoMap.get p disk ≡ GoMap.get p disk'
    → (GoMap.get p (write_file os disk p o bytes).0 ≡ GoMap.get p (write_file os disk' p o bytes).0)
      × ((write_file os disk p o bytes).1 ≡ (write_file os disk' p o bytes).1)
unfolding write_file
write_file-same os disk disk' p (negsuc k) bytes e = (e, refl)
write_file-same os disk disk' p (pos k) bytes e = elim (Option-cases (os.fails_after p k bytes)) [
  | inl f ↦ ground (
    arith,
    e,
    f,
    list_eq.beq_iff p p,
    get-put p p (write_at (content_of (GoMap.get p disk)) k bytes) disk,
    get-put p p (write_at (content_of (GoMap.get p disk')) k bytes) disk',
  )
  | inr (j, f) ↦ ground (
    arith,
    e,
    f,
    list_eq.beq_iff p p,
    get-put p p (write_at (content_of (GoMap.get p disk)) k (take j bytes)) disk,
    get-put p p (write_at (content_of (GoMap.get p disk')) k (take j bytes)) disk',
  )
]

add_chunk_to-other :
    (os : Os) (m : Manager) (id j : String) (path : FilePath) (fi : IncomingFile) (idx : ℤ)
    (bytes : Bytes)
    → j ≢ id
    → fi.local_path ≢ path
    → Agree id path (add_chunk_to os m j fi idx bytes).0 m
unfolding add_chunk_to
add_chunk_to-other os m id j path fi idx bytes n apart =
    let (disk, failed) = write_file os m.disk fi.local_path (chunk_offset idx) bytes in
    let m' : Manager = record m { disk = disk } in
    record {
      same_file = ground (
        arith,
        incoming-record_chunk m' j id fi idx,
        incoming-record_chunk m j id fi idx,
        beq_ne j id n,
      );
      same_content = ground (
        arith,
        disk-record_chunk m' j fi idx,
        disk-record_chunk m j fi idx,
        get-write_file os m.disk fi.local_path path (chunk_offset idx) bytes apart,
        ap (GoMap.get path) (disk-record_chunk m' j fi idx),
        ap (GoMap.get path) (disk-record_chunk m j fi idx),
      );
    }

-- A chunk of another transfer leaves this one alone.
pub add_chunk-other :
    (os : Os) (m : Manager) (id j : String) (path : FilePath) (idx : ℤ) (bytes : Bytes)
    → AreApart id path m
    → j ≢ id
    → Agree id path (add_chunk os m j idx bytes).0 m
unfolding add_chunk add_chunk_to
add_chunk-other os m id j path idx bytes apart n = elim (Option-cases (GoMap.get j m.incoming)) [
  | inl e ↦ rw (add_chunk, e) (record { same_file = refl; same_content = refl })
  | inr (fi, e) ↦
      rw (add_chunk, e) (add_chunk_to-other os m id j path fi idx bytes n ((apart j fi e).1 n))
]

-- Recording a chunk of this transfer, in two managers.
incoming-record_own :
    (m : Manager) (id : String) (fi : IncomingFile) (idx : ℤ)
    → GoMap.get id (record_chunk m id fi idx).0.incoming ≡ some (stored fi idx)
incoming-record_own m id fi idx = incoming-record_chunk m id id fi idx ∙ rw (beq_self id) refl

record_chunk-Agree :
    (id : String) (path : FilePath) (fi : IncomingFile) (idx : ℤ) (m m' : Manager)
    → GoMap.get path m.disk ≡ GoMap.get path m'.disk
    → Agree id path (record_chunk m id fi idx).0 (record_chunk m' id fi idx).0
record_chunk-Agree id path fi idx m m' e = record {
  same_file = incoming-record_own m id fi idx ∙ sym (incoming-record_own m' id fi idx);
  same_content =
      ap (GoMap.get path) (disk-record_chunk m id fi idx)
      ∙ e
      ∙ sym (ap (GoMap.get path) (disk-record_chunk m' id fi idx));
}

-- The three ways of a chunk.
abbrev pub written : Os → Manager → IncomingFile → ℤ → Bytes → Manager
written os m fi idx bytes = record m {
  disk = (write_file os m.disk fi.local_path (chunk_offset idx) bytes).0;
}

pub add_chunk_to-closed :
    (os : Os) (m : Manager) (id : String) (fi : IncomingFile) (idx : ℤ) (bytes : Bytes)
    → fi.is_open ≡ false
    → add_chunk_to os m id fi idx bytes ≡ record_chunk m id fi idx
unfolding add_chunk_to
add_chunk_to-closed os m id fi idx bytes c = ground (arith, c)

pub add_chunk_to-open :
    (os : Os) (m : Manager) (id : String) (fi : IncomingFile) (idx : ℤ) (bytes : Bytes)
    → fi.is_open ≡ true
    → add_chunk_to os m id fi idx bytes ≡ (
        if (write_file os m.disk fi.local_path (chunk_offset idx) bytes).1
        then (written os m fi idx bytes, err "write chunk")
        else record_chunk (written os m fi idx bytes) id fi idx)
unfolding add_chunk_to
add_chunk_to-open os m id fi idx bytes o = ground (arith, o)

add_chunk_to-Agree :
    (os : Os) (id : String) (fi : IncomingFile) (idx : ℤ) (bytes : Bytes) (m m' : Manager)
    → Agree id fi.local_path m m'
    → Agree id fi.local_path
        (add_chunk_to os m id fi idx bytes).0
        (add_chunk_to os m' id fi idx bytes).0
add_chunk_to-Agree os id fi idx bytes m m' a =
    let path = fi.local_path in
    let o = chunk_offset idx in
    let (disks, flags) = write_file-same os m.disk m'.disk path o bytes a.same_content in
    elim (Bool-cases fi.is_open) [
      | inr c ↦
          rw
            (
              add_chunk_to-closed os m id fi idx bytes c,
              add_chunk_to-closed os m' id fi idx bytes c,
            )
            (record_chunk-Agree id path fi idx m m' a.same_content)
      | inl c ↦
          rw
            (
              add_chunk_to-open os m id fi idx bytes c,
              add_chunk_to-open os m' id fi idx bytes c,
              flags,
            )
            (elim (Bool-cases (write_file os m'.disk path o bytes).1) [
              | inl f ↦ rw f (record { same_file = a.same_file; same_content = disks })
              | inr f ↦ rw f (
                  record_chunk-Agree id path fi idx (written os m fi idx bytes)
                    (written os m' fi idx bytes) disks)
            ])
    ]

pub add_chunk-Agree :
    (os : Os) (id : String) (path : FilePath) (idx : ℤ) (bytes : Bytes) (m m' : Manager)
    → AreApart id path m'
    → Agree id path m m'
    → Agree id path (add_chunk os m id idx bytes).0 (add_chunk os m' id idx bytes).0
unfolding add_chunk
add_chunk-Agree os id path idx bytes m m' apart a = elim (Option-cases (GoMap.get id m'.incoming)) [
  | inl e ↦ rw (add_chunk, a.same_file, e) a
  | inr (fi, e) ↦
      let at : fi.local_path ≡ path = (apart id fi e).0 refl in
      rw (add_chunk, a.same_file, e)
        (subst
          (λ (p : FilePath).
            Agree id p (add_chunk_to os m id fi idx bytes).0 (add_chunk_to os m' id fi idx bytes).0)
          at
          (add_chunk_to-Agree os id fi idx bytes m m'
            (subst (λ (p : FilePath). Agree id p m m') (sym at) a)))
]
