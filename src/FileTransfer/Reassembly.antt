-- ===== src/FileTransfer/Reassembly.antt =====
-- internal/filetransfer/transfer.go: chunks that arrive in any order, also twice, make up the file.
use lan_a2a.Prelude.{
  refl, ◌||◌, ◌≢◌, subst, sym, beq_self, inr, inl, Bool-cases, ◌∙◌, ℕ, suc, ◌*◌, ◌≤◌, ◌<◌, String,
  ◌≡◌, ap, true, false, some, List, [], ◌∷◌, arith, if◌then◌else◌, ◌==◌, nat_eq, string_eq, list_eq,
  Result, ok, length, All, contains, Distinct, Bytes,
}
use lan_a2a.Prelude.GoMap
use lan_a2a.Prelude.GoMap.{GoMap, get-put, keys-put, Distinct-put}
use lan_a2a.Prelude.Int.{pos, int_eq}
use lan_a2a.FileTransfer.{
  incoming_file, prepare_incoming, add_chunk_to, write_at, write_file, Os, FilePath, Manager,
  IncomingFile, chunk_size, chunk_offset, record_chunk, add_chunk,
}
use lan_a2a.FileTransfer.Pieces.{Holds-empty, eq_of_Holds, Holds-write_at, piece, Holds}
use lan_a2a.FileTransfer.Counting.{le-length_of_all, contains_of_length, length-le-below, IsBelow}
use lan_a2a.FileTransfer.Recording.{
  deliver, IsSound, IsCount, Progress, marked, all_received, Recorded, record_chunk-Recorded,
  len-put, IsBelow-put, marks-put, chunk_offset-pos, Holds-again,
}

abbrev upon : List ℕ → List ℕ → List ℕ
upon seen [] = seen
upon seen (k ∷ ks) = upon (k ∷ seen) ks

module _ (os : Os) (file : Bytes) (n : ℕ) (path : FilePath) (msg_id : String) (good : IsSound os)
    (count : IsCount file n) where
  -- Once the bytes of chunk `k` are on disk, recording it makes the progress.
  advance :
      (m m' : Manager) (k : ℕ) (seen : List ℕ) (content : Bytes)
      (p : Progress file n path msg_id seen m)
      → k < n
      → GoMap.get path m'.disk ≡ some content
      → Holds file (k ∷ seen) content
      → m'.has_on_complete ≡ m.has_on_complete
      → m'.completed ≡ m.completed
      → Progress file n path msg_id (k ∷ seen) (record_chunk m' msg_id p.fi (pos k)).0
        × ((record_chunk m' msg_id p.fi (pos k)).1 ≡ ok tt)
  advance m m' k seen content p lt on_disk held cb done = (
    record {
      fi = record fi' { is_open = if all_received fi' then false else fi'.is_open };
      found = r.now_stored;
      stored = p.stored;
      total = p.total;
      distinct = distinct';
      below = below';
      marks = λ j. marks-put k j p.fi.received seen (p.marks j);
      content = content;
      on_disk = ap (GoMap.get path) r.same_disk ∙ on_disk;
      held = held;
      opened = ground (arith, p.opened, p.total, len', at_most);
      reports = r.same_callback ∙ cb ∙ p.reports;
      reported = ground (arith, p.reported, p.total, r.now_reported, done, len', at_most);
    },
    r.succeeds,
  )
    where
      fi' : IncomingFile
      fi' = marked p.fi (pos k)

      r : Recorded m' msg_id fi' (record_chunk m' msg_id p.fi (pos k))
      r =
          record_chunk-Recorded m' msg_id p.fi (pos k) content
            (ap (λ (q : FilePath). GoMap.get q m'.disk) p.stored ∙ on_disk) (cb ∙ p.reports)

      distinct' : Distinct (GoMap.keys fi'.received)
      distinct' = Distinct-put (pos k) true p.fi.received p.distinct

      below' : All (IsBelow n) (GoMap.keys fi'.received)
      below' = IsBelow-put n k p.fi.received lt p.below

      at_most : GoMap.len fi'.received ≤ n
      at_most = length-le-below n (GoMap.keys fi'.received) distinct' below'

      len' : GoMap.len fi'.received ≡ (
          if contains (pos k) (GoMap.keys p.fi.received)
          then GoMap.len p.fi.received
          else suc (GoMap.len p.fi.received))
      len' = len-put (pos k) p.fi.received

  write_file_sound :
      (disk : GoMap FilePath Bytes) (content : Bytes) (k : ℕ) (bytes : Bytes)
      → k < n
      → GoMap.get path disk ≡ some content
      → write_file os disk path (chunk_offset (pos k)) bytes
        ≡ (GoMap.put path (write_at content (k * chunk_size) bytes) disk, false)
  unfolding write_file
  write_file_sound disk content k bytes lt e =
      ground
        (arith, chunk_offset-pos k (omega (arith, count.fits)), good path (k * chunk_size) bytes)

  add_chunk-open :
      (m : Manager) (fi : IncomingFile) (content : Bytes) (k : ℕ) (bytes : Bytes)
      → k < n
      → GoMap.get msg_id m.incoming ≡ some fi
      → fi.local_path ≡ path
      → GoMap.get path m.disk ≡ some content
      → fi.is_open ≡ true
      → add_chunk os m msg_id (pos k) bytes
        ≡ record_chunk
            (record m { disk = GoMap.put path (write_at content (k * chunk_size) bytes) m.disk })
            msg_id
            fi
            (pos k)
  unfolding add_chunk add_chunk_to
  add_chunk-open m fi content k bytes lt found stored on_disk still = ground (
    arith,
    write_file_sound m.disk content k bytes lt on_disk,
    ap (λ (q : FilePath). write_file os m.disk q (chunk_offset (pos k)) bytes) stored,
  )

  add_chunk-closed :
      (m : Manager) (fi : IncomingFile) (k : ℕ) (bytes : Bytes)
      → GoMap.get msg_id m.incoming ≡ some fi
      → fi.is_open ≡ false
      → add_chunk os m msg_id (pos k) bytes ≡ record_chunk m msg_id fi (pos k)
  unfolding add_chunk add_chunk_to
  add_chunk-closed m fi k bytes found closed = ground arith

  abbrev Advances : ℕ → List ℕ → Manager × Result (Unit {0}) → Type 0
  Advances k seen r = Progress file n path msg_id (k ∷ seen) r.0 × (r.1 ≡ ok tt)

  -- Each chunk that arrives, at whatever time, makes its progress and is accepted.
  add_chunk-Progress :
      (m : Manager) (k : ℕ) (seen : List ℕ)
      → Progress file n path msg_id seen m
      → k < n
      → Advances k seen (add_chunk os m msg_id (pos k) (piece file k))
  add_chunk-Progress m k seen p lt = elim (Bool-cases p.fi.is_open) [
    | inl still ↦
        subst (Advances k seen)
          (sym
            (add_chunk-open m p.fi p.content k (piece file k) lt p.found p.stored p.on_disk still))
          (advance m _ k seen (write_at p.content (k * chunk_size) (piece file k)) p lt
            (rw get-put (ground (arith, list_beq_path path)))
            (Holds-write_at file seen p.content k (count.needed k lt) p.held) refl refl)
    | inr closed ↦
        subst (Advances k seen) (sym (add_chunk-closed m p.fi k (piece file k) p.found closed)) (
          advance m m k seen p.content p lt p.on_disk
            (Holds-again file seen p.content k (was_seen m k seen p lt closed) p.held) refl refl)
  ]
    where
      list_beq_path : (q : FilePath) → (q == q) ≡ true
      list_beq_path q = beq_self q

      was_seen :
          (m' : Manager) (j : ℕ) (seen' : List ℕ) (q : Progress file n path msg_id seen' m')
          → j < n
          → q.fi.is_open ≡ false
          → contains j seen' ≡ true
      was_seen m' j seen' q lt' closed' =
          sym (q.marks j)
          ∙ contains_of_length n j (GoMap.keys q.fi.received) q.distinct q.below
              (ground (arith, q.opened)) lt'

  deliver-Progress :
      (m : Manager) (seen ks : List ℕ)
      → Progress file n path msg_id seen m
      → All (λ k. k < n) ks
      → Progress file n path msg_id (upon seen ks) (deliver os msg_id file m ks)
  unfolding deliver
  deliver-Progress m seen [] p h = p
  deliver-Progress m seen (k ∷ ks) p h =
      deliver-Progress (add_chunk os m msg_id (pos k) (piece file k)).0 (k ∷ seen) ks
        (add_chunk-Progress m k seen p h.0).0 h.1

contains-upon :
    (k : ℕ) (seen ks : List ℕ) → contains k (upon seen ks) ≡ (contains k ks || contains k seen)
contains-upon k seen [] = refl
contains-upon k seen (j ∷ ks) = ground (arith, contains-upon k (j ∷ seen) ks)

-- What has been reported is whole, and what is whole has been reported.
Progress-whole :
    (file : Bytes) (n : ℕ) (path : FilePath) (msg_id : String) (seen : List ℕ) (m : Manager)
    → IsCount file n
    → Progress file n path msg_id seen m
    → (m.completed ≢ [] → GoMap.get path m.disk ≡ some file)
      × (((k : ℕ) → k < n → contains k seen ≡ true) → m.completed ≢ [])
Progress-whole file n path msg_id seen m count p = (
  λ done.
      p.on_disk
      ∙ ap some (
          eq_of_Holds file seen p.content
            (λ k lt.
              sym (p.marks k)
              ∙ contains_of_length n k (GoMap.keys p.fi.received) p.distinct p.below
                  (ground (arith, p.reported, done)) (omega (arith, count.covers)))
            p.held),
  λ all e. absurd (
      omega (
        arith,
        p.reported.0 e,
        le-length_of_all n (GoMap.keys p.fi.received) (λ k lt. p.marks k ∙ all k lt),
      )),
)

prepare-Progress :
    (os : Os) (now : ℕ) (m : Manager) (channel_id : Bytes) (msg_id from : String)
    (filename file : Bytes) (n : ℕ)
    → os.can_create (prepare_incoming os now m channel_id msg_id from filename (length file) n).1
      ≡ true
    → 0 < n
    → m.completed ≡ []
    → m.has_on_complete ≡ true
    → let start = prepare_incoming os now m channel_id msg_id from filename (length file) n in
      Progress file n start.1 msg_id [] start.0
unfolding prepare_incoming
prepare-Progress os now m channel_id msg_id from filename file n can some_chunk fresh cb =
    let fi = incoming_file os now channel_id from filename (length file) n in
    record {
      fi = fi;
      found = get-put msg_id msg_id fi m.incoming ∙ rw (beq_self msg_id) refl;
      stored = refl;
      total = refl;
      distinct = tt;
      below = tt;
      marks = λ k. refl;
      content = [];
      on_disk =
          rw can (get-put fi.local_path fi.local_path [] m.disk ∙ rw (beq_self fi.local_path) refl);
      held = Holds-empty file;
      opened = ground (arith, can);
      reports = cb;
      reported = ground (arith, fresh);
    }

pub deliver-restores :
    (os : Os) (now : ℕ) (m : Manager) (channel_id : Bytes) (msg_id from : String)
    (filename file : Bytes) (n : ℕ) (ks : List ℕ)
    → IsSound os
    → os.can_create (prepare_incoming os now m channel_id msg_id from filename (length file) n).1
      ≡ true
    → IsCount file n
    → 0 < n
    → m.completed ≡ []
    → m.has_on_complete ≡ true
    → All (λ k. k < n) ks
    → let (start, path) =
        prepare_incoming os now m channel_id msg_id from filename (length file) n in
      let end = deliver os msg_id file start ks in
      (end.completed ≢ [] → GoMap.get path end.disk ≡ some file)
      × (((k : ℕ) → k < n → contains k ks ≡ true) → end.completed ≢ [])
deliver-restores os now m channel_id msg_id from filename file n ks good can count some_chunk fresh
      cb below =
    let start = prepare_incoming os now m channel_id msg_id from filename (length file) n in
    let p =
      deliver-Progress os file n start.1 msg_id good count start.0 [] ks
        (prepare-Progress os now m channel_id msg_id from filename file n can some_chunk fresh cb)
        below in
    let whole = Progress-whole file n start.1 msg_id (upon [] ks) _ count p in
    (whole.0, λ all. whole.1 (λ k lt. contains-upon k [] ks ∙ ground (arith, all k lt)))
