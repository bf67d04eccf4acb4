-- ===== src/FileTransfer/Interleaving/Independence.antt =====
-- internal/filetransfer/transfer.go: transfers at different paths do not disturb each other.
use lan_a2a.Prelude.{
  Bool, ℕ, ◌<◌, String, ◌≡◌, refl, sym, ap, subst, ◌∙◌, ◌≢◌, inl, inr, true, ◌&&◌, Option, some,
  List, [], ◌∷◌, map, arith, if◌then◌else◌, Bool-cases, ◌==◌, nat_eq, string_eq, list_eq, beq_self,
  beq_ne, length, All, contains, Bytes,
}
use lan_a2a.Prelude.GoMap
use lan_a2a.Prelude.GoMap.{GoMap, get-put}
use lan_a2a.Prelude.Int.{pos, int_eq}
use lan_a2a.FileTransfer.{
  FilePath, IncomingFile, download_dir, Manager, Os, add_chunk, incoming_file, prepare_incoming,
}
use lan_a2a.FileTransfer.Interleaving.{
  answering, Agree, AreApart, Arrival, ArrivesApart, announces, arrive, arrive_all, brings, own,
  transfer_of,
}
use lan_a2a.FileTransfer.Pieces.{piece}
use lan_a2a.FileTransfer.Recording.{IsCount, IsSound, deliver}
use lan_a2a.FileTransfer.Reassembly.{deliver-restores}
use lan_a2a.FileTransfer.Interleaving.Chunks.{add_chunk-Agree, add_chunk-other}
use lan_a2a.FileTransfer.Interleaving.Apart.{arrive-AreApart, disk-prepare, incoming-prepare}

arrive-other :
    (os : Os) (id : String) (path : FilePath) (a : Arrival) (m : Manager)
    → ArrivesApart os id path a
    → AreApart id path m
    → transfer_of a ≢ id
    → Agree id path (arrive os a m) m
unfolding arrive
arrive-other os id path (brings j idx bytes) m h apart n =
    add_chunk-other os m id j path idx bytes apart n
arrive-other os id path (announces can now ch j from filename size total) m h apart n =
    let fi = incoming_file (answering can os) now ch from filename size total in
    record {
      same_file = ground (
        arith,
        incoming-prepare (answering can os) now m ch j from filename size total id,
        beq_ne j id n,
      );
      same_content = ground (
        arith,
        disk-prepare (answering can os) now m ch j from filename size total path,
        beq_ne fi.local_path path (h.1 n),
      );
    }

arrive-own :
    (os : Os) (path : FilePath) (a : Arrival) (m m' : Manager)
    → ArrivesApart os (transfer_of a) path a
    → AreApart (transfer_of a) path m'
    → Agree (transfer_of a) path m m'
    → Agree (transfer_of a) path (arrive os a m) (arrive os a m')
unfolding arrive
arrive-own os path (brings j idx bytes) m m' h apart a =
    add_chunk-Agree os j path idx bytes m m' apart a
arrive-own os path (announces can now ch j from filename size total) m m' h apart a =
    let fi = incoming_file (answering can os) now ch from filename size total in
    record {
      same_file =
          incoming-prepare (answering can os) now m ch j from filename size total j
          ∙ rw (beq_self j) (
              sym (
                incoming-prepare (answering can os) now m' ch j from filename size total j
                ∙ rw (beq_self j) refl));
      same_content =
          disk-prepare (answering can os) now m ch j from filename size total path
          ∙ ap (λ (o : Option Bytes). if fi.is_open && (fi.local_path == path) then some [] else o)
              a.same_content
          ∙ sym (disk-prepare (answering can os) now m' ch j from filename size total path);
    }

arrive-own_of :
    (os : Os) (id : String) (path : FilePath) (a : Arrival) (m m' : Manager)
    → transfer_of a ≡ id
    → ArrivesApart os id path a
    → AreApart id path m'
    → Agree id path m m'
    → Agree id path (arrive os a m) (arrive os a m')
arrive-own_of os id path a m m' e =
    subst
      (λ (i : String).
        ArrivesApart os i path a
        → AreApart i path m'
        → Agree i path m m'
        → Agree i path (arrive os a m) (arrive os a m'))
      e (λ h apart agree. arrive-own os path a m m' h apart agree)

Agree-then :
    (id : String) (path : FilePath) (m m' m'' : Manager)
    → Agree id path m m'
    → Agree id path m' m''
    → Agree id path m m''
Agree-then id path m m' m'' a b = record {
  same_file = a.same_file ∙ b.same_file;
  same_content = a.same_content ∙ b.same_content;
}

arrive_all-Agree :
    (os : Os) (id : String) (path : FilePath) (arrivals : List Arrival) (m m' : Manager)
    → All (ArrivesApart os id path) arrivals
    → AreApart id path m
    → AreApart id path m'
    → Agree id path m m'
    → Agree id path (arrive_all os arrivals m) (arrive_all os (own id arrivals) m')
unfolding arrive_all
arrive_all-Agree os id path [] m m' h apart apart' a = a
arrive_all-Agree os id path (x ∷ rest) m m' h apart apart' a =
    elim (Bool-cases (transfer_of x == id)) [
      | inl same ↦
          let e : transfer_of x ≡ id = ground (arith, same, string_eq.beq_iff (transfer_of x) id) in
          rw same (
            arrive_all-Agree os id path rest (arrive os x m) (arrive os x m') h.1
              (arrive-AreApart os id path x m h.0 apart)
              (arrive-AreApart os id path x m' h.0 apart')
              (arrive-own_of os id path x m m' e h.0 apart' a))
      | inr other ↦
          let n : transfer_of x ≢ id =
            λ p. ground (arith, other, string_eq.beq_iff (transfer_of x) id, p) in
          rw other (
            arrive_all-Agree os id path rest (arrive os x m) m' h.1
              (arrive-AreApart os id path x m h.0 apart) apart'
              (Agree-then id path (arrive os x m) m m' (arrive-other os id path x m h.0 apart n) a))
    ]

-- Transfers that are stored at different paths do not disturb each other beyond what decides whether a
-- file can be created, which each announcement comes with: whatever announcements and chunks of other
-- transfers come in between, valid or not, what is known of a transfer and what its file holds on disk
-- is what its own announcements and chunks alone would have left, in their order, where each of its own
-- announcements meets the same answer of the operating system.
pub arrive_all-independent :
    (os : Os) (id : String) (path : FilePath) (arrivals : List Arrival) (m : Manager)
    → All (ArrivesApart os id path) arrivals
    → AreApart id path m
    → let end = arrive_all os arrivals m in
      let alone = arrive_all os (own id arrivals) m in
      (GoMap.get id end.incoming ≡ GoMap.get id alone.incoming)
      × (GoMap.get path end.disk ≡ GoMap.get path alone.disk)
arrive_all-independent os id path arrivals m h apart =
    let a =
      arrive_all-Agree os id path arrivals m m h apart apart
        (record { same_file = refl; same_content = refl }) in
    (a.same_file, a.same_content)

-- The chunks of a file, as they arrive.
abbrev pub chunks_of : String → Bytes → List ℕ → List Arrival
chunks_of id file ks = map (λ k. brings id (pos k) (piece file k)) ks

deliver-arrive_all :
    (os : Os) (id : String) (file : Bytes) (ks : List ℕ) (m : Manager)
    → arrive_all os (chunks_of id file ks) m ≡ deliver os id file m ks
unfolding arrive_all arrive deliver
deliver-arrive_all os id file [] m = refl
deliver-arrive_all os id file (k ∷ ks) m =
    deliver-arrive_all os id file ks (add_chunk os m id (pos k) (piece file k)).0

prepare-answering :
    (os : Os) (now : ℕ) (m : Manager) (ch : Bytes) (msg_id from : String) (filename : Bytes)
    (size n : ℕ)
    → os.can_create (incoming_file os now ch from filename size n).local_path ≡ true
    → (prepare_incoming (answering true os) now m ch msg_id from filename size n).0
      ≡ (prepare_incoming os now m ch msg_id from filename size n).0
unfolding prepare_incoming incoming_file download_dir
prepare-answering os now m ch msg_id from filename size n can =
    let fi : Bool → IncomingFile =
      λ b. record (incoming_file os now ch from filename size n) { is_open = b } in
    ap
      (λ (b : Bool).
        let out : Manager = record m {
          incoming = GoMap.put msg_id (fi b) m.incoming;
          disk = if b then GoMap.put (fi b).local_path [] m.disk else m.disk;
        } in
        out)
      (sym can)

-- A file arrives among any other transfers: once it was announced and every one of its chunks has come,
-- in any order, some perhaps twice, the file on disk is the sender's, whatever came for other transfers
-- in between, as long as these are stored at other paths. The conditions on the file, on the disk and on
-- the manager are those for a file that arrives alone.
pub arrive_all-restores :
    (os : Os) (now : ℕ) (m : Manager) (channel_id : Bytes) (msg_id from : String)
    (filename file : Bytes) (n : ℕ) (ks : List ℕ) (arrivals : List Arrival)
    → let fi = incoming_file os now channel_id from filename (length file) n in
      own msg_id arrivals
        ≡ announces true now channel_id msg_id from filename (length file) n
          ∷ chunks_of msg_id file ks
      → All (ArrivesApart os msg_id fi.local_path) arrivals
      → AreApart msg_id fi.local_path m
      → IsSound os
      → os.can_create fi.local_path ≡ true
      → IsCount file n
      → 0 < n
      → m.completed ≡ []
      → m.has_on_complete ≡ true
      → All (λ k. k < n) ks
      → ((k : ℕ) → k < n → contains k ks ≡ true)
      → GoMap.get fi.local_path (arrive_all os arrivals m).disk ≡ some file
unfolding arrive_all arrive prepare_incoming
arrive_all-restores os now m channel_id msg_id from filename file n ks arrivals mine apart there
      good can count some_chunk fresh cb below all =
    let path = (incoming_file os now channel_id from filename (length file) n).local_path in
    let start = (prepare_incoming os now m channel_id msg_id from filename (length file) n).0 in
    let (whole, reported) =
      deliver-restores os now m channel_id msg_id from filename file n ks good can count some_chunk
        fresh cb below in
    (arrive_all-independent os msg_id path arrivals m apart there).1
    ∙ ap (λ (l : List Arrival). GoMap.get path (arrive_all os l m).disk) mine
    ∙ ap (λ (s : Manager). GoMap.get path (arrive_all os (chunks_of msg_id file ks) s).disk)
        (prepare-answering os now m channel_id msg_id from filename (length file) n can)
    ∙ ap (λ (s : Manager). GoMap.get path s.disk) (deliver-arrive_all os msg_id file ks start)
    ∙ whole (reported all)
