-- ===== src/FileTransfer/Interleaving.antt =====
-- internal/filetransfer/transfer.go: several transfers at once, their announcements and chunks in any
-- order.
mod Chunks
mod Apart
pub mod Independence
mod Examples
use lan_a2a.Prelude.{
  ℕ, zero, suc, ◌+◌, ◌-◌, ◌*◌, ◌/◌, ◌%◌, ◌^◌, ◌≤◌, ◌<◌, String, ◌≡◌, refl, sym, ap, subst, ◌∙◌, ◌≢◌,
  ◌↔◌, ◌⊎◌, inl, inr, Bool, true, false, not, ◌&&◌, ◌||◌, Option, none, some, List, [], ◌∷◌, ◌++◌,
  map, arith, ltb, leb, if◌then◌else◌, Bool-cases, Option-cases, Result-cases, is_some, Eq, ◌==◌,
  nat_eq, string_eq, list_eq, beq_self, beq_ne, Result, ok, err, ◌>>=◌, length, take, drop, filter,
  All, get_elem?, In, In-filter, filter-In, contains, Distinct, length-append, contains-append,
  contains-filter, Bytes, codes, cons_unless_blank, trim_space, trim_left, trim_right, split_words,
  cons_word, space, is_space, append_text, fields, join_words, Distinct-append_one,
}
use lan_a2a.Prelude.GoMap
use lan_a2a.Prelude.GoMap.{GoMap, get-put}
use lan_a2a.Prelude.Int.{ℤ, pos, negsuc, int_eq}
use lan_a2a.FileTransfer.{
  FilePath, IncomingFile, Manager, Os, add_chunk, add_chunk_to, assemble, chunk_offset, content_of,
  incoming_file, prepare_incoming, record_chunk, write_at, write_file,
}

-- The operating system at an announcement, when it creates the file, or when it does not. That depends
-- on the directories too, which the announcements of others make.
abbrev pub answering : Bool → Os → Os
answering can os = record os { can_create = λ path. can }

-- A call of the manager: a file is announced, and can be created or not, or one of its chunks comes.
pub data Arrival : Type 0 where
  announces : Bool → ℕ → Bytes → String → String → Bytes → ℕ → ℕ → Arrival
  brings : String → ℤ → Bytes → Arrival

-- The transfer that a call is about.
abbrev pub transfer_of : Arrival → String
transfer_of (announces can now ch msg_id from filename size total) = msg_id
transfer_of (brings msg_id idx bytes) = msg_id

unfoldable pub arrive : Os → Arrival → Manager → Manager
arrive os (announces can now ch msg_id from filename size total) m =
    (prepare_incoming (answering can os) now m ch msg_id from filename size total).0
arrive os (brings msg_id idx bytes) m = (add_chunk os m msg_id idx bytes).0

unfoldable pub arrive_all : Os → List Arrival → Manager → Manager
unfolding arrive
arrive_all os [] m = m
arrive_all os (a ∷ rest) m = arrive_all os rest (arrive os a m)

-- The calls that are about one transfer.
abbrev pub own : String → List Arrival → List Arrival
own id arrivals = filter (λ a. transfer_of a == id) arrivals

-- The transfer `id`, and it alone, is stored at `path`.
abbrev pub IsAt : String → FilePath → String → FilePath → Type 0
IsAt id path j p = (j ≡ id → p ≡ path) × (j ≢ id → p ≢ path)

abbrev pub AreApart : String → FilePath → Manager → Type 0
AreApart id path m =
    (j : String) (fi : IncomingFile)
    → GoMap.get j m.incoming ≡ some fi
    → IsAt id path j fi.local_path

-- The path that a call stores its transfer at is in keeping with that, where the call announces one.
abbrev pub ArrivesApart : Os → String → FilePath → Arrival → Type 0
ArrivesApart os id path (announces can now ch msg_id from filename size total) =
    IsAt id path msg_id
      (incoming_file (answering can os) now ch from filename size total).local_path
ArrivesApart os id path (brings msg_id idx bytes) = Unit {0}

-- Two managers agree on a transfer.
pub record Agree (id : String) (path : FilePath) (m m' : Manager) : Type 0 where
  pub same_file : GoMap.get id m.incoming ≡ GoMap.get id m'.incoming
  pub same_content : GoMap.get path m.disk ≡ GoMap.get path m'.disk
