-- ===== src/FileService/Folders.antt =====
-- internal/fileservice/types.go (WalkFolder, DiffFolders) and foldersync.go: what changed in a folder
-- since its manifest was saved. The file `.lan-sync-manifest.json` of a folder holds the manifest that
-- was last written there; its JSON form is not modelled.
pub mod Diff
pub mod Manifest
use lan_a2a.Prelude.{
  ℕ, zero, suc, ◌+◌, ◌-◌, ◌*◌, ◌/◌, ◌%◌, ◌^◌, ◌≤◌, ◌<◌, String, ◌≡◌, refl, sym, ap, subst, ◌∙◌, ◌≢◌,
  ◌↔◌, ◌⊎◌, inl, inr, Bool, true, false, not, ◌&&◌, ◌||◌, Option, none, some, List, [], ◌∷◌, ◌++◌,
  map, arith, ltb, leb, if◌then◌else◌, Bool-cases, Option-cases, is_some, Eq, ◌==◌, nat_eq,
  string_eq, list_eq, beq_self, beq_ne, Result, ok, err, ◌>>=◌, length, take, drop, filter, All,
  get_elem?, In, In-filter, filter-In, contains, Distinct, length-append, contains-append,
  contains-filter, Bytes, codes,
}
use lan_a2a.Prelude.GoMap
use lan_a2a.Prelude.GoMap.{GoMap}
use lan_a2a.FileService.{Chunk, FileService, Transfer, send_file}

pub record FileEntry : Type 0 where
  pub path : String
  pub rel_path : String
  pub size : ℕ
  pub hash : String
  pub mod_time : ℕ

pub record FolderManifest : Type 0 where
  pub root : String
  pub files : GoMap String FileEntry
  pub updated_at : ℕ

pub record SyncDiff : Type 0 where
  pub root : String
  pub adds : List FileEntry
  pub modifies : List FileEntry
  pub deletes : List String

-- What `filepath.Walk` hands to its callback: an error, a directory, or a file with its relative path
-- and what `HashFile` returned (its error is ignored).
pub data Visit : Type 0 where
  unreadable_entry directory : Visit
  file : String → String → Result (String × ℕ) → ℕ → Visit

abbrev entry_of : String → String → Result (String × ℕ) → ℕ → FileEntry
entry_of path rel (ok (hash, size)) mod_time = record {
  path = path;
  rel_path = rel;
  size = size;
  hash = hash;
  mod_time = mod_time;
}
entry_of path rel (err e) mod_time = record {
  path = path;
  rel_path = rel;
  size = 0;
  hash = "";
  mod_time = mod_time;
}

walk_from : GoMap String FileEntry → List Visit → GoMap String FileEntry
walk_from entries [] = entries
walk_from entries (unreadable_entry ∷ visits) = walk_from entries visits
walk_from entries (directory ∷ visits) = walk_from entries visits
walk_from entries (file path rel hashed mod_time ∷ visits) =
    walk_from (GoMap.put rel (entry_of path rel hashed mod_time) entries) visits

unfoldable pub walk_folder : List Visit → GoMap String FileEntry
unfolding walk_from
walk_folder visits = walk_from [] visits

unfoldable pub added : GoMap String FileEntry → GoMap String FileEntry → List FileEntry
added old [] = []
added old ((rel, entry) ∷ new) = elim (GoMap.get rel old) [
  | none ↦ entry ∷ added old new
  | some e ↦ added old new
]

unfoldable pub modified : GoMap String FileEntry → GoMap String FileEntry → List FileEntry
modified old [] = []
modified old ((rel, entry) ∷ new) = elim (GoMap.get rel old) [
  | none ↦ modified old new
  | some e ↦ if e.hash == entry.hash then modified old new else entry ∷ modified old new
]

unfoldable pub deleted : GoMap String FileEntry → GoMap String FileEntry → List String
deleted [] new = []
deleted ((rel, entry) ∷ old) new = elim (GoMap.get rel new) [
  | none ↦ rel ∷ deleted old new
  | some e ↦ deleted old new
]

unfoldable pub diff_folders : GoMap String FileEntry → GoMap String FileEntry → SyncDiff
unfolding added modified deleted
diff_folders old new = record {
  root = "";
  adds = added old new;
  modifies = modified old new;
  deletes = deleted old new;
}

-- The manifests in memory and the ones saved in the folders.
pub record FolderSync : Type 0 where
  pub manifests : GoMap String FolderManifest
  pub saved : GoMap String FolderManifest
  pub service : FileService

-- What a call meets outside: the walk of the folder, whether the manifest file can be written, how a
-- file is split into chunks, and the ID that the clock gives to the transfer of a file.
pub record World : Type 0 where
  pub now : ℕ
  pub walk : String → Result (List Visit)
  pub can_write : String → Bool
  pub split : String → Result (List Chunk × String × ℕ)
  pub new_id : String → String

unfoldable pub scan_folder : World → FolderSync → String → FolderSync × Result FolderManifest
unfolding walk_folder
scan_folder w s root = elim (w.walk root) [
  | err e ↦ (s, err e)
  | ok visits ↦
      let m : FolderManifest = record {
        root = root;
        files = walk_folder visits;
        updated_at = w.now;
      } in
      (record s { manifests = GoMap.put root m s.manifests }, ok m)
]

unfoldable pub save_manifest : World → FolderSync → String → FolderSync × Result (Unit {0})
save_manifest w s root = elim (GoMap.get root s.manifests) [
  | none ↦ (s, err "no manifest")
  | some m ↦
      if w.can_write root
      then (record s { saved = GoMap.put root m s.saved }, ok tt)
      else (s, err "write")
]

unfoldable pub load_manifest : FolderSync → String → FolderSync × Result FolderManifest
load_manifest s root = elim (GoMap.get root s.saved) [
  | none ↦ (s, err "read")
  | some m ↦ (record s { manifests = GoMap.put root m s.manifests }, ok m)
]

abbrev pub files_of : Result FolderManifest → GoMap String FileEntry
files_of (ok m) = m.files
files_of (err e) = []

unfoldable pub diff_with : World → FolderSync → String → FolderSync × Result SyncDiff
unfolding scan_folder load_manifest diff_folders
diff_with w s root =
    let (s1, scanned) = scan_folder w s root in
    elim scanned [
      | err e ↦ (s1, err e)
      | ok current ↦
          let (s2, old) = load_manifest s1 root in
          (s2, ok (record (diff_folders (files_of old) current.files) { root = root }))
    ]

-- The loop of `SyncFolder`: a file that cannot be sent is skipped.
unfoldable pub send_entries :
    World → FileService → String → List FileEntry → FileService × List String
send_entries w fs peer_id [] = (fs, [])
send_entries w fs peer_id (entry ∷ entries) =
    let (fs', sent) =
      send_file fs w.now (w.new_id entry.path) peer_id entry.path (w.split entry.path) in
    let (end, ids) = send_entries w fs' peer_id entries in
    elim sent [ ok t ↦ (end, t.id ∷ ids) | err e ↦ (end, ids) ]

pub record SyncResult : Type 0 where
  pub diff : SyncDiff
  pub transfers : List String

unfoldable pub sync_folder : World → FolderSync → String → String → FolderSync × Result SyncResult
unfolding diff_with save_manifest send_entries
sync_folder w s root peer_id =
    let (s1, diffed) = diff_with w s root in
    elim diffed [
      | err e ↦ (s1, err e)
      | ok diff ↦
          let (fs, ids) = send_entries w s1.service peer_id (diff.adds ++ diff.modifies) in
          let (s2, written) = save_manifest w (record s1 { service = fs }) root in
          (s2, ok (record { diff = diff; transfers = ids }))
    ]

-- What `GetStatus` returns.
pub data FolderStatus : Type 0 where
  unknown : FolderStatus
  tracked : ℕ → ℕ → ℕ → FolderStatus

unfoldable pub total_size : List FileEntry → ℕ
total_size [] = 0
total_size (entry ∷ entries) = entry.size + total_size entries

-- The number of files, their total size, and when they were scanned.
unfoldable pub get_status : FolderSync → String → FolderStatus
unfolding total_size
get_status s root = elim (GoMap.get root s.manifests) [
  | none ↦ unknown
  | some m ↦ tracked (GoMap.len m.files) (total_size (GoMap.values m.files)) m.updated_at
]
