-- ===== src/FileService/Folders/Manifest.antt =====
-- The manifest that internal/fileservice/foldersync.go saves after a sync.
use lan_a2a.Prelude.{
  inr, ◌∙◌, ap, refl, [], inl, sym, Result-cases, true, List, ◌++◌, String, ◌≡◌, Option, none, some,
  arith, nat_eq, string_eq, list_eq, Result, ok, err,
}
use lan_a2a.Prelude.GoMap
use lan_a2a.Prelude.GoMap.{GoMap, get-put}
use lan_a2a.FileService.Folders.{
  ap, [], sym, true, walk_folder, diff_folders, Visit, List, diff_with, save_manifest, send_entries,
  FolderManifest, FolderSync, SyncDiff, SyncResult, World, sync_folder,
}

-- The diff that a sync reports.
abbrev pub diff_of : Result SyncResult → Option SyncDiff
diff_of (ok r) = some r.diff
diff_of (err e) = none

-- A diff against a saved manifest leaves that manifest in memory, in place of the scan.
diff_with-saved :
    (w : World) (s : FolderSync) (root : String) (visits : List Visit) (m : FolderManifest)
    → w.walk root ≡ ok visits
    → GoMap.get root s.saved ≡ some m
    → let (s', d) = diff_with w s root in
      (GoMap.get root s'.manifests ≡ some m)
      × (s'.saved ≡ s.saved)
      × (d ≡ ok (record (diff_folders m.files (walk_folder visits)) { root = root }))
unfolding diff_with
diff_with-saved w s root visits m walked e = ground (
  arith,
  get-put root root m (
      GoMap.put root (record { root = root; files = walk_folder visits; updated_at = w.now })
        s.manifests),
  string_eq.beq_iff root root,
)

diff_with-unsaved :
    (w : World) (s : FolderSync) (root : String) (visits : List Visit)
    → w.walk root ≡ ok visits
    → GoMap.get root s.saved ≡ none
    → let (s', d) = diff_with w s root in
      (GoMap.get root s'.manifests
        ≡ some (record { root = root; files = walk_folder visits; updated_at = w.now }))
      × (d ≡ ok (record (diff_folders [] (walk_folder visits)) { root = root }))
unfolding diff_with
diff_with-unsaved w s root visits walked e = ground (
  arith,
  get-put root root (record { root = root; files = walk_folder visits; updated_at = w.now })
      s.manifests,
  string_eq.beq_iff root root,
)

diff_with-fails :
    (w : World) (s : FolderSync) (root e : String)
    → w.walk root ≡ err e
    → diff_with w s root ≡ (s, err e)
unfolding diff_with
diff_with-fails w s root e h = ground (arith, h)

save_manifest-same :
    (w : World) (s : FolderSync) (root : String) (m : FolderManifest)
    → GoMap.get root s.manifests ≡ some m
    → GoMap.get root s.saved ≡ some m
    → GoMap.get root (save_manifest w s root).0.saved ≡ some m
unfolding save_manifest
save_manifest-same w s root m e h =
    ground (arith, get-put root root m s.saved, string_eq.beq_iff root root)

save_manifest-writes :
    (w : World) (s : FolderSync) (root : String) (m : FolderManifest)
    → w.can_write root ≡ true
    → GoMap.get root s.manifests ≡ some m
    → GoMap.get root (save_manifest w s root).0.saved ≡ some m
unfolding save_manifest
save_manifest-writes w s root m c e =
    ground (arith, get-put root root m s.saved, string_eq.beq_iff root root)

-- What follows the diff in `SyncFolder`.
abbrev finish_sync :
    World → FolderSync → String → String → SyncDiff → FolderSync × Result SyncResult
finish_sync w s1 root peer_id diff =
    let (fs, ids) = send_entries w s1.service peer_id (diff.adds ++ diff.modifies) in
    let (s2, written) = save_manifest w (record s1 { service = fs }) root in
    (s2, ok (record { diff = diff; transfers = ids }))

sync_folder-ok :
    (w : World) (s : FolderSync) (root peer_id : String) (diff : SyncDiff)
    → (diff_with w s root).1 ≡ ok diff
    → sync_folder w s root peer_id ≡ finish_sync w (diff_with w s root).0 root peer_id diff
unfolding sync_folder
sync_folder-ok w s root peer_id diff h = rw (h, sync_folder)

sync_folder-err :
    (w : World) (s : FolderSync) (root peer_id e : String)
    → (diff_with w s root).1 ≡ err e
    → sync_folder w s root peer_id ≡ ((diff_with w s root).0, err e)
unfolding sync_folder
sync_folder-err w s root peer_id e h = rw (h, sync_folder)

-- Once a manifest is saved in a folder, no sync replaces it: `DiffWith` loads it over the manifest of
-- the scan, and it is the loaded one that is saved again.
pub sync_folder-keeps_saved :
    (w : World) (s : FolderSync) (root peer_id : String) (m : FolderManifest)
    → GoMap.get root s.saved ≡ some m
    → GoMap.get root (sync_folder w s root peer_id).0.saved ≡ some m
sync_folder-keeps_saved w s root peer_id m e = elim (Result-cases (w.walk root)) [
  | inl (visits, walked) ↦
      let d = diff_with-saved w s root visits m walked e in
      rw (sync_folder-ok w s root peer_id _ d.2) (
        save_manifest-same w (record (diff_with w s root).0 { service = _ }) root m d.0
          (ap (GoMap.get root) d.1 ∙ e))
  | inr (msg, failed) ↦
      let d = diff_with-fails w s root msg failed in
      rw (sync_folder-err w s root peer_id msg (rw d refl)) (rw d e)
]

-- The first sync of a folder that can be walked and written saves the manifest of the scan, and reports
-- every file as added.
pub sync_folder-first :
    (w : World) (s : FolderSync) (root peer_id : String) (visits : List Visit)
    → w.walk root ≡ ok visits
    → w.can_write root ≡ true
    → GoMap.get root s.saved ≡ none
    → let (s', r) = sync_folder w s root peer_id in
      (GoMap.get root s'.saved
        ≡ some (record { root = root; files = walk_folder visits; updated_at = w.now }))
      × (diff_of r ≡ some (record (diff_folders [] (walk_folder visits)) { root = root }))
sync_folder-first w s root peer_id visits walked writable e =
    let d = diff_with-unsaved w s root visits walked e in
    (
      rw (sync_folder-ok w s root peer_id _ d.1) (
          save_manifest-writes w (record (diff_with w s root).0 { service = _ }) root _ writable
            d.0),
      rw (sync_folder-ok w s root peer_id _ d.1) refl,
    )

-- After a sync, the next sync of a folder reports the same diff again if the folder has not changed
-- in between, provided that some earlier sync had saved a manifest.
pub sync_folder-repeats :
    (w w' : World) (s : FolderSync) (root peer_id : String) (visits : List Visit)
    (m : FolderManifest)
    → w.walk root ≡ ok visits
    → w'.walk root ≡ ok visits
    → GoMap.get root s.saved ≡ some m
    → let first = sync_folder w s root peer_id in
      let second = sync_folder w' first.0 root peer_id in
      (diff_of second.1 ≡ diff_of first.1)
      × (diff_of first.1
          ≡ some (record (diff_folders m.files (walk_folder visits)) { root = root }))
sync_folder-repeats w w' s root peer_id visits m walked again e =
    let d = diff_with-saved w s root visits m walked e in
    let first = sync_folder w s root peer_id in
    let d' =
      diff_with-saved w' first.0 root visits m again
        (sync_folder-keeps_saved w s root peer_id m e) in
    let one : diff_of first.1
        ≡ some (record (diff_folders m.files (walk_folder visits)) { root = root }) =
      rw (sync_folder-ok w s root peer_id _ d.2) refl in
    (rw (sync_folder-ok w' first.0 root peer_id _ d'.2) (sym one), one)
