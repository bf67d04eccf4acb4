-- ===== src/FileService/Events/Syncing.antt =====
-- internal/fileservice/foldersync.go with internal/plugins/plugins.go: the events that SyncFolder emits
-- itself. The transfers that it starts are numbered in their order; what their workers emit beside it is
-- not in here.
use lan_a2a.Prelude.{
  ℕ, suc, String, false, Option, none, some, List, [], ◌∷◌, ◌++◌, nat_eq, string_eq, list_eq,
  Result, ok, err,
}
use lan_a2a.FileService.{FileService}
use lan_a2a.FileService.Folders.{
  World, FolderSync, FileEntry, SyncDiff, SyncResult, diff_with, save_manifest,
}
use lan_a2a.Plugins.{Event, Manager, Value, nil, value, emit}
use lan_a2a.FileService.Events.{send_file_emitting}

-- An event of SyncFolder.
abbrev pub folder_event : String → String → String → Value → Value → Event
folder_event type root peer_id diff result = record {
  type = type;
  transfer = nil;
  chunk = nil;
  peer_id = peer_id;
  folder = root;
  diff = diff;
  result = result;
  payload = [];
}

abbrev pub sync_start : String → String → Event
sync_start root peer_id = folder_event "folder_sync.start" root peer_id (value false 0) nil

abbrev pub sync_done : String → String → Event
sync_done root peer_id = folder_event "folder_sync.done" root peer_id nil (value false 0)

-- What one file adds to the transfers and to the calls of the plugins.
abbrev pub add_sent :
    List String
    → List (ℕ × Event)
    → FileService × Option (List String × List (ℕ × Event))
    → FileService × Option (List String × List (ℕ × Event))
add_sent ids calls (end, none) = (end, none)
add_sent ids calls (end, some (more, later)) = (end, some (ids ++ more, calls ++ later))

-- The loop over the files, with the events of SendFile; a plugin that panics ends it.
unfoldable pub send_entries_emitting :
    World
    → Manager
    → ℕ
    → FileService
    → String
    → List FileEntry
    → FileService × Option (List String × List (ℕ × Event))
send_entries_emitting w m k fs peer_id [] = (fs, some ([], []))
send_entries_emitting w m k fs peer_id (entry ∷ entries) =
    let (fs', sent) =
      send_file_emitting m k fs w.now (w.new_id entry.path) peer_id entry.path
        (w.split entry.path) in
    elim sent [
      | none ↦ (fs', none)
      | some (err e, calls) ↦ add_sent [] calls (send_entries_emitting w m k fs' peer_id entries)
      | some (ok t, calls) ↦
          add_sent (t.id ∷ []) calls (send_entries_emitting w m (suc k) fs' peer_id entries)
    ]

-- The end of SyncFolder, after the loop.
unfoldable pub ending :
    World
    → Manager
    → FolderSync
    → String
    → String
    → SyncDiff
    → List (ℕ × Event)
    → FileService
    → Option (List String × List (ℕ × Event))
    → FolderSync × Option (Result SyncResult × List (ℕ × Event))
unfolding save_manifest
ending w m s root peer_id diff before fs none = (record s { service = fs }, none)
ending w m s root peer_id diff before fs (some (ids, calls)) =
    let (s2, written) = save_manifest w (record s { service = fs }) root in
    elim (emit (sync_done root peer_id) m) [
      | none ↦ (s2, none)
      | some (e, after) ↦
          (s2, some (ok (record { diff = diff; transfers = ids }), before ++ calls ++ after))
    ]

unfoldable pub sync_folder_emitting :
    World
    → Manager
    → FolderSync
    → String
    → String
    → FolderSync × Option (Result SyncResult × List (ℕ × Event))
unfolding diff_with send_entries_emitting ending
sync_folder_emitting w m s root peer_id =
    let (s1, diffed) = diff_with w s root in
    elim diffed [
      | err e ↦ (s1, some (err e, []))
      | ok diff ↦ elim (emit (sync_start root peer_id) m) [
        | none ↦ (s1, none)
        | some (e1, before) ↦
            let (fs, sent) =
              send_entries_emitting w m 0 s1.service peer_id (diff.adds ++ diff.modifies) in
            ending w m s1 root peer_id diff before fs sent
      ]
    ]
