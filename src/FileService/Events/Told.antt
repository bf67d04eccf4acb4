-- ===== src/FileService/Events/Told.antt =====
-- internal/fileservice/foldersync.go with internal/plugins/plugins.go: what a callback is told of a sync.
use lan_a2a.Prelude.{
  ℕ, zero, suc, String, ◌≡◌, refl, sym, ap, ◌∙◌, inl, inr, Option, none, some, List, [], ◌∷◌, ◌++◌,
  Result-cases, nat_eq, string_eq, list_eq, Result, ok, err, length,
}
use lan_a2a.FileService.{FileService, Transfer, Chunk, send_file}
use lan_a2a.FileService.Folders.{
  World, FolderSync, FileEntry, SyncResult, diff_with, send_entries, sync_folder,
}
use lan_a2a.Plugins.{Event, Manager, nil, transfer_start, emit}
use lan_a2a.FileService.Events.{event_of, send_file_emitting}
use lan_a2a.FileService.Events.Syncing.{
  add_sent, ending, send_entries_emitting, sync_done, sync_folder_emitting, sync_start,
}

-- The manager passes every event on to one callback, and to nothing else.
abbrev pub IsWatched : Manager → ℕ → Type 0
IsWatched m c = (e : Event) → emit e m ≡ some (e, (c, e) ∷ [])

-- The starts of a number of transfers.
abbrev starts : ℕ → String → ℕ → ℕ → List (ℕ × Event)
starts c peer_id k zero = []
starts c peer_id k (suc n) = (c, event_of transfer_start k nil peer_id) ∷ starts c peer_id (suc k) n

abbrev start_of : ℕ → String → ℕ → Result Transfer → List (ℕ × Event)
start_of c peer_id k (err e) = []
start_of c peer_id k (ok t) = (c, event_of transfer_start k nil peer_id) ∷ []

abbrev pub told : ℕ → String → String → Result SyncResult → List (ℕ × Event)
told c root peer_id (err e) = []
told c root peer_id (ok res) =
    (c, sync_start root peer_id) ∷ starts c peer_id 0 (length res.transfers)
    ++ (c, sync_done root peer_id) ∷ []

send_file_emitting-IsWatched :
    (m : Manager) (c k : ℕ) (fs : FileService) (now : ℕ) (id peer_id path : String)
    (split : Result (List Chunk × String × ℕ))
    → IsWatched m c
    → send_file_emitting m k fs now id peer_id path split ≡ (
        let (fs', r) = send_file fs now id peer_id path split in
        (fs', some (r, start_of c peer_id k r)))
unfolding send_file_emitting send_file
send_file_emitting-IsWatched m c k fs now id peer_id path (err e) v = refl
send_file_emitting-IsWatched m c k fs now id peer_id path (ok (chunks, checksum, size)) v =
    rw (send_file_emitting, v (event_of transfer_start k nil peer_id)) refl

entries-ok :
    (w : World) (fs : FileService) (peer_id : String) (entry : FileEntry) (entries : List FileEntry)
    (t : Transfer)
    → let (fs', r) =
        send_file fs w.now (w.new_id entry.path) peer_id entry.path (w.split entry.path) in
      r ≡ ok t
      → send_entries w fs peer_id (entry ∷ entries)
        ≡ (let (end, ids) = send_entries w fs' peer_id entries in (end, t.id ∷ ids))
unfolding send_entries
entries-ok w fs peer_id entry entries t e =
    let (fs', r) =
      send_file fs w.now (w.new_id entry.path) peer_id entry.path (w.split entry.path) in
    let (end, ids) = send_entries w fs' peer_id entries in
    ap
      (λ (q : Result Transfer).
        let out : FileService × List String = elim q [
          | ok t ↦ (end, t.id ∷ ids)
          | err x ↦ (end, ids)
        ] in
        out)
      e

entries-err :
    (w : World) (fs : FileService) (peer_id : String) (entry : FileEntry) (entries : List FileEntry)
    (msg : String)
    → let (fs', r) =
        send_file fs w.now (w.new_id entry.path) peer_id entry.path (w.split entry.path) in
      r ≡ err msg → send_entries w fs peer_id (entry ∷ entries) ≡ send_entries w fs' peer_id entries
unfolding send_entries
entries-err w fs peer_id entry entries msg e =
    let (fs', r) =
      send_file fs w.now (w.new_id entry.path) peer_id entry.path (w.split entry.path) in
    let (end, ids) = send_entries w fs' peer_id entries in
    ap
      (λ (q : Result Transfer).
        let out : FileService × List String = elim q [
          | ok t ↦ (end, t.id ∷ ids)
          | err x ↦ (end, ids)
        ] in
        out)
      e

send_entries_emitting-IsWatched :
    (w : World) (m : Manager) (c k : ℕ) (fs : FileService) (peer_id : String)
    (entries : List FileEntry)
    → IsWatched m c
    → send_entries_emitting w m k fs peer_id entries ≡ (
        let (end, ids) = send_entries w fs peer_id entries in
        (end, some (ids, starts c peer_id k (length ids))))
unfolding send_entries_emitting send_entries
send_entries_emitting-IsWatched w m c k fs peer_id [] v = refl
send_entries_emitting-IsWatched w m c k fs peer_id (entry ∷ entries) v =
    let id = w.new_id entry.path in
    let (fs', r) = send_file fs w.now id peer_id entry.path (w.split entry.path) in
    let counted : FileService × List String
        → FileService × Option (List String × List (ℕ × Event)) =
      λ q. (q.0, some (q.1, starts c peer_id k (length q.1))) in
    let step : FileService × Option (Result Transfer × List (ℕ × Event))
        → FileService × Option (List String × List (ℕ × Event)) =
      λ p.
        let (fs1, sent) = p in
        elim sent [
          | none ↦ (fs1, none)
          | some (err e, calls) ↦
              add_sent [] calls (send_entries_emitting w m k fs1 peer_id entries)
          | some (ok t, calls) ↦
              add_sent (t.id ∷ []) calls (send_entries_emitting w m (suc k) fs1 peer_id entries)
        ] in
    ap step
      (send_file_emitting-IsWatched m c k fs w.now id peer_id entry.path (w.split entry.path) v)
    ∙ elim (Result-cases r) [
      | inl (t, e) ↦
          ap (λ (q : Result Transfer). step (fs', some (q, start_of c peer_id k q))) e
          ∙ (ap (add_sent (t.id ∷ []) ((c, event_of transfer_start k nil peer_id) ∷ []))
              (send_entries_emitting-IsWatched w m c (suc k) fs' peer_id entries v))
          ∙ ap counted (sym (entries-ok w fs peer_id entry entries t e))
      | inr (msg, e) ↦
          ap (λ (q : Result Transfer). step (fs', some (q, start_of c peer_id k q))) e
          ∙ (ap (add_sent [] []) (send_entries_emitting-IsWatched w m c k fs' peer_id entries v))
          ∙ ap counted (sym (entries-err w fs peer_id entry entries msg e))
    ]

-- SyncFolder, where the manager passes every event on to one callback, and to nothing else: the folder
-- and the result are as without the events; and the callback gets, of SyncFolder itself, nothing when
-- the diff fails, and otherwise the event of the start, then one start of a transfer for each transfer
-- of the result, then the event of the end.
pub sync_folder_emitting-told :
    (w : World) (m : Manager) (c : ℕ) (s : FolderSync) (root peer_id : String)
    → IsWatched m c
    → sync_folder_emitting w m s root peer_id
      ≡ (let (end, r) = sync_folder w s root peer_id in (end, some (r, told c root peer_id r)))
unfolding sync_folder_emitting sync_folder
sync_folder_emitting-told w m c s root peer_id v =
    let (s1, diffed) = diff_with w s root in
    elim (Result-cases diffed) [
      | inl (diff, e) ↦
          rw (sync_folder_emitting, sync_folder, e, v (sync_start root peer_id))
            (ap
                (λ (p : FileService × Option (List String × List (ℕ × Event))).
                  ending w m s1 root peer_id diff ((c, sync_start root peer_id) ∷ []) p.0 p.1)
                (send_entries_emitting-IsWatched w m c 0 s1.service peer_id
                  (diff.adds ++ diff.modifies) v)
              ∙ rw (ending, v (sync_done root peer_id)) refl)
      | inr (msg, e) ↦ rw (sync_folder_emitting, sync_folder, e) refl
    ]
