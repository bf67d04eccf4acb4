-- ===== src/FileService/Events/Examples.antt =====
-- The events of internal/fileservice/service.go, at a transfer of three chunks.
use lan_a2a.Prelude.{
  err, true, ℕ, ◌+◌, ◌≡◌, refl, sym, subst, ◌≢◌, inl, inr, false, none, some, List, [], ◌∷◌, map,
  arith, if◌then◌else◌, ◌==◌, nat_eq, string_eq, list_eq, ok, length, In,
}
use lan_a2a.Prelude.Int.{pos}
use lan_a2a.Prelude.GoMap
use lan_a2a.FileService.{
  err, true, Chunk, ChunkStatus, Env, FileService, Transfer, chunk_done, chunk_pending, done_count,
  get_transfer, new_file_service, running, send_concurrent, sent, unsent,
}
use lan_a2a.Plugins.{
  Event, Hook, Manager, Plugin, log_plugin, nil, on_event, on_log, transfer_start,
}
use lan_a2a.Plugins.Logging.{Reads}
use lan_a2a.FileService.Events.{
  chunk_done_type, emit_all, event_of, send_events, send_file_emitting,
}
use lan_a2a.FileService.Folders.{FolderSync, World, file, sync_folder}
use lan_a2a.FileService.Events.Syncing.{sync_done, sync_start, sync_folder_emitting}
use lan_a2a.FileService.Events.Told.{IsWatched, sync_folder_emitting-told, told}
use lan_a2a.FileService.Events.Emitted.{delivery, listening, newly, send_events-completed}
use lan_a2a.FileService.Events.Logged.{send_file_emitting-log_plugin}

abbrev piece : ℕ → ChunkStatus → Chunk
piece i status = record {
  index = i;
  offset = i;
  size = 1;
  hash = "h";
  status = status;
  retries = 0;
}

abbrev three : Transfer
three = record {
  id = "tr-1";
  file_path = "/f";
  file_size = 3;
  file_hash = "h";
  chunk_size = 1;
  total_chunks = 3;
  chunks = piece 0 chunk_done ∷ piece 1 chunk_pending ∷ piece 2 chunk_pending ∷ [];
  status = running;
  progress = (1, 3);
  created_at = 1;
  updated_at = 1;
}

-- The second chunk is sent at once, the third never.
abbrev half : Env
half = record { closed_at = λ i. false; outcome = λ i r. if i == 1 then sent else unsent }

abbrev watch : Hook
watch e = some e

watch_total : (e : Event) → watch e ≢ none
watch_total e p = ground (arith, p)

one_call :
    emit_all (send_events half 7 "b" three) (listening 4 watch)
    ≡ some ((4, event_of chunk_done_type 7 (lan_a2a.Plugins.value false 1) "b") ∷ [])
unfolding emit_all send_events lan_a2a.FileService.launch lan_a2a.FileService.worker
    lan_a2a.Plugins.emit lan_a2a.Plugins.on GoMap.get GoMap.put
one_call = refl

send_events-completed_example :
    let after = (send_concurrent half 9 three).chunks in
    let completed_now = newly 0 three.chunks after in
    (emit_all (send_events half 7 "b" three) (listening 4 watch)
      ≡ some (map (λ (i : ℕ). (4, delivery 7 "b" i)) completed_now))
    × (done_count after ≡ length completed_now + done_count three.chunks)
send_events-completed_example = send_events-completed half 9 7 4 watch "b" three watch_total

abbrev logging : Manager
logging = record { plugins = log_plugin ∷ []; hooks = []; auth = none }

abbrev started : Event
started = event_of transfer_start 7 nil "b"

never : (e' : Event) (calls : List (ℕ × Event)) → on_event log_plugin started ≢ some (e', calls)
unfolding on_event on_log
never e' calls h = ground (arith, h)

log_plugin-Reads : (p : Plugin) → In p logging.plugins → Reads started p
log_plugin-Reads p (inl q) e' calls h =
    absurd (subst (λ x. on_event x started ≢ some (e', calls)) (sym q) (never e' calls) h)
log_plugin-Reads p (inr i) e' calls h = absurd i

abbrev service : FileService
service = record { transfers = []; max_workers = 4; started = [] }

send_file_emitting-log_plugin_example :
    let (fs', r) =
      send_file_emitting logging 7 service 1 "tr-1" "b" "/f" (ok (three.chunks, "h", 3)) in
    (r ≡ none)
    × (fs'.started ≡ [])
    × ((t : Transfer) × (get_transfer fs' "tr-1" ≡ some t)
        × (t.status ≡ running)
        × (t.chunks ≡ three.chunks))
send_file_emitting-log_plugin_example =
    send_file_emitting-log_plugin logging 7 service 1 "tr-1" "b" "/f" three.chunks "h" 3 (inl refl)
      log_plugin-Reads

-- A folder of two files, of which the second can be read when it is hashed, but not when it is split.
abbrev two_files : World
two_files = record {
  now = 5;
  walk = λ root. ok (file "/d/a" "a" (ok ("h1", 3)) 7 ∷ file "/d/b" "b" (ok ("h2", 3)) 7 ∷ []);
  can_write = λ root. true;
  split = λ path. if path == "/d/a" then ok ([], "h1", 3) else err "open";
  new_id = λ path. path;
}

abbrev never_synced : FolderSync
never_synced = record { manifests = []; saved = []; service = new_file_service (pos 4) }

-- A ProgressPlugin is the only plugin.
abbrev watched : Manager
watched = record {
  plugins = Plugin.progress_plugin (some (4, watch)) ∷ [];
  hooks = [];
  auth = none;
}

watched-IsWatched : IsWatched watched 4
unfolding lan_a2a.Plugins.emit GoMap.get
watched-IsWatched e = refl

sync_folder_emitting-told_example : sync_folder_emitting two_files watched never_synced "/d" "b" ≡ (
    let (end, r) = sync_folder two_files never_synced "/d" "b" in
    (end, some (r, told 4 "/d" "b" r)))
sync_folder_emitting-told_example =
    sync_folder_emitting-told two_files watched 4 never_synced "/d" "b" watched-IsWatched

three_events :
    (let (end, r) = sync_folder two_files never_synced "/d" "b" in told 4 "/d" "b" r)
    ≡ (4, sync_start "/d" "b")
      ∷ (4, event_of transfer_start 0 nil "b")
      ∷ (4, sync_done "/d" "b")
      ∷ []
unfolding sync_folder GoMap.get GoMap.put lan_a2a.FileService.send_file
three_events = refl
