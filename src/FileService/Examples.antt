-- ===== src/FileService/Examples.antt =====
-- The theorems about internal/fileservice at concrete transfers and folders.
use lan_a2a.Prelude.{
  ℕ, ◌*◌, String, ◌≡◌, refl, ◌≢◌, ◌⊎◌, inl, inr, true, false, ◌&&◌, some, List, [], ◌∷◌, arith,
  if◌then◌else◌, ◌==◌, nat_eq, string_eq, list_eq, ok, err, Bytes, codes,
}
use lan_a2a.Prelude.GoMap
use lan_a2a.FileTransfer.{ReadEnd, more, eof, is_empty}
use lan_a2a.FileTransfer.Splitting.{bytes_read}
use lan_a2a.FileService.{
  Chunk, Env, FileService, Transfer, chunk_done, chunk_failed, chunk_pending, completed, done_count,
  failed, finish, get_transfer, halted, pause_transfer, cancel_transfer, running, send_concurrent,
  sent, split_into_chunks, unsent, launch, worker, launch, send_concurrent,
}
use lan_a2a.FileService.Chunks.{Numbered, Hashed, read_chunks, split_into_chunks-read_back}
use lan_a2a.FileService.Workers.{AllDone, GivenUp}
use lan_a2a.FileService.Outcome.{
  send_concurrent-outcome, send_concurrent-GivenUp, finish-set_status,
}
use lan_a2a.Prelude.{Result}
use lan_a2a.FileService.Folders.{
  FileEntry, FolderManifest, FolderSync, World, Visit, directory, file, diff_folders, sync_folder,
  walk_folder,
}
use lan_a2a.FileService.Folders.Diff.{hash_of, carry_out, diff_folders-restores}
use lan_a2a.FileService.Folders.Manifest.{sync_folder-keeps_saved}

abbrev length_hash : Bytes → String
length_hash b = if is_empty b then "none" else "some"

abbrev two_reads : List (Bytes × ReadEnd)
two_reads = (codes "abc", more) ∷ (codes "d", more) ∷ ([], eof) ∷ []

-- Each read returns as many bytes as are asked for.
abbrev as_asked : Chunk → Result ℕ
as_asked c = ok c.size

split_into_chunks-read_back_example :
    (chunks : List Chunk) × (split_into_chunks length_hash (some 4) (bytes_read two_reads) two_reads
      ≡ ok (chunks, length_hash (bytes_read two_reads), 4))
    × Numbered 0 chunks
    × (read_chunks as_asked (some (bytes_read two_reads)) chunks ≡ ok (bytes_read two_reads))
    × Hashed as_asked length_hash (some (bytes_read two_reads)) chunks
split_into_chunks-read_back_example =
    split_into_chunks-read_back as_asked length_hash 4 two_reads tt
      (λ c. (c.size, refl, omega arith))

abbrev chunk_at : ℕ → Chunk
chunk_at i = record {
  index = i;
  offset = i * 65536;
  size = 65536;
  hash = "h";
  status = chunk_pending;
  retries = 0;
}

abbrev two_chunks : Transfer
two_chunks = record {
  id = "tr-1";
  file_path = "/f";
  file_size = 131072;
  file_hash = "h";
  chunk_size = 65536;
  total_chunks = 2;
  chunks = chunk_at 0 ∷ chunk_at 1 ∷ [];
  status = running;
  progress = (0, 2);
  created_at = 1;
  updated_at = 1;
}

-- The second chunk is never sent; the first at the second try.
abbrev flaky : Env
flaky = record {
  closed_at = λ i. false;
  outcome = λ i r. if i == 0 && r == 1 then sent else unsent;
}

flaky_run :
    ((send_concurrent flaky 9 two_chunks).status ≡ failed)
    × (done_count (send_concurrent flaky 9 two_chunks).chunks ≡ 1)
unfolding send_concurrent launch worker done_count
flaky_run = (refl, refl)

sent-ne-halted : (i r : ℕ) → flaky.outcome i r ≢ halted
sent-ne-halted i r = ground arith

send_concurrent-outcome_example :
    let t' = send_concurrent flaky 9 two_chunks in
    ((t'.status ≡ completed) × AllDone t'.chunks) ⊎ ((t'.status ≡ failed) × GivenUp t'.chunks)
send_concurrent-outcome_example =
    send_concurrent-outcome flaky 9 two_chunks
      (record { open_ = λ i. refl; going = sent-ne-halted })

abbrev lucky : Env
lucky = record { closed_at = λ i. false; outcome = λ i r. sent }

abbrev spent : Transfer
spent = record two_chunks {
  chunks =
      record (chunk_at 0) { status = chunk_done }
      ∷ record (chunk_at 1) { status = chunk_failed; retries = 3 }
      ∷ [];
  status = failed;
}

send_concurrent-GivenUp_example :
    ((send_concurrent lucky 9 spent).status ≡ failed)
    × GivenUp (send_concurrent lucky 9 spent).chunks
send_concurrent-GivenUp_example =
    send_concurrent-GivenUp lucky 9 spent (λ j. refl) (inr (inl (refl, omega arith)))

abbrev service : FileService
service = record { transfers = ("tr-1", two_chunks) ∷ []; max_workers = 4; started = [] }

finish-set_status_example :
    (get_transfer (finish (pause_transfer service "tr-1").0 lucky 9 "tr-1") "tr-1"
      ≡ get_transfer (finish service lucky 9 "tr-1") "tr-1")
    × (get_transfer (finish (cancel_transfer service "tr-1").0 lucky 9 "tr-1") "tr-1"
        ≡ get_transfer (finish service lucky 9 "tr-1") "tr-1")
finish-set_status_example = finish-set_status service lucky 9 "tr-1" (λ j. refl)

abbrev stopping : Env
stopping = record { closed_at = λ i. false; outcome = λ i r. halted }

abbrev a_file : String → FileEntry
a_file hash = record { path = "/d/a"; rel_path = "a"; size = 3; hash = hash; mod_time = 1 }

abbrev visits_now : List Visit
visits_now = directory ∷ file "/d/a" "a" (ok ("h2", 3)) 7 ∷ file "/d/b" "b" (err "open") 7 ∷ []

abbrev recorded : GoMap.GoMap String FileEntry
recorded = ("a", a_file "h1") ∷ ("c", a_file "h3") ∷ []

diff_folders-restores_example :
    let new = walk_folder visits_now in
    hash_of (GoMap.get "b" (carry_out (diff_folders recorded new) recorded))
    ≡ hash_of (GoMap.get "b" new)
diff_folders-restores_example = diff_folders-restores recorded visits_now "b"

abbrev world : ℕ → World
world now = record {
  now = now;
  walk = λ root. ok visits_now;
  can_write = λ root. true;
  split = λ path. err "open";
  new_id = λ path. path;
}

abbrev old_manifest : FolderManifest
old_manifest = record { root = "/d"; files = ("a", a_file "h1") ∷ []; updated_at = 1 }

abbrev synced_before : FolderSync
synced_before = record { manifests = []; saved = ("/d", old_manifest) ∷ []; service = service }

sync_folder-keeps_saved_example :
    GoMap.get "/d" (sync_folder (world 5) synced_before "/d" "b").0.saved ≡ some old_manifest
unfolding GoMap.get
sync_folder-keeps_saved_example =
    sync_folder-keeps_saved (world 5) synced_before "/d" "b" old_manifest refl
