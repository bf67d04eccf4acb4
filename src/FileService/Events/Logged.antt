-- ===== src/FileService/Events/Logged.antt =====
-- internal/fileservice/service.go with internal/plugins/plugins.go: a transfer under a `LogPlugin`.
use lan_a2a.Prelude.{
  ℕ, String, ◌≡◌, refl, ◌∙◌, none, some, List, nat_eq, string_eq, list_eq, beq_self, ok, length, In,
}
use lan_a2a.Prelude.GoMap.{get-put}
use lan_a2a.FileService.{
  Chunk, FileService, Transfer, running, send_file, default_chunk_size, get_transfer,
}
use lan_a2a.Plugins.{Manager, Plugin, log_plugin, nil, transfer_start}
use lan_a2a.Plugins.Logging.{Reads, emit-log_plugin}
use lan_a2a.FileService.Events.{event_of, send_file_emitting}

-- The transfer that `SendFile` stores.
abbrev stored : String → String → List Chunk → String → ℕ → ℕ → Transfer
stored id file_path chunks checksum size now = record {
  id = id;
  file_path = file_path;
  file_size = size;
  file_hash = checksum;
  chunk_size = default_chunk_size;
  total_chunks = length chunks;
  chunks = chunks;
  status = running;
  progress = (0, length chunks);
  created_at = now;
  updated_at = now;
}

-- Once a `LogPlugin` is registered, SendFile of a file that can be split panics: at that plugin, which
-- asks the transfer for a method that it has not, or before it. The transfer stays in the service as
-- running, and nothing was started that would send it. The plugins leave the event as it is.
pub send_file_emitting-log_plugin :
    (m : Manager) (k : ℕ) (fs : FileService) (now : ℕ) (id peer_id file_path : String)
    (chunks : List Chunk) (checksum : String) (size : ℕ)
    → In log_plugin m.plugins
    → ((p : Plugin) → In p m.plugins → Reads (event_of transfer_start k nil peer_id) p)
    → let (fs', r) =
        send_file_emitting m k fs now id peer_id file_path (ok (chunks, checksum, size)) in
      (r ≡ none)
      × (fs'.started ≡ fs.started)
      × ((t : Transfer) × (get_transfer fs' id ≡ some t)
          × (t.status ≡ running)
          × (t.chunks ≡ chunks))
unfolding send_file_emitting send_file get_transfer
send_file_emitting-log_plugin m k fs now id peer_id file_path chunks checksum size i reads =
    let panics = emit-log_plugin m (event_of transfer_start k nil peer_id) k i reads refl refl in
    rw (send_file_emitting, panics)
      (
        refl,
        refl,
        (
          stored id file_path chunks checksum size now,
          get-put id id (stored id file_path chunks checksum size now) fs.transfers
              ∙ rw (beq_self id) refl,
          refl,
          refl,
        ),
      )
