-- ===== src/FileService/Events.antt =====
-- internal/fileservice/service.go with internal/plugins/plugins.go: the events that the file service
-- emits. A transfer and a chunk stand in an event as values without a method GetID, the transfer by a
-- number, the chunk by its place; workers emit in the order in which they end, and here the events of
-- the chunks stand in the order of the chunks.
pub mod Emitted
pub mod Logged
pub mod Syncing
pub mod Told
mod Examples
use lan_a2a.Prelude.{
  ℕ, zero, suc, ◌+◌, ◌-◌, ◌*◌, ◌/◌, ◌%◌, ◌^◌, ◌≤◌, ◌<◌, String, ◌≡◌, refl, sym, ap, subst, ◌∙◌, ◌≢◌,
  ◌↔◌, ◌⊎◌, inl, inr, Bool, true, false, not, ◌&&◌, ◌||◌, Option, none, some, List, [], ◌∷◌, ◌++◌,
  map, arith, ltb, leb, if◌then◌else◌, Bool-cases, Option-cases, Result-cases, is_some, Eq, ◌==◌,
  nat_eq, string_eq, list_eq, beq_self, beq_ne, Result, ok, err, ◌>>=◌, length, take, drop, filter,
  All, get_elem?, In, In-filter, filter-In, contains, Distinct, length-append, contains-append,
  contains-filter, Bytes, codes, cons_unless_blank, trim_space, trim_left, trim_right, split_words,
  cons_word, space, is_space, append_text, fields, join_words, Distinct-append_one,
}
use lan_a2a.Prelude.GoMap
use lan_a2a.Prelude.GoMap.{GoMap}
use lan_a2a.FileService.{
  Chunk, Env, FileService, Transfer, WorkerEnd, delivered, stopped, exhausted, is_done, launch,
  rounds, send_file, worker,
}
use lan_a2a.Plugins.{Event, Manager, Value, nil, value, transfer_start, emit}

abbrev pub chunk_done_type : String
chunk_done_type = "chunk.done"

abbrev pub transfer_done_type : String
transfer_done_type = "transfer.done"

-- An event of a transfer; the fields beyond these are left out.
abbrev pub event_of : String → ℕ → Value → String → Event
event_of type k chunk peer_id = record {
  type = type;
  transfer = value false k;
  chunk = chunk;
  peer_id = peer_id;
  folder = "";
  diff = nil;
  result = nil;
  payload = [];
}

-- `SendFile`, with the event that starts the transfer: the transfer is stored before the event, and
-- the goroutine is started after it, if no plugin panics. The calls that the plugins make come back.
unfoldable pub send_file_emitting :
    Manager
    → ℕ
    → FileService
    → ℕ
    → String
    → String
    → String
    → Result (List Chunk × String × ℕ)
    → FileService × Option (Result Transfer × List (ℕ × Event))
send_file_emitting m k fs now id peer_id file_path split =
    let (fs', r) = send_file fs now id peer_id file_path split in
    elim r [
      | err e ↦ (fs', some (err e, []))
      | ok t ↦ elim (emit (event_of transfer_start k nil peer_id) m) [
        | none ↦ (record fs' { started = fs.started }, none)
        | some (e, calls) ↦ (fs', some (ok t, calls))
      ]
    ]

-- The event of a worker, once its chunk is delivered.
unfoldable pub worker_event : WorkerEnd → ℕ → ℕ → String → List Event → List Event
worker_event delivered k i peer_id rest = event_of chunk_done_type k (value false i) peer_id ∷ rest
worker_event stopped k i peer_id rest = rest
worker_event exhausted k i peer_id rest = rest

unfoldable pub chunk_events : Env → ℕ → String → ℕ → List Chunk → List Event
unfolding worker_event
chunk_events env k peer_id i [] = []
chunk_events env k peer_id i (c ∷ cs) =
    let rest = chunk_events env k peer_id (i + 1) cs in
    if env.closed_at i
    then []
    else if is_done c.status
    then rest
    else worker_event (worker (env.outcome i) rounds c).1 k i peer_id rest

-- The events of `sendConcurrent`.
unfoldable pub send_events : Env → ℕ → String → Transfer → List Event
unfolding chunk_events
send_events env k peer_id t =
    let events = chunk_events env k peer_id 0 t.chunks in
    if (launch env 0 t.chunks).returned
    then events
    else events ++ event_of transfer_done_type k nil peer_id ∷ []

-- Emitting several events, one after the other, with the calls that are made.
unfoldable pub emit_all : List Event → Manager → Option (List (ℕ × Event))
emit_all [] m = some []
emit_all (e ∷ es) m = elim (emit e m) [
  | none ↦ none
  | some (e', calls) ↦ elim (emit_all es m) [ none ↦ none | some more ↦ some (calls ++ more) ]
]
