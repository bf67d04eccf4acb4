-- ===== src/RelayClient.antt =====
-- internal/relay/client.go: the client's connection to the relay, its back-off, and its read loop. A
-- duration is an int64 of nanoseconds. What the network and the relay answer is an argument.
pub mod Backoff
pub mod Loops
mod Examples
use lan_a2a.Prelude.{
  ℕ, zero, suc, ◌+◌, ◌-◌, ◌*◌, ◌/◌, ◌%◌, ◌^◌, ◌≤◌, ◌<◌, String, ◌≡◌, refl, sym, ap, subst, ◌∙◌, ◌≢◌,
  ◌↔◌, ◌⊎◌, inl, inr, Bool, true, false, not, ◌&&◌, ◌||◌, Option, none, some, List, [], ◌∷◌, ◌++◌,
  map, arith, ltb, leb, if◌then◌else◌, Bool-cases, Option-cases, Result-cases, is_some, Eq, ◌==◌,
  nat_eq, string_eq, list_eq, beq_self, beq_ne, Result, ok, err, ◌>>=◌, length, take, drop, filter,
  All, get_elem?, In, In-filter, filter-In, contains, Distinct, length-append, contains-append,
  contains-filter, Bytes, codes,
}
use lan_a2a.Prelude.Int.{ℤ, pos, negsuc, signed64}
use lan_a2a.Protocol.{
  MsgType, Message, register, register_ok, ping, pong, text, file_meta, file_data, file_done,
  query_online, online_list, goodbye, message,
}

-- `loops`: how many ping loops and query loops run. `sent`: the messages that were given to WriteJSON,
-- newest first; `write_error`: the error that it returns on the connection, if it does.
pub record Client : Type 0 where
  pub agent_id : String
  pub has_conn : Bool
  pub stopped : Bool
  pub done_closed : Bool
  pub max_retries : ℕ
  pub read_loops : ℕ
  pub ping_loops : ℕ
  pub query_loops : ℕ
  pub sent : List Message
  pub write_error : Option String

unfoldable pub new_client : String → Client
new_client agent_id = record {
  agent_id = agent_id;
  has_conn = false;
  stopped = false;
  done_closed = false;
  max_retries = 0;
  read_loops = 0;
  ping_loops = 0;
  query_loops = 0;
  sent = [];
  write_error = none;
}

-- What `Connect` meets: dialling, sending the registration, reading the answer.
pub record Dial : Type 0 where
  pub dials : Bool
  pub sends : Bool
  pub answer : Option MsgType

abbrev pub is_register_ok : Option MsgType → Bool
is_register_ok (some register_ok) = true
is_register_ok _ = false

unfoldable pub connect : Client → Dial → Client × Result (Unit {0})
connect c d =
    if not d.dials
    then (c, err "connect to relay")
    else if not d.sends
    then (c, err "send")
    else if not (is_register_ok d.answer)
    then (c, err "relay register failed")
    else (
      record c {
        has_conn = true;
        max_retries = 0;
        read_loops = c.read_loops + 1;
        ping_loops = c.ping_loops + 1;
        query_loops = c.query_loops + 1;
      },
      ok tt,
    )

-- `Stop`; closing `done` twice panics (`none`).
unfoldable pub stop : Client → Option Client
stop c =
    if c.done_closed
    then none
    else some (record c { stopped = true; done_closed = true; ping_loops = 0; query_loops = 0 })

unfoldable pub is_connected : Client → Bool
is_connected c = c.has_conn && not c.stopped

abbrev pub second : ℕ
second = 1_000_000_000

-- time.Second * time.Duration(1<<uint(n)): a shift by 64 or more gives 0, and the product wraps.
unfoldable pub shifted_second : ℕ → ℕ
shifted_second n = if ltb n 64 then (second * 2 ^ n) % 2 ^ 64 else 0

abbrev pub exceeds : ℤ → ℕ → Bool
exceeds (pos n) k = ltb k n
exceeds (negsuc n) k = false

-- `nextBackoff`: the counter goes up, and the duration is capped at 30 seconds.
unfoldable pub next_backoff : Client → Client × ℤ
unfolding shifted_second
next_backoff c =
    let n = c.max_retries + 1 in
    let backoff = signed64 (shifted_second (n - 1)) in
    (
      record c { max_retries = n },
      (if exceeds backoff (30 * second) then pos (30 * second) else backoff),
    )

-- What one round of `reconnect` meets: `Stop` was called while it slept, or a dial.
pub data Try : Type 0 where
  stopped_meanwhile : Try
  dialled : Dial → Try

-- The rounds of `reconnect`, one for each element; the durations that it slept come back too.
unfoldable pub reconnect_loop : Client → List Try → Client × List ℤ
reconnect_loop c [] = (c, [])
reconnect_loop c (stopped_meanwhile ∷ tries) =
    let (c', backoff) = next_backoff c in (record c' { stopped = true }, backoff ∷ [])
reconnect_loop c (dialled d ∷ tries) =
    let (c', backoff) = next_backoff c in
    let (c'', r) = connect c' d in
    let (end, sleeps) = reconnect_loop c'' tries in
    elim r [ ok u ↦ (c'', backoff ∷ []) | err e ↦ (end, backoff ∷ sleeps) ]

unfoldable pub reconnect : Client → List Try → Client × List ℤ
unfolding reconnect_loop
reconnect c tries = if c.stopped then (c, []) else reconnect_loop c tries

-- `Send`: a nil connection is dereferenced, which panics (`none`).
unfoldable pub send : Client → Message → Option Client
send c msg = if c.has_conn then some (record c { sent = msg ∷ c.sent }) else none

-- The error that `Send` returns, for the callers that do not drop it.
abbrev pub send_result : Client → Result (Unit {0})
send_result c = elim (c.write_error) [ none ↦ ok tt | some e ↦ err e ]

unfoldable pub query_online_now : Client → String → Option Client
unfolding send
query_online_now c id = send c (message query_online id c.agent_id)

unfoldable pub send_goodbye : Client → String → Option Client
unfolding send
send_goodbye c id = send c (message goodbye id c.agent_id)

-- The callback that the read loop makes for a message.
pub data Callback : Type 0 where
  on_message : Message → Callback
  on_file_data : Message → Callback
  on_online_list : List String → Callback
  on_goodbye : String → Callback

pub data ReadStep : Type 0 where
  calls : Callback → ReadStep
  answers : Message → ReadStep
  ignores reconnects returns : ReadStep

-- One round of `readLoop`: an error, or a message; `decode` is the JSON of a list of IDs.
unfoldable pub read_step : (String → Option (List String)) → Client → Option Message → ReadStep
read_step decode c none = if c.stopped then returns else reconnects
read_step decode c (some msg) = elim msg.type [
  | ping ↦ answers (message pong "" c.agent_id)
  | online_list ↦ elim (decode msg.content) [
    | none ↦ ignores
    | some ids ↦ calls (on_online_list ids)
  ]
  | text ↦ calls (on_message msg)
  | file_meta ↦ calls (on_message msg)
  | file_done ↦ calls (on_message msg)
  | file_data ↦ calls (on_file_data msg)
  | goodbye ↦ calls (on_goodbye msg.from)
  | _ ↦ ignores
]
