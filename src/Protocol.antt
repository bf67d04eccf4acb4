-- ===== src/Protocol.antt =====
-- internal/protocol/message.go: the messages of the wire protocol, and the reader over a byte slice.
-- A `nil` slice or pointer is `none`. The WebSocket library under `Conn` is not modelled: what a
-- connection is given to send is a list of messages in the models that use it.
pub mod Reader
pub mod Identifiers
mod Examples
use lan_a2a.Prelude.{
  ℕ, zero, suc, ◌+◌, ◌-◌, ◌*◌, ◌/◌, ◌%◌, ◌^◌, ◌≤◌, ◌<◌, String, ◌≡◌, refl, sym, ap, subst, ◌∙◌, ◌≢◌,
  ◌↔◌, ◌⊎◌, inl, inr, Bool, true, false, not, ◌&&◌, ◌||◌, Option, none, some, List, [], ◌∷◌, ◌++◌,
  map, arith, ltb, leb, if◌then◌else◌, Bool-cases, Option-cases, Result-cases, is_some, Eq, ◌==◌,
  nat_eq, string_eq, list_eq, beq_self, beq_ne, Result, ok, err, ◌>>=◌, length, take, drop, filter,
  All, get_elem?, In, In-filter, filter-In, contains, Distinct, length-append, contains-append,
  contains-filter, Bytes, codes,
}
use lan_a2a.Prelude.GoMap.{GoMap}

pub data MsgType : Type 0 where
  register register_ok ping pong text file_meta file_data file_done : MsgType
  query_online online_list goodbye : MsgType

pub record ProfilePayload : Type 0 where
  pub id : String
  pub name : String
  pub avatar : String
  pub roles : List String
  pub tags : List String
  pub metadata : GoMap String String

pub record Message : Type 0 where
  pub type : MsgType
  pub id : String
  pub from : String
  pub channel_id : String
  pub content : String
  pub timestamp : ℕ
  pub filename : String
  pub file_size : ℕ
  pub checksum : String
  pub chunk_idx : ℕ
  pub total_chunks : ℕ
  pub body : Option Bytes
  pub profile : Option ProfilePayload

-- A message of which the fields beyond these are left out.
abbrev pub message : MsgType → String → String → Message
message type id from = record {
  type = type;
  id = id;
  from = from;
  channel_id = "";
  content = "";
  timestamp = 0;
  filename = "";
  file_size = 0;
  checksum = "";
  chunk_idx = 0;
  total_chunks = 0;
  body = none;
  profile = none;
}

pub record SliceReader : Type 0 where
  pub bytes : Bytes
  pub off : ℕ

-- A nil slice gives a nil reader.
unfoldable pub bytes_reader : Option Bytes → Option SliceReader
bytes_reader none = none
bytes_reader (some b) = some (record { bytes = b; off = 0 })

-- `Read` into a buffer of `n` bytes: what was copied, or EOF.
unfoldable pub read : SliceReader → ℕ → SliceReader × Option Bytes
read r n =
    if leb (length r.bytes) r.off
    then (r, none)
    else let copied = take n (drop r.off r.bytes) in
      (record r { off = r.off + length copied }, some copied)
