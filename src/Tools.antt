-- ===== src/Tools.antt =====
-- internal/mcp/server.go: the server of the tools, over any agent. encoding/json is an argument; what
-- is written to the standard output is a list of replies, oldest first.
pub mod Dispatch
pub mod Listing
pub mod Documented
pub mod Replies
pub mod Subscriptions
mod Examples
use lan_a2a.Prelude.{
  ℕ, zero, suc, ◌+◌, ◌-◌, ◌*◌, ◌/◌, ◌%◌, ◌^◌, ◌≤◌, ◌<◌, String, ◌≡◌, refl, sym, ap, subst, ◌∙◌, ◌≢◌,
  ◌↔◌, ◌⊎◌, inl, inr, Bool, true, false, not, ◌&&◌, ◌||◌, Option, none, some, List, [], ◌∷◌, ◌++◌,
  map, arith, ltb, leb, if◌then◌else◌, Bool-cases, Option-cases, Result-cases, is_some, Eq, ◌==◌,
  nat_eq, string_eq, list_eq, beq_self, beq_ne, Result, ok, err, ◌>>=◌, length, take, drop, filter,
  All, get_elem?, In, In-filter, filter-In, contains, Distinct, length-append, contains-append,
  contains-filter, Bytes, codes,
}
use lan_a2a.Prelude.Int.{ℤ, negsuc}
use lan_a2a.Prelude.GoMap
use lan_a2a.Prelude.GoMap.{GoMap}
use lan_a2a.AgentApi.{AgentApi, Call, Answer, nothing, peers, info, infos, created}

-- The cases of the switch on a tool's name.
pub data Tool : Type 0 where
  lan_get_online_agents lan_get_agent_info lan_open_connection lan_close_connection : Tool
  lan_create_channel lan_leave_channel lan_list_channels lan_send_message : Tool
  lan_share_file lan_share_folder lan_sync_folder lan_get_transfer_status : Tool
  lan_list_transfers lan_set_profile lan_subscribe lan_unsubscribe : Tool

unfoldable pub switch : List (String × Tool)
switch =
    ("lan_get_online_agents", lan_get_online_agents)
    ∷ ("lan_get_agent_info", lan_get_agent_info)
    ∷ ("lan_open_connection", lan_open_connection)
    ∷ ("lan_close_connection", lan_close_connection)
    ∷ ("lan_create_channel", lan_create_channel)
    ∷ ("lan_leave_channel", lan_leave_channel)
    ∷ ("lan_list_channels", lan_list_channels)
    ∷ ("lan_send_message", lan_send_message)
    ∷ ("lan_share_file", lan_share_file)
    ∷ ("lan_share_folder", lan_share_folder)
    ∷ ("lan_sync_folder", lan_sync_folder)
    ∷ ("lan_get_transfer_status", lan_get_transfer_status)
    ∷ ("lan_list_transfers", lan_list_transfers)
    ∷ ("lan_set_profile", lan_set_profile)
    ∷ ("lan_subscribe", lan_subscribe)
    ∷ ("lan_unsubscribe", lan_unsubscribe)
    ∷ []

-- The fields of the structs that the arguments are unmarshalled into; those that a tool's struct has
-- not are empty.
pub record Arguments : Type 0 where
  pub peer_id : String
  pub channel_name : String
  pub peer_ids : List String
  pub channel_id : String
  pub message_body : String
  pub file_path : String
  pub folder_path : String
  pub transfer_id : String
  pub name : String
  pub description : String
  pub skills : List String
  pub events : List String

abbrev pub no_arguments : Arguments
no_arguments = record {
  peer_id = "";
  channel_name = "";
  peer_ids = [];
  channel_id = "";
  message_body = "";
  file_path = "";
  folder_path = "";
  transfer_id = "";
  name = "";
  description = "";
  skills = [];
  events = [];
}

-- A tool's struct: the names of its fields in JSON.
unfoldable pub arguments_of : Tool → List String
arguments_of lan_get_online_agents = []
arguments_of lan_get_agent_info = "peer_id" ∷ []
arguments_of lan_open_connection = "peer_id" ∷ []
arguments_of lan_close_connection = "peer_id" ∷ []
arguments_of lan_create_channel = "channel_name" ∷ "peer_ids" ∷ []
arguments_of lan_leave_channel = "channel_id" ∷ []
arguments_of lan_list_channels = []
arguments_of lan_send_message = "channel_id" ∷ "message_body" ∷ []
arguments_of lan_share_file = "channel_id" ∷ "file_path" ∷ []
arguments_of lan_share_folder = "channel_id" ∷ "folder_path" ∷ []
arguments_of lan_sync_folder = "folder_path" ∷ "peer_id" ∷ []
arguments_of lan_get_transfer_status = "transfer_id" ∷ []
arguments_of lan_list_transfers = []
arguments_of lan_set_profile = "name" ∷ "description" ∷ "skills" ∷ []
arguments_of lan_subscribe = "events" ∷ []
arguments_of lan_unsubscribe = "events" ∷ []

-- The values of a result's entries.
pub data Entry : Type 0 where
  text : String → Entry
  texts : List String → Entry
  values : List String → Entry
  number : ℕ → Entry

-- A tool's result: a map, or the value that a method returned.
pub data ToolResult : Type 0 where
  object : List (String × Entry) → ToolResult
  value : String → ToolResult
  no_result : ToolResult

pub record Request : Type 0 where
  pub id : Option String
  pub method : String
  pub params : String

-- encoding/json: a request line, the parameters of `tools/call` (the tool's name and its arguments),
-- the arguments as a struct with the given fields, and the text of a result.
pub record Json : Type 0 where
  pub request : String → Option Request
  pub call : String → Option (String × String)
  pub arguments : List String → String → Option Arguments
  pub marshal : ToolResult → String

pub data Reply : Type 0 where
  server_info : Option String → Reply
  tool_list : Option String → Reply
  pong : Option String → Reply
  content : Option String → String → Reply
  tool_error : Option String → String → Reply
  error : Option String → ℤ → String → Reply
  notification : String → String → Reply

pub record Server {ℓ} (S : Type ℓ) : Type ℓ where
  pub agent : S
  pub subscribers : GoMap String Bool
  pub written : List Reply

-- What a case of the switch does: `toolErr` is set, a method is called, or the subscribers change.
pub data Plan : Type 0 where
  refuse : String → Plan
  ask : Call → (Answer → ToolResult) → Plan
  subscribe : List String → Plan
  unsubscribe : List String → Plan

abbrev is_empty_list : List String → Bool
is_empty_list [] = true
is_empty_list _ = false

abbrev status : String → List (String × Entry) → Answer → ToolResult
status s entries answer = object (("status", text s) ∷ entries)

abbrev answered : Answer → ToolResult
answered nothing = no_result
answered (peers ids) = object (("agents", texts ids) ∷ ("count", number (length ids)) ∷ [])
answered (info v) = value v
answered (infos vs) = object (("channels", values vs) ∷ ("count", number (length vs)) ∷ [])
answered (created ch ids) = object (("channel_id", text ch) ∷ ("members", texts ids) ∷ [])

abbrev transfers : Answer → ToolResult
transfers (infos vs) = object (("transfers", values vs) ∷ ("count", number (length vs)) ∷ [])
transfers a = answered a

-- A case whose arguments have been unmarshalled.
unfoldable pub plan : Tool → Arguments → Plan
plan lan_get_online_agents a = ask Call.get_online_peers answered
plan lan_get_agent_info a =
    if a.peer_id == ""
    then refuse "Invalid arguments: peer_id required"
    else ask (Call.get_agent_info a.peer_id) answered
plan lan_open_connection a =
    if a.peer_id == ""
    then refuse "Invalid arguments: peer_id required"
    else ask (Call.open_connection a.peer_id)
        (status "connected" (("peer_id", text a.peer_id) ∷ []))
plan lan_close_connection a =
    if a.peer_id == ""
    then refuse "Invalid arguments: peer_id required"
    else ask (Call.close_connection a.peer_id)
        (status "disconnected" (("peer_id", text a.peer_id) ∷ []))
plan lan_create_channel a =
    if is_empty_list a.peer_ids
    then refuse "Invalid arguments"
    else ask (Call.create_channel a.channel_name a.peer_ids) answered
plan lan_leave_channel a =
    ask (Call.leave_channel a.channel_id) (status "left" (("channel_id", text a.channel_id) ∷ []))
plan lan_list_channels a = ask Call.list_channels answered
plan lan_send_message a =
    ask (Call.send_message a.channel_id a.message_body)
      (status "sent" (("channel_id", text a.channel_id) ∷ []))
plan lan_share_file a =
    ask (Call.share_file a.channel_id a.file_path)
      (status "shared" (("channel_id", text a.channel_id) ∷ []))
plan lan_share_folder a =
    ask (Call.share_folder a.channel_id a.folder_path)
      (status "sharing" (("channel_id", text a.channel_id) ∷ ("folder", text a.folder_path) ∷ []))
plan lan_sync_folder a =
    ask (Call.sync_folder a.folder_path a.peer_id)
      (status "syncing" (("folder", text a.folder_path) ∷ ("peer_id", text a.peer_id) ∷ []))
plan lan_get_transfer_status a = ask (Call.get_transfer_status a.transfer_id) answered
plan lan_list_transfers a = ask Call.list_transfers transfers
plan lan_set_profile a = ask (Call.set_profile a.name a.description a.skills) (status "updated" [])
plan lan_subscribe a =
    if is_empty_list a.events
    then refuse "Invalid arguments: events array required"
    else subscribe a.events
plan lan_unsubscribe a =
    if is_empty_list a.events
    then refuse "Invalid arguments: events array required"
    else unsubscribe a.events
