-- ===== src/AgentApi.antt =====
-- The interface `AgentAPI` of internal/mcp/server.go, of which the `Agent` of internal/cli/cli.go is a
-- part: what the agent of cmd/lan-a2a/main.go does for those who drive it. A method is a call.
use lan_a2a.Prelude.{String, Option, List, Result}

pub data Call : Type 0 where
  get_online_peers list_channels list_transfers : Call
  get_agent_info open_connection close_connection leave_channel : String → Call
  get_transfer_status : String → Call
  create_channel : String → List String → Call
  send_message share_file share_folder sync_folder : String → String → Call
  set_profile : String → String → List String → Call

-- What a method returns beside its error; an `interface{}` is the JSON of its value.
pub data Answer : Type 0 where
  nothing : Answer
  peers : List String → Answer
  info : String → Answer
  infos : List String → Answer
  created : String → List String → Answer

-- The agent's state, and what a call does: `none` is a panic, which ends the program.
pub record AgentApi (S : Type 0) : Type 0 where
  pub perform : Call → S → Option (S × Result Answer)
