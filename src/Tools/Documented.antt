-- ===== src/Tools/Documented.antt =====
-- docs/generate.go: the tools that the generated documentation lists, against those of
-- internal/mcp/server.go. The descriptions are not modelled.
use lan_a2a.Prelude.{
  String, ◌≡◌, refl, ap, ◌∙◌, not, none, List, [], ◌∷◌, arith, if◌then◌else◌, nat_eq, string_eq,
  list_eq, filter, contains,
}
use lan_a2a.Tools.Listing.{ToolDoc, doc, find_doc, tools}

unfoldable pub documented : List ToolDoc
documented =
    doc "lan_get_online_agents" [] []
    ∷ doc "lan_open_connection" ("peer_id" ∷ []) ("peer_id" ∷ [])
    ∷ doc "lan_close_connection" ("peer_id" ∷ []) ("peer_id" ∷ [])
    ∷ doc "lan_create_channel" ("channel_name" ∷ "peer_ids" ∷ []) ("channel_name" ∷ "peer_ids" ∷ [])
    ∷ doc "lan_leave_channel" ("channel_id" ∷ []) ("channel_id" ∷ [])
    ∷ doc "lan_send_message" ("channel_id" ∷ "message_body" ∷ [])
        ("channel_id" ∷ "message_body" ∷ [])
    ∷ doc "lan_share_file" ("channel_id" ∷ "file_path" ∷ []) ("channel_id" ∷ "file_path" ∷ [])
    ∷ doc "lan_share_folder" ("channel_id" ∷ "folder_path" ∷ []) ("channel_id" ∷ "folder_path" ∷ [])
    ∷ doc "lan_sync_folder" ("folder_path" ∷ "peer_id" ∷ []) ("folder_path" ∷ "peer_id" ∷ [])
    ∷ doc "lan_get_transfer_status" ("transfer_id" ∷ []) ("transfer_id" ∷ [])
    ∷ doc "lan_list_transfers" [] []
    ∷ []

-- The tools that the documentation leaves out.
abbrev pub undocumented : List String
undocumented =
    "lan_get_agent_info" ∷ "lan_list_channels" ∷ "lan_set_profile" ∷ "lan_subscribe"
    ∷ "lan_unsubscribe" ∷ []

documented-filter : documented ≡ filter (λ d. not (contains d.name undocumented)) tools
unfolding documented tools
documented-filter = refl

find_doc-filter :
    (name : String) (names : List String) (ds : List ToolDoc)
    → find_doc name (filter (λ d. not (contains d.name names)) ds)
      ≡ (if contains name names then none else find_doc name ds)
find_doc-filter name names [] = ground arith
find_doc-filter name names (d ∷ ds) = ground (
  arith,
  find_doc-filter name names ds,
  string_eq.beq_iff d.name name,
  ap (λ (n : String). contains n names) {x = d.name} {y = name},
)

-- The documentation lists every tool of the server with the properties that the server's schema has,
-- except for five, and lists nothing else.
pub documented-tools :
    (name : String)
    → find_doc name documented ≡ (if contains name undocumented then none else find_doc name tools)
documented-tools name =
    ap (find_doc name) documented-filter ∙ find_doc-filter name undocumented tools
