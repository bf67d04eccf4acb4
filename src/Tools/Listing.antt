-- ===== src/Tools/Listing.antt =====
-- internal/mcp/server.go: the list of the tools that `tools/list` answers with.
use lan_a2a.Prelude.{
  String, ◌≡◌, refl, Option, none, some, List, [], ◌∷◌, arith, if◌then◌else◌, ◌==◌, nat_eq,
  string_eq, list_eq,
}
use lan_a2a.Prelude.GoMap
use lan_a2a.Prelude.GoMap.{GoMap, keys, contains-keys}
use lan_a2a.Tools.{Tool, switch, arguments_of}
use lan_a2a.Tools.Dispatch.{tool_in}

-- A tool's entry: its name, the properties of its schema, and which are required.
pub record ToolDoc : Type 0 where
  pub name : String
  pub properties : List String
  pub required : List String

abbrev pub doc : String → List String → List String → ToolDoc
doc name properties required = record { name = name; properties = properties; required = required }

unfoldable pub tools : List ToolDoc
tools =
    doc "lan_get_online_agents" [] []
    ∷ doc "lan_get_agent_info" ("peer_id" ∷ []) ("peer_id" ∷ [])
    ∷ doc "lan_open_connection" ("peer_id" ∷ []) ("peer_id" ∷ [])
    ∷ doc "lan_close_connection" ("peer_id" ∷ []) ("peer_id" ∷ [])
    ∷ doc "lan_create_channel" ("channel_name" ∷ "peer_ids" ∷ []) ("channel_name" ∷ "peer_ids" ∷ [])
    ∷ doc "lan_leave_channel" ("channel_id" ∷ []) ("channel_id" ∷ [])
    ∷ doc "lan_list_channels" [] []
    ∷ doc "lan_send_message" ("channel_id" ∷ "message_body" ∷ [])
        ("channel_id" ∷ "message_body" ∷ [])
    ∷ doc "lan_share_file" ("channel_id" ∷ "file_path" ∷ []) ("channel_id" ∷ "file_path" ∷ [])
    ∷ doc "lan_share_folder" ("channel_id" ∷ "folder_path" ∷ []) ("channel_id" ∷ "folder_path" ∷ [])
    ∷ doc "lan_sync_folder" ("folder_path" ∷ "peer_id" ∷ []) ("folder_path" ∷ "peer_id" ∷ [])
    ∷ doc "lan_get_transfer_status" ("transfer_id" ∷ []) ("transfer_id" ∷ [])
    ∷ doc "lan_list_transfers" [] []
    ∷ doc "lan_set_profile" ("name" ∷ "description" ∷ "skills" ∷ []) []
    ∷ doc "lan_subscribe" ("events" ∷ []) ("events" ∷ [])
    ∷ doc "lan_unsubscribe" ("events" ∷ []) ("events" ∷ [])
    ∷ []

abbrev pub find_doc : String → List ToolDoc → Option (List String)
find_doc name [] = none
find_doc name (d ∷ ds) = if d.name == name then some d.properties else find_doc name ds

abbrev pub known_arguments : Option Tool → Option (List String)
known_arguments none = none
known_arguments (some t) = some (arguments_of t)

abbrev Agree : List ToolDoc → List (String × Tool) → Type 0
Agree [] [] = Unit
Agree [] (c ∷ cs) = ⊥
Agree (d ∷ ds) [] = ⊥
Agree (d ∷ ds) ((name, t) ∷ cs) = (d.name ≡ name) × (d.properties ≡ arguments_of t) × Agree ds cs

find_doc-Agree :
    (name : String) (ds : List ToolDoc) (cs : List (String × Tool))
    → Agree ds cs
    → find_doc name ds ≡ known_arguments (tool_in cs name)
unfolding GoMap.get
find_doc-Agree name [] [] h = refl
find_doc-Agree name [] (c ∷ cs) h = absurd h
find_doc-Agree name (d ∷ ds) [] h = absurd h
find_doc-Agree name (d ∷ ds) ((n, t) ∷ cs) h =
    ground (arith, h.0, h.1, find_doc-Agree name ds cs h.2)

-- A tool is listed exactly when the switch has a case for its name, and the properties that its
-- schema lists are the fields of the struct that the case unmarshals its arguments into.
pub tools-switch : (name : String) → find_doc name tools ≡ known_arguments (tool_in switch name)
unfolding tools switch arguments_of
tools-switch name = find_doc-Agree name tools switch (
    (
      refl,
      refl,
      (
        refl,
        refl,
        (
          refl,
          refl,
          (
            refl,
            refl,
            (
              refl,
              refl,
              (
                refl,
                refl,
                (
                  refl,
                  refl,
                  (
                    refl,
                    refl,
                    (
                      refl,
                      refl,
                      (
                        refl,
                        refl,
                        (
                          refl,
                          refl,
                          (refl, refl, (refl, refl, (refl, refl, (refl, refl, (refl, refl, tt))))),
                        ),
                      ),
                    ),
                  ),
                ),
              ),
            ),
          ),
        ),
      ),
    ))
