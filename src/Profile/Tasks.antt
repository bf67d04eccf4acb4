-- ===== src/Profile/Tasks.antt =====
-- internal/adapter/adapter.go: the tasks and messages of the agent protocol, as data. Nothing in the
-- program changes a task.
use lan_a2a.Prelude.{String, Option, none, List, [], ◌∷◌, nat_eq, string_eq, list_eq, Bytes}

pub data TaskState : Type 0 where
  submitted working input_required completed failed canceled : TaskState

pub record Part : Type 0 where
  pub type : String
  pub text : String
  pub body : Option Bytes
  pub mime_type : String

pub record Message : Type 0 where
  pub role : String
  pub parts : List Part

pub record Task : Type 0 where
  pub id : String
  pub state : TaskState
  pub messages : List Message

unfoldable pub new_text_message : String → String → Message
new_text_message role text = record {
  role = role;
  parts = record { type = "text"; text = text; body = none; mime_type = "" } ∷ [];
}
