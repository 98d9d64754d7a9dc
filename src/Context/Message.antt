-- ===== src/Context/Message.antt =====
-- pkg/providerapi/provider.go: the messages that a provider sees.
use auto_ze_agent.Common.{Bool, List, Text, false, true}

-- `other` stands for a role string that is none of the named ones.
pub data Role : Type 0 where
  system user assistant tool : Role
  other : Text → Role

pub record ToolCall : Type 0 where
  pub id : Text
  pub name : Text
  pub arguments : Text

pub record Message : Type 0 where
  pub role : Role
  pub content : Text
  pub thinking : Text
  pub tool_call_id : Text
  pub tool_calls : List ToolCall

abbrev pub is_system : Role → Bool
is_system system = true
is_system _ = false

abbrev pub is_user : Role → Bool
is_user user = true
is_user _ = false

abbrev pub is_assistant : Role → Bool
is_assistant assistant = true
is_assistant _ = false

abbrev pub is_tool : Role → Bool
is_tool tool = true
is_tool _ = false
