-- ===== src/Protocol/Session.antt =====
-- Tool calls, sessions and conversation messages (vendor/apexos-protocol/src/lib.rs).
use apex_os_rv.Prelude.{Bool, true, false, Option, none, some, List, [], Text}
use apex_os_rv.Protocol.Wire.{Wire, SessionId, ActionId}

pub record ToolCall (w : Wire) : Type 0 where
  pub id : ActionId
  pub tool : Text
  pub args : w.Value
  pub needs_approval : Bool

pub record ToolOutput (w : Wire) : Type 0 where
  pub ok : Bool
  pub content : w.Value

pub record ToolSpec (w : Wire) : Type 0 where
  pub name : Text
  pub description : Text
  pub input_schema : w.Value

pub record ImageSource : Type 0 where
  pub media_type : Text
  pub image_data : Text

pub data ContentBlock (w : Wire) : Type 0 where
  text : Text → ContentBlock w
  -- thinking, signature
  thinking : Text → Text → ContentBlock w
  -- id, name, input
  tool_use : Text → Text → w.Value → ContentBlock w
  -- tool_use_id, content, is_error
  tool_result : Text → w.Value → Bool → ContentBlock w
  -- media_type, data
  image : Text → Text → ContentBlock w

pub data Message (w : Wire) : Type 0 where
  user : List (ContentBlock w) → Message w
  assistant : List (ContentBlock w) → Message w

pub record AgentContext (w : Wire) : Type 0 where
  pub id : SessionId
  pub parent : Option SessionId
  pub history : List (Message w)
  pub spawned : List SessionId

-- `AgentContext::root`
unfoldable pub root : (w : Wire) → SessionId → AgentContext w
root w id = record { id = id; parent = none; history = []; spawned = [] }

-- `AgentContext::child`
unfoldable pub child : (w : Wire) → SessionId → SessionId → AgentContext w
child w id parent = record { id = id; parent = some parent; history = []; spawned = [] }

unfoldable pub is_root : {w : Wire} → AgentContext w → Bool
is_root c = elim c.parent [ none ↦ true | some _ ↦ false ]
