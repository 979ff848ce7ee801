-- ===== src/Gateway.antt =====
-- The control frames of the gateway's wire (agent-core/src/gateway.rs). What serde derives for them
-- is not modelled.
use apex_os_rv.Prelude.{ℕ, Bool, Option, Text}
use apex_os_rv.Protocol.Wire.{Wire}

pub data GatewayControl (w : Wire) : Type 0 where
  session_init : ℕ → w.Value → GatewayControl w  -- session_id, history

pub data ClientFrame : Type 0 where
  user_prompt : Text → ClientFrame

pub data ClientControl : Type 0 where
  -- resume_session, new, agent_id, persona
  hello : Option ℕ → Option Bool → Option Text → Option Text → ClientControl
