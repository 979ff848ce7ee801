-- ===== src/Protocol/Event.antt =====
-- The central event enum (vendor/apexos-protocol/src/lib.rs). The fields of each variant stand in
-- the source's order.
use apex_os_rv.Prelude.{ℕ, Bool, Option, List, Text}
use apex_os_rv.Protocol.Wire.{Wire, SessionId, ActionId, GoalId, EvolutionId, PluginId, GoalState}
use apex_os_rv.Protocol.Evolution.{EvolutionProposal}
use apex_os_rv.Protocol.Sensor.{SensorReading, CouncilAgentDef}
use apex_os_rv.Protocol.Session.{ToolCall, ToolOutput, ToolSpec, ImageSource}

pub data Event (w : Wire) : Type 0 where
  -- from frontends
  user_prompt : SessionId → Text → List ImageSource → Event w
  user_approval : SessionId → ActionId → Bool → Event w
  user_cancel : SessionId → Event w
  -- from the agent loop
  agent_text : SessionId → Text → Event w
  agent_thinking : SessionId → Text → Event w
  tool_requested : SessionId → ToolCall w → Event w
  turn_complete : SessionId → Event w
  -- from the plugin supervisor
  tool_result : SessionId → ActionId → ToolOutput w → Event w
  plugin_up : PluginId → List (ToolSpec w) → Event w
  plugin_down : PluginId → Text → Event w
  -- from the policy engine
  approval_pending : SessionId → ToolCall w → Event w
  -- sub-agent routing: parent, call_id, prompt, system; parent, child, prompt
  spawn_agent : SessionId → ActionId → Text → Option Text → Event w
  sub_agent_started : SessionId → SessionId → Text → Event w
  -- sensor bridge: node_id, reading, timestamp
  sensor_reading : Text → SensorReading w → ℕ → Event w
  wake_triggered : Event w
  -- agent-to-agent messaging: from, to, body, msg_id; msg_id, from
  agent_message : SessionId → SessionId → Text → ℕ → Event w
  agent_message_ack : ℕ → SessionId → Event w
  -- council
  council_started : Text → Text → List CouncilAgentDef → Event w
  council_round_start : Text → ℕ → Event w
  council_agent_delta : Text → ℕ → Text → Text → Event w
  council_agent_done : Text → ℕ → Text → Text → Event w
  council_round_done : Text → ℕ → w.F32 → List Text → Event w
  council_complete : Text → ℕ → Text → Text → Event w
  council_butt_in : Text → Text → Event w
  error : Option SessionId → Text → Event w
  -- vast.ai inference
  vast_instance_launched : Text → Text → w.F64 → Event w
  vast_instance_ready : Text → ℕ → Text → Event w
  vast_instance_destroyed : Text → Event w
  vast_tunnel_lost : Text → Event w
  -- mesh
  mesh_message : Text → SessionId → Text → Event w
  mesh_memory_shared : Text → Text → Text → Event w
  peer_seen : Text → Text → Event w
  peer_registered : Text → Text → Text → Event w
  peer_lost : Text → Event w
  mesh_node_status : Text → Text → ℕ → Event w
  -- self-evolution
  evolution_proposed : EvolutionId → EvolutionProposal → SessionId → Event w
  evolution_applied : EvolutionId → EvolutionProposal → Text → Option SessionId → Event w
  evolution_rolled_back : EvolutionId → Text → Option SessionId → Event w
  -- goal, objective, state, step, max_steps, detail, yolo
  goal_state_changed : GoalId → Text → GoalState → ℕ → ℕ → Text → Bool → Event w
