-- ===== src/Protocol/Wire.antt =====
-- The types of the wire contract that the source takes from elsewhere, the identifiers, and the
-- states of a goal (vendor/apexos-protocol/src/lib.rs).
use apex_os_rv.Prelude.{ℕ, Text}

-- `serde_json::Value` and the two floating-point types.
pub record Wire : Type 1 where
  pub Value : Type 0
  pub F32 : Type 0
  pub F64 : Type 0

-- The newtypes over `u64` and `String` are the numbers and texts that they hold.
abbrev pub SessionId : Type 0
SessionId = ℕ

abbrev pub ActionId : Type 0
ActionId = ℕ

abbrev pub GoalId : Type 0
GoalId = ℕ

abbrev pub EvolutionId : Type 0
EvolutionId = ℕ

abbrev pub PluginId : Type 0
PluginId = Text

pub data GoalState : Type 0 where
  planning acting blocked reflecting done failed cancelled : GoalState
