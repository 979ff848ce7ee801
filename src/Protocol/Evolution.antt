-- ===== src/Protocol/Evolution.antt =====
-- The evolution types, and the rule strings of policy.toml (vendor/apexos-protocol/src/lib.rs).
use apex_os_rv.Prelude.{
  ◌≡◌, ◌↔◌, Option, none, some, Text, codes, ◌==◌, list_eq, nat_eq, list_beq_iff, arith,
  if◌then◌else◌,
}
use apex_os_rv.Map.{Map}

pub data PolicyMode : Type 0 where
  suggest auto_edit yolo : PolicyMode

pub data PolicyRule : Type 0 where
  allow ask workspace : PolicyRule

unfoldable pub as_toml_str : PolicyRule → Text
as_toml_str allow = codes "allow"
as_toml_str ask = codes "ask"
as_toml_str workspace = codes "workspace"

unfoldable pub from_toml_str : Text → Option PolicyRule
from_toml_str s =
    if s == codes "allow"
    then some allow
    else if s == codes "ask"
    then some ask
    else if s == codes "workspace"
    then some workspace
    else none

-- A text is read as a rule exactly when it is the text that is written for that rule.
pub from_toml_str_iff :
    (s : Text) (r : PolicyRule) → (from_toml_str s ≡ some r) ↔ (s ≡ as_toml_str r)
unfolding from_toml_str as_toml_str
from_toml_str_iff s allow = ground (
  arith,
  list_beq_iff s (codes "allow"),
  list_beq_iff s (codes "ask"),
  list_beq_iff s (codes "workspace"),
)
from_toml_str_iff s r = ground (
  arith,
  list_beq_iff s (codes "allow"),
  list_beq_iff s (codes "ask"),
  list_beq_iff s (codes "workspace"),
)

pub data Subsystem : Type 0 where
  plugins policy agent gateway : Subsystem

-- The fields of each variant stand in the source's order.
pub data EvolutionProposal : Type 0 where
  -- name, command, env, reason
  register_mcp_server : Text → Text → Map Text Text → Text → EvolutionProposal
  -- name, reason
  unregister_mcp_server : Text → Text → EvolutionProposal
  -- tool_pattern, new_rule, reason
  update_policy_rule : Text → PolicyRule → Text → EvolutionProposal
  -- content, reason
  update_system_prompt : Text → Text → EvolutionProposal
  hot_reload_subsystem : Subsystem → EvolutionProposal
  -- part, capability, reason, bus, source
  request_hardware : Text → Text → Text → Text → Text → EvolutionProposal
