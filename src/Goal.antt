-- ===== src/Goal.antt =====
-- agent-core/src/goal.rs.
pub mod Driver
pub mod Lifecycle
pub mod Trace
pub mod Refinement
pub mod Run
pub mod Script
pub mod Directive
pub mod Steer
