-- ===== src/Tests.antt =====
-- Concrete inputs, and what the theorems say of them.
mod Values
pub mod Goals
pub mod Directives
pub mod States
pub mod Loops
pub mod Devices
pub mod Sessions
pub mod Links
pub mod Mocks
pub mod Boots
pub mod Suite
pub mod Ports
