-- ===== src/Kernel.antt =====
-- The kernel's own logic (kernel/src).
pub mod Watchdog
pub mod Agent
pub mod Link
pub mod Rng
pub mod Session
pub mod Mesh
pub mod Dma
pub mod Probe
pub mod Uart
pub mod Console
pub mod Proto
pub mod Boot
pub mod Env
pub mod Nic
pub mod Address
pub mod Smoke
pub mod Qemu
