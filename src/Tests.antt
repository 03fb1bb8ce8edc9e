-- ===== src/Tests.antt =====
-- Concrete systems, and the theorems applied to them.
pub mod Samples
mod Tasks
mod Scheduling
mod Pages
mod Devices
mod Memory
mod Files
mod Modules
mod Volumes
mod Firmware
mod Screens
mod Commands
mod Routing
