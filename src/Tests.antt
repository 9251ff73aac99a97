-- ===== src/Tests.antt =====
-- Runs of the theorems at concrete states.
pub mod Memory
pub mod Threads
pub mod Messages
pub mod Screen
pub mod Bytes
pub mod Devices
pub mod Start
pub mod Directories
pub mod Boot
