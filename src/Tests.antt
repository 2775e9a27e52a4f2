-- ===== src/Tests.antt =====
-- The theorems at concrete inputs, on a host in memory.
pub mod World
pub mod Texts
pub mod Network
pub mod Machine
pub mod Rootfs
pub mod Race
pub mod Program
pub mod Builds
pub mod Whole
pub mod Success
pub mod Booted
pub mod Delivered
pub mod Guest
pub mod RootfsScript
