-- ===== src/VmImage.antt =====
-- crates/vm-image-builder/src/lib.rs: images built in a microVM. The child modules hold the parts of
-- the file; libkrun itself is behind `krun.rs`, which `Krun` models.
pub mod Error
pub mod Config
pub mod Rootfs
pub mod Build
pub mod Handover
pub mod Threads
pub mod Platform
