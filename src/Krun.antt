-- ===== src/Krun.antt =====
-- crates/vm-image-builder/src/krun.rs: the libkrun backend. libkrun, `fork` and
-- `waitpid` are not part of the repository: they are the fields of `LibKrun` in Krun.Enter. A C string
-- is a text without NUL.
pub mod Args
pub mod Enter
pub mod Wait
pub mod Fate
pub mod Run
pub mod Guest
pub mod Served
