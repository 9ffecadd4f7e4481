-- ===== src/Backend.antt =====
-- crates/ruac/src/backend_layout.rs: the Lua names that the compiler gives.
pub mod Names
pub mod Safe
pub mod Alloc
pub mod Fresh
pub mod Entries
pub mod Locals
pub mod Layout
pub mod Aliases
