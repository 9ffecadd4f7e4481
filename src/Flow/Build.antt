-- ===== src/Flow/Build.antt =====
-- crates/rua-ide/src/analysis/hir/cfg.rs: the builder makes graphs.
pub mod Steps
pub mod Below
pub mod Exprs
pub mod Total
