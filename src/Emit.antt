-- ===== src/Emit.antt =====
-- crates/coseva/src/emit.rs
pub mod Scan
pub mod Writer
pub mod Field
pub mod Unquoted
pub mod Numeric
pub mod Policy
pub mod Record
pub mod Visitor
