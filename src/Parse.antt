-- ===== src/Parse.antt =====
-- crates/coseva/src/engine: the general borrowed parser, one record at a time.
pub mod Spans
pub mod Engine
pub mod Push
pub mod Unquoted
pub mod Quoted
pub mod General
pub mod Plain
pub mod Fields
pub mod Framing
pub mod Outcome
pub mod Place
pub mod Rounds
pub mod Sound
