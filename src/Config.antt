-- ===== src/Config.antt =====
-- crates/coseva/src/config: the enumerations that a format is made of, `Dialect` and
-- `FormatOptions`. The model has the crate's `multibyte` and `index` features on.
pub mod Tail
pub mod Options
pub mod Dialect
pub mod Format
pub mod Equality
