-- ===== src/Lib.antt =====
-- coseva: a model of the CSV library's configuration, emitter and record parser, with the theorems
-- that make them correct. Paths are from the repository's root.
--
-- The program. A format (`FormatOptions`) holds a `Dialect`, the bytes that structure a file, and
-- the policies for quoting, NULLs, blank records, byte order marks and whitespace; it is validated
-- before anything is built from it. An emitter takes records field by field. The writers of
-- `emit.rs` test a field for structure, quote or escape it, and end the record; `PushEmitter` keeps
-- the buffer, checks the number of fields of each record, and takes a record back that fails. The
-- parser's `Engine` skips comments and blank records, then reads one record field by field: each
-- field becomes a `Span` of the input, or of the scratch buffer when it had escapes to take out.
--
-- The files.
--   Prelude, with Prelude/: Boolean tests, slices as lists, bit operations by digits, tables of
--     byte-indexed facts.
--   Error: crates/coseva/src/error, with `Result`.
--   Config/Tail, Config/Options, Config/Dialect, Config/Format, Config/Equality: the files of
--     crates/coseva/src/config. A `u8` is a number; what needs it below 256 says so (`IsByte`).
--     `Dialect::invalidity` returns the reason as the code does, and `none` for a dialect that passes.
--   Search: the portable searches of crates/coseva_unsafe/src/search.rs. The kernels for particular
--     processors are not modelled; the code falls back to these.
--   Emit/Scan: the quoting tests of crates/coseva/src/emit.rs: word at a time, with the wrap-around
--     of `u64` written out, and by blocks.
--   Emit/Writer: `ByteSink` for `Vec<u8>` as a state monad; an outcome is a buffer with a value, a
--     refusal with the buffer as the code leaves it, or a panic.
--   Emit/Field, Emit/Unquoted, Emit/Numeric, Emit/Policy: the writers of one field.
--   Emit/Record: `emit_record_runtime`, `emit_nullable_record_runtime`, `validate_field_count`.
--   Emit/Visitor: `DirectEncodeVisitor`, which frames a record field by field.
--   Push: `PushEmitter` of crates/coseva/src/push_emitter.rs as explicit state passing.
--     Push/Session has sequences of calls as a relation.
--   Parse/Spans: `Span` and `SpanStorage` of crates/coseva_unsafe/src/span.rs, the flags as fields.
--   Parse/Engine: the state of crates/coseva/src/engine.rs that reading a record uses, and
--     engine/limits.rs. `Parsed` is a value, an error, a panic or the end of the fuel, each error
--     with the state the code leaves.
--   Parse/Push, Parse/Unquoted, Parse/Quoted, Parse/General, Parse/Fields: the reading of a record in
--     crates/coseva/src/engine/borrowed_parser.rs. Parse/Plain: its kernel for records without quotes
--     in the portable form.
--   Parse/Framing: crates/coseva/src/engine/framing.rs, with the comments of engine/limits.rs.
--   Parse/Outcome, Parse/Sound: what an operation ends in, by rules for its steps.
--   Parse/Place, Parse/Rounds: the reader on what the writer has written.
--   FromBytes: the unsigned integer parsers of crates/coseva/src/from_bytes.rs. A type is its
--     largest value; unchecked arithmetic wraps around.
--   Tests: the theorems at concrete values.
--
-- Parameters and fuel. `parses_f64`, the float parser of the standard library behind `is_numeric`,
-- is an argument wherever it is used; nothing is assumed of it. The static format of a type
-- (`F::OPTIONS`) is an `Option FormatOptions`. The `while let` loops of `write_quoted` and
-- `write_csv_necessary` run on the length of the field as fuel: each round takes a byte at least.
-- `ilog10` runs on the number itself, which is more than its digits. The parser's loops run on the
-- bytes of the input, or of the field, and one or two more; each round passes a byte, and running
-- out of fuel is an outcome of its own. Lengths are unbounded numbers: the capacity arithmetic that
-- reserves memory is left out, and so are the sums that the parser saturates at `usize::MAX`.
--
-- Not modelled: the parser's kernels for x86-64 and for quoted prefixes, the running count of lines,
-- the owned parser, cursors and headers, the index, parallel splitting, records and projections,
-- Serde, the derive macros, I/O, and the unsafe storage and processor kernels of
-- crates/coseva_unsafe.
pub mod Prelude
pub mod Error
pub mod Config
pub mod Search
pub mod Emit
pub mod Parse
pub mod Push
pub mod FromBytes
pub mod Tests
