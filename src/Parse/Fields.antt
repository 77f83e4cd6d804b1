-- ===== src/Parse/Fields.antt =====
-- crates/coseva/src/engine/borrowed_parser.rs and framing.rs: the fields of a record, one behind the
-- other, and the reading of one record.
use coseva.Prelude.{
  ℕ, zero, suc, ◌+◌, Bool, true, false, List, ◌&&◌, ltb, if◌then◌else◌, [], Bytes, length, map,
}
use coseva.Error.{ErrorKind}
use coseva.Config.Options.{quoting_enabled, applies, applies_to_scope}
use coseva.Parse.Spans.{max_offset, resolve_span, trim_ascii_where}
use coseva.Parse.Engine.{
  Settings, Engine, Parser, Parsed, parsed, rejected, panicked, exhausted, ◌>>=◌, ◌>>◌, engine,
  byte_is, byte_of, return, needs_general_parsing, reject, skip_delimiter_spaces,
  validate_field_count,
}
use coseva.Parse.Push.{mark_null_spans}
use coseva.Parse.Unquoted.{parse_unquoted_field_runtime}
use coseva.Parse.General.{parse_general_unquoted_field}
use coseva.Parse.Plain.{
  plain_record_candidate, needs_record_pass, try_parse_borrowed_plain, finish_plain_record,
}
use coseva.Parse.Quoted.{parse_quoted_field_runtime}

-- `if let Err(error) = self.parse_record(..) { self.failed = true; return Err(error) }`
abbrev pub fail_on_error : Parsed (Unit {0}) → Parsed (Unit {0})
fail_on_error (parsed e done) = parsed e done
fail_on_error (rejected e error) = rejected (record e { failed = true }) error
fail_on_error panicked = panicked
fail_on_error exhausted = exhausted

module _ (s : Settings) (input : Bytes) where
  -- by the `UnquotedParserKind`
  unfoldable pub parse_unquoted_field : ℕ → Bool → Parser Bool
  unfolding parse_general_unquoted_field parse_unquoted_field_runtime
  parse_unquoted_field record_start header =
      if needs_general_parsing s.dialect s.trim
      then parse_general_unquoted_field s input record_start header
      else parse_unquoted_field_runtime s input record_start

  -- one round of the loop of `parse_record_fields`; the result is whether the record has ended
  unfoldable pub parse_field : ℕ → Bool → Parser Bool
  unfolding parse_unquoted_field parse_quoted_field_runtime skip_delimiter_spaces
  parse_field record_start header = do
    skip_delimiter_spaces s input record_start
    e ← engine
    if byte_is input e.location s.dialect.quote && quoting_enabled s.syntax
        then parse_quoted_field_runtime s input record_start
        else parse_unquoted_field record_start header

  -- what follows the last field
  unfoldable pub finish_fields : Bool → Parser (Unit {0})
  unfolding mark_null_spans validate_field_count
  finish_fields header = do
    mark_null_spans s input header
    e ← engine
    validate_field_count s input (length e.spans)

  -- `if record_end { .. }`; `go` goes on with the loop
  unfoldable pub after_field : Bool → Parser (Unit {0}) → Bool → Parser (Unit {0})
  unfolding finish_fields
  after_field header go true = finish_fields header
  after_field header go false = go

  -- Each round takes a byte of the input, but for the one that meets its end.
  unfoldable pub fields_loop : ℕ → ℕ → Bool → Parser (Unit {0})
  unfolding parse_field after_field
  fields_loop zero record_start header e = exhausted
  fields_loop (suc fuel) record_start header e =
      (parse_field record_start header
          >>= after_field header (λ e'. fields_loop fuel record_start header e'))
        e

  unfoldable pub parse_record_fields : ℕ → Bool → Parser (Unit {0})
  unfolding fields_loop
  parse_record_fields record_start header = fields_loop (length input + 1) record_start header

  -- what follows a record that the plain kernel has read
  unfoldable pub finish_plain : ℕ → Bool → Parser (Unit {0})
  unfolding finish_plain_record validate_field_count
  finish_plain record_start header = do
    if needs_record_pass s.dialect s.nulls
        then finish_plain_record s input record_start header
        else return tt
    e ← engine
    validate_field_count s input (length e.spans)

  -- by what the kernel has done
  unfoldable pub after_kernel : ℕ → Bool → Bool → Parser (Unit {0})
  unfolding finish_plain parse_record_fields
  after_kernel record_start header true = finish_plain record_start header
  after_kernel record_start header false = parse_record_fields record_start header

  -- `input[record_start]` panics at the end of the input
  unfoldable pub parse_record : ℕ → Bool → Parser (Unit {0})
  unfolding plain_record_candidate try_parse_borrowed_plain after_kernel
  parse_record record_start header = do
    first ← byte_of input record_start
    plain ←
        (if plain_record_candidate s first
          then try_parse_borrowed_plain s input record_start
          else return false)
    after_kernel record_start header plain

  -- `begin_spans` and `SpanStorage::begin`
  unfoldable pub begin_spans : Parser (Unit {0})
  unfolding reject
  begin_spans e =
      if ltb max_offset (length input)
      then reject s input ErrorKind.location_overflow e.location (record e { failed = true })
      else parsed (record e { spans = []; scratch = []; input_len = length input }) tt

  unfoldable pub trim_spans : Bool → Parser (Unit {0})
  unfolding trim_ascii_where
  trim_spans header e =
      if applies_to_scope s.trim header
      then parsed
          (record e {
            spans =
                trim_ascii_where (λ quoted. applies s.trim header quoted) input e.scratch e.spans;
          })
          tt
      else parsed e tt

  unfoldable pub parse_or_fail : ℕ → Bool → Parser (Unit {0})
  unfolding parse_record
  parse_or_fail record_start header e = fail_on_error (parse_record record_start header e)

  -- the range of the record and its index
  unfoldable pub parse_positioned_record : Bool → Parser (ℕ × ℕ × ℕ)
  unfolding begin_spans parse_or_fail trim_spans
  parse_positioned_record header = do
    begin_spans
    before ← engine
    parse_or_fail before.location header
    trim_spans header
    after ← engine
    λ e.
        parsed (record e { record_index = e.record_index + 1 })
          (before.location, after.location, after.record_index)

-- `resolved(input).get(..)` of each field
abbrev pub fields_of : Bytes → Engine → List Bytes
fields_of input e = map (resolve_span input e.scratch) e.spans
