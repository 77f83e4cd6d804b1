-- ===== src/Parse/Push.antt =====
-- crates/coseva/src/engine/borrowed_parser.rs: how a finished field becomes a span, and how the
-- pieces of an escaped one reach the scratch.
pub mod Laws
use coseva.Prelude.{
  ℕ, ◌+◌, Bool, true, false, List, [], ◌∷◌, ◌++◌, ◌||◌, Option, none, some, ◌&&◌, leb, ◌==◌,
  if◌then◌else◌, Bytes, length, bytes_eq, is_empty,
}
use coseva.Error.{ErrorKind}
use coseva.Config.Options.{Nulls}
use coseva.Emit.Policy.{is_mysql_nulls, is_postgres_nulls, no_nulls_set, mysql_null}
use coseva.Parse.Spans.{
  Source, Span, try_push_input_bounded, try_push_scratch_bounded, null_span, mark_input_nulls,
  slice,
}
use coseva.Parse.Engine.{
  Settings, Engine, Parser, parsed, rejected, panicked, ◌>>=◌, ◌>>◌, return, panic, slice_of,
  scratch_extend, error_for, reject,
}

-- `copy_segment`, which returns the flag that it sets
unfoldable pub copy_segment : Bytes → Bool → ℕ → ℕ → ℕ → Parser Bool
copy_segment input copied content_start start end = do
  if copied
      then return tt
      else (do prefix ← slice_of input content_start start; scratch_extend prefix)
  segment ← slice_of input start end
  scratch_extend segment
  return true

module _ (s : Settings) (input : Bytes) where
  unfoldable pub span_limit_error : ℕ → Parser (Unit {0})
  unfolding reject
  span_limit_error at e =
      if leb s.limits.max_fields (length e.spans)
      then reject s input (ErrorKind.too_many_fields s.limits.max_fields) at e
      else reject s input (ErrorKind.field_too_large s.limits.max_field_bytes) at e

  -- the `match source` of `push_span`
  abbrev pub try_push : Source → ℕ → ℕ → Bool → Engine → Option (List Span)
  try_push Source.in_input start end quoted e =
      try_push_input_bounded e.spans e.input_len start end quoted s.limits.max_fields
        s.limits.max_field_bytes
  try_push Source.in_scratch start end quoted e =
      try_push_scratch_bounded e.spans e.input_len (length e.scratch) start end quoted
        s.limits.max_fields s.limits.max_field_bytes

  unfoldable pub push_span : Source → ℕ → ℕ → ℕ → Bool → Parser (Unit {0})
  unfolding try_push_input_bounded try_push_scratch_bounded span_limit_error
  push_span source start end at quoted e = elim (try_push source start end quoted e) [
    | some spans ↦ parsed (record e { spans = spans }) tt
    | none ↦ span_limit_error at e
  ]

  -- `push_null` asserts that the offset lies in the input.
  unfoldable pub push_null_span : ℕ → Parser (Unit {0})
  unfolding reject
  push_null_span at e =
      if length e.spans == s.limits.max_fields
      then reject s input (ErrorKind.too_many_fields s.limits.max_fields) at e
      else if leb at e.input_len
      then parsed (record e { spans = e.spans ++ (null_span at ∷ []) }) tt
      else panicked

-- `raw_field_is_null`
unfoldable pub raw_field_is_null : Nulls → Bytes → Bool
raw_field_is_null Nulls.no_nulls raw = false
raw_field_is_null Nulls.postgres_csv raw = is_empty raw
raw_field_is_null Nulls.mysql_nulls raw = bytes_eq raw mysql_null

unfoldable pub mark_null_spans : Settings → Bytes → Bool → Parser (Unit {0})
unfolding mark_input_nulls raw_field_is_null
mark_null_spans s input header e =
    if no_nulls_set s.nulls || header
    then parsed e tt
    else parsed (record e { spans = mark_input_nulls (raw_field_is_null s.nulls) input e.spans }) tt

-- `mysql_unescape_byte`
unfoldable pub mysql_unescape_byte : ℕ → ℕ
mysql_unescape_byte byte =
    if byte == b'0'
    then 0
    else if byte == b'b'
    then 8
    else if byte == b'n'
    then b'\n'
    else if byte == b'r'
    then b'\r'
    else if byte == b't'
    then b'\t'
    else if byte == b'Z'
    then 0x1A
    else byte
