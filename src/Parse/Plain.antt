-- ===== src/Parse/Plain.antt =====
-- crates/coseva/src/engine/borrowed_parser.rs: the kernel for records without quotes, in its portable
-- form, and the passes over a record that it has read. The structural scanner is modelled as the
-- search for the next byte of the three.
use coseva.Prelude.{
  ℕ, zero, suc, ◌+◌, ◌-◌, Bool, true, false, List, none, some, [], ◌∷◌, not, ◌&&◌, ◌||◌, ltb, ◌==◌,
  if◌then◌else◌, min, Bytes, length, get_elem?,
}
use coseva.Error.{ErrorKind}
use coseva.Search.{find1, find3, is_some}
use coseva.Config.Options.{
  quoting_enabled, permits_unquoted_quotes, unquoted_byte, terminator, is_crlf, Nulls,
}
use coseva.Config.Dialect.{Dialect, multibyte}
use coseva.Emit.Policy.{no_nulls_set}
use coseva.Parse.Spans.{Source, Span, slice}
use coseva.Parse.Engine.{
  Settings, Parser, parsed, rejected, panicked, exhausted, ◌>>=◌, ◌>>◌, return, engine, slice_of,
  byte_is, set_location, note_terminated, clear_terminated, strips_cr, error_for, reject,
  check_record_limit,
}
use coseva.Parse.Push.{push_span, mark_null_spans}
use coseva.Parse.Unquoted.{strip_cr}

-- `plain_kernel` and `plain_record_candidate`
abbrev pub plain_kernel : Settings → Bool
plain_kernel s = not s.skip_initial_space && not (multibyte s.dialect)

unfoldable pub plain_record_candidate : Settings → ℕ → Bool
plain_record_candidate s first =
    plain_kernel s && (not (quoting_enabled s.syntax) || not (first == s.dialect.quote))

-- `needs_record_pass`
abbrev pub needs_record_pass : Dialect → Nulls → Bool
needs_record_pass d nulls = not (no_nulls_set nulls) || is_crlf d.record_ending

-- the first span that ends behind a place, or the first of all
span_over : ℕ → ℕ → List Span → ℕ
span_over at index [] = 0
span_over at index (span ∷ spans) =
    let later = span_over at (index + 1) spans in if ltb at span.end then index else later

module _ (s : Settings) (input : Bytes) where
  abbrev pub borrowed_scan_end : ℕ → ℕ
  borrowed_scan_end record_start =
      min (length input) (record_start + (s.limits.max_record_bytes + 1))

  -- whether an escape that is read outside quotes stands in the record
  abbrev pub holds_escape : ℕ → ℕ → Bool
  holds_escape record_start end = elim (unquoted_byte s.dialect.escape) [
    | none ↦ false
    | some escape ↦ is_some (find1 escape (slice input record_start end))
  ]

  -- `self.spans.clear_spans(); return Ok(false)`
  abbrev pub decline : Parser Bool
  decline e = parsed (record e { spans = [] }) false

  -- the last field, and the place behind it
  unfoldable pub commit_plain : ℕ → ℕ → ℕ → ℕ → ℕ → Bool → Parser Bool
  unfolding push_span check_record_limit
  commit_plain record_start field_start field_end at next ends = do
    push_span s input Source.in_input field_start field_end at false
    set_location next
    if ends then note_terminated else clear_terminated
    check_record_limit s input record_start next
    return true

  -- the scan has met the end of the input or of the record limit
  unfoldable pub end_plain : ℕ → ℕ → ℕ → Parser Bool
  unfolding commit_plain reject
  end_plain record_start field_start end =
      if ltb end (length input)
      then reject s input (ErrorKind.record_too_large s.limits.max_record_bytes) end
      else if holds_escape record_start end
      then decline
      else commit_plain record_start field_start end end end false

  -- what a structural byte is to the loop; `next` goes on with the loop from a field's start
  unfoldable pub plain_byte : ℕ → ℕ → ℕ → ℕ → (ℕ → Parser Bool) → Parser Bool
  unfolding commit_plain push_span
  plain_byte record_start field_start at byte next =
      if byte == s.dialect.delimiter
      then (do push_span s input Source.in_input field_start at at false; next (at + 1))
      else if byte == s.dialect.quote
          && quoting_enabled s.syntax
          && (at == field_start || not (permits_unquoted_quotes s.syntax))
      then decline
      else if byte == terminator s.dialect.record_ending
      then (if holds_escape record_start at
          then decline
          else commit_plain record_start field_start (strip_cr input (strips_cr s) field_start at)
              at (at + 1) true)
      else next field_start

  -- Each round passes a byte.
  unfoldable pub plain_loop : ℕ → ℕ → ℕ → ℕ → ℕ → Parser Bool
  unfolding plain_byte end_plain find3
  plain_loop zero record_start end field_start cursor e = exhausted
  plain_loop (suc fuel) record_start end field_start cursor e =
      elim (find3 s.dialect.delimiter s.dialect.quote (terminator s.dialect.record_ending)
        (slice input cursor end)) [
          | none ↦ end_plain record_start field_start end e
          | some relative ↦ elim (get_elem? input (cursor + relative)) [
            | none ↦ panicked
            | some byte ↦
                plain_byte record_start field_start (cursor + relative) byte
                  (λ start. plain_loop fuel record_start end start (cursor + relative + 1)) e
          ]
        ]

  -- `try_parse_borrowed_plain`: whether the kernel has read the record
  unfoldable pub try_parse_borrowed_plain : ℕ → Parser Bool
  unfolding plain_loop
  try_parse_borrowed_plain record_start =
      plain_loop (length input + 1) record_start (borrowed_scan_end record_start) record_start
        record_start

  -- how a record that the kernel has read ends, under `RecordEnding::CrLf`
  abbrev pub ends_in_lf : ℕ → ℕ → Bool
  ends_in_lf record_start end = ltb record_start end && byte_is input (end - 1) b'\n'

  abbrev pub ends_in_crlf : ℕ → ℕ → Bool
  ends_in_crlf record_start end =
      ends_in_lf record_start end && ltb record_start (end - 1) && byte_is input (end - 1 - 1) b'\r'

  abbrev pub search_end : ℕ → ℕ → ℕ
  search_end record_start end =
      if ends_in_crlf record_start end
      then end - 1 - 1
      else if ends_in_lf record_start end
      then end - 1
      else end

  unfoldable pub validate_crlf : ℕ → Parser (Unit {0})
  unfolding span_over error_for find1
  validate_crlf record_start = do
    before ← engine
    let end = before.location
    searched ← slice_of input record_start (search_end record_start end)
    λ e. elim (find1 b'\r' searched) [
      | some offset ↦ rejected e (
          error_for s input (ErrorKind.invalid_record_ending b'\r') (record_start + offset)
            (span_over (record_start + offset) 0 e.spans) e)
      | none ↦
          if ends_in_lf record_start end && not (ends_in_crlf record_start end)
          then rejected e (
              error_for s input (ErrorKind.invalid_record_ending b'\n') (end - 1)
                (length e.spans - 1) e)
          else parsed e tt
    ]

  unfoldable pub finish_plain_record : ℕ → Bool → Parser (Unit {0})
  unfolding validate_crlf mark_null_spans
  finish_plain_record record_start header = do
    if is_crlf s.dialect.record_ending then validate_crlf record_start else return tt
    mark_null_spans s input header
