-- ===== src/Parse/Quoted.antt =====
-- crates/coseva/src/engine/borrowed_parser.rs: a quoted field, and what may follow its last quote.
-- `QuotedFieldConfig` is the settings themselves.
use coseva.Prelude.{
  ℕ, zero, suc, ◌+◌, Bool, true, false, Option, none, some, [], ◌∷◌, not, ◌&&◌, ◌||◌, leb, ◌==◌,
  if◌then◌else◌, Bytes, length, drop, get_elem?,
}
use coseva.Error.{ErrorKind}
use coseva.Search.{find1, find2}
use coseva.Config.Tail.{confirms, width}
use coseva.Config.Options.{
  Escape, double_quote, backslash, mysql_escape, unquoted, terminator, is_crlf, is_newline,
  permits_any_backslash_escape, permits_trailing_whitespace,
}
use coseva.Parse.Spans.{Source, slice}
use coseva.Parse.Engine.{
  Settings, Parser, panicked, exhausted, ◌>>=◌, ◌>>◌, return, engine, panic, slice_of, byte_is,
  set_location, note_terminated, clear_terminated, scratch_extend, reject, scan_end,
  check_record_limit, check_scan_end, check_scratch_limit,
}
use coseva.Parse.Push.{push_span, copy_segment, mysql_unescape_byte}

-- the loop of `skip_post_quote_whitespace_runtime`; each round takes a byte of the input
unfoldable pub skip_whitespace_loop : ℕ → Bytes → ℕ → Option ℕ
skip_whitespace_loop zero input location = none
skip_whitespace_loop (suc fuel) input location =
    let rest = skip_whitespace_loop fuel input (location + 1) in
    if byte_is input location b' ' || byte_is input location b'\t' then rest else some location

unfoldable pub skip_post_quote_whitespace : Settings → Bytes → ℕ → Option ℕ
unfolding skip_whitespace_loop
skip_post_quote_whitespace s input location =
    if permits_trailing_whitespace s.syntax
    then skip_whitespace_loop (length input + 1) input location
    else some location

-- What the byte at `at` is to the loop: the quote that ends the field, an escape for a byte, or an
-- error.
pub data Step : Type 0 where
  closes : Step
  escapes : ℕ → Step
  fails : ErrorKind → ℕ → Step

unfoldable pub find_in_quotes : Settings → Escape → Bytes → Option ℕ
unfolding find1 find2
find_in_quotes s double_quote remaining = find1 s.dialect.quote remaining
find_in_quotes s (backslash escape) remaining = find2 s.dialect.quote escape remaining
find_in_quotes s (unquoted escape) remaining = find2 s.dialect.quote escape remaining
find_in_quotes s mysql_escape remaining = find2 s.dialect.quote b'\\' remaining

module _ (s : Settings) (input : Bytes) where
  -- where the record ends: at `location`, behind its terminator
  unfoldable pub end_quoted : ℕ → ℕ → Parser Bool
  unfolding check_record_limit
  end_quoted record_start location = do
    set_location location
    note_terminated
    check_record_limit s input record_start location
    return true

  -- what follows the quote: the byte `next` at `after_quote`
  unfoldable pub follow_quoted : ℕ → ℕ → ℕ → Parser Bool
  unfolding confirms end_quoted reject
  follow_quoted record_start after_quote next =
      if next == s.dialect.delimiter
        && confirms s.dialect.delimiter_tail (drop (after_quote + 1) input)
      then (do set_location (after_quote + width s.dialect.delimiter_tail); return false)
      else if not (is_crlf s.dialect.record_ending)
          && next == terminator s.dialect.record_ending
          && confirms s.dialect.ending_tail (drop (after_quote + 1) input)
      then end_quoted record_start (after_quote + width s.dialect.ending_tail)
      else if is_newline s.dialect.record_ending
          && next == b'\r'
          && byte_is input (after_quote + 1) b'\n'
      then end_quoted record_start (after_quote + 2)
      else reject s input (ErrorKind.unexpected_byte_after_quote next) after_quote

  unfoldable pub finish_quoted_field_runtime : ℕ → ℕ → Parser Bool
  unfolding follow_quoted check_record_limit skip_post_quote_whitespace
  finish_quoted_field_runtime record_start quote_end e =
      elim (skip_post_quote_whitespace s input quote_end) [
        | none ↦ exhausted
        | some after_quote ↦ elim (get_elem? input after_quote) [
          | some next ↦ follow_quoted record_start after_quote next e
          | none ↦
              (do
                set_location after_quote
                clear_terminated
                check_record_limit s input record_start after_quote
                return true)
                e
        ]
      ]

  -- an escape at `at`, which stands for the byte `decoded`
  unfoldable pub take_escape : ℕ → ℕ → ℕ → ℕ → Bool → ℕ → Parser Bool
  unfolding copy_segment check_scratch_limit
  take_escape content_start scratch_start at segment_start copied decoded = do
    now ← copy_segment input copied content_start segment_start at
    scratch_extend (decoded ∷ [])
    check_scratch_limit s input scratch_start at
    return now

  -- the quote at `at` that ends the field
  unfoldable pub close_quoted : ℕ → ℕ → ℕ → ℕ → ℕ → Bool → Parser Bool
  unfolding push_span finish_quoted_field_runtime
  close_quoted record_start content_start scratch_start at segment_start copied =
      if copied
      then (do
        segment ← slice_of input segment_start at
        scratch_extend segment
        e ← engine
        push_span s input Source.in_scratch scratch_start (length e.scratch) at true
        finish_quoted_field_runtime record_start (at + 1))
      else (do
        push_span s input Source.in_input content_start at at true
        finish_quoted_field_runtime record_start (at + 1))

  -- the byte behind a backslash at `at`
  abbrev backslash_step : ℕ → ℕ → Option ℕ → Step
  backslash_step escape at none = fails (ErrorKind.invalid_escape escape) at
  backslash_step escape at (some escaped) =
      if not (escaped == s.dialect.quote)
        && not (escaped == escape)
        && not (permits_any_backslash_escape s.syntax)
      then fails (ErrorKind.invalid_escape escaped) (at + 1)
      else escapes escaped

  -- the byte behind an escape that is one outside quotes as well
  abbrev unquoted_step : (ℕ → ℕ) → ℕ → Option ℕ → Step
  unquoted_step decode end none = fails ErrorKind.unterminated_quoted_field end
  unquoted_step decode end (some escaped) = escapes (decode escaped)

  -- the `match config.escape` on the byte that the search found
  unfoldable pub quoted_step : Escape → ℕ → ℕ → ℕ → Step
  unfolding mysql_unescape_byte
  quoted_step double_quote end at byte =
      if byte_is input (at + 1) s.dialect.quote then escapes s.dialect.quote else closes
  quoted_step (backslash escape) end at byte =
      if byte == escape then backslash_step escape at (get_elem? input (at + 1)) else closes
  quoted_step mysql_escape end at byte =
      if byte == b'\\'
      then unquoted_step mysql_unescape_byte end (get_elem? input (at + 1))
      else closes
  quoted_step (unquoted escape) end at byte =
      if byte == escape then unquoted_step (λ b. b) end (get_elem? input (at + 1)) else closes

  -- `check_record_limit(..).expect_err(..)`, where the cursor has run past the bytes to scan
  unfoldable pub overrun : ℕ → ℕ → Parser Bool
  unfolding check_record_limit
  overrun record_start end = do check_record_limit s input record_start end; panic

  -- the search has found nothing
  unfoldable pub unterminated_quoted : ℕ → ℕ → ℕ → Parser Bool
  unfolding check_scan_end reject
  unterminated_quoted record_start content_start end = do
    check_scan_end s input end record_start content_start
    reject s input ErrorKind.unterminated_quoted_field end

  -- the body of an arm of the `match`; `next` goes on with the loop behind an escape
  unfoldable pub quoted_arm : ℕ → ℕ → ℕ → ℕ → ℕ → Bool → (Bool → Parser Bool) → Step → Parser Bool
  unfolding reject close_quoted take_escape
  quoted_arm record_start content_start scratch_start at segment_start copied next
        (fails kind place) =
      reject s input kind place
  quoted_arm record_start content_start scratch_start at segment_start copied next closes =
      close_quoted record_start content_start scratch_start at segment_start copied
  quoted_arm record_start content_start scratch_start at segment_start copied next
        (escapes decoded) =
      do now ← take_escape content_start scratch_start at segment_start copied decoded; next now

  -- The loop of `parse_quoted_field_runtime`. Each round but the last takes two bytes.
  unfoldable pub quoted_loop : ℕ → ℕ → ℕ → ℕ → ℕ → ℕ → Bool → Parser Bool
  unfolding find_in_quotes quoted_step overrun unterminated_quoted quoted_arm scan_end
  quoted_loop zero record_start content_start scratch_start cursor segment_start copied e =
      exhausted
  quoted_loop (suc fuel) record_start content_start scratch_start cursor segment_start copied e =
      let end = scan_end s input record_start content_start in
      elim (leb cursor end) [
        | false ↦ overrun record_start end e
        | true ↦ elim (find_in_quotes s s.dialect.escape (slice input cursor end)) [
          | none ↦ unterminated_quoted record_start content_start end e
          | some relative ↦
              let at = cursor + relative in
              elim (get_elem? input at) [
                | none ↦ panicked
                | some byte ↦
                    quoted_arm record_start content_start scratch_start at segment_start copied
                      (λ now.
                        quoted_loop fuel record_start content_start scratch_start (at + 2) (at + 2)
                          now)
                      (quoted_step s.dialect.escape end at byte) e
              ]
        ]
      ]

  unfoldable pub parse_quoted_field_runtime : ℕ → Parser Bool
  unfolding quoted_loop
  parse_quoted_field_runtime record_start e =
      quoted_loop (length input + 1) record_start (e.location + 1) (length e.scratch)
        (e.location + 1) (e.location + 1) false e
