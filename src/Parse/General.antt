-- ===== src/Parse/General.antt =====
-- crates/coseva/src/engine/borrowed_parser.rs: an unquoted field of the dialects that need more than
-- the single-byte scan, its NULL test and its escapes.
use coseva.Prelude.{
  ℕ, zero, suc, ◌+◌, ◌-◌, Bool, true, false, Option, none, some, [], ◌∷◌, not, ◌&&◌, ◌||◌, ltb,
  ◌==◌, if◌then◌else◌, Bytes, length, drop, get_elem?, holds, is_empty, bytes_eq,
}
use coseva.Error.{ErrorKind}
use coseva.Search.{find1, find2, find3, find4, contains}
use coseva.Config.Tail.{confirms, width}
use coseva.Config.Options.{
  Escape, mysql_escape, unquoted_byte, escapes_unquoted, RecordEnding, newline, crlf, ending_byte,
  terminator, is_crlf,
}
use coseva.Emit.Policy.{is_mysql_nulls, is_postgres_nulls, mysql_null}
use coseva.Parse.Spans.{Source, slice}
use coseva.Parse.Engine.{
  Settings, Parser, panicked, exhausted, ◌>>=◌, ◌>>◌, return, engine, slice_of, byte_of, byte_is,
  set_location, note_terminated, clear_terminated, scratch_extend, allow_quote_search, reject,
  scan_end, check_record_limit, check_scan_end, check_scratch_limit,
}
use coseva.Parse.Push.{push_span, push_null_span, mysql_unescape_byte}
use coseva.Parse.Unquoted.{strip_cr}

-- `resume_after_unquoted_escape`
unfoldable pub resume_after_unquoted_escape : Bytes → ℕ → ℕ
resume_after_unquoted_escape input at = elim (get_elem? input (at + 1)) [
  | none ↦ at + 1
  | some b ↦ at + 2
]

-- `earliest`
unfoldable pub earliest : Option ℕ → Option ℕ → Option ℕ
earliest (some a) (some b) = some (if ltb a b then a else b)
earliest (some a) none = some a
earliest none (some b) = some b
earliest none none = none

abbrev or_backslash : Option ℕ → ℕ
or_backslash none = b'\\'
or_backslash (some e) = e

-- `record_ending == RecordEnding::Newline`
abbrev pub bare_lf : RecordEnding → Bool
bare_lf newline = true
bare_lf crlf = false
bare_lf (ending_byte b) = false

-- `escape == Escape::Mysql`
abbrev pub is_mysql : Escape → Bool
is_mysql mysql_escape = true
is_mysql _ = false

module _ (s : Settings) where
  -- the constants of the loop: `EXTRA`, `extra` and `also`
  abbrev pub with_extra : Bool
  with_extra = is_crlf s.dialect.record_ending || escapes_unquoted s.dialect.escape

  abbrev pub extra_byte : ℕ
  extra_byte =
      if is_crlf s.dialect.record_ending
      then b'\r'
      else or_backslash (unquoted_byte s.dialect.escape)

  abbrev pub also_byte : Option ℕ
  also_byte =
      if is_crlf s.dialect.record_ending && escapes_unquoted s.dialect.escape
      then some (or_backslash (unquoted_byte s.dialect.escape))
      else none

  -- the `match (EXTRA, allow_quote_search)`
  abbrev pub find_stop : Bool → Bool → Bytes → Option ℕ
  find_stop true true remaining =
      find4 s.dialect.delimiter s.dialect.quote (terminator s.dialect.record_ending) extra_byte
        remaining
  find_stop true false remaining =
      find3 s.dialect.delimiter (terminator s.dialect.record_ending) extra_byte remaining
  find_stop false true remaining =
      find3 s.dialect.delimiter s.dialect.quote (terminator s.dialect.record_ending) remaining
  find_stop false false remaining =
      find2 s.dialect.delimiter (terminator s.dialect.record_ending) remaining

  unfoldable pub find_stop_byte : Bytes → Option ℕ
  unfolding find1 find2 find3 find4 earliest
  find_stop_byte remaining =
      let found = find_stop with_extra (allow_quote_search s) remaining in
      elim also_byte [ some escape ↦ earliest found (find1 escape remaining) | none ↦ found ]

module _ (s : Settings) (input : Bytes) where
  -- `mysql_unescape_byte` where the dialect is MySQL's
  abbrev pub unescaped : ℕ → ℕ
  unescaped escaped = if is_mysql s.dialect.escape then mysql_unescape_byte escaped else escaped

  -- the escape at `backslash`; `go` goes on with the loop from a cursor
  unfoldable pub unescape_arm : ℕ → ℕ → ℕ → (ℕ → Parser (Unit {0})) → Parser (Unit {0})
  unfolding mysql_unescape_byte
  unescape_arm escape backslash field_end go =
      if ltb (backslash + 1) field_end
      then (do
        escaped ← byte_of input (backslash + 1)
        scratch_extend (unescaped escaped ∷ [])
        go (backslash + 2))
      else (do scratch_extend (escape ∷ []); go (backslash + 1))

  -- The loop of `push_unescaped_span`. Each round takes a byte at least.
  unfoldable pub unescape_loop : ℕ → ℕ → ℕ → ℕ → ℕ → Parser (Unit {0})
  unfolding find1 unescape_arm
  unescape_loop zero escape segment_start cursor field_end e = exhausted
  unescape_loop (suc fuel) escape segment_start cursor field_end e =
      elim (find1 escape (slice input cursor field_end)) [
        | none ↦ (do segment ← slice_of input segment_start field_end; scratch_extend segment) e
        | some relative ↦
            (do
              segment ← slice_of input segment_start (cursor + relative)
              scratch_extend segment
              unescape_arm escape (cursor + relative) field_end
                  (λ next. unescape_loop fuel escape next next field_end))
              e
      ]

  unfoldable pub push_unescaped_span : ℕ → ℕ → ℕ → ℕ → Parser (Unit {0})
  unfolding unescape_loop check_scratch_limit push_span
  push_unescaped_span escape field_start field_end at = do
    before ← engine
    unescape_loop (field_end - field_start + 1) escape field_start field_start field_end
    check_scratch_limit s input (length before.scratch) at
    after ← engine
    push_span s input Source.in_scratch (length before.scratch) (length after.scratch) at false

  -- the escapes of an unquoted field that is no NULL
  unfoldable pub push_escaped_or_raw : ℕ → ℕ → ℕ → Bytes → Parser (Unit {0})
  unfolding push_unescaped_span push_span
  push_escaped_or_raw field_start field_end at raw = elim (unquoted_byte s.dialect.escape) [
    | none ↦ push_span s input Source.in_input field_start field_end at false
    | some escape ↦
        if contains raw escape
        then push_unescaped_span escape field_start field_end at
        else push_span s input Source.in_input field_start field_end at false
  ]

  unfoldable pub push_general_unquoted_span : ℕ → ℕ → ℕ → Bool → Parser (Unit {0})
  unfolding push_null_span push_escaped_or_raw
  push_general_unquoted_span field_start field_end at header = do
    raw ← slice_of input field_start field_end
    if not header && is_mysql_nulls s.nulls && bytes_eq raw mysql_null
        then push_null_span s input field_start
        else if not header && is_postgres_nulls s.nulls && is_empty raw
        then push_null_span s input field_start
        else push_escaped_or_raw field_start field_end at raw

  -- the end of the input or of a limit
  unfoldable pub end_general : ℕ → ℕ → ℕ → Bool → Parser Bool
  unfolding check_scan_end push_general_unquoted_span
  end_general record_start field_start end header = do
    check_scan_end s input end record_start field_start
    push_general_unquoted_span field_start end end header
    set_location end
    clear_terminated
    return true

  -- a separator: the field ends at `field_end`, the next byte to read is at `next`
  unfoldable pub stop_general : ℕ → ℕ → ℕ → ℕ → ℕ → Bool → Bool → Parser Bool
  unfolding push_general_unquoted_span check_record_limit
  stop_general record_start field_start field_end at next header ends = do
    push_general_unquoted_span field_start field_end at header
    set_location next
    if ends then note_terminated else return tt
    check_record_limit s input record_start next
    return ends

-- What the byte at `at` is to the loop: a byte to scan past, the separator that ends the field, or
-- an error.
pub data Stop : Type 0 where
  passes : ℕ → Stop
  separates : ℕ → ℕ → Bool → Stop
  faults : ErrorKind → Stop

module _ (s : Settings) (input : Bytes) where
  -- the tests of the loop's body, in their order
  unfoldable pub general_stop : ℕ → ℕ → ℕ → Stop
  unfolding resume_after_unquoted_escape confirms
  general_stop field_start at byte =
      if holds (unquoted_byte s.dialect.escape) byte
      then passes (resume_after_unquoted_escape input at)
      else if allow_quote_search s && byte == s.dialect.quote
      then faults ErrorKind.unexpected_quote
      else if is_crlf s.dialect.record_ending && byte == b'\r'
      then (if byte_is input (at + 1) b'\n'
          then separates at (at + 2) true
          else faults (ErrorKind.invalid_record_ending b'\r'))
      else if byte == terminator s.dialect.record_ending
      then (if is_crlf s.dialect.record_ending
          then faults (ErrorKind.invalid_record_ending b'\n')
          else if not (confirms s.dialect.ending_tail (drop (at + 1) input))
          then passes (at + 1)
          else separates (strip_cr input (bare_lf s.dialect.record_ending) field_start at)
              (at + width s.dialect.ending_tail) true)
      else if not (confirms s.dialect.delimiter_tail (drop (at + 1) input))
      then passes (at + 1)
      else separates at (at + width s.dialect.delimiter_tail) false

  -- the end of the body; `go` goes on with the loop from a cursor
  unfoldable pub general_arm : ℕ → ℕ → ℕ → Bool → (ℕ → Parser Bool) → Stop → Parser Bool
  unfolding stop_general reject
  general_arm record_start field_start at header go (passes next) = go next
  general_arm record_start field_start at header go (faults kind) = reject s input kind at
  general_arm record_start field_start at header go (separates field_end next ends) =
      stop_general s input record_start field_start field_end at next header ends

  -- The loop of `general_unquoted_field`. Each round takes a byte at least, or moves to the end.
  unfoldable pub general_loop : ℕ → ℕ → ℕ → ℕ → Bool → Parser Bool
  unfolding scan_end find_stop_byte general_stop end_general general_arm
  general_loop zero record_start field_start cursor header e = exhausted
  general_loop (suc fuel) record_start field_start cursor header e =
      let end = scan_end s input record_start field_start in
      elim (ltb cursor end) [
        | false ↦ end_general s input record_start field_start end header e
        | true ↦ elim (find_stop_byte s (slice input cursor end)) [
          | none ↦ general_loop fuel record_start field_start end header e
          | some relative ↦
              let at = cursor + relative in
              elim (get_elem? input at) [
                | none ↦ panicked
                | some byte ↦
                    general_arm record_start field_start at header
                      (λ next. general_loop fuel record_start field_start next header)
                      (general_stop field_start at byte) e
              ]
        ]
      ]

  unfoldable pub parse_general_unquoted_field : ℕ → Bool → Parser Bool
  unfolding general_loop
  parse_general_unquoted_field record_start header e =
      general_loop (length input + 2) record_start e.location e.location header e
