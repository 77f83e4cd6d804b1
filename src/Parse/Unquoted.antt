-- ===== src/Parse/Unquoted.antt =====
-- crates/coseva/src/engine/borrowed_parser.rs: an unquoted field of a dialect that neither escapes
-- outside quotes nor has separators of several bytes.
use coseva.Prelude.{
  ℕ, ◌+◌, ◌-◌, Bool, true, false, Option, none, some, ◌&&◌, ltb, ◌==◌, if◌then◌else◌, Bytes,
}
use coseva.Error.{ErrorKind}
use coseva.Search.{find2, find3}
use coseva.Config.Options.{terminator}
use coseva.Parse.Spans.{Source}
use coseva.Parse.Engine.{
  Settings, Parser, ◌>>=◌, ◌>>◌, return, engine, slice_of, byte_of, byte_is, set_location,
  note_terminated, clear_terminated, strips_cr, allow_quote_search, reject, scan_end,
  check_record_limit, check_scan_end,
}
use coseva.Parse.Push.{push_span}

-- `input[at - 1] == b'\r'` behind `at > field_start`
abbrev pub strip_cr : Bytes → Bool → ℕ → ℕ → ℕ
strip_cr input strips field_start at =
    if strips && ltb field_start at && byte_is input (at - 1) b'\r' then at - 1 else at

-- the search of `parse_unquoted_field_runtime`
unfoldable pub find_special : Settings → Bytes → Option ℕ
unfolding find2 find3
find_special s remaining =
    if allow_quote_search s
    then find3 s.dialect.delimiter s.dialect.quote (terminator s.dialect.record_ending) remaining
    else find2 s.dialect.delimiter (terminator s.dialect.record_ending) remaining

module _ (s : Settings) (input : Bytes) where
  -- the end of the input or of a limit, where no special byte stands before it
  unfoldable pub end_unquoted : ℕ → ℕ → ℕ → Parser Bool
  unfolding check_scan_end push_span
  end_unquoted record_start field_start end = do
    check_scan_end s input end record_start field_start
    push_span s input Source.in_input field_start end end false
    set_location end
    clear_terminated
    return true

  unfoldable pub stop_unquoted : ℕ → ℕ → ℕ → ℕ → Parser Bool
  unfolding push_span check_record_limit reject
  stop_unquoted record_start field_start at byte =
      if byte == s.dialect.quote then reject s input ErrorKind.unexpected_quote at else (do
        let terminated = byte == terminator s.dialect.record_ending
        push_span s input Source.in_input field_start
            (strip_cr input (terminated && strips_cr s) field_start at) at false
        set_location (at + 1)
        if terminated then note_terminated else return tt
        check_record_limit s input record_start (at + 1)
        return terminated)

  -- the `let Some(at) = special else`
  unfoldable pub after_search : ℕ → ℕ → ℕ → Option ℕ → Parser Bool
  unfolding end_unquoted stop_unquoted
  after_search record_start field_start end none = end_unquoted record_start field_start end
  after_search record_start field_start end (some relative) = do
    byte ← byte_of input (field_start + relative)
    stop_unquoted record_start field_start (field_start + relative) byte

  unfoldable pub parse_unquoted_field_runtime : ℕ → Parser Bool
  unfolding find_special after_search scan_end
  parse_unquoted_field_runtime record_start = do
    e ← engine
    let field_start = e.location
    let end = scan_end s input record_start field_start
    remaining ← slice_of input field_start end
    after_search record_start field_start end (find_special s remaining)
