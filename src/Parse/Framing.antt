-- ===== src/Parse/Framing.antt =====
-- crates/coseva/src/engine/framing.rs and limits.rs: where a record ends, the comments and blank
-- lines before it, and the reading of the next record.
use coseva.Prelude.{
  ℕ, zero, suc, ◌+◌, ◌-◌, ◌^◌, max, Bool, true, false, Option, none, some, not, ◌&&◌, ◌||◌, ltb,
  leb, ◌==◌, if◌then◌else◌, Bytes, length, drop,
}
use coseva.Error.{ErrorKind}
use coseva.Search.{find1, is_some}
use coseva.Config.Tail.{Tail, confirms, width}
use coseva.Config.Options.{RecordEnding, newline, crlf, ending_byte, terminator, BlankRecords}
use coseva.Config.Dialect.{Dialect}
use coseva.Parse.Engine.{
  Settings, Engine, ResumeState, Parser, parsed, rejected, panicked, exhausted, ◌>>=◌, ◌>>◌, return,
  engine, byte_is, reject,
}
use coseva.Parse.Fields.{parse_positioned_record}

-- `NO_OFFSET` on a 64-bit target, and the constructors of `ResumeState`
abbrev pub no_offset : ℕ
no_offset = 2 ^ 64 - 1

abbrev pub new_resume : ResumeState
new_resume = record {
  record_start = no_offset;
  scanned_to = no_offset;
  field_start = no_offset;
  in_quotes = false;
  ignored = false;
}

abbrev pub fresh : ℕ → ResumeState
fresh record_start = record {
  record_start = record_start;
  scanned_to = record_start;
  field_start = record_start;
  in_quotes = false;
  ignored = false;
}

abbrev pub ignored_at : ℕ → ℕ → ResumeState
ignored_at record_start scanned_to = record {
  record_start = record_start;
  scanned_to = scanned_to;
  field_start = record_start;
  in_quotes = false;
  ignored = true;
}

-- `input.get(at..at + 2) == Some(b"\r\n")`
abbrev pub crlf_at : Bytes → ℕ → Bool
crlf_at input at = byte_is input at b'\r' && byte_is input (at + 1) b'\n'

-- the `match` of `record_ending_width_at`
unfoldable pub record_ending_width : RecordEnding → Tail → Bytes → ℕ → Option ℕ
unfolding confirms
record_ending_width newline tail input at =
    if byte_is input at b'\n' then some 1 else if crlf_at input at then some 2 else none
record_ending_width crlf tail input at = if crlf_at input at then some 2 else none
record_ending_width (ending_byte byte) tail input at =
    if byte_is input at byte && confirms tail (drop (at + 1) input) then some (width tail) else none

-- whether the lead byte at `at` ends a record, in a search that began at `start`
unfoldable pub confirmed : RecordEnding → Tail → Bytes → ℕ → ℕ → Bool
unfolding confirms
confirmed newline tail input start at = true
confirmed crlf tail input start at = ltb start at && byte_is input (at - 1) b'\r'
confirmed (ending_byte byte) tail input start at = confirms tail (drop (at + 1) input)

abbrev pub is_skip : BlankRecords → Bool
is_skip BlankRecords.preserve = false
is_skip BlankRecords.skip = true

-- The result of a loop on fuel: `none` is out of fuel, and `some none` is the code's `None`.
unfoldable pub find_ending_loop : ℕ → Dialect → Bytes → ℕ → ℕ → Option (Option ℕ)
unfolding find1 confirmed
find_ending_loop zero d input start search_start = none
find_ending_loop (suc fuel) d input start search_start =
    if ltb (length input) search_start
    then some none
    else elim (find1 (terminator d.record_ending) (drop search_start input)) [
      | none ↦ some none
      | some relative ↦
          let at = search_start + relative in
          elim (confirmed d.record_ending d.ending_tail input start at) [
            | true ↦ some (some (at + width d.ending_tail))
            | false ↦ find_ending_loop fuel d input start (at + 1)
          ]
    ]

-- Each round passes a byte of the input.
unfoldable pub find_record_ending : Dialect → Bytes → ℕ → Option (Option ℕ)
unfolding find_ending_loop
find_record_ending d input start = find_ending_loop (length input + 1) d input start start

module _ (s : Settings) (input : Bytes) where
  unfoldable pub blank_lines_loop : ℕ → Parser (Unit {0})
  unfolding record_ending_width
  blank_lines_loop zero e = exhausted
  blank_lines_loop (suc fuel) e =
      elim (record_ending_width s.dialect.record_ending s.dialect.ending_tail input e.location) [
        | none ↦ parsed e tt
        | some step ↦ blank_lines_loop fuel (record e { location = e.location + step })
      ]

  unfoldable pub skip_blank_lines : Parser (Unit {0})
  unfolding blank_lines_loop
  skip_blank_lines e = elim s.blank_records [
    | BlankRecords.preserve ↦ parsed e tt
    | BlankRecords.skip ↦ blank_lines_loop (length input + 1) e
  ]

  -- a checkpoint inside a comment that starts here
  abbrev pub resuming : Engine → Bool
  resuming e =
      e.resume.ignored
      && e.resume.record_start == e.location
      && leb e.resume.scanned_to (length input)

  -- the overlap that the next, wider window scans again
  abbrev pub incomplete_comment : Engine → Engine
  incomplete_comment e = record e {
    location = length input;
    resume =
        ignored_at e.location (max (length input - max (width s.dialect.ending_tail) 2) e.location);
  }

  -- The loop of `skip_comments`. Each round takes a byte at least.
  unfoldable pub comments_loop : ℕ → ℕ → Parser (Unit {0})
  unfolding find_record_ending
  comments_loop zero comment e = exhausted
  comments_loop (suc fuel) comment e = elim (resuming e || byte_is input e.location comment) [
    | false ↦ parsed e tt
    | true ↦
        elim (find_record_ending s.dialect input
          (if resuming e then e.resume.scanned_to else e.location)) [
            | none ↦ exhausted
            | some none ↦ parsed (incomplete_comment e) tt
            | some (some end) ↦
                comments_loop fuel comment (record e { location = end; resume = new_resume })
          ]
  ]

  unfoldable pub skip_comments : Parser (Unit {0})
  unfolding comments_loop
  skip_comments e = elim s.dialect.comment [
    | none ↦ parsed e tt
    | some comment ↦ comments_loop (length input + 2) comment e
  ]

  -- The loop of `skip_ignored_records`, with its flag: until a round moves nothing.
  unfoldable pub ignored_loop : ℕ → Bool → Parser Bool
  unfolding skip_comments skip_blank_lines
  ignored_loop zero skipped e = exhausted
  ignored_loop (suc fuel) skipped e = elim ((do skip_comments; skip_blank_lines) e) [
    | rejected e' error ↦ rejected e' error
    | panicked ↦ panicked
    | exhausted ↦ exhausted
    | parsed e' done ↦ elim (e'.location == e.location) [
      | true ↦ parsed e' skipped
      | false ↦ ignored_loop fuel true e'
    ]
  ]

  unfoldable pub skip_ignored_records : Parser (Unit {0})
  unfolding ignored_loop
  skip_ignored_records e =
      (do
        skipped ← ignored_loop (length input + 2) e.resume.ignored
        λ e'.
            parsed
              (if skipped && not e'.resume.ignored
                then record e' { resume = fresh e'.location }
                else e')
              tt)
        e

  -- `comment.is_some() || blank_records == BlankRecords::Skip`
  abbrev pub skips_records : Bool
  skips_records = is_some s.dialect.comment || is_skip s.blank_records

  -- the range and the index of the next record, or `none` at the end of the input
  unfoldable pub fill_record_spans : Bool → Parser (Option (ℕ × ℕ × ℕ))
  unfolding skip_ignored_records parse_positioned_record reject
  fill_record_spans header e =
      if e.failed
      then reject s input ErrorKind.parser_failed e.location e
      else (do
        if skips_records then skip_ignored_records else return tt
        before ← engine
        if before.location == length input
            then return none
            else (do found ← parse_positioned_record s input header; return (some found)))
          e
