-- ===== src/Tests/Parse.antt =====
-- The parser at concrete inputs: what it reads, what it does on the limits, and its theorems.
use coseva.Prelude.{
  [], ◌∷◌, ◌++◌, ◌≡◌, refl, inl, List, Bool, true, false, Option, none, some, inr, Bytes, arith,
}
use coseva.Config.Options.{
  default_limits, unquoted, crlf, compatible, permissive, Nulls, BlankRecords, no_whitespace,
  strict, FieldCount, Quoting, quoting_enabled, permits_trailing_whitespace,
  permits_unquoted_quotes,
}
use coseva.Config.Dialect.{csv, invalidity, multibyte}
use coseva.Config.Dialect.Sound.{IsUsable, invalidity-IsUsable}
use coseva.Emit.Writer.{written}
use coseva.Emit.Record.{emit_record_runtime, emit_nullable_record_runtime}
use coseva.Parse.Spans.{resolve_span}
use coseva.Parse.Engine.{Settings, Engine, Parsed, parsed, rejected, panicked, exhausted}
use coseva.Parse.Framing.{new_resume, fill_record_spans}
use coseva.Parse.Fields.{fields_of, parse_record_fields, parse_positioned_record}
use coseva.Parse.Outcome.{Ends}
use coseva.Error.{Error, ErrorKind}
use coseva.Config.Dialect.{Dialect}
use coseva.Parse.Engine.{error_for}
use coseva.Parse.Sound.Framing.{IsNext, fill_record_spans-Ends}
use coseva.Parse.Sound.Failure.{fill_record_spans-rejected}
use coseva.Parse.Sound.Positioned.{IsRead, parse_positioned_record-Ends}
use coseva.Parse.Rounds.Record.{ReadsQuoted, FitsLimits}
use coseva.Parse.Rounds.Document.{Fields, EmitsAll, YieldsAll, emit_record_runtime-YieldsAll}
use coseva.Parse.Rounds.Emitted.{Yields, emit_record_runtime-parse_positioned_record}

abbrev plain_settings : Settings
plain_settings = record {
  dialect = csv;
  syntax = strict;
  nulls = Nulls.no_nulls;
  limits = default_limits;
  trim = no_whitespace;
  blank_records = BlankRecords.preserve;
  skip_initial_space = false;
  field_count = FieldCount.flexible;
  line_base = 1;
  line_origin = 0;
}

abbrev start : Engine
start = record {
  location = 0;
  spans = [];
  scratch = [];
  input_len = 0;
  record_index = 0;
  expected_fields = none;
  terminated = false;
  failed = false;
  resume = new_resume;
}

-- `a,"b""c"` and a line end
abbrev text : Bytes
text = b'a' ∷ b',' ∷ b'"' ∷ b'b' ∷ b'"' ∷ b'"' ∷ b'c' ∷ b'"' ∷ b'\n' ∷ []

abbrev seen {ℓ} : {A : Type ℓ} → Bytes → Parsed A → Option (List Bytes)
seen input (parsed e a) = some (fields_of input e)
seen input (rejected e error) = none
seen input panicked = none
seen input exhausted = none

reads_two_fields :
    seen text (fill_record_spans plain_settings text false start)
    ≡ some ((b'a' ∷ []) ∷ (b'b' ∷ b'"' ∷ b'c' ∷ []) ∷ [])
unfolding fill_record_spans multibyte quoting_enabled permits_unquoted_quotes
    permits_trailing_whitespace resolve_span
reads_two_fields = refl

-- `"ab",b`: the closing quote is the last byte that a record limit of three bytes leaves
abbrev quoted_to_limit : Bytes
quoted_to_limit = b'"' ∷ b'a' ∷ b'b' ∷ b'"' ∷ b',' ∷ b'b' ∷ []

abbrev short_records : Settings
short_records = record plain_settings { limits = record default_limits { max_record_bytes = 3 } }

location_passes_record_limit :
    parse_record_fields short_records quoted_to_limit 0 false (record start { input_len = 6 })
    ≡ panicked
unfolding parse_record_fields quoting_enabled permits_trailing_whitespace multibyte
location_passes_record_limit = refl

-- `"""aa""b"`: the second doubled quote straddles a field limit of four bytes, and the field
-- copied so far is shorter than that
abbrev escaped_to_limit : Bytes
escaped_to_limit = b'"' ∷ b'"' ∷ b'"' ∷ b'a' ∷ b'a' ∷ b'"' ∷ b'"' ∷ b'b' ∷ b'"' ∷ []

abbrev short_fields : Settings
short_fields = record plain_settings { limits = record default_limits { max_field_bytes = 4 } }

cursor_passes_field_limit :
    parse_record_fields short_fields escaped_to_limit 0 false (record start { input_len = 9 })
    ≡ panicked
unfolding parse_record_fields quoting_enabled
cursor_passes_field_limit = refl

abbrev no_floats : Bytes → Bool
no_floats _ = false

csv-IsUsable : IsUsable csv
unfolding invalidity
csv-IsUsable = (invalidity-IsUsable csv).0 refl

-- `"a"` in front, `"b""c","d"` written, `e` behind
abbrev in_front : Bytes
in_front = b'"' ∷ b'a' ∷ b'"' ∷ b'\n' ∷ []

abbrev fields : List Bytes
fields = (b'd' ∷ []) ∷ []

abbrev after_emit : Bytes
after_emit =
    b'"' ∷ b'a' ∷ b'"' ∷ b'\n' ∷ b'"' ∷ b'b' ∷ b'"' ∷ b'"' ∷ b'c' ∷ b'"' ∷ b',' ∷ b'"' ∷ b'd' ∷ b'"'
    ∷ b'\n' ∷ []

emits_two_fields :
    emit_record_runtime no_floats csv Quoting.always ((b'b' ∷ b'"' ∷ b'c' ∷ []) ∷ fields) in_front
    ≡ written after_emit 2
unfolding emit_record_runtime
emits_two_fields = refl

-- limits of eleven bytes a record and four a field, which the second record meets
abbrev tight_settings : Settings
tight_settings = record plain_settings {
  limits = record { max_record_bytes = 11; max_field_bytes = 4; max_fields = 2 };
}

tight-ReadsQuoted : ReadsQuoted tight_settings
unfolding quoting_enabled permits_trailing_whitespace
tight-ReadsQuoted = record {
  usable = csv-IsUsable;
  quotes = refl;
  quoting = refl;
  exact = refl;
  spaces = refl;
  flexible = refl;
}

abbrev two_records : List Fields
two_records = (b'a' ∷ [], []) ∷ (b'b' ∷ b'"' ∷ b'c' ∷ [], fields) ∷ []

emits_one_field :
    emit_record_runtime no_floats csv Quoting.always ((b'a' ∷ []) ∷ []) [] ≡ written in_front 1
unfolding emit_record_runtime
emits_one_field = refl

first-FitsLimits : FitsLimits tight_settings (b'a' ∷ []) []
first-FitsLimits = record {
  count = omega arith;
  size = omega arith;
  each_field = (omega arith, tt);
}

second-FitsLimits : FitsLimits tight_settings (b'b' ∷ b'"' ∷ b'c' ∷ []) fields
second-FitsLimits = record {
  count = omega arith;
  size = omega arith;
  each_field = (omega arith, (omega arith, tt));
}

two_records-EmitsAll : EmitsAll no_floats csv two_records [] after_emit
two_records-EmitsAll = (in_front, 1, emits_one_field, (after_emit, 2, emits_two_fields, refl))

emit_record_runtime-YieldsAll_example :
    YieldsAll tight_settings (after_emit ++ b'e' ∷ []) false start 0 15 two_records
emit_record_runtime-YieldsAll_example =
    emit_record_runtime-YieldsAll no_floats tight_settings false two_records [] after_emit
      (b'e' ∷ []) start two_records-EmitsAll tight-ReadsQuoted (omega arith)
      (first-FitsLimits, (second-FitsLimits, tt)) refl refl

emit_record_runtime-parse_positioned_record_example :
    Yields tight_settings
      (after_emit ++ b'e' ∷ [])
      false
      (record start { location = 4 })
      4
      15
      ((b'b' ∷ b'"' ∷ b'c' ∷ []) ∷ fields)
emit_record_runtime-parse_positioned_record_example =
    emit_record_runtime-parse_positioned_record no_floats tight_settings false in_front after_emit
      (b'e' ∷ []) (b'b' ∷ b'"' ∷ b'c' ∷ []) fields 2 (record start { location = 4 })
      emits_two_fields tight-ReadsQuoted (omega arith) second-FitsLimits refl refl

-- a dialect of the general scan, under limits that the text does not keep
abbrev with_crlf : Dialect
with_crlf = record csv { record_ending = crlf }

with_crlf-IsUsable : IsUsable with_crlf
unfolding invalidity
with_crlf-IsUsable = (invalidity-IsUsable with_crlf).0 refl

abbrev three_bytes : Settings
three_bytes = record plain_settings {
  dialect = with_crlf;
  limits = record { max_record_bytes = 3; max_field_bytes = 3; max_fields = 2 };
}

parse_positioned_record-Ends_example :
    Ends (IsRead three_bytes text start) (parse_positioned_record three_bytes text false start)
parse_positioned_record-Ends_example =
    parse_positioned_record-Ends three_bytes text start false
      (record {
        usable = with_crlf-IsUsable;
        quoted_fields = inl (omega arith);
        unquoted_fields = inl refl;
      })
      (omega arith)

-- `#c`, a blank line and `a`, where `#` opens a comment and blank lines are skipped
abbrev with_comment : Dialect
with_comment = record csv { comment = some b'#' }

with_comment-IsUsable : IsUsable with_comment
unfolding invalidity
with_comment-IsUsable = (invalidity-IsUsable with_comment).0 refl

abbrev skipping : Settings
skipping = record plain_settings { dialect = with_comment; blank_records = BlankRecords.skip }

abbrev commented : Bytes
commented = b'#' ∷ b'c' ∷ b'\n' ∷ b'\n' ∷ b'a' ∷ b'\n' ∷ []

reads_behind_comment :
    seen commented (fill_record_spans skipping commented false start) ≡ some ((b'a' ∷ []) ∷ [])
unfolding fill_record_spans multibyte quoting_enabled permits_unquoted_quotes resolve_span
reads_behind_comment = refl

fill_record_spans-Ends_example :
    Ends (IsNext skipping commented start) (fill_record_spans skipping commented false start)
fill_record_spans-Ends_example =
    fill_record_spans-Ends skipping commented
      (record {
        usable = with_comment-IsUsable;
        quoted_fields = inr (omega arith);
        unquoted_fields = inr (omega arith);
      })
      start false (omega arith) (λ z. cc)

-- a quoted field without its end
abbrev unterminated : Bytes
unterminated = b'"' ∷ b'a' ∷ []

abbrev after_failure : Engine
after_failure = record start { input_len = 2; failed = true }

abbrev reported : Error
reported = error_for plain_settings unterminated ErrorKind.unterminated_quoted_field 2 0 start

fails_unterminated :
    fill_record_spans plain_settings unterminated false start ≡ rejected after_failure reported
unfolding fill_record_spans multibyte quoting_enabled
fails_unterminated = refl

fill_record_spans-rejected_example :
    fill_record_spans plain_settings text true after_failure
    ≡ rejected after_failure
        (error_for plain_settings text ErrorKind.parser_failed 0 0 after_failure)
fill_record_spans-rejected_example =
    fill_record_spans-rejected plain_settings unterminated text false true start after_failure
      reported fails_unterminated

-- an escape outside quotes and a line end spelled `\n`: the writer leaves a carriage return at the
-- end of a field as it is, and the reader takes it for a part of the line end
abbrev escaping : Dialect
escaping = record csv { escape = unquoted b'\\' }

writes_carriage_return :
    emit_nullable_record_runtime no_floats escaping Quoting.never Nulls.no_nulls
      (some (b'a' ∷ b'\r' ∷ []) ∷ [])
      []
    ≡ written (b'a' ∷ b'\r' ∷ b'\n' ∷ []) 1
unfolding emit_nullable_record_runtime
writes_carriage_return = refl

reads_no_carriage_return :
    seen (b'a' ∷ b'\r' ∷ b'\n' ∷ []) (
      fill_record_spans
        (record plain_settings { dialect = escaping })
        (b'a' ∷ b'\r' ∷ b'\n' ∷ [])
        false
        start)
    ≡ some ((b'a' ∷ []) ∷ [])
unfolding fill_record_spans multibyte quoting_enabled permits_unquoted_quotes resolve_span
reads_no_carriage_return = refl

-- TSV with the recovery of whitespace behind a quote: the reader skips the separator
abbrev lenient_tsv : Settings
lenient_tsv = record plain_settings {
  dialect = record csv { delimiter = b'\t' };
  syntax = compatible permissive;
}

abbrev two_tsv_fields : Bytes
two_tsv_fields = b'"' ∷ b'a' ∷ b'"' ∷ b'\t' ∷ b'"' ∷ b'b' ∷ b'"' ∷ b'\n' ∷ []

separator_skipped :
    seen two_tsv_fields (fill_record_spans lenient_tsv two_tsv_fields false start) ≡ none
unfolding fill_record_spans quoting_enabled multibyte permits_trailing_whitespace
separator_skipped = refl

-- a carriage return as the escape of a CRLF dialect, which passes the validation
abbrev escaping_cr : Dialect
escaping_cr = record csv { record_ending = crlf; escape = unquoted b'\r' }

escaping_cr_valid : invalidity escaping_cr ≡ none
unfolding invalidity
escaping_cr_valid = refl

abbrev two_crlf_records : Bytes
two_crlf_records = b'a' ∷ b'\r' ∷ b'\n' ∷ b'b' ∷ b'\r' ∷ b'\n' ∷ []

read_as_one :
    seen two_crlf_records (
      fill_record_spans
        (record plain_settings { dialect = escaping_cr })
        two_crlf_records
        false
        start)
    ≡ some ((b'a' ∷ b'\n' ∷ b'b' ∷ b'\n' ∷ []) ∷ [])
unfolding fill_record_spans multibyte quoting_enabled permits_unquoted_quotes resolve_span
read_as_one = refl
