-- ===== src/Parse/Engine.antt =====
-- crates/coseva/src/engine.rs and engine/limits.rs: what the parser is set up with, the state it
-- keeps, how an operation ends, and the checks of the limits with the errors they report.
use coseva.Prelude.{
  ℕ, zero, suc, ◌+◌, ◌-◌, ◌^◌, min, Bool, true, false, List, [], ◌∷◌, ◌++◌, Option, none, some,
  ◌&&◌, ◌||◌, not, ltb, leb, ◌==◌, if◌then◌else◌, Bytes, length, get_elem?,
}
use coseva.Error.{Error, ErrorKind, new_error}
use coseva.Config.Options.{
  Limits, Nulls, FieldCount, BlankRecords, Whitespace, Syntax, exempts_quoted, escapes_unquoted,
  is_crlf, is_newline, quoting_enabled, permits_unquoted_quotes,
}
use coseva.Config.Dialect.{Dialect, multibyte}
use coseva.Parse.Spans.{Span, slice}

-- the fields of `Engine` that parsing only reads
pub record Settings : Type 0 where
  pub dialect : Dialect
  pub syntax : Syntax
  pub nulls : Nulls
  pub limits : Limits
  pub trim : Whitespace
  pub blank_records : BlankRecords
  pub skip_initial_space : Bool
  pub field_count : FieldCount
  pub line_base : ℕ
  pub line_origin : ℕ

-- `ResumeState`, whose offsets are `usize::MAX` where it keys to no record
pub record ResumeState : Type 0 where
  pub record_start : ℕ
  pub scanned_to : ℕ
  pub field_start : ℕ
  pub in_quotes : Bool
  pub ignored : Bool

-- and those that it changes; `spans`, `scratch` and `input_len` are its `SpanStorage`
pub record Engine : Type 0 where
  pub location : ℕ
  pub spans : List Span
  pub scratch : Bytes
  pub input_len : ℕ
  pub record_index : ℕ
  pub expected_fields : Option ℕ
  pub terminated : Bool
  pub failed : Bool
  pub resume : ResumeState

-- How an operation ends: a value or an error, with the state that it leaves; a panic; or with its
-- fuel used up, which the theorems on termination rule out.
pub data Parsed {ℓ} (A : Type ℓ) : Type ℓ where
  parsed : Engine → A → Parsed A
  rejected : Engine → Error → Parsed A
  panicked : Parsed A
  exhausted : Parsed A

abbrev pub Parser {ℓ} : Type ℓ → Type ℓ
Parser A = Engine → Parsed A

infixl 5 ◌>>=◌ ◌>>◌
abbrev pub ◌>>=◌ {ℓ κ} : {A : Type ℓ} {B : Type κ} → Parser A → (A → Parser B) → Parser B
◌>>=◌ m f e = elim (m e) [
  | parsed e' a ↦ f a e'
  | rejected e' error ↦ rejected e' error
  | panicked ↦ panicked
  | exhausted ↦ exhausted
]

abbrev pub ◌>>◌ {ℓ} : {B : Type ℓ} → Parser (Unit {0}) → Parser B → Parser B
m >> k = m >>= λ _. k

abbrev pub return {ℓ} : {A : Type ℓ} → A → Parser A
return a e = parsed e a

abbrev pub engine : Parser Engine
engine e = parsed e e

abbrev pub panic {ℓ} : {A : Type ℓ} → Parser A
panic e = panicked

-- `&input[start..end]`, which panics out of range, and `input[at]`
abbrev pub slice_of : Bytes → ℕ → ℕ → Parser Bytes
slice_of bytes start end e =
    if leb start end && leb end (length bytes) then parsed e (slice bytes start end) else panicked

abbrev pub byte_of : Bytes → ℕ → Parser ℕ
byte_of bytes at e = elim (get_elem? bytes at) [ none ↦ panicked | some b ↦ parsed e b ]

-- `input.get(at) == Some(&byte)`
abbrev pub byte_is : Bytes → ℕ → ℕ → Bool
byte_is input at byte = elim (get_elem? input at) [ none ↦ false | some b ↦ b == byte ]

-- the assignments to `self`
abbrev pub set_location : ℕ → Parser (Unit {0})
set_location at e = parsed (record e { location = at }) tt

abbrev pub note_terminated : Parser (Unit {0})
note_terminated e = parsed (record e { terminated = true }) tt

abbrev pub clear_terminated : Parser (Unit {0})
clear_terminated e = parsed (record e { terminated = false }) tt

abbrev pub scratch_extend : Bytes → Parser (Unit {0})
scratch_extend bytes e = parsed (record e { scratch = e.scratch ++ bytes }) tt

-- `count1`
abbrev pub count1 : ℕ → Bytes → ℕ
count1 byte [] = 0
count1 byte (x ∷ xs) = (if x == byte then 1 else 0) + count1 byte xs

-- `physical_line`, whose sum saturates
unfoldable pub physical_line : Bytes → ℕ → ℕ → ℕ → ℕ
physical_line input line_base line_origin byte =
    let end = min byte (length input) in
    min (line_base + count1 b'\n' (slice input (min line_origin end) end)) (2 ^ 64 - 1)

abbrev pub needs_general_parsing : Dialect → Whitespace → Bool
needs_general_parsing d trim =
    is_crlf d.record_ending || escapes_unquoted d.escape || multibyte d || exempts_quoted trim

-- `fmt_strips_cr` and `allow_quote_search`
abbrev pub strips_cr : Settings → Bool
strips_cr s = is_newline s.dialect.record_ending

abbrev pub allow_quote_search : Settings → Bool
allow_quote_search s = quoting_enabled s.syntax && not (permits_unquoted_quotes s.syntax)

module _ (s : Settings) (input : Bytes) where
  unfoldable pub error_for : ErrorKind → ℕ → ℕ → Engine → Error
  unfolding physical_line
  error_for kind byte field e = new_error kind (record {
    byte = byte;
    line = physical_line input s.line_base s.line_origin byte;
    record_index = e.record_index;
    field = field;
  })

  -- `return Err(self.error(input, kind, byte))`
  unfoldable pub reject {ℓ} : {A : Type ℓ} → ErrorKind → ℕ → Parser A
  unfolding error_for
  reject kind byte e = rejected e (error_for kind byte (length e.spans) e)

  -- The two saturating sums never fall below the input's length where they saturate.
  unfoldable pub scan_end : ℕ → ℕ → ℕ
  scan_end record_start field_start = min (length input) (
      min (record_start + (s.limits.max_record_bytes + 1))
        (field_start + (s.limits.max_field_bytes + 1)))

  -- `at - record_start` overflows where `at` lies before the record.
  unfoldable pub check_record_limit_for : ℕ → ℕ → ℕ → Parser (Unit {0})
  unfolding error_for
  check_record_limit_for record_start at field e =
      if ltb at record_start
      then panicked
      else if ltb s.limits.max_record_bytes (at - record_start)
      then rejected e (error_for (ErrorKind.record_too_large s.limits.max_record_bytes) at field e)
      else parsed e tt

  unfoldable pub check_record_limit : ℕ → ℕ → Parser (Unit {0})
  unfolding check_record_limit_for
  check_record_limit record_start at e = check_record_limit_for record_start at (length e.spans) e

  unfoldable pub check_scan_end_for : ℕ → ℕ → ℕ → ℕ → Parser (Unit {0})
  unfolding check_record_limit_for error_for
  check_scan_end_for at record_start field_start field e =
      if leb field_start at && ltb s.limits.max_field_bytes (at - field_start)
      then rejected e (error_for (ErrorKind.field_too_large s.limits.max_field_bytes) at field e)
      else check_record_limit_for record_start at field e

  unfoldable pub check_scan_end : ℕ → ℕ → ℕ → Parser (Unit {0})
  unfolding check_scan_end_for
  check_scan_end at record_start field_start e =
      check_scan_end_for at record_start field_start (length e.spans) e

  -- `scratch_len - scratch_start` overflows where the scratch has shrunk.
  unfoldable pub check_scratch_limit_for : ℕ → ℕ → ℕ → ℕ → Parser (Unit {0})
  unfolding error_for
  check_scratch_limit_for scratch_start scratch_len at field e =
      if ltb scratch_len scratch_start
      then panicked
      else if ltb s.limits.max_field_bytes (scratch_len - scratch_start)
      then rejected e (error_for (ErrorKind.field_too_large s.limits.max_field_bytes) at field e)
      else parsed e tt

  unfoldable pub check_scratch_limit : ℕ → ℕ → Parser (Unit {0})
  unfolding check_scratch_limit_for
  check_scratch_limit scratch_start at e =
      check_scratch_limit_for scratch_start (length e.scratch) at (length e.spans) e

  -- the loop of `skip_delimiter_spaces_for`; each round takes a byte
  unfoldable pub skip_spaces_loop : ℕ → ℕ → ℕ → Parser (Unit {0})
  unfolding check_record_limit_for
  skip_spaces_loop zero record_start field e = exhausted
  skip_spaces_loop (suc fuel) record_start field e = elim (byte_is input e.location b' ') [
    | false ↦ parsed e tt
    | true ↦
        (do
          set_location (e.location + 1)
          check_record_limit_for record_start (e.location + 1) field
          skip_spaces_loop fuel record_start field)
          e
  ]

  unfoldable pub skip_delimiter_spaces : ℕ → Parser (Unit {0})
  unfolding skip_spaces_loop
  skip_delimiter_spaces record_start e =
      if not s.skip_initial_space || e.location == record_start
      then parsed e tt
      else skip_spaces_loop (length input + 1) record_start (length e.spans) e

  -- `actual == expected`, or the error
  unfoldable pub expect_count : ℕ → ℕ → Parser (Unit {0})
  unfolding reject
  expect_count expected actual e =
      if actual == expected
      then parsed e tt
      else reject (ErrorKind.field_count_mismatch expected actual) e.location e

  -- the `match self.field_count`, on the count that the first record left
  unfoldable pub count_by : FieldCount → Option ℕ → ℕ → Parser (Unit {0})
  unfolding expect_count
  count_by FieldCount.flexible first actual e = parsed e tt
  count_by (FieldCount.exact expected) first actual e = expect_count expected actual e
  count_by FieldCount.match_first none actual e =
      parsed (record e { expected_fields = some actual }) tt
  count_by FieldCount.match_first (some expected) actual e = expect_count expected actual e

  unfoldable pub validate_field_count : ℕ → Parser (Unit {0})
  unfolding count_by
  validate_field_count actual e = count_by s.field_count e.expected_fields actual e
