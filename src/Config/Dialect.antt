-- ===== src/Config/Dialect.antt =====
-- config/dialect.rs: the structural bytes, and what makes a dialect unusable.
pub mod Sound
use coseva.Prelude.{
  ℕ, Bool, true, false, Option, none, some, String, not, ◌&&◌, ◌||◌, ◌==◌, any, holds,
  if◌then◌else◌,
}
use coseva.Error.{Error, ErrorKind, detailed, Result, ok, err}
use coseva.Config.Tail.{Tail, empty_tail, is_empty_tail, unusable, as_slice}
use coseva.Config.Options.{
  Escape, double_quote, backslash, mysql_escape, unquoted, unquoted_byte, RecordEnding, newline,
  crlf, ending_byte, terminator, is_crlf,
}

pub record Dialect : Type 0 where
  pub delimiter : ℕ
  pub quote : ℕ
  pub record_ending : RecordEnding
  pub escape : Escape
  pub comment : Option ℕ
  pub delimiter_tail : Tail
  pub ending_tail : Tail

-- `Dialect::CSV` and the dialects that vary it
abbrev pub csv : Dialect
csv = record {
  delimiter = b',';
  quote = b'"';
  record_ending = newline;
  escape = double_quote;
  comment = none;
  delimiter_tail = empty_tail;
  ending_tail = empty_tail;
}

abbrev pub tsv : Dialect
tsv = record csv { delimiter = b'\t' }

abbrev pub semicolon : Dialect
semicolon = record csv { delimiter = b';' }

abbrev pub pipe : Dialect
pipe = record csv { delimiter = b'|' }

abbrev pub backslash_csv : Dialect
backslash_csv = record csv { escape = backslash b'\\' }

abbrev pub backslash_tsv : Dialect
backslash_tsv = record csv { delimiter = b'\t'; escape = backslash b'\\' }

abbrev pub commented_csv : Dialect
commented_csv = record csv { comment = some b'#' }

abbrev pub rfc4180 : Dialect
rfc4180 = record csv { record_ending = crlf }

abbrev pub mysql : Dialect
mysql = record csv { delimiter = b'\t'; escape = mysql_escape }

abbrev pub python_escaped : Dialect
python_escaped = record csv { escape = unquoted b'\\' }

unfoldable pub multibyte : Dialect → Bool
multibyte d = not (is_empty_tail d.delimiter_tail) || not (is_empty_tail d.ending_tail)

-- The byte that the tails must not contain beside the quote.
abbrev quoted_escape : Dialect → ℕ
quoted_escape d = elim d.escape [
  | double_quote ↦ d.quote
  | backslash b ↦ b
  | mysql_escape ↦ b'\\'
  | unquoted b ↦ b
]

contains_structure : Dialect → Tail → Bool
contains_structure d t = any (λ b. b == d.quote || b == quoted_escape d) (as_slice t)

is_ending_byte : RecordEnding → Bool
is_ending_byte newline = false
is_ending_byte crlf = false
is_ending_byte (ending_byte b) = true

-- `Dialect::multibyte_invalidity`
multibyte_invalidity : Dialect → Option String
unfolding multibyte is_ending_byte contains_structure
multibyte_invalidity d =
    if not (multibyte d)
    then none
    else if unusable d.delimiter_tail || unusable d.ending_tail
    then some "a delimiter or record ending sequence must be 1 to 4 bytes"
    else if not (is_empty_tail d.ending_tail) && not (is_ending_byte d.record_ending)
    then some "a multi-byte record ending must be spelled as a byte sequence"
    else if contains_structure d d.delimiter_tail || contains_structure d d.ending_tail
    then some "a delimiter or record ending sequence must not contain the quote or escape byte"
    else none

-- `escape == delimiter || escape == quote || escape == record_ending`
abbrev pub is_structural : Dialect → ℕ → Bool
is_structural d b = b == d.delimiter || b == d.quote || b == terminator d.record_ending

-- the `match self.escape` of `invalidity`
escape_invalidity : Escape → Dialect → Option String
escape_invalidity double_quote d = none
escape_invalidity (backslash e) d =
    if is_structural d e then some "escape must differ from structural bytes" else none
escape_invalidity mysql_escape d =
    if d.delimiter == b'\\' || d.quote == b'\\' || terminator d.record_ending == b'\\'
    then some "MySQL escape byte must differ from structural bytes"
    else none
escape_invalidity (unquoted e) d =
    if is_structural d e then some "escape must differ from structural bytes" else none

-- the `if let Some(comment)` of `invalidity`
comment_conflicts : Option ℕ → Dialect → Bool
comment_conflicts none d = false
comment_conflicts (some comment) d =
    comment == d.delimiter
    || comment == d.quote
    || comment == terminator d.record_ending
    || holds (unquoted_byte d.escape) comment
    || (is_crlf d.record_ending && comment == b'\r')

comment_invalidity : Dialect → Option String
unfolding comment_conflicts multibyte_invalidity
comment_invalidity d =
    if comment_conflicts d.comment d
    then some "comment must differ from structural bytes"
    else multibyte_invalidity d

-- `Dialect::invalidity`: a reason, or `none` for a usable dialect
unfoldable pub invalidity : Dialect → Option String
unfolding escape_invalidity comment_invalidity
invalidity d =
    if d.delimiter == d.quote
    then some "delimiter and quote must be distinct"
    else if terminator d.record_ending == d.delimiter
        || terminator d.record_ending == d.quote
        || (is_crlf d.record_ending && (d.delimiter == b'\r' || d.quote == b'\r'))
    then some "record_ending must differ from delimiter and quote"
    else elim (escape_invalidity d.escape d) [
      | some reason ↦ some reason
      | none ↦ comment_invalidity d
    ]

unfoldable pub validate : Dialect → Result Error (Unit {0})
validate d = elim (invalidity d) [
  | some reason ↦ err (detailed ErrorKind.configuration reason)
  | none ↦ ok tt
]
