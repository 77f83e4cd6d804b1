-- ===== src/Config/Format.antt =====
-- config/format_options.rs: a format is a dialect and the policies around it. A setter replaces
-- its field and marks the value as no longer one of the named formats.
use coseva.Prelude.{
  ℕ, Bool, true, false, List, [], ◌∷◌, Option, none, some, String, not, ◌&&◌, ◌||◌, if◌then◌else◌,
  Bytes,
}
use coseva.Error.{Error, ErrorKind, detailed, Result, ok, err}
use coseva.Config.Tail.{empty_tail, tail_of}
use coseva.Config.Options.{
  escapes_unquoted, RecordEnding, ending_byte, Quoting, Nulls, BlankRecords, ReadBom, WriteBom,
  Whitespace, no_whitespace, all_whitespace, Syntax, strict, compatible, no_recovery,
  quoting_enabled,
}
use coseva.Config.Dialect
use coseva.Config.Dialect.{Dialect, invalidity}

pub data FormatTag : Type 0 where
  csv tsv semicolon pipe backslash_csv backslash_tsv commented_csv trimmed_csv python_csv :
      FormatTag
  python_escaped rfc4180 excel postgres_copy_csv mysql custom : FormatTag

pub record FormatOptions : Type 0 where
  pub dialect : Dialect
  pub trim : Whitespace
  pub blank_records : BlankRecords
  pub read_bom : ReadBom
  pub write_bom : WriteBom
  pub syntax : Syntax
  pub nulls : Nulls
  pub quoting : Quoting
  pub skip_initial_space : Bool
  pub tag : FormatTag

-- `FormatOptions::with_dialect`, which `from_dialect` calls
abbrev pub with_dialect : Dialect → FormatOptions
with_dialect d = record {
  dialect = d;
  trim = no_whitespace;
  blank_records = BlankRecords.preserve;
  read_bom = ReadBom.detect;
  write_bom = WriteBom.omit;
  syntax = strict;
  nulls = Nulls.no_nulls;
  quoting = Quoting.necessary;
  skip_initial_space = false;
  tag = FormatTag.custom;
}

-- the named formats
abbrev pub csv_format : FormatOptions
csv_format = record (with_dialect Dialect.csv) { tag = FormatTag.csv }

abbrev pub tsv_format : FormatOptions
tsv_format = record (with_dialect Dialect.tsv) { tag = FormatTag.tsv }

abbrev pub semicolon_format : FormatOptions
semicolon_format = record (with_dialect Dialect.semicolon) { tag = FormatTag.semicolon }

abbrev pub pipe_format : FormatOptions
pipe_format = record (with_dialect Dialect.pipe) { tag = FormatTag.pipe }

abbrev pub backslash_csv_format : FormatOptions
backslash_csv_format = record (with_dialect Dialect.backslash_csv) { tag = FormatTag.backslash_csv }

abbrev pub backslash_tsv_format : FormatOptions
backslash_tsv_format = record (with_dialect Dialect.backslash_tsv) { tag = FormatTag.backslash_tsv }

abbrev pub commented_csv_format : FormatOptions
commented_csv_format = record (with_dialect Dialect.commented_csv) {
  tag = FormatTag.commented_csv;
  blank_records = BlankRecords.skip;
}

abbrev pub trimmed_csv_format : FormatOptions
trimmed_csv_format = record (with_dialect Dialect.csv) {
  tag = FormatTag.trimmed_csv;
  trim = all_whitespace;
}

abbrev pub python_csv_format : FormatOptions
python_csv_format = record (with_dialect Dialect.csv) {
  tag = FormatTag.python_csv;
  skip_initial_space = true;
}

abbrev pub python_escaped_format : FormatOptions
python_escaped_format = record (with_dialect Dialect.python_escaped) {
  tag = FormatTag.python_escaped;
  quoting = Quoting.never;
}

abbrev pub rfc4180_format : FormatOptions
rfc4180_format = record (with_dialect Dialect.rfc4180) {
  tag = FormatTag.rfc4180;
  read_bom = ReadBom.reject;
}

abbrev pub excel_format : FormatOptions
excel_format = record (with_dialect Dialect.rfc4180) {
  tag = FormatTag.excel;
  write_bom = WriteBom.emit;
}

abbrev pub postgres_copy_csv_format : FormatOptions
postgres_copy_csv_format = record (with_dialect Dialect.csv) {
  tag = FormatTag.postgres_copy_csv;
  nulls = Nulls.postgres_csv;
}

abbrev pub mysql_format : FormatOptions
mysql_format = record (with_dialect Dialect.mysql) {
  tag = FormatTag.mysql;
  syntax = compatible no_recovery;
  nulls = Nulls.mysql_nulls;
  quoting = Quoting.never;
}

-- Every constant of the type, in the source's order.
abbrev pub named_formats : List FormatOptions
named_formats =
    csv_format ∷ tsv_format ∷ semicolon_format ∷ pipe_format ∷ backslash_csv_format
    ∷ backslash_tsv_format ∷ commented_csv_format ∷ trimmed_csv_format ∷ python_csv_format
    ∷ python_escaped_format ∷ rfc4180_format ∷ excel_format ∷ postgres_copy_csv_format
    ∷ mysql_format ∷ []

-- The setters that also touch a tail. The others are record updates with `tag = custom`.
unfoldable pub set_delimiter : FormatOptions → ℕ → FormatOptions
set_delimiter f b = record f {
  tag = FormatTag.custom;
  dialect = record f.dialect { delimiter = b; delimiter_tail = empty_tail };
}

unfoldable pub set_record_ending : FormatOptions → RecordEnding → FormatOptions
set_record_ending f e = record f {
  tag = FormatTag.custom;
  dialect = record f.dialect { record_ending = e; ending_tail = empty_tail };
}

-- `delimiter_sequence` and `record_ending_sequence`
unfoldable pub delimiter_sequence : FormatOptions → Bytes → FormatOptions
delimiter_sequence f [] = record f {
  tag = FormatTag.custom;
  dialect = record f.dialect { delimiter_tail = tail_of [] };
}
delimiter_sequence f (b ∷ bs) = record f {
  tag = FormatTag.custom;
  dialect = record f.dialect { delimiter = b; delimiter_tail = tail_of (b ∷ bs) };
}

unfoldable pub record_ending_sequence : FormatOptions → Bytes → FormatOptions
record_ending_sequence f [] = record f {
  tag = FormatTag.custom;
  dialect = record f.dialect { ending_tail = tail_of [] };
}
record_ending_sequence f (b ∷ bs) = record f {
  tag = FormatTag.custom;
  dialect = record f.dialect { record_ending = ending_byte b; ending_tail = tail_of (b ∷ bs) };
}

is_never : Quoting → Bool
is_never Quoting.never = true
is_never _ = false

is_raw : Quoting → Bool
is_raw Quoting.raw = true
is_raw _ = false

-- `matches!(quoting, Necessary | Always | NonNumeric)`
produces_quotes : Quoting → Bool
produces_quotes Quoting.necessary = true
produces_quotes Quoting.always = true
produces_quotes Quoting.non_numeric = true
produces_quotes Quoting.never = false
produces_quotes Quoting.raw = false

-- the `match self.nulls` of `invalidity`
nulls_invalidity : Nulls → FormatOptions → Option String
unfolding is_never is_raw
nulls_invalidity Nulls.no_nulls f = none
nulls_invalidity Nulls.postgres_csv f =
    if escapes_unquoted f.dialect.escape
      || not (quoting_enabled f.syntax)
      || (is_never f.quoting || is_raw f.quoting)
    then some "PostgreSQL CSV NULLs require protective quoting"
    else none
nulls_invalidity Nulls.mysql_nulls f =
    if is_raw f.quoting || (is_never f.quoting && not (escapes_unquoted f.dialect.escape))
    then some "MySQL NULLs require quoting or unquoted escaping"
    else none

-- `FormatOptions::invalidity`
unfoldable pub format_invalidity : FormatOptions → Option String
unfolding nulls_invalidity is_never produces_quotes
format_invalidity f = elim (invalidity f.dialect) [
  | some reason ↦ some reason
  | none ↦
      if escapes_unquoted f.dialect.escape && not (is_never f.quoting)
      then some "unquoted escaping requires Quoting::Never"
      else if not (quoting_enabled f.syntax) && produces_quotes f.quoting
      then some "quote-producing output requires parser quote syntax"
      else nulls_invalidity f.nulls f
]

unfoldable pub validate_format : FormatOptions → Result Error (Unit {0})
validate_format f = elim (format_invalidity f) [
  | some reason ↦ err (detailed ErrorKind.configuration reason)
  | none ↦ ok tt
]
