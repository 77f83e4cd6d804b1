-- ===== src/Config/Options.antt =====
-- config/escape.rs, record_ending.rs, quoting.rs, nulls.rs, blank_records.rs, read_bom.rs,
-- write_bom.rs, field_count.rs, limits.rs, whitespace.rs, recovery.rs and syntax.rs.
pub mod Bits
use Prim.Native.Nat.{bit_and, bit_or}
use coseva.Prelude.{
  ℕ, ◌-◌, ◌*◌, Bool, true, false, Option, none, some, not, ◌&&◌, ◌||◌, ◌==◌, if◌then◌else◌,
}

pub data Escape : Type 0 where
  double_quote : Escape
  backslash : ℕ → Escape
  mysql_escape : Escape
  unquoted : ℕ → Escape

abbrev pub unquoted_byte : Escape → Option ℕ
unquoted_byte double_quote = none
unquoted_byte (backslash e) = none
unquoted_byte mysql_escape = some b'\\'
unquoted_byte (unquoted e) = some e

abbrev pub escapes_unquoted : Escape → Bool
escapes_unquoted e = elim (unquoted_byte e) [ none ↦ false | some _ ↦ true ]

pub data RecordEnding : Type 0 where
  newline : RecordEnding
  crlf : RecordEnding
  ending_byte : ℕ → RecordEnding

-- `RecordEnding::byte`
abbrev pub terminator : RecordEnding → ℕ
terminator newline = b'\n'
terminator crlf = b'\n'
terminator (ending_byte b) = b

abbrev pub is_crlf : RecordEnding → Bool
is_crlf newline = false
is_crlf crlf = true
is_crlf (ending_byte b) = false

-- `matches!(record_ending, Newline | CrLf)`
abbrev pub is_newline : RecordEnding → Bool
is_newline newline = true
is_newline crlf = true
is_newline (ending_byte b) = false

pub data Quoting : Type 0 where
  necessary always never non_numeric raw : Quoting

pub data Nulls : Type 0 where
  no_nulls postgres_csv mysql_nulls : Nulls

pub data BlankRecords : Type 0 where
  preserve skip : BlankRecords

pub data ReadBom : Type 0 where
  detect preserve_bom reject : ReadBom

pub data WriteBom : Type 0 where
  omit emit : WriteBom

pub data FieldCount : Type 0 where
  flexible : FieldCount
  match_first : FieldCount
  exact : ℕ → FieldCount

pub record Limits : Type 0 where
  pub max_record_bytes : ℕ
  pub max_field_bytes : ℕ
  pub max_fields : ℕ

abbrev pub default_limits : Limits
default_limits = record {
  max_record_bytes = 16 * 1024 * 1024;
  max_field_bytes = 4 * 1024 * 1024;
  max_fields = 16 * 1024;
}

pub record Whitespace : Type 0 where
  pub fields : Bool
  pub headers : Bool
  pub quoted : Bool

-- `Whitespace::NONE` and the other constants
abbrev pub no_whitespace : Whitespace
no_whitespace = record { fields = false; headers = false; quoted = true }

abbrev pub field_whitespace : Whitespace
field_whitespace = record { fields = true; headers = false; quoted = true }

abbrev pub header_whitespace : Whitespace
header_whitespace = record { fields = false; headers = true; quoted = true }

abbrev pub all_whitespace : Whitespace
all_whitespace = record { fields = true; headers = true; quoted = true }

abbrev pub unquoted_only : Whitespace → Whitespace
unquoted_only w = record w { quoted = false }

-- `Whitespace::applies` and `applies_to_scope`
abbrev pub applies_to_scope : Whitespace → Bool → Bool
applies_to_scope w header = if header then w.headers else w.fields

abbrev pub applies : Whitespace → Bool → Bool → Bool
applies w header quoted = (if header then w.headers else w.fields) && (w.quoted || not quoted)

abbrev pub exempts_quoted : Whitespace → Bool
exempts_quoted w = not w.quoted && (w.fields || w.headers)

-- `b as u8`
abbrev pub from_bool : Bool → ℕ
from_bool true = 1
from_bool false = 0

-- `Whitespace::bits` and `from_bits`; `x << k` of a flag is `x * 2 ^ k`
unfoldable pub whitespace_bits : Whitespace → ℕ
whitespace_bits w =
    bit_or (bit_or (from_bool w.fields) (from_bool w.headers * 2)) (from_bool w.quoted * 4)

-- `!0b111` of a `u8` is `255 - 7`
unfoldable pub whitespace_from_bits : ℕ → Option Whitespace
whitespace_from_bits bits =
    if not (bit_and bits (255 - 7) == 0)
    then none
    else some (record {
      fields = not (bit_and bits 1 == 0);
      headers = not (bit_and bits 2 == 0);
      quoted = not (bit_and bits 4 == 0);
    })

pub record Recovery : Type 0 where
  pub flags : ℕ

-- `1 << 0` to `1 << 3`
abbrev pub quoting_flag : ℕ
quoting_flag = 1

abbrev pub unquoted_quotes_flag : ℕ
unquoted_quotes_flag = 2

abbrev pub any_backslash_flag : ℕ
any_backslash_flag = 4

abbrev pub trailing_whitespace_flag : ℕ
trailing_whitespace_flag = 8

-- `Recovery::PERMISSIVE` and `Recovery::NONE`
abbrev pub permissive : Recovery
permissive = record {
  flags =
      bit_or (bit_or (bit_or quoting_flag unquoted_quotes_flag) any_backslash_flag)
        trailing_whitespace_flag;
}

abbrev pub no_recovery : Recovery
no_recovery = record { flags = 0 }

-- `Recovery::set` with `!flag` of a `u8`, and `Recovery::contains`
unfoldable pub set_flag : Recovery → ℕ → Bool → Recovery
set_flag r flag enabled = record {
  flags = if enabled then bit_or r.flags flag else bit_and r.flags (255 - flag);
}

unfoldable pub contains_flag : Recovery → ℕ → Bool
contains_flag r flag = not (bit_and r.flags flag == 0)

-- `Recovery::bits` and `from_bits`
abbrev pub recovery_bits : Recovery → ℕ
recovery_bits r = r.flags

unfoldable pub recovery_from_bits : ℕ → Option Recovery
recovery_from_bits flags =
    if bit_and flags (255 - permissive.flags) == 0 then some (record { flags = flags }) else none

pub data Syntax : Type 0 where
  strict : Syntax
  compatible : Recovery → Syntax

-- The four questions that the parser asks of a `Syntax`.
unfoldable pub quoting_enabled : Syntax → Bool
unfolding contains_flag
quoting_enabled strict = true
quoting_enabled (compatible rules) = contains_flag rules quoting_flag

unfoldable pub permits_unquoted_quotes : Syntax → Bool
unfolding contains_flag
permits_unquoted_quotes strict = false
permits_unquoted_quotes (compatible rules) = contains_flag rules unquoted_quotes_flag

unfoldable pub permits_any_backslash_escape : Syntax → Bool
unfolding contains_flag
permits_any_backslash_escape strict = false
permits_any_backslash_escape (compatible rules) = contains_flag rules any_backslash_flag

unfoldable pub permits_trailing_whitespace : Syntax → Bool
unfolding contains_flag
permits_trailing_whitespace strict = false
permits_trailing_whitespace (compatible rules) = contains_flag rules trailing_whitespace_flag
