-- ===== src/Emit/Policy.antt =====
-- crates/coseva/src/emit.rs: one field under a quoting policy and a NULL policy. The float parser
-- that `is_numeric` falls back to is the parameter `parses_f64`.
pub mod Agree
use coseva.Prelude.{
  ℕ, Bool, true, false, [], ◌∷◌, Option, none, some, not, ◌&&◌, ◌||◌, if◌then◌else◌, Bytes,
  bytes_eq, is_empty,
}
use coseva.Error.{ErrorKind, detailed}
use coseva.Config.Options.{unquoted_byte, escapes_unquoted, Quoting, Nulls}
use coseva.Config.Dialect.{Dialect, csv}
use coseva.Config.Equality.{dialect_eq}
use coseva.Emit.Scan.{needs_quotes}
use coseva.Emit.Writer.{Writer, return, extend, refuse}
use coseva.Emit.Field.{write_quoted, write_csv_necessary, write_necessary, write_unquoted}
use coseva.Emit.Unquoted.{write_unquoted_escaped_field}
use coseva.Emit.Numeric.{is_numeric}

-- `necessary_path` and `configured_path`
pub data NecessaryPath : Type 0 where
  csv_path general_path : NecessaryPath

unfoldable pub necessary_path : Dialect → NecessaryPath
unfolding dialect_eq
necessary_path d = if dialect_eq d csv then csv_path else general_path

pub data ConfiguredPath : Type 0 where
  plain configured : ConfiguredPath

abbrev pub no_nulls_set : Nulls → Bool
no_nulls_set Nulls.no_nulls = true
no_nulls_set _ = false

abbrev pub is_mysql_nulls : Nulls → Bool
is_mysql_nulls Nulls.mysql_nulls = true
is_mysql_nulls _ = false

abbrev pub is_postgres_nulls : Nulls → Bool
is_postgres_nulls Nulls.postgres_csv = true
is_postgres_nulls _ = false

abbrev pub is_necessary : Quoting → Bool
is_necessary Quoting.necessary = true
is_necessary _ = false

unfoldable pub configured_path : Dialect → Nulls → ConfiguredPath
configured_path d nulls =
    if no_nulls_set nulls && not (escapes_unquoted d.escape) then plain else configured

unfoldable pub write_non_null_empty : Dialect → Quoting → Writer (Unit {0})
unfolding write_quoted
write_non_null_empty d Quoting.non_numeric = write_quoted d []
write_non_null_empty d Quoting.always = write_quoted d []
write_non_null_empty d Quoting.necessary = return tt
write_non_null_empty d Quoting.never = return tt
write_non_null_empty d Quoting.raw = return tt

-- `b"\\N"`
abbrev pub mysql_null : Bytes
mysql_null = b'\\' ∷ b'N' ∷ []

unfoldable pub write_null : Nulls → Writer (Unit {0})
write_null Nulls.mysql_nulls = extend mysql_null
write_null Nulls.postgres_csv = return tt
write_null Nulls.no_nulls = return tt

abbrev write_necessary_by : NecessaryPath → Dialect → Bytes → Bool → Writer (Unit {0})
write_necessary_by csv_path d field is_first = write_csv_necessary field is_first
write_necessary_by general_path d field is_first = write_necessary d field is_first

-- a non-NULL field that reads as MySQL's NULL
unfoldable pub write_null_lookalike : Dialect → Quoting → Bytes → Writer (Unit {0})
unfolding write_quoted
write_null_lookalike d Quoting.necessary field = write_quoted d field
write_null_lookalike d Quoting.non_numeric field = write_quoted d field
write_null_lookalike d Quoting.always field = write_quoted d field
write_null_lookalike d Quoting.never field =
    refuse
      (detailed ErrorKind.encode "a non-NULL MySQL \\N field requires quoting or unquoted escaping")
write_null_lookalike d Quoting.raw field =
    refuse
      (detailed ErrorKind.encode "a non-NULL MySQL \\N field requires quoting or unquoted escaping")

-- the branch of an escape that is read outside quotes
unfoldable pub write_escaping : Dialect → ℕ → Nulls → Bytes → Bool → Writer (Unit {0})
unfolding write_unquoted_escaped_field
write_escaping d escape nulls field is_first =
    if is_mysql_nulls nulls && bytes_eq field mysql_null
    then extend (escape ∷ b'\\' ∷ b'N' ∷ [])
    else write_unquoted_escaped_field d escape field is_first

module _ (parses_f64 : Bytes → Bool) where
  unfoldable pub write_non_numeric : Dialect → Bytes → Bool → Writer (Unit {0})
  unfolding needs_quotes write_quoted is_numeric
  write_non_numeric d field is_first =
      if needs_quotes d field is_first || not (is_numeric parses_f64 field)
      then write_quoted d field
      else extend field

  -- the `match quoting` that `write_configured_field` ends with
  unfoldable pub write_general : Dialect → Quoting → Bytes → Bool → Writer (Unit {0})
  unfolding write_necessary write_non_numeric write_quoted write_unquoted
  write_general d Quoting.necessary field is_first = write_necessary d field is_first
  write_general d Quoting.non_numeric field is_first = write_non_numeric d field is_first
  write_general d Quoting.always field is_first = write_quoted d field
  write_general d Quoting.never field is_first = write_unquoted d field is_first
  write_general d Quoting.raw field is_first = extend field

  unfoldable pub write_record_field : Dialect → Quoting → Bytes → Bool → Writer (Unit {0})
  unfolding necessary_path write_csv_necessary write_necessary write_non_numeric write_quoted
      write_unquoted
  write_record_field d Quoting.necessary field is_first =
      write_necessary_by (necessary_path d) d field is_first
  write_record_field d Quoting.non_numeric field is_first = write_non_numeric d field is_first
  write_record_field d Quoting.always field is_first = write_quoted d field
  write_record_field d Quoting.never field is_first = write_unquoted d field is_first
  write_record_field d Quoting.raw field is_first = extend field

  -- the branches behind it
  unfoldable pub write_quoting : Dialect → Quoting → Nulls → Bytes → Bool → Writer (Unit {0})
  unfolding write_quoted write_null_lookalike write_general
  write_quoting d quoting nulls field is_first =
      if is_postgres_nulls nulls && is_empty field
      then write_quoted d field
      else if is_mysql_nulls nulls && bytes_eq field mysql_null
      then write_null_lookalike d quoting field
      else write_general d quoting field is_first

  unfoldable pub write_configured_field :
      Dialect → Quoting → Nulls → Bytes → Bool → Writer (Unit {0})
  unfolding write_escaping write_quoting
  write_configured_field d quoting nulls field is_first = elim (unquoted_byte d.escape) [
    | some escape ↦ write_escaping d escape nulls field is_first
    | none ↦ write_quoting d quoting nulls field is_first
  ]
