-- ===== src/Emit/Visitor.antt =====
-- crates/coseva/src/emit.rs: `DirectEncodeVisitor`, which frames a record field by field. The
-- format's `OPTIONS` is an argument: a static format has one, `Dynamic` has none.
pub mod Agree
mod Runs
pub mod Steps
pub mod Simulation
use coseva.Prelude.{
  ℕ, ◌+◌, Bool, true, false, List, [], ◌∷◌, Option, none, some, ◌&&◌, ◌==◌, if◌then◌else◌, Bytes,
  is_empty,
}
use coseva.Config.Options.{Quoting, Nulls}
use coseva.Config.Dialect.{Dialect, csv}
use coseva.Config.Equality.{dialect_eq}
use coseva.Config.Format.{FormatOptions}
use coseva.Emit.Writer.{Writer, ◌>>=◌, ◌>>◌, return, extend, push, output_len}
use coseva.Emit.Field.{write_csv_necessary, write_delimiter, finish_record}
use coseva.Emit.Policy.{
  plain, configured, ConfiguredPath, configured_path, no_nulls_set, is_necessary,
  write_non_null_empty, write_null, write_record_field, write_configured_field,
}

pub record DirectEncodeVisitor : Type 0 where
  pub dialect : Dialect
  pub quoting : Quoting
  pub nulls : Nulls
  pub record_start : ℕ
  pub field_count : ℕ
  pub only_field_was_non_null_empty : Bool

-- `fmt_dialect`, `fmt_quoting` and `fmt_nulls`
abbrev pub fmt_dialect : Option FormatOptions → Dialect → Dialect
fmt_dialect none d = d
fmt_dialect (some options) d = options.dialect

abbrev pub fmt_quoting : Option FormatOptions → Quoting → Quoting
fmt_quoting none q = q
fmt_quoting (some options) q = options.quoting

abbrev pub fmt_nulls : Option FormatOptions → Nulls → Nulls
fmt_nulls none n = n
fmt_nulls (some options) n = options.nulls

unfoldable pub new_visitor :
    Option FormatOptions → Dialect → Quoting → Nulls → Writer DirectEncodeVisitor
new_visitor options d quoting nulls = do
  record_start ← output_len
  return (record {
    dialect = fmt_dialect options d;
    quoting = fmt_quoting options quoting;
    nulls = fmt_nulls options nulls;
    record_start = record_start;
    field_count = 0;
    only_field_was_non_null_empty = false;
  })

-- the static format that takes the CSV path
unfoldable pub is_static_csv : Option FormatOptions → Bool
unfolding dialect_eq
is_static_csv none = false
is_static_csv (some options) =
    dialect_eq options.dialect csv && is_necessary options.quoting && no_nulls_set options.nulls

-- the counters after one more field
abbrev count_field : DirectEncodeVisitor → Bool → DirectEncodeVisitor
count_field v field_is_empty = record v {
  field_count = v.field_count + 1;
  only_field_was_non_null_empty =
      if v.field_count + 1 == 1 then field_is_empty else v.only_field_was_non_null_empty;
}

module _ (parses_f64 : Bytes → Bool) where
  write_by_path : ConfiguredPath → DirectEncodeVisitor → Bytes → Bool → Writer (Unit {0})
  unfolding write_record_field write_configured_field
  write_by_path plain v field is_first =
      write_record_field parses_f64 v.dialect v.quoting field is_first
  write_by_path configured v field is_first =
      write_configured_field parses_f64 v.dialect v.quoting v.nulls field is_first

  -- the branch of `write_field` for a static CSV format, and the branch behind it
  static_csv_field : DirectEncodeVisitor → Bytes → Writer DirectEncodeVisitor
  unfolding write_csv_necessary
  static_csv_field v field = do
    if v.field_count == 0 then return tt else push b','
    write_csv_necessary field (v.field_count + 1 == 1)
    return (count_field v (is_empty field))

  dynamic_field : DirectEncodeVisitor → Bytes → Writer DirectEncodeVisitor
  unfolding write_delimiter configured_path write_by_path
  dynamic_field v field = do
    if v.field_count == 0 then return tt else write_delimiter v.dialect
    write_by_path (configured_path v.dialect v.nulls) v field (v.field_count + 1 == 1)
    return (count_field v (is_empty field))

  unfoldable pub write_field :
      Option FormatOptions → DirectEncodeVisitor → Bytes → Writer DirectEncodeVisitor
  unfolding is_static_csv static_csv_field dynamic_field
  write_field options v field =
      if is_static_csv options then static_csv_field v field else dynamic_field v field

  unfoldable pub write_null_field : DirectEncodeVisitor → Writer DirectEncodeVisitor
  unfolding write_delimiter write_non_null_empty write_null
  write_null_field v = do
    if v.field_count == 0 then return tt else write_delimiter v.dialect
    if no_nulls_set v.nulls
        then (do
          write_non_null_empty v.dialect v.quoting
          return
              (record v { field_count = v.field_count + 1; only_field_was_non_null_empty = true }))
        else (do write_null v.nulls; return (record v { field_count = v.field_count + 1 }))

  apply_single_empty_fixup : DirectEncodeVisitor → Writer (Unit {0})
  apply_single_empty_fixup v = do
    end ← output_len
    if v.field_count == 1
          && v.only_field_was_non_null_empty
          && is_necessary v.quoting
          && end == v.record_start
        then extend (v.dialect.quote ∷ v.dialect.quote ∷ [])
        else return tt

  unfoldable pub finish : DirectEncodeVisitor → Writer ℕ
  unfolding apply_single_empty_fixup finish_record
  finish v = do apply_single_empty_fixup v; finish_record v.dialect; return v.field_count

  -- The visits of a record's fields in order, as `visit_field` and `visit_null` make them.
  unfoldable pub visit_all :
      Option FormatOptions → DirectEncodeVisitor → List (Option Bytes) → Writer DirectEncodeVisitor
  visit_all options v [] = return v
  visit_all options v (none ∷ fields) = do v' ← write_null_field v; visit_all options v' fields
  visit_all options v (some field ∷ fields) = do
    v' ← write_field options v field
    visit_all options v' fields

  -- What `PushEmitter::encode` makes of a value that visits these fields.
  unfoldable pub visit_record :
      Option FormatOptions → Dialect → Quoting → Nulls → List (Option Bytes) → Writer ℕ
  unfolding new_visitor visit_all finish
  visit_record options d quoting nulls fields = do
    v ← new_visitor options d quoting nulls
    v' ← visit_all options v fields
    finish v'
