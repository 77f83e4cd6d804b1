-- ===== src/Emit/Record.antt =====
-- crates/coseva/src/emit.rs: whole records, from fields at hand, from fields that may be NULL, and
-- the field-count policy.
pub mod Settled
pub mod Always
use coseva.Prelude.{
  ℕ, ◌+◌, Bool, true, false, List, [], ◌∷◌, Option, none, some, ◌&&◌, ◌==◌, if◌then◌else◌, Bytes,
  is_empty,
}
use coseva.Error.{Error, ErrorKind, new_error, start_location, Result, ok, err}
use coseva.Config.Options.{Quoting, Nulls, FieldCount}
use coseva.Config.Dialect.{Dialect}
use coseva.Emit.Writer.{Writer, ◌>>=◌, ◌>>◌, return, extend, push, output_len, truncate_on_error}
use coseva.Emit.Field.{
  write_quoted, write_csv_necessary, write_necessary, write_unquoted, write_delimiter,
  finish_record,
}
use coseva.Emit.Policy.{
  NecessaryPath, csv_path, general_path, necessary_path, no_nulls_set, is_necessary,
  write_non_numeric, write_non_null_empty, write_null, write_configured_field,
}

-- `for field in fields { field_count += 1; separator; write(field) }`
unfoldable pub emit_rest :
    Writer (Unit {0}) → (Bytes → Writer (Unit {0})) → List Bytes → ℕ → Writer ℕ
emit_rest separator write [] field_count = return field_count
emit_rest separator write (field ∷ fields) field_count = do
  separator
  write field
  emit_rest separator write fields (field_count + 1)

-- A lone empty field would leave nothing of the record but its ending.
unfoldable pub quote_if_empty : Dialect → ℕ → Writer (Unit {0})
quote_if_empty d record_start = do
  end ← output_len
  if end == record_start then extend (d.quote ∷ d.quote ∷ []) else return tt

-- `Quoting::Necessary`, on each of its paths
emit_necessary : NecessaryPath → Dialect → Bytes → List Bytes → Writer ℕ
unfolding emit_rest write_csv_necessary write_necessary write_delimiter
emit_necessary csv_path d first fields = do
  write_csv_necessary first true
  emit_rest (push b',') (λ field. write_csv_necessary field false) fields 1
emit_necessary general_path d first fields = do
  write_necessary d first true
  emit_rest (write_delimiter d) (λ field. write_necessary d field false) fields 1

module _ (parses_f64 : Bytes → Bool) where
  -- the `match quoting`, for a record of at least one field; `record_start` is the buffer's length
  unfoldable pub emit_fields : Quoting → Dialect → ℕ → Bytes → List Bytes → Writer ℕ
  unfolding emit_necessary emit_rest quote_if_empty write_quoted write_unquoted write_non_numeric
      write_delimiter finish_record necessary_path
  emit_fields Quoting.necessary d record_start first fields = do
    field_count ← emit_necessary (necessary_path d) d first fields
    quote_if_empty d record_start
    finish_record d
    return field_count
  emit_fields Quoting.non_numeric d record_start first fields = do
    write_non_numeric parses_f64 d first true
    field_count ←
        emit_rest (write_delimiter d) (λ field. write_non_numeric parses_f64 d field false) fields 1
    finish_record d
    return field_count
  emit_fields Quoting.always d record_start first fields = do
    write_quoted d first
    field_count ← emit_rest (write_delimiter d) (write_quoted d) fields 1
    finish_record d
    return field_count
  emit_fields Quoting.never d record_start first fields = do
    field_count ← truncate_on_error record_start (do
      write_unquoted d first true
      emit_rest (write_delimiter d) (λ field. write_unquoted d field false) fields 1)
    finish_record d
    return field_count
  emit_fields Quoting.raw d record_start first fields = do
    extend first
    field_count ← emit_rest (write_delimiter d) extend fields 1
    finish_record d
    return field_count

  unfoldable pub emit_record_runtime : Dialect → Quoting → List Bytes → Writer ℕ
  unfolding finish_record emit_fields
  emit_record_runtime d quoting [] = do finish_record d; return 0
  emit_record_runtime d quoting (first ∷ fields) = do
    record_start ← output_len
    emit_fields quoting d record_start first fields

  -- One field of `emit_nullable_record_runtime`: the result is whether it was empty and not NULL,
  -- given what the field before it left.
  unfoldable pub emit_nullable_field :
      Dialect → Quoting → Nulls → ℕ → Option Bytes → ℕ → Bool → Writer Bool
  unfolding write_non_null_empty write_null write_configured_field
  emit_nullable_field d quoting nulls record_start none field_count was_empty =
      if no_nulls_set nulls
      then (do write_non_null_empty d quoting; return true)
      else (do write_null nulls; return was_empty)
  emit_nullable_field d quoting nulls record_start (some field) field_count was_empty = do
    truncate_on_error record_start
        (write_configured_field parses_f64 d quoting nulls field (field_count == 1))
    return (is_empty field)

  -- the loop, which returns the count and the flag
  unfoldable pub emit_nullable_fields :
      Dialect → Quoting → Nulls → ℕ → List (Option Bytes) → ℕ → Bool → Writer (ℕ × Bool)
  unfolding emit_nullable_field write_delimiter
  emit_nullable_fields d quoting nulls record_start [] field_count was_empty =
      return (field_count, was_empty)
  emit_nullable_fields d quoting nulls record_start (field ∷ fields) field_count was_empty = do
    if field_count == 0 then return tt else write_delimiter d
    empty ← emit_nullable_field d quoting nulls record_start field (field_count + 1) was_empty
    emit_nullable_fields d quoting nulls record_start fields (field_count + 1) empty

  unfoldable pub emit_nullable_record_runtime :
      Dialect → Quoting → Nulls → List (Option Bytes) → Writer ℕ
  unfolding emit_nullable_fields finish_record
  emit_nullable_record_runtime d quoting nulls fields = do
    record_start ← output_len
    counted ← emit_nullable_fields d quoting nulls record_start fields 0 false
    end ← output_len
    if counted.0 == 1 && counted.1 && end == record_start && is_necessary quoting
        then extend (d.quote ∷ d.quote ∷ [])
        else return tt
    finish_record d
    return counted.0

-- `validate_field_count`: the count that the record must have, and the verdict
unfoldable pub validate_field_count : FieldCount → Option ℕ → ℕ → Option ℕ × Result Error (Unit {0})
validate_field_count FieldCount.flexible expected actual = (expected, ok tt)
validate_field_count (FieldCount.exact required) expected actual = (
  expected,
  if actual == required
      then ok tt
      else err (new_error (ErrorKind.field_count_mismatch required actual) start_location),
)
validate_field_count FieldCount.match_first none actual = (some actual, ok tt)
validate_field_count FieldCount.match_first (some required) actual = (
  some required,
  if actual == required
      then ok tt
      else err (new_error (ErrorKind.field_count_mismatch required actual) start_location),
)
