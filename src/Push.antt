-- ===== src/Push.antt =====
-- crates/coseva/src/push_emitter.rs: `PushEmitter`, which appends whole records to a buffer, checks
-- their field counts, and takes a record back that fails. The state is passed on; the format's
-- `OPTIONS` is an argument, as in `Emit.Visitor`.
pub mod Build
pub mod Commit
pub mod Laws
pub mod Session
use coseva.Prelude.{
  ℕ, Bool, true, false, List, [], ◌∷◌, ◌++◌, Option, none, some, not, ◌&&◌, if◌then◌else◌, Bytes,
  length, take, is_empty,
}
use coseva.Error.{Error, Result, ok, err}
use coseva.Config.Options.{escapes_unquoted, Quoting, Nulls, WriteBom, FieldCount}
use coseva.Config.Dialect.{Dialect}
use coseva.Config.Format.{FormatOptions, validate_format}
use coseva.Emit.Scan.{bom}
use coseva.Emit.Writer.{Writer, Written, written, refused, panicked, ◌>>=◌}
use coseva.Emit.Policy.{no_nulls_set}
use coseva.Emit.Record.{emit_record_runtime, emit_nullable_record_runtime, validate_field_count}
use coseva.Emit.Visitor.{fmt_dialect, fmt_quoting, fmt_nulls, visit_record}

-- without the scratch buffers, and without what only Serde uses
pub record PushEmitter : Type 0 where
  pub buffer : Bytes
  pub dialect : Dialect
  pub quoting : Quoting
  pub write_bom : WriteBom
  pub nulls : Nulls
  pub field_count : FieldCount
  pub expected_fields : Option ℕ
  pub started : Bool

-- What a call leaves: the emitter, with the error if there is one. A panic leaves none.
pub data Emitted : Type 0 where
  emitted : PushEmitter → Emitted
  failed : PushEmitter → Error → Emitted
  aborted : Emitted

-- `build` on the empty buffer of `new` and `with_options`, where no count is expected yet
unfoldable pub with_options : FormatOptions → FieldCount → Result Error PushEmitter
unfolding validate_format
with_options format field_count = elim (validate_format format) [
  | err e ↦ err e
  | ok _ ↦ ok (record {
    buffer = [];
    dialect = format.dialect;
    quoting = format.quoting;
    write_bom = format.write_bom;
    nulls = format.nulls;
    field_count = field_count;
    expected_fields = none;
    started = not (is_empty []);
  })
]

unfoldable pub clear : PushEmitter → PushEmitter
clear v = record v { buffer = [] }

abbrev pub emits_bom : WriteBom → Bool
emits_bom WriteBom.omit = false
emits_bom WriteBom.emit = true

unfoldable pub commit : PushEmitter → ℕ → PushEmitter
commit v start =
    if not v.started
    then record v {
      started = true;
      buffer = if emits_bom v.write_bom then bom ++ v.buffer else v.buffer;
    }
    else v

unfoldable pub rollback : PushEmitter → ℕ → PushEmitter
rollback v start = record v { buffer = take start v.buffer }

-- the end of `finish_record`, by the verdict on the count
count_checked : PushEmitter → ℕ → Option ℕ × Result Error (Unit {0}) → Emitted
unfolding commit rollback
count_checked v start (expected, ok _) =
    emitted (commit (record v { expected_fields = expected }) start)
count_checked v start (expected, err e) =
    failed (rollback (record v { expected_fields = expected }) start) e

-- `finish_record`, with the outcome of the writer that was given the buffer
unfoldable pub finish_record : PushEmitter → ℕ → Written ℕ → Emitted
unfolding count_checked rollback validate_field_count
finish_record v start (written out field_count) =
    count_checked (record v { buffer = out }) start
      (validate_field_count v.field_count v.expected_fields field_count)
finish_record v start (refused out e) = failed (rollback (record v { buffer = out }) start) e
finish_record v start panicked = aborted

module _ (parses_f64 : Bytes → Bool) where
  unfoldable pub emit_nullable_record :
      Option FormatOptions → PushEmitter → List (Option Bytes) → Emitted
  unfolding finish_record emit_nullable_record_runtime
  emit_nullable_record options v fields = finish_record v (length v.buffer) (
      emit_nullable_record_runtime parses_f64 (fmt_dialect options v.dialect)
        (fmt_quoting options v.quoting) (fmt_nulls options v.nulls) fields v.buffer)

  all_some : List Bytes → List (Option Bytes)
  all_some [] = []
  all_some (field ∷ fields) = some field ∷ all_some fields

  unfoldable pub emit_record : Option FormatOptions → PushEmitter → List Bytes → Emitted
  unfolding finish_record emit_record_runtime emit_nullable_record all_some
  emit_record options v fields =
      if no_nulls_set (fmt_nulls options v.nulls)
        && not (escapes_unquoted (fmt_dialect options v.dialect).escape)
      then finish_record v (length v.buffer) (
          emit_record_runtime parses_f64 (fmt_dialect options v.dialect)
            (fmt_quoting options v.quoting) fields v.buffer)
      else emit_nullable_record options v (all_some fields)

  -- `encode`, for a value that visits these fields
  unfoldable pub encode : Option FormatOptions → PushEmitter → List (Option Bytes) → Emitted
  unfolding finish_record visit_record
  encode options v fields =
      finish_record v (length v.buffer)
        (visit_record parses_f64 options v.dialect v.quoting v.nulls fields v.buffer)
