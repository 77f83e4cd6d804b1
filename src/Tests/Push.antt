-- ===== src/Tests/Push.antt =====
-- The theorems on `PushEmitter`, on a document of two records with a failure between them.
use coseva.Prelude.{true, false, Bool, [], ◌∷◌, ◌++◌, none, some, ◌≡◌, refl, Bytes, arith}
use coseva.Error.{ok, Error, ErrorKind, new_error, start_location}
use coseva.Config.Options.{quoting_enabled, WriteBom, FieldCount, Quoting, Nulls}
use coseva.Config.Dialect.{csv, invalidity}
use coseva.Config.Format.{csv_format, format_invalidity, validate_format}
use coseva.Push.Build.{IsFresh, with_options-Step}
use coseva.Push.{with_options, PushEmitter, emitted, failed, emit_nullable_record, encode}
use coseva.Push.Laws.{Step, encode-emit_nullable_record, emit_nullable_record-Step}
use coseva.Push.Session.{
  Session, IsUniform, Appends, finished, kept, lost, Session-IsUniform, Session-buffer,
}

abbrev no_floats : Bytes → Bool
no_floats _ = false

abbrev fresh : PushEmitter
fresh = record {
  buffer = [];
  dialect = csv;
  quoting = Quoting.necessary;
  write_bom = WriteBom.emit;
  nulls = Nulls.no_nulls;
  field_count = FieldCount.match_first;
  expected_fields = none;
  started = false;
}

abbrev field : Bytes
field = b'a' ∷ []

encode-emit_nullable_record_example :
    encode no_floats none fresh (some field ∷ none ∷ [])
    ≡ emit_nullable_record no_floats none fresh (some field ∷ none ∷ [])
encode-emit_nullable_record_example =
    encode-emit_nullable_record no_floats none fresh (some field ∷ none ∷ [])
      ((omega arith, tt), (tt, tt))

emit_nullable_record-Step_example :
    Step fresh 2 (emit_nullable_record no_floats none fresh (some field ∷ none ∷ []))
emit_nullable_record-Step_example =
    emit_nullable_record-Step no_floats none fresh (some field ∷ none ∷ []) (λ e. cc)

-- the emitter behind `a,a`, with its byte order mark
abbrev one_record : PushEmitter
one_record = record fresh {
  buffer = 0xEF ∷ 0xBB ∷ 0xBF ∷ b'a' ∷ b',' ∷ b'a' ∷ b'\n' ∷ [];
  expected_fields = some 2;
  started = true;
}

first_call :
    emit_nullable_record no_floats none fresh (some field ∷ some field ∷ []) ≡ emitted one_record
unfolding emit_nullable_record
first_call = refl

-- a record of one field, which `MatchFirst` refuses now
abbrev mismatch : Error
mismatch = new_error (ErrorKind.field_count_mismatch 2 1) start_location

second_call :
    emit_nullable_record no_floats none one_record (some field ∷ []) ≡ failed one_record mismatch
unfolding emit_nullable_record
second_call = refl

abbrev two_records : PushEmitter
two_records = record one_record { buffer = one_record.buffer ++ (b',' ∷ b'\n' ∷ []) }

third_call : emit_nullable_record no_floats none one_record (none ∷ none ∷ []) ≡ emitted two_records
unfolding emit_nullable_record
third_call = refl

document : Session no_floats none fresh (2 ∷ 2 ∷ []) two_records
document = kept fresh one_record two_records (some field ∷ some field ∷ []) (2 ∷ []) first_call (
    lost one_record one_record two_records (some field ∷ []) (2 ∷ []) mismatch second_call (
      kept one_record two_records two_records (none ∷ none ∷ []) [] third_call
        (finished two_records)))

Session-IsUniform_example : IsUniform (2 ∷ 2 ∷ [])
Session-IsUniform_example =
    Session-IsUniform no_floats none fresh two_records (2 ∷ 2 ∷ []) (λ e. cc) refl refl document

Session-buffer_example : Appends fresh (2 ∷ 2 ∷ []) two_records
Session-buffer_example =
    Session-buffer no_floats none fresh two_records (2 ∷ 2 ∷ []) (λ e. cc) document

-- a new emitter for the CSV format
abbrev plain : PushEmitter
plain = record fresh { write_bom = WriteBom.omit }

built_csv : with_options csv_format FieldCount.match_first ≡ ok plain
unfolding with_options validate_format format_invalidity invalidity quoting_enabled
built_csv = refl

with_options-Step_example :
    IsFresh csv_format FieldCount.match_first plain
    × Step plain 2 (emit_nullable_record no_floats none plain (some field ∷ none ∷ []))
with_options-Step_example =
    with_options-Step no_floats csv_format FieldCount.match_first plain (some field ∷ none ∷ [])
      built_csv
