-- ===== src/Tests/Emit.antt =====
-- The theorems on the emitter's writers, at concrete fields and records.
use coseva.Prelude.{
  ◌↔◌, true, false, Bool, List, [], ◌∷◌, ◌++◌, Option, none, some, not, ◌≡◌, refl, ◌↔◌, ◌&&◌, ◌||◌,
  ◌==◌, any, Bytes, length, All, IsByte, starts_with, bytes_eq, arith,
}
use coseva.Search.{find1, find2, find3, find4}
use coseva.Search.First.{IsFirstOf, searches-IsFirstOf}
use coseva.Config.Options.{quoting_enabled, Quoting, Nulls}
use coseva.Config.Dialect.{csv, invalidity}
use coseva.Config.Format.{format_invalidity, csv_format}
use coseva.Emit.Scan.{bom, starts_comment, matches, word_of, needs_quotes, needs_csv_quotes}
use coseva.Emit.Scan.Words.{matches-any}
use coseva.Emit.Scan.Agree.{
  forces_quotes, csv-HasBytes, needs_quotes-any, needs_csv_quotes-needs_quotes,
}
use coseva.Emit.Writer.{written, truncate_on_error}
use coseva.Emit.Field.{write_quoted, write_csv_necessary, write_necessary}
use coseva.Emit.Field.Quoted.{
  quoted_field, write_quoted-quoted_field, write_csv_necessary-write_necessary,
}
use coseva.Emit.Numeric.{
  IsDecimal, numeric, scan_numeric, is_numeric, strip_sign, scan_numeric-IsDecimal,
}
use coseva.Emit.Policy.{write_general, write_record_field}
use coseva.Emit.Policy.Agree.{write_record_field-write_general}
use coseva.Emit.Record.{emit_nullable_record_runtime}
use coseva.Emit.Record.Settled.{Settled, emit_nullable_record_runtime-Settled}
use coseva.Emit.Visitor.{visit_record}
use coseva.Emit.Visitor.Simulation.{visit-emit_nullable_record}

-- a float parser that takes `1e3` and nothing else
abbrev exponent_only : Bytes → Bool
exponent_only field = bytes_eq field (b'1' ∷ b'e' ∷ b'3' ∷ [])

-- `a,"`
abbrev tricky : Bytes
tricky = b'a' ∷ b',' ∷ b'"' ∷ []

tricky-bytes : All IsByte tricky
tricky-bytes = (omega arith, (omega arith, (omega arith, tt)))

searches-IsFirstOf_example :
    ((find1 b'"' tricky ≡ some 2) ↔ IsFirstOf (b'"' ∷ []) tricky 2)
    × ((find2 b'"' b'x' tricky ≡ some 2) ↔ IsFirstOf (b'"' ∷ b'x' ∷ []) tricky 2)
    × ((find3 b'"' b'x' b'y' tricky ≡ some 2) ↔ IsFirstOf (b'"' ∷ b'x' ∷ b'y' ∷ []) tricky 2)
    × ((find4 b'"' b'x' b'y' b',' tricky ≡ some 2)
        ↔ IsFirstOf (b'"' ∷ b'x' ∷ b'y' ∷ b',' ∷ []) tricky 2)
searches-IsFirstOf_example = searches-IsFirstOf b'"' b'x' b'y' b',' tricky 2

eight-bytes : All IsByte (b'a' ∷ b',' ∷ b'c' ∷ b'd' ∷ b'e' ∷ b'f' ∷ b'g' ∷ b'h' ∷ [])
eight-bytes = ground arith

matches-any_example :
    (matches (word_of (b'a' ∷ b',' ∷ b'c' ∷ b'd' ∷ b'e' ∷ b'f' ∷ b'g' ∷ b'h' ∷ [])) b',' == 0)
    ≡ not (any (λ x. x == b',') (b'a' ∷ b',' ∷ b'c' ∷ b'd' ∷ b'e' ∷ b'f' ∷ b'g' ∷ b'h' ∷ []))
matches-any_example =
    matches-any b',' b'a' b',' b'c' b'd' b'e' b'f' b'g' b'h' (omega arith) eight-bytes

needs_quotes-any_example : needs_quotes csv tricky true ≡ (
    (true && (starts_with tricky bom || starts_comment csv.comment tricky))
    || any (forces_quotes csv) tricky)
needs_quotes-any_example = needs_quotes-any csv tricky true csv-HasBytes tricky-bytes

needs_csv_quotes-needs_quotes_example : needs_csv_quotes tricky true ≡ needs_quotes csv tricky true
needs_csv_quotes-needs_quotes_example = needs_csv_quotes-needs_quotes tricky true tricky-bytes

write_quoted-quoted_field_example :
    write_quoted csv tricky [] ≡ written ([] ++ quoted_field csv tricky) tt
write_quoted-quoted_field_example = write_quoted-quoted_field csv tricky [] refl

write_csv_necessary-write_necessary_example :
    write_csv_necessary tricky false [] ≡ write_necessary csv tricky false []
write_csv_necessary-write_necessary_example =
    write_csv_necessary-write_necessary tricky false [] tricky-bytes

scan_numeric-IsDecimal_example :
    ((scan_numeric (b'-' ∷ b'1' ∷ []) ≡ numeric)
      ↔ IsDecimal false false (strip_sign (b'-' ∷ b'1' ∷ [])))
    × (IsDecimal false false (strip_sign (b'-' ∷ b'1' ∷ []))
        → is_numeric exponent_only (b'-' ∷ b'1' ∷ []) ≡ true)
scan_numeric-IsDecimal_example = scan_numeric-IsDecimal exponent_only (b'-' ∷ b'1' ∷ [])

write_record_field-write_general_example :
    write_record_field exponent_only csv Quoting.necessary tricky false []
    ≡ write_general exponent_only csv Quoting.necessary tricky false []
write_record_field-write_general_example =
    write_record_field-write_general exponent_only csv Quoting.necessary tricky false []
      tricky-bytes

-- `a,"` and a NULL
abbrev row : List (Option Bytes)
row = some tricky ∷ none ∷ []

emit_nullable_record_runtime-Settled_example :
    Settled
      (λ field_count. field_count ≡ length row)
      []
      (emit_nullable_record_runtime exponent_only csv Quoting.necessary Nulls.no_nulls row [])
emit_nullable_record_runtime-Settled_example =
    emit_nullable_record_runtime-Settled exponent_only csv Quoting.necessary Nulls.no_nulls row []
      (λ e. cc)

csv_valid : format_invalidity csv_format ≡ none
unfolding format_invalidity invalidity quoting_enabled
csv_valid = refl

visit-emit_nullable_record_example :
    truncate_on_error 0
      (visit_record exponent_only (some csv_format) csv Quoting.necessary Nulls.no_nulls row)
      []
    ≡ emit_nullable_record_runtime exponent_only csv_format.dialect csv_format.quoting
        csv_format.nulls row []
visit-emit_nullable_record_example =
    visit-emit_nullable_record exponent_only (some csv_format) csv Quoting.necessary Nulls.no_nulls
      row [] (tricky-bytes, (tt, tt))
