-- ===== src/Emit/Visitor/Simulation.antt =====
-- `DirectEncodeVisitor`, visited with a record's fields in order, frames the record that
-- `emit_nullable_record_runtime` writes.
use coseva.Prelude.{
  ℕ, ◌+◌, ◌≤◌, Bool, true, false, List, [], ◌∷◌, ◌++◌, Option, none, some, ◌≡◌, refl, sym, ◌∙◌,
  ◌==◌, Bytes, All, arith, length,
}
use coseva.Config.Options.{Quoting, Nulls}
use coseva.Config.Dialect.{Dialect, csv}
use coseva.Config.Equality.{dialect_eq, dialect_eq→eq}
use coseva.Config.Format.{FormatOptions}
use coseva.Emit.Writer.{
  Writer, written, ◌>>=◌, return, truncate_on_error, >>=-cong, truncate-cong, >>=-written,
  >>=-refused, >>=-panicked, >>=-assoc,
}
use coseva.Emit.Writer.Total.{IsTotal, return-IsTotal, if-IsTotal}
use coseva.Emit.Field.{write_delimiter}
use coseva.Emit.Field.Framing.{write_delimiter-IsTotal}
use coseva.Emit.Record.{emit_nullable_fields, emit_nullable_record_runtime}
use coseva.Emit.Visitor.{
  is_static_csv, DirectEncodeVisitor, visit_record, fmt_dialect, fmt_quoting, fmt_nulls, finish,
  new_visitor, visit_all, write_field, write_null_field,
}
use coseva.Emit.Visitor.Agree.{Fits, separator}
use coseva.Emit.Visitor.Runs.{record_end, visitor_run, record_run, end-agree}
use coseva.Emit.Visitor.Steps.{
  FieldIsBytes, visit_one, advance, record_one, Step, both_wrote, both_refused, both_panicked, step,
}

-- the visitor that `new_visitor` makes
abbrev started : Option FormatOptions → Dialect → Quoting → Nulls → ℕ → DirectEncodeVisitor
started options d quoting nulls record_start = record {
  dialect = fmt_dialect options d;
  quoting = fmt_quoting options quoting;
  nulls = fmt_nulls options nulls;
  record_start = record_start;
  field_count = 0;
  only_field_was_non_null_empty = false;
}

not_static : ¬ (is_static_csv none ≡ true)
unfolding is_static_csv
not_static e = cc

static_policies :
    (options : FormatOptions)
    → is_static_csv (some options) ≡ true
    → (dialect_eq options.dialect csv ≡ true)
      × (options.quoting ≡ Quoting.necessary)
      × (options.nulls ≡ Nulls.no_nulls)
unfolding is_static_csv
static_policies options h = ground arith

started-Fits :
    (options : Option FormatOptions) (d : Dialect) (quoting : Quoting) (nulls : Nulls)
    (record_start : ℕ)
    → Fits options (started options d quoting nulls record_start)
started-Fits none d quoting nulls record_start = record {
  static_dialect = λ e. absurd (not_static e);
  static_quoting = λ e. absurd (not_static e);
  static_nulls = λ e. absurd (not_static e);
}
started-Fits (some options) d quoting nulls record_start = record {
  static_dialect = λ e. dialect_eq→eq options.dialect csv (static_policies options e).0;
  static_quoting = λ e. (static_policies options e).1;
  static_nulls = λ e. (static_policies options e).2;
}

separator-IsTotal : (v : DirectEncodeVisitor) → IsTotal (separator v)
unfolding separator
separator-IsTotal v =
    if-IsTotal (v.field_count == 0) (return tt) (write_delimiter v.dialect) return-IsTotal
      (write_delimiter-IsTotal v.dialect)

module _ (parses_f64 : Bytes → Bool) where
  visit_next :
      (options : Option FormatOptions) (v : DirectEncodeVisitor) (field : Option Bytes)
      (fields : List (Option Bytes)) (out : Bytes)
      → visitor_run parses_f64 options v (field ∷ fields) out
        ≡ truncate_on_error v.record_start
            (visit_one parses_f64 options v field >>= λ v'.
              visit_all parses_f64 options v' fields >>= finish parses_f64)
            out
  unfolding visitor_run visit_one visit_all
  visit_next options v none fields out =
      truncate-cong v.record_start
        (visit_all parses_f64 options v (none ∷ fields) >>= finish parses_f64)
        (write_null_field parses_f64 v >>= λ v'.
          visit_all parses_f64 options v' fields >>= finish parses_f64)
        (>>=-assoc (write_null_field parses_f64 v) (λ v'. visit_all parses_f64 options v' fields)
          (finish parses_f64) out)
  visit_next options v (some field) fields out =
      truncate-cong v.record_start
        (visit_all parses_f64 options v (some field ∷ fields) >>= finish parses_f64)
        (write_field parses_f64 options v field >>= λ v'.
          visit_all parses_f64 options v' fields >>= finish parses_f64)
        (>>=-assoc (write_field parses_f64 options v field)
          (λ v'. visit_all parses_f64 options v' fields) (finish parses_f64) out)

  record_next :
      (v : DirectEncodeVisitor) (field : Option Bytes) (fields : List (Option Bytes))
      (was_empty : Bool) (out framed : Bytes)
      → separator v out ≡ written framed tt
      → record_run parses_f64 v (field ∷ fields) was_empty out
        ≡ (record_one parses_f64 v field was_empty >>= λ empty.
              record_run parses_f64 (advance v empty) fields empty)
            framed
  unfolding record_run record_one separator advance emit_nullable_fields
  record_next v field fields was_empty out framed e =
      let later : Bool → Writer (ℕ × Bool) =
        emit_nullable_fields parses_f64 v.dialect v.quoting v.nulls v.record_start fields
          (v.field_count + 1) in
      >>=-cong
        (emit_nullable_fields parses_f64 v.dialect v.quoting v.nulls v.record_start (field ∷ fields)
          v.field_count was_empty)
        (record_one parses_f64 v field was_empty >>= later)
        (record_end v.dialect v.quoting v.record_start)
        (>>=-written (separator v) (λ _. record_one parses_f64 v field was_empty >>= later) e)
      ∙ >>=-assoc (record_one parses_f64 v field was_empty) later
          (record_end v.dialect v.quoting v.record_start) framed

  -- Agreement on one field carries agreement on the rest over.
  carry :
      (options : Option FormatOptions) (v : DirectEncodeVisitor) (field : Option Bytes)
      (fields : List (Option Bytes)) (was_empty : Bool) (out framed : Bytes)
      → separator v out ≡ written framed tt
      → Step parses_f64 options v field was_empty out framed
      → ((flag empty : Bool) (out' : Bytes)
          → (v.field_count + 1 ≤ 1 → empty ≡ flag)
          → visitor_run parses_f64 options (advance v flag) fields out'
            ≡ record_run parses_f64 (advance v flag) fields empty out')
      → visitor_run parses_f64 options v (field ∷ fields) out
        ≡ record_run parses_f64 v (field ∷ fields) was_empty out
  unfolding visitor_run record_run advance
  carry options v field fields was_empty out framed e (both_wrote out' flag empty p q h) next =
      visit_next options v field fields out
      ∙ (rw (p, truncate_on_error))
      ∙ next flag empty out' h
      ∙ sym (
          >>=-written (record_one parses_f64 v field was_empty)
            (λ empty'. record_run parses_f64 (advance v empty') fields empty') q)
      ∙ sym (record_next v field fields was_empty out framed e)
  carry options v field fields was_empty out framed e (both_refused out' x p q) next =
      visit_next options v field fields out
      ∙ (rw (p, truncate_on_error))
      ∙ sym (
          >>=-refused (record_one parses_f64 v field was_empty)
            (λ empty'. record_run parses_f64 (advance v empty') fields empty') q)
      ∙ sym (record_next v field fields was_empty out framed e)
  carry options v field fields was_empty out framed e (both_panicked p q) next =
      visit_next options v field fields out
      ∙ (rw (p, truncate_on_error))
      ∙ sym (
          >>=-panicked (record_one parses_f64 v field was_empty)
            (λ empty'. record_run parses_f64 (advance v empty') fields empty') q)
      ∙ sym (record_next v field fields was_empty out framed e)

  runs-agree :
      (options : Option FormatOptions) (fields : List (Option Bytes)) (v : DirectEncodeVisitor)
      (was_empty : Bool) (out : Bytes)
      → Fits options v
      → All FieldIsBytes fields
      → (v.field_count ≤ 1 → was_empty ≡ v.only_field_was_non_null_empty)
      → visitor_run parses_f64 options v fields out ≡ record_run parses_f64 v fields was_empty out
  unfolding advance
  runs-agree options [] v was_empty out f h e = end-agree parses_f64 options v was_empty out e
  runs-agree options (field ∷ fields) v was_empty out f (h, hs) e =
      let (s, framed) = separator-IsTotal v out in
      carry options v field fields was_empty out (out ++ s) framed
        (step parses_f64 options v field was_empty out (out ++ s) f h e framed)
        (λ flag empty out' e'.
          runs-agree options fields (advance v flag) empty out'
            (record {
              static_dialect = f.static_dialect;
              static_quoting = f.static_quoting;
              static_nulls = f.static_nulls;
            })
            hs e')

  -- Visiting a record's fields in order writes what `emit_nullable_record_runtime` writes for
  -- them, with the same count, refusal or panic, once a refusal takes the record back: for
  -- fields of bytes, and for the policies that the visitor was made with.
  pub visit-emit_nullable_record :
      (options : Option FormatOptions) (d : Dialect) (quoting : Quoting) (nulls : Nulls)
      (fields : List (Option Bytes)) (out : Bytes)
      → All FieldIsBytes fields
      → truncate_on_error (length out) (visit_record parses_f64 options d quoting nulls fields) out
        ≡ emit_nullable_record_runtime parses_f64
            (fmt_dialect options d)
            (fmt_quoting options quoting)
            (fmt_nulls options nulls)
            fields
            out
  unfolding visit_record emit_nullable_record_runtime new_visitor visitor_run record_run record_end
  visit-emit_nullable_record options d quoting nulls fields out h =
      runs-agree options fields (started options d quoting nulls (length out)) false out
        (started-Fits options d quoting nulls (length out)) h (λ _. refl)
