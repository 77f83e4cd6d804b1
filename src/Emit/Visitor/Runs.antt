-- ===== src/Emit/Visitor/Runs.antt =====
-- What is left to do of a record: for the visitor, and for `emit_nullable_record_runtime`.
use coseva.Prelude.{
  ℕ, ◌≤◌, Bool, List, [], ◌∷◌, ◌++◌, Option, ◌≡◌, ap, ◌∙◌, ◌&&◌, ◌==◌, if◌then◌else◌, Bytes, arith,
  length,
}
use coseva.Config.Options.{Quoting}
use coseva.Config.Dialect.{Dialect}
use coseva.Config.Format.{FormatOptions}
use coseva.Emit.Writer.{
  Writer, written, ◌>>=◌, ◌>>◌, return, extend, output_len, truncate_on_error, truncate-written,
  >>=-written,
}
use coseva.Emit.Writer.Total.{extend-IsTotal, return-IsTotal, if-IsTotal}
use coseva.Emit.Field.{finish_record}
use coseva.Emit.Field.Framing.{finish_record-IsTotal}
use coseva.Emit.Policy.{is_necessary}
use coseva.Emit.Record.{emit_nullable_fields}
use coseva.Emit.Visitor.{DirectEncodeVisitor, finish, visit_all}

-- What follows the loop of `emit_nullable_record_runtime`.
unfoldable pub record_end : Dialect → Quoting → ℕ → ℕ × Bool → Writer ℕ
unfolding finish_record
record_end d quoting record_start counted = do
  end ← output_len
  if counted.0 == 1 && counted.1 && end == record_start && is_necessary quoting
      then extend (d.quote ∷ d.quote ∷ [])
      else return tt
  finish_record d
  return counted.0

counted_once :
    (n end start : ℕ) (a b c : Bool)
    → (n ≤ 1 → a ≡ b)
    → (n == 1 && b && c && end == start) ≡ (n == 1 && a && end == start && c)
counted_once n end start a b c h = ground arith

module _ (parses_f64 : Bytes → Bool) where
  unfoldable pub visitor_run :
      Option FormatOptions → DirectEncodeVisitor → List (Option Bytes) → Writer ℕ
  unfolding visit_all finish
  visitor_run options v fields =
      truncate_on_error v.record_start (visit_all parses_f64 options v fields >>= finish parses_f64)

  unfoldable pub record_run : DirectEncodeVisitor → List (Option Bytes) → Bool → Writer ℕ
  unfolding emit_nullable_fields record_end
  record_run v fields was_empty =
      emit_nullable_fields parses_f64 v.dialect v.quoting v.nulls v.record_start fields
        v.field_count was_empty
      >>= record_end v.dialect v.quoting v.record_start

  close_by : DirectEncodeVisitor → Bool → Writer ℕ
  unfolding finish_record
  close_by v quotes = do
    if quotes then extend (v.dialect.quote ∷ v.dialect.quote ∷ []) else return tt
    finish_record v.dialect
    return v.field_count

  close_by-written :
      (v : DirectEncodeVisitor) (quotes : Bool) (out : Bytes)
      → (s : Bytes) × (close_by v quotes out ≡ written s v.field_count)
  unfolding close_by
  close_by-written v quotes out =
      let quoted : Writer (Unit {0}) =
        if quotes then extend (v.dialect.quote ∷ v.dialect.quote ∷ []) else return tt in
      let (s, e) =
        if-IsTotal quotes _ (return tt) (extend-IsTotal (v.dialect.quote ∷ v.dialect.quote ∷ []))
          return-IsTotal out in
      let (t, f) = finish_record-IsTotal v.dialect (out ++ s) in
      (
        out ++ s ++ t,
        >>=-written quoted _ e
            ∙ >>=-written (finish_record v.dialect) (λ _. return v.field_count) f,
      )

  pub end-agree :
      (options : Option FormatOptions) (v : DirectEncodeVisitor) (was_empty : Bool) (out : Bytes)
      → (v.field_count ≤ 1 → was_empty ≡ v.only_field_was_non_null_empty)
      → visitor_run options v [] out ≡ record_run v [] was_empty out
  unfolding visitor_run record_run visit_all emit_nullable_fields finish record_end close_by
  end-agree options v was_empty out h =
      truncate-written v.record_start (close_by v _) (close_by-written v _ out).1
      ∙ ap (λ t. close_by v t out)
          (counted_once v.field_count (length out) v.record_start was_empty
            v.only_field_was_non_null_empty (is_necessary v.quoting) h)
  -- the visitor's call for one field of the record
