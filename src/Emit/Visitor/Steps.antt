-- ===== src/Emit/Visitor/Steps.antt =====
-- One field of a record: for the visitor, and for `emit_nullable_record_runtime`.
use coseva.Prelude.{
  ◌⊎◌, ℕ, ◌+◌, ◌≤◌, Bool, true, Option, none, some, ◌≡◌, refl, ap, ◌∙◌, ◌==◌, if◌then◌else◌, Bytes,
  All, IsByte, is_empty, Bool-cases, inl, inr, arith, take,
}
use coseva.Config.Options.{Quoting, Nulls}
use coseva.Config.Dialect.{Dialect}
use coseva.Config.Format.{FormatOptions}
use coseva.Error.{Error}
use coseva.Emit.Writer.{
  Writer, Written, written, refused, panicked, ◌>>=◌, ◌>>◌, return, truncate_on_error,
  truncate-written, truncate-refused, >>=-written, >>=-refused, >>=-panicked,
}
use coseva.Emit.Field.Framing.{empty_field-written}
use coseva.Emit.Policy.{no_nulls_set, write_non_null_empty, write_null}
use coseva.Emit.Record.{emit_nullable_field}
use coseva.Emit.Visitor.{DirectEncodeVisitor, count_field, write_field, write_null_field}
use coseva.Emit.Visitor.Agree.{
  Fits, canonical_field, configured_field, separator, write_field-canonical,
}

first_flag : (n : ℕ) (a b : Bool) → n + 1 ≤ 1 → a ≡ (if n + 1 == 1 then a else b)
first_flag n a b h = ground arith

-- the bytes of a field that is not NULL
abbrev pub FieldIsBytes : Option Bytes → Type 0
FieldIsBytes none = Unit {0}
FieldIsBytes (some field) = All IsByte field

-- the visitor behind one more field
unfoldable pub advance : DirectEncodeVisitor → Bool → DirectEncodeVisitor
advance v flag = record v { field_count = v.field_count + 1; only_field_was_non_null_empty = flag }

module _ (parses_f64 : Bytes → Bool) where
  unfoldable pub visit_one :
      Option FormatOptions → DirectEncodeVisitor → Option Bytes → Writer DirectEncodeVisitor
  unfolding write_field write_null_field
  visit_one options v none = write_null_field parses_f64 v
  visit_one options v (some field) = write_field parses_f64 options v field

  unfoldable pub record_one : DirectEncodeVisitor → Option Bytes → Bool → Writer Bool
  unfolding emit_nullable_field
  record_one v field was_empty =
      emit_nullable_field parses_f64 v.dialect v.quoting v.nulls v.record_start field
        (v.field_count + 1) was_empty

  -- One field, from the buffer `out`, and from `framed` behind its separator.
  pub data Step (options : Option FormatOptions) (v : DirectEncodeVisitor) (field : Option Bytes)
      (was_empty : Bool) (out framed : Bytes) : Type 0 where
    both_wrote :
        (out' : Bytes) (flag empty : Bool)
        → visit_one options v field out ≡ written out' (advance v flag)
        → record_one v field was_empty framed ≡ written out' empty
        → (v.field_count + 1 ≤ 1 → empty ≡ flag)
        → Step options v field was_empty out framed
    both_refused :
        (out' : Bytes) (e : Error)
        → visit_one options v field out ≡ refused out' e
        → record_one v field was_empty framed ≡ refused (take v.record_start out') e
        → Step options v field was_empty out framed
    both_panicked :
        visit_one options v field out ≡ panicked
        → record_one v field was_empty framed ≡ panicked
        → Step options v field was_empty out framed

  some-Step :
      (options : Option FormatOptions) (v : DirectEncodeVisitor) (field : Bytes) (was_empty : Bool)
      (out framed : Bytes) (w : Written (Unit {0}))
      → Fits options v
      → All IsByte field
      → separator v out ≡ written framed tt
      → configured_field parses_f64 v field framed ≡ w
      → Step options v (some field) was_empty out framed
  unfolding visit_one record_one advance emit_nullable_field configured_field canonical_field
  some-Step options v field was_empty out framed w f h e c =
      let m = configured_field parses_f64 v field in
      let visited =
        write_field-canonical parses_f64 options v field out f h
        ∙ >>=-written (separator v) (λ _. m >>= λ _. return (count_field v (is_empty field))) e in
      let cut = truncate_on_error v.record_start m in
      elim w as (λ w. m framed ≡ w → Step options v (some field) was_empty out framed) [
        | written out' a ↦ λ c.
            both_wrote out' _ (is_empty field)
              (visited ∙ >>=-written m (λ _. return (count_field v (is_empty field))) c)
              (>>=-written cut (λ _. return (is_empty field))
                (truncate-written v.record_start m c ∙ c))
              (first_flag v.field_count (is_empty field) v.only_field_was_non_null_empty)
        | refused out' x ↦ λ c.
            both_refused out' x
              (visited ∙ >>=-refused m (λ _. return (count_field v (is_empty field))) c)
              (>>=-refused cut (λ _. return (is_empty field)) (truncate-refused v.record_start m c))
        | panicked ↦ λ c.
            both_panicked
              (visited ∙ >>=-panicked m (λ _. return (count_field v (is_empty field))) c)
              (>>=-panicked cut (λ _. return (is_empty field)) (rw (c, truncate_on_error)))
      ]
        c

  no_null-written :
      (d : Dialect) (quoting : Quoting) (out : Bytes)
      → ((s : Bytes) × (write_non_null_empty d quoting out ≡ written s tt))
        ⊎ (write_non_null_empty d quoting out ≡ panicked)
  unfolding write_non_null_empty
  no_null-written d Quoting.non_numeric out = empty_field-written d out
  no_null-written d Quoting.always out = empty_field-written d out
  no_null-written d Quoting.necessary out = inl (out, refl)
  no_null-written d Quoting.never out = inl (out, refl)
  no_null-written d Quoting.raw out = inl (out, refl)

  null-written : (nulls : Nulls) (out : Bytes) → (s : Bytes) × (write_null nulls out ≡ written s tt)
  unfolding write_null
  null-written Nulls.no_nulls out = (out, refl)
  null-written Nulls.mysql_nulls out = (_, refl)
  null-written Nulls.postgres_csv out = (out, refl)

  visit_null : DirectEncodeVisitor → Bool → Writer DirectEncodeVisitor
  unfolding advance
  visit_null v b =
      if b
      then (do write_non_null_empty v.dialect v.quoting; return (advance v true))
      else (do write_null v.nulls; return (advance v v.only_field_was_non_null_empty))

  record_null : DirectEncodeVisitor → Bool → Bool → Writer Bool
  record_null v was_empty b =
      if b
      then (do write_non_null_empty v.dialect v.quoting; return true)
      else (do write_null v.nulls; return was_empty)

  none-Step :
      (options : Option FormatOptions) (v : DirectEncodeVisitor) (was_empty : Bool)
      (out framed : Bytes)
      → (v.field_count + 1 ≤ 1 → was_empty ≡ v.only_field_was_non_null_empty)
      → separator v out ≡ written framed tt
      → Step options v none was_empty out framed
  unfolding visit_one record_one emit_nullable_field write_null_field separator visit_null
      record_null advance
  none-Step options v was_empty out framed h e =
      let visited = >>=-written (separator v) (λ _. visit_null v (no_nulls_set v.nulls)) e in
      let empty = write_non_null_empty v.dialect v.quoting in
      elim (Bool-cases (no_nulls_set v.nulls)) [
        | inl n ↦ elim (no_null-written v.dialect v.quoting framed) [
          | inl (s, w) ↦
              both_wrote s true true
                (visited
                  ∙ ap (λ b. visit_null v b framed) n
                  ∙ >>=-written empty (λ _. return (advance v true)) w)
                (ap (λ b. record_null v was_empty b framed) n
                  ∙ >>=-written empty (λ _. return true) w)
                (λ _. refl)
          | inr w ↦
              both_panicked
                (visited
                  ∙ ap (λ b. visit_null v b framed) n
                  ∙ >>=-panicked empty (λ _. return (advance v true)) w)
                (ap (λ b. record_null v was_empty b framed) n
                  ∙ >>=-panicked empty (λ _. return true) w)
        ]
        | inr n ↦
            let (s, w) = null-written v.nulls framed in
            both_wrote s v.only_field_was_non_null_empty was_empty
              (visited
                ∙ ap (λ b. visit_null v b framed) n
                ∙ >>=-written (write_null v.nulls)
                    (λ _. return (advance v v.only_field_was_non_null_empty)) w)
              (ap (λ b. record_null v was_empty b framed) n
                ∙ >>=-written (write_null v.nulls) (λ _. return was_empty) w)
              h
      ]

  pub step :
      (options : Option FormatOptions) (v : DirectEncodeVisitor) (field : Option Bytes)
      (was_empty : Bool) (out framed : Bytes)
      → Fits options v
      → FieldIsBytes field
      → (v.field_count ≤ 1 → was_empty ≡ v.only_field_was_non_null_empty)
      → separator v out ≡ written framed tt
      → Step options v field was_empty out framed
  step options v none was_empty out framed f h e s =
      none-Step options v was_empty out framed (λ i. e (omega arith)) s
  step options v (some field) was_empty out framed f h e s =
      some-Step options v field was_empty out framed _ f h s refl
