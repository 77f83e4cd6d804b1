-- ===== src/Emit/Visitor/Agree.antt =====
-- `DirectEncodeVisitor` frames a record as `emit_nullable_record_runtime` does.
use coseva.Prelude.{
  ◌+◌, Bool, true, Option, ◌≡◌, refl, sym, ap, ◌∙◌, ◌==◌, if◌then◌else◌, Bytes, All, IsByte,
  is_empty, Bool-cases, inl, inr,
}
use coseva.Config.Options.{Quoting, Nulls}
use coseva.Config.Dialect.{csv}
use coseva.Config.Format.{FormatOptions}
use coseva.Emit.Writer.{Writer, ◌>>◌, return, push, >>=-ext}
use coseva.Emit.Field.{write_csv_necessary, write_delimiter}
use coseva.Emit.Field.Quoted.{write_csv_necessary-write_necessary}
use coseva.Emit.Policy.{
  plain, configured, ConfiguredPath, configured_path, write_general, write_configured_field,
}
use coseva.Emit.Policy.Agree.{
  write_record_field-write_general, configured_plain, configured_path-plain,
}
use coseva.Emit.Visitor.{
  DirectEncodeVisitor, is_static_csv, count_field, write_by_path, static_csv_field, dynamic_field,
  write_field,
}

-- A visitor of a static CSV format holds that format's policies.
pub record Fits (options : Option FormatOptions) (v : DirectEncodeVisitor) : Type 0 where
  pub static_dialect : is_static_csv options ≡ true → v.dialect ≡ csv
  pub static_quoting : is_static_csv options ≡ true → v.quoting ≡ Quoting.necessary
  pub static_nulls : is_static_csv options ≡ true → v.nulls ≡ Nulls.no_nulls

-- what comes before a field
unfoldable pub separator : DirectEncodeVisitor → Writer (Unit {0})
separator v = if v.field_count == 0 then return tt else write_delimiter v.dialect

module _ (parses_f64 : Bytes → Bool) where
  unfoldable pub configured_field : DirectEncodeVisitor → Bytes → Writer (Unit {0})
  configured_field v field =
      write_configured_field parses_f64 v.dialect v.quoting v.nulls field (v.field_count + 1 == 1)

  by_path-configured :
      (v : DirectEncodeVisitor) (p : ConfiguredPath) (field out : Bytes)
      → All IsByte field
      → configured_path v.dialect v.nulls ≡ p
      → write_by_path parses_f64 p v field (v.field_count + 1 == 1) out
        ≡ configured_field v field out
  unfolding write_by_path configured_field
  by_path-configured v plain field out h e =
      let (n, u) = configured_path-plain parses_f64 v.dialect v.nulls e in
      write_record_field-write_general parses_f64 v.dialect v.quoting field (v.field_count + 1 == 1)
        out h
      ∙ ap (λ m. m out)
          (sym (
            configured_plain parses_f64 v.dialect v.quoting v.nulls field (v.field_count + 1 == 1) n
              u))
  by_path-configured v configured field out h e = refl

  -- One field of the visitor: the separator, the field under its policies, the counters.
  unfoldable pub canonical_field : DirectEncodeVisitor → Bytes → Writer DirectEncodeVisitor
  unfolding separator
  canonical_field v field = do
    separator v
    configured_field v field
    return (count_field v (is_empty field))

  dynamic-canonical :
      (v : DirectEncodeVisitor) (field out : Bytes)
      → All IsByte field
      → dynamic_field parses_f64 v field out ≡ canonical_field v field out
  unfolding dynamic_field canonical_field
  dynamic-canonical v field out h = >>=-ext (separator v) (separator v) _ _ out refl (λ a out1.
      >>=-ext
        (write_by_path parses_f64 (configured_path v.dialect v.nulls) v field
          (v.field_count + 1 == 1))
        (configured_field v field) (λ b. return (count_field v (is_empty field)))
        (λ b. return (count_field v (is_empty field))) out1
        (by_path-configured v (configured_path v.dialect v.nulls) field out1 h refl)
        (λ b out2. refl))

  csv-separator :
      (v : DirectEncodeVisitor) (out : Bytes)
      → v.dialect ≡ csv
      → (if v.field_count == 0 then return tt else push b',') out ≡ separator v out
  csv-separator v out d = elim (Bool-cases (v.field_count == 0)) [
    | inl e ↦ unfold separator in rw (e, separator)
    | inr e ↦ unfold separator in rw (e, separator, d) (unfold write_delimiter in refl)
  ]

  csv_field :
      (v : DirectEncodeVisitor) (field out : Bytes)
      → v.dialect ≡ csv
      → v.quoting ≡ Quoting.necessary
      → v.nulls ≡ Nulls.no_nulls
      → All IsByte field
      → write_csv_necessary field (v.field_count + 1 == 1) out ≡ configured_field v field out
  unfolding configured_field write_general
  csv_field v field out d q n h =
      write_csv_necessary-write_necessary field (v.field_count + 1 == 1) out h
      ∙ ap (λ m. m out)
          (sym (
            configured_plain parses_f64 csv Quoting.necessary Nulls.no_nulls field
              (v.field_count + 1 == 1) refl refl))
      ∙ ap
          (λ d'.
            write_configured_field parses_f64 d' Quoting.necessary Nulls.no_nulls field
              (v.field_count + 1 == 1) out)
          (sym d)
      ∙ ap
          (λ q'.
            write_configured_field parses_f64 v.dialect q' Nulls.no_nulls field
              (v.field_count + 1 == 1) out)
          (sym q)
      ∙ ap
          (λ n'.
            write_configured_field parses_f64 v.dialect v.quoting n' field (v.field_count + 1 == 1)
              out)
          (sym n)

  static-canonical :
      (v : DirectEncodeVisitor) (field out : Bytes)
      → v.dialect ≡ csv
      → v.quoting ≡ Quoting.necessary
      → v.nulls ≡ Nulls.no_nulls
      → All IsByte field
      → static_csv_field parses_f64 v field out ≡ canonical_field v field out
  unfolding static_csv_field canonical_field
  static-canonical v field out d q n h =
      >>=-ext (if v.field_count == 0 then return tt else push b',') (separator v) _ _ out
        (csv-separator v out d)
        (λ a out1.
          >>=-ext (write_csv_necessary field (v.field_count + 1 == 1)) (configured_field v field)
            (λ b. return (count_field v (is_empty field)))
            (λ b. return (count_field v (is_empty field))) out1 (csv_field v field out1 d q n h)
            (λ b out2. refl))

  pub write_field-canonical :
      (options : Option FormatOptions) (v : DirectEncodeVisitor) (field out : Bytes)
      → Fits options v
      → All IsByte field
      → write_field parses_f64 options v field out ≡ canonical_field v field out
  write_field-canonical options v field out f h = elim (Bool-cases (is_static_csv options)) [
    | inl e ↦
        unfold write_field in
        rw (e, write_field)
          (static-canonical v field out (f.static_dialect e) (f.static_quoting e) (f.static_nulls e)
            h)
    | inr e ↦ unfold write_field in rw (e, write_field) (dynamic-canonical v field out h)
  ]
