-- ===== src/Emit/Policy/Agree.antt =====
-- The paths by which a field is written agree.
use coseva.Prelude.{Bool, true, none, ◌≡◌, refl, sym, ap, ◌∙◌, Bytes, All, IsByte, arith}
use coseva.Config.Options.{unquoted_byte, Quoting, Nulls}
use coseva.Config.Dialect.{Dialect, csv}
use coseva.Config.Equality.{dialect_eq, dialect_eq→eq}
use coseva.Emit.Field.{write_necessary}
use coseva.Emit.Field.Quoted.{write_csv_necessary-write_necessary}
use coseva.Emit.Policy.{
  csv_path, general_path, necessary_path, plain, configured_path, write_general, write_record_field,
  write_configured_field, no_nulls_set, write_necessary_by, NecessaryPath,
}

by_path :
    (p : NecessaryPath) (d : Dialect) (field : Bytes) (is_first : Bool) (out : Bytes)
    → All IsByte field
    → (p ≡ csv_path → d ≡ csv)
    → write_necessary_by p d field is_first out ≡ write_necessary d field is_first out
by_path csv_path d field is_first out h e =
    write_csv_necessary-write_necessary field is_first out h
    ∙ ap (λ t. write_necessary t field is_first out) (sym (e refl))
by_path general_path d field is_first out h e = refl

csv_path-dialect_eq : (d : Dialect) → necessary_path d ≡ csv_path → dialect_eq d csv ≡ true
unfolding necessary_path
csv_path-dialect_eq d e = ground arith

module _ (parses_f64 : Bytes → Bool) where
  -- The record writer with its CSV path writes what the general `match` on the policy writes.
  pub write_record_field-write_general :
      (d : Dialect) (quoting : Quoting) (field : Bytes) (is_first : Bool) (out : Bytes)
      → All IsByte field
      → write_record_field parses_f64 d quoting field is_first out
        ≡ write_general parses_f64 d quoting field is_first out
  unfolding write_record_field write_general
  write_record_field-write_general d Quoting.necessary field is_first out h =
      by_path (necessary_path d) d field is_first out h
        (λ e. dialect_eq→eq d csv (csv_path-dialect_eq d e))
  write_record_field-write_general d _ field is_first out h = refl

  pub configured_plain :
      (d : Dialect) (quoting : Quoting) (nulls : Nulls) (field : Bytes) (is_first : Bool)
      → no_nulls_set nulls ≡ true
      → unquoted_byte d.escape ≡ none
      → write_configured_field parses_f64 d quoting nulls field is_first
        ≡ write_general parses_f64 d quoting field is_first
  configured_plain d quoting Nulls.no_nulls field is_first n e =
      unfold write_configured_field in rw (e, write_configured_field)
  configured_plain d quoting Nulls.postgres_csv field is_first n e = cc
  configured_plain d quoting Nulls.mysql_nulls field is_first n e = cc

  pub configured_path-plain :
      (d : Dialect) (nulls : Nulls)
      → configured_path d nulls ≡ plain
      → (no_nulls_set nulls ≡ true) × (unquoted_byte d.escape ≡ none)
  unfolding configured_path
  configured_path-plain d nulls h = ground arith
