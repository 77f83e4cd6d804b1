-- ===== src/Emit/Field/Orderly.antt =====
-- No writer of a field panics under a dialect that its policy goes with, and none touches what
-- stands in the buffer.
use coseva.Prelude.{
  ℕ, Bool, true, false, [], ◌∷◌, none, not, ◌||◌, ◌&&◌, ◌≡◌, Bytes, Bool-cases, Option-cases, inl,
  inr, is_empty, bytes_eq,
}
use coseva.Error.{ErrorKind, detailed}
use coseva.Config.Options.{Escape, unquoted_byte, escapes_unquoted, Quoting, Nulls}
use coseva.Config.Dialect.{Dialect}
use coseva.Emit.Scan.{needs_quotes}
use coseva.Emit.Writer.{extend, refuse}
use coseva.Emit.Writer.Total.{IsTotal, extend-IsTotal, return-IsTotal}
use coseva.Emit.Writer.Orderly.{IsOrderly, total-IsOrderly, refuse-IsOrderly, if-IsOrderly}
use coseva.Emit.Field.{write_quoted, write_necessary, write_unquoted}
use coseva.Emit.Field.Quoted.{quoted_field, write_quoted-quoted_field}
use coseva.Emit.Unquoted.{write_unquoted_escaped_field, write_unquoted_escaped_field-field}
use coseva.Emit.Numeric.{is_numeric}
use coseva.Emit.Policy.{
  is_mysql_nulls, is_postgres_nulls, mysql_null, write_non_null_empty, write_null,
  write_non_numeric, write_null_lookalike, write_general, write_escaping, write_quoting,
  write_configured_field,
}

pub write_quoted-IsTotal :
    (d : Dialect) (field : Bytes)
    → escapes_unquoted d.escape ≡ false
    → IsTotal (write_quoted d field)
write_quoted-IsTotal d field h out = (quoted_field d field, write_quoted-quoted_field d field out h)

pub write_unquoted_escaped_field-IsTotal :
    (d : Dialect) (escape : ℕ) (field : Bytes) (is_first : Bool)
    → IsTotal (write_unquoted_escaped_field d escape field is_first)
write_unquoted_escaped_field-IsTotal d escape field is_first out =
    (_, write_unquoted_escaped_field-field d escape field is_first out)

pub write_null-IsTotal : (nulls : Nulls) → IsTotal (write_null nulls)
unfolding write_null
write_null-IsTotal Nulls.no_nulls = return-IsTotal
write_null-IsTotal Nulls.postgres_csv = return-IsTotal
write_null-IsTotal Nulls.mysql_nulls = extend-IsTotal mysql_null

-- A dialect that reads its escape outside quotes goes with the policy that never quotes.
abbrev pub NeverIfEscaping : Dialect → Quoting → Type 0
NeverIfEscaping d quoting = escapes_unquoted d.escape ≡ true → quoting ≡ Quoting.never

never_quotes :
    (d : Dialect) (quoting : Quoting)
    → ¬ (quoting ≡ Quoting.never)
    → NeverIfEscaping d quoting
    → escapes_unquoted d.escape ≡ false
never_quotes d quoting n h = elim (Bool-cases (escapes_unquoted d.escape)) [
  | inl e ↦ absurd (n (h e))
  | inr e ↦ e
]

pub write_non_null_empty-IsTotal :
    (d : Dialect) (quoting : Quoting)
    → NeverIfEscaping d quoting
    → IsTotal (write_non_null_empty d quoting)
unfolding write_non_null_empty
write_non_null_empty-IsTotal d Quoting.non_numeric h =
    write_quoted-IsTotal d [] (never_quotes d Quoting.non_numeric (λ e. cc) h)
write_non_null_empty-IsTotal d Quoting.always h =
    write_quoted-IsTotal d [] (never_quotes d Quoting.always (λ e. cc) h)
write_non_null_empty-IsTotal d Quoting.necessary h = return-IsTotal
write_non_null_empty-IsTotal d Quoting.never h = return-IsTotal
write_non_null_empty-IsTotal d Quoting.raw h = return-IsTotal

escapes_none : (e : Escape) → unquoted_byte e ≡ none → escapes_unquoted e ≡ false
escapes_none e h = rw (h, escapes_unquoted)

quoted-IsOrderly :
    (d : Dialect) (field : Bytes)
    → escapes_unquoted d.escape ≡ false
    → IsOrderly (write_quoted d field)
quoted-IsOrderly d field h = total-IsOrderly (write_quoted d field) (write_quoted-IsTotal d field h)

extend-IsOrderly : (bytes : Bytes) → IsOrderly (extend bytes)
extend-IsOrderly bytes = total-IsOrderly (extend bytes) (extend-IsTotal bytes)

null_lookalike-IsOrderly :
    (d : Dialect) (quoting : Quoting) (field : Bytes)
    → escapes_unquoted d.escape ≡ false
    → IsOrderly (write_null_lookalike d quoting field)
unfolding write_null_lookalike
null_lookalike-IsOrderly d Quoting.necessary field h = quoted-IsOrderly d field h
null_lookalike-IsOrderly d Quoting.non_numeric field h = quoted-IsOrderly d field h
null_lookalike-IsOrderly d Quoting.always field h = quoted-IsOrderly d field h
null_lookalike-IsOrderly d Quoting.never field h = refuse-IsOrderly _
null_lookalike-IsOrderly d Quoting.raw field h = refuse-IsOrderly _

module _ (parses_f64 : Bytes → Bool) where
  general-IsOrderly :
      (d : Dialect) (quoting : Quoting) (field : Bytes) (is_first : Bool)
      → escapes_unquoted d.escape ≡ false
      → IsOrderly (write_general parses_f64 d quoting field is_first)
  unfolding write_general write_necessary write_non_numeric write_unquoted
  general-IsOrderly d Quoting.necessary field is_first h =
      if-IsOrderly (needs_quotes d field is_first) (write_quoted d field) (extend field)
        (quoted-IsOrderly d field h) (extend-IsOrderly field)
  general-IsOrderly d Quoting.non_numeric field is_first h =
      if-IsOrderly (needs_quotes d field is_first || not (is_numeric parses_f64 field))
        (write_quoted d field) (extend field) (quoted-IsOrderly d field h) (extend-IsOrderly field)
  general-IsOrderly d Quoting.always field is_first h = quoted-IsOrderly d field h
  general-IsOrderly d Quoting.never field is_first h =
      if-IsOrderly (needs_quotes d field is_first)
        (refuse (detailed ErrorKind.encode "field requires quoting")) (extend field)
        (refuse-IsOrderly _) (extend-IsOrderly field)
  general-IsOrderly d Quoting.raw field is_first h = extend-IsOrderly field

  quoting-IsOrderly :
      (d : Dialect) (quoting : Quoting) (nulls : Nulls) (field : Bytes) (is_first : Bool)
      → escapes_unquoted d.escape ≡ false
      → IsOrderly (write_quoting parses_f64 d quoting nulls field is_first)
  unfolding write_quoting
  quoting-IsOrderly d quoting nulls field is_first h =
      if-IsOrderly (is_postgres_nulls nulls && is_empty field) (write_quoted d field) _
        (quoted-IsOrderly d field h)
        (if-IsOrderly (is_mysql_nulls nulls && bytes_eq field mysql_null)
          (write_null_lookalike d quoting field) (write_general parses_f64 d quoting field is_first)
          (null_lookalike-IsOrderly d quoting field h)
          (general-IsOrderly d quoting field is_first h))

  escaping-IsOrderly :
      (d : Dialect) (escape : ℕ) (nulls : Nulls) (field : Bytes) (is_first : Bool)
      → IsOrderly (write_escaping d escape nulls field is_first)
  unfolding write_escaping
  escaping-IsOrderly d escape nulls field is_first =
      if-IsOrderly (is_mysql_nulls nulls && bytes_eq field mysql_null)
        (extend (escape ∷ b'\\' ∷ b'N' ∷ [])) _ (extend-IsOrderly _)
        (total-IsOrderly _ (write_unquoted_escaped_field-IsTotal d escape field is_first))

  -- A field under its policies is written or refused, behind what stood in the buffer.
  pub write_configured_field-IsOrderly :
      (d : Dialect) (quoting : Quoting) (nulls : Nulls) (field : Bytes) (is_first : Bool)
      → IsOrderly (write_configured_field parses_f64 d quoting nulls field is_first)
  unfolding write_configured_field
  write_configured_field-IsOrderly d quoting nulls field is_first =
      elim (Option-cases (unquoted_byte d.escape)) [
        | inl e ↦ λ out.
            rw (e, write_configured_field)
              (quoting-IsOrderly d quoting nulls field is_first (escapes_none d.escape e) out)
        | inr (escape, e) ↦ λ out.
            rw (e, write_configured_field) (escaping-IsOrderly d escape nulls field is_first out)
      ]
