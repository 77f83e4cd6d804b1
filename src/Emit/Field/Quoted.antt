-- ===== src/Emit/Field/Quoted.antt =====
-- What the loops of `write_quoted` and `write_csv_necessary` write: the field with each byte that
-- needs it escaped, in one pass.
use coseva.Prelude.{
  ℕ, Bool, true, false, [], ◌∷◌, ◌++◌, ◌≡◌, refl, sym, ap, ◌∙◌, Bytes, length, Bool-cases, inl, inr,
  arith, append_assoc, All, IsByte,
}
use coseva.Config.Options.{
  Escape, double_quote, backslash, mysql_escape, unquoted, escapes_unquoted,
}
use coseva.Config.Dialect.{Dialect, csv}
use coseva.Emit.Scan.{needs_quotes, needs_csv_quotes}
use coseva.Emit.Scan.Agree.{needs_csv_quotes-needs_quotes}
use coseva.Emit.Writer.{written, push, >>=-written}
use coseva.Emit.Field.{csv_loop, quoted_body, write_quoted, write_csv_necessary, write_necessary}
use coseva.Emit.Field.Rounds.{each, doubled, backslashed}
use coseva.Emit.Field.Loops.{csv_loop-each, doubled_loop-each, backslash_loop-each}

-- What a quoted field is under an escape style that quotes.
abbrev pub escaped_byte : Dialect → Escape → ℕ → Bytes
escaped_byte d double_quote = doubled d.quote
escaped_byte d (backslash e) = backslashed d.quote e
escaped_byte d mysql_escape = λ x. x ∷ []
escaped_byte d (unquoted e) = λ x. x ∷ []

abbrev pub quoted_field : Dialect → Bytes → Bytes
quoted_field d field = d.quote ∷ (each (escaped_byte d d.escape) field ++ (d.quote ∷ []))

quoted_body-each :
    (e : Escape) (d : Dialect) (xs out : Bytes)
    → escapes_unquoted e ≡ false
    → quoted_body e d xs out ≡ written (out ++ each (escaped_byte d e) xs) tt
unfolding quoted_body
quoted_body-each double_quote d xs out h = doubled_loop-each (length xs) d xs out (omega arith)
quoted_body-each (backslash e) d xs out h = backslash_loop-each (length xs) d e xs out (omega arith)
quoted_body-each mysql_escape d xs out h = cc
quoted_body-each (unquoted e) d xs out h = cc

enclose :
    (out body : Bytes) (q : ℕ)
    → ((out ++ (q ∷ [])) ++ body) ++ (q ∷ []) ≡ out ++ (q ∷ (body ++ (q ∷ [])))
enclose out body q =
    append_assoc (out ++ (q ∷ [])) body (q ∷ []) ∙ append_assoc out (q ∷ []) (body ++ (q ∷ []))

-- `write_quoted` writes the quote, the field with each byte escaped in its style, and the quote.
pub write_quoted-quoted_field :
    (d : Dialect) (field out : Bytes)
    → escapes_unquoted d.escape ≡ false
    → write_quoted d field out ≡ written (out ++ quoted_field d field) tt
unfolding write_quoted
write_quoted-quoted_field d field out h =
    >>=-written (quoted_body d.escape d field) (λ _. push d.quote)
      (quoted_body-each d.escape d field (out ++ (d.quote ∷ [])) h)
    ∙ ap (λ t. written t tt) (enclose out (each (escaped_byte d d.escape) field) d.quote)

csv_quoted :
    (field : Bytes) (is_first : Bool) (out : Bytes)
    → needs_csv_quotes field is_first ≡ true
    → write_csv_necessary field is_first out ≡ written (out ++ quoted_field csv field) tt
unfolding write_csv_necessary
csv_quoted field is_first out e =
    rw (e, write_csv_necessary)
      (>>=-written (csv_loop (length field) field) (λ _. push b'"')
          (csv_loop-each (length field) field (out ++ (b'"' ∷ [])) (omega arith))
        ∙ ap (λ t. written t tt) (enclose out (each (doubled b'"') field) b'"'))

csv_plain :
    (field : Bytes) (is_first : Bool) (out : Bytes)
    → needs_csv_quotes field is_first ≡ false
    → write_csv_necessary field is_first out ≡ written (out ++ field) tt
unfolding write_csv_necessary
csv_plain field is_first out e = rw (e, write_csv_necessary)

necessary_quoted :
    (d : Dialect) (field : Bytes) (is_first : Bool) (out : Bytes)
    → needs_quotes d field is_first ≡ true
    → write_necessary d field is_first out ≡ write_quoted d field out
unfolding write_necessary
necessary_quoted d field is_first out e = rw (e, write_necessary)

necessary_plain :
    (d : Dialect) (field : Bytes) (is_first : Bool) (out : Bytes)
    → needs_quotes d field is_first ≡ false
    → write_necessary d field is_first out ≡ written (out ++ field) tt
unfolding write_necessary
necessary_plain d field is_first out e = rw (e, write_necessary)

-- The writer that is specialised for CSV writes what the general one writes for the CSV dialect.
pub write_csv_necessary-write_necessary :
    (field : Bytes) (is_first : Bool) (out : Bytes)
    → All IsByte field
    → write_csv_necessary field is_first out ≡ write_necessary csv field is_first out
write_csv_necessary-write_necessary field is_first out h =
    let same = needs_csv_quotes-needs_quotes field is_first h in
    elim (Bool-cases (needs_csv_quotes field is_first)) [
      | inl e ↦
          csv_quoted field is_first out e
          ∙ sym (write_quoted-quoted_field csv field out refl)
          ∙ sym (necessary_quoted csv field is_first out (sym same ∙ e))
      | inr e ↦
          csv_plain field is_first out e
          ∙ sym (necessary_plain csv field is_first out (sym same ∙ e))
    ]
