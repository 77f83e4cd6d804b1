-- ===== src/Emit/Record/Settled.antt =====
-- A record is written whole or not at all: what `emit_nullable_record_runtime` leaves behind.
use coseva.Prelude.{
  ℕ, ◌+◌, Bool, true, false, List, [], ◌∷◌, ◌++◌, Option, none, some, append_assoc, append-nil,
  take-append, ◌≡◌, refl, sym, ap, subst, ◌∙◌, ◌==◌, ◌&&◌, Bytes, length, take, if◌then◌else◌,
  is_empty, arith,
}
use coseva.Error.{Error}
use coseva.Config.Options.{Quoting, Nulls}
use coseva.Config.Dialect.{Dialect}
use coseva.Config.Format.{FormatOptions, format_invalidity}
use coseva.Emit.Writer.{
  Writer, Written, written, refused, ◌>>=◌, ◌>>◌, return, extend, truncate_on_error, >>=-written,
  >>=-refused, truncate-written, truncate-refused,
}
use coseva.Emit.Writer.Total.{IsTotal, extend-IsTotal, return-IsTotal, if-IsTotal}
use coseva.Emit.Writer.Orderly.{Kept, kept_written, kept_refused}
use coseva.Emit.Field.{write_delimiter, finish_record}
use coseva.Emit.Field.Framing.{write_delimiter-IsTotal, finish_record-IsTotal}
use coseva.Emit.Field.Orderly.{
  NeverIfEscaping, write_non_null_empty-IsTotal, write_null-IsTotal,
  write_configured_field-IsOrderly,
}
use coseva.Emit.Policy.{
  no_nulls_set, is_necessary, write_non_null_empty, write_null, write_configured_field,
}
use coseva.Emit.Record.{emit_nullable_field, emit_nullable_fields, emit_nullable_record_runtime}

-- Behind `base`, either something was added, with a result that is as wanted, or the writer refused
-- and `base` is what is left.
pub data Settled {ℓ} {A : Type ℓ} (wanted : A → Type 0) (base : Bytes) (w : Written A)
    : Type ℓ where
  committed :
      (added : Bytes) (a : A) → w ≡ written (base ++ added) a → wanted a → Settled wanted base w
  rolled_back : (e : Error) → w ≡ refused base e → Settled wanted base w

then-Settled {ℓ κ} :
    {A : Type ℓ} {B : Type κ} (wanted : A → Type 0) (wanted' : B → Type 0) (base : Bytes)
    (m : Writer A) (f : A → Writer B) (out : Bytes)
    → Settled wanted base (m out)
    → ((a : A) (added : Bytes) → wanted a → Settled wanted' base (f a (base ++ added)))
    → Settled wanted' base ((m >>= f) out)
then-Settled wanted wanted' base m f out (committed s a e p) q =
    subst (Settled wanted' base) (sym (>>=-written m f e)) (q a s p)
then-Settled wanted wanted' base m f out (rolled_back x e) q = rolled_back x (>>=-refused m f e)

weakened {ℓ} :
    {A : Type ℓ} (wanted wanted' : A → Type 0) (base : Bytes) (w : Written A)
    → ((a : A) → wanted a → wanted' a)
    → Settled wanted base w
    → Settled wanted' base w
weakened wanted wanted' base w f (committed s a e p) = committed s a e (f a p)
weakened wanted wanted' base w f (rolled_back x e) = rolled_back x e

total-Settled :
    (base added : Bytes) (m : Writer (Unit {0}))
    → IsTotal m
    → Settled (λ _. Unit {0}) base (m (base ++ added))
total-Settled base added m p =
    let (s, e) = p (base ++ added) in
    committed (added ++ s) tt (e ∙ ap (λ o. written o tt) (append_assoc base added s)) tt

truncated :
    (base added : Bytes) (m : Writer (Unit {0}))
    → Kept (base ++ added) (m (base ++ added))
    → Settled (λ _. Unit {0}) base (truncate_on_error (length base) m (base ++ added))
truncated base added m (kept_written s a e) =
    committed (added ++ s) tt
      (truncate-written (length base) m e ∙ e ∙ ap (λ o. written o tt) (append_assoc base added s))
      tt
truncated base added m (kept_refused s x e) = rolled_back x (
    truncate-refused (length base) m e
    ∙ ap (λ o. refused o x)
        (ap (take (length base)) (append_assoc base added s) ∙ take-append base (added ++ s)))

-- what follows the loop, given the test for a lone empty field
ending : Dialect → Bool → ℕ → Writer ℕ
unfolding finish_record
ending d quotes field_count = do
  if quotes then extend (d.quote ∷ d.quote ∷ []) else return tt
  finish_record d
  return field_count

ending-Settled :
    (d : Dialect) (quotes : Bool) (field_count n : ℕ) (base added : Bytes)
    → field_count ≡ n
    → Settled (λ m. m ≡ n) base (ending d quotes field_count (base ++ added))
unfolding ending
ending-Settled d quotes field_count n base added e =
    let closing : Writer (Unit {0}) =
      if quotes then extend (d.quote ∷ d.quote ∷ []) else return tt in
    let closed : IsTotal closing =
      if-IsTotal quotes (extend (d.quote ∷ d.quote ∷ [])) (return tt)
        (extend-IsTotal (d.quote ∷ d.quote ∷ [])) return-IsTotal in
    then-Settled (λ _. Unit {0}) (λ m. m ≡ n) base closing
      (λ _. finish_record d >> return field_count) (base ++ added)
      (total-Settled base added closing closed)
      (λ a s u.
        then-Settled (λ _. Unit {0}) (λ m. m ≡ n) base (finish_record d) (λ _. return field_count)
          (base ++ s) (total-Settled base s (finish_record d) (finish_record-IsTotal d))
          (λ a' s' u'. committed s' field_count refl e))

module _ (parses_f64 : Bytes → Bool) where
  field-Settled :
      (d : Dialect) (quoting : Quoting) (nulls : Nulls) (base added : Bytes) (field : Option Bytes)
      (field_count : ℕ) (was_empty : Bool)
      → NeverIfEscaping d quoting
      → Settled
          (λ _. Unit {0})
          base
          (emit_nullable_field parses_f64 d quoting nulls
            (length base)
            field
            field_count
            was_empty
            (base ++ added))
  unfolding emit_nullable_field
  field-Settled d quoting nulls base added none field_count was_empty h =
      null_settled (no_nulls_set nulls)
    where
      null_settled :
          (b : Bool)
          → Settled
              (λ _. Unit {0})
              base
              ((if b
                  then (do write_non_null_empty d quoting; return true)
                  else (do write_null nulls; return was_empty))
                (base ++ added))
      null_settled true =
          then-Settled (λ _. Unit {0}) (λ _. Unit {0}) base (write_non_null_empty d quoting)
            (λ _. return true) (base ++ added)
            (total-Settled base added (write_non_null_empty d quoting)
              (write_non_null_empty-IsTotal d quoting h))
            (λ a s u. committed s true refl tt)
      null_settled false =
          then-Settled (λ _. Unit {0}) (λ _. Unit {0}) base (write_null nulls)
            (λ _. return was_empty) (base ++ added)
            (total-Settled base added (write_null nulls) (write_null-IsTotal nulls))
            (λ a s u. committed s was_empty refl tt)
  field-Settled d quoting nulls base added (some field) field_count was_empty h =
      then-Settled (λ _. Unit {0}) (λ _. Unit {0}) base
        (truncate_on_error (length base)
          (write_configured_field parses_f64 d quoting nulls field (field_count == 1)))
        (λ _. return (is_empty field)) (base ++ added)
        (truncated base added
          (write_configured_field parses_f64 d quoting nulls field (field_count == 1))
          (write_configured_field-IsOrderly parses_f64 d quoting nulls field (field_count == 1)
            (base ++ added)))
        (λ a s u. committed s (is_empty field) refl tt)

  fields-Settled :
      (d : Dialect) (quoting : Quoting) (nulls : Nulls) (base : Bytes)
      (fields : List (Option Bytes)) (field_count : ℕ) (was_empty : Bool) (added : Bytes)
      → NeverIfEscaping d quoting
      → Settled
          (λ counted. counted.0 ≡ field_count + length fields)
          base
          (emit_nullable_fields parses_f64 d quoting nulls
            (length base)
            fields
            field_count
            was_empty
            (base ++ added))
  unfolding emit_nullable_fields
  fields-Settled d quoting nulls base [] field_count was_empty added h =
      committed added (field_count, was_empty) refl (omega arith)
  fields-Settled d quoting nulls base (field ∷ fields) field_count was_empty added h =
      let separator : Writer (Unit {0}) =
        if field_count == 0 then return tt else write_delimiter d in
      let one =
        emit_nullable_field parses_f64 d quoting nulls (length base) field (field_count + 1)
          was_empty in
      let rest : Bool → Writer (ℕ × Bool) =
        emit_nullable_fields parses_f64 d quoting nulls (length base) fields (field_count + 1) in
      let wanted : ℕ × Bool → Type 0 =
        λ counted. counted.0 ≡ field_count + length (field ∷ fields) in
      then-Settled (λ _. Unit {0}) wanted base separator (λ _. one >>= rest) (base ++ added)
        (total-Settled base added separator (
          if-IsTotal (field_count == 0) (return tt) (write_delimiter d) return-IsTotal
            (write_delimiter-IsTotal d)))
        (λ a s u.
          then-Settled (λ _. Unit {0}) wanted base one rest (base ++ s)
            (field-Settled d quoting nulls base s field (field_count + 1) was_empty h)
            (λ empty s' u'.
              weakened (λ counted. counted.0 ≡ field_count + 1 + length fields) wanted base _
                (λ counted e. omega arith)
                (fields-Settled d quoting nulls base fields (field_count + 1) empty s' h)))

  -- Whatever the fields, a record is settled: its text is appended and the result is the number of
  -- its fields, or it is refused and the buffer is what it was. It never panics, for a dialect
  -- that escapes outside quotes only under the policy that never quotes.
  pub emit_nullable_record_runtime-Settled :
      (d : Dialect) (quoting : Quoting) (nulls : Nulls) (fields : List (Option Bytes)) (out : Bytes)
      → NeverIfEscaping d quoting
      → Settled
          (λ field_count. field_count ≡ length fields)
          out
          (emit_nullable_record_runtime parses_f64 d quoting nulls fields out)
  unfolding emit_nullable_record_runtime ending
  emit_nullable_record_runtime-Settled d quoting nulls fields out h =
      then-Settled (λ counted. counted.0 ≡ length fields)
        (λ field_count. field_count ≡ length fields) out
        (emit_nullable_fields parses_f64 d quoting nulls (length out) fields 0 false)
        (λ counted. λ end.
          ending d (counted.0 == 1 && counted.1 && length end == length out && is_necessary quoting)
            counted.0 end)
        out
        (subst
          (λ o.
            Settled (λ counted. counted.0 ≡ length fields) out
              (emit_nullable_fields parses_f64 d quoting nulls (length out) fields 0 false o))
          (append-nil out)
          (weakened (λ counted. counted.0 ≡ 0 + length fields)
            (λ counted. counted.0 ≡ length fields) out _ (λ counted e. omega arith)
            (fields-Settled d quoting nulls out fields 0 false [] h)))
        (λ counted s e. ending-Settled d _ counted.0 (length fields) out s e)

-- A format that passes its own validation meets what `Settled` asks of its dialect.
pub valid_format-NeverIfEscaping :
    (f : FormatOptions) → format_invalidity f ≡ none → NeverIfEscaping f.dialect f.quoting
unfolding format_invalidity
valid_format-NeverIfEscaping f h = λ e. ground arith
