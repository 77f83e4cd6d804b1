-- ===== src/Emit/Field/Framing.antt =====
-- The separator and the ending of a record are written whatever the dialect is.
use coseva.Prelude.{[], ◌∷◌, ◌++◌, ◌≡◌, ◌⊎◌, inl, inr, refl, Bytes}
use coseva.Config.Options.{
  is_crlf, terminator, Escape, double_quote, backslash, mysql_escape, unquoted,
}
use coseva.Config.Tail.{as_slice}
use coseva.Config.Dialect.{Dialect}
use coseva.Emit.Writer.{push, return, extend, written, panicked, >>=-written, >>=-panicked}
use coseva.Emit.Writer.Total.{IsTotal, extend-IsTotal, return-IsTotal, if-IsTotal, >>-IsTotal}
use coseva.Emit.Field.{quoted_body, write_quoted, write_delimiter, finish_record}

pub write_delimiter-IsTotal : (d : Dialect) → IsTotal (write_delimiter d)
unfolding write_delimiter
write_delimiter-IsTotal d = >>-IsTotal (push d.delimiter) _ (extend-IsTotal (d.delimiter ∷ [])) (
    if-IsTotal _ (return tt) (extend (as_slice d.delimiter_tail)) return-IsTotal
      (extend-IsTotal (as_slice d.delimiter_tail)))

pub finish_record-IsTotal : (d : Dialect) → IsTotal (finish_record d)
unfolding finish_record
finish_record-IsTotal d =
    >>-IsTotal _ _
      (if-IsTotal (is_crlf d.record_ending) (push b'\r') (return tt) (extend-IsTotal (b'\r' ∷ []))
        return-IsTotal)
      (>>-IsTotal (push (terminator d.record_ending)) _
        (extend-IsTotal (terminator d.record_ending ∷ []))
        (if-IsTotal _ (return tt) (extend (as_slice d.ending_tail)) return-IsTotal
          (extend-IsTotal (as_slice d.ending_tail))))

empty_body :
    (escape : Escape) (d : Dialect) (out : Bytes)
    → (quoted_body escape d [] out ≡ written (out ++ []) tt)
      ⊎ (quoted_body escape d [] out ≡ panicked)
unfolding quoted_body
empty_body double_quote d out = inl refl
empty_body (backslash escape) d out = inl refl
empty_body mysql_escape d out = inr refl
empty_body (unquoted escape) d out = inr refl

-- An empty field between quotes is never refused.
pub empty_field-written :
    (d : Dialect) (out : Bytes)
    → ((s : Bytes) × (write_quoted d [] out ≡ written s tt)) ⊎ (write_quoted d [] out ≡ panicked)
unfolding write_quoted
empty_field-written d out = elim (empty_body d.escape d (out ++ (d.quote ∷ []))) [
  | inl e ↦ inl (_, >>=-written (quoted_body d.escape d []) (λ _. push d.quote) e)
  | inr e ↦ inr (>>=-panicked (quoted_body d.escape d []) (λ _. push d.quote) e)
]
