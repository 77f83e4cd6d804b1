-- ===== src/Emit/Record/Always.antt =====
-- What a record of quoted fields is on the page.
use coseva.Prelude.{
  ℕ, ◌+◌, Bool, true, false, List, [], ◌∷◌, ◌++◌, ◌≡◌, refl, sym, ap, ◌∙◌, Bytes, append_assoc,
  append-nil, take, ltb, arith, Bool-cases, inl, inr, if◌then◌else◌,
}
use coseva.Config.Options.{Quoting, escapes_unquoted, is_crlf, terminator}
use coseva.Config.Tail.{Tail, is_empty_tail, as_slice}
use coseva.Config.Dialect.{Dialect}
use coseva.Emit.Writer.{written, push, extend, return, >>=-written}
use coseva.Emit.Field.{write_quoted, write_delimiter, finish_record}
use coseva.Emit.Field.Quoted.{quoted_field, write_quoted-quoted_field}
use coseva.Emit.Record.{emit_rest, emit_fields, emit_record_runtime}

-- a separator: its first byte and its tail
abbrev pub delimiter_bytes : Dialect → Bytes
delimiter_bytes d = d.delimiter ∷ as_slice d.delimiter_tail

abbrev pub ending_bytes : Dialect → Bytes
ending_bytes d =
    (if is_crlf d.record_ending then b'\r' ∷ [] else [])
    ++ (terminator d.record_ending ∷ as_slice d.ending_tail)

-- the fields behind the first one, and the whole record
abbrev pub rest_text : Dialect → List Bytes → Bytes
rest_text d [] = []
rest_text d (field ∷ fields) = delimiter_bytes d ++ (quoted_field d field ++ rest_text d fields)

abbrev pub record_text : Dialect → Bytes → List Bytes → Bytes
record_text d first fields = quoted_field d first ++ (rest_text d fields ++ ending_bytes d)

-- An empty tail has no bytes.
pub empty-as_slice : (t : Tail) → is_empty_tail t ≡ true → as_slice t ≡ []
empty-as_slice t h =
    let z : t.len ≡ 0 = ground arith in
    ap (λ n. take (if ltb 3 n then 0 else n) (t.byte0 ∷ t.byte1 ∷ t.byte2 ∷ [])) z

tail_written :
    (t : Tail) (out : Bytes)
    → (if is_empty_tail t then return tt else extend (as_slice t)) out
      ≡ written (out ++ as_slice t) tt
tail_written t out = elim (Bool-cases (is_empty_tail t)) [
  | inl e ↦
      rw (e, if◌then◌else◌)
        (ap (λ xs. written xs tt)
          (sym (append-nil out) ∙ ap (λ xs. out ++ xs) (sym (empty-as_slice t e))))
  | inr e ↦ rw (e, if◌then◌else◌) refl
]

write_delimiter-bytes :
    (d : Dialect) (out : Bytes) → write_delimiter d out ≡ written (out ++ delimiter_bytes d) tt
unfolding write_delimiter
write_delimiter-bytes d out =
    tail_written d.delimiter_tail (out ++ (d.delimiter ∷ []))
    ∙ ap (λ xs. written xs tt) (append_assoc out (d.delimiter ∷ []) (as_slice d.delimiter_tail))

carriage_return_written :
    (b : Bool) (out : Bytes)
    → (if b then push b'\r' else return tt) out ≡ written (out ++ (if b then b'\r' ∷ [] else [])) tt
carriage_return_written true out = refl
carriage_return_written false out = ap (λ xs. written xs tt) (sym (append-nil out))

finish_record-bytes :
    (d : Dialect) (out : Bytes) → finish_record d out ≡ written (out ++ ending_bytes d) tt
unfolding finish_record
finish_record-bytes d out =
    let cr : Bytes = if is_crlf d.record_ending then b'\r' ∷ [] else [] in
    let last = terminator d.record_ending in
    >>=-written (if is_crlf d.record_ending then push b'\r' else return tt) _
      (carriage_return_written (is_crlf d.record_ending) out)
    ∙ tail_written d.ending_tail ((out ++ cr) ++ (last ∷ []))
    ∙ ap (λ xs. written xs tt)
        (append_assoc (out ++ cr) (last ∷ []) (as_slice d.ending_tail)
          ∙ append_assoc out cr (last ∷ as_slice d.ending_tail))

module _ (d : Dialect) (quotes : escapes_unquoted d.escape ≡ false) where
  emit_rest-text :
      (fields : List Bytes) (count : ℕ) (out : Bytes)
      → (n : ℕ) × (emit_rest (write_delimiter d) (write_quoted d) fields count out
          ≡ written (out ++ rest_text d fields) n)
  unfolding emit_rest
  emit_rest-text [] count out = (count, ap (λ xs. written xs count) (sym (append-nil out)))
  emit_rest-text (field ∷ fields) count out =
      let start = out ++ delimiter_bytes d in
      let more = emit_rest-text fields (count + 1) (start ++ quoted_field d field) in
      (
        more.0,
        >>=-written (write_delimiter d) _ (write_delimiter-bytes d out)
            ∙ >>=-written (write_quoted d field) _ (write_quoted-quoted_field d field start quotes)
            ∙ more.1
            ∙ ap (λ xs. written xs more.0)
                (append_assoc start (quoted_field d field) (rest_text d fields)
                  ∙ append_assoc out (delimiter_bytes d)
                      (quoted_field d field ++ rest_text d fields)),
      )

  -- Under `Quoting::Always` a record is written as its fields between quotes.
  pub emit_always-text :
      (parses_f64 : Bytes → Bool) (first : Bytes) (fields : List Bytes) (out : Bytes)
      → (n : ℕ) × (emit_record_runtime parses_f64 d Quoting.always (first ∷ fields) out
          ≡ written (out ++ record_text d first fields) n)
  unfolding emit_record_runtime emit_fields
  emit_always-text parses_f64 first fields out =
      let one = out ++ quoted_field d first in
      let more = emit_rest-text fields 1 one in
      (
        more.0,
        >>=-written (write_quoted d first) _ (write_quoted-quoted_field d first out quotes)
            ∙ >>=-written (emit_rest (write_delimiter d) (write_quoted d) fields 1) _ more.1
            ∙ >>=-written (finish_record d) _ (finish_record-bytes d (one ++ rest_text d fields))
            ∙ ap (λ xs. written xs more.0)
                (append_assoc one (rest_text d fields) (ending_bytes d)
                  ∙ append_assoc out (quoted_field d first) (rest_text d fields ++ ending_bytes d)),
      )
